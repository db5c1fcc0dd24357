-- ===== src/Store/Sessions/CommittedRows.antt =====
-- The committed rows of the tray's history under the methods that
-- crates/idiolect-adapter-sqlite/src/repository.rs has for a session.
use idiolect.Common.{
  ℕ, suc, ◌≤◌, ◌≡◌, refl, sym, ap, Bool, true, false, Option, none, some, List, arith, Bool-cases,
  Option-cases, inl, inr, if◌then◌else◌,
}
use idiolect.Text.{Text, text_eq, text_eq→eq, text_eq_comm, text_eq_refl}
use idiolect.Store.{
  HistoryState, Session, HistoryRow, Db, ok, create_event, find_session, has_id, is_committed_state,
  is_committed_row,
}
use idiolect.Store.Table.{
  first, count, update, insert, first-update, first-holds, first-insert_old, first-insert_new,
  count-insert, count-update,
}
use idiolect.Store.Sessions.{
  Setup, insert_utterance, new_session, session_exists, insert_edit_event, create_session,
  insert_session, change_preedit, set_preedit, ensure_user,
}
use idiolect.Store.Sessions.Ending.{
  set_committed, write_commit, insert_candidate, commit_new, set_cancelled, should_record,
  cancel_new,
}
use idiolect.Store.Sessions.Amending.{
  committed_in, amend_session, set_history_text, write_amendment,
}
use idiolect.Store.Sessions.Recorded.{commit_new_cases}

-- The number of committed history rows of a session.
abbrev pub committed_rows : Text → Db → ℕ
committed_rows key db = count (committed_in key) db.ime_text_history

unfoldable pub session_is_committed : Option Session → Bool
session_is_committed none = false
session_is_committed (some s) = is_committed_state s.state

-- The history holds at most one committed row of a session, and one only if the session is committed.
abbrev pub CommittedOnce : Db → Type 0
CommittedOnce db =
    (key : Text)
    → committed_rows key db ≤ (if session_is_committed (find_session key db) then 1 else 0)

-- An update of the sessions that keeps their identifiers.
find-update_session :
    (k key : Text) (f : Session → Session) (rows : List Session)
    → ((s : Session) → (f s).id ≡ s.id)
    → first (has_id k) (update (has_id key) f rows) ≡ elim (first (has_id k) rows) [
      | none ↦ none
      | some s ↦ some (if text_eq s.id key then f s else s)
    ]
find-update_session k key f rows keeps =
    first-update (has_id key) (has_id k) f rows (λ s. ap (λ t. text_eq t k) (keeps s))

text_eq_swap : (s t u : Text) → text_eq s t ≡ true → text_eq t u ≡ text_eq s u
text_eq_swap s t u e = rw (text_eq→eq s t e) refl

-- After an update of one session, that one is as committed as its new row, the others as before.
committed-update :
    (k key : Text) (f : Session → Session) (s : Session) (rows : List Session)
    → ((s : Session) → (f s).id ≡ s.id)
    → first (has_id key) rows ≡ some s
    → session_is_committed (first (has_id k) (update (has_id key) f rows)) ≡ (
        if text_eq key k
        then is_committed_state (f s).state
        else session_is_committed (first (has_id k) rows))
unfolding session_is_committed
committed-update k key f s rows keeps found =
    rw (find-update_session k key f rows keeps) (elim (Bool-cases (text_eq key k)) [
      | inl same ↦
          rw (← text_eq→eq key k same)
            (ground (arith, found, text_eq_refl key, first-holds (has_id key) s rows found))
      | inr other ↦ elim (Option-cases (first (has_id k) rows)) [
        | inl e ↦ ground (arith, e)
        | inr (s', e) ↦ ground (
          arith,
          e,
          text_eq_swap s'.id k key (first-holds (has_id k) s' rows e),
          text_eq_comm k key,
        )
      ]
    ])

-- An update that keeps the state of every row keeps which sessions are committed.
committed-keep :
    (k key : Text) (f : Session → Session) (rows : List Session)
    → ((s : Session) → (f s).id ≡ s.id)
    → ((s : Session) → is_committed_state (f s).state ≡ is_committed_state s.state)
    → session_is_committed (first (has_id k) (update (has_id key) f rows))
      ≡ session_is_committed (first (has_id k) rows)
unfolding session_is_committed
committed-keep k key f rows keeps same =
    rw (find-update_session k key f rows keeps) (elim (Option-cases (first (has_id k) rows)) [
      | inl e ↦ ground (arith, e)
      | inr (s, e) ↦ ground (arith, e, same s)
    ])

abbrev new_row : Text → Text → HistoryState → ℕ → Db → HistoryRow
new_row key text state now db = record {
  id = suc db.history_seq;
  session_id = key;
  text = text;
  state = state;
  created_at = now;
}

write_commit_rows :
    (key : Text) (s : Session) (raw text h idempotency_key : Text) (now : ℕ) (db db' : Db)
    → write_commit key s raw text h idempotency_key now db ≡ ok (tt, db')
    → (db'.ime_text_sessions ≡ update (has_id key) (set_committed text now) db.ime_text_sessions)
      × (db'.ime_text_history ≡ (
          if is_committed_state s.state
          then db.ime_text_history
          else insert (new_row key h HistoryState.committed now db) db.ime_text_history))
unfolding write_commit create_event insert_candidate
write_commit_rows key s raw text h idempotency_key now db db' e = (ground arith, ground arith)

-- A row is added for a session that had none, or not at all; the session ends up committed.
shown_bound :
    (k key : Text) (s : Session) (row : HistoryRow) (sessions : List Session)
    (rows : List HistoryRow)
    → count (committed_in k) rows
      ≤ (if session_is_committed (first (has_id k) sessions) then 1 else 0)
    → row.session_id ≡ key
    → first (has_id key) sessions ≡ some s
    → count (committed_in k) (if is_committed_state s.state then rows else insert row rows) ≤ (
        if if text_eq key k then true else session_is_committed (first (has_id k) sessions)
        then 1
        else 0)
unfolding session_is_committed
shown_bound k key s row sessions rows before here found = elim (Bool-cases (text_eq key k)) [
  | inl same ↦
      let found' : first (has_id k) sessions ≡ some s = rw (sym (text_eq→eq key k same)) found in
      ground (arith, found', count-insert (committed_in k) row rows)
  | inr other ↦ ground (arith, count-insert (committed_in k) row rows, ap (λ t. text_eq t k) here)
]

pub commit_new-CommittedOnce :
    (key text h idempotency_key : Text) (now : ℕ) (db db' : Db)
    → commit_new key text h idempotency_key now db ≡ ok (tt, db')
    → CommittedOnce db
    → CommittedOnce db'
unfolding find_session set_committed is_committed_state
commit_new-CommittedOnce key text h idempotency_key now db db' e before k =
    let (s, raw, found, has_raw, written) =
      commit_new_cases key text h idempotency_key now db db' e in
    let (sessions, rows) = write_commit_rows key s raw text h idempotency_key now db db' written in
    rw (sessions, rows)
      (rw (committed-update k key (set_committed text now) s db.ime_text_sessions (λ s. refl) found)
        (shown_bound k key s (new_row key h HistoryState.committed now db) db.ime_text_sessions
          db.ime_text_history (before k) refl found))

set_cancelled_id : (now : ℕ) (s : Session) → (set_cancelled now s).id ≡ s.id
unfolding set_cancelled
set_cancelled_id now s = ground arith

cancel_new_rows :
    (key h idempotency_key : Text) (now : ℕ) (db db' : Db)
    → cancel_new key h idempotency_key now db ≡ ok (tt, db')
    → (s : Session) × (find_session key db ≡ some s)
      × (db'.ime_text_sessions ≡ update (has_id key) (set_cancelled now) db.ime_text_sessions)
      × (db'.ime_text_history ≡ (
          if should_record s.state
          then insert (new_row key h HistoryState.cancelled now db) db.ime_text_history
          else db.ime_text_history))
unfolding cancel_new create_event
cancel_new_rows key h idempotency_key now db db' e = elim (Option-cases (find_session key db)) [
  | inl missing ↦ cc
  | inr (s, found) ↦ (s, found, ground arith, ground arith)
]

set_cancelled_committed :
    (now : ℕ) (s : Session)
    → is_committed_state (set_cancelled now s).state ≡ is_committed_state s.state
unfolding set_cancelled
set_cancelled_committed now s = ground arith

-- A cancellation keeps a committed session committed, and adds no committed row.
pub cancel_new-CommittedOnce :
    (key h idempotency_key : Text) (now : ℕ) (db db' : Db)
    → cancel_new key h idempotency_key now db ≡ ok (tt, db')
    → CommittedOnce db
    → CommittedOnce db'
unfolding find_session is_committed_row
cancel_new-CommittedOnce key h idempotency_key now db db' e before k =
    let (s, found, sessions, rows) = cancel_new_rows key h idempotency_key now db db' e in
    rw sessions (
      rw
        (committed-keep k key (set_cancelled now) db.ime_text_sessions (set_cancelled_id now)
          (set_cancelled_committed now))
        (ground (
          arith,
          rows,
          before k,
          count-insert (committed_in k) (new_row key h HistoryState.cancelled now db)
              db.ime_text_history,
        )))

pub change_preedit-CommittedOnce :
    (key from_text to_text : Text) (index : ℕ) (payload idempotency_key : Text) (db db' : Db)
    → change_preedit key from_text to_text index payload idempotency_key db ≡ ok (tt, db')
    → CommittedOnce db
    → CommittedOnce db'
unfolding find_session change_preedit session_exists create_event insert_edit_event
change_preedit-CommittedOnce key from_text to_text index payload idempotency_key db db' e before k =
    let sessions : db'.ime_text_sessions
        ≡ update (has_id key) (set_preedit to_text) db.ime_text_sessions =
      ground arith in
    let rows : db'.ime_text_history ≡ db.ime_text_history = ground arith in
    rw (sessions, rows)
      (rw
        (committed-keep k key (set_preedit to_text) db.ime_text_sessions
          (λ s. unfold set_preedit in refl) (λ s. unfold set_preedit in refl))
        (before k))

pub write_amendment-CommittedOnce :
    (key from_text text h : Text) (db : Db)
    → CommittedOnce db
    → CommittedOnce (write_amendment key from_text text h db)
unfolding find_session write_amendment set_history_text
write_amendment-CommittedOnce key from_text text h db before k =
    rw
      (count-update (committed_in key) (committed_in k) (set_history_text h) db.ime_text_history
        (λ r. refl))
      (rw
        (committed-keep k key (amend_session text) db.ime_text_sessions
          (λ s. unfold amend_session in refl) (λ s. unfold amend_session in refl))
        (before k))

-- A row that is not committed makes no session committed.
committed-insert :
    (k : Text) (s : Session) (rows : List Session)
    → is_committed_state s.state ≡ false
    → session_is_committed (first (has_id k) (insert s rows))
      ≡ session_is_committed (first (has_id k) rows)
unfolding session_is_committed
committed-insert k s rows open_state = elim (Option-cases (first (has_id k) rows)) [
  | inl e ↦ ground (arith, e, first-insert_new (has_id k) s rows e)
  | inr (z, e) ↦ ground (arith, e, first-insert_old (has_id k) s z rows e)
]

create_session_tables :
    (p : Setup) (session_id : Text) (raw : Option Text) (now : ℕ) (k : Text) (db : Db)
    → ((create_session p session_id raw now db).1.ime_text_history ≡ db.ime_text_history)
      × (session_is_committed (find_session k (create_session p session_id raw now db).1)
          ≡ session_is_committed (find_session k db))
unfolding create_session find_session ensure_user insert_utterance insert_session create_event
    is_committed_state
create_session_tables p session_id raw now k db = (
  ground arith,
  ground (
    arith,
    committed-insert k (new_session (p.session_key session_id) raw now) db.ime_text_sessions refl,
  ),
)

pub create_session-CommittedOnce :
    (p : Setup) (session_id : Text) (raw : Option Text) (now : ℕ) (db : Db)
    → CommittedOnce db
    → CommittedOnce (create_session p session_id raw now db).1
create_session-CommittedOnce p session_id raw now db before k =
    let (rows, sessions) = create_session_tables p session_id raw now k db in
    rw (rows, sessions) (before k)
