-- ===== src/Store/Runs/Deletions.antt =====
-- Deletions and the history of the tray: what delete_user_data, prune_training_data and the storage
-- cap of crates/idiolect-adapter-sqlite/src/repository.rs leave of it.
use idiolect.Common.{
  ℕ, ◌≤◌, ◌≡◌, refl, false, not, Option, none, some, List, [], ◌∷◌, ◌++◌, ◌+◌, arith, Bool-cases,
  inl, inr, ◌==◌,
}
use idiolect.Text.{Text, text_eq, text_eq→eq, codes}
use idiolect.Store.{
  AggregateType, EventType, user, user_data_deleted, Db, Reply, ok, err, outcome, create_event,
  find_session, has_id, Session, decimal,
}
use idiolect.Store.Table.{first, delete, select, first-select, count-delete, count-delete_all}
use idiolect.Store.Sessions.Amending.{committed_in}
use idiolect.Store.Sessions.CommittedRows.{committed_rows, CommittedOnce}
use idiolect.Store.Candidates.{ManifestV2TrainingCandidate, user_data_deleted_event_count}
use idiolect.Store.Candidates.Eviction.{
  FileAudioStore, evict_sized, evict_loop, start, evict_one, Evicting,
}
use idiolect.Store.Privacy.{
  delete_user_data, prune_training_data, without_user, without_session, without_sessions,
  session_of, is_expired, audio_deleted,
}

-- A transaction keeps what its statements keep.
pub outcome-CommittedOnce :
    (r : Reply (Unit {0} × Db)) (db : Db)
    → CommittedOnce db
    → ((db' : Db) → r ≡ ok (tt, db') → CommittedOnce db')
    → CommittedOnce (outcome r db).1
outcome-CommittedOnce (ok (u, db')) db before keeps = keeps db' refl
outcome-CommittedOnce (err x) db before keeps = before

-- Fewer rows of the history, and the same sessions.
pub fewer-CommittedOnce :
    (db db' : Db)
    → db'.ime_text_sessions ≡ db.ime_text_sessions
    → ((k : Text) → committed_rows k db' ≤ committed_rows k db)
    → CommittedOnce db
    → CommittedOnce db'
unfolding find_session
fewer-CommittedOnce db db' sessions rows before k = rw sessions (ground (arith, rows k, before k))

evict_loop_tables :
    (store : FileAudioStore) (cap : ℕ) (cs : List (ManifestV2TrainingCandidate × ℕ)) (e : Evicting)
    → ((evict_loop store cap cs e).db.ime_text_sessions ≡ e.db.ime_text_sessions)
      × ((evict_loop store cap cs e).db.ime_text_history ≡ e.db.ime_text_history)
unfolding evict_loop evict_one
evict_loop_tables store cap [] e = (refl, refl)
evict_loop_tables store cap ((c, size) ∷ rest) e =
    ground (arith, evict_loop_tables store cap rest (evict_one store c size e))

pub evict_sized-CommittedOnce :
    (store : FileAudioStore) (cap : ℕ) (o : Option (List (ManifestV2TrainingCandidate × ℕ) × ℕ))
    (db : Db)
    → CommittedOnce db
    → CommittedOnce (evict_sized store cap o db).1
unfolding evict_sized
evict_sized-CommittedOnce store cap none db before = before
evict_sized-CommittedOnce store cap (some (cs, total)) db before =
    let (sessions, rows) = evict_loop_tables store cap cs (start db total) in
    fewer-CommittedOnce db _ sessions (λ k. rw rows (omega arith)) before

-- A session that is not the user's is found as before.
find-without_user :
    (u k : Text) (rows : List Session)
    → session_of u rows k ≡ false
    → first (has_id k) (delete (λ s. text_eq s.user_id u) rows) ≡ first (has_id k) rows
unfolding first delete select session_of
find-without_user u k [] h = refl
find-without_user u k (s ∷ rows) h = ground (arith, find-without_user u k rows)

without_user-CommittedOnce :
    (u : Text) (db : Db) → CommittedOnce db → CommittedOnce (without_user u db)
unfolding without_user find_session
without_user-CommittedOnce u db before k = elim (Bool-cases (session_of u db.ime_text_sessions k)) [
  | inl mine ↦
      rw
        (count-delete_all (λ r. session_of u db.ime_text_sessions r.session_id) (committed_in k)
          db.ime_text_history (λ r h. rw (text_eq→eq r.session_id k (ground arith)) mine))
        (omega arith)
  | inr other ↦ rw (find-without_user u k db.ime_text_sessions other) (
      ground (
        arith,
        before k,
        count-delete (λ r. session_of u db.ime_text_sessions r.session_id) (committed_in k)
            db.ime_text_history,
      ))
]

create_event_keeps :
    (a : AggregateType) (id : Text) (t : EventType) (json key : Text) (db db' : Db)
    → create_event a id t json key db ≡ ok (tt, db')
    → (db'.ime_text_sessions ≡ db.ime_text_sessions) × (db'.ime_text_history ≡ db.ime_text_history)
unfolding create_event
create_event_keeps a id t json key db db' e = (ground arith, ground arith)

pub delete_user-CommittedOnce :
    (json : Text → Text) (u : Text) (db : Db)
    → CommittedOnce db
    → CommittedOnce (delete_user_data json u db).1
unfolding delete_user_data
delete_user-CommittedOnce json u db before =
    let key =
      codes "user-data-deleted:"
      ++ u
      ++ codes ":"
      ++ decimal (user_data_deleted_event_count u db + 1) in
    outcome-CommittedOnce (create_event user u user_data_deleted (json u) key (without_user u db))
      db before
      λ db' e.
        let (sessions, rows) =
          create_event_keeps user u user_data_deleted (json u) key (without_user u db) db' e in
        fewer-CommittedOnce (without_user u db) db' sessions (λ k. rw rows (omega arith))
          (without_user-CommittedOnce u db before)

find-without_session :
    (id k : Text) (rows : List Session)
    → text_eq k id ≡ false
    → first (has_id k) (delete (λ t. text_eq t.id id) rows) ≡ first (has_id k) rows
unfolding delete
find-without_session id k rows h =
    first-select (λ t. not (text_eq t.id id)) (has_id k) rows
      (λ t e. rw (text_eq→eq t.id k e) (rw h refl))

without_session-CommittedOnce :
    (s : Session) (db : Db) → CommittedOnce db → CommittedOnce (without_session s db)
unfolding without_session find_session
without_session-CommittedOnce s db before k = elim (Bool-cases (text_eq k s.id)) [
  | inl mine ↦
      rw
        (count-delete_all (λ r. text_eq r.session_id s.id) (committed_in k) db.ime_text_history
          (λ r h. rw (text_eq→eq r.session_id k (ground arith)) mine))
        (omega arith)
  | inr other ↦ rw (find-without_session s.id k db.ime_text_sessions other) (
      ground (
        arith,
        before k,
        count-delete (λ r. text_eq r.session_id s.id) (committed_in k) db.ime_text_history,
      ))
]

without_sessions-CommittedOnce :
    (expired : List Session) (db : Db)
    → CommittedOnce db
    → CommittedOnce (without_sessions expired db)
unfolding without_sessions
without_sessions-CommittedOnce [] db before = before
without_sessions-CommittedOnce (s ∷ expired) db before =
    without_sessions-CommittedOnce expired (without_session s db)
      (without_session-CommittedOnce s db before)

pub prune_training-CommittedOnce :
    (now days : ℕ) (store : FileAudioStore) (db : Db)
    → CommittedOnce db
    → CommittedOnce (prune_training_data now days store db).1
unfolding prune_training_data
prune_training-CommittedOnce now days store db before =
    let expired = select (is_expired now days) db.ime_text_sessions in
    elim (Bool-cases (days == 0)) [
      | inl off ↦ rw off before
      | inr on ↦ elim (Bool-cases (audio_deleted store expired)) [
        | inl done ↦ rw (on, done) (without_sessions-CommittedOnce expired db before)
        | inr failed ↦ rw (on, failed) before
      ]
    ]
