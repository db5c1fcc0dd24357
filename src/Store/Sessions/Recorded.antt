-- ===== src/Store/Sessions/Recorded.antt =====
-- Which event a committed transaction leaves in the log, and what a later call with the same
-- idempotency key finds there: commit_session and cancel_session of
-- crates/idiolect-adapter-sqlite/src/repository.rs.
use mathlib.Core.Path.{subst}
use idiolect.Common.{
  ℕ, ◌≡◌, refl, sym, ◌∙◌, ap, true, false, none, some, [], arith, ◌⊎◌, inl, inr, Option-cases,
}
use idiolect.Text.{Text, text_eq, text_eq→eq, text_eq_refl}
use idiolect.Store.{
  EventType, session_created, preedit_corrected, session_committed, session_cancelled,
  user_data_deleted, history_entry_deleted, history_pruned, tray_config_changed, Event, Session,
  AggregateType, Db, once, find_session, new_event, ime_text_session, ok, err, idempotency_conflict,
  same_event_type, existing_event, duplicate_of, is_idempotent_duplicate, create_event, Tx,
}
use idiolect.Store.Table.{first, insert, first-insert_new}
use idiolect.Store.Sessions.{Setup, encode_with, encode_history_text}
use idiolect.Store.Sessions.Ending.{
  write_commit, commit_new, commit_session, cancel_new, cancel_session, cancel_payload,
}

-- A commit that succeeds has read the session's row and its raw text.
pub commit_new_cases :
    (sk text h key : Text) (now : ℕ) (db db' : Db)
    → commit_new sk text h key now db ≡ ok (tt, db')
    → (s : Session) × (raw : Text) × (find_session sk db ≡ some s)
      × (s.raw_stt_text ≡ some raw)
      × (write_commit sk s raw text h key now db ≡ ok (tt, db'))
unfolding commit_new
commit_new_cases sk text h key now db db' e = elim (Option-cases (find_session sk db)) [
  | inl missing ↦ cc
  | inr (s, found) ↦ elim (Option-cases s.raw_stt_text) [
    | inl missing ↦ ground arith
    | inr (raw, has_raw) ↦ (s, raw, found, has_raw, ground arith)
  ]
]

-- The log holds the key with this type and payload.
pub record Recorded (key : Text) (type : EventType) (payload : Text) (db : Db) : Type 0 where
  pub event : Event
  pub found : existing_event key db ≡ some event
  pub typed : event.event_type ≡ type
  pub paid : event.event_json ≡ payload

same_event_type_refl : (t : EventType) → same_event_type t t ≡ true
unfolding same_event_type
same_event_type_refl session_created = refl
same_event_type_refl preedit_corrected = refl
same_event_type_refl session_committed = refl
same_event_type_refl session_cancelled = refl
same_event_type_refl user_data_deleted = refl
same_event_type_refl history_entry_deleted = refl
same_event_type_refl history_pruned = refl
same_event_type_refl tray_config_changed = refl

pub same_event_type→eq : (s t : EventType) → same_event_type s t ≡ true → s ≡ t
unfolding same_event_type
same_event_type→eq session_created t h = ground arith
same_event_type→eq preedit_corrected t h = ground arith
same_event_type→eq session_committed t h = ground arith
same_event_type→eq session_cancelled t h = ground arith
same_event_type→eq user_data_deleted t h = ground arith
same_event_type→eq history_entry_deleted t h = ground arith
same_event_type→eq history_pruned t h = ground arith
same_event_type→eq tray_config_changed t h = ground arith

module _ (key : Text) (type : EventType) (payload : Text) (db : Db) where
  -- A key that is recorded with this type and payload is a duplicate.
  pub duplicate_found :
      Recorded key type payload db → is_idempotent_duplicate key type payload db ≡ ok (true, db)
  unfolding is_idempotent_duplicate duplicate_of
  duplicate_found r =
      rw r.found (rw (r.typed, r.paid) (rw (same_event_type_refl type, text_eq_refl payload) refl))

  -- With another type or payload it is a conflict.
  pub conflict_found :
      (type' : EventType) (payload' : Text)
      → Recorded key type' payload' db
      → (same_event_type type' type ≡ false) ⊎ (text_eq payload' payload ≡ false)
      → is_idempotent_duplicate key type payload db ≡ err (idempotency_conflict key)
  unfolding is_idempotent_duplicate duplicate_of
  conflict_found type' payload' r h = rw r.found (rw (r.typed, r.paid) (ground arith))

  module _ (m : Tx (Unit {0})) where
    pub once_again : Recorded key type payload db → once key type payload m db ≡ ok (tt, db)
    unfolding once
    once_again r = ground (arith, duplicate_found r)

    -- A call that succeeds has been made before, or is made now under a key that was free.
    pub once_cases :
        (db' : Db)
        → once key type payload m db ≡ ok (tt, db')
        → ((db' ≡ db) × Recorded key type payload db)
          ⊎ ((existing_event key db ≡ none) × (m db ≡ ok (tt, db')))
    unfolding once is_idempotent_duplicate duplicate_of
    once_cases db' h = elim (Option-cases (existing_event key db)) [
      | inl e ↦ inr (ground arith)
      | inr (ev, e) ↦ inl (
        ground arith,
        record {
          event = ev;
          found = e;
          typed = same_event_type→eq _ _ (ground arith);
          paid = text_eq→eq _ _ (ground arith);
        },
      )
    ]

    pub once_conflict :
        (type' : EventType) (payload' : Text)
        → Recorded key type' payload' db
        → (same_event_type type' type ≡ false) ⊎ (text_eq payload' payload ≡ false)
        → once key type payload m db ≡ err (idempotency_conflict key)
    unfolding once
    once_conflict type' payload' r h = ground (arith, conflict_found type' payload' r h)

module _ (key : Text) (db : Db) (new : existing_event key db ≡ none) where
  -- Where the log has grown by the event alone, the event is recorded.
  logged-Records :
      (a : AggregateType) (id : Text) (type : EventType) (json : Text) (db' : Db)
      → db'.event_log ≡ insert (new_event a id type json key db) db.event_log
      → Recorded key type json db'
  unfolding existing_event
  logged-Records a id type json db' h = record {
    event = new_event a id type json key db;
    found =
        ap (first (λ e. text_eq e.idempotency_key key)) h
        ∙ first-insert_new (λ e. text_eq e.idempotency_key key) (new_event a id type json key db)
            db.event_log new
        ∙ rw (text_eq_refl key) refl;
    typed = refl;
    paid = refl;
  }

  write_commit_logs :
      (sk : Text) (s : Session) (raw text h : Text) (now : ℕ) (db' : Db)
      → write_commit sk s raw text h key now db ≡ ok (tt, db')
      → db'.event_log
        ≡ insert (new_event ime_text_session sk session_committed text key db) db.event_log
  unfolding write_commit create_event
  write_commit_logs sk s raw text h now db' e = ground (arith, new)

  commit_new-Records :
      (sk text h : Text) (now : ℕ) (db' : Db)
      → commit_new sk text h key now db ≡ ok (tt, db')
      → Recorded key session_committed text db'
  commit_new-Records sk text h now db' e =
      let (s, raw, found, has_raw, written) = commit_new_cases sk text h key now db db' e in
      logged-Records ime_text_session sk session_committed text db'
        (write_commit_logs sk s raw text h now db' written)

  cancel_new-Records :
      (sk h : Text) (now : ℕ) (db' : Db)
      → cancel_new sk h key now db ≡ ok (tt, db')
      → Recorded key session_cancelled cancel_payload db'
  unfolding cancel_new create_event
  cancel_new-Records sk h now db' e =
      logged-Records ime_text_session sk session_cancelled cancel_payload db' (ground (arith, new))

module _ (p : Setup) (nonce : ℕ) (session_id key : Text) (now : ℕ) (db db' : Db) where
  -- A commit that succeeds had been made before, or is the first under its key.
  pub commit_session_cases :
      (text : Text)
      → commit_session p nonce session_id text key now db ≡ (ok tt, db')
      → ((db' ≡ db) × Recorded key session_committed text db)
        ⊎ ((h : Text) × (encode_with p.history_cipher nonce text ≡ some h)
            × (existing_event key db ≡ none)
            × (commit_new (p.session_key session_id) text h key now db ≡ ok (tt, db')))
  unfolding commit_session encode_history_text
  commit_session_cases text e = elim (Option-cases (encode_with p.history_cipher nonce text)) [
    | inl failed ↦ absurd (ground arith)
    | inr (h, encoded) ↦
        elim (once_cases key session_committed text db
          (commit_new (p.session_key session_id) text h key now) db' (ground arith)) [
            | inl again ↦ inl again
            | inr (new, done) ↦ inr (h, encoded, new, done)
          ]
  ]

  pub cancel_session_cases :
      cancel_session p nonce session_id key now db ≡ (ok tt, db')
      → ((db' ≡ db) × Recorded key session_cancelled cancel_payload db)
        ⊎ ((h : Text) × (encode_with p.history_cipher nonce [] ≡ some h)
            × (existing_event key db ≡ none)
            × (cancel_new (p.session_key session_id) h key now db ≡ ok (tt, db')))
  unfolding cancel_session encode_history_text
  cancel_session_cases e = elim (Option-cases (encode_with p.history_cipher nonce [])) [
    | inl failed ↦ absurd (ground arith)
    | inr (h, encoded) ↦
        elim (once_cases key session_cancelled cancel_payload db
          (cancel_new (p.session_key session_id) h key now) db' (ground arith)) [
            | inl again ↦ inl again
            | inr (new, done) ↦ inr (h, encoded, new, done)
          ]
  ]

  pub commit_session-Records :
      (text : Text)
      → commit_session p nonce session_id text key now db ≡ (ok tt, db')
      → Recorded key session_committed text db'
  commit_session-Records text e = elim (commit_session_cases text e) [
    | inl (same, r) ↦ subst (Recorded key session_committed text) (sym same) r
    | inr (h, encoded, new, done) ↦
        commit_new-Records key db new (p.session_key session_id) text h now db' done
  ]

  pub cancel_session-Records :
      cancel_session p nonce session_id key now db ≡ (ok tt, db')
      → Recorded key session_cancelled cancel_payload db'
  cancel_session-Records e = elim (cancel_session_cases e) [
    | inl (same, r) ↦ subst (Recorded key session_cancelled cancel_payload) (sym same) r
    | inr (h, encoded, new, done) ↦
        cancel_new-Records key db new (p.session_key session_id) h now db' done
  ]
