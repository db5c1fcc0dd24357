-- ===== src/Store/Sessions/Idempotence.antt =====
-- Repeated calls of commit_session and cancel_session of
-- crates/idiolect-adapter-sqlite/src/repository.rs.
use idiolect.Common.{ℕ, ◌≡◌, refl, ◌≢◌, false, some, [], arith, Bool-cases, inl, inr}
use idiolect.Text.{Text, text_eq, text_eq→eq}
use idiolect.Store.{
  session_committed, session_cancelled, same_event_type, Db, ok, err, idempotency_conflict,
}
use idiolect.Store.Sessions.{Setup, encode_with, encode_history_text}
use idiolect.Store.Sessions.Ending.{
  commit_new, commit_session, cancel_new, cancel_session, cancel_payload,
}
use idiolect.Store.Sessions.Recorded.{
  Recorded, once_again, once_conflict, commit_session-Records, cancel_session-Records,
}

module _ (p : Setup) (key : Text) (nonce : ℕ) (session_id : Text) (now : ℕ) (db : Db) where
  text_ne : (s t : Text) → s ≢ t → text_eq s t ≡ false
  text_ne s t d = elim (Bool-cases (text_eq s t)) [
    | inl e ↦ absurd (d (text_eq→eq s t e))
    | inr e ↦ e
  ]

  commit_of_record :
      (text : Text) {h : Text}
      → Recorded key session_committed text db
      → encode_with p.history_cipher nonce text ≡ some h
      → commit_session p nonce session_id text key now db ≡ (ok tt, db)
  unfolding commit_session encode_history_text
  commit_of_record text {h} r e = ground (
    arith,
    e,
    once_again key session_committed text db (commit_new (p.session_key session_id) text h key now)
        r,
  )

  commit_conflicts :
      (text text' : Text) {h : Text}
      → Recorded key session_committed text' db
      → text' ≢ text
      → encode_with p.history_cipher nonce text ≡ some h
      → commit_session p nonce session_id text key now db ≡ (err (idempotency_conflict key), db)
  unfolding commit_session encode_history_text
  commit_conflicts text text' {h} r d e = ground (
    arith,
    e,
    once_conflict key session_committed text db
        (commit_new (p.session_key session_id) text h key now) session_committed text' r
        (inr (text_ne text' text d)),
  )

  cancel_of_record :
      {h : Text}
      → Recorded key session_cancelled cancel_payload db
      → encode_with p.history_cipher nonce [] ≡ some h
      → cancel_session p nonce session_id key now db ≡ (ok tt, db)
  unfolding cancel_session encode_history_text
  cancel_of_record {h} r e = ground (
    arith,
    e,
    once_again key session_cancelled cancel_payload db
        (cancel_new (p.session_key session_id) h key now) r,
  )

  cancel_conflicts :
      (text : Text) {h : Text}
      → Recorded key session_committed text db
      → encode_with p.history_cipher nonce [] ≡ some h
      → cancel_session p nonce session_id key now db ≡ (err (idempotency_conflict key), db)
  unfolding cancel_session encode_history_text same_event_type
  cancel_conflicts text {h} r e = ground (
    arith,
    e,
    once_conflict key session_cancelled cancel_payload db
        (cancel_new (p.session_key session_id) h key now) session_committed text r (inl refl),
  )

module _ (p : Setup) (nonce : ℕ) (session_id key : Text) (now : ℕ) (db db' : Db) where
  -- A commit that succeeded may be repeated under its key, whatever the time, the session and the
  -- nonce of the repetition, if the text can be encoded again: it succeeds and changes nothing.
  pub commit_again :
      (text : Text)
      → commit_session p nonce session_id text key now db ≡ (ok tt, db')
      → (nonce' : ℕ) (session_id' : Text) (now' : ℕ) {h : Text}
      → encode_with p.history_cipher nonce' text ≡ some h
      → commit_session p nonce' session_id' text key now' db' ≡ (ok tt, db')
  commit_again text done nonce' session_id' now' e =
      commit_of_record p key nonce' session_id' now' db' text
        (commit_session-Records p nonce session_id key now db db' text done) e

  -- Once a commit has succeeded, its key is spent: a commit of another text and a cancellation under
  -- that key, if what they write can be encoded, fail with a conflict and change nothing.
  pub commit_spends_key :
      (text : Text)
      → commit_session p nonce session_id text key now db ≡ (ok tt, db')
      → (nonce' : ℕ) (session_id' : Text) (now' : ℕ) (text' : Text) {h h' : Text} → text ≢ text'
      → encode_with p.history_cipher nonce' text' ≡ some h
      → encode_with p.history_cipher nonce' [] ≡ some h'
      → (commit_session p nonce' session_id' text' key now' db'
          ≡ (err (idempotency_conflict key), db'))
        × (cancel_session p nonce' session_id' key now' db' ≡ (err (idempotency_conflict key), db'))
  commit_spends_key text done nonce' session_id' now' text' d e e' =
      let r = commit_session-Records p nonce session_id key now db db' text done in
      (
        commit_conflicts p key nonce' session_id' now' db' text' text r d e,
        cancel_conflicts p key nonce' session_id' now' db' text r e',
      )

  -- A cancellation that succeeded may be repeated under its key, if the empty text can be encoded
  -- again: it succeeds and changes nothing.
  pub cancel_again :
      cancel_session p nonce session_id key now db ≡ (ok tt, db')
      → (nonce' : ℕ) (session_id' : Text) (now' : ℕ) {h : Text}
      → encode_with p.history_cipher nonce' [] ≡ some h
      → cancel_session p nonce' session_id' key now' db' ≡ (ok tt, db')
  cancel_again done nonce' session_id' now' e =
      cancel_of_record p key nonce' session_id' now' db'
        (cancel_session-Records p nonce session_id key now db db' done) e
