-- ===== src/Store/Runs/Once.antt =====
-- The committed rows of the tray's history over all runs of the repository's methods in
-- crates/idiolect-adapter-sqlite/src/repository.rs.
use idiolect.Common.{
  ℕ, ◌≡◌, refl, sym, List, [], ◌∷◌, ◌++◌, arith, Bool-cases, Option-cases, inl, inr, ◌==◌, Option,
  none, some,
}
use mathlib.Core.Path.{subst}
use idiolect.Text.{Text, text_eq, codes}
use idiolect.Store.{
  Db, Reply, ok, outcome, ◌>>=◌, ◌>>◌, run, create_event, find_session, preedit_corrected, decimal,
  Candidate, Session, synced,
}
use idiolect.Store.Table.{count-delete, first}
use idiolect.Store.Sessions.{
  Setup, encode_with, encode_history_text, record_preedit_change, change_preedit, session_exists,
}
use idiolect.Store.Sessions.Ending.{commit_session, cancel_session}
use idiolect.Store.Sessions.Amending.{amend_correction, write_amendment, committed_in}
use idiolect.Store.Sessions.Recorded.{commit_session_cases, cancel_session_cases, once_cases}
use idiolect.Store.Sessions.CommittedRows.{
  CommittedOnce, commit_new-CommittedOnce, cancel_new-CommittedOnce, change_preedit-CommittedOnce,
  write_amendment-CommittedOnce, create_session-CommittedOnce,
}
use idiolect.Store.History.{
  prune_history, log_pruning, is_older, delete_history_entry, set_tray_setting,
}
use idiolect.Store.Candidates.{
  reject_training_candidate, retranscribe_training_candidate, training_candidates_pending_sync,
  is_candidate, with_status,
}
use idiolect.Store.Candidates.Eviction.{evict_captured_audio_over_cap, sized, FileAudioStore}
use idiolect.Store.Candidates.Shipping.{
  mark_synced_and_drop_audio, set_audio_digest, ship_found, ship_candidate,
}
use idiolect.Store.Runs.{
  ship, digest, Call, create, preedit, commit, cancel, amend, prune, delete_entry, set_setting,
  reject, retranscribe, evict, prune_training, delete_user, EventJson, call, after,
}
use idiolect.Store.Runs.Deletions.{
  outcome-CommittedOnce, fewer-CommittedOnce, evict_sized-CommittedOnce, delete_user-CommittedOnce,
  prune_training-CommittedOnce,
}

-- The result of a transaction that ran, read off its outcome.
outcome_ok :
    (r : Reply (Unit {0} × Db)) (db db' : Db) → r ≡ ok (tt, db') → outcome r db ≡ (ok tt, db')
outcome_ok r db db' e = rw e refl

commit-CommittedOnce :
    (p : Setup) (nonce : ℕ) (id text key : Text) (now : ℕ) (db : Db)
    → CommittedOnce db
    → CommittedOnce (commit_session p nonce id text key now db).1
unfolding commit_session
commit-CommittedOnce p nonce id text key now db before = outcome-CommittedOnce _ db before λ db' e.
    elim (commit_session_cases p nonce id key now db db' text (outcome_ok _ db db' e)) [
      | inl (same, r) ↦ subst CommittedOnce (sym same) before
      | inr (h, encoded, new, done) ↦
          commit_new-CommittedOnce (p.session_key id) text h key now db db' done before
    ]

cancel-CommittedOnce :
    (p : Setup) (nonce : ℕ) (id key : Text) (now : ℕ) (db : Db)
    → CommittedOnce db
    → CommittedOnce (cancel_session p nonce id key now db).1
unfolding cancel_session
cancel-CommittedOnce p nonce id key now db before = outcome-CommittedOnce _ db before λ db' e.
    elim (cancel_session_cases p nonce id key now db db' (outcome_ok _ db db' e)) [
      | inl (same, r) ↦ subst CommittedOnce (sym same) before
      | inr (h, encoded, new, done) ↦
          cancel_new-CommittedOnce (p.session_key id) h key now db db' done before
    ]

preedit-CommittedOnce :
    (p : Setup) (id from to : Text) (index : ℕ) (db : Db)
    → CommittedOnce db
    → CommittedOnce (record_preedit_change p id from to index db).1
unfolding record_preedit_change
preedit-CommittedOnce p id from to index db before =
    let key = codes "preedit:" ++ p.session_key id ++ codes ":" ++ decimal index in
    let payload = from ++ codes "->" ++ to ++ codes ":" ++ decimal index in
    outcome-CommittedOnce _ db before λ db' e.
      elim (once_cases key preedit_corrected payload db
        (change_preedit (p.session_key id) from to index payload key) db' e) [
          | inl (same, r) ↦ subst CommittedOnce (sym same) before
          | inr (new, done) ↦
              change_preedit-CommittedOnce (p.session_key id) from to index payload key db db' done
                before
        ]

-- An amendment that runs has encoded the text and found the session.
amend_written :
    (p : Setup) (nonce : ℕ) (id from to : Text) (db db' : Db)
    → (encode_history_text p nonce to >>= λ h.
          session_exists (p.session_key id) >> run (write_amendment (p.session_key id) from to h))
        db
      ≡ ok (tt, db')
    → (h : Text) × (db' ≡ write_amendment (p.session_key id) from to h db)
unfolding encode_history_text session_exists
amend_written p nonce id from to db db' e =
    elim (Option-cases (encode_with p.history_cipher nonce to)) [
      | inl none_encoded ↦ absurd (ground arith)
      | inr (h, encoded) ↦ elim (Option-cases (find_session (p.session_key id) db)) [
        | inl missing ↦ absurd (ground arith)
        | inr (s, found) ↦ (h, ground arith)
      ]
    ]

amend-CommittedOnce :
    (p : Setup) (nonce : ℕ) (id from to : Text) (db : Db)
    → CommittedOnce db
    → CommittedOnce (amend_correction p nonce id from to db).1
unfolding amend_correction
amend-CommittedOnce p nonce id from to db before = elim (Bool-cases (text_eq to from)) [
  | inl same ↦ rw same before
  | inr other ↦ rw other (
      outcome-CommittedOnce _ db before λ db' e.
        let (h, same) = amend_written p nonce id from to db db' e in
        subst CommittedOnce (sym same)
          (write_amendment-CommittedOnce (p.session_key id) from to h db before))
]

prune-CommittedOnce :
    (now days : ℕ) (db : Db) → CommittedOnce db → CommittedOnce (prune_history now days db).1
unfolding prune_history log_pruning create_event
prune-CommittedOnce now days db =
    fewer-CommittedOnce db _ (ground arith)
      (λ k. ground (arith, count-delete (is_older now days) (committed_in k) db.ime_text_history))

delete_entry-CommittedOnce :
    (id : ℕ) (db : Db) → CommittedOnce db → CommittedOnce (delete_history_entry id db).1
unfolding delete_history_entry create_event
delete_entry-CommittedOnce id db =
    fewer-CommittedOnce db _ (ground arith)
      (λ k. ground (arith, count-delete (λ r. r.id == id) (committed_in k) db.ime_text_history))

setting-CommittedOnce :
    (json : Text → Text → Text) (key value : Text) (db : Db)
    → CommittedOnce db
    → CommittedOnce (set_tray_setting json key value db).1
unfolding set_tray_setting create_event
setting-CommittedOnce json key value db =
    fewer-CommittedOnce db _ (ground arith) (λ k. ground arith)

reject-CommittedOnce :
    (id : ℕ) (db : Db) → CommittedOnce db → CommittedOnce (reject_training_candidate id db).1
unfolding reject_training_candidate
reject-CommittedOnce id db = fewer-CommittedOnce db _ (ground arith) (λ k. ground arith)

retranscribe-CommittedOnce :
    (id : ℕ) (text : Text) (db : Db)
    → CommittedOnce db
    → CommittedOnce (retranscribe_training_candidate id text db).1
unfolding retranscribe_training_candidate
retranscribe-CommittedOnce id text db = fewer-CommittedOnce db _ (ground arith) (λ k. ground arith)

ship_status-CommittedOnce :
    (store : FileAudioStore) (id : ℕ) (c : Candidate) (s : Option Session) (db : Db)
    → CommittedOnce db
    → CommittedOnce (ship_candidate store id c s db).1
unfolding ship_candidate
ship_status-CommittedOnce store id c none db h = h
ship_status-CommittedOnce store id c (some s) db h =
    fewer-CommittedOnce db (with_status id synced db) refl (λ k. omega arith) h

ship_found-CommittedOnce :
    (store : FileAudioStore) (id : ℕ) (o : Option Candidate) (db : Db)
    → CommittedOnce db
    → CommittedOnce (ship_found store id o db).1
unfolding ship_found
ship_found-CommittedOnce store id none db h = h
ship_found-CommittedOnce store id (some c) db h =
    ship_status-CommittedOnce store id c (find_session c.session_id db) db h

digest-CommittedOnce :
    (utterance hash : Text) (db : Db)
    → CommittedOnce db
    → CommittedOnce (set_audio_digest utterance hash db).1
unfolding set_audio_digest
digest-CommittedOnce utterance hash db = fewer-CommittedOnce db _ (ground arith) (λ k. ground arith)

call-CommittedOnce :
    (p : Setup) (j : EventJson) (c : Call) (db : Db)
    → CommittedOnce db
    → CommittedOnce (call p j c db)
unfolding call evict_captured_audio_over_cap mark_synced_and_drop_audio
call-CommittedOnce p j (create id raw now) db h = create_session-CommittedOnce p id raw now db h
call-CommittedOnce p j (preedit id from to index) db h =
    preedit-CommittedOnce p id from to index db h
call-CommittedOnce p j (commit nonce id text key now) db h =
    commit-CommittedOnce p nonce id text key now db h
call-CommittedOnce p j (cancel nonce id key now) db h = cancel-CommittedOnce p nonce id key now db h
call-CommittedOnce p j (amend nonce id from to) db h = amend-CommittedOnce p nonce id from to db h
call-CommittedOnce p j (prune now days) db h = prune-CommittedOnce now days db h
call-CommittedOnce p j (delete_entry id) db h = delete_entry-CommittedOnce id db h
call-CommittedOnce p j (set_setting key value) db h = setting-CommittedOnce j.setting key value db h
call-CommittedOnce p j (reject id) db h = reject-CommittedOnce id db h
call-CommittedOnce p j (retranscribe id text) db h = retranscribe-CommittedOnce id text db h
call-CommittedOnce p j (ship id store) db h =
    ship_found-CommittedOnce store id (first (is_candidate id) db.training_candidates) db h
call-CommittedOnce p j (digest utterance hash) db h = digest-CommittedOnce utterance hash db h
call-CommittedOnce p j (evict u cap store) db h =
    evict_sized-CommittedOnce store cap (sized store (training_candidates_pending_sync u db) 0) db h
call-CommittedOnce p j (prune_training now days store) db h =
    prune_training-CommittedOnce now days store db h
call-CommittedOnce p j (delete_user u) db h = delete_user-CommittedOnce j.user u db h

-- If the history holds at most one committed row of a session, and one only of a session that is
-- committed, then it does so after every run of calls, whatever their arguments, and whether they
-- succeed or fail. The rows of cancelled takes are not counted.
pub after-CommittedOnce :
    (p : Setup) (j : EventJson) (calls : List Call) (db : Db)
    → CommittedOnce db
    → CommittedOnce (after p j calls db)
unfolding after
after-CommittedOnce p j [] db h = h
after-CommittedOnce p j (c ∷ calls) db h =
    after-CommittedOnce p j calls (call p j c db) (call-CommittedOnce p j c db h)
