-- ===== src/Store/Privacy/Forgetting.antt =====
-- What delete_user_data of crates/idiolect-adapter-sqlite/src/repository.rs leaves of a user.
use idiolect.Common.{◌+◌, ◌<◌, ◌≡◌, refl, [], ◌++◌, arith, lt→ltb, ◌||◌}
use idiolect.Text.{Text, text_eq, text_eq_refl, codes}
use idiolect.Store.{
  same_event_type, user_data_deleted, user, Db, ok, err, create_event, decimal, new_event, outcome,
  Reply,
}
use idiolect.Store.Table.{count, count-insert, count-delete_all}
use idiolect.Store.Candidates.{
  deletes_data_of, is_about_user, user_data_deleted_event_count, collect_candidates,
  training_candidates_for_manifest_v2, training_candidates_pending_sync,
}
use idiolect.Store.Privacy.{session_of, utterance_of, without_user, delete_user_data}

-- No row of the user, and none of a session that was the user's, is left.
pub record Forgotten (u : Text) (before db : Db) : Type 0 where
  pub sessions : count (λ s. text_eq s.user_id u) db.ime_text_sessions ≡ 0
  pub utterances : count (λ r. text_eq r.user_id u) db.utterances ≡ 0
  pub adapters : count (λ a. text_eq a.user_id u) db.adapters ≡ 0
  pub derivations : count (λ d. text_eq d.user_id u) db.adapter_derivations ≡ 0
  pub history :
      count (λ r. session_of u before.ime_text_sessions r.session_id) db.ime_text_history ≡ 0
  pub edits : count (λ e. session_of u before.ime_text_sessions e.session_id) db.ime_edit_events ≡ 0
  pub candidates :
      count
        (λ c.
          session_of u before.ime_text_sessions c.session_id
          || utterance_of u before.utterances c.utterance_id)
        db.training_candidates
      ≡ 0
  pub audio_files :
      count (λ f. utterance_of u before.utterances f.utterance_id) db.utterance_audio_files ≡ 0

without_user-Forgotten : (u : Text) (db : Db) → Forgotten u db (without_user u db)
unfolding without_user
without_user-Forgotten u db = record {
  sessions = count-delete_all _ _ db.ime_text_sessions (λ x h. h);
  utterances = count-delete_all _ _ db.utterances (λ x h. h);
  adapters = count-delete_all _ _ db.adapters (λ x h. h);
  derivations = count-delete_all _ _ db.adapter_derivations (λ x h. h);
  history = count-delete_all _ _ db.ime_text_history (λ x h. h);
  edits = count-delete_all _ _ db.ime_edit_events (λ x h. h);
  candidates = count-delete_all _ _ db.training_candidates (λ x h. h);
  audio_files = count-delete_all _ _ db.utterance_audio_files (λ x h. h);
}

-- The event of a deletion is counted, and changes no table but the log.
logged-Forgotten :
    (u json key : Text) (before db db' : Db)
    → create_event user u user_data_deleted json key db ≡ ok (tt, db')
    → Forgotten u before db
    → Forgotten u before db' × (0 < user_data_deleted_event_count u db')
unfolding create_event user_data_deleted_event_count is_about_user same_event_type
logged-Forgotten u json key before db db' e f = (
  record {
    sessions = ground (arith, f.sessions);
    utterances = ground (arith, f.utterances);
    adapters = ground (arith, f.adapters);
    derivations = ground (arith, f.derivations);
    history = ground (arith, f.history);
    edits = ground (arith, f.edits);
    candidates = ground (arith, f.candidates);
    audio_files = ground (arith, f.audio_files);
  },
  ground (
    arith,
    text_eq_refl u,
    count-insert (deletes_data_of u) (new_event user u user_data_deleted json key db) db.event_log,
  ),
)

outcome_inverse :
    (r : Reply (Unit {0} × Db)) (db db' : Db) → outcome r db ≡ (ok tt, db') → r ≡ ok (tt, db')
outcome_inverse (ok (u, d)) db db' e = ground arith
outcome_inverse (err x) db db' e = ground arith

-- The feeds are empty for a user with such an event.
feeds_empty :
    (u : Text) (db : Db)
    → 0 < user_data_deleted_event_count u db
    → (training_candidates_for_manifest_v2 u db ≡ []) × (training_candidates_pending_sync u db ≡ [])
unfolding training_candidates_for_manifest_v2 training_candidates_pending_sync collect_candidates
feeds_empty u db h = rw (lt→ltb 0 (user_data_deleted_event_count u db) h) (refl, refl)

-- When delete_user_data succeeds, no session, utterance, adapter or derivation of the user is left,
-- nor a history row, edit, candidate or audio-file row of the user's former sessions and utterances,
-- and the manifest feed and the sync outbox are empty for the user.
pub delete_user_data-Forgotten :
    (json : Text → Text) (u : Text) (db db' : Db)
    → delete_user_data json u db ≡ (ok tt, db')
    → Forgotten u db db'
      × (training_candidates_for_manifest_v2 u db' ≡ [])
      × (training_candidates_pending_sync u db' ≡ [])
unfolding delete_user_data
delete_user_data-Forgotten json u db db' e =
    let key =
      codes "user-data-deleted:"
      ++ u
      ++ codes ":"
      ++ decimal (user_data_deleted_event_count u db + 1) in
    let made =
      outcome_inverse (create_event user u user_data_deleted (json u) key (without_user u db)) db
        db' e in
    let (f, counted) =
      logged-Forgotten u (json u) key db (without_user u db) db' made
        (without_user-Forgotten u db) in
    let (manifest, outbox) = feeds_empty u db' counted in (f, manifest, outbox)
