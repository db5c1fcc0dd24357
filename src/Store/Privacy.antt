-- ===== src/Store/Privacy.antt =====
-- delete_user_data and prune_training_data of crates/idiolect-adapter-sqlite/src/repository.rs, over
-- the tables of this model: the manifests, the correction memory and the training runs are left out.
pub mod Forgetting
use idiolect.Common.{
  ℕ, ◌+◌, ◌-◌, ◌*◌, Bool, true, false, not, Option, none, some, List, [], ◌∷◌, ◌++◌, length, ltb,
  ◌==◌, if◌then◌else◌, ◌&&◌, ◌||◌,
}
use idiolect.Text.{Text, text_eq, codes}
use idiolect.Store.{
  user_data_deleted, user, Session, Utterance, Db, audio_delete, Reply, ok, err, ◌>>◌, run,
  transaction, create_event, decimal,
}
use idiolect.Store.Table.{select, delete}
use idiolect.Store.History.{day_ms}
use idiolect.Store.Candidates.{is_about_session, user_data_deleted_event_count}
use idiolect.Store.Candidates.Eviction.{FileAudioStore}

-- `id IN (SELECT id FROM ime_text_sessions WHERE user_id = user)`, and the same of the utterances.
unfoldable pub session_of : Text → List Session → Text → Bool
session_of user_id [] id = false
session_of user_id (s ∷ sessions) id =
    let rest = session_of user_id sessions id in
    (text_eq s.id id && text_eq s.user_id user_id) || rest

unfoldable pub utterance_of : Text → List Utterance → Text → Bool
utterance_of user_id [] id = false
utterance_of user_id (u ∷ utterances) id =
    let rest = utterance_of user_id utterances id in
    (text_eq u.id id && text_eq u.user_id user_id) || rest

-- Each DELETE reads the tables as the ones before have left them: the sessions and the utterances
-- are deleted after the rows that are found through them.
unfoldable pub without_user : Text → Db → Db
unfolding delete session_of utterance_of is_about_session
without_user user_id db =
    let mine = session_of user_id db.ime_text_sessions in
    let recorded = utterance_of user_id db.utterances in
    record db {
      training_candidates =
          delete (λ c. mine c.session_id || recorded c.utterance_id) db.training_candidates;
      ime_edit_events = delete (λ e. mine e.session_id) db.ime_edit_events;
      event_log =
          delete (λ e. is_about_session e.aggregate_type && mine e.aggregate_id) db.event_log;
      ime_text_history = delete (λ r. mine r.session_id) db.ime_text_history;
      ime_text_sessions = delete (λ s. text_eq s.user_id user_id) db.ime_text_sessions;
      utterance_audio_files = delete (λ f. recorded f.utterance_id) db.utterance_audio_files;
      utterances = delete (λ u. text_eq u.user_id user_id) db.utterances;
      adapter_derivations = delete (λ d. text_eq d.user_id user_id) db.adapter_derivations;
      adapters = delete (λ a. text_eq a.user_id user_id) db.adapters;
    }

-- `json` is the JSON object of the user that serde_json writes.
unfoldable pub delete_user_data : (Text → Text) → Text → Db → Reply (Unit {0}) × Db
unfolding user_data_deleted_event_count without_user create_event
delete_user_data json user_id db =
    let deletion_count = user_data_deleted_event_count user_id db in
    transaction
      (do
        run (without_user user_id)
        create_event user user_id user_data_deleted (json user_id)
            (codes "user-data-deleted:" ++ user_id ++ codes ":" ++ decimal (deletion_count + 1)))
      db

-- COALESCE(committed_at, cancelled_at, created_at).
unfoldable pub ended_at : Option ℕ → Option ℕ → ℕ → ℕ
ended_at (some t) cancelled created = t
ended_at none (some t) created = t
ended_at none none created = created

abbrev pub is_expired : ℕ → ℕ → Session → Bool
is_expired now older_than_days s =
    ltb (ended_at s.committed_at s.cancelled_at s.created_at) (now - older_than_days * day_ms)

-- The rows of one expired session and of its utterance.
unfoldable pub without_session : Session → Db → Db
unfolding delete
without_session s db = record db {
  training_candidates = delete (λ c. text_eq c.session_id s.id) db.training_candidates;
  ime_edit_events = delete (λ e. text_eq e.session_id s.id) db.ime_edit_events;
  ime_text_history = delete (λ r. text_eq r.session_id s.id) db.ime_text_history;
  ime_text_sessions = delete (λ t. text_eq t.id s.id) db.ime_text_sessions;
  utterance_audio_files =
      delete (λ f. text_eq f.utterance_id s.utterance_id) db.utterance_audio_files;
  utterances = delete (λ u. text_eq u.id s.utterance_id) db.utterances;
}

unfoldable pub without_sessions : List Session → Db → Db
unfolding without_session
without_sessions [] db = db
without_sessions (s ∷ expired) db = without_sessions expired (without_session s db)

-- Whether the audio of all of them could be deleted.
unfoldable pub audio_deleted : FileAudioStore → List Session → Bool
audio_deleted store [] = true
audio_deleted store (s ∷ expired) =
    let rest = audio_deleted store expired in
    store.delete_source_audio_for s.user_id s.utterance_id && rest

unfoldable pub prune_training_data : ℕ → ℕ → FileAudioStore → Db → Reply ℕ × Db
unfolding select audio_deleted without_sessions ended_at
prune_training_data now older_than_days store db =
    let expired = select (is_expired now older_than_days) db.ime_text_sessions in
    if older_than_days == 0
    then (ok 0, db)
    else if not (audio_deleted store expired)
    then (err audio_delete, db)
    else (ok (length expired), without_sessions expired db)
