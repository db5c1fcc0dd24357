-- ===== src/Store/Runs.antt =====
-- Runs of the methods of crates/idiolect-adapter-sqlite/src/repository.rs on sessions, history,
-- candidates and private data.
pub mod Deletions
pub mod Once
use idiolect.Common.{ℕ, Bool, true, false, Option, List, [], ◌∷◌}
use idiolect.Text.{Text}
use idiolect.Store.{Db}
use idiolect.Store.Sessions.{Setup, create_session, record_preedit_change}
use idiolect.Store.Sessions.Ending.{commit_session, cancel_session}
use idiolect.Store.Sessions.Amending.{amend_correction}
use idiolect.Store.History.{prune_history, delete_history_entry, set_tray_setting}
use idiolect.Store.Candidates.{reject_training_candidate, retranscribe_training_candidate}
use idiolect.Store.Candidates.Eviction.{FileAudioStore, evict_captured_audio_over_cap}
use idiolect.Store.Candidates.Shipping.{mark_synced_and_drop_audio, set_audio_digest}
use idiolect.Store.Privacy.{delete_user_data, prune_training_data}

-- A call with its arguments, and the nonce and the instant that it draws.
pub data Call : Type 0 where
  create : Text → Option Text → ℕ → Call
  preedit : Text → Text → Text → ℕ → Call
  commit : ℕ → Text → Text → Text → ℕ → Call
  cancel : ℕ → Text → Text → ℕ → Call
  amend : ℕ → Text → Text → Text → Call
  prune : ℕ → ℕ → Call
  delete_entry : ℕ → Call
  set_setting : Text → Text → Call
  reject : ℕ → Call
  retranscribe : ℕ → Text → Call
  ship : ℕ → FileAudioStore → Call
  digest : Text → Text → Call
  evict : Text → ℕ → FileAudioStore → Call
  prune_training : ℕ → ℕ → FileAudioStore → Call
  delete_user : Text → Call

-- The JSON texts that serde_json writes into two events.
pub record EventJson : Type 0 where
  pub setting : Text → Text → Text
  pub user : Text → Text

unfoldable pub call : Setup → EventJson → Call → Db → Db
call p j (create id raw now) db = (create_session p id raw now db).1
call p j (preedit id from to index) db = (record_preedit_change p id from to index db).1
call p j (commit nonce id text key now) db = (commit_session p nonce id text key now db).1
call p j (cancel nonce id key now) db = (cancel_session p nonce id key now db).1
call p j (amend nonce id from to) db = (amend_correction p nonce id from to db).1
call p j (prune now days) db = (prune_history now days db).1
call p j (delete_entry id) db = (delete_history_entry id db).1
call p j (set_setting key value) db = (set_tray_setting j.setting key value db).1
call p j (reject id) db = (reject_training_candidate id db).1
call p j (retranscribe id text) db = (retranscribe_training_candidate id text db).1
call p j (ship id store) db = (mark_synced_and_drop_audio store id db).1
call p j (digest utterance hash) db = (set_audio_digest utterance hash db).1
call p j (evict user cap store) db = (evict_captured_audio_over_cap user cap store db).1
call p j (prune_training now days store) db = (prune_training_data now days store db).1
call p j (delete_user user) db = (delete_user_data j.user user db).1

unfoldable pub after : Setup → EventJson → List Call → Db → Db
unfolding call
after p j [] db = db
after p j (c ∷ calls) db = after p j calls (call p j c db)
