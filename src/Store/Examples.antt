-- ===== src/Store/Examples.antt =====
-- The theorems on crates/idiolect-adapter-sqlite/src/repository.rs at concrete tables.
use idiolect.Common.{
  ℕ, ◌≡◌, ◌≢◌, refl, ◌≤◌, true, false, none, some, List, [], ◌∷◌, ◌++◌, take, drop, map, leb, arith,
}
use idiolect.Text.{Text, codes, text_eq}
use idiolect.Store.{
  Db, Session, Candidate, CandidateStatus, HistoryState, Utterance, accepted_without_edit, ok, err,
  idempotency_conflict, find_session, existing_event,
}
use idiolect.Store.Table.{first, count, select}
use idiolect.Store.Sessions.{
  audio_path, default_user_id, Setup, create_session, new_session, encode_with, decode_with,
}
use idiolect.Store.Sessions.Ending.{commit_session, cancel_session}
use idiolect.Store.Sessions.Amending.{amend_correction}
use idiolect.Store.Sessions.Taken.{Committed, take_is_stored}
use idiolect.Store.Sessions.Amended.{Amended, amend_correction-Amended}
use idiolect.Store.Sessions.Idempotence.{commit_again, commit_spends_key}
use idiolect.Store.Sessions.CommittedRows.{CommittedOnce}
use idiolect.Store.History.{prune_history}
use idiolect.Store.Candidates.{
  ManifestV2TrainingCandidate, training_candidates_pending_sync,
  training_candidates_for_manifest_v2, trainable_count,
}
use idiolect.Store.Candidates.Eviction.{FileAudioStore, sized, evict_captured_audio_over_cap}
use idiolect.Store.Candidates.Eviction.Bounds.{
  Sized, sizes, evictions, audio_of, candidate_of, mark, evict_under_cap,
}
use idiolect.Store.Privacy.{delete_user_data}
use idiolect.Store.Privacy.Forgetting.{Forgotten, delete_user_data-Forgotten}
use idiolect.Store.Adapters.Activation.{
  SingleActive, AdapterCall, register, promote, rollback, adapters_after,
  adapters_after-SingleActive,
}
use idiolect.Store.Adapters.{
  promote_adapter, register_adapter_candidate, rollback_adapter, active_adapter, is_adapter,
}
use idiolect.Store.Adapters.Shown.{snapshot_shows_table}
use idiolect.Store.Adapters.Snapshot.{adapter_registry_snapshot, id_of}
use idiolect.Store.Candidates.Shipping.{is_about, mark_synced_and_drop_audio, shipped_leaves}
use idiolect.Store.AudioFiles.{
  Checked, audio_key_prefix, split, relative_key, source_object_key, under_date, is_invalid,
}
use idiolect.Store.AudioFiles.Keys.{walk, descended, relative_key_stays, stored_path_is_key}
use idiolect.Store.Runs.{Call, create, commit, amend, cancel, delete_user, EventJson, after}
use idiolect.Store.Runs.Once.{after-CommittedOnce}

abbrev plain : Setup
plain = record { history_cipher = none; session_key = λ id. b'"' ∷ id ++ b'"' ∷ [] }

abbrev fresh : Db
fresh = record {
  users = [];
  event_log = [];
  event_seq = 0;
  ime_text_sessions = [];
  ime_edit_events = [];
  utterances = [];
  utterance_audio_files = [];
  training_candidates = [];
  candidate_seq = 0;
  ime_text_history = [];
  history_seq = 0;
  tray_settings = [];
  adapters = [];
  adapter_derivations = [];
}

abbrev one : Text
one = codes "1"

abbrev one_key : Text
one_key = plain.session_key one

abbrev hello : Text
hello = codes "hello"

abbrev hallo : Text
hallo = codes "hallo"

abbrev k3 : Text
k3 = codes "k3"

abbrev k1 : Text
k1 = codes "k1"

abbrev one_session : Session
one_session = new_session one_key (some hello) 1

take_is_stored_example :
    ((create_session plain one (some hello) 1 fresh).0 ≡ ok one)
    × ((create_session plain one (some hello) 1 fresh).1.training_candidates ≡ [])
    × ((create_session plain one (some hello) 1 fresh).1.ime_text_history ≡ [])
    × ((commit_session plain 0 one hallo k1 2 (create_session plain one (some hello) 1 fresh).1).0
        ≡ ok tt)
    × Committed one_key hallo hello k1 hallo 2 one_session
        (create_session plain one (some hello) 1 fresh).1
        (commit_session plain 0 one hallo k1 2 (create_session plain one (some hello) 1 fresh).1).1
unfolding find_session existing_event first text_eq encode_with
take_is_stored_example =
    take_is_stored plain 0 one hello hallo k1 hallo 1 2 fresh refl refl refl refl refl refl refl

abbrev echo : EventJson
echo = record { setting = λ k v. v; user = λ u. u }

abbrev day : List Call
day =
    create one (some hello) 1
    ∷ commit 0 one hello k1 2
    ∷ amend 0 one hello hallo
    ∷ cancel 0 one (codes "k2") 3
    ∷ delete_user (codes "default")
    ∷ []

fresh-CommittedOnce : CommittedOnce fresh
unfolding count
fresh-CommittedOnce key = omega arith

after-CommittedOnce_example : CommittedOnce (after plain echo day fresh)
after-CommittedOnce_example = after-CommittedOnce plain echo day fresh fresh-CommittedOnce

abbrev two : Text
two = codes "2"

abbrev utterance_one : Utterance
utterance_one = record {
  id = codes "u1";
  user_id = codes "default";
  audio_path = codes "a1";
  audio_sha256 = none;
  raw_stt_text = some hello;
}

abbrev utterance_two : Utterance
utterance_two = record {
  id = codes "u2";
  user_id = codes "default";
  audio_path = codes "a2";
  audio_sha256 = none;
  raw_stt_text = some hello;
}

abbrev learnt : ℕ → Text → Candidate
learnt id utterance = record {
  id = id;
  session_id = one_key;
  utterance_id = utterance;
  raw_text = hello;
  corrected_text = hello;
  candidate_transcript = hello;
  source = accepted_without_edit;
  status = CandidateStatus.captured;
  idempotency_key = k1;
}

abbrev used : Db
used = record fresh {
  ime_text_sessions = one_session ∷ [];
  utterances = utterance_one ∷ utterance_two ∷ [];
  training_candidates = learnt 1 (codes "u1") ∷ learnt 2 (codes "u2") ∷ [];
  ime_text_history =
      (record {
        id = 1;
        session_id = one_key;
        text = hello;
        state = HistoryState.committed;
        created_at = 2;
      })
      ∷ [];
}

plain_decodes :
    (nonce : ℕ) (t h : Text) → encode_with none nonce t ≡ some h → decode_with none h ≡ t
unfolding encode_with decode_with
plain_decodes nonce t h e = ground arith

amend_correction-Amended_example :
    Amended plain one_key hallo used (amend_correction plain 0 one hello hallo used).1
unfolding amend_correction text_eq
amend_correction-Amended_example =
    amend_correction-Amended plain plain_decodes 0 one hello hallo used
      (amend_correction plain 0 one hello hallo used).1 refl refl

commit_again_example :
    commit_session plain 7 two hallo k3 9 (commit_session plain 0 one hallo k3 2 used).1
    ≡ (ok tt, (commit_session plain 0 one hallo k3 2 used).1)
unfolding commit_session text_eq
commit_again_example =
    commit_again plain 0 one k3 2 used (commit_session plain 0 one hallo k3 2 used).1 hallo refl 7
      two 9 {h = hallo} refl

hallo-ne : hallo ≢ hello
hallo-ne e = ground arith

commit_spends_key_example :
    (commit_session plain 0 two hello k3 9 (commit_session plain 0 one hallo k3 2 used).1
      ≡ (err (idempotency_conflict k3), (commit_session plain 0 one hallo k3 2 used).1))
    × (cancel_session plain 0 two k3 9 (commit_session plain 0 one hallo k3 2 used).1
        ≡ (err (idempotency_conflict k3), (commit_session plain 0 one hallo k3 2 used).1))
unfolding commit_session text_eq
commit_spends_key_example =
    commit_spends_key plain 0 one k3 2 used (commit_session plain 0 one hallo k3 2 used).1 hallo
      refl 0 two 9 hello {h = hello} {h' = []} hallo-ne refl refl

abbrev disk : FileAudioStore
disk = record { source_audio_size_by_key = λ k. some 5; delete_source_audio_for = λ u t. true }

abbrev pending_of : ℕ → Utterance → ManifestV2TrainingCandidate
pending_of id u = record {
  training_candidate_id = id;
  user_id = codes "default";
  utterance_id = u.id;
  text_session_id = one_key;
  audio_object_key = u.audio_path;
  audio_digest = [];
  raw_transcript = hello;
  corrected_transcript = hello;
  source_label = accepted_without_edit;
}

abbrev measured : Sized
measured = (pending_of 1 utterance_one, 5) ∷ (pending_of 2 utterance_two, 5) ∷ []

evict_under_cap_example :
    (evict_captured_audio_over_cap (codes "default") 7 disk used ≡ (
      ok (evictions 7 measured),
      mark (take (evictions 7 measured) measured) used,
      map audio_of (take (evictions 7 measured) measured),
    ))
    × (map candidate_of measured ≡ training_candidates_pending_sync (codes "default") used)
    × (sizes (drop (evictions 7 measured) measured) ≤ 7)
unfolding sized training_candidates_pending_sync text_eq
evict_under_cap_example =
    evict_under_cap disk (λ u t. refl) 7 (codes "default") used measured 10 refl (omega arith)

delete_user_data-Forgotten_example :
    Forgotten (codes "default") used (delete_user_data (λ u. u) (codes "default") used).1
    × (training_candidates_for_manifest_v2
          (codes "default")
          (delete_user_data (λ u. u) (codes "default") used).1
        ≡ [])
    × (training_candidates_pending_sync
          (codes "default")
          (delete_user_data (λ u. u) (codes "default") used).1
        ≡ [])
unfolding delete_user_data text_eq
delete_user_data-Forgotten_example =
    delete_user_data-Forgotten (λ u. u) (codes "default") used
      (delete_user_data (λ u. u) (codes "default") used).1 refl

fresh-SingleActive : SingleActive []
unfolding count
fresh-SingleActive = record { active = λ u. omega arith; unique = λ id. omega arith }

abbrev me : Text
me = codes "me"

abbrev candidates : List AdapterCall
candidates =
    register 0 (codes "a") me []
    ∷ register 0 (codes "b") me []
    ∷ register 0 (codes "c") me []
    ∷ promote 1 me (codes "a")
    ∷ promote 2 me (codes "b")
    ∷ promote 3 me (codes "a")
    ∷ promote 4 me (codes "c")
    ∷ []

adapters_after-SingleActive_example : SingleActive (adapters_after candidates fresh).adapters
adapters_after-SingleActive_example =
    adapters_after-SingleActive candidates fresh fresh-SingleActive

abbrev created_calls : List AdapterCall
created_calls =
    register 0 (codes "a") me []
    ∷ register 1 (codes "b") me []
    ∷ register 2 (codes "c") me []
    ∷ promote 3 me (codes "b")
    ∷ promote 4 me (codes "a")
    ∷ promote 5 me (codes "c")
    ∷ []

abbrev created_in_order : Db
created_in_order = adapters_after created_calls fresh

snapshot_previous :
    (adapter_registry_snapshot (λ t. none) leb me created_in_order).previous_active_adapter_id
    ≡ some (codes "b")
unfolding adapters_after adapter_registry_snapshot promote_adapter register_adapter_candidate
    text_eq
snapshot_previous = refl

-- The snapshot names b as the previous adapter, and the rollback takes a.
rollback_previous :
    map
      (λ a. a.id)
      (select (λ a. a.active) (adapters_after (rollback me ∷ []) created_in_order).adapters)
    ≡ codes "a" ∷ []
unfolding adapters_after rollback_adapter promote_adapter register_adapter_candidate select text_eq
rollback_previous = refl

snapshot_shows_table_example :
    ((adapter_registry_snapshot (λ t. none) leb me created_in_order).current_active_adapter_id
      ≡ id_of (active_adapter me created_in_order))
    × (count
          (λ e. text_eq e.adapter_id (codes "b"))
          (adapter_registry_snapshot (λ t. none) leb me created_in_order).entries
        ≡ count (is_adapter me (codes "b")) created_in_order.adapters)
snapshot_shows_table_example =
    snapshot_shows_table (λ t. none) leb me (codes "b") created_in_order
      (adapters_after-SingleActive created_calls fresh fresh-SingleActive)

relative_key_stays_example :
    walk (codes "root" ∷ []) (split (codes "default/u1.ogg"))
    ≡ descended (codes "root" ∷ []) (split (codes "default/u1.ogg"))
unfolding relative_key text_eq
relative_key_stays_example =
    relative_key_stays (codes "audio/default/u1.ogg") audio_key_prefix (codes "default/u1.ogg")
      (codes "root" ∷ []) refl

stored_path_is_key_example :
    (source_object_key default_user_id (codes "u1") ≡ Checked.ok (audio_path (codes "u1")))
    × (relative_key (audio_path (codes "u1")) audio_key_prefix
        ≡ Checked.ok (under_date default_user_id (codes "u1")))
unfolding is_invalid text_eq
stored_path_is_key_example = stored_path_is_key (codes "u1") refl

shipped_leaves_example :
    (count (is_about 1) (
        training_candidates_pending_sync
          (codes "default")
          (mark_synced_and_drop_audio disk 1 used).1)
      ≡ 0)
    × (count (is_about 1) (
          training_candidates_for_manifest_v2
            (codes "default")
            (mark_synced_and_drop_audio disk 1 used).1)
        ≡ 0)
unfolding first find_session text_eq
shipped_leaves_example =
    shipped_leaves disk 1 (codes "default") used (learnt 1 (codes "u1")) one_session refl refl

-- After a, b, a and c have been promoted in this order, a rollback does not return to a.
rollback_by_first_promotion :
    map
      (λ a. a.active)
      (adapters_after (rollback me ∷ []) (adapters_after candidates fresh)).adapters
    ≡ false ∷ true ∷ false ∷ []
unfolding adapters_after text_eq
rollback_by_first_promotion = refl

-- A user whose data was deleted dictates again: one candidate is counted, and none is fed to training.
fed_nothing :
    let again =
      (commit_session plain 0 one hello k1 4
        (create_session plain one
          (some hello)
          3
          (delete_user_data (λ u. u) (codes "default") used).1).1).1 in
    (trainable_count (codes "default") again ≡ 1)
    × (training_candidates_for_manifest_v2 (codes "default") again ≡ [])
unfolding delete_user_data commit_session create_session trainable_count
    training_candidates_for_manifest_v2 text_eq
fed_nothing = (refl, refl)

-- Zero days prune whatever is older than the instant of the call.
pruned_at_zero : (prune_history 3 0 used).1.ime_text_history ≡ []
unfolding prune_history text_eq
pruned_at_zero = refl
