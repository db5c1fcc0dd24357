-- ===== src/Store/Candidates.antt =====
-- The training candidates of crates/idiolect-adapter-sqlite/src/repository.rs: the manifest feed,
-- the sync outbox, and the changes of one candidate.
pub mod Eviction
pub mod Shipping
use idiolect.Common.{
  ℕ, zero, suc, ◌+◌, ◌-◌, ◌*◌, Bool, true, false, not, Option, none, some, List, [], ◌∷◌, ◌++◌, map,
  length, leb, ltb, ◌==◌, if◌then◌else◌, ◌&&◌, ◌||◌,
}
use idiolect.Text.{Text, text_eq, codes}
use idiolect.Store.{
  user_data_deleted, user, ime_text_session, AggregateType, EventType, CandidateStatus, captured,
  rejected, synced, evicted, TrainingSource, Event, Session, Utterance, Candidate, HistoryRow,
  AudioFile, EditEvent, Db, backend, not_found, audio_delete, Reply, ok, err, Tx, pure, ◌>>=◌, ◌>>◌,
  run, transaction, create_event, decimal, has_id, find_session, same_event_type,
}
use idiolect.Store.Table.{first, select, count, update, delete, insert}
use idiolect.Store.Sessions.{or_empty}
use idiolect.Store.Sessions.Ending.{coalesce}
use idiolect.Store.History.{day_ms}

unfoldable pub is_about_user : AggregateType → Bool
is_about_user user = true
is_about_user a = false

unfoldable pub is_about_session : AggregateType → Bool
is_about_session ime_text_session = true
is_about_session a = false

abbrev pub deletes_data_of : Text → Event → Bool
deletes_data_of user_id e =
    is_about_user e.aggregate_type
    && text_eq e.aggregate_id user_id
    && same_event_type e.event_type user_data_deleted

unfoldable pub user_data_deleted_event_count : Text → Db → ℕ
unfolding count is_about_user same_event_type
user_data_deleted_event_count user_id db = count (deletes_data_of user_id) db.event_log

-- The record of the manifest feed and of the sync outbox; the trust score is left out.
pub record ManifestV2TrainingCandidate : Type 0 where
  pub training_candidate_id : ℕ
  pub user_id : Text
  pub utterance_id : Text
  pub text_session_id : Text
  pub audio_object_key : Text
  pub audio_digest : Text
  pub raw_transcript : Text
  pub corrected_transcript : Text
  pub source_label : TrainingSource

abbrev pub has_utterance_id : Text → Utterance → Bool
has_utterance_id id u = text_eq u.id id

-- The joins with the session, of the given user, and with the utterance.
unfoldable pub joined : Text → Db → Candidate → Option ManifestV2TrainingCandidate
unfolding find_session first
joined user_id db c = elim (find_session c.session_id db) [
  | none ↦ none
  | some s ↦ elim (first (has_utterance_id c.utterance_id) db.utterances) [
    | none ↦ none
    | some u ↦
        if text_eq s.user_id user_id
        then some record {
          training_candidate_id = c.id;
          user_id = s.user_id;
          utterance_id = u.id;
          text_session_id = s.id;
          audio_object_key = u.audio_path;
          audio_digest = or_empty u.audio_sha256;
          raw_transcript = coalesce u.raw_stt_text c.raw_text;
          corrected_transcript = c.candidate_transcript;
          source_label = c.source;
        }
        else none
  ]
]

unfoldable pub add_row :
    Bool
    → Option ManifestV2TrainingCandidate
    → List ManifestV2TrainingCandidate
    → List ManifestV2TrainingCandidate
add_row false m rest = rest
add_row true none rest = rest
add_row true (some m) rest = m ∷ rest

unfoldable pub collect_rows :
    Text → (CandidateStatus → Bool) → Db → List Candidate → List ManifestV2TrainingCandidate
unfolding joined add_row
collect_rows user_id keep db [] = []
collect_rows user_id keep db (c ∷ rows) =
    add_row (keep c.status) (joined user_id db c) (collect_rows user_id keep db rows)

-- The rows stand in the order of their identifiers, in which they were inserted.
unfoldable pub collect_candidates :
    Text → (CandidateStatus → Bool) → Db → List ManifestV2TrainingCandidate
unfolding user_data_deleted_event_count collect_rows
collect_candidates user_id keep db =
    if ltb 0 (user_data_deleted_event_count user_id db)
    then []
    else collect_rows user_id keep db db.training_candidates

unfoldable pub not_excluded : CandidateStatus → Bool
not_excluded rejected = false
not_excluded synced = false
not_excluded evicted = false
not_excluded captured = true

unfoldable pub training_candidates_for_manifest_v2 : Text → Db → List ManifestV2TrainingCandidate
unfolding collect_candidates not_excluded
training_candidates_for_manifest_v2 user_id = collect_candidates user_id not_excluded

unfoldable pub is_captured : CandidateStatus → Bool
is_captured captured = true
is_captured s = false

unfoldable pub training_candidates_pending_sync : Text → Db → List ManifestV2TrainingCandidate
unfolding collect_candidates is_captured
training_candidates_pending_sync user_id = collect_candidates user_id is_captured

abbrev pub is_candidate : ℕ → Candidate → Bool
is_candidate id c = c.id == id

unfoldable pub set_status : CandidateStatus → Candidate → Candidate
set_status s c = record c { status = s }

abbrev pub with_status : ℕ → CandidateStatus → Db → Db
with_status id s db = record db {
  training_candidates = update (is_candidate id) (set_status s) db.training_candidates;
}

unfoldable pub reject_training_candidate : ℕ → Db → Reply (Unit {0}) × Db
unfolding count update set_status
reject_training_candidate id db =
    if count (is_candidate id) db.training_candidates == 0
    then (err (not_found (decimal id)), db)
    else (ok tt, with_status id rejected db)

unfoldable pub set_transcript : Text → Candidate → Candidate
set_transcript text c = record c {
  raw_text = text;
  corrected_text = text;
  candidate_transcript = text;
}

unfoldable pub retranscribe_training_candidate : ℕ → Text → Db → Reply (Unit {0}) × Db
unfolding first update set_transcript
retranscribe_training_candidate id text db = elim (first (is_candidate id) db.training_candidates) [
  | none ↦ (err (not_found (decimal id)), db)
  | some c ↦ (
    ok tt,
    record db {
      training_candidates = update (is_candidate id) (set_transcript text) db.training_candidates;
      utterances =
          update (has_utterance_id c.utterance_id) (λ u. record u { raw_stt_text = some text })
            db.utterances;
    },
  )
]

unfoldable pub trainable_rows : Text → Db → List Candidate → ℕ
unfolding find_session not_excluded
trainable_rows user_id db [] = 0
trainable_rows user_id db (c ∷ rows) =
    let rest = trainable_rows user_id db rows in
    elim (find_session c.session_id db) [
      | none ↦ rest
      | some s ↦ if text_eq s.user_id user_id && not_excluded c.status then suc rest else rest
    ]

unfoldable pub trainable_count : Text → Db → ℕ
unfolding trainable_rows
trainable_count user_id db = trainable_rows user_id db db.training_candidates
