-- ===== src/Store.antt =====
-- The tables of crates/idiolect-adapter-sqlite (migrations/*.sql) and the transactions, events
-- and helpers that the methods of SqliteMetadataStore in src/repository.rs share.
pub mod Table
pub mod Sessions
pub mod History
pub mod Candidates
pub mod Privacy
pub mod Adapters
pub mod Runs
pub mod Settings
pub mod AudioFiles
mod Examples
use idiolect.Common.{
  ℕ, zero, suc, ◌+◌, ◌/◌, ◌%◌, Bool, true, false, Option, none, some, List, [], ◌∷◌, ◌++◌, ltb,
  ◌&&◌, if◌then◌else◌,
}
use idiolect.Text.{Text, text_eq}
use Table.{first, insert}

pub data SessionState : Type 0 where
  created : SessionState
  committed : SessionState
  cancelled : SessionState

pub data EventType : Type 0 where
  session_created : EventType
  preedit_corrected : EventType
  session_committed : EventType
  session_cancelled : EventType
  user_data_deleted : EventType
  history_entry_deleted : EventType
  history_pruned : EventType
  tray_config_changed : EventType

pub data AggregateType : Type 0 where
  ime_text_session : AggregateType
  user : AggregateType
  history_entry : AggregateType
  history_rows : AggregateType
  tray_config : AggregateType

pub data TrainingSource : Type 0 where
  accepted_without_edit : TrainingSource
  accepted_with_edit : TrainingSource

pub data CandidateStatus : Type 0 where
  captured : CandidateStatus
  rejected : CandidateStatus
  synced : CandidateStatus
  evicted : CandidateStatus

pub data HistoryState : Type 0 where
  committed : HistoryState
  cancelled : HistoryState

pub record Event : Type 0 where
  pub id : ℕ
  pub aggregate_type : AggregateType
  pub aggregate_id : Text
  pub event_type : EventType
  pub event_json : Text
  pub idempotency_key : Text

-- Instants are milliseconds; their stored texts have one width, so both have one order.
pub record Session : Type 0 where
  pub id : Text
  pub raw_stt_text : Option Text
  pub committed_text : Option Text
  pub state : SessionState
  pub session_state : SessionState
  pub utterance_id : Text
  pub user_id : Text
  pub initial_preedit_text : Option Text
  pub final_preedit_text : Option Text
  pub created_at : ℕ
  pub committed_at : Option ℕ
  pub cancelled_at : Option ℕ

pub record EditEvent : Type 0 where
  pub session_id : Text
  pub from_text : Text
  pub to_text : Text
  pub event_index : ℕ

pub record Utterance : Type 0 where
  pub id : Text
  pub user_id : Text
  pub audio_path : Text
  pub audio_sha256 : Option Text
  pub raw_stt_text : Option Text

pub record AudioFile : Type 0 where
  pub utterance_id : Text
  pub file_path : Text

pub record Candidate : Type 0 where
  pub id : ℕ
  pub session_id : Text
  pub utterance_id : Text
  pub raw_text : Text
  pub corrected_text : Text
  pub candidate_transcript : Text
  pub source : TrainingSource
  pub status : CandidateStatus
  pub idempotency_key : Text

pub record HistoryRow : Type 0 where
  pub id : ℕ
  pub session_id : Text
  pub text : Text
  pub state : HistoryState
  pub created_at : ℕ

pub record Setting : Type 0 where
  pub key : Text
  pub value : Text

pub record Adapter : Type 0 where
  pub id : Text
  pub user_id : Text
  pub active : Bool
  pub created_at : ℕ
  pub promoted_at : Option ℕ
  pub metrics : Text

pub data TriggerReason : Type 0 where
  promoted : TriggerReason
  rejected_for : Text → TriggerReason
  rolled_back : TriggerReason
  deleted_training_sample : TriggerReason

pub record AdapterDerivation : Type 0 where
  pub user_id : Text
  pub from_adapter_id : Option Text
  pub to_adapter_id : Option Text
  pub trigger_reason : TriggerReason

-- A `_seq` is the largest number that an AUTOINCREMENT column has given so far.
pub record Db : Type 0 where
  pub users : List Text
  pub event_log : List Event
  pub event_seq : ℕ
  pub ime_text_sessions : List Session
  pub ime_edit_events : List EditEvent
  pub utterances : List Utterance
  pub utterance_audio_files : List AudioFile
  pub training_candidates : List Candidate
  pub candidate_seq : ℕ
  pub ime_text_history : List HistoryRow
  pub history_seq : ℕ
  pub tray_settings : List Setting
  pub adapters : List Adapter
  pub adapter_derivations : List AdapterDerivation

pub data SqliteStorageError : Type 0 where
  backend : SqliteStorageError
  not_found : Text → SqliteStorageError
  idempotency_conflict : Text → SqliteStorageError
  crypto : SqliteStorageError
  audio_delete : SqliteStorageError

pub data Reply {ℓ} (A : Type ℓ) : Type ℓ where
  ok : A → Reply A
  err : SqliteStorageError → Reply A

-- What runs inside a transaction: the rows that it leaves, or an error.
abbrev pub Tx {ℓ} : Type ℓ → Type ℓ
Tx A = Db → Reply (A × Db)

abbrev pub pure {ℓ} : {A : Type ℓ} → A → Tx A
pure a db = ok (a, db)

abbrev pub fail {ℓ} : {A : Type ℓ} → SqliteStorageError → Tx A
fail e db = err e

infixl 5 ◌>>=◌ ◌>>◌
abbrev pub ◌>>=◌ {ℓ κ} : {A : Type ℓ} {B : Type κ} → Tx A → (A → Tx B) → Tx B
◌>>=◌ m f db = elim (m db) [ ok (a, db') ↦ f a db' | err e ↦ err e ]

abbrev pub ◌>>◌ {ℓ κ} : {A : Type ℓ} {B : Type κ} → Tx A → Tx B → Tx B
m >> k = m >>= λ _. k

-- The transaction is committed with its result; on an error it is dropped, which rolls it back.
abbrev pub outcome {ℓ} : {A : Type ℓ} → Reply (A × Db) → Db → Reply A × Db
outcome (ok (a, db')) db = (ok a, db')
outcome (err e) db = (err e, db)

abbrev pub transaction {ℓ} : {A : Type ℓ} → Tx A → Db → Reply A × Db
transaction m db = outcome (m db) db

-- A statement that always succeeds.
abbrev pub run : (Db → Db) → Tx (Unit {0})
run f db = ok (tt, f db)

abbrev pub or_not_found {ℓ} : {A : Type ℓ} → Text → Option A → Tx A
or_not_found id none = fail (not_found id)
or_not_found id (some a) = pure a

unfoldable pub same_event_type : EventType → EventType → Bool
same_event_type session_created session_created = true
same_event_type preedit_corrected preedit_corrected = true
same_event_type session_committed session_committed = true
same_event_type session_cancelled session_cancelled = true
same_event_type user_data_deleted user_data_deleted = true
same_event_type history_entry_deleted history_entry_deleted = true
same_event_type history_pruned history_pruned = true
same_event_type tray_config_changed tray_config_changed = true
same_event_type s t = false

unfoldable pub existing_event : Text → Db → Option Event
unfolding first
existing_event key db = first (λ e. text_eq e.idempotency_key key) db.event_log

unfoldable pub duplicate_of : Text → EventType → Text → Option Event → Tx Bool
duplicate_of key expected payload none = pure false
duplicate_of key expected payload (some e) =
    if same_event_type e.event_type expected && text_eq e.event_json payload
    then pure true
    else fail (idempotency_conflict key)

unfoldable pub is_idempotent_duplicate : Text → EventType → Text → Tx Bool
unfolding existing_event duplicate_of
is_idempotent_duplicate key expected payload db =
    duplicate_of key expected payload (existing_event key db) db

-- A call whose event is in the log already has been made, and succeeds with no change.
unfoldable pub once : Text → EventType → Text → Tx (Unit {0}) → Tx (Unit {0})
unfolding is_idempotent_duplicate
once key type payload m = do
  duplicate ← is_idempotent_duplicate key type payload
  if duplicate then pure tt else m

abbrev pub new_event : AggregateType → Text → EventType → Text → Text → Db → Event
new_event aggregate aggregate_id type json key db = record {
  id = suc db.event_seq;
  aggregate_type = aggregate;
  aggregate_id = aggregate_id;
  event_type = type;
  event_json = json;
  idempotency_key = key;
}

abbrev pub log_event : Event → Db → Db
log_event e db = record db { event_seq = e.id; event_log = insert e db.event_log }

-- The index on the idempotency keys is unique.
unfoldable pub create_event : AggregateType → Text → EventType → Text → Text → Tx (Unit {0})
unfolding existing_event
create_event aggregate aggregate_id type json key db = elim (existing_event key db) [
  | some _ ↦ err backend
  | none ↦ ok (tt, log_event (new_event aggregate aggregate_id type json key db) db)
]

abbrev pub has_id : Text → Session → Bool
has_id key s = text_eq s.id key

unfoldable pub find_session : Text → Db → Option Session
unfolding first
find_session key db = first (has_id key) db.ime_text_sessions

abbrev pub in_session : Text → HistoryRow → Bool
in_session key r = text_eq r.session_id key

unfoldable pub is_committed_state : SessionState → Bool
is_committed_state SessionState.committed = true
is_committed_state s = false

unfoldable pub is_committed_row : HistoryState → Bool
is_committed_row HistoryState.committed = true
is_committed_row s = false

unfoldable pub decimal_from : ℕ → ℕ → Text → Text
decimal_from zero n acc = acc
decimal_from (suc fuel) n acc =
    let acc' = (48 + n % 10) ∷ acc in
    let rest = decimal_from fuel (n / 10) acc' in if ltb n 10 then acc' else rest

-- The decimal text of a number.
unfoldable pub decimal : ℕ → Text
unfolding decimal_from
decimal n = decimal_from (suc n) n []
