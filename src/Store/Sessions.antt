-- ===== src/Store/Sessions.antt =====
-- The methods of SqliteMetadataStore in crates/idiolect-adapter-sqlite/src/repository.rs that
-- create and edit a session.
pub mod Ending
pub mod Amending
pub mod Recorded
pub mod Amended
pub mod Taken
pub mod CommittedRows
pub mod Idempotence
use idiolect.Common.{
  ℕ, suc, ◌+◌, ◌≡◌, Bool, true, false, not, Option, none, some, List, [], ◌∷◌, ◌++◌, leb,
  if◌then◌else◌, ◌&&◌, ◌==◌,
}
use idiolect.Text.{Text, text_eq, codes}
use idiolect.Store
use idiolect.Store.{
  SessionState, EventType, session_created, preedit_corrected, session_committed, session_cancelled,
  ime_text_session, TrainingSource, accepted_without_edit, accepted_with_edit, CandidateStatus,
  HistoryState, Session, EditEvent, Utterance, AudioFile, Candidate, HistoryRow, Db,
  SqliteStorageError, backend, not_found, crypto, Reply, ok, err, Tx, pure, fail, ◌>>=◌, ◌>>◌, run,
  transaction, or_not_found, once, create_event, has_id, find_session, in_session,
  is_committed_state, is_committed_row, decimal,
}
use idiolect.Store.Table.{first, update, insert}

-- EncryptionPort: `encrypt` draws a nonce, and either may fail.
pub record Cipher : Type 0 where
  pub encrypt : ℕ → Text → Option Text
  pub decrypt : Text → Option Text

-- The optional cipher of the history, and the JSON text of a session id.
pub record Setup : Type 0 where
  pub history_cipher : Option Cipher
  pub session_key : Text → Text

unfoldable pub encode_with : Option Cipher → ℕ → Text → Option Text
encode_with none nonce text = some text
encode_with (some c) nonce text = c.encrypt nonce text

unfoldable pub encode_history_text : Setup → ℕ → Text → Tx Text
unfolding encode_with
encode_history_text p nonce text db = elim (encode_with p.history_cipher nonce text) [
  | none ↦ err crypto
  | some t ↦ ok (t, db)
]

unfoldable pub decode_with : Option Cipher → Text → Text
decode_with none stored = stored
decode_with (some c) stored = elim (c.decrypt stored) [ none ↦ stored | some text ↦ text ]

unfoldable pub decode_history_text : Setup → Text → Text
unfolding decode_with
decode_history_text p stored = decode_with p.history_cipher stored

abbrev pub default_user_id : Text
default_user_id = codes "default"

unfoldable pub ensure_user : Text → Db → Db
unfolding first
ensure_user user db = elim (first (λ u. text_eq u user) db.users) [
  | some _ ↦ db
  | none ↦ record db { users = insert user db.users }
]

unfoldable pub trim_start : Text → Text
trim_start [] = []
trim_start (c ∷ s) = if c == b'"' then trim_start s else c ∷ s

unfoldable pub trim_end : Text → Text
trim_end [] = []
trim_end (c ∷ s) =
    let rest = trim_end s in
    elim rest [ [] ↦ (if c == b'"' then [] else c ∷ []) | d ∷ r ↦ c ∷ d ∷ r ]

unfoldable pub utterance_key : Text → Text
unfolding trim_start trim_end
utterance_key session_key = codes "utterance:" ++ trim_end (trim_start session_key)

unfoldable pub audio_path : Text → Text
audio_path utterance_key =
    codes "audio/1970/01/01/" ++ default_user_id ++ codes "/" ++ utterance_key ++ codes ".ogg"

-- The identifiers of utterances and sessions are primary keys.
unfoldable pub insert_utterance : Utterance → Tx (Unit {0})
unfolding first
insert_utterance u db = elim (first (λ v. text_eq v.id u.id) db.utterances) [
  | some _ ↦ err backend
  | none ↦ ok (
    tt,
    record db {
      utterances = insert u db.utterances;
      utterance_audio_files =
          insert record { utterance_id = u.id; file_path = u.audio_path } db.utterance_audio_files;
    },
  )
]

unfoldable pub insert_session : Session → Tx (Unit {0})
unfolding find_session
insert_session s db = elim (find_session s.id db) [
  | some _ ↦ err backend
  | none ↦ ok (tt, record db { ime_text_sessions = insert s db.ime_text_sessions })
]

abbrev pub or_empty : Option Text → Text
or_empty none = []
or_empty (some t) = t

abbrev pub new_session : Text → Option Text → ℕ → Session
new_session key raw now = record {
  id = key;
  raw_stt_text = raw;
  committed_text = none;
  state = SessionState.created;
  session_state = SessionState.created;
  utterance_id = utterance_key key;
  user_id = default_user_id;
  initial_preedit_text = raw;
  final_preedit_text = raw;
  created_at = now;
  committed_at = none;
  cancelled_at = none;
}

-- `session_id` is the identifier that `ImeSessionId::new` draws.
unfoldable pub create_session : Setup → Text → Option Text → ℕ → Db → Reply Text × Db
unfolding ensure_user utterance_key audio_path insert_utterance insert_session create_event
create_session p session_id raw now =
    let key = p.session_key session_id in
    let utterance = utterance_key key in
    transaction (do
      run (ensure_user default_user_id)
      insert_utterance record {
        id = utterance;
        user_id = default_user_id;
        audio_path = audio_path utterance;
        audio_sha256 = none;
        raw_stt_text = raw;
      }
      insert_session (new_session key raw now)
      create_event ime_text_session key session_created (or_empty raw)
          (codes "session-created:" ++ key)
      pure session_id)

unfoldable pub session_exists : Text → Tx (Unit {0})
unfolding find_session
session_exists key db = elim (find_session key db) [
  | none ↦ err (not_found key)
  | some _ ↦ ok (tt, db)
]

abbrev pub edit_at : Text → ℕ → EditEvent → Bool
edit_at key index e = text_eq e.session_id key && e.event_index == index

-- The index on (session_id, event_index) is unique.
unfoldable pub insert_edit_event : EditEvent → Tx (Unit {0})
unfolding first
insert_edit_event e db = elim (first (edit_at e.session_id e.event_index) db.ime_edit_events) [
  | some _ ↦ err backend
  | none ↦ ok (tt, record db { ime_edit_events = insert e db.ime_edit_events })
]

abbrev pub update_session : Text → (Session → Session) → Db → Db
update_session key f db = record db {
  ime_text_sessions = update (has_id key) f db.ime_text_sessions;
}

unfoldable pub set_preedit : Text → Session → Session
set_preedit text s = record s { final_preedit_text = some text }

unfoldable pub change_preedit : Text → Text → Text → ℕ → Text → Text → Tx (Unit {0})
unfolding session_exists create_event insert_edit_event update set_preedit
change_preedit key from_text to_text event_index payload idempotency_key = do
  session_exists key
  create_event ime_text_session key preedit_corrected payload idempotency_key
  insert_edit_event record {
    session_id = key;
    from_text = from_text;
    to_text = to_text;
    event_index = event_index;
  }
  run (update_session key (set_preedit to_text))

unfoldable pub record_preedit_change : Setup → Text → Text → Text → ℕ → Db → Reply (Unit {0}) × Db
unfolding once change_preedit
record_preedit_change p session_id from_text to_text event_index =
    let key = p.session_key session_id in
    let idempotency_key = codes "preedit:" ++ key ++ codes ":" ++ decimal event_index in
    let payload = from_text ++ codes "->" ++ to_text ++ codes ":" ++ decimal event_index in
    transaction (
      once idempotency_key preedit_corrected payload
        (change_preedit key from_text to_text event_index payload idempotency_key))
