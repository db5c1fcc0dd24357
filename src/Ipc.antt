-- ===== src/Ipc.antt =====
-- crates/idiolect-ipc/src: the messages between the daemon and a client, their framing as lines, and
-- the handshake. The JSON encoding is serde's and a parameter of the framing.
pub mod Framing
pub mod Negotiation
mod Examples
use idiolect.Common.{
  ℕ, Bool, true, false, ◌⊎◌, inl, inr, Option, none, some, List, [], ◌∷◌, ◌++◌, ◌==◌, if◌then◌else◌,
}
use idiolect.Text.{Text, text_eq}
use idiolect.Ime.Session.{ActivityPhase}

abbrev pub protocol_version : ℕ
protocol_version = 1

-- "preedit".
abbrev pub feature_preedit : Text
feature_preedit = b'p' ∷ b'r' ∷ b'e' ∷ b'e' ∷ b'd' ∷ b'i' ∷ b't' ∷ []

-- "commit".
abbrev pub feature_commit : Text
feature_commit = b'c' ∷ b'o' ∷ b'm' ∷ b'm' ∷ b'i' ∷ b't' ∷ []

-- "recording_status".
abbrev pub feature_recording_status : Text
feature_recording_status =
    b'r' ∷ b'e' ∷ b'c' ∷ b'o' ∷ b'r' ∷ b'd' ∷ b'i' ∷ b'n' ∷ b'g' ∷ b'_' ∷ b's' ∷ b't' ∷ b'a' ∷ b't'
    ∷ b'u' ∷ b's' ∷ []

-- "reconcile".
abbrev pub feature_reconcile : Text
feature_reconcile = b'r' ∷ b'e' ∷ b'c' ∷ b'o' ∷ b'n' ∷ b'c' ∷ b'i' ∷ b'l' ∷ b'e' ∷ []

-- "activity_status".
abbrev pub feature_activity_status : Text
feature_activity_status =
    b'a' ∷ b'c' ∷ b't' ∷ b'i' ∷ b'v' ∷ b'i' ∷ b't' ∷ b'y' ∷ b'_' ∷ b's' ∷ b't' ∷ b'a' ∷ b't' ∷ b'u'
    ∷ b's' ∷ []

abbrev pub supported_features : List Text
supported_features =
    feature_preedit ∷ feature_commit ∷ feature_recording_status ∷ feature_reconcile
    ∷ feature_activity_status ∷ []

-- `ActivityPhase::take_in_flight`.
abbrev pub take_in_flight : ActivityPhase → Bool
take_in_flight ActivityPhase.idle = false
take_in_flight ActivityPhase.recording = true
take_in_flight ActivityPhase.transcribing = true
take_in_flight ActivityPhase.loading_model = true

pub record ClientHello : Type 0 where
  pub client_name : Text
  pub protocol_version : ℕ
  pub features : List Text

pub record ServerHello : Type 0 where
  pub protocol_version : ℕ
  pub accepted_features : List Text

pub record PreeditUpdate : Type 0 where
  pub text : Text
  pub review : Bool
  pub partial : Bool
  pub reconcile : Bool

pub data IpcMessage : Type 0 where
  client_hello : ClientHello → IpcMessage
  server_hello : ServerHello → IpcMessage
  start_recording stop_recording toggle_recording : IpcMessage
  recording_status : Bool → IpcMessage
  activity_status : ActivityPhase → IpcMessage
  preedit_update : PreeditUpdate → IpcMessage
  commit_preedit : Text → IpcMessage
  cancel_preedit : IpcMessage
  report_correction : Text → IpcMessage
  history_edited : ℕ → Text → IpcMessage
  insert_text : Text → IpcMessage
  edit_history : ℕ → Text → IpcMessage
  error : Text → Text → IpcMessage
  history_reinsert history_copy : ℕ → IpcMessage
  history_reinsert_response history_copy_response : Bool → Option Text → IpcMessage

unfoldable pub contains : List Text → Text → Bool
contains [] f = false
contains (g ∷ features) f = let rest = contains features f in if text_eq g f then true else rest

-- The supported features that the client asked for.
unfoldable pub accepted : List Text → List Text → List Text
accepted [] requested = []
accepted (f ∷ supported) requested =
    let rest = accepted supported requested in if contains requested f then f ∷ rest else rest

-- The version that is not supported is the error.
unfoldable pub negotiate_protocol : ClientHello → ServerHello ⊎ ℕ
negotiate_protocol hello =
    if hello.protocol_version == protocol_version
    then inl (record {
      protocol_version = protocol_version;
      accepted_features = accepted supported_features hello.features;
    })
    else inr hello.protocol_version

-- `missing_terminator` is told apart from what serde reports.
pub data FramingError : Type 0 where
  missing_terminator invalid_json : FramingError

-- `strip_suffix` of one char, which is also the test `ends_with`.
unfoldable pub strip_last : ℕ → Text → Option Text
strip_last c [] = none
strip_last c (d ∷ []) = if c == d then some [] else none
strip_last c (d ∷ e ∷ line) = elim (strip_last c (e ∷ line)) [
  | none ↦ none
  | some rest ↦ some (d ∷ rest)
]

module _ (to_json : IpcMessage → Option Text) (from_json : Text → Option IpcMessage) where
  unfoldable pub encode_json_line : IpcMessage → Text ⊎ FramingError
  encode_json_line message = elim (to_json message) [
    | none ↦ inr invalid_json
    | some json ↦ inl (json ++ 10 ∷ [])
  ]

  unfoldable pub parse : Text → IpcMessage ⊎ FramingError
  parse json = elim (from_json json) [ none ↦ inr invalid_json | some m ↦ inl m ]

  unfoldable pub decode_stripped : Option Text → IpcMessage ⊎ FramingError
  unfolding parse
  decode_stripped none = inr missing_terminator
  decode_stripped (some line) = elim (strip_last 13 line) [
    | none ↦ parse line
    | some json ↦ parse json
  ]

  unfoldable pub decode_json_line : Text → IpcMessage ⊎ FramingError
  unfolding decode_stripped
  decode_json_line line = decode_stripped (strip_last 10 line)
