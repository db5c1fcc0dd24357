-- ===== src/Daemon.antt =====
-- crates/idiolectd/src/run_loop.rs: the state of one connection, and what its handlers ask of the
-- outside. Reading, capture, codec, decoder, store, clipboard and the remaining tray actions are the
-- functions of `Outside`; what was sent and what the store answered is logged, newest first. A
-- capture is a Boolean, since its handle is only kept and given back. Ids are natural numbers, and an
-- idempotency key is its prefix with the session's id. A repaint of the tray cannot fail the caller.
pub mod Status
pub mod Sessions
pub mod Takes
pub mod Connection
pub mod Serving
pub mod Rules
pub mod Quiet
pub mod Protocol
pub mod Settling
pub mod Taking
pub mod Messages
pub mod Clients
pub mod Mirror
pub mod Delivery
pub mod Ending
pub mod Landing
pub mod Microphone
pub mod Examples
use idiolect.Common.{ℕ, Bool, Option, List, ◌⊎◌}
use idiolect.Text.{Text}
use idiolect.Ime.Session.{ActivityPhase}
use idiolect.Streaming.Take.{StreamingConfig, StreamingTake, Decode}
use idiolect.Ipc.{IpcMessage}

-- `RunLoopError`, told apart by `is_client_disconnect`.
pub data RunLoopError : Type 0 where
  disconnect fatal : RunLoopError

pub data Outcome (R : Type 0) : Type 0 where
  ok : R → Outcome R
  failed : RunLoopError → Outcome R

-- The prefixes of the idempotency keys.
pub data Reason : Type 0 where
  daemon_retry daemon_cancel daemon_disconnect tray_cancel daemon_commit daemon_stream_final :
      Reason

-- The calls that write to the store; a session is named by its id.
pub data StoreCall : Type 0 where
  create_session : Text → StoreCall
  write_source_audio set_audio_digest : ℕ → StoreCall
  record_preedit_change : ℕ → Text → Text → StoreCall
  commit_session : ℕ → Text → Reason → StoreCall
  cancel_session : ℕ → Reason → StoreCall
  amend_correction : ℕ → Text → Text → StoreCall

-- A call that succeeded, with the id that a creation returned.
pub data StoreEvent : Type 0 where
  answered : StoreCall → ℕ → StoreEvent

pub record ActiveSession : Type 0 where
  pub session_id : ℕ
  pub current_text : Text
  pub finalized : Bool
  pub tail_text : Option Text

-- `feed` is the detector and the resampler.
pub record LiveStreamState (A V : Type 0) : Type 0 where
  pub feed : V
  pub take : StreamingTake A

pub record RecordingStatusTx : Type 0 where
  pub feature : Bool
  pub activity_feature : Bool
  pub last : ActivityPhase

pub record HistoryEntry : Type 0 where
  pub session_id : ℕ
  pub text : Text

pub record Outside (A W V T : Type 0) : Type 0 where
  pub write : W → IpcMessage → W × Option RunLoopError
  pub begin_capture : W → W × Option (Text × Text)
  pub poll_capture : W → W × Option (List A)
  pub finish_capture : W → W × (List A ⊎ (Text × Text))
  pub is_live_capture : Bool
  pub fixture_clip : W → List A ⊎ (Text × Text)
  pub new_feed : V
  pub resample : V → List A → V × List A
  pub is_speech : V → List A → V × Bool
  pub is_alphanumeric : ℕ → Bool
  pub transcribe : W → T → List A → T × Decode
  pub model_is_resident : W → Bool
  pub vad_config : W → StreamingConfig
  pub encodes : List A → Bool
  pub decoded_again : List A → Option (List A)
  pub review_mode : W → Bool
  pub preview_typing : W → Bool
  pub call_store : W → StoreCall → W × Option ℕ
  pub get_history_entry : W → ℕ → Option (Option HistoryEntry)
  pub set_clipboard : W → Text → W × Option Text
  pub not_found : ℕ → Text
  pub other_tray_action : W → Text → W × Option RunLoopError

-- `Live`, the daemon's side of the stream and the store, and the outside.
pub record Daemon (A W V T : Type 0) : Type 0 where
  pub active_session : Option ActiveSession
  pub live_capture : Bool
  pub live_stream : Option (LiveStreamState A V)
  pub status_tx : RecordingStatusTx
  pub wants_reconcile : Bool
  pub sent : List IpcMessage
  pub stored : List StoreEvent
  pub painted : Bool
  pub world : W
  pub decoder : T

-- A handler: the state stands as it was left also where it fails.
abbrev pub Action : (A W V T R : Type 0) → Type 0
Action A W V T R = Daemon A W V T → Daemon A W V T × Outcome R

module _ {A W V T : Type 0} where
  abbrev pub pure : {R : Type 0} → R → Action A W V T R
  pure r d = (d, ok r)

  abbrev pub fail : {R : Type 0} → RunLoopError → Action A W V T R
  fail e d = (d, failed e)

  abbrev pub continue :
      {Q R : Type 0}
      → Daemon A W V T × Outcome Q
      → (Q → Action A W V T R)
      → Daemon A W V T × Outcome R
  continue (d, ok q) f = f q d
  continue (d, failed e) f = (d, failed e)

  infixl 5 ◌>>=◌ ◌>>◌
  abbrev pub ◌>>=◌ : {Q R : Type 0} → Action A W V T Q → (Q → Action A W V T R) → Action A W V T R
  ◌>>=◌ m f d = continue (m d) f

  abbrev pub ◌>>◌ : {Q R : Type 0} → Action A W V T Q → Action A W V T R → Action A W V T R
  m >> k = m >>= λ _. k

  abbrev pub gets : {R : Type 0} → (Daemon A W V T → R) → Action A W V T R
  gets f d = (d, ok (f d))

  abbrev pub modify : (Daemon A W V T → Daemon A W V T) → Action A W V T (Unit {0})
  modify f d = (f d, ok tt)
