-- ===== src/Daemon/Protocol.antt =====
-- The protocol that the daemon of run_loop.rs owes the store: one session at a time is created,
-- written to, and committed or cancelled once. It is read off the log of the calls answered.
use idiolect.Common.{
  ℕ, ◌≡◌, ◌≢◌, ◌==◌, Bool, true, false, Option, none, some, List, [], ◌∷◌, if◌then◌else◌,
}
use idiolect.Daemon.{
  create_session, write_source_audio, set_audio_digest, record_preedit_change, commit_session,
  cancel_session, amend_correction, StoreEvent, answered, ActiveSession, Daemon,
}

-- No session, one that is open, or a call out of turn.
pub data Phase : Type 0 where
  idle : Phase
  opened : ℕ → Phase
  broken : Phase

-- The phase after a call about the open session.
abbrev pub about : Phase → ℕ → Phase → Phase
about (opened i) j p = if i == j then p else broken
about idle j p = broken
about broken j p = broken

-- A correction is of a session that was committed, and leaves the phase.
abbrev pub phase_after : Phase → StoreEvent → Phase
phase_after idle (answered (create_session text) id) = opened id
phase_after (opened i) (answered (create_session text) id) = broken
phase_after broken (answered (create_session text) id) = broken
phase_after p (answered (write_source_audio j) id) = about p j p
phase_after p (answered (set_audio_digest j) id) = about p j p
phase_after p (answered (record_preedit_change j before after) id) = about p j p
phase_after p (answered (commit_session j text reason) id) = about p j idle
phase_after p (answered (cancel_session j reason) id) = about p j idle
phase_after p (answered (amend_correction j before after) id) = p

-- The phase of a log, whose newest call stands first.
abbrev pub phase_of : List StoreEvent → Phase
phase_of [] = idle
phase_of (e ∷ log) = phase_after (phase_of log) e

-- The phase that the daemon's own account of its session tells.
abbrev pub due : Option ActiveSession → Phase
due none = idle
due (some s) = if s.finalized then idle else opened s.session_id

abbrev pub is_some {ℓ} : {R : Type ℓ} → Option R → Bool
is_some none = false
is_some (some r) = true

-- What the sessions and the microphone are seen by.
pub record View : Type 0 where
  pub active_session : Option ActiveSession
  pub stored : List StoreEvent
  pub live_capture : Bool
  pub streaming : Bool

abbrev pub view : {A W V T : Type 0} → Daemon A W V T → View
view d = record {
  active_session = d.active_session;
  stored = d.stored;
  live_capture = d.live_capture;
  streaming = is_some d.live_stream;
}

-- An open microphone feeds a stream.
abbrev pub Streams : View → Type 0
Streams v = v.live_capture ≡ true → v.streaming ≡ true

abbrev pub Logged : Phase → Phase → View → Type 0
Logged p q v = (phase_of v.stored ≡ p) × (due v.active_session ≡ q) × Streams v

-- The log and the daemon's account agree.
abbrev pub Agrees : View → Type 0
Agrees v = (phase_of v.stored ≡ due v.active_session) × Streams v

abbrev pub Settled : View → Type 0
Settled = Logged idle idle

-- No call was out of turn.
abbrev pub Intact : View → Type 0
Intact v = phase_of v.stored ≢ broken
