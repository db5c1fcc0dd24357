-- ===== src/Daemon/Status.antt =====
-- Sending to the client, and RecordingStatusTx of run_loop.rs.
use idiolect.Common.{Bool, true, false, not, ◌&&◌, Option, none, some, List, [], ◌∷◌, if◌then◌else◌}
use idiolect.Ime.Session.{ActivityPhase}
use idiolect.Ipc.{IpcMessage, recording_status, activity_status, take_in_flight}
use idiolect.Daemon.{
  RunLoopError, ok, failed, RecordingStatusTx, Outside, Action, ◌>>=◌, ◌>>◌, gets, modify, pure,
}

abbrev pub same_phase : ActivityPhase → ActivityPhase → Bool
same_phase ActivityPhase.idle ActivityPhase.idle = true
same_phase ActivityPhase.recording ActivityPhase.recording = true
same_phase ActivityPhase.transcribing ActivityPhase.transcribing = true
same_phase ActivityPhase.loading_model ActivityPhase.loading_model = true
same_phase _ _ = false

abbrev pub same_bool : Bool → Bool → Bool
same_bool true b = b
same_bool false b = not b

pub record StatusPush : Type 0 where
  pub recording : Option Bool
  pub activity : Option ActivityPhase

unfoldable pub new : Bool → Bool → RecordingStatusTx
new feature activity_feature = record {
  feature = feature;
  activity_feature = activity_feature;
  last = ActivityPhase.idle;
}

abbrev pub then_some {ℓ} : {R : Type ℓ} → Bool → R → Option R
then_some b r = if b then some r else none

unfoldable pub should_push : RecordingStatusTx → ActivityPhase → RecordingStatusTx × StatusPush
should_push tx phase = (
  record tx { last = phase },
  if same_phase phase tx.last then record { recording = none; activity = none } else record {
    recording =
        then_some (tx.feature && not (same_bool (take_in_flight phase) (take_in_flight tx.last)))
          (take_in_flight phase);
    activity = then_some tx.activity_feature phase;
  },
)

unfoldable pub decode_phase : Bool → ActivityPhase
decode_phase true = ActivityPhase.transcribing
decode_phase false = ActivityPhase.loading_model

module _ {A W V T : Type 0} (O : Outside A W V T) where
  unfoldable pub written : IpcMessage → W × Option RunLoopError → Action A W V T (Unit {0})
  written message (w, none) d = (record d { world = w; sent = message ∷ d.sent }, ok tt)
  written message (w, some error) d = (record d { world = w }, failed error)

  -- `send_ipc_message`.
  unfoldable pub send : IpcMessage → Action A W V T (Unit {0})
  unfolding written
  send message d = written message (O.write d.world message) d

  unfoldable pub send_each : List IpcMessage → Action A W V T (Unit {0})
  send_each [] = pure tt
  send_each (m ∷ messages) = do send m; send_each messages

  -- `repaint_tray`.
  unfoldable pub repaint : Bool → Action A W V T (Unit {0})
  repaint recording = modify λ d. record d { painted = recording }

  abbrev pub status_message : Option Bool → List IpcMessage
  status_message none = []
  status_message (some b) = recording_status b ∷ []

  abbrev pub phase_message : Option ActivityPhase → List IpcMessage
  phase_message none = []
  phase_message (some p) = activity_status p ∷ []

  unfoldable pub set_phase : ActivityPhase → Action A W V T (Unit {0})
  set_phase phase = do
    repaint (take_in_flight phase)
    push ← gets λ d. (should_push d.status_tx phase).1
    modify λ d. record d { status_tx = (should_push d.status_tx phase).0 }
    send_each (status_message push.recording)
    send_each (phase_message push.activity)

  unfoldable pub set : Bool → Action A W V T (Unit {0})
  set recording = set_phase (if recording then ActivityPhase.recording else ActivityPhase.idle)

  unfoldable pub refresh_tray : Action A W V T (Unit {0})
  refresh_tray = do recording ← gets λ d. take_in_flight d.status_tx.last; repaint recording

  unfoldable pub sync_initial : Action A W V T (Unit {0})
  sync_initial = do
    tx ← gets λ d. d.status_tx
    send_each (status_message (then_some tx.feature (take_in_flight tx.last)))
    send_each (phase_message (then_some tx.activity_feature tx.last))

  unfoldable pub announce_decode_phase : Action A W V T (Unit {0})
  announce_decode_phase = do
    resident ← gets λ d. O.model_is_resident d.world
    set_phase (decode_phase resident)
