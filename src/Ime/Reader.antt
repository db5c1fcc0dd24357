-- ===== src/Ime/Reader.antt =====
-- spawn_reader of crates/idiolect-adapters/desktop/ibus/src/ibus.rs: how the engine applies the
-- daemon's messages to its session. Whether a context has the focus and what the review dialog
-- returns come from outside. The dialog's preview, the focus and the overlay are not modelled.
use idiolect.Common.{Bool, true, false, Option, none, some, List, [], ◌∷◌, if◌then◌else◌}
use idiolect.Text.{Text}
use idiolect.Ime.Session.{
  commit_text, emit, Session, on_transcript, on_partial_transcript, on_reconcile,
  on_recording_status, on_activity, set_phase_channel_live, commit_reviewed, cancel_reviewed,
  on_transcript_without_target, on_error,
}
use idiolect.Ipc.{
  IpcMessage, client_hello, server_hello, start_recording, stop_recording, toggle_recording,
  recording_status, activity_status, PreeditUpdate, preedit_update, commit_preedit, cancel_preedit,
  report_correction, history_edited, insert_text, edit_history, error, history_reinsert,
  history_copy, history_reinsert_response, history_copy_response,
}

pub record Surroundings : Type 0 where
  pub is_active : Bool
  pub review : Text → Option Text

unfoldable pub on_reviewed : Session → Option Text → Session
on_reviewed s none = cancel_reviewed s
on_reviewed s (some edited) = commit_reviewed s edited

-- A text of a take that is over, outside the review.
unfoldable pub on_direct : Surroundings → Session → PreeditUpdate → Session
on_direct o s u =
    if o.is_active
    then (if u.reconcile then on_reconcile s u.text else on_transcript s u.text)
    else on_transcript_without_target s

unfoldable pub on_update : Surroundings → Session → PreeditUpdate → Session
unfolding on_reviewed on_direct
on_update o s u =
    if u.partial
    then (if u.review then s else on_partial_transcript s u.text)
    else if u.review
    then on_reviewed (set_phase_channel_live (set_phase_channel_live s false) true)
        (o.review u.text)
    else on_direct o s u

unfoldable pub read_message : Surroundings → Session → IpcMessage → Session
unfolding on_update
read_message o s (preedit_update u) = on_update o s u
read_message o s (insert_text text) = emit (commit_text text) s
read_message o s (recording_status recording) = on_recording_status s recording
read_message o s (activity_status phase) = on_activity s phase
read_message o s (error code text) = on_error s
read_message o s (edit_history id text) =
    set_phase_channel_live (set_phase_channel_live s false) true
read_message o s (client_hello h) = s
read_message o s (server_hello h) = s
read_message o s start_recording = s
read_message o s stop_recording = s
read_message o s toggle_recording = s
read_message o s (commit_preedit text) = s
read_message o s cancel_preedit = s
read_message o s (report_correction text) = s
read_message o s (history_edited id text) = s
read_message o s (history_reinsert id) = s
read_message o s (history_copy id) = s
read_message o s (history_reinsert_response b e) = s
read_message o s (history_copy_response b e) = s

-- The messages of a log, whose newest stands first.
unfoldable pub read_all : Surroundings → Session → List IpcMessage → Session
read_all o s [] = s
read_all o s (m ∷ log) = read_message o (read_all o s log) m
