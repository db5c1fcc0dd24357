-- ===== src/Daemon/Connection.antt =====
-- The messages that handle_connection of run_loop.rs handles.
use idiolect.Common.{
  ℕ, Bool, true, false, ◌⊎◌, inl, inr, Option, none, some, ◌∷◌, ◌==◌, if◌then◌else◌,
}
use idiolect.Text.{Text}
use idiolect.Ipc.{
  IpcMessage, ClientHello, ServerHello, client_hello, server_hello, start_recording, stop_recording,
  toggle_recording, recording_status, activity_status, preedit_update, commit_preedit,
  cancel_preedit, report_correction, history_edited, insert_text, edit_history, error,
  history_reinsert, history_copy, history_reinsert_response, history_copy_response,
  negotiate_protocol, contains, feature_reconcile, feature_recording_status,
  feature_activity_status,
}
use idiolect.Daemon.{
  fatal, ok, Reason, daemon_cancel, daemon_disconnect, StoreCall, amend_correction, answered,
  ActiveSession, HistoryEntry, Outside, Action, ◌>>=◌, ◌>>◌, gets, modify, pure, fail,
}
use idiolect.Daemon.Status
use idiolect.Daemon.Status.{send, set, repaint, refresh_tray, sync_initial}
use idiolect.Daemon.Sessions
use idiolect.Daemon.Sessions.{set_active, commit_active_session, cancel_uncommitted}
use idiolect.Daemon.Takes.{
  start_live_capture, stop_live_and_transcribe, start_fixture_oneshot, drop_live_capture,
}

-- The codes and texts of the two complaints about a message that a client may not send.
pub record Complaints : Type 0 where
  pub code : Text
  pub response : Text
  pub invalid : Text

module _ {A W V T : Type 0} (O : Outside A W V T) where
  -- The cancellation of the client and of the tray.
  unfoldable pub cancel_take : Reason → Action A W V T (Unit {0})
  cancel_take reason = do
    drop_live_capture O
    modify λ d. record d { live_stream = none }
    cancel_uncommitted O reason
    set_active none
    set O false

  unfoldable pub cleanup_disconnected_client : Action A W V T (Unit {0})
  cleanup_disconnected_client = do
    drop_live_capture O
    cancel_uncommitted O daemon_disconnect
    repaint O false

  unfoldable pub negotiated : ServerHello ⊎ ℕ → Action A W V T (Unit {0})
  negotiated (inr version) = fail fatal
  negotiated (inl response) = do
    modify λ d. record d { wants_reconcile = contains response.accepted_features feature_reconcile }
    send O (server_hello response)
    modify λ d. record d {
      status_tx =
          Status.new (contains response.accepted_features feature_recording_status)
            (contains response.accepted_features feature_activity_status);
    }
    sync_initial O

  unfoldable pub hello : ClientHello → Action A W V T (Unit {0})
  unfolding negotiated
  hello client = negotiated (negotiate_protocol client)

  unfoldable pub start_or_stop : Action A W V T (Unit {0})
  start_or_stop =
      if O.is_live_capture
      then (do
        live ← gets λ d. d.live_capture
        (if live then stop_live_and_transcribe O else start_live_capture O))
      else start_fixture_oneshot O

  unfoldable pub stop_if_live : Action A W V T (Unit {0})
  stop_if_live = do
    live ← gets λ d. d.live_capture
    (if live then stop_live_and_transcribe O else pure tt)

  -- The text to the clipboard: the response's success and its error. Its later clearing is not
  -- modelled.
  unfoldable pub to_clipboard : ℕ → Option (Option HistoryEntry) → Action A W V T (Option Text)
  to_clipboard id none = fail fatal
  to_clipboard id (some none) = pure (some (O.not_found id))
  to_clipboard id (some (some entry)) =
      λ d. let (w, e) = O.set_clipboard d.world entry.text in (record d { world = w }, ok e)

  -- `reinsert_entry` and `copy_entry`.
  unfoldable pub copy_entry : ℕ → Action A W V T (Option Text)
  unfolding to_clipboard
  copy_entry id = do entry ← gets λ d. O.get_history_entry d.world id; to_clipboard id entry

  abbrev pub is_success : Option Text → Bool
  is_success none = true
  is_success (some e) = false

  unfoldable pub tried : StoreCall → W × Option ℕ → Action A W V T Bool
  tried call (w, none) d = (record d { world = w }, ok false)
  tried call (w, some id) d =
      (record d { world = w; stored = answered call id ∷ d.stored }, ok true)

  -- A call on the store whose error the caller only logs.
  unfoldable pub try_store : StoreCall → Action A W V T Bool
  unfolding tried
  try_store call d = tried call (O.call_store d.world call) d

  unfoldable pub amend_entry : Text → Option (Option HistoryEntry) → Action A W V T Bool
  unfolding try_store
  amend_entry text none = pure false
  amend_entry text (some none) = pure true
  amend_entry text (some (some entry)) =
      try_store (amend_correction entry.session_id entry.text text)

  -- `apply_history_edit`; false is its error.
  unfoldable pub apply_history_edit : ℕ → Text → Action A W V T Bool
  unfolding amend_entry
  apply_history_edit id text = do
    entry ← gets λ d. O.get_history_entry d.world id
    amend_entry text entry

  unfoldable pub edit_active : ℕ → Text → Option ActiveSession → Option ActiveSession
  edit_active session_id text none = none
  edit_active session_id text (some s) =
      if s.session_id == session_id then some (record s { current_text = text }) else some s

  unfoldable pub edit_entry : ℕ → Text → Option (Option HistoryEntry) → Action A W V T (Unit {0})
  unfolding edit_active
  edit_entry id text none = pure tt
  edit_entry id text (some none) = pure tt
  edit_entry id text (some (some entry)) = do
    done ← apply_history_edit id text
    (if done
        then (do
          modify
              λ d. record d { active_session = edit_active entry.session_id text d.active_session }
          refresh_tray O)
        else pure tt)

  unfoldable pub edit_history_entry : ℕ → Text → Action A W V T (Unit {0})
  unfolding edit_entry
  edit_history_entry id text = do
    entry ← gets λ d. O.get_history_entry d.world id
    edit_entry id text entry

  unfoldable pub commit_and_publish : Text → Action A W V T (Unit {0})
  commit_and_publish text = do
    commit_active_session O text
    live ← gets λ d. d.live_capture
    set O live

  unfoldable pub handle_message : Complaints → IpcMessage → Action A W V T (Unit {0})
  unfolding commit_and_publish
  handle_message c (client_hello client) = hello client
  handle_message c start_recording = start_or_stop
  handle_message c toggle_recording = start_or_stop
  handle_message c stop_recording = stop_if_live
  handle_message c (commit_preedit text) = commit_and_publish text
  handle_message c (report_correction text) = Sessions.report_correction O text
  handle_message c cancel_preedit = cancel_take daemon_cancel
  handle_message c (history_reinsert id) = do
    e ← copy_entry id
    send O (history_reinsert_response (is_success e) e)
  handle_message c (history_copy id) = do
    e ← copy_entry id
    send O (history_copy_response (is_success e) e)
  handle_message c (history_edited id text) = edit_history_entry id text
  handle_message c (history_reinsert_response success e) = send O (error c.code c.response)
  handle_message c (history_copy_response success e) = send O (error c.code c.response)
  handle_message c (server_hello h) = send O (error c.code c.invalid)
  handle_message c (recording_status b) = send O (error c.code c.invalid)
  handle_message c (activity_status p) = send O (error c.code c.invalid)
  handle_message c (preedit_update u) = send O (error c.code c.invalid)
  handle_message c (insert_text t) = send O (error c.code c.invalid)
  handle_message c (edit_history id t) = send O (error c.code c.invalid)
  handle_message c (error code t) = send O (error c.code c.invalid)
