-- ===== src/Daemon/Messages.antt =====
-- How the messages that run_loop.rs handles move the protocol with the store.
use idiolect.Common.{
  ℕ, if◌then◌else◌, ◌==◌, ◌≡◌, refl, sym, ◌∙◌, Bool, true, false, ◌⊎◌, inl, inr, Option, none, some,
}
use idiolect.Text.{Text}
use idiolect.Ipc.{
  take_in_flight, IpcMessage, ServerHello, client_hello, server_hello, start_recording,
  stop_recording, toggle_recording, recording_status, activity_status, preedit_update,
  commit_preedit, cancel_preedit, report_correction, history_edited, insert_text, edit_history,
  error, history_reinsert, history_copy, history_reinsert_response, history_copy_response,
  negotiate_protocol, contains, feature_reconcile, feature_recording_status,
  feature_activity_status,
}
use idiolect.Daemon.{
  Reason, daemon_cancel, daemon_disconnect, amend_correction, ActiveSession, HistoryEntry, Outside,
  Daemon, ◌>>=◌,
}
use idiolect.Daemon.Protocol.{idle, due, view, Agrees, Settled}
use idiolect.Daemon.Status
use idiolect.Daemon.Status.{
  send, send_each, status_message, phase_message, then_some, set, repaint, refresh_tray,
  sync_initial,
}
use idiolect.Daemon.Connection.{
  Complaints, cancel_take, cleanup_disconnected_client, negotiated, hello, start_or_stop,
  stop_if_live, to_clipboard, copy_entry, is_success, tried, try_store, amend_entry,
  apply_history_edit, edit_active, edit_entry, edit_history_entry, commit_and_publish,
  handle_message,
}
use idiolect.Daemon.Rules.{
  Quiet, Quiet-bind, Ends, Leads, leads_bind, leads_pure, leads_from, leads_if, leads_gets,
  leads_modify, leads_active, leads_fatal, Agrees-Quiet, Settled-Quiet, Agrees→Intact,
  Settled→Agrees,
}
use idiolect.Daemon.Quiet.{send-Quiet, send_each-Quiet, set-Quiet, refresh_tray-Quiet}
use idiolect.Daemon.Settling.{
  cancel_uncommitted-leads, commit_active_session-leads, report_correction-leads,
}
use idiolect.Daemon.Taking.{
  start_live_capture-leads, stop_live_and_transcribe-leads, start_fixture_oneshot-leads,
  drop_live_capture-leads,
}

module _ {A W V T : Type 0} (O : Outside A W V T) where
  pub cancel_take-leads : (reason : Reason) → Leads Agrees (cancel_take O reason) (λ u. Agrees)
  unfolding cancel_take
  cancel_take-leads reason = leads_bind (drop_live_capture-leads O) (λ u.
      leads_modify {middle = Agrees} (λ d. record d { live_stream = none }) _
        (λ d h. (h.0.0, λ e. absurd (cc)))
        (leads_bind (cancel_uncommitted-leads O reason) (λ u.
          leads_bind (leads_active {q = idle} none refl)
            (λ u. leads_from Settled→Agrees (Agrees-Quiet (set O false) (set-Quiet O false))))))

  pub cleanup_disconnected_client-leads :
      Leads Agrees (cleanup_disconnected_client O) (λ u. Settled)
  unfolding cleanup_disconnected_client repaint
  cleanup_disconnected_client-leads = leads_bind (drop_live_capture-leads O) (λ u.
      leads_from (λ v h. h.0)
        (leads_bind (cancel_uncommitted-leads O daemon_disconnect)
          (λ u. Settled-Quiet (repaint O false) (λ d. refl))))

  sync_initial-Quiet : Quiet (sync_initial O)
  unfolding sync_initial
  sync_initial-Quiet d =
      let tx = d.status_tx in
      let first = status_message O (then_some tx.feature (take_in_flight tx.last)) in
      let second = phase_message O (then_some tx.activity_feature tx.last) in
      Quiet-bind (send_each O first) (λ u. send_each O second) (send_each-Quiet O first)
        (λ u. send_each-Quiet O second) d

  negotiated-leads : (r : ServerHello ⊎ ℕ) → Leads Agrees (negotiated O r) (λ u. Agrees)
  unfolding negotiated
  negotiated-leads (inr version) = leads_fatal Agrees→Intact
  negotiated-leads (inl response) =
      leads_modify
        (λ d. record d { wants_reconcile = contains response.accepted_features feature_reconcile })
        _ (λ d h. h)
        (leads_bind {middle = λ u. Agrees}
          (Agrees-Quiet (send O (server_hello response)) (send-Quiet O (server_hello response)))
          (λ u.
            leads_modify
              (λ d. record d {
                status_tx =
                    Status.new (contains response.accepted_features feature_recording_status)
                      (contains response.accepted_features feature_activity_status);
              })
              (sync_initial O) (λ d h. h) (Agrees-Quiet (sync_initial O) sync_initial-Quiet)))

  pub start_or_stop-leads : Leads Agrees (start_or_stop O) (λ u. Agrees)
  unfolding start_or_stop
  start_or_stop-leads =
      leads_if O.is_live_capture
        (λ e.
          leads_gets (λ b. Agrees) (λ d. d.live_capture) _ (λ d h. h)
            (λ b.
              leads_if b (λ e. stop_live_and_transcribe-leads O) (λ e. start_live_capture-leads O)))
        (λ e. start_fixture_oneshot-leads O)

  pub stop_if_live-leads : Leads Agrees (stop_if_live O) (λ u. Agrees)
  unfolding stop_if_live
  stop_if_live-leads =
      leads_gets (λ b. Agrees) (λ d. d.live_capture) _ (λ d h. h)
        (λ b. leads_if b (λ e. stop_live_and_transcribe-leads O) (λ e. leads_pure tt (λ v h. h)))

  to_clipboard-leads :
      (id : ℕ) (e : Option (Option HistoryEntry)) → Leads Agrees (to_clipboard O id e) (λ r. Agrees)
  unfolding to_clipboard
  to_clipboard-leads id none = leads_fatal Agrees→Intact
  to_clipboard-leads id (some none) = leads_pure _ (λ v h. h)
  to_clipboard-leads id (some (some entry)) = record { run = λ d h. h }

  copied-leads :
      (id : ℕ) (reply : Option Text → IpcMessage)
      → Leads Agrees (copy_entry O id >>= λ e. send O (reply e)) (λ u. Agrees)
  unfolding copy_entry
  copied-leads id reply =
      leads_bind {middle = λ e. Agrees}
        (leads_gets (λ e. Agrees) (λ d. O.get_history_entry d.world id) (to_clipboard O id)
          (λ d h. h) (to_clipboard-leads id))
        (λ e. Agrees-Quiet (send O (reply e)) (send-Quiet O (reply e)))

  commit_and_publish-leads : (text : Text) → Leads Agrees (commit_and_publish O text) (λ u. Agrees)
  unfolding commit_and_publish
  commit_and_publish-leads text = leads_bind (commit_active_session-leads O text) (λ u.
      leads_gets (λ b. Agrees) (λ d. d.live_capture) (set O) (λ d h. Settled→Agrees (view d) h)
        (λ b. Agrees-Quiet (set O b) (set-Quiet O b)))

  tried_ends :
      (id : ℕ) (before after : Text) (r : W × Option ℕ) (d : Daemon A W V T)
      → Agrees (view d)
      → Ends (λ b. Agrees) (tried O (amend_correction id before after) r d)
  unfolding tried
  tried_ends id before after (w, none) d h = h
  tried_ends id before after (w, some r) d h = h

  amend_entry-leads :
      (text : Text) (e : Option (Option HistoryEntry))
      → Leads Agrees (amend_entry O text e) (λ b. Agrees)
  unfolding amend_entry try_store
  amend_entry-leads text none = leads_pure false (λ v h. h)
  amend_entry-leads text (some none) = leads_pure true (λ v h. h)
  amend_entry-leads text (some (some entry)) =
      let call = amend_correction entry.session_id entry.text text in
      record {
        run = λ d h. tried_ends entry.session_id entry.text text (O.call_store d.world call) d h;
      }

  due_either :
      (b : Bool) (s s' : ActiveSession)
      → due (some s) ≡ due (some s')
      → due (if b then some s else some s') ≡ due (some s')
  due_either true s s' e = e
  due_either false s s' e = refl

  due-edit_active :
      (id : ℕ) (text : Text) (s : Option ActiveSession) → due (edit_active O id text s) ≡ due s
  unfolding edit_active
  due-edit_active id text none = refl
  due-edit_active id text (some s) =
      due_either (s.session_id == id) (record s { current_text = text }) s refl

  edit_entry-leads :
      (id : ℕ) (text : Text) (e : Option (Option HistoryEntry))
      → Leads Agrees (edit_entry O id text e) (λ u. Agrees)
  unfolding edit_entry apply_history_edit
  edit_entry-leads id text none = leads_pure tt (λ v h. h)
  edit_entry-leads id text (some none) = leads_pure tt (λ v h. h)
  edit_entry-leads id text (some (some entry)) =
      leads_bind {middle = λ b. Agrees}
        (leads_gets (λ e. Agrees) (λ d. O.get_history_entry d.world id) (amend_entry O text)
          (λ d h. h) (amend_entry-leads text))
        (λ b.
          leads_if b
            (λ e.
              leads_modify {middle = Agrees}
                (λ d. record d {
                  active_session = edit_active O entry.session_id text d.active_session;
                })
                (refresh_tray O)
                (λ d h. (h.0 ∙ sym (due-edit_active entry.session_id text d.active_session), h.1))
                (Agrees-Quiet (refresh_tray O) (refresh_tray-Quiet O)))
            (λ e. leads_pure tt (λ v h. h)))

  edit_history_entry-leads :
      (id : ℕ) (text : Text) → Leads Agrees (edit_history_entry O id text) (λ u. Agrees)
  unfolding edit_history_entry
  edit_history_entry-leads id text =
      leads_gets (λ e. Agrees) (λ d. O.get_history_entry d.world id) (edit_entry O id text)
        (λ d h. h) (edit_entry-leads id text)

  pub refused-leads : (m : IpcMessage) → Leads Agrees (send O m) (λ u. Agrees)
  refused-leads m = Agrees-Quiet (send O m) (send-Quiet O m)

  -- Every message keeps the agreement.
  pub handle_message-leads :
      (c : Complaints) (m : IpcMessage) → Leads Agrees (handle_message O c m) (λ u. Agrees)
  unfolding handle_message hello
  handle_message-leads c (client_hello client) = negotiated-leads (negotiate_protocol client)
  handle_message-leads c start_recording = start_or_stop-leads
  handle_message-leads c toggle_recording = start_or_stop-leads
  handle_message-leads c stop_recording = stop_if_live-leads
  handle_message-leads c (commit_preedit text) = commit_and_publish-leads text
  handle_message-leads c (report_correction text) = report_correction-leads O text
  handle_message-leads c cancel_preedit = cancel_take-leads daemon_cancel
  handle_message-leads c (history_reinsert id) =
      copied-leads id (λ e. history_reinsert_response (is_success O e) e)
  handle_message-leads c (history_copy id) =
      copied-leads id (λ e. history_copy_response (is_success O e) e)
  handle_message-leads c (history_edited id text) = edit_history_entry-leads id text
  handle_message-leads c (history_reinsert_response success e) = refused-leads _
  handle_message-leads c (history_copy_response success e) = refused-leads _
  handle_message-leads c (server_hello h) = refused-leads _
  handle_message-leads c (recording_status b) = refused-leads _
  handle_message-leads c (activity_status p) = refused-leads _
  handle_message-leads c (preedit_update u) = refused-leads _
  handle_message-leads c (insert_text t) = refused-leads _
  handle_message-leads c (edit_history id t) = refused-leads _
  handle_message-leads c (error code t) = refused-leads _
