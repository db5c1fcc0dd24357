-- ===== src/Daemon/Ending.antt =====
-- The end of a direct streamed take in run_loop.rs, where the outside is reliable.
use mathlib.Core.Path.{subst}
use idiolect.Common.{
  ℕ, ◌≡◌, refl, Bool, true, false, Option, none, some, List, ◌∷◌, if◌then◌else◌, arith,
}
use idiolect.Text.{Text}
use idiolect.Ime.Session.{ActivityPhase}
use idiolect.Streaming.Take.{FinalizedTake, speech}
use idiolect.Ipc.{IpcMessage, recording_status, activity_status, take_in_flight}
use idiolect.Daemon.{
  Reason, daemon_retry, daemon_stream_final, create_session, write_source_audio, set_audio_digest,
  commit_session, cancel_session, StoreEvent, ActiveSession, RecordingStatusTx, Outside, ◌>>◌,
}
use idiolect.Daemon.Delivery.{
  IsCommit, IsReliable, Sent, Any, Succeeds, Does, does_bind, does_gets, does_pure, does_active,
  does_if, does_send, does_store,
}
use idiolect.Daemon.Status.{
  send_each, repaint, should_push, status_message, phase_message, set_phase, set, then_some,
}
use idiolect.Daemon.Sessions.{when_open, cancel_open, cancel_uncommitted, persist_session}
use idiolect.Daemon.Takes.{reconcile_update, store_direct, store_review, store_take}

-- The log behind a push.
abbrev pub pushed_log : Option Bool → Option ActivityPhase → List IpcMessage → List IpcMessage
pushed_log none none log = log
pushed_log none (some p) log = activity_status p ∷ log
pushed_log (some b) none log = recording_status b ∷ log
pushed_log (some b) (some p) log = activity_status p ∷ recording_status b ∷ log

-- The push at the end of a take, for a client with the recording status.
pub push_end :
    (tx : RecordingStatusTx)
    → tx.feature ≡ true
    → take_in_flight tx.last ≡ true
    → ((should_push tx ActivityPhase.idle).1.recording ≡ some false)
      × ((should_push tx ActivityPhase.idle).1.activity
          ≡ then_some tx.activity_feature ActivityPhase.idle)
unfolding should_push
push_end tx f l = (ground arith, ground arith)

module _ {A W V T : Type 0} (O : Outside A W V T) (reliable : IsReliable O) where
  does_cancel_open :
      {log : List IpcMessage} {tx : RecordingStatusTx} (reason : Reason) (s : ActiveSession)
      → Does (Sent Any log tx) (cancel_open O reason s) (λ u. Sent Any log tx)
  unfolding cancel_open
  does_cancel_open reason s =
      does_bind (does_store O reliable Any (cancel_session s.session_id reason) (λ id l h. tt))
        (λ id. does_active Any (some (record s { finalized = true })))

  does_when_open :
      {log : List IpcMessage} {tx : RecordingStatusTx} (reason : Reason) (s : Option ActiveSession)
      → Does (Sent Any log tx) (when_open O s (cancel_open O reason)) (λ u. Sent Any log tx)
  does_when_open reason none = does_pure tt
  does_when_open reason (some s) =
      does_if s.finalized (λ e. does_pure tt) (λ e. does_cancel_open reason s)

  does_cancel :
      {log : List IpcMessage} {tx : RecordingStatusTx} (reason : Reason)
      → Does (Sent Any log tx) (cancel_uncommitted O reason) (λ u. Sent Any log tx)
  unfolding cancel_uncommitted
  does_cancel {log} {tx} reason =
      does_gets (λ s. Sent Any log tx) (λ d. d.active_session)
        (λ s. when_open O s (cancel_open O reason)) (λ d h. h) (does_when_open reason)

  does_persist :
      {log : List IpcMessage} {tx : RecordingStatusTx} (text : Text)
      → Does (Sent Any log tx) (persist_session O text) (λ id. Sent Any log tx)
  unfolding persist_session
  does_persist {log} {tx} text =
      does_bind {middle = λ id. Sent Any log tx}
        (does_store O reliable Any (create_session text) (λ id l h. tt))
        (λ id.
          does_bind {middle = λ r. Sent Any log tx}
            (does_store O reliable Any (write_source_audio id) (λ r l h. tt))
            (λ r.
              does_bind {middle = λ r. Sent Any log tx}
                (does_store O reliable Any (set_audio_digest id) (λ r l h. tt))
                (λ r. does_pure id)))

  does_store_direct :
      {log : List IpcMessage} {tx : RecordingStatusTx} (id : ℕ) (f : FinalizedTake A)
      → Does
          (Sent Any log tx)
          (store_direct O id f)
          (λ u. Sent (IsCommit f.final_text) (reconcile_update f.final_text ∷ log) tx)
  unfolding store_direct
  does_store_direct {log} {tx} id f =
      let final = IsCommit f.final_text in
      let log' = reconcile_update f.final_text ∷ log in
      does_bind {middle = λ r. Sent final log tx}
        (does_store O reliable final (commit_session id f.final_text daemon_stream_final)
          (λ x l h. (id, x, l, refl)))
        (λ r.
          does_gets (λ b d. (b ≡ true) × Sent final log tx d) (λ d. d.wants_reconcile) _
            (λ d h. (h.2, h))
            (λ b.
              does_bind {middle = λ u. Sent final log' tx}
                (does_if b
                  (λ e. record {
                    run = λ d h.
                        (does_send O reliable final (reconcile_update f.final_text)).run d h.1;
                  })
                  (λ e. record { run = λ d h. cc (e, h.0) }))
                (λ u. does_active final (
                  some (record {
                    session_id = id;
                    current_text = f.final_text;
                    finalized = true;
                    tail_text = if b then none else f.last_snippet_text;
                  })))))

  does_store_take :
      {log : List IpcMessage} {tx : RecordingStatusTx} (f : FinalizedTake A)
      → O.encodes f.merged_samples ≡ true
      → Does
          (Sent Any log tx)
          (store_take O (speech f))
          (λ u. Sent (IsCommit f.final_text) (reconcile_update f.final_text ∷ log) tx)
  unfolding store_take
  does_store_take {log} {tx} f e =
      does_if (O.encodes f.merged_samples)
        (λ e. does_bind {middle = λ u. Sent Any log tx} (does_cancel daemon_retry) (λ u.
          does_bind {middle = λ id. Sent Any log tx} (does_persist f.final_text) (λ id.
            does_gets (λ b d. (b ≡ false) × Sent Any log tx d) (λ d. O.review_mode d.world) _
              (λ d h. (reliable.direct d.world, h))
              (λ b.
                does_if {m = store_review O id f} {k = store_direct O id f} b
                  (λ x. record { run = λ d h. cc (x, h.0) })
                  (λ x. record { run = λ d h. (does_store_direct id f).run d h.1 })))))
        (λ x. cc)

  does_push :
      (P : List StoreEvent → Type 0) {log : List IpcMessage} {tx : RecordingStatusTx}
      (r : Option Bool) (a : Option ActivityPhase)
      → Does
          (Sent P log tx)
          (send_each O (status_message O r) >> send_each O (phase_message O a))
          (λ u. Sent P (pushed_log r a log) tx)
  unfolding send_each
  does_push P none none = does_pure tt
  does_push P none (some p) =
      does_bind (does_send O reliable P (activity_status p)) (λ u. does_pure tt)
  does_push P (some b) none =
      does_bind (does_bind (does_send O reliable P (recording_status b)) (λ u. does_pure tt))
        (λ u. does_pure tt)
  does_push P (some b) (some p) =
      does_bind (does_bind (does_send O reliable P (recording_status b)) (λ u. does_pure tt))
        (λ u. does_bind (does_send O reliable P (activity_status p)) (λ u. does_pure tt))

  does_set_phase :
      (P : List StoreEvent → Type 0) {log : List IpcMessage} {tx : RecordingStatusTx}
      (p : ActivityPhase)
      → Does (Sent P log tx) (set_phase O p) (λ u.
        Sent P
          (pushed_log (should_push tx p).1.recording (should_push tx p).1.activity log)
          (should_push tx p).0)
  unfolding set_phase repaint
  does_set_phase P {log} {tx} p = record {
    run = λ d h.
        let push = (should_push d.status_tx p).1 in
        subst
          (λ x.
            Succeeds
              (λ u.
                Sent P (pushed_log (should_push x p).1.recording (should_push x p).1.activity log)
                  (should_push x p).0)
              (set_phase O p d))
          h.1
          ((does_push P push.recording push.activity).run
            (record d { painted = take_in_flight p; status_tx = (should_push d.status_tx p).0 })
            (h.0, refl, h.2, h.3));
  }

  pub does_end :
      {log : List IpcMessage} {tx : RecordingStatusTx} (f : FinalizedTake A)
      → O.encodes f.merged_samples ≡ true
      → Does (Sent Any log tx) (store_take O (speech f) >> set O false) (λ u.
        Sent
          (IsCommit f.final_text)
          (pushed_log
            (should_push tx ActivityPhase.idle).1.recording
            (should_push tx ActivityPhase.idle).1.activity
            (reconcile_update f.final_text ∷ log))
          (should_push tx ActivityPhase.idle).0)
  unfolding set
  does_end f e =
      does_bind (does_store_take f e)
        (λ u. does_set_phase (IsCommit f.final_text) ActivityPhase.idle)
