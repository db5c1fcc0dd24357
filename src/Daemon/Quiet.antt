-- ===== src/Daemon/Quiet.antt =====
-- The handlers of run_loop.rs that touch neither the sessions nor the microphone.
use idiolect.Common.{
  ◌≡◌, refl, ◌∙◌, Bool, true, false, not, ◌&&◌, Option, none, some, List, [], ◌∷◌, ◌++◌,
  if◌then◌else◌,
}
use idiolect.Text.{Text}
use idiolect.Ime.Session.{ActivityPhase}
use idiolect.Ipc.{IpcMessage, take_in_flight}
use idiolect.Streaming.Take.{
  Decode, decoded, Notice, snippet_committed, snippet_dropped, transcribe_failed, StreamingTake,
  fold_snippet, fold_decode, fold_chunk, first_error_this_take,
}
use idiolect.Streaming.Decisions.{snippet_chunk}
use idiolect.Daemon.{RunLoopError, Outside, Daemon}
use idiolect.Daemon.Rules.{Quiet, Quiet-bind}
use idiolect.Daemon.Protocol.{View, view}
use idiolect.Daemon.Status.{
  written, decode_phase, should_push, send, send_each, repaint, status_message, phase_message,
  set_phase, set, refresh_tray, announce_decode_phase,
}
use idiolect.Daemon.Takes.{notify, fold_each, partial_update, type_partial, folded}

module _ {A W V T : Type 0} (O : Outside A W V T) where
  written-Quiet :
      (m : IpcMessage) (r : W × Option RunLoopError)
      → Quiet {A = A} {W = W} {V = V} {T = T} (written O m r)
  unfolding written
  written-Quiet m (w, none) = λ d. refl
  written-Quiet m (w, some e) = λ d. refl

  pub send-Quiet : (m : IpcMessage) → Quiet (send O m)
  unfolding send
  send-Quiet m d = written-Quiet m (O.write d.world m) d

  pub send_each-Quiet : (ms : List IpcMessage) → Quiet (send_each O ms)
  unfolding send_each
  send_each-Quiet [] = λ d. refl
  send_each-Quiet (m ∷ ms) =
      Quiet-bind (send O m) (λ u. send_each O ms) (send-Quiet m) λ u. send_each-Quiet ms

  pub set_phase-Quiet : (p : ActivityPhase) → Quiet (set_phase O p)
  unfolding set_phase repaint
  set_phase-Quiet p d =
      let push = (should_push d.status_tx p).1 in
      let tx = (should_push d.status_tx p).0 in
      let d' : Daemon A W V T = record d { painted = take_in_flight p; status_tx = tx } in
      Quiet-bind (send_each O (status_message O push.recording))
        (λ u. send_each O (phase_message O push.activity))
        (send_each-Quiet (status_message O push.recording))
        (λ u. send_each-Quiet (phase_message O push.activity)) d'

  pub set-Quiet : (b : Bool) → Quiet (set O b)
  unfolding set
  set-Quiet b = set_phase-Quiet (if b then ActivityPhase.recording else ActivityPhase.idle)

  pub refresh_tray-Quiet : Quiet (refresh_tray O)
  unfolding refresh_tray repaint
  refresh_tray-Quiet d = refl

  pub announce_decode_phase-Quiet : Quiet (announce_decode_phase O)
  unfolding announce_decode_phase
  announce_decode_phase-Quiet d = set_phase-Quiet (decode_phase (O.model_is_resident d.world)) d

  view-type_partial :
      (keep : Bool) (chunk : Text) (review : Bool) (d : Daemon A W V T)
      → view (type_partial O keep chunk review d).0 ≡ view d
  unfolding type_partial
  view-type_partial true chunk review d = refl
  view-type_partial false chunk review d = send-Quiet (partial_update chunk review) d

  view-notify : (d : Daemon A W V T) (n : Notice) → view (notify O d n).0 ≡ view d
  unfolding notify
  view-notify d (snippet_committed chunk) =
      view-type_partial
        (not (O.review_mode d.world) && d.wants_reconcile && not (O.preview_typing d.world)) chunk
        (O.review_mode d.world) d
  view-notify d (snippet_dropped text) = refl
  view-notify d (transcribe_failed code message) = refl

  view-fold_chunk :
      (chunk : Option Text) (text : Text) (w : W) (d : Daemon A W V T) (t : StreamingTake A)
      → view (fold_chunk O.is_alphanumeric (O.transcribe w) (notify O) chunk text d t).0 ≡ view d
  unfolding fold_chunk
  view-fold_chunk none text w d t = view-notify d (snippet_dropped text)
  view-fold_chunk (some chunk) text w d t = view-notify d (snippet_committed chunk)

  chosen_view :
      (b : Bool) (p q : Daemon A W V T × StreamingTake A × Option RunLoopError) (v : View)
      → view p.0 ≡ v
      → view q.0 ≡ v
      → view (if b then p else q).0 ≡ v
  chosen_view true p q v h k = h
  chosen_view false p q v h k = k

  -- A fold asks the observer at most once.
  view-fold_decode :
      (r : Decode) (d : Daemon A W V T) (t : StreamingTake A) (x : List A)
      → view (fold_decode O.is_alphanumeric (O.transcribe d.world) (notify O) r x d t).0 ≡ view d
  unfolding fold_decode
  view-fold_decode (Decode.failed code message) d t x =
      let t' = (first_error_this_take t code).0 in
      let r = notify O d (transcribe_failed code message) in
      chosen_view (first_error_this_take t code).1 (r.0, t', r.1) (d, t', none) (view d)
        (view-notify d (transcribe_failed code message)) refl
  view-fold_decode (decoded text) d t x =
      view-fold_chunk (snippet_chunk O.is_alphanumeric t.merged_text text) text d.world d
        (record t { merged_samples = t.merged_samples ++ x })

  view-fold_snippet :
      (d : Daemon A W V T) (t : StreamingTake A) (x : List A)
      → view (fold_snippet O.is_alphanumeric (O.transcribe d.world) (notify O) d.decoder d t x).1.0
        ≡ view d
  unfolding fold_snippet
  view-fold_snippet d t x = view-fold_decode (O.transcribe d.world d.decoder x).1 d t x

  on_view :
      (e : Option RunLoopError) (p : Daemon A W V T × StreamingTake A)
      (rest : Daemon A W V T × StreamingTake A × Option RunLoopError) (v : View)
      → view p.0 ≡ v
      → view rest.0 ≡ view p.0
      → view (folded O e p rest).0 ≡ v
  unfolding folded
  on_view none p rest v h k = k ∙ h
  on_view (some e) p rest v h k = h

  pub view-fold_each :
      (t : StreamingTake A) (ss : List (List A)) (d : Daemon A W V T)
      → view (fold_each O t ss d).0 ≡ view d
  unfolding fold_each fold_snippet
  view-fold_each t [] d = refl
  view-fold_each t (x ∷ ss) d =
      let r = fold_snippet O.is_alphanumeric (O.transcribe d.world) (notify O) d.decoder d t x in
      let d' : Daemon A W V T = record r.1.0 { decoder = r.0 } in
      on_view r.1.2 (d', r.1.1) (fold_each O r.1.1 ss d') (view d) (view-fold_snippet d t x)
        (view-fold_each r.1.1 ss d')
