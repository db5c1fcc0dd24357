-- ===== src/Daemon/Takes.antt =====
-- The takes of run_loop.rs: starting the microphone, pumping it, and stopping it.
use idiolect.Common.{
  ℕ, Bool, true, false, not, ◌&&◌, ◌⊎◌, inl, inr, Option, none, some, List, [], ◌∷◌, ◌++◌,
  if◌then◌else◌,
}
use idiolect.Text.{Text}
use idiolect.Streaming.Take
use idiolect.Streaming.Take.{
  Decode, decoded, Notice, snippet_committed, snippet_dropped, transcribe_failed, StreamingTake,
  FinalizedTake, TakeOutcome, silent, speech, new_take, auto_stop_due, fold_snippet, finalize,
  keep_snippet,
}
use idiolect.Ipc.{IpcMessage, preedit_update, error}
use idiolect.Daemon.{
  RunLoopError, fatal, ok, Outcome, daemon_retry, daemon_stream_final, commit_session,
  LiveStreamState, Outside, Daemon, Action, ◌>>=◌, ◌>>◌, gets, modify, pure, fail,
}
use idiolect.Daemon.Status.{send, set, announce_decode_phase}
use idiolect.Daemon.Sessions.{
  store, set_active, cancel_uncommitted, persist_session, materialize_session,
}

abbrev pub partial_update : Text → Bool → IpcMessage
partial_update text review =
    preedit_update (record { text = text; review = review; partial = true; reconcile = false })

abbrev pub final_update : Text → Bool → IpcMessage
final_update text review =
    preedit_update (record { text = text; review = review; partial = false; reconcile = false })

abbrev pub reconcile_update : Text → IpcMessage
reconcile_update text =
    preedit_update (record { text = text; review = false; partial = false; reconcile = true })

module _ {A W V T : Type 0} (O : Outside A W V T) where
  abbrev pub failure : Outcome (Unit {0}) → Option RunLoopError
  failure (ok u) = none
  failure (Outcome.failed e) = some e

  -- Sends a partial text, unless it is to be kept back.
  unfoldable pub type_partial :
      Bool → Text → Bool → Daemon A W V T → Daemon A W V T × Option RunLoopError
  type_partial true chunk review d = (d, none)
  type_partial false chunk review d =
      let (d', r) = send O (partial_update chunk review) d in (d', failure r)

  -- `DaemonObserver`; the desktop notification of a failed transcription is not modelled.
  unfoldable pub notify : Daemon A W V T → Notice → Daemon A W V T × Option RunLoopError
  unfolding type_partial
  notify d (snippet_committed chunk) =
      let review = O.review_mode d.world in
      type_partial (not review && d.wants_reconcile && not (O.preview_typing d.world)) chunk review
        d
  notify d (snippet_dropped text) = (d, none)
  notify d (transcribe_failed code message) = (d, none)

  -- `LiveStreamState::ingest`.
  unfoldable pub ingest : LiveStreamState A V → List A → LiveStreamState A V × List (List A)
  ingest s [] = (s, [])
  ingest s (x ∷ drained) =
      let (feed, resampled) = O.resample s.feed (x ∷ drained) in
      let (feed', take, snippets) = Take.ingest O.is_speech feed s.take resampled in
      (record { feed = feed'; take = take }, snippets)

  -- A fold that failed is the last.
  unfoldable pub folded :
      Option RunLoopError
      → Daemon A W V T × StreamingTake A
      → Daemon A W V T × StreamingTake A × Option RunLoopError
      → Daemon A W V T × StreamingTake A × Option RunLoopError
  folded none (d, t) rest = rest
  folded (some e) (d, t) rest = (d, t, some e)

  -- The loops over the snippets, with `fold_snippet_into_take`, up to the first error.
  unfoldable pub fold_each :
      StreamingTake A
      → List (List A)
      → Daemon A W V T
      → Daemon A W V T × StreamingTake A × Option RunLoopError
  unfolding folded
  fold_each t [] d = (d, t, none)
  fold_each t (snippet ∷ snippets) d =
      let (decoder, r) =
        fold_snippet O.is_alphanumeric (O.transcribe d.world) notify d.decoder d t snippet in
      let (d', t', e) = r in
      let d'' : Daemon A W V T = record d' { decoder = decoder } in
      folded e (d'', t') (fold_each t' snippets d'')

  unfoldable pub begun : Option (Text × Text) → Action A W V T (Unit {0})
  begun none = do
    modify λ d. record d {
      live_capture = true;
      live_stream = some (record { feed = O.new_feed; take = new_take (O.vad_config d.world) });
    }
    set O true
  begun (some (code, message)) = send O (error code message)

  unfoldable pub begin_capture : Action A W V T (Option (Text × Text))
  begin_capture d = let (w, r) = O.begin_capture d.world in (record d { world = w }, ok r)

  unfoldable pub start_live_capture : Action A W V T (Unit {0})
  unfolding begun begin_capture
  start_live_capture = do cancel_uncommitted O daemon_retry; r ← begin_capture; begun r

  unfoldable pub pumped : Option RunLoopError → Bool → Outcome Bool
  pumped none due = ok due
  pumped (some e) due = Outcome.failed e

  unfoldable pub pump_stream : LiveStreamState A V → Option (List A) → Action A W V T Bool
  unfolding pumped
  pump_stream s none d = (d, ok false)
  pump_stream s (some drained) d =
      let (s', snippets) = ingest s drained in
      let (d', take, e) = fold_each s'.take snippets d in
      (record d' { live_stream = some (record s' { take = take }) }, pumped e (auto_stop_due take))

  unfoldable pub pump_open : Option (LiveStreamState A V) → Action A W V T Bool
  unfolding pump_stream
  pump_open none d = (d, ok false)
  pump_open (some s) d =
      let (w, polled) = O.poll_capture d.world in pump_stream s polled (record d { world = w })

  unfoldable pub pump_live_stream : Action A W V T Bool
  unfolding pump_open
  pump_live_stream d = (if d.live_capture then pump_open d.live_stream else pure false) d

  unfoldable pub store_review : ℕ → FinalizedTake A → Action A W V T (Unit {0})
  store_review id f = do
    set_active (
        some (record {
          session_id = id;
          current_text = f.final_text;
          finalized = false;
          tail_text = none;
        }))
    send O (final_update f.final_text true)

  unfoldable pub store_direct : ℕ → FinalizedTake A → Action A W V T (Unit {0})
  store_direct id f = do
    store O (commit_session id f.final_text daemon_stream_final)
    wants_reconcile ← gets λ d. d.wants_reconcile
    (if wants_reconcile then send O (reconcile_update f.final_text) else pure tt)
    set_active (
        some (record {
          session_id = id;
          current_text = f.final_text;
          finalized = true;
          tail_text = if wants_reconcile then none else f.last_snippet_text;
        }))

  unfoldable pub store_take : TakeOutcome A → Action A W V T (Unit {0})
  unfolding store_review store_direct
  store_take silent = pure tt
  store_take (speech f) =
      if O.encodes f.merged_samples
      then (do
        cancel_uncommitted O daemon_retry
        id ← persist_session O f.final_text
        review ← gets λ d. O.review_mode d.world
        (if review then store_review id f else store_direct id f))
      else fail fatal

  unfoldable pub close_take : StreamingTake A → Action A W V T (TakeOutcome A)
  close_take t d =
      let (decoder, outcome) = finalize O.is_alphanumeric (O.transcribe d.world) d.decoder t in
      (record d { decoder = decoder }, ok outcome)

  unfoldable pub finalize_streamed_take : StreamingTake A → Action A W V T (Unit {0})
  unfolding close_take store_take
  finalize_streamed_take t = do outcome ← close_take t; store_take outcome

  unfoldable pub all_folded : StreamingTake A → Option RunLoopError → Outcome (StreamingTake A)
  all_folded t none = ok t
  all_folded t (some e) = Outcome.failed e

  unfoldable pub fold_all : StreamingTake A → List (List A) → Action A W V T (StreamingTake A)
  unfolding all_folded
  fold_all t snippets d = let (d', t', e) = fold_each t snippets d in (d', all_folded t' e)

  unfoldable pub finish_capture : Action A W V T (List A ⊎ (Text × Text))
  finish_capture d = let (w, r) = O.finish_capture d.world in (record d { world = w }, ok r)

  unfoldable pub stop_stream :
      LiveStreamState A V → List A ⊎ (Text × Text) → Action A W V T (Unit {0})
  unfolding fold_all
  stop_stream s (inr (code, message)) = send O (error code message)
  stop_stream s (inl tail) = do
    announce_decode_phase O
    let (s', snippets) = ingest s tail
    let (take, rest) = Take.flush s'.take
    t ← fold_all take (snippets ++ keep_snippet rest [])
    finalize_streamed_take t

  -- The preedit of a take that was transcribed as a whole, or the error.
  unfoldable pub report_draft : Decode → Action A W V T (Unit {0})
  report_draft (decoded text) = do
    review ← gets λ d. O.review_mode d.world
    send O (final_update text review)
  report_draft (Decode.failed code message) = send O (error code message)

  unfoldable pub stop_batch : List A ⊎ (Text × Text) → Action A W V T (Unit {0})
  unfolding report_draft
  stop_batch (inr (code, message)) = send O (error code message)
  stop_batch (inl segment) = do
    announce_decode_phase O
    draft ← materialize_session O segment
    report_draft draft

  unfoldable pub stop_live : Option (LiveStreamState A V) → Action A W V T (Unit {0})
  unfolding stop_stream stop_batch finish_capture
  stop_live none = do r ← finish_capture; stop_batch r
  stop_live (some s) = do
    modify λ d. record d { live_stream = none }
    r ← finish_capture
    stop_stream s r

  unfoldable pub stop_live_and_transcribe : Action A W V T (Unit {0})
  unfolding stop_live
  stop_live_and_transcribe = do
    live ← gets λ d. d.live_capture
    (if live
        then (do
          modify λ d. record d { live_capture = false }
          stream ← gets λ d. d.live_stream
          stop_live stream
          set O false)
        else pure tt)

  unfoldable pub fixture_draft : Decode → Action A W V T (Unit {0})
  unfolding report_draft
  fixture_draft (decoded text) = do report_draft (decoded text); set O false
  fixture_draft (Decode.failed code message) = report_draft (Decode.failed code message)

  unfoldable pub fixture : List A ⊎ (Text × Text) → Action A W V T (Unit {0})
  unfolding fixture_draft
  fixture (inr (code, message)) = send O (error code message)
  fixture (inl segment) = do draft ← materialize_session O segment; fixture_draft draft

  unfoldable pub start_fixture_oneshot : Action A W V T (Unit {0})
  unfolding fixture
  start_fixture_oneshot = do
    cancel_uncommitted O daemon_retry
    clip ← gets λ d. O.fixture_clip d.world
    fixture clip

  -- What stops the microphone also releases it; the samples are dropped.
  unfoldable pub drop_live_capture : Action A W V T (Unit {0})
  unfolding finish_capture
  drop_live_capture = do
    live ← gets λ d. d.live_capture
    (if live
        then (do modify λ d. record d { live_capture = false }; finish_capture; pure tt)
        else pure tt)
