-- ===== src/Daemon/Taking.antt =====
-- How the takes of run_loop.rs move the protocol with the store and the microphone.
use mathlib.Core.Path.{subst}
use idiolect.Common.{
  ℕ, if◌then◌else◌, ◌≡◌, refl, sym, ◌∙◌, Bool, true, false, ◌⊎◌, inl, inr, Option, none, some, List,
  [], ◌++◌,
}
use idiolect.Text.{Text}
use idiolect.Streaming.Take
use idiolect.Streaming.Take.{
  Decode, decoded, StreamingTake, FinalizedTake, TakeOutcome, silent, speech, auto_stop_due,
  keep_snippet, new_take,
}
use idiolect.Ipc.{error}
use idiolect.Daemon.{
  RunLoopError, disconnect, fatal, daemon_retry, daemon_stream_final, commit_session,
  LiveStreamState, Outside, Daemon, gets, modify, pure, ◌>>=◌, ◌>>◌,
}
use idiolect.Daemon.Protocol.{is_some, idle, opened, View, view, Logged, Agrees, Settled}
use idiolect.Daemon.Status.{send, set, announce_decode_phase}
use idiolect.Daemon.Takes.{
  final_update, reconcile_update, ingest, fold_each, begun, start_live_capture, pumped, pump_stream,
  pump_open, pump_live_stream, store_review, store_direct, store_take, close_take,
  finalize_streamed_take, fold_all, finish_capture, stop_stream, report_draft, stop_live,
  stop_live_and_transcribe, fixture_draft, fixture, start_fixture_oneshot, drop_live_capture,
  begin_capture,
}
use idiolect.Daemon.Rules.{
  Quiet, Quiet-bind, Ends, Leads, leads_bind, leads_pure, leads_from, leads_to, leads_if,
  leads_gets, leads_modify, leads_quiet, leads_store, leads_active, leads_fatal, Agrees-Quiet,
  Settled-Quiet, Agrees→Intact, Settled→Agrees,
}
use idiolect.Daemon.Quiet.{send-Quiet, set-Quiet, announce_decode_phase-Quiet, view-fold_each}
use idiolect.Daemon.Settling.{
  cancel_uncommitted-leads, persist_session-leads, materialize_session-leads, about_same,
}

-- The microphone is closed.
abbrev pub Closed : View → Type 0
Closed v = Agrees v × (v.live_capture ≡ false)

Closed-intact : (v : View) → Closed v → Agrees v
Closed-intact v h = h.0

Opened→Agrees : (v : View) (i : ℕ) → Logged (opened i) (opened i) v → Agrees v
Opened→Agrees v i h = (h.0 ∙ sym h.1, h.2)

module _ {A W V T : Type 0} (O : Outside A W V T) where
  begin_capture-Quiet : Quiet (begin_capture O)
  unfolding begin_capture
  begin_capture-Quiet d = refl

  finish_capture-Quiet : Quiet (finish_capture O)
  unfolding finish_capture
  finish_capture-Quiet d = refl

  close_take-Quiet : (t : StreamingTake A) → Quiet (close_take O t)
  unfolding close_take
  close_take-Quiet t d = refl

  fold_all-Quiet : (t : StreamingTake A) (ss : List (List A)) → Quiet (fold_all O t ss)
  unfolding fold_all
  fold_all-Quiet t ss d = view-fold_each O t ss d

  report_draft-Quiet : (r : Decode) → Quiet (report_draft O r)
  unfolding report_draft
  report_draft-Quiet (decoded text) =
      λ d. send-Quiet O (final_update text (O.review_mode d.world)) d
  report_draft-Quiet (Decode.failed code message) = send-Quiet O (error code message)

  fixture_draft-Quiet : (r : Decode) → Quiet (fixture_draft O r)
  unfolding fixture_draft
  fixture_draft-Quiet (decoded text) =
      Quiet-bind (report_draft O (decoded text)) (λ u. set O false)
        (report_draft-Quiet (decoded text)) (λ u. set-Quiet O false)
  fixture_draft-Quiet (Decode.failed code message) = report_draft-Quiet (Decode.failed code message)

  begun-leads : (r : Option (Text × Text)) → Leads Settled (begun O r) (λ u. Agrees)
  unfolding begun
  begun-leads none =
      leads_modify
        (λ d. record d {
          live_capture = true;
          live_stream = some (record { feed = O.new_feed; take = new_take (O.vad_config d.world) });
        })
        (set O true) (λ d h. (h.0, h.1, λ e. refl))
        (leads_to (λ u v. Settled→Agrees v) (Settled-Quiet (set O true) (set-Quiet O true)))
  begun-leads (some (code, message)) =
      leads_to (λ u v. Settled→Agrees v)
        (Settled-Quiet (send O (error code message)) (send-Quiet O (error code message)))

  pub start_live_capture-leads : Leads Agrees (start_live_capture O) (λ u. Agrees)
  unfolding start_live_capture
  start_live_capture-leads = leads_bind (cancel_uncommitted-leads O daemon_retry) (λ u.
      leads_bind {middle = λ r. Settled} (Settled-Quiet (begin_capture O) begin_capture-Quiet)
        begun-leads)

  pumped_ends :
      (e : Option RunLoopError) (due : Bool) (d : Daemon A W V T)
      → Agrees (view d)
      → Ends {A = A} {W = W} {V = V} {T = T} (λ b. Agrees) (d, pumped O e due)
  unfolding pumped
  pumped_ends none due d h = h
  pumped_ends (some disconnect) due d h = h
  pumped_ends (some fatal) due d h = Agrees→Intact (view d) h

  pump_stream-leads :
      (s : LiveStreamState A V) (polled : Option (List A))
      → Leads Agrees (pump_stream O s polled) (λ b. Agrees)
  unfolding pump_stream
  pump_stream-leads s none = leads_pure false (λ v h. h)
  pump_stream-leads s (some drained) = record {
    run = λ d h.
        let i = ingest O s drained in
        let r = fold_each O i.0.take i.1 d in
        let d' : Daemon A W V T = r.0 in
        let kept : Agrees (view d') = subst Agrees (sym (view-fold_each O i.0.take i.1 d)) h in
        pumped_ends r.2 (auto_stop_due r.1)
          (record d' { live_stream = some (record i.0 { take = r.1 }) }) (kept.0, λ e. refl);
  }

  pump_open-leads : (s : Option (LiveStreamState A V)) → Leads Agrees (pump_open O s) (λ b. Agrees)
  unfolding pump_open
  pump_open-leads none = leads_pure false (λ v h. h)
  pump_open-leads (some s) = record {
    run = λ d h.
        (pump_stream-leads s (O.poll_capture d.world).1).run
          (record d { world = (O.poll_capture d.world).0 }) h;
  }

  pub pump_live_stream-leads : Leads Agrees (pump_live_stream O) (λ b. Agrees)
  unfolding pump_live_stream
  pump_live_stream-leads = record {
    run = λ d h.
        (leads_if d.live_capture (λ e. pump_open-leads d.live_stream)
            (λ e. leads_pure false (λ v h. h))).run
          d h;
  }

  store_review-leads :
      (id : ℕ) (f : FinalizedTake A)
      → Leads (Logged (opened id) idle) (store_review O id f) (λ u. Agrees)
  unfolding store_review
  store_review-leads id f =
      leads_bind
        (leads_active
          (some (record {
            session_id = id;
            current_text = f.final_text;
            finalized = false;
            tail_text = none;
          }))
          refl)
        (λ u.
          leads_from (λ v h. Opened→Agrees v id h)
            (Agrees-Quiet (send O (final_update f.final_text true))
              (send-Quiet O (final_update f.final_text true))))

  store_direct-leads :
      (id : ℕ) (f : FinalizedTake A)
      → Leads (Logged (opened id) idle) (store_direct O id f) (λ u. Agrees)
  unfolding store_direct
  store_direct-leads id f =
      leads_bind
        (leads_store O (commit_session id f.final_text daemon_stream_final) (λ h. cc)
          (λ r. about_same id idle))
        (λ r.
          leads_gets (λ b. Settled) (λ d. d.wants_reconcile) _ (λ d h. h)
            (λ b.
              leads_bind {middle = λ u. Settled}
                (leads_if b
                  (λ e.
                    Settled-Quiet (send O (reconcile_update f.final_text))
                      (send-Quiet O (reconcile_update f.final_text)))
                  (λ e. leads_pure tt (λ v h. h)))
                (λ u.
                  leads_to (λ u v. Settled→Agrees v)
                    (leads_active
                      (some (record {
                        session_id = id;
                        current_text = f.final_text;
                        finalized = true;
                        tail_text = if b then none else f.last_snippet_text;
                      }))
                      refl))))

  store_take-leads : (o : TakeOutcome A) → Leads Agrees (store_take O o) (λ u. Agrees)
  unfolding store_take
  store_take-leads silent = leads_pure tt (λ v h. h)
  store_take-leads (speech f) =
      leads_if (O.encodes f.merged_samples)
        (λ e. leads_bind (cancel_uncommitted-leads O daemon_retry) (λ u.
          leads_bind (persist_session-leads O f.final_text) (λ id.
            leads_gets (λ b. Logged (opened id) idle) (λ d. O.review_mode d.world) _ (λ d h. h)
              (λ b. leads_if b (λ e. store_review-leads id f) (λ e. store_direct-leads id f)))))
        (λ e. leads_fatal Agrees→Intact)

  finalize_streamed_take-leads :
      (t : StreamingTake A) → Leads Agrees (finalize_streamed_take O t) (λ u. Agrees)
  unfolding finalize_streamed_take
  finalize_streamed_take-leads t =
      leads_bind {middle = λ o. Agrees} (Agrees-Quiet (close_take O t) (close_take-Quiet t))
        store_take-leads

  stop_stream-leads :
      (s : LiveStreamState A V) (r : List A ⊎ (Text × Text))
      → Leads Agrees (stop_stream O s r) (λ u. Agrees)
  unfolding stop_stream
  stop_stream-leads s (inr (code, message)) =
      Agrees-Quiet (send O (error code message)) (send-Quiet O (error code message))
  stop_stream-leads s (inl tail) =
      let i = ingest O s tail in
      let take = Take.flush i.0.take in
      leads_bind {middle = λ u. Agrees}
        (Agrees-Quiet (announce_decode_phase O) (announce_decode_phase-Quiet O))
        (λ u.
          leads_bind {middle = λ t. Agrees}
            (Agrees-Quiet (fold_all O take.0 (i.1 ++ keep_snippet take.1 []))
              (fold_all-Quiet take.0 (i.1 ++ keep_snippet take.1 [])))
            finalize_streamed_take-leads)

  -- A stop of a stream, once the microphone is marked as closed.
  stop_live-leads :
      (s : Option (LiveStreamState A V))
      → Leads
          (λ v. (is_some s ≡ true) × Agrees v × (v.live_capture ≡ false))
          (stop_live O s)
          (λ u. Agrees)
  unfolding stop_live
  stop_live-leads none = record { run = λ d h. cc }
  stop_live-leads (some s) =
      leads_modify (λ d. record d { live_stream = none })
        (finish_capture O >>= λ r. stop_stream O s r) (λ d h. (h.1.0, λ e. cc))
        (leads_bind {middle = λ r. Agrees} (Agrees-Quiet (finish_capture O) finish_capture-Quiet)
          (stop_stream-leads s))

  stop_open-leads :
      Leads
        (λ v. Agrees v × (v.live_capture ≡ true))
        (modify (λ d. record d { live_capture = false })
          >> (gets (λ d. d.live_stream) >>= λ s. stop_live O s >> set O false))
        (λ u. Agrees)
  stop_open-leads =
      leads_modify {middle = λ v. (v.streaming ≡ true) × Agrees v × (v.live_capture ≡ false)}
        (λ d. record d { live_capture = false })
        (gets (λ d. d.live_stream) >>= λ s. stop_live O s >> set O false)
        (λ d h. (h.0.1 h.1, (h.0.0, λ e. cc), refl))
        (leads_gets (λ s v. (is_some s ≡ true) × Agrees v × (v.live_capture ≡ false))
          (λ d. d.live_stream) (λ s. stop_live O s >> set O false) (λ d h. h)
          (λ s.
            leads_bind (stop_live-leads s) (λ u. Agrees-Quiet (set O false) (set-Quiet O false))))

  pub stop_live_and_transcribe-leads : Leads Agrees (stop_live_and_transcribe O) (λ u. Agrees)
  unfolding stop_live_and_transcribe
  stop_live_and_transcribe-leads =
      leads_gets (λ b v. Agrees v × (v.live_capture ≡ b)) (λ d. d.live_capture) _ (λ d h. (h, refl))
        (λ b.
          leads_if b (λ e. leads_from (λ v h. (h.0, h.1 ∙ e)) stop_open-leads)
            (λ e. leads_pure tt (λ v h. h.0)))

  fixture-leads : (r : List A ⊎ (Text × Text)) → Leads Settled (fixture O r) (λ u. Agrees)
  unfolding fixture
  fixture-leads (inr (code, message)) =
      leads_from Settled→Agrees
        (Agrees-Quiet (send O (error code message)) (send-Quiet O (error code message)))
  fixture-leads (inl segment) =
      leads_bind (materialize_session-leads O segment)
        (λ r. Agrees-Quiet (fixture_draft O r) (fixture_draft-Quiet r))

  pub start_fixture_oneshot-leads : Leads Agrees (start_fixture_oneshot O) (λ u. Agrees)
  unfolding start_fixture_oneshot
  start_fixture_oneshot-leads = leads_bind (cancel_uncommitted-leads O daemon_retry) (λ u.
      leads_gets (λ r. Settled) (λ d. O.fixture_clip d.world) (fixture O) (λ d h. h) fixture-leads)

  -- Dropping the capture closes the microphone.
  pub drop_live_capture-leads : Leads Agrees (drop_live_capture O) (λ u. Closed)
  unfolding drop_live_capture
  drop_live_capture-leads =
      leads_gets (λ b v. Agrees v × (v.live_capture ≡ b)) (λ d. d.live_capture) _ (λ d h. (h, refl))
        (λ b.
          leads_if b
            (λ e.
              leads_modify {middle = Closed} (λ d. record d { live_capture = false })
                (finish_capture O >> pure tt) (λ d h. ((h.0.0, λ e. cc), refl))
                (leads_bind {middle = λ r. Closed}
                  (leads_quiet (finish_capture O) (λ v h. h.0) (λ v h. Agrees→Intact v h.0)
                    finish_capture-Quiet)
                  (λ r. leads_pure tt (λ v h. h))))
            (λ e. leads_pure tt (λ v h. (h.0, h.1 ∙ e))))
