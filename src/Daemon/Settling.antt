-- ===== src/Daemon/Settling.antt =====
-- How the session handlers of run_loop.rs move the protocol with the store.
use idiolect.Common.{
  ℕ, List, ◌≡◌, refl, sym, ap, ◌∙◌, true, false, Option, none, some, ==_iff, if◌then◌else◌,
}
use idiolect.Text.{Text, text_eq}
use idiolect.Streaming.Decisions.{merge_tail_correction}
use idiolect.Streaming.Take.{Decode, decoded}
use idiolect.Daemon.{
  Reason, daemon_commit, create_session, write_source_audio, set_audio_digest,
  record_preedit_change, commit_session, cancel_session, amend_correction, ActiveSession, Outside,
  Action,
}
use idiolect.Daemon.Protocol.{
  Phase, idle, opened, broken, about, due, View, Logged, Agrees, Settled,
}
use idiolect.Daemon.Sessions.{
  cancel_open, commit_open, when_open, commit_active_session, cancel_uncommitted, persist_session,
  amend, amend_finalized, draft_of, report_correction, persist_draft, materialize_session,
  transcribe_segment,
}
use idiolect.Daemon.Status.{refresh_tray}
use idiolect.Daemon.Rules.{
  Leads, leads_bind, leads_pure, leads_from, leads_if, leads_gets, leads_store, leads_active,
  Settled-Quiet, leads_to, leads_fatal, Settled→Agrees, Settled→Intact,
}
use idiolect.Daemon.Quiet.{refresh_tray-Quiet}

pub about_same : (i : ℕ) (p : Phase) → about (opened i) i p ≡ p
about_same i p = ap (λ b. if b then p else broken) ((==_iff i i).1 refl)

due_open : (s : ActiveSession) → s.finalized ≡ false → due (some s) ≡ opened s.session_id
due_open s e = ap (λ b. if b then idle else opened s.session_id) e

due_finalized : (s : ActiveSession) → s.finalized ≡ true → due (some s) ≡ idle
due_finalized s e = ap (λ b. if b then idle else opened s.session_id) e

-- The daemon's session is open.
abbrev Open : ActiveSession → View → Type 0
Open s = Logged (opened s.session_id) (opened s.session_id)

-- The session was read from the daemon's state.
abbrev Read : Option ActiveSession → View → Type 0
Read s v = (v.active_session ≡ s) × Agrees v

Read-Logged :
    (s : Option ActiveSession) (p : Phase) → due s ≡ p → (v : View) → Read s v → Logged p p v
Read-Logged s p e v (h, (a, streams)) = let f = ap due h ∙ e in (a ∙ f, f, streams)

module _ {A W V T : Type 0} (O : Outside A W V T) where
  cancel_open-leads :
      (reason : Reason) (s : ActiveSession) → Leads (Open s) (cancel_open O reason s) (λ u. Settled)
  unfolding cancel_open
  cancel_open-leads reason s =
      leads_bind
        (leads_store O (cancel_session s.session_id reason) (λ h. cc)
          (λ id. about_same s.session_id idle))
        (λ id. leads_active (some (record s { finalized = true })) refl)

  commit_open-leads :
      (s : ActiveSession) (text : Text)
      → s.finalized ≡ false
      → Leads (Open s) (commit_open O s text) (λ u. Settled)
  unfolding commit_open
  commit_open-leads s text e =
      leads_bind {middle = λ u. Open s}
        (leads_if (text_eq text s.current_text) (λ same. leads_pure tt (λ v h. h))
          (λ other.
            leads_bind
              (leads_store O (record_preedit_change s.session_id s.current_text text) (λ h. cc)
                (λ id. about_same s.session_id (opened s.session_id)))
              (λ id.
                leads_active (some (record s { current_text = text }))
                  (due_open (record s { current_text = text }) e))))
        (λ u.
          leads_bind
            (leads_store O (commit_session s.session_id text daemon_commit) (λ h. cc)
              (λ id. about_same s.session_id idle))
            (λ id. leads_active (some (record s { current_text = text; finalized = true })) refl))

  when_open-leads :
      (act : ActiveSession → Action A W V T (Unit {0}))
      → ((s : ActiveSession) → s.finalized ≡ false → Leads (Open s) (act s) (λ u. Settled))
      → (s : Option ActiveSession) → Leads (Read s) (when_open O s act) (λ u. Settled)
  when_open-leads act h none = leads_pure tt (Read-Logged none idle refl)
  when_open-leads act h (some s) =
      leads_if s.finalized (λ e. leads_pure tt (Read-Logged (some s) idle (due_finalized s e)))
        (λ e. leads_from (Read-Logged (some s) (opened s.session_id) (due_open s e)) (h s e))

  pub cancel_uncommitted-leads :
      (reason : Reason) → Leads Agrees (cancel_uncommitted O reason) (λ u. Settled)
  unfolding cancel_uncommitted
  cancel_uncommitted-leads reason =
      leads_gets Read (λ d. d.active_session) (λ s. when_open O s (cancel_open O reason))
        (λ d h. (refl, h))
        (when_open-leads (cancel_open O reason) (λ s e. cancel_open-leads reason s))

  pub commit_active_session-leads :
      (text : Text) → Leads Agrees (commit_active_session O text) (λ u. Settled)
  unfolding commit_active_session
  commit_active_session-leads text =
      leads_gets Read (λ d. d.active_session) (λ s. when_open O s (λ s. commit_open O s text))
        (λ d h. (refl, h))
        (when_open-leads (λ s. commit_open O s text) (λ s e. commit_open-leads s text e))

  -- The session is created, and not the daemon's yet.
  pub persist_session-leads :
      (text : Text) → Leads Settled (persist_session O text) (λ id. Logged (opened id) idle)
  unfolding persist_session
  persist_session-leads text =
      leads_bind {middle = λ id. Logged (opened id) idle}
        (leads_store O (create_session text) (λ h. cc) (λ id. refl))
        (λ id.
          leads_bind
            (leads_store O (write_source_audio id) (λ h. cc) (λ r. about_same id (opened id)))
            (λ r.
              leads_bind
                (leads_store O (set_audio_digest id) (λ h. cc) (λ r. about_same id (opened id)))
                (λ r. leads_pure id (λ v h. h))))

  amend-leads :
      (s : ActiveSession) (text : Text)
      → s.finalized ≡ true
      → Leads Settled (amend O s text) (λ u. Settled)
  unfolding amend
  amend-leads s text e =
      let full = merge_tail_correction s.current_text s.tail_text text in
      let s' : ActiveSession = record s {
        current_text = full;
        tail_text = elim s.tail_text [ none ↦ none | some t ↦ some text ];
      } in
      leads_if (text_eq full s.current_text) (λ same. leads_pure tt (λ v h. h))
        (λ other.
          leads_bind
            (leads_store O (amend_correction s.session_id s.current_text full) (λ h. cc)
              (λ id. refl))
            (λ id.
              leads_bind (leads_active (some s') (due_finalized s' e))
                (λ u. Settled-Quiet (refresh_tray O) (refresh_tray-Quiet O))))

  amend_finalized-leads :
      (text : Text) (s : Option ActiveSession)
      → Leads (Read s) (amend_finalized O text s) (λ u. Agrees)
  unfolding amend_finalized
  amend_finalized-leads text none = leads_pure tt (λ v h. h.1)
  amend_finalized-leads text (some s) =
      leads_if s.finalized
        (λ e.
          leads_to (λ u v. Settled→Agrees v)
            (leads_from (Read-Logged (some s) idle (due_finalized s e)) (amend-leads s text e)))
        (λ e. leads_pure tt (λ v h. h.1))

  pub report_correction-leads :
      (text : Text) → Leads Agrees (report_correction O text) (λ u. Agrees)
  unfolding report_correction
  report_correction-leads text =
      leads_gets Read (λ d. d.active_session) (amend_finalized O text) (λ d h. (refl, h))
        (amend_finalized-leads text)

  persist_draft-leads : (r : Decode) → Leads Settled (persist_draft O r) (λ r. Agrees)
  unfolding persist_draft
  persist_draft-leads (Decode.failed code message) = leads_pure _ Settled→Agrees
  persist_draft-leads (decoded text) = leads_bind (persist_session-leads text) (λ id.
      leads_bind
        (leads_active
          (some
            (record { session_id = id; current_text = text; finalized = false; tail_text = none }))
          refl)
        (λ u. leads_pure (decoded text) (λ v h. (h.0 ∙ sym h.1, h.2))))

  draft_of-leads : (samples : Option (List A)) → Leads Settled (draft_of O samples) (λ r. Agrees)
  unfolding draft_of transcribe_segment
  draft_of-leads none = leads_fatal Settled→Intact
  draft_of-leads (some samples) = record {
    run = λ d h.
        (persist_draft-leads (O.transcribe d.world d.decoder samples).1).run
          (record d { decoder = (O.transcribe d.world d.decoder samples).0 }) h;
  }

  pub materialize_session-leads :
      (segment : List A) → Leads Settled (materialize_session O segment) (λ r. Agrees)
  unfolding materialize_session
  materialize_session-leads segment = draft_of-leads _
