-- ===== src/Daemon/Sessions.antt =====
-- The dictation sessions of run_loop.rs: how they are created, committed, cancelled and amended.
use idiolect.Common.{ℕ, true, false, Option, none, some, List, ◌∷◌, if◌then◌else◌}
use idiolect.Text.{Text, text_eq}
use idiolect.Streaming.Decisions.{merge_tail_correction}
use idiolect.Streaming.Take.{decoded, failed, Decode}
use idiolect.Daemon.{
  fatal, ok, Outcome, Reason, daemon_commit, StoreCall, create_session, write_source_audio,
  set_audio_digest, record_preedit_change, commit_session, cancel_session, amend_correction,
  answered, ActiveSession, Outside, Action, ◌>>=◌, ◌>>◌, gets, modify, pure, fail,
}
use idiolect.Daemon.Status.{refresh_tray}

module _ {A W V T : Type 0} where
  unfoldable pub set_active : Option ActiveSession → Action A W V T (Unit {0})
  set_active s = modify λ d. record d { active_session = s }

module _ {A W V T : Type 0} (O : Outside A W V T) where
  unfoldable pub recorded : StoreCall → W × Option ℕ → Action A W V T ℕ
  recorded call (w, none) d = (record d { world = w }, Outcome.failed fatal)
  recorded call (w, some id) d =
      (record d { world = w; stored = answered call id ∷ d.stored }, ok id)

  -- A call on the store: its answer, or the storage error, which is no disconnect.
  unfoldable pub store : StoreCall → Action A W V T ℕ
  unfolding recorded
  store call d = recorded call (O.call_store d.world call) d

  unfoldable pub commit_open : ActiveSession → Text → Action A W V T (Unit {0})
  commit_open s text = do
    (if text_eq text s.current_text then pure tt else (do
      store (record_preedit_change s.session_id s.current_text text)
      set_active (some (record s { current_text = text }))))
    store (commit_session s.session_id text daemon_commit)
    set_active (some (record s { current_text = text; finalized = true }))

  abbrev pub when_open :
      Option ActiveSession → (ActiveSession → Action A W V T (Unit {0})) → Action A W V T (Unit {0})
  when_open none act = pure tt
  when_open (some s) act = if s.finalized then pure tt else act s

  unfoldable pub commit_active_session : Text → Action A W V T (Unit {0})
  unfolding commit_open
  commit_active_session text = do
    active ← gets λ d. d.active_session
    when_open active λ s. commit_open s text

  unfoldable pub cancel_open : Reason → ActiveSession → Action A W V T (Unit {0})
  cancel_open reason s = do
    store (cancel_session s.session_id reason)
    set_active (some (record s { finalized = true }))

  unfoldable pub cancel_uncommitted : Reason → Action A W V T (Unit {0})
  unfolding cancel_open
  cancel_uncommitted reason = do
    active ← gets λ d. d.active_session
    when_open active (cancel_open reason)

  -- The audio written is the encoded segment, and the digest that of its payload.
  unfoldable pub persist_session : Text → Action A W V T ℕ
  persist_session text = do
    id ← store (create_session text)
    store (write_source_audio id)
    store (set_audio_digest id)
    pure id

  -- The `ReportCorrection` arm, for the active session.
  unfoldable pub amend : ActiveSession → Text → Action A W V T (Unit {0})
  amend s corrected_text =
      let corrected_full = merge_tail_correction s.current_text s.tail_text corrected_text in
      if text_eq corrected_full s.current_text then pure tt else (do
        store (amend_correction s.session_id s.current_text corrected_full)
        set_active (
            some (record s {
              current_text = corrected_full;
              tail_text = elim s.tail_text [ none ↦ none | some t ↦ some corrected_text ];
            }))
        refresh_tray O)

  unfoldable pub amend_finalized : Text → Option ActiveSession → Action A W V T (Unit {0})
  amend_finalized corrected_text none = pure tt
  amend_finalized corrected_text (some s) = if s.finalized then amend s corrected_text else pure tt

  unfoldable pub report_correction : Text → Action A W V T (Unit {0})
  unfolding amend amend_finalized
  report_correction corrected_text = do
    active ← gets λ d. d.active_session
    amend_finalized corrected_text active

  -- A transcription of a whole segment: its text, or the error for the client.
  unfoldable pub transcribe_segment : List A → Action A W V T Decode
  transcribe_segment samples d =
      let (t, r) = O.transcribe d.world d.decoder samples in (record d { decoder = t }, ok r)

  unfoldable pub persist_draft : Decode → Action A W V T Decode
  persist_draft (failed code message) = pure (failed code message)
  persist_draft (decoded text) = do
    id ← persist_session text
    set_active (
        some (record { session_id = id; current_text = text; finalized = false; tail_text = none }))
    pure (decoded text)

  unfoldable pub draft_of : Option (List A) → Action A W V T Decode
  unfolding persist_draft
  draft_of none = fail fatal
  draft_of (some samples) = do draft ← transcribe_segment samples; persist_draft draft

  -- `materialize_session`; the session that it starts becomes the active one, as every caller does.
  unfoldable pub materialize_session : List A → Action A W V T Decode
  unfolding draft_of
  materialize_session segment =
      draft_of (if O.encodes segment then O.decoded_again segment else none)
