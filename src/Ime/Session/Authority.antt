-- ===== src/Ime/Session/Authority.antt =====
-- The daemon's status is the only authority over the recording phase of session.rs, and a preview
-- is shown only while a take is recorded.
use idiolect.Common.{◌≡◌, ◌≢◌, refl, Bool, true, false, some, [], arith, inl, inr, Option-cases}
use idiolect.Text.{Text, is_empty}
use idiolect.Ime.Review.{
  Review, Key, trigger, cancel, backspace, delete, left, right, home, end, char, passthrough,
}
use idiolect.Ime.Session.{
  State, Session, clear_preview, end_review, on_key_idle, on_key_recording, on_key_reviewing,
  on_key, on_transcript, on_partial_transcript, on_reconcile, on_recording_status, on_activity,
  set_phase_channel_live, set_reconcile_supported, reset_to_idle, commit_reviewed, cancel_reviewed,
  on_transcript_without_target, on_focus_out, on_error,
}
use idiolect.Ime.Session.Events.{
  Event, key, transcript, partial_transcript, reconcile, recording_status, activity, phase_channel,
  reconcile_negotiated, reset, reviewed, review_cancelled, transcript_without_target, focus_out,
  error, step,
}

-- A preview stands only in a take.
abbrev pub PreviewLive : Session → Type 0
PreviewLive s = is_empty s.preview ≡ false → s.state ≡ State.recording

-- What one operation may do to the phase and to the preview.
record Obeys (s t : Session) : Type 0 where
  phase : t.state ≡ State.recording → s.state ≡ State.recording
  live : PreviewLive s → PreviewLive t

reviewing-Obeys :
    (s : Session) (r : Review) (k : Key)
    → s.state ≡ State.reviewing
    → Obeys s (on_key_reviewing s r k).0
unfolding on_key_reviewing end_review
reviewing-Obeys s r trigger e = ground arith
reviewing-Obeys s r cancel e = ground arith
reviewing-Obeys s r backspace e = ground arith
reviewing-Obeys s r delete e = ground arith
reviewing-Obeys s r left e = ground arith
reviewing-Obeys s r right e = ground arith
reviewing-Obeys s r home e = ground arith
reviewing-Obeys s r end e = ground arith
reviewing-Obeys s r (char c) e = ground arith
reviewing-Obeys s r passthrough e = ground arith

idle-Obeys : (s : Session) (k : Key) → Obeys s (on_key_idle s k).0
unfolding on_key_idle
idle-Obeys s trigger = ground arith
idle-Obeys s _ = ground arith

recording-Obeys : (s : Session) (k : Key) → Obeys s (on_key_recording s k).0
unfolding on_key_recording clear_preview
recording-Obeys s trigger = ground arith
recording-Obeys s cancel = ground arith
recording-Obeys s _ = ground arith

key-Obeys :
    (st : State) (s t : Session) (k : Key) → s.state ≡ st → step s (key k) ≡ some t → Obeys s t
unfolding step on_key
key-Obeys State.idle s t k e h = ground (arith, idle-Obeys s k)
key-Obeys State.recording s t k e h = ground (arith, recording-Obeys s k)
key-Obeys State.reviewing s t k e h = elim (Option-cases s.review) [
  | inl o ↦ absurd (ground arith)
  | inr (r, o) ↦ ground (arith, reviewing-Obeys s r k e)
]

transcript-Obeys : (s : Session) (t : Text) → Obeys s (on_transcript s t)
unfolding on_transcript clear_preview end_review
transcript-Obeys s t = ground arith

reconcile-Obeys : (s : Session) (t : Text) → Obeys s (on_reconcile s t)
unfolding on_reconcile clear_preview end_review
reconcile-Obeys s t = ground arith

partial-Obeys : (s : Session) (t : Text) → Obeys s (on_partial_transcript s t)
unfolding on_partial_transcript
partial-Obeys s t = ground arith

stopped-Obeys : (s : Session) → Obeys s (on_recording_status s false)
unfolding on_recording_status clear_preview
stopped-Obeys s = ground arith

abandon-Obeys :
    (s : Session)
    → Obeys s (reset_to_idle s)
      × Obeys s (on_error s)
      × Obeys s (on_transcript_without_target s)
      × Obeys s (on_focus_out s)
unfolding reset_to_idle on_error on_transcript_without_target on_focus_out clear_preview end_review
abandon-Obeys s = (ground arith, ground arith, ground arith, ground arith)

-- A new recording starts only when the daemon says so: the one operation that can lead from another
-- state to `Recording` is the status `true`.
pub recording_needs_status :
    (s t : Session) (e : Event)
    → step s e ≡ some t
    → s.state ≢ State.recording
    → t.state ≡ State.recording
    → e ≡ recording_status true
unfolding step commit_reviewed cancel_reviewed on_activity set_phase_channel_live
    set_reconcile_supported
recording_needs_status s t (key k) h n r = absurd (n ((key-Obeys s.state s t k refl h).phase r))
recording_needs_status s t (transcript x) h n r = ground (arith, transcript-Obeys s x)
recording_needs_status s t (partial_transcript x) h n r = ground (arith, partial-Obeys s x)
recording_needs_status s t (reconcile x) h n r = ground (arith, reconcile-Obeys s x)
recording_needs_status s t (recording_status true) h n r = refl
recording_needs_status s t (recording_status false) h n r = ground (arith, stopped-Obeys s)
recording_needs_status s t (activity p) h n r = ground arith
recording_needs_status s t (phase_channel b) h n r = ground arith
recording_needs_status s t (reconcile_negotiated b) h n r = ground arith
recording_needs_status s t reset h n r = ground (arith, abandon-Obeys s)
recording_needs_status s t (reviewed x) h n r = ground arith
recording_needs_status s t review_cancelled h n r = ground arith
recording_needs_status s t transcript_without_target h n r = ground (arith, abandon-Obeys s)
recording_needs_status s t focus_out h n r = ground (arith, abandon-Obeys s)
recording_needs_status s t error h n r = ground (arith, abandon-Obeys s)

-- The two results of the review dialog, which leave the preview alone.
abbrev pub is_review_result : Event → Bool
is_review_result (reviewed x) = true
is_review_result review_cancelled = true
is_review_result _ = false

started-live : (s : Session) → PreviewLive s → PreviewLive (on_recording_status s true)
unfolding on_recording_status clear_preview end_review
started-live s p = ground arith

-- A preview stands only while a take is recorded: every operation keeps that, but for a result of
-- the review dialog, which has to find no preview standing.
pub step-PreviewLive :
    (s t : Session) (e : Event)
    → step s e ≡ some t
    → (is_review_result e ≡ true → s.preview ≡ [])
    → PreviewLive s
    → PreviewLive t
unfolding step commit_reviewed cancel_reviewed on_activity set_phase_channel_live
    set_reconcile_supported
step-PreviewLive s t (key k) h r p = (key-Obeys s.state s t k refl h).live p
step-PreviewLive s t (transcript x) h r p = ground (arith, (transcript-Obeys s x).live p)
step-PreviewLive s t (partial_transcript x) h r p = ground (arith, (partial-Obeys s x).live p)
step-PreviewLive s t (reconcile x) h r p = ground (arith, (reconcile-Obeys s x).live p)
step-PreviewLive s t (recording_status true) h r p = ground (arith, started-live s p)
step-PreviewLive s t (recording_status false) h r p = ground (arith, (stopped-Obeys s).live p)
step-PreviewLive s t (activity x) h r p = ground arith
step-PreviewLive s t (phase_channel b) h r p = ground arith
step-PreviewLive s t (reconcile_negotiated b) h r p = ground arith
step-PreviewLive s t reset h r p = ground (arith, (abandon-Obeys s).0.live p)
step-PreviewLive s t (reviewed x) h r p = ground arith
step-PreviewLive s t review_cancelled h r p = ground arith
step-PreviewLive s t transcript_without_target h r p = ground (arith, (abandon-Obeys s).2.live p)
step-PreviewLive s t focus_out h r p = ground (arith, (abandon-Obeys s).3.live p)
step-PreviewLive s t error h r p = ground (arith, (abandon-Obeys s).1.live p)
