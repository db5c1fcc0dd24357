-- ===== src/Ime/Session/Corrections.antt =====
-- What session.rs reports to the daemon as corrections.
use idiolect.Common.{
  ◌≡◌, ◌≢◌, refl, Bool, true, false, Option, none, some, List, [], ◌∷◌, arith, inl, inr,
  Option-cases,
}
use idiolect.Text.{Text, text_eq, text_eq_refl}
use idiolect.Ime.Review.{
  Review, Key, trigger, cancel, backspace, delete, left, right, home, end, char, passthrough,
}
use idiolect.Ime.Review
use idiolect.Ime.Session.{
  State, Effect, commit_text, report_correction, Session, new, clear_preview, end_review,
  on_key_idle, on_key_recording, on_key_reviewing, on_key, on_transcript, on_partial_transcript,
  on_reconcile, on_recording_status, on_activity, set_phase_channel_live, set_reconcile_supported,
  reset_to_idle, commit_reviewed, cancel_reviewed, on_transcript_without_target, on_focus_out,
  on_error,
}
use idiolect.Ime.Session.Events.{
  Event, key, transcript, partial_transcript, reconcile, recording_status, activity, phase_channel,
  reconcile_negotiated, reset, reviewed, review_cancelled, transcript_without_target, focus_out,
  error, step, run,
}

-- The text last typed into the application.
abbrev pub last_typed : List Effect → Text
last_typed [] = []
last_typed (commit_text t ∷ es) = t
last_typed (e ∷ es) = last_typed es

-- Every correction reported differs from the text that was typed last before it.
abbrev pub RealCorrections : List Effect → Type 0
RealCorrections [] = Unit {0}
RealCorrections (report_correction t ∷ es) = (t ≢ last_typed es) × RealCorrections es
RealCorrections (e ∷ es) = RealCorrections es

abbrev Of : Option Review → Text → Type 0
Of none t = Unit {0}
Of (some r) t = r.committed ≡ t

record Honest (s : Session) : Type 0 where
  of_last : Of s.review (last_typed s.effects)
  real : RealCorrections s.effects
  shut : s.state ≢ State.reviewing → s.review ≡ none

not_text_eq : (s t : Text) → text_eq s t ≡ false → s ≢ t
not_text_eq s t h e = cc (text_eq_refl t, h, e)

end_review-Honest : (s : Session) → Honest s → Honest (end_review s)
unfolding end_review
end_review-Honest s h = elim (Option-cases s.review) [
  | inl o ↦ ground arith
  | inr (r, o) ↦ ground (arith, not_text_eq r.chars r.committed)
]

end_review_fields :
    (s : Session) → ((end_review s).review ≡ none) × ((end_review s).state ≡ State.idle)
unfolding end_review
end_review_fields s = (ground arith, ground arith)

clear_preview-Honest : (s : Session) → Honest s → Honest (clear_preview s)
unfolding clear_preview
clear_preview-Honest s h = ground arith

reviewing-Honest :
    (s : Session) (r : Review) (k : Key)
    → s.review ≡ some r
    → Honest s
    → Honest (on_key_reviewing s r k).0
unfolding on_key_reviewing
reviewing-Honest s r trigger e h = ground (arith, end_review-Honest s, end_review_fields s)
reviewing-Honest s r cancel e h = ground (arith, end_review-Honest s, end_review_fields s)
reviewing-Honest s r backspace e h = ground arith
reviewing-Honest s r delete e h = ground arith
reviewing-Honest s r left e h = ground arith
reviewing-Honest s r right e h = ground arith
reviewing-Honest s r home e h = ground arith
reviewing-Honest s r end e h = ground arith
reviewing-Honest s r (char c) e h = ground (arith, end_review-Honest s, end_review_fields s)
reviewing-Honest s r passthrough e h = ground (arith, end_review-Honest s, end_review_fields s)

idle-Honest : (s : Session) (k : Key) → Honest s → Honest (on_key_idle s k).0
unfolding on_key_idle
idle-Honest s trigger h = ground arith
idle-Honest s _ h = h

recording-Honest :
    (s : Session) (k : Key) → s.state ≡ State.recording → Honest s → Honest (on_key_recording s k).0
unfolding on_key_recording clear_preview
recording-Honest s trigger e h = ground arith
recording-Honest s cancel e h = ground arith
recording-Honest s _ e h = h

key-Honest :
    (st : State) (s t : Session) (k : Key)
    → s.state ≡ st
    → step s (key k) ≡ some t
    → Honest s
    → Honest t
unfolding step on_key
key-Honest State.idle s t k e q h = ground (arith, idle-Honest s k)
key-Honest State.recording s t k e q h = ground (arith, recording-Honest s k)
key-Honest State.reviewing s t k e q h = elim (Option-cases s.review) [
  | inl o ↦ absurd (ground arith)
  | inr (r, o) ↦ ground (arith, reviewing-Honest s r k o)
]

transcript-Honest : (s : Session) (t : Text) → Honest s → Honest (on_transcript s t)
unfolding on_transcript clear_preview Review.new
transcript-Honest s t h = ground (arith, end_review-Honest s, end_review_fields s)

reconcile-Honest : (s : Session) (t : Text) → Honest s → Honest (on_reconcile s t)
unfolding on_reconcile clear_preview Review.new
reconcile-Honest s t h = ground (arith, end_review-Honest s, end_review_fields s)

partial-Honest : (s : Session) (t : Text) → Honest s → Honest (on_partial_transcript s t)
unfolding on_partial_transcript
partial-Honest s t h = ground arith

status-Honest : (s : Session) (b : Bool) → Honest s → Honest (on_recording_status s b)
unfolding on_recording_status clear_preview end_review
status-Honest s true h = elim (Option-cases s.review) [
  | inl o ↦ ground arith
  | inr (r, o) ↦ ground (arith, not_text_eq r.chars r.committed)
]
status-Honest s false h = ground arith

abandon-Honest :
    (s : Session) (t : Text)
    → Honest s
    → Honest (reset_to_idle s)
      × Honest (on_error s)
      × Honest (on_transcript_without_target s)
      × Honest (commit_reviewed s t)
      × Honest (cancel_reviewed s)
unfolding reset_to_idle on_error on_transcript_without_target commit_reviewed cancel_reviewed
    clear_preview
abandon-Honest s t h = (ground arith, ground arith, ground arith, ground arith, ground arith)

focus-Honest : (s : Session) → Honest s → Honest (on_focus_out s)
unfolding on_focus_out
focus-Honest s h = ground (arith, end_review-Honest s)

step-Honest : (s t : Session) (e : Event) → step s e ≡ some t → Honest s → Honest t
unfolding step on_activity set_phase_channel_live set_reconcile_supported
step-Honest s t (key k) q h = key-Honest s.state s t k refl q h
step-Honest s t (transcript x) q h = ground (arith, transcript-Honest s x)
step-Honest s t (partial_transcript x) q h = ground (arith, partial-Honest s x)
step-Honest s t (reconcile x) q h = ground (arith, reconcile-Honest s x)
step-Honest s t (recording_status b) q h = ground (arith, status-Honest s b)
step-Honest s t (activity p) q h = ground arith
step-Honest s t (phase_channel b) q h = ground arith
step-Honest s t (reconcile_negotiated b) q h = ground arith
step-Honest s t reset q h = ground (arith, (abandon-Honest s [] h).0)
step-Honest s t (reviewed x) q h = ground (arith, (abandon-Honest s x h).3)
step-Honest s t review_cancelled q h = ground (arith, (abandon-Honest s [] h).4)
step-Honest s t transcript_without_target q h = ground (arith, (abandon-Honest s [] h).2)
step-Honest s t focus_out q h = ground (arith, focus-Honest s)
step-Honest s t error q h = ground (arith, (abandon-Honest s [] h).1)

run-Honest : (es : List Event) (s t : Session) → run s es ≡ some t → Honest s → Honest t
unfolding run
run-Honest [] s t q h = ground arith
run-Honest (e ∷ es) s t q h = elim (Option-cases (step s e)) [
  | inl o ↦ absurd (ground arith)
  | inr (u, o) ↦ run-Honest es u t (ground arith) (step-Honest s u e o h)
]

-- In every history of a session, whatever the keys, messages and focus changes, each correction
-- reported to the daemon differs from the text typed last before it.
pub run-RealCorrections :
    (es : List Event) (t : Session) → run new es ≡ some t → RealCorrections t.effects
unfolding new
run-RealCorrections es t q =
    (run-Honest es new t q (record { of_last = tt; real = tt; shut = λ n. refl })).real
