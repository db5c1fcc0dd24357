-- ===== src/Ime/Session/Invariant.antt =====
-- No operation of session.rs breaks the invariant, and no key panics.
use idiolect.Common.{
  ℕ, suc, ◌+◌, ◌-◌, ◌≤◌, ◌<◌, ◌≡◌, refl, Bool, Option, none, some, List, [], ◌∷◌, arith, length,
  take, drop, length-append, length-take, length-drop,
}
use idiolect.Text.{Text}
use idiolect.Ime.Review.{
  Key, trigger, cancel, backspace, delete, left, right, home, end, char, passthrough, Review,
  remove, insert,
}
use idiolect.Ime.Session.{
  State, Session, clear_preview, end_review, on_key_idle, on_key_recording, on_key_reviewing,
  on_key, on_transcript, on_partial_transcript, on_reconcile, on_recording_status, on_activity,
  set_phase_channel_live, set_reconcile_supported, reset_to_idle, commit_reviewed, cancel_reviewed,
  on_transcript_without_target, on_focus_out, on_error,
}
use idiolect.Ime.Session.Events.{
  Event, key, transcript, partial_transcript, reconcile, recording_status, activity, phase_channel,
  reconcile_negotiated, reset, reviewed, review_cancelled, transcript_without_target, focus_out,
  error, step, IsValid,
}

length-remove : (xs : List ℕ) (i : ℕ) → i < length xs → length (remove xs i) + 1 ≡ length xs
unfolding remove
length-remove xs i h =
    omega
      (arith, length-append (take i xs) (drop (suc i) xs), length-take i xs, length-drop (suc i) xs)

length-insert : (xs : List ℕ) (i c : ℕ) → i ≤ length xs → length (insert xs i c) ≡ length xs + 1
unfolding insert
length-insert xs i c h =
    omega (arith, length-append (take i xs) (c ∷ drop i xs), length-take i xs, length-drop i xs)

on_key_reviewing-IsValid :
    (s : Session) (r : Review) (k : Key)
    → s.review ≡ some r
    → IsValid s
    → IsValid (on_key_reviewing s r k).0
unfolding on_key_reviewing end_review
on_key_reviewing-IsValid s r left e v = ground arith
on_key_reviewing-IsValid s r right e v = ground arith
on_key_reviewing-IsValid s r home e v = ground arith
on_key_reviewing-IsValid s r end e v = ground arith
on_key_reviewing-IsValid s r backspace e v = ground (arith, length-remove r.chars (r.cursor - 1))
on_key_reviewing-IsValid s r delete e v = ground (arith, length-remove r.chars r.cursor)
on_key_reviewing-IsValid s r (char c) e v =
    ground (arith, length-insert r.chars r.cursor c, length-append r.chars (c ∷ []))
on_key_reviewing-IsValid s r trigger e v = ground arith
on_key_reviewing-IsValid s r cancel e v = ground arith
on_key_reviewing-IsValid s r passthrough e v = ground arith

on_key_idle-IsValid : (s : Session) (k : Key) → IsValid s → IsValid (on_key_idle s k).0
unfolding on_key_idle
on_key_idle-IsValid s trigger v = ground arith
on_key_idle-IsValid s _ v = v

on_key_recording-IsValid :
    (s : Session) (k : Key)
    → s.state ≡ State.recording
    → IsValid s
    → IsValid (on_key_recording s k).0
unfolding on_key_recording clear_preview
on_key_recording-IsValid s trigger e v = ground arith
on_key_recording-IsValid s cancel e v = ground arith
on_key_recording-IsValid s _ e v = v

abbrev Total : Option (Session × Bool) → Type 0
Total o = (t : Session × Bool) × (o ≡ some t) × IsValid t.0

reviewing-Total :
    (s : Session) (k : Key) (o : Option Review)
    → s.review ≡ o
    → s.state ≡ State.reviewing
    → IsValid s
    → Total (on_key s k)
unfolding on_key
reviewing-Total s k none e st v = absurd (ground arith)
reviewing-Total s k (some r) e st v =
    (on_key_reviewing s r k, ground arith, on_key_reviewing-IsValid s r k e v)

state-Total : (st : State) (s : Session) (k : Key) → s.state ≡ st → IsValid s → Total (on_key s k)
unfolding on_key
state-Total State.idle s k e v = (on_key_idle s k, ground arith, on_key_idle-IsValid s k v)
state-Total State.recording s k e v =
    (on_key_recording s k, ground arith, on_key_recording-IsValid s k e v)
state-Total State.reviewing s k e v = reviewing-Total s k s.review refl e v

on_transcript-IsValid : (s : Session) (t : Text) → IsValid s → IsValid (on_transcript s t)
unfolding on_transcript clear_preview end_review
on_transcript-IsValid s t v = ground arith

on_reconcile-IsValid : (s : Session) (t : Text) → IsValid s → IsValid (on_reconcile s t)
unfolding on_reconcile clear_preview end_review
on_reconcile-IsValid s t v = ground arith

on_partial_transcript-IsValid :
    (s : Session) (t : Text) → IsValid s → IsValid (on_partial_transcript s t)
unfolding on_partial_transcript
on_partial_transcript-IsValid s t v = ground arith

on_recording_status-IsValid :
    (s : Session) (b : Bool) → IsValid s → IsValid (on_recording_status s b)
unfolding on_recording_status clear_preview end_review
on_recording_status-IsValid s b v = ground arith

other-IsValid :
    (s : Session) (t : Text)
    → IsValid s
    → IsValid (reset_to_idle s)
      × IsValid (commit_reviewed s t)
      × IsValid (cancel_reviewed s)
      × IsValid (on_error s)
unfolding reset_to_idle commit_reviewed cancel_reviewed on_error clear_preview
other-IsValid s t v = (ground arith, ground arith, ground arith, ground arith)

focus-IsValid :
    (s : Session) → IsValid s → IsValid (on_transcript_without_target s) × IsValid (on_focus_out s)
unfolding on_transcript_without_target on_focus_out clear_preview end_review
focus-IsValid s v = (ground arith, ground arith)

abbrev pub Steps : Option Session → Type 0
Steps o = (t : Session) × (o ≡ some t) × IsValid t

key-Steps : (s : Session) (k : Key) → IsValid s → Steps (step s (key k))
unfolding step
key-Steps s k v = let (t, e, w) = state-Total s.state s k refl v in (t.0, rw e refl, w)

-- Every operation, in every valid session, returns without a panic and leaves a valid session: a
-- correction window is open exactly in `Reviewing`, its cursor lies in its text, and the surface
-- shows exactly the preview that the session holds.
pub step_total : (s : Session) (e : Event) → IsValid s → Steps (step s e)
unfolding step on_activity set_phase_channel_live set_reconcile_supported
step_total s (key k) v = key-Steps s k v
step_total s (transcript t) v = (on_transcript s t, refl, on_transcript-IsValid s t v)
step_total s (partial_transcript t) v =
    (on_partial_transcript s t, refl, on_partial_transcript-IsValid s t v)
step_total s (reconcile t) v = (on_reconcile s t, refl, on_reconcile-IsValid s t v)
step_total s (recording_status b) v =
    (on_recording_status s b, refl, on_recording_status-IsValid s b v)
step_total s (activity p) v = (on_activity s p, refl, ground arith)
step_total s (phase_channel b) v = (set_phase_channel_live s b, refl, ground arith)
step_total s (reconcile_negotiated b) v = (set_reconcile_supported s b, refl, ground arith)
step_total s reset v = (reset_to_idle s, refl, (other-IsValid s [] v).0)
step_total s (reviewed t) v = (commit_reviewed s t, refl, (other-IsValid s t v).1)
step_total s review_cancelled v = (cancel_reviewed s, refl, (other-IsValid s [] v).2)
step_total s transcript_without_target v =
    (on_transcript_without_target s, refl, (focus-IsValid s v).0)
step_total s focus_out v = (on_focus_out s, refl, (focus-IsValid s v).1)
step_total s error v = (on_error s, refl, (other-IsValid s [] v).3)
