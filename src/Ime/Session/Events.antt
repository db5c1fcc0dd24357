-- ===== src/Ime/Session/Events.antt =====
-- The public operations of session.rs as one type of events, and what holds of a session between
-- them.
use idiolect.Common.{◌≤◌, ◌≡◌, Bool, true, false, Option, none, some, List, [], ◌∷◌, length}
use idiolect.Text.{Text}
use idiolect.Ime.Review.{Key, Review}
use idiolect.Ime.Session.{
  ActivityPhase, State, Effect, set_preedit, Session, on_key, on_transcript, on_partial_transcript,
  on_reconcile, on_recording_status, on_activity, set_phase_channel_live, set_reconcile_supported,
  reset_to_idle, commit_reviewed, cancel_reviewed, on_transcript_without_target, on_focus_out,
  on_error,
}

pub data Event : Type 0 where
  key : Key → Event
  transcript : Text → Event
  partial_transcript : Text → Event
  reconcile : Text → Event
  recording_status : Bool → Event
  activity : ActivityPhase → Event
  phase_channel : Bool → Event
  reconcile_negotiated : Bool → Event
  reset : Event
  reviewed : Text → Event
  review_cancelled : Event
  transcript_without_target : Event
  focus_out : Event
  error : Event

abbrev after_key : Option (Session × Bool) → Option Session
after_key none = none
after_key (some (s, consumed)) = some s

-- One call of an operation; `none` is a panic.
unfoldable pub step : Session → Event → Option Session
step s (key k) = after_key (on_key s k)
step s (transcript t) = some (on_transcript s t)
step s (partial_transcript t) = some (on_partial_transcript s t)
step s (reconcile t) = some (on_reconcile s t)
step s (recording_status b) = some (on_recording_status s b)
step s (activity p) = some (on_activity s p)
step s (phase_channel b) = some (set_phase_channel_live s b)
step s (reconcile_negotiated b) = some (set_reconcile_supported s b)
step s reset = some (reset_to_idle s)
step s (reviewed t) = some (commit_reviewed s t)
step s review_cancelled = some (cancel_reviewed s)
step s transcript_without_target = some (on_transcript_without_target s)
step s focus_out = some (on_focus_out s)
step s error = some (on_error s)

unfoldable pub run : Session → List Event → Option Session
run s [] = some s
run s (e ∷ es) = elim (step s e) [ none ↦ none | some t ↦ run t es ]

abbrev pub is_open : Option Review → Bool
is_open none = false
is_open (some r) = true

abbrev pub is_reviewing : State → Bool
is_reviewing State.reviewing = true
is_reviewing _ = false

-- The cursor lies in the shadow copy, and an untouched copy is the committed text.
abbrev pub InText : Option Review → Type 0
InText none = Unit {0}
InText (some r) = (r.cursor ≤ length r.chars) × (r.corrected ≡ false → r.chars ≡ r.committed)

-- The text that the surface shows as preedit: that of the last `set_preedit`.
abbrev pub shown : List Effect → Text
shown [] = []
shown (set_preedit t ∷ es) = t
shown (e ∷ es) = shown es

pub record IsValid (s : Session) : Type 0 where
  pub window : is_open s.review ≡ is_reviewing s.state
  pub in_text : InText s.review
  pub mirrored : shown s.effects ≡ s.preview
