-- ===== src/Ime/Examples.antt =====
-- Runs of session.rs: each theorem about the session at a concrete dictation.
use idiolect.Common.{◌≡◌, ◌++◌, refl, true, false, none, some, [], ◌∷◌, List, map}
use idiolect.Text.{Text, text_eq}
use idiolect.Ime.Review
use idiolect.Ime.Review.{left, home, end, passthrough, char, trigger, Review}
use idiolect.Ime.Session.{
  ActivityPhase, State, Session, new, on_key_reviewing, commit_text, commit, report_correction,
  on_key, on_transcript, on_recording_status, on_focus_out, end_review, clear_preview,
}
use idiolect.Ime.Session.Events.{
  key, transcript, partial_transcript, reconcile, recording_status, focus_out, Event, step, run,
  IsValid, shown,
}
use idiolect.Ime.Session.Takes.{document, finalized, streamed_take}
use idiolect.Ime.Session.Editing.{Represents, edit, on_key_reviewing-edit}
use idiolect.Ime.Session.Typing.{typed, typing_on}
use idiolect.Ime.Session.Corrections.{RealCorrections, run-RealCorrections}

abbrev hello : Text
hello = b'h' ∷ b'i' ∷ []

abbrev recording_session : Session
recording_session = record {
  state = State.recording;
  review = none;
  recording = true;
  activity = ActivityPhase.recording;
  phase_channel_live = true;
  preview = [];
  reconcile_supported = true;
  effects = [];
}

abbrev plain_session : Session
plain_session = record recording_session { reconcile_supported = false }

abbrev partials : List Text
partials = (b'h' ∷ []) ∷ (b'o' ∷ []) ∷ []

abbrev reviewed_text : Review
reviewed_text = record { committed = hello; chars = hello; cursor = 2; corrected = false }

abbrev moved_text : Review
moved_text = record { committed = hello; chars = hello; cursor = 1; corrected = false }

abbrev dictation : List Event
dictation = recording_status true ∷ transcript hello ∷ key left ∷ key (char b'e') ∷ focus_out ∷ []

recording_session-IsValid : IsValid recording_session
recording_session-IsValid = record { window = refl; in_text = tt; mirrored = refl }

plain_session-IsValid : IsValid plain_session
plain_session-IsValid = record { window = refl; in_text = tt; mirrored = refl }

streamed_take_example :
    (u : Session) × (run recording_session
        (map partial_transcript partials ++ reconcile hello ∷ recording_status false ∷ [])
      ≡ some u)
    × (document u.effects ≡ [] ++ hello)
    × (finalized u.effects ≡ [])
    × (shown u.effects ≡ [])
    × (u.state ≡ State.reviewing)
streamed_take_example =
    streamed_take recording_session partials hello recording_session-IsValid refl refl refl

-- "hei", typed over the dictated "hi".
abbrev after_dictation : Session
after_dictation = record {
  state = State.idle;
  review = none;
  recording = true;
  activity = ActivityPhase.recording;
  phase_channel_live = true;
  preview = [];
  reconcile_supported = false;
  effects = report_correction (b'h' ∷ b'e' ∷ b'i' ∷ []) ∷ commit hello ∷ commit_text hello ∷ [];
}

run-dictation : run new dictation ≡ some after_dictation
unfolding run step new on_key on_transcript on_recording_status on_focus_out on_key_reviewing
    end_review clear_preview text_eq Review.new Review.text Review.insert
run-dictation = refl

run-RealCorrections_example : RealCorrections after_dictation.effects
run-RealCorrections_example = run-RealCorrections dictation after_dictation run-dictation

typing_on_example :
    (u : Session) × (run recording_session (
        transcript hello ∷ map key (left ∷ home ∷ [])
        ++ (key end ∷ typed (b'!' ∷ b'!' ∷ []) ++ key passthrough ∷ []))
      ≡ some u)
    × (u.effects ≡ (on_transcript recording_session hello).effects)
    × (u.review ≡ none)
    × (u.state ≡ State.idle)
typing_on_example =
    typing_on recording_session hello (left ∷ home ∷ []) (b'!' ∷ b'!' ∷ []) refl refl (tt, (tt, tt))

abbrev reviewing_session : Session
reviewing_session = record recording_session {
  state = State.reviewing;
  review = some reviewed_text;
  recording = false;
}

reviewed_line : Represents reviewed_text (b'i' ∷ b'h' ∷ []) []
reviewed_line = (refl, refl)

move_left : (on_key_reviewing reviewing_session reviewed_text left).0.review ≡ some moved_text
unfolding on_key_reviewing
move_left = refl

on_key_reviewing-edit_example :
    Represents moved_text
      (edit (b'i' ∷ b'h' ∷ []) [] left).before
      (edit (b'i' ∷ b'h' ∷ []) [] left).behind
on_key_reviewing-edit_example =
    on_key_reviewing-edit reviewing_session reviewed_text moved_text left (b'i' ∷ b'h' ∷ []) [] refl
      reviewed_line move_left

abbrev idle_session : Session
idle_session = record recording_session {
  state = State.idle;
  recording = false;
  activity = ActivityPhase.idle;
}

start_recording : step idle_session (recording_status true) ≡ some recording_session
unfolding step on_recording_status
start_recording = refl
