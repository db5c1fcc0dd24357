-- ===== src/Domain/Examples.antt =====
-- The domain session's theorems at concrete calls.
use idiolect.Common.{some, List, [], ◌∷◌, ◌++◌}
use idiolect.Text.{Text}
use idiolect.Domain.{ImeSession, committed, new_for_test}
use idiolect.Domain.Outcomes.{
  Action, start_recording, start_transcription, start_preedit, ask_commit, ask_cancel, run, IsValid,
  Kept, run-IsValid,
}

abbrev hello : Text
hello = b'h' ∷ b'i' ∷ []

abbrev dictation : List Action
dictation =
    start_recording ∷ start_transcription ∷ start_preedit hello ∷ ask_commit hello ∷ ask_cancel ∷ []

abbrev committed_session : ImeSession
committed_session = record {
  state = committed;
  raw_stt_text = some hello;
  committed_text = some hello;
}

run-IsValid_example :
    IsValid (run new_for_test dictation)
    × Kept
        (run new_for_test dictation).raw_stt_text
        (run new_for_test (dictation ++ ask_cancel ∷ [])).raw_stt_text
    × Kept
        (run new_for_test dictation).committed_text
        (run new_for_test (dictation ++ ask_cancel ∷ [])).committed_text
run-IsValid_example = run-IsValid dictation (ask_cancel ∷ [])
