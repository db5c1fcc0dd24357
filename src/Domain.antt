-- ===== src/Domain.antt =====
-- crates/idiolect-core/src/domain/session.rs: the life of one dictation session.
pub mod Outcomes
mod Examples
use idiolect.Common.{Option, none, some, Bool, true, false, if◌then◌else◌, ◌⊎◌, inl, inr}
use idiolect.Text.{Text, text_eq}

pub data ImeSessionState : Type 0 where
  created recording transcribing preedit_active committed cancelled abandoned : ImeSessionState

pub record ImeSession : Type 0 where
  pub state : ImeSessionState
  pub raw_stt_text : Option Text
  pub committed_text : Option Text

-- The action's name is always "commit".
pub data SessionTransitionError : Type 0 where
  already_committed already_cancelled : SessionTransitionError
  invalid_transition : ImeSessionState → SessionTransitionError

unfoldable pub new_for_test : ImeSession
new_for_test = record { state = created; raw_stt_text = none; committed_text = none }

started_from : ImeSessionState → ImeSessionState
started_from created = recording
started_from s = s

unfoldable pub recording_started : ImeSession → ImeSession
unfolding started_from
recording_started s = record s { state = started_from s.state }

transcribing_from : ImeSessionState → ImeSessionState
transcribing_from recording = transcribing
transcribing_from s = s

unfoldable pub transcription_started : ImeSession → ImeSession
unfolding transcribing_from
transcription_started s = record s { state = transcribing_from s.state }

preedit_from : ImeSessionState → ImeSession → Text → ImeSession
preedit_from transcribing s raw = record s { state = preedit_active; raw_stt_text = some raw }
preedit_from _ s raw = s

unfoldable pub preedit_started : ImeSession → Text → ImeSession
unfolding preedit_from
preedit_started s raw = preedit_from s.state s raw

committed_from : ImeSessionState → ImeSession → Text → ImeSession
committed_from preedit_active s text = record s { state = committed; committed_text = some text }
committed_from _ s text = s

-- The method `committed`.
unfoldable pub commit : ImeSession → Text → ImeSession
unfolding committed_from
commit s text = committed_from s.state s text

-- `Option<&str>` compared with a text.
is_text : Option Text → Text → Bool
is_text none t = false
is_text (some s) t = text_eq s t

commit_from : ImeSessionState → ImeSession → Text → ImeSession ⊎ SessionTransitionError
commit_from preedit_active s text = inl (record s { state = committed; committed_text = some text })
commit_from committed s text =
    if is_text s.committed_text text then inl s else inr (invalid_transition committed)
commit_from cancelled s text = inr already_cancelled
commit_from abandoned s text = inr already_cancelled
commit_from created s text = inr (invalid_transition created)
commit_from recording s text = inr (invalid_transition recording)
commit_from transcribing s text = inr (invalid_transition transcribing)

unfoldable pub try_commit : ImeSession → Text → ImeSession ⊎ SessionTransitionError
unfolding commit_from is_text
try_commit s text = commit_from s.state s text

cancel_from : ImeSessionState → ImeSession → ImeSession ⊎ SessionTransitionError
cancel_from committed s = inr already_committed
cancel_from cancelled s = inl s
cancel_from abandoned s = inl s
cancel_from _ s = inl (record s { state = cancelled })

unfoldable pub try_cancel : ImeSession → ImeSession ⊎ SessionTransitionError
unfolding cancel_from
try_cancel s = cancel_from s.state s
