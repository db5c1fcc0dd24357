-- ===== src/Domain/Outcomes.antt =====
-- How the session of session.rs may end, over every sequence of its methods.
use mathlib.Core.Path.{subst}
use idiolect.Common.{
  ◌≡◌, refl, Bool, true, false, Option, none, some, List, [], ◌∷◌, ◌⊎◌, inl, inr, Bool-cases, ap,
  sym, ◌∙◌, ◌++◌,
}
use idiolect.Text.{Text, text_eq, text_eq_refl}
use idiolect.Domain.{
  ImeSessionState, created, recording, transcribing, preedit_active, committed, cancelled,
  abandoned, ImeSession, SessionTransitionError, already_committed, invalid_transition,
  new_for_test, recording_started, transcription_started, preedit_started, commit, commit_from,
  committed_from, preedit_from, transcribing_from, started_from, cancel_from, is_text, try_commit,
  try_cancel,
}

-- One call of a method.
pub data Action : Type 0 where
  start_recording start_transcription ask_cancel : Action
  start_preedit commit_quietly ask_commit : Text → Action

-- An error leaves the caller with the session it had.
abbrev pub result_or : ImeSession → ImeSession ⊎ SessionTransitionError → ImeSession
result_or s (inl s') = s'
result_or s (inr e) = s

abbrev pub act : ImeSession → Action → ImeSession
act s start_recording = recording_started s
act s start_transcription = transcription_started s
act s ask_cancel = result_or s (try_cancel s)
act s (start_preedit raw) = preedit_started s raw
act s (commit_quietly text) = commit s text
act s (ask_commit text) = result_or s (try_commit s text)

abbrev pub run : ImeSession → List Action → ImeSession
run s [] = s
run s (a ∷ actions) = run (act s a) actions

abbrev pub is_finished : ImeSessionState → Bool
is_finished committed = true
is_finished cancelled = true
is_finished abandoned = true
is_finished created = false
is_finished recording = false
is_finished transcribing = false
is_finished preedit_active = false

abbrev pub is_some : Option Text → Bool
is_some none = false
is_some (some t) = true

-- What the fields hold in each state: no raw text before the preedit and one in it and in a committed
-- session; the committed text exactly in a committed session.
abbrev pub FieldsAgree : ImeSessionState → Option Text → Option Text → Type 0
FieldsAgree preedit_active raw text = (is_some raw ≡ true) × (is_some text ≡ false)
FieldsAgree committed raw text = (is_some raw ≡ true) × (is_some text ≡ true)
FieldsAgree cancelled raw text = is_some text ≡ false
FieldsAgree abandoned raw text = is_some text ≡ false
FieldsAgree created raw text = (is_some raw ≡ false) × (is_some text ≡ false)
FieldsAgree recording raw text = (is_some raw ≡ false) × (is_some text ≡ false)
FieldsAgree transcribing raw text = (is_some raw ≡ false) × (is_some text ≡ false)

abbrev pub IsValid : ImeSession → Type 0
IsValid s = FieldsAgree s.state s.raw_stt_text s.committed_text

act_finished :
    (state : ImeSessionState) (raw text : Option Text) (a : Action)
    → is_finished state ≡ true
    → let s : ImeSession = record { state = state; raw_stt_text = raw; committed_text = text } in
      act s a ≡ s
unfolding recording_started transcription_started preedit_started commit try_commit try_cancel
    started_from transcribing_from preedit_from committed_from commit_from cancel_from is_text
act_finished committed raw text start_recording f = refl
act_finished committed raw text start_transcription f = refl
act_finished committed raw text ask_cancel f = refl
act_finished committed raw text (start_preedit t) f = refl
act_finished committed raw text (commit_quietly t) f = refl
act_finished committed raw none (ask_commit t) f = refl
act_finished committed raw (some u) (ask_commit t) f = elim (Bool-cases (text_eq u t)) [
  | inl same ↦ rw same refl
  | inr other ↦ rw other refl
]
act_finished cancelled raw text start_recording f = refl
act_finished cancelled raw text start_transcription f = refl
act_finished cancelled raw text ask_cancel f = refl
act_finished cancelled raw text (start_preedit t) f = refl
act_finished cancelled raw text (commit_quietly t) f = refl
act_finished cancelled raw text (ask_commit t) f = refl
act_finished abandoned raw text start_recording f = refl
act_finished abandoned raw text start_transcription f = refl
act_finished abandoned raw text ask_cancel f = refl
act_finished abandoned raw text (start_preedit t) f = refl
act_finished abandoned raw text (commit_quietly t) f = refl
act_finished abandoned raw text (ask_commit t) f = refl
act_finished created raw text a f = cc
act_finished recording raw text a f = cc
act_finished transcribing raw text a f = cc
act_finished preedit_active raw text a f = cc

act-IsValid :
    (state : ImeSessionState) (raw text : Option Text) (a : Action)
    → is_finished state ≡ false
    → FieldsAgree state raw text
    → IsValid (act (record { state = state; raw_stt_text = raw; committed_text = text }) a)
unfolding recording_started transcription_started preedit_started commit try_commit try_cancel
    started_from transcribing_from preedit_from committed_from commit_from cancel_from is_text
act-IsValid created raw text start_recording f v = v
act-IsValid created raw text start_transcription f v = v
act-IsValid created raw text ask_cancel f v = v.1
act-IsValid created raw text (start_preedit t) f v = v
act-IsValid created raw text (commit_quietly t) f v = v
act-IsValid created raw text (ask_commit t) f v = v
act-IsValid recording raw text start_recording f v = v
act-IsValid recording raw text start_transcription f v = v
act-IsValid recording raw text ask_cancel f v = v.1
act-IsValid recording raw text (start_preedit t) f v = v
act-IsValid recording raw text (commit_quietly t) f v = v
act-IsValid recording raw text (ask_commit t) f v = v
act-IsValid transcribing raw text start_recording f v = v
act-IsValid transcribing raw text start_transcription f v = v
act-IsValid transcribing raw text ask_cancel f v = v.1
act-IsValid transcribing raw text (start_preedit t) f v = (refl, v.1)
act-IsValid transcribing raw text (commit_quietly t) f v = v
act-IsValid transcribing raw text (ask_commit t) f v = v
act-IsValid preedit_active raw text start_recording f v = v
act-IsValid preedit_active raw text start_transcription f v = v
act-IsValid preedit_active raw text ask_cancel f v = v.1
act-IsValid preedit_active raw text (start_preedit t) f v = v
act-IsValid preedit_active raw text (commit_quietly t) f v = (v.0, refl)
act-IsValid preedit_active raw text (ask_commit t) f v = (v.0, refl)
act-IsValid committed raw text a f v = cc
act-IsValid cancelled raw text a f v = cc
act-IsValid abandoned raw text a f v = cc

-- A session that is committed, cancelled or abandoned keeps its state and its texts, whatever methods
-- are called on it.
pub run_finished :
    (s : ImeSession) (actions : List Action) → is_finished s.state ≡ true → run s actions ≡ s
run_finished s [] f = refl
run_finished s (a ∷ actions) f =
    rw (act_finished s.state s.raw_stt_text s.committed_text a f) (run_finished s actions f)

run-IsValid_from : (s : ImeSession) (actions : List Action) → IsValid s → IsValid (run s actions)
run-IsValid_from s [] v = v
run-IsValid_from s (a ∷ actions) v = elim (Bool-cases (is_finished s.state)) [
  | inl done ↦
      subst IsValid
        (ap (λ s'. run s' actions)
          (sym (act_finished s.state s.raw_stt_text s.committed_text a done)))
        (run-IsValid_from s actions v)
  | inr going ↦
      run-IsValid_from (act s a) actions
        (act-IsValid s.state s.raw_stt_text s.committed_text a going v)
]

-- A text that is there stays there.
abbrev pub Kept : Option Text → Option Text → Type 0
Kept none later = Unit {0}
Kept (some t) later = later ≡ some t

Kept-refl : (t : Option Text) → Kept t t
Kept-refl none = tt
Kept-refl (some t) = refl

Kept-trans : (s t u : Option Text) → Kept s t → Kept t u → Kept s u
Kept-trans none t u h k = tt
Kept-trans (some s) none u h k = cc
Kept-trans (some s) (some t) u h k = k ∙ h

Kept-missing : (s t : Option Text) → is_some s ≡ false → Kept s t
Kept-missing none t h = tt
Kept-missing (some s) t h = cc

act-Kept_going :
    (state : ImeSessionState) (raw text : Option Text) (a : Action)
    → is_finished state ≡ false
    → FieldsAgree state raw text
    → let s : ImeSession = record { state = state; raw_stt_text = raw; committed_text = text } in
      Kept raw (act s a).raw_stt_text × Kept text (act s a).committed_text
unfolding recording_started transcription_started preedit_started commit try_commit try_cancel
    started_from transcribing_from preedit_from committed_from commit_from cancel_from is_text
act-Kept_going created raw text a f v = (Kept-missing raw _ v.0, Kept-missing text _ v.1)
act-Kept_going recording raw text a f v = (Kept-missing raw _ v.0, Kept-missing text _ v.1)
act-Kept_going transcribing raw text a f v = (Kept-missing raw _ v.0, Kept-missing text _ v.1)
act-Kept_going preedit_active raw text start_recording f v =
    (Kept-refl raw, Kept-missing text _ v.1)
act-Kept_going preedit_active raw text start_transcription f v =
    (Kept-refl raw, Kept-missing text _ v.1)
act-Kept_going preedit_active raw text ask_cancel f v = (Kept-refl raw, Kept-missing text _ v.1)
act-Kept_going preedit_active raw text (start_preedit t) f v =
    (Kept-refl raw, Kept-missing text _ v.1)
act-Kept_going preedit_active raw text (commit_quietly t) f v =
    (Kept-refl raw, Kept-missing text _ v.1)
act-Kept_going preedit_active raw text (ask_commit t) f v = (Kept-refl raw, Kept-missing text _ v.1)
act-Kept_going committed raw text a f v = cc
act-Kept_going cancelled raw text a f v = cc
act-Kept_going abandoned raw text a f v = cc

run-Kept :
    (s : ImeSession) (actions : List Action)
    → IsValid s
    → Kept s.raw_stt_text (run s actions).raw_stt_text
      × Kept s.committed_text (run s actions).committed_text
run-Kept s [] v = (Kept-refl s.raw_stt_text, Kept-refl s.committed_text)
run-Kept s (a ∷ actions) v = elim (Bool-cases (is_finished s.state)) [
  | inl done ↦
      rw (run_finished s (a ∷ actions) done) (Kept-refl s.raw_stt_text, Kept-refl s.committed_text)
  | inr going ↦
      let now = act-Kept_going s.state s.raw_stt_text s.committed_text a going v in
      let rest =
        run-Kept (act s a) actions
          (act-IsValid s.state s.raw_stt_text s.committed_text a going v) in
      (Kept-trans _ _ _ now.0 rest.0, Kept-trans _ _ _ now.1 rest.1)
]

run-append : (s : ImeSession) (a b : List Action) → run s (a ++ b) ≡ run (run s a) b
run-append s [] b = refl
run-append s (x ∷ a) b = run-append (act s x) a b

-- Whatever methods are called on a new session: it has no raw text before the preedit, and one in the
-- preedit and once committed; it has a committed text exactly when it is committed; and whatever is
-- called later, a cancellation included, a raw text or a committed text that it has is neither lost
-- nor changed.
pub run-IsValid :
    (actions later : List Action)
    → IsValid (run new_for_test actions)
      × Kept
          (run new_for_test actions).raw_stt_text
          (run new_for_test (actions ++ later)).raw_stt_text
      × Kept
          (run new_for_test actions).committed_text
          (run new_for_test (actions ++ later)).committed_text
unfolding new_for_test
run-IsValid actions later =
    let valid = run-IsValid_from new_for_test actions (refl, refl) in
    rw (run-append new_for_test actions later)
      (let kept = run-Kept (run new_for_test actions) later valid in (valid, kept.0, kept.1))

-- A commit happens once: from the preedit a commit succeeds with its text, the same commit again
-- succeeds and changes nothing, a commit of another text is an invalid transition, and a cancellation
-- is refused.
pub commit_once :
    (raw old : Option Text) (text other : Text)
    → text_eq text other ≡ false
    → let s : ImeSession = record {
      state = preedit_active;
      raw_stt_text = raw;
      committed_text = old;
    } in
      let s' : ImeSession = record {
        state = committed;
        raw_stt_text = raw;
        committed_text = some text;
      } in
      (try_commit s text ≡ inl s')
      × (try_commit s' text ≡ inl s')
      × (try_commit s' other ≡ inr (invalid_transition committed))
      × (try_cancel s' ≡ inr already_committed)
unfolding try_commit commit_from is_text try_cancel cancel_from
commit_once raw old text other d = (refl, rw (text_eq_refl text) refl, rw d refl, refl)
