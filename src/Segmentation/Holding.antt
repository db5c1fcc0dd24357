-- ===== src/Segmentation/Holding.antt =====
-- What UtteranceSegmenter of segmentation.rs holds between two frames, in terms of the labelled frames
-- since the last utterance.
use mathlib.Core.List.{flatten, append_assoc, append-nil}
use idiolect.Common.{
  ℕ, suc, ◌+◌, ◌-◌, ◌<◌, ◌≤◌, ◌≡◌, refl, sym, ap, ◌∙◌, inl, inr, Bool, true, false, List, [], ◌∷◌,
  ◌++◌, arith, length, length-append, ◌==◌, Bool-cases, All, All-append, drop, length-drop,
  drop-drop, drop-append_le, if◌then◌else◌,
}
use idiolect.Segmentation.{
  idle, active, UtteranceSegmenter, frames_for, begin_utterance, remember_pre_roll,
  finish_utterance, extend_utterance, is_complete,
}
use idiolect.Segmentation.Blocks.{
  frames_of, speech_count, trailing_silence, IsSilent, latest, IsOver, snippet_of, frames_of-append,
  flatten-frames_of-concat,
}
use idiolect.Segmentation.Durations.{frames_for-enough, frames_for-needed}

module _ {ℓ} {A : Type ℓ} where
  drop_all : (fs : List (List A)) → drop (length fs) fs ≡ []
  drop_all [] = refl
  drop_all (f ∷ fs) = drop_all fs

  length-latest : (n : ℕ) (fs : List (List A)) → length (latest n fs) ≡ length fs - (length fs - n)
  length-latest n fs = length-drop (length fs - n) fs

  pub latest_few : (n : ℕ) (fs : List (List A)) → length fs ≤ n → latest n fs ≡ fs
  latest_few n fs h =
      let none_gone : length fs - n ≡ 0 = omega arith in ap (λ k. drop k fs) none_gone

  -- One frame more where there are at least as many as are kept.
  latest_full :
      (n : ℕ) (fs : List (List A)) (f : List A)
      → 1 ≤ n
      → n ≤ length fs
      → latest n (fs ++ f ∷ []) ≡ drop 1 (latest n fs) ++ f ∷ []
  latest_full n fs f pos h =
      let e : length (fs ++ f ∷ []) - n ≡ (length fs - n) + 1 =
        omega (arith, length-append fs (f ∷ [])) in
      ap (λ k. drop k (fs ++ f ∷ [])) e
      ∙ drop-append_le ((length fs - n) + 1) fs (f ∷ []) (omega arith)
      ∙ ap (λ t. t ++ f ∷ []) (sym (drop-drop 1 (length fs - n) fs))

  -- The ring holds the last frames of the silence.
  remember-latest :
      (s : UtteranceSegmenter A) (fs : List (List A)) (f : List A)
      → s.pre_roll ≡ latest (frames_for s.config s.config.pre_roll_ms) fs
      → (remember_pre_roll s f).pre_roll
        ≡ latest (frames_for s.config s.config.pre_roll_ms) (fs ++ f ∷ [])
  unfolding remember_pre_roll
  remember-latest s fs f h =
      let cap = frames_for s.config s.config.pre_roll_ms in
      let more = length-append fs (f ∷ []) in
      let kept = ap length h ∙ length-latest cap fs in
      elim (Bool-cases (cap == 0)) [
        | inl off ↦
            let all : length (fs ++ f ∷ []) - cap ≡ length (fs ++ f ∷ []) = ground arith in
            let before : length fs - cap ≡ length fs = ground arith in
            rw off (
              h
              ∙ ap (λ k. drop k fs) before
              ∙ drop_all fs
              ∙ sym (drop_all (fs ++ f ∷ []))
              ∙ ap (λ k. drop k (fs ++ f ∷ [])) (sym all))
        | inr on ↦
            let pos : 1 ≤ cap = ground arith in
            elim (Bool-cases (length s.pre_roll == cap)) [
              | inl full ↦
                  let enough : cap ≤ length fs = ground arith in
                  rw (on, full)
                    (ap (λ l. drop 1 l ++ f ∷ []) h ∙ sym (latest_full cap fs f pos enough))
              | inr room ↦
                  let few : length fs < cap = ground arith in
                  rw (on, room)
                    (ap (λ l. l ++ f ∷ []) (h ∙ latest_few cap fs (omega arith))
                      ∙ sym (latest_few cap (fs ++ f ∷ []) (omega arith)))
            ]
      ]

  silence-push_silent :
      (n : ℕ) (w : List (List A × Bool)) (f : List A)
      → trailing_silence n (w ++ (f, false) ∷ []) ≡ trailing_silence n w + 1
  silence-push_silent n [] f = omega arith
  silence-push_silent n ((g, true) ∷ w) f = silence-push_silent 0 w f
  silence-push_silent n ((g, false) ∷ w) f = silence-push_silent (suc n) w f

  silence-push_speech :
      (n : ℕ) (w : List (List A × Bool)) (f : List A) → trailing_silence n (w ++ (f, true) ∷ []) ≡ 0
  silence-push_speech n [] f = refl
  silence-push_speech n ((g, true) ∷ w) f = silence-push_speech 0 w f
  silence-push_speech n ((g, false) ∷ w) f = silence-push_speech (suc n) w f

  speech_count-push :
      (w : List (List A × Bool)) (f : List A) (b : Bool)
      → speech_count (w ++ (f, b) ∷ []) ≡ (if b then speech_count w + 1 else speech_count w)
  speech_count-push [] f true = omega arith
  speech_count-push [] f false = refl
  speech_count-push ((g, true) ∷ w) f b = ground (arith, speech_count-push w f b)
  speech_count-push ((g, false) ∷ w) f b = speech_count-push w f b

  -- What the segmenter holds of the frames `w` since the last utterance: silence only, or silence
  -- and an utterance that is going on.
  pub record Waiting (s : UtteranceSegmenter A) (w : List (List A × Bool)) : Type ℓ where
    pub state : s.state ≡ idle
    pub silent : All IsSilent w
    pub ring : s.pre_roll ≡ latest (frames_for s.config s.config.pre_roll_ms) (frames_of w)

  pub record Counts (s : UtteranceSegmenter A) (b : List (List A × Bool)) : Type 0 where
    pub speech : s.speech_frames ≡ speech_count b
    pub trailing : s.trailing_silence_frames ≡ trailing_silence 0 b
    pub frames : s.active_frames ≡ length b

  pub record Speaking (s : UtteranceSegmenter A) (q b : List (List A × Bool)) : Type ℓ where
    pub state : s.state ≡ active
    pub silent : All IsSilent q
    pub audio :
        s.active
        ≡ flatten (latest (frames_for s.config s.config.pre_roll_ms) (frames_of q))
          ++ flatten (frames_of b)
    pub counts : Counts s b
    pub ring : s.pre_roll ≡ []

  remember_state : (s : UtteranceSegmenter A) (f : List A) → (remember_pre_roll s f).state ≡ s.state
  unfolding remember_pre_roll
  remember_state s f = ground arith

  pub remember_config :
      (s : UtteranceSegmenter A) (f : List A) → (remember_pre_roll s f).config ≡ s.config
  unfolding remember_pre_roll
  remember_config s f = ground arith

  pub remember-Waiting :
      (s : UtteranceSegmenter A) (w : List (List A × Bool)) (f : List A)
      → Waiting s w
      → Waiting (remember_pre_roll s f) (w ++ (f, false) ∷ [])
  remember-Waiting s w f h = record {
    state = remember_state s f ∙ h.state;
    silent = All-append IsSilent w ((f, false) ∷ []) h.silent (refl, tt);
    ring =
        rw (remember_config s f, frames_of-append w ((f, false) ∷ []))
          (remember-latest s (frames_of w) f h.ring);
  }

  pub begin-Speaking :
      (s : UtteranceSegmenter A) (w : List (List A × Bool)) (f : List A)
      → Waiting s w
      → Speaking (begin_utterance s f) w ((f, true) ∷ [])
  unfolding begin_utterance flatten
  begin-Speaking s w f h = record {
    state = refl;
    silent = h.silent;
    audio = rw (append-nil f) (ap (λ l. flatten l ++ f) h.ring);
    counts = record { speech = refl; trailing = refl; frames = refl };
    ring = refl;
  }

  extend-Counts :
      (s : UtteranceSegmenter A) (b : List (List A × Bool)) (f : List A) (l : Bool)
      → Counts s b
      → Counts (extend_utterance s f l) (b ++ (f, l) ∷ [])
  unfolding extend_utterance
  extend-Counts s b f true h = record {
    speech = omega (arith, h.speech, speech_count-push b f true);
    trailing = sym (silence-push_speech 0 b f);
    frames = omega (arith, h.frames, length-append b ((f, true) ∷ []));
  }
  extend-Counts s b f false h = record {
    speech = omega (arith, h.speech, speech_count-push b f false);
    trailing = omega (arith, h.trailing, silence-push_silent 0 b f);
    frames = omega (arith, h.frames, length-append b ((f, false) ∷ []));
  }

  pub extend-Speaking :
      (s : UtteranceSegmenter A) (q b : List (List A × Bool)) (f : List A) (l : Bool)
      → Speaking s q b
      → Speaking (extend_utterance s f l) q (b ++ (f, l) ∷ [])
  unfolding extend_utterance
  extend-Speaking s q b f l h = record {
    state = h.state;
    silent = h.silent;
    audio =
        ap (λ a. a ++ f) h.audio
        ∙ append_assoc _ (flatten (frames_of b)) f
        ∙ ap (λ a. flatten (latest (frames_for s.config s.config.pre_roll_ms) (frames_of q)) ++ a)
            (sym (flatten-frames_of-concat b f l));
    counts = unfold extend_utterance in extend-Counts s b f l h.counts;
    ring = h.ring;
  }

  -- The test of the source asks what the labels tell.
  pub complete-IsOver :
      (s : UtteranceSegmenter A) (b : List (List A × Bool))
      → Counts s b
      → is_complete s ≡ true
      → IsOver s.config b
  unfolding is_complete
  complete-IsOver s b h e = ground (
    arith,
    h.trailing,
    h.frames,
    frames_for-enough s.config s.config.post_roll_ms (trailing_silence 0 b),
    frames_for-enough s.config s.config.max_utterance_ms (length b),
  )

  pub incomplete-IsOver :
      (s : UtteranceSegmenter A) (b : List (List A × Bool))
      → Counts s b
      → is_complete s ≡ false
      → IsOver s.config b
      → ⊥
  unfolding is_complete
  incomplete-IsOver s b h e o = ground (
    arith,
    h.trailing,
    h.frames,
    frames_for-needed s.config s.config.post_roll_ms (trailing_silence 0 b),
    frames_for-needed s.config s.config.max_utterance_ms (length b),
  )

  pub finish-Waiting :
      (s : UtteranceSegmenter A) → s.pre_roll ≡ [] → Waiting (finish_utterance s).0 []
  unfolding finish_utterance
  finish-Waiting s e = record {
    state = refl;
    silent = tt;
    ring = e ∙ sym (latest_few _ [] (omega arith));
  }

  pub finish-snippet_of :
      (s : UtteranceSegmenter A) (q b : List (List A × Bool))
      → Speaking s q b
      → (finish_utterance s).1 ≡ snippet_of s.config q b
  unfolding finish_utterance
  finish-snippet_of s q b h = rw (h.counts.speech, h.audio) refl
