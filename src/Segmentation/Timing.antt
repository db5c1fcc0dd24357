-- ===== src/Segmentation/Timing.antt =====
-- The timing rules of segmentation.rs: the invariant between frames, the length of an utterance,
-- and that a pause ends it.
use native.Mathlib.Nat.{div-add-mod', mod-lt, mul_comm, le_trans, mod-eq_of_lt}
use Prim.Native.Nat.{suc-le-suc}
use idiolect.Common.{
  ℕ, ◌+◌, ◌*◌, ◌^◌, ◌<◌, ◌≤◌, ◌≡◌, ◌⊎◌, inl, inr, Bool, false, none, some, List, [], ◌∷◌, ◌++◌,
  arith, length, length-append, leb, if◌then◌else◌,
}
use idiolect.Segmentation.{
  SegmenterConfig, idle, active, UtteranceSegmenter, div_ceil, frames_for, speech_ms, new,
  begin_utterance, remember_pre_roll, finish_utterance, push_frame, flush,
}

-- Where a frame lasts some time, `frames_for` is the least number of frames that lasts the
-- duration.
pub frames_for_least :
    (c : SegmenterConfig) (d : ℕ)
    → 0 < c.frame_ms
    → (d ≤ frames_for c d * c.frame_ms) × (frames_for c d * c.frame_ms < d + c.frame_ms)
unfolding frames_for div_ceil
frames_for_least c d h = grind (arith, div-add-mod' d c.frame_ms, mod-lt d h)

mul_le : (a b m : ℕ) → a ≤ b → a * m ≤ b * m
mul_le a b m h = grind arith

-- Below 2^32 the two `u32` steps of `speech_ms` change nothing.
speech_ms_exact : (n m : ℕ) → 0 < m → n * m < 2 ^ 32 → speech_ms n m ≡ n * m
speech_ms_exact n m pos h =
    let small : n < 2 ^ 32 = omega (arith, mul_le 1 m n pos, mul_comm n m) in
    rw (mod-eq_of_lt small) (mod-eq_of_lt h)

module _ {ℓ} {A : Type ℓ} where
  pub record IsValid (s : UtteranceSegmenter A) : Type ℓ where
    pub idle_empty : s.state ≡ idle → s.active ≡ []
    pub ring_only_idle : s.state ≡ active → s.pre_roll ≡ []
    pub ring_capped : length s.pre_roll ≤ frames_for s.config s.config.pre_roll_ms
    pub spoken : s.state ≡ active → 0 < s.speech_frames
    pub counted : s.speech_frames + s.trailing_silence_frames ≤ s.active_frames
    pub not_paused :
        (s.trailing_silence_frames ≡ 0)
        ⊎ (s.trailing_silence_frames < frames_for s.config s.config.post_roll_ms)
    pub not_over_long :
        (s.active_frames ≤ 1) ⊎ (s.active_frames < frames_for s.config s.config.max_utterance_ms)

  pub new-IsValid : (c : SegmenterConfig) → IsValid (new c)
  unfolding new
  new-IsValid c = ground arith

  remember-IsValid :
      (s : UtteranceSegmenter A) (f : List A)
      → s.state ≡ idle
      → IsValid s
      → IsValid (remember_pre_roll s f)
  unfolding remember_pre_roll
  remember-IsValid s f e v = ground (arith, length-append s.pre_roll (f ∷ []))

  -- Every frame, speech or not, keeps a segmenter that is within its bounds there: the ring within
  -- the pre-roll, the trailing silence under the pause threshold, the utterance under the cap.
  pub push_frame-IsValid :
      (s : UtteranceSegmenter A) (f : List A) (b : Bool) → IsValid s → IsValid (push_frame s f b).0
  unfolding push_frame begin_utterance finish_utterance
  push_frame-IsValid s f b v = ground (arith, remember-IsValid s f)

  pub flush-IsValid : (s : UtteranceSegmenter A) → IsValid s → IsValid (flush s).0
  unfolding flush finish_utterance
  flush-IsValid s v = ground arith

  -- Every silent frame pushed.
  unfoldable pub push_silence : UtteranceSegmenter A → List (List A) → UtteranceSegmenter A
  push_silence s [] = s
  push_silence s (f ∷ fs) = push_silence (push_frame s f false).0 fs

  idle-push :
      (s : UtteranceSegmenter A) (f : List A)
      → s.state ≡ idle
      → (push_frame s f false).0.state ≡ idle
  unfolding push_frame remember_pre_roll
  idle-push s f e = ground arith

  active-push :
      (s : UtteranceSegmenter A) (f : List A)
      → let t = (push_frame s f false).0 in
        (t.state ≡ idle)
        ⊎ ((frames_for s.config s.config.post_roll_ms ≡ frames_for t.config t.config.post_roll_ms)
            × (t.trailing_silence_frames ≡ s.trailing_silence_frames + 1)
            × (t.trailing_silence_frames < frames_for t.config t.config.post_roll_ms))
  unfolding push_frame remember_pre_roll finish_utterance
  active-push s f = ground arith

  silence_closes :
      (s : UtteranceSegmenter A) (fs : List (List A))
      → (s.state ≡ idle)
        ⊎ ((frames_for s.config s.config.post_roll_ms ≤ s.trailing_silence_frames + length fs)
            × (0 < length fs))
      → (push_silence s fs).state ≡ idle
  unfolding push_silence
  silence_closes s [] (inl e) = e
  silence_closes s [] (inr h) = absurd (omega arith)
  silence_closes s (f ∷ fs) (inl e) =
      silence_closes (push_frame s f false).0 fs (inl (idle-push s f e))
  silence_closes s (f ∷ fs) (inr h) = elim (active-push s f) [
    | inl e ↦ silence_closes (push_frame s f false).0 fs (inl e)
    | inr r ↦ silence_closes (push_frame s f false).0 fs (inr (omega arith))
  ]

  -- A pause ends the utterance: from any state, once silence has lasted as many frames as
  -- `post_roll_ms` needs (and at least one), the segmenter is idle.
  pub pause_ends_utterance :
      (s : UtteranceSegmenter A) (fs : List (List A))
      → frames_for s.config s.config.post_roll_ms ≤ length fs
      → 0 < length fs
      → (push_silence s fs).state ≡ idle
  pause_ends_utterance s fs h k = silence_closes s fs (inr (omega arith))

  speech_fits :
      (s : UtteranceSegmenter A) (b : Bool)
      → IsValid s
      → 0 < s.config.frame_ms
      → s.config.max_utterance_ms + 2 * s.config.frame_ms < 2 ^ 32
      → (if b then s.speech_frames + 1 else s.speech_frames) * s.config.frame_ms < 2 ^ 32
  speech_fits s b v pos cap =
      le_trans
        (suc-le-suc (
          mul_le (if b then s.speech_frames + 1 else s.speech_frames) (s.active_frames + 1)
            s.config.frame_ms (ground arith)))
        (elim v.not_over_long [
          | inl h ↦ omega (arith, mul_le (s.active_frames + 1) 2 s.config.frame_ms (omega arith))
          | inr h ↦ omega (
            arith,
            mul_le (s.active_frames + 1) (frames_for s.config s.config.max_utterance_ms)
                s.config.frame_ms (omega arith),
            frames_for_least s.config s.config.max_utterance_ms pos,
          )
        ])

  -- The `u32` product does not wrap: within the invariant and for a cap of less than 2^32 ms less
  -- two frames, a frame that ends an utterance emits all its audio exactly if the true
  -- duration of its speech frames reaches `min_speech_ms`.
  pub push_frame_decides :
      (s : UtteranceSegmenter A) (f : List A) (b : Bool)
      → IsValid s
      → s.state ≡ active
      → 0 < s.config.frame_ms
      → s.config.max_utterance_ms + 2 * s.config.frame_ms < 2 ^ 32
      → (push_frame s f b).0.state ≡ idle
      → (push_frame s f b).1 ≡ (
          if leb s.config.min_speech_ms
            ((if b then s.speech_frames + 1 else s.speech_frames) * s.config.frame_ms)
          then some (s.active ++ f)
          else none)
  unfolding push_frame finish_utterance
  push_frame_decides s f b v e pos cap back =
      let n = if b then s.speech_frames + 1 else s.speech_frames in
      rw (← speech_ms_exact n s.config.frame_ms pos (speech_fits s b v pos cap)) (ground arith)
