-- ===== src/Segmentation/Blocks.antt =====
-- What segmentation.rs makes of a recording, told from the labelled frames alone: which frames are
-- an utterance, where it ends, and which samples its snippet holds.
use mathlib.Core.List.{flatten, append_assoc, append-nil}
use idiolect.Common.{
  ℕ, suc, ◌-◌, ◌*◌, ◌≤◌, ◌≡◌, refl, sym, ap, ◌⊎◌, Bool, true, false, Option, none, some, List, [],
  ◌∷◌, ◌++◌, length, leb, if◌then◌else◌, All, drop,
}
use idiolect.Segmentation.{
  SegmenterConfig, UtteranceSegmenter, max_one, frames_for, speech_ms, push_frame, flush,
}

module _ {ℓ} {A : Type ℓ} where
  abbrev pub frames_of : List (List A × Bool) → List (List A)
  frames_of [] = []
  frames_of ((f, b) ∷ w) = f ∷ frames_of w

  abbrev pub speech_count : List (List A × Bool) → ℕ
  speech_count [] = 0
  speech_count ((f, true) ∷ w) = suc (speech_count w)
  speech_count ((f, false) ∷ w) = speech_count w

  -- The silent frames at the end, after `n` silent ones before.
  abbrev pub trailing_silence : ℕ → List (List A × Bool) → ℕ
  trailing_silence n [] = n
  trailing_silence n ((f, true) ∷ w) = trailing_silence 0 w
  trailing_silence n ((f, false) ∷ w) = trailing_silence (suc n) w

  abbrev pub IsSilent : List A × Bool → Type 0
  IsSilent (f, b) = b ≡ false

  abbrev pub latest : ℕ → List (List A) → List (List A)
  latest n fs = drop (length fs - n) fs

  abbrev pub add_snippet : Option (List A) → List (List A) → List (List A)
  add_snippet none ss = ss
  add_snippet (some s) ss = s ∷ ss

  -- Every snippet of a recording: the frames pushed in order, and a flush at the stop.
  unfoldable pub record_all : UtteranceSegmenter A → List (List A × Bool) → List (List A)
  record_all s [] = add_snippet (flush s).1 []
  record_all s ((f, b) ∷ w) = let (s', o) = push_frame s f b in add_snippet o (record_all s' w)

  -- The utterance is over: the silence at its end, in milliseconds, fills the post-roll, or it is as
  -- long as it may be.
  abbrev pub IsOver : SegmenterConfig → List (List A × Bool) → Type 0
  IsOver c b =
      (c.post_roll_ms ≤ trailing_silence 0 b * max_one c.frame_ms)
      ⊎ (c.max_utterance_ms ≤ length b * max_one c.frame_ms)

  -- An utterance that is going on: it began with speech, and was not over after any later frame.
  pub data Going (c : SegmenterConfig) : List (List A × Bool) → Type ℓ where
    begun : (f : List A) → Going c ((f, true) ∷ [])
    goes_on :
        (x : List A × Bool) {b v : List (List A × Bool)}
        → Going c b
        → v ≡ b ++ x ∷ []
        → (IsOver c v → ⊥)
        → Going c v

  -- An utterance that ends before the frames given: with the first frame after which it is over, or
  -- where the recording stops.
  pub data Ended (c : SegmenterConfig) : List (List A × Bool) → List (List A × Bool) → Type ℓ where
    over :
        (x : List A × Bool) {b v w : List (List A × Bool)}
        → Going c b
        → v ≡ b ++ x ∷ []
        → IsOver c v
        → Ended c v w
    stopped : {b : List (List A × Bool)} → Going c b → Ended c b []

  -- The snippet of an utterance behind the silence before it, if it holds enough speech.
  abbrev pub snippet_of :
      SegmenterConfig → List (List A × Bool) → List (List A × Bool) → Option (List A)
  snippet_of c q b =
      if leb c.min_speech_ms (speech_ms (speech_count b) c.frame_ms)
      then some
          (flatten (latest (frames_for c c.pre_roll_ms) (frames_of q)) ++ flatten (frames_of b))
      else none

  -- A recording and its snippets: silence and utterances in turn.
  pub data Partition (c : SegmenterConfig) : List (List A × Bool) → List (List A) → Type ℓ where
    silence : {q : List (List A × Bool)} → All IsSilent q → Partition c q []
    utterance :
        (q b : List (List A × Bool)) {w v : List (List A × Bool)} {ss rest : List (List A)}
        → All IsSilent q
        → Ended c b w
        → v ≡ q ++ (b ++ w)
        → Partition c w ss
        → rest ≡ add_snippet (snippet_of c q b) ss
        → Partition c v rest

  pub frames_of-append :
      (u w : List (List A × Bool)) → frames_of (u ++ w) ≡ frames_of u ++ frames_of w
  frames_of-append [] w = refl
  frames_of-append ((f, b) ∷ u) w = ap (◌∷◌ f) (frames_of-append u w)

  flatten-append : (u w : List (List A)) → flatten (u ++ w) ≡ flatten u ++ flatten w
  unfolding flatten
  flatten-append [] w = refl
  flatten-append (f ∷ u) w = rw (flatten-append u w) (sym (append_assoc f (flatten u) (flatten w)))

  pub flatten-frames_of-concat :
      (w : List (List A × Bool)) (f : List A) (b : Bool)
      → flatten (frames_of (w ++ (f, b) ∷ [])) ≡ flatten (frames_of w) ++ f
  unfolding flatten
  flatten-frames_of-concat w f b =
      rw (frames_of-append w ((f, b) ∷ []), flatten-append (frames_of w) (f ∷ []), append-nil f)
