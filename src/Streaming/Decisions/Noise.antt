-- ===== src/Streaming/Decisions/Noise.antt =====
-- is_noise_transcript of streaming.rs, described by positions: a word counts when it stands outside
-- every bracket.
use native.Mathlib.Nat.{mod-eq_of_lt}
use idiolect.Common.{
  ℕ, ◌+◌, ◌-◌, ◌^◌, ◌<◌, ◌≤◌, ◌≡◌, refl, ap, Bool, true, false, ◌||◌, ◌&&◌, ◌==◌, [], ◌∷◌, ◌++◌,
  arith, length, if◌then◌else◌, inl, inr, Bool-cases,
}
use idiolect.Text.{Text}
use idiolect.Streaming.Decisions.{is_opening, is_closing, noise_from, is_noise_transcript}

-- How many brackets are open behind a text; a closing bracket with none open is ignored.
abbrev pub next_depth : ℕ → ℕ → ℕ
next_depth d c = if is_opening c then d + 1 else if is_closing c then d - 1 else d

abbrev pub depth_after : ℕ → Text → ℕ
depth_after d [] = d
depth_after d (c ∷ s) = depth_after (next_depth d c) s

-- A character of a word, and no bracket.
abbrev pub is_word : (ℕ → Bool) → ℕ → Bool
is_word alnum c = if is_opening c || is_closing c then false else alnum c

module _ (is_alphanumeric : ℕ → Bool) where
  -- One character of the loop, away from the u32 bound.
  noise-next :
      (d x : ℕ) (s : Text)
      → d + 1 < 2 ^ 32
      → noise_from is_alphanumeric d (x ∷ s) ≡ (
          if is_word is_alphanumeric x && d == 0
          then false
          else noise_from is_alphanumeric (next_depth d x) s)
  unfolding noise_from
  noise-next d x s h = elim (Bool-cases (is_opening x)) [
    | inl o ↦ rw (o, mod-eq_of_lt h) refl
    | inr o ↦ elim (Bool-cases (is_closing x)) [
      | inl c ↦ rw (o, c) refl
      | inr c ↦ rw (o, c) (ground arith)
    ]
  ]

  next_depth-le : (d x : ℕ) → next_depth d x ≤ d + 1
  next_depth-le d x = ground arith

  noise_inside :
      (p q : Text) (c d : ℕ)
      → d + length (p ++ c ∷ q) < 2 ^ 32
      → noise_from is_alphanumeric d (p ++ c ∷ q) ≡ true
      → is_word is_alphanumeric c ≡ true
      → 0 < depth_after d p
  noise_inside [] q c d fits h w = ground (arith, noise-next d c q)
  noise_inside (x ∷ p) q c d fits h w =
      noise_inside p q c (next_depth d x) (omega (arith, next_depth-le d x))
        (ground (arith, noise-next d x (p ++ c ∷ q))) w

  -- Every word of a transcript that counts as noise lies inside brackets, in a transcript shorter
  -- than 2^32 characters.
  pub noise_in_brackets :
      (p q : Text) (c : ℕ)
      → length (p ++ c ∷ q) < 2 ^ 32
      → is_noise_transcript is_alphanumeric (p ++ c ∷ q) ≡ true
      → is_word is_alphanumeric c ≡ true
      → 0 < depth_after 0 p
  unfolding is_noise_transcript
  noise_in_brackets p q c fits h w = noise_inside p q c 0 (omega arith) h w

  abbrev Outside : ℕ → Text → Type 0
  Outside d s =
      (p : Text) × (c : ℕ) × (q : Text) × (s ≡ p ++ c ∷ q)
      × (is_word is_alphanumeric c ≡ true)
      × (depth_after d p ≡ 0)

  speech_found :
      (s : Text) (d : ℕ)
      → d + length s < 2 ^ 32
      → noise_from is_alphanumeric d s ≡ false
      → Outside d s
  unfolding noise_from
  speech_found [] d fits h = cc
  speech_found (x ∷ s) d fits h = elim (Bool-cases (is_word is_alphanumeric x && d == 0)) [
    | inl word ↦ ([], x, s, refl, ground arith, ground arith)
    | inr more ↦
        let (p, c, q, e, w, z) =
          speech_found s (next_depth d x) (omega (arith, next_depth-le d x))
            (ground (arith, noise-next d x s)) in
        (x ∷ p, c, q, ap (◌∷◌ x) e, w, z)
  ]

  -- A transcript shorter than 2^32 characters that does not count as noise has a word outside
  -- every bracket.
  pub speech_outside_brackets :
      (s : Text)
      → length s < 2 ^ 32
      → is_noise_transcript is_alphanumeric s ≡ false
      → (p : Text) × (c : ℕ) × (q : Text) × (s ≡ p ++ c ∷ q)
        × (is_word is_alphanumeric c ≡ true)
        × (depth_after 0 p ≡ 0)
  unfolding is_noise_transcript
  speech_outside_brackets s fits h = speech_found s 0 (omega arith) h
