-- ===== src/Streaming/Decisions.antt =====
-- The pure decisions of streaming.rs. `char::is_alphanumeric` is a Unicode table of the standard
-- library; it is a parameter, and the theorems hold for every table.
pub mod Noise
pub mod Tail
use mathlib.Core.List.{reverse}
use idiolect.Common.{
  ℕ, ◌+◌, ◌-◌, ◌%◌, ◌^◌, Bool, true, false, ◌&&◌, ◌||◌, Option, none, some, List, [], ◌∷◌, ◌++◌,
  ltb, leb, ◌==◌, if◌then◌else◌, length, take, drop,
}
use idiolect.Text.{Text, is_whitespace, is_empty, text_eq}

unfoldable pub trim_start : Text → Text
trim_start [] = []
trim_start (c ∷ s) = let rest = trim_start s in if is_whitespace c then rest else c ∷ s

-- `str::trim`.
unfoldable pub trim : Text → Text
unfolding trim_start is_whitespace
trim s = reverse (trim_start (reverse (trim_start s)))

unfoldable pub is_opening : ℕ → Bool
is_opening c = c == b'[' || c == b'('

unfoldable pub is_closing : ℕ → Bool
is_closing c = c == b']' || c == b')'

-- `str::ends_with`, and the slice before the suffix.
unfoldable pub ends_with : Text → Text → Bool
ends_with s t = leb (length t) (length s) && text_eq (drop (length s - length t) s) t

unfoldable pub merge_tail_correction : Text → Option Text → Text → Text
unfolding ends_with
merge_tail_correction current (some tail) corrected =
    if ends_with current tail
    then take (length current - length tail) current ++ corrected
    else current
merge_tail_correction current none corrected = corrected

module _ (is_alphanumeric : ℕ → Bool) where
  -- The loop over the characters; `depth` is a u32.
  unfoldable pub noise_from : ℕ → Text → Bool
  noise_from depth [] = true
  noise_from depth (c ∷ s) =
      let opened = noise_from ((depth + 1) % 2 ^ 32) s in
      let closed = noise_from (depth - 1) s in
      let same = noise_from depth s in
      if is_opening c
      then opened
      else if is_closing c
      then closed
      else if ltb 0 depth
      then same
      else if is_alphanumeric c
      then false
      else same

  unfoldable pub is_noise_transcript : Text → Bool
  unfolding noise_from
  is_noise_transcript s = noise_from 0 s

  unfoldable pub snippet_chunk : Text → Text → Option Text
  snippet_chunk take_so_far decoded =
      let t = trim decoded in
      if is_empty t || is_noise_transcript t
      then none
      else some (if is_empty take_so_far then t else b' ' ∷ t)

  unfoldable pub choose_final_take_text : Text → Text → Text
  choose_final_take_text full_decode previewed =
      let t = trim full_decode in if is_empty t || is_noise_transcript t then previewed else t
