-- ===== src/Streaming/Decisions/Tail.antt =====
-- merge_tail_correction and trim of streaming.rs.
use idiolect.Common.{
  ◌+◌, ◌-◌, ◌≡◌, sym, ap, ◌∙◌, true, some, ◌++◌, arith, length, take, drop, le→leb, inl, inr, ◌⊎◌,
  Bool-cases, length-append, take-append_length, drop-append_length, take-append-drop,
}
use idiolect.Text.{Text, text_eq→eq, text_eq_refl}
use idiolect.Streaming.Decisions.{ends_with, merge_tail_correction}

ends_with-append : (p t : Text) → ends_with (p ++ t) t ≡ true
unfolding ends_with
ends_with-append p t = rw (
  length-append p t,
  le→leb (length t) (length p + length t) (omega arith),
  drop-append_length (length p + length t - length t) p t (omega arith),
  text_eq_refl t,
)

-- A correction of the last snippet replaces exactly that suffix of the take.
pub merge_tail-append :
    (p t corrected : Text) → merge_tail_correction (p ++ t) (some t) corrected ≡ p ++ corrected
unfolding merge_tail_correction
merge_tail-append p t corrected =
    rw (ends_with-append p t, length-append p t)
      (ap (λ x. x ++ corrected)
        (take-append_length (length p + length t - length t) p t (omega arith)))

ends_with-split : (s t : Text) → ends_with s t ≡ true → take (length s - length t) s ++ t ≡ s
unfolding ends_with
ends_with-split s t h =
    let e : drop (length s - length t) s ≡ t = text_eq→eq _ _ (ground arith) in
    ap (◌++◌ (take (length s - length t) s)) (sym e) ∙ take-append-drop (length s - length t) s

-- The take's text in front of the tail always survives a correction: the result is the text itself,
-- or its front with the correction behind it, where the tail was.
pub merge_tail_keeps_front :
    (s t corrected : Text)
    → (merge_tail_correction s (some t) corrected ≡ s)
      ⊎ ((p : Text) × (s ≡ p ++ t) × (merge_tail_correction s (some t) corrected ≡ p ++ corrected))
unfolding merge_tail_correction
merge_tail_keeps_front s t corrected = elim (Bool-cases (ends_with s t)) [
  | inl suffix ↦ inr (take (length s - length t) s, sym (ends_with-split s t suffix), rw suffix)
  | inr other ↦ inl (rw other)
]
