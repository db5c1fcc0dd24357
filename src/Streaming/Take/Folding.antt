-- ===== src/Streaming/Take/Folding.antt =====
-- fold_snippet of streaming.rs: the text of a snippet, and merge_tail_correction after it.
use mathlib.Core.List.{append_assoc}
use mathlib.Core.Path.{subst}
use idiolect.Common.{
  ℕ, ◌≡◌, refl, Bool, Option, none, some, List, [], ◌∷◌, ◌++◌, arith, inl, inr, Bool-cases,
}
use idiolect.Text.{Text}
use idiolect.Streaming.Decisions.{trim, snippet_chunk, merge_tail_correction}
use idiolect.Streaming.Decisions.Tail.{merge_tail-append}
use idiolect.Streaming.Take.{
  Decode, decoded, failed, Notice, StreamingTake, is_notified, first_error_this_take, fold_chunk,
  fold_decode, fold_snippet,
}

-- The last snippet's text ends the take's text.
abbrev pub EndsIn : Text → Option Text → Type 0
EndsIn m none = m ≡ []
EndsIn m (some t) = (p : Text) × (m ≡ p ++ t)

-- The chunk that a usable snippet contributes ends in its trimmed text.
chunk-EndsIn :
    (is_alphanumeric : ℕ → Bool) (m text chunk : Text)
    → snippet_chunk is_alphanumeric m text ≡ some chunk
    → (p : Text) × (m ++ chunk ≡ p ++ trim text)
unfolding snippet_chunk
chunk-EndsIn is_alphanumeric [] text chunk e = ([], ground arith)
chunk-EndsIn is_alphanumeric (c ∷ m) text chunk e =
    ((c ∷ m) ++ b' ' ∷ [], ground (arith, append_assoc (c ∷ m) (b' ' ∷ []) (trim text)))

module _ {ℓ κ ι} {A : Type ℓ} {T : Type κ} {O : Type ι} {E : Type 0} (is_alphanumeric : ℕ → Bool)
    (transcribe : T → List A → T × Decode) (notify : O → Notice → O × Option E) where
  fold_chunk-EndsIn :
      (chunk : Option Text) (text : Text) (o : O) (t : StreamingTake A)
      → snippet_chunk is_alphanumeric t.merged_text text ≡ chunk
      → EndsIn t.merged_text t.last_snippet_text
      → let u = (fold_chunk is_alphanumeric transcribe notify chunk text o t).1 in
        EndsIn u.merged_text u.last_snippet_text
  unfolding fold_chunk
  fold_chunk-EndsIn none text o t e h = h
  fold_chunk-EndsIn (some chunk) text o t e h =
      chunk-EndsIn is_alphanumeric t.merged_text text chunk e

  fold_decode-EndsIn :
      (d : Decode) (snippet : List A) (o : O) (t : StreamingTake A)
      → EndsIn t.merged_text t.last_snippet_text
      → let u = (fold_decode is_alphanumeric transcribe notify d snippet o t).1 in
        EndsIn u.merged_text u.last_snippet_text
  unfolding fold_decode first_error_this_take
  fold_decode-EndsIn (failed c m) snippet o t h =
      elim (Bool-cases (is_notified t.notified_error c)) [
        | inl old ↦ rw (old, first_error_this_take) h
        | inr fresh ↦ rw (fresh, first_error_this_take) h
      ]
  fold_decode-EndsIn (decoded text) snippet o t h =
      fold_chunk-EndsIn (snippet_chunk is_alphanumeric t.merged_text text) text o _ refl h

  -- Whatever is decoded, the last snippet's text stays the end of the take's text.
  fold_snippet-EndsIn :
      (s : T) (o : O) (t : StreamingTake A) (snippet : List A)
      → EndsIn t.merged_text t.last_snippet_text
      → let u = (fold_snippet is_alphanumeric transcribe notify s o t snippet).1.1 in
        EndsIn u.merged_text u.last_snippet_text
  unfolding fold_snippet
  fold_snippet-EndsIn s o t snippet h = fold_decode-EndsIn (transcribe s snippet).1 snippet o t h

  -- Where a take's last snippet ends its text and a fold leaves some snippet the last, a
  -- correction of that snippet replaces it and nothing else: the take's text is some front with
  -- the snippet behind it, and becomes that front with the correction behind it.
  pub fold-merge_tail :
      (s : T) (o : O) (t : StreamingTake A) (snippet : List A) (x corrected : Text)
      → EndsIn t.merged_text t.last_snippet_text
      → (fold_snippet is_alphanumeric transcribe notify s o t snippet).1.1.last_snippet_text
        ≡ some x
      → let u = (fold_snippet is_alphanumeric transcribe notify s o t snippet).1.1 in
        (p : Text) × (u.merged_text ≡ p ++ x)
        × (merge_tail_correction u.merged_text u.last_snippet_text corrected ≡ p ++ corrected)
  fold-merge_tail s o t snippet x corrected h e =
      let u = (fold_snippet is_alphanumeric transcribe notify s o t snippet).1.1 in
      let (p, q) = subst (EndsIn u.merged_text) e (fold_snippet-EndsIn s o t snippet h) in
      (p, q, rw (q, e) (merge_tail-append p x corrected))
