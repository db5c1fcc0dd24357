-- ===== src/Segmentation/Only.antt =====
-- A recording of segmentation.rs has one list of snippets only: the description in Segmentation.Blocks
-- leaves no choice.
use mathlib.Core.Path.{subst}
use mathlib.Core.List.{append-nil}
use idiolect.Common.{
  ◌≤◌, ◌≡◌, refl, sym, ap, ◌∙◌, inl, inr, ◌↔◌, Bool, true, List, [], ◌∷◌, ◌++◌, arith, length,
  length-append, All, leb, Bool-cases,
}
use idiolect.Segmentation.{SegmenterConfig, new}
use idiolect.Segmentation.Blocks.{
  IsSilent, IsOver, Going, begun, goes_on, Ended, over, stopped, snippet_of, add_snippet, Partition,
  silence, utterance, record_all,
}
use idiolect.Segmentation.Partition.{record_all-Partition}

module _ {ℓ} {B : Type ℓ} where
  abbrev tail_of : List B → List B
  tail_of [] = []
  tail_of (x ∷ xs) = xs

  abbrev head_or : B → List B → B
  head_or d [] = d
  head_or d (x ∷ xs) = x

  -- Two cuts of a list: the shorter front begins the longer one.
  longer_front :
      (b b' w w' : List B)
      → b ++ w ≡ b' ++ w'
      → length b ≤ length b'
      → (r : List B) × (b' ≡ b ++ r) × (w ≡ r ++ w')
  longer_front [] b' w w' e l = (b', refl, e)
  longer_front (x ∷ b) [] w w' e l = absurd (omega arith)
  longer_front (x ∷ b) (y ∷ b') w w' e l =
      let (r, f, g) = longer_front b b' w w' (ap tail_of e) (omega arith) in
      (r, rw (sym (ap (head_or x) e), f) refl, g)

  same_cut : (b w w' : List B) → b ++ w ≡ b ++ w' → w ≡ w'
  same_cut [] w w' e = e
  same_cut (x ∷ b) w w' e = same_cut b w w' (ap tail_of e)

  -- A front of a list with one element more is the list, or a front of it.
  front-concat :
      (p r g : List B) (x : B) → g ++ x ∷ [] ≡ p ++ r → 1 ≤ length r → (r' : List B) × (g ≡ p ++ r')
  front-concat p r g x e l =
      let n = ap length e in
      let le : length p ≤ length g =
        omega (arith, n, length-append g (x ∷ []), length-append p r) in
      let (r', f, h) = longer_front p g r (x ∷ []) (sym e) le in (r', f)

module _ {ℓ} {A : Type ℓ} where
  nonempty : (c : SegmenterConfig) (b : List (List A × Bool)) → Going c b → 1 ≤ length b
  nonempty c b (begun f) = omega arith
  nonempty c b (goes_on x {b = g} h e n) = omega (arith, ap length e, length-append g (x ∷ []))

  -- No front of an utterance that is going on is over, from the second frame on.
  front-Going :
      (c : SegmenterConfig) (v p r : List (List A × Bool))
      → Going c v
      → v ≡ p ++ r
      → 2 ≤ length p
      → IsOver c p
      → ⊥
  front-Going c v p r (begun f) e l o = absurd (omega (arith, ap length e, length-append p r))
  front-Going c v p [] (goes_on x {b = g} h split n) e l o =
      n (subst (λ t. IsOver c t) (sym (e ∙ append-nil p)) o)
  front-Going c v p (y ∷ r) (goes_on x {b = g} h split n) e l o =
      let (r', f) = front-concat p (y ∷ r) g x (sym split ∙ e) (omega arith) in
      front-Going c g p r' h f l o

  -- An utterance that has ended was not over earlier.
  front-Ended :
      (c : SegmenterConfig) (b b' r w' : List (List A × Bool))
      → Ended c b' w'
      → b' ≡ b ++ r
      → 1 ≤ length r
      → 2 ≤ length b
      → IsOver c b
      → ⊥
  front-Ended c b b' r w' (over x {b = g} h split o') e pos l o =
      let (r', f) = front-concat b r g x (sym split ∙ e) pos in front-Going c g b r' h f l o
  front-Ended c b b' r w' (stopped h) e pos l o = front-Going c b' b r h e l o

  same-Ended :
      (c : SegmenterConfig) (b b' r w w' : List (List A × Bool))
      → Ended c b w
      → Ended c b' w'
      → b' ≡ b ++ r
      → w ≡ r ++ w'
      → b ≡ b'
  same-Ended c b b' [] w w' h h' e f = sym (e ∙ append-nil b)
  same-Ended c b b' (y ∷ r) w w' (over x {b = g} k split o) h' e f = absurd (
      front-Ended c b b' (y ∷ r) w' h' e (omega arith)
        (omega (arith, ap length split, length-append g (x ∷ []), nonempty c g k)) o)
  same-Ended c b b' (y ∷ r) w w' (stopped k) h' e f = absurd (omega (arith, ap length f))

  -- An utterance begins with speech.
  speech-Going :
      (c : SegmenterConfig) (b : List (List A × Bool))
      → Going c b
      → (f : List A) × (x : List (List A × Bool)) × (b ≡ (f, true) ∷ x)
  speech-Going c b (begun f) = (f, [], refl)
  speech-Going c b (goes_on x {b = g} h split n) =
      let (f, y, e) = speech-Going c g h in (f, y ++ x ∷ [], split ∙ ap (λ t. t ++ x ∷ []) e)

  speech-Ended :
      (c : SegmenterConfig) (b w : List (List A × Bool))
      → Ended c b w
      → (f : List A) × (x : List (List A × Bool)) × (b ++ w ≡ (f, true) ∷ x)
  speech-Ended c b w (over x {b = g} h split o) =
      let (f, y, e) = speech-Going c g h in
      (f, (y ++ x ∷ []) ++ w, ap (λ t. t ++ w) (split ∙ ap (λ t. t ++ x ∷ []) e))
  speech-Ended c b w (stopped h) =
      let (f, y, e) = speech-Going c b h in (f, y ++ [], ap (λ t. t ++ []) e)

  abbrev label : List (List A × Bool) → Bool
  label [] = true
  label ((f, l) ∷ v) = l

  -- Behind silence, the first speech is where it is.
  same-silence :
      (q q' x x' : List (List A × Bool)) (f f' : List A)
      → All IsSilent q
      → All IsSilent q'
      → q ++ (f, true) ∷ x ≡ q' ++ (f', true) ∷ x'
      → q ≡ q'
  same-silence [] [] x x' f f' h h' e = refl
  same-silence [] ((g, l) ∷ q') x x' f f' h h' e = let t : true ≡ l = ap label e in cc (t, h'.0)
  same-silence ((g, l) ∷ q) [] x x' f f' h h' e = let t : l ≡ true = ap label e in cc (t, h.0)
  same-silence (y ∷ q) (z ∷ q') x x' f f' h h' e =
      rw (ap (head_or y) e) (ap (λ t. z ∷ t) (same-silence q q' x x' f f' h.1 h'.1 (ap tail_of e)))

  never-silent :
      (q q' x : List (List A × Bool)) (f : List A) → All IsSilent q → q ≡ q' ++ (f, true) ∷ x → ⊥
  never-silent [] [] x f h e = absurd (omega (arith, ap length e))
  never-silent [] (y ∷ q') x f h e = absurd (omega (arith, ap length e))
  never-silent ((g, l) ∷ q) [] x f h e = let t : l ≡ true = ap label e in cc (t, h.0)
  never-silent (y ∷ q) (z ∷ q') x f h e = never-silent q q' x f h.1 (ap tail_of e)

  same-block :
      (c : SegmenterConfig) (b b' w w' : List (List A × Bool))
      → Ended c b w
      → Ended c b' w'
      → b ++ w ≡ b' ++ w'
      → b ≡ b'
  same-block c b b' w w' k k' e = elim (Bool-cases (leb (length b) (length b'))) [
    | inl short ↦
        let (r, f, g) = longer_front b b' w w' e (ground arith) in same-Ended c b b' r w w' k k' f g
    | inr long ↦
        let (r, f, g) = longer_front b' b w' w (sym e) (ground arith) in
        sym (same-Ended c b' b r w' w k' k f g)
  ]

  -- Two descriptions of a recording are the same one, cut by cut.
  same-Partition :
      (c : SegmenterConfig) (v v' : List (List A × Bool)) (ss ss' : List (List A))
      → v ≡ v'
      → Partition c v ss
      → Partition c v' ss'
      → ss ≡ ss'
  same-Partition c v v' ss ss' e (silence h) (silence h') = refl
  same-Partition c v v' ss ss' e (silence h) (utterance q b {w = w} h' k split p r) =
      let (f, x, s) = speech-Ended c b w k in
      absurd (never-silent v q x f h (e ∙ split ∙ ap (λ t. q ++ t) s))
  same-Partition c v v' ss ss' e (utterance q b {w = w} h k split p r) (silence h') =
      let (f, x, s) = speech-Ended c b w k in
      absurd (never-silent v' q x f h' (sym e ∙ split ∙ ap (λ t. q ++ t) s))
  same-Partition c v v' ss ss' e (utterance q b {w = w} {ss = rest} h k split p r)
        (utterance q' b' {w = w'} {ss = rest'} h' k' split' p' r') =
      let (f, x, s) = speech-Ended c b w k in
      let (f', x', s') = speech-Ended c b' w' k' in
      let whole : q ++ (b ++ w) ≡ q' ++ (b' ++ w') = sym split ∙ e ∙ split' in
      let same_q : q ≡ q' =
        same-silence q q' x x' f f' h h'
          (ap (λ t. q ++ t) (sym s) ∙ whole ∙ ap (λ t. q' ++ t) s') in
      let behind : b ++ w ≡ b' ++ w' =
        same_cut q' (b ++ w) (b' ++ w') (ap (λ t. t ++ (b ++ w)) (sym same_q) ∙ whole) in
      let same_b : b ≡ b' = same-block c b b' w w' k k' behind in
      let same_w : w ≡ w' = same_cut b' w w' (ap (λ t. t ++ w) (sym same_b) ∙ behind) in
      r
      ∙ ap (λ t. add_snippet (snippet_of c t b) rest) same_q
      ∙ ap (λ t. add_snippet (snippet_of c q' t) rest) same_b
      ∙ ap (λ t. add_snippet (snippet_of c q' b') t) (same-Partition c w w' rest rest' same_w p p')
      ∙ sym r'

  -- A list of snippets is what a fresh segmenter emits for the labelled frames of a recording, the
  -- flush at the stop included, exactly when it has the snippets of the recording's utterances, in
  -- order. An utterance begins with the first speech after the silence, and ends with the first later
  -- frame after which the silence at its end lasts for the post-roll or its frames for the maximum, or
  -- with the recording. Its snippet is the last silent frames before it, as many as the pre-roll
  -- takes, and all its frames; it is left out if the utterance's speech is shorter than the least.
  pub record_all_iff :
      (c : SegmenterConfig) (i : List (List A × Bool)) (ss : List (List A))
      → Partition c i ss ↔ (ss ≡ record_all (new c) i)
  record_all_iff c i ss = (
    λ p. same-Partition c i i ss (record_all (new c) i) refl p (record_all-Partition c i),
    λ e. subst (λ t. Partition c i t) (sym e) (record_all-Partition c i),
  )
