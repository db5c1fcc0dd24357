-- ===== src/Segmentation/Frames.antt =====
-- Re-chunking: FrameBuffer::push of segmentation.rs.
use mathlib.Core.List.{flatten, append_assoc}
use native.Mathlib.Nat.{
  div-add-mod', mod-lt, zero-add, suc-add, suc-mul, zero-mul, add_comm, add-mul, mul-add-div_right,
}
use idiolect.Common.{
  drop-drop, ℕ, zero, suc, ◌+◌, ◌-◌, ◌*◌, ◌/◌, ◌<◌, ◌≤◌, ◌≡◌, refl, sym, ap, ◌∙◌, List, ◌∷◌, ◌++◌,
  arith, length, take, drop, length-append, length-take, length-drop, take-append-drop,
  take-append_le, drop-append_le, All,
}
use idiolect.Segmentation.{FrameBuffer, cut_frames, push}

complete_le : (n fs : ℕ) → n / fs * fs ≤ n
complete_le n fs = omega (arith, div-add-mod' n fs)

complete-append : (n m fs : ℕ) → 0 < fs → (n + m) / fs ≡ n / fs + (n - n / fs * fs + m) / fs
complete-append n m fs h =
    ap (λ t. t / fs) (omega (arith, div-add-mod' n fs))
    ∙ mul-add-div_right h (n / fs) (n - n / fs * fs + m)

module _ {ℓ} {A : Type ℓ} where
  drop-next : (i fs : ℕ) (xs : List A) → drop (suc i * fs) xs ≡ drop (i * fs) (drop fs xs)
  drop-next i fs xs = rw (suc-mul, add_comm (i * fs) fs) (sym (drop-drop (i * fs) fs xs))

  -- The cuts from the next index are those of what follows the first frame.
  cut_frames-suc :
      (n i fs : ℕ) (xs : List A) → cut_frames n (suc i) fs xs ≡ cut_frames n i fs (drop fs xs)
  unfolding cut_frames
  cut_frames-suc zero i fs xs = refl
  cut_frames-suc (suc n) i fs xs = cc (drop-next i fs xs, cut_frames-suc n (suc i) fs xs)

  cut_frames-zero : (fs : ℕ) (xs : List A) → take fs (drop (0 * fs) xs) ≡ take fs xs
  cut_frames-zero fs xs = rw zero-mul refl

  flatten-cut_frames :
      (n fs : ℕ) (xs : List A) → flatten (cut_frames n 0 fs xs) ++ drop (n * fs) xs ≡ xs
  unfolding cut_frames flatten
  flatten-cut_frames zero fs xs = rw zero-mul refl
  flatten-cut_frames (suc n) fs xs =
      rw (cut_frames-zero fs xs, cut_frames-suc n 0 fs xs, drop-next n fs xs)
        (append_assoc (take fs xs) _ _
          ∙ ap (◌++◌ (take fs xs)) (flatten-cut_frames n fs (drop fs xs))
          ∙ take-append-drop fs xs)

  cut_frames-add :
      (n m fs : ℕ) (xs : List A)
      → cut_frames (n + m) 0 fs xs ≡ cut_frames n 0 fs xs ++ cut_frames m 0 fs (drop (n * fs) xs)
  unfolding cut_frames
  cut_frames-add zero m fs xs = rw (zero-add, zero-mul) refl
  cut_frames-add (suc n) m fs xs =
      rw
        (
          suc-add,
          cut_frames-zero fs xs,
          cut_frames-suc (n + m) 0 fs xs,
          cut_frames-suc n 0 fs xs,
          drop-next n fs xs,
        )
        (ap (◌∷◌ (take fs xs)) (cut_frames-add n m fs (drop fs xs)))

  -- Frames that lie within the front of a list do not see what follows.
  cut_frames-append :
      (n fs : ℕ) (xs ys : List A)
      → n * fs ≤ length xs
      → cut_frames n 0 fs (xs ++ ys) ≡ cut_frames n 0 fs xs
  unfolding cut_frames
  cut_frames-append zero fs xs ys h = refl
  cut_frames-append (suc n) fs xs ys h =
      rw
        (
          cut_frames-zero fs xs,
          cut_frames-zero fs (xs ++ ys),
          cut_frames-suc n 0 fs xs,
          cut_frames-suc n 0 fs (xs ++ ys),
          take-append_le fs xs ys (omega (arith, suc-mul n fs)),
          drop-append_le fs xs ys (omega (arith, suc-mul n fs)),
        )
        (ap (◌∷◌ (take fs xs))
          (cut_frames-append n fs (drop fs xs) ys (omega (arith, suc-mul n fs, length-drop fs xs))))

  cut_frames-length :
      (n fs : ℕ) (xs : List A)
      → n * fs ≤ length xs
      → All (λ f. length f ≡ fs) (cut_frames n 0 fs xs)
  unfolding cut_frames
  cut_frames-length zero fs xs h = tt
  cut_frames-length (suc n) fs xs h =
      rw (cut_frames-zero fs xs, cut_frames-suc n 0 fs xs)
        (
          omega (arith, suc-mul n fs, length-take fs xs),
          cut_frames-length n fs (drop fs xs) (omega (arith, suc-mul n fs, length-drop fs xs)),
        )

  push_lem :
      (b : FrameBuffer A) (xs : List A) (fs : ℕ)
      → 0 < fs
      → push b xs fs ≡ (
        record { pending = drop (length (b.pending ++ xs) / fs * fs) (b.pending ++ xs) },
        cut_frames (length (b.pending ++ xs) / fs) 0 fs (b.pending ++ xs),
      )
  unfolding push
  push_lem b xs fs h = ground arith

  -- For a frame size other than 0, no sample is lost, repeated or moved: the frames and then the
  -- remainder are what was pending and then the samples pushed.
  pub push-flatten :
      (b : FrameBuffer A) (xs : List A) (fs : ℕ)
      → 0 < fs
      → flatten (push b xs fs).1 ++ (push b xs fs).0.pending ≡ b.pending ++ xs
  push-flatten b xs fs h =
      rw (push_lem b xs fs h)
        (flatten-cut_frames (length (b.pending ++ xs) / fs) fs (b.pending ++ xs))

  -- For a frame size other than 0, every frame has exactly that size, and less than a frame stays
  -- pending.
  pub push_lengths :
      (b : FrameBuffer A) (xs : List A) (fs : ℕ)
      → 0 < fs
      → All (λ f. length f ≡ fs) (push b xs fs).1 × (length (push b xs fs).0.pending < fs)
  push_lengths b xs fs h =
      let p = b.pending ++ xs in
      rw (push_lem b xs fs h) (
        cut_frames-length (length p / fs) fs p (complete_le (length p) fs),
        omega (
          arith,
          length-drop (length p / fs * fs) p,
          div-add-mod' (length p) fs,
          mod-lt (length p) h,
        ),
      )

  complete_count :
      (p ys : List A) (fs : ℕ)
      → 0 < fs
      → length (p ++ ys) / fs ≡ length p / fs + length (drop (length p / fs * fs) p ++ ys) / fs
  complete_count p ys fs h =
      rw
        (
          length-append p ys,
          length-append (drop (length p / fs * fs) p) ys,
          length-drop (length p / fs * fs) p,
        )
        (complete-append (length p) (length ys) fs h)

  remainder-append :
      (p ys : List A) (n m fs : ℕ)
      → n * fs ≤ length p
      → drop ((n + m) * fs) (p ++ ys) ≡ drop (m * fs) (drop (n * fs) p ++ ys)
  remainder-append p ys n m fs h =
      rw (add-mul n m fs, ← drop-drop (m * fs) (n * fs) (p ++ ys), drop-append_le (n * fs) p ys h)

  frames-append :
      (p ys : List A) (n m fs : ℕ)
      → n * fs ≤ length p
      → cut_frames (n + m) 0 fs (p ++ ys)
        ≡ cut_frames n 0 fs p ++ cut_frames m 0 fs (drop (n * fs) p ++ ys)
  frames-append p ys n m fs h = rw (
    cut_frames-add n m fs (p ++ ys),
    drop-append_le (n * fs) p ys h,
    cut_frames-append n fs p ys h,
  )

  -- For a frame size other than 0, how a capture is split into drains does not matter: two pushes
  -- give the frames and the remainder of one push of both.
  pub push-append :
      (b : FrameBuffer A) (xs ys : List A) (fs : ℕ)
      → 0 < fs
      → push b (xs ++ ys) fs
        ≡ ((push (push b xs fs).0 ys fs).0, (push b xs fs).1 ++ (push (push b xs fs).0 ys fs).1)
  push-append b xs ys fs h =
      let p = b.pending ++ xs in
      let n = length p / fs in
      let q = drop (n * fs) p ++ ys in
      let le = complete_le (length p) fs in
      rw (push_lem b xs fs h) (
        rw
          (
            push_lem b (xs ++ ys) fs h,
            push_lem _ ys fs h,
            ← append_assoc b.pending xs ys,
            complete_count p ys fs h,
          )
          (cc (
            remainder-append p ys n (length q / fs) fs le,
            frames-append p ys n (length q / fs) fs le,
          )))
