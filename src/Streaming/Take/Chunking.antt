-- ===== src/Streaming/Take/Chunking.antt =====
-- ingest of streaming.rs: how the capture is split into drains does not matter, and when silence
-- ends the take.
use mathlib.Core.List.{append-nil}
use idiolect.Common.{
  ◌+◌, ◌*◌, ◌≡◌, refl, sym, ap, ◌∙◌, Bool, true, false, Option, none, some, List, [], ◌∷◌, ◌++◌,
  arith, length, ◌==◌, leb, if◌then◌else◌,
}
use idiolect.Segmentation.{FrameBuffer, push}
use idiolect.Segmentation.Frames.{push-append}
use idiolect.Streaming.Take.{
  StreamingTake, keep_snippet, take_frame, ingest_frames, ingest, auto_stop_due,
  stream_frame_samples, stream_frame_ms,
}

keep_snippet-append {ℓ} :
    {A : Type ℓ} (o : Option (List A)) (ss rs : List (List A))
    → keep_snippet o (ss ++ rs) ≡ keep_snippet o ss ++ rs
keep_snippet-append none ss rs = refl
keep_snippet-append (some s) ss rs = refl

module _ {ℓ κ} {A : Type ℓ} {V : Type κ} (is_speech : V → List A → V × Bool) where
  abbrev with_frames : FrameBuffer A → StreamingTake A → StreamingTake A
  with_frames b t = record t { frames = b }

  -- The frames loop neither reads nor writes the frame buffer.
  ingest_frames-with :
      (fs : List (List A)) (v : V) (t : StreamingTake A) (b : FrameBuffer A)
      → ingest_frames is_speech v (record t { frames = b }) fs
        ≡ (let (v', t', ss) = ingest_frames is_speech v t fs in (v', record t' { frames = b }, ss))
  unfolding ingest_frames take_frame
  ingest_frames-with [] v t b = refl
  ingest_frames-with (f ∷ fs) v t b =
      let (v', speech) = is_speech v f in
      let (t', o) = take_frame t f speech in
      ap (λ r. (r.0, r.1, keep_snippet o r.2)) (ingest_frames-with fs v' t' b)

  ingest_frames-append :
      (fs gs : List (List A)) (v : V) (t : StreamingTake A)
      → ingest_frames is_speech v t (fs ++ gs) ≡ (
          let (v', t', ss) = ingest_frames is_speech v t fs in
          let (v'', t'', rs) = ingest_frames is_speech v' t' gs in (v'', t'', ss ++ rs))
  unfolding ingest_frames take_frame
  ingest_frames-append [] gs v t = refl
  ingest_frames-append (f ∷ fs) gs v t =
      let (v', speech) = is_speech v f in
      let (t', o) = take_frame t f speech in
      let (w, u, ss) = ingest_frames is_speech v' t' fs in
      let (w', u', rs) = ingest_frames is_speech w u gs in
      ap (λ r. (r.0, r.1, keep_snippet o r.2)) (ingest_frames-append fs gs v' t')
      ∙ ap (λ z. (w', u', z)) (keep_snippet-append o ss rs)

  ingest_frames-frames :
      (fs : List (List A)) (v : V) (t : StreamingTake A)
      → (ingest_frames is_speech v t fs).1.frames ≡ t.frames
  ingest_frames-frames fs v t = ap (λ r. r.1.frames) (ingest_frames-with fs v t t.frames)

  abbrev then_frames :
      List (List A) → V × StreamingTake A × List (List A) → V × StreamingTake A × List (List A)
  then_frames gs r = let (w, u, rs) = ingest_frames is_speech r.0 r.1 gs in (w, u, r.2 ++ rs)

  abbrev after_first :
      V × StreamingTake A × List (List A)
      → FrameBuffer A × List (List A)
      → V × StreamingTake A × List (List A)
  after_first r p = then_frames p.1 (r.0, record (r.1) { frames = p.0 }, r.2)

  both_drains :
      (v : V) (t : StreamingTake A) (x y : A) (xs ys : List A)
      → ingest is_speech v t ((x ∷ xs) ++ y ∷ ys) ≡ (
          let (v', t', ss) = ingest is_speech v t (x ∷ xs) in
          let (v'', t'', rs) = ingest is_speech v' t' (y ∷ ys) in (v'', t'', ss ++ rs))
  unfolding ingest
  both_drains v t x y xs ys =
      let n = stream_frame_samples in
      let (b, fs) = push t.frames (x ∷ xs) n in
      let (b', gs) = push b (y ∷ ys) n in
      let first = ingest_frames is_speech v (record t { frames = b }) fs in
      let second = λ (c : FrameBuffer A). after_first first (push c (y ∷ ys) n) in
      ap (λ p. ingest_frames is_speech v (record t { frames = p.0 }) p.1)
        (push-append t.frames (x ∷ xs) (y ∷ ys) n (omega arith))
      ∙ ingest_frames-append fs gs v (record t { frames = b' })
      ∙ ap (then_frames gs) (ingest_frames-with fs v (record t { frames = b }) b')
      ∙ ap second (sym (ingest_frames-frames fs v (record t { frames = b })))

  -- Splitting a capture into drains changes nothing: two calls of `ingest` leave the take and the
  -- detector as one call on all the samples, and complete the same snippets in the same order.
  pub ingest-append :
      (v : V) (t : StreamingTake A) (xs ys : List A)
      → ingest is_speech v t (xs ++ ys) ≡ (
          let (v', t', ss) = ingest is_speech v t xs in
          let (v'', t'', rs) = ingest is_speech v' t' ys in (v'', t'', ss ++ rs))
  unfolding ingest
  ingest-append v t [] ys = refl
  ingest-append v t (x ∷ xs) [] =
      ap (λ z. ingest is_speech v t (x ∷ z)) (append-nil xs)
      ∙ (let (w, u, ss) = ingest is_speech v t (x ∷ xs) in
          ap (λ z. (w, u, z)) (sym (append-nil ss)))
  ingest-append v t (x ∷ xs) (y ∷ ys) = both_drains v t x y xs ys

-- The detector that hears only silence.
abbrev pub hears_silence {ℓ} : {A : Type ℓ} → Unit {0} → List A → Unit {0} × Bool
hears_silence v f = (v, false)

module _ {ℓ} {A : Type ℓ} where
  silent_frames :
      (fs : List (List A)) (t : StreamingTake A)
      → let u = (ingest_frames hears_silence tt t fs).1 in
        (u.spoke ≡ t.spoke)
        × (u.auto_stop_silence_ms ≡ t.auto_stop_silence_ms)
        × (u.silence_frames_since_speech ≡ t.silence_frames_since_speech + length fs)
  unfolding ingest_frames take_frame
  silent_frames [] t = (refl, refl, omega arith)
  silent_frames (f ∷ fs) t =
      let (a, b, c) = silent_frames fs (take_frame t f false).0 in (a, b, omega (arith, c))

  -- Silence ends a take exactly when it has lasted `auto_stop_silence_ms` since the last frame of
  -- speech, whatever came before that frame; a threshold of 0 never ends it.
  pub auto_stop-silence :
      (t : StreamingTake A) (f : List A) (fs : List (List A))
      → let u = (ingest_frames hears_silence tt (take_frame t f true).0 fs).1 in
        auto_stop_due u ≡ (
          if t.auto_stop_silence_ms == 0
          then false
          else leb t.auto_stop_silence_ms (length fs * stream_frame_ms))
  unfolding auto_stop_due take_frame
  auto_stop-silence t f fs = ground (arith, silent_frames fs (take_frame t f true).0)

  -- Before its first speech a take is never ended by silence.
  pub auto_stop-unspoken :
      (t : StreamingTake A) (fs : List (List A))
      → t.spoke ≡ false
      → auto_stop_due (ingest_frames hears_silence tt t fs).1 ≡ false
  unfolding auto_stop_due
  auto_stop-unspoken t fs h = ground (arith, silent_frames fs t)
