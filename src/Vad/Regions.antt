-- ===== src/Vad/Regions.antt =====
-- The regions that crates/idiolect-adapter-vad/src/lib.rs cuts out of the labelled frames.
use mathlib.Core.Path.{subst}
use idiolect.Common.{
  leb→le, zero, drop, ℕ, suc, ◌+◌, ◌-◌, ◌*◌, ◌≤◌, ◌<◌, ◌≡◌, refl, Bool, true, false, not, map, ◌&&◌,
  ◌||◌, Option, none, some, List, [], ◌∷◌, arith, leb, ltb, ◌==◌, length, drop, if◌then◌else◌, inl,
  inr, Bool-cases, length-take, length-drop,
}
use idiolect.Vad.{
  chunks_exact, Range, AudioSegment, speech_ranges_from, speech_ranges, merge_onto,
  merge_short_gaps, slice_audio_segment_by_frame, group_contiguous_speech_regions, minimum,
}

-- The label of a frame, the first one of the list being that of frame `i`.
abbrev pub labelled : ℕ → List Bool → ℕ → Bool
labelled i [] j = false
labelled i (b ∷ labels) j = if j == i then b else labelled (suc i) labels j

-- Whether one of the ranges holds the frame.
abbrev pub covers : List Range → ℕ → Bool
covers [] j = false
covers (r ∷ ranges) j = (leb r.0 j && ltb j r.1) || covers ranges j

-- The ranges are not empty and in order, the first begins at the bound or later, more than the gap
-- lies between two, and the last ends at the end or before.
abbrev pub Separated : ℕ → ℕ → ℕ → List Range → Type 0
Separated gap bound end [] = Unit {0}
Separated gap bound end (r ∷ ranges) =
    (bound ≤ r.0) × (r.0 < r.1) × (r.1 ≤ end) × Separated gap (r.1 + gap + 1) end ranges

abbrev pub open_at : Option ℕ → ℕ → ℕ → Bool
open_at none i j = false
open_at (some begin) i j = leb begin j && ltb j i

abbrev pub OpenedBefore : Option ℕ → ℕ → Type 0
OpenedBefore none i = Unit {0}
OpenedBefore (some begin) i = begin < i

labelled_before : (i : ℕ) (labels : List Bool) (j : ℕ) → j < i → labelled i labels j ≡ false
labelled_before i [] j h = refl
labelled_before i (b ∷ labels) j h = ground (arith, labelled_before (suc i) labels j)

covers-from :
    (start : Option ℕ) (i : ℕ) (labels : List Bool) (j : ℕ)
    → OpenedBefore start i
    → covers (speech_ranges_from start i labels) j ≡ (open_at start i j || labelled i labels j)
unfolding speech_ranges_from
covers-from none i [] j h = refl
covers-from (some begin) i [] j h = ground arith
covers-from none i (true ∷ labels) j h =
    ground
      (arith, covers-from (some i) (suc i) labels j (omega arith), labelled_before (suc i) labels j)
covers-from none i (false ∷ labels) j h =
    ground (arith, covers-from none (suc i) labels j tt, labelled_before (suc i) labels j)
covers-from (some begin) i (true ∷ labels) j h = ground (
  arith,
  covers-from (some begin) (suc i) labels j (omega arith),
  labelled_before (suc i) labels j,
)
covers-from (some begin) i (false ∷ labels) j h =
    ground (arith, covers-from none (suc i) labels j tt, labelled_before (suc i) labels j)

-- The ranges hold a frame exactly when the detector labelled it speech.
pub covers-speech_ranges :
    (labels : List Bool) (j : ℕ) → covers (speech_ranges labels) j ≡ labelled 0 labels j
unfolding speech_ranges
covers-speech_ranges labels j = covers-from none 0 labels j tt

Separated-le :
    (gap a b end : ℕ) (ranges : List Range)
    → a ≤ b
    → Separated gap b end ranges
    → Separated gap a end ranges
Separated-le gap a b end [] le h = tt
Separated-le gap a b end (r ∷ ranges) le h = (omega arith, h.1, h.2, h.3)

abbrev pub start_bound : Option ℕ → ℕ → ℕ
start_bound none i = i
start_bound (some begin) i = begin

Separated-from :
    (start : Option ℕ) (i : ℕ) (labels : List Bool) (bound end : ℕ)
    → OpenedBefore start i
    → bound ≤ start_bound start i
    → i + length labels ≡ end
    → Separated 0 bound end (speech_ranges_from start i labels)
unfolding speech_ranges_from
Separated-from none i [] bound end h le e = tt
Separated-from (some begin) i [] bound end h le e = (le, h, omega arith, tt)
Separated-from none i (true ∷ labels) bound end h le e =
    Separated-from (some i) (suc i) labels bound end (omega arith) le (omega arith)
Separated-from none i (false ∷ labels) bound end h le e =
    Separated-from none (suc i) labels bound end tt (omega arith) (omega arith)
Separated-from (some begin) i (true ∷ labels) bound end h le e =
    Separated-from (some begin) (suc i) labels bound end (omega arith) le (omega arith)
Separated-from (some begin) i (false ∷ labels) bound end h le e = (
  le,
  h,
  omega arith,
  Separated-from none (suc i) labels (i + 0 + 1) end tt (omega arith) (omega arith),
)

Separated-merge_onto :
    (r : Range) (ranges : List Range) (bound end : ℕ)
    → Separated 0 bound end (r ∷ ranges)
    → Separated 10 bound end (merge_onto r ranges)
unfolding merge_onto
Separated-merge_onto r [] bound end h = h
Separated-merge_onto r (q ∷ ranges) bound end h = elim (Bool-cases (leb (q.0 - r.1) 10)) [
  | inl near ↦
      rw near (Separated-merge_onto (r.0, q.1) ranges bound end (h.0, omega arith, h.3.2, h.3.3))
  | inr far ↦ rw far (
    h.0,
    h.1,
    h.2,
    Separated-merge_onto q ranges (r.1 + 10 + 1) end (ground arith, h.3.1, h.3.2, h.3.3),
  )
]

covers-merge_onto :
    (r : Range) (ranges : List Range) (j bound end : ℕ)
    → Separated 0 bound end (r ∷ ranges)
    → ((leb r.0 j && ltb j r.1) || covers ranges j) ≡ true
    → covers (merge_onto r ranges) j ≡ true
unfolding merge_onto
covers-merge_onto r [] j bound end s h = h
covers-merge_onto r (q ∷ ranges) j bound end s h = elim (Bool-cases (leb (q.0 - r.1) 10)) [
  | inl near ↦ rw near (
      covers-merge_onto (r.0, q.1) ranges j bound end (s.0, omega arith, s.3.2, s.3.3)
        (ground arith))
  | inr far ↦
      let rest =
        covers-merge_onto q ranges j (r.1 + 10 + 1) end (ground arith, s.3.1, s.3.2, s.3.3) in
      rw far (ground (arith, rest))
]

merge_short_gaps_from :
    (ranges : List Range) (j bound end : ℕ)
    → Separated 0 bound end ranges
    → ((not (covers ranges j) || covers (merge_short_gaps ranges) j) ≡ true)
      × Separated 10 bound end (merge_short_gaps ranges)
unfolding merge_short_gaps
merge_short_gaps_from [] j bound end h = (refl, tt)
merge_short_gaps_from (r ∷ ranges) j bound end h = (
  elim (Bool-cases ((leb r.0 j && ltb j r.1) || covers ranges j)) [
    | inl held ↦ rw (held, covers-merge_onto r ranges j bound end h held) refl
    | inr missing ↦ rw missing refl
  ],
  Separated-merge_onto r ranges bound end h,
)

-- Merging drops no frame that was labelled speech. The merged ranges are not empty, stay inside
-- the labelled frames, and more than 10 frames, which is 300 ms, lie between one and the next.
pub merge_short_gaps_lem :
    (labels : List Bool) (j : ℕ)
    → let merged = merge_short_gaps (speech_ranges labels) in
      ((not (labelled 0 labels j) || covers merged j) ≡ true)
      × Separated 10 0 (length labels) merged
unfolding speech_ranges
merge_short_gaps_lem labels j =
    let h =
      merge_short_gaps_from (speech_ranges labels) j 0 (length labels)
        (Separated-from none 0 labels 0 (length labels) tt (omega arith) (omega arith)) in
    (
      subst (λ b. (not b || covers (merge_short_gaps (speech_ranges labels)) j) ≡ true)
          (covers-speech_ranges labels j) h.0,
      h.1,
    )

-- How many samples the frames of a range have.
abbrev pub range_lengths : List Range → List ℕ
range_lengths [] = []
range_lengths (r ∷ ranges) = (r.1 - r.0) * 480 ∷ range_lengths ranges

module _ {F32 : Type 0} where
  -- How many samples a region of a range has.
  abbrev pub region_lengths : List (AudioSegment F32) → List ℕ
  region_lengths [] = []
  region_lengths (a ∷ regions) = length a.samples_f32_mono ∷ region_lengths regions

  slice_length :
      (audio : AudioSegment F32) (r : Range)
      → r.0 < r.1
      → r.1 * 480 ≤ length audio.samples_f32_mono
      → length (slice_audio_segment_by_frame audio r).samples_f32_mono ≡ (r.1 - r.0) * 480
  unfolding slice_audio_segment_by_frame
  slice_length audio r h le =
      let e : minimum (r.1 * 480) (length audio.samples_f32_mono) ≡ r.1 * 480 = ground arith in
      rw e (
        omega (
          arith,
          length-take (r.1 * 480 - r.0 * 480) (drop (r.0 * 480) audio.samples_f32_mono),
          length-drop (r.0 * 480) audio.samples_f32_mono,
        ))

  slices_lengths :
      (audio : AudioSegment F32) (ranges : List Range) (bound end : ℕ)
      → Separated 10 bound end ranges
      → end * 480 ≤ length audio.samples_f32_mono
      → region_lengths (map (slice_audio_segment_by_frame audio) ranges) ≡ range_lengths ranges
  slices_lengths audio [] bound end h le = refl
  slices_lengths audio (r ∷ ranges) bound end h le = cc (
    slice_length audio r h.1 (omega arith),
    slices_lengths audio ranges (r.1 + 10 + 1) end h.3 le,
  )

  -- Where the audio has a whole frame of 480 samples to every label, no region is cut at the end of
  -- the audio: each has 480 samples to each frame of its range.
  pub regions_lengths :
      (audio : AudioSegment F32) (labels : List Bool)
      → length labels * 480 ≤ length audio.samples_f32_mono
      → region_lengths (group_contiguous_speech_regions audio labels)
        ≡ range_lengths (merge_short_gaps (speech_ranges labels))
  unfolding group_contiguous_speech_regions
  regions_lengths audio labels le =
      slices_lengths audio (merge_short_gaps (speech_ranges labels)) 0 (length labels)
        (merge_short_gaps_lem labels 0).1 le

chunks_exact-length :
    {A : Type 0} (fuel : ℕ) (samples : List A)
    → length samples ≤ fuel
    → let n = length (chunks_exact fuel samples) in
      (n * 480 ≤ length samples) × (length samples < n * 480 + 480)
unfolding chunks_exact
chunks_exact-length zero samples le = (omega arith, omega arith)
chunks_exact-length (suc fuel) samples le = elim (Bool-cases (leb 480 (length samples))) [
  | inl whole ↦
      let big = leb→le 480 (length samples) whole in
      let (low, high) =
        chunks_exact-length fuel (drop 480 samples) (omega (arith, length-drop 480 samples)) in
      rw whole (omega (arith, length-drop 480 samples), omega (arith, length-drop 480 samples))
  | inr short ↦ rw short (omega arith, ground arith)
]

-- The fuel that `segment` gives is enough: all the whole frames of 480 samples are cut, and only a
-- remainder of less than a frame is left.
pub chunks_exact_lem :
    {A : Type 0} (samples : List A)
    → let n = length (chunks_exact (length samples) samples) in
      (n * 480 ≤ length samples) × (length samples < n * 480 + 480)
chunks_exact_lem samples = chunks_exact-length (length samples) samples (omega arith)
