-- ===== src/Segmentation/Durations.antt =====
-- frames_for of segmentation.rs against durations in milliseconds.
use native.Mathlib.Nat.{div-add-mod', div-lt_iff_lt-mul, div-le_of_le-mul, mul-div_cancel, mul_comm}
use idiolect.Common.{
  ℕ, ◌*◌, ◌/◌, ◌%◌, ◌<◌, ◌≤◌, ◌≡◌, ap, ◌∙◌, inl, inr, arith, ltb, ◌==◌, Bool-cases,
}
use idiolect.Segmentation.{SegmenterConfig, max_one, div_ceil, frames_for}

-- So many frames are enough for a duration exactly when they last as long.
pub frames_for-enough :
    (c : SegmenterConfig) (ms n : ℕ) → frames_for c ms ≤ n → ms ≤ n * max_one c.frame_ms
unfolding frames_for div_ceil
frames_for-enough c ms n h =
    let m = max_one c.frame_ms in
    let pos : 0 < m = ground arith in
    elim (Bool-cases (ltb 0 (ms % m))) [
      | inl more ↦
          let below : ms / m < n = ground arith in omega (arith, (div-lt_iff_lt-mul pos).0 below)
      | inr exact ↦
          let fits : ms / m ≤ n = ground arith in
          let nothing : ms % m ≡ 0 = ground arith in grind (arith, div-add-mod' ms m, fits, nothing)
    ]

pub frames_for-needed :
    (c : SegmenterConfig) (ms n : ℕ) → ms ≤ n * max_one c.frame_ms → frames_for c ms ≤ n
unfolding frames_for div_ceil
frames_for-needed c ms n h =
    let m = max_one c.frame_ms in
    let pos : 0 < m = ground arith in
    let fits : ms / m ≤ n = div-le_of_le-mul m (rw (mul_comm m n) h) in
    elim (Bool-cases (ms == n * m)) [
      | inl same ↦
          let e : ms ≡ n * m = ground arith in
          let q : ms / m ≡ n = ap (λ k. k / m) e ∙ mul-div_cancel n pos in
          let nothing : ms % m ≡ 0 = omega (arith, div-add-mod' ms m, e, ap (λ k. k * m) q) in
          ground (arith, fits, nothing)
      | inr other ↦
          let short : ms < n * m = ground arith in
          let below : ms / m < n = (div-lt_iff_lt-mul pos).1 short in ground (arith, below)
    ]
