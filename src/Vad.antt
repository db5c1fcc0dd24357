-- ===== src/Vad.antt =====
-- crates/idiolect-adapter-vad/src/lib.rs. The WebRTC detector is a parameter: a state, the label it
-- gives a frame (or its refusal), and the state after. A sample is an element of any type, and its
-- conversion to 16 bits a parameter. The error's Display is not modelled.
pub mod Regions
mod Examples
use idiolect.Common.{
  ℕ, zero, suc, ◌+◌, ◌-◌, ◌*◌, ◌/◌, Bool, true, false, Option, none, some, List, [], ◌∷◌, map, leb,
  ltb, ◌==◌, length, take, drop, if◌then◌else◌, ◌⊎◌, inl, inr,
}

abbrev pub frame_sample_count : ℕ
frame_sample_count = 480

abbrev pub max_merge_gap_frames : ℕ
max_merge_gap_frames = 10

pub data VadAdapterError : Type 0 where
  unsupported_sample_rate unsupported_channels : ℕ → ℕ → VadAdapterError
  backend_frame_rejected : VadAdapterError

pub record AudioSegment (F32 : Type 0) : Type 0 where
  pub sample_rate_hz : ℕ
  pub channels : ℕ
  pub duration_ms : ℕ
  pub samples_f32_mono : List F32

abbrev pub Range : Type 0
Range = ℕ × ℕ

-- The first loop of `group_contiguous_speech_regions` and the push behind it, from a frame on.
unfoldable pub speech_ranges_from : Option ℕ → ℕ → List Bool → List Range
speech_ranges_from none i [] = []
speech_ranges_from (some begin) i [] = (begin, i) ∷ []
speech_ranges_from none i (true ∷ labels) = speech_ranges_from (some i) (suc i) labels
speech_ranges_from none i (false ∷ labels) = speech_ranges_from none (suc i) labels
speech_ranges_from (some begin) i (true ∷ labels) = speech_ranges_from (some begin) (suc i) labels
speech_ranges_from (some begin) i (false ∷ labels) =
    (begin, i) ∷ speech_ranges_from none (suc i) labels

unfoldable pub speech_ranges : List Bool → List Range
speech_ranges labels = speech_ranges_from none 0 labels

-- The loop of `merge_short_gaps` with the last range of `merged` at hand.
unfoldable pub merge_onto : Range → List Range → List Range
merge_onto last [] = last ∷ []
merge_onto last (r ∷ ranges) =
    if leb (r.0 - last.1) max_merge_gap_frames
    then merge_onto (last.0, r.1) ranges
    else last ∷ merge_onto r ranges

unfoldable pub merge_short_gaps : List Range → List Range
merge_short_gaps [] = []
merge_short_gaps (r ∷ ranges) = merge_onto r ranges

abbrev pub minimum : ℕ → ℕ → ℕ
minimum a b = if leb a b then a else b

module _ {F32 : Type 0} where
  unfoldable pub validate_audio : AudioSegment F32 → Unit {0} ⊎ VadAdapterError
  validate_audio audio =
      if audio.sample_rate_hz == 16000
      then if audio.channels == 1 then inl tt else inr (unsupported_channels 1 audio.channels)
      else inr (unsupported_sample_rate 16000 audio.sample_rate_hz)

  -- A range of samples that is out of order or reaches past the end panics in the source; here it
  -- is cut.
  unfoldable pub slice_audio_segment_by_frame : AudioSegment F32 → Range → AudioSegment F32
  slice_audio_segment_by_frame audio r =
      let start = r.0 * frame_sample_count in
      let end = minimum (r.1 * frame_sample_count) (length audio.samples_f32_mono) in
      let samples = take (end - start) (drop start audio.samples_f32_mono) in
      record audio {
        duration_ms = length samples * 1000 / audio.sample_rate_hz;
        samples_f32_mono = samples;
      }

  unfoldable pub group_contiguous_speech_regions :
      AudioSegment F32 → List Bool → List (AudioSegment F32)
  group_contiguous_speech_regions audio labels =
      map (slice_audio_segment_by_frame audio) (merge_short_gaps (speech_ranges labels))

-- `chunks_exact`, on enough fuel.
unfoldable pub chunks_exact {ℓ} : {A : Type ℓ} → ℕ → List A → List (List A)
chunks_exact zero samples = []
chunks_exact (suc fuel) samples =
    let rest = chunks_exact fuel (drop frame_sample_count samples) in
    if leb frame_sample_count (length samples) then take frame_sample_count samples ∷ rest else []

module _ {F32 I16 Detector : Type 0} (to_i16 : F32 → I16) (new_detector : Detector)
    (is_voice_segment : Detector → List I16 → Detector × Option Bool) where
  unfoldable pub is_speech_frame : Detector → List F32 → Detector × (Bool ⊎ VadAdapterError)
  is_speech_frame detector frame =
      if length frame == frame_sample_count
      then (let (after, label) = is_voice_segment detector (map to_i16 frame) in
          (after, elim label [ none ↦ inr backend_frame_rejected | some b ↦ inl b ]))
      else (detector, inr backend_frame_rejected)

  label_with :
      Option Bool → Detector × Option (List Bool) → Detector → Detector × Option (List Bool)
  label_with none rest after = (after, none)
  label_with (some b) (final, none) after = (final, none)
  label_with (some b) (final, some labels) after = (final, some (b ∷ labels))

  -- The labels of the frames, up to the first that is refused.
  unfoldable pub label_frames : Detector → List (List I16) → Detector × Option (List Bool)
  unfolding label_with
  label_frames detector [] = (detector, some [])
  label_frames detector (frame ∷ frames) =
      let (after, label) = is_voice_segment detector frame in
      label_with label (label_frames after frames) after

  segmented :
      AudioSegment F32
      → Detector × Option (List Bool)
      → Detector × (List (AudioSegment F32) ⊎ VadAdapterError)
  segmented audio (detector, none) = (detector, inr backend_frame_rejected)
  segmented audio (detector, some labels) =
      (detector, inl (group_contiguous_speech_regions audio labels))

  segment_checked :
      Unit {0} ⊎ VadAdapterError
      → Detector
      → AudioSegment F32
      → Detector × (List (AudioSegment F32) ⊎ VadAdapterError)
  unfolding segmented
  segment_checked (inr e) detector audio = (detector, inr e)
  segment_checked (inl ok) detector audio =
      let samples = map to_i16 audio.samples_f32_mono in
      segmented audio (label_frames new_detector (chunks_exact (length samples) samples))

  unfoldable pub segment :
      Detector → AudioSegment F32 → Detector × (List (AudioSegment F32) ⊎ VadAdapterError)
  unfolding segment_checked
  segment detector audio = segment_checked (validate_audio audio) detector audio
