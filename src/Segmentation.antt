-- ===== src/Segmentation.antt =====
-- crates/idiolect-application/src/use_cases/segmentation.rs: the utterance segmenter and the
-- frame buffer. A sample (f32) is never looked at, so its type is a parameter. The `debug_assert`
-- on the frame length is absent from a release build and is not modelled. `usize` products of two
-- `u32` fit 64 bits and are exact; the one `u32` product wraps as written.
pub mod Frames
pub mod Blocks
pub mod Durations
pub mod Holding
pub mod Partition
pub mod Only
pub mod Timing
mod Examples
use mathlib.Core.List.{flatten}
use idiolect.Common.{
  ℕ, zero, suc, ◌+◌, ◌-◌, ◌*◌, ◌/◌, ◌%◌, ◌^◌, Bool, true, false, ◌||◌, Option, none, some, List, [],
  ◌∷◌, ◌++◌, ltb, leb, ◌==◌, if◌then◌else◌, length, take, drop,
}

pub record SegmenterConfig : Type 0 where
  pub sample_rate_hz : ℕ
  pub frame_ms : ℕ
  pub min_speech_ms : ℕ
  pub pre_roll_ms : ℕ
  pub post_roll_ms : ℕ
  pub max_utterance_ms : ℕ

unfoldable pub frame_samples : SegmenterConfig → ℕ
frame_samples c = (c.sample_rate_hz * c.frame_ms) / 1000

-- `usize::div_ceil`.
unfoldable pub div_ceil : ℕ → ℕ → ℕ
div_ceil a b = if ltb 0 (a % b) then a / b + 1 else a / b

-- `u32::max(self, 1)`.
abbrev pub max_one : ℕ → ℕ
max_one n = if leb n 1 then 1 else n

unfoldable pub frames_for : SegmenterConfig → ℕ → ℕ
frames_for c duration_ms = div_ceil duration_ms (max_one c.frame_ms)

pub data SegmenterState : Type 0 where
  idle active : SegmenterState

pub record UtteranceSegmenter {ℓ} (A : Type ℓ) : Type ℓ where
  pub config : SegmenterConfig
  pub state : SegmenterState
  pub pre_roll : List (List A)
  pub active : List A
  pub speech_frames : ℕ
  pub trailing_silence_frames : ℕ
  pub active_frames : ℕ

-- `speech_frames as u32 * frame_ms`.
abbrev pub speech_ms : ℕ → ℕ → ℕ
speech_ms frames frame_ms = ((frames % 2 ^ 32) * frame_ms) % 2 ^ 32

module _ {ℓ} {A : Type ℓ} where
  unfoldable pub new : SegmenterConfig → UtteranceSegmenter A
  new config = record {
    config = config;
    state = idle;
    pre_roll = [];
    active = [];
    speech_frames = 0;
    trailing_silence_frames = 0;
    active_frames = 0;
  }

  unfoldable pub begin_utterance : UtteranceSegmenter A → List A → UtteranceSegmenter A
  begin_utterance s samples = record s {
    active = flatten s.pre_roll ++ samples;
    pre_roll = [];
    active_frames = 1;
    speech_frames = 1;
    trailing_silence_frames = 0;
    state = active;
  }

  -- `pop_front` when the ring is full, then `push_back`.
  unfoldable pub remember_pre_roll : UtteranceSegmenter A → List A → UtteranceSegmenter A
  remember_pre_roll s samples =
      let cap = frames_for s.config s.config.pre_roll_ms in
      if cap == 0 then s else record s {
        pre_roll =
            (if length s.pre_roll == cap then drop 1 s.pre_roll else s.pre_roll) ++ samples ∷ [];
      }

  -- The snippet's samples, if the utterance held enough speech.
  unfoldable pub finish_utterance : UtteranceSegmenter A → UtteranceSegmenter A × Option (List A)
  finish_utterance s = (
    record s {
      active = [];
      state = idle;
      speech_frames = 0;
      trailing_silence_frames = 0;
      active_frames = 0;
    },
    if leb s.config.min_speech_ms (speech_ms s.speech_frames s.config.frame_ms)
        then some s.active
        else none,
  )

  -- The counters of the `Active` branch after this frame.
  pub extend_utterance : UtteranceSegmenter A → List A → Bool → UtteranceSegmenter A
  extend_utterance s samples is_speech = record s {
    active = s.active ++ samples;
    active_frames = s.active_frames + 1;
    speech_frames = if is_speech then s.speech_frames + 1 else s.speech_frames;
    trailing_silence_frames = if is_speech then 0 else s.trailing_silence_frames + 1;
  }

  pub is_complete : UtteranceSegmenter A → Bool
  is_complete s =
      leb (frames_for s.config s.config.post_roll_ms) s.trailing_silence_frames
      || leb (frames_for s.config s.config.max_utterance_ms) s.active_frames

  push_in_state :
      SegmenterState → UtteranceSegmenter A → List A → Bool → UtteranceSegmenter A × Option (List A)
  push_in_state idle s samples is_speech =
      if is_speech then (begin_utterance s samples, none) else (remember_pre_roll s samples, none)
  push_in_state active s samples is_speech =
      let t = extend_utterance s samples is_speech in
      if is_complete t then finish_utterance t else (t, none)

  unfoldable pub push_frame :
      UtteranceSegmenter A → List A → Bool → UtteranceSegmenter A × Option (List A)
  unfolding push_in_state extend_utterance is_complete
  push_frame s samples is_speech = push_in_state s.state s samples is_speech

  flush_in_state : SegmenterState → UtteranceSegmenter A → UtteranceSegmenter A × Option (List A)
  flush_in_state idle s = (s, none)
  flush_in_state active s = finish_utterance s

  unfoldable pub flush : UtteranceSegmenter A → UtteranceSegmenter A × Option (List A)
  unfolding flush_in_state
  flush s = flush_in_state s.state s

  unfoldable pub is_speaking : UtteranceSegmenter A → Bool
  is_speaking s = elim s.state [ idle ↦ false | active ↦ true ]

-- `FrameBuffer { pending }`.
pub record FrameBuffer {ℓ} (A : Type ℓ) : Type ℓ where
  pub pending : List A

module _ {ℓ} {A : Type ℓ} where
  -- `for index in 0..complete`: the slice of each index, from `index` on.
  cut_frames : ℕ → ℕ → ℕ → List A → List (List A)
  cut_frames zero index frame_samples pending = []
  cut_frames (suc n) index frame_samples pending =
      take frame_samples (drop (index * frame_samples) pending)
      ∷ cut_frames n (suc index) frame_samples pending

  unfoldable pub push : FrameBuffer A → List A → ℕ → FrameBuffer A × List (List A)
  unfolding cut_frames
  push buffer samples frame_samples =
      let pending = buffer.pending ++ samples in
      let complete = length pending / frame_samples in
      if frame_samples == 0 then (buffer, []) else (
        record { pending = drop (complete * frame_samples) pending },
        cut_frames complete 0 frame_samples pending,
      )
