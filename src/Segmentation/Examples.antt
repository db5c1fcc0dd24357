-- ===== src/Segmentation/Examples.antt =====
-- Runs of segmentation.rs: each theorem about the segmenter and the frame buffer at concrete frames.
use idiolect.Common.{ℕ, ◌≡◌, refl, Bool, true, false, List, [], ◌∷◌, ◌++◌, arith, inr, ◌↔◌}
use idiolect.Segmentation
use idiolect.Segmentation.{
  SegmenterConfig, idle, active, UtteranceSegmenter, FrameBuffer, frames_for, new, push, push_frame,
  flush,
}
use idiolect.Segmentation.Frames.{push-append}
use idiolect.Segmentation.Blocks.{Partition, record_all}
use idiolect.Segmentation.Only.{record_all_iff}
use idiolect.Segmentation.Timing.{IsValid, push_silence, pause_ends_utterance}

-- 10 ms frames, one frame before and two behind an utterance of one frame or more.
abbrev config : SegmenterConfig
config = record {
  sample_rate_hz = 200;
  frame_ms = 10;
  min_speech_ms = 10;
  pre_roll_ms = 10;
  post_roll_ms = 20;
  max_utterance_ms = 100;
}

abbrev buffer : FrameBuffer ℕ
buffer = record { pending = 1 ∷ [] }

abbrev samples : List ℕ
samples = 2 ∷ 3 ∷ 4 ∷ []

-- In an utterance, with one frame of speech and one of silence behind.
abbrev segmenter : UtteranceSegmenter ℕ
segmenter = record {
  config = config;
  state = active;
  pre_roll = [];
  active = 1 ∷ 2 ∷ 3 ∷ 4 ∷ [];
  speech_frames = 1;
  trailing_silence_frames = 1;
  active_frames = 2;
}

two_frames : frames_for config 20 ≡ 2
unfolding frames_for Segmentation.div_ceil
two_frames = refl

ten_frames : frames_for config 100 ≡ 10
unfolding frames_for Segmentation.div_ceil
ten_frames = refl

segmenter-IsValid : IsValid segmenter
segmenter-IsValid = record {
  idle_empty = λ e. cc;
  ring_only_idle = λ e. refl;
  ring_capped = omega arith;
  spoken = λ e. omega arith;
  counted = omega arith;
  not_paused = inr (omega (arith, two_frames));
  not_over_long = inr (omega (arith, ten_frames));
}

push-append_example : push buffer (samples ++ 5 ∷ []) 2 ≡ (
  (push (push buffer samples 2).0 (5 ∷ []) 2).0,
  (push buffer samples 2).1 ++ (push (push buffer samples 2).0 (5 ∷ []) 2).1,
)
push-append_example = push-append buffer samples (5 ∷ []) 2 (omega arith)

abbrev recording : List (List ℕ × Bool)
recording =
    (1 ∷ 2 ∷ [], false) ∷ (3 ∷ 4 ∷ [], true) ∷ (5 ∷ 6 ∷ [], false) ∷ (7 ∷ 8 ∷ [], false) ∷ []

abbrev snippets : List (List ℕ)
snippets = (1 ∷ 2 ∷ 3 ∷ 4 ∷ 5 ∷ 6 ∷ 7 ∷ 8 ∷ []) ∷ []

record_all_iff_example :
    Partition config recording snippets ↔ (snippets ≡ record_all (new config) recording)
record_all_iff_example = record_all_iff config recording snippets

recorded : record_all (new config) recording ≡ snippets
unfolding record_all new push_frame flush frames_for Segmentation.remember_pre_roll
    Segmentation.div_ceil Segmentation.begin_utterance Segmentation.finish_utterance
    mathlib.Core.List.flatten
recorded = refl

pause_ends_utterance_example :
    (push_silence segmenter ((5 ∷ 6 ∷ []) ∷ (7 ∷ 8 ∷ []) ∷ [])).state ≡ idle
pause_ends_utterance_example =
    pause_ends_utterance segmenter ((5 ∷ 6 ∷ []) ∷ (7 ∷ 8 ∷ []) ∷ []) (omega (arith, two_frames))
      (omega arith)

pause : (push_frame segmenter (5 ∷ 6 ∷ []) false).0.state ≡ idle
unfolding push_frame Segmentation.frames_for Segmentation.div_ceil Segmentation.finish_utterance
pause = refl
