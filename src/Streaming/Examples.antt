-- ===== src/Streaming/Examples.antt =====
-- Runs of streaming.rs: its theorems at a concrete take, with a small detector, a transcriber that
-- hears one word or fails, and an observer that counts its notices.
use idiolect.Common.{
  ℕ, suc, ◌≡◌, refl, Bool, true, false, ◌&&◌, Option, none, some, List, [], ◌∷◌, ◌++◌, leb, ◌==◌,
  if◌then◌else◌,
}
use idiolect.Text.{Text}
use idiolect.Segmentation.{SegmenterConfig, idle}
use idiolect.Streaming.Decisions.{
  merge_tail_correction, trim, is_noise_transcript, snippet_chunk, is_opening, is_closing,
}
use idiolect.Streaming.Decisions.Noise.{is_word}
use idiolect.Streaming.Take.{Decode, decoded, failed, Notice, StreamingTake, ingest, fold_snippet}
use idiolect.Streaming.Take.Chunking.{ingest-append}
use idiolect.Streaming.Take.Folding.{fold-merge_tail}

abbrev letter : ℕ → Bool
letter c = leb b'a' c && leb c b'z'

abbrev hi : Text
hi = b'h' ∷ b'i' ∷ []

abbrev hears : ℕ → List ℕ → ℕ × Bool
hears n [] = (suc n, false)
hears n (x ∷ frame) = (suc n, leb 10 x)

abbrev says_hi : ℕ → List ℕ → ℕ × Decode
says_hi n audio = (suc n, decoded hi)

-- Fails with one code at the first call and with another later.
abbrev fails : ℕ → List ℕ → ℕ × Decode
fails n audio = (suc n, if n == 0 then failed (b'a' ∷ []) hi else failed (b'b' ∷ []) hi)

abbrev counts : ℕ → Notice → ℕ × Option (Unit {0})
counts n notice = (suc n, none)

abbrev config : SegmenterConfig
config = record {
  sample_rate_hz = 16000;
  frame_ms = 30;
  min_speech_ms = 30;
  pre_roll_ms = 30;
  post_roll_ms = 60;
  max_utterance_ms = 3000;
}

abbrev take : StreamingTake ℕ
take = record {
  frames = record { pending = [] };
  segmenter = record {
    config = config;
    state = idle;
    pre_roll = [];
    active = [];
    speech_frames = 0;
    trailing_silence_frames = 0;
    active_frames = 0;
  };
  merged_samples = 1 ∷ 2 ∷ [];
  merged_text = hi;
  last_snippet_text = some hi;
  spoke = false;
  silence_frames_since_speech = 0;
  auto_stop_silence_ms = 60;
  notified_error = none;
}

ingest-append_example : ingest hears 0 take ((1 ∷ 2 ∷ []) ++ 3 ∷ []) ≡ (
    let (v', t', ss) = ingest hears 0 take (1 ∷ 2 ∷ []) in
    let (v'', t'', rs) = ingest hears v' t' (3 ∷ []) in (v'', t'', ss ++ rs))
ingest-append_example = ingest-append hears 0 take (1 ∷ 2 ∷ []) (3 ∷ [])

folded : (fold_snippet letter says_hi counts 0 0 take (3 ∷ [])).1.1.last_snippet_text ≡ some hi
unfolding fold_snippet snippet_chunk trim is_noise_transcript is_opening is_closing
folded = refl

-- The last snippet "hi" of "hi hi" becomes "hello".
abbrev hello : Text
hello = b'h' ∷ b'e' ∷ b'l' ∷ b'l' ∷ b'o' ∷ []

fold-merge_tail_example :
    let u = (fold_snippet letter says_hi counts 0 0 take (3 ∷ [])).1.1 in
    (p : Text) × (u.merged_text ≡ p ++ hi)
    × (merge_tail_correction u.merged_text u.last_snippet_text hello ≡ p ++ hello)
fold-merge_tail_example =
    fold-merge_tail letter says_hi counts 0 0 take (3 ∷ []) hi hello ([], refl) folded

abbrev cough : Text
cough = b'[' ∷ b'a' ∷ b']' ∷ []

cough_noise : is_noise_transcript letter cough ≡ true
unfolding is_noise_transcript is_opening is_closing
cough_noise = refl

word_a : is_word letter b'a' ≡ true
unfolding is_opening is_closing
word_a = refl

hi_speech : is_noise_transcript letter hi ≡ false
unfolding is_noise_transcript is_opening is_closing
hi_speech = refl
