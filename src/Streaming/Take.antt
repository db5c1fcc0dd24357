-- ===== src/Streaming/Take.antt =====
-- `StreamingTake` of streaming.rs. The detector (`is_speech`), the transcriber and the observer are
-- parameters with a state of their own; an observer's `Err` ends the call.
pub mod Chunking
pub mod Folding
pub mod Closing
use idiolect.Common.{
  ℕ, suc, ◌+◌, ◌*◌, Bool, true, false, ◌&&◌, Option, none, some, List, [], ◌∷◌, ◌++◌, leb, ◌==◌,
  if◌then◌else◌,
}
use idiolect.Text.{Text, is_empty, text_eq}
use idiolect.Segmentation.{SegmenterConfig, UtteranceSegmenter, FrameBuffer, push, push_frame, new}
use idiolect.Segmentation
use idiolect.Streaming.Decisions.{trim, snippet_chunk, choose_final_take_text}

abbrev pub stream_sample_rate_hz : ℕ
stream_sample_rate_hz = 16000

abbrev pub stream_frame_ms : ℕ
stream_frame_ms = 30

-- 16000 * 30 / 1000.
abbrev pub stream_frame_samples : ℕ
stream_frame_samples = 480

pub record StreamingConfig : Type 0 where
  pub min_speech_ms : ℕ
  pub pre_roll_ms : ℕ
  pub post_roll_ms : ℕ
  pub max_utterance_ms : ℕ
  pub auto_stop_silence_ms : ℕ

-- `Result<String, TranscribeFailure>`.
pub data Decode : Type 0 where
  decoded : Text → Decode
  failed : Text → Text → Decode

-- The calls of `StreamObserver`.
pub data Notice : Type 0 where
  snippet_committed : Text → Notice
  snippet_dropped : Text → Notice
  transcribe_failed : Text → Text → Notice

pub record StreamingTake {ℓ} (A : Type ℓ) : Type ℓ where
  pub frames : FrameBuffer A
  pub segmenter : UtteranceSegmenter A
  pub merged_samples : List A
  pub merged_text : Text
  pub last_snippet_text : Option Text
  pub spoke : Bool
  pub silence_frames_since_speech : ℕ
  pub auto_stop_silence_ms : ℕ
  pub notified_error : Option Text

pub record FinalizedTake {ℓ} (A : Type ℓ) : Type ℓ where
  pub final_text : Text
  pub merged_samples : List A
  pub last_snippet_text : Option Text
  pub fallback_reason : Option Text

pub data TakeOutcome {ℓ} (A : Type ℓ) : Type ℓ where
  silent : TakeOutcome A
  speech : FinalizedTake A → TakeOutcome A

-- `self.notified_error.as_deref() == Some(code)`.
abbrev pub is_notified : Option Text → Text → Bool
is_notified none code = false
is_notified (some c) code = text_eq c code

module _ {ℓ} {A : Type ℓ} where
  unfoldable pub new_take : StreamingConfig → StreamingTake A
  unfolding new
  new_take c = record {
    frames = record { pending = [] };
    segmenter = new (record {
      sample_rate_hz = stream_sample_rate_hz;
      frame_ms = stream_frame_ms;
      min_speech_ms = c.min_speech_ms;
      pre_roll_ms = c.pre_roll_ms;
      post_roll_ms = c.post_roll_ms;
      max_utterance_ms = c.max_utterance_ms;
    });
    merged_samples = [];
    merged_text = [];
    last_snippet_text = none;
    spoke = false;
    silence_frames_since_speech = 0;
    auto_stop_silence_ms = c.auto_stop_silence_ms;
    notified_error = none;
  }

  abbrev pub keep_snippet : Option (List A) → List (List A) → List (List A)
  keep_snippet none ss = ss
  keep_snippet (some s) ss = s ∷ ss

  -- The loop body of `ingest` for one frame and its verdict.
  unfoldable pub take_frame : StreamingTake A → List A → Bool → StreamingTake A × Option (List A)
  take_frame t frame is_speech =
      let (segmenter, o) = push_frame t.segmenter frame is_speech in
      (
        record t {
          spoke = if is_speech then true else t.spoke;
          silence_frames_since_speech = if is_speech then 0 else t.silence_frames_since_speech + 1;
          segmenter = segmenter;
        },
        o,
      )

  unfoldable pub flush : StreamingTake A → StreamingTake A × Option (List A)
  flush t =
      let (segmenter, o) = Segmentation.flush t.segmenter in (record t { segmenter = segmenter }, o)

  unfoldable pub auto_stop_due : StreamingTake A → Bool
  auto_stop_due t =
      if t.auto_stop_silence_ms == 0
      then false
      else t.spoke && leb t.auto_stop_silence_ms (t.silence_frames_since_speech * stream_frame_ms)

  unfoldable pub first_error_this_take : StreamingTake A → Text → StreamingTake A × Bool
  first_error_this_take t code =
      if is_notified t.notified_error code
      then (t, false)
      else (record t { notified_error = some code }, true)

-- `ingest`, with the detector's state.
module _ {ℓ κ} {A : Type ℓ} {V : Type κ} (is_speech : V → List A → V × Bool) where
  unfoldable pub ingest_frames :
      V → StreamingTake A → List (List A) → V × StreamingTake A × List (List A)
  ingest_frames v t [] = (v, t, [])
  ingest_frames v t (f ∷ fs) =
      let (v', b) = is_speech v f in
      let (t', o) = take_frame t f b in
      let (v'', t'', ss) = ingest_frames v' t' fs in (v'', t'', keep_snippet o ss)

  unfoldable pub ingest : V → StreamingTake A → List A → V × StreamingTake A × List (List A)
  ingest v t [] = (v, t, [])
  ingest v t (x ∷ xs) =
      let (frames, fs) = push t.frames (x ∷ xs) stream_frame_samples in
      ingest_frames v (record t { frames = frames }) fs

module _ {ℓ κ ι} {A : Type ℓ} {T : Type κ} {O : Type ι} {E : Type 0} (is_alphanumeric : ℕ → Bool)
    (transcribe : T → List A → T × Decode) (notify : O → Notice → O × Option E) where
  unfoldable pub fold_chunk :
      Option Text → Text → O → StreamingTake A → O × StreamingTake A × Option E
  fold_chunk none text o t = let (o', e) = notify o (snippet_dropped text) in (o', t, e)
  fold_chunk (some chunk) text o t =
      let t' = record t {
        merged_text = t.merged_text ++ chunk;
        last_snippet_text = some (trim text);
      } in
      let (o', e) = notify o (snippet_committed chunk) in (o', t', e)

  unfoldable pub fold_decode :
      Decode → List A → O → StreamingTake A → O × StreamingTake A × Option E
  fold_decode (failed code message) snippet o t =
      let (t', first) = first_error_this_take t code in
      let (o', e) = notify o (transcribe_failed code message) in
      if first then (o', t', e) else (o, t', none)
  fold_decode (decoded text) snippet o t =
      let t' = record t { merged_samples = t.merged_samples ++ snippet } in
      fold_chunk (snippet_chunk is_alphanumeric t'.merged_text text) text o t'

  unfoldable pub fold_snippet :
      T → O → StreamingTake A → List A → T × (O × StreamingTake A × Option E)
  unfolding fold_decode fold_chunk
  fold_snippet s o t snippet = let (s', d) = transcribe s snippet in (s', fold_decode d snippet o t)

module _ {ℓ κ} {A : Type ℓ} {T : Type κ} (is_alphanumeric : ℕ → Bool)
    (transcribe : T → List A → T × Decode) where
  final_of : Decode → Text → Text × Option Text
  final_of (decoded text) previewed = (choose_final_take_text is_alphanumeric text previewed, none)
  final_of (failed code message) previewed = (previewed, some message)

  close_phrase : T → StreamingTake A → List A → T × TakeOutcome A
  close_phrase s t [] = (s, silent)
  close_phrase s t (x ∷ xs) =
      let (s', d) = transcribe s (x ∷ xs) in
      let (final_text, reason) = final_of d t.merged_text in
      (
        s',
        if is_empty (trim final_text)
            then silent
            else speech (record {
              final_text = final_text;
              merged_samples = x ∷ xs;
              last_snippet_text = t.last_snippet_text;
              fallback_reason = reason;
            }),
      )

  -- The take with its accumulators and per-phrase state reset, and the outcome.
  unfoldable pub finalize_phrase : T → StreamingTake A → T × StreamingTake A × TakeOutcome A
  unfolding close_phrase final_of
  finalize_phrase s t =
      let (s', outcome) = close_phrase s t t.merged_samples in
      (
        s',
        record t {
          merged_samples = [];
          merged_text = [];
          last_snippet_text = none;
          notified_error = none;
          spoke = false;
          silence_frames_since_speech = 0;
        },
        outcome,
      )

  unfoldable pub finalize : T → StreamingTake A → T × TakeOutcome A
  finalize s t = let (s', t', outcome) = finalize_phrase s t in (s', outcome)
