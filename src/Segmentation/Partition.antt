-- ===== src/Segmentation/Partition.antt =====
-- A whole stream through UtteranceSegmenter of segmentation.rs against the recording that
-- Segmentation.Blocks tells.
use mathlib.Core.Path.{subst}
use mathlib.Core.List.{append_assoc, append-nil}
use idiolect.Common.{
  ◌≡◌, refl, sym, ap, ◌∙◌, inl, inr, ◌⊎◌, Bool, true, false, none, List, [], ◌∷◌, ◌++◌, arith,
  Bool-cases, if◌then◌else◌,
}
use idiolect.Segmentation.{
  SegmenterConfig, idle, active, UtteranceSegmenter, new, begin_utterance, remember_pre_roll,
  finish_utterance, extend_utterance, is_complete, push_frame, flush,
}
use idiolect.Segmentation.Blocks.{
  record_all, IsOver, Going, begun, goes_on, Ended, over, stopped, snippet_of, add_snippet,
  Partition, silence, utterance,
}
use idiolect.Segmentation.Holding.{
  Waiting, Speaking, remember_config, remember-Waiting, begin-Speaking, extend-Speaking,
  complete-IsOver, incomplete-IsOver, finish-Waiting, finish-snippet_of, latest_few,
}

module _ {ℓ} {A : Type ℓ} where
  flush-Waiting : (s : UtteranceSegmenter A) → s.state ≡ idle → (flush s).1 ≡ none
  unfolding flush
  flush-Waiting s e = ground arith

  flush-Speaking : (s : UtteranceSegmenter A) → s.state ≡ active → flush s ≡ finish_utterance s
  unfolding flush
  flush-Speaking s e = ground arith

  push-silent :
      (s : UtteranceSegmenter A) (f : List A)
      → s.state ≡ idle
      → push_frame s f false ≡ (remember_pre_roll s f, none)
  unfolding push_frame
  push-silent s f e = ground arith

  push-speech :
      (s : UtteranceSegmenter A) (f : List A)
      → s.state ≡ idle
      → push_frame s f true ≡ (begin_utterance s f, none)
  unfolding push_frame
  push-speech s f e = ground arith

  push-active :
      (s : UtteranceSegmenter A) (f : List A) (b : Bool)
      → s.state ≡ active
      → push_frame s f b ≡ (
          let t = extend_utterance s f b in if is_complete t then finish_utterance t else (t, none))
  unfolding push_frame
  push-active s f b e = ground arith

  configs :
      (s : UtteranceSegmenter A) (f : List A) (b : Bool)
      → ((begin_utterance s f).config ≡ s.config)
        × ((extend_utterance s f b).config ≡ s.config)
        × ((finish_utterance s).0.config ≡ s.config)
  unfolding begin_utterance extend_utterance finish_utterance
  configs s f b = (refl, refl, refl)

  concat-append : (w i : List (List A × Bool)) (x : List A × Bool) → w ++ x ∷ i ≡ (w ++ x ∷ []) ++ i
  concat-append w i x = sym (append_assoc w (x ∷ []) i)

  -- The segmenter between two frames: it holds the frames `w` since the last utterance.
  abbrev Holds : SegmenterConfig → UtteranceSegmenter A → List (List A × Bool) → Type ℓ
  Holds c s w =
      Waiting s w
      ⊎ ((q : List (List A × Bool)) × (b : List (List A × Bool)) × (w ≡ q ++ b)
          × Going c b
          × Speaking s q b)

  -- An utterance that has ended, and the recording behind it.
  finish-Partition :
      (c : SegmenterConfig) (s : UtteranceSegmenter A) (q b i : List (List A × Bool))
      (ss : List (List A))
      → s.config ≡ c
      → Speaking s q b
      → Ended c b i
      → Partition c i ss
      → Partition c ((q ++ b) ++ i) (add_snippet (finish_utterance s).1 ss)
  finish-Partition c s q b i ss ec h e p =
      utterance q b h.silent e (append_assoc q b i) p
        (ap (λ o. add_snippet o ss) (finish-snippet_of s q b h ∙ ap (λ d. snippet_of d q b) ec))

  partition :
      (i w : List (List A × Bool)) (c : SegmenterConfig) (s : UtteranceSegmenter A)
      → s.config ≡ c
      → Holds c s w
      → Partition c (w ++ i) (record_all s i)
  unfolding record_all
  partition [] w c s ec (inl h) = rw (append-nil w, flush-Waiting s h.state) (silence h.silent)
  partition [] w c s ec (inr (q, b, split, going, h)) =
      rw (split, flush-Speaking s h.state)
        (finish-Partition c s q b [] [] ec h (stopped going) (silence tt))
  partition ((f, false) ∷ i) w c s ec (inl h) =
      rw (push-silent s f h.state, concat-append w i (f, false))
        (partition i (w ++ (f, false) ∷ []) c (remember_pre_roll s f) (remember_config s f ∙ ec)
          (inl (remember-Waiting s w f h)))
  partition ((f, true) ∷ i) w c s ec (inl h) =
      rw (push-speech s f h.state, concat-append w i (f, true))
        (partition i (w ++ (f, true) ∷ []) c (begin_utterance s f) ((configs s f true).0 ∙ ec)
          (inr (w, (f, true) ∷ [], refl, begun f, begin-Speaking s w f h)))
  partition ((f, l) ∷ i) w c s ec (inr (q, b, split, going, h)) =
      let t = extend_utterance s f l in
      let v = b ++ (f, l) ∷ [] in
      let ht = extend-Speaking s q b f l h in
      let et : t.config ≡ c = (configs s f l).1 ∙ ec in
      let at_end : w ++ (f, l) ∷ i ≡ (q ++ v) ++ i =
        concat-append w i (f, l)
        ∙ ap (λ u. (u ++ (f, l) ∷ []) ++ i) split
        ∙ ap (λ u. u ++ i) (append_assoc q b ((f, l) ∷ [])) in
      elim (Bool-cases (is_complete t)) [
        | inl yes' ↦
            let ends : IsOver c v =
              subst (λ d. IsOver d v) et (complete-IsOver t v ht.counts yes') in
            rw (push-active s f l h.state, yes', at_end)
              (finish-Partition c t q v i _ et ht (over (f, l) going refl ends) (
                partition i [] c (finish_utterance t).0 ((configs t f l).2 ∙ et)
                  (inl (finish-Waiting t ht.ring))))
        | inr no' ↦
            let more : IsOver c v → ⊥ =
              λ o. incomplete-IsOver t v ht.counts no' (subst (λ d. IsOver d v) (sym et) o) in
            rw (push-active s f l h.state, no', at_end)
              (partition i (q ++ v) c t et (inr (q, v, refl, goes_on (f, l) going refl more, ht)))
      ]

  -- The snippets that a fresh segmenter emits, the flush at the stop included, are the recording's.
  pub record_all-Partition :
      (c : SegmenterConfig) (i : List (List A × Bool)) → Partition c i (record_all (new c) i)
  unfolding new
  record_all-Partition c i =
      partition i [] c (new c) refl
        (inl (record { state = refl; silent = tt; ring = sym (latest_few _ [] (omega arith)) }))
