-- ===== src/Training/Gate/Order.antt =====
-- How the promotion gate of promotion.rs follows the metrics.
use idiolect.Common.{◌≡◌, refl, Bool, true, false, arith}
use idiolect.Training.{ArtifactCompatibility, is_compatible}
use idiolect.Training.Gate.{Numbers, PromotionPolicy, MetricDeltas, promoted, evaluate_promotion}

module _ {F I : Type 0} (n : Numbers F I) where
  -- The first number exceeds nothing that the second does not exceed, and the other way round.
  abbrev pub AtMost : F → F → Type 0
  AtMost a b = (z : F) → n.lt z a ≡ true → n.lt z b ≡ true

  abbrev pub AtLeast : F → F → Type 0
  AtLeast a b = (z : F) → n.lt a z ≡ true → n.lt b z ≡ true

  -- Every metric of the first report is at least as good.
  pub record IsAsGood (a b : MetricDeltas F I) : Type 0 where
    pub personal : AtMost (n.narrow a.personal_wer_delta) (n.narrow b.personal_wer_delta)
    pub general : AtMost (n.narrow a.general_wer_delta) (n.narrow b.general_wer_delta)
    pub nouns : AtLeast a.proper_noun_accuracy_delta b.proper_noun_accuracy_delta
    pub commands : AtLeast (n.narrow a.command_accuracy_delta) (n.narrow b.command_accuracy_delta)
    pub hallucination : AtMost (n.narrow a.hallucination_delta) (n.narrow b.hallucination_delta)
    pub deletion : AtMost (n.narrow a.deletion_rate_delta) (n.narrow b.deletion_rate_delta)
    pub latency :
        (z : I)
        → n.lt_latency z a.p95_latency_delta_ms ≡ true
        → n.lt_latency z b.p95_latency_delta_ms ≡ true
    pub realtime : AtMost (n.narrow a.realtime_factor_delta) (n.narrow b.realtime_factor_delta)

  passes : (p q : Bool) → (p ≡ true → q ≡ true) → q ≡ false → p ≡ false
  passes true q h e = cc (h refl)
  passes false q h e = refl

  -- Every check of the gate is passed.
  record Passes (policy : PromotionPolicy F I) (d : MetricDeltas F I) (c : ArtifactCompatibility)
      : Type 0 where
    compatible : is_compatible c ≡ true
    personal : n.lt policy.min_personal_wer_improvement (n.narrow d.personal_wer_delta) ≡ false
    general : n.lt policy.max_general_wer_delta (n.narrow d.general_wer_delta) ≡ false
    nouns : n.lt d.proper_noun_accuracy_delta n.zero ≡ false
    commands : n.lt (n.narrow d.command_accuracy_delta) policy.min_command_accuracy_delta ≡ false
    hallucination : n.lt policy.max_hallucination_delta (n.narrow d.hallucination_delta) ≡ false
    deletion : n.lt policy.max_deletion_rate_delta (n.narrow d.deletion_rate_delta) ≡ false
    latency : n.lt_latency policy.max_p95_latency_delta_ms d.p95_latency_delta_ms ≡ false
    realtime : n.lt policy.max_realtime_factor_delta (n.narrow d.realtime_factor_delta) ≡ false

  module _ (policy : PromotionPolicy F I) (c : ArtifactCompatibility) where
    promoted-Passes :
        (d : MetricDeltas F I) → evaluate_promotion n policy d c ≡ promoted → Passes policy d c
    unfolding evaluate_promotion
    promoted-Passes d h = record {
      compatible = ground arith;
      personal = ground arith;
      general = ground arith;
      nouns = ground arith;
      commands = ground arith;
      hallucination = ground arith;
      deletion = ground arith;
      latency = ground arith;
      realtime = ground arith;
    }

    Passes-promoted :
        (d : MetricDeltas F I) → Passes policy d c → evaluate_promotion n policy d c ≡ promoted
    unfolding evaluate_promotion
    Passes-promoted d p = ground arith

    -- The gate follows the metrics: if a report is promoted, so is one that is at least as good in
    -- every metric, by the same policy and for the same artifact.
    pub evaluate_promotion-IsAsGood :
        (a b : MetricDeltas F I)
        → IsAsGood a b
        → evaluate_promotion n policy b c ≡ promoted
        → evaluate_promotion n policy a c ≡ promoted
    evaluate_promotion-IsAsGood a b g h =
        let p = promoted-Passes b h in
        Passes-promoted a (record {
          compatible = p.compatible;
          personal = passes _ _ (g.personal policy.min_personal_wer_improvement) p.personal;
          general = passes _ _ (g.general policy.max_general_wer_delta) p.general;
          nouns = passes _ _ (g.nouns n.zero) p.nouns;
          commands = passes _ _ (g.commands policy.min_command_accuracy_delta) p.commands;
          hallucination =
              passes _ _ (g.hallucination policy.max_hallucination_delta) p.hallucination;
          deletion = passes _ _ (g.deletion policy.max_deletion_rate_delta) p.deletion;
          latency = passes _ _ (g.latency policy.max_p95_latency_delta_ms) p.latency;
          realtime = passes _ _ (g.realtime policy.max_realtime_factor_delta) p.realtime;
        })
