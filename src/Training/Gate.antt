-- ===== src/Training/Gate.antt =====
-- evaluate_promotion of crates/idiolect-trainerctl/src/promotion.rs. The floating-point numbers are a
-- parameter, with `<`, the narrowing from f64 to f32, and zero; so is the i32 of the latency.
pub mod Order
use idiolect.Common.{Bool, true, false, not, if◌then◌else◌}
use idiolect.Training.{ArtifactCompatibility, is_compatible}

pub record Numbers (F I : Type 0) : Type 0 where
  pub lt : F → F → Bool
  pub narrow : F → F
  pub zero : F
  pub lt_latency : I → I → Bool

pub record PromotionPolicy (F I : Type 0) : Type 0 where
  pub max_general_wer_delta : F
  pub max_hallucination_delta : F
  pub max_deletion_rate_delta : F
  pub max_p95_latency_delta_ms : I
  pub max_realtime_factor_delta : F
  pub min_personal_wer_improvement : F
  pub min_command_accuracy_delta : F

pub record MetricDeltas (F I : Type 0) : Type 0 where
  pub personal_wer_delta : F
  pub general_wer_delta : F
  pub proper_noun_accuracy_delta : F
  pub command_accuracy_delta : F
  pub hallucination_delta : F
  pub deletion_rate_delta : F
  pub p95_latency_delta_ms : I
  pub realtime_factor_delta : F

pub data Reason : Type 0 where
  artifact_incompatible personal_wer_not_improved general_wer_regression : Reason
  proper_noun_accuracy_regression command_accuracy_regression hallucination_regression : Reason
  deletion_rate_regression latency_regression realtime_factor_regression : Reason

pub data PromotionDecision : Type 0 where
  promoted : PromotionDecision
  reject : Reason → PromotionDecision

unfoldable pub evaluate_promotion :
    {F I : Type 0}
    → Numbers F I
    → PromotionPolicy F I
    → MetricDeltas F I
    → ArtifactCompatibility
    → PromotionDecision
evaluate_promotion n policy d c =
    if not (is_compatible c)
    then reject artifact_incompatible
    else if n.lt policy.min_personal_wer_improvement (n.narrow d.personal_wer_delta)
    then reject personal_wer_not_improved
    else if n.lt policy.max_general_wer_delta (n.narrow d.general_wer_delta)
    then reject general_wer_regression
    else if n.lt d.proper_noun_accuracy_delta n.zero
    then reject proper_noun_accuracy_regression
    else if n.lt (n.narrow d.command_accuracy_delta) policy.min_command_accuracy_delta
    then reject command_accuracy_regression
    else if n.lt policy.max_hallucination_delta (n.narrow d.hallucination_delta)
    then reject hallucination_regression
    else if n.lt policy.max_deletion_rate_delta (n.narrow d.deletion_rate_delta)
    then reject deletion_rate_regression
    else if n.lt_latency policy.max_p95_latency_delta_ms d.p95_latency_delta_ms
    then reject latency_regression
    else if n.lt policy.max_realtime_factor_delta (n.narrow d.realtime_factor_delta)
    then reject realtime_factor_regression
    else promoted
