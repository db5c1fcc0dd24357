-- ===== src/Training/Examples.antt =====
-- The theorems on the registry at concrete histories.
use idiolect.Common.{ℕ, ltb, arith, ◌≡◌, refl, none, some, List, [], ◌∷◌, true}
use idiolect.Text.{Text, text_eq}
use idiolect.Training.{
  ArtifactCompatibility, is_compatible, EvaluationReport, new, put, register_active, check, promote,
  rollback, active_adapter_id,
}
use idiolect.Training.Gate.{Numbers, PromotionPolicy, MetricDeltas, promoted, evaluate_promotion}
use idiolect.Training.Gate.Order.{IsAsGood, evaluate_promotion-IsAsGood}
use idiolect.Training.Registry.{
  Operation, register, promoting, rolling_back, step, after, Vouched, active-Vouched,
}

abbrev user : Text
user = b'u' ∷ []

abbrev first : Text
first = b'a' ∷ []

abbrev second : Text
second = b'b' ∷ []

abbrev artifact : ArtifactCompatibility
artifact = record {
  artifact_digest = first;
  manifest_digest = second;
  metric_report_digest = user;
  base_model_id = first;
  adapter_format_version = first;
  runtime_format_version = first;
  runtime_compatible = true;
}

abbrev report : EvaluationReport
report = record { artifact_digest = first; manifest_digest = second; metric_report_digest = user }

-- The first adapter is registered, the second promoted and rolled back.
abbrev history : List Operation
history =
    rolling_back user ∷ promoting user second second report artifact ∷ register user first ∷ []

history_active : active_adapter_id (after history) user ≡ some first
unfolding after step new put register_active promote check rollback active_adapter_id is_compatible
    text_eq
history_active = refl

active-Vouched_example : Vouched user first history
active-Vouched_example = active-Vouched history user first history_active

promoted_ok : (promote (register_active new user first) user second second report artifact).1 ≡ none
unfolding promote check is_compatible text_eq
promoted_ok = refl

registered_active : active_adapter_id (register_active new user first) user ≡ some first
unfolding active_adapter_id register_active put new text_eq
registered_active = refl

abbrev naturals : Numbers ℕ ℕ
naturals = record { lt = ltb; narrow = λ x. x; zero = 0; lt_latency = ltb }

abbrev policy : PromotionPolicy ℕ ℕ
policy = record {
  max_general_wer_delta = 5;
  max_hallucination_delta = 5;
  max_deletion_rate_delta = 5;
  max_p95_latency_delta_ms = 5;
  max_realtime_factor_delta = 5;
  min_personal_wer_improvement = 5;
  min_command_accuracy_delta = 1;
}

abbrev good : MetricDeltas ℕ ℕ
good = record {
  personal_wer_delta = 4;
  general_wer_delta = 4;
  proper_noun_accuracy_delta = 2;
  command_accuracy_delta = 2;
  hallucination_delta = 4;
  deletion_rate_delta = 4;
  p95_latency_delta_ms = 4;
  realtime_factor_delta = 4;
}

abbrev better : MetricDeltas ℕ ℕ
better = record good { general_wer_delta = 1; command_accuracy_delta = 3 }

as_good : IsAsGood naturals better good
as_good = record {
  personal = λ z h. h;
  general = λ z h. ground arith;
  nouns = λ z h. h;
  commands = λ z h. ground arith;
  hallucination = λ z h. h;
  deletion = λ z h. h;
  latency = λ z h. h;
  realtime = λ z h. h;
}

good_promoted : evaluate_promotion naturals policy good artifact ≡ promoted
unfolding evaluate_promotion is_compatible
good_promoted = refl

evaluate_promotion-IsAsGood_example : evaluate_promotion naturals policy better artifact ≡ promoted
evaluate_promotion-IsAsGood_example =
    evaluate_promotion-IsAsGood naturals policy artifact better good as_good good_promoted
