-- ===== src/Training.antt =====
-- crates/idiolect-trainerctl: the registry of the adapters in use, and the digests that it checks.
pub mod Registry
pub mod Gate
mod Examples
use idiolect.Common.{Bool, true, false, not, ◌&&◌, Option, none, some, if◌then◌else◌}
use idiolect.Text.{Text, text_eq, is_empty}

pub record ArtifactCompatibility : Type 0 where
  pub artifact_digest : Text
  pub manifest_digest : Text
  pub metric_report_digest : Text
  pub base_model_id : Text
  pub adapter_format_version : Text
  pub runtime_format_version : Text
  pub runtime_compatible : Bool

unfoldable pub is_compatible : ArtifactCompatibility → Bool
is_compatible c =
    not (is_empty c.artifact_digest)
    && not (is_empty c.manifest_digest)
    && not (is_empty c.metric_report_digest)
    && not (is_empty c.base_model_id)
    && not (is_empty c.adapter_format_version)
    && not (is_empty c.runtime_format_version)
    && c.runtime_compatible

-- The digests of an evaluation report; its metrics decide elsewhere.
pub record EvaluationReport : Type 0 where
  pub artifact_digest : Text
  pub manifest_digest : Text
  pub metric_report_digest : Text

pub record AdapterState : Type 0 where
  pub active_adapter_id : Option Text
  pub rollback_adapter_id : Option Text

pub data AdapterRegistryError : Type 0 where
  artifact_incompatible artifact_digest_mismatch manifest_digest_mismatch : AdapterRegistryError
  metric_report_digest_mismatch : AdapterRegistryError

pub data RollbackError : Type 0 where
  no_rollback_target : RollbackError

-- A user that the HashMap does not hold has the default state, which every operation reads alike.
abbrev pub AdapterRegistry : Type 0
AdapterRegistry = Text → AdapterState

unfoldable pub new : AdapterRegistry
new user = record { active_adapter_id = none; rollback_adapter_id = none }

unfoldable pub put : AdapterRegistry → Text → AdapterState → AdapterRegistry
put r user s other = if text_eq other user then s else r other

unfoldable pub registered : AdapterState → Text → Option Text → AdapterState
registered s adapter none = record s { active_adapter_id = some adapter }
registered s adapter (some active) = s

unfoldable pub register_active : AdapterRegistry → Text → Text → AdapterRegistry
unfolding registered
register_active r user adapter = put r user (registered (r user) adapter (r user).active_adapter_id)

-- The checks of `promote`, in their order.
unfoldable pub check : Text → EvaluationReport → ArtifactCompatibility → Option AdapterRegistryError
check manifest_digest report c =
    if not (is_compatible c)
    then some artifact_incompatible
    else if not (text_eq report.artifact_digest c.artifact_digest)
    then some artifact_digest_mismatch
    else if not (
        text_eq manifest_digest report.manifest_digest && text_eq manifest_digest c.manifest_digest)
    then some manifest_digest_mismatch
    else if not (text_eq report.metric_report_digest c.metric_report_digest)
    then some metric_report_digest_mismatch
    else none

unfoldable pub promote_checked :
    Option AdapterRegistryError
    → AdapterRegistry
    → Text
    → Text
    → AdapterRegistry × Option AdapterRegistryError
promote_checked (some e) r user adapter = (r, some e)
promote_checked none r user adapter = (
  put r user (record {
    active_adapter_id = some adapter;
    rollback_adapter_id = (r user).active_adapter_id;
  }),
  none,
)

unfoldable pub promote :
    AdapterRegistry
    → Text
    → Text
    → Text
    → EvaluationReport
    → ArtifactCompatibility
    → AdapterRegistry × Option AdapterRegistryError
unfolding promote_checked
promote r user adapter manifest_digest report c =
    promote_checked (check manifest_digest report c) r user adapter

unfoldable pub rolled_back :
    Option Text → AdapterRegistry → Text → AdapterRegistry × Option RollbackError
rolled_back none r user = (r, some no_rollback_target)
rolled_back (some previous) r user =
    (put r user (record { active_adapter_id = some previous; rollback_adapter_id = none }), none)

unfoldable pub rollback : AdapterRegistry → Text → AdapterRegistry × Option RollbackError
unfolding rolled_back
rollback r user = rolled_back (r user).rollback_adapter_id r user

unfoldable pub active_adapter_id : AdapterRegistry → Text → Option Text
active_adapter_id r user = (r user).active_adapter_id
