-- ===== src/Planner/Policy.antt =====
-- contracts/group_policy.py: what an execution group sets for the quality of its datasets.
use fabric_data_framework.Prelude.{
  ℕ, Bool, not, Option, none, some, ◌==◌, nat_eq, list_eq, Text, Result, ok, ◌>>◌, raise_if,
}
use fabric_data_framework.Prelude.Dict.{Dict, get, or_else}
use fabric_data_framework.Planner.Config.{
  PlannerError, wrong_group, QuarantineDetailMode, DataQualityPolicy, DatasetConfig,
  PipelineFailurePolicy,
}

pub record DataQualityPolicyPatch : Type 0 where
  pub enabled : Option Bool
  pub quarantine_enabled : Option Bool
  pub quarantine_detail_mode : Option QuarantineDetailMode
  pub max_quarantine_rows : Option ℕ
  pub max_quarantine_fraction : Option ℕ

-- The value of the patch, where it has one.
abbrev or_keep : {A : Type 0} → Option A → A → A
or_keep none a = a
or_keep (some b) a = b

unfoldable pub apply_patch : DataQualityPolicyPatch → DataQualityPolicy → DataQualityPolicy
apply_patch patch policy = record policy {
  enabled = or_keep patch.enabled policy.enabled;
  quarantine_enabled = or_keep patch.quarantine_enabled policy.quarantine_enabled;
  quarantine_detail_mode = or_keep patch.quarantine_detail_mode policy.quarantine_detail_mode;
  max_quarantine_rows = or_else patch.max_quarantine_rows policy.max_quarantine_rows;
  max_quarantine_fraction = or_else patch.max_quarantine_fraction policy.max_quarantine_fraction;
}

pub record ExecutionGroupPolicy : Type 0 where
  pub execution_group : Text
  pub failure_policy : PipelineFailurePolicy
  pub max_concurrency : Option ℕ
  pub quality_defaults : DataQualityPolicyPatch
  pub dataset_quality_overrides : Dict Text DataQualityPolicyPatch

-- The patch of the dataset, where there is one, after that of the group.
abbrev patched : ExecutionGroupPolicy → DatasetConfig → DataQualityPolicy
patched policy config =
    let quality = apply_patch policy.quality_defaults config.quality in
    elim (get config.dataset_id policy.dataset_quality_overrides) [
      | none ↦ quality
      | some patch ↦ apply_patch patch quality
    ]

unfoldable pub apply_to : ExecutionGroupPolicy → DatasetConfig → Result PlannerError DatasetConfig
apply_to policy config =
    raise_if (not (config.orchestration.execution_group == policy.execution_group)) wrong_group
    >> ok (record config { quality = patched policy config })
