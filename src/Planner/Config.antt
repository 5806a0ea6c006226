-- ===== src/Planner/Config.antt =====
-- The types that orchestration/planner.py reads: from metadata/config.py, contracts/dispatch.py and
-- contracts/group_policy.py.
use fabric_data_framework.Prelude.{ℕ, Bool, true, false, Option, List, Text}
use fabric_data_framework.Prelude.Dict.{Dict}
use fabric_data_framework.Time.{DateTime}

pub data DatasetStatus : Type 0 where
  pending running succeeded failed quarantined skipped blocked cancelled : DatasetStatus

pub data PipelineStatus : Type 0 where
  running success partial_success failed : PipelineStatus

pub data Criticality : Type 0 where
  low medium high critical : Criticality

pub data PipelineFailurePolicy : Type 0 where
  fail_at_end criticality_aware : PipelineFailurePolicy

pub data PlannerError : Type 0 where
  undeployed_dependency dependency_cycle key_error out_of_fuel : PlannerError
  concurrency_not_positive wrong_group group_mismatch policy_outside_group : PlannerError
  undeployed_request undeployed_override unsupported_combination : PlannerError
  naive_time wrong_target override_conflict no_watermark empty_sequence : PlannerError

pub record OrchestrationPolicy : Type 0 where
  pub execution_group : Text
  pub criticality : Criticality
  pub dependencies : List Text
  pub priority : ℕ
  pub retry_count : ℕ
  pub timeout_seconds : ℕ
  pub batch_size : ℕ
  pub max_concurrency : ℕ

pub data QuarantineDetailMode : Type 0 where
  full reference_only : QuarantineDetailMode

-- The fraction is a float, which is only copied: it stands by its bits.
pub record DataQualityPolicy : Type 0 where
  pub policy_name : Text
  pub quarantine_policy : Text
  pub enabled : Bool
  pub quarantine_enabled : Bool
  pub quarantine_detail_mode : QuarantineDetailMode
  pub max_quarantine_rows : Option ℕ
  pub max_quarantine_fraction : Option ℕ

-- A dataset's configuration: what planning and the overrides read or change. The layer is
-- `target.layer`, the overlap that of `load.watermark`, where it is there. The other fields are a JSON
-- text, which is hashed with these.
pub record DatasetConfig : Type 0 where
  pub dataset_id : Text
  pub layer : Text
  pub enabled : Bool
  pub orchestration : OrchestrationPolicy
  pub watermark_overlap : Option ℕ
  pub quality : DataQualityPolicy
  pub others : Text

pub record EffectiveDatasetConfig : Type 0 where
  pub config : DatasetConfig
  pub base_config_hash : Text
  pub effective_config_hash : Text
  pub applied_override_ids : List Text

pub record DatasetDispatchOutcome : Type 0 where
  pub dataset_run_id : ℕ
  pub status : DatasetStatus
  pub retryable : Option Bool
  pub error_code : Option Text
  pub error_message : Option Text

pub record DispatchPlan : Type 0 where
  pub evaluation_time : DateTime
  pub selected_dataset_ids : List Text
  pub effective_configs : Dict Text EffectiveDatasetConfig
  pub deployed_dataset_ids : List Text
  pub max_concurrency : ℕ
  pub failure_policy : PipelineFailurePolicy
  pub execution_group_policy_hash : Option Text

abbrev pub is_succeeded : DatasetStatus → Bool
is_succeeded succeeded = true
is_succeeded _ = false

-- `_DEFAULT_REQUIRED_CRITICALITIES`
abbrev pub is_required_criticality : Criticality → Bool
is_required_criticality high = true
is_required_criticality critical = true
is_required_criticality _ = false
