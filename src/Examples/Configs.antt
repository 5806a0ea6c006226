-- ===== src/Examples/Configs.antt =====
-- Configurations for the examples: a dataset of high criticality, of which only the name and the
-- dependencies are given.
use fabric_data_framework.Prelude.{true, none, List, [], Text, text}
use fabric_data_framework.Planner.Config.{
  high, OrchestrationPolicy, reference_only, DataQualityPolicy, DatasetConfig,
  EffectiveDatasetConfig,
}

abbrev pub needs : List Text → OrchestrationPolicy
needs dependencies = record {
  execution_group = text "nightly";
  criticality = high;
  dependencies = dependencies;
  priority = 100;
  retry_count = 2;
  timeout_seconds = 3600;
  batch_size = 1000;
  max_concurrency = 4;
}

abbrev quality : DataQualityPolicy
quality = record {
  policy_name = text "standard";
  quarantine_policy = text "isolate";
  enabled = true;
  quarantine_enabled = true;
  quarantine_detail_mode = reference_only;
  max_quarantine_rows = none;
  max_quarantine_fraction = none;
}

abbrev pub config_of : Text → List Text → DatasetConfig
config_of id dependencies = record {
  dataset_id = id;
  layer = text "BRONZE";
  enabled = true;
  orchestration = needs dependencies;
  watermark_overlap = none;
  quality = quality;
  others = [];
}

abbrev pub effective_of : Text → List Text → EffectiveDatasetConfig
effective_of id dependencies = record {
  config = config_of id dependencies;
  base_config_hash = id;
  effective_config_hash = id;
  applied_override_ids = [];
}
