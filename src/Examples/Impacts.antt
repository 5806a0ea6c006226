-- ===== src/Examples/Impacts.antt =====
-- rebuild_impact.py: raw feeds daily, and other stands alone.
use fabric_data_framework.Prelude.{
  ◌≡◌, ◌≢◌, ◌↔◌, refl, true, false, [], ◌∷◌, list_eq, nat_eq, Text, text, elem, unique, ok, raise,
}
use fabric_data_framework.Prelude.Dict.{Dict, get, put}
use fabric_data_framework.Prelude.Sort.{insert_with, sort_with}
use fabric_data_framework.Prelude.Order.{lex_lt}
use fabric_data_framework.Planner.Config.{dependency_cycle, out_of_fuel}
use fabric_data_framework.Planner.Graph.{check_deployed, discard}
use fabric_data_framework.Planner.Schedule.{distinct}
use fabric_data_framework.Examples.Configs.{config_of}
use fabric_data_framework.Recovery.Contract.{target_only, capture_and_target}
use fabric_data_framework.Planner.Config.{DatasetConfig}
use fabric_data_framework.Rebuild.Graph.{
  graph_error, graph_of, visit_dependencies, visit_dataset, visit_datasets, validate_graph,
}
use fabric_data_framework.Rebuild.Impact.{
  children, add_child, reverse_from, offer, descend, is_ready, ready_among, without, wave,
  build_waves,
}
use fabric_data_framework.Rebuild.Build.{
  capture_data, root_rebuild_scope, RebuildImpactPlan, flatten, impact_ids, index_configs,
  downstream_descendants, impact_dataset, impact_datasets, checked, plan_waves, plan_impact,
  plan_roots, plan_indexed, build_rebuild_impact_plan,
}
use fabric_data_framework.Rebuild.Reach.{Descends}
use fabric_data_framework.Rebuild.Waves.{IsScheduled}
use fabric_data_framework.Rebuild.Results.{affected_iff, waves-IsScheduled}
use fabric_data_framework.Rebuild.Progress.{planning_terminates}

abbrev raw : Text
raw = text "raw"

abbrev daily : Text
daily = text "daily"

abbrev other : Text
other = text "other"

abbrev raw_config : DatasetConfig
raw_config = config_of raw []

abbrev daily_config : DatasetConfig
daily_config =
    let config = config_of daily (raw ∷ []) in
    record config { layer = text "GOLD"; enabled = false }

abbrev other_config : DatasetConfig
other_config = record raw_config { dataset_id = other }

abbrev cyclic_config : DatasetConfig
cyclic_config = record daily_config { dataset_id = raw }

abbrev by_id : Dict Text DatasetConfig
by_id = (daily, daily_config) ∷ (raw, raw_config) ∷ (other, other_config) ∷ []

abbrev impact : RebuildImpactPlan
impact = record {
  issue_origin = capture_data;
  root_dataset_ids = raw ∷ [];
  datasets =
      record {
        dataset_id = raw;
        target_layer = text "BRONZE";
        enabled = true;
        is_root = true;
        rebuild_scope = capture_and_target;
      }
      ∷ record {
        dataset_id = daily;
        target_layer = text "GOLD";
        enabled = false;
        is_root = false;
        rebuild_scope = target_only;
      }
      ∷ [];
  waves = (raw ∷ []) ∷ (daily ∷ []) ∷ [];
  disabled_affected_dataset_ids = daily ∷ [];
}

indexed : index_configs (daily_config ∷ raw_config ∷ other_config ∷ []) [] ≡ ok by_id
unfolding index_configs get put
indexed = refl

planned :
    build_rebuild_impact_plan
      (daily_config ∷ raw_config ∷ other_config ∷ [])
      (raw ∷ [])
      capture_data
      []
    ≡ ok impact
unfolding build_rebuild_impact_plan index_configs plan_indexed plan_roots plan_impact plan_waves
    checked impact_datasets impact_dataset downstream_descendants root_rebuild_scope build_waves
    wave without ready_among is_ready descend offer reverse_from add_child children validate_graph
    visit_datasets visit_dataset visit_dependencies check_deployed discard distinct get put
    sort_with insert_with lex_lt
planned = refl

cycle_refused :
    build_rebuild_impact_plan (cyclic_config ∷ []) (raw ∷ []) capture_data []
    ≡ raise (graph_error dependency_cycle)
unfolding build_rebuild_impact_plan index_configs plan_indexed validate_graph visit_datasets
    visit_dataset visit_dependencies check_deployed get put sort_with insert_with
cycle_refused = refl

affected_iff_example :
    (elem daily (impact_ids impact.datasets) ≡ true) ↔ Descends (graph_of by_id) (raw ∷ []) daily
affected_iff_example =
    affected_iff (daily_config ∷ raw_config ∷ other_config ∷ []) (raw ∷ []) capture_data [] impact
      planned by_id indexed daily

waves-IsScheduled_example :
    IsScheduled (graph_of by_id) (impact_ids impact.datasets) [] impact.waves
    × (flatten impact.waves ≡ impact_ids impact.datasets)
    × (unique (flatten impact.waves) ≡ true)
waves-IsScheduled_example =
    waves-IsScheduled (daily_config ∷ raw_config ∷ other_config ∷ []) (raw ∷ []) capture_data []
      impact planned by_id indexed

planning_terminates_example :
    build_rebuild_impact_plan (cyclic_config ∷ []) (raw ∷ []) capture_data []
    ≢ raise (graph_error out_of_fuel)
planning_terminates_example = planning_terminates (cyclic_config ∷ []) (raw ∷ []) capture_data []
