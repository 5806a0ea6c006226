-- ===== src/Examples/Plans.antt =====
-- planner.py on concrete plans.
use fabric_data_framework.Prelude.{
  In, ℕ, ◌≡◌, ◌≢◌, refl, true, none, some, [], ◌∷◌, All, elem, nat_eq, list_eq, Text, text, raise,
}
use fabric_data_framework.Prelude.Dict.{Dict, get, put}
use fabric_data_framework.Prelude.Sort.{insert_with, sort_with}
use fabric_data_framework.Prelude.Order.{lex_lt}
use fabric_data_framework.Planner.Config.{
  DatasetConfig, EffectiveDatasetConfig, fail_at_end, OrchestrationPolicy, DispatchPlan,
  out_of_fuel,
}
use fabric_data_framework.Time.{aware}
use fabric_data_framework.Examples.Configs.{needs, config_of, effective_of}
use fabric_data_framework.Planner.Grouping.{group_into}
use fabric_data_framework.Planner.Overrides.{
  OverrideChange, RuntimeOverride, field_of, is_active, highest_precedence, newest, winner,
  winners_of, select_overrides,
}
use fabric_data_framework.Planner.Governing.{IsInForce, selected-IsInForce}
use fabric_data_framework.Planner.Build.{Hashes, PlanRequest, build_dispatch_plan}
use fabric_data_framework.Planner.Total.{building_terminates}
use fabric_data_framework.Planner.Graph.{
  Marks, visit_each, visit, visit_all, discard, check_deployed, validate_dependency_graph,
}
use fabric_data_framework.Planner.Topology.{IsOrdered, validated_order}

abbrev a : Text
a = text "a"

abbrev b : Text
b = text "b"

abbrev chain : Dict Text OrchestrationPolicy
chain = (a, needs []) ∷ (b, needs (a ∷ [])) ∷ []

abbrev marks : Marks
marks = record { visiting = []; visited = b ∷ a ∷ [] }

validated_order_example :
    IsOrdered chain (b ∷ a ∷ [])
    × ((id : Text) (config : OrchestrationPolicy)
        → get id chain ≡ some config
        → (elem id (b ∷ a ∷ []) ≡ true) × All (λ d. elem d (a ∷ b ∷ []) ≡ true) config.dependencies)
unfolding validate_dependency_graph check_deployed visit_all visit visit_each discard get sort_with
    insert_with lex_lt
validated_order_example = validated_order chain (a ∷ b ∷ []) marks refl

abbrev a_config : DatasetConfig
a_config = config_of a []

abbrev b_config : DatasetConfig
b_config = config_of b (a ∷ [])

abbrev sets_priority : Text → ℕ → ℕ → RuntimeOverride
sets_priority id priority precedence = record {
  override_id = id;
  dataset_id = a;
  change = OverrideChange.priority priority;
  created_at = aware 1;
  valid_from = aware 2;
  valid_to = some (aware 20);
  precedence = precedence;
  enabled = true;
}

abbrev weak : RuntimeOverride
weak = sets_priority (text "o1") 5 0

abbrev strong : RuntimeOverride
strong = sets_priority (text "o2") 300 1

selected-IsInForce_example :
    All (IsInForce a_config (weak ∷ strong ∷ []) (aware 10)) (strong ∷ [])
    × All
        (λ o.
          is_active (aware 10) o ≡ true
          → (s : RuntimeOverride) × In s (strong ∷ []) × (field_of s ≡ field_of o))
        (weak ∷ strong ∷ [])
unfolding select_overrides winners_of winner newest highest_precedence group_into get put sort_with
    insert_with lex_lt
selected-IsInForce_example =
    selected-IsInForce a_config (weak ∷ strong ∷ []) (aware 10) (strong ∷ []) refl

abbrev hashes : Hashes
hashes = record {
  config_hash = λ config. config.dataset_id;
  policy_hash = λ policy. policy.execution_group;
}

abbrev request : PlanRequest
request = record {
  execution_group = some (text "nightly");
  execution_group_policy = none;
  requested_dataset_ids = none;
  overrides = weak ∷ strong ∷ [];
  max_concurrency = 8;
  evaluation_time = aware 10;
  supports = λ config. true;
}

abbrev a_effective : EffectiveDatasetConfig
a_effective =
    let later = record (needs []) { priority = 300 } in
    record {
      config = record a_config { orchestration = later };
      base_config_hash = a;
      effective_config_hash = a;
      applied_override_ids = text "o2" ∷ [];
    }

abbrev plan : DispatchPlan
plan = record {
  evaluation_time = aware 10;
  selected_dataset_ids = b ∷ a ∷ [];
  effective_configs = (b, effective_of b (a ∷ [])) ∷ (a, a_effective) ∷ [];
  deployed_dataset_ids = a ∷ b ∷ [];
  max_concurrency = 2;
  failure_policy = fail_at_end;
  execution_group_policy_hash = none;
}

building_terminates_example :
    build_dispatch_plan hashes request (a_config ∷ b_config ∷ []) ≢ raise out_of_fuel
building_terminates_example = building_terminates hashes request (a_config ∷ b_config ∷ [])
