-- ===== src/Planner/Build.antt =====
-- `build_dispatch_plan` of orchestration/planner.py. The capabilities of the engines are an argument
-- there too; what a hash gives is a parameter, as in Overrides.
use fabric_data_framework.Prelude.{
  ℕ, zero, suc, Bool, true, false, not, ◌&&◌, ◌||◌, Option, none, some, List, [], ◌∷◌, map,
  if◌then◌else◌, ltb, ◌==◌, nat_eq, list_eq, Text, length, elem, all, Result, ok, ◌>>=◌, ◌>>◌,
  raise_if,
}
use fabric_data_framework.Prelude.Dict.{Dict, get, update}
use fabric_data_framework.Prelude.Sort.{sort_with}
use fabric_data_framework.Prelude.Order.{lex_lt}
use fabric_data_framework.Time.{DateTime}
use fabric_data_framework.Planner.Config.{
  PlannerError, concurrency_not_positive, group_mismatch, policy_outside_group, undeployed_request,
  undeployed_override, unsupported_combination, OrchestrationPolicy, DatasetConfig,
  EffectiveDatasetConfig, DispatchPlan, PipelineFailurePolicy, fail_at_end,
}
use fabric_data_framework.Planner.Grouping.{members, group_into}
use fabric_data_framework.Planner.Overrides.{RuntimeOverride, resolve_effective_config}
use fabric_data_framework.Planner.Policy.{ExecutionGroupPolicy, apply_to}
use fabric_data_framework.Planner.Graph.{validate_dependency_graph}

pub record Hashes : Type 0 where
  pub config_hash : DatasetConfig → Text
  pub policy_hash : ExecutionGroupPolicy → Text

-- The arguments of the call, and the time at which it is evaluated.
pub record PlanRequest : Type 0 where
  pub execution_group : Option Text
  pub execution_group_policy : Option ExecutionGroupPolicy
  pub requested_dataset_ids : Option (List Text)
  pub overrides : List RuntimeOverride
  pub max_concurrency : ℕ
  pub evaluation_time : DateTime
  pub supports : DatasetConfig → Bool

-- `{config.dataset_id: config for config in …}`
unfoldable pub deployed_of : List DatasetConfig → Dict Text DatasetConfig
deployed_of configs = update [] (map (λ config. (config.dataset_id, config)) configs)

-- No group is named, or it is the dataset's.
abbrev pub in_group : Option Text → DatasetConfig → Bool
in_group none config = true
in_group (some group) config = config.orchestration.execution_group == group

abbrev pub is_requested : Option (List Text) → Text → Bool
is_requested none id = true
is_requested (some ids) id = elem id ids

abbrev group_member : Dict Text DatasetConfig → Text → Text → Bool
group_member deployed group id = elim (get id deployed) [
  | none ↦ false
  | some config ↦ in_group (some group) config
]

abbrev pub names_other : ExecutionGroupPolicy → Option Text → Bool
names_other policy none = false
names_other policy (some group) = not (group == policy.execution_group)

abbrev pub reaches_outside : ExecutionGroupPolicy → Dict Text DatasetConfig → Bool
reaches_outside policy deployed = not (
    all (λ item. group_member deployed policy.execution_group item.0)
      policy.dataset_quality_overrides)

-- The group that the plan is for, after the checks on the policy.
unfoldable pub group_of : PlanRequest → Dict Text DatasetConfig → Result PlannerError (Option Text)
group_of request deployed = elim request.execution_group_policy [
  | none ↦ ok request.execution_group
  | some policy ↦
      raise_if (names_other policy request.execution_group) group_mismatch
      >> (raise_if (reaches_outside policy deployed) policy_outside_group
          >> ok (some policy.execution_group))
]

module _ (hashes : Hashes) (request : PlanRequest) where
  -- The configuration after the policy of its group, and whether that was applied.
  unfoldable pub with_policy : DatasetConfig → Result PlannerError (DatasetConfig × Bool)
  with_policy base = elim request.execution_group_policy [
    | none ↦ ok (base, false)
    | some policy ↦
        if base.orchestration.execution_group == policy.execution_group
        then (apply_to policy base >>= λ config. ok (config, true))
        else ok (base, false)
  ]

  abbrev based_on : DatasetConfig → Bool → EffectiveDatasetConfig → EffectiveDatasetConfig
  based_on base true effective = record effective { base_config_hash = hashes.config_hash base }
  based_on base false effective = effective

  -- A dataset's configuration, after the policy and the overrides.
  unfoldable pub effective_config :
      Text → DatasetConfig → Result PlannerError EffectiveDatasetConfig
  effective_config id base = do
    (config, applied) ← with_policy base
    effective ←
        resolve_effective_config hashes.config_hash config
          (members (get id (group_into (λ o. o.dataset_id) request.overrides [])))
          request.evaluation_time
    ok (based_on base applied effective)

  -- The three reasons to pass over a dataset.
  abbrev pub is_chosen : Option Text → Text → EffectiveDatasetConfig → Bool
  is_chosen group id effective =
      effective.config.enabled
      && in_group group effective.config
      && is_requested request.requested_dataset_ids id

  unfoldable pub choose_each :
      Option Text → Dict Text DatasetConfig → Result PlannerError (Dict Text EffectiveDatasetConfig)
  choose_each group [] = ok []
  choose_each group ((id, base) ∷ deployed) = do
    effective ← effective_config id base
    raise_if (is_chosen group id effective && not (request.supports effective.config))
        unsupported_combination
    rest ← choose_each group deployed
    ok (if is_chosen group id effective then (id, effective) ∷ rest else rest)

-- The order of the pairs of priority and name.
abbrev pub scheduled_before : Text × EffectiveDatasetConfig → Text × EffectiveDatasetConfig → Bool
scheduled_before a b =
    let p = a.1.config.orchestration.priority in
    let q = b.1.config.orchestration.priority in ltb p q || (p == q && lex_lt a.0 b.0)

abbrev pub orchestration_of : Dict Text EffectiveDatasetConfig → Dict Text OrchestrationPolicy
orchestration_of chosen = map (λ item. (item.0, item.1.config.orchestration)) chosen

abbrev pub smaller : ℕ → ℕ → ℕ
smaller m n = if ltb n m then n else m

-- The smallest of a limit and those of the datasets.
unfoldable pub limited_by : ℕ → Dict Text EffectiveDatasetConfig → ℕ
limited_by limit [] = limit
limited_by limit ((id, effective) ∷ rest) =
    smaller (limited_by limit rest) effective.config.orchestration.max_concurrency

abbrev pub group_limit : Option ExecutionGroupPolicy → ℕ → ℕ
group_limit none limit = limit
group_limit (some policy) limit = elim policy.max_concurrency [
  | none ↦ limit
  | some zero ↦ limit
  | some (suc n) ↦ smaller limit (suc n)
]

unfoldable pub effective_concurrency : PlanRequest → Dict Text EffectiveDatasetConfig → ℕ
effective_concurrency request [] = 1
effective_concurrency request (first ∷ rest) =
    let chosen = first ∷ rest in
    group_limit request.execution_group_policy
      (limited_by (smaller request.max_concurrency (length chosen)) chosen)

abbrev failure_policy_of : Option ExecutionGroupPolicy → PipelineFailurePolicy
failure_policy_of none = fail_at_end
failure_policy_of (some policy) = policy.failure_policy

abbrev policy_hash_of : Hashes → Option ExecutionGroupPolicy → Option Text
policy_hash_of hashes none = none
policy_hash_of hashes (some policy) = some (hashes.policy_hash policy)

abbrev pub plan_of :
    Hashes → PlanRequest → List Text → Dict Text EffectiveDatasetConfig → DispatchPlan
plan_of hashes request deployed_ids chosen =
    let planned = sort_with scheduled_before chosen in
    record {
      evaluation_time = request.evaluation_time;
      selected_dataset_ids = map (λ item. item.0) planned;
      effective_configs = planned;
      deployed_dataset_ids = deployed_ids;
      max_concurrency = effective_concurrency request chosen;
      failure_policy = failure_policy_of request.execution_group_policy;
      execution_group_policy_hash = policy_hash_of hashes request.execution_group_policy;
    }

abbrev pub any_unknown : List Text → Option (List Text) → Bool
any_unknown deployed_ids none = false
any_unknown deployed_ids (some requested) = not (all (λ id. elem id deployed_ids) requested)

unfoldable pub plan_deployed :
    Hashes → PlanRequest → Dict Text DatasetConfig → List Text → Result PlannerError DispatchPlan
plan_deployed hashes request deployed deployed_ids = do
  group ← group_of request deployed
  raise_if (any_unknown deployed_ids request.requested_dataset_ids) undeployed_request
  raise_if (not (all (λ o. elem o.dataset_id deployed_ids) request.overrides)) undeployed_override
  chosen ← choose_each hashes request group deployed
  validate_dependency_graph (orchestration_of chosen) deployed_ids
  ok (plan_of hashes request deployed_ids chosen)

-- `list_datasets` of the repository gives the configurations.
unfoldable pub build_dispatch_plan :
    Hashes → PlanRequest → List DatasetConfig → Result PlannerError DispatchPlan
build_dispatch_plan hashes request configs =
    let deployed = deployed_of configs in
    raise_if (request.max_concurrency == 0) concurrency_not_positive
    >> plan_deployed hashes request deployed (map (λ item. item.0) deployed)
