-- ===== src/Planner/Schedule.antt =====
-- blocking_dependencies, ready_dataset_ids and aggregate_pipeline_status of
-- orchestration/planner.py.
use fabric_data_framework.Prelude.{
  Bool, false, not, Option, none, some, List, [], ◌∷◌, ◌++◌, if◌then◌else◌, ◌==◌, list_eq, nat_eq,
  Text, elem, keep, all, Result, ok, raise, ◌>>=◌,
}
use fabric_data_framework.Prelude.Dict.{Dict, get}
use fabric_data_framework.Prelude.Sort.{sort_by}
use fabric_data_framework.Planner.Config.{
  EffectiveDatasetConfig, DatasetDispatchOutcome, DispatchPlan, PlannerError, key_error,
  PipelineStatus, success, partial_success, failed, PipelineFailurePolicy, fail_at_end,
  criticality_aware, Criticality, is_succeeded,
}

abbrev pub Outcomes : Type 0
Outcomes = Dict Text DatasetDispatchOutcome

unfoldable pub effective_for : DispatchPlan → Text → Result PlannerError EffectiveDatasetConfig
effective_for plan id = elim (get id plan.effective_configs) [
  | none ↦ raise key_error
  | some effective ↦ ok effective
]

-- `set(…)`, as a list in which nothing stands twice
unfoldable pub distinct : List Text → List Text
distinct [] = []
distinct (x ∷ xs) = let rest = distinct xs in if elem x rest then rest else x ∷ rest

unfoldable pub has_failed : Outcomes → Text → Bool
has_failed outcomes dependency = elim (get dependency outcomes) [
  | none ↦ false
  | some outcome ↦ not (is_succeeded outcome.status)
]

unfoldable pub has_succeeded : Outcomes → Text → Bool
has_succeeded outcomes dependency = elim (get dependency outcomes) [
  | none ↦ false
  | some outcome ↦ is_succeeded outcome.status
]

unfoldable pub blockers : DispatchPlan → Outcomes → List Text → List Text
blockers plan outcomes dependencies =
    sort_by (λ id. id)
      (distinct (
        keep (λ d. not (elem d plan.selected_dataset_ids)) dependencies
        ++ keep (has_failed outcomes) dependencies))

unfoldable pub blocking_dependencies :
    DispatchPlan → Text → Outcomes → Result PlannerError (List Text)
blocking_dependencies plan id outcomes = effective_for plan id >>= λ effective.
    ok (blockers plan outcomes effective.config.orchestration.dependencies)

-- The test of the comprehension; the configuration is read only for a dataset that remains.
unfoldable pub is_ready : DispatchPlan → List Text → Outcomes → Text → Result PlannerError Bool
is_ready plan remaining outcomes id =
    if elem id remaining
    then (effective_for plan id >>= λ effective.
        ok (all (has_succeeded outcomes) effective.config.orchestration.dependencies))
    else ok false

unfoldable pub ready_among :
    DispatchPlan → List Text → Outcomes → List Text → Result PlannerError (List Text)
ready_among plan remaining outcomes [] = ok []
ready_among plan remaining outcomes (id ∷ ids) = do
  ready ← is_ready plan remaining outcomes id
  rest ← ready_among plan remaining outcomes ids
  ok (if ready then id ∷ rest else rest)

unfoldable pub ready_dataset_ids :
    DispatchPlan → List Text → Outcomes → Result PlannerError (List Text)
ready_dataset_ids plan remaining outcomes =
    ready_among plan remaining outcomes plan.selected_dataset_ids

module _ (required : Criticality → Bool) where
  -- The loop over the outcomes, which stops at the first failure of a required dataset.
  unfoldable pub aggregate_outcomes : DispatchPlan → Outcomes → Result PlannerError PipelineStatus
  aggregate_outcomes plan [] = ok partial_success
  aggregate_outcomes plan ((id, outcome) ∷ outcomes) =
      let rest = aggregate_outcomes plan outcomes in
      if is_succeeded outcome.status
      then rest
      else effective_for plan id >>= λ effective.
          if required effective.config.orchestration.criticality then ok failed else rest

  unfoldable pub aggregate_pipeline_status :
      DispatchPlan → Outcomes → Option PipelineFailurePolicy → Result PlannerError PipelineStatus
  aggregate_pipeline_status plan outcomes failure_policy =
      if plan.selected_dataset_ids == []
      then ok success
      else if all (λ entry. is_succeeded entry.1.status) outcomes
      then ok success
      else by_policy (policy_of failure_policy)
    where
      policy_of : Option PipelineFailurePolicy → PipelineFailurePolicy
      policy_of none = plan.failure_policy
      policy_of (some policy) = policy

      by_policy : PipelineFailurePolicy → Result PlannerError PipelineStatus
      by_policy fail_at_end = ok failed
      by_policy criticality_aware = aggregate_outcomes plan outcomes
