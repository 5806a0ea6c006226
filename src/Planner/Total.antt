-- ===== src/Planner/Total.antt =====
-- build_dispatch_plan of orchestration/planner.py gives a plan or raises.
use fabric_data_framework.Prelude.{
  ◌≢◌, not, ◌&&◌, Option, List, [], ◌∷◌, map, ◌==◌, list_eq, nat_eq, Text, elem, all, keep,
  Bool-cases, Option-cases, Result, ok, raise, >>=-ne-raise, guard-ne, inl, inr,
}
use fabric_data_framework.Prelude.Dict.{Dict}
use fabric_data_framework.Time.{DateTime, is_aware}
use fabric_data_framework.Planner.Config.{
  PlannerError, out_of_fuel, concurrency_not_positive, wrong_group, group_mismatch,
  policy_outside_group, undeployed_request, undeployed_override, unsupported_combination,
  naive_time, wrong_target, override_conflict, DatasetConfig,
}
use fabric_data_framework.Planner.Grouping.{group_into}
use fabric_data_framework.Planner.Overrides.{
  enabled, data_quality_enabled, quarantine_enabled, priority, retry_count, timeout_seconds,
  batch_size, max_concurrency, watermark_overlap_seconds, OverrideChange, RuntimeOverride, field_of,
  is_active, values_differ, winner, strongest, winners_of, select_overrides, apply_override,
  apply_overrides, resolve_effective_config,
}
use fabric_data_framework.Planner.Policy.{ExecutionGroupPolicy, apply_to}
use fabric_data_framework.Planner.Graph.{validate_dependency_graph}
use fabric_data_framework.Planner.Depth.{validation_terminates}
use fabric_data_framework.Planner.Build.{
  Hashes, PlanRequest, deployed_of, group_of, with_policy, effective_config, is_chosen, choose_each,
  orchestration_of, any_unknown, names_other, reaches_outside, plan_deployed, build_dispatch_plan,
}

-- The code raises one of its own errors, or none: its fuel does not run out.
abbrev Ends : {A : Type 0} → Result PlannerError A → Type 0
Ends r = r ≢ raise out_of_fuel

ok-Ends : {A : Type 0} (a : A) → Ends (ok a)
ok-Ends a h = cc

winner-Ends : (os : List RuntimeOverride) → Ends (winner os)
unfolding winner
winner-Ends [] = λ h. cc
winner-Ends (o ∷ os) =
    guard-ne (values_differ (o ∷ os)) override_conflict out_of_fuel _ (λ e. cc) (λ _. ok-Ends _)

winners_of-Ends : (groups : Dict Text (List RuntimeOverride)) → Ends (winners_of groups)
unfolding winners_of
winners_of-Ends [] = ok-Ends []
winners_of-Ends ((field, candidates) ∷ groups) =
    >>=-ne-raise (winner (strongest candidates)) _ out_of_fuel (winner-Ends (strongest candidates))
      (λ w _.
        >>=-ne-raise (winners_of groups) _ out_of_fuel (winners_of-Ends groups)
          (λ rest _. ok-Ends _))

select_overrides-Ends :
    (config : DatasetConfig) (overrides : List RuntimeOverride) (at : DateTime)
    → Ends (select_overrides config overrides at)
unfolding select_overrides
select_overrides-Ends config overrides at =
    guard-ne (not (all (λ o. o.dataset_id == config.dataset_id) overrides)) wrong_target out_of_fuel
      _ (λ e. cc)
      (λ _.
        >>=-ne-raise (winners_of (group_into field_of (keep (is_active at) overrides) [])) _
          out_of_fuel (winners_of-Ends _) (λ selected _. ok-Ends _))

apply_override-Ends : (config : DatasetConfig) (c : OverrideChange) → Ends (apply_override config c)
unfolding apply_override
apply_override-Ends config (enabled b) = ok-Ends _
apply_override-Ends config (data_quality_enabled b) = ok-Ends _
apply_override-Ends config (quarantine_enabled b) = ok-Ends _
apply_override-Ends config (priority n) = ok-Ends _
apply_override-Ends config (retry_count n) = ok-Ends _
apply_override-Ends config (timeout_seconds n) = ok-Ends _
apply_override-Ends config (batch_size n) = ok-Ends _
apply_override-Ends config (max_concurrency n) = ok-Ends _
apply_override-Ends config (watermark_overlap_seconds n) =
    elim (Option-cases config.watermark_overlap) [
      | inl absent ↦ rw absent (λ h. cc)
      | inr (before, present) ↦ rw present (ok-Ends _)
    ]

apply_overrides-Ends :
    (config : DatasetConfig) (os : List RuntimeOverride) → Ends (apply_overrides config os)
unfolding apply_overrides
apply_overrides-Ends config [] = ok-Ends config
apply_overrides-Ends config (o ∷ os) =
    >>=-ne-raise (apply_override config o.change) _ out_of_fuel
      (apply_override-Ends config o.change) (λ next _. apply_overrides-Ends next os)

resolve-Ends :
    (config_hash : DatasetConfig → Text) (config : DatasetConfig) (overrides : List RuntimeOverride)
    (at : DateTime)
    → Ends (resolve_effective_config config_hash config overrides at)
unfolding resolve_effective_config
resolve-Ends config_hash config overrides at =
    guard-ne (not (is_aware at)) naive_time out_of_fuel _ (λ e. cc)
      (λ _.
        >>=-ne-raise (select_overrides config overrides at) _ out_of_fuel
          (select_overrides-Ends config overrides at)
          (λ selected _.
            >>=-ne-raise (apply_overrides config selected) _ out_of_fuel
              (apply_overrides-Ends config selected) (λ effective _. ok-Ends _)))

module _ (hashes : Hashes) (request : PlanRequest) where
  apply_to-Ends :
      (policy : ExecutionGroupPolicy) (config : DatasetConfig) → Ends (apply_to policy config)
  unfolding apply_to
  apply_to-Ends policy config =
      guard-ne (not (config.orchestration.execution_group == policy.execution_group)) wrong_group
        out_of_fuel _ (λ e. cc) (λ _. ok-Ends _)

  with_policy-Ends : (base : DatasetConfig) → Ends (with_policy hashes request base)
  unfolding with_policy
  with_policy-Ends base = elim (Option-cases request.execution_group_policy) [
    | inl absent ↦ rw absent (ok-Ends _)
    | inr (policy, present) ↦
        rw present
          (elim (Bool-cases (base.orchestration.execution_group == policy.execution_group)) [
            | inl inside ↦ rw inside (
                >>=-ne-raise (apply_to policy base) _ out_of_fuel (apply_to-Ends policy base)
                  (λ config _. ok-Ends _))
            | inr outside ↦ rw outside (ok-Ends _)
          ])
  ]

  effective_config-Ends :
      (id : Text) (base : DatasetConfig) → Ends (effective_config hashes request id base)
  unfolding effective_config
  effective_config-Ends id base =
      >>=-ne-raise (with_policy hashes request base) _ out_of_fuel (with_policy-Ends base) (λ p _.
        >>=-ne-raise (resolve_effective_config hashes.config_hash p.0 _ _) _ out_of_fuel
          (resolve-Ends hashes.config_hash p.0 _ request.evaluation_time)
          (λ effective _. ok-Ends _))

  choose_each-Ends :
      (group : Option Text) (deployed : Dict Text DatasetConfig)
      → Ends (choose_each hashes request group deployed)
  unfolding choose_each
  choose_each-Ends group [] = ok-Ends []
  choose_each-Ends group ((id, base) ∷ deployed) =
      >>=-ne-raise (effective_config hashes request id base) _ out_of_fuel
        (effective_config-Ends id base)
        (λ effective _.
          guard-ne
            (is_chosen hashes request group id effective && not (request.supports effective.config))
            unsupported_combination out_of_fuel _ (λ e. cc)
            (λ _.
              >>=-ne-raise (choose_each hashes request group deployed) _ out_of_fuel
                (choose_each-Ends group deployed) (λ rest _. ok-Ends _)))

  group_of-Ends : (deployed : Dict Text DatasetConfig) → Ends (group_of request deployed)
  unfolding group_of
  group_of-Ends deployed = elim (Option-cases request.execution_group_policy) [
    | inl absent ↦ rw absent (ok-Ends _)
    | inr (policy, present) ↦ rw present (
        guard-ne (names_other policy request.execution_group) group_mismatch out_of_fuel _ (λ e. cc)
          (λ _.
            guard-ne (reaches_outside policy deployed) policy_outside_group out_of_fuel _ (λ e. cc)
              (λ _. ok-Ends _)))
  ]

-- The fuel of a dispatch plan is enough: for any configurations and any request, the building of the
-- plan ends with a plan or one of the errors of the source, and never by running out of fuel.
pub building_terminates :
    (hashes : Hashes) (request : PlanRequest) (configs : List DatasetConfig)
    → build_dispatch_plan hashes request configs ≢ raise out_of_fuel
unfolding build_dispatch_plan plan_deployed
building_terminates hashes request configs =
    let deployed = deployed_of configs in
    let ids = map (λ item. item.0) deployed in
    guard-ne (request.max_concurrency == 0) concurrency_not_positive out_of_fuel _ (λ e. cc)
      (λ _.
        >>=-ne-raise (group_of request deployed) _ out_of_fuel
          (group_of-Ends hashes request deployed)
          (λ group _.
            guard-ne (any_unknown ids request.requested_dataset_ids) undeployed_request out_of_fuel
              _ (λ e. cc)
              (λ _.
                guard-ne (not (all (λ o. elem o.dataset_id ids) request.overrides))
                  undeployed_override out_of_fuel _ (λ e. cc)
                  (λ _.
                    >>=-ne-raise (choose_each hashes request group deployed) _ out_of_fuel
                      (choose_each-Ends hashes request group deployed)
                      (λ chosen _.
                        >>=-ne-raise (validate_dependency_graph (orchestration_of chosen) ids) _
                          out_of_fuel (validation_terminates (orchestration_of chosen) ids)
                          (λ marks _. ok-Ends _))))))
