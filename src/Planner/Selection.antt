-- ===== src/Planner/Selection.antt =====
-- build_dispatch_plan of orchestration/planner.py: what a plan holds.
use fabric_data_framework.Prelude.{
  ℕ, suc, ◌≤◌, ◌≡◌, ◌↔◌, true, Option, some, List, list_eq, nat_eq, Text, ok, elem, All,
}
use fabric_data_framework.Prelude.Sort.{IsSortedBy}
use fabric_data_framework.Prelude.Dict.{Dict, get}
use fabric_data_framework.Planner.Config.{DatasetConfig, EffectiveDatasetConfig, DispatchPlan}
use fabric_data_framework.Planner.Policy.{ExecutionGroupPolicy}
use fabric_data_framework.Planner.Topology.{IsOrdered}
use fabric_data_framework.Planner.Choosing.{IsChosen}
use fabric_data_framework.Planner.Build.{
  Hashes, PlanRequest, group_of, scheduled_before, orchestration_of,
}

-- What a plan for the deployed configurations holds.
pub record IsSelection (hashes : Hashes) (request : PlanRequest)
    (deployed : Dict Text DatasetConfig) (plan : DispatchPlan) : Type 0 where
  pub group : Option Text
  pub group_checked : group_of request deployed ≡ ok group
  pub entries :
      (id : Text) (e : EffectiveDatasetConfig)
      → (get id plan.effective_configs ≡ some e) ↔ IsChosen hashes request group deployed id e
  pub listed :
      (id : Text)
      → (elem id plan.selected_dataset_ids ≡ true)
        ↔ ((e : EffectiveDatasetConfig) × IsChosen hashes request group deployed id e)
  pub sorted : IsSortedBy scheduled_before plan.effective_configs
  pub supported :
      (id : Text) (e : EffectiveDatasetConfig)
      → get id plan.effective_configs ≡ some e
      → request.supports e.config ≡ true
  pub closed :
      (id : Text) (e : EffectiveDatasetConfig)
      → get id plan.effective_configs ≡ some e
      → All (λ d. elem d plan.deployed_dataset_ids ≡ true) e.config.orchestration.dependencies
  pub order : List Text
  pub ordered : IsOrdered (orchestration_of plan.effective_configs) order
  pub complete : (id : Text) → elem id plan.selected_dataset_ids ≡ true → elem id order ≡ true
  pub below_request : plan.max_concurrency ≤ request.max_concurrency
  pub below_dataset :
      (id : Text) (e : EffectiveDatasetConfig)
      → get id plan.effective_configs ≡ some e
      → plan.max_concurrency ≤ e.config.orchestration.max_concurrency
  pub below_group :
      (policy : ExecutionGroupPolicy) (n : ℕ)
      → request.execution_group_policy ≡ some policy
      → policy.max_concurrency ≡ some (suc n)
      → plan.max_concurrency ≤ suc n
