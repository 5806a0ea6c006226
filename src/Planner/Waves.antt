-- ===== src/Planner/Waves.antt =====
-- ready_dataset_ids and aggregate_pipeline_status of orchestration/planner.py.
use fabric_data_framework.Prelude.{
  ◌≡◌, refl, ap, ◌⊎◌, ◌↔◌, inl, inr, Bool, true, false, not, Option, some, List, [], ◌∷◌, subst,
  if◌then◌else◌, ==_iff, list_eq, nat_eq, Text, elem, keep, all, All, Bool-cases, Option-cases, ok,
  raise, >>=-eq-ok, arith,
}
use fabric_data_framework.Prelude.Dict.{get}
use fabric_data_framework.Prelude.Sort.{sort_with}
use fabric_data_framework.Planner.Config.{
  DatasetDispatchOutcome, DispatchPlan, key_error, success, Criticality, PipelineFailurePolicy,
  is_succeeded,
}
use fabric_data_framework.Planner.Schedule.{
  Outcomes, effective_for, distinct, has_failed, has_succeeded, blockers, blocking_dependencies,
  is_ready, ready_among, ready_dataset_ids, aggregate_outcomes, aggregate_pipeline_status,
}

-- A dataset that may start: it has not run, and nothing that it depends on holds it back.
abbrev pub MayStart : DispatchPlan → Outcomes → List Text → Text → Type 0
MayStart plan outcomes remaining id =
    (elem id remaining ≡ true) × (blocking_dependencies plan id outcomes ≡ ok [])

module _ (plan : DispatchPlan) (outcomes : Outcomes)
    (planned : (id : Text) (o : DatasetDispatchOutcome)
      → get id outcomes ≡ some o
      → elem id plan.selected_dataset_ids ≡ true) where
  succeeded_dependency :
      (d : Text)
      → has_succeeded outcomes d ≡ true
      → (elem d plan.selected_dataset_ids ≡ true) × (has_failed outcomes d ≡ false)
  unfolding has_succeeded has_failed
  succeeded_dependency d h = elim (Option-cases (get d outcomes)) [
    | inl absent ↦ ground arith
    | inr (o, present) ↦ (planned d o present, ground arith)
  ]

  none_missing :
      (ds : List Text)
      → all (has_succeeded outcomes) ds ≡ true
      → (keep (λ d. not (elem d plan.selected_dataset_ids)) ds ≡ [])
        × (keep (has_failed outcomes) ds ≡ [])
  none_missing [] h = (refl, refl)
  none_missing (d ∷ ds) h =
      let here : has_succeeded outcomes d ≡ true = ground arith in
      let (there, fine) = succeeded_dependency d here in
      let (a, b) = none_missing ds (ground arith) in (rw there a, rw fine b)

  no_blockers :
      (ds : List Text) → all (has_succeeded outcomes) ds ≡ true → blockers plan outcomes ds ≡ []
  unfolding blockers distinct sort_with
  no_blockers ds h = let (a, b) = none_missing ds h in rw (a, b) refl

  is_ready-MayStart :
      (remaining : List Text) (id : Text)
      → is_ready plan remaining outcomes id ≡ ok true
      → MayStart plan outcomes remaining id
  unfolding is_ready blocking_dependencies
  is_ready-MayStart remaining id h = elim (Bool-cases (elem id remaining)) [
    | inr gone ↦ ground arith
    | inl there ↦
        let (effective, found, rest) =
          >>=-eq-ok (effective_for plan id) _ (rw (there, is_ready) at h) in
        let fine : all (has_succeeded outcomes) effective.config.orchestration.dependencies ≡ true =
          ground arith in
        (there, rw found (ap ok (no_blockers effective.config.orchestration.dependencies fine)))
  ]

  ready_among-MayStart :
      (remaining ids ready : List Text)
      → ready_among plan remaining outcomes ids ≡ ok ready
      → All (MayStart plan outcomes remaining) ready
  unfolding ready_among
  ready_among-MayStart remaining [] ready h = let e : [] ≡ ready = ground arith in rw (← e) tt
  ready_among-MayStart remaining (id ∷ ids) ready h =
      let (b, first, h1) = >>=-eq-ok (is_ready plan remaining outcomes id) _ h in
      let (rest, others, h2) = >>=-eq-ok (ready_among plan remaining outcomes ids) _ h1 in
      let settled = ready_among-MayStart remaining ids rest others in
      by_test b first rest settled (ground arith)
    where
      by_test :
          (b : Bool)
          → is_ready plan remaining outcomes id ≡ ok b
          → (rest : List Text) → All (MayStart plan outcomes remaining) rest
          → (if b then id ∷ rest else rest) ≡ ready
          → All (MayStart plan outcomes remaining) ready
      by_test true first rest settled e =
          subst (All (MayStart plan outcomes remaining)) e
            (is_ready-MayStart remaining id first, settled)
      by_test false first rest settled e = subst (All (MayStart plan outcomes remaining)) e settled

  -- Every dataset of a ready wave may start: where outcomes are known only of datasets of the plan,
  -- each dataset that is given as ready has not run yet, and its blocking dependencies are none.
  pub ready-MayStart :
      (remaining ready : List Text)
      → ready_dataset_ids plan remaining outcomes ≡ ok ready
      → All (MayStart plan outcomes remaining) ready
  unfolding ready_dataset_ids
  ready-MayStart remaining ready h =
      ready_among-MayStart remaining plan.selected_dataset_ids ready h

aggregate_outcomes-fails :
    (required : Criticality → Bool) (plan : DispatchPlan) (outcomes : Outcomes)
    → (aggregate_outcomes required plan outcomes ≡ ok success)
    → ok success ≡ raise key_error
unfolding aggregate_outcomes
aggregate_outcomes-fails required plan [] h = ground arith
aggregate_outcomes-fails required plan ((id, o) ∷ outcomes) h =
    let rest = aggregate_outcomes-fails required plan outcomes in
    elim (Bool-cases (is_succeeded o.status)) [
      | inl fine ↦ rest (rw (fine, aggregate_outcomes) at h)
      | inr bad ↦
          let (effective, found, h1) =
            >>=-eq-ok (effective_for plan id) _ (rw (bad, aggregate_outcomes) at h) in
          ground (arith, rest)
    ]

-- The status of the pipeline is success exactly where nothing was selected or every outcome is a
-- success, whatever the failure policy and the required criticalities are.
pub success_iff_all_succeeded :
    (required : Criticality → Bool) (plan : DispatchPlan) (outcomes : Outcomes)
    (policy : Option PipelineFailurePolicy)
    → (aggregate_pipeline_status required plan outcomes policy ≡ ok success) ↔ (
        (plan.selected_dataset_ids ≡ [])
        ⊎ (all (λ entry. is_succeeded entry.1.status) outcomes ≡ true))
unfolding aggregate_pipeline_status
success_iff_all_succeeded required plan outcomes policy =
    ground
      (arith, ==_iff plan.selected_dataset_ids [], aggregate_outcomes-fails required plan outcomes)
