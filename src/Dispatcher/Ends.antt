-- ===== src/Dispatcher/Ends.antt =====
-- How the loop of dispatch_datasets_with_backend ends, and what its calls are.
use fabric_data_framework.Prelude.{
  ◌≡◌, ◌≢◌, refl, ap, ◌∙◌, subst, inl, inr, Bool, true, Bool-cases, Option, Option-cases, none,
  some, List, [], ◌∷◌, map, list_eq, nat_eq, Text, length, All, All-map, all, elem, Result-cases,
  ok, raise, >>=-eq-ok, ok-inj, arith,
}
use fabric_data_framework.Prelude.Dict.{get, put}
use fabric_data_framework.Prelude.Traces.{Last, collect}
use fabric_data_framework.Planner.Config.{
  PipelineStatus, PipelineFailurePolicy, Criticality, EffectiveDatasetConfig, DispatchPlan,
}
use fabric_data_framework.Planner.Schedule.{
  Outcomes, effective_for, has_succeeded, is_ready, aggregate_pipeline_status,
}
use fabric_data_framework.Dispatcher.Contract.{
  PipelineRunAudit, PipelineDispatchResult, DispatchError, out_of_fuel, Environment, Effect,
  record_pipeline_run, record_dataset_run, execute_wave, Run, before, stopped, pipeline_audit,
  record_pipeline,
}
use fabric_data_framework.Dispatcher.Loop.{Progress, outcome_of_block, update, dispatch_loop}
use fabric_data_framework.Dispatcher.Dispatch.{select_outcomes, result_of, conclude}
use fabric_data_framework.Dispatcher.Rule.{IsReadyAt, dispatch_loop-rule}

abbrev pub pipeline_in : Effect → Option PipelineRunAudit
pipeline_in (record_pipeline_run a) = some a
pipeline_in _ = none

-- The audits of the pipeline that the repository took, in their order.
abbrev pub pipeline_audits : List Effect → List PipelineRunAudit
pipeline_audits es = collect pipeline_in es

-- The dependencies of the dataset have all succeeded, by the outcomes given.
abbrev pub HasSucceededDependencies : DispatchPlan → Outcomes → Text → Type 0
HasSucceededDependencies plan outcomes id =
    (effective : EffectiveDatasetConfig) × (effective_for plan id ≡ ok effective)
    × (all (has_succeeded outcomes) effective.config.orchestration.dependencies ≡ true)

-- Along the calls, with the outcomes that they give: each dataset that is handed to the backend has
-- only dependencies that have succeeded by then.
abbrev pub IsGuarded : DispatchPlan → Outcomes → List Effect → Type 0
IsGuarded plan outcomes [] = Unit
IsGuarded plan outcomes (record_pipeline_run a ∷ es) = IsGuarded plan outcomes es
IsGuarded plan outcomes (record_dataset_run a ∷ es) =
    IsGuarded plan (put a.dataset_id (outcome_of_block a) outcomes) es
IsGuarded plan outcomes (execute_wave ids (ok wave) ∷ es) =
    All (HasSucceededDependencies plan outcomes) ids × IsGuarded plan (update outcomes wave) es
IsGuarded plan outcomes (execute_wave ids (raise e) ∷ es) =
    All (HasSucceededDependencies plan outcomes) ids × IsGuarded plan outcomes es

select_outcomes-ids :
    (outcomes : Outcomes) (ids : List Text) (chosen : Outcomes)
    → select_outcomes outcomes ids ≡ ok chosen
    → map (λ entry. entry.0) chosen ≡ ids
unfolding select_outcomes
select_outcomes-ids outcomes [] chosen h = let e : [] ≡ chosen = cc in rw (← e) refl
select_outcomes-ids outcomes (id ∷ ids) chosen h = elim (Option-cases (get id outcomes)) [
  | inl absent ↦ ground arith
  | inr (o, here) ↦
      let (rest, others, k) =
        >>=-eq-ok (select_outcomes outcomes ids) _ (rw (here, select_outcomes) at h) in
      let e : (id, o) ∷ rest ≡ chosen = ok-inj _ _ k in
      rw (← e) (ap (λ xs. id ∷ xs) (select_outcomes-ids outcomes ids rest others))
]

select_outcomes-enough :
    (outcomes : Outcomes) (ids : List Text) → select_outcomes outcomes ids ≢ raise out_of_fuel
unfolding select_outcomes
select_outcomes-enough outcomes [] h = cc
select_outcomes-enough outcomes (id ∷ ids) h = elim (Option-cases (get id outcomes)) [
  | inl absent ↦ ground arith
  | inr (o, here) ↦ elim (Result-cases (select_outcomes outcomes ids)) [
    | inl (rest, e) ↦ ground arith
    | inr (error, e) ↦
        select_outcomes-enough outcomes ids
          (e ∙ ap raise (let same : error ≡ out_of_fuel = ground arith in same))
  ]
]

module _ (env : Environment) (plan : DispatchPlan) (policy : Option PipelineFailurePolicy)
    (required : Criticality → Bool) where
  -- How a run ends after the loop.
  data Concluded : Run → Type 0 where
    gave_up : (e : DispatchError) → e ≢ out_of_fuel → Concluded (stopped e)
    refused :
        (a : PipelineRunAudit) (e : DispatchError)
        → e ≢ out_of_fuel
        → Concluded (before (record_pipeline_run a) (stopped e))
    returned :
        (a : PipelineRunAudit) (result : PipelineDispatchResult)
        → a.status ≡ result.status
        → map (λ entry. entry.0) result.outcomes ≡ plan.selected_dataset_ids
        → Concluded (before (record_pipeline_run a) (record { effects = []; outcome = ok result }))

  closing-Concluded :
      (a : PipelineRunAudit) (status : PipelineStatus) (o : Outcomes)
      → a.status ≡ status
      → Concluded (record_pipeline env a (result_of env plan policy required status o))
  unfolding record_pipeline result_of
  closing-Concluded a status o same = elim (Result-cases (env.persist_pipeline a)) [
    | inr (e, bad) ↦ rw (bad, record_pipeline) (gave_up _ (λ h. cc))
    | inl (u, stored) ↦ elim (Result-cases (select_outcomes o plan.selected_dataset_ids)) [
      | inr (e, bad) ↦
          rw (stored, record_pipeline, bad, result_of)
            (refused a e
              (λ h. select_outcomes-enough o plan.selected_dataset_ids (bad ∙ ap raise h)))
      | inl (chosen, good) ↦
          rw (stored, record_pipeline, good, result_of)
            (returned a _ same (select_outcomes-ids o plan.selected_dataset_ids chosen good))
    ]
  ]

  conclude-Concluded : (p : Progress) → Concluded (conclude env plan policy required p)
  unfolding conclude pipeline_audit
  conclude-Concluded p =
      elim (Result-cases (aggregate_pipeline_status required plan p.outcomes policy)) [
        | inr (e, bad) ↦ rw (bad, conclude) (gave_up _ (λ h. cc))
        | inl (status, good) ↦ rw (good, conclude) (closing-Concluded _ status p.outcomes refl)
      ]

  abbrev pub the_loop : Run
  the_loop =
      dispatch_loop env plan (length plan.selected_dataset_ids)
        (record { remaining = plan.selected_dataset_ids; outcomes = [] })
        (conclude env plan policy required)

  pub loop_ends : the_loop.outcome ≢ raise out_of_fuel
  loop_ends =
      dispatch_loop-rule env plan (conclude env plan policy required)
        (λ p r. r.outcome ≢ raise out_of_fuel) (λ p e n h. n cc)
        (λ p. ends (conclude env plan policy required p) (conclude-Concluded p))
        (λ p id blockers r h. h) (λ p ready wave r g h. h) (λ p ready e r g h. h)
        (length plan.selected_dataset_ids) _ (omega arith)
    where
      ends : (r : Run) → Concluded r → r.outcome ≢ raise out_of_fuel
      ends _ (gave_up e n) h = n cc
      ends _ (refused a e n) h = n cc
      ends _ (returned a result s i) h = cc

  pub loop_audited :
      (result : PipelineDispatchResult)
      → the_loop.outcome ≡ ok result
      → Last (λ a. a.status ≡ result.status) (pipeline_audits the_loop.effects)
  loop_audited =
      dispatch_loop-rule env plan (conclude env plan policy required)
        (λ p r.
          (result : PipelineDispatchResult)
          → r.outcome ≡ ok result
          → Last (λ a. a.status ≡ result.status) (pipeline_audits r.effects))
        (λ p e n result h. cc)
        (λ p. ends (conclude env plan policy required p) (conclude-Concluded p))
        (λ p id blockers r h. h) (λ p ready wave r g h. h) (λ p ready e r g h. h)
        (length plan.selected_dataset_ids) _ (omega arith)
    where
      ends :
          (r : Run)
          → Concluded r
          → (result : PipelineDispatchResult) → r.outcome ≡ ok result
          → Last (λ a. a.status ≡ result.status) (pipeline_audits r.effects)
      ends _ (gave_up e n) result h = cc
      ends _ (refused a e n) result h = cc
      ends _ (returned a final s i) result h =
          let e : final ≡ result = ok-inj _ _ h in s ∙ ap (λ x. x.status) e

  abbrev pub IsSafe : Progress → Run → Type 0
  IsSafe p r =
      IsGuarded plan p.outcomes r.effects
      × ((result : PipelineDispatchResult)
          → r.outcome ≡ ok result
          → map (λ entry. entry.0) result.outcomes ≡ plan.selected_dataset_ids)

  ready-HasSucceeded :
      (p : Progress) (id : Text) → IsReadyAt plan p id → HasSucceededDependencies plan p.outcomes id
  unfolding is_ready
  ready-HasSucceeded p id h = elim (Bool-cases (elem id p.remaining)) [
    | inr gone ↦ ground arith
    | inl there ↦
        let (effective, found, rest) =
          >>=-eq-ok (effective_for plan id) _ (rw (there, is_ready) at h) in
        (effective, found, ground arith)
  ]

  pub loop-IsSafe :
      IsSafe (record { remaining = plan.selected_dataset_ids; outcomes = [] }) the_loop
  loop-IsSafe =
      dispatch_loop-rule env plan (conclude env plan policy required) IsSafe
        (λ p e n. (tt, λ result h. cc))
        (λ p. ends p (conclude env plan policy required p) (conclude-Concluded p))
        (λ p id blockers r h. h)
        (λ p ready wave r g h.
          ((All-map _ _ ready (λ id is_now. ready-HasSucceeded p id is_now) g, h.0), h.1))
        (λ p ready e r g h.
          ((All-map _ _ ready (λ id is_now. ready-HasSucceeded p id is_now) g, h.0), h.1))
        (length plan.selected_dataset_ids) _ (omega arith)
    where
      ends : (p : Progress) (r : Run) → Concluded r → IsSafe p r
      ends p _ (gave_up e n) = (tt, λ result h. cc)
      ends p _ (refused a e n) = (tt, λ result h. cc)
      ends p _ (returned a final s i) = (
        tt,
        λ result h.
            let e : final ≡ result = ok-inj _ _ h in
            subst (λ x. map (λ entry. entry.0) x.outcomes ≡ plan.selected_dataset_ids) e i,
      )
