-- ===== src/Dispatcher/Results.antt =====
-- What dispatch_datasets_with_backend promises, for any backend and repository.
use fabric_data_framework.Prelude.{
  ◌≡◌, ◌≢◌, refl, ap, ◌∙◌, ◌⊎◌, inl, inr, Bool, true, false, Option, List, [], ◌∷◌, Bool-cases,
  text, Result, Result-cases, ok, raise,
}
use fabric_data_framework.Prelude.Traces.{Last}
use fabric_data_framework.Planner.Config.{
  PlannerError, undeployed_dependency, dependency_cycle, key_error, concurrency_not_positive,
  wrong_group, group_mismatch, policy_outside_group, undeployed_request, undeployed_override,
  unsupported_combination, naive_time, wrong_target, override_conflict, no_watermark,
  empty_sequence, DatasetConfig, PipelineStatus, PipelineFailurePolicy, Criticality, DispatchPlan,
}
use fabric_data_framework.Planner.Build.{Hashes, PlanRequest, build_dispatch_plan}
use fabric_data_framework.Planner.Total.{building_terminates}
use fabric_data_framework.Recovery.Contract.{PyException}
use fabric_data_framework.Dispatcher.Contract.{
  PipelineRunAudit, DispatchError, repository_error, out_of_fuel, Environment, record_pipeline_run,
  Run, stopped, pipeline_audit,
}
use fabric_data_framework.Dispatcher.Dispatch.{
  is_integrity_error, of_planning, failed_audit, record_unplanned, dispatch_planned,
  dispatch_datasets_with_backend,
}
use fabric_data_framework.Dispatcher.Ends.{pipeline_audits, IsGuarded}
use fabric_data_framework.Dispatcher.Shapes.{
  IsAudited, ListsAll, recorded_end, dispatched-Shape, Shape-ends, Shape-IsAudited, Shape-IsGuarded,
  Shape-ListsAll,
}

of_planning-eq : (e : PlannerError) → of_planning e ≡ out_of_fuel → e ≡ PlannerError.out_of_fuel
of_planning-eq PlannerError.out_of_fuel h = refl
of_planning-eq undeployed_dependency h = cc
of_planning-eq dependency_cycle h = cc
of_planning-eq key_error h = cc
of_planning-eq concurrency_not_positive h = cc
of_planning-eq wrong_group h = cc
of_planning-eq group_mismatch h = cc
of_planning-eq policy_outside_group h = cc
of_planning-eq undeployed_request h = cc
of_planning-eq undeployed_override h = cc
of_planning-eq unsupported_combination h = cc
of_planning-eq naive_time h = cc
of_planning-eq wrong_target h = cc
of_planning-eq override_conflict h = cc
of_planning-eq no_watermark h = cc
of_planning-eq empty_sequence h = cc

-- What a dispatch that could not be planned records: an integrity error leaves the audit FAILED, or
-- the error of a repository that refused it; another error leaves nothing.
abbrev pub RecordsError : Bool → PlannerError → Run → Type 0
RecordsError false e r = (r.effects ≡ []) × (r.outcome ≡ raise (of_planning e))
RecordsError true e r =
    ((f : PyException) × (r.outcome ≡ raise (repository_error f)))
    ⊎ (Last (λ a. a.status ≡ PipelineStatus.failed) (pipeline_audits r.effects)
        × (r.outcome ≡ raise (of_planning e)))

abbrev pub RecordsPlanning : Result PlannerError DispatchPlan → Run → Type 0
RecordsPlanning (ok plan) r = Unit
RecordsPlanning (raise e) r = RecordsError (is_integrity_error e) e r

-- A dispatch without a plan: nothing is recorded, or one FAILED audit, and an error is raised.
data Unplanned (e : PlannerError) : Run → Type 0 where
  unrecorded : (f : DispatchError) → f ≢ out_of_fuel → Unplanned e (stopped f)
  recorded :
      (a : PipelineRunAudit)
      → a.status ≡ PipelineStatus.failed
      → of_planning e ≢ out_of_fuel
      → Unplanned e
          (record { effects = record_pipeline_run a ∷ []; outcome = raise (of_planning e) })

module _ (env : Environment) where
  record_unplanned-cases :
      (e : DispatchError)
      → ((f : PyException) × (record_unplanned env e ≡ stopped (repository_error f)))
        ⊎ ((a : PipelineRunAudit) × (a.status ≡ PipelineStatus.failed)
            × (record_unplanned env e
                ≡ record { effects = record_pipeline_run a ∷ []; outcome = raise e }))
  unfolding record_unplanned pipeline_audit
  record_unplanned-cases e =
      let a = failed_audit env (text "ORCHESTRATION_INTEGRITY_ERROR") (env.describe e) in
      elim (Result-cases (env.persist_pipeline a)) [
        | inr (f, bad) ↦ inl (f, rw (bad, record_unplanned) refl)
        | inl (u, stored) ↦ inr (a, refl, rw (stored, record_unplanned) refl)
      ]

  module _ (policy : Option PipelineFailurePolicy) (required : Criticality → Bool) where
    dispatch_planned-Unplanned :
        (e : PlannerError)
        → e ≢ PlannerError.out_of_fuel
        → Unplanned e (dispatch_planned env (raise e) policy required)
          × RecordsPlanning (raise e) (dispatch_planned env (raise e) policy required)
    unfolding dispatch_planned
    dispatch_planned-Unplanned e n =
        let fuel : of_planning e ≢ out_of_fuel = λ h. n (of_planning-eq e h) in
        elim (Bool-cases (is_integrity_error e)) [
          | inr other ↦ rw other (unrecorded (of_planning e) fuel, (refl, refl))
          | inl integrity ↦ elim (record_unplanned-cases (of_planning e)) [
            | inl (f, same) ↦ rw (integrity, same) (unrecorded _ (λ h. cc), inl (f, refl))
            | inr (a, failing, same) ↦
                rw (integrity, same) (recorded a failing fuel, inr (failing, refl))
          ]
        ]

Unplanned-ends : (e : PlannerError) (r : Run) → Unplanned e r → r.outcome ≢ raise out_of_fuel
Unplanned-ends e _ (unrecorded f n) h = n cc
Unplanned-ends e _ (recorded a failing n) h = n cc

Unplanned-IsAudited :
    (e : PlannerError) (r : Run) → Unplanned e r → IsAudited r.outcome (pipeline_audits r.effects)
Unplanned-IsAudited e _ (unrecorded f n) = recorded_end f [] (inl refl)
Unplanned-IsAudited e _ (recorded a failing n) = recorded_end (of_planning e) (a ∷ []) (inr failing)

module _ (env : Environment) (hashes : Hashes) (request : PlanRequest)
    (configs : List DatasetConfig) (policy : Option PipelineFailurePolicy)
    (required : Criticality → Bool) where
  abbrev planned : Result PlannerError DispatchPlan
  planned = build_dispatch_plan hashes request configs

  abbrev run : Run
  run = dispatch_datasets_with_backend env hashes request configs policy required

  run-eq :
      (r : Result PlannerError DispatchPlan)
      → planned ≡ r
      → run ≡ dispatch_planned env r policy required
  unfolding dispatch_datasets_with_backend
  run-eq r e = ap (λ x. dispatch_planned env x policy required) e

  -- A dispatch ends, whatever the configurations, the request, the backend's and the repository's
  -- replies are: neither the planning nor the loop, which never takes more turns than datasets are
  -- selected, runs out of fuel.
  pub dispatch_terminates : run.outcome ≢ raise out_of_fuel
  dispatch_terminates = elim (Result-cases planned) [
    | inl (plan, made) ↦
        rw (run-eq (ok plan) made)
          (Shape-ends env plan policy required _ (dispatched-Shape env plan policy required))
    | inr (e, bad) ↦
        let fuel : e ≢ PlannerError.out_of_fuel =
          λ h. building_terminates hashes request configs (bad ∙ ap raise h) in
        rw (run-eq (raise e) bad)
          (Unplanned-ends e _ (dispatch_planned-Unplanned env policy required e fuel).0)
  ]

  -- The last audit of the pipeline that a dispatch records has the status of the result that the
  -- dispatch returns, or FAILED where the dispatch raises; unless the repository took no audit at all,
  -- or the dispatch raises PipelineFinalizationError. Where the planning itself fails with an
  -- integrity error, the dispatch raises it and its last audit is FAILED, or it raises the error of a
  -- repository that refused that audit; any other error of the planning is raised with no audit.
  pub dispatch-IsAudited :
      IsAudited run.outcome (pipeline_audits run.effects) × RecordsPlanning planned run
  dispatch-IsAudited = elim (Result-cases planned) [
    | inl (plan, made) ↦
        rw (run-eq (ok plan) made, made)
          (
            Shape-IsAudited env plan policy required _ (dispatched-Shape env plan policy required),
            tt,
          )
    | inr (e, bad) ↦
        let fuel : e ≢ PlannerError.out_of_fuel =
          λ h. building_terminates hashes request configs (bad ∙ ap raise h) in
        let (shape, records) = dispatch_planned-Unplanned env policy required e fuel in
        rw (run-eq (raise e) bad, bad) (Unplanned-IsAudited e _ shape, records)
  ]

  -- Where the planning gives a plan: every dataset that the dispatch hands to the backend, also in a
  -- wave on which the backend raises, has only dependencies that have succeeded by the outcomes of
  -- the earlier waves, in which a blocked dataset counts as blocked; and where the dispatch returns,
  -- it returns exactly one outcome for each selected dataset, in their order.
  pub dispatch-IsGuarded :
      (plan : DispatchPlan)
      → planned ≡ ok plan
      → IsGuarded plan [] run.effects × ListsAll plan.selected_dataset_ids run.outcome
  dispatch-IsGuarded plan made = rw (run-eq (ok plan) made) (
    Shape-IsGuarded env plan policy required _ (dispatched-Shape env plan policy required),
    Shape-ListsAll env plan policy required _ (dispatched-Shape env plan policy required),
  )
