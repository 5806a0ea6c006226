-- ===== src/Dispatcher/Dispatch.antt =====
-- dispatch_datasets_with_backend of orchestration/dispatcher.py, over Planner's build_dispatch_plan.
use fabric_data_framework.Prelude.{
  Bool, true, false, if◌then◌else◌, Option, none, some, List, [], ◌∷◌, ◌++◌, list_eq, nat_eq, Text,
  text, length, Result, ok, raise, ◌>>=◌,
}
use fabric_data_framework.Prelude.Dict.{get}
use fabric_data_framework.Planner.Config.{
  PlannerError, undeployed_dependency, dependency_cycle, group_mismatch, policy_outside_group,
  undeployed_request, undeployed_override, DatasetConfig, PipelineStatus, PipelineFailurePolicy,
  Criticality, DispatchPlan,
}
use fabric_data_framework.Planner.Build.{Hashes, PlanRequest, build_dispatch_plan}
use fabric_data_framework.Planner.Schedule.{Outcomes, aggregate_pipeline_status}
use fabric_data_framework.Dispatcher.Contract.{
  PipelineRunAudit, DispatchError, planning, key_error, no_progress, invalid_ready_wave_result,
  out_of_fuel, backend_ready_wave_error, repository_error, finalization_error, Environment,
  record_pipeline_run, Run, stopped, bounded_message, or_text, aggregate_outcome_error,
  pipeline_audit, record_pipeline,
}
use fabric_data_framework.Dispatcher.Loop.{Progress, dispatch_loop}

-- The errors of build_dispatch_plan that are OrchestrationIntegrityErrors.
abbrev pub is_integrity_error : PlannerError → Bool
is_integrity_error undeployed_dependency = true
is_integrity_error dependency_cycle = true
is_integrity_error group_mismatch = true
is_integrity_error policy_outside_group = true
is_integrity_error undeployed_request = true
is_integrity_error undeployed_override = true
is_integrity_error _ = false

-- `_terminal_error_code`; an error of the repository has a code of its own, or an empty one.
abbrev pub terminal_error_code : DispatchError → Text
terminal_error_code (planning e) =
    if is_integrity_error e
    then text "ORCHESTRATION_INTEGRITY_ERROR"
    else text "PIPELINE_EXECUTION_EXCEPTION"
terminal_error_code no_progress = text "ORCHESTRATION_NO_PROGRESS"
terminal_error_code invalid_ready_wave_result = text "INVALID_READY_WAVE_RESULT"
terminal_error_code key_error = text "PIPELINE_EXECUTION_EXCEPTION"
terminal_error_code out_of_fuel = text "PIPELINE_EXECUTION_EXCEPTION"
terminal_error_code (backend_ready_wave_error e) = text "BACKEND_READY_WAVE_FAILED"
terminal_error_code (repository_error e) =
    or_text (some e.error_code) (text "PIPELINE_EXECUTION_EXCEPTION")
terminal_error_code (finalization_error e f) = text "PIPELINE_EXECUTION_EXCEPTION"

-- `(dataset_id, outcomes[dataset_id]) for dataset_id in plan.selected_dataset_ids`
unfoldable pub select_outcomes : Outcomes → List Text → Result DispatchError Outcomes
select_outcomes outcomes [] = ok []
select_outcomes outcomes (id ∷ ids) = elim (get id outcomes) [
  | none ↦ raise key_error
  | some o ↦ select_outcomes outcomes ids >>= λ rest. ok ((id, o) ∷ rest)
]

module _ (env : Environment) where
  abbrev pub failed_audit : Text → Text → PipelineRunAudit
  failed_audit code message =
      pipeline_audit env PipelineStatus.failed (some env.utc_now) (some code)
        (some (bounded_message env message))

  -- The `except` clause around a dispatch that raised `e`.
  unfoldable pub record_failure : Text → DispatchError → Run
  record_failure code e = elim (env.persist_pipeline (failed_audit code (env.describe e))) [
    | raise f ↦ stopped (finalization_error e (repository_error f))
    | ok _ ↦ record {
      effects = record_pipeline_run (failed_audit code (env.describe e)) ∷ [];
      outcome = raise e;
    }
  ]

  -- `try: … except Exception`
  unfoldable pub finalize : Run → Run
  finalize r = elim r.outcome [
    | ok result ↦ r
    | raise e ↦
        let failure = record_failure (terminal_error_code e) e in
        record { effects = r.effects ++ failure.effects; outcome = failure.outcome }
  ]

  abbrev final_code : PipelineStatus → Option Text
  final_code PipelineStatus.failed = some (text "DATASET_FAILURES_AT_END")
  final_code PipelineStatus.partial_success = some (text "DATASET_WARNINGS_AT_END")
  final_code _ = none

  abbrev final_message : DispatchPlan → Outcomes → PipelineStatus → Option Text
  final_message plan outcomes PipelineStatus.failed =
      some (aggregate_outcome_error env plan.selected_dataset_ids outcomes)
  final_message plan outcomes PipelineStatus.partial_success =
      some (aggregate_outcome_error env plan.selected_dataset_ids outcomes)
  final_message plan outcomes _ = none

  -- Where the planning raises OrchestrationIntegrityError; another error is passed on.
  unfoldable pub record_unplanned : DispatchError → Run
  record_unplanned e =
      elim (env.persist_pipeline
        (failed_audit (text "ORCHESTRATION_INTEGRITY_ERROR") (env.describe e))) [
          | raise f ↦ stopped (repository_error f)
          | ok _ ↦ record {
            effects =
                record_pipeline_run
                  (failed_audit (text "ORCHESTRATION_INTEGRITY_ERROR") (env.describe e))
                ∷ [];
            outcome = raise e;
          }
        ]

  module _ (plan : DispatchPlan) (failure_policy : Option PipelineFailurePolicy)
      (required : Criticality → Bool) where
    unfoldable pub result_of : PipelineStatus → Outcomes → Run
    result_of status outcomes = elim (select_outcomes outcomes plan.selected_dataset_ids) [
      | raise e ↦ stopped e
      | ok chosen ↦ record {
        effects = [];
        outcome = ok (record {
          pipeline_run_id = env.pipeline_run_id;
          status = status;
          selected_dataset_ids = plan.selected_dataset_ids;
          outcomes = chosen;
          max_concurrency = plan.max_concurrency;
        });
      }
    ]

    -- After the loop.
    unfoldable pub conclude : Progress → Run
    conclude p = elim (aggregate_pipeline_status required plan p.outcomes failure_policy) [
      | raise e ↦ stopped (planning e)
      | ok status ↦
          record_pipeline env
            (pipeline_audit env status (some env.utc_now) (final_code status)
              (final_message plan p.outcomes status))
            (result_of status p.outcomes)
    ]

    unfoldable pub dispatch_plan : Run
    dispatch_plan = record_pipeline env (pipeline_audit env PipelineStatus.running none none none) (
        finalize (
          dispatch_loop env plan (length plan.selected_dataset_ids)
            (record { remaining = plan.selected_dataset_ids; outcomes = [] }) conclude))

-- An error of the planning as one of the dispatch. Both use fuel.
abbrev pub of_planning : PlannerError → DispatchError
of_planning PlannerError.out_of_fuel = out_of_fuel
of_planning e = planning e

-- After the planning: the `except` clause takes the integrity errors alone.
unfoldable pub dispatch_planned :
    Environment
    → Result PlannerError DispatchPlan
    → Option PipelineFailurePolicy
    → (Criticality → Bool)
    → Run
dispatch_planned env (ok plan) policy required = dispatch_plan env plan policy required
dispatch_planned env (raise e) policy required =
    if is_integrity_error e then record_unplanned env (of_planning e) else stopped (of_planning e)

-- The request has the arguments that are passed on to build_dispatch_plan, the configurations are
-- those that the repository lists.
unfoldable pub dispatch_datasets_with_backend :
    Environment
    → Hashes
    → PlanRequest
    → List DatasetConfig
    → Option PipelineFailurePolicy
    → (Criticality → Bool)
    → Run
dispatch_datasets_with_backend env hashes request configs policy required =
    dispatch_planned env (build_dispatch_plan hashes request configs) policy required
