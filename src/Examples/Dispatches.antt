-- ===== src/Examples/Dispatches.antt =====
-- dispatcher.py: raw fails, so that daily, which depends on it, is blocked.
use fabric_data_framework.Prelude.{
  true, ◌≡◌, ◌≢◌, refl, none, some, [], ◌∷◌, list_eq, nat_eq, Text, text, map, length, List, ok,
  raise,
}
use fabric_data_framework.Prelude.Dict.{get, put, update}
use fabric_data_framework.Prelude.Sort.{insert_with, sort_with}
use fabric_data_framework.Prelude.Order.{lex_lt}
use fabric_data_framework.Time.{aware}
use fabric_data_framework.Planner.Config.{
  DatasetConfig, DatasetStatus, PipelineStatus, DatasetDispatchOutcome, DispatchPlan, fail_at_end,
  is_required_criticality,
}
use fabric_data_framework.Planner.Grouping.{group_into}
use fabric_data_framework.Planner.Graph.{
  validate_dependency_graph, check_deployed, visit_all, visit, visit_each, discard,
}
use fabric_data_framework.Planner.Overrides.{
  resolve_effective_config, select_overrides, apply_overrides, winners_of,
}
use fabric_data_framework.Planner.Build.{
  Hashes, PlanRequest, build_dispatch_plan, plan_deployed, deployed_of, group_of, choose_each,
  effective_config, with_policy, effective_concurrency, limited_by,
}
use fabric_data_framework.Planner.Schedule.{
  Outcomes, effective_for, distinct, has_failed, has_succeeded, blockers, blocking_dependencies,
  is_ready, ready_among, ready_dataset_ids, aggregate_outcomes, aggregate_pipeline_status,
}
use fabric_data_framework.Examples.Configs.{config_of, effective_of}
use fabric_data_framework.Recovery.Contract.{other_exception, normal}
use fabric_data_framework.Dispatcher.Contract.{
  Environment, Run, PipelineRunAudit, out_of_fuel, pipeline_audit, record_pipeline, failures,
  bounded_message, aggregate_outcome_error,
}
use fabric_data_framework.Dispatcher.Loop
use fabric_data_framework.Dispatcher.Loop.{
  newly_blocked, block_each, take_wave, run_ready, select_ready, turn, dispatch_loop,
}
use fabric_data_framework.Dispatcher.Dispatch.{
  select_outcomes, record_failure, finalize, result_of, conclude, dispatch_plan, dispatch_planned,
  dispatch_datasets_with_backend,
}
use fabric_data_framework.Dispatcher.Ends.{pipeline_audits, IsGuarded}
use fabric_data_framework.Dispatcher.Shapes.{IsAudited, ListsAll}
use fabric_data_framework.Dispatcher.Results.{
  RecordsPlanning, dispatch_terminates, dispatch-IsAudited, dispatch-IsGuarded,
}

abbrev raw : Text
raw = text "raw"

abbrev daily : Text
daily = text "daily"

abbrev plan : DispatchPlan
plan = record {
  evaluation_time = aware 0;
  selected_dataset_ids = daily ∷ raw ∷ [];
  effective_configs = (daily, effective_of daily (raw ∷ [])) ∷ (raw, effective_of raw []) ∷ [];
  deployed_dataset_ids = daily ∷ raw ∷ [];
  max_concurrency = 2;
  failure_policy = fail_at_end;
  execution_group_policy_hash = none;
}

abbrev hashes : Hashes
hashes = record {
  config_hash = λ config. config.dataset_id;
  policy_hash = λ policy. policy.execution_group;
}

abbrev request : PlanRequest
request = record {
  execution_group = none;
  execution_group_policy = none;
  requested_dataset_ids = none;
  overrides = [];
  max_concurrency = 8;
  evaluation_time = aware 0;
  supports = λ config. true;
}

abbrev configs : List DatasetConfig
configs = config_of daily (raw ∷ []) ∷ config_of raw [] ∷ []

abbrev failing : DatasetDispatchOutcome
failing = record {
  dataset_run_id = 5;
  status = DatasetStatus.failed;
  retryable = none;
  error_code = some (text "E1");
  error_message = none;
}

abbrev reply : List Text → Outcomes
reply ids = map (λ id. (id, failing)) ids

abbrev env : Environment
env = record {
  pipeline_run_id = 1;
  environment = text "dev";
  domain = text "sales";
  run_mode = normal;
  domain_git_sha = text "0123456";
  framework_version = text "1";
  config_bundle_hash = text "c";
  started_at = aware 10;
  utc_now = aware 20;
  config_hash = λ id. id;
  uuid4 = λ id. length id;
  sanitize_audit_text = λ t. t;
  sanitize_bounded = λ t. t;
  describe = λ e. text "error";
  persist_pipeline = λ a. ok tt;
  persist_dataset = λ a. ok tt;
  execute_ready_wave = λ ids. ok (reply ids);
}

abbrev run : Run
run = dispatch_datasets_with_backend env hashes request configs none is_required_criticality

abbrev statuses : List PipelineRunAudit → List PipelineStatus
statuses audits = map (λ a. a.status) audits

made : build_dispatch_plan hashes request configs ≡ ok plan
unfolding build_dispatch_plan plan_deployed deployed_of update put get group_of choose_each
    effective_config with_policy resolve_effective_config select_overrides apply_overrides
    winners_of group_into sort_with insert_with lex_lt validate_dependency_graph check_deployed
    visit_all visit visit_each discard effective_concurrency limited_by
made = refl

-- A backend that raises: the wave was handed to it all the same.
abbrev broken : Environment
broken = record env {
  execute_ready_wave = λ ids. raise (record {
    kind = other_exception;
    error_code = [];
    message = text "gone";
    class_name = text "OSError";
  });
}

failed_at_end :
    statuses (pipeline_audits run.effects) ≡ PipelineStatus.running ∷ PipelineStatus.failed ∷ []
unfolding dispatch_datasets_with_backend dispatch_planned dispatch_plan finalize record_failure
    conclude result_of select_outcomes record_pipeline pipeline_audit aggregate_outcome_error
    failures bounded_message dispatch_loop turn select_ready run_ready take_wave block_each
    Loop.update newly_blocked aggregate_pipeline_status aggregate_outcomes ready_dataset_ids
    ready_among is_ready blocking_dependencies blockers has_succeeded has_failed distinct
    effective_for build_dispatch_plan plan_deployed deployed_of update put get group_of choose_each
    effective_config with_policy resolve_effective_config select_overrides apply_overrides
    winners_of group_into sort_with insert_with lex_lt validate_dependency_graph check_deployed
    visit_all visit visit_each discard effective_concurrency limited_by
failed_at_end = refl

wave_is_recorded :
    length
      (dispatch_datasets_with_backend broken hashes request configs none
        is_required_criticality).effects
    ≡ 3
unfolding dispatch_datasets_with_backend dispatch_planned dispatch_plan finalize record_failure
    conclude result_of select_outcomes record_pipeline pipeline_audit aggregate_outcome_error
    failures bounded_message dispatch_loop turn select_ready run_ready take_wave block_each
    Loop.update newly_blocked aggregate_pipeline_status aggregate_outcomes ready_dataset_ids
    ready_among is_ready blocking_dependencies blockers has_succeeded has_failed distinct
    effective_for build_dispatch_plan plan_deployed deployed_of update put get group_of choose_each
    effective_config with_policy resolve_effective_config select_overrides apply_overrides
    winners_of group_into sort_with insert_with lex_lt validate_dependency_graph check_deployed
    visit_all visit visit_each discard effective_concurrency limited_by
wave_is_recorded = refl

dispatch_terminates_example : run.outcome ≢ raise out_of_fuel
dispatch_terminates_example =
    dispatch_terminates env hashes request configs none is_required_criticality

dispatch-IsAudited_example :
    IsAudited run.outcome (pipeline_audits run.effects)
    × RecordsPlanning (build_dispatch_plan hashes request configs) run
dispatch-IsAudited_example =
    dispatch-IsAudited env hashes request configs none is_required_criticality

dispatch-IsGuarded_example : IsGuarded plan [] run.effects × ListsAll (daily ∷ raw ∷ []) run.outcome
dispatch-IsGuarded_example =
    dispatch-IsGuarded env hashes request configs none is_required_criticality plan made
