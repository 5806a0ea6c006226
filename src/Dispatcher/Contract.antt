-- ===== src/Dispatcher/Contract.antt =====
-- The records and errors of orchestration/dispatcher.py, with PipelineRunAudit of contracts/audit.py
-- and PipelineDispatchResult of contracts/dispatch.py; and the texts of its errors.
use fabric_data_framework.Prelude.{
  ℕ, ◌-◌, Option, none, some, List, [], ◌∷◌, ◌++◌, if◌then◌else◌, leb, list_eq, nat_eq, Text, text,
  length, Result, ok, raise,
}
use fabric_data_framework.Prelude.Dict.{Dict, get}
use fabric_data_framework.Time.{DateTime}
use fabric_data_framework.Planner.Config.{
  DatasetStatus, PipelineStatus, PlannerError, DatasetDispatchOutcome, is_succeeded,
}
use fabric_data_framework.Planner.Schedule.{Outcomes}
use fabric_data_framework.Recovery.Contract.{RunMode, DatasetRunAudit, PyException}

pub record PipelineRunAudit : Type 0 where
  pub pipeline_run_id : ℕ
  pub environment : Text
  pub domain : Text
  pub status : PipelineStatus
  pub run_mode : RunMode
  pub started_at : DateTime
  pub completed_at : Option DateTime
  pub domain_git_sha : Text
  pub framework_version : Text
  pub config_bundle_hash : Text
  pub error_code : Option Text
  pub error_message : Option Text

pub record PipelineDispatchResult : Type 0 where
  pub pipeline_run_id : ℕ
  pub status : PipelineStatus
  pub selected_dataset_ids : List Text
  pub outcomes : Dict Text DatasetDispatchOutcome
  pub max_concurrency : ℕ

-- What ends a dispatch: an error of the planner's functions, PipelineDispatchIntegrityError with its
-- two codes, BackendReadyWaveError, an error of the repository or of a model, and
-- PipelineFinalizationError.
pub data DispatchError : Type 0 where
  planning : PlannerError → DispatchError
  no_progress invalid_ready_wave_result key_error out_of_fuel : DispatchError
  backend_ready_wave_error : PyException → DispatchError
  repository_error : PyException → DispatchError
  finalization_error : DispatchError → DispatchError → DispatchError

-- The arguments that the dispatch only passes on, and what it takes from elsewhere: whether the
-- repository takes a row, the reply of the backend to a wave, fresh identifiers, the clock, and how
-- texts are sanitized and errors described.
pub record Environment : Type 0 where
  pub pipeline_run_id : ℕ
  pub environment : Text
  pub domain : Text
  pub run_mode : RunMode
  pub domain_git_sha : Text
  pub framework_version : Text
  pub config_bundle_hash : Text
  pub started_at : DateTime
  pub utc_now : DateTime
  pub config_hash : Text → Text
  pub uuid4 : Text → ℕ
  pub sanitize_audit_text : Text → Text
  pub sanitize_bounded : Text → Text
  pub describe : DispatchError → Text
  pub persist_pipeline : PipelineRunAudit → Result PyException Unit
  pub persist_dataset : DatasetRunAudit → Result PyException Unit
  pub execute_ready_wave : List Text → Result PyException Outcomes

-- The calls of the repository that went through, and those of the backend with what came of them.
pub data Effect : Type 0 where
  record_pipeline_run : PipelineRunAudit → Effect
  record_dataset_run : DatasetRunAudit → Effect
  execute_wave : List Text → Result PyException Outcomes → Effect

pub record Run : Type 0 where
  pub effects : List Effect
  pub outcome : Result DispatchError PipelineDispatchResult

abbrev pub before : Effect → Run → Run
before e r = record r { effects = e ∷ r.effects }

abbrev pub stopped : DispatchError → Run
stopped e = record { effects = []; outcome = raise e }

abbrev pub status_value : DatasetStatus → Text
status_value DatasetStatus.pending = text "PENDING"
status_value DatasetStatus.running = text "RUNNING"
status_value DatasetStatus.succeeded = text "SUCCEEDED"
status_value DatasetStatus.failed = text "FAILED"
status_value DatasetStatus.quarantined = text "QUARANTINED"
status_value DatasetStatus.skipped = text "SKIPPED"
status_value DatasetStatus.blocked = text "BLOCKED"
status_value DatasetStatus.cancelled = text "CANCELLED"

-- `a or b` on texts that may be missing
abbrev pub or_text : Option Text → Text → Text
or_text none other = other
or_text (some []) other = other
or_text (some (c ∷ s)) other = c ∷ s

abbrev pub join : Text → List Text → Text
join separator [] = []
join separator (t ∷ []) = t
join separator (t ∷ u ∷ ts) = t ++ separator ++ join separator (u ∷ ts)

abbrev take_text : ℕ → Text → Text
take_text limit [] = []
take_text limit (c ∷ s) = if leb limit 0 then [] else c ∷ take_text (limit - 1) s

module _ (env : Environment) where
  unfoldable pub bounded_message : Text → Text
  bounded_message value =
      let sanitized = env.sanitize_bounded value in
      let suffix = text "... [truncated]" in
      if leb (length sanitized) 4096
      then sanitized
      else take_text (4096 - length suffix) sanitized ++ suffix

  abbrev failure_text : Text → DatasetDispatchOutcome → Text
  failure_text id o =
      id
      ++ text "["
      ++ status_value o.status
      ++ text "/"
      ++ or_text o.error_code (status_value o.status)
      ++ text "]: "
      ++ env.sanitize_audit_text (or_text o.error_message (text "no dataset error detail"))

  unfoldable pub failures : List Text → Outcomes → List Text
  failures [] outcomes = []
  failures (id ∷ ids) outcomes =
      let rest = failures ids outcomes in
      elim (get id outcomes) [
        | none ↦ rest
        | some o ↦ if is_succeeded o.status then rest else failure_text id o ∷ rest
      ]

  unfoldable pub aggregate_outcome_error : List Text → Outcomes → Text
  aggregate_outcome_error ids outcomes = bounded_message (
      or_text (some (join (text "; ") (failures ids outcomes)))
        (text "pipeline contained non-success dataset outcomes"))

  unfoldable pub pipeline_audit :
      PipelineStatus → Option DateTime → Option Text → Option Text → PipelineRunAudit
  pipeline_audit status completed_at error_code error_message = record {
    pipeline_run_id = env.pipeline_run_id;
    environment = env.environment;
    domain = env.domain;
    status = status;
    run_mode = env.run_mode;
    started_at = env.started_at;
    completed_at = completed_at;
    domain_git_sha = env.domain_git_sha;
    framework_version = env.framework_version;
    config_bundle_hash = env.config_bundle_hash;
    error_code = error_code;
    error_message = error_message;
  }

  -- `repository.record_pipeline_run`, and what follows it
  unfoldable pub record_pipeline : PipelineRunAudit → Run → Run
  record_pipeline audit next = elim (env.persist_pipeline audit) [
    | raise e ↦ stopped (repository_error e)
    | ok _ ↦ before (record_pipeline_run audit) next
  ]
