-- ===== src/Recovery/Runtime.antt =====
-- execute_with_retry of recovery/runtime.py. A run is the calls that it makes of its collaborators,
-- in their order, and how it ends. What the attempts and the resolver give, the fresh identifiers,
-- the clock, floating-point numbers and the texts' normal forms are arguments.
use fabric_data_framework.Prelude.{
  ℕ, ◌-◌, Bool, Option, none, some, List, [], ◌∷◌, if◌then◌else◌, ltb, ◌==◌, nat_eq, list_eq, Text,
  text, Result, ok, raise, ◌>>◌, raise_if,
}
use fabric_data_framework.Time.{DateTime}
use fabric_data_framework.TargetOperation.Contract.{UnknownOutcomeResolution}
use fabric_data_framework.Recovery.Contract.{
  RunMode, ReprocessRequestStatus, ReprocessRequest, DatasetAttemptLineage, DatasetRunAudit,
  AttemptContext, RecoveryRunResult, FailureDisposition, retryable, non_retryable, unknown_outcome,
  FailureClassification, PyException, ExceptionKind, retryable_execution_error,
  permanent_execution_error, unknown_commit_outcome_error, other_exception,
}

pub data RecoveryError : Type 0 where
  value_error validation_error overflow_error assertion_error : RecoveryError
  unknown_outcome_unresolved : RecoveryError
  unknown_outcome_resolution_failed : PyException → PyException → RecoveryError
  recovery_exhausted : PyException → RecoveryError
  reraised : PyException → RecoveryError

-- What the code takes from Python and Pydantic. `power` is none where a float overflows, and
-- `strip` is what a model does to each of its texts.
pub record Environment (F : Type 0) : Type 0 where
  pub times : F → F → F
  pub power : F → ℕ → Option F
  pub less : F → F → Bool
  pub sanitize_audit_text : Text → Text
  pub strip : Text → Text
  pub uuid4 : ℕ → ℕ
  pub utc_now : ℕ → DateTime

pub record RetryPolicy (F : Type 0) : Type 0 where
  pub max_attempts : ℕ
  pub initial_backoff_seconds : F
  pub multiplier : F
  pub max_backoff_seconds : F

-- What `resolve_unknown_outcome` does: it returns, it raises, or it returns something else.
pub data ResolverReply : Type 0 where
  resolved : UnknownOutcomeResolution → ResolverReply
  resolver_raised : PyException → ResolverReply
  invalid_resolution : ResolverReply

-- The calls of the repository, of the functions given, and of the backoff.
pub data Effect (J F : Type 0) : Type 0 where
  record_attempt_lineage : DatasetAttemptLineage → Effect J F
  record_dataset_run : DatasetRunAudit → Effect J F
  record_reprocess_request : ReprocessRequest J → Effect J F
  execute_attempt : AttemptContext → Effect J F
  resolve_unknown_outcome : AttemptContext → Effect J F
  backoff : F → Effect J F

pub record Run (J F T : Type 0) : Type 0 where
  pub effects : List (Effect J F)
  pub outcome : Result RecoveryError (RecoveryRunResult T)

module _ {J F T : Type 0} where
  abbrev pub before : Effect J F → Run J F T → Run J F T
  before e r = record r { effects = e ∷ r.effects }

  abbrev pub stopped : RecoveryError → Run J F T
  stopped e = record { effects = []; outcome = raise e }

  abbrev pub returned : RecoveryRunResult T → Run J F T
  returned r = record { effects = []; outcome = ok r }

-- The arguments of `execute_with_retry`.
pub record Call (J F T : Type 0) : Type 0 where
  pub pipeline_run_id : ℕ
  pub dataset_id : Text
  pub effective_config_hash : Text
  pub attempt_result : AttemptContext → Result PyException T
  pub retry_policy : RetryPolicy F
  pub run_mode : RunMode
  pub reprocess_request : Option (ReprocessRequest J)
  pub resolver : Option (AttemptContext → PyException → ResolverReply)
  pub initial_attempt : ℕ
  pub root_dataset_run_id : Option ℕ
  pub previous_dataset_run_id : Option ℕ

abbrev disposition_of : ExceptionKind → FailureDisposition
disposition_of retryable_execution_error = retryable
disposition_of unknown_commit_outcome_error = unknown_outcome
disposition_of permanent_execution_error = non_retryable
disposition_of other_exception = non_retryable

abbrev code_of : ExceptionKind → Text → Text
code_of other_exception code = text "UNCLASSIFIED_FAILURE"
code_of _ code = code

module _ {F : Type 0} (env : Environment F) where
  -- `min(delay, self.max_backoff_seconds)` is the first argument unless the second is less.
  unfoldable pub delay_after_attempt : RetryPolicy F → ℕ → Result RecoveryError F
  delay_after_attempt policy attempt =
      if ltb attempt 1
      then raise value_error
      else elim (env.power policy.multiplier (attempt - 1)) [
        | none ↦ raise overflow_error
        | some factor ↦
            let delay = env.times policy.initial_backoff_seconds factor in
            ok (
              if env.less policy.max_backoff_seconds delay
              then policy.max_backoff_seconds
              else delay)
      ]

  abbrev or_name : Text → Text → Text
  or_name [] name = name
  or_name (c ∷ s) name = c ∷ s

  -- Both texts are stripped, and must not be empty then.
  unfoldable pub classification :
      FailureDisposition → Text → Text → Result RecoveryError FailureClassification
  classification d code message =
      raise_if (env.strip code == []) validation_error
      >> raise_if (env.strip message == []) validation_error
      >> ok (record { disposition = d; error_code = env.strip code; message = env.strip message })

  unfoldable pub classify_failure : PyException → Result RecoveryError FailureClassification
  classify_failure exc =
      classification (disposition_of exc.kind) (code_of exc.kind exc.error_code)
        (env.sanitize_audit_text (or_name exc.message exc.class_name))

  abbrev pub sanitized : Option Text → Option Text
  sanitized none = none
  sanitized (some m) = some (env.strip (env.sanitize_audit_text m))

module _ {J F : Type 0} (env : Environment F) where
  abbrev pub with_status : ReprocessRequestStatus → ℕ → ReprocessRequest J → ReprocessRequest J
  with_status status turn r = record r { status = status; updated_at = some (env.utc_now turn) }
