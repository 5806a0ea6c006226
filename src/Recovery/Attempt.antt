-- ===== src/Recovery/Attempt.antt =====
-- One attempt of execute_with_retry in recovery/runtime.py, and the rows that it records.
use fabric_data_framework.Prelude.{
  ℕ, suc, ◌+◌, Bool, true, false, Option, none, some, [], ◌++◌, if◌then◌else◌, ltb, nat_eq, list_eq,
  Text, text, Result, ok, raise,
}
use fabric_data_framework.TargetOperation.Contract.{
  UnknownOutcomeResolution, committed, not_committed, unresolved,
}
use fabric_data_framework.Planner.Config.{DatasetStatus}
use fabric_data_framework.Recovery.Contract.{
  ReprocessRequestStatus, ReprocessRequest, DatasetRunAudit, AttemptContext, FailureDisposition,
  retryable, non_retryable, unknown_outcome, FailureClassification, PyException, other_exception,
  audit_valid,
}
use fabric_data_framework.Recovery.Runtime.{
  RecoveryError, validation_error, unknown_outcome_unresolved, unknown_outcome_resolution_failed,
  recovery_exhausted, reraised, Environment, ResolverReply, resolved, resolver_raised,
  invalid_resolution, record_dataset_run, record_reprocess_request, resolve_unknown_outcome,
  backoff, Run, before, stopped, returned, Call, delay_after_attempt, classify_failure, sanitized,
  with_status,
}

module _ {J F T : Type 0} (env : Environment F) where
  unfoldable pub terminal_audit :
      Call J F T
      → AttemptContext
      → DatasetStatus
      → Option Text
      → Option Text
      → Option Bool
      → DatasetRunAudit
  terminal_audit call context status error_code error_message may_retry = record {
    dataset_run_id = context.dataset_run_id;
    pipeline_run_id = context.pipeline_run_id;
    dataset_id = env.strip context.dataset_id;
    attempt = context.attempt;
    run_mode = context.run_mode;
    status = status;
    effective_config_hash = env.strip call.effective_config_hash;
    error_code = error_code;
    error_message = sanitized env error_message;
    retryable = may_retry;
  }

  -- `_record_terminal_audit`, and what follows it
  unfoldable pub record_terminal_audit : DatasetRunAudit → Run J F T → Run J F T
  record_terminal_audit audit next =
      if audit_valid audit then before (record_dataset_run audit) next else stopped validation_error

  -- `_update_reprocess_status`, and what follows it
  unfoldable pub update_reprocess_status :
      Option (ReprocessRequest J) → ReprocessRequestStatus → ℕ → Run J F T → Run J F T
  update_reprocess_status none status turn next = next
  update_reprocess_status (some r) status turn next =
      before (record_reprocess_request (with_status env status turn r)) next

-- One attempt of the loop: `active` is the request as it was marked RUNNING, `offset` the loop's
-- variable, and `again` what the loop does next.
module _ {J F T : Type 0} (env : Environment F) (call : Call J F T)
    (active : Option (ReprocessRequest J)) (offset : ℕ) (context : AttemptContext) where
  abbrev failed_audit : Text → Text → Bool → DatasetRunAudit
  failed_audit code message may_retry =
      terminal_audit env call context DatasetStatus.failed (some code) (some message)
        (some may_retry)

  -- A failure that ends the run.
  unfoldable pub fail_run : DatasetRunAudit → RecoveryError → Run J F T
  fail_run audit error = record_terminal_audit env audit (
      update_reprocess_status env active ReprocessRequestStatus.failed (suc offset) (stopped error))

  unfoldable pub succeed_run : Option T → Option UnknownOutcomeResolution → Run J F T
  succeed_run value resolution =
      record_terminal_audit env
        (terminal_audit env call context DatasetStatus.succeeded none none none)
        (update_reprocess_status env active ReprocessRequestStatus.succeeded (suc offset) (
          returned (record {
            value = value;
            dataset_run_id = context.dataset_run_id;
            root_dataset_run_id = context.root_dataset_run_id;
            attempts = offset + 1;
            resolved_unknown_outcome = resolution;
          })))

  -- `f"{type(error).__name__}: {error}"`
  abbrev summary_of : PyException → Text
  summary_of e = env.sanitize_audit_text (e.class_name ++ text ": " ++ e.message)

  abbrev resolver_message : PyException → PyException → Text
  resolver_message exc e = env.sanitize_audit_text (
      text "unknown outcome could not be resolved; original="
      ++ summary_of exc
      ++ text "; resolver="
      ++ summary_of e)

  unfoldable pub handle_resolver_failure : PyException → PyException → Run J F T
  handle_resolver_failure exc e =
      fail_run
        (failed_audit (text "UNKNOWN_COMMIT_RESOLUTION_FAILED") (resolver_message exc e) false)
        (unknown_outcome_resolution_failed exc e)

  abbrev is_retryable : FailureDisposition → Bool
  is_retryable retryable = true
  is_retryable _ = false

  unfoldable pub wait_and_retry : PyException → (PyException → Run J F T) → Run J F T
  wait_and_retry exc again = elim (delay_after_attempt env call.retry_policy context.attempt) [
    | raise e ↦ stopped e
    | ok delay ↦ before (backoff delay) (again exc)
  ]

  unfoldable pub retry_or_fail :
      PyException → FailureClassification → (PyException → Run J F T) → Run J F T
  retry_or_fail exc c again =
      if is_retryable c.disposition
      then if ltb (offset + 1) call.retry_policy.max_attempts
        then record_terminal_audit env (failed_audit c.error_code c.message true)
            (wait_and_retry exc again)
        else fail_run (failed_audit c.error_code c.message false) (recovery_exhausted exc)
      else fail_run (failed_audit c.error_code c.message false) (reraised exc)

  abbrev invalid_value : PyException
  invalid_value = record {
    kind = other_exception;
    error_code = [];
    message = text "unknown-outcome resolver returned an invalid resolution value";
    class_name = text "TypeError";
  }

  unfoldable pub resolve :
      PyException → FailureClassification → (PyException → Run J F T) → ResolverReply → Run J F T
  resolve exc c again (resolver_raised e) = handle_resolver_failure exc e
  resolve exc c again invalid_resolution = handle_resolver_failure exc invalid_value
  resolve exc c again (resolved committed) = succeed_run none (some committed)
  resolve exc c again (resolved unresolved) =
      fail_run (failed_audit (text "UNKNOWN_COMMIT_UNRESOLVED") c.message false)
        unknown_outcome_unresolved
  resolve exc c again (resolved not_committed) =
      retry_or_fail exc
        (record {
          disposition = retryable;
          error_code = text "UNKNOWN_COMMIT_NOT_COMMITTED";
          message = c.message;
        })
        again

  -- An unknown outcome.
  unfoldable pub consult :
      PyException
      → FailureClassification
      → (PyException → Run J F T)
      → Option (AttemptContext → PyException → ResolverReply)
      → Run J F T
  consult exc c again none =
      fail_run (failed_audit (text "UNKNOWN_COMMIT_UNRESOLVED") c.message false)
        unknown_outcome_unresolved
  consult exc c again (some reply) =
      before (resolve_unknown_outcome context) (resolve exc c again (reply context exc))

  unfoldable pub handle_as :
      FailureDisposition
      → PyException
      → FailureClassification
      → (PyException → Run J F T)
      → Run J F T
  handle_as retryable exc c again = retry_or_fail exc c again
  handle_as non_retryable exc c again = retry_or_fail exc c again
  handle_as unknown_outcome exc c again = consult exc c again call.resolver

  -- The `except` clause, after the classification.
  unfoldable pub handle_failure :
      PyException → FailureClassification → (PyException → Run J F T) → Run J F T
  handle_failure exc c again = handle_as c.disposition exc c again

  unfoldable pub handle_result : (PyException → Run J F T) → Result PyException T → Run J F T
  handle_result again (ok value) = succeed_run (some value) none
  handle_result again (raise exc) = elim (classify_failure env exc) [
    | raise e ↦ stopped e
    | ok c ↦ handle_failure exc c again
  ]
