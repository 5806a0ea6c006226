-- ===== src/Examples/Retries.antt =====
-- execute_with_retry: the outcome of the first attempt is unknown and found not committed, and the
-- second attempt succeeds.
use fabric_data_framework.Prelude.{
  ℕ, ◌+◌, ◌*◌, ◌≤◌, ◌≡◌, ◌⊎◌, refl, none, some, [], ◌∷◌, ltb, text, map, length, Result, ok, raise,
  if◌then◌else◌, ◌==◌, nat_eq,
}
use fabric_data_framework.Time.{aware}
use fabric_data_framework.TargetOperation.Contract.{not_committed}
use fabric_data_framework.Recovery.Contract.{
  normal, unknown_commit_outcome_error, PyException, AttemptContext, RecoveryRunResult,
}
use fabric_data_framework.Recovery.Runtime.{
  validation_error, Environment, Call, resolved, delay_after_attempt, classification,
  classify_failure,
}
use fabric_data_framework.Recovery.Attempt.{
  terminal_audit, record_terminal_audit, update_reprocess_status, fail_run, succeed_run,
  wait_and_retry, retry_or_fail, resolve, consult, handle_as, handle_failure, handle_result,
}
use fabric_data_framework.Recovery.Retry.{
  lineage_of, marked_running, run_attempt, run_attempts, check_call, execute_with_retry,
}
use fabric_data_framework.Prelude.Traces.{AllButLast, Last}
use fabric_data_framework.Recovery.Story.{
  attempts_of, lineages_of, audits_of, MayRetry, Backed, Succeeded, FailedForRetry,
}
use fabric_data_framework.Recovery.Attempts.{IsChain, audit_ids, context_ids}
use fabric_data_framework.Recovery.Results.{
  attempts_bounded, attempts-MayRetry, attempts_recorded, success-Backed,
}

abbrev whole_seconds : Environment ℕ
whole_seconds = record {
  times = λ a b. a * b;
  power = λ a n. some a;
  less = ltb;
  sanitize_audit_text = λ t. t;
  strip = λ t. t;
  uuid4 = λ n. n + 40;
  utc_now = λ n. aware n;
}

abbrev lost_response : PyException
lost_response = record {
  kind = unknown_commit_outcome_error;
  error_code = text "LOST";
  message = text "no response";
  class_name = text "UnknownCommitOutcomeError";
}

abbrev second_succeeds : AttemptContext → Result PyException ℕ
second_succeeds c = if c.attempt == 1 then raise lost_response else ok 7

abbrev call : Call Unit ℕ ℕ
call = record {
  pipeline_run_id = 1;
  dataset_id = text "orders";
  effective_config_hash = text "0123456789abcdef0123456789abcdef0123456789abcdef0123456789abcdef";
  attempt_result = second_succeeds;
  retry_policy = record {
    max_attempts = 3;
    initial_backoff_seconds = 1;
    multiplier = 2;
    max_backoff_seconds = 60;
  };
  run_mode = normal;
  reprocess_request = none;
  resolver = some (λ context exc. resolved not_committed);
  initial_attempt = 1;
  root_dataset_run_id = none;
  previous_dataset_run_id = none;
}

abbrev result : RecoveryRunResult ℕ
result = record {
  value = some 7;
  dataset_run_id = 41;
  root_dataset_run_id = 40;
  attempts = 2;
  resolved_unknown_outcome = none;
}

two_attempts :
    (context_ids (attempts_of (execute_with_retry whole_seconds call).effects) ≡ 40 ∷ 41 ∷ [])
    × ((execute_with_retry whole_seconds call).outcome ≡ ok result)
unfolding execute_with_retry check_call run_attempts run_attempt handle_result handle_failure
    handle_as consult resolve retry_or_fail wait_and_retry succeed_run fail_run
    update_reprocess_status record_terminal_audit terminal_audit delay_after_attempt
    classify_failure classification
two_attempts = (refl, refl)

attempts_bounded_example : length (attempts_of (execute_with_retry whole_seconds call).effects) ≤ 3
attempts_bounded_example = attempts_bounded whole_seconds call

attempts-MayRetry_example :
    AllButLast
      (MayRetry whole_seconds call)
      (attempts_of (execute_with_retry whole_seconds call).effects)
attempts-MayRetry_example = attempts-MayRetry whole_seconds call

attempts_recorded_example :
    IsChain 1 none none (lineages_of (execute_with_retry whole_seconds call).effects)
    × (lineages_of (execute_with_retry whole_seconds call).effects
        ≡ map
            (lineage_of whole_seconds call (marked_running whole_seconds none))
            (attempts_of (execute_with_retry whole_seconds call).effects))
    × (((execute_with_retry whole_seconds call).outcome ≡ raise validation_error)
        ⊎ (audit_ids (audits_of (execute_with_retry whole_seconds call).effects)
            ≡ context_ids (attempts_of (execute_with_retry whole_seconds call).effects)))
attempts_recorded_example = attempts_recorded whole_seconds call

success-Backed_example :
    Last
      (Backed whole_seconds call result)
      (attempts_of (execute_with_retry whole_seconds call).effects)
    × Last Succeeded (audits_of (execute_with_retry whole_seconds call).effects)
    × AllButLast FailedForRetry (audits_of (execute_with_retry whole_seconds call).effects)
    × (result.attempts ≡ length (attempts_of (execute_with_retry whole_seconds call).effects))
success-Backed_example = success-Backed whole_seconds call result two_attempts.1
