-- ===== src/Recovery/Retry.antt =====
-- The loop of execute_with_retry in recovery/runtime.py.
use fabric_data_framework.Prelude.{
  ℕ, zero, suc, ◌+◌, Bool, true, false, not, Option, none, some, ◌&&◌, ◌||◌, if◌then◌else◌, ltb,
  ◌==◌, nat_eq, list_eq, Result, ok, raise, ◌>>◌, raise_if,
}
use fabric_data_framework.Recovery.Contract.{
  normal, ReprocessRequestStatus, ReprocessRequest, DatasetAttemptLineage, AttemptContext,
  PyException, same_mode, lineage_valid,
}
use fabric_data_framework.Recovery.Runtime.{
  RecoveryError, value_error, validation_error, assertion_error, recovery_exhausted, Environment,
  record_attempt_lineage, execute_attempt, Run, before, stopped, Call, with_status,
}
use fabric_data_framework.Recovery.Attempt.{update_reprocess_status, handle_result}

-- `root_id` after `if root_id is None: root_id = dataset_run_id`
abbrev pub root_of : Option ℕ → ℕ → ℕ
root_of none dataset_run_id = dataset_run_id
root_of (some root) dataset_run_id = root

module _ {J F T : Type 0} (env : Environment F) (call : Call J F T)
    (active : Option (ReprocessRequest J)) where
  abbrev request_id : Option ℕ
  request_id = elim active [ none ↦ none | some r ↦ some r.reprocess_request_id ]

  abbrev pub context_at : ℕ → Option ℕ → Option ℕ → AttemptContext
  context_at offset root previous = record {
    pipeline_run_id = call.pipeline_run_id;
    dataset_run_id = env.uuid4 offset;
    dataset_id = call.dataset_id;
    root_dataset_run_id = root_of root (env.uuid4 offset);
    previous_dataset_run_id = previous;
    attempt = call.initial_attempt + offset;
    run_mode = call.run_mode;
    reprocess_request_id = request_id;
  }

  abbrev pub lineage_of : AttemptContext → DatasetAttemptLineage
  lineage_of c = record {
    dataset_run_id = c.dataset_run_id;
    dataset_id = env.strip c.dataset_id;
    root_dataset_run_id = c.root_dataset_run_id;
    previous_dataset_run_id = c.previous_dataset_run_id;
    attempt = c.attempt;
    run_mode = c.run_mode;
    reprocess_request_id = c.reprocess_request_id;
  }

  -- The body of the loop; a lineage that its model refuses ends the run.
  unfoldable pub run_attempt : ℕ → AttemptContext → (PyException → Run J F T) → Run J F T
  run_attempt offset context again =
      if lineage_valid (lineage_of context)
      then before (record_attempt_lineage (lineage_of context)) (
          before (execute_attempt context)
            (handle_result env call active offset context again (call.attempt_result context)))
      else stopped validation_error

  abbrev after_loop : Option PyException → Run J F T
  after_loop none = stopped assertion_error
  after_loop (some exc) = stopped (recovery_exhausted exc)

  -- `for offset in range(policy.max_attempts)`, by the number of turns that are left
  unfoldable pub run_attempts : ℕ → ℕ → Option ℕ → Option ℕ → Option PyException → Run J F T
  run_attempts zero offset root previous last_error = after_loop last_error
  run_attempts (suc left) offset root previous last_error =
      let context = context_at offset root previous in
      run_attempt offset context (λ exc.
        run_attempts left (suc offset) (some context.root_dataset_run_id)
          (some context.dataset_run_id) (some exc))

module _ {J F T : Type 0} (call : Call J F T) where
  abbrev is_some {ℓ} : {A : Type ℓ} → Option A → Bool
  is_some none = false
  is_some (some a) = true

  abbrev check_prior : Result RecoveryError Unit
  check_prior =
      raise_if (ltb call.initial_attempt 1) value_error
      >> raise_if
          (if call.initial_attempt == 1
            then is_some call.root_dataset_run_id || is_some call.previous_dataset_run_id
            else not (is_some call.root_dataset_run_id && is_some call.previous_dataset_run_id))
          value_error

  abbrev check_request : Result RecoveryError Unit
  check_request = elim call.reprocess_request [
    | none ↦ raise_if (not (same_mode call.run_mode normal)) value_error
    | some r ↦
        raise_if (same_mode call.run_mode normal) value_error
        >> raise_if (not (same_mode r.run_mode call.run_mode)) value_error
        >> raise_if (not (r.dataset_id == call.dataset_id)) value_error
  ]

  -- The guards before the loop.
  unfoldable pub check_call : Result RecoveryError Unit
  check_call = check_prior >> check_request

abbrev pub marked_running :
    {J F : Type 0} → Environment F → Option (ReprocessRequest J) → Option (ReprocessRequest J)
marked_running env none = none
marked_running env (some r) = some (with_status env ReprocessRequestStatus.running 0 r)

unfoldable pub execute_with_retry : {J F T : Type 0} → Environment F → Call J F T → Run J F T
execute_with_retry env call = elim (check_call call) [
  | raise e ↦ stopped e
  | ok _ ↦ update_reprocess_status env call.reprocess_request ReprocessRequestStatus.running 0 (
      run_attempts env call (marked_running env call.reprocess_request)
        call.retry_policy.max_attempts 0 call.root_dataset_run_id call.previous_dataset_run_id none)
]
