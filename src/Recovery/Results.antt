-- ===== src/Recovery/Results.antt =====
-- What every run of execute_with_retry promises.
use fabric_data_framework.Prelude.{
  ◌+◌, ◌≤◌, ◌≡◌, ◌≢◌, ◌⊎◌, inl, inr, refl, Result, map, length, raise, ok, arith,
}
use fabric_data_framework.Recovery.Contract.{RecoveryRunResult}
use fabric_data_framework.Recovery.Runtime.{
  RecoveryError, value_error, validation_error, overflow_error, assertion_error,
  unknown_outcome_unresolved, unknown_outcome_resolution_failed, recovery_exhausted, reraised,
  Environment, Call,
}
use fabric_data_framework.Recovery.Retry.{lineage_of, marked_running, execute_with_retry}
use fabric_data_framework.Prelude.Traces.{AllButLast, Last}
use fabric_data_framework.Recovery.Story.{
  attempts_of, lineages_of, audits_of, MayRetry, Backed, Succeeded, FailedForRetry,
}
use fabric_data_framework.Recovery.Attempts.{
  IsChain, IsChain-at, audit_ids, context_ids, execute-Story,
}

-- A run ends because a model refused a value, or it does not.
validation_or :
    {T : Type 0} (o : Result RecoveryError (RecoveryRunResult T)) (X : Type 0)
    → (o ≢ raise validation_error → X)
    → (o ≡ raise validation_error) ⊎ X
validation_or (raise validation_error) X h = inl refl
validation_or (ok r) X h = inr (h (λ e. cc))
validation_or (raise value_error) X h = inr (h (λ e. cc))
validation_or (raise overflow_error) X h = inr (h (λ e. cc))
validation_or (raise assertion_error) X h = inr (h (λ e. cc))
validation_or (raise unknown_outcome_unresolved) X h = inr (h (λ e. cc))
validation_or (raise (unknown_outcome_resolution_failed a b)) X h = inr (h (λ e. cc))
validation_or (raise (recovery_exhausted a)) X h = inr (h (λ e. cc))
validation_or (raise (reraised a)) X h = inr (h (λ e. cc))

module _ {J F T : Type 0} (env : Environment F) (call : Call J F T) where
  -- However its attempts and its resolver behave, execute_with_retry makes at most max_attempts
  -- attempts.
  pub attempts_bounded :
      length (attempts_of (execute_with_retry env call).effects) ≤ call.retry_policy.max_attempts
  attempts_bounded = let h = execute-Story env call in h.bounded

  -- No blind retry: another attempt follows only one whose failure was classified as retryable, or
  -- one whose outcome was unknown and which the resolver found not committed.
  pub attempts-MayRetry :
      AllButLast (MayRetry env call) (attempts_of (execute_with_retry env call).effects)
  attempts-MayRetry = let h = execute-Story env call in h.justified

  -- The lineage rows of a run are one for each attempt, in order: consecutive numbers from
  -- initial_attempt on, each row after its predecessor, and one root. There is exactly one terminal
  -- audit for each attempt, in the same order, unless the run ends because a model refused a value.
  pub attempts_recorded :
      IsChain call.initial_attempt call.root_dataset_run_id call.previous_dataset_run_id
        (lineages_of (execute_with_retry env call).effects)
      × (lineages_of (execute_with_retry env call).effects
          ≡ map
              (lineage_of env call (marked_running env call.reprocess_request))
              (attempts_of (execute_with_retry env call).effects))
      × (((execute_with_retry env call).outcome ≡ raise validation_error)
          ⊎ (audit_ids (audits_of (execute_with_retry env call).effects)
              ≡ context_ids (attempts_of (execute_with_retry env call).effects)))
  attempts_recorded =
      let h = execute-Story env call in
      let start : call.initial_attempt + 0 ≡ call.initial_attempt = omega arith in
      (IsChain-at _ _ _ _ _ start h.chained, h.recorded, validation_or _ _ h.audited)

  -- Where execute_with_retry returns, its last attempt gave the value, or had an unknown outcome that
  -- the resolver found committed and then there is no value; the last audit says SUCCEEDED, and
  -- every audit before it FAILED and retryable; and the result counts the attempts.
  pub success-Backed :
      (result : RecoveryRunResult T)
      → (execute_with_retry env call).outcome ≡ ok result
      → Last (Backed env call result) (attempts_of (execute_with_retry env call).effects)
        × Last Succeeded (audits_of (execute_with_retry env call).effects)
        × AllButLast FailedForRetry (audits_of (execute_with_retry env call).effects)
        × (result.attempts ≡ length (attempts_of (execute_with_retry env call).effects))
  success-Backed result e =
      let h = execute-Story env call in
      let (count, backed, marked, good) = h.returns result e in
      (backed, good, marked, omega (arith, count))
