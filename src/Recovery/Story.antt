-- ===== src/Recovery/Story.antt =====
-- What the calls of a run are asked, and what one attempt of execute_with_retry does.
use fabric_data_framework.Prelude.{
  ℕ, ◌+◌, ◌≡◌, true, Option, none, some, List, [], ◌∷◌, ◌++◌, ok, raise,
}
use fabric_data_framework.Prelude.Traces.{collect}
use fabric_data_framework.TargetOperation.Contract.{committed, not_committed}
use fabric_data_framework.Planner.Config.{DatasetStatus}
use fabric_data_framework.Recovery.Contract.{
  ReprocessRequest, DatasetAttemptLineage, DatasetRunAudit, AttemptContext, RecoveryRunResult,
  retryable, unknown_outcome, FailureClassification, PyException,
}
use fabric_data_framework.Recovery.Runtime.{
  RecoveryError, validation_error, Environment, ResolverReply, resolved, Effect,
  record_attempt_lineage, record_dataset_run, execute_attempt, Run, Call, classify_failure,
}

module _ {J F : Type 0} where
  abbrev pub attempt_in : Effect J F → Option AttemptContext
  attempt_in (execute_attempt c) = some c
  attempt_in _ = none

  abbrev pub lineage_in : Effect J F → Option DatasetAttemptLineage
  lineage_in (record_attempt_lineage l) = some l
  lineage_in _ = none

  abbrev pub audit_in : Effect J F → Option DatasetRunAudit
  audit_in (record_dataset_run a) = some a
  audit_in _ = none

  -- The attempts, the lineages and the terminal audits among the calls, in their order.
  abbrev pub attempts_of : List (Effect J F) → List AttemptContext
  attempts_of es = collect attempt_in es

  abbrev pub lineages_of : List (Effect J F) → List DatasetAttemptLineage
  lineages_of es = collect lineage_in es

  abbrev pub audits_of : List (Effect J F) → List DatasetRunAudit
  audits_of es = collect audit_in es

module _ {J F T : Type 0} (env : Environment F) (call : Call J F T) where
  -- Why another attempt may follow this one.
  pub data MayRetry (context : AttemptContext) : Type 0 where
    transient :
        (exc : PyException) (c : FailureClassification)
        → call.attempt_result context ≡ raise exc
        → classify_failure env exc ≡ ok c
        → c.disposition ≡ retryable
        → MayRetry context
    resolved_absent :
        (exc : PyException) (c : FailureClassification)
        (reply : AttemptContext → PyException → ResolverReply)
        → call.attempt_result context ≡ raise exc
        → classify_failure env exc ≡ ok c
        → c.disposition ≡ unknown_outcome
        → call.resolver ≡ some reply
        → reply context exc ≡ resolved not_committed
        → MayRetry context

  -- What a returned result stands on.
  pub data Backed (result : RecoveryRunResult T) (context : AttemptContext) : Type 0 where
    executed :
        (value : T)
        → call.attempt_result context ≡ ok value
        → result.value ≡ some value
        → Backed result context
    resolved_committed :
        (exc : PyException) (c : FailureClassification)
        (reply : AttemptContext → PyException → ResolverReply)
        → call.attempt_result context ≡ raise exc
        → classify_failure env exc ≡ ok c
        → c.disposition ≡ unknown_outcome
        → call.resolver ≡ some reply
        → reply context exc ≡ resolved committed
        → result.value ≡ none
        → Backed result context

abbrev pub Succeeded : DatasetRunAudit → Type 0
Succeeded a = a.status ≡ DatasetStatus.succeeded

abbrev pub FailedForRetry : DatasetRunAudit → Type 0
FailedForRetry a = (a.status ≡ DatasetStatus.failed) × (a.retryable ≡ some true)

module _ {J F T : Type 0} (env : Environment F) (call : Call J F T)
    (active : Option (ReprocessRequest J)) (offset : ℕ) (context : AttemptContext)
    (again : PyException → Run J F T) where
  -- No attempt and no lineage among the calls, and one audit, of this attempt.
  pub record Audited (es : List (Effect J F)) (a : DatasetRunAudit) : Type 0 where
    pub no_attempts : attempts_of es ≡ []
    pub no_lineages : lineages_of es ≡ []
    pub one_audit : audits_of es ≡ a ∷ []
    pub own_audit : a.dataset_run_id ≡ context.dataset_run_id

  abbrev pub Ending : DatasetRunAudit → RecoveryRunResult T → Type 0
  Ending a r = Succeeded a × (r.attempts ≡ offset + 1) × Backed env call r context

  pub data Settled : Run J F T → Type 0 where
    refused :
        (es : List (Effect J F))
        → attempts_of es ≡ []
        → lineages_of es ≡ []
        → Settled (record { effects = es; outcome = raise validation_error })
    failed :
        (es : List (Effect J F)) (a : DatasetRunAudit) (e : RecoveryError)
        → Audited es a
        → Settled (record { effects = es; outcome = raise e })
    done :
        (es : List (Effect J F)) (a : DatasetRunAudit) (r : RecoveryRunResult T)
        → Audited es a
        → Ending a r
        → Settled (record { effects = es; outcome = ok r })
    retried :
        (es : List (Effect J F)) (a : DatasetRunAudit) (exc : PyException)
        → Audited es a
        → FailedForRetry a
        → MayRetry env call context
        → Settled (record { effects = es ++ (again exc).effects; outcome = (again exc).outcome })
