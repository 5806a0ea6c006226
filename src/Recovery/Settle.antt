-- ===== src/Recovery/Settle.antt =====
-- Each way through one attempt of execute_with_retry, settled as Recovery/Story says.
use fabric_data_framework.Prelude.{
  Bool-cases, List, Option, Result, Result-cases, Text, [], ap, arith, inl, inr, list_eq, ltb,
  nat_eq, none, ok, raise, refl, some, suc, ℕ, ◌+◌, ◌==◌, ◌∷◌, ◌≡◌, ◌⊎◌,
}
use fabric_data_framework.TargetOperation.Contract.{
  UnknownOutcomeResolution, committed, not_committed, unresolved,
}
use fabric_data_framework.Recovery.Contract.{
  ReprocessRequest, ReprocessRequestStatus, DatasetRunAudit, RecoveryRunResult, AttemptContext,
  FailureDisposition, retryable, unknown_outcome, non_retryable, FailureClassification, PyException,
  audit_valid,
}
use fabric_data_framework.Recovery.Runtime.{
  RecoveryError, validation_error, Environment, Effect, record_reprocess_request, with_status,
  ResolverReply, resolved, resolver_raised, invalid_resolution, record_dataset_run,
  resolve_unknown_outcome, backoff, Run, before, returned, Call, classify_failure, classification,
  delay_after_attempt,
}
use fabric_data_framework.Recovery.Attempt.{
  record_terminal_audit, update_reprocess_status, fail_run, succeed_run, handle_resolver_failure,
  wait_and_retry, retry_or_fail, resolve, consult, handle_as, handle_failure, handle_result,
  terminal_audit,
}
use fabric_data_framework.Recovery.Story.{
  attempts_of, lineages_of, audits_of, MayRetry, transient, resolved_absent, Backed, executed,
  resolved_committed, Audited, Settled, Ending, FailedForRetry, refused, failed, done, retried,
}

-- Only the request's status is written.
record IsSilent {J F : Type 0} (es : List (Effect J F)) : Type 0 where
  no_attempts : attempts_of es ≡ []
  no_lineages : lineages_of es ≡ []
  no_audits : audits_of es ≡ []

nothing : {J F : Type 0} → IsSilent {J = J} {F = F} []
nothing = record { no_attempts = refl; no_lineages = refl; no_audits = refl }

slept : {J F : Type 0} {delay : F} → IsSilent {J = J} {F = F} (backoff delay ∷ [])
slept = record { no_attempts = refl; no_lineages = refl; no_audits = refl }

disposition_cases :
    (d : FailureDisposition) → (d ≡ retryable) ⊎ (d ≡ unknown_outcome) ⊎ (d ≡ non_retryable)
disposition_cases retryable = inl refl
disposition_cases unknown_outcome = inr (inl refl)
disposition_cases non_retryable = inr (inr refl)

classification-raise :
    {F : Type 0} (env : Environment F) (d : FailureDisposition) (code message : Text)
    (e : RecoveryError)
    → classification env d code message ≡ raise e
    → e ≡ validation_error
unfolding classification
classification-raise env d code message e h =
    ground (arith, Bool-cases (env.strip code == []), Bool-cases (env.strip message == []))

classify_failure-raise :
    {F : Type 0} (env : Environment F) (exc : PyException) (e : RecoveryError)
    → classify_failure env exc ≡ raise e
    → e ≡ validation_error
unfolding classify_failure
classify_failure-raise env exc e h = classification-raise env _ _ _ e h

module _ {J F T : Type 0} (env : Environment F) where
  closing :
      (request : Option (ReprocessRequest J)) (status : ReprocessRequestStatus) (turn : ℕ)
      (o : Result RecoveryError (RecoveryRunResult T))
      → (es : List (Effect J F)) × IsSilent es
        × (update_reprocess_status env request status turn (record { effects = []; outcome = o })
            ≡ record { effects = es; outcome = o })
  unfolding update_reprocess_status
  closing none status turn o =
      ([], record { no_attempts = refl; no_lineages = refl; no_audits = refl }, refl)
  closing (some r) status turn o = (
    record_reprocess_request (with_status env status turn r) ∷ [],
    record { no_attempts = refl; no_lineages = refl; no_audits = refl },
    refl,
  )

module _ {J F T : Type 0} (env : Environment F) (call : Call J F T)
    (active : Option (ReprocessRequest J)) (offset : ℕ) (context : AttemptContext)
    (again : PyException → Run J F T) where
  abbrev IsSettled : Run J F T → Type 0
  IsSettled = Settled env call active offset context again

  audited :
      (es : List (Effect J F)) (a : DatasetRunAudit)
      → IsSilent es
      → a.dataset_run_id ≡ context.dataset_run_id
      → Audited env call active offset context again (record_dataset_run a ∷ es) a
  audited es a s own = record {
    no_attempts = s.no_attempts;
    no_lineages = s.no_lineages;
    one_audit = ap (λ others. a ∷ others) s.no_audits;
    own_audit = own;
  }

  fail_run-IsSettled :
      (a : DatasetRunAudit) (e : RecoveryError)
      → a.dataset_run_id ≡ context.dataset_run_id
      → IsSettled (fail_run env call active offset context a e)
  unfolding fail_run record_terminal_audit
  fail_run-IsSettled a e own = elim (Bool-cases (audit_valid a)) [
    | inr bad ↦ rw bad (refused [] refl refl)
    | inl good ↦
        let (es, silent, same) =
          closing {T = T} env active ReprocessRequestStatus.failed (suc offset) (raise e) in
        rw (good, same) (failed _ a e (audited es a silent own))
  ]

  finish-IsSettled :
      (a : DatasetRunAudit) (r : RecoveryRunResult T)
      → a.dataset_run_id ≡ context.dataset_run_id
      → Ending env call active offset context again a r
      → IsSettled (
          record_terminal_audit env a (
            update_reprocess_status env active ReprocessRequestStatus.succeeded
              (suc offset)
              (returned r)))
  unfolding record_terminal_audit
  finish-IsSettled a r own ending = elim (Bool-cases (audit_valid a)) [
    | inr bad ↦ rw bad (refused [] refl refl)
    | inl good ↦
        let (es, silent, same) =
          closing env active ReprocessRequestStatus.succeeded (suc offset) (ok r) in
        rw (good, same) (done _ a r (audited es a silent own) ending)
  ]

  succeed_run-IsSettled :
      (value : Option T) (resolution : Option UnknownOutcomeResolution)
      → ((r : RecoveryRunResult T) → r.value ≡ value → Backed env call r context)
      → IsSettled (succeed_run env call active offset context value resolution)
  unfolding succeed_run terminal_audit
  succeed_run-IsSettled value resolution backed =
      finish-IsSettled _ _ refl (refl, refl, backed _ refl)

  wait-IsSettled :
      (exc : PyException) (a : DatasetRunAudit)
      → a.dataset_run_id ≡ context.dataset_run_id
      → FailedForRetry a
      → MayRetry env call context
      → IsSettled
          (record_terminal_audit env a (wait_and_retry env call active offset context exc again))
  unfolding wait_and_retry record_terminal_audit
  wait-IsSettled exc a own marks may = elim (Bool-cases (audit_valid a)) [
    | inr bad ↦ rw bad (refused [] refl refl)
    | inl good ↦ elim (Result-cases (delay_after_attempt env call.retry_policy context.attempt)) [
      | inr (e, overflow) ↦
          rw (good, wait_and_retry, overflow)
            (failed (record_dataset_run a ∷ []) a e (audited [] a nothing own))
      | inl (delay, waits) ↦
          rw (good, wait_and_retry, waits)
            (retried (record_dataset_run a ∷ backoff delay ∷ []) a exc (audited _ a slept own) marks
              may)
    ]
  ]

  retry_or_fail-IsSettled :
      (exc : PyException) (c : FailureClassification)
      → (c.disposition ≡ retryable → MayRetry env call context)
      → IsSettled (retry_or_fail env call active offset context exc c again)
  unfolding retry_or_fail terminal_audit
  retry_or_fail-IsSettled exc c may = elim (disposition_cases c.disposition) [
    | inl e ↦ elim (Bool-cases (ltb (offset + 1) call.retry_policy.max_attempts)) [
      | inl more ↦ rw (e, more) (wait-IsSettled exc _ refl (refl, refl) (may e))
      | inr last ↦ rw (e, last) (fail_run-IsSettled _ _ refl)
    ]
    | inr (inl e) ↦ rw e (fail_run-IsSettled _ _ refl)
    | inr (inr e) ↦ rw e (fail_run-IsSettled _ _ refl)
  ]

  resolve-IsSettled :
      (exc : PyException) (c : FailureClassification) (reply : ResolverReply)
      → (reply ≡ resolved not_committed → MayRetry env call context)
      → (reply ≡ resolved committed
          → (r : RecoveryRunResult T) → r.value ≡ none
          → Backed env call r context)
      → IsSettled (resolve env call active offset context exc c again reply)
  unfolding resolve handle_resolver_failure terminal_audit
  resolve-IsSettled exc c (resolver_raised e) may backed = fail_run-IsSettled _ _ refl
  resolve-IsSettled exc c invalid_resolution may backed = fail_run-IsSettled _ _ refl
  resolve-IsSettled exc c (resolved committed) may backed =
      succeed_run-IsSettled none _ (backed refl)
  resolve-IsSettled exc c (resolved unresolved) may backed = fail_run-IsSettled _ _ refl
  resolve-IsSettled exc c (resolved not_committed) may backed =
      retry_or_fail-IsSettled exc _ (λ _. may refl)

  asked :
      {es : List (Effect J F)} {a : DatasetRunAudit}
      → Audited env call active offset context again es a
      → Audited env call active offset context again (resolve_unknown_outcome context ∷ es) a
  asked s = record {
    no_attempts = s.no_attempts;
    no_lineages = s.no_lineages;
    one_audit = s.one_audit;
    own_audit = s.own_audit;
  }

  asked-IsSettled :
      (r : Run J F T) → IsSettled r → IsSettled (before (resolve_unknown_outcome context) r)
  asked-IsSettled _ (refused es a l) = refused _ a l
  asked-IsSettled _ (failed es a e s) = failed (resolve_unknown_outcome context ∷ es) a e (asked s)
  asked-IsSettled _ (done es a r s g) = done (resolve_unknown_outcome context ∷ es) a r (asked s) g
  asked-IsSettled _ (retried es a exc s f m) =
      retried (resolve_unknown_outcome context ∷ es) a exc (asked s) f m

  consult-IsSettled :
      (exc : PyException) (c : FailureClassification)
      (o : Option (AttemptContext → PyException → ResolverReply))
      → call.resolver ≡ o
      → c.disposition ≡ unknown_outcome
      → call.attempt_result context ≡ raise exc
      → classify_failure env exc ≡ ok c
      → IsSettled (consult env call active offset context exc c again o)
  unfolding consult terminal_audit
  consult-IsSettled exc c none given e raised classified = fail_run-IsSettled _ _ refl
  consult-IsSettled exc c (some reply) given e raised classified = asked-IsSettled _ (
      resolve-IsSettled exc c (reply context exc)
        (resolved_absent exc c reply raised classified e given)
        (λ yes_committed r. resolved_committed exc c reply raised classified e given yes_committed))

  handle_as-IsSettled :
      (d : FailureDisposition) (exc : PyException) (c : FailureClassification)
      → c.disposition ≡ d
      → call.attempt_result context ≡ raise exc
      → classify_failure env exc ≡ ok c
      → IsSettled (handle_as env call active offset context d exc c again)
  unfolding handle_as
  handle_as-IsSettled retryable exc c e raised classified =
      retry_or_fail-IsSettled exc c (transient exc c raised classified)
  handle_as-IsSettled non_retryable exc c e raised classified =
      retry_or_fail-IsSettled exc c (transient exc c raised classified)
  handle_as-IsSettled unknown_outcome exc c e raised classified =
      consult-IsSettled exc c call.resolver refl e raised classified

  pub handle_result-IsSettled :
      IsSettled (handle_result env call active offset context again (call.attempt_result context))
  unfolding handle_result handle_failure
  handle_result-IsSettled = elim (Result-cases (call.attempt_result context)) [
    | inl (value, given) ↦
        rw given (succeed_run-IsSettled (some value) none (λ r. executed value given))
    | inr (exc, raised) ↦ elim (Result-cases (classify_failure env exc)) [
      | inl (c, classified) ↦
          rw (raised, handle_result, classified)
            (handle_as-IsSettled c.disposition exc c refl raised classified)
      | inr (e, bad) ↦
          rw (raised, handle_result, bad, classify_failure-raise env exc e bad)
            (refused [] refl refl)
    ]
  ]
