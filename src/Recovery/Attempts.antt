-- ===== src/Recovery/Attempts.antt =====
-- What a run of execute_with_retry is, for any results of its attempts and any resolver.
use fabric_data_framework.Prelude.{
  ℕ, zero, suc, ◌+◌, ◌≤◌, ◌≡◌, ◌≢◌, refl, subst, ap, ◌∙◌, inl, inr, Bool-cases, Option, none, some,
  List, [], ◌∷◌, ◌++◌, map, length, Result, Result-cases, ok, raise, arith,
}
use fabric_data_framework.Recovery.Contract.{
  ReprocessRequest, ReprocessRequestStatus, DatasetAttemptLineage, DatasetRunAudit, AttemptContext,
  RecoveryRunResult, PyException, lineage_valid,
}
use fabric_data_framework.Recovery.Runtime.{
  RecoveryError, validation_error, Environment, Effect, Run, before, stopped, Call,
  record_attempt_lineage, execute_attempt,
}
use fabric_data_framework.Recovery.Attempt.{update_reprocess_status}
use fabric_data_framework.Recovery.Retry.{
  context_at, root_of, lineage_of, run_attempt, run_attempts, check_call, marked_running,
  execute_with_retry,
}
use fabric_data_framework.Prelude.Traces.{
  AllButLast, Last, AllButLast-cons, Last-cons, collect-append,
}
use fabric_data_framework.Recovery.Story.{
  attempt_in, lineage_in, audit_in, attempts_of, lineages_of, audits_of, MayRetry, Backed,
  Succeeded, FailedForRetry, Settled, refused, failed, done, retried,
}
use fabric_data_framework.Recovery.Settle.{handle_result-IsSettled}

-- The rows stand for consecutive attempts, each after the one before it, and of one root.
abbrev pub IsChain : ℕ → Option ℕ → Option ℕ → List DatasetAttemptLineage → Type 0
IsChain attempt root previous [] = Unit
IsChain attempt root previous (l ∷ ls) =
    (l.attempt ≡ attempt)
    × (l.previous_dataset_run_id ≡ previous)
    × (l.root_dataset_run_id ≡ root_of root l.dataset_run_id)
    × IsChain (attempt + 1) (some l.root_dataset_run_id) (some l.dataset_run_id) ls

pub IsChain-at :
    (n k : ℕ) (root previous : Option ℕ) (ls : List DatasetAttemptLineage)
    → n ≡ k
    → IsChain n root previous ls
    → IsChain k root previous ls
IsChain-at n k root previous ls e h = subst (λ x. IsChain x root previous ls) e h

abbrev pub audit_ids : List DatasetRunAudit → List ℕ
audit_ids as_written = map (λ a. a.dataset_run_id) as_written

abbrev pub context_ids : List AttemptContext → List ℕ
context_ids contexts = map (λ c. c.dataset_run_id) contexts

module _ {J F T : Type 0} (env : Environment F) (call : Call J F T)
    (active : Option (ReprocessRequest J)) where
  -- The part of a run from the turn `offset` of the loop on, with `left` turns left.
  pub record Story (left offset : ℕ) (root previous : Option ℕ) (r : Run J F T) : Type 0 where
    pub bounded : length (attempts_of r.effects) ≤ left
    pub chained : IsChain (call.initial_attempt + offset) root previous (lineages_of r.effects)
    pub recorded : lineages_of r.effects ≡ map (lineage_of env call active) (attempts_of r.effects)
    pub justified : AllButLast (MayRetry env call) (attempts_of r.effects)
    pub audited :
        r.outcome ≢ raise validation_error
        → audit_ids (audits_of r.effects) ≡ context_ids (attempts_of r.effects)
    pub returns :
        (result : RecoveryRunResult T)
        → r.outcome ≡ ok result
        → (result.attempts ≡ offset + length (attempts_of r.effects))
          × Last (Backed env call result) (attempts_of r.effects)
          × AllButLast FailedForRetry (audits_of r.effects)
          × Last Succeeded (audits_of r.effects)

  stopped-Story :
      (left offset : ℕ) (root previous : Option ℕ) (e : RecoveryError)
      → Story left offset root previous (stopped e)
  stopped-Story left offset root previous e = record {
    bounded = omega arith;
    chained = tt;
    recorded = refl;
    justified = tt;
    audited = λ valid. refl;
    returns = λ result h. cc;
  }

  -- One turn, given how its attempt is settled and the story of every run that may follow.
  module _ (left offset : ℕ) (root previous : Option ℕ) (again : PyException → Run J F T) where
    abbrev context : AttemptContext
    context = context_at env call active offset root previous

    abbrev turn : Run J F T → Run J F T
    turn r =
        before (record_attempt_lineage (lineage_of env call active context))
          (before (execute_attempt context) r)

    -- Where nothing is attempted after this attempt.
    ended :
        (es : List (Effect J F)) (o : Result RecoveryError (RecoveryRunResult T))
        → attempts_of es ≡ []
        → lineages_of es ≡ []
        → (o ≢ raise validation_error → audit_ids (audits_of es) ≡ context.dataset_run_id ∷ [])
        → ((result : RecoveryRunResult T)
            → o ≡ ok result
            → (result.attempts ≡ offset + 1)
              × Backed env call result context
              × AllButLast FailedForRetry (audits_of es)
              × Last Succeeded (audits_of es))
        → Story (suc left) offset root previous (turn (record { effects = es; outcome = o }))
    ended es o na nl audits finish = record {
      bounded = rw na (omega arith);
      chained = rw nl (omega arith, refl, refl, tt);
      recorded = rw (na, nl) refl;
      justified = rw na tt;
      audited = λ valid. rw na (audits valid);
      returns = λ result e. rw na (finish result e);
    }

    turn-Story :
        (r : Run J F T)
        → Settled env call active offset context again r
        → ((exc : PyException)
            → Story left
                (suc offset)
                (some context.root_dataset_run_id)
                (some context.dataset_run_id)
                (again exc))
        → Story (suc left) offset root previous (turn r)
    turn-Story _ (refused es na nl) follow =
        ended es _ na nl (λ valid. absurd (valid refl)) (λ result e. cc)
    turn-Story _ (failed es a e s) follow =
        ended es _ s.no_attempts s.no_lineages (λ valid. rw (s.one_audit, s.own_audit) refl)
          (λ result e. cc)
    turn-Story _ (done es a r s (good, count, backed)) follow =
        ended es _ s.no_attempts s.no_lineages (λ valid. rw (s.one_audit, s.own_audit) refl)
          (λ result e.
            let same : r ≡ result = cc in rw (← same, s.one_audit) (count, backed, tt, good))
    turn-Story _ (retried es a exc s marks may) follow =
        let rest = again exc in
        let h = follow exc in
        let na : attempts_of (es ++ rest.effects) ≡ attempts_of rest.effects =
          collect-append attempt_in es rest.effects
          ∙ ap (λ x. x ++ attempts_of rest.effects) s.no_attempts in
        let nl : lineages_of (es ++ rest.effects) ≡ lineages_of rest.effects =
          collect-append lineage_in es rest.effects
          ∙ ap (λ x. x ++ lineages_of rest.effects) s.no_lineages in
        let one : audits_of (es ++ rest.effects) ≡ a ∷ audits_of rest.effects =
          collect-append audit_in es rest.effects
          ∙ ap (λ x. x ++ audits_of rest.effects) s.one_audit in
        record {
          bounded = rw na (omega (arith, h.bounded));
          chained = rw nl (
            omega arith,
            refl,
            refl,
            IsChain-at _ _ _ _ _
                (let one_on : call.initial_attempt + suc offset
                      ≡ call.initial_attempt + offset + 1 =
                    omega arith in
                  one_on)
                h.chained,
          );
          recorded = rw (na, nl) (ap (λ x. lineage_of env call active context ∷ x) h.recorded);
          justified = rw na (AllButLast-cons _ context _ may h.justified);
          audited = λ valid.
              rw (na, one, s.own_audit) (ap (λ x. context.dataset_run_id ∷ x) (h.audited valid));
          returns = λ result e.
              let (count, backed, marked, good) = h.returns result e in
              rw (na, one)
                (
                  omega (arith, count),
                  Last-cons (Backed env call result) context (attempts_of rest.effects) backed,
                  AllButLast-cons FailedForRetry a (audits_of rest.effects) marks marked,
                  Last-cons Succeeded a (audits_of rest.effects) good,
                );
        }

  run_attempts-Story :
      (left offset : ℕ) (root previous : Option ℕ) (last : Option PyException)
      → Story left offset root previous
          (run_attempts env call active left offset root previous last)
  unfolding run_attempts run_attempt
  run_attempts-Story zero offset root previous none = stopped-Story zero offset root previous _
  run_attempts-Story zero offset root previous (some exc) =
      stopped-Story zero offset root previous _
  run_attempts-Story (suc left) offset root previous last =
      elim (Bool-cases (
        lineage_valid
          (lineage_of env call active (context_at env call active offset root previous)))) [
            | inr bad ↦ rw bad (stopped-Story (suc left) offset root previous _)
            | inl good ↦ rw good (
                turn-Story left offset root previous _ _
                  (handle_result-IsSettled env call active offset _ _)
                  (λ exc. run_attempts-Story left (suc offset) _ _ (some exc)))
          ]

module _ {J F T : Type 0} (env : Environment F) (call : Call J F T) where
  abbrev marked : Option (ReprocessRequest J)
  marked = marked_running env call.reprocess_request

  marked-Story :
      (request : Option (ReprocessRequest J)) (left : ℕ) (root previous : Option ℕ) (r : Run J F T)
      → Story env call marked left 0 root previous r
      → Story env call marked left 0 root previous
          (update_reprocess_status env request ReprocessRequestStatus.running 0 r)
  unfolding update_reprocess_status
  marked-Story none left root previous r h = h
  marked-Story (some request) left root previous r h = record {
    bounded = h.bounded;
    chained = h.chained;
    recorded = h.recorded;
    justified = h.justified;
    audited = h.audited;
    returns = h.returns;
  }

  pub execute-Story :
      Story env call marked call.retry_policy.max_attempts 0 call.root_dataset_run_id
        call.previous_dataset_run_id
        (execute_with_retry env call)
  unfolding execute_with_retry
  execute-Story = elim (Result-cases (check_call call)) [
    | inr (e, bad) ↦ simp (bad, execute_with_retry) (stopped-Story env call marked _ 0 _ _ e)
    | inl (u, good) ↦
        simp (good, execute_with_retry)
          (marked-Story _ _ _ _ _ (run_attempts-Story env call marked _ 0 _ _ none))
  ]
