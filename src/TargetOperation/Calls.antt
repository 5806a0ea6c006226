-- ===== src/TargetOperation/Calls.antt =====
-- Any number of processes that call claim_target_operation, transition_target_operation and
-- reconcile_target_operation of target_operation_journal.py on the same tables.
use fabric_data_framework.Prelude.{
  ℕ, ◌≡◌, refl, ◌∙◌, sym, ◌⊎◌, Option, none, some, ltb, ◌==◌, ==_iff, list_eq, nat_eq, Bool-cases,
  Option-cases, inl, inr, Text, Result, ok, raise,
}
use fabric_data_framework.Prelude.Dict.{get}
use fabric_data_framework.TargetOperation.Contract.{
  succeeded, allowed, UnknownOutcomeResolution, TargetOperationIntent, TargetOperationRecord,
  Canonical, operation_key, status_eq, require_target_operation_transition,
}
use fabric_data_framework.Time.{DateTime}
use fabric_data_framework.TargetOperation.Store.{
  Journal, Others, record_from_row, assert_semantic_identity, read_target_operation,
}
use fabric_data_framework.TargetOperation.Journal.{claim_target_operation, any_status}
use fabric_data_framework.TargetOperation.Transitions.{
  Request, request_change, transition_known, transition_target_operation, reconcile_succeeded,
  reconcile_target_operation, reconcile_request,
}
use fabric_data_framework.TargetOperation.Steps.{Reach, here, Reach-trans}
use fabric_data_framework.TargetOperation.Interleaving.{
  Cooperates, record_from_row_fields, write_and_read-Reach, claim_unseen-Reach, claim_known-Reach,
}

pub Result-cases :
    {E A : Type 0} (r : Result E A) → ((e : E) × (r ≡ raise e)) ⊎ ((a : A) × (r ≡ ok a))
Result-cases (raise e) = inl (e, refl)
Result-cases (ok a) = inr (a, refl)

module _ (digest : Canonical → Text) (others : Others) (fine : Cooperates others)
    (now : DateTime) where
  claim-Reach :
      (intent : TargetOperationIntent) (dataset_run_id attempt : ℕ) (db : Journal)
      → Reach db (claim_target_operation digest others now intent dataset_run_id attempt db).1
  unfolding claim_target_operation
  claim-Reach intent dataset_run_id attempt db =
      let key = operation_key digest intent in
      elim (Bool-cases (ltb attempt 1)) [
        | inl low ↦ rw low here
        | inr enough ↦ elim (Option-cases (get key db.operations)) [
          | inl unseen ↦
              rw (enough, unseen, claim_target_operation)
                (claim_unseen-Reach digest others fine now intent dataset_run_id attempt key db)
          | inr (row, seen) ↦ elim (Result-cases (record_from_row digest row)) [
            | inl (e, bad) ↦ rw (enough, seen, bad, claim_target_operation) here
            | inr (current, read) ↦
                elim (Result-cases (assert_semantic_identity digest current intent)) [
                  | inl (e, differs) ↦ rw (enough, seen, read, differs, claim_target_operation) here
                  | inr (u, same) ↦
                      let (version, status) = record_from_row_fields digest row current read in
                      rw (enough, seen, read, same, claim_target_operation)
                        (claim_known-Reach digest others fine now dataset_run_id attempt key row
                          current db seen (sym version) (sym status))
                ]
          ]
        ]
      ]

  transition_known-Reach :
      (q : Request) (row current : TargetOperationRecord) (db : Journal)
      → get q.operation_key db.operations ≡ some row
      → row.version ≡ current.version
      → row.status ≡ current.status
      → Reach db (transition_known digest others now q current db).1
  unfolding transition_known
  transition_known-Reach q row current db seen version status =
      elim (Bool-cases (current.version == q.expected_version)) [
        | inr other ↦ rw (other, transition_known) here
        | inl same ↦ elim (Bool-cases (allowed current.status q.status)) [
          | inr never ↦ rw (same, never, transition_known, require_target_operation_transition) here
          | inl may ↦
              rw (same, may, transition_known, require_target_operation_transition)
                (write_and_read-Reach digest others fine now db q.operation_key row
                  q.expected_version any_status current.status (request_change q now) seen
                  (version ∙ (==_iff current.version q.expected_version).0 same) status may)
        ]
      ]

  transition-Reach :
      (q : Request) (db : Journal) → Reach db (transition_target_operation digest others now q db).1
  unfolding transition_target_operation
  transition-Reach q db = elim (Bool-cases (ltb q.expected_version 1)) [
    | inl low ↦ rw low here
    | inr positive ↦ elim (Bool-cases (ltb q.attempt 1)) [
      | inl low ↦ rw (positive, low) here
      | inr enough ↦ elim (Option-cases (get q.operation_key db.operations)) [
        | inl unseen ↦ rw (positive, enough, unseen, transition_target_operation) here
        | inr (row, seen) ↦ elim (Result-cases (record_from_row digest row)) [
          | inl (e, bad) ↦ rw (positive, enough, seen, bad, transition_target_operation) here
          | inr (current, read) ↦
              let (version, status) = record_from_row_fields digest row current read in
              rw (positive, enough, seen, read, transition_target_operation)
                (transition_known-Reach q row current db seen (sym version) (sym status))
        ]
      ]
    ]
  ]

  reconcile_succeeded-journal :
      (resolution : UnknownOutcomeResolution) (current : TargetOperationRecord) (db : Journal)
      → (reconcile_succeeded resolution current db).1 ≡ db
  unfolding reconcile_succeeded
  reconcile_succeeded-journal UnknownOutcomeResolution.committed current db = refl
  reconcile_succeeded-journal _ current db = refl

  reconcile-Reach :
      (between_calls : Journal → Journal) (key : Text) (expected : ℕ)
      (resolution : UnknownOutcomeResolution) (dataset_run_id attempt : ℕ)
      (reference message : Option Text) (db : Journal)
      → Reach db (between_calls db)
      → Reach db
          (reconcile_target_operation digest others now between_calls key expected resolution
            dataset_run_id attempt reference message db).1
  unfolding reconcile_target_operation
  reconcile-Reach between_calls key expected resolution dataset_run_id attempt reference message db
        between =
      elim (Result-cases (read_target_operation digest db key)) [
        | inl (e, bad) ↦ rw (bad, reconcile_target_operation) here
        | inr (none, absent) ↦ rw (absent, reconcile_target_operation) here
        | inr (some current, found) ↦ elim (Bool-cases (current.status == succeeded)) [
          | inl final ↦
              rw (found, final, reconcile_target_operation, reconcile_succeeded-journal) here
          | inr open_ ↦
              rw (found, open_, reconcile_target_operation)
                (Reach-trans between (
                  transition-Reach
                    (reconcile_request key expected resolution dataset_run_id attempt reference
                      message)
                    (between_calls db)))
        ]
      ]

-- What a sequence of calls by any processes leads to.
pub data Calls (digest : Canonical → Text) (db : Journal) : Journal → Type 0 where
  none_yet : Calls digest db db
  claim :
      {mid : Journal} (others : Others) (now : DateTime) (intent : TargetOperationIntent)
      (dataset_run_id attempt : ℕ)
      → Calls digest db mid
      → Cooperates others
      → Calls digest db
          (claim_target_operation digest others now intent dataset_run_id attempt mid).1
  transition :
      {mid : Journal} (others : Others) (now : DateTime) (q : Request)
      → Calls digest db mid
      → Cooperates others
      → Calls digest db (transition_target_operation digest others now q mid).1
  reconcile :
      {mid : Journal} (others : Others) (now : DateTime) (between_calls : Journal → Journal)
      (key : Text) (expected : ℕ) (resolution : UnknownOutcomeResolution)
      (dataset_run_id attempt : ℕ) (reference message : Option Text)
      → Calls digest db mid
      → Cooperates others
      → Reach mid (between_calls mid)
      → Calls digest db
          (reconcile_target_operation digest others now between_calls key expected resolution
            dataset_run_id attempt reference message mid).1

pub Calls-Reach :
    {digest : Canonical → Text} {db db' : Journal} → Calls digest db db' → Reach db db'
Calls-Reach none_yet = here
Calls-Reach {digest} (claim others now intent run attempt calls fine) =
    Reach-trans (Calls-Reach calls) (claim-Reach digest others fine now intent run attempt _)
Calls-Reach {digest} (transition others now q calls fine) =
    Reach-trans (Calls-Reach calls) (transition-Reach digest others fine now q _)
Calls-Reach {digest}
      (reconcile others now between_calls key expected resolution run attempt reference message
        calls fine between) =
    Reach-trans (Calls-Reach calls) (
      reconcile-Reach digest others fine now between_calls key expected resolution run attempt
        reference message _ between)
