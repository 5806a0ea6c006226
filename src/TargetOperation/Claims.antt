-- ===== src/TargetOperation/Claims.antt =====
-- What a claim of target_operation_journal.py grants, and what reconciliation lets the next claim do.
use fabric_data_framework.Prelude.{
  ℕ, ◌+◌, ◌≡◌, ◌⊎◌, [], ◌∷◌, ◌++◌, sym, subst, ◌∙◌, refl, ap, some, ltb, ==_refl, list_eq, nat_eq,
  Bool-cases, Option-cases, inl, inr, Text, ok, raise, arith,
}
use fabric_data_framework.Prelude.Dict.{get, get-put}
use fabric_data_framework.TargetOperation.Contract.{
  TargetOperationStatus, in_progress, succeeded, unknown, not_committed, status_eq, status_beq_iff,
  execute, TargetOperationIntent, TargetOperationRecord, TargetOperationEvent, TargetOperationClaim,
  Canonical, operation_key,
}
use fabric_data_framework.Time.{DateTime}
use fabric_data_framework.TargetOperation.Store.{
  Journal, Others, Outcome, changed, record_from_row, assert_semantic_identity, compare_and_set,
  write_and_read, insert_event,
}
use fabric_data_framework.TargetOperation.Journal.{
  claim_unseen, claim_known, claim_target_operation, as_execute, fresh_record, retry_change,
  not_committed_only,
}
use fabric_data_framework.TargetOperation.Steps.{Write, first, next, first_write, next_write}
use fabric_data_framework.TargetOperation.Interleaving.{compare_and_set_cases}
use fabric_data_framework.TargetOperation.Calls.{Result-cases}

-- The claim's own result: the journal that the call leaves is that of an atomic write on the tables as
-- the other writers left them before it, changed after it at most by other writers. The write leaves
-- the operation IN_PROGRESS and owned by the caller, and appends one event, which tells of that.
pub record Granted (others : Others) (db : Journal) (key : Text) (dataset_run_id attempt : ℕ)
    (left : Journal) : Type 0 where
  pub written : Journal
  pub write : Write (others.before_write db) written
  pub returned : (left ≡ written) ⊎ (left ≡ others.before_read written)
  pub row : TargetOperationRecord
  pub present : get key written.operations ≡ some row
  pub running : row.status ≡ in_progress
  pub owned : row.owner_dataset_run_id ≡ dataset_run_id
  pub numbered : row.attempt ≡ attempt
  pub logged :
      (e : TargetOperationEvent) × (written.events ≡ (others.before_write db).events ++ e ∷ [])
      × (e.operation_key ≡ key)
      × (e.to_status ≡ in_progress)
      × (e.version ≡ row.version)

module _ (digest : Canonical → Text) (others : Others) (now : DateTime)
    (dataset_run_id attempt : ℕ) where
  unseen-Granted :
      (intent : TargetOperationIntent) (key : Text) (db : Journal) (c : TargetOperationClaim)
      → (claim_unseen digest others now intent dataset_run_id attempt key db).0 ≡ ok c
      → Granted others db key dataset_run_id attempt
          (claim_unseen digest others now intent dataset_run_id attempt key db).1
  unfolding claim_unseen insert_event
  unseen-Granted intent key db c h =
      let db' = others.before_write db in
      elim (Option-cases (get key db'.operations)) [
        | inr (row, taken) ↦ cc (rw (taken, claim_unseen) at h)
        | inl free ↦ record {
          written = first_write key intent dataset_run_id attempt now db';
          write = first key intent dataset_run_id attempt now free;
          returned = inl (ground arith);
          row = fresh_record key intent dataset_run_id attempt now;
          present = rw (get-put, ==_refl);
          running = refl;
          owned = refl;
          numbered = refl;
          logged = (_, refl, refl, refl, refl);
        }
      ]

  retry-Granted :
      (key : Text) (current : TargetOperationRecord) (db : Journal) (r : TargetOperationRecord)
      → (write_and_read digest others key current.version not_committed_only not_committed now
          (retry_change dataset_run_id attempt)
          db).0
        ≡ ok r
      → Granted others db key dataset_run_id attempt
          (write_and_read digest others key current.version not_committed_only not_committed now
            (retry_change dataset_run_id attempt)
            db).1
  unfolding write_and_read insert_event
  retry-Granted key current db r h =
      let db' = others.before_write db in
      let c = retry_change dataset_run_id attempt in
      elim (Option-cases
        (compare_and_set key current.version not_committed_only not_committed now c db')) [
          | inl failed ↦ cc (rw (failed, write_and_read) at h)
          | inr (written, set) ↦
              let (row, present, version, passed, e) =
                compare_and_set_cases key current.version not_committed_only not_committed now c db'
                  written set in
              let idle : row.status ≡ not_committed = (status_beq_iff _ _).0 passed in
              let done : next_write key row now c db' ≡ written = rw (idle, version) e in
              record {
                written = next_write key row now c db';
                write = next key row now c present (rw idle refl);
                returned = inr (rw (set, write_and_read) (ap others.before_read (sym done)));
                row = changed (row.version + 1) now c row;
                present = rw (get-put, ==_refl);
                running = refl;
                owned = refl;
                numbered = refl;
                logged = (_, refl, refl, refl, refl);
              }
        ]

  as_execute-ok :
      (o : Outcome TargetOperationRecord) (c : TargetOperationClaim)
      → (as_execute o).0 ≡ ok c
      → (r : TargetOperationRecord) × (o.0 ≡ ok r)
  as_execute-ok (ok r, db) c h = (r, refl)
  as_execute-ok (raise e, db) c h = cc

  as_execute-state : (o : Outcome TargetOperationRecord) → (as_execute o).1 ≡ o.1
  as_execute-state (ok r, db) = refl
  as_execute-state (raise e, db) = refl

  pub claim_known_not_committed :
      (key : Text) (current : TargetOperationRecord) (db : Journal)
      → current.status ≡ not_committed
      → claim_known digest others now dataset_run_id attempt key current db
        ≡ as_execute (
            write_and_read digest others key current.version not_committed_only not_committed now
              (retry_change dataset_run_id attempt)
              db)
  unfolding claim_known
  claim_known_not_committed key current db e =
      rw (e, claim_known)
        (rw e (
          ap
            (λ s. as_execute (
              write_and_read digest others key current.version not_committed_only s now
                (retry_change dataset_run_id attempt) db))
            e))

  known-Granted :
      (key : Text) (current : TargetOperationRecord) (db : Journal) (c : TargetOperationClaim)
      → (claim_known digest others now dataset_run_id attempt key current db).0 ≡ ok c
      → c.action ≡ execute
      → Granted others db key dataset_run_id attempt
          (claim_known digest others now dataset_run_id attempt key current db).1
  unfolding claim_known
  known-Granted key current db c h act = by_status current.status refl
    where
      by_status :
          (s : TargetOperationStatus)
          → current.status ≡ s
          → Granted others db key dataset_run_id attempt
              (claim_known digest others now dataset_run_id attempt key current db).1
      by_status succeeded e = absurd (ground arith)
      by_status in_progress e = absurd (ground arith)
      by_status unknown e = absurd (ground arith)
      by_status not_committed e =
          let (r, written) =
            as_execute-ok _ c (rw (claim_known_not_committed key current db e) at h) in
          let same =
            ap (λ o. o.1) (claim_known_not_committed key current db e) ∙ as_execute-state _ in
          subst (Granted others db key dataset_run_id attempt) (sym same)
            (retry-Granted key current db r written)

-- A claim that answers EXECUTE leaves the tables as an atomic write made them, or as other writers
-- changed them after it: a write on the tables as the others left them before it, after which the
-- operation is IN_PROGRESS and owned by the caller's run and attempt, and which appended one event
-- with the operation's key, status and version. This holds whatever the other writers do.
pub claim-Granted :
    (digest : Canonical → Text) (others : Others) (now : DateTime) (intent : TargetOperationIntent)
    (dataset_run_id attempt : ℕ) (db : Journal) (c : TargetOperationClaim)
    → (claim_target_operation digest others now intent dataset_run_id attempt db).0 ≡ ok c
    → c.action ≡ execute
    → Granted others db
        (operation_key digest intent)
        dataset_run_id
        attempt
        (claim_target_operation digest others now intent dataset_run_id attempt db).1
unfolding claim_target_operation
claim-Granted digest others now intent dataset_run_id attempt db c h act =
    let key = operation_key digest intent in
    elim (Bool-cases (ltb attempt 1)) [
      | inl low ↦ cc (rw low at h)
      | inr enough ↦ elim (Option-cases (get key db.operations)) [
        | inl unseen ↦
            rw (enough, claim_target_operation, unseen)
              (unseen-Granted digest others now dataset_run_id attempt intent key db c
                (rw (enough, unseen, claim_target_operation) at h))
        | inr (row, seen) ↦ elim (Result-cases (record_from_row digest row)) [
          | inl (e, bad) ↦ cc (rw (enough, seen, bad, claim_target_operation) at h)
          | inr (current, read) ↦
              elim (Result-cases (assert_semantic_identity digest current intent)) [
                | inl (e, differs) ↦
                    cc (rw (enough, seen, read, differs, claim_target_operation) at h)
                | inr (u, same) ↦
                    rw (enough, claim_target_operation, seen, read, same)
                      (known-Granted digest others now dataset_run_id attempt key current db c
                        (rw (enough, seen, read, same, claim_target_operation) at h) act)
              ]
        ]
      ]
    ]
