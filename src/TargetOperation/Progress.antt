-- ===== src/TargetOperation/Progress.antt =====
-- Claims of target_operation_journal.py that must succeed.
use fabric_data_framework.Prelude.{
  ℕ, ◌+◌, ◌≤◌, ◌≡◌, refl, ap, subst, sym, ◌∙◌, true, false, ltb, some, ==_refl, nat_eq, list_eq,
  Text, ok, arith,
}
use fabric_data_framework.Prelude.Dict.{get, put, get-put}
use fabric_data_framework.Time.{DateTime, is_aware, instant}
use fabric_data_framework.TargetOperation.Contract.{
  not_committed, status_eq, TargetOperationIntent, Canonical, operation_key, intent_of,
  TargetOperationRecord, record_valid, execute,
}
use fabric_data_framework.TargetOperation.Store.{
  Journal, alone, changed, record_from_row, assert_semantic_identity, insert_event, change_event,
  compare_and_set, write_and_read, read_target_operation,
}
use fabric_data_framework.TargetOperation.Interleaving.{record_from_row_fields}
use fabric_data_framework.TargetOperation.Claims.{claim_known_not_committed}
use fabric_data_framework.TargetOperation.Journal.{
  retry_change, not_committed_only, claim_known, as_execute, claim_target_operation,
}

-- A valid row stays valid when a retry claims it at a later, aware time.
retried_from_row :
    (digest : Canonical → Text) (now : DateTime) (run attempt : ℕ)
    (row current : TargetOperationRecord)
    → 1 ≤ attempt
    → is_aware now ≡ true
    → instant current.created_at ≤ instant now
    → record_from_row digest row ≡ ok current
    → record_from_row digest (changed (row.version + 1) now (retry_change run attempt) row)
      ≡ ok (changed (row.version + 1) now (retry_change run attempt) current)
unfolding record_from_row record_valid intent_of
retried_from_row digest now run attempt row current a w t h = ground arith

abbrev retried : Text → DateTime → ℕ → ℕ → TargetOperationRecord → Journal → Journal
retried key now run attempt row db =
    insert_event
      (change_event key (some not_committed) (row.version + 1) now (retry_change run attempt))
      (record db {
        operations =
            put key (changed (row.version + 1) now (retry_change run attempt) row) db.operations;
      })

retried_set :
    (key : Text) (now : DateTime) (run attempt : ℕ) (db : Journal) (row : TargetOperationRecord)
    → get key db.operations ≡ some row
    → row.status ≡ not_committed
    → compare_and_set key row.version not_committed_only not_committed now
        (retry_change run attempt)
        db
      ≡ some (retried key now run attempt row db)
unfolding compare_and_set
retried_set key now run attempt db row seen idle =
    rw (seen, compare_and_set) (rw (==_refl row.version, idle) refl)

retried_read :
    (digest : Canonical → Text) (key : Text) (now : DateTime) (run attempt : ℕ) (db : Journal)
    (row r : TargetOperationRecord)
    → record_from_row digest (changed (row.version + 1) now (retry_change run attempt) row) ≡ ok r
    → read_target_operation digest (retried key now run attempt row db) key ≡ ok (some r)
unfolding read_target_operation insert_event
retried_read digest key now run attempt db row r valid =
    let found =
      get-put key key (changed (row.version + 1) now (retry_change run attempt) row)
        db.operations in
    rw (found, read_target_operation) (rw (==_refl key) (rw valid refl))

retried_write :
    (digest : Canonical → Text) (key : Text) (now : DateTime) (run attempt : ℕ) (db : Journal)
    (row r : TargetOperationRecord)
    → get key db.operations ≡ some row
    → row.status ≡ not_committed
    → record_from_row digest (changed (row.version + 1) now (retry_change run attempt) row) ≡ ok r
    → write_and_read digest alone key row.version not_committed_only not_committed now
        (retry_change run attempt)
        db
      ≡ (ok r, retried key now run attempt row db)
unfolding write_and_read
retried_write digest key now run attempt db row r seen idle valid =
    rw (retried_set key now run attempt db row seen idle, write_and_read)
      (rw (retried_read digest key now run attempt db row r valid) refl)

retried_known :
    (digest : Canonical → Text) (key : Text) (now : DateTime) (run attempt : ℕ) (db db' : Journal)
    (current r : TargetOperationRecord)
    → current.status ≡ not_committed
    → write_and_read digest alone key current.version not_committed_only not_committed now
        (retry_change run attempt)
        db
      ≡ (ok r, db')
    → (claim_known digest alone now run attempt key current db).0
      ≡ ok (record { action = execute; operation = r })
retried_known digest key now run attempt db db' current r idle written =
    rw (claim_known_not_committed digest alone now run attempt key current db idle)
      (ap (λ o. (as_execute o).0) written)

-- A retry succeeds: where the row of an operation is valid, of the same intent and NOT_COMMITTED, a
-- claim of a positive attempt at an aware time not before the row's creation, which no other writer
-- disturbs, answers EXECUTE with the row's next version, owned by the caller and IN_PROGRESS.
pub retry_claim_executes :
    (digest : Canonical → Text) (now : DateTime) (intent : TargetOperationIntent) (run attempt : ℕ)
    (db : Journal) (row current : TargetOperationRecord)
    → 1 ≤ attempt
    → is_aware now ≡ true
    → instant current.created_at ≤ instant now
    → get (operation_key digest intent) db.operations ≡ some row
    → record_from_row digest row ≡ ok current
    → assert_semantic_identity digest current intent ≡ ok tt
    → current.status ≡ not_committed
    → (claim_target_operation digest alone now intent run attempt db).0
      ≡ ok (record {
        action = execute;
        operation = changed (row.version + 1) now (retry_change run attempt) current;
      })
unfolding claim_target_operation
retry_claim_executes digest now intent run attempt db row current enough aware later seen read same
      idle =
    let low : ltb attempt 1 ≡ false = ground arith in
    let key = operation_key digest intent in
    let (version, status) = record_from_row_fields digest row current read in
    let valid = retried_from_row digest now run attempt row current enough aware later read in
    let written =
      retried_write digest key now run attempt db row _ seen (sym status ∙ idle) valid in
    rw (low, seen, read, same, claim_target_operation)
      (retried_known digest key now run attempt db (retried key now run attempt row db) current
        (changed (row.version + 1) now (retry_change run attempt) current) idle
        (subst
          (λ v.
            write_and_read digest alone key v not_committed_only not_committed now
              (retry_change run attempt) db
            ≡ (
              ok (changed (row.version + 1) now (retry_change run attempt) current),
              retried key now run attempt row db,
            ))
          (sym version) written))
