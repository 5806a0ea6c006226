-- ===== src/TargetOperation/Races.antt =====
-- Lost races and reconciled outcomes of target_operation_journal.py: what the next claim may do.
use fabric_data_framework.Prelude.{
  ℕ, ◌≤◌, ◌≡◌, ◌≢◌, Bool, false, none, some, ltb, ==_iff, list_eq, nat_eq, Text, ok, raise, arith,
}
use fabric_data_framework.Prelude.Dict.{get}
use fabric_data_framework.TargetOperation.Contract.{
  TargetOperationStatus, not_committed, status_eq, TargetOperationIntent, TargetOperationRecord,
  Canonical, operation_key, version_conflict,
}
use fabric_data_framework.Time.{DateTime}
use fabric_data_framework.TargetOperation.Store.{
  Journal, Others, record_from_row, assert_semantic_identity, compare_and_set, write_and_read,
}
use fabric_data_framework.TargetOperation.Journal.{
  claim_unseen, claim_target_operation, as_execute, retry_change, not_committed_only,
}
use fabric_data_framework.TargetOperation.Claims.{claim_known_not_committed}

module _ (digest : Canonical → Text) (others : Others) (now : DateTime)
    (intent : TargetOperationIntent) (dataset_run_id attempt : ℕ) (db : Journal)
    (winner : TargetOperationRecord) where
  unseen_race :
      get (operation_key digest intent) (others.before_write db).operations ≡ some winner
      → claim_unseen digest others now intent dataset_run_id attempt
          (operation_key digest intent)
          db
        ≡ (raise version_conflict, others.before_write db)
  unfolding claim_unseen
  unseen_race taken = rw (taken, claim_unseen)

-- A first claim of a positive attempt that loses the race for its key, because another writer has
-- inserted the row between the caller's SELECT and INSERT, ends in a version conflict and leaves
-- the tables as that writer left them.
pub first_claim_race :
    (digest : Canonical → Text) (others : Others) (now : DateTime) (intent : TargetOperationIntent)
    (dataset_run_id attempt : ℕ) (db : Journal) (winner : TargetOperationRecord)
    → 1 ≤ attempt
    → get (operation_key digest intent) db.operations ≡ none
    → get (operation_key digest intent) (others.before_write db).operations ≡ some winner
    → claim_target_operation digest others now intent dataset_run_id attempt db
      ≡ (raise version_conflict, others.before_write db)
unfolding claim_target_operation
first_claim_race digest others now intent dataset_run_id attempt db winner enough unseen taken =
    let low : ltb attempt 1 ≡ false = ground arith in
    rw (low, unseen, claim_target_operation)
      (unseen_race digest others now intent dataset_run_id attempt db winner taken)

lost_compare_and_set :
    (key : Text) (expected : ℕ) (guard : TargetOperationStatus → Bool)
    (from : TargetOperationStatus) (now : DateTime) (run attempt : ℕ) (db : Journal)
    (winner : TargetOperationRecord)
    → get key db.operations ≡ some winner
    → winner.version ≢ expected
    → compare_and_set key expected guard from now (retry_change run attempt) db ≡ none
unfolding compare_and_set
lost_compare_and_set key expected guard from now run attempt db winner taken other =
    rw (taken, compare_and_set) (ground (arith, ==_iff winner.version expected))

lost_write :
    (digest : Canonical → Text) (others : Others) (key : Text) (expected : ℕ) (now : DateTime)
    (run attempt : ℕ) (db : Journal)
    → compare_and_set key expected not_committed_only not_committed now
        (retry_change run attempt)
        (others.before_write db)
      ≡ none
    → as_execute (
        write_and_read digest others key expected not_committed_only not_committed now
          (retry_change run attempt)
          db)
      ≡ (raise version_conflict, others.before_write db)
unfolding write_and_read
lost_write digest others key expected now run attempt db failed = rw (failed, write_and_read)

-- A retry claim of a positive attempt, of a valid NOT_COMMITTED row of the same intent, that loses
-- the race, because another writer has moved the row to another version between the caller's SELECT
-- and UPDATE, ends in a version conflict and leaves the tables as that writer left them.
pub retry_claim_race :
    (digest : Canonical → Text) (others : Others) (now : DateTime) (intent : TargetOperationIntent)
    (dataset_run_id attempt : ℕ) (db : Journal) (row current winner : TargetOperationRecord)
    → 1 ≤ attempt
    → get (operation_key digest intent) db.operations ≡ some row
    → record_from_row digest row ≡ ok current
    → assert_semantic_identity digest current intent ≡ ok tt
    → current.status ≡ not_committed
    → get (operation_key digest intent) (others.before_write db).operations ≡ some winner
    → winner.version ≢ current.version
    → claim_target_operation digest others now intent dataset_run_id attempt db
      ≡ (raise version_conflict, others.before_write db)
unfolding claim_target_operation
retry_claim_race digest others now intent dataset_run_id attempt db row current winner enough seen
      read same idle taken other =
    let low : ltb attempt 1 ≡ false = ground arith in
    let key = operation_key digest intent in
    rw (low, seen, read, same, claim_target_operation)
      (rw (claim_known_not_committed digest others now dataset_run_id attempt key current db idle) (
        lost_write digest others key current.version now dataset_run_id attempt db (
          lost_compare_and_set key current.version not_committed_only not_committed now
            dataset_run_id attempt (others.before_write db) winner taken other)))
