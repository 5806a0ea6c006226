-- ===== src/TargetOperation/Journal.antt =====
-- claim_target_operation of control_plane/target_operation_journal.py.
use fabric_data_framework.Prelude.{
  ℕ, Bool, true, none, some, if◌then◌else◌, ltb, ◌==◌, nat_eq, list_eq, Text, ok, raise,
}
use fabric_data_framework.Prelude.Dict.{get, put}
use fabric_data_framework.TargetOperation.Contract.{
  TargetOperationStatus, in_progress, succeeded, unknown, not_committed, status_eq, execute,
  skip_succeeded, reconcile_required, TargetOperationIntent, Canonical, operation_key, lower,
  TargetOperationRecord, record_valid, TargetOperationClaim, value_error, validation_error,
  version_conflict, require_target_operation_transition,
}
use fabric_data_framework.Time.{DateTime}
use fabric_data_framework.TargetOperation.Store.{
  Journal, Others, Outcome, Change, record_from_row, assert_semantic_identity, insert_event,
  change_event, write_and_read,
}

abbrev pub retry_change : ℕ → ℕ → Change
retry_change dataset_run_id attempt = record {
  status = in_progress;
  owner_dataset_run_id = dataset_run_id;
  attempt = attempt;
  outcome_reference = none;
  error_code = none;
  error_message = none;
  completed_at = none;
}

abbrev pub fresh_record : Text → TargetOperationIntent → ℕ → ℕ → DateTime → TargetOperationRecord
fresh_record key intent dataset_run_id attempt now = record {
  operation_key = key;
  dataset_id = intent.dataset_id;
  operation_kind = intent.operation_kind;
  target_reference = intent.target_reference;
  effective_config_hash = lower intent.effective_config_hash;
  input_fingerprint = lower intent.input_fingerprint;
  semantic_version = intent.semantic_version;
  status = in_progress;
  owner_dataset_run_id = dataset_run_id;
  attempt = attempt;
  version = 1;
  outcome_reference = none;
  error_code = none;
  error_message = none;
  created_at = now;
  updated_at = none;
  completed_at = none;
}

abbrev pub not_committed_only : TargetOperationStatus → Bool
not_committed_only status = status == not_committed

abbrev pub any_status : TargetOperationStatus → Bool
any_status _ = true

abbrev pub as_execute : Outcome TargetOperationRecord → Outcome TargetOperationClaim
as_execute (ok r, db) = (ok (record { action = execute; operation = r }), db)
as_execute (raise e, db) = (raise e, db)

module _ (digest : Canonical → Text) (others : Others) (now : DateTime) where
  -- The key is unseen: INSERT, which fails where another writer has inserted it meanwhile.
  unfoldable pub claim_unseen :
      TargetOperationIntent → ℕ → ℕ → Text → Journal → Outcome TargetOperationClaim
  unfolding insert_event
  claim_unseen intent dataset_run_id attempt key db =
      let db' = others.before_write db in
      let r = fresh_record key intent dataset_run_id attempt now in
      elim (get key db'.operations) [
        | some row ↦ (raise version_conflict, db')
        | none ↦ (
          if record_valid digest r
              then ok (record { action = execute; operation = r })
              else raise validation_error,
          if record_valid digest r
              then insert_event (change_event key none 1 now (retry_change dataset_run_id attempt))
                  (record db' { operations = put key r db'.operations })
              else db',
        )
      ]

  -- The key is known: decide by the status of its record.
  unfoldable pub claim_known :
      ℕ → ℕ → Text → TargetOperationRecord → Journal → Outcome TargetOperationClaim
  unfolding write_and_read require_target_operation_transition
  claim_known dataset_run_id attempt key current db = elim current.status [
    | succeeded ↦ (ok (record { action = skip_succeeded; operation = current }), db)
    | in_progress ↦ (ok (record { action = reconcile_required; operation = current }), db)
    | unknown ↦ (ok (record { action = reconcile_required; operation = current }), db)
    | not_committed ↦ elim (require_target_operation_transition current.status in_progress) [
      | raise e ↦ (raise e, db)
      | ok _ ↦ as_execute (
          write_and_read digest others key current.version not_committed_only current.status now
            (retry_change dataset_run_id attempt) db)
    ]
  ]

  unfoldable pub claim_target_operation :
      TargetOperationIntent → ℕ → ℕ → Journal → Outcome TargetOperationClaim
  unfolding claim_unseen claim_known record_from_row assert_semantic_identity
  claim_target_operation intent dataset_run_id attempt db =
      let key = operation_key digest intent in
      if ltb attempt 1 then (raise value_error, db) else elim (get key db.operations) [
        | none ↦ claim_unseen intent dataset_run_id attempt key db
        | some row ↦ elim (record_from_row digest row) [
          | raise e ↦ (raise e, db)
          | ok current ↦ elim (assert_semantic_identity digest current intent) [
            | raise e ↦ (raise e, db)
            | ok _ ↦ claim_known dataset_run_id attempt key current db
          ]
        ]
      ]
