-- ===== src/TargetOperation/Transitions.antt =====
-- The transitions of control_plane/target_operation_journal.py: transition_target_operation, the marks
-- and reconcile_target_operation.
use fabric_data_framework.Prelude.{
  ℕ, not, Option, none, some, if◌then◌else◌, ltb, ◌==◌, nat_eq, list_eq, Text, text, ok, raise,
}
use fabric_data_framework.Prelude.Dict.{get}
use fabric_data_framework.TargetOperation.Contract.{
  TargetOperationStatus, in_progress, succeeded, unknown, not_committed, status_eq,
  UnknownOutcomeResolution, Canonical, TargetOperationRecord, value_error, key_error,
  version_conflict, require_target_operation_transition,
}
use fabric_data_framework.Time.{DateTime}
use fabric_data_framework.TargetOperation.Store.{
  Journal, Others, Outcome, Change, record_from_row, read_target_operation, write_and_read,
}
use fabric_data_framework.TargetOperation.Journal.{any_status}

abbrev pub completion : TargetOperationStatus → DateTime → Option DateTime
completion in_progress now = none
completion _ now = some now

-- The arguments of `transition_target_operation` that its callers choose.
pub record Request : Type 0 where
  pub operation_key : Text
  pub expected_version : ℕ
  pub status : TargetOperationStatus
  pub dataset_run_id : ℕ
  pub attempt : ℕ
  pub outcome_reference : Option Text
  pub error_code : Option Text
  pub error_message : Option Text

abbrev pub request_change : Request → DateTime → Change
request_change q now = record {
  status = q.status;
  owner_dataset_run_id = q.dataset_run_id;
  attempt = q.attempt;
  outcome_reference = q.outcome_reference;
  error_code = q.error_code;
  error_message = q.error_message;
  completed_at = completion q.status now;
}

abbrev pub resolved_status : UnknownOutcomeResolution → TargetOperationStatus
resolved_status UnknownOutcomeResolution.committed = succeeded
resolved_status UnknownOutcomeResolution.not_committed = not_committed
resolved_status UnknownOutcomeResolution.unresolved = unknown

abbrev pub resolution_error : UnknownOutcomeResolution → Option Text
resolution_error UnknownOutcomeResolution.unresolved = some (text "UNKNOWN_COMMIT_UNRESOLVED")
resolution_error _ = none

abbrev pub reconcile_request :
    Text → ℕ → UnknownOutcomeResolution → ℕ → ℕ → Option Text → Option Text → Request
reconcile_request key expected resolution dataset_run_id attempt reference message = record {
  operation_key = key;
  expected_version = expected;
  status = resolved_status resolution;
  dataset_run_id = dataset_run_id;
  attempt = attempt;
  outcome_reference = reference;
  error_code = resolution_error resolution;
  error_message = message;
}

unfoldable pub reconcile_succeeded :
    UnknownOutcomeResolution → TargetOperationRecord → Journal → Outcome TargetOperationRecord
reconcile_succeeded UnknownOutcomeResolution.committed current db = (ok current, db)
reconcile_succeeded _ current db = (raise value_error, db)

module _ (digest : Canonical → Text) (others : Others) (now : DateTime) where
  unfoldable pub transition_known :
      Request → TargetOperationRecord → Journal → Outcome TargetOperationRecord
  unfolding write_and_read require_target_operation_transition
  transition_known q current db =
      if not (current.version == q.expected_version)
      then (raise version_conflict, db)
      else elim (require_target_operation_transition current.status q.status) [
        | raise e ↦ (raise e, db)
        | ok _ ↦
            write_and_read digest others q.operation_key q.expected_version any_status
              current.status now (request_change q now) db
      ]

  unfoldable pub transition_target_operation : Request → Journal → Outcome TargetOperationRecord
  unfolding transition_known record_from_row
  transition_target_operation q db =
      if ltb q.expected_version 1
      then (raise value_error, db)
      else if ltb q.attempt 1
      then (raise value_error, db)
      else elim (get q.operation_key db.operations) [
        | none ↦ (raise key_error, db)
        | some row ↦ elim (record_from_row digest row) [
          | raise e ↦ (raise e, db)
          | ok current ↦ transition_known q current db
        ]
      ]

  unfoldable pub mark_target_operation_succeeded :
      Text → ℕ → ℕ → ℕ → Option Text → Journal → Outcome TargetOperationRecord
  unfolding transition_target_operation
  mark_target_operation_succeeded key expected dataset_run_id attempt reference =
      transition_target_operation (record {
        operation_key = key;
        expected_version = expected;
        status = succeeded;
        dataset_run_id = dataset_run_id;
        attempt = attempt;
        outcome_reference = reference;
        error_code = none;
        error_message = none;
      })

  unfoldable pub mark_target_operation_unknown :
      Text → ℕ → ℕ → ℕ → Text → Option Text → Option Text → Journal → Outcome TargetOperationRecord
  unfolding transition_target_operation
  mark_target_operation_unknown key expected dataset_run_id attempt code message reference =
      transition_target_operation (record {
        operation_key = key;
        expected_version = expected;
        status = unknown;
        dataset_run_id = dataset_run_id;
        attempt = attempt;
        outcome_reference = reference;
        error_code = some code;
        error_message = message;
      })

  unfoldable pub mark_target_operation_not_committed :
      Text → ℕ → ℕ → ℕ → Option Text → Journal → Outcome TargetOperationRecord
  unfolding transition_target_operation
  mark_target_operation_not_committed key expected dataset_run_id attempt reference =
      transition_target_operation (record {
        operation_key = key;
        expected_version = expected;
        status = not_committed;
        dataset_run_id = dataset_run_id;
        attempt = attempt;
        outcome_reference = reference;
        error_code = none;
        error_message = none;
      })

  -- `between_calls` is what other writers do between the first read and the transition.
  unfoldable pub reconcile_target_operation :
      (between_calls : Journal → Journal)
      → Text
      → ℕ
      → UnknownOutcomeResolution
      → ℕ
      → ℕ
      → Option Text
      → Option Text
      → Journal
      → Outcome TargetOperationRecord
  unfolding read_target_operation reconcile_succeeded transition_target_operation
  reconcile_target_operation between_calls key expected resolution dataset_run_id attempt reference
        message db =
      elim (read_target_operation digest db key) [
        | raise e ↦ (raise e, db)
        | ok none ↦ (raise key_error, db)
        | ok (some current) ↦
            if current.status == succeeded
            then reconcile_succeeded resolution current db
            else transition_target_operation
                (reconcile_request key expected resolution dataset_run_id attempt reference message)
                (between_calls db)
      ]
