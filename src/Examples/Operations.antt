-- ===== src/Examples/Operations.antt =====
-- target_operation_journal.py on concrete tables.
use fabric_data_framework.Prelude.{
  ◌+◌, ◌≤◌, ◌≡◌, refl, none, some, [], ◌∷◌, ◌++◌, Text, text, nat_eq, list_eq, ok, raise, arith,
}
use mathlib.Core.Option
use fabric_data_framework.Prelude.Dict.{get}
use fabric_data_framework.Time.{aware}
use fabric_data_framework.TargetOperation.Contract.{
  in_progress, succeeded, not_committed, TargetOperationIntent, Canonical, string, number,
  TargetOperationRecord, TargetOperationClaim, execute, operation_key, canonical, intent_of,
  version_conflict, lower, record_valid, intent_fields_valid, intent_beq,
}
use fabric_data_framework.TargetOperation.Store.{
  Journal, Others, changed, alone, empty, record_from_row, assert_semantic_identity,
}
use fabric_data_framework.TargetOperation.Journal.{
  retry_change, fresh_record, claim_unseen, claim_target_operation,
}
use fabric_data_framework.TargetOperation.Transitions.{Request, transition_target_operation}
use fabric_data_framework.TargetOperation.Steps.{here}
use fabric_data_framework.TargetOperation.Interleaving.{Cooperates}
use fabric_data_framework.TargetOperation.Calls.{Calls, none_yet, claim, transition}
use fabric_data_framework.TargetOperation.Trace.{replay, summary}
use fabric_data_framework.TargetOperation.Safety.{
  succeeded_is_final, version_monotone, replay-eq-row, events_to, executions-le,
}
use fabric_data_framework.TargetOperation.Claims.{Granted, claim-Granted}
use fabric_data_framework.TargetOperation.Progress.{retry_claim_executes}
use fabric_data_framework.TargetOperation.Races.{retry_claim_race}

-- A stand-in for the hash: the texts of the fields, one after the other.
abbrev digest : Canonical → Text
digest [] = []
digest ((name, string s) ∷ fields) = s ++ 0 ∷ digest fields
digest ((name, number n) ∷ fields) = n ∷ 0 ∷ digest fields

abbrev some_hash : Text
some_hash = text "00112233445566778899aabbccddeeff00112233445566778899aabbccddeeff"

abbrev orders : TargetOperationIntent
orders = record {
  dataset_id = text "orders";
  operation_kind = text "append";
  target_reference = text "silver";
  effective_config_hash = some_hash;
  input_fingerprint = some_hash;
  semantic_version = 1;
}

abbrev orders_key : Text
orders_key = operation_key digest orders

abbrev running_row : TargetOperationRecord
running_row = fresh_record orders_key orders 7 1 (aware 10)

abbrev done_row : TargetOperationRecord
done_row = record running_row {
  status = succeeded;
  version = 2;
  updated_at = some (aware 20);
  completed_at = some (aware 20);
}

abbrev failed_row : TargetOperationRecord
failed_row = record done_row { status = not_committed }

abbrev other_row : TargetOperationRecord
other_row = record running_row { version = 3; owner_dataset_run_id = 9 }

abbrev holding : TargetOperationRecord → Journal
holding row = record { operations = (orders_key, row) ∷ []; events = [] }

alone-Cooperates : Cooperates alone
alone-Cooperates = record { before_write = λ db. here; before_read = λ db. here }

abbrev claimed_again : Journal → Journal
claimed_again db = (claim_target_operation digest alone (aware 30) orders 8 2 db).1

succeeded_is_final_example :
    get orders_key (claimed_again (holding done_row)).operations ≡ some done_row
unfolding get operation_key canonical
succeeded_is_final_example =
    succeeded_is_final digest (holding done_row) (claimed_again (holding done_row)) orders_key
      done_row (claim alone (aware 30) orders 8 2 none_yet alone-Cooperates) refl refl

version_monotone_example :
    (row : TargetOperationRecord) × (get orders_key (claimed_again (holding failed_row)).operations
      ≡ some row)
    × (2 ≤ row.version)
    × (intent_of row ≡ intent_of failed_row)
unfolding get operation_key canonical
version_monotone_example =
    version_monotone digest (holding failed_row) (claimed_again (holding failed_row)) orders_key
      failed_row (claim alone (aware 30) orders 8 2 none_yet alone-Cooperates) refl

abbrev to_done : Request
to_done = record {
  operation_key = orders_key;
  expected_version = 1;
  status = succeeded;
  dataset_run_id = 7;
  attempt = 1;
  outcome_reference = none;
  error_code = none;
  error_message = none;
}

abbrev after_claim : Journal
after_claim = claimed_again empty

abbrev after_success : Journal
after_success = (transition_target_operation digest alone (aware 40) to_done after_claim).1

success-Calls : Calls digest empty after_success
success-Calls =
    transition alone (aware 40) to_done
      (claim alone (aware 30) orders 8 2 none_yet alone-Cooperates) alone-Cooperates

replay-eq-row_example :
    replay orders_key after_success.events
    ≡ Option.map summary (get orders_key after_success.operations)
replay-eq-row_example = replay-eq-row digest after_success orders_key success-Calls

executions-le_example :
    events_to orders_key in_progress after_success.events
    ≤ events_to orders_key not_committed after_success.events + 1
executions-le_example = executions-le digest after_success orders_key success-Calls

abbrev granted_claim : TargetOperationClaim
granted_claim = record {
  action = execute;
  operation = fresh_record orders_key orders 8 2 (aware 30);
}

claim-Granted_example :
    Granted alone empty orders_key 8 2
      (claim_target_operation digest alone (aware 30) orders 8 2 empty).1
unfolding claim_target_operation claim_unseen get record_valid intent_fields_valid lower
    operation_key canonical intent_of
claim-Granted_example =
    claim-Granted digest alone (aware 30) orders 8 2 empty granted_claim refl refl

abbrev overtaken : TargetOperationRecord → Others
overtaken row = record { before_write = λ db. holding row; before_read = λ db. db }

retry_claim_race_example :
    claim_target_operation digest (overtaken other_row) (aware 30) orders 8 2 (holding failed_row)
    ≡ (raise version_conflict, holding other_row)
unfolding get record_from_row record_valid intent_fields_valid lower operation_key canonical
    intent_of assert_semantic_identity intent_beq
retry_claim_race_example =
    retry_claim_race digest (overtaken other_row) (aware 30) orders 8 2 (holding failed_row)
      failed_row failed_row other_row (omega arith) refl refl refl refl refl (omega arith)

retry_claim_executes_example :
    (claim_target_operation digest alone (aware 30) orders 8 2 (holding failed_row)).0
    ≡ ok (record {
      action = execute;
      operation = changed 3 (aware 30) (retry_change 8 2) failed_row;
    })
unfolding get record_from_row record_valid intent_fields_valid lower operation_key canonical
    intent_of assert_semantic_identity intent_beq
retry_claim_executes_example =
    retry_claim_executes digest (aware 30) orders 8 2 (holding failed_row) failed_row failed_row
      (omega arith) refl (omega arith) refl refl refl refl
