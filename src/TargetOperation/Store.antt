-- ===== src/TargetOperation/Store.antt =====
-- control_plane/target_operation_journal.py: the two tables, the rows read back from them, and
-- the guarded write. The tables are a dict of rows by operation key and the list of events in the
-- order of insertion. A write is given what other writers do to the tables between the caller's
-- SELECT and its UPDATE, and between its commit and the read that follows: a failed write is
-- rolled back, so that only their work is left.
use fabric_data_framework.Prelude.{
  ℕ, ◌+◌, Bool, ◌&&◌, Option, none, some, List, [], ◌∷◌, ◌++◌, if◌then◌else◌, ◌==◌, nat_eq, list_eq,
  Text, Result, ok, raise,
}
use fabric_data_framework.Prelude.Dict.{Dict, get, put}
use fabric_data_framework.TargetOperation.Contract.{
  TargetOperationStatus, TargetOperationIntent, Canonical, operation_key, lower, intent_beq,
  TargetOperationRecord, intent_of, record_valid, TargetOperationEvent, JournalError,
  validation_error, assertion_error, version_conflict, semantic_conflict,
}
use fabric_data_framework.Time.{DateTime, aware_time, aware_option}

pub record Journal : Type 0 where
  pub operations : Dict Text TargetOperationRecord
  pub events : List TargetOperationEvent

abbrev pub empty : Journal
empty = record { operations = []; events = [] }

-- What the other writers do in the two gaps of one call.
pub record Others : Type 0 where
  pub before_write : Journal → Journal
  pub before_read : Journal → Journal

abbrev pub alone : Others
alone = record { before_write = λ db. db; before_read = λ db. db }

abbrev pub Outcome : Type 0 → Type 0
Outcome A = Result JournalError A × Journal

module _ (digest : Canonical → Text) where
  unfoldable pub record_from_row : TargetOperationRecord → Result JournalError TargetOperationRecord
  record_from_row row =
      let r : TargetOperationRecord = record row {
        effective_config_hash = lower row.effective_config_hash;
        input_fingerprint = lower row.input_fingerprint;
        created_at = aware_time row.created_at;
        updated_at = aware_option row.updated_at;
        completed_at = aware_option row.completed_at;
      } in
      if record_valid digest r then ok r else raise validation_error

  unfoldable pub assert_semantic_identity :
      TargetOperationRecord → TargetOperationIntent → Result JournalError (Unit {0})
  assert_semantic_identity r intent =
      if r.operation_key == operation_key digest intent && intent_beq (intent_of r) intent
      then ok tt
      else raise semantic_conflict

unfoldable pub insert_event : TargetOperationEvent → Journal → Journal
insert_event event db = record db { events = db.events ++ event ∷ [] }

unfoldable pub read_target_operation :
    (digest : Canonical → Text)
    → Journal
    → Text
    → Result JournalError (Option TargetOperationRecord)
unfolding record_from_row
read_target_operation digest db key = elim (get key db.operations) [
  | none ↦ ok none
  | some row ↦ elim (record_from_row digest row) [ ok r ↦ ok (some r) | raise e ↦ raise e ]
]

-- What a caller writes: the columns that a state change sets.
pub record Change : Type 0 where
  pub status : TargetOperationStatus
  pub owner_dataset_run_id : ℕ
  pub attempt : ℕ
  pub outcome_reference : Option Text
  pub error_code : Option Text
  pub error_message : Option Text
  pub completed_at : Option DateTime

abbrev pub changed : ℕ → DateTime → Change → TargetOperationRecord → TargetOperationRecord
changed next_version now c row = record row {
  status = c.status;
  owner_dataset_run_id = c.owner_dataset_run_id;
  attempt = c.attempt;
  version = next_version;
  outcome_reference = c.outcome_reference;
  error_code = c.error_code;
  error_message = c.error_message;
  updated_at = some now;
  completed_at = c.completed_at;
}

abbrev pub change_event :
    Text → Option TargetOperationStatus → ℕ → DateTime → Change → TargetOperationEvent
change_event key from version now c = record {
  operation_key = key;
  from_status = from;
  to_status = c.status;
  owner_dataset_run_id = c.owner_dataset_run_id;
  attempt = c.attempt;
  version = version;
  outcome_reference = c.outcome_reference;
  error_code = c.error_code;
  error_message = c.error_message;
  occurred_at = now;
}

-- UPDATE … WHERE operation_key, version and `guard`, then the event of the change. `none`: no row
-- matched.
unfoldable pub compare_and_set :
    Text
    → ℕ
    → (TargetOperationStatus → Bool)
    → TargetOperationStatus
    → DateTime
    → Change
    → Journal
    → Option Journal
unfolding insert_event
compare_and_set key expected guard from now c db = elim (get key db.operations) [
  | none ↦ none
  | some row ↦
      if row.version == expected && guard row.status
      then some (
          insert_event (change_event key (some from) (expected + 1) now c)
            (record db { operations = put key (changed (expected + 1) now c row) db.operations }))
      else none
]

-- The transaction from the UPDATE on, and the read after its commit.
unfoldable pub write_and_read :
    (digest : Canonical → Text)
    → Others
    → Text
    → ℕ
    → (TargetOperationStatus → Bool)
    → TargetOperationStatus
    → DateTime
    → Change
    → Journal
    → Outcome TargetOperationRecord
write_and_read digest others key expected guard from now c db =
    let db' = others.before_write db in
    elim (compare_and_set key expected guard from now c db') [
      | none ↦ (raise version_conflict, db')
      | some written ↦
          let final = others.before_read written in
          (
            elim (read_target_operation digest final key) [
              | ok (some r) ↦ ok r
              | ok none ↦ raise assertion_error
              | raise e ↦ raise e
            ],
            final,
          )
    ]
