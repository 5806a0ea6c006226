-- ===== src/Recovery/Contract.antt =====
-- contracts/recovery.py, contracts/rebuild.py and the records of recovery/runtime.py.
use fabric_data_framework.Prelude.{
  ℕ, Bool, true, false, not, Option, none, some, [], ◌∷◌, ◌&&◌, ◌||◌, if◌then◌else◌, ltb, leb, ◌==◌,
  nat_eq, list_eq, Text, text, length, all, Result, ok, raise, ◌>>◌, raise_if,
}
use fabric_data_framework.Prelude.Dict.{Dict, get}
use fabric_data_framework.Time.{DateTime, naive, aware}
use fabric_data_framework.TargetOperation.Contract.{UnknownOutcomeResolution}
use fabric_data_framework.Planner.Config.{DatasetStatus}

pub data RunMode : Type 0 where
  normal retry backfill replay full_rebuild : RunMode

pub data ReprocessRequestStatus : Type 0 where
  pending running succeeded failed cancelled : ReprocessRequestStatus

pub data RebuildScope : Type 0 where
  target_only capture_and_target authoritative_reset : RebuildScope

-- What an entry of `range_json` is asked.
pub record JsonValue (J : Type 0) : Type 0 where
  pub truthy : J → Bool
  pub is_true : J → Bool
  pub as_scope : J → Option RebuildScope

pub record ReprocessRequest (J : Type 0) : Type 0 where
  pub reprocess_request_id : ℕ
  pub dataset_id : Text
  pub run_mode : RunMode
  pub reason : Text
  pub requested_by : Text
  pub original_pipeline_run_id : Option ℕ
  pub original_dataset_run_id : Option ℕ
  pub range_json : Option (Dict Text J)
  pub status : ReprocessRequestStatus
  pub created_at : DateTime
  pub updated_at : Option DateTime

-- `created_at` of a lineage and `started_at` of an audit are readings of the clock that nothing
-- reads again; they are left out.
pub record DatasetAttemptLineage : Type 0 where
  pub dataset_run_id : ℕ
  pub dataset_id : Text
  pub root_dataset_run_id : ℕ
  pub previous_dataset_run_id : Option ℕ
  pub attempt : ℕ
  pub run_mode : RunMode
  pub reprocess_request_id : Option ℕ

pub record DatasetRunAudit : Type 0 where
  pub dataset_run_id : ℕ
  pub pipeline_run_id : ℕ
  pub dataset_id : Text
  pub attempt : ℕ
  pub run_mode : RunMode
  pub status : DatasetStatus
  pub effective_config_hash : Text
  pub error_code : Option Text
  pub error_message : Option Text
  pub retryable : Option Bool

pub record AttemptContext : Type 0 where
  pub pipeline_run_id : ℕ
  pub dataset_run_id : ℕ
  pub dataset_id : Text
  pub root_dataset_run_id : ℕ
  pub previous_dataset_run_id : Option ℕ
  pub attempt : ℕ
  pub run_mode : RunMode
  pub reprocess_request_id : Option ℕ

pub record RecoveryRunResult (T : Type 0) : Type 0 where
  pub value : Option T
  pub dataset_run_id : ℕ
  pub root_dataset_run_id : ℕ
  pub attempts : ℕ
  pub resolved_unknown_outcome : Option UnknownOutcomeResolution

pub data FailureDisposition : Type 0 where
  retryable non_retryable unknown_outcome : FailureDisposition

pub record FailureClassification : Type 0 where
  pub disposition : FailureDisposition
  pub error_code : Text
  pub message : Text

pub data ExceptionKind : Type 0 where
  retryable_execution_error permanent_execution_error unknown_commit_outcome_error other_exception :
      ExceptionKind

-- An exception: its class among those that the runtime tells apart, `error_code` where it has one,
-- its text and the name of its class.
pub record PyException : Type 0 where
  pub kind : ExceptionKind
  pub error_code : Text
  pub message : Text
  pub class_name : Text

pub data RequestError : Type 0 where
  value_error type_error : RequestError

abbrev pub run_mode_code : RunMode → ℕ
run_mode_code normal = 0
run_mode_code retry = 1
run_mode_code backfill = 2
run_mode_code replay = 3
run_mode_code full_rebuild = 4

abbrev pub same_mode : RunMode → RunMode → Bool
same_mode a b = run_mode_code a == run_mode_code b

abbrev is_none {ℓ} : {A : Type ℓ} → Option A → Bool
is_none none = true
is_none (some a) = false

module _ {J : Type 0} (json : JsonValue J) where
  -- `self.range_json or {}`
  abbrev payload_of : Option (Dict Text J) → Dict Text J
  payload_of none = []
  payload_of (some d) = d

  abbrev has_entry : Text → Dict Text J → Bool
  has_entry k d = not (is_none (get k d))

  abbrev has_quarantine_ids : Dict Text J → Bool
  has_quarantine_ids d = elim (get (text "quarantine_ids") d) [
    | none ↦ false
    | some ids ↦ json.truthy ids
  ]

  abbrev only_spec_fields : Dict Text J → Bool
  only_spec_fields [] = true
  only_spec_fields ((k, v) ∷ rest) =
      (k == text "rebuild_scope" || k == text "authoritative_reset") && only_spec_fields rest

  -- Whether `FullRebuildRequestSpec` takes the payload: both fields, and no other.
  unfoldable pub spec_valid : Dict Text J → Bool
  spec_valid d =
      elim (get (text "rebuild_scope") d) [
        | none ↦ false
        | some scope ↦ not (is_none (json.as_scope scope))
      ]
      && elim (get (text "authoritative_reset") d) [
        | none ↦ false
        | some reset ↦ json.is_true reset
      ]
      && only_spec_fields d

  -- The tests of the request's own run mode.
  unfoldable pub mode_valid : ReprocessRequest J → Bool
  mode_valid r = elim r.run_mode [
    | normal ↦ false
    | retry ↦ not (is_none r.original_dataset_run_id)
    | backfill ↦
        has_entry (text "lower") (payload_of r.range_json)
        && has_entry (text "upper") (payload_of r.range_json)
    | replay ↦
        not (is_none r.original_dataset_run_id) || has_quarantine_ids (payload_of r.range_json)
    | full_rebuild ↦ spec_valid (payload_of r.range_json)
  ]

  -- `self.updated_at < self.created_at`, which raises where only one carries a time zone
  abbrev check_updated : DateTime → Option DateTime → Result RequestError Unit
  check_updated created none = ok tt
  check_updated (naive c) (some (naive u)) = raise_if (ltb u c) value_error
  check_updated (aware c) (some (aware u)) = raise_if (ltb u c) value_error
  check_updated _ (some _) = raise type_error

  unfoldable pub validate_request : ReprocessRequest J → Result RequestError Unit
  validate_request r =
      raise_if (not (mode_valid r)) value_error >> check_updated r.created_at r.updated_at

abbrev first_attempt_valid : DatasetAttemptLineage → Bool
first_attempt_valid l =
    is_none l.previous_dataset_run_id && l.root_dataset_run_id == l.dataset_run_id

-- The fields' own limits, and `validate_lineage`.
abbrev pub lineage_valid : DatasetAttemptLineage → Bool
lineage_valid l =
    not (l.dataset_id == [])
    && leb 1 l.attempt
    && (if l.attempt == 1 then first_attempt_valid l else not (is_none l.previous_dataset_run_id))

abbrev is_lower_hex : ℕ → Bool
is_lower_hex c = leb 48 c && leb c 57 || leb 97 c && leb c 102

abbrev is_config_hash : Text → Bool
is_config_hash s = length s == 64 && all is_lower_hex s

-- The fields' own limits; the times of an audit are left out.
abbrev pub audit_valid : DatasetRunAudit → Bool
audit_valid a =
    not (a.dataset_id == []) && leb 1 a.attempt && is_config_hash a.effective_config_hash
