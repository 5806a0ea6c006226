-- ===== src/Cutover/Contract.antt =====
-- contracts/target_version.py, with the errors of recovery/target_cutover.py.
use fabric_data_framework.Prelude.{
  ℕ, Bool, ◌&&◌, not, Option, List, [], ◌∷◌, ◌==◌, nat_eq, list_eq, Text, Result,
}
use fabric_data_framework.Time.{DateTime, is_aware}

pub record TargetVersionSpec : Type 0 where
  pub dataset_id : Text
  pub layer : Text
  pub logical_object : Text
  pub physical_object : Text
  pub version : Text

-- The field constraints and `validate_distinct_physical_target`.
unfoldable pub spec_valid : TargetVersionSpec → Bool
spec_valid s =
    not (s.dataset_id == [])
    && not (s.layer == [])
    && not (s.logical_object == [])
    && not (s.physical_object == [])
    && not (s.version == [])
    && not (s.logical_object == s.physical_object)

pub record TargetCutoverGate : Type 0 where
  pub candidate_built : Bool
  pub reconciliation_passed : Bool
  pub consumer_validation_passed : Bool
  pub validation_reference : Text
  pub approval_reference : Text

unfoldable pub can_promote : TargetCutoverGate → Bool
can_promote g = g.candidate_built && g.reconciliation_passed && g.consumer_validation_passed

pub record TargetCutoverRequest : Type 0 where
  pub cutover_request_id : ℕ
  pub dataset_id : Text
  pub environment : Text
  pub logical_object : Text
  pub from_version : Text
  pub to_version : Text
  pub requested_by : Text
  pub reason : Text
  pub approval_reference : Text
  pub created_at : DateTime

-- `validate_version_change`
unfoldable pub request_valid : TargetCutoverRequest → Bool
request_valid q = not (q.from_version == q.to_version) && is_aware q.created_at

pub record TargetActiveVersionSnapshot : Type 0 where
  pub dataset_id : Text
  pub environment : Text
  pub logical_object : Text
  pub version : Text
  pub physical_object : Text
  pub generation : ℕ
  pub last_cutover_request_id : Option ℕ

pub record TargetCutoverResult : Type 0 where
  pub request_id : ℕ
  pub before : TargetActiveVersionSnapshot
  pub after : TargetActiveVersionSnapshot
  pub candidate : TargetVersionSpec
  pub already_promoted : Bool

pub data CutoverError : Type 0 where
  gate_error conflict : CutoverError

-- (dataset_id, environment, logical_object)
abbrev pub Key : Type 0
Key = List Text

unfoldable pub key_of : Text → Text → Text → Key
key_of dataset_id environment logical_object = dataset_id ∷ environment ∷ logical_object ∷ []

unfoldable pub request_key : TargetCutoverRequest → Key
unfolding key_of
request_key q = key_of q.dataset_id q.environment q.logical_object

-- The protocol `TargetCutoverAdapter`, over the state of the environment.
pub record TargetCutoverAdapter (S : Type 0) : Type 0 where
  pub read_active : Key → S → Result CutoverError TargetActiveVersionSnapshot
  pub promote :
      ℕ
      → TargetCutoverRequest
      → TargetVersionSpec
      → S
      → Result CutoverError TargetActiveVersionSnapshot × S
