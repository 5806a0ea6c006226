-- ===== src/TargetOperation/Contract.antt =====
-- contracts/target_operation.py, with `UnknownOutcomeResolution` of contracts/recovery.py. A
-- datetime is an instant and whether it carries a time zone. SHA-256 over canonical JSON is a
-- parameter of the functions that use it; the pattern of an operation key, which every such digest
-- has, is left to it.
use fabric_data_framework.Prelude.{
  ℕ, ◌+◌, ◌≡◌, ◌↔◌, Bool, true, false, ◌&&◌, ◌||◌, Option, none, some, List, [], ◌∷◌, map, arith,
  if◌then◌else◌, leb, PyEq, nat_eq, list_eq, ◌==◌, Text, text, length, all, Result, ok, raise,
}
use fabric_data_framework.Time.{DateTime, is_aware, instant}

pub data TargetOperationStatus : Type 0 where
  in_progress succeeded unknown not_committed : TargetOperationStatus

abbrev pub status_beq : TargetOperationStatus → TargetOperationStatus → Bool
status_beq in_progress in_progress = true
status_beq succeeded succeeded = true
status_beq unknown unknown = true
status_beq not_committed not_committed = true
status_beq _ _ = false

pub status_beq_iff : (a b : TargetOperationStatus) → (status_beq a b ≡ true) ↔ (a ≡ b)
status_beq_iff a b = ground arith

instance abbrev pub status_eq : PyEq TargetOperationStatus
status_eq = record { equals = status_beq; equals_iff = status_beq_iff }

pub data TargetOperationAction : Type 0 where
  execute skip_succeeded reconcile_required : TargetOperationAction

pub data UnknownOutcomeResolution : Type 0 where
  committed not_committed unresolved : UnknownOutcomeResolution

pub record TargetOperationIntent : Type 0 where
  pub dataset_id : Text
  pub operation_kind : Text
  pub target_reference : Text
  pub effective_config_hash : Text
  pub input_fingerprint : Text
  pub semantic_version : ℕ

-- `str.lower` on the characters that the pattern of a hash admits
abbrev lower_code : ℕ → ℕ
lower_code c = if leb 65 c && leb c 90 then c + 32 else c

unfoldable pub lower : Text → Text
lower s = map lower_code s

-- `^[0-9a-fA-F]{64}$`
abbrev is_hex : ℕ → Bool
is_hex c = leb 48 c && leb c 57 || leb 65 c && leb c 70 || leb 97 c && leb c 102

abbrev is_hash : Text → Bool
is_hash s = length s == 64 && all is_hex s

-- The object that `operation_key` writes as JSON, its keys sorted.
pub data Json : Type 0 where
  string : Text → Json
  number : ℕ → Json

abbrev pub Canonical : Type 0
Canonical = List (Text × Json)

unfoldable pub canonical : TargetOperationIntent → Canonical
canonical i =
    (text "dataset_id", string i.dataset_id)
    ∷ (text "effective_config_hash", string i.effective_config_hash)
    ∷ (text "input_fingerprint", string i.input_fingerprint)
    ∷ (text "operation_kind", string i.operation_kind)
    ∷ (text "semantic_version", number i.semantic_version)
    ∷ (text "target_reference", string i.target_reference)
    ∷ []

-- `digest` is SHA-256 of the UTF-8 bytes of `json.dumps`.
unfoldable pub operation_key : (digest : Canonical → Text) → TargetOperationIntent → Text
operation_key digest i = digest (canonical i)

unfoldable pub intent_beq : TargetOperationIntent → TargetOperationIntent → Bool
intent_beq a b =
    a.dataset_id == b.dataset_id
    && a.operation_kind == b.operation_kind
    && a.target_reference == b.target_reference
    && a.effective_config_hash == b.effective_config_hash
    && a.input_fingerprint == b.input_fingerprint
    && a.semantic_version == b.semantic_version

pub record TargetOperationRecord : Type 0 where
  pub operation_key : Text
  pub dataset_id : Text
  pub operation_kind : Text
  pub target_reference : Text
  pub effective_config_hash : Text
  pub input_fingerprint : Text
  pub semantic_version : ℕ
  pub status : TargetOperationStatus
  pub owner_dataset_run_id : ℕ
  pub attempt : ℕ
  pub version : ℕ
  pub outcome_reference : Option Text
  pub error_code : Option Text
  pub error_message : Option Text
  pub created_at : DateTime
  pub updated_at : Option DateTime
  pub completed_at : Option DateTime

unfoldable pub intent_of : TargetOperationRecord → TargetOperationIntent
intent_of r = record {
  dataset_id = r.dataset_id;
  operation_kind = r.operation_kind;
  target_reference = r.target_reference;
  effective_config_hash = r.effective_config_hash;
  input_fingerprint = r.input_fingerprint;
  semantic_version = r.semantic_version;
}

abbrev pub between : ℕ → ℕ → Text → Bool
between lo hi s = leb lo (length s) && leb (length s) hi

abbrev pub at_most : ℕ → Option Text → Bool
at_most hi none = true
at_most hi (some s) = leb (length s) hi

-- The constraints on the fields of an intent.
unfoldable pub intent_fields_valid : TargetOperationIntent → Bool
intent_fields_valid i =
    leb 1 (length i.dataset_id)
    && between 1 64 i.operation_kind
    && between 1 1024 i.target_reference
    && is_hash i.effective_config_hash
    && is_hash i.input_fingerprint
    && leb 1 i.semantic_version

-- `require_aware_datetime`, and not before the creation
abbrev pub time_valid : DateTime → Option DateTime → Bool
time_valid created none = true
time_valid created (some t) = is_aware t && leb (instant created) (instant t)

abbrev pub completion_valid : TargetOperationStatus → Option DateTime → Bool
completion_valid in_progress (some t) = false
completion_valid succeeded none = false
completion_valid _ _ = true

-- `validate_record`, with the constraints on the fields that change
unfoldable pub record_valid : (digest : Canonical → Text) → TargetOperationRecord → Bool
unfolding operation_key
record_valid digest r =
    intent_fields_valid (intent_of r)
    && leb 1 r.attempt
    && leb 1 r.version
    && at_most 2048 r.outcome_reference
    && at_most 128 r.error_code
    && r.operation_key == operation_key digest (intent_of r)
    && is_aware r.created_at
    && time_valid r.created_at r.updated_at
    && time_valid r.created_at r.completed_at
    && completion_valid r.status r.completed_at

pub record TargetOperationClaim : Type 0 where
  pub action : TargetOperationAction
  pub operation : TargetOperationRecord

pub record TargetOperationEvent : Type 0 where
  pub operation_key : Text
  pub from_status : Option TargetOperationStatus
  pub to_status : TargetOperationStatus
  pub owner_dataset_run_id : ℕ
  pub attempt : ℕ
  pub version : ℕ
  pub outcome_reference : Option Text
  pub error_code : Option Text
  pub error_message : Option Text
  pub occurred_at : DateTime

-- `_ALLOWED_TRANSITIONS`
abbrev pub allowed : TargetOperationStatus → TargetOperationStatus → Bool
allowed in_progress succeeded = true
allowed in_progress unknown = true
allowed in_progress not_committed = true
allowed unknown succeeded = true
allowed unknown unknown = true
allowed unknown not_committed = true
allowed not_committed in_progress = true
allowed _ _ = false

pub data JournalError : Type 0 where
  value_error key_error validation_error assertion_error : JournalError
  version_conflict semantic_conflict : JournalError

unfoldable pub require_target_operation_transition :
    TargetOperationStatus → TargetOperationStatus → Result JournalError (Unit {0})
require_target_operation_transition before after =
    if allowed before after then ok tt else raise value_error

unfoldable pub resolution_for_target_operation : TargetOperationStatus → UnknownOutcomeResolution
resolution_for_target_operation succeeded = committed
resolution_for_target_operation not_committed = UnknownOutcomeResolution.not_committed
resolution_for_target_operation _ = unresolved
