-- ===== src/Cdc/Contract.antt =====
-- The records of capture/cdc.py with their validators, and StateCommitGate of contracts/runtime.py.
-- A component of a source position is an integer that is not negative, so a number here.
use fabric_data_framework.Prelude.{
  ℕ, ◌≡◌, refl, ap, ==_iff, arith, Bool, true, false, ◌&&◌, ◌||◌, not, Option, none, some, List, [],
  ◌∷◌, map, if◌then◌else◌, ◌==◌, nat_eq, list_eq, pair_eq, Text, text, unique, any, Result, ok,
  ◌>>◌, raise_if,
}
use fabric_data_framework.Prelude.Dict.{get}
use fabric_data_framework.Prelude.Sort.{sort_by}
use fabric_data_framework.Time.{DateTime, is_aware}
use fabric_data_framework.Values.{PyValue, Row, value_eq}

pub data CdcError : Type 0 where
  contract_error ordering_error conflict_error evidence_error : CdcError

pub data CdcOperation : Type 0 where
  insert update delete : CdcOperation

pub record CdcSourcePosition : Type 0 where
  pub partition : Text
  pub values : List ℕ

pub record CdcCheckpoint : Type 0 where
  pub positions : List CdcSourcePosition

pub record CdcEvent (V : Type 0) : Type 0 where
  pub event_id : Text
  pub operation : CdcOperation
  pub key : Row V
  pub position : CdcSourcePosition
  pub before : Option (Row V)
  pub after : Option (Row V)
  pub event_time : Option DateTime
  pub transaction_id : Option Text
  pub metadata : Row V

pub record CdcNormalizedBatch (V : Type 0) : Type 0 where
  pub events : List (CdcEvent V)
  pub lower_checkpoint : Option CdcCheckpoint
  pub upper_checkpoint : CdcCheckpoint
  pub duplicate_events_ignored : ℕ
  pub already_committed_events_ignored : ℕ

pub record StateCommitGate : Type 0 where
  pub target_committed : Bool
  pub reconciliation_required : Bool
  pub reconciliation_passed : Bool
  pub batch_quarantined : Bool

unfoldable pub can_advance_state : StateCommitGate → Bool
can_advance_state gate =
    gate.target_committed
    && not gate.batch_quarantined
    && (not gate.reconciliation_required || gate.reconciliation_passed)

-- `CDCSourcePosition.validate_values`, with the field's constraint on `partition`
unfoldable pub validate_values : CdcSourcePosition → Result CdcError CdcSourcePosition
validate_values position =
    raise_if (position.partition == []) contract_error
    >> raise_if (position.values == []) contract_error
    >> ok position

abbrev partitions : CdcCheckpoint → List Text
partitions checkpoint = map (λ item. item.partition) checkpoint.positions

-- `CDCCheckpoint.validate_positions`
unfoldable pub validate_positions : CdcCheckpoint → Result CdcError CdcCheckpoint
validate_positions checkpoint =
    raise_if (not (unique (partitions checkpoint))) contract_error
    >> raise_if (not (partitions checkpoint == sort_by (λ p. p) (partitions checkpoint)))
        contract_error
    >> ok checkpoint

unfoldable pub find_position : Text → List CdcSourcePosition → Option (List ℕ)
find_position partition [] = none
find_position partition (item ∷ items) =
    if item.partition == partition then some item.values else find_position partition items

unfoldable pub position_for : Text → CdcCheckpoint → Option (List ℕ)
unfolding find_position
position_for partition checkpoint = find_position partition checkpoint.positions

abbrev pub position_items : List CdcSourcePosition → List (Text × List ℕ)
position_items [] = []
position_items (item ∷ items) = (item.partition, item.values) ∷ position_items items

-- `after == before`
unfoldable pub same_checkpoint : CdcCheckpoint → CdcCheckpoint → Bool
same_checkpoint a b = position_items a.positions == position_items b.positions

position_items_injective :
    (a b : List CdcSourcePosition) → position_items a ≡ position_items b → a ≡ b
position_items_injective [] [] h = refl
position_items_injective [] (y ∷ b) h = ground arith
position_items_injective (x ∷ a) [] h = ground arith
position_items_injective (x ∷ a) (y ∷ b) h =
    let rest : a ≡ b = position_items_injective a b (ground arith) in cc

pub same_checkpoint-eq : (a b : CdcCheckpoint) → same_checkpoint a b ≡ true → a ≡ b
unfolding same_checkpoint
same_checkpoint-eq a b h =
    ap (λ p. record { positions = p })
      (position_items_injective a.positions b.positions ((==_iff _ _).0 h))

abbrev reserved_prefix : Text
reserved_prefix = text "_framework_cdc_"

unfoldable pub starts_with : Text → Text → Bool
starts_with [] name = true
starts_with (p ∷ prefix) [] = false
starts_with (p ∷ prefix) (c ∷ name) = p == c && starts_with prefix name

abbrev is_none : {A : Type 0} → Option A → Bool
is_none none = true
is_none (some a) = false

abbrev is_naive : Option DateTime → Bool
is_naive none = false
is_naive (some t) = not (is_aware t)

abbrev is_delete : CdcOperation → Bool
is_delete delete = true
is_delete _ = false

module _ {V : Type 0} (py : PyValue V) where
  -- A column of the key that the payload has with another value.
  unfoldable pub key_conflict : Row V → Text × V → Bool
  key_conflict payload (name, value) = elim (get name payload) [
    | none ↦ false
    | some found ↦ not (◌==◌ ⦃e = py.eq⦄ found value)
  ]

  unfoldable pub validate_payload : Row V → Option (Row V) → Result CdcError Unit
  unfolding key_conflict
  validate_payload key none = ok tt
  validate_payload key (some payload) =
      raise_if (any (λ item. starts_with reserved_prefix item.0) payload) contract_error
      >> raise_if (any (key_conflict payload) key) contract_error

  -- `CDCEvent.validate_event`, with the field's constraint on `event_id`
  unfoldable pub validate_event : CdcEvent V → Result CdcError (CdcEvent V)
  unfolding validate_payload
  validate_event event =
      raise_if (event.event_id == []) contract_error
      >> raise_if (no_columns event.key) contract_error
      >> raise_if (any (λ item. ◌==◌ ⦃e = py.eq⦄ item.1 py.null) event.key) contract_error
      >> raise_if (is_naive event.event_time) contract_error
      >> raise_if (not (is_delete event.operation) && is_none event.after) contract_error
      >> raise_if (is_delete event.operation && not (is_none event.after)) contract_error
      >> validate_payload event.key event.before
      >> validate_payload event.key event.after
      >> ok event
    where
      no_columns : Row V → Bool
      no_columns [] = true
      no_columns (item ∷ key) = false
