-- ===== src/CdcApply/Rows.antt =====
-- The rows and keys of apply/cdc.py, and the order of an event after a row. `CdcValues` says how
-- partitions, integers and positions stand among the values of a row.
use fabric_data_framework.Prelude.{
  ℕ, Bool, true, false, ◌&&◌, not, Option, none, some, List, [], ◌∷◌, map, if◌then◌else◌, PyEq,
  ◌==◌, list_eq, nat_eq, option_eq, Text, text, elem, keep, all, Result, ok, raise, ◌>>=◌,
}
use fabric_data_framework.Prelude.Dict.{get, put, update}
use fabric_data_framework.Values.{PyValue, Row, get_value, values, has_null, value_eq}
use fabric_data_framework.Temporal.{
  SourceOrderRelation, newer, TemporalOrderingError, compare_source_order,
}
use fabric_data_framework.Cdc.Contract.{CdcCheckpoint, CdcEvent, CdcNormalizedBatch, position_for}

pub data CdcApplyError : Type 0 where
  value_error apply_error ordering_error delete_rejected assertion_error : CdcApplyError

-- `int_tuple` gives the elements of a tuple or a list of integers, and nothing for other values.
pub record CdcValues (V : Type 0) : Type 0 where
  pub partition_value : Text → V
  pub int_value : ℕ → V
  pub position_value : List ℕ → V
  pub int_tuple : V → Option (List V)

abbrev pub cdc_partition : Text
cdc_partition = text "_framework_cdc_partition"

abbrev pub cdc_position : Text
cdc_position = text "_framework_cdc_position"

abbrev cdc_columns : List Text
cdc_columns = cdc_partition ∷ cdc_position ∷ []

abbrev in_order :
    Result TemporalOrderingError SourceOrderRelation → Result CdcApplyError SourceOrderRelation
in_order (ok relation) = ok relation
in_order (raise e) = raise ordering_error

abbrev only_newer : SourceOrderRelation → Result CdcApplyError SourceOrderRelation
only_newer newer = ok newer
only_newer _ = raise ordering_error

module _ {V : Type 0} (py : PyValue V) (cdc : CdcValues V) where
  instance abbrev key_eq : PyEq (List V)
  key_eq = list_eq ⦃e = py.eq⦄

  -- `_row_key`
  unfoldable pub target_key : List Text → Row V → Result CdcApplyError (List V)
  target_key merge_key row =
      let key = values py merge_key row in if has_null py key then raise apply_error else ok key

  abbrev pub has_column : Row V → Text → Bool
  has_column row column = elim (get column row) [ none ↦ false | some v ↦ true ]

  -- `_event_key`
  unfoldable pub event_key : List Text → Row V → Result CdcApplyError (List V)
  event_key merge_key key =
      if not (all (has_column key) merge_key)
      then raise apply_error
      else if has_null py (values py merge_key key)
      then raise apply_error
      else ok (values py merge_key key)

  -- `_payload_without_cdc_metadata`
  unfoldable pub payload_without_cdc_metadata : Row V → Row V
  payload_without_cdc_metadata row = keep (λ item. not (elem item.0 cdc_columns)) row

  unfoldable pub order_by_checkpoint :
      CdcNormalizedBatch V → CdcEvent V → Result CdcApplyError SourceOrderRelation
  order_by_checkpoint batch event = elim (lower_position batch.lower_checkpoint) [
    | none ↦ raise ordering_error
    | some lower ↦
        in_order (
          compare_source_order py (map (λ n. cdc.int_value n) event.position.values)
            (map (λ n. cdc.int_value n) lower))
        >>= only_newer
  ]
    where
      lower_position : Option CdcCheckpoint → Option (List ℕ)
      lower_position none = none
      lower_position (some lower) = position_for event.position.partition lower

  unfoldable pub order_by_row : V → V → CdcEvent V → Result CdcApplyError SourceOrderRelation
  order_by_row current_partition current_position event =
      if not (◌==◌ ⦃e = py.eq⦄ current_partition (cdc.partition_value event.position.partition))
      then raise ordering_error
      else elim (cdc.int_tuple current_position) [
        | none ↦ raise ordering_error
        | some target_position ↦ in_order (
            compare_source_order py (map (λ n. cdc.int_value n) event.position.values)
              target_position)
      ]

  -- `_assert_event_newer_than_target`
  unfoldable pub assert_event_newer_than_target :
      Row V → CdcNormalizedBatch V → CdcEvent V → Result CdcApplyError SourceOrderRelation
  assert_event_newer_than_target current batch event =
      let current_partition = get_value py cdc_partition current in
      let current_position = get_value py cdc_position current in
      let no_partition = ◌==◌ ⦃e = py.eq⦄ current_partition py.null in
      let no_position = ◌==◌ ⦃e = py.eq⦄ current_position py.null in
      if no_partition && no_position
      then order_by_checkpoint batch event
      else if no_partition
      then raise ordering_error
      else if no_position
      then raise ordering_error
      else order_by_row current_partition current_position event

  -- `for column, value in zip(merge_key, key): candidate[column] = value`
  unfoldable pub set_columns : List Text → List V → Row V → Row V
  set_columns [] key row = row
  set_columns (column ∷ columns) [] row = row
  set_columns (column ∷ columns) (v ∷ key) row = set_columns columns key (put column v row)

  -- The row that an insert or an update writes over `base`.
  unfoldable pub candidate_row : List Text → List V → CdcEvent V → Row V → Row V → Row V
  candidate_row merge_key key event after base =
      put cdc_position (cdc.position_value event.position.values) (
        put cdc_partition (cdc.partition_value event.position.partition)
          (set_columns merge_key key (update base after)))
