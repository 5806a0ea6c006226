-- ===== src/CurrentState/Apply.antt =====
-- apply/current_state.py: the newest incoming row of each key, merged over the target's row where
-- the source order allows it.
use fabric_data_framework.Prelude.{
  ℕ, ◌+◌, Bool, true, false, ◌&&◌, not, none, some, List, [], ◌∷◌, map, if◌then◌else◌, PyEq, ◌==◌,
  list_eq, nat_eq, Text, unique, Result, ok, raise, ◌>>=◌, ◌>>◌, raise_if,
}
use fabric_data_framework.Prelude.Dict.{Dict, get, put, update}
use fabric_data_framework.Prelude.Sort.{sort_by}
use fabric_data_framework.Values.{PyValue, Row, values, has_null, value_eq, strip_columns}
use fabric_data_framework.Temporal.{
  SourceOrderRelation, stale, equal, newer, TemporalOrderingError, is_empty, compare_source_order,
}

pub data ApplyError : Type 0 where
  value_error ordering_error conflict_error : ApplyError

pub data StaleRecordAction : Type 0 where
  ignore error : StaleRecordAction

pub record CurrentStateApplyPolicy : Type 0 where
  pub allow_unordered_updates : Bool
  pub stale_record_action : StaleRecordAction

abbrev pub default_policy : CurrentStateApplyPolicy
default_policy = record { allow_unordered_updates = false; stale_record_action = ignore }

abbrev pub Keyed : Type 0 → Type 0
Keyed V = Dict (List V) (Row V)

pub record CurrentStateApplyResult (V : Type 0) : Type 0 where
  pub rows : List (Row V)
  pub inserted : ℕ
  pub updated : ℕ
  pub stale_ignored : ℕ
  pub duplicate_ignored : ℕ
  pub incoming_superseded : ℕ

-- The incoming rows by key, and the counters of `_select_latest_incoming`.
pub record Selection (V : Type 0) : Type 0 where
  pub selected : Keyed V
  pub duplicates : ℕ
  pub superseded : ℕ

-- The variables of the loop that applies the selected rows.
pub record Progress (V : Type 0) : Type 0 where
  pub rows_by_key : Keyed V
  pub inserted : ℕ
  pub updated : ℕ
  pub stale_ignored : ℕ
  pub duplicate_ignored : ℕ

module _ {V : Type 0} (py : PyValue V) where
  instance abbrev key_eq : PyEq (List V)
  key_eq = list_eq ⦃e = py.eq⦄

  unfoldable pub row_key : List Text → Row V → Result ApplyError (List V)
  unfolding values has_null
  row_key columns row =
      let key = values py columns row in if has_null py key then raise value_error else ok key

  -- The position of a row, where there are ordering columns.
  unfoldable pub position : List Text → Row V → Result ApplyError (List V)
  unfolding values has_null
  position columns row =
      let p = values py columns row in if has_null py p then raise ordering_error else ok p

  -- `_canonical_payload`: the items, sorted by column.
  unfoldable pub canonical_payload : Row V → Row V
  canonical_payload row = sort_by (λ item. item.0) row

  abbrev pub items_beq : Row V → Row V → Bool
  items_beq [] [] = true
  items_beq ((c, v) ∷ r) ((d, w) ∷ s) = c == d && ◌==◌ ⦃e = py.eq⦄ v w && items_beq r s
  items_beq _ _ = false

  unfoldable pub same_payload : Row V → Row V → Bool
  unfolding canonical_payload
  same_payload a b = items_beq (canonical_payload a) (canonical_payload b)

  abbrev ordered :
      Result TemporalOrderingError SourceOrderRelation → Result ApplyError SourceOrderRelation
  ordered (ok relation) = ok relation
  ordered (raise e) = raise ordering_error

  unfoldable pub compare_positions : List V → List V → Result ApplyError SourceOrderRelation
  compare_positions left right = ordered (compare_source_order py left right)

  -- The relation of the positions of two rows.
  unfoldable pub row_order : List Text → Row V → Row V → Result ApplyError SourceOrderRelation
  unfolding position compare_positions
  row_order columns candidate current = do
    candidate_position ← position columns candidate
    current_position ← position columns current
    compare_positions candidate_position current_position

  abbrev pub superseding : List V → Row V → Selection V → Selection V
  superseding key candidate s = record s {
    selected = put ⦃e = key_eq⦄ key candidate s.selected;
    superseded = s.superseded + 1;
  }

  -- What a later incoming row of a key does, by its order after the row that is selected.
  unfoldable pub select_ordered :
      List V → Row V → Row V → Selection V → SourceOrderRelation → Result ApplyError (Selection V)
  unfolding same_payload
  select_ordered key candidate current s newer = ok (superseding key candidate s)
  select_ordered key candidate current s stale = ok (record s { superseded = s.superseded + 1 })
  select_ordered key candidate current s equal =
      if same_payload candidate current
      then ok (record s { duplicates = s.duplicates + 1 })
      else raise conflict_error

  unfoldable pub select_one :
      List Text → List Text → Row V → Selection V → Result ApplyError (Selection V)
  unfolding row_key position same_payload row_order select_ordered
  select_one merge_key ordering_columns candidate s = do
    key ← row_key merge_key candidate
    elim (get ⦃e = key_eq⦄ key s.selected) [
      | none ↦ do
        if is_empty ordering_columns then ok [] else position ordering_columns candidate
        ok (record s { selected = put ⦃e = key_eq⦄ key candidate s.selected })
      | some current ↦
          if is_empty ordering_columns
          then (if not (same_payload candidate current)
              then raise ordering_error
              else ok (record s { duplicates = s.duplicates + 1 }))
          else (do
            relation ← row_order ordering_columns candidate current
            select_ordered key candidate current s relation)
    ]

  unfoldable pub select_latest_incoming :
      List Text → List Text → List (Row V) → Selection V → Result ApplyError (Selection V)
  unfolding select_one
  select_latest_incoming merge_key ordering_columns [] s = ok s
  select_latest_incoming merge_key ordering_columns (row ∷ incoming) s = do
    s' ← select_one merge_key ordering_columns row s
    select_latest_incoming merge_key ordering_columns incoming s'

  -- The target's rows by key, all of them with a position where there are ordering columns.
  unfoldable pub index_existing :
      List Text → List Text → List (Row V) → Keyed V → Result ApplyError (Keyed V)
  unfolding row_key position
  index_existing merge_key ordering_columns [] rows = ok rows
  index_existing merge_key ordering_columns (row ∷ existing) rows = do
    key ← row_key merge_key row
    elim (get ⦃e = key_eq⦄ key rows) [ some other ↦ raise value_error | none ↦ ok tt ]
    if is_empty ordering_columns then ok [] else position ordering_columns row
    index_existing merge_key ordering_columns existing (put ⦃e = key_eq⦄ key row rows)

  abbrev pub merged : List V → Row V → Row V → Progress V → Progress V
  merged key candidate current p = record p {
    rows_by_key = put ⦃e = key_eq⦄ key (update current candidate) p.rows_by_key;
    updated = p.updated + 1;
  }

  -- What a selected row does to a changed target row, by its order after that row.
  unfoldable pub apply_ordered :
      CurrentStateApplyPolicy
      → List V
      → Row V
      → Row V
      → Progress V
      → SourceOrderRelation
      → Result ApplyError (Progress V)
  apply_ordered policy key candidate current p stale = elim policy.stale_record_action [
    | error ↦ raise ordering_error
    | ignore ↦ ok (record p { stale_ignored = p.stale_ignored + 1 })
  ]
  apply_ordered policy key candidate current p equal = raise conflict_error
  apply_ordered policy key candidate current p newer = ok (merged key candidate current p)

  unfoldable pub apply_one :
      List Text
      → CurrentStateApplyPolicy
      → List V
      → Row V
      → Progress V
      → Result ApplyError (Progress V)
  unfolding same_payload row_order apply_ordered
  apply_one ordering_columns policy key candidate p = elim (get ⦃e = key_eq⦄ key p.rows_by_key) [
    | none ↦ ok (record p {
      rows_by_key = put ⦃e = key_eq⦄ key candidate p.rows_by_key;
      inserted = p.inserted + 1;
    })
    | some current ↦
        if same_payload candidate current
        then ok (record p { duplicate_ignored = p.duplicate_ignored + 1 })
        else if is_empty ordering_columns
        then (if not policy.allow_unordered_updates
            then raise ordering_error
            else ok (merged key candidate current p))
        else (do
          relation ← row_order ordering_columns candidate current
          apply_ordered policy key candidate current p relation)
  ]

  unfoldable pub apply_selected :
      List Text
      → CurrentStateApplyPolicy
      → List (List V × Row V)
      → Progress V
      → Result ApplyError (Progress V)
  unfolding apply_one
  apply_selected ordering_columns policy [] p = ok p
  apply_selected ordering_columns policy ((key, candidate) ∷ selected) p = do
    p' ← apply_one ordering_columns policy key candidate p
    apply_selected ordering_columns policy selected p'

  -- The rows of a dict in the order of `sorted(…, key=repr)` of their keys.
  unfoldable pub by_repr : Keyed V → List (List V × Row V)
  by_repr rows = sort_by (λ entry. py.repr entry.0) rows

  unfoldable pub apply_ordered_current_state :
      List (Row V)
      → List (Row V)
      → List Text
      → List Text
      → CurrentStateApplyPolicy
      → Result ApplyError (CurrentStateApplyResult V)
  unfolding index_existing select_latest_incoming apply_selected by_repr
  apply_ordered_current_state existing_rows incoming_rows merge_key ordering_columns policy = do
    raise_if (is_empty merge_key) value_error
    raise_if (not (unique merge_key)) value_error
    raise_if (not (unique ordering_columns)) value_error
    rows ← index_existing merge_key ordering_columns existing_rows []
    s ←
        select_latest_incoming merge_key ordering_columns incoming_rows
          (record { selected = []; duplicates = 0; superseded = 0 })
    p ← apply_selected ordering_columns policy (by_repr s.selected) (record {
      rows_by_key = rows;
      inserted = 0;
      updated = 0;
      stale_ignored = 0;
      duplicate_ignored = s.duplicates;
    })
    ok (record {
      rows = map (λ entry. strip_columns py entry.1) (by_repr p.rows_by_key);
      inserted = p.inserted;
      updated = p.updated;
      stale_ignored = p.stale_ignored;
      duplicate_ignored = p.duplicate_ignored;
      incoming_superseded = s.superseded;
    })
