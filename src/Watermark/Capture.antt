-- ===== src/Watermark/Capture.antt =====
-- capture/watermark.py, with WatermarkConfig of metadata/config.py. How a value of a row reads as a
-- scalar is a parameter. `sort` raises where two positions cannot be compared: a sort that ends has
-- compared each pair of neighbours, so that whether one raises does not depend on the algorithm, and
-- all stable sorts give the same list.
use fabric_data_framework.Prelude.{
  ℕ, ◌-◌, ◌*◌, Bool, true, false, ◌&&◌, not, Option, none, some, List, [], ◌∷◌, map, if◌then◌else◌,
  ◌==◌, ltb, leb, nat_eq, list_eq, Text, length, unique, elem, Result, ok, raise, ◌>>=◌, ◌>>◌,
  raise_if,
}
use fabric_data_framework.Prelude.Dict.{get}
use fabric_data_framework.Time.{instant}
use fabric_data_framework.Values.{Row}
use fabric_data_framework.Watermark.Position.{
  WatermarkError, value_error, type_error, key_error, overflow_error, Numbers, Scalar, null, moment,
  WatermarkPosition, watermark_position, below, same, above, is_above, compare_watermark_positions,
}

pub record WatermarkConfig : Type 0 where
  pub column : Text
  pub tie_breaker : List Text
  pub overlap_window_seconds : ℕ

-- `validate_tie_breaker` of WatermarkConfig
unfoldable pub config_valid : WatermarkConfig → Bool
config_valid config = unique config.tie_breaker && not (elem config.column config.tie_breaker)

pub record WatermarkBatch (V N : Type 0) : Type 0 where
  pub rows : List (Row V)
  pub before : Option (WatermarkPosition N)
  pub after : Option (WatermarkPosition N)

abbrev pub is_null : {N : Type 0} → Scalar N → Bool
is_null null = true
is_null v = false

module _ {V N : Type 0} (py : Numbers N) (read : V → Scalar N) where
  abbrev pub Item : Type 0
  Item = Row V × WatermarkPosition N

  unfoldable pub row_value : Text → Row V → Result WatermarkError (Scalar N)
  row_value column row = elim (get column row) [ none ↦ raise key_error | some v ↦ ok (read v) ]

  unfoldable pub row_values : List Text → Row V → Result WatermarkError (List (Scalar N))
  unfolding row_value
  row_values [] row = ok []
  row_values (column ∷ columns) row = do
    v ← row_value column row
    vs ← row_values columns row
    ok (v ∷ vs)

  abbrev pub any_null : List (Scalar N) → Bool
  any_null [] = false
  any_null (v ∷ vs) = if is_null v then true else any_null vs

  unfoldable pub position_for_row :
      WatermarkConfig → Row V → Result WatermarkError (WatermarkPosition N)
  unfolding row_value row_values watermark_position
  position_for_row config row = do
    value ← row_value config.column row
    raise_if (is_null value) value_error
    tie_breaker ← row_values config.tie_breaker row
    raise_if (any_null tie_breaker) value_error
    watermark_position py value tie_breaker

  unfoldable pub positioned : WatermarkConfig → List (Row V) → Result WatermarkError (List Item)
  unfolding position_for_row
  positioned config [] = ok []
  positioned config (row ∷ rows) = do
    p ← position_for_row config row
    items ← positioned config rows
    ok ((row, p) ∷ items)

  unfoldable pub insert_item : Item → List Item → Result WatermarkError (List Item)
  unfolding compare_watermark_positions
  insert_item item [] = ok (item ∷ [])
  insert_item item (first ∷ items) = do
    order ← compare_watermark_positions py item.1 first.1
    elim order [
      | above ↦ do rest ← insert_item item items; ok (first ∷ rest)
      | below ↦ ok (item ∷ first ∷ items)
      | same ↦ ok (item ∷ first ∷ items)
    ]

  unfoldable pub sort_items : List Item → Result WatermarkError (List Item)
  unfolding insert_item
  sort_items [] = ok []
  sort_items (item ∷ items) = do sorted ← sort_items items; insert_item item sorted

  abbrev pub bound_of : Scalar N → ℕ → Result WatermarkError ℕ
  bound_of (moment t) window =
      if ltb (instant t) window then raise overflow_error else ok (instant t - window)
  bound_of value window = raise type_error

  unfoldable pub overlap_lower_bound :
      WatermarkPosition N → WatermarkConfig → Result WatermarkError ℕ
  overlap_lower_bound before config =
      bound_of before.value (config.overlap_window_seconds * 1000000)

  unfoldable pub validate_before :
      WatermarkPosition N → WatermarkConfig → Result WatermarkError (Unit {0})
  validate_before before config =
      raise_if (not (length before.tie_breaker == length config.tie_breaker)) value_error

  abbrev pub in_overlap : ℕ → Scalar N → Result WatermarkError Bool
  in_overlap lower_bound (moment t) = ok (leb lower_bound (instant t))
  in_overlap lower_bound value = raise type_error

  -- The items whose test says True.
  unfoldable pub select :
      (Item → Result WatermarkError Bool) → List Item → Result WatermarkError (List Item)
  select test [] = ok []
  select test (item ∷ items) = do
    chosen ← test item
    rest ← select test items
    ok (if chosen then item ∷ rest else rest)

  abbrev pub is_after : WatermarkPosition N → Item → Result WatermarkError Bool
  is_after before item = do
    order ← compare_watermark_positions py item.1 before
    ok (is_above py order)

  unfoldable pub selected_after :
      WatermarkConfig → WatermarkPosition N → List Item → Result WatermarkError (List Item)
  unfolding overlap_lower_bound select compare_watermark_positions
  selected_after config before items =
      if ltb 0 config.overlap_window_seconds
      then (do
        lower_bound ← overlap_lower_bound before config
        select (λ item. in_overlap lower_bound item.1.value) items)
      else select (is_after before) items

  unfoldable pub selected :
      WatermarkConfig → Option (WatermarkPosition N) → List Item → Result WatermarkError (List Item)
  unfolding selected_after
  selected config none items = ok items
  selected config (some before) items = selected_after config before items

  abbrev pub check_before :
      WatermarkConfig → Option (WatermarkPosition N) → Result WatermarkError (Unit {0})
  check_before config none = ok tt
  check_before config (some before) = validate_before before config

  -- `selected[-1][1]`
  abbrev pub last_position : WatermarkPosition N → List Item → WatermarkPosition N
  last_position p [] = p
  last_position p (item ∷ items) = last_position item.1 items

  unfoldable pub after_of :
      Option (WatermarkPosition N)
      → WatermarkPosition N
      → Result WatermarkError (WatermarkPosition N)
  unfolding compare_watermark_positions
  after_of none candidate_after = ok candidate_after
  after_of (some before) candidate_after = do
    order ← compare_watermark_positions py candidate_after before
    ok (if is_above py order then candidate_after else before)

  unfoldable pub batch_of :
      Option (WatermarkPosition N) → List Item → Result WatermarkError (WatermarkBatch V N)
  unfolding after_of
  batch_of before [] = ok (record { rows = []; before = before; after = before })
  batch_of before (item ∷ items) = do
    after ← after_of before (last_position item.1 items)
    ok (record { rows = map (λ i. i.0) (item ∷ items); before = before; after = some after })

  unfoldable pub plan_watermark_batch :
      List (Row V)
      → WatermarkConfig
      → Option (WatermarkPosition N)
      → Result WatermarkError (WatermarkBatch V N)
  unfolding validate_before positioned sort_items selected batch_of
  plan_watermark_batch rows config before = do
    check_before config before
    items ← positioned config rows
    sorted ← sort_items items
    chosen ← selected config before sorted
    batch_of before chosen
