-- ===== src/Examples/Watermarks.antt =====
-- capture/watermark.py and the watermark positions of contracts/runtime.py on rows of numbers, of
-- which 0 is None.
use fabric_data_framework.Prelude.{
  ℕ, ◌≡◌, refl, true, false, none, some, List, [], ◌∷◌, All, ltb, nat_eq, list_eq, Text, text, ok,
  raise, if◌then◌else◌, arith,
}
use fabric_data_framework.Prelude.Dict.{get}
use fabric_data_framework.Values.{Row}
use fabric_data_framework.Cdc.Contract.{StateCommitGate}
use fabric_data_framework.Watermark.Position.{
  value_error, type_error, Numbers, Scalar, null, number, same, WatermarkPosition,
  validate_watermark_scalar, validate_tie_breaker, watermark_position, compare_values,
  compare_scalar, compare_tie_breakers, compare_watermark_positions,
}
use fabric_data_framework.Watermark.Capture.{
  WatermarkConfig, WatermarkBatch, row_value, row_values, position_for_row, positioned, insert_item,
  sort_items, validate_before, overlap_lower_bound, select, selected_after, selected, after_of,
  batch_of, plan_watermark_batch,
}
use fabric_data_framework.Watermark.Comparing.{IsWeakOrder}
use fabric_data_framework.Watermark.Planned.{Follows}
use fabric_data_framework.Watermark.Results.{IsCaptured, rows-IsCaptured, replan_is_empty}

abbrev numbers : Numbers ℕ
numbers = record { less = ltb; is_finite = λ n. true }

abbrev read : ℕ → Scalar ℕ
read n = if◌then◌else◌ (ltb n 1) null (number n)

order : IsWeakOrder ltb
order = record { asym = λ a b h. ground arith; cotrans = λ a b c h k. ground arith }

abbrev seq : Text
seq = text "seq"

abbrev id : Text
id = text "id"

abbrev row : ℕ → ℕ → Row ℕ
row s i = (seq, s) ∷ (id, i) ∷ []

abbrev config : WatermarkConfig
config = record { column = seq; tie_breaker = id ∷ []; overlap_window_seconds = 0 }

abbrev at : ℕ → ℕ → WatermarkPosition ℕ
at s i = record { value = number s; tie_breaker = number i ∷ [] }

abbrev rows : List (Row ℕ)
rows = row 5 2 ∷ row 3 9 ∷ row 5 1 ∷ row 4 1 ∷ []

abbrev batch : WatermarkBatch ℕ ℕ
batch = record {
  rows = row 4 1 ∷ row 5 1 ∷ row 5 2 ∷ [];
  before = some (at 3 9);
  after = some (at 5 2);
}

planned : plan_watermark_batch numbers read rows config (some (at 3 9)) ≡ ok batch
unfolding plan_watermark_batch validate_before positioned position_for_row row_value row_values
    watermark_position validate_watermark_scalar validate_tie_breaker sort_items insert_item
    compare_watermark_positions compare_scalar compare_values compare_tie_breakers selected
    selected_after select batch_of after_of get
planned = refl

-- A null watermark is refused.
null_refused : plan_watermark_batch numbers read (row 0 1 ∷ []) config none ≡ raise value_error
unfolding plan_watermark_batch positioned position_for_row row_value get
null_refused = refl

-- An overlap asks for datetimes.
overlap_refused :
    plan_watermark_batch numbers read []
      (record { column = seq; tie_breaker = id ∷ []; overlap_window_seconds = 60 })
      (some (at 3 9))
    ≡ raise type_error
unfolding plan_watermark_batch validate_before positioned sort_items selected selected_after
    overlap_lower_bound
overlap_refused = refl

committed : compare_watermark_positions numbers (at 3 9) (at 3 9) ≡ ok same
unfolding compare_watermark_positions compare_scalar compare_values compare_tie_breakers
    validate_watermark_scalar
committed = refl

rows-IsCaptured_example :
    All (IsCaptured numbers read config (some (at 3 9)) batch) rows
    × Follows numbers read order (some (at 3 9)) (some (at 5 2))
rows-IsCaptured_example =
    rows-IsCaptured numbers read order rows config (some (at 3 9)) batch committed planned

replan_is_empty_example :
    plan_watermark_batch numbers read rows config (some (at 5 2))
    ≡ ok (record { rows = []; before = some (at 5 2); after = some (at 5 2) })
replan_is_empty_example =
    replan_is_empty numbers read order rows config (some (at 3 9)) batch committed refl planned

abbrev shut : StateCommitGate
shut = record {
  target_committed = true;
  reconciliation_required = true;
  reconciliation_passed = false;
  batch_quarantined = false;
}
