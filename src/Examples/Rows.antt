-- ===== src/Examples/Rows.antt =====
-- apply/current_state.py, apply/scd1.py and apply/upsert.py on rows whose values are numbers, 0
-- standing for None.
use fabric_data_framework.Prelude.{
  ℕ, ◌≡◌, refl, none, some, [], ◌∷◌, ltb, nat_eq, list_eq, Text, text, ok, raise,
}
use fabric_data_framework.Prelude.Dict.{get, put, update}
use fabric_data_framework.Prelude.Sort.{insert_with, sort_with}
use fabric_data_framework.Prelude.Order.{lex_lt}
use fabric_data_framework.Examples.Texts.{strip_spaces}
use fabric_data_framework.Values.{
  strip_columns, PyValue, Row, get_value, values, has_null, tuple_lt,
}
use fabric_data_framework.Temporal.{compare_source_order}
use fabric_data_framework.CurrentState.Apply.{
  conflict_error, ordering_error, default_policy, CurrentStateApplyResult, Progress, row_key,
  position, canonical_payload, same_payload, compare_positions, row_order, select_ordered,
  select_one, select_latest_incoming, index_existing, apply_ordered, apply_one, apply_selected,
  by_repr, apply_ordered_current_state,
}
use fabric_data_framework.CurrentState.Wrappers.{apply_scd1, apply_upsert}
use fabric_data_framework.CurrentState.Rerun.{reapply_merged}

abbrev numbers : PyValue ℕ
numbers = record {
  eq = nat_eq;
  null = 0;
  less = λ a b. some (ltb a b);
  repr = λ vs. vs;
  strip = strip_spaces;
}

abbrev id : Text
id = text "id"

abbrev seq : Text
seq = text "seq"

abbrev note : Text
note = text "note"

abbrev old_row : Row ℕ
old_row = (id, 1) ∷ (seq, 1) ∷ (note, 8) ∷ []

abbrev new_row : Row ℕ
new_row = (id, 1) ∷ (seq, 2) ∷ []

abbrev merged_row : Row ℕ
merged_row = (id, 1) ∷ (seq, 2) ∷ (note, 8) ∷ []

abbrev result : CurrentStateApplyResult ℕ
result = record {
  rows = merged_row ∷ [];
  inserted = 0;
  updated = 1;
  stale_ignored = 0;
  duplicate_ignored = 0;
  incoming_superseded = 0;
}

scd1_result : apply_scd1 numbers (old_row ∷ []) (new_row ∷ []) (id ∷ []) (seq ∷ []) none ≡ ok result
unfolding apply_scd1 apply_ordered_current_state strip_columns index_existing select_latest_incoming
    select_one select_ordered row_key position values get_value has_null get put canonical_payload
    same_payload compare_positions row_order compare_source_order tuple_lt apply_ordered apply_one
    apply_selected by_repr update insert_with sort_with lex_lt
scd1_result = refl

-- Two different rows of one key cannot be ordered without ordering columns.
upsert_unordered :
    apply_upsert numbers [] (old_row ∷ new_row ∷ []) (id ∷ []) [] none ≡ raise ordering_error
unfolding apply_upsert apply_ordered_current_state strip_columns index_existing
    select_latest_incoming select_one row_key values get_value has_null get put canonical_payload
    same_payload insert_with sort_with lex_lt
upsert_unordered = refl

abbrev holding : Row ℕ → ℕ → Progress ℕ
holding row updates = record {
  rows_by_key = (1 ∷ [], row) ∷ [];
  inserted = 0;
  updated = updates;
  stale_ignored = 0;
  duplicate_ignored = 0;
}

-- The target-only field is kept, so that the second run conflicts with what the first one wrote.
reapply_merged_example :
    apply_one numbers (seq ∷ []) default_policy (1 ∷ []) new_row (holding merged_row 1)
    ≡ raise conflict_error
unfolding position values get_value has_null get put canonical_payload same_payload
    compare_positions row_order compare_source_order tuple_lt apply_ordered apply_one update
    insert_with sort_with lex_lt
reapply_merged_example =
    reapply_merged numbers (seq ∷ []) default_policy (1 ∷ []) new_row old_row (holding old_row 0)
      (holding merged_row 1) (refl, (refl, tt)) refl refl refl refl refl
