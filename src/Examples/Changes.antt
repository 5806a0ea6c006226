-- ===== src/Examples/Changes.antt =====
-- apply/cdc.py on a concrete batch of change events over rows whose values are numbers.
use fabric_data_framework.Prelude.{
  ℕ, ◌+◌, ◌≡◌, refl, none, some, List, [], ◌∷◌, ltb, nat_eq, list_eq, Text, text, length, suc,
}
use fabric_data_framework.Prelude.Dict.{get, put, remove, update}
use fabric_data_framework.Prelude.Sort.{insert_with, sort_with}
use fabric_data_framework.Prelude.Order.{lex_lt}
use fabric_data_framework.Examples.Texts.{strip_spaces}
use fabric_data_framework.Values.{
  strip_columns, PyValue, Row, get_value, values, has_null, tuple_lt, same_items,
}
use fabric_data_framework.Temporal.{compare_source_order}
use fabric_data_framework.Cdc.Contract.{
  delete, CdcOperation, CdcCheckpoint, CdcEvent, CdcNormalizedBatch, position_for, find_position,
}
use fabric_data_framework.CdcApply.Rows.{
  CdcValues, cdc_partition, cdc_position, target_key, event_key, payload_without_cdc_metadata,
  order_by_checkpoint, order_by_row, assert_event_newer_than_target, set_columns, candidate_row,
}
use fabric_data_framework.CdcApply.Apply.{
  apply_ordered_event, apply_event, apply_events, index_target, apply_cdc_current_state,
}
use fabric_data_framework.CdcApply.Write.{
  upsert, apply, CdcCurrentStateApplyResult, by_policy, delete_present, insert_after,
  apply_absent_as, apply_absent, write_present, write_after, apply_present,
}
use fabric_data_framework.CdcApply.Counts.{apply_reconciles}

abbrev numbers : PyValue ℕ
numbers = record {
  eq = nat_eq;
  null = 0;
  less = λ a b. some (ltb a b);
  repr = λ vs. vs;
  strip = strip_spaces;
}

abbrev first_of : List ℕ → ℕ
first_of [] = 1
first_of (n ∷ ns) = suc n

-- Every partition is 7, and a position is the successor of its one component.
abbrev numbered : CdcValues ℕ
numbered = record {
  partition_value = λ p. 7;
  int_value = λ n. suc n;
  position_value = first_of;
  int_tuple = λ v. some (v ∷ []);
}

abbrev part : Text
part = text "p"

abbrev id : Text
id = text "id"

abbrev event : ℕ → ℕ → CdcEvent ℕ
event key n = record {
  event_id = n ∷ [];
  operation = CdcOperation.insert;
  key = (id, key) ∷ [];
  position = record { partition = part; values = n ∷ [] };
  before = none;
  after = some ((id, key) ∷ []);
  event_time = none;
  transaction_id = none;
  metadata = [];
}

abbrev deletion : ℕ → ℕ → CdcEvent ℕ
deletion key n = record (event key n) { operation = delete; after = none }

abbrev checkpoint : ℕ → CdcCheckpoint
checkpoint n = record { positions = (record { partition = part; values = n ∷ [] }) ∷ [] }

abbrev batch : CdcNormalizedBatch ℕ
batch = record {
  events = event 2 5 ∷ deletion 1 6 ∷ [];
  lower_checkpoint = some (checkpoint 3);
  upper_checkpoint = checkpoint 9;
  duplicate_events_ignored = 0;
  already_committed_events_ignored = 0;
}

abbrev target : List (Row ℕ)
target = ((id, 1) ∷ []) ∷ []

abbrev result : CdcCurrentStateApplyResult ℕ
result = record {
  rows = ((id, 2) ∷ (cdc_partition, 7) ∷ (cdc_position, 6) ∷ []) ∷ [];
  mutations = record { inserted = 1; updated = 0; deleted = 1 };
  events_applied = 2;
  stale_events_ignored = 0;
  no_change_events = 0;
  missing_delete_events_ignored = 0;
  delete_policy_events_ignored = 0;
}

apply_reconciles_example :
    (2 + 0 + 0 + 0 + 0 ≡ length batch.events)
    × (1 + 0 + 1 ≡ 2)
    × (length result.rows + 1 ≡ length target + 1)
unfolding apply_cdc_current_state strip_columns index_target apply_events apply_event
    apply_ordered_event apply_present write_after write_present apply_absent apply_absent_as
    insert_after delete_present by_policy candidate_row set_columns assert_event_newer_than_target
    order_by_row order_by_checkpoint payload_without_cdc_metadata same_items event_key target_key
    position_for find_position update compare_source_order get_value values has_null tuple_lt get
    put remove insert_with sort_with lex_lt
apply_reconciles_example =
    apply_reconciles numbers numbered target batch (id ∷ []) upsert apply result refl
