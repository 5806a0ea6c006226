-- ===== src/Examples/Snapshots.antt =====
-- apply/snapshot_diff.py on rows whose values are numbers, 0 standing for None, with limits in
-- hundredths.
use fabric_data_framework.Prelude.{
  ℕ, ◌*◌, ◌<◌, ◌≡◌, ◌⊎◌, refl, Bool, true, false, none, some, List, [], ◌∷◌, ltb, nat_eq, list_eq,
  Text, text, length, Result, ok, raise,
}
use fabric_data_framework.Prelude.Dict.{get, put, update}
use fabric_data_framework.Prelude.Sort.{insert_with, sort_with}
use fabric_data_framework.Prelude.Order.{lex_lt}
use fabric_data_framework.Examples.Texts.{strip_spaces}
use fabric_data_framework.Values.{PyValue, Row, has_null, same_items}
use fabric_data_framework.Snapshot.Contract.{
  FullSnapshotEvidence, SnapshotDiffPolicy, SnapshotDiffPlan, deletes_all_rows, SnapshotDiffError,
  default_policy, capture_full_snapshot, row_count_mismatch,
}
use fabric_data_framework.Snapshot.Plan.{
  key_values, snapshot_key, index, changed, changed_at, inserted_of, missing_of, common_of,
  final_map, exceeds, guarded_deletes, diff_of, plan_snapshot_diff,
}
use fabric_data_framework.Snapshot.Results.{IsDiff, plan-IsDiff, deletes_guarded}

abbrev numbers : PyValue ℕ
numbers = record {
  eq = nat_eq;
  null = 0;
  less = λ a b. some (ltb a b);
  repr = λ vs. vs;
  strip = strip_spaces;
}

abbrev over : ℕ → ℕ → ℕ → Bool
over deleted current limit = ltb (limit * current) (deleted * 100)

abbrev id : Text
id = text "id"

abbrev note : Text
note = text "note"

abbrev row : ℕ → ℕ → Row ℕ
row key value = (id, key) ∷ (note, value) ∷ []

abbrev planned_rows : Result SnapshotDiffError (SnapshotDiffPlan ℕ) → List (Row ℕ)
planned_rows (ok p) = p.rows
planned_rows (raise e) = []

abbrev target : List (Row ℕ)
target = row 1 5 ∷ row 2 5 ∷ row 3 5 ∷ []

abbrev snapshot : List (Row ℕ)
snapshot = row 4 5 ∷ row 2 6 ∷ row 1 5 ∷ []

abbrev evidence : FullSnapshotEvidence
evidence = record {
  snapshot_id = text "s";
  complete = true;
  source_row_count = 3;
  boundary_ref = none;
}

abbrev half : SnapshotDiffPolicy ℕ
half = record {
  require_complete_snapshot = true;
  propagate_deletes = true;
  allow_delete_all = false;
  allow_delete_with_quarantine = false;
  max_delete_fraction = some 50;
}

abbrev quarantined : ℕ
quarantined = 0

abbrev plan : SnapshotDiffPlan ℕ
plan = record {
  rows = row 1 5 ∷ row 2 6 ∷ row 4 5 ∷ [];
  inserted_keys = (4 ∷ []) ∷ [];
  updated_keys = (2 ∷ []) ∷ [];
  deleted_keys = (3 ∷ []) ∷ [];
  unchanged_keys = (1 ∷ []) ∷ [];
  mutations = record { inserted = 1; updated = 1; deleted = 1 };
}

plan_made :
    plan_snapshot_diff numbers over target snapshot evidence (id ∷ []) [] quarantined half ≡ ok plan
unfolding plan_snapshot_diff index snapshot_key key_values has_null get put insert_with sort_with
    lex_lt inserted_of missing_of common_of changed_at changed same_items guarded_deletes diff_of
    final_map
plan_made = refl

-- An empty snapshot does not delete the whole target.
empty_refused :
    plan_snapshot_diff numbers over target [] evidence (id ∷ []) [] quarantined half
    ≡ raise deletes_all_rows
unfolding plan_snapshot_diff index snapshot_key key_values has_null get put insert_with sort_with
    lex_lt missing_of guarded_deletes
empty_refused = refl

-- By default no key is deleted, and the target's row stays.
kept_by_default :
    planned_rows (plan_snapshot_diff numbers over target [] evidence (id ∷ []) [] 0 default_policy)
    ≡ target
unfolding plan_snapshot_diff index snapshot_key key_values has_null get put update insert_with
    sort_with lex_lt inserted_of missing_of common_of changed_at guarded_deletes diff_of final_map
kept_by_default = refl

-- The evidence counts three rows.
count_refused : capture_full_snapshot (row 1 5 ∷ []) evidence ≡ raise row_count_mismatch
unfolding capture_full_snapshot
count_refused = refl

plan-IsDiff_example : IsDiff numbers over target snapshot (id ∷ []) [] half plan
plan-IsDiff_example =
    plan-IsDiff numbers over target snapshot evidence (id ∷ []) [] quarantined half plan plan_made

deletes_guarded_example :
    (true ≡ true)
    × ((true ≡ false) ⊎ (true ≡ true))
    × ((quarantined ≡ 0) ⊎ (false ≡ true))
    × ((length plan.deleted_keys < length target) ⊎ (false ≡ true))
    × (exceeds numbers over (some 50) (length plan.deleted_keys) (length target) ≡ false)
deletes_guarded_example =
    deletes_guarded numbers over target snapshot evidence (id ∷ []) [] quarantined half plan
      (3 ∷ []) plan_made refl
