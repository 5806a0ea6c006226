-- ===== src/Snapshot/Plan.antt =====
-- plan_snapshot_diff of apply/snapshot_diff.py. A set of keys is the list of a dict's keys that pass
-- its test; `sorted(…, key=repr)` leaves keys of equal repr in that order. `over` is the comparison
-- of floats `deleted / current > limit`.
use fabric_data_framework.Prelude.{
  ℕ, Bool, true, false, ◌&&◌, not, Option, none, some, List, [], ◌∷◌, map, if◌then◌else◌, PyEq,
  ◌==◌, list_eq, nat_eq, option_eq, Text, length, any, keep, elem, Result, ok, raise, ◌>>=◌, ◌>>◌,
  raise_if,
}
use fabric_data_framework.Prelude.Dict.{Dict, get, put, update}
use fabric_data_framework.Prelude.Sort.{sort_by}
use fabric_data_framework.Values.{PyValue, Row, get_value, has_null, value_eq, same_items}
use fabric_data_framework.Temporal.{is_empty}
use fabric_data_framework.CurrentState.Apply.{Keyed}
use fabric_data_framework.Snapshot.Contract.{
  SnapshotDiffError, no_merge_key, incomplete_snapshot, missing_column, null_key, duplicate_key,
  quarantined_rows, deletes_all_rows, deletes_too_many, FullSnapshotEvidence, SnapshotDiffPolicy,
  SnapshotDiffPlan,
}

abbrev pub is_some : {A : Type 0} → Option A → Bool
is_some none = false
is_some (some a) = true

abbrev pub keys : {K V : Type 0} → Dict K V → List K
keys d = map (λ item. item.0) d

module _ {V : Type 0} (py : PyValue V) where
  instance abbrev key_eq : PyEq (List V)
  key_eq = list_eq ⦃e = py.eq⦄

  -- `tuple(row[column] for column in merge_key)`
  unfoldable pub key_values : List Text → Row V → Result SnapshotDiffError (List V)
  key_values [] row = ok []
  key_values (column ∷ merge_key) row = elim (get column row) [
    | none ↦ raise missing_column
    | some v ↦ do rest ← key_values merge_key row; ok (v ∷ rest)
  ]

  unfoldable pub snapshot_key : List Text → Row V → Result SnapshotDiffError (List V)
  unfolding key_values has_null
  snapshot_key merge_key row = do
    key ← key_values merge_key row
    raise_if (has_null py key) null_key
    ok key

  abbrev pub has : List V → Keyed V → Bool
  has key d = is_some (get ⦃e = key_eq⦄ key d)

  unfoldable pub index : List Text → List (Row V) → Keyed V → Result SnapshotDiffError (Keyed V)
  unfolding snapshot_key
  index merge_key [] indexed = ok indexed
  index merge_key (row ∷ rows) indexed = do
    key ← snapshot_key merge_key row
    raise_if (has key indexed) duplicate_key
    index merge_key rows (put ⦃e = key_eq⦄ key row indexed)

  unfoldable pub changed : List Text → Row V → Row V → Bool
  unfolding get_value same_items
  changed [] before after = not (same_items py before after)
  changed (column ∷ tracked_columns) before after =
      any (λ c. not (◌==◌ ⦃e = py.eq⦄ (get_value py c before) (get_value py c after)))
        (column ∷ tracked_columns)

  -- `_changed` on the rows that two dicts hold at a key; False where one of them has none.
  unfoldable pub changed_at : List Text → Keyed V → Keyed V → List V → Bool
  unfolding changed
  changed_at tracked_columns current candidate key = elim (get ⦃e = key_eq⦄ key current) [
    | none ↦ false
    | some before ↦ elim (get ⦃e = key_eq⦄ key candidate) [
      | none ↦ false
      | some after ↦ changed tracked_columns before after
    ]
  ]

  abbrev pub sorted_keys : List (List V) → List (List V)
  sorted_keys ks = sort_by py.repr ks

  unfoldable pub inserted_of : Keyed V → Keyed V → List (List V)
  inserted_of current candidate = sorted_keys (keep (λ k. not (has k current)) (keys candidate))

  unfoldable pub missing_of : Keyed V → Keyed V → List (List V)
  missing_of current candidate = sorted_keys (keep (λ k. not (has k candidate)) (keys current))

  unfoldable pub common_of : Keyed V → Keyed V → List (List V)
  common_of current candidate = sorted_keys (keep (λ k. has k candidate) (keys current))

  abbrev pub updated_of : List Text → Keyed V → Keyed V → List (List V)
  updated_of tracked_columns current candidate =
      keep (changed_at tracked_columns current candidate) (common_of current candidate)

  abbrev pub unchanged_of : List Text → Keyed V → Keyed V → List (List V)
  unchanged_of tracked_columns current candidate =
      keep (λ k. not (elem ⦃e = key_eq⦄ k (updated_of tracked_columns current candidate)))
        (common_of current candidate)

  unfoldable pub final_map : Bool → Keyed V → Keyed V → Keyed V
  final_map true current candidate = candidate
  final_map false current candidate = update ⦃e = key_eq⦄ current candidate

module _ {V F : Type 0} (py : PyValue V) (over : ℕ → ℕ → F → Bool) where
  abbrev pub exceeds : Option F → ℕ → ℕ → Bool
  exceeds none deleted current = false
  exceeds (some limit) deleted current = over deleted current limit

  -- The keys to delete, where the guards let them pass.
  unfoldable pub guarded_deletes :
      SnapshotDiffPolicy F → ℕ → List (List V) → ℕ → Result SnapshotDiffError (List (List V))
  guarded_deletes policy quarantined_count missing current_count =
      if policy.propagate_deletes
      then (do
        raise_if (not (quarantined_count == 0) && not policy.allow_delete_with_quarantine)
            quarantined_rows
        raise_if
            (not (current_count == 0)
              && (length missing == current_count && not policy.allow_delete_all))
            deletes_all_rows
        raise_if
            (not (current_count == 0)
              && exceeds policy.max_delete_fraction (length missing) current_count)
            deletes_too_many
        ok missing)
      else ok []

  unfoldable pub diff_of :
      List Text → SnapshotDiffPolicy F → Keyed V → Keyed V → List (List V) → SnapshotDiffPlan V
  unfolding inserted_of common_of changed_at final_map
  diff_of tracked_columns policy current candidate deleted = record {
    rows =
        map (λ entry. entry.1)
          (sort_by (λ entry. py.repr entry.0)
            (final_map py policy.propagate_deletes current candidate));
    inserted_keys = inserted_of py current candidate;
    updated_keys = updated_of py tracked_columns current candidate;
    deleted_keys = deleted;
    unchanged_keys = unchanged_of py tracked_columns current candidate;
    mutations = record {
      inserted = length (inserted_of py current candidate);
      updated = length (updated_of py tracked_columns current candidate);
      deleted = length deleted;
    };
  }

  unfoldable pub plan_snapshot_diff :
      List (Row V)
      → List (Row V)
      → FullSnapshotEvidence
      → List Text
      → List Text
      → ℕ
      → SnapshotDiffPolicy F
      → Result SnapshotDiffError (SnapshotDiffPlan V)
  unfolding index missing_of guarded_deletes diff_of
  plan_snapshot_diff current_rows candidate_rows evidence merge_key tracked_columns
        quarantined_count policy =
      do
        raise_if (is_empty merge_key) no_merge_key
        raise_if (policy.require_complete_snapshot && not evidence.complete) incomplete_snapshot
        current ← index py merge_key current_rows []
        candidate ← index py merge_key candidate_rows []
        deleted ←
            guarded_deletes policy quarantined_count (missing_of py current candidate)
              (length current)
        ok (diff_of tracked_columns policy current candidate deleted)
