-- ===== src/Snapshot/Made.antt =====
-- What a plan of apply/snapshot_diff.py was made of, and what its guards let pass.
use fabric_data_framework.Prelude.{
  ℕ, ◌≤◌, ◌<◌, ◌≡◌, Bool, true, false, ◌&&◌, not, ◌⊎◌, inl, inr, List, [], ◌∷◌, PyEq, ◌==◌, list_eq,
  nat_eq, Text, length, elem, Bool-cases, ok, >>=-eq-ok, guard-ok, ok-inj, arith,
}
use fabric_data_framework.Values.{PyValue, Row}
use fabric_data_framework.Temporal.{is_empty}
use fabric_data_framework.CurrentState.Apply.{Keyed}
use fabric_data_framework.Snapshot.Contract.{
  SnapshotDiffPolicy, SnapshotDiffPlan, FullSnapshotEvidence,
}
use fabric_data_framework.Snapshot.Plan.{
  has, index, missing_of, exceeds, guarded_deletes, diff_of, plan_snapshot_diff,
}
use fabric_data_framework.Snapshot.Index.{IsIndexOf, index-IsIndexOf}
use fabric_data_framework.Snapshot.Keys.{elem-missing_of}

pub complete_or :
    (required complete : Bool)
    → (required && not complete) ≡ false
    → (required ≡ false) ⊎ (complete ≡ true)
complete_or required complete h = ground arith

pub length-elem : {A : Type 0} ⦃e : PyEq A⦄ (a : A) (xs : List A) → elem a xs ≡ true → 0 < length xs
length-elem a [] h = cc
length-elem a (x ∷ xs) h = omega arith

module _ {V F : Type 0} (py : PyValue V) (over : ℕ → ℕ → F → Bool) where
  instance abbrev key_eq : PyEq (List V)
  key_eq = list_eq ⦃e = py.eq⦄

  -- What a plan was made of.
  pub record IsMadeOf (current_rows candidate_rows : List (Row V)) (evidence : FullSnapshotEvidence)
      (merge_key tracked_columns : List Text) (quarantined_count : ℕ)
      (policy : SnapshotDiffPolicy F) (plan : SnapshotDiffPlan V) : Type 0 where
    pub current : Keyed V
    pub candidate : Keyed V
    pub deleted : List (List V)
    pub permitted : (policy.require_complete_snapshot && not evidence.complete) ≡ false
    pub current_index : IsIndexOf py merge_key current_rows current
    pub candidate_index : IsIndexOf py merge_key candidate_rows candidate
    pub guarded :
        guarded_deletes py over policy quarantined_count
          (missing_of py current candidate)
          (length current)
        ≡ ok deleted
    pub made : diff_of py over tracked_columns policy current candidate deleted ≡ plan

  pub plan-IsMadeOf :
      (current_rows candidate_rows : List (Row V)) (evidence : FullSnapshotEvidence)
      (merge_key tracked_columns : List Text) (quarantined_count : ℕ)
      (policy : SnapshotDiffPolicy F) (plan : SnapshotDiffPlan V)
      → plan_snapshot_diff py over current_rows candidate_rows evidence merge_key tracked_columns
          quarantined_count policy
        ≡ ok plan
      → IsMadeOf current_rows candidate_rows evidence merge_key tracked_columns quarantined_count
          policy plan
  unfolding plan_snapshot_diff
  plan-IsMadeOf current_rows candidate_rows evidence merge_key tracked_columns quarantined_count
        policy plan h =
      let (keyed, h1) = guard-ok (is_empty merge_key) _ _ h in
      let (permitted, h2) =
        guard-ok (policy.require_complete_snapshot && not evidence.complete) _ _ h1 in
      let (current, at_current, h3) = >>=-eq-ok (index py merge_key current_rows []) _ h2 in
      let (candidate, at_candidate, h4) = >>=-eq-ok (index py merge_key candidate_rows []) _ h3 in
      let (deleted, guarded, h5) =
        >>=-eq-ok
          (guarded_deletes py over policy quarantined_count (missing_of py current candidate)
            (length current))
          _ h4 in
      record {
        current = current;
        candidate = candidate;
        deleted = deleted;
        permitted = permitted;
        current_index = index-IsIndexOf py merge_key current_rows current at_current;
        candidate_index = index-IsIndexOf py merge_key candidate_rows candidate at_candidate;
        guarded = guarded;
        made = ok-inj _ _ h5;
      }

  pub guarded_cases :
      (policy : SnapshotDiffPolicy F) (quarantined_count : ℕ) (missing deleted : List (List V))
      (count : ℕ)
      → guarded_deletes py over policy quarantined_count missing count ≡ ok deleted
      → ((policy.propagate_deletes ≡ false) × (deleted ≡ []))
        ⊎ ((policy.propagate_deletes ≡ true)
            × (deleted ≡ missing)
            × ((not (quarantined_count == 0) && not policy.allow_delete_with_quarantine) ≡ false)
            × ((not (count == 0) && (length missing == count && not policy.allow_delete_all))
                ≡ false)
            × ((not (count == 0)
                  && exceeds py over policy.max_delete_fraction (length missing) count)
                ≡ false))
  unfolding guarded_deletes
  guarded_cases policy quarantined_count missing deleted count h =
      elim (Bool-cases policy.propagate_deletes) [
        | inr keeps ↦ inl (keeps, cc (rw (guarded_deletes, keeps) at h))
        | inl deletes ↦
            let (q, h1) = guard-ok _ _ _ (rw (guarded_deletes, deletes) at h) in
            let (a, h2) = guard-ok _ _ _ h1 in
            let (f, h3) = guard-ok _ _ _ h2 in inr (deletes, cc h3, q, a, f)
      ]

  pub guards_passed :
      (policy : SnapshotDiffPolicy F) (quarantined_count deleted count : ℕ)
      → 0 < deleted
      → deleted ≤ count
      → (not (quarantined_count == 0) && not policy.allow_delete_with_quarantine) ≡ false
      → (not (count == 0) && (deleted == count && not policy.allow_delete_all)) ≡ false
      → (not (count == 0) && exceeds py over policy.max_delete_fraction deleted count) ≡ false
      → ((quarantined_count ≡ 0) ⊎ (policy.allow_delete_with_quarantine ≡ true))
        × ((deleted < count) ⊎ (policy.allow_delete_all ≡ true))
        × (exceeds py over policy.max_delete_fraction deleted count ≡ false)
  guards_passed policy quarantined_count deleted count some_deleted few q a f =
      (ground arith, ground arith, ground arith)

  pub elem-deleted :
      (policy : SnapshotDiffPolicy F) (quarantined_count count : ℕ) (current candidate : Keyed V)
      (deleted : List (List V)) (j : List V)
      → guarded_deletes py over policy quarantined_count (missing_of py current candidate) count
        ≡ ok deleted
      → elem ⦃e = key_eq⦄ j deleted
        ≡ (policy.propagate_deletes && (has py j current && not (has py j candidate)))
  elem-deleted policy quarantined_count count current candidate deleted j h =
      elim (guarded_cases policy quarantined_count _ deleted count h) [
        | inl (keeps, nothing) ↦ rw (keeps, nothing)
        | inr (deletes, missing, q, a, f) ↦
            rw (deletes, missing) (elem-missing_of py current candidate j)
      ]
