-- ===== src/Snapshot/Results.antt =====
-- What apply/snapshot_diff.py promises of the plans that it returns.
use fabric_data_framework.Prelude.{
  ℕ, ◌<◌, ◌≡◌, refl, ◌∙◌, Bool, true, false, ◌&&◌, not, ◌⊎◌, inl, inr, List, map, if◌then◌else◌,
  PyEq, list_eq, nat_eq, Text, length, elem, ok, subst, ap,
}
use fabric_data_framework.Prelude.Dict.{HasUniqueKeys, get, or_else}
use fabric_data_framework.Prelude.Sort.{by_text, sort_by, get-sort_with}
use fabric_data_framework.Values.{PyValue, Row}
use fabric_data_framework.CurrentState.Apply.{Keyed}
use fabric_data_framework.Snapshot.Contract.{
  SnapshotDiffPolicy, SnapshotDiffPlan, FullSnapshotEvidence,
}
use fabric_data_framework.Snapshot.Plan.{
  has, changed_at, final_map, exceeds, diff_of, plan_snapshot_diff,
}
use fabric_data_framework.Snapshot.Index.{IsIndexOf}
use fabric_data_framework.Snapshot.Keys.{
  elem-inserted_of, elem-updated_of, elem-unchanged_of, length-missing_of, get-final_map,
  final_map-HasUniqueKeys,
}
use fabric_data_framework.Snapshot.Made.{
  complete_or, length-elem, plan-IsMadeOf, guarded_cases, guards_passed, elem-deleted,
}

module _ {V F : Type 0} (py : PyValue V) (over : ℕ → ℕ → F → Bool) where
  instance abbrev key_eq : PyEq (List V)
  key_eq = list_eq ⦃e = py.eq⦄

  -- The target and the candidate by key, and what becomes of each key.
  abbrev pub IsDiff :
      List (Row V)
      → List (Row V)
      → List Text
      → List Text
      → SnapshotDiffPolicy F
      → SnapshotDiffPlan V
      → Type 0
  IsDiff current_rows candidate_rows merge_key tracked_columns policy plan =
      (current : Keyed V) × (candidate : Keyed V) × (final : Keyed V) × IsIndexOf py merge_key
        current_rows current
      × IsIndexOf py merge_key candidate_rows candidate
      × HasUniqueKeys ⦃e = key_eq⦄ final
      × (plan.rows ≡ map (λ entry. entry.1) final)
      × ((j : List V)
          → (get ⦃e = key_eq⦄ j final ≡ (
              if policy.propagate_deletes
              then get ⦃e = key_eq⦄ j candidate
              else or_else (get ⦃e = key_eq⦄ j candidate) (get ⦃e = key_eq⦄ j current)))
            × (elem ⦃e = key_eq⦄ j plan.inserted_keys
                ≡ (has py j candidate && not (has py j current)))
            × (elem ⦃e = key_eq⦄ j plan.updated_keys
                ≡ changed_at py tracked_columns current candidate j)
            × (elem ⦃e = key_eq⦄ j plan.unchanged_keys ≡ (
                (has py j current && has py j candidate)
                && not (changed_at py tracked_columns current candidate j)))
            × (elem ⦃e = key_eq⦄ j plan.deleted_keys
                ≡ (policy.propagate_deletes && (has py j current && not (has py j candidate)))))

-- A plan that is returned is the difference of the two row lists: both are read by key, no key
-- standing twice and each row at its key; the plan's rows are those of a dict that has the
-- candidate's row of a key, or where deletes are not propagated and there is none the target's; the
-- keys are inserted, updated, unchanged and deleted by which of the two have them and whether the
-- row changed, and deleted only where deletes are propagated.
pub plan-IsDiff :
    {V F : Type 0} (py : PyValue V) (over : ℕ → ℕ → F → Bool)
    (current_rows candidate_rows : List (Row V)) (evidence : FullSnapshotEvidence)
    (merge_key tracked_columns : List Text) (quarantined_count : ℕ) (policy : SnapshotDiffPolicy F)
    (plan : SnapshotDiffPlan V)
    → plan_snapshot_diff py over current_rows candidate_rows evidence merge_key tracked_columns
        quarantined_count policy
      ≡ ok plan
    → IsDiff py over current_rows candidate_rows merge_key tracked_columns policy plan
unfolding diff_of
plan-IsDiff py over current_rows candidate_rows evidence merge_key tracked_columns quarantined_count
      policy plan h =
    let m =
      plan-IsMadeOf py over current_rows candidate_rows evidence merge_key tracked_columns
        quarantined_count policy plan h in
    let deletes = policy.propagate_deletes in
    let final = final_map py deletes m.current m.candidate in
    let u =
      final_map-HasUniqueKeys py deletes m.current m.candidate m.current_index.1
        m.candidate_index.1 in
    let (u', same) =
      get-sort_with ⦃e = list_eq ⦃e = py.eq⦄⦄ (by_text (λ entry. py.repr entry.0)) final u in
    subst (IsDiff py over current_rows candidate_rows merge_key tracked_columns policy) m.made (
      m.current,
      m.candidate,
      sort_by (λ entry. py.repr entry.0) final,
      m.current_index,
      m.candidate_index,
      u',
      refl,
      λ j. (
        same j ∙ get-final_map py deletes m.current m.candidate j m.candidate_index.1,
        elem-inserted_of py m.current m.candidate j,
        elem-updated_of py tracked_columns m.current m.candidate j,
        elem-unchanged_of py tracked_columns m.current m.candidate j,
        elem-deleted py over policy quarantined_count (length m.current) m.current m.candidate
            m.deleted j m.guarded,
      ),
    )

-- Where a returned plan deletes a key, deletes are propagated, the snapshot is complete unless the
-- policy asks for none, no row was quarantined unless the policy allows it, some row of the target
-- stays unless the policy allows to delete all, and the share of the deletes is within the limit.
pub deletes_guarded :
    {V F : Type 0} (py : PyValue V) (over : ℕ → ℕ → F → Bool)
    (current_rows candidate_rows : List (Row V)) (evidence : FullSnapshotEvidence)
    (merge_key tracked_columns : List Text) (quarantined_count : ℕ) (policy : SnapshotDiffPolicy F)
    (plan : SnapshotDiffPlan V) (j : List V)
    → plan_snapshot_diff py over current_rows candidate_rows evidence merge_key tracked_columns
        quarantined_count policy
      ≡ ok plan
    → elem ⦃e = list_eq ⦃e = py.eq⦄⦄ j plan.deleted_keys ≡ true
    → (policy.propagate_deletes ≡ true)
      × ((policy.require_complete_snapshot ≡ false) ⊎ (evidence.complete ≡ true))
      × ((quarantined_count ≡ 0) ⊎ (policy.allow_delete_with_quarantine ≡ true))
      × ((length plan.deleted_keys < length current_rows) ⊎ (policy.allow_delete_all ≡ true))
      × (exceeds py over policy.max_delete_fraction (length plan.deleted_keys) (length current_rows)
          ≡ false)
unfolding diff_of
deletes_guarded py over current_rows candidate_rows evidence merge_key tracked_columns
      quarantined_count policy plan j h found =
    let m =
      plan-IsMadeOf py over current_rows candidate_rows evidence merge_key tracked_columns
        quarantined_count policy plan h in
    let listed : m.deleted ≡ plan.deleted_keys = ap (λ p. p.deleted_keys) m.made in
    let counted = m.current_index.2 in
    let found' : elem ⦃e = list_eq ⦃e = py.eq⦄⦄ j m.deleted ≡ true = rw listed found in
    elim (guarded_cases py over policy quarantined_count _ m.deleted (length m.current) m.guarded) [
      | inl (keeps, nothing) ↦ cc (rw nothing at found')
      | inr (deletes, missing, q, a, f) ↦
          let few = length-missing_of py m.current m.candidate in
          let some_deleted = length-elem ⦃e = list_eq ⦃e = py.eq⦄⦄ j m.deleted found' in
          let (q', a', f') =
            guards_passed py over policy quarantined_count _ (length m.current)
              (rw missing at some_deleted) few q a f in
          rw (← listed, missing, ← counted) (deletes, complete_or _ _ m.permitted, q', a', f')
    ]
