-- ===== src/CurrentState/Refinement.antt =====
-- apply_ordered_current_state of apply/current_state.py as a whole.
use fabric_data_framework.Prelude.{
  ◌+◌, ◌≡◌, ◌⊎◌, List, [], map, PyEq, list_eq, nat_eq, Text, length, ok, arith,
}
use fabric_data_framework.Prelude.Dict.{get, put}
use fabric_data_framework.Values.{PyValue, Row, value_eq, strip_columns}
use fabric_data_framework.Temporal.{SourceOrderRelation}
use fabric_data_framework.CurrentState.Apply.{
  CurrentStateApplyPolicy, CurrentStateApplyResult, Keyed, Selection, Progress, select_ordered,
  select_latest_incoming, index_existing, by_repr,
}
use fabric_data_framework.CurrentState.Spec.{applied}

module _ {V : Type 0} (py : PyValue V) where
  instance abbrev key_eq : PyEq (List V)
  key_eq = list_eq ⦃e = py.eq⦄

  select_ordered_cases :
      (key : List V) (candidate current : Row V) (s s' : Selection V) (r : SourceOrderRelation)
      → select_ordered py key candidate current s r ≡ ok s'
      → (s'.selected ≡ s.selected) ⊎ (s'.selected ≡ put ⦃e = key_eq⦄ key candidate s.selected)
  unfolding select_ordered
  select_ordered_cases key candidate current s s' r h = ground arith

  abbrev nothing_selected : Selection V
  nothing_selected = record { selected = []; duplicates = 0; superseded = 0 }

  abbrev start : Keyed V → Selection V → Progress V
  start rows s = record {
    rows_by_key = rows;
    inserted = 0;
    updated = 0;
    stale_ignored = 0;
    duplicate_ignored = s.duplicates;
  }

  -- The parts of a run that succeeds.
  pub record Run (existing incoming : List (Row V)) (merge_key columns : List Text)
      (policy : CurrentStateApplyPolicy) (result : CurrentStateApplyResult V) : Type 0 where
    pub target : Keyed V
    pub indexed : index_existing py merge_key columns existing [] ≡ ok target
    pub selection : Selection V
    pub selects :
        select_latest_incoming py merge_key columns incoming nothing_selected ≡ ok selection
    pub final : Keyed V
    pub rows : result.rows ≡ map (λ entry. strip_columns py entry.1) (by_repr py final)
    pub each :
        (key : List V)
        → get ⦃e = key_eq⦄ key final
          ≡ applied py columns
              (get ⦃e = key_eq⦄ key selection.selected)
              (get ⦃e = key_eq⦄ key target)
    pub counted :
        result.inserted + result.updated + result.stale_ignored + result.duplicate_ignored
        ≡ selection.duplicates + length (by_repr py selection.selected)
    pub superseded : result.incoming_superseded ≡ selection.superseded
