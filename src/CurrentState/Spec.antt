-- ===== src/CurrentState/Spec.antt =====
-- The loop of apply_ordered_current_state in apply/current_state.py against a description of what
-- becomes of each key.
use fabric_data_framework.Prelude.{
  ℕ, ◌+◌, ◌≡◌, ap, ◌∙◌, inl, inr, Option, none, some, List, [], ◌∷◌, if◌then◌else◌, PyEq, ◌==◌,
  ==_iff, list_eq, nat_eq, Text, length, Bool-cases, Option-cases, Result, ok, >>=-eq-ok, arith,
}
use fabric_data_framework.Prelude.Dict.{HasUniqueKeys, get, update, get-put}
use fabric_data_framework.Values.{PyValue, Row, value_eq}
use fabric_data_framework.Temporal.{SourceOrderRelation, newer, is_empty}
use fabric_data_framework.CurrentState.Apply.{
  ApplyError, CurrentStateApplyPolicy, Progress, same_payload, row_order, apply_ordered, apply_one,
  apply_selected,
}

module _ {V : Type 0} (py : PyValue V) where
  instance abbrev key_eq : PyEq (List V)
  key_eq = list_eq ⦃e = py.eq⦄

  abbrev by_relation : Row V → Row V → Result ApplyError SourceOrderRelation → Row V
  by_relation candidate current (ok newer) = update current candidate
  by_relation candidate current _ = current

  -- What becomes of a target row, given the incoming row that was selected for its key.
  abbrev pub applied : List Text → Option (Row V) → Option (Row V) → Option (Row V)
  applied ordering_columns none current = current
  applied ordering_columns (some candidate) none = some candidate
  applied ordering_columns (some candidate) (some current) =
      if same_payload py candidate current
      then some current
      else if is_empty ordering_columns
      then some (update current candidate)
      else some (by_relation candidate current (row_order py ordering_columns candidate current))

  abbrev pub handled : Progress V → ℕ
  handled p = p.inserted + p.updated + p.stale_ignored + p.duplicate_ignored

  apply_one-applied :
      (columns : List Text) (policy : CurrentStateApplyPolicy) (key : List V) (candidate : Row V)
      (p p' : Progress V)
      → apply_one py columns policy key candidate p ≡ ok p'
      → ((j : List V)
          → get ⦃e = key_eq⦄ j p'.rows_by_key
            ≡ applied columns
                (if ◌==◌ ⦃e = key_eq⦄ key j then some candidate else none)
                (get ⦃e = key_eq⦄ j p.rows_by_key))
        × (handled p' ≡ handled p + 1)
  unfolding apply_one apply_ordered
  apply_one-applied columns policy key candidate p p' h =
      elim (Option-cases (get ⦃e = key_eq⦄ key p.rows_by_key)) [
        | inl absent ↦
            (λ j. ground (arith, ==_iff key j, get-put key j candidate p.rows_by_key), ground arith)
        | inr (current, present) ↦ (
          λ j. ground (arith, ==_iff key j, get-put key j (update current candidate) p.rows_by_key),
          ground arith,
        )
      ]

  pub apply_selected-applied :
      (columns : List Text) (policy : CurrentStateApplyPolicy) (selected : List (List V × Row V))
      (p p' : Progress V)
      → HasUniqueKeys ⦃e = key_eq⦄ selected
      → apply_selected py columns policy selected p ≡ ok p'
      → ((j : List V)
          → get ⦃e = key_eq⦄ j p'.rows_by_key
            ≡ applied columns (get ⦃e = key_eq⦄ j selected) (get ⦃e = key_eq⦄ j p.rows_by_key))
        × (handled p' ≡ handled p + length selected)
  unfolding apply_selected get
  apply_selected-applied columns policy [] p p' u h = (λ j. ground arith, ground arith)
  apply_selected-applied columns policy ((key, candidate) ∷ selected) p p' (fresh, u) h =
      let (mid, first, rest) = >>=-eq-ok (apply_one py columns policy key candidate p) _ h in
      let (now, counted) = apply_one-applied columns policy key candidate p mid first in
      let (later, counted') = apply_selected-applied columns policy selected mid p' u rest in
      (
        λ j. later j ∙ (elim (Bool-cases (◌==◌ ⦃e = key_eq⦄ key j)) [
          | inl same ↦
              let gone : get ⦃e = key_eq⦄ j selected ≡ none = cc (fresh, (==_iff key j).0 same) in
              rw (same, gone) (rw same at (now j))
          | inr other ↦ rw other (ap (applied columns _) (rw other at (now j)))
        ]),
        omega arith,
      )
