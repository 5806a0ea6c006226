-- ===== src/CurrentState/Rerun.antt =====
-- A second application of the same incoming row by apply/current_state.py.
use mathlib.Core.Path.{ap₂}
use fabric_data_framework.Prelude.{
  ◌+◌, ◌≡◌, refl, ◌∙◌, inl, inr, false, some, List, [], ◌∷◌, if◌then◌else◌, ◌==◌, ==_refl, list_eq,
  nat_eq, Text, length, Bool-cases, Option-cases, ok, raise, >>=-eq-ok, arith,
}
use fabric_data_framework.Prelude.Dict.{HasUniqueKeys, get, update, get-put, get-update}
use fabric_data_framework.Values.{PyValue, Row, get_value, values, has_null, tuple_lt, value_eq}
use fabric_data_framework.Temporal.{newer, equal, is_empty, compare_source_order}
use fabric_data_framework.CurrentState.Apply.{
  conflict_error, CurrentStateApplyPolicy, Progress, same_payload, position, compare_positions,
  row_order, apply_ordered, apply_one, merged,
}

module _ {V : Type 0} (py : PyValue V) where
  get_value-update :
      (target source : Row V) (j : Text)
      → HasUniqueKeys source
      → ◌==◌ ⦃e = py.eq⦄ (get_value py j source) py.null ≡ false
      → get_value py j (update target source) ≡ get_value py j source
  unfolding get_value
  get_value-update target source j u present = elim (Option-cases (get j source)) [
    | inl absent ↦ cc (rw (absent, get_value) at present, ==_refl ⦃e = py.eq⦄ py.null)
    | inr (v, there) ↦ rw (get_value, get-update target source j u, there)
  ]

  values-update :
      (columns : List Text) (target source : Row V)
      → HasUniqueKeys source
      → has_null py (values py columns source) ≡ false
      → values py columns (update target source) ≡ values py columns source
  unfolding values has_null
  values-update [] target source u full = refl
  values-update (c ∷ columns) target source u full =
      let head : ◌==◌ ⦃e = py.eq⦄ (get_value py c source) py.null ≡ false = ground arith in
      ap₂ (λ v vs. v ∷ vs) (get_value-update target source c u head)
        (values-update columns target source u (ground arith))

  tuple_lt_irrefl : (p : List V) → tuple_lt py p p ≡ some false
  unfolding tuple_lt
  tuple_lt_irrefl [] = refl
  tuple_lt_irrefl (v ∷ p) = rw (==_refl ⦃e = py.eq⦄ v) (tuple_lt_irrefl p)

  compare_self : (p : List V) → is_empty p ≡ false → compare_positions py p p ≡ ok equal
  unfolding compare_positions compare_source_order
  compare_self [] h = cc
  compare_self (v ∷ p) h = rw (tuple_lt_irrefl (v ∷ p)) (ground (arith, ==_refl (length (v ∷ p))))

  is_empty-values :
      (columns : List Text) (row : Row V) → is_empty (values py columns row) ≡ is_empty columns
  unfolding values
  is_empty-values [] row = refl
  is_empty-values (c ∷ columns) row = refl

  position_cases :
      (columns : List Text) (row : Row V) (p : List V)
      → position py columns row ≡ ok p
      → (has_null py (values py columns row) ≡ false) × (p ≡ values py columns row)
  unfolding position
  position_cases columns row p h = elim (Bool-cases (has_null py (values py columns row))) [
    | inl null ↦ cc (rw (position, null) at h)
    | inr full ↦ (full, cc (rw (position, full) at h))
  ]

  position_merged :
      (columns : List Text) (current candidate : Row V) (p : List V)
      → HasUniqueKeys candidate
      → position py columns candidate ≡ ok p
      → position py columns (update current candidate) ≡ ok p
  unfolding position
  position_merged columns current candidate p u h =
      let (full, at_p) = position_cases columns candidate p h in
      rw (position, values-update columns current candidate u full) h

  -- A row merged over another stands at the position of the row that was merged.
  merged_order :
      (columns : List Text) (current candidate : Row V)
      → HasUniqueKeys candidate
      → is_empty columns ≡ false
      → row_order py columns candidate current ≡ ok newer
      → row_order py columns candidate (update current candidate) ≡ ok equal
  unfolding row_order
  merged_order columns current candidate u some_columns h =
      let (p, at_p, rest) = >>=-eq-ok (position py columns candidate) _ h in
      let (full, named) = position_cases columns candidate p at_p in
      let some_places : is_empty p ≡ false =
        rw named (is_empty-values columns candidate ∙ some_columns) in
      rw (at_p, position_merged columns current candidate p u at_p) (compare_self p some_places)

-- Where ordering columns are given and an incoming row was merged over an older, different target
-- row, applying the same incoming row again counts it as a duplicate if the merged row equals it,
-- and raises a conflict otherwise, as where the merged row kept a target-only field.
pub reapply_merged :
    {V : Type 0} (py : PyValue V) (columns : List Text) (policy : CurrentStateApplyPolicy)
    (key : List V) (candidate current : Row V) (p p' : Progress V)
    → HasUniqueKeys candidate
    → is_empty columns ≡ false
    → get ⦃e = list_eq ⦃e = py.eq⦄⦄ key p.rows_by_key ≡ some current
    → same_payload py candidate current ≡ false
    → row_order py columns candidate current ≡ ok newer
    → apply_one py columns policy key candidate p ≡ ok p'
    → apply_one py columns policy key candidate p' ≡ (
        if same_payload py candidate (update current candidate)
        then ok (record p' { duplicate_ignored = p'.duplicate_ignored + 1 })
        else raise conflict_error)
unfolding apply_one apply_ordered
reapply_merged py columns policy key candidate current p p' u some_columns there differs order h =
    let e : merged py key candidate current p ≡ p' = ground arith in
    let again : get ⦃e = list_eq ⦃e = py.eq⦄⦄ key p'.rows_by_key ≡ some (update current candidate) =
      rw (← e) (rw get-put (rw (==_refl ⦃e = list_eq ⦃e = py.eq⦄⦄ key))) in
    ground (arith, again, merged_order py columns current candidate u some_columns order)
