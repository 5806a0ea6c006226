-- ===== src/Watermark/Batch.antt =====
-- The stages of plan_watermark_batch in capture/watermark.py.
use fabric_data_framework.Prelude.{
  In, ◌≡◌, refl, ap, subst, ◌∙◌, ◌⊎◌, inl, inr, Bool, true, false, List, [], ◌∷◌, map,
  if◌then◌else◌, ltb, nat_eq, Text, length, All, All-map, Result, ok, raise, >>=-eq-ok, guard-ok,
  arith,
}
use fabric_data_framework.Time.{instant}
use fabric_data_framework.Values.{Row}
use fabric_data_framework.Watermark.Position.{
  WatermarkError, value_error, type_error, Numbers, Scalar, null, other, boolean, number, moment,
  words, WatermarkPosition, same, both, no_moment, validate_watermark_scalar, validate_tie_breaker,
  watermark_position, compare_values, compare_scalar, compare_tie_breakers,
  compare_watermark_positions,
}
use fabric_data_framework.Watermark.Capture.{
  WatermarkConfig, Item, is_null, any_null, row_value, row_values, position_for_row, positioned,
  select,
}
use fabric_data_framework.Watermark.Comparing.{
  IsWeakOrder, compare_by_refl, ltb-IsWeakOrder, lex_lt-IsWeakOrder,
}
use fabric_data_framework.Watermark.Sorting.{Le, IsSorted}

module _ {N : Type 0} (py : Numbers N) (weak : IsWeakOrder py.less) where
  both_ok :
      (first second : Result WatermarkError (Unit {0}))
      → both first second ≡ ok tt
      → (first ≡ ok tt) × (second ≡ ok tt)
  both_ok (ok u) second h = (refl, h)
  both_ok (raise value_error) (raise type_error) h = cc
  both_ok first second h = cc

  compare_scalar_refl :
      (v : Scalar N)
      → validate_watermark_scalar py false v ≡ ok tt
      → compare_scalar py v v ≡ ok same
  unfolding validate_watermark_scalar compare_scalar compare_values
  compare_scalar_refl null h = cc
  compare_scalar_refl other h = cc
  compare_scalar_refl (boolean b) h = cc
  compare_scalar_refl (number n) h = rw (h, compare_by_refl py.less weak n)
  compare_scalar_refl (moment t) h = rw (h, compare_by_refl ltb ltb-IsWeakOrder (instant t))
  compare_scalar_refl (words t) h = ap ok (compare_by_refl _ lex_lt-IsWeakOrder t)

  tie_breakers_refl :
      (items : List (Scalar N))
      → validate_tie_breaker py items ≡ ok tt
      → compare_tie_breakers py items items ≡ ok same
  unfolding validate_tie_breaker compare_tie_breakers
  tie_breakers_refl [] h = refl
  tie_breakers_refl (item ∷ items) h =
      let (u, valid, h1) = >>=-eq-ok (validate_watermark_scalar py false item) _ h in
      let (v, scalar, h2) = >>=-eq-ok (no_moment py item) _ h1 in
      rw (compare_scalar_refl item valid) (tie_breakers_refl items h2)

  not_null :
      (v : Scalar N)
      → is_null v ≡ false
      → validate_watermark_scalar py true v ≡ ok tt
      → validate_watermark_scalar py false v ≡ ok tt
  unfolding validate_watermark_scalar
  not_null null n h = cc
  not_null other n h = h
  not_null (boolean b) n h = h
  not_null (number a) n h = h
  not_null (moment t) n h = h
  not_null (words t) n h = h

  position_refl :
      (value : Scalar N) (tie_breaker : List (Scalar N)) (p : WatermarkPosition N)
      → is_null value ≡ false
      → watermark_position py value tie_breaker ≡ ok p
      → Le py p p × (p.tie_breaker ≡ tie_breaker)
  unfolding watermark_position compare_watermark_positions
  position_refl value tie_breaker p n h =
      let (u, valid, h1) =
        >>=-eq-ok
          (both (validate_watermark_scalar py true value) (validate_tie_breaker py tie_breaker)) _
          h in
      let (valued, tied) =
        both_ok (validate_watermark_scalar py true value) (validate_tie_breaker py tie_breaker)
          valid in
      let e : record { value = value; tie_breaker = tie_breaker } ≡ p = cc in
      rw (← e) (
        inr (
            rw
              (
                compare_scalar_refl value (not_null value n valued),
                tie_breakers_refl tie_breaker tied,
              )
              (ground arith)),
        refl,
      )

module _ {V N : Type 0} (py : Numbers N) (read : V → Scalar N) (weak : IsWeakOrder py.less) where
  length-row_values :
      (columns : List Text) (row : Row V) (vs : List (Scalar N))
      → row_values py read columns row ≡ ok vs
      → length vs ≡ length columns
  unfolding row_values
  length-row_values [] row vs h = let e : [] ≡ vs = cc in rw (← e) refl
  length-row_values (column ∷ columns) row vs h =
      let (v, first, h1) = >>=-eq-ok (row_value py read column row) _ h in
      let (rest, others, h2) = >>=-eq-ok (row_values py read columns row) _ h1 in
      let e : v ∷ rest ≡ vs = cc in
      rw (← e) (omega (arith, length-row_values columns row rest others))

  -- A row's position is one that compares with itself, with a tie-breaker for each column.
  abbrev pub IsPositioned : WatermarkConfig → Item py read → Type 0
  IsPositioned config item =
      (position_for_row py read config item.0 ≡ ok item.1)
      × Le py item.1 item.1
      × (length item.1.tie_breaker ≡ length config.tie_breaker)

  position_for_row-IsPositioned :
      (config : WatermarkConfig) (row : Row V) (p : WatermarkPosition N)
      → position_for_row py read config row ≡ ok p
      → IsPositioned config (row, p)
  unfolding position_for_row
  position_for_row-IsPositioned config row p h =
      let (value, valued, h1) = >>=-eq-ok (row_value py read config.column row) _ h in
      let (present, h2) = guard-ok (is_null value) _ _ h1 in
      let (ties, tied, h3) = >>=-eq-ok (row_values py read config.tie_breaker row) _ h2 in
      let (full, h4) = guard-ok (any_null py read ties) _ _ h3 in
      let (le, same_ties) = position_refl py weak value ties p present h4 in
      (h, le, ap length same_ties ∙ length-row_values config.tie_breaker row ties tied)

  pub positioned-IsPositioned :
      (config : WatermarkConfig) (rows : List (Row V)) (items : List (Item py read))
      → positioned py read config rows ≡ ok items
      → All (IsPositioned config) items × (map (λ i. i.0) items ≡ rows)
  unfolding positioned
  positioned-IsPositioned config [] items h = let e : [] ≡ items = cc in rw (← e) (tt, refl)
  positioned-IsPositioned config (row ∷ rows) items h =
      let (p, at_p, h1) = >>=-eq-ok (position_for_row py read config row) _ h in
      let (rest, others, h2) = >>=-eq-ok (positioned py read config rows) _ h1 in
      let e : (row, p) ∷ rest ≡ items = cc in
      let (all, names) = positioned-IsPositioned config rows rest others in
      rw (← e) ((position_for_row-IsPositioned config row p at_p, all), ap (◌∷◌ row) names)

  -- An item is chosen or not by what its test says.
  abbrev pub IsChosen :
      (Item py read → Result WatermarkError Bool) → List (Item py read) → Item py read → Type 0
  IsChosen test out item = ((test item ≡ ok true) × In item out) ⊎ (test item ≡ ok false)

  select_cases :
      (test : Item py read → Result WatermarkError Bool) (item : Item py read)
      (items out : List (Item py read))
      → select py read test (item ∷ items) ≡ ok out
      → (rest : List (Item py read)) × (select py read test items ≡ ok rest)
        × (((test item ≡ ok true) × (item ∷ rest ≡ out)) ⊎ ((test item ≡ ok false) × (rest ≡ out)))
  unfolding select
  select_cases test item items out h =
      let (chosen, tested, h1) = >>=-eq-ok (test item) _ h in
      let (rest, others, h2) = >>=-eq-ok (select py read test items) _ h1 in
      (rest, others, by_choice chosen rest tested h2)
    where
      by_choice :
          (chosen : Bool) (rest : List (Item py read))
          → test item ≡ ok chosen
          → (let r : Result WatermarkError (List (Item py read)) =
                ok (if chosen then item ∷ rest else rest) in
              r)
            ≡ ok out
          → ((test item ≡ ok true) × (item ∷ rest ≡ out)) ⊎ ((test item ≡ ok false) × (rest ≡ out))
      by_choice true rest tested h = inl (tested, cc)
      by_choice false rest tested h = inr (tested, cc)

  pub select-IsChosen :
      (test : Item py read → Result WatermarkError Bool) (items out : List (Item py read))
      → select py read test items ≡ ok out
      → All (IsChosen test out) items
  select-IsChosen test [] out h = tt
  select-IsChosen test (item ∷ items) out h =
      let (rest, others, how) = select_cases test item items out h in
      let all = select-IsChosen test items rest others in
      elim how [
        | inl (taken, e) ↦
            subst (λ o. All (IsChosen test o) (item ∷ items)) e
              (
                inl (taken, inl refl),
                All-map (IsChosen test rest) (IsChosen test (item ∷ rest)) items
                    (λ i c. elim c [ inl (t, found) ↦ inl (t, inr found) | inr f ↦ inr f ]) all,
              )
        | inr (left, e) ↦ subst (λ o. All (IsChosen test o) (item ∷ items)) e (inr left, all)
      ]

  pub select-All :
      (P : Item py read → Type 0) (test : Item py read → Result WatermarkError Bool)
      (items out : List (Item py read))
      → select py read test items ≡ ok out
      → All P items
      → All P out
  unfolding select
  select-All P test [] out h ps = let e : [] ≡ out = cc in subst (All P) e tt
  select-All P test (item ∷ items) out h (p, ps) =
      let (rest, others, how) = select_cases test item items out h in
      let all = select-All P test items rest others ps in
      elim how [ inl (taken, e) ↦ subst (All P) e (p, all) | inr (left, e) ↦ subst (All P) e all ]

  pub select-IsSorted :
      (test : Item py read → Result WatermarkError Bool) (items out : List (Item py read))
      → select py read test items ≡ ok out
      → IsSorted py read weak items
      → IsSorted py read weak out
  unfolding select
  select-IsSorted test [] out h s = let e : [] ≡ out = cc in subst (IsSorted py read weak) e tt
  select-IsSorted test (item ∷ items) out h (lower, s) =
      let (rest, others, how) = select_cases test item items out h in
      let sorted = select-IsSorted test items rest others s in
      let lower' = select-All (λ i. Le py item.1 i.1) test items rest others lower in
      elim how [
        | inl (taken, e) ↦ subst (IsSorted py read weak) e (lower', sorted)
        | inr (left, e) ↦ subst (IsSorted py read weak) e sorted
      ]

  pub select_none :
      (test : Item py read → Result WatermarkError Bool) (items : List (Item py read))
      → All (λ i. test i ≡ ok false) items
      → select py read test items ≡ ok []
  unfolding select
  select_none test [] fs = refl
  select_none test (item ∷ items) (f, fs) = rw (f, select_none test items fs)
