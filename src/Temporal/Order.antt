-- ===== src/Temporal/Order.antt =====
-- quality/temporal.py: the comparison of positions in both directions, and the assessment.
use fabric_data_framework.Prelude.{
  ◌≡◌, refl, ◌↔◌, inl, inr, true, false, Option, some, List, [], ◌∷◌, ==_iff, nat_eq, Option-cases,
  ok, >>=-eq-ok, arith,
}
use fabric_data_framework.Time.{DateTime}
use fabric_data_framework.Values.{PyValue, tuple_lt}
use fabric_data_framework.Temporal.{
  stale, newer, earlier, compare_source_order, compare_event_time, TemporalAssessment,
  late_event_time, stale_source_position, assess_temporal,
}

module _ {V : Type 0} (py : PyValue V)
    (less_asym : (x y : V) → py.less x y ≡ some true → py.less y x ≡ some false) where
  tuple_lt_asym : (xs ys : List V) → tuple_lt py xs ys ≡ some true → tuple_lt py ys xs ≡ some false
  unfolding tuple_lt
  tuple_lt_asym [] [] h = ground arith
  tuple_lt_asym [] (y ∷ ys) h = refl
  tuple_lt_asym (x ∷ xs) [] h = ground arith
  tuple_lt_asym (x ∷ xs) (y ∷ ys) h =
      ground
        (arith, ==_iff ⦃e = py.eq⦄ x y, ==_iff ⦃e = py.eq⦄ y x, tuple_lt_asym xs ys, less_asym x y)

  -- The order of source positions reads the same in both directions, where `<` on values is
  -- asymmetric: a position is stale against another exactly where the other is newer against it.
  pub source_order_flips :
      (candidate current : List V)
      → (compare_source_order py candidate current ≡ ok stale)
        ↔ (compare_source_order py current candidate ≡ ok newer)
  unfolding compare_source_order
  source_order_flips [] [] = ground arith
  source_order_flips [] (y ∷ current) = ground arith
  source_order_flips (x ∷ candidate) [] = ground arith
  source_order_flips (x ∷ candidate) (y ∷ current) =
      let asym = tuple_lt_asym (x ∷ candidate) (y ∷ current) in
      elim (Option-cases (tuple_lt py (x ∷ candidate) (y ∷ current))) [
        | inl none_left ↦ ground arith
        | inr (left, l) ↦ elim (Option-cases (tuple_lt py (y ∷ current) (x ∷ candidate))) [
          | inl none_right ↦ ground arith
          | inr (right, r) ↦ ground arith
        ]
      ]

-- An assessment that is made agrees with its two relations: history is to be rewritten exactly where
-- the event is late, which is where a newer source position carries an earlier event time; and the
-- position is reported as stale exactly where its order is stale.
pub assessment_agrees :
    {V : Type 0} (py : PyValue V) (candidate current : List V)
    (candidate_time current_time : Option DateTime) (a : TemporalAssessment)
    → assess_temporal py candidate current candidate_time current_time ≡ ok a
    → (compare_source_order py candidate current ≡ ok a.source_order)
      × (compare_event_time candidate_time current_time ≡ ok a.event_time)
      × ((a.requires_history_rewrite ≡ true)
          ↔ ((a.source_order ≡ newer) × (a.event_time ≡ earlier)))
      × ((a.condition ≡ late_event_time) ↔ (a.requires_history_rewrite ≡ true))
      × ((a.condition ≡ stale_source_position) ↔ (a.source_order ≡ stale))
unfolding assess_temporal
assessment_agrees py candidate current candidate_time current_time a h =
    let (source, s, h1) = >>=-eq-ok (compare_source_order py candidate current) _ h in
    let (event, t, h2) = >>=-eq-ok (compare_event_time candidate_time current_time) _ h1 in
    ground arith
