-- ===== src/Planner/Winners.antt =====
-- Which overrides `_select_overrides` of metadata/config.py finds in one group, and in all of them.
use fabric_data_framework.Prelude.{
  ◌≤◌, ◌≡◌, refl, sym, ap, ◌∙◌, subst, ◌⊎◌, inl, inr, true, false, List, [], ◌∷◌, if◌then◌else◌,
  ◌==◌, ==_iff, list_eq, nat_eq, Text, all, All, All_at, In, ok, >>=-eq-ok, guard-ok, ok-inj, arith,
}
use fabric_data_framework.Prelude.Dict.{Dict}
use fabric_data_framework.Planner.Config.{override_conflict}
use fabric_data_framework.Planner.Grouping.{keep-In, In-keep}
use fabric_data_framework.Planner.Overrides.{
  OverrideValue, flag, number, value_of, same_value, RuntimeOverride, highest_precedence, newest,
  created_before, values_differ, winner, strongest, winners_of,
}

same_value-eq : (u v : OverrideValue) → same_value u v ≡ true → u ≡ v
same_value-eq (flag true) (flag true) h = refl
same_value-eq (flag true) (flag false) h = cc
same_value-eq (flag false) (flag true) h = cc
same_value-eq (flag false) (flag false) h = refl
same_value-eq (number m) (number n) h = ap number ((==_iff m n).0 h)
same_value-eq (flag true) (number n) h = cc
same_value-eq (flag false) (number n) h = cc
same_value-eq (number m) (flag b) h = cc

highest_precedence-le :
    (o : RuntimeOverride) (os : List RuntimeOverride)
    → In o os
    → o.precedence ≤ highest_precedence os
unfolding highest_precedence
highest_precedence-le o [] h = absurd h
highest_precedence-le o (p ∷ os) (inl e) =
    let same : p.precedence ≡ o.precedence = ap (λ q. q.precedence) e in ground arith
highest_precedence-le o (p ∷ os) (inr h) = let rest = highest_precedence-le o os h in ground arith

newest-In : (best : RuntimeOverride) (os : List RuntimeOverride) → In (newest best os) (best ∷ os)
unfolding newest
newest-In best [] = inl refl
newest-In best (o ∷ os) =
    let next = if created_before best o then o else best in
    let better : (next ≡ best) ⊎ (next ≡ o) = ground arith in
    elim (newest-In next os) [
      | inl e ↦ elim better [ inl old ↦ inl (sym old ∙ e) | inr new ↦ inr (inl (sym new ∙ e)) ]
      | inr there ↦ inr (inr there)
    ]

same_values :
    (v : OverrideValue) (os : List RuntimeOverride)
    → all (λ p. same_value v (value_of p.change)) os ≡ true
    → All (λ p. v ≡ value_of p.change) os
same_values v [] h = tt
same_values v (o ∷ os) h =
    (same_value-eq v (value_of o.change) (ground arith), same_values v os (ground arith))

-- The winner is one of the candidates, which all have its value.
winner-In :
    (os : List RuntimeOverride) (w : RuntimeOverride)
    → winner os ≡ ok w
    → In w os × ((o : RuntimeOverride) → In o os → value_of o.change ≡ value_of w.change)
unfolding winner
winner-In [] w h = cc
winner-In (first ∷ os) w h =
    let (agree, h1) = guard-ok (values_differ (first ∷ os)) override_conflict _ h in
    let found = subst (λ x. In x (first ∷ os)) (ok-inj _ _ h1) (newest-In first os) in
    let same : All (λ p. value_of first.change ≡ value_of p.change) (first ∷ os) =
      (refl, same_values (value_of first.change) os (ground arith)) in
    let value = λ (o : RuntimeOverride) (there : In o (first ∷ os)).
      All_at (λ p. value_of first.change ≡ value_of p.change) o (first ∷ os) same there in
    (found, λ o there. sym (value o there) ∙ value w found)

-- One of the candidates, of the highest precedence, with which those of that precedence agree.
pub record Wins (candidates : List RuntimeOverride) (w : RuntimeOverride) : Type 0 where
  pub member : In w candidates
  pub above : (o : RuntimeOverride) → In o candidates → o.precedence ≤ w.precedence
  pub agreed :
      (o : RuntimeOverride)
      → In o candidates
      → o.precedence ≡ w.precedence
      → value_of o.change ≡ value_of w.change

winner-Wins :
    (candidates : List RuntimeOverride) (w : RuntimeOverride)
    → winner (strongest candidates) ≡ ok w
    → Wins candidates w
winner-Wins candidates w h =
    let top = highest_precedence candidates in
    let (strong, value) = winner-In (strongest candidates) w h in
    let (member, is_top) = keep-In (λ o. o.precedence == top) w candidates strong in
    let level = (==_iff w.precedence top).0 is_top in
    record {
      member = member;
      above = λ o there.
          subst (λ n. o.precedence ≤ n) (sym level) (highest_precedence-le o candidates there);
      agreed = λ o there same. value o (
          In-keep (λ p. p.precedence == top) o candidates there
            ((==_iff o.precedence top).1 (same ∙ level)));
    }

module _ (Good : RuntimeOverride → Type 0) where
  -- Every override selected wins in a group.
  pub winners_of-All :
      (groups : Dict Text (List RuntimeOverride)) (selected : List RuntimeOverride)
      → winners_of groups ≡ ok selected
      → ((f : Text) (candidates : List RuntimeOverride) (w : RuntimeOverride)
          → In (f, candidates) groups
          → Wins candidates w
          → Good w)
      → All Good selected
  unfolding winners_of
  winners_of-All [] selected h good = let e : [] ≡ selected = ok-inj _ _ h in rw (← e) tt
  winners_of-All ((f, candidates) ∷ groups) selected h good =
      let (w, first, h1) = >>=-eq-ok (winner (strongest candidates)) _ h in
      let (rest, others, h2) = >>=-eq-ok (winners_of groups) _ h1 in
      subst (All Good) (ok-inj _ _ h2) (
        good f candidates w (inl refl) (winner-Wins candidates w first),
        winners_of-All groups rest others (λ g cs v there. good g cs v (inr there)),
      )

-- Every group has an override that wins in it.
pub winners_of_complete :
    (groups : Dict Text (List RuntimeOverride)) (selected : List RuntimeOverride) (f : Text)
    (candidates : List RuntimeOverride)
    → winners_of groups ≡ ok selected
    → In (f, candidates) groups
    → (w : RuntimeOverride) × In w selected × Wins candidates w
unfolding winners_of
winners_of_complete [] selected f candidates h there = absurd there
winners_of_complete ((g, cs) ∷ groups) selected f candidates h there =
    let (w, first, h1) = >>=-eq-ok (winner (strongest cs)) _ h in
    let (rest, others, h2) = >>=-eq-ok (winners_of groups) _ h1 in
    elim there [
      | inl e ↦
          let same : cs ≡ candidates = ap (λ p. p.1) e in
          (
            w,
            subst (In w) (ok-inj _ _ h2) (inl refl),
            subst (λ xs. Wins xs w) same (winner-Wins cs w first),
          )
      | inr deeper ↦
          let (v, found, wins) = winners_of_complete groups rest f candidates others deeper in
          (v, subst (In v) (ok-inj _ _ h2) (inr found), wins)
    ]
