-- ===== src/Planner/Governing.antt =====
-- `_select_overrides` of metadata/config.py: the overrides that govern a dataset.
use fabric_data_framework.Prelude.{
  ◌≤◌, ◌≡◌, refl, sym, ap, ◌∙◌, subst, inl, inr, true, not, List, [], ◌∷◌, ◌==◌, ==_iff, list_eq,
  nat_eq, Text, all, keep, All, All-map, All_at, All-In, In, Option-cases, ok, >>=-eq-ok, guard-ok,
  ok-inj, arith,
}
use fabric_data_framework.Prelude.Dict.{Dict, get}
use fabric_data_framework.Prelude.Sort.{sort_by, by_text, sort_with-All, In-sort_with}
use fabric_data_framework.Time.{DateTime}
use fabric_data_framework.Planner.Config.{wrong_target, DatasetConfig}
use fabric_data_framework.Planner.Grouping.{
  members, keep-In, In-keep, In-get, get-In, group_into, group_into-members,
  group_into-HasUniqueKeys,
}
use fabric_data_framework.Planner.Overrides.{
  value_of, RuntimeOverride, field_of, is_active, winners_of, select_overrides,
}
use fabric_data_framework.Planner.Winners.{Wins, winners_of-All, winners_of_complete}

-- No active override of the same field is stronger, and those as strong set the same value.
pub record Governs (at : DateTime) (s o : RuntimeOverride) : Type 0 where
  pub bound : is_active at o ≡ true → field_of o ≡ field_of s → o.precedence ≤ s.precedence
  pub agreed :
      is_active at o ≡ true
      → field_of o ≡ field_of s
      → o.precedence ≡ s.precedence
      → value_of o.change ≡ value_of s.change

-- An override in force: it is one of those given, for this dataset, active, and governs its field.
pub record IsInForce (config : DatasetConfig) (overrides : List RuntimeOverride) (at : DateTime)
    (s : RuntimeOverride) : Type 0 where
  pub given : In s overrides
  pub active : is_active at s ≡ true
  pub targeted : s.dataset_id ≡ config.dataset_id
  pub governs : All (Governs at s) overrides

module _ (config : DatasetConfig) (overrides : List RuntimeOverride) (at : DateTime)
    (targeted : (o : RuntimeOverride) → In o overrides → o.dataset_id ≡ config.dataset_id) where
  abbrev groups : Dict Text (List RuntimeOverride)
  groups = group_into field_of (keep (is_active at) overrides) []

  groups-members :
      (f : Text)
      → members (get f groups) ≡ keep (λ o. field_of o == f) (keep (is_active at) overrides)
  unfolding get
  groups-members f = group_into-members field_of (keep (is_active at) overrides) [] f

  group-eq :
      (f : Text) (candidates : List RuntimeOverride)
      → In (f, candidates) groups
      → candidates ≡ keep (λ o. field_of o == f) (keep (is_active at) overrides)
  group-eq f candidates h =
      let unique = group_into-HasUniqueKeys field_of (keep (is_active at) overrides) [] tt in
      ap members (sym (In-get f candidates groups unique h)) ∙ groups-members f

  -- The candidates of a field are the active overrides of it.
  In-group :
      (f : Text) (candidates : List RuntimeOverride) (o : RuntimeOverride)
      → In (f, candidates) groups
      → In o candidates
      → In o overrides × (is_active at o ≡ true) × (field_of o ≡ f)
  In-group f candidates o h there =
      let kept = subst (In o) (group-eq f candidates h) there in
      let (found, field) = keep-In (λ p. field_of p == f) o (keep (is_active at) overrides) kept in
      let (given, active) = keep-In (is_active at) o overrides found in
      (given, active, (==_iff (field_of o) f).0 field)

  group-In :
      (f : Text) (candidates : List RuntimeOverride) (o : RuntimeOverride)
      → In (f, candidates) groups
      → In o overrides
      → is_active at o ≡ true
      → field_of o ≡ f
      → In o candidates
  group-In f candidates o h given active field = subst (In o) (sym (group-eq f candidates h)) (
      In-keep (λ p. field_of p == f) o (keep (is_active at) overrides)
        (In-keep (is_active at) o overrides given active) ((==_iff (field_of o) f).1 field))

  Wins-IsInForce :
      (f : Text) (candidates : List RuntimeOverride) (w : RuntimeOverride)
      → In (f, candidates) groups
      → Wins candidates w
      → IsInForce config overrides at w
  Wins-IsInForce f candidates w h wins =
      let (given, active, field) = In-group f candidates w h wins.member in
      record {
        given = given;
        active = active;
        targeted = targeted w given;
        governs =
            All-map (λ o. In o overrides) (Governs at w) overrides
              (λ o there. record {
                bound = λ on same. wins.above o (group-In f candidates o h there on (same ∙ field));
                agreed = λ on same level.
                    wins.agreed o (group-In f candidates o h there on (same ∙ field)) level;
              })
              (All-In overrides);
      }

  -- Each active override has one in force for its field.
  field_has_winner :
      (selected : List RuntimeOverride) (o : RuntimeOverride)
      → winners_of groups ≡ ok selected
      → In o overrides
      → is_active at o ≡ true
      → (s : RuntimeOverride) × In s selected × (field_of s ≡ field_of o)
  field_has_winner selected o h given active =
      let f = field_of o in
      let there = subst (In o) (sym (groups-members f)) (
        In-keep (λ p. field_of p == f) o (keep (is_active at) overrides)
          (In-keep (is_active at) o overrides given active) ((==_iff f f).1 refl)) in
      elim (Option-cases (get f groups)) [
        | inl absent ↦ absurd (subst (λ found. In o (members found)) absent there)
        | inr (candidates, present) ↦
            let entry = get-In f candidates groups present in
            let (w, found, wins) = winners_of_complete groups selected f candidates h entry in
            (w, found, (In-group f candidates w entry wins.member).2)
      ]

all_targeted :
    (id : Text) (os : List RuntimeOverride)
    → all (λ o. o.dataset_id == id) os ≡ true
    → All (λ o. o.dataset_id ≡ id) os
all_targeted id [] h = tt
all_targeted id (o ∷ os) h =
    ((==_iff o.dataset_id id).0 (ground arith), all_targeted id os (ground arith))

-- Where the selection of the overrides of a dataset succeeds, each override selected is one of those
-- given, targets the dataset and is active at the time; no active override of its field has a higher
-- precedence, and those of the same precedence set the same value. For each active override, one of
-- its field is selected.
pub selected-IsInForce :
    (config : DatasetConfig) (overrides : List RuntimeOverride) (at : DateTime)
    (selected : List RuntimeOverride)
    → select_overrides config overrides at ≡ ok selected
    → All (IsInForce config overrides at) selected
      × All
          (λ o.
            is_active at o ≡ true
            → (s : RuntimeOverride) × In s selected × (field_of s ≡ field_of o))
          overrides
unfolding select_overrides
selected-IsInForce config overrides at selected h =
    let (fits, h1) =
      guard-ok (not (all (λ o. o.dataset_id == config.dataset_id) overrides)) wrong_target _ h in
    let (found, won, h2) =
      >>=-eq-ok (winners_of (group_into field_of (keep (is_active at) overrides) [])) _ h1 in
    let named : All (λ o. o.dataset_id ≡ config.dataset_id) overrides =
      all_targeted config.dataset_id overrides (ground arith) in
    let targeted = λ (o : RuntimeOverride) (there : In o overrides).
      All_at (λ p. p.dataset_id ≡ config.dataset_id) o overrides named there in
    let sorted : sort_by field_of found ≡ selected = ok-inj _ _ h2 in
    (
      subst (All (IsInForce config overrides at)) sorted (
          sort_with-All (by_text field_of) (IsInForce config overrides at) found (
            winners_of-All (IsInForce config overrides at) _ found won
              (Wins-IsInForce config overrides at targeted))),
      All-map (λ o. In o overrides) _ overrides
          (λ o there active.
            let (s, member, field) =
              field_has_winner config overrides at targeted found o won there active in
            (s, subst (In s) sorted (In-sort_with (by_text field_of) s found member), field))
          (All-In overrides),
    )
