-- ===== src/Rebuild/Planning.antt =====
-- What build_rebuild_impact_plan returns.
use fabric_data_framework.Prelude.{
  ◌≡◌, refl, subst, ◌∙◌, ap, true, inl, inr, Bool-cases, none, Option-cases, List, [], ◌∷◌, list_eq,
  nat_eq, ◌==◌, any, not, ==_iff, Text, map, length, elem, ok, raise, >>=-eq-ok, ok-inj, guard-ok,
  arith,
}
use fabric_data_framework.Prelude.Dict.{Dict, get, put, HasUniqueKeys, put-HasUniqueKeys}
use fabric_data_framework.Prelude.Sort.{elem-sort_with, by_text}
use fabric_data_framework.Planner.Schedule.{distinct}
use fabric_data_framework.Recovery.Contract.{RebuildScope}
use fabric_data_framework.Planner.Config.{DatasetConfig}
use fabric_data_framework.Rebuild.Graph.{
  validation_error, no_datasets, empty_roots, missing_roots, unknown_overrides, narrow_scope,
  graph_of, of_graph, validate_graph,
}
use fabric_data_framework.Rebuild.Impact.{build_waves}
use fabric_data_framework.Rebuild.Build.{
  RepairIssueOrigin, root_rebuild_scope, RebuildImpactDataset, RebuildImpactPlan, flatten,
  impact_ids, plan_valid, index_configs, downstream_descendants, impact_dataset, impact_datasets,
  checked, plan_impact, plan_waves, plan_roots, plan_indexed, plan_from, too_narrow, roots_of,
  build_rebuild_impact_plan,
}

pub elem-distinct : (x : Text) (xs : List Text) → elem x (distinct xs) ≡ elem x xs
unfolding distinct
elem-distinct x [] = refl
elem-distinct x (y ∷ ys) =
    ground (arith, elem-distinct x ys, ==_iff y x, Bool-cases (elem y (distinct ys)))

pub elem-roots_of : (x : Text) (xs : List Text) → elem x (roots_of xs) ≡ elem x xs
elem-roots_of x xs = elem-sort_with (by_text (λ i. i)) x (distinct xs) ∙ elem-distinct x xs

get-graph_of :
    (id : Text) (configs : Dict Text DatasetConfig)
    → get id configs ≡ none
    → get id (graph_of configs) ≡ none
unfolding get
get-graph_of id [] h = refl
get-graph_of id ((j, c) ∷ configs) h = ground (arith, get-graph_of id configs)

pub graph_of-HasUniqueKeys :
    (configs : Dict Text DatasetConfig) → HasUniqueKeys configs → HasUniqueKeys (graph_of configs)
graph_of-HasUniqueKeys [] u = tt
graph_of-HasUniqueKeys ((id, c) ∷ configs) (fresh, u) =
    (get-graph_of id configs fresh, graph_of-HasUniqueKeys configs u)

pub index_configs-HasUniqueKeys :
    (configs : List DatasetConfig) (start by_id : Dict Text DatasetConfig)
    → HasUniqueKeys start
    → index_configs configs start ≡ ok by_id
    → HasUniqueKeys by_id
unfolding index_configs
index_configs-HasUniqueKeys [] start by_id u h = let e : start ≡ by_id = cc in rw (← e) u
index_configs-HasUniqueKeys (c ∷ configs) start by_id u h =
    elim (Option-cases (get c.dataset_id start)) [
      | inl fresh ↦
          index_configs-HasUniqueKeys configs (put c.dataset_id c start) by_id
            (put-HasUniqueKeys c.dataset_id c start u) (rw (fresh, index_configs) at h)
      | inr (other, known) ↦ ground arith
    ]

impact_dataset-id :
    (by_id : Dict Text DatasetConfig) (roots : List Text) (scope : RebuildScope)
    (overrides : Dict Text RebuildScope) (id : Text) (dataset : RebuildImpactDataset)
    → impact_dataset by_id roots scope overrides id ≡ ok dataset
    → dataset.dataset_id ≡ id
unfolding impact_dataset
impact_dataset-id by_id roots scope overrides id dataset h = elim (Option-cases (get id by_id)) [
  | inl absent ↦ ground arith
  | inr (config, here) ↦ ground arith
]

impact_datasets-ids :
    (by_id : Dict Text DatasetConfig) (roots : List Text) (scope : RebuildScope)
    (overrides : Dict Text RebuildScope) (ids : List Text) (datasets : List RebuildImpactDataset)
    → impact_datasets by_id roots scope overrides ids ≡ ok datasets
    → impact_ids datasets ≡ ids
unfolding impact_datasets impact_dataset
impact_datasets-ids by_id roots scope overrides [] datasets h =
    let e : [] ≡ datasets = cc in rw (← e) refl
impact_datasets-ids by_id roots scope overrides (id ∷ ids) datasets h =
    let (first, made, h1) = >>=-eq-ok (impact_dataset by_id roots scope overrides id) _ h in
    let (rest, others, h2) = >>=-eq-ok (impact_datasets by_id roots scope overrides ids) _ h1 in
    let named : first.dataset_id ≡ id =
      impact_dataset-id by_id roots scope overrides id first made in
    let same : first ∷ rest ≡ datasets = ok-inj _ _ h2 in
    rw (← same, named)
      (ap (λ xs. id ∷ xs) (impact_datasets-ids by_id roots scope overrides ids rest others))

-- The stages of a plan that is returned.
pub record Parts (configs : List DatasetConfig) (roots : List Text) (p : RebuildImpactPlan)
    : Type 0 where
  pub by_id : Dict Text DatasetConfig
  pub indexed : index_configs configs [] ≡ ok by_id
  pub affected : List Text
  pub found : downstream_descendants (graph_of by_id) (roots_of roots) ≡ ok affected
  pub in_waves : build_waves (length affected) (graph_of by_id) affected affected [] ≡ ok p.waves
  pub listed : impact_ids p.datasets ≡ flatten p.waves
  pub valid : plan_valid p ≡ true

checked-ok : (q p : RebuildImpactPlan) → checked q ≡ ok p → (q ≡ p) × (plan_valid p ≡ true)
unfolding checked
checked-ok q p h = elim (Bool-cases (plan_valid q)) [
  | inl good ↦
      let e : q ≡ p = ok-inj q p (rw (good, checked) at h) in
      (e, subst (λ x. plan_valid x ≡ true) e good)
  | inr bad ↦ let k : raise validation_error ≡ ok p = (rw (bad, checked) at h) in cc
]

pub plan-Parts :
    (configs : List DatasetConfig) (roots : List Text) (origin : RepairIssueOrigin)
    (overrides : Dict Text RebuildScope) (p : RebuildImpactPlan)
    → build_rebuild_impact_plan configs roots origin overrides ≡ ok p
    → Parts configs roots p
unfolding build_rebuild_impact_plan plan_indexed plan_roots plan_impact plan_waves
plan-Parts configs roots origin overrides p h =
    let (by_id, indexed, h1) =
      >>=-eq-ok (index_configs configs []) (plan_indexed roots origin overrides) h in
    let (nonempty, h2) = guard-ok (length by_id == 0) no_datasets _ h1 in
    let (marks, validated, h3) =
      >>=-eq-ok (of_graph (validate_graph (graph_of by_id)))
        (plan_roots by_id (roots_of roots) origin overrides) h2 in
    let (some_roots, h4) = guard-ok (roots_of roots == []) empty_roots _ h3 in
    let (deployed, h5) =
      guard-ok (any (λ r. not (elem r (map (λ item. item.0) by_id))) (roots_of roots)) missing_roots
        _ h4 in
    let (affected, found, h6) =
      >>=-eq-ok (downstream_descendants (graph_of by_id) (roots_of roots))
        (plan_impact by_id (roots_of roots) origin overrides) h5 in
    let (known_overrides, h7) =
      guard-ok (any (λ item. not (elem item.0 affected)) overrides) unknown_overrides _ h6 in
    let (wide_enough, h8) =
      guard-ok (any (too_narrow overrides (root_rebuild_scope origin)) (roots_of roots))
        narrow_scope _ h7 in
    let (waves, in_waves, h9) =
      >>=-eq-ok (build_waves (length affected) (graph_of by_id) affected affected [])
        (plan_waves by_id (roots_of roots) origin overrides) h8 in
    let (datasets, made, h10) =
      >>=-eq-ok
        (impact_datasets by_id (roots_of roots) (root_rebuild_scope origin) overrides
          (flatten waves))
        (λ ds. checked (plan_from (roots_of roots) origin waves ds)) h9 in
    let (same, valid) = checked-ok (plan_from (roots_of roots) origin waves datasets) p h10 in
    record {
      by_id = by_id;
      indexed = indexed;
      affected = affected;
      found = found;
      in_waves =
          subst
            (λ x. build_waves (length affected) (graph_of by_id) affected affected [] ≡ ok x.waves)
            same in_waves;
      listed =
          subst (λ x. impact_ids x.datasets ≡ flatten x.waves) same
            (impact_datasets-ids by_id (roots_of roots) (root_rebuild_scope origin) overrides
              (flatten waves) datasets made);
      valid = valid;
    }
