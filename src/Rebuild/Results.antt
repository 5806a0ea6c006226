-- ===== src/Rebuild/Results.antt =====
-- What a rebuild impact plan promises, for any deployed datasets.
use fabric_data_framework.Prelude.{
  ◌≡◌, ◌↔◌, subst, ◌∙◌, ap, sym, true, Bool-cases, List, [], ◌∷◌, list_eq, nat_eq, Text, length,
  All-map, elem, unique, ok, ok-inj, arith,
}
use fabric_data_framework.Prelude.Dict.{Dict}
use fabric_data_framework.Recovery.Contract.{RebuildScope}
use fabric_data_framework.Planner.Config.{DatasetConfig}
use fabric_data_framework.Rebuild.Graph.{Graph, graph_of}
use fabric_data_framework.Rebuild.Build.{
  RepairIssueOrigin, RebuildImpactPlan, flatten, impact_ids, plan_valid, index_configs,
  downstream_descendants, roots_of, build_rebuild_impact_plan,
}
use fabric_data_framework.Rebuild.Impact.{build_waves}
use fabric_data_framework.Rebuild.Reach.{Descends, root, child, downstream_iff}
use fabric_data_framework.Rebuild.Waves.{MayRebuild, IsScheduled, build_waves-ok}
use fabric_data_framework.Rebuild.Planning.{
  Parts, plan-Parts, elem-roots_of, index_configs-HasUniqueKeys, graph_of-HasUniqueKeys,
}

Descends-same :
    (graph : Graph) (xs ys : List Text) (id : Text)
    → ((x : Text) → elem x xs ≡ elem x ys)
    → Descends graph xs id
    → Descends graph ys id
Descends-same graph xs ys _ same (root {id} m) = root (sym (same id) ∙ m)
Descends-same graph xs ys _ same (child {dependency} {id} d edge) =
    child (Descends-same graph xs ys dependency same d) edge

MayRebuild-same :
    (graph : Graph) (xs ys : List Text) (done : List Text) (id : Text)
    → ((x : Text) → elem x xs ≡ elem x ys)
    → MayRebuild graph xs done id
    → MayRebuild graph ys done id
MayRebuild-same graph xs ys done id same h = record {
  config = h.config;
  deployed = h.deployed;
  rebuilt = All-map _ _ h.config.dependencies (λ d needs m. needs (same d ∙ m)) h.rebuilt;
}

IsScheduled-same :
    (graph : Graph) (xs ys : List Text) (done : List Text) (waves : List (List Text))
    → ((x : Text) → elem x xs ≡ elem x ys)
    → IsScheduled graph xs done waves
    → IsScheduled graph ys done waves
IsScheduled-same graph xs ys done [] same h = tt
IsScheduled-same graph xs ys done (ids ∷ waves) same (first, rest) = (
  All-map _ _ ids (λ id may. MayRebuild-same graph xs ys done id same may) first,
  IsScheduled-same graph xs ys _ waves same rest,
)

unique_ids : (p : RebuildImpactPlan) → plan_valid p ≡ true → unique (impact_ids p.datasets) ≡ true
unique_ids p h = ground (arith, Bool-cases (unique (impact_ids p.datasets)))

module _ (configs : List DatasetConfig) (root_dataset_ids : List Text) (origin : RepairIssueOrigin)
    (overrides : Dict Text RebuildScope) (p : RebuildImpactPlan)
    (planned : build_rebuild_impact_plan configs root_dataset_ids origin overrides ≡ ok p)
    (by_id : Dict Text DatasetConfig) (indexed : index_configs configs [] ≡ ok by_id) where
  parts : Parts configs root_dataset_ids p
  parts = plan-Parts configs root_dataset_ids origin overrides p planned

  facts :
      (affected : List Text) × (downstream_descendants (graph_of by_id) (roots_of root_dataset_ids)
        ≡ ok affected)
      × (build_waves (length affected) (graph_of by_id) affected affected [] ≡ ok p.waves)
  facts =
      subst
        (λ b.
          (affected : List Text) × (downstream_descendants (graph_of b) (roots_of root_dataset_ids)
            ≡ ok affected)
          × (build_waves (length affected) (graph_of b) affected affected [] ≡ ok p.waves))
        (ok-inj parts.by_id by_id (sym parts.indexed ∙ indexed))
        (parts.affected, parts.found, parts.in_waves)

  elem-affected : (id : Text) → elem id (facts.0) ≡ elem id (impact_ids p.datasets)
  elem-affected id =
      let (affected, found, in_waves) = facts in
      let (scheduled, covers) = build_waves-ok (graph_of by_id) affected _ _ _ p.waves in_waves in
      sym (covers id) ∙ ap (λ xs. elem id xs) (sym parts.listed)

  -- The affected datasets of a plan that build_rebuild_impact_plan returns are exactly the roots and
  -- the datasets that depend on a root, directly or through others, by the deployed configurations
  -- that are indexed by_id.
  pub affected_iff :
      (id : Text)
      → (elem id (impact_ids p.datasets) ≡ true) ↔ Descends (graph_of by_id) root_dataset_ids id
  affected_iff id =
      let (affected, found, in_waves) = facts in
      let reached =
        downstream_iff (graph_of by_id) (roots_of root_dataset_ids) affected
          (graph_of-HasUniqueKeys by_id (index_configs-HasUniqueKeys configs [] by_id tt indexed))
          found id in
      let same_roots : (x : Text) → elem x (roots_of root_dataset_ids) ≡ elem x root_dataset_ids =
        λ x. elem-roots_of x root_dataset_ids in
      (
        λ m. Descends-same _ _ _ id same_roots (reached.0 (elem-affected id ∙ m)),
        λ d.
            sym (elem-affected id) ∙ reached.1 (Descends-same _ _ _ id (λ x. sym (same_roots x)) d),
      )

  -- The waves of a plan that build_rebuild_impact_plan returns hold each affected dataset, once, and
  -- each affected dependency of a dataset of a wave stands in an earlier wave.
  pub waves-IsScheduled :
      IsScheduled (graph_of by_id) (impact_ids p.datasets) [] p.waves
      × (flatten p.waves ≡ impact_ids p.datasets)
      × (unique (flatten p.waves) ≡ true)
  waves-IsScheduled =
      let (affected, found, in_waves) = facts in
      let (scheduled, covers) = build_waves-ok (graph_of by_id) affected _ _ _ p.waves in_waves in
      let once : unique (impact_ids p.datasets) ≡ true = unique_ids p parts.valid in
      (
        IsScheduled-same (graph_of by_id) affected (impact_ids p.datasets) [] p.waves elem-affected
            scheduled,
        sym parts.listed,
        subst (λ xs. unique xs ≡ true) parts.listed once,
      )
