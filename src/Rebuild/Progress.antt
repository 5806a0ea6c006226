-- ===== src/Rebuild/Progress.antt =====
-- The planning of a rebuild ends: none of its loops runs out of the fuel that the model gives it.
use fabric_data_framework.Prelude.{
  ◌+◌, ◌≤◌, ◌≡◌, ◌≢◌, refl, ◌∙◌, Bool, true, false, not, any, inl, inr, Bool-cases, Option-cases,
  List, [], ◌∷◌, list_eq, nat_eq, ◌==◌, ==_iff, ==_refl, Text, map, length, elem, Result, ok, raise,
  >>=-ne-raise, guard-ne, raise_if, ◌>>◌, ◌>>=◌, arith,
}
use fabric_data_framework.Prelude.Dict.{Dict, get, put, HasUniqueKeys}
use fabric_data_framework.Prelude.Sort.{length-sort_with, elem-sort_with, by_text}
use fabric_data_framework.Planner.Config.{PlannerError, out_of_fuel}
use fabric_data_framework.Planner.Depth.{free, free-≤, free-entered}
use fabric_data_framework.Planner.Schedule.{distinct}
use fabric_data_framework.Planner.Graph.{Marks}
use fabric_data_framework.Recovery.Contract.{RebuildScope}
use fabric_data_framework.Planner.Config.{DatasetConfig}
use fabric_data_framework.Rebuild.Graph.{
  RebuildImpactError, graph_error, unknown_overrides, narrow_scope, no_datasets, empty_roots,
  missing_roots, Graph, graph_of, of_graph, validate_graph,
}
use fabric_data_framework.Rebuild.Impact.{build_waves}
use fabric_data_framework.Rebuild.Build.{
  RepairIssueOrigin, RebuildImpactPlan, flatten, plan_valid, index_configs, downstream_descendants,
  impact_dataset, impact_datasets, checked, too_narrow, plan_from, plan_waves, plan_impact,
  plan_roots, plan_indexed, roots_of, root_rebuild_scope, build_rebuild_impact_plan,
}
use fabric_data_framework.Rebuild.Termination.{Deployed, descend-enough}
use fabric_data_framework.Rebuild.Waves.{build_waves-enough}
use fabric_data_framework.Rebuild.Validation.{validate_graph-enough}
use fabric_data_framework.Rebuild.Planning.{
  elem-roots_of, index_configs-HasUniqueKeys, graph_of-HasUniqueKeys,
}

abbrev exhausted : RebuildImpactError
exhausted = graph_error out_of_fuel

free-same :
    (xs ys : List Text) (graph : Graph)
    → ((x : Text) → elem x xs ≡ elem x ys)
    → free xs graph ≡ free ys graph
free-same xs ys [] same = refl
free-same xs ys ((id, c) ∷ graph) same = ground (arith, same id, free-same xs ys graph same)

distinct-work :
    (graph : Graph) (xs : List Text)
    → ((v : Text) → elem v xs ≡ true → Deployed graph v)
    → free (distinct xs) graph + length (distinct xs) ≤ length graph
unfolding distinct
distinct-work graph [] d = omega (arith, free-≤ [] graph)
distinct-work graph (x ∷ xs) d =
    let rest : (v : Text) → elem v xs ≡ true → Deployed graph v = λ v m. d v (ground (arith, m)) in
    elim (Bool-cases (elem x (distinct xs))) [
      | inl old ↦ rw (old, distinct) (distinct-work graph xs rest)
      | inr new ↦
          let (config, here) = d x (ground (arith, ==_refl x)) in
          rw (new, distinct)
            (omega (
              arith,
              distinct-work graph xs rest,
              free-entered x config (distinct xs) graph here new,
            ))
    ]

any-false :
    (p : Text → Bool) (xs : List Text) (x : Text)
    → any p xs ≡ false
    → elem x xs ≡ true
    → p x ≡ false
any-false p [] x h m = cc
any-false p (y ∷ ys) x h m = elim (Bool-cases (y == x)) [
  | inl same ↦ let e : y ≡ x = (==_iff y x).0 same in rw (← e) (ground (arith, Bool-cases (p y)))
  | inr other ↦ any-false p ys x (ground (arith, Bool-cases (p y))) (rw other at m)
]

key-Deployed :
    (configs : Dict Text DatasetConfig) (x : Text)
    → elem x (map (λ item. item.0) configs) ≡ true
    → Deployed (graph_of configs) x
unfolding get
key-Deployed [] x h = cc
key-Deployed ((id, c) ∷ configs) x h = elim (Bool-cases (id == x)) [
  | inl same ↦ (c.orchestration, ground arith)
  | inr other ↦
      let (config, here) = key-Deployed configs x (rw other at h) in (config, ground arith)
]

-- The search from the roots, which are deployed.
search-enough :
    (configs : Dict Text DatasetConfig) (root_dataset_ids : List Text)
    → HasUniqueKeys configs
    → any (λ r. not (elem r (map (λ item. item.0) configs))) (roots_of root_dataset_ids) ≡ false
    → downstream_descendants (graph_of configs) (roots_of root_dataset_ids) ≢ raise exhausted
unfolding downstream_descendants
search-enough configs ids u deployed =
    let graph = graph_of configs in
    let sorted : (x : Text) → elem x (roots_of ids) ≡ elem x (distinct ids) =
      λ x. elem-sort_with (by_text (λ i. i)) x (distinct ids) in
    let known : (v : Text) → elem v ids ≡ true → Deployed graph v = λ v m. key-Deployed configs v (
      ground (
        arith,
        any-false (λ r. not (elem r (map (λ item. item.0) configs))) (roots_of ids) v deployed
            (elem-roots_of v ids ∙ m),
      )) in
    descend-enough graph (length graph) _ (graph_of-HasUniqueKeys configs u) (
      omega (
        arith,
        distinct-work graph ids known,
        free-same (roots_of ids) (distinct ids) graph sorted,
        length-sort_with (by_text (λ i. i)) (roots_of ids),
        length-sort_with (by_text (λ i. i)) (distinct ids),
      ))

index_configs-enough :
    (configs : List DatasetConfig) (start : Dict Text DatasetConfig)
    → index_configs configs start ≢ raise exhausted
unfolding index_configs
index_configs-enough [] start h = cc
index_configs-enough (c ∷ configs) start h = elim (Option-cases (get c.dataset_id start)) [
  | inl fresh ↦
      index_configs-enough configs (put c.dataset_id c start) (rw (fresh, index_configs) at h)
  | inr (other, known) ↦ ground arith
]

of_graph-enough :
    {A : Type 0} (r : Result PlannerError A) → r ≢ raise out_of_fuel → of_graph r ≢ raise exhausted
of_graph-enough (ok a) n h = cc
of_graph-enough (raise e) n h = n cc

module _ (by_id : Dict Text DatasetConfig) (roots : List Text) (origin : RepairIssueOrigin)
    (overrides : Dict Text RebuildScope) where
  impact_dataset-enough :
      (scope : RebuildScope) (id : Text)
      → impact_dataset by_id roots scope overrides id ≢ raise exhausted
  unfolding impact_dataset
  impact_dataset-enough scope id h = elim (Option-cases (get id by_id)) [
    | inl absent ↦ ground arith
    | inr (config, here) ↦ ground arith
  ]

  impact_datasets-enough :
      (scope : RebuildScope) (ids : List Text)
      → impact_datasets by_id roots scope overrides ids ≢ raise exhausted
  unfolding impact_datasets impact_dataset
  impact_datasets-enough scope [] h = cc
  impact_datasets-enough scope (id ∷ ids) h =
      >>=-ne-raise (impact_dataset by_id roots scope overrides id) _ _
        (impact_dataset-enough scope id)
        (λ first _.
          >>=-ne-raise (impact_datasets by_id roots scope overrides ids) _ _
            (impact_datasets-enough scope ids) (λ rest _ bad. cc))
        h

  checked-enough : (p : RebuildImpactPlan) → checked p ≢ raise exhausted
  unfolding checked
  checked-enough p h = ground (arith, Bool-cases (plan_valid p))

  plan_impact-enough :
      (affected : List Text) → plan_impact by_id roots origin overrides affected ≢ raise exhausted
  unfolding plan_impact plan_waves
  plan_impact-enough affected =
      let built = build_waves (length affected) (graph_of by_id) affected affected [] in
      let narrow = any (too_narrow overrides (root_rebuild_scope origin)) roots in
      guard-ne (any (λ item. not (elem item.0 affected)) overrides) unknown_overrides exhausted
        (raise_if narrow narrow_scope >> (built >>= plan_waves by_id roots origin overrides))
        (λ h. cc)
        (λ _.
          guard-ne narrow narrow_scope exhausted (built >>= plan_waves by_id roots origin overrides)
            (λ h. cc)
            (λ _.
              >>=-ne-raise built (plan_waves by_id roots origin overrides) exhausted
                (build_waves-enough (graph_of by_id) affected (length affected) affected []
                  (omega arith))
                (λ waves _.
                  >>=-ne-raise
                    (impact_datasets by_id roots (root_rebuild_scope origin) overrides
                      (flatten waves))
                    (λ datasets. checked (plan_from roots origin waves datasets)) exhausted
                    (impact_datasets-enough (root_rebuild_scope origin) (flatten waves))
                    (λ datasets _. checked-enough (plan_from roots origin waves datasets)))))

  plan_roots-enough :
      (marks : Marks)
      → (any (λ r. not (elem r (map (λ item. item.0) by_id))) roots ≡ false
          → downstream_descendants (graph_of by_id) roots ≢ raise exhausted)
      → plan_roots by_id roots origin overrides marks ≢ raise exhausted
  unfolding plan_roots
  plan_roots-enough marks search =
      let found =
        downstream_descendants (graph_of by_id) roots
        >>= plan_impact by_id roots origin overrides in
      let absent = any (λ r. not (elem r (map (λ item. item.0) by_id))) roots in
      guard-ne (roots == []) empty_roots exhausted (raise_if absent missing_roots >> found)
        (λ h. cc)
        (λ _.
          guard-ne absent missing_roots exhausted found (λ h. cc)
            (λ deployed.
              >>=-ne-raise (downstream_descendants (graph_of by_id) roots)
                (plan_impact by_id roots origin overrides) exhausted (search deployed)
                (λ affected _. plan_impact-enough affected)))

-- build_rebuild_impact_plan always ends with a plan or with one of its errors, on cyclic
-- configurations too: neither the depth of its validation, nor its search through the dependents,
-- nor the loop over the waves runs out of fuel.
pub planning_terminates :
    (configs : List DatasetConfig) (root_dataset_ids : List Text) (origin : RepairIssueOrigin)
    (overrides : Dict Text RebuildScope)
    → build_rebuild_impact_plan configs root_dataset_ids origin overrides
      ≢ raise (graph_error out_of_fuel)
unfolding build_rebuild_impact_plan plan_indexed
planning_terminates configs ids origin overrides =
    >>=-ne-raise (index_configs configs []) (plan_indexed ids origin overrides) exhausted
      (index_configs-enough configs [])
      (λ by_id indexed.
        let validated = of_graph (validate_graph (graph_of by_id)) in
        guard-ne (length by_id == 0) no_datasets exhausted
          (validated >>= plan_roots by_id (roots_of ids) origin overrides) (λ h. cc)
          (λ _.
            >>=-ne-raise validated (plan_roots by_id (roots_of ids) origin overrides) exhausted
              (of_graph-enough (validate_graph (graph_of by_id))
                (validate_graph-enough (graph_of by_id)))
              (λ marks _. plan_roots-enough by_id (roots_of ids) origin overrides marks (
                search-enough by_id ids
                  (index_configs-HasUniqueKeys configs [] by_id tt indexed)))))
