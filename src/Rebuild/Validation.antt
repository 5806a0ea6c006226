-- ===== src/Rebuild/Validation.antt =====
-- `_validate_graph` of recovery/rebuild_impact.py and `_validate_dependency_graph` of
-- orchestration/planner.py are the same search, once every dependency is known to be deployed.
use fabric_data_framework.Prelude.{
  ℕ, zero, suc, ◌≡◌, ◌≢◌, refl, ◌∙◌, ap, true, Bool-cases, inl, inr, none, some, Option-cases, List,
  [], ◌∷◌, list_eq, nat_eq, ◌==◌, Text, length, All, elem, Result, Result-cases, ok, raise, ◌>>=◌,
  arith,
}
use fabric_data_framework.Prelude.Dict.{get}
use fabric_data_framework.Prelude.Sort.{sort_by}
use fabric_data_framework.Planner.Config.{OrchestrationPolicy, PlannerError, out_of_fuel}
use fabric_data_framework.Planner.Graph.{
  Marks, visit_each, visit, visit_all, check_deployed, dataset_ids, entered, left, no_marks,
  validate_dependency_graph,
}
use fabric_data_framework.Planner.Topology.{any_undeployed-All, check_deployed-All}
use fabric_data_framework.Planner.Depth.{check_deployed-enough, validation_terminates}
use fabric_data_framework.Rebuild.Graph.{
  Graph, visit_dependencies, visit_dataset, visit_datasets, validate_graph,
}

module _ (graph : Graph) where
  abbrev IsDeployed : Text → Type 0
  IsDeployed d = elem d (dataset_ids graph) ≡ true

  get-IsDeployed :
      (items : Graph) (d : Text) → elem d (dataset_ids items) ≡ true → get d items ≢ none
  unfolding get
  get-IsDeployed [] d h k = cc
  get-IsDeployed ((id, c) ∷ items) d h k =
      ground (arith, Bool-cases (id == d), get-IsDeployed items d)

  visit_dependencies-eq :
      (step step' : Text → Marks → Result PlannerError Marks)
      → ((d : Text) (m : Marks) → step d m ≡ step' d m)
      → (ds : List Text) (m : Marks) → All IsDeployed ds
      → visit_dependencies step ds m ≡ visit_each step' graph ds m
  unfolding visit_dependencies visit_each
  visit_dependencies-eq step step' same [] m h = refl
  visit_dependencies-eq step step' same (d ∷ ds) m (here, h) = elim (Option-cases (get d graph)) [
    | inl absent ↦ absurd (get-IsDeployed graph d here absent)
    | inr (config, there) ↦ elim (Result-cases (step' d m)) [
      | inl (m', e) ↦
          rw (there, visit_each, same d m, e) (visit_dependencies-eq step step' same ds m' h)
      | inr (error, e) ↦ rw (there, visit_each, same d m, e) refl
    ]
  ]

  module _
      (closed : (id : Text) (config : OrchestrationPolicy)
        → get id graph ≡ some config
        → All IsDeployed config.dependencies) where
    visit_dataset-eq :
        (n : ℕ) (id : Text) (m : Marks) → visit_dataset n graph id m ≡ visit n graph id m
    unfolding visit_dataset visit
    visit_dataset-eq zero id m = refl
    visit_dataset-eq (suc n) id m = elim (Bool-cases (elem id m.visited)) [
      | inl known ↦ rw known refl
      | inr new ↦ elim (Bool-cases (elem id m.visiting)) [
        | inl cyclic ↦ rw (new, cyclic) refl
        | inr open_now ↦ elim (Option-cases (get id graph)) [
          | inl absent ↦ rw (new, open_now, absent) refl
          | inr (config, here) ↦
              rw (new, open_now, here)
                (ap (λ r. r >>= λ done. ok (left id done))
                  (visit_dependencies-eq (visit_dataset n graph) (visit n graph)
                    (visit_dataset-eq n) config.dependencies (entered id m)
                    (closed id config here)))
        ]
      ]
    ]

    visit_datasets-eq :
        (n : ℕ) (ids : List Text) (m : Marks)
        → visit_datasets n graph ids m ≡ visit_all n graph ids m
    unfolding visit_datasets visit_all
    visit_datasets-eq n [] m = refl
    visit_datasets-eq n (id ∷ ids) m = elim (Result-cases (visit n graph id m)) [
      | inl (m', e) ↦ rw (visit_dataset-eq n id m, e) (visit_datasets-eq n ids m')
      | inr (error, e) ↦ rw (visit_dataset-eq n id m, e) refl
    ]

-- After the check of the dependencies the two validations agree.
pub validate_graph_lem :
    (graph : Graph)
    → check_deployed (dataset_ids graph) graph ≡ ok tt
    → validate_graph graph ≡ validate_dependency_graph graph (dataset_ids graph)
unfolding validate_graph validate_dependency_graph
validate_graph_lem graph h = rw h (
    visit_datasets-eq graph
      (λ id config here.
        any_undeployed-All graph (dataset_ids graph) config.dependencies
          (check_deployed-All (dataset_ids graph) graph id config h here).0)
      (suc (length graph)) (sort_by (λ id. id) (dataset_ids graph)) no_marks)

pub validate_graph-enough : (graph : Graph) → validate_graph graph ≢ raise out_of_fuel
unfolding validate_graph
validate_graph-enough graph = elim (Result-cases (check_deployed (dataset_ids graph) graph)) [
  | inl (u, checked) ↦
      rw (validate_graph_lem graph checked) (validation_terminates graph (dataset_ids graph))
  | inr (e, bad) ↦
      rw (validate_graph, bad)
        (λ k.
          let same : e ≡ out_of_fuel = cc in
          check_deployed-enough graph (dataset_ids graph) graph (bad ∙ ap raise same))
]
