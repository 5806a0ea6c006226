-- ===== src/Rebuild/Graph.antt =====
-- The deployed datasets, and `_validate_graph` of recovery/rebuild_impact.py. The sets `visiting` and
-- `visited` are lists, as in Planner/Graph; the depth of the recursion is bounded by fuel.
use fabric_data_framework.Prelude.{
  ℕ, zero, suc, none, some, List, [], ◌∷◌, map, if◌then◌else◌, list_eq, nat_eq, Text, length, elem,
  Result, ok, raise, ◌>>=◌, ◌>>◌,
}
use fabric_data_framework.Prelude.Dict.{Dict, get}
use fabric_data_framework.Prelude.Sort.{sort_by}
use fabric_data_framework.Planner.Config.{
  OrchestrationPolicy, DatasetConfig, PlannerError, dependency_cycle, key_error, out_of_fuel,
}
use fabric_data_framework.Planner.Graph.{
  Marks, entered, left, no_marks, check_deployed, dataset_ids,
}

pub data RebuildImpactError : Type 0 where
  duplicate_dataset no_datasets empty_roots missing_roots unknown_overrides narrow_scope
        not_orderable validation_error :
      RebuildImpactError
  graph_error : PlannerError → RebuildImpactError

-- What the graph's functions raise, among the errors of the planning.
abbrev pub of_graph : {A : Type 0} → Result PlannerError A → Result RebuildImpactError A
of_graph (raise e) = raise (graph_error e)
of_graph (ok a) = ok a

abbrev pub Graph : Type 0
Graph = Dict Text OrchestrationPolicy

-- The dependencies of each deployed dataset.
abbrev pub graph_of : Dict Text DatasetConfig → Graph
graph_of configs = map (λ item. (item.0, item.1.orchestration)) configs

abbrev pub check_dependencies : Graph → Result PlannerError Unit
check_dependencies graph = check_deployed (dataset_ids graph) graph

unfoldable pub visit_dependencies :
    (Text → Marks → Result PlannerError Marks) → List Text → Marks → Result PlannerError Marks
visit_dependencies step [] m = ok m
visit_dependencies step (d ∷ ds) m = step d m >>= visit_dependencies step ds

unfoldable pub visit_dataset : ℕ → Graph → Text → Marks → Result PlannerError Marks
visit_dataset zero graph id m = raise out_of_fuel
visit_dataset (suc n) graph id m =
    if elem id m.visited
    then ok m
    else if elem id m.visiting
    then raise dependency_cycle
    else elim (get id graph) [
      | none ↦ raise key_error
      | some config ↦
          visit_dependencies (visit_dataset n graph) config.dependencies (entered id m) >>= λ done.
          ok (left id done)
    ]

unfoldable pub visit_datasets : ℕ → Graph → List Text → Marks → Result PlannerError Marks
visit_datasets n graph [] m = ok m
visit_datasets n graph (id ∷ ids) m = visit_dataset n graph id m >>= visit_datasets n graph ids

unfoldable pub validate_graph : Graph → Result PlannerError Marks
validate_graph graph =
    check_dependencies graph
    >> visit_datasets (suc (length graph)) graph (sort_by (λ id. id) (dataset_ids graph)) no_marks
