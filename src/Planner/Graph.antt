-- ===== src/Planner/Graph.antt =====
-- `_validate_dependency_graph` of orchestration/planner.py. The sets `visiting` and `visited` are
-- lists, the newest member first; the depth of the recursion is bounded by fuel.
use fabric_data_framework.Prelude.{
  ℕ, zero, suc, Bool, true, false, not, none, some, List, [], ◌∷◌, map, if◌then◌else◌, ◌==◌,
  list_eq, nat_eq, Text, length, elem, keep, Result, ok, raise, ◌>>=◌, ◌>>◌, raise_if,
}
use fabric_data_framework.Prelude.Dict.{Dict, get}
use fabric_data_framework.Prelude.Sort.{sort_by}
use fabric_data_framework.Planner.Config.{
  OrchestrationPolicy, PlannerError, undeployed_dependency, dependency_cycle, key_error,
  out_of_fuel,
}

pub record Marks : Type 0 where
  pub visiting : List Text
  pub visited : List Text

-- `visiting.remove(dataset_id)`
unfoldable pub discard : Text → List Text → List Text
discard id ids = keep (λ x. not (x == id)) ids

-- The loop over the dependencies, which visits those that are selected.
unfoldable pub visit_each :
    (Text → Marks → Result PlannerError Marks)
    → Dict Text OrchestrationPolicy
    → List Text
    → Marks
    → Result PlannerError Marks
visit_each step selected [] m = ok m
visit_each step selected (dependency ∷ dependencies) m = elim (get dependency selected) [
  | none ↦ visit_each step selected dependencies m
  | some config ↦ step dependency m >>= visit_each step selected dependencies
]

abbrev pub entered : Text → Marks → Marks
entered id m = record m { visiting = id ∷ m.visiting }

abbrev pub left : Text → Marks → Marks
left id m = record { visiting = discard id m.visiting; visited = id ∷ m.visited }

unfoldable pub visit : ℕ → Dict Text OrchestrationPolicy → Text → Marks → Result PlannerError Marks
visit zero selected id m = raise out_of_fuel
visit (suc n) selected id m =
    if elem id m.visited
    then ok m
    else if elem id m.visiting
    then raise dependency_cycle
    else elim (get id selected) [
      | none ↦ raise key_error
      | some config ↦
          visit_each (visit n selected) selected config.dependencies (entered id m) >>= λ done.
          ok (left id done)
    ]

unfoldable pub visit_all :
    ℕ → Dict Text OrchestrationPolicy → List Text → Marks → Result PlannerError Marks
visit_all n selected [] m = ok m
visit_all n selected (id ∷ ids) m = visit n selected id m >>= visit_all n selected ids

abbrev pub any_undeployed : List Text → List Text → Bool
any_undeployed deployed [] = false
any_undeployed deployed (d ∷ ds) = if elem d deployed then any_undeployed deployed ds else true

unfoldable pub check_deployed : List Text → Dict Text OrchestrationPolicy → Result PlannerError Unit
check_deployed deployed [] = ok tt
check_deployed deployed ((id, config) ∷ selected) =
    raise_if (any_undeployed deployed config.dependencies) undeployed_dependency
    >> check_deployed deployed selected

abbrev pub no_marks : Marks
no_marks = record { visiting = []; visited = [] }

abbrev pub dataset_ids : Dict Text OrchestrationPolicy → List Text
dataset_ids selected = map (λ item. item.0) selected

-- The order of the visits is returned; the source keeps it in `visited` alone.
unfoldable pub validate_dependency_graph :
    Dict Text OrchestrationPolicy → List Text → Result PlannerError Marks
validate_dependency_graph selected deployed =
    check_deployed deployed selected
    >> visit_all (suc (length selected)) selected (sort_by (λ id. id) (dataset_ids selected))
        no_marks
