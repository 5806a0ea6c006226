-- ===== src/Rebuild/Impact.antt =====
-- `_downstream_descendants` and `_build_waves` of recovery/rebuild_impact.py. Sets are lists; where
-- the source walks over a set it sorts it first.
use fabric_data_framework.Prelude.{
  ℕ, zero, suc, Bool, not, ◌||◌, none, some, List, [], ◌∷◌, ◌++◌, if◌then◌else◌, list_eq, nat_eq,
  Text, all, elem, keep, Result, ok, raise, ◌>>=◌,
}
use fabric_data_framework.Prelude.Dict.{Dict, get, put}
use fabric_data_framework.Prelude.Sort.{sort_by}
use fabric_data_framework.Planner.Config.{key_error, out_of_fuel}
use fabric_data_framework.Rebuild.Graph.{Graph, RebuildImpactError, not_orderable, graph_error}

abbrev pub Reverse : Type 0
Reverse = Dict Text (List Text)

abbrev pub add_member : Text → List Text → List Text
add_member x xs = if elem x xs then xs else x ∷ xs

-- `reverse.get(current, ())`
unfoldable pub children : Text → Reverse → List Text
children id reverse = elim (get id reverse) [ none ↦ [] | some ids ↦ ids ]

-- `reverse[dependency].add(dataset_id)` for each dependency
unfoldable pub add_child : Text → List Text → Reverse → Reverse
add_child id [] reverse = reverse
add_child id (dependency ∷ dependencies) reverse =
    add_child id dependencies (put dependency (add_member id (children dependency reverse)) reverse)

unfoldable pub reverse_from : Graph → Reverse → Reverse
reverse_from [] reverse = reverse
reverse_from ((id, config) ∷ graph) reverse =
    reverse_from graph (add_child id config.dependencies reverse)

-- The affected datasets and the queue.
pub record Search : Type 0 where
  pub affected : List Text
  pub queue : List Text

unfoldable pub offer : List Text → Search → Search
offer [] s = s
offer (child ∷ rest) s = offer rest (
    if elem child s.affected
    then s
    else record { affected = child ∷ s.affected; queue = s.queue ++ child ∷ [] })

-- `while queue`
unfoldable pub descend : ℕ → Reverse → Search → Result RebuildImpactError (List Text)
descend zero reverse s = elim s.queue [
  | [] ↦ ok s.affected
  | _ ∷ _ ↦ raise (graph_error out_of_fuel)
]
descend (suc n) reverse s = elim s.queue [
  | [] ↦ ok s.affected
  | current ∷ rest ↦
      descend n reverse
        (offer (sort_by (λ id. id) (children current reverse)) (record s { queue = rest }))
]

-- The test of the comprehension, in which a dataset that is not deployed is a KeyError.
unfoldable pub is_ready : Graph → List Text → List Text → Text → Result RebuildImpactError Bool
is_ready graph affected completed id = elim (get id graph) [
  | none ↦ raise (graph_error key_error)
  | some config ↦ ok (all (λ d. not (elem d affected) || elem d completed) config.dependencies)
]

unfoldable pub ready_among :
    Graph → List Text → List Text → List Text → Result RebuildImpactError (List Text)
ready_among graph affected completed [] = ok []
ready_among graph affected completed (id ∷ ids) = do
  ready ← is_ready graph affected completed id
  rest ← ready_among graph affected completed ids
  ok (if ready then id ∷ rest else rest)

-- `remaining.difference_update(ready)`
unfoldable pub without : List Text → List Text → List Text
without ids remaining = keep (λ id. not (elem id ids)) remaining

-- `while remaining`: a turn is given the rest of the loop.
unfoldable pub wave :
    List Text
    → (List Text → Result RebuildImpactError (List (List Text)))
    → Result RebuildImpactError (List (List Text))
wave [] rest = raise not_orderable
wave (id ∷ ids) rest = rest (id ∷ ids) >>= λ waves. ok ((id ∷ ids) ∷ waves)

unfoldable pub build_waves :
    ℕ → Graph → List Text → List Text → List Text → Result RebuildImpactError (List (List Text))
build_waves zero graph affected [] completed = ok []
build_waves zero graph affected (_ ∷ _) completed = raise (graph_error out_of_fuel)
build_waves (suc n) graph affected [] completed = ok []
build_waves (suc n) graph affected (id ∷ ids) completed =
    ready_among graph affected completed (id ∷ ids) >>= λ ready.
    wave (sort_by (λ x. x) ready) (λ wave_ids.
      build_waves n graph affected (without wave_ids (id ∷ ids)) (wave_ids ++ completed))
