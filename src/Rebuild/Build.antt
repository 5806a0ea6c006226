-- ===== src/Rebuild/Build.antt =====
-- build_rebuild_impact_plan of recovery/rebuild_impact.py with contracts/rebuild_impact.py.
use fabric_data_framework.Prelude.{
  ℕ, Bool, not, none, some, List, [], ◌∷◌, ◌++◌, ◌&&◌, map, if◌then◌else◌, ◌==◌, list_eq, nat_eq,
  ltb, Text, length, all, any, elem, keep, unique, Result, ok, raise, raise_if, ◌>>=◌, ◌>>◌,
}
use fabric_data_framework.Prelude.Dict.{Dict, get, put}
use fabric_data_framework.Prelude.Sort.{sort_by}
use fabric_data_framework.Planner.Config.{key_error}
use fabric_data_framework.Planner.Graph.{Marks}
use fabric_data_framework.Planner.Schedule.{distinct}
use fabric_data_framework.Recovery.Contract.{
  RebuildScope, target_only, capture_and_target, authoritative_reset,
}
use fabric_data_framework.Planner.Config.{DatasetConfig}
use fabric_data_framework.Rebuild.Graph.{
  RebuildImpactError, duplicate_dataset, no_datasets, empty_roots, missing_roots, unknown_overrides,
  narrow_scope, validation_error, graph_error, of_graph, Graph, graph_of, validate_graph,
}
use fabric_data_framework.Rebuild.Impact.{reverse_from, descend, build_waves}

pub data RepairIssueOrigin : Type 0 where
  target_logic capture_data capture_semantics : RepairIssueOrigin

unfoldable pub root_rebuild_scope : RepairIssueOrigin → RebuildScope
root_rebuild_scope target_logic = target_only
root_rebuild_scope capture_data = capture_and_target
root_rebuild_scope capture_semantics = authoritative_reset

abbrev pub scope_rank : RebuildScope → ℕ
scope_rank target_only = 1
scope_rank capture_and_target = 2
scope_rank authoritative_reset = 3

pub record RebuildImpactDataset : Type 0 where
  pub dataset_id : Text
  pub target_layer : Text
  pub enabled : Bool
  pub is_root : Bool
  pub rebuild_scope : RebuildScope

pub record RebuildImpactPlan : Type 0 where
  pub issue_origin : RepairIssueOrigin
  pub root_dataset_ids : List Text
  pub datasets : List RebuildImpactDataset
  pub waves : List (List Text)
  pub disabled_affected_dataset_ids : List Text

abbrev pub flatten : List (List Text) → List Text
flatten [] = []
flatten (wave ∷ waves) = wave ++ flatten waves

abbrev pub impact_ids : List RebuildImpactDataset → List Text
impact_ids datasets = map (λ d. d.dataset_id) datasets

abbrev subset : List Text → List Text → Bool
subset xs ys = all (λ x. elem x ys) xs

-- `validate_plan`
abbrev pub plan_valid : RebuildImpactPlan → Bool
plan_valid p =
    not (p.root_dataset_ids == [])
    && unique p.root_dataset_ids
    && unique (impact_ids p.datasets)
    && subset p.root_dataset_ids (impact_ids p.datasets)
    && subset (flatten p.waves) (impact_ids p.datasets)
    && subset (impact_ids p.datasets) (flatten p.waves)
    && length (flatten p.waves) == length (impact_ids p.datasets)

-- The loop that fills `by_id`.
unfoldable pub index_configs :
    List DatasetConfig
    → Dict Text DatasetConfig
    → Result RebuildImpactError (Dict Text DatasetConfig)
index_configs [] by_id = ok by_id
index_configs (config ∷ configs) by_id = elim (get config.dataset_id by_id) [
  | none ↦ index_configs configs (put config.dataset_id config by_id)
  | some other ↦ raise duplicate_dataset
]

-- `_downstream_descendants`; a dataset enters the queue once, so that one turn for each is enough.
unfoldable pub downstream_descendants : Graph → List Text → Result RebuildImpactError (List Text)
downstream_descendants graph roots =
    descend (length graph) (reverse_from graph [])
      (record { affected = roots; queue = sort_by (λ id. id) roots })

abbrev pub override_of : Dict Text RebuildScope → Text → RebuildScope → RebuildScope
override_of overrides id other = elim (get id overrides) [ none ↦ other | some scope ↦ scope ]

abbrev pub too_narrow : Dict Text RebuildScope → RebuildScope → Text → Bool
too_narrow overrides required root =
    ltb (scope_rank (override_of overrides root required)) (scope_rank required)

module _ (by_id : Dict Text DatasetConfig) (roots : List Text) (root_scope : RebuildScope)
    (overrides : Dict Text RebuildScope) where
  unfoldable pub impact_dataset : Text → Result RebuildImpactError RebuildImpactDataset
  impact_dataset id = elim (get id by_id) [
    | none ↦ raise (graph_error key_error)
    | some config ↦ ok (record {
      dataset_id = id;
      target_layer = config.layer;
      enabled = config.enabled;
      is_root = elem id roots;
      rebuild_scope = override_of overrides id (if elem id roots then root_scope else target_only);
    })
  ]

  unfoldable pub impact_datasets : List Text → Result RebuildImpactError (List RebuildImpactDataset)
  impact_datasets [] = ok []
  impact_datasets (id ∷ ids) = do
    first ← impact_dataset id
    rest ← impact_datasets ids
    ok (first ∷ rest)

unfoldable pub checked : RebuildImpactPlan → Result RebuildImpactError RebuildImpactPlan
checked p = if plan_valid p then ok p else raise validation_error

abbrev pub plan_from :
    List Text → RepairIssueOrigin → List (List Text) → List RebuildImpactDataset → RebuildImpactPlan
plan_from roots origin waves datasets = record {
  issue_origin = origin;
  root_dataset_ids = roots;
  datasets = datasets;
  waves = waves;
  disabled_affected_dataset_ids = impact_ids (keep (λ d. not d.enabled) datasets);
}

module _ (by_id : Dict Text DatasetConfig) (roots : List Text) (origin : RepairIssueOrigin)
    (overrides : Dict Text RebuildScope) where
  unfoldable pub plan_waves : List (List Text) → Result RebuildImpactError RebuildImpactPlan
  plan_waves waves =
      impact_datasets by_id roots (root_rebuild_scope origin) overrides (flatten waves)
      >>= λ datasets. checked (plan_from roots origin waves datasets)

  -- From the affected datasets on.
  unfoldable pub plan_impact : List Text → Result RebuildImpactError RebuildImpactPlan
  plan_impact affected =
      raise_if (any (λ item. not (elem item.0 affected)) overrides) unknown_overrides
      >> (raise_if (any (too_narrow overrides (root_rebuild_scope origin)) roots) narrow_scope
          >> (build_waves (length affected) (graph_of by_id) affected affected [] >>= plan_waves))

  -- From the validated graph on.
  unfoldable pub plan_roots : Marks → Result RebuildImpactError RebuildImpactPlan
  plan_roots marks =
      raise_if (roots == []) empty_roots
      >> (raise_if (any (λ root. not (elem root (map (λ item. item.0) by_id))) roots) missing_roots
          >> (downstream_descendants (graph_of by_id) roots >>= plan_impact))

abbrev pub roots_of : List Text → List Text
roots_of ids = sort_by (λ id. id) (distinct ids)

-- From the filled `by_id` on.
unfoldable pub plan_indexed :
    List Text
    → RepairIssueOrigin
    → Dict Text RebuildScope
    → Dict Text DatasetConfig
    → Result RebuildImpactError RebuildImpactPlan
plan_indexed root_dataset_ids origin overrides by_id =
    raise_if (length by_id == 0) no_datasets
    >> (of_graph (validate_graph (graph_of by_id))
        >>= plan_roots by_id (roots_of root_dataset_ids) origin overrides)

unfoldable pub build_rebuild_impact_plan :
    List DatasetConfig
    → List Text
    → RepairIssueOrigin
    → Dict Text RebuildScope
    → Result RebuildImpactError RebuildImpactPlan
build_rebuild_impact_plan configs root_dataset_ids origin overrides =
    index_configs configs [] >>= plan_indexed root_dataset_ids origin overrides
