-- ===== src/Planner/Overrides.antt =====
-- The runtime overrides of metadata/config.py: which of them are in force, and what they change. The
-- value of an override has the type of its field (`validate_override`), so that field and value are
-- one change here. The hash of a configuration is a parameter, with hashlib and json behind it.
use fabric_data_framework.Prelude.{
  ℕ, Bool, true, false, not, ◌&&◌, ◌||◌, Option, none, some, List, [], ◌∷◌, map, if◌then◌else◌, ltb,
  leb, ◌==◌, nat_eq, list_eq, Text, text, keep, all, Result, ok, raise, ◌>>=◌, ◌>>◌, raise_if,
}
use fabric_data_framework.Prelude.Dict.{Dict}
use fabric_data_framework.Prelude.Sort.{sort_by}
use fabric_data_framework.Prelude.Order.{lex_lt}
use fabric_data_framework.Time.{DateTime, is_aware, instant}
use fabric_data_framework.Planner.Config.{
  PlannerError, naive_time, wrong_target, override_conflict, no_watermark, empty_sequence,
  DatasetConfig, EffectiveDatasetConfig,
}
use fabric_data_framework.Planner.Grouping.{group_into}

-- OverrideField, each with the value that it takes.
pub data OverrideChange : Type 0 where
  enabled data_quality_enabled quarantine_enabled : Bool → OverrideChange
  priority retry_count timeout_seconds batch_size max_concurrency : ℕ → OverrideChange
  watermark_overlap_seconds : ℕ → OverrideChange

-- `field.value`
abbrev pub field_value : OverrideChange → Text
field_value (enabled _) = text "enabled"
field_value (priority _) = text "orchestration.priority"
field_value (retry_count _) = text "orchestration.retry_count"
field_value (timeout_seconds _) = text "orchestration.timeout_seconds"
field_value (batch_size _) = text "orchestration.batch_size"
field_value (max_concurrency _) = text "orchestration.max_concurrency"
field_value (watermark_overlap_seconds _) = text "load.watermark.overlap_window_seconds"
field_value (data_quality_enabled _) = text "quality.enabled"
field_value (quarantine_enabled _) = text "quality.quarantine_enabled"

-- A value as JSON, which tells the Booleans from the numbers.
pub data OverrideValue : Type 0 where
  flag : Bool → OverrideValue
  number : ℕ → OverrideValue

abbrev pub value_of : OverrideChange → OverrideValue
value_of (enabled b) = flag b
value_of (data_quality_enabled b) = flag b
value_of (quarantine_enabled b) = flag b
value_of (priority n) = number n
value_of (retry_count n) = number n
value_of (timeout_seconds n) = number n
value_of (batch_size n) = number n
value_of (max_concurrency n) = number n
value_of (watermark_overlap_seconds n) = number n

abbrev pub same_value : OverrideValue → OverrideValue → Bool
same_value (flag true) (flag b) = b
same_value (flag false) (flag b) = not b
same_value (number m) (number n) = m == n
same_value _ _ = false

pub record RuntimeOverride : Type 0 where
  pub override_id : Text
  pub dataset_id : Text
  pub change : OverrideChange
  pub created_at : DateTime
  pub valid_from : DateTime
  pub valid_to : Option DateTime
  pub precedence : ℕ
  pub enabled : Bool

abbrev pub field_of : RuntimeOverride → Text
field_of o = field_value o.change

abbrev is_before : DateTime → Option DateTime → Bool
is_before at none = true
is_before at (some end) = ltb (instant at) (instant end)

abbrev pub is_active : DateTime → RuntimeOverride → Bool
is_active at o = o.enabled && leb (instant o.valid_from) (instant at) && is_before at o.valid_to

-- The largest of the precedences.
unfoldable pub highest_precedence : List RuntimeOverride → ℕ
highest_precedence [] = 0
highest_precedence (o ∷ os) =
    let rest = highest_precedence os in if ltb rest o.precedence then o.precedence else rest

-- The order of the pairs of creation and identity.
abbrev pub created_before : RuntimeOverride → RuntimeOverride → Bool
created_before o p =
    ltb (instant o.created_at) (instant p.created_at)
    || (instant o.created_at == instant p.created_at && lex_lt o.override_id p.override_id)

-- `max(…, key=…)`, which keeps the first of those that are equal
unfoldable pub newest : RuntimeOverride → List RuntimeOverride → RuntimeOverride
newest best [] = best
newest best (o ∷ os) = newest (if created_before best o then o else best) os

-- `len(distinct_values) > 1`
abbrev pub values_differ : List RuntimeOverride → Bool
values_differ [] = false
values_differ (o ∷ os) = not (all (λ p. same_value (value_of o.change) (value_of p.change)) os)

unfoldable pub winner : List RuntimeOverride → Result PlannerError RuntimeOverride
winner [] = raise empty_sequence
winner (o ∷ os) = raise_if (values_differ (o ∷ os)) override_conflict >> ok (newest o os)

abbrev pub strongest : List RuntimeOverride → List RuntimeOverride
strongest candidates = keep (λ o. o.precedence == highest_precedence candidates) candidates

unfoldable pub winners_of :
    Dict Text (List RuntimeOverride) → Result PlannerError (List RuntimeOverride)
winners_of [] = ok []
winners_of ((field, candidates) ∷ groups) = do
  first ← winner (strongest candidates)
  rest ← winners_of groups
  ok (first ∷ rest)

unfoldable pub select_overrides :
    DatasetConfig → List RuntimeOverride → DateTime → Result PlannerError (List RuntimeOverride)
select_overrides config overrides at = do
  raise_if (not (all (λ o. o.dataset_id == config.dataset_id) overrides)) wrong_target
  selected ← winners_of (group_into field_of (keep (is_active at) overrides) [])
  ok (sort_by field_of selected)

unfoldable pub apply_override : DatasetConfig → OverrideChange → Result PlannerError DatasetConfig
apply_override config (enabled b) = ok (record config { enabled = b })
apply_override config (priority n) =
    ok (record config { orchestration = record config.orchestration { priority = n } })
apply_override config (retry_count n) =
    ok (record config { orchestration = record config.orchestration { retry_count = n } })
apply_override config (timeout_seconds n) =
    ok (record config { orchestration = record config.orchestration { timeout_seconds = n } })
apply_override config (batch_size n) =
    ok (record config { orchestration = record config.orchestration { batch_size = n } })
apply_override config (max_concurrency n) =
    ok (record config { orchestration = record config.orchestration { max_concurrency = n } })
apply_override config (watermark_overlap_seconds n) = elim config.watermark_overlap [
  | none ↦ raise no_watermark
  | some before ↦ ok (record config { watermark_overlap = some n })
]
apply_override config (data_quality_enabled b) =
    ok (record config { quality = record config.quality { enabled = b } })
apply_override config (quarantine_enabled b) =
    ok (record config { quality = record config.quality { quarantine_enabled = b } })

unfoldable pub apply_overrides :
    DatasetConfig → List RuntimeOverride → Result PlannerError DatasetConfig
apply_overrides config [] = ok config
apply_overrides config (o ∷ os) = apply_override config o.change >>= λ next. apply_overrides next os

-- With a time given: without one, the source reads the clock.
unfoldable pub resolve_effective_config :
    (DatasetConfig → Text)
    → DatasetConfig
    → List RuntimeOverride
    → DateTime
    → Result PlannerError EffectiveDatasetConfig
resolve_effective_config config_hash config overrides at = do
  raise_if (not (is_aware at)) naive_time
  selected ← select_overrides config overrides at
  effective ← apply_overrides config selected
  ok (record {
    config = effective;
    base_config_hash = config_hash config;
    effective_config_hash = config_hash effective;
    applied_override_ids = map (λ o. o.override_id) selected;
  })
