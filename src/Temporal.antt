-- ===== src/Temporal.antt =====
-- quality/temporal.py: the taxonomy of source order and of event time.
pub mod Order
use fabric_data_framework.Prelude.{
  ℕ, Bool, true, false, not, Option, none, some, List, [], ◌∷◌, if◌then◌else◌, ltb, nat_eq, ◌==◌,
  length, Result, ok, raise, ◌>>=◌,
}
use fabric_data_framework.Time.{DateTime, is_aware, instant}
use fabric_data_framework.Values.{PyValue, tuple_lt}

pub data SourceOrderRelation : Type 0 where
  stale equal newer : SourceOrderRelation

pub data EventTimeRelation : Type 0 where
  earlier equal later unknown : EventTimeRelation

pub data TemporalCondition : Type 0 where
  in_order stale_source_position equal_source_position late_event_time same_event_time :
      TemporalCondition

pub data TemporalOrderingError : Type 0 where
  empty_position arity_mismatch not_comparable not_aware : TemporalOrderingError

pub record TemporalAssessment : Type 0 where
  pub source_order : SourceOrderRelation
  pub event_time : EventTimeRelation
  pub condition : TemporalCondition
  pub requires_history_rewrite : Bool

abbrev relation_of_gt : Option Bool → Result TemporalOrderingError SourceOrderRelation
relation_of_gt none = raise not_comparable
relation_of_gt (some true) = ok newer
relation_of_gt (some false) = ok SourceOrderRelation.equal

-- `_compare`, with the relation that `compare_source_order` gives to each of its results; `left >
-- right` is asked only where `left < right` is false.
abbrev pub relation_of :
    Option Bool → Option Bool → Result TemporalOrderingError SourceOrderRelation
relation_of none gt = raise not_comparable
relation_of (some true) gt = ok stale
relation_of (some false) gt = relation_of_gt gt

abbrev pub is_empty : {A : Type 0} → List A → Bool
is_empty [] = true
is_empty (x ∷ xs) = false

module _ {V : Type 0} (py : PyValue V) where
  unfoldable pub compare_source_order :
      List V → List V → Result TemporalOrderingError SourceOrderRelation
  compare_source_order candidate current =
      if is_empty candidate
      then raise empty_position
      else if is_empty current
      then raise empty_position
      else if not (length candidate == length current)
      then raise arity_mismatch
      else relation_of (tuple_lt py candidate current) (tuple_lt py current candidate)

-- Aware datetimes are compared by their instants.
unfoldable pub compare_event_time :
    Option DateTime → Option DateTime → Result TemporalOrderingError EventTimeRelation
compare_event_time none current = ok unknown
compare_event_time (some c) none = ok unknown
compare_event_time (some candidate) (some current) =
    if not (is_aware candidate)
    then raise not_aware
    else if not (is_aware current)
    then raise not_aware
    else if ltb (instant candidate) (instant current)
    then ok earlier
    else if ltb (instant current) (instant candidate)
    then ok later
    else ok EventTimeRelation.equal

-- The condition of a newer source position.
abbrev newer_condition : EventTimeRelation → TemporalCondition × Bool
newer_condition earlier = (late_event_time, true)
newer_condition EventTimeRelation.equal = (same_event_time, false)
newer_condition _ = (in_order, false)

abbrev pub condition_of : SourceOrderRelation → EventTimeRelation → TemporalCondition × Bool
condition_of stale event = (stale_source_position, false)
condition_of SourceOrderRelation.equal event = (equal_source_position, false)
condition_of newer event = newer_condition event

module _ {V : Type 0} (py : PyValue V) where
  unfoldable pub assess_temporal :
      List V
      → List V
      → Option DateTime
      → Option DateTime
      → Result TemporalOrderingError TemporalAssessment
  unfolding compare_source_order compare_event_time
  assess_temporal candidate_source_position current_source_position candidate_event_time
        current_event_time =
      do
        source ← compare_source_order py candidate_source_position current_source_position
        event ← compare_event_time candidate_event_time current_event_time
        ok (record {
          source_order = source;
          event_time = event;
          condition = (condition_of source event).0;
          requires_history_rewrite = (condition_of source event).1;
        })
