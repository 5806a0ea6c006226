-- ===== src/Cdc/Normalize.antt =====
-- normalize_cdc_batch of capture/cdc.py. `content_hash` and `key_hash` stand for the SHA-256 of the
-- JSON of an event and of its key (contracts/hashing.py over hashlib and json).
use fabric_data_framework.Prelude.{
  ℕ, ◌+◌, Bool, false, ◌||◌, not, Option, none, some, List, [], ◌∷◌, ◌++◌, if◌then◌else◌, ◌==◌,
  nat_eq, list_eq, pair_eq, Text, Result, ok, raise, ◌>>=◌, ◌>>◌, raise_if,
}
use fabric_data_framework.Prelude.Dict.{Dict, get, put}
use fabric_data_framework.Prelude.Order.{lex_lt}
use fabric_data_framework.Prelude.Sort.{sort_with}
use fabric_data_framework.Values.{Row}
use fabric_data_framework.Cdc.Contract.{
  CdcError, ordering_error, conflict_error, evidence_error, CdcSourcePosition, CdcCheckpoint,
  CdcEvent, CdcNormalizedBatch, position_for,
}

-- One partition of the lower checkpoint against the upper one.
unfoldable pub validate_partition : CdcCheckpoint → CdcSourcePosition → Result CdcError Unit
validate_partition upper_checkpoint previous =
    elim (position_for previous.partition upper_checkpoint) [
      | none ↦ raise evidence_error
      | some upper ↦ raise_if (lex_lt upper previous.values) evidence_error
    ]

unfoldable pub validate_partitions : CdcCheckpoint → List CdcSourcePosition → Result CdcError Unit
validate_partitions upper_checkpoint [] = ok tt
validate_partitions upper_checkpoint (previous ∷ rest) =
    validate_partition upper_checkpoint previous >> validate_partitions upper_checkpoint rest

-- `_validate_window`
unfoldable pub validate_window : Option CdcCheckpoint → CdcCheckpoint → Result CdcError Unit
validate_window none upper_checkpoint = ok tt
validate_window (some lower_checkpoint) upper_checkpoint =
    validate_partitions upper_checkpoint lower_checkpoint.positions

-- The variables of the loop.
pub record Window (V : Type 0) : Type 0 where
  pub seen_ids : Dict Text Text
  pub seen_positions : Dict (Text × List ℕ) (Text × Text)
  pub key_partitions : Dict Text Text
  pub accepted : List (CdcEvent V)
  pub duplicate_events_ignored : ℕ
  pub already_committed_events_ignored : ℕ

abbrev pub empty_window : {V : Type 0} → Window V
empty_window = record {
  seen_ids = [];
  seen_positions = [];
  key_partitions = [];
  accepted = [];
  duplicate_events_ignored = 0;
  already_committed_events_ignored = 0;
}

-- The order of the sort: by partition, position and identity.
unfoldable pub event_below : {V : Type 0} → CdcEvent V → CdcEvent V → Bool
event_below a b =
    if a.position.partition == b.position.partition
    then if a.position.values == b.position.values
      then lex_lt a.event_id b.event_id
      else lex_lt a.position.values b.position.values
    else lex_lt a.position.partition b.position.partition

-- `lower_checkpoint is not None`, the partition has a position there, and the event is not above it.
unfoldable pub is_committed : {V : Type 0} → Option CdcCheckpoint → CdcEvent V → Bool
is_committed none event = false
is_committed (some lower_checkpoint) event =
    elim (position_for event.position.partition lower_checkpoint) [
      | none ↦ false
      | some lower ↦ not (lex_lt lower event.position.values)
    ]

-- The event's partition is in the upper checkpoint, and the event is not above its position.
unfoldable pub check_upper : {V : Type 0} → CdcCheckpoint → CdcEvent V → Result CdcError Unit
check_upper upper_checkpoint event = elim (position_for event.position.partition upper_checkpoint) [
  | none ↦ raise evidence_error
  | some upper ↦ raise_if (lex_lt upper event.position.values) evidence_error
]

abbrev pub position_key : {V : Type 0} → CdcEvent V → Text × List ℕ
position_key event = (event.position.partition, event.position.values)

module _ {V : Type 0} (content_hash : CdcEvent V → Text) (key_hash : Row V → Text) where
  -- Records the position, or finds that the position already has this very event.
  unfoldable pub claim_position : CdcEvent V → Window V → Result CdcError (Window V)
  claim_position event w = elim (get (position_key event) w.seen_positions) [
    | none ↦ ok (record w {
      seen_positions =
          put (position_key event) (event.event_id, content_hash event) w.seen_positions;
    })
    | some (prior_event_id, prior_position_hash) ↦
        if not (prior_event_id == event.event_id) || not (prior_position_hash == content_hash event)
        then raise ordering_error
        else ok w
  ]

  abbrev pub accepting : CdcEvent V → Window V → Window V
  accepting event w = record w {
    key_partitions = put (key_hash event.key) event.position.partition w.key_partitions;
    accepted = w.accepted ++ event ∷ [];
  }

  unfoldable pub accept_event : CdcEvent V → Window V → Result CdcError (Window V)
  accept_event event w = elim (get (key_hash event.key) w.key_partitions) [
    | none ↦ ok (accepting event w)
    | some previous_partition ↦
        if previous_partition == event.position.partition
        then ok (accepting event w)
        else raise ordering_error
  ]

  -- An event that is above the lower checkpoint is accepted.
  unfoldable pub place_event :
      Option CdcCheckpoint → CdcEvent V → Window V → Result CdcError (Window V)
  place_event lower_checkpoint event w =
      if is_committed lower_checkpoint event
      then ok
          (record w { already_committed_events_ignored = w.already_committed_events_ignored + 1 })
      else accept_event event w

  -- An event whose identity is new.
  unfoldable pub fresh_event :
      CdcCheckpoint → Option CdcCheckpoint → CdcEvent V → Window V → Result CdcError (Window V)
  fresh_event upper_checkpoint lower_checkpoint event w = do
    claimed ←
        claim_position event
          (record w { seen_ids = put event.event_id (content_hash event) w.seen_ids })
    _ ← check_upper upper_checkpoint event
    place_event lower_checkpoint event claimed

  -- One turn of the loop.
  unfoldable pub read_event :
      CdcCheckpoint → Option CdcCheckpoint → CdcEvent V → Window V → Result CdcError (Window V)
  read_event upper_checkpoint lower_checkpoint event w = elim (get event.event_id w.seen_ids) [
    | none ↦ fresh_event upper_checkpoint lower_checkpoint event w
    | some prior_hash ↦
        if prior_hash == content_hash event
        then ok (record w { duplicate_events_ignored = w.duplicate_events_ignored + 1 })
        else raise conflict_error
  ]

  unfoldable pub read_events :
      CdcCheckpoint
      → Option CdcCheckpoint
      → List (CdcEvent V)
      → Window V
      → Result CdcError (Window V)
  read_events upper_checkpoint lower_checkpoint [] w = ok w
  read_events upper_checkpoint lower_checkpoint (event ∷ events) w =
      read_event upper_checkpoint lower_checkpoint event w
      >>= read_events upper_checkpoint lower_checkpoint events

  abbrev pub batch_of : CdcCheckpoint → Option CdcCheckpoint → Window V → CdcNormalizedBatch V
  batch_of upper_checkpoint lower_checkpoint w = record {
    events = sort_with event_below w.accepted;
    lower_checkpoint = lower_checkpoint;
    upper_checkpoint = upper_checkpoint;
    duplicate_events_ignored = w.duplicate_events_ignored;
    already_committed_events_ignored = w.already_committed_events_ignored;
  }

  unfoldable pub normalize_cdc_batch :
      List (CdcEvent V)
      → CdcCheckpoint
      → Option CdcCheckpoint
      → Bool
      → Result CdcError (CdcNormalizedBatch V)
  normalize_cdc_batch events upper_checkpoint lower_checkpoint complete_through_upper = do
    _ ← raise_if (not complete_through_upper) evidence_error
    _ ← validate_window lower_checkpoint upper_checkpoint
    w ← read_events upper_checkpoint lower_checkpoint events empty_window
    ok (batch_of upper_checkpoint lower_checkpoint w)
