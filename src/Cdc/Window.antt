-- ===== src/Cdc/Window.antt =====
-- normalize_cdc_batch of capture/cdc.py as a whole.
use fabric_data_framework.Prelude.{
  ◌+◌, ◌≡◌, Bool, true, false, not, Option, some, List, ==_iff, list_eq, nat_eq, Text, length, All,
  All-map, ok, >>=-eq-ok, raise_if, arith,
}
use fabric_data_framework.Prelude.Dict.{get}
use fabric_data_framework.Prelude.Order.{lex_lt_asym}
use fabric_data_framework.Prelude.Sort.{
  sort_with, sort_with-All, length-sort_with, IsSortedBy, sort_with-IsSortedBy,
}
use fabric_data_framework.Values.{Row}
use fabric_data_framework.Cdc.Contract.{CdcCheckpoint, CdcEvent, CdcNormalizedBatch, evidence_error}
use fabric_data_framework.Cdc.Normalize.{
  Window, empty_window, event_below, validate_window, read_events, batch_of, normalize_cdc_batch,
}
use fabric_data_framework.Cdc.Loop.{InWindow, Sound, settled, read_events-Invariant}

module _ {V : Type 0} (content_hash : CdcEvent V → Text) (key_hash : Row V → Text) where
  -- The loop behind a batch.
  record Read (events : List (CdcEvent V)) (upper : CdcCheckpoint) (lower : Option CdcCheckpoint)
      (b : CdcNormalizedBatch V) : Type 0 where
    window : Window V
    runs : read_events content_hash key_hash upper lower events empty_window ≡ ok window
    gives : b ≡ batch_of content_hash key_hash upper lower window
    sound : All (Sound content_hash key_hash upper lower window) window.accepted
    counted : settled content_hash key_hash window ≡ length events

  normalize-Read :
      (events : List (CdcEvent V)) (upper : CdcCheckpoint) (lower : Option CdcCheckpoint)
      (complete : Bool) (b : CdcNormalizedBatch V)
      → normalize_cdc_batch content_hash key_hash events upper lower complete ≡ ok b
      → Read events upper lower b
  unfolding normalize_cdc_batch
  normalize-Read events upper lower complete b h =
      let (u1, k1, h1) = >>=-eq-ok (raise_if (not complete) evidence_error) _ h in
      let (u2, k2, h2) = >>=-eq-ok (validate_window lower upper) _ h1 in
      let (w, runs, h3) =
        >>=-eq-ok (read_events content_hash key_hash upper lower events empty_window) _ h2 in
      let (sound, counted) =
        read_events-Invariant content_hash key_hash upper lower events empty_window w runs tt in
      record {
        window = w;
        runs = runs;
        gives = cc;
        sound = sound;
        counted = omega (arith, counted);
      }

  -- Every event of a normalized batch lies in the window: its partition has a position in the upper
  -- checkpoint, the event's position is not above that, and it is above the lower checkpoint's where
  -- that one has the partition. No two events of the batch with one key hash are of different
  -- partitions: there is one map from key hashes to partitions with which all of them agree.
  pub events-InWindow :
      (events : List (CdcEvent V)) (upper : CdcCheckpoint) (lower : Option CdcCheckpoint)
      (complete : Bool) (b : CdcNormalizedBatch V)
      → normalize_cdc_batch content_hash key_hash events upper lower complete ≡ ok b
      → All (InWindow upper lower) b.events
        × ((partition_of : Text → Option Text) × All
              (λ e. partition_of (key_hash e.key) ≡ some e.position.partition)
              b.events)
  events-InWindow events upper lower complete b h =
      let r = normalize-Read events upper lower complete b h in
      let all_sound = sort_with-All event_below _ r.window.accepted r.sound in
      rw (r.gives) (
        All-map _ _ (sort_with event_below r.window.accepted) (λ e p. p.0) all_sound,
        (
          λ hash. get hash r.window.key_partitions,
          All-map _ _ (sort_with event_below r.window.accepted) (λ e p. p.1) all_sound,
        ),
      )

  -- No event is lost or invented: the events of a normalized batch, the duplicates and the events that
  -- were committed already are together as many as the events that were read.
  pub events_accounted :
      (events : List (CdcEvent V)) (upper : CdcCheckpoint) (lower : Option CdcCheckpoint)
      (complete : Bool) (b : CdcNormalizedBatch V)
      → normalize_cdc_batch content_hash key_hash events upper lower complete ≡ ok b
      → length b.events + (b.duplicate_events_ignored + b.already_committed_events_ignored)
        ≡ length events
  events_accounted events upper lower complete b h =
      let r = normalize-Read events upper lower complete b h in
      let same = length-sort_with event_below r.window.accepted in
      rw (r.gives) (omega (arith, same, r.counted))

  event_below_asym : (a b : CdcEvent V) → event_below a b ≡ true → event_below b a ≡ false
  unfolding event_below
  event_below_asym a b h = ground (
    arith,
    ==_iff a.position.partition b.position.partition,
    ==_iff b.position.partition a.position.partition,
    ==_iff a.position.values b.position.values,
    ==_iff b.position.values a.position.values,
    lex_lt_asym a.event_id b.event_id,
    lex_lt_asym a.position.partition b.position.partition,
    lex_lt_asym a.position.values b.position.values,
  )

  -- The events of a normalized batch stand in the order of their partitions, in a partition in the
  -- order of their positions.
  pub events_sorted :
      (events : List (CdcEvent V)) (upper : CdcCheckpoint) (lower : Option CdcCheckpoint)
      (complete : Bool) (b : CdcNormalizedBatch V)
      → normalize_cdc_batch content_hash key_hash events upper lower complete ≡ ok b
      → IsSortedBy event_below b.events
  events_sorted events upper lower complete b h =
      let r = normalize-Read events upper lower complete b h in
      rw (r.gives) (sort_with-IsSortedBy event_below event_below_asym r.window.accepted)
