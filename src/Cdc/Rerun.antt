-- ===== src/Cdc/Rerun.antt =====
-- normalize_cdc_batch of capture/cdc.py, run again on a window after its upper checkpoint has been
-- committed.
use fabric_data_framework.Prelude.{
  ℕ, ◌+◌, ◌≡◌, refl, sym, ap, inl, inr, Bool, true, not, Option, some, List, [], ◌∷◌, map, ==_iff,
  ==_refl, list_eq, nat_eq, pair_eq, Text, elem, unique, length, length-append, All, All-map,
  Bool-cases, Option-cases, ok, >>=-eq-ok, raise_if, arith,
}
use fabric_data_framework.Prelude.Dict.{get, put}
use fabric_data_framework.Prelude.Order.{lex_lt, lex_lt_irrefl}
use fabric_data_framework.Prelude.Sort.{sort_with, length-sort_with}
use fabric_data_framework.Values.{Row}
use fabric_data_framework.Cdc.Contract.{
  CdcSourcePosition, CdcCheckpoint, CdcEvent, CdcNormalizedBatch, evidence_error,
  validate_positions, find_position, position_for,
}
use fabric_data_framework.Cdc.Normalize.{
  Window, empty_window, event_below, is_committed, validate_window, validate_partition,
  validate_partitions, position_key, check_upper, claim_position, accept_event, place_event,
  fresh_event, read_event, read_events, batch_of, normalize_cdc_batch,
}

find_position-elem :
    (partition : Text) (items : List CdcSourcePosition) (v : List ℕ)
    → find_position partition items ≡ some v
    → elem partition (map (λ item. item.partition) items) ≡ true
unfolding find_position
find_position-elem partition [] v h = cc
find_position-elem partition (item ∷ items) v h =
    ground (arith, find_position-elem partition items v)

-- A checkpoint with unique partitions gives each of its positions back.
abbrev Finds : List CdcSourcePosition → CdcSourcePosition → Type 0
Finds items item = find_position item.partition items ≡ some item.values

unique-Finds :
    (items : List CdcSourcePosition)
    → unique (map (λ item. item.partition) items) ≡ true
    → All (Finds items) items
unfolding find_position
unique-Finds [] u = tt
unique-Finds (first ∷ items) u = (
  rw (==_refl first.partition) refl,
  All-map (Finds items) _ items
      (λ item found. ground (
        arith,
        ==_iff first.partition item.partition,
        find_position-elem item.partition items item.values found,
      ))
      (unique-Finds items (ground arith)),
)

validate_one :
    (upper : CdcCheckpoint) (item : CdcSourcePosition)
    → Finds upper.positions item
    → validate_partition upper item ≡ ok tt
unfolding validate_partition position_for
validate_one upper item found = ground (arith, lex_lt_irrefl item.values)

validate_found :
    (upper : CdcCheckpoint) (items : List CdcSourcePosition)
    → All (Finds upper.positions) items
    → validate_partitions upper items ≡ ok tt
unfolding validate_partitions
validate_found upper [] f = refl
validate_found upper (item ∷ items) (found, f) =
    rw (validate_one upper item found) (validate_found upper items f)

module _ {V : Type 0} (content_hash : CdcEvent V → Text) (key_hash : Row V → Text)
    (upper : CdcCheckpoint) (lower : Option CdcCheckpoint) where
  -- The window in which all that was accepted counts as committed.
  abbrev as_committed : Window V → Window V
  as_committed w = record w {
    key_partitions = [];
    accepted = [];
    already_committed_events_ignored = length w.accepted + w.already_committed_events_ignored;
  }

  abbrev counting : Window V → ℕ → Window V
  counting w n = record w {
    key_partitions = [];
    accepted = [];
    already_committed_events_ignored = n;
  }

  claim_again :
      (event : CdcEvent V) (w v : Window V)
      → claim_position content_hash key_hash event w ≡ ok v
      → claim_position content_hash key_hash event (as_committed w) ≡ ok (as_committed v)
  unfolding claim_position
  claim_again event w v h = elim (Option-cases (get (position_key event) w.seen_positions)) [
    | inl absent ↦ ground arith
    | inr (prior, present) ↦ ground arith
  ]

  check_upper-committed :
      (event : CdcEvent V)
      → check_upper upper event ≡ ok tt
      → is_committed (some upper) event ≡ true
  unfolding check_upper is_committed
  check_upper-committed event h =
      elim (Option-cases (position_for event.position.partition upper)) [
        | inl absent ↦ ground arith
        | inr (limit, present) ↦ ground (arith, Bool-cases (lex_lt limit event.position.values))
      ]

  accept_again :
      (event : CdcEvent V) (w v : Window V)
      → accept_event content_hash key_hash event w ≡ ok v
      → as_committed v ≡ counting w (length w.accepted + w.already_committed_events_ignored + 1)
  unfolding accept_event
  accept_again event w v h = elim (Option-cases (get (key_hash event.key) w.key_partitions)) [
    | inl absent ↦ ground (arith, length-append w.accepted (event ∷ []))
    | inr (prior, present) ↦ ground (arith, length-append w.accepted (event ∷ []))
  ]

  place_again :
      (event : CdcEvent V) (w v : Window V)
      → check_upper upper event ≡ ok tt
      → place_event content_hash key_hash lower event w ≡ ok v
      → place_event content_hash key_hash (some upper) event (as_committed w) ≡ ok (as_committed v)
  unfolding place_event
  place_again event w v c h =
      rw (check_upper-committed event c) (elim (Bool-cases (is_committed lower event)) [
        | inl committed ↦ ground arith
        | inr above ↦ ap ok (sym (accept_again event w v (rw above at h)))
      ])

  fresh_again :
      (event : CdcEvent V) (w v : Window V)
      → fresh_event content_hash key_hash upper lower event w ≡ ok v
      → fresh_event content_hash key_hash upper (some upper) event (as_committed w)
        ≡ ok (as_committed v)
  unfolding fresh_event
  fresh_again event w v h =
      let (m, claimed, h2) =
        >>=-eq-ok
          (claim_position content_hash key_hash event
            (record w { seen_ids = put event.event_id (content_hash event) w.seen_ids }))
          _ h in
      let (u, checked, placed) = >>=-eq-ok (check_upper upper event) _ h2 in
      rw (claim_again event _ m claimed) (rw checked (place_again event m v checked placed))

  read_again :
      (event : CdcEvent V) (w v : Window V)
      → read_event content_hash key_hash upper lower event w ≡ ok v
      → read_event content_hash key_hash upper (some upper) event (as_committed w)
        ≡ ok (as_committed v)
  unfolding read_event
  read_again event w v h = elim (Option-cases (get event.event_id w.seen_ids)) [
    | inr (prior, present) ↦ ground arith
    | inl absent ↦ rw (absent, read_event) (fresh_again event w v (rw (absent, read_event) at h))
  ]

  read_all_again :
      (events : List (CdcEvent V)) (w v : Window V)
      → read_events content_hash key_hash upper lower events w ≡ ok v
      → read_events content_hash key_hash upper (some upper) events (as_committed w)
        ≡ ok (as_committed v)
  unfolding read_events
  read_all_again [] w v h = ground arith
  read_all_again (event ∷ events) w v h =
      let (m, first, rest) = >>=-eq-ok (read_event content_hash key_hash upper lower event w) _ h in
      rw (read_again event w m first) (read_all_again events m v rest)

  -- Reading a window again after its upper checkpoint has been committed, as after a crash between the
  -- commit and the acknowledgement, succeeds and accepts no event: where the upper checkpoint is valid
  -- and a window was normalized, the same events with the upper checkpoint as the lower one give an
  -- empty batch, with the same duplicates, which counts every event of the first batch as committed.
  pub reread_is_empty :
      (events : List (CdcEvent V)) (complete : Bool) (b : CdcNormalizedBatch V)
      → validate_positions upper ≡ ok upper
      → normalize_cdc_batch content_hash key_hash events upper lower complete ≡ ok b
      → normalize_cdc_batch content_hash key_hash events upper (some upper) complete
        ≡ ok (record {
          events = [];
          lower_checkpoint = some upper;
          upper_checkpoint = upper;
          duplicate_events_ignored = b.duplicate_events_ignored;
          already_committed_events_ignored = length b.events + b.already_committed_events_ignored;
        })
  unfolding normalize_cdc_batch validate_window validate_positions sort_with
  reread_is_empty events complete b valid h =
      let (u1, k1, h1) = >>=-eq-ok (raise_if (not complete) evidence_error) _ h in
      let (u2, k2, h2) = >>=-eq-ok (validate_window lower upper) _ h1 in
      let (w, runs, h3) =
        >>=-eq-ok (read_events content_hash key_hash upper lower events empty_window) _ h2 in
      let distinct : unique (map (λ item. item.partition) upper.positions) ≡ true = ground arith in
      let found = validate_found upper upper.positions (unique-Finds upper.positions distinct) in
      let e : batch_of content_hash key_hash upper lower w ≡ b = cc in
      rw k1 (
        rw found (
          rw (read_all_again events empty_window w runs)
            (rw (← e) (rw (length-sort_with event_below w.accepted) refl))))
