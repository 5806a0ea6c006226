-- ===== src/Cdc/Loop.antt =====
-- One turn of the loop of normalize_cdc_batch in capture/cdc.py, and the whole loop.
use fabric_data_framework.Prelude.{
  ℕ, ◌+◌, ◌≡◌, ap, ◌∙◌, ◌⊎◌, inl, inr, false, Option, none, some, List, [], ◌∷◌, ◌++◌, ◌==◌, ==_iff,
  list_eq, nat_eq, pair_eq, Text, length, length-append, All, All-map, All-append-one, Bool-cases,
  Option-cases, ok, >>=-eq-ok, arith,
}
use fabric_data_framework.Prelude.Dict.{get, put, get-put}
use fabric_data_framework.Prelude.Order.{lex_lt}
use fabric_data_framework.Values.{Row}
use fabric_data_framework.Cdc.Contract.{CdcCheckpoint, CdcEvent, position_for}
use fabric_data_framework.Cdc.Normalize.{
  Window, position_key, is_committed, check_upper, claim_position, accepting, accept_event,
  place_event, fresh_event, read_event, read_events,
}

-- The event's position is not above the upper checkpoint's, and it is not committed already.
pub record InWindow {V : Type 0} (upper : CdcCheckpoint) (lower : Option CdcCheckpoint)
    (event : CdcEvent V) : Type 0 where
  pub limit : List ℕ
  pub found : position_for event.position.partition upper ≡ some limit
  pub bounded : lex_lt limit event.position.values ≡ false
  pub uncommitted : is_committed lower event ≡ false

module _ {V : Type 0} (content_hash : CdcEvent V → Text) (key_hash : Row V → Text) where
  check_upper-ok :
      (upper : CdcCheckpoint) (event : CdcEvent V)
      → check_upper upper event ≡ ok tt
      → (limit : List ℕ) × (position_for event.position.partition upper ≡ some limit)
        × (lex_lt limit event.position.values ≡ false)
  unfolding check_upper
  check_upper-ok upper event h = elim (Option-cases (position_for event.position.partition upper)) [
    | inl absent ↦ ground arith
    | inr (limit, present) ↦
        (limit, present, ground (arith, Bool-cases (lex_lt limit event.position.values)))
  ]

  -- The parts of the window that a claim of a position leaves alone.
  pub record Rest (w w' : Window V) : Type 0 where
    pub same_keys : w'.key_partitions ≡ w.key_partitions
    pub same_accepted : w'.accepted ≡ w.accepted
    pub same_duplicates : w'.duplicate_events_ignored ≡ w.duplicate_events_ignored
    pub same_committed : w'.already_committed_events_ignored ≡ w.already_committed_events_ignored

  claim_position-Rest :
      (event : CdcEvent V) (w w' : Window V)
      → claim_position content_hash key_hash event w ≡ ok w'
      → Rest w w'
  unfolding claim_position
  claim_position-Rest event w w' h =
      elim (Option-cases (get (position_key event) w.seen_positions)) [
        | inl absent ↦ record {
          same_keys = ground arith;
          same_accepted = ground arith;
          same_duplicates = ground arith;
          same_committed = ground arith;
        }
        | inr (prior, present) ↦ record {
          same_keys = ground arith;
          same_accepted = ground arith;
          same_duplicates = ground arith;
          same_committed = ground arith;
        }
      ]

  -- What one turn of the loop does with an event.
  pub data Turn (upper : CdcCheckpoint) (lower : Option CdcCheckpoint) (event : CdcEvent V)
      (w w' : Window V) : Type 0 where
    ignored :
        w'.key_partitions ≡ w.key_partitions
        → w'.accepted ≡ w.accepted
        → w'.duplicate_events_ignored + w'.already_committed_events_ignored
          ≡ w.duplicate_events_ignored + w.already_committed_events_ignored + 1
        → Turn upper lower event w w'
    taken :
        InWindow upper lower event
        → (get (key_hash event.key) w.key_partitions ≡ none)
          ⊎ (get (key_hash event.key) w.key_partitions ≡ some event.position.partition)
        → w'.key_partitions ≡ put (key_hash event.key) event.position.partition w.key_partitions
        → w'.accepted ≡ w.accepted ++ event ∷ []
        → w'.duplicate_events_ignored + w'.already_committed_events_ignored
          ≡ w.duplicate_events_ignored + w.already_committed_events_ignored
        → Turn upper lower event w w'

  accept_event-cases :
      (event : CdcEvent V) (w w' : Window V)
      → accept_event content_hash key_hash event w ≡ ok w'
      → ((get (key_hash event.key) w.key_partitions ≡ none)
          ⊎ (get (key_hash event.key) w.key_partitions ≡ some event.position.partition))
        × (w' ≡ accepting content_hash key_hash event w)
  unfolding accept_event
  accept_event-cases event w w' h =
      elim (Option-cases (get (key_hash event.key) w.key_partitions)) [
        | inl absent ↦ (inl absent, ground arith)
        | inr (previous, present) ↦ elim (Bool-cases (previous == event.position.partition)) [
          | inl same ↦
              let e : previous ≡ event.position.partition = (==_iff _ _).0 same in
              (inr (present ∙ ap some e), ground arith)
          | inr other ↦ ground arith
        ]
      ]

  place_event-Turn :
      (upper : CdcCheckpoint) (lower : Option CdcCheckpoint) (event : CdcEvent V) (w w' : Window V)
      → check_upper upper event ≡ ok tt
      → place_event content_hash key_hash lower event w ≡ ok w'
      → Turn upper lower event w w'
  unfolding place_event
  place_event-Turn upper lower event w w' c h = elim (Bool-cases (is_committed lower event)) [
    | inl committed ↦ ignored (ground arith) (ground arith) (ground arith)
    | inr uncommitted ↦
        let (how, e) = accept_event-cases event w w' (rw uncommitted at h) in
        let (limit, found, bounded) = check_upper-ok upper event c in
        taken
          (record { limit = limit; found = found; bounded = bounded; uncommitted = uncommitted })
          how (ap (λ x. x.key_partitions) e) (ap (λ x. x.accepted) e)
          (ap (λ x. x.duplicate_events_ignored + x.already_committed_events_ignored) e)
  ]

  moved :
      (upper : CdcCheckpoint) (lower : Option CdcCheckpoint) (event : CdcEvent V)
      (w v w' : Window V)
      → Rest w v
      → Turn upper lower event v w'
      → Turn upper lower event w w'
  moved upper lower event w v w' r (ignored a b c) =
      ignored (a ∙ r.same_keys) (b ∙ r.same_accepted)
        (rw (r.same_duplicates, r.same_committed) at c)
  moved upper lower event w v w' r (taken i p a b c) =
      taken i (rw (r.same_keys) at p) (rw (r.same_keys) at a) (rw (r.same_accepted) at b)
        (rw (r.same_duplicates, r.same_committed) at c)

  fresh_event-Turn :
      (upper : CdcCheckpoint) (lower : Option CdcCheckpoint) (event : CdcEvent V) (w w' : Window V)
      → fresh_event content_hash key_hash upper lower event w ≡ ok w'
      → Turn upper lower event w w'
  unfolding fresh_event
  fresh_event-Turn upper lower event w w' h =
      let (v, claimed, h2) =
        >>=-eq-ok
          (claim_position content_hash key_hash event
            (record w { seen_ids = put event.event_id (content_hash event) w.seen_ids }))
          _ h in
      let (u, checked, placed) = >>=-eq-ok (check_upper upper event) _ h2 in
      let r = claim_position-Rest event _ v claimed in
      moved upper lower event w v w'
        (record {
          same_keys = r.same_keys;
          same_accepted = r.same_accepted;
          same_duplicates = r.same_duplicates;
          same_committed = r.same_committed;
        })
        (place_event-Turn upper lower event v w' checked placed)

  pub read_event-Turn :
      (upper : CdcCheckpoint) (lower : Option CdcCheckpoint) (event : CdcEvent V) (w w' : Window V)
      → read_event content_hash key_hash upper lower event w ≡ ok w'
      → Turn upper lower event w w'
  unfolding read_event
  read_event-Turn upper lower event w w' h = elim (Option-cases (get event.event_id w.seen_ids)) [
    | inr (prior, present) ↦ ignored (ground arith) (ground arith) (ground arith)
    | inl absent ↦ fresh_event-Turn upper lower event w w' (rw (absent, read_event) at h)
  ]

  -- What holds of an accepted event: it lies in the window, and its key is known to be in its
  -- partition.
  abbrev pub Sound : CdcCheckpoint → Option CdcCheckpoint → Window V → CdcEvent V → Type 0
  Sound upper lower w event =
      InWindow upper lower event
      × (get (key_hash event.key) w.key_partitions ≡ some event.position.partition)

  abbrev pub settled : Window V → ℕ
  settled w = length w.accepted + (w.duplicate_events_ignored + w.already_committed_events_ignored)

  abbrev pub Invariant : CdcCheckpoint → Option CdcCheckpoint → Window V → Type 0
  Invariant upper lower w = All (Sound upper lower w) w.accepted

  Turn-Invariant :
      (upper : CdcCheckpoint) (lower : Option CdcCheckpoint) (event : CdcEvent V) (w w' : Window V)
      → Turn upper lower event w w'
      → Invariant upper lower w
      → Invariant upper lower w' × (settled w' ≡ settled w + 1)
  Turn-Invariant upper lower event w w' (ignored a b c) i = (rw (a, b) i, rw b (omega (arith, c)))
  Turn-Invariant upper lower event w w' (taken inside how a b c) i = (
    rw (a, b)
        (All-append-one _ w.accepted event
          (All-map _ _ w.accepted
            (λ e (within, k).
              (within, rw get-put (ground (arith, ==_iff (key_hash event.key) (key_hash e.key)))))
            i)
          (inside, rw get-put (ground (arith, ==_iff (key_hash event.key) (key_hash event.key))))),
    rw (b, length-append w.accepted (event ∷ [])) (omega (arith, c)),
  )

  pub read_events-Invariant :
      (upper : CdcCheckpoint) (lower : Option CdcCheckpoint) (events : List (CdcEvent V))
      (w w' : Window V)
      → read_events content_hash key_hash upper lower events w ≡ ok w'
      → Invariant upper lower w
      → Invariant upper lower w' × (settled w' ≡ settled w + length events)
  unfolding read_events
  read_events-Invariant upper lower [] w w' h i = let e : w ≡ w' = cc in rw (← e) (i, omega arith)
  read_events-Invariant upper lower (event ∷ events) w w' h i =
      let (v, first, rest) = >>=-eq-ok (read_event content_hash key_hash upper lower event w) _ h in
      let (i1, c1) =
        Turn-Invariant upper lower event w v (read_event-Turn upper lower event w v first) i in
      let (i2, c2) = read_events-Invariant upper lower events v w' rest i1 in
      (i2, omega (arith, c1, c2))
