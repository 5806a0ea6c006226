-- ===== src/CdcApply/Tally.antt =====
-- What one event of apply/cdc.py does to the counters and to the number of rows.
use fabric_data_framework.Prelude.{
  ℕ, ◌+◌, ◌≡◌, refl, subst, none, some, List, [], length, PyEq, list_eq, nat_eq, Text, Bool-cases,
  Option-cases, inl, inr, Result, ok, raise, if◌then◌else◌, arith,
}
use fabric_data_framework.Prelude.Dict.{
  HasUniqueKeys, get, put, put-HasUniqueKeys, remove-HasUniqueKeys, length-put-absent,
  length-put-present, length-remove,
}
use fabric_data_framework.Values.{PyValue, Row, value_eq, same_items}
use fabric_data_framework.Temporal.{SourceOrderRelation, stale, equal, newer}
use fabric_data_framework.Cdc.Contract.{CdcEvent}
use fabric_data_framework.CdcApply.Rows.{
  CdcApplyError, ordering_error, payload_without_cdc_metadata, CdcValues, candidate_row,
}
use fabric_data_framework.CdcApply.Write.{
  CdcDeleteAction, apply, ignore, error, CdcProgress, by_policy, delete_present, insert_after,
  write_present,
}

module _ {V : Type 0} (py : PyValue V) (cdc : CdcValues V) where
  instance abbrev key_eq : PyEq (List V)
  key_eq = list_eq ⦃e = py.eq⦄

  abbrev pub handled : CdcProgress V → ℕ
  handled p =
      p.events_applied + p.stale_events_ignored + p.no_change_events
      + p.missing_delete_events_ignored + p.delete_policy_events_ignored

  -- What the events between two states of the loop did, `n` of them.
  pub record Tally (n : ℕ) (p p' : CdcProgress V) : Type 0 where
    pub counted : handled p' ≡ handled p + n
    pub mutated :
        p'.inserted + p'.updated + p'.deleted + p.events_applied
        ≡ p.inserted + p.updated + p.deleted + p'.events_applied
    pub balanced :
        length p'.rows_by_key + p'.deleted + p.inserted
        ≡ length p.rows_by_key + p.deleted + p'.inserted
    pub keyed : HasUniqueKeys ⦃e = key_eq⦄ p'.rows_by_key

  pub by_policy-Tally :
      (action : CdcDeleteAction) (p p' : CdcProgress V)
      (otherwise : Result CdcApplyError (CdcProgress V))
      → HasUniqueKeys ⦃e = key_eq⦄ p.rows_by_key
      → (otherwise ≡ ok p' → Tally 1 p p')
      → by_policy py cdc action p otherwise ≡ ok p'
      → Tally 1 p p'
  unfolding by_policy
  by_policy-Tally ignore p p' otherwise u t h = record {
    counted = ground arith;
    mutated = ground arith;
    balanced = ground arith;
    keyed = subst (HasUniqueKeys ⦃e = key_eq⦄) (ground arith) u;
  }
  by_policy-Tally error p p' otherwise u t h = ground arith
  by_policy-Tally apply p p' otherwise u t h = t h

  pub delete_present-Tally :
      (key : List V) (current : Row V) (p p' : CdcProgress V) (relation : SourceOrderRelation)
      → HasUniqueKeys ⦃e = key_eq⦄ p.rows_by_key
      → get ⦃e = key_eq⦄ key p.rows_by_key ≡ some current
      → delete_present py cdc key p relation ≡ ok p'
      → Tally 1 p p'
  unfolding delete_present
  delete_present-Tally key current p p' stale u g h = ground arith
  delete_present-Tally key current p p' equal u g h = ground arith
  delete_present-Tally key current p p' newer u g h =
      let shorter = length-remove ⦃e = key_eq⦄ key current p.rows_by_key u g in
      record {
        counted = ground arith;
        mutated = ground arith;
        balanced = ground (arith, shorter);
        keyed =
            subst (HasUniqueKeys ⦃e = key_eq⦄) (ground arith)
              (remove-HasUniqueKeys ⦃e = key_eq⦄ key p.rows_by_key u);
      }

  -- Nothing but the counter of unchanged rows moved.
  unchanged-Tally :
      (p p' : CdcProgress V)
      → HasUniqueKeys ⦃e = key_eq⦄ p.rows_by_key
      → record p { no_change_events = p.no_change_events + 1 } ≡ p'
      → Tally 1 p p'
  unchanged-Tally p p' u e =
      subst (Tally 1 p) e
        (record { counted = omega arith; mutated = refl; balanced = refl; keyed = u })

  equal_row-Tally :
      (candidate current : Row V) (p p' : CdcProgress V)
      → HasUniqueKeys ⦃e = key_eq⦄ p.rows_by_key
      → (if same_items py candidate current
          then ok (record p { no_change_events = p.no_change_events + 1 })
          else raise ordering_error)
        ≡ ok p'
      → Tally 1 p p'
  equal_row-Tally candidate current p p' u h = elim (Bool-cases (same_items py candidate current)) [
    | inl same ↦ unchanged-Tally p p' u (ground arith)
    | inr other ↦ ground arith
  ]

  pub write_present-Tally :
      (key : List V) (candidate current : Row V) (p p' : CdcProgress V)
      (relation : SourceOrderRelation)
      → HasUniqueKeys ⦃e = key_eq⦄ p.rows_by_key
      → get ⦃e = key_eq⦄ key p.rows_by_key ≡ some current
      → write_present py cdc key candidate current p relation ≡ ok p'
      → Tally 1 p p'
  unfolding write_present
  write_present-Tally key candidate current p p' stale u g h =
      equal_row-Tally candidate current p p' u h
  write_present-Tally key candidate current p p' equal u g h =
      equal_row-Tally candidate current p p' u h
  write_present-Tally key candidate current p p' newer u g h =
      let longer = length-put-present ⦃e = key_eq⦄ key candidate current p.rows_by_key g in
      let u' = put-HasUniqueKeys ⦃e = key_eq⦄ key candidate p.rows_by_key u in
      let same =
        same_items py (payload_without_cdc_metadata py cdc candidate)
          (payload_without_cdc_metadata py cdc current) in
      elim (Bool-cases same) [
        | inl unchanged ↦ record {
          counted = ground arith;
          mutated = ground arith;
          balanced = ground (arith, longer);
          keyed = subst (HasUniqueKeys ⦃e = key_eq⦄) (ground arith) u';
        }
        | inr changed ↦ record {
          counted = ground arith;
          mutated = ground arith;
          balanced = ground (arith, longer);
          keyed = subst (HasUniqueKeys ⦃e = key_eq⦄) (ground arith) u';
        }
      ]

  inserted-Tally :
      (key : List V) (candidate : Row V) (p p' : CdcProgress V)
      → HasUniqueKeys ⦃e = key_eq⦄ p.rows_by_key
      → get ⦃e = key_eq⦄ key p.rows_by_key ≡ none
      → record p {
        rows_by_key = put ⦃e = key_eq⦄ key candidate p.rows_by_key;
        inserted = p.inserted + 1;
        events_applied = p.events_applied + 1;
      }
        ≡ p'
      → Tally 1 p p'
  inserted-Tally key candidate p p' u g e =
      let longer = length-put-absent ⦃e = key_eq⦄ key candidate p.rows_by_key g in
      subst (Tally 1 p) e (record {
        counted = omega arith;
        mutated = omega arith;
        balanced = omega (arith, longer);
        keyed = put-HasUniqueKeys ⦃e = key_eq⦄ key candidate p.rows_by_key u;
      })

  pub insert_after-Tally :
      (merge_key : List Text) (key : List V) (event : CdcEvent V) (p p' : CdcProgress V)
      → HasUniqueKeys ⦃e = key_eq⦄ p.rows_by_key
      → get ⦃e = key_eq⦄ key p.rows_by_key ≡ none
      → insert_after py cdc merge_key key event p ≡ ok p'
      → Tally 1 p p'
  unfolding insert_after
  insert_after-Tally merge_key key event p p' u g h = elim (Option-cases event.after) [
    | inl missing ↦ ground arith
    | inr (after, present) ↦
        inserted-Tally key (candidate_row py cdc merge_key key event after []) p p' u g
          (ground arith)
  ]

  pub missing-Tally :
      (p p' : CdcProgress V)
      → HasUniqueKeys ⦃e = key_eq⦄ p.rows_by_key
      → record p { missing_delete_events_ignored = p.missing_delete_events_ignored + 1 } ≡ p'
      → Tally 1 p p'
  missing-Tally p p' u e =
      subst (Tally 1 p) e
        (record { counted = omega arith; mutated = refl; balanced = refl; keyed = u })
