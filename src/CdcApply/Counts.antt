-- ===== src/CdcApply/Counts.antt =====
-- The counters of apply_cdc_current_state in apply/cdc.py against its events and its rows.
use fabric_data_framework.Prelude.{
  ◌+◌, ◌≡◌, refl, ◌∙◌, subst, not, none, some, List, [], ◌∷◌, length, length-map, PyEq, list_eq,
  nat_eq, Text, unique, Option-cases, inl, inr, ok, raise_if, >>=-eq-ok, arith,
}
use fabric_data_framework.Prelude.Dict.{
  HasUniqueKeys, get, put, put-HasUniqueKeys, length-put-absent,
}
use fabric_data_framework.Prelude.Sort.{by_text, sort_with, length-sort_with}
use fabric_data_framework.Values.{PyValue, Row, value_eq, strip_columns}
use fabric_data_framework.Temporal.{SourceOrderRelation, stale, equal, newer, is_empty}
use fabric_data_framework.CurrentState.Apply.{Keyed}
use fabric_data_framework.Cdc.Contract.{
  CdcEvent, CdcNormalizedBatch, CdcOperation, insert, update, delete,
}
use fabric_data_framework.CdcApply.Rows.{
  value_error, CdcValues, target_key, event_key, candidate_row, assert_event_newer_than_target,
}
use fabric_data_framework.CdcApply.Apply.{
  apply_ordered_event, apply_event, apply_events, index_target, before_events, result_of,
  apply_cdc_current_state,
}
use fabric_data_framework.CdcApply.Write.{
  CdcDeleteAction, ApplyStrategy, CdcCurrentStateApplyResult, CdcProgress, apply_absent_as,
  apply_absent, write_after, apply_present, is_current_state,
}
use fabric_data_framework.CdcApply.Tally.{
  Tally, by_policy-Tally, delete_present-Tally, write_present-Tally, insert_after-Tally,
  missing-Tally,
}

module _ {V : Type 0} (py : PyValue V) (cdc : CdcValues V) where
  instance abbrev key_eq : PyEq (List V)
  key_eq = list_eq ⦃e = py.eq⦄

  apply_absent_as-Tally :
      (merge_key : List Text) (action : CdcDeleteAction) (key : List V) (event : CdcEvent V)
      (p p' : CdcProgress V) (operation : CdcOperation)
      → HasUniqueKeys ⦃e = key_eq⦄ p.rows_by_key
      → get ⦃e = key_eq⦄ key p.rows_by_key ≡ none
      → apply_absent_as py cdc merge_key action key event p operation ≡ ok p'
      → Tally py cdc 1 p p'
  unfolding apply_absent_as
  apply_absent_as-Tally merge_key action key event p p' delete u g h =
      by_policy-Tally py cdc action p p' _ u (λ k. missing-Tally py cdc p p' u (ground arith)) h
  apply_absent_as-Tally merge_key action key event p p' insert u g h =
      insert_after-Tally py cdc merge_key key event p p' u g h
  apply_absent_as-Tally merge_key action key event p p' update u g h =
      insert_after-Tally py cdc merge_key key event p p' u g h

  write_after-Tally :
      (merge_key : List Text) (key : List V) (current : Row V) (event : CdcEvent V)
      (p p' : CdcProgress V) (relation : SourceOrderRelation)
      → HasUniqueKeys ⦃e = key_eq⦄ p.rows_by_key
      → get ⦃e = key_eq⦄ key p.rows_by_key ≡ some current
      → write_after py cdc merge_key key current event p relation ≡ ok p'
      → Tally py cdc 1 p p'
  unfolding write_after
  write_after-Tally merge_key key current event p p' relation u g h =
      elim (Option-cases event.after) [
        | inl missing ↦ ground arith
        | inr (after, present) ↦
            write_present-Tally py cdc key (candidate_row py cdc merge_key key event after current)
              current p p' relation u g (rw (present, write_after) at h)
      ]

  apply_present-Tally :
      (merge_key : List Text) (action : CdcDeleteAction) (key : List V) (current : Row V)
      (event : CdcEvent V) (p p' : CdcProgress V) (relation : SourceOrderRelation)
      (operation : CdcOperation)
      → HasUniqueKeys ⦃e = key_eq⦄ p.rows_by_key
      → get ⦃e = key_eq⦄ key p.rows_by_key ≡ some current
      → apply_present py cdc merge_key action key current event p relation operation ≡ ok p'
      → Tally py cdc 1 p p'
  unfolding apply_present
  apply_present-Tally merge_key action key current event p p' relation delete u g h =
      by_policy-Tally py cdc action p p' _ u
        (delete_present-Tally py cdc key current p p' relation u g) h
  apply_present-Tally merge_key action key current event p p' relation insert u g h =
      write_after-Tally merge_key key current event p p' relation u g h
  apply_present-Tally merge_key action key current event p p' relation update u g h =
      write_after-Tally merge_key key current event p p' relation u g h

  apply_ordered_event-Tally :
      (merge_key : List Text) (action : CdcDeleteAction) (key : List V) (current : Row V)
      (event : CdcEvent V) (p p' : CdcProgress V) (relation : SourceOrderRelation)
      → HasUniqueKeys ⦃e = key_eq⦄ p.rows_by_key
      → get ⦃e = key_eq⦄ key p.rows_by_key ≡ some current
      → apply_ordered_event py cdc merge_key action key current event p relation ≡ ok p'
      → Tally py cdc 1 p p'
  unfolding apply_ordered_event
  apply_ordered_event-Tally merge_key action key current event p p' stale u g h = record {
    counted = ground arith;
    mutated = ground arith;
    balanced = ground arith;
    keyed = subst (HasUniqueKeys ⦃e = key_eq⦄) (ground arith) u;
  }
  apply_ordered_event-Tally merge_key action key current event p p' equal u g h =
      apply_present-Tally merge_key action key current event p p' equal event.operation u g h
  apply_ordered_event-Tally merge_key action key current event p p' newer u g h =
      apply_present-Tally merge_key action key current event p p' newer event.operation u g h

  apply_event-Tally :
      (batch : CdcNormalizedBatch V) (merge_key : List Text) (action : CdcDeleteAction)
      (event : CdcEvent V) (p p' : CdcProgress V)
      → HasUniqueKeys ⦃e = key_eq⦄ p.rows_by_key
      → apply_event py cdc batch merge_key action event p ≡ ok p'
      → Tally py cdc 1 p p'
  unfolding apply_event apply_absent
  apply_event-Tally batch merge_key action event p p' u h =
      let (key, found, rest) = >>=-eq-ok (event_key py cdc merge_key event.key) _ h in
      elim (Option-cases (get ⦃e = key_eq⦄ key p.rows_by_key)) [
        | inl absent ↦
            apply_absent_as-Tally merge_key action key event p p' event.operation u absent
              (rw absent at rest)
        | inr (current, present) ↦
            let (relation, ordered, applied) =
              >>=-eq-ok (assert_event_newer_than_target py cdc current batch event) _
                (rw present at rest) in
            apply_ordered_event-Tally merge_key action key current event p p' relation u present
              applied
      ]

  apply_events-Tally :
      (batch : CdcNormalizedBatch V) (merge_key : List Text) (action : CdcDeleteAction)
      (events : List (CdcEvent V)) (p p' : CdcProgress V)
      → HasUniqueKeys ⦃e = key_eq⦄ p.rows_by_key
      → apply_events py cdc batch merge_key action events p ≡ ok p'
      → Tally py cdc (length events) p p'
  unfolding apply_events
  apply_events-Tally batch merge_key action [] p p' u h =
      let e : p ≡ p' = ground arith in
      subst (Tally py cdc 0 p) e
        (record { counted = omega arith; mutated = refl; balanced = refl; keyed = u })
  apply_events-Tally batch merge_key action (event ∷ events) p p' u h =
      let (q, first, rest) = >>=-eq-ok (apply_event py cdc batch merge_key action event p) _ h in
      let a = apply_event-Tally batch merge_key action event p q u first in
      let b = apply_events-Tally batch merge_key action events q p' a.keyed rest in
      record {
        counted = omega (arith, a.counted, b.counted);
        mutated = omega (arith, a.mutated, b.mutated);
        balanced = omega (arith, a.balanced, b.balanced);
        keyed = b.keyed;
      }

  index_target-length :
      (merge_key : List Text) (existing : List (Row V)) (rows rows' : Keyed V)
      → index_target py cdc merge_key existing rows ≡ ok rows'
      → HasUniqueKeys ⦃e = key_eq⦄ rows
      → HasUniqueKeys ⦃e = key_eq⦄ rows' × (length rows' ≡ length rows + length existing)
  unfolding index_target
  index_target-length merge_key [] rows rows' h u =
      let e : rows ≡ rows' = ground arith in rw (← e) (u, omega arith)
  index_target-length merge_key (row ∷ existing) rows rows' h u =
      let (key, found, h1) = >>=-eq-ok (target_key py cdc merge_key row) _ h in
      elim (Option-cases (get ⦃e = key_eq⦄ key rows)) [
        | inr (other, present) ↦ ground arith
        | inl absent ↦
            let longer = length-put-absent ⦃e = key_eq⦄ key row rows absent in
            let (u', counted) =
              index_target-length merge_key existing (put ⦃e = key_eq⦄ key row rows) rows'
                (rw absent at h1) (put-HasUniqueKeys ⦃e = key_eq⦄ key row rows u) in
            (u', omega (arith, counted, longer))
      ]

-- A CDC apply that succeeds accounts for every event and every row: the events applied, stale,
-- without change, of missing deletes and ignored by policy are together the batch's events; the
-- mutations are together the events applied; and the rows afterwards and the rows deleted are
-- together the rows before and the rows inserted.
pub apply_reconciles :
    {V : Type 0} (py : PyValue V) (cdc : CdcValues V) (existing : List (Row V))
    (batch : CdcNormalizedBatch V) (merge_key : List Text) (strategy : ApplyStrategy)
    (action : CdcDeleteAction) (r : CdcCurrentStateApplyResult V)
    → apply_cdc_current_state py cdc existing batch merge_key strategy action ≡ ok r
    → (r.events_applied + r.stale_events_ignored + r.no_change_events
          + r.missing_delete_events_ignored + r.delete_policy_events_ignored
        ≡ length batch.events)
      × (r.mutations.inserted + r.mutations.updated + r.mutations.deleted ≡ r.events_applied)
      × (length r.rows + r.mutations.deleted ≡ length existing + r.mutations.inserted)
unfolding apply_cdc_current_state
apply_reconciles py cdc existing batch merge_key strategy action r h =
    let (u1, k1, h1) = >>=-eq-ok (raise_if (not (is_current_state strategy)) value_error) _ h in
    let (u2, k2, h2) = >>=-eq-ok (raise_if (is_empty merge_key) value_error) _ h1 in
    let (u3, k3, h3) = >>=-eq-ok (raise_if (not (unique merge_key)) value_error) _ h2 in
    let (rows, indexed, h4) = >>=-eq-ok (index_target py cdc merge_key existing []) _ h3 in
    let (p, applies, h5) =
      >>=-eq-ok
        (apply_events py cdc batch merge_key action batch.events (before_events py cdc rows)) _
        h4 in
    let (u, indexed_all) = index_target-length py cdc merge_key existing [] rows indexed tt in
    let t =
      apply_events-Tally py cdc batch merge_key action batch.events (before_events py cdc rows) p u
        applies in
    let same : result_of py cdc p ≡ r = cc in
    let written : length (result_of py cdc p).rows ≡ length p.rows_by_key =
      length-map (λ entry. strip_columns py entry.1)
        (sort_with (by_text (λ entry. py.repr entry.0)) p.rows_by_key)
      ∙ length-sort_with (by_text (λ entry. py.repr entry.0)) p.rows_by_key in
    rw (← same) (
      omega (arith, t.counted),
      omega (arith, t.mutated),
      omega (arith, t.balanced, written, indexed_all),
    )
