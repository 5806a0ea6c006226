-- ===== src/CdcApply/Apply.antt =====
-- apply_cdc_current_state of apply/cdc.py: the loop over the events of a batch.
use fabric_data_framework.Prelude.{
  ◌+◌, not, none, some, List, [], ◌∷◌, map, PyEq, list_eq, nat_eq, option_eq, Text, unique, Result,
  ok, raise, ◌>>=◌, ◌>>◌, raise_if,
}
use fabric_data_framework.Prelude.Dict.{get, put}
use fabric_data_framework.Prelude.Sort.{sort_by}
use fabric_data_framework.Values.{PyValue, Row, value_eq, strip_columns}
use fabric_data_framework.Temporal.{SourceOrderRelation, stale, is_empty}
use fabric_data_framework.CurrentState.Apply.{Keyed}
use fabric_data_framework.Cdc.Contract.{CdcEvent, CdcNormalizedBatch}
use fabric_data_framework.CdcApply.Rows.{
  CdcApplyError, value_error, apply_error, CdcValues, target_key, event_key,
  assert_event_newer_than_target,
}
use fabric_data_framework.CdcApply.Write.{
  CdcDeleteAction, ApplyStrategy, CdcCurrentStateApplyResult, CdcProgress, is_current_state,
  apply_absent, apply_present,
}

module _ {V : Type 0} (py : PyValue V) (cdc : CdcValues V) where
  instance abbrev key_eq : PyEq (List V)
  key_eq = list_eq ⦃e = py.eq⦄

  unfoldable pub apply_ordered_event :
      List Text
      → CdcDeleteAction
      → List V
      → Row V
      → CdcEvent V
      → CdcProgress V
      → SourceOrderRelation
      → Result CdcApplyError (CdcProgress V)
  apply_ordered_event merge_key action key current event p stale =
      ok (record p { stale_events_ignored = p.stale_events_ignored + 1 })
  apply_ordered_event merge_key action key current event p relation =
      apply_present py cdc merge_key action key current event p relation event.operation

  -- One turn of the loop.
  unfoldable pub apply_event :
      CdcNormalizedBatch V
      → List Text
      → CdcDeleteAction
      → CdcEvent V
      → CdcProgress V
      → Result CdcApplyError (CdcProgress V)
  apply_event batch merge_key action event p = do
    key ← event_key py cdc merge_key event.key
    elim (get ⦃e = key_eq⦄ key p.rows_by_key) [
      | none ↦ apply_absent py cdc merge_key action key event p
      | some current ↦
          assert_event_newer_than_target py cdc current batch event
          >>= apply_ordered_event merge_key action key current event p
    ]

  unfoldable pub apply_events :
      CdcNormalizedBatch V
      → List Text
      → CdcDeleteAction
      → List (CdcEvent V)
      → CdcProgress V
      → Result CdcApplyError (CdcProgress V)
  apply_events batch merge_key action [] p = ok p
  apply_events batch merge_key action (event ∷ events) p =
      apply_event batch merge_key action event p >>= apply_events batch merge_key action events

  unfoldable pub index_target : List Text → List (Row V) → Keyed V → Result CdcApplyError (Keyed V)
  index_target merge_key [] rows = ok rows
  index_target merge_key (row ∷ existing) rows = do
    key ← target_key py cdc merge_key row
    elim (get ⦃e = key_eq⦄ key rows) [ some other ↦ raise apply_error | none ↦ ok tt ]
    index_target merge_key existing (put ⦃e = key_eq⦄ key row rows)

  abbrev pub before_events : Keyed V → CdcProgress V
  before_events rows = record {
    rows_by_key = rows;
    inserted = 0;
    updated = 0;
    deleted = 0;
    events_applied = 0;
    stale_events_ignored = 0;
    no_change_events = 0;
    missing_delete_events_ignored = 0;
    delete_policy_events_ignored = 0;
  }

  abbrev pub result_of : CdcProgress V → CdcCurrentStateApplyResult V
  result_of p = record {
    rows =
        map (λ entry. strip_columns py entry.1) (sort_by (λ entry. py.repr entry.0) p.rows_by_key);
    mutations = record { inserted = p.inserted; updated = p.updated; deleted = p.deleted };
    events_applied = p.events_applied;
    stale_events_ignored = p.stale_events_ignored;
    no_change_events = p.no_change_events;
    missing_delete_events_ignored = p.missing_delete_events_ignored;
    delete_policy_events_ignored = p.delete_policy_events_ignored;
  }

  unfoldable pub apply_cdc_current_state :
      List (Row V)
      → CdcNormalizedBatch V
      → List Text
      → ApplyStrategy
      → CdcDeleteAction
      → Result CdcApplyError (CdcCurrentStateApplyResult V)
  apply_cdc_current_state existing_rows batch merge_key strategy delete_action = do
    raise_if (not (is_current_state strategy)) value_error
    raise_if (is_empty merge_key) value_error
    raise_if (not (unique merge_key)) value_error
    rows ← index_target merge_key existing_rows []
    p ← apply_events batch merge_key delete_action batch.events (before_events rows)
    ok (result_of p)
