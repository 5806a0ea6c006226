-- ===== src/CdcApply/Write.antt =====
-- What one event of a batch does to a row that is there or absent, in apply/cdc.py.
use fabric_data_framework.Prelude.{
  ℕ, ◌+◌, Bool, true, false, none, some, List, [], if◌then◌else◌, PyEq, list_eq, nat_eq, option_eq,
  Text, Result, ok, raise,
}
use fabric_data_framework.Prelude.Dict.{put, remove}
use fabric_data_framework.Values.{PyValue, Row, value_eq, same_items}
use fabric_data_framework.Temporal.{SourceOrderRelation, newer}
use fabric_data_framework.CurrentState.Apply.{Keyed}
use fabric_data_framework.Cdc.Contract.{CdcEvent, CdcOperation, delete}
use fabric_data_framework.CdcApply.Rows.{
  CdcApplyError, ordering_error, delete_rejected, assertion_error, CdcValues,
  payload_without_cdc_metadata, candidate_row,
}

pub data CdcDeleteAction : Type 0 where
  apply ignore error : CdcDeleteAction

pub data ApplyStrategy : Type 0 where
  append replace upsert scd1 scd2 snapshot_diff current_projection : ApplyStrategy

pub record MutationCounts : Type 0 where
  pub inserted : ℕ
  pub updated : ℕ
  pub deleted : ℕ

pub record CdcCurrentStateApplyResult (V : Type 0) : Type 0 where
  pub rows : List (Row V)
  pub mutations : MutationCounts
  pub events_applied : ℕ
  pub stale_events_ignored : ℕ
  pub no_change_events : ℕ
  pub missing_delete_events_ignored : ℕ
  pub delete_policy_events_ignored : ℕ

-- The target and the counters of the loop.
pub record CdcProgress (V : Type 0) : Type 0 where
  pub rows_by_key : Keyed V
  pub inserted : ℕ
  pub updated : ℕ
  pub deleted : ℕ
  pub events_applied : ℕ
  pub stale_events_ignored : ℕ
  pub no_change_events : ℕ
  pub missing_delete_events_ignored : ℕ
  pub delete_policy_events_ignored : ℕ

abbrev pub is_current_state : ApplyStrategy → Bool
is_current_state upsert = true
is_current_state scd1 = true
is_current_state _ = false

module _ {V : Type 0} (py : PyValue V) (cdc : CdcValues V) where
  instance abbrev key_eq : PyEq (List V)
  key_eq = list_eq ⦃e = py.eq⦄

  -- A DELETE, given what it does where the policy applies it.
  unfoldable pub by_policy :
      CdcDeleteAction
      → CdcProgress V
      → Result CdcApplyError (CdcProgress V)
      → Result CdcApplyError (CdcProgress V)
  by_policy ignore p otherwise =
      ok (record p { delete_policy_events_ignored = p.delete_policy_events_ignored + 1 })
  by_policy error p otherwise = raise delete_rejected
  by_policy apply p otherwise = otherwise

  abbrev removed : List V → CdcProgress V → CdcProgress V
  removed key p = record p {
    rows_by_key = remove ⦃e = key_eq⦄ key p.rows_by_key;
    deleted = p.deleted + 1;
    events_applied = p.events_applied + 1;
  }

  unfoldable pub delete_present :
      List V → CdcProgress V → SourceOrderRelation → Result CdcApplyError (CdcProgress V)
  delete_present key p newer = ok (removed key p)
  delete_present key p _ = raise ordering_error

  -- An insert or an update of a key that has no row in the target.
  unfoldable pub insert_after :
      List Text → List V → CdcEvent V → CdcProgress V → Result CdcApplyError (CdcProgress V)
  insert_after merge_key key event p = elim event.after [
    | none ↦ raise assertion_error
    | some after ↦ ok (record p {
      rows_by_key =
          put ⦃e = key_eq⦄ key (candidate_row py cdc merge_key key event after []) p.rows_by_key;
      inserted = p.inserted + 1;
      events_applied = p.events_applied + 1;
    })
  ]

  unfoldable pub apply_absent_as :
      List Text
      → CdcDeleteAction
      → List V
      → CdcEvent V
      → CdcProgress V
      → CdcOperation
      → Result CdcApplyError (CdcProgress V)
  apply_absent_as merge_key action key event p delete =
      by_policy action p
        (ok (record p { missing_delete_events_ignored = p.missing_delete_events_ignored + 1 }))
  apply_absent_as merge_key action key event p _ = insert_after merge_key key event p

  -- The key has no row in the target.
  unfoldable pub apply_absent :
      List Text
      → CdcDeleteAction
      → List V
      → CdcEvent V
      → CdcProgress V
      → Result CdcApplyError (CdcProgress V)
  apply_absent merge_key action key event p =
      apply_absent_as merge_key action key event p event.operation

  -- An insert or update of a row that is there, by its order after that row.
  unfoldable pub write_present :
      List V
      → Row V
      → Row V
      → CdcProgress V
      → SourceOrderRelation
      → Result CdcApplyError (CdcProgress V)
  write_present key candidate current p newer =
      if same_items py (payload_without_cdc_metadata py cdc candidate)
        (payload_without_cdc_metadata py cdc current)
      then ok (record p {
        rows_by_key = put ⦃e = key_eq⦄ key candidate p.rows_by_key;
        no_change_events = p.no_change_events + 1;
      })
      else ok (record p {
        rows_by_key = put ⦃e = key_eq⦄ key candidate p.rows_by_key;
        updated = p.updated + 1;
        events_applied = p.events_applied + 1;
      })
  write_present key candidate current p _ =
      if same_items py candidate current
      then ok (record p { no_change_events = p.no_change_events + 1 })
      else raise ordering_error

  unfoldable pub write_after :
      List Text
      → List V
      → Row V
      → CdcEvent V
      → CdcProgress V
      → SourceOrderRelation
      → Result CdcApplyError (CdcProgress V)
  write_after merge_key key current event p relation = elim event.after [
    | none ↦ raise assertion_error
    | some after ↦
        write_present key (candidate_row py cdc merge_key key event after current) current p
          relation
  ]

  -- The key has a row, against which the event is not stale.
  unfoldable pub apply_present :
      List Text
      → CdcDeleteAction
      → List V
      → Row V
      → CdcEvent V
      → CdcProgress V
      → SourceOrderRelation
      → CdcOperation
      → Result CdcApplyError (CdcProgress V)
  apply_present merge_key action key current event p relation delete =
      by_policy action p (delete_present key p relation)
  apply_present merge_key action key current event p relation _ =
      write_after merge_key key current event p relation
