-- ===== src/Append/Rerun.antt =====
-- A second run of apply_append of apply/append.py over what the first one left.
use mathlib.Core.List.{append-nil}
use fabric_data_framework.Prelude.{
  map, ap, All_of, ◌+◌, ◌≡◌, refl, subst, ◌∙◌, false, not, List, [], ◌∷◌, ◌++◌, PyEq, ==_refl,
  list_eq, nat_eq, Text, unique, length, All, ok, >>=-eq-ok, guard-ok, arith,
}
use fabric_data_framework.Prelude.Dict.{get}
use fabric_data_framework.Values.{PyValue, Row, value_eq, strip_columns}
use fabric_data_framework.Temporal.{is_empty}
use fabric_data_framework.CurrentState.Apply.{Keyed}
use fabric_data_framework.Append.Contract.{AppendValues}
use fabric_data_framework.Append.Apply.{
  AppendApplyResult, Incoming, Appended, index_identities, collect_incoming, append_row,
  append_each, apply_append,
}
use fabric_data_framework.Append.Counts.{append_each_counts}
use fabric_data_framework.Append.Order.{IsCollected, collect_incoming-IsCollected}
use fabric_data_framework.Append.Decorated.{IsStored, index-append}
use fabric_data_framework.Append.Clean.{
  IsClean, HasOwnNames, AreClean, strip_rows-IsClean, collect_incoming-AreClean, append_each-All,
}
use fabric_data_framework.Append.Handled.{same_result, Entries, IsHandled, append_each-IsHandled}

module _ {V : Type 0} (py : PyValue V) (fns : AppendValues V) where
  instance abbrev key_eq : PyEq (List V)
  key_eq = list_eq ⦃e = py.eq⦄

  append_row_again :
      (existing : Keyed V) (incoming : Entries V) (id : List V) (order : List (List V))
      (p : Appended V)
      → IsHandled py fns incoming existing id
      → append_each py fns existing incoming (id ∷ order) p
        ≡ append_each py fns existing incoming order (record p { replayed = p.replayed + 1 })
  unfolding append_each append_row
  append_row_again existing incoming id order p (current, row, hash, there, entry, finger) =
      rw (append_each, entry, append_row, there, finger, ==_refl hash)

  append_each_again :
      (existing : Keyed V) (incoming : Entries V) (order : List (List V)) (p : Appended V)
      → All (IsHandled py fns incoming existing) order
      → append_each py fns existing incoming order p
        ≡ ok (record p { replayed = p.replayed + length order })
  unfolding append_each
  append_each_again existing incoming [] p all = ground arith
  append_each_again existing incoming (id ∷ order) p (handled, all) =
      append_row_again existing incoming id order p handled
      ∙ append_each_again existing incoming order (record p { replayed = p.replayed + 1 }) all
      ∙ ground arith

  index_none : (columns : List Text) (d : Keyed V) → index_identities py fns columns [] d ≡ ok d
  unfolding index_identities
  index_none columns d = refl

  -- The stages of a run.
  run :
      (rows incoming_rows : List (Row V)) (columns : List Text) (d : Keyed V) (s : Incoming V)
      (p : Appended V)
      → is_empty columns ≡ false
      → not (unique columns) ≡ false
      → index_identities py fns columns rows [] ≡ ok d
      → collect_incoming py fns columns incoming_rows
          (record { unique_incoming = []; order = []; duplicate_incoming = 0 })
        ≡ ok s
      → append_each py fns d s.unique_incoming s.order (record { appended = []; replayed = 0 })
        ≡ ok p
      → apply_append py fns rows incoming_rows columns
        ≡ ok (record {
          rows = map (strip_columns py) (rows ++ p.appended);
          inserted = length p.appended;
          replayed = p.replayed;
          duplicate_incoming = s.duplicate_incoming;
        })
  unfolding apply_append
  run rows incoming_rows columns d s p some_columns names indexed collected appended =
      rw (some_columns, names, indexed, collected, appended)

  nothing-AreClean : AreClean py fns []
  unfolding get
  nothing-AreClean id row hash h = cc

  start-IsCollected :
      (columns : List Text)
      → IsCollected py fns columns
          (record { unique_incoming = []; order = []; duplicate_incoming = 0 })
  unfolding get
  start-IsCollected columns = record { keyed = λ id row hash h. cc; distinct = tt; held = tt }

-- Where rows were appended, a stored text is not None and reads back as itself, no column stands twice
-- in a row of the target or an incoming one, and stripping leaves the names of their columns and of
-- the framework's own columns: appending the same incoming rows to the result again succeeds and
-- appends nothing. The rows stay, and each incoming row that was inserted or replayed is a replay.
pub append_again :
    {V : Type 0} (py : PyValue V) (fns : AppendValues V) (existing incoming_rows : List (Row V))
    (columns : List Text) (r : AppendApplyResult V)
    → IsStored py fns
    → HasOwnNames py
    → All (IsClean py) existing
    → All (IsClean py) incoming_rows
    → apply_append py fns existing incoming_rows columns ≡ ok r
    → apply_append py fns r.rows incoming_rows columns
      ≡ ok (record r { inserted = 0; replayed = r.inserted + r.replayed })
unfolding apply_append
append_again py fns existing incoming_rows columns r stored own target_clean incoming_clean h =
    let (keyed, h1) = guard-ok (is_empty columns) _ _ h in
    let (names, h2) = guard-ok (not (unique columns)) _ _ h1 in
    let (d, at_d, h3) = >>=-eq-ok (index_identities py fns columns existing []) _ h2 in
    let (s, at_s, h4) = >>=-eq-ok (collect_incoming py fns columns incoming_rows _) _ h3 in
    let (p, at_p, h5) = >>=-eq-ok (append_each py fns d s.unique_incoming s.order _) _ h4 in
    let c =
      collect_incoming-IsCollected py fns columns incoming_rows _ s
        (start-IsCollected py fns columns) at_s in
    let (d', indexed, grows, handled) =
      append_each-IsHandled py fns columns d s.unique_incoming s.order d _ p stored c.keyed
        c.distinct (All_of _ s.order (λ id. refl)) (index_none py fns columns d) at_p in
    let are =
      collect_incoming-AreClean py fns columns incoming_rows _ s incoming_clean
        (nothing-AreClean py fns) at_s in
    let appended_clean = append_each-All py fns d s.unique_incoming s.order _ p own are tt at_p in
    let kept = strip_rows-IsClean py existing p.appended target_clean appended_clean in
    let e0 : record {
      rows = map (strip_columns py) (existing ++ p.appended);
      inserted = length p.appended;
      replayed = p.replayed;
      duplicate_incoming = s.duplicate_incoming;
    }
        ≡ r =
      cc in
    let e : record {
      rows = existing ++ p.appended;
      inserted = length p.appended;
      replayed = p.replayed;
      duplicate_incoming = s.duplicate_incoming;
    }
        ≡ r =
      rw kept at e0 in
    let counted = append_each_counts py fns d s.unique_incoming s.order _ p at_p in
    let again =
      append_each_again py fns d' s.unique_incoming s.order (record { appended = []; replayed = 0 })
        handled in
    let target = index-append py fns columns existing p.appended [] d at_d ∙ indexed in
    subst
      (λ r.
        apply_append py fns r.rows incoming_rows columns
        ≡ ok (record r { inserted = 0; replayed = r.inserted + r.replayed }))
      e
      (run py fns (existing ++ p.appended) incoming_rows columns d' s
          (record { appended = []; replayed = 0 + length s.order }) keyed names target at_s again
        ∙ same_result (existing ++ p.appended)
            (map (strip_columns py) ((existing ++ p.appended) ++ [])) (length p.appended) p.replayed
            s.duplicate_incoming (length s.order)
            (ap (map (strip_columns py)) (append-nil (existing ++ p.appended)) ∙ kept) counted)
