-- ===== src/Append/Counts.antt =====
-- How apply_append of apply/append.py counts the incoming rows.
use fabric_data_framework.Prelude.{
  ◌+◌, ◌≡◌, inl, inr, List, [], ◌∷◌, PyEq, ◌==◌, list_eq, nat_eq, Text, unique, not, length,
  length-append, length-map, ◌++◌, Option-cases, ok, >>=-eq-ok, guard-ok, arith,
}
use fabric_data_framework.Prelude.Dict.{Dict, get}
use fabric_data_framework.Values.{strip_columns, PyValue, Row}
use fabric_data_framework.Temporal.{is_empty}
use fabric_data_framework.CurrentState.Apply.{Keyed}
use fabric_data_framework.Append.Contract.{
  AppendValues, identity_of, append_payload_fingerprint, existing_fingerprint, decorate,
}
use fabric_data_framework.Append.Apply.{
  AppendApplyResult, Incoming, Appended, index_identities, collect_row, collect_incoming,
  append_row, append_each, apply_append,
}

module _ {V : Type 0} (py : PyValue V) (fns : AppendValues V) where
  instance abbrev key_eq : PyEq (List V)
  key_eq = list_eq ⦃e = py.eq⦄

  collect_row_counts :
      (identity : List V) (row : Row V) (hash : Text) (s s' : Incoming V)
      → collect_row py fns identity row hash s ≡ ok s'
      → length s'.order + s'.duplicate_incoming ≡ length s.order + s.duplicate_incoming + 1
  unfolding collect_row
  collect_row_counts identity row hash s s' h =
      elim (Option-cases (get ⦃e = key_eq⦄ identity s.unique_incoming)) [
        | inl fresh ↦ ground (arith, length-append s.order (identity ∷ []))
        | inr (prior, there) ↦ ground arith
      ]

  collect_counts :
      (columns : List Text) (incoming : List (Row V)) (s s' : Incoming V)
      → collect_incoming py fns columns incoming s ≡ ok s'
      → length s'.order + s'.duplicate_incoming
        ≡ length s.order + s.duplicate_incoming + length incoming
  unfolding collect_incoming
  collect_counts columns [] s s' h = ground arith
  collect_counts columns (row ∷ incoming) s s' h =
      let (identity, known, h1) = >>=-eq-ok (identity_of py fns columns row) _ h in
      let (mid, first, rest) =
        >>=-eq-ok (collect_row py fns identity row (append_payload_fingerprint py fns row) s) _
          h1 in
      omega (
        arith,
        collect_row_counts identity row (append_payload_fingerprint py fns row) s mid first,
        collect_counts columns incoming mid s' rest,
      )

  append_row_counts :
      (existing : Keyed V) (identity : List V) (row : Row V) (hash : Text) (p p' : Appended V)
      → append_row py fns existing identity row hash p ≡ ok p'
      → length p'.appended + p'.replayed ≡ length p.appended + p.replayed + 1
  unfolding append_row
  append_row_counts existing identity row hash p p' h =
      elim (Option-cases (get ⦃e = key_eq⦄ identity existing)) [
        | inr (current, there) ↦
            let (fingerprint, at, h1) =
              >>=-eq-ok (existing_fingerprint py fns current row) _ (rw (append_row, there) at h) in
            let (same, h2) = guard-ok (not (fingerprint == hash)) _ _ h1 in ground arith
        | inl absent ↦
            let (decorated, at, h1) =
              >>=-eq-ok (decorate py fns row identity hash) _ (rw (append_row, absent) at h) in
            ground (arith, length-append p.appended (decorated ∷ []))
      ]

  pub append_each_counts :
      (existing : Keyed V) (incoming : Dict (List V) (Row V × Text)) (order : List (List V))
      (p p' : Appended V)
      → append_each py fns existing incoming order p ≡ ok p'
      → length p'.appended + p'.replayed ≡ length p.appended + p.replayed + length order
  unfolding append_each
  append_each_counts existing incoming [] p p' h = ground arith
  append_each_counts existing incoming (identity ∷ order) p p' h =
      elim (Option-cases (get ⦃e = key_eq⦄ identity incoming)) [
        | inl absent ↦ cc (rw (append_each, absent) at h)
        | inr ((row, hash), there) ↦
            let (mid, first, rest) =
              >>=-eq-ok (append_row py fns existing identity row hash p) _
                (rw (append_each, there) at h) in
            omega (
              arith,
              append_row_counts existing identity row hash p mid first,
              append_each_counts existing incoming order mid p' rest,
            )
      ]

  -- Where rows are appended, each incoming row is counted once: as inserted, as a replay of a row
  -- of the target, or as a duplicate of an earlier incoming row.
  pub append_accounted :
      (existing incoming_rows : List (Row V)) (columns : List Text) (r : AppendApplyResult V)
      → apply_append py fns existing incoming_rows columns ≡ ok r
      → (r.inserted + r.replayed + r.duplicate_incoming ≡ length incoming_rows)
        × (length r.rows ≡ length existing + r.inserted)
  unfolding apply_append
  append_accounted existing incoming_rows columns r h =
      let (keyed, h1) = guard-ok (is_empty columns) _ _ h in
      let (distinct, h2) = guard-ok (not (unique columns)) _ _ h1 in
      let (d, at_d, h3) = >>=-eq-ok (index_identities py fns columns existing []) _ h2 in
      let (s, at_s, h4) = >>=-eq-ok (collect_incoming py fns columns incoming_rows _) _ h3 in
      let (p, at_p, h5) = >>=-eq-ok (append_each py fns d s.unique_incoming s.order _) _ h4 in
      let collected = collect_counts columns incoming_rows _ s at_s in
      let appended = append_each_counts d s.unique_incoming s.order _ p at_p in
      let kept = length-map (strip_columns py) (existing ++ p.appended) in
      (ground (arith, collected, appended), ground (arith, kept, length-append existing p.appended))
