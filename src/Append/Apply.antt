-- ===== src/Append/Apply.antt =====
-- apply_append of apply/append.py.
use fabric_data_framework.Prelude.{
  ℕ, ◌+◌, Bool, ◌&&◌, not, none, some, List, [], ◌∷◌, ◌++◌, PyEq, ◌==◌, nat_eq, list_eq, Text, map,
  unique, length, Result, ok, raise, ◌>>=◌, ◌>>◌, raise_if,
}
use fabric_data_framework.Prelude.Dict.{Dict, get, put}
use fabric_data_framework.Values.{PyValue, Row, get_value, strip_columns}
use fabric_data_framework.Temporal.{is_empty}
use fabric_data_framework.CurrentState.Apply.{Keyed}
use fabric_data_framework.Append.Contract.{
  AppendApplyError, identity_error, conflict_error, key_error, AppendValues, append_identity_hash,
  is_present, append_payload_fingerprint, append_identity_fingerprint, identity_of,
  existing_fingerprint, decorate,
}

pub record AppendApplyResult (V : Type 0) : Type 0 where
  pub rows : List (Row V)
  pub inserted : ℕ
  pub replayed : ℕ
  pub duplicate_incoming : ℕ

-- The variables of the loop over the incoming rows.
pub record Incoming (V : Type 0) : Type 0 where
  pub unique_incoming : Dict (List V) (Row V × Text)
  pub order : List (List V)
  pub duplicate_incoming : ℕ

-- The variables of the loop over the identities.
pub record Appended (V : Type 0) : Type 0 where
  pub appended : List (Row V)
  pub replayed : ℕ

module _ {V : Type 0} (py : PyValue V) (fns : AppendValues V) where
  instance abbrev key_eq : PyEq (List V)
  key_eq = list_eq ⦃e = py.eq⦄

  abbrev pub evidence_differs : List V → Row V → Bool
  evidence_differs identity row =
      let stored = get_value py append_identity_hash row in
      not (◌==◌ ⦃e = py.eq⦄ stored py.null)
      && not (fns.str stored == append_identity_fingerprint py fns identity)

  unfoldable pub index_identities :
      List Text → List (Row V) → Keyed V → Result AppendApplyError (Keyed V)
  unfolding identity_of get_value append_identity_fingerprint
  index_identities append_identity [] existing_by_identity = ok existing_by_identity
  index_identities append_identity (row ∷ existing) existing_by_identity = do
    identity ← identity_of py fns append_identity row
    raise_if (is_present (get ⦃e = key_eq⦄ identity existing_by_identity)) identity_error
    raise_if (evidence_differs identity row) identity_error
    index_identities append_identity existing (put ⦃e = key_eq⦄ identity row existing_by_identity)

  unfoldable pub collect_row :
      List V → Row V → Text → Incoming V → Result AppendApplyError (Incoming V)
  collect_row identity row payload_hash s = elim (get ⦃e = key_eq⦄ identity s.unique_incoming) [
    | some prior ↦ do
      raise_if (not (prior.1 == payload_hash)) conflict_error
      ok (record s { duplicate_incoming = s.duplicate_incoming + 1 })
    | none ↦ ok (record s {
      unique_incoming = put ⦃e = key_eq⦄ identity (row, payload_hash) s.unique_incoming;
      order = s.order ++ identity ∷ [];
    })
  ]

  unfoldable pub collect_incoming :
      List Text → List (Row V) → Incoming V → Result AppendApplyError (Incoming V)
  unfolding identity_of append_payload_fingerprint collect_row
  collect_incoming append_identity [] s = ok s
  collect_incoming append_identity (row ∷ incoming) s = do
    identity ← identity_of py fns append_identity row
    s' ← collect_row identity row (append_payload_fingerprint py fns row) s
    collect_incoming append_identity incoming s'

  unfoldable pub append_row :
      Keyed V → List V → Row V → Text → Appended V → Result AppendApplyError (Appended V)
  unfolding existing_fingerprint decorate
  append_row existing_by_identity identity row payload_hash p =
      elim (get ⦃e = key_eq⦄ identity existing_by_identity) [
        | some current ↦ do
          fingerprint ← existing_fingerprint py fns current row
          raise_if (not (fingerprint == payload_hash)) conflict_error
          ok (record p { replayed = p.replayed + 1 })
        | none ↦ do
          decorated ← decorate py fns row identity payload_hash
          ok (record p { appended = p.appended ++ decorated ∷ [] })
      ]

  unfoldable pub append_each :
      Keyed V
      → Dict (List V) (Row V × Text)
      → List (List V)
      → Appended V
      → Result AppendApplyError (Appended V)
  unfolding append_row
  append_each existing_by_identity unique_incoming [] p = ok p
  append_each existing_by_identity unique_incoming (identity ∷ order) p =
      elim (get ⦃e = key_eq⦄ identity unique_incoming) [
        | none ↦ raise key_error
        | some entry ↦ do
          p' ← append_row existing_by_identity identity entry.0 entry.1 p
          append_each existing_by_identity unique_incoming order p'
      ]

  unfoldable pub apply_append :
      List (Row V) → List (Row V) → List Text → Result AppendApplyError (AppendApplyResult V)
  unfolding index_identities collect_incoming append_each
  apply_append existing incoming_rows append_identity = do
    raise_if (is_empty append_identity) identity_error
    raise_if (not (unique append_identity)) identity_error
    existing_by_identity ← index_identities append_identity existing []
    s ←
        collect_incoming append_identity incoming_rows
          (record { unique_incoming = []; order = []; duplicate_incoming = 0 })
    p ←
        append_each existing_by_identity s.unique_incoming s.order
          (record { appended = []; replayed = 0 })
    ok (record {
      rows = map (strip_columns py) (existing ++ p.appended);
      inserted = length p.appended;
      replayed = p.replayed;
      duplicate_incoming = s.duplicate_incoming;
    })
