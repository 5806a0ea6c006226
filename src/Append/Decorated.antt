-- ===== src/Append/Decorated.antt =====
-- The rows that apply/append.py appends, as a later run finds them. `str` reads a stored text back,
-- and no stored text is None.
use fabric_data_framework.Prelude.{
  ◌≡◌, refl, ◌∙◌, inl, inr, false, ◌||◌, Option, none, some, List, [], ◌∷◌, ◌++◌, PyEq, ◌==◌,
  ==_iff, ==_refl, list_eq, nat_eq, Text, Bool-cases, Option-cases, ok, >>=-eq-ok, guard-ok, arith,
}
use fabric_data_framework.Prelude.Dict.{get, put, get-put}
use fabric_data_framework.Values.{PyValue, Row, get_value, value_eq}
use fabric_data_framework.Temporal.{is_empty}
use fabric_data_framework.CurrentState.Apply.{Keyed}
use fabric_data_framework.Append.Contract.{
  AppendValues, append_identity_hash, append_payload_hash, is_present, append_identity_fingerprint,
  identity_values, identity_of, existing_fingerprint, decorate,
}
use fabric_data_framework.Append.Apply.{evidence_differs, index_identities}

-- What a text is as a value: `str` gives it back, and it is not None.
pub record IsStored {V : Type 0} (py : PyValue V) (fns : AppendValues V) : Type 0 where
  pub read_back : (t : Text) → fns.str (fns.of_text t) ≡ t
  pub present : (t : Text) → ◌==◌ ⦃e = py.eq⦄ (fns.of_text t) py.null ≡ false

pub absent_lem : {A : Type 0} (o : Option A) → is_present o ≡ false → o ≡ none
absent_lem none h = refl
absent_lem (some a) h = cc

module _ {V : Type 0} (py : PyValue V) (fns : AppendValues V) where
  instance abbrev key_eq : PyEq (List V)
  key_eq = list_eq ⦃e = py.eq⦄

  abbrev pub Extends : Keyed V → Keyed V → Type 0
  Extends d d' =
      (j : List V) (v : Row V) → get ⦃e = key_eq⦄ j d ≡ some v → get ⦃e = key_eq⦄ j d' ≡ some v

  pub index-append :
      (columns : List Text) (xs ys : List (Row V)) (acc d : Keyed V)
      → index_identities py fns columns xs acc ≡ ok d
      → index_identities py fns columns (xs ++ ys) acc ≡ index_identities py fns columns ys d
  unfolding index_identities
  index-append columns [] ys acc d h = let e : acc ≡ d = cc in rw e
  index-append columns (x ∷ xs) ys acc d h =
      let (id, known, h1) = >>=-eq-ok (identity_of py fns columns x) _ h in
      let (fresh, h2) = guard-ok (is_present (get ⦃e = key_eq⦄ id acc)) _ _ h1 in
      let (agrees, h3) = guard-ok (evidence_differs py fns id x) _ _ h2 in
      rw (known, fresh, agrees) (index-append columns xs ys (put ⦃e = key_eq⦄ id x acc) d h3)

  -- A column that the row does not have is none of its identity.
  identity_values-put :
      (columns : List Text) (row : Row V) (k : Text) (v : V) (id : List V)
      → get k row ≡ none
      → identity_values py fns columns row ≡ ok id
      → identity_values py fns columns (put k v row) ≡ ok id
  unfolding identity_values
  identity_values-put [] row k v id absent h = h
  identity_values-put (column ∷ columns) row k v id absent h =
      elim (Option-cases (get column row)) [
        | inl missing ↦ cc (rw (identity_values, missing) at h)
        | inr (value, there) ↦
            let here = rw (identity_values, there) at h in
            let (full, h1) = guard-ok (◌==◌ ⦃e = py.eq⦄ value py.null) _ _ here in
            let (scalar, h2) = guard-ok (fns.is_collection value) _ _ h1 in
            let (values, found, h3) = >>=-eq-ok (identity_values py fns columns row) _ h2 in
            let other : (k == column) ≡ false = elim (Bool-cases (k == column)) [
              | inl same ↦ cc (absent, there, (==_iff k column).0 same)
              | inr other ↦ other
            ] in
            rw
              (
                identity_values,
                get-put,
                other,
                there,
                full,
                scalar,
                identity_values-put columns row k v values absent found,
              )
              h3
      ]

  get_value-put : (k : Text) (v : V) (row : Row V) → get_value py k (put k v row) ≡ v
  unfolding get_value
  get_value-put k v row = rw (get_value, get-put, ==_refl k)

  get_value-put_other :
      (k j : Text) (v : V) (row : Row V)
      → (k == j) ≡ false
      → get_value py j (put k v row) ≡ get_value py j row
  unfolding get_value
  get_value-put_other k j v row other = rw (get_value, get-put, other)

  -- A row that was decorated has its identity, its evidence and its fingerprint.
  pub decorated_lem :
      (columns : List Text) (row decorated : Row V) (id : List V) (hash : Text)
      → IsStored py fns
      → identity_of py fns columns row ≡ ok id
      → decorate py fns row id hash ≡ ok decorated
      → (identity_of py fns columns decorated ≡ ok id)
        × (evidence_differs py fns id decorated ≡ false)
        × ((incoming : Row V) → existing_fingerprint py fns decorated incoming ≡ ok hash)
  unfolding decorate identity_of existing_fingerprint
  decorated_lem columns row decorated id hash stored known h =
      let (owned, h1) =
        guard-ok
          (is_present (get append_identity_hash row) || is_present (get append_payload_hash row)) _
          _ h in
      let no_identity : get append_identity_hash row ≡ none =
        absent_lem (get append_identity_hash row) (ground arith) in
      let no_payload : get append_payload_hash row ≡ none =
        absent_lem (get append_payload_hash row) (ground arith) in
      let evidence = append_identity_fingerprint py fns id in
      let once = put append_identity_hash (fns.of_text evidence) row in
      let e : put append_payload_hash (fns.of_text hash) once ≡ decorated = cc in
      let (some_columns, known') = guard-ok (is_empty columns) _ _ known in
      let no_payload' : get append_payload_hash once ≡ none = rw get-put no_payload in
      let at_identity : get_value py append_identity_hash
            (put append_payload_hash (fns.of_text hash) once)
          ≡ fns.of_text evidence =
        get_value-put_other append_payload_hash append_identity_hash (fns.of_text hash) once refl
        ∙ get_value-put append_identity_hash (fns.of_text evidence) row in
      let at_payload = get_value-put append_payload_hash (fns.of_text hash) once in
      rw (← e) (
        rw some_columns (
            identity_values-put columns once append_payload_hash (fns.of_text hash) id no_payload' (
              identity_values-put columns row append_identity_hash (fns.of_text evidence) id
                no_identity known')),
        rw (at_identity, stored.present evidence, stored.read_back evidence, ==_refl evidence),
        λ incoming. rw (at_payload, stored.present hash, stored.read_back hash),
      )
