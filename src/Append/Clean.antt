-- ===== src/Append/Clean.antt =====
-- Rows of apply/append.py whose names of columns have no space around them: the result holds them as
-- they are.
use fabric_data_framework.Prelude.{
  ◌≡◌, refl, ap, ◌∙◌, subst, inl, inr, some, List, [], ◌∷◌, ◌++◌, map, ◌||◌, PyEq, ◌==◌, list_eq,
  nat_eq, Text, All, All-append-one, Bool-cases, Option-cases, ok, >>=-eq-ok, guard-ok, not, ok-inj,
  arith,
}
use fabric_data_framework.Prelude.Dict.{
  get, put, get-put, update, update-nil, HasUniqueKeys, put-HasUniqueKeys,
}
use fabric_data_framework.Values.{PyValue, Row, strip_columns}
use fabric_data_framework.CurrentState.Apply.{Keyed}
use fabric_data_framework.Append.Contract.{
  AppendValues, append_identity_hash, append_payload_hash, is_present, identity_of,
  append_payload_fingerprint, append_identity_fingerprint, existing_fingerprint, decorate,
}
use fabric_data_framework.Append.Apply.{
  Incoming, Appended, collect_row, collect_incoming, append_row, append_each,
}
use fabric_data_framework.Append.Handled.{Entries}

module _ {V : Type 0} (py : PyValue V) where
  -- A dict, in which no key stands twice, and whose keys stripping leaves as they are.
  pub record IsClean (row : Row V) : Type 0 where
    pub unique : HasUniqueKeys row
    pub names : All (λ item. py.strip item.0 ≡ item.0) row

  -- The names of the framework's own columns are left too.
  pub record HasOwnNames : Type 0 where
    pub identity : py.strip append_identity_hash ≡ append_identity_hash
    pub payload : py.strip append_payload_hash ≡ append_payload_hash

  strip_names :
      (row : Row V)
      → All (λ item. py.strip item.0 ≡ item.0) row
      → map (λ item. (py.strip item.0, item.1)) row ≡ row
  strip_names [] names = refl
  strip_names ((k, v) ∷ row) (name, names) = rw (name, strip_names row names)

  strip_columns-IsClean : (row : Row V) → IsClean row → strip_columns py row ≡ row
  unfolding strip_columns
  strip_columns-IsClean row clean =
      ap (update []) (strip_names row clean.names) ∙ update-nil row clean.unique

  pub strip_rows-IsClean :
      (rows more : List (Row V))
      → All IsClean rows
      → All IsClean more
      → map (strip_columns py) (rows ++ more) ≡ rows ++ more
  strip_rows-IsClean [] [] cs ds = refl
  strip_rows-IsClean [] (row ∷ more) cs (d, ds) =
      rw (strip_columns-IsClean row d, strip_rows-IsClean [] more cs ds)
  strip_rows-IsClean (row ∷ rows) more (c, cs) ds =
      rw (strip_columns-IsClean row c, strip_rows-IsClean rows more cs ds)

  put_names :
      (k : Text) (v : V) (row : Row V)
      → py.strip k ≡ k
      → All (λ item. py.strip item.0 ≡ item.0) row
      → All (λ item. py.strip item.0 ≡ item.0) (put k v row)
  unfolding put
  put_names k v [] name names = (name, tt)
  put_names k v ((j, w) ∷ row) name (first, names) = elim (Bool-cases (j == k)) [
    | inl same ↦ rw same (name, names)
    | inr other ↦ rw other (first, put_names k v row name names)
  ]

  put-IsClean :
      (k : Text) (v : V) (row : Row V) → py.strip k ≡ k → IsClean row → IsClean (put k v row)
  put-IsClean k v row name clean = record {
    unique = put-HasUniqueKeys k v row clean.unique;
    names = put_names k v row name clean.names;
  }

module _ {V : Type 0} (py : PyValue V) (fns : AppendValues V) where
  instance abbrev key_eq : PyEq (List V)
  key_eq = list_eq ⦃e = py.eq⦄

  -- All rows of the entries are clean.
  abbrev pub AreClean : Entries V → Type 0
  AreClean entries =
      (id : List V) (row : Row V) (hash : Text)
      → get ⦃e = key_eq⦄ id entries ≡ some (row, hash)
      → IsClean py row

  collect_row-AreClean :
      (id : List V) (row : Row V) (hash : Text) (s s' : Incoming V)
      → IsClean py row
      → AreClean s.unique_incoming
      → collect_row py fns id row hash s ≡ ok s'
      → AreClean s'.unique_incoming
  unfolding collect_row
  collect_row-AreClean id row hash s s' clean are h =
      elim (Option-cases (get ⦃e = key_eq⦄ id s.unique_incoming)) [
        | inr (prior, there) ↦
            let e : s.unique_incoming ≡ s'.unique_incoming = ground arith in subst AreClean e are
        | inl fresh ↦
            let e : put ⦃e = key_eq⦄ id (row, hash) s.unique_incoming ≡ s'.unique_incoming =
              ground arith in
            subst AreClean e (λ j row' hash' there. elim (Bool-cases (◌==◌ ⦃e = key_eq⦄ id j)) [
              | inl same ↦
                  let entry : some (row, hash) ≡ some (row', hash') =
                    rw (get-put ⦃e = key_eq⦄, same) at there in
                  let e' : row ≡ row' = cc in subst (IsClean py) e' clean
              | inr other ↦ are j row' hash' (rw (get-put ⦃e = key_eq⦄, other) at there)
            ])
      ]

  pub collect_incoming-AreClean :
      (columns : List Text) (incoming : List (Row V)) (s s' : Incoming V)
      → All (IsClean py) incoming
      → AreClean s.unique_incoming
      → collect_incoming py fns columns incoming s ≡ ok s'
      → AreClean s'.unique_incoming
  unfolding collect_incoming
  collect_incoming-AreClean columns [] s s' clean are h =
      let e : s ≡ s' = cc in subst (λ t. AreClean t.unique_incoming) e are
  collect_incoming-AreClean columns (row ∷ incoming) s s' (c, cs) are h =
      let (id, known, h1) = >>=-eq-ok (identity_of py fns columns row) _ h in
      let hash = append_payload_fingerprint py fns row in
      let (mid, first, rest) = >>=-eq-ok (collect_row py fns id row hash s) _ h1 in
      collect_incoming-AreClean columns incoming mid s' cs
        (collect_row-AreClean id row hash s mid c are first) rest

  decorate-IsClean :
      (row decorated : Row V) (id : List V) (hash : Text)
      → HasOwnNames py
      → IsClean py row
      → decorate py fns row id hash ≡ ok decorated
      → IsClean py decorated
  unfolding decorate
  decorate-IsClean row decorated id hash own clean h =
      let (owned, h1) =
        guard-ok
          (is_present (get append_identity_hash row) || is_present (get append_payload_hash row)) _
          _ h in
      subst (IsClean py) (ok-inj _ _ h1) (
        put-IsClean py append_payload_hash (fns.of_text hash) _ own.payload (
          put-IsClean py append_identity_hash (fns.of_text (append_identity_fingerprint py fns id))
            row own.identity clean))

  append_row-All :
      (existing : Keyed V) (id : List V) (row : Row V) (hash : Text) (p p' : Appended V)
      → HasOwnNames py
      → IsClean py row
      → All (IsClean py) p.appended
      → append_row py fns existing id row hash p ≡ ok p'
      → All (IsClean py) p'.appended
  unfolding append_row
  append_row-All existing id row hash p p' own clean all h =
      elim (Option-cases (get ⦃e = key_eq⦄ id existing)) [
        | inr (current, there) ↦
            let (fingerprint, found, h1) =
              >>=-eq-ok (existing_fingerprint py fns current row) _ (rw (append_row, there) at h) in
            let (agrees, h2) = guard-ok (not (fingerprint == hash)) _ _ h1 in
            let e : p.appended ≡ p'.appended = cc in subst (All (IsClean py)) e all
        | inl absent ↦
            let (decorated, made, h1) =
              >>=-eq-ok (decorate py fns row id hash) _ (rw (append_row, absent) at h) in
            let e : p.appended ++ decorated ∷ [] ≡ p'.appended = cc in
            subst (All (IsClean py)) e (
              All-append-one (IsClean py) p.appended decorated all
                (decorate-IsClean row decorated id hash own clean made))
      ]

  -- What the loop appends is clean.
  pub append_each-All :
      (existing : Keyed V) (incoming : Entries V) (order : List (List V)) (p p' : Appended V)
      → HasOwnNames py
      → AreClean incoming
      → All (IsClean py) p.appended
      → append_each py fns existing incoming order p ≡ ok p'
      → All (IsClean py) p'.appended
  unfolding append_each
  append_each-All existing incoming [] p p' own are all h =
      let e : p ≡ p' = cc in subst (λ q. All (IsClean py) q.appended) e all
  append_each-All existing incoming (id ∷ order) p p' own are all h =
      elim (Option-cases (get ⦃e = key_eq⦄ id incoming)) [
        | inl missing ↦ cc (rw (append_each, missing) at h)
        | inr ((row, hash), entry) ↦
            let (mid, first, rest) =
              >>=-eq-ok (append_row py fns existing id row hash p) _
                (rw (append_each, entry) at h) in
            append_each-All existing incoming order mid p' own are
              (append_row-All existing id row hash p mid own (are id row hash entry) all first) rest
      ]
