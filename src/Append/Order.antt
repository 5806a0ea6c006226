-- ===== src/Append/Order.antt =====
-- What the loop over the incoming rows in apply/append.py collects: identities that are distinct, and
-- the row of each under it.
use fabric_data_framework.Prelude.{
  ◌+◌, ◌≡◌, subst, inl, inr, true, false, some, List, [], ◌∷◌, ◌++◌, PyEq, ◌==◌, ==_iff, ==_refl,
  list_eq, nat_eq, Text, All, All-map, All-append-one, Bool-cases, Option-cases, ok, >>=-eq-ok,
  arith,
}
use fabric_data_framework.Prelude.Dict.{get, put, get-put}
use fabric_data_framework.Values.{PyValue, Row}
use fabric_data_framework.Append.Contract.{
  AppendValues, is_present, identity_of, append_payload_fingerprint,
}
use fabric_data_framework.Append.Apply.{Incoming, collect_row, collect_incoming}

module _ {A : Type 0} ⦃e : PyEq A⦄ where
  abbrev pub Distinct : List A → Type 0
  Distinct [] = Unit
  Distinct (x ∷ xs) = All (λ y. (x == y) ≡ false) xs × Distinct xs

  append_one-Distinct :
      (a : A) (xs : List A) → All (λ x. (x == a) ≡ false) xs → Distinct xs → Distinct (xs ++ a ∷ [])
  append_one-Distinct a [] n d = (tt, tt)
  append_one-Distinct a (x ∷ xs) (m, n) (f, d) =
      (All-append-one (λ y. (x == y) ≡ false) xs a f m, append_one-Distinct a xs n d)

module _ {V : Type 0} (py : PyValue V) (fns : AppendValues V) where
  instance abbrev key_eq : PyEq (List V)
  key_eq = list_eq ⦃e = py.eq⦄

  -- Each row stands under its identity; the identities in order are distinct, and all have a row.
  pub record IsCollected (columns : List Text) (s : Incoming V) : Type 0 where
    pub keyed :
        (id : List V) (row : Row V) (hash : Text)
        → get ⦃e = key_eq⦄ id s.unique_incoming ≡ some (row, hash)
        → identity_of py fns columns row ≡ ok id
    pub distinct : Distinct ⦃e = key_eq⦄ s.order
    pub held : All (λ id. is_present (get ⦃e = key_eq⦄ id s.unique_incoming) ≡ true) s.order

  collect_row-IsCollected :
      (columns : List Text) (id : List V) (row : Row V) (hash : Text) (s s' : Incoming V)
      → identity_of py fns columns row ≡ ok id
      → IsCollected columns s
      → collect_row py fns id row hash s ≡ ok s'
      → IsCollected columns s'
  unfolding collect_row
  collect_row-IsCollected columns id row hash s s' known c h =
      elim (Option-cases (get ⦃e = key_eq⦄ id s.unique_incoming)) [
        | inr (prior, there) ↦
            let e : record s { duplicate_incoming = s.duplicate_incoming + 1 } ≡ s' =
              ground arith in
            subst (IsCollected columns) e
              (record { keyed = c.keyed; distinct = c.distinct; held = c.held })
        | inl fresh ↦
            let e : record s {
              unique_incoming = put ⦃e = key_eq⦄ id (row, hash) s.unique_incoming;
              order = s.order ++ id ∷ [];
            }
                ≡ s' =
              ground arith in
            subst (IsCollected columns) e (record {
              keyed = λ j row' hash' there. elim (Bool-cases (◌==◌ ⦃e = key_eq⦄ id j)) [
                | inl same ↦
                    cc (rw (get-put ⦃e = key_eq⦄, same) at there, (==_iff ⦃e = key_eq⦄ id j).0 same)
                | inr other ↦ c.keyed j row' hash' (rw (get-put ⦃e = key_eq⦄, other) at there)
              ];
              distinct =
                  append_one-Distinct ⦃e = key_eq⦄ id s.order
                    (All-map _ _ s.order
                      (λ j there. elim (Bool-cases (◌==◌ ⦃e = key_eq⦄ j id)) [
                        | inl same ↦ cc (there, fresh, (==_iff ⦃e = key_eq⦄ j id).0 same)
                        | inr other ↦ other
                      ])
                      c.held)
                    c.distinct;
              held =
                  All-append-one _ s.order id
                    (All-map _ _ s.order
                      (λ j there.
                        rw (get-put ⦃e = key_eq⦄)
                          (ground (arith, Bool-cases (◌==◌ ⦃e = key_eq⦄ id j))))
                      c.held)
                    (rw (get-put ⦃e = key_eq⦄, ==_refl ⦃e = key_eq⦄ id));
            })
      ]

  pub collect_incoming-IsCollected :
      (columns : List Text) (incoming : List (Row V)) (s s' : Incoming V)
      → IsCollected columns s
      → collect_incoming py fns columns incoming s ≡ ok s'
      → IsCollected columns s'
  unfolding collect_incoming
  collect_incoming-IsCollected columns [] s s' c h =
      let e : s ≡ s' = cc in subst (IsCollected columns) e c
  collect_incoming-IsCollected columns (row ∷ incoming) s s' c h =
      let (id, known, h1) = >>=-eq-ok (identity_of py fns columns row) _ h in
      let (mid, first, rest) =
        >>=-eq-ok (collect_row py fns id row (append_payload_fingerprint py fns row) s) _ h1 in
      collect_incoming-IsCollected columns incoming mid s'
        (collect_row-IsCollected columns id row (append_payload_fingerprint py fns row) s mid known
          c first)
        rest
