-- ===== src/Append/Handled.antt =====
-- The identities that apply/append.py has handled after a run.
use fabric_data_framework.Prelude.{
  ℕ, ◌+◌, ◌≡◌, refl, ap, subst, ◌∙◌, inl, inr, false, not, none, some, List, [], ◌∷◌, ◌++◌, PyEq,
  ◌==◌, ==_iff, ==_refl, list_eq, nat_eq, Text, All, All-zip, Bool-cases, Option-cases, Result, ok,
  >>=-eq-ok, guard-ok, arith,
}
use fabric_data_framework.Prelude.Dict.{Dict, get, put, get-put}
use fabric_data_framework.Values.{PyValue, Row, value_eq}
use fabric_data_framework.CurrentState.Apply.{Keyed}
use fabric_data_framework.Append.Contract.{
  AppendApplyError, AppendValues, identity_of, existing_fingerprint, decorate,
}
use fabric_data_framework.Append.Apply.{
  AppendApplyResult, Appended, index_identities, append_row, append_each,
}
use fabric_data_framework.Append.Order.{Distinct}
use fabric_data_framework.Append.Decorated.{IsStored, Extends, index-append, decorated_lem}

equal_lem : (a b : Text) → not (a == b) ≡ false → a ≡ b
equal_lem a b h = (==_iff a b).0 (ground arith)

pub same_result :
    {V : Type 0} (rows kept : List (Row V)) (inserted replayed duplicates count : ℕ)
    → kept ≡ rows
    → inserted + replayed ≡ 0 + 0 + count
    → (let r : Result AppendApplyError (AppendApplyResult V) = ok (record {
      rows = kept;
      inserted = 0;
      replayed = 0 + count;
      duplicate_incoming = duplicates;
    }) in
        r)
      ≡ ok (record {
        rows = rows;
        inserted = 0;
        replayed = inserted + replayed;
        duplicate_incoming = duplicates;
      })
same_result rows kept inserted replayed duplicates count same h = ground arith

abbrev pub Entries : Type 0 → Type 0
Entries V = Dict (List V) (Row V × Text)

module _ {V : Type 0} (py : PyValue V) (fns : AppendValues V) where
  instance abbrev key_eq : PyEq (List V)
  key_eq = list_eq ⦃e = py.eq⦄

  -- The target has a row of the identity, with the fingerprint of the incoming row.
  abbrev pub IsHandled : Entries V → Keyed V → List V → Type 0
  IsHandled incoming d id =
      (current : Row V) × (row : Row V) × (hash : Text) × (get ⦃e = key_eq⦄ id d ≡ some current)
      × (get ⦃e = key_eq⦄ id incoming ≡ some (row, hash))
      × (existing_fingerprint py fns current row ≡ ok hash)

  Extends-IsHandled :
      (incoming : Entries V) (d d' : Keyed V) (id : List V)
      → Extends py fns d d'
      → IsHandled incoming d id
      → IsHandled incoming d' id
  Extends-IsHandled incoming d d' id grows (current, row, hash, there, entry, same) =
      (current, row, hash, grows id current there, entry, same)

  put-Extends :
      (id : List V) (row : Row V) (d : Keyed V)
      → get ⦃e = key_eq⦄ id d ≡ none
      → Extends py fns d (put ⦃e = key_eq⦄ id row d)
  put-Extends id row d fresh j v there = elim (Bool-cases (◌==◌ ⦃e = key_eq⦄ id j)) [
    | inl same ↦ cc (fresh, there, (==_iff ⦃e = key_eq⦄ id j).0 same)
    | inr other ↦ rw (get-put ⦃e = key_eq⦄, other) there
  ]

  -- An appended row: what its identity is, and that the target is indexed with it.
  append_row_cases :
      (columns : List Text) (existing d : Keyed V) (id : List V) (row : Row V) (hash : Text)
      (p p' : Appended V)
      → IsStored py fns
      → identity_of py fns columns row ≡ ok id
      → get ⦃e = key_eq⦄ id d ≡ get ⦃e = key_eq⦄ id existing
      → index_identities py fns columns p.appended existing ≡ ok d
      → append_row py fns existing id row hash p ≡ ok p'
      → (d' : Keyed V) × (index_identities py fns columns p'.appended existing ≡ ok d')
        × Extends py fns d d'
        × ((j : List V)
            → ◌==◌ ⦃e = key_eq⦄ id j ≡ false
            → get ⦃e = key_eq⦄ j d' ≡ get ⦃e = key_eq⦄ j d)
        × ((current : Row V) × (get ⦃e = key_eq⦄ id d' ≡ some current)
            × (existing_fingerprint py fns current row ≡ ok hash))
  unfolding append_row index_identities
  append_row_cases columns existing d id row hash p p' stored known same indexed h =
      elim (Option-cases (get ⦃e = key_eq⦄ id existing)) [
        | inr (current, there) ↦
            let (fingerprint, found, h1) =
              >>=-eq-ok (existing_fingerprint py fns current row) _ (rw (append_row, there) at h) in
            let (agrees, h2) = guard-ok (not (fingerprint == hash)) _ _ h1 in
            let e : p.appended ≡ p'.appended = cc in
            (
              d,
              rw (← e) indexed,
              λ j v t. t,
              λ j other. refl,
              (current, same ∙ there, found ∙ ap ok (equal_lem fingerprint hash agrees)),
            )
        | inl absent ↦
            let (decorated, made, h1) =
              >>=-eq-ok (decorate py fns row id hash) _ (rw (append_row, absent) at h) in
            let e : p.appended ++ decorated ∷ [] ≡ p'.appended = cc in
            let (named, agrees, finger) =
              decorated_lem py fns columns row decorated id hash stored known made in
            let fresh : get ⦃e = key_eq⦄ id d ≡ none = same ∙ absent in
            let d' = put ⦃e = key_eq⦄ id decorated d in
            let longer : index_identities py fns columns (decorated ∷ []) d ≡ ok d' =
              rw (named, fresh, agrees) in
            (
              d',
              subst (λ rows. index_identities py fns columns rows existing ≡ ok d') e
                  (index-append py fns columns p.appended (decorated ∷ []) existing d indexed
                    ∙ longer),
              put-Extends id decorated d fresh,
              λ j other. rw (get-put ⦃e = key_eq⦄, other),
              (decorated, rw (get-put ⦃e = key_eq⦄, ==_refl ⦃e = key_eq⦄ id), finger row),
            )
      ]

  -- After the loop over the identities the target is indexed with what was appended, and all
  -- identities are handled.
  pub append_each-IsHandled :
      (columns : List Text) (existing : Keyed V) (incoming : Entries V) (order : List (List V))
      (d : Keyed V) (p p' : Appended V)
      → IsStored py fns
      → ((id : List V) (row : Row V) (hash : Text)
          → get ⦃e = key_eq⦄ id incoming ≡ some (row, hash)
          → identity_of py fns columns row ≡ ok id)
      → Distinct ⦃e = key_eq⦄ order
      → All (λ id. get ⦃e = key_eq⦄ id d ≡ get ⦃e = key_eq⦄ id existing) order
      → index_identities py fns columns p.appended existing ≡ ok d
      → append_each py fns existing incoming order p ≡ ok p'
      → (d' : Keyed V) × (index_identities py fns columns p'.appended existing ≡ ok d')
        × Extends py fns d d'
        × All (IsHandled incoming d') order
  unfolding append_each
  append_each-IsHandled columns existing incoming [] d p p' stored keyed distinct agree indexed h =
      let e : p ≡ p' = cc in (d, rw (← e) indexed, λ j v t. t, tt)
  append_each-IsHandled columns existing incoming (id ∷ order) d p p' stored keyed (new, distinct)
        (same, agree) indexed h =
      elim (Option-cases (get ⦃e = key_eq⦄ id incoming)) [
        | inl missing ↦ cc (rw (append_each, missing) at h)
        | inr ((row, hash), entry) ↦
            let (mid, first, rest) =
              >>=-eq-ok (append_row py fns existing id row hash p) _
                (rw (append_each, entry) at h) in
            let (d1, indexed1, grows1, others, (current, there, finger)) =
              append_row_cases columns existing d id row hash p mid stored (keyed id row hash entry)
                same indexed first in
            let (d2, indexed2, grows2, handled) =
              append_each-IsHandled columns existing incoming order d1 mid p' stored keyed distinct
                (All-zip _ _ _ order (λ j other same_j. others j other ∙ same_j) new agree) indexed1
                rest in
            (
              d2,
              indexed2,
              λ j v t. grows2 j v (grows1 j v t),
              ((current, row, hash, grows2 id current there, entry, finger), handled),
            )
      ]
