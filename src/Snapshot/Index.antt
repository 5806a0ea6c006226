-- ===== src/Snapshot/Index.antt =====
-- The dicts that apply/snapshot_diff.py makes of the target's rows and of the candidate's.
use fabric_data_framework.Prelude.{
  ◌+◌, ◌≡◌, refl, inl, inr, false, Option, none, some, List, [], ◌∷◌, PyEq, ◌==◌, ==_iff, ==_refl,
  list_eq, Text, length, All, Bool-cases, ok, >>=-eq-ok, guard-ok, arith,
}
use fabric_data_framework.Prelude.Dict.{
  HasUniqueKeys, get, put, get-put, put-HasUniqueKeys, length-put-absent,
}
use fabric_data_framework.Values.{PyValue, Row}
use fabric_data_framework.CurrentState.Apply.{Keyed}
use fabric_data_framework.Snapshot.Plan.{is_some, has, snapshot_key, index}

is_some-false : {A : Type 0} (o : Option A) → is_some o ≡ false → o ≡ none
is_some-false none h = refl
is_some-false (some a) h = cc

module _ {V : Type 0} (py : PyValue V) where
  instance abbrev key_eq : PyEq (List V)
  key_eq = list_eq ⦃e = py.eq⦄

  -- The row has a key, and the dict has the row there.
  abbrev pub IsPlaced : List Text → Keyed V → Row V → Type 0
  IsPlaced merge_key d row =
      (key : List V) × (snapshot_key py merge_key row ≡ ok key)
      × (get ⦃e = key_eq⦄ key d ≡ some row)

  -- The dict has each of the rows at its key, and nothing else.
  abbrev pub IsIndexOf : List Text → List (Row V) → Keyed V → Type 0
  IsIndexOf merge_key rows d =
      All (IsPlaced merge_key d) rows × HasUniqueKeys ⦃e = key_eq⦄ d × (length d ≡ length rows)

  abbrev Extends : Keyed V → Keyed V → Type 0
  Extends acc d =
      (j : List V) (v : Row V) → get ⦃e = key_eq⦄ j acc ≡ some v → get ⦃e = key_eq⦄ j d ≡ some v

  put-Extends :
      (key : List V) (row : Row V) (acc d : Keyed V)
      → get ⦃e = key_eq⦄ key acc ≡ none
      → Extends (put ⦃e = key_eq⦄ key row acc) d
      → Extends acc d × (get ⦃e = key_eq⦄ key d ≡ some row)
  put-Extends key row acc d absent e = (
    λ j v there. elim (Bool-cases (◌==◌ ⦃e = key_eq⦄ key j)) [
      | inl same ↦ cc (absent, there, (==_iff ⦃e = key_eq⦄ key j).0 same)
      | inr other ↦ e j v (rw (get-put, other) there)
    ],
    e key row (rw (get-put, ==_refl ⦃e = key_eq⦄ key) refl),
  )

  index_from :
      (merge_key : List Text) (rows : List (Row V)) (acc d : Keyed V)
      → HasUniqueKeys ⦃e = key_eq⦄ acc
      → index py merge_key rows acc ≡ ok d
      → Extends acc d
        × All (IsPlaced merge_key d) rows
        × HasUniqueKeys ⦃e = key_eq⦄ d
        × (length d ≡ length rows + length acc)
  unfolding index
  index_from merge_key [] acc d u h =
      let same : acc ≡ d = cc in rw (← same) (λ j v there. there, tt, u, omega arith)
  index_from merge_key (row ∷ rows) acc d u h =
      let (key, keyed, guarded) = >>=-eq-ok (snapshot_key py merge_key row) _ h in
      let (fresh, rest) = guard-ok (has py key acc) _ _ guarded in
      let absent = is_some-false (get ⦃e = key_eq⦄ key acc) fresh in
      let (extends, placed, u', counted) =
        index_from merge_key rows (put ⦃e = key_eq⦄ key row acc) d
          (put-HasUniqueKeys ⦃e = key_eq⦄ key row acc u) rest in
      let (kept, there) = put-Extends key row acc d absent extends in
      (
        kept,
        ((key, keyed, there), placed),
        u',
        omega (arith, length-put-absent ⦃e = key_eq⦄ key row acc absent),
      )

  pub index-IsIndexOf :
      (merge_key : List Text) (rows : List (Row V)) (d : Keyed V)
      → index py merge_key rows [] ≡ ok d
      → IsIndexOf merge_key rows d
  index-IsIndexOf merge_key rows d h =
      let (extends, placed, u, counted) = index_from merge_key rows [] d tt h in
      (placed, u, omega arith)
