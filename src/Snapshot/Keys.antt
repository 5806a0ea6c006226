-- ===== src/Snapshot/Keys.antt =====
-- The sets of keys of apply/snapshot_diff.py, by what the two dicts have at a key.
use fabric_data_framework.Prelude.{
  ◌≡◌, refl, Bool, true, false, ◌&&◌, not, inl, inr, List, [], ◌∷◌, PyEq, ◌==◌, list_eq, Text,
  length, elem, elem-keep, Bool-cases, Option-cases, ◌≤◌, length-keep, length-map, arith,
  if◌then◌else◌,
}
use fabric_data_framework.Prelude.Dict.{
  Dict, HasUniqueKeys, get, or_else, get-update, update-HasUniqueKeys,
}
use fabric_data_framework.Prelude.Sort.{elem-sort_with, length-sort_with}
use fabric_data_framework.Values.{PyValue}
use fabric_data_framework.CurrentState.Apply.{Keyed}
use fabric_data_framework.Snapshot.Plan.{
  is_some, keys, has, changed_at, inserted_of, missing_of, common_of, updated_of, unchanged_of,
  final_map,
}

elem-keys : {K V : Type 0} ⦃e : PyEq K⦄ (j : K) (d : Dict K V) → elem j (keys d) ≡ is_some (get j d)
unfolding get
elem-keys j [] = refl
elem-keys j ((k, v) ∷ d) = ground (arith, elem-keys j d, Bool-cases (k == j))

module _ {V : Type 0} (py : PyValue V) where
  instance abbrev key_eq : PyEq (List V)
  key_eq = list_eq ⦃e = py.eq⦄

  pub elem-inserted_of :
      (current candidate : Keyed V) (j : List V)
      → elem ⦃e = key_eq⦄ j (inserted_of py current candidate)
        ≡ (has py j candidate && not (has py j current))
  unfolding inserted_of
  elem-inserted_of current candidate j =
      rw (elem-sort_with ⦃e = key_eq⦄, elem-keep ⦃e = key_eq⦄, elem-keys ⦃e = key_eq⦄ j candidate)

  pub elem-missing_of :
      (current candidate : Keyed V) (j : List V)
      → elem ⦃e = key_eq⦄ j (missing_of py current candidate)
        ≡ (has py j current && not (has py j candidate))
  unfolding missing_of
  elem-missing_of current candidate j =
      rw (elem-sort_with ⦃e = key_eq⦄, elem-keep ⦃e = key_eq⦄, elem-keys ⦃e = key_eq⦄ j current)

  elem-common_of :
      (current candidate : Keyed V) (j : List V)
      → elem ⦃e = key_eq⦄ j (common_of py current candidate)
        ≡ (has py j current && has py j candidate)
  unfolding common_of
  elem-common_of current candidate j =
      rw (elem-sort_with ⦃e = key_eq⦄, elem-keep ⦃e = key_eq⦄, elem-keys ⦃e = key_eq⦄ j current)

  changed_at-common :
      (tracked : List Text) (current candidate : Keyed V) (j : List V)
      → ((has py j current && has py j candidate) && changed_at py tracked current candidate j)
        ≡ changed_at py tracked current candidate j
  unfolding changed_at
  changed_at-common tracked current candidate j = elim (Option-cases (get ⦃e = key_eq⦄ j current)) [
    | inl absent ↦ rw (changed_at, absent)
    | inr (before, there) ↦ elim (Option-cases (get ⦃e = key_eq⦄ j candidate)) [
      | inl absent ↦ rw (changed_at, there, absent)
      | inr (after, there') ↦ rw (changed_at, there, there')
    ]
  ]

  pub elem-updated_of :
      (tracked : List Text) (current candidate : Keyed V) (j : List V)
      → elem ⦃e = key_eq⦄ j (updated_of py tracked current candidate)
        ≡ changed_at py tracked current candidate j
  elem-updated_of tracked current candidate j =
      rw (elem-keep ⦃e = key_eq⦄, elem-common_of current candidate j)
        (changed_at-common tracked current candidate j)

  pub elem-unchanged_of :
      (tracked : List Text) (current candidate : Keyed V) (j : List V)
      → elem ⦃e = key_eq⦄ j (unchanged_of py tracked current candidate) ≡ (
          (has py j current && has py j candidate)
          && not (changed_at py tracked current candidate j))
  elem-unchanged_of tracked current candidate j = rw (
    elem-keep ⦃e = key_eq⦄,
    elem-common_of current candidate j,
    elem-updated_of tracked current candidate j,
  )

  pub length-missing_of :
      (current candidate : Keyed V) → length (missing_of py current candidate) ≤ length current
  unfolding missing_of
  length-missing_of current candidate =
      let kept = length-keep (λ k. not (has py k candidate)) (keys current) in
      rw length-sort_with (rw (length-map _ current) at kept)

  pub get-final_map :
      (deletes : Bool) (current candidate : Keyed V) (j : List V)
      → HasUniqueKeys ⦃e = key_eq⦄ candidate
      → get ⦃e = key_eq⦄ j (final_map py deletes current candidate) ≡ (
          if deletes
          then get ⦃e = key_eq⦄ j candidate
          else or_else (get ⦃e = key_eq⦄ j candidate) (get ⦃e = key_eq⦄ j current))
  unfolding final_map
  get-final_map true current candidate j u = refl
  get-final_map false current candidate j u = get-update ⦃e = key_eq⦄ current candidate j u

  pub final_map-HasUniqueKeys :
      (deletes : Bool) (current candidate : Keyed V)
      → HasUniqueKeys ⦃e = key_eq⦄ current
      → HasUniqueKeys ⦃e = key_eq⦄ candidate
      → HasUniqueKeys ⦃e = key_eq⦄ (final_map py deletes current candidate)
  unfolding final_map
  final_map-HasUniqueKeys true current candidate u w = w
  final_map-HasUniqueKeys false current candidate u w =
      update-HasUniqueKeys ⦃e = key_eq⦄ current candidate u
