-- ===== src/Prelude/Sort.antt =====
-- `sorted`: stable insertion, by a test of what stands strictly below what.
use fabric_data_framework.Prelude.Dict.{Dict, HasUniqueKeys, get}
use fabric_data_framework.Prelude.Lists.{All, length, elem}
use fabric_data_framework.Prelude.Order.{lex_lt}
use fabric_data_framework.Prelude.Members.{In}
use Prim.Native.Nat.{suc}
use fabric_data_framework.Prelude.Tests.{PyEq, ◌==◌, ==_iff, if◌then◌else◌, Text, Bool-cases}
use mathlib.Core.Bool.{Bool, true, false, ◌||◌}
use mathlib.Core.List.Perm
use mathlib.Core.List.{List, [], ◌∷◌, Perm}
use mathlib.Core.Logic.{◌⊎◌, inl, inr}
use mathlib.Core.Option.{none, some}
use mathlib.Core.Path.{◌≡◌, refl, ap, ◌∙◌}
use native.Mathlib.Omega.{arith}

module _ {A : Type 0} (below : A → A → Bool) where
  unfoldable pub insert_with : A → List A → List A
  insert_with a [] = a ∷ []
  insert_with a (x ∷ xs) = if below x a then x ∷ insert_with a xs else a ∷ x ∷ xs

  unfoldable pub sort_with : List A → List A
  unfolding insert_with
  sort_with [] = []
  sort_with (x ∷ xs) = insert_with x (sort_with xs)

  insert_with-perm : (a : A) (xs : List A) → Perm (insert_with a xs) (a ∷ xs)
  unfolding insert_with
  insert_with-perm a [] = Perm.refl (a ∷ [])
  insert_with-perm a (x ∷ xs) = elim (Bool-cases (below x a)) [
    | inl below ↦ rw below (Perm.trans (Perm.cons x (insert_with-perm a xs)) (Perm.swap a x xs))
    | inr above ↦ rw above (Perm.refl (a ∷ x ∷ xs))
  ]

  -- Sorting keeps every element, as often as it was there.
  pub sort_with-perm : (xs : List A) → Perm (sort_with xs) xs
  unfolding sort_with
  sort_with-perm [] = Perm.refl []
  sort_with-perm (x ∷ xs) =
      Perm.trans (insert_with-perm x (sort_with xs)) (Perm.cons x (sort_with-perm xs))

  insert_with-All :
      (P : A → Type 0) (a : A) (xs : List A) → P a → All P xs → All P (insert_with a xs)
  unfolding insert_with
  insert_with-All P a [] p ps = (p, tt)
  insert_with-All P a (x ∷ xs) p (q, ps) = elim (Bool-cases (below x a)) [
    | inl below ↦ rw below (q, insert_with-All P a xs p ps)
    | inr above ↦ rw above (p, (q, ps))
  ]

  pub sort_with-All : (P : A → Type 0) (xs : List A) → All P xs → All P (sort_with xs)
  unfolding sort_with
  sort_with-All P [] ps = tt
  sort_with-All P (x ∷ xs) (p, ps) = insert_with-All P x (sort_with xs) p (sort_with-All P xs ps)

  In-insert_with : (x a : A) (xs : List A) → (a ≡ x) ⊎ In x xs → In x (insert_with a xs)
  unfolding insert_with
  In-insert_with x a [] h = h
  In-insert_with x a (y ∷ xs) h = elim (Bool-cases (below y a)) [
    | inr above ↦ rw above h
    | inl lower ↦ rw lower (elim h [
      | inl e ↦ inr (In-insert_with x a xs (inl e))
      | inr (inl e) ↦ inl e
      | inr (inr there) ↦ inr (In-insert_with x a xs (inr there))
    ])
  ]

  pub In-sort_with : (x : A) (xs : List A) → In x xs → In x (sort_with xs)
  unfolding sort_with
  In-sort_with x [] h = h
  In-sort_with x (y ∷ xs) (inl e) = In-insert_with x y (sort_with xs) (inl e)
  In-sort_with x (y ∷ xs) (inr h) = In-insert_with x y (sort_with xs) (inr (In-sort_with x xs h))

  length-insert_with : (a : A) (xs : List A) → length (insert_with a xs) ≡ suc (length xs)
  unfolding insert_with
  length-insert_with a [] = refl
  length-insert_with a (x ∷ xs) = ground (arith, length-insert_with a xs)

  pub length-sort_with : (xs : List A) → length (sort_with xs) ≡ length xs
  unfolding sort_with
  length-sort_with [] = refl
  length-sort_with (x ∷ xs) = length-insert_with x (sort_with xs) ∙ ap suc (length-sort_with xs)

module _ {A : Type 0} ⦃e : PyEq A⦄ (below : A → A → Bool) where
  elem-insert_with :
      (x a : A) (xs : List A) → elem x (insert_with below a xs) ≡ (a == x || elem x xs)
  unfolding insert_with
  elem-insert_with x a [] = refl
  elem-insert_with x a (y ∷ xs) = ground (arith, elem-insert_with x a xs)

  pub elem-sort_with : (x : A) (xs : List A) → elem x (sort_with below xs) ≡ elem x xs
  unfolding sort_with
  elem-sort_with x [] = refl
  elem-sort_with x (y ∷ xs) =
      ground (arith, elem-insert_with x y (sort_with below xs), elem-sort_with x xs)

-- No element stands strictly below the one before it.
abbrev pub IsSortedBy : {A : Type 0} → (A → A → Bool) → List A → Type 0
IsSortedBy below [] = Unit
IsSortedBy below (x ∷ []) = Unit
IsSortedBy below (x ∷ y ∷ xs) = (below y x ≡ false) × IsSortedBy below (y ∷ xs)

module _ {A : Type 0} (below : A → A → Bool)
    (asym : (x y : A) → below x y ≡ true → below y x ≡ false) where
  insert_with-IsSortedBy :
      (a : A) (xs : List A) → IsSortedBy below xs → IsSortedBy below (insert_with below a xs)
  unfolding insert_with
  insert_with-IsSortedBy a [] s = tt
  insert_with-IsSortedBy a (x ∷ []) s = ground (arith, asym x a)
  insert_with-IsSortedBy a (x ∷ y ∷ xs) s =
      ground (arith, asym x a, asym y a, insert_with-IsSortedBy a (y ∷ xs))

  -- Sorting by an asymmetric test gives a sorted list.
  pub sort_with-IsSortedBy : (xs : List A) → IsSortedBy below (sort_with below xs)
  unfolding sort_with
  sort_with-IsSortedBy [] = tt
  sort_with-IsSortedBy (x ∷ xs) =
      insert_with-IsSortedBy x (sort_with below xs) (sort_with-IsSortedBy xs)

-- `sorted(…, key=…)`, for a text as the key
abbrev pub by_text : {A : Type 0} → (A → Text) → A → A → Bool
by_text key a b = lex_lt (key a) (key b)

abbrev pub sort_by : {A : Type 0} → (A → Text) → List A → List A
sort_by key = sort_with (by_text key)

-- A sorted dict has the same values at its keys.
module _ {K V : Type 0} ⦃e : PyEq K⦄ (below : K × V → K × V → Bool) where
  get-insert_with :
      (k : K) (v : V) (d : Dict K V) (j : K)
      → get k d ≡ none
      → get j (insert_with below (k, v) d) ≡ (if k == j then some v else get j d)
  unfolding insert_with get
  get-insert_with k v [] j fresh = refl
  get-insert_with k v ((i, w) ∷ d) j fresh =
      ground (arith, ==_iff k j, ==_iff i k, ==_iff i j, get-insert_with k v d j)

  insert_with-HasUniqueKeys :
      (k : K) (v : V) (d : Dict K V)
      → get k d ≡ none
      → HasUniqueKeys d
      → HasUniqueKeys (insert_with below (k, v) d)
  unfolding insert_with get
  insert_with-HasUniqueKeys k v [] fresh u = (refl, tt)
  insert_with-HasUniqueKeys k v ((i, w) ∷ d) fresh (absent, u) =
      let rest : get k d ≡ none = ground (arith, ==_iff i k) in
      elim (Bool-cases (below (i, w) (k, v))) [
        | inr above ↦ rw above (fresh, (absent, u))
        | inl lower ↦ rw lower (
          rw (get-insert_with k v d i rest) (ground (arith, ==_iff k i, ==_iff i k)),
          insert_with-HasUniqueKeys k v d rest u,
        )
      ]

  pub get-sort_with :
      (d : Dict K V)
      → HasUniqueKeys d
      → HasUniqueKeys (sort_with below d) × ((j : K) → get j (sort_with below d) ≡ get j d)
  unfolding sort_with get
  get-sort_with [] u = (tt, λ j. refl)
  get-sort_with ((k, v) ∷ d) (fresh, u) =
      let (unique, same) = get-sort_with d u in
      let absent = same k ∙ fresh in
      (
        insert_with-HasUniqueKeys k v (sort_with below d) absent unique,
        λ j. rw (get-insert_with k v (sort_with below d) j absent) (rw (same j)),
      )
