-- ===== src/Prelude/Lists.antt =====
-- Lists measured by native numbers, searches in them, and predicates on all their elements.
use Prim.Native.Nat.{ℕ, suc, ◌+◌, ◌≤◌, ◌<◌}
use mathlib.Core.Bool.{Bool, true, false, ◌&&◌, ◌||◌}
use mathlib.Core.List.{List, [], ◌∷◌, ◌++◌, map}
use mathlib.Core.Logic.{inl, inr}
use mathlib.Core.Path.{◌≡◌, refl, ap, subst, ◌∙◌}
use native.Mathlib.Omega.{arith}
use fabric_data_framework.Prelude.Tests.{PyEq, ◌==◌, ==_iff, Bool-cases, if◌then◌else◌}

module _ {ℓ} {A : Type ℓ} where
  abbrev pub length : List A → ℕ
  length [] = 0
  length (x ∷ xs) = suc (length xs)

  pub length-append : (xs ys : List A) → length (xs ++ ys) ≡ length xs + length ys
  length-append [] ys = omega arith
  length-append (x ∷ xs) ys = omega (arith, length-append xs ys)

  abbrev pub all : (A → Bool) → List A → Bool
  all p [] = true
  all p (x ∷ xs) = p x && all p xs

  abbrev pub any : (A → Bool) → List A → Bool
  any p [] = false
  any p (x ∷ xs) = p x || any p xs

  abbrev pub keep : (A → Bool) → List A → List A
  keep p [] = []
  keep p (x ∷ xs) = if p x then x ∷ keep p xs else keep p xs

  pub length-keep : (p : A → Bool) (xs : List A) → length (keep p xs) ≤ length xs
  length-keep p [] = omega arith
  length-keep p (x ∷ xs) = ground (arith, length-keep p xs, Bool-cases (p x))

  abbrev pub All {κ} : (A → Type κ) → List A → Type κ
  All P [] = Unit
  All P (x ∷ xs) = P x × All P xs

  pub All-map : (P Q : A → Type 0) (xs : List A) → ((a : A) → P a → Q a) → All P xs → All Q xs
  All-map P Q [] f ps = tt
  All-map P Q (x ∷ xs) f (p, ps) = (f x p, All-map P Q xs f ps)

  pub All-zip :
      (P Q R : A → Type 0) (xs : List A)
      → ((a : A) → P a → Q a → R a)
      → All P xs
      → All Q xs
      → All R xs
  All-zip P Q R [] f ps qs = tt
  All-zip P Q R (x ∷ xs) f (p, ps) (q, qs) = (f x p q, All-zip P Q R xs f ps qs)

  pub All-append-one :
      (P : A → Type 0) (xs : List A) (a : A) → All P xs → P a → All P (xs ++ a ∷ [])
  All-append-one P [] a ps p = (p, tt)
  All-append-one P (x ∷ xs) a (q, ps) p = (q, All-append-one P xs a ps p)

pub length-map {ℓ κ} :
    {A : Type ℓ} {B : Type κ} (f : A → B) (xs : List A) → length (map f xs) ≡ length xs
length-map f [] = refl
length-map f (x ∷ xs) = ap suc (length-map f xs)

module _ {ℓ} {A : Type ℓ} ⦃e : PyEq A⦄ where
  abbrev pub elem : A → List A → Bool
  elem a [] = false
  elem a (x ∷ xs) = x == a || elem a xs

  -- `len(set(xs)) == len(xs)`
  abbrev pub unique : List A → Bool
  unique [] = true
  unique (x ∷ xs) = (if elem x xs then false else true) && unique xs

  pub All-elem : (P : A → Type 0) (a : A) (xs : List A) → All P xs → elem a xs ≡ true → P a
  All-elem P a [] ps h = cc
  All-elem P a (x ∷ xs) (p, ps) h = elim (Bool-cases (x == a)) [
    | inl same ↦ subst P ((==_iff x a).0 same) p
    | inr other ↦ All-elem P a xs ps (rw other at h)
  ]

  pub elem-append : (a : A) (xs ys : List A) → elem a (xs ++ ys) ≡ (elem a xs || elem a ys)
  elem-append a [] ys = refl
  elem-append a (x ∷ xs) ys = ground (arith, elem-append a xs ys)

  pub elem-keep : (p : A → Bool) (a : A) (xs : List A) → elem a (keep p xs) ≡ (elem a xs && p a)
  elem-keep p a [] = refl
  elem-keep p a (x ∷ xs) = ground (arith, ==_iff x a, Bool-cases (p x), elem-keep p a xs)

  pub length-keep-fewer :
      (p : A → Bool) (a : A) (xs : List A)
      → elem a xs ≡ true
      → p a ≡ false
      → length (keep p xs) < length xs
  length-keep-fewer p a [] h k = cc
  length-keep-fewer p a (x ∷ xs) h k = elim (Bool-cases (x == a)) [
    | inl same ↦
        let e : p x ≡ false = ap p ((==_iff x a).0 same) ∙ k in
        rw e (omega (arith, length-keep p xs))
    | inr other ↦ ground (arith, length-keep-fewer p a xs, Bool-cases (p x))
  ]
