-- ===== src/Prelude/Traces.antt =====
-- Lists of the calls that a run makes: what is found in them, and predicates that tell the last from
-- those before it.
use mathlib.Core.List.{List, [], ◌∷◌, ◌++◌}
use mathlib.Core.Logic.{inl, inr}
use mathlib.Core.Option.{Option, none, some}
use mathlib.Core.Path.{◌≡◌, refl, ap}
use fabric_data_framework.Prelude.Tests.{Option-cases}

-- A predicate of every element but the last, and one of the last, which there must be.
module _ {A : Type 0} (P : A → Type 0) where
  abbrev pub AllButLast : List A → Type 0
  AllButLast [] = Unit
  AllButLast (a ∷ []) = Unit
  AllButLast (a ∷ b ∷ rest) = P a × AllButLast (b ∷ rest)

  abbrev pub Last : List A → Type 0
  Last [] = ⊥
  Last (a ∷ []) = P a
  Last (a ∷ b ∷ rest) = Last (b ∷ rest)

  pub AllButLast-cons : (a : A) (xs : List A) → P a → AllButLast xs → AllButLast (a ∷ xs)
  AllButLast-cons a [] p ps = tt
  AllButLast-cons a (b ∷ xs) p ps = (p, ps)

  pub Last-cons : (a : A) (xs : List A) → Last xs → Last (a ∷ xs)
  Last-cons a [] h = absurd h
  Last-cons a (b ∷ xs) h = h

  pub Last-append : (xs : List A) (a : A) → P a → Last (xs ++ a ∷ [])
  Last-append [] a p = p
  Last-append (x ∷ []) a p = p
  Last-append (x ∷ y ∷ xs) a p = Last-append (y ∷ xs) a p

-- What a function finds in the elements of a list.
module _ {E A : Type 0} (find : E → Option A) where
  abbrev add : Option A → List A → List A
  add none found = found
  add (some a) found = a ∷ found

  abbrev pub collect : List E → List A
  collect [] = []
  collect (e ∷ es) = add (find e) (collect es)

  pub collect-append : (es fs : List E) → collect (es ++ fs) ≡ collect es ++ collect fs
  collect-append [] fs = refl
  collect-append (e ∷ es) fs = elim (Option-cases (find e)) [
    | inl nothing ↦ rw nothing (collect-append es fs)
    | inr (a, found) ↦ rw found (ap (λ rest. a ∷ rest) (collect-append es fs))
  ]
