-- ===== src/Prelude/Members.antt =====
-- The elements of a list, and predicates on all of them.
use fabric_data_framework.Prelude.Lists.{All, All-map}
use mathlib.Core.List.{List, [], ◌∷◌, map}
use mathlib.Core.Logic.{◌⊎◌, inl, inr}
use mathlib.Core.Path.{◌≡◌, refl, ap, subst}

-- An element of a list.
abbrev pub In : {A : Type 0} → A → List A → Type 0
In a [] = ⊥
In a (x ∷ xs) = (x ≡ a) ⊎ In a xs

pub In-map : {A B : Type 0} (f : A → B) (a : A) (xs : List A) → In a xs → In (f a) (map f xs)
In-map f a [] h = h
In-map f a (x ∷ xs) (inl e) = inl (ap f e)
In-map f a (x ∷ xs) (inr h) = inr (In-map f a xs h)

pub All_at : {A : Type 0} (P : A → Type 0) (a : A) (xs : List A) → All P xs → In a xs → P a
All_at P a [] ps h = absurd h
All_at P a (x ∷ xs) (p, ps) (inl e) = subst P e p
All_at P a (x ∷ xs) (p, ps) (inr h) = All_at P a xs ps h

pub All_of : {A : Type 0} (P : A → Type 0) (xs : List A) → ((a : A) → P a) → All P xs
All_of P [] f = tt
All_of P (x ∷ xs) f = (f x, All_of P xs f)

pub All-In : {A : Type 0} (xs : List A) → All (λ x. In x xs) xs
All-In [] = tt
All-In (x ∷ xs) = (inl refl, All-map _ _ xs (λ y found. inr found) (All-In xs))

pub All-of-map :
    {A B : Type 0} (P : B → Type 0) (f : A → B) (xs : List A)
    → All (λ a. P (f a)) xs
    → All P (map f xs)
All-of-map P f [] ps = tt
All-of-map P f (x ∷ xs) (p, ps) = (p, All-of-map P f xs ps)
