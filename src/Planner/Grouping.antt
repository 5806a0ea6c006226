-- ===== src/Planner/Grouping.antt =====
-- Grouping into a dict of lists, as `grouped[key].append(item)` does with a defaultdict.
use fabric_data_framework.Prelude.{
  ◌≡◌, refl, sym, ap, ◌∙◌, inl, inr, Bool, true, Option, none, some, List, [], ◌∷◌, ◌++◌, ◌==◌,
  ==_iff, ==_refl, list_eq, nat_eq, Text, keep, Bool-cases, arith, In,
}
use mathlib.Core.List.{append-nil, append_assoc}
use fabric_data_framework.Prelude.Dict.{Dict, get, put, get-put, HasUniqueKeys, put-HasUniqueKeys}

-- `groups.get(key, ())`
abbrev pub members : {A : Type 0} → Option (List A) → List A
members none = []
members (some xs) = xs

-- What a filter keeps are the elements that pass its test.
pub keep-In :
    {A : Type 0} (p : A → Bool) (a : A) (xs : List A) → In a (keep p xs) → In a xs × (p a ≡ true)
keep-In p a [] h = absurd h
keep-In p a (x ∷ xs) h = elim (Bool-cases (p x)) [
  | inl kept ↦ elim (rw kept at h) [
    | inl e ↦ (inl e, ap p (sym e) ∙ kept)
    | inr there ↦ let (found, passed) = keep-In p a xs there in (inr found, passed)
  ]
  | inr dropped ↦ let (found, passed) = keep-In p a xs (rw dropped at h) in (inr found, passed)
]

pub In-keep :
    {A : Type 0} (p : A → Bool) (a : A) (xs : List A) → In a xs → p a ≡ true → In a (keep p xs)
In-keep p a [] h k = h
In-keep p a (x ∷ xs) (inl e) k = let kept : p x ≡ true = ap p e ∙ k in rw kept (inl e)
In-keep p a (x ∷ xs) (inr h) k = elim (Bool-cases (p x)) [
  | inl kept ↦ rw kept (inr (In-keep p a xs h k))
  | inr dropped ↦ rw dropped (In-keep p a xs h k)
]

-- An entry of a dict is what its key gives.
pub In-get :
    {V : Type 0} (k : Text) (v : V) (d : Dict Text V)
    → HasUniqueKeys d
    → In (k, v) d
    → get k d ≡ some v
unfolding get
In-get k v [] u h = absurd h
In-get k v ((j, w) ∷ d) (fresh, u) (inl e) =
    let same : j ≡ k = ap (λ p. p.0) e in
    let value : w ≡ v = ap (λ p. p.1) e in rw (same, ==_refl k, value) refl
In-get k v ((j, w) ∷ d) (fresh, u) (inr h) =
    let there = In-get k v d u h in
    elim (Bool-cases (j == k)) [
      | inl same ↦ let e : j ≡ k = (==_iff j k).0 same in ground (arith)
      | inr other ↦ rw other there
    ]

pub get-In : {V : Type 0} (k : Text) (v : V) (d : Dict Text V) → get k d ≡ some v → In (k, v) d
unfolding get
get-In k v [] h = ground arith
get-In k v ((j, w) ∷ d) h = elim (Bool-cases (j == k)) [
  | inl same ↦ let value : some w ≡ some v = rw same at h in let key = (==_iff j k).0 same in inl cc
  | inr other ↦ inr (get-In k v d (rw other at h))
]

module _ {A : Type 0} (key : A → Text) where
  unfoldable pub group_into : List A → Dict Text (List A) → Dict Text (List A)
  group_into [] groups = groups
  group_into (x ∷ xs) groups =
      group_into xs (put (key x) (members (get (key x) groups) ++ (x ∷ [])) groups)

  pub group_into-members :
      (xs : List A) (groups : Dict Text (List A)) (k : Text)
      → members (get k (group_into xs groups)) ≡ members (get k groups) ++ keep (λ x. key x == k) xs
  unfolding group_into
  group_into-members [] groups k = sym (append-nil (members (get k groups)))
  group_into-members (x ∷ xs) groups k =
      group_into-members xs (put (key x) (members (get (key x) groups) ++ (x ∷ [])) groups) k
      ∙ (elim (Bool-cases (key x == k)) [
        | inl same ↦
            let e = (==_iff (key x) k).0 same in
            rw (get-put, same, e) (append_assoc (members (get k groups)) (x ∷ []) _)
        | inr other ↦ rw (get-put, other)
      ])

  pub group_into-HasUniqueKeys :
      (xs : List A) (groups : Dict Text (List A))
      → HasUniqueKeys groups
      → HasUniqueKeys (group_into xs groups)
  unfolding group_into
  group_into-HasUniqueKeys [] groups u = u
  group_into-HasUniqueKeys (x ∷ xs) groups u =
      group_into-HasUniqueKeys xs (put (key x) (members (get (key x) groups) ++ (x ∷ [])) groups)
        (put-HasUniqueKeys (key x) (members (get (key x) groups) ++ (x ∷ [])) groups u)
