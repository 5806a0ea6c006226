-- ===== src/Prelude/Dict.antt =====
-- Python's dict: an update keeps the place of its key, and a new key goes to the end.
use fabric_data_framework.Prelude.Tests.{PyEq, ◌==◌, ==_iff, ==_refl, if◌then◌else◌, Bool-cases}
use Prim.Native.Nat.{suc}
use fabric_data_framework.Prelude.Lists.{length}
use mathlib.Core.List.{List, [], ◌∷◌, ◌++◌, append-nil, append_assoc}
use mathlib.Core.Logic.{inl, inr}
use mathlib.Core.Option.{Option, none, some}
use mathlib.Core.Path.{◌≡◌, refl, sym, ap, ◌∙◌}
use native.Mathlib.Omega.{arith}

abbrev pub Dict {ℓ} : Type ℓ → Type ℓ → Type ℓ
Dict K V = List (K × V)

-- The first of two values that is there.
abbrev pub or_else : {A : Type 0} → Option A → Option A → Option A
or_else none b = b
or_else (some a) b = some a

module _ {K V : Type 0} ⦃e : PyEq K⦄ where
  unfoldable pub get : K → Dict K V → Option V
  get k [] = none
  get k ((j, v) ∷ d) = if j == k then some v else get k d

  unfoldable pub put : K → V → Dict K V → Dict K V
  put k v [] = (k, v) ∷ []
  put k v ((j, w) ∷ d) = if j == k then (k, v) ∷ d else (j, w) ∷ put k v d

  unfoldable pub remove : K → Dict K V → Dict K V
  remove k [] = []
  remove k ((j, v) ∷ d) = let rest = remove k d in if j == k then rest else (j, v) ∷ rest

  -- `target.update(source)`
  unfoldable pub update : Dict K V → Dict K V → Dict K V
  unfolding put
  update target [] = target
  update target ((k, v) ∷ source) = update (put k v target) source

  pub get-put :
      (k j : K) (v : V) (d : Dict K V) → get j (put k v d) ≡ (if k == j then some v else get j d)
  unfolding get put
  get-put k j v [] = refl
  get-put k j v ((i, w) ∷ d) = ground (arith, ==_iff k j, ==_iff i k, ==_iff i j, get-put k j v d)

  pub get-remove :
      (k j : K) (d : Dict K V) → get j (remove k d) ≡ (if k == j then none else get j d)
  unfolding get remove
  get-remove k j [] = ground arith
  get-remove k j ((i, w) ∷ d) = ground (arith, ==_iff k j, ==_iff i k, ==_iff i j, get-remove k j d)

  -- No key stands twice, as in every dict.
  abbrev pub HasUniqueKeys : Dict K V → Type 0
  HasUniqueKeys [] = Unit
  HasUniqueKeys ((k, v) ∷ d) = (get k d ≡ none) × HasUniqueKeys d

  pub put-HasUniqueKeys :
      (k : K) (v : V) (d : Dict K V) → HasUniqueKeys d → HasUniqueKeys (put k v d)
  unfolding put get
  put-HasUniqueKeys k v [] u = (refl, tt)
  put-HasUniqueKeys k v ((j, w) ∷ d) (fresh, u) = elim (Bool-cases (j == k)) [
    | inl same ↦ rw same (rw (← (==_iff j k).0 same) fresh, u)
    | inr other ↦
        rw other (rw get-put (ground (arith, ==_iff k j, ==_iff j k)), put-HasUniqueKeys k v d u)
  ]

  pub get-update :
      (target source : Dict K V) (j : K)
      → HasUniqueKeys source
      → get j (update target source) ≡ or_else (get j source) (get j target)
  unfolding update get
  get-update target [] j u = refl
  get-update target ((k, v) ∷ source) j (fresh, u) =
      get-update (put k v target) source j u ∙ (elim (Bool-cases (k == j)) [
        | inl same ↦
            let gone : get j source ≡ none = cc (fresh, (==_iff k j).0 same) in
            rw (get-put, gone, same)
        | inr other ↦ rw (get-put, other)
      ])

  pub update-HasUniqueKeys :
      (target source : Dict K V) → HasUniqueKeys target → HasUniqueKeys (update target source)
  unfolding update
  update-HasUniqueKeys target [] u = u
  update-HasUniqueKeys target ((k, v) ∷ source) u =
      update-HasUniqueKeys (put k v target) source (put-HasUniqueKeys k v target u)

  pub length-put-absent :
      (k : K) (v : V) (d : Dict K V) → get k d ≡ none → length (put k v d) ≡ suc (length d)
  unfolding put get
  length-put-absent k v [] h = refl
  length-put-absent k v ((j, w) ∷ d) h = ground (arith, length-put-absent k v d)

  pub length-put-present :
      (k : K) (v w : V) (d : Dict K V) → get k d ≡ some w → length (put k v d) ≡ length d
  unfolding put get
  length-put-present k v w [] h = cc
  length-put-present k v w ((j, u) ∷ d) h = ground (arith, length-put-present k v w d)

  remove-absent : (k : K) (d : Dict K V) → get k d ≡ none → remove k d ≡ d
  unfolding remove get
  remove-absent k [] h = refl
  remove-absent k ((j, u) ∷ d) h = ground (arith, remove-absent k d)

  pub length-remove :
      (k : K) (w : V) (d : Dict K V)
      → HasUniqueKeys d
      → get k d ≡ some w
      → suc (length (remove k d)) ≡ length d
  unfolding remove get
  length-remove k w [] u h = cc
  length-remove k w ((j, v) ∷ d) (fresh, u) h = elim (Bool-cases (j == k)) [
    | inl same ↦
        let gone : get k d ≡ none = rw (← (==_iff j k).0 same) fresh in
        rw same (rw (remove-absent k d gone) refl)
    | inr other ↦ rw other (ap suc (length-remove k w d u (rw other at h)))
  ]

  get-remove-absent : (k j : K) (d : Dict K V) → get j d ≡ none → get j (remove k d) ≡ none
  get-remove-absent k j d h = ground (arith, get-remove k j d)

  pub remove-HasUniqueKeys : (k : K) (d : Dict K V) → HasUniqueKeys d → HasUniqueKeys (remove k d)
  unfolding remove get
  remove-HasUniqueKeys k [] u = tt
  remove-HasUniqueKeys k ((j, v) ∷ d) (fresh, u) = elim (Bool-cases (j == k)) [
    | inl same ↦ rw same (remove-HasUniqueKeys k d u)
    | inr other ↦ rw other (get-remove-absent k j d fresh, remove-HasUniqueKeys k d u)
  ]

pub ruleset dict_laws = (get-put, get-remove)

-- A dict that is written into an empty one, key by key, is itself.
module _ {K V : Type 0} ⦃e : PyEq K⦄ where
  put-absent : (k : K) (v : V) (d : Dict K V) → get k d ≡ none → put k v d ≡ d ++ (k, v) ∷ []
  unfolding put get
  put-absent k v [] h = refl
  put-absent k v ((j, w) ∷ d) h = elim (Bool-cases (j == k)) [
    | inl same ↦ cc (rw same at h)
    | inr other ↦ rw other (ap (λ xs. (j, w) ∷ xs) (put-absent k v d (rw other at h)))
  ]

  -- The keys of the second are not those of the first.
  Apart : Dict K V → Dict K V → Type 0
  Apart d s = (k : K) (v : V) → get k s ≡ some v → get k d ≡ none

  update-append :
      (target source : Dict K V)
      → HasUniqueKeys source
      → Apart target source
      → update target source ≡ target ++ source
  unfolding update get Apart
  update-append target [] u apart = sym (append-nil target)
  update-append target ((k, v) ∷ source) (fresh, u) apart =
      let absent : get k target ≡ none = apart k v (rw (==_refl k)) in
      let rest = update-append (put k v target) source u (λ j w there. elim (Bool-cases (k == j)) [
        | inl same ↦ cc (there, fresh, (==_iff k j).0 same)
        | inr other ↦ rw (get-put, other) (apart j w (rw other there))
      ]) in
      rest
      ∙ ap (λ d. d ++ source) (put-absent k v target absent)
      ∙ append_assoc target ((k, v) ∷ []) source

  pub update-nil : (source : Dict K V) → HasUniqueKeys source → update [] source ≡ source
  unfolding get Apart
  update-nil source u = update-append [] source u (λ k v there. refl)
