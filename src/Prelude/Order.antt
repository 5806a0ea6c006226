-- ===== src/Prelude/Order.antt =====
-- The order of Python's tuples of ints and of its texts: lexicographic, a prefix comes first.
use Prim.Native.Nat.{ℕ}
use fabric_data_framework.Prelude.Tests.{ltb, nat_beq, if◌then◌else◌, Bool-cases}
use mathlib.Core.Bool.{Bool, true, false}
use mathlib.Core.List.{List, [], ◌∷◌}
use mathlib.Core.Logic.{inl, inr}
use mathlib.Core.Path.{◌≡◌, refl}
use native.Mathlib.Omega.{arith}

-- `left < right`
unfoldable pub lex_lt : List ℕ → List ℕ → Bool
lex_lt [] [] = false
lex_lt [] (y ∷ ys) = true
lex_lt (x ∷ xs) [] = false
lex_lt (x ∷ xs) (y ∷ ys) = if nat_beq x y then lex_lt xs ys else ltb x y

pub lex_lt_irrefl : (xs : List ℕ) → lex_lt xs xs ≡ false
unfolding lex_lt
lex_lt_irrefl [] = refl
lex_lt_irrefl (x ∷ xs) = ground (arith, lex_lt_irrefl xs)

pub lex_lt_trans :
    (xs ys zs : List ℕ) → lex_lt xs ys ≡ true → lex_lt ys zs ≡ true → lex_lt xs zs ≡ true
unfolding lex_lt
lex_lt_trans [] ys [] h k = ground arith
lex_lt_trans [] ys (z ∷ zs) h k = refl
lex_lt_trans (x ∷ xs) [] zs h k = ground arith
lex_lt_trans (x ∷ xs) (y ∷ ys) [] h k = ground arith
lex_lt_trans (x ∷ xs) (y ∷ ys) (z ∷ zs) h k = ground (arith, lex_lt_trans xs ys zs)

-- Neither is below the other only at equal lists.
pub lex_lt_connected : (xs ys : List ℕ) → lex_lt xs ys ≡ false → lex_lt ys xs ≡ false → xs ≡ ys
unfolding lex_lt
lex_lt_connected [] [] h k = refl
lex_lt_connected [] (y ∷ ys) h k = ground arith
lex_lt_connected (x ∷ xs) [] h k = ground arith
lex_lt_connected (x ∷ xs) (y ∷ ys) h k = ground (arith, lex_lt_connected xs ys)

pub lex_lt_asym : (xs ys : List ℕ) → lex_lt xs ys ≡ true → lex_lt ys xs ≡ false
lex_lt_asym xs ys h =
    ground (arith, lex_lt_irrefl xs, lex_lt_trans xs ys xs, Bool-cases (lex_lt ys xs))

-- What lies between two lists of which one is below the other is above the one or below the other.
pub lex_lt_cotrans :
    (xs ys zs : List ℕ) → lex_lt xs zs ≡ true → lex_lt xs ys ≡ false → lex_lt ys zs ≡ true
unfolding lex_lt
lex_lt_cotrans xs ys zs h k = elim (Bool-cases (lex_lt ys xs)) [
  | inl below ↦ lex_lt_trans ys xs zs below h
  | inr same ↦ rw (lex_lt_connected xs ys k same) at h
]
