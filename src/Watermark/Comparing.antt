-- ===== src/Watermark/Comparing.antt =====
-- Three-way comparisons as in contracts/runtime.py: by a strict weak order, and one after another.
use fabric_data_framework.Prelude.{
  ◌≡◌, refl, ap, Bool, true, false, Option, none, some, ltb, nat_eq, Result, ok, arith,
}
use fabric_data_framework.Prelude.Order.{lex_lt, lex_lt_asym, lex_lt_cotrans}
use fabric_data_framework.Watermark.Position.{
  WatermarkError, Comparison, below, same, above, three_way, then_by,
}

-- What two comparisons say of the ends, where they do not point in opposite directions.
abbrev pub combine : Comparison → Comparison → Option Comparison
combine same s = some s
combine below same = some below
combine below below = some below
combine below above = none
combine above same = some above
combine above above = some above
combine above below = none

abbrev pub flip : Comparison → Comparison
flip below = above
flip same = same
flip above = below

-- A strict weak order, as `<` is on finite ints and floats.
pub record IsWeakOrder {A : Type 0} (less : A → A → Bool) : Type 0 where
  pub asym : (a b : A) → less a b ≡ true → less b a ≡ false
  pub cotrans : (a b c : A) → less a c ≡ true → less a b ≡ false → less b c ≡ true

abbrev ordering : Comparison → Result WatermarkError Comparison
ordering c = ok c

abbrev pub compare_by : {A : Type 0} → (A → A → Bool) → A → A → Comparison
compare_by less a b = three_way (less a b) (less b a)

pub then_by-combine :
    (p q : Comparison) (x y z : Result WatermarkError Comparison) (r s t : Comparison)
    → then_by p x ≡ ok r
    → then_by q y ≡ ok s
    → combine r s ≡ some t
    → (x ≡ ok r → y ≡ ok s → z ≡ ok t)
    → (u : Comparison) × (combine p q ≡ some u) × (then_by u z ≡ ok t)
then_by-combine same same x y z r s t h k e rest = (same, refl, rest h k)
then_by-combine below same x y z r s t h k e rest = (below, refl, ground arith)
then_by-combine above same x y z r s t h k e rest = (above, refl, ground arith)
then_by-combine same below x y z r s t h k e rest = (below, refl, ground arith)
then_by-combine same above x y z r s t h k e rest = (above, refl, ground arith)
then_by-combine below below x y z r s t h k e rest = (below, refl, ground arith)
then_by-combine above above x y z r s t h k e rest = (above, refl, ground arith)
then_by-combine below above x y z r s t h k e rest = ground arith
then_by-combine above below x y z r s t h k e rest = ground arith

pub then_by-flip :
    (p : Comparison) (x y : Result WatermarkError Comparison) (r : Comparison)
    → then_by p x ≡ ok r
    → (x ≡ ok r → y ≡ ok (flip r))
    → then_by (flip p) y ≡ ok (flip r)
then_by-flip below x y r h rest = ground arith
then_by-flip same x y r h rest = rest h
then_by-flip above x y r h rest = ground arith

module _ {A : Type 0} (less : A → A → Bool) (weak : IsWeakOrder less) where
  compare_by-combine :
      (a b c : A) (t : Comparison)
      → combine (compare_by less a b) (compare_by less b c) ≡ some t
      → compare_by less a c ≡ t
  compare_by-combine a b c t h = ground (
    arith,
    weak.asym a b,
    weak.asym b a,
    weak.asym b c,
    weak.asym c b,
    weak.asym a c,
    weak.asym c a,
    weak.cotrans a b c,
    weak.cotrans c b a,
    weak.cotrans a c b,
    weak.cotrans b a c,
    weak.cotrans b c a,
    weak.cotrans c a b,
  )

  pub ok_combine :
      (a b c : A) (r s t : Comparison)
      → ordering (compare_by less a b) ≡ ok r
      → ordering (compare_by less b c) ≡ ok s
      → combine r s ≡ some t
      → ordering (compare_by less a c) ≡ ok t
  ok_combine a b c r s t h k e =
      let p : compare_by less a b ≡ r = cc in
      let q : compare_by less b c ≡ s = cc in ap ok (compare_by-combine a b c t (rw (p, q) e))

  pub compare_by-flip : (a b : A) → compare_by less b a ≡ flip (compare_by less a b)
  compare_by-flip a b = ground (arith, weak.asym a b, weak.asym b a)

  pub compare_by_refl : (a : A) → compare_by less a a ≡ same
  compare_by_refl a = ground (arith, weak.asym a a)

pub ltb-IsWeakOrder : IsWeakOrder ltb
ltb-IsWeakOrder = record { asym = λ a b h. ground arith; cotrans = λ a b c h k. ground arith }

pub lex_lt-IsWeakOrder : IsWeakOrder lex_lt
lex_lt-IsWeakOrder = record { asym = lex_lt_asym; cotrans = lex_lt_cotrans }
