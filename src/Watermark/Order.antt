-- ===== src/Watermark/Order.antt =====
-- The order of watermark positions in contracts/runtime.py, where `<` on finite numbers is a strict
-- weak order.
use fabric_data_framework.Prelude.{
  ◌≡◌, ap, true, false, some, List, [], ◌∷◌, ◌==◌, ltb, nat_eq, not, length, Result, ok, >>=-eq-ok,
  guard-ok, raise_if, ◌>>◌, arith,
}
use fabric_data_framework.Prelude.Order.{lex_lt}
use fabric_data_framework.Time.{DateTime, instant}
use fabric_data_framework.Watermark.Position.{
  WatermarkError, Numbers, Scalar, number, moment, words, WatermarkPosition, Comparison, below,
  value_error, validate_watermark_scalar, compare_values, compare_scalar, compare_tie_breakers,
  compare_watermark_positions,
}
use fabric_data_framework.Watermark.Comparing.{
  combine, flip, then_by-combine, then_by-flip, IsWeakOrder, compare_by, ok_combine,
  compare_by-flip, ltb-IsWeakOrder, lex_lt-IsWeakOrder,
}

module _ {N : Type 0} (py : Numbers N) (weak : IsWeakOrder py.less) where
  compare_values-combine :
      (a b c : Scalar N) (r s t : Comparison)
      → compare_values py a b ≡ ok r
      → compare_values py b c ≡ ok s
      → combine r s ≡ some t
      → compare_values py a c ≡ ok t
  unfolding compare_values
  compare_values-combine (moment a) (moment b) (moment c) r s t =
      ok_combine ltb ltb-IsWeakOrder (instant a) (instant b) (instant c) r s t
  compare_values-combine (number a) (number b) (number c) r s t =
      ok_combine py.less weak a b c r s t
  compare_values-combine (words a) (words b) (words c) r s t =
      ok_combine lex_lt lex_lt-IsWeakOrder a b c r s t
  compare_values-combine a b c r s t = λ h k e. cc

  compare_values-flip :
      (a b : Scalar N) (r : Comparison)
      → compare_values py a b ≡ ok r
      → compare_values py b a ≡ ok (flip r)
  unfolding compare_values
  compare_values-flip (moment a) (moment b) r h =
      let e : compare_by ltb (instant a) (instant b) ≡ r = cc in
      ap ok (rw (compare_by-flip ltb ltb-IsWeakOrder (instant a) (instant b)) (ap flip e))
  compare_values-flip (number a) (number b) r h =
      let e : compare_by py.less a b ≡ r = cc in
      ap ok (rw (compare_by-flip py.less weak a b) (ap flip e))
  compare_values-flip (words a) (words b) r h =
      let e : compare_by lex_lt a b ≡ r = cc in
      ap ok (rw (compare_by-flip lex_lt lex_lt-IsWeakOrder a b) (ap flip e))
  compare_values-flip a b r h = cc

  pub compare_scalar_parts :
      (a b : Scalar N) (r : Comparison)
      → compare_scalar py a b ≡ ok r
      → (validate_watermark_scalar py false a ≡ ok tt)
        × (validate_watermark_scalar py false b ≡ ok tt)
        × (compare_values py a b ≡ ok r)
  unfolding compare_scalar
  compare_scalar_parts a b r h =
      let (u, p, h1) = >>=-eq-ok (validate_watermark_scalar py false a) _ h in
      let (v, q, h2) = >>=-eq-ok (validate_watermark_scalar py false b) _ h1 in (p, q, h2)

  pub compare_scalar_of :
      (a b : Scalar N) (r : Result WatermarkError Comparison)
      → validate_watermark_scalar py false a ≡ ok tt
      → validate_watermark_scalar py false b ≡ ok tt
      → compare_values py a b ≡ r
      → compare_scalar py a b ≡ r
  unfolding compare_scalar
  compare_scalar_of a b r p q h = rw (p, q) h

  compare_scalar-combine :
      (a b c : Scalar N) (r s t : Comparison)
      → compare_scalar py a b ≡ ok r
      → compare_scalar py b c ≡ ok s
      → combine r s ≡ some t
      → compare_scalar py a c ≡ ok t
  compare_scalar-combine a b c r s t h k e =
      let (va, vb, h') = compare_scalar_parts a b r h in
      let (vb', vc, k') = compare_scalar_parts b c s k in
      compare_scalar_of a c (ok t) va vc (compare_values-combine a b c r s t h' k' e)

  compare_scalar-flip :
      (a b : Scalar N) (r : Comparison)
      → compare_scalar py a b ≡ ok r
      → compare_scalar py b a ≡ ok (flip r)
  compare_scalar-flip a b r h =
      let (va, vb, h') = compare_scalar_parts a b r h in
      compare_scalar_of b a (ok (flip r)) vb va (compare_values-flip a b r h')

  compare_tie_breakers-combine :
      (xs ys zs : List (Scalar N)) (r s t : Comparison)
      → compare_tie_breakers py xs ys ≡ ok r
      → compare_tie_breakers py ys zs ≡ ok s
      → combine r s ≡ some t
      → compare_tie_breakers py xs zs ≡ ok t
  unfolding compare_tie_breakers
  compare_tie_breakers-combine [] [] [] r s t h k e = ground arith
  compare_tie_breakers-combine [] [] (z ∷ zs) r s t h k e = cc
  compare_tie_breakers-combine [] (y ∷ ys) zs r s t h k e = cc
  compare_tie_breakers-combine (x ∷ xs) [] zs r s t h k e = cc
  compare_tie_breakers-combine (x ∷ xs) (y ∷ ys) [] r s t h k e =
      let (q, kq, k') = >>=-eq-ok (compare_scalar py x y) _ h in cc
  compare_tie_breakers-combine (x ∷ xs) (y ∷ ys) (z ∷ zs) r s t h k e =
      let (p, hp, h') = >>=-eq-ok (compare_scalar py x y) _ h in
      let (q, kq, k') = >>=-eq-ok (compare_scalar py y z) _ k in
      let (u, c, done) =
        then_by-combine p q _ _ (compare_tie_breakers py xs zs) r s t h' k' e
          (λ h k. compare_tie_breakers-combine xs ys zs r s t h k e) in
      rw (compare_scalar-combine x y z p q u hp kq c) done

  compare_tie_breakers-flip :
      (xs ys : List (Scalar N)) (r : Comparison)
      → compare_tie_breakers py xs ys ≡ ok r
      → compare_tie_breakers py ys xs ≡ ok (flip r)
  unfolding compare_tie_breakers
  compare_tie_breakers-flip [] [] r h = ground arith
  compare_tie_breakers-flip [] (y ∷ ys) r h = cc
  compare_tie_breakers-flip (x ∷ xs) [] r h = cc
  compare_tie_breakers-flip (x ∷ xs) (y ∷ ys) r h =
      let (p, hp, h') = >>=-eq-ok (compare_scalar py x y) _ h in
      rw (compare_scalar-flip x y p hp)
        (then_by-flip p _ (compare_tie_breakers py ys xs) r h' (compare_tie_breakers-flip xs ys r))

  abbrev of_length : List (Scalar N) → List (Scalar N) → Result WatermarkError Comparison
  of_length xs ys =
      raise_if (not (length xs == length ys)) value_error >> compare_tie_breakers py xs ys

  of_length-combine :
      (xs ys zs : List (Scalar N)) (r s t : Comparison)
      → of_length xs ys ≡ ok r
      → of_length ys zs ≡ ok s
      → combine r s ≡ some t
      → of_length xs zs ≡ ok t
  of_length-combine xs ys zs r s t h k e =
      let (p, h') = guard-ok (not (length xs == length ys)) _ _ h in
      let (q, k') = guard-ok (not (length ys == length zs)) _ _ k in
      let same_length : (length xs == length zs) ≡ true = ground arith in
      rw same_length (compare_tie_breakers-combine xs ys zs r s t h' k' e)

  of_length-flip :
      (xs ys : List (Scalar N)) (r : Comparison)
      → of_length xs ys ≡ ok r
      → of_length ys xs ≡ ok (flip r)
  of_length-flip xs ys r h =
      let (p, h') = guard-ok (not (length xs == length ys)) _ _ h in
      let same_length : (length ys == length xs) ≡ true = ground arith in
      rw same_length (compare_tie_breakers-flip xs ys r h')

  pub compare_watermark_positions-combine :
      (a b c : WatermarkPosition N) (r s t : Comparison)
      → compare_watermark_positions py a b ≡ ok r
      → compare_watermark_positions py b c ≡ ok s
      → combine r s ≡ some t
      → compare_watermark_positions py a c ≡ ok t
  unfolding compare_watermark_positions
  compare_watermark_positions-combine a b c r s t h k e =
      let (p, hp, h') = >>=-eq-ok (compare_scalar py a.value b.value) _ h in
      let (q, kq, k') = >>=-eq-ok (compare_scalar py b.value c.value) _ k in
      let (u, joined, done) =
        then_by-combine p q _ _ (of_length a.tie_breaker c.tie_breaker) r s t h' k' e
          (λ h k. of_length-combine a.tie_breaker b.tie_breaker c.tie_breaker r s t h k e) in
      rw (compare_scalar-combine a.value b.value c.value p q u hp kq joined) done

  pub compare_watermark_positions-flip :
      (a b : WatermarkPosition N) (r : Comparison)
      → compare_watermark_positions py a b ≡ ok r
      → compare_watermark_positions py b a ≡ ok (flip r)
  unfolding compare_watermark_positions
  compare_watermark_positions-flip a b r h =
      let (p, hp, h') = >>=-eq-ok (compare_scalar py a.value b.value) _ h in
      rw (compare_scalar-flip a.value b.value p hp) (
        then_by-flip p _ (of_length b.tie_breaker a.tie_breaker) r h'
          (of_length-flip a.tie_breaker b.tie_breaker r))

pub moments_below :
    {N : Type 0} (py : Numbers N) (t u : DateTime)
    → ltb (instant t) (instant u) ≡ true
    → compare_values py (moment t) (moment u) ≡ ok below
unfolding compare_values
moments_below py t u h = rw h
