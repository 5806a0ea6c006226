-- ===== src/Prelude/Errors.antt =====
-- Python code that may raise returns a result; the type of errors is each component's own.
use mathlib.Core.Bool.{Bool, true, false}
use mathlib.Core.Logic.{◌≢◌, ◌⊎◌, inl, inr}
use mathlib.Core.Path.{◌≡◌, refl}

pub data Result {ℓ} (E A : Type ℓ) : Type ℓ where
  ok : A → Result E A
  raise : E → Result E A

infixl 5 ◌>>◌ ◌>>=◌
abbrev pub ◌>>=◌ {ℓ} : {E A B : Type ℓ} → Result E A → (A → Result E B) → Result E B
raise e >>= next = raise e
ok a >>= next = next a

abbrev pub ◌>>◌ {ℓ} : {E A B : Type ℓ} → Result E A → Result E B → Result E B
before >> after = before >>= λ ignored. after

-- `if test: raise error`
abbrev pub raise_if {ℓ} : {E : Type ℓ} → Bool → E → Result E (Unit {ℓ})
raise_if true e = raise e
raise_if false e = ok tt

-- Where a sequence succeeds, its first part did, and the rest went on from what that gave.
pub >>=-eq-ok {ℓ} :
    {E A B : Type ℓ} (first : Result E A) (next : A → Result E B) {result : B}
    → (first >>= next) ≡ ok result
    → (middle : A) × (first ≡ ok middle) × (next middle ≡ ok result)
>>=-eq-ok (raise e) next h = cc
>>=-eq-ok (ok middle) next h = (middle, refl, h)

pub Result-cases {ℓ} :
    {E A : Type ℓ} (r : Result E A) → ((a : A) × (r ≡ ok a)) ⊎ ((e : E) × (r ≡ raise e))
Result-cases (ok a) = inl (a, refl)
Result-cases (raise e) = inr (e, refl)

-- A sequence does not raise what neither of its parts raises.
pub >>=-ne-raise {ℓ} :
    {E A B : Type ℓ} (first : Result E A) (next : A → Result E B) (e : E)
    → first ≢ raise e
    → ((a : A) → first ≡ ok a → next a ≢ raise e)
    → (first >>= next) ≢ raise e
>>=-ne-raise (raise e') next e n k h = n cc
>>=-ne-raise (ok a) next e n k h = k a refl h

pub ok-inj {ℓ} : {E A : Type ℓ} (a b : A) → (let left : Result E A = ok a in left) ≡ ok b → a ≡ b
ok-inj a b h = cc

-- What follows a guard is reached where the guard's test fails.
pub guard-ok {ℓ} :
    {E A : Type ℓ} (b : Bool) (e : E) (next : Result E A) {result : A}
    → (raise_if b e >> next) ≡ ok result
    → (b ≡ false) × (next ≡ ok result)
guard-ok true e next h = cc
guard-ok false e next h = (refl, h)

pub guard-ne {ℓ} :
    {E A : Type ℓ} (b : Bool) (e other : E) (next : Result E A)
    → e ≢ other
    → (b ≡ false → next ≢ raise other)
    → (raise_if b e >> next) ≢ raise other
guard-ne true e other next n k h = n cc
guard-ne false e other next n k h = k refl h
