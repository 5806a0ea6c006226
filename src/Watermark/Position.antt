-- ===== src/Watermark/Position.antt =====
-- WatermarkPosition, WatermarkState and WatermarkTransition of contracts/runtime.py. A scalar is told
-- apart by the types that the validation asks for; ints and floats are a parameter with their order.
-- An instant counts microseconds from datetime.min in UTC.
use fabric_data_framework.Prelude.{
  ℕ, Bool, true, false, ◌&&◌, not, Option, none, some, List, [], ◌∷◌, if◌then◌else◌, ◌==◌, ltb,
  nat_eq, Text, length, Result, ok, raise, ◌>>=◌, ◌>>◌, raise_if,
}
use fabric_data_framework.Prelude.Order.{lex_lt}
use fabric_data_framework.Time.{DateTime, is_aware, instant}
use fabric_data_framework.Cdc.Contract.{StateCommitGate, can_advance_state}

pub data WatermarkError : Type 0 where
  value_error type_error key_error overflow_error : WatermarkError

pub record Numbers (N : Type 0) : Type 0 where
  pub less : N → N → Bool
  pub is_finite : N → Bool

pub data Scalar (N : Type 0) : Type 0 where
  null other : Scalar N
  boolean : Bool → Scalar N
  number : N → Scalar N
  moment : DateTime → Scalar N
  words : Text → Scalar N

pub record WatermarkPosition (N : Type 0) : Type 0 where
  pub value : Scalar N
  pub tie_breaker : List (Scalar N)

pub data Comparison : Type 0 where
  below same above : Comparison

abbrev pub three_way : Bool → Bool → Comparison
three_way less greater = if less then below else if greater then above else same

-- `if order: return order`, and the rest where it is 0.
abbrev pub then_by :
    Comparison → Result WatermarkError Comparison → Result WatermarkError Comparison
then_by below rest = ok below
then_by same rest = rest
then_by above rest = ok above

-- The validators of two fields: a ValueError of the first is raised after the second has run.
abbrev pub both :
    Result WatermarkError (Unit {0}) → Result WatermarkError (Unit {0}) → Result WatermarkError Unit
both (raise value_error) (raise type_error) = raise type_error
both (raise e) second = raise e
both (ok done) second = second

module _ {N : Type 0} (py : Numbers N) where
  unfoldable pub validate_watermark_scalar : Bool → Scalar N → Result WatermarkError (Unit {0})
  validate_watermark_scalar allow_none null = raise_if (not allow_none) value_error
  validate_watermark_scalar allow_none other = raise type_error
  validate_watermark_scalar allow_none (boolean b) = raise type_error
  validate_watermark_scalar allow_none (number n) = raise_if (not (py.is_finite n)) value_error
  validate_watermark_scalar allow_none (moment t) = raise_if (not (is_aware t)) value_error
  validate_watermark_scalar allow_none (words t) = ok tt

  abbrev pub no_moment : Scalar N → Result WatermarkError (Unit {0})
  no_moment (moment t) = raise type_error
  no_moment v = ok tt

  unfoldable pub validate_tie_breaker : List (Scalar N) → Result WatermarkError (Unit {0})
  unfolding validate_watermark_scalar
  validate_tie_breaker [] = ok tt
  validate_tie_breaker (item ∷ items) = do
    validate_watermark_scalar false item
    no_moment item
    validate_tie_breaker items

  -- `WatermarkPosition(value=…, tie_breaker=…)`
  unfoldable pub watermark_position :
      Scalar N → List (Scalar N) → Result WatermarkError (WatermarkPosition N)
  unfolding validate_watermark_scalar validate_tie_breaker
  watermark_position value tie_breaker = do
    both (validate_watermark_scalar true value) (validate_tie_breaker tie_breaker)
    ok (record { value = value; tie_breaker = tie_breaker })

  unfoldable pub compare_values : Scalar N → Scalar N → Result WatermarkError Comparison
  compare_values (moment a) (moment b) =
      ok (three_way (ltb (instant a) (instant b)) (ltb (instant b) (instant a)))
  compare_values (number a) (number b) = ok (three_way (py.less a b) (py.less b a))
  compare_values (words a) (words b) = ok (three_way (lex_lt a b) (lex_lt b a))
  compare_values left right = raise type_error

  unfoldable pub compare_scalar : Scalar N → Scalar N → Result WatermarkError Comparison
  unfolding validate_watermark_scalar compare_values
  compare_scalar left right = do
    validate_watermark_scalar false left
    validate_watermark_scalar false right
    compare_values left right

  -- `zip(…, strict=True)` raises where one list ends before the other.
  unfoldable pub compare_tie_breakers :
      List (Scalar N) → List (Scalar N) → Result WatermarkError Comparison
  unfolding compare_scalar
  compare_tie_breakers [] [] = ok same
  compare_tie_breakers [] (y ∷ ys) = raise value_error
  compare_tie_breakers (x ∷ xs) [] = raise value_error
  compare_tie_breakers (x ∷ xs) (y ∷ ys) = do
    order ← compare_scalar x y
    then_by order (compare_tie_breakers xs ys)

  unfoldable pub compare_watermark_positions :
      WatermarkPosition N → WatermarkPosition N → Result WatermarkError Comparison
  unfolding compare_scalar compare_tie_breakers
  compare_watermark_positions left right = do
    value_order ← compare_scalar left.value right.value
    then_by value_order (do
      raise_if (not (length left.tie_breaker == length right.tie_breaker)) value_error
      compare_tie_breakers left.tie_breaker right.tie_breaker)

  abbrev pub is_below : Comparison → Bool
  is_below below = true
  is_below c = false

  abbrev pub is_above : Comparison → Bool
  is_above above = true
  is_above c = false

  -- The checks of `WatermarkTransition(before=…, after=…, gate=…)`.
  unfoldable pub validate_advance :
      Option (WatermarkPosition N)
      → WatermarkPosition N
      → StateCommitGate
      → Result WatermarkError (Unit {0})
  unfolding compare_watermark_positions can_advance_state
  validate_advance none after gate = raise_if (not (can_advance_state gate)) value_error
  validate_advance (some before) after gate = do
    ordering ← compare_watermark_positions after before
    raise_if (is_below ordering) value_error
    raise_if (is_above ordering && not (can_advance_state gate)) value_error

pub record WatermarkState (N : Type 0) : Type 0 where
  pub position : Option (WatermarkPosition N)
  pub version : ℕ

-- `validate_state`
unfoldable pub state_valid : {N : Type 0} → WatermarkState N → Bool
state_valid s = elim s.position [ none ↦ s.version == 0 | some p ↦ not (s.version == 0) ]
