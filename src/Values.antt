-- ===== src/Values.antt =====
-- The values that rows hold. Rows come from the caller with values of any Python type, so that a
-- type of values and what the framework asks of it are parameters: `None`, `==`, `<` (no answer
-- where Python raises TypeError) and the `repr` of a tuple; with them the stripping of texts, which
-- pydantic does to every text of a FrozenModel, the names of columns in its rows included.
use fabric_data_framework.Prelude.{
  Bool, true, false, ◌||◌, Option, none, some, List, [], ◌∷◌, map, if◌then◌else◌, PyEq, ◌==◌,
  list_eq, nat_eq, option_eq, Text, length, all, ◌&&◌,
}
use fabric_data_framework.Prelude.Dict.{Dict, get, update}

pub record PyValue (V : Type 0) : Type 0 where
  pub eq : PyEq V
  pub null : V
  pub less : V → V → Option Bool
  pub repr : List V → Text
  pub strip : Text → Text

abbrev pub Row : Type 0 → Type 0
Row V = Dict Text V

module _ {V : Type 0} (py : PyValue V) where
  instance abbrev pub value_eq : PyEq V
  value_eq = py.eq

  -- `row.get(column)`
  unfoldable pub get_value : Text → Row V → V
  get_value column row = elim (get column row) [ none ↦ py.null | some v ↦ v ]

  unfoldable pub values : List Text → Row V → List V
  unfolding get_value
  values columns row = map (λ c. get_value c row) columns

  -- `==` on dicts: the same columns with the same values, in whatever order.
  unfoldable pub same_items : Row V → Row V → Bool
  same_items a b =
      length a == length b
      && all (λ item. ◌==◌ ⦃e = option_eq ⦃e = py.eq⦄⦄ (get item.0 b) (some item.1)) a

  unfoldable pub has_null : List V → Bool
  has_null [] = false
  has_null (v ∷ vs) = ◌==◌ ⦃e = py.eq⦄ v py.null || has_null vs

  -- `left < right` on tuples: the first place where they differ decides.
  unfoldable pub tuple_lt : List V → List V → Option Bool
  tuple_lt [] [] = some false
  tuple_lt [] (y ∷ ys) = some true
  tuple_lt (x ∷ xs) [] = some false
  tuple_lt (x ∷ xs) (y ∷ ys) = if ◌==◌ ⦃e = py.eq⦄ x y then tuple_lt xs ys else py.less x y

  -- A row as a field `rows: tuple[dict[str, Any], ...]` of a FrozenModel holds it.
  unfoldable pub strip_columns : Row V → Row V
  strip_columns row = update [] (map (λ item. (py.strip item.0, item.1)) row)
