-- ===== src/Append/Contract.antt =====
-- contracts/append.py, and the identities, fingerprints and decorations of rows of apply/append.py.
-- `canonical_hash` of a dict and of a tuple, `str` of a value, a text as a value and the test for
-- dicts, lists and sets are parameters.
use fabric_data_framework.Prelude.{
  Bool, true, false, ◌&&◌, ◌||◌, not, Option, none, some, List, [], ◌∷◌, map, if◌then◌else◌, ◌==◌,
  nat_eq, list_eq, Text, text, any, keep, Result, ok, raise, ◌>>=◌, ◌>>◌, raise_if,
}
use fabric_data_framework.Prelude.Dict.{get, put}
use fabric_data_framework.Values.{PyValue, Row, get_value, value_eq}
use fabric_data_framework.Temporal.{is_empty}

pub data AppendApplyError : Type 0 where
  identity_error conflict_error key_error : AppendApplyError

pub record AppendValues (V : Type 0) : Type 0 where
  pub hash_dict : Row V → Text
  pub hash_tuple : List V → Text
  pub str : V → Text
  pub of_text : Text → V
  pub is_collection : V → Bool

abbrev pub framework_field_prefix : Text
framework_field_prefix = text "_framework_"

abbrev pub append_identity_hash : Text
append_identity_hash = text "_framework_append_identity_hash"

abbrev pub append_payload_hash : Text
append_payload_hash = text "_framework_append_payload_hash"

-- `key.startswith(prefix)`
abbrev pub starts_with : Text → Text → Bool
starts_with [] key = true
starts_with (c ∷ prefix) [] = false
starts_with (c ∷ prefix) (d ∷ key) = c == d && starts_with prefix key

abbrev pub is_present : {A : Type 0} → Option A → Bool
is_present none = false
is_present (some a) = true

unfoldable pub business_payload : {V : Type 0} → Row V → Row V
business_payload row = keep (λ item. not (starts_with framework_field_prefix item.0)) row

module _ {V : Type 0} (py : PyValue V) (fns : AppendValues V) where
  unfoldable pub append_payload_fingerprint : Row V → Text
  unfolding business_payload
  append_payload_fingerprint row = fns.hash_dict (business_payload row)

  unfoldable pub append_identity_fingerprint : List V → Text
  append_identity_fingerprint identity = fns.hash_tuple identity

  unfoldable pub identity_values : List Text → Row V → Result AppendApplyError (List V)
  identity_values [] row = ok []
  identity_values (column ∷ append_identity) row = elim (get column row) [
    | none ↦ raise identity_error
    | some value ↦ do
      raise_if (◌==◌ ⦃e = py.eq⦄ value py.null) identity_error
      raise_if (fns.is_collection value) identity_error
      values ← identity_values append_identity row
      ok (value ∷ values)
  ]

  unfoldable pub identity_of : List Text → Row V → Result AppendApplyError (List V)
  unfolding identity_values
  identity_of append_identity row = do
    raise_if (is_empty append_identity) identity_error
    identity_values append_identity row

  -- The target row's own hash, or else that of its values in the incoming row's business columns.
  unfoldable pub existing_fingerprint : Row V → Row V → Result AppendApplyError Text
  unfolding get_value business_payload
  existing_fingerprint existing incoming =
      let stored = get_value py append_payload_hash existing in
      if not (◌==◌ ⦃e = py.eq⦄ stored py.null) then ok (fns.str stored) else (do
        raise_if (any (λ item. not (is_present (get item.0 existing))) (business_payload incoming))
            conflict_error
        ok (
            fns.hash_dict
              (map (λ item. (item.0, get_value py item.0 existing)) (business_payload incoming))))

  unfoldable pub decorate : Row V → List V → Text → Result AppendApplyError (Row V)
  unfolding append_identity_fingerprint
  decorate row identity payload_hash = do
    raise_if (is_present (get append_identity_hash row) || is_present (get append_payload_hash row))
        identity_error
    ok (
        put append_payload_hash (fns.of_text payload_hash)
          (put append_identity_hash (fns.of_text (append_identity_fingerprint identity)) row))
