-- ===== src/Examples/Appends.antt =====
-- apply/append.py on rows whose values are texts, the empty text standing for None, with the values
-- of a row in a line as its hash.
use fabric_data_framework.Prelude.{
  ◌≡◌, refl, false, some, List, [], ◌∷◌, ◌++◌, nat_eq, list_eq, Text, text, ok, raise,
}
use fabric_data_framework.Prelude.Dict.{get, put, update}
use fabric_data_framework.Prelude.Order.{lex_lt}
use fabric_data_framework.Examples.Texts.{strip_spaces}
use fabric_data_framework.Values.{PyValue, Row, get_value, strip_columns}
use fabric_data_framework.Append.Contract.{
  AppendValues, conflict_error, append_identity_hash, append_payload_hash, business_payload,
  append_payload_fingerprint, append_identity_fingerprint, identity_values, identity_of,
  existing_fingerprint, decorate,
}
use fabric_data_framework.Append.Apply.{
  AppendApplyResult, index_identities, collect_row, collect_incoming, append_row, append_each,
  apply_append,
}
use fabric_data_framework.Append.Decorated.{IsStored}
use fabric_data_framework.Append.Clean.{IsClean}
use fabric_data_framework.Append.Rerun.{append_again}

abbrev joined : List Text → Text
joined [] = []
joined (t ∷ ts) = t ++ joined ts

abbrev texts : PyValue Text
texts = record {
  eq = list_eq;
  null = [];
  less = λ a b. some (lex_lt a b);
  repr = joined;
  strip = strip_spaces;
}

abbrev line : Row Text → Text
line [] = text "#"
line ((column, v) ∷ row) = v ++ line row

-- A stored text is marked, so that none is None.
abbrev unmarked : Text → Text
unmarked [] = []
unmarked (mark ∷ t) = t

abbrev functions : AppendValues Text
functions = record {
  hash_dict = line;
  hash_tuple = joined;
  str = unmarked;
  of_text = λ t. 0 ∷ t;
  is_collection = λ t. false;
}

abbrev id : Text
id = text "id"

abbrev row : Text → Text → Row Text
row key note = (id, key) ∷ (text "note", note) ∷ []

abbrev appended_row : Row Text
appended_row =
    (id, text "b")
    ∷ (text "note", text "y")
    ∷ (append_identity_hash, 0 ∷ text "b")
    ∷ (append_payload_hash, 0 ∷ text "by#")
    ∷ []

abbrev target : List (Row Text)
target = row (text "a") (text "x") ∷ []

-- A replay of the target's row, and a new row that comes twice.
abbrev batch : List (Row Text)
batch = row (text "a") (text "x") ∷ row (text "b") (text "y") ∷ row (text "b") (text "y") ∷ []

abbrev result : AppendApplyResult Text
result = record {
  rows = row (text "a") (text "x") ∷ appended_row ∷ [];
  inserted = 1;
  replayed = 1;
  duplicate_incoming = 1;
}

batch_appended : apply_append texts functions target batch (id ∷ []) ≡ ok result
unfolding apply_append index_identities collect_incoming collect_row append_each append_row
    identity_of identity_values existing_fingerprint decorate append_payload_fingerprint
    append_identity_fingerprint business_payload get put get_value update strip_columns
batch_appended = refl

-- Another note under an identity of the target conflicts.
conflict_refused :
    apply_append texts functions target (row (text "a") (text "z") ∷ []) (id ∷ [])
    ≡ raise conflict_error
unfolding apply_append index_identities collect_incoming collect_row append_each append_row
    identity_of identity_values existing_fingerprint append_payload_fingerprint business_payload get
    put get_value
conflict_refused = refl

stored : IsStored texts functions
stored = record { read_back = λ t. refl; present = λ t. refl }

row-IsClean : (key note : Text) → IsClean texts (row key note)
unfolding get
row-IsClean key note = record { unique = (refl, (refl, tt)); names = (refl, (refl, tt)) }

append_again_example :
    apply_append texts functions result.rows batch (id ∷ [])
    ≡ ok (record { rows = result.rows; inserted = 0; replayed = 2; duplicate_incoming = 1 })
append_again_example =
    append_again texts functions target batch (id ∷ []) result stored
      (record { identity = refl; payload = refl }) (row-IsClean (text "a") (text "x"), tt)
      (
        row-IsClean (text "a") (text "x"),
        (row-IsClean (text "b") (text "y"), (row-IsClean (text "b") (text "y"), tt)),
      )
      batch_appended
