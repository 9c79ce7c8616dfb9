-- ===== src/Modeling/Checks.antt =====
-- The checks that the protocol validators are made of (src/flight_delay/modeling/v3/protocol.py:
-- `_mapping`, `_expect`). `d.get(key)` is `get_or key null d`.
pub mod Laws
use us_flight_delay_mlops.Prelude.{
  Bool, true, false, Option, none, some, List, [], ◌∷◌, String, map,
}
use us_flight_delay_mlops.Python.Equal.{eq_value, eq_items}
use us_flight_delay_mlops.Python.Result.{Result, ok, err, ◌>>=◌, ◌>>◌, or_raise, require}
use us_flight_delay_mlops.Python.Value.{
  Value, Items, Fields, null, str, list, nil, cons, get_or, as_dict, as_list, to_items,
}

-- `V3ProtocolError` by its message, and the exceptions of Python that nothing catches
pub data ProtocolError : Type 0 where
  not_a_mapping drifted : String → ProtocolError
  refused : String → ProtocolError
  must_prohibit unpaired mismatched unreadable : String → ProtocolError
  attribute_error index_error key_error type_error : ProtocolError

-- `_mapping`
unfoldable pub as_mapping : Value → String → Result ProtocolError Fields
as_mapping value label = or_raise (as_dict value) (not_a_mapping label)

-- `_expect`
unfoldable pub expect : Value → Value → String → Result ProtocolError (Unit {0})
expect actual expected label = require (eq_value actual expected) (drifted label)

-- `_mapping(d.get(key), label)`
abbrev pub section : String → Fields → String → Result ProtocolError Fields
section key d label = as_mapping (get_or key null d) label

-- a line `_expect(d.get(key), expected, label)`
abbrev pub Line : Type 0
Line = String × Value × String

-- such lines on one mapping, one after the other
unfoldable pub expects : Fields → List Line → Result ProtocolError (Unit {0})
unfolding expect
expects d [] = ok tt
expects d ((key, expected, label) ∷ lines) = do
  expect (get_or key null d) expected label
  expects d lines

-- `list(names)` of a tuple of text_list
unfoldable pub text_list : List String → Value
text_list names = list (to_items (map str names))

-- the rows of a list, each of which is asked for a key: a row that is no mapping has no `get`
unfoldable pub row_fields : Items → Result ProtocolError (List Fields)
row_fields nil = ok []
row_fields (cons v vs) = do
  row ← or_raise (as_dict v) attribute_error
  rest ← row_fields vs
  ok (row ∷ rest)

-- `[row.get(key) for row in rows]`
unfoldable pub column : String → List Fields → Value
column key rows = list (to_items (map (get_or key null) rows))

-- `if not isinstance(rows, list) or [row.get(key) for row in rows] != list(names): raise`
unfoldable pub identified :
    Value → String → List String → String → Result ProtocolError (List Fields)
identified rows key names message = do
  items ← or_raise (as_list rows) (refused message)
  fields ← row_fields items
  require (eq_value (column key fields) (text_list names)) (refused message)
  ok fields

-- a loop over the rows whose body may raise
unfoldable pub each_row :
    (Fields → Result ProtocolError (Unit {0})) → List Fields → Result ProtocolError (Unit {0})
each_row check [] = ok tt
each_row check (row ∷ rows) = do check row; each_row check rows
