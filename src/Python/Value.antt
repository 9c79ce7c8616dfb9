-- ===== src/Python/Value.antt =====
-- A dynamic value: what `json.loads` and `yaml.safe_load` return, and tuples. The keys of a dict
-- are texts, in insertion order.
use us_flight_delay_mlops.Prelude.{
  Bool, true, false, not, Option, none, some, List, [], ◌∷◌, String, ◌=ₛ◌, if◌then◌else◌,
}
use us_flight_delay_mlops.Prelude.Int.{ℤ, pos}
use us_flight_delay_mlops.Prelude.Text.{is_blank}
use us_flight_delay_mlops.Python.Float.{Float, finite}

mutual
  pub data Value : Type 0 where
    null : Value
    bool : Bool → Value
    int : ℤ → Value
    float : Float → Value
    str : String → Value
    list : Items → Value
    tuple : Items → Value
    dict : Fields → Value

  pub data Items : Type 0 where
    nil : Items
    cons : Value → Items → Items

  pub data Fields : Type 0 where
    end : Fields
    field : String → Value → Fields → Fields

-- `d.get(key)`; `none` where the key is missing
unfoldable pub get : String → Fields → Option Value
get k end = none
get k (field j v fs) = if j =ₛ k then some v else get k fs

-- `d.get(key, default)`
abbrev pub get_or : String → Value → Fields → Value
get_or k default fs = elim (get k fs) [ none ↦ default | some v ↦ v ]

unfoldable pub keys : Fields → List String
keys end = []
keys (field k v fs) = k ∷ keys fs

abbrev pub to_items : List Value → Items
to_items [] = nil
to_items (v ∷ vs) = cons v (to_items vs)

-- a dict written as a list
abbrev pub fields_of : List (String × Value) → Fields
fields_of [] = end
fields_of ((k, v) ∷ rest) = field k v (fields_of rest)

abbrev pub dict_of : List (String × Value) → Value
dict_of rows = dict (fields_of rows)

abbrev pub as_dict : Value → Option Fields
as_dict (dict fs) = some fs
as_dict _ = none

abbrev pub as_str : Value → Option String
as_str (str s) = some s
as_str _ = none

-- `type(v) is bool`
abbrev pub as_bool : Value → Option Bool
as_bool (bool b) = some b
as_bool _ = none

-- `isinstance(v, int)`: a bool is an int, of value 0 or 1
abbrev pub as_int : Value → Option ℤ
as_int (int n) = some n
as_int (bool true) = some (pos 1)
as_int (bool false) = some (pos 0)
as_int _ = none

abbrev pub as_list : Value → Option Items
as_list (list vs) = some vs
as_list _ = none

-- `isinstance(v, list | tuple)`
abbrev pub as_sequence : Value → Option Items
as_sequence (list vs) = some vs
as_sequence (tuple vs) = some vs
as_sequence _ = none

-- a text that is not empty
abbrev pub as_nonempty_str : Value → Option String
as_nonempty_str (str s) = if is_blank s then none else some s
as_nonempty_str _ = none

-- `bool(v)`
abbrev pub is_true : Value → Bool
is_true null = false
is_true (bool b) = b
is_true (int (pos Prim.Native.Nat.zero)) = false
is_true (int _) = true
is_true (float (finite (pos Prim.Native.Nat.zero))) = false
is_true (float _) = true
is_true (str s) = not (is_blank s)
is_true (list nil) = false
is_true (list _) = true
is_true (tuple nil) = false
is_true (tuple _) = true
is_true (dict end) = false
is_true (dict _) = true
