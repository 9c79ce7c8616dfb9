-- ===== src/Python/Equal.antt =====
-- Python's `==` on dynamic values: numbers compare by value whatever their type, a list and a tuple
-- never equal each other, and a dict disregards the order of its keys.
use us_flight_delay_mlops.Prelude.{
  ℕ, suc, ◌*◌, ◌≡◌, ap, Bool, true, false, ◌&&◌, Option, none, some, String, ◌==◌, ◌=ₛ◌, eq_iff,
}
use us_flight_delay_mlops.Prelude.Int.{ℤ, pos, negsuc, negate}
use us_flight_delay_mlops.Python.Float.{Float, finite, feq, unit}
use us_flight_delay_mlops.Python.Value.{
  Value, Items, Fields, null, bool, int, float, str, list, tuple, dict, nil, cons, end, field, get,
}

-- an int as a multiple of 2^-1074, however large
exact : ℤ → Float
unfolding unit
exact (pos n) = finite (pos (n * unit))
exact (negsuc n) = finite (negate (pos (suc n * unit)))

-- the value of a bool, an int or a float
number_value : Value → Option Float
unfolding exact
number_value (bool true) = some (exact (pos 1))
number_value (bool false) = some (exact (pos 0))
number_value (int n) = some (exact n)
number_value (float x) = some x
number_value _ = none

abbrev same_number : Option Float → Option Float → Bool
same_number (some x) (some y) = feq x y
same_number _ _ = false

-- `len(d)` where a key is written once
unfoldable pub field_count : Fields → ℕ
field_count end = 0
field_count (field k v fs) = suc (field_count fs)

-- `v == w`
unfoldable mutual
  unfolding number_value feq field_count get

  pub eq_value : Value → Value → Bool
  eq_value null w = elim w [ null ↦ true | _ ↦ false ]
  eq_value (bool b) w = same_number (number_value (bool b)) (number_value w)
  eq_value (int n) w = same_number (number_value (int n)) (number_value w)
  eq_value (float x) w = same_number (number_value (float x)) (number_value w)
  eq_value (str s) w = elim w [ str t ↦ s =ₛ t | _ ↦ false ]
  eq_value (list vs) w = elim w [ list ws ↦ eq_items vs ws | _ ↦ false ]
  eq_value (tuple vs) w = elim w [ tuple ws ↦ eq_items vs ws | _ ↦ false ]
  eq_value (dict fs) w = elim w [
    | dict gs ↦ (field_count fs == field_count gs) && fields_in fs gs
    | _ ↦ false
  ]

  pub eq_items : Items → Items → Bool
  eq_items nil ws = elim ws [ nil ↦ true | _ ↦ false ]
  eq_items (cons v vs) ws = elim ws [ nil ↦ false | cons w ws' ↦ eq_value v w && eq_items vs ws' ]

  -- every field of the one is a field of the other
  pub fields_in : Fields → Fields → Bool
  fields_in end gs = true
  fields_in (field k v fs) gs = elim (get k gs) [
    | none ↦ false
    | some w ↦ eq_value v w && fields_in fs gs
  ]

-- What equals a text is that text.
pub eq_value-str : (v : Value) (s : String) → eq_value v (str s) ≡ true → v ≡ str s
unfolding eq_value number_value
eq_value-str (str t) s h = ap str ((eq_iff t s).0 h)
eq_value-str null s h = cc
eq_value-str (bool true) s h = cc
eq_value-str (bool false) s h = cc
eq_value-str (int n) s h = cc
eq_value-str (float x) s h = cc
eq_value-str (list vs) s h = cc
eq_value-str (tuple vs) s h = cc
eq_value-str (dict fs) s h = cc
