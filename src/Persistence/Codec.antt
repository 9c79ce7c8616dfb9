-- ===== src/Persistence/Codec.antt =====
-- src/flight_delay/persistence/dynamodb.py: `to_dynamodb` and `from_dynamodb`.
pub mod RoundTrip
pub mod Storable
use us_flight_delay_mlops.Prelude.{
  ℕ, suc, ◌+◌, ◌*◌, ◌/◌, ◌%◌, ◌^◌, Bool, Option, none, some, String, ◌==◌, ◌=ₛ◌, if◌then◌else◌,
}
use us_flight_delay_mlops.Prelude.Int.{ℤ, pos, negsuc, negate}
use us_flight_delay_mlops.Python.Float.{Float, isfinite}
use us_flight_delay_mlops.Python.Result.{Result, ok, err, ◌>>=◌}

-- a finite `Decimal`: `coefficient` times ten to the `exponent`
pub record Decimal : Type 0 where
  pub coefficient : ℤ
  pub exponent : ℤ

-- a `datetime`: without a time zone, or a moment
pub data Datetime : Type 0 where
  naive : Datetime
  moment : ℤ → Datetime

-- A Python value that the repository may meet. The keys of a mapping are texts; `iso` is a date
-- or a time by its `isoformat()`, `model` a pydantic model by its `model_dump`, `enum` a member
-- of an Enum by its value, and `other` a value of any other type.
mutual
  pub data Datum : Type 0 where
    null other : Datum
    bool : Bool → Datum
    str : String → Datum
    int : ℤ → Datum
    decimal : Decimal → Datum
    float : Float → Datum
    datetime : Datetime → Datum
    iso : String → Datum
    enum : Datum → Datum
    model mapping : Attributes → Datum
    list tuple : Data → Datum

  pub data Data : Type 0 where
    nil : Data
    cons : Datum → Data → Data

  pub data Attributes : Type 0 where
    end : Attributes
    attribute : String → Datum → Attributes → Attributes

-- the value at a key; `none` where it is missing
unfoldable pub get : String → Attributes → Option Datum
get k end = none
get k (attribute j v rest) = if j =ₛ k then some v else get k rest

-- what the codec raises
pub data CodecError : Type 0 where
  value_error type_error : CodecError

abbrev pub magnitude : ℤ → ℕ
magnitude (pos n) = n
magnitude (negsuc n) = suc n

-- a number with the sign of the first
abbrev pub signed : ℤ → ℕ → ℤ
signed (pos _) n = pos n
signed (negsuc _) n = negate (pos n)

-- `int(value)` where `value == value.to_integral_value()`
unfoldable pub whole : Decimal → Option ℤ
whole d = elim d.exponent [
  | pos k ↦ some (signed d.coefficient (magnitude d.coefficient * 10 ^ k))
  | negsuc k ↦
      if magnitude d.coefficient % 10 ^ (k + 1) == 0
      then some (signed d.coefficient (magnitude d.coefficient / 10 ^ (k + 1)))
      else none
]

-- `repr` is `Decimal(str(x))`, `utc_text` is how a moment is written in UTC with "Z", and
-- `nearest` is `float(d)`.
module _ (repr : Float → Decimal) (utc_text : ℤ → String) where
  unfoldable mutual
    pub to_dynamodb : Datum → Result CodecError Datum
    to_dynamodb (model fields) = to_attributes fields >>= λ converted. ok (mapping converted)
    to_dynamodb (enum v) = to_dynamodb v
    to_dynamodb (bool b) = ok (bool b)
    to_dynamodb null = ok null
    to_dynamodb (str s) = ok (str s)
    to_dynamodb (decimal d) = ok (decimal d)
    to_dynamodb (float x) = if isfinite x then ok (decimal (repr x)) else err value_error
    to_dynamodb (int n) = ok (int n)
    to_dynamodb (datetime naive) = err value_error
    to_dynamodb (datetime (moment t)) = ok (str (utc_text t))
    to_dynamodb (iso s) = ok (str s)
    to_dynamodb (mapping fields) = to_attributes fields >>= λ converted. ok (mapping converted)
    to_dynamodb (list vs) = to_data vs >>= λ converted. ok (list converted)
    to_dynamodb (tuple vs) = to_data vs >>= λ converted. ok (list converted)
    to_dynamodb other = err type_error

    pub to_data : Data → Result CodecError Data
    to_data nil = ok nil
    to_data (cons v vs) = do first ← to_dynamodb v; rest ← to_data vs; ok (cons first rest)

    pub to_attributes : Attributes → Result CodecError Attributes
    to_attributes end = ok end
    to_attributes (attribute k v fields) = do
      first ← to_dynamodb v
      rest ← to_attributes fields
      ok (attribute k first rest)

module _ (nearest : Decimal → Float) where
  -- the branch on a Decimal
  unfoldable pub number : Decimal → Datum
  number d = elim (whole d) [ none ↦ float (nearest d) | some n ↦ int n ]

  unfoldable mutual
    pub from_dynamodb : Datum → Datum
    from_dynamodb (decimal d) = number d
    from_dynamodb (mapping fields) = mapping (from_attributes fields)
    from_dynamodb (list vs) = list (from_data vs)
    from_dynamodb v = v

    pub from_data : Data → Data
    from_data nil = nil
    from_data (cons v vs) = cons (from_dynamodb v) (from_data vs)

    pub from_attributes : Attributes → Attributes
    from_attributes end = end
    from_attributes (attribute k v fields) = attribute k (from_dynamodb v) (from_attributes fields)
