-- ===== src/Persistence/Table.antt =====
-- The DynamoDB table that src/flight_delay/persistence/dynamodb.py calls: its operations, and what
-- their documentation promises of the requests that the repository makes.
use us_flight_delay_mlops.Prelude.{
  ◌≡◌, Bool, Option, none, some, List, String, All, ◌⊎◌, ◌=ₛ◌, any, false,
}
use us_flight_delay_mlops.Prelude.Int.{ℤ}
use us_flight_delay_mlops.Persistence.Codec.{Decimal, Datum, int, decimal, Attributes, get, whole}

-- How a call ends: with a value, a ClientError of code ConditionalCheckFailedException, any other
-- ClientError, or any other exception, such as a broken connection.
pub data Reply (A : Type 0) : Type 0 where
  done : A → Reply A
  refused rejected interrupted : Reply A

-- a ConditionExpression; `equals a p` is `a = p`, where `p` is a placeholder
pub data Condition : Type 0 where
  attribute_exists attribute_not_exists : String → Condition
  equals : String → String → Condition
  both either : Condition → Condition → Condition

-- one assignment of an UpdateExpression; the second is `a = if_not_exists(a, p)`
pub data Assignment : Type 0 where
  set set_if_missing : String → String → Assignment

-- The table. A key is the value of `pk`; the last argument of an update holds the values of the
-- placeholders.
pub record Table : Type 1 where
  pub State : Type 0
  pub load : State → Bool
  pub get_item : State → Datum → Reply (Option Attributes)
  pub put_item : State → Attributes → Condition → Reply (Unit {0}) × State
  pub update_item :
      State → Datum → List Assignment → Condition → Attributes → Reply Attributes × State

abbrev pub target : Assignment → String
target (set a p) = a
target (set_if_missing a p) = a

-- an attribute of an item that may be missing
abbrev pub attribute_of : String → Option Attributes → Option Datum
attribute_of a none = none
attribute_of a (some item) = get a item

-- What the table stores, as an item at each key, and how it writes the values that it is given:
-- a number comes back as a Decimal of its value, a text as it is.
pub record Contents (table : Table) : Type 0 where
  pub item_at : table.State → Datum → Option Attributes
  pub wire : Datum → Datum
  pub wire_int : (n : ℤ) → (d : Decimal) × (wire (int n) ≡ decimal d) × (whole d ≡ some n)

module _ (table : Table) (contents : Contents table) where
  open table use {State}
  open contents use {item_at, wire}

  abbrev pub Wired : Option Datum → Option Datum → Type 0
  Wired (some v) stored = stored ≡ some (wire v)
  Wired none stored = stored ≡ none

  -- the condition holds of an item
  abbrev pub Holds : Condition → Option Attributes → Attributes → Type 0
  Holds (attribute_exists a) item values = (v : Datum) × (attribute_of a item ≡ some v)
  Holds (attribute_not_exists a) item values = attribute_of a item ≡ none
  Holds (equals a p) item values =
      (v : Datum) × (get p values ≡ some v) × (attribute_of a item ≡ some (wire v))
  Holds (both c d) item values = Holds c item values × Holds d item values
  Holds (either c d) item values = Holds c item values ⊎ Holds d item values

  -- what an assignment makes of an item
  abbrev pub Assigned : Option Attributes → Attributes → Attributes → Assignment → Type 0
  Assigned before values after (set a p) = Wired (get p values) (get a after)
  Assigned before values after (set_if_missing a p) = elim (attribute_of a before) [
    | none ↦ Wired (get p values) (get a after)
    | some v ↦ get a after ≡ some v
  ]

  -- nothing is changed, or nothing but the item at `key`
  abbrev pub Same : State → State → Type 0
  Same s s' = (k : Datum) → item_at s' k ≡ item_at s k

  abbrev pub SameElsewhere : Datum → State → State → Type 0
  SameElsewhere key s s' = (k : Datum) → (k ≡ key) ⊎ (item_at s' k ≡ item_at s k)

  -- an update that is carried out
  pub record Updated (key : Datum) (changes : List Assignment) (condition : Condition)
      (values : Attributes) (s s' : State) (after : Attributes) : Type 0 where
    pub held : Holds condition (item_at s key) values
    pub stored : item_at s' key ≡ some after
    pub assigned : All (Assigned (item_at s key) values after) changes
    pub kept :
        (b : String)
        → any (λ c. target c =ₛ b) changes ≡ false
        → get b after ≡ attribute_of b (item_at s key)
    pub elsewhere : SameElsewhere key s s'

  -- A ClientError means that nothing is changed; after another exception it is not known whether
  -- the update was carried out.
  abbrev pub UpdateMeans :
      Datum → List Assignment → Condition → Attributes → State → Reply Attributes × State → Type 0
  UpdateMeans key changes condition values s (done after, s') =
      Updated key changes condition values s s' after
  UpdateMeans key changes condition values s (refused, s') = Same s s'
  UpdateMeans key changes condition values s (rejected, s') = Same s s'
  UpdateMeans key changes condition values s (interrupted, s') =
      Same s s' ⊎ ((after : Attributes) × Updated key changes condition values s s' after)

  -- an item that is put
  pub record IsPut (item : Attributes) (condition : Condition) (s s' : State) : Type 0 where
    pub key : Datum
    pub after : Attributes
    pub keyed : get "pk" item ≡ some key
    pub held : Holds condition (item_at s key) item
    pub stored : item_at s' key ≡ some after
    pub written : (b : String) → Wired (get b item) (get b after)
    pub elsewhere : SameElsewhere key s s'

  abbrev pub PutMeans : Attributes → Condition → State → Reply (Unit {0}) × State → Type 0
  PutMeans item condition s (done _, s') = IsPut item condition s s'
  PutMeans item condition s (refused, s') = Same s s'
  PutMeans item condition s (rejected, s') = Same s s'
  PutMeans item condition s (interrupted, s') = Same s s' ⊎ IsPut item condition s s'

  abbrev pub GetMeans : Datum → State → Reply (Option Attributes) → Type 0
  GetMeans key s (done item) = item ≡ item_at s key
  GetMeans key s _ = Unit
