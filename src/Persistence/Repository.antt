-- ===== src/Persistence/Repository.antt =====
-- src/flight_delay/persistence/dynamodb.py, `DynamoDBRepository`. Other clients may act on the
-- table before each call of ours.
pub mod Creation
pub mod Placeholders
pub mod Feedback
pub mod History
use Prim.Native.String.{◌++◌}
use us_flight_delay_mlops.Prelude.{
  ℕ, zero, suc, ◌+◌, ◌/◌, Bool, true, false, Option, none, some, List, [], ◌∷◌, String, ◌=ₛ◌,
  if◌then◌else◌,
}
use us_flight_delay_mlops.Prelude.Int.{ℤ, pos, negsuc}
use us_flight_delay_mlops.Python.Float.{Float, finite, inf, neg_inf, nan, unit}
use us_flight_delay_mlops.Python.Result.{Result, ok, err}
use us_flight_delay_mlops.Persistence.Codec.{
  Decimal, Datum, null, bool, str, int, float, mapping, Attributes, end, attribute, get, CodecError,
  value_error, type_error, signed, magnitude, to_attributes, from_attributes,
}
use us_flight_delay_mlops.Persistence.Table.{
  Reply, done, refused, rejected, interrupted, Condition, attribute_exists, attribute_not_exists,
  equals, both, either, Assignment, set, set_if_missing, Table,
}

-- `PersistenceConflict`, `PersistenceError`, and the exceptions that are let through
pub data Failure : Type 0 where
  conflict failed unavailable : Failure
  codec : CodecError → Failure
  key_error : String → Failure
  overflow_error transport_error : Failure

-- `{**fields, key: value}`
unfoldable pub with_attribute : String → Datum → Attributes → Attributes
with_attribute k v end = attribute k v end
with_attribute k v (attribute j u fields) =
    let rest = with_attribute k v fields in
    if j =ₛ k then attribute j v fields else attribute j u rest

abbrev pub increment : ℤ → ℤ
increment (pos n) = pos (suc n)
increment (negsuc zero) = pos 0
increment (negsuc (suc n)) = negsuc n

abbrev pub prediction_key : String → Datum
prediction_key prediction_id = str ("PREDICTION#" ++ prediction_id)

-- `attribute_not_exists(pk)`
abbrev pub absent : Condition
absent = attribute_not_exists "pk"

abbrev pub feedback_changes : List Assignment
feedback_changes = set "feedback" ":feedback" ∷ set "feedback_revision" ":revision" ∷ []

abbrev pub feedback_condition : Condition
feedback_condition =
    both (attribute_exists "pk")
      (either (attribute_not_exists "feedback_revision") (equals "feedback_revision" ":expected"))

abbrev pub metadata_changes : List Assignment
metadata_changes =
    set_if_missing "first_loaded_at" ":now"
    ∷ set "last_loaded_at" ":now"
    ∷ set "model_metadata" ":payload"
    ∷ set "registry_version" ":version"
    ∷ set "registry_digest" ":digest"
    ∷ set "bundle_digest" ":bundle"
    ∷ []

abbrev pub metadata_condition : Condition
metadata_condition = either absent (
    both (equals "registry_version" ":version")
      (both (equals "registry_digest" ":digest") (equals "bundle_digest" ":bundle")))

-- the placeholders of `update_feedback`
abbrev pub feedback_values : Attributes → ℤ → Attributes
feedback_values feedback expected =
    let revision = int (increment expected) in
    attribute ":expected" (int expected) (
      attribute ":revision" revision (
        attribute ":feedback" (mapping (with_attribute "feedback_revision" revision feedback)) end))

-- the placeholders of `put_model_metadata`
abbrev pub metadata_values : Datum → Datum → Datum → Datum → Attributes → Attributes
metadata_values now version digest bundle item = attribute ":version" version (
    attribute ":digest" digest
      (attribute ":bundle" bundle (attribute ":now" now (attribute ":payload" (mapping item) end))))

-- `int(v)`; `int_of_text` is `int` of a text, `none` where it raises ValueError
unfoldable pub int_of : (String → Option ℤ) → Datum → Result Failure ℤ
int_of int_of_text (int n) = ok n
int_of int_of_text (bool true) = ok (pos 1)
int_of int_of_text (bool false) = ok (pos 0)
int_of int_of_text (float (finite m)) = ok (signed m (magnitude m / unit))
int_of int_of_text (float nan) = err (codec value_error)
int_of int_of_text (float _) = err overflow_error
int_of int_of_text (str s) = elim (int_of_text s) [ none ↦ err (codec value_error) | some n ↦ ok n ]
int_of int_of_text _ = err (codec type_error)

-- `int(current.get("feedback_revision", 0))`
unfoldable pub revision_of : (String → Option ℤ) → Attributes → Result Failure ℤ
revision_of int_of_text current = elim (get "feedback_revision" current) [
  | none ↦ ok (pos 0)
  | some v ↦ int_of int_of_text v
]

-- `model[key]`
abbrev pub required : String → Attributes → Result Failure Datum
required key fields = elim (get key fields) [ none ↦ err (key_error key) | some v ↦ ok v ]

abbrev pub codec_result {ℓ} : {A : Type ℓ} → Result CodecError A → Result Failure A
codec_result (ok a) = ok a
codec_result (err e) = err (codec e)

module _ (table : Table) (others : ℕ → table.State → table.State) where
  pub record World : Type 0 where
    pub state : table.State
    pub calls : ℕ

  abbrev pub Run : Type 0 → Type 0
  Run A = World → Result Failure A × World

  -- a raise ends the operation, and keeps what was done
  abbrev pub continue :
      {A B : Type 0} → (A → Run B) → Result Failure A × World → Result Failure B × World
  continue f (ok a, w) = f a w
  continue f (err e, w) = (err e, w)

  infixl 5 ◌>>=◌
  unfoldable pub ◌>>=◌ : {A B : Type 0} → Run A → (A → Run B) → Run B
  ◌>>=◌ m f w = continue f (m w)

  abbrev pub pure : {A : Type 0} → A → Run A
  pure a w = (ok a, w)

  abbrev pub lift : {A : Type 0} → Result Failure A → Run A
  lift r w = (r, w)

  -- the state that a call meets: the others act first
  abbrev pub met : World → table.State
  met w = others w.calls w.state

  abbrev pub after_call : World → table.State → World
  after_call w s = record { state = s; calls = w.calls + 1 }

  abbrev pub call_get : Datum → Run (Reply (Option Attributes))
  call_get key w = (ok (table.get_item (met w) key), after_call w (met w))

  abbrev pub call_put : Attributes → Condition → Run (Reply (Unit {0}))
  call_put item condition w =
      let (reply, s) = table.put_item (met w) item condition in (ok reply, after_call w s)

  abbrev pub call_update : Datum → List Assignment → Condition → Attributes → Run (Reply Attributes)
  call_update key changes condition values w =
      let (reply, s) = table.update_item (met w) key changes condition values in
      (ok reply, after_call w s)

  -- `connect`
  unfoldable pub connect : Run (Unit {0})
  connect w = (if table.load (met w) then ok tt else err unavailable, after_call w (met w))

  -- the `except` clauses of a conditional write
  abbrev pub answered : {A : Type 0} → Reply A → Result Failure A
  answered (done a) = ok a
  answered refused = err conflict
  answered rejected = err failed
  answered interrupted = err transport_error

  -- the `except` clause of a read; an item without attributes is read as none
  abbrev pub retrieved :
      (Attributes → Attributes) → Reply (Option Attributes) → Result Failure (Option Attributes)
  retrieved convert (done none) = ok none
  retrieved convert (done (some end)) = ok none
  retrieved convert (done (some (attribute k v fields))) =
      ok (some (convert (attribute k v fields)))
  retrieved convert refused = err failed
  retrieved convert rejected = err failed
  retrieved convert interrupted = err transport_error

  module _ (repr : Float → Decimal) (utc_text : ℤ → String) (nearest : Decimal → Float)
      (int_of_text : String → Option ℤ) where
    -- `put_prediction`
    unfoldable pub put_prediction : Attributes → Run (Unit {0})
    put_prediction item = do
      converted ← lift (codec_result (to_attributes repr utc_text item))
      reply ← call_put converted absent
      lift (answered reply)

    -- `put_error`: the same write, with every exception dropped
    unfoldable pub put_error : Attributes → Run (Unit {0})
    unfolding put_prediction
    put_error item w = let (r, w') = put_prediction item w in (ok tt, w')

    -- `get_prediction`
    unfoldable pub get_prediction : String → Run (Option Attributes)
    get_prediction prediction_id = do
      reply ← call_get (prediction_key prediction_id)
      lift (retrieved (from_attributes nearest) reply)

    -- `put_model_metadata`
    unfoldable pub put_model_metadata : Attributes → Run (Unit {0})
    put_model_metadata item = do
      now ← lift (required "last_loaded_at" item)
      version ← lift (required "registry_version" item)
      digest ← lift (required "registry_digest" item)
      bundle ← lift (required "bundle_digest" item)
      values ← lift (
          codec_result
            (to_attributes repr utc_text (metadata_values now version digest bundle item)))
      key ← lift (required "pk" item)
      reply ← call_update key metadata_changes metadata_condition values
      _ ← lift (answered reply)
      pure tt

    -- the write of `update_feedback`
    unfoldable pub write_feedback : String → Attributes → ℤ → Run (Option Attributes)
    write_feedback prediction_id feedback expected = do
      values ← lift (codec_result (to_attributes repr utc_text (feedback_values feedback expected)))
      reply ← call_update (prediction_key prediction_id) feedback_changes feedback_condition values
      after ← lift (answered reply)
      pure (some (from_attributes nearest after))

    -- what follows the read of `update_feedback`
    unfoldable pub revise : String → Attributes → Option Attributes → Run (Option Attributes)
    revise prediction_id feedback none = pure none
    revise prediction_id feedback (some current) = do
      expected ← lift (revision_of int_of_text current)
      write_feedback prediction_id feedback expected

    -- `update_feedback`
    unfoldable pub update_feedback : String → Attributes → Run (Option Attributes)
    update_feedback prediction_id feedback = do
      current ← get_prediction prediction_id
      revise prediction_id feedback current
