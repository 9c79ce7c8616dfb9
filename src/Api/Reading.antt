-- ===== src/Api/Reading.antt =====
-- services/api/app/main.py: the handler that reads one prediction, and `_public_record`.
pub mod Public
use us_flight_delay_mlops.Prelude.{
  ◌≡◌, refl, Bool, true, false, Bool-cases, Option, none, some, String, inl, inr, eq_iff, ◌=ₛ◌,
  arith, if◌then◌else◌,
}
use us_flight_delay_mlops.Prelude.Int.{pos}
use us_flight_delay_mlops.Python.Result.{Result, ok, err}
use us_flight_delay_mlops.Persistence.Codec.{
  Datum, null, int, mapping, Attributes, attribute, end, get, type_error,
}
use us_flight_delay_mlops.Persistence.Repository.{Failure, codec, with_attribute}
use us_flight_delay_mlops.Api.Service.{
  HttpError, unhandled, Repository, Cache, App, ready, read_error, not_ready, not_found,
}

-- `payload.pop(key, None)`
unfoldable pub without : String → Attributes → Attributes
without k end = end
without k (attribute j v rest) =
    let others = without k rest in if j =ₛ k then others else attribute j v others

-- `payload.get("feedback_revision", 1)`
abbrev pub revision_or_one : Attributes → Datum
revision_or_one payload = elim (get "feedback_revision" payload) [ none ↦ int (pos 1) | some v ↦ v ]

-- `payload` with a feedback that has its revision; a feedback that is no mapping ends in an
-- exception, here or in the validation
unfoldable pub with_revision : Attributes → Option Datum → Result HttpError Attributes
with_revision payload none = ok payload
with_revision payload (some null) = ok payload
with_revision payload (some (mapping feedback)) = elim (get "feedback_revision" feedback) [
  | some _ ↦ ok payload
  | none ↦ ok (
      with_attribute "feedback"
        (mapping (with_attribute "feedback_revision" (revision_or_one payload) feedback)) payload)
]
with_revision payload (some _) = err (unhandled (codec type_error))

abbrev pub popped : Result HttpError Attributes → Result HttpError Attributes
popped (ok payload) = ok (without "feedback_revision" payload)
popped (err e) = err e

-- `_public_record`, up to the validation
unfoldable pub public_record : Attributes → Result HttpError Attributes
unfolding with_revision
public_record item =
    let payload = without "pk" item in popped (with_revision payload (get "feedback" payload))

module _ (Request : Type 0) (dump : Request → Datum) (cache_key : Request → String)
    (repository : Repository) (cache : Cache) where
  abbrev pub State : Type 0
  State = App Request dump cache_key repository cache

  abbrev pub shown :
      State
      → Result Failure (Option Attributes) × repository.State
      → Result HttpError Attributes × State
  shown app (err e, s) = (err (read_error e), record app { store = s })
  shown app (ok none, s) = (err not_found, record app { store = s })
  shown app (ok (some item), s) = (public_record item, record app { store = s })

  -- `get_prediction`
  unfoldable pub get_prediction : String → State → Result HttpError Attributes × State
  get_prediction prediction_id app = elim (ready Request dump cache_key repository cache app) [
    | none ↦ (err not_ready, app)
    | some runtime ↦ shown app (repository.get_prediction prediction_id app.store)
  ]
