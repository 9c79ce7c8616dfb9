-- ===== src/Api/Feedback.antt =====
-- services/api/app/main.py: the handler of feedback.
pub mod Accepted
pub mod Agreement
use us_flight_delay_mlops.Prelude.{Bool, true, false, not, Option, none, some, String}
use us_flight_delay_mlops.Prelude.Int.{pos}
use us_flight_delay_mlops.Python.Result.{Result, ok, err}
use us_flight_delay_mlops.Persistence.Codec.{
  Datum, bool, int, float, CodecError, type_error, datetime, mapping, Datetime, Attributes, get,
}
use us_flight_delay_mlops.Persistence.Repository.{Failure, codec, with_attribute}
use us_flight_delay_mlops.Python.Float.{finite, feq, unit}
use us_flight_delay_mlops.Api.Service.{
  HttpError, key_missing, unhandled, Repository, Cache, App, ready, read_error, not_ready,
  not_found,
}

module _ (Request : Type 0) (dump : Request → Datum) (cache_key : Request → String) where
  module _ (repository : Repository) (cache : Cache) where
    abbrev pub State : Type 0
    State = App Request dump cache_key repository cache

    -- `feedback.actual_delayed == current["predicted_delayed"]`
    abbrev pub agrees : Bool → Datum → Bool
    agrees true (bool b) = b
    agrees false (bool b) = not b
    agrees true (int (pos (Prim.Native.Nat.suc Prim.Native.Nat.zero))) = true
    agrees false (int (pos Prim.Native.Nat.zero)) = true
    agrees true (float x) = feq x (finite (pos unit))
    agrees false (float x) = feq x (finite (pos 0))
    agrees _ _ = false

    -- `updated["feedback"]`, with `setdefault` of its revision; what is no mapping has no `dict`
    abbrev pub revised_feedback : Attributes → Result HttpError Attributes
    revised_feedback updated = elim (get "feedback" updated) [
      | some (mapping feedback) ↦ elim (get "feedback_revision" updated) [
        | some revision ↦ ok (elim (get "feedback_revision" feedback) [
          | some _ ↦ feedback
          | none ↦ with_attribute "feedback_revision" revision feedback
        ])
        | none ↦ err (key_missing "feedback_revision")
      ]
      | some _ ↦ err (unhandled (codec type_error))
      | none ↦ err (key_missing "feedback")
    ]

    abbrev pub updated :
        State
        → Result Failure (Option Attributes) × repository.State
        → Result HttpError Attributes × State
    updated app (err e, s) = (err (read_error e), record app { store = s })
    updated app (ok none, s) = (err not_found, record app { store = s })
    updated app (ok (some item), s) = (revised_feedback item, record app { store = s })

    -- the revision of `submit_feedback`, on the prediction as read; `feedback` is the request's dump
    unfoldable pub revise :
        String
        → Bool
        → Datetime
        → Attributes
        → Option Datum
        → State
        → Result HttpError Attributes × State
    revise prediction_id actual_delayed feedback_at feedback none app =
        (err (key_missing "predicted_delayed"), app)
    revise prediction_id actual_delayed feedback_at feedback (some predicted) app = updated app (
        repository.update_feedback prediction_id
          (with_attribute "feedback_at" (datetime feedback_at)
            (with_attribute "feedback_correct" (bool (agrees actual_delayed predicted)) feedback))
          app.store)

    abbrev pub retrieved :
        String
        → Bool
        → Datetime
        → Attributes
        → State
        → Result Failure (Option Attributes) × repository.State
        → Result HttpError Attributes × State
    retrieved prediction_id actual_delayed feedback_at feedback app (err e, s) =
        (err (read_error e), record app { store = s })
    retrieved prediction_id actual_delayed feedback_at feedback app (ok none, s) =
        (err not_found, record app { store = s })
    retrieved prediction_id actual_delayed feedback_at feedback app (ok (some current), s) =
        revise prediction_id actual_delayed feedback_at feedback (get "predicted_delayed" current)
          (record app { store = s })

    -- `submit_feedback`
    unfoldable pub submit_feedback :
        String → Bool → Datetime → Attributes → State → Result HttpError Attributes × State
    unfolding revise
    submit_feedback prediction_id actual_delayed feedback_at feedback app =
        elim (ready Request dump cache_key repository cache app) [
          | none ↦ (err not_ready, app)
          | some runtime ↦
              retrieved prediction_id actual_delayed feedback_at feedback app
                (repository.get_prediction prediction_id app.store)
        ]
