-- ===== src/Api/Predict/Refused.antt =====
-- What `predict` (services/api/app/main.py) has done where it gives no answer.
use Prim.Native.String.{◌++◌}
use us_flight_delay_mlops.Prelude.{◌≡◌, ◌≢◌, false, none, some, String, ◌⊎◌}
use us_flight_delay_mlops.Python.Result.{Result, ok, err}
use us_flight_delay_mlops.Persistence.Codec.{Datum, Attributes, str, float, bool, get}
use us_flight_delay_mlops.Persistence.Repository.{Failure, conflict}
use us_flight_delay_mlops.Api.Service.{
  TrafficSource, legacy_unattributed, source_text, HttpError, http, Inference, Repository, Cache,
  Context, Runtime, App, predict,
}
use us_flight_delay_mlops.Api.Predict.{IsTtlCache}

-- the status of a failed write: 409 for a conflict, 503 for any other failure
pub data HasStatus : Failure → HttpError → Type 0 where
  conflicting : HasStatus conflict (http 409)
  failing : {f : Failure} → f ≢ conflict → HasStatus f (http 503)

module _ (Request : Type 0) (dump : Request → Datum) (cache_key : Request → String)
    (repository : Repository) (cache : Cache) (laws : IsTtlCache cache)
    (distinct_keys : (p q : Request) → cache_key p ≡ cache_key q → p ≡ q) (ctx : Context)
    (payload : Request) (source : TrafficSource) where
  abbrev State : Type 0
  State = App Request dump cache_key repository cache

  -- the event of a failed inference has nothing of the request
  pub record IsErrorEvent (event : Attributes) : Type 0 where
    pub key : get "pk" event ≡ some (str ("ERROR#" ++ ctx.prediction_id))
    pub status : get "request_status" event ≡ some (str "inference_error")
    pub error_type : get "error_type" event ≡ some (str ctx.error_type)
    pub traffic_source : get "traffic_source" event ≡ some (str (source_text source))
    pub no_request : get "request" event ≡ none

  -- the event that could not be written is that of the prediction
  pub record IsPredicted (result : Inference) (event : Attributes) : Type 0 where
    pub key : get "prediction_id" event ≡ some (str ctx.prediction_id)
    pub request : get "request" event ≡ some (dump payload)
    pub probability : get "delay_probability" event ≡ some (float result.delay_probability)
    pub delayed : get "predicted_delayed" event ≡ some (bool result.predicted_delayed)

  -- why there is no answer, with which status, and what was done
  pub data Refuses (app : State) (app' : State) : HttpError → Type 0 where
    reserved : source ≡ legacy_unattributed → app' ≡ app → Refuses app app' (http 422)
    unready :
        (app.connected ≡ false) ⊎ (app.runtime ≡ none) → app' ≡ app → Refuses app app' (http 503)
    uninferred :
        (runtime : Runtime Request dump cache_key) (event : Attributes)
        → app.runtime ≡ some runtime
        → runtime.predict payload ≡ none
        → IsErrorEvent event
        → app'.store ≡ repository.put_error event app.store
        → Refuses app app' (http 503)
    unwritten :
        {e : HttpError} (runtime : Runtime Request dump cache_key) (result : Inference)
        (event : Attributes) (failure : Failure)
        → app.runtime ≡ some runtime
        → runtime.predict payload ≡ some result
        → IsPredicted result event
        → repository.put_prediction event app.store ≡ (err failure, app'.store)
        → HasStatus failure e
        → Refuses app app' e

  abbrev RefusesWhere : State → Result HttpError Attributes × State → Type 0
  RefusesWhere app (ok body, app') = Unit
  RefusesWhere app (err e, app') = Refuses app app' e
