-- ===== src/Api/Service.antt =====
-- services/api/app/main.py: the state of the application, what its handlers call, and the handlers.
-- The repository and the cache are interfaces; a model runtime is what it predicts and its
-- identity; the clock readings and the fresh identifier of a request are in its context.
use Prim.Native.String.{◌++◌}
use us_flight_delay_mlops.Prelude.{
  ℕ, Bool, true, false, Option, none, some, List, [], ◌∷◌, String, if◌then◌else◌,
}
use us_flight_delay_mlops.Python.Float.{Float}
use us_flight_delay_mlops.Python.Result.{Result, ok, err}
use us_flight_delay_mlops.Persistence.Codec.{
  Datum, null, bool, str, float, datetime, iso, Datetime, Attributes, attribute, end, get,
}
use us_flight_delay_mlops.Persistence.Repository.{
  Failure, conflict, failed, unavailable, with_attribute, prediction_key,
}

-- `TrafficSource`
pub data TrafficSource : Type 0 where
  traveler_ui synthetic_load_test api_unspecified legacy_unattributed : TrafficSource

abbrev pub source_text : TrafficSource → String
source_text traveler_ui = "traveler_ui"
source_text synthetic_load_test = "synthetic_load_test"
source_text api_unspecified = "api_unspecified"
source_text legacy_unattributed = "legacy_unattributed"

-- an HTTPException by its status, or an exception that no handler catches
pub data HttpError : Type 0 where
  http : ℕ → HttpError
  key_missing : String → HttpError
  unhandled : Failure → HttpError

-- what `ServingRuntime.predict` returns
pub record Inference : Type 0 where
  pub delay_probability : Float
  pub predicted_delayed : Bool
  pub risk_band : Datum
  pub route_reliability : Datum
  pub support_warning : Datum

-- the operations of the repository that the handlers call
pub record Repository : Type 1 where
  pub State : Type 0
  pub put_prediction : Attributes → State → Result Failure (Unit {0}) × State
  pub put_error : Attributes → State → State
  pub get_prediction : String → State → Result Failure (Option Attributes) × State
  pub connect : State → Result Failure (Unit {0}) × State
  pub put_model_metadata : Attributes → State → Result Failure (Unit {0}) × State
  pub update_feedback : String → Attributes → State → Result Failure (Option Attributes) × State

-- the TTL cache: a look-up may find an entry expired
pub record Cache : Type 1 where
  pub State : Type 0
  pub get : String → State → Option Inference × State
  pub put : String → Inference → State → State

-- the readings of one request: its identifier, its time and day, and the latencies
pub record Context : Type 0 where
  pub prediction_id : String
  pub created_at : Datetime
  pub event_date : String
  pub inference_ms : Float
  pub preliminary_persistence_ms : Float
  pub preliminary_total_ms : Float
  pub persistence_ms : Float
  pub total_ms : Float
  pub error_type : String

-- the fields of `FlightPredictionResponse`
abbrev pub response_fields : List String
response_fields =
    "prediction_id" ∷ "delay_probability" ∷ "predicted_delayed" ∷ "risk_band"
    ∷ "classification_threshold" ∷ "route_reliability" ∷ "support_warning" ∷ "model_alias"
    ∷ "model_version" ∷ "model_digest" ∷ "cache_hit" ∷ "latency_ms" ∷ "created_at" ∷ []

-- `{name: record[name] for name in names if name in record}`
unfoldable pub public_fields : List String → Attributes → Attributes
public_fields [] event = end
public_fields (name ∷ names) event = elim (get name event) [
  | none ↦ public_fields names event
  | some v ↦ attribute name v (public_fields names event)
]

-- the exceptions around `put_prediction`
abbrev pub write_error : Failure → HttpError
write_error conflict = http 409
write_error _ = http 503

-- the exceptions around the calls of the other two handlers
abbrev pub read_error : Failure → HttpError
read_error conflict = http 409
read_error failed = http 503
read_error unavailable = http 503
read_error e = unhandled e

abbrev pub not_ready : HttpError
not_ready = http 503

abbrev pub not_found : HttpError
not_found = http 404

module _ (Request : Type 0) (dump : Request → Datum) (cache_key : Request → String) where
  -- `ServingRuntime`: `none` is an exception of the inference
  pub record Runtime : Type 0 where
    pub predict : Request → Option Inference
    pub threshold : Float
    pub serving_alias : String
    pub registry_version : String
    pub registry_digest : String
    pub bundle_digest : String
    pub registry_path : String
    pub source_artifact_digest : String
    pub internal_production_gate_passed : Bool
    pub deployment_purpose : String
    pub governance_notice : String
    pub selection_lock_sha256 : String
    pub route_asset_sha256 : String
    pub training_partitions : Datum
    pub training_baseline : Datum
    pub release_decision : Datum
    pub loaded_at : Datetime

  -- the record of `predict`
  unfoldable pub prediction_record :
      Runtime → Context → Request → TrafficSource → Bool → Inference → Attributes
  prediction_record runtime ctx payload source cache_hit result =
      attribute "pk" (prediction_key ctx.prediction_id) (
        attribute "prediction_id" (str ctx.prediction_id) (
          attribute "event_date" (iso ctx.event_date) (
            attribute "created_at" (datetime ctx.created_at) (
              attribute "traffic_source" (str (source_text source)) (
                attribute "request" (dump payload) (
                  attribute "delay_probability" (float result.delay_probability) (
                    attribute "predicted_delayed" (bool result.predicted_delayed) (
                      attribute "risk_band" result.risk_band (
                        attribute "route_reliability" result.route_reliability (
                          attribute "support_warning" result.support_warning (
                            attribute "classification_threshold" (float runtime.threshold) (
                              attribute "model_alias" (str runtime.serving_alias) (
                                attribute "model_version" (str runtime.registry_version) (
                                  attribute "model_digest" (str runtime.registry_digest) (
                                    attribute "bundle_digest" (str runtime.bundle_digest) (
                                      attribute "cache_hit" (bool cache_hit) (
                                        attribute "latency_ms" (float ctx.preliminary_total_ms) (
                                          attribute "inference_latency_ms" (float ctx.inference_ms)
                                            (attribute "persistence_latency_ms"
                                              (float ctx.preliminary_persistence_ms)
                                              (attribute "total_latency_ms"
                                                (float ctx.preliminary_total_ms)
                                                (attribute "request_status" (str "success") (
                                                  attribute "feedback" null
                                                    end))))))))))))))))))))))

  -- the record after the write, with the latencies measured then
  unfoldable pub timed : Context → Attributes → Attributes
  timed ctx event = with_attribute "latency_ms" (float ctx.total_ms) (
      with_attribute "total_latency_ms" (float ctx.total_ms)
        (with_attribute "persistence_latency_ms" (float ctx.persistence_ms) event))

  -- the item of a failed inference
  unfoldable pub error_record : Context → TrafficSource → Attributes
  error_record ctx source = attribute "pk" (str ("ERROR#" ++ ctx.prediction_id)) (
      attribute "event_date" (str ctx.event_date) (
        attribute "created_at" (datetime ctx.created_at) (
          attribute "request_status" (str "inference_error") (
            attribute "error_type" (str ctx.error_type)
              (attribute "traffic_source" (str (source_text source)) end)))))

  module _ (repository : Repository) (cache : Cache) where
    -- `ApplicationState`, with the states of the two dependencies
    pub record App : Type 0 where
      pub runtime : Option Runtime
      pub connected : Bool
      pub store : repository.State
      pub cached : cache.State

    abbrev pub Handler : Type 0 → Type 0
    Handler A = App → Result HttpError A × App

    -- `_require_ready`, and the runtime that it leaves
    abbrev pub ready : App → Option Runtime
    ready app = if app.connected then app.runtime else none

    abbrev pub stored :
        Context
        → Attributes
        → App
        → Result Failure (Unit {0}) × repository.State
        → Result HttpError Attributes × App
    stored ctx event app (ok _, s) =
        (ok (public_fields response_fields (timed ctx event)), record app { store = s })
    stored ctx event app (err e, s) = (err (write_error e), record app { store = s })

    -- the write of `predict`
    unfoldable pub persist : Context → Attributes → Handler Attributes
    persist ctx event app = stored ctx event app (repository.put_prediction event app.store)

    -- the inference of `predict`, where the cache had nothing
    abbrev pub inferred :
        Runtime → Context → Request → TrafficSource → Option Inference → Handler Attributes
    inferred runtime ctx payload source none app = (
      err (http 503),
      record app { store = repository.put_error (error_record ctx source) app.store },
    )
    inferred runtime ctx payload source (some result) app =
        persist ctx (prediction_record runtime ctx payload source false result)
          (record app { cached = cache.put (cache_key payload) result app.cached })

    -- `predict`, after the look-up in the cache
    unfoldable pub answer :
        Runtime → Context → Request → TrafficSource → Option Inference → Handler Attributes
    unfolding persist
    answer runtime ctx payload source (some result) app =
        persist ctx (prediction_record runtime ctx payload source true result) app
    answer runtime ctx payload source none app =
        inferred runtime ctx payload source (runtime.predict payload) app

    abbrev pub is_legacy : TrafficSource → Bool
    is_legacy legacy_unattributed = true
    is_legacy _ = false

    -- `predict`, once the service is known to be ready
    unfoldable pub predict_ready : Runtime → Context → Request → TrafficSource → Handler Attributes
    unfolding answer
    predict_ready runtime ctx payload source app =
        let (found, c) = cache.get (cache_key payload) app.cached in
        answer runtime ctx payload source found (record app { cached = c })

    -- `predict`
    unfoldable pub predict : Context → Request → TrafficSource → Handler Attributes
    unfolding predict_ready
    predict ctx payload source app =
        if is_legacy source then (err (http 422), app) else elim (ready app) [
          | none ↦ (err not_ready, app)
          | some runtime ↦ predict_ready runtime ctx payload source app
        ]
