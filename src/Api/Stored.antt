-- ===== src/Api/Stored.antt =====
-- The API (services/api/app/main.py) on the DynamoDB repository
-- (src/flight_delay/persistence/dynamodb.py): what an answered prediction leaves in the table.
use mathlib.Core.Path.{subst}
use us_flight_delay_mlops.Prelude.{ℕ, ◌≡◌, refl, Bool, Option, none, some, String}
use Prim.Native.String.{◌++◌}
use us_flight_delay_mlops.Prelude.Int.{ℤ}
use us_flight_delay_mlops.Python.Float.{Float}
use us_flight_delay_mlops.Python.Result.{ok}
use us_flight_delay_mlops.Persistence.Codec.{
  Decimal, Datum, Attributes, null, bool, str, float, get,
}
use us_flight_delay_mlops.Persistence.Table.{Table, Contents, PutMeans}
use us_flight_delay_mlops.Persistence.Repository.{World, Failure, absent, with_attribute}
use us_flight_delay_mlops.Persistence.Repository as DynamoDbRepository
use us_flight_delay_mlops.Persistence.Repository.Creation.{
  Creates, IsCreated, put_prediction-Creates,
}
use us_flight_delay_mlops.Api.Service.{
  TrafficSource, Inference, Repository, Cache, Context, Runtime, App, ready, predict,
  prediction_record, timed, public_fields, response_fields, source_text,
}
use us_flight_delay_mlops.Api.Predict.{IsTtlCache, IsSoundApp, Means, IsServed, predict-Means}

module _ (table : Table) (others : ℕ → table.State → table.State) (contents : Contents table)
    (repr : Float → Decimal) (utc_text : ℤ → String) (nearest : Decimal → Float)
    (int_of_text : String → Option ℤ) where
  -- `DynamoDBRepository` as the repository of the application
  abbrev pub dynamodb : Repository
  dynamodb = record {
    State = World table others;
    put_prediction =
        DynamoDbRepository.put_prediction table others repr utc_text nearest int_of_text;
    put_error = λ item w.
        (DynamoDbRepository.put_error table others repr utc_text nearest int_of_text item w).1;
    get_prediction =
        DynamoDbRepository.get_prediction table others repr utc_text nearest int_of_text;
    connect = DynamoDbRepository.connect table others;
    put_model_metadata =
        DynamoDbRepository.put_model_metadata table others repr utc_text nearest int_of_text;
    update_feedback =
        DynamoDbRepository.update_feedback table others repr utc_text nearest int_of_text;
  }

  module _
      (puts : (item : Attributes) (s : table.State)
        → PutMeans table contents item absent s (table.put_item s item absent))
      (Request : Type 0) (dump : Request → Datum) (cache_key : Request → String) (cache : Cache)
      (laws : IsTtlCache cache)
      (distinct_keys : (p q : Request) → cache_key p ≡ cache_key q → p ≡ q) (ctx : Context)
      (payload : Request) (source : TrafficSource) where
    -- the event is that of this request, with what the model predicts for it
    pub record IsEvent (runtime : Runtime Request dump cache_key) (result : Inference)
        (event : Attributes) : Type 0 where
      pub key : get "pk" event ≡ some (str ("PREDICTION#" ++ ctx.prediction_id))
      pub request : get "request" event ≡ some (dump payload)
      pub traffic_source : get "traffic_source" event ≡ some (str (source_text source))
      pub probability : get "delay_probability" event ≡ some (float result.delay_probability)
      pub delayed : get "predicted_delayed" event ≡ some (bool result.predicted_delayed)
      pub risk_band : get "risk_band" event ≡ some result.risk_band
      pub threshold : get "classification_threshold" event ≡ some (float runtime.threshold)
      pub version : get "model_version" event ≡ some (str runtime.registry_version)
      pub digest : get "model_digest" event ≡ some (str runtime.registry_digest)
      pub status : get "request_status" event ≡ some (str "success")
      pub no_feedback : get "feedback" event ≡ some null

    -- the answer gives the same prediction under the same identifier, and no field beside the public
    pub record IsAnswer (runtime : Runtime Request dump cache_key) (result : Inference)
        (body : Attributes) : Type 0 where
      pub id : get "prediction_id" body ≡ some (str ctx.prediction_id)
      pub probability : get "delay_probability" body ≡ some (float result.delay_probability)
      pub delayed : get "predicted_delayed" body ≡ some (bool result.predicted_delayed)
      pub risk_band : get "risk_band" body ≡ some result.risk_band
      pub version : get "model_version" body ≡ some (str runtime.registry_version)
      pub digest : get "model_digest" body ≡ some (str runtime.registry_digest)
      pub latency : get "latency_ms" body ≡ some (float ctx.total_ms)
      pub no_request : get "request" body ≡ none
      pub no_key : get "pk" body ≡ none

    record_IsEvent :
        (runtime : Runtime Request dump cache_key) (hit : Bool) (result : Inference)
        → IsEvent runtime result
            (prediction_record Request dump cache_key runtime ctx payload source hit result)
    unfolding prediction_record get
    record_IsEvent runtime hit result = record {
      key = refl;
      request = refl;
      traffic_source = refl;
      probability = refl;
      delayed = refl;
      risk_band = refl;
      threshold = refl;
      version = refl;
      digest = refl;
      status = refl;
      no_feedback = refl;
    }

    body_IsAnswer :
        (runtime : Runtime Request dump cache_key) (hit : Bool) (result : Inference)
        → IsAnswer runtime result (
            public_fields response_fields (
              timed Request dump cache_key ctx
                (prediction_record Request dump cache_key runtime ctx payload source hit result)))
    unfolding prediction_record get public_fields timed with_attribute
    body_IsAnswer runtime hit result = record {
      id = refl;
      probability = refl;
      delayed = refl;
      risk_band = refl;
      version = refl;
      digest = refl;
      latency = refl;
      no_request = refl;
      no_key = refl;
    }

    -- the event of a prediction by the model is a new item of the table, and the answer shows it
    abbrev pub IsRecorded :
        App Request dump cache_key dynamodb cache
        → Attributes
        → App Request dump cache_key dynamodb cache
        → Type 0
    IsRecorded app body app' =
        (runtime : Runtime Request dump cache_key) × (result : Inference) × (event : Attributes)
        × (ready Request dump cache_key dynamodb cache app ≡ some runtime)
        × (runtime.predict payload ≡ some result)
        × IsEvent runtime result event
        × IsAnswer runtime result body
        × IsCreated table others contents repr utc_text nearest int_of_text puts event app.store
            app'.store

    created :
        (item : Attributes) (w w' : World table others)
        → dynamodb.put_prediction item w ≡ (ok tt, w')
        → IsCreated table others contents repr utc_text nearest int_of_text puts item w w'
    created item w w' h =
        subst (Creates table others contents repr utc_text nearest int_of_text puts item w) h (
          put_prediction-Creates table others contents repr utc_text nearest int_of_text puts item
            w)

    served-IsRecorded :
        (app : App Request dump cache_key dynamodb cache) {body : Attributes}
        {app' : App Request dump cache_key dynamodb cache}
        → IsServed Request dump cache_key dynamodb cache laws distinct_keys ctx payload source app
            body app'
        → IsRecorded app body app'
    served-IsRecorded app {body} {app'} served = (
      served.runtime,
      served.result,
      prediction_record Request dump cache_key served.runtime ctx payload source served.hit
          served.result,
      served.is_ready,
      served.predicted,
      record_IsEvent served.runtime served.hit served.result,
      rw served.answered (body_IsAnswer served.runtime served.hit served.result),
      created _ app.store app'.store served.written,
    )

    -- A prediction that the API answers is in the table: under the key of its identifier there was
    -- no item with a key and there is now the converted event, which has the request, its traffic
    -- source, the probability, the decision and the risk band that the model predicts for the
    -- request, the threshold and the identity of the model; no other item is changed; and the
    -- answer has the same identifier, prediction and model and neither the request nor the key. The
    -- cache is sound, different requests have different cache keys, and the table carries out a
    -- conditional put as documented.
    pub predict-IsRecorded :
        (app : App Request dump cache_key dynamodb cache) {body : Attributes}
        {app' : App Request dump cache_key dynamodb cache}
        → IsSoundApp Request dump cache_key dynamodb cache laws distinct_keys app
        → predict Request dump cache_key dynamodb cache ctx payload source app ≡ (ok body, app')
        → IsRecorded app body app'
    predict-IsRecorded app sound h = served-IsRecorded app (
        subst
          (Means Request dump cache_key dynamodb cache laws distinct_keys ctx payload source app) h
          (predict-Means Request dump cache_key dynamodb cache laws distinct_keys ctx payload source
            app sound))
