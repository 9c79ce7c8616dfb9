-- ===== src/Api/Lifespan.antt =====
-- services/api/app/main.py: what the lifespan does at startup, and `/health`.
pub mod Startup
use Prim.Native.String.{◌++◌}
use us_flight_delay_mlops.Prelude.{
  ℕ, ◌≡◌, refl, sym, ◌∙◌, ◌↔◌, Bool, true, false, Option, none, some, String, if◌then◌else◌,
}
use us_flight_delay_mlops.Python.Result.{Result, ok, err}
use us_flight_delay_mlops.Persistence.Codec.{
  Datum, bool, str, float, datetime, Attributes, attribute, end,
}
use us_flight_delay_mlops.Persistence.Repository.{Failure}
use us_flight_delay_mlops.Api.Service.{Repository, Cache, Runtime, App, ready}

-- `dependency_errors`
pub record Errors : Type 0 where
  pub registry : Option String
  pub dynamodb : Option String

-- `HealthResponse` with its HTTP status
pub record Health : Type 0 where
  pub status : ℕ
  pub is_ready : Bool
  pub model_loaded : Bool
  pub database_connected : Bool
  pub registry_detail : String
  pub dynamodb_detail : String

abbrev pub text_or : Option String → String → String
text_or none default = default
text_or (some s) default = s

-- `error_text` is `_safe_dependency_error` on the failures of the repository.
module _ (Request : Type 0) (dump : Request → Datum) (cache_key : Request → String)
    (error_text : Failure → String) where
  -- `_model_item`
  unfoldable pub model_item : Runtime Request dump cache_key → Attributes
  model_item r = attribute "pk" (str ("MODEL#" ++ r.registry_version)) (
      attribute "registry_path" (str r.registry_path) (
        attribute "serving_alias" (str r.serving_alias) (
          attribute "registry_version" (str r.registry_version) (
            attribute "registry_digest" (str r.registry_digest) (
              attribute "source_artifact_digest" (str r.source_artifact_digest) (
                attribute "bundle_digest" (str r.bundle_digest) (
                  attribute "internal_production_gate_passed"
                    (bool r.internal_production_gate_passed)
                    (attribute "deployment_purpose" (str r.deployment_purpose) (
                      attribute "governance_notice" (str r.governance_notice) (
                        attribute "selection_lock_sha256" (str r.selection_lock_sha256) (
                          attribute "route_asset_sha256" (str r.route_asset_sha256) (
                            attribute "classification_threshold" (float r.threshold) (
                              attribute "training_partitions" r.training_partitions (
                                attribute "training_baseline" r.training_baseline (
                                  attribute "release_decision" r.release_decision (
                                    attribute "first_loaded_at" (datetime r.loaded_at) (
                                      attribute "last_loaded_at" (datetime r.loaded_at)
                                        end)))))))))))))))))

  module _ (repository : Repository) (cache : Cache) where
    abbrev pub State : Type 0
    State = App Request dump cache_key repository cache × Errors

    -- the first `try`: `loaded` is what the loader returns, or the text of its error
    abbrev pub load : Result String (Runtime Request dump cache_key) → State → State
    load (ok runtime) (app, errors) = (record app { runtime = some runtime }, errors)
    load (err text) (app, errors) = (app, record errors { registry = some text })

    abbrev pub connected : Result Failure (Unit {0}) × repository.State → State → State
    connected (ok _, s) (app, errors) = (record app { connected = true; store = s }, errors)
    connected (err e, s) (app, errors) =
        (record app { store = s }, record errors { dynamodb = some (error_text e) })

    -- the second `try`: `made` is how the factory ends
    abbrev pub connect : Result String (Unit {0}) → State → State
    connect (ok _) (app, errors) = connected (repository.connect app.store) (app, errors)
    connect (err text) (app, errors) = (app, record errors { dynamodb = some text })

    abbrev pub registered : Result Failure (Unit {0}) × repository.State → State → State
    registered (ok _, s) (app, errors) = (record app { store = s }, errors)
    registered (err e, s) (app, errors) = (
      record app { connected = false; store = s },
      record errors { dynamodb = some (error_text e) },
    )

    -- the third `try`, where both dependencies are there
    abbrev pub register : Option (Runtime Request dump cache_key) → State → State
    register none state = state
    register (some runtime) (app, errors) =
        registered (repository.put_model_metadata (model_item runtime) app.store) (app, errors)

    -- the lifespan up to its `yield`; `fresh` is the new cache
    unfoldable pub start :
        Result String (Runtime Request dump cache_key)
        → Result String (Unit {0})
        → cache.State
        → App Request dump cache_key repository cache
        → State
    start loaded made fresh app =
        let opened =
          connect made (load loaded (app, record { registry = none; dynamodb = none })) in
        let (final, errors) =
          register (ready Request dump cache_key repository cache opened.0) opened in
        (record final { cached = fresh }, errors)

    abbrev pub is_some : Option (Runtime Request dump cache_key) → Bool
    is_some (some r) = true
    is_some none = false

    -- `health`
    unfoldable pub health : State → Health
    health (app, errors) =
        let is_ready = is_some (ready Request dump cache_key repository cache app) in
        record {
          status = if is_ready then 200 else 503;
          is_ready = is_ready;
          model_loaded = is_some app.runtime;
          database_connected = app.connected;
          registry_detail =
              if is_some app.runtime
              then "verified Registry runtime loaded"
              else text_or errors.registry "not initialized";
          dynamodb_detail =
              if app.connected
              then "DynamoDB table connected"
              else text_or errors.dynamodb "not initialized";
        }
