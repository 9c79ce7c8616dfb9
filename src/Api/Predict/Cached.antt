-- ===== src/Api/Predict/Cached.antt =====
-- The cache of predictions (services/api/app/main.py, `predict`): its entries stay what the model
-- predicts.
use us_flight_delay_mlops.Prelude.{◌≡◌, refl, Bool-cases, Option, none, some, String, inl, inr}
use mathlib.Core.Path.{subst}
use us_flight_delay_mlops.Python.Result.{Result, ok, err}
use us_flight_delay_mlops.Persistence.Codec.{Datum, Attributes}
use us_flight_delay_mlops.Persistence.Repository.{Failure}
use us_flight_delay_mlops.Api.Service.{
  TrafficSource, HttpError, Inference, Repository, Cache, Context, not_ready, Runtime, App, ready,
  stored, persist, inferred, answer, is_legacy, predict_ready, predict,
}
use us_flight_delay_mlops.Api.Predict.{
  IsTtlCache, IsSoundApp, IsSound-get, IsSound-put, ready-runtime,
}

module _ (Request : Type 0) (dump : Request → Datum) (cache_key : Request → String)
    (repository : Repository) (cache : Cache) (laws : IsTtlCache cache)
    (distinct_keys : (p q : Request) → cache_key p ≡ cache_key q → p ≡ q) where
  abbrev State : Type 0
  State = App Request dump cache_key repository cache

  abbrev Model : Type 0
  Model = Runtime Request dump cache_key

  abbrev Sound : State → Type 0
  Sound app = IsSoundApp Request dump cache_key repository cache laws distinct_keys app

  module _ (ctx : Context) (payload : Request) (source : TrafficSource) where
    abbrev Ending : Type 0
    Ending = Result HttpError Attributes × State

    stored_keeps :
        (app : State) (event : Attributes) (written : Result Failure (Unit {0}) × repository.State)
        → Sound app
        → Sound (stored Request dump cache_key repository cache ctx event app written).1
    unfolding IsSoundApp
    stored_keeps app event (ok _, s) sound = sound
    stored_keeps app event (err f, s) sound = sound

    put_keeps :
        (app : State) (runtime : Model) (result : Inference)
        → app.runtime ≡ some runtime
        → runtime.predict payload ≡ some result
        → Sound app
        → Sound (record app { cached = cache.put (cache_key payload) result app.cached })
    unfolding IsSoundApp
    put_keeps app runtime result is predicted sound runtime' is' =
        let same : runtime ≡ runtime' = cc in
        IsSound-put Request dump cache_key repository cache laws distinct_keys runtime' payload
          result app.cached (subst (λ (r : Model). r.predict payload ≡ some result) same predicted)
          (sound runtime' is')

    inferred_keeps :
        (app : State) (runtime : Model) (o : Option Inference)
        → app.runtime ≡ some runtime
        → runtime.predict payload ≡ o
        → Sound app
        → Sound
            (inferred Request dump cache_key repository cache runtime ctx payload source o app).1
    unfolding persist IsSoundApp
    inferred_keeps app runtime none is predicted sound = sound
    inferred_keeps app runtime (some result) is predicted sound =
        stored_keeps (record app { cached = cache.put (cache_key payload) result app.cached }) _ _
          (put_keeps app runtime result is predicted sound)

    answer_keeps :
        (app : State) (runtime : Model) (found : Option Inference)
        → app.runtime ≡ some runtime
        → Sound app
        → Sound
            (answer Request dump cache_key repository cache runtime ctx payload source found app).1
    unfolding answer persist
    answer_keeps app runtime (some v) is sound = stored_keeps app _ _ sound
    answer_keeps app runtime none is sound =
        inferred_keeps app runtime (runtime.predict payload) is refl sound

    abbrev EndsSound : Ending → Type 0
    EndsSound (r, app) = Sound app

    ready_keeps :
        (app : State) (o : Option Model)
        → ready Request dump cache_key repository cache app ≡ o
        → Sound app
        → EndsSound (elim o [
          | none ↦ (err not_ready, app)
          | some runtime ↦
              predict_ready Request dump cache_key repository cache runtime ctx payload source app
        ])
    unfolding predict_ready IsSoundApp
    ready_keeps app none h sound = sound
    ready_keeps app (some runtime) h sound =
        answer_keeps _ runtime _
          (ready-runtime Request dump cache_key repository cache laws distinct_keys ctx payload
            source app runtime h)
          (λ r is.
            IsSound-get Request dump cache_key repository cache laws distinct_keys r
              (cache_key payload) app.cached (sound r is))

    predict-EndsSound :
        (app : State)
        → Sound app
        → EndsSound (predict Request dump cache_key repository cache ctx payload source app)
    unfolding predict
    predict-EndsSound app sound =
        elim (Bool-cases (is_legacy Request dump cache_key repository cache source)) [
          | inl legacy ↦ rw legacy sound
          | inr other ↦
              rw other
                (ready_keeps app (ready Request dump cache_key repository cache app) refl sound)
        ]

    -- `predict` keeps the cache such that every entry is what the model predicts for its request,
    -- whatever the request and however it ends.
    pub predict-IsSoundApp :
        (app : State)
        → IsSoundApp Request dump cache_key repository cache laws distinct_keys app
        → IsSoundApp Request dump cache_key repository cache laws distinct_keys
            (predict Request dump cache_key repository cache ctx payload source app).1
    predict-IsSoundApp app sound = predict-EndsSound app sound
