-- ===== src/Api/Predict.antt =====
-- What `predict` (services/api/app/main.py) answers, stores and caches, on every path.
pub mod Cached
pub mod Refused
use us_flight_delay_mlops.Prelude.{
  ◌≡◌, refl, sym, ◌∙◌, ap, Bool, true, false, Bool-cases, Option, none, some, Option-cases, String,
  ◌⊎◌, inl, inr, if◌then◌else◌,
}
use mathlib.Core.Path.{subst}
use us_flight_delay_mlops.Python.Result.{Result, ok, err}
use us_flight_delay_mlops.Persistence.Codec.{Datum, Attributes}
use us_flight_delay_mlops.Persistence.Repository.{Failure}
use us_flight_delay_mlops.Api.Service.{
  TrafficSource, HttpError, http, Inference, Repository, Cache, Context, response_fields,
  public_fields, write_error, not_ready, Runtime, prediction_record, timed, error_record, App,
  ready, stored, persist, inferred, answer, is_legacy, predict_ready, predict,
}

if_some :
    {A : Type 0} (b : Bool) (o : Option A) {a : A}
    → ◌≡◌ {A = Option A} (if b then o else none) (some a)
    → o ≡ some a
if_some true o h = h
if_some false o h = cc

-- What the documentation of the cache promises: a look-up finds the entry put last under the key,
-- or none, and neither a look-up nor the clock adds an entry.
pub record IsTtlCache (cache : Cache) : Type 1 where
  pub held : cache.State → String → Inference → Type 0
  pub gets :
      (k : String) (c : cache.State) (v : Inference) → (cache.get k c).0 ≡ some v → held c k v
  pub expires :
      (k j : String) (c : cache.State) (v : Inference) → held (cache.get k c).1 j v → held c j v
  pub puts :
      (k j : String) (v u : Inference) (c : cache.State)
      → held (cache.put k v c) j u
      → ((j ≡ k) × (u ≡ v)) ⊎ held c j u

module _ (Request : Type 0) (dump : Request → Datum) (cache_key : Request → String)
    (repository : Repository) (cache : Cache) (laws : IsTtlCache cache)
    (distinct_keys : (p q : Request) → cache_key p ≡ cache_key q → p ≡ q) where
  open laws use {held, gets, expires, puts}

  abbrev State : Type 0
  State = App Request dump cache_key repository cache

  abbrev Model : Type 0
  Model = Runtime Request dump cache_key

  -- every entry of the cache is what the model predicts for its request
  abbrev pub IsSound : Model → cache.State → Type 0
  IsSound runtime c =
      (p : Request) (v : Inference) → held c (cache_key p) v → runtime.predict p ≡ some v

  unfoldable pub IsSoundApp : State → Type 0
  IsSoundApp app = (runtime : Model) → app.runtime ≡ some runtime → IsSound runtime app.cached

  pub IsSound-get :
      (runtime : Model) (k : String) (c : cache.State)
      → IsSound runtime c
      → IsSound runtime (cache.get k c).1
  IsSound-get runtime k c sound p v h = sound p v (expires k (cache_key p) c v h)

  pub IsSound-put :
      (runtime : Model) (p : Request) (v : Inference) (c : cache.State)
      → runtime.predict p ≡ some v
      → IsSound runtime c
      → IsSound runtime (cache.put (cache_key p) v c)
  IsSound-put runtime p v c is sound q u h = elim (puts (cache_key p) (cache_key q) v u c h) [
    | inl (same, is_v) ↦ ap runtime.predict (distinct_keys q p same) ∙ is ∙ ap some (sym is_v)
    | inr before ↦ sound q u before
  ]

  module _ (ctx : Context) (payload : Request) (source : TrafficSource) where
    abbrev Ending : Type 0
    Ending = Result HttpError Attributes × State

    abbrev event_of : Model → Bool → Inference → Attributes
    event_of runtime hit result =
        prediction_record Request dump cache_key runtime ctx payload source hit result

    abbrev body_of : Attributes → Attributes
    body_of event = public_fields response_fields (timed Request dump cache_key ctx event)

    -- The answer is the model's on this request, and the event of this answer is stored.
    pub record IsServed (app : State) (body : Attributes) (app' : State) : Type 0 where
      pub runtime : Model
      pub hit : Bool
      pub result : Inference
      pub is_ready : ready Request dump cache_key repository cache app ≡ some runtime
      pub predicted : runtime.predict payload ≡ some result
      pub written :
          repository.put_prediction (event_of runtime hit result) app.store ≡ (ok tt, app'.store)
      pub answered : body ≡ body_of (event_of runtime hit result)

    -- why there is no answer, and what was stored then
    pub data IsFailed (app : State) (e : HttpError) (app' : State) : Type 0 where
      reserved_source :
          is_legacy Request dump cache_key repository cache source ≡ true
          → e ≡ http 422
          → app' ≡ app
          → IsFailed app e app'
      unready :
          ready Request dump cache_key repository cache app ≡ none
          → e ≡ not_ready
          → app' ≡ app
          → IsFailed app e app'
      no_inference :
          (runtime : Model)
          → ready Request dump cache_key repository cache app ≡ some runtime
          → runtime.predict payload ≡ none
          → e ≡ http 503
          → app'.store
            ≡ repository.put_error (error_record Request dump cache_key ctx source) app.store
          → IsFailed app e app'
      not_written :
          (runtime : Model) (hit : Bool) (result : Inference) (failure : Failure)
          → ready Request dump cache_key repository cache app ≡ some runtime
          → runtime.predict payload ≡ some result
          → repository.put_prediction (event_of runtime hit result) app.store
            ≡ (err failure, app'.store)
          → e ≡ write_error failure
          → IsFailed app e app'

    abbrev pub Means : State → Ending → Type 0
    Means app (ok body, app') = IsServed app body app'
    Means app (err e, app') = IsFailed app e app'

    stored-Means :
        (app now : State) (runtime : Model) (hit : Bool) (result : Inference)
        → now.store ≡ app.store
        → ready Request dump cache_key repository cache app ≡ some runtime
        → runtime.predict payload ≡ some result
        → (written : Result Failure (Unit {0}) × repository.State)
        → repository.put_prediction (event_of runtime hit result) app.store ≡ written
        → Means app (
            stored Request dump cache_key repository cache ctx
              (event_of runtime hit result)
              now
              written)
    stored-Means app now runtime hit result same is_ready predicted (ok _, s) e = record {
      runtime = runtime;
      hit = hit;
      result = result;
      is_ready = is_ready;
      predicted = predicted;
      written = e;
      answered = refl;
    }
    stored-Means app now runtime hit result same is_ready predicted (err f, s) e =
        not_written runtime hit result f is_ready predicted e refl

    answer-Means :
        (app : State) (c : cache.State) (runtime : Model) (found : Option Inference)
        → ready Request dump cache_key repository cache app ≡ some runtime
        → ((v : Inference) → found ≡ some v → runtime.predict payload ≡ some v)
        → Means app (
            answer Request dump cache_key repository cache runtime ctx payload source found
              (record app { cached = c }))
    unfolding answer persist
    answer-Means app c runtime (some v) is_ready exact =
        stored-Means app (record app { cached = c }) runtime true v refl is_ready (exact v refl) _
          refl
    answer-Means app c runtime none is_ready exact = elim (Option-cases (runtime.predict payload)) [
      | inl missing ↦ rw missing (no_inference runtime is_ready missing refl refl)
      | inr (v, predicted) ↦
          rw predicted (stored-Means app _ runtime false v refl is_ready predicted _ refl)
    ]

    pub ready-runtime :
        (app : State) (runtime : Model)
        → ready Request dump cache_key repository cache app ≡ some runtime
        → app.runtime ≡ some runtime
    ready-runtime app runtime h = if_some app.connected app.runtime h

    predict_ready-Means :
        (app : State) (runtime : Model)
        → IsSoundApp app
        → ready Request dump cache_key repository cache app ≡ some runtime
        → Means app
            (predict_ready Request dump cache_key repository cache runtime ctx payload source app)
    unfolding predict_ready IsSoundApp
    predict_ready-Means app runtime sound is_ready =
        answer-Means app _ runtime (cache.get (cache_key payload) app.cached).0 is_ready λ v found.
          sound runtime (ready-runtime app runtime is_ready) payload v
            (gets (cache_key payload) app.cached v found)

    on_ready :
        (app : State)
        → IsSoundApp app
        → (o : Option Model) → ready Request dump cache_key repository cache app ≡ o
        → Means app (elim o [
          | none ↦ (err not_ready, app)
          | some runtime ↦
              predict_ready Request dump cache_key repository cache runtime ctx payload source app
        ])
    on_ready app sound none h = unready h refl refl
    on_ready app sound (some runtime) h = predict_ready-Means app runtime sound h

    -- If every entry of the cache is what the model predicts for its request, then so is the answer
    -- of `predict`, cached or not, and the event with its identifier, the model's identity and that
    -- prediction was stored first. Where there is no answer, the request was refused with nothing
    -- done, or the inference failed and an error event was put, or the write failed, with status
    -- 409 for a conflict and 503 for any other failure.
    pub predict-Means :
        (app : State)
        → IsSoundApp app
        → Means app (predict Request dump cache_key repository cache ctx payload source app)
    unfolding predict
    predict-Means app sound =
        elim (Bool-cases (is_legacy Request dump cache_key repository cache source)) [
          | inl legacy ↦ rw legacy (reserved_source legacy refl refl)
          | inr other ↦
              rw other (on_ready app sound (ready Request dump cache_key repository cache app) refl)
        ]
