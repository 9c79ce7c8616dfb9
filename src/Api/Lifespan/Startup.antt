-- ===== src/Api/Lifespan/Startup.antt =====
-- When the API (services/api/app/main.py) reports itself ready after its startup.
use us_flight_delay_mlops.Prelude.{ℕ, ◌≡◌, refl, ◌↔◌, false, none, String, arith}
use us_flight_delay_mlops.Python.Result.{Result, ok, err}
use us_flight_delay_mlops.Persistence.Codec.{Datum}
use us_flight_delay_mlops.Persistence.Repository.{Failure}
use us_flight_delay_mlops.Api.Service.{Repository, Cache, Runtime, App}
use us_flight_delay_mlops.Api.Lifespan.{model_item, start, health}

module _ (Request : Type 0) (dump : Request → Datum) (cache_key : Request → String)
    (error_text : Failure → String) (repository : Repository) (cache : Cache) (fresh : cache.State)
    (store : repository.State) (cached : cache.State) where
  abbrev Model : Type 0
  Model = Runtime Request dump cache_key

  -- the application before its startup, and after its shutdown
  abbrev pub stopped : App Request dump cache_key repository cache
  stopped = record { runtime = none; connected = false; store = store; cached = cached }

  -- the runtime was loaded, the table answered, and it accepted the identity of the model
  pub record IsStarted (loaded : Result String Model) (made : Result String (Unit {0}))
      : Type 0 where
    pub runtime : Model
    pub after_connect : repository.State
    pub after_register : repository.State
    pub is_loaded : loaded ≡ ok runtime
    pub is_made : made ≡ ok tt
    pub is_connected : repository.connect store ≡ (ok tt, after_connect)
    pub is_registered :
        repository.put_model_metadata
          (model_item Request dump cache_key error_text runtime)
          after_connect
        ≡ (ok tt, after_register)

  abbrev status : Result String Model → Result String (Unit {0}) → ℕ
  status loaded made =
      (health Request dump cache_key error_text repository cache
        (start Request dump cache_key error_text repository cache loaded made fresh stopped)).status

  abbrev Exactly : Result String Model → Result String (Unit {0}) → Type 0
  Exactly loaded made = (status loaded made ≡ 200) ↔ IsStarted loaded made

  registers :
      (runtime : Model) (s : repository.State)
      → repository.connect store ≡ (ok tt, s)
      → (ending : Result Failure (Unit {0}) × repository.State)
      → repository.put_model_metadata (model_item Request dump cache_key error_text runtime) s
        ≡ ending
      → Exactly (ok runtime) (ok tt)
  unfolding start health
  registers runtime s h (ok u, s') k = rw h (
      rw k (
        λ i. record {
          runtime = runtime;
          after_connect = s;
          after_register = s';
          is_loaded = refl;
          is_made = refl;
          is_connected = h;
          is_registered = k;
        },
        λ i. refl,
      ))
  registers runtime s h (err e, s') k = rw h (
      rw k (
        λ i. absurd (omega arith),
        λ i. absurd (refused i.is_loaded i.is_connected i.is_registered),
      ))
    where
      refused :
          {r : Model} {s₁ s₂ : repository.State}
          → ◌≡◌ {A = Result String Model} (ok runtime) (ok r)
          → repository.connect store ≡ (ok tt, s₁)
          → repository.put_model_metadata (model_item Request dump cache_key error_text r) s₁
            ≡ (ok tt, s₂)
          → ⊥
      refused same again accepted = cc

  connects :
      (runtime : Model) (ending : Result Failure (Unit {0}) × repository.State)
      → repository.connect store ≡ ending
      → Exactly (ok runtime) (ok tt)
  unfolding start health
  connects runtime (ok u, s) h = registers runtime s h _ refl
  connects runtime (err e, s) h =
      rw h (λ i. absurd (omega arith), λ i. absurd (refused i.is_connected))
    where
      refused : {s₁ : repository.State} → repository.connect store ≡ (ok tt, s₁) → ⊥
      refused again = cc

  unloaded :
      (text : String) (made : Result String (Unit {0}))
      (ending : Result Failure (Unit {0}) × repository.State)
      → repository.connect store ≡ ending
      → Exactly (err text) made
  unfolding start health
  unloaded text (ok u) (ok v, s) h = rw h (λ i. absurd (omega arith), λ i. cc i.is_loaded)
  unloaded text (ok u) (err e, s) h = rw h (λ i. absurd (omega arith), λ i. cc i.is_loaded)
  unloaded text (err t) ending h = (λ i. absurd (omega arith), λ i. cc i.is_loaded)

  unmade : (runtime : Model) (text : String) → Exactly (ok runtime) (err text)
  unfolding start health
  unmade runtime text = (λ i. absurd (omega arith), λ i. cc i.is_made)

  -- After its startup the API answers `/health` with 200 exactly when the verified runtime was
  -- loaded, the repository was made, the table was reached, and the table accepted the identity of
  -- the model; in every other case the answer is another status.
  pub health_iff :
      (loaded : Result String Model) (made : Result String (Unit {0}))
      → ((health Request dump cache_key error_text repository cache (
            start Request dump cache_key error_text repository cache loaded made fresh
              stopped)).status
          ≡ 200)
        ↔ IsStarted loaded made
  health_iff (ok runtime) (ok u) = connects runtime (repository.connect store) refl
  health_iff (ok runtime) (err text) = unmade runtime text
  health_iff (err text) made = unloaded text made (repository.connect store) refl
