-- ===== src/Api/Examples.antt =====
-- The API on a table in memory and a cache of one entry, and its theorems at these runs.
use us_flight_delay_mlops.Prelude.{
  ℕ, ◌≡◌, ◌↔◌, ◌≢◌, refl, sym, ap, Bool, true, false, Bool-cases, Option, none, some, String, inl,
  inr, ◌=ₛ◌, eq_iff, arith, if◌then◌else◌,
}
use us_flight_delay_mlops.Prelude.Int.{ℤ, pos, negsuc}
use us_flight_delay_mlops.Python.Float.{Float, finite}
use us_flight_delay_mlops.Python.Result.{Result, ok, err}
use us_flight_delay_mlops.Persistence.Codec.{
  Decimal, Datum, null, str, bool, moment, Attributes, end, get, to_dynamodb,
}
use us_flight_delay_mlops.Persistence.Repository.{Failure, with_attribute, put_prediction, ◌>>=◌}
use us_flight_delay_mlops.Persistence.MemoryTable.{table, contents}
use us_flight_delay_mlops.Persistence.MemoryTable.Laws.{puts}
use us_flight_delay_mlops.Api.Service.{
  traveler_ui, HttpError, Inference, Cache, Context, Runtime, App, predict, predict_ready, answer,
  persist, public_fields, timed, prediction_record,
}
use us_flight_delay_mlops.Api.Predict.{IsTtlCache, IsSoundApp}
use us_flight_delay_mlops.Api.Lifespan.{health, start}
use us_flight_delay_mlops.Api.Lifespan.Startup.{IsStarted, stopped, health_iff}
use us_flight_delay_mlops.Api.Predict.Cached.{predict-IsSoundApp}
use us_flight_delay_mlops.Api.Stored.{dynamodb, IsRecorded, predict-IsRecorded}

-- a request is for one of two routes
abbrev pub dump : Bool → Datum
dump b = bool b

abbrev pub cache_key : Bool → String
cache_key true = "east"
cache_key false = "west"

east_ne_west : ◌≢◌ {A = String} "east" "west"
east_ne_west = ground (arith, eq_iff "east" "west")

pub distinct_keys : (p q : Bool) → cache_key p ≡ cache_key q → p ≡ q
distinct_keys true true h = refl
distinct_keys false false h = refl
distinct_keys true false h = absurd (east_ne_west h)
distinct_keys false true h = absurd (east_ne_west (sym h))

abbrev pub Entry : Type 0
Entry = Option (String × Inference)

abbrev pub look_up : String → Entry → Option Inference
look_up k none = none
look_up k (some (j, v)) = if j =ₛ k then some v else none

abbrev pub one_entry : Cache
one_entry = record { State = Entry; get = λ k c. (look_up k c, c); put = λ k v c. some (k, v) }

looked_up : (k : String) (c : Entry) (v : Inference) → look_up k c ≡ some v → c ≡ some (k, v)
looked_up k none v h = cc
looked_up k (some (j, u)) v h = elim (Bool-cases (j =ₛ k)) [
  | inl same ↦ ap (λ e. some e) (pair_eq ((eq_iff j k).0 same) (is_entry same))
  | inr other ↦ absurd (cc (rw other at h))
]
  where
    pair_eq :
        {i l : String} {a b : Inference}
        → i ≡ l
        → a ≡ b
        → ◌≡◌ {A = String × Inference} (i, a) (l, b)
    pair_eq h k = cc

    is_entry : j =ₛ k ≡ true → u ≡ v
    is_entry same = cc (rw same at h)

laws : IsTtlCache one_entry
laws = record {
  held = λ c k v. c ≡ some (k, v);
  gets = looked_up;
  expires = λ k j c v h. h;
  puts = λ k j v u c h. inl (entry_eq h);
}
  where
    entry_eq :
        {k j : String} {v u : Inference}
        → ◌≡◌ {A = Entry} (some (k, v)) (some (j, u))
        → (j ≡ k) × (u ≡ v)
    entry_eq h = (cc, cc)

abbrev pub repr : Float → Decimal
repr (finite m) = record { coefficient = m; exponent = negsuc 0 }
repr x = record { coefficient = pos 0; exponent = pos 0 }

abbrev pub nearest : Decimal → Float
nearest d = finite d.coefficient

abbrev pub utc_text : ℤ → String
utc_text t = "2024-01-01T00:00:00Z"

abbrev pub int_of_text : String → Option ℤ
int_of_text s = none

abbrev pub nobody : ℕ → Option Attributes → Option Attributes
nobody n s = s

abbrev pub east : Inference
east = record {
  delay_probability = finite (pos 4);
  predicted_delayed = true;
  risk_band = str "high";
  route_reliability = null;
  support_warning = null;
}

abbrev pub runtime : Runtime Bool dump cache_key
runtime = record {
  predict = λ payload. if payload then some east else none;
  threshold = finite (pos 3);
  serving_alias = "production";
  registry_version = "v7";
  registry_digest = "d7";
  bundle_digest = "b7";
  registry_path = "models/delay";
  source_artifact_digest = "s7";
  internal_production_gate_passed = false;
  deployment_purpose = "academic_demo";
  governance_notice = "";
  selection_lock_sha256 = "l7";
  route_asset_sha256 = "r7";
  training_partitions = null;
  training_baseline = null;
  release_decision = null;
  loaded_at = moment (pos 8);
}

abbrev ctx : Context
ctx = record {
  prediction_id = "p1";
  created_at = moment (pos 9);
  event_date = "2024-01-01";
  inference_ms = finite (pos 1);
  preliminary_persistence_ms = finite (pos 0);
  preliminary_total_ms = finite (pos 2);
  persistence_ms = finite (pos 3);
  total_ms = finite (pos 5);
  error_type = "";
}

abbrev app :
    App Bool dump cache_key
      (dynamodb table nobody contents repr utc_text nearest int_of_text)
      one_entry
app = record {
  runtime = some runtime;
  connected = true;
  store = record { state = none; calls = 0 };
  cached = none;
}

sound :
    IsSoundApp Bool dump cache_key
      (dynamodb table nobody contents repr utc_text nearest int_of_text)
      one_entry
      laws
      distinct_keys
      app
unfolding laws IsSoundApp
sound r is p v h = cc

predict-IsSoundApp_example :
    IsSoundApp Bool dump cache_key
      (dynamodb table nobody contents repr utc_text nearest int_of_text)
      one_entry
      laws
      distinct_keys
      (predict Bool dump cache_key
        (dynamodb table nobody contents repr utc_text nearest int_of_text)
        one_entry
        ctx
        true
        traveler_ui
        app).1
predict-IsSoundApp_example =
    predict-IsSoundApp Bool dump cache_key
      (dynamodb table nobody contents repr utc_text nearest int_of_text) one_entry laws
      distinct_keys ctx true traveler_ui app sound

abbrev Ending : Type 0
Ending =
    Result HttpError Attributes
    × App Bool dump cache_key (dynamodb table nobody contents repr utc_text nearest int_of_text)
        one_entry

abbrev outcome : Ending
outcome =
    predict Bool dump cache_key (dynamodb table nobody contents repr utc_text nearest int_of_text)
      one_entry ctx true traveler_ui app

abbrev body_in : Result HttpError Attributes → Attributes
body_in (ok body) = body
body_in (err e) = end

is_answered : outcome ≡ (ok (body_in outcome.0), outcome.1)
unfolding predict predict_ready answer persist public_fields timed prediction_record get
    with_attribute put_prediction ◌>>=◌ us_flight_delay_mlops.Python.Result.◌>>=◌ to_dynamodb
is_answered = refl

predict-IsRecorded_example :
    IsRecorded table nobody contents repr utc_text nearest int_of_text puts Bool dump cache_key
      one_entry laws distinct_keys ctx true traveler_ui app
      (body_in outcome.0)
      outcome.1
predict-IsRecorded_example =
    predict-IsRecorded table nobody contents repr utc_text nearest int_of_text puts Bool dump
      cache_key one_entry laws distinct_keys ctx true traveler_ui app sound is_answered

-- the same identifier again
abbrev again : Ending
again =
    predict Bool dump cache_key (dynamodb table nobody contents repr utc_text nearest int_of_text)
      one_entry ctx true traveler_ui outcome.1

abbrev error_text : Failure → String
error_text e = "unavailable"

health_iff_example :
    ((health Bool dump cache_key error_text
        (dynamodb table nobody contents repr utc_text nearest int_of_text)
        one_entry
        (start Bool dump cache_key error_text
          (dynamodb table nobody contents repr utc_text nearest int_of_text)
          one_entry
          (ok runtime)
          (ok tt)
          none
          (stopped Bool dump cache_key error_text
            (dynamodb table nobody contents repr utc_text nearest int_of_text)
            one_entry
            none
            (record { state = none; calls = 0 })
            none))).status
      ≡ 200)
    ↔ IsStarted Bool dump cache_key error_text
        (dynamodb table nobody contents repr utc_text nearest int_of_text)
        one_entry
        none
        (record { state = none; calls = 0 })
        none
        (ok runtime)
        (ok tt)
health_iff_example =
    health_iff Bool dump cache_key error_text
      (dynamodb table nobody contents repr utc_text nearest int_of_text) one_entry none
      (record { state = none; calls = 0 }) none (ok runtime) (ok tt)
