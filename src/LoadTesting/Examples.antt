-- ===== src/LoadTesting/Examples.antt =====
-- A plan of three requests, sent to an API that refuses every second one.
use us_flight_delay_mlops.Prelude.{
  ℕ, zero, suc, ◌+◌, ◌*◌, ◌%◌, ◌≤◌, ◌=ₛ◌, ◌<◌, ◌≡◌, refl, ◌≢◌, Bool, true, false, some, List, [],
  All, length, arith, String,
}
use us_flight_delay_mlops.Prelude.Text.{codes}
use us_flight_delay_mlops.Prelude.Int.{ℤ, pos, negsuc}
use us_flight_delay_mlops.Python.Float.{Float, finite, flt, float_of_int, unit}
use us_flight_delay_mlops.Python.Result.{ok, ◌>>=◌}
use us_flight_delay_mlops.Python.Value.{int}
use us_flight_delay_mlops.LoadTesting.Requests.{
  RouteTemplate, max_rate_per_second, Request, TrafficPlan, shift_clock, traffic_plan,
  route_templates, generate_requests, is_carrier_code, is_airport_code,
}
use us_flight_delay_mlops.LoadTesting.Traffic.{Sent, replied, client_error}
use us_flight_delay_mlops.LoadTesting.Requests.Bounds.{
  IsTemplate, IsWithin, generate_requests-IsWithin,
}

abbrev randrange : ℕ → ℕ → ℕ × ℕ
randrange zero g = (0, g)
randrange (suc n) g = (g % suc n, g + 7)

abbrev seeded : ℤ → ℕ
seeded (pos n) = n
seeded (negsuc n) = n

abbrev plan : TrafficPlan
plan = record {
  count = 3;
  seed = pos 42;
  rate_per_second = finite (pos (2 * unit));
  start_date = 739842;
}

plan_made : traffic_plan (int (pos 3)) (int (pos 42)) (int (pos 2)) (some 739842) ≡ ok plan
unfolding traffic_plan ◌>>=◌ float_of_int flt max_rate_per_second unit
plan_made = refl

past_midnight :
    shift_clock (record { hour = 0; minute = 10 }) (negsuc 29) ≡ record { hour = 23; minute = 40 }
unfolding shift_clock
past_midnight = refl

draws_below : (n g : ℕ) → (randrange (suc n) g).0 < suc n
draws_below n g = omega arith

abbrev sender : Request → Bool → Sent × Bool
sender r true = (client_error, false)
sender r false = (replied "3f0c", true)

abbrev sleep : Float → Bool → Bool × Bool
sleep rate w = (true, w)

-- the codes of the templates are normalized
abbrev normalized : String → String
normalized s = s

-- a template between two airports, from what is computed of it
fits :
    (t : RouteTemplate)
    → is_carrier_code (codes t.carrier) ≡ true
    → is_airport_code (codes t.origin) ≡ true
    → is_airport_code (codes t.destination) ≡ true
    → (t.origin =ₛ t.destination) ≡ false
    → 5 < t.elapsed_minutes
    → t.elapsed_minutes ≤ 1495
    → flt (finite (pos 0)) t.distance_miles ≡ true
    → flt (finite (pos (10000 * unit))) t.distance_miles ≡ false
    → IsTemplate normalized t
fits t carrier origin destination other low high positive limited = record {
  carrier = carrier;
  origin = origin;
  destination = destination;
  apart = other;
  elapsed_from = low;
  elapsed_to = high;
  distance = record { positive = positive; limited = limited };
}

templates_fit : All (IsTemplate normalized) route_templates
unfolding route_templates unit flt is_carrier_code is_airport_code
templates_fit = (
  fits _ refl refl refl refl (omega arith) (omega arith) refl refl,
  (
    fits _ refl refl refl refl (omega arith) (omega arith) refl refl,
    (
      fits _ refl refl refl refl (omega arith) (omega arith) refl refl,
      (
        fits _ refl refl refl refl (omega arith) (omega arith) refl refl,
        (fits _ refl refl refl refl (omega arith) (omega arith) refl refl, tt),
      ),
    ),
  ),
)

some_template : route_templates ≢ []
unfolding route_templates
some_template = λ e. cc

generate_requests-IsWithin_example :
    (requests : List Request) × (generate_requests randrange normalized seeded plan route_templates
      ≡ ok requests)
    × (length requests ≡ 3)
    × All (IsWithin plan) requests
generate_requests-IsWithin_example =
    generate_requests-IsWithin randrange normalized draws_below seeded plan route_templates
      some_template (omega arith) templates_fit
