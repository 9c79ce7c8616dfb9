-- ===== src/LoadTesting/Requests.antt =====
-- src/flight_delay/load_testing/traffic.py: the plan and the requests. A date is its
-- ordinal, and an hour and a minute are a clock.
pub mod Bounds
use us_flight_delay_mlops.Prelude.{
  ℕ, zero, suc, ◌+◌, ◌-◌, ◌*◌, ◌/◌, ◌%◌, Bool, true, false, not, ◌&&◌, ◌||◌, Option, none, some,
  List, [], ◌∷◌, ◌++◌, String, length, ltb, leb, all, ◌==◌, ◌=ₛ◌, if◌then◌else◌,
}
use us_flight_delay_mlops.Prelude.Text.{codes}
use us_flight_delay_mlops.Prelude.Int.{ℤ, pos, negsuc, leb_ℤ}
use us_flight_delay_mlops.Python.Float.{Float, finite, isfinite, flt, float_of_int, unit}
use us_flight_delay_mlops.Python.Result.{Result, ok, err, ◌>>=◌, ◌>>◌, or_raise, raise_if, require}
use us_flight_delay_mlops.Python.Value.{Value, null, bool, int, float, str, list, tuple, dict}

-- `ValueError` by its message, the OverflowError of `math.isfinite` and of dates, and the
-- ValidationError of a request
pub data TrafficError : Type 0 where
  bad_count bad_seed bad_rate bad_date no_template naive_timestamp no_sender : TrafficError
  overflow_error validation_error : TrafficError
  -- an exception of a wait, or one of the sender that is no ApiClientError
  sender_error : TrafficError

pub record Clock : Type 0 where
  pub hour : ℕ
  pub minute : ℕ

pub record RouteTemplate : Type 0 where
  pub carrier : String
  pub origin : String
  pub destination : String
  pub departure : Clock
  pub arrival : Clock
  pub elapsed_minutes : ℕ
  pub distance_miles : Float

-- `FlightPredictionRequest` (src/flight_delay/contracts/api.py)
pub record Request : Type 0 where
  pub carrier : String
  pub origin : String
  pub destination : String
  pub flight_date : ℕ
  pub scheduled_departure : Clock
  pub scheduled_arrival : Clock
  pub scheduled_elapsed_minutes : ℤ
  pub distance_miles : Float

pub record TrafficPlan : Type 0 where
  pub count : ℕ
  pub seed : ℤ
  pub rate_per_second : Float
  pub start_date : ℕ

abbrev pub max_request_count : ℕ
max_request_count = 500

-- `type(v) is int`
abbrev exact_int : Value → Option ℤ
exact_int (int n) = some n
exact_int _ = none

-- `1 <= count <= MAX_REQUEST_COUNT`
unfoldable pub count_of : ℤ → Result TrafficError ℕ
count_of (negsuc n) = err bad_count
count_of (pos n) = if not (ltb n 1) && not (ltb max_request_count n) then ok n else err bad_count

-- `MAX_RATE_PER_SECOND`
unfoldable pub max_rate_per_second : Float
unfolding unit
max_rate_per_second = finite (pos (10 * unit))

-- the rate as a float: an int or a float that is no bool
unfoldable pub rate_of : Value → Result TrafficError Float
rate_of (int n) = or_raise (float_of_int n) overflow_error
rate_of (float x) = ok x
rate_of _ = err bad_rate

-- `TrafficPlan.__post_init__`; `none` is a start that is no date
unfoldable pub traffic_plan : Value → Value → Value → Option ℕ → Result TrafficError TrafficPlan
unfolding count_of rate_of
traffic_plan count seed rate start_date = do
  n ← or_raise (exact_int count) bad_count
  planned ← count_of n
  seed_value ← or_raise (exact_int seed) bad_seed
  rate_value ← rate_of rate
  require
      (isfinite rate_value
        && flt (finite (pos 0)) rate_value
        && not (flt max_rate_per_second rate_value))
      bad_rate
  start ← or_raise start_date bad_date
  ok (record {
    count = planned;
    seed = seed_value;
    rate_per_second = rate_value;
    start_date = start;
  })

-- `n + shift`
unfoldable pub offset : ℕ → ℤ → ℤ
offset n (pos m) = pos (n + m)
offset n (negsuc m) = if ltb m n then pos (n - suc m) else negsuc (m - n)

-- Python's `%`, which is never negative here
unfoldable pub modulo : ℤ → ℕ → ℕ
modulo (pos n) m = n % m
modulo (negsuc n) m = (m - 1) - n % m

-- `_shift_clock`
unfoldable pub shift_clock : Clock → ℤ → Clock
unfolding offset modulo
shift_clock value minutes =
    let total = modulo (offset (value.hour * 60 + value.minute) minutes) 1440 in
    record { hour = total / 60; minute = total % 60 }

-- `values[n]` of a tuple that has it, and its last value otherwise
abbrev pub pick {ℓ} : {A : Type ℓ} → A → List A → ℕ → A
pick a [] n = a
pick a (b ∷ bs) zero = a
pick a (b ∷ bs) (suc n) = pick b bs n

abbrev pub clock_shifts : List ℤ
clock_shifts = negsuc 14 ∷ pos 0 ∷ pos 15 ∷ pos 30 ∷ []

abbrev pub elapsed_adjustments : List ℤ
elapsed_adjustments = pos 0 ∷ pos 5 ∷ []

-- `[A-Z0-9]{2}` and `[A-Z]{3}`, the whole text
abbrev is_upper : ℕ → Bool
is_upper c = leb b'A' c && leb c b'Z'

unfoldable pub is_carrier_code : List ℕ → Bool
is_carrier_code s = all (λ c. is_upper c || (leb b'0' c && leb c b'9')) s && length s == 2

unfoldable pub is_airport_code : List ℕ → Bool
is_airport_code s = all is_upper s && length s == 3

-- `gt=0, le=1_500`
abbrev pub is_elapsed_time : ℤ → Bool
is_elapsed_time (pos n) = ltb 0 n && leb n 1500
is_elapsed_time (negsuc n) = false

-- the constraints of `FlightPredictionRequest`, once its codes are normalized
unfoldable pub is_contract : Request → Bool
unfolding is_carrier_code is_airport_code unit
is_contract r =
    is_carrier_code (codes r.carrier)
    && is_airport_code (codes r.origin)
    && is_airport_code (codes r.destination)
    && not (r.origin =ₛ r.destination)
    && is_elapsed_time r.scheduled_elapsed_minutes
    && (flt (finite (pos 0)) r.distance_miles
        && not (flt (finite (pos (10000 * unit))) r.distance_miles))

-- `date.max`
abbrev pub last_date : ℕ
last_date = 3652059

-- `normalized s` is `s.strip().upper()`.
module _ (normalized : String → String) where
  abbrev pub normalize_codes : Request → Request
  normalize_codes r = record r {
    carrier = normalized r.carrier;
    origin = normalized r.origin;
    destination = normalized r.destination;
  }

  -- the sum of the date, and the validation of the request
  unfoldable pub validated : Request → Result TrafficError Request
  validated r = do
    raise_if (ltb last_date r.flight_date) overflow_error
    require (is_contract (normalize_codes r)) validation_error
    ok (normalize_codes r)

-- `randrange n` draws a number below `n`; `choice` draws a position.
module _ {G : Type 0} (randrange : ℕ → G → ℕ × G) (normalized : String → String) where
  -- the arguments of the request in the body of the loop, the draws in their order
  unfoldable pub drawn_request : RouteTemplate → List RouteTemplate → TrafficPlan → G → Request × G
  unfolding shift_clock offset
  drawn_request first rest plan g0 =
      let (index, g1) = randrange (suc (length rest)) g0 in
      let template = pick first rest index in
      let (shift, g2) = randrange 5 g1 in
      let clock_shift = pick (negsuc 29) clock_shifts shift in
      let (adjustment, g3) = randrange 3 g2 in
      let elapsed_adjustment = pick (negsuc 4) elapsed_adjustments adjustment in
      let (days, g4) = randrange 14 g3 in
      (
        record {
          carrier = template.carrier;
          origin = template.origin;
          destination = template.destination;
          flight_date = plan.start_date + days;
          scheduled_departure = shift_clock template.departure clock_shift;
          scheduled_arrival = shift_clock template.arrival clock_shift;
          scheduled_elapsed_minutes = offset template.elapsed_minutes elapsed_adjustment;
          distance_miles = template.distance_miles;
        },
        g4,
      )

  -- the body of the loop
  unfoldable pub next_request :
      RouteTemplate → List RouteTemplate → TrafficPlan → G → Result TrafficError Request × G
  unfolding drawn_request
  next_request first rest plan g =
      let (request, g') = drawn_request first rest plan g in (validated normalized request, g')

  unfoldable pub requests_from :
      RouteTemplate → List RouteTemplate → TrafficPlan → ℕ → G → Result TrafficError (List Request)
  unfolding next_request
  requests_from first rest plan zero g = ok []
  requests_from first rest plan (suc n) g = do
    let after_draws = next_request first rest plan g
    request ← after_draws.0
    more ← requests_from first rest plan n after_draws.1
    ok (request ∷ more)

  -- `generate_requests`; `seeded` is the generator of a seed
  unfoldable pub generate_requests :
      (ℤ → G) → TrafficPlan → List RouteTemplate → Result TrafficError (List Request)
  unfolding requests_from
  generate_requests seeded plan [] = err no_template
  generate_requests seeded plan (first ∷ rest) =
      requests_from first rest plan plan.count (seeded plan.seed)

unfoldable pub route_templates : List RouteTemplate
unfolding unit
route_templates =
    record {
      carrier = "UA";
      origin = "DEN";
      destination = "LAX";
      departure = record { hour = 8; minute = 0 };
      arrival = record { hour = 9; minute = 30 };
      elapsed_minutes = 150;
      distance_miles = finite (pos (862 * unit));
    }
    ∷ record {
      carrier = "WN";
      origin = "DEN";
      destination = "PHX";
      departure = record { hour = 10; minute = 15 };
      arrival = record { hour = 11; minute = 20 };
      elapsed_minutes = 125;
      distance_miles = finite (pos (602 * unit));
    }
    ∷ record {
      carrier = "AA";
      origin = "DFW";
      destination = "ORD";
      departure = record { hour = 13; minute = 10 };
      arrival = record { hour = 15; minute = 35 };
      elapsed_minutes = 145;
      distance_miles = finite (pos (802 * unit));
    }
    ∷ record {
      carrier = "DL";
      origin = "ATL";
      destination = "LGA";
      departure = record { hour = 7; minute = 20 };
      arrival = record { hour = 9; minute = 35 };
      elapsed_minutes = 135;
      distance_miles = finite (pos (762 * unit));
    }
    ∷ record {
      carrier = "AS";
      origin = "SEA";
      destination = "SFO";
      departure = record { hour = 16; minute = 5 };
      arrival = record { hour = 18; minute = 15 };
      elapsed_minutes = 130;
      distance_miles = finite (pos (679 * unit));
    }
    ∷ []
