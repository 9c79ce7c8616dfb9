-- ===== src/LoadTesting/Requests/Bounds.antt =====
-- The bounds of the generated requests (src/flight_delay/load_testing/traffic.py).
use us_flight_delay_mlops.Prelude.{
  ℕ, zero, suc, ◌+◌, ◌-◌, ◌*◌, ◌≤◌, ◌<◌, ◌≡◌, refl, ap, ◌≢◌, true, false, List, [], ◌∷◌, All,
  length, arith, String, ◌=ₛ◌, ltb,
}
use us_flight_delay_mlops.Prelude.Text.{codes}
use us_flight_delay_mlops.Prelude.Int.{ℤ, pos, negsuc}
use us_flight_delay_mlops.Python.Float.{Float, finite, flt, unit}
use us_flight_delay_mlops.Python.Result.{ok, ◌>>=◌}
use us_flight_delay_mlops.LoadTesting.Requests.{
  Clock, RouteTemplate, Request, TrafficPlan, offset, modulo, shift_clock, pick, clock_shifts,
  elapsed_adjustments, next_request, requests_from, is_carrier_code, is_airport_code,
  is_elapsed_time, is_contract, last_date, normalize_codes, validated, drawn_request,
  generate_requests,
}

-- a time of the day
pub record IsTime (c : Clock) : Type 0 where
  pub hour : c.hour < 24
  pub minute : c.minute < 60

-- what the contract of a prediction asks of the distance
pub record IsDistance (d : Float) : Type 0 where
  pub positive : flt (finite (pos 0)) d ≡ true
  pub limited : flt (finite (pos (10000 * unit))) d ≡ false

-- what the templates are written with
pub record IsTemplate (normalized : String → String) (t : RouteTemplate) : Type 0 where
  pub carrier : is_carrier_code (codes (normalized t.carrier)) ≡ true
  pub origin : is_airport_code (codes (normalized t.origin)) ≡ true
  pub destination : is_airport_code (codes (normalized t.destination)) ≡ true
  pub apart : (normalized t.origin =ₛ normalized t.destination) ≡ false
  pub elapsed_from : 5 < t.elapsed_minutes
  pub elapsed_to : t.elapsed_minutes ≤ 1495
  pub distance : IsDistance t.distance_miles

-- the constraints of `FlightPredictionRequest`, and the dates of the plan
pub record IsWithin (plan : TrafficPlan) (r : Request) : Type 0 where
  pub carrier : is_carrier_code (codes r.carrier) ≡ true
  pub origin : is_airport_code (codes r.origin) ≡ true
  pub destination : is_airport_code (codes r.destination) ≡ true
  pub apart : (r.origin =ₛ r.destination) ≡ false
  pub date_from : plan.start_date ≤ r.flight_date
  pub date_to : r.flight_date < plan.start_date + 14
  pub departure : IsTime r.scheduled_departure
  pub arrival : IsTime r.scheduled_arrival
  pub elapsed : ℕ
  pub is_elapsed : r.scheduled_elapsed_minutes ≡ pos elapsed
  pub elapsed_from : 0 < elapsed
  pub elapsed_to : elapsed ≤ 1500
  pub distance : IsDistance r.distance_miles

modulo-lt : (n : ℤ) → modulo n 1440 < 1440
unfolding modulo
modulo-lt (pos n) = ground arith
modulo-lt (negsuc n) = ground arith

-- A shifted clock is a time of the day again, past midnight too.
shift_clock-IsTime : (c : Clock) (minutes : ℤ) → IsTime (shift_clock c minutes)
unfolding shift_clock
shift_clock-IsTime c minutes =
    let below = modulo-lt (offset (c.hour * 60 + c.minute) minutes) in
    record { hour = omega arith; minute = omega arith }

pick-All {ℓ κ} :
    {A : Type ℓ} (P : A → Type κ) (a : A) (bs : List A) (n : ℕ) → P a → All P bs → P (pick a bs n)
pick-All P a [] n p h = p
pick-All P a (b ∷ bs) zero p h = p
pick-All P a (b ∷ bs) (suc n) p h = pick-All P b bs n h.0 h.1

-- the elapsed time stays within the contract whatever the adjustment
abbrev Fits : ℕ → ℤ → Type 0
Fits n shift = (m : ℕ) × (offset n shift ≡ pos m) × (0 < m) × (m ≤ 1500)

elapsed-Fits : (n k : ℕ) → 5 < n → n ≤ 1495 → Fits n (pick (negsuc 4) elapsed_adjustments k)
unfolding offset
elapsed-Fits n k low high =
    pick-All (Fits n) (negsuc 4) elapsed_adjustments k
      (n - 5, ground arith, omega arith, omega arith)
      ((n + 0, refl, omega arith, omega arith), ((n + 5, refl, omega arith, omega arith), tt))

pos-injective : {a b : ℕ} → pos a ≡ pos b → a ≡ b
pos-injective h = cc

elapsed_time : (n : ℤ) (m : ℕ) → n ≡ pos m → 0 < m → m ≤ 1500 → is_elapsed_time n ≡ true
elapsed_time (pos n) m h low high = ground (arith, pos-injective h)
elapsed_time (negsuc n) m h low high = cc

early_date : (d start : ℕ) → d < start + 14 → start + 13 ≤ last_date → ltb last_date d ≡ false
early_date d start h last = ground arith

module _ {G : Type 0} (randrange : ℕ → G → ℕ × G) (normalized : String → String)
    (below : (n : ℕ) (g : G) → (randrange (suc n) g).0 < suc n) where
  drawn_request-IsWithin :
      (first : RouteTemplate) (rest : List RouteTemplate) (plan : TrafficPlan) (g : G)
      → All (IsTemplate normalized) (first ∷ rest)
      → IsWithin plan
          (normalize_codes normalized (drawn_request randrange normalized first rest plan g).0)
  unfolding drawn_request
  drawn_request-IsWithin first rest plan g h =
      let d0 = randrange (suc (length rest)) g in
      let d1 = randrange 5 d0.1 in
      let d2 = randrange 3 d1.1 in
      let t = pick-All (IsTemplate normalized) first rest d0.0 h.0 h.1 in
      let (m, is_m, low, high) =
        elapsed-Fits (pick first rest d0.0).elapsed_minutes d2.0 t.elapsed_from t.elapsed_to in
      let days = below 13 d2.1 in
      let template = pick first rest d0.0 in
      let shift = pick (negsuc 29) clock_shifts d1.0 in
      record {
        carrier = t.carrier;
        origin = t.origin;
        destination = t.destination;
        apart = t.apart;
        date_from = omega arith;
        date_to = omega arith;
        departure = shift_clock-IsTime template.departure shift;
        arrival = shift_clock-IsTime template.arrival shift;
        elapsed = m;
        is_elapsed = is_m;
        elapsed_from = low;
        elapsed_to = high;
        distance = t.distance;
      }

  -- what is within the bounds passes the validation
  validated-ok :
      (plan : TrafficPlan) (r : Request)
      → plan.start_date + 13 ≤ last_date
      → IsWithin plan (normalize_codes normalized r)
      → validated normalized r ≡ ok (normalize_codes normalized r)
  unfolding validated is_contract ◌>>=◌
  validated-ok plan r last is =
      let fits =
        elapsed_time r.scheduled_elapsed_minutes is.elapsed is.is_elapsed is.elapsed_from
          is.elapsed_to in
      let early : ltb last_date r.flight_date ≡ false = early_date _ _ is.date_to last in
      simp (
        early, is.carrier, is.origin, is.destination, is.apart, fits, is.distance.positive,
        is.distance.limited,
      )

  requests_from-IsWithin :
      (first : RouteTemplate) (rest : List RouteTemplate) (plan : TrafficPlan) (n : ℕ) (g : G)
      → plan.start_date + 13 ≤ last_date
      → All (IsTemplate normalized) (first ∷ rest)
      → (requests : List Request) × (requests_from randrange normalized first rest plan n g
          ≡ ok requests)
        × (length requests ≡ n)
        × All (IsWithin plan) requests
  unfolding requests_from next_request ◌>>=◌
  requests_from-IsWithin first rest plan zero g last h = ([], refl, refl, tt)
  requests_from-IsWithin first rest plan (suc n) g last h =
      let drawn = drawn_request randrange normalized first rest plan g in
      let within = drawn_request-IsWithin first rest plan g h in
      let (more, made, many, all_within) =
        requests_from-IsWithin first rest plan n drawn.1 last h in
      (
        normalize_codes normalized drawn.0 ∷ more,
        rw (validated-ok plan drawn.0 last within, made) refl,
        ap suc many,
        (within, all_within),
      )

  -- From templates whose normalized codes, elapsed time and distance leave room for the
  -- adjustments, the generator raises nothing and returns as many requests as planned; each has
  -- valid codes of two different airports, times of the day, an elapsed time and a distance within
  -- the constraints of the contract, and a date in the two weeks from the start. There is a
  -- template, the two weeks end by the last date, and randrange draws a number below its bound.
  pub generate_requests-IsWithin :
      (seeded : ℤ → G) (plan : TrafficPlan) (templates : List RouteTemplate)
      → templates ≢ []
      → plan.start_date + 13 ≤ last_date
      → All (IsTemplate normalized) templates
      → (requests : List Request) × (generate_requests randrange normalized seeded plan templates
          ≡ ok requests)
        × (length requests ≡ plan.count)
        × All (IsWithin plan) requests
  unfolding generate_requests
  generate_requests-IsWithin seeded plan [] some last h = absurd (some refl)
  generate_requests-IsWithin seeded plan (first ∷ rest) some last h =
      requests_from-IsWithin first rest plan plan.count (seeded plan.seed) last h
