-- ===== src/LoadTesting/Traffic.antt =====
-- src/flight_delay/load_testing/traffic.py: the run.
pub mod Run
use us_flight_delay_mlops.Prelude.{
  ℕ, zero, suc, ◌+◌, ◌-◌, ◌*◌, ◌/◌, ◌%◌, Bool, true, false, not, ◌&&◌, ◌||◌, Option, none, some,
  List, [], ◌∷◌, ◌++◌, String, length, ltb, if◌then◌else◌,
}
use us_flight_delay_mlops.Prelude.Int.{ℤ, pos, negsuc, leb_ℤ}
use us_flight_delay_mlops.Python.Float.{Float, finite, isfinite, flt, float_of_int, unit}
use us_flight_delay_mlops.Python.Result.{Result, ok, err, ◌>>=◌, ◌>>◌, or_raise, raise_if, require}
use us_flight_delay_mlops.Python.Value.{Value, null, bool, int, float, str, list, tuple, dict}
use us_flight_delay_mlops.LoadTesting.Requests.{
  TrafficError, naive_timestamp, no_sender, sender_error, Request, TrafficPlan, generate_requests,
  route_templates,
}

pub data TrafficMode : Type 0 where
  dry_run apply : TrafficMode

pub record TrafficAudit : Type 0 where
  pub generation_timestamp : String
  pub mode : TrafficMode
  pub seed : ℤ
  pub planned_count : ℕ
  pub attempted_count : ℕ
  pub successful_count : ℕ
  pub failed_count : ℕ
  pub returned_prediction_ids : List String

-- what a call of the sender ends with: the identifier of the answer, an ApiClientError, or another
-- exception
pub data Sent : Type 0 where
  replied : String → Sent
  client_error : Sent
  other_error : Sent

-- The world that the sender and the clock act on: `sender` sends a request, `sleep` waits for the
-- interval of a rate and tells whether the wait returned.
module _ {W : Type 0} (sender : Request → W → Sent × W) (sleep : Float → W → Bool × W) where
  -- a request after a wait, which ends the run where it raises
  abbrev pub after_wait : Request → Bool × W → Sent × W
  after_wait request (true, w) = sender request w
  after_wait request (false, w) = (other_error, w)

  -- a request, `later` after the first: with a wait before it
  abbrev pub attempt : Float → Bool → Request → W → Sent × W
  attempt rate true request w = after_wait request (sleep rate w)
  attempt rate false request w = sender request w

  -- what the loop does with what a call ended with: the identifiers and the failures so far
  abbrev pub after_send :
      (List String → ℕ → W → Result TrafficError (List String × ℕ) × W)
      → List String
      → ℕ
      → Sent × W
      → Result TrafficError (List String × ℕ) × W
  after_send rest ids failed (replied id, w) = rest (ids ++ id ∷ []) failed w
  after_send rest ids failed (client_error, w) = rest ids (suc failed) w
  after_send rest ids failed (other_error, w) = (err sender_error, w)

  -- the loop over the requests, `later` after the first
  unfoldable pub send_all :
      Float → Bool → List Request → List String → ℕ → W → Result TrafficError (List String × ℕ) × W
  send_all rate later [] ids failed w = (ok (ids, failed), w)
  send_all rate later (request ∷ requests) ids failed w =
      after_send (send_all rate true requests) ids failed (attempt rate later request w)

-- the audit of a run that ended
unfoldable pub audit_of : String → TrafficMode → TrafficPlan → ℕ → List String → ℕ → TrafficAudit
audit_of stamp mode plan attempted ids failed = record {
  generation_timestamp = stamp;
  mode = mode;
  seed = plan.seed;
  planned_count = plan.count;
  attempted_count = attempted;
  successful_count = length ids;
  failed_count = failed;
  returned_prediction_ids = ids;
}

-- `timestamp` is the UTC text of `now()`, which has none where it carries no time zone;
-- `has_sender` says that a sender is given.
module _ {G W : Type 0} (randrange : ℕ → G → ℕ × G) (normalized : String → String) (seeded : ℤ → G)
    (sender : Request → W → Sent × W) (sleep : Float → W → Bool × W) where
  -- the run in apply mode
  unfoldable pub apply_plan :
      String → TrafficPlan → List Request → W → Result TrafficError TrafficAudit × W
  unfolding send_all audit_of
  apply_plan stamp plan requests w =
      let (sent, w') = send_all sender sleep plan.rate_per_second false requests [] 0 w in
      (sent >>= λ (ids, failed). ok (audit_of stamp apply plan plan.count ids failed), w')

  -- the run once the requests are there
  abbrev pub run_requests :
      Option String
      → TrafficMode
      → Bool
      → TrafficPlan
      → W
      → Result TrafficError (List Request)
      → Result TrafficError TrafficAudit × W
  run_requests timestamp mode has_sender plan w (err e) = (err e, w)
  run_requests none mode has_sender plan w (ok requests) = (err naive_timestamp, w)
  run_requests (some stamp) dry_run has_sender plan w (ok requests) =
      (ok (audit_of stamp dry_run plan 0 [] 0), w)
  run_requests (some stamp) apply true plan w (ok requests) = apply_plan stamp plan requests w
  run_requests (some stamp) apply false plan w (ok requests) = (err no_sender, w)

  -- `run_monitoring_traffic`
  unfoldable pub run_monitoring_traffic :
      Option String → TrafficMode → Bool → TrafficPlan → W → Result TrafficError TrafficAudit × W
  run_monitoring_traffic timestamp mode has_sender plan w =
      run_requests timestamp mode has_sender plan w
        (generate_requests randrange normalized seeded plan route_templates)
