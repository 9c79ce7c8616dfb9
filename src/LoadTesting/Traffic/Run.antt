-- ===== src/LoadTesting/Traffic/Run.antt =====
-- What a run sends and counts (src/flight_delay/load_testing/traffic.py).
use us_flight_delay_mlops.Prelude.{
  ℕ, suc, ◌+◌, ◌≡◌, ◌≢◌, Bool, true, false, some, List, [], ◌∷◌, ◌++◌, String, length,
}
use us_flight_delay_mlops.Prelude.Int.{ℤ}
use us_flight_delay_mlops.Python.Float.{Float}
use us_flight_delay_mlops.Python.Result.{ok}
use us_flight_delay_mlops.Python.Result.Ensures.{Ensures}
use us_flight_delay_mlops.LoadTesting.Requests.{Request, TrafficPlan}
use us_flight_delay_mlops.LoadTesting.Traffic.{
  apply, Sent, replied, client_error, other_error, send_all, run_monitoring_traffic, attempt,
  TrafficAudit,
}

-- what a request ended with, other exceptions aside
pub data Fate : Type 0 where
  received : String → Fate
  failed : Fate

-- the identifiers of the answers, in their order
abbrev pub received_ids : List Fate → List String
received_ids [] = []
received_ids (received id ∷ outcomes) = id ∷ received_ids outcomes
received_ids (failed ∷ outcomes) = received_ids outcomes

abbrev pub failures : List Fate → ℕ
failures [] = 0
failures (received id ∷ outcomes) = failures outcomes
failures (failed ∷ outcomes) = suc (failures outcomes)

module _ {W : Type 0} (sender : Request → W → Sent × W) (sleep : Float → W → Bool × W) where
  -- `Sends rate later rs w os w'`: from `w`, each of the requests is sent once, in order, after a
  -- wait if it is not the first, with the outcomes `os`, and the world is then `w'`.
  pub data Sends (rate : Float) : Bool → List Request → W → List Fate → W → Type 0 where
    done : {later : Bool} {w : W} → Sends rate later [] w [] w
    got :
        {later : Bool} {r : Request} {rs : List Request} {w w' w'' : W} {id : String}
        {os : List Fate}
        → attempt sender sleep rate later r w ≡ (replied id, w')
        → Sends rate true rs w' os w''
        → Sends rate later (r ∷ rs) w (received id ∷ os) w''
    missed :
        {later : Bool} {r : Request} {rs : List Request} {w w' w'' : W} {os : List Fate}
        → attempt sender sleep rate later r w ≡ (client_error, w')
        → Sends rate true rs w' os w''
        → Sends rate later (r ∷ rs) w (failed ∷ os) w''

  -- a sender that raises nothing but an ApiClientError
  abbrev pub OnlyClientErrors : Type 0
  OnlyClientErrors = (r : Request) (w : W) → (sender r w).0 ≢ other_error

  -- waits that return
  abbrev pub WaitsReturn : Float → Type 0
  WaitsReturn rate = (w : W) → (sleep rate w).0 ≡ true

  -- the loop ends, and what it counts is what was sent
  abbrev Ends : Float → Bool → List Request → List String → ℕ → W → Type 0
  Ends rate later rs ids n w =
      (os : List Fate) × (w' : W) × (send_all sender sleep rate later rs ids n w
        ≡ (ok (ids ++ received_ids os, n + failures os), w'))
      × Sends rate later rs w os w'

module _ {G W : Type 0} (randrange : ℕ → G → ℕ × G) (normalized : String → String) (seeded : ℤ → G)
    (sender : Request → W → Sent × W) (sleep : Float → W → Bool × W) where
  -- an applied run: every planned request is sent, and the audit counts what became of each
  pub record IsComplete (stamp : String) (plan : TrafficPlan) (requests : List Request) (w : W)
      : Type 0 where
    pub outcomes : List Fate
    pub after : W
    pub sends : Sends sender sleep plan.rate_per_second false requests w outcomes after
    pub counted : length (received_ids outcomes) + failures outcomes ≡ plan.count
    pub audit : TrafficAudit
    pub result :
        run_monitoring_traffic randrange normalized seeded sender sleep
          (some stamp)
          apply
          true
          plan
          w
        ≡ (ok audit, after)
    pub returned : audit.returned_prediction_ids ≡ received_ids outcomes
    pub successful : audit.successful_count ≡ length (received_ids outcomes)
    pub failed_count : audit.failed_count ≡ failures outcomes
    pub attempted_count : audit.attempted_count ≡ plan.count
    pub planned_count : audit.planned_count ≡ plan.count
