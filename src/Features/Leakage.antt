-- ===== src/Features/Leakage.antt =====
-- src/flight_delay/features/leakage.py: the guard against features that are known only after the
-- flight. The tables of Unicode are a parameter.
pub mod Guard
use us_flight_delay_mlops.Prelude.{
  ℕ, Bool, true, false, not, ◌&&◌, ◌||◌, List, [], ◌∷◌, ◌++◌, filter, any, is_empty, String, leb,
  if◌then◌else◌, Ordering,
}
use us_flight_delay_mlops.Prelude.Compare.{compare_codes}
use us_flight_delay_mlops.Prelude.Text.{codes, to_lower}
use us_flight_delay_mlops.Prelude.Names.{distinct}
use us_flight_delay_mlops.Python.Result.{Result, ok, ◌>>=◌, ◌>>◌, raise_if}

unfoldable pub allowed_model_features : List String
allowed_model_features =
    "Month" ∷ "DayofMonth" ∷ "DayOfWeek" ∷ "Reporting_Airline" ∷ "Origin" ∷ "Dest" ∷ "CRSDepTime"
    ∷ "CRSArrTime" ∷ "CRSElapsedTime" ∷ "Distance" ∷ "route" ∷ "scheduled_departure_hour"
    ∷ "scheduled_arrival_hour" ∷ "scheduled_departure_minute_bucket"
    ∷ "scheduled_arrival_minute_bucket" ∷ "is_weekend" ∷ "scheduled_departure_sin"
    ∷ "scheduled_departure_cos" ∷ "scheduled_arrival_sin" ∷ "scheduled_arrival_cos" ∷ "month_sin"
    ∷ "month_cos" ∷ "prior_global_delay_rate" ∷ "prior_carrier_delay_rate"
    ∷ "prior_origin_delay_rate" ∷ "prior_destination_delay_rate" ∷ "prior_route_delay_rate"
    ∷ "prior_carrier_route_delay_rate" ∷ "prior_carrier_origin_delay_rate"
    ∷ "prior_carrier_destination_delay_rate" ∷ "prior_origin_departure_hour_delay_rate"
    ∷ "prior_destination_arrival_hour_delay_rate" ∷ "log_route_support"
    ∷ "log_carrier_route_support" ∷ "recent_global_delay_rate_3m" ∷ "recent_carrier_delay_rate_3m"
    ∷ "recent_origin_delay_rate_3m" ∷ "recent_destination_delay_rate_3m"
    ∷ "recent_route_delay_rate_3m" ∷ "day_of_year_sin" ∷ "day_of_year_cos" ∷ "days_to_thanksgiving"
    ∷ "is_thanksgiving_window" ∷ "days_to_christmas" ∷ "is_christmas_window"
    ∷ "prior_same_calendar_month_global_delay_rate" ∷ "prior_same_calendar_month_carrier_delay_rate"
    ∷ "prior_same_calendar_month_origin_delay_rate"
    ∷ "prior_same_calendar_month_destination_delay_rate"
    ∷ "prior_same_calendar_month_route_delay_rate" ∷ []

unfoldable pub forbidden_features : List String
forbidden_features =
    "DepTime" ∷ "DepDelay" ∷ "DepDelayMinutes" ∷ "DepDel15" ∷ "DepartureDelayGroups" ∷ "TaxiOut"
    ∷ "WheelsOff" ∷ "AirTime" ∷ "WheelsOn" ∷ "TaxiIn" ∷ "ArrTime" ∷ "ArrDelay" ∷ "ArrDelayMinutes"
    ∷ "ArrDel15" ∷ "ArrivalDelayGroups" ∷ "Cancelled" ∷ "CancellationCode" ∷ "Diverted"
    ∷ "CarrierDelay" ∷ "WeatherDelay" ∷ "NASDelay" ∷ "SecurityDelay" ∷ "LateAircraftDelay"
    ∷ "FirstDepTime" ∷ "TotalAddGTime" ∷ "LongestAddGTime" ∷ "DivAirportLandings" ∷ "DivReachedDest"
    ∷ "DivActualElapsedTime" ∷ "DivArrDelay" ∷ "DivDistance" ∷ []

-- `FeatureLeakageError`: the forbidden features, by their names in the list, and the unapproved
-- ones, by their own
pub record FeatureLeakageError : Type 0 where
  pub forbidden : List String
  pub unapproved : List String

abbrev is_same : Ordering → Bool
is_same Ordering.eq = true
is_same _ = false

-- What Python knows of the characters beyond ASCII: their case folding, and whether they are
-- letters or digits, or white space.
pub record Unicode : Type 0 where
  pub folded : ℕ → List ℕ
  pub alnum : ℕ → Bool
  pub space : ℕ → Bool

module _ (unicode : Unicode) where
  -- `character.isalnum()`
  is_alnum : ℕ → Bool
  is_alnum c =
      if leb c 127
      then (leb b'0' c && leb c b'9') || (leb b'A' c && leb c b'Z') || (leb b'a' c && leb c b'z')
      else unicode.alnum c

  -- `feature.casefold()`
  unfoldable pub casefold : List ℕ → List ℕ
  casefold [] = []
  casefold (c ∷ s) =
      let rest = casefold s in if leb c 127 then to_lower c ∷ rest else unicode.folded c ++ rest

  -- `_comparison_key`
  unfoldable pub comparison_key : String → List ℕ
  unfolding is_alnum casefold
  comparison_key feature = filter is_alnum (casefold (codes feature))

  -- `key in _normalized_lookup(features)`: the names whose key it is
  unfoldable pub names_with_key : List ℕ → List String → List String
  unfolding comparison_key
  names_with_key key features =
      filter (λ feature. is_same (compare_codes (comparison_key feature) key)) features

  -- `_comparison_key(feature) in lookup`
  unfoldable pub is_known : List String → String → Bool
  unfolding names_with_key
  is_known features feature = not (is_empty (names_with_key (comparison_key feature) features))

  -- `not feature.strip()`
  is_space : ℕ → Bool
  is_space c =
      if leb c 127 then (leb 9 c && leb c 13) || (leb 28 c && leb c 32) else unicode.space c

  unfoldable pub is_blank_name : String → Bool
  unfolding is_space
  is_blank_name feature = is_empty (filter (λ c. not (is_space c)) (codes feature))

  -- what the proposed features that are forbidden are called in the list, `lookup[key]`: no two of
  -- its names have one key
  unfoldable pub forbidden_names : List String → List String
  unfolding names_with_key
  forbidden_names [] = []
  forbidden_names (feature ∷ features) =
      names_with_key (comparison_key feature) forbidden_features ++ forbidden_names features

  -- the proposed features that are neither allowed nor forbidden
  unfoldable pub unapproved_names : List String → List String
  unfolding is_known
  unapproved_names proposed =
      filter
        (λ feature.
          not (is_known allowed_model_features feature)
          && not (is_known forbidden_features feature))
        proposed

  -- `validate_model_features`
  unfoldable pub validate_model_features : List String → Result FeatureLeakageError (List String)
  unfolding unapproved_names is_blank_name forbidden_names
  validate_model_features proposed_features = do
    let proposed = distinct proposed_features
    raise_if (is_empty proposed) (record { forbidden = []; unapproved = "<empty schema>" ∷ [] })
    raise_if (any is_blank_name proposed)
        (record { forbidden = []; unapproved = "<invalid feature name>" ∷ [] })
    let forbidden = distinct (forbidden_names proposed)
    let unapproved = unapproved_names proposed
    raise_if (not (is_empty forbidden) || not (is_empty unapproved))
        (record { forbidden = forbidden; unapproved = unapproved })
    ok proposed
