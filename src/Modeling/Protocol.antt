-- ===== src/Modeling/Protocol.antt =====
-- src/flight_delay/modeling/v3/protocol.py: the validation of the governed protocol, the constants
-- that it holds the protocol to and the steps that its parts share.
pub mod Features
pub mod Weights
pub mod Candidates
pub mod Ensembles
pub mod Stages
pub mod Governance
pub mod Tree
pub mod Load
mod Frozen
mod Examples
use us_flight_delay_mlops.Prelude.{
  ◌-◌, ◌*◌, ◌^◌, Bool, true, false, List, [], ◌∷◌, ◌++◌, String, map, ◌||◌, if◌then◌else◌, ℕ,
}
use us_flight_delay_mlops.Prelude.Int.{pos, negsuc}
use us_flight_delay_mlops.Prelude.Text.{characters}
use us_flight_delay_mlops.Python.Equal.{eq_value}
use us_flight_delay_mlops.Python.Float.{finite}
use us_flight_delay_mlops.Python.Result.{Result, ok, err}
use us_flight_delay_mlops.Python.Value.{
  Value, Items, Fields, bool, int, float, str, list, tuple, dict, nil, cons, end, field, keys,
  is_true, to_items,
}
use us_flight_delay_mlops.Modeling.Checks.{ProtocolError, type_error}

abbrev pub protocol_id : String
protocol_id = "us-flight-delay-v3-seasonal-temporal-generalization-v1"

abbrev pub protocol_sha256 : String
protocol_sha256 = "061be599fd84a4ddbf06229c300fe4670272d176b22899f1515332923376ecff"

abbrev pub protocol_lock_sha256 : String
protocol_lock_sha256 = "ef0c15137032af3259df598cf196c510345c15cbd532d2ea85638145e329bcef"

abbrev pub base_git_sha : String
base_git_sha = "6966562dcc2a7959f27e662e97cfeec8a4aa43a6"

abbrev pub v2_protocol_sha256 : String
v2_protocol_sha256 = "8e57b0f63656003c9981b3b5e44623e0b7c556f6e0c7222352ac38dd5119420a"

-- `PROCESSED_FEATURES` of data/prepare
unfoldable pub processed_features : List String
processed_features =
    "Month" ∷ "DayofMonth" ∷ "DayOfWeek" ∷ "Reporting_Airline" ∷ "Origin" ∷ "Dest" ∷ "CRSDepTime"
    ∷ "CRSArrTime" ∷ "CRSElapsedTime" ∷ "Distance" ∷ "route" ∷ "scheduled_departure_hour"
    ∷ "scheduled_arrival_hour" ∷ "scheduled_departure_minute_bucket"
    ∷ "scheduled_arrival_minute_bucket" ∷ "is_weekend" ∷ "scheduled_departure_sin"
    ∷ "scheduled_departure_cos" ∷ "scheduled_arrival_sin" ∷ "scheduled_arrival_cos" ∷ []

unfoldable pub deterministic_seasonal_features : List String
deterministic_seasonal_features =
    "day_of_year_sin" ∷ "day_of_year_cos" ∷ "days_to_thanksgiving" ∷ "is_thanksgiving_window"
    ∷ "days_to_christmas" ∷ "is_christmas_window" ∷ []

-- `HISTORICAL_FEATURES` of v2/protocol
unfoldable pub v2_historical_features : List String
v2_historical_features =
    "prior_global_delay_rate" ∷ "prior_carrier_delay_rate" ∷ "prior_origin_delay_rate"
    ∷ "prior_destination_delay_rate" ∷ "prior_route_delay_rate" ∷ "prior_carrier_route_delay_rate"
    ∷ "prior_carrier_origin_delay_rate" ∷ "prior_carrier_destination_delay_rate"
    ∷ "prior_origin_departure_hour_delay_rate" ∷ "prior_destination_arrival_hour_delay_rate"
    ∷ "log_route_support" ∷ "log_carrier_route_support" ∷ "recent_global_delay_rate_3m"
    ∷ "recent_carrier_delay_rate_3m" ∷ "recent_origin_delay_rate_3m"
    ∷ "recent_destination_delay_rate_3m" ∷ "recent_route_delay_rate_3m" ∷ []

unfoldable pub seasonal_historical_features : List String
seasonal_historical_features =
    "prior_same_calendar_month_global_delay_rate" ∷ "prior_same_calendar_month_carrier_delay_rate"
    ∷ "prior_same_calendar_month_origin_delay_rate"
    ∷ "prior_same_calendar_month_destination_delay_rate"
    ∷ "prior_same_calendar_month_route_delay_rate" ∷ []

unfoldable pub v3_features : List String
unfolding processed_features deterministic_seasonal_features v2_historical_features
    seasonal_historical_features
v3_features =
    (processed_features ++ deterministic_seasonal_features)
    ++ (v2_historical_features ++ seasonal_historical_features)

unfoldable pub categorical_features : List String
categorical_features =
    "Reporting_Airline" ∷ "Origin" ∷ "Dest" ∷ "route" ∷ "Month" ∷ "DayOfWeek"
    ∷ "scheduled_departure_hour" ∷ "scheduled_arrival_hour" ∷ []

-- `m / 2^k` as a float
abbrev pub dyadic : ℕ → ℕ → Value
dyadic m k = float (finite (pos (m * 2 ^ (1074 - k))))

unfoldable pub lightgbm_common_parameters : Value
lightgbm_common_parameters = dict (
    field "objective" (str "binary") (
      field "random_state" (int (pos 42)) (
        field "verbosity" (int (negsuc 0)) (
          field "deterministic" (bool true)
            (field "force_col_wise" (bool true) (field "subsample_freq" (int (pos 1)) end))))))

unfoldable pub catboost_common_parameters : Value
catboost_common_parameters = dict (
    field "loss_function" (str "Logloss") (
      field "eval_metric" (str "Logloss") (
        field "random_seed" (int (pos 42)) (
          field "has_time" (bool true)
            (field "allow_writing_files" (bool false) (field "verbose" (bool false) end))))))

unfoldable pub weight_policy_ids : List String
weight_policy_ids = "UNIFORM" ∷ "EXPONENTIAL_120D" ∷ []

unfoldable pub base_configuration_ids : List String
base_configuration_ids = "LGBM12" ∷ "LGBM10" ∷ "CB07" ∷ "CB04" ∷ []

unfoldable pub candidate_identity_ids : List String
candidate_identity_ids =
    "LGBM12-UNIFORM" ∷ "LGBM12-EXP120" ∷ "LGBM10-UNIFORM" ∷ "LGBM10-EXP120" ∷ "CB07-UNIFORM"
    ∷ "CB07-EXP120" ∷ "CB04-UNIFORM" ∷ "CB04-EXP120" ∷ []

unfoldable pub calibration_variants : List String
calibration_variants = "none" ∷ "sigmoid" ∷ "isotonic" ∷ []

unfoldable pub candidate_ranking_order : List String
candidate_ranking_order =
    "worst_fold_operating_precision_desc" ∷ "fold_4_november_operating_precision_desc"
    ∷ "mean_fold_2_through_fold_4_operating_precision_desc"
    ∷ "mean_all_fold_operating_precision_desc" ∷ "mean_average_precision_desc" ∷ "mean_roc_auc_desc"
    ∷ "mean_log_loss_asc" ∷ "mean_brier_score_asc" ∷ "candidate_id_lexical_asc" ∷ []

unfoldable pub fold_ids : List String
fold_ids = "FOLD_1" ∷ "FOLD_2" ∷ "FOLD_3" ∷ "FOLD_4" ∷ []

abbrev pub exponential_half_life_days : Value
exponential_half_life_days = int (pos 120)

abbrev pub thanksgiving_window_range : Value
thanksgiving_window_range = list (cons (int (negsuc 3)) (cons (int (pos 2)) nil))

abbrev pub christmas_window_range : Value
christmas_window_range = list (cons (int (negsuc 9)) (cons (int (pos 4)) nil))

abbrev pub day_distance_clip : Value
day_distance_clip = tuple (cons (int (negsuc 29)) (cons (int (pos 30)) nil))

-- `list(v or [])`
unfoldable pub list_of : Value → Result ProtocolError Items
unfolding characters
list_of (list vs) = ok vs
list_of (tuple vs) = ok vs
list_of (dict fs) = ok (to_items (map str (keys fs)))
list_of (str s) = ok (to_items (map str (characters s)))
list_of v = if is_true v then err type_error else ok nil

-- `v in items`
unfoldable pub is_in : Value → Items → Bool
is_in v nil = false
is_in v (cons w ws) = eq_value w v || is_in v ws
