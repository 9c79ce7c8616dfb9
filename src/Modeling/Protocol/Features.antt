-- ===== src/Modeling/Protocol/Features.antt =====
-- src/flight_delay/modeling/v3/protocol.py: the feature contract.
use us_flight_delay_mlops.Prelude.{
  true, false, not, ◌||◌, List, [], ◌∷◌, ◌++◌, String, all, length, ◌==◌,
}
use us_flight_delay_mlops.Prelude.Int.{pos}
use us_flight_delay_mlops.Prelude.Names.{member, distinct, same_names}
use us_flight_delay_mlops.Python.Result.{Result, ok, err, ◌>>=◌, ◌>>◌, raise_if, require}
use us_flight_delay_mlops.Python.Value.{
  Fields, null, bool, int, str, tuple, nil, cons, get_or, keys,
}
use us_flight_delay_mlops.Modeling.Checks.{
  ProtocolError, refused, section, expect, expects, text_list,
}
use us_flight_delay_mlops.Modeling.Protocol.{
  processed_features, deterministic_seasonal_features, v2_historical_features,
  seasonal_historical_features, v3_features, categorical_features, thanksgiving_window_range,
  christmas_window_range, day_distance_clip,
}
use us_flight_delay_mlops.Features.Leakage.{FeatureLeakageError, Unicode, validate_model_features}

-- The names of the schema and of the guard's lists are ASCII texts, so that no table is asked.
abbrev ascii : Unicode
ascii = record { folded = λ c. c ∷ []; alnum = λ c. false; space = λ c. false }

-- `validate_model_features(...)`, its error passed on as one of the protocol
abbrev guarded : Result FeatureLeakageError (List String) → Result ProtocolError (Unit {0})
guarded (ok features) = ok tt
guarded (err e) = err (refused "v3 feature contract violates the central leakage guard")

-- `_validate_feature_contract`
unfoldable pub validate_feature_contract : Fields → Result ProtocolError (Unit {0})
validate_feature_contract protocol = do
  contract ← section "feature_contract" protocol "feature contract"
  expects contract (
      ("base_features", text_list processed_features, "base features")
      ∷ (
        "deterministic_seasonal_features",
        text_list deterministic_seasonal_features,
        "deterministic seasonal features",
      )
      ∷ ("historical_features", text_list v2_historical_features, "v2 historical features")
      ∷ (
        "seasonal_historical_features",
        text_list seasonal_historical_features,
        "seasonal historical features",
      )
      ∷ ("total_feature_count", int (pos 48), "feature count")
      ∷ ("retained_v2_feature_count", int (pos 37), "retained v2 feature count")
      ∷ ("categorical_features", text_list categorical_features, "categoricals")
      ∷ ("native_categorical_count", int (pos 8), "native categorical count")
      ∷ ("postdeparture_features_permitted", bool false, "post-departure rule")
      ∷ [])
  raise_if (not (length v3_features == 48) || not (length (distinct v3_features) == 48))
      (refused "v3 feature schema must contain 48 unique features")
  let retained = processed_features ++ v2_historical_features
  raise_if (not (all (λ f. member f v3_features) retained) || not (length retained == 37))
      (refused "v3 must retain all 37 v2 features")
  require (all (λ f. member f v3_features) categorical_features)
      (refused "every native categorical must belong to the v3 schema")
  guarded (validate_model_features ascii v3_features)

abbrev seasonal_tables : List String
seasonal_tables =
    "same_calendar_month_global" ∷ "same_calendar_month_carrier" ∷ "same_calendar_month_origin"
    ∷ "same_calendar_month_destination" ∷ "same_calendar_month_route" ∷ []

-- `_validate_seasonal_semantics`
unfoldable pub validate_seasonal_semantics : Fields → Result ProtocolError (Unit {0})
validate_seasonal_semantics protocol = do
  semantics ← section "deterministic_seasonal_semantics" protocol "deterministic seasonal semantics"
  expects semantics (
      ("computed_solely_from_scheduled_flight_date", bool true, "schedule-only rule")
      ∷ ("no_target_or_label_input", bool true, "seasonal label rule")
      ∷ [])
  thanksgiving ← section "thanksgiving" semantics "Thanksgiving"
  expects thanksgiving (
      ("definition", str "fourth_Thursday_of_November", "Thanksgiving rule")
      ∷ ("anchor_tie_break", str "earlier_anchor_date", "Thanksgiving tie break")
      ∷ [])
  christmas ← section "christmas" semantics "Christmas"
  expects christmas (("definition", str "december_25", "Christmas rule") ∷ [])
  bounded ← section "bounded_distance" semantics "bounded distance"
  expect
      (tuple
        (cons (get_or "clip_lower" null bounded) (cons (get_or "clip_upper" null bounded) nil)))
      day_distance_clip "distance clip"
  windows ← section "windows" semantics "seasonal windows"
  is_thanksgiving_window ← section "is_thanksgiving_window" windows "Thanksgiving window"
  expects is_thanksgiving_window (
      ("raw_signed_delta_inclusive_range", thanksgiving_window_range, "Thanksgiving window range")
      ∷ [])
  is_christmas_window ← section "is_christmas_window" windows "Christmas window"
  expects is_christmas_window
      (("raw_signed_delta_inclusive_range", christmas_window_range, "Christmas window range") ∷ [])
  state ← section "historical_feature_state" protocol "historical state"
  expects state (
      ("schema", str "flight-delay-historical-state-v3", "state schema")
      ∷ ("prior_strength", int (pos 50), "prior strength")
      ∷ ("same_month_labels_permitted", bool false, "same-month rule")
      ∷ ("future_labels_permitted", bool false, "future-label rule")
      ∷ ("full_eligible_prior_history_required", bool true, "full-history rule")
      ∷ ("historical_state_sampling_permitted", bool false, "state sampling rule")
      ∷ [])
  seasonal ← section "seasonal_prior_year_rule" state "seasonal prior-year rule"
  expects seasonal (
      ("prior_or_previous_occurrences_only", bool true, "prior-occurrence rule")
      ∷ ("same_month_same_year_contribution_prohibited", bool true, "same-year seasonal rule")
      ∷ (
        "november_2025_targets_contribute_to_november_2025_features",
        bool false,
        "November self-contribution rule",
      )
      ∷ ("november_2025_features_may_use_november_2024", bool true, "November prior-year rule")
      ∷ [])
  tables ← section "seasonal_tables" state "seasonal tables"
  expect (bool (same_names (keys tables) seasonal_tables)) (bool true) "seasonal table set"
  november_and_december_state ← section "november_and_december_state" state "frozen state"
  expects november_and_december_state
      (("as_of_inclusive", str "2025-10-31", "November/December state cutoff") ∷ [])
