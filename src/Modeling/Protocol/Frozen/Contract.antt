-- ===== src/Modeling/Protocol/Frozen/Contract.antt =====
-- The governed protocol (configs/v3_experiment_protocol.yaml) with the keys that its validation reads:
-- the features.
use us_flight_delay_mlops.Prelude.{true, false, [], ◌∷◌}
use us_flight_delay_mlops.Prelude.Int.{pos, negsuc}
use us_flight_delay_mlops.Python.Value.{Value, null, bool, int, str, list, to_items, dict_of}
use us_flight_delay_mlops.Modeling.Checks.{text_list}

abbrev pub feature_contract : Value
feature_contract = dict_of (
    ("retained_v2_feature_count", int (pos 37))
    ∷ (
      "base_features",
      text_list (
          "Month" ∷ "DayofMonth" ∷ "DayOfWeek" ∷ "Reporting_Airline" ∷ "Origin" ∷ "Dest"
          ∷ "CRSDepTime" ∷ "CRSArrTime" ∷ "CRSElapsedTime" ∷ "Distance" ∷ "route"
          ∷ "scheduled_departure_hour" ∷ "scheduled_arrival_hour"
          ∷ "scheduled_departure_minute_bucket" ∷ "scheduled_arrival_minute_bucket" ∷ "is_weekend"
          ∷ "scheduled_departure_sin" ∷ "scheduled_departure_cos" ∷ "scheduled_arrival_sin"
          ∷ "scheduled_arrival_cos" ∷ []),
    )
    ∷ (
      "deterministic_seasonal_features",
      text_list (
          "day_of_year_sin" ∷ "day_of_year_cos" ∷ "days_to_thanksgiving" ∷ "is_thanksgiving_window"
          ∷ "days_to_christmas" ∷ "is_christmas_window" ∷ []),
    )
    ∷ (
      "historical_features",
      text_list (
          "prior_global_delay_rate" ∷ "prior_carrier_delay_rate" ∷ "prior_origin_delay_rate"
          ∷ "prior_destination_delay_rate" ∷ "prior_route_delay_rate"
          ∷ "prior_carrier_route_delay_rate" ∷ "prior_carrier_origin_delay_rate"
          ∷ "prior_carrier_destination_delay_rate" ∷ "prior_origin_departure_hour_delay_rate"
          ∷ "prior_destination_arrival_hour_delay_rate" ∷ "log_route_support"
          ∷ "log_carrier_route_support" ∷ "recent_global_delay_rate_3m"
          ∷ "recent_carrier_delay_rate_3m" ∷ "recent_origin_delay_rate_3m"
          ∷ "recent_destination_delay_rate_3m" ∷ "recent_route_delay_rate_3m" ∷ []),
    )
    ∷ (
      "seasonal_historical_features",
      text_list (
          "prior_same_calendar_month_global_delay_rate"
          ∷ "prior_same_calendar_month_carrier_delay_rate"
          ∷ "prior_same_calendar_month_origin_delay_rate"
          ∷ "prior_same_calendar_month_destination_delay_rate"
          ∷ "prior_same_calendar_month_route_delay_rate" ∷ []),
    )
    ∷ ("total_feature_count", int (pos 48))
    ∷ (
      "categorical_features",
      text_list (
          "Reporting_Airline" ∷ "Origin" ∷ "Dest" ∷ "route" ∷ "Month" ∷ "DayOfWeek"
          ∷ "scheduled_departure_hour" ∷ "scheduled_arrival_hour" ∷ []),
    )
    ∷ ("native_categorical_count", int (pos 8))
    ∷ ("postdeparture_features_permitted", bool false)
    ∷ [])

abbrev pub deterministic_seasonal_semantics : Value
deterministic_seasonal_semantics = dict_of (
    ("computed_solely_from_scheduled_flight_date", bool true)
    ∷ ("no_target_or_label_input", bool true)
    ∷ (
      "thanksgiving",
      dict_of (
          ("definition", str "fourth_Thursday_of_November")
          ∷ ("anchor_tie_break", str "earlier_anchor_date")
          ∷ []),
    )
    ∷ (
      "christmas",
      dict_of (
          ("definition", str "december_25") ∷ ("anchor_tie_break", str "earlier_anchor_date") ∷ []),
    )
    ∷ (
      "bounded_distance",
      dict_of (("clip_lower", int (negsuc 29)) ∷ ("clip_upper", int (pos 30)) ∷ []),
    )
    ∷ (
      "windows",
      dict_of (
          (
            "is_thanksgiving_window",
            dict_of (
                (
                  "raw_signed_delta_inclusive_range",
                  list (to_items ((int (negsuc 3)) ∷ (int (pos 2)) ∷ [])),
                )
                ∷ []),
          )
          ∷ (
            "is_christmas_window",
            dict_of (
                (
                  "raw_signed_delta_inclusive_range",
                  list (to_items ((int (negsuc 9)) ∷ (int (pos 4)) ∷ [])),
                )
                ∷ []),
          )
          ∷ []),
    )
    ∷ [])

abbrev pub historical_feature_state : Value
historical_feature_state = dict_of (
    ("schema", str "flight-delay-historical-state-v3")
    ∷ ("prior_strength", int (pos 50))
    ∷ ("same_month_labels_permitted", bool false)
    ∷ ("future_labels_permitted", bool false)
    ∷ ("full_eligible_prior_history_required", bool true)
    ∷ ("historical_state_sampling_permitted", bool false)
    ∷ (
      "seasonal_tables",
      dict_of (
          ("same_calendar_month_global", null)
          ∷ ("same_calendar_month_carrier", null)
          ∷ ("same_calendar_month_origin", null)
          ∷ ("same_calendar_month_destination", null)
          ∷ ("same_calendar_month_route", null)
          ∷ []),
    )
    ∷ (
      "seasonal_prior_year_rule",
      dict_of (
          ("prior_or_previous_occurrences_only", bool true)
          ∷ ("same_month_same_year_contribution_prohibited", bool true)
          ∷ ("november_2025_features_may_use_november_2024", bool true)
          ∷ ("november_2025_targets_contribute_to_november_2025_features", bool false)
          ∷ []),
    )
    ∷ ("november_and_december_state", dict_of (("as_of_inclusive", str "2025-10-31") ∷ []))
    ∷ [])
