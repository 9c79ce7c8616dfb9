-- ===== src/Modeling/Protocol/Frozen/Search.antt =====
-- The governed protocol (configs/v3_experiment_protocol.yaml) with the keys that its validation reads:
-- the folds and the stages.
use us_flight_delay_mlops.Prelude.{true, [], ◌∷◌}
use us_flight_delay_mlops.Prelude.Int.{pos}
use us_flight_delay_mlops.Python.Value.{Value, bool, int, str, list, to_items, dict_of}
use us_flight_delay_mlops.Modeling.Checks.{text_list}
use us_flight_delay_mlops.Modeling.Protocol.{dyadic}

abbrev pub rolling_origin : Value
rolling_origin = dict_of (
    ("fit_start", str "2024-02-01")
    ∷ (
      "folds",
      list (
          to_items (
            (dict_of (
              ("id", str "FOLD_1")
              ∷ ("fit_start", str "2024-02-01")
              ∷ ("fit_end_exclusive", str "2025-08-01")
              ∷ ("fit_cutoff_inclusive", str "2025-07-31")
              ∷ ("evaluation_start", str "2025-08-01")
              ∷ ("evaluation_state_as_of", str "2025-07-31")
              ∷ []))
            ∷ (dict_of (
                ("id", str "FOLD_2")
                ∷ ("fit_start", str "2024-02-01")
                ∷ ("fit_end_exclusive", str "2025-09-01")
                ∷ ("fit_cutoff_inclusive", str "2025-08-31")
                ∷ ("evaluation_start", str "2025-09-01")
                ∷ ("evaluation_state_as_of", str "2025-08-31")
                ∷ []))
            ∷ (dict_of (
                ("id", str "FOLD_3")
                ∷ ("fit_start", str "2024-02-01")
                ∷ ("fit_end_exclusive", str "2025-10-01")
                ∷ ("fit_cutoff_inclusive", str "2025-09-30")
                ∷ ("evaluation_start", str "2025-10-01")
                ∷ ("evaluation_state_as_of", str "2025-09-30")
                ∷ []))
            ∷ (dict_of (
                ("id", str "FOLD_4")
                ∷ ("fit_start", str "2024-02-01")
                ∷ ("fit_end_exclusive", str "2025-11-01")
                ∷ ("fit_cutoff_inclusive", str "2025-10-31")
                ∷ ("evaluation_start", str "2025-11-01")
                ∷ ("evaluation_state_as_of", str "2025-10-31")
                ∷ []))
            ∷ [])),
    )
    ∷ [])

abbrev pub search_metric : Value
search_metric = dict_of (
    (
      "threshold_constraints",
      dict_of (
          ("recall_min", dyadic 5404319552844595 53)
          ∷ ("predicted_positive_rate_max", dyadic 1 1)
          ∷ []),
    )
    ∷ (
      "candidate_ranking",
      text_list (
          "worst_fold_operating_precision_desc" ∷ "fold_4_november_operating_precision_desc"
          ∷ "mean_fold_2_through_fold_4_operating_precision_desc"
          ∷ "mean_all_fold_operating_precision_desc" ∷ "mean_average_precision_desc"
          ∷ "mean_roc_auc_desc" ∷ "mean_log_loss_asc" ∷ "mean_brier_score_asc"
          ∷ "candidate_id_lexical_asc" ∷ []),
    )
    ∷ [])

abbrev pub advancement : Value
advancement = dict_of (
    (
      "screening",
      dict_of (
          ("total_identities", int (pos 8))
          ∷ ("top_per_family_to_cpu_confirmation", int (pos 2))
          ∷ []),
    )
    ∷ (
      "cpu_confirmation",
      dict_of (
          ("total_identities", int (pos 4))
          ∷ ("top_per_family_to_full_refit", int (pos 1))
          ∷ ("authoritative_for_advancement", bool true)
          ∷ []),
    )
    ∷ (
      "full_refit",
      dict_of (
          ("total_bases", int (pos 2))
          ∷ ("start", str "2024-02-01")
          ∷ ("end_exclusive", str "2025-11-01")
          ∷ ("full_eligible_rows", bool true)
          ∷ ("backend", str "CPU")
          ∷ []),
    )
    ∷ [])

abbrev pub calibration : Value
calibration = dict_of (
    ("november_feature_state_frozen_at", str "2025-10-31")
    ∷ ("variants", text_list ("none" ∷ "sigmoid" ∷ "isotonic" ∷ []))
    ∷ ("bases", int (pos 2))
    ∷ ("base_frozen_before_calibration", bool true)
    ∷ [])

abbrev pub ensembles : Value
ensembles = dict_of (
    ("precommitted", bool true)
    ∷ ("post_result_definitions_prohibited", bool true)
    ∷ ("inputs", str "two_uncalibrated_authoritative_cpu_base_scores")
    ∷ ("additional_base_model_fits_required", int (pos 0))
    ∷ ("formula", str "lightgbm_weight * p_lightgbm + (1 - lightgbm_weight) * p_catboost")
    ∷ (
      "weights",
      list (
          to_items (
            (dict_of (
              ("id", str "ENS25")
              ∷ ("lightgbm_weight", dyadic 1 2)
              ∷ ("catboost_weight", dyadic 3 2)
              ∷ []))
            ∷ (dict_of (
                ("id", str "ENS50")
                ∷ ("lightgbm_weight", dyadic 1 1)
                ∷ ("catboost_weight", dyadic 1 1)
                ∷ []))
            ∷ (dict_of (
                ("id", str "ENS75")
                ∷ ("lightgbm_weight", dyadic 3 2)
                ∷ ("catboost_weight", dyadic 1 2)
                ∷ []))
            ∷ [])),
    )
    ∷ ("variants", text_list ("none" ∷ "sigmoid" ∷ "isotonic" ∷ []))
    ∷ [])

abbrev pub finalists : Value
finalists = dict_of (("total", int (pos 15)) ∷ [])
