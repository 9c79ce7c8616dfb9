-- ===== src/Modeling/Protocol/Frozen/Candidates.antt =====
-- The governed protocol (configs/v3_experiment_protocol.yaml) with the keys that its validation reads:
-- the candidates.
use us_flight_delay_mlops.Prelude.{true, false, [], ◌∷◌}
use us_flight_delay_mlops.Prelude.Int.{pos, negsuc}
use us_flight_delay_mlops.Python.Value.{Value, bool, int, str, list, to_items, dict_of}

abbrev pub weight_policies : Value
weight_policies = dict_of (
    ("precommitted_count", int (pos 2))
    ∷ (
      "policies",
      list (
          to_items (
            (dict_of (("id", str "UNIFORM") ∷ ("normalization", str "none") ∷ []))
            ∷ (dict_of (
                ("id", str "EXPONENTIAL_120D")
                ∷ ("half_life_days", int (pos 120))
                ∷ ("formula", str "0.5 ** (age_days / 120)")
                ∷ ("age_days_measured_backward_from_fit_cutoff", bool true)
                ∷ ("normalization", str "mean_1_within_fit_partition")
                ∷ []))
            ∷ [])),
    )
    ∷ ("evaluation_rows_weighted", bool false)
    ∷ ("calibration_rows_weighted", bool false)
    ∷ ("selection_rows_weighted", bool false)
    ∷ ("weight_policy_is_part_of_candidate_identity", bool true)
    ∷ ("backend_excluded_from_candidate_identity", bool true)
    ∷ [])

abbrev pub sampling : Value
sampling = dict_of (
    ("search_rows_per_month_max", int (pos 50000))
    ∷ ("sample_seed", int (pos 42))
    ∷ ("historical_lookup_inputs", str "full_eligible_prior_history")
    ∷ ("final_refit_inputs", str "full_eligible_model_rows")
    ∷ [])

abbrev pub carried_forward_configurations : Value
carried_forward_configurations = dict_of (
    (
      "source_protocol_sha256",
      str "8e57b0f63656003c9981b3b5e44623e0b7c556f6e0c7222352ac38dd5119420a",
    )
    ∷ ("hyperparameters_unchanged_from_v2", bool true)
    ∷ ("new_hyperparameter_search_performed", bool false)
    ∷ (
      "lightgbm_common_parameters",
      dict_of (
          ("objective", str "binary")
          ∷ ("random_state", int (pos 42))
          ∷ ("verbosity", int (negsuc 0))
          ∷ ("deterministic", bool true)
          ∷ ("force_col_wise", bool true)
          ∷ ("subsample_freq", int (pos 1))
          ∷ []),
    )
    ∷ (
      "catboost_common_parameters",
      dict_of (
          ("loss_function", str "Logloss")
          ∷ ("eval_metric", str "Logloss")
          ∷ ("random_seed", int (pos 42))
          ∷ ("has_time", bool true)
          ∷ ("allow_writing_files", bool false)
          ∷ ("verbose", bool false)
          ∷ []),
    )
    ∷ (
      "base_configurations",
      list (
          to_items (
            (dict_of (("id", str "LGBM12") ∷ ("family", str "lightgbm") ∷ []))
            ∷ (dict_of (("id", str "LGBM10") ∷ ("family", str "lightgbm") ∷ []))
            ∷ (dict_of (("id", str "CB07") ∷ ("family", str "catboost") ∷ []))
            ∷ (dict_of (("id", str "CB04") ∷ ("family", str "catboost") ∷ []))
            ∷ [])),
    )
    ∷ [])

abbrev pub candidate_identities : Value
candidate_identities = dict_of (
    ("total", int (pos 8))
    ∷ (
      "identities",
      list (
          to_items (
            (dict_of (
              ("id", str "LGBM12-UNIFORM")
              ∷ ("base_configuration", str "LGBM12")
              ∷ ("weight_policy", str "UNIFORM")
              ∷ []))
            ∷ (dict_of (
                ("id", str "LGBM12-EXP120")
                ∷ ("base_configuration", str "LGBM12")
                ∷ ("weight_policy", str "EXPONENTIAL_120D")
                ∷ []))
            ∷ (dict_of (
                ("id", str "LGBM10-UNIFORM")
                ∷ ("base_configuration", str "LGBM10")
                ∷ ("weight_policy", str "UNIFORM")
                ∷ []))
            ∷ (dict_of (
                ("id", str "LGBM10-EXP120")
                ∷ ("base_configuration", str "LGBM10")
                ∷ ("weight_policy", str "EXPONENTIAL_120D")
                ∷ []))
            ∷ (dict_of (
                ("id", str "CB07-UNIFORM")
                ∷ ("base_configuration", str "CB07")
                ∷ ("weight_policy", str "UNIFORM")
                ∷ []))
            ∷ (dict_of (
                ("id", str "CB07-EXP120")
                ∷ ("base_configuration", str "CB07")
                ∷ ("weight_policy", str "EXPONENTIAL_120D")
                ∷ []))
            ∷ (dict_of (
                ("id", str "CB04-UNIFORM")
                ∷ ("base_configuration", str "CB04")
                ∷ ("weight_policy", str "UNIFORM")
                ∷ []))
            ∷ (dict_of (
                ("id", str "CB04-EXP120")
                ∷ ("base_configuration", str "CB04")
                ∷ ("weight_policy", str "EXPONENTIAL_120D")
                ∷ []))
            ∷ [])),
    )
    ∷ [])

abbrev pub execution_policy : Value
execution_policy = dict_of (
    ("sequential_candidate_execution", bool true)
    ∷ ("lightgbm_screening", dict_of (("backend", str "CPU") ∷ ("n_jobs", int (pos 20)) ∷ []))
    ∷ (
      "catboost_screening",
      dict_of (
          ("backend", str "GPU")
          ∷ ("task_type", str "GPU")
          ∷ ("devices", str "0")
          ∷ ("concurrent_gpu_fits", bool false)
          ∷ []),
    )
    ∷ (
      "cpu_confirmation",
      dict_of (("authoritative_for_advancement", bool true) ∷ ("backend", str "CPU") ∷ []),
    )
    ∷ ("backend_excluded_from_candidate_identity", bool true)
    ∷ ("stage_runtime_logging_required", bool true)
    ∷ ("dry_run_estimate_required_before_apply", bool true)
    ∷ [])
