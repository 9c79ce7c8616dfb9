-- ===== src/Modeling/Protocol/Stages.antt =====
-- src/flight_delay/modeling/v3/protocol.py: the folds, the search, the advancement and the execution policy.
pub mod Contiguous
use us_flight_delay_mlops.Prelude.{
  ◌≡◌, refl, ℕ, Bool, true, false, not, ◌&&◌, ◌||◌, Option, none, some, List, [], ◌∷◌, ◌++◌, map,
  String, all, any, length, ◌==◌, ◌=ₛ◌, if◌then◌else◌,
}
use us_flight_delay_mlops.Prelude.Int.{pos, negsuc}
use us_flight_delay_mlops.Prelude.Text.{codes, join}
use us_flight_delay_mlops.Prelude.Names.{member, distinct, same_names}
use us_flight_delay_mlops.Python.Equal.{eq_value}
use us_flight_delay_mlops.Python.Result.{Result, ok, err, ◌>>=◌, ◌>>◌, or_raise, raise_if, require}
use us_flight_delay_mlops.Python.Value.{
  Value, Items, Fields, null, bool, int, float, str, list, tuple, dict, nil, cons, end, field, get,
  get_or, keys, as_str, as_dict,
}
use us_flight_delay_mlops.Modeling.Checks.{
  ProtocolError, refused, attribute_error, index_error, key_error, type_error, must_prohibit,
  not_a_mapping, unpaired, mismatched, unreadable, section, as_mapping, expect, expects, text_list,
  identified, column, each_row,
}
use us_flight_delay_mlops.Modeling.Protocol.{
  protocol_id, protocol_sha256, protocol_lock_sha256, base_git_sha, v2_protocol_sha256,
  processed_features, deterministic_seasonal_features, v2_historical_features,
  seasonal_historical_features, v3_features, categorical_features, dyadic,
  lightgbm_common_parameters, catboost_common_parameters, weight_policy_ids, base_configuration_ids,
  candidate_identity_ids, calibration_variants, candidate_ranking_order, fold_ids,
  exponential_half_life_days, thanksgiving_window_range, christmas_window_range, day_distance_clip,
  list_of, is_in,
}

abbrev pub cutoffs : Value
cutoffs = text_list ("2025-07-31" ∷ "2025-08-31" ∷ "2025-09-30" ∷ "2025-10-31" ∷ [])

-- the body of the loop over the folds
unfoldable pub contiguous_fold : Fields → Result ProtocolError (Unit {0})
contiguous_fold row = do
  expect (get_or "fit_start" null row) (str "2024-02-01") "fold fit start"
  require (eq_value (get_or "fit_end_exclusive" null row) (get_or "evaluation_start" null row))
      (refused "fold fit and evaluation periods must be contiguous")

-- `_validate_stages`, the folds
unfoldable pub validate_folds : Fields → Result ProtocolError (Unit {0})
validate_folds protocol = do
  rolling ← section "rolling_origin" protocol "rolling origin"
  folds ← identified (get_or "folds" null rolling) "id" fold_ids "rolling fold identities drifted"
  expect (column "evaluation_state_as_of" folds) cutoffs "rolling feature-state cutoffs"
  expect (column "fit_cutoff_inclusive" folds) cutoffs "rolling fit cutoffs"
  each_row contiguous_fold folds

-- the metric and the advancement
unfoldable pub validate_advancement : Fields → Result ProtocolError (Unit {0})
validate_advancement protocol = do
  metric ← section "search_metric" protocol "search metric"
  expects metric (
      (
        "threshold_constraints",
        dict (
            field "recall_min" (dyadic 5404319552844595 53)
              (field "predicted_positive_rate_max" (dyadic 1 1) end)),
        "search threshold constraints",
      )
      ∷ ("candidate_ranking", text_list candidate_ranking_order, "candidate ranking")
      ∷ [])
  advancement ← section "advancement" protocol "advancement"
  screening ← section "screening" advancement "screening"
  expects screening (
      ("total_identities", int (pos 8), "screening identity count")
      ∷ ("top_per_family_to_cpu_confirmation", int (pos 2), "screening advancement")
      ∷ [])
  confirmation ← section "cpu_confirmation" advancement "confirmation"
  expects confirmation (
      ("total_identities", int (pos 4), "confirmation identity count")
      ∷ ("top_per_family_to_full_refit", int (pos 1), "confirmation advancement")
      ∷ ("authoritative_for_advancement", bool true, "CPU authority")
      ∷ [])
  refit ← section "full_refit" advancement "full refit"
  expects refit (
      ("total_bases", int (pos 2), "full refit base count")
      ∷ ("full_eligible_rows", bool true, "full refit row rule")
      ∷ ("backend", str "CPU", "full refit backend")
      ∷ ("end_exclusive", str "2025-11-01", "full refit end")
      ∷ [])

-- the sampling and the execution policy
unfoldable pub validate_execution : Fields → Result ProtocolError (Unit {0})
validate_execution protocol = do
  sampling ← section "sampling" protocol "sampling"
  expects sampling (
      ("search_rows_per_month_max", int (pos 50000), "search sampling cap")
      ∷ ("sample_seed", int (pos 42), "sample seed")
      ∷ ("historical_lookup_inputs", str "full_eligible_prior_history", "state inputs")
      ∷ ("final_refit_inputs", str "full_eligible_model_rows", "refit inputs")
      ∷ [])
  policy ← section "execution_policy" protocol "execution policy"
  expects policy (("sequential_candidate_execution", bool true, "sequential execution") ∷ [])
  catboost_screening ← section "catboost_screening" policy "CatBoost GPU"
  expects catboost_screening (("task_type", str "GPU", "CatBoost screening backend") ∷ [])
  catboost_screening ← section "catboost_screening" policy "CatBoost GPU"
  expects catboost_screening (("concurrent_gpu_fits", bool false, "sequential GPU rule") ∷ [])
  lightgbm_screening ← section "lightgbm_screening" policy "LightGBM CPU"
  expects lightgbm_screening (("backend", str "CPU", "LightGBM screening backend") ∷ [])
  expects policy (
      ("backend_excluded_from_candidate_identity", bool true, "backend identity rule")
      ∷ ("stage_runtime_logging_required", bool true, "runtime logging rule")
      ∷ ("dry_run_estimate_required_before_apply", bool true, "dry-run rule")
      ∷ [])

unfoldable pub validate_stages : Fields → Result ProtocolError (Unit {0})
validate_stages protocol = do
  validate_folds protocol
  validate_advancement protocol
  validate_execution protocol
