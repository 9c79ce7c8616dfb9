-- ===== src/Modeling/Protocol/Governance.antt =====
-- src/flight_delay/modeling/v3/protocol.py: the periods, the gates and the release rules.
pub mod Sealed
use us_flight_delay_mlops.Prelude.{
  ◌≡◌, refl, ℕ, Bool, true, false, not, ◌&&◌, ◌||◌, Option, none, some, List, [], ◌∷◌, ◌++◌, map,
  String, all, any, length, ◌==◌, ◌=ₛ◌, if◌then◌else◌,
}
use us_flight_delay_mlops.Prelude.Int.{pos, negsuc}
use us_flight_delay_mlops.Prelude.Text.{codes, join}
use us_flight_delay_mlops.Prelude.Names.{member, distinct, same_names}
use us_flight_delay_mlops.Python.Equal.{eq_value}
use us_flight_delay_mlops.Python.Result.{Result, ok, err, ◌>>=◌, ◌>>◌, or_raise, raise_if, require}
use us_flight_delay_mlops.Python.Value.{
  Value, Items, Fields, null, bool, int, float, str, list, tuple, dict, nil, cons, end, field, get,
  get_or, keys, as_str, as_dict,
}
use us_flight_delay_mlops.Modeling.Checks.{
  ProtocolError, refused, attribute_error, index_error, key_error, type_error, must_prohibit,
  not_a_mapping, unpaired, mismatched, unreadable, section, as_mapping, expect, expects, text_list,
  identified, column, each_row,
}
use us_flight_delay_mlops.Modeling.Protocol.{
  protocol_id, protocol_sha256, protocol_lock_sha256, base_git_sha, v2_protocol_sha256,
  processed_features, deterministic_seasonal_features, v2_historical_features,
  seasonal_historical_features, v3_features, categorical_features, dyadic,
  lightgbm_common_parameters, catboost_common_parameters, weight_policy_ids, base_configuration_ids,
  candidate_identity_ids, calibration_variants, candidate_ranking_order, fold_ids,
  exponential_half_life_days, thanksgiving_window_range, christmas_window_range, day_distance_clip,
  list_of, is_in,
}

-- the loop over the actions that December must prohibit
unfoldable pub prohibits : Value → List String → Result ProtocolError (Unit {0})
prohibits actions [] = ok tt
prohibits actions (action ∷ rest) = do
  items ← list_of actions
  require (is_in (str action) items) (must_prohibit action)
  prohibits actions rest

-- `_validate_governance`, the development data and the periods
unfoldable pub validate_periods : Fields → Result ProtocolError (Unit {0})
validate_periods protocol = do
  development ← section "development_data" protocol "development data"
  expects development (
      ("start", str "2024-01-01", "development start")
      ∷ ("end_exclusive", str "2025-12-01", "development end")
      ∷ [])
  burn_in ← section "burn_in" development "burn-in"
  expects burn_in (("contributes_model_rows", bool false, "January 2024 burn-in rule") ∷ [])
  model_period ← section "model_period" development "model period"
  expects model_period (("start", str "2024-02-01", "model period start") ∷ [])
  expects development
      (("december_2025_decoded_during_development", bool false, "December decode rule") ∷ [])
  forbidden ← list_of (get_or "forbidden_sources" null development)
  require (is_in (str "data/processed/test.parquet") forbidden)
      (refused "the sealed 2026 test split must remain a forbidden source")
  prohibited ← section "prohibited_periods" protocol "prohibited periods"
  december_2025 ← section "december_2025" prohibited "December"
  expects december_2025 (("development_access_prohibited", bool true, "December access rule") ∷ [])
  historical ← section "historical_test_2026" prohibited "2026 test"
  expects historical (
      ("access_prohibited", bool true, "2026 access rule")
      ∷ ("excluded_from_v3_source_manifest", bool true, "2026 manifest exclusion")
      ∷ [])

-- the selection of November
unfoldable pub validate_november : Fields → Result ProtocolError (Unit {0})
validate_november protocol = do
  november ← section "november_selection" protocol "November selection"
  gates ← section "acceptance_gates" november "November gates"
  expects gates (
      ("gates_relaxed_from_v2", bool false, "gate relaxation rule")
      ∷ (
        "operating_point",
        dict (
            field "recall_min" (dyadic 5404319552844595 53) (
              field "precision_min" (dyadic 5404319552844595 54) (
                field "f1_min" (dyadic 3422735716801577 53)
                  (field "predicted_positive_rate_max" (dyadic 1 1) end)))),
        "November operating gates",
      )
      ∷ [])
  threshold_objective ← section "threshold_objective" november "threshold objective"
  expects threshold_objective (
      (
        "eligibility",
        dict (
            field "recall_min" (dyadic 5404319552844595 53) (
              field "precision_min" (dyadic 5404319552844595 54)
                (field "predicted_positive_rate_max" (dyadic 1 1) end))),
        "November eligibility",
      )
      ∷ [])
  expects november (
      ("every_gate_mandatory", bool true, "mandatory gate rule")
      ∷ ("zero_pass_outcome", str "governed_stop_retain_production_v0", "governed stop")
      ∷ [])

-- the qualification of December and the final test
unfoldable pub validate_december : Fields → Result ProtocolError (Unit {0})
validate_december protocol = do
  december ← section "december_qualification" protocol "December qualification"
  expects december (
      ("development_may_open", bool false, "December development rule")
      ∷ ("separate_cli_required", bool true, "December CLI rule")
      ∷ ("evaluation_count", int (pos 1), "December evaluation count")
      ∷ [])
  prohibits (get_or "prohibited_actions" null december)
      ("refitting" ∷ "recalibration" ∷ "threshold_change" ∷ "candidate_switching" ∷ [])
  fresh ← section "fresh_final" protocol "fresh final"
  expects fresh (
      ("earliest_eligible_date_strictly_after", str "2026-05-31", "fresh final bound")
      ∷ ("access_count_during_protocol_and_implementation", int (pos 0), "fresh final access")
      ∷ [])

-- the release and the data
unfoldable pub validate_release : Fields → Result ProtocolError (Unit {0})
validate_release protocol = do
  release ← section "release" protocol "release"
  expects release (
      ("production_version_after_v3_development", str "v0", "production version")
      ∷ ("production_alias_mutation", bool false, "production alias rule")
      ∷ ("runtime_images_unchanged", bool true, "runtime image rule")
      ∷ ("runtime_images_gain_v3_modeling_dependencies", bool false, "runtime dependency rule")
      ∷ [])
  expansion ← section "data_expansion" protocol "data expansion"
  expects expansion (
      ("added_calendar_year", int (pos 2024), "added year")
      ∷ ("v0_v1_v2_manifests_mutated", bool false, "manifest immutability")
      ∷ ("reused_2025_archives_byte_identical_to_v0", bool true, "2025 archive identity")
      ∷ ("monthly_sample_cap", null, "v3 preparation sample cap")
      ∷ [])

unfoldable pub validate_governance : Fields → Result ProtocolError (Unit {0})
validate_governance protocol = do
  validate_periods protocol
  validate_november protocol
  validate_december protocol
  validate_release protocol
