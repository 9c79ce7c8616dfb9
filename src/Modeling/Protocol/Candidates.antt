-- ===== src/Modeling/Protocol/Candidates.antt =====
-- src/flight_delay/modeling/v3/protocol.py: the configurations carried forward and the candidate identities.
pub mod Named
use us_flight_delay_mlops.Prelude.{
  ◌≡◌, refl, ℕ, Bool, true, false, not, ◌&&◌, ◌||◌, Option, none, some, List, [], ◌∷◌, ◌++◌, map,
  String, all, any, length, ◌==◌, ◌=ₛ◌, if◌then◌else◌,
}
use us_flight_delay_mlops.Prelude.Int.{pos, negsuc}
use us_flight_delay_mlops.Prelude.Text.{codes, join}
use us_flight_delay_mlops.Prelude.Names.{member, distinct, same_names}
use us_flight_delay_mlops.Python.Equal.{eq_value}
use us_flight_delay_mlops.Python.Result.{Result, ok, err, ◌>>=◌, ◌>>◌, or_raise, raise_if, require}
use us_flight_delay_mlops.Python.Value.{
  Value, Items, Fields, null, bool, int, float, str, list, tuple, dict, nil, cons, end, field, get,
  get_or, keys, as_str, as_dict,
}
use us_flight_delay_mlops.Modeling.Checks.{
  ProtocolError, refused, attribute_error, index_error, key_error, type_error, must_prohibit,
  not_a_mapping, unpaired, mismatched, unreadable, section, as_mapping, expect, expects, text_list,
  identified, column, each_row,
}
use us_flight_delay_mlops.Modeling.Protocol.{
  protocol_id, protocol_sha256, protocol_lock_sha256, base_git_sha, v2_protocol_sha256,
  processed_features, deterministic_seasonal_features, v2_historical_features,
  seasonal_historical_features, v3_features, categorical_features, dyadic,
  lightgbm_common_parameters, catboost_common_parameters, weight_policy_ids, base_configuration_ids,
  candidate_identity_ids, calibration_variants, candidate_ranking_order, fold_ids,
  exponential_half_life_days, thanksgiving_window_range, christmas_window_range, day_distance_clip,
  list_of, is_in,
}

-- the body of the loop over the base configurations
unfoldable pub hyperparameters_only : Fields → Result ProtocolError (Unit {0})
hyperparameters_only row =
    raise_if
      (any (λ key. member key (keys row))
        ("task_type" ∷ "devices" ∷ "n_jobs" ∷ "weight_policy" ∷ []))
      (refused "backend or weight policy cannot enter hyperparameter identity")

-- `value in known`, where a dict or a list has no hash
unfoldable pub in_set : Value → List String → Result ProtocolError Bool
in_set (str s) names = ok (member s names)
in_set (list vs) names = err type_error
in_set (dict fs) names = err type_error
in_set v names = ok false

-- `value in names`, a tuple of text_list
unfoldable pub in_tuple : Value → List String → Bool
in_tuple (str s) names = member s names
in_tuple v names = false

-- `WEIGHT_POLICY_SUFFIX[policy]`
unfoldable pub weight_policy_suffix : String → Result ProtocolError String
weight_policy_suffix policy =
    if policy =ₛ "UNIFORM"
    then ok "UNIFORM"
    else if policy =ₛ "EXPONENTIAL_120D"
    then ok "EXP120"
    else err key_error

-- `shown` is `str(v)` of a value that is no text.
module _ (shown : Value → String) where
  abbrev pub text_form : Value → String
  text_form (str s) = s
  text_form v = shown v

  -- the body of the loop over the identities
  unfoldable pub candidate_identity : Fields → Result ProtocolError (Unit {0})
  candidate_identity row = do
    let base = get_or "base_configuration" null row
    let policy = get_or "weight_policy" null row
    known ← in_set base base_configuration_ids
    require known (refused "candidate identity references an unknown base configuration")
    require (in_tuple policy weight_policy_ids)
        (refused "candidate identity references an unknown weight policy")
    suffix ← weight_policy_suffix (text_form policy)
    name ← or_raise (get "id" row) key_error
    require (text_form name =ₛ join (text_form base) (join "-" suffix))
        (refused "candidate identity ID does not match its components")

-- `canonical_sha256` is the digest of a value.
module _ (shown : Value → String) (canonical_sha256 : Value → String) where
  -- `_validate_candidates`
  unfoldable pub validate_candidates : Fields → Fields → Result ProtocolError (Unit {0})
  validate_candidates protocol lock = do
    carried ← section "carried_forward_configurations" protocol "carried configurations"
    expects carried (
        ("hyperparameters_unchanged_from_v2", bool true, "v2 hyperparameter reuse")
        ∷ ("new_hyperparameter_search_performed", bool false, "no-new-search rule")
        ∷ ("source_protocol_sha256", str v2_protocol_sha256, "v2 source protocol digest")
        ∷ ("lightgbm_common_parameters", lightgbm_common_parameters, "LightGBM common parameters")
        ∷ ("catboost_common_parameters", catboost_common_parameters, "CatBoost common parameters")
        ∷ [])
    let bases = get_or "base_configurations" null carried
    base_rows ←
        identified bases "id" base_configuration_ids
          "carried-forward base configuration identities drifted"
    expects lock (
        ("base_configurations", bases, "locked base configurations")
        ∷ ("base_configurations_sha256", str (canonical_sha256 bases), "base configuration digest")
        ∷ [])
    each_row hyperparameters_only base_rows
    identities ← section "candidate_identities" protocol "candidate identities"
    expects identities (("total", int (pos 8), "candidate identity count") ∷ [])
    let rows = get_or "identities" null identities
    identity_rows ← identified rows "id" candidate_identity_ids "v3 candidate identities drifted"
    each_row (candidate_identity shown) identity_rows
    expects lock (
        ("candidate_identities", rows, "locked candidate identities")
        ∷ ("candidate_identities_sha256", str (canonical_sha256 rows), "candidate identity digest")
        ∷ [])
