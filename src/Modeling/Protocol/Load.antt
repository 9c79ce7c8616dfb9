-- ===== src/Modeling/Protocol/Load.antt =====
-- src/flight_delay/modeling/v3/protocol.py: the validation of the whole.
pub mod Governed
use us_flight_delay_mlops.Prelude.{
  ◌≡◌, refl, ℕ, Bool, true, false, not, ◌&&◌, ◌||◌, Option, none, some, List, [], ◌∷◌, ◌++◌, map,
  String, all, any, length, ◌==◌, ◌=ₛ◌, if◌then◌else◌,
}
use us_flight_delay_mlops.Prelude.Int.{pos, negsuc}
use us_flight_delay_mlops.Prelude.Text.{codes, join}
use us_flight_delay_mlops.Prelude.Names.{member, distinct, same_names}
use us_flight_delay_mlops.Python.Equal.{eq_value}
use us_flight_delay_mlops.Python.Result.{Result, ok, err, ◌>>=◌, ◌>>◌, or_raise, raise_if, require}
use us_flight_delay_mlops.Python.Value.{
  Value, Items, Fields, null, bool, int, float, str, list, tuple, dict, nil, cons, end, field, get,
  get_or, keys, as_str, as_dict,
}
use us_flight_delay_mlops.Modeling.Checks.{
  ProtocolError, refused, attribute_error, index_error, key_error, type_error, must_prohibit,
  not_a_mapping, unpaired, mismatched, unreadable, section, as_mapping, expect, expects, text_list,
  identified, column, each_row,
}
use us_flight_delay_mlops.Modeling.Protocol.{
  protocol_id, protocol_sha256, protocol_lock_sha256, base_git_sha, v2_protocol_sha256,
  processed_features, deterministic_seasonal_features, v2_historical_features,
  seasonal_historical_features, v3_features, categorical_features, dyadic,
  lightgbm_common_parameters, catboost_common_parameters, weight_policy_ids, base_configuration_ids,
  candidate_identity_ids, calibration_variants, candidate_ranking_order, fold_ids,
  exponential_half_life_days, thanksgiving_window_range, christmas_window_range, day_distance_clip,
  list_of, is_in,
}
use us_flight_delay_mlops.Modeling.Protocol.Features.{
  validate_feature_contract, validate_seasonal_semantics,
}
use us_flight_delay_mlops.Modeling.Protocol.Weights.{validate_weight_policies}
use us_flight_delay_mlops.Modeling.Protocol.Candidates.{validate_candidates}
use us_flight_delay_mlops.Modeling.Protocol.Ensembles.{validate_ensembles}
use us_flight_delay_mlops.Modeling.Protocol.Stages.{validate_stages}
use us_flight_delay_mlops.Modeling.Protocol.Governance.{validate_governance}
use us_flight_delay_mlops.Modeling.Protocol.Tree.{File, validate_dependency_tree}

-- a file that is read: its digest, and its value where it can be parsed
pub record Source : Type 0 where
  pub sha256 : String
  pub parsed : Option Value

-- `canonical_sha256` is the digest of a value, `shown` is `str(v)` of a value that is no text.
module _ (shown : Value → String) (canonical_sha256 : Value → String) where
  -- `_validate_semantics`
  unfoldable pub validate_semantics : Fields → Fields → Result ProtocolError (Unit {0})
  validate_semantics protocol lock = do
    expects protocol (
        ("schema_version", int (pos 1), "schema version")
        ∷ ("protocol_id", str protocol_id, "protocol ID")
        ∷ [])
    state ← section "state" protocol "state"
    expects state (
        ("training_started", bool false, "training marker")
        ∷ ("results_exist", bool false, "results marker")
        ∷ ("wandb_runs_created", bool false, "W&B marker")
        ∷ ("december_opened", bool false, "December marker")
        ∷ ("historical_test_accessed", bool false, "historical-test marker")
        ∷ [])
    dependencies ← section "dependencies" protocol "dependencies"
    expects dependencies (("base_git_sha", str base_git_sha, "base Git SHA") ∷ [])
    motivation ← section "motivation" protocol "motivation"
    expects motivation (
        ("gates_weakened", bool false, "gate weakening rule")
        ∷ ("broad_hyperparameter_campaign", bool false, "hyperparameter campaign rule")
        ∷ ("additional_model_families_added", bool false, "model family rule")
        ∷ [])
    validate_feature_contract protocol
    validate_seasonal_semantics protocol
    validate_weight_policies protocol lock
    validate_candidates shown canonical_sha256 protocol lock
    validate_ensembles protocol lock
    validate_stages protocol
    validate_governance protocol

  module _ (find : String → Option File) where
    -- `load_and_validate_v3_protocol`
    unfoldable pub load_and_validate_v3_protocol :
        Source → Source → Result ProtocolError (Fields × Fields × String)
    load_and_validate_v3_protocol protocol_file lock_file = do
      parsed ← or_raise protocol_file.parsed (refused "v3 protocol or lock is unreadable")
      parsed_lock ← or_raise lock_file.parsed (refused "v3 protocol or lock is unreadable")
      protocol ← as_mapping parsed "protocol"
      lock ← as_mapping parsed_lock "protocol lock"
      let protocol_sha = protocol_file.sha256
      expect (str protocol_sha) (str protocol_sha256) "canonical protocol SHA256"
      expect (str lock_file.sha256) (str protocol_lock_sha256) "protocol-lock SHA256"
      expects lock (
          ("protocol_sha256", str protocol_sha, "lock protocol SHA256")
          ∷ ("protocol_id", str protocol_id, "lock protocol ID")
          ∷ ("base_git_sha", str base_git_sha, "lock base Git SHA")
          ∷ ("v2_protocol_sha256", str v2_protocol_sha256, "lock v2 protocol SHA256")
          ∷ ("training_started", bool false, "lock training marker")
          ∷ ("results_exist", bool false, "lock results marker")
          ∷ ("wandb_runs_created", bool false, "lock W&B marker")
          ∷ ("december_opened", bool false, "lock December marker")
          ∷ ("historical_test_accessed", bool false, "lock historical-test marker")
          ∷ ("production_registry_version", str "v0", "lock production version")
          ∷ ("feature_schema", text_list v3_features, "lock feature schema")
          ∷ ("feature_schema_sha256", str (canonical_sha256 (text_list v3_features)), "lock schema")
          ∷ [])
      validate_semantics protocol lock
      validate_dependency_tree shown find (get_or "dependencies" null protocol) "dependencies"
      ok (protocol, lock, protocol_sha)
