-- ===== src/Modeling/Protocol/Frozen.antt =====
-- The governed protocol (configs/v3_experiment_protocol.yaml) with the keys that its validation reads.
mod Data
mod Contract
mod Candidates
mod Search
mod Rules
use us_flight_delay_mlops.Prelude.{true, false, none, some, List, [], ◌∷◌, String}
use us_flight_delay_mlops.Prelude.Int.{pos, negsuc}
use us_flight_delay_mlops.Python.Value.{
  Value, Fields, null, bool, int, str, list, dict, end, to_items, fields_of, dict_of, as_dict,
  get_or,
}
use us_flight_delay_mlops.Modeling.Checks.{text_list}
use us_flight_delay_mlops.Modeling.Protocol.{
  dyadic, protocol_id, protocol_sha256, base_git_sha, v2_protocol_sha256, v3_features,
}
use us_flight_delay_mlops.Modeling.Protocol.Frozen.Data.{
  state, motivation, dependencies, data_expansion, development_data, prohibited_periods,
}
use us_flight_delay_mlops.Modeling.Protocol.Frozen.Contract.{
  feature_contract, deterministic_seasonal_semantics, historical_feature_state,
}
use us_flight_delay_mlops.Modeling.Protocol.Frozen.Candidates.{
  weight_policies, sampling, carried_forward_configurations, candidate_identities, execution_policy,
}
use us_flight_delay_mlops.Modeling.Protocol.Frozen.Search.{
  rolling_origin, search_metric, advancement, calibration, ensembles, finalists,
}
use us_flight_delay_mlops.Modeling.Protocol.Frozen.Rules.{
  november_selection, december_qualification, fresh_final, release,
}

-- `section[key]`
abbrev at : String → Value → Value
at key v = elim (as_dict v) [ none ↦ null | some fs ↦ get_or key null fs ]

abbrev pub protocol : Fields
protocol = fields_of (
    ("schema_version", int (pos 1))
    ∷ ("protocol_id", str "us-flight-delay-v3-seasonal-temporal-generalization-v1")
    ∷ ("state", state)
    ∷ ("motivation", motivation)
    ∷ ("dependencies", dependencies)
    ∷ ("data_expansion", data_expansion)
    ∷ ("development_data", development_data)
    ∷ ("prohibited_periods", prohibited_periods)
    ∷ ("feature_contract", feature_contract)
    ∷ ("deterministic_seasonal_semantics", deterministic_seasonal_semantics)
    ∷ ("historical_feature_state", historical_feature_state)
    ∷ ("weight_policies", weight_policies)
    ∷ ("sampling", sampling)
    ∷ ("carried_forward_configurations", carried_forward_configurations)
    ∷ ("candidate_identities", candidate_identities)
    ∷ ("execution_policy", execution_policy)
    ∷ ("rolling_origin", rolling_origin)
    ∷ ("search_metric", search_metric)
    ∷ ("advancement", advancement)
    ∷ ("calibration", calibration)
    ∷ ("ensembles", ensembles)
    ∷ ("finalists", finalists)
    ∷ ("november_selection", november_selection)
    ∷ ("december_qualification", december_qualification)
    ∷ ("fresh_final", fresh_final)
    ∷ ("release", release)
    ∷ [])

-- experiments/v3/protocol_lock.json, with the keys that the validation reads and `digest` for the
-- digests that it computes
abbrev pub lock_of : String → Fields
lock_of digest = fields_of (
    ("protocol_sha256", str protocol_sha256)
    ∷ ("protocol_id", str protocol_id)
    ∷ ("base_git_sha", str base_git_sha)
    ∷ ("v2_protocol_sha256", str v2_protocol_sha256)
    ∷ ("training_started", bool false)
    ∷ ("results_exist", bool false)
    ∷ ("wandb_runs_created", bool false)
    ∷ ("december_opened", bool false)
    ∷ ("historical_test_accessed", bool false)
    ∷ ("production_registry_version", str "v0")
    ∷ ("feature_schema", text_list v3_features)
    ∷ ("feature_schema_sha256", str digest)
    ∷ ("weight_policies", at "policies" weight_policies)
    ∷ ("base_configurations", at "base_configurations" carried_forward_configurations)
    ∷ ("base_configurations_sha256", str digest)
    ∷ ("candidate_identities", at "identities" candidate_identities)
    ∷ ("candidate_identities_sha256", str digest)
    ∷ ("ensembles", at "weights" ensembles)
    ∷ [])
