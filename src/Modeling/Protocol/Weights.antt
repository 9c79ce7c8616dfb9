-- ===== src/Modeling/Protocol/Weights.antt =====
-- src/flight_delay/modeling/v3/protocol.py: the weight policies.
use us_flight_delay_mlops.Prelude.{true, false, List, [], ◌∷◌}
use us_flight_delay_mlops.Prelude.Int.{pos}
use us_flight_delay_mlops.Python.Result.{Result, ok, err, ◌>>=◌, ◌>>◌}
use us_flight_delay_mlops.Python.Value.{Fields, null, bool, int, str, get_or}
use us_flight_delay_mlops.Modeling.Checks.{ProtocolError, index_error, section, expects, identified}
use us_flight_delay_mlops.Modeling.Protocol.{weight_policy_ids, exponential_half_life_days}

-- `rows[1]`
unfoldable pub second : List Fields → Result ProtocolError Fields
second (a ∷ b ∷ rows) = ok b
second _ = err index_error

-- `_validate_weight_policies`
unfoldable pub validate_weight_policies : Fields → Fields → Result ProtocolError (Unit {0})
validate_weight_policies protocol lock = do
  policies ← section "weight_policies" protocol "weight policies"
  expects policies (
      ("precommitted_count", int (pos 2), "weight policy count")
      ∷ ("evaluation_rows_weighted", bool false, "evaluation weighting rule")
      ∷ ("calibration_rows_weighted", bool false, "calibration weighting rule")
      ∷ ("selection_rows_weighted", bool false, "selection weighting rule")
      ∷ ("weight_policy_is_part_of_candidate_identity", bool true, "weight identity rule")
      ∷ ("backend_excluded_from_candidate_identity", bool true, "backend identity rule")
      ∷ [])
  let rows = get_or "policies" null policies
  fields ← identified rows "id" weight_policy_ids "weight policy identities drifted"
  exponential ← second fields
  expects exponential (
      ("half_life_days", exponential_half_life_days, "half life")
      ∷ ("formula", str "0.5 ** (age_days / 120)", "weight formula")
      ∷ ("normalization", str "mean_1_within_fit_partition", "weight normalization")
      ∷ ("age_days_measured_backward_from_fit_cutoff", bool true, "age direction")
      ∷ [])
  expects lock (("weight_policies", rows, "locked weight policies") ∷ [])
