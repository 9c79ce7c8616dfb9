-- ===== src/Modeling/Protocol/Ensembles.antt =====
-- src/flight_delay/modeling/v3/protocol.py: the ensembles, their calibration and the finalists.
use us_flight_delay_mlops.Prelude.{true, [], ◌∷◌, String}
use us_flight_delay_mlops.Prelude.Int.{pos}
use us_flight_delay_mlops.Python.Result.{Result, ◌>>=◌, ◌>>◌}
use us_flight_delay_mlops.Python.Value.{
  Value, Fields, null, bool, int, str, list, dict, nil, cons, end, field, get_or,
}
use us_flight_delay_mlops.Modeling.Checks.{ProtocolError, section, expect, expects, text_list}
use us_flight_delay_mlops.Modeling.Protocol.{dyadic, calibration_variants}

-- a row of `expected`, the CatBoost weight the rest to 1
unfoldable pub ensemble : String → Value → Value → Value
ensemble name lightgbm catboost = dict (
    field "id" (str name) (field "lightgbm_weight" lightgbm (field "catboost_weight" catboost end)))

-- `expected`, from `ENSEMBLE_WEIGHTS`
unfoldable pub expected_weights : Value
unfolding ensemble
expected_weights = list (
    cons (ensemble "ENS25" (dyadic 1 2) (dyadic 3 2)) (
      cons (ensemble "ENS50" (dyadic 1 1) (dyadic 1 1))
        (cons (ensemble "ENS75" (dyadic 3 2) (dyadic 1 2)) nil)))

-- `_validate_ensembles`
unfoldable pub validate_ensembles : Fields → Fields → Result ProtocolError (Unit {0})
validate_ensembles protocol lock = do
  ensembles ← section "ensembles" protocol "ensembles"
  expects ensembles (
      ("precommitted", bool true, "ensemble precommitment")
      ∷ ("post_result_definitions_prohibited", bool true, "post-result ensemble rule")
      ∷ ("additional_base_model_fits_required", int (pos 0), "ensemble refit rule")
      ∷ ("inputs", str "two_uncalibrated_authoritative_cpu_base_scores", "ensemble inputs")
      ∷ [])
  let weights = get_or "weights" null ensembles
  expect weights expected_weights "ensemble weights"
  expects ensembles
      (("variants", text_list calibration_variants, "ensemble calibration variants") ∷ [])
  expects lock (("ensembles", weights, "locked ensemble weights") ∷ [])
  calibration ← section "calibration" protocol "calibration"
  expects calibration (
      ("variants", text_list calibration_variants, "calibration variants")
      ∷ ("bases", int (pos 2), "calibration base count")
      ∷ ("base_frozen_before_calibration", bool true, "frozen base rule")
      ∷ ("november_feature_state_frozen_at", str "2025-10-31", "November state freeze")
      ∷ [])
  finalists ← section "finalists" protocol "finalists"
  expects finalists (("total", int (pos 15), "finalist count") ∷ [])
