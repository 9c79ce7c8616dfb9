-- ===== src/Modeling/Protocol/Frozen/Rules.antt =====
-- The governed protocol (configs/v3_experiment_protocol.yaml) with the keys that its validation reads:
-- the gates and the release.
use us_flight_delay_mlops.Prelude.{true, false, [], ◌∷◌}
use us_flight_delay_mlops.Prelude.Int.{pos}
use us_flight_delay_mlops.Python.Value.{Value, bool, int, str, dict_of}
use us_flight_delay_mlops.Modeling.Checks.{text_list}
use us_flight_delay_mlops.Modeling.Protocol.{dyadic}

abbrev pub november_selection : Value
november_selection = dict_of (
    (
      "threshold_objective",
      dict_of (
          (
            "eligibility",
            dict_of (
                ("recall_min", dyadic 5404319552844595 53)
                ∷ ("precision_min", dyadic 5404319552844595 54)
                ∷ ("predicted_positive_rate_max", dyadic 1 1)
                ∷ []),
          )
          ∷ ("objective", str "maximize_f1")
          ∷ []),
    )
    ∷ (
      "acceptance_gates",
      dict_of (
          ("gates_relaxed_from_v2", bool false)
          ∷ (
            "operating_point",
            dict_of (
                ("recall_min", dyadic 5404319552844595 53)
                ∷ ("precision_min", dyadic 5404319552844595 54)
                ∷ ("f1_min", dyadic 3422735716801577 53)
                ∷ ("predicted_positive_rate_max", dyadic 1 1)
                ∷ []),
          )
          ∷ []),
    )
    ∷ ("every_gate_mandatory", bool true)
    ∷ ("zero_pass_outcome", str "governed_stop_retain_production_v0")
    ∷ [])

abbrev pub december_qualification : Value
december_qualification = dict_of (
    ("development_may_open", bool false)
    ∷ ("separate_cli_required", bool true)
    ∷ ("evaluation_count", int (pos 1))
    ∷ (
      "prohibited_actions",
      text_list (
          "retraining" ∷ "refitting" ∷ "recalibration" ∷ "threshold_change"
          ∷ "historical_state_update" ∷ "candidate_switching" ∷ "gate_change" ∷ []),
    )
    ∷ [])

abbrev pub fresh_final : Value
fresh_final = dict_of (
    ("earliest_eligible_date_strictly_after", str "2026-05-31")
    ∷ ("access_count_during_protocol_and_implementation", int (pos 0))
    ∷ [])

abbrev pub release : Value
release = dict_of (
    ("production_alias_mutation", bool false)
    ∷ ("production_version_after_v3_development", str "v0")
    ∷ ("runtime_images_unchanged", bool true)
    ∷ ("runtime_images_gain_v3_modeling_dependencies", bool false)
    ∷ [])
