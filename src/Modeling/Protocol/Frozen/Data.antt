-- ===== src/Modeling/Protocol/Frozen/Data.antt =====
-- The governed protocol (configs/v3_experiment_protocol.yaml) with the keys that its validation reads:
-- the data and the periods.
use us_flight_delay_mlops.Prelude.{true, false, [], ◌∷◌}
use us_flight_delay_mlops.Prelude.Int.{pos}
use us_flight_delay_mlops.Python.Value.{Value, null, bool, int, str, dict_of}
use us_flight_delay_mlops.Modeling.Checks.{text_list}

abbrev pub state : Value
state = dict_of (
    ("training_started", bool false)
    ∷ ("results_exist", bool false)
    ∷ ("wandb_runs_created", bool false)
    ∷ ("december_opened", bool false)
    ∷ ("historical_test_accessed", bool false)
    ∷ [])

abbrev pub motivation : Value
motivation = dict_of (
    ("gates_weakened", bool false)
    ∷ ("additional_model_families_added", bool false)
    ∷ ("broad_hyperparameter_campaign", bool false)
    ∷ [])

abbrev pub dependencies : Value
dependencies = dict_of (
    ("base_git_sha", str "6966562dcc2a7959f27e662e97cfeec8a4aa43a6")
    ∷ (
      "immutable_v1",
      dict_of (
          (
            "protocol",
            dict_of (
                ("path", str "configs/v1_experiment_protocol.yaml")
                ∷ ("sha256", str "a6b1de9de550d1bd94eae0e56f8d88d65801ec488b6c539fc64afbafa4ccfffb")
                ∷ []),
          )
          ∷ []),
    )
    ∷ (
      "deployment_manifest",
      dict_of (
          ("path", str "deploy/deployment_manifest.json")
          ∷ ("sha256", str "c7879091603db3a510c62236cfe35cb2f84e70980bc4a8b183dfcc2f19e2d8ed")
          ∷ []),
    )
    ∷ (
      "v3_source_manifest",
      dict_of (
          ("path", str "data/manifests/v3_source_manifest.json")
          ∷ ("sha256", str "b454c92289cc8cd7fe4c48c5e60dfb9baa6180e646331203cab53fc5c7ce13b1")
          ∷ (
            "manifest_digest",
            str "673cac214739e8c0d2991a1bdbd1591a90e8907d7cf5bdbc34caddd72015b6af",
          )
          ∷ []),
    )
    ∷ [])

abbrev pub data_expansion : Value
data_expansion = dict_of (
    ("added_calendar_year", int (pos 2024))
    ∷ ("v0_v1_v2_manifests_mutated", bool false)
    ∷ ("reused_2025_archives_byte_identical_to_v0", bool true)
    ∷ ("monthly_sample_cap", null)
    ∷ ("random_seed", int (pos 42))
    ∷ [])

abbrev pub development_data : Value
development_data = dict_of (
    ("start", str "2024-01-01")
    ∷ ("end_exclusive", str "2025-12-01")
    ∷ (
      "burn_in",
      dict_of (
          ("start", str "2024-01-01")
          ∷ ("end_exclusive", str "2024-02-01")
          ∷ ("contributes_model_rows", bool false)
          ∷ []),
    )
    ∷ (
      "model_period",
      dict_of (("start", str "2024-02-01") ∷ ("end_exclusive", str "2025-12-01") ∷ []),
    )
    ∷ (
      "forbidden_sources",
      text_list ("data/processed_v3/v3_december.parquet" ∷ "data/processed/test.parquet" ∷ []),
    )
    ∷ ("december_2025_decoded_during_development", bool false)
    ∷ [])

abbrev pub prohibited_periods : Value
prohibited_periods = dict_of (
    ("december_2025", dict_of (("development_access_prohibited", bool true) ∷ []))
    ∷ (
      "historical_test_2026",
      dict_of
          (("access_prohibited", bool true) ∷ ("excluded_from_v3_source_manifest", bool true) ∷ []),
    )
    ∷ [])
