-- ===== src/Promotion/InputExamples.antt =====
-- Raw inputs of the promotion package: a candidate and a policy as JSON and YAML give them.
use us_flight_delay_mlops.Prelude.{ℕ, ◌≡◌, ◌↔◌, refl, true, false, List, [], ◌∷◌, String}
use us_flight_delay_mlops.Prelude.Int.{pos}
use us_flight_delay_mlops.Prelude.Sort.{sort_by}
use us_flight_delay_mlops.Prelude.Compare.{compare_codes}
use us_flight_delay_mlops.Prelude.Text.{codes, lower, starts_with, contains, leaf_of, decimal}
use us_flight_delay_mlops.Prelude.Names.{member, same_names, distinct, sorted}
use us_flight_delay_mlops.Python.Result.{ok, err, ◌>>=◌}
use us_flight_delay_mlops.Python.Float.{finite}
use us_flight_delay_mlops.Python.Value.{
  Value, Fields, str, int, bool, float, list, dict, end, field, nil, cons, get, keys,
}
use us_flight_delay_mlops.Promotion.Keys.{metadata, forbidden_key, is_forbidden, scan_keys}
use us_flight_delay_mlops.Promotion.Keys.Scan.{KeyAt, scan_keys_iff}
use us_flight_delay_mlops.Promotion.Candidates.{
  CandidateRecord, identity_field, gate_field, is_git_sha, from_mapping, normalize_metrics,
  alias_names, unknown_keys, missing_keys, size_field, metrics_field, alias_items,
}
use us_flight_delay_mlops.Promotion.Candidates.Valid.{
  IsValid, IsClean, from_mapping-IsValid, from_mapping-IsClean,
}
use us_flight_delay_mlops.Promotion.Policy.{
  PromotionPolicy, maximize, load_policy, mapping, nonempty_text, strings, string_items,
  ranking_rules, direction_of, is_final_test, gate_values, validate_target_alias,
}
use us_flight_delay_mlops.Promotion.Policy.Safe.{IsSafe, load_policy-IsSafe}

abbrev fragments : List String
fragments = "final_test" ∷ "sealed_test" ∷ []

abbrev prefixes : List String
prefixes = "test_" ∷ []

abbrev metrics : Fields
metrics = field "precision" (float (finite (pos 3))) end

-- a raw candidate with the given extra fields
abbrev candidate_with : Fields → Value
candidate_with rest = dict (
    field "candidate_id" (str "v1") (
      field "registry_path" (str "models/delay") (
        field "registry_version" (str "v1") (
          field "registry_digest" (str "d") (
            field "source_artifact_name" (str "delay") (
              field "source_artifact_version" (str "v1") (
                field "source_artifact_digest" (str "d") (
                  field "git_sha" (str "0123456789abcdef0123456789abcdef01234567") (
                    field "dataset_artifact" (str "flights") (
                      field "dataset_digest" (str "d1") (
                        field "feature_schema_sha256" (str "f1") (
                          field "evaluation_protocol" (str "p1") (
                            field "development_metrics" (dict metrics) (
                              field "bundle_size_bytes" (int (pos 1000)) (
                                field "release_eligible" (bool true) (
                                  field "lineage_verified" (bool true) (
                                    field "serialization_integrity" (bool true) (
                                      field "inference_compatible" (bool true)
                                        rest))))))))))))))))))

abbrev raw_candidate : Value
raw_candidate =
    candidate_with
      (field "aliases" (list (cons (str "b") (cons (str "a") (cons (str "b") nil)))) end)

abbrev parsed_candidate : CandidateRecord
parsed_candidate = record {
  candidate_id = "v1";
  registry_path = "models/delay";
  registry_version = "v1";
  registry_digest = "d";
  source_artifact_name = "delay";
  source_artifact_version = "v1";
  source_artifact_digest = "d";
  git_sha = "0123456789abcdef0123456789abcdef01234567";
  dataset_artifact = "flights";
  dataset_digest = "d1";
  feature_schema_sha256 = "f1";
  evaluation_protocol = "p1";
  development_metrics = ("precision", finite (pos 3)) ∷ [];
  bundle_size_bytes = pos 1000;
  release_eligible = true;
  lineage_verified = true;
  serialization_integrity = true;
  inference_compatible = true;
  aliases = "a" ∷ "b" ∷ [];
}

candidate_parses : from_mapping fragments prefixes raw_candidate ≡ ok parsed_candidate
unfolding from_mapping identity_field gate_field is_git_sha normalize_metrics alias_names
    unknown_keys missing_keys size_field metrics_field alias_items get keys scan_keys is_forbidden
    lower starts_with contains leaf_of decimal member distinct sorted sort_by compare_codes ◌>>=◌
candidate_parses = refl

from_mapping-IsValid_example : IsValid parsed_candidate
from_mapping-IsValid_example =
    from_mapping-IsValid fragments prefixes raw_candidate candidate_parses

from_mapping-IsClean_example : IsClean fragments prefixes raw_candidate
from_mapping-IsClean_example =
    from_mapping-IsClean fragments prefixes raw_candidate candidate_parses

-- A final-test metric hidden in a list is found.
hidden_metric_rejected :
    from_mapping fragments prefixes (
      candidate_with
        (field "aliases" (list (cons (dict (field "Test_f1" (int (pos 1)) end)) nil)) end))
    ≡ err (metadata (forbidden_key "Test_f1"))
unfolding from_mapping get scan_keys is_forbidden lower starts_with contains leaf_of decimal ◌>>=◌
hidden_metric_rejected = refl

scan_keys_iff_example : (scan_keys fragments prefixes (codes "candidate") raw_candidate ≡ ok tt) ↔ (
    (p : List ℕ)
    → KeyAt (codes "candidate") raw_candidate p
    → is_forbidden fragments prefixes p ≡ false)
scan_keys_iff_example = scan_keys_iff fragments prefixes (codes "candidate") raw_candidate

abbrev texts : String → Value
texts s = list (cons (str s) nil)

abbrev payload : Value
payload = dict (
    field "schema_version" (str "brief09b-v1") (
      field "policy_version" (str "1") (
        field "purpose" (str "demo") (
          field "target_alias" (str "production") (
            field "dry_run_default" (bool true) (
              field "scope"
                (dict (
                  field "registry_collection" (str "models/delay") (
                    field "source_project" (str "project")
                      (field "artifact_type" (str "model") end))))
                (field "lineage"
                  (dict (
                    field "dataset_artifact" (str "flights") (
                      field "allowed_dataset_digests" (texts "d1") (
                        field "feature_schema_sha256" (str "f1")
                          (field "allowed_evaluation_protocols" (texts "p1") end)))))
                  (field "mandatory_gates"
                    (dict (
                      field "release_eligible" (bool true) (
                        field "lineage_verified" (bool true) (
                          field "serialization_integrity" (bool true) (
                            field "inference_compatible" (bool true)
                              (field "max_bundle_size_bytes" (int (pos 5000)) end))))))
                    (field "tie_breaking"
                      (dict (
                        field "prefer_incumbent_on_metric_tie" (bool true)
                          (field "final_field" (str "candidate_id") end)))
                      (field "selection_inputs"
                        (dict (
                          field "development_validation_only" (bool true) (
                            field "forbidden_key_fragments" (texts "final_test")
                              (field "forbidden_key_prefixes" (texts "test_") end))))
                        (field "ranking"
                          (list (
                            cons
                              (dict (
                                field "field" (str "precision")
                                  (field "direction" (str "maximize") end)))
                              nil))
                          (field "allowed_target_aliases" (texts "production")
                            (field "required_metadata" (texts "git_sha") end)))))))))))))

abbrev loaded_policy : PromotionPolicy
loaded_policy = record {
  schema_version = "brief09b-v1";
  policy_version = "1";
  policy_sha256 = "hash";
  purpose = "demo";
  registry_collection = "models/delay";
  source_project = "project";
  artifact_type = "model";
  target_alias = "production";
  allowed_target_aliases = "production" ∷ [];
  dry_run_default = true;
  required_metadata = "git_sha" ∷ [];
  dataset_artifact = "flights";
  allowed_dataset_digests = "d1" ∷ [];
  feature_schema_sha256 = "f1";
  allowed_evaluation_protocols = "p1" ∷ [];
  required_boolean_gates =
      ("inference_compatible", true)
      ∷ ("lineage_verified", true)
      ∷ ("release_eligible", true)
      ∷ ("serialization_integrity", true)
      ∷ [];
  max_bundle_size_bytes = pos 5000;
  ranking = record { field = "precision"; direction = maximize } ∷ [];
  prefer_incumbent_on_metric_tie = true;
  tie_break_field = "candidate_id";
  forbidden_key_fragments = "final_test" ∷ [];
  forbidden_key_prefixes = "test_" ∷ [];
}

abbrev shown : Value → String
shown v = "?"

policy_loads : load_policy shown payload "hash" ≡ ok loaded_policy
unfolding load_policy mapping nonempty_text strings string_items ranking_rules direction_of
    is_final_test same_names gate_values validate_target_alias get keys lower starts_with contains
    member ◌>>=◌
policy_loads = refl

load_policy-IsSafe_example : IsSafe loaded_policy
load_policy-IsSafe_example = load_policy-IsSafe shown payload "hash" policy_loads
