-- ===== src/Deployment/Examples.antt =====
-- The validation of the manifest at the committed manifest (deploy/deployment_manifest.json, with
-- release/release_decision.json and release/selection_lock.json).
use us_flight_delay_mlops.Prelude.{
  ◌*◌, ◌^◌, ◌≡◌, refl, Bool, true, false, Option, none, some, List, [], ◌∷◌, String, ◌=ₛ◌,
}
use us_flight_delay_mlops.Prelude.Int.{pos}
use us_flight_delay_mlops.Prelude.Names.{member, distinct, same_names}
use us_flight_delay_mlops.Prelude.Text.{starts_with, lower}
use us_flight_delay_mlops.Python.Equal.{eq_value, field_count}
use us_flight_delay_mlops.Python.Float.{finite, feq, unit}
use us_flight_delay_mlops.Python.Result.{ok, ◌>>=◌}
use us_flight_delay_mlops.Python.Value.{
  Value, Fields, bool, int, float, str, list, to_items, fields_of, dict_of, get, keys,
}
use us_flight_delay_mlops.Deployment.Patterns.{
  is_image, is_sha, is_repository, is_date, search_for, secret_value_patterns,
}
use us_flight_delay_mlops.Deployment.Manifest.{
  required_member, required_environment, identity_pairs, set_of_items, as_set, agree,
  image_references, complete, any_forbidden, validate_project, deployment_sha, validate_model,
  validate_images, validate_topology, validate_environment, validate_smoke_test,
  validate_deployment_manifest,
}
use us_flight_delay_mlops.Deployment.Manifest.Deployable.{
  IsDeployable, validate_deployment_manifest-IsDeployable,
}

abbrev manifest : Fields
manifest = fields_of (
    ("schema_version", int (pos 1))
    ∷ (
      "project",
      dict_of (
          ("name", str "us-flight-delay-mlops")
          ∷ (
            "public_repository_url",
            str "https://github.com/austinyoungblood/us-flight-delay-mlops",
          )
          ∷ (
            "wandb_project_url",
            str "https://wandb.ai/austin-youngblood-university-of-denver/us-flight-delay-mlops",
          )
          ∷ []),
    )
    ∷ ("deployment_git_sha", str "ce10f1a123bbe21eb75ca31b2681caf90ccda731")
    ∷ (
      "model",
      dict_of (
          ("registry_collection", str "wandb-registry-Model/us-flight-arrival-delay-15m")
          ∷ ("serving_alias", str "production")
          ∷ ("registry_version", str "v0")
          ∷ ("registry_digest", str "865ddd18f6debd44f24a79fc71739f2a")
          ∷ (
            "release_bundle_digest",
            str "2677b7093d66637852705d33bca006c3b78d8119f4d7268801453aa18c22f572",
          )
          ∷ ("internal_production_gate_passed", bool false)
          ∷ ("deployment_purpose", str "academic_demo")
          ∷ ("classification_threshold", float (finite (pos (3315163149964759 * 2 ^ 1020))))
          ∷ []),
    )
    ∷ (
      "images",
      dict_of (
          (
            "api",
            dict_of (
                (
                  "reference",
                  str
                      "ghcr.io/austinyoungblood/us-flight-delay-mlops-api@sha256:8c70e59c1cd24be98be5e47fd318464d7bae95aaf1be44608af3b33adacbca0e",
                )
                ∷ ("source_git_sha", str "ce10f1a123bbe21eb75ca31b2681caf90ccda731")
                ∷ []),
          )
          ∷ (
            "traveler",
            dict_of (
                (
                  "reference",
                  str
                      "ghcr.io/austinyoungblood/us-flight-delay-mlops-traveler@sha256:06d36b32304b9f7711d0b224fa9d7f049a8875b761dffd907c17a73f3eebef94",
                )
                ∷ ("source_git_sha", str "ce10f1a123bbe21eb75ca31b2681caf90ccda731")
                ∷ []),
          )
          ∷ (
            "monitor",
            dict_of (
                (
                  "reference",
                  str
                      "ghcr.io/austinyoungblood/us-flight-delay-mlops-monitor@sha256:97a4e6bb99358e8cfe6885581713fd2731f64ea97164ad6a4d64f6efb1c7277c",
                )
                ∷ ("source_git_sha", str "ce10f1a123bbe21eb75ca31b2681caf90ccda731")
                ∷ []),
          )
          ∷ []),
    )
    ∷ (
      "runtime",
      dict_of (
          ("python", str "3.11")
          ∷ (
            "ports",
            dict_of (
                ("api", int (pos 8000))
                ∷ ("traveler", int (pos 8501))
                ∷ ("monitor", int (pos 8501))
                ∷ []),
          )
          ∷ (
            "ec2_logical_names",
            dict_of (
                ("api", str "flight-api")
                ∷ ("traveler", str "flight-user-ui")
                ∷ ("monitor", str "flight-monitor")
                ∷ []),
          )
          ∷ []),
    )
    ∷ (
      "dynamodb",
      dict_of (
          ("table_name", str "flight-delay-events")
          ∷ ("gsi_name", str "event-date-created-at-index")
          ∷ ("billing_mode", str "PAY_PER_REQUEST")
          ∷ []),
    )
    ∷ (
      "environment_variable_names",
      dict_of (
          (
            "api",
            list (
                to_items (
                  (str "AWS_REGION")
                  ∷ (str "DYNAMODB_TABLE")
                  ∷ (str "MODEL_DOWNLOAD_DIR")
                  ∷ (str "PREDICTION_CACHE_MAXSIZE")
                  ∷ (str "PREDICTION_CACHE_TTL_SECONDS")
                  ∷ (str "WANDB_API_KEY")
                  ∷ (str "WANDB_ENTITY")
                  ∷ (str "WANDB_PROJECT")
                  ∷ [])),
          )
          ∷ (
            "traveler",
            list (
                to_items (
                  (str "API_BASE_URL")
                  ∷ (str "API_CONNECT_TIMEOUT_SECONDS")
                  ∷ (str "API_READ_TIMEOUT_SECONDS")
                  ∷ [])),
          )
          ∷ (
            "monitor",
            list (
                to_items (
                  (str "AWS_REGION")
                  ∷ (str "DYNAMODB_TABLE")
                  ∷ (str "MONITOR_DEFAULT_DAYS")
                  ∷ (str "MONITOR_MAX_DAYS")
                  ∷ (str "MONITOR_QUERY_CACHE_TTL_SECONDS")
                  ∷ [])),
          )
          ∷ []),
    )
    ∷ (
      "smoke_test",
      dict_of (("schema_version", int (pos 1)) ∷ ("reviewed_date", str "2026-08-12") ∷ []),
    )
    ∷ [])

abbrev release_decision : Fields
release_decision = fields_of (
    ("registry_path", str "wandb-registry-Model/us-flight-arrival-delay-15m")
    ∷ ("serving_alias", str "production")
    ∷ ("registry_version", str "v0")
    ∷ ("registry_digest", str "865ddd18f6debd44f24a79fc71739f2a")
    ∷ ("bundle_digest", str "2677b7093d66637852705d33bca006c3b78d8119f4d7268801453aa18c22f572")
    ∷ ("internal_production_gate_passed", bool false)
    ∷ ("deployment_purpose", str "academic_demo")
    ∷ [])

abbrev selection_lock : Fields
selection_lock = fields_of (
    ("threshold", float (finite (pos (3315163149964759 * 2 ^ 1020))))
    ∷ (
      "aggregate_bundle_digest",
      str "2677b7093d66637852705d33bca006c3b78d8119f4d7268801453aa18c22f572",
    )
    ∷ [])

abbrev shown : Value → String
shown v = "value"

abbrev dumps : Value → String
dumps v = "{\"deployment_git_sha\": \"ce10f1a123bbe21eb75ca31b2681caf90ccda731\"}"

abbrev is_reachable : String → Bool
is_reachable sha = sha =ₛ "ce10f1a123bbe21eb75ca31b2681caf90ccda731"

project_valid : validate_project manifest ≡ ok tt
unfolding validate_project is_repository required_member ◌>>=◌ get eq_value feq unit field_count
project_valid = refl

sha_valid :
    deployment_sha (some is_reachable) manifest ≡ ok "ce10f1a123bbe21eb75ca31b2681caf90ccda731"
unfolding deployment_sha is_sha required_member ◌>>=◌ get eq_value feq unit field_count
sha_valid = refl

model_valid : validate_model manifest release_decision selection_lock ≡ ok tt
unfolding validate_model agree identity_pairs required_member ◌>>=◌ get eq_value feq unit
    field_count
model_valid = refl

images_valid : validate_images "ce10f1a123bbe21eb75ca31b2681caf90ccda731" manifest ≡ ok tt
unfolding validate_images image_references is_image as_set keys same_names member distinct
    required_member ◌>>=◌ get eq_value feq unit field_count
images_valid = refl

topology_valid : validate_topology manifest ≡ ok tt
unfolding validate_topology required_member ◌>>=◌ get eq_value feq unit field_count
topology_valid = refl

environment_valid : validate_environment manifest ≡ ok tt
unfolding validate_environment required_environment complete any_forbidden set_of_items as_set
    same_names member required_member ◌>>=◌ get eq_value feq unit field_count
environment_valid = refl

smoke_valid : validate_smoke_test shown dumps manifest ≡ ok tt
unfolding validate_smoke_test is_date search_for secret_value_patterns starts_with lower
    required_member ◌>>=◌ get eq_value feq unit field_count
smoke_valid = refl

manifest_valid :
    validate_deployment_manifest shown dumps
      (some is_reachable)
      manifest
      release_decision
      selection_lock
    ≡ ok manifest
unfolding validate_deployment_manifest required_member ◌>>=◌ get eq_value feq unit field_count
manifest_valid =
    rw
      (
        project_valid, sha_valid, model_valid, images_valid, topology_valid, environment_valid,
        smoke_valid,
      )
      refl

validate_deployment_manifest-IsDeployable_example :
    (manifest ≡ manifest)
    × IsDeployable dumps (some is_reachable) manifest release_decision selection_lock
validate_deployment_manifest-IsDeployable_example =
    validate_deployment_manifest-IsDeployable shown dumps (some is_reachable) manifest
      release_decision selection_lock manifest_valid

-- A member of a JSON object named like a credential is not found: between the name and the colon
-- stands a quotation mark.
key_member_unseen :
    search_for
      (λ s. us_flight_delay_mlops.Prelude.any (λ p. p s) secret_value_patterns)
      (us_flight_delay_mlops.Prelude.Text.codes "{\"wandb_api_key\": \"0123456789\"}")
    ≡ false
unfolding search_for secret_value_patterns starts_with lower
key_member_unseen = refl

assignment_seen :
    search_for
      (λ s. us_flight_delay_mlops.Prelude.any (λ p. p s) secret_value_patterns)
      (us_flight_delay_mlops.Prelude.Text.codes "{\"note\": \"wandb_api_key=0123456789\"}")
    ≡ true
unfolding search_for secret_value_patterns starts_with lower
assignment_seen = refl
