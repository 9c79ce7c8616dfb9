-- ===== src/Deployment/Manifest.antt =====
-- src/flight_delay/deployment/manifest.py: the validation of the deployment manifest.
pub mod Parts
pub mod Deployable
use us_flight_delay_mlops.Prelude.{
  Bool, true, false, not, ◌&&◌, ◌||◌, Option, none, some, List, [], ◌∷◌, String, any, length, ◌==◌,
  if◌then◌else◌,
}
use us_flight_delay_mlops.Prelude.Int.{pos}
use us_flight_delay_mlops.Prelude.Text.{codes, characters}
use us_flight_delay_mlops.Prelude.Names.{member, distinct, same_names}
use us_flight_delay_mlops.Python.Equal.{eq_value}
use us_flight_delay_mlops.Python.Result.{Result, ok, err, ◌>>=◌, ◌>>◌, or_raise, raise_if, require}
use us_flight_delay_mlops.Python.Value.{
  Value, Items, Fields, null, bool, int, float, str, list, tuple, dict, nil, cons, end, field, get,
  get_or, keys, as_dict, as_str, dict_of,
}
use us_flight_delay_mlops.Deployment.Patterns.{
  is_image, is_sha, is_repository, is_date, search_for, secret_value_patterns,
}

-- `DeploymentManifestError` by its message, and the AttributeError or TypeError of a part that has
-- another shape
pub data ManifestError : Type 0 where
  missing : String → String → ManifestError
  refused disagrees : String → ManifestError
  mutable_image foreign_image incomplete_names : String → ManifestError
  unreadable not_an_object : String → ManifestError
  python_error : ManifestError

abbrev pub Checked : Type 0
Checked = Result ManifestError (Unit {0})

-- `REQUIRED_ENVIRONMENT`
unfoldable pub required_environment : List (String × List String)
required_environment =
    (
      "api",
      "WANDB_API_KEY" ∷ "WANDB_ENTITY" ∷ "WANDB_PROJECT" ∷ "AWS_REGION" ∷ "DYNAMODB_TABLE"
          ∷ "MODEL_DOWNLOAD_DIR" ∷ "PREDICTION_CACHE_MAXSIZE" ∷ "PREDICTION_CACHE_TTL_SECONDS" ∷ [],
    )
    ∷ ("traveler", "API_BASE_URL" ∷ "API_CONNECT_TIMEOUT_SECONDS" ∷ "API_READ_TIMEOUT_SECONDS" ∷ [])
    ∷ (
      "monitor",
      "AWS_REGION" ∷ "DYNAMODB_TABLE" ∷ "MONITOR_DEFAULT_DAYS" ∷ "MONITOR_MAX_DAYS"
          ∷ "MONITOR_QUERY_CACHE_TTL_SECONDS" ∷ [],
    )
    ∷ []

-- `_required`
unfoldable pub required_member : Fields → String → String → Result ManifestError Value
required_member d key context = or_raise (get key d) (missing context key)

-- a part that is asked for its keys
abbrev pub object : Value → Result ManifestError Fields
object v = or_raise (as_dict v) python_error

-- a text that a pattern is matched against
abbrev pub text : Value → Result ManifestError String
text v = or_raise (as_str v) python_error

-- the texts among the members of a set, and whether all are texts
unfoldable pub set_of_items : Items → Result ManifestError (List String × Bool)
set_of_items nil = ok ([], true)
set_of_items (cons v vs) = do
  (names, all_texts) ← set_of_items vs
  elim v [
    | str s ↦ ok (s ∷ names, all_texts)
    | list ws ↦ err python_error
    | dict fs ↦ err python_error
    | _ ↦ ok (names, false)
  ]

-- `set(v)`
unfoldable pub as_set : Value → Result ManifestError (List String × Bool)
as_set (dict fs) = ok (keys fs, true)
as_set (str s) = ok (characters s, true)
as_set (list vs) = set_of_items vs
as_set (tuple vs) = set_of_items vs
as_set v = err python_error

-- `set(v) == names`
abbrev pub same_set : List String × Bool → List String → Bool
same_set (texts, all_texts) names = all_texts && same_names texts names

-- the manifest's project
unfoldable pub validate_project : Fields → Checked
validate_project manifest = do
  project ← (required_member manifest "project" "manifest" >>= object)
  require (eq_value (get_or "name" null project) (str "us-flight-delay-mlops"))
      (refused "unexpected project name")
  url ← text (get_or "public_repository_url" (str "") project)
  require (is_repository url) (refused "public repository URL is not canonical")
  require
      (eq_value (get_or "wandb_project_url" null project)
        (str "https://wandb.ai/austin-youngblood-university-of-denver/us-flight-delay-mlops"))
      (refused "W&B project URL is not canonical")

-- the commit that is deployed; `reachable` is `_git_commit_is_reachable` of the repository, where
-- there is one
unfoldable pub deployment_sha : Option (String → Bool) → Fields → Result ManifestError String
deployment_sha reachable manifest = do
  value ← required_member manifest "deployment_git_sha" "manifest"
  sha ← or_raise (as_str value) (refused "deployment_git_sha must be a full Git SHA")
  require (is_sha sha) (refused "deployment_git_sha must be a full Git SHA")
  elim reachable [
    | none ↦ ok sha
    | some is_reachable ↦ do
      require (is_reachable sha) (refused "deployment_git_sha is not a reachable local commit")
      ok sha
  ]

-- `identity_pairs`
unfoldable pub identity_pairs : List (String × String)
identity_pairs =
    ("registry_collection", "registry_path")
    ∷ ("serving_alias", "serving_alias")
    ∷ ("registry_version", "registry_version")
    ∷ ("registry_digest", "registry_digest")
    ∷ ("release_bundle_digest", "bundle_digest")
    ∷ ("internal_production_gate_passed", "internal_production_gate_passed")
    ∷ ("deployment_purpose", "deployment_purpose")
    ∷ []

-- the loop over the pairs
unfoldable pub agree : Fields → Fields → List (String × String) → Checked
agree model decision [] = ok tt
agree model decision ((manifest_key, release_key) ∷ pairs) = do
  require (eq_value (get_or manifest_key null model) (get_or release_key null decision))
      (disagrees manifest_key)
  agree model decision pairs

-- the model, against the release decision and the selection lock; `value is not False` is no `==`
unfoldable pub validate_model : Fields → Fields → Fields → Checked
validate_model manifest release_decision selection_lock = do
  model ← (required_member manifest "model" "manifest" >>= object)
  agree model release_decision identity_pairs
  require
      (eq_value (get_or "classification_threshold" null model)
        (get_or "threshold" null selection_lock))
      (refused "classification threshold disagrees with selection lock")
  require
      (eq_value (get_or "release_bundle_digest" null model)
        (get_or "aggregate_bundle_digest" null selection_lock))
      (refused "bundle digest disagrees with selection lock")
  require (eq_value (get_or "serving_alias" null model) (str "production"))
      (refused "final pre-AWS manifest must use the production alias")
  require
      (elim (get_or "internal_production_gate_passed" null model) [ bool false ↦ true | _ ↦ false ])
      (refused "manifest must preserve the failed internal production gate")
  require (eq_value (get_or "deployment_purpose" null model) (str "academic_demo"))
      (refused "manifest must preserve academic-demo deployment purpose")

-- the loop over the images: their references
unfoldable pub image_references : String → Fields → Result ManifestError (List String)
image_references sha end = ok []
image_references sha (field component v images) = do
  image ← object v
  reference ← text (get_or "reference" (str "") image)
  require (is_image reference) (mutable_image component)
  require (eq_value (get_or "source_git_sha" null image) (str sha)) (foreign_image component)
  rest ← image_references sha images
  ok (reference ∷ rest)

unfoldable pub validate_images : String → Fields → Checked
validate_images sha manifest = do
  value ← required_member manifest "images" "manifest"
  names ← as_set value
  require (same_set names ("api" ∷ "traveler" ∷ "monitor" ∷ []))
      (refused "images must contain exactly api, traveler, and monitor")
  images ← object value
  references ← image_references sha images
  require (length references == length (distinct references))
      (refused "component image references must be distinct")

-- the runtime and the database
unfoldable pub validate_topology : Fields → Checked
validate_topology manifest = do
  runtime ← (required_member manifest "runtime" "manifest" >>= object)
  require (eq_value (get_or "python" null runtime) (str "3.11"))
      (refused "expected Python runtime must be 3.11")
  require
      (eq_value (get_or "ports" (dict end) runtime) (
        dict_of (
          ("api", int (pos 8000))
          ∷ ("traveler", int (pos 8501))
          ∷ ("monitor", int (pos 8501))
          ∷ [])))
      (refused "component ports disagree with frozen topology")
  require
      (eq_value (get_or "ec2_logical_names" (dict end) runtime) (
        dict_of (
          ("api", str "flight-api")
          ∷ ("traveler", str "flight-user-ui")
          ∷ ("monitor", str "flight-monitor")
          ∷ [])))
      (refused "EC2 logical names disagree with frozen topology")
  database ← required_member manifest "dynamodb" "manifest"
  require
      (eq_value database (
        dict_of (
          ("table_name", str "flight-delay-events")
          ∷ ("gsi_name", str "event-date-created-at-index")
          ∷ ("billing_mode", str "PAY_PER_REQUEST")
          ∷ [])))
      (refused "DynamoDB identity disagrees with the accepted schema")

abbrev pub credential_names : List String
credential_names = "AWS_ACCESS_KEY_ID" ∷ "AWS_SECRET_ACCESS_KEY" ∷ "AWS_SESSION_TOKEN" ∷ []

-- the loop over `REQUIRED_ENVIRONMENT`
unfoldable pub complete : Fields → List (String × List String) → Checked
complete environment [] = ok tt
complete environment ((component, required_names) ∷ rest) = do
  actual ← as_set (get_or component (list nil) environment)
  require (same_set actual required_names) (incomplete_names component)
  complete environment rest

-- `any(credential_names & set(names) for names in environment.values())`
unfoldable pub any_forbidden : Fields → Result ManifestError Bool
any_forbidden end = ok false
any_forbidden (field component v environment) = do
  (names, all_texts) ← as_set v
  let rest = any_forbidden environment
  if any (λ name. member name names) credential_names then ok true else rest

unfoldable pub validate_environment : Fields → Checked
validate_environment manifest = do
  environment ← (required_member manifest "environment_variable_names" "manifest" >>= object)
  complete environment required_environment
  found ← any_forbidden environment
  raise_if found (refused "temporary AWS credential names must not enter host env files")

-- `shown` is `str(v)` of a value that is no text, `dumps` is `json.dumps` with sorted keys.
module _ (shown : Value → String) (dumps : Value → String) where
  -- the smoke test, and the values that look like credentials
  unfoldable pub validate_smoke_test : Fields → Checked
  validate_smoke_test manifest = do
    smoke ← (required_member manifest "smoke_test" "manifest" >>= object)
    let date : String = elim (get_or "reviewed_date" (str "") smoke) [ str s ↦ s | v ↦ shown v ]
    require (eq_value (get_or "schema_version" null smoke) (int (pos 1)) && is_date date)
        (refused "smoke-test metadata is invalid")
    let encoded = codes (dumps (dict manifest))
    raise_if (any (λ pattern_of. search_for pattern_of encoded) secret_value_patterns)
        (refused "deployment manifest contains a credential-like value")

  -- `validate_deployment_manifest`
  unfoldable pub validate_deployment_manifest :
      Option (String → Bool) → Fields → Fields → Fields → Result ManifestError Fields
  validate_deployment_manifest reachable manifest release_decision selection_lock = do
    require (eq_value (get_or "schema_version" null manifest) (int (pos 1)))
        (refused "deployment manifest schema_version must be 1")
    validate_project manifest
    sha ← deployment_sha reachable manifest
    validate_model manifest release_decision selection_lock
    validate_images sha manifest
    validate_topology manifest
    validate_environment manifest
    validate_smoke_test manifest
    ok manifest

  -- `_load_json` of a file that was read and parsed, where it could be
  unfoldable pub load_json : Option Value → String → Result ManifestError Fields
  load_json parsed label = do
    value ← or_raise parsed (unreadable label)
    or_raise (as_dict value) (not_an_object label)

  -- `load_and_validate_manifest`
  unfoldable pub load_and_validate_manifest :
      Option (String → Bool)
      → Option Value
      → Option Value
      → Option Value
      → Result ManifestError Fields
  unfolding load_json
  load_and_validate_manifest reachable manifest release_decision selection_lock = do
    loaded ← load_json manifest "deployment manifest"
    decision ← load_json release_decision "release decision"
    lock ← load_json selection_lock "selection lock"
    validate_deployment_manifest reachable loaded decision lock
