-- ===== src/Promotion/Candidates.antt =====
-- src/flight_delay/promotion/candidates.py: candidate records and their validation.
pub mod Valid
use us_flight_delay_mlops.Prelude.{
  ℕ, Bool, not, ◌&&◌, Option, none, some, List, [], ◌∷◌, ◌++◌, String, length, all, is_empty,
  filter, ◌==◌,
}
use us_flight_delay_mlops.Prelude.Int.{ℤ, pos, leb_ℤ}
use us_flight_delay_mlops.Prelude.Text.{codes, is_blank, is_hex}
use us_flight_delay_mlops.Prelude.Names.{member, distinct, sorted}
use us_flight_delay_mlops.Promotion.Keys.{
  Raised, metadata, overflow_error, not_a_mapping, unknown_fields, missing_fields,
  identity_not_strings, bad_git_sha, size_not_positive, gates_not_boolean, metrics_not_mapping,
  blank_metric_name, metric_not_numeric, metric_not_finite, bad_aliases, scan_keys,
}
use us_flight_delay_mlops.Python.Result.{Result, ok, err, ◌>>=◌, ◌>>◌, or_raise, raise_if, require}
use us_flight_delay_mlops.Python.Float.{Float, isfinite, float_of_int}
use us_flight_delay_mlops.Python.Value.{
  Value, Items, Fields, int, float, tuple, dict, nil, cons, end, field, get, get_or, keys, as_dict,
  as_bool, as_int, as_sequence, as_nonempty_str,
}

pub record CandidateRecord : Type 0 where
  pub candidate_id : String
  pub registry_path : String
  pub registry_version : String
  pub registry_digest : String
  pub source_artifact_name : String
  pub source_artifact_version : String
  pub source_artifact_digest : String
  pub git_sha : String
  pub dataset_artifact : String
  pub dataset_digest : String
  pub feature_schema_sha256 : String
  pub evaluation_protocol : String
  pub development_metrics : List (String × Float)
  pub bundle_size_bytes : ℤ
  pub release_eligible : Bool
  pub lineage_verified : Bool
  pub serialization_integrity : Bool
  pub inference_compatible : Bool
  pub aliases : List String

-- the fields that must be texts, in the order of the class
abbrev pub identity_names : List String
identity_names =
    "candidate_id" ∷ "registry_path" ∷ "registry_version" ∷ "registry_digest"
    ∷ "source_artifact_name" ∷ "source_artifact_version" ∷ "source_artifact_digest" ∷ "git_sha"
    ∷ "dataset_artifact" ∷ "dataset_digest" ∷ "feature_schema_sha256" ∷ "evaluation_protocol" ∷ []

abbrev pub gate_names : List String
gate_names =
    "release_eligible" ∷ "lineage_verified" ∷ "serialization_integrity" ∷ "inference_compatible"
    ∷ []

-- `allowed - {"aliases"}`
abbrev pub required_names : List String
required_names = identity_names ++ "development_metrics" ∷ "bundle_size_bytes" ∷ gate_names

-- `value[name]`, checked to be a text that is not empty
unfoldable pub identity_field : Fields → String → Result Raised String
identity_field fs name = elim (get name fs) [
  | none ↦ err (metadata identity_not_strings)
  | some v ↦ or_raise (as_nonempty_str v) (metadata identity_not_strings)
]

unfoldable pub gate_field : Fields → String → Result Raised Bool
gate_field fs name = elim (get name fs) [
  | none ↦ err (metadata gates_not_boolean)
  | some v ↦ or_raise (as_bool v) (metadata gates_not_boolean)
]

-- `GIT_SHA_PATTERN.fullmatch`
unfoldable pub is_git_sha : String → Bool
is_git_sha s = length (codes s) == 40 && all is_hex (codes s)

-- the body of the loop over the metrics: `float(metric)` of a number that is no bool
numeric_metric : String → Value → Result Raised Float
numeric_metric name (int n) = or_raise (float_of_int n) overflow_error
numeric_metric name (float x) = ok x
numeric_metric name _ = err (metadata (metric_not_numeric name))

unfoldable pub normalize_metrics : Fields → Result Raised (List (String × Float))
unfolding numeric_metric
normalize_metrics end = ok []
normalize_metrics (field name v fs) = do
  raise_if (is_blank name) (metadata blank_metric_name)
  numeric ← numeric_metric name v
  require (isfinite numeric) (metadata (metric_not_finite name))
  rest ← normalize_metrics fs
  ok ((name, numeric) ∷ rest)

-- `metrics` as a mapping that is not empty
abbrev pub as_metrics : Value → Option Fields
as_metrics (dict (field k v fs)) = some (field k v fs)
as_metrics _ = none

unfoldable pub alias_names : Items → Result Raised (List String)
alias_names nil = ok []
alias_names (cons v vs) = do
  alias ← or_raise (as_nonempty_str v) (metadata bad_aliases)
  rest ← alias_names vs
  ok (alias ∷ rest)

-- the keys of `value` that the class does not declare
unfoldable pub unknown_keys : Fields → List String
unknown_keys fs = filter (λ k. not (member k ("aliases" ∷ required_names))) (keys fs)

unfoldable pub missing_keys : Fields → List String
missing_keys fs = filter (λ k. not (member k (keys fs))) required_names

-- `value.get("aliases", ())`, checked to be a sequence
unfoldable pub alias_items : Fields → Option Items
alias_items fs = as_sequence (get_or "aliases" (tuple nil) fs)

-- `value["bundle_size_bytes"]` as an int; a bool is one
unfoldable pub size_field : Fields → Option ℤ
size_field fs = elim (get "bundle_size_bytes" fs) [ none ↦ none | some v ↦ as_int v ]

unfoldable pub metrics_field : Fields → Option Fields
metrics_field fs = elim (get "development_metrics" fs) [ none ↦ none | some v ↦ as_metrics v ]

-- `CandidateRecord.from_mapping`. The check of the twelve texts raises one error, whichever fails,
-- so they are read one after another; so are the four gates.
unfoldable pub from_mapping : List String → List String → Value → Result Raised CandidateRecord
from_mapping fragments prefixes raw = do
  value ← or_raise (as_dict raw) (metadata not_a_mapping)
  scan_keys fragments prefixes (codes "candidate") raw
  require (is_empty (unknown_keys value)) (metadata (unknown_fields (sorted (unknown_keys value))))
  require (is_empty (missing_keys value)) (metadata (missing_fields (sorted (missing_keys value))))
  candidate_id ← identity_field value "candidate_id"
  registry_path ← identity_field value "registry_path"
  registry_version ← identity_field value "registry_version"
  registry_digest ← identity_field value "registry_digest"
  source_artifact_name ← identity_field value "source_artifact_name"
  source_artifact_version ← identity_field value "source_artifact_version"
  source_artifact_digest ← identity_field value "source_artifact_digest"
  git_sha ← identity_field value "git_sha"
  dataset_artifact ← identity_field value "dataset_artifact"
  dataset_digest ← identity_field value "dataset_digest"
  feature_schema_sha256 ← identity_field value "feature_schema_sha256"
  evaluation_protocol ← identity_field value "evaluation_protocol"
  require (is_git_sha git_sha) (metadata bad_git_sha)
  size ← or_raise (size_field value) (metadata size_not_positive)
  raise_if (leb_ℤ size (pos 0)) (metadata size_not_positive)
  release_eligible ← gate_field value "release_eligible"
  lineage_verified ← gate_field value "lineage_verified"
  serialization_integrity ← gate_field value "serialization_integrity"
  inference_compatible ← gate_field value "inference_compatible"
  metrics ← or_raise (metrics_field value) (metadata metrics_not_mapping)
  normalized_metrics ← normalize_metrics metrics
  items ← or_raise (alias_items value) (metadata bad_aliases)
  aliases ← alias_names items
  ok (record {
    candidate_id = candidate_id;
    registry_path = registry_path;
    registry_version = registry_version;
    registry_digest = registry_digest;
    source_artifact_name = source_artifact_name;
    source_artifact_version = source_artifact_version;
    source_artifact_digest = source_artifact_digest;
    git_sha = git_sha;
    dataset_artifact = dataset_artifact;
    dataset_digest = dataset_digest;
    feature_schema_sha256 = feature_schema_sha256;
    evaluation_protocol = evaluation_protocol;
    development_metrics = normalized_metrics;
    bundle_size_bytes = size;
    release_eligible = release_eligible;
    lineage_verified = lineage_verified;
    serialization_integrity = serialization_integrity;
    inference_compatible = inference_compatible;
    aliases = sorted (distinct aliases);
  })

-- `immutable_identity`: "path:version@digest"
unfoldable pub immutable_identity : CandidateRecord → List ℕ
immutable_identity c =
    codes c.registry_path ++ b':' ∷ (codes c.registry_version ++ b'@' ∷ codes c.registry_digest)
