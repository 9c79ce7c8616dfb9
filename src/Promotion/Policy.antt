-- ===== src/Promotion/Policy.antt =====
-- src/flight_delay/promotion/policy.py: the promotion policy and its validation.
pub mod Safe
use us_flight_delay_mlops.Prelude.{
  ◌≡◌, Bool, true, false, not, ◌&&◌, ◌||◌, Option, none, some, List, [], ◌∷◌, map, String, all,
  filter, ◌=ₛ◌, if◌then◌else◌,
}
use us_flight_delay_mlops.Prelude.Int.{ℤ, pos, leb_ℤ}
use us_flight_delay_mlops.Prelude.Text.{codes, is_blank, lower, starts_with, contains}
use us_flight_delay_mlops.Prelude.Names.{member, same_names}
use us_flight_delay_mlops.Python.Result.{Result, ok, err, ◌>>=◌, ◌>>◌, or_raise, raise_if, require}
use us_flight_delay_mlops.Python.Value.{
  Value, Items, Fields, null, bool, str, list, dict, nil, cons, get, get_or, keys, as_dict, as_str,
  as_bool, as_int, as_list, as_nonempty_str, is_true,
}

-- `PolicyError`, by its message
pub data PolicyError : Type 0 where
  not_a_mapping not_strings : String → PolicyError
  bad_schema_version : PolicyError
  bad_text : String → PolicyError
  bad_dry_run_default not_development_only empty_ranking blank_field : PolicyError
  bad_direction : String → PolicyError
  final_test_ranking unexpected_gates gates_not_boolean size_not_positive : PolicyError
  incomplete_scope : PolicyError
  alias_not_allowed : String → PolicyError
  bad_tie_break : PolicyError
  -- the TypeError of a direction that cannot be hashed
  type_error : PolicyError

pub data Direction : Type 0 where
  maximize minimize : Direction

pub record RankingRule : Type 0 where
  pub field : String
  pub direction : Direction

pub record PromotionPolicy : Type 0 where
  pub schema_version : String
  pub policy_version : String
  pub policy_sha256 : String
  pub purpose : String
  pub registry_collection : String
  pub source_project : String
  pub artifact_type : String
  pub target_alias : String
  pub allowed_target_aliases : List String
  pub dry_run_default : Bool
  pub required_metadata : List String
  pub dataset_artifact : String
  pub allowed_dataset_digests : List String
  pub feature_schema_sha256 : String
  pub allowed_evaluation_protocols : List String
  pub required_boolean_gates : List (String × Bool)
  pub max_bundle_size_bytes : ℤ
  pub ranking : List RankingRule
  pub prefer_incumbent_on_metric_tie : Bool
  pub tie_break_field : String
  pub forbidden_key_fragments : List String
  pub forbidden_key_prefixes : List String

-- `PromotionPolicy.metric_names`
unfoldable pub metric_names : PromotionPolicy → List String
metric_names policy =
    filter (λ field. not (field =ₛ "bundle_size_bytes"))
      (map (λ (r : RankingRule). r.field) policy.ranking)

-- `PromotionPolicy.validate_target_alias`
unfoldable pub validate_target_alias : PromotionPolicy → String → Result PolicyError (Unit {0})
validate_target_alias policy alias =
    require (member alias policy.allowed_target_aliases) (alias_not_allowed alias)

-- `_mapping`, at a key that may be missing
unfoldable pub mapping : Option Value → String → Result PolicyError Fields
mapping none label = err (not_a_mapping label)
mapping (some v) label = or_raise (as_dict v) (not_a_mapping label)

-- the loop of `_strings`
unfoldable pub string_items : Items → String → Result PolicyError (List String)
string_items nil label = ok []
string_items (cons v vs) label = do
  s ← or_raise (as_nonempty_str v) (not_strings label)
  rest ← string_items vs label
  ok (s ∷ rest)

-- `isinstance(value, list) and value`
abbrev pub as_nonempty_list : Value → Option Items
as_nonempty_list (list (cons v vs)) = some (cons v vs)
as_nonempty_list _ = none

-- `_strings`, at a key that may be missing
unfoldable pub strings : Option Value → String → Result PolicyError (List String)
strings none label = err (not_strings label)
strings (some v) label = do
  items ← or_raise (as_nonempty_list v) (not_strings label)
  string_items items label

unfoldable pub nonempty_text : Fields → String → Result PolicyError String
nonempty_text root name = elim (get name root) [
  | none ↦ err (bad_text name)
  | some v ↦ or_raise (as_nonempty_str v) (bad_text name)
]

-- `direction not in {"maximize", "minimize"}`
unfoldable pub direction_of : Option Value → String → Result PolicyError Direction
direction_of (some (str s)) field =
    if s =ₛ "maximize"
    then ok maximize
    else if s =ₛ "minimize"
    then ok minimize
    else err (bad_direction field)
direction_of (some (list vs)) field = err type_error
direction_of (some (dict fs)) field = err type_error
direction_of _ field = err (bad_direction field)

-- `"final_test" in lowered or lowered.startswith("test_")`
unfoldable pub is_final_test : String → Bool
is_final_test field =
    contains (codes "final_test") (lower (codes field))
    || starts_with (codes "test_") (lower (codes field))

-- the body of the loop over the ranking
ranking_rule : Value → Result PolicyError RankingRule
ranking_rule item = do
  rule ← mapping (some item) "ranking rule"
  field ← or_raise (as_nonempty_str (get_or "field" null rule)) blank_field
  direction ← direction_of (get "direction" rule) field
  raise_if (is_final_test field) final_test_ranking
  ok (record { field = field; direction = direction })

unfoldable pub ranking_rules : Items → Result PolicyError (List RankingRule)
unfolding ranking_rule
ranking_rules nil = ok []
ranking_rules (cons item items) = do
  rule ← ranking_rule item
  rest ← ranking_rules items
  ok (rule ∷ rest)

abbrev pub boolean_gate_names : List String
boolean_gate_names =
    "inference_compatible" ∷ "lineage_verified" ∷ "release_eligible" ∷ "serialization_integrity"
    ∷ []

-- `gates[name]` of a mandatory gate
gate_value : Fields → String → Result PolicyError Bool
gate_value gates name = or_raise (as_bool (get_or name null gates)) gates_not_boolean

-- the gates as a dict, in the order of their names
unfoldable pub gate_values : Fields → List String → Result PolicyError (List (String × Bool))
unfolding gate_value
gate_values gates [] = ok []
gate_values gates (name ∷ names) = do
  value ← gate_value gates name
  rest ← gate_values gates names
  ok ((name, value) ∷ rest)

-- `shown` is `str(v)` of a value that is no text.
module _ (shown : Value → String) where
  -- `str(d.get(key, ""))`
  text_of : String → Fields → String
  text_of key fs = elim (get_or key (str "") fs) [ str s ↦ s | v ↦ shown v ]

  -- `load_policy`, after the file is read, parsed and hashed
  unfoldable pub load_policy : Value → String → Result PolicyError PromotionPolicy
  unfolding text_of
  load_policy payload sha256 = do
    root ← mapping (some payload) "promotion policy"
    schema ← or_raise (as_str (get_or "schema_version" null root)) bad_schema_version
    require (schema =ₛ "brief09b-v1") bad_schema_version
    version ← nonempty_text root "policy_version"
    purpose ← nonempty_text root "purpose"
    target ← nonempty_text root "target_alias"
    dry_run ← or_raise (as_bool (get_or "dry_run_default" null root)) bad_dry_run_default
    scope ← mapping (get "scope" root) "scope"
    lineage ← mapping (get "lineage" root) "lineage"
    gates ← mapping (get "mandatory_gates" root) "mandatory_gates"
    tie ← mapping (get "tie_breaking" root) "tie_breaking"
    inputs ← mapping (get "selection_inputs" root) "selection_inputs"
    only ←
        or_raise (as_bool (get_or "development_validation_only" null inputs)) not_development_only
    require only not_development_only
    ranking_items ← or_raise (as_nonempty_list (get_or "ranking" null root)) empty_ranking
    ranking ← ranking_rules ranking_items
    require (same_names (keys gates) ("max_bundle_size_bytes" ∷ boolean_gate_names))
        unexpected_gates
    boolean_gates ← gate_values gates boolean_gate_names
    max_size ← or_raise (as_int (get_or "max_bundle_size_bytes" null gates)) size_not_positive
    raise_if (leb_ℤ max_size (pos 0)) size_not_positive
    aliases ← strings (get "allowed_target_aliases" root) "allowed aliases"
    metadata ← strings (get "required_metadata" root) "required metadata"
    digests ← strings (get "allowed_dataset_digests" lineage) "allowed dataset digests"
    protocols ← strings (get "allowed_evaluation_protocols" lineage) "evaluation protocols"
    fragments ← strings (get "forbidden_key_fragments" inputs) "forbidden key fragments"
    prefixes ← strings (get "forbidden_key_prefixes" inputs) "forbidden key prefixes"
    let policy : PromotionPolicy = record {
      schema_version = schema;
      policy_version = version;
      policy_sha256 = sha256;
      purpose = purpose;
      registry_collection = text_of "registry_collection" scope;
      source_project = text_of "source_project" scope;
      artifact_type = text_of "artifact_type" scope;
      target_alias = target;
      allowed_target_aliases = aliases;
      dry_run_default = dry_run;
      required_metadata = metadata;
      dataset_artifact = text_of "dataset_artifact" lineage;
      allowed_dataset_digests = digests;
      feature_schema_sha256 = text_of "feature_schema_sha256" lineage;
      allowed_evaluation_protocols = protocols;
      required_boolean_gates = boolean_gates;
      max_bundle_size_bytes = max_size;
      ranking = ranking;
      prefer_incumbent_on_metric_tie = is_true (get_or "prefer_incumbent_on_metric_tie" null tie);
      tie_break_field = text_of "final_field" tie;
      forbidden_key_fragments = fragments;
      forbidden_key_prefixes = prefixes;
    }
    raise_if (is_blank policy.registry_collection) incomplete_scope
    raise_if (is_blank policy.source_project) incomplete_scope
    raise_if (is_blank policy.artifact_type) incomplete_scope
    raise_if (is_blank policy.dataset_artifact) incomplete_scope
    raise_if (is_blank policy.feature_schema_sha256) incomplete_scope
    validate_target_alias policy policy.target_alias
    require (policy.tie_break_field =ₛ "candidate_id") bad_tie_break
    ok policy
