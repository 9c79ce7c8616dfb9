-- ===== src/Modeling/Protocol/Tree.antt =====
-- src/flight_delay/modeling/v3/protocol.py: the files that the protocol depends on.
pub mod Pinned
use us_flight_delay_mlops.Prelude.{
  ◌≡◌, refl, ℕ, Bool, true, false, not, ◌&&◌, ◌||◌, Option, none, some, List, [], ◌∷◌, ◌++◌, map,
  String, all, any, length, ◌==◌, ◌=ₛ◌, if◌then◌else◌,
}
use us_flight_delay_mlops.Prelude.Int.{pos, negsuc}
use us_flight_delay_mlops.Prelude.Text.{codes, join}
use us_flight_delay_mlops.Prelude.Names.{member, distinct, same_names}
use us_flight_delay_mlops.Python.Equal.{eq_value}
use us_flight_delay_mlops.Python.Result.{Result, ok, err, ◌>>=◌, ◌>>◌, or_raise, raise_if, require}
use us_flight_delay_mlops.Python.Value.{
  Value, Items, Fields, null, bool, int, float, str, list, tuple, dict, nil, cons, end, field, get,
  get_or, keys, as_str, as_dict,
}
use us_flight_delay_mlops.Modeling.Checks.{
  ProtocolError, refused, attribute_error, index_error, key_error, type_error, must_prohibit,
  not_a_mapping, unpaired, mismatched, unreadable, section, as_mapping, expect, expects, text_list,
  identified, column, each_row,
}
use us_flight_delay_mlops.Modeling.Protocol.{
  protocol_id, protocol_sha256, protocol_lock_sha256, base_git_sha, v2_protocol_sha256,
  processed_features, deterministic_seasonal_features, v2_historical_features,
  seasonal_historical_features, v3_features, categorical_features, dyadic,
  lightgbm_common_parameters, catboost_common_parameters, weight_policy_ids, base_configuration_ids,
  candidate_identity_ids, calibration_variants, candidate_ranking_order, fold_ids,
  exponential_half_life_days, thanksgiving_window_range, christmas_window_range, day_distance_clip,
  list_of, is_in,
}

-- a file below the root: its digest, and what it holds where that can be read as JSON
pub record File : Type 0 where
  pub sha256 : String
  pub payload : Option Value

abbrev pub is_dict : Value → Bool
is_dict (dict fs) = true
is_dict _ = false

-- `"path" in mapping or "sha256" in mapping`
unfoldable pub names_file : Fields → Bool
names_file entry = member "path" (keys entry) || member "sha256" (keys entry)

-- `str(path)`
abbrev pub path_of : (Value → String) → Value → String
path_of shown (str s) = s
path_of shown v = shown v

-- `shown` is `str(v)` of a value that is no text; `find` reads the file at a path below the root.
module _ (shown : Value → String) (find : String → Option File) where
  -- the manifest's own digest, where the entry names one
  unfoldable pub manifest_matches : Fields → File → String → Result ProtocolError (Unit {0})
  manifest_matches entry file label = elim (get "manifest_digest" entry) [
    | none ↦ ok tt
    | some digest ↦ do
      payload ← or_raise file.payload (unreadable label)
      manifest ← or_raise (as_dict payload) attribute_error
      expect (get_or "manifest_digest" null manifest) digest label
  ]

  -- an entry that names a file
  unfoldable pub artifact_matches : Fields → String → Result ProtocolError (Unit {0})
  unfolding manifest_matches
  artifact_matches entry label = do
    path ← or_raise (get "path" entry) (unpaired label)
    sha256 ← or_raise (get "sha256" entry) (unpaired label)
    file ← or_raise (find (path_of shown path)) (mismatched label)
    require (eq_value (str file.sha256) sha256) (mismatched label)
    manifest_matches entry file label

  -- `_validate_dependency_tree` and the loop over the entries of a mapping
  unfoldable mutual
    unfolding artifact_matches names_file

    pub validate_dependency_tree : Value → String → Result ProtocolError (Unit {0})
    validate_dependency_tree (dict fs) label =
        let inside = validate_dependencies fs label in
        if names_file fs then artifact_matches fs label else inside
    validate_dependency_tree null label = err (not_a_mapping label)
    validate_dependency_tree (bool b) label = err (not_a_mapping label)
    validate_dependency_tree (int n) label = err (not_a_mapping label)
    validate_dependency_tree (float x) label = err (not_a_mapping label)
    validate_dependency_tree (str s) label = err (not_a_mapping label)
    validate_dependency_tree (list vs) label = err (not_a_mapping label)
    validate_dependency_tree (tuple vs) label = err (not_a_mapping label)

    pub validate_dependencies : Fields → String → Result ProtocolError (Unit {0})
    validate_dependencies end label = ok tt
    validate_dependencies (field key child fs) label = do
      if key =ₛ "base_git_sha" || not (is_dict child)
          then ok tt
          else validate_dependency_tree child (join label (join "." key))
      validate_dependencies fs label
