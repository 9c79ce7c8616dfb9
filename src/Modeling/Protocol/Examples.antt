-- ===== src/Modeling/Protocol/Examples.antt =====
-- The validation of the protocol at the governed protocol itself.
use us_flight_delay_mlops.Prelude.{
  ◌≡◌, refl, Option, none, some, [], ◌∷◌, String, ◌=ₛ◌, if◌then◌else◌,
}
use us_flight_delay_mlops.Prelude.Names.{member}
use us_flight_delay_mlops.Prelude.Text.{join}
use us_flight_delay_mlops.Python.Equal.{eq_value}
use us_flight_delay_mlops.Python.Result.{ok, ◌>>=◌}
use us_flight_delay_mlops.Python.Value.{Value, Fields, str, dict, dict_of, fields_of, get_or, null}
use us_flight_delay_mlops.Modeling.Protocol.Frozen.{protocol, lock_of}
use us_flight_delay_mlops.Modeling.Checks.{
  as_mapping, expect, expects, text_list, column, row_fields, identified, each_row,
}
use us_flight_delay_mlops.Modeling.Protocol.Stages.{
  contiguous_fold, validate_folds, validate_advancement, validate_execution, validate_stages,
}
use us_flight_delay_mlops.Modeling.Protocol.Governance.{
  prohibits, validate_periods, validate_november, validate_december, validate_release,
  validate_governance,
}
use us_flight_delay_mlops.Modeling.Protocol.Tree.{
  File, names_file, artifact_matches, manifest_matches, validate_dependency_tree,
}
use us_flight_delay_mlops.Python.Float.{feq, unit}
use us_flight_delay_mlops.Python.Value.{get, keys}
use us_flight_delay_mlops.Python.Equal.{field_count}
use us_flight_delay_mlops.Modeling.Protocol.Load.{Source}
use us_flight_delay_mlops.Modeling.Protocol.Governance.Sealed.{
  IsSealed, validate_governance-IsSealed,
}
use us_flight_delay_mlops.Modeling.Protocol.Stages.Contiguous.{
  FoldsAreFrozen, validate_stages-FoldsAreFrozen,
}
use us_flight_delay_mlops.Modeling.Protocol.Tree.Pinned.{
  Names, this, below, here, later, IsPinned, validate_dependency_tree-IsPinned,
}
use us_flight_delay_mlops.Modeling.Protocol.{
  protocol_sha256, protocol_lock_sha256, candidate_ranking_order, fold_ids, list_of, is_in,
}

abbrev shown : Value → String
shown v = "value"

abbrev digest_of : Value → String
digest_of v = "digest"

abbrev find : String → Option File
find path =
    if path =ₛ "configs/v1_experiment_protocol.yaml"
    then some (record {
      sha256 = "a6b1de9de550d1bd94eae0e56f8d88d65801ec488b6c539fc64afbafa4ccfffb";
      payload = none;
    })
    else if path =ₛ "deploy/deployment_manifest.json"
    then some (record {
      sha256 = "c7879091603db3a510c62236cfe35cb2f84e70980bc4a8b183dfcc2f19e2d8ed";
      payload = none;
    })
    else if path =ₛ "data/manifests/v3_source_manifest.json"
    then some (record {
      sha256 = "b454c92289cc8cd7fe4c48c5e60dfb9baa6180e646331203cab53fc5c7ce13b1";
      payload = some (
          dict_of (
            (
              "manifest_digest",
              str "673cac214739e8c0d2991a1bdbd1591a90e8907d7cf5bdbc34caddd72015b6af",
            )
            ∷ []));
    })
    else none

abbrev protocol_file : Source
protocol_file = record { sha256 = protocol_sha256; parsed = some (dict protocol) }

abbrev lock_file : Source
lock_file = record { sha256 = protocol_lock_sha256; parsed = some (dict (lock_of "digest")) }

stages_valid : validate_stages protocol ≡ ok tt
unfolding validate_stages validate_folds validate_advancement validate_execution identified column
    row_fields each_row contiguous_fold fold_ids candidate_ranking_order ◌>>=◌ as_mapping expect
    expects text_list get eq_value feq unit field_count
stages_valid = refl

governance_valid : validate_governance protocol ≡ ok tt
unfolding validate_governance validate_periods validate_november validate_december validate_release
    prohibits list_of is_in ◌>>=◌ as_mapping expect expects text_list get eq_value feq unit
    field_count
governance_valid = refl

tree_valid :
    validate_dependency_tree shown find (get_or "dependencies" null protocol) "dependencies" ≡ ok tt
unfolding validate_dependency_tree names_file artifact_matches manifest_matches keys member join
    ◌>>=◌ as_mapping expect expects text_list get eq_value feq unit field_count
tree_valid = refl

validate_governance-IsSealed_example : IsSealed (dict protocol)
validate_governance-IsSealed_example = validate_governance-IsSealed protocol governance_valid

validate_stages-FoldsAreFrozen_example : FoldsAreFrozen protocol
validate_stages-FoldsAreFrozen_example = validate_stages-FoldsAreFrozen protocol stages_valid

abbrev manifest_entry : Fields
manifest_entry = fields_of (
    ("path", str "deploy/deployment_manifest.json")
    ∷ ("sha256", str "c7879091603db3a510c62236cfe35cb2f84e70980bc4a8b183dfcc2f19e2d8ed")
    ∷ [])

named : Names (get_or "dependencies" null protocol) manifest_entry
unfolding get names_file member keys
named = below refl (later (later (here refl (this refl))))

validate_dependency_tree-IsPinned_example : IsPinned shown find manifest_entry
validate_dependency_tree-IsPinned_example =
    validate_dependency_tree-IsPinned shown find "dependencies" tree_valid named
