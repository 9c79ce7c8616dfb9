-- ===== src/Modeling/Protocol/Candidates/Named.antt =====
-- What the validation of the candidates guarantees (src/flight_delay/modeling/v3/protocol.py,
-- `_validate_candidates`).
use us_flight_delay_mlops.Prelude.{◌≡◌, true, false, some, List, [], ◌∷◌, All, String}
use us_flight_delay_mlops.Prelude.Text.{join}
use us_flight_delay_mlops.Prelude.Names.{member}
use us_flight_delay_mlops.Python.Equal.{eq_value}
use us_flight_delay_mlops.Python.Result.{ok}
use us_flight_delay_mlops.Python.Result.Ensures.{Ensures}
use us_flight_delay_mlops.Python.Value.{Value, Fields, null, str, dict, get, get_or, keys}
use us_flight_delay_mlops.Modeling.Checks.{column, text_list}
use us_flight_delay_mlops.Modeling.Checks.Laws.{look, AreRows}
use us_flight_delay_mlops.Modeling.Protocol.{
  base_configuration_ids, candidate_identity_ids, weight_policy_ids,
}
use us_flight_delay_mlops.Modeling.Protocol.Candidates.{weight_policy_suffix, text_form}

abbrev backend_keys : List String
backend_keys = "task_type" ∷ "devices" ∷ "n_jobs" ∷ "weight_policy" ∷ []

-- the configuration holds neither a backend nor a weight policy
abbrev pub IsFreeOfBackend : Fields → Type 0
IsFreeOfBackend row = All (λ key. member key (keys row) ≡ false) backend_keys

-- the row is named by its base configuration and its weight policy, which are known
pub record IsNamed (shown : Value → String) (row : Fields) : Type 0 where
  pub base : String
  pub is_base : get_or "base_configuration" null row ≡ str base
  pub base_known : member base base_configuration_ids ≡ true
  pub policy : String
  pub is_policy : get_or "weight_policy" null row ≡ str policy
  pub policy_known : member policy weight_policy_ids ≡ true
  pub suffix : String
  pub is_suffix : weight_policy_suffix policy ≡ ok suffix
  pub name : Value
  pub is_name : get "id" row ≡ some name
  pub named : text_form shown name ≡ join base (join "-" suffix)

-- the candidates that a protocol commits to, against the lock
pub record AreCommitted (shown : Value → String) (canonical_sha256 : Value → String)
    (protocol lock : Fields) : Type 0 where
  pub bases : List Fields
  pub bases_listed :
      AreRows
        (look ("carried_forward_configurations" ∷ "base_configurations" ∷ []) (dict protocol))
        bases
  pub bases_are : eq_value (column "id" bases) (text_list base_configuration_ids) ≡ true
  pub free_of_backend : All IsFreeOfBackend bases
  pub identities : List Fields
  pub identities_listed :
      AreRows (look ("candidate_identities" ∷ "identities" ∷ []) (dict protocol)) identities
  pub identities_are : eq_value (column "id" identities) (text_list candidate_identity_ids) ≡ true
  pub named : All (IsNamed shown) identities
  pub locked :
      eq_value
        (get_or "candidate_identities" null lock)
        (look ("candidate_identities" ∷ "identities" ∷ []) (dict protocol))
      ≡ true
  pub lock_digest :
      eq_value
        (get_or "candidate_identities_sha256" null lock)
        (str (canonical_sha256 (look ("candidate_identities" ∷ "identities" ∷ []) (dict protocol))))
      ≡ true
