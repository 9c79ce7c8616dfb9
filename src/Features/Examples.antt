-- ===== src/Features/Examples.antt =====
-- The guard at concrete schemas.
use us_flight_delay_mlops.Prelude.{◌≡◌, refl, ◌↔◌, [], ◌∷◌, true, false}
use us_flight_delay_mlops.Prelude.Compare.{compare_codes}
use us_flight_delay_mlops.Prelude.Text.{to_lower}
use us_flight_delay_mlops.Prelude.Names.{distinct}
use us_flight_delay_mlops.Python.Result.{ok, err, ◌>>=◌}
use us_flight_delay_mlops.Features.Leakage.{
  Unicode, casefold, validate_model_features, allowed_model_features, forbidden_features,
}
use us_flight_delay_mlops.Python.Result.Returns.{Returns}
use us_flight_delay_mlops.Features.Leakage.Guard.{IsSafeSchema, validate_model_features_iff}

-- letters beyond ASCII, all of them, and no white space
abbrev latin : Unicode
latin = record { folded = λ c. c ∷ []; alnum = λ c. true; space = λ c. false }

alias_is_caught :
    validate_model_features latin ("Month" ∷ "dep_delay" ∷ [])
    ≡ err (record { forbidden = "DepDelay" ∷ []; unapproved = [] })
unfolding validate_model_features allowed_model_features forbidden_features distinct compare_codes
    casefold to_lower ◌>>=◌
alias_is_caught = refl

all_allowed : validate_model_features latin allowed_model_features ≡ ok allowed_model_features
unfolding validate_model_features allowed_model_features forbidden_features distinct compare_codes
    casefold to_lower ◌>>=◌
all_allowed = refl

validate_model_features_iff_example :
    Returns (validate_model_features latin ("Month" ∷ "Origin" ∷ []))
    ↔ IsSafeSchema latin ("Month" ∷ "Origin" ∷ [])
validate_model_features_iff_example = validate_model_features_iff latin ("Month" ∷ "Origin" ∷ [])

accepts_two : validate_model_features latin ("Month" ∷ "Origin" ∷ []) ≡ ok ("Month" ∷ "Origin" ∷ [])
unfolding validate_model_features allowed_model_features forbidden_features distinct compare_codes
    casefold to_lower ◌>>=◌
accepts_two = refl

-- a letter beyond ASCII makes another name
accent_is_unapproved :
    validate_model_features latin ("Monthé" ∷ [])
    ≡ err (record { forbidden = []; unapproved = "Monthé" ∷ [] })
unfolding validate_model_features allowed_model_features forbidden_features distinct compare_codes
    casefold to_lower ◌>>=◌
accent_is_unapproved = refl
