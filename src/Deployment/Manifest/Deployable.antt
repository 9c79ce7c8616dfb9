-- ===== src/Deployment/Manifest/Deployable.antt =====
-- What a validated manifest guarantees (src/flight_delay/deployment/manifest.py).
use us_flight_delay_mlops.Prelude.{
  ◌≡◌, refl, ◌∙◌, ap, Bool, true, false, Option, none, some, String, any,
}
use us_flight_delay_mlops.Prelude.Text.{codes}
use us_flight_delay_mlops.Python.Result.{ok}
use us_flight_delay_mlops.Python.Result.Ensures.{
  Ensures, Ensures-bind, Ensures-eq_ok, require-eq-ok, raise_if-eq-ok, or_raise-eq-ok,
}
use us_flight_delay_mlops.Python.Value.{Value, Fields, str, dict, get}
use us_flight_delay_mlops.Modeling.Checks.Laws.{Ensures-end}
use us_flight_delay_mlops.Deployment.Patterns.{is_image, is_sha, search_for, secret_value_patterns}
use us_flight_delay_mlops.Deployment.Manifest.{
  required_member, deployment_sha, validate_smoke_test, validate_deployment_manifest,
}
use us_flight_delay_mlops.Deployment.Manifest.Parts.{
  ImagesAreSafe, ModelIsReleased, EnvironmentIsSafe, as_str-eq_some, images-ImagesAreSafe,
  model-ModelIsReleased, environment-EnvironmentIsSafe,
}

-- none of the patterns for secret values matches the JSON of the manifest
abbrev pub MatchesNoPattern : (Value → String) → Fields → Type 0
MatchesNoPattern dumps manifest =
    any (λ pattern_of. search_for pattern_of (codes (dumps (dict manifest)))) secret_value_patterns
    ≡ false

-- the commit, where the check of it returns one
pub record IsCommit (reachable : Option (String → Bool)) (manifest : Fields) (sha : String)
    : Type 0 where
  pub is_sha : get "deployment_git_sha" manifest ≡ some (str sha)
  pub full : us_flight_delay_mlops.Deployment.Patterns.is_sha sha ≡ true
  pub reached :
      (is_reachable : String → Bool) → reachable ≡ some is_reachable → is_reachable sha ≡ true

same_test : (f g : String → Bool) (s : String) → f ≡ g → f s ≡ true → g s ≡ true
same_test f g s e h = rw e at h

some-injective : {f g : String → Bool} → ◌≡◌ {A = Option (String → Bool)} (some f) (some g) → f ≡ g
some-injective h = cc

sha-IsCommit :
    (reachable : Option (String → Bool)) (manifest : Fields)
    → Ensures (IsCommit reachable manifest) (deployment_sha reachable manifest)
unfolding deployment_sha required_member
sha-IsCommit none manifest = Ensures-bind _ _ _ λ value v. Ensures-bind _ _ _ λ sha s.
    Ensures-bind _ _ _ λ _ full. record {
      is_sha = or_raise-eq-ok _ _ v ∙ ap some (as_str-eq_some value (or_raise-eq-ok _ _ s));
      full = require-eq-ok _ _ full;
      reached = λ is_reachable e. cc;
    }
sha-IsCommit (some is_reachable) manifest = Ensures-bind _ _ _ λ value v.
    Ensures-bind _ _ _ λ sha s. Ensures-bind _ _ _ λ _ full. Ensures-bind _ _ _ λ _ reached.
      record {
        is_sha = or_raise-eq-ok _ _ v ∙ ap some (as_str-eq_some value (or_raise-eq-ok _ _ s));
        full = require-eq-ok _ _ full;
        reached = λ other e.
            same_test is_reachable other sha (some-injective e) (require-eq-ok _ _ reached);
      }

-- the manifest may be deployed
pub record IsDeployable (dumps : Value → String) (reachable : Option (String → Bool))
    (manifest release_decision selection_lock : Fields) : Type 0 where
  pub sha : String
  pub commit : IsCommit reachable manifest sha
  pub images : ImagesAreSafe sha manifest
  pub model : ModelIsReleased manifest release_decision selection_lock
  pub environment : EnvironmentIsSafe manifest
  pub no_secret : MatchesNoPattern dumps manifest

module _ (shown : Value → String) (dumps : Value → String) where
  smoke-MatchesNoPattern :
      (manifest : Fields)
      → Ensures
          (λ (u : Unit {0}). MatchesNoPattern dumps manifest)
          (validate_smoke_test shown dumps manifest)
  unfolding validate_smoke_test
  smoke-MatchesNoPattern manifest = Ensures-bind _ _ _ λ smoke _. Ensures-bind _ _ _ λ _ _.
      Ensures-end (λ (u : Unit {0}). MatchesNoPattern dumps manifest) _
        λ none. raise_if-eq-ok _ _ none

  deployable :
      (reachable : Option (String → Bool)) (manifest release_decision selection_lock : Fields)
      → Ensures
          (λ out.
            (out ≡ manifest)
            × IsDeployable dumps reachable manifest release_decision selection_lock)
          (validate_deployment_manifest shown dumps reachable manifest release_decision
            selection_lock)
  unfolding validate_deployment_manifest
  deployable reachable manifest decision lock = Ensures-bind _ _ _ λ _ _. Ensures-bind _ _ _ λ _ _.
      Ensures-bind _ _ _ λ sha commit. Ensures-bind _ _ _ λ _ model. Ensures-bind _ _ _ λ _ images.
        Ensures-bind _ _ _ λ _ _. Ensures-bind _ _ _ λ _ environment. Ensures-bind _ _ _ λ _ smoke.
          (
            refl,
            record {
              sha = sha;
              commit =
                  Ensures-eq_ok (IsCommit reachable manifest) _ (sha-IsCommit reachable manifest)
                    commit;
              images =
                  Ensures-eq_ok (λ (u : Unit {0}). ImagesAreSafe sha manifest) _
                    (images-ImagesAreSafe sha manifest) images;
              model =
                  Ensures-eq_ok (λ (u : Unit {0}). ModelIsReleased manifest decision lock) _
                    (model-ModelIsReleased manifest decision lock) model;
              environment =
                  Ensures-eq_ok (λ (u : Unit {0}). EnvironmentIsSafe manifest) _
                    (environment-EnvironmentIsSafe manifest) environment;
              no_secret =
                  Ensures-eq_ok (λ (u : Unit {0}). MatchesNoPattern dumps manifest) _
                    (smoke-MatchesNoPattern manifest) smoke;
            },
          )

  -- A manifest that is validated is returned as it is, and: its commit is a full SHA that the
  -- repository, where there is one, can reach; its images are named by digests, built from that
  -- commit and distinct; its model agrees with the release decision and the selection lock; no
  -- environment holds a name of AWS credentials; and none of the code's patterns for secret values
  -- matches its JSON.
  pub validate_deployment_manifest-IsDeployable :
      (reachable : Option (String → Bool)) (manifest release_decision selection_lock : Fields)
      {out : Fields}
      → validate_deployment_manifest shown dumps reachable manifest release_decision selection_lock
        ≡ ok out
      → (out ≡ manifest) × IsDeployable dumps reachable manifest release_decision selection_lock
  validate_deployment_manifest-IsDeployable reachable manifest decision lock h =
      Ensures-eq_ok (λ out. (out ≡ manifest) × IsDeployable dumps reachable manifest decision lock)
        _ (deployable reachable manifest decision lock) h
