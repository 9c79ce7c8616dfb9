-- ===== src/Deployment/Manifest/Parts.antt =====
-- What each part of the validation guarantees (src/flight_delay/deployment/manifest.py).
use us_flight_delay_mlops.Prelude.{
  ◌≡◌, ◌∙◌, ap, Bool, true, false, some, List, [], ◌∷◌, All, String, any, length, arith, Bool-cases,
  inl, inr, ◌==◌,
}
use us_flight_delay_mlops.Prelude.Names.{member, distinct}
use us_flight_delay_mlops.Python.Equal.{eq_value}
use us_flight_delay_mlops.Python.Result.{ok, ◌>>=◌}
use us_flight_delay_mlops.Python.Result.Ensures.{
  Ensures, Ensures-bind, Ensures-map, Ensures-eq_ok, require-eq-ok, raise_if-eq-ok, or_raise-eq-ok,
  >>=-eq-ok,
}
use us_flight_delay_mlops.Python.Value.{
  Value, Fields, null, str, bool, int, float, list, tuple, dict, end, field, get, get_or, as_dict,
  as_str,
}
use us_flight_delay_mlops.Modeling.Checks.Laws.{Ensures-end, as_dict-eq_some}
use us_flight_delay_mlops.Deployment.Patterns.{is_image}
use us_flight_delay_mlops.Deployment.Manifest.{
  required_member, object, as_set, identity_pairs, agree, validate_model, image_references,
  validate_images, credential_names, any_forbidden, validate_environment,
}

-- the member of the manifest is the object
abbrev pub Has : Fields → String → Fields → Type 0
Has manifest key d = get key manifest ≡ some (dict d)

-- the image is named by its digest and was built from the commit that is deployed
pub record IsImmutable (sha reference : String) (image : Fields) : Type 0 where
  pub is_reference : get_or "reference" (str "") image ≡ str reference
  pub immutable : is_image reference ≡ true
  pub source : eq_value (get_or "source_git_sha" null image) (str sha) ≡ true

-- the images and their references, in the same order
abbrev pub AreImmutable : String → Fields → List String → Type 0
AreImmutable sha end [] = Unit
AreImmutable sha end (r ∷ rs) = ⊥
AreImmutable sha (field k v fs) [] = ⊥
AreImmutable sha (field k v fs) (r ∷ rs) =
    ((image : Fields) × (v ≡ dict image) × IsImmutable sha r image) × AreImmutable sha fs rs

-- three images, each immutable, no two of them the same
pub record ImagesAreSafe (sha : String) (manifest : Fields) : Type 0 where
  pub images : Fields
  pub are_images : Has manifest "images" images
  pub references : List String
  pub immutable : AreImmutable sha images references
  pub distinct_references : (length references == length (distinct references)) ≡ true

-- the model has, under the first name of each pair, what the decision has under the second
abbrev pub AreAgreed : Fields → Fields → List (String × String) → Type 0
AreAgreed model decision = All (λ (pair : String × String).
    eq_value (get_or pair.0 null model) (get_or pair.1 null decision) ≡ true)

-- the model is the one that was released
pub record ModelIsReleased (manifest release_decision selection_lock : Fields) : Type 0 where
  pub model : Fields
  pub is_model : Has manifest "model" model
  pub identity : AreAgreed model release_decision identity_pairs
  pub threshold :
      eq_value
        (get_or "classification_threshold" null model)
        (get_or "threshold" null selection_lock)
      ≡ true
  pub bundle :
      eq_value
        (get_or "release_bundle_digest" null model)
        (get_or "aggregate_bundle_digest" null selection_lock)
      ≡ true

-- the names that a component is given hold no credential of AWS
pub record HasNoCredential (v : Value) : Type 0 where
  pub names : List String
  pub all_texts : Bool
  pub is_set : as_set v ≡ ok (names, all_texts)
  pub none_forbidden : All (λ name. member name names ≡ false) credential_names

abbrev pub EachValue : (Value → Type 0) → Fields → Type 0
EachValue P end = Unit
EachValue P (field k v fs) = P v × EachValue P fs

pub record EnvironmentIsSafe (manifest : Fields) : Type 0 where
  pub environment : Fields
  pub is_environment : Has manifest "environment_variable_names" environment
  pub safe : EachValue HasNoCredential environment

required_member-Has :
    (manifest : Fields) (key context : String) {d : Fields} {v : Value}
    → required_member manifest key context ≡ ok v
    → as_dict v ≡ some d
    → Has manifest key d
unfolding required_member
required_member-Has manifest key context {d} {v} h k =
    or_raise-eq-ok _ _ h ∙ ap some (as_dict-eq_some v k)

any-All : (p : String → Bool) (l : List String) → any p l ≡ false → All (λ x. p x ≡ false) l
any-All p [] h = tt
any-All p (x ∷ xs) h = (ground arith, any-All p xs (ground arith))

pub as_str-eq_some : (v : Value) {s : String} → as_str v ≡ some s → v ≡ str s
as_str-eq_some (str t) h = cc
as_str-eq_some null h = cc
as_str-eq_some (bool b) h = cc
as_str-eq_some (int n) h = cc
as_str-eq_some (float x) h = cc
as_str-eq_some (list vs) h = cc
as_str-eq_some (tuple vs) h = cc
as_str-eq_some (dict fs) h = cc

object-Has :
    (manifest : Fields) (key : String) {d : Fields}
    → (required_member manifest key "manifest" >>= object) ≡ ok d
    → Has manifest key d
object-Has manifest key {d} h =
    let (v, found, is_object) = >>=-eq-ok (required_member manifest key "manifest") object h in
    required_member-Has manifest key "manifest" found (or_raise-eq-ok _ _ is_object)

references-AreImmutable :
    (sha : String) (images : Fields)
    → Ensures (AreImmutable sha images) (image_references sha images)
unfolding image_references
references-AreImmutable sha end = tt
references-AreImmutable sha (field component v images) = Ensures-bind _ _ _ λ image i.
    Ensures-bind _ _ _ λ reference r. Ensures-bind _ _ _ λ _ immutable.
      Ensures-bind _ _ _ λ _ source. Ensures-bind _ _ _ λ rest more. (
        (
          image,
          as_dict-eq_some v (or_raise-eq-ok _ _ i),
          record {
            is_reference = as_str-eq_some _ (or_raise-eq-ok _ _ r);
            immutable = require-eq-ok _ _ immutable;
            source = require-eq-ok _ _ source;
          },
        ),
        Ensures-eq_ok (AreImmutable sha images) _ (references-AreImmutable sha images) more,
      )

pub images-ImagesAreSafe :
    (sha : String) (manifest : Fields)
    → Ensures (λ (u : Unit {0}). ImagesAreSafe sha manifest) (validate_images sha manifest)
unfolding validate_images
images-ImagesAreSafe sha manifest = Ensures-bind _ _ _ λ value v. Ensures-bind _ _ _ λ names _.
    Ensures-bind _ _ _ λ _ _. Ensures-bind _ _ _ λ images i. Ensures-bind _ _ _ λ references r.
      Ensures-end (λ (u : Unit {0}). ImagesAreSafe sha manifest) _
        λ apart. record {
          images = images;
          are_images = required_member-Has manifest "images" "manifest" v (or_raise-eq-ok _ _ i);
          references = references;
          immutable =
              Ensures-eq_ok (AreImmutable sha images) _ (references-AreImmutable sha images) r;
          distinct_references = require-eq-ok _ _ apart;
        }

agree-AreAgreed :
    (model decision : Fields) (pairs : List (String × String))
    → Ensures (λ (u : Unit {0}). AreAgreed model decision pairs) (agree model decision pairs)
unfolding agree
agree-AreAgreed model decision [] = tt
agree-AreAgreed model decision ((manifest_key, release_key) ∷ pairs) = Ensures-bind _ _ _ λ _ same.
    Ensures-end (λ (u : Unit {0}). AreAgreed model decision ((manifest_key, release_key) ∷ pairs)) _
      λ more. (
        require-eq-ok _ _ same,
        Ensures-eq_ok (λ (u : Unit {0}). AreAgreed model decision pairs) _
            (agree-AreAgreed model decision pairs) more,
      )

abbrev AreFree : Fields → Bool → Type 0
AreFree environment found = found ≡ false → EachValue HasNoCredential environment

any_forbidden-AreFree :
    (environment : Fields) → Ensures (AreFree environment) (any_forbidden environment)
unfolding any_forbidden
any_forbidden-AreFree end = λ _. tt
any_forbidden-AreFree (field component v environment) = Ensures-bind _ _ _ λ (names, all_texts) n.
    elim (Bool-cases (any (λ name. member name names) credential_names)) [
      | inl found ↦ rw found (λ e. cc)
      | inr clean ↦ rw clean (
          Ensures-map (AreFree environment) (AreFree (field component v environment)) _
            (λ found rest e. (
              record {
                names = names;
                all_texts = all_texts;
                is_set = n;
                none_forbidden = any-All (λ name. member name names) credential_names clean;
              },
              rest e,
            ))
            (any_forbidden-AreFree environment))
    ]

pub model-ModelIsReleased :
    (manifest decision lock : Fields)
    → Ensures
        (λ (u : Unit {0}). ModelIsReleased manifest decision lock)
        (validate_model manifest decision lock)
unfolding validate_model
model-ModelIsReleased manifest decision lock = Ensures-bind _ _ _ λ model m.
    Ensures-bind _ _ _ λ _ agreed. Ensures-bind _ _ _ λ _ threshold. Ensures-bind _ _ _ λ _ bundle.
      Ensures-bind _ _ _ λ _ _. Ensures-bind _ _ _ λ _ _.
        Ensures-end (λ (u : Unit {0}). ModelIsReleased manifest decision lock) _
          λ _. record {
            model = model;
            is_model = object-Has manifest "model" m;
            identity =
                Ensures-eq_ok (λ (u : Unit {0}). AreAgreed model decision identity_pairs) _
                  (agree-AreAgreed model decision identity_pairs) agreed;
            threshold = require-eq-ok _ _ threshold;
            bundle = require-eq-ok _ _ bundle;
          }

pub environment-EnvironmentIsSafe :
    (manifest : Fields)
    → Ensures (λ (u : Unit {0}). EnvironmentIsSafe manifest) (validate_environment manifest)
unfolding validate_environment
environment-EnvironmentIsSafe manifest = Ensures-bind _ _ _ λ environment e.
    Ensures-bind _ _ _ λ _ _. Ensures-bind _ _ _ λ found f.
      Ensures-end (λ (u : Unit {0}). EnvironmentIsSafe manifest) _
        λ none. record {
          environment = environment;
          is_environment = object-Has manifest "environment_variable_names" e;
          safe =
              Ensures-eq_ok (AreFree environment) _ (any_forbidden-AreFree environment) f
                (raise_if-eq-ok _ _ none);
        }
