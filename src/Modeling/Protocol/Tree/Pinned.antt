-- ===== src/Modeling/Protocol/Tree/Pinned.antt =====
-- What the validation of the dependencies guarantees (src/flight_delay/modeling/v3/protocol.py,
-- `_validate_dependency_tree`), against an inductive account of the files that a tree names.
use us_flight_delay_mlops.Prelude.{◌≡◌, refl, ◌∙◌, ap, true, false, Option, some, String, ◌=ₛ◌}
use us_flight_delay_mlops.Prelude.Text.{join}
use us_flight_delay_mlops.Python.Equal.{eq_value}
use us_flight_delay_mlops.Python.Result.{ok}
use us_flight_delay_mlops.Python.Result.Ensures.{
  Ensures, Ensures-bind, Ensures-eq_ok, require-eq-ok, or_raise-eq-ok,
}
use us_flight_delay_mlops.Python.Value.{Value, Fields, null, str, dict, field, get, get_or}
use us_flight_delay_mlops.Modeling.Checks.{expect}
use us_flight_delay_mlops.Modeling.Checks.Laws.{as_dict-eq_some, Ensures-end, >>-first, >>-eq-ok}
use us_flight_delay_mlops.Modeling.Protocol.Tree.{
  File, is_dict, path_of, names_file, manifest_matches, artifact_matches, validate_dependency_tree,
  validate_dependencies,
}

-- `NamesFile v entry`: at some depth of the tree `v`, outside every other file's entry and below no
-- `base_git_sha`, stands the entry of a file.
mutual
  pub data Names : Value → Fields → Type 0 where
    this : {fs : Fields} → names_file fs ≡ true → Names (dict fs) fs
    below : {fs entry : Fields} → names_file fs ≡ false → Inside fs entry → Names (dict fs) entry

  pub data Inside : Fields → Fields → Type 0 where
    here :
        {key : String} {child : Value} {fs entry : Fields}
        → (key =ₛ "base_git_sha") ≡ false
        → Names child entry
        → Inside (field key child fs) entry
    later :
        {key : String} {child : Value} {fs entry : Fields}
        → Inside fs entry
        → Inside (field key child fs) entry

-- the file is a manifest that gives the digest as its own
pub record ManifestSays (file : File) (digest : Value) : Type 0 where
  pub payload : Fields
  pub is_payload : file.payload ≡ some (dict payload)
  pub same : eq_value (get_or "manifest_digest" null payload) digest ≡ true

module _ (shown : Value → String) (find : String → Option File) where
  -- the file that the entry names is there and has the digest that the entry gives
  pub record IsPinned (entry : Fields) : Type 0 where
    pub path : Value
    pub is_path : get "path" entry ≡ some path
    pub sha256 : Value
    pub is_sha256 : get "sha256" entry ≡ some sha256
    pub file : File
    pub found : find (path_of shown path) ≡ some file
    pub same : eq_value (str file.sha256) sha256 ≡ true
    pub manifest :
        (digest : Value) → get "manifest_digest" entry ≡ some digest → ManifestSays file digest

  manifest_matches-Says :
      (entry : Fields) (file : File) (label : String) (digest : Value)
      → get "manifest_digest" entry ≡ some digest
      → Ensures
          (λ (u : Unit {0}). ManifestSays file digest)
          (manifest_matches shown find entry file label)
  unfolding manifest_matches expect
  manifest_matches-Says entry file label digest h =
      rw (h, manifest_matches)
        (Ensures-bind _ _ _ λ payload p. Ensures-bind _ _ _ λ manifest m.
          Ensures-end (λ (u : Unit {0}). ManifestSays file digest) _
            λ same. record {
              payload = manifest;
              is_payload =
                  or_raise-eq-ok _ _ p ∙ ap some (as_dict-eq_some payload (or_raise-eq-ok _ _ m));
              same = require-eq-ok _ _ same;
            })

  artifact_matches-IsPinned :
      (entry : Fields) (label : String)
      → Ensures (λ (u : Unit {0}). IsPinned entry) (artifact_matches shown find entry label)
  unfolding artifact_matches
  artifact_matches-IsPinned entry label = Ensures-bind _ _ _ λ path p.
      Ensures-bind _ _ _ λ sha256 s. Ensures-bind _ _ _ λ file f. Ensures-bind _ _ _ λ _ same.
        Ensures-end (λ (u : Unit {0}). IsPinned entry) _
          λ last. record {
            path = path;
            is_path = or_raise-eq-ok _ _ p;
            sha256 = sha256;
            is_sha256 = or_raise-eq-ok _ _ s;
            file = file;
            found = or_raise-eq-ok _ _ f;
            same = require-eq-ok _ _ same;
            manifest = λ digest h.
                Ensures-eq_ok (λ (u : Unit {0}). ManifestSays file digest) _
                  (manifest_matches-Says entry file label digest h) last;
          }

  Names-dict : {v : Value} {entry : Fields} → Names v entry → is_dict v ≡ true
  Names-dict (this h) = refl
  Names-dict (below h k) = refl

  mutual
    unfolding validate_dependency_tree

    tree-IsPinned :
        {v : Value} {entry : Fields} (label : String)
        → Names v entry
        → validate_dependency_tree shown find v label ≡ ok tt
        → IsPinned entry
    tree-IsPinned label (this {fs} h) k =
        Ensures-eq_ok (λ (u : Unit {0}). IsPinned fs) _ (artifact_matches-IsPinned fs label)
          (rw h at k)
    tree-IsPinned label (below h inside) k = Inside-IsPinned label inside (rw h at k)

    Inside-IsPinned :
        {fs entry : Fields} (label : String)
        → Inside fs entry
        → validate_dependencies shown find fs label ≡ ok tt
        → IsPinned entry
    Inside-IsPinned label (here {key} other names) k =
        tree-IsPinned (join label (join "." key)) names
          (rw (other, Names-dict names) at (>>-first _ _ k))
    Inside-IsPinned label (later inside) k = Inside-IsPinned label inside (>>-eq-ok _ _ k)

  -- Every file that a validated tree of dependencies names in the mapping itself or in a mapping
  -- nested in it is there with the digest that the tree gives; members below the mapping of a file,
  -- in lists and under base_git_sha are not followed.
  pub validate_dependency_tree-IsPinned :
      {v : Value} {entry : Fields} (label : String)
      → validate_dependency_tree shown find v label ≡ ok tt
      → Names v entry
      → IsPinned entry
  validate_dependency_tree-IsPinned label h names = tree-IsPinned label names h
