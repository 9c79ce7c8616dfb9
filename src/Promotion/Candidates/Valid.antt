-- ===== src/Promotion/Candidates/Valid.antt =====
-- What `CandidateRecord.from_mapping` guarantees of the record that it returns.
use us_flight_delay_mlops.Prelude.{
  Option-cases, ◌≡◌, ◌≢◌, true, false, some, List, [], String, arith, All, inl, inr,
}
use us_flight_delay_mlops.Prelude.Int.{pos, leb_ℤ}
use us_flight_delay_mlops.Prelude.Text.{codes, is_blank}
use mathlib.Core.Path.{subst}
use us_flight_delay_mlops.Prelude.Names.{All-sorted_distinct}
use us_flight_delay_mlops.Python.Result.{ok}
use us_flight_delay_mlops.Python.Result.Ensures.{
  Ensures-const, Ensures, Ensures-bind, Ensures-eq_ok, or_raise-eq-ok, raise_if-eq-ok,
  require-eq-ok,
}
use us_flight_delay_mlops.Python.Float.{Float, isfinite}
use us_flight_delay_mlops.Python.Value.{
  Value, Fields, Items, null, bool, int, float, str, list, tuple, dict, end, field, nil, cons, get,
  as_nonempty_str,
}
use us_flight_delay_mlops.Promotion.Keys.{Keypath, is_forbidden}
use us_flight_delay_mlops.Promotion.Keys.Scan.{KeyAt, scan_keys_iff}
use us_flight_delay_mlops.Promotion.Candidates.{
  CandidateRecord, identity_field, is_git_sha, normalize_metrics, alias_names, from_mapping,
  as_metrics, metrics_field,
}

abbrev pub IsNamed : String → Type 0
IsNamed s = is_blank s ≡ false

-- a metric has a name and a finite value
abbrev pub IsMetric : String × Float → Type 0
IsMetric m = IsNamed m.0 × (isfinite m.1 ≡ true)

pub record IsValid (c : CandidateRecord) : Type 0 where
  pub candidate_id : IsNamed c.candidate_id
  pub registry_path : IsNamed c.registry_path
  pub registry_version : IsNamed c.registry_version
  pub registry_digest : IsNamed c.registry_digest
  pub source_artifact_name : IsNamed c.source_artifact_name
  pub source_artifact_version : IsNamed c.source_artifact_version
  pub source_artifact_digest : IsNamed c.source_artifact_digest
  pub git_sha : is_git_sha c.git_sha ≡ true
  pub dataset_artifact : IsNamed c.dataset_artifact
  pub dataset_digest : IsNamed c.dataset_digest
  pub feature_schema_sha256 : IsNamed c.feature_schema_sha256
  pub evaluation_protocol : IsNamed c.evaluation_protocol
  pub metrics : All IsMetric c.development_metrics
  pub some_metric : c.development_metrics ≢ []
  pub positive_size : leb_ℤ c.bundle_size_bytes (pos 0) ≡ false
  pub aliases : All IsNamed c.aliases

identity_field-IsNamed :
    (fs : Fields) (name : String) {s : String} → identity_field fs name ≡ ok s → IsNamed s
unfolding identity_field
identity_field-IsNamed fs name h = ground arith

normalize_metrics-IsMetric : (fs : Fields) → Ensures (All IsMetric) (normalize_metrics fs)
unfolding normalize_metrics
normalize_metrics-IsMetric end = tt
normalize_metrics-IsMetric (field name v fs) = Ensures-bind _ _ _ λ _ named.
    Ensures-bind _ _ _ λ x read. Ensures-bind _ _ _ λ _ fin. Ensures-bind _ _ _ λ rest more. (
      (raise_if-eq-ok _ _ named, require-eq-ok _ _ fin),
      Ensures-eq_ok (All IsMetric) _ (normalize_metrics-IsMetric fs) more,
    )

normalize_metrics_some :
    (k : String) (v : Value) (fs : Fields)
    → Ensures (λ out. out ≢ []) (normalize_metrics (field k v fs))
unfolding normalize_metrics
normalize_metrics_some k v fs = Ensures-bind _ _ _ λ _ named.
    Ensures-bind _ _ _ λ x read. Ensures-bind _ _ _ λ _ fin. Ensures-bind _ _ _ λ rest more. λ e. cc

as_metrics-some :
    (v : Value) (fs : Fields)
    → as_metrics v ≡ some fs
    → Ensures (λ out. out ≢ []) (normalize_metrics fs)
as_metrics-some (dict (field k v fs)) gs h =
    subst (λ g. Ensures (λ out. out ≢ []) (normalize_metrics g)) (cc)
      (normalize_metrics_some k v fs)
as_metrics-some (dict end) gs h = cc
as_metrics-some null gs h = cc
as_metrics-some (bool b) gs h = cc
as_metrics-some (int n) gs h = cc
as_metrics-some (float x) gs h = cc
as_metrics-some (str t) gs h = cc
as_metrics-some (list vs) gs h = cc
as_metrics-some (tuple vs) gs h = cc

metrics_field-some :
    (value fs : Fields)
    → metrics_field value ≡ some fs
    → Ensures (λ out. out ≢ []) (normalize_metrics fs)
unfolding metrics_field
metrics_field-some value fs h = elim (Option-cases (get "development_metrics" value)) [
  | inl missing ↦ ground arith
  | inr (v, found) ↦ as_metrics-some v fs (ground arith)
]

as_nonempty_str-IsNamed : (v : Value) {s : String} → as_nonempty_str v ≡ some s → IsNamed s
as_nonempty_str-IsNamed v h = ground arith

alias_names-IsNamed : (vs : Items) → Ensures (All IsNamed) (alias_names vs)
unfolding alias_names
alias_names-IsNamed nil = tt
alias_names-IsNamed (cons v vs) = Ensures-bind _ _ _ λ alias read. Ensures-bind _ _ _ λ rest more. (
  as_nonempty_str-IsNamed v (or_raise-eq-ok _ _ read),
  Ensures-eq_ok (All IsNamed) _ (alias_names-IsNamed vs) more,
)

from_mapping-Ensures :
    (fragments prefixes : List String) (raw : Value)
    → Ensures IsValid (from_mapping fragments prefixes raw)
unfolding from_mapping
from_mapping-Ensures fragments prefixes raw = Ensures-bind _ _ _ λ value is_dict.
    Ensures-bind _ _ _ λ _ scanned. Ensures-bind _ _ _ λ _ known. Ensures-bind _ _ _ λ _ present.
      Ensures-bind _ _ _ λ s₁ e₁. Ensures-bind _ _ _ λ s₂ e₂. Ensures-bind _ _ _ λ s₃ e₃.
        Ensures-bind _ _ _ λ s₄ e₄. Ensures-bind _ _ _ λ s₅ e₅. Ensures-bind _ _ _ λ s₆ e₆.
          Ensures-bind _ _ _ λ s₇ e₇. Ensures-bind _ _ _ λ s₈ e₈. Ensures-bind _ _ _ λ s₉ e₉.
            Ensures-bind _ _ _ λ s₁₀ e₁₀. Ensures-bind _ _ _ λ s₁₁ e₁₁.
              Ensures-bind _ _ _ λ s₁₂ e₁₂. Ensures-bind _ _ _ λ _ sha. Ensures-bind _ _ _ λ size _.
                Ensures-bind _ _ _ λ _ positive. Ensures-bind _ _ _ λ g₁ _.
                  Ensures-bind _ _ _ λ g₂ _. Ensures-bind _ _ _ λ g₃ _. Ensures-bind _ _ _ λ g₄ _.
                    Ensures-bind _ _ _ λ metrics is_metrics. Ensures-bind _ _ _ λ normalized read.
                      Ensures-bind _ _ _ λ items _. Ensures-bind _ _ _ λ aliases named. record {
                        candidate_id = identity_field-IsNamed value _ e₁;
                        registry_path = identity_field-IsNamed value _ e₂;
                        registry_version = identity_field-IsNamed value _ e₃;
                        registry_digest = identity_field-IsNamed value _ e₄;
                        source_artifact_name = identity_field-IsNamed value _ e₅;
                        source_artifact_version = identity_field-IsNamed value _ e₆;
                        source_artifact_digest = identity_field-IsNamed value _ e₇;
                        git_sha = require-eq-ok _ _ sha;
                        dataset_artifact = identity_field-IsNamed value _ e₉;
                        dataset_digest = identity_field-IsNamed value _ e₁₀;
                        feature_schema_sha256 = identity_field-IsNamed value _ e₁₁;
                        evaluation_protocol = identity_field-IsNamed value _ e₁₂;
                        metrics =
                            Ensures-eq_ok (All IsMetric) _ (normalize_metrics-IsMetric metrics)
                              read;
                        some_metric =
                            Ensures-eq_ok (λ out. out ≢ []) _
                              (metrics_field-some value metrics (or_raise-eq-ok _ _ is_metrics))
                              read;
                        positive_size = raise_if-eq-ok _ _ positive;
                        aliases =
                            All-sorted_distinct IsNamed aliases
                              (Ensures-eq_ok (All IsNamed) _ (alias_names-IsNamed items) named);
                      }

-- Every record that `from_mapping` returns has identity texts that are not empty, a full commit
-- SHA, a positive bundle size, at least one metric, only finite metrics with names, and named
-- aliases.
pub from_mapping-IsValid :
    (fragments prefixes : List String) (raw : Value) {c : CandidateRecord}
    → from_mapping fragments prefixes raw ≡ ok c
    → IsValid c
from_mapping-IsValid fragments prefixes raw h =
    Ensures-eq_ok IsValid _ (from_mapping-Ensures fragments prefixes raw) h

module _ (fragments prefixes : List String) (raw : Value) where
  -- no key at any depth of `raw` has a forbidden path
  abbrev pub IsClean : Type 0
  IsClean =
      (p : Keypath) → KeyAt (codes "candidate") raw p → is_forbidden fragments prefixes p ≡ false

  from_mapping_clean : Ensures (λ c. IsClean) (from_mapping fragments prefixes raw)
  unfolding from_mapping
  from_mapping_clean = Ensures-bind _ _ _ λ value is_dict. Ensures-bind _ _ _ λ u scanned.
      Ensures-const ((scan_keys_iff fragments prefixes (codes "candidate") raw).0 scanned) _

-- A value from which `from_mapping` makes a record holds no forbidden key, such as one of a
-- final-test metric, at any depth: not in a dict, nor in a list or a tuple inside one.
pub from_mapping-IsClean :
    (fragments prefixes : List String) (raw : Value) {c : CandidateRecord}
    → from_mapping fragments prefixes raw ≡ ok c
    → IsClean fragments prefixes raw
from_mapping-IsClean fragments prefixes raw h =
    Ensures-eq_ok (λ c. IsClean fragments prefixes raw) _
      (from_mapping_clean fragments prefixes raw) h
