-- ===== src/Promotion/Selector/Gates.antt =====
-- The mandatory gates of src/flight_delay/promotion/selector.py against their meaning.
use us_flight_delay_mlops.Prelude.{
  ◌≡◌, ◌≢◌, refl, ◌↔◌, Bool, true, false, not, Option, none, some, List, [], ◌∷◌, ◌++◌, String,
  filter, is_empty, All, eq_iff, Bool-cases, Option-cases, inl, inr,
}
use us_flight_delay_mlops.Prelude.Int.{ltb_ℤ}
use us_flight_delay_mlops.Prelude.Names.{member, sorted, distinct}
use us_flight_delay_mlops.Promotion.Candidates.{CandidateRecord}
use us_flight_delay_mlops.Promotion.Policy.{PromotionPolicy, metric_names}
use us_flight_delay_mlops.Promotion.Selector.{
  Reason, reason_if, gate_of, same_bool, gate_failures, metric_of, is_some, missing_metrics,
  gate_reasons, size_exceeds_gate, metrics_missing,
}

-- every metric that the policy ranks by is recorded
abbrev pub HasMetrics : CandidateRecord → List String → Type 0
HasMetrics c names = All (λ name. metric_of name c.development_metrics ≢ none) names

pub record IsAdmissible (c : CandidateRecord) (policy : PromotionPolicy) : Type 0 where
  pub collection : c.registry_path ≡ policy.registry_collection
  pub dataset : c.dataset_artifact ≡ policy.dataset_artifact
  pub digest : member c.dataset_digest policy.allowed_dataset_digests ≡ true
  pub schema : c.feature_schema_sha256 ≡ policy.feature_schema_sha256
  pub protocol : member c.evaluation_protocol policy.allowed_evaluation_protocols ≡ true
  pub gates : All (λ (g : String × Bool). gate_of c g.0 ≡ some g.1) policy.required_boolean_gates
  pub size : ltb_ℤ policy.max_bundle_size_bytes c.bundle_size_bytes ≡ false
  pub metrics : HasMetrics c (metric_names policy)

same_bool_iff : (o : Option Bool) (b : Bool) → (same_bool o b ≡ true) ↔ (o ≡ some b)
same_bool_iff none b = (λ h. cc, λ h. cc)
same_bool_iff (some true) true = (λ h. refl, λ h. refl)
same_bool_iff (some true) false = (λ h. cc, λ h. cc)
same_bool_iff (some false) true = (λ h. cc, λ h. cc)
same_bool_iff (some false) false = (λ h. refl, λ h. refl)

gate_failures_iff :
    (c : CandidateRecord) (gates : List (String × Bool))
    → (gate_failures c gates ≡ []) ↔ All (λ (g : String × Bool). gate_of c g.0 ≡ some g.1) gates
unfolding gate_failures
gate_failures_iff c [] = (λ h. tt, λ h. refl)
gate_failures_iff c (g ∷ gates) =
    let here = same_bool_iff (gate_of c g.0) g.1 in
    let later = gate_failures_iff c gates in
    elim (Bool-cases (same_bool (gate_of c g.0) g.1)) [
      | inl same ↦ rw same (λ h. (here.0 same, later.0 h), λ h. later.1 h.1)
      | inr differs ↦ rw differs (λ h. cc, λ h. cc (here.1 h.0))
    ]

missing_iff :
    (c : CandidateRecord) (names : List String)
    → (is_empty (filter (λ name. not (is_some (metric_of name c.development_metrics))) names)
        ≡ true)
      ↔ HasMetrics c names
missing_iff c [] = (λ h. tt, λ h. refl)
missing_iff c (name ∷ names) = elim (Option-cases (metric_of name c.development_metrics)) [
  | inl missing ↦ rw missing (λ h. cc, λ h. absurd (h.0 refl))
  | inr (x, found) ↦
      rw found (λ h. (λ e. cc, (missing_iff c names).0 h), λ h. (missing_iff c names).1 h.1)
]

missing_metrics_iff :
    (c : CandidateRecord) (policy : PromotionPolicy)
    → (is_empty (missing_metrics c policy) ≡ true) ↔ HasMetrics c (metric_names policy)
unfolding missing_metrics
missing_metrics_iff c policy = missing_iff c (metric_names policy)

reason_if-append_iff :
    (b : Bool) (r : Reason) (rest : List Reason)
    → (reason_if (not b) r ++ rest ≡ []) ↔ ((b ≡ true) × (rest ≡ []))
reason_if-append_iff true r rest = (λ h. (refl, h), λ h. h.1)
reason_if-append_iff false r rest = (λ h. cc, λ h. cc)

reason_if-eq-nil : (b : Bool) (r : Reason) → (reason_if b r ≡ []) ↔ (b ≡ false)
reason_if-eq-nil true r = (λ h. cc, λ h. cc)
reason_if-eq-nil false r = (λ h. refl, λ h. refl)

reason_if-not_iff : (b : Bool) (r : Reason) → (reason_if (not b) r ≡ []) ↔ (b ≡ true)
reason_if-not_iff true r = (λ h. refl, λ h. refl)
reason_if-not_iff false r = (λ h. cc, λ h. cc)

append-eq-nil : {A : Type 0} (xs ys : List A) → (xs ++ ys ≡ []) ↔ ((xs ≡ []) × (ys ≡ []))
append-eq-nil [] ys = (λ h. (refl, h), λ h. h.1)
append-eq-nil (x ∷ xs) ys = (λ h. cc, λ h. cc)

module _ (c : CandidateRecord) (policy : PromotionPolicy) where
  admitted : gate_reasons c policy ≡ [] → IsAdmissible c policy
  unfolding gate_reasons
  admitted h =
      let (same_collection, h₁) = (reason_if-append_iff _ _ _).0 h in
      let (same_dataset, h₂) = (reason_if-append_iff _ _ _).0 h₁ in
      let (digest, h₃) = (reason_if-append_iff _ _ _).0 h₂ in
      let (same_schema, h₄) = (reason_if-append_iff _ _ _).0 h₃ in
      let (protocol, h₅) = (reason_if-append_iff _ _ _).0 h₄ in
      let (gates, h₆) = (append-eq-nil _ _).0 h₅ in
      let (size, h₇) = (append-eq-nil _ _).0 h₆ in
      record {
        collection = (eq_iff _ _).0 same_collection;
        dataset = (eq_iff _ _).0 same_dataset;
        digest = digest;
        schema = (eq_iff _ _).0 same_schema;
        protocol = protocol;
        gates = (gate_failures_iff c _).0 gates;
        size = (reason_if-eq-nil _ _).0 size;
        metrics = (missing_metrics_iff c policy).0 ((reason_if-not_iff _ _).0 h₇);
      }

  admit : IsAdmissible c policy → gate_reasons c policy ≡ []
  unfolding gate_reasons
  admit a = (reason_if-append_iff _ _ _).1 (
    (eq_iff _ _).1 a.collection,
    (reason_if-append_iff _ _ _).1 (
      (eq_iff _ _).1 a.dataset,
      (reason_if-append_iff _ _ _).1 (
        a.digest,
        (reason_if-append_iff _ _ _).1
            ((eq_iff _ _).1 a.schema, (reason_if-append_iff _ _ _).1 (a.protocol, late_gates)),
      ),
    ),
  )
    where
      late_gates :
          gate_failures c policy.required_boolean_gates
            ++ (reason_if (ltb_ℤ policy.max_bundle_size_bytes c.bundle_size_bytes) size_exceeds_gate
                ++ reason_if
                    (not (is_empty (missing_metrics c policy)))
                    (metrics_missing (sorted (distinct (missing_metrics c policy)))))
          ≡ []
      late_gates = (append-eq-nil _ _).1 (
        (gate_failures_iff c _).1 a.gates,
        (append-eq-nil _ _).1 (
          (reason_if-eq-nil _ _).1 a.size,
          (reason_if-not_iff _ _).1 ((missing_metrics_iff c policy).1 a.metrics),
        ),
      )

  -- The gates find nothing against a candidate exactly when it is in the policy's collection and
  -- lineage, has an allowed digest, schema and protocol, the required value at each mandatory
  -- gate, a size within the limit, and every metric that the policy ranks by.
  pub gate_reasons_iff : (gate_reasons c policy ≡ []) ↔ IsAdmissible c policy
  gate_reasons_iff = (admitted, admit)
