-- ===== src/Promotion/Selector/Rankable.antt =====
-- Admitted candidates are rankable: the gates of src/flight_delay/promotion/selector.py and the
-- validation of the records leave no value that `_rank_value` could miss.
use us_flight_delay_mlops.Prelude.{
  ◌^◌, ◌≡◌, ◌≢◌, refl, true, false, not, none, List, [], ◌∷◌, map, String, All, arith, filter, ◌=ₛ◌,
  Bool-cases, inl, inr,
}
use us_flight_delay_mlops.Prelude.Int.{ℤ, pos, negsuc, leb_ℤ, ltb_ℤ}
use us_flight_delay_mlops.Python.Result.{or_raise}
use us_flight_delay_mlops.Python.Float.{
  Float, finite, inf, neg_inf, nan, float_of_int, float_of_int_exact,
}
use us_flight_delay_mlops.Promotion.Keys.{Raised}
use us_flight_delay_mlops.Promotion.Candidates.{CandidateRecord}
use us_flight_delay_mlops.Promotion.Candidates.Valid.{IsMetric, IsValid}
use us_flight_delay_mlops.Promotion.Policy.{PromotionPolicy, RankingRule, metric_names}
use us_flight_delay_mlops.Promotion.Selector.{rank_value, metric_of}
use us_flight_delay_mlops.Promotion.Selector.Gates.{HasMetrics, IsAdmissible}
use us_flight_delay_mlops.Promotion.Selector.Order.{IsFinite, IsRankable}

-- a size limit below 2^53, which a float holds exactly
abbrev pub FitsFloat : PromotionPolicy → Type 0
FitsFloat policy = ltb_ℤ policy.max_bundle_size_bytes (pos (2 ^ 53)) ≡ true

metric_of-IsFinite :
    (name : String) (metrics : List (String × Float))
    → All IsMetric metrics
    → metric_of name metrics ≢ none
    → (e : Raised) → IsFinite (or_raise (metric_of name metrics) e)
unfolding metric_of
metric_of-IsFinite name [] valid found e = absurd (found refl)
metric_of-IsFinite name ((n, finite x) ∷ metrics) valid found e = elim (Bool-cases (n =ₛ name)) [
  | inl same ↦ rw same tt
  | inr other ↦ rw other (metric_of-IsFinite name metrics valid.1 (rw other at found) e)
]
metric_of-IsFinite name ((n, inf) ∷ metrics) valid found e = cc (valid.0.1)
metric_of-IsFinite name ((n, neg_inf) ∷ metrics) valid found e = cc (valid.0.1)
metric_of-IsFinite name ((n, nan) ∷ metrics) valid found e = cc (valid.0.1)

size-IsFinite :
    (size limit : ℤ)
    → leb_ℤ size (pos 0) ≡ false
    → ltb_ℤ limit size ≡ false
    → ltb_ℤ limit (pos (2 ^ 53)) ≡ true
    → (e : Raised) → IsFinite (or_raise (float_of_int size) e)
size-IsFinite (pos n) limit positive within fits e = rw (float_of_int_exact n (ground arith)) tt
size-IsFinite (negsuc n) limit positive within fits e = absurd (ground arith)

module _ (c : CandidateRecord) (policy : PromotionPolicy) (valid : IsValid c)
    (fits : FitsFloat policy)
    (size : ltb_ℤ policy.max_bundle_size_bytes c.bundle_size_bytes ≡ false) where
  rules-IsRankable :
      (rules : List RankingRule)
      → HasMetrics c (
          filter
            (λ field. not (field =ₛ "bundle_size_bytes"))
            (map (λ (r : RankingRule). r.field) rules))
      → IsRankable rules c
  unfolding rank_value
  rules-IsRankable [] h = tt
  rules-IsRankable (rule ∷ rules) h = elim (Bool-cases (rule.field =ₛ "bundle_size_bytes")) [
    | inl is_size ↦ rw is_size (
      size-IsFinite c.bundle_size_bytes policy.max_bundle_size_bytes valid.positive_size size fits
          _,
      rules-IsRankable rules (rw is_size at h),
    )
    | inr is_metric ↦
        let h' = rw is_metric at h in
        rw is_metric (
          metric_of-IsFinite rule.field c.development_metrics valid.metrics h'.0 _,
          rules-IsRankable rules h'.1,
        )
  ]

-- A valid candidate that passes the gates has a finite value for every rule of the policy.
pub IsAdmissible-IsRankable :
    (c : CandidateRecord) (policy : PromotionPolicy)
    → IsValid c
    → FitsFloat policy
    → IsAdmissible c policy
    → IsRankable policy.ranking c
unfolding metric_names
IsAdmissible-IsRankable c policy valid fits a =
    rules-IsRankable c policy valid fits a.size policy.ranking a.metrics
