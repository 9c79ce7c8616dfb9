-- ===== src/Promotion/Selector/Order.antt =====
-- The comparison of src/flight_delay/promotion/selector.py (`_compare`) as a total preorder: on
-- candidates whose ranked values exist and are finite it raises nothing.
use us_flight_delay_mlops.Prelude.{
  ◌≡◌, refl, Bool, true, false, ◌&&◌, Option, List, [], ◌∷◌, String, All, arith, Ordering,
  if◌then◌else◌, ℕ,
}
use us_flight_delay_mlops.Prelude.Int.{ℤ, pos, compare_ℤ}
use us_flight_delay_mlops.Prelude.Compare.{
  then_by, IsPreorder, IsPreorder-then_by, IsPreorder-on, IsPreorder-reverse, IsPreorder-tie,
  compare_ℕ, IsPreorder-compare_ℕ, IsPreorder-compare_ℤ,
}
use us_flight_delay_mlops.Prelude.Names.{compare_text, IsPreorder-compare_text}
use us_flight_delay_mlops.Python.Result.{Result, ok, err, ◌>>=◌}
use us_flight_delay_mlops.Python.Float.{Float, finite, inf, neg_inf, nan, flt, feq}
use us_flight_delay_mlops.Promotion.Keys.{Raised}
use us_flight_delay_mlops.Promotion.Candidates.{CandidateRecord}
use us_flight_delay_mlops.Promotion.Policy.{
  PromotionPolicy, RankingRule, Direction, maximize, minimize,
}
use us_flight_delay_mlops.Promotion.Selector.{
  rank_value, preferred, compare_rules, same_rank_values, is_incumbent, break_tie, after_rules,
  compare_candidates,
}

abbrev pub IsFinite : Result Raised Float → Type 0
IsFinite (ok (finite n)) = Unit
IsFinite _ = ⊥

-- every value that the rules read is there, and finite
abbrev pub IsRankable : List RankingRule → CandidateRecord → Type 0
IsRankable rules c = All (λ (rule : RankingRule). IsFinite (rank_value c rule.field)) rules

abbrev pub numerator : Result Raised Float → ℤ
numerator (ok (finite n)) = n
numerator _ = pos 0

-- the value of a rankable candidate, as the integer that it is a multiple of
abbrev pub score : String → CandidateRecord → ℤ
score field c = numerator (rank_value c field)

abbrev pub compare_scores : Direction → ℤ → ℤ → Ordering
compare_scores maximize l r = compare_ℤ r l
compare_scores minimize l r = compare_ℤ l r

unfoldable pub rank_order : List RankingRule → CandidateRecord → CandidateRecord → Ordering
rank_order [] l r = Ordering.eq
rank_order (rule ∷ rules) l r =
    then_by (compare_scores rule.direction (score rule.field l) (score rule.field r))
      (rank_order rules l r)

IsPreorder-compare_scores : (d : Direction) → IsPreorder (compare_scores d)
IsPreorder-compare_scores maximize = IsPreorder-reverse IsPreorder-compare_ℤ
IsPreorder-compare_scores minimize = IsPreorder-compare_ℤ

pub IsPreorder-rank_order : (rules : List RankingRule) → IsPreorder (rank_order rules)
unfolding rank_order
IsPreorder-rank_order [] = IsPreorder-tie
IsPreorder-rank_order (rule ∷ rules) =
    IsPreorder-then_by (IsPreorder-on (IsPreorder-compare_scores rule.direction) (score rule.field))
      (IsPreorder-rank_order rules)

step_scores :
    (d : Direction) (vl vr : Result Raised Float) (rest : Ordering)
    → IsFinite vl
    → IsFinite vr
    → (vl >>= λ left.
        vr >>= λ right. if feq left right then ok rest else ok (preferred d left right))
      ≡ ok (then_by (compare_scores d (numerator vl) (numerator vr)) rest)
unfolding ◌>>=◌ feq flt
step_scores maximize (ok (finite m)) (ok (finite n)) rest hl hr = ground arith
step_scores minimize (ok (finite m)) (ok (finite n)) rest hl hr = ground arith
step_scores d (ok inf) vr rest hl hr = absurd hl
step_scores d (ok neg_inf) vr rest hl hr = absurd hl
step_scores d (ok nan) vr rest hl hr = absurd hl
step_scores d (err e) vr rest hl hr = absurd hl
step_scores d (ok (finite m)) (ok inf) rest hl hr = absurd hr
step_scores d (ok (finite m)) (ok neg_inf) rest hl hr = absurd hr
step_scores d (ok (finite m)) (ok nan) rest hl hr = absurd hr
step_scores d (ok (finite m)) (err e) rest hl hr = absurd hr

pub compare_rules-eq :
    (l r : CandidateRecord) (rules : List RankingRule)
    → IsRankable rules l
    → IsRankable rules r
    → compare_rules l r rules ≡ ok (rank_order rules l r)
unfolding compare_rules rank_order
compare_rules-eq l r [] hl hr = refl
compare_rules-eq l r (rule ∷ rules) hl hr = rw (compare_rules-eq l r rules hl.1 hr.1) (
    step_scores rule.direction (rank_value l rule.field) (rank_value r rule.field)
      (rank_order rules l r) hl.0 hr.0)

step_same :
    (vl vr : Result Raised Float) (d : Direction) (rest : Result Raised Bool)
    → IsFinite vl
    → IsFinite vr
    → compare_scores d (numerator vl) (numerator vr) ≡ Ordering.eq
    → (vl >>= λ left. vr >>= λ right. if feq left right then rest else ok false) ≡ rest
unfolding ◌>>=◌ feq
step_same (ok (finite m)) (ok (finite n)) maximize rest hl hr e = ground arith
step_same (ok (finite m)) (ok (finite n)) minimize rest hl hr e = ground arith
step_same (ok inf) vr d rest hl hr e = absurd hl
step_same (ok neg_inf) vr d rest hl hr e = absurd hl
step_same (ok nan) vr d rest hl hr e = absurd hl
step_same (err x) vr d rest hl hr e = absurd hl
step_same (ok (finite m)) (ok inf) d rest hl hr e = absurd hr
step_same (ok (finite m)) (ok neg_inf) d rest hl hr e = absurd hr
step_same (ok (finite m)) (ok nan) d rest hl hr e = absurd hr
step_same (ok (finite m)) (err x) d rest hl hr e = absurd hr

same_rank_values-eq :
    (l r : CandidateRecord) (rules : List RankingRule)
    → IsRankable rules l
    → IsRankable rules r
    → rank_order rules l r ≡ Ordering.eq
    → same_rank_values l r rules ≡ ok true
unfolding same_rank_values rank_order
same_rank_values-eq l r [] hl hr e = refl
same_rank_values-eq l r (rule ∷ rules) hl hr e =
    rw (same_rank_values-eq l r rules hl.1 hr.1 (ground arith)) (
      step_same (rank_value l rule.field) (rank_value r rule.field) rule.direction (ok true) hl.0
        hr.0 (ground arith))

module _ (policy : PromotionPolicy) (incumbent : Option (List ℕ)) where
  -- 0 for an incumbent that the policy prefers in a tie
  unfoldable pub tie_rank : CandidateRecord → ℕ
  tie_rank c = if policy.prefer_incumbent_on_metric_tie && is_incumbent incumbent c then 0 else 1

  -- the ranked values, then the preferred incumbent, then the name
  unfoldable pub total_order : CandidateRecord → CandidateRecord → Ordering
  total_order l r =
      then_by (rank_order policy.ranking l r)
        (then_by (compare_ℕ (tie_rank l) (tie_rank r)) (compare_text l.candidate_id r.candidate_id))

  pub IsPreorder-total_order : IsPreorder total_order
  unfolding total_order
  IsPreorder-total_order = IsPreorder-then_by (IsPreorder-rank_order policy.ranking) (
      IsPreorder-then_by (IsPreorder-on IsPreorder-compare_ℕ tie_rank)
        (IsPreorder-on IsPreorder-compare_text (λ (c : CandidateRecord). c.candidate_id)))

  module _ (l r : CandidateRecord)
      (different : (is_incumbent incumbent l && is_incumbent incumbent r) ≡ false) where
    break_tie-eq :
        (same : Bool)
        → (policy.prefer_incumbent_on_metric_tie ≡ true → same ≡ true)
        → break_tie policy incumbent l r same
          ≡ then_by
              (compare_ℕ (tie_rank l) (tie_rank r))
              (compare_text l.candidate_id r.candidate_id)
    unfolding break_tie tie_rank
    break_tie-eq same h = ground (arith, h)

    module _ (hl : IsRankable policy.ranking l) (hr : IsRankable policy.ranking r) where
      same_if_preferred :
          rank_order policy.ranking l r ≡ Ordering.eq
          → (b : Bool) (e : policy.prefer_incumbent_on_metric_tie ≡ b)
          → after_rules policy incumbent l r Ordering.eq
            ≡ ok (
                then_by
                  (compare_ℕ (tie_rank l) (tie_rank r))
                  (compare_text l.candidate_id r.candidate_id))
      unfolding after_rules ◌>>=◌
      same_if_preferred tied true e =
          simp (e, same_rank_values-eq l r policy.ranking hl hr tied)
            (rw (break_tie-eq true (λ p. refl)))
      same_if_preferred tied false e = simp e (rw (break_tie-eq false (λ p. cc)))

      after_rules-eq :
          (o : Ordering)
          → rank_order policy.ranking l r ≡ o
          → after_rules policy incumbent l r o
            ≡ ok (
                then_by o (
                  then_by
                    (compare_ℕ (tie_rank l) (tie_rank r))
                    (compare_text l.candidate_id r.candidate_id)))
      unfolding after_rules
      after_rules-eq Ordering.lt e = refl
      after_rules-eq Ordering.gt e = refl
      after_rules-eq Ordering.eq e = same_if_preferred e policy.prefer_incumbent_on_metric_tie refl

      -- On rankable candidates that are not both the incumbent, `_compare` is the total order.
      pub compare_candidates-eq : compare_candidates policy incumbent l r ≡ ok (total_order l r)
      unfolding compare_candidates total_order ◌>>=◌
      compare_candidates-eq =
          rw (compare_rules-eq l r policy.ranking hl hr)
            (after_rules-eq (rank_order policy.ranking l r) refl)
