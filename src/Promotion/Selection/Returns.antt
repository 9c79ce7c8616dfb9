-- ===== src/Promotion/Selection/Returns.antt =====
-- `select_candidates` (src/flight_delay/promotion/selector.py) on candidate records, as
-- scripts/promote_model.py calls it: it raises nothing, and ranks the admitted ones by one order.
use us_flight_delay_mlops.Prelude.{
  ℕ, suc, ◌≡◌, refl, Bool, true, false, ◌&&◌, Option, none, some, List, [], ◌∷◌, map, String, All,
  filter, is_empty, if◌then◌else◌, Bool-cases, inl, inr,
}
use us_flight_delay_mlops.Prelude.Sort.{sort_by, All-sort_by}
use us_flight_delay_mlops.Prelude.Text.{codes}
use us_flight_delay_mlops.Python.Float.{Float}
use us_flight_delay_mlops.Python.Result.{Result, ok, err, ◌>>=◌}
use us_flight_delay_mlops.Python.Result.Returns.{Returns, Returns-bind, Returns-map_result}
use us_flight_delay_mlops.Python.Sorted.{AllAgree, Agrees, sort_result-eq}
use us_flight_delay_mlops.Python.Value.{Value}
use us_flight_delay_mlops.Promotion.Keys.{Raised}
use us_flight_delay_mlops.Promotion.Candidates.{CandidateRecord}
use us_flight_delay_mlops.Promotion.Candidates.Valid.{IsValid}
use us_flight_delay_mlops.Promotion.Policy.{PromotionPolicy, RankingRule}
use us_flight_delay_mlops.Promotion.Selector.{
  Rejection, policy_gate, SelectionResult, gate_reasons, rank_value, ranked_value,
  compare_candidates, is_incumbent, explanations,
}
use us_flight_delay_mlops.Promotion.Selector.Gates.{gate_reasons_iff}
use us_flight_delay_mlops.Promotion.Selector.Order.{
  IsFinite, IsRankable, total_order, compare_candidates-eq,
}
use us_flight_delay_mlops.Promotion.Selector.Rankable.{FitsFloat, IsAdmissible-IsRankable}
use us_flight_delay_mlops.Promotion.Selection.{
  parsed, gate, judge, judge_all, file, nothing_eligible, chosen, decide, select_candidates,
}

-- the candidate passes every gate of the policy
abbrev pub passes : PromotionPolicy → CandidateRecord → Bool
passes policy c = is_empty (gate_reasons c policy)

-- the rejections of the candidates that fail a gate, in order
abbrev pub gate_rejections : PromotionPolicy → List CandidateRecord → List Rejection
gate_rejections policy [] = []
gate_rejections policy (c ∷ cs) =
    let rest = gate_rejections policy cs in
    if passes policy c
    then rest
    else record {
      candidate_id = codes c.candidate_id;
      category = policy_gate;
      reasons = gate_reasons c policy;
    }
      ∷ rest

-- no two candidates are the incumbent
abbrev pub OneIncumbent : Option (List ℕ) → List CandidateRecord → Type 0
OneIncumbent incumbent [] = Unit
OneIncumbent incumbent (c ∷ cs) =
    All (λ d. (is_incumbent incumbent d && is_incumbent incumbent c) ≡ false) cs
    × OneIncumbent incumbent cs

abbrev pub head : List CandidateRecord → Option CandidateRecord
head [] = none
head (c ∷ cs) = some c

All-filter :
    (P : CandidateRecord → Type 0) (p : CandidateRecord → Bool) (cs : List CandidateRecord)
    → All P cs
    → All P (filter p cs)
All-filter P p [] h = tt
All-filter P p (c ∷ cs) h = elim (Bool-cases (p c)) [
  | inl keep ↦ rw keep (h.0, All-filter P p cs h.1)
  | inr drop ↦ rw drop (All-filter P p cs h.1)
]

OneIncumbent-filter :
    (incumbent : Option (List ℕ)) (p : CandidateRecord → Bool) (cs : List CandidateRecord)
    → OneIncumbent incumbent cs
    → OneIncumbent incumbent (filter p cs)
OneIncumbent-filter incumbent p [] h = tt
OneIncumbent-filter incumbent p (c ∷ cs) h = elim (Bool-cases (p c)) [
  | inl keep ↦ rw keep (All-filter _ p cs h.0, OneIncumbent-filter incumbent p cs h.1)
  | inr drop ↦ rw drop (OneIncumbent-filter incumbent p cs h.1)
]

is_empty-eq_nil {ℓ} : {A : Type ℓ} (xs : List A) → is_empty xs ≡ true → xs ≡ []
is_empty-eq_nil [] h = refl
is_empty-eq_nil (x ∷ xs) h = cc

IsRankable-passing :
    (policy : PromotionPolicy) (cs : List CandidateRecord)
    → FitsFloat policy
    → All IsValid cs
    → All (IsRankable policy.ranking) (filter (passes policy) cs)
IsRankable-passing policy [] fits h = tt
IsRankable-passing policy (c ∷ cs) fits h = elim (Bool-cases (passes policy c)) [
  | inl keep ↦ rw keep (
    IsAdmissible-IsRankable c policy h.0 fits
        ((gate_reasons_iff c policy).0 (is_empty-eq_nil _ keep)),
    IsRankable-passing policy cs fits h.1,
  )
  | inr drop ↦ rw drop (IsRankable-passing policy cs fits h.1)
]

module _ (policy : PromotionPolicy) (incumbent : Option (List ℕ)) where
  agree_later :
      (c : CandidateRecord) (cs : List CandidateRecord)
      → IsRankable policy.ranking c
      → All (IsRankable policy.ranking) cs
      → All (λ d. (is_incumbent incumbent d && is_incumbent incumbent c) ≡ false) cs
      → All (Agrees (compare_candidates policy incumbent) (total_order policy incumbent) c) cs
  agree_later c [] hc hs one = tt
  agree_later c (d ∷ ds) hc hs one =
      (compare_candidates-eq policy incumbent d c one.0 hs.0 hc, agree_later c ds hc hs.1 one.1)

  agree_all :
      (cs : List CandidateRecord)
      → All (IsRankable policy.ranking) cs
      → OneIncumbent incumbent cs
      → AllAgree (compare_candidates policy incumbent) (total_order policy incumbent) cs
  agree_all [] h one = tt
  agree_all (c ∷ cs) h one = (agree_later c cs h.0 h.1 one.0, agree_all cs h.1 one.1)

  IsFinite-Returns : (v : Result Raised Float) → IsFinite v → Returns v
  IsFinite-Returns (ok x) h = (x, refl)
  IsFinite-Returns (err e) h = absurd h

  values_return :
      (c : CandidateRecord) (rules : List RankingRule)
      → IsRankable rules c
      → All (λ (rule : RankingRule). Returns (ranked_value c rule)) rules
  unfolding ranked_value
  values_return c [] h = tt
  values_return c (rule ∷ rules) h = (
    Returns-bind (rank_value c rule.field) _ (IsFinite-Returns _ h.0)
        (λ x. ((rule.field, x), refl)),
    values_return c rules h.1,
  )

  explanations_return :
      (index : ℕ) (cs : List CandidateRecord)
      → All (IsRankable policy.ranking) cs
      → Returns (explanations policy incumbent index cs)
  unfolding explanations
  explanations_return index [] h = ([], refl)
  explanations_return index (c ∷ cs) h =
      Returns-bind _ _
        (Returns-bind _ _ (Returns-map_result _ policy.ranking (values_return c policy.ranking h.0))
          λ values. (_, refl))
        λ e. Returns-bind _ _ (explanations_return (suc index) cs h.1) λ es. (e ∷ es, refl)

  module _ (shown : Value → String) where
    judge_all-parsed :
        (index : ℕ) (cs : List CandidateRecord)
        → judge_all shown policy index (map parsed cs)
          ≡ ok (filter (passes policy) cs, gate_rejections policy cs)
    unfolding judge_all judge gate file ◌>>=◌
    judge_all-parsed index [] = refl
    judge_all-parsed index (c ∷ cs) = elim (Bool-cases (passes policy c)) [
      | inl keep ↦ rw (judge_all-parsed (suc index) cs) (simp keep)
      | inr drop ↦ rw (judge_all-parsed (suc index) cs) (simp drop)
    ]

    -- what `decide` makes of the ranked candidates
    abbrev pub Decides : List CandidateRecord → List Rejection → SelectionResult → Type 0
    Decides ranked rejections r =
        (r.eligible ≡ ranked)
        × (r.rejected ≡ rejections)
        × (r.winner ≡ head ranked)
        × (r.incumbent_identity ≡ incumbent)

    decide_returns :
        (ranked : List CandidateRecord) (rejections : List Rejection)
        → All (IsRankable policy.ranking) ranked
        → (r : SelectionResult) × (decide shown policy incumbent ranked rejections ≡ ok r)
          × Decides ranked rejections r
    unfolding decide nothing_eligible chosen ◌>>=◌
    decide_returns [] rejections h = (_, refl, (refl, refl, refl, refl))
    decide_returns (winner ∷ others) rejections h =
        let (explained, e) = explanations_return 1 (winner ∷ others) h in
        (
          chosen shown policy incumbent winner others rejections explained,
          rw e,
          (refl, refl, refl, refl),
        )

    -- The selection among records raises nothing: it returns the candidates that pass every gate,
    -- sorted by the ranked values, then the preferred incumbent, then the name, with the rejections
    -- of the others in their order and the first of the ranking as the winner. The records are
    -- valid, at most one of them is the incumbent, and the size limit of the policy is below 2^53.
    pub select_candidates_returns :
        (cs : List CandidateRecord)
        → FitsFloat policy
        → All IsValid cs
        → OneIncumbent incumbent cs
        → (r : SelectionResult) × (select_candidates shown policy incumbent (map parsed cs) ≡ ok r)
          × Decides
              (sort_by (total_order policy incumbent) (filter (passes policy) cs))
              (gate_rejections policy cs)
              r
    unfolding select_candidates ◌>>=◌
    select_candidates_returns cs fits valid one =
        let rankable = IsRankable-passing policy cs fits valid in
        let agree =
          agree_all (filter (passes policy) cs) rankable
            (OneIncumbent-filter incumbent (passes policy) cs one) in
        let sorted = All-sort_by (total_order policy incumbent) _ _ rankable in
        let (r, decided, is) = decide_returns _ (gate_rejections policy cs) sorted in
        (r, rw (judge_all-parsed 0 cs, sort_result-eq _ _ _ agree) decided, is)
