-- ===== src/Promotion/Selection/Winner.antt =====
-- The winner of `select_candidates` (src/flight_delay/promotion/selector.py).
use mathlib.Core.List.{Perm, Mem}
use mathlib.Core.List.Perm
use us_flight_delay_mlops.Prelude.{
  ℕ, ◌≡◌, ◌≢◌, refl, sym, ap, ◌∙◌, true, Option, some, List, [], ◌∷◌, map, String, All, arith,
  filter, Ordering, Bool-cases, inl, inr,
}
use us_flight_delay_mlops.Prelude.Int.{ℤ, ltb_ℤ}
use us_flight_delay_mlops.Prelude.Sort.{sort_by, sort_by_head, sort_by-perm, sort_by_perm_eq}
use us_flight_delay_mlops.Prelude.Rearrange.{filter-perm, mem_of_mem-filter}
use us_flight_delay_mlops.Prelude.Names.{compare_text-eq}
use us_flight_delay_mlops.Python.Result.{ok}
use mathlib.Core.Path.{subst}
use us_flight_delay_mlops.Python.Result.Ensures.{ok-injective}
use us_flight_delay_mlops.Python.Value.{Value}
use us_flight_delay_mlops.Promotion.Candidates.{CandidateRecord}
use us_flight_delay_mlops.Promotion.Candidates.Valid.{IsValid}
use us_flight_delay_mlops.Promotion.Policy.{
  PromotionPolicy, RankingRule, Direction, maximize, minimize,
}
use us_flight_delay_mlops.Promotion.Selector.{SelectionResult, is_incumbent}
use us_flight_delay_mlops.Promotion.Selector.Order.{
  score, compare_scores, rank_order, tie_rank, total_order, IsPreorder-total_order,
  IsPreorder-rank_order,
}
use us_flight_delay_mlops.Promotion.Selector.Rankable.{FitsFloat}
use us_flight_delay_mlops.Promotion.Selection.{parsed, select_candidates}
use us_flight_delay_mlops.Promotion.Selection.Returns.{
  passes, OneIncumbent, head, gate_rejections, Decides, select_candidates_returns,
}

-- `a` is the better of two values
abbrev pub IsAhead : Direction → ℤ → ℤ → Type 0
IsAhead maximize a b = ltb_ℤ b a ≡ true
IsAhead minimize a b = ltb_ℤ a b ≡ true

-- `l` is better than `r` by the first rule where they differ.
pub data Outranks (l r : CandidateRecord) : List RankingRule → Type 0 where
  ahead :
      {rule : RankingRule} {rules : List RankingRule}
      → IsAhead rule.direction (score rule.field l) (score rule.field r)
      → Outranks l r (rule ∷ rules)
  level :
      {rule : RankingRule} {rules : List RankingRule}
      → score rule.field l ≡ score rule.field r
      → Outranks l r rules
      → Outranks l r (rule ∷ rules)

-- equal by every rule
abbrev pub IsLevel : List RankingRule → CandidateRecord → CandidateRecord → Type 0
IsLevel rules l r = All (λ (rule : RankingRule). score rule.field l ≡ score rule.field r) rules

ahead-compare : (d : Direction) (a b : ℤ) → IsAhead d a b → compare_scores d a b ≡ Ordering.lt
ahead-compare maximize a b h = ground arith
ahead-compare minimize a b h = ground arith

level-compare : (d : Direction) (a b : ℤ) → a ≡ b → compare_scores d a b ≡ Ordering.eq
level-compare maximize a b h = ground arith
level-compare minimize a b h = ground arith

Outranks-rank_order :
    {l r : CandidateRecord} {rules : List RankingRule}
    → Outranks l r rules
    → rank_order rules l r ≡ Ordering.lt
unfolding rank_order
Outranks-rank_order (ahead {rule} h) = rw (ahead-compare rule.direction _ _ h)
Outranks-rank_order (level {rule} h more) =
    rw (level-compare rule.direction _ _ h) (Outranks-rank_order more)

IsLevel-rank_order :
    (l r : CandidateRecord) (rules : List RankingRule)
    → IsLevel rules l r
    → rank_order rules l r ≡ Ordering.eq
unfolding rank_order
IsLevel-rank_order l r [] h = refl
IsLevel-rank_order l r (rule ∷ rules) h =
    rw (level-compare rule.direction _ _ h.0) (IsLevel-rank_order l r rules h.1)

head-some :
    (l : List CandidateRecord) {w : CandidateRecord}
    → head l ≡ some w
    → (rest : List CandidateRecord) × (l ≡ w ∷ rest)
head-some [] h = cc
head-some (x ∷ l) h = (l, cc)

module _ (shown : Value → String) (policy : PromotionPolicy) (incumbent : Option (List ℕ)) where
  module _ (cs : List CandidateRecord) (fits : FitsFloat policy) (valid : All IsValid cs)
      (one : OneIncumbent incumbent cs) {r : SelectionResult}
      (done : select_candidates shown policy incumbent (map parsed cs) ≡ ok r) where
    pub decided :
        Decides policy incumbent shown
          (sort_by (total_order policy incumbent) (filter (passes policy) cs))
          (gate_rejections policy cs)
          r
    decided =
        let (r', e, is) = select_candidates_returns policy incumbent shown cs fits valid one in
        subst
          (λ x.
            Decides policy incumbent shown
              (sort_by (total_order policy incumbent) (filter (passes policy) cs))
              (gate_rejections policy cs) x)
          (ok-injective (sym e ∙ done)) is

    winner_below :
        (w c : CandidateRecord)
        → r.winner ≡ some w
        → Mem c r.eligible
        → total_order policy incumbent w c ≢ Ordering.gt
    winner_below w c won m =
        let (ranked, _, is_head, _) = decided in
        let (rest, e) = head-some _ (sym is_head ∙ won) in
        let sorted = sort_by-perm (total_order policy incumbent) (filter (passes policy) cs) in
        sort_by_head (IsPreorder-total_order policy incumbent) _ e c
          ((Perm.mem_iff sorted).0 (rw ranked at m))

    -- Where a selection among records returns, its winner is outranked by no eligible candidate at
    -- the first rule of the policy where the two differ. The records are valid, at most one of them
    -- is the incumbent, and the size limit of the policy is below 2^53.
    pub winner_not_outranked :
        (w c : CandidateRecord)
        → r.winner ≡ some w
        → Mem c r.eligible
        → ¬ Outranks c w policy.ranking
    unfolding total_order
    winner_not_outranked w c won m above =
        let flips = (IsPreorder-rank_order policy.ranking).flips c w in
        winner_below w c won m (rw (flips, Outranks-rank_order above))

    -- Where the policy prefers the incumbent in a tie and an eligible incumbent is level by every
    -- rule with the winner of a selection among records, the winner is the incumbent. The records
    -- are valid, at most one of them is the incumbent, and the size limit of the policy is below
    -- 2^53.
    pub tied_incumbent_retained :
        (w c : CandidateRecord)
        → r.winner ≡ some w
        → Mem c r.eligible
        → policy.prefer_incumbent_on_metric_tie ≡ true
        → is_incumbent incumbent c ≡ true
        → IsLevel policy.ranking w c
        → is_incumbent incumbent w ≡ true
    unfolding total_order tie_rank
    tied_incumbent_retained w c won m prefer inc tied =
        let below = winner_below w c won m in
        let tie = IsLevel-rank_order w c policy.ranking tied in
        elim (Bool-cases (is_incumbent incumbent w)) [
          | inl is ↦ is
          | inr isnt ↦ absurd (below (simp (tie, prefer, inc, isnt)))
        ]

  -- `candidate_id` tells the candidates of the list apart
  abbrev pub DistinctNames : List CandidateRecord → Type 0
  DistinctNames cs =
      (c d : CandidateRecord) → Mem c cs → Mem d cs → c.candidate_id ≡ d.candidate_id → c ≡ d

  tied_names :
      (c d : CandidateRecord)
      → total_order policy incumbent c d ≡ Ordering.eq
      → c.candidate_id ≡ d.candidate_id
  unfolding total_order
  tied_names c d h = compare_text-eq c.candidate_id d.candidate_id (ground arith)

  -- Two selections among the same records, listed in different orders, return the same ranking and
  -- the same winner. The records have distinct names, are valid, at most one of them is the
  -- incumbent in either list, and the size limit of the policy is below 2^53.
  pub selection_order_free :
      (cs ds : List CandidateRecord)
      → FitsFloat policy
      → All IsValid cs
      → OneIncumbent incumbent cs
      → All IsValid ds
      → OneIncumbent incumbent ds
      → DistinctNames cs
      → Perm cs ds
      → {r s : SelectionResult} → select_candidates shown policy incumbent (map parsed cs) ≡ ok r
      → select_candidates shown policy incumbent (map parsed ds) ≡ ok s
      → (r.eligible ≡ s.eligible) × (r.winner ≡ s.winner)
  selection_order_free cs ds fits valid_c one_c valid_d one_d names p done_r done_s =
      let (ranked_r, _, head_r, _) = decided cs fits valid_c one_c done_r in
      let (ranked_s, _, head_s, _) = decided ds fits valid_d one_d done_s in
      let same =
        sort_by_perm_eq (IsPreorder-total_order policy incumbent) _ _
          (λ a b ma mb e.
            names a b (mem_of_mem-filter (passes policy) cs ma)
              (mem_of_mem-filter (passes policy) cs mb) (tied_names a b e))
          (filter-perm (passes policy) p) in
      (ranked_r ∙ same ∙ sym ranked_s, head_r ∙ ap head same ∙ sym head_s)
