-- ===== src/Promotion/Policy/Safe.antt =====
-- What `load_policy` guarantees of the policy that it returns.
use us_flight_delay_mlops.Prelude.{
  ◌≡◌, ◌≢◌, true, false, List, [], String, All, arith, eq_iff, some,
}
use us_flight_delay_mlops.Prelude.Int.{pos, leb_ℤ}
use us_flight_delay_mlops.Prelude.Names.{member}
use us_flight_delay_mlops.Python.Result.{ok}
use us_flight_delay_mlops.Python.Result.Ensures.{
  Ensures, Ensures-bind, Ensures-eq_ok, or_raise-eq-ok, raise_if-eq-ok, require-eq-ok,
}
use us_flight_delay_mlops.Python.Value.{Value, Items, nil, cons}
use us_flight_delay_mlops.Promotion.Policy.{
  PromotionPolicy, RankingRule, is_final_test, ranking_rule, ranking_rules, as_nonempty_list,
  validate_target_alias, load_policy,
}

pub record IsSafe (policy : PromotionPolicy) : Type 0 where
  pub target : member policy.target_alias policy.allowed_target_aliases ≡ true
  pub no_final_test : All (λ (r : RankingRule). is_final_test r.field ≡ false) policy.ranking
  pub some_rule : policy.ranking ≢ []
  pub positive_size : leb_ℤ policy.max_bundle_size_bytes (pos 0) ≡ false
  pub tie_break : policy.tie_break_field ≡ "candidate_id"

ranking_rule-safe :
    (item : Value)
    → Ensures (λ (r : RankingRule). is_final_test r.field ≡ false) (ranking_rule item)
unfolding ranking_rule
ranking_rule-safe item = Ensures-bind _ _ _ λ rule _. Ensures-bind _ _ _ λ field _.
    Ensures-bind _ _ _ λ direction _. Ensures-bind _ _ _ λ u safe. raise_if-eq-ok _ _ safe

abbrev AreSafe : List RankingRule → Type 0
AreSafe = All (λ (r : RankingRule). is_final_test r.field ≡ false)

ranking_rules-safe : (items : Items) → Ensures AreSafe (ranking_rules items)
unfolding ranking_rules
ranking_rules-safe nil = tt
ranking_rules-safe (cons item items) = Ensures-bind _ _ _ λ rule made.
    Ensures-bind _ _ _ λ rest more. (
      Ensures-eq_ok _ _ (ranking_rule-safe item) made,
      Ensures-eq_ok AreSafe _ (ranking_rules-safe items) more,
    )

ranking_rules-some :
    (v : Value) (items : Items)
    → as_nonempty_list v ≡ some items
    → Ensures (λ rules. rules ≢ []) (ranking_rules items)
unfolding ranking_rules
ranking_rules-some v nil h = ground arith
ranking_rules-some v (cons item items) h =
    Ensures-bind _ _ _ λ rule made. Ensures-bind _ _ _ λ rest more. λ e. cc

module _ (shown : Value → String) where
  load_policy-Ensures :
      (payload : Value) (sha256 : String) → Ensures IsSafe (load_policy shown payload sha256)
  unfolding load_policy validate_target_alias
  load_policy-Ensures payload sha256 = Ensures-bind _ _ _ λ root _. Ensures-bind _ _ _ λ schema _.
      Ensures-bind _ _ _ λ _ _. Ensures-bind _ _ _ λ version _. Ensures-bind _ _ _ λ purpose _.
        Ensures-bind _ _ _ λ target _. Ensures-bind _ _ _ λ dry_run _. Ensures-bind _ _ _ λ scope _.
          Ensures-bind _ _ _ λ lineage _. Ensures-bind _ _ _ λ gates _. Ensures-bind _ _ _ λ tie _.
            Ensures-bind _ _ _ λ inputs _. Ensures-bind _ _ _ λ only _. Ensures-bind _ _ _ λ _ _.
              Ensures-bind _ _ _ λ items are_items. Ensures-bind _ _ _ λ ranking ranked.
                Ensures-bind _ _ _ λ _ _. Ensures-bind _ _ _ λ boolean_gates _.
                  Ensures-bind _ _ _ λ max_size _. Ensures-bind _ _ _ λ _ positive.
                    Ensures-bind _ _ _ λ aliases _. Ensures-bind _ _ _ λ metadata _.
                      Ensures-bind _ _ _ λ digests _. Ensures-bind _ _ _ λ protocols _.
                        Ensures-bind _ _ _ λ fragments _. Ensures-bind _ _ _ λ prefixes _.
                          Ensures-bind _ _ _ λ _ _. Ensures-bind _ _ _ λ _ _.
                            Ensures-bind _ _ _ λ _ _. Ensures-bind _ _ _ λ _ _.
                              Ensures-bind _ _ _ λ _ _. Ensures-bind _ _ _ λ _ allowed.
                                Ensures-bind _ _ _ λ _ last. record {
                                  target = require-eq-ok _ _ allowed;
                                  no_final_test =
                                      Ensures-eq_ok AreSafe _ (ranking_rules-safe items) ranked;
                                  some_rule =
                                      Ensures-eq_ok (λ rules. rules ≢ []) _
                                        (ranking_rules-some _ items (or_raise-eq-ok _ _ are_items))
                                        ranked;
                                  positive_size = raise_if-eq-ok _ _ positive;
                                  tie_break = (eq_iff _ "candidate_id").0 (require-eq-ok _ _ last);
                                }

  -- Every policy that `load_policy` returns allows its own target alias, ranks by at least one
  -- field and by none of the final test, has a positive size limit, and breaks ties by
  -- `candidate_id`.
  pub load_policy-IsSafe :
      (payload : Value) (sha256 : String) {policy : PromotionPolicy}
      → load_policy shown payload sha256 ≡ ok policy
      → IsSafe policy
  load_policy-IsSafe payload sha256 h =
      Ensures-eq_ok IsSafe _ (load_policy-Ensures payload sha256) h
