-- ===== src/Promotion/Examples.antt =====
-- Runs of the promotion package on two versions of a model, and its theorems at these inputs.
use mathlib.Core.List.{Mem, mem-cons, mem-cons_self, mem-cons_of_mem, not-mem-nil}
use mathlib.Core.List.Perm
use mathlib.Core.Logic.Or
use mathlib.Core.HLevel.{Π_prop, prop→set}
use text.Mathlib.TextEquality.{IsScalar-prop}
use us_flight_delay_mlops.Prelude.{
  ℕ, ◌≡◌, ◌≢◌, refl, sym, ◌∙◌, ap, Bool, true, false, Option, some, List, [], ◌∷◌, map, String, All,
  arith, filter, eq_iff,
}
use us_flight_delay_mlops.Prelude.Int.{pos}
use us_flight_delay_mlops.Prelude.Text.{codes, is_blank}
use us_flight_delay_mlops.Prelude.Names.{member, compare_text}
use us_flight_delay_mlops.Python.Result.{ok}
use us_flight_delay_mlops.Python.Float.{finite, float_of_int}
use us_flight_delay_mlops.Python.Value.{Value}
use us_flight_delay_mlops.Promotion.Candidates.{CandidateRecord, immutable_identity, is_git_sha}
use us_flight_delay_mlops.Promotion.Candidates.Valid.{IsValid}
use us_flight_delay_mlops.Promotion.Policy.{PromotionPolicy, metric_names, maximize, minimize}
use us_flight_delay_mlops.Prelude.Sort.{sort_by}
use us_flight_delay_mlops.Prelude.Compare.{compare_codes}
use us_flight_delay_mlops.Promotion.Selector.{
  SelectionResult, is_incumbent, rank_value, metric_of, gate_reasons, gate_failures, gate_of,
  missing_metrics,
}
use us_flight_delay_mlops.Promotion.Selector.Order.{total_order, rank_order, tie_rank}
use us_flight_delay_mlops.Promotion.Selection.Winner.{
  Outranks, DistinctNames, winner_not_outranked, tied_incumbent_retained, selection_order_free,
}
use us_flight_delay_mlops.Promotion.Selection.Outcomes.{
  Means, outcome-Means, IsAccount, all_accounted,
}
use us_flight_delay_mlops.Promotion.Selection.{parsed, select_candidates}
use us_flight_delay_mlops.Promotion.Selection.Returns.{
  OneIncumbent, passes, Decides, gate_rejections, head, select_candidates_returns,
}

abbrev pub sha : String
sha = "0123456789abcdef0123456789abcdef01234567"

abbrev pub version_of : String → ℕ → CandidateRecord
version_of v precision = record {
  candidate_id = v;
  registry_path = "models/delay";
  registry_version = v;
  registry_digest = v;
  source_artifact_name = "delay";
  source_artifact_version = v;
  source_artifact_digest = v;
  git_sha = sha;
  dataset_artifact = "flights";
  dataset_digest = "d1";
  feature_schema_sha256 = "f1";
  evaluation_protocol = "p1";
  development_metrics = ("precision", finite (pos precision)) ∷ [];
  bundle_size_bytes = pos 1000;
  release_eligible = true;
  lineage_verified = true;
  serialization_integrity = true;
  inference_compatible = true;
  aliases = [];
}

abbrev pub old_version : CandidateRecord
old_version = version_of "v0" 2

abbrev pub new_version : CandidateRecord
new_version = version_of "v1" 3

abbrev pub policy : PromotionPolicy
policy = record {
  schema_version = "brief09b-v1";
  policy_version = "1";
  policy_sha256 = "s";
  purpose = "demo";
  registry_collection = "models/delay";
  source_project = "project";
  artifact_type = "model";
  target_alias = "production";
  allowed_target_aliases = "production" ∷ [];
  dry_run_default = true;
  required_metadata = "git_sha" ∷ [];
  dataset_artifact = "flights";
  allowed_dataset_digests = "d1" ∷ [];
  feature_schema_sha256 = "f1";
  allowed_evaluation_protocols = "p1" ∷ [];
  required_boolean_gates = ("release_eligible", true) ∷ [];
  max_bundle_size_bytes = pos 5000;
  ranking =
      record { field = "precision"; direction = maximize }
      ∷ record { field = "bundle_size_bytes"; direction = minimize }
      ∷ [];
  prefer_incumbent_on_metric_tie = true;
  tie_break_field = "candidate_id";
  forbidden_key_fragments = "final_test" ∷ [];
  forbidden_key_prefixes = "test_" ∷ [];
}

abbrev pub both : List CandidateRecord
both = old_version ∷ new_version ∷ []

abbrev reversed : List CandidateRecord
reversed = new_version ∷ old_version ∷ []

abbrev incumbent : Option (List ℕ)
incumbent = some (codes "models/delay:v0@v0")

abbrev pub shown : Value → String
shown v = "?"

version-IsValid :
    (v : String) (n : ℕ) → ◌≡◌ {A = Bool} (is_blank v) false → IsValid (version_of v n)
unfolding is_git_sha
version-IsValid v n h = record {
  candidate_id = h;
  registry_path = refl;
  registry_version = h;
  registry_digest = h;
  source_artifact_name = refl;
  source_artifact_version = h;
  source_artifact_digest = h;
  git_sha = refl;
  dataset_artifact = refl;
  dataset_digest = refl;
  feature_schema_sha256 = refl;
  evaluation_protocol = refl;
  metrics = ((refl, refl), tt);
  some_metric = λ e. cc;
  positive_size = refl;
  aliases = tt;
}

pub both-IsValid : All IsValid both
both-IsValid = (version-IsValid "v0" 2 refl, (version-IsValid "v1" 3 refl, tt))

one_incumbent : OneIncumbent incumbent both
unfolding is_incumbent immutable_identity compare_codes
one_incumbent = ((refl, tt), (tt, tt))

reversed-IsValid : All IsValid reversed
reversed-IsValid = (version-IsValid "v1" 3 refl, (version-IsValid "v0" 2 refl, tt))

reversed_one : OneIncumbent incumbent reversed
unfolding is_incumbent immutable_identity compare_codes
reversed_one = ((refl, tt), (tt, tt))

-- Both versions pass the gates, and the new one ranks first.
ranking_runs :
    sort_by (total_order policy incumbent) (filter (passes policy) both)
    ≡ new_version ∷ old_version ∷ []
unfolding sort_by total_order rank_order rank_value metric_of float_of_int gate_reasons
    gate_failures gate_of missing_metrics metric_names member tie_rank is_incumbent
    immutable_identity compare_codes compare_text
ranking_runs = refl

select_candidates_returns_example :
    (r : SelectionResult) × (select_candidates shown policy incumbent (map parsed both) ≡ ok r)
    × Decides policy incumbent shown
        (sort_by (total_order policy incumbent) (filter (passes policy) both))
        (gate_rejections policy both)
        r
select_candidates_returns_example =
    select_candidates_returns policy incumbent shown both refl both-IsValid one_incumbent

abbrev selected : SelectionResult
selected = (select_candidates_returns policy incumbent shown both refl both-IsValid one_incumbent).0

selected_done : select_candidates shown policy incumbent (map parsed both) ≡ ok selected
selected_done =
    (select_candidates_returns policy incumbent shown both refl both-IsValid one_incumbent).1

selected_ranking : selected.eligible ≡ new_version ∷ old_version ∷ []
selected_ranking =
    (select_candidates_returns policy incumbent shown both refl both-IsValid one_incumbent).2.0
    ∙ ranking_runs

selected_winner : selected.winner ≡ some new_version
selected_winner =
    (select_candidates_returns policy incumbent shown both refl both-IsValid one_incumbent).2.2
    ∙ ap head ranking_runs

old_ranked : Mem old_version selected.eligible
old_ranked = rw selected_ranking (mem-cons_of_mem new_version mem-cons_self)

winner_not_outranked_example : ¬ Outranks old_version new_version policy.ranking
winner_not_outranked_example =
    winner_not_outranked shown policy incumbent both refl both-IsValid one_incumbent selected_done
      new_version old_version selected_winner old_ranked

abbrev level_pair : List CandidateRecord
level_pair = version_of "v1" 3 ∷ version_of "v0" 3 ∷ []

level-IsValid : All IsValid level_pair
level-IsValid = (version-IsValid "v1" 3 refl, (version-IsValid "v0" 3 refl, tt))

level_one : OneIncumbent incumbent level_pair
unfolding is_incumbent immutable_identity compare_codes
level_one = ((refl, tt), (tt, tt))

-- On a tie the incumbent ranks first, although it is listed last.
level_runs :
    sort_by (total_order policy incumbent) (filter (passes policy) level_pair)
    ≡ version_of "v0" 3 ∷ version_of "v1" 3 ∷ []
unfolding sort_by total_order rank_order rank_value metric_of float_of_int gate_reasons
    gate_failures gate_of missing_metrics metric_names member tie_rank is_incumbent
    immutable_identity compare_codes compare_text
level_runs = refl

abbrev level_selected : SelectionResult
level_selected =
    (select_candidates_returns policy incumbent shown level_pair refl level-IsValid level_one).0

level_ranking : level_selected.eligible ≡ version_of "v0" 3 ∷ version_of "v1" 3 ∷ []
level_ranking =
    (select_candidates_returns policy incumbent shown level_pair refl level-IsValid level_one).2.0
    ∙ level_runs

level_done : select_candidates shown policy incumbent (map parsed level_pair) ≡ ok level_selected
level_done =
    (select_candidates_returns policy incumbent shown level_pair refl level-IsValid level_one).1

level_winner : level_selected.winner ≡ some (version_of "v0" 3)
level_winner =
    (select_candidates_returns policy incumbent shown level_pair refl level-IsValid level_one).2.2
    ∙ ap head level_runs

level_ranked : Mem (version_of "v0" 3) level_selected.eligible
level_ranked = rw level_ranking mem-cons_self

old_is_incumbent : is_incumbent incumbent (version_of "v0" 3) ≡ true
unfolding is_incumbent immutable_identity compare_codes
old_is_incumbent = refl

tied_incumbent_retained_example : is_incumbent incumbent (version_of "v0" 3) ≡ true
tied_incumbent_retained_example =
    tied_incumbent_retained shown policy incumbent level_pair refl level-IsValid level_one
      level_done (version_of "v0" 3) (version_of "v0" 3) level_winner level_ranked refl
      old_is_incumbent (refl, (refl, tt))

v0_ne_v1 : ◌≢◌ {A = String} "v0" "v1"
v0_ne_v1 = ground (arith, eq_iff "v0" "v1")

CandidateRecord-set : IsSet CandidateRecord
CandidateRecord-set = hlevel (λ (n : ℕ). prop→set (IsScalar-prop n))

one_of_both :
    {P : CandidateRecord → Type 0}
    → ((c : CandidateRecord) → IsProp (P c))
    → P old_version
    → P new_version
    → (c : CandidateRecord) → Mem c both
    → P c
one_of_both {P} prop old new c m =
    Or.elim (prop c) (mem-cons.0 m) (λ e. rw e old)
      λ m'. Or.elim (prop c) (mem-cons.0 m') (λ e. rw e new) (λ m''. absurd (not-mem-nil m''))

distinct_names : DistinctNames shown policy incumbent both
distinct_names c d mc md =
    one_of_both {P = λ x. x.candidate_id ≡ d.candidate_id → x ≡ d}
      (λ x. Π_prop λ _. CandidateRecord-set x d)
      (one_of_both {P = λ y. ◌≡◌ {A = String} "v0" y.candidate_id → old_version ≡ y}
        (λ y. Π_prop λ _. CandidateRecord-set old_version y) (λ _. refl) (λ e. absurd (v0_ne_v1 e))
        d md)
      (one_of_both {P = λ y. ◌≡◌ {A = String} "v1" y.candidate_id → new_version ≡ y}
        (λ y. Π_prop λ _. CandidateRecord-set new_version y) (λ e. absurd (v0_ne_v1 (sym e)))
        (λ _. refl) d md)
      c mc

abbrev reversed_selected : SelectionResult
reversed_selected =
    (select_candidates_returns policy incumbent shown reversed refl reversed-IsValid reversed_one).0

reversed_done :
    select_candidates shown policy incumbent (map parsed reversed) ≡ ok reversed_selected
reversed_done =
    (select_candidates_returns policy incumbent shown reversed refl reversed-IsValid reversed_one).1

selection_order_free_example :
    (selected.eligible ≡ reversed_selected.eligible) × (selected.winner ≡ reversed_selected.winner)
selection_order_free_example =
    selection_order_free shown policy incumbent both reversed refl both-IsValid one_incumbent
      reversed-IsValid reversed_one distinct_names (Perm.swap new_version old_version [])
      selected_done reversed_done

outcome-Means_example : Means shown policy incumbent selected selected.outcome
outcome-Means_example = outcome-Means shown policy incumbent (map parsed both) selected_done

all_accounted_example : IsAccount shown policy incumbent (map parsed both) selected
all_accounted_example = all_accounted shown policy incumbent (map parsed both) selected_done
