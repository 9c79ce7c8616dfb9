-- ===== src/Modeling/Selection/Examples.antt =====
-- The decisions at four candidates of two families and at three finalists (small integers for
-- the figures, whose order alone matters).
use us_flight_delay_mlops.Prelude.{◌≡◌, refl, ℕ, true, false, some, List, [], ◌∷◌, All, String}
use us_flight_delay_mlops.Prelude.Int.{ℤ, pos}
use us_flight_delay_mlops.Prelude.Names.{distinct, member, compare_text}
use us_flight_delay_mlops.Prelude.Compare.{compare_codes}
use us_flight_delay_mlops.Prelude.Sort.{sort_by, insert_by}
use us_flight_delay_mlops.Python.Float.{Float, finite, flt, feq}
use us_flight_delay_mlops.Python.Result.{ok, err, ◌>>=◌}
use us_flight_delay_mlops.Modeling.Ranking.{compare_float, compare_keys, min_by}
use us_flight_delay_mlops.Modeling.Ranking.Finite.{IsFinite, is_finite}
use us_flight_delay_mlops.Modeling.Selection.{
  Candidate, rank_candidates, advance_family, requires_complete, requires_unique, Metrics,
  Evaluated, Finalist, no_eligible_threshold, evaluated, passing, choose_november_winner,
}
use us_flight_delay_mlops.Modeling.Selection.Advance.{Advances, advance_family-Advances}
use us_flight_delay_mlops.Modeling.Selection.November.{Decides, choose_november_winner-Decides}

abbrev figure : ℕ → Float
figure n = finite (pos n)

abbrev candidate : String → String → String → ℕ → ℕ → Candidate
candidate id family status worst november = record {
  candidate_id = id;
  family = family;
  status = status;
  worst_fold_operating_precision = figure worst;
  fold_4_november_operating_precision = figure november;
  mean_fold_2_through_fold_4_operating_precision = figure 30;
  mean_all_fold_operating_precision = figure 30;
  mean_average_precision = figure 25;
  mean_roc_auc = figure 45;
  mean_log_loss = figure 20;
  mean_brier_score = figure 9;
}

-- The worst fold ranks first, then November; a tie in both is left to the name.
abbrev rows : List Candidate
rows =
    candidate "catboost_b" "catboost" "completed" 20 40
    ∷ candidate "lightgbm_a" "lightgbm" "completed" 50 50
    ∷ candidate "catboost_a" "catboost" "completed" 20 40
    ∷ candidate "catboost_c" "catboost" "completed" 22 23
    ∷ []

abbrev top_two : List Candidate
top_two =
    candidate "catboost_c" "catboost" "completed" 22 23
    ∷ candidate "catboost_a" "catboost" "completed" 20 40
    ∷ []

advances_two : advance_family rows "catboost" 3 2 ≡ ok top_two
unfolding advance_family rank_candidates sort_by insert_by compare_keys compare_float flt feq ◌>>=◌
    distinct member compare_text compare_codes
advances_two = refl

finite_tail :
    (a b c d e f : ℤ)
    → All IsFinite (finite a ∷ finite b ∷ finite c ∷ finite d ∷ finite e ∷ finite f ∷ [])
finite_tail a b c d e f =
    (is_finite, (is_finite, (is_finite, (is_finite, (is_finite, (is_finite, tt))))))

advance_family-Advances_example : Advances rows "catboost" 3 2 top_two
advance_family-Advances_example =
    advance_family-Advances rows "catboost" 3 2 top_two
      (
        (is_finite, (is_finite, finite_tail _ _ _ _ _ _)),
        (
          (is_finite, (is_finite, finite_tail _ _ _ _ _ _)),
          ((is_finite, (is_finite, finite_tail _ _ _ _ _ _)), tt),
        ),
      )
      advances_two

refuses_incomplete :
    advance_family (candidate "catboost_d" "catboost" "failed" 1 1 ∷ rows) "catboost" 4 2
    ≡ err (requires_complete "catboost")
unfolding advance_family rank_candidates sort_by insert_by compare_keys compare_float flt feq ◌>>=◌
    distinct member compare_text compare_codes
refuses_incomplete = refl

refuses_repeated :
    advance_family (candidate "catboost_a" "catboost" "completed" 1 1 ∷ rows) "catboost" 4 2
    ≡ err (requires_unique "catboost" 4)
unfolding advance_family ◌>>=◌ distinct member
refuses_repeated = refl

abbrev figures : ℕ → Metrics
figures precision = record {
  max_precision_at_operating_recall = figure precision;
  average_precision = figure 25;
  roc_auc = figure 45;
  log_loss = figure 20;
  brier_score = figure 9;
  f1 = figure 30;
  predicted_positive_rate = figure 18;
}

abbrev second : Evaluated
second = record { finalist_id = "catboost_c"; metrics = figures 33; passed = true }

abbrev finalists : List Finalist
finalists =
    evaluated (record { finalist_id = "ensemble"; metrics = figures 60; passed = false })
    ∷ no_eligible_threshold "lightgbm_a"
    ∷ evaluated (record { finalist_id = "lightgbm_b"; metrics = figures 31; passed = true })
    ∷ evaluated second
    ∷ []

chooses_second : choose_november_winner finalists ≡ some second
unfolding choose_november_winner passing min_by compare_keys compare_float flt feq
chooses_second = refl

choose_november_winner-Decides_example : Decides finalists (choose_november_winner finalists)
unfolding passing
choose_november_winner-Decides_example =
    choose_november_winner-Decides finalists
      ((is_finite, finite_tail _ _ _ _ _ _), ((is_finite, finite_tail _ _ _ _ _ _), tt))
