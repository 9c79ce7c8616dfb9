-- ===== src/Modeling/Selection.antt =====
-- The decisions of src/flight_delay/modeling/v3/selection.py: the ranking of the candidates, the
-- advancement of a family and the winner of November.
pub mod Advance
pub mod November
mod Examples
use us_flight_delay_mlops.Prelude.{
  ℕ, zero, suc, List, [], ◌∷◌, map, String, Bool, not, ◌||◌, Ordering, Option, none, some, length,
  filter, ◌=ₛ◌, ◌==◌, if◌then◌else◌,
}
use us_flight_delay_mlops.Prelude.Names.{distinct}
use us_flight_delay_mlops.Prelude.Sort.{sort_by}
use us_flight_delay_mlops.Python.Float.{Float}
use us_flight_delay_mlops.Python.Result.{Result, ok, ◌>>=◌, ◌>>◌, raise_if}
use us_flight_delay_mlops.Modeling.Ranking.{fneg, compare_keys, min_by}

-- The two messages of `advance_family`.
pub data V3SelectionError : Type 0 where
  requires_unique : String → ℕ → V3SelectionError
  requires_complete : String → V3SelectionError

-- What the ranking reads of a row that `summarize_candidate` returns. The figures of a row with
-- another status are not read.
pub record Candidate : Type 0 where
  pub candidate_id : String
  pub family : String
  pub status : String
  pub worst_fold_operating_precision : Float
  pub fold_4_november_operating_precision : Float
  pub mean_fold_2_through_fold_4_operating_precision : Float
  pub mean_all_fold_operating_precision : Float
  pub mean_average_precision : Float
  pub mean_roc_auc : Float
  pub mean_log_loss : Float
  pub mean_brier_score : Float

abbrev pub is_completed : Candidate → Bool
is_completed row = row.status =ₛ "completed"

abbrev pub of_family : String → Candidate → Bool
of_family family row = row.family =ₛ family

-- the floats of the key
abbrev pub rank_key : Candidate → List Float
rank_key row =
    fneg row.worst_fold_operating_precision
    ∷ fneg row.fold_4_november_operating_precision
    ∷ fneg row.mean_fold_2_through_fold_4_operating_precision
    ∷ fneg row.mean_all_fold_operating_precision
    ∷ fneg row.mean_average_precision
    ∷ fneg row.mean_roc_auc
    ∷ row.mean_log_loss
    ∷ row.mean_brier_score
    ∷ []

abbrev pub compare_ranked : Candidate → Candidate → Ordering
compare_ranked l r = compare_keys (rank_key l) l.candidate_id (rank_key r) r.candidate_id

unfoldable pub rank_candidates : List Candidate → List Candidate
rank_candidates rows = sort_by compare_ranked (filter is_completed rows)

-- `l[:n]`
abbrev pub take {ℓ} : {A : Type ℓ} → ℕ → List A → List A
take zero l = []
take (suc n) [] = []
take (suc n) (x ∷ xs) = x ∷ take n xs

unfoldable pub advance_family :
    List Candidate → String → ℕ → ℕ → Result V3SelectionError (List Candidate)
advance_family rows family expected advance = do
  let family_rows = filter (of_family family) rows
  raise_if
      (not (length family_rows == expected)
        || not (
            length (distinct (map (λ (row : Candidate). row.candidate_id) family_rows))
            == expected))
      (requires_unique family expected)
  let ranked = rank_candidates family_rows
  raise_if (not (length ranked == expected)) (requires_complete family)
  ok (take advance ranked)

-- the figures of a finalist that the choice reads
pub record Metrics : Type 0 where
  pub max_precision_at_operating_recall : Float
  pub average_precision : Float
  pub roc_auc : Float
  pub log_loss : Float
  pub brier_score : Float
  pub f1 : Float
  pub predicted_positive_rate : Float

pub record Evaluated : Type 0 where
  pub finalist_id : String
  pub metrics : Metrics
  pub passed : Bool

-- the two kinds of rows that `finalist_evidence` returns; the first has `"passed": False`
pub data Finalist : Type 0 where
  no_eligible_threshold : String → Finalist
  evaluated : Evaluated → Finalist

unfoldable pub passing : List Finalist → List Evaluated
passing [] = []
passing (no_eligible_threshold id ∷ rows) = passing rows
passing (evaluated row ∷ rows) = let rest = passing rows in if row.passed then row ∷ rest else rest

abbrev pub november_key : Evaluated → List Float
november_key row =
    fneg row.metrics.max_precision_at_operating_recall
    ∷ fneg row.metrics.average_precision
    ∷ fneg row.metrics.roc_auc
    ∷ row.metrics.log_loss
    ∷ row.metrics.brier_score
    ∷ fneg row.metrics.f1
    ∷ row.metrics.predicted_positive_rate
    ∷ []

abbrev pub compare_finalists : Evaluated → Evaluated → Ordering
compare_finalists l r = compare_keys (november_key l) l.finalist_id (november_key r) r.finalist_id

-- `None` of an empty list, else its minimum
abbrev pub first_of : List Evaluated → Option Evaluated
first_of [] = none
first_of (row ∷ rows) = some (min_by compare_finalists row rows)

unfoldable pub choose_november_winner : List Finalist → Option Evaluated
choose_november_winner finalists = first_of (passing finalists)
