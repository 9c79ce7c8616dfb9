-- ===== src/Modeling/Protocol/Stages/Contiguous.antt =====
-- What the validation of the stages guarantees of the folds (src/flight_delay/modeling/v3/protocol.py,
-- `_validate_stages`).
use us_flight_delay_mlops.Prelude.{◌≡◌, true, List, [], ◌∷◌, All}
use us_flight_delay_mlops.Python.Equal.{eq_value}
use us_flight_delay_mlops.Python.Result.{ok}
use us_flight_delay_mlops.Python.Result.Ensures.{
  Ensures, Ensures-bind, Ensures-eq_ok, require-eq-ok,
}
use us_flight_delay_mlops.Python.Value.{Fields, null, str, get_or, dict}
use us_flight_delay_mlops.Modeling.Checks.{expect, column, text_list}
use us_flight_delay_mlops.Modeling.Checks.Laws.{
  Ensures-end, each_row-All, identified-column, >>-first, AreRows, identified-AreRows, look,
  look-section,
}
use us_flight_delay_mlops.Modeling.Protocol.{fold_ids}
use us_flight_delay_mlops.Modeling.Protocol.Stages.{
  cutoffs, contiguous_fold, validate_folds, validate_stages,
}

-- the fold is evaluated from where its fit ends, so that no row is both fitted and evaluated
pub record IsContiguous (row : Fields) : Type 0 where
  pub from_start : eq_value (get_or "fit_start" null row) (str "2024-02-01") ≡ true
  pub contiguous :
      eq_value (get_or "fit_end_exclusive" null row) (get_or "evaluation_start" null row) ≡ true

pub record FoldsAreFrozen (protocol : Fields) : Type 0 where
  pub folds : List Fields
  pub folds_listed : AreRows (look ("rolling_origin" ∷ "folds" ∷ []) (dict protocol)) folds
  pub are_folds : eq_value (column "id" folds) (text_list fold_ids) ≡ true
  pub state_cutoffs : eq_value (column "evaluation_state_as_of" folds) cutoffs ≡ true
  pub fit_cutoffs : eq_value (column "fit_cutoff_inclusive" folds) cutoffs ≡ true
  pub contiguous : All IsContiguous folds

contiguous_fold-IsContiguous :
    (row : Fields) → Ensures (λ (u : Unit {0}). IsContiguous row) (contiguous_fold row)
unfolding contiguous_fold expect
contiguous_fold-IsContiguous row = Ensures-bind _ _ _ λ _ from_start.
    Ensures-end (λ (u : Unit {0}). IsContiguous row) _
      λ same. record {
        from_start = require-eq-ok _ _ from_start;
        contiguous = require-eq-ok _ _ same;
      }

all-IsContiguous :
    (rows : List Fields) → All (λ row. contiguous_fold row ≡ ok tt) rows → All IsContiguous rows
all-IsContiguous [] h = tt
all-IsContiguous (row ∷ rows) h = (
  Ensures-eq_ok (λ (u : Unit {0}). IsContiguous row) _ (contiguous_fold-IsContiguous row) h.0,
  all-IsContiguous rows h.1,
)

module _ (protocol : Fields) where
  folds-FoldsAreFrozen :
      Ensures (λ (u : Unit {0}). FoldsAreFrozen protocol) (validate_folds protocol)
  unfolding validate_folds expect look
  folds-FoldsAreFrozen = Ensures-bind _ _ _ λ rolling r. Ensures-bind _ _ _ λ folds f.
      Ensures-bind _ _ _ λ _ states. Ensures-bind _ _ _ λ _ fits.
        Ensures-end (λ (u : Unit {0}). FoldsAreFrozen protocol) _
          λ each.
            let at = look-section "rolling_origin" protocol _ ("folds" ∷ []) r in
            record {
              folds = folds;
              folds_listed = rw at (identified-AreRows _ _ _ _ f);
              are_folds = identified-column _ _ _ _ f;
              state_cutoffs = require-eq-ok _ _ states;
              fit_cutoffs = require-eq-ok _ _ fits;
              contiguous = all-IsContiguous folds (each_row-All _ _ each);
            }

  -- In a protocol whose stages are validated, the folds listed under rolling_origin are the four
  -- frozen ones, with the frozen cutoffs for the fit and for the history that is read, and each is
  -- evaluated from the day its fit ends.
  pub validate_stages-FoldsAreFrozen : validate_stages protocol ≡ ok tt → FoldsAreFrozen protocol
  unfolding validate_stages
  validate_stages-FoldsAreFrozen h =
      Ensures-eq_ok (λ (u : Unit {0}). FoldsAreFrozen protocol) _ folds-FoldsAreFrozen
        (>>-first _ _ h)
