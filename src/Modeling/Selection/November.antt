-- ===== src/Modeling/Selection/November.antt =====
-- What `choose_november_winner` of src/flight_delay/modeling/v3/selection.py promises.
use mathlib.Core.Path.{subst}
use mathlib.Core.List.{Perm, Mem, mem-cons, mem-cons_self, mem-cons_of_mem}
use mathlib.Core.Logic.Or
use mathlib.Core.Bool.{Bool-set}
use us_flight_delay_mlops.Modeling.Ranking.{min_by}
use us_flight_delay_mlops.Prelude.{
  ◌≡◌, refl, sym, ap, ◌∙◌, ◌≢◌, Bool, true, false, List, [], ◌∷◌, All, Ordering, Bool-cases, inl,
  inr, if◌then◌else◌, Option, none, some,
}
use us_flight_delay_mlops.Python.Float.{flt}
use us_flight_delay_mlops.Modeling.Ranking.Finite.{min_by-Mem}
use us_flight_delay_mlops.Modeling.Ranking.Keyed.{HasFigures, min_rows-IsBelow, not_smaller}
use us_flight_delay_mlops.Modeling.Selection.{
  Evaluated, Finalist, no_eligible_threshold, evaluated, passing, november_key, compare_finalists,
  first_of, choose_november_winner,
}

-- What the choice decides.
abbrev pub Decides : List Finalist → Option Evaluated → Type 0
Decides finalists none = (row : Evaluated) → Mem (evaluated row) finalists → row.passed ≡ false
Decides finalists (some winner) =
    Mem (evaluated winner) finalists
    × (winner.passed ≡ true)
    × ((row : Evaluated)
        → Mem (evaluated row) finalists
        → row.passed ≡ true
        → (compare_finalists winner row ≢ Ordering.gt)
          × (flt winner.metrics.max_precision_at_operating_recall
                row.metrics.max_precision_at_operating_recall
              ≡ false))

evaluated-injective : {a b : Evaluated} → evaluated a ≡ evaluated b → a ≡ b
evaluated-injective h = cc

clash : true ≡ false → ⊥
clash h = cc

then_of {ℓ} : {A : Type ℓ} (b : Bool) (x y : A) → b ≡ true → (if b then x else y) ≡ x
then_of true x y h = refl
then_of false x y h = cc

else_of {ℓ} : {A : Type ℓ} (b : Bool) (x y : A) → b ≡ false → (if b then x else y) ≡ y
else_of true x y h = cc
else_of false x y h = refl

kept :
    (row : Evaluated) (fs : List Finalist)
    → row.passed ≡ true
    → passing (evaluated row ∷ fs) ≡ row ∷ passing fs
unfolding passing
kept row fs h = then_of row.passed _ _ h

dropped :
    (row : Evaluated) (fs : List Finalist)
    → row.passed ≡ false
    → passing (evaluated row ∷ fs) ≡ passing fs
unfolding passing
dropped row fs h = else_of row.passed _ _ h

passing-Passed :
    (finalists : List Finalist) (row : Evaluated) → Mem row (passing finalists) → row.passed ≡ true
unfolding passing
passing-Passed [] row m = absurd (mathlib.Core.List.not-mem-nil m)
passing-Passed (no_eligible_threshold id ∷ fs) row m = passing-Passed fs row m
passing-Passed (evaluated other ∷ fs) row m = elim (Bool-cases other.passed) [
  | inl keep ↦
      Or.elim (Bool-set _ _) (mem-cons.0 (subst (Mem row) (kept other fs keep) m))
        (λ e. ap (λ (r : Evaluated). r.passed) e ∙ keep) (passing-Passed fs row)
  | inr drop ↦ passing-Passed fs row (subst (Mem row) (dropped other fs drop) m)
]

mem_of_mem-passing :
    (finalists : List Finalist) (row : Evaluated)
    → Mem row (passing finalists)
    → Mem (evaluated row) finalists
unfolding passing
mem_of_mem-passing [] row m = absurd (mathlib.Core.List.not-mem-nil m)
mem_of_mem-passing (no_eligible_threshold id ∷ fs) row m =
    mem-cons_of_mem _ (mem_of_mem-passing fs row m)
mem_of_mem-passing (evaluated other ∷ fs) row m = elim (Bool-cases other.passed) [
  | inl keep ↦
      Or.elim squash₁ (mem-cons.0 (subst (Mem row) (kept other fs keep) m))
        (λ e. mem-cons.1 (Or.inl (ap evaluated e)))
        (λ k. mem-cons_of_mem _ (mem_of_mem-passing fs row k))
  | inr drop ↦
      mem-cons_of_mem _ (mem_of_mem-passing fs row (subst (Mem row) (dropped other fs drop) m))
]

passing-mem :
    (finalists : List Finalist) (row : Evaluated)
    → Mem (evaluated row) finalists
    → row.passed ≡ true
    → Mem row (passing finalists)
unfolding passing
passing-mem [] row m p = absurd (mathlib.Core.List.not-mem-nil m)
passing-mem (no_eligible_threshold id ∷ fs) row m p =
    Or.elim squash₁ (mem-cons.0 m) (λ e. cc) (λ k. passing-mem fs row k p)
passing-mem (evaluated other ∷ fs) row m p = elim (Bool-cases other.passed) [
  | inl keep ↦ subst (Mem row) (sym (kept other fs keep)) (
      Or.elim squash₁ (mem-cons.0 m) (λ e. mem-cons.1 (Or.inl (evaluated-injective e)))
        (λ k. mem-cons_of_mem other (passing-mem fs row k p)))
  | inr drop ↦ subst (Mem row) (sym (dropped other fs drop)) (
      Or.elim squash₁ (mem-cons.0 m)
        (λ e.
          absurd (clash (sym p ∙ ap (λ (r : Evaluated). r.passed) (evaluated-injective e) ∙ drop)))
        (λ k. passing-mem fs row k p))
]

first_of-Decides :
    (finalists : List Finalist) (rows : List Evaluated)
    → passing finalists ≡ rows
    → All (HasFigures november_key (λ (row : Evaluated). row.finalist_id)) rows
    → Decides finalists (first_of rows)
first_of-Decides finalists [] e h = λ row m. elim (Bool-cases row.passed) [
  | inl did ↦
      absurd (mathlib.Core.List.not-mem-nil (subst (Mem row) e (passing-mem finalists row m did)))
  | inr did_not ↦ did_not
]
first_of-Decides finalists (x ∷ xs) e h =
    let least = min_by compare_finalists x xs in
    let inside = subst (Mem least) (sym e) (min_by-Mem compare_finalists x xs) in
    let below = min_rows-IsBelow november_key (λ row. row.finalist_id) x xs h.0 h.1 in
    (
      mem_of_mem-passing finalists least inside,
      passing-Passed finalists least inside,
      λ row m p.
          let not_above = below row (subst (Mem row) e (passing-mem finalists row m p)) in
          (not_above, not_smaller _ _ _ _ _ _ not_above),
    )

-- The choice of November is a finalist that passed its gates, and no other that passed compares
-- below it or has a greater precision at the operating recall; there is none only where no finalist
-- passed. The figures of those that passed are finite.
pub choose_november_winner-Decides :
    (finalists : List Finalist)
    → All (HasFigures november_key (λ (row : Evaluated). row.finalist_id)) (passing finalists)
    → Decides finalists (choose_november_winner finalists)
unfolding choose_november_winner
choose_november_winner-Decides finalists h = first_of-Decides finalists (passing finalists) refl h
