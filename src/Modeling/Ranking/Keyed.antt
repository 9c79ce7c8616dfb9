-- ===== src/Modeling/Ranking/Keyed.antt =====
-- Rows ranked by keys of floats and a name, where the floats are finite: `sorted` orders them and
-- `min` finds the least, as by any total preorder.
use mathlib.Core.HLevel.{Π_prop, ⊥_prop}
use us_flight_delay_mlops.Prelude.{
  ◌≡◌, refl, sym, ◌∙◌, ◌≢◌, false, arith, List, ◌∷◌, All, String, Ordering,
}
use us_flight_delay_mlops.Prelude.Compare.{IsPreorder, IsPreorder-on}
use us_flight_delay_mlops.Prelude.Sort.{sort_by, sort_by-IsSorted, All-sort_by, IsBelow, IsSorted}
use us_flight_delay_mlops.Python.Float.{Float, finite, inf, neg_inf, nan, flt, feq}
use us_flight_delay_mlops.Modeling.Ranking.{fneg, compare_float, compare_keys, min_by}
use us_flight_delay_mlops.Modeling.Ranking.Finite.{
  IsFinite, compare_values, compare_keys-finite, IsPreorder-compare_values, min_by-agree,
  min_by-Mem, min_by-IsBelow, sort_by-agree, IsSorted-agree, All-Mem,
}

-- Of two negated floats that do not compare above, the first is not the smaller one.
pub not_smaller :
    (x y : Float) (xs ys : List Float) (s t : String)
    → compare_keys (fneg x ∷ xs) s (fneg y ∷ ys) t ≢ Ordering.gt
    → flt x y ≡ false
unfolding compare_keys compare_float flt feq
not_smaller (finite a) (finite b) xs ys s t h = ground arith
not_smaller (finite a) inf xs ys s t h = absurd (h refl)
not_smaller (finite a) neg_inf xs ys s t h = refl
not_smaller (finite a) nan xs ys s t h = refl
not_smaller inf y xs ys s t h = refl
not_smaller neg_inf (finite b) xs ys s t h = absurd (h refl)
not_smaller neg_inf inf xs ys s t h = absurd (h refl)
not_smaller neg_inf neg_inf xs ys s t h = refl
not_smaller neg_inf nan xs ys s t h = refl
not_smaller nan y xs ys s t h = refl

module _ {ℓ} {A : Type ℓ} (key : A → List Float) (name : A → String) where
  -- The floats of the key are finite.
  abbrev pub HasFigures : A → Type 0
  HasFigures a = All IsFinite (key a)

  abbrev pub compare_rows : A → A → Ordering
  compare_rows a b = compare_keys (key a) (name a) (key b) (name b)

  abbrev by_values : A → A → Ordering
  by_values a b = compare_values (key a) (name a) (key b) (name b)

  agree : (a b : A) → HasFigures a → HasFigures b → compare_rows a b ≡ by_values a b
  agree a b h k = compare_keys-finite (key a) (name a) (key b) (name b) h k

  IsPreorder-by_values : IsPreorder by_values
  IsPreorder-by_values = IsPreorder-on IsPreorder-compare_values λ a. (key a, name a)

  pub sort_rows-IsSorted :
      (rows : List A) → All HasFigures rows → IsSorted compare_rows (sort_by compare_rows rows)
  sort_rows-IsSorted rows h = rw (sort_by-agree compare_rows by_values HasFigures agree rows h) (
      IsSorted-agree compare_rows by_values HasFigures agree (sort_by by_values rows)
        (All-sort_by by_values HasFigures rows h) (sort_by-IsSorted IsPreorder-by_values rows))

  pub min_rows-IsBelow :
      (row : A) (rows : List A)
      → HasFigures row
      → All HasFigures rows
      → IsBelow compare_rows (min_by compare_rows row rows) (row ∷ rows)
  min_rows-IsBelow row rows h k a m =
      rw (min_by-agree compare_rows by_values HasFigures agree row rows h k) (
        All-Mem HasFigures (row ∷ rows) (h, k) (min_by-Mem by_values row rows) (Π_prop λ _. ⊥_prop)
          λ p.
            All-Mem HasFigures (row ∷ rows) (h, k) m (Π_prop λ _. ⊥_prop)
              λ q e. min_by-IsBelow IsPreorder-by_values row rows a m (sym (agree _ a p q) ∙ e))
