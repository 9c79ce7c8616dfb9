-- ===== src/Modeling/Ranking.antt =====
-- Sorting and choosing by keys of floats and a name, as the selections of src/flight_delay/modeling
-- do: `sorted(rows, key=...)` and `min(rows, key=...)` over tuples.
pub mod Finite
pub mod Keyed
use us_flight_delay_mlops.Prelude.{List, [], ◌∷◌, String, Bool, Ordering, if◌then◌else◌}
use us_flight_delay_mlops.Prelude.Int.{negate}
use us_flight_delay_mlops.Prelude.Compare.{then_by}
use us_flight_delay_mlops.Prelude.Sort.{is_lt}
use us_flight_delay_mlops.Prelude.Names.{compare_text}
use us_flight_delay_mlops.Python.Float.{Float, finite, inf, neg_inf, nan, flt, feq}

-- `-x`
abbrev pub fneg : Float → Float
fneg (finite n) = finite (negate n)
fneg inf = neg_inf
fneg neg_inf = inf
fneg nan = nan

-- How two components compare in a tuple: `==` decides whether they differ, then `<` is asked.
unfoldable pub compare_float : Float → Float → Ordering
compare_float x y = if feq x y then Ordering.eq else if flt x y then Ordering.lt else Ordering.gt

-- a tuple of floats and then a name
unfoldable pub compare_keys : List Float → String → List Float → String → Ordering
unfolding compare_float
compare_keys [] s [] t = compare_text s t
compare_keys [] s (y ∷ ys) t = Ordering.lt
compare_keys (x ∷ xs) s [] t = Ordering.gt
compare_keys (x ∷ xs) s (y ∷ ys) t = then_by (compare_float x y) (compare_keys xs s ys t)

-- `min(x, *xs)`: the first of the smallest
unfoldable pub min_by {ℓ} : {A : Type ℓ} → (A → A → Ordering) → A → List A → A
min_by cmp x [] = x
min_by cmp x (y ∷ ys) = min_by cmp (if is_lt (cmp y x) then y else x) ys
