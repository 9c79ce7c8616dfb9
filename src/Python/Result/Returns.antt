-- ===== src/Python/Result/Returns.antt =====
-- Calls that return: those that raise nothing.
use mathlib.Core.Path.{◌≡◌, refl}
use mathlib.Core.List.{List, [], ◌∷◌}
use us_flight_delay_mlops.Prelude.{All}
use us_flight_delay_mlops.Python.Result.{Result, ok, err, ◌>>=◌, map_result}

-- the call returns some value
abbrev pub Returns {ℓ κ} : {E : Type ℓ} {A : Type κ} → Result E A → Type (ℓ ⊔ κ)
Returns {A} m = (a : A) × (m ≡ ok a)

module _ {ℓ κ ξ} {E : Type ℓ} {A : Type κ} {B : Type ξ} where
  pub Returns-bind :
      (m : Result E A) (f : A → Result E B)
      → Returns m
      → ((a : A) → Returns (f a))
      → Returns (m >>= f)
  unfolding ◌>>=◌
  Returns-bind (ok a) f h k = k a
  Returns-bind (err e) f (a, h) k = cc

module _ {ℓ κ ξ} {E : Type ℓ} {A : Type κ} {B : Type ξ} where
  pub Returns-map_result :
      (f : A → Result E B) (xs : List A) → All (λ x. Returns (f x)) xs → Returns (map_result f xs)
  unfolding map_result
  Returns-map_result f [] h = ([], refl)
  Returns-map_result f (x ∷ xs) h =
      Returns-bind (f x) _ h.0
        λ y. Returns-bind (map_result f xs) _ (Returns-map_result f xs h.1) λ ys. (y ∷ ys, refl)
