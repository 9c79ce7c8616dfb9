-- ===== src/Python/Result.antt =====
-- A function that may raise returns a result: a value, or the exception.
pub mod Ensures
pub mod Returns
use mathlib.Core.Bool.{Bool, true, false}
use mathlib.Core.Option.{Option, none, some}
use mathlib.Core.List.{List, [], ◌∷◌}

pub data Result {ℓ κ} (E : Type ℓ) (A : Type κ) : Type (ℓ ⊔ κ) where
  ok : A → Result E A
  err : E → Result E A

module _ {ℓ κ} {E : Type ℓ} {A : Type κ} where
  infixl 5 ◌>>=◌
  unfoldable pub ◌>>=◌ {ξ} : {B : Type ξ} → Result E A → (A → Result E B) → Result E B
  ok a >>= f = f a
  err e >>= f = err e

  -- a value that may be absent, with the exception raised for its absence
  abbrev pub or_raise : Option A → E → Result E A
  or_raise none e = err e
  or_raise (some a) e = ok a

module _ {ℓ} {E : Type ℓ} where
  infixl 5 ◌>>◌
  abbrev pub ◌>>◌ {ξ} : {B : Type ξ} → Result E (Unit {0}) → Result E B → Result E B
  m >> k = m >>= λ _. k

  -- `if test: raise e`
  abbrev pub raise_if : Bool → E → Result E (Unit {0})
  raise_if true e = err e
  raise_if false e = ok tt

  abbrev pub require : Bool → E → Result E (Unit {0})
  require true e = ok tt
  require false e = err e

-- a list of calls, each of which may raise
unfoldable pub map_result {ℓ κ ξ} :
    {E : Type ℓ} {A : Type κ} {B : Type ξ} → (A → Result E B) → List A → Result E (List B)
map_result f [] = ok []
map_result f (x ∷ xs) = do y ← f x; ys ← map_result f xs; ok (y ∷ ys)
