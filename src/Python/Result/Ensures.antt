-- ===== src/Python/Result/Ensures.antt =====
-- Postconditions of functions that may raise: what holds of the value where there is one.
use mathlib.Core.Path.{◌≡◌, refl}
use mathlib.Core.Bool.{Bool, true, false}
use mathlib.Core.Option.{Option, none, some}
use us_flight_delay_mlops.Python.Result.{Result, ok, err, ◌>>=◌, or_raise, raise_if, require}

abbrev pub Ensures {ℓ κ ξ} : {E : Type ℓ} {A : Type κ} → (A → Type ξ) → Result E A → Type ξ
Ensures P (ok a) = P a
Ensures P (err e) = Unit

module _ {ℓ κ ξ ζ} {E : Type ℓ} {A : Type κ} {B : Type ξ} where
  -- the rest of a block may use what its first step returned
  pub Ensures-bind :
      (P : B → Type ζ) (m : Result E A) (f : A → Result E B)
      → ((a : A) → m ≡ ok a → Ensures P (f a))
      → Ensures P (m >>= f)
  unfolding ◌>>=◌
  Ensures-bind P (ok a) f h = h a refl
  Ensures-bind P (err e) f h = tt

module _ {ℓ κ} {E : Type ℓ} {A : Type κ} where
  pub or_raise-eq-ok : (o : Option A) (e : E) {a : A} → or_raise o e ≡ ok a → o ≡ some a
  or_raise-eq-ok none e h = cc
  or_raise-eq-ok (some b) e h = cc

  pub Ensures-eq_ok {ζ} : (P : A → Type ζ) (m : Result E A) {a : A} → Ensures P m → m ≡ ok a → P a
  Ensures-eq_ok P m h e = rw e at h

module _ {ℓ} {E : Type ℓ} where
  pub raise_if-eq-ok : (b : Bool) (e : E) {u : Unit {0}} → raise_if b e ≡ ok u → b ≡ false
  raise_if-eq-ok true e h = cc
  raise_if-eq-ok false e h = refl

  pub require-eq-ok : (b : Bool) (e : E) {u : Unit {0}} → require b e ≡ ok u → b ≡ true
  require-eq-ok true e h = refl
  require-eq-ok false e h = cc

pub Ensures-map {ℓ κ ξ ζ} :
    {E : Type ℓ} {A : Type κ} (P : A → Type ξ) (Q : A → Type ζ) (m : Result E A)
    → ((a : A) → P a → Q a)
    → Ensures P m
    → Ensures Q m
Ensures-map P Q (ok a) f h = f a h
Ensures-map P Q (err e) f h = tt

-- What holds anyway holds of every value.
pub Ensures-const {ℓ κ ξ} :
    {E : Type ℓ} {A : Type κ} {Q : Type ξ} → Q → (m : Result E A) → Ensures (λ a. Q) m
Ensures-const q (ok a) = q
Ensures-const q (err e) = tt

pub ok-injective {ℓ κ} :
    {E : Type ℓ} {A : Type κ} {a b : A} → ◌≡◌ {A = Result E A} (ok a) (ok b) → a ≡ b
ok-injective h = cc

module _ {ℓ κ ξ} {E : Type ℓ} {A : Type κ} {B : Type ξ} where
  -- a block that returns has returned at its first step
  pub >>=-eq-ok :
      (m : Result E A) (f : A → Result E B) {b : B}
      → (m >>= f) ≡ ok b
      → (a : A) × (m ≡ ok a) × (f a ≡ ok b)
  unfolding ◌>>=◌
  >>=-eq-ok (ok a) f h = (a, refl, h)
  >>=-eq-ok (err e) f h = cc
