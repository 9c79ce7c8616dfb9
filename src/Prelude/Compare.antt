-- ===== src/Prelude/Compare.antt =====
-- Three-way comparisons, the laws under which sorting by one makes sense, and how to build them.
use Prim.Native.Nat.{ℕ, compare, Ordering}
use mathlib.Core.Path.{◌≡◌, refl}
use mathlib.Core.Logic.{◌≢◌}
use mathlib.Core.List.{List, [], ◌∷◌}
use native.Mathlib.Omega.{arith}
use us_flight_delay_mlops.Prelude.Int.{ℤ, compare_ℤ, eq_of_parts}

abbrev pub flip : Ordering → Ordering
flip Ordering.lt = Ordering.gt
flip Ordering.eq = Ordering.eq
flip Ordering.gt = Ordering.lt

-- The first comparison that is not a tie decides.
abbrev pub then_by : Ordering → Ordering → Ordering
then_by Ordering.eq o = o
then_by Ordering.lt _ = Ordering.lt
then_by Ordering.gt _ = Ordering.gt

-- A total preorder, as a three-way comparison.
pub record IsPreorder {ℓ} {A : Type ℓ} (cmp : A → A → Ordering) : Type ℓ where
  pub flips : (a b : A) → cmp b a ≡ flip (cmp a b)
  pub trans : (a b c : A) → cmp a b ≢ Ordering.gt → cmp b c ≢ Ordering.gt → cmp a c ≢ Ordering.gt

abbrev pub compare_ℕ : ℕ → ℕ → Ordering
compare_ℕ a b = compare a b

pub IsPreorder-compare_ℕ : IsPreorder compare_ℕ
IsPreorder-compare_ℕ = record { flips = λ a b. ground arith; trans = λ a b c h k. ground arith }

pub IsPreorder-compare_ℤ : IsPreorder compare_ℤ
IsPreorder-compare_ℤ = record { flips = λ a b. ground arith; trans = λ a b c h k. ground arith }

pub compare_ℤ-eq : (a b : ℤ) → compare_ℤ a b ≡ Ordering.eq → a ≡ b
compare_ℤ-eq a b h = eq_of_parts a b (ground arith)

module _ {ℓ} {A : Type ℓ} {cmp : A → A → Ordering} (pre : IsPreorder cmp) where
  pub IsPreorder-refl : (a : A) → cmp a a ≡ Ordering.eq
  IsPreorder-refl a = ground (arith, pre.flips a a)

  -- A tie on one side leaves the comparison with a third as it is.
  pub IsPreorder-eq_left : (a b c : A) → cmp a b ≡ Ordering.eq → cmp a c ≡ cmp b c
  IsPreorder-eq_left a b c h = ground (
    arith,
    pre.flips a b,
    pre.flips a c,
    pre.flips b c,
    pre.trans a b c,
    pre.trans b a c,
    pre.trans c a b,
    pre.trans c b a,
  )

  -- the comparison of what `f` reads
  pub IsPreorder-on {κ} : {B : Type κ} (f : B → A) → IsPreorder (λ x y. cmp (f x) (f y))
  IsPreorder-on f = record {
    flips = λ a b. pre.flips (f a) (f b);
    trans = λ a b c. pre.trans (f a) (f b) (f c);
  }

  -- the reverse order
  pub IsPreorder-reverse : IsPreorder (λ x y. cmp y x)
  IsPreorder-reverse = record {
    flips = λ a b. pre.flips b a;
    trans = λ a b c h k. pre.trans c b a k h;
  }

module _ {ℓ} {A : Type ℓ} {p q : A → A → Ordering} (pre : IsPreorder p) (post : IsPreorder q) where
  then_by_trans :
      (a b c : A)
      → then_by (p a b) (q a b) ≢ Ordering.gt
      → then_by (p b c) (q b c) ≢ Ordering.gt
      → then_by (p a c) (q a c) ≢ Ordering.gt
  then_by_trans a b c h k = ground (
    arith,
    pre.flips a b,
    pre.flips a c,
    pre.flips b c,
    pre.trans a b c,
    pre.trans b c a,
    pre.trans c a b,
    post.trans a b c,
  )

  -- lexicographic order
  pub IsPreorder-then_by : IsPreorder (λ x y. then_by (p x y) (q x y))
  IsPreorder-then_by = record {
    flips = λ a b. ground (arith, pre.flips a b, post.flips a b);
    trans = then_by_trans;
  }

-- the comparison under which all tie
pub IsPreorder-tie {ℓ} : {A : Type ℓ} → IsPreorder {A = A} (λ x y. Ordering.eq)
IsPreorder-tie = record { flips = λ a b. refl; trans = λ a b c h k. k }

-- Python's comparison of texts, by code points.
unfoldable pub compare_codes : List ℕ → List ℕ → Ordering
compare_codes [] [] = Ordering.eq
compare_codes [] (y ∷ ys) = Ordering.lt
compare_codes (x ∷ xs) [] = Ordering.gt
compare_codes (x ∷ xs) (y ∷ ys) = then_by (compare x y) (compare_codes xs ys)

compare_codes-flips : (a b : List ℕ) → compare_codes b a ≡ flip (compare_codes a b)
unfolding compare_codes
compare_codes-flips [] [] = refl
compare_codes-flips [] (y ∷ ys) = refl
compare_codes-flips (x ∷ xs) [] = refl
compare_codes-flips (x ∷ xs) (y ∷ ys) = ground (arith, compare_codes-flips xs ys)

compare_codes_trans :
    (a b c : List ℕ)
    → compare_codes a b ≢ Ordering.gt
    → compare_codes b c ≢ Ordering.gt
    → compare_codes a c ≢ Ordering.gt
unfolding compare_codes
compare_codes_trans [] b [] h k = ground arith
compare_codes_trans [] b (z ∷ zs) h k = ground arith
compare_codes_trans (x ∷ xs) [] c h k = ground arith
compare_codes_trans (x ∷ xs) (y ∷ ys) [] h k = ground arith
compare_codes_trans (x ∷ xs) (y ∷ ys) (z ∷ zs) h k = ground (arith, compare_codes_trans xs ys zs)

pub IsPreorder-compare_codes : IsPreorder compare_codes
IsPreorder-compare_codes = record { flips = compare_codes-flips; trans = compare_codes_trans }

pub compare_codes-eq : (a b : List ℕ) → compare_codes a b ≡ Ordering.eq → a ≡ b
unfolding compare_codes
compare_codes-eq [] [] h = refl
compare_codes-eq [] (y ∷ ys) h = ground arith
compare_codes-eq (x ∷ xs) [] h = ground arith
compare_codes-eq (x ∷ xs) (y ∷ ys) h = ground (arith, compare_codes-eq xs ys)
