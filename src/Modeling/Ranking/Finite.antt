-- ===== src/Modeling/Ranking/Finite.antt =====
-- Where the keys are finite the comparison is a total preorder, which no NaN is.
use us_flight_delay_mlops.Prelude.{
  ◌≡◌, refl, ◌≢◌, List, [], ◌∷◌, ◌++◌, All, String, Ordering, arith, Bool-cases, inl, inr,
}
use mathlib.Core.Logic.Or
use mathlib.Core.HLevel.{Π_prop, ⊥_prop}
use mathlib.Core.List.{Mem, mem-cons, mem-cons_self, mem-cons_of_mem, mem-append}
use us_flight_delay_mlops.Prelude.Int.{ℤ, pos, compare_ℤ}
use us_flight_delay_mlops.Prelude.Compare.{
  IsPreorder, IsPreorder-compare_ℤ, IsPreorder-refl, then_by, flip,
}
use us_flight_delay_mlops.Prelude.Sort.{is_lt, insert_by, sort_by, All-sort_by, IsBelow, IsSorted}
use us_flight_delay_mlops.Prelude.Names.{compare_text, IsPreorder-compare_text}
use us_flight_delay_mlops.Python.Float.{Float, finite, inf, neg_inf, nan, flt, feq}
use us_flight_delay_mlops.Modeling.Ranking.{compare_float, compare_keys, min_by}

abbrev value_of : Float → ℤ
value_of (finite n) = n
value_of inf = pos 0
value_of neg_inf = pos 0
value_of nan = pos 0

-- the comparison of the values, whatever the keys
unfoldable pub compare_values : List Float → String → List Float → String → Ordering
compare_values [] s [] t = compare_text s t
compare_values [] s (y ∷ ys) t = Ordering.lt
compare_values (x ∷ xs) s [] t = Ordering.gt
compare_values (x ∷ xs) s (y ∷ ys) t =
    then_by (compare_ℤ (value_of x) (value_of y)) (compare_values xs s ys t)

pub data IsFinite : Float → Type 0 where
  is_finite : {n : ℤ} → IsFinite (finite n)

compare_float-finite : (a b : ℤ) → compare_float (finite a) (finite b) ≡ compare_ℤ a b
unfolding compare_float flt feq
compare_float-finite a b = ground arith

pub compare_keys-finite :
    (xs : List Float) (s : String) (ys : List Float) (t : String)
    → All IsFinite xs
    → All IsFinite ys
    → compare_keys xs s ys t ≡ compare_values xs s ys t
unfolding compare_keys compare_values
compare_keys-finite [] s [] t h k = refl
compare_keys-finite [] s (y ∷ ys) t h k = refl
compare_keys-finite (x ∷ xs) s [] t h k = refl
compare_keys-finite (x ∷ xs) s (y ∷ ys) t (is_finite {n}, h) (is_finite {n = m}, k) =
    rw (compare_float-finite n m, compare_keys-finite xs s ys t h k) refl

-- what is compared
abbrev Key : Type 0
Key = List Float × String

abbrev compare_key : Key → Key → Ordering
compare_key (xs, s) (ys, t) = compare_values xs s ys t

compare_values-flips :
    (xs : List Float) (s : String) (ys : List Float) (t : String)
    → compare_values ys t xs s ≡ flip (compare_values xs s ys t)
unfolding compare_values
compare_values-flips [] s [] t = IsPreorder-compare_text.flips s t
compare_values-flips [] s (y ∷ ys) t = refl
compare_values-flips (x ∷ xs) s [] t = refl
compare_values-flips (x ∷ xs) s (y ∷ ys) t =
    ground
      (arith, compare_values-flips xs s ys t, IsPreorder-compare_ℤ.flips (value_of x) (value_of y))

compare_values_trans :
    (xs : List Float) (s : String) (ys : List Float) (t : String) (zs : List Float) (u : String)
    → compare_values xs s ys t ≢ Ordering.gt
    → compare_values ys t zs u ≢ Ordering.gt
    → compare_values xs s zs u ≢ Ordering.gt
unfolding compare_values
compare_values_trans [] s [] t [] u h k = IsPreorder-compare_text.trans s t u h k
compare_values_trans [] s ys t (z ∷ zs) u h k = λ e. cc
compare_values_trans [] s (y ∷ ys) t [] u h k = absurd (k refl)
compare_values_trans (x ∷ xs) s [] t zs u h k = absurd (h refl)
compare_values_trans (x ∷ xs) s (y ∷ ys) t [] u h k = absurd (k refl)
compare_values_trans (x ∷ xs) s (y ∷ ys) t (z ∷ zs) u h k =
    ground (arith, compare_values_trans xs s ys t zs u)

pub IsPreorder-compare_values : IsPreorder compare_key
IsPreorder-compare_values = record {
  flips = λ a b. compare_values-flips a.0 a.1 b.0 b.1;
  trans = λ a b c. compare_values_trans a.0 a.1 b.0 b.1 c.0 c.1;
}

-- What holds of every member may be used for a member.
pub All-Mem {ℓ κ μ} :
    {A : Type ℓ} (P : A → Type κ) {Q : Type μ} {a : A} (l : List A)
    → All P l
    → Mem a l
    → IsProp Q
    → (P a → Q)
    → Q
All-Mem P [] h m q f = absurd (mathlib.Core.List.not-mem-nil m)
All-Mem P (x ∷ xs) h m q f =
    Or.elim q (mem-cons.0 m) (λ e. f (rw e h.0)) (λ m'. All-Mem P xs h.1 m' q f)

module _ {ℓ κ} {A : Type ℓ} (cmp pure : A → A → Ordering) (P : A → Type κ)
    (agree : (a b : A) → P a → P b → cmp a b ≡ pure a b) where
  pub min_by-agree : (x : A) (l : List A) → P x → All P l → min_by cmp x l ≡ min_by pure x l
  unfolding min_by
  min_by-agree x [] p h = refl
  min_by-agree x (y ∷ ys) p h = elim (Bool-cases (is_lt (pure y x))) [
    | inl below ↦ rw (agree y x h.0 p) (rw below (min_by-agree y ys h.0 h.1))
    | inr above ↦ rw (agree y x h.0 p) (rw above (min_by-agree x ys p h.1))
  ]

  insert_by-agree : (x : A) (l : List A) → P x → All P l → insert_by cmp x l ≡ insert_by pure x l
  unfolding insert_by
  insert_by-agree x [] p h = refl
  insert_by-agree x (y ∷ ys) p h = rw (agree y x h.0 p, insert_by-agree x ys p h.1) refl

  pub sort_by-agree : (l : List A) → All P l → sort_by cmp l ≡ sort_by pure l
  unfolding sort_by
  sort_by-agree [] h = refl
  sort_by-agree (x ∷ xs) h =
      rw (sort_by-agree xs h.1)
        (insert_by-agree x (sort_by pure xs) h.0 (All-sort_by pure P xs h.1))

  pub IsSorted-agree : (l : List A) → All P l → IsSorted pure l → IsSorted cmp l
  IsSorted-agree [] h s = tt
  IsSorted-agree (x ∷ xs) h s = (
    λ y m. All-Mem P xs h.1 m (Π_prop λ _. ⊥_prop) (λ q. rw (agree x y h.0 q) (s.0 y m)),
    IsSorted-agree xs h.1 s.1,
  )

module _ {ℓ} {A : Type ℓ} (cmp : A → A → Ordering) where
  -- The smallest is a member.
  pub min_by-Mem : (x : A) (l : List A) → Mem (min_by cmp x l) (x ∷ l)
  unfolding min_by
  min_by-Mem x [] = mem-cons_self
  min_by-Mem x (y ∷ ys) = elim (Bool-cases (is_lt (cmp y x))) [
    | inl below ↦ rw below (mem-cons_of_mem x (min_by-Mem y ys))
    | inr above ↦ rw above (
        Or.elim squash₁ (mem-cons.0 (min_by-Mem x ys)) (λ e. rw e mem-cons_self)
          (λ m. mem-cons_of_mem x (mem-cons_of_mem y m)))
  ]

  -- A sorted list, cut in two: no member of the first part compares above one of the second.
  pub IsSorted-append :
      (xs ys : List A)
      → IsSorted cmp (xs ++ ys)
      → IsSorted cmp xs × ((a b : A) → Mem a xs → Mem b ys → cmp a b ≢ Ordering.gt)
  IsSorted-append [] ys s = (tt, λ a b m. absurd (mathlib.Core.List.not-mem-nil m))
  IsSorted-append (x ∷ xs) ys s =
      let rest = IsSorted-append xs ys s.1 in
      (
        (λ y m. s.0 y (mem-append.1 (Or.inl m)), rest.0),
        λ a b m k.
            Or.elim (Π_prop λ _. ⊥_prop) (mem-cons.0 m)
              (λ e. rw e (s.0 b (mem-append.1 (Or.inr k)))) (λ m'. rest.1 a b m' k),
      )

module _ {ℓ} {A : Type ℓ} {cmp : A → A → Ordering} (pre : IsPreorder cmp) where
  -- No member compares below the smallest.
  pub min_by-IsBelow : (x : A) (l : List A) → IsBelow cmp (min_by cmp x l) (x ∷ l)
  unfolding min_by
  min_by-IsBelow x [] y m =
      Or.elim (Π_prop λ _. ⊥_prop) (mem-cons.0 m) (λ e. rw (e, IsPreorder-refl pre x) (λ c. cc))
        (λ n. absurd (mathlib.Core.List.not-mem-nil n))
  min_by-IsBelow x (y ∷ ys) z m = elim (Bool-cases (is_lt (cmp y x))) [
    | inl below ↦
        let least = min_by-IsBelow y ys in
        let of_x =
          pre.trans (min_by cmp y ys) y x (least y mem-cons_self) (ground (arith, below)) in
        rw below (Or.elim (Π_prop λ _. ⊥_prop) (mem-cons.0 m) (λ e. rw e of_x) (least z))
    | inr above ↦
        let least = min_by-IsBelow x ys in
        let of_y =
          pre.trans (min_by cmp x ys) x y (least x mem-cons_self)
            (ground (arith, above, pre.flips x y)) in
        rw above (
          Or.elim (Π_prop λ _. ⊥_prop) (mem-cons.0 m) (λ e. rw e (least x mem-cons_self))
            (λ m'.
              Or.elim (Π_prop λ _. ⊥_prop) (mem-cons.0 m') (λ e. rw e of_y)
                (λ k. least z (mem-cons_of_mem x k))))
  ]
