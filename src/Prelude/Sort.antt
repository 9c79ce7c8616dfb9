-- ===== src/Prelude/Sort.antt =====
-- Python's `sorted` as a stable insertion sort: of two items it asks only whether the later one
-- compares strictly below the earlier one. Under a preorder every stable sort has this result.
use Prim.Native.Nat.{suc, Ordering}
use mathlib.Core.Path.{◌≡◌, refl, ap, ap₂, ◌∙◌}
use mathlib.Core.Logic.{◌≢◌, inl, inr}
use mathlib.Core.Logic.Or
use mathlib.Core.Bool.{Bool, true, false}
use mathlib.Core.HLevel.{Π_prop, ⊥_prop}
use mathlib.Core.List.{List, [], ◌∷◌, Perm, Mem, mem-cons, mem-cons_self, mem-cons_of_mem}
use mathlib.Core.List.Perm
use native.Mathlib.Omega.{arith}
use us_flight_delay_mlops.Prelude.Tests.{if◌then◌else◌, Bool-cases}
use us_flight_delay_mlops.Prelude.Lists.{All, length}
use us_flight_delay_mlops.Prelude.Compare.{IsPreorder, IsPreorder-refl}

-- `cmp(x, y) < 0`
abbrev pub is_lt : Ordering → Bool
is_lt Ordering.lt = true
is_lt Ordering.eq = false
is_lt Ordering.gt = false

module _ {ℓ} {A : Type ℓ} (cmp : A → A → Ordering) where
  unfoldable pub insert_by : A → List A → List A
  insert_by x [] = x ∷ []
  insert_by x (y ∷ ys) =
      let rest = insert_by x ys in if is_lt (cmp y x) then y ∷ rest else x ∷ y ∷ ys

  unfoldable pub sort_by : List A → List A
  unfolding insert_by
  sort_by [] = []
  sort_by (x ∷ xs) = insert_by x (sort_by xs)

  -- Sorting keeps what holds of every item.
  All-insert_by {κ} : (P : A → Type κ) (x : A) (l : List A) → P x → All P l → All P (insert_by x l)
  unfolding insert_by
  All-insert_by P x [] p h = (p, tt)
  All-insert_by P x (y ∷ ys) p h = elim (Bool-cases (is_lt (cmp y x))) [
    | inl below ↦ rw below (h.0, All-insert_by P x ys p h.1)
    | inr above ↦ rw above (p, h)
  ]

  pub All-sort_by {κ} : (P : A → Type κ) (l : List A) → All P l → All P (sort_by l)
  unfolding sort_by
  All-sort_by P [] h = tt
  All-sort_by P (x ∷ xs) h = All-insert_by P x (sort_by xs) h.0 (All-sort_by P xs h.1)

  insert_by-perm : (x : A) (l : List A) → Perm (insert_by x l) (x ∷ l)
  unfolding insert_by
  insert_by-perm x [] = Perm.rfl
  insert_by-perm x (y ∷ ys) = elim (Bool-cases (is_lt (cmp y x))) [
    | inl below ↦ rw below (Perm.trans (Perm.cons y (insert_by-perm x ys)) (Perm.swap x y ys))
    | inr above ↦ rw above Perm.rfl
  ]

  -- Sorting rearranges.
  pub sort_by-perm : (l : List A) → Perm (sort_by l) l
  unfolding sort_by
  sort_by-perm [] = Perm.rfl
  sort_by-perm (x ∷ xs) = Perm.trans (insert_by-perm x (sort_by xs)) (Perm.cons x (sort_by-perm xs))

  length-insert_by : (x : A) (l : List A) → length (insert_by x l) ≡ suc (length l)
  unfolding insert_by
  length-insert_by x [] = refl
  length-insert_by x (y ∷ ys) = ground (arith, length-insert_by x ys)

  pub length-sort_by : (l : List A) → length (sort_by l) ≡ length l
  unfolding sort_by
  length-sort_by [] = refl
  length-sort_by (x ∷ xs) = length-insert_by x (sort_by xs) ∙ ap suc (length-sort_by xs)

  -- `a` compares above no member of `l`.
  abbrev pub IsBelow : A → List A → Type ℓ
  IsBelow a l = (y : A) → Mem y l → cmp a y ≢ Ordering.gt

  abbrev pub IsSorted : List A → Type ℓ
  IsSorted [] = Unit
  IsSorted (x ∷ xs) = IsBelow x xs × IsSorted xs

ne_prop : {o : Ordering} → IsProp (o ≢ Ordering.gt)
ne_prop = Π_prop λ _. ⊥_prop

module _ {ℓ} {A : Type ℓ} {cmp : A → A → Ordering} (pre : IsPreorder cmp) where
  IsBelow-cons :
      (a b : A) (l : List A) → cmp a b ≢ Ordering.gt → IsBelow cmp b l → IsBelow cmp a (b ∷ l)
  IsBelow-cons a b l p h y m =
      Or.elim ne_prop (mem-cons.0 m) (λ e. rw e p) λ m'. pre.trans a b y p (h y m')

  IsBelow-perm : (a : A) (l r : List A) → Perm l r → IsBelow cmp a r → IsBelow cmp a l
  IsBelow-perm a l r p h y m = h y ((Perm.mem_iff p).0 m)

  insert_by-IsSorted : (x : A) (l : List A) → IsSorted cmp l → IsSorted cmp (insert_by cmp x l)
  unfolding insert_by
  insert_by-IsSorted x [] h = (λ y m. absurd (mathlib.Core.List.not-mem-nil m), tt)
  insert_by-IsSorted x (y ∷ ys) (below, sorted) = elim (Bool-cases (is_lt (cmp y x))) [
    | inl lt ↦ rw lt (
      IsBelow-perm y (insert_by cmp x ys) (x ∷ ys) (insert_by-perm cmp x ys)
          (λ z m. Or.elim ne_prop (mem-cons.0 m) (λ e. rw e (ground arith)) (below z)),
      insert_by-IsSorted x ys sorted,
    )
    | inr ge ↦ rw ge (IsBelow-cons x y ys (ground (arith, pre.flips y x)) below, (below, sorted))
  ]

  -- In the sorted list no member compares above a later one.
  pub sort_by-IsSorted : (l : List A) → IsSorted cmp (sort_by cmp l)
  unfolding sort_by
  sort_by-IsSorted [] = tt
  sort_by-IsSorted (x ∷ xs) = insert_by-IsSorted x (sort_by cmp xs) (sort_by-IsSorted xs)

  -- The head of the sorted list compares above no item.
  pub sort_by_head :
      (l : List A) {w : A} {rest : List A} → sort_by cmp l ≡ w ∷ rest → IsBelow cmp w l
  sort_by_head l {w} {rest} e =
      let sorted : IsSorted cmp (w ∷ rest) = rw e at (sort_by-IsSorted l) in
      let same : Perm l (w ∷ rest) = rw e at (Perm.symm (sort_by-perm cmp l)) in
      IsBelow-perm w l (w ∷ rest) same
        (IsBelow-cons w w rest (rw (IsPreorder-refl pre w) (λ c. cc)) sorted.0)

  -- among the members of a list only equal items tie
  abbrev pub Distinguishes : List A → Type ℓ
  Distinguishes l = (a b : A) → Mem a l → Mem b l → cmp a b ≡ Ordering.eq → a ≡ b

  heads_agree :
      (a b : A) (l r : List A)
      → Distinguishes (a ∷ l)
      → IsSorted cmp (a ∷ l)
      → IsSorted cmp (b ∷ r)
      → Perm (a ∷ l) (b ∷ r)
      → a ≡ b
  heads_agree a b l r d sa sb p =
      let refl_a = IsPreorder-refl pre a in
      let refl_b = IsPreorder-refl pre b in
      let b_in = (Perm.mem_iff p).1 mem-cons_self in
      let ab = IsBelow-cons a a l (rw refl_a (λ c. cc)) sa.0 b b_in in
      let ba = IsBelow-cons b b r (rw refl_b (λ c. cc)) sb.0 a ((Perm.mem_iff p).0 mem-cons_self) in
      d a b mem-cons_self b_in (ground (arith, pre.flips a b))

  IsSorted-eq_of_perm :
      (l r : List A) → Distinguishes l → IsSorted cmp l → IsSorted cmp r → Perm l r → l ≡ r
  IsSorted-eq_of_perm [] r d sl sr p = Perm.nil-eq p
  IsSorted-eq_of_perm (a ∷ l) [] d sl sr p = Perm.eq-nil p
  IsSorted-eq_of_perm (a ∷ l) (b ∷ r) d sl sr p =
      let heads = heads_agree a b l r d sl sr p in
      let tails = Perm.cons_inv (Perm.trans p (Perm.symm (Perm.cons' heads Perm.rfl))) in
      let inside = λ (x y : A) (mx : Mem x l) (my : Mem y l).
        d x y (mem-cons_of_mem a mx) (mem-cons_of_mem a my) in
      ap₂ ◌∷◌ heads (IsSorted-eq_of_perm l r inside sl.1 sr.1 tails)

  -- Where only equal items tie, the result does not depend on the order of the input.
  pub sort_by_perm_eq : (l r : List A) → Distinguishes l → Perm l r → sort_by cmp l ≡ sort_by cmp r
  sort_by_perm_eq l r d p =
      let sorted_l = sort_by-perm cmp l in
      IsSorted-eq_of_perm (sort_by cmp l) (sort_by cmp r)
        (λ a b ma mb. d a b ((Perm.mem_iff sorted_l).0 ma) ((Perm.mem_iff sorted_l).0 mb))
        (sort_by-IsSorted l) (sort_by-IsSorted r)
        (Perm.trans sorted_l (Perm.trans p (Perm.symm (sort_by-perm cmp r))))
