-- ===== src/Python/Sorted.antt =====
-- `sorted` with a comparison that may raise; see Prelude/Sort for the order of the questions.
use mathlib.Core.List.{Perm}
use mathlib.Core.List.Perm
use us_flight_delay_mlops.Prelude.{
  ◌≡◌, refl, List, [], ◌∷◌, All, Ordering, if◌then◌else◌, Bool-cases, inl, inr,
}
use us_flight_delay_mlops.Prelude.Sort.{is_lt, insert_by, sort_by, All-sort_by}
use us_flight_delay_mlops.Python.Result.Ensures.{Ensures, Ensures-bind, Ensures-eq_ok, Ensures-map}
use us_flight_delay_mlops.Python.Result.{Result, ok, ◌>>=◌}

module _ {ℓ κ} {E : Type ℓ} {A : Type κ} (cmp : A → A → Result E Ordering) where
  insert_result : A → List A → Result E (List A)
  insert_result x [] = ok (x ∷ [])
  insert_result x (y ∷ ys) = do
    o ← cmp y x
    let rest = insert_result x ys
    if is_lt o then (rest >>= λ more. ok (y ∷ more)) else ok (x ∷ y ∷ ys)

  unfoldable pub sort_result : List A → Result E (List A)
  unfolding insert_result
  sort_result [] = ok []
  sort_result (x ∷ xs) = do rest ← sort_result xs; insert_result x rest

module _ {ℓ κ} {E : Type ℓ} {A : Type κ} (cmp : A → A → Result E Ordering)
    (pure : A → A → Ordering) where
  -- the comparison of `y` with `x` does not raise
  abbrev pub Agrees : A → A → Type ℓ
  Agrees x y = cmp y x ≡ ok (pure y x)

  -- no comparison of an item with a later one raises
  abbrev pub AllAgree : List A → Type ℓ
  AllAgree [] = Unit
  AllAgree (x ∷ xs) = All (Agrees x) xs × AllAgree xs

  insert_result-eq :
      (x : A) (l : List A) → All (Agrees x) l → insert_result cmp x l ≡ ok (insert_by pure x l)
  unfolding insert_result insert_by ◌>>=◌
  insert_result-eq x [] h = refl
  insert_result-eq x (y ∷ ys) h = elim (Bool-cases (is_lt (pure y x))) [
    | inl below ↦ rw (h.0, insert_result-eq x ys h.1) (rw below)
    | inr above ↦ rw (h.0, insert_result-eq x ys h.1) (rw above)
  ]

  -- Where no comparison raises, `sorted` returns what the pure sort returns.
  pub sort_result-eq : (l : List A) → AllAgree l → sort_result cmp l ≡ ok (sort_by pure l)
  unfolding sort_result sort_by ◌>>=◌
  sort_result-eq [] h = refl
  sort_result-eq (x ∷ xs) h =
      rw (sort_result-eq xs h.1)
        (insert_result-eq x (sort_by pure xs) (All-sort_by pure (Agrees x) xs h.0))

module _ {ℓ κ} {E : Type ℓ} {A : Type κ} (cmp : A → A → Result E Ordering) where
  insert_result-perm :
      (x : A) (l : List A) → Ensures (λ out. Perm out (x ∷ l)) (insert_result cmp x l)
  unfolding insert_result
  insert_result-perm x [] = Perm.rfl
  insert_result-perm x (y ∷ ys) = Ensures-bind _ _ _ λ o _. elim (Bool-cases (is_lt o)) [
    | inl below ↦ rw below (
        Ensures-bind _ _ _ λ more e.
          Perm.trans
            (Perm.cons y (Ensures-eq_ok (λ out. Perm out (x ∷ ys)) _ (insert_result-perm x ys) e))
            (Perm.swap x y ys))
    | inr above ↦ rw above Perm.rfl
  ]

  -- `sorted` returns the items that it is given.
  pub sort_result-perm : (l : List A) → Ensures (λ out. Perm out l) (sort_result cmp l)
  unfolding sort_result
  sort_result-perm [] = Perm.rfl
  sort_result-perm (x ∷ xs) = Ensures-bind _ _ _ λ rest e.
      Ensures-map (λ out. Perm out (x ∷ rest)) (λ out. Perm out (x ∷ xs)) (insert_result cmp x rest)
        (λ out same.
          Perm.trans same
            (Perm.cons x (Ensures-eq_ok (λ out. Perm out xs) _ (sort_result-perm xs) e)))
        (insert_result-perm x rest)
