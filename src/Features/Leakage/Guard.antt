-- ===== src/Features/Leakage/Guard.antt =====
-- What the guard lets through (src/flight_delay/features/leakage.py).
use us_flight_delay_mlops.Prelude.{
  ◌≡◌, refl, sym, ◌∙◌, ◌≢◌, ◌↔◌, Bool, true, false, not, ◌&&◌, ◌||◌, List, [], ◌∷◌, ◌++◌, filter,
  any, is_empty, All, String, Bool-cases, inl, inr, arith, ◌=ₛ◌, eq_iff,
}
use us_flight_delay_mlops.Prelude.Names.{All-distinct, distinct, member}
use us_flight_delay_mlops.Python.Result.{ok, ◌>>=◌}
use us_flight_delay_mlops.Python.Result.Ensures.{
  Ensures, Ensures-bind, Ensures-eq_ok, raise_if-eq-ok,
}
use us_flight_delay_mlops.Python.Result.Returns.{Returns}
use us_flight_delay_mlops.Features.Leakage.{
  Unicode, validate_model_features, allowed_model_features, forbidden_features, is_known,
  forbidden_names, unapproved_names, is_blank_name,
}

module _ (unicode : Unicode) where
  -- the guard's promise, feature by feature
  pub record IsSafeFeature (feature : String) : Type 0 where
    pub named : is_blank_name unicode feature ≡ false
    pub no_outcome : is_known unicode forbidden_features feature ≡ false
    pub approved : is_known unicode allowed_model_features feature ≡ true

  -- a schema of at least one feature, all of which are safe
  pub record IsSafeSchema (features : List String) : Type 0 where
    pub some_feature : features ≢ []
    pub safe : All IsSafeFeature features

  member-All {ℓ} :
      (P : String → Type ℓ) (s : String) (l : List String) → member s l ≡ true → All P l → P s
  unfolding member
  member-All P s [] m h = cc
  member-All P s (t ∷ ts) m h = elim (Bool-cases (t =ₛ s)) [
    | inl same ↦ rw ((eq_iff t s).0 same) at h.0
    | inr other ↦ member-All P s ts (rw other at m) h.1
  ]

  All-of_distinct {ℓ} : (P : String → Type ℓ) (l : List String) → All P (distinct l) → All P l
  unfolding distinct
  All-of_distinct P [] h = tt
  All-of_distinct P (s ∷ ts) h = elim (Bool-cases (member s ts)) [
    | inl again ↦
        let rest = All-of_distinct P ts (rw again at h) in (member-All P s ts again rest, rest)
    | inr new ↦
        let both : P s × All P (distinct ts) = rw new at h in (both.0, All-of_distinct P ts both.1)
  ]

  distinct-nil : (l : List String) → is_empty (distinct l) ≡ is_empty l
  unfolding distinct
  distinct-nil [] = refl
  distinct-nil (s ∷ []) = refl
  distinct-nil (s ∷ t ∷ ts) = elim (Bool-cases (member s (t ∷ ts))) [
    | inl again ↦ rw again (distinct-nil (t ∷ ts))
    | inr new ↦ rw new refl
  ]

  any-All : (p : String → Bool) (l : List String) → any p l ≡ false → All (λ x. p x ≡ false) l
  any-All p [] h = tt
  any-All p (x ∷ xs) h = (ground arith, any-All p xs (ground arith))

  All-any : (p : String → Bool) (l : List String) → All (λ x. p x ≡ false) l → any p l ≡ false
  All-any p [] h = refl
  All-any p (x ∷ xs) h = ground (arith, All-any p xs h.1)

  filter-All :
      (p : String → Bool) (l : List String)
      → is_empty (filter p l) ≡ true
      → All (λ x. p x ≡ false) l
  filter-All p [] h = tt
  filter-All p (x ∷ xs) h = (ground arith, filter-All p xs (ground arith))

  All-filter :
      (p : String → Bool) (l : List String)
      → All (λ x. p x ≡ false) l
      → is_empty (filter p l) ≡ true
  All-filter p [] h = refl
  All-filter p (x ∷ xs) h = ground (arith, All-filter p xs h.1)

  is_empty-append :
      (xs ys : List String)
      → is_empty (xs ++ ys) ≡ true
      → (is_empty xs ≡ true) × (is_empty ys ≡ true)
  is_empty-append [] ys h = (refl, h)
  is_empty-append (x ∷ xs) ys h = cc

  append-is_empty :
      (xs ys : List String) → is_empty xs ≡ true → is_empty ys ≡ true → is_empty (xs ++ ys) ≡ true
  append-is_empty [] ys h k = k
  append-is_empty (x ∷ xs) ys h k = h

  not_of_true : (b : Bool) → b ≡ true → not b ≡ false
  not_of_true b h = rw h refl

  true_of_not : (b : Bool) → not b ≡ false → b ≡ true
  true_of_not true h = refl
  true_of_not false h = cc

  names-All :
      (l : List String)
      → is_empty (forbidden_names unicode l) ≡ true
      → All (λ x. is_known unicode forbidden_features x ≡ false) l
  unfolding forbidden_names is_known
  names-All [] h = tt
  names-All (x ∷ xs) h =
      let parts = is_empty-append _ _ h in (not_of_true _ parts.0, names-All xs parts.1)

  All-names :
      (l : List String)
      → All (λ x. is_known unicode forbidden_features x ≡ false) l
      → is_empty (forbidden_names unicode l) ≡ true
  unfolding forbidden_names is_known
  All-names [] h = refl
  All-names (x ∷ xs) h = append-is_empty _ _ (true_of_not _ h.0) (All-names xs h.1)

  approved_of : (a f : Bool) → (not a && not f) ≡ false → f ≡ false → a ≡ true
  approved_of a f h k = ground arith

  zip_safe :
      (l : List String)
      → All (λ x. is_blank_name unicode x ≡ false) l
      → All (λ x. is_known unicode forbidden_features x ≡ false) l
      → All
          (λ x.
            (not (is_known unicode allowed_model_features x)
              && not (is_known unicode forbidden_features x))
            ≡ false)
          l
      → All IsSafeFeature l
  zip_safe [] h k m = tt
  zip_safe (x ∷ xs) h k m = (
    record { named = h.0; no_outcome = k.0; approved = approved_of _ _ m.0 k.0 },
    zip_safe xs h.1 k.1 m.1,
  )

  neither : (a b : Bool) → (not a || not b) ≡ false → (a ≡ true) × (b ≡ true)
  neither true true h = (refl, refl)
  neither true false h = cc
  neither false b h = cc

  empty_iff : (l : List String) → is_empty l ≡ false → l ≢ []
  empty_iff [] h = cc
  empty_iff (x ∷ xs) h = λ e. cc

  not_empty : (l : List String) → l ≢ [] → is_empty l ≡ false
  not_empty [] h = absurd (h refl)
  not_empty (x ∷ xs) h = refl

  validate_model_features-safe :
      (features : List String)
      → Ensures (λ out. IsSafeSchema features) (validate_model_features unicode features)
  unfolding validate_model_features unapproved_names
  validate_model_features-safe features = Ensures-bind _ _ _ λ _ some_feature.
      Ensures-bind _ _ _ λ _ named. Ensures-bind _ _ _ λ _ clean.
        let parts = neither _ _ (raise_if-eq-ok _ _ clean) in
        let known = sym (distinct-nil (forbidden_names unicode (distinct features))) ∙ parts.0 in
        record {
          some_feature =
              empty_iff features (sym (distinct-nil features) ∙ raise_if-eq-ok _ _ some_feature);
          safe = All-of_distinct IsSafeFeature features (
              zip_safe (distinct features) (any-All _ _ (raise_if-eq-ok _ _ named))
                (names-All _ known) (filter-All _ _ parts.1));
        }

  All-map :
      (P Q : String → Type 0) (l : List String) → ((x : String) → P x → Q x) → All P l → All Q l
  All-map P Q [] f h = tt
  All-map P Q (x ∷ xs) f h = (f x h.0, All-map P Q xs f h.1)

  safe-validate_model_features :
      (features : List String)
      → IsSafeSchema features
      → validate_model_features unicode features ≡ ok (distinct features)
  unfolding validate_model_features unapproved_names ◌>>=◌
  safe-validate_model_features features safe =
      let all_safe = All-distinct IsSafeFeature features safe.safe in
      let some = distinct-nil features ∙ not_empty features safe.some_feature in
      let named =
        All-any (is_blank_name unicode) (distinct features)
          (All-map _ _ _ (λ x s. s.named) all_safe) in
      let none =
        distinct-nil (forbidden_names unicode (distinct features))
        ∙ All-names _ (All-map _ _ _ (λ x s. s.no_outcome) all_safe) in
      let approved : is_empty (unapproved_names unicode (distinct features)) ≡ true =
        All-filter _ (distinct features)
          (All-map IsSafeFeature _ _ (λ x s. rw s.approved refl) all_safe) in
      rw (some, named, none, approved) refl

  -- The guard accepts a schema exactly when it has a feature and every feature has a name that is
  -- not blank, has the comparison key of an approved feature and has that of no post-outcome
  -- feature, whatever the tables of Unicode are beyond ASCII.
  pub validate_model_features_iff :
      (features : List String)
      → Returns (validate_model_features unicode features) ↔ IsSafeSchema features
  validate_model_features_iff features = (
    λ (out, h).
        Ensures-eq_ok (λ (out : List String). IsSafeSchema features) _
          (validate_model_features-safe features) h,
    λ safe. (distinct features, safe-validate_model_features features safe),
  )
