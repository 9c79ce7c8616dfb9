-- ===== src/Persistence/Codec/RoundTrip.antt =====
-- What is read back of a value that src/flight_delay/persistence/dynamodb.py stores.
use us_flight_delay_mlops.Prelude.{
  ℕ, zero, suc, ◌==◌, Bool-cases, ◌∙◌, ◌+◌, ◌*◌, ◌/◌, ◌%◌, ◌^◌, ap, arith, ◌≡◌, refl, sym,
  if◌then◌else◌, Bool, true, false, none, some, Option-cases, inl, inr, String,
}
use native.Mathlib.Nat.{add-zero, div-add-mod'}
use us_flight_delay_mlops.Prelude.Int.{ℤ, pos, negsuc, negate}
use us_flight_delay_mlops.Python.Float.{Float, isfinite}
use us_flight_delay_mlops.Python.Result.{Result, ok, err}
use us_flight_delay_mlops.Python.Result.Ensures.{>>=-eq-ok, ok-injective}
use us_flight_delay_mlops.Persistence.Codec.{
  Decimal, naive, moment, Datum, null, other, bool, str, int, decimal, float, datetime, iso, enum,
  model, mapping, list, tuple, Data, nil, cons, Attributes, end, attribute, CodecError, value_error,
  whole, signed, magnitude, to_dynamodb, to_data, to_attributes, number, from_dynamodb, from_data,
  from_attributes,
}

-- `n` times `m`
abbrev pub times : ℤ → ℕ → ℤ
times (pos n) m = pos (n * m)
times (negsuc n) m = negate (pos (suc n * m))

-- the Decimal is the integer `n`: its coefficient times a power of ten, or `n` times one is it
abbrev pub Denotes : Decimal → ℤ → Type 0
Denotes d n = elim d.exponent [
  | pos k ↦ n ≡ times d.coefficient (10 ^ k)
  | negsuc k ↦ times n (10 ^ (k + 1)) ≡ d.coefficient
]

scaled : (c : ℤ) (m : ℕ) → signed c (magnitude c * m) ≡ times c m
scaled (pos a) m = refl
scaled (negsuc a) m = refl

exact_quotient : (a m : ℕ) → a % m ≡ 0 → a / m * m ≡ a
exact_quotient a m h =
    sym (add-zero (a / m * m)) ∙ ap (λ r. a / m * m + r) (sym h) ∙ div-add-mod' a m

neg_times : (q m a : ℕ) → q * m ≡ suc a → times (negate (pos q)) m ≡ negsuc a
neg_times zero m a h = ground (arith, h)
neg_times (suc q) m a h = ap (λ x. negate (pos x)) h

no_int : {n : ℤ} {A : Type 0} → none ≡ some n → A
no_int h = cc

some-injective : {a b : ℤ} → some a ≡ some b → a ≡ b
some-injective h = cc

unscaled : (c : ℤ) (m : ℕ) → magnitude c % m ≡ 0 → times (signed c (magnitude c / m)) m ≡ c
unscaled (pos a) m h = ap pos (exact_quotient a m h)
unscaled (negsuc a) m h = neg_times (suc a / m) m a (exact_quotient (suc a) m h)

whole-Denotes : (d : Decimal) (n : ℤ) → whole d ≡ some n → Denotes d n
unfolding whole
whole-Denotes d n h = at d.coefficient d.exponent h
  where
    at :
        (c e : ℤ)
        → whole (record { coefficient = c; exponent = e }) ≡ some n
        → Denotes (record { coefficient = c; exponent = e }) n
    at c (pos k) h = sym (some-injective h) ∙ scaled c (10 ^ k)
    at c (negsuc k) h = elim (Bool-cases (magnitude c % 10 ^ (k + 1) == 0)) [
      | inl divides ↦
          let is : some (signed c (magnitude c / 10 ^ (k + 1))) ≡ some n = rw divides at h in
          ap (λ m. times m (10 ^ (k + 1))) (sym (some-injective is))
          ∙ unscaled c (10 ^ (k + 1)) (ground arith)
      | inr leaves ↦ no_int (rw leaves at h)
    ]

module _ (repr : Float → Decimal) (utc_text : ℤ → String) (nearest : Decimal → Float) where
  -- `Reads v w`: the value `v` is read back as `w`. A whole number comes back as an int, any
  -- other float as itself, a moment or a date as a text, a model as a mapping, a tuple as a list.
  mutual
    pub data Reads : Datum → Datum → Type 0 where
      same_null : Reads null null
      same_bool : (b : Bool) → Reads (bool b) (bool b)
      same_str : (s : String) → Reads (str s) (str s)
      same_int : (n : ℤ) → Reads (int n) (int n)
      whole_decimal : (d : Decimal) (n : ℤ) → Denotes d n → Reads (decimal d) (int n)
      near_decimal : (d : Decimal) → Reads (decimal d) (float (nearest d))
      whole_float : (x : Float) (n : ℤ) → Denotes (repr x) n → Reads (float x) (int n)
      same_float : (x : Float) → Reads (float x) (float x)
      moment_text : (t : ℤ) → Reads (datetime (moment t)) (str (utc_text t))
      iso_text : (s : String) → Reads (iso s) (str s)
      enum_value : {v w : Datum} → Reads v w → Reads (enum v) w
      model_mapping : {fs gs : Attributes} → ReadsAttributes fs gs → Reads (model fs) (mapping gs)
      same_mapping : {fs gs : Attributes} → ReadsAttributes fs gs → Reads (mapping fs) (mapping gs)
      same_list : {vs ws : Data} → ReadsData vs ws → Reads (list vs) (list ws)
      tuple_list : {vs ws : Data} → ReadsData vs ws → Reads (tuple vs) (list ws)

    pub data ReadsData : Data → Data → Type 0 where
      no_data : ReadsData nil nil
      more_data :
          {v w : Datum} {vs ws : Data}
          → Reads v w
          → ReadsData vs ws
          → ReadsData (cons v vs) (cons w ws)

    pub data ReadsAttributes : Attributes → Attributes → Type 0 where
      no_attributes : ReadsAttributes end end
      more_attributes :
          {k : String} {v w : Datum} {fs gs : Attributes}
          → Reads v w
          → ReadsAttributes fs gs
          → ReadsAttributes (attribute k v fs) (attribute k w gs)

  number_reads :
      {v : Datum} (d : Decimal)
      → ((n : ℤ) → whole d ≡ some n → Reads v (int n))
      → (whole d ≡ none → Reads v (float (nearest d)))
      → Reads v (number nearest d)
  unfolding number
  number_reads d ints floats = elim (Option-cases (whole d)) [
    | inl missing ↦ rw (missing, number) (floats missing)
    | inr (n, found) ↦ rw (found, number) (ints n found)
  ]

  module _ (exact : (x : Float) → isfinite x ≡ true → nearest (repr x) ≡ x) where
    near_float :
        (x : Float)
        → isfinite x ≡ true
        → whole (repr x) ≡ none
        → Reads (float x) (float (nearest (repr x)))
    near_float x finite h = rw (exact x finite) (same_float x)

    float_ok :
        (b : Bool) {d s : Datum}
        → ◌≡◌ {A = Result CodecError Datum} (if b then ok d else err value_error) (ok s)
        → (b ≡ true) × (s ≡ d)
    float_ok true h = (refl, cc)
    float_ok false h = cc

    reads_float :
        (x : Float) {s : Datum}
        → to_dynamodb repr utc_text (float x) ≡ ok s
        → Reads (float x) (from_dynamodb nearest s)
    unfolding to_dynamodb from_dynamodb
    reads_float x h =
        let (finite, is) = float_ok (isfinite x) h in
        rw is (
          number_reads (repr x) (λ n e. whole_float x n (whole-Denotes (repr x) n e))
            (near_float x finite))

    mutual
      unfolding to_dynamodb from_dynamodb

      reads :
          (v : Datum) {s : Datum}
          → to_dynamodb repr utc_text v ≡ ok s
          → Reads v (from_dynamodb nearest s)
      reads null h = rw (ok-injective (sym h)) same_null
      reads (bool b) h = rw (ok-injective (sym h)) (same_bool b)
      reads (str t) h = rw (ok-injective (sym h)) (same_str t)
      reads (int n) h = rw (ok-injective (sym h)) (same_int n)
      reads (decimal d) h =
          rw (ok-injective (sym h))
            (number_reads d (λ n e. whole_decimal d n (whole-Denotes d n e)) (λ e. near_decimal d))
      reads (float x) h = reads_float x h
      reads (datetime (moment t)) h = rw (ok-injective (sym h)) (moment_text t)
      reads (iso t) h = rw (ok-injective (sym h)) (iso_text t)
      reads (enum v) h = enum_value (reads v h)
      reads (model fs) h =
          let (gs, done, is) = >>=-eq-ok (to_attributes repr utc_text fs) _ h in
          rw (ok-injective (sym is)) (model_mapping (reads_attributes fs done))
      reads (mapping fs) h =
          let (gs, done, is) = >>=-eq-ok (to_attributes repr utc_text fs) _ h in
          rw (ok-injective (sym is)) (same_mapping (reads_attributes fs done))
      reads (list vs) h =
          let (ws, done, is) = >>=-eq-ok (to_data repr utc_text vs) _ h in
          rw (ok-injective (sym is)) (same_list (reads_data vs done))
      reads (tuple vs) h =
          let (ws, done, is) = >>=-eq-ok (to_data repr utc_text vs) _ h in
          rw (ok-injective (sym is)) (tuple_list (reads_data vs done))
      reads (datetime naive) h = cc
      reads other h = cc

      reads_data :
          (vs : Data) {ws : Data}
          → to_data repr utc_text vs ≡ ok ws
          → ReadsData vs (from_data nearest ws)
      reads_data nil h = rw (ok-injective (sym h)) no_data
      reads_data (cons v vs) h =
          let (w, first, h₁) = >>=-eq-ok (to_dynamodb repr utc_text v) _ h in
          let (ws, rest, is) = >>=-eq-ok (to_data repr utc_text vs) _ h₁ in
          rw (ok-injective (sym is)) (more_data (reads v first) (reads_data vs rest))

      reads_attributes :
          (fs : Attributes) {gs : Attributes}
          → to_attributes repr utc_text fs ≡ ok gs
          → ReadsAttributes fs (from_attributes nearest gs)
      reads_attributes end h = rw (ok-injective (sym h)) no_attributes
      reads_attributes (attribute k v fs) h =
          let (w, first, h₁) = >>=-eq-ok (to_dynamodb repr utc_text v) _ h in
          let (gs, rest, is) = >>=-eq-ok (to_attributes repr utc_text fs) _ h₁ in
          rw (ok-injective (sym is)) (more_attributes (reads v first) (reads_attributes fs rest))

    -- A value that is accepted for storage is read back by its kind, at every depth: texts,
    -- Booleans, integers and the keys of mappings as they are, a float as itself or as the integer
    -- that its decimal text denotes, a Decimal as the integer that it denotes or the nearest float,
    -- a moment as its UTC text, a tuple as a list and a model as a mapping. The decimal text of a
    -- finite float is read as that float.
    pub from_dynamodb-to_dynamodb :
        (v : Datum) {s : Datum}
        → to_dynamodb repr utc_text v ≡ ok s
        → Reads v (from_dynamodb nearest s)
    from_dynamodb-to_dynamodb v h = reads v h
