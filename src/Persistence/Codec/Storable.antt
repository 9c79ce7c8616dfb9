-- ===== src/Persistence/Codec/Storable.antt =====
-- Which values src/flight_delay/persistence/dynamodb.py can store.
use us_flight_delay_mlops.Prelude.{◌≡◌, refl, if◌then◌else◌, ◌↔◌, Bool, true, false, String}
use us_flight_delay_mlops.Prelude.Int.{ℤ}
use us_flight_delay_mlops.Python.Float.{Float, isfinite}
use us_flight_delay_mlops.Python.Result.{Result, ok, err, ◌>>=◌}
use us_flight_delay_mlops.Python.Result.Ensures.{>>=-eq-ok}
use us_flight_delay_mlops.Python.Result.Returns.{Returns, Returns-bind}
use us_flight_delay_mlops.Persistence.Codec.{
  Decimal, naive, moment, Datum, null, other, bool, str, int, decimal, float, datetime, iso, enum,
  model, mapping, list, tuple, Data, nil, cons, Attributes, end, attribute, CodecError, value_error,
  to_dynamodb, to_data, to_attributes,
}

-- values with a form in the store: finite floats, datetimes with a time zone, no foreign types
unfoldable mutual
  pub IsStorable : Datum → Type 0
  IsStorable (float x) = isfinite x ≡ true
  IsStorable (datetime naive) = ⊥
  IsStorable other = ⊥
  IsStorable (enum v) = IsStorable v
  IsStorable (model fields) = AreStorable fields
  IsStorable (mapping fields) = AreStorable fields
  IsStorable (list vs) = AllStorable vs
  IsStorable (tuple vs) = AllStorable vs
  IsStorable _ = Unit

  pub AllStorable : Data → Type 0
  AllStorable nil = Unit
  AllStorable (cons v vs) = IsStorable v × AllStorable vs

  pub AreStorable : Attributes → Type 0
  AreStorable end = Unit
  AreStorable (attribute k v fields) = IsStorable v × AreStorable fields

-- the first step of a block that returns
first_step :
    {A B : Type 0} (m : Result CodecError A) (f : A → Result CodecError B)
    → Returns (m >>= f)
    → Returns m
first_step m f (b, h) = let (a, done, _) = >>=-eq-ok m f h in (a, done)

module _ (repr : Float → Decimal) (utc_text : ℤ → String) where
  finite-Returns :
      (b : Bool) (d : Datum)
      → ((b ≡ true) ↔ Returns {E = CodecError} (if b then ok d else err value_error))
  finite-Returns true d = (λ h. (d, refl), λ h. refl)
  finite-Returns false d = (λ h. cc, λ h. cc h.1)

  mutual
    unfolding to_dynamodb IsStorable

    accepts : (v : Datum) → IsStorable v → Returns (to_dynamodb repr utc_text v)
    accepts null h = (_, refl)
    accepts (bool b) h = (_, refl)
    accepts (str t) h = (_, refl)
    accepts (int n) h = (_, refl)
    accepts (decimal d) h = (_, refl)
    accepts (float x) h = (finite-Returns (isfinite x) _).0 h
    accepts (datetime (moment t)) h = (_, refl)
    accepts (iso t) h = (_, refl)
    accepts (enum v) h = accepts v h
    accepts (model fs) h = Returns-bind _ _ (accepts_attributes fs h) λ gs. (_, refl)
    accepts (mapping fs) h = Returns-bind _ _ (accepts_attributes fs h) λ gs. (_, refl)
    accepts (list vs) h = Returns-bind _ _ (accepts_data vs h) λ ws. (_, refl)
    accepts (tuple vs) h = Returns-bind _ _ (accepts_data vs h) λ ws. (_, refl)
    accepts (datetime naive) h = absurd h
    accepts other h = absurd h

    accepts_data : (vs : Data) → AllStorable vs → Returns (to_data repr utc_text vs)
    accepts_data nil h = (_, refl)
    accepts_data (cons v vs) h =
        Returns-bind _ _ (accepts v h.0) λ w. Returns-bind _ _ (accepts_data vs h.1) λ ws. (_, refl)

    accepts_attributes :
        (fs : Attributes) → AreStorable fs → Returns (to_attributes repr utc_text fs)
    accepts_attributes end h = (_, refl)
    accepts_attributes (attribute k v fs) h =
        Returns-bind _ _ (accepts v h.0)
          λ w. Returns-bind _ _ (accepts_attributes fs h.1) λ gs. (_, refl)

  mutual
    unfolding to_dynamodb IsStorable

    storable : (v : Datum) → Returns (to_dynamodb repr utc_text v) → IsStorable v
    storable null h = tt
    storable (bool b) h = tt
    storable (str t) h = tt
    storable (int n) h = tt
    storable (decimal d) h = tt
    storable (float x) h = (finite-Returns (isfinite x) _).1 h
    storable (datetime (moment t)) h = tt
    storable (iso t) h = tt
    storable (enum v) h = storable v h
    storable (model fs) h = attributes_storable fs (first_step _ _ h)
    storable (mapping fs) h = attributes_storable fs (first_step _ _ h)
    storable (list vs) h = data_storable vs (first_step _ _ h)
    storable (tuple vs) h = data_storable vs (first_step _ _ h)
    storable (datetime naive) h = cc h.1
    storable other h = cc h.1

    data_storable : (vs : Data) → Returns (to_data repr utc_text vs) → AllStorable vs
    data_storable nil h = tt
    data_storable (cons v vs) h =
        let (w, first, h₁) = >>=-eq-ok (to_dynamodb repr utc_text v) _ h.1 in
        (storable v (w, first), data_storable vs (first_step _ _ (_, h₁)))

    attributes_storable :
        (fs : Attributes) → Returns (to_attributes repr utc_text fs) → AreStorable fs
    attributes_storable end h = tt
    attributes_storable (attribute k v fs) h =
        let (w, first, h₁) = >>=-eq-ok (to_dynamodb repr utc_text v) _ h.1 in
        (storable v (w, first), attributes_storable fs (first_step _ _ (_, h₁)))

  -- `to_dynamodb` returns exactly for the values whose parts, at every depth, are finite numbers,
  -- datetimes with a time zone, and values of the supported types; it raises for all others.
  pub to_dynamodb_iff : (v : Datum) → IsStorable v ↔ Returns (to_dynamodb repr utc_text v)
  to_dynamodb_iff v = (accepts v, storable v)
