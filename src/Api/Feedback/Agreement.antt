-- ===== src/Api/Feedback/Agreement.antt =====
-- When a feedback is marked correct (services/api/app/main.py, `submit_feedback`): `==` of the reported
-- and the predicted value.
use us_flight_delay_mlops.Prelude.{◌≡◌, refl, Bool, true, false, ◌↔◌, Ordering, String, zero, suc}
use us_flight_delay_mlops.Prelude.Int.{ℤ, pos, negsuc, compare_ℤ}
use us_flight_delay_mlops.Prelude.Compare.{IsPreorder-compare_ℤ, IsPreorder-refl, compare_ℤ-eq}
use us_flight_delay_mlops.Python.Float.{Float, finite, inf, neg_inf, nan, feq, unit}
use us_flight_delay_mlops.Persistence.Codec.{Datum, bool, int, float}
use us_flight_delay_mlops.Api.Service.{Repository, Cache}
use us_flight_delay_mlops.Api.Feedback.{agrees}

-- the datum is the Boolean, or the number that Python takes for it
pub data IsSame : Bool → Datum → Type 0 where
  same_bool : (b : Bool) → IsSame b (bool b)
  one : IsSame true (int (pos 1))
  none : IsSame false (int (pos 0))
  one_float : IsSame true (float (finite (pos unit)))
  no_float : IsSame false (float (finite (pos 0)))

is_eq_true :
    (o : Ordering)
    → (elim o as (λ x. Bool) [ Ordering.eq ↦ true | _ ↦ false ]) ≡ true
    → o ≡ Ordering.eq
is_eq_true Ordering.lt h = cc
is_eq_true Ordering.eq h = refl
is_eq_true Ordering.gt h = cc

feq-eq : (x : Float) (c : ℤ) → feq x (finite c) ≡ true → x ≡ finite c
unfolding feq
feq-eq (finite a) c h = rw (compare_ℤ-eq a c (is_eq_true (compare_ℤ a c) h)) refl
feq-eq inf c h = cc
feq-eq neg_inf c h = cc
feq-eq nan c h = cc

feq_refl : (c : ℤ) → feq (finite c) (finite c) ≡ true
unfolding feq
feq_refl c = rw (feq, IsPreorder-refl IsPreorder-compare_ℤ c) refl

module _ (Request : Type 0) (dump : Request → Datum) (cache_key : Request → String)
    (repository : Repository) (cache : Cache) where
  same_of :
      (b : Bool) (d : Datum)
      → agrees Request dump cache_key repository cache b d ≡ true
      → IsSame b d
  same_of true (bool true) h = same_bool true
  same_of true (bool false) h = cc
  same_of false (bool true) h = cc
  same_of false (bool false) h = same_bool false
  same_of true (int (pos zero)) h = cc
  same_of true (int (pos (suc zero))) h = one
  same_of true (int (pos (suc (suc n)))) h = cc
  same_of true (int (negsuc n)) h = cc
  same_of false (int (pos zero)) h = none
  same_of false (int (pos (suc n))) h = cc
  same_of false (int (negsuc n)) h = cc
  same_of true (float x) h = rw (feq-eq x (pos unit) h) one_float
  same_of false (float x) h = rw (feq-eq x (pos 0) h) no_float
  same_of true _ h = cc
  same_of false _ h = cc

  of_same :
      (b : Bool) (d : Datum)
      → IsSame b d
      → agrees Request dump cache_key repository cache b d ≡ true
  of_same true d (same_bool true) = refl
  of_same false d (same_bool false) = refl
  of_same true d one = refl
  of_same false d none = refl
  of_same true d one_float = feq_refl (pos unit)
  of_same false d no_float = feq_refl (pos 0)

  pub agrees_iff :
      (b : Bool) (d : Datum)
      → (agrees Request dump cache_key repository cache b d ≡ true) ↔ IsSame b d
  agrees_iff b d = (same_of b d, of_same b d)
