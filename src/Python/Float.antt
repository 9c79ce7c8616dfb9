-- ===== src/Python/Float.antt =====
-- Python's `float`: a finite double is an integer multiple of 2^-1074, so it is kept as that
-- integer and every comparison is exact. The two zeros are one value, as `==` has it.
use us_flight_delay_mlops.Prelude.{
  ℕ, zero, suc, ◌+◌, ◌*◌, ◌/◌, ◌%◌, ◌^◌, ◌<◌, ◌≡◌, refl, Bool, true, false, Option, none, some,
  arith, ltb, ◌==◌, Ordering, if◌then◌else◌,
}
use us_flight_delay_mlops.Prelude.Int.{ℤ, pos, negsuc, negate, ltb_ℤ, compare_ℤ}

pub data Float : Type 0 where
  finite : ℤ → Float
  inf neg_inf nan : Float

-- `math.isfinite(x)`
abbrev pub isfinite : Float → Bool
isfinite (finite n) = true
isfinite inf = false
isfinite neg_inf = false
isfinite nan = false

-- `x < y`
unfoldable pub flt : Float → Float → Bool
flt (finite a) (finite b) = ltb_ℤ a b
flt (finite a) inf = true
flt neg_inf (finite b) = true
flt neg_inf inf = true
flt _ _ = false

-- `x == y`
unfoldable pub feq : Float → Float → Bool
feq (finite a) (finite b) = elim (compare_ℤ a b) [ Ordering.eq ↦ true | _ ↦ false ]
feq inf inf = true
feq neg_inf neg_inf = true
feq _ _ = false

-- how many halvings bring `n` below 2^53
excess : ℕ → ℕ → ℕ
excess zero n = 0
excess (suc f) n = let more = suc (excess f (n / 2)) in if ltb n (2 ^ 53) then 0 else more

-- `n` to 53 bits, half to even
round_bits : ℕ → ℕ → ℕ
round_bits n k =
    let q = n / 2 ^ k in
    let r = n % 2 ^ k in
    if ltb (2 * r) (2 ^ k)
    then q
    else if ltb (2 ^ k) (2 * r)
    then q + 1
    else if q % 2 == 0
    then q
    else q + 1

round53 : ℕ → ℕ
unfolding excess round_bits
round53 n = let k = excess 1024 n in round_bits n k * 2 ^ k

unfoldable pub unit : ℕ
unit = 2 ^ 1074

-- `float(n)` of an int; `none` is the OverflowError
unfoldable pub float_of_int : ℤ → Option Float
unfolding round53 unit
float_of_int (pos n) =
    if ltb (round53 n) (2 ^ 1024) then some (finite (pos (round53 n * unit))) else none
float_of_int (negsuc n) =
    if ltb (round53 (n + 1)) (2 ^ 1024)
    then some (finite (negate (pos (round53 (n + 1) * unit))))
    else none

excess_small : (f n : ℕ) → n < 2 ^ 53 → excess f n ≡ 0
unfolding excess
excess_small zero n h = refl
excess_small (suc f) n h = ground arith

round53_small : (n : ℕ) → n < 2 ^ 53 → round53 n ≡ n
unfolding round53
round53_small n h = rw (excess_small 1024 n h) (ground arith)

-- Below 2^53 the conversion is exact.
pub float_of_int_exact :
    (n : ℕ) → n < 2 ^ 53 → float_of_int (pos n) ≡ some (finite (pos (n * unit)))
unfolding float_of_int
float_of_int_exact n h = rw (round53_small n h) (ground arith)
