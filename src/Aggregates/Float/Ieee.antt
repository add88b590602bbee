-- ===== src/Aggregates/Float/Ieee.antt =====
-- IEEE 754 binary64 with rounding to the nearest, ties to even: the operations of a processor, on bit
-- patterns, to run src/aggregates/gapfill_delta.rs with. A magnitude is a multiple of 2 ^ -1074.
use promscale_extension.Prelude.{
  ℕ, zero, suc, ◌+◌, ◌-◌, ◌*◌, ◌/◌, ◌%◌, ◌^◌, Bool, true, false, ◌≡◌, refl, not, ◌&&◌, ◌||◌, List,
  [], ◌∷◌, ltb, leb, ◌==◌, if◌then◌else◌,
}
use promscale_extension.Prelude.Int.{ℤ, pos, negsuc}
use promscale_extension.Aggregates.{F64}
use promscale_extension.Aggregates.Float.{FloatOps}

pub data Value : Type 0 where
  nan : Value
  infinite : Bool → Value
  finite : Bool → ℕ → Value

abbrev pub exponent : F64 → ℕ
exponent a = a / 2 ^ 52 % 2 ^ 11

abbrev pub fraction : F64 → ℕ
fraction a = a % 2 ^ 52

abbrev pub is_negative : F64 → Bool
is_negative a = leb (2 ^ 63) a

-- The magnitude of an exponent and a fraction.
abbrev pub magnitude : ℕ → ℕ → ℕ
magnitude zero m = m
magnitude (suc e) m = (2 ^ 52 + m) * 2 ^ e

unfoldable pub value : F64 → Value
value a =
    if exponent a == 2047
    then (if fraction a == 0 then infinite (is_negative a) else nan)
    else finite (is_negative a) (magnitude (exponent a) (fraction a))

abbrev pub sign_bit : Bool → ℕ
sign_bit true = 2 ^ 63
sign_bit false = 0

abbrev pub infinity : ℕ
infinity = 0x7ff0000000000000

-- n / d to the nearest integer, and to the even one of two.
abbrev pub nearest : ℕ → ℕ → ℕ → ℕ
nearest q r d = if ltb d (2 * r) || (2 * r == d && q % 2 == 1) then suc q else q

abbrev pub divide : ℕ → ℕ → ℕ
divide n d = nearest (n / d) (n % d) d

-- The whole part of the binary logarithm of a number below 2 ^ 4096.
unfoldable pub log2_from : List ℕ → ℕ → ℕ
log2_from [] q = 0
log2_from (k ∷ ks) q = if leb (2 ^ k) q then k + log2_from ks (q / 2 ^ k) else log2_from ks q

abbrev pub log2 : ℕ → ℕ
log2 = log2_from (2048 ∷ 1024 ∷ 512 ∷ 256 ∷ 128 ∷ 64 ∷ 32 ∷ 16 ∷ 8 ∷ 4 ∷ 2 ∷ 1 ∷ [])

abbrev pub at_most_infinity : ℕ → ℕ
at_most_infinity bits = if ltb bits infinity then bits else infinity

-- The magnitude n / d, rounded, of which `q` is the whole part.
abbrev pub round_whole : ℕ → ℕ → ℕ → ℕ
round_whole n d q =
    if ltb q (2 ^ 53)
    then divide n d
    else at_most_infinity ((log2 q - 52) * 2 ^ 52 + divide n (d * 2 ^ (log2 q - 52)))

unfoldable pub round : Bool → ℕ → ℕ → F64
round negative n d = sign_bit negative + round_whole n d (n / d)

abbrev pub quiet_nan : F64
quiet_nan = 0x7ff8000000000000

abbrev pub xor : Bool → Bool → Bool
xor true b = not b
xor false b = b

-- A sum of exact opposites is +0; -0 only comes of -0 and -0.
abbrev pub add_finite : Bool → ℕ → Bool → ℕ → F64
add_finite true a true b = round true (a + b) 1
add_finite true a false b = if ltb b a then round true (a - b) 1 else round false (b - a) 1
add_finite false a true b = if ltb a b then round true (b - a) 1 else round false (a - b) 1
add_finite false a false b = round false (a + b) 1

abbrev pub infinity_of : Bool → F64
infinity_of negative = sign_bit negative + infinity

abbrev pub add_values : Value → Value → F64
add_values nan b = quiet_nan
add_values (infinite s) nan = quiet_nan
add_values (infinite s) (infinite t) = if xor s t then quiet_nan else infinity_of s
add_values (infinite s) (finite t b) = infinity_of s
add_values (finite s a) nan = quiet_nan
add_values (finite s a) (infinite t) = infinity_of t
add_values (finite s a) (finite t b) = add_finite s a t b

abbrev pub opposite : Value → Value
opposite nan = nan
opposite (infinite s) = infinite (not s)
opposite (finite s a) = finite (not s) a

abbrev pub multiply_values : Value → Value → F64
multiply_values nan b = quiet_nan
multiply_values (infinite s) nan = quiet_nan
multiply_values (infinite s) (infinite t) = infinity_of (xor s t)
multiply_values (infinite s) (finite t b) = if b == 0 then quiet_nan else infinity_of (xor s t)
multiply_values (finite s a) nan = quiet_nan
multiply_values (finite s a) (infinite t) = if a == 0 then quiet_nan else infinity_of (xor s t)
multiply_values (finite s a) (finite t b) = round (xor s t) (a * b) (2 ^ 1074)

abbrev pub divide_finite : Bool → ℕ → ℕ → F64
divide_finite negative zero zero = quiet_nan
divide_finite negative (suc a) zero = infinity_of negative
divide_finite negative a (suc b) = round negative (a * 2 ^ 1074) (suc b)

abbrev pub divide_values : Value → Value → F64
divide_values nan b = quiet_nan
divide_values (infinite s) nan = quiet_nan
divide_values (infinite s) (infinite t) = quiet_nan
divide_values (infinite s) (finite t b) = infinity_of (xor s t)
divide_values (finite s a) nan = quiet_nan
divide_values (finite s a) (infinite t) = sign_bit (xor s t)
divide_values (finite s a) (finite t b) = divide_finite (xor s t) a b

abbrev pub less_finite : Bool → ℕ → Bool → ℕ → Bool
less_finite true a true b = ltb b a
less_finite true a false b = ltb 0 (a + b)
less_finite false a true b = false
less_finite false a false b = ltb a b

abbrev pub less_values : Value → Value → Bool
less_values nan b = false
less_values (infinite s) nan = false
less_values (infinite s) (infinite t) = s && not t
less_values (infinite s) (finite t b) = s
less_values (finite s a) nan = false
less_values (finite s a) (infinite t) = not t
less_values (finite s a) (finite t b) = less_finite s a t b

abbrev pub is_nan : Value → Bool
is_nan nan = true
is_nan (infinite s) = false
is_nan (finite s a) = false

-- `a >= b`: neither is NaN, and a is not less.
abbrev pub at_least_values : Value → Value → Bool
at_least_values a b = not (is_nan a || is_nan b) && not (less_values a b)

abbrev pub of_ℤ : ℤ → F64
of_ℤ (pos n) = round false (n * 2 ^ 1074) 1
of_ℤ (negsuc n) = round true (suc n * 2 ^ 1074) 1

abbrev pub ieee : FloatOps
ieee = record {
  plus = λ a b. add_values (value a) (value b);
  minus = λ a b. add_values (value a) (opposite (value b));
  times = λ a b. multiply_values (value a) (value b);
  over = λ a b. divide_values (value a) (value b);
  less = λ a b. less_values (value a) (value b);
  at_least = λ a b. at_least_values (value a) (value b);
  of_i64 = of_ℤ;
  of_usize = λ n. round false (n * 2 ^ 1074) 1;
}

-- 1 / 10, 3 - 5, 0.1 + 0.2 and 1 < -1.
tenth :
    (ieee.over 0x3ff0000000000000 0x4024000000000000 ≡ 0x3fb999999999999a)
    × (ieee.minus 0x4008000000000000 0x4014000000000000 ≡ 0xc000000000000000)
    × (ieee.plus 0x3fb999999999999a 0x3fc999999999999a ≡ 0x3fd3333333333334)
    × (ieee.less 0x3ff0000000000000 0xbff0000000000000 ≡ false)
unfolding value round log2_from
tenth = (refl, refl, refl, refl)
