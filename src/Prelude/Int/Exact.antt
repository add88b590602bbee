-- ===== src/Prelude/Int/Exact.antt =====
-- Where the true result fits in 64 bits, the wrapping operations give it.
use Prim.Native.Nat.{ℕ, ◌+◌, ◌*◌, ◌/◌, ◌%◌, ◌^◌, ◌≤◌, ◌<◌}
use mathlib.Core.Path.{◌≡◌, sym}
use native.Mathlib.Nat.{div-add-mod', mod-lt}
use native.Mathlib.Omega.{arith}
use promscale_extension.Prelude.Outcome.{ok}
use promscale_extension.Prelude.Int.{
  ℤ, pos, negsuc, pos_part, neg_part, sub_ℕ, ◌+ℤ◌, ◌-ℤ◌, ◌*ℤ◌, ◌≤ℤ◌, ◌<ℤ◌, to_bits, of_bits, wrap,
  add, sub, mul, eq_of_parts, div, rem,
}

pub wrap_of_fits : (a : ℤ) → pos_part a < 2 ^ 63 → neg_part a ≤ 2 ^ 63 → wrap a ≡ a
unfolding wrap
wrap_of_fits (pos n) h k = ground arith
wrap_of_fits (negsuc n) h k = ground arith

pub sub_ℕ_parts : (a b : ℕ) → pos_part (sub_ℕ a b) + b ≡ neg_part (sub_ℕ a b) + a
sub_ℕ_parts a b = ground arith

-- The true sum and difference lie in the range of `i64`.
abbrev pub SumFits : ℤ → ℤ → Type 0
SumFits a b =
    (pos_part a + pos_part b < 2 ^ 63 + neg_part a + neg_part b)
    × (neg_part a + neg_part b ≤ 2 ^ 63 + pos_part a + pos_part b)

abbrev pub DifferenceFits : ℤ → ℤ → Type 0
DifferenceFits a b =
    (pos_part a + neg_part b < 2 ^ 63 + neg_part a + pos_part b)
    × (neg_part a + pos_part b ≤ 2 ^ 63 + pos_part a + neg_part b)

pub add_parts :
    (a b : ℤ)
    → SumFits a b
    → pos_part (add a b) + neg_part a + neg_part b ≡ neg_part (add a b) + pos_part a + pos_part b
unfolding add
add_parts a b h =
    ground (arith, wrap_of_fits (sub_ℕ (pos_part a + pos_part b) (neg_part a + neg_part b)))

pub sub_parts :
    (a b : ℤ)
    → DifferenceFits a b
    → pos_part (sub a b) + neg_part a + pos_part b ≡ neg_part (sub a b) + pos_part a + neg_part b
unfolding sub
sub_parts a b h =
    ground (arith, wrap_of_fits (sub_ℕ (pos_part a + neg_part b) (neg_part a + pos_part b)))

pub mul-pos : (a b : ℕ) → a * b < 2 ^ 63 → mul (pos a) (pos b) ≡ pos (a * b)
unfolding mul ◌*ℤ◌
mul-pos a b h = ground (arith, wrap_of_fits (pos (a * b)))

pub div-pos : (a b : ℕ) → 0 < b → div (pos a) (pos b) ≡ ok (pos (a / b))
unfolding div
div-pos a b h = ground arith

pub rem-pos : (a b : ℕ) → 0 < b → rem (pos a) (pos b) ≡ ok (pos (a % b))
unfolding rem
rem-pos a b h = ground arith

pub +ℤ_parts :
    (a b : ℤ)
    → pos_part (a +ℤ b) + neg_part a + neg_part b ≡ neg_part (a +ℤ b) + pos_part a + pos_part b
unfolding ◌+ℤ◌
+ℤ_parts a b = ground arith

pub -ℤ_parts :
    (a b : ℤ)
    → pos_part (a -ℤ b) + neg_part a + pos_part b ≡ neg_part (a -ℤ b) + pos_part a + neg_part b
unfolding ◌-ℤ◌
-ℤ_parts a b = ground arith

-- For `omega`: the true operations, and the wrapping ones where they are exact.
pub ruleset exact = (arith, add_parts, sub_parts, +ℤ_parts, -ℤ_parts, eq_of_parts)

-- Division with remainder, in one fact.
pub divided : (d w : ℕ) → 0 < w → (d ≡ d / w * w + d % w) × (d % w < w) × (d / w ≤ d)
divided d w h =
    let whole : d ≡ d / w * w + d % w = sym (div-add-mod' d w) in
    let small : d / w ≤ d / w * w = grind arith in (whole, mod-lt d h, omega arith)

pub lt_of_mul-lt : (i m w : ℕ) → i * w < m * w → i < m
lt_of_mul-lt i m w h = grind arith

pub nonneg_difference : (a b : ℤ) → b ≤ℤ a → a -ℤ b ≡ pos (pos_part (a -ℤ b))
unfolding ◌-ℤ◌
nonneg_difference a b h = ground arith
