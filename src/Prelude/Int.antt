-- ===== src/Prelude/Int.antt =====
-- Integers over the native numbers, and the `i64` of Rust: an integer whose arithmetic wraps at
-- 64 bits as it does in a release build, with the panics of `/` and `%`.
pub mod Exact
use Prim.Native.Nat.{ℕ, suc, ◌+◌, ◌-◌, ◌*◌, ◌/◌, ◌%◌, ◌^◌, ◌≤◌, ◌<◌}
use mathlib.Core.Path.{◌≡◌}
use mathlib.Core.Bool.{Bool, ◌&&◌}
use native.Mathlib.Omega.{arith}
use promscale_extension.Prelude.Tests.{ltb, leb, ◌==◌, if◌then◌else◌}
use promscale_extension.Prelude.Outcome.{Result, ok, err, ◌>>=◌, divide_by_zero, divide_overflow}

-- `negsuc n` is -(n + 1).
pub data ℤ : Type 0 where
  pos : ℕ → ℤ
  negsuc : ℕ → ℤ

abbrev pub pos_part : ℤ → ℕ
pos_part (pos n) = n
pos_part (negsuc n) = 0

abbrev pub neg_part : ℤ → ℕ
neg_part (pos n) = 0
neg_part (negsuc n) = suc n

-- a - b, as an integer.
abbrev pub sub_ℕ : ℕ → ℕ → ℤ
sub_ℕ a b = if leb b a then pos (a - b) else negsuc (b - a - 1)

infixl 65 ◌+ℤ◌ ◌-ℤ◌
infixl 70 ◌*ℤ◌
infix 50 ◌≤ℤ◌ ◌<ℤ◌
unfoldable pub ◌+ℤ◌ : ℤ → ℤ → ℤ
a +ℤ b = sub_ℕ (pos_part a + pos_part b) (neg_part a + neg_part b)

unfoldable pub ◌-ℤ◌ : ℤ → ℤ → ℤ
a -ℤ b = sub_ℕ (pos_part a + neg_part b) (neg_part a + pos_part b)

unfoldable pub ◌*ℤ◌ : ℤ → ℤ → ℤ
a *ℤ b =
    sub_ℕ (pos_part a * pos_part b + neg_part a * neg_part b)
      (pos_part a * neg_part b + neg_part a * pos_part b)

abbrev pub ◌≤ℤ◌ : ℤ → ℤ → Type 0
a ≤ℤ b = pos_part a + neg_part b ≤ pos_part b + neg_part a

abbrev pub ◌<ℤ◌ : ℤ → ℤ → Type 0
a <ℤ b = pos_part a + neg_part b < pos_part b + neg_part a

abbrev pub ltb_ℤ : ℤ → ℤ → Bool
ltb_ℤ a b = ltb (pos_part a + neg_part b) (pos_part b + neg_part a)

abbrev pub leb_ℤ : ℤ → ℤ → Bool
leb_ℤ a b = leb (pos_part a + neg_part b) (pos_part b + neg_part a)

abbrev pub eqb_ℤ : ℤ → ℤ → Bool
eqb_ℤ a b = pos_part a + neg_part b == pos_part b + neg_part a

pub eq_of_parts : (a b : ℤ) → pos_part a + neg_part b ≡ pos_part b + neg_part a → a ≡ b
eq_of_parts a b h = ground arith

-- Two's complement: the bit pattern of an integer at 64 bits, and the integer of a pattern.
unfoldable pub to_bits : ℤ → ℕ
to_bits (pos n) = n % 2 ^ 64
to_bits (negsuc n) = 2 ^ 64 - 1 - n % 2 ^ 64

unfoldable pub of_bits : ℕ → ℤ
of_bits w = if ltb w (2 ^ 63) then pos w else negsuc (2 ^ 64 - 1 - w)

unfoldable pub wrap : ℤ → ℤ
unfolding to_bits of_bits
wrap a = of_bits (to_bits a)

unfoldable pub add : ℤ → ℤ → ℤ
unfolding wrap ◌+ℤ◌
add a b = wrap (a +ℤ b)

unfoldable pub sub : ℤ → ℤ → ℤ
unfolding wrap ◌-ℤ◌
sub a b = wrap (a -ℤ b)

unfoldable pub mul : ℤ → ℤ → ℤ
unfolding wrap ◌*ℤ◌
mul a b = wrap (a *ℤ b)

abbrev pub magnitude : ℤ → ℕ
magnitude (pos n) = n
magnitude (negsuc n) = suc n

-- Division rounds towards zero, and the remainder has the sign of the dividend.
abbrev pub quotient : ℤ → ℤ → ℤ
quotient (pos a) (pos b) = pos (a / b)
quotient (pos a) (negsuc b) = sub_ℕ 0 (a / suc b)
quotient (negsuc a) (pos b) = sub_ℕ 0 (suc a / b)
quotient (negsuc a) (negsuc b) = pos (suc a / suc b)

abbrev pub remainder : ℤ → ℤ → ℤ
remainder (pos a) b = pos (a % magnitude b)
remainder (negsuc a) b = sub_ℕ 0 (suc a % magnitude b)

abbrev pub check_divisor : ℤ → ℤ → Result (Unit {0})
check_divisor a b =
    if eqb_ℤ b (pos 0)
    then err divide_by_zero
    else if eqb_ℤ a (negsuc (2 ^ 63 - 1)) && eqb_ℤ b (negsuc 0)
    then err divide_overflow
    else ok tt

unfoldable pub div : ℤ → ℤ → Result ℤ
div a b = do _ ← check_divisor a b; ok (quotient a b)

unfoldable pub rem : ℤ → ℤ → Result ℤ
rem a b = do _ ← check_divisor a b; ok (remainder a b)

-- An integer lies within a bound on both sides.
abbrev pub Within : ℕ → ℤ → Type 0
Within n a = (pos_part a ≤ neg_part a + n) × (neg_part a ≤ pos_part a + n)
