-- ===== src/Aggregates/Float.antt =====
-- The floating-point operations that src/aggregates/gapfill_delta.rs uses. They are the processor's,
-- so a development over them takes them as a parameter, on bit patterns.
pub mod Ieee
use promscale_extension.Prelude.{ℕ, Bool}
use promscale_extension.Prelude.Int.{ℤ}
use promscale_extension.Aggregates.{F64}

pub record FloatOps : Type 0 where
  pub plus : F64 → F64 → F64
  pub minus : F64 → F64 → F64
  pub times : F64 → F64 → F64
  pub over : F64 → F64 → F64
  -- `a < b`, false where one of them is no number.
  pub less : F64 → F64 → Bool
  -- `a >= b`, false where one of them is no number.
  pub at_least : F64 → F64 → Bool
  pub of_i64 : ℤ → F64
  pub of_usize : ℕ → F64

-- The literals 0.0, 1.1 and 2.0.
abbrev pub f64_zero : F64
f64_zero = 0

abbrev pub f64_one_point_one : F64
f64_one_point_one = 0x3ff199999999999a

abbrev pub f64_two : F64
f64_two = 0x4000000000000000
