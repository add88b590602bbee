-- ===== src/Aggregates.antt =====
-- src/aggregates/mod.rs: the constants and types that the aggregates share.
pub mod VectorSelector
pub mod Float
pub mod Gapfill
use promscale_extension.Prelude.{ℕ}
use promscale_extension.Prelude.Int.{ℤ, pos}

-- `Milliseconds` and `Microseconds` are both `i64`.
abbrev pub Milliseconds : Type 0
Milliseconds = ℤ

abbrev pub Microseconds : Type 0
Microseconds = ℤ

-- An `f64` is its bit pattern, below 2 ^ 64.
abbrev pub F64 : Type 0
F64 = ℕ

abbrev pub stale_nan : F64
stale_nan = 0x7ff0000000000002

abbrev pub usecs_per_sec : ℤ
usecs_per_sec = pos 1_000_000

abbrev pub usecs_per_ms : ℤ
usecs_per_ms = pos 1_000
