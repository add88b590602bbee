-- ===== src/TestCommon/Retry.antt =====
-- test-common/src/postgres_container/mod.rs: `retry`, with which `connect` waits for the database. The
-- operation and the sleep are parameters that change the world.
pub mod Attempts
use promscale_extension.Prelude.{
  ℕ, zero, suc, ◌+◌, ◌-◌, ◌%◌, ◌^◌, true, false, if◌then◌else◌, ◌==◌, ltb, Result, ok, err,
  assertion_failed, out_of_fuel,
}

-- The outcome of the operation: the value, or its error.
pub data Attempt (T E : Type 0) : Type 0 where
  succeeded : T → Attempt T E
  failed : E → Attempt T E

-- `u32` and `u64` as they wrap in a release build; a debug build panics there.
abbrev pub wrapping_sub_u32 : ℕ → ℕ → ℕ
wrapping_sub_u32 a b = (a + 2 ^ 32 - b) % 2 ^ 32

abbrev pub wrapping_add_u32 : ℕ → ℕ → ℕ
wrapping_add_u32 a b = (a + b) % 2 ^ 32

-- `Duration::from_secs(u64::pow(2, cur_count - 1))`, in seconds.
unfoldable pub sleep_duration : ℕ → ℕ
sleep_duration cur_count = 2 ^ wrapping_sub_u32 cur_count 1 % 2 ^ 64

module _ (T E World : Type 0) (operation : World → Attempt T E × World)
    (sleep : ℕ → World → World) where
  -- After one attempt; `next_attempt` is the recursive call.
  abbrev pub react :
      (cur_count max_count : ℕ)
      → (next_attempt : World → Result (Attempt T E) × World) → Attempt T E × World
      → Result (Attempt T E) × World
  react cur_count max_count next_attempt (succeeded result, w) = (ok (succeeded result), w)
  react cur_count max_count next_attempt (failed error, w) =
      if cur_count == max_count
      then (ok (failed error), w)
      else next_attempt (sleep (sleep_duration cur_count) w)

  unfoldable pub retry_inner : (fuel cur_count max_count : ℕ) → World → Result (Attempt T E) × World
  retry_inner zero cur_count max_count w = (err out_of_fuel, w)
  retry_inner (suc fuel) cur_count max_count w =
      react cur_count max_count (retry_inner fuel (wrapping_add_u32 cur_count 1) max_count)
        (operation w)

  -- As many rounds as attempts.
  unfoldable pub retry : (count : ℕ) → World → Result (Attempt T E) × World
  retry count w = if ltb 0 count then retry_inner count 1 count w else (err assertion_failed, w)
