-- ===== src/Aggregates/Gapfill.antt =====
-- src/aggregates/gapfill_delta.rs: the state behind `prom_delta`, `prom_rate` and `prom_increase`.
-- A sliding window of the samples is flushed into one extrapolated value for each step.
pub mod Windows
pub mod State
pub mod Flush
pub mod Add
pub mod New
pub mod Entry
pub mod Runs
pub mod Results
pub mod Faults
pub mod Last
pub mod Accepts
pub mod Rates
mod OwnTests
mod Tests
use promscale_extension.Prelude.{
  ℕ, zero, suc, ◌+◌, ◌-◌, ◌*◌, ◌^◌, Bool, true, false, not, ◌&&◌, Option, none, some, List, [], ◌∷◌,
  ◌++◌, ltb, ◌==◌, if◌then◌else◌, length, Result, ok, err, ◌>>=◌, capacity_overflow,
  inputs_not_ascending, out_of_fuel,
}
use promscale_extension.Prelude.Int.{
  ℤ, pos, ltb_ℤ, leb_ℤ, eqb_ℤ, to_bits, quotient, add, sub, mul, div, rem,
}
use promscale_extension.Aggregates.{
  Milliseconds, Microseconds, F64, stale_nan, usecs_per_ms, usecs_per_sec,
}
use promscale_extension.Aggregates.Float.{FloatOps, f64_zero, f64_one_point_one, f64_two}

-- A sample, `(i64, f64)`.
abbrev pub Sample : Type 0
Sample = ℤ × F64

-- The window goes from its front, the earliest sample, to its back.
pub record GapfillDeltaTransition : Type 0 where
  pub window : List Sample
  pub deltas : List (Option F64)
  pub current_window_max : ℤ
  pub current_window_min : ℤ
  pub step_size : Microseconds
  pub range : Microseconds
  pub greatest_time : ℤ
  pub is_counter : Bool
  pub is_rate : Bool

-- `Vec::with_capacity(n)` for elements of 16 bytes.
unfoldable pub check_capacity : ℕ → Result (Unit {0})
check_capacity n = if ltb (2 ^ 63 - 1) (n * 16) then err capacity_overflow else ok tt

unfoldable pub new :
    ℤ → ℤ → Milliseconds → Milliseconds → Bool → Bool → Result GapfillDeltaTransition
new lowest_time greatest_time range step_size is_counter is_rate = do
  whole ← div (sub greatest_time lowest_time) (mul step_size usecs_per_ms)
  rest ← rem (sub greatest_time lowest_time) (mul step_size usecs_per_ms)
  let expected_deltas = if not (eqb_ℤ rest (pos 0)) then add whole (pos 1) else whole
  _ ← check_capacity (to_bits expected_deltas)
  ok (record {
    window = [];
    deltas = [];
    current_window_max = add lowest_time (mul range usecs_per_ms);
    current_window_min = lowest_time;
    step_size = mul step_size usecs_per_ms;
    range = mul range usecs_per_ms;
    greatest_time = greatest_time;
    is_counter = is_counter;
    is_rate = is_rate;
  })

-- The last element, `back()`.
abbrev pub last_or : Sample → List Sample → Sample
last_or x [] = x
last_or x (y ∷ ys) = last_or y ys

unfoldable pub back : List Sample → Option Sample
back [] = none
back (x ∷ xs) = some (last_or x xs)

unfoldable pub in_current_window : GapfillDeltaTransition → ℤ → Bool
in_current_window s time = leb_ℤ time s.current_window_max

-- `while front.time < min { pop_front() }`.
unfoldable pub pop_before : ℤ → List Sample → List Sample
pop_before min [] = []
pop_before min ((t, v) ∷ rest) =
    let popped = pop_before min rest in if ltb_ℤ t min then popped else (t, v) ∷ rest

-- `window.back()` is later than the time.
abbrev pub later_back : Option Sample → ℤ → Bool
later_back none time = false
later_back (some (prev, _)) time = ltb_ℤ time prev

module _ (f : FloatOps) where
  open f use {plus, minus, times, over, less, at_least, of_i64, of_usize}

  -- What the resets of a counter have taken away, summed in the order of the window.
  unfoldable pub correction_loop : F64 → F64 → List Sample → F64
  correction_loop counter_correction last_value [] = counter_correction
  correction_loop counter_correction last_value ((_, sample) ∷ rest) =
      correction_loop
        (if less sample last_value then plus counter_correction last_value else counter_correction)
        sample rest

  -- The value of a window with a first sample, a last one and `len` samples in all.
  unfoldable pub extrapolate : GapfillDeltaTransition → Sample → Sample → ℕ → F64
  extrapolate s (earliest_time, earliest_val) (latest_time, latest_val) len =
      let counter_correction =
        if s.is_counter then correction_loop f64_zero f64_zero s.window else f64_zero in
      let result_val = plus (minus latest_val earliest_val) counter_correction in
      let seconds = of_i64 usecs_per_sec in
      let to_start = over (of_i64 (sub earliest_time s.current_window_min)) seconds in
      let duration_to_end = over (of_i64 (sub s.current_window_max latest_time)) seconds in
      let sampled_interval = over (of_i64 (sub latest_time earliest_time)) seconds in
      let avg_duration_between_samples = over sampled_interval (of_usize (len - 1)) in
      let duration_to_zero = times sampled_interval (over earliest_val result_val) in
      let duration_to_start =
        if s.is_counter
          && less f64_zero result_val
          && at_least earliest_val f64_zero
          && less duration_to_zero to_start
        then duration_to_zero
        else to_start in
      let extrapolation_threshold = times avg_duration_between_samples f64_one_point_one in
      let half = over avg_duration_between_samples f64_two in
      let with_start =
        plus sampled_interval
          (if less duration_to_start extrapolation_threshold then duration_to_start else half) in
      let extrapolate_to_interval =
        plus with_start
          (if less duration_to_end extrapolation_threshold then duration_to_end else half) in
      let extrapolated = times result_val (over extrapolate_to_interval sampled_interval) in
      if s.is_rate
      then over extrapolated (of_i64 (quotient s.range usecs_per_sec))
      else extrapolated

  -- What `add_delta_for_current_window` pushes: nothing for a window of at most one sample.
  unfoldable pub window_delta : GapfillDeltaTransition → List Sample → Option F64
  window_delta s [] = none
  window_delta s (x ∷ []) = none
  window_delta s (x ∷ y ∷ rest) = some (extrapolate s x (last_or y rest) (length (x ∷ y ∷ rest)))

  unfoldable pub add_delta_for_current_window : GapfillDeltaTransition → GapfillDeltaTransition
  add_delta_for_current_window s = record s { deltas = s.deltas ++ window_delta s s.window ∷ [] }

  unfoldable pub flush_current_window : GapfillDeltaTransition → GapfillDeltaTransition
  flush_current_window s =
      let s' = add_delta_for_current_window s in
      let current_window_min = add s'.current_window_min s'.step_size in
      record s' {
        current_window_min = current_window_min;
        current_window_max = add s'.current_window_max s'.step_size;
        window = pop_before current_window_min s'.window;
      }

  -- `while !in_current_window(time) { flush_current_window() }`.
  unfoldable pub flush_until : ℕ → ℤ → GapfillDeltaTransition → Result GapfillDeltaTransition
  flush_until zero time s = err out_of_fuel
  flush_until (suc fuel) time s =
      let rest = flush_until fuel time (flush_current_window s) in
      if not (in_current_window s time) then rest else ok s

  unfoldable pub push_sample : GapfillDeltaTransition → ℤ → F64 → Result GapfillDeltaTransition
  push_sample s time val =
      if later_back (back s.window) time
      then err inputs_not_ascending
      else if leb_ℤ s.current_window_min time
      then ok (record s { window = s.window ++ (time, val) ∷ [] })
      else ok s

  unfoldable pub add_data_point :
      ℕ → GapfillDeltaTransition → ℤ → F64 → Result GapfillDeltaTransition
  add_data_point fuel s time val =
      let flushed = flush_until fuel time s in
      if val == stale_nan then ok s else do s' ← flushed; push_sample s' time val

  -- The loop of `as_vec`.
  unfoldable pub flush_rest : ℕ → GapfillDeltaTransition → Result GapfillDeltaTransition
  flush_rest zero s = err out_of_fuel
  flush_rest (suc fuel) s =
      let rest = flush_rest fuel (flush_current_window s) in
      if leb_ℤ s.current_window_max s.greatest_time then rest else ok s

  unfoldable pub as_vec : ℕ → GapfillDeltaTransition → Result (List (Option F64))
  as_vec fuel s = do s' ← flush_rest fuel s; ok s'.deltas
