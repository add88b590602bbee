-- ===== src/Aggregates/Gapfill/OwnTests.antt =====
-- src/aggregates/prom_delta.rs, prom_rate.rs and prom_increase.rs: the tests of the three functions,
-- run on the model with the arithmetic of IEEE 754. Times are in microseconds from the first of
-- January 2000. The test of a NULL time is about the wrapper that pgx generates and is left out.
use promscale_extension.Prelude.{
  ℕ, ◌*◌, ◌≡◌, refl, Option, none, some, List, [], ◌∷◌, map, if◌then◌else◌, Result, ok, err, ◌>>=◌,
  less_than_lowest_time,
}
use promscale_extension.Prelude.Int.{
  ℤ, pos, leb_ℤ, add, sub, mul, div, rem, to_bits, of_bits, wrap, ◌+ℤ◌, ◌-ℤ◌, ◌*ℤ◌,
}
use promscale_extension.Memory.{
  FunctionCallInfo, in_aggregate_context, in_memory_context, aggregate_mctx,
}
use promscale_extension.Aggregates.{F64}
use promscale_extension.Aggregates.Float.Ieee.{ieee, value, round, log2_from}
use promscale_extension.Aggregates.Gapfill.{
  Sample, new, check_capacity, add_data_point, push_sample, back, in_current_window, pop_before,
  flush_until, flush_rest, flush_current_window, add_delta_for_current_window, window_delta,
  extrapolate, correction_loop, as_vec,
}
use promscale_extension.Aggregates.Gapfill.State.{Config}
use promscale_extension.Aggregates.Gapfill.Entry.{
  or_new, prom_delta_transition_inner, prom_rate_transition_inner, prom_increase_transition_inner,
  prom_extrapolate_final_inner,
}
use promscale_extension.Aggregates.Gapfill.Runs.{
  PromFunction, prom_delta, prom_rate, prom_increase, counter_of, rate_of, aggregate_rows,
}

abbrev inside : FunctionCallInfo
inside = record { agg_check_call_context = some 1 }

-- What is asked, the rows, and what the query is expected to return or to fail with.
record TestCase : Type 0 where
  function : PromFunction
  lowest_time : ℤ
  greatest_time : ℤ
  step_size : ℕ
  range : ℕ
  rows : List Sample
  expected : Result (Option (List (Option F64)))

abbrev config_of : TestCase → Config
config_of t = record {
  lowest_time = t.lowest_time;
  greatest_time = t.greatest_time;
  range = t.range;
  step_size = t.step_size;
  is_counter = counter_of t.function;
  is_rate = rate_of t.function;
}

-- No test has more than eight windows.
abbrev Passes : TestCase → Type 0
Passes t =
    ((aggregate_rows ieee 8 t.function (config_of t) inside none t.rows 0).0
      >>= prom_extrapolate_final_inner ieee 8)
    ≡ t.expected

abbrev minutes : ℕ → ℕ
minutes n = n * 60 * 1000

abbrev gfd_test_table : List Sample
gfd_test_table =
    (pos 140_400_000_000, 0)
    ∷ (pos 140_700_000_000, 0x4049000000000000)
    ∷ (pos 141_000_000_000, 0x4059000000000000)
    ∷ (pos 141_300_000_000, 0x4062c00000000000)
    ∷ (pos 141_600_000_000, 0x4069000000000000)
    ∷ (pos 141_900_000_000, 0x4069000000000000)
    ∷ (pos 142_200_000_000, 0x4062c00000000000)
    ∷ (pos 142_500_000_000, 0x4059000000000000)
    ∷ (pos 142_800_000_000, 0x4049000000000000)
    ∷ (pos 143_100_000_000, 0)
    ∷ []

-- `prepare_query`.
abbrev prepare_query : ℤ → List Sample → Result (Option (List (Option F64))) → TestCase
prepare_query start rows expected = record {
  function = prom_delta;
  lowest_time = start;
  greatest_time = pos 143_100_000_000;
  step_size = minutes 20;
  range = minutes 20;
  rows = rows;
  expected = expected;
}

-- Every row at one time.
abbrev all_at : ℤ → List Sample → List Sample
all_at time rows = map (λ row. (time, row.1)) rows

abbrev only_to : ℤ → List Sample → List Sample
only_to to [] = []
only_to to ((t, v) ∷ rows) =
    let rest = only_to to rows in if leb_ℤ t to then (t, v) ∷ rest else rest

abbrev gfi_test_table : List Sample
gfi_test_table =
    (pos 140_400_000_000, 0)
    ∷ (pos 140_700_000_000, 0x4028000000000000)
    ∷ (pos 141_000_000_000, 0x4038000000000000)
    ∷ (pos 141_300_000_000, 0x4042000000000000)
    ∷ (pos 141_600_000_000, 0x4048000000000000)
    ∷ (pos 141_900_000_000, 0x404e000000000000)
    ∷ (pos 142_200_000_000, 0)
    ∷ (pos 142_500_000_000, 0x4028000000000000)
    ∷ (pos 142_800_000_000, 0x4038000000000000)
    ∷ (pos 143_100_000_000, 0x4042000000000000)
    ∷ (pos 143_400_000_000, 0x4048000000000000)
    ∷ []

abbrev test_prom_delta_with_input_time_less_than_lowest_time_fails : TestCase
test_prom_delta_with_input_time_less_than_lowest_time_fails =
    prepare_query (pos 140_400_000_000) (all_at (pos 631_292_400_000_000) gfd_test_table)
      (err less_than_lowest_time)

abbrev test_prom_delta_success : TestCase
test_prom_delta_success =
    prepare_query (pos 140_400_000_000) gfd_test_table
      (ok (some (some 0x4069000000000000 ∷ some 0xc062c00000000000 ∷ [])))

abbrev test_prom_delta_success_two : TestCase
test_prom_delta_success_two =
    prepare_query (pos 137_700_000_000) gfd_test_table
      (ok (some (none ∷ none ∷ some 0x4069000000000000 ∷ some 0xc049000000000000 ∷ [])))

abbrev test_prom_rate_no_reset_in_range : TestCase
test_prom_rate_no_reset_in_range = record {
  function = prom_rate;
  lowest_time = pos 140_400_000_000;
  greatest_time = pos 141_900_000_000;
  step_size = minutes 25;
  range = minutes 25;
  rows = only_to (pos 141_900_000_000) gfi_test_table;
  expected = ok (some (some 0x3fa47ae147ae147b ∷ []));
}

abbrev test_prom_rate_reset_in_range : TestCase
test_prom_rate_reset_in_range = record {
  function = prom_rate;
  lowest_time = pos 140_400_000_000;
  greatest_time = pos 143_400_000_000;
  step_size = minutes 50;
  range = minutes 50;
  rows = gfi_test_table;
  expected = ok (some (some 0x3fa26e978d4fdf3b ∷ []));
}

abbrev test_prom_rate_extrapolate : TestCase
test_prom_rate_extrapolate = record {
  function = prom_rate;
  lowest_time = pos 140_100_000_000;
  greatest_time = pos 143_700_000_000;
  step_size = minutes 60;
  range = minutes 60;
  rows = gfi_test_table;
  expected = ok (some (some 0x3fa0e5604189374c ∷ []));
}

abbrev test_prom_increase_basic_50m : TestCase
test_prom_increase_basic_50m = record {
  function = prom_increase;
  lowest_time = pos 140_400_000_000;
  greatest_time = pos 143_400_000_000;
  step_size = minutes 50;
  range = minutes 50;
  rows =
      (pos 140_400_000_000, 0)
      ∷ (pos 140_700_000_000, 0x4024000000000000)
      ∷ (pos 141_000_000_000, 0x4034000000000000)
      ∷ (pos 141_300_000_000, 0x403e000000000000)
      ∷ (pos 141_600_000_000, 0x4044000000000000)
      ∷ (pos 141_900_000_000, 0x4049000000000000)
      ∷ (pos 142_200_000_000, 0x404e000000000000)
      ∷ (pos 142_500_000_000, 0x4051800000000000)
      ∷ (pos 142_800_000_000, 0x4054000000000000)
      ∷ (pos 143_100_000_000, 0x4056800000000000)
      ∷ (pos 143_400_000_000, 0x4059000000000000)
      ∷ [];
  expected = ok (some (some 0x4059000000000000 ∷ []));
}

abbrev test_prom_increase_basic_reset_zero : TestCase
test_prom_increase_basic_reset_zero = record {
  function = prom_increase;
  lowest_time = pos 140_400_000_000;
  greatest_time = pos 143_400_000_000;
  step_size = minutes 50;
  range = minutes 50;
  rows =
      (pos 140_400_000_000, 0)
      ∷ (pos 140_700_000_000, 0x4024000000000000)
      ∷ (pos 141_000_000_000, 0x4034000000000000)
      ∷ (pos 141_300_000_000, 0x403e000000000000)
      ∷ (pos 141_600_000_000, 0x4044000000000000)
      ∷ (pos 141_900_000_000, 0x4049000000000000)
      ∷ (pos 142_200_000_000, 0)
      ∷ (pos 142_500_000_000, 0x4024000000000000)
      ∷ (pos 142_800_000_000, 0x4034000000000000)
      ∷ (pos 143_100_000_000, 0x403e000000000000)
      ∷ (pos 143_400_000_000, 0x4044000000000000)
      ∷ [];
  expected = ok (some (some 0x4056800000000000 ∷ []));
}

abbrev test_prom_increase_counter_reset_nonzero : TestCase
test_prom_increase_counter_reset_nonzero = record {
  function = prom_increase;
  lowest_time = pos 140_400_000_000;
  greatest_time = pos 142_200_000_000;
  step_size = minutes 30;
  range = minutes 30;
  rows =
      (pos 140_400_000_000, 0)
      ∷ (pos 140_700_000_000, 0x3ff0000000000000)
      ∷ (pos 141_000_000_000, 0x4000000000000000)
      ∷ (pos 141_300_000_000, 0x4008000000000000)
      ∷ (pos 141_600_000_000, 0x4000000000000000)
      ∷ (pos 141_900_000_000, 0x4008000000000000)
      ∷ (pos 142_200_000_000, 0x4010000000000000)
      ∷ [];
  expected = ok (some (some 0x401c000000000000 ∷ []));
}

-- Each test passes.
all_pass :
    Passes test_prom_delta_with_input_time_less_than_lowest_time_fails
    × Passes test_prom_delta_success
    × Passes test_prom_delta_success_two
    × Passes test_prom_rate_no_reset_in_range
    × Passes test_prom_rate_reset_in_range
    × Passes test_prom_rate_extrapolate
    × Passes test_prom_increase_basic_50m
    × Passes test_prom_increase_basic_reset_zero
    × Passes test_prom_increase_counter_reset_nonzero
unfolding new check_capacity add_data_point push_sample back in_current_window pop_before
    flush_until flush_rest flush_current_window add_delta_for_current_window window_delta
    extrapolate correction_loop as_vec or_new prom_delta_transition_inner prom_rate_transition_inner
    prom_increase_transition_inner prom_extrapolate_final_inner in_aggregate_context aggregate_mctx
    in_memory_context aggregate_rows value round log2_from add sub mul div rem to_bits of_bits wrap
    ◌+ℤ◌ ◌-ℤ◌ ◌*ℤ◌
all_pass = (refl, refl, refl, refl, refl, refl, refl, refl, refl)
