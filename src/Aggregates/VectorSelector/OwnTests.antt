-- ===== src/Aggregates/VectorSelector/OwnTests.antt =====
-- src/aggregates/vector_selector.rs: the tests of the aggregate, run on the model. Times are in
-- microseconds from the first of January 2000, values are bit patterns, and a `WHERE` of a query is a
-- test on its rows.
use promscale_extension.Prelude.{
  ℕ, ◌*◌, ◌≡◌, refl, ◌&&◌, Option, none, some, List, [], ◌∷◌, if◌then◌else◌, Result, ok, err,
}
use promscale_extension.Prelude.Int.{
  ℤ, pos, leb_ℤ, add, sub, mul, div, rem, to_bits, of_bits, wrap, ◌+ℤ◌, ◌-ℤ◌, ◌*ℤ◌,
}
use promscale_extension.Memory.{
  FunctionCallInfo, in_aggregate_context, in_memory_context, aggregate_mctx,
}
use promscale_extension.Aggregates.{F64}
use promscale_extension.Aggregates.VectorSelector.{
  Sample, new, insert, insert_at, get_bucket, bucket_of_offset, buckets, empty_elements, combine,
  merge, incompatible, results, results_loop, visible, to_pg_array, VectorSelector,
}
use promscale_extension.Aggregates.VectorSelector.Entry.{
  or_new, vector_selector_transition_inner, vector_selector_final, vector_selector_combine_inner,
}
use promscale_extension.Aggregates.VectorSelector.Query.{Query}
use promscale_extension.Aggregates.VectorSelector.Runs.{aggregate_rows}
use promscale_extension.Aggregates.VectorSelector.Plans.{Plan, worker, gather, run_plan}

abbrev inside : FunctionCallInfo
inside = record { agg_check_call_context = some 1 }

-- A query over the rows that each worker gets, and the array that it is expected to return.
record TestCase : Type 0 where
  query : Query
  plan : Plan
  expected : List (Option F64)

abbrev final_of : Result (Option VectorSelector) → Result (Option (List (Option F64)))
final_of (ok state) = ok (vector_selector_final state)
final_of (err e) = err e

abbrev Passes : TestCase → Type 0
Passes t = final_of (run_plan t.query inside t.plan 0).0 ≡ ok (some t.expected)

abbrev minutes : ℕ → ℕ
minutes n = n * 60 * 1000

abbrev only_between : ℤ → ℤ → List Sample → List Sample
only_between from to [] = []
only_between from to ((t, v) ∷ rows) =
    let rest = only_between from to rows in
    if leb_ℤ from t && leb_ℤ t to then (t, v) ∷ rest else rest

abbrev only_from : ℤ → List Sample → List Sample
only_from from [] = []
only_from from ((t, v) ∷ rows) =
    let rest = only_from from rows in if leb_ℤ from t then (t, v) ∷ rest else rest

abbrev gfv_test_table : List Sample
gfv_test_table =
    (pos 140_400_000_000, 0)
    ∷ (pos 140_700_000_000, 0x4024000000000000)
    ∷ (pos 141_000_000_000, 0x4034000000000000)
    ∷ (pos 141_300_000_000, 0x403e000000000000)
    ∷ (pos 141_600_000_000, 0x4044000000000000)
    ∷ (pos 141_900_000_000, 0x4049000000000000)
    ∷ (pos 142_200_000_000, 0x404e000000000000)
    ∷ (pos 142_500_000_000, 0x4051800000000000)
    ∷ (pos 142_800_000_000, 0x4054000000000000)
    ∷ (pos 143_100_000_000, 0x4056800000000000)
    ∷ (pos 143_400_000_000, 0x4059000000000000)
    ∷ []

abbrev asked : ℤ → ℤ → ℕ → ℕ → Query
asked start_time end_time bucket_width lookback = record {
  start_time = start_time;
  end_time = end_time;
  bucket_width = bucket_width;
  lookback = lookback;
}

abbrev test_vs_bucket_and_lookback_size_exact_match : TestCase
test_vs_bucket_and_lookback_size_exact_match = record {
  query = asked (pos 140_400_000_000) (pos 143_400_000_000) (minutes 50) (minutes 50);
  plan = worker gfv_test_table;
  expected = some 0 ∷ some 0x4059000000000000 ∷ [];
}

abbrev test_vs_lookback_smaller_bucket_and_no_results_in_lookback : TestCase
test_vs_lookback_smaller_bucket_and_no_results_in_lookback = record {
  query = asked (pos 140_400_000_000) (pos 141_000_000_000) (minutes 5) (minutes 2);
  plan = worker (
      (pos 140_280_000_000, 0)
      ∷ (pos 140_340_000_000, 0x4024000000000000)
      ∷ (pos 140_460_000_000, 0x4034000000000000)
      ∷ (pos 140_940_000_000, 0x403e000000000000)
      ∷ []);
  expected = some 0x4024000000000000 ∷ none ∷ some 0x403e000000000000 ∷ [];
}

abbrev test_vs_lookback_larger_than_bucket_width : TestCase
test_vs_lookback_larger_than_bucket_width = record {
  query = asked (pos 140_430_000_000) (pos 140_880_000_000) 150_000 180_000;
  plan =
      worker (
        only_between (pos 140_430_000_000 -ℤ pos 180_000_000) (pos 140_880_000_000) gfv_test_table);
  expected = some 0 ∷ some 0 ∷ some 0x4024000000000000 ∷ some 0x4024000000000000 ∷ [];
}

abbrev test_vs_start_end_not_aligned_with_timeseries_data : TestCase
test_vs_start_end_not_aligned_with_timeseries_data = record {
  query = asked (pos 140_100_000_000) (pos 143_400_000_000) (minutes 50) (minutes 50);
  plan = worker gfv_test_table;
  expected = none ∷ some 0x4056800000000000 ∷ [];
}

abbrev test_vs_smaller_bucket_and_lookback_size : TestCase
test_vs_smaller_bucket_and_lookback_size = record {
  query = asked (pos 140_400_000_000) (pos 143_400_000_000) (minutes 10) (minutes 10);
  plan = worker gfv_test_table;
  expected =
      some 0
      ∷ some 0x4034000000000000
      ∷ some 0x4044000000000000
      ∷ some 0x404e000000000000
      ∷ some 0x4054000000000000
      ∷ some 0x4059000000000000
      ∷ [];
}

-- One of the orders that `ORDER BY RANDOM()` can give.
abbrev gfv_rand_test_table : List Sample
gfv_rand_test_table =
    (pos 142_500_000_000, 0x4051800000000000)
    ∷ (pos 141_000_000_000, 0x4034000000000000)
    ∷ (pos 143_400_000_000, 0x4059000000000000)
    ∷ (pos 140_400_000_000, 0)
    ∷ (pos 141_900_000_000, 0x4049000000000000)
    ∷ (pos 143_100_000_000, 0x4056800000000000)
    ∷ (pos 140_700_000_000, 0x4024000000000000)
    ∷ (pos 142_800_000_000, 0x4054000000000000)
    ∷ (pos 141_300_000_000, 0x403e000000000000)
    ∷ (pos 142_200_000_000, 0x404e000000000000)
    ∷ (pos 141_600_000_000, 0x4044000000000000)
    ∷ []

abbrev test_vs_smaller_bucket_and_lookback_rand_input : TestCase
test_vs_smaller_bucket_and_lookback_rand_input = record {
  query = asked (pos 140_400_000_000) (pos 143_400_000_000) (minutes 10) (minutes 10);
  plan = worker gfv_rand_test_table;
  expected =
      some 0
      ∷ some 0x4034000000000000
      ∷ some 0x4044000000000000
      ∷ some 0x404e000000000000
      ∷ some 0x4054000000000000
      ∷ some 0x4059000000000000
      ∷ [];
}

abbrev test_vs_instant_vector : TestCase
test_vs_instant_vector = record {
  query = asked (pos 144_000_000_000) (pos 144_000_000_000) 0 (minutes 10);
  plan = worker (only_from (pos 144_000_000_000 -ℤ pos 600_000_000) gfv_test_table);
  expected = some 0x4059000000000000 ∷ [];
}

abbrev test_vs_instant_vector_bucket_nonzero : TestCase
test_vs_instant_vector_bucket_nonzero = record {
  query = asked (pos 144_000_000_000) (pos 144_000_000_000) (minutes 10) (minutes 10);
  plan = worker (only_from (pos 144_000_000_000 -ℤ pos 600_000_000) gfv_test_table);
  expected = some 0x4059000000000000 ∷ [];
}

abbrev test_vs_instant_vector_start_neq_end : TestCase
test_vs_instant_vector_start_neq_end = record {
  query = asked (pos 144_000_000_000) (pos 144_060_000_000) 0 (minutes 10);
  plan = worker (only_from (pos 144_000_000_000 -ℤ pos 600_000_000) gfv_test_table);
  expected = some 0x4059000000000000 ∷ [];
}

-- Three workers, whose leader takes no rows itself.
abbrev dealt_out : Plan
dealt_out =
    gather
      (gather
        (worker (
          (pos 141_600_000_000, 0x4044000000000000)
          ∷ (pos 141_900_000_000, 0x4049000000000000)
          ∷ (pos 142_200_000_000, 0x404e000000000000)
          ∷ (pos 142_500_000_000, 0x4051800000000000)
          ∷ []))
        (worker (
          (pos 140_400_000_000, 0)
          ∷ (pos 140_700_000_000, 0x4024000000000000)
          ∷ (pos 141_000_000_000, 0x4034000000000000)
          ∷ (pos 141_300_000_000, 0x403e000000000000)
          ∷ [])))
      (worker (
        (pos 142_800_000_000, 0x4054000000000000)
        ∷ (pos 143_100_000_000, 0x4056800000000000)
        ∷ (pos 143_400_000_000, 0x4059000000000000)
        ∷ []))

abbrev test_vs_parallel_execution_smaller_bucket_lookback : TestCase
test_vs_parallel_execution_smaller_bucket_lookback = record {
  query = asked (pos 140_400_000_000) (pos 143_400_000_000) (minutes 10) (minutes 10);
  plan = dealt_out;
  expected =
      some 0
      ∷ some 0x4034000000000000
      ∷ some 0x4044000000000000
      ∷ some 0x404e000000000000
      ∷ some 0x4054000000000000
      ∷ some 0x4059000000000000
      ∷ [];
}

-- Each test passes.
all_pass :
    Passes test_vs_bucket_and_lookback_size_exact_match
    × Passes test_vs_lookback_smaller_bucket_and_no_results_in_lookback
    × Passes test_vs_lookback_larger_than_bucket_width
    × Passes test_vs_start_end_not_aligned_with_timeseries_data
    × Passes test_vs_smaller_bucket_and_lookback_size
    × Passes test_vs_smaller_bucket_and_lookback_rand_input
    × Passes test_vs_instant_vector
    × Passes test_vs_instant_vector_bucket_nonzero
    × Passes test_vs_instant_vector_start_neq_end
    × Passes test_vs_parallel_execution_smaller_bucket_lookback
unfolding new insert insert_at get_bucket bucket_of_offset buckets empty_elements combine merge
    incompatible results results_loop visible to_pg_array or_new vector_selector_transition_inner
    vector_selector_final vector_selector_combine_inner in_aggregate_context aggregate_rows run_plan
    aggregate_mctx in_memory_context add sub mul div rem to_bits of_bits wrap ◌+ℤ◌ ◌-ℤ◌ ◌*ℤ◌
all_pass = (refl, refl, refl, refl, refl, refl, refl, refl, refl, refl)

-- The example of the module's documentation, over the rows that it gives.
abbrev documented : TestCase
documented = record {
  query = asked (pos 140_400_000_000) (pos 141_000_000_000) (minutes 10) (minutes 10);
  plan = worker ((pos 140_400_000_000, 0) ∷ (pos 140_700_000_000, 0x4024000000000000) ∷ []);
  expected = some 0 ∷ some 0x4024000000000000 ∷ [];
}

-- The second instant has 10, and not the 20 that the documentation shows.
documented_value : Passes documented
unfolding new insert insert_at get_bucket bucket_of_offset buckets empty_elements combine merge
    incompatible results results_loop visible to_pg_array or_new vector_selector_transition_inner
    vector_selector_final vector_selector_combine_inner in_aggregate_context aggregate_rows run_plan
    aggregate_mctx in_memory_context add sub mul div rem to_bits of_bits wrap ◌+ℤ◌ ◌-ℤ◌ ◌*ℤ◌
documented_value = refl
