-- ===== src/Aggregates/Gapfill/Entry.antt =====
-- The functions that PostgreSQL calls for `prom_delta`, `prom_rate` and `prom_increase`:
-- src/aggregates/prom_delta.rs, prom_rate.rs, prom_increase.rs, and the final function of
-- gapfill_delta.rs. Each works on `fuel` rounds of the loops of gapfill_delta.rs.
use promscale_extension.Prelude.{
  ℕ, Bool, true, false, ◌||◌, Option, none, some, List, Result, ok, err, ◌>>=◌, if◌then◌else◌,
  not_in_bounds, less_than_lowest_time,
}
use promscale_extension.Prelude.Int.{ℤ, ltb_ℤ}
use promscale_extension.Memory.{Exec, lift, FunctionCallInfo, in_aggregate_context}
use promscale_extension.Aggregates.{Milliseconds, F64}
use promscale_extension.Aggregates.Float.{FloatOps}
use promscale_extension.Aggregates.Gapfill.{GapfillDeltaTransition, new, add_data_point, as_vec}

-- `state.unwrap_or_else(…)`.
unfoldable pub or_new :
    Option GapfillDeltaTransition
    → ℤ
    → ℤ
    → Milliseconds
    → Milliseconds
    → Bool
    → Bool
    → Result GapfillDeltaTransition
or_new none lowest_time greatest_time range step_size is_counter is_rate =
    new lowest_time greatest_time range step_size is_counter is_rate
or_new (some state) lowest_time greatest_time range step_size is_counter is_rate = ok state

module _ (f : FloatOps) (fuel : ℕ) where
  -- The part that the three transitions share.
  abbrev pub add_row :
      Result GapfillDeltaTransition → ℤ → F64 → Result (Option GapfillDeltaTransition)
  add_row state sample_time sample_value = do
    state' ← state
    state'' ← add_data_point f fuel state' sample_time sample_value
    ok (some state'')

  unfoldable pub prom_delta_transition_inner :
      Option GapfillDeltaTransition
      → ℤ
      → ℤ
      → Milliseconds
      → Milliseconds
      → ℤ
      → F64
      → FunctionCallInfo
      → Exec (Option GapfillDeltaTransition)
  prom_delta_transition_inner state lowest_time greatest_time step_size range sample_time
        sample_value fc =
      in_aggregate_context fc (
        lift (
          if ltb_ℤ sample_time lowest_time || ltb_ℤ greatest_time sample_time
          then err less_than_lowest_time
          else add_row (or_new state lowest_time greatest_time range step_size false false)
              sample_time sample_value))

  unfoldable pub prom_rate_transition_inner :
      Option GapfillDeltaTransition
      → ℤ
      → ℤ
      → Milliseconds
      → Milliseconds
      → ℤ
      → F64
      → FunctionCallInfo
      → Exec (Option GapfillDeltaTransition)
  prom_rate_transition_inner state lowest_time greatest_time step_size range sample_time
        sample_value fc =
      in_aggregate_context fc (
        lift (
          if ltb_ℤ sample_time lowest_time || ltb_ℤ greatest_time sample_time
          then err not_in_bounds
          else add_row (or_new state lowest_time greatest_time range step_size true true)
              sample_time sample_value))

  unfoldable pub prom_increase_transition_inner :
      Option GapfillDeltaTransition
      → ℤ
      → ℤ
      → Milliseconds
      → Milliseconds
      → ℤ
      → F64
      → FunctionCallInfo
      → Exec (Option GapfillDeltaTransition)
  prom_increase_transition_inner state lowest_time greatest_time step_size range sample_time
        sample_value fc =
      in_aggregate_context fc (
        lift (
          if ltb_ℤ sample_time lowest_time || ltb_ℤ greatest_time sample_time
          then err less_than_lowest_time
          else add_row (or_new state lowest_time greatest_time range step_size true false)
              sample_time sample_value))

  unfoldable pub prom_extrapolate_final_inner :
      Option GapfillDeltaTransition → Result (Option (List (Option F64)))
  prom_extrapolate_final_inner none = ok none
  prom_extrapolate_final_inner (some s) = do deltas ← as_vec f fuel s; ok (some deltas)
