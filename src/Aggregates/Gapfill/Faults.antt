-- ===== src/Aggregates/Gapfill/Faults.antt =====
-- The transitions of src/aggregates/prom_delta.rs, prom_rate.rs and prom_increase.rs on input that
-- they refuse.
use promscale_extension.Prelude.{
  ℕ, suc, ◌≡◌, refl, false, List, arith, err, ◌==◌, Option, some, none, le→not-ltb, le→leb, lt→ltb,
  inputs_not_ascending, divide_by_zero, Fault,
}
use promscale_extension.Prelude.Int.{ℤ, pos, ◌≤ℤ◌, ◌<ℤ◌, div, mul}
use promscale_extension.Memory.{FunctionCallInfo, in_aggregate_context}
use promscale_extension.Aggregates.{F64, stale_nan}
use promscale_extension.Aggregates.Float.{FloatOps}
use promscale_extension.Aggregates.Gapfill.{
  Sample, GapfillDeltaTransition, back, new, push_sample, add_data_point, flush_until,
  in_current_window,
}
use promscale_extension.Aggregates.Gapfill.Windows.{keep, from}
use promscale_extension.Aggregates.Gapfill.State.{Config, window_min, window_max, gapfill}
use promscale_extension.Aggregates.Gapfill.Entry.{
  or_new, add_row, prom_delta_transition_inner, prom_rate_transition_inner,
  prom_increase_transition_inner,
}
use promscale_extension.Aggregates.Gapfill.Runs.{
  PromFunction, prom_delta, prom_rate, prom_increase, transition, InBounds, counter_of, rate_of,
}

module _ (f : FloatOps) (fuel : ℕ) (fcinfo : FunctionCallInfo) (mctx : ℕ)
    (in_aggregate : fcinfo.agg_check_call_context ≡ some mctx) where
  -- A fault of the state is the fault of the transition.
  pub transition-fault :
      (p : PromFunction) (c : Config) (state : Option GapfillDeltaTransition) (t : ℤ) (val : F64)
      (current : ℕ) (e : Fault)
      → InBounds c t
      → add_row f fuel
          (or_new state c.lowest_time c.greatest_time
            (pos c.range)
            (pos c.step_size)
            (counter_of p)
            (rate_of p))
          t
          val
        ≡ err e
      → (transition f fuel p state c.lowest_time c.greatest_time
          (pos c.step_size)
          (pos c.range)
          t
          val
          fcinfo
          current).0
        ≡ err e
  unfolding prom_delta_transition_inner prom_rate_transition_inner prom_increase_transition_inner
      in_aggregate_context
  transition-fault prom_delta c state t val current e b h =
      rw (in_aggregate, le→not-ltb _ _ b.0, le→not-ltb _ _ b.1, h)
  transition-fault prom_rate c state t val current e b h =
      rw (in_aggregate, le→not-ltb _ _ b.0, le→not-ltb _ _ b.1, h)
  transition-fault prom_increase c state t val current e b h =
      rw (in_aggregate, le→not-ltb _ _ b.0, le→not-ltb _ _ b.1, h)

  -- With a step of zero the first row inside the bounds is a division by zero, for each of the three
  -- functions and whatever the other arguments.
  pub transition-zero_step :
      (p : PromFunction) (c : Config) (t : ℤ) (val : F64) (current : ℕ)
      → InBounds c t
      → c.step_size ≡ 0
      → (transition f fuel p none c.lowest_time c.greatest_time
          (pos c.step_size)
          (pos c.range)
          t
          val
          fcinfo
          current).0
        ≡ err divide_by_zero
  unfolding or_new new div mul
  transition-zero_step p c t val current b z =
      transition-fault p c none t val current divide_by_zero b (rw z refl)

  -- A row that is earlier than the last sample of the current window.
  pub descending-fault :
      (k : ℕ) (c : Config) (zs : List Sample) (prev : Sample) (t : ℤ) (val : F64)
      → (val == stale_nan) ≡ false
      → back (keep (from (window_min c k)) zs) ≡ some prev
      → prev.0 ≤ℤ window_max c k
      → t <ℤ prev.0
      → add_data_point f (suc fuel) (gapfill f c k zs) t val ≡ err inputs_not_ascending
  unfolding add_data_point flush_until in_current_window push_sample
  descending-fault k c zs prev t val s last reached late =
      let here : t ≤ℤ window_max c k = omega arith in rw (s, le→leb _ _ here, last, lt→ltb _ _ late)
