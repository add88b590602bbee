-- ===== src/Aggregates/Gapfill/Tests.antt =====
-- Runs of `prom_delta`, `prom_rate` and `prom_increase` on concrete rows, with a processor whose
-- floating-point numbers are natural numbers.
use promscale_extension.Prelude.{
  ◌+◌, ◌-◌, ◌*◌, ◌/◌, ◌≡◌, ◌↔◌, All, refl, false, true, List, map, Option, none, some, [], ◌∷◌,
  arith, ok, err, ltb, leb, divide_by_zero,
}
use promscale_extension.Prelude.Int.{pos, pos_part, ◌+ℤ◌, ◌-ℤ◌}
use promscale_extension.Memory.{FunctionCallInfo}
use promscale_extension.Aggregates.{F64}
use promscale_extension.Aggregates.Float.{FloatOps}
use promscale_extension.Aggregates.Gapfill.{GapfillDeltaTransition, Sample, flush_current_window}
use promscale_extension.Aggregates.Gapfill.Flush.{flush_current_window-gapfill}
use promscale_extension.Aggregates.Gapfill.Windows.{Ascending}
use promscale_extension.Aggregates.Gapfill.State.{Config, IsValid, deltas, gapfill, window_count}
use promscale_extension.Aggregates.Gapfill.Entry.{prom_extrapolate_final_inner}
use promscale_extension.Aggregates.Gapfill.Runs.{
  fresh, prom_delta, prom_rate, prom_increase, transition, aggregate_rows, InBounds,
}
use promscale_extension.Aggregates.Gapfill.Rates.{asked, per_second, prom_rate-prom_increase}
use promscale_extension.Aggregates.Gapfill.Results.{prom_extrapolate_final-aggregate_rows}
use promscale_extension.Aggregates.Gapfill.Faults.{transition-zero_step}
use promscale_extension.Aggregates.Gapfill.Accepts.{aggregate_rows-ok_iff}

abbrev whole_numbers : FloatOps
whole_numbers = record {
  plus = λ a b. a + b;
  minus = λ a b. a - b;
  times = λ a b. a * b;
  over = λ a b. a / b;
  less = ltb;
  at_least = λ a b. leb b a;
  of_i64 = pos_part;
  of_usize = λ n. n;
}

-- Windows of 20 ms, 10 ms apart, over 40 ms.
abbrev config : Config
config = record {
  lowest_time = pos 1_000_000;
  greatest_time = pos 1_040_000;
  range = 20;
  step_size = 10;
  is_counter = false;
  is_rate = false;
}

config-IsValid : IsValid config
config-IsValid = omega arith

abbrev fcinfo : FunctionCallInfo
fcinfo = record { agg_check_call_context = some 7 }

abbrev first : Sample
first = (pos 1_000_000, 10)

abbrev second : Sample
second = (pos 1_015_000, 25)

abbrev third : Sample
third = (pos 1_032_000, 45)

three_windows : window_count config ≡ 3
unfolding ◌-ℤ◌
three_windows = refl

prom_extrapolate_final-aggregate_rows_example :
    (state : Option GapfillDeltaTransition) × (aggregate_rows whole_numbers 4 prom_delta config
        fcinfo none
        (first ∷ second ∷ third ∷ [])
        3
      ≡ (ok state, 3))
    × (prom_extrapolate_final_inner whole_numbers 4 state
        ≡ ok (
            some (
              deltas whole_numbers config
                (window_count config)
                (fresh (first ∷ second ∷ third ∷ [])))))
unfolding ◌-ℤ◌
prom_extrapolate_final-aggregate_rows_example =
    prom_extrapolate_final-aggregate_rows whole_numbers config config-IsValid 3 (omega arith)
      prom_delta fcinfo 7 3 first (second ∷ third ∷ []) refl (refl, refl) (omega arith)
      (omega arith)

-- Windows of 2 s, 1 s apart, over 4 s.
abbrev seconds : Config
seconds = record {
  lowest_time = pos 1_000_000;
  greatest_time = pos 5_000_000;
  range = 2_000;
  step_size = 1_000;
  is_counter = true;
  is_rate = false;
}

abbrev second_rows : List Sample
second_rows = (pos 2_500_000, 30) ∷ (pos 3_000_000, 10) ∷ []

seconds-IsValid : IsValid seconds
seconds-IsValid = omega arith

prom_rate-prom_increase_example :
    (rate increase : Option GapfillDeltaTransition) × (values : List (Option F64)) × (aggregate_rows
        whole_numbers 4 prom_rate
        (asked prom_rate seconds)
        fcinfo
        none
        ((pos 1_000_000, 10) ∷ second_rows)
        3
      ≡ (ok rate, 3))
    × (aggregate_rows whole_numbers 4 prom_increase
          (asked prom_increase seconds)
          fcinfo
          none
          ((pos 1_000_000, 10) ∷ second_rows)
          3
        ≡ (ok increase, 3))
    × (prom_extrapolate_final_inner whole_numbers 4 increase ≡ ok (some values))
    × (prom_extrapolate_final_inner whole_numbers 4 rate
        ≡ ok (some (map (per_second whole_numbers seconds) values)))
unfolding ◌-ℤ◌
prom_rate-prom_increase_example =
    prom_rate-prom_increase whole_numbers seconds seconds-IsValid 3 (omega arith) fcinfo 7 3
      (pos 1_000_000, 10) second_rows refl (omega arith) (omega arith)

-- The third row is earlier than the second.
abbrev descending_rows : List Sample
descending_rows = first ∷ second ∷ (pos 1_014_000, 5) ∷ []

aggregate_rows-ok_iff_example :
    ((state : Option GapfillDeltaTransition) × ((aggregate_rows whole_numbers 4 prom_delta config
          fcinfo none descending_rows 3).0
        ≡ ok state))
    ↔ (All (λ y. InBounds config y.0) descending_rows × Ascending (fresh descending_rows))
unfolding ◌-ℤ◌
aggregate_rows-ok_iff_example =
    aggregate_rows-ok_iff whole_numbers config config-IsValid 3 (omega arith) (omega arith)
      prom_delta (refl, refl) fcinfo 7 refl descending_rows 3

abbrev no_step : Config
no_step = record config { step_size = 0 }

transition-zero_step_example :
    (transition whole_numbers 4 prom_increase none
      (pos 1_000_000)
      (pos 1_040_000)
      (pos 0)
      (pos 20)
      (pos 1_000_000)
      5
      fcinfo
      3).0
    ≡ err divide_by_zero
transition-zero_step_example =
    transition-zero_step whole_numbers 4 fcinfo 7 refl prom_increase no_step (pos 1_000_000) 5 3
      (omega arith) refl

flush_current_window-gapfill_example :
    flush_current_window whole_numbers (gapfill whole_numbers config 0 (first ∷ second ∷ []))
    ≡ gapfill whole_numbers config 1 (first ∷ second ∷ [])
unfolding ◌+ℤ◌
flush_current_window-gapfill_example =
    flush_current_window-gapfill whole_numbers config config-IsValid 0 (first ∷ second ∷ [])
      (omega arith) (omega arith) (omega arith)
