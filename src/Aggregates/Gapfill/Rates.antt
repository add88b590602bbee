-- ===== src/Aggregates/Gapfill/Rates.antt =====
-- How `prom_rate` and `prom_increase` of src/aggregates/ belong together: the first divides what the
-- second returns by the range, in whole seconds.
use promscale_extension.Prelude.{
  ℕ, zero, suc, ◌*◌, ◌≤◌, ◌≡◌, refl, ap, sym, ◌∙◌, List, [], ◌∷◌, ◌++◌, map, All, ok, Option, some,
  none,
}
use promscale_extension.Prelude.Int.{pos, quotient}
use promscale_extension.Memory.{FunctionCallInfo}
use promscale_extension.Aggregates.{F64, usecs_per_sec}
use promscale_extension.Aggregates.Float.{FloatOps}
use promscale_extension.Aggregates.Gapfill.{
  Sample, GapfillDeltaTransition, window_delta, extrapolate,
}
use promscale_extension.Aggregates.Gapfill.Windows.{Ascending}
use promscale_extension.Aggregates.Gapfill.State.{
  Config, IsValid, deltas, window, window_count, state_at,
}
use promscale_extension.Aggregates.Gapfill.Entry.{prom_extrapolate_final_inner}
use promscale_extension.Aggregates.Gapfill.Runs.{
  fresh, PromFunction, prom_rate, prom_increase, counter_of, rate_of, aggregate_rows, InBounds,
}
use promscale_extension.Aggregates.Gapfill.Results.{prom_extrapolate_final-aggregate_rows}

-- The same query, asked of the function `p`.
abbrev pub asked : PromFunction → Config → Config
asked p c = record c { is_counter = counter_of p; is_rate = rate_of p }

asked-IsValid : (p : PromFunction) (c : Config) → IsValid c → IsValid (asked p c)
asked-IsValid p c v = record {
  ordered = v.ordered;
  lowest_in = v.lowest_in;
  greatest_in = v.greatest_in;
  range_in = v.range_in;
  step_in = v.step_in;
  step_positive = v.step_positive;
}

module _ (f : FloatOps) (c : Config) where
  -- A value over the whole seconds of the range; NULL stays NULL.
  abbrev pub per_second : Option F64 → Option F64
  per_second none = none
  per_second (some delta) =
      some (f.over delta (f.of_i64 (quotient (pos (c.range * 1000)) usecs_per_sec)))

  delta_at-per_second :
      (k : ℕ) (samples w : List Sample)
      → window_delta f (state_at (asked prom_rate c) k samples []) w
        ≡ per_second (window_delta f (state_at (asked prom_increase c) k samples []) w)
  unfolding window_delta extrapolate
  delta_at-per_second k samples [] = refl
  delta_at-per_second k samples (x ∷ []) = refl
  delta_at-per_second k samples (x ∷ y ∷ rest) = refl

  map-snoc :
      (xs : List (Option F64)) (x : Option F64)
      → map per_second (xs ++ x ∷ []) ≡ map per_second xs ++ per_second x ∷ []
  map-snoc [] x = refl
  map-snoc (y ∷ xs) x = ap (λ w. per_second y ∷ w) (map-snoc xs x)

  deltas-per_second :
      (k : ℕ) (xs : List Sample)
      → deltas f (asked prom_rate c) k xs ≡ map per_second (deltas f (asked prom_increase c) k xs)
  unfolding deltas
  deltas-per_second zero xs = refl
  deltas-per_second (suc k) xs =
      rw (deltas-per_second k xs, delta_at-per_second k (window c k xs) (window c k xs))
        (sym (map-snoc _ _))

  -- On rows in ascending order of time inside the bounds of a valid query, `prom_increase` succeeds,
  -- and so does `prom_rate`, which returns for each window the increase divided by the whole seconds of
  -- the range, and NULL where that is NULL. One more round of fuel than there are windows is enough.
  pub prom_rate-prom_increase :
      IsValid c
      → (r : ℕ) → window_count c ≤ r
      → (fcinfo : FunctionCallInfo) (mctx : ℕ) (current : ℕ) (row : Sample) (rows : List Sample)
      → fcinfo.agg_check_call_context ≡ some mctx
      → Ascending (row ∷ rows)
      → All (λ y. InBounds c y.0) (row ∷ rows)
      → (rate increase : Option GapfillDeltaTransition) × (values : List (Option F64))
        × (aggregate_rows f (suc r) prom_rate (asked prom_rate c) fcinfo none (row ∷ rows) current
            ≡ (ok rate, current))
        × (aggregate_rows f
              (suc r)
              prom_increase
              (asked prom_increase c)
              fcinfo
              none
              (row ∷ rows)
              current
            ≡ (ok increase, current))
        × (prom_extrapolate_final_inner f (suc r) increase ≡ ok (some values))
        × (prom_extrapolate_final_inner f (suc r) rate ≡ ok (some (map per_second values)))
  prom_rate-prom_increase v r enough fcinfo mctx current row rows ctx a b =
      let (rate, ran, final) =
        prom_extrapolate_final-aggregate_rows f (asked prom_rate c) (asked-IsValid prom_rate c v) r
          enough prom_rate fcinfo mctx current row rows ctx (refl, refl) a b in
      let (increase, ran', final') =
        prom_extrapolate_final-aggregate_rows f (asked prom_increase c)
          (asked-IsValid prom_increase c v) r enough prom_increase fcinfo mctx current row rows ctx
          (refl, refl) a b in
      (
        rate,
        increase,
        deltas f (asked prom_increase c) (window_count c) (fresh (row ∷ rows)),
        ran,
        ran',
        final',
        final ∙ ap (λ ds. ok (some ds)) (deltas-per_second (window_count c) (fresh (row ∷ rows))),
      )
