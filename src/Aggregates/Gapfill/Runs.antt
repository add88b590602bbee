-- ===== src/Aggregates/Gapfill/Runs.antt =====
-- Whole runs of `prom_delta`, `prom_rate` and `prom_increase` over rows in order of time.
use promscale_extension.Prelude.{
  ℕ, ◌≡◌, refl, Bool, true, false, List, [], ◌∷◌, ◌++◌, arith, if◌then◌else◌, ok, err, ◌==◌, Option,
  some, le→not-ltb, ◌⊎◌, not_in_bounds, less_than_lowest_time, Fault,
}
use promscale_extension.Prelude.Int.{ℤ, pos, ◌≤ℤ◌, ◌<ℤ◌}
use promscale_extension.Memory.{Exec, lift, ◌>>=◌, FunctionCallInfo, in_aggregate_context}
use promscale_extension.Aggregates.{Milliseconds, F64, stale_nan}
use promscale_extension.Aggregates.Float.{FloatOps}
use promscale_extension.Aggregates.Gapfill.{Sample, GapfillDeltaTransition}
use promscale_extension.Aggregates.Gapfill.State.{Config}
use promscale_extension.Aggregates.Gapfill.Entry.{
  or_new, prom_delta_transition_inner, prom_rate_transition_inner, prom_increase_transition_inner,
  add_row,
}

-- The rows that are no stale markers.
unfoldable pub fresh : List Sample → List Sample
fresh [] = []
fresh ((t, v) ∷ xs) = let rest = fresh xs in if v == stale_nan then rest else (t, v) ∷ rest

pub fresh-none :
    (t : ℤ) (v : F64) (xs : List Sample) → (v == stale_nan) ≡ true → fresh ((t, v) ∷ xs) ≡ fresh xs
unfolding fresh
fresh-none t v xs h = rw h

pub fresh-some :
    (t : ℤ) (v : F64) (xs : List Sample)
    → (v == stale_nan) ≡ false
    → fresh ((t, v) ∷ xs) ≡ (t, v) ∷ fresh xs
unfolding fresh
fresh-some t v xs h = rw h

-- One row alone.
pub fresh-one-none : (t : ℤ) (v : F64) → (v == stale_nan) ≡ true → fresh ((t, v) ∷ []) ≡ []
unfolding fresh
fresh-one-none t v h = rw h

pub fresh-one-some :
    (t : ℤ) (v : F64) → (v == stale_nan) ≡ false → fresh ((t, v) ∷ []) ≡ (t, v) ∷ []
unfolding fresh
fresh-one-some t v h = rw h

pub fresh-cons : (x : Sample) (xs : List Sample) → fresh (x ∷ xs) ≡ fresh (x ∷ []) ++ fresh xs
unfolding fresh
fresh-cons (t, v) xs = ground arith

pub fresh-nil : fresh [] ≡ []
unfolding fresh
fresh-nil = refl

-- The three functions of SQL, by the two flags of the state.
pub data PromFunction : Type 0 where
  prom_delta prom_rate prom_increase : PromFunction

abbrev pub counter_of : PromFunction → Bool
counter_of prom_delta = false
counter_of prom_rate = true
counter_of prom_increase = true

abbrev pub rate_of : PromFunction → Bool
rate_of prom_delta = false
rate_of prom_rate = true
rate_of prom_increase = false

-- What each of them says of a row outside the bounds.
abbrev pub refusal : PromFunction → Fault
refusal prom_delta = less_than_lowest_time
refusal prom_rate = not_in_bounds
refusal prom_increase = less_than_lowest_time

module _ (f : FloatOps) (fuel : ℕ) where
  abbrev pub transition :
      PromFunction
      → Option GapfillDeltaTransition
      → ℤ
      → ℤ
      → Milliseconds
      → Milliseconds
      → ℤ
      → F64
      → FunctionCallInfo
      → Exec (Option GapfillDeltaTransition)
  transition prom_delta = prom_delta_transition_inner f fuel
  transition prom_rate = prom_rate_transition_inner f fuel
  transition prom_increase = prom_increase_transition_inner f fuel

  -- PostgreSQL calls the transition once for each row, with the query's arguments.
  unfoldable pub aggregate_rows :
      PromFunction
      → Config
      → FunctionCallInfo
      → Option GapfillDeltaTransition
      → List Sample
      → Exec (Option GapfillDeltaTransition)
  aggregate_rows p c fcinfo state [] = lift (ok state)
  aggregate_rows p c fcinfo state ((t, v) ∷ rows) = do
    state' ←
        transition p state c.lowest_time c.greatest_time (pos c.step_size) (pos c.range) t v fcinfo
    aggregate_rows p c fcinfo state' rows

-- The query asks for the function `p`.
abbrev pub Asks : PromFunction → Config → Type 0
Asks p c = (c.is_counter ≡ counter_of p) × (c.is_rate ≡ rate_of p)

abbrev pub InBounds : Config → ℤ → Type 0
InBounds c t = (c.lowest_time ≤ℤ t) × (t ≤ℤ c.greatest_time)

module _ (f : FloatOps) (fuel : ℕ) (fcinfo : FunctionCallInfo) (mctx : ℕ)
    (in_aggregate : fcinfo.agg_check_call_context ≡ some mctx) where
  -- Inside the bounds a transition is a step of the state.
  pub transition-add_row :
      (p : PromFunction) (c : Config) (state : Option GapfillDeltaTransition) (t : ℤ) (val : F64)
      (current : ℕ) (next : Option GapfillDeltaTransition)
      → InBounds c t
      → add_row f fuel
          (or_new state c.lowest_time c.greatest_time
            (pos c.range)
            (pos c.step_size)
            (counter_of p)
            (rate_of p))
          t
          val
        ≡ ok next
      → transition f fuel p state c.lowest_time c.greatest_time
          (pos c.step_size)
          (pos c.range)
          t
          val
          fcinfo
          current
        ≡ (ok next, current)
  unfolding prom_delta_transition_inner prom_rate_transition_inner prom_increase_transition_inner
      in_aggregate_context
  transition-add_row prom_delta c state t val current next b e =
      rw (in_aggregate, le→not-ltb _ _ b.0, le→not-ltb _ _ b.1, e)
  transition-add_row prom_rate c state t val current next b e =
      rw (in_aggregate, le→not-ltb _ _ b.0, le→not-ltb _ _ b.1, e)
  transition-add_row prom_increase c state t val current next b e =
      rw (in_aggregate, le→not-ltb _ _ b.0, le→not-ltb _ _ b.1, e)

  -- In an aggregate, a row outside [lowest_time, greatest_time] is refused by the transition of each
  -- of the three functions, whatever the state.
  pub transition-out_of_bounds :
      (p : PromFunction) (c : Config) (state : Option GapfillDeltaTransition) (t : ℤ) (val : F64)
      (current : ℕ)
      → (t <ℤ c.lowest_time) ⊎ (c.greatest_time <ℤ t)
      → (transition f fuel p state c.lowest_time c.greatest_time
          (pos c.step_size)
          (pos c.range)
          t
          val
          fcinfo
          current).0
        ≡ err (refusal p)
  unfolding prom_delta_transition_inner prom_rate_transition_inner prom_increase_transition_inner
      in_aggregate_context
  transition-out_of_bounds prom_delta c state t val current h = ground (arith, in_aggregate)
  transition-out_of_bounds prom_rate c state t val current h = ground (arith, in_aggregate)
  transition-out_of_bounds prom_increase c state t val current h = ground (arith, in_aggregate)
