-- ===== src/Aggregates/Gapfill/State.antt =====
-- The query of a gapfill aggregate, the conditions under which nothing in src/aggregates/
-- gapfill_delta.rs wraps, and the state after `k` flushes on the samples `xs`.
use promscale_extension.Prelude.{
  ℕ, zero, suc, ◌+◌, ◌-◌, ◌*◌, ◌/◌, ◌^◌, ◌<◌, ◌≤◌, ◌≡◌, refl, Bool, Option, List, [], ◌∷◌, ◌++◌,
  ltb, if◌then◌else◌,
}
use promscale_extension.Prelude.Int.{ℤ, pos, pos_part, ◌+ℤ◌, ◌-ℤ◌, ◌≤ℤ◌, Within}
use promscale_extension.Aggregates.{F64}
use promscale_extension.Aggregates.Float.{FloatOps}
use promscale_extension.Aggregates.Gapfill.{
  Sample, GapfillDeltaTransition, window_delta, extrapolate,
}
use promscale_extension.Aggregates.Gapfill.Windows.{keep, from, inside}

-- Times in microseconds, `range` and `step_size` in milliseconds.
pub record Config : Type 0 where
  pub lowest_time : ℤ
  pub greatest_time : ℤ
  pub range : ℕ
  pub step_size : ℕ
  pub is_counter : Bool
  pub is_rate : Bool

pub record IsValid (c : Config) : Type 0 where
  pub ordered : c.lowest_time ≤ℤ c.greatest_time
  pub lowest_in : Within (2 ^ 61) c.lowest_time
  pub greatest_in : Within (2 ^ 61) c.greatest_time
  pub range_in : c.range * 1000 ≤ 2 ^ 61
  pub step_in : c.step_size * 1000 ≤ 2 ^ 61
  pub step_positive : 0 < c.step_size

-- The first and the last time of window `k`.
abbrev pub window_min : Config → ℕ → ℤ
window_min c k = c.lowest_time +ℤ pos (k * (c.step_size * 1000))

abbrev pub window_max : Config → ℕ → ℤ
window_max c k = c.lowest_time +ℤ pos (c.range * 1000 + k * (c.step_size * 1000))

-- The samples of window `k`.
abbrev pub window : Config → ℕ → List Sample → List Sample
window c k xs = keep (inside (window_min c k) (window_max c k)) xs

-- A state that stands at window `k`.
abbrev pub state_at : Config → ℕ → List Sample → List (Option F64) → GapfillDeltaTransition
state_at c k samples deltas = record {
  window = samples;
  deltas = deltas;
  current_window_max = window_max c k;
  current_window_min = window_min c k;
  step_size = pos (c.step_size * 1000);
  range = pos (c.range * 1000);
  greatest_time = c.greatest_time;
  is_counter = c.is_counter;
  is_rate = c.is_rate;
}

module _ (f : FloatOps) (c : Config) where
  -- The value of window `k`, from its samples alone.
  abbrev pub delta_at : ℕ → List Sample → Option F64
  delta_at k xs = window_delta f (state_at c k (window c k xs) []) (window c k xs)

  -- The values of the first `k` windows.
  unfoldable pub deltas : ℕ → List Sample → List (Option F64)
  deltas zero xs = []
  deltas (suc k) xs = deltas k xs ++ delta_at k xs ∷ []

  abbrev pub gapfill : ℕ → List Sample → GapfillDeltaTransition
  gapfill k xs = state_at c k (keep (from (window_min c k)) xs) (deltas k xs)

  -- The value of a window does not depend on the values before it.
  pub window_delta-deltas :
      (k : ℕ) (samples w : List Sample) (ds ds' : List (Option F64))
      → window_delta f (state_at c k samples ds) w ≡ window_delta f (state_at c k samples ds') w
  unfolding window_delta extrapolate
  window_delta-deltas k samples [] ds ds' = refl
  window_delta-deltas k samples (x ∷ []) ds ds' = refl
  window_delta-deltas k samples (x ∷ y ∷ rest) ds ds' = refl

-- The number of windows that end by the greatest time.
abbrev pub window_count : Config → ℕ
window_count c =
    let d = pos_part (c.greatest_time -ℤ c.lowest_time) in
    if ltb d (c.range * 1000) then 0 else suc ((d - c.range * 1000) / (c.step_size * 1000))
