-- ===== src/Aggregates/Gapfill/Flush.antt =====
-- What a flush of src/aggregates/gapfill_delta.rs does to the state on ascending samples, and the
-- loops of flushes.
use promscale_extension.Prelude.{
  ℕ, zero, suc, ◌+◌, ◌*◌, ◌≡◌, ap, List, [], ◌∷◌, ◌++◌, All, arith, Bool-cases, inl, inr, ok,
  le→leb, lt→not-leb,
}
use promscale_extension.Prelude.Int.{ℤ, pos, leb_ℤ, ◌≤ℤ◌, ◌<ℤ◌, add}
use promscale_extension.Prelude.Int.Exact.{exact, +ℤ_parts}
use promscale_extension.Aggregates.Float.{FloatOps}
use promscale_extension.Aggregates.Gapfill.{
  Sample, flush_current_window, flush_until, flush_rest, add_delta_for_current_window,
  in_current_window,
}
use promscale_extension.Aggregates.Gapfill.Windows.{
  keep, from, Ascending, keep-inside, pop_before-keep,
}
use promscale_extension.Aggregates.Gapfill.State.{
  Config, IsValid, window_min, window_max, window, state_at, deltas, gapfill, window_delta-deltas,
}

-- The window before `k` ends before the time; so the time needs window `k` at least.
abbrev pub After : Config → ℕ → ℤ → Type 0
After c zero t = Unit
After c (suc j) t = window_max c j <ℤ t

-- The window before `k` ends by the greatest time.
abbrev pub Due : Config → ℕ → Type 0
Due c zero = Unit
Due c (suc j) = window_max c j ≤ℤ c.greatest_time

module _ (f : FloatOps) (c : Config) (v : IsValid c) where
  next_min :
      (k : ℕ)
      → window_max c k ≤ℤ c.greatest_time
      → add (window_min c k) (pos (c.step_size * 1000)) ≡ window_min c (suc k)
  next_min k h = omega exact

  next_max :
      (k : ℕ)
      → window_max c k ≤ℤ c.greatest_time
      → add (window_max c k) (pos (c.step_size * 1000)) ≡ window_max c (suc k)
  next_max k h = omega exact

  -- For a valid query, a flush of the state that `k` flushes leave of ascending samples leads to the
  -- state that `k + 1` flushes leave: it stores the value of window `k` and lets go of the samples
  -- before the next. No sample is past window `k`, and that window ends by the greatest time.
  pub flush_current_window-gapfill :
      (k : ℕ) (xs : List Sample)
      → Ascending xs
      → All (λ x. x.0 ≤ℤ window_max c k) xs
      → window_max c k ≤ℤ c.greatest_time
      → flush_current_window f (gapfill f c k xs) ≡ gapfill f c (suc k) xs
  unfolding flush_current_window add_delta_for_current_window deltas
  flush_current_window-gapfill k xs a h g =
      rw
        (
          next_min k g,
          next_max k g,
          pop_before-keep (window_min c k) (window_min c (suc k)) xs (omega (arith, +ℤ_parts)) a,
          ← keep-inside (window_min c k) (window_max c k) xs h,
        )
        (ap
          (λ d.
            state_at c (suc k) (keep (from (window_min c (suc k))) xs) (deltas f c k xs ++ d ∷ []))
          (window_delta-deltas f c k (window c k xs) (window c k xs) (deltas f c k xs) []))

  max_mono :
      (k : ℕ) (xs : List Sample)
      → All (λ x. x.0 ≤ℤ window_max c k) xs
      → All (λ x. x.0 ≤ℤ window_max c (suc k)) xs
  max_mono k [] h = tt
  max_mono k (x ∷ xs) h = (omega (arith, +ℤ_parts), max_mono k xs h.1)

  -- The loop of `add_data_point`: with a round for each step up to the time, it ends, at the first
  -- window that reaches the time.
  pub flush_until-gapfill :
      (fuel k : ℕ) (xs : List Sample) (t : ℤ)
      → Ascending xs
      → All (λ x. x.0 ≤ℤ window_max c k) xs
      → t ≤ℤ c.greatest_time
      → After c k t
      → t ≤ℤ window_max c (k + fuel)
      → (m : ℕ) × (flush_until f (suc fuel) t (gapfill f c k xs) ≡ ok (gapfill f c m xs))
        × (t ≤ℤ window_max c m)
        × After c m t
        × All (λ x. x.0 ≤ℤ window_max c m) xs
  unfolding flush_until in_current_window
  flush_until-gapfill zero k xs t a h g p enough =
      let here : t ≤ℤ window_max c k = omega (arith, +ℤ_parts) in
      (k, rw (le→leb _ _ here), here, p, h)
  flush_until-gapfill (suc fuel) k xs t a h g p enough =
      elim (Bool-cases (leb_ℤ t (window_max c k))) [
        | inl e ↦ (k, rw e, ground arith, p, h)
        | inr e ↦
            let late : window_max c k <ℤ t = ground arith in
            rw (e, flush_current_window-gapfill k xs a h (omega arith))
              (flush_until-gapfill fuel (suc k) xs t a (max_mono k xs h) g late
                (omega (arith, +ℤ_parts)))
      ]

  -- The loop of `as_vec` ends at the first window that ends after the greatest time.
  pub flush_rest-gapfill :
      (fuel k : ℕ) (xs : List Sample)
      → Ascending xs
      → All (λ x. x.0 ≤ℤ window_max c k) xs
      → Due c k
      → c.greatest_time <ℤ window_max c (k + fuel)
      → (m : ℕ) × (flush_rest f (suc fuel) (gapfill f c k xs) ≡ ok (gapfill f c m xs))
        × (c.greatest_time <ℤ window_max c m)
        × Due c m
  unfolding flush_rest
  flush_rest-gapfill zero k xs a h p enough =
      let over : c.greatest_time <ℤ window_max c k = omega (arith, +ℤ_parts) in
      (k, rw (lt→not-leb _ _ over), over, p)
  flush_rest-gapfill (suc fuel) k xs a h p enough =
      elim (Bool-cases (leb_ℤ (window_max c k) c.greatest_time)) [
        | inl e ↦
            let due : window_max c k ≤ℤ c.greatest_time = ground arith in
            rw (e, flush_current_window-gapfill k xs a h due)
              (flush_rest-gapfill fuel (suc k) xs a (max_mono k xs h) due (omega (arith, +ℤ_parts)))
        | inr e ↦ (k, rw e, ground arith, p)
      ]
