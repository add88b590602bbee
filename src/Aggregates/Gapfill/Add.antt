-- ===== src/Aggregates/Gapfill/Add.antt =====
-- `add_data_point` of src/aggregates/gapfill_delta.rs on samples in ascending order of time.
use mathlib.Core.List.{append-nil}
use promscale_extension.Prelude.{
  ℕ, zero, suc, ◌+◌, ◌≡◌, refl, ap₂, sym, ◌∙◌, Bool, true, false, List, [], ◌∷◌, ◌++◌, All,
  All-append, arith, Bool-cases, inl, inr, ok, ◌==◌, le→not-ltb,
}
use promscale_extension.Prelude.Int.{ℤ, leb_ℤ, ◌≤ℤ◌}
use promscale_extension.Prelude.Int.Exact.{+ℤ_parts}
use promscale_extension.Aggregates.{F64, stale_nan}
use promscale_extension.Aggregates.Float.{FloatOps}
use promscale_extension.Aggregates.Gapfill.{
  Sample, GapfillDeltaTransition, window_delta, back, last_or, later_back, push_sample,
  add_data_point,
}
use promscale_extension.Aggregates.Gapfill.Windows.{keep, from, inside, Ascending, keep-append}
use promscale_extension.Aggregates.Gapfill.State.{
  Config, IsValid, window_min, window_max, state_at, deltas, gapfill,
}
use promscale_extension.Aggregates.Gapfill.Flush.{After, flush_until-gapfill}

-- What is kept of samples up to `t` is up to `t`.
All-keep :
    (p : ℤ → Bool) (t : ℤ) (xs : List Sample)
    → All (λ x. x.0 ≤ℤ t) xs
    → All (λ x. x.0 ≤ℤ t) (keep p xs)
unfolding keep
All-keep p t [] h = tt
All-keep p t (x ∷ xs) h = elim (Bool-cases (p x.0)) [
  | inl e ↦ rw e (h.0, All-keep p t xs h.1)
  | inr e ↦ rw e (All-keep p t xs h.1)
]

last_or-le :
    (t : ℤ) (x : Sample) (xs : List Sample)
    → x.0 ≤ℤ t
    → All (λ y. y.0 ≤ℤ t) xs
    → (last_or x xs).0 ≤ℤ t
last_or-le t x [] h a = h
last_or-le t x (y ∷ ys) h a = last_or-le t y ys a.0 a.1

not-later_back :
    (t : ℤ) (xs : List Sample) → All (λ x. x.0 ≤ℤ t) xs → later_back (back xs) t ≡ false
unfolding back
not-later_back t [] h = refl
not-later_back t (x ∷ xs) h = le→not-ltb _ _ (last_or-le t x xs h.0 h.1)

keep-one :
    (p : ℤ → Bool) (xs : List Sample) (x : Sample)
    → p x.0 ≡ true
    → keep p (xs ++ x ∷ []) ≡ keep p xs ++ x ∷ []
unfolding keep
keep-one p xs x h = keep-append p xs (x ∷ []) ∙ rw h

keep-skip :
    (p : ℤ → Bool) (xs : List Sample) (x : Sample)
    → p x.0 ≡ false
    → keep p (xs ++ x ∷ []) ≡ keep p xs
unfolding keep
keep-skip p xs x h = keep-append p xs (x ∷ []) ∙ rw h (append-nil (keep p xs))

-- All the samples are at most `t`.
abbrev pub UpTo : List Sample → ℤ → Type 0
UpTo xs t = All (λ x. x.0 ≤ℤ t) xs

module _ (f : FloatOps) (c : Config) (v : IsValid c) where
  After-pred : (j : ℕ) (t : ℤ) → After c (suc j) t → After c j t
  After-pred zero t h = tt
  After-pred (suc j) t h = omega (arith, +ℤ_parts)

  -- A sample after the windows that are done does not change their values.
  deltas-later :
      (m : ℕ) (xs : List Sample) (x : Sample)
      → After c m x.0
      → deltas f c m xs ≡ deltas f c m (xs ++ x ∷ [])
  unfolding deltas
  deltas-later zero xs x h = refl
  deltas-later (suc j) xs x h =
      let out : inside (window_min c j) (window_max c j) x.0 ≡ false = ground arith in
      ap₂ (λ ds w. ds ++ window_delta f (state_at c j w []) w ∷ [])
        (deltas-later j xs x (After-pred j x.0 h))
        (sym (keep-skip (inside (window_min c j) (window_max c j)) xs x out))

  push_sample-gapfill :
      (m : ℕ) (xs : List Sample) (t : ℤ) (val : F64)
      → UpTo xs t
      → After c m t
      → push_sample f (gapfill f c m xs) t val ≡ ok (gapfill f c m (xs ++ (t, val) ∷ []))
  unfolding push_sample
  push_sample-gapfill m xs t val h p =
      rw (not-later_back t _ (All-keep (from (window_min c m)) t xs h))
        (elim (Bool-cases (leb_ℤ (window_min c m) t)) [
          | inl e ↦ rw e (
              ap₂ (λ w ds. ok (state_at c m w ds))
                (sym (keep-one (from (window_min c m)) xs (t, val) e))
                (deltas-later m xs (t, val) p))
          | inr e ↦ rw e (
              ap₂ (λ w ds. ok (state_at c m w ds))
                (sym (keep-skip (from (window_min c m)) xs (t, val) e))
                (deltas-later m xs (t, val) p))
        ])

  -- A sample that is no stale marker joins the samples of the state.
  pub add_data_point-gapfill :
      (fuel k : ℕ) (xs : List Sample) (t : ℤ) (val : F64)
      → (val == stale_nan) ≡ false
      → Ascending xs
      → All (λ x. x.0 ≤ℤ window_max c k) xs
      → UpTo xs t
      → t ≤ℤ c.greatest_time
      → After c k t
      → t ≤ℤ window_max c (k + fuel)
      → (m : ℕ) × (add_data_point f (suc fuel) (gapfill f c k xs) t val
          ≡ ok (gapfill f c m (xs ++ (t, val) ∷ [])))
        × After c m t
        × All (λ x. x.0 ≤ℤ window_max c m) (xs ++ (t, val) ∷ [])
  unfolding add_data_point
  add_data_point-gapfill fuel k xs t val s a h u g p enough =
      let (m, flushed, reached, after, all) =
        flush_until-gapfill f c v fuel k xs t a h g p enough in
      (
        m,
        rw (s, flushed) (push_sample-gapfill m xs t val u after),
        after,
        All-append _ xs ((t, val) ∷ []) all (reached, tt),
      )

  -- A stale marker changes nothing.
  pub add_data_point-stale :
      (fuel : ℕ) (s : GapfillDeltaTransition) (t : ℤ) (val : F64)
      → (val == stale_nan) ≡ true
      → add_data_point f fuel s t val ≡ ok s
  unfolding add_data_point
  add_data_point-stale fuel s t val h = rw h
