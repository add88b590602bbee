-- ===== src/Aggregates/Gapfill/Last.antt =====
-- The last of the samples that a run of src/aggregates/gapfill_delta.rs has taken, and the window that
-- it stands in.
use promscale_extension.Prelude.{
  ℕ, zero, suc, ◌≤◌, ◌≡◌, ◌⊎◌, refl, ap, List, [], ◌∷◌, ◌++◌, All, arith, some,
}
use promscale_extension.Prelude.Int.{ℤ, ◌≤ℤ◌}
use promscale_extension.Prelude.Int.Exact.{+ℤ_parts}
use promscale_extension.Aggregates.Gapfill.{Sample, back, last_or}
use promscale_extension.Aggregates.Gapfill.Windows.{Ascending, keep, from, keep-append}
use promscale_extension.Aggregates.Gapfill.State.{Config, window_min}
use promscale_extension.Aggregates.Gapfill.Flush.{After}
use promscale_extension.Aggregates.Gapfill.Add.{UpTo}

back-snoc : (xs : List Sample) (z : Sample) → back (xs ++ z ∷ []) ≡ some z
unfolding back
back-snoc [] z = refl
back-snoc (x ∷ xs) z = ap some (last-snoc x xs)
  where
    last-snoc : (x : Sample) (xs : List Sample) → last_or x (xs ++ z ∷ []) ≡ z
    last-snoc x [] = refl
    last-snoc x (y ∷ xs) = last-snoc y xs

-- A sample that is in the window is the last of the window.
pub back-keep :
    (lo : ℤ) (ys : List Sample) (z : Sample)
    → lo ≤ℤ z.0
    → back (keep (from lo) (ys ++ z ∷ [])) ≡ some z
unfolding keep
back-keep lo ys z h =
    let one : keep (from lo) (z ∷ []) ≡ z ∷ [] = ground arith in
    rw (keep-append (from lo) ys (z ∷ []), one) (back-snoc (keep (from lo) ys) z)

-- No sample yet, or a last one, and window `k` is the first that reaches it.
abbrev pub Last : Config → ℕ → List Sample → Type 0
Last c k zs =
    ((k ≡ 0) × (zs ≡ []))
    ⊎ ((ys : List Sample) × (z : Sample) × (zs ≡ ys ++ z ∷ [])
        × After c k z.0
        × (c.lowest_time ≤ℤ z.0))

-- Where the windows leave no gap, the last sample is in the window that first reaches it.
pub After-window_min :
    (c : Config) (k : ℕ) (t : ℤ)
    → c.step_size ≤ c.range
    → c.lowest_time ≤ℤ t
    → After c k t
    → window_min c k ≤ℤ t
After-window_min c zero t h lo a = omega (arith, +ℤ_parts)
After-window_min c (suc k) t h lo a = omega (arith, +ℤ_parts)

pub UpTo-snoc :
    (ys : List Sample) (z : Sample) (t : ℤ)
    → Ascending (ys ++ z ∷ [])
    → z.0 ≤ℤ t
    → UpTo (ys ++ z ∷ []) t
UpTo-snoc [] z t a h = (h, tt)
UpTo-snoc (y ∷ ys) z t a h = (omega (arith, last_of ys a.0), UpTo-snoc ys z t a.1 h)
  where
    last_of : (xs : List Sample) → All (λ x. y.0 ≤ℤ x.0) (xs ++ z ∷ []) → y.0 ≤ℤ z.0
    last_of [] b = b.0
    last_of (x ∷ xs) b = last_of xs b.1

-- In an ascending list no sample is later than one that follows it.
pub Ascending-pair :
    (ys : List Sample) (z x : Sample) (rest : List Sample)
    → Ascending ((ys ++ z ∷ []) ++ x ∷ rest)
    → z.0 ≤ℤ x.0
Ascending-pair [] z x rest a = a.0.0
Ascending-pair (y ∷ ys) z x rest a = Ascending-pair ys z x rest a.1
