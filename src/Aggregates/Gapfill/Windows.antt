-- ===== src/Aggregates/Gapfill/Windows.antt =====
-- The windows of src/aggregates/gapfill_delta.rs as a function of the samples: the state after
-- `k` flushes, on samples in ascending order of time.
use promscale_extension.Prelude.{
  ◌≡◌, refl, Bool, ◌&&◌, List, [], ◌∷◌, ◌++◌, All, arith, if◌then◌else◌, Bool-cases, inl, inr,
}
use promscale_extension.Prelude.Int.{ℤ, leb_ℤ, ◌≤ℤ◌}
use promscale_extension.Aggregates.Gapfill.{Sample, pop_before}

-- The samples whose time passes a test, in order.
unfoldable pub keep : (ℤ → Bool) → List Sample → List Sample
keep p [] = []
keep p (x ∷ xs) = let rest = keep p xs in if p x.0 then x ∷ rest else rest

-- Ascending in time; equal times are allowed.
abbrev pub Ascending : List Sample → Type 0
Ascending [] = Unit
Ascending (x ∷ xs) = All (λ y. x.0 ≤ℤ y.0) xs × Ascending xs

abbrev pub from : ℤ → ℤ → Bool
from lo t = leb_ℤ lo t

abbrev pub inside : ℤ → ℤ → ℤ → Bool
inside lo hi t = leb_ℤ lo t && leb_ℤ t hi

pub keep-append : (p : ℤ → Bool) (xs ys : List Sample) → keep p (xs ++ ys) ≡ keep p xs ++ keep p ys
unfolding keep
keep-append p [] ys = refl
keep-append p (x ∷ xs) ys = ground (arith, keep-append p xs ys)

-- Where every sample is at most `hi`, the upper bound of a window is no test.
pub keep-inside :
    (lo hi : ℤ) (xs : List Sample)
    → All (λ x. x.0 ≤ℤ hi) xs
    → keep (inside lo hi) xs ≡ keep (from lo) xs
unfolding keep
keep-inside lo hi [] h = refl
keep-inside lo hi (x ∷ xs) h = ground (arith, keep-inside lo hi xs h.1)

All-from :
    (lo lo' : ℤ) (xs : List Sample) → lo ≤ℤ lo' → All (λ x. lo' ≤ℤ x.0) xs → All (λ x. lo ≤ℤ x.0) xs
All-from lo lo' [] h a = tt
All-from lo lo' (x ∷ xs) h a = (omega arith, All-from lo lo' xs h a.1)

keep-All : (lo : ℤ) (xs : List Sample) → All (λ x. lo ≤ℤ x.0) xs → keep (from lo) xs ≡ xs
unfolding keep
keep-All lo [] h = refl
keep-All lo (x ∷ xs) h = ground (arith, keep-All lo xs h.1)

-- `pop_before` on the front of an ascending window is a filter.
pub pop_before-All : (c : ℤ) (xs : List Sample) → All (λ x. c ≤ℤ x.0) xs → pop_before c xs ≡ xs
unfolding pop_before
pop_before-All c [] h = refl
pop_before-All c (x ∷ xs) h = ground arith

pub pop_before-keep :
    (b c : ℤ) (xs : List Sample)
    → b ≤ℤ c
    → Ascending xs
    → pop_before c (keep (from b) xs) ≡ keep (from c) xs
unfolding keep pop_before
pop_before-keep b c [] h a = refl
pop_before-keep b c (x ∷ xs) h a = elim (Bool-cases (leb_ℤ c x.0)) [
  | inl e ↦ ground (
    arith,
    keep-All b xs (All-from b x.0 xs (ground arith) a.0),
    keep-All c xs (All-from c x.0 xs (ground arith) a.0),
  )
  | inr e ↦ ground (arith, pop_before-keep b c xs h a.1)
]
