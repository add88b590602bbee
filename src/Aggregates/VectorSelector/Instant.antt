-- ===== src/Aggregates/VectorSelector/Instant.antt =====
-- What `results` of src/aggregates/vector_selector.rs computes from the buckets: at each reference
-- time the most recent sample of the lookback window.
use promscale_extension.Prelude.{
  ℕ, zero, suc, ◌+◌, ◌*◌, ◌^◌, ◌≤◌, ◌≡◌, refl, ap₂, sym, Option, none, some, List, [], ◌∷◌, inl,
  inr, arith, ◌==◌, if◌then◌else◌, Option-cases,
}
use promscale_extension.Prelude.Int.{
  ℤ, pos, pos_part, neg_part, ◌+ℤ◌, ◌-ℤ◌, ◌≤ℤ◌, Within, add, sub, mul,
}
use promscale_extension.Prelude.Int.Exact.{+ℤ_parts, exact, mul-pos}
use promscale_extension.Aggregates.{F64, stale_nan, usecs_per_ms}
use promscale_extension.Aggregates.VectorSelector.{Sample, visible, results_loop}
use promscale_extension.Aggregates.VectorSelector.Latest.{
  latest, latest-split, latest-window, up_to, between, between_closed, or_else, at_least,
}
use promscale_extension.Aggregates.VectorSelector.Buckets.{bucket_list}

-- A stale marker says that the series has ended: it hides the samples before it.
abbrev pub unless_stale : Option Sample → Option F64
unless_stale none = none
unless_stale (some (t, v)) = if v == stale_nan then none else some v

-- The instant vector at `t`: the most recent sample of [t - lookback, t].
abbrev pub instant : ℕ → ℤ → List Sample → Option F64
instant lookback t xs = unless_stale (latest (between_closed (t -ℤ pos lookback) t) xs)

-- The instant vectors at `n` times that are `w` microseconds apart.
unfoldable pub instants : ℕ → ℕ → ℕ → ℤ → List Sample → List (Option F64)
instants lookback w zero t xs = []
instants lookback w (suc n) t xs = instant lookback t xs ∷ instants lookback w n (t +ℤ pos w) xs

-- What `results` writes for a bucket when `found` is the last sample found so far.
abbrev shown : ℤ → ℤ → Option Sample → Option F64
shown ts lookback none = none
shown ts lookback (some y) = visible ts lookback y

loop-step :
    (width lookback ts : ℤ) (last e : Option Sample) (rest : List (Option Sample))
    → results_loop width lookback ts last (e ∷ rest)
      ≡ shown ts lookback (or_else e last)
        ∷ results_loop width lookback (add ts (mul width usecs_per_ms)) (or_else e last) rest
unfolding results_loop
loop-step width lookback ts none none rest = refl
loop-step width lookback ts (some y) none rest = refl
loop-step width lookback ts none (some x) rest = refl
loop-step width lookback ts (some y) (some x) rest = refl

-- The last sample found before the bucket that begins after `lo`.
abbrev pub before : Option ℤ → List Sample → Option Sample
before none xs = none
before (some lo) xs = latest (up_to lo) xs

abbrev pub Follows : Option ℤ → ℤ → Type 0
Follows none ts = Unit
Follows (some lo) ts = lo ≤ℤ ts

or_else-none : (o : Option Sample) → or_else o none ≡ o
or_else-none none = refl
or_else-none (some y) = refl

found-latest :
    (lo : Option ℤ) (ts : ℤ) (xs : List Sample)
    → Follows lo ts
    → or_else (latest (between lo ts) xs) (before lo xs) ≡ latest (up_to ts) xs
found-latest none ts xs h = or_else-none (latest (up_to ts) xs)
found-latest (some lo) ts xs h = sym (latest-split lo ts h xs)

lookback_start :
    (l : ℕ) (ts : ℤ)
    → l * 1000 ≤ 2 ^ 61
    → Within (2 ^ 62) ts
    → sub ts (mul (pos l) usecs_per_ms) ≡ ts -ℤ pos (l * 1000)
lookback_start l ts h r = rw (mul-pos l 1000 (omega arith)) (omega exact)

shown-some :
    (l : ℕ) (ts : ℤ) (y : Sample)
    → sub ts (mul (pos l) usecs_per_ms) ≡ ts -ℤ pos (l * 1000)
    → shown ts (pos l) (some y) ≡ unless_stale (at_least (ts -ℤ pos (l * 1000)) (some y))
unfolding visible
shown-some l ts y h = rw h (ground arith)

-- What is shown at `ts` is the instant vector there.
shown-instant :
    (l : ℕ) (ts : ℤ) (xs : List Sample)
    → l * 1000 ≤ 2 ^ 61
    → Within (2 ^ 62) ts
    → shown ts (pos l) (latest (up_to ts) xs) ≡ instant (l * 1000) ts xs
shown-instant l ts xs h r =
    rw (latest-window (ts -ℤ pos (l * 1000)) ts xs) (elim (Option-cases (latest (up_to ts) xs)) [
      | inl e ↦ rw e
      | inr (y, e) ↦ rw e (shown-some l ts y (lookback_start l ts h r))
    ])

-- The loop of `results` over the buckets of `xs` gives the instant vectors of `xs`, as long as
-- the reference times stay in range.
pub results_loop-instants :
    (b l n : ℕ) (lo : Option ℤ) (ts : ℤ) (xs : List Sample)
    → Follows lo ts
    → b * 1000 ≤ 2 ^ 61
    → l * 1000 ≤ 2 ^ 61
    → neg_part ts ≤ pos_part ts + 2 ^ 62
    → pos_part ts + n * (b * 1000) ≤ neg_part ts + 2 ^ 62
    → results_loop (pos b) (pos l) ts (before lo xs) (bucket_list lo ts (b * 1000) n xs)
      ≡ instants (l * 1000) (b * 1000) n ts xs
unfolding bucket_list instants
results_loop-instants b l zero lo ts xs f hb hl hn hp = unfold results_loop in refl
results_loop-instants b l (suc n) lo ts xs f hb hl hn hp =
    let next : add ts (mul (pos b) usecs_per_ms) ≡ ts +ℤ pos (b * 1000) =
      rw (mul-pos b 1000 (omega arith)) (omega exact) in
    rw (loop-step, found-latest lo ts xs f, next)
      (ap₂ ◌∷◌ (shown-instant l ts xs hl (omega arith, omega arith)) (
        results_loop-instants b l n (some ts) (ts +ℤ pos (b * 1000)) xs (omega (arith, +ℤ_parts)) hb
          hl (omega (arith, +ℤ_parts)) (omega (arith, +ℤ_parts))))
