-- ===== src/Aggregates/VectorSelector/Latest.antt =====
-- The most recent sample of a list that passes a test: what a bucket of src/aggregates/
-- vector_selector.rs is for, said without buckets.
use promscale_extension.Prelude.{
  ◌≡◌, refl, Bool, true, ◌&&◌, Option, none, some, List, [], ◌∷◌, ◌++◌, inl, inr, arith,
  if◌then◌else◌, Bool-cases, Option-cases,
}
use promscale_extension.Prelude.Int.{ℤ, ltb_ℤ, leb_ℤ, ◌≤ℤ◌}
use promscale_extension.Aggregates.VectorSelector.{Sample, newer}

-- The later of two; of two at one time the first.
abbrev pub prefer : Sample → Option Sample → Sample
prefer x none = x
prefer x (some y) = if ltb_ℤ x.0 y.0 then y else x

unfoldable pub latest : (ℤ → Bool) → List Sample → Option Sample
latest p [] = none
latest p (x ∷ xs) = let best = latest p xs in if p x.0 then some (prefer x best) else best

pub newer_assoc : (a b c : Option Sample) → newer (newer a b) c ≡ newer a (newer b c)
newer_assoc none b c = refl
newer_assoc (some a) none c = refl
newer_assoc (some a) (some b) none = ground arith
newer_assoc (some a) (some b) (some c) = ground arith

pub newer-none : (a : Option Sample) → newer a none ≡ a
newer-none none = refl
newer-none (some a) = refl

-- `newer` of one sample and the rest is `prefer`.
newer-prefer : (x : Sample) (o : Option Sample) → newer (some x) o ≡ some (prefer x o)
newer-prefer x none = refl
newer-prefer x (some y) = ground arith

module _ (p : ℤ → Bool) where
  pub latest-cons :
      (x : Sample) (xs : List Sample)
      → latest p (x ∷ xs) ≡ newer (if p x.0 then some x else none) (latest p xs)
  unfolding latest
  latest-cons x xs = elim (Bool-cases (p x.0)) [
    | inl yes' ↦ rw (yes', newer-prefer x (latest p xs))
    | inr no' ↦ rw no'
  ]

  pub latest-append :
      (xs ys : List Sample) → latest p (xs ++ ys) ≡ newer (latest p xs) (latest p ys)
  latest-append [] ys = unfold latest in refl
  latest-append (x ∷ xs) ys = simp (latest-cons, latest-append xs ys, newer_assoc)

  -- What is found passes the test.
  pub latest-passes : (xs : List Sample) (y : Sample) → latest p xs ≡ some y → p y.0 ≡ true
  unfolding latest
  latest-passes [] y h = cc
  latest-passes (x ∷ xs) y h = elim (Option-cases (latest p xs)) [
    | inl e ↦ ground arith
    | inr (z, e) ↦ ground (arith, latest-passes xs z e)
  ]

-- The times up to `hi`, and those after a bound if there is one.
abbrev pub up_to : ℤ → ℤ → Bool
up_to hi t = leb_ℤ t hi

abbrev pub after : Option ℤ → ℤ → Bool
after none t = true
after (some lo) t = ltb_ℤ lo t

abbrev pub between : Option ℤ → ℤ → ℤ → Bool
between lo hi t = after lo t && up_to hi t

abbrev pub between_closed : ℤ → ℤ → ℤ → Bool
between_closed lo hi t = leb_ℤ lo t && leb_ℤ t hi

abbrev pub or_else : Option Sample → Option Sample → Option Sample
or_else none d = d
or_else (some y) d = some y

-- The latest up to `hi` is the latest after `lo`, and if there is none, the latest up to `lo`.
pub latest-split :
    (lo hi : ℤ)
    → lo ≤ℤ hi
    → (xs : List Sample)
    → latest (up_to hi) xs ≡ or_else (latest (between (some lo) hi) xs) (latest (up_to lo) xs)
unfolding latest
latest-split lo hi h [] = refl
latest-split lo hi h (x ∷ xs) = elim (Option-cases (latest (between (some lo) hi) xs)) [
  | inl e ↦ elim (Option-cases (latest (up_to lo) xs)) [
    | inl f ↦ ground (arith, latest-split lo hi h xs)
    | inr (z, f) ↦ ground (arith, latest-split lo hi h xs, latest-passes (up_to lo) xs z f)
  ]
  | inr (y, e) ↦ elim (Option-cases (latest (up_to lo) xs)) [
    | inl f ↦ ground (arith, latest-split lo hi h xs, latest-passes (between (some lo) hi) xs y e)
    | inr (z, f) ↦ ground (
      arith,
      latest-split lo hi h xs,
      latest-passes (between (some lo) hi) xs y e,
      latest-passes (up_to lo) xs z f,
    )
  ]
]

-- Restricting the times from below keeps the latest, or hides it.
abbrev pub at_least : ℤ → Option Sample → Option Sample
at_least lo none = none
at_least lo (some y) = if leb_ℤ lo y.0 then some y else none

pub latest-window :
    (lo hi : ℤ) (xs : List Sample)
    → latest (between_closed lo hi) xs ≡ at_least lo (latest (up_to hi) xs)
unfolding latest
latest-window lo hi [] = refl
latest-window lo hi (x ∷ xs) = elim (Option-cases (latest (up_to hi) xs)) [
  | inl e ↦ ground (arith, latest-window lo hi xs)
  | inr (y, e) ↦ ground (arith, latest-window lo hi xs, latest-passes (up_to hi) xs y e)
]
