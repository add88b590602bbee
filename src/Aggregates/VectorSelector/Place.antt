-- ===== src/Aggregates/VectorSelector/Place.antt =====
-- `new` and `get_bucket` of src/aggregates/vector_selector.rs on a valid query.
use promscale_extension.Prelude.{
  ℕ, zero, suc, ◌+◌, ◌*◌, ◌/◌, ◌%◌, ◌^◌, ◌<◌, ◌≤◌, ◌≡◌, refl, ap, ◌∙◌, true, false, none, List, [],
  arith, ◌==◌, le→not-ltb, if◌then◌else◌, Bool-cases, inl, inr, ok, replicate,
}
use promscale_extension.Prelude.Int.{
  ℤ, pos, pos_part, neg_part, ◌+ℤ◌, ◌-ℤ◌, ◌≤ℤ◌, ◌<ℤ◌, add, sub, mul, to_bits, eqb_ℤ, leb_ℤ, ltb_ℤ,
}
use promscale_extension.Prelude.Int.Exact.{
  exact, divided, lt_of_mul-lt, nonneg_difference, +ℤ_parts, -ℤ_parts, mul-pos, div-pos, rem-pos,
}
use promscale_extension.Aggregates.{usecs_per_ms}
use promscale_extension.Aggregates.VectorSelector.{
  Sample, buckets, new, empty_elements, bucket_of_offset, get_bucket,
}
use promscale_extension.Aggregates.VectorSelector.Buckets.{Placed, bucket_list, bucket_list-nil}
use promscale_extension.Aggregates.VectorSelector.Query.{
  Query, IsValid, width, span, steps, last_time, selector, InRange,
}

-- The quotient of an exact division by its predecessor.
exact_quotient :
    (q w d : ℕ) → d ≡ q * w → 0 < d → (i : ℕ) × (q ≡ suc i) × (i * w < d) × (d ≤ suc i * w)
exact_quotient zero w d e h = absurd (omega arith)
exact_quotient (suc i) w d e h = (i, refl, grind arith, omega arith)

round_up-exact : (q : ℕ) → q ≤ 2 ^ 62 → to_bits (sub (add (pos q) (pos 1)) (pos 1)) ≡ q
unfolding to_bits
round_up-exact q h =
    let same : sub (add (pos q) (pos 1)) (pos 1) ≡ pos q = omega exact in rw same (omega arith)

round_up : (q : ℕ) → q ≤ 2 ^ 62 → to_bits (add (pos q) (pos 1)) ≡ suc q
unfolding to_bits
round_up q h = let same : add (pos q) (pos 1) ≡ pos (suc q) = omega exact in rw same (omega arith)

-- The bucket of a positive offset: it ends at or after the offset, and the one before it does not.
pub bucket_of_offset-pos :
    (d w : ℕ)
    → 0 < w
    → 0 < d
    → d ≤ 2 ^ 62
    → (i : ℕ) × (bucket_of_offset (pos d) (pos w) ≡ ok (suc i)) × (i * w < d) × (d ≤ suc i * w)
unfolding bucket_of_offset
bucket_of_offset-pos d w hw hd hb =
    let (whole, small, le) = divided d w hw in
    elim (Bool-cases (d % w == 0)) [
      | inl e ↦
          let (i, q, lo, hi) = exact_quotient (d / w) w d (ground arith) hd in
          (i, rw (div-pos d w hw, rem-pos d w hw) (ground (arith, round_up-exact (d / w))), lo, hi)
      | inr e ↦ (
        d / w,
        rw (div-pos d w hw, rem-pos d w hw) (ground (arith, round_up (d / w))),
        ground arith,
        omega arith,
      )
    ]

-- So many buckets can be allocated.
elements_fit : (n : ℕ) → n < 2 ^ 54 → empty_elements (to_bits (pos n)) ≡ ok (replicate n none)
unfolding empty_elements to_bits
elements_fit n h = let word : n % 2 ^ 64 ≡ n = omega arith in rw word (ground arith)

suc_lt : (i m : ℕ) → i < m → suc i < suc m
suc_lt i m h = omega arith

module _ (q : Query) (v : IsValid q) where
  pub span_lem : q.end_time -ℤ q.start_time ≡ pos (span q)
  span_lem = nonneg_difference q.end_time q.start_time v.ordered

  -- The difference of the two ends, by their parts.
  pub span_parts :
      pos_part q.end_time + neg_part q.start_time
      ≡ span q + pos_part q.start_time + neg_part q.end_time
  span_parts =
      omega (arith, -ℤ_parts q.end_time q.start_time, ap pos_part span_lem, ap neg_part span_lem)

  pub steps_facts : (steps q * width q ≤ span q) × (steps q * 1000 ≤ span q)
  steps_facts = elim (Bool-cases (q.bucket_width == 0)) [
    | inl e ↦ rw e (omega arith)
    | inr e ↦
        let positive : 0 < q.bucket_width = ground arith in
        let (whole, small, le) = divided (span q) (width q) (omega arith) in
        rw e (omega arith, grind arith)
  ]

  buckets-valid :
      buckets q.start_time q.end_time (pos q.bucket_width) ≡ ok (pos (suc (steps q)), last_time q)
  unfolding buckets
  buckets-valid = elim (Bool-cases (q.bucket_width == 0)) [
    | inl e ↦
        let test : eqb_ℤ (pos q.bucket_width) (pos 0) ≡ true = ground arith in
        let no_width : q.bucket_width ≡ 0 = ground arith in
        let last : q.end_time ≡ q.start_time +ℤ pos (0 * width q) = omega exact in
        rw (test, e) (ap (λ t. ok (pos 1, t)) last)
    | inr e ↦
        let test : eqb_ℤ (pos q.bucket_width) (pos 0) ≡ false = ground arith in
        let positive : 0 < q.bucket_width = ground arith in
        let (whole, small, le) = divided (span q) (width q) (omega arith) in
        let difference : sub q.end_time q.start_time ≡ pos (span q) = omega (exact, span_parts) in
        let count : add (pos (span q / width q)) (pos 1) ≡ pos (suc (span q / width q)) =
          omega (exact, span_parts) in
        let last : sub q.end_time (pos (span q % width q))
            ≡ q.start_time +ℤ pos (span q / width q * width q) =
          omega (exact, span_parts) in
        rw (
          test,
          e,
          difference,
          mul-pos q.bucket_width 1000 (omega arith),
          div-pos (span q) (width q) (omega arith),
          rem-pos (span q) (width q) (omega arith),
          count,
          last,
        )
  ]

  empty_elements-valid :
      empty_elements (to_bits (pos (suc (steps q))))
      ≡ ok (bucket_list none q.start_time (width q) (suc (steps q)) [])
  empty_elements-valid =
      let (whole, few) = steps_facts in
      let small : steps q < 2 ^ 53 = omega (arith, span_parts) in
      rw (bucket_list-nil none q.start_time (width q) (suc (steps q)))
        (elements_fit (suc (steps q)) (omega arith))

  -- The constructor, on a valid query, makes the state of no samples.
  pub new-selector :
      new q.start_time q.end_time (pos q.bucket_width) (pos q.lookback) ≡ ok (selector q [])
  unfolding new
  new-selector = rw (buckets-valid, empty_elements-valid)

  pub earliest :
      sub q.start_time (mul (pos q.lookback) usecs_per_ms) ≡ q.start_time -ℤ pos (q.lookback * 1000)
  earliest = rw (mul-pos q.lookback 1000 (omega arith)) (omega exact)

  -- The guards of `get_bucket` let a sample of the query pass.
  get_bucket-guards :
      (xs : List Sample) (t : ℤ)
      → InRange q t
      → t ≤ℤ last_time q
      → get_bucket (selector q xs) t ≡ (
          if leb_ℤ t q.start_time
          then ok 0
          else bucket_of_offset (sub t q.start_time) (mul (pos q.bucket_width) usecs_per_ms))
  unfolding get_bucket
  get_bucket-guards xs t r h = rw (low, le→not-ltb _ _ h)
    where
      low : ltb_ℤ t (sub q.start_time (mul (pos q.lookback) usecs_per_ms)) ≡ false
      low = rw earliest (le→not-ltb _ _ (omega exact))

  positive_width : (t : ℤ) → t ≤ℤ last_time q → q.start_time <ℤ t → 0 < q.bucket_width
  positive_width t h late = elim (Bool-cases (q.bucket_width == 0)) [
    | inl e ↦
        let no_width : q.bucket_width ≡ 0 = ground arith in
        let none' : steps q * width q ≡ 0 = rw e (omega arith) in absurd (omega (arith, +ℤ_parts))
    | inr e ↦ ground arith
  ]

  -- In a state of a valid query, every sample in range up to the last reference time has a bucket
  -- that exists, and it is the first one that ends at or after the sample.
  pub get_bucket-Placed :
      (xs : List Sample) (t : ℤ)
      → InRange q t
      → t ≤ℤ last_time q
      → (i : ℕ) × (get_bucket (selector q xs) t ≡ ok i)
        × Placed q.start_time (width q) i t
        × (i < suc (steps q))
  get_bucket-Placed xs t r h = elim (Bool-cases (leb_ℤ t q.start_time)) [
    | inl e ↦ (0, get_bucket-guards xs t r h ∙ rw e, ground arith, omega arith)
    | inr e ↦
        let late : q.start_time <ℤ t = ground arith in
        let wide : 0 < q.bucket_width = positive_width t h late in
        let d : ℕ = pos_part (t -ℤ q.start_time) in
        let offset : t -ℤ q.start_time ≡ pos d = nonneg_difference t q.start_time (omega arith) in
        let parts : pos_part t + neg_part q.start_time ≡ d + pos_part q.start_time + neg_part t =
          omega (arith, -ℤ_parts t q.start_time, ap pos_part offset, ap neg_part offset) in
        let exact_offset : sub t q.start_time ≡ pos d = omega exact in
        let (i, found, lo, hi) =
          bucket_of_offset-pos d (width q) (omega arith) (omega arith) (omega arith) in
        let inside : d ≤ steps q * width q = omega (arith, +ℤ_parts) in
        (
          suc i,
          get_bucket-guards xs t r h
              ∙ rw (e, exact_offset, mul-pos q.bucket_width 1000 (omega arith)) found,
          (omega (arith, +ℤ_parts), omega (arith, +ℤ_parts)),
          suc_lt i (steps q) (lt_of_mul-lt i (steps q) (width q) (omega arith)),
        )
  ]
