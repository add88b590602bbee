-- ===== src/Aggregates/VectorSelector/Refine.antt =====
-- The operations of src/aggregates/vector_selector.rs against the list of samples that went in:
-- the state after the samples `xs` is `selector q xs`.
use promscale_extension.Prelude.{
  ℕ, suc, ◌+◌, ◌*◌, ◌<◌, ◌≡◌, refl, sym, ap, ◌∙◌, true, false, Option, none, some, List, [], ◌∷◌,
  ◌++◌, arith, Bool-cases, inl, inr, ok, err, get_elem?, get_elem?-of_lt, set, le→not-ltb, lt→ltb,
  ltb→lt, not-ltb→le, input_time_greater_than_expected, input_time_less_than_expected,
}
use promscale_extension.Prelude.Int.{ℤ, pos, pos_part, neg_part, ◌-ℤ◌, ◌≤ℤ◌, ◌<ℤ◌, ltb_ℤ, eqb_ℤ}
use promscale_extension.Prelude.Int.Exact.{exact, +ℤ_parts}
use promscale_extension.Aggregates.{F64}
use promscale_extension.Aggregates.VectorSelector.{
  Sample, merge, combine, incompatible, insert, insert_at, get_bucket, results, replace_older,
}
use promscale_extension.Aggregates.VectorSelector.Buckets.{
  Placed, bucket_list, length-bucket_list, merge-bucket_list, merge-one, merge-nones,
  bucket_list-late,
}
use promscale_extension.Aggregates.VectorSelector.Instant.{instants, results_loop-instants}
use promscale_extension.Aggregates.VectorSelector.Query.{
  Query, IsValid, width, steps, last_time, selector, InRange,
}
use promscale_extension.Aggregates.VectorSelector.Place.{
  get_bucket-Placed, steps_facts, span_parts, earliest,
}

-- The buckets of a query, for the samples `xs`.
abbrev elements : Query → List Sample → List (Option Sample)
elements q xs = bucket_list none q.start_time (width q) (suc (steps q)) xs

elements-append :
    (q : Query) (xs : List Sample) (x : Sample) (i : ℕ) (e : Option Sample)
    → Placed q.start_time (width q) i x.0
    → get_elem? (elements q xs) i ≡ some e
    → set (elements q xs) i (replace_older e x) ≡ elements q (xs ++ x ∷ [])
elements-append q xs x i e p g =
    sym (merge-one none q.start_time (width q) i (elements q xs) x e refl p g)
    ∙ ap (λ n. merge (elements q xs) (bucket_list none q.start_time (width q) n (x ∷ [])))
        (length-bucket_list none q.start_time (width q) (suc (steps q)) xs)
    ∙ merge-bucket_list none q.start_time (width q) (suc (steps q)) xs (x ∷ [])

insert_at-selector :
    (q : Query) (xs : List Sample) (x : Sample) (i : ℕ)
    → Placed q.start_time (width q) i x.0
    → i < suc (steps q)
    → insert_at (selector q xs) i x ≡ ok (selector q (xs ++ x ∷ []))
unfolding insert_at
insert_at-selector q xs x i p h =
    let (e, g) = get_elem?-of_lt (elements q xs) i (rw length-bucket_list h) in
    rw (g, insert_at)
      (ap (λ els. ok (record (selector q xs) { elements = els })) (elements-append q xs x i e p g))

elements-late :
    (q : Query) (xs : List Sample) (x : Sample)
    → last_time q <ℤ x.0
    → elements q xs ≡ elements q (xs ++ x ∷ [])
elements-late q xs x h =
    sym (merge-nones (elements q xs) (suc (steps q)))
    ∙ ap (merge (elements q xs)) (sym (bucket_list-late none q.start_time (width q) (steps q) x h))
    ∙ merge-bucket_list none q.start_time (width q) (suc (steps q)) xs (x ∷ [])

eqb_refl : (a : ℤ) → eqb_ℤ a a ≡ true
eqb_refl a = ground arith

incompatible-selector :
    (q : Query) (xs ys : List Sample) → incompatible (selector q xs) (selector q ys) ≡ false
unfolding incompatible
incompatible-selector q xs ys =
    rw
      (
        eqb_refl,
        eqb_refl (last_time q),
        eqb_refl q.end_time,
        eqb_refl (pos q.bucket_width),
        eqb_refl (pos q.lookback),
        length-bucket_list none q.start_time (width q) (suc (steps q)) xs,
        length-bucket_list none q.start_time (width q) (suc (steps q)) ys,
      )
      (ground arith)

module _ (q : Query) (v : IsValid q) where
  -- `insert` takes every sample of the query's range, and adds it to the state's samples.
  pub insert-selector :
      (xs : List Sample) (t : ℤ) (val : F64)
      → InRange q t
      → insert (selector q xs) t val ≡ ok (selector q (xs ++ (t, val) ∷ []))
  unfolding insert
  insert-selector xs t val r = elim (Bool-cases (ltb_ℤ (last_time q) t)) [
    | inl e ↦
        rw (le→not-ltb _ _ r.1, e)
          (ap (λ els. ok (record (selector q xs) { elements = els }))
            (elements-late q xs (t, val) (ltb→lt _ _ e)))
    | inr e ↦
        let (i, found, place, small) = get_bucket-Placed q v xs t r (not-ltb→le _ _ e) in
        rw (le→not-ltb _ _ r.1, e, found) (insert_at-selector q xs (t, val) i place small)
  ]

  -- In a state of a valid query, a sample after the end of the query's range is an error.
  pub insert-too_late :
      (xs : List Sample) (t : ℤ) (val : F64)
      → q.end_time <ℤ t
      → insert (selector q xs) t val ≡ err input_time_greater_than_expected
  unfolding insert
  insert-too_late xs t val h = rw (lt→ltb _ _ h)

  -- In a state of a valid query, a sample before the lookback window of the first reference time is
  -- an error.
  pub insert-too_early :
      (xs : List Sample) (t : ℤ) (val : F64)
      → pos_part t + neg_part q.start_time + q.lookback * 1000 < pos_part q.start_time + neg_part t
      → insert (selector q xs) t val ≡ err input_time_less_than_expected
  unfolding insert get_bucket
  insert-too_early xs t val h =
      let in_time : t ≤ℤ q.end_time = omega arith in
      let in_buckets : t ≤ℤ last_time q = omega (arith, +ℤ_parts) in
      let early : t <ℤ q.start_time -ℤ pos (q.lookback * 1000) = omega exact in
      rw (le→not-ltb _ _ in_time, le→not-ltb _ _ in_buckets, earliest q v, lt→ltb _ _ early)

  -- `combine` of two states is the state of the samples of both.
  pub combine-selector :
      (xs ys : List Sample) → combine (selector q xs) (selector q ys) ≡ ok (selector q (xs ++ ys))
  unfolding combine
  combine-selector xs ys = rw (incompatible-selector q xs ys) (
      ap (λ els. ok (record (selector q xs) { elements = els }))
        (merge-bucket_list none q.start_time (width q) (suc (steps q)) xs ys))

  -- `results` are the instant vectors at the reference times.
  pub results-selector :
      (xs : List Sample)
      → results (selector q xs)
        ≡ instants (q.lookback * 1000) (width q) (suc (steps q)) q.start_time xs
  unfolding results
  results-selector xs =
      let (whole, few) = steps_facts q v in
      results_loop-instants q.bucket_width q.lookback (suc (steps q)) none q.start_time xs tt
        v.width_in v.lookback_in (omega arith) (omega (arith, span_parts q v))
