-- ===== src/Aggregates/VectorSelector/Limits.antt =====
-- src/aggregates/vector_selector.rs: what `combine` makes of two states, and a range query whose bucket
-- width is zero.
use promscale_extension.Prelude.{
  ok_unique, ℕ, ◌*◌, ◌^◌, ◌≤◌, ◌≡◌, ◌↔◌, true, false, arith, err, ok, ◌>>=◌, length, le→not-ltb,
  divide_by_zero, Bool-cases, inl, inr, lt→ltb, ap, ap₂, sym, subst, ◌∙◌, refl, List, [], ◌∷◌,
  Option, none, some, ◌⊎◌, incompatible_vector_selectors,
}
use promscale_extension.Prelude.Int.{
  ℤ, pos, ◌-ℤ◌, leb_ℤ, ltb_ℤ, to_bits, ◌≤ℤ◌, ◌<ℤ◌, Within, eq_of_parts, eqb_ℤ, div, sub, mul,
}
use promscale_extension.Prelude.Int.Exact.{exact, mul-pos}
use promscale_extension.Aggregates.{F64, usecs_per_ms}
use promscale_extension.Aggregates.VectorSelector.{
  Sample, VectorSelector, combine, incompatible, newer, merge, new, buckets, empty_elements, insert,
  get_bucket, bucket_of_offset,
}

-- Two states that agree in all that describes the query, and have as many buckets.
pub record Agree (s other : VectorSelector) : Type 0 where
  pub first : s.first_bucket_max_time ≡ other.first_bucket_max_time
  pub last : s.last_bucket_max_time ≡ other.last_bucket_max_time
  pub end : s.end_time ≡ other.end_time
  pub width : s.bucket_width ≡ other.bucket_width
  pub lookback : s.lookback ≡ other.lookback
  pub size : length s.elements ≡ length other.elements

eq_of_eqb : (a b : ℤ) → eqb_ℤ a b ≡ true → a ≡ b
eq_of_eqb a b h = ground (arith, eq_of_parts a b)

eqb_of_eq : (a b : ℤ) → a ≡ b → eqb_ℤ a b ≡ true
eqb_of_eq a b h = rw h (ground arith)

compatible-Agree : (s other : VectorSelector) → incompatible s other ≡ false → Agree s other
unfolding incompatible
compatible-Agree s other h = record {
  first = eq_of_eqb _ _ (ground arith);
  last = eq_of_eqb _ _ (ground arith);
  end = eq_of_eqb _ _ (ground arith);
  width = eq_of_eqb _ _ (ground arith);
  lookback = eq_of_eqb _ _ (ground arith);
  size = ground arith;
}

Agree-compatible : (s other : VectorSelector) → Agree s other → incompatible s other ≡ false
unfolding incompatible
Agree-compatible s other a =
    rw
      (
        eqb_of_eq _ _ a.first,
        eqb_of_eq _ _ a.last,
        eqb_of_eq _ _ a.end,
        eqb_of_eq _ _ a.width,
        eqb_of_eq _ _ a.lookback,
      )
      (ground (arith, a.size))

-- The later of two samples in a bucket; of two at one time, the first.
abbrev pub LaterOf : Option Sample → Option Sample → Option Sample → Type 0
LaterOf none none z = z ≡ none
LaterOf none (some y) z = z ≡ some y
LaterOf (some x) none z = z ≡ some x
LaterOf (some x) (some y) z = ((y.0 ≤ℤ x.0) × (z ≡ some x)) ⊎ ((x.0 <ℤ y.0) × (z ≡ some y))

-- Bucket by bucket.
abbrev pub AllLater : List (Option Sample) → List (Option Sample) → List (Option Sample) → Type 0
AllLater [] [] [] = Unit
AllLater (a ∷ xs) (b ∷ ys) (z ∷ zs) = LaterOf a b z × AllLater xs ys zs
AllLater _ _ _ = ⊥

newer-LaterOf : (a b : Option Sample) → LaterOf a b (newer a b)
newer-LaterOf none none = refl
newer-LaterOf none (some y) = refl
newer-LaterOf (some x) none = refl
newer-LaterOf (some x) (some y) = elim (Bool-cases (ltb_ℤ x.0 y.0)) [
  | inl e ↦ inr (ground arith, rw e refl)
  | inr e ↦ inl (ground arith, rw e refl)
]

LaterOf-newer : (a b z : Option Sample) → LaterOf a b z → z ≡ newer a b
LaterOf-newer none none z h = h
LaterOf-newer none (some y) z h = h
LaterOf-newer (some x) none z h = h
LaterOf-newer (some x) (some y) z (inl (h, e)) = rw (le→not-ltb _ _ h) e
LaterOf-newer (some x) (some y) z (inr (h, e)) = rw (lt→ltb _ _ h) e

merge-AllLater :
    (xs ys : List (Option Sample)) → length xs ≡ length ys → AllLater xs ys (merge xs ys)
unfolding merge
merge-AllLater [] [] h = tt
merge-AllLater [] (b ∷ ys) h = absurd (omega arith)
merge-AllLater (a ∷ xs) [] h = absurd (omega arith)
merge-AllLater (a ∷ xs) (b ∷ ys) h = (newer-LaterOf a b, merge-AllLater xs ys (omega arith))

AllLater-merge : (xs ys zs : List (Option Sample)) → AllLater xs ys zs → zs ≡ merge xs ys
unfolding merge
AllLater-merge [] [] [] h = refl
AllLater-merge [] [] (z ∷ zs) h = absurd h
AllLater-merge [] (b ∷ ys) zs h = absurd h
AllLater-merge (a ∷ xs) [] zs h = absurd h
AllLater-merge (a ∷ xs) (b ∷ ys) [] h = absurd h
AllLater-merge (a ∷ xs) (b ∷ ys) (z ∷ zs) (h, hs) =
    ap₂ ◌∷◌ (LaterOf-newer a b z h) (AllLater-merge xs ys zs hs)

-- `combine` fails exactly on states that do not agree in what describes the query or in the number
-- of buckets, and on states that agree it keeps the query of the first and puts into each bucket
-- the later of the two samples, the first state's where both are taken at one time.
pub combine-outcome :
    (s other t : VectorSelector)
    → ((combine s other ≡ ok t) ↔ (
        Agree s other
        × (t ≡ record s { elements = t.elements })
        × AllLater s.elements other.elements t.elements))
      × ((combine s other ≡ err incompatible_vector_selectors) ↔ (¬ Agree s other))
unfolding combine
combine-outcome s other t = elim (Bool-cases (incompatible s other)) [
  | inl e ↦
      let differ : ¬ Agree s other =
        λ a. let clash : true ≡ false = sym e ∙ Agree-compatible s other a in absurd (cc) in
      rw e ((λ h. absurd (cc), λ (a, kept, later). absurd (differ a)), (λ h. differ, λ h. refl))
  | inr e ↦
      let a = compatible-Agree s other e in
      let merged = record s { elements = merge s.elements other.elements } in
      rw e (
        (
          λ h.
              let same : merged ≡ t = ok_unique merged t h in
              (
                a,
                subst (λ t. t ≡ record s { elements = t.elements }) same refl,
                subst (λ t. AllLater s.elements other.elements t.elements) same
                    (merge-AllLater s.elements other.elements a.size),
              ),
          λ (a, kept, later). sym (
              ap ok (
                kept
                ∙ ap (λ l. record s { elements = l })
                    (AllLater-merge s.elements other.elements t.elements later))),
        ),
        (λ h. absurd (cc), λ h. absurd (h a)),
      )
]

-- With a bucket width of zero, a sample after the start and up to the end of the range makes
-- `insert` into a new state divide by zero; the bounds keep the lookback window from wrapping.
pub insert-zero_width :
    (start_time end_time : ℤ) (lookback : ℕ) (t : ℤ) (val : F64)
    → start_time <ℤ t
    → t ≤ℤ end_time
    → Within (2 ^ 61) start_time
    → lookback * 1000 ≤ 2 ^ 61
    → (new start_time end_time (pos 0) (pos lookback) >>= λ s. insert s t val) ≡ err divide_by_zero
unfolding new buckets empty_elements insert get_bucket bucket_of_offset to_bits div
insert-zero_width start_time end_time lookback t val lo hi s l =
    let start : sub start_time (mul (pos lookback) usecs_per_ms)
        ≡ start_time -ℤ pos (lookback * 1000) =
      rw (mul-pos lookback 1000 (omega arith)) (omega exact) in
    let in_window : start_time -ℤ pos (lookback * 1000) ≤ℤ t = omega exact in
    let no_width : mul (pos 0) usecs_per_ms ≡ pos 0 = mul-pos 0 1000 (omega arith) in
    rw (le→not-ltb _ _ hi, start, le→not-ltb _ _ in_window, late, no_width)
  where
    late : leb_ℤ t start_time ≡ false
    late = ground arith
