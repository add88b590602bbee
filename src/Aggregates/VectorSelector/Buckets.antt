-- ===== src/Aggregates/VectorSelector/Buckets.antt =====
-- The buckets of the `vector_selector` aggregate as a function of the samples that went in:
-- bucket 0 takes the times up to `ts`, and each later one the next `w` microseconds.
use promscale_extension.Prelude.{
  ℕ, zero, suc, ◌*◌, ◌≡◌, refl, ap, ap₂, ◌∙◌, true, false, Option, none, some, List, [], ◌∷◌, ◌++◌,
  arith, length, get_elem?, set, replicate, lt→ltb,
}
use promscale_extension.Prelude.Int.{ℤ, pos, ◌+ℤ◌, ◌≤ℤ◌, ◌<ℤ◌}
use promscale_extension.Prelude.Int.Exact.{+ℤ_parts}
use promscale_extension.Aggregates.VectorSelector.{Sample, newer, merge, replace_older}
use promscale_extension.Aggregates.VectorSelector.Latest.{
  latest, latest-append, between, after, newer-none,
}

unfoldable pub bucket_list : Option ℤ → ℤ → ℕ → ℕ → List Sample → List (Option Sample)
bucket_list lo ts w zero xs = []
bucket_list lo ts w (suc n) xs =
    latest (between lo ts) xs ∷ bucket_list (some ts) (ts +ℤ pos w) w n xs

pub length-bucket_list :
    (lo : Option ℤ) (ts : ℤ) (w n : ℕ) (xs : List Sample) → length (bucket_list lo ts w n xs) ≡ n
unfolding bucket_list
length-bucket_list lo ts w zero xs = refl
length-bucket_list lo ts w (suc n) xs = ap suc (length-bucket_list (some ts) (ts +ℤ pos w) w n xs)

pub bucket_list-nil :
    (lo : Option ℤ) (ts : ℤ) (w n : ℕ) → bucket_list lo ts w n [] ≡ replicate n none
unfolding bucket_list latest
bucket_list-nil lo ts w zero = refl
bucket_list-nil lo ts w (suc n) = ap (◌∷◌ none) (bucket_list-nil (some ts) (ts +ℤ pos w) w n)

-- Merging the buckets of two lists of samples gives the buckets of the two together.
pub merge-bucket_list :
    (lo : Option ℤ) (ts : ℤ) (w n : ℕ) (xs ys : List Sample)
    → merge (bucket_list lo ts w n xs) (bucket_list lo ts w n ys) ≡ bucket_list lo ts w n (xs ++ ys)
unfolding bucket_list merge
merge-bucket_list lo ts w zero xs ys = refl
merge-bucket_list lo ts w (suc n) xs ys =
    rw (latest-append (between lo ts) xs ys, merge-bucket_list (some ts) (ts +ℤ pos w) w n xs ys)

pub merge-nones : (els : List (Option Sample)) (n : ℕ) → merge els (replicate n none) ≡ els
unfolding merge
merge-nones [] n = refl
merge-nones (e ∷ els) zero = refl
merge-nones (e ∷ els) (suc n) = ap₂ ◌∷◌ (newer-none e) (merge-nones els n)

one_sample-none :
    (lo : Option ℤ) (ts : ℤ) (x : Sample)
    → between lo ts x.0 ≡ false
    → latest (between lo ts) (x ∷ []) ≡ none
unfolding latest
one_sample-none lo ts x h = rw h

one_sample-some :
    (lo : Option ℤ) (ts : ℤ) (x : Sample)
    → between lo ts x.0 ≡ true
    → latest (between lo ts) (x ∷ []) ≡ some x
unfolding latest
one_sample-some lo ts x h = rw h

-- A sample that is no later than the lower bound is in no bucket.
bucket_list-early :
    (lo ts : ℤ) (w n : ℕ) (x : Sample)
    → x.0 ≤ℤ lo
    → lo ≤ℤ ts
    → bucket_list (some lo) ts w n (x ∷ []) ≡ replicate n none
unfolding bucket_list
bucket_list-early lo ts w zero x h k = refl
bucket_list-early lo ts w (suc n) x h k =
    ap₂ ◌∷◌ (one_sample-none (some lo) ts x (ground arith))
      (bucket_list-early ts (ts +ℤ pos w) w n x (omega arith) (omega (arith, +ℤ_parts)))

-- The bucket `i` of those that start at `ts` holds the time `t`.
abbrev pub Placed : ℤ → ℕ → ℕ → ℤ → Type 0
Placed ts w zero t = t ≤ℤ ts
Placed ts w (suc i) t = (ts +ℤ pos (i * w) <ℤ t) × (t ≤ℤ ts +ℤ pos (suc i * w))

replace_older-newer : (e : Option Sample) (x : Sample) → newer e (some x) ≡ replace_older e x
replace_older-newer none x = refl
replace_older-newer (some e) x = refl

between_of_le : (lo : Option ℤ) (hi t : ℤ) → after lo t ≡ true → t ≤ℤ hi → between lo hi t ≡ true
between_of_le lo hi t a h = ground arith

not-between_of_lt : (lo : Option ℤ) (hi t : ℤ) → hi <ℤ t → between lo hi t ≡ false
not-between_of_lt none hi t h = ground arith
not-between_of_lt (some lo) hi t h = ground arith

one_sample-merge :
    (lo : Option ℤ) (ts : ℤ) (d : Option Sample) (x : Sample)
    → between lo ts x.0 ≡ true
    → newer d (latest (between lo ts) (x ∷ [])) ≡ replace_older d x
one_sample-merge lo ts d x h = ap (newer d) (one_sample-some lo ts x h) ∙ replace_older-newer d x

Placed-shift : (ts : ℤ) (w i : ℕ) (t : ℤ) → Placed ts w (suc i) t → Placed (ts +ℤ pos w) w i t
Placed-shift ts w zero t p = omega (arith, +ℤ_parts)
Placed-shift ts w (suc i) t p = omega (arith, +ℤ_parts)

-- To write one sample into its bucket is to merge the buckets of that sample alone.
pub merge-one :
    (lo : Option ℤ) (ts : ℤ) (w i : ℕ) (els : List (Option Sample)) (x : Sample) (e : Option Sample)
    → after lo x.0 ≡ true
    → Placed ts w i x.0
    → get_elem? els i ≡ some e
    → merge els (bucket_list lo ts w (length els) (x ∷ [])) ≡ set els i (replace_older e x)
unfolding merge bucket_list
merge-one lo ts w i [] x e a p g = cc
merge-one lo ts w zero (d ∷ els) x e a p g =
    let same : d ≡ e = cc in
    ap₂ ◌∷◌
      (one_sample-merge lo ts d x (between_of_le lo ts x.0 a p) ∙ ap (λ o. replace_older o x) same)
      (rw (bucket_list-early ts (ts +ℤ pos w) w (length els) x p (omega (arith, +ℤ_parts)))
        (merge-nones els _))
merge-one lo ts w (suc i) (d ∷ els) x e a p g =
    let late : ts <ℤ x.0 = omega (arith, +ℤ_parts) in
    ap₂ ◌∷◌
      (ap (newer d) (one_sample-none lo ts x (not-between_of_lt lo ts x.0 late)) ∙ newer-none d)
      (merge-one (some ts) (ts +ℤ pos w) w i els x e (lt→ltb _ _ late) (Placed-shift ts w i x.0 p)
        g)

-- A sample after the last reference time is in no bucket.
pub bucket_list-late :
    (lo : Option ℤ) (ts : ℤ) (w n : ℕ) (x : Sample)
    → ts +ℤ pos (n * w) <ℤ x.0
    → bucket_list lo ts w (suc n) (x ∷ []) ≡ replicate (suc n) none
unfolding bucket_list
bucket_list-late lo ts w zero x h =
    ap (λ o. o ∷ [])
      (one_sample-none lo ts x (not-between_of_lt lo ts x.0 (omega (arith, +ℤ_parts))))
bucket_list-late lo ts w (suc n) x h =
    ap₂ ◌∷◌ (one_sample-none lo ts x (not-between_of_lt lo ts x.0 (omega (arith, +ℤ_parts))))
      (bucket_list-late (some ts) (ts +ℤ pos w) w n x (omega (arith, +ℤ_parts)))
