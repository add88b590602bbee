-- ===== src/Aggregates/VectorSelector.antt =====
-- src/aggregates/vector_selector.rs: the state of the `vector_selector` aggregate and its methods.
-- A method that mutates `self` returns the new state, or the fault that it raises.
pub mod Latest
pub mod Buckets
pub mod Instant
pub mod Query
pub mod Place
pub mod Refine
pub mod Outcome
pub mod Entry
pub mod Runs
pub mod Order
pub mod Plans
pub mod Limits
pub mod Parallel
mod OwnTests
mod Tests
use promscale_extension.Prelude.{
  ℕ, ◌*◌, ◌-◌, ◌^◌, Bool, not, ◌&&◌, ◌||◌, Option, none, some, List, [], ◌∷◌, ltb, ◌==◌,
  if◌then◌else◌, length, get_elem?, set, replicate, Result, ok, err, ◌>>=◌, capacity_overflow,
  index_out_of_bounds, input_time_greater_than_expected, input_time_less_than_expected,
  input_time_greater_than_last_bucket, incompatible_vector_selectors,
}
use promscale_extension.Prelude.Int.{ℤ, pos, ltb_ℤ, leb_ℤ, eqb_ℤ, to_bits, add, sub, mul, div, rem}
use promscale_extension.Aggregates.{Milliseconds, F64, stale_nan, usecs_per_ms}

-- A sample, `(i64, f64)`.
abbrev pub Sample : Type 0
Sample = ℤ × F64

pub record VectorSelector : Type 0 where
  pub first_bucket_max_time : ℤ
  pub last_bucket_max_time : ℤ
  pub end_time : ℤ
  pub bucket_width : Milliseconds
  pub lookback : Milliseconds
  pub elements : List (Option Sample)

-- `vec![None; n]`: an element takes 24 bytes, and an allocation over `isize::MAX` bytes panics.
unfoldable pub empty_elements : ℕ → Result (List (Option Sample))
empty_elements n =
    if ltb (2 ^ 63 - 1) (n * 24) then err capacity_overflow else ok (replicate n none)

-- The number of buckets, and the time of the last.
unfoldable pub buckets : ℤ → ℤ → Milliseconds → Result (ℤ × ℤ)
buckets start_time end_time bucket_width =
    if eqb_ℤ bucket_width (pos 0) then ok (pos 1, end_time) else do
      quotient ← div (sub end_time start_time) (mul bucket_width usecs_per_ms)
      let num_buckets = add quotient (pos 1)
      remainder ← rem (sub end_time start_time) (mul bucket_width usecs_per_ms)
      let max_time = sub end_time remainder
      ok (num_buckets, max_time)

unfoldable pub new : ℤ → ℤ → Milliseconds → Milliseconds → Result VectorSelector
new start_time end_time bucket_width lookback = do
  (num_buckets, last_bucket_max_time) ← buckets start_time end_time bucket_width
  elements ← empty_elements (to_bits num_buckets)
  ok (record {
    first_bucket_max_time = start_time;
    last_bucket_max_time = last_bucket_max_time;
    end_time = end_time;
    bucket_width = bucket_width;
    lookback = lookback;
    elements = elements;
  })

-- What the loop of `combine` leaves in a bucket of `self` that meets a bucket of `other`.
abbrev pub newer : Option Sample → Option Sample → Option Sample
newer none other = other
newer (some mine) none = some mine
newer (some (my_t, my_v)) (some (other_t, other_v)) =
    if ltb_ℤ my_t other_t then some (other_t, other_v) else some (my_t, my_v)

-- `self.elements.iter_mut().zip(other.elements.iter())`: a rest of `self` stays as it is.
unfoldable pub merge : List (Option Sample) → List (Option Sample) → List (Option Sample)
merge [] others = []
merge (s ∷ elements) [] = s ∷ elements
merge (s ∷ elements) (o ∷ others) = newer s o ∷ merge elements others

unfoldable pub incompatible : VectorSelector → VectorSelector → Bool
incompatible s other =
    not (eqb_ℤ s.first_bucket_max_time other.first_bucket_max_time)
    || not (eqb_ℤ s.last_bucket_max_time other.last_bucket_max_time)
    || not (eqb_ℤ s.end_time other.end_time)
    || not (eqb_ℤ s.bucket_width other.bucket_width)
    || not (eqb_ℤ s.lookback other.lookback)
    || not (length s.elements == length other.elements)

unfoldable pub combine : VectorSelector → VectorSelector → Result VectorSelector
combine s other =
    if incompatible s other
    then err incompatible_vector_selectors
    else ok (record s { elements = merge s.elements other.elements })

-- The bucket of an offset from the first bucket, as `usize`.
unfoldable pub bucket_of_offset : ℤ → ℤ → Result ℕ
bucket_of_offset offset width = do
  quotient ← div offset width
  let bucket = add quotient (pos 1)
  remainder ← rem offset width
  ok (to_bits (if eqb_ℤ remainder (pos 0) then sub bucket (pos 1) else bucket))

unfoldable pub get_bucket : VectorSelector → ℤ → Result ℕ
get_bucket s time =
    if ltb_ℤ time (sub s.first_bucket_max_time (mul s.lookback usecs_per_ms))
    then err input_time_less_than_expected
    else if ltb_ℤ s.last_bucket_max_time time
    then err input_time_greater_than_last_bucket
    else if leb_ℤ time s.first_bucket_max_time
    then ok 0
    else bucket_of_offset (sub time s.first_bucket_max_time) (mul s.bucket_width usecs_per_ms)

-- The `match` of `insert` on what the bucket holds.
abbrev pub replace_older : Option Sample → Sample → Option Sample
replace_older none (time, val) = some (time, val)
replace_older (some (existing_time, existing)) (time, val) =
    if ltb_ℤ existing_time time then some (time, val) else some (existing_time, existing)

unfoldable pub insert_at : VectorSelector → ℕ → Sample → Result VectorSelector
insert_at s bucket_idx sample = elim (get_elem? s.elements bucket_idx) [
  | none ↦ err index_out_of_bounds
  | some contents ↦
      ok (record s { elements = set s.elements bucket_idx (replace_older contents sample) })
]

unfoldable pub insert : VectorSelector → ℤ → F64 → Result VectorSelector
insert s time val =
    if ltb_ℤ s.end_time time
    then err input_time_greater_than_expected
    else if ltb_ℤ s.last_bucket_max_time time
    then ok s
    else do bucket_idx ← get_bucket s time; insert_at s bucket_idx (time, val)

-- A sample counts at `ts` if it is inside the lookback and is no stale marker.
unfoldable pub visible : ℤ → ℤ → Sample → Option F64
visible ts lookback (t, v) =
    if leb_ℤ (sub ts (mul lookback usecs_per_ms)) t && not (v == stale_nan) then some v else none

-- The loop of `results`: `last` is the last sample found in any bucket so far.
unfoldable pub results_loop : ℤ → ℤ → ℤ → Option Sample → List (Option Sample) → List (Option F64)
unfolding visible
results_loop width lookback ts last [] = []
results_loop width lookback ts none (none ∷ rest) =
    none ∷ results_loop width lookback (add ts (mul width usecs_per_ms)) none rest
results_loop width lookback ts (some tuple) (none ∷ rest) =
    visible ts lookback tuple
    ∷ results_loop width lookback (add ts (mul width usecs_per_ms)) (some tuple) rest
results_loop width lookback ts last (some tuple ∷ rest) =
    visible ts lookback tuple
    ∷ results_loop width lookback (add ts (mul width usecs_per_ms)) (some tuple) rest

unfoldable pub results : VectorSelector → List (Option F64)
unfolding results_loop
results s = results_loop s.bucket_width s.lookback s.first_bucket_max_time none s.elements

unfoldable pub to_pg_array : VectorSelector → List (Option F64)
unfolding results
to_pg_array s = results s
