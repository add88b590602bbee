-- ===== src/Aggregates/VectorSelector/Query.antt =====
-- A range query as src/aggregates/vector_selector.rs is asked it, the conditions under which no
-- step of the aggregate wraps, and the state that stands for a list of samples.
use promscale_extension.Prelude.{
  ℕ, suc, ◌+◌, ◌*◌, ◌/◌, ◌^◌, ◌<◌, ◌≤◌, ◌⊎◌, none, List, ◌==◌, if◌then◌else◌,
}
use promscale_extension.Prelude.Int.{ℤ, pos, pos_part, neg_part, ◌+ℤ◌, ◌-ℤ◌, ◌≤ℤ◌, Within}
use promscale_extension.Aggregates.VectorSelector.{Sample, VectorSelector}
use promscale_extension.Aggregates.VectorSelector.Buckets.{bucket_list}

-- Times in microseconds, `bucket_width` and `lookback` in milliseconds.
pub record Query : Type 0 where
  pub start_time : ℤ
  pub end_time : ℤ
  pub bucket_width : ℕ
  pub lookback : ℕ

-- 2 ^ 61 microseconds are 73,000 years. The width may be zero only for a single instant.
pub record IsValid (q : Query) : Type 0 where
  pub ordered : q.start_time ≤ℤ q.end_time
  pub start_in : Within (2 ^ 61) q.start_time
  pub end_in : Within (2 ^ 61) q.end_time
  pub width_in : q.bucket_width * 1000 ≤ 2 ^ 61
  pub lookback_in : q.lookback * 1000 ≤ 2 ^ 61
  pub point : (0 < q.bucket_width) ⊎ (q.end_time ≤ℤ q.start_time)

abbrev pub width : Query → ℕ
width q = q.bucket_width * 1000

-- The time that the query spans, and how many whole steps fit in it.
abbrev pub span : Query → ℕ
span q = pos_part (q.end_time -ℤ q.start_time)

abbrev pub steps : Query → ℕ
steps q = if q.bucket_width == 0 then 0 else span q / width q

-- The reference time of the last bucket.
abbrev pub last_time : Query → ℤ
last_time q = q.start_time +ℤ pos (steps q * width q)

-- The state after the samples `xs`.
abbrev pub selector : Query → List Sample → VectorSelector
selector q xs = record {
  first_bucket_max_time = q.start_time;
  last_bucket_max_time = last_time q;
  end_time = q.end_time;
  bucket_width = pos q.bucket_width;
  lookback = pos q.lookback;
  elements = bucket_list none q.start_time (width q) (suc (steps q)) xs;
}

-- A sample that the aggregate is asked to take: inside [start - lookback, end].
abbrev pub InRange : Query → ℤ → Type 0
InRange q t =
    (pos_part q.start_time + neg_part t ≤ pos_part t + neg_part q.start_time + q.lookback * 1000)
    × (t ≤ℤ q.end_time)
