-- ===== src/Aggregates/VectorSelector/Tests.antt =====
-- Runs of the `vector_selector` aggregate on concrete rows.
use mathlib.Core.HLevel.{⊥_prop}
use mathlib.Core.List.{Nodup, Nodup-cons, Nodup-nil, mem-cons, not-mem-nil}
use mathlib.Core.List.Perm
use mathlib.Core.Logic.Or
use promscale_extension.Aggregates.VectorSelector.Order.{times, final-Perm}
use promscale_extension.Aggregates.VectorSelector.Plans.{worker, gather, run_plan, final-run_plan}
use promscale_extension.Aggregates.VectorSelector.Limits.{
  Agree, AllLater, combine-outcome, insert-zero_width,
}
use promscale_extension.Prelude.{
  incompatible_vector_selectors, ℕ, suc, ◌<◌, ◌≡◌, refl, Option, none, some, [], ◌∷◌, arith, ok,
  err, ◌↔◌, ◌>>=◌, divide_by_zero,
}
use promscale_extension.Prelude.Int.{pos, ◌+ℤ◌, ◌-ℤ◌}
use promscale_extension.Memory.{FunctionCallInfo}
use promscale_extension.Aggregates.{stale_nan}
use promscale_extension.Aggregates.VectorSelector.{
  Sample, VectorSelector, new, insert, get_bucket, combine,
}
use promscale_extension.Aggregates.VectorSelector.Buckets.{Placed}
use promscale_extension.Aggregates.VectorSelector.Entry.{vector_selector_final}
use promscale_extension.Aggregates.VectorSelector.Instant.{instants}
use promscale_extension.Aggregates.VectorSelector.Latest.{latest}
use promscale_extension.Aggregates.VectorSelector.Place.{get_bucket-Placed}
use promscale_extension.Aggregates.VectorSelector.Query.{Query, IsValid, width, steps, selector}
use promscale_extension.Aggregates.VectorSelector.Outcome.{outcome_of, insert-outcome_of}
use promscale_extension.Aggregates.VectorSelector.Runs.{aggregate_rows, final-aggregate_rows}

-- Three reference times, 10 ms apart, looking 15 ms back.
abbrev query : Query
query = record {
  start_time = pos 1_000_000;
  end_time = pos 1_020_000;
  bucket_width = 10;
  lookback = 15;
}

abbrev in_aggregate : FunctionCallInfo
in_aggregate = record { agg_check_call_context = some 7 }

abbrev early : Sample
early = (pos 995_000, 70)

abbrev stale : Sample
stale = (pos 1_010_000, stale_nan)

abbrev late : Sample
late = (pos 1_012_000, 90)

query-IsValid : IsValid query
query-IsValid = omega arith

three :
    instants 15_000 10_000 3 (pos 1_000_000) (late ∷ early ∷ stale ∷ [])
    ≡ some 70 ∷ none ∷ some 90 ∷ []
unfolding instants latest ◌+ℤ◌ ◌-ℤ◌
three = refl

final-aggregate_rows_example :
    (state : Option VectorSelector) × (aggregate_rows query in_aggregate none
        (late ∷ early ∷ stale ∷ [])
        3
      ≡ (ok state, 3))
    × (vector_selector_final state
        ≡ some (
            instants 15_000
              (width query)
              (suc (steps query))
              (pos 1_000_000)
              (late ∷ early ∷ stale ∷ [])))
final-aggregate_rows_example =
    final-aggregate_rows query query-IsValid in_aggregate 7 refl late (early ∷ stale ∷ []) 3
      (omega arith)

get_bucket-Placed_example :
    (i : ℕ) × (get_bucket (selector query (early ∷ [])) (pos 1_010_000) ≡ ok i)
    × Placed (pos 1_000_000) (width query) i (pos 1_010_000)
    × (i < suc (steps query))
unfolding ◌-ℤ◌ ◌+ℤ◌
get_bucket-Placed_example =
    get_bucket-Placed query query-IsValid (early ∷ []) (pos 1_010_000) (omega arith) (omega arith)

insert-outcome_of_example :
    insert (selector query (early ∷ [])) (pos 984_999) 5
    ≡ outcome_of query (early ∷ []) (pos 984_999) 5
insert-outcome_of_example = insert-outcome_of query query-IsValid (early ∷ []) (pos 984_999) 5

distinct : Nodup (times (early ∷ late ∷ []))
distinct = Nodup-cons.1 (
  λ m. Or.elim ⊥_prop (mem-cons.0 m) (λ e. ground arith) not-mem-nil,
  Nodup-cons.1 (not-mem-nil, Nodup-nil),
)

final-Perm_example :
    (s s' : Option VectorSelector) × (aggregate_rows query in_aggregate none (early ∷ late ∷ []) 3
      ≡ (ok s, 3))
    × (aggregate_rows query in_aggregate none (late ∷ early ∷ []) 3 ≡ (ok s', 3))
    × (vector_selector_final s ≡ vector_selector_final s')
final-Perm_example =
    final-Perm query query-IsValid in_aggregate 7 refl early late (late ∷ []) (early ∷ []) 3
      (omega arith) (Perm.swap late early []) distinct

combine-outcome_example :
    ((combine (selector query (early ∷ [])) (selector query (late ∷ []))
        ≡ ok (selector query (early ∷ late ∷ [])))
      ↔ (Agree (selector query (early ∷ [])) (selector query (late ∷ []))
          × (selector query (early ∷ late ∷ []) ≡ record (selector query (early ∷ [])) {
            elements = (selector query (early ∷ late ∷ [])).elements;
          })
          × AllLater
              (selector query (early ∷ [])).elements
              (selector query (late ∷ [])).elements
              (selector query (early ∷ late ∷ [])).elements))
    × ((combine (selector query (early ∷ [])) (selector query (late ∷ []))
          ≡ err incompatible_vector_selectors)
        ↔ (¬ Agree (selector query (early ∷ [])) (selector query (late ∷ []))))
combine-outcome_example =
    combine-outcome (selector query (early ∷ [])) (selector query (late ∷ []))
      (selector query (early ∷ late ∷ []))

insert-zero_width_example :
    (new (pos 1_000_000) (pos 1_020_000) (pos 0) (pos 15) >>= λ s. insert s (pos 1_010_000) 5)
    ≡ err divide_by_zero
insert-zero_width_example =
    insert-zero_width (pos 1_000_000) (pos 1_020_000) 15 (pos 1_010_000) 5 (omega arith)
      (omega arith) (omega arith) (omega arith)

final-run_plan_example :
    (state : Option VectorSelector) × (run_plan query in_aggregate
        (gather (worker (early ∷ [])) (gather (worker []) (worker (late ∷ []))))
        3
      ≡ (ok state, 3))
    × (vector_selector_final state
        ≡ some
            (instants 15_000 (width query) (suc (steps query)) (pos 1_000_000) (late ∷ early ∷ [])))
final-run_plan_example =
    final-run_plan query query-IsValid in_aggregate 7 refl
      (gather (worker (early ∷ [])) (gather (worker []) (worker (late ∷ [])))) late (early ∷ []) 3
      (omega arith) (Perm.swap late early []) distinct
