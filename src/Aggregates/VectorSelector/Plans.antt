-- ===== src/Aggregates/VectorSelector/Plans.antt =====
-- Parallel plans of the `vector_selector` aggregate: any number of workers, whose states are combined
-- in the shape of any tree.
use mathlib.Core.List.{Nodup, Perm}
use mathlib.Core.List.Perm
use promscale_extension.Prelude.{
  ℕ, suc, ◌*◌, ◌≡◌, ◌∙◌, ap, Option, none, some, List, [], ◌∷◌, ◌++◌, All, ok,
}
use promscale_extension.Memory.{Exec, ◌>>=◌, FunctionCallInfo}
use promscale_extension.Aggregates.VectorSelector.{Sample, VectorSelector, to_pg_array}
use promscale_extension.Aggregates.VectorSelector.Entry.{
  vector_selector_final, vector_selector_combine_inner,
}
use promscale_extension.Aggregates.VectorSelector.Instant.{instants}
use promscale_extension.Aggregates.VectorSelector.Query.{Query, IsValid, width, steps, InRange}
use promscale_extension.Aggregates.VectorSelector.Refine.{results-selector}
use promscale_extension.Aggregates.VectorSelector.Runs.{
  aggregate_rows, state_of, aggregate_rows-state_of, combine-state_of,
}
use promscale_extension.Aggregates.VectorSelector.Order.{times, instants-Perm, All-Perm}

pub data Plan : Type 0 where
  worker : List Sample → Plan
  gather : Plan → Plan → Plan

abbrev pub rows_of : Plan → List Sample
rows_of (worker rows) = rows
rows_of (gather left right) = rows_of left ++ rows_of right

unfoldable pub run_plan : Query → FunctionCallInfo → Plan → Exec (Option VectorSelector)
run_plan q fcinfo (worker rows) = aggregate_rows q fcinfo none rows
run_plan q fcinfo (gather left right) = do
  state1 ← run_plan q fcinfo left
  state2 ← run_plan q fcinfo right
  vector_selector_combine_inner state1 state2 fcinfo

-- The rows of each worker are in range.
abbrev pub Fits : Query → Plan → Type 0
Fits q (worker rows) = All (λ y. InRange q y.0) rows
Fits q (gather left right) = Fits q left × Fits q right

module _ (q : Query) (v : IsValid q) (fcinfo : FunctionCallInfo) (mctx : ℕ)
    (inside : fcinfo.agg_check_call_context ≡ some mctx) where
  run_plan-state_of :
      (plan : Plan) (current : ℕ)
      → Fits q plan
      → run_plan q fcinfo plan current ≡ (ok (state_of q (rows_of plan)), current)
  unfolding run_plan
  run_plan-state_of (worker rows) current fits =
      aggregate_rows-state_of q v fcinfo mctx inside [] rows current fits
  run_plan-state_of (gather left right) current (l, r) =
      rw (run_plan-state_of left current l, run_plan-state_of right current r)
        (combine-state_of q v fcinfo mctx inside (rows_of left) (rows_of right) current)

  All-front :
      (xs ys : List Sample) → All (λ y. InRange q y.0) (xs ++ ys) → All (λ y. InRange q y.0) xs
  All-front [] ys r = tt
  All-front (x ∷ xs) ys r = (r.0, All-front xs ys r.1)

  All-rest :
      (xs ys : List Sample) → All (λ y. InRange q y.0) (xs ++ ys) → All (λ y. InRange q y.0) ys
  All-rest [] ys r = r
  All-rest (x ∷ xs) ys r = All-rest xs ys r.1

  Fits-of : (plan : Plan) → All (λ y. InRange q y.0) (rows_of plan) → Fits q plan
  Fits-of (worker rows) r = r
  Fits-of (gather left right) r = (
    Fits-of left (All-front (rows_of left) (rows_of right) r),
    Fits-of right (All-rest (rows_of left) (rows_of right) r),
  )

  -- The state after rows that are those of the query in another order.
  final-state_of :
      (xs : List Sample) (row : Sample) (rows : List Sample)
      → Perm xs (row ∷ rows)
      → Nodup (times xs)
      → vector_selector_final (state_of q xs)
        ≡ some (instants (q.lookback * 1000) (width q) (suc (steps q)) q.start_time (row ∷ rows))
  unfolding vector_selector_final to_pg_array
  final-state_of [] row rows h d = let empty : [] ≡ row ∷ rows = Perm.nil-eq h in absurd (cc)
  final-state_of (x ∷ xs) row rows h d = ap some (
      results-selector q v (x ∷ xs)
      ∙ instants-Perm (q.lookback * 1000) (width q) (suc (steps q)) q.start_time h d)

  -- For a valid query and rows in range of which no two are taken at one time, the rows may be dealt out
  -- in any way to any number of workers, and the states combined in the shape of any tree: the run
  -- succeeds, leaves the current memory context as it was, and returns for each reference time the value
  -- of the most recent sample of the lookback window, or NULL if there is none or it is a stale marker.
  pub final-run_plan :
      (plan : Plan) (row : Sample) (rows : List Sample) (current : ℕ)
      → All (λ y. InRange q y.0) (row ∷ rows)
      → Perm (rows_of plan) (row ∷ rows)
      → Nodup (times (rows_of plan))
      → (state : Option VectorSelector) × (run_plan q fcinfo plan current ≡ (ok state, current))
        × (vector_selector_final state
            ≡ some
                (instants (q.lookback * 1000) (width q) (suc (steps q)) q.start_time (row ∷ rows)))
  final-run_plan plan row rows current r h d = (
    state_of q (rows_of plan),
    run_plan-state_of plan current (Fits-of plan (All-Perm q (Perm.symm h) r)),
    final-state_of (rows_of plan) row rows h d,
  )
