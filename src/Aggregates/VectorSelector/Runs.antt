-- ===== src/Aggregates/VectorSelector/Runs.antt =====
-- Whole runs of the `vector_selector` aggregate: rows that PostgreSQL hands to one worker or to
-- several, and what the query gets back.
use mathlib.Core.List.{append-nil, append_assoc}
use promscale_extension.Prelude.{
  ℕ, suc, ◌*◌, ◌≡◌, ◌∙◌, ap, Option, none, some, List, [], ◌∷◌, ◌++◌, All, All-append, ok,
}
use promscale_extension.Prelude.Int.{ℤ, pos}
use promscale_extension.Memory.{Exec, lift, ◌>>=◌, FunctionCallInfo, in_aggregate_context}
use promscale_extension.Aggregates.{F64}
use promscale_extension.Aggregates.VectorSelector.{Sample, VectorSelector, to_pg_array}
use promscale_extension.Aggregates.VectorSelector.Entry.{
  or_new, vector_selector_transition_inner, vector_selector_final, vector_selector_combine_inner,
}
use promscale_extension.Aggregates.VectorSelector.Instant.{instants}
use promscale_extension.Aggregates.VectorSelector.Query.{
  Query, IsValid, width, steps, selector, InRange,
}
use promscale_extension.Aggregates.VectorSelector.Place.{new-selector}
use promscale_extension.Aggregates.VectorSelector.Refine.{
  insert-selector, combine-selector, results-selector,
}

-- PostgreSQL calls the transition once for each row, with the query's arguments.
unfoldable pub aggregate_rows :
    Query → FunctionCallInfo → Option VectorSelector → List Sample → Exec (Option VectorSelector)
aggregate_rows q fcinfo state [] = lift (ok state)
aggregate_rows q fcinfo state ((t, v) ∷ rows) = do
  state' ←
      vector_selector_transition_inner state q.start_time q.end_time (pos q.bucket_width)
        (pos q.lookback) t v fcinfo
  aggregate_rows q fcinfo state' rows

-- The state of a worker that has seen the rows `xs`.
abbrev pub state_of : Query → List Sample → Option VectorSelector
state_of q [] = none
state_of q (x ∷ xs) = some (selector q (x ∷ xs))

module _ (q : Query) (v : IsValid q) (fcinfo : FunctionCallInfo) (mctx : ℕ)
    (inside : fcinfo.agg_check_call_context ≡ some mctx) where
  transition-state_of :
      (xs : List Sample) (t : ℤ) (val : F64) (current : ℕ)
      → InRange q t
      → vector_selector_transition_inner
          (state_of q xs)
          q.start_time
          q.end_time
          (pos q.bucket_width)
          (pos q.lookback)
          t
          val
          fcinfo
          current
        ≡ (ok (state_of q (xs ++ (t, val) ∷ [])), current)
  unfolding vector_selector_transition_inner or_new in_aggregate_context
  transition-state_of [] t val current r =
      rw (inside, new-selector q v, insert-selector q v [] t val r)
  transition-state_of (x ∷ xs) t val current r = rw (inside, insert-selector q v (x ∷ xs) t val r)

  pub aggregate_rows-state_of :
      (xs ys : List Sample) (current : ℕ)
      → All (λ y. InRange q y.0) ys
      → aggregate_rows q fcinfo (state_of q xs) ys current ≡ (ok (state_of q (xs ++ ys)), current)
  unfolding aggregate_rows
  aggregate_rows-state_of xs [] current r = rw append-nil
  aggregate_rows-state_of xs ((t, val) ∷ ys) current r =
      rw (transition-state_of xs t val current r.0) (
        aggregate_rows-state_of (xs ++ (t, val) ∷ []) ys current r.1
        ∙ ap (λ zs. (ok (state_of q zs), current)) (append_assoc xs ((t, val) ∷ []) ys))

  pub combine-state_of :
      (xs ys : List Sample) (current : ℕ)
      → vector_selector_combine_inner (state_of q xs) (state_of q ys) fcinfo current
        ≡ (ok (state_of q (xs ++ ys)), current)
  unfolding vector_selector_combine_inner in_aggregate_context
  combine-state_of [] [] current = rw inside
  combine-state_of [] (y ∷ ys) current = rw inside
  combine-state_of (x ∷ xs) [] current = rw (inside, append-nil)
  combine-state_of (x ∷ xs) (y ∷ ys) current = rw (inside, combine-selector q v (x ∷ xs) (y ∷ ys))

  -- On rows inside [start - lookback, end], in any order, the aggregate of a valid query succeeds,
  -- leaves the current memory context as it was, and returns for each reference time the value of
  -- the most recent sample of the lookback window, or NULL if there is none or it is a stale marker.
  -- Of samples at one time the first row counts.
  pub final-aggregate_rows :
      (row : Sample) (rows : List Sample) (current : ℕ)
      → All (λ y. InRange q y.0) (row ∷ rows)
      → (state : Option VectorSelector) × (aggregate_rows q fcinfo none (row ∷ rows) current
          ≡ (ok state, current))
        × (vector_selector_final state
            ≡ some
                (instants (q.lookback * 1000) (width q) (suc (steps q)) q.start_time (row ∷ rows)))
  unfolding vector_selector_final to_pg_array
  final-aggregate_rows row rows current r = (
    some (selector q (row ∷ rows)),
    aggregate_rows-state_of [] (row ∷ rows) current r,
    ap some (results-selector q v (row ∷ rows)),
  )

  -- Two workers of a valid query that share rows in range out between them, each with none or some
  -- of them, combine to the state that one worker has after all the rows.
  pub combine-aggregate_rows :
      (xs ys : List Sample) (current : ℕ)
      → All (λ y. InRange q y.0) xs
      → All (λ y. InRange q y.0) ys
      → (s1 s2 s : Option VectorSelector) × (aggregate_rows q fcinfo none xs current
          ≡ (ok s1, current))
        × (aggregate_rows q fcinfo none ys current ≡ (ok s2, current))
        × (vector_selector_combine_inner s1 s2 fcinfo current ≡ (ok s, current))
        × (aggregate_rows q fcinfo none (xs ++ ys) current ≡ (ok s, current))
  combine-aggregate_rows xs ys current r s = (
    state_of q xs,
    state_of q ys,
    state_of q (xs ++ ys),
    aggregate_rows-state_of [] xs current r,
    aggregate_rows-state_of [] ys current s,
    combine-state_of xs ys current,
    aggregate_rows-state_of [] (xs ++ ys) current (All-append _ xs ys r s),
  )
