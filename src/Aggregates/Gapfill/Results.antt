-- ===== src/Aggregates/Gapfill/Results.antt =====
-- What the queries `prom_delta`, `prom_rate` and `prom_increase` return.
use mathlib.Core.List.{append-nil, append_assoc}
use promscale_extension.Prelude.{
  ℕ, zero, suc, ◌+◌, ◌*◌, ◌≤◌, ◌≡◌, refl, ap, ap₂, sym, ◌∙◌, List, [], ◌∷◌, ◌++◌, All, All-append,
  arith, Bool-cases, inl, inr, ok, ◌==◌, Option, some, none,
}
use promscale_extension.Prelude.Int.{ℤ, pos, ◌≤ℤ◌}
use promscale_extension.Prelude.Int.Exact.{+ℤ_parts}
use promscale_extension.Memory.{FunctionCallInfo}
use promscale_extension.Aggregates.{F64, stale_nan}
use promscale_extension.Aggregates.Float.{FloatOps}
use promscale_extension.Aggregates.Gapfill.{Sample, GapfillDeltaTransition, new, as_vec}
use promscale_extension.Aggregates.Gapfill.Windows.{Ascending}
use promscale_extension.Aggregates.Gapfill.State.{
  Config, IsValid, window_max, deltas, gapfill, window_count,
}
use promscale_extension.Aggregates.Gapfill.Flush.{After, Due, flush_rest-gapfill}
use promscale_extension.Aggregates.Gapfill.Add.{UpTo, add_data_point-gapfill, add_data_point-stale}
use promscale_extension.Aggregates.Gapfill.New.{new-gapfill, window_count_lem, past_last_window}
use promscale_extension.Aggregates.Gapfill.Entry.{or_new, add_row, prom_extrapolate_final_inner}
use promscale_extension.Aggregates.Gapfill.Runs.{
  fresh, fresh-one-none, fresh-one-some, fresh-cons, fresh-nil, PromFunction, counter_of, rate_of,
  aggregate_rows, Asks, InBounds, transition-add_row,
}

-- The samples `zs` are in order, and window `k` is the first that reaches them all.
pub record Stands (c : Config) (k : ℕ) (zs : List Sample) : Type 0 where
  pub ascending : Ascending zs
  pub reached : All (λ z. z.0 ≤ℤ window_max c k) zs
  pub due : Due c k

-- A row that may come next.
abbrev pub Next : Config → ℕ → List Sample → Sample → Type 0
Next c k zs y = InBounds c y.0 × After c k y.0 × UpTo zs y.0

Ascending-snoc :
    (zs : List Sample) (y : Sample) → Ascending zs → UpTo zs y.0 → Ascending (zs ++ y ∷ [])
Ascending-snoc [] y a u = (tt, tt)
Ascending-snoc (z ∷ zs) y a u =
    (All-append _ zs (y ∷ []) a.0 (u.0, tt), Ascending-snoc zs y a.1 u.1)

UpTo-mono : (zs : List Sample) (t u : ℤ) → t ≤ℤ u → UpTo zs t → UpTo zs u
UpTo-mono [] t u h a = tt
UpTo-mono (z ∷ zs) t u h a = (omega arith, UpTo-mono zs t u h a.1)

module _ (c : Config) where
  pub After-mono : (k : ℕ) (t u : ℤ) → t ≤ℤ u → After c k t → After c k u
  After-mono zero t u h a = tt
  After-mono (suc j) t u h a = omega arith

  After-Due : (k : ℕ) (t : ℤ) → t ≤ℤ c.greatest_time → After c k t → Due c k
  After-Due zero t h a = tt
  After-Due (suc j) t h a = omega arith

-- The state holds what the samples `zs` leave after `k` flushes.
abbrev pub Holds :
    FloatOps → PromFunction → Config → Option GapfillDeltaTransition → ℕ → List Sample → Type 0
Holds f p c state k zs =
    or_new state c.lowest_time c.greatest_time (pos c.range) (pos c.step_size) (counter_of p)
      (rate_of p)
    ≡ ok (gapfill f c k zs)

module _ (f : FloatOps) (c : Config) (v : IsValid c) (r : ℕ) (enough : window_count c ≤ r)
    (p : PromFunction) where
  -- One row, from the state of `zs`.
  pub add_row-gapfill :
      (state : Option GapfillDeltaTransition) (k : ℕ) (zs : List Sample) (t : ℤ) (val : F64)
      → Holds f p c state k zs
      → Stands c k zs
      → Next c k zs (t, val)
      → (m : ℕ) × (add_row f
            (suc r)
            (or_new state c.lowest_time c.greatest_time
              (pos c.range)
              (pos c.step_size)
              (counter_of p)
              (rate_of p))
            t
            val
          ≡ ok (some (gapfill f c m (zs ++ fresh ((t, val) ∷ [])))))
        × Stands c m (zs ++ fresh ((t, val) ∷ []))
        × After c m t
        × UpTo (zs ++ fresh ((t, val) ∷ [])) t
  add_row-gapfill state k zs t val holds s n = elim (Bool-cases (val == stale_nan)) [
    | inl e ↦ (
      k,
      rw (
        holds,
        add_data_point-stale f c v (suc r) (gapfill f c k zs) t val e,
        fresh-one-none t val e,
        append-nil zs,
      ),
      rw (fresh-one-none t val e, append-nil zs) s,
      n.1,
      rw (fresh-one-none t val e, append-nil zs) n.2,
    )
    | inr e ↦
        let last = past_last_window c v r enough in
        let wider : r * (c.step_size * 1000) ≤ (k + r) * (c.step_size * 1000) = grind arith in
        let (m, added, after, reached) =
          add_data_point-gapfill f c v r k zs t val e s.ascending s.reached n.2 n.0.1 n.1
            (omega (arith, +ℤ_parts)) in
        let stands : Stands c m (zs ++ (t, val) ∷ []) = record {
          ascending = Ascending-snoc zs (t, val) s.ascending n.2;
          reached = reached;
          due = After-Due c m t n.0.1 after;
        } in
        (
          m,
          rw (holds, added, fresh-one-some t val e),
          rw (fresh-one-some t val e) stands,
          after,
          rw (fresh-one-some t val e) (All-append _ zs ((t, val) ∷ []) n.2 (omega arith, tt)),
        )
  ]

  Next-later :
      (m : ℕ) (zs' : List Sample) (x : Sample) (rows : List Sample)
      → After c m x.0
      → UpTo zs' x.0
      → All (λ y. x.0 ≤ℤ y.0) rows
      → All (λ y. InBounds c y.0) rows
      → All (Next c m zs') rows
  Next-later m zs' x [] after up later b = tt
  Next-later m zs' x (y ∷ rows) after up later b = (
    (b.0, After-mono c m x.0 y.0 later.0 after, UpTo-mono zs' x.0 y.0 later.0 up),
    Next-later m zs' x rows after up later.1 b.1,
  )

  -- All the rows, from the state of `zs`.
  aggregate_rows-gapfill :
      (fcinfo : FunctionCallInfo) (mctx : ℕ) (current : ℕ) (k : ℕ) (zs : List Sample)
      (rows : List Sample)
      → fcinfo.agg_check_call_context ≡ some mctx
      → Asks p c
      → Stands c k zs
      → Ascending rows
      → All (λ y. InBounds c y.0) rows
      → All (Next c k zs) rows
      → (m : ℕ) × (aggregate_rows f (suc r) p c fcinfo (some (gapfill f c k zs)) rows current
          ≡ (ok (some (gapfill f c m (zs ++ fresh rows))), current))
        × Stands c m (zs ++ fresh rows)
  unfolding aggregate_rows or_new
  aggregate_rows-gapfill fcinfo mctx current k zs [] ctx asks s a b n =
      (k, rw (fresh-nil, append-nil zs), rw (fresh-nil, append-nil zs) s)
  aggregate_rows-gapfill fcinfo mctx current k zs ((t, val) ∷ rows) ctx asks s a b n =
      let (m, added, stands, after, up) =
        add_row-gapfill (some (gapfill f c k zs)) k zs t val refl s n.0 in
      let zs' = zs ++ fresh ((t, val) ∷ []) in
      let (m', ran, stands') =
        aggregate_rows-gapfill fcinfo mctx current m zs' rows ctx asks stands a.1 b.1
          (Next-later m zs' (t, val) rows after up a.0 b.1) in
      let shape : zs' ++ fresh rows ≡ zs ++ fresh ((t, val) ∷ rows) =
        rw (fresh-cons (t, val) rows) (append_assoc zs (fresh ((t, val) ∷ [])) (fresh rows)) in
      (
        m',
        rw (
          transition-add_row f (suc r) fcinfo mctx ctx p c (some (gapfill f c k zs)) t val current
              (some (gapfill f c m zs')) b.0 added,
          ran,
          shape,
        ),
        rw shape at stands',
      )

  pub fresh_state-Holds : Asks p c → Holds f p c none 0 []
  unfolding or_new
  fresh_state-Holds asks =
      ap₂ (λ a b. new c.lowest_time c.greatest_time (pos c.range) (pos c.step_size) a b)
        (sym asks.0) (sym asks.1)
      ∙ new-gapfill c v f

  -- The whole run of rows, from no state.
  aggregate_rows-fresh :
      (fcinfo : FunctionCallInfo) (mctx : ℕ) (current : ℕ) (row : Sample) (rows : List Sample)
      → fcinfo.agg_check_call_context ≡ some mctx
      → Asks p c
      → Ascending (row ∷ rows)
      → All (λ y. InBounds c y.0) (row ∷ rows)
      → (m : ℕ) × (aggregate_rows f (suc r) p c fcinfo none (row ∷ rows) current
          ≡ (ok (some (gapfill f c m (fresh (row ∷ rows)))), current))
        × Stands c m (fresh (row ∷ rows))
  unfolding aggregate_rows
  aggregate_rows-fresh fcinfo mctx current (t, val) rows ctx asks a b =
      let start : Stands c 0 [] = record { ascending = tt; reached = tt; due = tt } in
      let (k, added, stands, after, up) =
        add_row-gapfill none 0 [] t val (fresh_state-Holds asks) start (b.0, tt, tt) in
      let zs = fresh ((t, val) ∷ []) in
      let (m, ran, stands') =
        aggregate_rows-gapfill fcinfo mctx current k zs rows ctx asks stands a.1 b.1
          (Next-later k zs (t, val) rows after up a.0 b.1) in
      let shape : zs ++ fresh rows ≡ fresh ((t, val) ∷ rows) = sym (fresh-cons (t, val) rows) in
      (
        m,
        rw (
          transition-add_row f (suc r) fcinfo mctx ctx p c none t val current
              (some (gapfill f c k zs)) b.0 added,
          ran,
          shape,
        ),
        rw shape at stands',
      )

  -- On rows in ascending order of time inside [lowest_time, greatest_time], the aggregate of a valid
  -- query succeeds, leaves the current memory context as it was, and returns for each window
  -- [lowest + k * step, lowest + range + k * step] that ends by the greatest time the value that the
  -- samples of that window alone determine, stale markers left out. One more round of fuel than
  -- there are windows is enough.
  pub prom_extrapolate_final-aggregate_rows :
      (fcinfo : FunctionCallInfo) (mctx : ℕ) (current : ℕ) (row : Sample) (rows : List Sample)
      → fcinfo.agg_check_call_context ≡ some mctx
      → Asks p c
      → Ascending (row ∷ rows)
      → All (λ y. InBounds c y.0) (row ∷ rows)
      → (state : Option GapfillDeltaTransition) × (aggregate_rows f
            (suc r)
            p
            c
            fcinfo
            none
            (row ∷ rows)
            current
          ≡ (ok state, current))
        × (prom_extrapolate_final_inner f (suc r) state
            ≡ ok (some (deltas f c (window_count c) (fresh (row ∷ rows)))))
  unfolding prom_extrapolate_final_inner as_vec
  prom_extrapolate_final-aggregate_rows fcinfo mctx current row rows ctx asks a b =
      let (k, ran, stands) = aggregate_rows-fresh fcinfo mctx current row rows ctx asks a b in
      let xs = fresh (row ∷ rows) in
      let last = past_last_window c v r enough in
      let wider : r * (c.step_size * 1000) ≤ (k + r) * (c.step_size * 1000) = grind arith in
      let (m, flushed, over, due) =
        flush_rest-gapfill f c v r k xs stands.ascending stands.reached stands.due
          (omega (arith, +ℤ_parts)) in
      (
        some (gapfill f c k xs),
        ran,
        rw flushed (ap (λ n. ok (some (deltas f c n xs))) (window_count_lem c v m over due)),
      )
