-- ===== src/Aggregates/Gapfill/Accepts.antt =====
-- Which rows a whole run of `prom_delta`, `prom_rate` or `prom_increase` accepts:
-- src/aggregates/prom_delta.rs, prom_rate.rs and prom_increase.rs with gapfill_delta.rs.
use mathlib.Core.List.{append_assoc, append-nil}
use promscale_extension.Prelude.{
  ℕ, suc, ◌≤◌, ◌≡◌, ◌↔◌, ◌⊎◌, inl, inr, refl, ap, sym, subst, ◌∙◌, ◌&&◌, true, false, List, [], ◌∷◌,
  ◌++◌, All, arith, Bool-cases, Result, ok, err, ◌==◌, Option, some, none, Fault,
  inputs_not_ascending,
}
use promscale_extension.Prelude.Int.{ℤ, pos, leb_ℤ, ◌≤ℤ◌, ◌<ℤ◌}
use promscale_extension.Memory.{Exec, resume, FunctionCallInfo}
use promscale_extension.Aggregates.{F64, stale_nan}
use promscale_extension.Aggregates.Float.{FloatOps}
use promscale_extension.Aggregates.Gapfill.{Sample, GapfillDeltaTransition}
use promscale_extension.Aggregates.Gapfill.Windows.{Ascending}
use promscale_extension.Aggregates.Gapfill.State.{
  Config, IsValid, window_min, window_max, gapfill, window_count,
}
use promscale_extension.Aggregates.Gapfill.Flush.{After}
use promscale_extension.Aggregates.Gapfill.Add.{UpTo, add_data_point-stale}
use promscale_extension.Aggregates.Gapfill.Entry.{or_new}
use promscale_extension.Aggregates.Gapfill.Runs.{
  fresh, fresh-none, fresh-some, fresh-one-some, fresh-nil, PromFunction, transition,
  aggregate_rows, Asks, InBounds, transition-add_row, transition-out_of_bounds, refusal,
}
use promscale_extension.Aggregates.Gapfill.Results.{
  Stands, Next, Holds, After-mono, add_row-gapfill, fresh_state-Holds,
}
use promscale_extension.Aggregates.Gapfill.Faults.{transition-fault, descending-fault}
use promscale_extension.Aggregates.Gapfill.Last.{
  back-keep, Last, After-window_min, UpTo-snoc, Ascending-pair,
}

fault_stops :
    {A B : Type 0} (k : A → Exec B) (r : Result A × ℕ) (e : Fault)
    → r.0 ≡ err e
    → (resume k r).0 ≡ err e
fault_stops k (ok a, current) e h = cc
fault_stops k (err e', current) e h = cc

module _ (f : FloatOps) (c : Config) (v : IsValid c) (r : ℕ) (enough : window_count c ≤ r)
    (gapless : c.step_size ≤ c.range) (p : PromFunction) (asks : Asks p c)
    (fcinfo : FunctionCallInfo) (mctx : ℕ)
    (in_aggregate : fcinfo.agg_check_call_context ≡ some mctx) where
  abbrev call : Option GapfillDeltaTransition → ℤ → F64 → Exec (Option GapfillDeltaTransition)
  call state t val =
      transition f (suc r) p state c.lowest_time c.greatest_time (pos c.step_size) (pos c.range) t
        val fcinfo

  abbrev run_rows :
      Option GapfillDeltaTransition → List Sample → ℕ → Result (Option GapfillDeltaTransition)
  run_rows state rows current = (aggregate_rows f (suc r) p c fcinfo state rows current).0

  -- A row that is refused ends the run.
  run_rows-refused :
      (state : Option GapfillDeltaTransition) (t : ℤ) (val : F64) (rows : List Sample) (current : ℕ)
      (e : Fault)
      → (call state t val current).0 ≡ err e
      → run_rows state ((t, val) ∷ rows) current ≡ err e
  unfolding aggregate_rows
  run_rows-refused state t val rows current e h = fault_stops _ (call state t val current) e h

  -- A row that is accepted leads to the next.
  run_rows-accepted :
      (state next : Option GapfillDeltaTransition) (t : ℤ) (val : F64) (rows : List Sample)
      (current : ℕ)
      → call state t val current ≡ (ok next, current)
      → run_rows state ((t, val) ∷ rows) current ≡ run_rows next rows current
  unfolding aggregate_rows
  run_rows-accepted state next t val rows current h =
      ap (λ x. (resume (λ s. aggregate_rows f (suc r) p c fcinfo s rows) x).0) h

  -- A stale marker inside the bounds leaves the state.
  call-stale :
      (state : Option GapfillDeltaTransition) (k : ℕ) (zs : List Sample) (t : ℤ) (val : F64)
      (current : ℕ)
      → Holds f p c state k zs
      → InBounds c t
      → (val == stale_nan) ≡ true
      → call state t val current ≡ (ok (some (gapfill f c k zs)), current)
  call-stale state k zs t val current holds b e =
      transition-add_row f (suc r) fcinfo mctx in_aggregate p c state t val current
        (some (gapfill f c k zs)) b
        (rw (holds, add_data_point-stale f c v (suc r) (gapfill f c k zs) t val e))

  -- A sample inside the bounds that is not earlier than those before it is taken.
  call-taken :
      (state : Option GapfillDeltaTransition) (k : ℕ) (zs : List Sample) (t : ℤ) (val : F64)
      (current : ℕ)
      → Holds f p c state k zs
      → Stands c k zs
      → Next c k zs (t, val)
      → (val == stale_nan) ≡ false
      → (m : ℕ) × (call state t val current
          ≡ (ok (some (gapfill f c m (zs ++ (t, val) ∷ []))), current))
        × Stands c m (zs ++ (t, val) ∷ [])
        × Last c m (zs ++ (t, val) ∷ [])
  call-taken state k zs t val current holds stands next e =
      let (m, added, stands', after, up) =
        add_row-gapfill f c v r enough p state k zs t val holds stands next in
      let one = fresh-one-some t val e in
      (
        m,
        transition-add_row f (suc r) fcinfo mctx in_aggregate p c state t val current
            (some (gapfill f c m (zs ++ (t, val) ∷ []))) next.0 (rw one at added),
        rw one at stands',
        inr (zs, (t, val), refl, after, next.0.0),
      )

  -- A sample that is earlier than the last one is refused.
  call-descending :
      (state : Option GapfillDeltaTransition) (k : ℕ) (ys : List Sample) (z : Sample) (t : ℤ)
      (val : F64) (current : ℕ)
      → Holds f p c state k (ys ++ z ∷ [])
      → Stands c k (ys ++ z ∷ [])
      → After c k z.0
      → c.lowest_time ≤ℤ z.0
      → InBounds c t
      → t <ℤ z.0
      → (val == stale_nan) ≡ false
      → (call state t val current).0 ≡ err inputs_not_ascending
  call-descending state k ys z t val current holds stands after lo b late e =
      let zs = ys ++ z ∷ [] in
      transition-fault f (suc r) fcinfo mctx in_aggregate p c state t val current
        inputs_not_ascending b
        (rw (
          holds,
          descending-fault f r fcinfo mctx in_aggregate k c zs z t val e
              (back-keep (window_min c k) ys z (After-window_min c k z.0 gapless lo after))
              (reached_last ys stands.reached) late,
        ))
    where
      reached_last :
          (ys : List Sample)
          → All (λ x. x.0 ≤ℤ window_max c k) (ys ++ z ∷ [])
          → z.0 ≤ℤ window_max c k
      reached_last [] a = a.0
      reached_last (y ∷ ys) a = reached_last ys a.1

  abbrev Succeeds : Option GapfillDeltaTransition → List Sample → ℕ → Type 0
  Succeeds state rows current =
      (next : Option GapfillDeltaTransition) × (run_rows state rows current ≡ ok next)

  abbrev Accepted : List Sample → List Sample → Type 0
  Accepted zs rows = All (λ y. InBounds c y.0) rows × Ascending (zs ++ fresh rows)

  refused_iff :
      (state : Option GapfillDeltaTransition) (zs : List Sample) (row : Sample) (rows : List Sample)
      (current : ℕ) (e : Fault)
      → (call state row.0 row.1 current).0 ≡ err e
      → ¬ Accepted zs (row ∷ rows)
      → Succeeds state (row ∷ rows) current ↔ Accepted zs (row ∷ rows)
  refused_iff state zs row rows current e h never =
      let refused = run_rows-refused state row.0 row.1 rows current e h in
      (
        λ (next, done). let clash : err e ≡ ok next = sym refused ∙ done in absurd (cc),
        λ yes. absurd (never yes),
      )

  taken_iff :
      (state next : Option GapfillDeltaTransition) (zs zs' : List Sample) (row : Sample)
      (rows : List Sample) (current : ℕ)
      → call state row.0 row.1 current ≡ (ok next, current)
      → InBounds c row.0
      → zs' ++ fresh rows ≡ zs ++ fresh (row ∷ rows)
      → Succeeds next rows current ↔ Accepted zs' rows
      → Succeeds state (row ∷ rows) current ↔ Accepted zs (row ∷ rows)
  taken_iff state next zs zs' row rows current h b shape (onward, back_again) =
      let step = run_rows-accepted state next row.0 row.1 rows current h in
      (
        λ (last, done).
            let (inside, ascending) = onward (last, sym step ∙ done) in
            ((b, inside), subst Ascending shape ascending),
        λ ((b, inside), ascending).
            let (last, done) = back_again (inside, subst Ascending (sym shape) ascending) in
            (last, step ∙ done),
      )

  -- A row comes after the last sample, or before it.
  in_order_or_late :
      (k : ℕ) (zs : List Sample) (t : ℤ) (val : F64)
      → InBounds c t
      → Stands c k zs
      → Last c k zs
      → Next c k zs (t, val)
        ⊎ ((ys : List Sample) × (z : Sample) × (zs ≡ ys ++ z ∷ [])
            × After c k z.0
            × (c.lowest_time ≤ℤ z.0)
            × (t <ℤ z.0))
  in_order_or_late k zs t val b stands (inl (k≡0, zs≡nil)) = inl (rw (k≡0, zs≡nil) (b, tt, tt))
  in_order_or_late k zs t val b stands (inr (ys, z, shape, after, lo)) =
      elim (Bool-cases (leb_ℤ z.0 t)) [
        | inl e ↦
            let h : z.0 ≤ℤ t = ground arith in
            inl (
              b,
              After-mono c k z.0 t h after,
              subst (λ l. UpTo l t) (sym shape)
                  (UpTo-snoc ys z t (subst Ascending shape stands.ascending) h),
            )
        | inr e ↦ inr (ys, z, shape, after, lo, ground arith)
      ]

  accepts :
      (state : Option GapfillDeltaTransition) (k : ℕ) (zs rows : List Sample) (current : ℕ)
      → Holds f p c state k zs
      → Stands c k zs
      → Last c k zs
      → Succeeds state rows current ↔ Accepted zs rows
  unfolding aggregate_rows or_new
  accepts state k zs [] current holds stands last =
      (λ h. (tt, rw (fresh-nil, append-nil zs) stands.ascending), λ h. (state, refl))
  accepts state k zs ((t, val) ∷ rows) current holds stands last =
      elim (Bool-cases (leb_ℤ c.lowest_time t && leb_ℤ t c.greatest_time)) [
        | inr e ↦
            refused_iff state zs (t, val) rows current (refusal p)
              (transition-out_of_bounds f (suc r) fcinfo mctx in_aggregate p c state t val current
                (ground arith))
              (λ (inside, ascending). absurd (ground arith))
        | inl e ↦
            let b : InBounds c t = (ground arith, ground arith) in
            elim (Bool-cases (val == stale_nan)) [
              | inl stale ↦
                  let next = some (gapfill f c k zs) in
                  taken_iff state next zs zs (t, val) rows current
                    (call-stale state k zs t val current holds b stale) b
                    (ap (λ l. zs ++ l) (sym (fresh-none t val rows stale)))
                    (accepts next k zs rows current refl stands last)
              | inr stale ↦ elim (in_order_or_late k zs t val b stands last) [
                | inl n ↦
                    let (m, called, stands', last') =
                      call-taken state k zs t val current holds stands n stale in
                    let zs' = zs ++ (t, val) ∷ [] in
                    let next = some (gapfill f c m zs') in
                    taken_iff state next zs zs' (t, val) rows current called b
                      (append_assoc zs ((t, val) ∷ []) (fresh rows)
                        ∙ ap (λ l. zs ++ l) (sym (fresh-some t val rows stale)))
                      (accepts next m zs' rows current refl stands' last')
                | inr (ys, z, shape, after, lo, late) ↦
                    refused_iff state zs (t, val) rows current inputs_not_ascending
                      (call-descending state k ys z t val current (rw shape at holds)
                        (rw shape at stands) after lo b late stale)
                      (λ (inside, ascending).
                        let order =
                          Ascending-pair ys z (t, val) (fresh rows)
                            (rw (shape, fresh-some t val rows stale) at ascending) in
                        absurd (omega arith))
              ]
            ]
      ]

  -- For a valid query whose windows leave no gap, the run of `prom_delta`, `prom_rate` or
  -- `prom_increase` over any rows succeeds exactly if every row lies in [lowest_time, greatest_time]
  -- and the rows that are no stale markers are in ascending order of time; equal times are allowed.
  pub aggregate_rows-ok_iff :
      (rows : List Sample) (current : ℕ)
      → ((state : Option GapfillDeltaTransition) × ((aggregate_rows f
              (suc r)
              p
              c
              fcinfo
              none
              rows
              current).0
            ≡ ok state))
        ↔ (All (λ y. InBounds c y.0) rows × Ascending (fresh rows))
  aggregate_rows-ok_iff rows current =
      accepts none 0 [] rows current (fresh_state-Holds f c v r enough p asks)
        (record { ascending = tt; reached = tt; due = tt }) (inl (refl, refl))
