-- ===== src/Aggregates/Gapfill/New.antt =====
-- `GapfillDeltaTransition::new` of src/aggregates/gapfill_delta.rs on a valid query, and how many
-- windows the query has.
use promscale_extension.Prelude.{
  ℕ, zero, suc, ◌+◌, ◌-◌, ◌*◌, ◌/◌, ◌%◌, ◌^◌, ◌<◌, ◌≤◌, ◌≡◌, ap, Bool, true, false, not, [], arith,
  if◌then◌else◌, Bool-cases, inl, inr, ok, lt→ltb, le→not-ltb, ltb→lt, not-ltb→le, ltb,
}
use promscale_extension.Prelude.Int.{pos, pos_part, neg_part, eqb_ℤ, to_bits, ◌-ℤ◌, ◌<ℤ◌, sub, add}
use promscale_extension.Prelude.Int.Exact.{
  exact, divided, lt_of_mul-lt, nonneg_difference, +ℤ_parts, -ℤ_parts, mul-pos, div-pos, rem-pos,
}
use promscale_extension.Aggregates.Float.{FloatOps}
use promscale_extension.Aggregates.Gapfill.{new, check_capacity}
use promscale_extension.Aggregates.Gapfill.Windows.{keep}
use promscale_extension.Aggregates.Gapfill.State.{
  Config, IsValid, window_min, window_max, deltas, gapfill, window_count,
}
use promscale_extension.Aggregates.Gapfill.Flush.{Due}

check_capacity-small :
    (q : ℕ) (b : Bool)
    → q < 2 ^ 54
    → check_capacity (to_bits (if b then add (pos q) (pos 1) else pos q)) ≡ ok tt
unfolding check_capacity to_bits
check_capacity-small q true h =
    let next : add (pos q) (pos 1) ≡ pos (suc q) = omega exact in
    let word : suc q % 2 ^ 64 ≡ suc q = omega arith in rw (next, word) (ground arith)
check_capacity-small q false h = let word : q % 2 ^ 64 ≡ q = omega arith in rw word (ground arith)

small_quotient : (q s d : ℕ) → 0 < s → q * (s * 1000) ≤ d → q * 1000 ≤ d
small_quotient q s d h k = grind arith

quotient_unique : (j q s : ℕ) → j * s < suc q * s → q * s < suc j * s → j ≡ q
quotient_unique j q s h k =
    let up : j < suc q = lt_of_mul-lt j (suc q) s h in
    let down : q < suc j = lt_of_mul-lt q (suc j) s k in omega arith

module _ (c : Config) (v : IsValid c) where
  abbrev span : ℕ
  span = pos_part (c.greatest_time -ℤ c.lowest_time)

  span_parts :
      pos_part c.greatest_time + neg_part c.lowest_time
      ≡ span + pos_part c.lowest_time + neg_part c.greatest_time
  span_parts =
      let whole : c.greatest_time -ℤ c.lowest_time ≡ pos span =
        nonneg_difference c.greatest_time c.lowest_time v.ordered in
      omega (arith, -ℤ_parts c.greatest_time c.lowest_time, ap pos_part whole, ap neg_part whole)

  -- The constructor, on a valid query, makes the state of no samples and no flushes.
  pub new-gapfill :
      (f : FloatOps)
      → new c.lowest_time c.greatest_time (pos c.range) (pos c.step_size) c.is_counter c.is_rate
        ≡ ok (gapfill f c 0 [])
  unfolding new keep deltas
  new-gapfill f =
      let s = c.step_size * 1000 in
      let (whole, small, le) = divided span s (omega arith) in
      let difference : sub c.greatest_time c.lowest_time ≡ pos span = omega (exact, span_parts) in
      let few : span / s * 1000 ≤ span =
        small_quotient (span / s) c.step_size span v.step_positive (omega arith) in
      let first_max : add c.lowest_time (pos (c.range * 1000)) ≡ window_max c 0 = omega exact in
      let first_min : c.lowest_time ≡ window_min c 0 = omega exact in
      rw
        (
          difference,
          mul-pos c.step_size 1000 (omega arith),
          mul-pos c.range 1000 (omega arith),
          div-pos span s (omega arith),
          rem-pos span s (omega arith),
          check_capacity-small (span / s) (not (eqb_ℤ (pos (span % s)) (pos 0)))
              (omega (arith, span_parts)),
          first_max,
        )
        (ap (λ t. ok (record (gapfill f c 0 []) { current_window_min = t })) first_min)

  -- The flushes that `as_vec` has done when it stops are as many as there are windows.
  pub window_count_lem : (m : ℕ) → c.greatest_time <ℤ window_max c m → Due c m → m ≡ window_count c
  window_count_lem zero over due =
      let short : span < c.range * 1000 = omega (arith, span_parts, +ℤ_parts) in
      rw (lt→ltb _ _ short)
  window_count_lem (suc j) over due =
      let long : c.range * 1000 ≤ span = omega (arith, span_parts, +ℤ_parts) in
      let s = c.step_size * 1000 in
      let rest = span - c.range * 1000 in
      let (whole, small, le) = divided rest s (omega arith) in
      let below : j * s ≤ rest = omega (arith, span_parts, +ℤ_parts) in
      let above : rest < suc j * s = omega (arith, span_parts, +ℤ_parts) in
      rw (le→not-ltb _ _ long) (ap suc (quotient_unique j (rest / s) s (omega arith) (omega arith)))

  -- The window with the number of the windows ends after the greatest time.
  pub past_last_window : (r : ℕ) → window_count c ≤ r → c.greatest_time <ℤ window_max c r
  past_last_window r h = elim (Bool-cases (ltb span (c.range * 1000))) [
    | inl e ↦
        let short : span < c.range * 1000 = ltb→lt _ _ e in omega (arith, span_parts, +ℤ_parts)
    | inr e ↦
        let long : c.range * 1000 ≤ span = not-ltb→le _ _ e in
        let s = c.step_size * 1000 in
        let rest = span - c.range * 1000 in
        let (whole, small, le) = divided rest s (omega arith) in
        let enough : suc (rest / s) ≤ r = rw e at h in
        let more : suc (rest / s) * s ≤ r * s = grind arith in omega (arith, span_parts, +ℤ_parts)
  ]
