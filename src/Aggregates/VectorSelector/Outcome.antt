-- ===== src/Aggregates/VectorSelector/Outcome.antt =====
-- src/aggregates/vector_selector.rs: every outcome of `insert`.
use promscale_extension.Prelude.{
  ◌*◌, ◌+◌, ◌≡◌, ltb, if◌then◌else◌, List, [], ◌∷◌, ◌++◌, Bool-cases, inl, inr, Result, ok, err,
  ltb→lt, not-ltb→le, input_time_greater_than_expected, input_time_less_than_expected,
}
use promscale_extension.Prelude.Int.{ℤ, ltb_ℤ, pos_part, neg_part}
use promscale_extension.Aggregates.{F64}
use promscale_extension.Aggregates.VectorSelector.{Sample, VectorSelector, insert}
use promscale_extension.Aggregates.VectorSelector.Query.{Query, IsValid, selector}
use promscale_extension.Aggregates.VectorSelector.Refine.{
  insert-selector, insert-too_late, insert-too_early,
}

-- A sample after the range, one before the lookback window of the first reference time, and one that is
-- taken.
abbrev pub outcome_of : Query → List Sample → ℤ → F64 → Result VectorSelector
outcome_of q xs t val =
    if ltb_ℤ q.end_time t
    then err input_time_greater_than_expected
    else if ltb (pos_part t + neg_part q.start_time + q.lookback * 1000)
        (pos_part q.start_time + neg_part t)
    then err input_time_less_than_expected
    else ok (selector q (xs ++ (t, val) ∷ []))

-- In the state of a valid query that has seen the samples `xs`, `insert` refuses a sample after the
-- end of the range and one before the lookback window of the first reference time, each with its
-- error; with any other sample it goes to the state that has seen that one as well.
pub insert-outcome_of :
    (q : Query)
    → IsValid q
    → (xs : List Sample) (t : ℤ) (val : F64) → insert (selector q xs) t val ≡ outcome_of q xs t val
insert-outcome_of q v xs t val = elim (Bool-cases (ltb_ℤ q.end_time t)) [
  | inl late ↦ rw late (insert-too_late q v xs t val (ltb→lt _ _ late))
  | inr in_time ↦
      elim (Bool-cases (
        ltb (pos_part t + neg_part q.start_time + q.lookback * 1000)
          (pos_part q.start_time + neg_part t))) [
            | inl early ↦ rw (in_time, early) (insert-too_early q v xs t val (ltb→lt _ _ early))
            | inr recent ↦
                rw (in_time, recent)
                  (insert-selector q v xs t val (not-ltb→le _ _ recent, not-ltb→le _ _ in_time))
          ]
]
