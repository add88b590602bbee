-- ===== src/PgTap/Counts.antt =====
-- pgtap-parse/src/lib.rs: which tests and which plan the result has.
use mathlib.Core.List.{append_assoc, append-nil}
use promscale_extension.Prelude.{
  ℕ, ◌≤◌, ◌≡◌, refl, sym, ap, ◌∙◌, ◌↔◌, All, Option, none, some, List, [], ◌∷◌, ◌++◌, arith, ltb,
  length, if◌then◌else◌, Bool-cases, inl, inr, ok, first_step, ok_unique, or_fault, no_number,
}
use promscale_extension.PgTap.{
  Str, PgTapTest, PgTapResult, PlanCaptures, ResultCaptures, Text, nesting_level, result_of,
  push_result, count_pass, push_columns, step_line, inspect_lines, summarise, parse_pgtap_result,
}

-- The test that a match of `result_re` reports, none for a nested one.
abbrev pub test_of : Option ResultCaptures → List PgTapTest
test_of none = []
test_of (some c) =
    if ltb 0 (nesting_level c.nesting)
    then []
    else record { test_name = c.name; test_result = result_of c.result } ∷ []

some_unique : (a b : PgTapResult) → some a ≡ some b → a ≡ b
some_unique a b e = cc

or_fault-ok : (m : Option ℕ) (n : ℕ) → or_fault no_number m ≡ ok n → m ≡ some n
or_fault-ok none n e = cc
or_fault-ok (some m) n e = cc

pub count_pass-le-length : (ts : List PgTapTest) → count_pass ts ≤ length ts
unfolding count_pass
count_pass-le-length [] = omega arith
count_pass-le-length (x ∷ ts) = ground (arith, count_pass-le-length ts)

module _ (t : Text) where
  abbrev pub tests_of_columns : List Str → List PgTapTest
  tests_of_columns [] = []
  tests_of_columns (c ∷ cs) = test_of (t.result_re c) ++ tests_of_columns cs

  abbrev pub tests_of_line : Str → Option PlanCaptures → List PgTapTest
  tests_of_line line none = tests_of_columns (t.columns line)
  tests_of_line line (some c) = []

  -- The tests that the lines report, in order: a line with a plan reports none.
  abbrev pub tests_of : List Str → List PgTapTest
  tests_of [] = []
  tests_of (line ∷ rest) = tests_of_line line (t.plan_re line) ++ tests_of rest

  -- The plan after a line, from the plan before it.
  abbrev pub plan_of_line : Option ℕ → Option PlanCaptures → Option ℕ
  plan_of_line planned none = planned
  plan_of_line planned (some c) =
      if ltb 0 (nesting_level c.nesting) then planned else t.parse_usize c.end

  -- The last plan that is not nested.
  abbrev pub plan_of : Option ℕ → List Str → Option ℕ
  plan_of planned [] = planned
  plan_of planned (line ∷ rest) = plan_of (plan_of_line planned (t.plan_re line)) rest

  push_result-test_of :
      (ts : List PgTapTest) (c : Option ResultCaptures) → push_result ts c ≡ ts ++ test_of c
  push_result-test_of ts none = sym (append-nil ts)
  push_result-test_of ts (some c) = elim (Bool-cases (ltb 0 (nesting_level c.nesting))) [
    | inl e ↦ rw e (sym (append-nil ts))
    | inr e ↦ rw e refl
  ]

  pub push_columns-tests_of :
      (ts : List PgTapTest) (cs : List Str) → push_columns t ts cs ≡ ts ++ tests_of_columns cs
  unfolding push_columns
  push_columns-tests_of ts [] = sym (append-nil ts)
  push_columns-tests_of ts (c ∷ cs) =
      push_columns-tests_of (push_result ts (t.result_re c)) cs
      ∙ ap (λ w. w ++ tests_of_columns cs) (push_result-test_of ts (t.result_re c))
      ∙ append_assoc ts (test_of (t.result_re c)) (tests_of_columns cs)

  step_line-ok :
      (planned : Option ℕ) (ts : List PgTapTest) (line : Str) (c : Option PlanCaptures)
      (s : Option ℕ × List PgTapTest)
      → step_line t planned ts line c ≡ ok s
      → (s.0 ≡ plan_of_line planned c) × (s.1 ≡ ts ++ tests_of_line line c)
  step_line-ok planned ts line none s e =
      let same : (planned, push_columns t ts (t.columns line)) ≡ s = ok_unique _ s e in
      (
        ap (λ p. p.0) (sym same),
        ap (λ p. p.1) (sym same) ∙ push_columns-tests_of ts (t.columns line),
      )
  step_line-ok planned ts line (some c) s e = elim (Bool-cases (ltb 0 (nesting_level c.nesting))) [
    | inl b ↦
        let same : (planned, ts) ≡ s = ok_unique _ s (rw b at e) in
        rw b (ap (λ p. p.0) (sym same), ap (λ p. p.1) (sym same) ∙ sym (append-nil ts))
    | inr b ↦
        let (n, parsed, last) =
          first_step (or_fault no_number (t.parse_usize c.end)) _ s (rw b at e) in
        let same : (some n, ts) ≡ s = ok_unique _ s last in
        let number : t.parse_usize c.end ≡ some n = or_fault-ok (t.parse_usize c.end) n parsed in
        rw (b, number) (ap (λ p. p.0) (sym same), ap (λ p. p.1) (sym same) ∙ sym (append-nil ts))
  ]

  inspect_lines-ok :
      (planned : Option ℕ) (ts : List PgTapTest) (ls : List Str) (s : Option ℕ × List PgTapTest)
      → inspect_lines t planned ts ls ≡ ok s
      → (s.0 ≡ plan_of planned ls) × (s.1 ≡ ts ++ tests_of ls)
  unfolding inspect_lines
  inspect_lines-ok planned ts [] s e =
      let same : (planned, ts) ≡ s = ok_unique _ s e in
      (ap (λ p. p.0) (sym same), ap (λ p. p.1) (sym same) ∙ sym (append-nil ts))
  inspect_lines-ok planned ts (line ∷ ls) s e =
      let (s', stepped, e') = first_step (step_line t planned ts line (t.plan_re line)) _ s e in
      let (plan, tests) = step_line-ok planned ts line (t.plan_re line) s' stepped in
      let (plan', tests') = inspect_lines-ok s'.0 s'.1 ls s e' in
      (
        plan' ∙ ap (λ p. plan_of p ls) plan,
        tests'
            ∙ ap (λ w. w ++ tests_of ls) tests
            ∙ append_assoc ts (tests_of_line line (t.plan_re line)) (tests_of ls),
      )

  summarise-some :
      (s : Option ℕ × List PgTapTest) (r : PgTapResult)
      → summarise t s ≡ some r
      → (s.0 ≡ some r.planned_test_count)
        × (r.test_results ≡ s.1)
        × (r.executed_test_count ≡ length s.1)
        × (r.success_count ≡ count_pass s.1)
  summarise-some (none, ts) r e = cc
  summarise-some (some n, ts) r e =
      let same = some_unique _ r e in
      (
        ap (λ x. some x.planned_test_count) same,
        ap (λ x. x.test_results) (sym same),
        ap (λ x. x.executed_test_count) (sym same),
        ap (λ x. x.success_count) (sym same),
      )

  summarise-none : (s : Option ℕ × List PgTapTest) → summarise t s ≡ none → s.0 ≡ none
  summarise-none (none, ts) e = refl
  summarise-none (some n, ts) e = cc

  none-summarise : (s : Option ℕ × List PgTapTest) → s.0 ≡ none → summarise t s ≡ none
  none-summarise (none, ts) e = refl
  none-summarise (some n, ts) e = cc

  -- A result has the tests that the lines report, in order and without the nested ones, the number
  -- of them, the number of those that passed, which is no greater, and the last plan that is not
  -- nested.
  pub parse_pgtap_result-some :
      (pgtap_output : Str) (r : PgTapResult)
      → parse_pgtap_result t pgtap_output ≡ ok (some r)
      → (r.test_results ≡ tests_of (t.lines pgtap_output))
        × (r.executed_test_count ≡ length r.test_results)
        × (r.success_count ≡ count_pass r.test_results)
        × (r.success_count ≤ r.executed_test_count)
        × (plan_of none (t.lines pgtap_output) ≡ some r.planned_test_count)
  unfolding parse_pgtap_result
  parse_pgtap_result-some pgtap_output r e =
      let (s, inspected, e') =
        first_step (inspect_lines t none [] (t.lines pgtap_output)) _ (some r) e in
      let (plan, tests) = inspect_lines-ok none [] (t.lines pgtap_output) s inspected in
      let (planned, results, executed, passed) = summarise-some s r (ok_unique _ (some r) e') in
      let executed' : r.executed_test_count ≡ length r.test_results = rw results executed in
      let passed' : r.success_count ≡ count_pass r.test_results = rw results passed in
      (
        results ∙ tests,
        executed',
        passed',
        omega (arith, count_pass-le-length r.test_results),
        sym plan ∙ planned,
      )

  -- The number of a plan can be read.
  abbrev pub Readable : Option PlanCaptures → Type 0
  Readable none = Unit
  Readable (some c) = (n : ℕ) × (t.parse_usize c.end ≡ some n)

  step_line-Readable :
      (planned : Option ℕ) (ts : List PgTapTest) (line : Str) (c : Option PlanCaptures)
      → Readable c
      → (s : Option ℕ × List PgTapTest) × (step_line t planned ts line c ≡ ok s)
  step_line-Readable planned ts line none h = ((planned, push_columns t ts (t.columns line)), refl)
  step_line-Readable planned ts line (some c) h =
      elim (Bool-cases (ltb 0 (nesting_level c.nesting))) [
        | inl b ↦ ((planned, ts), rw b refl)
        | inr b ↦ ((some h.0, ts), rw (b, h.1) refl)
      ]

  inspect_lines-Readable :
      (planned : Option ℕ) (ts : List PgTapTest) (ls : List Str)
      → All (λ line. Readable (t.plan_re line)) ls
      → (s : Option ℕ × List PgTapTest) × (inspect_lines t planned ts ls ≡ ok s)
  unfolding inspect_lines
  inspect_lines-Readable planned ts [] h = ((planned, ts), refl)
  inspect_lines-Readable planned ts (line ∷ ls) h =
      let (s, stepped) = step_line-Readable planned ts line (t.plan_re line) h.0 in
      let (s', rest) = inspect_lines-Readable s.0 s.1 ls h.1 in (s', rw stepped rest)

  -- Where the number of each plan can be read, the parser returns, with no result exactly if no line
  -- has a plan that is not nested.
  pub parse_pgtap_result-Readable :
      (pgtap_output : Str)
      → All (λ line. Readable (t.plan_re line)) (t.lines pgtap_output)
      → (o : Option PgTapResult) × (parse_pgtap_result t pgtap_output ≡ ok o)
        × ((o ≡ none) ↔ (plan_of none (t.lines pgtap_output) ≡ none))
  unfolding parse_pgtap_result
  parse_pgtap_result-Readable pgtap_output h =
      let (s, inspected) = inspect_lines-Readable none [] (t.lines pgtap_output) h in
      let (plan, tests) = inspect_lines-ok none [] (t.lines pgtap_output) s inspected in
      (
        summarise t s,
        rw inspected refl,
        (λ e. sym plan ∙ summarise-none s e, λ e. none-summarise s (plan ∙ e)),
      )
