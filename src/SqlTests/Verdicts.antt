-- ===== src/SqlTests/Verdicts.antt =====
-- sql-tests/tests/tests.rs and pgtap-parse/src/lib.rs together: which runs of pgTAP pass.
use promscale_extension.Prelude.{
  ℕ, suc, ◌≡◌, refl, sym, ◌∙◌, Bool-cases, inl, inr, assertion_failed, ◌↔◌, All, Bool, true, some,
  List, [], ◌∷◌, ◌++◌, arith, ◌==◌, length, ok, err,
}
use promscale_extension.PgTap.{Str, PgTapTest, TestResult, pass, fail, is_pass, count_pass}
use promscale_extension.PgTap.Counts.{count_pass-le-length}
use promscale_extension.PgTap.Patterns.{Unicode, text, parse_usize}
use promscale_extension.PgTap.Matches.{IsUnicode, IsNumber}
use promscale_extension.PgTap.Reports.{Row, print_run, tests_of_rows, IsRow}
use promscale_extension.PgTap.RoundTrip.{parse_pgtap_result-print_run}
use promscale_extension.SqlTests.{check_result, sql_test}

abbrev pub Passed : PgTapTest → Type 0
Passed test = test.test_result ≡ pass

count_pass-All : (ts : List PgTapTest) → All Passed ts → count_pass ts ≡ length ts
unfolding count_pass
count_pass-All [] h = refl
count_pass-All (x ∷ ts) h = rw (h.0, count_pass-All ts h.1) refl

passed_of : (r : TestResult) → is_pass r ≡ true → r ≡ pass
passed_of pass h = refl
passed_of fail h = cc

All-count_pass : (ts : List PgTapTest) → count_pass ts ≡ length ts → All Passed ts
unfolding count_pass
All-count_pass [] h = tt
All-count_pass (x ∷ ts) h = elim (Bool-cases (is_pass x.test_result)) [
  | inl e ↦
      let fewer : suc (count_pass ts) ≡ suc (length ts) = rw e at h in
      (passed_of x.test_result e, All-count_pass ts (omega arith))
  | inr e ↦
      let more : count_pass ts ≡ suc (length ts) = rw e at h in
      absurd (omega (arith, count_pass-le-length ts))
]

eq_of_test : (a b : ℕ) → a == b ≡ true → a ≡ b
eq_of_test a b h = ground arith

test_of_eq : (a b : ℕ) → a ≡ b → a == b ≡ true
test_of_eq a b h = ground arith

module _ (u : Unicode) (unicode : IsUnicode u) (snapshot_matches : Str → Str → Bool) where
  check_result-ok :
      (ts : List PgTapTest) (n : ℕ)
      → (check_result (text u) snapshot_matches (record {
        planned_test_count = n;
        executed_test_count = length ts;
        success_count = count_pass ts;
        test_results = ts;
      })
          ≡ ok tt)
        ↔ ((length ts ≡ n) × All Passed ts)
  check_result-ok ts n = (
    λ e. elim (Bool-cases (length ts == n)) [
      | inl counted ↦ elim (Bool-cases (count_pass ts == n)) [
        | inl passed ↦
            let all : length ts ≡ n = eq_of_test _ _ counted in
            let good : count_pass ts ≡ n = eq_of_test _ _ passed in
            (all, All-count_pass ts (good ∙ sym all))
        | inr missed ↦
            let bad : err assertion_failed ≡ ok tt = rw (counted, missed) at e in absurd (cc)
      ]
      | inr lost ↦ let bad : err assertion_failed ≡ ok tt = rw lost at e in absurd (cc)
    ],
    λ h. rw (test_of_eq _ _ h.0, test_of_eq _ _ (count_pass-All ts h.1 ∙ h.0)) refl,
  )

  -- The SQL test of a script passes on what a run of pgTAP prints exactly when as many tests are
  -- reported as the plan says and every one of them passed, wherever the plan stands. A name takes no
  -- line break, no bar and no two full stops in a row, and the end of the plan is a number that fits.
  pub sql_test-print_run_iff :
      (full_resource : Str) (before after : List Row) (start end : Str) (n : ℕ)
      → All (IsRow u) before
      → All (IsRow u) after
      → IsNumber u start
      → IsNumber u end
      → parse_usize end ≡ some n
      → (sql_test (text u) snapshot_matches full_resource (print_run before start end after)
          ≡ ok tt)
        ↔ ((length (tests_of_rows before ++ tests_of_rows after) ≡ n)
            × All Passed (tests_of_rows before ++ tests_of_rows after))
  unfolding sql_test
  sql_test-print_run_iff full_resource before after start end n hb ha hs he hn =
      rw (parse_pgtap_result-print_run u unicode before after start end n hb ha hs he hn)
        (check_result-ok (tests_of_rows before ++ tests_of_rows after) n)
