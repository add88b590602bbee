-- ===== src/PgTap/RoundTrip.antt =====
-- pgtap-parse/src/lib.rs: `parse_pgtap_result` on what a run of pgTAP prints.
use mathlib.Core.List.{append_assoc, append-nil}
use promscale_extension.Prelude.{
  ◌≡◌, refl, sym, ap, ◌∙◌, All, All-append, Option, none, some, List, [], ◌∷◌, ◌++◌, map, length,
  ok, ℕ,
}
use promscale_extension.PgTap.{
  Str, PgTapTest, pass, fail, TestResult, result_of, push_columns, inspect_lines, count_pass,
  parse_pgtap_result,
}
use promscale_extension.PgTap.Patterns.{Unicode, text, parse_usize}
use promscale_extension.PgTap.Counts.{tests_of_columns, push_columns-tests_of}
use promscale_extension.PgTap.Lines.{InLine, lines-unlines}
use promscale_extension.PgTap.Matches.{
  IsUnicode, IsNumber, print_plan, word_of, plan_re-none, plan_re-print_plan,
  result_re-print_report, result_re-blank_report,
}
use promscale_extension.PgTap.Reports.{
  Report, Row, print, print_row, print_rows, print_run, tests_of_row, tests_of_rows, IsReport,
  IsRow, print_row-has_dots, print_plan-InLine, print_rows-InLine, columns-print_row,
}

module _ (u : Unicode) (unicode : IsUnicode u) where
  result_of-word_of : (r : TestResult) → result_of (word_of r) ≡ r
  result_of-word_of pass = refl
  result_of-word_of fail = refl

  tests_of_columns-print :
      (others : List Report)
      → All (IsReport u) others
      → tests_of_columns (text u) (map print others) ≡ map (λ r. r.test) others
  tests_of_columns-print [] h = refl
  tests_of_columns-print (r ∷ others) h =
      rw
        (
          result_re-print_report u unicode r.number r.test h.0.0,
          result_of-word_of r.test.test_result,
          tests_of_columns-print others h.1,
        )
        refl

  tests_of_columns-row :
      (first : Report) (others : List Report)
      → IsRow u (first, others)
      → tests_of_columns (text u) ((32 ∷ print first) ∷ map print others)
        ≡ tests_of_row (first, others)
  tests_of_columns-row first others h =
      rw
        (
          result_re-blank_report u unicode first.number first.test h.0.0,
          result_of-word_of first.test.test_result,
          tests_of_columns-print others h.1,
        )
        refl

  push_columns-row :
      (ts : List PgTapTest) (first : Report) (others : List Report)
      → IsRow u (first, others)
      → push_columns (text u) ts ((32 ∷ print first) ∷ map print others)
        ≡ ts ++ tests_of_row (first, others)
  push_columns-row ts first others h =
      push_columns-tests_of (text u) ts ((32 ∷ print first) ∷ map print others)
      ∙ ap (λ w. ts ++ w) (tests_of_columns-row first others h)

  inspect_lines-print_rows :
      (rows : List Row) (planned : Option ℕ) (ts : List PgTapTest) (rest : List Str)
      → All (IsRow u) rows
      → inspect_lines (text u) planned ts (print_rows rows ++ rest)
        ≡ inspect_lines (text u) planned (ts ++ tests_of_rows rows) rest
  unfolding inspect_lines
  inspect_lines-print_rows [] planned ts rest h =
      ap (λ w. inspect_lines (text u) planned w rest) (sym (append-nil ts))
  inspect_lines-print_rows ((first, others) ∷ rows) planned ts rest h =
      let row = tests_of_row (first, others) in
      rw
        (
          plan_re-none u (print_row (first, others))
              (print_row-has_dots u unicode (first, others) h.0),
          columns-print_row u unicode first others h.0,
          push_columns-row ts first others h.0,
        )
        (inspect_lines-print_rows rows planned (ts ++ row) rest h.1
          ∙ ap (λ w. inspect_lines (text u) planned w rest)
              (append_assoc ts row (tests_of_rows rows)))

  print_run-InLine :
      (before after : List Row) (start end : Str)
      → All (IsRow u) before
      → All (IsRow u) after
      → IsNumber u start
      → IsNumber u end
      → All (All InLine) (print_rows before ++ print_plan start end ∷ print_rows after)
  print_run-InLine before after start end hb ha hs he =
      All-append (All InLine) (print_rows before) (print_plan start end ∷ print_rows after)
        (print_rows-InLine u unicode before hb)
        (print_plan-InLine u unicode start end hs he, print_rows-InLine u unicode after ha)

  inspect_lines-print_plan :
      (start end : Str) (n : ℕ) (ts : List PgTapTest) (rest : List Str)
      → IsNumber u start
      → IsNumber u end
      → parse_usize end ≡ some n
      → inspect_lines (text u) none ts (print_plan start end ∷ rest)
        ≡ inspect_lines (text u) (some n) ts rest
  unfolding inspect_lines
  inspect_lines-print_plan start end n ts rest hs he hn =
      rw (plan_re-print_plan u unicode start end hs he, hn) refl

  -- The output of a run, of which each line is a row of reports but for one with the plan, is parsed:
  -- the tests are those that were reported, in order, and are counted, and the plan is the one that
  -- was printed, wherever its line is. A name takes no line break, no bar and no two full stops in a
  -- row, and the end of the plan is a number that fits.
  pub parse_pgtap_result-print_run :
      (before after : List Row) (start end : Str) (n : ℕ)
      → All (IsRow u) before
      → All (IsRow u) after
      → IsNumber u start
      → IsNumber u end
      → parse_usize end ≡ some n
      → parse_pgtap_result (text u) (print_run before start end after) ≡ (
          let tests = tests_of_rows before ++ tests_of_rows after in
          ok (
            some (record {
              planned_test_count = n;
              executed_test_count = length tests;
              success_count = count_pass tests;
              test_results = tests;
            })))
  unfolding parse_pgtap_result inspect_lines
  parse_pgtap_result-print_run before after start end n hb ha hs he hn =
      let run = print_run-InLine before after start end hb ha hs he in
      let before' =
        inspect_lines-print_rows before none [] (print_plan start end ∷ print_rows after) hb in
      let plan =
        inspect_lines-print_plan start end n (tests_of_rows before) (print_rows after) hs he hn in
      let after' =
        ap (inspect_lines (text u) (some n) (tests_of_rows before))
          (sym (append-nil (print_rows after)))
        ∙ inspect_lines-print_rows after (some n) (tests_of_rows before) [] ha in
      rw (lines-unlines _ run, before', plan, after') refl
