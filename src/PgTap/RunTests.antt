-- ===== src/PgTap/RunTests.antt =====
-- Runs of the parser on printed reports.
use promscale_extension.Prelude.{
  ◌≡◌, refl, some, [], ◌∷◌, ◌++◌, ok, err, no_number, leb, ◌||◌, ◌&&◌, length,
}
use promscale_extension.Prelude.Codes.{codes}
use promscale_extension.PgTap.{
  pass, fail, count_pass, push_columns, inspect_lines, parse_pgtap_result,
}
use promscale_extension.PgTap.Patterns.{
  Unicode, text, strip_prefix, search, take_digits, nested, plan_body, result_word, result_body,
  plan_re, result_re, split_lines, strip_return, ended_lines, split_bars, parse_decimal,
}
use promscale_extension.PgTap.Matches.{has_dots}
use promscale_extension.PgTap.Reports.{Row, print_run, tests_of_rows, IsRow}
use promscale_extension.PgTap.RoundTrip.{parse_pgtap_result-print_run}
use promscale_extension.PgTap.Ascii.{ascii, ascii_unicode}
use promscale_extension.PgTap.OwnTests.{reported}

abbrev a_row : Row
a_row = (
  record {
    number = 49 ∷ [];
    test = record { test_name = 120 ∷ 46 ∷ 121 ∷ []; test_result = pass };
  },
  record { number = 50 ∷ []; test = record { test_name = []; test_result = fail } } ∷ [],
)

a_row-IsRow : IsRow ascii a_row
unfolding has_dots
a_row-IsRow = (
  ((refl, tt), ((refl, refl, refl), ((refl, refl, refl), ((refl, refl, refl), tt))), refl),
  (((refl, tt), tt, refl), tt),
)

-- Two tests of a row and the same row again, with the plan 1..4 between them.
parse_pgtap_result-print_run_example :
    parse_pgtap_result (text ascii) (print_run (a_row ∷ []) (49 ∷ []) (52 ∷ []) (a_row ∷ [])) ≡ (
      let tests = tests_of_rows (a_row ∷ []) ++ tests_of_rows (a_row ∷ []) in
      ok (
        some (record {
          planned_test_count = 4;
          executed_test_count = length tests;
          success_count = count_pass tests;
          test_results = tests;
        })))
unfolding parse_decimal
parse_pgtap_result-print_run_example =
    parse_pgtap_result-print_run ascii ascii_unicode (a_row ∷ []) (a_row ∷ []) (49 ∷ []) (52 ∷ []) 4
      (a_row-IsRow, tt) (a_row-IsRow, tt) (refl, tt) (refl, tt) refl

-- A description with two full stops between digits is taken for a plan: the test is lost, and three
-- planned tests become five.
a_range_is_a_plan :
    parse_pgtap_result (text ascii) (
      codes " 1..3"
      ++ 10 ∷ codes " ok 1 - one"
      ++ 10 ∷ codes " ok 2 - range 1..5 is kept"
      ++ 10 ∷ codes " ok 3 - three")
    ≡ ok (
        some (record {
          planned_test_count = 5;
          executed_test_count = 2;
          success_count = 2;
          test_results = reported pass "one" ∷ reported pass "three" ∷ [];
        }))
unfolding codes parse_pgtap_result inspect_lines push_columns count_pass strip_prefix search
    take_digits nested plan_body result_word result_body plan_re result_re split_lines strip_return
    ended_lines split_bars parse_decimal
a_range_is_a_plan = refl

-- The digits of ASCII and three of Arabic.
abbrev more_digits : Unicode
more_digits = record ascii { is_decimal = λ c. ascii.is_decimal c || leb 1632 c && leb c 1641 }

-- A plan 1..3 whose last number is an Arabic digit ends the parser.
other_digits_panic :
    parse_pgtap_result (text more_digits) (codes " 1.." ++ 1635 ∷ 10 ∷ []) ≡ err no_number
unfolding codes parse_pgtap_result inspect_lines push_columns count_pass strip_prefix search
    take_digits nested plan_body plan_re split_lines strip_return ended_lines parse_decimal
other_digits_panic = refl
