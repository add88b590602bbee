-- ===== src/SqlTests/Tests.antt =====
-- A script of which one test of two fails.
use promscale_extension.Prelude.{◌≡◌, ◌↔◌, refl, false, All, [], ◌∷◌, ◌++◌, ok, length}
use promscale_extension.PgTap.{pass, fail}
use promscale_extension.PgTap.Patterns.{text, parse_decimal}
use promscale_extension.PgTap.Matches.{has_dots}
use promscale_extension.PgTap.Reports.{Row, print_run, tests_of_rows, IsRow}
use promscale_extension.PgTap.Ascii.{ascii, ascii_unicode}
use promscale_extension.SqlTests.{sql_test, behind_slash, resource_of}
use promscale_extension.SqlTests.Verdicts.{Passed, sql_test-print_run_iff}

abbrev two_tests : Row
two_tests = (
  record { number = 49 ∷ []; test = record { test_name = 120 ∷ []; test_result = pass } },
  record { number = 50 ∷ []; test = record { test_name = []; test_result = fail } } ∷ [],
)

two_tests-IsRow : IsRow ascii two_tests
unfolding has_dots
two_tests-IsRow = (((refl, tt), ((refl, refl, refl), tt), refl), (((refl, tt), tt, refl), tt))

sql_test-print_run_iff_example :
    (sql_test
        (text ascii)
        (λ name output. false)
        (116 ∷ 47 ∷ 97 ∷ [])
        (print_run [] (49 ∷ []) (50 ∷ []) (two_tests ∷ []))
      ≡ ok tt)
    ↔ ((length (tests_of_rows [] ++ tests_of_rows (two_tests ∷ [])) ≡ 2)
        × All Passed (tests_of_rows [] ++ tests_of_rows (two_tests ∷ [])))
unfolding parse_decimal
sql_test-print_run_iff_example =
    sql_test-print_run_iff ascii ascii_unicode (λ name output. false) (116 ∷ 47 ∷ 97 ∷ []) []
      (two_tests ∷ []) (49 ∷ []) (50 ∷ []) 2 tt (two_tests-IsRow, tt) (refl, tt) (refl, tt) refl

-- `sql-tests/testdata/a.sql` is the resource `testdata/a.sql`.
behind_first_slash : resource_of (116 ∷ 47 ∷ 97 ∷ 47 ∷ 98 ∷ []) ≡ 97 ∷ 47 ∷ 98 ∷ []
unfolding resource_of behind_slash
behind_first_slash = refl
