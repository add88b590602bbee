-- ===== src/PgTap/OwnTests.antt =====
-- pgtap-parse/src/lib.rs: the tests of the parser, run on the model of its two patterns with the
-- digits and the white space of ASCII. A test is the lines of its input and what it expects.
use Prim.Native.String.{String}
use promscale_extension.Prelude.{◌≡◌, refl, Option, none, some, List, [], ◌∷◌, ◌++◌, ok}
use promscale_extension.Prelude.Codes.{codes}
use promscale_extension.PgTap.Ascii.{ascii}
use promscale_extension.PgTap.{
  Str, PgTapTest, PgTapResult, pass, fail, TestResult, count_pass, push_columns, inspect_lines,
  parse_pgtap_result,
}
use promscale_extension.PgTap.Patterns.{
  text, strip_prefix, search, take_digits, nested, plan_body, result_word, result_body, plan_re,
  result_re, split_lines, strip_return, ended_lines, split_bars, parse_decimal,
}

-- A line feed stands between two lines.
abbrev pub text_of : List String → Str
text_of [] = []
text_of (line ∷ []) = codes line
text_of (line ∷ next ∷ rest) = codes line ++ 10 ∷ text_of (next ∷ rest)

abbrev pub reported : TestResult → String → PgTapTest
reported test_result test_name = record { test_name = codes test_name; test_result = test_result }

record TestCase : Type 0 where
  input : List String
  expected : Option PgTapResult

abbrev Passes : TestCase → Type 0
Passes t = parse_pgtap_result (text ascii) (text_of t.input) ≡ ok t.expected

abbrev given_no_pgtap_input_it_returns_null : TestCase
given_no_pgtap_input_it_returns_null = record { input = "" ∷ []; expected = none }

abbrev given_pgtap_success_it_returns_success : TestCase
given_pgtap_success_it_returns_success = record {
  input =
      "" ∷ " plan" ∷ "-------" ∷ " 1..1" ∷ "(1 row)" ∷ "" ∷ "                  ok"
      ∷ "---------------------------------------" ∷ " ok 1 - none of the chunks are deleted"
      ∷ "(1 row)" ∷ "        " ∷ [];
  expected = some (record {
    planned_test_count = 1;
    executed_test_count = 1;
    success_count = 1;
    test_results = reported pass "none of the chunks are deleted" ∷ [];
  });
}

abbrev given_pgtap_success_no_test_name_it_returns_success : TestCase
given_pgtap_success_no_test_name_it_returns_success = record {
  input =
      "" ∷ " plan" ∷ "-------" ∷ " 1..1" ∷ "(1 row)" ∷ "" ∷ "                  ok"
      ∷ "---------------------------------------" ∷ " ok 1" ∷ "(1 row)" ∷ "        " ∷ [];
  expected = some (record {
    planned_test_count = 1;
    executed_test_count = 1;
    success_count = 1;
    test_results = reported pass "" ∷ [];
  });
}

abbrev given_pgtap_failure_it_returns_failure : TestCase
given_pgtap_failure_it_returns_failure = record {
  input =
      "" ∷ " plan" ∷ "-------" ∷ " 1..1" ∷ "(1 row)" ∷ "" ∷ "                  ok"
      ∷ "---------------------------------------" ∷ " not ok 1 - none of the chunks are deleted"
      ∷ "(1 row)" ∷ "        " ∷ [];
  expected = some (record {
    planned_test_count = 1;
    executed_test_count = 1;
    success_count = 0;
    test_results = reported fail "none of the chunks are deleted" ∷ [];
  });
}

abbrev given_pgtap_missing_test_it_returns_failure : TestCase
given_pgtap_missing_test_it_returns_failure = record {
  input = "" ∷ " plan" ∷ "-------" ∷ " 1..1" ∷ "(1 row)" ∷ "        " ∷ [];
  expected = some (record {
    planned_test_count = 1;
    executed_test_count = 0;
    success_count = 0;
    test_results = [];
  });
}

abbrev given_pgtap_test_count_after_results_it_parses_correctly : TestCase
given_pgtap_test_count_after_results_it_parses_correctly = record {
  input =
      "" ∷ " plan" ∷ "-------" ∷ " ok 1 - public.test_create_ingest_temp_table" ∷ " 1..1"
      ∷ "(2 rows)" ∷ "        " ∷ [];
  expected = some (record {
    planned_test_count = 1;
    executed_test_count = 1;
    success_count = 1;
    test_results = reported pass "public.test_create_ingest_temp_table" ∷ [];
  });
}

abbrev given_pgtap_subtest_it_parses_correctly : TestCase
given_pgtap_subtest_it_parses_correctly = record {
  input =
      "" ∷ "                                               runtests"
      ∷ "------------------------------------------------------------------------------------------------------"
      ∷ "     # Subtest: subtest_one()" ∷ "     ok 1 - subtest one test one"
      ∷ "     ok 2 - subtest one test two" ∷ "     1..2" ∷ "     # Subtest: subtest_two()"
      ∷ "     ok 1 - subtest two test one" ∷ "     1..1" ∷ " ok 1 - subtest_one()"
      ∷ " ok 2 - subtest_two()" ∷ " 1..2" ∷ "(10 rows)" ∷ "        " ∷ [];
  expected = some (record {
    planned_test_count = 2;
    executed_test_count = 2;
    success_count = 2;
    test_results = reported pass "subtest_one()" ∷ reported pass "subtest_two()" ∷ [];
  });
}

abbrev given_pgtap_output_contains_multiple_results_per_line : TestCase
given_pgtap_output_contains_multiple_results_per_line = record {
  input =
      "" ∷ " plan" ∷ "-------" ∷ " 1..2" ∷ "(1 row)" ∷ "           ok           |        ok"
      ∷ "------------------------+-------------------"
      ∷ " ok 8 - subplan is used | ok 9 - uses index" ∷ "(1 row)" ∷ "" ∷ [];
  expected = some (record {
    planned_test_count = 2;
    executed_test_count = 2;
    success_count = 2;
    test_results = reported pass "subplan is used" ∷ reported pass "uses index" ∷ [];
  });
}

-- Each test passes.
all_pass :
    Passes given_no_pgtap_input_it_returns_null
    × Passes given_pgtap_success_it_returns_success
    × Passes given_pgtap_success_no_test_name_it_returns_success
    × Passes given_pgtap_failure_it_returns_failure
    × Passes given_pgtap_missing_test_it_returns_failure
    × Passes given_pgtap_test_count_after_results_it_parses_correctly
    × Passes given_pgtap_subtest_it_parses_correctly
    × Passes given_pgtap_output_contains_multiple_results_per_line
unfolding codes parse_pgtap_result inspect_lines push_columns count_pass strip_prefix search
    take_digits nested plan_body result_word result_body plan_re result_re split_lines strip_return
    ended_lines split_bars parse_decimal
all_pass = (refl, refl, refl, refl, refl, refl, refl, refl)
