-- ===== src/PgTap/Tests.antt =====
-- A run on text of one character per line.
use promscale_extension.Prelude.{
  ℕ, zero, suc, ◌≤◌, ◌≡◌, ◌↔◌, refl, Option, none, some, List, [], ◌∷◌, length, ok,
}
use promscale_extension.PgTap.{
  Str, pass, fail, PgTapResult, PlanCaptures, ResultCaptures, word_ok, word_not_ok, Text,
  count_pass, push_columns, inspect_lines, parse_pgtap_result,
}
use promscale_extension.PgTap.Counts.{
  tests_of, plan_of, parse_pgtap_result-some, parse_pgtap_result-Readable,
}

abbrev one_by_one : Str → List Str
one_by_one [] = []
one_by_one (c ∷ rest) = (c ∷ []) ∷ one_by_one rest

-- A line of 2 plans two tests, a line of 0 or of 1 is a test that fails or passes.
abbrev plan_line : Str → Option PlanCaptures
plan_line (suc (suc n) ∷ rest) = some (record { nesting = none; end = suc (suc n) ∷ [] })
plan_line _ = none

abbrev result_line : Str → Option ResultCaptures
result_line (zero ∷ rest) = some (record { nesting = none; result = word_not_ok; name = [] })
result_line (suc zero ∷ rest) = some (record { nesting = none; result = word_ok; name = [] })
result_line _ = none

abbrev head_of : Str → Option ℕ
head_of [] = none
head_of (c ∷ rest) = some c

abbrev text : Text
text = record {
  lines = one_by_one;
  columns = λ line. line ∷ [];
  plan_re = plan_line;
  result_re = result_line;
  parse_usize = head_of;
}

abbrev output : Str
output = 2 ∷ 1 ∷ 0 ∷ []

abbrev expected : PgTapResult
expected = record {
  planned_test_count = 2;
  executed_test_count = 2;
  success_count = 1;
  test_results =
      record { test_name = []; test_result = pass }
      ∷ record { test_name = []; test_result = fail }
      ∷ [];
}

output_runs : parse_pgtap_result text output ≡ ok (some expected)
unfolding parse_pgtap_result inspect_lines push_columns count_pass
output_runs = refl

parse_pgtap_result-some_example :
    (expected.test_results ≡ tests_of text (one_by_one output))
    × (2 ≡ length expected.test_results)
    × (1 ≡ count_pass expected.test_results)
    × (1 ≤ 2)
    × (plan_of text none (one_by_one output) ≡ some 2)
parse_pgtap_result-some_example = parse_pgtap_result-some text output expected output_runs

parse_pgtap_result-Readable_example :
    (o : Option PgTapResult) × (parse_pgtap_result text output ≡ ok o)
    × ((o ≡ none) ↔ (plan_of text none (one_by_one output) ≡ none))
parse_pgtap_result-Readable_example =
    parse_pgtap_result-Readable text output ((2, refl), (tt, (tt, tt)))
