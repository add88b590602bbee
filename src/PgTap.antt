-- ===== src/PgTap.antt =====
-- pgtap-parse/src/lib.rs: `parse_pgtap_result`. The two regular expressions, the splitting of text
-- and the parsing of numbers are libraries', so parameters.
pub mod Counts
pub mod Patterns
pub mod Lines
pub mod Matches
pub mod Reports
pub mod RoundTrip
pub mod Ascii
mod OwnTests
mod RunTests
mod Tests
use promscale_extension.Prelude.{
  ℕ, zero, suc, ◌+◌, ◌/◌, Bool, true, false, Option, none, some, List, [], ◌∷◌, ◌++◌, ltb, length,
  if◌then◌else◌, Result, ok, err, ◌>>=◌, or_fault, no_number,
}

abbrev pub Str : Type 0
Str = List ℕ

pub data TestResult : Type 0 where
  pass fail : TestResult

pub record PgTapTest : Type 0 where
  pub test_name : Str
  pub test_result : TestResult

pub record PgTapResult : Type 0 where
  pub planned_test_count : ℕ
  pub executed_test_count : ℕ
  pub success_count : ℕ
  pub test_results : List PgTapTest

-- The groups of `plan_re` and of `result_re`; the group "nesting" need not take part in a match.
pub record PlanCaptures : Type 0 where
  pub nesting : Option Str
  pub end : Str

-- The group "result" is an alternative of two words, "ok" and "not ok", so the third arm of the
-- `match` on it is never taken.
pub data ResultWord : Type 0 where
  word_ok word_not_ok : ResultWord

pub record ResultCaptures : Type 0 where
  pub nesting : Option Str
  pub result : ResultWord
  pub name : Str

pub record Text : Type 0 where
  pub lines : Str → List Str
  -- `split(" | ")`.
  pub columns : Str → List Str
  pub plan_re : Str → Option PlanCaptures
  pub result_re : Str → Option ResultCaptures
  pub parse_usize : Str → Option ℕ

-- `map_or(0, |s| s.as_str().len() / 4)`.
abbrev pub nesting_level : Option Str → ℕ
nesting_level none = 0
nesting_level (some s) = length s / 4

abbrev pub result_of : ResultWord → TestResult
result_of word_ok = pass
result_of word_not_ok = fail

-- A column of a line pushes at most one test.
abbrev pub push_result : List PgTapTest → Option ResultCaptures → List PgTapTest
push_result test_results none = test_results
push_result test_results (some c) =
    if ltb 0 (nesting_level c.nesting)
    then test_results
    else test_results ++ record { test_name = c.name; test_result = result_of c.result } ∷ []

abbrev pub is_pass : TestResult → Bool
is_pass pass = true
is_pass fail = false

unfoldable pub count_pass : List PgTapTest → ℕ
count_pass [] = 0
count_pass (r ∷ rest) = let n = count_pass rest in if is_pass r.test_result then suc n else n

module _ (t : Text) where
  unfoldable pub push_columns : List PgTapTest → List Str → List PgTapTest
  push_columns test_results [] = test_results
  push_columns test_results (subline ∷ rest) =
      push_columns (push_result test_results (t.result_re subline)) rest

  -- One line, on the count that is planned and the results so far.
  abbrev pub step_line :
      Option ℕ → List PgTapTest → Str → Option PlanCaptures → Result (Option ℕ × List PgTapTest)
  step_line planned test_results line none =
      ok (planned, push_columns test_results (t.columns line))
  step_line planned test_results line (some c) =
      if ltb 0 (nesting_level c.nesting)
      then ok (planned, test_results)
      else do n ← or_fault no_number (t.parse_usize c.end); ok (some n, test_results)

  unfoldable pub inspect_lines :
      Option ℕ → List PgTapTest → List Str → Result (Option ℕ × List PgTapTest)
  inspect_lines planned test_results [] = ok (planned, test_results)
  inspect_lines planned test_results (line ∷ rest) = do
    s ← step_line planned test_results line (t.plan_re line)
    inspect_lines s.0 s.1 rest

  abbrev pub summarise : Option ℕ × List PgTapTest → Option PgTapResult
  summarise (none, test_results) = none
  summarise (some planned, test_results) = some (record {
    planned_test_count = planned;
    executed_test_count = length test_results;
    success_count = count_pass test_results;
    test_results = test_results;
  })

  unfoldable pub parse_pgtap_result : Str → Result (Option PgTapResult)
  parse_pgtap_result pgtap_output = do
    s ← inspect_lines none [] (t.lines pgtap_output)
    ok (summarise s)
