-- ===== src/SqlTests.antt =====
-- sql-tests/tests/tests.rs: what the test of one SQL script makes of the output of `psql`.
pub mod Verdicts
mod Tests
use promscale_extension.Prelude.{
  ℕ, Bool, true, false, not, ◌||◌, Option, none, some, List, [], ◌∷◌, ◌==◌, if◌then◌else◌, Result,
  ok, err, ◌>>=◌, assertion_failed,
}
use promscale_extension.PgTap.{Str, PgTapResult, Text, parse_pgtap_result}

-- `full_resource.split_once('/')`, what is behind the first slash, or the whole name without one.
unfoldable pub behind_slash : Str → Option Str
behind_slash [] = none
behind_slash (c ∷ rest) = let later = behind_slash rest in if c == 47 then some rest else later

abbrev pub or_whole : Str → Option Str → Str
or_whole full_resource none = full_resource
or_whole full_resource (some rest) = rest

unfoldable pub resource_of : Str → Str
resource_of full_resource = or_whole full_resource (behind_slash full_resource)

-- `assert_snapshot!`: the crate compares the output with the snapshot of that name.
module _ (t : Text) (snapshot_matches : Str → Str → Bool) where
  abbrev pub check_result : PgTapResult → Result (Unit {0})
  check_result result =
      if not (result.executed_test_count == result.planned_test_count)
        || not (result.success_count == result.planned_test_count)
      then err assertion_failed
      else ok tt

  abbrev pub judge : Str → Str → Option PgTapResult → Result (Unit {0})
  judge resource query_result (some result) = check_result result
  judge resource query_result none =
      if snapshot_matches resource query_result then ok tt else err assertion_failed

  -- The end of `sql_tests`, on the output of the script.
  unfoldable pub sql_test : Str → Str → Result (Unit {0})
  sql_test full_resource query_result = do
    result ← parse_pgtap_result t query_result
    judge (resource_of full_resource) query_result result
