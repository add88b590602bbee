-- ===== src/TestCommon/Sessions/Tests.antt =====
-- One test that has connected, while another draws the same number.
use Prim.Native.String.{String}
use promscale_extension.Prelude.{◌≡◌, ◌↔◌, refl, List, [], ◌∷◌, err, database_error}
use promscale_extension.TestCommon.Sessions.{
  World, Run, done, next, start, created, connected, step, temporary_local_db, connect, count,
}
use promscale_extension.TestCommon.Sessions.Reachable.{Invariant, Taken, Run-step-err_iff}

abbrev before : List String
before = "postgres" ∷ []

abbrev in_use : World
in_use = record {
  databases = "test_database_7" ∷ "postgres" ∷ [];
  instances = "test_database_7" ∷ [];
  connections = "test_database_7" ∷ [];
}

reached : Run (start before) in_use
unfolding temporary_local_db connect count
reached = next (created "7") tt refl (next (connected "test_database_7") refl refl done)

Run-step-err_iff_example :
    Invariant before in_use
    × ((step (created "7") in_use ≡ err database_error) ↔ Taken (created "7") in_use)
Run-step-err_iff_example = Run-step-err_iff before in_use (created "7") reached tt

-- The second test panics.
drawn_twice : step (created "7") in_use ≡ err database_error
unfolding temporary_local_db count
drawn_twice = refl
