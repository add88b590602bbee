-- ===== src/TestCommon/Sessions.antt =====
-- test-common/src/local_postgres_instance.rs: the databases that the tests create on a local server,
-- connect to and drop. The server is PostgreSQL, of which the tests rely on this: CREATE DATABASE fails
-- on a name that is taken, and DROP DATABASE on one that is missing or that someone is connected to.
pub mod Reachable
mod Tests
use Prim.Native.String.{String}
use Prim.Native.String as Text
use text.Mathlib.Text.{◌==◌}
use promscale_extension.Prelude.{
  ℕ, suc, Bool, true, false, not, ◌&&◌, ◌≡◌, List, [], ◌∷◌, ltb, if◌then◌else◌, Result, ok, err,
  database_error,
}

-- How often a name stands in a list.
unfoldable pub count : String → List String → ℕ
count k [] = 0
count k (x ∷ xs) = let n = count k xs in if x == k then suc n else n

abbrev pub has : String → List String → Bool
has k xs = ltb 0 (count k xs)

-- Without the first one of that name.
unfoldable pub remove : String → List String → List String
remove k [] = []
remove k (x ∷ xs) = let rest = remove k xs in if x == k then xs else x ∷ rest

-- The databases of the server, the names that the live instances have, and for each open connection of a
-- test the name of the database.
pub record World : Type 0 where
  pub databases : List String
  pub instances : List String
  pub connections : List String

-- `number` is a random `u16`, as it is printed.
abbrev pub generate_random_db_name : String → String
generate_random_db_name number = Text.◌++◌ "test_database_" number

unfoldable pub temporary_local_db : String → World → Result World
temporary_local_db number w =
    let db_name = generate_random_db_name number in
    if has db_name w.databases
    then err database_error
    else ok (record w { databases = db_name ∷ w.databases; instances = db_name ∷ w.instances })

unfoldable pub connect : String → World → Result World
connect db_name w =
    if has db_name w.databases
    then ok (record w { connections = db_name ∷ w.connections })
    else err database_error

-- The client of a connection that is dropped closes it.
unfoldable pub close : String → World → Result World
close db_name w = ok (record w { connections = remove db_name w.connections })

unfoldable pub drop_instance : String → World → Result World
drop_instance db_name w =
    if has db_name w.databases && not (has db_name w.connections)
    then ok (record w {
      databases = remove db_name w.databases;
      instances = remove db_name w.instances;
    })
    else err database_error

pub data Event : Type 0 where
  created connected closed dropped : String → Event

abbrev pub step : Event → World → Result World
step (created number) = temporary_local_db number
step (connected db_name) = connect db_name
step (closed db_name) = close db_name
step (dropped db_name) = drop_instance db_name

-- What the lifetimes of the types let a test do: a connection holds on to its instance.
abbrev pub Allowed : Event → World → Type 0
Allowed (created number) w = Unit
Allowed (connected db_name) w = has db_name w.instances ≡ true
Allowed (closed db_name) w = has db_name w.connections ≡ true
Allowed (dropped db_name) w = (has db_name w.instances ≡ true) × (has db_name w.connections ≡ false)

-- A run of the tests, in any order of their steps.
pub data Run : World → World → Type 0 where
  done : {w : World} → Run w w
  next : {w w' w'' : World} (e : Event) → Allowed e w → step e w ≡ ok w' → Run w' w'' → Run w w''

-- Before the first test.
abbrev pub start : List String → World
start databases = record { databases = databases; instances = []; connections = [] }
