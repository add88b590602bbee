-- ===== src/TestCommon/Container.antt =====
-- test-common/src: the instance in a container (test_container_instance.rs, and `connect` of
-- postgres_container/mod.rs) and the choice of an instance (lib.rs). Docker and the client of PostgreSQL
-- are parameters.
use Prim.Native.String.{String, ◌++◌}
use promscale_extension.Prelude.{
  ℕ, Bool, true, false, Option, none, some, List, [], ◌∷◌, Result, ok, err, ◌>>=◌, unwrap_failed,
}
use promscale_extension.Prelude.Codes.{codes}
use promscale_extension.Prelude.Ascii.{same_text, to_ascii_lowercase}
use promscale_extension.TestCommon.Retry.{Attempt, succeeded, failed, retry}
use promscale_extension.TestCommon.Blueprint.{
  PostgresContainerBlueprint, GenericImage, connection_string, user, db, run,
}

-- A running container: its id and the port of the host that leads to 5432.
pub record PostgresContainer : Type 0 where
  pub id : String
  pub host_port : String

pub record TestContainerInstance : Type 0 where
  pub pg_blueprint : PostgresContainerBlueprint
  pub container : PostgresContainer

-- The command of `bash -c`.
abbrev pub psql_command : (user db script_path : String) → String
psql_command user db script_path =
    "psql -U " ++ (user ++ (" -d " ++ (db ++ (" -f " ++ (script_path ++ " 2>&1")))))

-- The arguments of `docker`.
unfoldable pub exec_sql_script : TestContainerInstance → String → Result (List String)
exec_sql_script self script_path = do
  u ← user self.pg_blueprint
  d ← db self.pg_blueprint
  ok ("exec" ∷ "-w" ∷ "/" ∷ self.container.id ∷ "bash" ∷ "-c" ∷ psql_command u d script_path ∷ [])

-- The value of `USE_DOCKER`, if it is set.
unfoldable pub use_docker : Option String → Bool
use_docker none = false
use_docker (some val) = same_text (to_ascii_lowercase (codes val)) (codes "true")

pub data Instance : Type 0 where
  in_container : TestContainerInstance → Instance
  on_local_server : Instance

module _ (World Client Error : Type 0)
    (run_image : GenericImage → World → PostgresContainer × World)
    (client_connect : String → World → Attempt Client Error × World)
    (sleep : ℕ → World → World) where
  unfoldable pub fresh_instance : PostgresContainerBlueprint → World → TestContainerInstance × World
  fresh_instance pg_blueprint w =
      let (container, w') = run_image (run pg_blueprint) w in
      (record { pg_blueprint = pg_blueprint; container = container }, w')

  -- `unwrap`.
  abbrev pub unwrap : Result (Attempt Client Error) × World → Result Client × World
  unwrap (ok (succeeded client), w) = (ok client, w)
  unwrap (ok (failed error), w) = (err unwrap_failed, w)
  unwrap (err fault, w) = (err fault, w)

  abbrev pub connect_to : Result String → World → Result Client × World
  connect_to (err fault) w = (err fault, w)
  connect_to (ok conn) w = unwrap (retry Client Error World (client_connect conn) sleep 3 w)

  unfoldable pub connect : TestContainerInstance → World → Result Client × World
  connect self w = connect_to (connection_string self.container.host_port self.pg_blueprint) w

  unfoldable pub new_test_instance_from_env :
      Option String → PostgresContainerBlueprint → World → Instance × World
  new_test_instance_from_env env pg_blueprint w = elim (use_docker env) [
    | true ↦ let (fresh, w') = fresh_instance pg_blueprint w in (in_container fresh, w')
    | false ↦ (on_local_server, w)
  ]
