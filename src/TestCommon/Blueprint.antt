-- ===== src/TestCommon/Blueprint.antt =====
-- test-common/src/postgres_container/blueprint.rs: what a container is made from, and the connection
-- string of mod.rs `connect`.
pub mod Variables
pub mod Calls
pub mod Builders
use Prim.Native.String.{String, ◌++◌}
use text.Mathlib.Text.{◌==◌}
use promscale_extension.Prelude.{
  ℕ, Bool, true, false, Option, none, some, List, [], ◌∷◌, if◌then◌else◌, Result, ok, err, ◌>>=◌,
  or_fault, unset_variable,
}
use promscale_extension.TestCommon.Image.{local, v14, postgres_image_uri, image_name_and_tag}

-- `HashMap<String, String>`; the order of the entries is of no account.
abbrev pub Entries : Type 0
Entries = List (String × String)

-- `HashMap::insert`.
unfoldable pub insert_entry : String → String → Entries → Entries
insert_entry k v [] = (k, v) ∷ []
insert_entry k v ((k', v') ∷ rest) =
    let inserted = insert_entry k v rest in if k' == k then (k, v) ∷ rest else (k', v') ∷ inserted

-- `HashMap::get`.
unfoldable pub get_entry : String → Entries → Option String
get_entry k [] = none
get_entry k ((k', v') ∷ rest) = let found = get_entry k rest in if k' == k then some v' else found

-- Without the client of docker.
pub record PostgresContainerBlueprint : Type 0 where
  pub image_uri : String
  pub volumes : Entries
  pub env_vars : Entries

-- The value of `TS_DOCKER_IMAGE`, if it is set.
abbrev pub default_image_uri : Option String → String
default_image_uri none = postgres_image_uri local v14
default_image_uri (some ts_docker_image) = ts_docker_image

abbrev pub with_image_uri : String → PostgresContainerBlueprint → PostgresContainerBlueprint
with_image_uri image_uri self = record self { image_uri = image_uri }

abbrev pub with_volume : String → String → PostgresContainerBlueprint → PostgresContainerBlueprint
with_volume from dest self = record self { volumes = insert_entry from dest self.volumes }

abbrev pub with_env_var : String → String → PostgresContainerBlueprint → PostgresContainerBlueprint
with_env_var k v self = record self { env_vars = insert_entry k v self.env_vars }

abbrev pub with_db : String → PostgresContainerBlueprint → PostgresContainerBlueprint
with_db v self = with_env_var "POSTGRES_DB" v self

abbrev pub with_user : String → PostgresContainerBlueprint → PostgresContainerBlueprint
with_user v self = with_env_var "POSTGRES_USER" v self

abbrev pub with_password : String → PostgresContainerBlueprint → PostgresContainerBlueprint
with_password v self = with_env_var "POSTGRES_PASSWORD" v self

abbrev pub with_testdata : String → PostgresContainerBlueprint → PostgresContainerBlueprint
with_testdata src self = with_volume src "/testdata" self

abbrev pub new : Option String → PostgresContainerBlueprint
new ts_docker_image = with_env_var "POSTGRES_HOST_AUTH_METHOD" "trust" (
    with_password "postgres-password-test" (
      with_user "postgres-user-test" (
        with_db "postgres-db-test"
          (record { image_uri = default_image_uri ts_docker_image; volumes = []; env_vars = [] }))))

abbrev pub db : PostgresContainerBlueprint → Result String
db self = or_fault unset_variable (get_entry "POSTGRES_DB" self.env_vars)

abbrev pub user : PostgresContainerBlueprint → Result String
user self = or_fault unset_variable (get_entry "POSTGRES_USER" self.env_vars)

abbrev pub password : PostgresContainerBlueprint → Result String
password self = or_fault unset_variable (get_entry "POSTGRES_PASSWORD" self.env_vars)

-- Of `connect`, with the port of the host as it is printed.
abbrev pub connection_string : (port : String) → PostgresContainerBlueprint → Result String
connection_string port pg_blueprint = do
  u ← user pg_blueprint
  p ← password pg_blueprint
  d ← db pg_blueprint
  ok ("postgres://" ++ (u ++ (":" ++ (p ++ ("@localhost:" ++ (port ++ ("/" ++ d)))))))

-- `GenericImage`, by the calls that configure it.
pub record GenericImage : Type 0 where
  pub name : String
  pub tag : String
  -- `WaitFor::message_on_stderr`.
  pub wait_for : String
  pub mounted : Entries
  pub set_variables : Entries

abbrev pub prepare_image : PostgresContainerBlueprint → GenericImage
prepare_image self =
    let (img_name, img_tag) = image_name_and_tag self.image_uri in
    record {
      name = img_name;
      tag = img_tag;
      wait_for = "database system is ready to accept connections";
      mounted = [];
      set_variables = [];
    }

-- Each entry in a call of its own.
abbrev pub push : Entries → Entries → Entries
push entries [] = entries
push entries (e ∷ rest) = push (e ∷ entries) rest

-- The image that `run` hands to docker.
abbrev pub run : PostgresContainerBlueprint → GenericImage
run self =
    let img = prepare_image self in
    record img {
      mounted = push img.mounted self.volumes;
      set_variables = push img.set_variables self.env_vars;
    }
