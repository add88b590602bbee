-- ===== src/TestCommon/Local.antt =====
-- test-common/src/local_postgres_instance.rs: the configuration of a connection to a local database,
-- and the arguments that a script is run with. The crate `postgres` is a parameter.
mod Tests
use Prim.Native.String.{String}
use Prim.Native.String as Text
use mathlib.Core.List.{append_assoc}
use promscale_extension.Prelude.Codes.{codes}
use promscale_extension.Prelude.{
  ℕ, ◌+◌, ◌-◌, ◌*◌, ◌≡◌, refl, sym, ap, ◌∙◌, Bool, true, false, ◌&&◌, ◌||◌, leb, ◌==◌, Option, none,
  some, Option-cases, inl, inr, List, [], ◌∷◌, ◌++◌, Result, ok, err, ◌>>=◌, or_fault, bad_config,
}

-- The variables that are read, where they are set.
pub record Environment : Type 0 where
  pub postgres_url : Option String
  pub postgres_user : Option String
  pub postgres_host : Option String
  pub postgres_port : Option String
  pub postgres_db : Option String

pub data Host : Type 0 where
  tcp : String → Host
  unix : String → Host

pub record Postgres : Type 1 where
  pub Config : Type 0
  -- `str::parse`.
  pub parse : String → Option Config
  pub dbname : String → Config → Config
  pub get_user : Config → Option String
  pub get_hosts : Config → List Host
  -- As they are printed.
  pub get_ports : Config → List String
  pub get_dbname : Config → Option String

abbrev pub unwrap_or : Option String → String → String
unwrap_or none default = default
unwrap_or (some value) default = value

abbrev pub connection_url : String → String → String → String → String
connection_url user host port db = Text.◌++◌ "postgres://" (
    Text.◌++◌ user
      (Text.◌++◌ "@" (Text.◌++◌ host (Text.◌++◌ ":" (Text.◌++◌ port (Text.◌++◌ "/" db))))))

-- The connection string where `POSTGRES_URL` is not set.
abbrev pub url_from_env : Environment → Option String → String
url_from_env env database =
    connection_url (unwrap_or env.postgres_user "postgres")
      (unwrap_or env.postgres_host "localhost") (unwrap_or env.postgres_port "5432")
      (unwrap_or database (unwrap_or env.postgres_db "postgres"))

-- A letter, a digit, `_`, `-` or `.`, none of which has a meaning in a URL.
abbrev pub is_plain : ℕ → Bool
is_plain c =
    (leb 97 c && leb c 122)
    || (leb 65 c && leb c 90)
    || (leb 48 c && leb c 57)
    || c == 95
    || c == 45
    || c == 46

abbrev pub all_plain : List ℕ → Bool
all_plain [] = true
all_plain (c ∷ s) = is_plain c && all_plain s

abbrev pub is_name : List ℕ → Bool
is_name [] = false
is_name (c ∷ s) = all_plain (c ∷ s)

-- Digits with a value, after digits of the value `n`, of at most 65535.
abbrev pub port_digits : ℕ → List ℕ → Bool
port_digits n [] = leb n 65535
port_digits n (c ∷ s) = leb 48 c && leb c 57 && port_digits (n * 10 + (c - 48)) s

abbrev pub is_port : List ℕ → Bool
is_port [] = false
is_port (c ∷ s) = port_digits 0 (c ∷ s)

regroup : (a b c rest : List String) → a ++ (b ++ (c ++ rest)) ≡ (a ++ (b ++ c)) ++ rest
regroup a b c rest =
    ap (λ l. a ++ l) (sym (append_assoc b c rest)) ∙ sym (append_assoc a (b ++ c) rest)

module _ (p : Postgres) where
  open p use {Config, parse, dbname, get_user, get_hosts, get_ports, get_dbname}

  abbrev pub with_database : Option String → Config → Config
  with_database none config = config
  with_database (some db) config = dbname db config

  abbrev pub config_from : Environment → Option String → Option String → Result Config
  config_from env database (some url) = do
    config ← or_fault bad_config (parse url)
    ok (with_database database config)
  config_from env database none = or_fault bad_config (parse (url_from_env env database))

  unfoldable pub local_config_from_env : Environment → (database : Option String) → Result Config
  local_config_from_env env database = config_from env database env.postgres_url

  abbrev pub flag : String → Option String → List String
  flag name none = []
  flag name (some value) = name ∷ value ∷ []

  abbrev pub first_host : List Host → Option String
  first_host (tcp hostname ∷ hosts) = some hostname
  first_host _ = none

  abbrev pub first_port : List String → Option String
  first_port [] = none
  first_port (port ∷ ports) = some port

  abbrev pub psql_args : Config → String → List String
  psql_args conf script_path =
      flag "-U" (get_user conf)
      ++ (flag "-h" (first_host (get_hosts conf))
          ++ (flag "-p" (first_port (get_ports conf))
              ++ (flag "-d" (get_dbname conf) ++ "-f" ∷ script_path ∷ [])))

  -- The arguments that `psql` is run with, for the database `db_name` of the instance.
  unfoldable pub exec_sql_script :
      Environment → (db_name script_path : String) → Result (List String)
  exec_sql_script env db_name script_path = do
    conf ← local_config_from_env env (some db_name)
    ok (psql_args conf script_path)

  -- A configuration takes a new name; and a URL whose parts are plain is read, and ends in the name of
  -- the database.
  abbrev pub NamesDatabase : String → Type 0
  NamesDatabase db =
      ((config : Config) → get_dbname (dbname db config) ≡ some db)
      × ((user host port : String)
          → is_name (codes user) ≡ true
          → is_name (codes host) ≡ true
          → is_port (codes port) ≡ true
          → is_name (codes db) ≡ true
          → (config : Config) × (parse (connection_url user host port db) ≡ some config)
            × (get_dbname config ≡ some db))

  -- The environment is well formed: `POSTGRES_URL` can be read, if it is set; or else the user and the
  -- host are plain names and the port is a number, each by its variable or by default.
  abbrev pub IsWellFormed : Environment → Option String → Type 0
  IsWellFormed env none =
      (is_name (codes (unwrap_or env.postgres_user "postgres")) ≡ true)
      × (is_name (codes (unwrap_or env.postgres_host "localhost")) ≡ true)
      × (is_port (codes (unwrap_or env.postgres_port "5432")) ≡ true)
  IsWellFormed env (some url) = (config : Config) × (parse url ≡ some config)

  config_from-dbname :
      (env : Environment) (db : String) (url : Option String)
      → NamesDatabase db
      → is_name (codes db) ≡ true
      → IsWellFormed env url
      → (config : Config) × (config_from env (some db) url ≡ ok config)
        × (get_dbname config ≡ some db)
  config_from-dbname env db none (renamed, parsed) plain (user, host, port) =
      let (config, e, named) =
        parsed (unwrap_or env.postgres_user "postgres") (unwrap_or env.postgres_host "localhost")
          (unwrap_or env.postgres_port "5432") user host port plain in
      (config, ap (or_fault bad_config) e, named)
  config_from-dbname env db (some url) (renamed, parsed) plain (config, e) =
      (dbname db config, rw e refl, renamed config)

  -- In an environment whose `POSTGRES_URL` can be read or, if it is not set, whose user, host and port
  -- are plain, and for an instance with a plain name, a script is run against the database of the
  -- instance and no other: the configuration has its name, also where the environment names another
  -- database, and `psql` gets it as its last option before the script. The crate is asked to read
  -- URLs of plain parts only.
  pub exec_sql_script-dbname :
      (env : Environment) (db_name script_path : String)
      → NamesDatabase db_name
      → is_name (codes db_name) ≡ true
      → IsWellFormed env env.postgres_url
      → (conf : Config) × (options : List String) × (local_config_from_env env (some db_name)
          ≡ ok conf)
        × (get_dbname conf ≡ some db_name)
        × (exec_sql_script env db_name script_path
            ≡ ok (options ++ "-d" ∷ db_name ∷ "-f" ∷ script_path ∷ []))
  unfolding local_config_from_env exec_sql_script
  exec_sql_script-dbname env db_name script_path names plain h =
      let (conf, e, named) = config_from-dbname env db_name env.postgres_url names plain h in
      let u : List String = flag "-U" (get_user conf) in
      let h : List String = flag "-h" (first_host (get_hosts conf)) in
      let port : List String = flag "-p" (first_port (get_ports conf)) in
      (
        conf,
        u ++ (h ++ port),
        e,
        named,
        rw e (
            ap (λ d. ok (u ++ (h ++ (port ++ (flag "-d" d ++ "-f" ∷ script_path ∷ []))))) named
            ∙ ap ok (regroup u h port ("-d" ∷ db_name ∷ "-f" ∷ script_path ∷ []))),
      )
