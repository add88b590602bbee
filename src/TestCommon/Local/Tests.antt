-- ===== src/TestCommon/Local/Tests.antt =====
-- A crate that reads the database off a URL, and a script that is run with it.
use Prim.Native.String.{String, [], ◌∷◌, ◌++◌}
use mathlib.Core.List as Lists
use text.Mathlib.Text.{◌==◌}
use text.Mathlib.TextLemmas.{nil-append, cons-append}
use promscale_extension.Prelude.Codes.{codes}
use promscale_extension.Prelude.{
  ◌≡◌, refl, ap, ◌∙◌, Bool, true, false, Bool-cases, inl, inr, none, some, List, if◌then◌else◌, ok,
}
use promscale_extension.TestCommon.Local.{
  Environment, tcp, Postgres, connection_url, local_config_from_env, exec_sql_script, NamesDatabase,
  exec_sql_script-dbname,
}

-- The database of a URL is what stands behind its last slash.
unfoldable has_slash : String → Bool
has_slash [] = false
has_slash (c ∷ s) = let rest = has_slash s in if (c ∷ []) == "/" then true else rest

unfoldable last_part : String → String
last_part [] = []
last_part (c ∷ s) =
    let rest = last_part s in if has_slash s then rest else if (c ∷ []) == "/" then s else c ∷ s

-- What is put before a slash changes nothing.
keeps_slash : (x s : String) → has_slash s ≡ true → has_slash (x ++ s) ≡ true
unfolding has_slash
keeps_slash [] s h = ap has_slash (nil-append s) ∙ h
keeps_slash (c ∷ x) s h = ap has_slash (cons-append c x s) ∙ under (keeps_slash x s h)
  where
    under : has_slash (x ++ s) ≡ true → has_slash (c ∷ (x ++ s)) ≡ true
    under e = elim (Bool-cases ((c ∷ []) == "/")) [ inl b ↦ rw b refl | inr b ↦ rw b e ]

keeps_last : (x s : String) → has_slash s ≡ true → last_part (x ++ s) ≡ last_part s
unfolding last_part
keeps_last [] s h = ap last_part (nil-append s)
keeps_last (c ∷ x) s h =
    ap last_part (cons-append c x s) ∙ rw (keeps_slash x s h) (keeps_last x s h)

abbrev crate : Postgres
crate = record {
  Config = String;
  parse = λ url. some (last_part url);
  dbname = λ db config. db;
  get_user = λ config. some "postgres";
  get_hosts = λ config. Lists.◌∷◌ (tcp "localhost") Lists.[];
  get_ports = λ config. Lists.◌∷◌ "5432" Lists.[];
  get_dbname = λ config. some config;
}

slash_of_name : has_slash "/test_database_7" ≡ true
unfolding has_slash
slash_of_name = refl

name_of_slash : last_part "/test_database_7" ≡ "test_database_7"
unfolding last_part has_slash
name_of_slash = refl

url-last_part :
    (user host port : String)
    → last_part (connection_url user host port "test_database_7") ≡ "test_database_7"
url-last_part user host port =
    let behind_port = keeps_slash port "/test_database_7" slash_of_name in
    let behind_colon = keeps_slash ":" _ behind_port in
    let behind_host = keeps_slash host _ behind_colon in
    let behind_at = keeps_slash "@" _ behind_host in
    let behind_user = keeps_slash user _ behind_at in
    keeps_last "postgres://" _ behind_user
    ∙ keeps_last user _ behind_at
    ∙ keeps_last "@" _ behind_host
    ∙ keeps_last host _ behind_colon
    ∙ keeps_last ":" _ behind_port
    ∙ keeps_last port _ slash_of_name
    ∙ name_of_slash

crate-NamesDatabase : NamesDatabase crate "test_database_7"
crate-NamesDatabase =
    (λ config. refl, λ user host port u h p d. (_, refl, ap some (url-last_part user host port)))

abbrev environment : Environment
environment = record {
  postgres_url = none;
  postgres_user = some "me";
  postgres_host = none;
  postgres_port = none;
  postgres_db = some "production";
}

abbrev script_options : List String
script_options =
    Lists.◌∷◌ "-d" (Lists.◌∷◌ "test_database_7" (Lists.◌∷◌ "-f" (Lists.◌∷◌ "script.sql" Lists.[])))

exec_sql_script-dbname_example :
    (conf : String) × (options : List String) × (local_config_from_env crate environment
        (some "test_database_7")
      ≡ ok conf)
    × (some conf ≡ some "test_database_7")
    × (exec_sql_script crate environment "test_database_7" "script.sql"
        ≡ ok (Lists.◌++◌ options script_options))
unfolding codes
exec_sql_script-dbname_example =
    exec_sql_script-dbname crate environment "test_database_7" "script.sql" crate-NamesDatabase refl
      (refl, refl, refl)
