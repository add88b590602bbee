-- ===== src/Build/Outputs.antt =====
-- build.rs: the four files that the build script writes, and what decides on them. Writing to the file
-- system succeeds; the templates are rendered by the crate `askama`, a parameter.
use promscale_extension.Prelude.{
  ℕ, zero, suc, Bool, true, false, not, ◌&&◌, ◌||◌, Option, none, some, List, [], ◌∷◌, ◌++◌, ◌==◌,
  if◌then◌else◌, Result, ok, err, ◌>>=◌, or_fault, unset_variable, length,
}
use promscale_extension.Prelude.Codes.{codes}
use promscale_extension.Prelude.Ascii.{same_text, to_ascii_lowercase}
use promscale_extension.Build.{Str, SqlType, incremental, File, Host, wrap, render_sql}

-- The variables of the environment, by name.
abbrev pub Environment : Type 0
Environment = List (Str × Str)

-- A file that is written, below the directory of the manifest.
pub record Output : Type 0 where
  pub path : Str
  pub contents : Str

-- The rest of the templates, and the files that `include_str!` and `wrap` read for the bootstrap.
pub record Templates : Type 0 where
  pub control_file : (requires_timescaledb is_pg_12 : Bool) → Str
  pub promscale_000 : (extension_version : Str) → Str
  pub migration_table : Str
  pub create_ext_schema : File
  pub stop_bgw : Str

unfoldable pub starts_with : Str → Str → Bool
starts_with [] s = true
starts_with (p ∷ prefix) [] = false
starts_with (p ∷ prefix) (c ∷ s) = c == p && starts_with prefix s

-- `replace(pattern, "")`, with the characters of a match that are still to be left out.
unfoldable pub without : Str → ℕ → Str → Str
without pattern skip [] = []
without pattern (suc skip) (c ∷ s) = without pattern skip s
without [] zero (c ∷ s) = c ∷ without [] zero s
without (p ∷ pattern) zero (c ∷ s) =
    let left_out = without (p ∷ pattern) (length pattern) s in
    let kept = without (p ∷ pattern) zero s in
    if starts_with (p ∷ pattern) (c ∷ s) then left_out else c ∷ kept

-- `env::var`.
unfoldable pub var : Str → Environment → Option Str
var name [] = none
var name ((k, v) ∷ env) = let later = var name env in if same_text k name then some v else later

abbrev pub cargo_feature : Str
unfolding codes
cargo_feature = codes "CARGO_FEATURE_"

-- The set of the features that cargo has turned on.
unfoldable pub features : Environment → List Str
features [] = []
features ((k, v) ∷ env) =
    let rest = features env in
    if starts_with cargo_feature k
    then to_ascii_lowercase (without cargo_feature 0 k) ∷ rest
    else rest

unfoldable pub contains : List Str → Str → Bool
contains [] feature = false
contains (f ∷ rest) feature = same_text f feature || contains rest feature

module _ (h : Host) (t : Templates) where
  unfoldable pub render_bootstrap : Str
  render_bootstrap = t.migration_table ++ wrap h incremental t.create_ext_schema ++ t.stop_bgw

  unfoldable pub generate_migration_sql : (SqlType → List File) → Result (List Output)
  generate_migration_sql files_of = do
    rendered_sql ← render_sql h files_of
    ok (
        record { path = codes "hand-written-migration.sql"; contents = rendered_sql }
        ∷ record { path = codes "bootstrap.sql"; contents = render_bootstrap }
        ∷ [])

  unfoldable pub generate_control_file : Environment → Result (List Output)
  generate_control_file env = do
    profile ← or_fault unset_variable (var (codes "PROFILE") env)
    let is_pg_12 = contains (features env) (codes "pg12")
    let is_release_build = same_text profile (codes "release")
    let requires_timescaledb = is_release_build && not (contains (features env) (codes "pg_test"))
    ok (
        record {
          path = codes "promscale.control";
          contents = t.control_file requires_timescaledb is_pg_12;
        }
        ∷ [])

  unfoldable pub generate_promscale_000_sql : List Output
  generate_promscale_000_sql =
      record {
        path = codes "sql/promscale--0.0.0.sql";
        contents = t.promscale_000 h.cargo_pkg_version;
      }
      ∷ []

  -- The files of a step that panics or succeeds come before those of the steps after it.
  abbrev pub then_write :
      Result (List Output) → List Output × Result (Unit {0}) → List Output × Result (Unit {0})
  then_write (err e) rest = ([], err e)
  then_write (ok written) (outputs, result) = (written ++ outputs, result)

  abbrev pub no_files : Option Str → Result (List Output)
  no_files none = err unset_variable
  no_files (some dir) = ok []

  -- `main`, the files that are written and whether it panics.
  unfoldable pub main : Environment → (SqlType → List File) → List Output × Result (Unit {0})
  main env files_of = then_write (no_files (var (codes "CARGO_MANIFEST_DIR") env)) (
      then_write (generate_migration_sql files_of)
        (then_write (generate_control_file env) (generate_promscale_000_sql, ok tt)))
