-- ===== src/Build/Tests.antt =====
-- Small migration directories.
use promscale_extension.Prelude.{
  ◌<◌, ◌≡◌, ◌↔◌, refl, List, [], ◌∷◌, ◌++◌, length, if◌then◌else◌, ok, err, gap_or_duplicate,
  prefix_too_high,
}
use promscale_extension.Build.{
  SqlType, incremental, idempotent, File, Host, numeric_prefix, before_dash, parse_i32,
  parse_digits, check_order, wrap, render_loop, render_file,
}
use promscale_extension.Prelude.Codes.{codes}
use promscale_extension.Prelude.Ascii.{same_text}
use promscale_extension.Build.Outputs.{
  Environment, Templates, generate_control_file, features, contains, without, starts_with, var,
  main,
}
use promscale_extension.Build.Main.{Given, Rendered, main-ok_iff}
use promscale_extension.Build.Numbering.{
  Numbered, AllLast, wrapped, render_file-incremental_iff, render_file-idempotent_iff,
}

-- Directories that are listed in order, and wrappers that add nothing.
abbrev host : Host
host = record {
  sort = λ files. files;
  replace_version = λ body. body;
  cargo_pkg_version = [];
  incremental_wrapper = λ filename version body. body;
  idempotent_wrapper = λ filename body. body;
}

-- 001-a
abbrev one : File
one = record { file_name = 48 ∷ 48 ∷ 49 ∷ 45 ∷ 97 ∷ []; contents = 1 ∷ [] }

-- 002-b
abbrev two : File
two = record { file_name = 48 ∷ 48 ∷ 50 ∷ 45 ∷ 98 ∷ []; contents = 2 ∷ [] }

-- 999-c and 1000-d
abbrev last : File
last = record { file_name = 57 ∷ 57 ∷ 57 ∷ 45 ∷ 99 ∷ []; contents = 9 ∷ [] }

abbrev beyond : File
beyond = record { file_name = 49 ∷ 48 ∷ 48 ∷ 48 ∷ 45 ∷ 100 ∷ []; contents = [] }

in_order : render_file host incremental (one ∷ two ∷ []) ≡ ok (1 ∷ 2 ∷ [])
unfolding render_file render_loop numeric_prefix before_dash parse_i32 parse_digits check_order wrap
in_order = refl

gap : render_file host incremental (two ∷ []) ≡ err gap_or_duplicate
unfolding render_file render_loop numeric_prefix before_dash parse_i32 parse_digits check_order wrap
gap = refl

two_last : render_file host idempotent (one ∷ last ∷ last ∷ []) ≡ ok (1 ∷ 9 ∷ 9 ∷ [])
unfolding render_file render_loop numeric_prefix before_dash parse_i32 parse_digits check_order wrap
two_last = refl

too_high : render_file host idempotent (one ∷ last ∷ beyond ∷ []) ≡ err prefix_too_high
unfolding render_file render_loop numeric_prefix before_dash parse_i32 parse_digits check_order wrap
too_high = refl

render_file-incremental_iff_example :
    (render_file host incremental (one ∷ two ∷ []) ≡ ok (1 ∷ 2 ∷ []))
    ↔ (Numbered 1 (one ∷ two ∷ []) × (1 ∷ 2 ∷ [] ≡ wrapped host incremental (one ∷ two ∷ [])))
render_file-incremental_iff_example = render_file-incremental_iff host (one ∷ two ∷ []) (1 ∷ 2 ∷ [])

render_file-idempotent_iff_example :
    (render_file host idempotent (one ∷ last ∷ []) ≡ ok (1 ∷ 9 ∷ [])) ↔ (
      ((front : List File) × (others : List File) × (one ∷ last ∷ [] ≡ front ++ others)
        × Numbered 1 front
        × (length front < 999)
        × AllLast others)
      × (1 ∷ 9 ∷ [] ≡ wrapped host idempotent (one ∷ last ∷ [])))
render_file-idempotent_iff_example = render_file-idempotent_iff host (one ∷ last ∷ []) (1 ∷ 9 ∷ [])

abbrev templates : Templates
templates = record {
  control_file = λ requires_timescaledb is_pg_12.
      (if requires_timescaledb then 1 else 0) ∷ (if is_pg_12 then 1 else 0) ∷ [];
  promscale_000 = λ extension_version. extension_version;
  migration_table = [];
  create_ext_schema = one;
  stop_bgw = [];
}

abbrev files_of : SqlType → List File
files_of incremental = one ∷ two ∷ []
files_of idempotent = one ∷ last ∷ []

abbrev release : Environment
unfolding codes
release =
    (codes "CARGO_MANIFEST_DIR", codes "/src")
    ∷ (codes "CARGO_FEATURE_PG12", codes "1")
    ∷ (codes "PROFILE", codes "release")
    ∷ []

main-ok_iff_example : ((main host templates release files_of).1 ≡ ok tt) ↔ (
    Given (var (codes "CARGO_MANIFEST_DIR") release)
    × Rendered host files_of
    × Given (var (codes "PROFILE") release))
main-ok_iff_example = main-ok_iff host templates release files_of

-- A release build for PostgreSQL 12 requires TimescaleDB and is not trusted.
release_control :
    generate_control_file host templates release
    ≡ ok (record { path = codes "promscale.control"; contents = 1 ∷ 1 ∷ [] } ∷ [])
unfolding generate_control_file features contains without starts_with same_text var codes
release_control = refl
