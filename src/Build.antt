-- ===== src/Build.antt =====
-- build.rs: the migration script is put together from numbered files. The file system, `sort` and
-- `replace` of the standard library and the rendering of the templates are parameters.
pub mod Numbering
pub mod Outputs
pub mod Main
mod Tests
use promscale_extension.Prelude.{
  ℕ, zero, suc, ◌+◌, ◌-◌, ◌*◌, ◌^◌, ◌≡◌, Bool, true, false, not, ◌&&◌, ◌||◌, Option, none, some,
  List, [], ◌∷◌, ◌++◌, ltb, leb, ◌==◌, if◌then◌else◌, Result, ok, err, ◌>>=◌, or_fault, no_dash,
  no_number, gap_or_duplicate, prefix_too_high,
}

abbrev pub Str : Type 0
Str = List ℕ

pub data SqlType : Type 0 where
  incremental idempotent : SqlType

-- A file of a migration directory: its name and what `read_file` gives.
pub record File : Type 0 where
  pub file_name : Str
  pub contents : Str

pub record Host : Type 0 where
  pub sort : List File → List File
  -- `replace(EXTENSION_VERSION_PLACEHOLDER, version)`.
  pub replace_version : Str → Str
  pub cargo_pkg_version : Str
  pub incremental_wrapper : (filename version body : Str) → Str
  pub idempotent_wrapper : (filename body : Str) → Str

-- `split_once('-')`, the part before the dash.
unfoldable pub before_dash : Str → Option Str
before_dash [] = none
before_dash (c ∷ rest) =
    let found = before_dash rest in if c == 45 then some [] else add_front c found
  where
    add_front : ℕ → Option Str → Option Str
    add_front c none = none
    add_front c (some s) = some (c ∷ s)

abbrev pub is_digit : ℕ → Bool
is_digit c = leb 48 c && leb c 57

unfoldable pub parse_digits : ℕ → Str → Option ℕ
parse_digits acc [] = some acc
parse_digits acc (c ∷ rest) =
    let more = parse_digits (acc * 10 + (c - 48)) rest in if is_digit c then more else none

abbrev pub within_i32 : Option ℕ → Option ℕ
within_i32 none = none
within_i32 (some n) = if ltb n (2 ^ 31) then some n else none

-- `parse::<i32>()` of a string without a dash, so without a minus sign.
unfoldable pub parse_i32 : Str → Option ℕ
parse_i32 [] = none
parse_i32 (c ∷ []) = if is_digit c then some (c - 48) else none
parse_i32 (c ∷ d ∷ rest) =
    if c == 43
    then within_i32 (parse_digits 0 (d ∷ rest))
    else within_i32 (parse_digits 0 (c ∷ d ∷ rest))

unfoldable pub numeric_prefix : Str → Result ℕ
numeric_prefix file_name = do
  prefix ← or_fault no_dash (before_dash file_name)
  or_fault no_number (parse_i32 prefix)

-- The two assertions. `prev + 1` of the largest i32 is no prefix, however it wraps.
unfoldable pub check_order : SqlType → ℕ → ℕ → Result (Unit {0})
check_order incremental prev curr = if curr == suc prev then ok tt else err gap_or_duplicate
check_order idempotent prev curr =
    if not (curr == 999) && not (curr == suc prev)
    then err gap_or_duplicate
    else if curr == 1000
    then err prefix_too_high
    else ok tt

module _ (h : Host) where
  unfoldable pub wrap : SqlType → File → Str
  wrap incremental f =
      h.incremental_wrapper f.file_name h.cargo_pkg_version (h.replace_version f.contents)
  wrap idempotent f = h.idempotent_wrapper f.file_name (h.replace_version f.contents)

  -- The loop of `render_file`.
  unfoldable pub render_loop : SqlType → ℕ → Str → List File → Result Str
  render_loop sql_type prev result [] = ok result
  render_loop sql_type prev result (path ∷ paths) = do
    curr ← numeric_prefix path.file_name
    _ ← check_order sql_type prev curr
    render_loop sql_type curr (result ++ wrap sql_type path) paths

  unfoldable pub render_file : SqlType → List File → Result Str
  render_file sql_type files = render_loop sql_type 0 [] (h.sort files)

  unfoldable pub render_sql : (SqlType → List File) → Result Str
  render_sql files_of = do
    first ← render_file incremental (files_of incremental)
    second ← render_file idempotent (files_of idempotent)
    ok ([] ++ first ++ second)
