-- ===== src/TestCommon/Image.antt =====
-- test-common/src/postgres_container/mod.rs and blueprint.rs: the images that containers are made of.
pub mod Uris
use Prim.Native.Char.{Char, code}
use Prim.Native.String.{String, [], ◌∷◌, ◌++◌}
use text.Mathlib.Text.{◌==◌}
use promscale_extension.Prelude.{
  ℕ, Bool, true, false, Option, none, some, if◌then◌else◌, Result, ok, err, unknown_version,
}

pub data ImageOrigin : Type 0 where
  local latest master : ImageOrigin

pub data PgVersion : Type 0 where
  v15 v14 v13 v12 : PgVersion

-- `try_from`.
abbrev pub try_from : String → Result PgVersion
try_from value =
    if value == "15"
    then ok v15
    else if value == "14"
    then ok v14
    else if value == "13"
    then ok v13
    else if value == "12"
    then ok v12
    else err unknown_version

-- `Display`.
abbrev pub fmt : PgVersion → String
fmt v15 = "15"
fmt v14 = "14"
fmt v13 = "13"
fmt v12 = "12"

abbrev pub origin_prefix : ImageOrigin → String
origin_prefix local = "local/dev_promscale_extension:head-ts2-"
origin_prefix latest = "timescaledev/promscale-extension:latest-ts2.7.0-"
origin_prefix master = "ghcr.io/timescale/dev_promscale_extension:master-ts2-"

abbrev pub version_suffix : PgVersion → String
version_suffix v12 = "pg12"
version_suffix v13 = "pg13"
version_suffix v14 = "pg14"
version_suffix v15 = "pg15"

abbrev pub postgres_image_uri : ImageOrigin → PgVersion → String
postgres_image_uri origin version = origin_prefix origin ++ version_suffix version

abbrev pub is_colon : Char → Bool
is_colon c = (c ∷ []) == ":"

abbrev pub split_here : Char → String → Option (String × String) → Option (String × String)
split_here c s none = if is_colon c then some ([], s) else none
split_here c s (some (before, after)) = some (c ∷ before, after)

-- `rsplit_once(":")`: at the last colon.
unfoldable pub rsplit_once : String → Option (String × String)
rsplit_once [] = none
rsplit_once (c ∷ s) = split_here c s (rsplit_once s)

abbrev pub name_and_tag : String → Option (String × String) → String × String
name_and_tag img_uri none = (img_uri, "latest")
name_and_tag img_uri (some (img_name, tag)) = (img_name, tag)

-- The name and the tag that the image of a URI is made with.
abbrev pub image_name_and_tag : String → String × String
image_name_and_tag img_uri = name_and_tag img_uri (rsplit_once img_uri)
