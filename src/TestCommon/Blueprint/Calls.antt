-- ===== src/TestCommon/Blueprint/Calls.antt =====
-- test-common/src/postgres_container/blueprint.rs: sequences of calls of the builders, and what they
-- leave in the maps and in the image of a blueprint.
use Prim.Native.String.{String}
use text.Mathlib.Text.{◌==◌}
use text.Mathlib.TextEquality.{eq_iff}
use promscale_extension.Prelude.{
  ◌≡◌, refl, sym, ap, ◌∙◌, Bool-cases, Option, none, some, inl, inr, List, [], ◌∷◌, if◌then◌else◌,
}
use promscale_extension.TestCommon.Blueprint.{
  Entries, insert_entry, get_entry, PostgresContainerBlueprint, with_image_uri, with_volume,
  with_env_var, with_testdata, new, with_db, with_user, with_password,
}
use promscale_extension.TestCommon.Blueprint.Variables.{
  get_entry-insert_same, get_entry-insert_other,
}

-- A call of a builder.
pub data BuilderCall : Type 0 where
  image_uri_call db_call user_call password_call testdata_call : String → BuilderCall
  volume_call env_var_call : String → String → BuilderCall

abbrev pub apply_call : BuilderCall → PostgresContainerBlueprint → PostgresContainerBlueprint
apply_call (image_uri_call image_uri) self = with_image_uri image_uri self
apply_call (db_call v) self = with_db v self
apply_call (user_call v) self = with_user v self
apply_call (password_call v) self = with_password v self
apply_call (testdata_call src) self = with_testdata src self
apply_call (volume_call from dest) self = with_volume from dest self
apply_call (env_var_call k v) self = with_env_var k v self

-- The calls from the first to the last.
abbrev pub apply_calls : List BuilderCall → PostgresContainerBlueprint → PostgresContainerBlueprint
apply_calls [] self = self
apply_calls (call ∷ calls) self = apply_calls calls (apply_call call self)

-- What the calls say, apart from the maps: the variables and the volumes that they set, in order.
abbrev pub variables_of : List BuilderCall → Entries
variables_of [] = []
variables_of (db_call v ∷ calls) = ("POSTGRES_DB", v) ∷ variables_of calls
variables_of (user_call v ∷ calls) = ("POSTGRES_USER", v) ∷ variables_of calls
variables_of (password_call v ∷ calls) = ("POSTGRES_PASSWORD", v) ∷ variables_of calls
variables_of (env_var_call k v ∷ calls) = (k, v) ∷ variables_of calls
variables_of (_ ∷ calls) = variables_of calls

abbrev pub volumes_of : List BuilderCall → Entries
volumes_of [] = []
volumes_of (testdata_call src ∷ calls) = (src, "/testdata") ∷ volumes_of calls
volumes_of (volume_call from dest ∷ calls) = (from, dest) ∷ volumes_of calls
volumes_of (_ ∷ calls) = volumes_of calls

abbrev pub image_of : String → List BuilderCall → String
image_of uri [] = uri
image_of uri (image_uri_call image_uri ∷ calls) = image_of image_uri calls
image_of uri (_ ∷ calls) = image_of uri calls

-- The value that is set last for a name, or the one before all.
abbrev pub last_set : String → Option String → Entries → Option String
last_set k before [] = before
last_set k before ((k', v) ∷ entries) = last_set k (if k' == k then some v else before) entries

-- What `new` sets.
abbrev pub default_variables : Entries
default_variables =
    ("POSTGRES_DB", "postgres-db-test")
    ∷ ("POSTGRES_USER", "postgres-user-test")
    ∷ ("POSTGRES_PASSWORD", "postgres-password-test")
    ∷ ("POSTGRES_HOST_AUTH_METHOD", "trust")
    ∷ []

-- The variable of a container after the calls.
abbrev pub variable_after : String → List BuilderCall → Option String
variable_after k calls = last_set k (last_set k none default_variables) (variables_of calls)

get_entry-insert_entry :
    (j k v : String) (m : Entries)
    → get_entry j (insert_entry k v m) ≡ (if k == j then some v else get_entry j m)
get_entry-insert_entry j k v m = elim (Bool-cases (k == j)) [
  | inl b ↦ rw b (
      ap (λ j. get_entry j (insert_entry k v m)) (sym ((eq_iff k j).0 b))
      ∙ get_entry-insert_same k v m)
  | inr b ↦ rw b (get_entry-insert_other j k v m b)
]

-- One more entry, before the others.
last_set-insert :
    (j k v : String) (m entries : Entries)
    → last_set j (get_entry j (insert_entry k v m)) entries
      ≡ last_set j (get_entry j m) ((k, v) ∷ entries)
last_set-insert j k v m entries =
    ap (λ before. last_set j before entries) (get_entry-insert_entry j k v m)

pub new-variables :
    (ts_docker_image : Option String) (j : String)
    → get_entry j (new ts_docker_image).env_vars ≡ last_set j none default_variables
unfolding get_entry
new-variables ts_docker_image j =
    get_entry-insert_entry j "POSTGRES_HOST_AUTH_METHOD" "trust" _
    ∙ last_set-insert j "POSTGRES_PASSWORD" "postgres-password-test" _
        (("POSTGRES_HOST_AUTH_METHOD", "trust") ∷ [])
    ∙ last_set-insert j "POSTGRES_USER" "postgres-user-test" _ (
        ("POSTGRES_PASSWORD", "postgres-password-test")
        ∷ ("POSTGRES_HOST_AUTH_METHOD", "trust")
        ∷ [])
    ∙ last_set-insert j "POSTGRES_DB" "postgres-db-test" [] (
        ("POSTGRES_USER", "postgres-user-test")
        ∷ ("POSTGRES_PASSWORD", "postgres-password-test")
        ∷ ("POSTGRES_HOST_AUTH_METHOD", "trust")
        ∷ [])

pub apply_calls-variables :
    (j : String) (calls : List BuilderCall) (self : PostgresContainerBlueprint)
    → get_entry j (apply_calls calls self).env_vars
      ≡ last_set j (get_entry j self.env_vars) (variables_of calls)
apply_calls-variables j [] self = refl
apply_calls-variables j (image_uri_call image_uri ∷ calls) self = apply_calls-variables j calls _
apply_calls-variables j (testdata_call src ∷ calls) self = apply_calls-variables j calls _
apply_calls-variables j (volume_call from dest ∷ calls) self = apply_calls-variables j calls _
apply_calls-variables j (db_call v ∷ calls) self =
    apply_calls-variables j calls _
    ∙ last_set-insert j "POSTGRES_DB" v self.env_vars (variables_of calls)
apply_calls-variables j (user_call v ∷ calls) self =
    apply_calls-variables j calls _
    ∙ last_set-insert j "POSTGRES_USER" v self.env_vars (variables_of calls)
apply_calls-variables j (password_call v ∷ calls) self =
    apply_calls-variables j calls _
    ∙ last_set-insert j "POSTGRES_PASSWORD" v self.env_vars (variables_of calls)
apply_calls-variables j (env_var_call k v ∷ calls) self =
    apply_calls-variables j calls _ ∙ last_set-insert j k v self.env_vars (variables_of calls)

pub apply_calls-volumes :
    (j : String) (calls : List BuilderCall) (self : PostgresContainerBlueprint)
    → get_entry j (apply_calls calls self).volumes
      ≡ last_set j (get_entry j self.volumes) (volumes_of calls)
apply_calls-volumes j [] self = refl
apply_calls-volumes j (image_uri_call image_uri ∷ calls) self = apply_calls-volumes j calls _
apply_calls-volumes j (db_call v ∷ calls) self = apply_calls-volumes j calls _
apply_calls-volumes j (user_call v ∷ calls) self = apply_calls-volumes j calls _
apply_calls-volumes j (password_call v ∷ calls) self = apply_calls-volumes j calls _
apply_calls-volumes j (env_var_call k v ∷ calls) self = apply_calls-volumes j calls _
apply_calls-volumes j (testdata_call src ∷ calls) self =
    apply_calls-volumes j calls _
    ∙ last_set-insert j src "/testdata" self.volumes (volumes_of calls)
apply_calls-volumes j (volume_call from dest ∷ calls) self =
    apply_calls-volumes j calls _ ∙ last_set-insert j from dest self.volumes (volumes_of calls)

pub apply_calls-image :
    (calls : List BuilderCall) (self : PostgresContainerBlueprint)
    → (apply_calls calls self).image_uri ≡ image_of self.image_uri calls
apply_calls-image [] self = refl
apply_calls-image (image_uri_call image_uri ∷ calls) self = apply_calls-image calls _
apply_calls-image (db_call v ∷ calls) self = apply_calls-image calls _
apply_calls-image (user_call v ∷ calls) self = apply_calls-image calls _
apply_calls-image (password_call v ∷ calls) self = apply_calls-image calls _
apply_calls-image (testdata_call src ∷ calls) self = apply_calls-image calls _
apply_calls-image (volume_call from dest ∷ calls) self = apply_calls-image calls _
apply_calls-image (env_var_call k v ∷ calls) self = apply_calls-image calls _

pub last_set-some :
    (k x : String) (entries : Entries) → (v : String) × (last_set k (some x) entries ≡ some v)
last_set-some k x [] = (x, refl)
last_set-some k x ((k', v) ∷ entries) = elim (Bool-cases (k' == k)) [
  | inl b ↦ rw b (last_set-some k v entries)
  | inr b ↦ rw b (last_set-some k x entries)
]
