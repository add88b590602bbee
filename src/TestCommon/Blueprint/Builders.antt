-- ===== src/TestCommon/Blueprint/Builders.antt =====
-- test-common/src/postgres_container/blueprint.rs: what any sequence of calls of the builders leads
-- to, the container that is run and the connection to it.
use Prim.Native.String.{String, ◌++◌}
use promscale_extension.Prelude.{
  ◌≡◌, ◌↔◌, refl, ap, subst, ◌∙◌, Option, none, some, List, [], ◌∷◌, Result, ok, or_fault,
  unset_variable,
}
use promscale_extension.TestCommon.Image.{image_name_and_tag}
use promscale_extension.TestCommon.Blueprint.{
  Entries, insert_entry, get_entry, PostgresContainerBlueprint, default_image_uri, with_volume,
  with_env_var, new, with_db, with_user, with_password, db, user, password, connection_string, run,
}
use promscale_extension.TestCommon.Blueprint.Variables.{
  get_entry-insert_same, get_entry-insert_other, Distinct, insert_entry-Distinct, Has,
  push-get_entry,
}
use promscale_extension.TestCommon.Blueprint.Calls.{
  BuilderCall, image_uri_call, db_call, user_call, password_call, testdata_call, volume_call,
  env_var_call, apply_call, apply_calls, variables_of, volumes_of, image_of, last_set,
  variable_after, new-variables, apply_calls-variables, apply_calls-volumes, apply_calls-image,
  last_set-some,
}

-- No name stands twice in the maps.
abbrev IsValid : PostgresContainerBlueprint → Type 0
IsValid self = Distinct self.volumes × Distinct self.env_vars

new-IsValid : (ts_docker_image : Option String) → IsValid (new ts_docker_image)
unfolding get_entry insert_entry
new-IsValid ts_docker_image = (tt, (refl, (refl, (refl, (refl, tt)))))

with_volume-IsValid :
    (from dest : String) (self : PostgresContainerBlueprint)
    → IsValid self
    → IsValid (with_volume from dest self)
with_volume-IsValid from dest self (volumes, env_vars) =
    (insert_entry-Distinct from dest self.volumes volumes, env_vars)

with_env_var-IsValid :
    (k v : String) (self : PostgresContainerBlueprint)
    → IsValid self
    → IsValid (with_env_var k v self)
with_env_var-IsValid k v self (volumes, env_vars) =
    (volumes, insert_entry-Distinct k v self.env_vars env_vars)

apply_call-IsValid :
    (call : BuilderCall) (self : PostgresContainerBlueprint)
    → IsValid self
    → IsValid (apply_call call self)
apply_call-IsValid (image_uri_call image_uri) self h = h
apply_call-IsValid (db_call v) self h = with_env_var-IsValid _ v self h
apply_call-IsValid (user_call v) self h = with_env_var-IsValid _ v self h
apply_call-IsValid (password_call v) self h = with_env_var-IsValid _ v self h
apply_call-IsValid (testdata_call src) self h = with_volume-IsValid src _ self h
apply_call-IsValid (volume_call from dest) self h = with_volume-IsValid from dest self h
apply_call-IsValid (env_var_call k v) self h = with_env_var-IsValid k v self h

apply_calls-IsValid :
    (calls : List BuilderCall) (self : PostgresContainerBlueprint)
    → IsValid self
    → IsValid (apply_calls calls self)
apply_calls-IsValid [] self h = h
apply_calls-IsValid (call ∷ calls) self h =
    apply_calls-IsValid calls _ (apply_call-IsValid call self h)

-- After any calls of the builders on a new blueprint, the container is run with the image that was
-- set last, with exactly the variables and the volumes that were set last for their names, the
-- variables of `new` counting as set before all, and the connection string is there and is made of
-- the user, the password and the database among those variables.
pub apply_calls-run :
    (ts_docker_image : Option String) (calls : List BuilderCall) (port k v : String)
    → (Has (k, v) (run (apply_calls calls (new ts_docker_image))).set_variables
        ↔ (variable_after k calls ≡ some v))
      × (Has (k, v) (run (apply_calls calls (new ts_docker_image))).mounted
          ↔ (last_set k none (volumes_of calls) ≡ some v))
      × ((
        (run (apply_calls calls (new ts_docker_image))).name,
        (run (apply_calls calls (new ts_docker_image))).tag,
      )
          ≡ image_name_and_tag (image_of (default_image_uri ts_docker_image) calls))
      × ((u p d : String) × (variable_after "POSTGRES_USER" calls ≡ some u)
          × (variable_after "POSTGRES_PASSWORD" calls ≡ some p)
          × (variable_after "POSTGRES_DB" calls ≡ some d)
          × (connection_string port (apply_calls calls (new ts_docker_image))
              ≡ ok (
                  "postgres://" ++ (u ++ (":" ++ (p ++ ("@localhost:" ++ (port ++ ("/" ++ d)))))))))
unfolding get_entry
apply_calls-run ts calls port k v =
    let self = apply_calls calls (new ts) in
    let (volumes, env_vars) = apply_calls-IsValid calls (new ts) (new-IsValid ts) in
    let variable : (j : String) → get_entry j self.env_vars ≡ variable_after j calls = λ j.
      apply_calls-variables j calls (new ts)
      ∙ ap (λ before. last_set j before (variables_of calls)) (new-variables ts j) in
    let (u, eu) = last_set-some "POSTGRES_USER" "postgres-user-test" (variables_of calls) in
    let (p, ep) = last_set-some "POSTGRES_PASSWORD" "postgres-password-test" (variables_of calls) in
    let (d, ed) = last_set-some "POSTGRES_DB" "postgres-db-test" (variables_of calls) in
    (
      subst (λ x. Has (k, v) (run self).set_variables ↔ (x ≡ some v)) (variable k)
          (push-get_entry k v self.env_vars env_vars),
      subst (λ x. Has (k, v) (run self).mounted ↔ (x ≡ some v))
          (apply_calls-volumes k calls (new ts)) (push-get_entry k v self.volumes volumes),
      ap image_name_and_tag (apply_calls-image calls (new ts)),
      (
        u,
        p,
        d,
        eu,
        ep,
        ed,
        rw
            (
              variable "POSTGRES_USER" ∙ eu,
              variable "POSTGRES_PASSWORD" ∙ ep,
              variable "POSTGRES_DB" ∙ ed,
            )
            refl,
      ),
    )

-- Setting the database, the user or the password is what the getter returns, and leaves the others.
pub builders-getters :
    (self : PostgresContainerBlueprint) (v : String)
    → ((db (with_db v self) ≡ ok v)
        × (user (with_db v self) ≡ user self)
        × (password (with_db v self) ≡ password self))
      × ((user (with_user v self) ≡ ok v)
          × (db (with_user v self) ≡ db self)
          × (password (with_user v self) ≡ password self))
      × ((password (with_password v self) ≡ ok v)
          × (db (with_password v self) ≡ db self)
          × (user (with_password v self) ≡ user self))
builders-getters self v =
    let d : String = "POSTGRES_DB" in
    let u : String = "POSTGRES_USER" in
    let p : String = "POSTGRES_PASSWORD" in
    let m : Entries = self.env_vars in
    let read : Option String → Result String = or_fault unset_variable in
    (
      (
        ap read (get_entry-insert_same d v m),
        ap read (get_entry-insert_other u d v m refl),
        ap read (get_entry-insert_other p d v m refl),
      ),
      (
        ap read (get_entry-insert_same u v m),
        ap read (get_entry-insert_other d u v m refl),
        ap read (get_entry-insert_other p u v m refl),
      ),
      (
        ap read (get_entry-insert_same p v m),
        ap read (get_entry-insert_other d p v m refl),
        ap read (get_entry-insert_other u p v m refl),
      ),
    )
