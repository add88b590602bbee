-- ===== src/Build/Main.antt =====
-- build.rs: when the build script succeeds, and what it has written where it does not.
use promscale_extension.Prelude.{
  ◌<◌, ◌≡◌, refl, ◌↔◌, Option, none, some, List, [], ◌++◌, length, Result, ok, err, or_fault,
  first_step, unset_variable, Fault, Option-cases, inl, inr,
}
use promscale_extension.Prelude.Codes.{codes}
use promscale_extension.Build.{
  Str, SqlType, incremental, idempotent, File, Host, render_file, render_sql,
}
use promscale_extension.Build.Numbering.{
  Numbered, AllLast, wrapped, render_file-incremental_iff, render_file-idempotent_iff,
}
use promscale_extension.Build.Outputs.{
  Environment, Output, Templates, var, generate_migration_sql, generate_control_file, then_write,
  no_files, main,
}

-- Files numbered 1, 2, 3 and so on, fewer than 999 of them, and then any number with the prefix 999.
abbrev pub NumberedToLast : List File → Type 0
NumberedToLast files =
    (front : List File) × (last : List File) × (files ≡ front ++ last)
    × Numbered 1 front
    × (length front < 999)
    × AllLast last

abbrev pub Rendered : Host → (SqlType → List File) → Type 0
Rendered h files_of =
    Numbered 1 (h.sort (files_of incremental)) × NumberedToLast (h.sort (files_of idempotent))

abbrev pub Given : Option Str → Type 0
Given o = (s : Str) × (o ≡ some s)

module _ (h : Host) (t : Templates) where
  render_sql-Rendered :
      (files_of : SqlType → List File) (out : Str)
      → render_sql h files_of ≡ ok out
      → Rendered h files_of
  unfolding render_sql
  render_sql-Rendered files_of out e =
      let (one, first, e') =
        first_step (render_file h incremental (files_of incremental)) _ out e in
      let (two, second, _) = first_step (render_file h idempotent (files_of idempotent)) _ out e' in
      (
        ((render_file-incremental_iff h (files_of incremental) one).0 first).0,
        ((render_file-idempotent_iff h (files_of idempotent) two).0 second).0,
      )

  Rendered-render_sql :
      (files_of : SqlType → List File)
      → Rendered h files_of
      → (out : Str) × (render_sql h files_of ≡ ok out)
  unfolding render_sql
  Rendered-render_sql files_of r =
      let first = (render_file-incremental_iff h (files_of incremental) _).1 (r.0, refl) in
      let second = (render_file-idempotent_iff h (files_of idempotent) _).1 (r.1, refl) in
      (
        wrapped h incremental (h.sort (files_of incremental))
            ++ wrapped h idempotent (h.sort (files_of idempotent)),
        rw (first, second) refl,
      )

  then_write-ok :
      (m : Result (List Output)) (rest : List Output × Result (Unit {0}))
      → (then_write h t m rest).1 ≡ ok tt
      → (written : List Output) × (m ≡ ok written) × (rest.1 ≡ ok tt)
  then_write-ok (ok written) rest e = (written, refl, e)
  then_write-ok (err f) rest e = cc

  no_files-Given : (o : Option Str) (written : List Output) → no_files h t o ≡ ok written → Given o
  no_files-Given none written e = cc
  no_files-Given (some dir) written e = (dir, refl)

  or_fault-Given : (o : Option Str) (s : Str) → or_fault unset_variable o ≡ ok s → Given o
  or_fault-Given none s e = cc
  or_fault-Given (some dir) s e = (dir, refl)

  -- The build script succeeds exactly when `CARGO_MANIFEST_DIR` and `PROFILE` are set, the
  -- incremental files are numbered 1, 2, 3 and so on, and the idempotent files are so up to any number
  -- of files with the prefix 999.
  pub main-ok_iff :
      (env : Environment) (files_of : SqlType → List File)
      → ((main h t env files_of).1 ≡ ok tt) ↔ (
          Given (var (codes "CARGO_MANIFEST_DIR") env)
          × Rendered h files_of
          × Given (var (codes "PROFILE") env))
  unfolding main generate_migration_sql generate_control_file
  main-ok_iff env files_of = (
    λ e.
        let (_, dir, e') =
          then_write-ok (no_files h t (var (codes "CARGO_MANIFEST_DIR") env)) _ e in
        let (_, migration, e'') = then_write-ok (generate_migration_sql h t files_of) _ e' in
        let (control, controlled, _) = then_write-ok (generate_control_file h t env) _ e'' in
        let (out, rendered, _) = first_step (render_sql h files_of) _ _ migration in
        let (profile, set, _) =
          first_step (or_fault unset_variable (var (codes "PROFILE") env)) _ control controlled in
        (no_files-Given _ _ dir, render_sql-Rendered files_of out rendered, or_fault-Given _ _ set),
    λ (dir, r, profile).
        let (out, rendered) = Rendered-render_sql files_of r in
        rw (dir.1, rendered, profile.1) refl,
  )

  -- Migrations that are not numbered so leave no file behind.
  pub main-unnumbered :
      (env : Environment) (files_of : SqlType → List File) (fault : Fault)
      → render_sql h files_of ≡ err fault
      → (main h t env files_of).0 ≡ []
  unfolding main generate_migration_sql
  main-unnumbered env files_of fault e =
      elim (Option-cases (var (codes "CARGO_MANIFEST_DIR") env)) [
        | inl unset ↦ rw unset refl
        | inr (dir, set) ↦ rw (set, e) refl
      ]
