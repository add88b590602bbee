-- ===== src/Build/Numbering.antt =====
-- build.rs: which numberings of the migration files the build accepts.
use mathlib.Core.List.{append_assoc, append-nil}
use promscale_extension.Prelude.{
  ℕ, suc, ◌+◌, ◌<◌, ◌≡◌, ◌≢◌, ◌↔◌, refl, sym, ap, ◌∙◌, true, List, [], ◌∷◌, ◌++◌, All, arith, ◌==◌,
  Bool-cases, inl, inr, first_step, ok, length,
}
use promscale_extension.Build.{
  Str, SqlType, incremental, idempotent, File, Host, numeric_prefix, check_order, wrap, render_loop,
  render_file,
}

-- The files are numbered from `n` on, without a gap or a duplicate.
abbrev pub Numbered : ℕ → List File → Type 0
Numbered n [] = Unit
Numbered n (f ∷ fs) = (numeric_prefix f.file_name ≡ ok n) × Numbered (suc n) fs

-- The files are numbered 999, all of them.
abbrev pub AllLast : List File → Type 0
AllLast fs = All (λ f. numeric_prefix f.file_name ≡ ok 999) fs

same_number : (n : ℕ) → (n == n) ≡ true
same_number n = ground arith

check_incremental : (prev curr : ℕ) → check_order incremental prev curr ≡ ok tt → curr ≡ suc prev
unfolding check_order
check_incremental prev curr e = ground arith

-- An idempotent file is the next one or a last one.
check_idempotent :
    (prev curr : ℕ)
    → check_order idempotent prev curr ≡ ok tt
    → (curr ≢ 999 → curr ≡ suc prev) × (curr ≢ 1000)
unfolding check_order
check_idempotent prev curr e = (λ n. ground arith, λ n. ground arith)

idempotent_next : (prev : ℕ) → prev < 999 → check_order idempotent prev (suc prev) ≡ ok tt
unfolding check_order
idempotent_next prev h = ground arith

idempotent_last : (prev : ℕ) → check_order idempotent prev 999 ≡ ok tt
unfolding check_order
idempotent_last prev = refl

module _ (h : Host) where
  -- The files in order, each in its wrapper.
  abbrev pub wrapped : SqlType → List File → Str
  wrapped sql_type [] = []
  wrapped sql_type (f ∷ fs) = wrap h sql_type f ++ wrapped sql_type fs

  wrapped-append :
      (ty : SqlType) (fs gs : List File) → wrapped ty (fs ++ gs) ≡ wrapped ty fs ++ wrapped ty gs
  wrapped-append ty [] gs = refl
  wrapped-append ty (f ∷ fs) gs =
      ap (λ w. wrap h ty f ++ w) (wrapped-append ty fs gs)
      ∙ sym (append_assoc (wrap h ty f) (wrapped ty fs) (wrapped ty gs))

  -- One round of the loop that succeeds.
  round :
      (ty : SqlType) (prev : ℕ) (result : Str) (f : File) (fs : List File) (out : Str)
      → render_loop h ty prev result (f ∷ fs) ≡ ok out
      → (curr : ℕ) × (numeric_prefix f.file_name ≡ ok curr)
        × (check_order ty prev curr ≡ ok tt)
        × (render_loop h ty curr (result ++ wrap h ty f) fs ≡ ok out)
  unfolding render_loop
  round ty prev result f fs out e =
      let (curr, parsed, e') = first_step (numeric_prefix f.file_name) _ out e in
      let (u, checked, e'') = first_step (check_order ty prev curr) _ out e' in
      (curr, parsed, checked, e'')

  join :
      (ty : SqlType) (result : Str) (f : File) (fs : List File)
      → (result ++ wrap h ty f) ++ wrapped ty fs ≡ result ++ wrapped ty (f ∷ fs)
  join ty result f fs = append_assoc result (wrap h ty f) (wrapped ty fs)

  nothing :
      (ty : SqlType) (prev : ℕ) (result out : Str)
      → render_loop h ty prev result [] ≡ ok out
      → result ++ [] ≡ out
  unfolding render_loop
  nothing ty prev result out e = append-nil result ∙ ground arith

  incremental-Numbered :
      (prev : ℕ) (result : Str) (fs : List File) (out : Str)
      → render_loop h incremental prev result fs ≡ ok out
      → Numbered (suc prev) fs × (out ≡ result ++ wrapped incremental fs)
  incremental-Numbered prev result [] out e = (tt, sym (nothing incremental prev result out e))
  incremental-Numbered prev result (f ∷ fs) out e =
      let (curr, parsed, checked, e') = round incremental prev result f fs out e in
      let next : curr ≡ suc prev = check_incremental prev curr checked in
      let (rest, joined) =
        incremental-Numbered (suc prev) (result ++ wrap h incremental f) fs out (rw next at e') in
      ((parsed ∙ ap ok next, rest), joined ∙ join incremental result f fs)

  Numbered-incremental :
      (prev : ℕ) (result : Str) (fs : List File)
      → Numbered (suc prev) fs
      → render_loop h incremental prev result fs ≡ ok (result ++ wrapped incremental fs)
  unfolding render_loop check_order
  Numbered-incremental prev result [] n = ap ok (sym (append-nil result))
  Numbered-incremental prev result (f ∷ fs) n = rw n.0 (
      rw (same_number (suc prev)) (
        Numbered-incremental (suc prev) (result ++ wrap h incremental f) fs n.1
        ∙ ap ok (join incremental result f fs)))

  last-AllLast :
      (result : Str) (fs : List File) (out : Str)
      → render_loop h idempotent 999 result fs ≡ ok out
      → AllLast fs × (out ≡ result ++ wrapped idempotent fs)
  last-AllLast result [] out e = (tt, sym (nothing idempotent 999 result out e))
  last-AllLast result (f ∷ fs) out e =
      let (curr, parsed, checked, e') = round idempotent 999 result f fs out e in
      let (next, below) = check_idempotent 999 curr checked in
      let last : curr ≡ 999 = elim (Bool-cases (curr == 999)) [
        | inl t ↦ ground arith
        | inr t ↦ absurd (below (next (λ n. ground arith)))
      ] in
      let (rest, joined) = last-AllLast (result ++ wrap h idempotent f) fs out (rw last at e') in
      ((parsed ∙ ap ok last, rest), joined ∙ join idempotent result f fs)

  -- The shape that the idempotent files have from a number on.
  abbrev Split : ℕ → List File → Type 0
  Split prev fs =
      (front : List File) × (last : List File) × (fs ≡ front ++ last)
      × Numbered (suc prev) front
      × (prev + length front < 999)
      × AllLast last

  idempotent-Split :
      (prev : ℕ) (result : Str) (fs : List File) (out : Str)
      → prev < 999
      → render_loop h idempotent prev result fs ≡ ok out
      → Split prev fs × (out ≡ result ++ wrapped idempotent fs)
  idempotent-Split prev result [] out l e =
      (([], [], refl, tt, omega arith, tt), sym (nothing idempotent prev result out e))
  idempotent-Split prev result (f ∷ fs) out l e =
      let (curr, parsed, checked, e') = round idempotent prev result f fs out e in
      let (next, below) = check_idempotent prev curr checked in
      elim (Bool-cases (curr == 999)) [
        | inl t ↦
            let last : curr ≡ 999 = ground arith in
            let (rest, joined) =
              last-AllLast (result ++ wrap h idempotent f) fs out (rw last at e') in
            (
              ([], f ∷ fs, refl, tt, omega arith, (parsed ∙ ap ok last, rest)),
              joined ∙ join idempotent result f fs,
            )
        | inr t ↦
            let new : curr ≡ suc prev = next (λ n. ground arith) in
            let room : suc prev < 999 = ground arith in
            let ((front, last, split, numbered, small, lasts), joined) =
              idempotent-Split (suc prev) (result ++ wrap h idempotent f) fs out room
                (rw new at e') in
            (
              (
                f ∷ front,
                last,
                ap (λ gs. f ∷ gs) split,
                (parsed ∙ ap ok new, numbered),
                omega arith,
                lasts,
              ),
              joined ∙ join idempotent result f fs,
            )
      ]

  AllLast-idempotent :
      (prev : ℕ) (result : Str) (fs : List File)
      → AllLast fs
      → render_loop h idempotent prev result fs ≡ ok (result ++ wrapped idempotent fs)
  unfolding render_loop
  AllLast-idempotent prev result [] a = ap ok (sym (append-nil result))
  AllLast-idempotent prev result (f ∷ fs) a =
      rw (a.0, idempotent_last prev)
        (AllLast-idempotent 999 (result ++ wrap h idempotent f) fs a.1
          ∙ ap ok (join idempotent result f fs))

  Split-idempotent :
      (prev : ℕ) (result : Str) (front last : List File)
      → Numbered (suc prev) front
      → prev + length front < 999
      → AllLast last
      → render_loop h idempotent prev result (front ++ last)
        ≡ ok (result ++ wrapped idempotent (front ++ last))
  unfolding render_loop
  Split-idempotent prev result [] last n l a = AllLast-idempotent prev result last a
  Split-idempotent prev result (f ∷ front) last n l a =
      rw (n.0, idempotent_next prev (omega arith))
        (Split-idempotent (suc prev) (result ++ wrap h idempotent f) front last n.1 (omega arith) a
          ∙ ap ok (join idempotent result f (front ++ last)))

  -- The incremental files are rendered exactly when, in the order of their names, they are numbered
  -- 1, 2, 3 and so on without a gap or a duplicate; the result is each file in its wrapper, in order.
  pub render_file-incremental_iff :
      (files : List File) (out : Str)
      → (render_file h incremental files ≡ ok out)
        ↔ (Numbered 1 (h.sort files) × (out ≡ wrapped incremental (h.sort files)))
  unfolding render_file
  render_file-incremental_iff files out = (
    incremental-Numbered 0 [] (h.sort files) out,
    λ (n, e). Numbered-incremental 0 [] (h.sort files) n ∙ ap ok (sym e),
  )

  -- The idempotent files are rendered exactly when, in the order of their names, they are files
  -- numbered 1, 2, 3 and so on, fewer than 999 of them, and then any number of files numbered 999;
  -- the result is each file in its wrapper, in order.
  pub render_file-idempotent_iff :
      (files : List File) (out : Str)
      → (render_file h idempotent files ≡ ok out) ↔ (
          ((front : List File) × (last : List File) × (h.sort files ≡ front ++ last)
            × Numbered 1 front
            × (length front < 999)
            × AllLast last)
          × (out ≡ wrapped idempotent (h.sort files)))
  unfolding render_file
  render_file-idempotent_iff files out = (
    λ e.
        let (s, joined) = idempotent-Split 0 [] (h.sort files) out (omega arith) e in
        ((s.0, s.1, s.2, s.3, omega arith, s.5), joined),
    λ ((front, last, split, n, l, a), e).
        rw (e, split) (Split-idempotent 0 [] front last n (omega arith) a),
  )
