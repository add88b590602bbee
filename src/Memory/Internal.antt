-- ===== src/Memory/Internal.antt =====
-- src/palloc.rs: `Internal` as a pointer to a value, `to_inner` and `internal`. A pointer is a number,
-- and the null pointer is zero.
use promscale_extension.Prelude.{
  ℕ, zero, suc, ◌≡◌, ◌↔◌, refl, ap, ◌∙◌, Option, none, some, Result, ok, err, ok_unique,
  null_pointer,
}

-- `Internal`, an optional datum.
abbrev pub Internal : Type 0
Internal = Option ℕ

-- `Inner(NonNull)`: the address is that of the number before it.
pub record Inner : Type 0 where
  pub before : ℕ

abbrev pub as_ptr : Inner → ℕ
as_ptr inner = suc inner.before

-- `NonNull::new(…).unwrap()` panics on the null pointer.
abbrev pub non_null : ℕ → Result (Option Inner)
non_null zero = err null_pointer
non_null (suc p) = ok (some (record { before = p }))

unfoldable pub to_inner : Internal → Result (Option Inner)
to_inner none = ok none
to_inner (some p) = non_null p

unfoldable pub internal : Option Inner → Internal
internal none = none
internal (some p) = some (as_ptr p)

to_inner-internal : (o : Option Inner) → to_inner (internal o) ≡ ok o
unfolding to_inner internal
to_inner-internal none = refl
to_inner-internal (some p) = refl

to_inner-ok : (i : Internal) (o : Option Inner) → to_inner i ≡ ok o → i ≡ internal o
unfolding to_inner internal
to_inner-ok none o e = ap internal (ok_unique none o e)
to_inner-ok (some zero) o e = cc
to_inner-ok (some (suc p)) o e = ap internal (ok_unique (some (record { before = p })) o e)

-- What `internal` makes of a pointer `to_inner` reads back, and it reads nothing else.
pub to_inner-ok_iff : (i : Internal) (o : Option Inner) → (to_inner i ≡ ok o) ↔ (i ≡ internal o)
to_inner-ok_iff i o = (to_inner-ok i o, λ e. ap to_inner e ∙ to_inner-internal o)
