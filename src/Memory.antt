-- ===== src/Memory.antt =====
-- src/palloc.rs and src/aggregate_utils.rs: running a closure with another current memory context.
-- A context is a number. An action takes PostgreSQL's `CurrentMemoryContext` and returns it beside
-- its outcome.
pub mod Internal
use promscale_extension.Prelude.{ℕ, Option, none, some, Result, ok, err, not_an_aggregate}

abbrev pub Exec {ℓ} : Type ℓ → Type ℓ
Exec A = ℕ → Result A × ℕ

-- An action that does not touch the current context.
abbrev pub lift {ℓ} : {A : Type ℓ} → Result A → Exec A
lift r current = (r, current)

abbrev pub resume {ℓ} : {A B : Type ℓ} → (A → Exec B) → Result A × ℕ → Result B × ℕ
resume f (ok a, current) = f a current
resume f (err e, current) = (err e, current)

infixl 5 ◌>>=◌
abbrev pub ◌>>=◌ {ℓ} : {A B : Type ℓ} → Exec A → (A → Exec B) → Exec B
◌>>=◌ m f current = resume f (m current)

-- The call of an extension function: what `AggCheckCallContext` says of it, which is the memory
-- context of the aggregate if the function was called by one.
pub record FunctionCallInfo : Type 0 where
  pub agg_check_call_context : Option ℕ

-- A fault leaves the closure by unwinding: the line that restores the context is not reached.
abbrev pub restore {ℓ} : {A : Type ℓ} → ℕ → Result A × ℕ → Result A × ℕ
restore prev_ctx (ok t, _) = (ok t, prev_ctx)
restore prev_ctx (err e, current) = (err e, current)

unfoldable pub in_memory_context {ℓ} : {A : Type ℓ} → ℕ → Exec A → Exec A
in_memory_context mctx f prev_ctx = restore prev_ctx (f mctx)

unfoldable pub aggregate_mctx : FunctionCallInfo → Option ℕ
aggregate_mctx fcinfo = fcinfo.agg_check_call_context

unfoldable pub in_aggregate_context {ℓ} : {A : Type ℓ} → FunctionCallInfo → Exec A → Exec A
unfolding aggregate_mctx in_memory_context
in_aggregate_context fcinfo f current = elim (aggregate_mctx fcinfo) [
  | none ↦ (err not_an_aggregate, current)
  | some mctx ↦ in_memory_context mctx f current
]
