-- ===== src/Aggregates/VectorSelector/Entry.antt =====
-- src/aggregates/vector_selector.rs: the functions that PostgreSQL calls for the aggregate. An
-- `Internal` is the state that it points to, or nothing for a null pointer.
use promscale_extension.Prelude.{Option, none, some, List, Result, ok, ◌>>=◌}
use promscale_extension.Prelude.Int.{ℤ}
use promscale_extension.Memory.{Exec, lift, FunctionCallInfo, in_aggregate_context}
use promscale_extension.TypeBuilder.{Varlena, Bincode, do_serialize, do_deserialize}
use promscale_extension.Aggregates.{Milliseconds, F64}
use promscale_extension.Aggregates.VectorSelector.{
  VectorSelector, new, insert, combine, to_pg_array,
}

-- `state.unwrap_or_else(…)`.
unfoldable pub or_new :
    Option VectorSelector → ℤ → ℤ → Milliseconds → Milliseconds → Result VectorSelector
or_new none start_time end_time bucket_width lookback =
    new start_time end_time bucket_width lookback
or_new (some state) start_time end_time bucket_width lookback = ok state

unfoldable pub vector_selector_transition_inner :
    Option VectorSelector
    → ℤ
    → ℤ
    → Milliseconds
    → Milliseconds
    → ℤ
    → F64
    → FunctionCallInfo
    → Exec (Option VectorSelector)
vector_selector_transition_inner state start_time end_time bucket_width lookback time value fcinfo =
    in_aggregate_context fcinfo (
      lift (do
        state' ← or_new state start_time end_time bucket_width lookback
        state'' ← insert state' time value
        ok (some state'')))

unfoldable pub vector_selector_final : Option VectorSelector → Option (List (Option F64))
vector_selector_final none = none
vector_selector_final (some s) = some (to_pg_array s)

abbrev pub combine_states :
    Option VectorSelector → Option VectorSelector → Result (Option VectorSelector)
combine_states none none = ok none
combine_states none (some state2) = ok (some state2)
combine_states (some state1) none = ok (some state1)
combine_states (some state1) (some state2) = do s1 ← combine state1 state2; ok (some s1)

unfoldable pub vector_selector_combine_inner :
    Option VectorSelector → Option VectorSelector → FunctionCallInfo → Exec (Option VectorSelector)
vector_selector_combine_inner state1 state2 fcinfo =
    in_aggregate_context fcinfo (lift (combine_states state1 state2))

module _ (p : Varlena) (c : Bincode VectorSelector) where
  -- Both are strict: PostgreSQL does not call them on NULL.
  unfoldable pub vector_selector_serialize : VectorSelector → Result p.Bytea
  vector_selector_serialize state = do_serialize p c state

  unfoldable pub vector_selector_deserialize : p.Bytea → Result (Option VectorSelector)
  vector_selector_deserialize bytes = do v ← do_deserialize p c bytes; ok (some v)
