-- ===== src/Aggregates/VectorSelector/Parallel.antt =====
-- The parallel run of `vector_selector`: a worker's state is serialized, sent to the leader,
-- deserialized there and combined with the leader's own.
mod Tests
use promscale_extension.Prelude.{
  ℕ, ◌+◌, ◌≤◌, ◌≡◌, ◌∙◌, ap, Option, none, some, List, [], ◌∷◌, ◌++◌, All, All-append, Result, ok,
  ◌>>=◌, length,
}
use promscale_extension.Memory.{FunctionCallInfo}
use promscale_extension.TypeBuilder.{Varlena, IsVarlena, Bincode, IsBincode}
use promscale_extension.TypeBuilder.RoundTrip.{do_deserialize-do_serialize}
use promscale_extension.Aggregates.VectorSelector.{Sample, VectorSelector}
use promscale_extension.Aggregates.VectorSelector.Entry.{
  vector_selector_combine_inner, vector_selector_serialize, vector_selector_deserialize,
}
use promscale_extension.Aggregates.VectorSelector.Query.{Query, IsValid, selector, InRange}
use promscale_extension.Aggregates.VectorSelector.Runs.{
  aggregate_rows, state_of, aggregate_rows-state_of, combine-state_of,
}

-- For a valid query, rows in range and a worker that has seen some row: if the encoding of the
-- worker's state leaves room for six bytes of header, the state is serialized, the bytes deserialize,
-- and the leader combines the result with its own state to the state that one worker has after all
-- the rows.
pub combine-deserialize :
    (q : Query)
    → IsValid q
    → (fcinfo : FunctionCallInfo) (mctx : ℕ) → fcinfo.agg_check_call_context ≡ some mctx
    → (p : Varlena) (c : Bincode VectorSelector) → IsVarlena p
    → IsBincode c
    → (xs ys : List Sample) (y : Sample) (current : ℕ) (d : List ℕ) → All (λ x. InRange q x.0) xs
    → All (λ x. InRange q x.0) (y ∷ ys)
    → c.serialize (selector q (y ∷ ys)) ≡ some d
    → length d + 6 ≤ 0x3FFFFFFF
    → (s1 s2 s : Option VectorSelector) × (worker : VectorSelector) × (bytes : p.Bytea)
      × (aggregate_rows q fcinfo none xs current ≡ (ok s1, current))
      × (aggregate_rows q fcinfo none (y ∷ ys) current ≡ (ok (some worker), current))
      × (vector_selector_serialize p c worker ≡ ok bytes)
      × (vector_selector_deserialize p c bytes ≡ ok s2)
      × (vector_selector_combine_inner s1 s2 fcinfo current ≡ (ok s, current))
      × (aggregate_rows q fcinfo none (xs ++ y ∷ ys) current ≡ (ok s, current))
unfolding vector_selector_serialize vector_selector_deserialize
combine-deserialize q v fcinfo mctx inside p c lp lc xs ys y current d r r' e small =
    let worker = selector q (y ∷ ys) in
    let (bytes, written, read) = do_deserialize-do_serialize p c lp lc worker d e small in
    (
      state_of q xs,
      some worker,
      state_of q (xs ++ y ∷ ys),
      worker,
      bytes,
      aggregate_rows-state_of q v fcinfo mctx inside [] xs current r,
      aggregate_rows-state_of q v fcinfo mctx inside [] (y ∷ ys) current r',
      written,
      ap (λ m. m >>= λ s. ok (some s)) read,
      combine-state_of q v fcinfo mctx inside xs (y ∷ ys) current,
      aggregate_rows-state_of q v fcinfo mctx inside [] (xs ++ y ∷ ys) current
          (All-append _ xs (y ∷ ys) r r'),
    )
