-- ===== src/Jsonb/Ends.antt =====
-- src/iterable_jsonb.rs: how many calls of `next` an iterator takes.
use promscale_extension.Prelude.{
  ℕ, zero, suc, ◌<◌, ◌≢◌, Bool, true, false, List, [], ◌∷◌, arith, Result, ok, err, ◌>>=◌, length,
  out_of_fuel,
}
use promscale_extension.Jsonb.Tokens.{
  JsonbValue, jbv_null, jbv_string, jbv_numeric, jbv_bool, jbv_other, Event, wjb_begin_array,
  wjb_end_array, wjb_begin_object, wjb_end_object, wjb_key, wjb_value, wjb_elem, wjb_other, Token,
  begin_array, end_array, begin_object, end_object, extract_value_token, key_token, emit, next_from,
  next, and_then, collect, tokens,
}

extract_value_token-ends : (v : JsonbValue) → extract_value_token v ≢ err out_of_fuel
unfolding extract_value_token
extract_value_token-ends jbv_null h = cc
extract_value_token-ends (jbv_string s) h = cc
extract_value_token-ends (jbv_numeric s) h = cc
extract_value_token-ends (jbv_bool b) h = cc
extract_value_token-ends (jbv_other t) h = cc

key_token-ends : (v : JsonbValue) → (extract_value_token v >>= key_token) ≢ err out_of_fuel
unfolding extract_value_token
key_token-ends jbv_null h = cc
key_token-ends (jbv_string s) h = cc
key_token-ends (jbv_numeric s) h = cc
key_token-ends (jbv_bool b) h = cc
key_token-ends (jbv_other t) h = cc

and_then-ends :
    (t : Token) (r : Result (List Token))
    → r ≢ err out_of_fuel
    → (r >>= λ ts. ok (t ∷ ts)) ≢ err out_of_fuel
and_then-ends t (ok ts) h e = cc
and_then-ends t (err f) h e = h (ground arith)

emit-ends :
    (fuel : ℕ) (rest : List Event) (raw_scalar : Bool) (token : Result Token)
    → token ≢ err out_of_fuel
    → collect fuel (record { pg_jsonb_iter = rest; raw_scalar = raw_scalar }) ≢ err out_of_fuel
    → (emit rest raw_scalar token >>= and_then (collect fuel)) ≢ err out_of_fuel
emit-ends fuel rest raw_scalar (ok t) h k =
    and_then-ends t (collect fuel (record { pg_jsonb_iter = rest; raw_scalar = raw_scalar })) k
emit-ends fuel rest raw_scalar (err f) h k = λ e. h (ground arith)

-- One call of `next` and then the rest, from the bound for every fuel.
collect-ends_of :
    (fuel : ℕ) (raw_scalar : Bool) (es : List Event)
    → length es < fuel
    → ((less : ℕ)
        → length es < suc less
        → (next_from raw_scalar es >>= and_then (collect less)) ≢ err out_of_fuel)
    → collect fuel (record { pg_jsonb_iter = es; raw_scalar = raw_scalar }) ≢ err out_of_fuel
unfolding collect next
collect-ends_of zero raw_scalar es h k e = absurd (omega arith)
collect-ends_of (suc fuel) raw_scalar es h k e = k fuel h e

next_from-ends :
    (raw_scalar : Bool) (es : List Event) (fuel : ℕ)
    → length es < suc fuel
    → (next_from raw_scalar es >>= and_then (collect fuel)) ≢ err out_of_fuel
unfolding next_from
next_from-ends raw_scalar [] fuel h = λ e. cc
next_from-ends raw_scalar (wjb_begin_array true ∷ rest) fuel h =
    next_from-ends true rest fuel (omega arith)
next_from-ends raw_scalar (wjb_begin_array false ∷ rest) fuel h =
    emit-ends fuel rest raw_scalar (ok begin_array) (λ e. cc)
      (collect-ends_of fuel raw_scalar rest (omega arith) (next_from-ends raw_scalar rest))
next_from-ends true (wjb_end_array ∷ rest) fuel h = next_from-ends true rest fuel (omega arith)
next_from-ends false (wjb_end_array ∷ rest) fuel h =
    emit-ends fuel rest false (ok end_array) (λ e. cc)
      (collect-ends_of fuel false rest (omega arith) (next_from-ends false rest))
next_from-ends raw_scalar (wjb_begin_object ∷ rest) fuel h =
    emit-ends fuel rest raw_scalar (ok begin_object) (λ e. cc)
      (collect-ends_of fuel raw_scalar rest (omega arith) (next_from-ends raw_scalar rest))
next_from-ends raw_scalar (wjb_end_object ∷ rest) fuel h =
    emit-ends fuel rest raw_scalar (ok end_object) (λ e. cc)
      (collect-ends_of fuel raw_scalar rest (omega arith) (next_from-ends raw_scalar rest))
next_from-ends raw_scalar (wjb_key v ∷ rest) fuel h =
    emit-ends fuel rest raw_scalar (extract_value_token v >>= key_token) (key_token-ends v)
      (collect-ends_of fuel raw_scalar rest (omega arith) (next_from-ends raw_scalar rest))
next_from-ends raw_scalar (wjb_value v ∷ rest) fuel h =
    emit-ends fuel rest raw_scalar (extract_value_token v) (extract_value_token-ends v)
      (collect-ends_of fuel raw_scalar rest (omega arith) (next_from-ends raw_scalar rest))
next_from-ends raw_scalar (wjb_elem v ∷ rest) fuel h =
    emit-ends fuel rest raw_scalar (extract_value_token v) (extract_value_token-ends v)
      (collect-ends_of fuel raw_scalar rest (omega arith) (next_from-ends raw_scalar rest))
next_from-ends raw_scalar (wjb_other r ∷ rest) fuel h = λ e. cc

-- The iterator over a JSONB value ends: with more calls of `next` than PostgreSQL's iterator has
-- events, the model does not run out of fuel.
pub collect-tokens_ends :
    (pg_jsonb : List Event) (fuel : ℕ)
    → length pg_jsonb < fuel
    → collect fuel (tokens pg_jsonb) ≢ err out_of_fuel
unfolding tokens
collect-tokens_ends pg_jsonb fuel h =
    collect-ends_of fuel false pg_jsonb h (next_from-ends false pg_jsonb)
