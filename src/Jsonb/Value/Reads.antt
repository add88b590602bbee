-- ===== src/Jsonb/Value/Reads.antt =====
-- src/iterable_jsonb.rs: what the iterator makes of the events of a JSON value.
use promscale_extension.Prelude.{
  ℕ, zero, suc, ◌<◌, ◌≡◌, refl, ap, ◌∙◌, false, List, [], ◌∷◌, arith, ok, length,
}
use promscale_extension.Jsonb.Tokens.{
  JsonbValue, Event, wjb_begin_array, wjb_end_array, wjb_begin_object, wjb_end_object, wjb_key,
  wjb_value, wjb_elem, Token, begin_array, end_array, begin_object, end_object, key,
  extract_value_token, emit, next_from, next, collect, tokens,
}
use promscale_extension.Jsonb.Digest.{jsonb_digest}
use promscale_extension.Jsonb.Value.{
  Scalar, json_null, json_bool, json_string, json_numeric, Json, scalar, array, object, Items,
  no_items, item, Fields, no_fields, field, jsonb_value, scalar_token, events_in, item_events,
  field_events, events, tokens_in, item_tokens, field_tokens, token_list, digest_of,
}

-- With enough calls of `next`, the iterator turns these events into these tokens.
abbrev Reads : List Event → List Token → Type 0
Reads es ts =
    (fuel : ℕ)
    → length es < fuel
    → collect fuel (record { pg_jsonb_iter = es; raw_scalar = false }) ≡ ok ts

extract-scalar : (s : Scalar) → extract_value_token (jsonb_value s) ≡ ok (scalar_token s)
unfolding extract_value_token
extract-scalar json_null = refl
extract-scalar (json_bool b) = refl
extract-scalar (json_string s) = refl
extract-scalar (json_numeric s) = refl

-- An event that is emitted as a token.
Reads-emit :
    (e : Event) (t : Token) (es : List Event) (ts : List Token)
    → next_from false (e ∷ es) ≡ emit es false (ok t)
    → Reads es ts
    → Reads (e ∷ es) (t ∷ ts)
unfolding collect next
Reads-emit e t es ts step h zero small = absurd (omega arith)
Reads-emit e t es ts step h (suc fuel) small = rw (step, h fuel (omega arith)) refl

Reads-nil : Reads [] []
unfolding collect next next_from
Reads-nil zero small = absurd (omega arith)
Reads-nil (suc fuel) small = refl

-- `wjb_elem` and `wjb_value`, which announce a scalar.
abbrev Announces : (JsonbValue → Event) → Type 0
Announces wrap =
    (v : JsonbValue) (es : List Event)
    → next_from false (wrap v ∷ es) ≡ emit es false (extract_value_token v)

elem-Announces : Announces wjb_elem
unfolding next_from
elem-Announces v es = refl

value-Announces : Announces wjb_value
unfolding next_from
value-Announces v es = refl

mutual
  unfolding events_in tokens_in next_from extract_value_token

  Reads-events :
      (wrap : JsonbValue → Event) (j : Json) (es : List Event) (ts : List Token)
      → Announces wrap
      → Reads es ts
      → Reads (events_in wrap j es) (tokens_in j ts)
  Reads-events wrap (scalar s) es ts a h =
      Reads-emit (wrap (jsonb_value s)) (scalar_token s) es ts
        (a (jsonb_value s) es ∙ ap (emit es false) (extract-scalar s)) h
  Reads-events wrap (array is) es ts a h = Reads-emit (wjb_begin_array false) begin_array _ _ refl (
      Reads-items is (wjb_end_array ∷ es) (end_array ∷ ts)
        (Reads-emit wjb_end_array end_array es ts refl h))
  Reads-events wrap (object fs) es ts a h = Reads-emit wjb_begin_object begin_object _ _ refl (
      Reads-fields fs (wjb_end_object ∷ es) (end_object ∷ ts)
        (Reads-emit wjb_end_object end_object es ts refl h))

  Reads-items :
      (is : Items) (es : List Event) (ts : List Token)
      → Reads es ts
      → Reads (item_events is es) (item_tokens is ts)
  Reads-items no_items es ts h = h
  Reads-items (item j is) es ts h =
      Reads-events wjb_elem j (item_events is es) (item_tokens is ts) elem-Announces
        (Reads-items is es ts h)

  Reads-fields :
      (fs : Fields) (es : List Event) (ts : List Token)
      → Reads es ts
      → Reads (field_events fs es) (field_tokens fs ts)
  Reads-fields no_fields es ts h = h
  Reads-fields (field k j fs) es ts h = Reads-emit (wjb_key _) (key k) _ _ refl (
      Reads-events wjb_value j (field_events fs es) (field_tokens fs ts) value-Announces
        (Reads-fields fs es ts h))

-- A scalar at the top, whose array is passed over.
collect-scalar : (s : Scalar) → collect 4 (tokens (events (scalar s))) ≡ ok (token_list (scalar s))
unfolding collect next next_from tokens tokens_in
collect-scalar s = rw (extract-scalar s) refl

collect-events :
    (j : Json) → collect (suc (length (events j))) (tokens (events j)) ≡ ok (token_list j)
unfolding tokens
collect-events (scalar s) = collect-scalar s
collect-events (array is) =
    Reads-events wjb_elem (array is) [] [] elem-Announces Reads-nil
      (suc (length (events (array is)))) (omega arith)
collect-events (object fs) =
    Reads-events wjb_elem (object fs) [] [] elem-Announces Reads-nil
      (suc (length (events (object fs)))) (omega arith)

-- The digest of a JSON value, a scalar at the top included, is computed without a fault from the events
-- of the value and is that of its tokens in order.
pub digest_of-events :
    (sha512 : List ℕ → List ℕ) (j : Json)
    → digest_of sha512 (events j) ≡ ok (jsonb_digest sha512 (token_list j))
unfolding digest_of
digest_of-events sha512 j = rw (collect-events j) refl
