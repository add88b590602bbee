-- ===== src/Jsonb/Tests.antt =====
-- The tokens and the digest input of concrete JSONB values.
use promscale_extension.Prelude.{
  ℕ, suc, ◌%◌, false, Option, none, some, Result, if◌then◌else◌, ◌==◌, Bool-cases, inl, inr,
  invalid_free, ◌<◌, ◌^◌, length, ◌≡◌, ◌≢◌, ◌↔◌, refl, true, List, [], ◌∷◌, arith, ok, err,
  out_of_fuel,
}
use promscale_extension.Jsonb.Tokens.{
  jbv_string, jbv_numeric, jbv_null, Event, wjb_begin_array, wjb_end_array, wjb_begin_object,
  wjb_end_object, wjb_key, wjb_value, wjb_elem, Token, key, null, begin_object, end_object, numeric,
  extract_value_token, TokenIterator, next_from, next, collect, tokens,
}
use promscale_extension.Jsonb.Digest.{jsonb_digest}
use promscale_extension.Jsonb.Digest.Injective.{Texts}
use promscale_extension.Jsonb.Value.{
  Json, scalar, object, json_null, json_numeric, field, no_fields, events, events_in, tokens_in,
  token_list, digest_of,
}
use promscale_extension.Jsonb.Value.Reads.{digest_of-events}
use promscale_extension.Jsonb.Value.Unique.{digest_of-eq_iff}
use promscale_extension.Jsonb.Datum.{
  Allocator, Jsonb, from_polymorphic_datum, IsCopy, Detoasts, Owned, from_datum-drop,
}
use promscale_extension.Jsonb.Drop.{drop_iterator, drop_iterator-collect}
use promscale_extension.Jsonb.Ends.{collect-tokens_ends}

-- {"a": null}
abbrev object_events : List Event
object_events =
    wjb_begin_object ∷ wjb_key (jbv_string (97 ∷ [])) ∷ wjb_value jbv_null ∷ wjb_end_object ∷ []

abbrev object_tokens : List Token
object_tokens = begin_object ∷ key (97 ∷ []) ∷ null ∷ end_object ∷ []

object_runs : collect 5 (tokens object_events) ≡ ok object_tokens
unfolding collect next next_from extract_value_token tokens
object_runs = refl

-- A scalar comes in an array of its own, which gives no token.
abbrev scalar_events : List Event
scalar_events = wjb_begin_array true ∷ wjb_elem (jbv_numeric (49 ∷ [])) ∷ wjb_end_array ∷ []

scalar_runs : collect 4 (tokens scalar_events) ≡ ok (numeric (49 ∷ []) ∷ [])
unfolding collect next next_from extract_value_token tokens
scalar_runs = refl

collect-tokens_ends_example : collect 5 (tokens object_events) ≢ err out_of_fuel
collect-tokens_ends_example = collect-tokens_ends object_events 5 (omega arith)

abbrev object_value : Json
object_value = object (field (97 ∷ []) (scalar json_null) no_fields)

abbrev scalar_value : Json
scalar_value = scalar (json_numeric (49 ∷ []))

object_value-events : events object_value ≡ object_events
unfolding events_in
object_value-events = refl

object_value-Texts : Texts (token_list object_value)
unfolding tokens_in
object_value-Texts = (tt, ((omega arith, tt), (tt, (tt, tt))))

scalar_value-Texts : Texts (token_list scalar_value)
unfolding tokens_in
scalar_value-Texts = ((omega arith, tt), tt)

object_value-short : length (token_list object_value) < 256 ^ 7
unfolding tokens_in
object_value-short = omega arith

digest_of-eq_iff_example :
    (digest_of (λ bytes. bytes) (events object_value)
      ≡ digest_of (λ bytes. bytes) (events scalar_value))
    ↔ (object_value ≡ scalar_value)
digest_of-eq_iff_example =
    digest_of-eq_iff (λ bytes. bytes) object_value scalar_value object_value-Texts
      scalar_value-Texts object_value-short (λ e. e)

digest_of-events_example :
    digest_of (λ bytes. bytes) (events object_value)
    ≡ ok (jsonb_digest (λ bytes. bytes) (token_list object_value))
digest_of-events_example = digest_of-events (λ bytes. bytes) object_value

-- A heap is the list of the chunks that were copied, with the context of each; odd numbers are TOASTed,
-- and a copy has the number after.
abbrev chunk_of : ℕ → List (ℕ × ℕ) → Option ℕ
chunk_of p [] = none
chunk_of p ((q, context) ∷ rest) = if q == p then some context else chunk_of p rest

abbrev free_last : ℕ → List (ℕ × ℕ) → Result (List (ℕ × ℕ))
free_last p [] = err invalid_free
free_last p ((q, context) ∷ rest) = if q == p then ok rest else err invalid_free

abbrev make_copy : ℕ → ℕ → List (ℕ × ℕ) → ℕ × List (ℕ × ℕ)
make_copy context p heap = (suc p, (suc p, context) ∷ heap)

abbrev allocator : Allocator
allocator = record {
  Heap = List (ℕ × ℕ);
  pg_detoast_datum = λ context p heap. if p % 2 == 1 then make_copy context p heap else (p, heap);
  pg_detoast_datum_copy = make_copy;
  pfree = free_last;
  context_of = chunk_of;
}

make_copy-IsCopy :
    (context p : ℕ) (heap : List (ℕ × ℕ))
    → IsCopy allocator context p heap (make_copy context p heap)
make_copy-IsCopy context p heap = (omega arith, ground arith, ground arith)

allocator-Detoasts : Detoasts allocator
allocator-Detoasts context p heap = (
  elim (Bool-cases (p % 2 == 1)) [
    | inl e ↦ inr (rw e (make_copy-IsCopy context p heap))
    | inr e ↦ inl (rw e refl)
  ],
  make_copy-IsCopy context p heap,
)

from_datum-drop_example :
    (out : Jsonb × List (ℕ × ℕ)) × (from_polymorphic_datum allocator 4 (some 7) false []
      ≡ ok (some out.0, out.1))
    × Owned allocator 4 [] out
    × ((out.0.needs_drop ≡ true) ↔ (out.0.pg_jsonb ≢ 7))
from_datum-drop_example = (from_datum-drop allocator allocator-Detoasts 4 7 []).0

-- One token of the object is read, and then the iterator is dropped.
abbrev after_one : TokenIterator
after_one = record {
  pg_jsonb_iter = wjb_key (jbv_string (97 ∷ [])) ∷ wjb_value jbv_null ∷ wjb_end_object ∷ [];
  raw_scalar = false;
}

after_one_reads : next (tokens object_events) ≡ ok (some (begin_object, after_one))
unfolding next next_from tokens
after_one_reads = refl

after_one_ends : collect 4 after_one ≡ ok (key (97 ∷ []) ∷ null ∷ end_object ∷ [])
unfolding collect next next_from extract_value_token
after_one_ends = refl

drop_iterator-collect_example : drop_iterator 3 after_one ≡ ok []
drop_iterator-collect_example =
    drop_iterator-collect 3 after_one (key (97 ∷ []) ∷ null ∷ end_object ∷ []) after_one_ends
