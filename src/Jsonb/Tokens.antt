-- ===== src/Jsonb/Tokens.antt =====
-- src/iterable_jsonb.rs: `TokenIterator` over what PostgreSQL's `JsonbIteratorNext` returns. The
-- iterator of PostgreSQL is the list of its events.
use promscale_extension.Prelude.{
  ℕ, zero, suc, Bool, true, false, Option, none, some, List, [], ◌∷◌, Result, ok, err, ◌>>=◌,
  unexpected_token, invalid_iterator_result, invalid_scalar_type, out_of_fuel,
}

-- `JsonbValue`, by its type. A string is its bytes, a numeric is the text of `numeric_normalize`.
pub data JsonbValue : Type 0 where
  jbv_null : JsonbValue
  jbv_string : List ℕ → JsonbValue
  jbv_numeric : List ℕ → JsonbValue
  jbv_bool : Bool → JsonbValue
  jbv_other : ℕ → JsonbValue

-- `JsonbIteratorToken`; `WJB_DONE` is the end of the list.
pub data Event : Type 0 where
  wjb_begin_array : (raw_scalar : Bool) → Event
  wjb_end_array : Event
  wjb_begin_object : Event
  wjb_end_object : Event
  wjb_key : JsonbValue → Event
  wjb_value : JsonbValue → Event
  wjb_elem : JsonbValue → Event
  wjb_other : ℕ → Event

pub data Token : Type 0 where
  begin_array end_array begin_object end_object : Token
  key : List ℕ → Token
  null : Token
  boolean : Bool → Token
  string : List ℕ → Token
  numeric : List ℕ → Token

unfoldable pub extract_value_token : JsonbValue → Result Token
extract_value_token jbv_null = ok null
extract_value_token (jbv_string s) = ok (string s)
extract_value_token (jbv_numeric s) = ok (numeric s)
extract_value_token (jbv_bool b) = ok (boolean b)
extract_value_token (jbv_other t) = err invalid_scalar_type

abbrev pub key_token : Token → Result Token
key_token (string s) = ok (key s)
key_token _ = err unexpected_token

-- `TokenIterator`.
pub record TokenIterator : Type 0 where
  pub pg_jsonb_iter : List Event
  pub raw_scalar : Bool

-- A token with the iterator that is left.
abbrev pub emit : List Event → Bool → Result Token → Result (Option (Token × TokenIterator))
emit rest raw_scalar token = do
  t ← token
  ok (some (t, record { pg_jsonb_iter = rest; raw_scalar = raw_scalar }))

-- `next`, where an array that stands for a raw scalar is passed over.
unfoldable pub next_from : Bool → List Event → Result (Option (Token × TokenIterator))
next_from raw_scalar [] = ok none
next_from raw_scalar (wjb_begin_array true ∷ rest) = next_from true rest
next_from raw_scalar (wjb_begin_array false ∷ rest) = emit rest raw_scalar (ok begin_array)
next_from true (wjb_end_array ∷ rest) = next_from true rest
next_from false (wjb_end_array ∷ rest) = emit rest false (ok end_array)
next_from raw_scalar (wjb_begin_object ∷ rest) = emit rest raw_scalar (ok begin_object)
next_from raw_scalar (wjb_end_object ∷ rest) = emit rest raw_scalar (ok end_object)
next_from raw_scalar (wjb_key v ∷ rest) = emit rest raw_scalar (extract_value_token v >>= key_token)
next_from raw_scalar (wjb_value v ∷ rest) = emit rest raw_scalar (extract_value_token v)
next_from raw_scalar (wjb_elem v ∷ rest) = emit rest raw_scalar (extract_value_token v)
next_from raw_scalar (wjb_other r ∷ rest) = err invalid_iterator_result

unfoldable pub next : TokenIterator → Result (Option (Token × TokenIterator))
next it = next_from it.raw_scalar it.pg_jsonb_iter

-- Runs the iterator to its end, for at most `fuel` calls of `next`.
abbrev pub and_then :
    (TokenIterator → Result (List Token)) → Option (Token × TokenIterator) → Result (List Token)
and_then rest none = ok []
and_then rest (some (t, it)) = do ts ← rest it; ok (t ∷ ts)

unfoldable pub collect : ℕ → TokenIterator → Result (List Token)
collect zero it = err out_of_fuel
collect (suc fuel) it = do n ← next it; and_then (collect fuel) n

unfoldable pub tokens : List Event → TokenIterator
tokens pg_jsonb = record { pg_jsonb_iter = pg_jsonb; raw_scalar = false }
