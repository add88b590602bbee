-- ===== src/Jsonb/Value.antt =====
-- A JSONB value as a tree, with the events that PostgreSQL's `JsonbIteratorNext` documents for it, the
-- sequence of tokens that reads it in order, and `jsonb_digest` of src/jsonb_digest.rs from end to end.
pub mod Reads
pub mod Unique
use promscale_extension.Prelude.{
  ℕ, suc, Bool, true, false, List, [], ◌∷◌, Result, ok, err, ◌>>=◌, length,
}
use promscale_extension.Jsonb.Tokens.{
  JsonbValue, jbv_null, jbv_string, jbv_numeric, jbv_bool, Event, wjb_begin_array, wjb_end_array,
  wjb_begin_object, wjb_end_object, wjb_key, wjb_value, wjb_elem, Token, begin_array, end_array,
  begin_object, end_object, key, null, boolean, string, numeric, collect, tokens,
}
use promscale_extension.Jsonb.Digest.{jsonb_digest}

pub data Scalar : Type 0 where
  json_null : Scalar
  json_bool : Bool → Scalar
  json_string : List ℕ → Scalar
  -- By its normalized text.
  json_numeric : List ℕ → Scalar

mutual
  pub data Json : Type 0 where
    scalar : Scalar → Json
    array : Items → Json
    object : Fields → Json

  pub data Items : Type 0 where
    no_items : Items
    item : Json → Items → Items

  -- In the order in which they are stored.
  pub data Fields : Type 0 where
    no_fields : Fields
    field : List ℕ → Json → Fields → Fields

abbrev pub jsonb_value : Scalar → JsonbValue
jsonb_value json_null = jbv_null
jsonb_value (json_bool b) = jbv_bool b
jsonb_value (json_string s) = jbv_string s
jsonb_value (json_numeric s) = jbv_numeric s

abbrev pub scalar_token : Scalar → Token
scalar_token json_null = null
scalar_token (json_bool b) = boolean b
scalar_token (json_string s) = string s
scalar_token (json_numeric s) = numeric s

-- The events of a value, before those that follow; a scalar is announced as `wrap` says.
unfoldable mutual
  pub events_in : (JsonbValue → Event) → Json → List Event → List Event
  events_in wrap (scalar s) rest = wrap (jsonb_value s) ∷ rest
  events_in wrap (array is) rest = wjb_begin_array false ∷ item_events is (wjb_end_array ∷ rest)
  events_in wrap (object fs) rest = wjb_begin_object ∷ field_events fs (wjb_end_object ∷ rest)

  pub item_events : Items → List Event → List Event
  item_events no_items rest = rest
  item_events (item j is) rest = events_in wjb_elem j (item_events is rest)

  pub field_events : Fields → List Event → List Event
  field_events no_fields rest = rest
  field_events (field k j fs) rest =
      wjb_key (jbv_string k) ∷ events_in wjb_value j (field_events fs rest)

-- A scalar at the top comes in an array of its own.
abbrev pub events : Json → List Event
events (scalar s) = wjb_begin_array true ∷ wjb_elem (jsonb_value s) ∷ wjb_end_array ∷ []
events (array is) = events_in wjb_elem (array is) []
events (object fs) = events_in wjb_elem (object fs) []

-- The tokens of a value, before those that follow.
unfoldable mutual
  pub tokens_in : Json → List Token → List Token
  tokens_in (scalar s) rest = scalar_token s ∷ rest
  tokens_in (array is) rest = begin_array ∷ item_tokens is (end_array ∷ rest)
  tokens_in (object fs) rest = begin_object ∷ field_tokens fs (end_object ∷ rest)

  pub item_tokens : Items → List Token → List Token
  item_tokens no_items rest = rest
  item_tokens (item j is) rest = tokens_in j (item_tokens is rest)

  pub field_tokens : Fields → List Token → List Token
  field_tokens no_fields rest = rest
  field_tokens (field k j fs) rest = key k ∷ tokens_in j (field_tokens fs rest)

abbrev pub token_list : Json → List Token
token_list j = tokens_in j []

-- The digest of the value behind an iterator's events.
unfoldable pub digest_of : (List ℕ → List ℕ) → List Event → Result (List ℕ)
digest_of sha512 es = do ts ← collect (suc (length es)) (tokens es); ok (jsonb_digest sha512 ts)
