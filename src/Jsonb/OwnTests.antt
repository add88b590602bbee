-- ===== src/Jsonb/OwnTests.antt =====
-- src/jsonb_digest.rs: the test on simple values, run on the model. That a digest has 64 bytes is the
-- hash function's; here the bytes that are hashed are compared.
use Prim.Native.String.{String}
use promscale_extension.Prelude.{
  ℕ, ◌≡◌, refl, Bool, true, false, not, ◌&&◌, List, [], ◌∷◌, Result, ok, ◌>>=◌,
}
use promscale_extension.Prelude.Codes.{codes}
use promscale_extension.Prelude.Ascii.{same_text}
use promscale_extension.Jsonb.Tokens.{collect, next, next_from, extract_value_token, tokens}
use promscale_extension.Jsonb.Digest.{jsonb_digest, hashed_bytes, to_le_bytes}
use promscale_extension.Jsonb.Value.{
  Json, scalar, array, object, item, no_items, field, no_fields, json_null, json_bool, json_string,
  json_numeric, events, events_in, item_events, field_events, digest_of,
}

abbrev number : String → Json
number s = scalar (json_numeric (codes s))

abbrev text : String → Json
text s = scalar (json_string (codes s))

abbrev one_field : String → Json → Json
one_field k j = object (field (codes k) j no_fields)

-- The inputs of the test, in its order.
abbrev test_jsonb_digest_simple_values : List Json
test_jsonb_digest_simple_values =
    object no_fields
    ∷ array no_items
    ∷ number "1"
    ∷ number "-1.01"
    ∷ number "1.01"
    ∷ array (item (scalar json_null) no_items)
    ∷ scalar json_null
    ∷ scalar (json_bool true)
    ∷ scalar (json_bool false)
    ∷ text ""
    ∷ text "x"
    ∷ one_field "a" (text "b")
    ∷ one_field "b" (text "a")
    ∷ one_field "a" (object no_fields)
    ∷ one_field "a" (one_field "b" (object no_fields))
    ∷ array (
        item (number "1") (
          item (object no_fields) (
            item (array no_items) (
              item
                (one_field "a" (
                  array
                    (item (scalar (json_bool true)) (item (scalar (json_bool false)) no_items))))
                no_items))))
    ∷ []

abbrev digests : List Json → Result (List (List ℕ))
digests [] = ok []
digests (j ∷ rest) = do
  digest ← digest_of (λ bytes. bytes) (events j)
  more ← digests rest
  ok (digest ∷ more)

abbrev differs_from_all : List ℕ → List (List ℕ) → Bool
differs_from_all digest [] = true
differs_from_all digest (other ∷ rest) =
    not (same_text digest other) && differs_from_all digest rest

abbrev distinct : List (List ℕ) → Bool
distinct [] = true
distinct (digest ∷ rest) = differs_from_all digest rest && distinct rest

abbrev are_distinct : Result (List (List ℕ)) → Result Bool
are_distinct found = do ds ← found; ok (distinct ds)

-- The sixteen values are hashed to sixteen texts.
all_unique : are_distinct (digests test_jsonb_digest_simple_values) ≡ ok true
unfolding codes same_text collect next next_from extract_value_token tokens jsonb_digest
    hashed_bytes to_le_bytes events_in item_events field_events digest_of
all_unique = refl
