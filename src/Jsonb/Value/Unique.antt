-- ===== src/Jsonb/Value/Unique.antt =====
-- src/jsonb_digest.rs: the tokens of a JSON value, and so its digest, determine it.
use mathlib.Core.List.{head-eq_of_cons-eq, tail-eq_of_cons-eq}
use promscale_extension.Prelude.{
  ℕ, ◌<◌, ◌^◌, ◌≡◌, ◌≢◌, ◌↔◌, refl, sym, ap, ap₂, ◌∙◌, List, [], ◌∷◌, arith, ok_unique, length,
}
use promscale_extension.Jsonb.Tokens.{
  Token, begin_array, end_array, begin_object, end_object, key, boolean, string, numeric,
}
use promscale_extension.Jsonb.Digest.{hashed_bytes, jsonb_digest}
use promscale_extension.Jsonb.Digest.Injective.{Texts, jsonb_digest-eq_iff}
use promscale_extension.Jsonb.Value.{
  Scalar, json_null, json_bool, json_string, json_numeric, Json, scalar, array, object, Items,
  no_items, item, Fields, no_fields, field, scalar_token, events, tokens_in, item_tokens,
  field_tokens, token_list, digest_of,
}
use promscale_extension.Jsonb.Value.Reads.{digest_of-events}

-- The kind of token that a value starts with: a scalar, or a bracket that opens or closes.
abbrev kind : Token → ℕ
kind begin_array = 0
kind begin_object = 1
kind end_array = 2
kind end_object = 3
kind (key s) = 4
kind _ = 5

kind-scalar : (s : Scalar) → kind (scalar_token s) ≡ 5
kind-scalar json_null = refl
kind-scalar (json_bool b) = refl
kind-scalar (json_string s) = refl
kind-scalar (json_numeric s) = refl

abbrev first : List Token → ℕ
first [] = 6
first (t ∷ ts) = kind t

abbrev opening : Json → ℕ
opening (scalar s) = 5
opening (array is) = 0
opening (object fs) = 1

first-tokens_in : (j : Json) (r : List Token) → first (tokens_in j r) ≡ opening j
unfolding tokens_in
first-tokens_in (scalar s) r = kind-scalar s
first-tokens_in (array is) r = refl
first-tokens_in (object fs) r = refl

opening_of :
    (j k : Json) (r r' : List Token) → tokens_in j r ≡ tokens_in k r' → opening j ≡ opening k
opening_of j k r r' e = sym (first-tokens_in j r) ∙ ap first e ∙ first-tokens_in k r'

-- No value starts with the end of an array.
no_end : (j : Json) (r r' : List Token) → end_array ∷ r ≢ tokens_in j r'
no_end (scalar s) r r' e =
    let clash : 2 ≡ 5 = ap first e ∙ first-tokens_in (scalar s) r' in omega (arith, clash)
no_end (array is) r r' e =
    let clash : 2 ≡ 0 = ap first e ∙ first-tokens_in (array is) r' in omega (arith, clash)
no_end (object fs) r r' e =
    let clash : 2 ≡ 1 = ap first e ∙ first-tokens_in (object fs) r' in omega (arith, clash)

scalar_token-injective : (s t : Scalar) → scalar_token s ≡ scalar_token t → s ≡ t
scalar_token-injective s t e = sym (back s) ∙ ap scalar_of e ∙ back t
  where
    scalar_of : Token → Scalar
    scalar_of (boolean b) = json_bool b
    scalar_of (string s) = json_string s
    scalar_of (numeric s) = json_numeric s
    scalar_of _ = json_null

    back : (s : Scalar) → scalar_of (scalar_token s) ≡ s
    back json_null = refl
    back (json_bool b) = refl
    back (json_string s) = refl
    back (json_numeric s) = refl

key_unique : (s t : List ℕ) → key s ≡ key t → s ≡ t
key_unique s t e = cc

mutual
  unfolding tokens_in

  tokens_in_unique :
      (j k : Json) (r r' : List Token) → tokens_in j r ≡ tokens_in k r' → (j ≡ k) × (r ≡ r')
  tokens_in_unique (scalar s) (scalar t) r r' e =
      (ap scalar (scalar_token-injective s t (head-eq_of_cons-eq e)), tail-eq_of_cons-eq e)
  tokens_in_unique (array is) (array js) r r' e =
      let (same, rest) = item_tokens_unique is js r r' (tail-eq_of_cons-eq e) in
      (ap array same, rest)
  tokens_in_unique (object fs) (object gs) r r' e =
      let (same, rest) = field_tokens_unique fs gs r r' (tail-eq_of_cons-eq e) in
      (ap object same, rest)
  tokens_in_unique (scalar s) (array js) r r' e =
      absurd (omega (arith, opening_of (scalar s) (array js) r r' e))
  tokens_in_unique (scalar s) (object gs) r r' e =
      absurd (omega (arith, opening_of (scalar s) (object gs) r r' e))
  tokens_in_unique (array is) (scalar t) r r' e =
      absurd (omega (arith, opening_of (array is) (scalar t) r r' e))
  tokens_in_unique (array is) (object gs) r r' e =
      absurd (omega (arith, opening_of (array is) (object gs) r r' e))
  tokens_in_unique (object fs) (scalar t) r r' e =
      absurd (omega (arith, opening_of (object fs) (scalar t) r r' e))
  tokens_in_unique (object fs) (array js) r r' e =
      absurd (omega (arith, opening_of (object fs) (array js) r r' e))

  item_tokens_unique :
      (is js : Items) (r r' : List Token)
      → item_tokens is (end_array ∷ r) ≡ item_tokens js (end_array ∷ r')
      → (is ≡ js) × (r ≡ r')
  item_tokens_unique no_items no_items r r' e = (refl, tail-eq_of_cons-eq e)
  item_tokens_unique no_items (item j js) r r' e = absurd (no_end j r _ e)
  item_tokens_unique (item j is) no_items r r' e = absurd (no_end j r' _ (sym e))
  item_tokens_unique (item j is) (item k js) r r' e =
      let (same, rest) = tokens_in_unique j k _ _ e in
      let (sames, behind) = item_tokens_unique is js r r' rest in (ap₂ item same sames, behind)

  field_tokens_unique :
      (fs gs : Fields) (r r' : List Token)
      → field_tokens fs (end_object ∷ r) ≡ field_tokens gs (end_object ∷ r')
      → (fs ≡ gs) × (r ≡ r')
  field_tokens_unique no_fields no_fields r r' e = (refl, tail-eq_of_cons-eq e)
  field_tokens_unique no_fields (field k j gs) r r' e =
      let clash : 3 ≡ 4 = ap first e in absurd (omega (arith, clash))
  field_tokens_unique (field k j fs) no_fields r r' e =
      let clash : 4 ≡ 3 = ap first e in absurd (omega (arith, clash))
  field_tokens_unique (field k j fs) (field k' j' gs) r r' e =
      let (same, rest) = tokens_in_unique j j' _ _ (tail-eq_of_cons-eq e) in
      let (sames, behind) = field_tokens_unique fs gs r r' rest in
      let same_key : k ≡ k' = key_unique k k' (head-eq_of_cons-eq e) in (cc, behind)

-- Two JSON values whose strings hold no zero byte, the first with fewer than 256^7 tokens, have the
-- same digest exactly when they are the same value, save for a collision of the hash function on the
-- two inputs; numerics are by their normalized text.
pub digest_of-eq_iff :
    (sha512 : List ℕ → List ℕ) (j k : Json)
    → Texts (token_list j)
    → Texts (token_list k)
    → length (token_list j) < 256 ^ 7
    → (sha512 (hashed_bytes 0 (token_list j)) ≡ sha512 (hashed_bytes 0 (token_list k))
        → hashed_bytes 0 (token_list j) ≡ hashed_bytes 0 (token_list k))
    → (digest_of sha512 (events j) ≡ digest_of sha512 (events k)) ↔ (j ≡ k)
digest_of-eq_iff sha512 j k text_j text_k small no_collision = (
  λ e.
      let digests : jsonb_digest sha512 (token_list j) ≡ jsonb_digest sha512 (token_list k) =
        ok_unique _ _ (sym (digest_of-events sha512 j) ∙ e ∙ digest_of-events sha512 k) in
      let listed =
        (jsonb_digest-eq_iff sha512 (token_list j) (token_list k) text_j text_k small
            no_collision).0
          digests in
      (tokens_in_unique j k [] [] listed).0,
  λ e. ap (λ j. digest_of sha512 (events j)) e,
)
