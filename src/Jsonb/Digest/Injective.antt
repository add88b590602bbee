-- ===== src/Jsonb/Digest/Injective.antt =====
-- src/jsonb_digest.rs: reading the tokens off the bytes that are hashed.
use mathlib.Core.List.{
  append_cancel_left, append_cancel_right, append-nil, head-eq_of_cons-eq, tail-eq_of_cons-eq,
}
use promscale_extension.Prelude.{
  ℕ, zero, suc, ◌+◌, ◌/◌, ◌%◌, ◌^◌, ◌<◌, ◌≡◌, ◌≢◌, ◌↔◌, refl, sym, ap, ap₂, ◌∙◌, inl, inr, true,
  false, List, [], ◌∷◌, ◌++◌, All, arith, length, ◌==◌, if◌then◌else◌, Bool-cases,
}
use promscale_extension.Jsonb.Tokens.{
  Token, null, boolean, string, numeric, key, begin_object, end_object, begin_array, end_array,
}
use promscale_extension.Jsonb.Digest.{to_le_bytes, tag, payload, hashed_bytes, jsonb_digest}

-- No byte is zero: PostgreSQL's text and C strings hold none.
abbrev pub NulFree : List ℕ → Type 0
NulFree s = All (λ b. 0 < b) s

-- The token of a tag and a payload.
abbrev token_of : ℕ → List ℕ → Token
token_of n s =
    if n == 0x01
    then null
    else if n == 0x02
    then boolean true
    else if n == 0x03
    then boolean false
    else if n == 0x04
    then string s
    else if n == 0x05
    then numeric s
    else if n == 0x0A
    then key s
    else if n == 0x0B
    then begin_object
    else if n == 0x0C
    then end_object
    else if n == 0x0D
    then begin_array
    else end_array

token_of-tag : (t : Token) → token_of (tag t) (payload t) ≡ t
token_of-tag null = refl
token_of-tag (boolean true) = refl
token_of-tag (boolean false) = refl
token_of-tag (string s) = refl
token_of-tag (numeric s) = refl
token_of-tag (key s) = refl
token_of-tag begin_object = refl
token_of-tag end_object = refl
token_of-tag begin_array = refl
token_of-tag end_array = refl

token_unique : (t u : Token) → tag t ≡ tag u → payload t ≡ payload u → t ≡ u
token_unique t u e p = sym (token_of-tag t) ∙ ap₂ token_of e p ∙ token_of-tag u

-- The number of zero bytes, and the bytes before the first one.
unfoldable zeros : List ℕ → ℕ
zeros [] = 0
zeros (b ∷ bs) = let n = zeros bs in if b == 0 then suc n else n

unfoldable before_zero : List ℕ → List ℕ
before_zero [] = []
before_zero (b ∷ bs) = let rest = before_zero bs in if b == 0 then [] else b ∷ rest

zeros_zero : zeros (0 ∷ []) ≡ 1
unfolding zeros
zeros_zero = refl

zeros-append : (s r : List ℕ) → zeros (s ++ r) ≡ zeros s + zeros r
unfolding zeros
zeros-append [] r = omega arith
zeros-append (b ∷ s) r = ground (arith, zeros-append s r)

zeros-NulFree : (s : List ℕ) → NulFree s → zeros s ≡ 0
unfolding zeros
zeros-NulFree [] h = refl
zeros-NulFree (b ∷ s) h = ground (arith, zeros-NulFree s h.1)

before_zero-append : (s r : List ℕ) → NulFree s → before_zero (s ++ r) ≡ s ++ before_zero r
unfolding before_zero
before_zero-append [] r h = refl
before_zero-append (b ∷ s) r h = ground (arith, before_zero-append s r h.1)

-- Behind a zero byte nothing counts.
before_zero-stop : (s r r' : List ℕ) → 0 < zeros s → before_zero (s ++ r) ≡ before_zero (s ++ r')
unfolding before_zero zeros
before_zero-stop [] r r' h = absurd (omega arith)
before_zero-stop (b ∷ s) r r' h = elim (Bool-cases (b == 0)) [
  | inl e ↦ rw e refl
  | inr e ↦ rw e (ap (λ l. b ∷ l) (before_zero-stop s r r' (rw e at h)))
]

zeros-cons : (b : ℕ) (bs : List ℕ) → 0 < zeros bs → 0 < zeros (b ∷ bs)
unfolding zeros
zeros-cons b bs h = ground arith

-- A number below 256^k has a zero byte among the lowest `k + 1`.
zeros-to_le_bytes : (k n : ℕ) → n < 256 ^ k → 0 < zeros (to_le_bytes (suc k) n)
unfolding to_le_bytes
zeros-to_le_bytes zero n h =
    let none' : n ≡ 0 = omega arith in
    let one : zeros (0 ∷ []) ≡ 1 = zeros_zero in rw none' (omega (arith, one))
zeros-to_le_bytes (suc k) n h =
    let less : n / 256 < 256 ^ k = grind arith in
    zeros-cons (n % 256) (to_le_bytes (suc k) (n / 256)) (zeros-to_le_bytes k (n / 256) less)

-- Two strings without a zero byte, each with the bytes of the same number or with nothing behind.
strings_unique :
    (s s' word r r' : List ℕ)
    → NulFree s
    → NulFree s'
    → 0 < zeros word
    → s ++ (word ++ r) ≡ s' ++ (word ++ r')
    → s ≡ s'
strings_unique s s' word r r' h h' z e = append_cancel_right s s' (before_zero (word ++ r)) (
    sym (before_zero-append s (word ++ r) h)
    ∙ ap before_zero e
    ∙ before_zero-append s' (word ++ r') h'
    ∙ ap (λ w. s' ++ w) (before_zero-stop word r' r z))

no_end : (s s' word r : List ℕ) → NulFree s → 0 < zeros word → s ≢ s' ++ (word ++ r)
no_end s s' word r h z e =
    let none' : zeros s ≡ 0 = zeros-NulFree s h in
    let some' : zeros s ≡ zeros s' + (zeros word + zeros r) =
      ap zeros e ∙ zeros-append s' (word ++ r) ∙ ap (λ n. zeros s' + n) (zeros-append word r) in
    omega arith

-- The tokens whose strings hold no zero byte.
abbrev pub Texts : List Token → Type 0
Texts ts = All (λ t. NulFree (payload t)) ts

-- The bytes behind a payload are nothing or start with the bytes of the next index.
payload_unique :
    (idx : ℕ) (t u : List ℕ) (ts us : List Token)
    → NulFree t
    → NulFree u
    → suc idx < 256 ^ 7
    → t ++ hashed_bytes (suc idx) ts ≡ u ++ hashed_bytes (suc idx) us
    → t ≡ u
unfolding hashed_bytes
payload_unique idx t u [] [] h k small e = sym (append-nil t) ∙ e ∙ append-nil u
payload_unique idx t u [] (y ∷ us) h k small e = absurd (
    no_end t u (to_le_bytes 8 (suc idx)) (tag y ∷ (payload y ++ hashed_bytes (suc (suc idx)) us)) h
      (zeros-to_le_bytes 7 (suc idx) small) (sym (append-nil t) ∙ e))
payload_unique idx t u (x ∷ ts) [] h k small e = absurd (
    no_end u t (to_le_bytes 8 (suc idx)) (tag x ∷ (payload x ++ hashed_bytes (suc (suc idx)) ts)) k
      (zeros-to_le_bytes 7 (suc idx) small) (sym (append-nil u) ∙ sym e))
payload_unique idx t u (x ∷ ts) (y ∷ us) h k small e =
    strings_unique t u (to_le_bytes 8 (suc idx))
      (tag x ∷ (payload x ++ hashed_bytes (suc (suc idx)) ts))
      (tag y ∷ (payload y ++ hashed_bytes (suc (suc idx)) us)) h k
      (zeros-to_le_bytes 7 (suc idx) small) e

bytes_nonempty : (k n : ℕ) (r : List ℕ) → [] ≢ to_le_bytes (suc k) n ++ r
unfolding to_le_bytes
bytes_nonempty k n r e = cc

-- The bytes that are hashed from an index on determine the tokens.
hashed_bytes-injective_from :
    (idx : ℕ) (ts us : List Token)
    → Texts ts
    → Texts us
    → idx + length ts < 256 ^ 7
    → hashed_bytes idx ts ≡ hashed_bytes idx us
    → ts ≡ us
unfolding hashed_bytes
hashed_bytes-injective_from idx [] [] h k small e = refl
hashed_bytes-injective_from idx [] (u ∷ us) h k small e = absurd (bytes_nonempty 7 idx _ e)
hashed_bytes-injective_from idx (t ∷ ts) [] h k small e = absurd (bytes_nonempty 7 idx _ (sym e))
hashed_bytes-injective_from idx (t ∷ ts) (u ∷ us) h k small e =
    let behind = append_cancel_left (to_le_bytes 8 idx) _ _ e in
    let tags : tag t ≡ tag u = head-eq_of_cons-eq behind in
    let tails : payload t ++ hashed_bytes (suc idx) ts ≡ payload u ++ hashed_bytes (suc idx) us =
      tail-eq_of_cons-eq behind in
    let same = payload_unique idx (payload t) (payload u) ts us h.0 k.0 (omega arith) tails in
    let rest =
      append_cancel_left (payload u) (hashed_bytes (suc idx) ts) (hashed_bytes (suc idx) us)
        (ap (λ w. w ++ hashed_bytes (suc idx) ts) (sym same) ∙ tails) in
    ap₂ (λ x xs. x ∷ xs) (token_unique t u tags same)
      (hashed_bytes-injective_from (suc idx) ts us h.1 k.1 (omega arith) rest)

-- Two sequences of tokens, of strings without a zero byte, for which the hasher sees the same bytes
-- are the same. The bound on the number of the tokens leaves a zero byte in each index.
pub hashed_bytes-injective :
    (ts us : List Token)
    → Texts ts
    → Texts us
    → length ts < 256 ^ 7
    → hashed_bytes 0 ts ≡ hashed_bytes 0 us
    → ts ≡ us
hashed_bytes-injective ts us h k small e = hashed_bytes-injective_from 0 ts us h k (omega arith) e

-- Save for a collision of the hash function on the two inputs, two JSONB values have the same digest
-- exactly when they have the same tokens. The strings hold no zero byte, and the bound on the number
-- of the tokens leaves a zero byte in each index.
pub jsonb_digest-eq_iff :
    (sha512 : List ℕ → List ℕ) (ts us : List Token)
    → Texts ts
    → Texts us
    → length ts < 256 ^ 7
    → (sha512 (hashed_bytes 0 ts) ≡ sha512 (hashed_bytes 0 us)
        → hashed_bytes 0 ts ≡ hashed_bytes 0 us)
    → (jsonb_digest sha512 ts ≡ jsonb_digest sha512 us) ↔ (ts ≡ us)
unfolding jsonb_digest
jsonb_digest-eq_iff sha512 ts us h k small no_collision =
    (λ e. hashed_bytes-injective ts us h k small (no_collision e), λ e. ap (jsonb_digest sha512) e)
