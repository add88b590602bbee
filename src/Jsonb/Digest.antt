-- ===== src/Jsonb/Digest.antt =====
-- src/jsonb_digest.rs: `jsonb_digest`. The hasher sees one stream of bytes; the hash function itself
-- is a parameter.
pub mod Injective
use promscale_extension.Prelude.{
  ℕ, zero, suc, ◌/◌, ◌%◌, true, false, Option, none, some, List, [], ◌∷◌, ◌++◌,
}
use promscale_extension.Jsonb.Tokens.{
  Token, null, boolean, string, numeric, key, begin_object, end_object, begin_array, end_array,
}

-- `to_le_bytes` of a number of `k` bytes.
unfoldable pub to_le_bytes : ℕ → ℕ → List ℕ
to_le_bytes zero n = []
to_le_bytes (suc k) n = n % 256 ∷ to_le_bytes k (n / 256)

-- The byte for the kind of a token, and the bytes after it.
abbrev pub tag : Token → ℕ
tag null = 0x01
tag (boolean true) = 0x02
tag (boolean false) = 0x03
tag (string s) = 0x04
tag (numeric s) = 0x05
tag (key s) = 0x0A
tag begin_object = 0x0B
tag end_object = 0x0C
tag begin_array = 0x0D
tag end_array = 0x0E

abbrev pub payload : Token → List ℕ
payload null = []
payload (boolean b) = []
payload (string s) = s
payload (numeric s) = s
payload (key s) = s
payload begin_object = []
payload end_object = []
payload begin_array = []
payload end_array = []

-- All the bytes that the hasher is updated with, from the token with index `idx`.
unfoldable pub hashed_bytes : ℕ → List Token → List ℕ
hashed_bytes idx [] = []
hashed_bytes idx (token ∷ rest) =
    to_le_bytes 8 idx ++ tag token ∷ (payload token ++ hashed_bytes (suc idx) rest)

unfoldable pub jsonb_digest : (List ℕ → List ℕ) → List Token → List ℕ
jsonb_digest sha512 tokens = sha512 (hashed_bytes 0 tokens)
