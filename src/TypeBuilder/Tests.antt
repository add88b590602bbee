-- ===== src/TypeBuilder/Tests.antt =====
-- The serialization macros over a concrete codec of numbers.
use promscale_extension.Prelude.{ℕ, ◌≡◌, refl, Option, none, some, List, [], ◌∷◌, ◌↔◌, arith, ok}
use promscale_extension.TypeBuilder.{
  Varlena, IsVarlena, Bincode, IsBincode, do_serialize, do_deserialize,
}
use promscale_extension.TypeBuilder.RoundTrip.{
  do_deserialize-eq-ok_iff, do_deserialize-do_serialize,
}

-- A `bytea` is its payload.
abbrev behind_header : List ℕ → List ℕ
behind_header (a ∷ b ∷ c ∷ d ∷ rest) = rest
behind_header _ = []

abbrev plain : Varlena
plain = record { Bytea = List ℕ; set_varsize = λ bytes n. behind_header bytes; payload = λ b. b }

plain-IsVarlena : IsVarlena plain
plain-IsVarlena = record { payload-set_varsize = λ a b c d rest. refl }

-- A number is one byte.
abbrev decode_one : List ℕ → Option ℕ
decode_one (n ∷ []) = some n
decode_one _ = none

abbrev one_byte : Bincode ℕ
one_byte = record {
  serialized_size = λ n. some 1;
  serialize = λ n. some (n ∷ []);
  deserialize = decode_one;
}

one_byte-IsBincode : IsBincode one_byte
one_byte-IsBincode = record { size = λ s d e. ground arith; decode = λ s d e. ground arith }

do_deserialize-eq-ok_iff_example :
    (do_deserialize plain one_byte (1 ∷ 1 ∷ 9 ∷ []) ≡ ok 9)
    ↔ ((rest : List ℕ) × (1 ∷ 1 ∷ 9 ∷ [] ≡ 1 ∷ 1 ∷ rest) × (decode_one rest ≡ some 9))
do_deserialize-eq-ok_iff_example = do_deserialize-eq-ok_iff plain one_byte (1 ∷ 1 ∷ 9 ∷ []) 9

do_deserialize-do_serialize_example :
    (v : List ℕ) × (do_serialize plain one_byte 9 ≡ ok v) × (do_deserialize plain one_byte v ≡ ok 9)
do_deserialize-do_serialize_example =
    do_deserialize-do_serialize plain one_byte plain-IsVarlena one_byte-IsBincode 9 (9 ∷ []) refl
      (omega arith)
