-- ===== src/TypeBuilder.antt =====
-- src/type_builder.rs: the macros `do_serialize` and `do_deserialize`, which put a version header
-- before the bytes of `bincode` and wrap both in a `bytea`.
pub mod RoundTrip
mod Tests
use promscale_extension.Prelude.{
  ℕ, ◌+◌, ◌-◌, ◌%◌, ◌^◌, ◌≡◌, Option, none, some, List, [], ◌∷◌, ◌++◌, ltb, ◌==◌, if◌then◌else◌,
  length, replicate, Result, ok, err, ◌>>=◌, or_fault, serialization_error, deserialization_error,
  no_bytes, invalid_version, invalid_serialization_type, size_too_large, index_out_of_bounds,
}

-- `enum SerializationType`.
pub data SerializationType : Type 0 where
  default : SerializationType

-- `SerializationType::Default as u8`.
abbrev pub as_u8 : SerializationType → ℕ
as_u8 default = 1

-- `bincode` for the type of a state: `serialized_size`, `serialize_into` and `deserialize`.
pub record Bincode (S : Type 0) : Type 0 where
  pub serialized_size : S → Option ℕ
  pub serialize : S → Option (List ℕ)
  pub deserialize : List ℕ → Option S

-- PostgreSQL's varlena values: `set_varsize` on a buffer, and what `pg_detoast_datum_packed`,
-- `varsize_any_exhdr` and `vardata_any` together read back.
pub record Varlena : Type 1 where
  pub Bytea : Type 0
  pub set_varsize : List ℕ → ℕ → Bytea
  pub payload : Bytea → List ℕ

-- What PostgreSQL documents: behind the header of four bytes stands the payload.
pub record IsVarlena (p : Varlena) : Type 0 where
  pub payload-set_varsize :
      (a b c d : ℕ) (rest : List ℕ)
      → p.payload (p.set_varsize (a ∷ b ∷ c ∷ d ∷ rest) (length rest + 4)) ≡ rest

-- What `bincode` documents: the announced size is the size, and decoding undoes encoding.
pub record IsBincode {S : Type 0} (c : Bincode S) : Type 0 where
  pub size : (s : S) (d : List ℕ) → c.serialize s ≡ some d → c.serialized_size s ≡ some (length d)
  pub decode : (s : S) (d : List ℕ) → c.serialize s ≡ some d → c.deserialize d ≡ some s

module _ {S : Type 0} (p : Varlena) (c : Bincode S) where
  open p use {Bytea, set_varsize, payload}

  -- Writing past the end of the allocated slice is an error of the writer.
  unfoldable pub write_state : ℕ → ℕ → List ℕ → Result Bytea
  write_state version allocated_size serialized =
      if ltb allocated_size (6 + length serialized)
      then err serialization_error
      else ok (
          set_varsize
            (0 ∷ 0 ∷ 0 ∷ 0 ∷ version ∷ as_u8 default ∷ serialized
              ++ replicate (allocated_size - (6 + length serialized)) 0)
            (6 + length serialized))

  unfoldable pub do_serialize_version : S → ℕ → Result Bytea
  do_serialize_version state version = do
    serialized_size ← or_fault serialization_error (c.serialized_size state)
    let our_size = (serialized_size + 2) % 2 ^ 64
    let allocated_size = (our_size + 4) % 2 ^ 64
    if ltb 0x3FFFFFFF allocated_size then err size_too_large else do
      serialized ← or_fault serialization_error (c.serialize state)
      write_state version allocated_size serialized

  unfoldable pub do_serialize : S → Result Bytea
  do_serialize state = do_serialize_version state 1

  -- `bytes[1]` panics where there is one byte only.
  unfoldable pub decode_bytes : List ℕ → Result S
  decode_bytes [] = err no_bytes
  decode_bytes (b0 ∷ []) = if b0 == 1 then err index_out_of_bounds else err invalid_version
  decode_bytes (b0 ∷ b1 ∷ rest) =
      if b0 == 1
      then if b1 == as_u8 default
        then or_fault deserialization_error (c.deserialize rest)
        else err invalid_serialization_type
      else err invalid_version

  unfoldable pub do_deserialize : Bytea → Result S
  do_deserialize bytes = decode_bytes (payload bytes)
