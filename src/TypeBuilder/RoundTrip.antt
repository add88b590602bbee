-- ===== src/TypeBuilder/RoundTrip.antt =====
-- src/type_builder.rs: `do_deserialize`, and the two macros together.
use mathlib.Core.List.{append-nil}
use promscale_extension.Prelude.{
  ℕ, ◌+◌, ◌-◌, ◌%◌, ◌^◌, ◌≤◌, ◌≡◌, ap, ◌∙◌, some, List, [], ◌∷◌, ◌↔◌, arith, ltb, length,
  le→not-ltb, false, ok,
}
use promscale_extension.TypeBuilder.{
  Varlena, IsVarlena, Bincode, IsBincode, write_state, do_serialize_version, do_serialize,
  decode_bytes, do_deserialize,
}

module _ {S : Type 0} (p : Varlena) (c : Bincode S) where
  open p use {Bytea, payload}

  decode_bytes-ok :
      (bytes : List ℕ) (s : S)
      → decode_bytes p c bytes ≡ ok s
      → (rest : List ℕ) × (bytes ≡ 1 ∷ 1 ∷ rest) × (c.deserialize rest ≡ some s)
  unfolding decode_bytes
  decode_bytes-ok [] s h = cc
  decode_bytes-ok (b0 ∷ []) s h = ground arith
  decode_bytes-ok (b0 ∷ b1 ∷ rest) s h = (rest, ground arith, ground arith)

  ok-decode_bytes :
      (bytes rest : List ℕ) (s : S)
      → bytes ≡ 1 ∷ 1 ∷ rest
      → c.deserialize rest ≡ some s
      → decode_bytes p c bytes ≡ ok s
  unfolding decode_bytes
  ok-decode_bytes bytes rest s e d = rw (e, d)

  -- `do_deserialize` returns a state exactly when the payload is the version byte 1, the
  -- serialization type 1, and bytes that `bincode` decodes to that state.
  pub do_deserialize-eq-ok_iff :
      (v : Bytea) (s : S)
      → (do_deserialize p c v ≡ ok s)
        ↔ ((rest : List ℕ) × (payload v ≡ 1 ∷ 1 ∷ rest) × (c.deserialize rest ≡ some s))
  unfolding do_deserialize
  do_deserialize-eq-ok_iff v s =
      (decode_bytes-ok (payload v) s, λ t. ok-decode_bytes (payload v) t.0 s t.1 t.2)

  module _ (lp : IsVarlena p) (lc : IsBincode c) where
    -- A state whose encoding leaves room for the six bytes of header is serialized, and what
    -- `do_serialize` writes `do_deserialize` reads back.
    pub do_deserialize-do_serialize :
        (s : S) (d : List ℕ)
        → c.serialize s ≡ some d
        → length d + 6 ≤ 0x3FFFFFFF
        → (v : Bytea) × (do_serialize p c s ≡ ok v) × (do_deserialize p c v ≡ ok s)
    unfolding do_serialize do_serialize_version write_state do_deserialize
    do_deserialize-do_serialize s d e h =
        let no_wrap : (length d + 2) % 2 ^ 64 ≡ length d + 2 = omega arith in
        let no_wrap' : (length d + 2 + 4) % 2 ^ 64 ≡ length d + 6 = omega arith in
        let no_padding : length d + 6 - (6 + length d) ≡ 0 = omega arith in
        let header : 6 + length d ≡ length (1 ∷ 1 ∷ d) + 4 = omega arith in
        let fits : ltb 0x3FFFFFFF (length d + 6) ≡ false = le→not-ltb _ _ h in
        let full : ltb (length d + 6) (6 + length d) ≡ false = le→not-ltb _ _ (omega arith) in
        (
          p.set_varsize (0 ∷ 0 ∷ 0 ∷ 0 ∷ 1 ∷ 1 ∷ d) (6 + length d),
          rw (lc.size s d e, no_wrap, no_wrap', fits, e, full, no_padding, append-nil),
          ok-decode_bytes _ d s
              (ap (λ n. payload (p.set_varsize (0 ∷ 0 ∷ 0 ∷ 0 ∷ 1 ∷ 1 ∷ d) n)) header
                ∙ lp.payload-set_varsize 0 0 0 0 (1 ∷ 1 ∷ d))
              (lc.decode s d e),
        )
