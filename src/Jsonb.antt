-- ===== src/Jsonb.antt =====
-- src/iterable_jsonb.rs and src/jsonb_digest.rs: the tokens of a JSONB value, and the digest of them.
pub mod Tokens
pub mod Ends
pub mod Digest
pub mod Value
pub mod Datum
pub mod Drop
mod OwnTests
mod Tests
