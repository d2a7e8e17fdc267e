-- ===== src/Record.antt =====
-- crates/registry-core/src/record.rs and hash.rs: the data that the registry stores.
use commonsdb_iroh_service.Prelude.{ℕ, Bool, Option, replicate}
use commonsdb_iroh_service.Prelude.Bytes.{Bytes, bytes_eq}

-- `Hash([u8; 32])`: the 32 bytes of a BLAKE3 digest.
abbrev pub Hash : Type 0
Hash = Bytes

-- `Hash::ZERO`
unfoldable pub zero_hash : Hash
unfolding replicate
zero_hash = replicate 32 0

-- `Hash::is_zero`
unfoldable pub is_zero : Hash → Bool
unfolding zero_hash bytes_eq
is_zero h = bytes_eq h zero_hash

-- `DateTime<Utc>` is only carried and compared for equality: a number that stands for the instant.
abbrev pub Instant : Type 0
Instant = ℕ

pub record LeafEntry : Type 0 where
  pub key : Bytes
  pub hash : Hash
  pub size : ℕ
  pub added_at : Instant
  pub content_code : Option ℕ

pub data RecordStatus : Type 0 where
  pending published denylisted : RecordStatus
