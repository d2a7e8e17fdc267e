-- ===== src/External.antt =====
-- What the crates call and do not implement, as interfaces: SHA-256, BLAKE3 and the JSON text of a
-- leaf entry. Each law is what the documentation of that code says.
use commonsdb_iroh_service.Prelude.{◌<◌, ◌≡◌, ◌≢◌, [], String, All, length}
use commonsdb_iroh_service.Prelude.Bytes.{Bytes}
use commonsdb_iroh_service.Record.{Hash, LeafEntry}
use commonsdb_iroh_service.Exec.{Result, ok}

-- The crate `sha2`: a digest is 32 bytes.
pub record Sha256 : Type 0 where
  pub digest : Bytes → Bytes
  pub length-digest : (key : Bytes) → length (digest key) ≡ 32
  pub digest_bytes : (key : Bytes) → All (λ b. b < 256) (digest key)

-- The crate `blake3`: a digest is 32 bytes. That it does not collide is no law here.
pub record Blake3 : Type 0 where
  pub hash : Bytes → Hash
  pub length-hash : (bytes : Bytes) → length (hash bytes) ≡ 32

-- `serde_json` on `LeafEntry`: compact output is one line that is not empty, and reads back.
pub record EntryJson : Type 0 where
  pub to_json : LeafEntry → Bytes
  pub from_json : Bytes → Result String LeafEntry
  pub from_json-to_json : (e : LeafEntry) → from_json (to_json e) ≡ ok e
  pub to_json-ne-nil : (e : LeafEntry) → to_json e ≢ []
  pub to_json_one_line : (e : LeafEntry) → All (λ b. b ≢ 10) (to_json e)
