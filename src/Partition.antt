-- ===== src/Partition.antt =====
-- crates/registry-core/src/partition.rs: the partition of a key, and the path of a key below its
-- partition's root.
use commonsdb_iroh_service.Prelude.{ℕ, ◌+◌, ◌%◌, Option, get_elem?, get_or}
use commonsdb_iroh_service.Prelude.Bytes.{Bytes}
use commonsdb_iroh_service.External.{Sha256}

abbrev pub top_level_partitions_default : ℕ
top_level_partitions_default = 256

abbrev pub leaf_max_entries_default : ℕ
leaf_max_entries_default = 1024

unfoldable pub key_digest : Sha256 → Bytes → Bytes
key_digest sha key = sha.digest key

-- `digest[0] as u32 % n`; the digest is an array of 32 bytes, so byte 0 is there.
unfoldable pub partition_id : Bytes → ℕ → ℕ
partition_id digest n = get_or digest 0 0 % n

unfoldable pub partition_id_for_key : Sha256 → Bytes → ℕ → ℕ
unfolding key_digest partition_id
partition_id_for_key sha key n = partition_id (key_digest sha key) n

unfoldable pub descent_byte : Bytes → ℕ → Option ℕ
descent_byte digest depth = get_elem? digest (1 + depth)
