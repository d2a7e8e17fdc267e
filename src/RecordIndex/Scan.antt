-- ===== src/RecordIndex/Scan.antt =====
-- crates/registryd/src/index.rs: the passes over the whole index, for verification, for rebuilding
-- the trees and for the protect set of the garbage collector.
use commonsdb_iroh_service.Prelude.{
  ℕ, suc, true, false, ◌&&◌, Option, none, some, List, [], ◌∷◌, ◌++◌, get_elem?, set, replicate,
  ltb, ◌==◌, if◌then◌else◌,
}
use commonsdb_iroh_service.Prelude.Bytes.{Bytes}
use commonsdb_iroh_service.Record.{Hash}
use commonsdb_iroh_service.External.{EntryJson}
use commonsdb_iroh_service.Exec.{Result, ok, err, and_then}
use commonsdb_iroh_service.Redb.{Redb}
use commonsdb_iroh_service.RecordIndex.{
  IndexError, panic, RecordJson, Database, from_slice, is_published, leaf_entry,
}

-- The files of a spill directory, by partition; a write to a file that is not there panics.
unfoldable pub append_to : List Bytes → Option Bytes → ℕ → Bytes → Result IndexError (List Bytes)
append_to files none p bytes = err panic
append_to files (some file) p bytes = ok (set files p (file ++ bytes))

unfoldable pub write_to : List Bytes → ℕ → Bytes → Result IndexError (List Bytes)
unfolding append_to
write_to files p bytes = append_to files (get_elem? files p) p bytes

module _ (redb : Redb) (record_json : RecordJson) where
  unfoldable pub published_keys : ℕ → List (Bytes × Bytes) → Result IndexError (List Bytes)
  unfolding from_slice is_published
  published_keys partition_id [] = ok []
  published_keys partition_id ((key, raw) ∷ rows) =
      let rest = published_keys partition_id rows in
      and_then (from_slice redb record_json raw) λ r. and_then rest λ keys.
        ok (if r.partition_id == partition_id && is_published r.status then key ∷ keys else keys)

  unfoldable pub published_keys_for_partition : Database redb → ℕ → Result IndexError (List Bytes)
  unfolding published_keys
  published_keys_for_partition db partition_id = published_keys partition_id (redb.iter db.records)

  unfoldable pub content_hashes : List (Bytes × Bytes) → Result IndexError (List Hash)
  unfolding from_slice
  content_hashes [] = ok []
  content_hashes ((key, raw) ∷ rows) =
      let rest = content_hashes rows in
      and_then (from_slice redb record_json raw)
        λ r. and_then rest λ hashes. ok (r.content_hash ∷ hashes)

  unfoldable pub all_content_hashes : Database redb → Result IndexError (List Hash)
  unfolding content_hashes
  all_content_hashes db = content_hashes (redb.iter db.records)

  -- The loop of `spill_published_entries`: the files and the count.
  unfoldable pub spill_entries :
      EntryJson → List (Bytes × Bytes) → List Bytes → ℕ → Result IndexError (List Bytes × ℕ)
  unfolding from_slice is_published leaf_entry write_to
  spill_entries json_text [] files spilled = ok (files, spilled)
  spill_entries json_text ((key, raw) ∷ rows) files spilled =
      and_then (from_slice redb record_json raw) λ r. elim (is_published r.status) [
        | false ↦ spill_entries json_text rows files spilled
        | true ↦
            and_then
              (write_to files r.partition_id (json_text.to_json (leaf_entry r key) ++ 10 ∷ []))
              λ files. spill_entries json_text rows files (suc spilled)
      ]

  unfoldable pub spill_published_entries :
      EntryJson → Database redb → ℕ → Result IndexError (List Bytes × ℕ)
  unfolding spill_entries replicate
  spill_published_entries json_text db partitions =
      spill_entries json_text (redb.iter db.records) (replicate partitions []) 0

  -- The loop of `spill_published_keys`.
  unfoldable pub spill_keys :
      ℕ → List (Bytes × Bytes) → List Bytes → ℕ → Result IndexError (List Bytes × ℕ)
  unfolding from_slice is_published write_to
  spill_keys partitions [] files total = ok (files, total)
  spill_keys partitions ((key, raw) ∷ rows) files total =
      and_then (from_slice redb record_json raw) λ r.
        elim (is_published r.status && ltb r.partition_id partitions) [
          | false ↦ spill_keys partitions rows files total
          | true ↦
              and_then (write_to files r.partition_id (key ++ 10 ∷ []))
                λ files. spill_keys partitions rows files (suc total)
        ]

  unfoldable pub spill_published_keys : Database redb → ℕ → Result IndexError (List Bytes × ℕ)
  unfolding spill_keys replicate
  spill_published_keys db partitions =
      spill_keys partitions (redb.iter db.records) (replicate partitions []) 0
