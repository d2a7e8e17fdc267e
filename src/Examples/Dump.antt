-- ===== src/Examples/Dump.antt =====
-- A batch of a dump on the database of two records: `flush_batch` of crates/registryd/src/bulk_load.rs.
use commonsdb_iroh_service.Prelude.{ℕ, none, some, List, [], ◌∷◌, length, arith}
use commonsdb_iroh_service.Prelude.Bytes.{Bytes, bytes_eq}
use commonsdb_iroh_service.Record.{published}
use commonsdb_iroh_service.BulkLoad.{Line}
use commonsdb_iroh_service.BulkLoad.Spills.{HasFiles}
use commonsdb_iroh_service.BulkLoad.Flush.{Flushed, flush_batch-Flushed}
use commonsdb_iroh_service.Examples.Externals.{shift_json}
use commonsdb_iroh_service.Examples.Tables.{rows, numbers_json}
use commonsdb_iroh_service.Examples.Index.{fig, plum, two_records, held, two_records-Reads}

abbrev line_with : Bytes → ℕ → Line
line_with key hash = record {
  key = key;
  value = hash ∷ [];
  record_ = record {
    content_hash = hash ∷ [];
    size = 1;
    partition_id = 1;
    status = published;
    created_at = 7;
    content_code = none;
    published_at = some 9;
  };
}

-- Fig with its own hash, a new key twice, and fig with another hash.
abbrev dump_batch : List Line
dump_batch = line_with fig 1 ∷ line_with plum 8 ∷ line_with plum 9 ∷ line_with fig 6 ∷ []

abbrev two_files : List Bytes
two_files = [] ∷ (5 ∷ []) ∷ []

files_there : HasFiles shift_json held dump_batch (length two_files)
unfolding bytes_eq
files_there = (omega arith, (omega arith, (omega arith, (omega arith, tt))))

flush_batch-Flushed_example :
    Flushed shift_json rows numbers_json held dump_batch two_files 0 0 two_records
flush_batch-Flushed_example =
    flush_batch-Flushed shift_json rows numbers_json held dump_batch two_files 0 0 two_records
      two_records-Reads files_there
