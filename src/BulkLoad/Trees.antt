-- ===== src/BulkLoad/Trees.antt =====
-- `retimestamp` and `build_trees` of crates/registryd/src/bulk_load.rs: new dates from a dump, and the trees
-- of all partitions from the spill files.
--
-- A spill file that cannot be opened, and a line of one that is no entry, are errors of the file.
use commonsdb_iroh_service.Prelude.{
  ℕ, zero, suc, ◌+◌, Option, none, some, List, [], ◌∷◌, ◌++◌, String, length, get_elem?, leb, true,
  false,
}
use commonsdb_iroh_service.Prelude.Bytes.{Bytes}
use commonsdb_iroh_service.Record.{Instant, LeafEntry}
use commonsdb_iroh_service.External.{Sha256, EntryJson}
use commonsdb_iroh_service.BlobStore.{BlobStore}
use commonsdb_iroh_service.Redb.{Redb}
use commonsdb_iroh_service.Values.{declaration_timestamp}
use commonsdb_iroh_service.RecordIndex.{
  IndexError, RecordJson, Database, next_u64, update_created_at, set_local_root,
}
use commonsdb_iroh_service.RecordIndex.Scan.{spill_published_entries}
use commonsdb_iroh_service.Hamt.{split_lines}
use commonsdb_iroh_service.Hamt.Bulk.{build_from_entries}
use commonsdb_iroh_service.Publisher.{PointerDoc, World, PublishError, on_index, on_blobs, on_doc}
use commonsdb_iroh_service.BulkLoad.{Loader, canonical_value_str}
use commonsdb_iroh_service.Exec.{
  Result, ok, err, map_err, and_then, Exec, pure, lift, asks, ◌>>=◌, ◌>>◌,
}

pub data BuildError : Type 0 where
  publish_failed : PublishError → BuildError
  no_spill_file : (partition : ℕ) → BuildError
  bad_entry : String → BuildError

-- The entries of a spill file, from its lines that are not empty.
unfoldable pub spilled_entries : EntryJson → List Bytes → Result BuildError (List LeafEntry)
spilled_entries json_text [] = ok []
spilled_entries json_text ([] ∷ lines) = spilled_entries json_text lines
spilled_entries json_text ((b ∷ line) ∷ lines) =
    let rest = spilled_entries json_text lines in
    and_then (map_err bad_entry (json_text.from_json (b ∷ line)))
      λ e. and_then rest λ entries. ok (e ∷ entries)

unfoldable pub read_spill : EntryJson → ℕ → Option Bytes → Result BuildError (List LeafEntry)
unfolding spilled_entries split_lines
read_spill json_text partition none = err (no_spill_file partition)
read_spill json_text partition (some file) = spilled_entries json_text (split_lines file)

module _ (sha : Sha256) (json_text : EntryJson) (redb : Redb) (record_json : RecordJson)
    {S D : Type 0} (store : BlobStore S) (pointer_doc : PointerDoc D) where
  abbrev on_world :
      {A : Type 0} → Exec PublishError (World redb S D) A → Exec BuildError (World redb S D) A
  on_world m w = let ran = m w in (map_err publish_failed ran.0, ran.1)

  unfoldable pub build_tree : List Bytes → ℕ → ℕ → Exec BuildError (World redb S D) Unit
  unfolding read_spill build_from_entries set_local_root
  build_tree spills leaf_max_entries p = do
    entries ← lift (read_spill json_text p (get_elem? spills p))
    root ←
        on_world
          (on_blobs redb S D (build_from_entries json_text store leaf_max_entries sha entries))
    on_world (on_doc redb S D (pointer_doc.set_partition_root p root))
    on_world (on_index redb S D (set_local_root redb record_json p root))

  -- The loop of `build_trees` over `n` partitions from `p` on.
  unfoldable pub build_trees_from : List Bytes → ℕ → ℕ → ℕ → Exec BuildError (World redb S D) Unit
  unfolding build_tree
  build_trees_from spills leaf_max_entries p zero = pure tt
  build_trees_from spills leaf_max_entries p (suc n) =
      build_tree spills leaf_max_entries p >> build_trees_from spills leaf_max_entries (suc p) n

  unfoldable pub build_trees : List Bytes → ℕ → ℕ → Exec BuildError (World redb S D) Unit
  unfolding build_trees_from
  build_trees spills leaf_max_entries top_level_partitions =
      build_trees_from spills leaf_max_entries 0 top_level_partitions

-- The counters that `retimestamp` prints, and the batch that waits.
pub record Redating : Type 0 where
  pub updated : ℕ
  pub missing : ℕ
  pub no_timestamp : ℕ
  pub lines : ℕ
  pub batch : List (Bytes × Instant)

module _ {Cid : Type 0} (loader : Loader Cid) (redb : Redb) (record_json : RecordJson) where
  -- The dated key of a line: nothing for a line that is passed over, `none` for one without a date.
  unfoldable pub dated_key : Bytes → Option (Option (Bytes × Instant))
  unfolding canonical_value_str declaration_timestamp
  dated_key line = elim (loader.parse_line line) [
    | err e ↦ none
    | ok parsed ↦ elim (canonical_value_str loader parsed.1) [
      | none ↦ none
      | some value_str ↦ elim (declaration_timestamp loader.json value_str) [
        | none ↦ some none
        | some created_at ↦ some (some (parsed.0, created_at))
      ]
    ]
  ]

  unfoldable pub count_line : Option (Option (Bytes × Instant)) → Redating → Redating
  unfolding next_u64
  count_line none r = record {
    updated = r.updated;
    missing = r.missing;
    no_timestamp = r.no_timestamp;
    lines = next_u64 r.lines;
    batch = r.batch;
  }
  count_line (some none) r = record {
    updated = r.updated;
    missing = r.missing;
    no_timestamp = next_u64 r.no_timestamp;
    lines = next_u64 r.lines;
    batch = r.batch;
  }
  count_line (some (some dated)) r = record {
    updated = r.updated;
    missing = r.missing;
    no_timestamp = r.no_timestamp;
    lines = next_u64 r.lines;
    batch = r.batch ++ dated ∷ [];
  }

  unfoldable pub write_dates : Redating → Exec IndexError (Database redb) Redating
  unfolding update_created_at
  write_dates r = do
    counts ← update_created_at redb record_json r.batch
    pure record {
      updated = r.updated + counts.0;
      missing = r.missing + counts.1;
      no_timestamp = r.no_timestamp;
      lines = r.lines;
      batch = [];
    }

  -- The loop over the dump: a batch of 10000 is written.
  unfoldable pub redate_lines : List Bytes → Redating → Exec IndexError (Database redb) Redating
  unfolding dated_key count_line write_dates
  redate_lines [] r = pure r
  redate_lines ([] ∷ dump) r = redate_lines dump r
  redate_lines ((b ∷ line) ∷ dump) r =
      let counted = count_line (dated_key (b ∷ line)) r in
      elim (leb 10000 (length counted.batch)) [
        | true ↦ (do written ← write_dates counted; redate_lines dump written)
        | false ↦ redate_lines dump counted
      ]

  -- `retimestamp` up to its call of `build_trees`: the counters, and the spill files that it hands on.
  unfoldable pub retimestamp :
      EntryJson → List Bytes → Exec IndexError (Database redb) (Redating × (List Bytes × ℕ))
  unfolding redate_lines write_dates spill_published_entries
  retimestamp json_text dump = do
    r ←
        redate_lines dump
          record { updated = 0; missing = 0; no_timestamp = 0; lines = 0; batch = [] }
    last ← write_dates r
    spilled ←
        asks
          (λ db. spill_published_entries redb record_json json_text db loader.top_level_partitions)
    pure (last, spilled)
