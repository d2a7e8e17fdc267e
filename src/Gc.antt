-- ===== src/Gc.antt =====
-- crates/registryd/src/gc.rs: the set of blobs that a run of the garbage collector protects.
--
-- The sources are read in the order of `collect_live`; the guards of the callback are `protect`. The hash map of roots is walked in the order of a
-- list.
pub mod Protects
use commonsdb_iroh_service.Prelude.{
  ℕ, Option, none, some, List, [], ◌∷◌, ◌++◌, String, ltb, ◌==◌, if◌then◌else◌,
}
use commonsdb_iroh_service.Prelude.Words.{range_from}
use commonsdb_iroh_service.Record.{Hash}
use commonsdb_iroh_service.Exec.{Result, ok, err, map_err, and_then}
use commonsdb_iroh_service.Redb.{Redb}
use commonsdb_iroh_service.External.{EntryJson}
use commonsdb_iroh_service.BlobStore.{BlobStore}
use commonsdb_iroh_service.Hamt.{hamt_fuel}
use commonsdb_iroh_service.Hamt.Walk.{collect_reachable}
use commonsdb_iroh_service.IsccStore.{IndexJson}
use commonsdb_iroh_service.IsccStore.Query
use commonsdb_iroh_service.RecordIndex.{IndexError, RecordJson, Database, all_local_roots}
use commonsdb_iroh_service.RecordIndex.Scan.{all_content_hashes}

pub data GcError : Type 0 where
  index_error : IndexError → GcError
  doc_error : String → GcError

-- What the run reads besides the index and the blobs.
pub record GcSources : Type 0 where
  pub top_level_partitions : ℕ
  pub get_partition_root : ℕ → Result String (Option Hash)
  pub get_named_root : Result String (Option Hash)
  pub entry_content_hashes : Result String (List Hash)

-- The root of a partition in the local table.
unfoldable pub local_root : ℕ → List (ℕ × Hash) → Option Hash
local_root p [] = none
local_root p (row ∷ roots) = if p == row.0 then some row.1 else local_root p roots

abbrev pub add_root : ℕ → Option Hash → List (ℕ × Hash) → List (ℕ × Hash)
add_root p none roots = roots
add_root p (some root) roots = (p, root) ∷ roots

-- A walk that fails keeps what it reached.
module _ (json_text : EntryJson) {S : Type 0} (store : BlobStore S) (blobs : S) where
  unfoldable pub reach_partitions : List (ℕ × Hash) → List Hash → List Hash
  unfolding collect_reachable
  reach_partitions [] live = live
  reach_partitions (row ∷ roots) live =
      reach_partitions roots (collect_reachable json_text store blobs hamt_fuel row.1 live).1

-- The walk of the similarity index; one that fails keeps what it reached, too.
module _ (index_json : IndexJson) {S : Type 0} (store : BlobStore S) (blobs : S) where
  unfoldable pub reach_named : Option Hash → List Hash → List Hash
  unfolding Query.collect_reachable
  reach_named none live = live
  reach_named (some root) live = (Query.collect_reachable index_json store blobs root live).1

module _ (sources : GcSources) where
  -- The pointer document's roots, for the partitions that the table lacks.
  unfoldable pub fill_roots : List ℕ → List (ℕ × Hash) → Result GcError (List (ℕ × Hash))
  unfolding local_root
  fill_roots [] roots = ok roots
  fill_roots (p ∷ partitions) roots = elim (local_root p roots) [
    | some _ ↦ fill_roots partitions roots
    | none ↦
        and_then (map_err doc_error (sources.get_partition_root p))
          λ root. fill_roots partitions (add_root p root roots)
  ]

  module _ (json_text : EntryJson) (index_json : IndexJson) {S : Type 0} (store : BlobStore S)
      (blobs : S) (redb : Redb) (record_json : RecordJson) where
    unfoldable pub collect_live : Database redb → Result GcError (List Hash)
    unfolding all_content_hashes all_local_roots fill_roots reach_partitions reach_named range_from
    collect_live db =
        and_then (map_err index_error (all_content_hashes redb record_json db)) λ hashes.
          and_then
            (fill_roots (range_from 0 sources.top_level_partitions)
              (all_local_roots redb record_json db))
            λ roots.
              let live = reach_partitions json_text store blobs roots hashes in
              and_then (map_err doc_error sources.get_named_root) λ named.
                and_then (map_err doc_error sources.entry_content_hashes)
                  λ entries. ok (entries ++ reach_named index_json store blobs named live)

-- `ProtectOutcome`: a run continues with a protect set, or aborts.
pub data ProtectOutcome : Type 0 where
  continue : List Hash → ProtectOutcome
  abort : ProtectOutcome

abbrev protect_result : Result GcError (List Hash) → ProtectOutcome
protect_result (ok live) = continue live
protect_result (err e) = abort

-- The callback that `config` installs: unwired sources or an active write skip the run.
module _ (json_text : EntryJson) (index_json : IndexJson) {S : Type 0} (store : BlobStore S)
    (blobs : S) (redb : Redb) (record_json : RecordJson) where
  unfoldable pub protect : Option GcSources → ℕ → Database redb → ProtectOutcome
  unfolding collect_live
  protect none active_writes db = abort
  protect (some sources) active_writes db =
      if ltb 0 active_writes
      then abort
      else protect_result
          (collect_live sources json_text index_json store blobs redb record_json db)
