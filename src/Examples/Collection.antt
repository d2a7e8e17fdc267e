-- ===== src/Examples/Collection.antt =====
-- A run of the garbage collector of crates/registryd/src/gc.rs over the index of two records and the
-- partition of one apple.
use commonsdb_iroh_service.Prelude.{◌≡◌, refl, true, some, List, [], ◌∷◌}
use commonsdb_iroh_service.Prelude.Bytes.{bytes_eq}
use commonsdb_iroh_service.Prelude.Words.{range_from}
use commonsdb_iroh_service.Record.{Hash, pending}
use commonsdb_iroh_service.Exec.{Result, ok, err}
use commonsdb_iroh_service.Redb.{get_row}
use commonsdb_iroh_service.IsccStore
use commonsdb_iroh_service.IsccStore.{load_directory}
use commonsdb_iroh_service.Hamt.{contains}
use commonsdb_iroh_service.Hamt.Walk.{insert_hash, insert_hashes, reach_children, collect_reachable}
use commonsdb_iroh_service.RecordIndex.{
  get, read_record, parse_row, from_slice, root_of_bytes, roots_of_rows, all_local_roots,
}
use commonsdb_iroh_service.RecordIndex.Scan.{content_hashes, all_content_hashes}
use commonsdb_iroh_service.Gc.{
  GcError, GcSources, local_root, fill_roots, reach_partitions, reach_named, collect_live,
}
use commonsdb_iroh_service.Gc.Protects.{collect_live-keeps_index}
use commonsdb_iroh_service.Examples.Externals.{weigh_blake, shift_json}
use commonsdb_iroh_service.Examples.Partitions.{program, store, apple_node, apple_store}
use commonsdb_iroh_service.Examples.Tables.{rows, numbers_json}
use commonsdb_iroh_service.Examples.Index.{two_records, kiwi, record_of}
use commonsdb_iroh_service.Examples.Similar.{packed_json}

abbrev apple_sources : GcSources
apple_sources = record {
  top_level_partitions = 1;
  get_partition_root = λ p. ok (some (weigh_blake.hash apple_node));
  get_named_root = ok (some (9 ∷ []));
  entry_content_hashes = ok [];
}

abbrev live_of : Result GcError (List Hash) → List Hash
live_of (ok live) = live
live_of (err e) = []

abbrev live : List Hash
live = live_of (
    collect_live apple_sources shift_json packed_json store apple_store rows numbers_json
      two_records)

live_run :
    collect_live apple_sources shift_json packed_json store apple_store rows numbers_json
      two_records
    ≡ ok live
unfolding program collect_live all_content_hashes content_hashes from_slice all_local_roots
    roots_of_rows root_of_bytes fill_roots local_root reach_partitions collect_reachable insert_hash
    insert_hashes reach_children range_from reach_named IsccStore.Query.collect_reachable
    load_directory
live_run = refl

kiwi_known : get rows numbers_json two_records kiwi ≡ ok (some (record_of 2 pending))
unfolding get read_record parse_row from_slice get_row bytes_eq
kiwi_known = refl

collect_live-keeps_index_example : contains live (2 ∷ []) ≡ true
collect_live-keeps_index_example =
    collect_live-keeps_index shift_json packed_json store apple_store rows numbers_json
      apple_sources two_records live kiwi (record_of 2 pending) live_run kiwi_known
