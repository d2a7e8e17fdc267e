-- ===== src/Examples/Audits.antt =====
-- An audit (crates/registryd/src/verify.rs) of the index of two records against the partition of one apple:
-- the published fig is not in the tree.
use commonsdb_iroh_service.Prelude.{◌⊎◌, inr, refl, true, arith, some, Option, [], ◌∷◌}
use commonsdb_iroh_service.Record.{Hash, pending, published}
use commonsdb_iroh_service.BlobStore.Memory.{MemoryBlobStore}
use commonsdb_iroh_service.Exec.{ok}
use commonsdb_iroh_service.Redb.{get_row}
use commonsdb_iroh_service.RecordIndex.{from_slice, get_local_root}
use commonsdb_iroh_service.Hamt.Walk.{walk_entries, each_child}
use commonsdb_iroh_service.Publisher.{PointerDoc, World}
use commonsdb_iroh_service.Audit.Report.{Walks, HasRoot, Reported, run-Reported}
use commonsdb_iroh_service.Audit.Expected.{AllReadable}
use commonsdb_iroh_service.Audit.Root.{Refused, Accepted, set_root-Refused-Accepted}
use commonsdb_iroh_service.Examples.Externals.{sum_sha, weigh_blake, shift_json}
use commonsdb_iroh_service.Examples.Partitions.{apple, program, store, apple_node, apple_store}
use commonsdb_iroh_service.Examples.Tables.{rows, numbers_json}
use commonsdb_iroh_service.Examples.Index.{record_of, two_records, next_of_two}

-- A pointer document with one root for all partitions.
abbrev one_root : PointerDoc (Option Hash)
one_root = record {
  get_partition_root = λ doc p. ok doc;
  set_partition_root = λ p h doc. (ok tt, some h);
}

abbrev apple_world : World rows MemoryBlobStore (Option Hash)
apple_world = record {
  index = two_records;
  blobs = apple_store;
  doc = some (weigh_blake.hash apple_node);
}

rows_readable : AllReadable rows numbers_json (rows.iter two_records.records)
unfolding from_slice
rows_readable = ((record_of 1 published, refl), ((record_of 2 pending, refl), tt))

apple_root :
    HasRoot sum_sha shift_json rows numbers_json store one_root 1 apple_world
      (some (weigh_blake.hash apple_node))
unfolding get_local_root get_row
apple_root = inr (refl, refl)

apple_walked :
    Walks sum_sha shift_json rows numbers_json store one_root
      (some (weigh_blake.hash apple_node))
      apple_world
      (apple ∷ [])
unfolding program walk_entries each_child
apple_walked = refl

run-Reported_example :
    Reported sum_sha shift_json rows numbers_json store one_root true 2 1 (apple ∷ []) apple_world
run-Reported_example =
    run-Reported sum_sha shift_json rows numbers_json store one_root true 2 1
      (some (weigh_blake.hash apple_node)) (apple ∷ []) apple_world rows_readable apple_root
      apple_walked (omega (arith, next_of_two)) (omega (arith, next_of_two), tt)

set_root-Refused-Accepted_example :
    Refused sum_sha shift_json rows numbers_json store one_root 1
      (weigh_blake.hash apple_node)
      apple_world
    ⊎ Accepted sum_sha shift_json rows numbers_json store one_root 1
        (weigh_blake.hash apple_node)
        apple_world
set_root-Refused-Accepted_example =
    set_root-Refused-Accepted sum_sha shift_json rows numbers_json store one_root 1
      (weigh_blake.hash apple_node) apple_world (weigh_blake.length-hash apple_node)
