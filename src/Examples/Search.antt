-- ===== src/Examples/Search.antt =====
-- Insertions into the similarity index of crates/registry-core/src/iscc_store.rs, and a search.
use commonsdb_iroh_service.Prelude.{
  ℕ, suc, ◌≤◌, ◌<◌, ◌≡◌, refl, none, some, List, [], ◌∷◌, arith, replicate,
}
use commonsdb_iroh_service.Prelude.Bytes.{Bytes, bytes_eq, bytes_le}
use commonsdb_iroh_service.Prelude.Words.{range_from, bit_xor, count_ones}
use commonsdb_iroh_service.BTree.{tree_get, tree_insert}
use commonsdb_iroh_service.Record.{Hash, zero_hash}
use commonsdb_iroh_service.Exec.{Result, ok}
use commonsdb_iroh_service.BlobStore.{BlobStore, StoreLaws, IsAddress}
use commonsdb_iroh_service.BlobStore.Memory
use commonsdb_iroh_service.BlobStore.Memory.{MemoryBlobStore, memory_store, memory_laws}
use commonsdb_iroh_service.Similarity.{
  BandParams, IsccMember, SimilarityMatch, new_params, hamming, buckets, bucket_id, band_value,
  band_width, storage_key, hex_digits,
}
use commonsdb_iroh_service.Similarity.Best.{Some}
use commonsdb_iroh_service.IsccStore.{
  IsccStoreError, manifest, segment_max_members, split_last, add_u64, sub_u64, same_member,
  any_same, add_members, or_empty, push_to_bucket, push_to_buckets, group_by_bucket, load_blob,
  load_json, store_json, parse_directory, load_directory, load_segment, load_bucket_manifest,
  carried, carry_over, open_tail, write_segments, bucket_manifest, update_bucket, update_buckets,
  insert_batch, load_segments, bucket_members,
}
use commonsdb_iroh_service.IsccStore.Query.{query}
use commonsdb_iroh_service.IsccStore.Update.{IsBucket, update_bucket-IsBucket}
use commonsdb_iroh_service.IsccStore.Batch.{Holds, batch_of, insert_batch-Added}
use commonsdb_iroh_service.IsccStore.Bucket.{Added}
use commonsdb_iroh_service.IsccStore.Recall.{query-insert_batch}
use commonsdb_iroh_service.Examples.Externals.{weigh_blake}
use commonsdb_iroh_service.Examples.Similar.{
  packed_json, pack, unpack, of_members, to_members, of_rows, to_rows, checked, is_map, below_all,
  read_manifest, read_directory, write_directory,
}

unfoldable program : Unit {0}
unfolding weigh_blake packed_json pack unpack of_members to_members of_rows to_rows checked is_map
    below_all read_manifest read_directory write_directory bytes_eq bytes_le zero_hash replicate
    range_from tree_get tree_insert Memory.put Memory.get memory_laws buckets bucket_id band_value
    band_width storage_key hex_digits segment_max_members split_last add_u64 sub_u64 same_member
    any_same add_members or_empty push_to_bucket push_to_buckets group_by_bucket load_blob load_json
    store_json parse_directory load_directory load_segment load_bucket_manifest carried carry_over
    open_tail write_segments bucket_manifest update_bucket update_buckets insert_batch load_segments
    bucket_members
program = tt

abbrev store : BlobStore MemoryBlobStore
store = memory_store weigh_blake

abbrev laws : StoreLaws store
laws = memory_laws weigh_blake

abbrev two_bands : BandParams
two_bands = record { num_bands = 2 }

abbrev song : IsccMember
song = record { key = 9 ∷ []; content_code = 1 }

abbrev run : Result IsccStoreError Hash × MemoryBlobStore
run = insert_batch packed_json store none two_bands (song ∷ []) []

made : new_params 2 ≡ ok two_bands
unfolding new_params
made = refl

empty_index : Holds packed_json store laws [] none (λ key. [])
unfolding program
empty_index = record { directory = []; loads = refl; buckets_read = λ key. refl }

address : (n : ℕ) → IsAddress (suc n ∷ replicate 31 7)
unfolding zero_hash replicate
address n = record { width = refl; nonzero = λ h. ground arith }

run-CollisionFree : laws.Valid run.1
unfolding program
run-CollisionFree =
    (address _, tt, (address _, refl, (address _, refl, (address _, tt, (address _, tt, tt)))))

near : hamming 0 1 ≤ 1
unfolding hamming bit_xor count_ones
near = omega arith

nearer : hamming 0 1 < two_bands.num_bands
unfolding hamming bit_xor count_ones
nearer = omega arith

query-insert_batch_example :
    (root' : Hash) × (t : MemoryBlobStore) × (matches : List SimilarityMatch) × (run
      ≡ (ok root', t))
    × (query packed_json store (some root') two_bands 0 1 0 t ≡ ok matches)
    × Some (λ x. (x.key ≡ 9 ∷ []) × (x.distance ≤ hamming 0 1)) matches
query-insert_batch_example =
    query-insert_batch packed_json store laws 2 two_bands [] none (song ∷ []) (λ key. []) 0 song 0 1
      made empty_index run-CollisionFree refl nearer near

insert_batch-Added_example :
    (root' : Hash) × (t : MemoryBlobStore) × (run ≡ (ok root', t))
    × (new : Bytes → List IsccMember) × Holds packed_json store laws t (some root') new
    × ((key : Bytes) → Added [] (batch_of two_bands (song ∷ []) key) (new key))
insert_batch-Added_example =
    insert_batch-Added packed_json store laws [] none two_bands (song ∷ []) (λ key. []) empty_index
      run-CollisionFree

-- No bucket yet is a bucket that is well-formed.
none-IsBucket : IsBucket packed_json store [] none
unfolding program
none-IsBucket = record {
  loaded = record { count = 0; segments = [] };
  members = [];
  manifest_loads = refl;
  segments_load = refl;
  counts = refl;
  packed = tt;
}

update_bucket-IsBucket_example :
    (hash : Hash) × (t : MemoryBlobStore) × (update_bucket packed_json store none (song ∷ []) []
      ≡ (ok hash, t))
    × (laws.Valid t → IsBucket packed_json store t (some (manifest hash)))
update_bucket-IsBucket_example =
    update_bucket-IsBucket packed_json store laws [] none (song ∷ []) none-IsBucket
