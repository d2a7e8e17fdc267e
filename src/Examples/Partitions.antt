-- ===== src/Examples/Partitions.antt =====
-- Partitions of crates/registry-core/src/hamt.rs over the in-memory store.
use commonsdb_iroh_service.Prelude.{
  ℕ, suc, ◌+◌, ◌≤◌, ◌≡◌, ◌≢◌, refl, ◌⊎◌, Option, none, some, or_else, List, [], ◌∷◌, if◌then◌else◌,
  arith, replicate,
}
use commonsdb_iroh_service.Prelude.Bytes.{Bytes, bytes_eq, bytes_le}
use commonsdb_iroh_service.Record.{Hash, LeafEntry, zero_hash}
use commonsdb_iroh_service.Exec.{Result, ok, err, and_then}
use commonsdb_iroh_service.Partition.{key_digest, descent_byte}
use commonsdb_iroh_service.BlobStore.{BlobStore, StoreLaws, IsAddress}
use commonsdb_iroh_service.Hamt.{out_of_fuel, insert_batch}
use commonsdb_iroh_service.Hamt.Bulk.{build_from_entries}
use commonsdb_iroh_service.Hamt.Bounded.{never_out_of_fuel}
use commonsdb_iroh_service.BlobStore.Memory
use commonsdb_iroh_service.BlobStore.Memory.{
  MemoryBlobStore, CollisionFree, memory_store, memory_laws,
}
use commonsdb_iroh_service.Hamt.{
  HamtError, leaf, depth_exhausted, find, insert_sorted, sort_by_key, contains, slot_bytes,
  slots_bytes, cons_first, split_lines, slot_of, slots_of_bytes, lines_bytes, encode, decode_line,
  decode_lines, decode_intermediate, decode, byte_at, push_bucket, distribute, put_node, read_node,
  lookup_from, put_buckets, load, insert_intermediate, lookup, split_leaf, insert_leaf, insert_at,
  insert_one, insert_all, root_or_empty, insert_batch,
}
use commonsdb_iroh_service.Hamt.Trie.{leaf_of, height}
use commonsdb_iroh_service.Hamt.Lookup.{IsRoot}
use commonsdb_iroh_service.Hamt.FirstWrite.{lookup-insert_one}
use commonsdb_iroh_service.Hamt.Batch.{permitted, lookup-insert_batch}
use commonsdb_iroh_service.Examples.Externals.{sum_sha, weigh_blake, shift_json}

-- Everything that a run of the engine computes with.
unfoldable pub program : Unit {0}
unfolding sum_sha weigh_blake shift_json bytes_eq bytes_le zero_hash replicate key_digest
    descent_byte Memory.put Memory.get memory_laws find insert_sorted sort_by_key contains
    slot_bytes slots_bytes cons_first split_lines slot_of slots_of_bytes lines_bytes encode
    decode_line decode_lines decode_intermediate decode byte_at push_bucket distribute put_node
    read_node lookup_from put_buckets load insert_intermediate lookup split_leaf insert_leaf
    insert_at insert_one insert_all root_or_empty insert_batch
program = tt

abbrev entry_of_key : Bytes → ℕ → LeafEntry
entry_of_key key size = record {
  key = key;
  hash = replicate 32 1;
  size = size;
  added_at = 5;
  content_code = none;
}

abbrev pub apple : LeafEntry
apple = entry_of_key (1 ∷ 2 ∷ []) 10

abbrev later_apple : LeafEntry
later_apple = entry_of_key (1 ∷ 2 ∷ []) 99

abbrev pear : LeafEntry
pear = entry_of_key (5 ∷ []) 20

abbrev pub store : BlobStore MemoryBlobStore
store = memory_store weigh_blake

abbrev laws : StoreLaws store
laws = memory_laws weigh_blake

abbrev found_size : Result HamtError (Option LeafEntry) → ℕ
found_size (ok (some e)) = e.size
found_size (ok none) = 1000
found_size (err e) = 2000

abbrev size_of : Result HamtError Hash × MemoryBlobStore → Bytes → ℕ
size_of (ok h, s) key = found_size (lookup sum_sha shift_json store s (some h) key)
size_of (err e, s) key = 3000

-- Three writes into leaves of one entry: a split, and the second write of a key is not seen.
abbrev run : Result HamtError Hash × MemoryBlobStore
run = insert_batch sum_sha shift_json store none (apple ∷ later_apple ∷ pear ∷ []) 4 [] []

size_apple : size_of run (1 ∷ 2 ∷ []) ≡ 10
unfolding program
size_apple = refl

abbrev split_run : Result HamtError Hash × MemoryBlobStore
split_run = insert_batch sum_sha shift_json store none (apple ∷ pear ∷ []) 1 [] []

size_pear : size_of split_run (5 ∷ []) ≡ 20
unfolding program
size_pear = refl

abbrev pub apple_node : Bytes
apple_node = encode shift_json (leaf (apple ∷ []))

abbrev pub apple_store : MemoryBlobStore
apple_store = (weigh_blake.hash apple_node, apple_node) ∷ []

pub apple-IsRoot :
    IsRoot sum_sha shift_json store apple_store
      (some (weigh_blake.hash apple_node))
      (leaf_of (apple ∷ []))
unfolding program height
apple-IsRoot = record {
  rooted = record { blob = apple_node; found = refl; decodes = refl };
  placed = tt;
  low = omega arith;
}

low : height (leaf_of (apple ∷ [])) ≤ 30
unfolding height
low = omega arith

-- The write that splits the leaf.
abbrev pear_run : Result HamtError Hash × MemoryBlobStore
pear_run =
    insert_one sum_sha shift_json store (some (weigh_blake.hash apple_node)) pear 1 apple_store

address : (n : ℕ) → IsAddress (suc n ∷ replicate 31 7)
unfolding zero_hash replicate
address n = record { width = refl; nonzero = λ h. ground arith }

pear_run-CollisionFree : laws.Valid pear_run.1
unfolding program
pear_run-CollisionFree = (address _, tt, (address _, tt, (address _, refl, (address _, tt, tt))))

lookup-insert_one_example :
    (h : Hash) × (pear_run.0 ≡ ok h)
    × ((key : Bytes)
        → lookup sum_sha shift_json store pear_run.1 (some h) key
          ≡ and_then
              (lookup sum_sha shift_json store apple_store (some (weigh_blake.hash apple_node)) key)
              λ old. ok (or_else old (if bytes_eq pear.key key then some pear else none)))
lookup-insert_one_example =
    lookup-insert_one sum_sha shift_json store laws apple_store (some (weigh_blake.hash apple_node))
      (leaf_of (apple ∷ [])) pear 1 apple-IsRoot low pear_run-CollisionFree

abbrev banned : List Bytes
banned = (5 ∷ []) ∷ []

abbrev fruit : List LeafEntry
fruit = pear ∷ later_apple ∷ []

abbrev fruit_run : Result HamtError Hash × MemoryBlobStore
fruit_run =
    insert_batch sum_sha shift_json store (some (weigh_blake.hash apple_node)) fruit 1 banned
      apple_store

fruit_run-CollisionFree : laws.Valid fruit_run.1
unfolding program
fruit_run-CollisionFree = (address _, tt, tt)

lookup-insert_batch_example :
    ((h : Hash) × (fruit_run.0 ≡ ok h)
      × ((key : Bytes)
          → lookup sum_sha shift_json store fruit_run.1 (some h) key
            ≡ and_then
                (lookup sum_sha shift_json store apple_store
                  (some (weigh_blake.hash apple_node))
                  key)
                λ old. ok (or_else old (find key (permitted banned fruit)))))
    ⊎ ((key : Bytes) × (fruit_run.0 ≡ err (depth_exhausted key 31))
        × (31 ≤ height (leaf_of (apple ∷ [])) + 2))
lookup-insert_batch_example =
    lookup-insert_batch sum_sha shift_json store laws 1 banned apple_store
      (some (weigh_blake.hash apple_node)) (leaf_of (apple ∷ [])) fruit apple-IsRoot
      fruit_run-CollisionFree

never_out_of_fuel_example :
    (lookup sum_sha shift_json store apple_store (some (weigh_blake.hash apple_node)) (1 ∷ 2 ∷ [])
      ≢ err out_of_fuel)
    × (((insert_batch sum_sha shift_json store
            (some (weigh_blake.hash apple_node))
            fruit
            1
            banned
            apple_store).0
          ≢ err out_of_fuel)
        × ((build_from_entries shift_json store 1 sum_sha fruit apple_store).0 ≢ err out_of_fuel))
never_out_of_fuel_example =
    never_out_of_fuel sum_sha shift_json store 1 apple_store (some (weigh_blake.hash apple_node))
      (1 ∷ 2 ∷ []) fruit banned
