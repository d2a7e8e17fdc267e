-- ===== src/Examples/Trees.antt =====
-- A stored partition of crates/registry-core/src/hamt.rs: its codec, its lookups and its walks.
use commonsdb_iroh_service.Prelude.{
  ◌≤◌, ◌≡◌, refl, none, some, [], ◌∷◌, ◌++◌, All, length, replicate, arith,
}
use commonsdb_iroh_service.Exec.{ok}
use commonsdb_iroh_service.Hamt.{leaf, hamt_fuel, find, encode, decode, lookup}
use commonsdb_iroh_service.Hamt.Trie.{leaf_of, entries, height}
use commonsdb_iroh_service.Hamt.Codec.{decode-encode}
use commonsdb_iroh_service.Hamt.Lookup.{lookup-IsRoot}
use commonsdb_iroh_service.Hamt.Walk.{walk_entries, warm_cache}
use commonsdb_iroh_service.Hamt.Walk.Entries.{IsReadable, walks-entries}
use commonsdb_iroh_service.Examples.Externals.{sum_sha, weigh_blake, shift_json}
use commonsdb_iroh_service.Examples.Partitions.{
  apple, store, apple_node, apple_store, apple-IsRoot, program,
}

decode-encode_example :
    decode shift_json (encode shift_json (leaf (apple ∷ []))) (replicate 32 9)
    ≡ ok (leaf (apple ∷ []))
decode-encode_example = decode-encode shift_json (leaf (apple ∷ [])) (replicate 32 9) tt

lookup-IsRoot_example :
    lookup sum_sha shift_json store apple_store (some (weigh_blake.hash apple_node)) (1 ∷ 2 ∷ [])
    ≡ ok (find (1 ∷ 2 ∷ []) (entries (leaf_of (apple ∷ []))))
lookup-IsRoot_example =
    lookup-IsRoot sum_sha shift_json store apple_store (some (weigh_blake.hash apple_node))
      (leaf_of (apple ∷ [])) (1 ∷ 2 ∷ []) apple-IsRoot

apple-IsReadable : All (IsReadable shift_json store apple_store) (entries (leaf_of (apple ∷ [])))
unfolding program entries
apple-IsReadable = ((none, refl), tt)

apple_low : height (leaf_of (apple ∷ [])) ≤ 31
unfolding height
apple_low = omega arith

walks-entries_example :
    (walk_entries shift_json store apple_store hamt_fuel (weigh_blake.hash apple_node) []
      ≡ ok ([] ++ entries (leaf_of (apple ∷ []))))
    × (warm_cache shift_json store apple_store hamt_fuel (weigh_blake.hash apple_node)
        ≡ ok (length (entries (leaf_of (apple ∷ [])))))
walks-entries_example =
    walks-entries shift_json store apple_store (weigh_blake.hash apple_node) (leaf_of (apple ∷ []))
      [] apple_low apple-IsRoot.rooted apple-IsReadable
