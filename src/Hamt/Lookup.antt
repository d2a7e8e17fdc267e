-- ===== src/Hamt/Lookup.antt =====
-- `lookup` of crates/registry-core/src/hamt.rs, on a store that holds the root's tree.
use commonsdb_iroh_service.Prelude.{
  ℕ, zero, suc, ◌+◌, ◌≤◌, ◌<◌, ◌≡◌, refl, Option, none, some, List, [], ◌∷◌, length, get_elem?, All,
  arith,
}
use native.Mathlib.Nat.{zero-add}
use commonsdb_iroh_service.Prelude.Bytes.{Bytes}
use commonsdb_iroh_service.Record.{Hash, LeafEntry}
use commonsdb_iroh_service.External.{Sha256, EntryJson}
use commonsdb_iroh_service.Partition.{descent_byte, key_digest}
use commonsdb_iroh_service.BlobStore.{BlobStore}
use commonsdb_iroh_service.Exec.{Result, ok, err}
use commonsdb_iroh_service.Hamt.{
  HamtError, depth_exhausted, find, byte_at, hamt_fuel, lookup_child, lookup_from, lookup,
}
use commonsdb_iroh_service.Hamt.Trie.{
  Trie, leaf_of, branch, entries, height, height_all, child_at, subtree, hash_of, slot-child_at,
  height-child_at,
}
use commonsdb_iroh_service.Hamt.Placed.{Placed, GoesTo, find-child_at, Placed-child_at}
use commonsdb_iroh_service.Hamt.Stored.{Stored, Rooted, Rooted-child_at, read_node-Reads}

get_elem?-in_range :
    (xs : List ℕ) (i n : ℕ)
    → i < length xs
    → All (λ b. b < n) xs
    → (b : ℕ) × (get_elem? xs i ≡ some b) × (b < n)
get_elem?-in_range [] i n h a = elim h [ ]
get_elem?-in_range (x ∷ xs) zero n h a = (x, refl, a.0)
get_elem?-in_range (x ∷ xs) (suc i) n h a = get_elem?-in_range xs i n (omega arith) a.1

get_elem?-beyond : (xs : List ℕ) (i : ℕ) → length xs ≤ i → get_elem? xs i ≡ none
get_elem?-beyond [] i h = refl
get_elem?-beyond (x ∷ xs) zero h = absurd (omega arith)
get_elem?-beyond (x ∷ xs) (suc i) h = get_elem?-beyond xs i (omega arith)

module _ (sha : Sha256) where
  -- There is a descent byte at depths 0 to 30, and it is the number of a slot.
  pub descent_byte-total :
      (key : Bytes) (depth : ℕ) → depth ≤ 30 → (b : ℕ) × GoesTo sha depth b key × (b < 256)
  unfolding descent_byte key_digest
  descent_byte-total key depth h =
      get_elem?-in_range (sha.digest key) (1 + depth) 256 (omega (arith, sha.length-digest key))
        (sha.digest_bytes key)

  pub byte_at-GoesTo :
      (depth b : ℕ) (key : Bytes)
      → GoesTo sha depth b key
      → byte_at (key_digest sha key) depth key ≡ ok b
  unfolding byte_at
  byte_at-GoesTo depth b key g = rw g

  -- From depth 31 on there is no byte.
  pub byte_at-deep :
      (depth : ℕ) (key : Bytes)
      → 31 ≤ depth
      → byte_at (key_digest sha key) depth key ≡ err (depth_exhausted key depth)
  unfolding byte_at descent_byte key_digest
  byte_at-deep depth key h =
      rw (get_elem?-beyond (sha.digest key) (1 + depth) (omega (arith, sha.length-digest key)))

module _ (sha : Sha256) (json_text : EntryJson) {S : Type 0} (store : BlobStore S) where
  -- One slot, given the loop one level below.
  lookup_child-subtree :
      (s : S) (o : Option (Hash × Trie)) (key : Bytes)
      (descend : Hash → Result HamtError (Option LeafEntry))
      → ((h : Hash) (t : Trie) → o ≡ some (h, t) → descend h ≡ ok (find key (entries t)))
      → lookup_child descend (hash_of o) ≡ ok (find key (entries (subtree o)))
  unfolding entries find
  lookup_child-subtree s none key descend ih = refl
  lookup_child-subtree s (some (h, t)) key descend ih = ih h t refl

  lookup_from-Stored :
      (s : S) (fuel : ℕ) (h : Hash) (t : Trie) (depth : ℕ) (key : Bytes)
      → height t < fuel
      → depth + height t ≤ 31
      → Stored json_text store s h t
      → Placed sha depth t
      → lookup_from json_text store s fuel h depth (key_digest sha key) key
        ≡ ok (find key (entries t))
  unfolding lookup_from entries height
  lookup_from-Stored s zero h t depth key f d r p = elim f [ ]
  lookup_from-Stored s (suc fuel) h (leaf_of es) depth key f d r p =
      rw (read_node-Reads json_text store r)
  lookup_from-Stored s (suc fuel) h (branch cs) depth key f d r p =
      let (b, goes, lt) = descent_byte-total sha key depth (omega arith) in
      rw
        (
          read_node-Reads json_text store r.0,
          byte_at-GoesTo sha depth b key goes,
          slot-child_at cs b,
          find-child_at sha depth 0 b key cs (rw zero-add goes) p,
        )
        (lookup_child-subtree s (child_at cs b) key _ (λ c t e.
          let low : height t ≤ height_all cs = rw e at (height-child_at cs b) in
          lookup_from-Stored s fuel c t (depth + 1) key (omega arith) (omega arith)
            (rw e at (Rooted-child_at json_text store s cs b r.2))
            (rw e at (Placed-child_at sha depth 0 b cs p))))

  -- What a partition's root stands for. `low` bounds the height by the descent bytes of a digest.
  pub record IsRoot (s : S) (root : Option Hash) (t : Trie) : Type 0 where
    pub rooted : Rooted json_text store s root t
    pub placed : Placed sha 0 t
    pub low : height t ≤ 31

  -- On a store that holds the root's tree, of height 31 at most and with every entry in the place of its
  -- digest, `lookup` ends and returns the first entry of the key in
  -- the order of a walk, and `None` where the tree has none.
  pub lookup-IsRoot :
      (s : S) (root : Option Hash) (t : Trie) (key : Bytes)
      → IsRoot s root t
      → lookup sha json_text store s root key ≡ ok (find key (entries t))
  unfolding lookup
  lookup-IsRoot s none t key r = rw r.rooted (unfold entries find in refl)
  lookup-IsRoot s (some h) t key r =
      lookup_from-Stored s hamt_fuel h t 0 key (omega (arith, r.low)) (omega (arith, r.low))
        r.rooted r.placed
