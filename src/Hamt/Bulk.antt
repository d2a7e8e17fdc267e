-- ===== src/Hamt/Bulk.antt =====
-- `build_from_entries` and `build_subtree` of crates/registry-core/src/hamt.rs: a partition built
-- bottom-up, each node written once.
use commonsdb_iroh_service.Prelude.{
  ℕ, zero, suc, ◌+◌, true, false, Option, none, some, List, [], ◌∷◌, length, leb, replicate,
  if◌then◌else◌,
}
use commonsdb_iroh_service.Prelude.Bytes.{Bytes}
use commonsdb_iroh_service.Record.{Hash, LeafEntry}
use commonsdb_iroh_service.External.{Sha256, EntryJson}
use commonsdb_iroh_service.Partition.{key_digest}
use commonsdb_iroh_service.BlobStore.{BlobStore}
use commonsdb_iroh_service.Exec.{Result, ok, and_then, Exec, pure, raise, lift, ◌>>=◌}
use commonsdb_iroh_service.Hamt.{
  HamtError, out_of_fuel, leaf, intermediate, intermediate_fanout, hamt_fuel, contains, sort_by_key,
  byte_at, push_bucket, put_node,
}

-- An entry with the digest of its key.
abbrev pub Digested : Type 0
Digested = LeafEntry × Bytes

-- Duplicate keys collapse, the first occurrence wins. `seen` are the keys met so far.
unfoldable pub unique_entries : Sha256 → List Bytes → List LeafEntry → List Digested
unique_entries sha seen [] = []
unique_entries sha seen (e ∷ es) = elim (contains seen e.key) [
  | true ↦ unique_entries sha seen es
  | false ↦ (e, key_digest sha e.key) ∷ unique_entries sha (e.key ∷ seen) es
]

abbrev pub entries_only : List Digested → List LeafEntry
entries_only [] = []
entries_only ((e, d) ∷ es) = e ∷ entries_only es

unfoldable pub distribute_digested :
    ℕ → List Digested → List (List Digested) → Result HamtError (List (List Digested))
distribute_digested depth [] buckets = ok buckets
distribute_digested depth ((e, digest) ∷ es) buckets =
    and_then (byte_at digest depth e.key)
      λ b. distribute_digested depth es (push_bucket buckets b (e, digest))

module _ {S : Type 0} where
  -- `build` is the recursive call one level below.
  unfoldable pub build_slots :
      (List Digested → Exec HamtError S Hash)
      → List (List Digested)
      → Exec HamtError S (List (Option Hash))
  build_slots build [] = pure []
  build_slots build ([] ∷ buckets) = do slots ← build_slots build buckets; pure (none ∷ slots)
  build_slots build ((e ∷ es) ∷ buckets) = do
    h ← build (e ∷ es)
    slots ← build_slots build buckets
    pure (some h ∷ slots)

module _ (json_text : EntryJson) {S : Type 0} (store : BlobStore S) (leaf_max_entries : ℕ) where
  unfoldable pub build_subtree : ℕ → List Digested → ℕ → Exec HamtError S Hash
  build_subtree zero es depth = raise out_of_fuel
  build_subtree (suc fuel) es depth =
      if leb (length es) leaf_max_entries
      then put_node json_text store (leaf (sort_by_key (entries_only es)))
      else do
        buckets ← lift (distribute_digested depth es (replicate intermediate_fanout []))
        slots ← build_slots (λ bucket. build_subtree fuel bucket (depth + 1)) buckets
        put_node json_text store (intermediate slots)

  unfoldable pub build_from_entries : Sha256 → List LeafEntry → Exec HamtError S Hash
  build_from_entries sha es = build_subtree hamt_fuel (unique_entries sha [] es) 0
