-- ===== src/Hamt/Walk.antt =====
-- The recursive walks of crates/registry-core/src/hamt.rs: `warm_cache`, `collect_reachable` and
-- `walk_entries`. They go down one level at a time and take fuel.
pub mod Entries
use commonsdb_iroh_service.Prelude.{
  ℕ, zero, suc, ◌+◌, Bool, true, false, Option, none, some, List, [], ◌∷◌, ◌++◌, length,
  if◌then◌else◌,
}
use commonsdb_iroh_service.Record.{Hash, LeafEntry}
use commonsdb_iroh_service.External.{EntryJson}
use commonsdb_iroh_service.BlobStore.{BlobStore}
use commonsdb_iroh_service.Exec.{Exec, pure, ◌>>◌, Result, ok, err, map_err, and_then}
use commonsdb_iroh_service.Hamt.{
  HamtError, blob_store, out_of_fuel, leaf, intermediate, contains, read_node,
}

-- `for child in slots.iter().flatten()`: `visit` on each occupied slot, with the result so far.
unfoldable pub each_child :
    {A : Type 0} → (Hash → A → Result HamtError A) → List (Option Hash) → A → Result HamtError A
each_child visit [] acc = ok acc
each_child visit (none ∷ slots) acc = each_child visit slots acc
each_child visit (some h ∷ slots) acc = and_then (visit h acc) λ acc'. each_child visit slots acc'

-- The same loop where the set is the state.
unfoldable pub reach_children :
    (Hash → Exec HamtError (List Hash) (Unit {0}))
    → List (Option Hash)
    → Exec HamtError (List Hash) (Unit {0})
reach_children visit [] = pure tt
reach_children visit (none ∷ slots) = reach_children visit slots
reach_children visit (some h ∷ slots) = visit h >> reach_children visit slots

-- `HashSet<Hash>::insert`
unfoldable pub insert_hash : Hash → List Hash → List Hash
insert_hash h out = if contains out h then out else h ∷ out

-- `out.insert(h)` of each value hash.
unfoldable pub insert_hashes : List LeafEntry → List Hash → List Hash
insert_hashes [] out = out
insert_hashes (e ∷ es) out = insert_hashes es (insert_hash e.hash out)

module _ {S : Type 0} (store : BlobStore S) where
  -- The value blobs that a leaf references are read, and nothing is made of them.
  unfoldable pub read_values : S → List LeafEntry → Result HamtError (Unit {0})
  read_values s [] = ok tt
  read_values s (e ∷ es) = and_then (map_err blob_store (store.get s e.hash)) λ _. read_values s es

module _ (json_text : EntryJson) {S : Type 0} (store : BlobStore S) where
  -- `out` is what the walk has collected so far; with an error it is dropped here.
  unfoldable pub walk_entries : S → ℕ → Hash → List LeafEntry → Result HamtError (List LeafEntry)
  walk_entries s zero root out = err out_of_fuel
  walk_entries s (suc fuel) root out = and_then (read_node json_text store s root) λ node.
      elim node [
        | leaf entries ↦ ok (out ++ entries)
        | intermediate slots ↦ each_child (walk_entries s fuel) slots out
      ]

  unfoldable pub warm_cache : S → ℕ → Hash → Result HamtError ℕ
  warm_cache s zero root = err out_of_fuel
  warm_cache s (suc fuel) root = and_then (read_node json_text store s root) λ node. elim node [
    | leaf entries ↦ and_then (read_values store s entries) λ _. ok (length entries)
    | intermediate slots ↦
        each_child (λ child total. and_then (warm_cache s fuel child) λ count. ok (total + count))
          slots 0
  ]

  -- A subtree whose hash is in the set already is not walked. The set is the state: an error keeps what
  -- was added before it.
  unfoldable pub collect_reachable : S → ℕ → Hash → Exec HamtError (List Hash) (Unit {0})
  unfolding insert_hashes reach_children contains
  collect_reachable s zero root out = (err out_of_fuel, out)
  collect_reachable s (suc fuel) root out = elim (contains out root) [
    | true ↦ (ok tt, out)
    | false ↦ elim (read_node json_text store s root) [
      | err e ↦ (err e, root ∷ out)
      | ok (leaf entries) ↦ (ok tt, insert_hashes entries (root ∷ out))
      | ok (intermediate slots) ↦ reach_children (collect_reachable s fuel) slots (root ∷ out)
    ]
  ]
