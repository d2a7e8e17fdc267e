-- ===== src/Hamt/Walk/Entries.antt =====
-- `walk_entries` and `warm_cache` of crates/registry-core/src/hamt.rs visit exactly the entries of
-- the tree.
use commonsdb_iroh_service.Prelude.{
  ℕ, zero, suc, ◌+◌, ◌≤◌, ◌<◌, ◌≡◌, refl, ap, ◌∙◌, List, [], ◌∷◌, ◌++◌, length, length-append,
  Option, arith, All, All-left, All-right,
}
use mathlib.Core.List.{append-nil, append_assoc}
use native.Mathlib.Nat.{add-zero, zero-add}
use commonsdb_iroh_service.Prelude.Bytes.{Bytes}
use commonsdb_iroh_service.Record.{Hash, LeafEntry}
use commonsdb_iroh_service.External.{EntryJson}
use commonsdb_iroh_service.BlobStore.{BlobStore}
use commonsdb_iroh_service.Exec.{Result, ok}
use commonsdb_iroh_service.Hamt.{HamtError, hamt_fuel}
use commonsdb_iroh_service.Hamt.Trie.{
  Trie, leaf_of, branch, Children, end, vacant, child, entries, entries_all, height, height_all,
  slots_of,
}
use commonsdb_iroh_service.Hamt.Stored.{Stored, StoredAll, read_node-Reads}
use commonsdb_iroh_service.Hamt.Walk.{each_child, walk_entries, read_values, warm_cache}

module _ (json_text : EntryJson) {S : Type 0} (store : BlobStore S) (s : S) where
  each_child-walk :
      (cs : Children) (visit : Hash → List LeafEntry → Result HamtError (List LeafEntry)) (n : ℕ)
      → height_all cs < n
      → ((h : Hash) (t : Trie) (out : List LeafEntry)
          → height t < n
          → Stored json_text store s h t
          → visit h out ≡ ok (out ++ entries t))
      → StoredAll json_text store s cs
      → (out : List LeafEntry) → each_child visit (slots_of cs) out ≡ ok (out ++ entries_all cs)
  unfolding each_child entries height
  each_child-walk end visit n low ih r out = rw append-nil
  each_child-walk (vacant cs) visit n low ih r out = each_child-walk cs visit n low ih r out
  each_child-walk (child h t cs) visit n low ih r out =
      rw
        (
          ih h t out (omega arith) r.0,
          each_child-walk cs visit n (omega arith) ih r.1 (out ++ entries t),
        )
        (ap ok (append_assoc out (entries t) (entries_all cs)))

  walk_entries-entries :
      (fuel : ℕ) (h : Hash) (t : Trie) (out : List LeafEntry)
      → height t < fuel
      → Stored json_text store s h t
      → walk_entries json_text store s fuel h out ≡ ok (out ++ entries t)
  unfolding walk_entries entries height
  walk_entries-entries zero h t out f r = elim f [ ]
  walk_entries-entries (suc fuel) h (leaf_of es) out f r = rw (read_node-Reads json_text store r)
  walk_entries-entries (suc fuel) h (branch cs) out f r = rw (read_node-Reads json_text store r.0) (
      each_child-walk cs _ fuel (omega arith) (λ c t o low k. walk_entries-entries fuel c t o low k)
        r.2 out)

  -- A read of the value blob ends, whether or not the blob is there.
  abbrev pub IsReadable : LeafEntry → Type 0
  IsReadable e = (o : Option Bytes) × (store.get s e.hash ≡ ok o)

  read_values-ok : (es : List LeafEntry) → All IsReadable es → read_values store s es ≡ ok tt
  unfolding read_values
  read_values-ok [] h = refl
  read_values-ok (e ∷ es) h = rw (h.0.1) (read_values-ok es h.1)

  each_child-warm :
      (cs : Children) (visit : Hash → ℕ → Result HamtError ℕ) (n : ℕ)
      → height_all cs < n
      → ((h : Hash) (t : Trie) (total : ℕ)
          → height t < n
          → Stored json_text store s h t
          → All IsReadable (entries t)
          → visit h total ≡ ok (total + length (entries t)))
      → StoredAll json_text store s cs
      → All IsReadable (entries_all cs)
      → (total : ℕ) → each_child visit (slots_of cs) total ≡ ok (total + length (entries_all cs))
  unfolding each_child entries height
  each_child-warm end visit n low ih r a total = rw add-zero
  each_child-warm (vacant cs) visit n low ih r a total = each_child-warm cs visit n low ih r a total
  each_child-warm (child h t cs) visit n low ih r a total =
      rw
        (
          ih h t total (omega arith) r.0 (All-left IsReadable (entries t) (entries_all cs) a),
          each_child-warm cs visit n (omega arith) ih r.1
              (All-right IsReadable (entries t) (entries_all cs) a) (total + length (entries t)),
        )
        (ap ok (omega (arith, length-append (entries t) (entries_all cs))))

  -- `warm_cache` counts every entry once.
  warm_cache-length :
      (fuel : ℕ) (h : Hash) (t : Trie)
      → height t < fuel
      → Stored json_text store s h t
      → All IsReadable (entries t)
      → warm_cache json_text store s fuel h ≡ ok (length (entries t))
  unfolding warm_cache entries height
  warm_cache-length zero h t f r a = elim f [ ]
  warm_cache-length (suc fuel) h (leaf_of es) f r a =
      rw (read_node-Reads json_text store r, read_values-ok es a)
  warm_cache-length (suc fuel) h (branch cs) f r a = rw (read_node-Reads json_text store r.0) (
      each_child-warm cs _ fuel (omega arith)
        (λ c t total low k b. rw (warm_cache-length fuel c t low k b)) r.2 a 0
      ∙ ap ok (zero-add (length (entries_all cs))))

  -- On a store that holds the tree of a root, of height 31 at most, and where the read of no entry's
  -- value fails, `walk_entries` appends every entry of the tree, in tree order, to what it is given,
  -- and `warm_cache` returns their number.
  pub walks-entries :
      (h : Hash) (t : Trie) (out : List LeafEntry)
      → height t ≤ 31
      → Stored json_text store s h t
      → All IsReadable (entries t)
      → (walk_entries json_text store s hamt_fuel h out ≡ ok (out ++ entries t))
        × (warm_cache json_text store s hamt_fuel h ≡ ok (length (entries t)))
  walks-entries h t out low r a = (
    walk_entries-entries hamt_fuel h t out (omega arith) r,
    warm_cache-length hamt_fuel h t (omega arith) r a,
  )
