-- ===== src/Hamt/FirstWrite.antt =====
-- `insert_one`, `insert_batch` and `lookup` of crates/registry-core/src/hamt.rs together: a
-- partition is a map from keys to entries in which the first write of a key wins.
use commonsdb_iroh_service.Prelude.{
  ℕ, ◌≤◌, ◌≡◌, refl, ap, inl, inr, Option, none, some, or_else, [], ◌∷◌, if◌then◌else◌, arith,
}
use commonsdb_iroh_service.Prelude.Bytes.{Bytes, bytes_eq}
use commonsdb_iroh_service.Record.{Hash, LeafEntry}
use commonsdb_iroh_service.External.{Sha256, EntryJson}
use commonsdb_iroh_service.BlobStore.{BlobStore, StoreLaws}
use commonsdb_iroh_service.Exec.{Result, ok, and_then}
use commonsdb_iroh_service.Hamt.{HamtError, find, lookup, insert_one}
use commonsdb_iroh_service.Hamt.Trie.{Trie, height}
use commonsdb_iroh_service.Hamt.Lookup.{IsRoot, lookup-IsRoot}
use commonsdb_iroh_service.Hamt.Insert.{insert_one-Ends, Outcome-IsRoot}

find-single :
    (e : LeafEntry) (key : Bytes)
    → find key (e ∷ []) ≡ (if bytes_eq e.key key then some e else none)
unfolding find
find-single e key = refl

module _ (sha : Sha256) (json_text : EntryJson) {S : Type 0} (store : BlobStore S)
    (laws : StoreLaws store) where
  module _ (s : S) (root : Option Hash) (t : Trie) (e : LeafEntry) (leaf_max_entries : ℕ) where
    abbrev pub insertion : Result HamtError Hash × S
    insertion = insert_one sha json_text store root e leaf_max_entries s

    -- On a store that holds the tree of the root, of height 30 at most, and where the store after the
    -- write is valid, `insert_one` succeeds. Through the new root and the store that it left, `lookup`
    -- returns for every key what it returned before, and for the entry's own key, where there was
    -- nothing before, the entry.
    pub lookup-insert_one :
        IsRoot sha json_text store s root t
        → height t ≤ 30
        → laws.Valid insertion.1
        → (h : Hash) × (insertion.0 ≡ ok h)
          × ((key : Bytes)
              → lookup sha json_text store insertion.1 (some h) key
                ≡ and_then
                    (lookup sha json_text store s root key)
                    λ old. ok (or_else old (if bytes_eq e.key key then some e else none)))
    lookup-insert_one r low v =
        elim (insert_one-Ends sha json_text store laws e leaf_max_entries s root t r) [
          | inl w ↦
              let left : insertion.1 ≡ w.after = ap (λ x. x.1) w.run in
              let new =
                Outcome-IsRoot sha json_text store laws e leaf_max_entries t s insertion w
                  (rw left at v) in
              (
                w.root,
                ap (λ x. x.0) w.run,
                λ key. rw (
                  left,
                  lookup-IsRoot sha json_text store w.after (some w.root) w.tree key new,
                  lookup-IsRoot sha json_text store s root t key r,
                  w.meets.finds key,
                  find-single e key,
                ),
              )
          | inr stuck ↦ absurd (omega (arith, stuck.deep))
        ]
