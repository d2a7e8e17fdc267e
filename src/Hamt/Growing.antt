-- ===== src/Hamt/Growing.antt =====
-- The writing operations of crates/registry-core/src/hamt.rs only add to the store, also where they
-- end in an error: path copying never takes a blob away.
use commonsdb_iroh_service.Prelude.{
  ℕ, zero, suc, ◌+◌, Bool-cases, Option-cases, inl, inr, Option, none, some, List, [], ◌∷◌, ◌++◌,
  length, get_or, leb,
}
use commonsdb_iroh_service.Prelude.Bytes.{Bytes}
use commonsdb_iroh_service.Record.{Hash, LeafEntry}
use commonsdb_iroh_service.External.{Sha256, EntryJson}
use commonsdb_iroh_service.Partition.{key_digest}
use commonsdb_iroh_service.BlobStore.{BlobStore, StoreLaws}
use commonsdb_iroh_service.BlobStore.Growth.{
  Grows-refl, Grows-stored, Growing, continue-Grows, Growing-bind, Growing-lift, Growing-asks,
  Growing-pure,
}
use commonsdb_iroh_service.Exec.{err, Exec}
use commonsdb_iroh_service.Hamt.{
  HamtError, out_of_fuel, HamtNode, leaf, intermediate, find, sort_by_key, contains, put_node,
  put_buckets, split_leaf, insert_leaf, load, insert_intermediate, insert_at, insert_one,
  insert_all, root_or_empty, insert_batch, empty_leaf, hamt_fuel,
}
use commonsdb_iroh_service.Hamt.Stored.{put_node_lem}

module _ (sha : Sha256) (json_text : EntryJson) {S : Type 0} (store : BlobStore S)
    (laws : StoreLaws store) where
  put_node-Growing : (node : HamtNode) → Growing laws (put_node json_text store node)
  put_node-Growing node = record {
    at = λ s. rw (put_node_lem json_text store laws node s) (Grows-stored laws _ s);
  }

  put_buckets-Growing : (bs : List (List LeafEntry)) → Growing laws (put_buckets json_text store bs)
  unfolding put_buckets
  put_buckets-Growing [] = Growing-pure laws []
  put_buckets-Growing ([] ∷ bs) =
      Growing-bind laws _ _ (put_buckets-Growing bs) (λ slots. Growing-pure laws _)
  put_buckets-Growing ((e ∷ es) ∷ bs) =
      Growing-bind laws _ _ (put_node-Growing (leaf (e ∷ es)))
        (λ h. Growing-bind laws _ _ (put_buckets-Growing bs) (λ slots. Growing-pure laws _))

  split_leaf-Growing :
      (depth : ℕ) (es : List LeafEntry) → Growing laws (split_leaf sha json_text store depth es)
  unfolding split_leaf
  split_leaf-Growing depth es = Growing-bind laws _ _ (Growing-lift laws _) (λ bs.
      Growing-bind laws _ _ (put_buckets-Growing bs)
        (λ slots. put_node-Growing (intermediate slots)))

  module _ (entry : LeafEntry) (leaf_max_entries : ℕ) where
    insert_leaf-Growing :
        (node_hash : Option Hash) (depth : ℕ) (es : List LeafEntry)
        → Growing laws (insert_leaf sha json_text store node_hash depth es entry leaf_max_entries)
    unfolding insert_leaf
    insert_leaf-Growing node_hash depth es =
        let sorted = sort_by_key (es ++ entry ∷ []) in
        elim (Option-cases (find entry.key es)) [
          | inr (f, there) ↦ rw (there, insert_leaf) (Growing-lift laws _)
          | inl absent ↦
              rw (absent, insert_leaf)
                (elim (Bool-cases (leb (length sorted) leaf_max_entries)) [
                  | inl room ↦ rw room (put_node-Growing (leaf sorted))
                  | inr full ↦ rw full (split_leaf-Growing depth sorted)
                ])
        ]

    insert_intermediate-Growing :
        (insert_child : Option Hash → Exec HamtError S Hash) (slots : List (Option Hash))
        (depth : ℕ) (digest : Bytes)
        → ((child : Option Hash) → Growing laws (insert_child child))
        → Growing laws
            (insert_intermediate json_text store insert_child slots depth digest entry.key)
    unfolding insert_intermediate
    insert_intermediate-Growing insert_child slots depth digest g =
        Growing-bind laws _ _ (Growing-lift laws _)
          (λ b. Growing-bind laws _ _ (g (get_or slots b none)) (λ h. put_node-Growing _))

    insert_at-Growing :
        (fuel : ℕ) (node_hash : Option Hash) (depth : ℕ) (digest : Bytes)
        → Growing laws
            (insert_at sha json_text store fuel node_hash depth digest entry leaf_max_entries)
    unfolding insert_at
    insert_at-Growing zero node_hash depth digest = Growing-lift laws (err out_of_fuel)
    insert_at-Growing (suc fuel) node_hash depth digest =
        Growing-bind laws {A = HamtNode} _ _ (Growing-asks laws (load json_text store node_hash))
          (λ node.
            elim node
              as (λ n. Growing laws {E = HamtError} {A = Hash} (elim n [
                | leaf entries ↦
                    insert_leaf sha json_text store node_hash depth entries entry leaf_max_entries
                | intermediate slots ↦
                    insert_intermediate json_text store
                      (λ child.
                        insert_at sha json_text store fuel child (depth + 1) digest entry
                          leaf_max_entries)
                      slots depth digest entry.key
              ])) [
                | leaf es ↦ insert_leaf-Growing node_hash depth es
                | intermediate slots ↦
                    insert_intermediate-Growing _ slots depth digest
                      (λ child. insert_at-Growing fuel child (depth + 1) digest)
              ])

    pub insert_one-Growing :
        (root : Option Hash)
        → Growing laws (insert_one sha json_text store root entry leaf_max_entries)
    unfolding insert_one
    insert_one-Growing root = insert_at-Growing hamt_fuel root 0 (key_digest sha entry.key)

  pub insert_all-Growing :
      (root : Option Hash) (es : List LeafEntry) (leaf_max_entries : ℕ) (denylist : List Bytes)
      → Growing laws (insert_all sha json_text store root es leaf_max_entries denylist)
  unfolding insert_all
  insert_all-Growing root [] leaf_max_entries denylist = Growing-pure laws root
  insert_all-Growing root (e ∷ es) leaf_max_entries denylist =
      elim (Bool-cases (contains denylist e.key)) [
        | inl denied ↦
            rw (denied, insert_all) (insert_all-Growing root es leaf_max_entries denylist)
        | inr allowed ↦
            rw (allowed, insert_all)
              (Growing-bind laws _ _ (insert_one-Growing e leaf_max_entries root)
                (λ h. insert_all-Growing (some h) es leaf_max_entries denylist))
      ]

  root_or_empty-Growing :
      (current : Option Hash) → Growing laws (root_or_empty sha json_text store current)
  unfolding root_or_empty
  root_or_empty-Growing (some h) = Growing-pure laws h
  root_or_empty-Growing none = put_node-Growing empty_leaf

  -- A batch that leaves a valid store went through valid stores only.
  pub insert_batch-Valid :
      (s : S) (root : Option Hash) (es : List LeafEntry) (leaf_max_entries : ℕ)
      (denylist : List Bytes)
      → laws.Valid (insert_batch sha json_text store root es leaf_max_entries denylist s).1
      → laws.Valid (insert_all sha json_text store root es leaf_max_entries denylist s).1
  unfolding insert_batch
  insert_batch-Valid s root es leaf_max_entries denylist v =
      let r = insert_all sha json_text store root es leaf_max_entries denylist s in
      (continue-Grows laws r.0 (root_or_empty sha json_text store) r.1 r.1 root_or_empty-Growing
          (Grows-refl laws r.1)).before
        v
