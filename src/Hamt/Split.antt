-- ===== src/Hamt/Split.antt =====
-- The leaf-to-intermediate conversion of crates/registry-core/src/hamt.rs: `put_buckets` and
-- `split_leaf`. Each bucket becomes a leaf, however many entries it has.
use commonsdb_iroh_service.Prelude.{
  ℕ, zero, suc, ◌+◌, ◌≤◌, ◌≡◌, refl, sym, ◌∙◌, ap, List, [], ◌∷◌, ◌++◌, length, length-append,
  length-replicate, get_or, get_or-replicate, replicate, All, All-append, arith,
}
use mathlib.Core.Path.{subst, ◌≡⟨◌⟩◌, ◌∎}
use native.Mathlib.Nat.{zero-add}
use commonsdb_iroh_service.Prelude.Bytes.{Bytes}
use commonsdb_iroh_service.Record.{LeafEntry}
use commonsdb_iroh_service.External.{Sha256, EntryJson}
use commonsdb_iroh_service.BlobStore.{BlobStore, StoreLaws}
use commonsdb_iroh_service.BlobStore.Growth.{Grows, Grows-refl, Grows-trans, Grows-stored}
use commonsdb_iroh_service.Exec.{ok}
use commonsdb_iroh_service.Hamt.{leaf, find, intermediate_fanout, put_buckets, split_leaf}
use commonsdb_iroh_service.Hamt.Trie.{
  leaf_of, branch, Children, end, vacant, child, entries, entries_all, height, height_all, slots_of,
  child_at, subtree,
}
use commonsdb_iroh_service.Hamt.Placed.{GoesTo, PlacedFrom, find-child_at, shift, at_start}
use commonsdb_iroh_service.Hamt.Stored.{
  StoredAll, Stored-Grows, Reads-put, put_node_lem, node_address, with_node,
}
use commonsdb_iroh_service.Hamt.Lookup.{descent_byte-total}
use commonsdb_iroh_service.Hamt.Buckets.{total, Sorted, Distributed, distribute_lem}
use commonsdb_iroh_service.Hamt.Built.{Holds, Built, put_branch-Built}

module _ (json_text : EntryJson) {S : Type 0} (store : BlobStore S) (laws : StoreLaws store) where
  -- The children that `put_buckets` writes.
  abbrev pub leaf_children : List (List LeafEntry) → Children
  leaf_children [] = end
  leaf_children ([] ∷ bs) = vacant (leaf_children bs)
  leaf_children ((e ∷ es) ∷ bs) =
      child (node_address json_text store laws (leaf (e ∷ es))) (leaf_of (e ∷ es))
        (leaf_children bs)

  entries-leaf_children :
      (bs : List (List LeafEntry)) (j : ℕ)
      → entries (subtree (child_at (leaf_children bs) j)) ≡ get_or bs j []
  unfolding entries
  entries-leaf_children [] j = refl
  entries-leaf_children ([] ∷ bs) zero = refl
  entries-leaf_children ([] ∷ bs) (suc j) = entries-leaf_children bs j
  entries-leaf_children ((e ∷ es) ∷ bs) zero = refl
  entries-leaf_children ((e ∷ es) ∷ bs) (suc j) = entries-leaf_children bs j

  length-leaf_children :
      (bs : List (List LeafEntry)) → length (slots_of (leaf_children bs)) ≡ length bs
  length-leaf_children [] = refl
  length-leaf_children ([] ∷ bs) = ap suc (length-leaf_children bs)
  length-leaf_children ((e ∷ es) ∷ bs) = ap suc (length-leaf_children bs)

  count-leaf_children :
      (bs : List (List LeafEntry)) → length (entries_all (leaf_children bs)) ≡ total bs
  unfolding entries
  count-leaf_children [] = refl
  count-leaf_children ([] ∷ bs) = omega (arith, count-leaf_children bs)
  count-leaf_children ((e ∷ es) ∷ bs) =
      omega (arith, length-append (e ∷ es) (entries_all (leaf_children bs)), count-leaf_children bs)

  height-leaf_children : (bs : List (List LeafEntry)) → height_all (leaf_children bs) ≡ 0
  unfolding height
  height-leaf_children [] = refl
  height-leaf_children ([] ∷ bs) = height-leaf_children bs
  height-leaf_children ((e ∷ es) ∷ bs) = omega (arith, height-leaf_children bs)

  All-leaf_children :
      (P : LeafEntry → Type 0) (bs : List (List LeafEntry))
      → ((j : ℕ) → All P (get_or bs j []))
      → All P (entries_all (leaf_children bs))
  unfolding entries
  All-leaf_children P [] h = tt
  All-leaf_children P ([] ∷ bs) h = All-leaf_children P bs (λ j. h (suc j))
  All-leaf_children P ((e ∷ es) ∷ bs) h =
      All-append P (e ∷ es) (entries_all (leaf_children bs)) (h 0)
        (All-leaf_children P bs (λ j. h (suc j)))

  module _ (sha : Sha256) (depth : ℕ) where
    PlacedFrom-leaf_children :
        (i : ℕ) (bs : List (List LeafEntry))
        → ((j : ℕ) → All (λ e. GoesTo sha depth (i + j) e.key) (get_or bs j []))
        → PlacedFrom sha depth i (leaf_children bs)
    unfolding entries
    PlacedFrom-leaf_children i [] h = tt
    PlacedFrom-leaf_children i ([] ∷ bs) h =
        PlacedFrom-leaf_children (i + 1) bs (λ j. rw (shift i j) (h (suc j)))
    PlacedFrom-leaf_children i ((e ∷ es) ∷ bs) h = (
      subst (λ j. All (λ x. GoesTo sha depth j x.key) (e ∷ es)) (at_start i) (h 0),
      tt,
      PlacedFrom-leaf_children (i + 1) bs (λ j. rw (shift i j) (h (suc j))),
    )

  -- Every bucket is written, and all of them are there afterwards.
  put_buckets_lem :
      (bs : List (List LeafEntry)) (s : S)
      → (s' : S) × (put_buckets json_text store bs s ≡ (ok (slots_of (leaf_children bs)), s'))
        × Grows laws s s'
        × (laws.Valid s' → StoredAll json_text store s' (leaf_children bs))
  unfolding put_buckets
  put_buckets_lem [] s = (s, refl, Grows-refl laws s, λ v. tt)
  put_buckets_lem ([] ∷ bs) s = let (s', run, g, r) = put_buckets_lem bs s in (s', rw run, g, r)
  put_buckets_lem ((e ∷ es) ∷ bs) s =
      let node = leaf (e ∷ es) in
      let first = with_node json_text store laws node s in
      let (s', run, g, r) = put_buckets_lem bs first in
      (
        s',
        rw (put_node_lem json_text store laws node s, run),
        Grows-trans laws (Grows-stored laws _ s) g,
        λ v. (
          Stored-Grows json_text store laws _ (leaf_of (e ∷ es)) g v
              (Reads-put json_text store laws node s tt),
          r v,
        ),
      )

abbrev empty_buckets : List (List LeafEntry)
empty_buckets = replicate intermediate_fanout []

empty_bucket : (j : ℕ) → get_or empty_buckets j [] ≡ []
empty_bucket j = get_or-replicate intermediate_fanout j []

total-replicate : (n : ℕ) → total (replicate n []) ≡ 0
unfolding replicate
total-replicate zero = refl
total-replicate (suc n) = omega (arith, total-replicate n)

module _ (sha : Sha256) (json_text : EntryJson) {S : Type 0} (store : BlobStore S)
    (laws : StoreLaws store) (depth : ℕ) (shallow : depth ≤ 30) (es : List LeafEntry) where
  module _ (out : List (List LeafEntry)) (spec : Distributed sha depth es empty_buckets out) where
    abbrev split_children : Children
    split_children = leaf_children json_text store laws out

    in_place : Sorted sha depth out
    in_place = spec.sorted (λ j. rw (empty_bucket j) tt)

    split-placed : PlacedFrom sha depth 0 split_children
    split-placed = PlacedFrom-leaf_children json_text store laws sha depth 0 out (λ j.
        subst (λ i. All (λ x. GoesTo sha depth i x.key) (get_or out j [])) (sym (zero-add j))
          (in_place j))

    split-finds : (k : Bytes) → find k (entries_all split_children) ≡ find k es
    split-finds k =
        let (b, goes, lt) = descent_byte-total sha k depth shallow in
        find k (entries_all split_children)
        ≡⟨ find-child_at sha depth 0 b k split_children (rw zero-add goes) split-placed ⟩
          find k (entries (subtree (child_at split_children b)))
        ≡⟨ ap (find k) (entries-leaf_children json_text store laws out b) ⟩ find k (get_or out b [])
        ≡⟨ spec.finds k b goes ⟩ find k (get_or empty_buckets b [] ++ es)
        ≡⟨ ap (λ l. find k (l ++ es)) (empty_bucket b) ⟩ find k es ∎

    split-Holds : Holds es (branch split_children)
    unfolding entries
    split-Holds = record {
      finds = split-finds;
      count = omega (
        arith,
        count-leaf_children json_text store laws out,
        spec.count,
        total-replicate intermediate_fanout,
      );
      members = λ P h.
          All-leaf_children json_text store laws P out
            (spec.members P h (λ j. rw (empty_bucket j) tt));
    }

    split-high : height (branch split_children) ≤ 1
    unfolding height
    split-high = omega (arith, height-leaf_children json_text store laws out)

  -- Up to depth 30 a split succeeds, and its tree holds the entries of the leaf.
  pub split_leaf-Built :
      (s : S)
      → Built sha json_text store laws depth
          (λ t. Holds es t × (height t ≤ 1))
          s
          (split_leaf sha json_text store depth es s)
  unfolding split_leaf
  split_leaf-Built s =
      let (out, distributed, spec) =
        distribute_lem sha depth es empty_buckets shallow
          (length-replicate intermediate_fanout []) in
      let (s', written, g, r) = put_buckets_lem json_text store laws out s in
      rw (distributed, written)
        (put_branch-Built sha json_text store laws depth _ s s' (split_children out spec) g r
          (length-leaf_children json_text store laws out
            ∙ spec.width
            ∙ length-replicate intermediate_fanout [])
          (split-placed out spec) (omega (arith, split-high out spec))
          (split-Holds out spec, split-high out spec))
