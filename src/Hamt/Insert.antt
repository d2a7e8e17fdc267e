-- ===== src/Hamt/Insert.antt =====
-- `insert_at` and `insert_one` of crates/registry-core/src/hamt.rs: path copying, first write wins.
use commonsdb_iroh_service.Prelude.{
  ℕ, zero, suc, ◌+◌, ◌≤◌, ◌<◌, ◌≡◌, sym, ◌∙◌, ◌⊎◌, inl, inr, Bool-cases, Option-cases, Option, none,
  some, List, [], ◌∷◌, ◌++◌, length, leb, arith, length-set, length-append,
}
use commonsdb_iroh_service.Prelude.Bytes.{Bytes}
use commonsdb_iroh_service.Record.{Hash, LeafEntry, zero_hash}
use commonsdb_iroh_service.External.{Sha256, EntryJson}
use commonsdb_iroh_service.Partition.{key_digest}
use commonsdb_iroh_service.BlobStore.{BlobStore, StoreLaws}
use commonsdb_iroh_service.Exec.{Result, err, ok_or, Exec}
use commonsdb_iroh_service.Hamt.{
  HamtError, depth_exhausted, intermediate_fanout, find, sort_by_key, corrupt_node,
  entry_without_hash, distribute, split_leaf, insert_leaf, insert_intermediate, insert_at,
  insert_one, hamt_fuel,
}
use commonsdb_iroh_service.Hamt.Entries.{length-sort_by_key}
use commonsdb_iroh_service.Hamt.Trie.{
  Trie, leaf_of, branch, Children, entries, height, slots_of, child_at, set_child, subtree, hash_of,
  slot-child_at, slots_of-set_child, height-child_at, height-set_child,
}
use commonsdb_iroh_service.Hamt.Placed.{Placed, PlacedFrom, GoesTo, Placed-child_at}
use commonsdb_iroh_service.Hamt.Stored.{
  StoredAll, Rooted, Rooted-child_at, StoredAll-set_child, StoredAll-Grows, load-Rooted,
}
use commonsdb_iroh_service.Hamt.Lookup.{descent_byte-total, byte_at-GoesTo, byte_at-deep, IsRoot}
use commonsdb_iroh_service.Hamt.Built.{
  Extends, Holds-Extends, Holds-leaf, Built, Built-map, Built-same, put_leaf-Built,
  put_branch-Built,
}
use commonsdb_iroh_service.Hamt.Split.{split_leaf-Built}
use commonsdb_iroh_service.Hamt.Extends.{Extends-present, find-nil, set-Placed, Extends-branch}

branch-not-leaf : (cs : Children) → ¬ (branch cs ≡ leaf_of [])
branch-not-leaf cs h = cc

shallow_or_deep : (depth : ℕ) → depth ≤ 31 → (depth ≤ 30) ⊎ (depth ≡ 31)
shallow_or_deep depth h = ground arith

module _ (sha : Sha256) (json_text : EntryJson) {S : Type 0} (store : BlobStore S)
    (laws : StoreLaws store) (e : LeafEntry) (leaf_max_entries : ℕ) where
  abbrev pub Outcome : ℕ → Trie → S → Result HamtError Hash × S → Type 1
  Outcome depth t = Built sha json_text store laws depth (Extends e t)

  -- The digest has no byte for one more level: the error, and what was left of the store.
  pub record Exhausted (depth : ℕ) (t : Trie) (o : Result HamtError Hash × S) : Type 0 where
    pub deep : depth + height t ≡ 31
    pub key : Bytes
    pub left : S
    pub run : o ≡ (err (depth_exhausted key 31), left)

  -- The two ways in which an insertion ends.
  abbrev pub Ends : ℕ → Trie → S → Result HamtError Hash × S → Type 1
  Ends depth t s o = Outcome depth t s o ⊎ Exhausted depth t o

  insert_present :
      (node_hash : Option Hash) (depth : ℕ) (es : List LeafEntry) (s : S) (f : LeafEntry)
      → depth ≤ 31
      → find e.key es ≡ some f
      → Rooted json_text store s node_hash (leaf_of es)
      → Outcome depth
          (leaf_of es)
          s
          (ok_or node_hash (corrupt_node zero_hash entry_without_hash), s)
  insert_present none depth es s f d there r =
      let empty : es ≡ [] = cc in
      let nothing : find e.key [] ≡ some f = rw empty at there in absurd (find-nil e.key f nothing)
  insert_present (some h) depth es s f d there r =
      Built-same sha json_text store laws depth _ s h (leaf_of es) r tt
        (unfold height in omega arith) (Extends-present e f (leaf_of es) (unfold entries in there))

  split_leaf-deep :
      (depth : ℕ) (t : Trie) (xs : List LeafEntry) (s : S)
      → depth ≡ 31
      → depth + height t ≡ 31
      → 0 < length xs
      → Exhausted depth t (split_leaf sha json_text store depth xs s)
  unfolding split_leaf distribute
  split_leaf-deep depth t [] s d h n = absurd (omega arith)
  split_leaf-deep depth t (x ∷ xs) s d h n = record {
    deep = h;
    key = x.key;
    left = s;
    run = rw (d, byte_at-deep sha 31 x.key (omega arith));
  }

  split_leaf-Ends :
      (depth : ℕ) (es : List LeafEntry) (s : S)
      → depth ≤ 31
      → find e.key es ≡ none
      → Ends depth
          (leaf_of es)
          s
          (split_leaf sha json_text store depth (sort_by_key (es ++ e ∷ [])) s)
  split_leaf-Ends depth es s d absent = elim (shallow_or_deep depth d) [
    | inl shallow ↦ inl (
        Built-map sha json_text store laws (λ t m. Holds-Extends es e t absent m.0 m.1)
          (split_leaf-Built sha json_text store laws depth shallow (sort_by_key (es ++ e ∷ [])) s))
    | inr deep ↦ inr (
        split_leaf-deep depth (leaf_of es) (sort_by_key (es ++ e ∷ [])) s deep
          (unfold height in omega arith)
          (omega (arith, length-sort_by_key (es ++ e ∷ []), length-append es (e ∷ []))))
  ]

  -- Every path through `insert_leaf`: a key that is there, a leaf with room, a split.
  insert_leaf-Ends :
      (node_hash : Option Hash) (depth : ℕ) (es : List LeafEntry) (s : S)
      → depth ≤ 31
      → Rooted json_text store s node_hash (leaf_of es)
      → Ends depth
          (leaf_of es)
          s
          (insert_leaf sha json_text store node_hash depth es e leaf_max_entries s)
  unfolding insert_leaf
  insert_leaf-Ends node_hash depth es s d r = elim (Option-cases (find e.key es)) [
    | inr (f, there) ↦
        rw (there, insert_leaf) (inl (insert_present node_hash depth es s f d there r))
    | inl absent ↦
        let sorted = sort_by_key (es ++ e ∷ []) in
        rw (absent, insert_leaf)
          (elim (Bool-cases (leb (length sorted) leaf_max_entries)) [
            | inl room ↦ rw room (
                inl (
                  put_leaf-Built sha json_text store laws depth _ s sorted d (
                    Holds-Extends es e (leaf_of sorted) absent (Holds-leaf sorted)
                      (unfold height in omega arith))))
            | inr full ↦ rw full (split_leaf-Ends depth es s d absent)
          ])
  ]

  -- Below a branch: the recursive call on the slot's subtree, and a new node over the old slots.
  module _ (depth b : ℕ) (cs : Children) (s : S)
      (insert_child : Option Hash → Exec HamtError S Hash) (low : depth + height (branch cs) ≤ 31)
      (goes : GoesTo sha depth b e.key) (lt : b < intermediate_fanout)
      (width : length (slots_of cs) ≡ intermediate_fanout) (r : StoredAll json_text store s cs)
      (p : PlacedFrom sha depth 0 cs) where
    abbrev Here : Result HamtError Hash × S
    Here =
        insert_intermediate json_text store insert_child (slots_of cs) depth (key_digest sha e.key)
          e.key s

    insert_intermediate-Built :
        Outcome (depth + 1) (subtree (child_at cs b)) s (insert_child (hash_of (child_at cs b)) s)
        → Outcome depth (branch cs) s Here
    unfolding insert_intermediate height
    insert_intermediate-Built below =
        let within : b < length (slots_of cs) = omega arith in
        let cs' = set_child cs b below.root below.tree in
        let d : depth ≤ 30 = omega arith in
        rw
          (
            byte_at-GoesTo sha depth b e.key goes,
            slot-child_at cs b,
            below.run,
            sym (slots_of-set_child cs b below.root below.tree),
          )
          (put_branch-Built sha json_text store laws depth _ s below.after cs' below.grows
            (λ v.
              StoredAll-set_child json_text store below.after cs b below.root below.tree
                (StoredAll-Grows json_text store laws cs below.grows v r) (below.stored v))
            (rw (slots_of-set_child cs b below.root below.tree)
              (length-set (slots_of cs) b _ ∙ width))
            (set-Placed sha depth b e cs below.root below.tree goes within p below.meets
              below.placed)
            (omega (arith, height-set_child cs b below.root below.tree, below.fits))
            (Extends-branch sha depth b e cs below.root below.tree goes within p below.meets
              below.placed d))

    insert_intermediate-Ends :
        Ends (depth + 1) (subtree (child_at cs b)) s (insert_child (hash_of (child_at cs b)) s)
        → Ends depth (branch cs) s Here
    unfolding insert_intermediate height
    insert_intermediate-Ends (inl below) = inl (insert_intermediate-Built below)
    insert_intermediate-Ends (inr stuck) = inr (record {
      deep = omega (arith, stuck.deep, height-child_at cs b);
      key = stuck.key;
      left = stuck.left;
      run = rw (byte_at-GoesTo sha depth b e.key goes, slot-child_at cs b, stuck.run);
    })

  -- `insert_at` ends on every tree that lookups can read.
  pub insert_at-Ends :
      (fuel : ℕ) (node_hash : Option Hash) (t : Trie) (depth : ℕ) (s : S)
      → height t < fuel
      → depth + height t ≤ 31
      → Rooted json_text store s node_hash t
      → Placed sha depth t
      → Ends depth t s (
          insert_at sha json_text store fuel node_hash depth
            (key_digest sha e.key)
            e
            leaf_max_entries
            s)
  unfolding insert_at height
  insert_at-Ends zero node_hash t depth s f d r p = elim f [ ]
  insert_at-Ends (suc fuel) node_hash (leaf_of es) depth s f d r p =
      rw (load-Rooted json_text store s node_hash (leaf_of es) r)
        (insert_leaf-Ends node_hash depth es s (omega arith) r)
  insert_at-Ends (suc fuel) none (branch cs) depth s f d r p = absurd (branch-not-leaf cs r)
  insert_at-Ends (suc fuel) (some h) (branch cs) depth s f d r p =
      let (b, goes, lt) = descent_byte-total sha e.key depth (omega arith) in
      let low = height-child_at cs b in
      rw (load-Rooted json_text store s (some h) (branch cs) r) (
        insert_intermediate-Ends depth b cs s _ d goes lt r.1 r.2 p (
          insert_at-Ends fuel (hash_of (child_at cs b)) (subtree (child_at cs b)) (depth + 1) s
            (omega arith) (omega arith) (Rooted-child_at json_text store s cs b r.2)
            (Placed-child_at sha depth 0 b cs p)))

  -- `insert_one` on a partition's root.
  pub insert_one-Ends :
      (s : S) (root : Option Hash) (t : Trie)
      → IsRoot sha json_text store s root t
      → Ends 0 t s (insert_one sha json_text store root e leaf_max_entries s)
  unfolding insert_one
  insert_one-Ends s root t r =
      insert_at-Ends hamt_fuel root t 0 s (omega (arith, r.low)) (omega (arith, r.low)) r.rooted
        r.placed

  -- What was written is a root that lookups can read.
  pub Outcome-IsRoot :
      (t : Trie) (s : S) (o : Result HamtError Hash × S)
      → (w : Outcome 0 t s o) → laws.Valid w.after
      → IsRoot sha json_text store w.after (some w.root) w.tree
  Outcome-IsRoot t s o w v = record {
    rooted = w.stored v;
    placed = w.placed;
    low = omega (arith, w.fits);
  }
