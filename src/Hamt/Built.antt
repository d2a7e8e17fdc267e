-- ===== src/Hamt/Built.antt =====
-- What it means that an operation of crates/registry-core/src/hamt.rs wrote a tree, and how the
-- tree's entries relate to what was there.
use commonsdb_iroh_service.Prelude.{
  ℕ, suc, ◌+◌, ◌≤◌, ◌≡◌, refl, ◌∙◌, Option, none, some, or_else, List, [], ◌∷◌, ◌++◌, length,
  length-append, All, All-append, arith,
}
use commonsdb_iroh_service.Prelude.Bytes.{Bytes}
use commonsdb_iroh_service.Record.{Hash, LeafEntry}
use commonsdb_iroh_service.External.{Sha256, EntryJson}
use commonsdb_iroh_service.BlobStore.{BlobStore, StoreLaws}
use commonsdb_iroh_service.BlobStore.Growth.{Grows, Grows-refl, Grows-trans, Grows-stored}
use commonsdb_iroh_service.Exec.{Result, ok}
use commonsdb_iroh_service.Hamt.{
  HamtError, leaf, intermediate, find, sort_by_key, put_node, intermediate_fanout,
}
use commonsdb_iroh_service.Hamt.Entries.{
  find-append, find-sort_by_key, length-sort_by_key, All-sort_by_key,
}
use commonsdb_iroh_service.Hamt.Trie.{Trie, leaf_of, branch, Children, entries, height, slots_of}
use commonsdb_iroh_service.Hamt.Placed.{Placed, PlacedFrom}
use commonsdb_iroh_service.Hamt.Stored.{
  Stored, StoredAll, StoredAll-Grows, StoredAll-slots, Reads-put, put_node_lem, node_address,
  with_node,
}

-- The tree holds exactly the entries of the list, as lookups see them.
pub record Holds (es : List LeafEntry) (t : Trie) : Type 1 where
  pub finds : (k : Bytes) → find k (entries t) ≡ find k es
  pub count : length (entries t) ≡ length es
  pub members : (P : LeafEntry → Type 0) → All P es → All P (entries t)

abbrev pub added : Option LeafEntry → ℕ
added none = 1
added (some e) = 0

-- `u` is `t` with one entry more, unless its key was there: the first write wins.
pub record Extends (e : LeafEntry) (t u : Trie) : Type 1 where
  pub finds : (k : Bytes) → find k (entries u) ≡ or_else (find k (entries t)) (find k (e ∷ []))
  pub count : length (entries u) ≡ length (entries t) + added (find e.key (entries t))
  pub members : (P : LeafEntry → Type 0) → All P (entries t) → P e → All P (entries u)
  pub high : height u ≤ suc (height t)

-- A leaf with a new entry sorted in.
pub Holds-Extends :
    (es : List LeafEntry) (e : LeafEntry) (u : Trie)
    → find e.key es ≡ none
    → Holds (sort_by_key (es ++ e ∷ [])) u
    → height u ≤ 1
    → Extends e (leaf_of es) u
unfolding entries height
Holds-Extends es e u absent h low = record {
  finds = λ k. h.finds k ∙ find-sort_by_key k (es ++ e ∷ []) ∙ find-append k es (e ∷ []);
  count =
      rw absent
        (omega (arith, h.count, length-sort_by_key (es ++ e ∷ []), length-append es (e ∷ [])));
  members =
      λ P p q. h.members P (All-sort_by_key P (es ++ e ∷ []) (All-append P es (e ∷ []) p (q, tt)));
  high = low;
}

pub Holds-leaf : (es : List LeafEntry) → Holds es (leaf_of es)
unfolding entries
Holds-leaf es = record { finds = λ k. refl; count = refl; members = λ P h. h }

module _ (sha : Sha256) (json_text : EntryJson) {S : Type 0} (store : BlobStore S)
    (laws : StoreLaws store) where
  -- The operation ended, returned a root, and that root's tree is in the store that it left, placed
  -- for `depth`. `Meets` says which tree.
  pub record Built (depth : ℕ) (Meets : Trie → Type 1) (s : S) (outcome : Result HamtError Hash × S)
      : Type 1 where
    pub root : Hash
    pub after : S
    pub tree : Trie
    pub run : outcome ≡ (ok root, after)
    pub grows : Grows laws s after
    pub stored : laws.Valid after → Stored json_text store after root tree
    pub placed : Placed sha depth tree
    pub fits : depth + height tree ≤ 31
    pub meets : Meets tree

  pub Built-map :
      {depth : ℕ} {M N : Trie → Type 1} {s : S} {o : Result HamtError Hash × S}
      → ((t : Trie) → M t → N t)
      → Built depth M s o
      → Built depth N s o
  Built-map f b = record {
    root = b.root;
    after = b.after;
    tree = b.tree;
    run = b.run;
    grows = b.grows;
    stored = b.stored;
    placed = b.placed;
    fits = b.fits;
    meets = f b.tree b.meets;
  }

  -- Nothing was written: the root is what it was.
  pub Built-same :
      (depth : ℕ) (Meets : Trie → Type 1) (s : S) (h : Hash) (t : Trie)
      → Stored json_text store s h t
      → Placed sha depth t
      → depth + height t ≤ 31
      → Meets t
      → Built depth Meets s (ok h, s)
  Built-same depth Meets s h t r p low m = record {
    root = h;
    after = s;
    tree = t;
    run = refl;
    grows = Grows-refl laws s;
    stored = λ v. r;
    placed = p;
    fits = low;
    meets = m;
  }

  -- The last step of every operation: one node over children that are already stored.
  pub put_leaf-Built :
      (depth : ℕ) (Meets : Trie → Type 1) (s : S) (es : List LeafEntry)
      → depth ≤ 31
      → Meets (leaf_of es)
      → Built depth Meets s (put_node json_text store (leaf es) s)
  unfolding height
  put_leaf-Built depth Meets s es low m = record {
    root = node_address json_text store laws (leaf es);
    after = with_node json_text store laws (leaf es) s;
    tree = leaf_of es;
    run = put_node_lem json_text store laws (leaf es) s;
    grows = Grows-stored laws _ s;
    stored = λ v. Reads-put json_text store laws (leaf es) s tt;
    placed = tt;
    fits = omega arith;
    meets = m;
  }

  pub put_branch-Built :
      (depth : ℕ) (Meets : Trie → Type 1) (s s' : S) (cs : Children)
      → Grows laws s s'
      → (laws.Valid s' → StoredAll json_text store s' cs)
      → length (slots_of cs) ≡ intermediate_fanout
      → PlacedFrom sha depth 0 cs
      → depth + height (branch cs) ≤ 31
      → Meets (branch cs)
      → Built depth Meets s (put_node json_text store (intermediate (slots_of cs)) s')
  put_branch-Built depth Meets s s' cs g r w p low m =
      let node = intermediate (slots_of cs) in
      let last = Grows-stored laws _ s' in
      record {
        root = node_address json_text store laws node;
        after = with_node json_text store laws node s';
        tree = branch cs;
        run = put_node_lem json_text store laws node s';
        grows = Grows-trans laws g last;
        stored = λ v.
            let kept = r (last.before v) in
            (
              Reads-put json_text store laws node s'
                  (w, StoredAll-slots json_text store laws s' cs (last.before v) kept),
              w,
              StoredAll-Grows json_text store laws cs last v kept,
            );
        placed = p;
        fits = low;
        meets = m;
      }
