-- ===== src/Hamt/Batch.antt =====
-- `insert_batch` of crates/registry-core/src/hamt.rs: a fold of `insert_one` over what the denylist
-- lets through.
use commonsdb_iroh_service.Prelude.{
  ℕ, ◌+◌, ◌≤◌, ◌≡◌, refl, sym, ◌∙◌, ap, ◌⊎◌, inl, inr, true, false, Bool-cases, Option, none, some,
  or_else, List, [], ◌∷◌, length, if◌then◌else◌, arith,
}
use commonsdb_iroh_service.Prelude.Bytes.{Bytes}
use commonsdb_iroh_service.Record.{Hash, LeafEntry}
use commonsdb_iroh_service.External.{Sha256, EntryJson}
use commonsdb_iroh_service.BlobStore.{BlobStore, StoreLaws}
use commonsdb_iroh_service.Exec.{Result, ok, err, and_then}
use commonsdb_iroh_service.Hamt.{
  HamtError, depth_exhausted, find, contains, lookup, insert_one, insert_all, root_or_empty,
  insert_batch,
}
use commonsdb_iroh_service.Hamt.Trie.{Trie, entries, height}
use commonsdb_iroh_service.Hamt.Entries.{find-append}
use commonsdb_iroh_service.Hamt.Placed.{or_else-none}
use commonsdb_iroh_service.Hamt.Lookup.{IsRoot, lookup-IsRoot}
use commonsdb_iroh_service.Hamt.Built.{Holds, Holds-leaf, put_leaf-Built}
use commonsdb_iroh_service.Hamt.Insert.{Outcome, insert_one-Ends, Outcome-IsRoot}
use commonsdb_iroh_service.Hamt.Growing.{insert_all-Growing, insert_batch-Valid}

-- The entries that are not on the denylist, in their order.
abbrev pub permitted : List Bytes → List LeafEntry → List LeafEntry
permitted denylist [] = []
permitted denylist (e ∷ es) =
    if contains denylist e.key then permitted denylist es else e ∷ permitted denylist es

or_else_assoc : (a b c : Option LeafEntry) → or_else (or_else a b) c ≡ or_else a (or_else b c)
unfolding or_else
or_else_assoc none b c = refl
or_else_assoc (some a) b c = refl

find-cons_append :
    (k : Bytes) (e : LeafEntry) (es : List LeafEntry)
    → find k (e ∷ es) ≡ or_else (find k (e ∷ [])) (find k es)
find-cons_append k e es = find-append k (e ∷ []) es

module _ (sha : Sha256) (json_text : EntryJson) {S : Type 0} (store : BlobStore S)
    (laws : StoreLaws store) (leaf_max_entries : ℕ) (denylist : List Bytes) where
  abbrev loop : Option Hash → List LeafEntry → S → Result HamtError (Option Hash) × S
  loop root es = insert_all sha json_text store root es leaf_max_entries denylist

  module _ (root : Option Hash) (e : LeafEntry) (es : List LeafEntry) (s : S) where
    abbrev first : Result HamtError Hash × S
    first = insert_one sha json_text store root e leaf_max_entries s

    loop_denied : contains denylist e.key ≡ true → loop root (e ∷ es) s ≡ loop root es s
    unfolding insert_all
    loop_denied d = rw (d, insert_all)

    loop_ok :
        (h : Hash) (s' : S)
        → contains denylist e.key ≡ false
        → first ≡ (ok h, s')
        → loop root (e ∷ es) s ≡ loop (some h) es s'
    unfolding insert_all
    loop_ok h s' d run = rw (d, run, insert_all)

    loop_err :
        (x : HamtError) (s' : S)
        → contains denylist e.key ≡ false
        → first ≡ (err x, s')
        → loop root (e ∷ es) s ≡ (err x, s')
    unfolding insert_all
    loop_err x s' d run = rw (d, run, insert_all)

  -- The fold ended with a root that adds `es` to what `t` had.
  pub record Folded (t : Trie) (es : List LeafEntry) (o : Result HamtError (Option Hash) × S)
      : Type 0 where
    pub current : Option Hash
    pub after : S
    pub tree : Trie
    pub run : o ≡ (ok current, after)
    pub root : IsRoot sha json_text store after current tree
    pub finds :
        (k : Bytes)
        → find k (entries tree) ≡ or_else (find k (entries t)) (find k (permitted denylist es))

  -- The fold ran out of digest bytes, which takes a tree of full height.
  pub record Stopped (t : Trie) (es : List LeafEntry) (o : Result HamtError (Option Hash) × S)
      : Type 0 where
    pub key : Bytes
    pub left : S
    pub run : o ≡ (err (depth_exhausted key 31), left)
    pub deep : 31 ≤ height t + length es

  fold_step :
      (t : Trie) (e : LeafEntry) (es : List LeafEntry) (s : S) (root : Option Hash)
      → contains denylist e.key ≡ false
      → (w : Outcome sha json_text store laws e leaf_max_entries 0 t s
          (insert_one sha json_text store root e leaf_max_entries s))
      → Folded w.tree es (loop (some w.root) es w.after)
        ⊎ Stopped w.tree es (loop (some w.root) es w.after)
      → Folded t (e ∷ es) (loop root (e ∷ es) s) ⊎ Stopped t (e ∷ es) (loop root (e ∷ es) s)
  fold_step t e es s root allowed w (inl f) = inl (record {
    current = f.current;
    after = f.after;
    tree = f.tree;
    run = loop_ok root e es s w.root w.after allowed w.run ∙ f.run;
    root = f.root;
    finds = λ k.
        rw (allowed, f.finds k, w.meets.finds k, find-cons_append k e (permitted denylist es))
          (or_else_assoc (find k (entries t)) (find k (e ∷ [])) (find k (permitted denylist es)));
  })
  fold_step t e es s root allowed w (inr f) = inr (record {
    key = f.key;
    left = f.left;
    run = loop_ok root e es s w.root w.after allowed w.run ∙ f.run;
    deep = omega (arith, f.deep, w.meets.high);
  })

  skip_step :
      (t : Trie) (e : LeafEntry) (es : List LeafEntry) (s : S) (root : Option Hash)
      → contains denylist e.key ≡ true
      → Folded t es (loop root es s) ⊎ Stopped t es (loop root es s)
      → Folded t (e ∷ es) (loop root (e ∷ es) s) ⊎ Stopped t (e ∷ es) (loop root (e ∷ es) s)
  skip_step t e es s root denied (inl f) = inl (record {
    current = f.current;
    after = f.after;
    tree = f.tree;
    run = loop_denied root e es s denied ∙ f.run;
    root = f.root;
    finds = λ k. rw denied (f.finds k);
  })
  skip_step t e es s root denied (inr f) = inr (record {
    key = f.key;
    left = f.left;
    run = loop_denied root e es s denied ∙ f.run;
    deep = omega (arith, f.deep);
  })

  -- The fold ends on every list of entries.
  insert_all-ends :
      (es : List LeafEntry) (t : Trie) (s : S) (root : Option Hash)
      → IsRoot sha json_text store s root t
      → laws.Valid (loop root es s).1
      → Folded t es (loop root es s) ⊎ Stopped t es (loop root es s)
  insert_all-ends [] t s root r v = inl (record {
    current = root;
    after = s;
    tree = t;
    run = unfold insert_all in refl;
    root = r;
    finds = λ k. unfold find in sym (or_else-none (find k (entries t)));
  })
  insert_all-ends (e ∷ es) t s root r v = elim (Bool-cases (contains denylist e.key)) [
    | inl denied ↦
        let same = loop_denied root e es s denied in
        let v' : laws.Valid (loop root es s).1 = rw same at v in
        skip_step t e es s root denied (insert_all-ends es t s root r v')
    | inr allowed ↦ elim (insert_one-Ends sha json_text store laws e leaf_max_entries s root t r) [
      | inl w ↦
          let same = loop_ok root e es s w.root w.after allowed w.run in
          let v' : laws.Valid (loop (some w.root) es w.after).1 = rw same at v in
          let g =
            (insert_all-Growing sha json_text store laws (some w.root) es leaf_max_entries
                denylist).at
              w.after in
          let new =
            Outcome-IsRoot sha json_text store laws e leaf_max_entries t s _ w (g.before v') in
          fold_step t e es s root allowed w (insert_all-ends es w.tree w.after (some w.root) new v')
      | inr stuck ↦ inr (record {
        key = stuck.key;
        left = stuck.left;
        run = loop_err root e es s _ stuck.left allowed stuck.run;
        deep = omega (arith, stuck.deep);
      })
    ]
  ]

  -- The root that a batch returns: the fold's, or an empty leaf.
  pub record Finished (t : Trie) (o : Result HamtError Hash × S) : Type 0 where
    pub root : Hash
    pub after : S
    pub tree : Trie
    pub run : o ≡ (ok root, after)
    pub reads : laws.Valid after → IsRoot sha json_text store after (some root) tree
    pub same : (k : Bytes) → find k (entries tree) ≡ find k (entries t)

  finish :
      (current : Option Hash) (t : Trie) (s : S)
      → IsRoot sha json_text store s current t
      → Finished t (root_or_empty sha json_text store current s)
  unfolding root_or_empty entries
  finish (some h) t s r = record {
    root = h;
    after = s;
    tree = t;
    run = refl;
    reads = λ v. r;
    same = λ k. refl;
  }
  finish none t s r =
      let w =
        put_leaf-Built sha json_text store laws 0 (Holds []) s [] (omega arith) (Holds-leaf []) in
      record {
        root = w.root;
        after = w.after;
        tree = w.tree;
        run = w.run;
        reads = λ v. record { rooted = w.stored v; placed = w.placed; low = omega (arith, w.fits) };
        same = λ k. rw r.rooted (w.meets.finds k);
      }

  module _ (s : S) (root : Option Hash) (t : Trie) (es : List LeafEntry) where
    abbrev pub batch : Result HamtError Hash × S
    batch = insert_batch sha json_text store root es leaf_max_entries denylist s

    -- On a store that holds the tree of the root, and where the store after the run is valid,
    -- `insert_batch` ends. Either it returns a root through which `lookup` returns, for every key,
    -- what it returned before, and where that was nothing the first entry of the key that is not on
    -- the denylist; or it reports exhausted digest bytes, which takes at least 31 levels of trie and
    -- new entries together.
    pub lookup-insert_batch :
        IsRoot sha json_text store s root t
        → laws.Valid batch.1
        → ((h : Hash) × (batch.0 ≡ ok h)
            × ((key : Bytes)
                → lookup sha json_text store batch.1 (some h) key
                  ≡ and_then
                      (lookup sha json_text store s root key)
                      λ old. ok (or_else old (find key (permitted denylist es)))))
          ⊎ ((key : Bytes) × (batch.0 ≡ err (depth_exhausted key 31)) × (31 ≤ height t + length es))
    unfolding insert_batch
    lookup-insert_batch r v =
        elim (insert_all-ends es t s root r
          (insert_batch-Valid sha json_text store laws s root es leaf_max_entries denylist v)) [
            | inl f ↦
                let w = finish f.current f.tree f.after f.root in
                let run : batch ≡ (ok w.root, w.after) = rw f.run w.run in
                let left : batch.1 ≡ w.after = ap (λ x. x.1) run in
                inl (
                  w.root,
                  ap (λ x. x.0) run,
                  λ key. rw (
                    left,
                    lookup-IsRoot sha json_text store w.after (some w.root) w.tree key
                        (w.reads (rw left at v)),
                    lookup-IsRoot sha json_text store s root t key r,
                    w.same key,
                    f.finds key,
                  ),
                )
            | inr f ↦ inr (f.key, rw f.run, f.deep)
          ]
