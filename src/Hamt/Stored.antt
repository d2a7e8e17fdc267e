-- ===== src/Hamt/Stored.antt =====
-- When a store holds a tree (crates/registry-core/src/hamt.rs): each node's hash reads back as that
-- node, down to the leaves. A store that grows keeps its trees.
use commonsdb_iroh_service.Prelude.{ℕ, zero, suc, ◌≡◌, refl, Option, none, some, [], length, All}
use commonsdb_iroh_service.Prelude.Bytes.{Bytes}
use commonsdb_iroh_service.Record.{Hash}
use commonsdb_iroh_service.External.{EntryJson}
use commonsdb_iroh_service.BlobStore.{BlobStore, StoreLaws}
use commonsdb_iroh_service.BlobStore.Growth.{Grows}
use commonsdb_iroh_service.Exec.{ok}
use commonsdb_iroh_service.Hamt.{
  HamtNode, leaf, intermediate, intermediate_fanout, encode, decode, put_node, read_node, load,
}
use commonsdb_iroh_service.Hamt.Codec.{IsSlot, IsEncodable, decode-encode}
use commonsdb_iroh_service.Hamt.Trie.{
  Trie, leaf_of, branch, Children, end, vacant, child, child_at, set_child, subtree, slots_of,
  node_of, hash_of,
}

module _ (json_text : EntryJson) {S : Type 0} (store : BlobStore S) where
  -- The hash leads to a blob that decodes to the node.
  pub record Reads (s : S) (h : Hash) (node : HamtNode) : Type 0 where
    pub blob : Bytes
    pub found : store.get s h ≡ ok (some blob)
    pub decodes : decode json_text blob h ≡ ok node

  pub read_node-Reads :
      {s : S} {h : Hash} {node : HamtNode}
      → Reads s h node
      → read_node json_text store s h ≡ ok node
  unfolding read_node
  read_node-Reads r = rw (r.found, r.decodes)

  abbrev mutual
    pub Stored : S → Hash → Trie → Type 0
    Stored s h (leaf_of es) = Reads s h (leaf es)
    Stored s h (branch cs) =
        Reads s h (intermediate (slots_of cs))
        × (length (slots_of cs) ≡ intermediate_fanout)
        × StoredAll s cs

    pub StoredAll : S → Children → Type 0
    StoredAll s end = Unit
    StoredAll s (vacant cs) = StoredAll s cs
    StoredAll s (child h t cs) = Stored s h t × StoredAll s cs

  -- `None` stands for a tree that was never built.
  abbrev pub Rooted : S → Option Hash → Trie → Type 0
  Rooted s none t = t ≡ leaf_of []
  Rooted s (some h) t = Stored s h t

  pub Stored-Reads : (s : S) (h : Hash) (t : Trie) → Stored s h t → Reads s h (node_of t)
  Stored-Reads s h (leaf_of es) r = r
  Stored-Reads s h (branch cs) r = r.0

  pub load-Rooted :
      (s : S) (root : Option Hash) (t : Trie)
      → Rooted s root t
      → load json_text store root s ≡ ok (node_of t)
  unfolding load
  load-Rooted s none t r = rw r
  load-Rooted s (some h) t r = read_node-Reads (Stored-Reads s h t r)

  pub Rooted-child_at :
      (s : S) (cs : Children) (b : ℕ)
      → StoredAll s cs
      → Rooted s (hash_of (child_at cs b)) (subtree (child_at cs b))
  Rooted-child_at s end b r = refl
  Rooted-child_at s (vacant cs) zero r = refl
  Rooted-child_at s (vacant cs) (suc b) r = Rooted-child_at s cs b r
  Rooted-child_at s (child h t cs) zero r = r.0
  Rooted-child_at s (child h t cs) (suc b) r = Rooted-child_at s cs b r.1

  pub StoredAll-set_child :
      (s : S) (cs : Children) (b : ℕ) (h : Hash) (t : Trie)
      → StoredAll s cs
      → Stored s h t
      → StoredAll s (set_child cs b h t)
  StoredAll-set_child s end b h t r n = tt
  StoredAll-set_child s (vacant cs) zero h t r n = (n, r)
  StoredAll-set_child s (vacant cs) (suc b) h t r n = StoredAll-set_child s cs b h t r n
  StoredAll-set_child s (child h' u cs) zero h t r n = (n, r.1)
  StoredAll-set_child s (child h' u cs) (suc b) h t r n =
      (r.0, StoredAll-set_child s cs b h t r.1 n)

  module _ (laws : StoreLaws store) where
    Reads-Grows :
        {s s' : S} {h : Hash} {node : HamtNode}
        → Grows laws s s'
        → laws.Valid s'
        → Reads s h node
        → Reads s' h node
    Reads-Grows {h = h} g v r = record {
      blob = r.blob;
      found = g.kept h r.blob v r.found;
      decodes = r.decodes;
    }

    mutual
      Stored-Grows' :
          {s s' : S}
          → Grows laws s s'
          → laws.Valid s'
          → (h : Hash) (t : Trie) → Stored s h t
          → Stored s' h t
      Stored-Grows' g v h (leaf_of es) r = Reads-Grows g v r
      Stored-Grows' g v h (branch cs) r = (Reads-Grows g v r.0, r.1, StoredAll-Grows' g v cs r.2)

      StoredAll-Grows' :
          {s s' : S}
          → Grows laws s s'
          → laws.Valid s'
          → (cs : Children) → StoredAll s cs
          → StoredAll s' cs
      StoredAll-Grows' g v end r = tt
      StoredAll-Grows' g v (vacant cs) r = StoredAll-Grows' g v cs r
      StoredAll-Grows' g v (child h t cs) r =
          (Stored-Grows' g v h t r.0, StoredAll-Grows' g v cs r.1)

    -- Every slot of a stored node has an address that the format can hold.
    pub StoredAll-slots :
        (s : S) (cs : Children) → laws.Valid s → StoredAll s cs → All IsSlot (slots_of cs)
    StoredAll-slots s end v r = tt
    StoredAll-slots s (vacant cs) v r = (tt, StoredAll-slots s cs v r)
    StoredAll-slots s (child h t cs) v r =
        let read = Stored-Reads s h t r.0 in
        (laws.get-IsAddress s h read.blob v read.found, StoredAll-slots s cs v r.1)

    -- What `put_node` writes.
    abbrev pub node_address : HamtNode → Hash
    node_address node = laws.address (encode json_text node)

    abbrev pub with_node : HamtNode → S → S
    with_node node s = laws.stored (encode json_text node) s

    pub put_node_lem :
        (node : HamtNode) (s : S)
        → put_node json_text store node s ≡ (ok (node_address node), with_node node s)
    unfolding put_node
    put_node_lem node s = rw (laws.put_lem (encode json_text node) s)

    pub Reads-put :
        (node : HamtNode) (s : S)
        → IsEncodable node
        → Reads (with_node node s) (node_address node) node
    Reads-put node s e = record {
      blob = encode json_text node;
      found = laws.get-stored (encode json_text node) s;
      decodes = decode-encode json_text node (node_address node) e;
    }

    -- The headlines of the block above.
    pub Stored-Grows :
        {s s' : S} (h : Hash) (t : Trie)
        → Grows laws s s'
        → laws.Valid s'
        → Stored s h t
        → Stored s' h t
    Stored-Grows h t g v r = Stored-Grows' g v h t r

    pub StoredAll-Grows :
        {s s' : S} (cs : Children)
        → Grows laws s s'
        → laws.Valid s'
        → StoredAll s cs
        → StoredAll s' cs
    StoredAll-Grows cs g v r = StoredAll-Grows' g v cs r
