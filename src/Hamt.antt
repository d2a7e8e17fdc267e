-- ===== src/Hamt.antt =====
-- crates/registry-core/src/hamt.rs: the hash array mapped trie of one partition, over a blob store.
-- This file has the node type and the operations; the children have the codec's proofs, the tree
-- that a root stands for, and what each operation does to it.
--
-- `.await?` is the bind of `Exec`. The recursions and the loop of `lookup` go down one level at a
-- time and take fuel; a descent byte exists at depths 0 to 30 only.
pub mod Codec
pub mod Entries
pub mod Trie
pub mod Placed
pub mod Stored
pub mod Lookup
pub mod Buckets
pub mod Built
pub mod Split
pub mod Extends
pub mod Insert
pub mod Growing
pub mod FirstWrite
pub mod Batch
pub mod Walk
pub mod Bulk
pub mod Fuel
pub mod Writes
pub mod Bounded
use commonsdb_iroh_service.Prelude.{
  ℕ, zero, suc, ◌+◌, ◌*◌, Bool, true, false, ◌||◌, Option, none, some, List, [], ◌∷◌, ◌++◌, map,
  String, length, get_or, set, take, drop, replicate, leb, ◌==◌, if◌then◌else◌,
}
use commonsdb_iroh_service.Prelude.Bytes.{Bytes, bytes_eq, bytes_le}
use commonsdb_iroh_service.Record.{Hash, zero_hash, LeafEntry, is_zero}
use commonsdb_iroh_service.External.{Sha256, EntryJson}
use commonsdb_iroh_service.Partition.{descent_byte, key_digest}
use commonsdb_iroh_service.BlobStore.{BlobStore, BlobStoreError}
use commonsdb_iroh_service.Exec.{
  Result, ok, err, map_err, ok_or, and_then, Exec, pure, raise, lift, asks, ◌>>=◌,
}

abbrev pub intermediate_fanout : ℕ
intermediate_fanout = 256

abbrev pub tag_leaf : ℕ
tag_leaf = 0

abbrev pub tag_intermediate : ℕ
tag_intermediate = 1

-- The text of `CorruptNode`.
pub data Corruption : Type 0 where
  json : String → Corruption
  intermediate_length : ℕ → ℕ → Corruption
  unrecognized_tag : Corruption
  entry_without_hash : Corruption

-- `out_of_fuel` is the model's own: the recursion went deeper than its fuel.
pub data HamtError : Type 0 where
  blob_store : BlobStoreError → HamtError
  corrupt_node : Hash → Corruption → HamtError
  missing_node : Hash → HamtError
  depth_exhausted : Bytes → ℕ → HamtError
  out_of_fuel : HamtError

pub data HamtNode : Type 0 where
  leaf : List LeafEntry → HamtNode
  intermediate : List (Option Hash) → HamtNode

abbrev pub empty_leaf : HamtNode
empty_leaf = leaf []

-- The first entry with this key: `iter().find(|e| e.key == key)`.
unfoldable pub find : Bytes → List LeafEntry → Option LeafEntry
find key [] = none
find key (e ∷ es) = if bytes_eq e.key key then some e else find key es

-- `HashSet<String>::contains`
unfoldable pub contains : List Bytes → Bytes → Bool
contains [] key = false
contains (k ∷ keys) key = bytes_eq k key || contains keys key

-- `sort_by(|a, b| a.key.cmp(&b.key))`, a stable sort.
unfoldable pub insert_sorted : LeafEntry → List LeafEntry → List LeafEntry
insert_sorted e [] = e ∷ []
insert_sorted e (f ∷ es) = if bytes_le e.key f.key then e ∷ f ∷ es else f ∷ insert_sorted e es

unfoldable pub sort_by_key : List LeafEntry → List LeafEntry
unfolding insert_sorted
sort_by_key [] = []
sort_by_key (e ∷ es) = insert_sorted e (sort_by_key es)

-- Encoding.

unfoldable pub slot_bytes : Option Hash → Bytes
unfolding replicate
slot_bytes none = replicate 32 0
slot_bytes (some h) = h

unfoldable pub slots_bytes : List (Option Hash) → Bytes
unfolding slot_bytes
slots_bytes [] = []
slots_bytes (slot ∷ slots) = slot_bytes slot ++ slots_bytes slots

-- `bytes.split(|&b| b == b'\n')`
unfoldable pub cons_first : ℕ → List Bytes → List Bytes
cons_first b [] = (b ∷ []) ∷ []
cons_first b (line ∷ lines) = (b ∷ line) ∷ lines

unfoldable pub split_lines : Bytes → List Bytes
unfolding cons_first
split_lines [] = [] ∷ []
split_lines (b ∷ bytes) =
    let lines = split_lines bytes in if b == 10 then [] ∷ lines else cons_first b lines

-- The slot that 32 bytes stand for.
unfoldable pub slot_of : Bytes → Option Hash
unfolding is_zero
slot_of h = if is_zero h then none else some h

unfoldable pub slots_of_bytes : ℕ → Bytes → List (Option Hash)
unfolding slot_of
slots_of_bytes zero bytes = []
slots_of_bytes (suc n) bytes = slot_of (take 32 bytes) ∷ slots_of_bytes n (drop 32 bytes)

module _ (json_text : EntryJson) where
  unfoldable pub lines_bytes : List LeafEntry → Bytes
  lines_bytes [] = []
  lines_bytes (e ∷ es) = json_text.to_json e ++ 10 ∷ lines_bytes es

  unfoldable pub encode : HamtNode → Bytes
  unfolding lines_bytes slots_bytes
  encode (leaf es) = tag_leaf ∷ lines_bytes es
  encode (intermediate slots) = tag_intermediate ∷ slots_bytes slots

  unfoldable pub decode_line : Bytes → Hash → Result HamtError LeafEntry
  decode_line line node_hash =
      map_err (λ e. corrupt_node node_hash (json e)) (json_text.from_json line)

  unfoldable pub decode_lines : List Bytes → Hash → Result HamtError (List LeafEntry)
  unfolding decode_line
  decode_lines [] node_hash = ok []
  decode_lines ([] ∷ lines) node_hash = decode_lines lines node_hash
  decode_lines ((b ∷ line) ∷ lines) node_hash =
      let rest = decode_lines lines node_hash in
      and_then (decode_line (b ∷ line) node_hash)
        λ entry. and_then rest λ entries. ok (entry ∷ entries)

  unfoldable pub decode_intermediate : Bytes → Hash → Result HamtError HamtNode
  decode_intermediate body node_hash =
      let expected = 1 + intermediate_fanout * 32 in
      if length body + 1 == expected
      then ok (intermediate (slots_of_bytes intermediate_fanout body))
      else err (corrupt_node node_hash (intermediate_length expected (length body + 1)))

  unfoldable pub decode : Bytes → Hash → Result HamtError HamtNode
  decode [] node_hash = err (corrupt_node node_hash unrecognized_tag)
  decode (tag ∷ body) node_hash =
      if tag == tag_leaf
      then and_then (decode_lines (split_lines body) node_hash) (λ entries. ok (leaf entries))
      else if tag == tag_intermediate
      then decode_intermediate body node_hash
      else err (corrupt_node node_hash unrecognized_tag)

-- The descent byte of a digest, or the error that the operations raise without one.
unfoldable pub byte_at : Bytes → ℕ → Bytes → Result HamtError ℕ
unfolding descent_byte
byte_at digest depth key = ok_or (descent_byte digest depth) (depth_exhausted key depth)

-- `buckets[b].push(e)`
unfoldable pub push_bucket : {A : Type 0} → List (List A) → ℕ → A → List (List A)
push_bucket buckets b e = set buckets b (get_or buckets b [] ++ e ∷ [])

abbrev pub hamt_fuel : ℕ
hamt_fuel = 33

-- `match slots[b] { Some(child) => descend, None => return Ok(None) }`
abbrev pub lookup_child :
    (Hash → Result HamtError (Option LeafEntry)) → Option Hash → Result HamtError (Option LeafEntry)
lookup_child descend none = ok none
lookup_child descend (some child) = descend child

-- Redistribution by the next descent byte.
module _ (sha : Sha256) (depth : ℕ) where
  unfoldable pub distribute :
      List LeafEntry → List (List LeafEntry) → Result HamtError (List (List LeafEntry))
  unfolding byte_at key_digest push_bucket
  distribute [] buckets = ok buckets
  distribute (e ∷ es) buckets =
      and_then (byte_at (key_digest sha e.key) depth e.key)
        λ b. distribute es (push_bucket buckets b e)

module _ (json_text : EntryJson) {S : Type 0} (store : BlobStore S) where
  -- `store.put(node.encode()).await?`
  unfoldable pub put_node : HamtNode → Exec HamtError S Hash
  put_node node s = let (r, s') = store.put (encode json_text node) s in (map_err blob_store r, s')

  -- `store.get(&h).await?.ok_or(MissingNode(h))?` and then `decode`.
  unfoldable pub read_node : S → Hash → Result HamtError HamtNode
  read_node s h =
      and_then (map_err blob_store (store.get s h))
        λ found. and_then (ok_or found (missing_node h)) λ bytes. decode json_text bytes h

  unfoldable pub lookup_from :
      S → ℕ → Hash → ℕ → Bytes → Bytes → Result HamtError (Option LeafEntry)
  lookup_from s zero node_hash depth digest key = err out_of_fuel
  lookup_from s (suc fuel) node_hash depth digest key = and_then (read_node s node_hash) λ node.
      elim node [
        | leaf entries ↦ ok (find key entries)
        | intermediate slots ↦ and_then (byte_at digest depth key) λ b.
            lookup_child (λ child. lookup_from s fuel child (depth + 1) digest key)
              (get_or slots b none)
      ]

  -- Each non-empty bucket becomes a leaf.
  unfoldable pub put_buckets : List (List LeafEntry) → Exec HamtError S (List (Option Hash))
  put_buckets [] = pure []
  put_buckets ([] ∷ buckets) = do slots ← put_buckets buckets; pure (none ∷ slots)
  put_buckets ((e ∷ es) ∷ buckets) = do
    h ← put_node (leaf (e ∷ es))
    slots ← put_buckets buckets
    pure (some h ∷ slots)

  unfoldable pub load : Option Hash → S → Result HamtError HamtNode
  load none s = ok empty_leaf
  load (some h) s = read_node s h

  -- `insert_child` is the recursive call one level below.
  unfoldable pub insert_intermediate :
      (Option Hash → Exec HamtError S Hash)
      → List (Option Hash)
      → ℕ
      → Bytes
      → Bytes
      → Exec HamtError S Hash
  insert_intermediate insert_child slots depth digest key = do
    b ← lift (byte_at digest depth key)
    new_child ← insert_child (get_or slots b none)
    put_node (intermediate (set slots b (some new_child)))

module _ (sha : Sha256) (json_text : EntryJson) {S : Type 0} (store : BlobStore S) where
  unfoldable pub lookup : S → Option Hash → Bytes → Result HamtError (Option LeafEntry)
  lookup s none key = ok none
  lookup s (some root) key = lookup_from json_text store s hamt_fuel root 0 (key_digest sha key) key

  -- The leaf-to-intermediate conversion.
  unfoldable pub split_leaf : ℕ → List LeafEntry → Exec HamtError S Hash
  split_leaf depth entries = do
    buckets ← lift (distribute sha depth entries (replicate intermediate_fanout []))
    slots ← put_buckets json_text store buckets
    put_node json_text store (intermediate slots)

  unfoldable pub insert_leaf :
      Option Hash → ℕ → List LeafEntry → LeafEntry → ℕ → Exec HamtError S Hash
  insert_leaf node_hash depth entries entry leaf_max_entries = elim (find entry.key entries) [
    | some _ ↦ lift (ok_or node_hash (corrupt_node zero_hash entry_without_hash))
    | none ↦
        let sorted = sort_by_key (entries ++ entry ∷ []) in
        if leb (length sorted) leaf_max_entries
        then put_node json_text store (leaf sorted)
        else split_leaf depth sorted
  ]

  unfoldable pub insert_at : ℕ → Option Hash → ℕ → Bytes → LeafEntry → ℕ → Exec HamtError S Hash
  insert_at zero node_hash depth digest entry leaf_max_entries = raise out_of_fuel
  insert_at (suc fuel) node_hash depth digest entry leaf_max_entries = do
    node ← asks (load json_text store node_hash)
    elim node [
      | leaf entries ↦ insert_leaf node_hash depth entries entry leaf_max_entries
      | intermediate slots ↦
          insert_intermediate json_text store
            (λ child. insert_at fuel child (depth + 1) digest entry leaf_max_entries) slots depth
            digest entry.key
    ]

  unfoldable pub insert_one : Option Hash → LeafEntry → ℕ → Exec HamtError S Hash
  insert_one root entry leaf_max_entries =
      insert_at hamt_fuel root 0 (key_digest sha entry.key) entry leaf_max_entries

  -- The loop of `insert_batch`; the denylist is a set of keys.
  unfoldable pub insert_all :
      Option Hash → List LeafEntry → ℕ → List Bytes → Exec HamtError S (Option Hash)
  insert_all current [] leaf_max_entries denylist = pure current
  insert_all current (entry ∷ entries) leaf_max_entries denylist =
      elim (contains denylist entry.key) [
        | true ↦ insert_all current entries leaf_max_entries denylist
        | false ↦ do
          h ← insert_one current entry leaf_max_entries
          insert_all (some h) entries leaf_max_entries denylist
      ]

  -- A partition with no entry at all gets an empty leaf.
  unfoldable pub root_or_empty : Option Hash → Exec HamtError S Hash
  root_or_empty (some h) = pure h
  root_or_empty none = put_node json_text store empty_leaf

  unfoldable pub insert_batch :
      Option Hash → List LeafEntry → ℕ → List Bytes → Exec HamtError S Hash
  insert_batch root entries leaf_max_entries denylist = do
    current ← insert_all root entries leaf_max_entries denylist
    root_or_empty current
