-- ===== src/Hamt/Writes.antt =====
-- The writing operations of crates/registry-core/src/hamt.rs stay within their fuel on every store.
use commonsdb_iroh_service.Prelude.{
  ℕ, zero, suc, ◌+◌, ◌<◌, ◌≡◌, refl, Bool-cases, Option-cases, inl, inr, Option, none, some, List,
  [], ◌∷◌, ◌++◌, length, get_or, set, leb, arith,
}
use commonsdb_iroh_service.Prelude.Bytes.{Bytes}
use commonsdb_iroh_service.Record.{Hash, LeafEntry}
use commonsdb_iroh_service.External.{Sha256, EntryJson}
use commonsdb_iroh_service.Partition.{key_digest, descent_byte}
use commonsdb_iroh_service.BlobStore.{BlobStore}
use commonsdb_iroh_service.Exec.{Result, ok, err, Exec, pure, lift, asks, continue, ◌>>=◌}
use commonsdb_iroh_service.Hamt.{
  HamtError, HamtNode, leaf, intermediate, find, sort_by_key, contains, byte_at, distribute,
  push_bucket, put_node, put_buckets, split_leaf, insert_leaf, load, insert_intermediate, insert_at,
  insert_one, insert_all, root_or_empty, empty_leaf, hamt_fuel,
}
use commonsdb_iroh_service.Hamt.Fuel.{
  Fueled, Fueled-ok, Fueled-and_then, Fueled-err, Fueled-map_err, Fueled-ok_or, shallow,
  read_node-Fueled,
}

-- The action never ends in the model's own error.
pub record Runs {S A : Type 0} (m : Exec HamtError S A) : Type 0 where
  pub at : (s : S) → Fueled (m s).0

Fueled-continue :
    {S A B : Type 0} (r : Result HamtError A) (f : A → Exec HamtError S B) (s : S)
    → Fueled r
    → ((a : A) → Runs (f a))
    → Fueled (continue r f s).0
Fueled-continue (ok a) f s g k = (k a).at s
Fueled-continue (err e) f s g k = Fueled-err (err e) e g refl

pub Runs-bind :
    {S A B : Type 0} (m : Exec HamtError S A) (f : A → Exec HamtError S B)
    → Runs m
    → ((a : A) → Runs (f a))
    → Runs (m >>= f)
Runs-bind m f g k = record { at = λ s. Fueled-continue (m s).0 f (m s).1 (g.at s) k }

pub Runs-lift : {S A : Type 0} (r : Result HamtError A) → Fueled r → Runs {S = S} (lift r)
Runs-lift r g = record { at = λ s. g }

pub Runs-asks :
    {S A : Type 0} (f : S → Result HamtError A) → ((s : S) → Fueled (f s)) → Runs (asks f)
Runs-asks f g = record { at = g }

pub Runs-pure : {S A : Type 0} (a : A) → Runs {S = S} (pure a)
Runs-pure a = record { at = λ s. Fueled-ok a }

pub byte_at-Fueled : (digest : Bytes) (depth : ℕ) (key : Bytes) → Fueled (byte_at digest depth key)
unfolding byte_at
byte_at-Fueled digest depth key = Fueled-ok_or (descent_byte digest depth) _ (λ same. cc)

distribute-Fueled :
    (sha : Sha256) (depth : ℕ) (es : List LeafEntry) (buckets : List (List LeafEntry))
    → Fueled (distribute sha depth es buckets)
unfolding distribute
distribute-Fueled sha depth [] buckets = Fueled-ok buckets
distribute-Fueled sha depth (e ∷ es) buckets =
    Fueled-and_then _ _ (byte_at-Fueled (key_digest sha e.key) depth e.key)
      (λ b. distribute-Fueled sha depth es (push_bucket buckets b e))

module _ (sha : Sha256) (json_text : EntryJson) {S : Type 0} (store : BlobStore S) where
  pub put_node-Runs : (node : HamtNode) → Runs (put_node json_text store node)
  unfolding put_node
  put_node-Runs node = record { at = λ s. Fueled-map_err _ (store.put _ s).0 (λ e same. cc) }

  put_buckets-Runs : (bs : List (List LeafEntry)) → Runs (put_buckets json_text store bs)
  unfolding put_buckets
  put_buckets-Runs [] = Runs-pure []
  put_buckets-Runs ([] ∷ bs) = Runs-bind _ _ (put_buckets-Runs bs) (λ slots. Runs-pure _)
  put_buckets-Runs ((e ∷ es) ∷ bs) =
      Runs-bind _ _ (put_node-Runs (leaf (e ∷ es)))
        (λ h. Runs-bind _ _ (put_buckets-Runs bs) (λ slots. Runs-pure _))

  split_leaf-Runs :
      (depth : ℕ) (es : List LeafEntry) → Runs (split_leaf sha json_text store depth es)
  unfolding split_leaf
  split_leaf-Runs depth es =
      Runs-bind _ _ (Runs-lift _ (distribute-Fueled sha depth es _))
        (λ bs. Runs-bind _ _ (put_buckets-Runs bs) (λ slots. put_node-Runs (intermediate slots)))

  load-Fueled : (root : Option Hash) (s : S) → Fueled (load json_text store root s)
  unfolding load
  load-Fueled none s = Fueled-ok empty_leaf
  load-Fueled (some h) s = read_node-Fueled json_text store s h

  module _ (entry : LeafEntry) (leaf_max_entries : ℕ) where
    insert_leaf-Runs :
        (node_hash : Option Hash) (depth : ℕ) (es : List LeafEntry)
        → Runs (insert_leaf sha json_text store node_hash depth es entry leaf_max_entries)
    unfolding insert_leaf
    insert_leaf-Runs node_hash depth es =
        let sorted = sort_by_key (es ++ entry ∷ []) in
        elim (Option-cases (find entry.key es)) [
          | inr (f, there) ↦
              rw (there, insert_leaf) (Runs-lift _ (Fueled-ok_or node_hash _ (λ same. cc)))
          | inl absent ↦
              rw (absent, insert_leaf)
                (elim (Bool-cases (leb (length sorted) leaf_max_entries)) [
                  | inl room ↦ rw room (put_node-Runs (leaf sorted))
                  | inr full ↦ rw full (split_leaf-Runs depth sorted)
                ])
        ]

    -- The child is one level deeper, unless the digest ends here.
    insert_intermediate-Runs :
        (insert_child : Option Hash → Exec HamtError S Hash) (slots : List (Option Hash))
        (depth : ℕ) (digest : Bytes)
        → length digest ≡ 32
        → (1 + depth < 32 → (child : Option Hash) → Runs (insert_child child))
        → Runs (insert_intermediate json_text store insert_child slots depth digest entry.key)
    unfolding insert_intermediate byte_at
    insert_intermediate-Runs insert_child slots depth digest l g =
        elim (Option-cases (descent_byte digest depth)) [
          | inl out ↦
              rw (insert_intermediate, out) record { at = λ s. record { enough = λ same. cc } }
          | inr (b, there) ↦
              rw (insert_intermediate, there)
                (Runs-bind _ _ (g (shallow digest depth b l there) (get_or slots b none))
                  (λ h. put_node-Runs (intermediate (set slots b (some h)))))
        ]

    insert_at-Runs :
        (fuel : ℕ) (node_hash : Option Hash) (depth : ℕ) (digest : Bytes)
        → length digest ≡ 32
        → 32 < fuel + depth
        → depth < 32
        → Runs (insert_at sha json_text store fuel node_hash depth digest entry leaf_max_entries)
    unfolding insert_at
    insert_at-Runs zero node_hash depth digest l deep high = absurd (omega (arith, deep, high))
    insert_at-Runs (suc fuel) node_hash depth digest l deep high =
        Runs-bind {A = HamtNode} _ _
          (Runs-asks (load json_text store node_hash) (load-Fueled node_hash))
          (λ node.
            elim node
              as (λ n. Runs {S = S} {A = Hash} (elim n [
                | leaf entries ↦
                    insert_leaf sha json_text store node_hash depth entries entry leaf_max_entries
                | intermediate slots ↦
                    insert_intermediate json_text store
                      (λ child.
                        insert_at sha json_text store fuel child (depth + 1) digest entry
                          leaf_max_entries)
                      slots depth digest entry.key
              ])) [
                | leaf es ↦ insert_leaf-Runs node_hash depth es
                | intermediate slots ↦
                    insert_intermediate-Runs _ slots depth digest l (λ deeper child.
                      insert_at-Runs fuel child (depth + 1) digest l (omega arith) (omega arith))
              ])

  pub insert_all-Runs :
      (root : Option Hash) (es : List LeafEntry) (leaf_max_entries : ℕ) (denylist : List Bytes)
      → Runs (insert_all sha json_text store root es leaf_max_entries denylist)
  unfolding insert_all insert_one key_digest
  insert_all-Runs root [] leaf_max_entries denylist = Runs-pure root
  insert_all-Runs root (e ∷ es) leaf_max_entries denylist =
      elim (Bool-cases (contains denylist e.key)) [
        | inl denied ↦ rw (denied, insert_all) (insert_all-Runs root es leaf_max_entries denylist)
        | inr allowed ↦
            rw (allowed, insert_all)
              (Runs-bind _ _
                (insert_at-Runs e leaf_max_entries hamt_fuel root 0 (key_digest sha e.key)
                  (sha.length-digest e.key) (omega arith) (omega arith))
                (λ h. insert_all-Runs (some h) es leaf_max_entries denylist))
      ]

  pub root_or_empty-Runs :
      (current : Option Hash) → Runs (root_or_empty sha json_text store current)
  unfolding root_or_empty
  root_or_empty-Runs (some h) = Runs-pure h
  root_or_empty-Runs none = put_node-Runs empty_leaf
