-- ===== src/Hamt/Bounded.antt =====
-- The bulk build of crates/registry-core/src/hamt.rs and the writing and reading operations stay within
-- their fuel on every store.
use commonsdb_iroh_service.Prelude.{
  ℕ, zero, suc, ◌+◌, ◌<◌, ◌≡◌, ◌≢◌, sym, Bool-cases, Option-cases, inl, inr, Option, none, some,
  List, [], ◌∷◌, ◌++◌, length, get_or, set, replicate, All, All-append, leb, le→leb, arith,
}
use commonsdb_iroh_service.Prelude.Bytes.{Bytes}
use commonsdb_iroh_service.Record.{Hash, LeafEntry}
use commonsdb_iroh_service.External.{Sha256, EntryJson}
use commonsdb_iroh_service.Partition.{key_digest, descent_byte}
use commonsdb_iroh_service.BlobStore.{BlobStore}
use commonsdb_iroh_service.Exec.{ok, err, Exec, Result-cases}
use commonsdb_iroh_service.Hamt.{
  HamtError, out_of_fuel, leaf, intermediate, contains, sort_by_key, push_bucket, byte_at,
  hamt_fuel, lookup, insert_batch,
}
use commonsdb_iroh_service.Hamt.Bulk.{
  Digested, unique_entries, entries_only, distribute_digested, build_slots, build_subtree,
  build_from_entries,
}
use commonsdb_iroh_service.Hamt.Fuel.{
  Fueled, Fueled-ok, Fueled-and_then, Fueled-err, shallow, lookup_from-Fueled,
}
use commonsdb_iroh_service.Hamt.Writes.{
  byte_at-Fueled, Runs, Runs-bind, Runs-pure, Runs-lift, put_node-Runs, insert_all-Runs,
  root_or_empty-Runs,
}

abbrev Sized : Digested → Type 0
Sized d = length d.1 ≡ 32

unique_entries-Sized :
    (sha : Sha256) (seen : List Bytes) (es : List LeafEntry)
    → All Sized (unique_entries sha seen es)
unfolding unique_entries key_digest
unique_entries-Sized sha seen [] = tt
unique_entries-Sized sha seen (e ∷ es) = elim (Bool-cases (contains seen e.key)) [
  | inl known ↦ rw (unique_entries, known) (unique_entries-Sized sha seen es)
  | inr fresh ↦
      rw (unique_entries, fresh)
        (sha.length-digest e.key, unique_entries-Sized sha (e.key ∷ seen) es)
]

get_or-Sized : (bs : List (List Digested)) (b : ℕ) → All (All Sized) bs → All Sized (get_or bs b [])
get_or-Sized [] b h = tt
get_or-Sized (x ∷ bs) zero h = h.0
get_or-Sized (x ∷ bs) (suc b) h = get_or-Sized bs b h.1

set-Sized :
    (bs : List (List Digested)) (b : ℕ) (es : List Digested)
    → All (All Sized) bs
    → All Sized es
    → All (All Sized) (set bs b es)
set-Sized [] b es h k = tt
set-Sized (x ∷ bs) zero es h k = (k, h.1)
set-Sized (x ∷ bs) (suc b) es h k = (h.0, set-Sized bs b es h.1 k)

replicate-Sized : (n : ℕ) → All (All Sized) (replicate n [])
unfolding replicate
replicate-Sized zero = tt
replicate-Sized (suc n) = (tt, replicate-Sized n)

push-Sized :
    (bs : List (List Digested)) (b : ℕ) (d : Digested)
    → All (All Sized) bs
    → Sized d
    → All (All Sized) (push_bucket bs b d)
unfolding push_bucket
push-Sized bs b d h k =
    set-Sized bs b (get_or bs b [] ++ d ∷ []) h
      (All-append Sized (get_or bs b []) (d ∷ []) (get_or-Sized bs b h) (k, tt))

distribute_digested-Sized :
    (depth : ℕ) (es : List Digested) (bs bs' : List (List Digested))
    → All Sized es
    → All (All Sized) bs
    → distribute_digested depth es bs ≡ ok bs'
    → All (All Sized) bs'
unfolding distribute_digested byte_at
distribute_digested-Sized depth [] bs bs' k h e = let same : bs ≡ bs' = cc in rw (sym same) h
distribute_digested-Sized depth (d ∷ es) bs bs' k h e =
    elim (Option-cases (descent_byte d.1 depth)) [
      | inl out ↦ absurd (let failed = (rw out at e) in cc)
      | inr (b, there) ↦
          distribute_digested-Sized depth es (push_bucket bs b d) bs' k.1 (push-Sized bs b d h k.0)
            (let rest = (rw there at e) in rest)
    ]

-- Entries are only distributed where their digests still have a byte.
distributed_shallow :
    (depth : ℕ) (d : Digested) (es : List Digested) (bs bs' : List (List Digested))
    → Sized d
    → distribute_digested depth (d ∷ es) bs ≡ ok bs'
    → 1 + depth < 32
unfolding distribute_digested byte_at
distributed_shallow depth d es bs bs' k e = elim (Option-cases (descent_byte d.1 depth)) [
  | inl out ↦ absurd (let failed = (rw out at e) in cc)
  | inr (b, there) ↦ shallow d.1 depth b k there
]

distribute_digested-Fueled :
    (depth : ℕ) (es : List Digested) (bs : List (List Digested))
    → Fueled (distribute_digested depth es bs)
unfolding distribute_digested
distribute_digested-Fueled depth [] bs = Fueled-ok bs
distribute_digested-Fueled depth ((e, digest) ∷ es) bs =
    Fueled-and_then _ _ (byte_at-Fueled digest depth e.key)
      (λ b. distribute_digested-Fueled depth es (push_bucket bs b (e, digest)))

build_slots-Runs :
    {S : Type 0} (build : List Digested → Exec HamtError S Hash) (bs : List (List Digested))
    → All (All Sized) bs
    → ((es : List Digested) → All Sized es → Runs (build es))
    → Runs (build_slots build bs)
unfolding build_slots
build_slots-Runs build [] h g = Runs-pure []
build_slots-Runs build ([] ∷ bs) h g =
    Runs-bind _ _ (build_slots-Runs build bs h.1 g) (λ slots. Runs-pure _)
build_slots-Runs build ((e ∷ es) ∷ bs) h g =
    Runs-bind _ _ (g (e ∷ es) h.0)
      (λ root. Runs-bind _ _ (build_slots-Runs build bs h.1 g) (λ slots. Runs-pure _))

module _ (sha : Sha256) (json_text : EntryJson) {S : Type 0} (store : BlobStore S)
    (leaf_max_entries : ℕ) where
  build_subtree-Runs :
      (fuel : ℕ) (es : List Digested) (depth : ℕ)
      → All Sized es
      → 32 < fuel + depth
      → depth < 32
      → Runs (build_subtree json_text store leaf_max_entries fuel es depth)
  unfolding build_subtree
  build_subtree-Runs zero es depth k deep high = absurd (omega (arith, deep, high))
  build_subtree-Runs (suc fuel) [] depth k deep high =
      rw (build_subtree, le→leb 0 leaf_max_entries (omega arith))
        (put_node-Runs sha json_text store (leaf (sort_by_key [])))
  build_subtree-Runs (suc fuel) (d ∷ es) depth k deep high =
      elim (Bool-cases (leb (length (d ∷ es)) leaf_max_entries)) [
        | inl room ↦
            rw (build_subtree, room)
              (put_node-Runs sha json_text store (leaf (sort_by_key (entries_only (d ∷ es)))))
        | inr full ↦ elim (Result-cases (distribute_digested depth (d ∷ es) (replicate 256 []))) [
          | inr (e, failed) ↦
              rw (build_subtree, full, failed)
                (Runs-lift (err e) (
                  Fueled-err _ e (distribute_digested-Fueled depth (d ∷ es) (replicate 256 []))
                    failed))
          | inl (bs, spread) ↦
              let deeper = distributed_shallow depth d es (replicate 256 []) bs k.0 spread in
              let sized =
                distribute_digested-Sized depth (d ∷ es) (replicate 256 []) bs k
                  (replicate-Sized 256) spread in
              rw (build_subtree, full, spread)
                (Runs-bind _ _
                  (build_slots-Runs _ bs sized (λ bucket h.
                    build_subtree-Runs fuel bucket (depth + 1) h (omega arith)
                      (omega (arith, deeper))))
                  (λ slots. put_node-Runs sha json_text store (intermediate slots)))
        ]
      ]

  lookup-Fueled :
      (s : S) (root : Option Hash) (key : Bytes) → Fueled (lookup sha json_text store s root key)
  unfolding lookup key_digest
  lookup-Fueled s none key = Fueled-ok none
  lookup-Fueled s (some root) key =
      lookup_from-Fueled json_text store s hamt_fuel root 0 (key_digest sha key) key
        (sha.length-digest key) (omega arith) (omega arith)

  -- On every store, whatever its blobs are, a lookup, a batch and a bulk build end within their fuel: none
  -- of them results in `out_of_fuel`, the model's own error.
  pub never_out_of_fuel :
      (s : S) (root : Option Hash) (key : Bytes) (es : List LeafEntry) (denylist : List Bytes)
      → (lookup sha json_text store s root key ≢ err out_of_fuel)
        × (((insert_batch sha json_text store root es leaf_max_entries denylist s).0
              ≢ err out_of_fuel)
            × ((build_from_entries json_text store leaf_max_entries sha es s).0 ≢ err out_of_fuel))
  unfolding insert_batch build_from_entries
  never_out_of_fuel s root key es denylist =
      let batch : Runs (insert_batch sha json_text store root es leaf_max_entries denylist) =
        Runs-bind _ _ (insert_all-Runs sha json_text store root es leaf_max_entries denylist)
          (root_or_empty-Runs sha json_text store) in
      let built =
        build_subtree-Runs hamt_fuel (unique_entries sha [] es) 0 (unique_entries-Sized sha [] es)
          (omega arith) (omega arith) in
      ((lookup-Fueled s root key).enough, ((batch.at s).enough, (built.at s).enough))
