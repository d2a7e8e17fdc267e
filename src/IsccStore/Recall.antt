-- ===== src/IsccStore/Recall.antt =====
-- What a search finds after an insertion: `insert_batch` and `query` of
-- crates/registry-core/src/iscc_store.rs together.
use commonsdb_iroh_service.Prelude.{
  ℕ, zero, suc, ◌≤◌, ◌<◌, ◌≡◌, refl, ap, Option, some, List, [], ◌∷◌, ◌++◌, inl, inr, true, false,
  Bool-cases, All, get_elem?, arith,
}
use commonsdb_iroh_service.Prelude.Bytes.{Bytes, bytes_eq, bytes_eq_iff, eq_of_bytes_eq}
use commonsdb_iroh_service.BTree.{tree_get, get-insert_self, get-insert_ne}
use commonsdb_iroh_service.Record.{Hash}
use commonsdb_iroh_service.BlobStore.{BlobStore, StoreLaws}
use commonsdb_iroh_service.Exec.{ok}
use commonsdb_iroh_service.Similarity.{
  IsccMember, BandParams, BucketId, SimilarityMatch, new_params, hamming, buckets, query_buckets,
  storage_key, verify,
}
use commonsdb_iroh_service.Similarity.Bands.{shared_bucket}
use commonsdb_iroh_service.Similarity.Best.{Some}
use commonsdb_iroh_service.Similarity.Verify.{verify_complete}
use commonsdb_iroh_service.IsccStore.{
  IndexJson, Directory, same_member, any_same, bucket_members, group_by_bucket, push_to_buckets,
  push_to_bucket, or_empty, insert_batch,
}
use commonsdb_iroh_service.IsccStore.Query.{mem_key, retain_new, gather, query_directory, query}
use commonsdb_iroh_service.IsccStore.Bucket.{any_same-left, any_same_right, any_same_here}
use commonsdb_iroh_service.IsccStore.Batch.{Holds, batch_of, insert_batch-Added}

same_member_eq : (a b : IsccMember) → same_member a b ≡ true → a ≡ b
unfolding same_member
same_member_eq a b h =
    let keys : a.key ≡ b.key = eq_of_bytes_eq a.key b.key (ground (arith, h)) in
    let codes : a.content_code ≡ b.content_code = ground (arith, h) in
    λ i. record { key = keys i; content_code = codes i }

-- The rows have a member for a key.
abbrev Has : IsccMember → Bytes → List (Bytes × List IsccMember) → Type 0
Has x key rows = any_same x (or_empty (tree_get key rows)) ≡ true

push_to_bucket-keeps :
    (x m : IsccMember) (key other : Bytes) (rows : List (Bytes × List IsccMember))
    → Has x other rows
    → Has x other (push_to_bucket key m rows)
unfolding push_to_bucket or_empty
push_to_bucket-keeps x m key other rows h =
    let grown = or_empty (tree_get key rows) ++ m ∷ [] in
    elim (Bool-cases (bytes_eq other key)) [
      | inl same ↦
          let eq = eq_of_bytes_eq other key same in
          let h' : Has x key rows = (rw eq at h) in
          rw (eq, get-insert_self key grown rows)
            (any_same-left x (or_empty (tree_get key rows)) (m ∷ []) h')
      | inr ne ↦
          rw (get-insert_ne key other grown rows (ground (arith, bytes_eq_iff other key, ne))) h
    ]

push_to_bucket-here :
    (m : IsccMember) (key : Bytes) (rows : List (Bytes × List IsccMember))
    → Has m key (push_to_bucket key m rows)
unfolding push_to_bucket or_empty
push_to_bucket-here m key rows =
    rw (get-insert_self key (or_empty (tree_get key rows) ++ m ∷ []) rows)
      (any_same_here m (or_empty (tree_get key rows)) [])

push_to_buckets-keeps :
    (x m : IsccMember) (ids : List BucketId) (key : Bytes) (rows : List (Bytes × List IsccMember))
    → Has x key rows
    → Has x key (push_to_buckets ids m rows)
unfolding push_to_buckets
push_to_buckets-keeps x m [] key rows h = h
push_to_buckets-keeps x m (id ∷ ids) key rows h =
    push_to_buckets-keeps x m ids key (push_to_bucket (storage_key id) m rows)
      (push_to_bucket-keeps x m (storage_key id) key rows h)

push_to_buckets_here :
    (m : IsccMember) (ids : List BucketId) (id : BucketId) (i : ℕ)
    (rows : List (Bytes × List IsccMember))
    → get_elem? ids i ≡ some id
    → Has m (storage_key id) (push_to_buckets ids m rows)
unfolding push_to_buckets
push_to_buckets_here m [] id i rows h = cc
push_to_buckets_here m (first ∷ ids) id zero rows h =
    let same : first ≡ id = cc in
    push_to_buckets-keeps m m ids (storage_key id) (push_to_bucket (storage_key first) m rows)
      (rw same (push_to_bucket-here m (storage_key id) rows))
push_to_buckets_here m (first ∷ ids) id (suc i) rows h =
    push_to_buckets_here m ids id i (push_to_bucket (storage_key first) m rows) h

group_by_bucket-keeps :
    (params : BandParams) (x : IsccMember) (key : Bytes) (members : List IsccMember)
    (rows : List (Bytes × List IsccMember))
    → Has x key rows
    → Has x key (group_by_bucket params members rows)
unfolding group_by_bucket
group_by_bucket-keeps params x key [] rows h = h
group_by_bucket-keeps params x key (m ∷ members) rows h =
    group_by_bucket-keeps params x key members
      (push_to_buckets (buckets params m.content_code) m rows)
      (push_to_buckets-keeps x m (buckets params m.content_code) key rows h)

-- Every member of the batch is grouped under each of its buckets.
pub group_by_bucket-any_same :
    (params : BandParams) (members : List IsccMember) (rows : List (Bytes × List IsccMember))
    (j : ℕ) (m : IsccMember) (i : ℕ) (id : BucketId)
    → get_elem? members j ≡ some m
    → get_elem? (buckets params m.content_code) i ≡ some id
    → Has m (storage_key id) (group_by_bucket params members rows)
unfolding group_by_bucket
group_by_bucket-any_same params [] rows j m i id h k = cc
group_by_bucket-any_same params (first ∷ members) rows zero m i id h k =
    let same : first ≡ m = cc in
    group_by_bucket-keeps params m (storage_key id) members
      (push_to_buckets (buckets params first.content_code) first rows)
      (rw same (push_to_buckets_here m (buckets params m.content_code) id i rows k))
group_by_bucket-any_same params (first ∷ members) rows (suc j) m i id h k =
    group_by_bucket-any_same params members
      (push_to_buckets (buckets params first.content_code) first rows) j m i id h k

any_same_of_eq :
    (a b : IsccMember) (xs : List IsccMember)
    → same_member a b ≡ true
    → any_same a xs ≡ true
    → any_same b xs ≡ true
any_same_of_eq a b xs h k = (rw (same_member_eq a b h) at k)

retain_new-keeps :
    (x : IsccMember) (candidates seen : List IsccMember)
    → any_same x candidates ≡ true
    → any_same x seen ≡ false
    → any_same x (retain_new candidates seen) ≡ true
unfolding retain_new any_same
retain_new-keeps x [] seen h k = cc
retain_new-keeps x (m ∷ candidates) seen h k =
    let skip = retain_new-keeps x candidates seen in
    let next = retain_new-keeps x candidates (m ∷ seen) in
    elim (Bool-cases (any_same m seen)) [
      | inl dup ↦ rw (retain_new, dup) (ground (arith, h, k, dup, skip, any_same_of_eq m x seen))
      | inr fresh ↦ rw (retain_new, fresh) (ground (arith, h, k, fresh, next))
    ]

-- A member that is there stands at some position.
position_of :
    (x : IsccMember) (xs : List IsccMember)
    → any_same x xs ≡ true
    → (i : ℕ) × (get_elem? xs i ≡ some x)
unfolding any_same
position_of x [] h = cc
position_of x (e ∷ xs) h =
    let behind = position_of x xs in
    elim (Bool-cases (same_member e x)) [
      | inl same ↦ (0, ap some (same_member_eq e x same))
      | inr other ↦ let (i, found) = behind (ground (arith, h, other)) in (suc i, found)
    ]

All-get :
    (P : IsccMember → Type 0) (xs : List IsccMember)
    → All P xs
    → (k : ℕ) (x : IsccMember) → get_elem? xs k ≡ some x
    → P x
All-get P [] h k x e = cc
All-get P (y ∷ xs) h zero x e = let same : y ≡ x = cc in (rw same at h.0)
All-get P (y ∷ xs) h (suc k) x e = All-get P xs h.1 k x e

-- `r` has the members of each bucket that is asked for and was not seen.
abbrev Collects : (Bytes → List IsccMember) → List BucketId → List Bytes → List IsccMember → Type 0
Collects contents ids seen r =
    (i : ℕ) (id : BucketId) (x : IsccMember)
    → get_elem? ids i ≡ some id
    → mem_key (storage_key id) seen ≡ false
    → any_same x (contents (storage_key id)) ≡ true
    → any_same x r ≡ true

Collects-cons_seen :
    (contents : Bytes → List IsccMember) (first : BucketId) (ids : List BucketId)
    (seen : List Bytes) (r : List IsccMember)
    → mem_key (storage_key first) seen ≡ true
    → Collects contents ids seen r
    → Collects contents (first ∷ ids) seen r
Collects-cons_seen contents first ids seen r dup has zero id x e fresh h =
    let same : first ≡ id = cc in absurd (let dup' = (rw same at dup) in cc)
Collects-cons_seen contents first ids seen r dup has (suc i) id x e fresh h = has i id x e fresh h

mem_key_cons :
    (key k : Bytes) (seen : List Bytes)
    → bytes_eq key k ≡ false
    → mem_key key seen ≡ false
    → mem_key key (k ∷ seen) ≡ false
unfolding mem_key
mem_key_cons key k seen h e = rw (h, e) refl

Collects-cons_fresh :
    (contents : Bytes → List IsccMember) (first : BucketId) (ids : List BucketId)
    (seen : List Bytes) (r : List IsccMember)
    → Collects contents ids (storage_key first ∷ seen) r
    → Collects contents (first ∷ ids) seen (contents (storage_key first) ++ r)
Collects-cons_fresh contents first ids seen r has zero id x e fresh h =
    let same : first ≡ id = cc in any_same-left x (contents (storage_key first)) r (rw same h)
Collects-cons_fresh contents first ids seen r has (suc i) id x e fresh h =
    elim (Bool-cases (bytes_eq (storage_key id) (storage_key first))) [
      | inl same ↦
          any_same-left x (contents (storage_key first)) r
            (rw (eq_of_bytes_eq (storage_key id) (storage_key first) same) at h)
      | inr other ↦
          any_same_right x (contents (storage_key first)) r
            (has i id x e (mem_key_cons (storage_key id) (storage_key first) seen other fresh) h)
    ]

module _ (json : IndexJson) {S : Type 0} (store : BlobStore S) where
  -- The search collects the members of every bucket that it asks for and has not seen.
  gather-Collects :
      (directory : Directory) (contents : Bytes → List IsccMember) (t : S) (ids : List BucketId)
      (seen : List Bytes)
      → ((key : Bytes) → bucket_members json store (tree_get key directory) t ≡ ok (contents key))
      → (r : List IsccMember) × (gather json store directory ids seen t ≡ ok r)
        × Collects contents ids seen r
  unfolding gather
  gather-Collects directory contents t [] seen reads = ([], refl, λ i id x h. cc)
  gather-Collects directory contents t (first ∷ ids) seen reads =
      let key = storage_key first in
      let (same_r, same_run, same_has) = gather-Collects directory contents t ids seen reads in
      let (r, run, has) = gather-Collects directory contents t ids (key ∷ seen) reads in
      elim (Bool-cases (mem_key key seen)) [
        | inl dup ↦ (
          same_r,
          rw (gather, dup) same_run,
          Collects-cons_seen contents first ids seen same_r dup same_has,
        )
        | inr fresh ↦ (
          contents key ++ r,
          rw (gather, fresh, reads key, run) refl,
          Collects-cons_fresh contents first ids seen r has,
        )
      ]

  -- Nothing is in the index of an empty directory, so what it holds is elsewhere.
  query_directory-run :
      (params : BandParams) (q radius : ℕ) (t : S) (directory : Directory)
      (contents : Bytes → List IsccMember) (x : IsccMember) (i : ℕ) (id : BucketId)
      → ((key : Bytes) → bucket_members json store (tree_get key directory) t ≡ ok (contents key))
      → get_elem? (buckets params q) i ≡ some id
      → any_same x (contents (storage_key id)) ≡ true
      → (candidates : List IsccMember) × (query_directory json store params q radius 0 t directory
          ≡ ok (verify q candidates radius))
        × (any_same x candidates ≡ true)
  unfolding tree_get bucket_members query_buckets any_same mem_key
  query_directory-run params q radius t [] contents x i id reads e h =
      let none_there = reads (storage_key id) in
      let empty : contents (storage_key id) ≡ [] = cc in absurd (let h' = (rw empty at h) in cc)
  query_directory-run params q radius t (row ∷ rows) contents x i id reads e h =
      let (r, run, has) = gather-Collects (row ∷ rows) contents t (buckets params q) [] reads in
      (retain_new r [], rw run refl, retain_new-keeps x r [] (has i id x e refl h) refl)

  module _ (laws : StoreLaws store) where
    -- On a store that is valid after the run, and with parameters that `BandParams::new` made: after
    -- `insert_batch` a query of a code that differs from a member's in fewer bits than there are bands,
    -- and in no more than the radius, succeeds with a match of that member's key that is no farther.
    pub query-insert_batch :
        (n : ℕ) (params : BandParams) (s : S) (root : Option Hash) (members : List IsccMember)
        (old : Bytes → List IsccMember) (j : ℕ) (m : IsccMember) (q radius : ℕ)
        → new_params n ≡ ok params
        → Holds json store laws s root old
        → laws.Valid (insert_batch json store root params members s).1
        → get_elem? members j ≡ some m
        → hamming q m.content_code < params.num_bands
        → hamming q m.content_code ≤ radius
        → (root' : Hash) × (t : S) × (matches : List SimilarityMatch) × (insert_batch json store
              root params members s
            ≡ (ok root', t))
          × (query json store (some root') params q radius 0 t ≡ ok matches)
          × Some (λ x. (x.key ≡ m.key) × (x.distance ≤ hamming q m.content_code)) matches
    unfolding query
    query-insert_batch n params s root members old j m q radius made h valid there near close =
        let (root', t, run, new, holds, added) =
          insert_batch-Added json store laws s root params members old h valid in
        let (i, below, id, of_q, of_m) = shared_bucket n params q m.content_code made near in
        let batch = batch_of params members (storage_key id) in
        let grouped = group_by_bucket-any_same params members [] j m i id there of_m in
        let (k, found) = position_of m batch grouped in
        let has =
          All-get (λ x. any_same x (new (storage_key id)) ≡ true) batch
            (added (storage_key id)).has_batch k m found in
        let (candidates, runs, kept) =
          query_directory-run params q radius t holds.directory new m i id holds.buckets_read of_q
            has in
        let (at, stands) = position_of m candidates kept in
        (
          root',
          t,
          verify q candidates radius,
          run,
          rw (holds.loads) runs,
          verify_complete q radius candidates at m stands close,
        )
