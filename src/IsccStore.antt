-- ===== src/IsccStore.antt =====
-- crates/registry-core/src/iscc_store.rs: the similarity index kept in blobs, a directory of buckets
-- whose members stand in segments. This file has the operations; the children have what a batch does
-- to a bucket and which blobs a walk reaches.
--
-- A `BTreeMap` is an association list in the order of its keys, a `HashSet` a list. A `u64` count
-- wraps. The JSON text of the structures is an argument.
pub mod Query
pub mod Loads
pub mod Segments
pub mod Bucket
pub mod Update
pub mod Insert
pub mod Batch
pub mod Recall
use commonsdb_iroh_service.Prelude.{
  ℕ, zero, suc, ◌+◌, ◌-◌, ◌%◌, ◌^◌, ◌≡◌, Bool, true, false, ◌&&◌, ◌||◌, Option, none, some, List,
  [], ◌∷◌, ◌++◌, map, String, length, take, drop, ltb, ◌==◌, if◌then◌else◌,
}
use commonsdb_iroh_service.Prelude.Bytes.{Bytes, bytes_eq, bytes_le}
use commonsdb_iroh_service.BTree.{IsMap, tree_get, tree_insert}
use commonsdb_iroh_service.Record.{Hash}
use commonsdb_iroh_service.BlobStore.{BlobStore, BlobStoreError}
use commonsdb_iroh_service.Exec.{
  Result, ok, err, map_err, ok_or, and_then, Exec, pure, raise, asks, continue, ◌>>=◌,
}
use commonsdb_iroh_service.Hamt.{contains}
use commonsdb_iroh_service.Hamt.Walk.{insert_hash}
use commonsdb_iroh_service.Similarity.{
  BandParams, BucketId, IsccMember, SimilarityMatch, buckets, query_buckets, storage_key, verify,
}

unfoldable pub segment_max_members : ℕ
segment_max_members = 4096

-- `out_of_fuel`: the loop over the segments was given too few rounds.
pub data IsccStoreError : Type 0 where
  blob_store : BlobStoreError → IsccStoreError
  missing_blob : Hash → IsccStoreError
  corrupt : Hash → String → IsccStoreError
  out_of_fuel : IsccStoreError

pub record DirectoryV2 : Type 0 where
  pub v : ℕ
  pub buckets : List (Bytes × Hash)

pub record BucketManifest : Type 0 where
  pub count : ℕ
  pub segments : List Hash

pub data BucketRef : Type 0 where
  manifest : Hash → BucketRef
  legacy_list : Hash → BucketRef

abbrev pub Directory : Type 0
Directory = List (Bytes × BucketRef)

-- `serde_json` on the structures: what it writes reads back. A map is read in the order of its keys.
pub record IndexJson : Type 0 where
  pub directory_to_json : DirectoryV2 → Bytes
  pub directory_from_json : Bytes → Result String DirectoryV2
  pub legacy_from_json : Bytes → Result String (List (Bytes × Hash))
  pub manifest_to_json : BucketManifest → Bytes
  pub manifest_from_json : Bytes → Result String BucketManifest
  pub members_to_json : List IsccMember → Bytes
  pub members_from_json : Bytes → Result String (List IsccMember)
  pub manifest_from-to : (m : BucketManifest) → manifest_from_json (manifest_to_json m) ≡ ok m
  pub members_from-to : (l : List IsccMember) → members_from_json (members_to_json l) ≡ ok l
  pub directory_from-to :
      (d : DirectoryV2) → IsMap d.buckets → directory_from_json (directory_to_json d) ≡ ok d
  pub directory_from_json-IsMap :
      (b : Bytes) (d : DirectoryV2) → directory_from_json b ≡ ok d → IsMap d.buckets
  pub legacy_from_json-IsMap :
      (b : Bytes) (rows : List (Bytes × Hash)) → legacy_from_json b ≡ ok rows → IsMap rows

unfoldable pub add_u64 : ℕ → ℕ → ℕ
add_u64 a b = (a + b) % 2 ^ 64

unfoldable pub sub_u64 : ℕ → ℕ → ℕ
sub_u64 a b = (a + (2 ^ 64 - b % 2 ^ 64)) % 2 ^ 64

-- `Vec::last` with what stands before it.
unfoldable pub split_last : List Hash → Option (List Hash × Hash)
split_last [] = none
split_last (h ∷ hashes) = elim (split_last hashes) [
  | none ↦ some ([], h)
  | some (before, last) ↦ some (h ∷ before, last)
]

unfoldable pub same_member : IsccMember → IsccMember → Bool
same_member a b = bytes_eq a.key b.key && a.content_code == b.content_code

unfoldable pub any_same : IsccMember → List IsccMember → Bool
unfolding same_member
any_same m [] = false
any_same m (e ∷ tail) = same_member e m || any_same m tail

-- The loop that adds the new members to the tail.
unfoldable pub add_members : List IsccMember → List IsccMember → List IsccMember
unfolding any_same
add_members tail [] = tail
add_members tail (m ∷ members) =
    add_members (if any_same m tail then tail else tail ++ m ∷ []) members

-- `or_default`
unfoldable pub or_empty : Option (List IsccMember) → List IsccMember
or_empty none = []
or_empty (some members) = members

unfoldable pub push_to_bucket :
    Bytes → IsccMember → List (Bytes × List IsccMember) → List (Bytes × List IsccMember)
unfolding tree_get tree_insert or_empty
push_to_bucket key m rows = tree_insert key (or_empty (tree_get key rows) ++ m ∷ []) rows

unfoldable pub push_to_buckets :
    List BucketId → IsccMember → List (Bytes × List IsccMember) → List (Bytes × List IsccMember)
unfolding push_to_bucket storage_key
push_to_buckets [] m rows = rows
push_to_buckets (id ∷ ids) m rows = push_to_buckets ids m (push_to_bucket (storage_key id) m rows)

-- The members of the batch by bucket.
unfoldable pub group_by_bucket :
    BandParams → List IsccMember → List (Bytes × List IsccMember) → List (Bytes × List IsccMember)
unfolding push_to_buckets buckets
group_by_bucket params [] rows = rows
group_by_bucket params (m ∷ members) rows =
    group_by_bucket params members (push_to_buckets (buckets params m.content_code) m rows)

abbrev pub refs {ℓ} : {A : Type ℓ} {B : Type ℓ} → (A → B) → List (Bytes × A) → List (Bytes × B)
refs f [] = []
refs f (row ∷ rows) = (row.0, f row.1) ∷ refs f rows

-- The buckets of a directory that reads as version 2.
abbrev v2_buckets : Result String DirectoryV2 → Option (List (Bytes × Hash))
v2_buckets (ok v2) = if v2.v == 2 then some v2.buckets else none
v2_buckets (err e) = none

module _ (json : IndexJson) {S : Type 0} (store : BlobStore S) where
  unfoldable pub load_blob : S → Hash → Result IsccStoreError Bytes
  load_blob s hash =
      and_then (map_err blob_store (store.get s hash)) λ found. ok_or found (missing_blob hash)

  unfoldable pub load_json :
      {T : Type 0} → (Bytes → Result String T) → S → Hash → Result IsccStoreError T
  unfolding load_blob
  load_json from_slice s hash =
      and_then (load_blob s hash) λ bytes. map_err (corrupt hash) (from_slice bytes)

  unfoldable pub store_json : {T : Type 0} → (T → Bytes) → T → Exec IsccStoreError S Hash
  store_json to_vec value s =
      let put = store.put (to_vec value) s in (map_err blob_store put.0, put.1)

  unfoldable pub parse_directory : Hash → Bytes → Result IsccStoreError Directory
  parse_directory root bytes = elim (v2_buckets (json.directory_from_json bytes)) [
    | some rows ↦ ok (refs manifest rows)
    | none ↦
        and_then (map_err (corrupt root) (json.legacy_from_json bytes))
          λ rows. ok (refs legacy_list rows)
  ]

  unfoldable pub load_directory : Option Hash → S → Result IsccStoreError Directory
  unfolding load_blob parse_directory
  load_directory none s = ok []
  load_directory (some root) s = and_then (load_blob s root) (parse_directory root)

  unfoldable pub load_segment : S → Hash → Result IsccStoreError (List IsccMember)
  unfolding load_json
  load_segment s hash = load_json json.members_from_json s hash

  unfoldable pub load_bucket_manifest : BucketRef → S → Result IsccStoreError BucketManifest
  unfolding load_json
  load_bucket_manifest (manifest hash) s = load_json json.manifest_from_json s hash
  load_bucket_manifest (legacy_list hash) s =
      and_then (load_json json.members_from_json s hash)
        λ list. ok (record { count = length list % 2 ^ 64; segments = hash ∷ [] })

  unfoldable pub carried : BucketRef → Exec IsccStoreError S Hash
  unfolding load_bucket_manifest store_json
  carried (manifest hash) = pure hash
  carried (legacy_list hash) = do
    bucket ← asks (load_bucket_manifest (legacy_list hash))
    store_json json.manifest_to_json bucket

  -- The buckets that the batch does not touch.
  unfoldable pub carry_over :
      List (Bytes × List IsccMember)
      → Directory
      → List (Bytes × Hash)
      → Exec IsccStoreError S (List (Bytes × Hash))
  unfolding tree_get tree_insert carried
  carry_over by_bucket [] new_buckets = pure new_buckets
  carry_over by_bucket (row ∷ rows) new_buckets = elim (tree_get row.0 by_bucket) [
    | some _ ↦ carry_over by_bucket rows new_buckets
    | none ↦ do hash ← carried row.1; carry_over by_bucket rows (tree_insert row.0 hash new_buckets)
  ]

  -- The manifest without its tail segment, and the members of that segment, when there is one that
  -- is not full.
  unfoldable pub open_tail :
      BucketManifest → S → Result IsccStoreError (BucketManifest × List IsccMember)
  unfolding split_last load_segment sub_u64
  open_tail bucket s = elim (split_last bucket.segments) [
    | none ↦ ok (bucket, [])
    | some (before, last) ↦ and_then (load_segment s last) λ seg. ok (
        if ltb (length seg) segment_max_members
        then (record { count = sub_u64 bucket.count (length seg); segments = before }, seg)
        else (bucket, []))
  ]

  -- The loop over the segments, on fuel.
  unfoldable pub write_segments :
      ℕ → List IsccMember → BucketManifest → Exec IsccStoreError S BucketManifest
  unfolding store_json add_u64
  write_segments fuel [] bucket = pure bucket
  write_segments zero (m ∷ tail) bucket = raise out_of_fuel
  write_segments (suc fuel) (m ∷ tail) bucket =
      let segment = take segment_max_members (m ∷ tail) in
      do
        hash ← store_json json.members_to_json segment
        write_segments fuel (drop segment_max_members (m ∷ tail)) record {
          count = add_u64 bucket.count (length segment);
          segments = bucket.segments ++ hash ∷ [];
        }

  unfoldable pub bucket_manifest : Option BucketRef → S → Result IsccStoreError BucketManifest
  unfolding load_bucket_manifest
  bucket_manifest none s = ok (record { count = 0; segments = [] })
  bucket_manifest (some bucket) s = load_bucket_manifest bucket s

  -- The body of the loop over the touched buckets.
  unfoldable pub update_bucket : Option BucketRef → List IsccMember → Exec IsccStoreError S Hash
  unfolding bucket_manifest open_tail add_members write_segments store_json
  update_bucket bucket new_members = do
    loaded ← asks (bucket_manifest bucket)
    opened ← asks (open_tail loaded)
    written ←
        (let tail = add_members opened.1 new_members in write_segments (length tail) tail opened.0)
    store_json json.manifest_to_json written

  unfoldable pub update_buckets :
      Directory
      → List (Bytes × List IsccMember)
      → List (Bytes × Hash)
      → Exec IsccStoreError S (List (Bytes × Hash))
  unfolding tree_get tree_insert update_bucket
  update_buckets directory [] new_buckets = pure new_buckets
  update_buckets directory (row ∷ by_bucket) new_buckets = do
    hash ← update_bucket (tree_get row.0 directory) row.1
    update_buckets directory by_bucket (tree_insert row.0 hash new_buckets)

  unfoldable pub insert_batch :
      Option Hash → BandParams → List IsccMember → Exec IsccStoreError S Hash
  unfolding load_directory group_by_bucket carry_over update_buckets store_json
  insert_batch root params members =
      let by_bucket = group_by_bucket params members [] in
      do
        directory ← asks (load_directory root)
        kept ← carry_over by_bucket directory []
        new_buckets ← update_buckets directory by_bucket kept
        store_json json.directory_to_json record { v = 2; buckets = new_buckets }

  unfoldable pub load_segments : S → List Hash → Result IsccStoreError (List IsccMember)
  unfolding load_segment
  load_segments s [] = ok []
  load_segments s (hash ∷ hashes) =
      let rest = load_segments s hashes in
      and_then (load_segment s hash) λ members. and_then rest λ others. ok (members ++ others)

  -- The members of one bucket, as `query` collects them.
  unfoldable pub bucket_members : Option BucketRef → S → Result IsccStoreError (List IsccMember)
  unfolding load_bucket_manifest load_segments
  bucket_members none s = ok []
  bucket_members (some bucket) s =
      and_then (load_bucket_manifest bucket s) λ loaded. load_segments s loaded.segments
