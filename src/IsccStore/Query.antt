-- ===== src/IsccStore/Query.antt =====
-- crates/registry-core/src/iscc_store.rs: the search through the similarity index, and the walk that
-- collects its blobs.
use commonsdb_iroh_service.Prelude.{ℕ, Bool, true, false, ◌||◌, Option, some, List, [], ◌∷◌, ◌++◌}
use commonsdb_iroh_service.Prelude.Bytes.{Bytes, bytes_eq}
use commonsdb_iroh_service.BTree.{tree_get}
use commonsdb_iroh_service.Record.{Hash}
use commonsdb_iroh_service.BlobStore.{BlobStore}
use commonsdb_iroh_service.Exec.{Result, ok, and_then, Exec, continue}
use commonsdb_iroh_service.Hamt.{contains}
use commonsdb_iroh_service.Hamt.Walk.{insert_hash}
use commonsdb_iroh_service.Similarity.{
  BandParams, BucketId, IsccMember, SimilarityMatch, buckets, query_buckets, storage_key, verify,
}
use commonsdb_iroh_service.IsccStore.{
  IsccStoreError, IndexJson, Directory, manifest, legacy_list, any_same, load_json, load_directory,
  bucket_members,
}

-- `HashSet<String>::contains`
unfoldable pub mem_key : Bytes → List Bytes → Bool
mem_key key [] = false
mem_key key (k ∷ seen) = bytes_eq key k || mem_key key seen

-- `candidates.retain(|m| seen.insert(…))`
unfoldable pub retain_new : List IsccMember → List IsccMember → List IsccMember
unfolding any_same
retain_new [] seen = []
retain_new (m ∷ candidates) seen = elim (any_same m seen) [
  | true ↦ retain_new candidates seen
  | false ↦ m ∷ retain_new candidates (m ∷ seen)
]

-- `out.extend(hashes)`
unfoldable pub extend_hashes : List Hash → List Hash → List Hash
unfolding insert_hash
extend_hashes [] out = out
extend_hashes (h ∷ hashes) out = extend_hashes hashes (insert_hash h out)

module _ (json : IndexJson) {S : Type 0} (store : BlobStore S) where
  -- The loop of `query` over the buckets; `seen` has the keys visited.
  unfoldable pub gather :
      Directory → List BucketId → List Bytes → S → Result IsccStoreError (List IsccMember)
  unfolding storage_key tree_get bucket_members mem_key
  gather directory [] seen s = ok []
  gather directory (id ∷ ids) seen s =
      let key = storage_key id in
      elim (mem_key key seen) [
        | true ↦ gather directory ids seen s
        | false ↦ and_then (bucket_members json store (tree_get key directory) s) λ members.
            and_then (gather directory ids (key ∷ seen) s) λ others. ok (members ++ others)
      ]

  abbrev pub query_directory :
      BandParams → ℕ → ℕ → ℕ → S → Directory → Result IsccStoreError (List SimilarityMatch)
  query_directory params code radius probe_radius s [] = ok []
  query_directory params code radius probe_radius s (row ∷ rows) =
      and_then (gather (row ∷ rows) (query_buckets params code probe_radius) [] s)
        λ candidates. ok (verify code (retain_new candidates []) radius)

  unfoldable pub query :
      Option Hash → BandParams → ℕ → ℕ → ℕ → S → Result IsccStoreError (List SimilarityMatch)
  unfolding load_directory gather query_buckets retain_new verify
  query root params code radius probe_radius s =
      and_then (load_directory json store root s)
        (query_directory params code radius probe_radius s)

  -- The loop of `collect_reachable`; the set is the state.
  unfoldable pub reach_buckets : S → Directory → Exec IsccStoreError (List Hash) Unit
  unfolding load_json insert_hash extend_hashes
  reach_buckets s [] out = (ok tt, out)
  reach_buckets s ((key, manifest hash) ∷ rows) out =
      continue (load_json json store json.manifest_from_json s hash)
        (λ bucket out. reach_buckets s rows (extend_hashes bucket.segments out))
        (insert_hash hash out)
  reach_buckets s ((key, legacy_list hash) ∷ rows) out = reach_buckets s rows (insert_hash hash out)

  unfoldable pub collect_reachable : S → Hash → Exec IsccStoreError (List Hash) Unit
  unfolding load_directory reach_buckets contains
  collect_reachable s root out = elim (contains out root) [
    | true ↦ (ok tt, out)
    | false ↦ continue (load_directory json store (some root) s) (reach_buckets s) (root ∷ out)
  ]

-- `member_buckets`
unfoldable pub member_buckets : BandParams → ℕ → List BucketId
unfolding buckets
member_buckets params content_code = buckets params content_code
