-- ===== src/IsccStore/Batch.antt =====
-- What a batch does to the similarity index: `insert_batch` of crates/registry-core/src/iscc_store.rs.
use commonsdb_iroh_service.Prelude.{
  ◌≡◌, refl, Option-cases, Option, none, some, List, [], ◌∷◌, String, inl, inr, ◌==◌, true,
  Bool-cases, All,
}
use commonsdb_iroh_service.Prelude.Bytes.{Bytes, bytes_eq}
use commonsdb_iroh_service.BTree.{IsMap, tree_get, bytes_lt, tree_insert-IsMap}
use commonsdb_iroh_service.Record.{Hash}
use commonsdb_iroh_service.BlobStore.{BlobStore, StoreLaws}
use commonsdb_iroh_service.BlobStore.Growth.{
  Grows, Grows-refl, Grows-trans, Grows-stored, Growing, Growing-bind, continue-Grows,
}
use commonsdb_iroh_service.Exec.{Result, ok, err, ok_of_and_then}
use commonsdb_iroh_service.Similarity.{IsccMember, BandParams, BucketId, buckets, storage_key}
use commonsdb_iroh_service.IsccStore.{
  IndexJson, DirectoryV2, BucketRef, manifest, legacy_list, Directory, refs, v2_buckets,
  parse_directory, load_directory, load_blob, store_json, bucket_members, group_by_bucket,
  push_to_buckets, push_to_bucket, or_empty, update_buckets, carry_over, insert_batch,
}
use commonsdb_iroh_service.IsccStore.Loads.{parsed_of_load, store_json-stored}
use commonsdb_iroh_service.IsccStore.Bucket.{Added, nothing-Added}
use commonsdb_iroh_service.IsccStore.Insert.{
  store_json-Growing, Touched, Carried, update_buckets-Touched, update_buckets-Growing,
  carry_over-Carried, bucket_members-kept,
}

module _ {A B : Type 0} (f : A → B) where
  refs-All :
      (P : Bytes → Type 0) (rows : List (Bytes × A))
      → All (λ row. P row.0) rows
      → All (λ row. P row.0) (refs f rows)
  refs-All P [] h = tt
  refs-All P (row ∷ rows) h = (h.0, refs-All P rows h.1)

  refs-IsMap : (rows : List (Bytes × A)) → IsMap rows → IsMap (refs f rows)
  refs-IsMap [] m = tt
  refs-IsMap (row ∷ rows) m =
      (refs-All (λ k. bytes_lt row.0 k ≡ true) rows m.0, refs-IsMap rows m.1)

  abbrev pub apply : Option A → Option B
  apply none = none
  apply (some a) = some (f a)

  get-refs :
      (key : Bytes) (rows : List (Bytes × A))
      → tree_get key (refs f rows) ≡ apply (tree_get key rows)
  unfolding tree_get
  get-refs key [] = refl
  get-refs key (row ∷ rows) =
      let rest = get-refs key rows in
      elim (Bool-cases (bytes_eq key row.0)) [ inl e ↦ rw e refl | inr e ↦ rw e rest ]

directory_of_v2 :
    (r : Result String DirectoryV2) (rows : List (Bytes × Hash))
    → v2_buckets r ≡ some rows
    → (d : DirectoryV2) × (r ≡ ok d) × (d.buckets ≡ rows)
directory_of_v2 (ok d) rows h = elim (Bool-cases (d.v == 2)) [
  | inl e ↦ (d, refl, (let found : some d.buckets ≡ some rows = (rw e at h) in cc))
  | inr e ↦ absurd (let missing : none ≡ some rows = (rw e at h) in cc)
]
directory_of_v2 (err e) rows h = cc

module _ (json : IndexJson) {S : Type 0} (store : BlobStore S) where
  parse_directory-IsMap :
      (root : Hash) (b : Bytes) (dir : Directory)
      → parse_directory json store root b ≡ ok dir
      → IsMap dir
  unfolding parse_directory
  parse_directory-IsMap root b dir h =
      elim (Option-cases (v2_buckets (json.directory_from_json b))) [
        | inl e ↦
            let legacy = (rw (parse_directory, e) at h) in
            let (rows, read, made) = ok_of_and_then _ _ dir legacy in
            let parsed = parsed_of_load json store (json.legacy_from_json b) root rows read in
            let whole : refs legacy_list rows ≡ dir = cc in
            rw (← whole) (refs-IsMap legacy_list rows (json.legacy_from_json-IsMap b rows parsed))
        | inr (rows, e) ↦
            let found : ok (refs manifest rows) ≡ ok dir = (rw (parse_directory, e) at h) in
            let (d, parsed, same) = directory_of_v2 (json.directory_from_json b) rows e in
            let m : IsMap rows = (rw same at (json.directory_from_json-IsMap b d parsed)) in
            let whole : refs manifest rows ≡ dir = cc in rw (← whole) (refs-IsMap manifest rows m)
      ]

  load_directory-IsMap :
      (root : Option Hash) (s : S) (dir : Directory)
      → load_directory json store root s ≡ ok dir
      → IsMap dir
  unfolding load_directory
  load_directory-IsMap none s dir h = (let e : dir ≡ [] = cc in rw e tt)
  load_directory-IsMap (some root) s dir h =
      let (b, found, parsed) = ok_of_and_then (load_blob json store s root) _ dir h in
      parse_directory-IsMap root b dir parsed

push_to_buckets-IsMap :
    (ids : List BucketId) (m : IsccMember) (rows : List (Bytes × List IsccMember))
    → IsMap rows
    → IsMap (push_to_buckets ids m rows)
unfolding push_to_buckets push_to_bucket
push_to_buckets-IsMap [] m rows h = h
push_to_buckets-IsMap (id ∷ ids) m rows h =
    push_to_buckets-IsMap ids m (push_to_bucket (storage_key id) m rows)
      (tree_insert-IsMap (storage_key id) _ rows h)

group_by_bucket-IsMap :
    (params : BandParams) (members : List IsccMember) (rows : List (Bytes × List IsccMember))
    → IsMap rows
    → IsMap (group_by_bucket params members rows)
unfolding group_by_bucket
group_by_bucket-IsMap params [] rows h = h
group_by_bucket-IsMap params (m ∷ members) rows h =
    group_by_bucket-IsMap params members (push_to_buckets (buckets params m.content_code) m rows)
      (push_to_buckets-IsMap (buckets params m.content_code) m rows h)

-- The members of a batch for one bucket.
abbrev pub batch_of : BandParams → List IsccMember → Bytes → List IsccMember
batch_of params members key = or_empty (tree_get key (group_by_bucket params members []))

module _ (json : IndexJson) {S : Type 0} (store : BlobStore S) (laws : StoreLaws store) where
  -- The index under `root` in `s`, with what the members of its buckets are.
  pub record Holds (s : S) (root : Option Hash) (contents : Bytes → List IsccMember) : Type 0 where
    pub directory : Directory
    pub loads : load_directory json store root s ≡ ok directory
    pub buckets_read :
        (key : Bytes) → bucket_members json store (tree_get key directory) s ≡ ok (contents key)

  -- The two loops together, for one key.
  combine :
      (members : List IsccMember) (s s1 s2 t : S) (o : Option BucketRef)
      (before after : Option Hash) (batch : Option (List IsccMember))
      → bucket_members json store o s ≡ ok members
      → (batch ≡ none → Carried json store laws s1 members none before o)
      → Touched json store laws s2 members before after batch
      → Grows laws s1 t
      → Grows laws s2 t
      → laws.Valid t
      → (r : List IsccMember) × (bucket_members json store (apply manifest after) t ≡ ok r)
        × Added members (or_empty batch) r
  unfolding or_empty bucket_members
  combine members s s1 s2 t o before after (some batch) reads carried touched g1 g2 valid =
      let (hash, r, e, found, added) = touched in
      (r, rw e (bucket_members-kept json store laws (some (manifest hash)) r g2 valid found), added)
  combine members s s1 s2 t none before after none reads carried touched g1 g2 valid =
      (members, rw (touched, carried refl) reads, nothing-Added members)
  combine members s s1 s2 t (some bucket) before after none reads carried touched g1 g2 valid =
      let (hash, e, found) = carried refl in
      (
        members,
        rw (touched, e)
            (bucket_members-kept json store laws (some (manifest hash)) members g1 valid found),
        nothing-Added members,
      )

  directory_stored :
      (d : DirectoryV2) (s : S)
      → d.v ≡ 2
      → IsMap d.buckets
      → load_directory json store
          (some (laws.address (json.directory_to_json d)))
          (laws.stored (json.directory_to_json d) s)
        ≡ ok (refs manifest d.buckets)
  unfolding load_directory load_blob parse_directory
  directory_stored d s two m =
      let text = json.directory_to_json d in
      rw (laws.get-stored text s, parse_directory, json.directory_from-to d m, two) refl

  module _ (s : S) (root : Option Hash) (params : BandParams) (members : List IsccMember)
      (dir : Directory) (loads : load_directory json store root s ≡ ok dir) where
    abbrev rows : List (Bytes × List IsccMember)
    rows = group_by_bucket params members []

    write_directory-Growing :
        (new : List (Bytes × Hash))
        → Growing laws
            (store_json json store json.directory_to_json record { v = 2; buckets = new })
    write_directory-Growing new =
        store_json-Growing json store laws json.directory_to_json record { v = 2; buckets = new }

    carry_over-Valid :
        laws.Valid (insert_batch json store root params members s).1
        → laws.Valid (carry_over json store rows dir [] s).1
    unfolding insert_batch
    carry_over-Valid valid =
        let carried = carry_over json store rows dir [] s in
        (continue-Grows laws carried.0 _ carried.1 carried.1
            (λ kept.
              Growing-bind laws (update_buckets json store dir rows kept) _
                (update_buckets-Growing json store laws dir rows kept) write_directory-Growing)
            (Grows-refl laws carried.1)).before
          (rw loads at valid)

    update_buckets-Valid :
        (kept : List (Bytes × Hash)) (s1 : S)
        → carry_over json store rows dir [] s ≡ (ok kept, s1)
        → laws.Valid (insert_batch json store root params members s).1
        → laws.Valid (update_buckets json store dir rows kept s1).1
    unfolding insert_batch
    update_buckets-Valid kept s1 run valid =
        let updated = update_buckets json store dir rows kept s1 in
        (continue-Grows laws updated.0 _ updated.1 updated.1 write_directory-Growing
            (Grows-refl laws updated.1)).before
          (rw (loads, run) at valid)

    insert_batch_run :
        (kept new : List (Bytes × Hash)) (s1 s2 : S)
        → carry_over json store rows dir [] s ≡ (ok kept, s1)
        → update_buckets json store dir rows kept s1 ≡ (ok new, s2)
        → (let text = json.directory_to_json record { v = 2; buckets = new } in
            insert_batch json store root params members s
            ≡ (ok (laws.address text), laws.stored text s2))
    unfolding insert_batch
    insert_batch_run kept new s1 s2 run1 run2 =
        rw
          (
            loads,
            run1,
            run2,
            store_json-stored json store laws json.directory_to_json record { v = 2; buckets = new }
                s2,
          )
          refl

  -- On a store that is valid after the run, `insert_batch` succeeds; the bucket of every key then has its
  -- old members in their order, behind them only members of the batch for that bucket, and every member
  -- of the batch for it.
  pub insert_batch-Added :
      (s : S) (root : Option Hash) (params : BandParams) (members : List IsccMember)
      (old : Bytes → List IsccMember)
      → Holds s root old
      → laws.Valid (insert_batch json store root params members s).1
      → (root' : Hash) × (t : S) × (insert_batch json store root params members s ≡ (ok root', t))
        × (new : Bytes → List IsccMember) × Holds t (some root') new
        × ((key : Bytes) → Added (old key) (batch_of params members key) (new key))
  unfolding tree_get
  insert_batch-Added s root params members old h valid =
      let rows = group_by_bucket params members [] in
      let dir = h.directory in
      let (kept, s1, run1, k, g1, carried) =
        carry_over-Carried json store laws rows dir [] s old
          (load_directory-IsMap json store root s dir h.loads) tt
          (carry_over-Valid s root params members dir h.loads valid)
          (λ key bucket e. (rw e at (h.buckets_read key))) in
      let valid_u = update_buckets-Valid s root params members dir h.loads kept s1 run1 valid in
      let valid1 = ((update_buckets-Growing json store laws dir rows kept).at s1).before valid_u in
      let (new, s2, run2, n, g2, touched) =
        update_buckets-Touched json store laws dir rows kept s1 old
          (group_by_bucket-IsMap params members [] tt) k valid_u
          (λ key.
            bucket_members-kept json store laws (tree_get key dir) (old key) g1 valid1
              (h.buckets_read key)) in
      let d : DirectoryV2 = record { v = 2; buckets = new } in
      let text = json.directory_to_json d in
      let run = insert_batch_run s root params members dir h.loads kept new s1 s2 run1 run2 in
      let g = Grows-stored laws text s2 in
      let valid_t : laws.Valid (laws.stored text s2) = (rw run at valid) in
      let result = λ (key : Bytes).
        combine (old key) s s1 s2 (laws.stored text s2) (tree_get key dir) (tree_get key kept)
          (tree_get key new) (tree_get key rows) (h.buckets_read key) (carried key) (touched key)
          (Grows-trans laws g2 g) g valid_t in
      (
        laws.address text,
        laws.stored text s2,
        run,
        (λ key. (result key).0),
        record {
          directory = refs manifest new;
          loads = directory_stored d s2 refl n;
          buckets_read = λ key. rw (get-refs manifest key new) (result key).1;
        },
        λ key. (result key).2,
      )
