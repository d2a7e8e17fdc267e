-- ===== src/IsccStore/Insert.antt =====
-- `insert_batch` of crates/registry-core/src/iscc_store.rs: the two loops over the buckets, and the
-- directory that comes out.
use commonsdb_iroh_service.Prelude.{
  ℕ, zero, suc, ◌≡◌, ◌≢◌, refl, ap, ◌∙◌, length, Bool-cases, Option-cases, Option, none, some, List,
  [], ◌∷◌, inl, inr, false, arith,
}
use commonsdb_iroh_service.Prelude.Bytes.{Bytes, bytes_eq, bytes_eq_iff, eq_of_bytes_eq}
use commonsdb_iroh_service.BTree.{
  IsMap, tree_get, tree_insert, get-insert_self, get-insert_ne, get-IsMap_head, get_here, get_there,
  get_behind, get_behind, tree_insert-IsMap,
}
use commonsdb_iroh_service.Record.{Hash}
use commonsdb_iroh_service.BlobStore.{BlobStore, StoreLaws}
use commonsdb_iroh_service.BlobStore.Growth.{
  Grows, Grows-refl, Grows-trans, Grows-stored, Growing, Growing-bind, Growing-asks, Growing-pure,
}
use commonsdb_iroh_service.Exec.{ok, asks, ok_of_and_then}
use commonsdb_iroh_service.Similarity.{IsccMember}
use commonsdb_iroh_service.IsccStore.{
  IndexJson, BucketManifest, BucketRef, manifest, legacy_list, Directory, store_json, add_members,
  open_tail, bucket_manifest, write_segments, carried, carry_over, update_bucket, update_buckets,
  bucket_members, load_bucket_manifest,
}
use commonsdb_iroh_service.IsccStore.Loads.{load_json-kept, load_segments-kept, store_json-stored}
use commonsdb_iroh_service.IsccStore.Bucket.{Added, nothing_added}
use commonsdb_iroh_service.IsccStore.Update.{update_bucket-Updated, carried-Updated}

module _ (json : IndexJson) {S : Type 0} (store : BlobStore S) (laws : StoreLaws store) where
  pub store_json-Growing :
      {T : Type 0} (to_vec : T → Bytes) (v : T) → Growing laws (store_json json store to_vec v)
  store_json-Growing to_vec v = record {
    at = λ s. rw (store_json-stored json store laws to_vec v s) (Grows-stored laws _ s);
  }

  write_segments-Growing :
      (fuel : ℕ) (tail : List IsccMember) (m : BucketManifest)
      → Growing laws (write_segments json store fuel tail m)
  unfolding write_segments
  write_segments-Growing fuel [] m = Growing-pure laws m
  write_segments-Growing zero (x ∷ tail) m = record { at = Grows-refl laws }
  write_segments-Growing (suc fuel) (x ∷ tail) m =
      Growing-bind laws _ _ (store_json-Growing json.members_to_json _)
        (λ hash. write_segments-Growing fuel _ _)

  update_bucket-Growing :
      (o : Option BucketRef) (batch : List IsccMember)
      → Growing laws (update_bucket json store o batch)
  unfolding update_bucket
  update_bucket-Growing o batch =
      Growing-bind laws (asks (bucket_manifest json store o)) _ (Growing-asks laws _) (λ loaded.
        Growing-bind laws (asks (open_tail json store loaded)) _ (Growing-asks laws _) (λ opened.
          let tail = add_members opened.1 batch in
          Growing-bind laws _ _ (write_segments-Growing (length tail) tail opened.0)
            (λ written. store_json-Growing json.manifest_to_json written)))

  pub update_buckets-Growing :
      (dir : Directory) (rows : List (Bytes × List IsccMember)) (new : List (Bytes × Hash))
      → Growing laws (update_buckets json store dir rows new)
  unfolding update_buckets
  update_buckets-Growing dir [] new = Growing-pure laws new
  update_buckets-Growing dir (row ∷ rows) new =
      Growing-bind laws _ _ (update_bucket-Growing (tree_get row.0 dir) row.1)
        (λ hash. update_buckets-Growing dir rows (tree_insert row.0 hash new))

  carried-Growing : (bucket : BucketRef) → Growing laws (carried json store bucket)
  unfolding carried
  carried-Growing (manifest hash) = Growing-pure laws hash
  carried-Growing (legacy_list hash) =
      Growing-bind laws _ _ (Growing-asks laws _) (λ m. store_json-Growing json.manifest_to_json m)

  carry_over-Growing :
      (by_bucket : List (Bytes × List IsccMember)) (rows : Directory) (new : List (Bytes × Hash))
      → Growing laws (carry_over json store by_bucket rows new)
  unfolding carry_over
  carry_over-Growing by_bucket [] new = Growing-pure laws new
  carry_over-Growing by_bucket (row ∷ rows) new =
      let skip = carry_over-Growing by_bucket rows new in
      let take = λ (hash : Hash). carry_over-Growing by_bucket rows (tree_insert row.0 hash new) in
      elim (Option-cases (tree_get row.0 by_bucket)) [
        | inl e ↦ rw (carry_over, e) (Growing-bind laws _ _ (carried-Growing row.1) take)
        | inr (batch, e) ↦ rw (carry_over, e) skip
      ]

  load_bucket_manifest-kept :
      {s t : S} (bucket : BucketRef) (m : BucketManifest)
      → Grows laws s t
      → laws.Valid t
      → load_bucket_manifest json store bucket s ≡ ok m
      → load_bucket_manifest json store bucket t ≡ ok m
  unfolding load_bucket_manifest
  load_bucket_manifest-kept (manifest hash) m g valid h =
      load_json-kept json store laws json.manifest_from_json hash m g valid h
  load_bucket_manifest-kept (legacy_list hash) m g valid h =
      let (list, loads, made) = ok_of_and_then _ _ m h in
      rw (load_json-kept json store laws json.members_from_json hash list g valid loads) made

  pub bucket_members-kept :
      {s t : S} (o : Option BucketRef) (members : List IsccMember)
      → Grows laws s t
      → laws.Valid t
      → bucket_members json store o s ≡ ok members
      → bucket_members json store o t ≡ ok members
  unfolding bucket_members
  bucket_members-kept none members g valid h = h
  bucket_members-kept (some bucket) members g valid h =
      let (m, loads, segments) = ok_of_and_then _ _ members h in
      rw (load_bucket_manifest-kept bucket m g valid loads)
        (load_segments-kept json store laws m.segments members g valid segments)

  ne_of_other : (a b : Bytes) → bytes_eq a b ≡ false → a ≢ b
  ne_of_other a b h e = ground (arith, h, bytes_eq_iff a b, e)

  other_key :
      (key other : Bytes) (by_bucket : List (Bytes × List IsccMember)) (batch : List IsccMember)
      → tree_get key by_bucket ≡ none
      → tree_get other by_bucket ≡ some batch
      → bytes_eq key other ≡ false
  other_key key other by_bucket batch free e = elim (Bool-cases (bytes_eq key other)) [
    | inl same ↦ absurd (let h = eq_of_bytes_eq key other same in cc)
    | inr ne ↦ ne
  ]

  -- What the entry of a key in the new directory has become: as before the loop, or the bucket with the
  -- batch added.
  abbrev pub Touched :
      S → List IsccMember → Option Hash → Option Hash → Option (List IsccMember) → Type 0
  Touched t members before after none = after ≡ before
  Touched t members before after (some batch) =
      (hash : Hash) × (r : List IsccMember) × (after ≡ some hash)
      × (bucket_members json store (some (manifest hash)) t ≡ ok r)
      × Added members batch r

  -- The rows behind are done, and so is the first row.
  first_row_updated :
      (key : Bytes) (row : Bytes × List IsccMember) (rows : List (Bytes × List IsccMember))
      (new : List (Bytes × Hash)) (hash : Hash) (t : S) (old : Bytes → List IsccMember)
      (r : List IsccMember) (after : Bytes → Option Hash)
      → IsMap (row ∷ rows)
      → ((k : Bytes)
          → Touched t (old k) (tree_get k (tree_insert row.0 hash new)) (after k) (tree_get k rows))
      → bucket_members json store (some (manifest hash)) t ≡ ok r
      → Added (old row.0) row.1 r
      → Touched t (old key) (tree_get key new) (after key) (tree_get key (row ∷ rows))
  first_row_updated key row rows new hash t old r after m touched reads added =
      elim (Bool-cases (bytes_eq key row.0)) [
        | inl same ↦
            let here : after row.0 ≡ some hash =
              (rw (get-IsMap_head row.0 rows m.0, get-insert_self row.0 hash new) at
                (touched row.0)) in
            rw (eq_of_bytes_eq key row.0 same, get_here row rows) (hash, r, here, reads, added)
        | inr other ↦
            let there : Touched t (old key) (tree_get key new) (after key) (tree_get key rows) =
              (rw (get-insert_ne row.0 key hash new (ne_of_other key row.0 other)) at
                (touched key)) in
            rw (get_there key row rows other) there
      ]

  pub update_buckets-Touched :
      (dir : Directory) (rows : List (Bytes × List IsccMember)) (new : List (Bytes × Hash)) (s : S)
      (old : Bytes → List IsccMember)
      → IsMap rows
      → IsMap new
      → laws.Valid (update_buckets json store dir rows new s).1
      → ((key : Bytes) → bucket_members json store (tree_get key dir) s ≡ ok (old key))
      → (new' : List (Bytes × Hash)) × (t : S) × (update_buckets json store dir rows new s
          ≡ (ok new', t))
        × IsMap new'
        × Grows laws s t
        × ((key : Bytes)
            → Touched t (old key) (tree_get key new) (tree_get key new') (tree_get key rows))
  unfolding update_buckets
  update_buckets-Touched dir [] new s old m n valid reads =
      (new, s, refl, n, Grows-refl laws s, λ key. refl)
  update_buckets-Touched dir (row ∷ rows) new s old m n valid reads =
      let (hash, s1, run, up) =
        update_bucket-Updated json store laws s (tree_get row.0 dir) (old row.0) row.1
          (reads row.0) in
      let new1 = tree_insert row.0 hash new in
      let valid' : laws.Valid (update_buckets json store dir rows new1 s1).1 = (rw run at valid) in
      let valid1 = ((update_buckets-Growing dir rows new1).at s1).before valid' in
      let (new', t, runs, n', g, touched) =
        update_buckets-Touched dir rows new1 s1 old m.1 (tree_insert-IsMap row.0 hash new n) valid'
          (λ key. bucket_members-kept (tree_get key dir) (old key) up.grows valid1 (reads key)) in
      (
        new',
        t,
        rw run runs,
        n',
        Grows-trans laws up.grows g,
        λ key.
            let valid_t : laws.Valid t = (rw runs at valid') in
            first_row_updated key row rows new hash t old up.result (λ k. tree_get k new') m touched
              (bucket_members-kept (some (manifest hash)) up.result g valid_t (up.reads valid1))
              up.added,
      )

  abbrev pub Carried : S → List IsccMember → Option Hash → Option Hash → Option BucketRef → Type 0
  Carried t members before after none = after ≡ before
  Carried t members before after (some bucket) =
      (hash : Hash) × (after ≡ some hash)
      × (bucket_members json store (some (manifest hash)) t ≡ ok members)

  first_row_kept :
      (key : Bytes) (row : Bytes × BucketRef) (rows : Directory) (new : List (Bytes × Hash))
      (hash : Hash) (t : S) (old : Bytes → List IsccMember) (after : Option Hash)
      → IsMap (row ∷ rows)
      → Carried t (old key) (tree_get key (tree_insert row.0 hash new)) after (tree_get key rows)
      → bucket_members json store (some (manifest hash)) t ≡ ok (old row.0)
      → Carried t (old key) (tree_get key new) after (tree_get key (row ∷ rows))
  first_row_kept key row rows new hash t old after m carried' reads =
      elim (Bool-cases (bytes_eq key row.0)) [
        | inl same ↦
            let eq = eq_of_bytes_eq key row.0 same in
            let here : after ≡ some hash =
              (rw (eq, get-IsMap_head row.0 rows m.0, get-insert_self row.0 hash new) at
                carried') in
            rw (eq, get_here row rows) (hash, here, reads)
        | inr other ↦
            let there : Carried t (old key) (tree_get key new) after (tree_get key rows) =
              (rw (get-insert_ne row.0 key hash new (ne_of_other key row.0 other)) at carried') in
            rw (get_there key row rows other) there
      ]

  pub carry_over-Carried :
      (by_bucket : List (Bytes × List IsccMember)) (rows : Directory) (new : List (Bytes × Hash))
      (s : S) (old : Bytes → List IsccMember)
      → IsMap rows
      → IsMap new
      → laws.Valid (carry_over json store by_bucket rows new s).1
      → ((key : Bytes) (bucket : BucketRef)
          → tree_get key rows ≡ some bucket
          → bucket_members json store (some bucket) s ≡ ok (old key))
      → (new' : List (Bytes × Hash)) × (t : S) × (carry_over json store by_bucket rows new s
          ≡ (ok new', t))
        × IsMap new'
        × Grows laws s t
        × ((key : Bytes)
            → tree_get key by_bucket ≡ none
            → Carried t (old key) (tree_get key new) (tree_get key new') (tree_get key rows))
  unfolding carry_over
  carry_over-Carried by_bucket [] new s old m n valid reads =
      (new, s, refl, n, Grows-refl laws s, λ key free. refl)
  carry_over-Carried by_bucket (row ∷ rows) new s old m n valid reads =
      elim (Option-cases (tree_get row.0 by_bucket)) [
        | inr (batch, e) ↦
            let (new', t, run, n', g, carried') =
              carry_over-Carried by_bucket rows new s old m.1 n (rw (carry_over, e) at valid)
                (λ key bucket h. reads key bucket (get_behind key row rows bucket m h)) in
            (
              new',
              t,
              rw (carry_over, e) run,
              n',
              g,
              λ key free.
                  rw (get_there key row rows (other_key key row.0 by_bucket batch free e))
                    (carried' key free),
            )
        | inl e ↦
            let (hash, s1, run1, up) =
              carried-Updated json store laws s row.1 (old row.0)
                (reads row.0 row.1 (get_here row rows)) in
            let new1 = tree_insert row.0 hash new in
            let valid' : laws.Valid (carry_over json store by_bucket rows new1 s1).1 =
              (rw (carry_over, e, run1) at valid) in
            let valid1 = ((carry_over-Growing by_bucket rows new1).at s1).before valid' in
            let (new', t, run, n', g, carried') =
              carry_over-Carried by_bucket rows new1 s1 old m.1 (tree_insert-IsMap row.0 hash new n)
                valid'
                (λ key bucket h.
                  bucket_members-kept (some bucket) (old key) up.grows valid1
                    (reads key bucket (get_behind key row rows bucket m h))) in
            (
              new',
              t,
              rw (carry_over, e, run1) run,
              n',
              Grows-trans laws up.grows g,
              λ key free.
                  let valid_t : laws.Valid t = (rw run at valid') in
                  first_row_kept key row rows new hash t old (tree_get key new') m
                    (carried' key free)
                    (bucket_members-kept (some (manifest hash)) (old row.0) g valid_t
                      (up.reads valid1 ∙ ap ok (nothing_added (old row.0) up.result up.added))),
            )
      ]
