-- ===== src/IsccStore/Update.antt =====
-- The body of the loop over the touched buckets in `insert_batch` of
-- crates/registry-core/src/iscc_store.rs: `update_bucket`, and the migration of an untouched one.
use native.Mathlib.Nat.{mod-add-mod}
use commonsdb_iroh_service.Prelude.{
  ℕ, ◌+◌, ◌%◌, ◌^◌, ◌<◌, ◌≡◌, refl, ap, sym, ◌∙◌, Option, none, some, List, [], ◌++◌, length,
  length-append, arith, inl,
}
use commonsdb_iroh_service.Record.{Hash}
use commonsdb_iroh_service.BlobStore.{BlobStore, StoreLaws}
use commonsdb_iroh_service.BlobStore.Growth.{Grows, Grows-refl, Grows-trans, Grows-stored}
use commonsdb_iroh_service.Exec.{ok, ok_of_and_then}
use commonsdb_iroh_service.Similarity.{IsccMember}
use commonsdb_iroh_service.IsccStore.{
  IndexJson, BucketManifest, BucketRef, manifest, legacy_list, add_members, load_segments,
  bucket_manifest, bucket_members, load_bucket_manifest, update_bucket, carried,
}
use commonsdb_iroh_service.IsccStore.Loads.{load_json-get, load_segments-kept, store_json-stored}
use commonsdb_iroh_service.IsccStore.Segments.{
  IsPacked, IsPacked-kept, Written, write_segments-Written,
}
use commonsdb_iroh_service.IsccStore.Bucket.{
  Added, nothing-Added, Added-append, add_members-Added, Opened, open_tail-Opened,
}

module _ (json : IndexJson) {S : Type 0} (store : BlobStore S) where
  manifest_of_members :
      (s : S) (o : Option BucketRef) (members : List IsccMember)
      → bucket_members json store o s ≡ ok members
      → (loaded : BucketManifest) × (bucket_manifest json store o s ≡ ok loaded)
        × (load_segments json store s loaded.segments ≡ ok members)
  unfolding bucket_members bucket_manifest load_segments
  manifest_of_members s none members h = (record { count = 0; segments = [] }, refl, h)
  manifest_of_members s (some bucket) members h =
      ok_of_and_then (load_bucket_manifest json store bucket s) _ members h

  -- A bucket that reads, whose count is right, and whose segments are all full but the last.
  pub record IsBucket (s : S) (o : Option BucketRef) : Type 0 where
    pub loaded : BucketManifest
    pub members : List IsccMember
    pub manifest_loads : bucket_manifest json store o s ≡ ok loaded
    pub segments_load : load_segments json store s loaded.segments ≡ ok members
    pub counts : loaded.count ≡ length members % 2 ^ 64
    pub packed : IsPacked json store s loaded.segments

  members_of_bucket :
      (s : S) (o : Option BucketRef) (b : IsBucket s o)
      → bucket_members json store o s ≡ ok b.members
  unfolding bucket_members bucket_manifest load_segments
  members_of_bucket s none b =
      let loaded : record { count = 0; segments = [] } ≡ b.loaded =
        (let h = b.manifest_loads in cc) in
      (rw (← loaded) at b.segments_load)
  members_of_bucket s (some bucket) b = rw (b.manifest_loads) b.segments_load

  module _ (laws : StoreLaws store) where
    -- The bucket `o` of `s` has become the one under `hash` in `t`.
    pub record Updated (s : S) (o : Option BucketRef) (members batch : List IsccMember)
        (hash : Hash) (t : S) : Type 0 where
      pub grows : Grows laws s t
      pub result : List IsccMember
      pub reads : laws.Valid t → bucket_members json store (some (manifest hash)) t ≡ ok result
      pub added : Added members batch result
      pub well_formed : laws.Valid t → IsBucket s o → IsBucket t (some (manifest hash))

    -- A manifest that was just written reads back under its hash.
    manifest_stored :
        (m : BucketManifest) (s : S)
        → load_bucket_manifest json store
            (manifest (laws.address (json.manifest_to_json m)))
            (laws.stored (json.manifest_to_json m) s)
          ≡ ok m
    unfolding load_bucket_manifest
    manifest_stored m s =
        let text = json.manifest_to_json m in
        load_json-get json store json.manifest_from_json (laws.stored text s) (laws.address text)
          text m (laws.get-stored text s) (json.manifest_from-to m)

    frozen_count :
        (c n a b : ℕ) → c ≡ n % 2 ^ 64 → (c < 2 ^ 64 → a ≡ (c + b) % 2 ^ 64) → a ≡ (n + b) % 2 ^ 64
    frozen_count c n a b h k =
        k (omega (arith, h)) ∙ ap (λ m. (m + b) % 2 ^ 64) h ∙ mod-add-mod n (2 ^ 64) b

    bucket_stored :
        (m : BucketManifest) (u : S) (members : List IsccMember)
        → laws.Valid (laws.stored (json.manifest_to_json m) u)
        → (laws.Valid u → load_segments json store u m.segments ≡ ok members)
        → load_segments json store (laws.stored (json.manifest_to_json m) u) m.segments ≡ ok members
    bucket_stored m u members valid loads =
        let text = json.manifest_to_json m in
        load_segments-kept json store laws m.segments members (Grows-stored laws text u) valid
          (loads (laws.Valid-before text u valid))

    members_stored :
        (m : BucketManifest) (u : S) (members : List IsccMember)
        → load_segments json store (laws.stored (json.manifest_to_json m) u) m.segments ≡ ok members
        → bucket_members json store
            (some (manifest (laws.address (json.manifest_to_json m))))
            (laws.stored (json.manifest_to_json m) u)
          ≡ ok members
    unfolding bucket_members
    members_stored m u members h = rw (manifest_stored m u) h

    write_segments-IsBucket :
        (s u : S) (o : Option BucketRef) (loaded opened written : BucketManifest)
        (members tail grown : List IsccMember)
        → bucket_manifest json store o s ≡ ok loaded
        → load_segments json store s loaded.segments ≡ ok members
        → Opened json store s loaded members opened tail
        → Written json store laws s opened grown written u
        → laws.Valid (laws.stored (json.manifest_to_json written) u)
        → IsBucket s o
        → IsBucket
            (laws.stored (json.manifest_to_json written) u)
            (some (manifest (laws.address (json.manifest_to_json written))))
    unfolding bucket_manifest
    write_segments-IsBucket s u o loaded opened written members tail grown loads segments op w valid
          b =
        let text = json.manifest_to_json written in
        let valid_u = laws.Valid-before text u valid in
        let same : b.loaded ≡ loaded = (let loads_b = b.manifest_loads in cc) in
        let same_members : b.members ≡ members = (let h = (rw same at b.segments_load) in cc) in
        record {
          loaded = written;
          members = op.frozen ++ grown;
          manifest_loads = manifest_stored written u;
          segments_load =
              bucket_stored written u (op.frozen ++ grown) valid (w.contents op.frozen op.loads);
          counts =
              frozen_count opened.count (length op.frozen) written.count (length grown)
                (op.count (
                  ap (λ m. m.count) (sym same)
                  ∙ b.counts
                  ∙ ap (λ l. length l % 2 ^ 64) same_members))
                w.count
              ∙ ap (λ n. n % 2 ^ 64) (sym (length-append op.frozen grown));
          packed =
              IsPacked-kept json store laws written.segments (Grows-stored laws text u) valid
                (w.packed (inl (op.full (rw same at b.packed))) valid_u);
        }

    pub update_bucket-Updated :
        (s : S) (o : Option BucketRef) (members batch : List IsccMember)
        → bucket_members json store o s ≡ ok members
        → (hash : Hash) × (t : S) × (update_bucket json store o batch s ≡ (ok hash, t))
          × Updated s o members batch hash t
    unfolding update_bucket
    update_bucket-Updated s o members batch h =
        let (loaded, loads, segments) = manifest_of_members s o members h in
        let (opened, tail, opens, op) = open_tail-Opened json store s loaded members segments in
        let grown = add_members tail batch in
        let (written, u, runs, w) =
          write_segments-Written json store laws (length grown) grown opened s (omega arith) in
        let text = json.manifest_to_json written in
        (
          laws.address text,
          laws.stored text u,
          rw (loads, opens, runs, store_json-stored json store laws json.manifest_to_json written u)
              refl,
          record {
            grows = Grows-trans laws w.grows (Grows-stored laws text u);
            result = op.frozen ++ grown;
            reads = λ valid. members_stored written u (op.frozen ++ grown) (
                bucket_stored written u (op.frozen ++ grown) valid (w.contents op.frozen op.loads));
            added =
                rw (op.parts)
                  (Added-append op.frozen tail batch grown (add_members-Added tail batch));
            well_formed = λ valid b.
                write_segments-IsBucket s u o loaded opened written members tail grown loads
                  segments op w valid b;
          },
        )

    copied-IsBucket :
        (s : S) (o : Option BucketRef) (loaded : BucketManifest)
        → bucket_manifest json store o s ≡ ok loaded
        → laws.Valid (laws.stored (json.manifest_to_json loaded) s)
        → IsBucket s o
        → IsBucket
            (laws.stored (json.manifest_to_json loaded) s)
            (some (manifest (laws.address (json.manifest_to_json loaded))))
    unfolding bucket_manifest
    copied-IsBucket s o loaded loads valid b =
        let text = json.manifest_to_json loaded in
        let same : b.loaded ≡ loaded = (let loads_b = b.manifest_loads in cc) in
        record {
          loaded = loaded;
          members = b.members;
          manifest_loads = manifest_stored loaded s;
          segments_load =
              bucket_stored loaded s b.members valid (λ _. (rw same at b.segments_load));
          counts = ap (λ m. m.count) (sym same) ∙ b.counts;
          packed =
              IsPacked-kept json store laws loaded.segments (Grows-stored laws text s) valid
                (rw same at b.packed);
        }

    -- An untouched bucket is carried over as it is; a legacy one gets a manifest.
    pub carried-Updated :
        (s : S) (bucket : BucketRef) (members : List IsccMember)
        → bucket_members json store (some bucket) s ≡ ok members
        → (hash : Hash) × (t : S) × (carried json store bucket s ≡ (ok hash, t))
          × Updated s (some bucket) members [] hash t
    unfolding carried bucket_manifest
    carried-Updated s (manifest hash) members h = (
      hash,
      s,
      refl,
      record {
        grows = Grows-refl laws s;
        result = members;
        reads = λ valid. h;
        added = nothing-Added members;
        well_formed = λ valid b. b;
      },
    )
    carried-Updated s (legacy_list hash) members h =
        let (loaded, loads, segments) = manifest_of_members s (some (legacy_list hash)) members h in
        let text = json.manifest_to_json loaded in
        let kept = λ (valid : laws.Valid (laws.stored text s)).
          bucket_stored loaded s members valid (λ _. segments) in
        (
          laws.address text,
          laws.stored text s,
          rw (loads, store_json-stored json store laws json.manifest_to_json loaded s) refl,
          record {
            grows = Grows-stored laws text s;
            result = members;
            reads = λ valid. members_stored loaded s members (kept valid);
            added = nothing-Added members;
            well_formed =
                λ valid b. copied-IsBucket s (some (legacy_list hash)) loaded loads valid b;
          },
        )

    -- A well-formed bucket (it reads, its count is that of its members, all segments but the last have
    -- exactly 4096 of them and the last no more) gets new members without an error, and where the store is
    -- valid after the run the bucket that is written is well-formed again.
    pub update_bucket-IsBucket :
        (s : S) (o : Option BucketRef) (batch : List IsccMember)
        → IsBucket s o
        → (hash : Hash) × (t : S) × (update_bucket json store o batch s ≡ (ok hash, t))
          × (laws.Valid t → IsBucket t (some (manifest hash)))
    update_bucket-IsBucket s o batch b =
        let (hash, t, run, up) =
          update_bucket-Updated s o b.members batch (members_of_bucket s o b) in
        (hash, t, run, λ valid. up.well_formed valid b)
