-- ===== src/IsccStore/Segments.antt =====
-- The loop of `insert_batch` in crates/registry-core/src/iscc_store.rs that writes the tail of a bucket
-- back in segments.
use mathlib.Core.List.{append-nil, append_assoc}
use native.Mathlib.Nat.{mod-add-mod, mod-lt}
use commonsdb_iroh_service.Prelude.{
  ℕ, zero, suc, ◌+◌, ◌%◌, ◌^◌, ◌≤◌, ◌<◌, ◌≡◌, refl, ap, sym, ◌∙◌, ◌⊎◌, Option, none, some, List, [],
  ◌∷◌, ◌++◌, length, take, drop, All, All-append, All-map, Option-cases, inl, inr, arith,
}
use commonsdb_iroh_service.Record.{Hash}
use commonsdb_iroh_service.BlobStore.{BlobStore, StoreLaws}
use commonsdb_iroh_service.BlobStore.Growth.{Grows, Grows-refl, Grows-trans, Grows-stored}
use commonsdb_iroh_service.Exec.{ok, bind_of}
use commonsdb_iroh_service.Similarity.{IsccMember}
use commonsdb_iroh_service.IsccStore.{
  IndexJson, BucketManifest, segment_max_members, split_last, add_u64, load_segment, load_segments,
  store_json, write_segments,
}
use commonsdb_iroh_service.IsccStore.Loads.{
  load_json-get, load_json-kept, store_json-stored, load_segments-kept, load_segments-append,
}

pub segment_max_members_pos : 0 < segment_max_members
unfolding segment_max_members
segment_max_members_pos = omega arith

module _ {ℓ} {A : Type ℓ} where
  take-drop : (n : ℕ) (xs : List A) → take n xs ++ drop n xs ≡ xs
  take-drop zero xs = refl
  take-drop (suc n) [] = refl
  take-drop (suc n) (x ∷ xs) = ap (λ l. x ∷ l) (take-drop n xs)

  -- A cut at `n` leaves a first part of `n`, or nothing behind it.
  length-take :
      (n : ℕ) (xs : List A)
      → (length (take n xs) ≤ n) × (length (take n xs) + length (drop n xs) ≡ length xs)
  length-take zero xs = (omega arith, omega arith)
  length-take (suc n) [] = (omega arith, refl)
  length-take (suc n) (x ∷ xs) =
      let rest = length-take n xs in (omega (arith, rest), omega (arith, rest))

  drop_full :
      (n : ℕ) (xs : List A) (y : A) (ys : List A) → drop n xs ≡ y ∷ ys → length (take n xs) ≡ n
  drop_full zero xs y ys h = refl
  drop_full (suc n) [] y ys h = cc
  drop_full (suc n) (x ∷ xs) y ys h = ap suc (drop_full n xs y ys h)

pub split_last-append :
    (before : List Hash) (last : Hash) → split_last (before ++ last ∷ []) ≡ some (before, last)
unfolding split_last
split_last-append [] last = refl
split_last-append (h ∷ before) last = rw (split_last-append before last) refl

module _ (json : IndexJson) {S : Type 0} (store : BlobStore S) where
  -- A segment whose number of members satisfies `P`.
  abbrev pub HasSize : (ℕ → Type 0) → S → Hash → Type 0
  HasSize P s hash =
      (members : List IsccMember) × (load_segment json store s hash ≡ ok members)
      × P (length members)

  abbrev pub IsFull : S → Hash → Type 0
  IsFull s hash = HasSize (λ n. n ≡ segment_max_members) s hash

  abbrev pub Split : S → Option (List Hash × Hash) → Type 0
  Split s none = Unit
  Split s (some (before, last)) =
      All (IsFull s) before × HasSize (λ n. n ≤ segment_max_members) s last

  -- Every segment but the last is full, and the last holds no more than a full one.
  abbrev pub IsPacked : S → List Hash → Type 0
  IsPacked s hashes = Split s (split_last hashes)

  module _ (laws : StoreLaws store) where
    pub HasSize-kept :
        (P : ℕ → Type 0) {s t : S} (hash : Hash)
        → Grows laws s t
        → laws.Valid t
        → HasSize P s hash
        → HasSize P t hash
    unfolding load_segment
    HasSize-kept P hash g valid (members, loads, size) = (
      members,
      load_json-kept json store laws json.members_from_json hash members g valid loads,
      size,
    )

    -- What the loop has done from the manifest `bucket` and the members `tail`.
    pub record Written (s : S) (bucket : BucketManifest) (tail : List IsccMember)
        (after : BucketManifest) (t : S) : Type 0 where
      pub grows : Grows laws s t
      pub contents :
          (members : List IsccMember)
          → load_segments json store s bucket.segments ≡ ok members
          → laws.Valid t
          → load_segments json store t after.segments ≡ ok (members ++ tail)
      pub count : bucket.count < 2 ^ 64 → after.count ≡ (bucket.count + length tail) % 2 ^ 64
      pub packed :
          All (IsFull s) bucket.segments ⊎ ((tail ≡ []) × IsPacked s bucket.segments)
          → laws.Valid t
          → IsPacked t after.segments

    All_IsFull-kept :
        {s t : S} (hashes : List Hash)
        → Grows laws s t
        → laws.Valid t
        → All (IsFull s) hashes
        → All (IsFull t) hashes
    All_IsFull-kept {s} {t} hashes g valid =
        All-map (IsFull s) (IsFull t) hashes
          (λ hash. HasSize-kept (λ n. n ≡ segment_max_members) hash g valid)

    IsFull-fits :
        (s : S) (hash : Hash) → IsFull s hash → HasSize (λ n. n ≤ segment_max_members) s hash
    IsFull-fits s hash (members, loads, full) = (members, loads, omega (arith, full))

    All_IsFull-IsPacked : (s : S) (hashes : List Hash) → All (IsFull s) hashes → IsPacked s hashes
    unfolding split_last
    All_IsFull-IsPacked s [] full = tt
    All_IsFull-IsPacked s (h ∷ hashes) full =
        let packed = All_IsFull-IsPacked s hashes full.1 in
        elim (Option-cases (split_last hashes)) [
          | inl e ↦ rw e (tt, IsFull-fits s h full.0)
          | inr ((before, last), e) ↦
              let rest : Split s (some (before, last)) = (rw e at packed) in
              rw e ((full.0, rest.0), rest.1)
        ]

    Split-kept :
        {s t : S} (o : Option (List Hash × Hash))
        → Grows laws s t
        → laws.Valid t
        → Split s o
        → Split t o
    Split-kept none g valid p = tt
    Split-kept (some (before, last)) g valid p = (
      All_IsFull-kept before g valid p.0,
      HasSize-kept (λ n. n ≤ segment_max_members) last g valid p.1,
    )

    pub IsPacked-kept :
        {s t : S} (hashes : List Hash)
        → Grows laws s t
        → laws.Valid t
        → IsPacked s hashes
        → IsPacked t hashes
    IsPacked-kept hashes g valid p = Split-kept (split_last hashes) g valid p

    stored_segment :
        (s : S) (members : List IsccMember)
        → load_segment json store
            (laws.stored (json.members_to_json members) s)
            (laws.address (json.members_to_json members))
          ≡ ok members
    unfolding load_segment
    stored_segment s members =
        let text = json.members_to_json members in
        load_json-get json store json.members_from_json (laws.stored text s) (laws.address text)
          text members (laws.get-stored text s) (json.members_from-to members)

    drop_shorter :
        (m : IsccMember) (tail : List IsccMember)
        → length (drop segment_max_members (m ∷ tail)) ≤ length tail
    unfolding segment_max_members
    drop_shorter m tail = omega (arith, length-take 4095 tail)

    add_u64_twice : (c a b n : ℕ) → a + b ≡ n → (add_u64 c a + b) % 2 ^ 64 ≡ (c + n) % 2 ^ 64
    unfolding add_u64
    add_u64_twice c a b n e =
        mod-add-mod (c + a) (2 ^ 64) b ∙ ap (λ k. k % 2 ^ 64) (omega (arith, e))

    add_u64_small : (c n : ℕ) → add_u64 c n < 2 ^ 64
    unfolding add_u64
    add_u64_small c n = mod-lt (c + n) (omega arith)

    rest_small : (c : ℕ) → c < 2 ^ 64 → (c + 0) % 2 ^ 64 ≡ c
    rest_small c small = omega (arith, small)

    -- After a segment went in, the loop goes on behind full segments, or has nothing left.
    ready_next :
        (segment rest : List IsccMember) (hashes : List Hash) (s : S)
        → laws.Valid (laws.stored (json.members_to_json segment) s)
        → All (IsFull s) hashes
        → length segment ≤ segment_max_members
        → ((y : IsccMember) (ys : List IsccMember)
            → rest ≡ y ∷ ys
            → length segment ≡ segment_max_members)
        → All
            (IsFull (laws.stored (json.members_to_json segment) s))
            (hashes ++ laws.address (json.members_to_json segment) ∷ [])
          ⊎ ((rest ≡ [])
              × IsPacked
                  (laws.stored (json.members_to_json segment) s)
                  (hashes ++ laws.address (json.members_to_json segment) ∷ []))
    ready_next segment [] hashes s valid full fits whole = inr (
      refl,
      rw (split_last-append hashes (laws.address (json.members_to_json segment))) (
        All_IsFull-kept hashes (Grows-stored laws _ s) valid full,
        (segment, stored_segment s segment, fits),
      ),
    )
    ready_next segment (y ∷ ys) hashes s valid full fits whole = inl (
        All-append (IsFull (laws.stored (json.members_to_json segment) s)) hashes
          (laws.address (json.members_to_json segment) ∷ [])
          (All_IsFull-kept hashes (Grows-stored laws _ s) valid full)
          ((segment, stored_segment s segment, whole y ys refl), tt))

    pub write_segments-Written :
        (fuel : ℕ) (tail : List IsccMember) (bucket : BucketManifest) (s : S)
        → length tail ≤ fuel
        → (after : BucketManifest) × (t : S) × (write_segments json store fuel tail bucket s
            ≡ (ok after, t))
          × Written s bucket tail after t
    unfolding write_segments
    write_segments-Written fuel [] bucket s h = (
      bucket,
      s,
      refl,
      record {
        grows = Grows-refl laws s;
        contents = λ members loads valid. loads ∙ ap ok (sym (append-nil members));
        count = λ small. sym (rest_small bucket.count small);
        packed = λ ready valid. elim ready [
          | inl full ↦ All_IsFull-IsPacked s bucket.segments full
          | inr (_, p) ↦ p
        ];
      },
    )
    write_segments-Written zero (m ∷ tail) bucket s h = absurd (omega arith)
    write_segments-Written (suc fuel) (m ∷ tail) bucket s h =
        let segment = take segment_max_members (m ∷ tail) in
        let rest = drop segment_max_members (m ∷ tail) in
        let text = json.members_to_json segment in
        let bucket1 : BucketManifest = record {
          count = add_u64 bucket.count (length segment);
          segments = bucket.segments ++ laws.address text ∷ [];
        } in
        let (after, t, run, w) =
          write_segments-Written fuel rest bucket1 (laws.stored text s)
            (omega (arith, h, drop_shorter m tail)) in
        (
          after,
          t,
          bind_of (store_json json store json.members_to_json segment) _ s (laws.stored text s)
                (laws.address text)
                (store_json-stored json store laws json.members_to_json segment s)
              ∙ run,
          record {
            grows = Grows-trans laws (Grows-stored laws text s) w.grows;
            contents = λ members loads valid.
                w.contents (members ++ segment)
                  (load_segments-append json store (laws.stored text s) bucket.segments
                    (laws.address text) members segment
                    (load_segments-kept json store laws bucket.segments members
                      (Grows-stored laws text s) (w.grows.before valid) loads)
                    (stored_segment s segment))
                  valid
                ∙ ap ok (
                    append_assoc members segment rest
                    ∙ ap (λ l. members ++ l) (take-drop segment_max_members (m ∷ tail)));
            count = λ small.
                w.count (add_u64_small bucket.count (length segment))
                ∙ add_u64_twice bucket.count (length segment) (length rest) (length (m ∷ tail))
                    (length-take segment_max_members (m ∷ tail)).1;
            packed = λ ready valid. elim ready [
              | inl full ↦
                  w.packed
                    (ready_next segment rest bucket.segments s (w.grows.before valid) full
                      (length-take segment_max_members (m ∷ tail)).0
                      (drop_full segment_max_members (m ∷ tail)))
                    valid
              | inr (nil, _) ↦ absurd (cc)
            ];
          },
        )
