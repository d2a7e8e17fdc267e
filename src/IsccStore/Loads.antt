-- ===== src/IsccStore/Loads.antt =====
-- What the loads of crates/registry-core/src/iscc_store.rs give when the store grows, and after a write.
use mathlib.Core.List.{append-nil, append_assoc}
use commonsdb_iroh_service.Prelude.{◌≡◌, refl, Option, none, some, List, [], ◌∷◌, ◌++◌, String}
use commonsdb_iroh_service.Prelude.Bytes.{Bytes}
use commonsdb_iroh_service.Record.{Hash}
use commonsdb_iroh_service.BlobStore.{BlobStore, BlobStoreError, StoreLaws}
use commonsdb_iroh_service.BlobStore.Growth.{Grows}
use commonsdb_iroh_service.Exec.{Result, ok, err, map_err, ok_or, and_then, ok_of_and_then}
use commonsdb_iroh_service.Similarity.{IsccMember}
use commonsdb_iroh_service.IsccStore.{
  IsccStoreError, IndexJson, missing_blob, corrupt, load_blob, load_json, store_json, load_segment,
  load_segments,
}

module _ (json : IndexJson) {S : Type 0} (store : BlobStore S) where
  -- A blob that loads is in the store.
  found_of_load :
      (r : Result BlobStoreError (Option Bytes)) (hash : Hash) (b : Bytes)
      → and_then (map_err IsccStoreError.blob_store r) (λ found. ok_or found (missing_blob hash))
        ≡ ok b
      → r ≡ ok (some b)
  found_of_load (ok (some c)) hash b h = cc
  found_of_load (ok none) hash b h = cc
  found_of_load (err e) hash b h = cc

  pub parsed_of_load :
      {T : Type 0} (r : Result String T) (hash : Hash) (v : T)
      → map_err (corrupt hash) r ≡ ok v
      → r ≡ ok v
  parsed_of_load (ok w) hash v h = cc
  parsed_of_load (err e) hash v h = cc

  pub load_json-get :
      {T : Type 0} (from_slice : Bytes → Result String T) (s : S) (hash : Hash) (b : Bytes) (v : T)
      → store.get s hash ≡ ok (some b)
      → from_slice b ≡ ok v
      → load_json json store from_slice s hash ≡ ok v
  unfolding load_json load_blob
  load_json-get from_slice s hash b v found parsed = rw (found, parsed) refl

  module _ (laws : StoreLaws store) where
    pub load_json-kept :
        {T : Type 0} (from_slice : Bytes → Result String T) {s t : S} (hash : Hash) (v : T)
        → Grows laws s t
        → laws.Valid t
        → load_json json store from_slice s hash ≡ ok v
        → load_json json store from_slice t hash ≡ ok v
    unfolding load_json load_blob
    load_json-kept from_slice {s} {t} hash v g valid h =
        let (b, loaded, parsed) = ok_of_and_then _ _ v h in
        load_json-get from_slice t hash b v
          (g.kept hash b valid (found_of_load (store.get s hash) hash b loaded))
          (parsed_of_load (from_slice b) hash v parsed)

    pub store_json-stored :
        {T : Type 0} (to_vec : T → Bytes) (v : T) (s : S)
        → store_json json store to_vec v s
          ≡ (ok (laws.address (to_vec v)), laws.stored (to_vec v) s)
    unfolding store_json
    store_json-stored to_vec v s = rw (laws.put_lem (to_vec v) s) refl

    pub load_segments-kept :
        {s t : S} (hashes : List Hash) (members : List IsccMember)
        → Grows laws s t
        → laws.Valid t
        → load_segments json store s hashes ≡ ok members
        → load_segments json store t hashes ≡ ok members
    unfolding load_segments load_segment
    load_segments-kept [] members g valid h = h
    load_segments-kept {s} {t} (hash ∷ hashes) members g valid h =
        let (first, loaded, rest) = ok_of_and_then _ _ members h in
        let (others, loads, joined) = ok_of_and_then _ _ members rest in
        rw
          (
            load_json-kept json.members_from_json hash first g valid loaded,
            load_segments-kept hashes others g valid loads,
          )
          joined

  pub load_segments-append :
      (s : S) (hashes : List Hash) (hash : Hash) (members segment : List IsccMember)
      → load_segments json store s hashes ≡ ok members
      → load_segment json store s hash ≡ ok segment
      → load_segments json store s (hashes ++ hash ∷ []) ≡ ok (members ++ segment)
  unfolding load_segments
  load_segments-append s [] hash members segment h k =
      let empty : members ≡ [] = cc in rw (k, empty, append-nil segment) refl
  load_segments-append s (first ∷ hashes) hash members segment h k =
      let (here, loaded, rest) = ok_of_and_then (load_segment json store s first) _ members h in
      let (others, loads, joined) =
        ok_of_and_then (load_segments json store s hashes) _ members rest in
      let whole : members ≡ here ++ others = cc in
      rw
        (
          loaded,
          load_segments-append s hashes hash others segment loads k,
          whole,
          append_assoc here others segment,
        )
        refl
