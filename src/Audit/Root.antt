-- ===== src/Audit/Root.antt =====
-- The repair of a root pointer never points a partition at nothing: `set_root` of
-- crates/registryd/src/verify.rs.
use commonsdb_iroh_service.Prelude.{
  ℕ, ◌==◌, arith, ◌≡◌, ◌≢◌, ◌⊎◌, refl, inl, inr, true, Option-cases, some,
}
use commonsdb_iroh_service.Record.{Hash}
use commonsdb_iroh_service.Prelude.{length}
use commonsdb_iroh_service.External.{Sha256, EntryJson}
use commonsdb_iroh_service.BlobStore.{BlobStore}
use commonsdb_iroh_service.Redb.{Redb, number_key, get-insert_self}
use commonsdb_iroh_service.RecordIndex.{RecordJson, get_local_root, set_local_root, root_of_bytes}
use commonsdb_iroh_service.Hamt.{HamtNode, read_node, decode}
use commonsdb_iroh_service.Publisher.{PointerDoc, World}
use commonsdb_iroh_service.Exec.{ok, err, Result-cases}
use commonsdb_iroh_service.Audit.{AuditError, blob_error, not_readable, not_a_node, set_root}

module _ (sha : Sha256) (json_text : EntryJson) (redb : Redb) (record_json : RecordJson)
    {S D : Type 0} (store : BlobStore S) (pointer_doc : PointerDoc D) (p : ℕ) (h : Hash)
    (w : World redb S D) where
  -- Nothing was written, and the hash has no node in the store.
  pub record Refused : Type 0 where
    pub error : AuditError
    pub runs : set_root sha json_text redb record_json store pointer_doc p h w ≡ (err error, w)
    pub unreadable : (node : HamtNode) → read_node json_text store w.blobs h ≢ ok node

  -- The index and the pointer document have the root.
  pub record PointsAt (doc' : D) : Type 0 where
    pub after : World redb S D
    pub runs : set_root sha json_text redb record_json store pointer_doc p h w ≡ (ok tt, after)
    pub root : get_local_root redb record_json after.index p ≡ some h
    pub doc : after.doc ≡ doc'
    pub blobs : after.blobs ≡ w.blobs
    pub records : after.index.records ≡ w.index.records

  -- The node of the hash is there; a write to the pointer document that succeeds sets the root.
  pub record Accepted : Type 0 where
    pub node : HamtNode
    pub readable : read_node json_text store w.blobs h ≡ ok node
    pub sets : (doc' : D) → pointer_doc.set_partition_root p h w.doc ≡ (ok tt, doc') → PointsAt doc'

  local_root_there :
      (db : _)
      → length h ≡ 32
      → get_local_root redb record_json (set_local_root redb record_json p h db).1 p ≡ some h
  unfolding get_local_root set_local_root root_of_bytes
  local_root_there db l =
      let wide : (length h == 32) ≡ true = ground (arith, l) in
      rw (get_local_root, get-insert_self redb number_key db.roots p h, root_of_bytes, wide) refl

  -- For a hash of 32 bytes `set_root` either is an error that changes nothing, and then the hash has no node
  -- that can be read in the store, or the node is there, and where the write to the pointer document succeeds
  -- `set_root` does, the hash is the local root of the partition, and the blobs and the records stay as they are.
  pub set_root-Refused-Accepted : length h ≡ 32 → Refused ⊎ Accepted
  unfolding set_root read_node
  set_root-Refused-Accepted l = elim (Result-cases (store.get w.blobs h)) [
    | inr (e, failed) ↦ inl record {
      error = blob_error e;
      runs = rw (set_root, failed) refl;
      unreadable = λ node found. let lost = (rw (read_node, failed) at found) in cc;
    }
    | inl (found, got) ↦ elim (Option-cases found) [
      | inl missing ↦ inl record {
        error = not_readable h;
        runs = rw (set_root, got, missing) refl;
        unreadable = λ node found. let lost = (rw (got, missing) at found) in cc;
      }
      | inr (bytes, there) ↦ elim (Result-cases (decode json_text bytes h)) [
        | inr (e, bad) ↦ inl record {
          error = not_a_node e;
          runs = rw (set_root, got, there, bad) refl;
          unreadable = λ node found. let lost = (rw (got, there, bad) at found) in cc;
        }
        | inl (node, good) ↦ inr record {
          node = node;
          readable = rw (read_node, got, there, good) refl;
          sets = λ doc' written. record {
            after = record {
              index = (set_local_root redb record_json p h w.index).1;
              blobs = w.blobs;
              doc = doc';
            };
            runs = rw (set_root, got, there, good, written) refl;
            root = local_root_there w.index l;
            doc = refl;
            blobs = refl;
            records = refl;
          };
        }
      ]
    ]
  ]
