-- ===== src/Gc/Protects.antt =====
-- The protect set of crates/registryd/src/gc.rs holds every value that the index knows of.
use commonsdb_iroh_service.Prelude.{
  ℕ, zero, suc, ◌≡◌, refl, sym, ap, ◌∙◌, true, Bool-cases, Option, none, some, inl, inr, List, [],
  ◌∷◌, ◌++◌, arith,
}
use mathlib.Core.Path.{subst}
use commonsdb_iroh_service.Prelude.Words.{range_from}
use commonsdb_iroh_service.Prelude.Bytes.{Bytes, bytes_eq, bytes_eq_refl}
use commonsdb_iroh_service.Record.{Hash, LeafEntry}
use commonsdb_iroh_service.External.{EntryJson}
use commonsdb_iroh_service.BlobStore.{BlobStore}
use commonsdb_iroh_service.Redb.{Redb, text_key, get_row}
use commonsdb_iroh_service.Exec.{Result-cases, ok_of_and_then, Exec, ok, err}
use commonsdb_iroh_service.Hamt.{HamtError, leaf, intermediate, hamt_fuel, contains, read_node}
use commonsdb_iroh_service.Hamt.Walk.{insert_hash, insert_hashes, reach_children, collect_reachable}
use commonsdb_iroh_service.RecordIndex.{
  IndexRecord, RecordJson, Database, from_slice, parse_row, read_record, get, all_local_roots,
}
use commonsdb_iroh_service.RecordIndex.Scan.{content_hashes, all_content_hashes}
use commonsdb_iroh_service.IsccStore.{
  IndexJson, Directory, manifest, legacy_list, load_json, load_directory,
}
use commonsdb_iroh_service.IsccStore.Query
use commonsdb_iroh_service.IsccStore.Query.{extend_hashes, reach_buckets}
use commonsdb_iroh_service.Gc.{
  doc_error, index_error, GcSources, fill_roots, reach_partitions, reach_named, collect_live,
}

-- Nothing of `out` is missing from `out'`.
abbrev Keeps : List Hash → List Hash → Type 0
Keeps out out' = (h : Hash) → contains out h ≡ true → contains out' h ≡ true

pub contains-cons : (x : Hash) (out : List Hash) → Keeps out (x ∷ out)
unfolding contains
contains-cons x out h c = ground arith

contains-append : (xs out : List Hash) → Keeps out (xs ++ out)
unfolding contains
contains-append [] out h c = c
contains-append (x ∷ xs) out h c = let rest = contains-append xs out h c in ground arith

insert_hash-Keeps : (x : Hash) (out : List Hash) → Keeps out (insert_hash x out)
unfolding insert_hash
insert_hash-Keeps x out h c = elim (Bool-cases (contains out x)) [
  | inl p ↦ rw p c
  | inr p ↦ rw p (contains-cons x out h c)
]

insert_hashes-Keeps : (es : List LeafEntry) (out : List Hash) → Keeps out (insert_hashes es out)
unfolding insert_hashes
insert_hashes-Keeps [] out h c = c
insert_hashes-Keeps (e ∷ es) out h c =
    insert_hashes-Keeps es (insert_hash e.hash out) h (insert_hash-Keeps e.hash out h c)

abbrev KeepsAll : (Hash → Exec HamtError (List Hash) (Unit {0})) → Type 0
KeepsAll visit = (root : Hash) (out : List Hash) → Keeps out (visit root out).1

reach_children-Keeps :
    (visit : Hash → Exec HamtError (List Hash) (Unit {0}))
    → KeepsAll visit
    → (slots : List (Option Hash)) (out : List Hash) → Keeps out (reach_children visit slots out).1
unfolding reach_children
reach_children-Keeps visit k [] out h c = c
reach_children-Keeps visit k (none ∷ slots) out h c = reach_children-Keeps visit k slots out h c
reach_children-Keeps visit k (some x ∷ slots) out h c = elim (Result-cases (visit x out).0) [
  | inl (a, e) ↦
      rw (reach_children, e) (reach_children-Keeps visit k slots (visit x out).1 h (k x out h c))
  | inr (x', e) ↦ rw (reach_children, e) (k x out h c)
]

module _ (json_text : EntryJson) {S : Type 0} (store : BlobStore S) (blobs : S) where
  collect_reachable-Keeps : (fuel : ℕ) → KeepsAll (collect_reachable json_text store blobs fuel)
  unfolding collect_reachable
  collect_reachable-Keeps zero root out h c = c
  collect_reachable-Keeps (suc fuel) root out h c =
      let more = contains-cons root out h c in
      elim (Bool-cases (contains out root)) [
        | inl p ↦ rw (collect_reachable, p) c
        | inr p ↦ elim (Result-cases (read_node json_text store blobs root)) [
          | inr (x, e) ↦ rw (collect_reachable, p, e) more
          | inl (leaf es, e) ↦
              rw (collect_reachable, p, e) (insert_hashes-Keeps es (root ∷ out) h more)
          | inl (intermediate slots, e) ↦
              rw (collect_reachable, p, e)
                (reach_children-Keeps (collect_reachable json_text store blobs fuel)
                  (collect_reachable-Keeps fuel) slots (root ∷ out) h more)
        ]
      ]

  reach_partitions-Keeps :
      (roots : List (ℕ × Hash)) (live : List Hash)
      → Keeps live (reach_partitions json_text store blobs roots live)
  unfolding reach_partitions
  reach_partitions-Keeps [] live h c = c
  reach_partitions-Keeps (row ∷ roots) live h c =
      reach_partitions-Keeps roots (collect_reachable json_text store blobs hamt_fuel row.1 live).1
        h (collect_reachable-Keeps hamt_fuel row.1 live h c)

extend_hashes-Keeps : (hashes out : List Hash) → Keeps out (extend_hashes hashes out)
unfolding extend_hashes
extend_hashes-Keeps [] out h c = c
extend_hashes-Keeps (x ∷ hashes) out h c =
    extend_hashes-Keeps hashes (insert_hash x out) h (insert_hash-Keeps x out h c)

module _ (index_json : IndexJson) {S : Type 0} (store : BlobStore S) (blobs : S) where
  reach_buckets-Keeps :
      (rows : Directory) (out : List Hash)
      → Keeps out (reach_buckets index_json store blobs rows out).1
  unfolding reach_buckets
  reach_buckets-Keeps [] out h c = c
  reach_buckets-Keeps ((key, legacy_list x) ∷ rows) out h c =
      reach_buckets-Keeps rows (insert_hash x out) h (insert_hash-Keeps x out h c)
  reach_buckets-Keeps ((key, manifest x) ∷ rows) out h c =
      let more = insert_hash-Keeps x out h c in
      elim (Result-cases (load_json index_json store index_json.manifest_from_json blobs x)) [
        | inr (e, failed) ↦ rw (reach_buckets, failed) more
        | inl (bucket, loaded) ↦
            rw (reach_buckets, loaded)
              (reach_buckets-Keeps rows (extend_hashes bucket.segments (insert_hash x out)) h
                (extend_hashes-Keeps bucket.segments (insert_hash x out) h more))
      ]

  reach_index-Keeps :
      (root : Hash) (live : List Hash)
      → Keeps live (Query.collect_reachable index_json store blobs root live).1
  unfolding Query.collect_reachable
  reach_index-Keeps root live h c =
      let more = contains-cons root live h c in
      elim (Bool-cases (contains live root)) [
        | inl seen ↦ rw (Query.collect_reachable, seen) c
        | inr new ↦ elim (Result-cases (load_directory index_json store (some root) blobs)) [
          | inr (e, failed) ↦ rw (Query.collect_reachable, new, failed) more
          | inl (rows, loaded) ↦
              rw (Query.collect_reachable, new, loaded)
                (reach_buckets-Keeps rows (root ∷ live) h more)
        ]
      ]

  reach_named-Keeps :
      (named : Option Hash) (live : List Hash)
      → Keeps live (reach_named index_json store blobs named live)
  unfolding reach_named
  reach_named-Keeps none live h c = c
  reach_named-Keeps (some root) live h c = reach_index-Keeps root live h c

contains_first : (x : Hash) (out : List Hash) → contains (x ∷ out) x ≡ true
unfolding contains
contains_first x out = rw (bytes_eq_refl x) refl

-- The pass over the rows finds the hash of every record that a row holds.
module _ (redb : Redb) (record_json : RecordJson) (key raw : Bytes) (r : IndexRecord) where
  content_hashes-contains :
      (rows : List (Bytes × Bytes)) (hashes : List Hash)
      → get_row text_key key rows ≡ some raw
      → from_slice redb record_json raw ≡ ok r
      → content_hashes redb record_json rows ≡ ok hashes
      → contains hashes r.content_hash ≡ true
  unfolding content_hashes get_row
  content_hashes-contains [] hashes there reads e = cc
  content_hashes-contains ((k, bytes) ∷ rows) hashes there reads e =
      let (s, read, rest) = ok_of_and_then (from_slice redb record_json bytes) _ hashes e in
      let (others, all, joined) =
        ok_of_and_then (content_hashes redb record_json rows) _ hashes rest in
      let list : s.content_hash ∷ others ≡ hashes = cc in
      subst (λ l. contains l r.content_hash ≡ true) list
        (elim (Bool-cases (bytes_eq key k)) [
          | inl same ↦
              let first : some bytes ≡ some raw = (rw same at there) in
              let same_record : s ≡ r = cc in rw same_record (contains_first r.content_hash others)
          | inr other ↦
              let later : get_row text_key key rows ≡ some raw = (rw other at there) in
              contains-cons s.content_hash others r.content_hash
                (content_hashes-contains rows others later reads all)
        ])

module _ (redb : Redb) (record_json : RecordJson) (r : IndexRecord) where
  found_row :
      (found : Option Bytes)
      → parse_row redb record_json found ≡ ok (some r)
      → (raw : Bytes) × (found ≡ some raw) × (from_slice redb record_json raw ≡ ok r)
  unfolding parse_row
  found_row none e = cc
  found_row (some bytes) e =
      let (s, read, rest) = ok_of_and_then (from_slice redb record_json bytes) _ (some r) e in
      let same : s ≡ r = cc in (bytes, refl, read ∙ ap ok same)

module _ (redb : Redb) (record_json : RecordJson) where
  index_hash :
      (db : Database redb) (key : Bytes) (r : IndexRecord) (hashes : List Hash)
      → get redb record_json db key ≡ ok (some r)
      → all_content_hashes redb record_json db ≡ ok hashes
      → contains hashes r.content_hash ≡ true
  unfolding get read_record all_content_hashes
  index_hash db key r hashes known e =
      let (raw, there, reads) =
        found_row redb record_json r (redb.get text_key db.records key) known in
      content_hashes-contains redb record_json key raw r (redb.iter db.records) hashes
        (sym (redb.get_lem text_key db.records key) ∙ there) reads e

module _ (json_text : EntryJson) (index_json : IndexJson) {S : Type 0} (store : BlobStore S)
    (blobs : S) (redb : Redb) (record_json : RecordJson) (sources : GcSources)
    (db : Database redb) where
  keeps_hashes :
      (live hashes : List Hash) (h : Hash)
      → collect_live sources json_text index_json store blobs redb record_json db ≡ ok live
      → all_content_hashes redb record_json db ≡ ok hashes
      → contains hashes h ≡ true
      → contains live h ≡ true
  unfolding collect_live
  keeps_hashes live hashes h run e c =
      let partitions = range_from 0 sources.top_level_partitions in
      elim (Result-cases (fill_roots sources partitions (all_local_roots redb record_json db))) [
        | inr (x, f) ↦ let failed : err x ≡ ok live = rw (collect_live, e, f) at run in absurd (cc)
        | inl (roots, f) ↦ elim (Result-cases sources.get_named_root) [
          | inr (x, g) ↦
              let failed : err (doc_error x) ≡ ok live = rw (collect_live, e, f, g) at run in
              absurd (cc)
          | inl (named, g) ↦ elim (Result-cases sources.entry_content_hashes) [
            | inr (x, k) ↦
                let failed : err (doc_error x) ≡ ok live = rw (collect_live, e, f, g, k) at run in
                absurd (cc)
            | inl (entries, k) ↦
                let reached = reach_partitions json_text store blobs roots hashes in
                let all = entries ++ reach_named index_json store blobs named reached in
                let done : ok all ≡ ok live = rw (collect_live, e, f, g, k) at run in
                let same : all ≡ live = cc in
                subst (λ l. contains l h ≡ true) same
                  (contains-append entries (reach_named index_json store blobs named reached) h (
                    reach_named-Keeps index_json store blobs named reached h
                      (reach_partitions-Keeps json_text store blobs roots hashes h c)))
          ]
        ]
      ]

  -- Where `collect_live` succeeds and the index answers a key with a record, of whatever status, the
  -- record's content hash is in the protect set, whichever walks ended in an error.
  pub collect_live-keeps_index :
      (live : List Hash) (key : Bytes) (r : IndexRecord)
      → collect_live sources json_text index_json store blobs redb record_json db ≡ ok live
      → get redb record_json db key ≡ ok (some r)
      → contains live r.content_hash ≡ true
  unfolding collect_live
  collect_live-keeps_index live key r run known =
      elim (Result-cases (all_content_hashes redb record_json db)) [
        | inr (x, e) ↦
            let failed : err (index_error x) ≡ ok live = rw (collect_live, e) at run in absurd (cc)
        | inl (hashes, e) ↦
            keeps_hashes live hashes r.content_hash run e
              (index_hash redb record_json db key r hashes known e)
      ]
