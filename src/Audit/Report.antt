-- ===== src/Audit/Report.antt =====
-- What an audit of one partition reports and changes: `run` of crates/registryd/src/verify.rs.
use commonsdb_iroh_service.Prelude.{
  ℕ, ◌+◌, ◌<◌, ◌≤◌, ◌^◌, ◌≡◌, ◌⊎◌, ◌↔◌, refl, sym, ap, ◌∙◌, inl, inr, Bool, true, false, Option,
  none, some, List, [], ◌∷◌, ◌++◌, length, All, arith,
}
use commonsdb_iroh_service.Prelude.Bytes.{Bytes}
use commonsdb_iroh_service.Record.{Hash, LeafEntry}
use commonsdb_iroh_service.External.{Sha256, EntryJson}
use commonsdb_iroh_service.BlobStore.{BlobStore}
use commonsdb_iroh_service.Redb.{Redb}
use commonsdb_iroh_service.RecordIndex.{RecordJson, next_seq, get_local_root}
use commonsdb_iroh_service.RecordIndex.Scan.{published_keys_for_partition}
use commonsdb_iroh_service.RecordIndex.Claims.{numbered}
use commonsdb_iroh_service.Hamt.{contains, hamt_fuel}
use commonsdb_iroh_service.Hamt.Walk.{walk_entries}
use commonsdb_iroh_service.Publisher.{PointerDoc, World, current_root}
use commonsdb_iroh_service.Exec.{ok}
use commonsdb_iroh_service.Audit.{
  VerifyReport, key_set, without, entry_keys, start_report, counted, expected_keys, keys_under,
  tree_keys, audit_partition, audit_all, run,
}
use commonsdb_iroh_service.Audit.Sets.{
  IsDistinct, IsSetOf, IsDifference, key_set-IsSetOf, without-IsDifference, length-key_set,
  length-without,
}
use commonsdb_iroh_service.Audit.Expected.{AllReadable, PublishedIn, published_keys-Scanned}
use commonsdb_iroh_service.Audit.Requeues.{none_before, requeued_by, fix_missing-Fixed}

-- What the report counts.
pub record Counts (expected in_tree missing foreign : List Bytes) (requeued : ℕ) (r : VerifyReport)
    : Type 0 where
  pub checked : r.partitions_checked ≡ 1
  pub gaps : (r.partitions_with_gaps ≡ 0) ↔ (missing ≡ [])
  pub at_most_one : r.partitions_with_gaps ≤ 1
  pub expected_total : r.expected_total ≡ length expected
  pub in_tree_total : r.in_tree_total ≡ length in_tree
  pub missing_total : r.missing_total ≡ length missing
  pub foreign_total : r.foreign_total ≡ length foreign
  pub requeued_total : r.requeued_total ≡ requeued

abbrev if_any : List Bytes → ℕ
if_any missing = elim missing [ [] ↦ 0 | key ∷ keys ↦ 0 + 1 ]

no_gap : (missing : List Bytes) → (if_any missing ≡ 0) → missing ≡ []
no_gap [] h = refl
no_gap (key ∷ keys) h = absurd (omega (arith, h))

one_gap : (missing : List Bytes) → if_any missing ≤ 1
one_gap [] = omega arith
one_gap (key ∷ keys) = omega arith

counted-Counts :
    (expected in_tree : List Bytes) (n : ℕ)
    → Counts expected in_tree
        (without expected in_tree)
        (without in_tree expected)
        n
        (counted expected in_tree n start_report)
unfolding counted
counted-Counts expected in_tree n = record {
  checked = refl;
  gaps = (no_gap (without expected in_tree), λ e. ap if_any e);
  at_most_one = one_gap (without expected in_tree);
  expected_total = none_before (length expected);
  in_tree_total = none_before (length in_tree);
  missing_total = none_before (length (without expected in_tree));
  foreign_total = none_before (length (without in_tree expected));
  requeued_total = none_before n;
}

module _ (sha : Sha256) (json_text : EntryJson) (redb : Redb) (record_json : RecordJson)
    {S D : Type 0} (store : BlobStore S) (pointer_doc : PointerDoc D) where
  -- The entries under the root of a partition, if it has one.
  abbrev pub Walks : Option Hash → World redb S D → List LeafEntry → Type 0
  Walks none w entries = entries ≡ []
  Walks (some root) w entries = walk_entries json_text store w.blobs hamt_fuel root [] ≡ ok entries

  -- The local root, or without one the root of the pointer document.
  abbrev pub HasRoot : ℕ → World redb S D → Option Hash → Type 0
  HasRoot p w root =
      ((h : Hash) × (get_local_root redb record_json w.index p ≡ some h) × (root ≡ some h))
      ⊎ ((get_local_root redb record_json w.index p ≡ none)
          × (pointer_doc.get_partition_root w.doc p ≡ ok root))

  current_root-HasRoot :
      (p : ℕ) (w : World redb S D) (root : Option Hash)
      → HasRoot p w root
      → current_root sha json_text redb record_json store pointer_doc p w ≡ ok root
  unfolding current_root
  current_root-HasRoot p w root (inl (h, local, e)) = rw (current_root, local, e) refl
  current_root-HasRoot p w root (inr (absent, there)) = rw (current_root, absent, there) refl

  tree_keys-Walks :
      (p : ℕ) (root : Option Hash) (entries : List LeafEntry) (w : World redb S D)
      → current_root sha json_text redb record_json store pointer_doc p w ≡ ok root
      → Walks root w entries
      → tree_keys sha json_text redb record_json store pointer_doc p w
        ≡ ok (key_set [] (entry_keys entries))
  unfolding tree_keys keys_under key_set
  tree_keys-Walks p none entries w e h = rw (e, h) refl
  tree_keys-Walks p (some root) entries w e h = rw (e, keys_under, h) refl

  pub record Reported (fix : Bool) (top_level_partitions p : ℕ) (entries : List LeafEntry)
      (w : World redb S D) : Type 0 where
    pub report : VerifyReport
    pub after : World redb S D
    pub expected : List Bytes
    pub in_tree : List Bytes
    pub missing : List Bytes
    pub foreign : List Bytes
    pub runs :
        run sha json_text redb record_json store pointer_doc top_level_partitions (some p) fix w
        ≡ (ok report, after)
    pub published :
        (k : Bytes)
        → (contains expected k ≡ true)
          ↔ PublishedIn redb record_json p k (redb.iter w.index.records)
    pub once : IsDistinct expected
    pub in_tree_set : IsSetOf (entry_keys entries) in_tree
    pub missing_set : IsDifference expected in_tree missing
    pub foreign_set : IsDifference in_tree expected foreign
    pub counts :
        Counts expected in_tree missing foreign
          (length (requeued_by redb fix w.index.records missing))
          report
    pub queue :
        redb.iter after.index.queue
        ≡ redb.iter w.index.queue
          ++ numbered (next_seq redb w.index) (requeued_by redb fix w.index.records missing)
    pub records : after.index.records ≡ w.index.records
    pub blobs : after.blobs ≡ w.blobs
    pub doc : after.doc ≡ w.doc
    pub untouched : fix ≡ false → after ≡ w

  -- On an index whose rows can be read, whose queue numbers are below the next one and whose counter has room,
  -- and where the tree under the partition's root (the local one, or else that of the pointer document) can be
  -- walked, an audit of the partition succeeds.
  -- The keys that it expects are those of the published rows of the partition; it counts them, the keys of
  -- the tree, the expected keys that the tree lacks and the keys of the tree that are not expected, each
  -- once, and reports one gap exactly when a key is missing. With `fix` the missing keys that have a record
  -- join the queue, behind all that were there and under successive numbers, and their number is reported;
  -- without it none do and nothing changes. The records, the blobs and the pointer document stay as they are.
  pub run-Reported :
      (fix : Bool) (top_level_partitions p : ℕ) (root : Option Hash) (entries : List LeafEntry)
      (w : World redb S D)
      → AllReadable redb record_json (redb.iter w.index.records)
      → HasRoot p w root
      → Walks root w entries
      → next_seq redb w.index + length (redb.iter w.index.records) < 2 ^ 64
      → All (λ row. row.0 < next_seq redb w.index) (redb.iter w.index.queue)
      → Reported fix top_level_partitions p entries w
  unfolding run audit_all audit_partition expected_keys published_keys_for_partition
  run-Reported fix n p root entries w readable has walked room below =
      let scan = published_keys-Scanned redb record_json p (redb.iter w.index.records) readable in
      let expected = key_set [] scan.keys in
      let in_tree = key_set [] (entry_keys entries) in
      let e_set = key_set-IsSetOf scan.keys in
      let t_set = key_set-IsSetOf (entry_keys entries) in
      let missing = without expected in_tree in
      let l1 = length-key_set [] scan.keys in
      let l2 = length-without expected in_tree in
      let l3 = scan.few in
      let f =
        fix_missing-Fixed sha json_text redb record_json store pointer_doc fix missing w
          (omega arith) below in
      record {
        report =
            counted expected in_tree (length (requeued_by redb fix w.index.records missing))
              start_report;
        after = f.after;
        expected = expected;
        in_tree = in_tree;
        missing = missing;
        foreign = without in_tree expected;
        runs =
            rw
              (
                run,
                scan.runs,
                tree_keys-Walks p root entries w (current_root-HasRoot p w root has) walked,
                f.runs,
              )
              refl;
        published = λ k. (
          (λ c. (scan.members k).0 (sym (e_set.members k) ∙ c)),
          (λ there. e_set.members k ∙ (scan.members k).1 there),
        );
        once = e_set.distinct;
        in_tree_set = t_set;
        missing_set = without-IsDifference expected in_tree e_set.distinct;
        foreign_set = without-IsDifference in_tree expected t_set.distinct;
        counts =
            counted-Counts expected in_tree (length (requeued_by redb fix w.index.records missing));
        queue = f.queue;
        records = f.records;
        blobs = f.blobs;
        doc = f.doc;
        untouched = f.untouched;
      }
