-- ===== src/Audit.antt =====
-- crates/registryd/src/verify.rs: the audit of the published trees against the index (`registryd verify`), and
-- the repair of a root pointer (`set_root`).
--
-- A `HashSet` of keys is a list without repetitions, in the order of the keys' first occurrence. The
-- hash that `set_root` gets is already parsed.
pub mod Sets
pub mod Expected
pub mod Requeues
pub mod Report
pub mod Root
use commonsdb_iroh_service.Prelude.{
  ℕ, ◌+◌, Bool, true, false, Option, none, some, List, [], ◌∷◌, length, get_elem?, if◌then◌else◌,
}
use commonsdb_iroh_service.Prelude.Bytes.{Bytes}
use commonsdb_iroh_service.Prelude.Words.{range_from}
use commonsdb_iroh_service.Record.{Hash, LeafEntry}
use commonsdb_iroh_service.External.{Sha256, EntryJson}
use commonsdb_iroh_service.BlobStore.{BlobStore, BlobStoreError}
use commonsdb_iroh_service.Redb.{Redb}
use commonsdb_iroh_service.RecordIndex.{RecordJson, requeue, set_local_root}
use commonsdb_iroh_service.RecordIndex.Scan.{published_keys_for_partition, spill_published_keys}
use commonsdb_iroh_service.Hamt.{HamtError, contains, decode, hamt_fuel, split_lines}
use commonsdb_iroh_service.Hamt.Walk.{walk_entries}
use commonsdb_iroh_service.Publisher.{
  PointerDoc, World, PublishError, index_error, hamt_error, on_index, on_doc, current_root,
}
use commonsdb_iroh_service.Exec.{
  Result, ok, map_err, and_then, ok_or, Exec, pure, lift, asks, ◌>>=◌, ◌>>◌,
}

pub record VerifyReport : Type 0 where
  pub partitions_checked : ℕ
  pub partitions_with_gaps : ℕ
  pub expected_total : ℕ
  pub in_tree_total : ℕ
  pub missing_total : ℕ
  pub foreign_total : ℕ
  pub requeued_total : ℕ

pub data AuditError : Type 0 where
  failed : PublishError → AuditError
  no_key_file : (partition : ℕ) → AuditError
  blob_error : BlobStoreError → AuditError
  not_readable : Hash → AuditError
  not_a_node : HamtError → AuditError

-- `collect::<HashSet<String>>()`
unfoldable pub key_set : List Bytes → List Bytes → List Bytes
key_set seen [] = []
key_set seen (key ∷ keys) = elim (contains seen key) [
  | true ↦ key_set seen keys
  | false ↦ key ∷ key_set (key ∷ seen) keys
]

-- `a.iter().filter(|k| !b.contains(k))`
unfoldable pub without : List Bytes → List Bytes → List Bytes
without [] present = []
without (key ∷ keys) present =
    let rest = without keys present in if contains present key then rest else key ∷ rest

-- `str::lines`: nothing stands behind the last newline. No record key ends in a carriage return.
unfoldable pub drop_last_empty : List Bytes → List Bytes
drop_last_empty [] = []
drop_last_empty ([] ∷ []) = []
drop_last_empty ((b ∷ line) ∷ []) = (b ∷ line) ∷ []
drop_last_empty (line ∷ next ∷ lines) = line ∷ drop_last_empty (next ∷ lines)

abbrev pub start_report : VerifyReport
start_report = record {
  partitions_checked = 0;
  partitions_with_gaps = 0;
  expected_total = 0;
  in_tree_total = 0;
  missing_total = 0;
  foreign_total = 0;
  requeued_total = 0;
}

-- The report with one more partition, of which `requeued` keys went back into the queue.
unfoldable pub counted : List Bytes → List Bytes → ℕ → VerifyReport → VerifyReport
unfolding without
counted expected in_tree requeued r =
    let missing = without expected in_tree in
    record {
      partitions_checked = r.partitions_checked + 1;
      partitions_with_gaps = elim missing [
        | [] ↦ r.partitions_with_gaps
        | key ∷ keys ↦ r.partitions_with_gaps + 1
      ];
      expected_total = r.expected_total + length expected;
      in_tree_total = r.in_tree_total + length in_tree;
      missing_total = r.missing_total + length missing;
      foreign_total = r.foreign_total + length (without in_tree expected);
      requeued_total = r.requeued_total + requeued;
    }

abbrev pub entry_keys : List LeafEntry → List Bytes
entry_keys [] = []
entry_keys (e ∷ entries) = e.key ∷ entry_keys entries

module _ (sha : Sha256) (json_text : EntryJson) (redb : Redb) (record_json : RecordJson)
    {S D : Type 0} (store : BlobStore S) (pointer_doc : PointerDoc D) where
  abbrev pub Audited : Type 0
  Audited = World redb S D

  -- The keys that the index says are published: from the spill file of a full audit, or from a scan.
  unfoldable pub expected_keys : Option (List Bytes) → ℕ → Audited → Result AuditError (List Bytes)
  unfolding key_set drop_last_empty split_lines published_keys_for_partition
  expected_keys none p w =
      and_then
        (map_err (λ e. failed (index_error e))
          (published_keys_for_partition redb record_json w.index p))
        λ keys. ok (key_set [] keys)
  expected_keys (some files) p w =
      and_then (ok_or (get_elem? files p) (no_key_file p))
        λ text. ok (key_set [] (drop_last_empty (split_lines text)))

  unfoldable pub keys_under : Option Hash → Audited → Result AuditError (List Bytes)
  unfolding key_set walk_entries
  keys_under none w = ok []
  keys_under (some root) w =
      and_then
        (map_err (λ e. failed (hamt_error e))
          (walk_entries json_text store w.blobs hamt_fuel root []))
        λ entries. ok (key_set [] (entry_keys entries))

  unfoldable pub tree_keys : ℕ → Audited → Result AuditError (List Bytes)
  unfolding current_root keys_under
  tree_keys p w =
      and_then (map_err failed (current_root sha json_text redb record_json store pointer_doc p w))
        λ root. keys_under root w

  -- The loop of `--fix`, with the number of keys that went back into the queue.
  unfoldable pub requeue_all : List Bytes → ℕ → Exec PublishError Audited ℕ
  unfolding requeue
  requeue_all [] n = pure n
  requeue_all (key ∷ keys) n = do
    requeued ← on_index redb S D (requeue redb record_json key)
    requeue_all keys (if requeued then n + 1 else n)

  abbrev pub fix_missing : Bool → List Bytes → Exec AuditError Audited ℕ
  fix_missing false missing w = (ok 0, w)
  fix_missing true missing w = let ran = requeue_all missing 0 w in (map_err failed ran.0, ran.1)

  -- The body of the loop over the partitions.
  unfoldable pub audit_partition :
      Option (List Bytes) → Bool → ℕ → VerifyReport → Exec AuditError Audited VerifyReport
  unfolding expected_keys tree_keys without requeue_all counted
  audit_partition files fix p report = do
    expected ← asks (expected_keys files p)
    in_tree ← asks (tree_keys p)
    requeued ← fix_missing fix (without expected in_tree)
    pure (counted expected in_tree requeued report)

  unfoldable pub audit_all :
      Option (List Bytes) → Bool → List ℕ → VerifyReport → Exec AuditError Audited VerifyReport
  unfolding audit_partition
  audit_all files fix [] report = pure report
  audit_all files fix (p ∷ partitions) report = do
    next ← audit_partition files fix p report
    audit_all files fix partitions next

  -- `run`: one partition, or all of them with a single pass over the index.
  unfoldable pub run : ℕ → Option ℕ → Bool → Exec AuditError Audited VerifyReport
  unfolding audit_all spill_published_keys range_from
  run top_level_partitions (some p) fix = audit_all none fix (p ∷ []) start_report
  run top_level_partitions none fix = do
    spilled ← asks (λ w.
        map_err (λ e. failed (index_error e))
          (spill_published_keys redb record_json w.index top_level_partitions))
    audit_all (some spilled.0) fix (range_from 0 top_level_partitions) start_report

  -- `set_root`: only a hash that reads back as a node becomes the root.
  unfoldable pub set_root : ℕ → Hash → Exec AuditError Audited Unit
  unfolding decode set_local_root
  set_root p hash = do
    bytes ← asks (λ w.
        and_then (map_err blob_error (store.get w.blobs hash))
          λ found. ok_or found (not_readable hash))
    lift (map_err not_a_node (decode json_text bytes hash))
    (λ w.
        let ran =
          (on_doc redb S D (pointer_doc.set_partition_root p hash)
              >> on_index redb S D (set_local_root redb record_json p hash))
            w in
        (map_err failed ran.0, ran.1))
