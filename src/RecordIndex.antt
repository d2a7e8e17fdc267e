-- ===== src/RecordIndex.antt =====
-- crates/registryd/src/index.rs: the record index and the pending queue, four tables of one
-- database. This file has the operations; the children have what they do to the records, the queue
-- and the bindings of keys to content hashes.
--
-- A write transaction that ends in an error commits nothing (`in_write`). `Utc::now()` is an
-- argument, and so is the JSON text of a record. A spill file is the bytes written to it.
pub mod Scan
pub mod Records
pub mod Claims
pub mod Submit
pub mod Finish
pub mod Pending
pub mod Bindings
use commonsdb_iroh_service.Prelude.{
  ℕ, zero, suc, ◌+◌, ◌%◌, ◌^◌, Bool, true, false, ◌&&◌, not, Option, none, some, ◌≡◌, List, [], ◌∷◌,
  ◌++◌, map, String, length, get_elem?, set, replicate, ltb, ◌==◌, if◌then◌else◌,
}
use commonsdb_iroh_service.Prelude.Bytes.{Bytes, bytes_eq}
use commonsdb_iroh_service.Record.{
  Hash, Instant, LeafEntry, RecordStatus, pending, published, denylisted,
}
use commonsdb_iroh_service.External.{EntryJson}
use commonsdb_iroh_service.Exec.{Result, ok, err, map_err, ok_or, and_then, Exec, ◌>>=◌, lift}
use commonsdb_iroh_service.Redb.{Redb, Key, number_key, text_key}

pub record IndexRecord : Type 0 where
  pub content_hash : Hash
  pub size : ℕ
  pub partition_id : ℕ
  pub status : RecordStatus
  pub created_at : Instant
  pub content_code : Option ℕ
  pub published_at : Option Instant

-- `serde_json` on `IndexRecord`: what it writes reads back.
pub record RecordJson : Type 0 where
  pub to_vec : IndexRecord → Bytes
  pub from_slice : Bytes → Result String IndexRecord
  pub from_slice-to_vec : (r : IndexRecord) → from_slice (to_vec r) ≡ ok r

-- `panic`: `spills[partition_id]` out of bounds, or `expect` on an empty list.
pub data IndexError : Type 0 where
  json : String → IndexError
  panic : IndexError

pub data SubmitOutcome : Type 0 where
  queued duplicate_identical : SubmitOutcome
  conflict : Hash → SubmitOutcome

unfoldable pub leaf_entry : IndexRecord → Bytes → LeafEntry
leaf_entry r key = record {
  key = key;
  hash = r.content_hash;
  size = r.size;
  added_at = r.created_at;
  content_code = r.content_code;
}

-- `"next_seq"`
abbrev pub meta_next_seq : Bytes
meta_next_seq = 110 ∷ 101 ∷ 120 ∷ 116 ∷ 95 ∷ 115 ∷ 101 ∷ 113 ∷ []

-- `n + 1` in `u64`
unfoldable pub next_u64 : ℕ → ℕ
next_u64 n = (n + 1) % 2 ^ 64

unfoldable pub is_published : RecordStatus → Bool
is_published pending = false
is_published published = true
is_published denylisted = false

-- What a submission gets against the record that its key has.
unfoldable pub outcome : Option IndexRecord → IndexRecord → SubmitOutcome
outcome none r = queued
outcome (some existing) r =
    if bytes_eq existing.content_hash r.content_hash
    then duplicate_identical
    else conflict existing.content_hash

unfoldable pub with_status : RecordStatus → Instant → IndexRecord → IndexRecord
unfolding is_published
with_status status now r = record {
  content_hash = r.content_hash;
  size = r.size;
  partition_id = r.partition_id;
  status = status;
  created_at = r.created_at;
  content_code = r.content_code;
  published_at = if is_published status then some now else r.published_at;
}

unfoldable pub with_created_at : Instant → IndexRecord → IndexRecord
with_created_at t r = record {
  content_hash = r.content_hash;
  size = r.size;
  partition_id = r.partition_id;
  status = r.status;
  created_at = t;
  content_code = r.content_code;
  published_at = r.published_at;
}

module _ (redb : Redb) where
  pub record Database : Type 0 where
    pub records : redb.Table Bytes Bytes
    pub queue : redb.Table ℕ Bytes
    pub meta : redb.Table Bytes ℕ
    pub roots : redb.Table ℕ Bytes

  abbrev pub with_records : redb.Table Bytes Bytes → Database → Database
  with_records t db = record { records = t; queue = db.queue; meta = db.meta; roots = db.roots }

  -- `meta.get(META_NEXT_SEQ)?.map(|v| v.value()).unwrap_or(0)`
  unfoldable pub next_seq : Database → ℕ
  next_seq db = elim (redb.get text_key db.meta meta_next_seq) [ none ↦ 0 | some n ↦ n ]

-- A write transaction: it commits when its body succeeds.
abbrev pub commit {ℓ} : {E S A : Type ℓ} → S → Result E (A × S) → Result E A × S
commit before (ok (a, after)) = (ok a, after)
commit before (err e) = (err e, before)

abbrev pub in_write {ℓ} : {E S A : Type ℓ} → (S → Result E (A × S)) → Exec E S A
in_write body s = commit s (body s)

module _ (redb : Redb) (record_json : RecordJson) where
  abbrev RecordTable : Type 0
  RecordTable = redb.Table Bytes Bytes

  abbrev QueueTable : Type 0
  QueueTable = redb.Table ℕ Bytes

  unfoldable pub from_slice : Bytes → Result IndexError IndexRecord
  from_slice raw = map_err json (record_json.from_slice raw)

  unfoldable pub parse_row : Option Bytes → Result IndexError (Option IndexRecord)
  unfolding from_slice
  parse_row none = ok none
  parse_row (some raw) = and_then (from_slice raw) λ r. ok (some r)

  -- `records.get(key)?.map(from_slice).transpose()?`
  unfoldable pub read_record : RecordTable → Bytes → Result IndexError (Option IndexRecord)
  unfolding parse_row
  read_record records key = parse_row (redb.get text_key records key)

  unfoldable pub write_record : RecordTable → Bytes → IndexRecord → RecordTable
  write_record records key r = redb.insert text_key records key (record_json.to_vec r)

  -- The loop of `submit_many`.
  unfoldable pub claim_loop :
      List (Bytes × IndexRecord)
      → RecordTable
      → QueueTable
      → ℕ
      → Result IndexError (List SubmitOutcome × (RecordTable × (QueueTable × ℕ)))
  unfolding read_record write_record outcome next_u64
  claim_loop [] records queue seq = ok ([], (records, (queue, seq)))
  claim_loop ((key, r) ∷ submissions) records queue seq =
      and_then (read_record records key) λ existing. elim existing [
        | some old ↦
            and_then (claim_loop submissions records queue seq)
              λ rest. ok (outcome (some old) r ∷ rest.0, rest.1)
        | none ↦
            and_then
              (claim_loop submissions (write_record records key r)
                (redb.insert number_key queue seq key) (next_u64 seq))
              λ rest. ok (outcome none r ∷ rest.0, rest.1)
      ]

  unfoldable pub submit_many :
      List (Bytes × IndexRecord) → Exec IndexError (Database redb) (List SubmitOutcome)
  unfolding claim_loop next_seq
  submit_many submissions = in_write λ db.
      and_then (claim_loop submissions db.records db.queue (next_seq redb db))
        λ (outcomes, (records, (queue, seq))). ok (
          outcomes,
          record {
            records = records;
            queue = queue;
            meta = redb.insert text_key db.meta meta_next_seq seq;
            roots = db.roots;
          },
        )

  -- `.pop().expect("one submission yields one outcome")`
  unfoldable pub last_outcome : List SubmitOutcome → Result IndexError SubmitOutcome
  last_outcome [] = err panic
  last_outcome (o ∷ []) = ok o
  last_outcome (o ∷ p ∷ outcomes) = last_outcome (p ∷ outcomes)

  unfoldable pub submit : Bytes → IndexRecord → Exec IndexError (Database redb) SubmitOutcome
  unfolding submit_many last_outcome
  submit key r = do outcomes ← submit_many ((key, r) ∷ []); lift (last_outcome outcomes)

  unfoldable pub get : Database redb → Bytes → Result IndexError (Option IndexRecord)
  unfolding read_record
  get db key = read_record db.records key

  unfoldable pub get_many :
      Database redb → List Bytes → Result IndexError (List (Option IndexRecord))
  unfolding read_record
  get_many db [] = ok []
  get_many db (key ∷ keys) =
      let rest = get_many db keys in
      and_then (read_record db.records key) λ found. and_then rest λ others. ok (found ∷ others)

  -- The loop of `pending_batch`; `max` counts down as rows come out.
  unfoldable pub join_rows :
      RecordTable → ℕ → List (ℕ × Bytes) → Result IndexError (List (ℕ × (Bytes × IndexRecord)))
  unfolding read_record
  join_rows records max [] = ok []
  join_rows records zero (row ∷ rows) = ok []
  join_rows records (suc max) ((seq, key) ∷ rows) = and_then (read_record records key) λ found.
      elim found [
        | some r ↦ and_then (join_rows records max rows) λ out. ok ((seq, (key, r)) ∷ out)
        | none ↦ join_rows records (suc max) rows
      ]

  unfoldable pub pending_batch :
      Database redb → ℕ → Result IndexError (List (ℕ × (Bytes × IndexRecord)))
  unfolding join_rows
  pending_batch db max = join_rows db.records max (redb.iter db.queue)

  -- The loop of `finish`.
  unfoldable pub finish_all :
      List (ℕ × Bytes)
      → RecordStatus
      → Instant
      → RecordTable
      → QueueTable
      → Result IndexError (RecordTable × QueueTable)
  unfolding read_record write_record with_status
  finish_all [] status now records queue = ok (records, queue)
  finish_all ((seq, key) ∷ items) status now records queue =
      let queue' = redb.remove number_key queue seq in
      and_then (read_record records key) λ found. elim found [
        | some r ↦
            finish_all items status now (write_record records key (with_status status now r)) queue'
        | none ↦ finish_all items status now records queue'
      ]

  unfoldable pub finish :
      List (ℕ × Bytes) → RecordStatus → Instant → Exec IndexError (Database redb) Unit
  unfolding finish_all
  finish [] status now db = (ok tt, db)
  finish (item ∷ items) status now db =
      in_write
        (λ db.
          and_then (finish_all (item ∷ items) status now db.records db.queue) λ (records, queue).
            ok (tt, record { records = records; queue = queue; meta = db.meta; roots = db.roots }))
        db

  unfoldable pub mark_published : List (ℕ × Bytes) → Instant → Exec IndexError (Database redb) Unit
  unfolding finish
  mark_published items now = finish items published now

  unfoldable pub mark_denylisted : List (ℕ × Bytes) → Instant → Exec IndexError (Database redb) Unit
  unfolding finish
  mark_denylisted items now = finish items denylisted now

  unfoldable pub requeue : Bytes → Exec IndexError (Database redb) Bool
  unfolding next_seq next_u64
  requeue key db = elim (redb.get text_key db.records key) [
    | none ↦ (ok false, db)
    | some _ ↦
        let seq = next_seq redb db in
        (
          ok true,
          record {
            records = db.records;
            queue = redb.insert number_key db.queue seq key;
            meta = redb.insert text_key db.meta meta_next_seq (next_u64 seq);
            roots = db.roots;
          },
        )
  ]

  unfoldable pub write_all : List (Bytes × IndexRecord) → RecordTable → RecordTable
  unfolding write_record
  write_all [] records = records
  write_all ((key, r) ∷ rest) records = write_all rest (write_record records key r)

  unfoldable pub bulk_mark_published :
      List (Bytes × IndexRecord) → Exec IndexError (Database redb) Unit
  unfolding write_all
  bulk_mark_published records db = (ok tt, with_records redb (write_all records db.records) db)

  -- The loop of `update_created_at`, with its two counters.
  unfoldable pub redate_all :
      List (Bytes × Instant) → RecordTable → ℕ → ℕ → Result IndexError ((ℕ × ℕ) × RecordTable)
  unfolding read_record write_record with_created_at
  redate_all [] records updated missing = ok ((updated, missing), records)
  redate_all ((key, t) ∷ batch) records updated missing =
      and_then (read_record records key) λ found. elim found [
        | none ↦ redate_all batch records updated (missing + 1)
        | some r ↦
            redate_all batch
              (if r.created_at == t
                then records
                else write_record records key (with_created_at t r))
              (updated + 1) missing
      ]

  unfoldable pub update_created_at :
      List (Bytes × Instant) → Exec IndexError (Database redb) (ℕ × ℕ)
  unfolding redate_all
  update_created_at batch = in_write λ db.
      and_then (redate_all batch db.records 0 0)
        λ (counts, records). ok (counts, with_records redb records db)

  unfoldable pub set_local_root : ℕ → Hash → Exec IndexError (Database redb) Unit
  set_local_root partition_id root db = (
    ok tt,
    record {
      records = db.records;
      queue = db.queue;
      meta = db.meta;
      roots = redb.insert number_key db.roots partition_id root;
    },
  )

  -- `<[u8; 32]>::try_from(bytes).ok()`
  unfoldable pub root_of_bytes : Bytes → Option Hash
  root_of_bytes raw = if length raw == 32 then some raw else none

  unfoldable pub get_local_root : Database redb → ℕ → Option Hash
  unfolding root_of_bytes
  get_local_root db partition_id = elim (redb.get number_key db.roots partition_id) [
    | none ↦ none
    | some raw ↦ root_of_bytes raw
  ]

  unfoldable pub roots_of_rows : List (ℕ × Bytes) → List (ℕ × Hash)
  unfolding root_of_bytes
  roots_of_rows [] = []
  roots_of_rows ((partition_id, raw) ∷ rows) =
      let rest = roots_of_rows rows in
      elim (root_of_bytes raw) [ none ↦ rest | some root ↦ (partition_id, root) ∷ rest ]

  unfoldable pub all_local_roots : Database redb → List (ℕ × Hash)
  unfolding roots_of_rows
  all_local_roots db = roots_of_rows (redb.iter db.roots)

  unfoldable pub queue_depth : Database redb → ℕ
  queue_depth db = length (redb.iter db.queue)

  unfoldable pub records_total : Database redb → ℕ
  records_total db = length (redb.iter db.records)
