-- ===== src/BulkLoad.antt =====
-- crates/registryd/src/bulk_load.rs: `ingest` with its batches, `retimestamp` and `build_trees`.
--
-- A dump is its lines, a spill directory the bytes of its files by partition. The values of a flushed
-- batch are put in order; the source runs up to 32 puts at a time. The clock is read as `now`.
-- The counts of the lines of a dump stay below 2 ^ 64.
pub mod LastWins
pub mod Spills
pub mod Flush
pub mod Trees
use commonsdb_iroh_service.Prelude.{
  ℕ, zero, suc, ◌+◌, ◌^◌, Bool, true, false, ◌||◌, not, Option, none, some, List, [], ◌∷◌, ◌++◌,
  map, String, length, get_elem?, ltb, leb, if◌then◌else◌,
}
use commonsdb_iroh_service.Prelude.Bytes.{Bytes, bytes_eq}
use commonsdb_iroh_service.Record.{Hash, Instant, LeafEntry, published}
use commonsdb_iroh_service.External.{Sha256, Blake3, EntryJson}
use commonsdb_iroh_service.BlobStore.{BlobStore, BlobStoreError}
use commonsdb_iroh_service.Redb.{Redb}
use commonsdb_iroh_service.CidKey.{CidParser, is_valid_record_key}
use commonsdb_iroh_service.Iscc.{Base32}
use commonsdb_iroh_service.Values.{
  Kind, object, text, other, Json, is_object, record_of, declaration_timestamp,
}
use commonsdb_iroh_service.RecordIndex.{
  IndexRecord, IndexError, RecordJson, Database, leaf_entry, next_u64, get_many,
  bulk_mark_published, update_created_at, set_local_root,
}
use commonsdb_iroh_service.RecordIndex.Scan.{write_to, spill_published_entries}
use commonsdb_iroh_service.Hamt.{HamtError, split_lines}
use commonsdb_iroh_service.Hamt.Bulk.{build_from_entries}
use commonsdb_iroh_service.Publisher.{PointerDoc, World, PublishError, on_index, on_blobs, on_doc}
use commonsdb_iroh_service.Exec.{
  Result, ok, err, map_err, and_then, Exec, pure, lift, asks, ◌>>=◌, ◌>>◌,
}

-- A line of the dump that goes into the index: key, value, and the record that they make.
pub record Line : Type 0 where
  pub key : Bytes
  pub value : Bytes
  pub record_ : IndexRecord

-- What `flush_batch` collects.
pub record Plan : Type 0 where
  pub to_insert : List (Bytes × IndexRecord)
  pub to_put : List (Bytes × IndexRecord)
  pub spills : List Bytes
  pub new_records : ℕ
  pub conflicts : ℕ

-- The record that the spilled entry is made of: the index's own wins.
unfoldable pub entry_record : Option IndexRecord → IndexRecord → IndexRecord
entry_record none r = r
entry_record (some prior) r = prior

unfoldable pub planned : Line → Option IndexRecord → List Bytes → Plan → Plan
unfolding next_u64
planned l none spills p = record {
  to_insert = p.to_insert ++ (l.key, l.record_) ∷ [];
  to_put = p.to_put ++ (l.value, l.record_) ∷ [];
  spills = spills;
  new_records = next_u64 p.new_records;
  conflicts = p.conflicts;
}
planned l (some prior) spills p =
    if bytes_eq prior.content_hash l.record_.content_hash
    then record {
      to_insert = p.to_insert;
      to_put = p.to_put ++ (l.value, prior) ∷ [];
      spills = spills;
      new_records = p.new_records;
      conflicts = p.conflicts;
    }
    else record {
      to_insert = p.to_insert;
      to_put = p.to_put;
      spills = spills;
      new_records = p.new_records;
      conflicts = next_u64 p.conflicts;
    }

-- The loop of `flush_batch`; `zip` ends with the shorter list.
unfoldable pub plan_lines :
    EntryJson → List Line → List (Option IndexRecord) → Plan → Result IndexError Plan
unfolding write_to entry_record planned leaf_entry
plan_lines json_text [] existing p = ok p
plan_lines json_text (l ∷ batch) [] p = ok p
plan_lines json_text (l ∷ batch) (known ∷ existing) p =
    let r = entry_record known l.record_ in
    and_then (write_to p.spills r.partition_id (json_text.to_json (leaf_entry r l.key) ++ 10 ∷ []))
      λ spills. plan_lines json_text batch existing (planned l known spills p)

abbrev pub start_plan : List Bytes → ℕ → ℕ → Plan
start_plan spills new_records conflicts = record {
  to_insert = [];
  to_put = [];
  spills = spills;
  new_records = new_records;
  conflicts = conflicts;
}

module _ (json_text : EntryJson) (redb : Redb) (record_json : RecordJson) where
  unfoldable pub flush_batch : List Line → List Bytes → ℕ → ℕ → Exec IndexError (Database redb) Plan
  unfolding get_many plan_lines bulk_mark_published
  flush_batch batch spills new_records conflicts = do
    existing ← asks (λ db. get_many redb record_json db (map (λ l. l.key) batch))
    plan ← lift (plan_lines json_text batch existing (start_plan spills new_records conflicts))
    bulk_mark_published redb record_json plan.to_insert
    pure plan

-- `cfg` as the loops use it, with the code that they call. `parse_line` is `serde_json` on a DumpLine.
pub record Loader (Cid : Type 0) : Type 1 where
  pub sha : Sha256
  pub blake : Blake3
  pub base32 : Base32
  pub parser : CidParser Cid
  pub json : Json
  pub parse_line : Bytes → Result String (Bytes × json.Value)
  pub max_value_bytes : ℕ
  pub top_level_partitions : ℕ

pub data LoadError : Type 0 where
  index_failed : IndexError → LoadError
  store_failed : BlobStoreError → LoadError

-- What `ingest` holds while it reads the dump.
pub record Ingest (redb : Redb) (S : Type 0) : Type 0 where
  pub index : Database redb
  pub blobs : S
  pub spills : List Bytes
  pub batch : List Line
  pub total : ℕ
  pub invalid : ℕ
  pub conflicts : ℕ
  pub new_records : ℕ
  pub seen_lines : ℕ

module _ {Cid : Type 0} (loader : Loader Cid) where
  abbrev some_object : Result String loader.json.Value → Bytes → Option Bytes
  some_object (err e) raw = none
  some_object (ok parsed) raw = if is_object (loader.json.kind parsed) then some raw else none

  abbrev kind_str : loader.json.Value → Kind → Option Bytes
  kind_str value (object fields) = some (loader.json.to_string value)
  kind_str value (text raw) = some_object (loader.json.from_str raw) raw
  kind_str value other = none

  unfoldable pub canonical_value_str : loader.json.Value → Option Bytes
  unfolding is_object
  canonical_value_str value = kind_str value (loader.json.kind value)

  -- What a line of the dump makes, or nothing when it is invalid.
  unfoldable pub line_of : Instant → Bytes → Option Line
  unfolding canonical_value_str is_valid_record_key record_of
  line_of now line = elim (loader.parse_line line) [
    | err e ↦ none
    | ok parsed ↦ elim (canonical_value_str parsed.1) [
      | none ↦ none
      | some value_str ↦
          if not (is_valid_record_key loader.parser parsed.0)
            || ltb loader.max_value_bytes (length value_str)
          then none
          else some record {
            key = parsed.0;
            value = value_str;
            record_ =
                record_of loader.json loader.sha loader.blake loader.base32
                  loader.top_level_partitions published (some now) now parsed.0 value_str;
          }
    ]
  ]

  module _ (json_text : EntryJson) (redb : Redb) (record_json : RecordJson) {S : Type 0}
      (store : BlobStore S) where
    unfoldable pub put_all : List (Bytes × IndexRecord) → Exec BlobStoreError S Unit
    put_all [] = pure tt
    put_all (p ∷ puts) = store.put p.0 >> put_all puts

    -- A flush and its puts.
    unfoldable pub flush : Exec LoadError (Ingest redb S) Unit
    unfolding flush_batch put_all
    flush st =
        let flushed =
          flush_batch json_text redb record_json st.batch st.spills st.new_records st.conflicts
            st.index in
        elim flushed.0 [
          | err e ↦ (
            err (index_failed e),
            record {
              index = flushed.1;
              blobs = st.blobs;
              spills = st.spills;
              batch = st.batch;
              total = st.total;
              invalid = st.invalid;
              conflicts = st.conflicts;
              new_records = st.new_records;
              seen_lines = st.seen_lines;
            },
          )
          | ok plan ↦
              let put = put_all plan.to_put st.blobs in
              (
                map_err store_failed put.0,
                record {
                  index = flushed.1;
                  blobs = put.1;
                  spills = plan.spills;
                  batch = [];
                  total = st.total;
                  invalid = st.invalid;
                  conflicts = plan.conflicts;
                  new_records = plan.new_records;
                  seen_lines = st.seen_lines;
                },
              )
        ]

    -- A line counts as invalid, or joins the batch.
    unfoldable pub take_line : Option Line → Ingest redb S → Ingest redb S
    take_line none st = record {
      index = st.index;
      blobs = st.blobs;
      spills = st.spills;
      batch = st.batch;
      total = suc st.total;
      invalid = suc st.invalid;
      conflicts = st.conflicts;
      new_records = st.new_records;
      seen_lines = st.seen_lines;
    }
    take_line (some l) st = record {
      index = st.index;
      blobs = st.blobs;
      spills = st.spills;
      batch = st.batch ++ l ∷ [];
      total = suc st.total;
      invalid = st.invalid;
      conflicts = st.conflicts;
      new_records = st.new_records;
      seen_lines = st.seen_lines;
    }

    abbrev see_line : Ingest redb S → Ingest redb S
    see_line st = record {
      index = st.index;
      blobs = st.blobs;
      spills = st.spills;
      batch = st.batch;
      total = st.total;
      invalid = st.invalid;
      conflicts = st.conflicts;
      new_records = st.new_records;
      seen_lines = suc st.seen_lines;
    }

    -- The loop over the lines: empty ones are passed over, the first `skip` others too, and `limit`
    -- lines end it. A batch of 2000 is flushed.
    unfoldable pub ingest_lines : Instant → ℕ → ℕ → List Bytes → Exec LoadError (Ingest redb S) Unit
    unfolding line_of take_line flush
    ingest_lines now skip limit [] st = (ok tt, st)
    ingest_lines now skip limit ([] ∷ lines) st = ingest_lines now skip limit lines st
    ingest_lines now skip limit ((b ∷ line) ∷ lines) st =
        let seen = see_line st in
        elim (leb seen.seen_lines skip) [
          | true ↦ ingest_lines now skip limit lines seen
          | false ↦ elim (leb limit seen.total) [
            | true ↦ (ok tt, seen)
            | false ↦
                let taken = take_line (line_of now (b ∷ line)) seen in
                elim (leb 2000 (length taken.batch)) [
                  | true ↦ (flush >> ingest_lines now skip limit lines) taken
                  | false ↦ ingest_lines now skip limit lines taken
                ]
          ]
        ]

    -- `ingest` gives the number of lines that it read.
    unfoldable pub ingest : Instant → ℕ → ℕ → List Bytes → Exec LoadError (Ingest redb S) ℕ
    unfolding ingest_lines flush
    ingest now skip limit dump = do
      ingest_lines now skip limit dump
      flush
      asks (λ st. ok st.total)
