-- ===== src/RecordIndex/Bindings.antt =====
-- Bindings of crates/registryd/src/index.rs: the content hash that a key got first stays, whatever
-- the operations of the index do next.
use commonsdb_iroh_service.Prelude.{
  ℕ, ◌+◌, ◌≡◌, ◌∙◌, refl, ap, none, some, Option-cases, Bool-cases, inl, inr, List, [], ◌∷◌, All,
  true, if◌then◌else◌, ◌==◌,
}
use commonsdb_iroh_service.Prelude.Bytes.{Bytes, bytes_eq, eq_of_bytes_eq}
use commonsdb_iroh_service.Record.{Hash, RecordStatus, Instant, published, denylisted}
use commonsdb_iroh_service.Exec.{Result, ok}
use commonsdb_iroh_service.Redb.{Redb, number_key, text_key}
use commonsdb_iroh_service.RecordIndex.{
  IndexRecord, IndexError, RecordJson, Database, with_status, with_created_at, outcome, next_u64,
  next_seq, get, write_record, claim_loop, submit_many, finish_all, finish, mark_published,
  mark_denylisted, requeue, write_all, bulk_mark_published, redate_all, update_created_at,
  set_local_root,
}
use commonsdb_iroh_service.RecordIndex.Records.{Records, updated, Reads, write_record-Reads}

-- The operations that write to an open index.
pub data Operation : Type 0 where
  submitting : List (Bytes × IndexRecord) → Operation
  publishing : List (ℕ × Bytes) → Instant → Operation
  denylisting : List (ℕ × Bytes) → Instant → Operation
  requeueing : Bytes → Operation
  bulk_marking : List (Bytes × IndexRecord) → Operation
  redating : List (Bytes × Instant) → Operation
  rooting : ℕ → Hash → Operation

-- `bulk_mark_published` writes without a look at what is there: what it is given for the key, if anything,
-- has the hash.
abbrev pub Agrees : Bytes → Hash → Operation → Type 0
Agrees key hash (submitting submissions) = Unit
Agrees key hash (publishing items now) = Unit
Agrees key hash (denylisting items now) = Unit
Agrees key hash (requeueing k) = Unit
Agrees key hash (bulk_marking rows) =
    All (λ (row : Bytes × IndexRecord). bytes_eq key row.0 ≡ true → row.1.content_hash ≡ hash) rows
Agrees key hash (redating batch) = Unit
Agrees key hash (rooting partition_id root) = Unit

module _ (key : Bytes) (hash : Hash) where
  -- The key has a record with the hash.
  abbrev Holds : Records → Type 0
  Holds A = (s : IndexRecord) × (A key ≡ some s) × (s.content_hash ≡ hash)

  module _ (A : Records) (k : Bytes) (held : Holds A) where
    Holds-put :
        (r : IndexRecord) → (bytes_eq key k ≡ true → r.content_hash ≡ hash) → Holds (updated k r A)
    Holds-put r agrees = elim (Bool-cases (bytes_eq key k)) [
      | inl same ↦ (r, rw same refl, agrees same)
      | inr other ↦ let (s, e, p) = held in (s, rw other e, p)
    ]

    Holds-new : (r : IndexRecord) → A k ≡ none → Holds (updated k r A)
    Holds-new r absent = Holds-put r (λ same.
        let (s, e, p) = held in
        let there : A key ≡ none = ap A (eq_of_bytes_eq key k same) ∙ absent in absurd (cc))

    Holds-changed :
        (r s : IndexRecord) → A k ≡ some r → s.content_hash ≡ r.content_hash → Holds (updated k s A)
    Holds-changed r s there same_hash = Holds-put s (λ same.
        let (t, e, p) = held in
        let view : A key ≡ some r = ap A (eq_of_bytes_eq key k same) ∙ there in
        let hashes : r.content_hash ≡ t.content_hash = cc in same_hash ∙ hashes ∙ p)

module _ (redb : Redb) (record_json : RecordJson) where
  unfoldable pub after : Operation → Database redb → Database redb
  unfolding submit_many mark_published mark_denylisted requeue bulk_mark_published update_created_at
      set_local_root
  after (submitting submissions) db = (submit_many redb record_json submissions db).1
  after (publishing items now) db = (mark_published redb record_json items now db).1
  after (denylisting items now) db = (mark_denylisted redb record_json items now db).1
  after (requeueing key) db = (requeue redb record_json key db).1
  after (bulk_marking rows) db = (bulk_mark_published redb record_json rows db).1
  after (redating batch) db = (update_created_at redb record_json batch db).1
  after (rooting partition_id root) db = (set_local_root redb record_json partition_id root db).1

  unfoldable pub after_all : List Operation → Database redb → Database redb
  unfolding after
  after_all [] db = db
  after_all (operation ∷ operations) db = after_all operations (after operation db)

  module _ (key : Bytes) (hash : Hash) where
    -- The records after, all readable, where the key still has the hash.
    record Bound (records : redb.Table Bytes Bytes) : Type 0 where
      view : Records
      reads : Reads redb record_json records view
      holds : Holds key hash view

    module _ {P : Type 0} (records_of : P → redb.Table Bytes Bytes) where
      -- A run that succeeds and leaves such records.
      record Runs (r : Result IndexError P) : Type 0 where
        value : P
        runs : r ≡ ok value
        bound : Bound (records_of value)

    claim_loop-Bound :
        (submissions : List (Bytes × IndexRecord)) (A : Records) (records : redb.Table Bytes Bytes)
        (queue : redb.Table ℕ Bytes) (seq : ℕ)
        → Reads redb record_json records A
        → Holds key hash A
        → Runs (λ p. p.1.0) (claim_loop redb record_json submissions records queue seq)
    unfolding claim_loop
    claim_loop-Bound [] A records queue seq h held = record {
      value = ([], (records, (queue, seq)));
      runs = refl;
      bound = record { view = A; reads = h; holds = held };
    }
    claim_loop-Bound ((k, r) ∷ submissions) A records queue seq h held = elim (Option-cases (A k)) [
      | inl e ↦
          let c =
            claim_loop-Bound submissions (updated k r A) (write_record redb record_json records k r)
              (redb.insert number_key queue seq k) (next_u64 seq)
              (write_record-Reads redb record_json records A k r h)
              (Holds-new key hash A k held r e) in
          record {
            value = (outcome none r ∷ c.value.0, c.value.1);
            runs = rw (h k, e, c.runs) refl;
            bound = c.bound;
          }
      | inr (old, e) ↦
          let c = claim_loop-Bound submissions A records queue seq h held in
          record {
            value = (outcome (some old) r ∷ c.value.0, c.value.1);
            runs = rw (h k, e, c.runs) refl;
            bound = c.bound;
          }
    ]

    finish_all-Bound :
        (items : List (ℕ × Bytes)) (status : RecordStatus) (now : Instant) (A : Records)
        (records : redb.Table Bytes Bytes) (queue : redb.Table ℕ Bytes)
        → Reads redb record_json records A
        → Holds key hash A
        → Runs (λ p. p.0) (finish_all redb record_json items status now records queue)
    unfolding finish_all with_status
    finish_all-Bound [] status now A records queue h held = record {
      value = (records, queue);
      runs = refl;
      bound = record { view = A; reads = h; holds = held };
    }
    finish_all-Bound ((seq, k) ∷ items) status now A records queue h held =
        let rest = redb.remove number_key queue seq in
        elim (Option-cases (A k)) [
          | inl e ↦
              let c = finish_all-Bound items status now A records rest h held in
              record { value = c.value; runs = rw (h k, e) c.runs; bound = c.bound }
          | inr (r, e) ↦
              let s = with_status status now r in
              let c =
                finish_all-Bound items status now (updated k s A)
                  (write_record redb record_json records k s) rest
                  (write_record-Reads redb record_json records A k s h)
                  (Holds-changed key hash A k held r s e refl) in
              record { value = c.value; runs = rw (h k, e) c.runs; bound = c.bound }
        ]

    redated :
        (A : Records) (records : redb.Table Bytes Bytes) (k : Bytes) (r : IndexRecord) (t : Instant)
        → Reads redb record_json records A
        → Holds key hash A
        → A k ≡ some r
        → Bound (
            if r.created_at == t
            then records
            else write_record redb record_json records k (with_created_at t r))
    unfolding with_created_at
    redated A records k r t h held e = elim (Bool-cases (r.created_at == t)) [
      | inl same ↦ rw same record { view = A; reads = h; holds = held }
      | inr other ↦
          let s = with_created_at t r in
          rw other record {
            view = updated k s A;
            reads = write_record-Reads redb record_json records A k s h;
            holds = Holds-changed key hash A k held r s e refl;
          }
    ]

    redate_all-Bound :
        (batch : List (Bytes × Instant)) (A : Records) (records : redb.Table Bytes Bytes) (m n : ℕ)
        → Reads redb record_json records A
        → Holds key hash A
        → Runs (λ p. p.1) (redate_all redb record_json batch records m n)
    unfolding redate_all
    redate_all-Bound [] A records m n h held = record {
      value = ((m, n), records);
      runs = refl;
      bound = record { view = A; reads = h; holds = held };
    }
    redate_all-Bound ((k, t) ∷ batch) A records m n h held = elim (Option-cases (A k)) [
      | inl e ↦
          let c = redate_all-Bound batch A records m (n + 1) h held in
          record { value = c.value; runs = rw (h k, e) c.runs; bound = c.bound }
      | inr (r, e) ↦
          let b = redated A records k r t h held e in
          let c =
            redate_all-Bound batch b.view
              (if r.created_at == t
                then records
                else write_record redb record_json records k (with_created_at t r))
              (m + 1) n b.reads b.holds in
          record { value = c.value; runs = rw (h k, e) c.runs; bound = c.bound }
    ]

    write_all-Bound :
        (rows : List (Bytes × IndexRecord)) (A : Records) (records : redb.Table Bytes Bytes)
        → Agrees key hash (bulk_marking rows)
        → Reads redb record_json records A
        → Holds key hash A
        → Bound (write_all redb record_json rows records)
    unfolding write_all
    write_all-Bound [] A records agrees h held = record { view = A; reads = h; holds = held }
    write_all-Bound ((k, r) ∷ rows) A records agrees h held =
        write_all-Bound rows (updated k r A) (write_record redb record_json records k r) agrees.1
          (write_record-Reads redb record_json records A k r h)
          (Holds-put key hash A k held r agrees.0)

    finish-Bound :
        (items : List (ℕ × Bytes)) (status : RecordStatus) (now : Instant) (A : Records)
        (db : Database redb)
        → Reads redb record_json db.records A
        → Holds key hash A
        → Bound (finish redb record_json items status now db).1.records
    unfolding finish
    finish-Bound [] status now A db h held = record { view = A; reads = h; holds = held }
    finish-Bound (item ∷ items) status now A db h held =
        let c = finish_all-Bound (item ∷ items) status now A db.records db.queue h held in
        rw c.runs c.bound

    requeue-Bound :
        (k : Bytes) (A : Records) (db : Database redb)
        → Reads redb record_json db.records A
        → Holds key hash A
        → Bound (requeue redb record_json k db).1.records
    unfolding requeue
    requeue-Bound k A db h held = elim (Option-cases (redb.get text_key db.records k)) [
      | inl e ↦ rw (requeue, e) record { view = A; reads = h; holds = held }
      | inr (r, e) ↦ rw (requeue, e) record { view = A; reads = h; holds = held }
    ]

    after-Bound :
        (operation : Operation) (A : Records) (db : Database redb)
        → Agrees key hash operation
        → Reads redb record_json db.records A
        → Holds key hash A
        → Bound (after operation db).records
    unfolding after submit_many mark_published mark_denylisted bulk_mark_published update_created_at
        set_local_root
    after-Bound (submitting submissions) A db agrees h held =
        let c = claim_loop-Bound submissions A db.records db.queue (next_seq redb db) h held in
        rw (after, submit_many, c.runs) c.bound
    after-Bound (publishing items now) A db agrees h held =
        finish-Bound items published now A db h held
    after-Bound (denylisting items now) A db agrees h held =
        finish-Bound items denylisted now A db h held
    after-Bound (requeueing k) A db agrees h held = requeue-Bound k A db h held
    after-Bound (bulk_marking rows) A db agrees h held =
        write_all-Bound rows A db.records agrees h held
    after-Bound (redating batch) A db agrees h held =
        let c = redate_all-Bound batch A db.records 0 0 h held in
        rw (after, update_created_at, c.runs) c.bound
    after-Bound (rooting partition_id root) A db agrees h held = record {
      view = A;
      reads = h;
      holds = held;
    }

    after_all-Bound :
        (operations : List Operation) (A : Records) (db : Database redb)
        → All (Agrees key hash) operations
        → Reads redb record_json db.records A
        → Holds key hash A
        → Bound (after_all operations db).records
    unfolding after_all
    after_all-Bound [] A db agrees h held = record { view = A; reads = h; holds = held }
    after_all-Bound (operation ∷ operations) A db agrees h held =
        let b = after-Bound operation A db agrees.0 h held in
        after_all-Bound operations b.view (after operation db) agrees.1 b.reads b.holds

  -- Where every row of the index reads back (`A` is what they hold) and a key has a record, and where no
  -- `bulk_mark_published` of the sequence is given another hash for the key, the key has after any sequence of
  -- the index's writing operations a record, with the content hash that it had.
  pub after_all-keeps_hash :
      (operations : List Operation) (A : Records) (db : Database redb) (key : Bytes)
      (r : IndexRecord)
      → Reads redb record_json db.records A
      → A key ≡ some r
      → All (Agrees key r.content_hash) operations
      → (s : IndexRecord) × (get redb record_json (after_all operations db) key ≡ ok (some s))
        × (s.content_hash ≡ r.content_hash)
  unfolding get
  after_all-keeps_hash operations A db key r h e agrees =
      let b = after_all-Bound key r.content_hash operations A db agrees h (r, e, refl) in
      let (s, d, p) = b.holds in (s, b.reads key ∙ ap ok d, p)
