-- ===== src/RecordIndex/Finish.antt =====
-- What `finish` of crates/registryd/src/index.rs does to the records and to the queue.
use commonsdb_iroh_service.Prelude.{
  ℕ, ◌≡◌, ◌∙◌, refl, ap, Bool, ◌||◌, ◌≢◌, ◌⊎◌, true, Option, none, some, Option-cases, Bool-cases,
  inl, inr, false, List, [], ◌∷◌, if◌then◌else◌, ◌==◌, arith,
}
use mathlib.Core.Option
use commonsdb_iroh_service.Prelude.Bytes.{Bytes, bytes_eq, eq_of_bytes_eq}
use commonsdb_iroh_service.Record.{RecordStatus, Instant, pending, published, denylisted}
use commonsdb_iroh_service.Exec.{Result, ok}
use commonsdb_iroh_service.Redb.{Redb, number_key, remove_row}
use commonsdb_iroh_service.RecordIndex.{
  IndexRecord, IndexError, RecordJson, Database, with_status, is_published, get, write_record,
  finish_all, finish,
}
use commonsdb_iroh_service.RecordIndex.Records.{Records, updated, Reads, write_record-Reads}

-- Whether an item has this key; whether an item has this sequence number.
unfoldable pub finishes : List (ℕ × Bytes) → Bytes → Bool
finishes [] k = false
finishes (item ∷ items) k = bytes_eq k item.1 || finishes items k

unfoldable pub drains : List (ℕ × Bytes) → ℕ → Bool
drains [] seq = false
drains (item ∷ items) seq = item.0 == seq || drains items seq

-- The rows of the queue that no item drains.
unfoldable pub undrained : List (ℕ × Bytes) → List (ℕ × Bytes) → List (ℕ × Bytes)
unfolding drains
undrained items [] = []
undrained items (row ∷ rows) =
    let rest = undrained items rows in if drains items row.0 then rest else row ∷ rest

-- What `finish` makes of a record: the status, the time of publication with `published`, and the rest as
-- it was.
pub record Stamped (status : RecordStatus) (now : Instant) (r s : IndexRecord) : Type 0 where
  pub stamped : s.status ≡ status
  pub dated : status ≡ published → s.published_at ≡ some now
  pub undated : status ≢ published → s.published_at ≡ r.published_at
  pub content_hash : s.content_hash ≡ r.content_hash
  pub size : s.size ≡ r.size
  pub partition_id : s.partition_id ≡ r.partition_id
  pub created_at : s.created_at ≡ r.created_at
  pub content_code : s.content_code ≡ r.content_code

published_at-with_status :
    (status : RecordStatus) (now : Instant) (r : IndexRecord)
    → status ≢ published
    → (with_status status now r).published_at ≡ r.published_at
unfolding with_status is_published
published_at-with_status pending now r ne = refl
published_at-with_status published now r ne = absurd (ne refl)
published_at-with_status denylisted now r ne = refl

with_status-Stamped :
    (status : RecordStatus) (now : Instant) (r : IndexRecord)
    → Stamped status now r (with_status status now r)
unfolding with_status is_published
with_status-Stamped status now r = record {
  stamped = refl;
  dated = λ e. rw e refl;
  undated = published_at-with_status status now r;
  content_hash = refl;
  size = refl;
  partition_id = refl;
  created_at = refl;
  content_code = refl;
}

abbrev finished : List (ℕ × Bytes) → RecordStatus → Instant → Records → Records
finished items status now A k =
    if finishes items k then Option.map (with_status status now) (A k) else A k

undrained-nil : (rows : List (ℕ × Bytes)) → rows ≡ undrained [] rows
unfolding undrained drains
undrained-nil [] = refl
undrained-nil (row ∷ rows) = ap (λ l. row ∷ l) (undrained-nil rows)

undrained-remove_row :
    (item : ℕ × Bytes) (items rows : List (ℕ × Bytes))
    → undrained items (remove_row number_key item.0 rows) ≡ undrained (item ∷ items) rows
unfolding undrained drains remove_row
undrained-remove_row item items [] = refl
undrained-remove_row item items (row ∷ rows) = ground (arith, undrained-remove_row item items rows)

with_status_again :
    (status : RecordStatus) (now : Instant) (r : IndexRecord)
    → with_status status now (with_status status now r) ≡ with_status status now r
unfolding with_status is_published
with_status_again pending now r = refl
with_status_again published now r = refl
with_status_again denylisted now r = refl

module _ (items : List (ℕ × Bytes)) (status : RecordStatus) (now : Instant) (A : Records) (seq : ℕ)
    (k j : Bytes) where
  finished_known :
      (r : IndexRecord)
      → A k ≡ some r
      → finished items status now (updated k (with_status status now r) A) j
        ≡ finished ((seq, k) ∷ items) status now A j
  unfolding finishes
  finished_known r e = elim (Bool-cases (bytes_eq j k)) [
    | inl same ↦
        let view : A j ≡ some r = ap A (eq_of_bytes_eq j k same) ∙ e in
        rw (same, view, with_status_again status now r)
          (elim (Bool-cases (finishes items j)) [ inl p ↦ rw p refl | inr p ↦ rw p refl ])
    | inr other ↦ rw other refl
  ]

  finished_unknown :
      A k ≡ none → finished items status now A j ≡ finished ((seq, k) ∷ items) status now A j
  unfolding finishes
  finished_unknown e = elim (Bool-cases (bytes_eq j k)) [
    | inl same ↦
        let view : A j ≡ none = ap A (eq_of_bytes_eq j k same) ∙ e in
        rw (same, view)
          (elim (Bool-cases (finishes items j)) [ inl p ↦ rw p refl | inr p ↦ rw p refl ])
    | inr other ↦ rw other refl
  ]

module _ (redb : Redb) (record_json : RecordJson) (status : RecordStatus) (now : Instant) where
  pub record FinishedAll (A : Records) (items : List (ℕ × Bytes)) (records : redb.Table Bytes Bytes)
      (queue : redb.Table ℕ Bytes) : Type 0 where
    pub records' : redb.Table Bytes Bytes
    pub queue' : redb.Table ℕ Bytes
    pub runs : finish_all redb record_json items status now records queue ≡ ok (records', queue')
    pub reads : Reads redb record_json records' (finished items status now A)
    pub drained : redb.iter queue' ≡ undrained items (redb.iter queue)

  finish_all-FinishedAll :
      (items : List (ℕ × Bytes)) (A : Records) (records : redb.Table Bytes Bytes)
      (queue : redb.Table ℕ Bytes)
      → Reads redb record_json records A
      → FinishedAll A items records queue
  unfolding finish_all finishes
  finish_all-FinishedAll [] A records queue h = record {
    records' = records;
    queue' = queue;
    runs = refl;
    reads = h;
    drained = undrained-nil (redb.iter queue);
  }
  finish_all-FinishedAll ((seq, k) ∷ items) A records queue h =
      let queue' = redb.remove number_key queue seq in
      let rows : redb.iter queue' ≡ remove_row number_key seq (redb.iter queue) =
        redb.iter-remove number_key queue seq in
      elim (Option-cases (A k)) [
        | inl e ↦
            let c = finish_all-FinishedAll items A records queue' h in
            record {
              records' = c.records';
              queue' = c.queue';
              runs = rw (h k, e) c.runs;
              reads = λ j. c.reads j ∙ ap ok (finished_unknown items status now A seq k j e);
              drained = c.drained ∙ rw rows (undrained-remove_row (seq, k) items (redb.iter queue));
            }
        | inr (r, e) ↦
            let r' = with_status status now r in
            let c =
              finish_all-FinishedAll items (updated k r' A)
                (write_record redb record_json records k r') queue'
                (write_record-Reads redb record_json records A k r' h) in
            record {
              records' = c.records';
              queue' = c.queue';
              runs = rw (h k, e) c.runs;
              reads = λ j. c.reads j ∙ ap ok (finished_known items status now A seq k j r e);
              drained = c.drained ∙ rw rows (undrained-remove_row (seq, k) items (redb.iter queue));
            }
      ]

  pub record Finished (A : Records) (items : List (ℕ × Bytes)) (db : Database redb) : Type 0 where
    pub db' : Database redb
    pub runs : finish redb record_json items status now db ≡ (ok tt, db')
    pub stamps :
        (key : Bytes) (r : IndexRecord)
        → A key ≡ some r
        → finishes items key ≡ true
        → (s : IndexRecord) × (get redb record_json db' key ≡ ok (some s)) × Stamped status now r s
    pub others :
        (key : Bytes)
        → (A key ≡ none) ⊎ (finishes items key ≡ false)
        → get redb record_json db' key ≡ ok (A key)
    pub drained : redb.iter db'.queue ≡ undrained items (redb.iter db.queue)

  module _ (A : Records) (items : List (ℕ × Bytes)) (key : Bytes)
      (found : Result IndexError (Option IndexRecord))
      (reads : found ≡ ok (finished items status now A key)) where
    finished-Stamped :
        (r : IndexRecord)
        → A key ≡ some r
        → finishes items key ≡ true
        → (s : IndexRecord) × (found ≡ ok (some s)) × Stamped status now r s
    finished-Stamped r e f =
        (with_status status now r, reads ∙ rw (f, e) refl, with_status-Stamped status now r)

    finished_other : (A key ≡ none) ⊎ (finishes items key ≡ false) → found ≡ ok (A key)
    finished_other (inr f) = reads ∙ rw f refl
    finished_other (inl e) =
        reads
        ∙ elim (Bool-cases (finishes items key)) [ inl f ↦ rw (f, e) refl | inr f ↦ rw f refl ]

  -- Where every row of the index reads back (`A` is what they hold), `finish` succeeds; after it,
  -- the records of the items' keys have the status, the time of publication when the status is
  -- `published` and else the one they had, and the rest as it was; every other key has what it had; and
  -- the queue has lost exactly the rows whose number is an item's.
  pub finish-Finished :
      (items : List (ℕ × Bytes)) (A : Records) (db : Database redb)
      → Reads redb record_json db.records A
      → Finished A items db
  unfolding finish get finishes
  finish-Finished [] A db h = record {
    db' = db;
    runs = refl;
    stamps = λ key. finished-Stamped A [] key _ (h key);
    others = λ key. finished_other A [] key _ (h key);
    drained = undrained-nil (redb.iter db.queue);
  }
  finish-Finished (item ∷ items) A db h =
      let c = finish_all-FinishedAll (item ∷ items) A db.records db.queue h in
      record {
        db' = record { records = c.records'; queue = c.queue'; meta = db.meta; roots = db.roots };
        runs = rw c.runs refl;
        stamps = λ key. finished-Stamped A (item ∷ items) key _ (c.reads key);
        others = λ key. finished_other A (item ∷ items) key _ (c.reads key);
        drained = c.drained;
      }
