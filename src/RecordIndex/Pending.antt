-- ===== src/RecordIndex/Pending.antt =====
-- What `pending_batch` of crates/registryd/src/index.rs takes from the queue.
use commonsdb_iroh_service.Prelude.{
  ℕ, zero, suc, ◌≡◌, refl, none, some, Option-cases, inl, inr, List, [], ◌∷◌, take,
}
use commonsdb_iroh_service.Prelude.Bytes.{Bytes}
use commonsdb_iroh_service.Exec.{ok}
use commonsdb_iroh_service.Redb.{Redb}
use commonsdb_iroh_service.RecordIndex.{IndexRecord, RecordJson, Database, join_rows, pending_batch}
use commonsdb_iroh_service.RecordIndex.Records.{Records, Reads}

-- The queue rows whose key has a record, with the record.
unfoldable pub known : Records → List (ℕ × Bytes) → List (ℕ × (Bytes × IndexRecord))
known A [] = []
known A ((seq, key) ∷ rows) = elim (A key) [
  | none ↦ known A rows
  | some r ↦ (seq, (key, r)) ∷ known A rows
]

module _ (redb : Redb) (record_json : RecordJson) (A : Records) (records : redb.Table Bytes Bytes)
    (h : Reads redb record_json records A) where
  join_rows-known :
      (max : ℕ) (rows : List (ℕ × Bytes))
      → join_rows redb record_json records max rows ≡ ok (take max (known A rows))
  unfolding join_rows known
  join_rows-known zero [] = refl
  join_rows-known (suc max) [] = refl
  join_rows-known zero (row ∷ rows) = refl
  join_rows-known (suc max) ((seq, key) ∷ rows) = elim (Option-cases (A key)) [
    | inl e ↦ rw (h key, known, e) (join_rows-known (suc max) rows)
    | inr (r, e) ↦ rw (h key, known, e, join_rows-known max rows) refl
  ]

-- Where every row of the index reads back (`A` is what they hold), `pending_batch` succeeds with the
-- first `max` of the queue rows whose key has a record, in the order of the queue.
pub pending_batch-known :
    (redb : Redb) (record_json : RecordJson) (A : Records) (db : Database redb) (max : ℕ)
    → Reads redb record_json db.records A
    → pending_batch redb record_json db max ≡ ok (take max (known A (redb.iter db.queue)))
unfolding pending_batch
pending_batch-known redb record_json A db max h =
    join_rows-known redb record_json A db.records h max (redb.iter db.queue)
