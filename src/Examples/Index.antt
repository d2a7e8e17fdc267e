-- ===== src/Examples/Index.antt =====
-- The record index of crates/registryd/src/index.rs on a database of two records.
use commonsdb_iroh_service.Prelude.{
  take, ℕ, ◌≡◌, refl, All, Bool-cases, inl, inr, none, some, List, [], ◌∷◌, if◌then◌else◌, arith,
}
use commonsdb_iroh_service.Prelude.Bytes.{Bytes, bytes_eq, bytes_le}
use commonsdb_iroh_service.Record.{RecordStatus, pending, published}
use commonsdb_iroh_service.Exec.{Result, ok, err}
use commonsdb_iroh_service.Redb.{get_row, insert_row}
use commonsdb_iroh_service.RecordIndex.{
  pending_batch, IndexRecord, IndexError, Database, SubmitOutcome, queued, duplicate_identical,
  conflict, meta_next_seq, from_slice, parse_row, read_record, write_record, next_seq, next_u64,
  outcome, claim_loop, submit_many, get,
}
use commonsdb_iroh_service.RecordIndex.Records.{Records, Reads}
use commonsdb_iroh_service.RecordIndex.Submit.{Submitted, submit_many-Submitted}
use commonsdb_iroh_service.RecordIndex.Pending.{known, pending_batch-known}
use commonsdb_iroh_service.RecordIndex.Finish.{Finished, finish-Finished}
use commonsdb_iroh_service.RecordIndex.Bindings.{
  Operation, submitting, publishing, requeueing, bulk_marking, redating, rooting, Agrees, after_all,
  after_all-keeps_hash,
}
use commonsdb_iroh_service.Examples.Tables.{rows, numbers_json, write_record_text}

abbrev pub record_of : ℕ → RecordStatus → IndexRecord
record_of hash status = record {
  content_hash = hash ∷ [];
  size = 3;
  partition_id = 1;
  status = status;
  created_at = 7;
  content_code = none;
  published_at = none;
}

abbrev pub fig : Bytes
fig = 102 ∷ []

abbrev pub kiwi : Bytes
kiwi = 107 ∷ []

abbrev pub plum : Bytes
plum = 112 ∷ []

-- Fig is published and kiwi is in the queue.
abbrev pub two_records : Database rows
two_records = record {
  records =
      (fig, write_record_text (record_of 1 published))
      ∷ (kiwi, write_record_text (record_of 2 pending))
      ∷ [];
  queue = (4, kiwi) ∷ [];
  meta = (meta_next_seq, 5) ∷ [];
  roots = [];
}

abbrev pub held : Records
held k =
    if bytes_eq k fig
    then some (record_of 1 published)
    else if bytes_eq k kiwi
    then some (record_of 2 pending)
    else none

pub two_records-Reads : Reads rows numbers_json two_records.records held
unfolding read_record parse_row from_slice get_row
two_records-Reads k = elim (Bool-cases (bytes_eq k fig)) [
  | inl a ↦ rw a refl
  | inr a ↦ elim (Bool-cases (bytes_eq k kiwi)) [ inl b ↦ rw (a, b) refl | inr b ↦ rw (a, b) refl ]
]

-- A new key, the same key again with other bytes, and a key that the index has.
abbrev submissions : List (Bytes × IndexRecord)
submissions =
    (plum, record_of 8 pending) ∷ (plum, record_of 9 pending) ∷ (fig, record_of 1 pending) ∷ []

abbrev outcomes_of : Result IndexError (List SubmitOutcome) × Database rows → List SubmitOutcome
outcomes_of (ok outcomes, db) = outcomes
outcomes_of (err e, db) = []

outcomes_of_three :
    outcomes_of (submit_many rows numbers_json submissions two_records)
    ≡ queued ∷ conflict (8 ∷ []) ∷ duplicate_identical ∷ []
unfolding submit_many claim_loop read_record write_record parse_row from_slice get_row insert_row
    outcome bytes_eq next_u64 next_seq bytes_le
outcomes_of_three = refl

pub next_of_two : next_seq rows two_records ≡ 5
unfolding next_seq get_row bytes_eq
next_of_two = refl

submit_many-Submitted_example : Submitted rows numbers_json held submissions two_records
submit_many-Submitted_example =
    submit_many-Submitted rows numbers_json submissions held two_records two_records-Reads
      (omega (arith, next_of_two)) (omega (arith, next_of_two), tt)

finish-Finished_example : Finished rows numbers_json published 9 held ((4, kiwi) ∷ []) two_records
finish-Finished_example =
    finish-Finished rows numbers_json published 9 ((4, kiwi) ∷ []) held two_records
      two_records-Reads

abbrev operations : List Operation
operations =
    submitting submissions
    ∷ publishing ((4, kiwi) ∷ []) 9
    ∷ requeueing fig
    ∷ bulk_marking ((plum, record_of 8 published) ∷ (fig, record_of 1 published) ∷ [])
    ∷ redating ((fig, 2) ∷ [])
    ∷ rooting 1 (3 ∷ [])
    ∷ []

held-fig : held fig ≡ some (record_of 1 published)
unfolding bytes_eq
held-fig = refl

operations-Agrees : All (Agrees fig (1 ∷ [])) operations
unfolding bytes_eq
operations-Agrees = (tt, (tt, (tt, ((λ same. absurd (cc), (λ same. refl, tt)), (tt, (tt, tt))))))

after_all-keeps_hash_example :
    (s : IndexRecord) × (get rows numbers_json
        (after_all rows numbers_json operations two_records)
        fig
      ≡ ok (some s))
    × (s.content_hash ≡ 1 ∷ [])
after_all-keeps_hash_example =
    after_all-keeps_hash rows numbers_json operations held two_records fig (record_of 1 published)
      two_records-Reads held-fig operations-Agrees

pending_batch-known_example :
    pending_batch rows numbers_json two_records 3
    ≡ ok (take 3 (known held (rows.iter two_records.queue)))
pending_batch-known_example =
    pending_batch-known rows numbers_json held two_records 3 two_records-Reads
