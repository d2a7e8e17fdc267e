-- ===== src/RecordIndex/Records.antt =====
-- The records of the index (crates/registryd/src/index.rs) read as a function from keys to records.
use commonsdb_iroh_service.Prelude.{
  ◌≡◌, ◌∙◌, refl, ap, Option, none, some, Bool-cases, inl, inr, List, [], ◌∷◌, map, if◌then◌else◌,
}
use commonsdb_iroh_service.Prelude.Bytes.{Bytes, bytes_eq, eq_of_bytes_eq}
use commonsdb_iroh_service.Exec.{ok}
use commonsdb_iroh_service.Redb.{Redb, text_key, get-insert_self, get-insert_ne}
use commonsdb_iroh_service.RecordIndex.{
  IndexRecord, RecordJson, Database, get_many, read_record, write_record, parse_row, from_slice,
}

-- A view of the records, and the view after a write.
abbrev pub Records : Type 0
Records = Bytes → Option IndexRecord

abbrev pub updated : Bytes → IndexRecord → Records → Records
updated k r A j = if bytes_eq j k then some r else A j

-- The record that a batch holds for a key first.
unfoldable pub first : Bytes → List (Bytes × IndexRecord) → Option IndexRecord
first key [] = none
first key (s ∷ submissions) = if bytes_eq key s.0 then some s.1 else first key submissions

module _ (redb : Redb) (record_json : RecordJson) where
  -- Every row of the table can be read, and `A` says what is in it.
  abbrev pub Reads : redb.Table Bytes Bytes → Records → Type 0
  Reads records A = (key : Bytes) → read_record redb record_json records key ≡ ok (A key)

  written :
      (records : redb.Table Bytes Bytes) (k : Bytes) (r : IndexRecord)
      → read_record redb record_json (write_record redb record_json records k r) k ≡ ok (some r)
  unfolding read_record write_record parse_row from_slice
  written records k r =
      rw
        (
          get-insert_self redb text_key records k (record_json.to_vec r),
          record_json.from_slice-to_vec r,
        )
        refl

  pub write_record-Reads :
      (records : redb.Table Bytes Bytes) (A : Records) (k : Bytes) (r : IndexRecord)
      → Reads records A
      → Reads (write_record redb record_json records k r) (updated k r A)
  unfolding read_record write_record
  write_record-Reads records A k r h j = elim (Bool-cases (bytes_eq j k)) [
    | inl same ↦
        let e : j ≡ k = eq_of_bytes_eq j k same in
        let t = write_record redb record_json records k r in
        rw same (ap (read_record redb record_json t) e ∙ written records k r)
    | inr other ↦
        rw (other, get-insert_ne redb text_key records j k (record_json.to_vec r) other) (h j)
  ]

  -- The read of many keys, which a batch gives one by one.
  pub get_many-Reads :
      {B : Type 0} (key_of : B → Bytes) (db : Database redb) (A : Records) (batch : List B)
      → Reads db.records A
      → get_many redb record_json db (map key_of batch) ≡ ok (map (λ b. A (key_of b)) batch)
  unfolding get_many
  get_many-Reads key_of db A [] h = refl
  get_many-Reads key_of db A (b ∷ batch) h =
      rw (h (key_of b), get_many-Reads key_of db A batch h) refl
