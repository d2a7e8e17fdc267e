-- ===== src/BulkLoad/LastWins.antt =====
-- Which record a batch of crates/registryd/src/bulk_load.rs leaves with a key: the index's own, or the last of
-- the batch.
use commonsdb_iroh_service.Prelude.{
  ◌≡◌, refl, ap, sym, ◌∙◌, inl, inr, Bool-cases, Option-cases, Option, none, some, or_else, List,
  [], ◌∷◌, if◌then◌else◌,
}
use commonsdb_iroh_service.Prelude.Bytes.{Bytes, bytes_eq, eq_of_bytes_eq}
use commonsdb_iroh_service.Redb.{Redb}
use commonsdb_iroh_service.RecordIndex.{IndexRecord, RecordJson, write_all, write_record}
use commonsdb_iroh_service.RecordIndex.Records.{Records, updated, Reads, write_record-Reads}
use commonsdb_iroh_service.Exec.{ok}
use commonsdb_iroh_service.BulkLoad.{Line}

-- The last record that a list has for a key.
unfoldable pub last_of : Bytes → List (Bytes × IndexRecord) → Option IndexRecord
last_of key [] = none
last_of key (s ∷ rest) =
    let later = last_of key rest in or_else later (if bytes_eq key s.0 then some s.1 else none)

abbrev pub pairs_of : List Line → List (Bytes × IndexRecord)
pairs_of [] = []
pairs_of (l ∷ batch) = (l.key, l.record_) ∷ pairs_of batch

-- The lines whose key the index does not have.
unfoldable pub fresh_pairs : Records → List Line → List (Bytes × IndexRecord)
fresh_pairs A [] = []
fresh_pairs A (l ∷ batch) = elim (A l.key) [
  | none ↦ (l.key, l.record_) ∷ fresh_pairs A batch
  | some prior ↦ fresh_pairs A batch
]

or_else-nothing : (o : Option IndexRecord) → o ≡ or_else o none
unfolding or_else
or_else-nothing none = refl
or_else-nothing (some r) = refl

later_wins :
    (o : Option IndexRecord) (k : Bytes) (row : Bytes × IndexRecord) (A : Records)
    → or_else o (updated row.0 row.1 A k)
      ≡ or_else (or_else o (if bytes_eq k row.0 then some row.1 else none)) (A k)
unfolding or_else
later_wins (some r) k row A = refl
later_wins none k row A = elim (Bool-cases (bytes_eq k row.0)) [
  | inl e ↦ rw e refl
  | inr e ↦ rw e refl
]

last_of-known :
    (A : Records) (key : Bytes) (r : IndexRecord) (batch : List Line)
    → A key ≡ some r
    → last_of key (fresh_pairs A batch) ≡ none
unfolding last_of fresh_pairs or_else
last_of-known A key r [] h = refl
last_of-known A key r (l ∷ batch) h =
    let rest = last_of-known A key r batch h in
    elim (Option-cases (A l.key)) [
      | inr (prior, e) ↦ rw (fresh_pairs, e) rest
      | inl e ↦ elim (Bool-cases (bytes_eq key l.key)) [
        | inl same ↦ absurd (let h' = (rw (eq_of_bytes_eq key l.key same) at h) in cc)
        | inr other ↦ rw (fresh_pairs, e, rest, other) refl
      ]
    ]

last_of-fresh :
    (A : Records) (key : Bytes) (batch : List Line)
    → A key ≡ none
    → last_of key (fresh_pairs A batch) ≡ last_of key (pairs_of batch)
unfolding last_of fresh_pairs or_else
last_of-fresh A key [] h = refl
last_of-fresh A key (l ∷ batch) h =
    let rest = last_of-fresh A key batch h in
    elim (Option-cases (A l.key)) [
      | inl e ↦ rw (fresh_pairs, e, rest) refl
      | inr (prior, e) ↦ elim (Bool-cases (bytes_eq key l.key)) [
        | inl same ↦ absurd (let h' = (rw (eq_of_bytes_eq key l.key same) at h) in cc)
        | inr other ↦
            rw (fresh_pairs, e, rest, other) (or_else-nothing (last_of key (pairs_of batch)))
      ]
    ]

module _ (redb : Redb) (record_json : RecordJson) where
  pub write_all-Reads :
      (rows : List (Bytes × IndexRecord)) (A : Records) (records : redb.Table Bytes Bytes)
      → Reads redb record_json records A
      → Reads redb record_json
          (write_all redb record_json rows records)
          (λ k. or_else (last_of k rows) (A k))
  unfolding write_all last_of or_else
  write_all-Reads [] A records h k = h k
  write_all-Reads (row ∷ rows) A records h k =
      write_all-Reads rows (updated row.0 row.1 A)
        (write_record redb record_json records row.0 row.1)
        (write_record-Reads redb record_json records A row.0 row.1 h) k
      ∙ ap ok (later_wins (last_of k rows) k row A)

pub after_batch :
    (A : Records) (key : Bytes) (batch : List Line)
    → or_else (last_of key (fresh_pairs A batch)) (A key)
      ≡ or_else (A key) (last_of key (pairs_of batch))
unfolding or_else
after_batch A key batch = elim (Option-cases (A key)) [
  | inl e ↦
      rw (last_of-fresh A key batch e, e) (sym (or_else-nothing (last_of key (pairs_of batch))))
  | inr (r, e) ↦ rw (last_of-known A key r batch e, e) refl
]
