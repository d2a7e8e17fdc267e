-- ===== src/Audit/Expected.antt =====
-- The keys that an audit (crates/registryd/src/verify.rs) expects: those whose row in the index is
-- published and of the partition.
use commonsdb_iroh_service.Prelude.{
  ℕ, ◌≤◌, ◌==◌, ==_iff, ◌≡◌, ◌⊎◌, ◌↔◌, refl, true, false, ◌&&◌, Bool-cases, inl, inr, List, [], ◌∷◌,
  All, length, arith,
}
use commonsdb_iroh_service.Prelude.Bytes.{Bytes, bytes_eq, bytes_eq_refl, eq_of_bytes_eq}
use commonsdb_iroh_service.Record.{RecordStatus, pending, published, denylisted}
use commonsdb_iroh_service.Redb.{Redb}
use commonsdb_iroh_service.Exec.{ok}
use commonsdb_iroh_service.RecordIndex.{IndexRecord, RecordJson, from_slice, is_published}
use commonsdb_iroh_service.RecordIndex.Scan.{published_keys}
use commonsdb_iroh_service.Hamt.{contains}

module _ (redb : Redb) (record_json : RecordJson) where
  -- Every row can be read.
  abbrev pub AllReadable : List (Bytes × Bytes) → Type 0
  AllReadable rows =
      All (λ (row : Bytes × Bytes). (r : IndexRecord) × (from_slice redb record_json row.1 ≡ ok r))
        rows

  -- A row of the key holds a published record of the partition.
  abbrev pub PublishedIn : ℕ → Bytes → List (Bytes × Bytes) → Type 0
  PublishedIn p key [] = ⊥
  PublishedIn p key (row ∷ rows) =
      ((row.0 ≡ key)
        × (r : IndexRecord) × (from_slice redb record_json row.1 ≡ ok r)
        × (r.partition_id ≡ p)
        × (r.status ≡ published))
      ⊎ PublishedIn p key rows

  pub record Scanned (p : ℕ) (rows : List (Bytes × Bytes)) : Type 0 where
    pub keys : List Bytes
    pub runs : published_keys redb record_json p rows ≡ ok keys
    pub members : (k : Bytes) → (contains keys k ≡ true) ↔ PublishedIn p k rows
    pub few : length keys ≤ length rows

  status_published : (s : RecordStatus) → is_published s ≡ true → s ≡ published
  unfolding is_published
  status_published pending e = cc
  status_published published e = refl
  status_published denylisted e = cc

  module _ (p : ℕ) (key raw : Bytes) (rows : List (Bytes × Bytes)) (keys : List Bytes)
      (r : IndexRecord) (reads : from_slice redb record_json raw ≡ ok r) (k : Bytes)
      (rest : (contains keys k ≡ true) ↔ PublishedIn p k rows) where
    taken :
        (r.partition_id == p && is_published r.status) ≡ true
        → contains (key ∷ keys) k ≡ true
        → PublishedIn p k ((key, raw) ∷ rows)
    unfolding contains
    taken takes e =
        let here : r.partition_id ≡ p = ground (arith, ==_iff r.partition_id p, takes) in
        let is_out : is_published r.status ≡ true = ground (arith, takes) in
        elim (Bool-cases (bytes_eq key k)) [
          | inl same ↦
              inl (eq_of_bytes_eq key k same, r, reads, here, status_published r.status is_out)
          | inr other ↦ inr (rest.0 (let later = (rw other at e) in later))
        ]

    taken_back : PublishedIn p k ((key, raw) ∷ rows) → contains (key ∷ keys) k ≡ true
    unfolding contains
    taken_back (inl (same, x, read, here, out)) = rw same (rw (bytes_eq_refl k) refl)
    taken_back (inr there) = let later = rest.1 there in ground (arith, later)

    left_back :
        (r.partition_id == p && is_published r.status) ≡ false
        → PublishedIn p k ((key, raw) ∷ rows)
        → contains keys k ≡ true
    unfolding is_published
    left_back leaves (inl (same, x, reads', here, out)) =
        let one : x ≡ r = cc in
        let part : r.partition_id ≡ p = rw (← one) here in
        let stat : r.status ≡ published = rw (← one) out in
        let eq : (r.partition_id == p) ≡ true = ground (arith, ==_iff r.partition_id p, part) in
        absurd (let h = (rw (eq, stat) at leaves) in cc)
    left_back leaves (inr there) = rest.1 there

  pub published_keys-Scanned :
      (p : ℕ) (rows : List (Bytes × Bytes)) → AllReadable rows → Scanned p rows
  unfolding published_keys contains
  published_keys-Scanned p [] h = record {
    keys = [];
    runs = refl;
    members = λ k. ((λ e. absurd (cc)), (λ none_there. absurd none_there));
    few = omega arith;
  }
  published_keys-Scanned p ((key, raw) ∷ rows) h =
      let (r, reads) = h.0 in
      let rest = published_keys-Scanned p rows h.1 in
      elim (Bool-cases (r.partition_id == p && is_published r.status)) [
        | inl takes ↦ record {
          keys = key ∷ rest.keys;
          runs = rw (reads, rest.runs, takes) refl;
          members = λ k. (
            taken p key raw rows rest.keys r reads k (rest.members k) takes,
            taken_back p key raw rows rest.keys r reads k (rest.members k),
          );
          few = let few = rest.few in omega arith;
        }
        | inr leaves ↦ record {
          keys = rest.keys;
          runs = rw (reads, rest.runs, leaves) refl;
          members = λ k. (
            (λ e. inr ((rest.members k).0 e)),
            left_back p key raw rows rest.keys r reads k (rest.members k) leaves,
          );
          few = let few = rest.few in omega arith;
        }
      ]
