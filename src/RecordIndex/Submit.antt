-- ===== src/RecordIndex/Submit.antt =====
-- What `submit_many` of crates/registryd/src/index.rs does: the records, the outcomes and the queue.
use commonsdb_iroh_service.Prelude.{
  ℕ, ◌+◌, ◌<◌, ◌^◌, ◌≡◌, ◌≢◌, ◌⊎◌, ◌∙◌, refl, Option, none, some, or_else, Bool-cases, inl, inr,
  true, List, ◌++◌, All, length, take, get_elem?,
}
use commonsdb_iroh_service.Prelude.Bytes.{Bytes, bytes_eq, bytes_eq_refl, eq_of_bytes_eq}
use commonsdb_iroh_service.Exec.{ok}
use commonsdb_iroh_service.Redb.{Redb, text_key, get-insert_self}
use commonsdb_iroh_service.RecordIndex.{
  IndexRecord, RecordJson, SubmitOutcome, queued, duplicate_identical, conflict, get, meta_next_seq,
  Database, outcome, next_seq, submit_many,
}
use commonsdb_iroh_service.RecordIndex.Records.{Records, first, Reads}
use commonsdb_iroh_service.RecordIndex.Claims.{fresh, numbered, claim_loop-Claimed}

-- What a submission gets whose key has this record, or none.
abbrev pub OutcomeFor : Option IndexRecord → IndexRecord → SubmitOutcome → Type 0
OutcomeFor none r o = o ≡ queued
OutcomeFor (some old) r o =
    ((old.content_hash ≡ r.content_hash) × (o ≡ duplicate_identical))
    ⊎ ((old.content_hash ≢ r.content_hash) × (o ≡ conflict old.content_hash))

outcome-OutcomeFor :
    (known : Option IndexRecord) (r : IndexRecord) → OutcomeFor known r (outcome known r)
unfolding outcome
outcome-OutcomeFor none r = refl
outcome-OutcomeFor (some old) r = elim (Bool-cases (bytes_eq old.content_hash r.content_hash)) [
  | inl same ↦ inl (eq_of_bytes_eq old.content_hash r.content_hash same, rw same refl)
  | inr other ↦ inr (
    (λ same.
        let yes : bytes_eq old.content_hash r.content_hash ≡ true =
          rw same (bytes_eq_refl r.content_hash) in
        absurd (cc)),
    rw other refl,
  )
]

module _ (redb : Redb) (record_json : RecordJson) where
  -- What `submit_many` leaves behind: `db'` answers each key with the record it had, else with the
  -- first that the batch has; each new key is in the queue once, behind all that were there.
  pub record Submitted (A : Records) (submissions : List (Bytes × IndexRecord)) (db : Database redb)
      : Type 0 where
    pub outcomes : List SubmitOutcome
    pub db' : Database redb
    pub runs : submit_many redb record_json submissions db ≡ (ok outcomes, db')
    pub gets :
        (key : Bytes) → get redb record_json db' key ≡ ok (or_else (A key) (first key submissions))
    pub positions :
        (i : ℕ) (s : Bytes × IndexRecord)
        → get_elem? submissions i ≡ some s
        → (o : SubmitOutcome) × (get_elem? outcomes i ≡ some o)
          × OutcomeFor (or_else (A s.0) (first s.0 (take i submissions))) s.1 o
    pub no_more : (i : ℕ) → get_elem? submissions i ≡ none → get_elem? outcomes i ≡ none
    pub in_queue :
        redb.iter db'.queue
        ≡ redb.iter db.queue ++ numbered (next_seq redb db) (fresh A submissions)
    pub next : next_seq redb db' ≡ next_seq redb db + length (fresh A submissions)

  -- Where every row of the index reads back (`A` is what they hold), the sequence numbers in the
  -- queue are below the next one and the batch does not overflow it, `submit_many` succeeds; after
  -- it, a key has the record it had, or else the first one that the batch has for it; there is one
  -- outcome for each position: `queued` where neither the index nor the submissions in front have the
  -- key, else `duplicate_identical` where that record has the same content hash, else `conflict` with
  -- the hash that it has; the queue is the old one followed by the new keys, each once and in order,
  -- under successive numbers from the next one, which moves up by their count.
  pub submit_many-Submitted :
      (submissions : List (Bytes × IndexRecord)) (A : Records) (db : Database redb)
      → Reads redb record_json db.records A
      → next_seq redb db + length submissions < 2 ^ 64
      → All (λ row. row.0 < next_seq redb db) (redb.iter db.queue)
      → Submitted A submissions db
  unfolding submit_many get next_seq
  submit_many-Submitted submissions A db h bound below =
      let c =
        claim_loop-Claimed redb record_json submissions A db.records db.queue (next_seq redb db) h
          bound below in
      let seq = next_seq redb db + length (fresh A submissions) in
      record {
        outcomes = c.outcomes;
        db' = record {
          records = c.records';
          queue = c.queue';
          meta = redb.insert text_key db.meta meta_next_seq seq;
          roots = db.roots;
        };
        runs = rw c.runs refl;
        gets = c.reads;
        positions = λ i s at_i.
            let known = or_else (A s.0) (first s.0 (take i submissions)) in
            (outcome known s.1, c.positions i ∙ rw at_i refl, outcome-OutcomeFor known s.1);
        no_more = λ i past. c.positions i ∙ rw past refl;
        in_queue = c.appended;
        next = rw (next_seq, get-insert_self redb text_key db.meta meta_next_seq seq) refl;
      }
