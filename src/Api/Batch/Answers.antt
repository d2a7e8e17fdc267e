-- ===== src/Api/Batch/Answers.antt =====
-- Every position of a batch gets its answer: `submit_batch` of crates/registryd/src/api.rs.
use commonsdb_iroh_service.Prelude.{
  ℕ, zero, suc, ◌+◌, ◌-◌, ◌≤◌, ◌≡◌, refl, ap, sym, ◌∙◌, ◌⊎◌, inl, inr, Bool-cases, Option-cases,
  Option, none, some, List, [], ◌∷◌, map, length, get_elem?, ltb, true, false, arith,
}
use commonsdb_iroh_service.Prelude.Bytes.{Bytes, bytes_eq}
use commonsdb_iroh_service.Record.{Instant}
use commonsdb_iroh_service.Redb.{Redb, number_key, text_key}
use commonsdb_iroh_service.BlobStore.{BlobStore}
use commonsdb_iroh_service.RecordIndex.{
  IndexRecord, RecordJson, Database, SubmitOutcome, queued, duplicate_identical, conflict, outcome,
  claim_loop, submit_many, next_seq, next_u64, meta_next_seq, write_record,
}
use commonsdb_iroh_service.RecordIndex.Records.{
  Records, updated, Reads, write_record-Reads, get_many-Reads,
}
use commonsdb_iroh_service.Exec.{ok, Result-cases}
use commonsdb_iroh_service.Api.{
  App, ApiError, RecordAnswer, queued_answer, conflict_answer, error_answer, validate_one, World,
  with_write_guard,
}
use commonsdb_iroh_service.Api.Batch.{
  Results, Candidate, outcome_answer, fill_outcomes, known_answer, check_known, Submission,
  submission_of, validate_all, put_values, claim, submit_candidates, submit_batch,
}
use commonsdb_iroh_service.Api.Batch.Progress.{
  answer_key, In, IsAnswered, Progress, set_first, keep_first, aside_first,
}

module _ (keys : List Bytes) where
  known_key :
      (c : Candidate) (known : Option IndexRecord) (a : RecordAnswer)
      → known_answer c known ≡ some a
      → answer_key a ≡ c.key
  unfolding known_answer answer_key
  known_key c none a h = cc
  known_key c (some prior) a h =
      elim (Bool-cases (bytes_eq prior.content_hash c.record_.content_hash)) [
        | inl e ↦
            (let found = (rw e at h) in
              let eq : queued_answer c.key c.record_.partition_id true ≡ a = cc in rw (← eq) refl)
        | inr e ↦
            (let found = (rw e at h) in
              let eq : conflict_answer c.key prior.content_hash ≡ a = cc in rw (← eq) refl)
      ]

  check_known-Progress :
      (A : Records) (cs : List Candidate) (results : Results) (E : Candidate → Type 0)
      → Progress keys results (λ d. In cs d ⊎ E d)
      → (let checked = check_known cs (map (λ (c : Candidate). A c.key) cs) results in
          Progress keys checked.0 (λ d. In checked.1 d ⊎ E d))
  unfolding check_known
  check_known-Progress A [] results E p = p
  check_known-Progress A (c ∷ cs) results E p = elim (Option-cases (known_answer c (A c.key))) [
    | inl e ↦
        rw (check_known, e)
          (aside_first keys _ c _ E (
            check_known-Progress A cs results (λ d. E d ⊎ (c ≡ d))
              (keep_first keys results c cs E p)))
    | inr (a, e) ↦
        rw (check_known, e)
          (check_known-Progress A cs _ E
            (set_first keys results c cs E a (known_key c (A c.key) a e) p))
  ]

  outcome_key : (c : Candidate) (o : SubmitOutcome) → answer_key (outcome_answer c o) ≡ c.key
  unfolding outcome_answer answer_key
  outcome_key c queued = refl
  outcome_key c duplicate_identical = refl
  outcome_key c (conflict existing_hash) = refl

  fill_outcomes-Progress :
      (cs : List Candidate) (outcomes : List SubmitOutcome) (results : Results)
      (E : Candidate → Type 0)
      → length outcomes ≡ length cs
      → Progress keys results (λ d. In cs d ⊎ E d)
      → Progress keys (fill_outcomes cs outcomes results) (λ d. In [] d ⊎ E d)
  unfolding fill_outcomes
  fill_outcomes-Progress [] outcomes results E h p = p
  fill_outcomes-Progress (c ∷ cs) [] results E h p = absurd (omega arith)
  fill_outcomes-Progress (c ∷ cs) (o ∷ outcomes) results E h p =
      fill_outcomes-Progress cs outcomes _ E (omega arith)
        (set_first keys results c cs E (outcome_answer c o) (outcome_key c o) p)

module _ {Cid : Type 0} (app : App Cid) {S : Type 0} (store : BlobStore S) where
  put_values-Progress :
      (keys : List Bytes) (cs : List Candidate) (results : Results) (s : S) (E : Candidate → Type 0)
      → Progress keys results (λ d. In cs d ⊎ E d)
      → (let ran = put_values app store cs results s in
          Progress keys ran.0.0 (λ d. In ran.0.1 d ⊎ E d))
  unfolding put_values answer_key
  put_values-Progress keys [] results s E p = p
  put_values-Progress keys (c ∷ cs) results s E p =
      let put = store.put c.value s in
      elim (Result-cases put.0) [
        | inr (e, failed) ↦
            rw (put_values, failed)
              (put_values-Progress keys cs _ put.1 E (set_first keys results c cs E _ refl p))
        | inl (h, stored) ↦
            rw (put_values, stored)
              (aside_first keys _ c _ E (
                put_values-Progress keys cs results put.1 (λ d. E d ⊎ (c ≡ d))
                  (keep_first keys results c cs E p)))
      ]

module _ (redb : Redb) (record_json : RecordJson) where
  -- However the numbers of the queue stand, a batch gives one outcome for each submission.
  claim_loop_total :
      (submissions : List (Bytes × IndexRecord)) (A : Records) (records : redb.Table Bytes Bytes)
      (queue : redb.Table ℕ Bytes) (seq : ℕ)
      → Reads redb record_json records A
      → (outcomes : List SubmitOutcome) × (rest : redb.Table Bytes Bytes × (redb.Table ℕ Bytes × ℕ))
        × (claim_loop redb record_json submissions records queue seq ≡ ok (outcomes, rest))
        × (length outcomes ≡ length submissions)
  unfolding claim_loop
  claim_loop_total [] A records queue seq h = ([], (records, (queue, seq)), refl, refl)
  claim_loop_total ((key, r) ∷ submissions) A records queue seq h =
      let (old_os, old_rest, old_run, old_len) =
        claim_loop_total submissions A records queue seq h in
      let (os, rest, run, len) =
        claim_loop_total submissions (updated key r A) (write_record redb record_json records key r)
          (redb.insert number_key queue seq key) (next_u64 seq)
          (write_record-Reads redb record_json records A key r h) in
      elim (Option-cases (A key)) [
        | inl e ↦ (outcome none r ∷ os, rest, rw (h key, e, run) refl, ap suc len)
        | inr (old, e) ↦
            (outcome (some old) r ∷ old_os, old_rest, rw (h key, e, old_run) refl, ap suc old_len)
      ]

  submit_many_total :
      (submissions : List (Bytes × IndexRecord)) (A : Records) (db : Database redb)
      → Reads redb record_json db.records A
      → (outcomes : List SubmitOutcome) × (db' : Database redb) × (submit_many redb record_json
            submissions db
          ≡ (ok outcomes, db'))
        × (length outcomes ≡ length submissions)
  unfolding submit_many
  submit_many_total submissions A db h =
      let (outcomes, rest, run, len) =
        claim_loop_total submissions A db.records db.queue (next_seq redb db) h in
      (
        outcomes,
        record {
          records = rest.0;
          queue = rest.1.0;
          meta = redb.insert text_key db.meta meta_next_seq rest.1.1;
          roots = db.roots;
        },
        rw run refl,
        len,
      )

error_key : (key : Bytes) (e : ApiError) → answer_key (error_answer key e) ≡ key
unfolding answer_key
error_key key e = refl

not_too_large : (limit n : ℕ) → n ≤ limit → ltb limit n ≡ false
not_too_large limit n h = ground (arith, h)

length-submissions : (cs : List Candidate) → length (map submission_of cs) ≡ length cs
length-submissions [] = refl
length-submissions (c ∷ cs) = ap suc (length-submissions cs)

module _ {Cid : Type 0} (app : App Cid) where
  length_keys : (records : List (Submission app)) → length (map (λ r. r.0) records) ≡ length records
  length_keys [] = refl
  length_keys (r ∷ records) = ap suc (length_keys records)

  abbrev keys_of : List (Submission app) → List Bytes
  keys_of records = map (λ r. r.0) records

  -- The candidates of the positions from `i` on.
  record Start (i : ℕ) (keys : List Bytes) (results : Results) (cs : List Candidate) : Type 0 where
    same_length : length results ≡ length keys
    sound : (c : Candidate) → In cs c → (k : ℕ) × (c.slot ≡ i + k) × (get_elem? keys k ≡ some c.key)
    covers :
        (k : ℕ) (key : Bytes)
        → get_elem? keys k ≡ some key
        → IsAnswered results k key ⊎ ((c : Candidate) × In cs c × (c.slot ≡ i + k))

  shifted : (i k : ℕ) → suc i + k ≡ i + suc k
  shifted i k = omega arith

  Start-covers_first :
      (i : ℕ) (key : Bytes) (keys : List Bytes) (results : Results) (cs : List Candidate)
      (a : RecordAnswer)
      → answer_key a ≡ key
      → Start (suc i) keys results cs
      → (k : ℕ) (key' : Bytes) → get_elem? (key ∷ keys) k ≡ some key'
      → IsAnswered (some a ∷ results) k key' ⊎ ((c : Candidate) × In cs c × (c.slot ≡ i + k))
  Start-covers_first i key keys results cs a named p zero key' e =
      let same : key ≡ key' = cc in inl (a, refl, named ∙ same)
  Start-covers_first i key keys results cs a named p (suc k) key' e = elim (p.covers k key' e) [
    | inl answered ↦ inl answered
    | inr (c, w, slot) ↦ inr (c, w, slot ∙ shifted i k)
  ]

  Start-covers_rest :
      (c : Candidate) (keys : List Bytes) (results : Results) (cs : List Candidate)
      → Start (suc c.slot) keys results cs
      → (k : ℕ) (key' : Bytes) → get_elem? (c.key ∷ keys) k ≡ some key'
      → IsAnswered (none ∷ results) k key'
        ⊎ ((d : Candidate) × In (c ∷ cs) d × (d.slot ≡ c.slot + k))
  Start-covers_rest c keys results cs p zero key' e = inr (c, (0, refl), omega arith)
  Start-covers_rest c keys results cs p (suc k) key' e = elim (p.covers k key' e) [
    | inl answered ↦ inl answered
    | inr (d, (j, at_j), slot) ↦ inr (d, (suc j, at_j), slot ∙ shifted c.slot k)
  ]

  Start-keep :
      (i : ℕ) (key : Bytes) (keys : List Bytes) (results : Results) (cs : List Candidate)
      (a : RecordAnswer)
      → answer_key a ≡ key
      → Start (suc i) keys results cs
      → Start i (key ∷ keys) (some a ∷ results) cs
  Start-keep i key keys results cs a named p = record {
    same_length = ap suc p.same_length;
    sound = λ c w. let (k, slot, here) = p.sound c w in (suc k, slot ∙ shifted i k, here);
    covers = Start-covers_first i key keys results cs a named p;
  }

  Start-sound_cons :
      (c : Candidate) (keys : List Bytes) (results : Results) (cs : List Candidate)
      → Start (suc c.slot) keys results cs
      → (d : Candidate) (j : ℕ) → get_elem? (c ∷ cs) j ≡ some d
      → (k : ℕ) × (d.slot ≡ c.slot + k) × (get_elem? (c.key ∷ keys) k ≡ some d.key)
  Start-sound_cons c keys results cs p d zero e =
      let same : c ≡ d = cc in
      (
        0,
        sym (ap (λ (x : Candidate). x.slot) same) ∙ omega arith,
        ap (λ (x : Candidate). some x.key) same,
      )
  Start-sound_cons c keys results cs p d (suc j) e =
      let (k, slot, here) = p.sound d (j, e) in (suc k, slot ∙ shifted c.slot k, here)

  Start-aside :
      (c : Candidate) (keys : List Bytes) (results : Results) (cs : List Candidate)
      → Start (suc c.slot) keys results cs
      → Start c.slot (c.key ∷ keys) (none ∷ results) (c ∷ cs)
  Start-aside c keys results cs p = record {
    same_length = ap suc p.same_length;
    sound = λ d w. Start-sound_cons c keys results cs p d w.0 w.1;
    covers = Start-covers_rest c keys results cs p;
  }

  validate_all-Start :
      (clock : ℕ → Instant) (i : ℕ) (records : List (Submission app))
      → (let validated = validate_all app clock i records in
          Start i (keys_of records) validated.0 validated.1)
  unfolding validate_all
  validate_all-Start clock i [] = record {
    same_length = refl;
    sound = λ c w. absurd (let h = w.1 in cc);
    covers = λ k key e. absurd (cc);
  }
  validate_all-Start clock i (r ∷ records) =
      let rest = validate_all-Start clock (suc i) records in
      let tail = validate_all app clock (suc i) records in
      elim (Result-cases (validate_one app (clock i) r.0 r.1)) [
        | inl (valid, e) ↦
            rw (validate_all, e)
              (Start-aside record { slot = i; key = r.0; value = valid.0; record_ = valid.1 }
                (keys_of records) tail.0 tail.1 rest)
        | inr (failed, e) ↦
            rw (validate_all, e)
              (Start-keep i r.0 (keys_of records) tail.0 tail.1 (error_answer r.0 failed)
                (error_key r.0 failed) rest)
      ]

  -- The start is progress: no position is without an answer or a candidate.
  Start-Progress :
      (keys : List Bytes) (results : Results) (cs : List Candidate)
      → Start 0 keys results cs
      → Progress keys results (λ d. In cs d ⊎ ⊥)
  Start-Progress keys results cs p = record {
    same_length = p.same_length;
    sound = λ c w. elim w [
      | inl w ↦
          let (k, slot, here) = p.sound c w in
          let same : c.slot ≡ k = slot ∙ omega arith in rw same here
      | inr never ↦ absurd never
    ];
    covers = λ i key e. elim (p.covers i key e) [
      | inl answered ↦ inl answered
      | inr (c, w, slot) ↦ inr (c, inl w, slot ∙ omega arith)
    ];
  }

  module _ {S : Type 0} (store : BlobStore S) where
    submit_candidates_total :
        (keys : List Bytes) (results : Results) (cs : List Candidate) (A : Records)
        (w : World app store)
        → Reads app.redb app.record_json w.index.records A
        → Progress keys results (λ d. In cs d ⊎ ⊥)
        → (final : Results) × (w' : World app store) × (submit_candidates app store results cs w
            ≡ (ok final, w'))
          × Progress keys final (λ d. In [] d ⊎ ⊥)
    unfolding submit_candidates claim
    submit_candidates_total keys results cs A w h p =
        let checked = check_known cs (map (λ (c : Candidate). A c.key) cs) results in
        let known = check_known-Progress keys A cs results (λ d. ⊥) p in
        let ran = put_values app store checked.1 checked.0 w.blobs in
        let put = put_values-Progress app store keys checked.1 checked.0 w.blobs (λ d. ⊥) known in
        let (outcomes, db', run, len) =
          submit_many_total app.redb app.record_json (map submission_of ran.0.1) A w.index h in
        (
          fill_outcomes ran.0.1 outcomes ran.0.0,
          record { index = db'; blobs = ran.1; active_writes = w.active_writes },
          rw
              (
                get_many-Reads app.redb app.record_json (λ (c : Candidate). c.key) w.index A cs h,
                run,
              )
              refl,
          fill_outcomes-Progress keys ran.0.1 outcomes ran.0.0 (λ d. ⊥)
              (len ∙ length-submissions ran.0.1) put,
        )

    -- Where every row of the index reads back, a batch that is not too large succeeds, whatever its records
    -- are and whichever puts fail: it has as many answers as records, and the answer at each position
    -- names the key of the record at that position.
    pub submit_batch-IsAnswered :
        (clock : ℕ → Instant) (records : List (Submission app)) (A : Records) (w : World app store)
        → Reads app.redb app.record_json w.index.records A
        → length records ≤ app.batch_max_records
        → (results : Results) × (w' : World app store) × (submit_batch app store clock records w
            ≡ (ok results, w'))
          × (length results ≡ length records)
          × ((i : ℕ) (key : Bytes)
              → get_elem? (keys_of records) i ≡ some key
              → IsAnswered results i key)
    unfolding submit_batch with_write_guard
    submit_batch-IsAnswered clock records A w h fits =
        let validated = validate_all app clock 0 records in
        let start =
          Start-Progress (keys_of records) validated.0 validated.1
            (validate_all-Start clock 0 records) in
        let guarded : World app store = record {
          index = w.index;
          blobs = w.blobs;
          active_writes = w.active_writes + 1;
        } in
        let (final, w', run, done) =
          submit_candidates_total (keys_of records) validated.0 validated.1 A guarded h start in
        (
          final,
          record { index = w'.index; blobs = w'.blobs; active_writes = w'.active_writes - 1 },
          rw (not_too_large app.batch_max_records (length records) fits, run) refl,
          done.same_length ∙ length_keys records,
          λ i key e. elim (done.covers i key e) [
            | inl answered ↦ answered
            | inr (c, inl (j, here), slot) ↦ absurd (cc)
            | inr (c, inr never, slot) ↦ absurd never
          ],
        )
