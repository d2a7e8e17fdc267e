-- ===== src/Api/Batch.antt =====
-- `submit_batch` of crates/registryd/src/api.rs, phase by phase: validation, the check against the index,
-- the blobs of the new records, one write of the index.
--
-- The blobs are put in the order of the tasks; the source runs up to 32 of them at a time.
pub mod Progress
pub mod Answers
use commonsdb_iroh_service.Prelude.{
  ℕ, zero, suc, Bool, true, false, Option, none, some, List, [], ◌∷◌, ◌++◌, map, length, set, ltb,
  if◌then◌else◌,
}
use commonsdb_iroh_service.Prelude.Bytes.{Bytes, bytes_eq}
use commonsdb_iroh_service.Record.{Hash, Instant}
use commonsdb_iroh_service.BlobStore.{BlobStore, BlobStoreError}
use commonsdb_iroh_service.RecordIndex.{
  IndexRecord, SubmitOutcome, queued, duplicate_identical, conflict, submit_many, get_many,
}
use commonsdb_iroh_service.Exec.{Result, ok, err, Exec, pure, raise, asks, map_err, ◌>>=◌}
use commonsdb_iroh_service.Api.{
  ApiError, internal, store_failed, index_failed, batch_too_large, App, State, RecordAnswer,
  queued_answer, conflict_answer, error_answer, validate_one, World, on_index, on_blobs,
  with_write_guard,
}

-- `results`: an answer or `null` for each position of the batch.
abbrev pub Results : Type 0
Results = List (Option RecordAnswer)

-- A record that is still without an answer, with its position.
pub record Candidate : Type 0 where
  pub slot : ℕ
  pub key : Bytes
  pub value : Bytes
  pub record_ : IndexRecord

-- `SubmitOutcome::DuplicateIdentical` as `matches!` tests it
unfoldable pub outcome_answer : Candidate → SubmitOutcome → RecordAnswer
outcome_answer c queued = queued_answer c.key c.record_.partition_id false
outcome_answer c duplicate_identical = queued_answer c.key c.record_.partition_id true
outcome_answer c (conflict existing_hash) = conflict_answer c.key existing_hash

-- The loop over the outcomes; `zip` ends with the shorter list.
unfoldable pub fill_outcomes : List Candidate → List SubmitOutcome → Results → Results
unfolding outcome_answer
fill_outcomes [] outcomes results = results
fill_outcomes (c ∷ prepared) [] results = results
fill_outcomes (c ∷ prepared) (o ∷ outcomes) results =
    fill_outcomes prepared outcomes (set results c.slot (some (outcome_answer c o)))

-- What the index says of a candidate: an answer, or nothing when its key is new.
unfoldable pub known_answer : Candidate → Option IndexRecord → Option RecordAnswer
known_answer c none = none
known_answer c (some prior) = some (
    if bytes_eq prior.content_hash c.record_.content_hash
    then queued_answer c.key c.record_.partition_id true
    else conflict_answer c.key prior.content_hash)

-- The loop over the candidates and what the index has: the results, and the new records in order.
unfoldable pub check_known :
    List Candidate → List (Option IndexRecord) → Results → Results × List Candidate
unfolding known_answer
check_known [] existing results = (results, [])
check_known (c ∷ candidates) [] results = (results, [])
check_known (c ∷ candidates) (known ∷ existing) results = elim (known_answer c known) [
  | some answer ↦ check_known candidates existing (set results c.slot (some answer))
  | none ↦ let rest = check_known candidates existing results in (rest.0, c ∷ rest.1)
]

abbrev pub submission_of : Candidate → Bytes × IndexRecord
submission_of c = (c.key, c.record_)

module _ {Cid : Type 0} (app : App Cid) where
  abbrev pub Submission : Type 0
  Submission = Bytes × app.json.Value

  -- The first loop, from position `i` on; `clock i` is `Utc::now()` at position `i`.
  unfoldable pub validate_all : (ℕ → Instant) → ℕ → List Submission → Results × List Candidate
  unfolding validate_one
  validate_all clock i [] = ([], [])
  validate_all clock i (r ∷ records) =
      let rest = validate_all clock (suc i) records in
      elim (validate_one app (clock i) r.0 r.1) [
        | ok valid ↦ (
          none ∷ rest.0,
          record { slot = i; key = r.0; value = valid.0; record_ = valid.1 } ∷ rest.1,
        )
        | err e ↦ (some (error_answer r.0 e) ∷ rest.0, rest.1)
      ]

  module _ {S : Type 0} (store : BlobStore S) where
    abbrev put_answer : Candidate → Result BlobStoreError Hash → Results → Results
    put_answer c (ok h) results = results
    put_answer c (err e) results =
        set results c.slot (some (error_answer c.key (internal (store_failed e))))

    abbrev put_kept : Candidate → Result BlobStoreError Hash → List Candidate → List Candidate
    put_kept c (ok h) prepared = c ∷ prepared
    put_kept c (err e) prepared = prepared

    -- The blobs of the new records; a record whose blob failed gets its answer here.
    unfoldable pub put_values : List Candidate → Results → S → (Results × List Candidate) × S
    put_values [] results s = ((results, []), s)
    put_values (c ∷ candidates) results s =
        let put = store.put c.value s in
        let rest = put_values candidates (put_answer c put.0 results) put.1 in
        ((rest.0.0, put_kept c put.0 rest.0.1), rest.1)

    unfoldable pub claim : Results → List Candidate → Exec ApiError (World app store) Results
    unfolding submit_many fill_outcomes
    claim results prepared = do
      outcomes ←
          on_index app store (submit_many app.redb app.record_json (map submission_of prepared))
      pure (fill_outcomes prepared outcomes results)

    unfoldable pub submit_candidates :
        Results → List Candidate → Exec ApiError (World app store) Results
    unfolding get_many check_known put_values claim
    submit_candidates results candidates = do
      existing ← asks (λ w.
          map_err (λ e. internal (index_failed e))
            (get_many app.redb app.record_json w.index (map (λ c. c.key) candidates)))
      put ← on_blobs app store (λ s.
          let checked = check_known candidates existing results in
          let ran = put_values checked.1 checked.0 s in (ok ran.0, ran.1))
      claim put.0 put.1

    unfoldable pub submit_batch :
        (ℕ → Instant) → List Submission → Exec ApiError (World app store) Results
    unfolding validate_all submit_candidates with_write_guard
    submit_batch clock records w =
        if ltb app.batch_max_records (length records)
        then (err (batch_too_large app.batch_max_records), w)
        else let validated = validate_all clock 0 records in
          with_write_guard app store (submit_candidates validated.0 validated.1) w
