-- ===== src/Api/Single.antt =====
-- A submission of one record through crates/registryd/src/api.rs: what a refused request leaves, and what
-- an accepted one stores.
use commonsdb_iroh_service.Prelude.{
  ◌+◌, ◌-◌, ◌≤◌, ◌<◌, ◌^◌, ◌≡◌, ◌≢◌, refl, ap, sym, ◌∙◌, ◌⊎◌, inl, inr, Bool-cases, Option, none,
  some, or_else, List, [], ◌∷◌, String, length, get_elem?, All, ltb, true, false, arith,
}
use commonsdb_iroh_service.Prelude.Bytes.{Bytes}
use commonsdb_iroh_service.Record.{Instant, pending}
use commonsdb_iroh_service.Redb.{Redb}
use commonsdb_iroh_service.BlobStore.{BlobStore, StoreLaws}
use commonsdb_iroh_service.CidKey.{is_valid_record_key}
use commonsdb_iroh_service.RecordIndex.{
  IndexRecord, RecordJson, SubmitOutcome, submit, last_outcome, Database, get, next_seq,
}
use commonsdb_iroh_service.RecordIndex.Records.{Records, Reads, first}
use commonsdb_iroh_service.RecordIndex.Submit.{OutcomeFor, Submitted, submit_many-Submitted}
use commonsdb_iroh_service.Values.{Kind, object, text, other, record_of, is_object}
use commonsdb_iroh_service.Exec.{Result, ok, err, Result-cases}
use commonsdb_iroh_service.Api.{
  App, ApiError, Response, queued_answer, conflict_error, invalid_key, invalid_value,
  value_too_large, unauthorized, status, is_authorized, require_object, canonical_kind,
  canonical_value, validate_one, ValueError, not_json, not_an_object, prepare_one, ingest_one,
  answer, submit_record, post_record, with_write_guard, require_api_token, World,
}

module _ (redb : Redb) (record_json : RecordJson) where
  one_outcome :
      (outcomes : List SubmitOutcome) (o : SubmitOutcome)
      → get_elem? outcomes 0 ≡ some o
      → get_elem? outcomes 1 ≡ none
      → last_outcome redb record_json outcomes ≡ ok o
  unfolding last_outcome
  one_outcome [] o h k = cc
  one_outcome (x ∷ []) o h k = cc
  one_outcome (x ∷ y ∷ outcomes) o h k = cc

or_else_nothing : (o : Option IndexRecord) → or_else o none ≡ o
unfolding or_else
or_else_nothing none = refl
or_else_nothing (some r) = refl

-- The status says that the request was at fault.
abbrev pub IsClientError : ApiError → Type 0
IsClientError e = (400 ≤ status e) × (status e < 500)

module _ {Cid : Type 0} (app : App Cid) where
  invalid_value-IsClientError : (d : ValueError) → IsClientError (invalid_value d)
  unfolding status
  invalid_value-IsClientError d = (omega arith, omega arith)

  require_object-IsClientError :
      (parsed : Result String app.json.Value) (raw : Bytes) (e : ApiError)
      → require_object app parsed raw ≡ err e
      → IsClientError e
  require_object-IsClientError (err d) raw e h =
      let same : invalid_value (not_json d) ≡ e = cc in
      rw (← same) (invalid_value-IsClientError (not_json d))
  require_object-IsClientError (ok v) raw e h = elim (Bool-cases (is_object (app.json.kind v))) [
    | inl yes' ↦ absurd (let made = (rw yes' at h) in cc)
    | inr no' ↦
        let failed : err (invalid_value not_an_object) ≡ err e = (rw no' at h) in
        let same : invalid_value not_an_object ≡ e = cc in
        rw (← same) (invalid_value-IsClientError not_an_object)
  ]

  canonical_kind-IsClientError :
      (value : app.json.Value) (k : Kind) (e : ApiError)
      → canonical_kind app value k ≡ err e
      → IsClientError e
  canonical_kind-IsClientError value (object fields) e h = cc
  canonical_kind-IsClientError value (text raw) e h =
      require_object-IsClientError (app.json.from_str raw) raw e h
  canonical_kind-IsClientError value other e h =
      let same : invalid_value not_an_object ≡ e = cc in
      rw (← same) (invalid_value-IsClientError not_an_object)

  canonical_value-IsClientError :
      (value : app.json.Value) (e : ApiError) → canonical_value app value ≡ err e → IsClientError e
  unfolding canonical_value
  canonical_value-IsClientError value e h =
      canonical_kind-IsClientError value (app.json.kind value) e h

  validate_one-IsClientError :
      (now : Instant) (key : Bytes) (value : app.json.Value) (e : ApiError)
      → validate_one app now key value ≡ err e
      → IsClientError e
  unfolding validate_one status
  validate_one-IsClientError now key value e h =
      elim (Bool-cases (is_valid_record_key app.parser key)) [
        | inr bad ↦
            let failed : err (invalid_key key) ≡ err e = (rw (validate_one, bad) at h) in
            let same : invalid_key key ≡ e = cc in rw (← same) (omega arith, omega arith)
        | inl good ↦ elim (Result-cases (canonical_value app value)) [
          | inr (e', bad) ↦
              let failed : err e' ≡ err e = (rw (validate_one, good, bad) at h) in
              let same : e' ≡ e = cc in rw (← same) (canonical_value-IsClientError value e' bad)
          | inl (v, fine) ↦ elim (Bool-cases (ltb app.max_value_bytes (length v))) [
            | inl long ↦
                let failed : err (value_too_large app.max_value_bytes) ≡ err e =
                  (rw (validate_one, good, fine, long) at h) in
                let same : value_too_large app.max_value_bytes ≡ e = cc in
                rw (← same) (omega arith, omega arith)
            | inr short ↦ absurd (let made = (rw (validate_one, good, fine, short) at h) in cc)
          ]
        ]
      ]

  -- The record that a valid submission claims has the hash of its value.
  validate_one-hash :
      (now : Instant) (key : Bytes) (value : app.json.Value) (v : Bytes) (r : IndexRecord)
      → validate_one app now key value ≡ ok (v, r)
      → r.content_hash ≡ app.blake.hash v
  unfolding validate_one record_of
  validate_one-hash now key value v r h = elim (Bool-cases (is_valid_record_key app.parser key)) [
    | inr bad ↦ absurd (let failed = (rw (validate_one, bad) at h) in cc)
    | inl good ↦ elim (Result-cases (canonical_value app value)) [
      | inr (e', bad) ↦ absurd (let failed = (rw (validate_one, good, bad) at h) in cc)
      | inl (v', fine) ↦ elim (Bool-cases (ltb app.max_value_bytes (length v'))) [
        | inl long ↦ absurd (let failed = (rw (validate_one, good, fine, long) at h) in cc)
        | inr short ↦
            let made = (rw (validate_one, good, fine, short) at h) in
            let claimed =
              record_of app.json app.sha app.blake app.base32 app.top_level_partitions pending none
                now key v' in
            let pair : (v', claimed) ≡ (v, r) = cc in
            sym (ap (λ (p : Bytes × IndexRecord). p.1.content_hash) pair)
            ∙ ap (λ (p : Bytes × IndexRecord). app.blake.hash p.0) pair
      ]
    ]
  ]

  module _ {S : Type 0} (store : BlobStore S) where
    -- A request without a known token, and one whose key or value is not valid, is answered with an error
    -- of the client and changes nothing: no blob, no row, and the counter of active writes is back.
    pub post_record-IsClientError :
        (header : Option Bytes) (now : Instant) (key : Bytes) (value : app.json.Value)
        (w : World app store)
        → (is_authorized app.api_tokens header ≡ false)
          ⊎ ((e : ApiError) × (validate_one app now key value ≡ err e))
        → (e : ApiError) × (post_record app store header now key value w ≡ (err e, w))
          × IsClientError e
    unfolding post_record require_api_token submit_record ingest_one with_write_guard prepare_one
        status
    post_record-IsClientError header now key value w refused =
        elim (Bool-cases (is_authorized app.api_tokens header)) [
          | inr denied ↦ (unauthorized, rw denied refl, (omega arith, omega arith))
          | inl allowed ↦ elim refused [
            | inl denied ↦ absurd (cc)
            | inr (e, bad) ↦ (
              e,
              (let back : w.active_writes + 1 - 1 ≡ w.active_writes = omega arith in
                  rw (allowed, bad, back) refl),
              validate_one-IsClientError now key value e bad,
            )
          ]
        ]

    -- What the client hears of a valid record whose key has this record, or none.
    abbrev pub AnswerFor :
        Option IndexRecord → Bytes → IndexRecord → Result ApiError Response → Type 0
    AnswerFor none key r a = a ≡ ok (202, queued_answer key r.partition_id false)
    AnswerFor (some old) key r a =
        ((old.content_hash ≡ r.content_hash)
          × (a ≡ ok (200, queued_answer key r.partition_id true)))
        ⊎ ((old.content_hash ≢ r.content_hash)
            × (e : ApiError) × (a ≡ err e)
            × (e ≡ conflict_error old.content_hash)
            × (status e ≡ 409))

    answer-AnswerFor :
        (known : Option IndexRecord) (key : Bytes) (r : IndexRecord) (o : SubmitOutcome)
        → OutcomeFor known r o
        → AnswerFor known key r (answer app store key o r.partition_id)
    unfolding status
    answer-AnswerFor none key r o e = rw e refl
    answer-AnswerFor (some old) key r o (inl (same, e)) = inl (same, rw e refl)
    answer-AnswerFor (some old) key r o (inr (differ, e)) =
        inr (differ, conflict_error old.content_hash, rw e refl, refl, refl)

    -- What the index answers afterwards, and what the client hears: `A` is what the index had.
    pub record Accepted (A : Records) (key : Bytes) (v : Bytes) (r : IndexRecord)
        (header : Option Bytes) (now : Instant) (value : app.json.Value) (w : World app store)
        : Type 0 where
      pub response : Result ApiError Response
      pub after : World app store
      pub runs : post_record app store header now key value w ≡ (response, after)
      pub answers : AnswerFor (A key) key r response
      pub blob : store.get after.blobs r.content_hash ≡ ok (some v)
      pub gets :
          (k : Bytes)
          → get app.redb app.record_json after.index k
            ≡ ok (or_else (A k) (first k ((key, r) ∷ [])))
      pub writes_over : after.active_writes ≡ w.active_writes

    submit_once :
        (A : Records) (key : Bytes) (r : IndexRecord) (db : Database app.redb)
        → (sub : Submitted app.redb app.record_json A ((key, r) ∷ []) db)
        → (o : SubmitOutcome) × (submit app.redb app.record_json key r db ≡ (ok o, sub.db'))
          × OutcomeFor (A key) r o
    unfolding submit first
    submit_once A key r db sub =
        let (o, at_first, meant) = sub.positions 0 (key, r) refl in
        (
          o,
          rw
              (
                sub.runs,
                one_outcome app.redb app.record_json sub.outcomes o at_first (sub.no_more 1 refl),
              )
              refl,
          rw (← or_else_nothing (A key)) meant,
        )

    -- On an index whose rows read back, whose queue numbers are below the next one and whose counter has
    -- room, a request with a known token and a valid record is answered by what its key had: 202 and queued
    -- where it had nothing, 200 and queued as a duplicate where it had a record of the same content hash, else
    -- a conflict, 409, with the hash that stays. Afterwards the index answers every key as
    -- before, the record's key with the record where it had none; and in each case the value can be read
    -- under the record's content hash, where the store's addresses are BLAKE3 hashes.
    pub post_record-Accepted :
        (laws : StoreLaws store) (A : Records) (header : Option Bytes) (now : Instant) (key : Bytes)
        (value : app.json.Value) (v : Bytes) (r : IndexRecord) (w : World app store)
        → ((b : Bytes) → laws.address b ≡ app.blake.hash b)
        → is_authorized app.api_tokens header ≡ true
        → validate_one app now key value ≡ ok (v, r)
        → Reads app.redb app.record_json w.index.records A
        → next_seq app.redb w.index + 1 < 2 ^ 64
        → All (λ row. row.0 < next_seq app.redb w.index) (app.redb.iter w.index.queue)
        → Accepted A key v r header now value w
    unfolding post_record require_api_token submit_record ingest_one with_write_guard prepare_one
    post_record-Accepted laws A header now key value v r w agree allowed valid reads room below =
        let sub =
          submit_many-Submitted app.redb app.record_json ((key, r) ∷ []) A w.index reads room
            below in
        let (o, claimed, meant) = submit_once A key r w.index sub in
        let back : w.active_writes + 1 - 1 ≡ w.active_writes = omega arith in
        let hash : laws.address v ≡ r.content_hash =
          agree v ∙ sym (validate_one-hash now key value v r valid) in
        record {
          response = answer app store key o r.partition_id;
          after = record {
            index = sub.db';
            blobs = laws.stored v w.blobs;
            active_writes = w.active_writes + 1 - 1;
          };
          runs = rw (allowed, valid, laws.put_lem v w.blobs, claimed) refl;
          answers = answer-AnswerFor (A key) key r o meant;
          blob = rw (← hash) (laws.get-stored v w.blobs);
          gets = sub.gets;
          writes_over = back;
        }
