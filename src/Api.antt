-- ===== src/Api.antt =====
-- crates/registryd/src/api.rs: the HTTP write API, one handler after the other, over the record index and
-- the blob store. The
-- batch is in the child Batch, the handlers that only read in Read.
--
-- The configuration of `AppState` is App, what the handlers change is State. A hash in an answer stands
-- for its text. The error of a blocking task that panicked is left out.
pub mod Batch
pub mod Read
pub mod Single
use commonsdb_iroh_service.Prelude.{
  ℕ, ◌+◌, ◌-◌, ◌*◌, ◌^◌, Bool, true, false, ◌||◌, not, Option, none, some, List, [], ◌∷◌, String,
  length, ltb, leb, if◌then◌else◌,
}
use commonsdb_iroh_service.Prelude.Bytes.{Bytes, bytes_eq}
use commonsdb_iroh_service.Record.{Hash, Instant, RecordStatus, pending}
use commonsdb_iroh_service.External.{Sha256, Blake3}
use commonsdb_iroh_service.Redb.{Redb}
use commonsdb_iroh_service.BlobStore.{BlobStore, BlobStoreError}
use commonsdb_iroh_service.CidKey.{CidParser, is_valid_record_key}
use commonsdb_iroh_service.Iscc.{Base32, strip_prefix}
use commonsdb_iroh_service.RecordIndex.{
  IndexRecord, IndexError, RecordJson, Database, SubmitOutcome, queued, duplicate_identical,
  conflict, submit, get, queue_depth, records_total,
}
use commonsdb_iroh_service.Values.{Kind, object, text, other, Json, is_object, record_of}
use commonsdb_iroh_service.Exec.{
  Result, ok, err, map_err, and_then, Exec, pure, raise, lift, asks, ◌>>=◌, ◌>>◌,
}

-- What the messages of two errors are made of; the text of an internal error stays in the log.
pub data ValueError : Type 0 where
  not_json : String → ValueError
  not_an_object : ValueError

pub data Failure : Type 0 where
  store_failed : BlobStoreError → Failure
  index_failed : IndexError → Failure

pub data ApiError : Type 0 where
  invalid_key : Bytes → ApiError
  invalid_value : ValueError → ApiError
  value_too_large : (limit : ℕ) → ApiError
  unauthorized : ApiError
  conflict_error : (existing_hash : Hash) → ApiError
  batch_too_large : (limit : ℕ) → ApiError
  internal : Failure → ApiError

-- `ApiError::code`
unfoldable pub code : ApiError → String
code (invalid_key key) = "invalid_key"
code (invalid_value e) = "invalid_value"
code (value_too_large limit) = "value_too_large"
code unauthorized = "unauthorized"
code (conflict_error existing_hash) = "conflict"
code (batch_too_large limit) = "batch_too_large"
code (internal e) = "internal_error"

-- `ApiError::status`
unfoldable pub status : ApiError → ℕ
status (invalid_key key) = 400
status (invalid_value e) = 400
status (value_too_large limit) = 413
status unauthorized = 401
status (conflict_error existing_hash) = 409
status (batch_too_large limit) = 400
status (internal e) = 500

-- `saturating_mul` and `saturating_add` of a 64-bit `usize`
unfoldable pub saturate : ℕ → ℕ
saturate n = if ltb n (2 ^ 64) then n else 2 ^ 64 - 1

unfoldable pub body_limit : ℕ → ℕ → ℕ
unfolding saturate
body_limit batch_max_records max_value_bytes =
    saturate (saturate (batch_max_records * max_value_bytes) + 1024 * 1024)

-- The parts of `AppState` that no handler changes, and the code that the handlers call.
pub record App (Cid : Type 0) : Type 1 where
  pub sha : Sha256
  pub blake : Blake3
  pub base32 : Base32
  pub parser : CidParser Cid
  pub json : Json
  pub redb : Redb
  pub record_json : RecordJson
  pub api_tokens : List Bytes
  pub read_ticket : Bytes
  pub endpoint_id : Bytes
  pub max_value_bytes : ℕ
  pub batch_max_records : ℕ
  pub top_level_partitions : ℕ

-- `active_writes` is the counter of crates/registryd/src/gc.rs that a write guard holds up.
pub record State (redb : Redb) (S : Type 0) : Type 0 where
  pub index : Database redb
  pub blobs : S
  pub active_writes : ℕ

-- `"Bearer "`
abbrev pub bearer : Bytes
bearer = 66 ∷ 101 ∷ 97 ∷ 114 ∷ 101 ∷ 114 ∷ 32 ∷ []

unfoldable pub has_token : List Bytes → Bytes → Bool
has_token [] t = false
has_token (token ∷ tokens) t = bytes_eq token t || has_token tokens t

abbrev token_of : Option Bytes → Option Bytes
token_of none = none
token_of (some header) = strip_prefix bearer header

-- Whether the value of the header `Authorization` lets a request through.
unfoldable pub is_authorized : List Bytes → Option Bytes → Bool
unfolding strip_prefix has_token
is_authorized tokens header = elim (token_of header) [ none ↦ false | some t ↦ has_token tokens t ]

unfoldable pub require_api_token :
    {W R : Type 0} → List Bytes → Option Bytes → Exec ApiError W R → Exec ApiError W R
unfolding is_authorized
require_api_token tokens header next w =
    if is_authorized tokens header then next w else (err unauthorized, w)

pub data RecordAnswer : Type 0 where
  queued_answer : (key : Bytes) → (partition : ℕ) → (duplicate : Bool) → RecordAnswer
  conflict_answer : (key : Bytes) → (existing_hash : Hash) → RecordAnswer
  error_answer : (key : Bytes) → ApiError → RecordAnswer

-- An answer with its status code.
abbrev pub Response : Type 0
Response = ℕ × RecordAnswer

module _ {Cid : Type 0} (app : App Cid) where
  abbrev pub require_object : Result String app.json.Value → Bytes → Result ApiError Bytes
  require_object (err e) raw = err (invalid_value (not_json e))
  require_object (ok parsed) raw =
      if is_object (app.json.kind parsed) then ok raw else err (invalid_value not_an_object)

  abbrev pub canonical_kind : app.json.Value → Kind → Result ApiError Bytes
  canonical_kind value (object fields) = ok (app.json.to_string value)
  canonical_kind value (text raw) = require_object (app.json.from_str raw) raw
  canonical_kind value other = err (invalid_value not_an_object)

  unfoldable pub canonical_value : app.json.Value → Result ApiError Bytes
  unfolding is_object
  canonical_value value = canonical_kind value (app.json.kind value)

  -- `now` is `Utc::now()`.
  unfoldable pub validate_one :
      Instant → Bytes → app.json.Value → Result ApiError (Bytes × IndexRecord)
  unfolding is_valid_record_key canonical_value record_of
  validate_one now key value =
      if not (is_valid_record_key app.parser key)
      then err (invalid_key key)
      else and_then (canonical_value value) λ value_str.
        if ltb app.max_value_bytes (length value_str)
        then err (value_too_large app.max_value_bytes)
        else ok (
          value_str,
          record_of app.json app.sha app.blake app.base32 app.top_level_partitions pending none now
              key value_str,
        )

  module _ {S : Type 0} (store : BlobStore S) where
    abbrev pub World : Type 0
    World = State app.redb S

    abbrev pub on_index :
        {A : Type 0} → Exec IndexError (Database app.redb) A → Exec ApiError World A
    on_index m w =
        let ran = m w.index in
        (
          map_err (λ e. internal (index_failed e)) ran.0,
          record { index = ran.1; blobs = w.blobs; active_writes = w.active_writes },
        )

    abbrev pub on_blobs : {A : Type 0} → Exec BlobStoreError S A → Exec ApiError World A
    on_blobs m w =
        let ran = m w.blobs in
        (
          map_err (λ e. internal (store_failed e)) ran.0,
          record { index = w.index; blobs = ran.1; active_writes = w.active_writes },
        )

    abbrev count_writes : ℕ → World → World
    count_writes n w = record { index = w.index; blobs = w.blobs; active_writes = n }

    -- `write_guard`: the counter is up while the body runs, and goes down again when the guard is
    -- dropped, whatever came out.
    unfoldable pub with_write_guard : {A : Type 0} → Exec ApiError World A → Exec ApiError World A
    with_write_guard m w =
        let ran = m (count_writes (w.active_writes + 1) w) in
        (ran.0, count_writes (ran.1.active_writes - 1) ran.1)

    unfoldable pub prepare_one :
        Instant → Bytes → app.json.Value → Exec ApiError World (Bytes × IndexRecord)
    unfolding validate_one
    prepare_one now key value = do
      valid ← lift (validate_one now key value)
      on_blobs (store.put valid.0)
      pure (key, valid.1)

    unfoldable pub ingest_one :
        Instant → Bytes → app.json.Value → Exec ApiError World (SubmitOutcome × ℕ)
    unfolding with_write_guard prepare_one submit
    ingest_one now key value = with_write_guard (do
      prepared ← prepare_one now key value
      outcome ← on_index (submit app.redb app.record_json prepared.0 prepared.1)
      pure (outcome, prepared.1.partition_id))

    -- `ACCEPTED` for a new record, `OK` for a duplicate.
    abbrev pub answer : Bytes → SubmitOutcome → ℕ → Result ApiError Response
    answer key queued partition = ok (202, queued_answer key partition false)
    answer key duplicate_identical partition = ok (200, queued_answer key partition true)
    answer key (conflict existing_hash) partition = err (conflict_error existing_hash)

    unfoldable pub submit_record : Instant → Bytes → app.json.Value → Exec ApiError World Response
    unfolding ingest_one
    submit_record now key value = do
      ingested ← ingest_one now key value
      lift (answer key ingested.0 ingested.1)

    -- `POST /v1/records` behind its middleware.
    unfoldable pub post_record :
        Option Bytes → Instant → Bytes → app.json.Value → Exec ApiError World Response
    unfolding require_api_token submit_record
    post_record header now key value =
        require_api_token app.api_tokens header (submit_record now key value)
