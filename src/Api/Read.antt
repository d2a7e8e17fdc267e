-- ===== src/Api/Read.antt =====
-- The handlers of crates/registryd/src/api.rs that only read: one record, the health of the daemon, the
-- read ticket.
use commonsdb_iroh_service.Prelude.{ℕ, Option, none, some, ltb, if◌then◌else◌}
use commonsdb_iroh_service.Prelude.Bytes.{Bytes}
use commonsdb_iroh_service.Record.{Hash, Instant, RecordStatus}
use commonsdb_iroh_service.BlobStore.{BlobStore, BlobStoreError}
use commonsdb_iroh_service.RecordIndex.{IndexRecord, get, queue_depth, records_total}
use commonsdb_iroh_service.Exec.{Result, ok, err, map_err, and_then}
use commonsdb_iroh_service.Api.{ApiError, internal, index_failed, App, World}

-- `PublisherStatus` of crates/registryd/src/publisher.rs. `last_publish_unix` is 0 before the first cycle.
pub record PublisherStatus : Type 0 where
  pub last_publish_unix : ℕ
  pub cycles_completed : ℕ
  pub records_published : ℕ
  pub last_error : Option Bytes

module _ {Cid : Type 0} (app : App Cid) where
  pub record RecordBody : Type 0 where
    pub key : Bytes
    pub status : RecordStatus
    pub hash : Hash
    pub partition : ℕ
    pub size : ℕ
    pub created_at : Instant
    pub published_at : Option Instant
    pub value : Option app.json.Value

  pub data GetAnswer : Type 0 where
    not_found : Bytes → GetAnswer
    found : RecordBody → GetAnswer

  pub record Health : Type 0 where
    pub queue_depth : ℕ
    pub records_total : ℕ
    pub partitions : ℕ
    pub endpoint_id : Bytes
    pub last_publish_at : Option ℕ
    pub cycles_completed : ℕ
    pub records_published : ℕ
    pub last_publish_error : Option Bytes

  -- The value is left out when its blob is missing, cannot be read or is no JSON.
  unfoldable pub value_of_blob : Result BlobStoreError (Option Bytes) → Option app.json.Value
  value_of_blob (err e) = none
  value_of_blob (ok none) = none
  value_of_blob (ok (some bytes)) = elim (app.json.from_str bytes) [
    | ok value ↦ some value
    | err e ↦ none
  ]

  module _ {S : Type 0} (store : BlobStore S) where
    unfoldable pub record_body : Bytes → IndexRecord → S → RecordBody
    unfolding value_of_blob
    record_body key r s = record {
      key = key;
      status = r.status;
      hash = r.content_hash;
      partition = r.partition_id;
      size = r.size;
      created_at = r.created_at;
      published_at = r.published_at;
      value = value_of_blob (store.get s r.content_hash);
    }

    unfoldable pub get_record : World app store → Bytes → Result ApiError GetAnswer
    unfolding get record_body
    get_record w key =
        and_then
          (map_err (λ e. internal (index_failed e)) (get app.redb app.record_json w.index key))
          λ r. ok (elim r [ none ↦ not_found key | some r ↦ found (record_body key r w.blobs) ])

    -- The stand-in of 0 for a failed read of the counts is not reached: they do not fail here.
    unfoldable pub health : World app store → PublisherStatus → Health
    unfolding queue_depth records_total
    health w publisher_status = record {
      queue_depth = queue_depth app.redb app.record_json w.index;
      records_total = records_total app.redb app.record_json w.index;
      partitions = app.top_level_partitions;
      endpoint_id = app.endpoint_id;
      last_publish_at =
          if ltb 0 publisher_status.last_publish_unix
          then some publisher_status.last_publish_unix
          else none;
      cycles_completed = publisher_status.cycles_completed;
      records_published = publisher_status.records_published;
      last_publish_error = publisher_status.last_error;
    }

  unfoldable pub ticket : Bytes
  ticket = app.read_ticket
