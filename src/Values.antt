-- ===== src/Values.antt =====
-- What the daemon makes of a submitted value (crates/registryd/src/api.rs, bulk_load.rs and
-- `declaration_timestamp` of index.rs): its canonical bytes, and the index record that they claim.
--
-- `serde_json` and the clock of `chrono` are the interface Json. A JSON number that is an `i64` is a
-- `Millis`, which only `from_timestamp_millis` takes.
use commonsdb_iroh_service.Prelude.{
  ℕ, Bool, true, false, Option, none, some, List, [], ◌∷◌, String, length,
}
use commonsdb_iroh_service.Prelude.Bytes.{Bytes}
use commonsdb_iroh_service.Record.{Instant, RecordStatus}
use commonsdb_iroh_service.External.{Sha256, Blake3}
use commonsdb_iroh_service.Partition.{partition_id_for_key}
use commonsdb_iroh_service.Iscc.{Base32, extract_from_json}
use commonsdb_iroh_service.RecordIndex.{IndexRecord}
use commonsdb_iroh_service.Exec.{Result, ok, err}

-- `serde_json::Value`, as far as the code looks into one. The fields of an object are its key and value
-- pairs, where a value that is no text is `none`.
pub data Kind : Type 0 where
  object : List (Bytes × Option Bytes) → Kind
  text : Bytes → Kind
  other : Kind

pub record Json : Type 1 where
  pub Value : Type 0
  pub Millis : Type 0
  pub kind : Value → Kind
  pub to_string : Value → Bytes
  pub from_str : Bytes → Result String Value
  pub get_i64 : Value → Bytes → Option Millis
  pub from_timestamp_millis : Millis → Option Instant

-- `Value::is_object`
unfoldable pub is_object : Kind → Bool
is_object (object fields) = true
is_object (text raw) = false
is_object other = false

-- `"timestamp"`
abbrev pub timestamp_field : Bytes
timestamp_field = 116 ∷ 105 ∷ 109 ∷ 101 ∷ 115 ∷ 116 ∷ 97 ∷ 109 ∷ 112 ∷ []

unfoldable pub instant_or : Option Instant → Instant → Instant
instant_or none now = now
instant_or (some t) now = t

module _ (json : Json) where
  abbrev parsed_timestamp : Result String json.Value → Option Instant
  parsed_timestamp (err e) = none
  parsed_timestamp (ok value) = elim (json.get_i64 value timestamp_field) [
    | none ↦ none
    | some millis ↦ json.from_timestamp_millis millis
  ]

  unfoldable pub declaration_timestamp : Bytes → Option Instant
  declaration_timestamp value_str = parsed_timestamp (json.from_str value_str)

  abbrev object_fields : Kind → Option (List (Bytes × Option Bytes))
  object_fields (object fields) = some fields
  object_fields (text raw) = none
  object_fields other = none

  abbrev pub fields_of : Result String json.Value → Option (List (Bytes × Option Bytes))
  fields_of (err e) = none
  fields_of (ok value) = object_fields (json.kind value)

  -- `IndexRecord { … }` of a canonical value, the same in `validate_one` and in `ingest`.
  unfoldable pub record_of :
      Sha256
      → Blake3
      → Base32
      → ℕ
      → RecordStatus
      → Option Instant
      → Instant
      → Bytes
      → Bytes
      → IndexRecord
  unfolding partition_id_for_key declaration_timestamp instant_or extract_from_json
  record_of sha blake base32 top_level_partitions status published_at now key value_str = record {
    content_hash = blake.hash value_str;
    size = length value_str;
    partition_id = partition_id_for_key sha key top_level_partitions;
    status = status;
    created_at = instant_or (declaration_timestamp value_str) now;
    content_code = extract_from_json base32 (fields_of (json.from_str value_str));
    published_at = published_at;
  }
