-- ===== src/Examples/Tables.antt =====
-- Concrete functions in the place of redb and of the JSON text of an index record
-- (crates/registryd/src/index.rs): a table is its rows, a record its numbers.
use commonsdb_iroh_service.Prelude.{ℕ, zero, suc, ◌≡◌, refl, Option, none, some, List, ◌∷◌, String}
use commonsdb_iroh_service.Prelude.Bytes.{Bytes}
use commonsdb_iroh_service.Record.{RecordStatus, pending, published, denylisted}
use commonsdb_iroh_service.Exec.{Result, ok, err}
use commonsdb_iroh_service.Redb.{Redb, get_row, insert_row, remove_row}
use commonsdb_iroh_service.RecordIndex.{IndexRecord, RecordJson}

abbrev pub rows : Redb
rows = record {
  Table = λ K V. List (K × V);
  iter = λ t. t;
  get = λ key t k. get_row key k t;
  insert = λ key t k v. insert_row key k v t;
  remove = λ key t k. remove_row key k t;
  get_lem = λ key t k. refl;
  iter-insert = λ key t k v. refl;
  iter-remove = λ key t k. refl;
}

abbrev number_status : RecordStatus → ℕ
number_status pending = 0
number_status published = 1
number_status denylisted = 2

abbrev status_of : ℕ → RecordStatus
status_of zero = pending
status_of (suc zero) = published
status_of (suc (suc n)) = denylisted

abbrev number_option : Option ℕ → ℕ
number_option none = 0
number_option (some c) = suc c

abbrev option_of : ℕ → Option ℕ
option_of zero = none
option_of (suc c) = some c

abbrev pub write_record_text : IndexRecord → Bytes
write_record_text r =
    r.size
    ∷ r.partition_id
    ∷ number_status r.status
    ∷ r.created_at
    ∷ number_option r.content_code
    ∷ number_option r.published_at
    ∷ r.content_hash

abbrev pub read_record_text : Bytes → Result String IndexRecord
read_record_text (size ∷ partition_id ∷ status ∷ created_at ∷ code ∷ published_at ∷ hash) =
    ok record {
      content_hash = hash;
      size = size;
      partition_id = partition_id;
      status = status_of status;
      created_at = created_at;
      content_code = option_of code;
      published_at = option_of published_at;
    }
read_record_text _ = err "too short"

status_of_number : (s : RecordStatus) → status_of (number_status s) ≡ s
status_of_number pending = refl
status_of_number published = refl
status_of_number denylisted = refl

option_of_number : (o : Option ℕ) → option_of (number_option o) ≡ o
option_of_number none = refl
option_of_number (some c) = refl

pub read_record_text-write : (r : IndexRecord) → read_record_text (write_record_text r) ≡ ok r
read_record_text-write r =
    rw (status_of_number r.status, option_of_number r.content_code, option_of_number r.published_at)
      refl

abbrev pub numbers_json : RecordJson
numbers_json = record {
  to_vec = write_record_text;
  from_slice = read_record_text;
  from_slice-to_vec = read_record_text-write;
}
