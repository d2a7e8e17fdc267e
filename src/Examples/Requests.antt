-- ===== src/Examples/Requests.antt =====
-- Requests to the API of crates/registryd/src/api.rs on the index of two records.
use commonsdb_iroh_service.Prelude.{
  ℕ, ◌+◌, ◌≡◌, refl, inl, true, false, Option, none, some, List, [], ◌∷◌, length, get_elem?, arith,
  String, ◌==◌, if◌then◌else◌,
}
use commonsdb_iroh_service.Prelude.Bytes.{Bytes, bytes_eq}
use commonsdb_iroh_service.Record.{pending}
use commonsdb_iroh_service.BlobStore.{BlobStore, StoreLaws}
use commonsdb_iroh_service.BlobStore.Memory.{MemoryBlobStore, memory_store, memory_laws}
use commonsdb_iroh_service.CidKey.{CidParser, validate_cidv1, is_valid_cidv1, is_valid_record_key}
use commonsdb_iroh_service.Iscc.{strip_prefix}
use commonsdb_iroh_service.RecordIndex.{IndexRecord}
use commonsdb_iroh_service.Exec.{Result, ok, err}
use commonsdb_iroh_service.Values.{Kind, object, other, Json, is_object, record_of}
use commonsdb_iroh_service.Api.{
  ApiError, App, has_token, is_authorized, canonical_value, validate_one, World, post_record,
}
use commonsdb_iroh_service.Api.Single.{
  IsClientError, post_record-IsClientError, Accepted, post_record-Accepted,
}
use commonsdb_iroh_service.Api.Batch.{Results, submit_batch}
use commonsdb_iroh_service.Api.Batch.Progress.{IsAnswered}
use commonsdb_iroh_service.Api.Batch.Answers.{submit_batch-IsAnswered}
use commonsdb_iroh_service.Examples.Externals.{sum_sha, weigh_blake}
use commonsdb_iroh_service.Examples.Codecs.{raised}
use commonsdb_iroh_service.Examples.Tables.{rows, numbers_json}
use commonsdb_iroh_service.Examples.Index.{
  two_records, held, two_records-Reads, next_of_two, fig, plum,
}

-- Every key is a CID of version 1.
abbrev any_cid : CidParser (Unit {0})
any_cid = record { from_str = λ s. ok tt; version = λ cid. 1 }

-- A text that opens with a brace is an object without fields.
abbrev braces : Bytes → Result String Kind
braces [] = err "no object"
braces (b ∷ bytes) = if b == 123 then ok (object []) else err "no object"

abbrev brace_json : Json
brace_json = record {
  Value = Kind;
  Millis = ℕ;
  kind = λ k. k;
  to_string = λ k. 123 ∷ 125 ∷ [];
  from_str = braces;
  get_i64 = λ k field. none;
  from_timestamp_millis = some;
}

abbrev app : App (Unit {0})
app = record {
  sha = sum_sha;
  blake = weigh_blake;
  base32 = raised;
  parser = any_cid;
  json = brace_json;
  redb = rows;
  record_json = numbers_json;
  api_tokens = (7 ∷ []) ∷ [];
  read_ticket = 1 ∷ [];
  endpoint_id = 2 ∷ [];
  max_value_bytes = 10;
  batch_max_records = 3;
  top_level_partitions = 4;
}

abbrev store : BlobStore MemoryBlobStore
store = memory_store weigh_blake

abbrev laws : StoreLaws store
laws = memory_laws weigh_blake

abbrev world : World app store
world = record { index = two_records; blobs = []; active_writes = 0 }

-- `"Bearer "` and the token.
abbrev header : Option Bytes
header = some (66 ∷ 101 ∷ 97 ∷ 114 ∷ 101 ∷ 114 ∷ 32 ∷ 7 ∷ [])

allowed : is_authorized app.api_tokens header ≡ true
unfolding is_authorized has_token strip_prefix bytes_eq
allowed = refl

denied : is_authorized app.api_tokens none ≡ false
unfolding is_authorized
denied = refl

post_record-IsClientError_example :
    (e : ApiError) × (post_record app store none 5 plum (object []) world ≡ (err e, world))
    × IsClientError e
post_record-IsClientError_example =
    post_record-IsClientError app store none 5 plum (object []) world (inl denied)

abbrev value_text : Bytes
value_text = 123 ∷ 125 ∷ []

abbrev plum_record : IndexRecord
plum_record = record_of brace_json sum_sha weigh_blake raised 4 pending none 5 plum value_text

valid : validate_one app 5 plum (object []) ≡ ok (value_text, plum_record)
unfolding validate_one is_valid_record_key is_valid_cidv1 validate_cidv1 canonical_value is_object
valid = refl

post_record-Accepted_example :
    Accepted app store held plum value_text plum_record header 5 (object []) world
unfolding memory_laws
post_record-Accepted_example =
    post_record-Accepted app store laws held header 5 plum (object []) value_text plum_record world
      (λ b. refl) allowed valid two_records-Reads (omega (arith, next_of_two))
      (omega (arith, next_of_two), tt)

-- A new record, one whose value is no object, and one that the index has.
abbrev batch : List (Bytes × Kind)
batch = (plum, object []) ∷ (plum, other) ∷ (fig, object []) ∷ []

submit_batch-IsAnswered_example :
    (results : Results) × (w' : World app store) × (submit_batch app store (λ i. 5 + i) batch world
      ≡ (ok results, w'))
    × (length results ≡ 3)
    × ((i : ℕ) (key : Bytes)
        → get_elem? (plum ∷ plum ∷ fig ∷ []) i ≡ some key
        → IsAnswered results i key)
submit_batch-IsAnswered_example =
    submit_batch-IsAnswered app store (λ i. 5 + i) batch held world two_records-Reads (omega arith)
