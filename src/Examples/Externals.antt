-- ===== src/Examples/Externals.antt =====
-- Concrete functions in the place of the code that the crates call: a digest by sums, and a record
-- text of shifted numbers. They stand for crates/registry-core's use of sha2, blake3 and serde_json.
use commonsdb_iroh_service.Prelude.{
  ℕ, zero, suc, ◌+◌, ◌-◌, ◌*◌, ◌%◌, ◌<◌, ◌≡◌, ◌≢◌, refl, ap, ◌∙◌, Option, none, some, List, [], ◌∷◌,
  ◌++◌, String, length, replicate, take, drop, take-append, drop-append, All, arith,
}
use commonsdb_iroh_service.Prelude.Bytes.{Bytes}
use commonsdb_iroh_service.Record.{Hash, LeafEntry}
use commonsdb_iroh_service.External.{Sha256, Blake3, EntryJson}
use commonsdb_iroh_service.Exec.{Result, ok, err}

unfoldable pub sum : Bytes → ℕ
sum [] = 0
sum (b ∷ bs) = b + sum bs

-- Byte 0 is 0; byte 1, the first descent byte, is the sum of the key.
unfoldable pub sum_digest : Bytes → Bytes
unfolding sum replicate
sum_digest key = 0 ∷ (sum key % 256) ∷ replicate 30 7

pub length-sum_digest : (key : Bytes) → length (sum_digest key) ≡ 32
unfolding sum_digest
length-sum_digest key = refl

pub sum_digest_bytes : (key : Bytes) → All (λ b. b < 256) (sum_digest key)
unfolding sum_digest
sum_digest_bytes key = omega arith

unfoldable pub sum_sha : Sha256
unfolding sum_digest
sum_sha = record {
  digest = sum_digest;
  length-digest = length-sum_digest;
  digest_bytes = sum_digest_bytes;
}

unfoldable pub weigh : Bytes → ℕ
weigh [] = 1
weigh (b ∷ bs) = b + 3 * weigh bs

unfoldable pub weigh_hash : Bytes → Hash
unfolding weigh replicate
weigh_hash bytes = suc (weigh bytes) ∷ replicate 31 7

pub length-weigh_hash : (bytes : Bytes) → length (weigh_hash bytes) ≡ 32
unfolding weigh_hash
length-weigh_hash bytes = refl

unfoldable pub weigh_blake : Blake3
unfolding weigh_hash
weigh_blake = record { hash = weigh_hash; length-hash = length-weigh_hash }

-- Every number is written with 11 added, so no line holds a newline.
unfoldable pub shift : List ℕ → Bytes
shift [] = []
shift (n ∷ ns) = (n + 11) ∷ shift ns

unfoldable pub unshift : Bytes → List ℕ
unshift [] = []
unshift (b ∷ bs) = (b - 11) ∷ unshift bs

unshift-shift : (ns : List ℕ) → unshift (shift ns) ≡ ns
unfolding shift unshift
unshift-shift [] = refl
unshift-shift (n ∷ ns) = ground (arith, unshift-shift ns)

shift_one_line : (ns : List ℕ) → All (λ b. b ≢ 10) (shift ns)
unfolding shift
shift_one_line [] = tt
shift_one_line (n ∷ ns) = (omega arith, shift_one_line ns)

abbrev code_number : Option ℕ → ℕ
code_number none = 0
code_number (some c) = suc c

abbrev number_code : ℕ → Option ℕ
number_code zero = none
number_code (suc c) = some c

unfoldable pub numbers : LeafEntry → List ℕ
numbers e = e.size ∷ e.added_at ∷ code_number e.content_code ∷ length e.key ∷ (e.key ++ e.hash)

unfoldable pub entry_of : List ℕ → Result String LeafEntry
entry_of (size ∷ added_at ∷ code ∷ width ∷ rest) = ok (record {
  key = take width rest;
  hash = drop width rest;
  size = size;
  added_at = added_at;
  content_code = number_code code;
})
entry_of _ = err "too short"

number_code_lem : (o : Option ℕ) → number_code (code_number o) ≡ o
number_code_lem none = refl
number_code_lem (some c) = refl

entry_of-numbers : (e : LeafEntry) → entry_of (numbers e) ≡ ok e
unfolding entry_of numbers
entry_of-numbers e = rw (
  take-append e.key e.hash (length e.key) refl,
  drop-append e.key e.hash (length e.key) refl,
  number_code_lem e.content_code,
)

unfoldable pub write_entry : LeafEntry → Bytes
unfolding shift numbers
write_entry e = shift (numbers e)

unfoldable pub read_entry : Bytes → Result String LeafEntry
unfolding unshift entry_of
read_entry bytes = entry_of (unshift bytes)

pub read-write : (e : LeafEntry) → read_entry (write_entry e) ≡ ok e
unfolding read_entry write_entry
read-write e = ap entry_of (unshift-shift (numbers e)) ∙ entry_of-numbers e

pub write_entry-ne-nil : (e : LeafEntry) → write_entry e ≢ []
unfolding write_entry
write_entry-ne-nil e h = cc

pub write_entry_one_line : (e : LeafEntry) → All (λ b. b ≢ 10) (write_entry e)
unfolding write_entry
write_entry_one_line e = shift_one_line (numbers e)

unfoldable pub shift_json : EntryJson
unfolding write_entry read_entry
shift_json = record {
  to_json = write_entry;
  from_json = read_entry;
  from_json-to_json = read-write;
  to_json-ne-nil = write_entry-ne-nil;
  to_json_one_line = write_entry_one_line;
}
