-- ===== src/Similarity.antt =====
-- crates/registry-core/src/similarity.rs: banded search over 64-bit content codes. This file has the
-- operations; the children have what the bands find and what `verify` lets through.
--
-- A `u64` is a number below 2 ^ 64; a `BTreeMap` is an association list.
pub mod Bands
pub mod Best
pub mod Verify
use commonsdb_iroh_service.Prelude.{
  ℕ, zero, suc, ◌+◌, ◌*◌, ◌-◌, ◌/◌, ◌%◌, ◌^◌, Bool, true, false, ◌&&◌, ◌||◌, not, Option, none,
  some, List, [], ◌∷◌, ◌++◌, map, ltb, leb, ◌==◌, if◌then◌else◌,
}
use commonsdb_iroh_service.Prelude.Bytes.{Bytes, bytes_eq, bytes_le}
use commonsdb_iroh_service.Prelude.Words.{bit_xor, bit_or, count_ones, bit_length, range_from}
use commonsdb_iroh_service.Exec.{Result, ok, err}

abbrev pub content_code_bits : ℕ
content_code_bits = 64

pub data SimilarityError : Type 0 where
  invalid_band_count : ℕ → SimilarityError
  radius_too_large : (requested : ℕ) → (max : ℕ) → SimilarityError

unfoldable pub hamming : ℕ → ℕ → ℕ
unfolding bit_xor count_ones
hamming a b = count_ones 64 (bit_xor 64 a b)

pub record BandParams : Type 0 where
  pub num_bands : ℕ

-- `BandParams::new`; the remainder is taken of a band count that is not 0.
unfoldable pub new_params : ℕ → Result SimilarityError BandParams
new_params zero = err (invalid_band_count 0)
new_params (suc n) =
    if ltb content_code_bits (suc n) || not (content_code_bits % suc n == 0)
    then err (invalid_band_count (suc n))
    else ok record { num_bands = suc n }

unfoldable pub band_width : BandParams → ℕ
band_width params = content_code_bits / params.num_bands

-- `code & mask` for the mask of the low `width` bits is the remainder by `2 ^ width`.
unfoldable pub band_value : BandParams → ℕ → ℕ → ℕ
unfolding band_width
band_value params code band_index =
    let width = band_width params in
    let shift = content_code_bits - width * (band_index + 1) in (code / 2 ^ shift) % 2 ^ width

pub record BucketId : Type 0 where
  pub band_index : ℕ
  pub band_value : ℕ

unfoldable pub bucket_id : BandParams → ℕ → ℕ → BucketId
bucket_id params code i = record { band_index = i; band_value = band_value params code i }

unfoldable pub buckets : BandParams → ℕ → List BucketId
unfolding range_from bucket_id
buckets params code = map (bucket_id params code) (range_from 0 params.num_bands)

-- `bit_flip_masks`: one more bit above the highest of each mask.
unfoldable pub extend_mask : ℕ → ℕ → List ℕ
unfolding bit_length bit_or range_from
extend_mask width m =
    let highest = bit_length 64 m in
    map (λ bit. bit_or 64 m (2 ^ bit)) (range_from highest (width - highest))

unfoldable pub concat_map {ℓ} : {A B : Type ℓ} → (A → List B) → List A → List B
concat_map f [] = []
concat_map f (x ∷ xs) = f x ++ concat_map f xs

unfoldable pub grow_masks : ℕ → ℕ → List ℕ → List ℕ
unfolding extend_mask concat_map
grow_masks width zero current = []
grow_masks width (suc rounds) current =
    let next = concat_map (extend_mask width) current in next ++ grow_masks width rounds next

unfoldable pub bit_flip_masks : ℕ → ℕ → List ℕ
unfolding grow_masks
bit_flip_masks width radius =
    let radius = if leb radius width then radius else width in 0 ∷ grow_masks width radius (0 ∷ [])

unfoldable pub probes : BandParams → ℕ → ℕ → ℕ → List BucketId
unfolding bit_flip_masks bit_xor band_width
probes params code probe_radius i =
    map (λ flip. record { band_index = i; band_value = bit_xor 64 (band_value params code i) flip })
      (bit_flip_masks (band_width params) probe_radius)

unfoldable pub query_buckets : BandParams → ℕ → ℕ → List BucketId
unfolding buckets probes range_from concat_map
query_buckets params code zero = buckets params code
query_buckets params code (suc r) =
    concat_map (probes params code (suc r)) (range_from 0 params.num_bands)

-- `format!("iscc/{:02}/{:016x}", …)`, for a band index of two digits at most.
abbrev hex_digit : ℕ → ℕ
hex_digit d = if ltb d 10 then 48 + d else 87 + d

unfoldable pub hex_digits : ℕ → ℕ → Bytes
hex_digits zero n = []
hex_digits (suc k) n = hex_digits k (n / 16) ++ hex_digit (n % 16) ∷ []

unfoldable pub storage_key : BucketId → Bytes
unfolding hex_digits
storage_key id =
    105
    ∷ 115
    ∷ 99
    ∷ 99
    ∷ 47
    ∷ (48 + id.band_index / 10)
    ∷ (48 + id.band_index % 10)
    ∷ 47
    ∷ hex_digits 16 id.band_value

pub record IsccMember : Type 0 where
  pub key : Bytes
  pub content_code : ℕ

pub record SimilarityMatch : Type 0 where
  pub key : Bytes
  pub content_code : ℕ
  pub distance : ℕ

-- `best.entry(key).and_modify(min).or_insert(d)`
unfoldable pub keep_best : Bytes → ℕ → List (Bytes × ℕ) → List (Bytes × ℕ)
keep_best key d [] = (key, d) ∷ []
keep_best key d (row ∷ best) =
    if bytes_eq key row.0
    then (row.0, if ltb d row.1 then d else row.1) ∷ best
    else row ∷ keep_best key d best

unfoldable pub best_get : Bytes → List (Bytes × ℕ) → Option ℕ
best_get key [] = none
best_get key (row ∷ best) = if bytes_eq key row.0 then some row.1 else best_get key best

-- The first pass of `verify`.
unfoldable pub best_of : ℕ → ℕ → List IsccMember → List (Bytes × ℕ) → List (Bytes × ℕ)
unfolding keep_best
best_of query radius [] best = best
best_of query radius (m ∷ candidates) best =
    let d = hamming query m.content_code in
    best_of query radius candidates (if leb d radius then keep_best m.key d best else best)

abbrev cons_match : IsccMember → ℕ → Option ℕ → List SimilarityMatch → List SimilarityMatch
cons_match m d none rest = rest
cons_match m d (some b) rest =
    if d == b
    then record { key = m.key; content_code = m.content_code; distance = b } ∷ rest
    else rest

-- The second pass.
unfoldable pub matches_of : ℕ → List (Bytes × ℕ) → List IsccMember → List SimilarityMatch
unfolding best_get
matches_of query best [] = []
matches_of query best (m ∷ candidates) =
    cons_match m (hamming query m.content_code) (best_get m.key best)
      (matches_of query best candidates)

-- `a.distance.cmp(&b.distance).then_with(|| a.key.cmp(&b.key))` is not `Greater`.
unfoldable pub match_le : SimilarityMatch → SimilarityMatch → Bool
match_le a b = ltb a.distance b.distance || (a.distance == b.distance && bytes_le a.key b.key)

unfoldable pub insert_match : SimilarityMatch → List SimilarityMatch → List SimilarityMatch
unfolding match_le
insert_match a [] = a ∷ []
insert_match a (b ∷ bs) = if match_le a b then a ∷ b ∷ bs else b ∷ insert_match a bs

-- `sort_by`, a stable sort.
unfoldable pub sort_matches : List SimilarityMatch → List SimilarityMatch
unfolding insert_match
sort_matches [] = []
sort_matches (a ∷ bs) = insert_match a (sort_matches bs)

-- `dedup_by(|a, b| a.key == b.key)`: of neighbours with the same key the first stays.
unfoldable pub dedup_from : SimilarityMatch → List SimilarityMatch → List SimilarityMatch
dedup_from a [] = a ∷ []
dedup_from a (b ∷ bs) = if bytes_eq b.key a.key then dedup_from a bs else a ∷ dedup_from b bs

unfoldable pub dedup_by_key : List SimilarityMatch → List SimilarityMatch
unfolding dedup_from
dedup_by_key [] = []
dedup_by_key (a ∷ bs) = dedup_from a bs

unfoldable pub verify : ℕ → List IsccMember → ℕ → List SimilarityMatch
unfolding best_of matches_of sort_matches dedup_by_key
verify query candidates radius =
    dedup_by_key (sort_matches (matches_of query (best_of query radius candidates []) candidates))

-- `IsccIndex`: the buckets that have members.
pub record IsccIndex : Type 0 where
  pub params : BandParams
  pub buckets : List (BucketId × List IsccMember)

abbrev pub new_index : BandParams → IsccIndex
new_index params = record { params = params; buckets = [] }

unfoldable pub same_bucket : BucketId → BucketId → Bool
same_bucket a b = a.band_index == b.band_index && a.band_value == b.band_value

-- `if !list.iter().any(|m| m.key == member.key) { list.push(member) }`
unfoldable pub push_member : IsccMember → List IsccMember → List IsccMember
push_member m [] = m ∷ []
push_member m (n ∷ list) = if bytes_eq n.key m.key then n ∷ list else n ∷ push_member m list

unfoldable pub insert_bucket :
    BucketId → IsccMember → List (BucketId × List IsccMember) → List (BucketId × List IsccMember)
unfolding same_bucket push_member
insert_bucket id m [] = (id, m ∷ []) ∷ []
insert_bucket id m (row ∷ rows) =
    if same_bucket id row.0
    then (row.0, push_member m row.1) ∷ rows
    else row ∷ insert_bucket id m rows

unfoldable pub insert_buckets :
    List BucketId
    → IsccMember
    → List (BucketId × List IsccMember)
    → List (BucketId × List IsccMember)
unfolding insert_bucket
insert_buckets [] m rows = rows
insert_buckets (id ∷ ids) m rows = insert_buckets ids m (insert_bucket id m rows)

unfoldable pub insert : Bytes → ℕ → IsccIndex → IsccIndex
unfolding buckets insert_buckets
insert key code index = record {
  params = index.params;
  buckets =
      insert_buckets (buckets index.params code) record { key = key; content_code = code }
        index.buckets;
}

unfoldable pub bucket_of : BucketId → List (BucketId × List IsccMember) → Option (List IsccMember)
unfolding same_bucket
bucket_of id [] = none
bucket_of id (row ∷ rows) = if same_bucket id row.0 then some row.1 else bucket_of id rows

unfoldable pub members_of : List (BucketId × List IsccMember) → BucketId → List IsccMember
unfolding bucket_of
members_of rows id = elim (bucket_of id rows) [ none ↦ [] | some members ↦ members ]

unfoldable pub candidates : IsccIndex → ℕ → ℕ → List IsccMember
unfolding query_buckets members_of concat_map
candidates index query probe_radius =
    concat_map (members_of index.buckets) (query_buckets index.params query probe_radius)

unfoldable pub query : IsccIndex → ℕ → ℕ → ℕ → List SimilarityMatch
unfolding candidates verify
query index code radius probe_radius = verify code (candidates index code probe_radius) radius
