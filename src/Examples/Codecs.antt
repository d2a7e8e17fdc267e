-- ===== src/Examples/Codecs.antt =====
-- The bands of crates/registry-core/src/similarity.rs and the decoders of iscc.rs and cidkey.rs at
-- concrete inputs.
use commonsdb_iroh_service.Prelude.{
  ◌≤◌, List, ℕ, ◌+◌, ◌-◌, ◌<◌, ◌≡◌, refl, false, some, [], ◌∷◌, All, get_elem?, arith,
}
use mathlib.Core.Option
use commonsdb_iroh_service.Prelude.Bytes.{Bytes, bytes_eq}
use commonsdb_iroh_service.Prelude.Text.{upper, is_space}
use commonsdb_iroh_service.Prelude.Words.{bit_xor, count_ones}
use commonsdb_iroh_service.Exec.{ok}
use commonsdb_iroh_service.Similarity.Best.{Some}
use commonsdb_iroh_service.Similarity.Verify.{IsNear, verify-IsNear, verify_complete}
use commonsdb_iroh_service.Similarity.{
  IsccMember, SimilarityMatch, verify, best_of, keep_best, best_get, matches_of, sort_matches,
  insert_match, dedup_by_key, dedup_from, BandParams, BucketId, new_params, hamming, buckets,
}
use commonsdb_iroh_service.Similarity.Bands.{shared_bucket}
use commonsdb_iroh_service.CidKey.{base_x_decode_b32, position}
use commonsdb_iroh_service.CidKey.Value.{be_value, digits_value, base_x_decode_b32-value}
use commonsdb_iroh_service.Iscc.{Base32, decode_content_code, encode_content_code_unit}
use commonsdb_iroh_service.Iscc.Codec.{decode_content_code-encode}

abbrev eight_bands : BandParams
eight_bands = record { num_bands = 8 }

eight_bands_made : new_params 8 ≡ ok eight_bands
unfolding new_params
eight_bands_made = refl

three_bits : hamming 7 0 ≡ 3
unfolding hamming bit_xor count_ones
three_bits = refl

shared_bucket_example :
    (i : ℕ) × (i < 8)
    × (id : BucketId) × (get_elem? (buckets eight_bands 7) i ≡ some id)
    × (get_elem? (buckets eight_bands 0) i ≡ some id)
shared_bucket_example = shared_bucket 8 eight_bands 7 0 eight_bands_made (omega (arith, three_bits))

-- "bbqj" is 1, 1, 16 and 9 in base 32.
base_x_decode_b32-value_example :
    Option.map (be_value 0) (base_x_decode_b32 (98 ∷ 98 ∷ 113 ∷ 106 ∷ []))
    ≡ digits_value 0 (98 ∷ 98 ∷ 113 ∷ 106 ∷ [])
base_x_decode_b32-value_example = base_x_decode_b32-value (98 ∷ 98 ∷ 113 ∷ 106 ∷ [])

value_of_bbqj : digits_value 0 (98 ∷ 98 ∷ 113 ∷ 106 ∷ []) ≡ some 34313
unfolding digits_value position
value_of_bbqj = refl

-- Every byte is written with 200 added.
unfoldable pub raise : Bytes → Bytes
raise [] = []
raise (b ∷ bytes) = (b + 200) ∷ raise bytes

unfoldable pub lower : Bytes → Bytes
lower [] = []
lower (b ∷ bytes) = (b - 200) ∷ lower bytes

pub lower-raise : (bytes : Bytes) → lower (raise bytes) ≡ bytes
unfolding lower raise
lower-raise [] = refl
lower-raise (b ∷ bytes) = ground (arith, lower-raise bytes)

pub raise_visible : (bytes : Bytes) → All (λ b. is_space b ≡ false) (raise bytes)
unfolding raise is_space
raise_visible [] = tt
raise_visible (b ∷ bytes) = (ground arith, raise_visible bytes)

pub upper-raise : (bytes : Bytes) → upper (raise bytes) ≡ raise bytes
unfolding raise upper
upper-raise [] = refl
upper-raise (b ∷ bytes) = ground (arith, upper-raise bytes)

abbrev pub raised : Base32
raised = record {
  encode = raise;
  decode = λ bytes. ok (lower bytes);
  decode-encode = λ bytes i. ok (lower-raise bytes i);
  encode_visible = raise_visible;
  upper-encode = upper-raise;
}

decode_content_code-encode_example :
    decode_content_code raised (encode_content_code_unit raised 4660 3) ≡ ok 4660
decode_content_code-encode_example = decode_content_code-encode raised 4660 3 (omega arith)

-- Two members are near 0, one is not.
abbrev members : List IsccMember
members =
    record { key = 1 ∷ []; content_code = 3 }
    ∷ record { key = 2 ∷ []; content_code = 255 }
    ∷ record { key = 1 ∷ []; content_code = 1 }
    ∷ []

abbrev distances : List SimilarityMatch → List ℕ
distances [] = []
distances (x ∷ xs) = x.distance ∷ distances xs

distances_of_members : distances (verify 0 members 2) ≡ 1 ∷ []
unfolding verify best_of keep_best best_get matches_of sort_matches insert_match dedup_by_key
    dedup_from hamming bit_xor count_ones bytes_eq
distances_of_members = refl

verify-IsNear_example : All (IsNear 0 2 members) (verify 0 members 2)
verify-IsNear_example = verify-IsNear 0 2 members

two_bits : hamming 0 3 ≡ 2
unfolding hamming bit_xor count_ones
two_bits = refl

verify_complete_example :
    Some (λ x. (x.key ≡ 1 ∷ []) × (x.distance ≤ hamming 0 3)) (verify 0 members 2)
verify_complete_example =
    verify_complete 0 2 members 0 record { key = 1 ∷ []; content_code = 3 } refl
      (omega (arith, two_bits))
