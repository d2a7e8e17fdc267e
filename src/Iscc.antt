-- ===== src/Iscc.antt =====
-- crates/registry-core/src/iscc.rs: the content code in the text of an ISCC. The crate `data_encoding`
-- is an argument; `trim` is that of ASCII. The fields of the value's JSON come as a list.
pub mod Codec
use commonsdb_iroh_service.Prelude.{
  ℕ, zero, suc, ◌+◌, ◌*◌, ◌/◌, ◌%◌, ◌≡◌, ◌≢◌, Bool, true, false, Option, none, some, or_else, List,
  [], ◌∷◌, ◌++◌, String, All, length, take, drop, leb, ltb, ◌==◌, if◌then◌else◌,
}
use commonsdb_iroh_service.Prelude.Bytes.{Bytes, bytes_eq}
use commonsdb_iroh_service.Prelude.Text.{trim_start, trim_end, upper, is_space}
use commonsdb_iroh_service.Exec.{Result, ok, err, map_err, and_then}

abbrev pub maintype_content : ℕ
maintype_content = 2

abbrev pub maintype_iscc : ℕ
maintype_iscc = 5

pub data IsccError : Type 0 where
  empty : IsccError
  base32 : String → IsccError
  too_short : IsccError
  unsupported_main_type : ℕ → IsccError
  unexpected_body_length : ℕ → IsccError

-- `BASE32_NOPAD`: what it writes is of `A-Z2-7` and reads back.
pub record Base32 : Type 0 where
  pub encode : Bytes → Bytes
  pub decode : Bytes → Result String Bytes
  pub decode-encode : (bytes : Bytes) → decode (encode bytes) ≡ ok bytes
  pub encode_visible : (bytes : Bytes) → All (λ b. is_space b ≡ false) (encode bytes)
  pub upper-encode : (bytes : Bytes) → upper (encode bytes) ≡ encode bytes

-- `u64::from_be_bytes` and `to_be_bytes`.
unfoldable pub from_be_bytes : ℕ → Bytes → ℕ
from_be_bytes high [] = high
from_be_bytes high (b ∷ bytes) = from_be_bytes (256 * high + b) bytes

unfoldable pub to_be_bytes : ℕ → ℕ → Bytes
to_be_bytes zero n = []
to_be_bytes (suc k) n = to_be_bytes k (n / 256) ++ (n % 256) ∷ []

-- `strip_prefix`
unfoldable pub strip_prefix : Bytes → Bytes → Option Bytes
strip_prefix [] s = some s
strip_prefix (p ∷ prefix) [] = none
strip_prefix (p ∷ prefix) (b ∷ s) =
    let rest = strip_prefix prefix s in if p == b then rest else none

unfoldable pub unwrap_or : Option Bytes → Bytes → Bytes
unwrap_or none d = d
unwrap_or (some b) d = b

-- `"ISCC:"` and `"iscc:"`
abbrev pub upper_scheme : Bytes
upper_scheme = 73 ∷ 83 ∷ 67 ∷ 67 ∷ 58 ∷ []

abbrev pub lower_scheme : Bytes
lower_scheme = 105 ∷ 115 ∷ 99 ∷ 99 ∷ 58 ∷ []

unfoldable pub trim : Bytes → Bytes
unfolding trim_start trim_end
trim s = trim_end (trim_start s)

unfoldable pub decode_body : ℕ → Bytes → Result IsccError ℕ
unfolding from_be_bytes
decode_body maintype body =
    if maintype == maintype_content
    then if ltb (length body) 8
      then err (unexpected_body_length (length body))
      else ok (from_be_bytes 0 (take 8 body))
    else if maintype == maintype_iscc
    then if length body == 32
      then ok (from_be_bytes 0 (take 8 (drop 8 body)))
      else err (unexpected_body_length (length body))
    else err (unsupported_main_type maintype)

unfoldable pub decode_unit : Bytes → Result IsccError ℕ
unfolding decode_body
decode_unit [] = err too_short
decode_unit (b ∷ []) = err too_short
decode_unit (b ∷ c ∷ body) = decode_body (b / 16) body

module _ (base32_nopad : Base32) where
  unfoldable pub decode_trimmed : Bytes → Result IsccError ℕ
  unfolding strip_prefix unwrap_or trim upper decode_unit or_else
  decode_trimmed [] = err empty
  decode_trimmed (b ∷ trimmed) =
      let s = b ∷ trimmed in
      let without_scheme =
        unwrap_or (or_else (strip_prefix upper_scheme s) (strip_prefix lower_scheme s)) s in
      and_then (map_err base32 (base32_nopad.decode (upper (trim without_scheme)))) decode_unit

  unfoldable pub decode_content_code : Bytes → Result IsccError ℕ
  unfolding trim decode_trimmed
  decode_content_code iscc = decode_trimmed (trim iscc)

  -- The header: `2 << 4 | subtype & 0x0F`, then version 0 and length 1.
  unfoldable pub encode_content_code_unit : ℕ → ℕ → Bytes
  unfolding to_be_bytes
  encode_content_code_unit code subtype =
      upper_scheme
      ++ base32_nopad.encode ((maintype_content * 16 + subtype % 16) ∷ 1 ∷ to_be_bytes 8 code)

  -- The fields of the JSON object, in their order; a value that is no text is `none`.
  unfoldable pub field : (Bytes → Bool) → List (Bytes × Option Bytes) → Option (Option Bytes)
  field wanted [] = none
  field wanted ((k, v) ∷ fields) =
      let rest = field wanted fields in if wanted k then some v else rest

  abbrev ok_code : Result IsccError ℕ → Option ℕ
  ok_code (ok code) = some code
  ok_code (err e) = none

  abbrev code_of : Option (Option Bytes) → Option ℕ
  code_of none = none
  code_of (some none) = none
  code_of (some (some iscc)) = ok_code (decode_content_code iscc)

  -- `none` stands for a value that is no JSON object.
  unfoldable pub extract_from_json : Option (List (Bytes × Option Bytes)) → Option ℕ
  unfolding decode_content_code field upper or_else bytes_eq
  extract_from_json none = none
  extract_from_json (some fields) =
      let name = 73 ∷ 83 ∷ 67 ∷ 67 ∷ [] in
      code_of (
        or_else (field (λ k. bytes_eq k name) fields) (field (λ k. bytes_eq (upper k) name) fields))
