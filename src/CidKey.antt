-- ===== src/CidKey.antt =====
-- crates/registry-core/src/cidkey.rs: the syntax of a record's key. The crate `cid` is an argument: it
-- gives the version of a text that parses.
pub mod Value
use commonsdb_iroh_service.Prelude.{
  ℕ, zero, suc, ◌+◌, ◌*◌, ◌/◌, ◌%◌, Bool, true, false, ◌||◌, ◌&&◌, Option, none, some, List, [],
  ◌∷◌, ◌++◌, String, length, take, replicate, ◌==◌, if◌then◌else◌, ◌≡◌,
}
use commonsdb_iroh_service.Prelude.Bytes.{Bytes, bytes_eq}
use commonsdb_iroh_service.Exec.{Result, ok, err, map_err, and_then}

pub data CidKeyError : Type 0 where
  invalid_cid : String → CidKeyError
  wrong_version : ℕ → CidKeyError

-- `Cid::from_str` of the crate `cid`, and `Cid::version`.
pub record CidParser (Cid : Type 0) : Type 0 where
  pub from_str : Bytes → Result String Cid
  pub version : Cid → ℕ

module _ {Cid : Type 0} (parser : CidParser Cid) where
  unfoldable pub validate_cidv1 : Bytes → Result CidKeyError Cid
  validate_cidv1 s =
      and_then (map_err invalid_cid (parser.from_str s))
        λ cid. if parser.version cid == 1 then ok cid else err (wrong_version (parser.version cid))

  abbrev is_ok : Result CidKeyError Cid → Bool
  is_ok (ok cid) = true
  is_ok (err e) = false

  unfoldable pub is_valid_cidv1 : Bytes → Bool
  unfolding validate_cidv1
  is_valid_cidv1 s = is_ok (validate_cidv1 s)

-- `b"abcdefghijklmnopqrstuvwxyz234567"`
abbrev pub alphabet : Bytes
alphabet =
    97 ∷ 98 ∷ 99 ∷ 100 ∷ 101 ∷ 102 ∷ 103 ∷ 104 ∷ 105 ∷ 106 ∷ 107 ∷ 108 ∷ 109 ∷ 110 ∷ 111 ∷ 112 ∷ 113
    ∷ 114 ∷ 115 ∷ 116 ∷ 117 ∷ 118 ∷ 119 ∷ 120 ∷ 121 ∷ 122 ∷ 50 ∷ 51 ∷ 52 ∷ 53 ∷ 54 ∷ 55 ∷ []

abbrev add_one : Option ℕ → Option ℕ
add_one none = none
add_one (some n) = some (suc n)

-- `ALPHABET.iter().position(|&a| a == ch)`
unfoldable pub position : ℕ → Bytes → Option ℕ
position ch [] = none
position ch (a ∷ as') = let rest = position ch as' in if a == ch then some 0 else add_one rest

-- `while carry > 0 { bytes.push(carry & 0xff); carry >>= 8 }`: a `u32` is done after four rounds.
unfoldable pub push_carry : ℕ → ℕ → Bytes
push_carry zero carry = []
push_carry (suc fuel) carry =
    let rest = push_carry fuel (carry / 256) in if carry == 0 then [] else (carry % 256) ∷ rest

-- The bytes, lowest first, times 32 plus a carry.
unfoldable pub shift_in : Bytes → ℕ → Bytes
unfolding push_carry
shift_in [] carry = push_carry 4 carry
shift_in (b ∷ bytes) carry = let sum = carry + b * 32 in (sum % 256) ∷ shift_in bytes (sum / 256)

unfoldable pub decode_digits : Bytes → Bytes → Option Bytes
unfolding position shift_in
decode_digits [] bytes = some bytes
decode_digits (ch ∷ input) bytes = elim (position ch alphabet) [
  | none ↦ none
  | some digit ↦ decode_digits input (shift_in bytes digit)
]

-- `input.bytes().take_while(|&c| c == ALPHABET[0]).count()`
unfoldable pub leading_zeros : Bytes → ℕ
leading_zeros [] = 0
leading_zeros (c ∷ input) = let n = leading_zeros input in if c == 97 then suc n else 0

unfoldable pub reverse_onto : Bytes → Bytes → Bytes
reverse_onto [] out = out
reverse_onto (b ∷ bytes) out = reverse_onto bytes (b ∷ out)

unfoldable pub base_x_decode_b32 : Bytes → Option Bytes
unfolding decode_digits leading_zeros reverse_onto replicate
base_x_decode_b32 input = elim (decode_digits input []) [
  | none ↦ none
  | some bytes ↦ some (reverse_onto (bytes ++ replicate (leading_zeros input) 0) [])
]

unfoldable pub has_declaration_header : Option Bytes → Bool
unfolding bytes_eq
has_declaration_header none = false
has_declaration_header (some bytes) =
    length bytes == 36 && bytes_eq (take 4 bytes) (1 ∷ 12 ∷ 18 ∷ 32 ∷ [])

unfoldable pub is_legacy_declaration_id : Bytes → Bool
unfolding base_x_decode_b32 has_declaration_header
is_legacy_declaration_id s =
    if length s == 57 then has_declaration_header (base_x_decode_b32 s) else false

module _ {Cid : Type 0} (parser : CidParser Cid) where
  unfoldable pub is_valid_record_key : Bytes → Bool
  unfolding is_valid_cidv1 is_legacy_declaration_id
  is_valid_record_key s = is_valid_cidv1 parser s || is_legacy_declaration_id s
