-- ===== src/Iscc/Codec.antt =====
-- Round trip of crates/registry-core/src/iscc.rs.
use commonsdb_iroh_service.Prelude.{
  ℕ, zero, suc, ◌+◌, ◌*◌, ◌/◌, ◌%◌, ◌^◌, ◌<◌, ◌≡◌, ◌∙◌, refl, ap, false, or_else, [], ◌∷◌, ◌++◌,
  All, length, take, length-append, arith,
}
use commonsdb_iroh_service.Prelude.Bytes.{Bytes}
use commonsdb_iroh_service.Prelude.Text.{trim_end, is_space, trim_start_visible, trim_end_visible}
use commonsdb_iroh_service.Exec.{ok}
use commonsdb_iroh_service.Iscc.{
  Base32, from_be_bytes, to_be_bytes, strip_prefix, unwrap_or, upper_scheme, trim, decode_body,
  decode_unit, decode_trimmed, decode_content_code, encode_content_code_unit,
}

from_be_bytes-append :
    (xs : Bytes) (high b : ℕ) → from_be_bytes high (xs ++ b ∷ []) ≡ 256 * from_be_bytes high xs + b
unfolding from_be_bytes
from_be_bytes-append [] high b = refl
from_be_bytes-append (x ∷ xs) high b = from_be_bytes-append xs (256 * high + x) b

length-to_be_bytes : (k n : ℕ) → length (to_be_bytes k n) ≡ k
unfolding to_be_bytes
length-to_be_bytes zero n = refl
length-to_be_bytes (suc k) n =
    length-append (to_be_bytes k (n / 256)) ((n % 256) ∷ [])
    ∙ omega (arith, length-to_be_bytes k (n / 256))

-- What fits `k` bytes.
Fits : ℕ → ℕ → Type 0
Fits zero n = n ≡ 0
Fits (suc k) n = Fits k (n / 256)

from_be_bytes-to_be_bytes : (k n : ℕ) → Fits k n → from_be_bytes 0 (to_be_bytes k n) ≡ n
unfolding from_be_bytes to_be_bytes Fits
from_be_bytes-to_be_bytes zero n h = omega arith
from_be_bytes-to_be_bytes (suc k) n h =
    from_be_bytes-append (to_be_bytes k (n / 256)) 0 (n % 256)
    ∙ omega (arith, from_be_bytes-to_be_bytes k (n / 256) h)

Fits-u64 : (n : ℕ) → n < 2 ^ 64 → Fits 8 n
unfolding Fits
Fits-u64 n h = omega arith

trim_visible : (s : Bytes) → All (λ b. is_space b ≡ false) s → trim s ≡ s
unfolding trim
trim_visible s h = ap trim_end (trim_start_visible s h) ∙ trim_end_visible s h

take_all : (xs : Bytes) (n : ℕ) → length xs ≡ n → take n xs ≡ xs
take_all [] zero h = refl
take_all [] (suc n) h = refl
take_all (x ∷ xs) zero h = absurd (omega arith)
take_all (x ∷ xs) (suc n) h = ap (λ l. x ∷ l) (take_all xs n (omega arith))

decode_unit-content :
    (code subtype : ℕ)
    → code < 2 ^ 64
    → decode_unit ((32 + subtype % 16) ∷ 1 ∷ to_be_bytes 8 code) ≡ ok code
unfolding decode_unit decode_body
decode_unit-content code subtype h =
    let main : (32 + subtype % 16) / 16 ≡ 2 = omega arith in
    let len = length-to_be_bytes 8 code in
    rw (decode_body, main, len, take_all (to_be_bytes 8 code) 8 len)
      (ap ok (from_be_bytes-to_be_bytes 8 code (Fits-u64 code h)))

scheme_visible :
    (t : Bytes)
    → All (λ b. is_space b ≡ false) t
    → All (λ b. is_space b ≡ false) (upper_scheme ++ t)
unfolding is_space
scheme_visible t h = (refl, (refl, (refl, (refl, (refl, h)))))

-- The content code of a unit that `encode_content_code_unit` wrote for a code below 2 ^ 64 is the code,
-- for every subtype.
pub decode_content_code-encode :
    (base32_nopad : Base32) (code subtype : ℕ)
    → code < 2 ^ 64
    → decode_content_code base32_nopad (encode_content_code_unit base32_nopad code subtype)
      ≡ ok code
unfolding decode_content_code decode_trimmed encode_content_code_unit strip_prefix unwrap_or or_else
decode_content_code-encode base32_nopad code subtype h =
    let body = (32 + subtype % 16) ∷ 1 ∷ to_be_bytes 8 code in
    let text = base32_nopad.encode body in
    let visible = base32_nopad.encode_visible body in
    let outer = trim_visible (upper_scheme ++ text) (scheme_visible text visible) in
    rw
      (
        outer,
        trim_visible text visible,
        base32_nopad.upper-encode body,
        base32_nopad.decode-encode body,
      )
      (decode_unit-content code subtype h)
