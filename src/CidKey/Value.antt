-- ===== src/CidKey/Value.antt =====
-- `base_x_decode_b32` of crates/registry-core/src/cidkey.rs decodes a number: the bytes have, in base
-- 256, the value that the characters have in base 32.
use commonsdb_iroh_service.Prelude.{
  ℕ, zero, suc, ◌+◌, ◌*◌, ◌/◌, ◌<◌, ◌≡◌, ◌∙◌, refl, sym, ap, Bool-cases, Option-cases, inl, inr,
  Option, none, some, [], ◌∷◌, ◌++◌, All, length, replicate, ◌==◌, arith,
}
use mathlib.Core.Option
use commonsdb_iroh_service.Prelude.Bytes.{Bytes}
use commonsdb_iroh_service.CidKey.{
  alphabet, position, push_carry, shift_in, decode_digits, leading_zeros, reverse_onto,
  base_x_decode_b32,
}

-- The value of bytes whose first is the lowest, and of bytes whose first is the highest.
unfoldable pub le_value : Bytes → ℕ
le_value [] = 0
le_value (b ∷ bytes) = b + 256 * le_value bytes

unfoldable pub be_value : ℕ → Bytes → ℕ
be_value high [] = high
be_value high (b ∷ bytes) = be_value (256 * high + b) bytes

-- The value of a text in base 32, where every character is in the alphabet.
unfoldable pub digits_value : ℕ → Bytes → Option ℕ
digits_value high [] = some high
digits_value high (ch ∷ input) = elim (position ch alphabet) [
  | none ↦ none
  | some digit ↦ digits_value (32 * high + digit) input
]

CarryFits : (fuel : ℕ) → ℕ → Type 0
CarryFits zero carry = carry ≡ 0
CarryFits (suc fuel) carry = CarryFits fuel (carry / 256)

le_value-push_carry :
    (fuel carry : ℕ) → CarryFits fuel carry → le_value (push_carry fuel carry) ≡ carry
unfolding le_value push_carry CarryFits
le_value-push_carry zero carry h = sym h
le_value-push_carry (suc fuel) carry h =
    let ih = le_value-push_carry fuel (carry / 256) h in
    elim (Bool-cases (carry == 0)) [ inl z ↦ rw z (ground arith) | inr s ↦ rw s (omega arith) ]

fits_four : (carry : ℕ) → carry < 4294967296 → CarryFits 4 carry
unfolding CarryFits
fits_four carry h = omega arith

le_value-shift_in :
    (bytes : Bytes) (carry : ℕ)
    → All (λ b. b < 256) bytes
    → carry < 4294967296
    → le_value (shift_in bytes carry) ≡ 32 * le_value bytes + carry
unfolding le_value shift_in
le_value-shift_in [] carry h k = le_value-push_carry 4 carry (fits_four carry k) ∙ omega arith
le_value-shift_in (b ∷ bytes) carry h k =
    let small : b < 256 = h.0 in
    let ih = le_value-shift_in bytes ((carry + b * 32) / 256) h.1 (omega arith) in omega arith

push_carry_bytes : (fuel carry : ℕ) → All (λ b. b < 256) (push_carry fuel carry)
unfolding push_carry
push_carry_bytes zero carry = tt
push_carry_bytes (suc fuel) carry = elim (Bool-cases (carry == 0)) [
  | inl z ↦ rw z tt
  | inr s ↦ rw s (omega arith, push_carry_bytes fuel (carry / 256))
]

shift_in_bytes : (bytes : Bytes) (carry : ℕ) → All (λ b. b < 256) (shift_in bytes carry)
unfolding shift_in
shift_in_bytes [] carry = push_carry_bytes 4 carry
shift_in_bytes (b ∷ bytes) carry = (omega arith, shift_in_bytes bytes ((carry + b * 32) / 256))

position_below : (ch : ℕ) (a : Bytes) (i : ℕ) → position ch a ≡ some i → i < length a
unfolding position
position_below ch [] i h = cc
position_below ch (b ∷ a) i h = elim (Bool-cases (b == ch)) [
  | inl same ↦ let here : some 0 ≡ some i = rw same at h in let first : 0 ≡ i = cc in omega arith
  | inr other ↦ elim (Option-cases (position ch a)) [
    | inl e ↦ let nowhere : none ≡ some i = rw (position, other, e) at h in cc
    | inr (j, e) ↦
        let there : some (suc j) ≡ some i = rw (position, other, e) at h in
        let next : suc j ≡ i = cc in let below = position_below ch a j e in omega arith
  ]
]

decode_digits-value :
    (input bytes : Bytes)
    → All (λ b. b < 256) bytes
    → Option.map le_value (decode_digits input bytes) ≡ digits_value (le_value bytes) input
unfolding decode_digits digits_value
decode_digits-value [] bytes h = refl
decode_digits-value (ch ∷ input) bytes h = elim (Option-cases (position ch alphabet)) [
  | inl e ↦ rw (decode_digits, digits_value, e) refl
  | inr (digit, e) ↦
      let small : digit < 32 = position_below ch alphabet digit e in
      let value = le_value-shift_in bytes digit h (omega arith) in
      rw (decode_digits, digits_value, e)
        (decode_digits-value input (shift_in bytes digit) (shift_in_bytes bytes digit)
          ∙ ap (λ v. digits_value v input) value)
]

be_value-reverse_onto :
    (bytes out : Bytes) → be_value 0 (reverse_onto bytes out) ≡ be_value (le_value bytes) out
unfolding be_value le_value reverse_onto
be_value-reverse_onto [] out = refl
be_value-reverse_onto (b ∷ bytes) out =
    let e : 256 * le_value bytes + b ≡ b + 256 * le_value bytes = omega arith in
    be_value-reverse_onto bytes (b ∷ out) ∙ ap (λ v. be_value v out) e

le_value-zeros : (bytes : Bytes) (n : ℕ) → le_value (bytes ++ replicate n 0) ≡ le_value bytes
unfolding le_value replicate
le_value-zeros [] zero = refl
le_value-zeros [] (suc n) = omega (arith, le_value-zeros [] n)
le_value-zeros (b ∷ bytes) n = ap (λ v. b + 256 * v) (le_value-zeros bytes n)

-- `base_x_decode_b32` refuses a text exactly where it has a character outside the alphabet; the bytes
-- of any other text, read in base 256 from the highest, have the value of its characters in base 32.
pub base_x_decode_b32-value :
    (input : Bytes) → Option.map (be_value 0) (base_x_decode_b32 input) ≡ digits_value 0 input
unfolding base_x_decode_b32 le_value be_value
base_x_decode_b32-value input =
    let value = decode_digits-value input [] tt in
    elim (Option-cases (decode_digits input [])) [
      | inl e ↦ rw (base_x_decode_b32, e) (rw e at value)
      | inr (bytes, e) ↦
          let here : some (le_value bytes) ≡ digits_value 0 input = rw e at value in
          rw (base_x_decode_b32, e)
            (ap some (
                be_value-reverse_onto (bytes ++ replicate (leading_zeros input) 0) []
                ∙ le_value-zeros bytes (leading_zeros input))
              ∙ here)
    ]
