-- ===== src/Hamt/Codec.antt =====
-- `HamtNode::encode` and `HamtNode::decode` of crates/registry-core/src/hamt.rs: the node format.
use commonsdb_iroh_service.Prelude.{
  ℕ, ◌+◌, ◌*◌, ◌≡◌, ◌≢◌, refl, Bool-cases, inl, inr, false, Option, none, some, List, [], ◌∷◌, ◌++◌,
  length, length-append, length-replicate, take-append, drop-append, All, arith, ==_iff,
}
use mathlib.Core.Path.{subst}
use commonsdb_iroh_service.Prelude.Bytes.{Bytes, bytes_eq, eq_of_bytes_eq}
use commonsdb_iroh_service.Record.{Hash, zero_hash, LeafEntry, is_zero}
use commonsdb_iroh_service.External.{EntryJson}
use commonsdb_iroh_service.BlobStore.{IsAddress}
use commonsdb_iroh_service.Exec.{ok}
use commonsdb_iroh_service.Hamt.{
  HamtNode, leaf, intermediate, slot_bytes, slots_bytes, cons_first, split_lines, slot_of,
  slots_of_bytes, lines_bytes, encode, decode_line, decode_lines, decode_intermediate, decode,
  intermediate_fanout,
}

-- A slot that the format can hold.
abbrev pub IsSlot : Option Hash → Type 0
IsSlot none = Unit
IsSlot (some h) = IsAddress h

-- A node that the format can hold: 256 slots, each vacant or with an address.
abbrev pub IsEncodable : HamtNode → Type 0
IsEncodable (leaf es) = Unit
IsEncodable (intermediate slots) = (length slots ≡ intermediate_fanout) × All IsSlot slots

slot_bytes-width : (slot : Option Hash) → IsSlot slot → length (slot_bytes slot) ≡ 32
unfolding slot_bytes
slot_bytes-width none h = length-replicate {A = ℕ} 32 0
slot_bytes-width (some a) h = h.width

is_zero-false : (h : Hash) → h ≢ zero_hash → is_zero h ≡ false
unfolding is_zero
is_zero-false h n = elim (Bool-cases (bytes_eq h zero_hash)) [
  | inl e ↦ absurd (n (eq_of_bytes_eq h zero_hash e))
  | inr e ↦ e
]

slot_of-slot_bytes : (slot : Option Hash) → IsSlot slot → slot_of (slot_bytes slot) ≡ slot
unfolding slot_of slot_bytes zero_hash is_zero
slot_of-slot_bytes none h = refl
slot_of-slot_bytes (some a) h = rw (is_zero-false a h.nonzero)

pub slots_of_bytes-slots_bytes :
    (slots : List (Option Hash))
    → All IsSlot slots
    → slots_of_bytes (length slots) (slots_bytes slots) ≡ slots
unfolding slots_of_bytes slots_bytes
slots_of_bytes-slots_bytes [] h = refl
slots_of_bytes-slots_bytes (slot ∷ slots) h = rw (
  take-append (slot_bytes slot) (slots_bytes slots) 32 (slot_bytes-width slot h.0),
  drop-append (slot_bytes slot) (slots_bytes slots) 32 (slot_bytes-width slot h.0),
  slot_of-slot_bytes slot h.0,
  slots_of_bytes-slots_bytes slots h.1,
)

length-slots_bytes :
    (slots : List (Option Hash)) → All IsSlot slots → length (slots_bytes slots) ≡ length slots * 32
unfolding slots_bytes
length-slots_bytes [] h = refl
length-slots_bytes (slot ∷ slots) h = omega (
  arith,
  length-append (slot_bytes slot) (slots_bytes slots),
  slot_bytes-width slot h.0,
  length-slots_bytes slots h.1,
)

-- A line that holds no newline is split off whole.
split_lines-line :
    (line rest : Bytes)
    → All (λ b. b ≢ 10) line
    → split_lines (line ++ 10 ∷ rest) ≡ line ∷ split_lines rest
unfolding split_lines cons_first
split_lines-line [] rest h = refl
split_lines-line (b ∷ line) rest h = rw (split_lines-line line rest h.1) (ground (arith, h.0))

module _ (json_text : EntryJson) where
  decode_lines-line :
      (line : Bytes) (lines : List Bytes) (e : LeafEntry) (es : List LeafEntry) (h : Hash)
      → line ≢ []
      → json_text.from_json line ≡ ok e
      → decode_lines json_text lines h ≡ ok es
      → decode_lines json_text (line ∷ lines) h ≡ ok (e ∷ es)
  unfolding decode_lines decode_line
  decode_lines-line [] lines e es h n p q = absurd (n refl)
  decode_lines-line (b ∷ line) lines e es h n p q = rw (p, q)

  pub decode_lines-lines_bytes :
      (es : List LeafEntry) (h : Hash)
      → decode_lines json_text (split_lines (lines_bytes json_text es)) h ≡ ok es
  unfolding lines_bytes
  decode_lines-lines_bytes [] h = unfold split_lines decode_lines in refl
  decode_lines-lines_bytes (e ∷ es) h =
      rw (split_lines-line _ (lines_bytes json_text es) (json_text.to_json_one_line e)) (
        decode_lines-line _ _ e es h (json_text.to_json-ne-nil e) (json_text.from_json-to_json e)
          (decode_lines-lines_bytes es h))

  decode_intermediate-eq :
      (body : Bytes) (slots : List (Option Hash)) (h : Hash)
      → length body + 1 ≡ 1 + intermediate_fanout * 32
      → slots_of_bytes intermediate_fanout body ≡ slots
      → decode_intermediate json_text body h ≡ ok (intermediate slots)
  unfolding decode_intermediate
  decode_intermediate-eq body slots h e p = rw ((==_iff _ _).1 e, p)

  -- Every leaf, and every intermediate node of 256 slots whose hashes are 32 bytes and not zero, reads
  -- back as it was written, under any hash.
  pub decode-encode :
      (node : HamtNode) (h : Hash)
      → IsEncodable node
      → decode json_text (encode json_text node) h ≡ ok node
  unfolding decode encode
  decode-encode (leaf es) h v = rw (decode_lines-lines_bytes es h)
  decode-encode (intermediate slots) h v =
      decode_intermediate-eq (slots_bytes slots) slots h
        (omega (arith, length-slots_bytes slots v.1))
        (subst (λ n. slots_of_bytes n (slots_bytes slots) ≡ slots) v.0
          (slots_of_bytes-slots_bytes slots v.1))
