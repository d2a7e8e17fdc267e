-- ===== src/Hamt/Fuel.antt =====
-- A lookup in crates/registry-core/src/hamt.rs stays within its fuel on every store: a digest has 32 bytes,
-- so that a descent ends in an error before the fuel does.
use commonsdb_iroh_service.Prelude.{
  ℕ, zero, suc, ◌+◌, ◌<◌, ◌≡◌, ◌≢◌, ap, ◌∙◌, ◌==◌, ◌*◌, Bool-cases, Option-cases, inl, inr, Option,
  none, some, List, [], ◌∷◌, length, get_or, get_elem?_below, arith,
}
use commonsdb_iroh_service.Prelude.Bytes.{Bytes}
use commonsdb_iroh_service.Record.{Hash}
use commonsdb_iroh_service.External.{EntryJson}
use commonsdb_iroh_service.Partition.{descent_byte}
use commonsdb_iroh_service.BlobStore.{BlobStore}
use commonsdb_iroh_service.Exec.{Result, ok, err, map_err, ok_or, and_then, Result-cases}
use commonsdb_iroh_service.Hamt.{
  HamtError, corrupt_node, json, out_of_fuel, leaf, intermediate, find, decode_lines,
  decode_intermediate, decode, byte_at, read_node, lookup_from, split_lines, missing_node,
}

-- The result is not the model's own error.
pub record Fueled {A : Type 0} (r : Result HamtError A) : Type 0 where
  pub enough : r ≢ err out_of_fuel

pub Fueled-ok : {A : Type 0} (a : A) → Fueled (ok a)
Fueled-ok a = record { enough = λ h. cc }

pub Fueled-and_then :
    {A B : Type 0} (r : Result HamtError A) (f : A → Result HamtError B)
    → Fueled r
    → ((a : A) → Fueled (f a))
    → Fueled (and_then r f)
Fueled-and_then (ok a) f g k = k a
Fueled-and_then (err e) f g k = record {
  enough = λ h. let same : e ≡ out_of_fuel = cc in g.enough (ap err same);
}

-- An error that is passed on is the same error.
pub Fueled-err :
    {A B : Type 0} (r : Result HamtError A) (e : HamtError)
    → Fueled r
    → r ≡ err e
    → Fueled {A = B} (err e)
Fueled-err r e g failed = record {
  enough = λ h. let same : e ≡ out_of_fuel = cc in g.enough (failed ∙ ap err same);
}

pub Fueled-map_err :
    {E A : Type 0} (f : E → HamtError) (r : Result E A)
    → ((e : E) → f e ≢ out_of_fuel)
    → Fueled (map_err f r)
Fueled-map_err f (ok a) k = Fueled-ok a
Fueled-map_err f (err e) k = record { enough = λ h. let same : f e ≡ out_of_fuel = cc in k e same }

pub Fueled-ok_or :
    {A : Type 0} (o : Option A) (e : HamtError) → e ≢ out_of_fuel → Fueled (ok_or o e)
Fueled-ok_or (some a) e k = Fueled-ok a
Fueled-ok_or none e k = record { enough = λ h. let same : e ≡ out_of_fuel = cc in k same }

-- A digest has no byte at depth 31, nor below.
pub shallow :
    (digest : Bytes) (depth b : ℕ)
    → length digest ≡ 32
    → descent_byte digest depth ≡ some b
    → 1 + depth < 32
unfolding descent_byte
shallow digest depth b h e = omega (arith, h, get_elem?_below digest (1 + depth) b e)

module _ (json_text : EntryJson) where
  decode_lines-Fueled : (lines : List Bytes) (h : Hash) → Fueled (decode_lines json_text lines h)
  unfolding decode_lines
  decode_lines-Fueled [] h = Fueled-ok []
  decode_lines-Fueled ([] ∷ lines) h = decode_lines-Fueled lines h
  decode_lines-Fueled ((b ∷ line) ∷ lines) h =
      Fueled-and_then _ _
        (Fueled-map_err (λ e. corrupt_node h (json e)) (json_text.from_json (b ∷ line))
          (λ e same. cc))
        (λ entry.
          Fueled-and_then _ _ (decode_lines-Fueled lines h)
            (λ entries. Fueled-ok (entry ∷ entries)))

  decode-Fueled : (bytes : Bytes) (h : Hash) → Fueled (decode json_text bytes h)
  unfolding decode decode_intermediate
  decode-Fueled [] h = record { enough = λ e. cc }
  decode-Fueled (tag ∷ body) h = elim (Bool-cases (tag == 0)) [
    | inl e ↦
        rw (decode, e)
          (Fueled-and_then _ _ (decode_lines-Fueled (split_lines body) h)
            (λ es. Fueled-ok (leaf es)))
    | inr e ↦ elim (Bool-cases (tag == 1)) [
      | inr f ↦ rw (decode, e, f) record { enough = λ same. cc }
      | inl f ↦ elim (Bool-cases (length body + 1 == 1 + 256 * 32)) [
        | inl g ↦ rw (decode, e, f, decode_intermediate, g) (Fueled-ok _)
        | inr g ↦ rw (decode, e, f, decode_intermediate, g) record { enough = λ same. cc }
      ]
    ]
  ]

module _ (json_text : EntryJson) {S : Type 0} (store : BlobStore S) where
  pub read_node-Fueled : (s : S) (h : Hash) → Fueled (read_node json_text store s h)
  unfolding read_node
  read_node-Fueled s h =
      Fueled-and_then _ _ (Fueled-map_err _ (store.get s h) (λ e same. cc)) (λ found.
        Fueled-and_then _ _ (Fueled-ok_or found (missing_node h) (λ same. cc))
          (λ bytes. decode-Fueled json_text bytes h))

  pub lookup_from-Fueled :
      (s : S) (fuel : ℕ) (h : Hash) (depth : ℕ) (digest key : Bytes)
      → length digest ≡ 32
      → 32 < fuel + depth
      → depth < 32
      → Fueled (lookup_from json_text store s fuel h depth digest key)
  unfolding lookup_from byte_at
  lookup_from-Fueled s zero h depth digest key l deep high = absurd (omega (arith, deep, high))
  lookup_from-Fueled s (suc fuel) h depth digest key l deep high =
      elim (Result-cases (read_node json_text store s h)) [
        | inr (e, failed) ↦ rw (lookup_from, failed) (Fueled-err _ e (read_node-Fueled s h) failed)
        | inl (leaf entries, found) ↦ rw (lookup_from, found) (Fueled-ok (find key entries))
        | inl (intermediate slots, found) ↦ elim (Option-cases (descent_byte digest depth)) [
          | inl out ↦ rw (lookup_from, found, out) record { enough = λ same. cc }
          | inr (b, there) ↦ elim (Option-cases (get_or slots b none)) [
            | inl empty ↦ rw (lookup_from, found, there, empty) (Fueled-ok none)
            | inr (child, below) ↦
                rw (lookup_from, found, there, below)
                  (lookup_from-Fueled s fuel child (depth + 1) digest key l (omega arith)
                    (omega (arith, shallow digest depth b l there)))
          ]
        ]
      ]
