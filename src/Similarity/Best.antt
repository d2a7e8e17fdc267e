-- ===== src/Similarity/Best.antt =====
-- The first pass of `verify` of crates/registry-core/src/similarity.rs: the least distance of each key.
use commonsdb_iroh_service.Prelude.{
  ℕ, zero, suc, ◌≤◌, ◌≡◌, ◌⊎◌, ◌∙◌, refl, sym, ap, true, false, Bool-cases, Option, none, some, inl,
  inr, List, [], ◌∷◌, get_elem?, leb, ltb, leb→le, le→leb, if◌then◌else◌, arith,
}
use mathlib.Core.Path.{subst}
use commonsdb_iroh_service.Prelude.Bytes.{Bytes, bytes_eq, eq_of_bytes_eq, bytes_eq_refl}
use commonsdb_iroh_service.Similarity.{IsccMember, hamming, keep_best, best_get, best_of}

-- Some element of a list has a property.
abbrev pub Some : {A : Type 0} → (A → Type 0) → List A → Type 0
Some P [] = ⊥
Some P (x ∷ xs) = P x ⊎ Some P xs

-- What `keep_best` does to the distance of a key.
abbrev lower : ℕ → Option ℕ → ℕ
lower d none = d
lower d (some c) = if ltb d c then d else c

lower_from : (d b : ℕ) (o : Option ℕ) → lower d o ≡ b → (d ≡ b) ⊎ (o ≡ some b)
lower_from d b none h = inl h
lower_from d b (some c) h = elim (Bool-cases (ltb d c)) [
  | inl p ↦ inl (rw p at h)
  | inr p ↦ inr (ap some (rw p at h))
]

lower_at_most : (d : ℕ) (o : Option ℕ) → lower d o ≤ d
lower_at_most d none = omega arith
lower_at_most d (some c) = ground arith

lower_below : (d c : ℕ) → lower d (some c) ≤ c
lower_below d c = ground arith

best_get-keep_best_self :
    (k : Bytes) (d : ℕ) (best : List (Bytes × ℕ))
    → best_get k (keep_best k d best) ≡ some (lower d (best_get k best))
unfolding best_get keep_best
best_get-keep_best_self k d [] = rw (bytes_eq_refl k) refl
best_get-keep_best_self k d (row ∷ best) = elim (Bool-cases (bytes_eq k row.0)) [
  | inl same ↦ rw (same, same) refl
  | inr other ↦ rw (other, other) (best_get-keep_best_self k d best)
]

other_key : (j k l : Bytes) → bytes_eq j k ≡ false → bytes_eq k l ≡ true → bytes_eq j l ≡ false
other_key j k l h p = let e : k ≡ l = eq_of_bytes_eq k l p in ap (bytes_eq j) (sym e) ∙ h

best_get-keep_best_ne :
    (j k : Bytes) (d : ℕ) (best : List (Bytes × ℕ))
    → bytes_eq j k ≡ false
    → best_get j (keep_best k d best) ≡ best_get j best
unfolding best_get keep_best
best_get-keep_best_ne j k d [] h = rw h refl
best_get-keep_best_ne j k d (row ∷ best) h = elim (Bool-cases (bytes_eq k row.0)) [
  | inl same ↦ rw (same, other_key j k row.0 h same) refl
  | inr other ↦ elim (Bool-cases (bytes_eq j row.0)) [
    | inl p ↦ rw (other, p) refl
    | inr p ↦ rw (other, p) (best_get-keep_best_ne j k d best h)
  ]
]

module _ (q radius : ℕ) where
  -- A candidate of this key at this distance.
  abbrev pub At : Bytes → ℕ → IsccMember → Type 0
  At k b m = (m.key ≡ k) × (hamming q m.content_code ≡ b)

  kept : IsccMember → List (Bytes × ℕ) → List (Bytes × ℕ)
  kept m best =
      let d = hamming q m.content_code in if leb d radius then keep_best m.key d best else best

  -- Where a distance after one candidate comes from.
  kept_from :
      (m : IsccMember) (best : List (Bytes × ℕ)) (k : Bytes) (b : ℕ)
      → best_get k (kept m best) ≡ some b
      → (best_get k best ≡ some b) ⊎ ((b ≤ radius) × At k b m)
  unfolding kept
  kept_from m best k b h = elim (Bool-cases (leb (hamming q m.content_code) radius)) [
    | inr far ↦ inl (rw far at h)
    | inl near ↦
        let d = hamming q m.content_code in
        let h' : best_get k (keep_best m.key d best) ≡ some b = rw near at h in
        elim (Bool-cases (bytes_eq k m.key)) [
          | inr other ↦ inl (sym (best_get-keep_best_ne k m.key d best other) ∙ h')
          | inl same ↦
              let e : k ≡ m.key = eq_of_bytes_eq k m.key same in
              let own : some (lower d (best_get m.key best)) ≡ some b =
                sym (best_get-keep_best_self m.key d best)
                ∙ ap (λ j. best_get j (keep_best m.key d best)) (sym e)
                ∙ h' in
              elim (lower_from d b (best_get m.key best) (cc)) [
                | inl new ↦ inr (subst (λ x. x ≤ radius) new (leb→le d radius near), (sym e, new))
                | inr old ↦ inl (ap (λ j. best_get j best) e ∙ old)
              ]
        ]
  ]

  -- A distance only goes down.
  kept_lowers :
      (m : IsccMember) (best : List (Bytes × ℕ)) (k : Bytes) (c : ℕ)
      → best_get k best ≡ some c
      → (b : ℕ) × (best_get k (kept m best) ≡ some b) × (b ≤ c)
  unfolding kept
  kept_lowers m best k c h =
      let d = hamming q m.content_code in
      elim (Bool-cases (leb d radius)) [
        | inr far ↦ (c, rw far h, omega arith)
        | inl near ↦ elim (Bool-cases (bytes_eq k m.key)) [
          | inr other ↦ (c, rw near (best_get-keep_best_ne k m.key d best other ∙ h), omega arith)
          | inl same ↦
              let e : k ≡ m.key = eq_of_bytes_eq k m.key same in
              let view : best_get m.key best ≡ some c = ap (λ j. best_get j best) (sym e) ∙ h in
              (
                lower d (some c),
                rw near (
                    ap (λ j. best_get j (keep_best m.key d best)) e
                    ∙ best_get-keep_best_self m.key d best
                    ∙ ap (λ o. some (lower d o)) view),
                lower_below d c,
              )
        ]
      ]

  best_of-lowers :
      (candidates : List IsccMember) (best : List (Bytes × ℕ)) (k : Bytes) (c : ℕ)
      → best_get k best ≡ some c
      → (b : ℕ) × (best_get k (best_of q radius candidates best) ≡ some b) × (b ≤ c)
  unfolding best_of kept
  best_of-lowers [] best k c h = (c, h, omega arith)
  best_of-lowers (m ∷ candidates) best k c h =
      let (d, e, p) = kept_lowers m best k c h in
      let (b, f, r) = best_of-lowers candidates (kept m best) k d e in (b, f, omega arith)

  pub best_of-from :
      (candidates : List IsccMember) (best : List (Bytes × ℕ)) (k : Bytes) (b : ℕ)
      → best_get k (best_of q radius candidates best) ≡ some b
      → (best_get k best ≡ some b) ⊎ ((b ≤ radius) × Some (At k b) candidates)
  unfolding best_of kept
  best_of-from [] best k b h = inl h
  best_of-from (m ∷ candidates) best k b h = elim (best_of-from candidates (kept m best) k b h) [
    | inr (low, s) ↦ inr (low, inr s)
    | inl e ↦ elim (kept_from m best k b e) [ inl old ↦ inl old | inr (low, a) ↦ inr (low, inl a) ]
  ]

  -- A candidate that is near enough has a distance for its key that is no larger.
  pub best_of-finds :
      (candidates : List IsccMember) (best : List (Bytes × ℕ)) (i : ℕ) (m : IsccMember)
      → get_elem? candidates i ≡ some m
      → hamming q m.content_code ≤ radius
      → (b : ℕ) × (best_get m.key (best_of q radius candidates best) ≡ some b)
        × (b ≤ hamming q m.content_code)
  unfolding best_of kept
  best_of-finds [] best i m h near = cc
  best_of-finds (n ∷ candidates) best zero m h near =
      let e : n ≡ m = cc in
      let d = hamming q m.content_code in
      let first : best_get m.key (kept m best) ≡ some (lower d (best_get m.key best)) =
        rw (kept, le→leb d radius near) (best_get-keep_best_self m.key d best) in
      let small = lower_at_most d (best_get m.key best) in
      let (b, f, r) =
        best_of-lowers candidates (kept m best) m.key (lower d (best_get m.key best)) first in
      (b, ap (λ x. best_get m.key (best_of q radius candidates (kept x best))) e ∙ f, omega arith)
  best_of-finds (n ∷ candidates) best (suc i) m h near =
      best_of-finds candidates (kept n best) i m h near
