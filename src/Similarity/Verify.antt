-- ===== src/Similarity/Verify.antt =====
-- What `verify` of crates/registry-core/src/similarity.rs lets through: exactly what is near enough.
use commonsdb_iroh_service.Prelude.{
  ℕ, ◌≤◌, ◌≡◌, ◌∙◌, refl, sym, ap, Bool-cases, some, Option-cases, inl, inr, List, [], ◌∷◌, All,
  All-map, get_elem?, ◌==◌, ==_iff, arith,
}
use commonsdb_iroh_service.Prelude.Bytes.{Bytes, bytes_eq, eq_of_bytes_eq}
use commonsdb_iroh_service.Similarity.Best.{Some, At, best_of-from, best_of-finds}
use commonsdb_iroh_service.Similarity.{
  IsccMember, SimilarityMatch, hamming, best_get, best_of, matches_of, match_le, insert_match,
  sort_matches, dedup_from, dedup_by_key, verify,
}

module _ (q radius : ℕ) where
  -- What a match is: its distance is the least of its key, the true one, and its code a candidate's.
  record Match (best : List (Bytes × ℕ)) (candidates : List IsccMember) (x : SimilarityMatch)
      : Type 0 where
    least : best_get x.key best ≡ some x.distance
    exact : x.distance ≡ hamming q x.content_code
    source : Some (λ m. (m.key ≡ x.key) × (m.content_code ≡ x.content_code)) candidates

  further :
      (best : List (Bytes × ℕ)) (m : IsccMember) (candidates : List IsccMember)
      (x : SimilarityMatch)
      → Match best candidates x
      → Match best (m ∷ candidates) x
  further best m candidates x h = record { least = h.least; exact = h.exact; source = inr h.source }

  matches_of-Match :
      (best : List (Bytes × ℕ)) (candidates : List IsccMember)
      → All (Match best candidates) (matches_of q best candidates)
  unfolding matches_of
  matches_of-Match best [] = tt
  matches_of-Match best (m ∷ candidates) =
      let rest = matches_of q best candidates in
      let old =
        All-map (Match best candidates) (Match best (m ∷ candidates)) rest
          (further best m candidates) (matches_of-Match best candidates) in
      elim (Option-cases (best_get m.key best)) [
        | inl e ↦ rw e old
        | inr (b, e) ↦ elim (Bool-cases (hamming q m.content_code == b)) [
          | inr differs ↦ rw (e, differs) old
          | inl same ↦
              let d = (==_iff (hamming q m.content_code) b).0 same in
              rw (e, same) (record { least = e; exact = sym d; source = inl (refl, refl) }, old)
        ]
      ]

  matches_of-finds :
      (best : List (Bytes × ℕ)) (candidates : List IsccMember) (k : Bytes) (b : ℕ)
      → best_get k best ≡ some b
      → Some (At q radius k b) candidates
      → Some (λ x. x.key ≡ k) (matches_of q best candidates)
  unfolding matches_of
  matches_of-finds best [] k b e s = s
  matches_of-finds best (m ∷ candidates) k b e (inl a) =
      let view : best_get m.key best ≡ some b = ap (λ j. best_get j best) a.0 ∙ e in
      let same = (==_iff (hamming q m.content_code) b).1 a.1 in rw (view, same) (inl a.0)
  matches_of-finds best (m ∷ candidates) k b e (inr s) =
      let rest = matches_of-finds best candidates k b e s in
      elim (Option-cases (best_get m.key best)) [
        | inl absent ↦ rw absent rest
        | inr (c, found) ↦ elim (Bool-cases (hamming q m.content_code == c)) [
          | inr differs ↦ rw (found, differs) rest
          | inl same ↦ rw (found, same) (inr rest)
        ]
      ]

no_best : (k : Bytes) (b : ℕ) → best_get k [] ≡ some b → ⊥
unfolding best_get
no_best k b h = cc

module _ (P : SimilarityMatch → Type 0) where
  All-insert_match :
      (a : SimilarityMatch) (bs : List SimilarityMatch) → P a → All P bs → All P (insert_match a bs)
  unfolding insert_match
  All-insert_match a [] p h = (p, h)
  All-insert_match a (b ∷ bs) p h = elim (Bool-cases (match_le a b)) [
    | inl le ↦ rw le (p, h)
    | inr gt ↦ rw gt (h.0, All-insert_match a bs p h.1)
  ]

  All-sort_matches : (bs : List SimilarityMatch) → All P bs → All P (sort_matches bs)
  unfolding sort_matches
  All-sort_matches [] h = h
  All-sort_matches (a ∷ bs) h = All-insert_match a (sort_matches bs) h.0 (All-sort_matches bs h.1)

  All-dedup_from :
      (a : SimilarityMatch) (bs : List SimilarityMatch) → P a → All P bs → All P (dedup_from a bs)
  unfolding dedup_from
  All-dedup_from a [] p h = (p, h)
  All-dedup_from a (b ∷ bs) p h = elim (Bool-cases (bytes_eq b.key a.key)) [
    | inl same ↦ rw same (All-dedup_from a bs p h.1)
    | inr other ↦ rw other (p, All-dedup_from b bs h.0 h.1)
  ]

  All-dedup_by_key : (bs : List SimilarityMatch) → All P bs → All P (dedup_by_key bs)
  unfolding dedup_by_key
  All-dedup_by_key [] h = h
  All-dedup_by_key (a ∷ bs) h = All-dedup_from a bs h.0 h.1

  Some-insert_match :
      (a : SimilarityMatch) (bs : List SimilarityMatch)
      → Some P (a ∷ bs)
      → Some P (insert_match a bs)
  unfolding insert_match
  Some-insert_match a [] s = s
  Some-insert_match a (b ∷ bs) s = elim (Bool-cases (match_le a b)) [
    | inl le ↦ rw le s
    | inr gt ↦ rw gt (elim s [
      | inl p ↦ inr (Some-insert_match a bs (inl p))
      | inr (inl p) ↦ inl p
      | inr (inr t) ↦ inr (Some-insert_match a bs (inr t))
    ])
  ]

  Some-sort_matches : (bs : List SimilarityMatch) → Some P bs → Some P (sort_matches bs)
  unfolding sort_matches
  Some-sort_matches [] s = s
  Some-sort_matches (a ∷ bs) (inl p) = Some-insert_match a (sort_matches bs) (inl p)
  Some-sort_matches (a ∷ bs) (inr s) =
      Some-insert_match a (sort_matches bs) (inr (Some-sort_matches bs s))

module _ (k : Bytes) where
  abbrev HasKey : SimilarityMatch → Type 0
  HasKey x = x.key ≡ k

  Some-dedup_from :
      (a : SimilarityMatch) (bs : List SimilarityMatch)
      → Some HasKey (a ∷ bs)
      → Some HasKey (dedup_from a bs)
  unfolding dedup_from
  Some-dedup_from a [] s = s
  Some-dedup_from a (b ∷ bs) s = elim (Bool-cases (bytes_eq b.key a.key)) [
    | inl same ↦
        let e : b.key ≡ a.key = eq_of_bytes_eq b.key a.key same in
        rw same (elim s [
          | inl p ↦ Some-dedup_from a bs (inl p)
          | inr (inl p) ↦ Some-dedup_from a bs (inl (sym e ∙ p))
          | inr (inr t) ↦ Some-dedup_from a bs (inr t)
        ])
    | inr other ↦ rw other (elim s [ inl p ↦ inl p | inr t ↦ inr (Some-dedup_from b bs t) ])
  ]

  Some-dedup_by_key : (bs : List SimilarityMatch) → Some HasKey bs → Some HasKey (dedup_by_key bs)
  unfolding dedup_by_key
  Some-dedup_by_key [] s = s
  Some-dedup_by_key (a ∷ bs) s = Some-dedup_from a bs s

-- Both halves of a list's facts at the element that has the second.
All-Some :
    {A : Type 0} (P Q R : A → Type 0) (xs : List A)
    → ((x : A) → P x → Q x → R x)
    → All P xs
    → Some Q xs
    → Some R xs
All-Some P Q R [] f h s = s
All-Some P Q R (x ∷ xs) f h (inl q) = inl (f x h.0 q)
All-Some P Q R (x ∷ xs) f h (inr s) = inr (All-Some P Q R xs f h.1 s)

module _ (q radius : ℕ) (candidates : List IsccMember) where
  verify-Match :
      All (Match q radius (best_of q radius candidates []) candidates) (verify q candidates radius)
  unfolding verify
  verify-Match =
      let best = best_of q radius candidates [] in
      let P = Match q radius best candidates in
      let found = matches_of q best candidates in
      All-dedup_by_key P (sort_matches found)
        (All-sort_matches P found (matches_of-Match q radius best candidates))

  -- What `verify` may return: a candidate's key and code, at their true distance, within the radius.
  pub record IsNear (x : SimilarityMatch) : Type 0 where
    pub exact : x.distance ≡ hamming q x.content_code
    pub near : x.distance ≤ radius
    pub source : Some (λ m. (m.key ≡ x.key) × (m.content_code ≡ x.content_code)) candidates

  -- Every match of `verify` has the key and the code of a candidate, the Hamming distance of that code
  -- from the query, and a distance within the radius.
  pub verify-IsNear : All IsNear (verify q candidates radius)
  verify-IsNear = All-map _ _ (verify q candidates radius) is_near verify-Match
    where
      is_near :
          (x : SimilarityMatch)
          → Match q radius (best_of q radius candidates []) candidates x
          → IsNear x
      is_near x h = record {
        exact = h.exact;
        near = elim (best_of-from q radius candidates [] x.key x.distance h.least) [
          | inl e ↦ absurd (no_best x.key x.distance e)
          | inr (low, s) ↦ low
        ];
        source = h.source;
      }

  at_most :
      (k : Bytes) (b d : ℕ)
      → best_get k (best_of q radius candidates []) ≡ some b
      → b ≤ d
      → (x : SimilarityMatch) → Match q radius (best_of q radius candidates []) candidates x
      → x.key ≡ k
      → (x.key ≡ k) × (x.distance ≤ d)
  at_most k b d e low x h same =
      let best = best_of q radius candidates [] in
      let view : some x.distance ≡ some b = sym h.least ∙ ap (λ j. best_get j best) same ∙ e in
      let equal : x.distance ≡ b = cc in (same, omega arith)

  -- Every candidate within the radius has a match of its key that is no farther.
  pub verify_complete :
      (i : ℕ) (m : IsccMember)
      → get_elem? candidates i ≡ some m
      → hamming q m.content_code ≤ radius
      → Some
          (λ x. (x.key ≡ m.key) × (x.distance ≤ hamming q m.content_code))
          (verify q candidates radius)
  unfolding verify
  verify_complete i m h near =
      let best = best_of q radius candidates [] in
      let found = matches_of q best candidates in
      let (b, e, low) = best_of-finds q radius candidates [] i m h near in
      let sources : Some (At q radius m.key b) candidates =
        elim (best_of-from q radius candidates [] m.key b e) [
          | inl e' ↦ absurd (no_best m.key b e')
          | inr (_, s) ↦ s
        ] in
      let s = matches_of-finds q radius best candidates m.key b e sources in
      let t =
        Some-dedup_by_key m.key (sort_matches found) (Some-sort_matches (HasKey m.key) found s) in
      All-Some _ _ _ (verify q candidates radius) (at_most m.key b (hamming q m.content_code) e low)
        verify-Match t
