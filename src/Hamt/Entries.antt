-- ===== src/Hamt/Entries.antt =====
-- `find` and `sort_by_key` on the entries of a leaf (crates/registry-core/src/hamt.rs).
use commonsdb_iroh_service.Prelude.{
  ◌∙◌, suc, ◌≡◌, ◌≢◌, refl, true, Bool-cases, inl, inr, none, some, or_else, List, [], ◌∷◌, ◌++◌,
  length, All, arith,
}
use commonsdb_iroh_service.Prelude.Bytes.{
  Bytes, bytes_eq, bytes_le, eq_of_bytes_eq, bytes_le_refl, bytes_le_total, bytes_le_trans,
}
use commonsdb_iroh_service.Record.{LeafEntry}
use commonsdb_iroh_service.Hamt.{find, insert_sorted, sort_by_key}

pub find-append :
    (k : Bytes) (xs ys : List LeafEntry) → find k (xs ++ ys) ≡ or_else (find k xs) (find k ys)
unfolding find or_else
find-append k [] ys = refl
find-append k (e ∷ xs) ys = ground (arith, find-append k xs ys)

-- `find` returns an entry of the key that it was asked for.
pub find-key : (k : Bytes) (xs : List LeafEntry) (e : LeafEntry) → find k xs ≡ some e → e.key ≡ k
unfolding find
find-key k [] e h = cc
find-key k (f ∷ xs) e h = elim (Bool-cases (bytes_eq f.key k)) [
  | inl same ↦
      let found : some f ≡ some e = rw same at h in ground (arith, eq_of_bytes_eq f.key k same)
  | inr other ↦ find-key k xs e (rw other at h)
]

-- Where no entry has the key, nothing is found.
pub find-eq-none : (k : Bytes) (xs : List LeafEntry) → All (λ e. e.key ≢ k) xs → find k xs ≡ none
unfolding find
find-eq-none k [] h = refl
find-eq-none k (e ∷ xs) h = elim (Bool-cases (bytes_eq e.key k)) [
  | inl same ↦ absurd (h.0 (eq_of_bytes_eq e.key k same))
  | inr other ↦ rw other (find-eq-none k xs h.1)
]

le_of_same_key : (a b k : Bytes) → bytes_eq a k ≡ true → bytes_eq b k ≡ true → bytes_le a b ≡ true
le_of_same_key a b k p q =
    let e : a ≡ k = eq_of_bytes_eq a k p in
    let f : b ≡ k = eq_of_bytes_eq b k q in rw (e, f) (bytes_le_refl k)

-- The sort is stable, so it does not change which entry of a key comes first.
find-insert_sorted :
    (k : Bytes) (e : LeafEntry) (xs : List LeafEntry)
    → find k (insert_sorted e xs) ≡ find k (e ∷ xs)
unfolding find insert_sorted
find-insert_sorted k e [] = refl
find-insert_sorted k e (f ∷ xs) =
    ground (arith, find-insert_sorted k e xs, le_of_same_key e.key f.key k)

find-cons :
    (k : Bytes) (e : LeafEntry) (xs ys : List LeafEntry)
    → find k xs ≡ find k ys
    → find k (e ∷ xs) ≡ find k (e ∷ ys)
unfolding find
find-cons k e xs ys h = rw h

pub find-sort_by_key : (k : Bytes) (xs : List LeafEntry) → find k (sort_by_key xs) ≡ find k xs
unfolding sort_by_key
find-sort_by_key k [] = refl
find-sort_by_key k (e ∷ xs) =
    find-insert_sorted k e (sort_by_key xs)
    ∙ find-cons k e (sort_by_key xs) xs (find-sort_by_key k xs)

length-insert_sorted :
    (e : LeafEntry) (xs : List LeafEntry) → length (insert_sorted e xs) ≡ suc (length xs)
unfolding insert_sorted
length-insert_sorted e [] = refl
length-insert_sorted e (f ∷ xs) = ground (arith, length-insert_sorted e xs)

pub length-sort_by_key : (xs : List LeafEntry) → length (sort_by_key xs) ≡ length xs
unfolding sort_by_key
length-sort_by_key [] = refl
length-sort_by_key (e ∷ xs) =
    omega (arith, length-insert_sorted e (sort_by_key xs), length-sort_by_key xs)

module _ {ℓ} (P : LeafEntry → Type ℓ) where
  All-insert_sorted :
      (e : LeafEntry) (xs : List LeafEntry) → P e → All P xs → All P (insert_sorted e xs)
  unfolding insert_sorted
  All-insert_sorted e [] p h = (p, h)
  All-insert_sorted e (f ∷ xs) p h = elim (Bool-cases (bytes_le e.key f.key)) [
    | inl le ↦ rw le (p, h)
    | inr gt ↦ rw gt (h.0, All-insert_sorted e xs p h.1)
  ]

  pub All-sort_by_key : (xs : List LeafEntry) → All P xs → All P (sort_by_key xs)
  unfolding sort_by_key
  All-sort_by_key [] h = h
  All-sort_by_key (e ∷ xs) h = All-insert_sorted e (sort_by_key xs) h.0 (All-sort_by_key xs h.1)

-- Each key is at most every later one.
abbrev pub IsSorted : List LeafEntry → Type 0
IsSorted [] = Unit
IsSorted (e ∷ xs) = All (λ f. bytes_le e.key f.key ≡ true) xs × IsSorted xs

All-below :
    (a b : Bytes) (xs : List LeafEntry)
    → bytes_le a b ≡ true
    → All (λ f. bytes_le b f.key ≡ true) xs
    → All (λ f. bytes_le a f.key ≡ true) xs
All-below a b [] h k = k
All-below a b (f ∷ xs) h k = (bytes_le_trans a b f.key h k.0, All-below a b xs h k.1)

insert_sorted-IsSorted :
    (e : LeafEntry) (xs : List LeafEntry) → IsSorted xs → IsSorted (insert_sorted e xs)
unfolding insert_sorted
insert_sorted-IsSorted e [] h = (tt, tt)
insert_sorted-IsSorted e (f ∷ xs) h = elim (Bool-cases (bytes_le e.key f.key)) [
  | inl le ↦ rw le ((le, All-below e.key f.key xs le h.0), h)
  | inr gt ↦ rw gt (
    All-insert_sorted (λ g. bytes_le f.key g.key ≡ true) e xs (bytes_le_total e.key f.key gt) h.0,
    insert_sorted-IsSorted e xs h.1,
  )
]

pub sort_by_key-IsSorted : (xs : List LeafEntry) → IsSorted (sort_by_key xs)
unfolding sort_by_key
sort_by_key-IsSorted [] = tt
sort_by_key-IsSorted (e ∷ xs) = insert_sorted-IsSorted e (sort_by_key xs) (sort_by_key-IsSorted xs)
