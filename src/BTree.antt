-- ===== src/BTree.antt =====
-- A `BTreeMap` keyed by strings, an association list in the order of the keys. It stands for the maps of
-- crates/registry-core/src/iscc_store.rs.
use commonsdb_iroh_service.Prelude.{
  ◌≡◌, ◌≢◌, refl, sym, ◌∙◌, Option, none, some, List, [], ◌∷◌, if◌then◌else◌, Bool, true, false,
  ◌&&◌, not, All, All-map, arith, Bool-cases, inl, inr,
}
use commonsdb_iroh_service.Prelude.Bytes.{
  Bytes, bytes_eq, bytes_le, bytes_eq_refl, bytes_eq_iff, eq_of_bytes_eq, bytes_le_trans,
  bytes_le_refl, bytes_le_total, bytes_le_antisym,
}

-- `BTreeMap::get`
unfoldable pub tree_get {ℓ} : {V : Type ℓ} → Bytes → List (Bytes × V) → Option V
tree_get key [] = none
tree_get key (row ∷ rows) = if bytes_eq key row.0 then some row.1 else tree_get key rows

-- `BTreeMap::insert`
unfoldable pub tree_insert {ℓ} : {V : Type ℓ} → Bytes → V → List (Bytes × V) → List (Bytes × V)
tree_insert key v [] = (key, v) ∷ []
tree_insert key v (row ∷ rows) =
    if bytes_eq key row.0
    then (key, v) ∷ rows
    else if bytes_le key row.0
    then (key, v) ∷ row ∷ rows
    else row ∷ tree_insert key v rows

unfoldable pub bytes_lt : Bytes → Bytes → Bool
bytes_lt a b = bytes_le a b && not (bytes_eq a b)

-- The keys increase, as in every `BTreeMap`.
abbrev pub IsMap {ℓ} : {V : Type ℓ} → List (Bytes × V) → Type ℓ
IsMap [] = Unit
IsMap (row ∷ rows) = All (λ other. bytes_lt row.0 other.0 ≡ true) rows × IsMap rows

bytes_lt_trans : (a b c : Bytes) → bytes_lt a b ≡ true → bytes_lt b c ≡ true → bytes_lt a c ≡ true
unfolding bytes_lt
bytes_lt_trans a b c h k = elim (Bool-cases (bytes_eq a c)) [
  | inl e ↦
      let back : bytes_lt b a ≡ true = (rw (sym (eq_of_bytes_eq a c e)) at k) in
      absurd (ground (arith, h, back, bytes_le_antisym a b))
  | inr e ↦ ground (arith, h, k, e, bytes_le_trans a b c)
]

lt_of_le_ne : (a b : Bytes) → bytes_le a b ≡ true → bytes_eq a b ≡ false → bytes_lt a b ≡ true
unfolding bytes_lt
lt_of_le_ne a b h k = ground (arith, h, k)

lt_of_not_le : (a b : Bytes) → bytes_le a b ≡ false → bytes_lt b a ≡ true
unfolding bytes_lt
lt_of_not_le a b h = elim (Bool-cases (bytes_eq b a)) [
  | inl e ↦
      let le : bytes_le a a ≡ false = (rw (eq_of_bytes_eq b a e) at h) in
      absurd (ground (arith, le, bytes_le_refl a))
  | inr e ↦ ground (arith, e, bytes_le_total a b h)
]

module _ {ℓ} {V : Type ℓ} where
  pub get_here :
      (row : Bytes × V) (rows : List (Bytes × V)) → tree_get row.0 (row ∷ rows) ≡ some row.1
  unfolding tree_get
  get_here row rows = rw (bytes_eq_refl row.0) refl

  pub get_there :
      (key : Bytes) (row : Bytes × V) (rows : List (Bytes × V))
      → bytes_eq key row.0 ≡ false
      → tree_get key (row ∷ rows) ≡ tree_get key rows
  unfolding tree_get
  get_there key row rows other = rw other refl

  pub get-insert_self :
      (key : Bytes) (v : V) (rows : List (Bytes × V))
      → tree_get key (tree_insert key v rows) ≡ some v
  unfolding tree_get tree_insert
  get-insert_self key v [] = rw (bytes_eq_refl key) refl
  get-insert_self key v (row ∷ rows) = ground (arith, bytes_eq_refl key, get-insert_self key v rows)

  pub get-insert_ne :
      (key other : Bytes) (v : V) (rows : List (Bytes × V))
      → other ≢ key
      → tree_get other (tree_insert key v rows) ≡ tree_get other rows
  unfolding tree_get tree_insert
  get-insert_ne key other v [] ne = ground (arith, bytes_eq_iff other key)
  get-insert_ne key other v (row ∷ rows) ne = ground (
    arith,
    bytes_eq_iff other key,
    bytes_eq_iff key row.0,
    bytes_eq_iff other row.0,
    get-insert_ne key other v rows ne,
  )

  All-tree_insert :
      (P : Bytes → Type 0) (key : Bytes) (v : V) (rows : List (Bytes × V))
      → P key
      → All (λ row. P row.0) rows
      → All (λ row. P row.0) (tree_insert key v rows)
  unfolding tree_insert
  All-tree_insert P key v [] p h = (p, tt)
  All-tree_insert P key v (row ∷ rows) p h =
      let rest = All-tree_insert P key v rows p h.1 in
      elim (Bool-cases (bytes_eq key row.0)) [
        | inl same ↦ rw same (p, h.1)
        | inr other ↦ elim (Bool-cases (bytes_le key row.0)) [
          | inl before ↦ rw (other, before) (p, h)
          | inr behind ↦ rw (other, behind) (h.0, rest)
        ]
      ]

  pub tree_insert-IsMap :
      (key : Bytes) (v : V) (rows : List (Bytes × V)) → IsMap rows → IsMap (tree_insert key v rows)
  unfolding tree_insert
  tree_insert-IsMap key v [] h = (tt, tt)
  tree_insert-IsMap key v (row ∷ rows) h =
      let rest = tree_insert-IsMap key v rows h.1 in
      elim (Bool-cases (bytes_eq key row.0)) [
        | inl same ↦ rw (same, eq_of_bytes_eq key row.0 same) h
        | inr other ↦ elim (Bool-cases (bytes_le key row.0)) [
          | inl before ↦
              let less : bytes_lt key row.0 ≡ true = lt_of_le_ne key row.0 before other in
              rw (other, before)
                ((less, All-map _ _ rows (λ o. bytes_lt_trans key row.0 o.0 less) h.0), h)
          | inr behind ↦
              rw (other, behind)
                (
                  All-tree_insert (λ k. bytes_lt row.0 k ≡ true) key v rows
                      (lt_of_not_le key row.0 behind) h.0,
                  rest,
                )
        ]
      ]

  pub get-IsMap_head :
      (key : Bytes) (rows : List (Bytes × V))
      → All (λ other. bytes_lt key other.0 ≡ true) rows
      → tree_get key rows ≡ none
  unfolding tree_get bytes_lt
  get-IsMap_head key [] h = refl
  get-IsMap_head key (row ∷ rows) h = ground (arith, get-IsMap_head key rows h.1, h.0)

  pub get_behind :
      (key : Bytes) (row : Bytes × V) (rows : List (Bytes × V)) (v : V)
      → IsMap (row ∷ rows)
      → tree_get key rows ≡ some v
      → tree_get key (row ∷ rows) ≡ some v
  get_behind key row rows v m h = elim (Bool-cases (bytes_eq key row.0)) [
    | inl same ↦
        let missing : tree_get key rows ≡ none =
          (rw (eq_of_bytes_eq key row.0 same) (get-IsMap_head row.0 rows m.0)) in
        absurd (cc)
    | inr other ↦ get_there key row rows other ∙ h
  ]
