-- ===== src/Redb.antt =====
-- The crate `redb`, which crates/registryd/src/index.rs calls, as an interface: tables sorted by
-- key, whose rows say all there is to know of them. Transactions are in RecordIndex; errors of the
-- disk are left out.
use commonsdb_iroh_service.Prelude.{
  ℕ, ◌==◌, ==_iff, ltb, ◌≡◌, refl, sym, ◌↔◌, ◌∙◌, Bool, true, false, Bool-cases, inl, inr, Option,
  none, some, List, [], ◌∷◌, arith, if◌then◌else◌,
}
use commonsdb_iroh_service.Prelude.Bytes.{Bytes, bytes_eq, bytes_le, bytes_eq_iff}

pub record Key (K : Type 0) : Type 0 where
  pub same : K → K → Bool
  pub before : K → K → Bool
  pub same_iff : (a b : K) → (same a b ≡ true) ↔ (a ≡ b)

abbrev pub number_key : Key ℕ
number_key = record { same = λ a b. a == b; before = ltb; same_iff = ==_iff }

abbrev pub text_key : Key Bytes
text_key = record { same = bytes_eq; before = bytes_le; same_iff = bytes_eq_iff }

-- What the documentation promises of a table, on its rows in the order of their keys.
module _ {K V : Type 0} (key : Key K) where
  unfoldable pub get_row : K → List (K × V) → Option V
  get_row k [] = none
  get_row k (row ∷ rows) = if key.same k row.0 then some row.1 else get_row k rows

  unfoldable pub insert_row : K → V → List (K × V) → List (K × V)
  insert_row k v [] = (k, v) ∷ []
  insert_row k v (row ∷ rows) =
      if key.same k row.0
      then (k, v) ∷ rows
      else if key.before k row.0
      then (k, v) ∷ row ∷ rows
      else row ∷ insert_row k v rows

  unfoldable pub remove_row : K → List (K × V) → List (K × V)
  remove_row k [] = []
  remove_row k (row ∷ rows) =
      if key.same k row.0 then remove_row k rows else row ∷ remove_row k rows

pub record Redb : Type 1 where
  pub Table : Type 0 → Type 0 → Type 0
  pub iter : {K V : Type 0} → Table K V → List (K × V)
  pub get : {K V : Type 0} → Key K → Table K V → K → Option V
  pub insert : {K V : Type 0} → Key K → Table K V → K → V → Table K V
  pub remove : {K V : Type 0} → Key K → Table K V → K → Table K V
  pub get_lem :
      {K V : Type 0} (key : Key K) (t : Table K V) (k : K) → get key t k ≡ get_row key k (iter t)
  pub iter-insert :
      {K V : Type 0} (key : Key K) (t : Table K V) (k : K) (v : V)
      → iter (insert key t k v) ≡ insert_row key k v (iter t)
  pub iter-remove :
      {K V : Type 0} (key : Key K) (t : Table K V) (k : K)
      → iter (remove key t k) ≡ remove_row key k (iter t)

module _ {K : Type 0} (key : Key K) where
  same_refl : (k : K) → key.same k k ≡ true
  same_refl k = (key.same_iff k k).1 refl

  get-insert_self_rows :
      {V : Type 0} (k : K) (v : V) (rows : List (K × V))
      → get_row key k (insert_row key k v rows) ≡ some v
  unfolding get_row insert_row
  get-insert_self_rows k v [] = rw (same_refl k) refl
  get-insert_self_rows k v (row ∷ rows) = ground (arith, same_refl k, get-insert_self_rows k v rows)

  differs : (j k : K) → key.same j k ≡ false → (i : K) → key.same j i ≡ true → key.same k i ≡ false
  differs j k h i p = elim (Bool-cases (key.same k i)) [
    | inl q ↦
        let e : j ≡ k = (key.same_iff j i).0 p ∙ sym ((key.same_iff k i).0 q) in
        let t : key.same j k ≡ true = (key.same_iff j k).1 e in absurd (cc)
    | inr q ↦ q
  ]

  get-insert_ne_rows :
      {V : Type 0} (j k : K) (v : V) (rows : List (K × V))
      → key.same j k ≡ false
      → get_row key j (insert_row key k v rows) ≡ get_row key j rows
  unfolding get_row insert_row
  get-insert_ne_rows j k v [] h = rw h refl
  get-insert_ne_rows j k v (row ∷ rows) h =
      ground (arith, differs j k h row.0, get-insert_ne_rows j k v rows h)

module _ (redb : Redb) {K V : Type 0} (key : Key K) where
  pub get-insert_self :
      (t : redb.Table K V) (k : K) (v : V) → redb.get key (redb.insert key t k v) k ≡ some v
  get-insert_self t k v =
      rw (redb.get_lem key (redb.insert key t k v) k, redb.iter-insert key t k v)
        (get-insert_self_rows key k v (redb.iter t))

  pub get-insert_ne :
      (t : redb.Table K V) (j k : K) (v : V)
      → key.same j k ≡ false
      → redb.get key (redb.insert key t k v) j ≡ redb.get key t j
  get-insert_ne t j k v h =
      rw
        (
          redb.get_lem key (redb.insert key t k v) j,
          redb.iter-insert key t k v,
          redb.get_lem key t j,
        )
        (get-insert_ne_rows key j k v (redb.iter t) h)
