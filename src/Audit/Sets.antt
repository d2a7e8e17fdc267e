-- ===== src/Audit/Sets.antt =====
-- The sets of keys that crates/registryd/src/verify.rs compares, as lists without repetitions.
use commonsdb_iroh_service.Prelude.{
  ◌≤◌, ◌≡◌, refl, sym, ap, ◌∙◌, Bool, true, false, ◌&&◌, not, Bool-cases, inl, inr, List, [], ◌∷◌,
  length, arith,
}
use commonsdb_iroh_service.Prelude.Bytes.{Bytes, bytes_eq, bytes_eq_refl, eq_of_bytes_eq}
use commonsdb_iroh_service.Hamt.{contains}
use commonsdb_iroh_service.Audit.{key_set, without}

-- No key is there twice.
abbrev pub IsDistinct : List Bytes → Type 0
IsDistinct [] = Unit
IsDistinct (key ∷ keys) = (contains keys key ≡ false) × IsDistinct keys

-- `set` has the keys of `keys`, each once.
pub record IsSetOf (keys set : List Bytes) : Type 0 where
  pub members : (k : Bytes) → contains set k ≡ contains keys k
  pub distinct : IsDistinct set

-- `rest` has the keys of `keys` that are not in `present`, each once.
pub record IsDifference (keys present rest : List Bytes) : Type 0 where
  pub members : (k : Bytes) → contains rest k ≡ (contains keys k && not (contains present k))
  pub distinct : IsDistinct rest

contains_same :
    (xs : List Bytes) (x k : Bytes) → bytes_eq x k ≡ true → contains xs k ≡ contains xs x
contains_same xs x k same = sym (ap (contains xs) (eq_of_bytes_eq x k same))

contains-key_set :
    (seen keys : List Bytes) (k : Bytes)
    → contains (key_set seen keys) k ≡ (contains keys k && not (contains seen k))
unfolding key_set contains
contains-key_set seen [] k = refl
contains-key_set seen (x ∷ keys) k = elim (Bool-cases (contains seen x)) [
  | inl old ↦ elim (Bool-cases (bytes_eq x k)) [
    | inl same ↦
        let gone : contains seen k ≡ true = contains_same seen x k same ∙ old in
        rw (key_set, old)
          (let rest = contains-key_set seen keys k in ground (arith, rest, same, gone))
    | inr other ↦
        rw (key_set, old) (let rest = contains-key_set seen keys k in ground (arith, rest, other))
  ]
  | inr new ↦ elim (Bool-cases (bytes_eq x k)) [
    | inl same ↦
        let absent : contains seen k ≡ false = contains_same seen x k same ∙ new in
        rw (key_set, new) (ground (arith, same, absent))
    | inr other ↦
        rw (key_set, new)
          (let rest = contains-key_set (x ∷ seen) keys k in ground (arith, rest, other))
  ]
]

key_set-IsDistinct : (seen keys : List Bytes) → IsDistinct (key_set seen keys)
unfolding key_set contains
key_set-IsDistinct seen [] = tt
key_set-IsDistinct seen (x ∷ keys) = elim (Bool-cases (contains seen x)) [
  | inl old ↦ rw (key_set, old) (key_set-IsDistinct seen keys)
  | inr new ↦
      let rest = contains-key_set (x ∷ seen) keys x in
      let self = bytes_eq_refl x in
      rw (key_set, new) ((ground (arith, rest, self)), key_set-IsDistinct (x ∷ seen) keys)
]

and_true : (b : Bool) → (b && true) ≡ b
and_true true = refl
and_true false = refl

pub key_set-IsSetOf : (keys : List Bytes) → IsSetOf keys (key_set [] keys)
unfolding contains
key_set-IsSetOf keys = record {
  members = λ k. contains-key_set [] keys k ∙ and_true (contains keys k);
  distinct = key_set-IsDistinct [] keys;
}

contains-without :
    (keys present : List Bytes) (k : Bytes)
    → contains (without keys present) k ≡ (contains keys k && not (contains present k))
unfolding without contains
contains-without [] present k = refl
contains-without (x ∷ keys) present k =
    let rest = contains-without keys present k in
    elim (Bool-cases (contains present x)) [
      | inl old ↦ elim (Bool-cases (bytes_eq x k)) [
        | inl same ↦
            let gone : contains present k ≡ true = contains_same present x k same ∙ old in
            rw old (ground (arith, rest, same, gone))
        | inr other ↦ rw old (ground (arith, rest, other))
      ]
      | inr new ↦ elim (Bool-cases (bytes_eq x k)) [
        | inl same ↦
            let absent : contains present k ≡ false = contains_same present x k same ∙ new in
            rw new (ground (arith, same, absent))
        | inr other ↦ rw new (ground (arith, rest, other))
      ]
    ]

without-IsDistinct :
    (keys present : List Bytes) → IsDistinct keys → IsDistinct (without keys present)
unfolding without
without-IsDistinct [] present d = tt
without-IsDistinct (x ∷ keys) present d = elim (Bool-cases (contains present x)) [
  | inl old ↦ rw old (without-IsDistinct keys present d.1)
  | inr new ↦ rw new (
    (let rest = contains-without keys present x in ground (arith, rest, d.0)),
    without-IsDistinct keys present d.1,
  )
]

pub without-IsDifference :
    (keys present : List Bytes) → IsDistinct keys → IsDifference keys present (without keys present)
without-IsDifference keys present d = record {
  members = contains-without keys present;
  distinct = without-IsDistinct keys present d;
}

pub length-key_set : (seen keys : List Bytes) → length (key_set seen keys) ≤ length keys
unfolding key_set
length-key_set seen [] = omega arith
length-key_set seen (x ∷ keys) = elim (Bool-cases (contains seen x)) [
  | inl old ↦ rw (key_set, old) (let rest = length-key_set seen keys in omega arith)
  | inr new ↦ rw (key_set, new) (let rest = length-key_set (x ∷ seen) keys in omega arith)
]

pub length-without : (keys present : List Bytes) → length (without keys present) ≤ length keys
unfolding without
length-without [] present = omega arith
length-without (x ∷ keys) present =
    let rest = length-without keys present in
    elim (Bool-cases (contains present x)) [
      | inl old ↦ rw old (omega arith)
      | inr new ↦ rw new (omega arith)
    ]
