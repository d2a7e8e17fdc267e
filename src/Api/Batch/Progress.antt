-- ===== src/Api/Batch/Progress.antt =====
-- How the phases of `submit_batch` (crates/registryd/src/api.rs) fill the positions of a batch: each has
-- its answer, or a candidate that still goes with it.
use commonsdb_iroh_service.Prelude.{
  ℕ, zero, suc, ◌<◌, ◌==◌, ==_iff, ◌≡◌, ◌≢◌, refl, ap, sym, ◌∙◌, ◌⊎◌, inl, inr, Bool-cases, some,
  List, ◌∷◌, length, set, get_elem?, length-set, get_elem?-set_self, get_elem?-set_ne,
  get_elem?_below, arith,
}
use commonsdb_iroh_service.Prelude.Bytes.{Bytes}
use commonsdb_iroh_service.Api.{RecordAnswer, queued_answer, conflict_answer, error_answer}
use commonsdb_iroh_service.Api.Batch.{Results, Candidate}

unfoldable pub answer_key : RecordAnswer → Bytes
answer_key (queued_answer key partition duplicate) = key
answer_key (conflict_answer key existing_hash) = key
answer_key (error_answer key e) = key

abbrev pub In : List Candidate → Candidate → Type 0
In candidates c = (j : ℕ) × (get_elem? candidates j ≡ some c)

-- The position has an answer that names the key.
abbrev pub IsAnswered : Results → ℕ → Bytes → Type 0
IsAnswered results i key =
    (a : RecordAnswer) × (get_elem? results i ≡ some (some a)) × (answer_key a ≡ key)

-- `waiting` says which candidates are left.
pub record Progress (keys : List Bytes) (results : Results) (waiting : Candidate → Type 0)
    : Type 0 where
  pub same_length : length results ≡ length keys
  pub sound : (c : Candidate) → waiting c → get_elem? keys c.slot ≡ some c.key
  pub covers :
      (i : ℕ) (key : Bytes)
      → get_elem? keys i ≡ some key
      → IsAnswered results i key ⊎ ((c : Candidate) × waiting c × (c.slot ≡ i))

module _ (keys : List Bytes) where
  pub Progress-map :
      (results : Results) (P Q : Candidate → Type 0)
      → ((c : Candidate) → P c → Q c)
      → ((c : Candidate) → Q c → P c)
      → Progress keys results P
      → Progress keys results Q
  Progress-map results P Q f g p = record {
    same_length = p.same_length;
    sound = λ c w. p.sound c (g c w);
    covers = λ i key e. elim (p.covers i key e) [
      | inl a ↦ inl a
      | inr (c, w, slot) ↦ inr (c, f c w, slot)
    ];
  }

  -- A candidate gets its answer.
  pub Progress-set :
      (results : Results) (P Q : Candidate → Type 0) (c : Candidate) (a : RecordAnswer)
      → P c
      → ((d : Candidate) → Q d → P d)
      → ((d : Candidate) → P d → (d ≡ c) ⊎ Q d)
      → answer_key a ≡ c.key
      → Progress keys results P
      → Progress keys (set results c.slot (some a)) Q
  Progress-set results P Q c a here back split named p = record {
    same_length = length-set results c.slot (some a) ∙ p.same_length;
    sound = λ d w. p.sound d (back d w);
    covers = λ i key e.
        let at_slot = p.sound c here in
        elim (Bool-cases (c.slot == i)) [
          | inl same ↦
              let eq : c.slot ≡ i = ground (arith, ==_iff c.slot i, same) in
              let below : c.slot < length results =
                rw (p.same_length) (get_elem?_below keys c.slot c.key at_slot) in
              let key_eq : c.key ≡ key = (let e' = (rw (sym eq) at e) in cc) in
              inl (a, rw (← eq) (get_elem?-set_self results c.slot (some a) below), named ∙ key_eq)
          | inr other ↦
              let ne : c.slot ≢ i = (λ eq. ground (arith, ==_iff c.slot i, other, eq)) in
              elim (p.covers i key e) [
                | inl (b, found, named_b) ↦
                    inl (b, get_elem?-set_ne results c.slot i (some a) ne ∙ found, named_b)
                | inr (d, w, slot) ↦ elim (split d w) [
                  | inl same ↦ absurd (ne (ap (λ (x : Candidate). x.slot) (sym same) ∙ slot))
                  | inr q ↦ inr (d, q, slot)
                ]
              ]
        ];
  }

  -- The same where `c` heads the list that is worked off.
  pub set_first :
      (results : Results) (c : Candidate) (cs : List Candidate) (E : Candidate → Type 0)
      (a : RecordAnswer)
      → answer_key a ≡ c.key
      → Progress keys results (λ d. In (c ∷ cs) d ⊎ E d)
      → Progress keys (set results c.slot (some a)) (λ d. In cs d ⊎ E d)
  set_first results c cs E a named p =
      Progress-set results (λ d. In (c ∷ cs) d ⊎ E d) (λ d. In cs d ⊎ E d) c a (inl (0, refl))
        (λ d w. elim w [ inl (j, e) ↦ inl (suc j, e) | inr x ↦ inr x ])
        (λ d w. elim w [
          | inl (zero, e) ↦ inl (cc)
          | inl (suc j, e) ↦ inr (inl (j, e))
          | inr x ↦ inr (inr x)
        ])
        named p

  -- `c` is put aside.
  pub keep_first :
      (results : Results) (c : Candidate) (cs : List Candidate) (E : Candidate → Type 0)
      → Progress keys results (λ d. In (c ∷ cs) d ⊎ E d)
      → Progress keys results (λ d. In cs d ⊎ (E d ⊎ (c ≡ d)))
  keep_first results c cs E p =
      Progress-map results _ _
        (λ d w. elim w [
          | inl (zero, e) ↦ inr (inr (cc))
          | inl (suc j, e) ↦ inl (j, e)
          | inr x ↦ inr (inl x)
        ])
        (λ d w. elim w [
          | inl (j, e) ↦ inl (suc j, e)
          | inr (inl x) ↦ inr x
          | inr (inr e) ↦ inl (0, ap some e)
        ])
        p

  -- What was put aside stands in front of the rest.
  pub aside_first :
      (results : Results) (c : Candidate) (kept : List Candidate) (E : Candidate → Type 0)
      → Progress keys results (λ d. In kept d ⊎ (E d ⊎ (c ≡ d)))
      → Progress keys results (λ d. In (c ∷ kept) d ⊎ E d)
  aside_first results c kept E p =
      Progress-map results _ _
        (λ d w. elim w [
          | inl (j, e) ↦ inl (suc j, e)
          | inr (inl x) ↦ inr x
          | inr (inr e) ↦ inl (0, ap some e)
        ])
        (λ d w. elim w [
          | inl (zero, e) ↦ inr (inr (cc))
          | inl (suc j, e) ↦ inl (j, e)
          | inr x ↦ inr (inl x)
        ])
        p
