-- ===== src/BulkLoad/Spills.antt =====
-- What the loop of `flush_batch` (crates/registryd/src/bulk_load.rs) adds to its plan.
use mathlib.Core.List.{append-nil, append_assoc}
use commonsdb_iroh_service.Prelude.{
  ℕ, zero, suc, ◌<◌, ◌==◌, ==_iff, ◌≡◌, ◌≢◌, refl, ap, sym, ◌∙◌, inl, inr, Bool-cases, Option-cases,
  Option, none, some, List, [], ◌∷◌, ◌++◌, map, length, set, get_elem?, length-set,
  get_elem?-set_self, get_elem?-set_ne, All, arith, if◌then◌else◌,
}
use commonsdb_iroh_service.Prelude.Bytes.{Bytes, bytes_eq}
use commonsdb_iroh_service.External.{EntryJson}
use commonsdb_iroh_service.RecordIndex.{IndexRecord, leaf_entry}
use commonsdb_iroh_service.RecordIndex.Scan.{append_to, write_to}
use commonsdb_iroh_service.RecordIndex.Records.{Records}
use commonsdb_iroh_service.Exec.{ok}
use commonsdb_iroh_service.BulkLoad.{Line, Plan, entry_record, planned, plan_lines}
use commonsdb_iroh_service.BulkLoad.LastWins.{fresh_pairs}

-- The record that is bound to a key, or else the line's own.
abbrev pub bound_or : Option IndexRecord → IndexRecord → IndexRecord
bound_or none r = r
bound_or (some prior) r = prior

-- The line of a spill file for a key and its record.
abbrev pub spilled_line : EntryJson → Bytes → IndexRecord → Bytes
spilled_line json_text key r =
    json_text.to_json record {
      key = key;
      hash = r.content_hash;
      size = r.size;
      added_at = r.created_at;
      content_code = r.content_code;
    }
    ++ 10 ∷ []

-- What the batch adds to the spill file of a partition: one line for each line of the dump that belongs
-- there, made of the index's own record where it has one.
unfoldable pub spilled_to : EntryJson → Records → ℕ → List Line → Bytes
spilled_to json_text A p [] = []
spilled_to json_text A p (l ∷ batch) =
    let r = bound_or (A l.key) l.record_ in
    let rest = spilled_to json_text A p batch in
    if r.partition_id == p then spilled_line json_text l.key r ++ rest else rest

-- The values that go into the blob store: of the new keys, and of the keys whose record has the same
-- content hash.
abbrev pub stored_value : Line → Option IndexRecord → List Bytes
stored_value l none = l.value ∷ []
stored_value l (some prior) =
    if bytes_eq prior.content_hash l.record_.content_hash then l.value ∷ [] else []

abbrev pub stored_values : Records → List Line → List Bytes
stored_values A [] = []
stored_values A (l ∷ batch) = stored_value l (A l.key) ++ stored_values A batch

abbrev pub values_of : List (Bytes × IndexRecord) → List Bytes
values_of [] = []
values_of (put ∷ puts) = put.0 ∷ values_of puts

values_of-append :
    (xs ys : List (Bytes × IndexRecord)) → values_of (xs ++ ys) ≡ values_of xs ++ values_of ys
values_of-append [] ys = refl
values_of-append (x ∷ xs) ys = ap (λ l. x.0 ∷ l) (values_of-append xs ys)

planned-spills :
    (l : Line) (known : Option IndexRecord) (spills : List Bytes) (p : Plan)
    → (planned l known spills p).spills ≡ spills
unfolding planned
planned-spills l none spills p = refl
planned-spills l (some prior) spills p =
    elim (Bool-cases (bytes_eq prior.content_hash l.record_.content_hash)) [
      | inl e ↦ rw e refl
      | inr e ↦ rw e refl
    ]

abbrev fresh_pair : Line → Option IndexRecord → List (Bytes × IndexRecord)
fresh_pair l none = (l.key, l.record_) ∷ []
fresh_pair l (some prior) = []

planned-to_insert :
    (l : Line) (known : Option IndexRecord) (spills : List Bytes) (p : Plan)
    → (planned l known spills p).to_insert ≡ p.to_insert ++ fresh_pair l known
unfolding planned
planned-to_insert l none spills p = refl
planned-to_insert l (some prior) spills p =
    elim (Bool-cases (bytes_eq prior.content_hash l.record_.content_hash)) [
      | inl e ↦ rw e (sym (append-nil p.to_insert))
      | inr e ↦ rw e (sym (append-nil p.to_insert))
    ]

planned-to_put :
    (l : Line) (known : Option IndexRecord) (spills : List Bytes) (p : Plan)
    → values_of (planned l known spills p).to_put ≡ values_of p.to_put ++ stored_value l known
unfolding planned
planned-to_put l none spills p = values_of-append p.to_put ((l.value, l.record_) ∷ [])
planned-to_put l (some prior) spills p =
    elim (Bool-cases (bytes_eq prior.content_hash l.record_.content_hash)) [
      | inl e ↦ rw e (values_of-append p.to_put ((l.value, prior) ∷ []))
      | inr e ↦ rw e (sym (append-nil (values_of p.to_put)))
    ]

fresh_pairs-cons :
    (A : Records) (l : Line) (batch : List Line)
    → fresh_pairs A (l ∷ batch) ≡ fresh_pair l (A l.key) ++ fresh_pairs A batch
unfolding fresh_pairs
fresh_pairs-cons A l batch = elim (Option-cases (A l.key)) [
  | inl e ↦ rw (fresh_pairs, e) refl
  | inr (prior, e) ↦ rw (fresh_pairs, e) refl
]

file_there :
    (files : List Bytes) (i : ℕ)
    → i < length files
    → (file : Bytes) × (get_elem? files i ≡ some file)
file_there [] i h = elim h [ ]
file_there (file ∷ files) zero h = (file, refl)
file_there (x ∷ files) (suc i) h = file_there files i (omega arith)

module _ (json_text : EntryJson) (A : Records) where
  -- What the loop over the batch has added to the plan.
  pub record Planned (batch : List Line) (p p' : Plan) : Type 0 where
    pub inserted : p'.to_insert ≡ p.to_insert ++ fresh_pairs A batch
    pub put : values_of p'.to_put ≡ values_of p.to_put ++ stored_values A batch
    pub files : length p'.spills ≡ length p.spills
    pub spilled :
        (q : ℕ) (file : Bytes)
        → get_elem? p.spills q ≡ some file
        → get_elem? p'.spills q ≡ some (file ++ spilled_to json_text A q batch)

  -- Every line's spill file is there.
  abbrev pub HasFiles : List Line → ℕ → Type 0
  HasFiles batch n = All (λ (l : Line). (bound_or (A l.key) l.record_).partition_id < n) batch

  spill_one :
      (spills : List Bytes) (l : Line) (batch : List Line) (q : ℕ) (file here : Bytes)
      → (let r = bound_or (A l.key) l.record_ in
          (get_elem? spills r.partition_id ≡ some here)
          → (r.partition_id < length spills)
          → (get_elem? spills q ≡ some file)
          → (text : Bytes) × (get_elem?
                (set spills r.partition_id (here ++ spilled_line json_text l.key r))
                q
              ≡ some text)
            × (text ++ spilled_to json_text A q batch
                ≡ file ++ spilled_to json_text A q (l ∷ batch)))
  unfolding spilled_to
  spill_one spills l batch q file here at_here below at_q =
      let r = bound_or (A l.key) l.record_ in
      let line = spilled_line json_text l.key r in
      elim (Bool-cases (r.partition_id == q)) [
        | inl e ↦
            let eq : r.partition_id ≡ q = ground (arith, ==_iff r.partition_id q, e) in
            let same : here ≡ file = (let h = (rw eq at at_here) in cc) in
            (
              here ++ line,
              rw (← eq) (get_elem?-set_self spills r.partition_id (here ++ line) below),
              rw (e, same) (append_assoc file line (spilled_to json_text A q batch)),
            )
        | inr e ↦
            let ne : r.partition_id ≢ q = (λ eq. ground (arith, ==_iff r.partition_id q, e, eq)) in
            (file, get_elem?-set_ne spills r.partition_id q (here ++ line) ne ∙ at_q, rw e refl)
      ]

  plan_step :
      (known : Option IndexRecord) (l : Line) (batch : List Line)
      (existing : List (Option IndexRecord)) (p : Plan) (here : Bytes)
      → (let r = bound_or known l.record_ in
          (get_elem? p.spills r.partition_id ≡ some here)
          → plan_lines json_text (l ∷ batch) (known ∷ existing) p
            ≡ plan_lines json_text batch existing (
                planned l known
                  (set p.spills r.partition_id (here ++ spilled_line json_text l.key r))
                  p))
  unfolding plan_lines write_to append_to entry_record leaf_entry
  plan_step none l batch existing p here e = rw e refl
  plan_step (some prior) l batch existing p here e = rw e refl

  pub plan_lines-Planned :
      (batch : List Line) (p : Plan)
      → HasFiles batch (length p.spills)
      → (p' : Plan) × (plan_lines json_text batch (map (λ (l : Line). A l.key) batch) p ≡ ok p')
        × Planned batch p p'
  unfolding plan_lines write_to append_to fresh_pairs spilled_to
  plan_lines-Planned [] p h = (
    p,
    refl,
    record {
      inserted = sym (append-nil p.to_insert);
      put = sym (append-nil (values_of p.to_put));
      files = refl;
      spilled = λ q file e. e ∙ ap some (sym (append-nil file));
    },
  )
  plan_lines-Planned (l ∷ batch) p h =
      let r = bound_or (A l.key) l.record_ in
      let (here, at_here) = file_there p.spills r.partition_id h.0 in
      let spills = set p.spills r.partition_id (here ++ spilled_line json_text l.key r) in
      let next = planned l (A l.key) spills p in
      let same : next.spills ≡ spills = planned-spills l (A l.key) spills p in
      let same_length : length next.spills ≡ length p.spills =
        ap length same ∙ length-set p.spills r.partition_id _ in
      let (p', run, d) = plan_lines-Planned batch next (rw same_length h.1) in
      (
        p',
        plan_step (A l.key) l batch (map (λ (l : Line). A l.key) batch) p here at_here ∙ run,
        record {
          inserted =
              d.inserted
              ∙ ap (λ x. x ++ fresh_pairs A batch) (planned-to_insert l (A l.key) spills p)
              ∙ append_assoc p.to_insert (fresh_pair l (A l.key)) (fresh_pairs A batch)
              ∙ ap (λ x. p.to_insert ++ x) (sym (fresh_pairs-cons A l batch));
          put =
              d.put
              ∙ ap (λ x. x ++ stored_values A batch) (planned-to_put l (A l.key) spills p)
              ∙ append_assoc (values_of p.to_put) (stored_value l (A l.key))
                  (stored_values A batch);
          files = d.files ∙ same_length;
          spilled = λ q file e.
              let (text, there, joined) = spill_one p.spills l batch q file here at_here h.0 e in
              d.spilled q text (rw same there) ∙ ap some joined;
        },
      )
