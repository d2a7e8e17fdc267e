-- ===== src/RecordIndex/Claims.antt =====
-- What the loop of `submit_many` (crates/registryd/src/index.rs) leaves behind.
use commonsdb_iroh_service.Prelude.{
  ℕ, zero, suc, ◌+◌, ◌<◌, ◌^◌, ◌%◌, ◌≡◌, ◌∙◌, refl, ap, Option, none, some, or_else, Bool-cases,
  Option-cases, inl, inr, true, List, [], ◌∷◌, ◌++◌, All, All-append, All-map, length, take,
  get_elem?, arith,
}
use mathlib.Core.Option
use commonsdb_iroh_service.Prelude.Bytes.{Bytes, bytes_eq, eq_of_bytes_eq}
use commonsdb_iroh_service.Exec.{ok}
use commonsdb_iroh_service.Redb.{Redb, number_key, insert_row}
use commonsdb_iroh_service.RecordIndex.{
  IndexRecord, RecordJson, SubmitOutcome, outcome, next_u64, write_record, claim_loop,
}
use commonsdb_iroh_service.RecordIndex.Records.{Records, updated, first, Reads, write_record-Reads}

-- The keys of a batch that the index does not have, each at its first occurrence.
unfoldable pub fresh : Records → List (Bytes × IndexRecord) → List Bytes
fresh A [] = []
fresh A ((key, r) ∷ submissions) = elim (A key) [
  | some _ ↦ fresh A submissions
  | none ↦ key ∷ fresh (updated key r A) submissions
]

unfoldable pub numbered : ℕ → List Bytes → List (ℕ × Bytes)
numbered seq [] = []
numbered seq (key ∷ keys) = (seq, key) ∷ numbered (suc seq) keys

-- The outcome of each submission, from the records before and from the submissions in front of it.
abbrev pub outcome_at : Records → List (Bytes × IndexRecord) → ℕ → Option SubmitOutcome
outcome_at A submissions i =
    Option.map (λ s. outcome (or_else (A s.0) (first s.0 (take i submissions))) s.1)
      (get_elem? submissions i)

map_ext :
    {X Y : Type 0} (f g : X → Y) (o : Option X)
    → ((x : X) → f x ≡ g x)
    → Option.map f o ≡ Option.map g o
map_ext f g none h = refl
map_ext f g (some x) h = ap some (h x)

same_view : (A : Records) (j k : Bytes) → bytes_eq j k ≡ true → A j ≡ A k
same_view A j k same = ap A (eq_of_bytes_eq j k same)

module _ (A : Records) (k : Bytes) (r : IndexRecord) (submissions : List (Bytes × IndexRecord))
    (j : Bytes) where
  after_claim :
      A k ≡ none
      → or_else (updated k r A j) (first j submissions)
        ≡ or_else (A j) (first j ((k, r) ∷ submissions))
  unfolding first or_else
  after_claim h = elim (Bool-cases (bytes_eq j k)) [
    | inl same ↦ rw (same, same_view A j k same, h) refl
    | inr other ↦ rw other refl
  ]

  after_repeat :
      (old : IndexRecord)
      → A k ≡ some old
      → or_else (A j) (first j submissions) ≡ or_else (A j) (first j ((k, r) ∷ submissions))
  unfolding first or_else
  after_repeat old h = elim (Bool-cases (bytes_eq j k)) [
    | inl same ↦ rw (same, same_view A j k same, h) refl
    | inr other ↦ rw other refl
  ]

pub insert_row-append :
    (seq : ℕ) (key : Bytes) (rows : List (ℕ × Bytes))
    → All (λ row. row.0 < seq) rows
    → insert_row number_key seq key rows ≡ rows ++ (seq, key) ∷ []
unfolding insert_row
insert_row-append seq key [] h = refl
insert_row-append seq key (row ∷ rows) h = ground (arith, insert_row-append seq key rows h.1, h.0)

pub append_assoc :
    {X : Type 0} (xs : List X) (y : X) (zs : List X) → (xs ++ y ∷ []) ++ zs ≡ xs ++ y ∷ zs
append_assoc [] y zs = refl
append_assoc (x ∷ xs) y zs = ap (λ l. x ∷ l) (append_assoc xs y zs)

module _ (A : Records) (k : Bytes) (r : IndexRecord)
    (submissions : List (Bytes × IndexRecord)) where
  fresh-cons_old :
      (old : IndexRecord) → A k ≡ some old → fresh A ((k, r) ∷ submissions) ≡ fresh A submissions
  unfolding fresh
  fresh-cons_old old e = rw (fresh, e) refl

  fresh-cons_new :
      A k ≡ none → fresh A ((k, r) ∷ submissions) ≡ k ∷ fresh (updated k r A) submissions
  unfolding fresh
  fresh-cons_new e = rw (fresh, e) refl

-- The outcomes behind a submission whose key was new, and behind one whose key was not.
module _ (A : Records) (k : Bytes) (r : IndexRecord) (submissions : List (Bytes × IndexRecord))
    (outcomes : List SubmitOutcome) where
  positions_new :
      A k ≡ none
      → ((i : ℕ) → get_elem? outcomes i ≡ outcome_at (updated k r A) submissions i)
      → (i : ℕ) → get_elem? (outcome none r ∷ outcomes) i ≡ outcome_at A ((k, r) ∷ submissions) i
  unfolding or_else first
  positions_new e h zero = rw e refl
  positions_new e h (suc i) =
      h i
      ∙ map_ext _ _ (get_elem? submissions i)
          λ s. ap (λ o. outcome o s.1) (after_claim A k r (take i submissions) s.0 e)

  positions_old :
      (old : IndexRecord)
      → A k ≡ some old
      → ((i : ℕ) → get_elem? outcomes i ≡ outcome_at A submissions i)
      → (i : ℕ)
      → get_elem? (outcome (some old) r ∷ outcomes) i ≡ outcome_at A ((k, r) ∷ submissions) i
  unfolding or_else first
  positions_old old e h zero = rw e refl
  positions_old old e h (suc i) =
      h i
      ∙ map_ext _ _ (get_elem? submissions i)
          λ s. ap (λ o. outcome o s.1) (after_repeat A k r (take i submissions) s.0 old e)

pub append_nil : {X : Type 0} (xs : List X) → xs ≡ xs ++ []
append_nil [] = refl
append_nil (x ∷ xs) = ap (λ l. x ∷ l) (append_nil xs)

or_else-none : {X : Type 0} (o : Option X) → o ≡ or_else o none
unfolding or_else
or_else-none none = refl
or_else-none (some x) = refl

module _ (redb : Redb) (record_json : RecordJson) where
  -- What the loop leaves behind.
  pub record Claimed (A : Records) (submissions : List (Bytes × IndexRecord))
      (records : redb.Table Bytes Bytes) (queue : redb.Table ℕ Bytes) (seq : ℕ) : Type 0 where
    pub outcomes : List SubmitOutcome
    pub records' : redb.Table Bytes Bytes
    pub queue' : redb.Table ℕ Bytes
    pub runs :
        claim_loop redb record_json submissions records queue seq
        ≡ ok (outcomes, (records', (queue', seq + length (fresh A submissions))))
    pub reads : Reads redb record_json records' (λ k. or_else (A k) (first k submissions))
    pub positions : (i : ℕ) → get_elem? outcomes i ≡ outcome_at A submissions i
    pub appended : redb.iter queue' ≡ redb.iter queue ++ numbered seq (fresh A submissions)

  module _ (A : Records) (k : Bytes) (r : IndexRecord) (submissions : List (Bytes × IndexRecord))
      (records : redb.Table Bytes Bytes) (queue : redb.Table ℕ Bytes) (seq : ℕ)
      (h : Reads redb record_json records A) where
    claim_loop-cons_old :
        (old : IndexRecord)
        → A k ≡ some old
        → Claimed A submissions records queue seq
        → Claimed A ((k, r) ∷ submissions) records queue seq
    unfolding claim_loop
    claim_loop-cons_old old e c =
        let keys = fresh-cons_old A k r submissions old e in
        record {
          outcomes = outcome (some old) r ∷ c.outcomes;
          records' = c.records';
          queue' = c.queue';
          runs = rw (h k, e, c.runs, keys) refl;
          reads = λ j. c.reads j ∙ ap ok (after_repeat A k r submissions j old e);
          positions = positions_old A k r submissions c.outcomes old e c.positions;
          appended = rw keys c.appended;
        }

    claim_loop-cons_new :
        A k ≡ none
        → seq + 1 < 2 ^ 64
        → All (λ row. row.0 < seq) (redb.iter queue)
        → Claimed
            (updated k r A)
            submissions
            (write_record redb record_json records k r)
            (redb.insert number_key queue seq k)
            (suc seq)
        → Claimed A ((k, r) ∷ submissions) records queue seq
    unfolding claim_loop numbered next_u64
    claim_loop-cons_new e bound below c =
        let next : (seq + 1) % 2 ^ 64 ≡ suc seq = omega arith in
        let rows = insert_row-append seq k (redb.iter queue) below in
        let keys = fresh-cons_new A k r submissions e in
        let n = length (fresh (updated k r A) submissions) in
        let total : suc seq + n ≡ seq + suc n = omega arith in
        record {
          outcomes = outcome none r ∷ c.outcomes;
          records' = c.records';
          queue' = c.queue';
          runs = rw (h k, e, next, c.runs, keys, total) refl;
          reads = λ j. c.reads j ∙ ap ok (after_claim A k r submissions j e);
          positions = positions_new A k r submissions c.outcomes e c.positions;
          appended = rw keys (
              c.appended
              ∙ rw (redb.iter-insert number_key queue seq k, rows)
                  (append_assoc (redb.iter queue) (seq, k)
                    (numbered (suc seq) (fresh (updated k r A) submissions))));
        }

  pub below_next :
      (seq : ℕ) (k : Bytes) (queue : redb.Table ℕ Bytes)
      → All (λ row. row.0 < seq) (redb.iter queue)
      → All (λ row. row.0 < suc seq) (redb.iter (redb.insert number_key queue seq k))
  below_next seq k queue h =
      rw (redb.iter-insert number_key queue seq k, insert_row-append seq k (redb.iter queue) h)
        (All-append (λ row. row.0 < suc seq) (redb.iter queue) ((seq, k) ∷ [])
          (All-map _ _ (redb.iter queue) (λ row p. omega arith) h) (omega arith, tt))

  pub claim_loop-Claimed :
      (submissions : List (Bytes × IndexRecord)) (A : Records) (records : redb.Table Bytes Bytes)
      (queue : redb.Table ℕ Bytes) (seq : ℕ)
      → Reads redb record_json records A
      → seq + length submissions < 2 ^ 64
      → All (λ row. row.0 < seq) (redb.iter queue)
      → Claimed A submissions records queue seq
  unfolding claim_loop fresh numbered first or_else
  claim_loop-Claimed [] A records queue seq h bound below = record {
    outcomes = [];
    records' = records;
    queue' = queue;
    runs = let e : seq + 0 ≡ seq = omega arith in rw e refl;
    reads = λ j. h j ∙ ap ok (or_else-none (A j));
    positions = λ i. refl;
    appended = append_nil (redb.iter queue);
  }
  claim_loop-Claimed ((k, r) ∷ submissions) A records queue seq h bound below =
      elim (Option-cases (A k)) [
        | inl e ↦ claim_loop-cons_new A k r submissions records queue seq h e (omega arith) below (
            claim_loop-Claimed submissions (updated k r A)
              (write_record redb record_json records k r) (redb.insert number_key queue seq k)
              (suc seq) (write_record-Reads redb record_json records A k r h) (omega arith)
              (below_next seq k queue below))
        | inr (old, e) ↦
            claim_loop-cons_old A k r submissions records queue seq h old e
              (claim_loop-Claimed submissions A records queue seq h (omega arith) below)
      ]
