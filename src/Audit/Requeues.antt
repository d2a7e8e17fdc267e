-- ===== src/Audit/Requeues.antt =====
-- The keys that `run --fix` of crates/registryd/src/verify.rs puts back into the queue.
use commonsdb_iroh_service.Prelude.{
  ℕ, suc, ◌+◌, ◌<◌, ◌^◌, ◌%◌, ◌≡◌, refl, sym, ap, ◌∙◌, inl, inr, Bool, true, false, Option-cases,
  none, some, List, [], ◌∷◌, ◌++◌, length, All, arith,
}
use commonsdb_iroh_service.Prelude.Bytes.{Bytes}
use commonsdb_iroh_service.External.{Sha256, EntryJson}
use commonsdb_iroh_service.BlobStore.{BlobStore}
use commonsdb_iroh_service.Redb.{Redb, text_key, number_key, get-insert_self}
use commonsdb_iroh_service.RecordIndex.{RecordJson, requeue, next_seq, next_u64, meta_next_seq}
use commonsdb_iroh_service.RecordIndex.Claims.{
  numbered, insert_row-append, below_next, append_assoc, append_nil,
}
use commonsdb_iroh_service.Publisher.{PointerDoc, World}
use commonsdb_iroh_service.Exec.{ok}
use commonsdb_iroh_service.Audit.{requeue_all, fix_missing}

pub none_before : (m : ℕ) → 0 + m ≡ m
none_before m = omega arith

module _ (redb : Redb) where
  -- The keys that have a record.
  unfoldable pub recorded : redb.Table Bytes Bytes → List Bytes → List Bytes
  recorded records [] = []
  recorded records (key ∷ keys) =
      let rest = recorded records keys in
      elim (redb.get text_key records key) [ none ↦ rest | some raw ↦ key ∷ rest ]

  -- The keys that the queue gets.
  abbrev pub requeued_by : Bool → redb.Table Bytes Bytes → List Bytes → List Bytes
  requeued_by true records missing = recorded records missing
  requeued_by false records missing = []

module _ (sha : Sha256) (json_text : EntryJson) (redb : Redb) (record_json : RecordJson)
    {S D : Type 0} (store : BlobStore S) (pointer_doc : PointerDoc D) where
  -- The queue got the keys of `keys` that have a record, each under a number of its own.
  record Requeued (keys : List Bytes) (n seq : ℕ) (w : World redb S D) : Type 0 where
    after : World redb S D
    runs :
        requeue_all sha json_text redb record_json store pointer_doc keys n w
        ≡ (ok (n + length (recorded redb w.index.records keys)), after)
    queue :
        redb.iter after.index.queue
        ≡ redb.iter w.index.queue ++ numbered seq (recorded redb w.index.records keys)
    records : after.index.records ≡ w.index.records
    blobs : after.blobs ≡ w.blobs
    doc : after.doc ≡ w.doc

  abbrev next_world : Bytes → ℕ → World redb S D → World redb S D
  next_world key seq w = record {
    index = record {
      records = w.index.records;
      queue = redb.insert number_key w.index.queue seq key;
      meta = redb.insert text_key w.index.meta meta_next_seq (next_u64 seq);
      roots = w.index.roots;
    };
    blobs = w.blobs;
    doc = w.doc;
  }

  next_world-seq :
      (key : Bytes) (seq : ℕ) (w : World redb S D)
      → seq + 1 < 2 ^ 64
      → next_seq redb (next_world key seq w).index ≡ suc seq
  unfolding next_seq next_u64
  next_world-seq key seq w room =
      let next : (seq + 1) % 2 ^ 64 ≡ suc seq = omega arith in
      rw (next_seq, get-insert_self redb text_key w.index.meta meta_next_seq (next_u64 seq)) next

  one_more : (n k : ℕ) → n + 1 + k ≡ n + suc k
  one_more n k = omega arith

  requeue_step :
      (key raw : Bytes) (keys : List Bytes) (n seq : ℕ) (w : World redb S D)
      → redb.get text_key w.index.records key ≡ some raw
      → next_seq redb w.index ≡ seq
      → requeue_all sha json_text redb record_json store pointer_doc (key ∷ keys) n w
        ≡ requeue_all sha json_text redb record_json store pointer_doc keys
            (n + 1)
            (next_world key seq w)
  unfolding requeue_all requeue
  requeue_step key raw keys n seq w there e = rw (requeue, there, e) refl

  recorded-cons :
      (w : World redb S D) (key raw : Bytes) (keys : List Bytes)
      → redb.get text_key w.index.records key ≡ some raw
      → recorded redb w.index.records (key ∷ keys) ≡ key ∷ recorded redb w.index.records keys
  unfolding recorded
  recorded-cons w key raw keys there = rw (recorded, there) refl

  requeue_all-Requeued :
      (keys : List Bytes) (n seq : ℕ) (w : World redb S D)
      → next_seq redb w.index ≡ seq
      → seq + length keys < 2 ^ 64
      → All (λ row. row.0 < seq) (redb.iter w.index.queue)
      → Requeued keys n seq w
  unfolding requeue_all requeue recorded numbered
  requeue_all-Requeued [] n seq w e room below = record {
    after = w;
    runs = ap (λ m. (ok m, w)) (let same : n ≡ n + 0 = omega arith in same);
    queue = append_nil (redb.iter w.index.queue);
    records = refl;
    blobs = refl;
    doc = refl;
  }
  requeue_all-Requeued (key ∷ keys) n seq w e room below =
      elim (Option-cases (redb.get text_key w.index.records key)) [
        | inl absent ↦
            let r = requeue_all-Requeued keys n seq w e (omega arith) below in
            record {
              after = r.after;
              runs = rw (requeue, absent, recorded) (r.runs);
              queue = rw (recorded, absent) (r.queue);
              records = r.records;
              blobs = r.blobs;
              doc = r.doc;
            }
        | inr (raw, there) ↦
            let next = next_world key seq w in
            let r =
              requeue_all-Requeued keys (n + 1) (suc seq) next
                (next_world-seq key seq w (omega arith)) (omega arith)
                (below_next redb record_json seq key w.index.queue below) in
            let more = recorded redb w.index.records keys in
            record {
              after = r.after;
              runs =
                  requeue_step key raw keys n seq w there e
                  ∙ r.runs
                  ∙ ap (λ m. (ok m, r.after))
                      (one_more n (length more)
                        ∙ ap (λ l. n + length l) (sym (recorded-cons w key raw keys there)));
              queue =
                  rw (recorded, there)
                    (r.queue
                      ∙ rw
                          (
                            redb.iter-insert number_key w.index.queue seq key,
                            insert_row-append seq key (redb.iter w.index.queue) below,
                          )
                          (append_assoc (redb.iter w.index.queue) (seq, key)
                            (numbered (suc seq) more)));
              records = r.records;
              blobs = r.blobs;
              doc = r.doc;
            }
      ]

  pub record Fixed (fix : Bool) (missing : List Bytes) (w : World redb S D) : Type 0 where
    pub after : World redb S D
    pub runs :
        fix_missing sha json_text redb record_json store pointer_doc fix missing w
        ≡ (ok (length (requeued_by redb fix w.index.records missing)), after)
    pub queue :
        redb.iter after.index.queue
        ≡ redb.iter w.index.queue
          ++ numbered (next_seq redb w.index) (requeued_by redb fix w.index.records missing)
    pub records : after.index.records ≡ w.index.records
    pub blobs : after.blobs ≡ w.blobs
    pub doc : after.doc ≡ w.doc
    pub untouched : fix ≡ false → after ≡ w

  pub fix_missing-Fixed :
      (fix : Bool) (missing : List Bytes) (w : World redb S D)
      → next_seq redb w.index + length missing < 2 ^ 64
      → All (λ row. row.0 < next_seq redb w.index) (redb.iter w.index.queue)
      → Fixed fix missing w
  unfolding numbered
  fix_missing-Fixed false missing w room below = record {
    after = w;
    runs = refl;
    queue = append_nil (redb.iter w.index.queue);
    records = refl;
    blobs = refl;
    doc = refl;
    untouched = λ off. refl;
  }
  fix_missing-Fixed true missing w room below =
      let r = requeue_all-Requeued missing 0 (next_seq redb w.index) w refl room below in
      record {
        after = r.after;
        runs = rw (r.runs, none_before (length (recorded redb w.index.records missing))) refl;
        queue = r.queue;
        records = r.records;
        blobs = r.blobs;
        doc = r.doc;
        untouched = λ off. absurd (cc);
      }
