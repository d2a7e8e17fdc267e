-- ===== src/BulkLoad/Flush.antt =====
-- What a flushed batch does: `flush_batch` in crates/registryd/src/bulk_load.rs.
use commonsdb_iroh_service.Prelude.{
  ℕ, ◌≡◌, refl, ap, ◌∙◌, some, or_else, List, ◌++◌, length, get_elem?,
}
use commonsdb_iroh_service.Prelude.Bytes.{Bytes}
use commonsdb_iroh_service.External.{EntryJson}
use commonsdb_iroh_service.Redb.{Redb}
use commonsdb_iroh_service.RecordIndex.{RecordJson, Database, get, write_all, bulk_mark_published}
use commonsdb_iroh_service.RecordIndex.Records.{Records, Reads, get_many-Reads}
use commonsdb_iroh_service.Exec.{ok}
use commonsdb_iroh_service.BulkLoad.{Line, Plan, start_plan, flush_batch}
use commonsdb_iroh_service.BulkLoad.LastWins.{
  last_of, pairs_of, fresh_pairs, write_all-Reads, after_batch,
}
use commonsdb_iroh_service.BulkLoad.Spills.{
  spilled_to, stored_values, values_of, HasFiles, plan_lines-Planned,
}

module _ (json_text : EntryJson) (redb : Redb) (record_json : RecordJson) where
  pub record Flushed (A : Records) (batch : List Line) (spills : List Bytes)
      (new_records conflicts : ℕ) (db : Database redb) : Type 0 where
    pub plan : Plan
    pub db' : Database redb
    pub runs :
        flush_batch json_text redb record_json batch spills new_records conflicts db
        ≡ (ok plan, db')
    pub gets :
        (key : Bytes)
        → get redb record_json db' key ≡ ok (or_else (A key) (last_of key (pairs_of batch)))
    pub put : values_of plan.to_put ≡ stored_values A batch
    pub spilled :
        (p : ℕ) (file : Bytes)
        → get_elem? spills p ≡ some file
        → get_elem? plan.spills p ≡ some (file ++ spilled_to json_text A p batch)

  -- On an index whose rows read back, and where every line's spill file is there, a flush succeeds: a key
  -- keeps the record that it had, and a new key gets the record of its last line in the batch; the values to
  -- put are, in order, those of the lines whose key is new or has a record of the same content hash; each
  -- spill file gets, behind what it had, one entry for each line of the batch that belongs there, in order,
  -- made of the record that the index had before the flush or else of the line's own.
  pub flush_batch-Flushed :
      (A : Records) (batch : List Line) (spills : List Bytes) (new_records conflicts : ℕ)
      (db : Database redb)
      → Reads redb record_json db.records A
      → HasFiles json_text A batch (length spills)
      → Flushed A batch spills new_records conflicts db
  unfolding flush_batch bulk_mark_published get
  flush_batch-Flushed A batch spills new_records conflicts db h fits =
      let start = start_plan spills new_records conflicts in
      let (plan, run, d) = plan_lines-Planned json_text A batch start fits in
      record {
        plan = plan;
        db' = record {
          records = write_all redb record_json plan.to_insert db.records;
          queue = db.queue;
          meta = db.meta;
          roots = db.roots;
        };
        runs = rw (get_many-Reads redb record_json (λ (l : Line). l.key) db A batch h, run) refl;
        gets = λ key.
            let all = write_all-Reads redb record_json (fresh_pairs A batch) A db.records h key in
            rw (d.inserted) (all ∙ ap ok (after_batch A key batch));
        put = d.put;
        spilled = d.spilled;
      }
