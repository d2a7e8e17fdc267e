-- ===== src/Publisher.antt =====
-- crates/registryd/src/publisher.rs: one publish cycle, the repair of the pointer document and the
-- seeding of the local roots, on the record index, the blob store and the pointer document together.
--
-- The loop `run` with its timers and the status for `/health` are left out. The file of the denylist
-- is its text, or none when it cannot be read.
use commonsdb_iroh_service.Prelude.{
  ℕ, zero, suc, ◌+◌, Bool, true, false, not, Option, none, some, List, [], ◌∷◌, ◌++◌, String,
  length, ltb, ◌==◌, if◌then◌else◌,
}
use commonsdb_iroh_service.Prelude.Bytes.{Bytes}
use commonsdb_iroh_service.Prelude.Text.{trim_start, trim_end}
use commonsdb_iroh_service.Record.{Hash, Instant, LeafEntry}
use commonsdb_iroh_service.External.{Sha256, EntryJson}
use commonsdb_iroh_service.BlobStore.{BlobStore}
use commonsdb_iroh_service.Redb.{Redb}
use commonsdb_iroh_service.Exec.{Result, ok, err, map_err, Exec, pure, asks, ◌>>=◌, ◌>>◌}
use commonsdb_iroh_service.Hamt.{HamtError, contains, split_lines, insert_batch}
use commonsdb_iroh_service.RecordIndex.{
  IndexRecord, IndexError, RecordJson, Database, leaf_entry, pending_batch, get_local_root,
  set_local_root, all_local_roots, mark_published, mark_denylisted,
}

-- crates/registry-node/src/pointer_doc.rs, as the publisher uses it: the root of a partition, or an
-- error where its entry cannot be read; and a write, which can fail.
pub record PointerDoc (D : Type 0) : Type 0 where
  pub get_partition_root : D → ℕ → Result String (Option Hash)
  pub set_partition_root : ℕ → Hash → Exec String D Unit

pub data PublishError : Type 0 where
  index_error : IndexError → PublishError
  hamt_error : HamtError → PublishError
  doc_error : String → PublishError

abbrev pub Item : Type 0
Item = ℕ × (Bytes × IndexRecord)

-- `per_partition.entry(partition_id).or_default().push(item)`, in the order of the partitions.
unfoldable pub push_group : ℕ → Item → List (ℕ × List Item) → List (ℕ × List Item)
push_group p item [] = (p, item ∷ []) ∷ []
push_group p item (group ∷ groups) =
    if p == group.0
    then (p, group.1 ++ item ∷ []) ∷ groups
    else if ltb p group.0
    then (p, item ∷ []) ∷ group ∷ groups
    else group ∷ push_group p item groups

unfoldable pub group_by_partition : List Item → List (ℕ × List Item) → List (ℕ × List Item)
unfolding push_group
group_by_partition [] groups = groups
group_by_partition (item ∷ batch) groups =
    group_by_partition batch (push_group item.1.1.partition_id item groups)

-- The items of one partition, sorted by the denylist.
pub record Sorted : Type 0 where
  pub publishable : List (ℕ × Bytes)
  pub denylisted : List (ℕ × Bytes)
  pub entries : List LeafEntry

unfoldable pub sort_items : List Bytes → List Item → Sorted
unfolding contains leaf_entry
sort_items denylist [] = record { publishable = []; denylisted = []; entries = [] }
sort_items denylist ((seq, (key, r)) ∷ items) =
    let rest = sort_items denylist items in
    if contains denylist key
    then record {
      publishable = rest.publishable;
      denylisted = (seq, key) ∷ rest.denylisted;
      entries = rest.entries;
    }
    else record {
      publishable = (seq, key) ∷ rest.publishable;
      denylisted = rest.denylisted;
      entries = leaf_entry r key ∷ rest.entries;
    }

-- `load_denylist`: `trim`, and the lines that are neither empty nor a comment. White space is that of
-- ASCII here; `trim` takes the other white space of Unicode off as well.
unfoldable pub is_key_line : Bytes → Bool
is_key_line [] = false
is_key_line (b ∷ line) = not (b == 35)

unfoldable pub key_lines : List Bytes → List Bytes
unfolding is_key_line trim_start trim_end
key_lines [] = []
key_lines (line ∷ lines) =
    let key = trim_end (trim_start line) in
    let rest = key_lines lines in if is_key_line key then key ∷ rest else rest

unfoldable pub load_denylist : Option Bytes → List Bytes
unfolding key_lines split_lines
load_denylist none = []
load_denylist (some raw) = key_lines (split_lines raw)

module _ (redb : Redb) (S D : Type 0) where
  pub record World : Type 0 where
    pub index : Database redb
    pub blobs : S
    pub doc : D

  abbrev pub on_index : {A : Type 0} → Exec IndexError (Database redb) A → Exec PublishError World A
  on_index m w =
      let (r, db) = m w.index in
      (map_err index_error r, record { index = db; blobs = w.blobs; doc = w.doc })

  abbrev pub on_blobs : {A : Type 0} → Exec HamtError S A → Exec PublishError World A
  on_blobs m w =
      let (r, s) = m w.blobs in
      (map_err hamt_error r, record { index = w.index; blobs = s; doc = w.doc })

  abbrev pub on_doc : {A : Type 0} → Exec String D A → Exec PublishError World A
  on_doc m w =
      let (r, d) = m w.doc in
      (map_err doc_error r, record { index = w.index; blobs = w.blobs; doc = d })

module _ (sha : Sha256) (json_text : EntryJson) (redb : Redb) (record_json : RecordJson)
    {S D : Type 0} (store : BlobStore S) (pointer_doc : PointerDoc D) where
  -- The local root first, the pointer document for a partition without one.
  unfoldable pub current_root : ℕ → World redb S D → Result PublishError (Option Hash)
  unfolding get_local_root
  current_root p w = elim (get_local_root redb record_json w.index p) [
    | some root ↦ ok (some root)
    | none ↦ map_err doc_error (pointer_doc.get_partition_root w.doc p)
  ]

  unfoldable pub publish_entries : ℕ → List LeafEntry → ℕ → Exec PublishError (World redb S D) Unit
  unfolding current_root set_local_root
  publish_entries p [] leaf_max_entries = pure tt
  publish_entries p (e ∷ entries) leaf_max_entries = do
    root ← asks (current_root p)
    new_root ←
        on_blobs redb S D (insert_batch sha json_text store root (e ∷ entries) leaf_max_entries [])
    on_doc redb S D (pointer_doc.set_partition_root p new_root)
    on_index redb S D (set_local_root redb record_json p new_root)

  -- The body of the loop over the partitions; it gives the number of records published.
  unfoldable pub publish_partition :
      List Bytes → ℕ → Instant → ℕ × List Item → Exec PublishError (World redb S D) ℕ
  unfolding sort_items publish_entries mark_published mark_denylisted
  publish_partition denylist leaf_max_entries now (p, items) =
      let sorted = sort_items denylist items in
      do
        publish_entries p sorted.entries leaf_max_entries
        on_index redb S D (mark_published redb record_json sorted.publishable now)
        on_index redb S D (mark_denylisted redb record_json sorted.denylisted now)
        pure (length sorted.publishable)

  unfoldable pub publish_groups :
      List Bytes → ℕ → Instant → List (ℕ × List Item) → ℕ → Exec PublishError (World redb S D) ℕ
  unfolding publish_partition
  publish_groups denylist leaf_max_entries now [] published_total = pure published_total
  publish_groups denylist leaf_max_entries now (group ∷ groups) published_total = do
    n ← publish_partition denylist leaf_max_entries now group
    publish_groups denylist leaf_max_entries now groups (published_total + n)

  unfoldable pub publish_cycle :
      Option Bytes → ℕ → ℕ → Instant → Exec PublishError (World redb S D) ℕ
  unfolding pending_batch load_denylist group_by_partition publish_groups
  publish_cycle denylist_text max_pending leaf_max_entries now = do
    batch ← asks (λ w. map_err index_error (pending_batch redb record_json w.index max_pending))
    publish_groups (load_denylist denylist_text) leaf_max_entries now (group_by_partition batch [])
        0

  -- Whether the document's entry has to be written again: it is missing or cannot be read.
  unfoldable pub needs_healing : Result String (Option Hash) → Bool
  needs_healing (ok (some root)) = false
  needs_healing (ok none) = true
  needs_healing (err e) = true

  unfoldable pub heal_all : List (ℕ × Hash) → ℕ → Exec PublishError (World redb S D) ℕ
  unfolding needs_healing
  heal_all [] healed w = (ok healed, w)
  heal_all ((p, root) ∷ roots) healed w =
      elim (needs_healing (pointer_doc.get_partition_root w.doc p)) [
        | false ↦ heal_all roots healed w
        | true ↦
            (on_doc redb S D (pointer_doc.set_partition_root p root) >> heal_all roots (suc healed))
              w
      ]

  unfoldable pub heal_pointer_doc : Exec PublishError (World redb S D) ℕ
  unfolding heal_all all_local_roots
  heal_pointer_doc w = heal_all (all_local_roots redb record_json w.index) 0 w

  -- A root that the document has, and nothing where it has none or cannot be read.
  unfoldable pub doc_root : Result String (Option Hash) → Option Hash
  doc_root (ok root) = root
  doc_root (err e) = none

  unfoldable pub seed_partition : ℕ → World redb S D → Option Hash
  unfolding get_local_root doc_root
  seed_partition p w = elim (get_local_root redb record_json w.index p) [
    | some root ↦ none
    | none ↦ doc_root (pointer_doc.get_partition_root w.doc p)
  ]

  -- The loop of `seed_local_roots` over `n` partitions from `p` on.
  unfoldable pub seed_from : ℕ → ℕ → ℕ → Exec PublishError (World redb S D) ℕ
  unfolding seed_partition set_local_root
  seed_from p zero seeded w = (ok seeded, w)
  seed_from p (suc n) seeded w = elim (seed_partition p w) [
    | none ↦ seed_from (suc p) n seeded w
    | some root ↦
        (on_index redb S D (set_local_root redb record_json p root)
            >> seed_from (suc p) n (suc seeded))
          w
  ]

  unfoldable pub seed_local_roots : ℕ → Exec PublishError (World redb S D) ℕ
  unfolding seed_from
  seed_local_roots top_level_partitions = seed_from 0 top_level_partitions 0
