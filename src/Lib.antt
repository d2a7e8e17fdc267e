-- ===== src/Lib.antt =====
-- A content registry: records (a key and a JSON value) are accepted over HTTP, indexed, published into
-- hash array mapped tries over content-addressed blobs, and replicated. This library models the core
-- crate and the daemon's write path.
--
-- The parts and their files. A key's SHA-256 digest gives its partition and its path below the
-- partition's root (crates/registry-core/src/partition.rs, Partition). A partition is a tree of nodes
-- in the blob store (hamt.rs, Hamt; blobstore.rs, BlobStore): `lookup`, `insert_one`, `insert_batch`
-- and their helpers are in Hamt, the walks `warm_cache`, `walk_entries`, `collect_reachable` in
-- Hamt/Walk, `build_from_entries` in Hamt/Bulk. The daemon keeps an index of records and a queue in
-- four redb tables (crates/registryd/src/index.rs, RecordIndex, with the passes over all rows in
-- RecordIndex/Scan). The write API (api.rs, Api, with
-- `submit_batch` in Api/Batch and the reading handlers in Api/Read; what it makes of a value is in Values)
-- validates a record, puts its value into the blob store and claims its key in the index. A whole dump is
-- loaded past the API (bulk_load.rs, BulkLoad, with `retimestamp` and `build_trees` in BulkLoad/Trees), and
-- the trees are audited against the index (verify.rs, Audit). The publisher
-- (publisher.rs, Publisher) takes a batch from the queue, writes each
-- partition's entries into its tree, stores the new root in the pointer document and in the index, and
-- then marks the records. The garbage collector (gc.rs, Gc) protects what the index, the roots and the
-- pointer document reach. The core also has the similarity search over 64-bit content codes
-- (similarity.rs, Similarity), the decoder of those codes (iscc.rs, Iscc) and the syntax of keys
-- (cidkey.rs, CidKey); its index over blobs (iscc_store.rs, IsccStore) keeps the members of a bucket in
-- segments, with `insert_batch` in IsccStore, `query` and `collect_reachable` in IsccStore/Query.
-- Record has the shared data of record.rs and hash.rs.
--
-- How the code is written here. A function has the name of its source. `async` and `?` become the
-- binds of Exec, in which a write made before an error stays made; a write transaction of the index
-- commits on success only (`in_write`). A `HashSet` is a list that is asked for membership, a
-- `BTreeMap` or `HashMap` an association list. Bytes are numbers, a string is its UTF-8 bytes. A `u64`
-- counter of the index wraps at 2 ^ 64.
--
-- What the crates call is an argument: SHA-256, BLAKE3, the JSON texts, base32, the parser of CIDs
-- (External, RecordIndex, Iscc, CidKey), redb (Redb) and any blob store (BlobStore). The folder
-- Examples has concrete functions in their place. BLAKE3 is nowhere assumed to be free of collisions:
-- the theorems about writes ask that the store at hand has none (`Valid`).
--
-- Fuel. The recursions over a tree go down one level at a time with fuel 33. A digest has descent bytes
-- for the depths 0 to 30, so a tree that holds a placed entry is at most 31 levels high, and an operation
-- that needs the byte of depth 31 ends in `depth_exhausted` with one level of fuel to spare. The walks follow no
-- digest, so on a store that is not sound they may need more.
--
-- Not modelled: `walk_entries_parallel`, whose result depends on tasks and a deadline; `prefetch`, a hint;
-- errors of redb's disk and of files; the publisher's timer loop and status; `open` of the index;
-- hexadecimal text of a hash; the router and the rendering of answers, the reader, the viewer, the
-- wiring of the network and all configuration.
pub mod Prelude
pub mod Exec
pub mod Record
pub mod External
pub mod Partition
pub mod BTree
pub mod BlobStore
pub mod Redb
pub mod RecordIndex
pub mod Values
pub mod Similarity
pub mod Hamt
pub mod Publisher
pub mod Api
pub mod BulkLoad
pub mod Audit
pub mod CidKey
pub mod Iscc
pub mod IsccStore
pub mod Gc
pub mod Examples
