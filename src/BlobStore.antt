-- ===== src/BlobStore.antt =====
-- crates/registry-core/src/blobstore.rs: content-addressed blob storage behind the trait
-- `BlobStore`. Its in-memory implementation is in the child `Memory`.
--
-- A method of the trait may fail. `prefetch` is a hint that changes nothing a caller can observe.
pub mod Memory
pub mod Growth
use commonsdb_iroh_service.Prelude.{◌≡◌, ◌≢◌, Option, some, String, length}
use commonsdb_iroh_service.Prelude.Bytes.{Bytes}
use commonsdb_iroh_service.Record.{Hash, zero_hash}
use commonsdb_iroh_service.Exec.{Result, ok, Exec}

pub data BlobStoreError : Type 0 where
  io : String → BlobStoreError

-- The trait. `S` is what the store holds.
pub record BlobStore (S : Type 0) : Type 0 where
  pub put : Bytes → Exec BlobStoreError S Hash
  pub get : S → Hash → Result BlobStoreError (Option Bytes)

-- `put_and_hash`, the provided method.
unfoldable pub put_and_hash : {S : Type 0} → BlobStore S → Bytes → Exec BlobStoreError S Hash
put_and_hash store bytes = store.put bytes

-- A hash that a node may hold in a slot: 32 bytes, and not the value that marks a vacant slot.
pub record IsAddress (h : Hash) : Type 0 where
  pub width : length h ≡ 32
  pub nonzero : h ≢ zero_hash

-- What the tree engine relies on. `Valid s` says that no two different blobs went into `s` under
-- one hash; only from then on does a store keep what it holds.
pub record StoreLaws {S : Type 0} (store : BlobStore S) : Type 1 where
  pub Valid : S → Type 0
  pub address : Bytes → Hash
  pub stored : Bytes → S → S
  pub put_lem : (b : Bytes) (s : S) → store.put b s ≡ (ok (address b), stored b s)
  pub Valid-before : (b : Bytes) (s : S) → Valid (stored b s) → Valid s
  pub get-stored : (b : Bytes) (s : S) → store.get (stored b s) (address b) ≡ ok (some b)
  pub get-kept :
      (b : Bytes) (s : S) (h : Hash) (c : Bytes)
      → Valid (stored b s)
      → store.get s h ≡ ok (some c)
      → store.get (stored b s) h ≡ ok (some c)
  pub get-IsAddress :
      (s : S) (h : Hash) (c : Bytes) → Valid s → store.get s h ≡ ok (some c) → IsAddress h
