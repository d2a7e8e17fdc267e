-- ===== src/BlobStore/Memory.antt =====
-- `MemoryBlobStore` of crates/registry-core/src/blobstore.rs. The table keeps a pair that `insert`
-- replaces behind the new one, where no lookup sees it: so its history can be spoken of.
use commonsdb_iroh_service.Prelude.{
  ℕ, ◌+◌, ◌≡◌, refl, Bool, Option, none, some, List, [], ◌∷◌, arith, if◌then◌else◌, ◌==◌,
  Bool-cases, inl, inr, ap,
}
use commonsdb_iroh_service.Prelude.Bytes.{
  Bytes, bytes_eq, bytes_eq_iff, bytes_eq_refl, eq_of_bytes_eq,
}
use commonsdb_iroh_service.Record.{Hash}
use commonsdb_iroh_service.External.{Blake3}
use commonsdb_iroh_service.Exec.{Result, ok, Exec}
use commonsdb_iroh_service.BlobStore.{BlobStoreError, BlobStore, IsAddress, StoreLaws}

-- `HashMap<Hash, Bytes>`
abbrev pub MemoryBlobStore : Type 0
MemoryBlobStore = List (Hash × Bytes)

abbrev pub new : MemoryBlobStore
new = []

unfoldable pub find_blob : Hash → MemoryBlobStore → Option Bytes
find_blob h [] = none
find_blob h ((k, b) ∷ m) = if bytes_eq k h then some b else find_blob h m

-- `contains_key` as a number: 1 for a hash that is not there yet.
fresh : Option Bytes → ℕ
fresh none = 1
fresh (some b) = 0

-- The number of distinct hashes.
unfoldable pub len : MemoryBlobStore → ℕ
unfolding fresh find_blob
len [] = 0
len ((k, b) ∷ m) = fresh (find_blob k m) + len m

unfoldable pub is_empty : MemoryBlobStore → Bool
unfolding len
is_empty m = len m == 0

unfoldable pub put : Blake3 → Bytes → Exec BlobStoreError MemoryBlobStore Hash
put blake bytes m = let h = blake.hash bytes in (ok h, (h, bytes) ∷ m)

unfoldable pub get : MemoryBlobStore → Hash → Result BlobStoreError (Option Bytes)
unfolding find_blob
get m h = ok (find_blob h m)

abbrev pub memory_store : Blake3 → BlobStore MemoryBlobStore
memory_store blake = record { put = put blake; get = get }

abbrev pub Agrees : Option Bytes → Bytes → Type 0
Agrees none b = Unit
Agrees (some c) b = c ≡ b

-- No blob was stored over a different one, and every hash can stand in a slot.
abbrev pub CollisionFree : MemoryBlobStore → Type 0
CollisionFree [] = Unit
CollisionFree ((h, b) ∷ m) = IsAddress h × Agrees (find_blob h m) b × CollisionFree m

-- A blob that was just put comes back under the hash of its bytes.
pub get-put :
    (blake : Blake3) (b : Bytes) (m : MemoryBlobStore)
    → get (put blake b m).1 (blake.hash b) ≡ ok (some b)
unfolding get put
get-put blake b m = rw (bytes_eq_refl (blake.hash b))

Agrees-eq :
    (h : Hash) (m : MemoryBlobStore) (b c : Bytes)
    → Agrees (find_blob h m) b
    → find_blob h m ≡ some c
    → c ≡ b
Agrees-eq h m b c a e = (rw e at a)

pub find_blob-kept :
    (h k : Hash) (b c : Bytes) (m : MemoryBlobStore)
    → Agrees (find_blob k m) b
    → find_blob h m ≡ some c
    → find_blob h ((k, b) ∷ m) ≡ some c
unfolding find_blob
find_blob-kept h k b c m a e = ground (arith, bytes_eq_iff k h, Agrees-eq k m b c a)

pub find_blob-IsAddress :
    (m : MemoryBlobStore) (h : Hash) (c : Bytes)
    → CollisionFree m
    → find_blob h m ≡ some c
    → IsAddress h
unfolding find_blob
find_blob-IsAddress [] h c v e = cc
find_blob-IsAddress ((k, b) ∷ m) h c v e = elim (Bool-cases (bytes_eq k h)) [
  | inl same ↦ rw (← eq_of_bytes_eq k h same) v.0
  | inr other ↦ find_blob-IsAddress m h c v.2 (rw other at e)
]

-- The trait's laws hold of it.
unfoldable pub memory_laws : (blake : Blake3) → StoreLaws (memory_store blake)
unfolding get put
memory_laws blake = record {
  Valid = CollisionFree;
  address = blake.hash;
  stored = λ b m. (blake.hash b, b) ∷ m;
  put_lem = λ b m. refl;
  Valid-before = λ b m v. v.2;
  get-stored = get-put blake;
  get-kept = λ b m h c v e. ap ok (find_blob-kept h (blake.hash b) b c m v.1 (cc));
  get-IsAddress = λ m h c v e. find_blob-IsAddress m h c v (cc);
}
