-- ===== src/BlobStore/Growth.antt =====
-- What a store keeps while blobs are added to it.
use commonsdb_iroh_service.Prelude.{◌≡◌, some}
use commonsdb_iroh_service.Prelude.Bytes.{Bytes}
use commonsdb_iroh_service.Record.{Hash}
use commonsdb_iroh_service.Exec.{Result, ok, err, Exec, continue, pure, lift, asks, ◌>>=◌}
use commonsdb_iroh_service.BlobStore.{BlobStore, StoreLaws}

module _ {S : Type 0} {store : BlobStore S} (laws : StoreLaws store) where
  -- Every blob of `s` is in `t` too, provided that `t` is valid.
  pub record Grows (s t : S) : Type 0 where
    pub before : laws.Valid t → laws.Valid s
    pub kept :
        (h : Hash) (c : Bytes)
        → laws.Valid t
        → store.get s h ≡ ok (some c)
        → store.get t h ≡ ok (some c)

  pub Grows-refl : (s : S) → Grows s s
  Grows-refl s = record { before = λ v. v; kept = λ h c v e. e }

  pub Grows-trans : {s t u : S} → Grows s t → Grows t u → Grows s u
  Grows-trans g k = record {
    before = λ v. g.before (k.before v);
    kept = λ h c v e. k.kept h c v (g.kept h c (k.before v) e);
  }

  pub Grows-stored : (b : Bytes) (s : S) → Grows s (laws.stored b s)
  Grows-stored b s = record { before = laws.Valid-before b s; kept = laws.get-kept b s }

  -- The action leaves everything in the store that was there.
  pub record Growing {E A : Type 0} (m : Exec E S A) : Type 0 where
    pub at : (s : S) → Grows s (m s).1

  pub continue-Grows :
      {E A B : Type 0} (r : Result E A) (f : A → Exec E S B) (s s' : S)
      → ((a : A) → Growing (f a))
      → Grows s s'
      → Grows s (continue r f s').1
  continue-Grows (ok a) f s s' k g = Grows-trans g ((k a).at s')
  continue-Grows (err e) f s s' k g = g

  -- One rule for each way to build an action.
  pub Growing-bind :
      {E A B : Type 0} (m : Exec E S A) (f : A → Exec E S B)
      → Growing m
      → ((a : A) → Growing (f a))
      → Growing (m >>= f)
  Growing-bind m f g k = record { at = λ s. continue-Grows (m s).0 f s (m s).1 k (g.at s) }

  pub Growing-lift : {E A : Type 0} (r : Result E A) → Growing (lift r)
  Growing-lift r = record { at = Grows-refl }

  pub Growing-asks : {E A : Type 0} (f : S → Result E A) → Growing (asks f)
  Growing-asks f = record { at = Grows-refl }

  pub Growing-pure : {E A : Type 0} (a : A) → Growing {E = E} (pure a)
  Growing-pure a = record { at = Grows-refl }
