-- ===== src/Hamt/Buckets.antt =====
-- The redistribution of a leaf that is over its limit (`insert_at` of
-- crates/registry-core/src/hamt.rs): `distribute`, on the buckets alone.
use commonsdb_iroh_service.Prelude.{
  ℕ, zero, suc, ◌+◌, ◌≤◌, ◌<◌, ◌≡◌, ◌≢◌, refl, sym, ◌∙◌, ap, or_else, List, [], ◌∷◌, ◌++◌, length,
  get_or, All, All-append, length-append, length-set, get_or-set_self, get_or-set_ne, arith, inl,
  inr, ◌⊎◌,
}
use mathlib.Core.List.{append-nil}
use commonsdb_iroh_service.Prelude.Bytes.{Bytes}
use commonsdb_iroh_service.Record.{LeafEntry}
use commonsdb_iroh_service.External.{Sha256}
use commonsdb_iroh_service.Exec.{ok}
use commonsdb_iroh_service.Hamt.{find, push_bucket, distribute, intermediate_fanout}
use commonsdb_iroh_service.Hamt.Entries.{find-append}
use commonsdb_iroh_service.Hamt.Placed.{GoesTo, find-elsewhere}
use commonsdb_iroh_service.Hamt.Lookup.{descent_byte-total, byte_at-GoesTo}

-- The entries of all buckets.
abbrev pub total : List (List LeafEntry) → ℕ
total [] = 0
total (b ∷ bs) = length b + total bs

pub eq_or_ne : (i j : ℕ) → (i ≡ j) ⊎ (i ≢ j)
eq_or_ne i j = ground arith

total-push :
    (bs : List (List LeafEntry)) (i : ℕ) (e : LeafEntry)
    → i < length bs
    → total (push_bucket bs i e) ≡ suc (total bs)
unfolding push_bucket
total-push [] i e h = elim h [ ]
total-push (b ∷ bs) zero e h = omega (arith, length-append b (e ∷ []))
total-push (b ∷ bs) (suc i) e h = omega (arith, total-push bs i e (omega arith))

append_assoc' :
    (xs : List LeafEntry) (e : LeafEntry) (ys : List LeafEntry)
    → (xs ++ e ∷ []) ++ ys ≡ xs ++ e ∷ ys
append_assoc' [] e ys = refl
append_assoc' (x ∷ xs) e ys = ap (λ l. x ∷ l) (append_assoc' xs e ys)

module _ (sha : Sha256) (depth : ℕ) where
  -- Every entry stands in the bucket of its descent byte.
  abbrev pub Sorted : List (List LeafEntry) → Type 0
  Sorted bs = (j : ℕ) → All (λ e. GoesTo sha depth j e.key) (get_or bs j [])

  -- `out` is `bs` with the entries `es` pushed.
  pub record Distributed (es : List LeafEntry) (bs out : List (List LeafEntry)) : Type 1 where
    pub width : length out ≡ length bs
    pub count : total out ≡ total bs + length es
    pub sorted : Sorted bs → Sorted out
    pub finds :
        (k : Bytes) (j : ℕ)
        → GoesTo sha depth j k
        → find k (get_or out j []) ≡ find k (get_or bs j [] ++ es)
    pub members :
        (P : LeafEntry → Type 0)
        → All P es
        → ((j : ℕ) → All P (get_or bs j []))
        → (j : ℕ) → All P (get_or out j [])

  module _ (bs : List (List LeafEntry)) (b : ℕ) (e : LeafEntry) (lt : b < length bs) where
    get_or-push_self : get_or (push_bucket bs b e) b [] ≡ get_or bs b [] ++ e ∷ []
    unfolding push_bucket
    get_or-push_self = get_or-set_self bs b _ [] lt

    get_or-push_ne : (j : ℕ) → b ≢ j → get_or (push_bucket bs b e) j [] ≡ get_or bs j []
    unfolding push_bucket
    get_or-push_ne j n = get_or-set_ne bs b j _ [] n

    All-push :
        (P : ℕ → LeafEntry → Type 0)
        → P b e
        → ((j : ℕ) → All (P j) (get_or bs j []))
        → (j : ℕ) → All (P j) (get_or (push_bucket bs b e) j [])
    All-push P p h j = elim (eq_or_ne b j) [
      | inl same ↦
          rw (← same, get_or-push_self) (All-append (P b) (get_or bs b []) (e ∷ []) (h b) (p, tt))
      | inr other ↦ rw (get_or-push_ne j other) (h j)
    ]

    find-push :
        (es : List LeafEntry) (k : Bytes) (j : ℕ)
        → GoesTo sha depth b e.key
        → GoesTo sha depth j k
        → find k (get_or (push_bucket bs b e) j [] ++ es) ≡ find k (get_or bs j [] ++ e ∷ es)
    find-push es k j p g = elim (eq_or_ne b j) [
      | inl same ↦ rw (← same, get_or-push_self, append_assoc' (get_or bs b []) e es)
      | inr other ↦
          rw
            (
              get_or-push_ne j other,
              find-append k (get_or bs j []) es,
              find-append k (get_or bs j []) (e ∷ es),
              find-append k (e ∷ []) es,
              find-elsewhere sha depth b j k (e ∷ []) g other (p, tt),
            )
            (unfold or_else in refl)
    ]

    length-push : length (push_bucket bs b e) ≡ length bs
    unfolding push_bucket
    length-push = length-set bs b _

    Distributed-cons :
        (es : List LeafEntry) (out : List (List LeafEntry))
        → GoesTo sha depth b e.key
        → Distributed es (push_bucket bs b e) out
        → Distributed (e ∷ es) bs out
    Distributed-cons es out goes spec = record {
      width = spec.width ∙ length-push;
      count = omega (arith, spec.count, total-push bs b e lt);
      sorted = λ h. spec.sorted (All-push (λ j x. GoesTo sha depth j x.key) goes h);
      finds = λ k j g. spec.finds k j g ∙ find-push es k j goes g;
      members = λ P p h. spec.members P p.1 (All-push (λ _. P) p.0 h);
    }

  -- Up to depth 30 the redistribution succeeds.
  pub distribute_lem :
      (es : List LeafEntry) (bs : List (List LeafEntry))
      → depth ≤ 30
      → length bs ≡ intermediate_fanout
      → (out : List (List LeafEntry)) × (distribute sha depth es bs ≡ ok out)
        × Distributed es bs out
  unfolding distribute
  distribute_lem [] bs d w = (
    bs,
    refl,
    record {
      width = refl;
      count = omega arith;
      sorted = λ h. h;
      finds = λ k j g. ap (find k) (sym (append-nil (get_or bs j [])));
      members = λ P _ h. h;
    },
  )
  distribute_lem (e ∷ es) bs d w =
      let (b, goes, lt) = descent_byte-total sha e.key depth d in
      let lt' : b < length bs = omega arith in
      let (out, run, spec) =
        distribute_lem es (push_bucket bs b e) d (length-push bs b e lt' ∙ w) in
      (
        out,
        rw (byte_at-GoesTo sha depth b e.key goes) run,
        Distributed-cons bs b e lt' es out goes spec,
      )
