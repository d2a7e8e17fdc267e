-- ===== src/Hamt/Placed.antt =====
-- Where the entries of a tree stand: below slot `i` at depth `d` every key has descent byte `i`.
-- So a key is found in its own subtree or nowhere.
use commonsdb_iroh_service.Prelude.{
  ℕ, zero, suc, ◌+◌, ◌<◌, ◌≡◌, ◌≢◌, refl, sym, ◌∙◌, ap, Option, none, some, or_else, List, All,
  All-map, arith,
}
use commonsdb_iroh_service.Prelude.Bytes.{Bytes}
use commonsdb_iroh_service.Record.{Hash, LeafEntry}
use commonsdb_iroh_service.External.{Sha256}
use commonsdb_iroh_service.Partition.{descent_byte, key_digest}
use commonsdb_iroh_service.Hamt.{find}
use commonsdb_iroh_service.Hamt.Entries.{find-append, find-eq-none}
use commonsdb_iroh_service.Hamt.Trie.{
  Trie, leaf_of, branch, Children, end, vacant, child, entries, entries_all, child_at, set_child,
  subtree,
}

some_injective : (i j : ℕ) → some i ≡ some j → i ≡ j
some_injective i j h = cc

pub or_else-none : (o : Option LeafEntry) → or_else o none ≡ o
unfolding or_else
or_else-none none = refl
or_else-none (some e) = refl

pub shift : (i b : ℕ) → i + 1 + b ≡ i + suc b
shift i b = omega arith

pub at_start : (i : ℕ) → i + 0 ≡ i
at_start i = omega arith

module _ (sha : Sha256) where
  -- The key's descent byte at this depth is `i`.
  abbrev pub GoesTo : ℕ → ℕ → Bytes → Type 0
  GoesTo depth i key = descent_byte (key_digest sha key) depth ≡ some i

  abbrev mutual
    pub Placed : ℕ → Trie → Type 0
    Placed depth (leaf_of es) = Unit
    Placed depth (branch cs) = PlacedFrom depth 0 cs

    -- `i` is the number of the first slot.
    pub PlacedFrom : ℕ → ℕ → Children → Type 0
    PlacedFrom depth i end = Unit
    PlacedFrom depth i (vacant cs) = PlacedFrom depth (i + 1) cs
    PlacedFrom depth i (child h t cs) =
        All (λ e. GoesTo depth i e.key) (entries t)
        × Placed (depth + 1) t
        × PlacedFrom depth (i + 1) cs

  other_slot :
      (depth i j : ℕ) (k : Bytes) (e : LeafEntry)
      → GoesTo depth j k
      → i ≢ j
      → GoesTo depth i e.key
      → e.key ≢ k
  other_slot depth i j k e g n p same =
      n (some_injective i j (sym p ∙ ap (λ key. descent_byte (key_digest sha key) depth) same ∙ g))

  pub find-elsewhere :
      (depth i j : ℕ) (k : Bytes) (es : List LeafEntry)
      → GoesTo depth j k
      → i ≢ j
      → All (λ e. GoesTo depth i e.key) es
      → find k es ≡ none
  find-elsewhere depth i j k es g n h = find-eq-none k es (
      All-map (λ e. GoesTo depth i e.key) (λ e. e.key ≢ k) es (λ e. other_slot depth i j k e g n) h)

  -- No slot from `i` on has a key that goes to an earlier slot.
  find-earlier :
      (depth i j : ℕ) (k : Bytes) (cs : Children)
      → GoesTo depth j k
      → j < i
      → PlacedFrom depth i cs
      → find k (entries_all cs) ≡ none
  unfolding entries or_else find
  find-earlier depth i j k end g lt h = refl
  find-earlier depth i j k (vacant cs) g lt h = find-earlier depth (i + 1) j k cs g (omega arith) h
  find-earlier depth i j k (child c t cs) g lt h =
      rw
        (
          find-append k (entries t) (entries_all cs),
          find-elsewhere depth i j k (entries t) g (omega arith) h.0,
        )
        (find-earlier depth (i + 1) j k cs g (omega arith) h.2)

  -- A key is found in the subtree of its own slot.
  pub find-child_at :
      (depth i b : ℕ) (k : Bytes) (cs : Children)
      → GoesTo depth (i + b) k
      → PlacedFrom depth i cs
      → find k (entries_all cs) ≡ find k (entries (subtree (child_at cs b)))
  unfolding entries or_else find
  find-child_at depth i b k end g h = refl
  find-child_at depth i zero k (vacant cs) g h =
      find-earlier depth (i + 1) i k cs (rw at_start at g) (omega arith) h
  find-child_at depth i (suc b) k (vacant cs) g h =
      find-child_at depth (i + 1) b k cs (rw (← shift i b) at g) h
  find-child_at depth i zero k (child c t cs) g h =
      rw
        (
          find-append k (entries t) (entries_all cs),
          find-earlier depth (i + 1) i k cs (rw at_start at g) (omega arith) h.2,
        )
        (or_else-none (find k (entries t)))
  find-child_at depth i (suc b) k (child c t cs) g h =
      rw
        (
          find-append k (entries t) (entries_all cs),
          find-elsewhere depth i (i + suc b) k (entries t) g (omega arith) h.0,
        )
        (find-child_at depth (i + 1) b k cs (rw (← shift i b) at g) h.2)

  pub Placed-child_at :
      (depth i b : ℕ) (cs : Children)
      → PlacedFrom depth i cs
      → Placed (depth + 1) (subtree (child_at cs b))
  Placed-child_at depth i b end h = tt
  Placed-child_at depth i zero (vacant cs) h = tt
  Placed-child_at depth i (suc b) (vacant cs) h = Placed-child_at depth (i + 1) b cs h
  Placed-child_at depth i zero (child c t cs) h = h.1
  Placed-child_at depth i (suc b) (child c t cs) h = Placed-child_at depth (i + 1) b cs h.2

  pub GoesTo-child_at :
      (depth i b : ℕ) (cs : Children)
      → PlacedFrom depth i cs
      → All (λ e. GoesTo depth (i + b) e.key) (entries (subtree (child_at cs b)))
  unfolding entries
  GoesTo-child_at depth i b end h = tt
  GoesTo-child_at depth i zero (vacant cs) h = tt
  GoesTo-child_at depth i (suc b) (vacant cs) h =
      rw (← shift i b) (GoesTo-child_at depth (i + 1) b cs h)
  GoesTo-child_at depth i zero (child c t cs) h = rw at_start h.0
  GoesTo-child_at depth i (suc b) (child c t cs) h =
      rw (← shift i b) (GoesTo-child_at depth (i + 1) b cs h.2)

  pub PlacedFrom-set_child :
      (depth i b : ℕ) (cs : Children) (c : Hash) (t : Trie)
      → PlacedFrom depth i cs
      → All (λ e. GoesTo depth (i + b) e.key) (entries t)
      → Placed (depth + 1) t
      → PlacedFrom depth i (set_child cs b c t)
  PlacedFrom-set_child depth i b end c t h g p = tt
  PlacedFrom-set_child depth i zero (vacant cs) c t h g p = (rw at_start at g, p, h)
  PlacedFrom-set_child depth i (suc b) (vacant cs) c t h g p =
      PlacedFrom-set_child depth (i + 1) b cs c t h (rw (← shift i b) at g) p
  PlacedFrom-set_child depth i zero (child c' u cs) c t h g p = (rw at_start at g, p, h.2)
  PlacedFrom-set_child depth i (suc b) (child c' u cs) c t h g p =
      (h.0, h.1, PlacedFrom-set_child depth (i + 1) b cs c t h.2 (rw (← shift i b) at g) p)
