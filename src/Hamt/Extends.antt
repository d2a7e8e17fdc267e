-- ===== src/Hamt/Extends.antt =====
-- One entry more in a tree of crates/registry-core/src/hamt.rs: below a leaf that has it, and below
-- one slot of a node.
use native.Mathlib.Nat.{zero-add}
use commonsdb_iroh_service.Prelude.{
  ℕ, ◌+◌, ◌≤◌, ◌<◌, ◌≡◌, ◌≢◌, refl, sym, ◌∙◌, ap, inl, inr, Bool-cases, none, some, or_else, [],
  ◌∷◌, length, arith,
}
use commonsdb_iroh_service.Prelude.Bytes.{Bytes, bytes_eq, eq_of_bytes_eq}
use commonsdb_iroh_service.Record.{Hash, LeafEntry}
use commonsdb_iroh_service.External.{Sha256}
use commonsdb_iroh_service.Hamt.{find}
use commonsdb_iroh_service.Hamt.Trie.{
  Trie, branch, Children, entries, entries_all, height, slots_of, child_at, set_child, subtree,
  child_at-set_self, child_at-set_ne, height-child_at, height-set_child, entries-child_at,
  entries-set_child, length-set_child,
}
use commonsdb_iroh_service.Hamt.Placed.{
  or_else-none, find-elsewhere, Placed, PlacedFrom, GoesTo, find-child_at, GoesTo-child_at,
  PlacedFrom-set_child,
}
use commonsdb_iroh_service.Hamt.Lookup.{descent_byte-total}
use commonsdb_iroh_service.Hamt.Buckets.{eq_or_ne}
use commonsdb_iroh_service.Hamt.Built.{Extends, added}

present-finds :
    (e f : LeafEntry) (t : Trie)
    → find e.key (entries t) ≡ some f
    → (k : Bytes) → find k (entries t) ≡ or_else (find k (entries t)) (find k (e ∷ []))
present-finds e f t there k = elim (Bool-cases (bytes_eq e.key k)) [
  | inl same ↦
      let e' : e.key ≡ k = eq_of_bytes_eq e.key k same in
      let there' : find k (entries t) ≡ some f = rw e' at there in
      rw there' (unfold or_else in refl)
  | inr other ↦
      let none' : find k (e ∷ []) ≡ none = unfold find in rw other in
      rw none' (sym (or_else-none (find k (entries t))))
]

pub find-nil : (k : Bytes) (f : LeafEntry) → find k [] ≢ some f
unfolding find
find-nil k f h = cc

-- The key is there already: nothing changes.
pub Extends-present : (e f : LeafEntry) (t : Trie) → find e.key (entries t) ≡ some f → Extends e t t
Extends-present e f t there = record {
  finds = λ k. present-finds e f t there k;
  count = rw there (omega arith);
  members = λ P p q. p;
  high = omega arith;
}

module _ (sha : Sha256) (depth b : ℕ) (e : LeafEntry) (cs : Children) (h : Hash) (u : Trie)
    (goes : GoesTo sha depth b e.key) (within : b < length (slots_of cs))
    (placed : PlacedFrom sha depth 0 cs) (extends : Extends e (subtree (child_at cs b)) u) where
  goes' : GoesTo sha depth (0 + b) e.key
  goes' = rw (zero-add b) goes

  pub set-Placed : Placed sha (depth + 1) u → PlacedFrom sha depth 0 (set_child cs b h u)
  set-Placed p =
      PlacedFrom-set_child sha depth 0 b cs h u placed
        (extends.members (λ x. GoesTo sha depth (0 + b) x.key)
          (GoesTo-child_at sha depth 0 b cs placed) goes')
        p

  find-set_child :
      Placed sha (depth + 1) u
      → depth ≤ 30
      → (k : Bytes)
      → find k (entries_all (set_child cs b h u))
        ≡ or_else (find k (entries_all cs)) (find k (e ∷ []))
  find-set_child p d k =
      let (j, g, lt) = descent_byte-total sha k depth d in
      let g' : GoesTo sha depth (0 + j) k = rw (zero-add j) g in
      let new = find-child_at sha depth 0 j k (set_child cs b h u) g' (set-Placed p) in
      let old = find-child_at sha depth 0 j k cs g' placed in
      elim (eq_or_ne b j) [
        | inl same ↦
            let hit : child_at (set_child cs b h u) j ≡ some (h, u) =
              rw (← same) (child_at-set_self cs b h u within) in
            let old' : find k (entries (subtree (child_at cs b))) ≡ find k (entries_all cs) =
              rw same (sym old) in
            new
            ∙ ap (λ o. find k (entries (subtree o))) hit
            ∙ extends.finds k
            ∙ ap (λ o. or_else o (find k (e ∷ []))) old'
        | inr other ↦
            new
            ∙ ap (λ o. find k (entries (subtree o))) (child_at-set_ne cs b j h u other)
            ∙ sym old
            ∙ sym (or_else-none (find k (entries_all cs)))
            ∙ ap (or_else (find k (entries_all cs)))
                (sym (find-elsewhere sha depth b j k (e ∷ []) g other (goes, tt)))
      ]

  -- The subtree's change is the node's.
  pub Extends-branch :
      Placed sha (depth + 1) u → depth ≤ 30 → Extends e (branch cs) (branch (set_child cs b h u))
  unfolding entries height
  Extends-branch p d = record {
    finds = find-set_child p d;
    count = omega (
      arith,
      extends.count,
      length-set_child cs b h u within,
      ap added (find-child_at sha depth 0 b e.key cs goes' placed),
    );
    members =
        λ P q r. entries-set_child cs b h u P q (extends.members P (entries-child_at cs b P q) r);
    high = omega (arith, height-set_child cs b h u, extends.high, height-child_at cs b);
  }
