-- ===== src/Hamt/Trie.antt =====
-- The tree that a partition root of crates/registry-core/src/hamt.rs stands for. A child is kept
-- with the hash that its parent's slot holds.
use commonsdb_iroh_service.Prelude.{
  ℕ, zero, suc, ◌+◌, ◌≤◌, ◌<◌, max, ◌≡◌, refl, ap, Option, none, some, List, [], ◌∷◌, ◌++◌, length,
  get_or, set, All, All-append, All-left, All-right, length-append, arith,
}
use commonsdb_iroh_service.Record.{Hash, LeafEntry}
use commonsdb_iroh_service.Hamt.{HamtNode, leaf, intermediate}

mutual
  pub data Trie : Type 0 where
    leaf_of : List LeafEntry → Trie
    branch : Children → Trie

  -- The slots of an intermediate node.
  pub data Children : Type 0 where
    end : Children
    vacant : Children → Children
    child : Hash → Trie → Children → Children

-- Every entry, in the order of a walk.
unfoldable mutual
  pub entries : Trie → List LeafEntry
  entries (leaf_of es) = es
  entries (branch cs) = entries_all cs

  pub entries_all : Children → List LeafEntry
  entries_all end = []
  entries_all (vacant cs) = entries_all cs
  entries_all (child h t cs) = entries t ++ entries_all cs

-- The number of intermediate nodes on the longest path.
unfoldable mutual
  pub height : Trie → ℕ
  height (leaf_of es) = 0
  height (branch cs) = suc (height_all cs)

  pub height_all : Children → ℕ
  height_all end = 0
  height_all (vacant cs) = height_all cs
  height_all (child h t cs) = max (height t) (height_all cs)

abbrev pub slots_of : Children → List (Option Hash)
slots_of end = []
slots_of (vacant cs) = none ∷ slots_of cs
slots_of (child h t cs) = some h ∷ slots_of cs

abbrev pub node_of : Trie → HamtNode
node_of (leaf_of es) = leaf es
node_of (branch cs) = intermediate (slots_of cs)

abbrev pub child_at : Children → ℕ → Option (Hash × Trie)
child_at end i = none
child_at (vacant cs) zero = none
child_at (vacant cs) (suc i) = child_at cs i
child_at (child h t cs) zero = some (h, t)
child_at (child h t cs) (suc i) = child_at cs i

abbrev pub set_child : Children → ℕ → Hash → Trie → Children
set_child end i k u = end
set_child (vacant cs) zero k u = child k u cs
set_child (vacant cs) (suc i) k u = vacant (set_child cs i k u)
set_child (child h t cs) zero k u = child k u cs
set_child (child h t cs) (suc i) k u = child h t (set_child cs i k u)

-- What stands below a slot: a vacant one is an empty leaf.
abbrev pub subtree : Option (Hash × Trie) → Trie
subtree none = leaf_of []
subtree (some (h, t)) = t

abbrev pub hash_of : Option (Hash × Trie) → Option Hash
hash_of none = none
hash_of (some (h, t)) = some h

pub slot-child_at : (cs : Children) (i : ℕ) → get_or (slots_of cs) i none ≡ hash_of (child_at cs i)
slot-child_at end i = refl
slot-child_at (vacant cs) zero = refl
slot-child_at (vacant cs) (suc i) = slot-child_at cs i
slot-child_at (child h t cs) zero = refl
slot-child_at (child h t cs) (suc i) = slot-child_at cs i

pub slots_of-set_child :
    (cs : Children) (i : ℕ) (k : Hash) (u : Trie)
    → slots_of (set_child cs i k u) ≡ set (slots_of cs) i (some k)
slots_of-set_child end i k u = refl
slots_of-set_child (vacant cs) zero k u = refl
slots_of-set_child (vacant cs) (suc i) k u = ap (λ l. none ∷ l) (slots_of-set_child cs i k u)
slots_of-set_child (child h t cs) zero k u = refl
slots_of-set_child (child h t cs) (suc i) k u = ap (λ l. some h ∷ l) (slots_of-set_child cs i k u)

pub child_at-set_self :
    (cs : Children) (i : ℕ) (k : Hash) (u : Trie)
    → i < length (slots_of cs)
    → child_at (set_child cs i k u) i ≡ some (k, u)
child_at-set_self end i k u h = elim h [ ]
child_at-set_self (vacant cs) zero k u h = refl
child_at-set_self (vacant cs) (suc i) k u h = child_at-set_self cs i k u (omega arith)
child_at-set_self (child h' t cs) zero k u h = refl
child_at-set_self (child h' t cs) (suc i) k u h = child_at-set_self cs i k u (omega arith)

pub child_at-set_ne :
    (cs : Children) (i j : ℕ) (k : Hash) (u : Trie)
    → ¬ (i ≡ j)
    → child_at (set_child cs i k u) j ≡ child_at cs j
child_at-set_ne end i j k u n = refl
child_at-set_ne (vacant cs) zero zero k u n = absurd (n refl)
child_at-set_ne (vacant cs) zero (suc j) k u n = refl
child_at-set_ne (vacant cs) (suc i) zero k u n = refl
child_at-set_ne (vacant cs) (suc i) (suc j) k u n = child_at-set_ne cs i j k u (λ e. n (ap suc e))
child_at-set_ne (child h t cs) zero zero k u n = absurd (n refl)
child_at-set_ne (child h t cs) zero (suc j) k u n = refl
child_at-set_ne (child h t cs) (suc i) zero k u n = refl
child_at-set_ne (child h t cs) (suc i) (suc j) k u n =
    child_at-set_ne cs i j k u (λ e. n (ap suc e))

pub height-child_at : (cs : Children) (i : ℕ) → height (subtree (child_at cs i)) ≤ height_all cs
unfolding height
height-child_at end i = omega arith
height-child_at (vacant cs) zero = omega arith
height-child_at (vacant cs) (suc i) = height-child_at cs i
height-child_at (child h t cs) zero = omega arith
height-child_at (child h t cs) (suc i) = omega (arith, height-child_at cs i)

pub height-set_child :
    (cs : Children) (i : ℕ) (k : Hash) (u : Trie)
    → height_all (set_child cs i k u) ≤ max (height u) (height_all cs)
unfolding height
height-set_child end i k u = omega arith
height-set_child (vacant cs) zero k u = omega arith
height-set_child (vacant cs) (suc i) k u = height-set_child cs i k u
height-set_child (child h t cs) zero k u = omega arith
height-set_child (child h t cs) (suc i) k u = omega (arith, height-set_child cs i k u)

pub entries-child_at :
    (cs : Children) (i : ℕ) (P : LeafEntry → Type 0)
    → All P (entries_all cs)
    → All P (entries (subtree (child_at cs i)))
unfolding entries
entries-child_at end i P h = tt
entries-child_at (vacant cs) zero P h = tt
entries-child_at (vacant cs) (suc i) P h = entries-child_at cs i P h
entries-child_at (child k t cs) zero P h = All-left P (entries t) (entries_all cs) h
entries-child_at (child k t cs) (suc i) P h =
    entries-child_at cs i P (All-right P (entries t) (entries_all cs) h)

pub entries-set_child :
    (cs : Children) (i : ℕ) (k : Hash) (u : Trie) (P : LeafEntry → Type 0)
    → All P (entries_all cs)
    → All P (entries u)
    → All P (entries_all (set_child cs i k u))
unfolding entries
entries-set_child end i k u P h p = tt
entries-set_child (vacant cs) zero k u P h p = All-append P (entries u) (entries_all cs) p h
entries-set_child (vacant cs) (suc i) k u P h p = entries-set_child cs i k u P h p
entries-set_child (child k' t cs) zero k u P h p =
    All-append P (entries u) (entries_all cs) p (All-right P (entries t) (entries_all cs) h)
entries-set_child (child k' t cs) (suc i) k u P h p =
    All-append P (entries t) (entries_all (set_child cs i k u))
      (All-left P (entries t) (entries_all cs) h)
      (entries-set_child cs i k u P (All-right P (entries t) (entries_all cs) h) p)

-- A write to one slot changes the number of entries by what the subtree gains.
pub length-set_child :
    (cs : Children) (i : ℕ) (k : Hash) (u : Trie)
    → i < length (slots_of cs)
    → length (entries_all (set_child cs i k u)) + length (entries (subtree (child_at cs i)))
      ≡ length (entries_all cs) + length (entries u)
unfolding entries
length-set_child end i k u h = elim h [ ]
length-set_child (vacant cs) zero k u h = omega (arith, length-append (entries u) (entries_all cs))
length-set_child (vacant cs) (suc i) k u h = length-set_child cs i k u (omega arith)
length-set_child (child k' t cs) zero k u h =
    omega (
      arith,
      length-append (entries u) (entries_all cs),
      length-append (entries t) (entries_all cs),
    )
length-set_child (child k' t cs) (suc i) k u h = omega (
  arith,
  length-append (entries t) (entries_all (set_child cs i k u)),
  length-append (entries t) (entries_all cs),
  length-set_child cs i k u (omega arith),
)
