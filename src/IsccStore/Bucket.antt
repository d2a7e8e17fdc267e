-- ===== src/IsccStore/Bucket.antt =====
-- What `insert_batch` of crates/registry-core/src/iscc_store.rs does to one bucket: its tail is opened,
-- the members that it lacks are added, and it is written back.
use mathlib.Core.List.{append-nil, append_assoc}
use commonsdb_iroh_service.Prelude.{
  ℕ, ◌+◌, ◌%◌, ◌^◌, ◌<◌, ◌≤◌, ◌≡◌, refl, ap, sym, ◌∙◌, true, false, Option, none, some, List, [],
  ◌∷◌, ◌++◌, length, All, All-map, All-append, length-append, Bool-cases, Option-cases, inl, inr,
  ltb, arith,
}
use commonsdb_iroh_service.Prelude.Bytes.{bytes_eq_refl}
use commonsdb_iroh_service.Record.{Hash}
use commonsdb_iroh_service.BlobStore.{BlobStore}
use commonsdb_iroh_service.Exec.{ok, ok_of_and_then}
use commonsdb_iroh_service.Similarity.{IsccMember}
use commonsdb_iroh_service.IsccStore.{
  IndexJson, BucketManifest, segment_max_members, split_last, sub_u64, same_member, any_same,
  add_members, load_segment, load_segments, open_tail,
}
use commonsdb_iroh_service.IsccStore.Segments.{
  segment_max_members_pos, IsFull, HasSize, IsPacked, Split,
}

pub any_same-left :
    (m : IsccMember) (xs ys : List IsccMember) → any_same m xs ≡ true → any_same m (xs ++ ys) ≡ true
unfolding any_same
any_same-left m [] ys h = cc
any_same-left m (x ∷ xs) ys h = ground (arith, any_same-left m xs ys)

pub any_same_right :
    (m : IsccMember) (xs ys : List IsccMember) → any_same m ys ≡ true → any_same m (xs ++ ys) ≡ true
unfolding any_same
any_same_right m [] ys h = h
any_same_right m (x ∷ xs) ys h = ground (arith, any_same_right m xs ys)

pub any_same_here : (m : IsccMember) (xs ys : List IsccMember) → any_same m (xs ++ m ∷ ys) ≡ true
unfolding any_same same_member
any_same_here m [] ys = ground (arith, bytes_eq_refl m.key)
any_same_here m (x ∷ xs) ys = ground (arith, any_same_here m xs ys)

-- `r` is `members` with some of the batch behind, and has each of the batch.
pub record Added (members batch r : List IsccMember) : Type 0 where
  pub added : List IsccMember
  pub behind : r ≡ members ++ added
  pub has_batch : All (λ m. any_same m r ≡ true) batch
  pub of_batch : All (λ m. any_same m batch ≡ true) added

any_same_cons :
    (m n : IsccMember) (xs : List IsccMember) → any_same m xs ≡ true → any_same m (n ∷ xs) ≡ true
unfolding any_same
any_same_cons m n xs h = ground (arith, h)

pub add_members-Added : (tail batch : List IsccMember) → Added tail batch (add_members tail batch)
unfolding add_members
add_members-Added tail [] = record {
  added = [];
  behind = sym (append-nil tail);
  has_batch = tt;
  of_batch = tt;
}
add_members-Added tail (m ∷ batch) =
    let old = add_members-Added tail batch in
    let new = add_members-Added (tail ++ m ∷ []) batch in
    elim (Bool-cases (any_same m tail)) [
      | inl there ↦ rw there record {
        added = old.added;
        behind = old.behind;
        has_batch = (rw (old.behind) (any_same-left m tail old.added there), old.has_batch);
        of_batch = All-map _ _ old.added (λ n. any_same_cons n m batch) old.of_batch;
      }
      | inr fresh ↦ rw fresh record {
        added = m ∷ new.added;
        behind = new.behind ∙ append_assoc tail (m ∷ []) new.added;
        has_batch = (
          rw (new.behind, append_assoc tail (m ∷ []) new.added) (any_same_here m tail new.added),
          new.has_batch,
        );
        of_batch = (
          any_same_here m [] batch,
          All-map _ _ new.added (λ n. any_same_cons n m batch) new.of_batch,
        );
      }
    ]

pub nothing-Added : (members : List IsccMember) → Added members [] members
nothing-Added members = record {
  added = [];
  behind = sym (append-nil members);
  has_batch = tt;
  of_batch = tt;
}

no_member : (added : List IsccMember) → All (λ m. any_same m [] ≡ true) added → added ≡ []
unfolding any_same
no_member [] h = refl
no_member (m ∷ added) h = absurd (let no = h.0 in cc)

pub nothing_added : (members r : List IsccMember) → Added members [] r → r ≡ members
unfolding any_same
nothing_added members r a =
    a.behind ∙ ap (λ l. members ++ l) (no_member a.added a.of_batch) ∙ append-nil members

-- What stands before the opened tail counts in again.
pub Added-append :
    (frozen tail batch r : List IsccMember)
    → Added tail batch r
    → Added (frozen ++ tail) batch (frozen ++ r)
Added-append frozen tail batch r a = record {
  added = a.added;
  behind = ap (λ l. frozen ++ l) a.behind ∙ sym (append_assoc frozen tail a.added);
  has_batch = All-map _ _ batch (λ m. any_same_right m frozen r) a.has_batch;
  of_batch = a.of_batch;
}

-- The step of `split_last`.
abbrev put_first : Hash → Option (List Hash × Hash) → Option (List Hash × Hash)
put_first h none = some ([], h)
put_first h (some (before, last)) = some (h ∷ before, last)

split_last-cons :
    (h : Hash) (hashes : List Hash) → split_last (h ∷ hashes) ≡ put_first h (split_last hashes)
unfolding split_last
split_last-cons h hashes = elim (Option-cases (split_last hashes)) [
  | inl e ↦ rw e refl
  | inr (found, e) ↦ rw e refl
]

-- What a split says of the list.
abbrev Parts : List Hash → Option (List Hash × Hash) → Type 0
Parts hashes none = hashes ≡ []
Parts hashes (some (before, last)) = hashes ≡ before ++ last ∷ []

Parts-put_first :
    (h : Hash) (hashes : List Hash) (o : Option (List Hash × Hash))
    → Parts hashes o
    → Parts (h ∷ hashes) (put_first h o)
Parts-put_first h hashes none p = ap (λ l. h ∷ l) p
Parts-put_first h hashes (some (before, last)) p = ap (λ l. h ∷ l) p

split_last-Parts : (hashes : List Hash) → Parts hashes (split_last hashes)
unfolding split_last
split_last-Parts [] = refl
split_last-Parts (h ∷ hashes) =
    let rest = split_last-Parts hashes in
    rw (split_last-cons h hashes) (Parts-put_first h hashes (split_last hashes) rest)

sub_u64_of_sum : (c a b : ℕ) → c ≡ (a + b) % 2 ^ 64 → sub_u64 c b ≡ a % 2 ^ 64
unfolding sub_u64
sub_u64_of_sum c a b h = omega (arith, h)

module _ (json : IndexJson) {S : Type 0} (store : BlobStore S) where
  load_segments_parts :
      (s : S) (before : List Hash) (last : Hash) (members : List IsccMember)
      → load_segments json store s (before ++ last ∷ []) ≡ ok members
      → (a : List IsccMember) × (b : List IsccMember) × (load_segments json store s before ≡ ok a)
        × (load_segment json store s last ≡ ok b)
        × (members ≡ a ++ b)
  unfolding load_segments
  load_segments_parts s [] last members h =
      let (b, loaded, rest) = ok_of_and_then (load_segment json store s last) _ members h in
      ([], b, refl, loaded, (let e : b ++ [] ≡ members = cc in sym e ∙ append-nil b))
  load_segments_parts s (x ∷ before) last members h =
      let (first, loaded, rest) = ok_of_and_then (load_segment json store s x) _ members h in
      let (others, loads, joined) =
        ok_of_and_then (load_segments json store s (before ++ last ∷ [])) _ members rest in
      let (a, b, loads_a, loads_b, parts) = load_segments_parts s before last others loads in
      let whole : members ≡ first ++ others = cc in
      (
        first ++ a,
        b,
        rw (loaded, loads_a) refl,
        loads_b,
        whole ∙ ap (λ l. first ++ l) parts ∙ sym (append_assoc first a b),
      )

  -- What `open_tail` gives on a manifest whose segments hold `members`.
  pub record Opened (s : S) (bucket : BucketManifest) (members : List IsccMember)
      (opened : BucketManifest) (tail : List IsccMember) : Type 0 where
    pub frozen : List IsccMember
    pub loads : load_segments json store s opened.segments ≡ ok frozen
    pub parts : members ≡ frozen ++ tail
    pub short : length tail < segment_max_members
    pub count : bucket.count ≡ length members % 2 ^ 64 → opened.count ≡ length frozen % 2 ^ 64
    pub full : IsPacked json store s bucket.segments → All (IsFull json store s) opened.segments

  -- A tail that is not short of a full segment is full, since it is no longer than one.
  last-IsFull :
      (s : S) (last : Hash) (b : List IsccMember)
      → load_segment json store s last ≡ ok b
      → ltb (length b) segment_max_members ≡ false
      → HasSize json store (λ n. n ≤ segment_max_members) s last
      → IsFull json store s last
  last-IsFull s last b loads long (members, loads', fits) =
      let same : members ≡ b = cc in
      let sizes : length members ≡ length b = ap length same in
      (b, loads, ground (arith, long, fits, sizes))

  open_tail_split :
      (s : S) (bucket : BucketManifest) (members before_members tail : List IsccMember)
      (before : List Hash) (last : Hash)
      → load_segments json store s bucket.segments ≡ ok members
      → split_last bucket.segments ≡ some (before, last)
      → bucket.segments ≡ before ++ last ∷ []
      → load_segments json store s before ≡ ok before_members
      → load_segment json store s last ≡ ok tail
      → members ≡ before_members ++ tail
      → (opened : BucketManifest) × (rest : List IsccMember) × (open_tail json store bucket s
          ≡ ok (opened, rest))
        × Opened s bucket members opened rest
  unfolding open_tail
  open_tail_split s bucket members a b before last h e whole loads_a loads_b both =
      elim (Bool-cases (ltb (length b) segment_max_members)) [
        | inl short ↦ (
          record { count = sub_u64 bucket.count (length b); segments = before },
          b,
          rw (open_tail, e, loads_b, short) refl,
          record {
            frozen = a;
            loads = loads_a;
            parts = both;
            short = ground (arith, short);
            count = λ c.
                sub_u64_of_sum bucket.count (length a) (length b)
                  (c ∙ ap (λ n. n % 2 ^ 64) (ap length both ∙ length-append a b));
            full = λ p. (let q : Split json store s (some (before, last)) = (rw e at p) in q.0);
          },
        )
        | inr long ↦ (
          bucket,
          [],
          rw (open_tail, e, loads_b, long) refl,
          record {
            frozen = members;
            loads = h;
            parts = sym (append-nil members);
            short = segment_max_members_pos;
            count = λ c. c;
            full = λ p.
                (let q : Split json store s (some (before, last)) = (rw e at p) in
                  rw whole (
                    All-append (IsFull json store s) before (last ∷ []) q.0
                      (last-IsFull s last b loads_b long q.1, tt)));
          },
        )
      ]

  pub open_tail-Opened :
      (s : S) (bucket : BucketManifest) (members : List IsccMember)
      → load_segments json store s bucket.segments ≡ ok members
      → (opened : BucketManifest) × (tail : List IsccMember) × (open_tail json store bucket s
          ≡ ok (opened, tail))
        × Opened s bucket members opened tail
  unfolding open_tail
  open_tail-Opened s bucket members h =
      let parts = split_last-Parts bucket.segments in
      elim (Option-cases (split_last bucket.segments)) [
        | inl e ↦
            let nothing : bucket.segments ≡ [] = (rw e at parts) in
            (
              bucket,
              [],
              rw (open_tail, e) refl,
              record {
                frozen = members;
                loads = h;
                parts = sym (append-nil members);
                short = segment_max_members_pos;
                count = λ c. c;
                full = λ p. rw nothing tt;
              },
            )
        | inr ((before, last), e) ↦
            let whole : bucket.segments ≡ before ++ last ∷ [] = (rw e at parts) in
            let (a, b, loads_a, loads_b, both) =
              load_segments_parts s before last members (rw whole at h) in
            open_tail_split s bucket members a b before last h e whole loads_a loads_b both
      ]
