-- ===== src/Examples/Similar.antt =====
-- The similarity index of crates/registry-core/src/iscc_store.rs over the in-memory store, with a text
-- of the structures that stands for serde_json.
use commonsdb_iroh_service.Prelude.{
  ℕ, zero, suc, ◌≡◌, refl, ap, ◌∙◌, Bool, true, ◌&&◌, List, [], ◌∷◌, ◌++◌, map, String, All, arith,
  if◌then◌else◌, Bool-cases, inl, inr,
}
use commonsdb_iroh_service.Prelude.Bytes.{Bytes}
use commonsdb_iroh_service.BTree.{IsMap, bytes_lt}
use commonsdb_iroh_service.Record.{Hash}
use commonsdb_iroh_service.Exec.{Result, ok, err}
use commonsdb_iroh_service.Similarity.{IsccMember}
use commonsdb_iroh_service.IsccStore.{IndexJson, DirectoryV2, BucketManifest}

-- Numbers moved up by one, each string closed by a 0.
unfoldable pub pack : List Bytes → Bytes
pack [] = []
pack (b ∷ bs) = map suc b ++ 0 ∷ pack bs

abbrev pub push_first : ℕ → List Bytes → List Bytes
push_first n [] = (n ∷ []) ∷ []
push_first n (b ∷ bs) = (n ∷ b) ∷ bs

unfoldable pub unpack : Bytes → List Bytes
unpack [] = []
unpack (zero ∷ text) = [] ∷ unpack text
unpack (suc n ∷ text) = push_first n (unpack text)

unpack_first : (b : Bytes) (text : Bytes) → unpack (map suc b ++ 0 ∷ text) ≡ b ∷ unpack text
unfolding unpack
unpack_first [] text = refl
unpack_first (n ∷ b) text = ap (push_first n) (unpack_first b text)

pub unpack-pack : (bs : List Bytes) → unpack (pack bs) ≡ bs
unfolding pack unpack
unpack-pack [] = refl
unpack-pack (b ∷ bs) = unpack_first b (pack bs) ∙ ap (λ l. b ∷ l) (unpack-pack bs)

unfoldable pub of_members : List IsccMember → List Bytes
of_members [] = []
of_members (m ∷ members) = (m.content_code ∷ m.key) ∷ of_members members

unfoldable pub to_members : List Bytes → List IsccMember
to_members [] = []
to_members ([] ∷ bs) = []
to_members ((code ∷ key) ∷ bs) = record { key = key; content_code = code } ∷ to_members bs

pub to-of_members : (members : List IsccMember) → to_members (of_members members) ≡ members
unfolding to_members of_members
to-of_members [] = refl
to-of_members (m ∷ members) = ap (λ l. m ∷ l) (to-of_members members)

unfoldable pub of_rows : List (Bytes × Hash) → List Bytes
of_rows [] = []
of_rows (row ∷ rows) = row.0 ∷ row.1 ∷ of_rows rows

unfoldable pub to_rows : List Bytes → List (Bytes × Hash)
to_rows [] = []
to_rows (b ∷ []) = []
to_rows (k ∷ h ∷ bs) = (k, h) ∷ to_rows bs

to-of_rows : (rows : List (Bytes × Hash)) → to_rows (of_rows rows) ≡ rows
unfolding to_rows of_rows
to-of_rows [] = refl
to-of_rows (row ∷ rows) = ap (λ l. row ∷ l) (to-of_rows rows)

unfoldable pub below_all : Bytes → List (Bytes × Hash) → Bool
below_all key [] = true
below_all key (row ∷ rows) = bytes_lt key row.0 && below_all key rows

unfoldable pub is_map : List (Bytes × Hash) → Bool
unfolding below_all
is_map [] = true
is_map (row ∷ rows) = below_all row.0 rows && is_map rows

below_all-All :
    (key : Bytes) (rows : List (Bytes × Hash))
    → below_all key rows ≡ true
    → All (λ other. bytes_lt key other.0 ≡ true) rows
unfolding below_all
below_all-All key [] h = tt
below_all-All key (row ∷ rows) h = (ground (arith, h), below_all-All key rows (ground (arith, h)))

below_all_of :
    (key : Bytes) (rows : List (Bytes × Hash))
    → All (λ other. bytes_lt key other.0 ≡ true) rows
    → below_all key rows ≡ true
unfolding below_all
below_all_of key [] h = refl
below_all_of key (row ∷ rows) h = rw (h.0, below_all_of key rows h.1) refl

is_map-IsMap : (rows : List (Bytes × Hash)) → is_map rows ≡ true → IsMap rows
unfolding is_map
is_map-IsMap [] h = tt
is_map-IsMap (row ∷ rows) h =
    (below_all-All row.0 rows (ground (arith, h)), is_map-IsMap rows (ground (arith, h)))

is_map_of : (rows : List (Bytes × Hash)) → IsMap rows → is_map rows ≡ true
unfolding is_map
is_map_of [] m = refl
is_map_of (row ∷ rows) m = rw (below_all_of row.0 rows m.0, is_map_of rows m.1) refl

unfoldable pub checked : {A : Type 0} → List (Bytes × Hash) → A → Result String A
unfolding is_map
checked rows a = if is_map rows then ok a else err "not a map"

pub checked-IsMap :
    {A : Type 0} (rows : List (Bytes × Hash)) (a b : A)
    → checked rows a ≡ ok b
    → IsMap rows × (a ≡ b)
unfolding checked
checked-IsMap rows a b h = elim (Bool-cases (is_map rows)) [
  | inl e ↦ (is_map-IsMap rows e, (let h' = (rw e at h) in cc))
  | inr e ↦ absurd (let h' = (rw e at h) in cc)
]

unfoldable pub read_manifest : List Bytes → Result String BucketManifest
read_manifest ((count ∷ []) ∷ segments) = ok record { count = count; segments = segments }
read_manifest _ = err "no manifest"

unfoldable pub read_directory : List Bytes → Result String DirectoryV2
unfolding to_rows checked
read_directory ((v ∷ []) ∷ bs) = checked (to_rows bs) record { v = v; buckets = to_rows bs }
read_directory _ = err "no directory"

pub read_directory-IsMap :
    (bs : List Bytes) (d : DirectoryV2) → read_directory bs ≡ ok d → IsMap d.buckets
unfolding read_directory
read_directory-IsMap [] d h = cc
read_directory-IsMap ([] ∷ bs) d h = cc
read_directory-IsMap ((v ∷ []) ∷ bs) d h =
    let (m, same) = checked-IsMap (to_rows bs) record { v = v; buckets = to_rows bs } d h in
    (rw (ap (λ (e : DirectoryV2). e.buckets) same) at m)
read_directory-IsMap ((v ∷ w ∷ k) ∷ bs) d h = cc

unfoldable pub write_directory : DirectoryV2 → Bytes
unfolding pack of_rows
write_directory d = pack ((d.v ∷ []) ∷ of_rows d.buckets)

pub directory_back :
    (d : DirectoryV2) → IsMap d.buckets → read_directory (unpack (write_directory d)) ≡ ok d
unfolding read_directory checked write_directory
directory_back d m =
    rw (unpack-pack ((d.v ∷ []) ∷ of_rows d.buckets), to-of_rows d.buckets, is_map_of d.buckets m)
      refl

unfoldable pub packed_json : IndexJson
unfolding pack unpack of_members to_members read_manifest read_directory write_directory
packed_json = record {
  directory_to_json = write_directory;
  directory_from_json = λ b. read_directory (unpack b);
  legacy_from_json = λ b. checked (to_rows (unpack b)) (to_rows (unpack b));
  manifest_to_json = λ m. pack ((m.count ∷ []) ∷ m.segments);
  manifest_from_json = λ b. read_manifest (unpack b);
  members_to_json = λ l. pack (of_members l);
  members_from_json = λ b. ok (to_members (unpack b));
  manifest_from-to = λ m. ap read_manifest (unpack-pack ((m.count ∷ []) ∷ m.segments));
  members_from-to =
      λ l. ap (λ bs. ok (to_members bs)) (unpack-pack (of_members l)) ∙ ap ok (to-of_members l);
  directory_from-to = directory_back;
  directory_from_json-IsMap = λ b d h. read_directory-IsMap (unpack b) d h;
  legacy_from_json-IsMap = λ b rows h.
      let (m, same) = checked-IsMap (to_rows (unpack b)) (to_rows (unpack b)) rows h in
      (rw same at m);
}
