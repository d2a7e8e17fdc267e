-- ===== src/Similarity/Bands.antt =====
-- What the bands of crates/registry-core/src/similarity.rs find: codes that differ in fewer bits than
-- there are bands share a bucket.
use commonsdb_iroh_service.Prelude.{
  ℕ, zero, suc, ◌+◌, ◌*◌, ◌-◌, ◌/◌, ◌%◌, ◌^◌, ◌<◌, ◌≤◌, ◌≡◌, ◌∙◌, refl, ap, Bool-cases, inl, inr,
  ltb, not, ◌||◌, some, map, get_elem?, ◌==◌, ==_iff, arith,
}
use mathlib.Core.Path.{subst}
use native.Mathlib.Nat.{
  pow-suc, div-div-eq-div-mul, div-add-mod, add-mul-mod_self_left, mod-eq_of_lt, mod-lt, one-le-pow,
}
use commonsdb_iroh_service.Prelude.Words.{bit_xor, count_ones, range_from}
use commonsdb_iroh_service.Exec.{ok, err}
use commonsdb_iroh_service.Similarity.{
  BandParams, BucketId, invalid_band_count, hamming, new_params, band_width, band_value, bucket_id,
  buckets,
}

-- The number of places among the low `w` in which two words differ.
unfoldable pub differing : ℕ → ℕ → ℕ → ℕ
differing zero a b = 0
differing (suc w) a b = (a % 2 + b % 2) % 2 + differing w (a / 2) (b / 2)

count_ones-bit_xor : (w a b : ℕ) → count_ones w (bit_xor w a b) ≡ differing w a b
unfolding count_ones bit_xor differing
count_ones-bit_xor zero a b = refl
count_ones-bit_xor (suc w) a b =
    let x = bit_xor w (a / 2) (b / 2) in
    let d = (a % 2 + b % 2) % 2 in
    let high : (d + 2 * x) / 2 ≡ x = omega arith in
    let low : (d + 2 * x) % 2 ≡ d = omega arith in
    rw (high, low, count_ones-bit_xor w (a / 2) (b / 2)) refl

half_of_power : (a m : ℕ) → a / 2 / 2 ^ m ≡ a / 2 ^ suc m
half_of_power a m =
    let e : 2 * 2 ^ m ≡ 2 ^ suc m = omega (arith, pow-suc 2 m) in
    div-div-eq-div-mul a 2 (2 ^ m) ∙ ap (λ t. a / t) e

differing-add :
    (m w a b : ℕ) → differing (m + w) a b ≡ differing m a b + differing w (a / 2 ^ m) (b / 2 ^ m)
unfolding differing
differing-add zero w a b =
    let e : 0 + w ≡ w = omega arith in
    let f : a / 1 ≡ a = omega arith in let g : b / 1 ≡ b = omega arith in rw (e, f, g) (omega arith)
differing-add (suc m) w a b =
    let e : suc m + w ≡ suc (m + w) = omega arith in
    let ih = differing-add m w (a / 2) (b / 2) in
    let ih' = rw (half_of_power a m, half_of_power b m) at ih in rw e (omega arith)

-- The lowest bit of a remainder by a power of two, and the rest of it.
low_bits : (a m : ℕ) → a % 2 ^ suc m ≡ a % 2 + 2 * (a / 2 % 2 ^ m)
low_bits a m =
    let p = 2 ^ m in
    let q = a / 2 / p in
    let r = a / 2 % p in
    let low : r < p = mod-lt (a / 2) (omega (arith, one-le-pow m 2)) in
    let split : p * q + r ≡ a / 2 = div-add-mod (a / 2) p in
    let twice : 2 * p * q ≡ 2 * (p * q) = omega arith in
    let whole : a ≡ a % 2 + 2 * r + 2 * p * q = omega arith in
    let e : 2 ^ suc m ≡ 2 * p = omega (arith, pow-suc 2 m) in
    rw e (
      ap (λ t. t % (2 * p)) whole
      ∙ add-mul-mod_self_left (a % 2 + 2 * r) (2 * p) q
      ∙ mod-eq_of_lt (omega arith))

same_low : (w a b : ℕ) → differing w a b ≡ 0 → a % 2 ^ w ≡ b % 2 ^ w
unfolding differing
same_low zero a b h = omega arith
same_low (suc w) a b h =
    let ih = same_low w (a / 2) (b / 2) (omega arith) in
    rw (low_bits a w, low_bits b w) (omega arith)

-- Band `i` of width `w`, from the lowest.
abbrev low_band : ℕ → ℕ → ℕ → ℕ
low_band w i a = a / 2 ^ (w * i) % 2 ^ w

pigeonhole :
    (w n a b : ℕ)
    → differing (w * n) a b < n
    → (i : ℕ) × (i < n) × (low_band w i a ≡ low_band w i b)
pigeonhole w zero a b h = absurd (omega arith)
pigeonhole w (suc n) a b h =
    let e : w * suc n ≡ w * n + w = omega arith in
    let whole = differing-add (w * n) w a b in
    let top = differing w (a / 2 ^ (w * n)) (b / 2 ^ (w * n)) in
    let few = rw e at h in
    elim (Bool-cases (top == 0)) [
      | inl z ↦
          (n, omega arith, same_low w (a / 2 ^ (w * n)) (b / 2 ^ (w * n)) ((==_iff top 0).0 z))
      | inr s ↦
          let some_differ : 1 ≤ top = ground arith in
          let (i, below, same) = pigeonhole w n a b (omega arith) in (i, omega arith, same)
    ]

get_elem?-map_range :
    {A : Type 0} (f : ℕ → A) (from n i : ℕ)
    → i < n
    → get_elem? (map f (range_from from n)) i ≡ some (f (from + i))
unfolding range_from
get_elem?-map_range f from zero i h = absurd (omega arith)
get_elem?-map_range f from (suc n) zero h = let e : from + 0 ≡ from = omega arith in rw e refl
get_elem?-map_range f from (suc n) (suc i) h =
    let e : suc from + i ≡ from + suc i = omega arith in
    get_elem?-map_range f (suc from) n i (omega arith) ∙ ap (λ t. some (f t)) e

-- Bands that fill a code, counted from the highest as the source does.
shared_band :
    (w n a b : ℕ)
    → w * n ≡ 64
    → differing 64 a b < n
    → (i : ℕ) × (i < n) × (a / 2 ^ (64 - w * (i + 1)) % 2 ^ w ≡ b / 2 ^ (64 - w * (i + 1)) % 2 ^ w)
shared_band w n a b fills near =
    let (j, below, same) = pigeonhole w n a b (rw fills near) in
    let shift : 64 - w * (n - (j + 1) + 1) ≡ w * j = shift_lem w n j fills below in
    (n - (j + 1), omega arith, rw shift same)
  where
    shift_lem : (w n j : ℕ) → w * n ≡ 64 → j < n → 64 - w * (n - (j + 1) + 1) ≡ w * j
    shift_lem w n j fills below =
        let e : n - (j + 1) + 1 ≡ n - j = omega arith in
        let f : n - j + j ≡ n = omega arith in
        let g : w * (n - j + j) ≡ w * (n - j) + w * j = omega arith in
        let k = rw f at g in rw e (omega arith)

-- What `BandParams::new` lets through: equal bands that fill the code.
new_params_fills :
    (n : ℕ) (params : BandParams)
    → new_params n ≡ ok params
    → band_width params * params.num_bands ≡ 64
unfolding new_params band_width
new_params_fills zero params h = cc
new_params_fills (suc n) params h = elim (Bool-cases (ltb 64 (suc n) || not (64 % suc n == 0))) [
  | inl bad ↦ let refused : err (invalid_band_count (suc n)) ≡ ok params = rw bad at h in cc
  | inr good ↦
      let built : ok record { num_bands = suc n } ≡ ok params = rw good at h in
      let count : suc n ≡ params.num_bands = cc in
      let exact : 64 % suc n ≡ 0 = ground arith in
      let whole = div-add-mod 64 (suc n) in subst (λ m. 64 / m * m ≡ 64) count (omega arith)
]

get_elem?-buckets :
    (params : BandParams) (code i : ℕ)
    → i < params.num_bands
    → get_elem? (buckets params code) i ≡ some (bucket_id params code i)
unfolding buckets
get_elem?-buckets params code i h =
    let e : 0 + i ≡ i = omega arith in
    get_elem?-map_range (bucket_id params code) 0 params.num_bands i h
    ∙ ap (λ t. some (bucket_id params code t)) e

bucket_id_eq :
    (params : BandParams) (a b i : ℕ)
    → band_value params a i ≡ band_value params b i
    → bucket_id params a i ≡ bucket_id params b i
unfolding bucket_id
bucket_id_eq params a b i e = ap (λ v. record { band_index = i; band_value = v }) e

hamming_lem : (a b : ℕ) → hamming a b ≡ differing 64 a b
unfolding hamming
hamming_lem a b = count_ones-bit_xor 64 a b

-- With parameters that `BandParams::new` made, two codes that differ in fewer bits than there are
-- bands have the same bucket at some position of their bucket lists.
pub shared_bucket :
    (n : ℕ) (params : BandParams) (a b : ℕ)
    → new_params n ≡ ok params
    → hamming a b < params.num_bands
    → (i : ℕ) × (i < params.num_bands)
      × (id : BucketId) × (get_elem? (buckets params a) i ≡ some id)
      × (get_elem? (buckets params b) i ≡ some id)
unfolding band_value
shared_bucket n params a b h near =
    let fills = new_params_fills n params h in
    let near' : differing 64 a b < params.num_bands = rw (hamming_lem a b) at near in
    let (i, below, same) = shared_band (band_width params) params.num_bands a b fills near' in
    let value : band_value params a i ≡ band_value params b i = same in
    (
      i,
      below,
      bucket_id params b i,
      get_elem?-buckets params a i below ∙ ap some (bucket_id_eq params a b i value),
      get_elem?-buckets params b i below,
    )
