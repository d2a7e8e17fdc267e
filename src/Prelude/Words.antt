-- ===== src/Prelude/Words.antt =====
-- Machine words of `w` bits as numbers: the bitwise operators, and the number of bits in which two
-- words differ.
use Prim.Native.Nat.{ℕ, zero, suc, ◌+◌, ◌*◌, ◌/◌, ◌%◌}
use mathlib.Core.List.{List, [], ◌∷◌}
use commonsdb_iroh_service.Prelude.Tests.{◌==◌, if◌then◌else◌}

-- `a ^ b`
unfoldable pub bit_xor : ℕ → ℕ → ℕ → ℕ
bit_xor zero a b = 0
bit_xor (suc w) a b = (a % 2 + b % 2) % 2 + 2 * bit_xor w (a / 2) (b / 2)

-- `a | b`
unfoldable pub bit_or : ℕ → ℕ → ℕ → ℕ
bit_or zero a b = 0
bit_or (suc w) a b = (a % 2 + b % 2 + 1) / 2 + 2 * bit_or w (a / 2) (b / 2)

-- `a.count_ones()`
unfoldable pub count_ones : ℕ → ℕ → ℕ
count_ones zero a = 0
count_ones (suc w) a = a % 2 + count_ones w (a / 2)

-- `w - a.leading_zeros()`: the bits up to the highest one that is set.
unfoldable pub bit_length : ℕ → ℕ → ℕ
bit_length zero a = 0
bit_length (suc w) a = let n = bit_length w (a / 2) in if a == 0 then 0 else suc n

-- `(0..n)`, and `(from..from + n)`
unfoldable pub range_from : ℕ → ℕ → List ℕ
range_from from zero = []
range_from from (suc n) = from ∷ range_from (suc from) n
