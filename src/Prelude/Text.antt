-- ===== src/Prelude/Text.antt =====
-- `str::trim` and upper case on byte strings, for ASCII.
use commonsdb_iroh_service.Prelude.Tests.{ltb, leb, ◌==◌, if◌then◌else◌}
use commonsdb_iroh_service.Prelude.Lists.{All}
use commonsdb_iroh_service.Prelude.Bytes.{Bytes}
use Prim.Native.Nat.{ℕ, ◌-◌}
use mathlib.Core.Path.{◌≡◌, refl}
use mathlib.Core.Bool.{Bool, false, ◌&&◌, ◌||◌}
use mathlib.Core.List.{[], ◌∷◌}

unfoldable pub is_space : ℕ → Bool
is_space b = b == 32 || (ltb 8 b && ltb b 14)

unfoldable pub trim_start : Bytes → Bytes
unfolding is_space
trim_start [] = []
trim_start (b ∷ bytes) = let rest = trim_start bytes in if is_space b then rest else b ∷ bytes

unfoldable pub trim_end : Bytes → Bytes
unfolding is_space
trim_end [] = []
trim_end (b ∷ bytes) = elim (trim_end bytes) [
  | [] ↦ if is_space b then [] else b ∷ []
  | c ∷ rest ↦ b ∷ c ∷ rest
]

-- `to_ascii_uppercase`
unfoldable pub upper : Bytes → Bytes
upper [] = []
upper (b ∷ bytes) = (if leb 97 b && leb b 122 then b - 32 else b) ∷ upper bytes

pub trim_start_visible :
    (bytes : Bytes) → All (λ b. is_space b ≡ false) bytes → trim_start bytes ≡ bytes
unfolding trim_start
trim_start_visible [] h = refl
trim_start_visible (b ∷ bytes) h = rw (h.0) refl

pub trim_end_visible :
    (bytes : Bytes) → All (λ b. is_space b ≡ false) bytes → trim_end bytes ≡ bytes
unfolding trim_end
trim_end_visible [] h = refl
trim_end_visible (b ∷ []) h = rw (h.0) refl
trim_end_visible (b ∷ c ∷ bytes) h = rw (trim_end_visible (c ∷ bytes) h.1) refl
