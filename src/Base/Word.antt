-- ===== src/Base/Word.antt =====
-- Words of the machine as numbers, with the arithmetic that the source asks for: wrapping
-- (a release build's `+`), saturating and checked.
use Prim.Native.Nat.{ℕ, zero, suc, ◌+◌, ◌-◌, ◌/◌, ◌%◌, min}
use mathlib.Core.List.{List, [], ◌∷◌, ◌++◌}

-- The number of values of `u16`, `u32` and `u64`, and the largest of each.
abbrev pub u16_size : ℕ
u16_size = 65536

abbrev pub u32_max : ℕ
u32_max = 4294967295

abbrev pub u64_size : ℕ
u64_size = 18446744073709551616

abbrev pub u64_max : ℕ
u64_max = 18446744073709551615

-- `a.saturating_add(b)` on `u64`.
abbrev pub saturating_add : ℕ → ℕ → ℕ
saturating_add a b = min (a + b) u64_max

-- `a + b` on `u64` in a release build. (A debug build panics where this wraps.)
abbrev pub wrapping_add : ℕ → ℕ → ℕ
wrapping_add a b = (a + b) % u64_size

-- `a.saturating_sub(b)`.
abbrev pub saturating_sub : ℕ → ℕ → ℕ
saturating_sub a b = a - b

-- The `n` lowest bytes of a number, the lowest first: `to_le_bytes`.
unfoldable pub le_bytes : ℕ → ℕ → List ℕ
le_bytes zero a = []
le_bytes (suc n) a = (a % 256) ∷ le_bytes n (a / 256)

-- The `n` lowest bytes of a number, the highest first: `to_be_bytes`.
unfoldable pub be_bytes : ℕ → ℕ → List ℕ
be_bytes zero a = []
be_bytes (suc n) a = be_bytes n (a / 256) ++ (a % 256) ∷ []

-- `as u32`, and a sum on `u32` in a release build.
abbrev pub as_u32 : ℕ → ℕ
as_u32 n = n % 4294967296
