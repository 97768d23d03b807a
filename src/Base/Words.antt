-- ===== src/Base/Words.antt =====
-- Machine words as native numbers: `unsigned int` is a number below 2 ^ 32, `uint8_t *` an
-- address below 2 ^ 64, with NULL as 0.
use Prim.Native.Nat.{ℕ, ◌+◌, ◌-◌, ◌*◌, ◌%◌, ◌^◌, ◌≤◌, ◌<◌}
use mathlib.Core.Path.{◌≡◌}
use native.Mathlib.Omega.{arith}

abbrev pub u32_mod : ℕ
u32_mod = 2 ^ 32

abbrev pub u64_mod : ℕ
u64_mod = 2 ^ 64

abbrev pub null : ℕ
null = 0

-- Sums and differences of `unsigned int`.
abbrev pub add32 : ℕ → ℕ → ℕ
add32 a b = (a + b) % u32_mod

abbrev pub sub32 : ℕ → ℕ → ℕ
sub32 a b = (a + u32_mod - b) % u32_mod

-- `(unsigned int)(a - b)` for two pointers: the difference modulo 2 ^ 64, cut to 32 bits.
abbrev pub ptr_diff : ℕ → ℕ → ℕ
ptr_diff a b = (a + u64_mod - b) % u32_mod

pub ptr_diff_le : (a b : ℕ) → b ≤ a → a - b < u32_mod → ptr_diff a b ≡ a - b
ptr_diff_le a b h k = omega arith

abbrev pub mul32 : ℕ → ℕ → ℕ
mul32 a b = a * b % u32_mod
