-- ===== src/Base/Bytes.antt =====
-- Numbers as bytes, the lowest first.
use Prim.Native.Nat.{ℕ, zero, suc, ◌+◌, ◌*◌, ◌/◌, ◌%◌, ◌^◌, ◌<◌}
use mathlib.Core.Path.{◌≡◌, refl, ap}
use mathlib.Core.List.{List, [], ◌∷◌}
use native.Mathlib.Omega.{arith}
use native.Mathlib.Nat.{pow-suc}
use proj.Base.Lists.{All, length}

-- The number with these digits to the base 256, the lowest first.
abbrev pub little_endian : List ℕ → ℕ
little_endian [] = 0
little_endian (b ∷ bs) = b + 256 * little_endian bs

abbrev pub IsBytes : List ℕ → Type 0
IsBytes = All (λ b. b < 256)

-- The `size` lowest bytes of a number.
abbrev pub to_bytes : ℕ → ℕ → List ℕ
to_bytes zero x = []
to_bytes (suc n) x = x % 256 ∷ to_bytes n (x / 256)

pub length-to_bytes : (n x : ℕ) → length (to_bytes n x) ≡ n
length-to_bytes zero x = refl
length-to_bytes (suc n) x = ap suc (length-to_bytes n (x / 256))

pub to_bytes-IsBytes : (n x : ℕ) → IsBytes (to_bytes n x)
to_bytes-IsBytes zero x = tt
to_bytes-IsBytes (suc n) x = (omega arith, to_bytes-IsBytes n (x / 256))

pub little_endian-to_bytes : (n x : ℕ) → x < 256 ^ n → little_endian (to_bytes n x) ≡ x
little_endian-to_bytes zero x h = omega arith
little_endian-to_bytes (suc n) x h =
    omega (arith, little_endian-to_bytes n (x / 256) (omega (arith, h, pow-suc 256 n)))
