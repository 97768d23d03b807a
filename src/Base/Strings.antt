-- ===== src/Base/Strings.antt =====
-- Strings of C: the bytes up to the first NUL.
use proj.Base.{Bool-cases, inl, inr}
use Prim.Native.Nat.{ℕ}
use mathlib.Core.Bool.{Bool, true, false, ◌&&◌}
use mathlib.Core.List.{List, [], ◌∷◌}
use mathlib.Core.Logic.{◌≢◌}
use mathlib.Core.Path.{◌≡◌, refl}
use mathlib.Core.List.{◌++◌}
use native.Mathlib.Omega.{arith}
use proj.Base.Tests.{◌==◌, if◌then◌else◌}
use proj.Base.Lists.{All}

unfoldable pub c_string : List ℕ → List ℕ
c_string [] = []
c_string (c ∷ cs) = let rest = c_string cs in if c == 0 then [] else c ∷ rest

unfoldable pub string_eq : List ℕ → List ℕ → Bool
string_eq [] [] = true
string_eq [] (d ∷ ds) = false
string_eq (c ∷ cs) [] = false
string_eq (c ∷ cs) (d ∷ ds) = c == d && string_eq cs ds

-- A string holds no NUL itself.
abbrev pub IsString : List ℕ → Type 0
IsString = All (λ c. c ≢ 0)

-- What stands behind the NUL does not matter.
pub c_string-append : (s rest : List ℕ) → IsString s → c_string (s ++ (0 ∷ rest)) ≡ s
unfolding c_string
c_string-append [] rest h = refl
c_string-append (c ∷ s) rest h = ground (arith, c_string-append s rest h.1, h.0)

pub string_eq_refl : (s : List ℕ) → string_eq s s ≡ true
unfolding string_eq
string_eq_refl [] = refl
string_eq_refl (c ∷ s) = ground (arith, string_eq_refl s)

pub string_eq→eq : (s t : List ℕ) → string_eq s t ≡ true → s ≡ t
unfolding string_eq
string_eq→eq [] [] h = refl
string_eq→eq [] (d ∷ t) h = cc
string_eq→eq (c ∷ s) [] h = cc
string_eq→eq (c ∷ s) (d ∷ t) h = ground (arith, string_eq→eq s t)

pub c_string_self : (s : List ℕ) → IsString s → c_string s ≡ s
unfolding c_string
c_string_self [] h = refl
c_string_self (c ∷ s) h = ground (arith, c_string_self s h.1, h.0)

-- What is read up to a NUL has none.
pub c_string-IsString : (buf : List ℕ) → IsString (c_string buf)
unfolding c_string
c_string-IsString [] = tt
c_string-IsString (c ∷ cs) = elim (Bool-cases (c == 0)) [
  | inl e ↦ rw (c_string, e) tt
  | inr e ↦ rw (c_string, e) (ground (arith, e), c_string-IsString cs)
]
