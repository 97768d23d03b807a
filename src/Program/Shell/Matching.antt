-- ===== src/Program/Shell/Matching.antt =====
-- What the comparisons of the shell (apps/shell.c) decide.
use proj.Base.{List, [], arith, length, refl, suc, take, true, zero, ℕ, ◌++◌, ◌↔◌, ◌∷◌, ◌≡◌}
use proj.Program.Shell.{string_match, string_match_n}

-- StringMatch holds for equal strings only.
pub string_match_iff : (left right : List ℕ) → (string_match left right ≡ true) ↔ (left ≡ right)
unfolding string_match
string_match_iff [] [] = ground arith
string_match_iff (c ∷ left) [] = ground arith
string_match_iff [] (d ∷ right) = ground arith
string_match_iff (c ∷ left) (d ∷ right) = ground (arith, string_match_iff left right)

-- StringMatchN holds where the first `n` characters are the same, a string that ends before them
-- being as short as the other.
pub string_match_n_iff :
    (left right : List ℕ) (n : ℕ)
    → (string_match_n left right n ≡ true) ↔ (take n left ≡ take n right)
unfolding string_match_n
string_match_n_iff left right zero = ground arith
string_match_n_iff [] [] (suc n) = ground arith
string_match_n_iff (c ∷ left) [] (suc n) = ground arith
string_match_n_iff [] (d ∷ right) (suc n) = ground arith
string_match_n_iff (c ∷ left) (d ∷ right) (suc n) = ground (arith, string_match_n_iff left right n)

-- A string that starts with the second one.
pub string_match_n_prefix :
    (word rest : List ℕ) → string_match_n (word ++ rest) word (length word) ≡ true
unfolding string_match_n
string_match_n_prefix [] rest = refl
string_match_n_prefix (c ∷ word) rest = ground (arith, string_match_n_prefix word rest)
