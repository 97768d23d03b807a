-- ===== src/Kernel/Exclusion/Lists.antt =====
-- Membership in a list of references, by recursion.
use proj.Base.{ℕ, List, [], ◌∷◌, ◌++◌, ◌≡◌, sym, ◌⊎◌, inl, inr}

abbrev pub In : ℕ → List ℕ → Type 0
In m [] = ⊥
In m (x ∷ xs) = (x ≡ m) ⊎ In m xs

abbrev pub Distinct : List ℕ → Type 0
Distinct [] = Unit {0}
Distinct (x ∷ xs) = (¬ In x xs) × Distinct xs

pub In-snoc : (m n : ℕ) (xs : List ℕ) → In m (xs ++ (n ∷ [])) → In m xs ⊎ (n ≡ m)
In-snoc m n [] (inl e) = inr e
In-snoc m n [] (inr e) = absurd e
In-snoc m n (x ∷ xs) (inl e) = inl (inl e)
In-snoc m n (x ∷ xs) (inr i) = elim (In-snoc m n xs i) [ inl j ↦ inl (inr j) | inr e ↦ inr e ]

pub Distinct-snoc : (n : ℕ) (xs : List ℕ) → Distinct xs → ¬ In n xs → Distinct (xs ++ (n ∷ []))
Distinct-snoc n [] d a = (λ i. i, tt)
Distinct-snoc n (x ∷ xs) d a = (
  λ i. elim (In-snoc x n xs i) [ inl j ↦ d.0 j | inr e ↦ a (inl (sym e)) ],
  Distinct-snoc n xs d.1 (λ i. a (inr i)),
)
