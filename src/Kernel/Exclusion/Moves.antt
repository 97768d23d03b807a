-- ===== src/Kernel/Exclusion/Moves.antt =====
-- An abstract lock table: for each thread the mutexes that it holds, for each mutex its owner. A
-- move takes a free mutex, gives some up, or leaves the table alone; exclusion is proved of moves.
use proj.Base.{
  ℕ, ◌<◌, List, [], ◌∷◌, ◌++◌, Option, none, some, ◌≡◌, ◌≢◌, sym, ◌∙◌, subst, inl, inr, arith,
}
use mathlib.Core.Path.{subst₂}
use proj.Base.{All}
use proj.Kernel.State.{Kernel}
use proj.Kernel.Exclusion.Lists.{In, Distinct, In-snoc, Distinct-snoc}
use native.Mathlib.Decide.{ℕ_discrete}

abbrev pub held : Kernel → ℕ → List ℕ
held k t = (k.thread t).held_mutex

abbrev pub owner_of : Kernel → ℕ → Option ℕ
owner_of k m = (k.mutex m).owner

-- A mutex that a thread holds is owned by that thread, and is held once; the references held, and
-- those of the vector `mutexes`, are of mutexes that were made.
pub record IsExclusive (k : Kernel) : Type 0 where
  pub owned : (t m : ℕ) → In m (held k t) → owner_of k m ≡ some t
  pub once : (t : ℕ) → Distinct (held k t)
  pub allocated : (t m : ℕ) → In m (held k t) → m < k.next_mutex
  pub known : All (λ m. m < k.next_mutex) k.mutexes

-- In `give` the mutexes that `t` keeps are among those that it held, and no owner changes but of
-- mutexes that `t` gave up.
pub data Move (k k' : Kernel) : Type 0 where
  keep : ((u : ℕ) → held k' u ≡ held k u) → ((m : ℕ) → owner_of k' m ≡ owner_of k m) → Move k k'
  take_free :
      (t m : ℕ)
      → m < k.next_mutex
      → owner_of k m ≡ none
      → owner_of k' m ≡ some t
      → held k' t ≡ held k t ++ (m ∷ [])
      → ((u : ℕ) → u ≢ t → held k' u ≡ held k u)
      → ((n : ℕ) → n ≢ m → owner_of k' n ≡ owner_of k n)
      → Move k k'
  give :
      (t : ℕ)
      → ((u : ℕ) → u ≢ t → held k' u ≡ held k u)
      → ((m : ℕ) → In m (held k' t) → In m (held k t))
      → (Distinct (held k t) → Distinct (held k' t))
      → ((m : ℕ) → ¬ In m (held k t) → owner_of k' m ≡ owner_of k m)
      → (Distinct (held k t) → (m : ℕ) → In m (held k' t) → owner_of k' m ≡ owner_of k m)
      → Move k k'

some≢none : {t : ℕ} → none ≡ some t → ⊥
some≢none e = cc

take_free-owned :
    (k k' : Kernel) (t m : ℕ)
    → IsExclusive k
    → owner_of k m ≡ none
    → owner_of k' m ≡ some t
    → held k' t ≡ held k t ++ (m ∷ [])
    → ((u : ℕ) → u ≢ t → held k' u ≡ held k u)
    → ((n : ℕ) → n ≢ m → owner_of k' n ≡ owner_of k n)
    → (u n : ℕ) → In n (held k' u)
    → owner_of k' n ≡ some u
take_free-owned k k' t m ex free now more others rest u n i = elim (ℕ_discrete u t) [
  | yes e ↦
      elim (In-snoc n m (held k t) (subst (In n) (more) (subst (λ w. In n (held k' w)) e i))) [
        | inl old ↦
            rest n (λ same.
              some≢none (sym free ∙ subst (λ w. owner_of k w ≡ some t) same (ex.owned t n old)))
            ∙ ex.owned t n old
            ∙ cc
        | inr new ↦ subst (λ w. owner_of k' w ≡ some u) new (now ∙ cc)
      ]
  | no d ↦
      let before = ex.owned u n (subst (In n) (others u d) i) in
      rest n (λ same. some≢none (sym free ∙ subst (λ w. owner_of k w ≡ some u) same before))
      ∙ before
]

owner-injective : {t u : ℕ} → some t ≡ some u → t ≡ u
owner-injective e = cc

pub Move-IsExclusive :
    {k k' : Kernel}
    → k'.next_mutex ≡ k.next_mutex
    → k'.mutexes ≡ k.mutexes
    → Move k k'
    → IsExclusive k
    → IsExclusive k'
Move-IsExclusive {k} {k'} next listed (keep holds owners) ex = record {
  owned = λ t m i. owners m ∙ ex.owned t m (subst (In m) (holds t) i);
  known = subst₂ (λ n ms. All (λ m. m < n) ms) (sym next) (sym listed) ex.known;
  once = λ t. subst Distinct (sym (holds t)) (ex.once t);
  allocated = λ t m i. omega (arith, next, ex.allocated t m (subst (In m) (holds t) i));
}
Move-IsExclusive {k} {k'} next listed (take_free t m below free now more others rest) ex = record {
  owned = take_free-owned k k' t m ex free now more others rest;
  known = subst₂ (λ n ms. All (λ m. m < n) ms) (sym next) (sym listed) ex.known;
  once = λ u. elim (ℕ_discrete u t) [
    | yes e ↦
        subst (λ w. Distinct (held k' w)) (sym e)
          (subst Distinct (sym more)
            (Distinct-snoc m (held k t) (ex.once t) (λ i. some≢none (sym free ∙ ex.owned t m i))))
    | no d ↦ subst Distinct (sym (others u d)) (ex.once u)
  ];
  allocated = λ u n i. elim (ℕ_discrete u t) [
    | yes e ↦
        elim (In-snoc n m (held k t) (subst (In n) more (subst (λ w. In n (held k' w)) e i))) [
          | inl old ↦ omega (arith, next, ex.allocated t n old)
          | inr new ↦ omega (arith, next, new, below)
        ]
    | no d ↦ omega (arith, next, ex.allocated u n (subst (In n) (others u d) i))
  ];
}
Move-IsExclusive {k} {k'} next listed (give t others kept once away rest) ex = record {
  owned = λ u n i. elim (ℕ_discrete u t) [
    | yes e ↦
        let j = subst (λ w. In n (held k' w)) e i in
        rest (ex.once t) n j ∙ subst (λ w. owner_of k n ≡ some w) (sym e) (ex.owned t n (kept n j))
    | no d ↦
        let before = ex.owned u n (subst (In n) (others u d) i) in
        away n (λ j. d (owner-injective (sym before ∙ ex.owned t n j))) ∙ before
  ];
  known = subst₂ (λ n ms. All (λ m. m < n) ms) (sym next) (sym listed) ex.known;
  once = λ u. elim (ℕ_discrete u t) [
    | yes e ↦ subst (λ w. Distinct (held k' w)) (sym e) (once (ex.once t))
    | no d ↦ subst Distinct (sym (others u d)) (ex.once u)
  ];
  allocated = λ u n i. elim (ℕ_discrete u t) [
    | yes e ↦ omega (arith, next, ex.allocated t n (kept n (subst (λ w. In n (held k' w)) e i)))
    | no d ↦ omega (arith, next, ex.allocated u n (subst (In n) (others u d) i))
  ];
}

-- Two threads never hold the same mutex.
pub IsExclusive-eq :
    {k : Kernel} (t u m : ℕ) → IsExclusive k → In m (held k t) → In m (held k u) → t ≡ u
IsExclusive-eq t u m ex i j = owner-injective (sym (ex.owned t m i) ∙ ex.owned u m j)
