-- ===== src/Kernel/Dispatch.antt =====
-- Which thread `scheduler` runs next.
use proj.Base.{ℕ, ◌≤◌, ◌<◌, List, [], ◌∷◌, some, ◌≡◌, refl, sym, ◌⊎◌, inl, inr, arith}
use mathlib.Core.Option.{some-injective}
use proj.Kernel.State.{Kernel, priority_high}
use proj.Kernel.Scheduler.{run_front, dispatch_from, dispatch}
use proj.Kernel.Scheduler.{scheduler}
use proj.Kernel.Scheduler.{yield_running}
use proj.Kernel.State.{running}
use proj.Base.{subst}
use proj.Base.{◌≢◌}
use proj.Base.{◌∙◌}
use mathlib.Core.Option.{none}
use proj.Base.{◌++◌}

-- The thread chosen stands at the front of its queue, every queue of a higher priority is empty,
-- and the state after the choice is that in which it runs.
pub record Dispatched (k k' : Kernel) : Type 0 where
  pub pri : ℕ
  pub thread : ℕ
  pub rest : List ℕ
  pub bounded : pri ≤ priority_high
  pub front : k.ready_q pri ≡ thread ∷ rest
  pub highest : (p : ℕ) → pri < p → p ≤ priority_high → k.ready_q p ≡ []
  pub result : k' ≡ run_front k pri thread rest

one_to_three :
    (k : Kernel) (pri p : ℕ)
    → pri < p
    → p ≤ 3
    → (pri < 3 → k.ready_q 3 ≡ [])
    → (pri < 2 → k.ready_q 2 ≡ [])
    → (pri < 1 → k.ready_q 1 ≡ [])
    → k.ready_q p ≡ []
one_to_three k pri p a b three two one = elim (cases p (omega arith) b) [
  | inl e ↦ rw e (three (omega arith))
  | inr (inl e) ↦ rw e (two (omega arith))
  | inr (inr e) ↦ rw e (one (omega arith))
]
  where
    cases : (n : ℕ) → 0 < n → n ≤ 3 → (n ≡ 3) ⊎ ((n ≡ 2) ⊎ (n ≡ 1))
    cases n lo hi = ground arith

dispatch_from_lem :
    (k : Kernel) (q₃ q₂ q₁ q₀ : List ℕ) {k' : Kernel}
    → k.ready_q 3 ≡ q₃
    → k.ready_q 2 ≡ q₂
    → k.ready_q 1 ≡ q₁
    → k.ready_q 0 ≡ q₀
    → dispatch_from k q₃ q₂ q₁ q₀ ≡ some k'
    → Dispatched k k'
unfolding dispatch_from
dispatch_from_lem k (t ∷ q) q₂ q₁ q₀ e₃ e₂ e₁ e₀ e = record {
  pri = 3;
  thread = t;
  rest = q;
  bounded = omega arith;
  front = e₃;
  highest = λ p a b. absurd (omega arith);
  result = sym (some-injective _ _ e);
}
dispatch_from_lem k [] (t ∷ q) q₁ q₀ e₃ e₂ e₁ e₀ e = record {
  pri = 2;
  thread = t;
  rest = q;
  bounded = omega arith;
  front = e₂;
  highest = λ p a b.
      one_to_three k 2 p a b (λ _. e₃) (λ h. absurd (omega arith)) (λ h. absurd (omega arith));
  result = sym (some-injective _ _ e);
}
dispatch_from_lem k [] [] (t ∷ q) q₀ e₃ e₂ e₁ e₀ e = record {
  pri = 1;
  thread = t;
  rest = q;
  bounded = omega arith;
  front = e₁;
  highest = λ p a b. one_to_three k 1 p a b (λ _. e₃) (λ _. e₂) (λ h. absurd (omega arith));
  result = sym (some-injective _ _ e);
}
dispatch_from_lem k [] [] [] (t ∷ q) e₃ e₂ e₁ e₀ e = record {
  pri = 0;
  thread = t;
  rest = q;
  bounded = omega arith;
  front = e₀;
  highest = λ p a b. one_to_three k 0 p a b (λ _. e₃) (λ _. e₂) (λ _. e₁);
  result = sym (some-injective _ _ e);
}
dispatch_from_lem k [] [] [] [] e₃ e₂ e₁ e₀ e = cc

pub dispatch_lem : (k : Kernel) {k' : Kernel} → dispatch k ≡ some k' → Dispatched k k'
unfolding dispatch
dispatch_lem k e = dispatch_from_lem k _ _ _ _ refl refl refl refl e

-- Where the scheduler finds a thread, it runs the thread at the front of the highest queue that is
-- not empty once the running thread has been put back; that thread leaves the queue and is
-- RUNNING.
pub scheduler-highest :
    (k k' : Kernel)
    → scheduler k ≡ some k'
    → (pri : ℕ) × (pri ≤ priority_high)
      × ((yield_running k k.tr).ready_q pri ≡ k'.tr ∷ k'.ready_q pri)
      × ((p : ℕ) → pri < p → p ≤ priority_high → (yield_running k k.tr).ready_q p ≡ [])
      × ((k'.thread k'.tr).state ≡ running)
unfolding scheduler run_front
scheduler-highest k k' e =
    let d = dispatch_lem (yield_running k k.tr) e in
    subst
      (λ j.
        (pri : ℕ) × (pri ≤ priority_high)
        × ((yield_running k k.tr).ready_q pri ≡ j.tr ∷ j.ready_q pri)
        × ((p : ℕ) → pri < p → p ≤ priority_high → (yield_running k k.tr).ready_q p ≡ [])
        × ((j.thread j.tr).state ≡ running))
      (sym d.result) (d.pri, d.bounded, d.front ∙ ground arith, d.highest, ground arith)

dispatch_from-none :
    (k : Kernel) (q₃ q₂ q₁ q₀ : List ℕ)
    → dispatch_from k q₃ q₂ q₁ q₀ ≡ none
    → (q₃ ≡ []) × (q₂ ≡ []) × (q₁ ≡ []) × (q₀ ≡ [])
unfolding dispatch_from
dispatch_from-none k (t ∷ q) q₂ q₁ q₀ e = cc
dispatch_from-none k [] (t ∷ q) q₁ q₀ e = cc
dispatch_from-none k [] [] (t ∷ q) q₀ e = cc
dispatch_from-none k [] [] [] (t ∷ q) e = cc
dispatch_from-none k [] [] [] [] e = (refl, refl, refl, refl)

dispatch-none :
    (k : Kernel) (pri : ℕ) → pri ≤ priority_high → dispatch k ≡ none → k.ready_q pri ≡ []
unfolding dispatch
dispatch-none k pri low e = elim (cases pri low) [
  | inl p ↦ rw p (empty.3)
  | inr (inl p) ↦ rw p (empty.2)
  | inr (inr (inl p)) ↦ rw p (empty.1)
  | inr (inr (inr p)) ↦ rw p (empty.0)
]
  where
    empty : (k.ready_q 3 ≡ []) × (k.ready_q 2 ≡ []) × (k.ready_q 1 ≡ []) × (k.ready_q 0 ≡ [])
    empty = dispatch_from-none k _ _ _ _ e

    cases : (n : ℕ) → n ≤ 3 → (n ≡ 0) ⊎ ((n ≡ 1) ⊎ ((n ≡ 2) ⊎ (n ≡ 3)))
    cases n h = ground arith

append-ne-nil : (xs : List ℕ) (x : ℕ) → xs ++ (x ∷ []) ≢ []
append-ne-nil [] x e = cc
append-ne-nil (y ∷ xs) x e = cc

-- While the current thread is RUNNING and has one of the four priorities, there is always a thread
-- to run.
pub scheduler-ne-none :
    (k : Kernel)
    → (k.thread k.tr).state ≡ running
    → (k.thread k.tr).priority ≤ priority_high
    → scheduler k ≢ none
unfolding scheduler yield_running
scheduler-ne-none k run low e =
    let pri = (k.thread k.tr).priority in
    append-ne-nil (k.ready_q pri) k.tr
      (ground (arith, run, dispatch-none (yield_running k k.tr) pri low e))
