-- ===== src/Vm/Exclusion/Leads.antt =====
-- What it is for a call of VirtualMachine.cpp to keep the lock table exclusive.
use proj.Base.{ℕ, refl, inl, inr, Option-cases}
use proj.Base.Int.{ℤ}
use proj.Kernel.State.{Kernel, ready, waiting, set_state, set_ticks, push_ready}
use proj.Kernel.Scheduler.{scheduler}
use proj.Kernel.Exclusion.Moves.{IsExclusive}
use proj.Kernel.Exclusion.Keeps.{
  Keeps, Keeps-trans, Keeps-IsExclusive, set_thread-Keeps, push_ready-Keeps, scheduler-Keeps,
}
use proj.Vm.State.{Vm, Outcome, returned, switched, undefined, switch_to}

-- The kernel that an outcome leaves, if any, is exclusive.
abbrev pub Leads : Outcome → Type 0
Leads (returned s out v) = IsExclusive v.kernel
Leads (switched v) = IsExclusive v.kernel
Leads undefined = Unit {0}

pub switch_to-Leads : (v : Vm) (k : Kernel) → IsExclusive k → Leads (switch_to v (scheduler k))
switch_to-Leads v k ex = elim (Option-cases (scheduler k)) [
  | inl e ↦ rw e tt
  | inr (k', e) ↦ rw e (Keeps-IsExclusive (scheduler-Keeps k e) ex)
]

pub wait-IsExclusive :
    (k : Kernel) (n : ℤ) → IsExclusive k → IsExclusive (set_state (set_ticks k k.tr n) k.tr waiting)
wait-IsExclusive k n ex =
    let k' = set_ticks k k.tr n in
    Keeps-IsExclusive
      (Keeps-trans (set_thread-Keeps k k.tr (record (k.thread k.tr) { ticks = n }) refl)
        (set_thread-Keeps k' k.tr (record (k'.thread k.tr) { state = waiting }) refl))
      ex

pub ready-Keeps : (k : Kernel) (t : ℕ) → Keeps k (push_ready (set_state k t ready) t)
ready-Keeps k t =
    Keeps-trans (set_thread-Keeps k t (record (k.thread t) { state = ready }) refl)
      (push_ready-Keeps (set_state k t ready) t)
