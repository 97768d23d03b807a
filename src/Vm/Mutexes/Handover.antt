-- ===== src/Vm/Mutexes/Handover.antt =====
-- `VMMutexAcquire` and `VMMutexRelease` (VirtualMachine.cpp) for a thread that was handed a mutex.
use proj.Base.{ℕ, List, ◌∷◌, none, some, ◌≡◌, ◌≢◌, ◌⊎◌, Option-cases, inl, inr}
use proj.Kernel.Threads.{find_mutex_of, release_mutex}
use proj.Kernel.Exclusion.Moves.{owner_of}
use proj.Kernel.Handover.{release_mutex-handover}
use proj.Vm.State.{Vm, returned, failure, invalid_state, invalid_id, suspend, resume, with_kernel}
use proj.Vm.Mutexes.{find_mutex, acquired, vm_mutex_release}

-- The state once the released mutex's first waiter runs.
abbrev pub resumed : Vm → (s id t : ℕ) → Vm
resumed v s id t = with_kernel v (record (release_mutex v.kernel s id).1 { tr = t })

acquired-lacking :
    (v : Vm) (id : ℕ)
    → find_mutex_of v.kernel v.kernel.tr id ≡ none
    → acquired v id ≡ returned failure none (resume v)
unfolding acquired
acquired-lacking v id e = rw (e, acquired)

release-lacking :
    (v : Vm) (id : ℕ)
    → find_mutex_of v.kernel v.kernel.tr id ≡ none
    → (vm_mutex_release v id ≡ returned invalid_id none (resume (suspend v)))
      ⊎ (vm_mutex_release v id ≡ returned invalid_state none (resume (suspend v)))
unfolding vm_mutex_release
release-lacking v id e = elim (Option-cases (find_mutex v.kernel id v.kernel.mutexes)) [
  | inl f ↦ inl (rw (f, vm_mutex_release))
  | inr (m, f) ↦ inr (rw (f, e, vm_mutex_release))
]

-- A thread `t`, which holds no mutex with that id, waits first for a mutex that another thread `s`
-- holds and releases. Then `t` is its owner; but when `t` runs, its call of VMMutexAcquire returns
-- VM_STATUS_FAILURE, and a call of VMMutexRelease by it is refused as well.
pub acquired-handover :
    (v : Vm) (s t id m : ℕ) (q : List ℕ)
    → find_mutex_of v.kernel s id ≡ some m
    → (v.kernel.mutex m).qtex ≡ t ∷ q
    → t ≢ s
    → find_mutex_of v.kernel t id ≡ none
    → let w = resumed v s id t in
      (owner_of w.kernel m ≡ some t)
      × (acquired w id ≡ returned failure none (resume w))
      × ((vm_mutex_release w id ≡ returned invalid_id none (resume (suspend w)))
          ⊎ (vm_mutex_release w id ≡ returned invalid_state none (resume (suspend w))))
acquired-handover v s t id m q found waits other lacks =
    let w = resumed v s id t in
    let h = release_mutex-handover v.kernel s t id m q found waits other lacks in
    (h.0, acquired-lacking w id h.1, release-lacking w id h.1)
