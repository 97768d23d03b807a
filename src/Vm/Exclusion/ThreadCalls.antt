-- ===== src/Vm/Exclusion/ThreadCalls.antt =====
-- The thread calls of VirtualMachine.cpp keep the lock table exclusive.
use proj.Vm.Pools.{vm_memory_pool_allocate}
use proj.Base.{Bool-cases, Option-cases, ◌||◌}
use proj.Base.{
  ℕ, none, ◌≡◌, refl, sym, subst, inl, inr, ◌==◌, ◌||◌, Bool-cases, Option-cases, arith,
}
use proj.Base.Int.{ℤ}
use proj.Base.Words.{null}
use proj.Kernel.State.{
  Kernel, dead, set_state, is_dead, vm_timeout_immediate, vm_timeout_infinite, is_waiting, setcd,
}
use proj.Kernel.Threads.{new_thread}
use proj.Kernel.Scheduler.{file_callback, tick_all}
use proj.Kernel.Exclusion.Moves.{IsExclusive}
use proj.Kernel.Exclusion.Keeps.{Keeps-trans, Keeps-IsExclusive, set_thread-Keeps, tick_all-Keeps}
use proj.Kernel.Exclusion.Release.{release_all_mutex-IsExclusive, new_thread-IsExclusive}
use proj.Vm.State.{Vm, suspend, resume, with_kernel}
use proj.Vm.Threads.{
  last_thread, vm_thread_sleep, vm_thread_id, vm_thread_activate, create_round, create_thread,
  vm_thread_create, vm_thread_delete, terminate, vm_thread_terminate,
}
use proj.Vm.Interrupts.{vm_timer_isr, vm_file_callback}
use proj.Vm.Exclusion.Leads.{Leads, switch_to-Leads, wait-IsExclusive, ready-Keeps}

pub thread_sleep-Leads : (v : Vm) (tick : ℕ) → IsExclusive v.kernel → Leads (vm_thread_sleep v tick)
unfolding vm_thread_sleep
thread_sleep-Leads v tick ex =
    let k = v.kernel in
    elim (Bool-cases (tick == vm_timeout_immediate)) [
      | inl e ↦
          rw (e, Leads) (switch_to-Leads (suspend v) _ (Keeps-IsExclusive (ready-Keeps k k.tr) ex))
      | inr e ↦
          rw (e, Leads)
            (elim (Bool-cases (tick == vm_timeout_infinite)) [
              | inl e₁ ↦ rw (e₁, Leads) ex
              | inr e₁ ↦ rw (e₁, Leads) (switch_to-Leads (suspend v) _ (wait-IsExclusive k _ ex))
            ])
    ]

pub thread_id-Leads : (v : Vm) (ref : ℕ) → IsExclusive v.kernel → Leads (vm_thread_id v ref)
unfolding vm_thread_id
thread_id-Leads v ref ex = elim (Bool-cases (ref == null)) [
  | inl e ↦ rw (e, Leads) ex
  | inr e ↦ rw (e, Leads) ex
]

pub thread_activate-Leads :
    (v : Vm) (thread : ℕ) → IsExclusive v.kernel → Leads (vm_thread_activate v thread)
unfolding vm_thread_activate
thread_activate-Leads v thread ex =
    let k = v.kernel in
    elim (Option-cases (last_thread k thread none k.threads)) [
      | inl e ↦ rw (e, Leads) ex
      | inr (t, e) ↦
          rw (e, Leads)
            (elim (Bool-cases (is_dead (k.thread t).state)) [
              | inl e₁ ↦ rw (e₁, Leads) (Keeps-IsExclusive (ready-Keeps k t) ex)
              | inr e₁ ↦ rw (e₁, Leads) ex
            ])
    ]

pub thread_delete-Leads :
    (v : Vm) (thread : ℕ) → IsExclusive v.kernel → Leads (vm_thread_delete v thread)
unfolding vm_thread_delete
thread_delete-Leads v thread ex =
    let k = v.kernel in
    elim (Option-cases (last_thread k thread none k.threads)) [
      | inl e ↦ rw (e, Leads) ex
      | inr (t, e) ↦
          rw (e, Leads)
            (elim (Bool-cases (is_dead (k.thread t).state)) [
              | inl e₁ ↦
                  rw (e₁, Leads)
                    (record {
                      owned = ex.owned;
                      once = ex.once;
                      allocated = ex.allocated;
                      known = ex.known;
                    })
              | inr e₁ ↦ rw (e₁, Leads) ex
            ])
    ]

terminate-IsExclusive : (k : Kernel) (t : ℕ) → IsExclusive k → IsExclusive (terminate k t)
unfolding terminate
terminate-IsExclusive k t ex =
    let ex' =
      release_all_mutex-IsExclusive (set_state k t dead) t
        (Keeps-IsExclusive (set_thread-Keeps k t (record (k.thread t) { state = dead }) refl) ex) in
    record { owned = ex'.owned; once = ex'.once; allocated = ex'.allocated; known = ex'.known }

pub thread_terminate-Leads :
    (v : Vm) (thread : ℕ) → IsExclusive v.kernel → Leads (vm_thread_terminate v thread)
unfolding vm_thread_terminate
thread_terminate-Leads v₀ thread ex =
    let k = v₀.kernel in
    elim (Option-cases (last_thread k thread none k.threads)) [
      | inl e ↦ rw (e, Leads) ex
      | inr (t, e) ↦
          rw (e, Leads)
            (elim (Bool-cases (is_dead (k.thread t).state)) [
              | inl e₁ ↦ rw (e₁, Leads) ex
              | inr e₁ ↦
                  rw (e₁, Leads) (switch_to-Leads (suspend v₀) _ (terminate-IsExclusive k t ex))
            ])
    ]

pub pool_allocate-kernel :
    (v : Vm) (memory size pointer : ℕ)
    → (vm_memory_pool_allocate v memory size pointer).2.kernel ≡ v.kernel
unfolding vm_memory_pool_allocate
pool_allocate-kernel v memory size pointer = ground arith

pub create_round-Leads :
    (v : Vm) (memsize : ℕ) → IsExclusive v.kernel → Leads (create_round v memsize).2
unfolding create_round
create_round-Leads v memsize ex =
    let v₁ = (vm_memory_pool_allocate (resume v) 0 memsize 1).2 in
    switch_to-Leads (suspend v₁) v₁.kernel
      (subst IsExclusive (sym (pool_allocate-kernel (resume v) 0 memsize 1)) ex)

pub thread_create-Leads :
    (v : Vm) (entry memsize tid : ℕ)
    → IsExclusive v.kernel
    → Leads (vm_thread_create v entry memsize tid).2
unfolding vm_thread_create
thread_create-Leads v entry memsize tid ex = elim (Bool-cases (entry == null || tid == null)) [
  | inl e ↦ rw (e, Leads) ex
  | inr e ↦ rw (e, Leads) (create_round-Leads (suspend v) memsize ex)
]

pub create_thread-Leads :
    (v : Vm) (entry param memsize prio mem : ℕ)
    → IsExclusive v.kernel
    → Leads (create_thread v entry param memsize prio mem)
unfolding create_thread new_thread
create_thread-Leads v entry param memsize prio mem ex =
    let ex' = new_thread-IsExclusive v.kernel prio dead mem memsize entry param ex in
    record { owned = ex'.owned; once = ex'.once; allocated = ex'.allocated; known = ex'.known }

pub timer_isr-Leads : (v : Vm) → IsExclusive v.kernel → Leads (vm_timer_isr v)
unfolding vm_timer_isr
timer_isr-Leads v ex =
    let k = tick_all v.kernel v.kernel.threads in
    switch_to-Leads (resume (with_kernel (suspend v) k)) k
      (Keeps-IsExclusive (tick_all-Keeps v.kernel v.kernel.threads) ex)

pub file_callback-Leads :
    (v : Vm) (t : ℕ) (result : ℤ) → IsExclusive v.kernel → Leads (vm_file_callback v t result)
unfolding vm_file_callback file_callback
file_callback-Leads v t result ex =
    let k = v.kernel in
    let k₁ = setcd k t result in
    let s = set_thread-Keeps k t (record (k.thread t) { cd = result }) refl in
    elim (Bool-cases (is_waiting (k₁.thread t).state)) [
      | inl e ↦ rw (e, Leads) (Keeps-IsExclusive (Keeps-trans s (ready-Keeps k₁ t)) ex)
      | inr e ↦ rw (e, Leads) tt
    ]
