-- ===== src/Vm/Threads.antt =====
-- The thread calls of VirtualMachine.cpp. The machine contexts (Machine.cpp) are not modelled: what
-- a thread does when it runs again is a function of its own.
use proj.Base.{ℕ, ◌||◌, List, [], ◌∷◌, ◌++◌, Option, none, some, ◌==◌, if◌then◌else◌, length}
use proj.Base.Int.{signed32}
use proj.Base.Words.{null}
use proj.Kernel.State.{
  Kernel, ThreadState, dead, ready, waiting, is_dead, vm_timeout_immediate, vm_timeout_infinite,
  update, set_state, set_ticks, push_ready, cycle,
}
use proj.Kernel.Threads.{new_thread, release_all_mutex}
use proj.Kernel.Scheduler.{scheduler}
use proj.Vm.State.{
  Vm, Reply, Outcome, returned, Status, success, invalid_parameter, invalid_id, invalid_state,
  suspend, resume, switch_to, with_kernel,
}
use proj.Vm.Pools.{vm_memory_pool_allocate}
use proj.Vm.Mutexes.{erase_ref}

-- The thread calls search the whole vector `threads`: the last thread with the id.
unfoldable pub last_thread : Kernel → (id : ℕ) → Option ℕ → List ℕ → Option ℕ
last_thread k id found [] = found
last_thread k id found (t ∷ ts) =
    last_thread k id (if (k.thread t).id == id then some t else found) ts

unfoldable pub vm_thread_sleep : Vm → (tick : ℕ) → Outcome
vm_thread_sleep v₀ tick =
    let v = suspend v₀ in
    let k = v.kernel in
    if tick == vm_timeout_immediate
    then switch_to v (scheduler (push_ready (set_state k k.tr ready) k.tr))
    else if tick == vm_timeout_infinite
    then returned invalid_parameter none (resume v)
    else switch_to v (scheduler (set_state (set_ticks k k.tr (signed32 tick)) k.tr waiting))

-- The address of the id is assigned to the parameter itself, so nothing is stored.
unfoldable pub vm_thread_id : Vm → (threadref : ℕ) → Outcome
vm_thread_id v₀ threadref =
    let v = suspend v₀ in
    if threadref == null
    then returned invalid_parameter none (resume v)
    else returned success none (resume v)

-- With a NULL reference the call returns without resuming the signals.
unfoldable pub vm_thread_state : Vm → (thread state_ref : ℕ) → Reply ThreadState
unfolding last_thread
vm_thread_state v₀ thread state_ref =
    let v = suspend v₀ in
    let k = v.kernel in
    if state_ref == null
    then (invalid_parameter, none, v)
    else elim (last_thread k thread none k.threads) [
      | none ↦ (invalid_id, none, resume v)
      | some t ↦ (success, some (k.thread t).state, resume v)
    ]

unfoldable pub vm_thread_activate : Vm → (thread : ℕ) → Outcome
unfolding last_thread
vm_thread_activate v₀ thread =
    let v = suspend v₀ in
    let k = v.kernel in
    elim (last_thread k thread none k.threads) [
      | none ↦ returned invalid_id none (resume v)
      | some t ↦
          if is_dead (k.thread t).state
          then returned success none (resume (with_kernel v (push_ready (set_state k t ready) t)))
          else returned invalid_state none (resume v)
    ]

-- The loop of `VMThreadCreate`: an allocation in the system pool, outside the suspension, then a
-- switch. The result has the status, the stack and the outcome of the switch.
unfoldable pub create_round : Vm → (memsize : ℕ) → Status × Option ℕ × Outcome
create_round v memsize =
    let (test, mem, v₁) = vm_memory_pool_allocate (resume v) 0 memsize 1 in
    let v₂ = suspend v₁ in (test, mem, switch_to v₂ (scheduler v₂.kernel))

-- What follows the loop.
unfoldable pub create_thread : Vm → (entry param memsize prio mem : ℕ) → Outcome
create_thread v entry param memsize prio mem =
    let (t, k) = new_thread v.kernel prio dead mem memsize entry param in
    returned success (some (k.thread t).id)
      (resume (with_kernel v (record k { threads = k.threads ++ (t ∷ []) })))

-- The beginning of `VMThreadCreate`: the checks, and the first round of the loop. `test` is not
-- initialised there, and is taken not to be VM_STATUS_SUCCESS.
unfoldable pub vm_thread_create : Vm → (entry memsize tid : ℕ) → Status × Option ℕ × Outcome
unfolding create_round
vm_thread_create v₀ entry memsize tid =
    let v = suspend v₀ in
    if entry == null || tid == null
    then (invalid_parameter, none, returned invalid_parameter none (resume v))
    else create_round v memsize

unfoldable pub vm_thread_delete : Vm → (thread : ℕ) → Outcome
unfolding last_thread
vm_thread_delete v₀ thread =
    let v = suspend v₀ in
    let k = v.kernel in
    elim (last_thread k thread none k.threads) [
      | none ↦ returned invalid_id none (resume v)
      | some t ↦
          if is_dead (k.thread t).state
          then returned success none
              (resume (with_kernel v (record k { threads = erase_ref t k.threads })))
          else returned invalid_state none (resume v)
    ]

-- The part of `VMThreadTerminate` before the scheduler is called.
unfoldable pub terminate : Kernel → ℕ → Kernel
terminate k t =
    let k₁ = release_all_mutex (set_state k t dead) t in
    let pri = (k₁.thread t).priority in
    let q = k₁.ready_q pri in
    record k₁ { ready_q = update k₁.ready_q pri (cycle (λ temp. temp == t) (length q) q) }

unfoldable pub vm_thread_terminate : Vm → (thread : ℕ) → Outcome
unfolding last_thread
vm_thread_terminate v₀ thread =
    let v = suspend v₀ in
    let k = v.kernel in
    elim (last_thread k thread none k.threads) [
      | none ↦ returned invalid_id none (resume v)
      | some t ↦
          if is_dead (k.thread t).state
          then returned invalid_state none (resume v)
          else switch_to v (scheduler (terminate k t))
    ]
