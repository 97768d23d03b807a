-- ===== src/Vm/Start/Boot.antt =====
-- What `VMStart` (VirtualMachine.cpp) sets up.
use proj.Vm.Calls.{Reach}
use proj.Vm.Exclusion.Reach.{Reach-IsExclusive}
use proj.Vm.Soundness.Reach.{Bounded, Reach-IsSettled}
use proj.Vm.Soundness.Steps.{IsSettled}
use proj.Vm.Start.Idle.{Booted, Idling, idle_lem, stack_lem, with_heap, with_main}
use proj.Vm.Soundness.Steps.{pool_create-signals}
use proj.Base.{◌∙◌}
use proj.Base.{ap, ◌||◌}
use proj.Base.Words.{add32, null}
use proj.Machine.Startup.{machine_initialize_lem, machine_initialize_up}
use proj.Vm.Pools.Validity.{create-PoolsValid}
use native.Mathlib.Nat.{mod-eq_of_lt}
use proj.Base.{arith, false, true, ◌*◌, ◌/◌}
use proj.Machine.Requests.{Machine}
use proj.Machine.Startup.{machine_initialize}
use proj.Vm.Start.{Start, start_machine, vm_start}
use proj.Vm.Threads.{create_round, vm_thread_create}
use proj.Base.{◌+◌, ◌≤◌}
use proj.Base.Words.{u32_mod, u64_mod}
use proj.Vm.Pools.{vm_memory_pool_allocate}
use proj.Base.{subst, sym, ◌<◌, ◌==◌}
use proj.Kernel.State.{Kernel}
use proj.Base.{refl}
use proj.Vm.Pools.Handles.{with_pools}
use proj.Vm.State.{resume, suspend}
use proj.Base.{Option, [], none, some, ℕ, ◌∷◌, ◌≡◌}
use proj.Fat.Image.{FatData}
use proj.Kernel.Exclusion.Moves.{IsExclusive}
use proj.Kernel.Scheduler.{scheduler}
use proj.Kernel.State.{Thread, priority_nil, running}
use proj.Vm.Pools.{vm_memory_pool_create}
use proj.Vm.Start.{start_idle}
use proj.Vm.State.{Vm, success, switch_to}

-- What `VMStart` ends in, where nothing fails.
abbrev pub HasStarted : Start → Type 0
HasStarted (Start.started w m) = Booted w × (w.id_inc ≡ 2) × (m.machine_initialized ≡ true)
HasStarted _ = ⊥

-- The pool of the shared memory.
with_share-Booted :
    (v : Vm) (base share : ℕ)
    → Booted v
    → v.id_inc ≡ 1
    → 0 < base
    → base + share ≤ u64_mod
    → share < u32_mod
    → let w = (vm_memory_pool_create v base share 1).2 in Booted w × (w.id_inc ≡ 2)
unfolding vm_memory_pool_create
with_share-Booted v base share (ex, pools, en, main_runs, runs, idles) given nonnull top narrow =
    let w = (vm_memory_pool_create v base share 1).2 in
    let same : v.kernel ≡ w.kernel = ground arith in
    let there : (base == null || 1 == null) ≡ false = ground (arith, nonnull) in
    let next_id : w.id_inc ≡ 2 = rw there (ap (λ i. add32 i 1) given) in
    (
      (
        subst IsExclusive same ex,
        create-PoolsValid v base share 1 top narrow (omega (arith, given)) pools,
        (
          ap (λ g. g.blocked) (pool_create-signals v base share 1) ∙ en.0,
          ap (λ g. g.saved) (pool_create-signals v base share 1) ∙ en.0,
        ),
        subst (λ (k : Kernel). k.tr ≡ 0) same main_runs,
        subst (λ (k : Kernel). (k.thread 0).state ≡ running) same runs,
        subst (λ (k : Kernel). k.ready_q priority_nil ≡ 1 ∷ []) same idles,
      ),
      next_id,
    )

machine_lem :
    (sharedsize mapped : ℕ) (v : Vm) (m : Machine)
    → Booted v
    → v.id_inc ≡ 1
    → m.machine_initialized ≡ false
    → 0 < mapped
    → sharedsize + 4095 < u32_mod
    → mapped + (sharedsize + 4095) / 4096 * 4096 ≤ u64_mod
    → HasStarted (start_machine sharedsize mapped v m)
unfolding start_machine
machine_lem sharedsize mapped v m booted given down nonnull small top =
    let whole : add32 sharedsize 0xfff ≡ sharedsize + 4095 = mod-eq_of_lt small in
    let share = add32 sharedsize 0xfff / 4096 * 4096 in
    let there : (mapped == null) ≡ false = ground (arith, nonnull) in
    let m' = (machine_initialize share mapped m).1 in
    let (is_booted, more) =
      with_share-Booted v mapped share booted given nonnull (omega (arith, top, whole))
        (omega (arith, small, whole)) in
    let up : machine_initialize share mapped m ≡ (mapped, m') =
      machine_initialize_lem share mapped m down in
    let is_up : m'.machine_initialized ≡ true = machine_initialize_up share mapped m in
    let (ex, pools, en, main_runs, runs, idles) = is_booted in
    rw (start_machine, up, there) ((ex, pools, (refl, en.1), main_runs, runs, idles), more, is_up)

create_lem :
    (v u : Vm) (idle r : ℕ)
    → 0 < idle
    → vm_memory_pool_allocate (resume (suspend v)) 0 0x100000 1 ≡ (success, some r, u)
    → vm_thread_create v idle 0x100000 1
      ≡ (success, some r, switch_to (suspend u) (scheduler (suspend u).kernel))
unfolding vm_thread_create create_round
create_lem v u idle r nonnull call_eq =
    let there : (idle == null || 1 == null) ≡ false = ground (arith, nonnull) in
    rw there
      (ap (λ c. (c.0, c.1, switch_to (suspend c.2) (scheduler (suspend c.2).kernel))) call_eq)

machine_or_stall :
    (sharedsize mapped : ℕ) (m : Machine) (o : Option Vm)
    → Idling o
    → ((w : Vm) → Booted w → w.id_inc ≡ 1 → HasStarted (start_machine sharedsize mapped w m))
    → HasStarted (elim o [ none ↦ Start.stalled | some w ↦ start_machine sharedsize mapped w m ])
machine_or_stall sharedsize mapped m none idling go = elim idling [ ]
machine_or_stall sharedsize mapped m (some w) idling go = go w idling.0 idling.1

-- What VMStart needs: a heap that holds at least the 1 MB of the idle thread's stack, and lies in the
-- address space, as the shared memory does; an idle function; a machine that is not initialised.
pub record CanStart (heap heapsize sharedsize mapped idle : ℕ) (m : Machine) : Type 0 where
  pub heap_given : 0 < heap
  pub heap_top : heap + heapsize ≤ u64_mod
  pub heap_narrow : heapsize < u32_mod
  pub stack_fits : 0x100000 ≤ heapsize
  pub share_given : 0 < mapped
  pub share_narrow : sharedsize + 4095 < u32_mod
  pub share_top : mapped + (sharedsize + 4095) / 4096 * 4096 ≤ u64_mod
  pub idle_given : 0 < idle
  pub down : m.machine_initialized ≡ false

-- Where the program is found, the heap holds at least the 1 MB of the idle thread's stack and
-- lies, like the shared memory, in the address space, and the machine was not initialised before,
-- VMStart gets as far as the call of VMMain: the signals are enabled, the machine is initialised,
-- the main thread runs, the idle thread is at the front of its queue, the lock table is exclusive,
-- and the pools of the heap and of the shared memory are valid.
pub vm_start-HasStarted :
    (heap heapsize sharedsize mapped idle : ℕ) (junk : Thread) (image : FatData) (m : Machine)
    → CanStart heap heapsize sharedsize mapped idle m
    → HasStarted (vm_start true heap heapsize sharedsize mapped idle junk image m)
unfolding vm_start
vm_start-HasStarted heap heapsize sharedsize mapped idle junk image m can =
    let (r, ps, call_eq, valid) =
      stack_lem heap heapsize junk image can.heap_given can.heap_top can.heap_narrow
        can.stack_fits in
    let v = with_main heap heapsize junk image in
    let u = with_pools (resume (suspend v)) ps in
    let made_eq =
      ap (λ w. vm_thread_create w idle 0x100000 1)
        (with_heap heap heapsize junk image can.heap_given)
      ∙ create_lem v u idle r can.idle_given call_eq in
    let idling =
      subst (λ c. Idling (start_idle idle c)) (sym made_eq)
        (idle_lem heap heapsize idle r junk image ps valid) in
    machine_or_stall sharedsize mapped m _ idling (λ w booted given.
      machine_lem sharedsize mapped w m booted given can.down can.share_given can.share_narrow
        can.share_top)

-- After VMStart, whatever sequence of calls on threads, mutexes, memory pools, files and
-- directories, timer interrupts, file callbacks and resumptions follows, in which VMThreadState is
-- not given a NULL reference, the lock table is exclusive, the timer's signal is unmasked between
-- the steps, and the pools are valid with distinct ids, under the conditions on sizes and
-- addresses of the start and of each step.
pub vm_start-IsSettled :
    (heap heapsize sharedsize mapped idle : ℕ) (junk : Thread) (image : FatData) (m : Machine)
    {v w : Vm} {m' : Machine}
    → CanStart heap heapsize sharedsize mapped idle m
    → vm_start true heap heapsize sharedsize mapped idle junk image m ≡ Start.started v m'
    → (r : Reach v w) → Bounded r
    → IsExclusive w.kernel × IsSettled w
vm_start-IsSettled heap heapsize sharedsize mapped idle junk image m {v} {w} can e r b =
    let ((ex, pools, en, main_runs, runs, idles), next_id, up) =
      subst HasStarted e
        (vm_start-HasStarted heap heapsize sharedsize mapped idle junk image m can) in
    (Reach-IsExclusive v w ex r, Reach-IsSettled v w (record { enabled = en; pools = pools }) r b)
