-- ===== src/Vm/Start/Idle.antt =====
-- The idle thread, which `VMStart` (VirtualMachine.cpp) makes with a stack from the heap.
use proj.Vm.Soundness.Frames.{AreEnabled}
use proj.Base.{◌||◌}
use proj.Base.Words.{null}
use proj.Base.{arith, false, inl, inr}
use proj.Memory.{allocate}
use proj.Memory.Alloc.{IsGapOf, IsValid}
use proj.Vm.Pools.{find_mem_pool, put_pool, round_up}
use proj.Vm.Pools.Handles.{vm_allocate_lem}
use proj.Vm.Pools.Validity.{allocate-PoolsValid}
use proj.Base.{◌+◌, ◌≤◌}
use proj.Base.Words.{u32_mod, u64_mod}
use proj.Vm.Pools.{vm_memory_pool_allocate}
use proj.Vm.Exclusion.Leads.{Leads, switch_to-Leads}
use proj.Vm.Exclusion.ThreadCalls.{create_thread-Leads, thread_activate-Leads}
use proj.Vm.State.{Outcome, returned, switched, undefined}
use proj.Base.{All, if_intro, subst, sym, ◌<◌, ◌==◌}
use proj.Kernel.Exclusion.Lists.{Distinct, In}
use proj.Kernel.State.{Kernel}
use proj.Base.{refl}
use proj.Kernel.Scheduler.{dispatch, dispatch_from, run_front, yield_running}
use proj.Kernel.Threads.{new_main_thread, new_thread}
use proj.Memory.{new_pool}
use proj.Vm.Pools.Handles.{with_pools}
use proj.Vm.State.{resume, suspend}
use proj.Vm.Threads.{create_thread, last_thread, vm_thread_activate}
use proj.Base.{List, Option, [], none, some, ℕ, ◌∷◌, ◌≡◌}
use proj.Fat.Image.{FatData}
use proj.Kernel.Exclusion.Moves.{IsExclusive}
use proj.Kernel.Scheduler.{scheduler}
use proj.Kernel.State.{Thread, priority_nil, running}
use proj.Memory.{Mpcb}
use proj.Vm.Pools.{vm_memory_pool_create}
use proj.Vm.Pools.Validity.{AreValid, PoolsValid}
use proj.Vm.Start.{start_idle, start_main, unstarted}
use proj.Vm.State.{Vm, success, switch_to}

abbrev pub Booted : Vm → Type 0
Booted w =
    IsExclusive w.kernel
    × PoolsValid w
    × AreEnabled w.signals
    × (w.kernel.tr ≡ 0)
    × ((w.kernel.thread 0).state ≡ running)
    × (w.kernel.ready_q priority_nil ≡ 1 ∷ [])

abbrev pub Idling : Option Vm → Type 0
Idling none = ⊥
Idling (some w) = Booted w × (w.id_inc ≡ 1)

abbrev NoneHeld : (ℕ → Thread) → Type 0
NoneHeld f = (t : ℕ) → (f t).held_mutex ≡ []

IsExclusive-NoneHeld : (k : Kernel) → NoneHeld k.thread → k.mutexes ≡ [] → IsExclusive k
IsExclusive-NoneHeld k h none_made = record {
  owned = λ t m i. absurd (subst (In m) (h t) i);
  once = λ t. subst Distinct (sym (h t)) tt;
  allocated = λ t m i. absurd (subst (In m) (h t) i);
  known = subst (All (λ m. m < k.next_mutex)) (sym none_made) tt;
}

-- The machine with the pool of the heap and the main thread.
abbrev pub with_main : (heap heapsize : ℕ) → Thread → FatData → Vm
with_main heap heapsize junk image =
    start_main
      (record (unstarted junk image) { pools = (new_pool 0 heap heapsize).0 ∷ []; id_inc = 1 }) junk

with_main-IsExclusive :
    (heap heapsize : ℕ) (junk : Thread) (image : FatData)
    → IsExclusive (with_main heap heapsize junk image).kernel
unfolding start_main new_main_thread
with_main-IsExclusive heap heapsize junk image =
    let empty : Thread → Type 0 = λ th. th.held_mutex ≡ [] in
    IsExclusive-NoneHeld _
      (λ t.
        if_intro empty (0 == t) (λ _. refl)
          (λ _.
            if_intro empty (0 == t) (λ _. refl)
              (λ _. if_intro empty (0 == t) (λ _. refl) (λ _. refl))))
      refl

-- What is left behind, if anything.
abbrev Leaves : Option Vm → Type 0
Leaves none = Unit
Leaves (some w) = IsExclusive w.kernel

activated-Leaves : (o : Outcome) → Leads o → Leaves (elim o [ returned _ _ w ↦ some w | _ ↦ none ])
activated-Leaves (returned s out w) ex = ex
activated-Leaves (switched w) ex = tt
activated-Leaves undefined ex = tt

created-Leaves :
    (o : Outcome)
    → Leads o
    → Leaves (elim o [
      | returned _ (some id) w ↦ elim (vm_thread_activate w id) [
        | returned _ _ w' ↦ some w'
        | _ ↦ none
      ]
      | _ ↦ none
    ])
created-Leaves (returned s (some id) w) ex = activated-Leaves _ (thread_activate-Leads w id ex)
created-Leaves (returned s none w) ex = tt
created-Leaves (switched w) ex = tt
created-Leaves undefined ex = tt

start_idle-Leaves :
    (idle mem : ℕ) (o : Outcome) → Leads o → Leaves (start_idle idle (success, some mem, o))
unfolding start_idle
start_idle-Leaves idle mem (returned s out v) ex = tt
start_idle-Leaves idle mem (switched v) ex =
    created-Leaves (create_thread v idle 0 0x100000 priority_nil mem)
      (create_thread-Leads v idle 0 0x100000 priority_nil mem ex)
start_idle-Leaves idle mem undefined ex = tt

pub idle_lem :
    (heap heapsize idle mem : ℕ) (junk : Thread) (image : FatData) (ps : List Mpcb)
    → AreValid 1 ps
    → let w = suspend (with_pools (resume (suspend (with_main heap heapsize junk image))) ps) in
      Idling (start_idle idle (success, some mem, switch_to w (scheduler w.kernel)))
unfolding start_idle create_thread vm_thread_activate last_thread start_main new_main_thread
    scheduler dispatch dispatch_from yield_running run_front new_thread
idle_lem heap heapsize idle mem junk image ps valid =
    let w = suspend (with_pools (resume (suspend (with_main heap heapsize junk image))) ps) in
    let ex =
      start_idle-Leaves idle mem (switch_to w (scheduler w.kernel))
        (switch_to-Leads w w.kernel (with_main-IsExclusive heap heapsize junk image)) in
    ((ex, valid, (refl, refl), refl, refl, refl), refl)

-- The first pool is the heap.
pub with_heap :
    (heap heapsize : ℕ) (junk : Thread) (image : FatData)
    → 0 < heap
    → start_main (vm_memory_pool_create (unstarted junk image) heap heapsize 1).2 junk
      ≡ with_main heap heapsize junk image
unfolding vm_memory_pool_create
with_heap heap heapsize junk image nonnull =
    let there : (heap == null || 1 == null) ≡ false = ground (arith, nonnull) in rw there refl

-- The stack of the idle thread fits in a new heap.
pub stack_lem :
    (heap heapsize : ℕ) (junk : Thread) (image : FatData)
    → 0 < heap
    → heap + heapsize ≤ u64_mod
    → heapsize < u32_mod
    → 0x100000 ≤ heapsize
    → let v = resume (suspend (with_main heap heapsize junk image)) in
      (r : ℕ) × (ps : List Mpcb) × (vm_memory_pool_allocate v 0 0x100000 1
        ≡ (success, some r, with_pools v ps))
      × AreValid 1 ps
unfolding start_main find_mem_pool round_up
stack_lem heap heapsize junk image nonnull top narrow large =
    let v = resume (suspend (with_main heap heapsize junk image)) in
    let p = (new_pool 0 heap heapsize).0 in
    let valid : IsValid p = record {
      nonnull = nonnull;
      addressable = top;
      narrow = narrow;
      fits = omega arith;
    } in
    let pools : PoolsValid v = (valid, omega arith, tt, tt) in
    let gap : IsGapOf p heap 0x100000 = record {
      above = omega arith;
      below = omega (arith, large);
      apart = tt;
    } in
    elim (vm_allocate_lem v 0 0x100000 1 p pools (λ e. omega (arith, e)) (λ e. omega (arith, e))
      (omega arith) refl) [
        | inl (r, call_eq, taken, lowest) ↦ (
          r,
          put_pool (allocate p (round_up 0x100000)).1 v.pools,
          call_eq,
          subst (λ c. PoolsValid c.2) call_eq
              (allocate-PoolsValid v 0 0x100000 1 (omega arith) pools),
        )
        | inr (call_eq, no_gap) ↦ absurd (no_gap heap gap)
      ]
