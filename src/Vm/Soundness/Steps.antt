-- ===== src/Vm/Soundness/Steps.antt =====
-- The steps of `Vm.Calls` (VirtualMachine.cpp) and what they keep: an unmasked timer's signal
-- and valid pools.
use proj.Base.{◌≢◌}
use proj.Base.Words.{null}
use proj.Base.{refl}
use proj.Vm.Pools.{vm_memory_pool_delete}
use proj.Vm.Calls.{Call}
use proj.Base.{Option, ap, arith, false, min, none, some, ℕ, ◌+◌, ◌<◌, ◌∙◌, ◌≡◌, ◌≤◌}
use proj.Base.Words.{u32_mod, u64_mod}
use proj.Kernel.Scheduler.{scheduler}
use proj.Kernel.State.{Kernel}
use proj.Vm.Files.{share_round}
use proj.Vm.Pools.{
  allocate_in, deallocate_in, vm_memory_pool_allocate, vm_memory_pool_create,
  vm_memory_pool_deallocate, vm_memory_pool_query,
}
use proj.Vm.Pools.Validity.{PoolsValid, allocate-PoolsValid}
use proj.Vm.Soundness.Frames.{AreEnabled, Frames, On}
use proj.Vm.State.{
  Outcome, Vm, resume, resume_signals, returned, suspend, suspend_signals, switch_to, switched,
  undefined,
}
use proj.Vm.Threads.{create_round}

-- A state between two steps.
pub record IsSettled (v : Vm) : Type 0 where
  pub enabled : AreEnabled v.signals
  pub pools : PoolsValid v

-- What the pools need of a call: a size that leaves room for the rounding, and a new pool that lies
-- in the address space while the counter of ids does not wrap. `VMThreadState` does not resume the
-- signals where its reference is NULL.
abbrev pub Fits : Call → Vm → Type 0
Fits (Call.pool_allocate memory size pointer) v = size + 63 < u32_mod
Fits (Call.pool_create base size memory) v =
    (base + size ≤ u64_mod) × (size < u32_mod) × (v.id_inc + 1 < u32_mod)
Fits (Call.thread_create entry memsize tid) v = memsize + 63 < u32_mod
Fits (Call.thread_create_again memsize) v = memsize + 63 < u32_mod
Fits (Call.thread_state thread state_ref) v = state_ref ≢ null
Fits _ v = Unit {0}

pub Frames-IsSettled : (v : Vm) (o : Outcome) → PoolsValid v → On (Frames v) o → On IsSettled o
Frames-IsSettled v (returned s out w) ok (en, p, i) = record { enabled = en; pools = rw (p, i) ok }
Frames-IsSettled v (switched w) ok (en, p, i) = record { enabled = en; pools = rw (p, i) ok }
Frames-IsSettled v undefined ok f = tt

switch_to-IsSettled :
    (w : Vm) (o : Option Kernel)
    → w.signals.saved ≡ false
    → PoolsValid w
    → On IsSettled (switch_to w o)
switch_to-IsSettled w none s ok = tt
switch_to-IsSettled w (some k) s ok = record { enabled = (s, s); pools = ok }

pub pool_allocate-signals :
    (v : Vm) (memory size pointer : ℕ)
    → (vm_memory_pool_allocate v memory size pointer).2.signals
      ≡ resume_signals (suspend_signals v.signals)
unfolding vm_memory_pool_allocate allocate_in
pool_allocate-signals v memory size pointer = ground arith

pub pool_deallocate-signals :
    (v : Vm) (memory pointer : ℕ)
    → (vm_memory_pool_deallocate v memory pointer).2.signals
      ≡ resume_signals (suspend_signals v.signals)
unfolding vm_memory_pool_deallocate deallocate_in
pool_deallocate-signals v memory pointer = ground arith

pub pool_create-signals :
    (v : Vm) (base size memory : ℕ)
    → (vm_memory_pool_create v base size memory).2.signals
      ≡ resume_signals (suspend_signals v.signals)
unfolding vm_memory_pool_create
pool_create-signals v base size memory = ground arith

pub pool_query-signals :
    (v : Vm) (memory bytesleft : ℕ)
    → (vm_memory_pool_query v memory bytesleft).2.signals
      ≡ resume_signals (suspend_signals v.signals)
unfolding vm_memory_pool_query
pool_query-signals v memory bytesleft = ground arith

-- An allocation outside the suspension, and the switch behind it.
round-IsSettled :
    (v : Vm) (memory size : ℕ)
    → v.signals.saved ≡ false
    → size + 63 < u32_mod
    → PoolsValid v
    → let w = suspend (vm_memory_pool_allocate (resume v) memory size 1).2 in
      On IsSettled (switch_to w (scheduler w.kernel))
round-IsSettled v memory size s room ok =
    let w = suspend (vm_memory_pool_allocate (resume v) memory size 1).2 in
    switch_to-IsSettled w _
      (ap (λ g. g.blocked) (pool_allocate-signals (resume v) memory size 1) ∙ s)
      (allocate-PoolsValid (resume v) memory size 1 room ok)

pub create_round-IsSettled :
    (v : Vm) (memsize : ℕ)
    → v.signals.saved ≡ false
    → memsize + 63 < u32_mod
    → PoolsValid v
    → On IsSettled (create_round v memsize).2
unfolding create_round
create_round-IsSettled v memsize = round-IsSettled v 0 memsize

pub share_round-IsSettled :
    (v : Vm) (shareid len : ℕ)
    → v.signals.saved ≡ false
    → PoolsValid v
    → On IsSettled (share_round v shareid len).2
unfolding share_round
share_round-IsSettled v shareid len s = round-IsSettled v shareid (min len 512) s (omega arith)

pub pool_delete-signals :
    (v : Vm) (memory : ℕ)
    → (vm_memory_pool_delete v memory).2.signals ≡ resume_signals (suspend_signals v.signals)
unfolding vm_memory_pool_delete
pool_delete-signals v memory = refl
