-- ===== src/Vm/Soundness/Frames.antt =====
-- What the calls of VirtualMachine.cpp do to the signal mask, and which of them leave the pools alone.
use proj.Base.{List, refl}
use proj.Base.Int.{negsuc, pos, ℤ}
use proj.Kernel.Scheduler.{scheduler, tick_all}
use proj.Vm.Files.{
  file_opened, file_done, vm_file_close, vm_file_open, vm_file_seek, wait_for_machine, with_cd,
}
use proj.Vm.Interrupts.{vm_file_callback, vm_timer_isr}
use proj.Vm.Mutexes.{vm_mutex_delete, vm_mutex_query, vm_mutex_release}
use proj.Vm.State.{resume, with_kernel}
use proj.Vm.Threads.{
  create_thread, vm_thread_activate, vm_thread_delete, vm_thread_id, vm_thread_terminate,
}
use proj.Base.{Option, arith, false, none, some, ℕ, ◌≡◌}
use proj.Kernel.State.{Kernel}
use proj.Vm.Mutexes.{acquired, immediately, or_wait, vm_mutex_acquire, vm_mutex_create}
use proj.Vm.State.{Outcome, Signals, Vm, returned, suspend, switch_to, switched, undefined}
use proj.Vm.Threads.{vm_thread_sleep}

-- The timer's signal is unmasked, and so it is in the mask that the next resumption restores.
abbrev pub AreEnabled : Signals → Type 0
AreEnabled s = (s.blocked ≡ false) × (s.saved ≡ false)

-- A predicate on the state that an outcome leaves, if any.
abbrev pub On : (Vm → Type 0) → Outcome → Type 0
On P (returned s out w) = P w
On P (switched w) = P w
On P undefined = Unit {0}

-- Between two steps the timer's signal is unmasked, and the pools are those of `v`.
abbrev pub Frames : Vm → Vm → Type 0
Frames v w = AreEnabled w.signals × (w.pools ≡ v.pools) × (w.id_inc ≡ v.id_inc)

pub switch_to-Frames :
    (v w : Vm) (o : Option Kernel)
    → w.signals.saved ≡ false
    → w.pools ≡ v.pools
    → w.id_inc ≡ v.id_inc
    → On (Frames v) (switch_to w o)
switch_to-Frames v w none s p i = tt
switch_to-Frames v w (some k) s p i = ((s, s), p, i)

module _ (v : Vm) (en : AreEnabled v.signals) where
  pub mutex_create-Frames : (ref : ℕ) → On (Frames v) (vm_mutex_create v ref)
  unfolding vm_mutex_create
  mutex_create-Frames ref = ground (arith, en)

  pub mutex_delete-Frames : (mutex : ℕ) → On (Frames v) (vm_mutex_delete v mutex)
  unfolding vm_mutex_delete
  mutex_delete-Frames mutex = ground (arith, en)

  pub mutex_release-Frames : (mutex : ℕ) → On (Frames v) (vm_mutex_release v mutex)
  unfolding vm_mutex_release
  mutex_release-Frames mutex = ground (arith, en, switch_to-Frames v (suspend v))

  pub mutex_acquire-Frames : (mutex timeout : ℕ) → On (Frames v) (vm_mutex_acquire v mutex timeout)
  unfolding vm_mutex_acquire or_wait immediately acquired
  mutex_acquire-Frames mutex timeout = ground (arith, en, switch_to-Frames v (suspend v))

  pub acquired-Frames : (mutex : ℕ) → On (Frames v) (acquired v mutex)
  unfolding acquired
  acquired-Frames mutex = ground (arith, en)

  pub mutex_query-Frames : (mutex ref : ℕ) → On (Frames v) (vm_mutex_query v mutex ref)
  unfolding vm_mutex_query
  mutex_query-Frames mutex ref = ground (arith, en)

  pub thread_sleep-Frames : (tick : ℕ) → On (Frames v) (vm_thread_sleep v tick)
  unfolding vm_thread_sleep
  thread_sleep-Frames tick = ground (arith, en, switch_to-Frames v (suspend v))

  pub thread_id-Frames : (ref : ℕ) → On (Frames v) (vm_thread_id v ref)
  unfolding vm_thread_id
  thread_id-Frames ref = ground (arith, en)

  pub thread_activate-Frames : (thread : ℕ) → On (Frames v) (vm_thread_activate v thread)
  unfolding vm_thread_activate
  thread_activate-Frames thread = ground (arith, en)

  pub thread_delete-Frames : (thread : ℕ) → On (Frames v) (vm_thread_delete v thread)
  unfolding vm_thread_delete
  thread_delete-Frames thread = ground (arith, en)

  pub thread_terminate-Frames : (thread : ℕ) → On (Frames v) (vm_thread_terminate v thread)
  unfolding vm_thread_terminate
  thread_terminate-Frames thread = ground (arith, en, switch_to-Frames v (suspend v))

  pub create_thread-Frames :
      (entry param memsize prio mem : ℕ)
      → On (Frames v) (create_thread v entry param memsize prio mem)
  unfolding create_thread
  create_thread-Frames entry param memsize prio mem = ground (arith, en)

  pub timer_isr-Frames : On (Frames v) (vm_timer_isr v)
  unfolding vm_timer_isr
  timer_isr-Frames =
      let k = tick_all v.kernel v.kernel.threads in
      switch_to-Frames v (resume (with_kernel (suspend v) k)) (scheduler k) en.0 refl refl

  pub file_callback-Frames :
      (thread : ℕ) (result : ℤ) → On (Frames v) (vm_file_callback v thread result)
  unfolding vm_file_callback
  file_callback-Frames thread result = ground (arith, en)

  pub wait_for_machine-Frames : On (Frames v) (wait_for_machine v)
  unfolding wait_for_machine
  wait_for_machine-Frames = switch_to-Frames v v _ en.1 refl refl

  pub file_open-Frames :
      (filename : Option (List ℕ)) (fd : ℕ) → On (Frames v) (vm_file_open v filename fd).1
  unfolding vm_file_open wait_for_machine
  file_open-Frames filename fd =
      ground (arith, en, switch_to-Frames v (with_cd (suspend v) (negsuc 17)))

  pub file_close-Frames : On (Frames v) (vm_file_close v)
  unfolding vm_file_close wait_for_machine
  file_close-Frames = switch_to-Frames v (with_cd (suspend v) (pos 1)) _ en.0 refl refl

  pub file_seek-Frames : On (Frames v) (vm_file_seek v)
  unfolding vm_file_seek wait_for_machine
  file_seek-Frames = switch_to-Frames v (with_cd (suspend v) (negsuc 727)) _ en.0 refl refl

  pub file_opened-Frames : (result : ℤ) → On (Frames v) (file_opened result v)
  unfolding file_opened
  file_opened-Frames result = ground (arith, en)

  pub file_done-Frames : (result : ℤ) → On (Frames v) (file_done result v)
  unfolding file_done
  file_done-Frames result = ground (arith, en)
