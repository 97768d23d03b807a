-- ===== src/Vm/Interrupts.antt =====
-- The signal handlers of VirtualMachine.cpp, `timerISR` and `fileCallback`.
use proj.Base.{ℕ, none, some}
use proj.Base.Int.{ℤ}
use proj.Kernel.Scheduler.{tick_all, scheduler, file_callback}
use proj.Vm.State.{
  Vm, Outcome, returned, undefined, success, suspend, resume, switch_to, with_kernel,
}

unfoldable pub vm_timer_isr : Vm → Outcome
vm_timer_isr v₀ =
    let v = suspend v₀ in
    let k = tick_all v.kernel v.kernel.threads in switch_to (resume (with_kernel v k)) (scheduler k)

-- The callback neither masks the signals nor switches, and returns nothing; its caller goes on. It
-- spins for ever where the thread is not waiting.
unfoldable pub vm_file_callback : Vm → (calldata : ℕ) → ℤ → Outcome
vm_file_callback v calldata result = elim (file_callback v.kernel calldata result) [
  | none ↦ undefined
  | some k ↦ returned success none (with_kernel v k)
]
