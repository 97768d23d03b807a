-- ===== src/Examples/Start.antt =====
-- A heap of 2 MB, shared memory of 4 KB, and the machine that `VMStart` makes of them.
use proj.Kernel.Scheduler.{dispatch, dispatch_from, run_front, scheduler, yield_running}
use proj.Kernel.Threads.{new_main_thread, new_thread}
use proj.Machine.Startup.{machine_initialize}
use proj.Memory.{allocate}
use proj.Vm.Pools.{allocate_in, vm_memory_pool_create}
use proj.Vm.Start.{start_idle, start_machine, start_main}
use proj.Vm.Threads.{create_round, create_thread, last_thread, vm_thread_activate, vm_thread_create}
use proj.Kernel.Exclusion.Moves.{IsExclusive}
use proj.Machine.Requests.{Machine}
use proj.Vm.Calls.{Call, call, here, next}
use proj.Vm.Pools.{vm_memory_pool_allocate}
use proj.Vm.Soundness.Steps.{IsSettled}
use proj.Vm.Start.Boot.{CanStart, vm_start-IsSettled}
use proj.Vm.State.{Vm}
use proj.Base.{arith, false, refl, true, ◌≡◌}
use proj.Machine.Startup.{machine_unset}
use proj.Vm.Start.{Start, vm_start}
use proj.Vm.Start.Boot.{HasStarted, vm_start-HasStarted}
use proj.Vm.State.{failure}
use proj.Examples.Pools.{kernel, machine}

abbrev fits : CanStart 4096 2097152 4000 8388608 77 machine_unset
fits = record {
  heap_given = omega arith;
  heap_top = omega arith;
  heap_narrow = omega arith;
  stack_fits = omega arith;
  share_given = omega arith;
  share_narrow = omega arith;
  share_top = omega arith;
  idle_given = omega arith;
  down = refl;
}

abbrev start_state : Start
start_state =
    vm_start true 4096 2097152 4000 8388608 77 (kernel.thread 0) machine.vmfat machine_unset

vm_start-HasStarted_example : HasStarted start_state
vm_start-HasStarted_example =
    vm_start-HasStarted 4096 2097152 4000 8388608 77 (kernel.thread 0) machine.vmfat machine_unset
      fits

-- The state that the start leaves.
abbrev running_state : Vm
running_state = elim start_state [ Start.started v m ↦ v | _ ↦ machine ]

abbrev running_machine : Machine
running_machine = elim start_state [ Start.started v m ↦ m | _ ↦ machine_unset ]

starts : start_state ≡ Start.started running_state running_machine
unfolding vm_start start_idle vm_thread_create create_round vm_memory_pool_allocate allocate_in
    start_main vm_memory_pool_create allocate scheduler dispatch dispatch_from yield_running
    create_thread vm_thread_activate new_thread run_front start_machine machine_initialize
    new_main_thread last_thread
starts = refl

-- The main thread allocates 100 bytes of the heap.
abbrev allocated_state : Vm
allocated_state = (vm_memory_pool_allocate running_state 0 100 1).2

vm_start-IsSettled_example : IsExclusive allocated_state.kernel × IsSettled allocated_state
unfolding call
vm_start-IsSettled_example =
    vm_start-IsSettled 4096 2097152 4000 8388608 77 (kernel.thread 0) machine.vmfat machine_unset
      {v = running_state} {w = allocated_state} {m' = running_machine} fits starts
      (next here (Call.pool_allocate 0 100 1) refl) (tt, omega arith)

-- A program that is not found ends the call.
exit_run :
    vm_start false 4096 2097152 4000 8388608 77 (kernel.thread 0) machine.vmfat machine_unset
    ≡ Start.exited failure
unfolding vm_start
exit_run = refl
