-- ===== src/Vm/Start.antt =====
-- `VMStart` (VirtualMachine.cpp) up to the call of the program's `VMMain`. `junk` is the memory of an
-- object before its constructor; an object that was not made holds nothing.
use proj.Base.{Bool, Option, [], false, if◌then◌else◌, none, some, ℕ, ◌*◌, ◌++◌, ◌/◌, ◌==◌, ◌∷◌}
use proj.Base.Words.{add32, null}
use proj.Fat.Image.{FatData}
use proj.Kernel.State.{Thread, priority_nil, priority_normal, running, set_state, set_thread}
use proj.Kernel.Threads.{new_main_thread}
use proj.Machine.Requests.{Machine}
use proj.Machine.Startup.{machine_initialize}
use proj.Vm.Directories.{slash}
use proj.Vm.Pools.{vm_memory_pool_create}
use proj.Vm.State.{Outcome, Status, Vm, failure, returned, success, switched, with_kernel}
use proj.Vm.Threads.{create_thread, vm_thread_activate, vm_thread_create}
pub mod Shutdown
pub mod Idle
pub mod Boot

-- The globals before `VMStart`.
abbrev pub unstarted : Thread → FatData → Vm
unstarted junk image = record {
  signals = record { blocked = false; saved = false };
  pools = [];
  id_inc = 0;
  kernel = record {
    thread = λ t. record junk { held_mutex = [] };
    mutex = λ m. record { id = 0; qtex = []; owner = none };
    next_thread = 0;
    next_mutex = 0;
    next_id = 0;
    id_counter = 0;
    threads = [];
    mutexes = [];
    ready_q = λ pri. [];
    tr = 0;
  };
  vmfat = image;
  dirs = [];
  cur_path = slash;
}

-- The object of the thread that `VMStart` runs in.
unfoldable pub start_main : Vm → (junk : Thread) → Vm
unfolding new_main_thread
start_main v junk =
    let (t, k) = new_main_thread v.kernel junk in
    let k' =
      set_state (set_thread k t (record (k.thread t) { priority = priority_normal })) t running in
    with_kernel v (record k' { threads = k'.threads ++ (t ∷ []); tr = t })

-- `stalled` is a loop of `VMThreadCreate` that has not got the stack of the idle thread, or behaviour
-- that C++ leaves undefined.
pub data Start : Type 0 where
  started : Vm → Machine → Start
  exited : Status → Start
  stalled : Start

-- `VMThreadCreate` for the idle thread, from the first round of its loop on, and `VMThreadActivate`.
unfoldable pub start_idle : (idle : ℕ) → Status × Option ℕ × Outcome → Option Vm
start_idle idle (success, some mem, switched v) =
    elim (create_thread v idle 0 0x100000 priority_nil mem) [
      | returned _ (some id) w ↦ elim (vm_thread_activate w id) [
        | returned _ _ w' ↦ some w'
        | _ ↦ none
      ]
      | _ ↦ none
    ]
start_idle idle _ = none

-- The shared memory; `mapped` is what `mmap` gives. Where there is none, `VMStart` returns 1, which is
-- VM_STATUS_SUCCESS.
unfoldable pub start_machine : (sharedsize mapped : ℕ) → Vm → Machine → Start
start_machine sharedsize mapped v m =
    let share = add32 sharedsize 0xfff / 4096 * 4096 in
    let (base, m') = machine_initialize share mapped m in
    if base == null
    then exited success
    else (let w = (vm_memory_pool_create v base share 1).2 in
        started (record w { signals = record { blocked = false; saved = w.signals.saved } }) m')

-- `loaded` says whether `VMLoadModule` finds the program, `heap` is what `new` gives and `idle` the
-- address of the idle function.
unfoldable pub vm_start :
    (loaded : Bool) (heap heapsize sharedsize mapped idle : ℕ) → Thread → FatData → Machine → Start
vm_start loaded heap heapsize sharedsize mapped idle junk image m =
    let v = (vm_memory_pool_create (unstarted junk image) heap heapsize 1).2 in
    if loaded
    then elim (start_idle idle (vm_thread_create (start_main v junk) idle 0x100000 1)) [
      | none ↦ stalled
      | some w ↦ start_machine sharedsize mapped w m
    ]
    else exited failure
