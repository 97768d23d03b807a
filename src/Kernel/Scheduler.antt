-- ===== src/Kernel/Scheduler.antt =====
-- `scheduler`, `timerISR` and `fileCallback` of VirtualMachine.cpp.
use proj.Base.{ℕ, List, [], ◌∷◌, Option, none, some, if◌then◌else◌}
use proj.Base.Int.{ℤ}
use proj.Kernel.State.{
  Kernel, is_running, running, ready, is_waiting, update, set_state, setcd, push_ready,
  priority_nil, priority_low, priority_normal, priority_high,
}
use proj.Kernel.Threads.{decrement_ticks}

-- The running thread goes to the end of its queue; a thread in another state does not.
unfoldable pub yield_running : Kernel → ℕ → Kernel
yield_running k pt =
    if is_running (k.thread pt).state then push_ready (set_state k pt ready) pt else k

-- The thread `t`, at the front of the queue of the priority, is popped and runs; `q` is the rest.
unfoldable pub run_front : Kernel → (pri t : ℕ) → (q : List ℕ) → Kernel
run_front k pri t q = set_state (record k { ready_q = update k.ready_q pri q; tr = t }) t running

-- The choice of `scheduler` by the four queues, from the highest priority. With the queue of the
-- idle thread empty as well, `front()` has no defined result: that is `none`.
unfoldable pub dispatch_from : Kernel → (high normal low idle : List ℕ) → Option Kernel
dispatch_from k (t ∷ q) normal low idle = some (run_front k priority_high t q)
dispatch_from k [] (t ∷ q) low idle = some (run_front k priority_normal t q)
dispatch_from k [] [] (t ∷ q) idle = some (run_front k priority_low t q)
dispatch_from k [] [] [] (t ∷ q) = some (run_front k priority_nil t q)
dispatch_from k [] [] [] [] = none

unfoldable pub dispatch : Kernel → Option Kernel
dispatch k =
    dispatch_from k (k.ready_q priority_high) (k.ready_q priority_normal) (k.ready_q priority_low)
      (k.ready_q priority_nil)

-- `scheduler`, up to the context switch: the state in which `tr` goes on.
unfoldable pub scheduler : Kernel → Option Kernel
scheduler k = dispatch (yield_running k k.tr)

-- The loop of `timerISR` over the threads.
unfoldable pub tick_all : Kernel → List ℕ → Kernel
tick_all k [] = k
tick_all k (t ∷ ts) = tick_all (decrement_ticks k t) ts

-- `timerISR`; the signals are in `Vm`.
unfoldable pub timer_isr : Kernel → Option Kernel
timer_isr k = scheduler (tick_all k k.threads)

-- `fileCallback`, which spins until the thread is waiting: `none` where it is not, since nothing
-- changes the state during the signal handler.
unfoldable pub file_callback : Kernel → (cbt : ℕ) → ℤ → Option Kernel
file_callback k cbt result =
    let k₁ = setcd k cbt result in
    if is_waiting (k₁.thread cbt).state
    then some (push_ready (set_state k₁ cbt ready) cbt)
    else none
