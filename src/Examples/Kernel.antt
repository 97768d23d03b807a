-- ===== src/Examples/Kernel.antt =====
-- Three threads of different priorities, on the scheduler and the timer.
use proj.Base.{if◌then◌else◌}
use proj.Base.{List, arith, none, refl, some, suc, ℕ, ◌-◌, ◌<◌, ◌==◌, ◌∷◌, ◌≡◌, ◌≢◌, ◌≤◌}
use proj.Base.Int.{pos}
use proj.Examples.Pools.{kernel}
use proj.Kernel.Dispatch.{scheduler-highest, scheduler-ne-none}
use proj.Kernel.Scheduler.{dispatch, dispatch_from, run_front, scheduler, yield_running}
use proj.Kernel.State.{Kernel, priority_high, ready, running, update, waiting}
use proj.Kernel.Threads.{decrement_ticks}
use proj.Kernel.Timers.Sleep.{IsAsleep, sleep_lem, ticks_down, timeout_queued_twice}
use proj.Base.{[]}

abbrev queues : ℕ → List ℕ
queues p = if p == 1 then 4 ∷ [] else if p == 2 then 2 ∷ 3 ∷ [] else []

abbrev busy : Kernel
busy = record kernel { ready_q = queues; threads = 0 ∷ 1 ∷ 2 ∷ 3 ∷ 4 ∷ [] }

-- Thread 0 yields to thread 2 and is queued behind thread 3.
abbrev after_switch : Kernel
after_switch = run_front (yield_running busy 0) 2 2 (3 ∷ 0 ∷ [])

switched_to : scheduler busy ≡ some after_switch
unfolding scheduler yield_running dispatch dispatch_from run_front
switched_to = refl

scheduler-highest_example :
    (pri : ℕ) × (pri ≤ priority_high)
    × ((yield_running busy 0).ready_q pri ≡ after_switch.tr ∷ after_switch.ready_q pri)
    × ((p : ℕ) → pri < p → p ≤ priority_high → (yield_running busy 0).ready_q p ≡ [])
    × ((after_switch.thread after_switch.tr).state ≡ running)
scheduler-highest_example = scheduler-highest busy after_switch switched_to

scheduler-ne-none_example : scheduler busy ≢ none
scheduler-ne-none_example = scheduler-ne-none busy refl (omega arith)

-- Thread 1 sleeps for three ticks.
abbrev asleep : Kernel
asleep = record busy {
  thread = update kernel.thread 1 (record (kernel.thread 1) { state = waiting; ticks = pos 3 });
}

sleep_lem_example :
    ((j : ℕ) → j ≤ 2 → IsAsleep (suc (2 - j)) asleep (ticks_down j asleep 1) 1)
    × (((ticks_down 3 asleep 1).thread 1).state ≡ ready)
    × ((ticks_down 3 asleep 1).ready_q 2 ≡ 2 ∷ 3 ∷ 1 ∷ [])
sleep_lem_example = sleep_lem asleep 1 2 refl refl refl

-- Thread 1 waits for the mutex 5 for one more tick.
abbrev waits : Kernel
waits = record busy {
  thread =
      update kernel.thread 1
        (record (kernel.thread 1) { state = waiting; ticks = pos 1; waiting_on = some 5 });
}

timeout_queued_twice_example :
    (((decrement_ticks waits 1).thread 1).state ≡ ready)
    × ((decrement_ticks waits 1).ready_q 2 ≡ 2 ∷ 3 ∷ 1 ∷ 1 ∷ [])
timeout_queued_twice_example = timeout_queued_twice waits 1 5 refl refl refl
