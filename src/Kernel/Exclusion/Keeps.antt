-- ===== src/Kernel/Exclusion/Keeps.antt =====
-- The operations that leave the lock table alone: waiting, waking, timeouts and scheduling.
use proj.Base.{
  ℕ, List, [], ◌∷◌, Option, none, some, ◌≡◌, refl, sym, ◌∙◌, inl, inr, ◌==◌, Bool, Bool-cases,
  arith,
}
use proj.Base.Int.{ℤ, pos, negsuc}
use proj.Kernel.State.{
  Kernel, Thread, Mutex, ready, is_running, set_thread, set_mutex, set_state, set_ticks, push_ready,
}
use proj.Kernel.Mutexes.{stop_waiting, is_in_queue, enqueue, wait_timeout}
use proj.Kernel.Threads.{decrement_ticks}
use proj.Kernel.Scheduler.{yield_running, dispatch, scheduler, tick_all, timer_isr}
use proj.Kernel.Exclusion.Moves.{held, owner_of, keep, IsExclusive, Move-IsExclusive}
use proj.Kernel.Dispatch.{dispatch_lem}
use proj.Base.Int.{◌-ℤ◌}
use proj.Kernel.Threads.{expire}
use proj.Kernel.Threads.{clamp_ticks}
use proj.Kernel.Mutexes.{enqueue_unless}
use proj.Kernel.Threads.{leave_queue}
use proj.Kernel.Threads.{expire_if_due}
use proj.Kernel.Scheduler.{run_front}
use proj.Kernel.Dispatch.{dispatch_lem}
use proj.Base.Int.{◌==ℤ◌}
use proj.Base.{subst}
use proj.Base.{not}
use proj.Base.{◌&&◌}
use proj.Kernel.State.{is_waiting}
use proj.Kernel.State.{vm_timeout_immediate}

pub record Keeps (k k' : Kernel) : Type 0 where
  pub holds : (u : ℕ) → held k' u ≡ held k u
  pub owners : (m : ℕ) → owner_of k' m ≡ owner_of k m
  pub next : k'.next_mutex ≡ k.next_mutex
  pub listed : k'.mutexes ≡ k.mutexes

pub Keeps-refl : (k : Kernel) → Keeps k k
Keeps-refl k = record { holds = λ u. refl; owners = λ m. refl; next = refl; listed = refl }

pub Keeps-trans : {k k' k'' : Kernel} → Keeps k k' → Keeps k' k'' → Keeps k k''
Keeps-trans a b = record {
  holds = λ u. b.holds u ∙ a.holds u;
  owners = λ m. b.owners m ∙ a.owners m;
  next = b.next ∙ a.next;
  listed = b.listed ∙ a.listed;
}

pub Keeps-IsExclusive : {k k' : Kernel} → Keeps k k' → IsExclusive k → IsExclusive k'
Keeps-IsExclusive s ex = Move-IsExclusive s.next s.listed (keep s.holds s.owners) ex

pub set_thread-Keeps :
    (k : Kernel) (t : ℕ) (th : Thread) → th.held_mutex ≡ held k t → Keeps k (set_thread k t th)
set_thread-Keeps k t th e = record {
  holds = λ u. ground (arith, e);
  owners = λ m. refl;
  next = refl;
  listed = refl;
}

pub set_mutex-Keeps :
    (k : Kernel) (m : ℕ) (mtx : Mutex) → mtx.owner ≡ owner_of k m → Keeps k (set_mutex k m mtx)
set_mutex-Keeps k m mtx e = record {
  holds = λ u. refl;
  owners = λ n. ground (arith, e);
  next = refl;
  listed = refl;
}

pub push_ready-Keeps : (k : Kernel) (t : ℕ) → Keeps k (push_ready k t)
push_ready-Keeps k t = record { holds = λ u. refl; owners = λ n. refl; next = refl; listed = refl }

pub stop_waiting-Keeps : (k : Kernel) (t : ℕ) → Keeps k (stop_waiting k t)
unfolding stop_waiting
stop_waiting-Keeps k t =
    Keeps-trans
      (set_thread-Keeps k t (record (k.thread t) { waiting_on = none; state = ready }) refl)
      (push_ready-Keeps _ t)

pub is_in_queue-Keeps : (k : Kernel) (m id : ℕ) → Keeps k (is_in_queue k m id).1
unfolding is_in_queue
is_in_queue-Keeps k m id = set_mutex-Keeps k m _ refl

enqueue_unless-Keeps :
    (found : Bool) (k : Kernel) (m t timeout : ℕ) → Keeps k (enqueue_unless found k m t timeout).1
unfolding enqueue_unless
enqueue_unless-Keeps found k m t timeout =
    elim (Bool-cases (not found && not (timeout == vm_timeout_immediate))) [
      | inl e ↦ rw e (set_mutex-Keeps k m _ refl)
      | inr e ↦ rw e (Keeps-refl k)
    ]

pub enqueue-Keeps : (k : Kernel) (m t timeout : ℕ) → Keeps k (enqueue k m t timeout).1
unfolding enqueue
enqueue-Keeps k m t timeout =
    let searched = is_in_queue k m (k.thread t).id in
    Keeps-trans (is_in_queue-Keeps k m (k.thread t).id)
      (enqueue_unless-Keeps searched.0 searched.1 m t timeout)

pub wait_timeout-Keeps : (k : Kernel) (m t : ℕ) → Keeps k (wait_timeout k m t)
unfolding wait_timeout
wait_timeout-Keeps k m t = Keeps-trans (set_mutex-Keeps k m _ refl) (stop_waiting-Keeps _ t)

leave_queue-Keeps : (m : Option ℕ) (k : Kernel) (t : ℕ) → Keeps k (leave_queue m k t)
unfolding leave_queue
leave_queue-Keeps none k t = Keeps-refl k
leave_queue-Keeps (some m) k t = wait_timeout-Keeps k m t

pub expire-Keeps : (k : Kernel) (t : ℕ) → Keeps k (expire k t)
unfolding expire
expire-Keeps k t = Keeps-trans (set_thread-Keeps k t (record (k.thread t) { state = ready }) refl) (
    Keeps-trans (leave_queue-Keeps (k.thread t).waiting_on (set_state k t ready) t)
      (push_ready-Keeps _ t))

expire_if_due-Keeps : (k : Kernel) (t : ℕ) → Keeps k (expire_if_due k t)
unfolding expire_if_due
expire_if_due-Keeps k t =
    elim (Bool-cases ((k.thread t).ticks ==ℤ pos 0 && is_waiting (k.thread t).state)) [
      | inl e ↦ rw e (expire-Keeps k t)
      | inr e ↦ rw e (Keeps-refl k)
    ]

clamp_ticks-Keeps : (n : ℤ) (k : Kernel) (t : ℕ) → Keeps k (clamp_ticks n k t)
unfolding clamp_ticks
clamp_ticks-Keeps (pos n) k t = Keeps-refl k
clamp_ticks-Keeps (negsuc n) k t = set_thread-Keeps k t _ refl

pub decrement_ticks-Keeps : (k : Kernel) (t : ℕ) → Keeps k (decrement_ticks k t)
unfolding decrement_ticks
decrement_ticks-Keeps k t =
    let k₁ = set_ticks k t ((k.thread t).ticks -ℤ pos 1) in
    Keeps-trans
      (set_thread-Keeps k t (record (k.thread t) { ticks = (k.thread t).ticks -ℤ pos 1 }) refl)
      (Keeps-trans (expire_if_due-Keeps k₁ t) (clamp_ticks-Keeps _ _ t))

pub tick_all-Keeps : (k : Kernel) (ts : List ℕ) → Keeps k (tick_all k ts)
unfolding tick_all
tick_all-Keeps k [] = Keeps-refl k
tick_all-Keeps k (t ∷ ts) =
    Keeps-trans (decrement_ticks-Keeps k t) (tick_all-Keeps (decrement_ticks k t) ts)

yield_running-Keeps : (k : Kernel) (t : ℕ) → Keeps k (yield_running k t)
unfolding yield_running
yield_running-Keeps k t = elim (Bool-cases (is_running (k.thread t).state)) [
  | inl e ↦ rw e (
      Keeps-trans (set_thread-Keeps k t (record (k.thread t) { state = ready }) refl)
        (push_ready-Keeps _ t))
  | inr e ↦ rw e (Keeps-refl k)
]

pub run_front-Keeps : (k : Kernel) (pri t : ℕ) (q : List ℕ) → Keeps k (run_front k pri t q)
unfolding run_front
run_front-Keeps k pri t q = record {
  holds = λ u. ground arith;
  owners = λ m. refl;
  next = refl;
  listed = refl;
}

pub dispatch-Keeps : (k : Kernel) {k' : Kernel} → dispatch k ≡ some k' → Keeps k k'
dispatch-Keeps k {k'} e =
    let d = dispatch_lem k e in
    subst (Keeps k) (sym d.result) (run_front-Keeps k d.pri d.thread d.rest)

pub scheduler-Keeps : (k : Kernel) {k' : Kernel} → scheduler k ≡ some k' → Keeps k k'
unfolding scheduler
scheduler-Keeps k e =
    Keeps-trans (yield_running-Keeps k k.tr) (dispatch-Keeps (yield_running k k.tr) e)

pub timer_isr-Keeps : (k : Kernel) {k' : Kernel} → timer_isr k ≡ some k' → Keeps k k'
unfolding timer_isr
timer_isr-Keeps k e =
    Keeps-trans (tick_all-Keeps k k.threads) (scheduler-Keeps (tick_all k k.threads) e)
