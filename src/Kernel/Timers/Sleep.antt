-- ===== src/Kernel/Timers/Sleep.antt =====
-- Sleeping and waiting with a timeout, tick by tick (`Thread::decrementTicks`).
use proj.Base.{
  ℕ, zero, suc, ◌+◌, ◌-◌, ◌≤◌, [], ◌∷◌, ◌++◌, Option, none, some, ◌≡◌, refl, sym, ap, subst, ◌∙◌,
  ◌==◌, ==_refl, length, arith,
}
use mathlib.Core.List.{append_assoc}
use proj.Base.Int.{pos}
use proj.Kernel.State.{
  Kernel, ready, waiting, set_ticks, set_state, set_thread, set_mutex, push_ready, cycle,
}
use proj.Kernel.Mutexes.{stop_waiting, wait_timeout}
use proj.Kernel.Threads.{leave_queue, expire, decrement_ticks}
use proj.Kernel.Timers.{thread-set_thread, decrement_ticks-counting}
use proj.Kernel.Timers.Expiry.{expired, expire-IsWoken, decrement_ticks-last}
use proj.Kernel.Timers.Expiry.{leave_queue-IsWoken}

push_ready-queue :
    (k : Kernel) (t pri : ℕ)
    → (k.thread t).priority ≡ pri
    → (push_ready k t).ready_q pri ≡ k.ready_q pri ++ (t ∷ [])
push_ready-queue k t pri e = rw (e, ==_refl pri)

stop_waiting-queue :
    (k : Kernel) (t pri : ℕ)
    → (k.thread t).priority ≡ pri
    → (stop_waiting k t).ready_q pri ≡ k.ready_q pri ++ (t ∷ [])
unfolding stop_waiting
stop_waiting-queue k t pri e =
    let th = record (k.thread t) { waiting_on = none; state = ready } in
    push_ready-queue (set_thread k t th) t pri (ap (λ x. x.priority) (thread-set_thread k t th) ∙ e)

expire-by :
    (k : Kernel) (t : ℕ) (m : Option ℕ)
    → (k.thread t).waiting_on ≡ m
    → expire k t ≡ push_ready (leave_queue m (set_state k t ready) t) t
unfolding expire
expire-by k t m e = ap (λ o. push_ready (leave_queue o (set_state k t ready) t) t) e

leave_queue-queue :
    (k : Kernel) (t m pri : ℕ)
    → (k.thread t).priority ≡ pri
    → (leave_queue (some m) k t).ready_q pri ≡ k.ready_q pri ++ (t ∷ [])
unfolding leave_queue wait_timeout
leave_queue-queue k t m pri e =
    stop_waiting-queue
      (set_mutex k m (record (k.mutex m) {
        qtex = cycle (λ x. x == t) (length (k.mutex m).qtex) (k.mutex m).qtex;
      }))
      t pri e

module _ (k : Kernel) (t : ℕ) where
  zeroed : Kernel
  zeroed = set_ticks k t (pos 0)

  zeroed-thread : (zeroed.thread t) ≡ record (k.thread t) { ticks = pos 0 }
  unfolding zeroed
  zeroed-thread = thread-set_thread k t (record (k.thread t) { ticks = pos 0 })

  woken-thread : ((set_state zeroed t ready).thread t) ≡ record (zeroed.thread t) { state = ready }
  woken-thread = thread-set_thread zeroed t (record (zeroed.thread t) { state = ready })

  woken-priority : ((set_state zeroed t ready).thread t).priority ≡ (k.thread t).priority
  woken-priority = ap (λ x. x.priority) woken-thread ∙ ap (λ x. x.priority) zeroed-thread

  -- A thread that slept is queued once, at the end of the queue of its priority.
  pub expired-asleep :
      (k.thread t).waiting_on ≡ none
      → (expired k t).ready_q (k.thread t).priority ≡ k.ready_q (k.thread t).priority ++ (t ∷ [])
  unfolding zeroed leave_queue
  expired-asleep e =
      ap (λ j. j.ready_q (k.thread t).priority)
        (expire-by zeroed t none (ap (λ x. x.waiting_on) zeroed-thread ∙ e))
      ∙ push_ready-queue (set_state zeroed t ready) t (k.thread t).priority woken-priority

  -- A thread that waited for a mutex is queued twice.
  pub expired-blocked :
      (m : ℕ)
      → (k.thread t).waiting_on ≡ some m
      → (expired k t).ready_q (k.thread t).priority
        ≡ k.ready_q (k.thread t).priority ++ (t ∷ t ∷ [])
  unfolding zeroed
  expired-blocked m e =
      let pri = (k.thread t).priority in
      let j = set_state zeroed t ready in
      let w = leave_queue-IsWoken (some m) j t (ap (λ x. x.state) woken-thread) in
      ap (λ i. i.ready_q pri)
        (expire-by zeroed t (some m) (ap (λ x. x.waiting_on) zeroed-thread ∙ e))
      ∙ (push_ready-queue (leave_queue (some m) j t) t pri (w.same_priority ∙ woken-priority)
          ∙ (ap (λ q. q ++ (t ∷ [])) (leave_queue-queue j t m pri woken-priority)
              ∙ append_assoc (k.ready_q pri) (t ∷ []) (t ∷ [])))

-- `n` ticks of one thread.
abbrev pub ticks_down : ℕ → Kernel → ℕ → Kernel
ticks_down zero k t = k
ticks_down (suc n) k t = ticks_down n (decrement_ticks k t) t

-- What a tick of a waiting thread with more than one tick left changes: one tick.
pub record IsAsleep (n : ℕ) (k k' : Kernel) (t : ℕ) : Type 0 where
  pub still : (k'.thread t).state ≡ waiting
  pub ticks_left : (k'.thread t).ticks ≡ pos n
  pub no_mutex : (k'.thread t).waiting_on ≡ none
  pub same_priority : (k'.thread t).priority ≡ (k.thread t).priority
  pub same_queues : (p : ℕ) → k'.ready_q p ≡ k.ready_q p

IsAsleep-tick :
    (n : ℕ) (k k' : Kernel) (t : ℕ)
    → IsAsleep (suc (suc n)) k k' t
    → IsAsleep (suc n) k (decrement_ticks k' t) t
IsAsleep-tick n k k' t a =
    let th = record (k'.thread t) { ticks = pos (suc n) } in
    let here = thread-set_thread k' t th in
    subst (λ j. IsAsleep (suc n) k j t) (sym (decrement_ticks-counting k' t n a.ticks_left))
      (record {
        still = ap (λ x. x.state) here ∙ a.still;
        ticks_left = ap (λ x. x.ticks) here;
        no_mutex = ap (λ x. x.waiting_on) here ∙ a.no_mutex;
        same_priority = ap (λ x. x.priority) here ∙ a.same_priority;
        same_queues = a.same_queues;
      })

ticks_down-IsAsleep :
    (j n : ℕ) (k k' : Kernel) (t : ℕ)
    → IsAsleep (suc (j + n)) k k' t
    → IsAsleep (suc n) k (ticks_down j k' t) t
ticks_down-IsAsleep zero n k k' t a = subst (λ i. IsAsleep i k k' t) (omega arith) a
ticks_down-IsAsleep (suc j) n k k' t a =
    ticks_down-IsAsleep j n k (decrement_ticks k' t) t
      (IsAsleep-tick (j + n) k k' t (subst (λ i. IsAsleep i k k' t) (omega arith) a))

ticks_down-suc :
    (n : ℕ) (k : Kernel) (t : ℕ) → ticks_down (suc n) k t ≡ decrement_ticks (ticks_down n k t) t
ticks_down-suc zero k t = refl
ticks_down-suc (suc n) k t = ticks_down-suc n (decrement_ticks k t) t

-- A thread that waits for no mutex and sleeps for `n + 1` ticks still waits after any smaller
-- number `j` of them, with no queue changed, and after all of them it is READY, at the end of the
-- queue of its priority, once.
pub sleep_lem :
    (k : Kernel) (t n : ℕ)
    → (k.thread t).state ≡ waiting
    → (k.thread t).ticks ≡ pos (suc n)
    → (k.thread t).waiting_on ≡ none
    → ((j : ℕ) → j ≤ n → IsAsleep (suc (n - j)) k (ticks_down j k t) t)
      × (((ticks_down (suc n) k t).thread t).state ≡ ready)
      × ((ticks_down (suc n) k t).ready_q (k.thread t).priority
          ≡ k.ready_q (k.thread t).priority ++ (t ∷ []))
sleep_lem k t n st ti wo =
    let asleep : IsAsleep (suc n) k k t = record {
      still = st;
      ticks_left = ti;
      no_mutex = wo;
      same_priority = refl;
      same_queues = λ p. refl;
    } in
    let before = λ (j : ℕ) (h : j ≤ n).
      ticks_down-IsAsleep j (n - j) k k t
        (subst (λ i. IsAsleep i k k t) (omega (arith, h)) asleep) in
    let k' = ticks_down n k t in
    let a : IsAsleep 1 k k' t =
      ticks_down-IsAsleep n 0 k k t (subst (λ i. IsAsleep i k k t) (omega arith) asleep) in
    let last : ticks_down (suc n) k t ≡ expired k' t =
      ticks_down-suc n k t ∙ decrement_ticks-last k' t a.ticks_left a.still in
    let pri = (k.thread t).priority in
    (
      before,
      ap (λ i. (i.thread t).state) last ∙ (expire-IsWoken (set_ticks k' t (pos 0)) t).state_ready,
      ap (λ i. i.ready_q pri) last
          ∙ (subst (λ p. (expired k' t).ready_q p ≡ k'.ready_q p ++ (t ∷ [])) a.same_priority
                (expired-asleep k' t a.no_mutex)
              ∙ ap (λ q. q ++ (t ∷ [])) (a.same_queues pri)),
    )

-- The last tick of a waiting thread's wait for a mutex makes the thread READY, and puts it into
-- the queue of its priority twice.
pub timeout_queued_twice :
    (k : Kernel) (t m : ℕ)
    → (k.thread t).state ≡ waiting
    → (k.thread t).ticks ≡ pos 1
    → (k.thread t).waiting_on ≡ some m
    → (((decrement_ticks k t).thread t).state ≡ ready)
      × ((decrement_ticks k t).ready_q (k.thread t).priority
          ≡ k.ready_q (k.thread t).priority ++ (t ∷ t ∷ []))
timeout_queued_twice k t m st ti wo =
    let last = decrement_ticks-last k t ti st in
    let pri = (k.thread t).priority in
    (
      ap (λ i. (i.thread t).state) last ∙ (expire-IsWoken (set_ticks k t (pos 0)) t).state_ready,
      ap (λ i. i.ready_q pri) last ∙ expired-blocked k t m wo,
    )
