-- ===== src/Kernel/Timers/Expiry.antt =====
-- The tick with which a wait ends: `Thread::decrementTicks` and `Mutex::waitTimeout`.
use proj.Base.{ℕ, Option, none, some, ◌≡◌, refl, ap, ◌∙◌, ◌==◌, length, arith}
use proj.Base.Int.{pos}
use proj.Kernel.State.{Kernel, ready, waiting, set_ticks, set_state, set_mutex, cycle}
use proj.Kernel.Mutexes.{stop_waiting, wait_timeout}
use proj.Kernel.Threads.{leave_queue, expire, expire_if_due, clamp_ticks, decrement_ticks}
use proj.Kernel.Timers.{thread-set_thread, left_of}

-- The state in which a wait ends, before the clamp: the ticks are 0.
abbrev pub expired : Kernel → ℕ → Kernel
expired k t = expire (set_ticks k t (pos 0)) t

-- What stays of a thread that is woken.
pub record IsWoken (k : Kernel) (t : ℕ) (k' : Kernel) : Type 0 where
  pub state_ready : (k'.thread t).state ≡ ready
  pub same_ticks : (k'.thread t).ticks ≡ (k.thread t).ticks
  pub same_priority : (k'.thread t).priority ≡ (k.thread t).priority

pub stop_waiting-IsWoken : (k : Kernel) (t : ℕ) → IsWoken k t (stop_waiting k t)
unfolding stop_waiting
stop_waiting-IsWoken k t =
    let th = record (k.thread t) { waiting_on = none; state = ready } in
    let e = thread-set_thread k t th in
    record {
      state_ready = ap (λ x. x.state) e;
      same_ticks = ap (λ x. x.ticks) e;
      same_priority = ap (λ x. x.priority) e;
    }

pub leave_queue-IsWoken :
    (m : Option ℕ) (k : Kernel) (t : ℕ)
    → (k.thread t).state ≡ ready
    → IsWoken k t (leave_queue m k t)
unfolding leave_queue wait_timeout
leave_queue-IsWoken none k t r = record { state_ready = r; same_ticks = refl; same_priority = refl }
leave_queue-IsWoken (some m) k t r =
    let w =
      stop_waiting-IsWoken
        (set_mutex k m (record (k.mutex m) {
          qtex = cycle (λ x. x == t) (length (k.mutex m).qtex) (k.mutex m).qtex;
        }))
        t in
    record {
      state_ready = w.state_ready;
      same_ticks = w.same_ticks;
      same_priority = w.same_priority;
    }

pub expire-IsWoken : (k : Kernel) (t : ℕ) → IsWoken k t (expire k t)
unfolding expire
expire-IsWoken k t =
    let th = record (k.thread t) { state = ready } in
    let e = thread-set_thread k t th in
    let w =
      leave_queue-IsWoken (k.thread t).waiting_on (set_state k t ready) t (ap (λ x. x.state) e) in
    record {
      state_ready = w.state_ready;
      same_ticks = w.same_ticks ∙ ap (λ x. x.ticks) e;
      same_priority = w.same_priority ∙ ap (λ x. x.priority) e;
    }

expire_if_due-eq :
    (k : Kernel) (t : ℕ)
    → (k.thread t).ticks ≡ pos 0
    → (k.thread t).state ≡ waiting
    → expire_if_due k t ≡ expire k t
unfolding expire_if_due
expire_if_due-eq k t e s = rw (e, s)

-- The last tick of a wait.
pub decrement_ticks-last :
    (k : Kernel) (t : ℕ)
    → (k.thread t).ticks ≡ pos 1
    → (k.thread t).state ≡ waiting
    → decrement_ticks k t ≡ expired k t
unfolding decrement_ticks clamp_ticks
decrement_ticks-last k t e s =
    let down : left_of k t ≡ pos 0 = rw e (ground arith) in
    let th = record (k.thread t) { ticks = pos 0 } in
    let here = thread-set_thread k t th in
    let k₁ = set_ticks k t (pos 0) in
    let due : expire_if_due k₁ t ≡ expire k₁ t =
      expire_if_due-eq k₁ t (ap (λ x. x.ticks) here) (ap (λ x. x.state) here ∙ s) in
    let w = expire-IsWoken k₁ t in
    let zero_left : ((expire k₁ t).thread t).ticks ≡ pos 0 =
      w.same_ticks ∙ ap (λ x. x.ticks) here in
    ap
      (λ n.
        clamp_ticks ((expire_if_due (set_ticks k t n) t).thread t).ticks
          (expire_if_due (set_ticks k t n) t) t)
      down
    ∙ (ap (λ j. clamp_ticks (j.thread t).ticks j t) due
        ∙ ap (λ n. clamp_ticks n (expire k₁ t) t) zero_left)
