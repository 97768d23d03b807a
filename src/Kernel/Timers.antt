-- ===== src/Kernel/Timers.antt =====
-- `Thread::decrementTicks` (Thread.cpp): how long a thread sleeps.
pub mod Expiry
pub mod Sleep
use proj.Base.{
  ℕ, zero, suc, ◌+◌, ◌-◌, ◌≤◌, ◌<◌, List, [], ◌∷◌, ◌++◌, Option, none, some, ◌≡◌, ◌≢◌, refl, sym,
  ap, subst, ◌∙◌, Bool, true, false, ◌&&◌, Bool-cases, ◌==◌, ==_refl, if◌then◌else◌, arith,
}
use proj.Base.Int.{ℤ, pos, negsuc, ◌==ℤ◌, ◌-ℤ◌}
use proj.Kernel.State.{
  Kernel, Thread, ready, waiting, is_waiting, set_ticks, set_state, set_thread, push_ready, update,
}
use proj.Kernel.Threads.{leave_queue, expire, expire_if_due, clamp_ticks, decrement_ticks}

pub thread-set_thread : (k : Kernel) (t : ℕ) (th : Thread) → (set_thread k t th).thread t ≡ th
thread-set_thread k t th = rw (==_refl t)

-- The ticks after one more tick, and the thread with them.
abbrev left_of : Kernel → ℕ → ℤ
left_of k t = (k.thread t).ticks -ℤ pos 1

abbrev ticked : Kernel → ℕ → Kernel
ticked k t = set_ticks k t (left_of k t)

ticks-ticked : (k : Kernel) (t : ℕ) → ((ticked k t).thread t).ticks ≡ left_of k t
ticks-ticked k t =
    ap (λ th. th.ticks) (thread-set_thread k t (record (k.thread t) { ticks = left_of k t }))

expire_if_due-ne :
    (k : Kernel) (t : ℕ) (n : ℤ)
    → (k.thread t).ticks ≡ n
    → (n ==ℤ pos 0) ≡ false
    → expire_if_due k t ≡ k
unfolding expire_if_due
expire_if_due-ne k t n e h = rw (e, h)

decrement_ticks-ne :
    (k : Kernel) (t : ℕ)
    → (left_of k t ==ℤ pos 0) ≡ false
    → decrement_ticks k t ≡ clamp_ticks (left_of k t) (ticked k t) t
unfolding decrement_ticks
decrement_ticks-ne k t n =
    subst (λ j. clamp_ticks (j.thread t).ticks j t ≡ clamp_ticks (left_of k t) (ticked k t) t)
      (sym (expire_if_due-ne (ticked k t) t (left_of k t) (ticks-ticked k t) n))
      (ap (λ n. clamp_ticks n (ticked k t) t) (ticks-ticked k t))

-- A tick of a thread that has more than one left takes one away.
pub decrement_ticks-counting :
    (k : Kernel) (t m : ℕ)
    → (k.thread t).ticks ≡ pos (suc (suc m))
    → decrement_ticks k t ≡ set_ticks k t (pos (suc m))
unfolding clamp_ticks
decrement_ticks-counting k t m e =
    let down : left_of k t ≡ pos (suc m) = rw e (ground arith) in
    decrement_ticks-ne k t (rw down (ground arith))
    ∙ ap (λ n. clamp_ticks n (set_ticks k t n) t) down

-- A tick of a thread that counts none leaves it at -5, whatever its state.
pub decrement_ticks-idle :
    (k : Kernel) (t : ℕ)
    → (left_of k t ==ℤ pos 0) ≡ false
    → (m : ℕ) → left_of k t ≡ negsuc m
    → decrement_ticks k t ≡ set_ticks (ticked k t) t (negsuc 4)
unfolding clamp_ticks
decrement_ticks-idle k t n m e = decrement_ticks-ne k t n ∙ ap (λ n. clamp_ticks n (ticked k t) t) e
