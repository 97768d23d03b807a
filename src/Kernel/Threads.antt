-- ===== src/Kernel/Threads.antt =====
-- Thread.cpp.
use proj.Base.{
  ℕ, ◌+◌, Bool, true, false, ◌&&◌, List, [], ◌∷◌, ◌++◌, Option, none, some, ◌==◌, if◌then◌else◌,
}
use proj.Base.Int.{pos, negsuc, ◌-ℤ◌, ◌==ℤ◌}
use proj.Base.Words.{add32}
use proj.Kernel.State.{
  Kernel, Thread, ThreadState, is_waiting, ready, update, set_thread, set_state, set_ticks,
  push_ready,
}
use proj.Kernel.Mutexes.{
  Acquire, acquire_success, acquire_wait, acquire_unnecessary, acquire, release, wait_timeout,
}
use proj.Base.Int.{ℤ}

-- `Thread::findMutex` over the references that the thread holds.
unfoldable pub find_held : Kernel → (id : ℕ) → List ℕ → Option ℕ
find_held k id [] = none
find_held k id (m ∷ ms) =
    let rest = find_held k id ms in if (k.mutex m).id == id then some m else rest

unfoldable pub find_mutex_of : Kernel → (t id : ℕ) → Option ℕ
find_mutex_of k t id = find_held k id (k.thread t).held_mutex

-- `Thread::acquireMutex`, behind its test.
unfoldable pub acquire_new : Kernel → (t m : ℕ) → Acquire × Kernel → Acquire × Kernel
acquire_new k t m (acquire_success, k') =
    let th = k'.thread t in
    (acquire_success, set_thread k' t (record th { held_mutex = th.held_mutex ++ (m ∷ []) }))
acquire_new k t m (_, k') =
    (acquire_wait, set_thread k' t (record (k'.thread t) { waiting_on = some m }))

-- `Thread::acquireMutex`, by what `findMutex` returned.
unfoldable pub acquire_unless : Option ℕ → Kernel → (t m timeout : ℕ) → Acquire × Kernel
acquire_unless none k t m timeout = acquire_new k t m (acquire k m t timeout)
acquire_unless (some held) k t m timeout = (acquire_unnecessary, k)

unfoldable pub acquire_mutex : Kernel → (t m timeout : ℕ) → Acquire × Kernel
acquire_mutex k t m timeout =
    let k' = set_thread k t (record (k.thread t) { waiting_on = none }) in
    acquire_unless (find_mutex_of k' t (k'.mutex m).id) k' t m timeout

-- `Thread::decrementTicks`. The timeout of a wait for a mutex:
unfoldable pub leave_queue : Option ℕ → Kernel → ℕ → Kernel
leave_queue none k t = k
leave_queue (some m) k t = wait_timeout k m t

-- the wake-up:
unfoldable pub expire : Kernel → ℕ → Kernel
expire k t = push_ready (leave_queue (k.thread t).waiting_on (set_state k t ready) t) t

unfoldable pub expire_if_due : Kernel → ℕ → Kernel
expire_if_due k t =
    if (k.thread t).ticks ==ℤ pos 0 && is_waiting (k.thread t).state then expire k t else k

-- and the ticks of a thread that does not count, which stay at -5:
unfoldable pub clamp_ticks : ℤ → Kernel → ℕ → Kernel
clamp_ticks (pos n) k t = k
clamp_ticks (negsuc n) k t = set_ticks k t (negsuc 4)

unfoldable pub decrement_ticks : Kernel → ℕ → Kernel
decrement_ticks k t =
    let k' = expire_if_due (set_ticks k t ((k.thread t).ticks -ℤ pos 1)) t in
    clamp_ticks (k'.thread t).ticks k' t

-- `Thread::releaseMutex`: the loop over the references held; what it returns, the list left and
-- the kernel.
unfoldable pub release_held : Kernel → (id : ℕ) → List ℕ → Bool × List ℕ × Kernel
release_held k id [] = (false, [], k)
release_held k id (m ∷ ms) =
    let rest = release_held k id ms in
    if (k.mutex m).id == id then (true, ms, release k m) else (rest.0, m ∷ rest.1, rest.2)

unfoldable pub release_mutex : Kernel → (t id : ℕ) → Bool × Kernel
release_mutex k t id =
    let released = release_held k id (k.thread t).held_mutex in
    let k' = released.2 in
    (released.0, set_thread k' t (record (k'.thread t) { held_mutex = released.1 }))

-- `Thread::releaseAllMutex` releases from the back, so from the end of the list to its head.
unfoldable pub release_from_back : Kernel → List ℕ → Kernel
release_from_back k [] = k
release_from_back k (m ∷ ms) = release (release_from_back k ms) m

unfoldable pub release_all_mutex : Kernel → ℕ → Kernel
release_all_mutex k t =
    let k' = release_from_back k (k.thread t).held_mutex in
    set_thread k' t (record (k'.thread t) { held_mutex = [] })

-- The default constructor, of the main thread. It leaves `priority`, `state`, `ticks` and `cd`
-- unset: `junk` gives what stands there.
unfoldable pub new_main_thread : Kernel → Thread → ℕ × Kernel
new_main_thread k junk =
    let t = k.next_thread in
    (
      t,
      record k {
        thread =
            update k.thread t
              (record junk { id = k.next_id; stack_base = 0; held_mutex = []; waiting_on = none });
        next_thread = k.next_thread + 1;
        next_id = add32 k.next_id 1;
      },
    )

-- The other constructor.
unfoldable pub new_thread :
    Kernel → (pri : ℕ) (st : ThreadState) (sb ss entry_func p : ℕ) → ℕ × Kernel
new_thread k pri st sb ss entry_func p =
    let t = k.next_thread in
    (
      t,
      record k {
        thread = update k.thread t (record {
          priority = pri;
          state = st;
          id = k.next_id;
          ticks = negsuc 0;
          stack_base = sb;
          stack_size = ss;
          entry = entry_func;
          param = p;
          cd = negsuc 4;
          held_mutex = [];
          waiting_on = none;
        });
        next_thread = k.next_thread + 1;
        next_id = add32 k.next_id 1;
      },
    )
