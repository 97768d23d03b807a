-- ===== src/Kernel/Mutexes.antt =====
-- Mutex.cpp, and `Thread::stopWaiting`, which it calls.
use proj.Base.{
  ℕ, ◌+◌, Bool, false, not, ◌&&◌, ◌||◌, List, [], ◌∷◌, ◌++◌, none, some, ◌==◌, if◌then◌else◌,
  length,
}
use proj.Kernel.State.{
  Kernel, ready, vm_timeout_immediate, set_thread, set_mutex, push_ready, cycle,
}
use proj.Base.Words.{add32}
use proj.Kernel.State.{update}
use proj.Base.Words.{add32}
use proj.Base.{Option}

-- ACQUIRE_SUCCESS, ACQUIRE_WAIT and ACQUIRE_UNNECESSARY.
pub data Acquire : Type 0 where
  acquire_success acquire_wait acquire_unnecessary : Acquire

unfoldable pub stop_waiting : Kernel → ℕ → Kernel
stop_waiting k t =
    push_ready (set_thread k t (record (k.thread t) { waiting_on = none; state = ready })) t

-- The loop of `Mutex::isInQueue`: what was found, and the queue, which has come round once.
unfoldable pub is_in_queue_loop : Kernel → (id rounds : ℕ) → Bool → List ℕ → Bool × List ℕ
is_in_queue_loop k id ℕ.zero found q = (found, q)
is_in_queue_loop k id (ℕ.suc n) found [] = (found, [])
is_in_queue_loop k id (ℕ.suc n) found (t ∷ q) =
    is_in_queue_loop k id n (found || (k.thread t).id == id) (q ++ (t ∷ []))

unfoldable pub is_in_queue : Kernel → (m id : ℕ) → Bool × Kernel
is_in_queue k m id =
    let q = (k.mutex m).qtex in
    let cycled = is_in_queue_loop k id (length q) false q in
    (cycled.0, set_mutex k m (record (k.mutex m) { qtex = cycled.1 }))

-- `Mutex::acquire` where the mutex has an owner, behind the search of the queue.
unfoldable pub enqueue_unless : Bool → Kernel → (m thrd timeout : ℕ) → Acquire × Kernel
enqueue_unless found k m thrd timeout =
    let mtx = k.mutex m in
    if not found && not (timeout == vm_timeout_immediate)
    then (acquire_wait, set_mutex k m (record mtx { qtex = mtx.qtex ++ (thrd ∷ []) }))
    else (acquire_unnecessary, k)

unfoldable pub enqueue : Kernel → (m thrd timeout : ℕ) → Acquire × Kernel
enqueue k m thrd timeout =
    let (found, k') = is_in_queue k m (k.thread thrd).id in enqueue_unless found k' m thrd timeout

-- `Mutex::acquire`, by its owner.
unfoldable pub acquire_from : Option ℕ → Kernel → (m thrd timeout : ℕ) → Acquire × Kernel
acquire_from none k m thrd timeout =
    (acquire_success, set_mutex k m (record (k.mutex m) { owner = some thrd }))
acquire_from (some o) k m thrd timeout = enqueue k m thrd timeout

unfoldable pub acquire : Kernel → (m thrd timeout : ℕ) → Acquire × Kernel
acquire k m thrd timeout = acquire_from (k.mutex m).owner k m thrd timeout

-- `Mutex::release`, by its queue: the first waiter becomes the owner and is woken.
unfoldable pub release_to : List ℕ → Kernel → ℕ → Kernel
release_to [] k m = set_mutex k m (record (k.mutex m) { owner = none })
release_to (t ∷ q) k m =
    stop_waiting (set_mutex k m (record (k.mutex m) { owner = some t; qtex = q })) t

unfoldable pub release : Kernel → ℕ → Kernel
release k m = release_to (k.mutex m).qtex k m

-- `Mutex::waitTimeout`.
unfoldable pub wait_timeout : Kernel → (m thrd : ℕ) → Kernel
wait_timeout k m thrd =
    let q = (k.mutex m).qtex in
    let flushed = cycle (λ t. t == thrd) (length q) q in
    stop_waiting (set_mutex k m (record (k.mutex m) { qtex = flushed })) thrd

-- `new Mutex`, with the reference that it returns.
unfoldable pub new_mutex : Kernel → ℕ × Kernel
new_mutex k =
    let m = k.next_mutex in
    (
      m,
      record k {
        mutex = update k.mutex m (record { id = k.id_counter; qtex = []; owner = none });
        next_mutex = k.next_mutex + 1;
        id_counter = add32 k.id_counter 1;
      },
    )
