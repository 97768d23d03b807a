-- ===== src/Kernel/State.antt =====
-- Thread.h, Mutex.h and the global variables of VirtualMachine.cpp on threads and mutexes.
--
-- A `Thread *` or `Mutex *` is the number of the allocation that made the object, and the heap
-- gives the object for each such reference; NULL is `none`.
use proj.Base.{ℕ, Bool, true, false, List, [], ◌∷◌, ◌++◌, Option, ◌==◌, if◌then◌else◌}
use proj.Base.Int.{ℤ}

pub data ThreadState : Type 0 where
  dead running ready waiting : ThreadState

abbrev pub is_dead : ThreadState → Bool
is_dead dead = true
is_dead _ = false

abbrev pub is_running : ThreadState → Bool
is_running running = true
is_running _ = false

abbrev pub is_waiting : ThreadState → Bool
is_waiting waiting = true
is_waiting _ = false

-- VM_TIMEOUT_INFINITE, VM_TIMEOUT_IMMEDIATE and the priorities.
abbrev pub vm_timeout_infinite : ℕ
vm_timeout_infinite = 0

abbrev pub vm_timeout_immediate : ℕ
vm_timeout_immediate = 4294967295

abbrev pub priority_nil : ℕ
priority_nil = 0

abbrev pub priority_low : ℕ
priority_low = 1

abbrev pub priority_normal : ℕ
priority_normal = 2

abbrev pub priority_high : ℕ
priority_high = 3

pub record Thread : Type 0 where
  pub priority : ℕ
  pub state : ThreadState
  pub id : ℕ
  pub ticks : ℤ
  pub stack_base : ℕ
  pub stack_size : ℕ
  pub entry : ℕ
  pub param : ℕ
  pub cd : ℤ
  pub held_mutex : List ℕ
  pub waiting_on : Option ℕ

pub record Mutex : Type 0 where
  pub id : ℕ
  pub qtex : List ℕ
  pub owner : Option ℕ

-- `next_thread` and `next_mutex` number the allocations; `next_id` and `id_counter` are the static
-- members `Thread::nextID` and `Mutex::idCounter`.
pub record Kernel : Type 0 where
  pub thread : ℕ → Thread
  pub mutex : ℕ → Mutex
  pub next_thread : ℕ
  pub next_mutex : ℕ
  pub next_id : ℕ
  pub id_counter : ℕ
  pub threads : List ℕ
  pub mutexes : List ℕ
  pub ready_q : ℕ → List ℕ
  pub tr : ℕ

abbrev pub update {ℓ} : {A : Type ℓ} → (ℕ → A) → ℕ → A → ℕ → A
update f p v q = if p == q then v else f q

abbrev pub set_thread : Kernel → ℕ → Thread → Kernel
set_thread k t th = record k { thread = update k.thread t th }

abbrev pub set_mutex : Kernel → ℕ → Mutex → Kernel
set_mutex k m mtx = record k { mutex = update k.mutex m mtx }

-- Thread::setState and Thread::setcd.
abbrev pub set_state : Kernel → ℕ → ThreadState → Kernel
set_state k t st = set_thread k t (record (k.thread t) { state = st })

abbrev pub setcd : Kernel → ℕ → ℤ → Kernel
setcd k t calldata = set_thread k t (record (k.thread t) { cd = calldata })

abbrev pub set_ticks : Kernel → ℕ → ℤ → Kernel
set_ticks k t newticks = set_thread k t (record (k.thread t) { ticks = newticks })

-- `readyQ[priority]->push(t)` for the priority of the thread.
abbrev pub push_ready : Kernel → ℕ → Kernel
push_ready k t =
    let pri = (k.thread t).priority in
    record k { ready_q = update k.ready_q pri (k.ready_q pri ++ (t ∷ [])) }

-- A queue is cycled: each round takes the front and puts it back unless it is dropped.
unfoldable pub cycle : (drop : ℕ → Bool) (rounds : ℕ) → List ℕ → List ℕ
cycle drop ℕ.zero q = q
cycle drop (ℕ.suc n) [] = []
cycle drop (ℕ.suc n) (t ∷ q) = cycle drop n (if drop t then q else q ++ (t ∷ []))
