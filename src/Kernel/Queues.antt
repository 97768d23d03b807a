-- ===== src/Kernel/Queues.antt =====
-- The loops that cycle a `queue<Thread *>` once (`Mutex::isInQueue`, `Mutex::waitTimeout`, and the
-- flush in `VMThreadTerminate`), against plain recursion on the queue.
use proj.Base.{
  ℕ, Bool, false, ◌||◌, List, [], ◌∷◌, ◌++◌, ◌≡◌, sym, ◌==◌, if◌then◌else◌, length, Bool-cases, inl,
  inr, arith,
}
use mathlib.Core.List.{append-nil, append_assoc}
use proj.Kernel.State.{Kernel, cycle}
use proj.Kernel.Mutexes.{is_in_queue_loop}

-- The queue without the entries that are dropped, in the same order.
abbrev pub without : (ℕ → Bool) → List ℕ → List ℕ
without drop [] = []
without drop (t ∷ ts) = if drop t then without drop ts else t ∷ without drop ts

cycle-append :
    (drop : ℕ → Bool) (xs ys : List ℕ) → cycle drop (length xs) (xs ++ ys) ≡ ys ++ without drop xs
unfolding cycle
cycle-append drop [] ys = sym (append-nil ys)
cycle-append drop (x ∷ xs) ys = elim (Bool-cases (drop x)) [
  | inl e ↦ rw e (cycle-append drop xs ys)
  | inr e ↦
      rw (e, append_assoc, cycle-append drop xs (ys ++ (x ∷ [])))
        (append_assoc ys (x ∷ []) (without drop xs))
]

-- Cycling a queue once drops what is to be dropped and keeps the rest in order.
pub cycle_lem : (drop : ℕ → Bool) (q : List ℕ) → cycle drop (length q) q ≡ without drop q
cycle_lem drop q = rw append-nil at (cycle-append drop q [])

-- Whether a thread of the queue has the id.
abbrev pub queued : Kernel → (id : ℕ) → List ℕ → Bool
queued k id [] = false
queued k id (t ∷ ts) = (k.thread t).id == id || queued k id ts

is_in_queue_loop-append :
    (k : Kernel) (id : ℕ) (found : Bool) (xs ys : List ℕ)
    → is_in_queue_loop k id (length xs) found (xs ++ ys) ≡ (found || queued k id xs, ys ++ xs)
unfolding is_in_queue_loop
is_in_queue_loop-append k id found [] ys = rw append-nil (ground arith)
is_in_queue_loop-append k id found (x ∷ xs) ys =
    rw
      (
        append_assoc,
        is_in_queue_loop-append k id (found || (k.thread x).id == id) xs (ys ++ (x ∷ [])),
        append_assoc,
      )
      (ground arith)

-- One cycle of the loop of Mutex::isInQueue finds whether a thread of the queue has the id, and
-- leaves the queue as it was.
pub is_in_queue_loop_lem :
    (k : Kernel) (id : ℕ) (q : List ℕ)
    → is_in_queue_loop k id (length q) false q ≡ (queued k id q, q)
is_in_queue_loop_lem k id q = rw append-nil at (is_in_queue_loop-append k id false q [])
