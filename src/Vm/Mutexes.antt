-- ===== src/Vm/Mutexes.antt =====
-- The mutex calls of VirtualMachine.cpp.
pub mod Handover
use proj.Base.{ℕ, List, [], ◌∷◌, ◌++◌, Option, none, some, ◌==◌, if◌then◌else◌}
use proj.Base.Int.{signed32}
use proj.Base.Words.{null}
use proj.Kernel.State.{Kernel, waiting, vm_timeout_immediate, set_state, set_ticks}
use proj.Kernel.Mutexes.{Acquire, acquire_success, new_mutex}
use proj.Kernel.Threads.{acquire_mutex, find_mutex_of, release_mutex}
use proj.Kernel.Scheduler.{scheduler}
use proj.Vm.State.{
  Vm, Outcome, returned, undefined, success, failure, invalid_parameter, invalid_id, invalid_state,
  suspend, resume, switch_to, with_kernel,
}

-- The function `findMutex` over the vector `mutexes`.
unfoldable pub find_mutex : Kernel → (id : ℕ) → List ℕ → Option ℕ
find_mutex k id [] = none
find_mutex k id (m ∷ ms) =
    let rest = find_mutex k id ms in if (k.mutex m).id == id then some m else rest

unfoldable pub vm_mutex_create : Vm → (mutexref : ℕ) → Outcome
vm_mutex_create v₀ mutexref =
    let v = suspend v₀ in
    let (m, k) = new_mutex v.kernel in
    if mutexref == null
    then returned invalid_parameter none (resume v)
    else returned success (some (k.mutex m).id)
        (resume (with_kernel v (record k { mutexes = k.mutexes ++ (m ∷ []) })))

-- What `VMMutexAcquire` does last, also when its thread runs again after a wait.
unfoldable pub acquired : Vm → (mutex : ℕ) → Outcome
acquired v mutex = elim (find_mutex_of v.kernel v.kernel.tr mutex) [
  | none ↦ returned failure none (resume v)
  | some m ↦ returned success none (resume v)
]

-- With VM_TIMEOUT_IMMEDIATE every result but success is a failure.
unfoldable pub immediately : Vm → Acquire × Kernel → Outcome
immediately v (acquire_success, k) = returned success none (resume (with_kernel v k))
immediately v (_, k) = returned failure none (resume (with_kernel v k))

unfoldable pub or_wait : Vm → (mutex timeout : ℕ) → Acquire × Kernel → Outcome
unfolding acquired
or_wait v mutex timeout (acquire_success, k) = acquired (with_kernel v k) mutex
or_wait v mutex timeout (_, k) =
    switch_to v (scheduler (set_state (set_ticks k k.tr (signed32 timeout)) k.tr waiting))

unfoldable pub vm_mutex_acquire : Vm → (mutex timeout : ℕ) → Outcome
unfolding find_mutex immediately or_wait
vm_mutex_acquire v₀ mutex timeout =
    let v = suspend v₀ in
    elim (find_mutex v.kernel mutex v.kernel.mutexes) [
      | none ↦ returned invalid_id none (resume v)
      | some m ↦
          if timeout == vm_timeout_immediate
          then immediately v (acquire_mutex v.kernel v.kernel.tr m timeout)
          else or_wait v mutex timeout (acquire_mutex v.kernel v.kernel.tr m timeout)
    ]

-- The loop of `VMMutexDelete` has no `break`: the last mutex with the id.
unfoldable pub last_mutex : Kernel → (id : ℕ) → Option ℕ → List ℕ → Option ℕ
last_mutex k id found [] = found
last_mutex k id found (m ∷ ms) = last_mutex k id (if (k.mutex m).id == id then some m else found) ms

unfoldable pub erase_ref : ℕ → List ℕ → List ℕ
erase_ref r [] = []
erase_ref r (m ∷ ms) = let rest = erase_ref r ms in if m == r then ms else m ∷ rest

-- Where no mutex has the id, the iterator that is compared with `end()` was never set.
unfoldable pub vm_mutex_delete : Vm → (mutex : ℕ) → Outcome
unfolding last_mutex erase_ref
vm_mutex_delete v₀ mutex =
    let v = suspend v₀ in
    let k = v.kernel in
    elim (last_mutex k mutex none k.mutexes) [
      | none ↦ undefined
      | some m ↦ elim (k.mutex m).owner [
        | some o ↦ returned invalid_state none (resume v)
        | none ↦
            returned success none
              (resume (with_kernel v (record k { mutexes = erase_ref m k.mutexes })))
      ]
    ]

-- The owner's reference is assigned to the parameter itself, so nothing is stored for the caller.
-- A method called on a NULL owner is undefined.
unfoldable pub vm_mutex_query : Vm → (mutex ownerref : ℕ) → Outcome
unfolding find_mutex
vm_mutex_query v₀ mutex ownerref =
    let v = suspend v₀ in
    let k = v.kernel in
    if ownerref == null
    then returned invalid_parameter none (resume v)
    else elim (find_mutex k mutex k.mutexes) [
      | none ↦ returned invalid_id none (resume v)
      | some m ↦ elim (k.mutex m).owner [
        | none ↦ undefined
        | some o ↦ returned success none (resume v)
      ]
    ]

-- After the switch `VMMutexRelease` only resumes the signals and returns success.
unfoldable pub vm_mutex_release : Vm → (mutex : ℕ) → Outcome
unfolding find_mutex
vm_mutex_release v₀ mutex =
    let v = suspend v₀ in
    let k = v.kernel in
    elim (find_mutex k mutex k.mutexes) [
      | none ↦ returned invalid_id none (resume v)
      | some m ↦ elim (find_mutex_of k k.tr mutex) [
        | none ↦ returned invalid_state none (resume v)
        | some held ↦ switch_to v (scheduler (release_mutex k k.tr mutex).1)
      ]
    ]
