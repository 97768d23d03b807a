-- ===== src/Vm/Exclusion/MutexCalls.antt =====
-- The mutex calls of VirtualMachine.cpp keep the lock table exclusive.
use proj.Base.{
  ℕ, ◌<◌, ◌+◌, List, [], ◌∷◌, ◌++◌, All, none, some, ◌≡◌, inl, inr, ◌==◌, Bool-cases, Option-cases,
  arith,
}
use mathlib.Core.Option.{some-injective}
use proj.Base.Words.{null}
use proj.Kernel.State.{Kernel, vm_timeout_immediate}
use proj.Kernel.Mutexes.{Acquire, acquire_success, acquire_wait, acquire_unnecessary, new_mutex}
use proj.Kernel.Threads.{acquire_mutex, find_mutex_of}
use proj.Kernel.Exclusion.Moves.{owner_of, IsExclusive}
use proj.Kernel.Exclusion.Operations.{acquire_mutex-IsExclusive}
use proj.Kernel.Exclusion.Release.{release_mutex-IsExclusive, new_mutex-IsExclusive}
use proj.Vm.State.{Vm, suspend, with_kernel}
use proj.Vm.Mutexes.{
  find_mutex, vm_mutex_create, acquired, immediately, or_wait, vm_mutex_acquire, last_mutex,
  erase_ref, vm_mutex_delete, vm_mutex_query, vm_mutex_release,
}
use proj.Vm.Exclusion.Leads.{Leads, switch_to-Leads, wait-IsExclusive}

find_mutex-lt :
    (k : Kernel) (n id : ℕ) (ms : List ℕ) {m : ℕ}
    → All (λ x. x < n) ms
    → find_mutex k id ms ≡ some m
    → m < n
unfolding find_mutex
find_mutex-lt k n id [] h e = cc
find_mutex-lt k n id (x ∷ ms) h e = elim (Bool-cases ((k.mutex x).id == id)) [
  | inl hit ↦ omega (arith, some-injective _ _ (rw hit at e))
  | inr miss ↦ find_mutex-lt k n id ms h.1 (rw miss at e)
]

pub immediately-Leads :
    (v : Vm) (a : Acquire) (k : Kernel) → IsExclusive k → Leads (immediately v (a, k))
unfolding immediately
immediately-Leads v acquire_success k ex = ex
immediately-Leads v acquire_wait k ex = ex
immediately-Leads v acquire_unnecessary k ex = ex

pub acquired-Leads : (v : Vm) (mutex : ℕ) → IsExclusive v.kernel → Leads (acquired v mutex)
unfolding acquired
acquired-Leads v mutex ex = elim (Option-cases (find_mutex_of v.kernel v.kernel.tr mutex)) [
  | inl e ↦ rw (e, Leads) ex
  | inr (m, e) ↦ rw (e, Leads) ex
]

pub or_wait-Leads :
    (v : Vm) (mutex timeout : ℕ) (a : Acquire) (k : Kernel)
    → IsExclusive k
    → Leads (or_wait v mutex timeout (a, k))
unfolding or_wait
or_wait-Leads v mutex timeout acquire_success k ex = acquired-Leads (with_kernel v k) mutex ex
or_wait-Leads v mutex timeout acquire_wait k ex = switch_to-Leads v _ (wait-IsExclusive k _ ex)
or_wait-Leads v mutex timeout acquire_unnecessary k ex =
    switch_to-Leads v _ (wait-IsExclusive k _ ex)

pub mutex_acquire-Leads :
    (v : Vm) (mutex timeout : ℕ) → IsExclusive v.kernel → Leads (vm_mutex_acquire v mutex timeout)
unfolding vm_mutex_acquire
mutex_acquire-Leads v₀ mutex timeout ex =
    elim (Option-cases (find_mutex v₀.kernel mutex v₀.kernel.mutexes)) [
      | inl e ↦ rw (e, Leads) ex
      | inr (m, e) ↦
          let k = v₀.kernel in
          let below = find_mutex-lt k k.next_mutex mutex k.mutexes ex.known e in
          let r = acquire_mutex k k.tr m timeout in
          let ex' = acquire_mutex-IsExclusive k k.tr m timeout below ex in
          rw (e, Leads)
            (elim (Bool-cases (timeout == vm_timeout_immediate)) [
              | inl i ↦ rw (i, Leads) (immediately-Leads (suspend v₀) r.0 r.1 ex')
              | inr i ↦ rw (i, Leads) (or_wait-Leads (suspend v₀) mutex timeout r.0 r.1 ex')
            ])
    ]

All-snoc : (m : ℕ) (ms : List ℕ) → All (λ x. x < m + 1) ms → All (λ x. x < m + 1) (ms ++ (m ∷ []))
All-snoc m [] h = (omega arith, tt)
All-snoc m (x ∷ ms) h = (h.0, All-snoc m ms h.1)

pub mutex_create-Leads : (v : Vm) (ref : ℕ) → IsExclusive v.kernel → Leads (vm_mutex_create v ref)
unfolding vm_mutex_create new_mutex
mutex_create-Leads v ref ex = elim (Bool-cases (ref == null)) [
  | inl e ↦ rw (e, Leads) ex
  | inr e ↦
      let ex' = new_mutex-IsExclusive v.kernel ex in
      rw (e, Leads)
        (record {
          owned = ex'.owned;
          once = ex'.once;
          allocated = ex'.allocated;
          known = All-snoc v.kernel.next_mutex v.kernel.mutexes ex'.known;
        })
]

All-erase_ref : (n r : ℕ) (ms : List ℕ) → All (λ x. x < n) ms → All (λ x. x < n) (erase_ref r ms)
unfolding erase_ref
All-erase_ref n r [] h = tt
All-erase_ref n r (m ∷ ms) h = elim (Bool-cases (m == r)) [
  | inl e ↦ rw e h.1
  | inr e ↦ rw e (h.0, All-erase_ref n r ms h.1)
]

pub mutex_delete-Leads :
    (v : Vm) (mutex : ℕ) → IsExclusive v.kernel → Leads (vm_mutex_delete v mutex)
unfolding vm_mutex_delete
mutex_delete-Leads v mutex ex =
    let k = v.kernel in
    elim (Option-cases (last_mutex k mutex none k.mutexes)) [
      | inl e ↦ rw (e, Leads) tt
      | inr (m, e) ↦
          rw (e, Leads)
            (elim (Option-cases (owner_of k m)) [
              | inl free ↦
                  rw (free, Leads)
                    (record {
                      owned = ex.owned;
                      once = ex.once;
                      allocated = ex.allocated;
                      known = All-erase_ref k.next_mutex m k.mutexes ex.known;
                    })
              | inr (o, taken) ↦ rw (taken, Leads) ex
            ])
    ]

pub mutex_query-Leads :
    (v : Vm) (mutex ref : ℕ) → IsExclusive v.kernel → Leads (vm_mutex_query v mutex ref)
unfolding vm_mutex_query
mutex_query-Leads v mutex ref ex =
    let k = v.kernel in
    elim (Bool-cases (ref == null)) [
      | inl e ↦ rw (e, Leads) ex
      | inr e ↦
          rw (e, Leads)
            (elim (Option-cases (find_mutex k mutex k.mutexes)) [
              | inl e₁ ↦ rw (e₁, Leads) ex
              | inr (m, e₁) ↦
                  rw (e₁, Leads)
                    (elim (Option-cases (owner_of k m)) [
                      | inl e₂ ↦ rw (e₂, Leads) tt
                      | inr (o, e₂) ↦ rw (e₂, Leads) ex
                    ])
            ])
    ]

pub mutex_release-Leads :
    (v : Vm) (mutex : ℕ) → IsExclusive v.kernel → Leads (vm_mutex_release v mutex)
unfolding vm_mutex_release
mutex_release-Leads v₀ mutex ex =
    let k = v₀.kernel in
    elim (Option-cases (find_mutex k mutex k.mutexes)) [
      | inl e ↦ rw (e, Leads) ex
      | inr (m, e) ↦
          rw (e, Leads)
            (elim (Option-cases (find_mutex_of k k.tr mutex)) [
              | inl e₁ ↦ rw (e₁, Leads) ex
              | inr (h, e₁) ↦
                  rw (e₁, Leads)
                    (switch_to-Leads (suspend v₀) _ (release_mutex-IsExclusive k k.tr mutex ex))
            ])
    ]
