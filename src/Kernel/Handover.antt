-- ===== src/Kernel/Handover.antt =====
-- `Mutex::release` with a waiter (Mutex.cpp): the mutex is handed over, but the new owner's list of
-- held mutexes (Thread.cpp) does not get it.
use proj.Base.{
  ℕ, List, [], ◌∷◌, none, some, ◌≡◌, ◌≢◌, refl, ap, ◌∙◌, inl, inr, Bool-cases, ◌==◌, ==_refl,
  if◌then◌else◌, arith,
}
use mathlib.Core.Path.{ap₂}
use mathlib.Core.Option.{some-injective}
use proj.Kernel.State.{Kernel, Mutex, set_mutex}
use proj.Kernel.Mutexes.{stop_waiting, release, release_to}
use proj.Kernel.Threads.{find_held, find_mutex_of, release_held, release_mutex}
use proj.Kernel.Exclusion.Moves.{held, owner_of}
use proj.Kernel.Exclusion.Operations.{release-ReleasesOnly}

-- The mutexes keep their ids.
stop_waiting-id : (k : Kernel) (t n : ℕ) → ((stop_waiting k t).mutex n) ≡ k.mutex n
unfolding stop_waiting
stop_waiting-id k t n = refl

release_to-id :
    (q : List ℕ) (k : Kernel) (m n : ℕ) → ((release_to q k m).mutex n).id ≡ (k.mutex n).id
unfolding release_to stop_waiting
release_to-id [] k m n = ground arith
release_to-id (t ∷ q) k m n = ground arith

pub release-id : (k : Kernel) (m n : ℕ) → ((release k m).mutex n).id ≡ (k.mutex n).id
unfolding release
release-id k m n = release_to-id _ k m n

find_held-same :
    (k k' : Kernel) (id : ℕ) (ms : List ℕ)
    → ((n : ℕ) → (k'.mutex n).id ≡ (k.mutex n).id)
    → find_held k' id ms ≡ find_held k id ms
unfolding find_held
find_held-same k k' id [] same = refl
find_held-same k k' id (m ∷ ms) same =
    ap₂ (λ i rest. if i == id then some m else rest) (same m) (find_held-same k k' id ms same)

release_held-find :
    (k : Kernel) (id : ℕ) (ms : List ℕ) {m : ℕ}
    → find_held k id ms ≡ some m
    → (release_held k id ms).2 ≡ release k m
unfolding find_held release_held
release_held-find k id [] e = cc
release_held-find k id (x ∷ ms) e = elim (Bool-cases ((k.mutex x).id == id)) [
  | inl hit ↦ rw hit (ap (release k) (some-injective _ _ (rw hit at e)))
  | inr miss ↦ rw miss (release_held-find k id ms (rw miss at e))
]

mutex-set_mutex : (k : Kernel) (m : ℕ) (mtx : Mutex) → (set_mutex k m mtx).mutex m ≡ mtx
mutex-set_mutex k m mtx = rw (==_refl m)

release_to-owner :
    (k : Kernel) (m t : ℕ) (q : List ℕ) → owner_of (release_to (t ∷ q) k m) m ≡ some t
unfolding release_to
release_to-owner k m t q =
    let mtx = record (k.mutex m) { owner = some t; qtex = q } in
    ap (λ x. x.owner) (stop_waiting-id (set_mutex k m mtx) t m ∙ mutex-set_mutex k m mtx)

release-owner :
    (k : Kernel) (m t : ℕ) (q : List ℕ)
    → (k.mutex m).qtex ≡ t ∷ q
    → owner_of (release k m) m ≡ some t
unfolding release
release-owner k m t q e = ap (λ l. owner_of (release_to l k m) m) e ∙ release_to-owner k m t q

-- A thread that waits first in the queue of a mutex becomes its owner when another thread releases
-- it, and when it runs, finds no mutex with that id among those that it holds, if it found none before.
pub release_mutex-handover :
    (k : Kernel) (s t id m : ℕ) (q : List ℕ)
    → find_mutex_of k s id ≡ some m
    → (k.mutex m).qtex ≡ t ∷ q
    → t ≢ s
    → find_mutex_of k t id ≡ none
    → let k' = record (release_mutex k s id).1 { tr = t } in
      (owner_of k' m ≡ some t) × (find_mutex_of k' t id ≡ none)
unfolding release_mutex find_mutex_of
release_mutex-handover k s t id m q found waits other lacks =
    let r = release_held k id (held k s) in
    let released : r.2 ≡ release k m = release_held-find k id (held k s) found in
    let k' = record (release_mutex k s id).1 { tr = t } in
    let same_held : held k' t ≡ held k t =
      ground (arith, other) ∙ (ap (λ j. held j t) released ∙ (release-ReleasesOnly k m).holds t) in
    let same_ids = λ (n : ℕ). ap (λ j. (j.mutex n).id) released ∙ release-id k m n in
    (
      ap (λ j. owner_of j m) released ∙ release-owner k m t q waits,
      find_held-same k k' id (held k' t) same_ids ∙ (ap (find_held k id) same_held ∙ lacks),
    )
