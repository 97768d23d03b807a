-- ===== src/Kernel/Exclusion/Operations.antt =====
-- The operations that change the lock table: acquiring, releasing and creating.
use proj.Base.{
  ℕ, ◌<◌, List, [], ◌∷◌, Option, none, some, ◌≡◌, ◌≢◌, refl, ◌∙◌, inl, inr, ◌==◌, Bool, not, ◌&&◌,
  Bool-cases, arith,
}
use proj.Kernel.State.{Kernel, Mutex, set_mutex, vm_timeout_immediate}
use proj.Kernel.Mutexes.{
  Acquire, acquire_success, acquire_wait, acquire_unnecessary, acquire, acquire_from, enqueue,
  enqueue_unless, release, release_to,
}
use proj.Kernel.Threads.{acquire_new, acquire_unless, acquire_mutex}
use proj.Kernel.Exclusion.Moves.{held, owner_of, take_free, IsExclusive, Move-IsExclusive}
use proj.Kernel.Exclusion.Keeps.{
  Keeps, Keeps-trans, Keeps-IsExclusive, set_thread-Keeps, stop_waiting-Keeps, enqueue-Keeps,
}

enqueue_unless-ne :
    (found : Bool) (k : Kernel) (m t timeout : ℕ)
    → (enqueue_unless found k m t timeout).0 ≢ acquire_success
unfolding enqueue_unless
enqueue_unless-ne found k m t timeout =
    elim (Bool-cases (not found && not (timeout == vm_timeout_immediate))) [
      | inl e ↦ rw e (λ h. cc)
      | inr e ↦ rw e (λ h. cc)
    ]

enqueue-ne : (k : Kernel) (m t timeout : ℕ) → (enqueue k m t timeout).0 ≢ acquire_success
unfolding enqueue
enqueue-ne k m t timeout = enqueue_unless-ne _ _ m t timeout

acquire_new-Keeps :
    (k : Kernel) (t m : ℕ) (a : Acquire) (k' : Kernel)
    → a ≢ acquire_success
    → Keeps k' (acquire_new k t m (a, k')).1
unfolding acquire_new
acquire_new-Keeps k t m acquire_success k' h = absurd (h refl)
acquire_new-Keeps k t m acquire_wait k' h = set_thread-Keeps k' t _ refl
acquire_new-Keeps k t m acquire_unnecessary k' h = set_thread-Keeps k' t _ refl

-- A free mutex is taken, and from another owner nothing is.
acquire_new-IsExclusive :
    (k : Kernel) (t m timeout : ℕ) (o : Option ℕ)
    → owner_of k m ≡ o
    → m < k.next_mutex
    → IsExclusive k
    → IsExclusive (acquire_new k t m (acquire_from o k m t timeout)).1
unfolding acquire_new acquire_from
acquire_new-IsExclusive k t m timeout none e below ex =
    Move-IsExclusive refl refl
      (take_free t m below e (ground arith) (ground arith) (λ u d. ground arith)
        (λ n d. ground arith))
      ex
acquire_new-IsExclusive k t m timeout (some o) e below ex =
    let r = enqueue k m t timeout in
    Keeps-IsExclusive
      (Keeps-trans (enqueue-Keeps k m t timeout)
        (acquire_new-Keeps k t m r.0 r.1 (enqueue-ne k m t timeout)))
      ex

acquire_unless-IsExclusive :
    (found : Option ℕ) (k : Kernel) (t m timeout : ℕ)
    → m < k.next_mutex
    → IsExclusive k
    → IsExclusive (acquire_unless found k t m timeout).1
unfolding acquire_unless acquire
acquire_unless-IsExclusive none k t m timeout below ex =
    acquire_new-IsExclusive k t m timeout _ refl below ex
acquire_unless-IsExclusive (some h) k t m timeout below ex = ex

pub acquire_mutex-IsExclusive :
    (k : Kernel) (t m timeout : ℕ)
    → m < k.next_mutex
    → IsExclusive k
    → IsExclusive (acquire_mutex k t m timeout).1
unfolding acquire_mutex
acquire_mutex-IsExclusive k t m timeout below ex =
    acquire_unless-IsExclusive _ _ t m timeout below
      (Keeps-IsExclusive (set_thread-Keeps k t (record (k.thread t) { waiting_on = none }) refl) ex)

-- `Mutex::release` changes the owner of that mutex at most.
pub record ReleasesOnly (k : Kernel) (m : ℕ) (k' : Kernel) : Type 0 where
  pub holds : (u : ℕ) → held k' u ≡ held k u
  pub others : (n : ℕ) → n ≢ m → owner_of k' n ≡ owner_of k n
  pub next : k'.next_mutex ≡ k.next_mutex
  pub listed : k'.mutexes ≡ k.mutexes

set_mutex-ReleasesOnly : (k : Kernel) (m : ℕ) (mtx : Mutex) → ReleasesOnly k m (set_mutex k m mtx)
set_mutex-ReleasesOnly k m mtx = record {
  holds = λ u. refl;
  others = λ n d. ground arith;
  next = refl;
  listed = refl;
}

ReleasesOnly-Keeps :
    {k k' k'' : Kernel} {m : ℕ} → ReleasesOnly k m k' → Keeps k' k'' → ReleasesOnly k m k''
ReleasesOnly-Keeps r s = record {
  holds = λ u. s.holds u ∙ r.holds u;
  others = λ n d. s.owners n ∙ r.others n d;
  next = s.next ∙ r.next;
  listed = s.listed ∙ r.listed;
}

release_to-ReleasesOnly : (q : List ℕ) (k : Kernel) (m : ℕ) → ReleasesOnly k m (release_to q k m)
unfolding release_to
release_to-ReleasesOnly [] k m = set_mutex-ReleasesOnly k m _
release_to-ReleasesOnly (t ∷ q) k m =
    ReleasesOnly-Keeps (set_mutex-ReleasesOnly k m _) (stop_waiting-Keeps _ t)

pub release-ReleasesOnly : (k : Kernel) (m : ℕ) → ReleasesOnly k m (release k m)
unfolding release
release-ReleasesOnly k m = release_to-ReleasesOnly _ k m
