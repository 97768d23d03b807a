-- ===== src/Kernel/Exclusion/Release.antt =====
-- Releasing one mutex or all of a thread's, and making threads and mutexes.
use proj.Base.{
  ℕ, ◌+◌, ◌<◌, List, [], ◌∷◌, ◌≡◌, refl, sym, subst, ◌∙◌, inl, inr, ◌==◌, Bool-cases, arith,
}
use proj.Kernel.State.{Kernel, ThreadState, set_thread}
use proj.Kernel.Mutexes.{new_mutex}
use proj.Kernel.Threads.{
  release_held, release_mutex, release_from_back, release_all_mutex, new_thread,
}
use proj.Kernel.Exclusion.Lists.{In, Distinct}
use proj.Kernel.Exclusion.Moves.{held, owner_of, give, IsExclusive, Move-IsExclusive}
use proj.Kernel.Exclusion.Operations.{release-ReleasesOnly}
use proj.Base.{All}

-- What the loop of `releaseMutex` does: `ys` are the references that it leaves.
record ReleasesHeld (k : Kernel) (xs ys : List ℕ) (k' : Kernel) : Type 0 where
  holds : (u : ℕ) → held k' u ≡ held k u
  fewer : (m : ℕ) → In m ys → In m xs
  once : Distinct xs → Distinct ys
  away : (m : ℕ) → ¬ In m xs → owner_of k' m ≡ owner_of k m
  left : Distinct xs → (m : ℕ) → In m ys → owner_of k' m ≡ owner_of k m
  next : k'.next_mutex ≡ k.next_mutex
  listed : k'.mutexes ≡ k.mutexes

release_held-cons :
    (k : Kernel) (m : ℕ) (ms ys : List ℕ) (k' : Kernel)
    → ReleasesHeld k ms ys k'
    → ReleasesHeld k (m ∷ ms) (m ∷ ys) k'
release_held-cons k m ms ys k' r = record {
  holds = r.holds;
  fewer = λ n i. elim i [ inl e ↦ inl e | inr j ↦ inr (r.fewer n j) ];
  once = λ d. (λ i. d.0 (r.fewer m i), r.once d.1);
  away = λ n a. r.away n (λ i. a (inr i));
  left = λ d n i. elim i [
    | inl e ↦ r.away n (λ j. d.0 (subst (λ w. In w ms) (sym e) j))
    | inr j ↦ r.left d.1 n j
  ];
  next = r.next;
  listed = r.listed;
}

release_held-ReleasesHeld :
    (k : Kernel) (id : ℕ) (xs : List ℕ)
    → ReleasesHeld k xs (release_held k id xs).1 (release_held k id xs).2
unfolding release_held
release_held-ReleasesHeld k id [] = record {
  holds = λ u. refl;
  fewer = λ m i. i;
  once = λ d. d;
  away = λ m a. refl;
  left = λ d m i. refl;
  next = refl;
  listed = refl;
}
release_held-ReleasesHeld k id (m ∷ ms) = elim (Bool-cases ((k.mutex m).id == id)) [
  | inl e ↦ rw e (
      let r = release-ReleasesOnly k m in
      record {
        holds = r.holds;
        fewer = λ n i. inr i;
        once = λ d. d.1;
        away = λ n a. r.others n (λ same. a (inl (sym same)));
        left = λ d n i. r.others n (λ same. d.0 (subst (λ w. In w ms) same i));
        next = r.next;
        listed = r.listed;
      })
  | inr e ↦ rw e (release_held-cons k m ms _ _ (release_held-ReleasesHeld k id ms))
]

pub release_mutex-IsExclusive :
    (k : Kernel) (t id : ℕ) → IsExclusive k → IsExclusive (release_mutex k t id).1
unfolding release_mutex
release_mutex-IsExclusive k t id ex =
    let r = release_held-ReleasesHeld k id (held k t) in
    let k' = (release_held k id (held k t)).2 in
    let ys = (release_held k id (held k t)).1 in
    let mine : held (set_thread k' t (record (k'.thread t) { held_mutex = ys })) t ≡ ys =
      ground arith in
    Move-IsExclusive r.next r.listed
      (give t (λ u d. ground (arith, r.holds u)) (λ m i. r.fewer m (subst (In m) mine i))
        (λ d. subst Distinct (sym mine) (r.once d)) r.away
        (λ d m i. r.left d m (subst (In m) mine i)))
      ex

record ReleasesAll (k : Kernel) (xs : List ℕ) (k' : Kernel) : Type 0 where
  holds : (u : ℕ) → held k' u ≡ held k u
  away : (m : ℕ) → ¬ In m xs → owner_of k' m ≡ owner_of k m
  next : k'.next_mutex ≡ k.next_mutex
  listed : k'.mutexes ≡ k.mutexes

release_from_back-ReleasesAll :
    (k : Kernel) (xs : List ℕ) → ReleasesAll k xs (release_from_back k xs)
unfolding release_from_back
release_from_back-ReleasesAll k [] = record {
  holds = λ u. refl;
  away = λ m a. refl;
  next = refl;
  listed = refl;
}
release_from_back-ReleasesAll k (m ∷ ms) =
    let r = release_from_back-ReleasesAll k ms in
    let s = release-ReleasesOnly (release_from_back k ms) m in
    record {
      holds = λ u. s.holds u ∙ r.holds u;
      away = λ n a. s.others n (λ same. a (inl (sym same))) ∙ r.away n (λ i. a (inr i));
      next = s.next ∙ r.next;
      listed = s.listed ∙ r.listed;
    }

pub release_all_mutex-IsExclusive :
    (k : Kernel) (t : ℕ) → IsExclusive k → IsExclusive (release_all_mutex k t)
unfolding release_all_mutex
release_all_mutex-IsExclusive k t ex =
    let r = release_from_back-ReleasesAll k (held k t) in
    let k' = release_from_back k (held k t) in
    let mine : held (set_thread k' t (record (k'.thread t) { held_mutex = [] })) t ≡ [] =
      ground arith in
    Move-IsExclusive r.next r.listed
      (give t (λ u d. ground (arith, r.holds u)) (λ m i. absurd (subst (In m) mine i))
        (λ d. subst Distinct (sym mine) tt) r.away (λ d m i. absurd (subst (In m) mine i)))
      ex

-- A thread that is new holds nothing.
pub new_thread-IsExclusive :
    (k : Kernel) (pri : ℕ) (st : ThreadState) (sb ss entry p : ℕ)
    → IsExclusive k
    → IsExclusive (new_thread k pri st sb ss entry p).1
unfolding new_thread
new_thread-IsExclusive k pri st sb ss entry p ex =
    let t = k.next_thread in
    let k' = (new_thread k pri st sb ss entry p).1 in
    let mine : held k' t ≡ [] = ground arith in
    Move-IsExclusive refl refl
      (give t (λ u d. ground arith) (λ m i. absurd (subst (In m) mine i))
        (λ d. subst Distinct (sym mine) tt) (λ m a. refl) (λ d m i. absurd (subst (In m) mine i)))
      ex

All-mono : (n : ℕ) (ms : List ℕ) → All (λ m. m < n) ms → All (λ m. m < n + 1) ms
All-mono n [] h = tt
All-mono n (m ∷ ms) h = (omega arith, All-mono n ms h.1)

-- A mutex that is new is held by nobody.
pub new_mutex-IsExclusive : (k : Kernel) → IsExclusive k → IsExclusive (new_mutex k).1
unfolding new_mutex
new_mutex-IsExclusive k ex = record {
  owned = λ t m i. ground (arith, ex.owned t m i, ex.allocated t m i);
  once = ex.once;
  allocated = λ t m i. omega (arith, ex.allocated t m i);
  known = All-mono k.next_mutex k.mutexes ex.known;
}
