-- ===== src/Vm/Start/Shutdown.antt =====
-- The end of `VMStart` (VirtualMachine.cpp) behind `VMMain`, as far as the mutexes: a loop with an
-- iterator over the vector from which `VMMutexDelete` erases.
use proj.Base.{false, ◌∙◌}
use proj.Base.{==_iff, ==_refl, Bool-cases, arith, inr, refl, subst, true, ◌<◌, ◌≤◌}
use proj.Vm.State.{resume, success, suspend, with_kernel}
use mathlib.Core.Option.{some-injective}
use proj.Base.{
  All, List, Option, [], get_elem?, if◌then◌else◌, inl, length, none, some, suc, zero, ℕ, ◌+◌, ◌==◌,
  ◌∷◌, ◌≡◌, ◌⊎◌,
}
use proj.Kernel.Exclusion.Lists.{In}
use proj.Kernel.State.{Kernel}
use proj.Vm.Mutexes.{erase_ref, last_mutex, vm_mutex_delete}
use proj.Vm.State.{Vm, returned, switched, undefined}

-- How the loop ends: at the vector's end, past it, or by undefined behaviour of `VMMutexDelete`;
-- `unfinished` is fuel that does not suffice.
pub data Clearing : Type 0 where
  cleared : Vm → Clearing
  past_end unsound unfinished : Clearing

-- `i` is the iterator's place.
unfoldable pub clear_mutexes : (fuel : ℕ) → Vm → (i : ℕ) → Clearing
clear_mutexes zero v i = unfinished
clear_mutexes (suc n) v i =
    if i == length v.kernel.mutexes then cleared v else elim (get_elem? v.kernel.mutexes i) [
      | none ↦ past_end
      | some m ↦ elim (vm_mutex_delete v (v.kernel.mutex m).id) [
        | returned st out w ↦ clear_mutexes n w (i + 1)
        | switched w ↦ unsound
        | undefined ↦ unsound
      ]
    ]

-- No mutex is owned.
abbrev pub AreFree : Vm → Type 0
AreFree v = All (λ m. (v.kernel.mutex m).owner ≡ none) v.kernel.mutexes

-- What `last_mutex` finds is what it was given, or stands in the list.
last_mutex-In :
    (k : Kernel) (id m : ℕ) (found : Option ℕ) (ms : List ℕ)
    → last_mutex k id found ms ≡ some m
    → (found ≡ some m) ⊎ In m ms
unfolding last_mutex
last_mutex-In k id m found [] e = inl e
last_mutex-In k id m found (x ∷ ms) e = elim (Bool-cases ((k.mutex x).id == id)) [
  | inl hit ↦ elim (last_mutex-In k id m (some x) ms (rw (last_mutex, hit) at e)) [
    | inl same ↦ inr (inl (some-injective _ _ same))
    | inr i ↦ inr (inr i)
  ]
  | inr miss ↦ elim (last_mutex-In k id m found ms (rw (last_mutex, miss) at e)) [
    | inl same ↦ inl same
    | inr i ↦ inr (inr i)
  ]
]

-- What was found is not lost.
last_mutex-kept :
    (k : Kernel) (id y : ℕ) (ms : List ℕ) → (m : ℕ) × (last_mutex k id (some y) ms ≡ some m)
unfolding last_mutex
last_mutex-kept k id y [] = (y, refl)
last_mutex-kept k id y (x ∷ ms) = elim (Bool-cases ((k.mutex x).id == id)) [
  | inl hit ↦ rw (last_mutex, hit) (last_mutex-kept k id x ms)
  | inr miss ↦ rw (last_mutex, miss) (last_mutex-kept k id y ms)
]

-- A mutex of the list is found by its id.
last_mutex-found :
    (k : Kernel) (m : ℕ) (found : Option ℕ) (ms : List ℕ)
    → In m ms
    → (m' : ℕ) × (last_mutex k (k.mutex m).id found ms ≡ some m')
unfolding last_mutex
last_mutex-found k m found [] i = absurd i
last_mutex-found k m found (x ∷ ms) (inl e) =
    let hit : ((k.mutex x).id == (k.mutex m).id) ≡ true = rw e (==_refl (k.mutex m).id) in
    rw (last_mutex, hit) (last_mutex-kept k (k.mutex m).id x ms)
last_mutex-found k m found (x ∷ ms) (inr i) =
    last_mutex-found k m (if (k.mutex x).id == (k.mutex m).id then some x else found) ms i

length-erase_ref : (m : ℕ) (ms : List ℕ) → In m ms → length (erase_ref m ms) + 1 ≡ length ms
unfolding erase_ref
length-erase_ref m [] i = absurd i
length-erase_ref m (x ∷ ms) (inl e) =
    let hit : (x == m) ≡ true = (==_iff x m).1 e in rw (erase_ref, hit) (omega arith)
length-erase_ref m (x ∷ ms) (inr i) = elim (Bool-cases (x == m)) [
  | inl hit ↦ rw (erase_ref, hit) (omega arith)
  | inr miss ↦ rw (erase_ref, miss) (omega (arith, length-erase_ref m ms i))
]

All-erase_ref : (P : ℕ → Type 0) (m : ℕ) (ms : List ℕ) → All P ms → All P (erase_ref m ms)
unfolding erase_ref
All-erase_ref P m [] h = tt
All-erase_ref P m (x ∷ ms) h = elim (Bool-cases (x == m)) [
  | inl hit ↦ rw (erase_ref, hit) h.1
  | inr miss ↦ rw (erase_ref, miss) (h.0, All-erase_ref P m ms h.1)
]

All-In : (P : ℕ → Type 0) (m : ℕ) (ms : List ℕ) → All P ms → In m ms → P m
All-In P m [] h i = absurd i
All-In P m (x ∷ ms) h (inl e) = subst P e h.0
All-In P m (x ∷ ms) h (inr i) = All-In P m ms h.1 i

get_elem?-In : (ms : List ℕ) (i : ℕ) → i < length ms → (m : ℕ) × (get_elem? ms i ≡ some m) × In m ms
get_elem?-In [] i h = elim h [ ]
get_elem?-In (x ∷ ms) zero h = (x, refl, inl refl)
get_elem?-In (x ∷ ms) (suc i) h =
    let (m, at_i, there) = get_elem?-In ms i (omega arith) in (m, at_i, inr there)

get_elem?-end : (ms : List ℕ) (i : ℕ) → length ms ≤ i → get_elem? ms i ≡ none
get_elem?-end [] i h = refl
get_elem?-end (x ∷ ms) zero h = elim h [ ]
get_elem?-end (x ∷ ms) (suc i) h = get_elem?-end ms i (omega arith)

-- The deletion of a mutex that stands in the vector, where none is owned, makes it one shorter.
delete_lem :
    (v : Vm) (m : ℕ)
    → In m v.kernel.mutexes
    → AreFree v
    → (w : Vm) × (vm_mutex_delete v (v.kernel.mutex m).id ≡ returned success none w)
      × AreFree w
      × (length w.kernel.mutexes + 1 ≡ length v.kernel.mutexes)
unfolding vm_mutex_delete
delete_lem v m there free =
    let k = v.kernel in
    let (m', found) = last_mutex-found k m none k.mutexes there in
    elim (last_mutex-In k (k.mutex m).id m' none k.mutexes found) [
      | inl never ↦ cc never
      | inr there' ↦
          let unowned = All-In (λ x. (k.mutex x).owner ≡ none) m' k.mutexes free there' in
          (
            resume (with_kernel (suspend v) (record k { mutexes = erase_ref m' k.mutexes })),
            rw (vm_mutex_delete, found, unowned) refl,
            All-erase_ref (λ x. (k.mutex x).owner ≡ none) m' k.mutexes free,
            length-erase_ref m' k.mutexes there',
          )
    ]

clear_past :
    (fuel : ℕ) (v : Vm) (i : ℕ)
    → length v.kernel.mutexes < i
    → clear_mutexes (suc fuel) v i ≡ past_end
unfolding clear_mutexes
clear_past fuel v i h =
    let off : (i == length v.kernel.mutexes) ≡ false = ground arith in
    rw (clear_mutexes, off, get_elem?-end v.kernel.mutexes i (omega arith)) refl

-- A round before the end: the vector has become one shorter when the iterator moves on.
clear_round :
    (fuel : ℕ) (v : Vm) (i : ℕ)
    → AreFree v
    → i < length v.kernel.mutexes
    → (w : Vm) × (clear_mutexes (suc fuel) v i ≡ clear_mutexes fuel w (i + 1))
      × AreFree w
      × (length w.kernel.mutexes + 1 ≡ length v.kernel.mutexes)
unfolding clear_mutexes
clear_round fuel v i free h =
    let (m, at_i, there) = get_elem?-In v.kernel.mutexes i h in
    let (w, deleted, free', shorter) = delete_lem v m there free in
    let off : (i == length v.kernel.mutexes) ≡ false = ground arith in
    (w, rw (clear_mutexes, off, at_i, deleted) refl, free', shorter)

clear_mutexes_odd :
    (j i fuel : ℕ) (v : Vm)
    → AreFree v
    → length v.kernel.mutexes ≡ i + (j + j + 1)
    → j + 2 ≤ fuel
    → clear_mutexes fuel v i ≡ past_end
clear_mutexes_odd zero i (suc (suc fuel)) v free n enough =
    let (w, step, free', shorter) = clear_round (suc fuel) v i free (omega (arith, n)) in
    step ∙ clear_past fuel w (i + 1) (omega (arith, shorter, n))
clear_mutexes_odd zero i (suc zero) v free n enough = absurd (omega (arith, enough))
clear_mutexes_odd zero i zero v free n enough = absurd (omega (arith, enough))
clear_mutexes_odd (suc j) i (suc fuel) v free n enough =
    let (w, step, free', shorter) = clear_round fuel v i free (omega (arith, n)) in
    step
    ∙ clear_mutexes_odd j (i + 1) fuel w free' (omega (arith, shorter, n)) (omega (arith, enough))
clear_mutexes_odd (suc j) i zero v free n enough = absurd (omega (arith, enough))

clear_mutexes_even :
    (j i fuel : ℕ) (v : Vm)
    → AreFree v
    → length v.kernel.mutexes ≡ i + (j + j)
    → j + 1 ≤ fuel
    → (w : Vm) × (clear_mutexes fuel v i ≡ cleared w) × (length w.kernel.mutexes ≡ i + j)
unfolding clear_mutexes
clear_mutexes_even zero i (suc fuel) v free n enough =
    let at_end : (i == length v.kernel.mutexes) ≡ true = ground (arith, n) in
    (v, rw (clear_mutexes, at_end) refl, omega (arith, n))
clear_mutexes_even zero i zero v free n enough = absurd (omega (arith, enough))
clear_mutexes_even (suc j) i (suc fuel) v free n enough =
    let (w, step, free', shorter) = clear_round fuel v i free (omega (arith, n)) in
    let (u, ended, half) =
      clear_mutexes_even j (i + 1) fuel w free' (omega (arith, shorter, n))
        (omega (arith, enough)) in
    (u, step ∙ ended, omega (arith, half))
clear_mutexes_even (suc j) i zero v free n enough = absurd (omega (arith, enough))

-- Where the program leaves 2 * j mutexes, none of them owned, the loop that is to delete them all at
-- the end of VMStart leaves j of them.
pub clear_mutexes-half :
    (j : ℕ) (v : Vm)
    → AreFree v
    → length v.kernel.mutexes ≡ j + j
    → (w : Vm) × (clear_mutexes (j + 1) v 0 ≡ cleared w) × (length w.kernel.mutexes ≡ j)
clear_mutexes-half j v free n =
    let (w, ended, half) = clear_mutexes_even j 0 (j + 1) v free (omega (arith, n)) (omega arith) in
    (w, ended, omega (arith, half))

-- Where the program leaves an odd number of mutexes, none of them owned, the loop that is to
-- delete them all at the end of VMStart runs past the end of the vector, since VMMutexDelete
-- erases from it.
pub clear_mutexes-past_end :
    (j : ℕ) (v : Vm)
    → AreFree v
    → length v.kernel.mutexes ≡ j + j + 1
    → clear_mutexes (j + 2) v 0 ≡ past_end
clear_mutexes-past_end j v free n =
    clear_mutexes_odd j 0 (j + 2) v free (omega (arith, n)) (omega arith)
