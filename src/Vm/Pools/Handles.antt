-- ===== src/Vm/Pools/Handles.antt =====
-- What the memory pool calls of VirtualMachine.cpp promise their callers.
use proj.Base.{
  ℕ, ◌+◌, ◌≤◌, ◌<◌, ◌≡◌, ◌≢◌, List, [], ◌∷◌, none, some, refl, sym, ap, ◌∙◌, ◌⊎◌, inl, inr, true,
  false, ◌||◌, Bool-cases, ◌==◌, ==_iff, ==_refl, arith,
}
use mathlib.Core.Option.{some-injective}
use proj.Base.Words.{null, u32_mod}
use proj.Memory.{Mpcb, allocate}
use proj.Memory.Alloc.{IsValid, IsGapOf, allocate_gap, allocate_first_fit}
use proj.Vm.State.{Vm, success, insufficient_resources, suspend, resume}
use proj.Vm.Pools.{find_mem_pool, put_pool, round_up, allocate_in, vm_memory_pool_allocate}
use proj.Vm.Pools.Rounding.{round_up_lem}
use proj.Vm.Pools.Validity.{PoolsValid, find_mem_pool-IsValid}

-- The state with other pools, the signals as a call leaves them.
abbrev pub with_pools : Vm → List Mpcb → Vm
with_pools v ps = resume (record (suspend v) { pools = ps })

-- A call with good parameters ends in one of two ways.
pub vm_allocate-cases :
    (v : Vm) (memory size pointer : ℕ) {p : Mpcb}
    → pointer ≢ null
    → size ≢ 0
    → find_mem_pool memory v.pools ≡ some p
    → let taken = allocate p (round_up size) in
      ((taken.0 ≡ null)
        × (vm_memory_pool_allocate v memory size pointer
            ≡ (insufficient_resources, none, with_pools v (put_pool taken.1 v.pools))))
      ⊎ ((taken.0 ≢ null)
          × (vm_memory_pool_allocate v memory size pointer
              ≡ (success, some taken.0, with_pools v (put_pool taken.1 v.pools))))
unfolding vm_memory_pool_allocate
vm_allocate-cases v memory size pointer {p} np ns found =
    let good : (pointer == null || size == 0) ≡ false = ground arith in
    elim (Bool-cases ((allocate p (round_up size)).0 == null)) [
      | inl e ↦ inl ((==_iff _ _).0 e, rw (good, vm_memory_pool_allocate, found, allocate_in, e))
      | inr e ↦ inr (ground (arith, e), rw (good, vm_memory_pool_allocate, found, allocate_in, e))
    ]

pub find_mem_pool-id :
    (id : ℕ) (ps : List Mpcb) {p : Mpcb} → find_mem_pool id ps ≡ some p → p.id ≡ id
unfolding find_mem_pool
find_mem_pool-id id [] e = cc
find_mem_pool-id id (q ∷ ps) e = elim (Bool-cases (q.id == id)) [
  | inl hit ↦ sym (ap (λ r. r.id) (some-injective _ _ (rw hit at e))) ∙ (==_iff q.id id).0 hit
  | inr miss ↦ find_mem_pool-id id ps (rw miss at e)
]

-- Putting back what was found changes nothing.
pub put_pool-find :
    (id : ℕ) (ps : List Mpcb) {p : Mpcb} → find_mem_pool id ps ≡ some p → put_pool p ps ≡ ps
unfolding find_mem_pool put_pool
put_pool-find id [] e = refl
put_pool-find id (q ∷ ps) {p} e = elim (Bool-cases (q.id == id)) [
  | inl hit ↦ let same : q ≡ p = some-injective _ _ (rw hit at e) in rw (← same) (rw (==_refl q.id))
  | inr miss ↦
      let rest = rw miss at e in
      rw (find_mem_pool-id id ps rest, miss) (ap (◌∷◌ q) (put_pool-find id ps rest))
]

-- What was put under an id is found there.
pub find-put_pool :
    (id : ℕ) (q : Mpcb) (ps : List Mpcb) {p : Mpcb}
    → q.id ≡ id
    → find_mem_pool id ps ≡ some p
    → find_mem_pool id (put_pool q ps) ≡ some q
unfolding find_mem_pool put_pool
find-put_pool id q [] same e = cc
find-put_pool id q (r ∷ ps) same e = elim (Bool-cases (r.id == id)) [
  | inl hit ↦
      let here : (r.id == q.id) ≡ true = ground arith in
      let mine : (q.id == id) ≡ true = ground arith in rw here (rw mine)
  | inr miss ↦
      let there : (r.id == q.id) ≡ false = ground arith in
      rw there (rw miss (find-put_pool id q ps same (rw miss at e)))
]

pub put_pool-put_pool :
    (q r : Mpcb) (ps : List Mpcb) → r.id ≡ q.id → put_pool r (put_pool q ps) ≡ put_pool r ps
unfolding put_pool
put_pool-put_pool q r [] same = refl
put_pool-put_pool q r (p ∷ ps) same = elim (Bool-cases (p.id == q.id)) [
  | inl hit ↦
      let here : (p.id == r.id) ≡ true = ground arith in
      let mine : (q.id == r.id) ≡ true = ground arith in rw hit (rw (mine, here))
  | inr miss ↦
      let there : (p.id == r.id) ≡ false = ground arith in
      rw miss (rw there (ap (◌∷◌ p) (put_pool-put_pool q r ps same)))
]

module _ (v : Vm) (memory size pointer : ℕ) (p : Mpcb) (ok : PoolsValid v) (np : pointer ≢ null)
    (ns : size ≢ 0) (room : size + 63 < u32_mod)
    (found : find_mem_pool memory v.pools ≡ some p) where
  pub found-IsValid : IsValid p
  found-IsValid = (find_mem_pool-IsValid v.id_inc memory v.pools ok found).0

  pub rounded : 0 < round_up size
  rounded = ground (arith, round_up_lem size room)

  -- In valid pools, a request of a known pool, not empty and with room for the rounding, either
  -- succeeds, with the lowest address at which the rounded size is free, or is refused for want of
  -- a gap of that size, and then nothing changes.
  pub vm_allocate_lem :
      ((r : ℕ) × (vm_memory_pool_allocate v memory size pointer
          ≡ (success, some r, with_pools v (put_pool (allocate p (round_up size)).1 v.pools)))
        × IsGapOf p r (round_up size)
        × ((a : ℕ) → IsGapOf p a (round_up size) → r ≤ a))
      ⊎ ((vm_memory_pool_allocate v memory size pointer
            ≡ (insufficient_resources, none, with_pools v v.pools))
          × ((a : ℕ) → ¬ IsGapOf p a (round_up size)))
  vm_allocate_lem = elim (vm_allocate-cases v memory size pointer np ns found) [
    | inl (e, call) ↦ inr (
      elim (allocate_gap p (round_up size) found-IsValid) [
        | inl same ↦
            call
            ∙ ap (λ q. (insufficient_resources, none, with_pools v q))
                (ap (λ t. put_pool t v.pools) (ap (λ t. t.1) same)
                  ∙ put_pool-find memory v.pools found)
        | inr g ↦ absurd (omega (arith, e, g.above, found-IsValid.nonnull))
      ],
      λ a g. (allocate_first_fit p (round_up size) a rounded found-IsValid g).0 e,
    )
    | inr (e, call) ↦ inl (
      (allocate p (round_up size)).0,
      call,
      elim (allocate_gap p (round_up size) found-IsValid) [
        | inl same ↦ absurd (e (ap (λ t. t.0) same))
        | inr g ↦ g
      ],
      λ a g. (allocate_first_fit p (round_up size) a rounded found-IsValid g).1,
    )
  ]
