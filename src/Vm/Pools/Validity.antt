-- ===== src/Vm/Pools/Validity.antt =====
-- Valid pools with distinct ids, and that the memory pool calls of VirtualMachine.cpp keep them so.
use proj.Base.{
  ℕ, ◌+◌, ◌≤◌, ◌<◌, ◌≡◌, ◌≢◌, List, [], ◌∷◌, ◌++◌, All, some, subst, ◌∙◌, inl, inr, ◌||◌,
  Bool-cases, Option-cases, ◌==◌, ==_iff, arith,
}
use mathlib.Core.Option.{some-injective}
use native.Mathlib.Nat.{mod-eq_of_lt, le-add_right}
use proj.Base.Words.{null, u32_mod, u64_mod}
use proj.Memory.{Mpcb, allocate, deallocate, fully_free, new_pool}
use proj.Memory.Alloc.{IsValid, allocate-IsValid, deallocate-IsValid}
use proj.Vm.State.{Vm}
use proj.Vm.Pools.{
  find_mem_pool, put_pool, round_up, allocate_in, deallocate_in, delete_pool,
  vm_memory_pool_allocate, vm_memory_pool_deallocate, vm_memory_pool_create, vm_memory_pool_delete,
  vm_memory_pool_query,
}
use proj.Vm.Pools.Rounding.{round_up_lem}

abbrev pub Others : ℕ → List Mpcb → Type 0
Others id = All (λ q. q.id ≢ id)

-- Every pool is valid, its id was given out before, and no later pool has the same one.
abbrev pub AreValid : (given : ℕ) → List Mpcb → Type 0
AreValid given [] = Unit {0}
AreValid given (p ∷ ps) = IsValid p × (p.id < given) × Others p.id ps × AreValid given ps

-- What `findMemPool` finds has the id, and is valid.
pub find_mem_pool-IsValid :
    (given id : ℕ) (ps : List Mpcb) {p : Mpcb}
    → AreValid given ps
    → find_mem_pool id ps ≡ some p
    → IsValid p × (p.id ≡ id) × (p.id < given)
unfolding find_mem_pool
find_mem_pool-IsValid given id [] h e = cc
find_mem_pool-IsValid given id (q ∷ ps) {p} h e = elim (Bool-cases (q.id == id)) [
  | inl hit ↦
      let same = some-injective _ _ (rw hit at e) in
      subst (λ r. IsValid r × (r.id ≡ id) × (r.id < given)) same (h.0, (==_iff q.id id).0 hit, h.1)
  | inr miss ↦ find_mem_pool-IsValid given id ps h.3 (rw miss at e)
]

Others-put_pool : (id : ℕ) (q : Mpcb) (ps : List Mpcb) → Others id ps → Others id (put_pool q ps)
unfolding put_pool
Others-put_pool id q [] h = tt
Others-put_pool id q (p ∷ ps) h = elim (Bool-cases (p.id == q.id)) [
  | inl hit ↦ rw hit ((λ e. h.0 ((==_iff p.id q.id).0 hit ∙ e)), h.1)
  | inr miss ↦ rw miss (h.0, Others-put_pool id q ps h.1)
]

-- A changed pool under its own id.
pub put_pool-AreValid :
    (given : ℕ) (q : Mpcb) (ps : List Mpcb)
    → IsValid q
    → AreValid given ps
    → AreValid given (put_pool q ps)
unfolding put_pool
put_pool-AreValid given q [] v h = tt
put_pool-AreValid given q (p ∷ ps) v h = elim (Bool-cases (p.id == q.id)) [
  | inl hit ↦
      let same = (==_iff p.id q.id).0 hit in
      rw hit (v, omega (arith, same, h.1), subst (λ i. Others i ps) same h.2, h.3)
  | inr miss ↦ rw miss (h.0, h.1, Others-put_pool p.id q ps h.2, put_pool-AreValid given q ps v h.3)
]

abbrev pub PoolsValid : Vm → Type 0
PoolsValid v = AreValid v.id_inc v.pools

-- VMMemoryPoolAllocate keeps the pools valid and their ids distinct, on every branch, for a size
-- that leaves room for the rounding.
pub allocate-PoolsValid :
    (v : Vm) (memory size pointer : ℕ)
    → size + 63 < u32_mod
    → PoolsValid v
    → PoolsValid (vm_memory_pool_allocate v memory size pointer).2
unfolding vm_memory_pool_allocate allocate_in
allocate-PoolsValid v memory size pointer room ok =
    elim (Bool-cases (pointer == null || size == 0)) [
      | inl e ↦ rw e ok
      | inr e ↦ elim (Option-cases (find_mem_pool memory v.pools)) [
        | inl e₁ ↦ rw (e, vm_memory_pool_allocate, e₁) ok
        | inr (p, e₁) ↦
            let (valid, _, _) = find_mem_pool-IsValid v.id_inc memory v.pools ok e₁ in
            let positive : 0 < round_up size = ground (arith, round_up_lem size, e) in
            let kept =
              put_pool-AreValid v.id_inc (allocate p (round_up size)).1 v.pools
                (allocate-IsValid p (round_up size) positive valid) ok in
            elim (Bool-cases ((allocate p (round_up size)).0 == null)) [
              | inl e₂ ↦ rw (e, vm_memory_pool_allocate, e₁, allocate_in, e₂) kept
              | inr e₂ ↦ rw (e, vm_memory_pool_allocate, e₁, allocate_in, e₂) kept
            ]
      ]
    ]

-- VMMemoryPoolDeallocate keeps the pools valid and their ids distinct, on every branch.
pub deallocate-PoolsValid :
    (v : Vm) (memory pointer : ℕ)
    → PoolsValid v
    → PoolsValid (vm_memory_pool_deallocate v memory pointer).2
unfolding vm_memory_pool_deallocate deallocate_in
deallocate-PoolsValid v memory pointer ok = elim (Bool-cases (pointer == null)) [
  | inl e ↦ rw e ok
  | inr e ↦ elim (Option-cases (find_mem_pool memory v.pools)) [
    | inl e₁ ↦ rw (e, vm_memory_pool_deallocate, e₁) ok
    | inr (p, e₁) ↦
        let (valid, _, _) = find_mem_pool-IsValid v.id_inc memory v.pools ok e₁ in
        let kept =
          put_pool-AreValid v.id_inc (deallocate p pointer).1 v.pools
            (deallocate-IsValid p pointer valid) ok in
        elim (Bool-cases (deallocate p pointer).0) [
          | inl e₂ ↦ rw (e, vm_memory_pool_deallocate, e₁, deallocate_in, e₂) kept
          | inr e₂ ↦ rw (e, vm_memory_pool_deallocate, e₁, deallocate_in, e₂) kept
        ]
  ]
]

Others-snoc :
    (id : ℕ) (q : Mpcb) (ps : List Mpcb) → q.id ≢ id → Others id ps → Others id (ps ++ (q ∷ []))
Others-snoc id q [] d h = (d, tt)
Others-snoc id q (p ∷ ps) d h = (h.0, Others-snoc id q ps d h.1)

AreValid-snoc :
    (q : Mpcb) (ps : List Mpcb)
    → IsValid q
    → AreValid q.id ps
    → AreValid (q.id + 1) (ps ++ (q ∷ []))
AreValid-snoc q [] v h = (v, omega arith, tt, tt)
AreValid-snoc q (p ∷ ps) v h = (
  h.0,
  omega (arith, h.1),
  Others-snoc p.id q ps (λ e. omega (arith, e, h.1)) h.2,
  AreValid-snoc q ps v h.3,
)

-- VMMemoryPoolCreate keeps the pools valid and their ids distinct, on every branch, while the
-- counter of ids does not wrap and the new pool lies in the address space.
pub create-PoolsValid :
    (v : Vm) (base size memory : ℕ)
    → base + size ≤ u64_mod
    → size < u32_mod
    → v.id_inc + 1 < u32_mod
    → PoolsValid v
    → PoolsValid (vm_memory_pool_create v base size memory).2
unfolding vm_memory_pool_create
create-PoolsValid v base size memory top narrow more ok =
    elim (Bool-cases (base == null || memory == null)) [
      | inl e ↦ rw e ok
      | inr e ↦
          let p = (new_pool v.id_inc base size).0 in
          let nonnull : 0 < base = ground arith in
          let valid : IsValid p = record {
            nonnull = nonnull;
            addressable = top;
            narrow = narrow;
            fits = le-add_right base size;
          } in
          rw (e, mod-eq_of_lt more) (AreValid-snoc p v.pools valid ok)
    ]

Others-delete_pool :
    (memory id : ℕ) (ps : List Mpcb) → Others id ps → Others id (delete_pool memory ps).1
unfolding delete_pool
Others-delete_pool memory id [] h = tt
Others-delete_pool memory id (p ∷ ps) h = elim (Bool-cases (p.id == memory)) [
  | inl e ↦ elim (Bool-cases (fully_free p)) [ inl e₁ ↦ rw (e, e₁) h.1 | inr e₁ ↦ rw (e, e₁) h ]
  | inr e ↦ rw e (h.0, Others-delete_pool memory id ps h.1)
]

delete_pool-AreValid :
    (memory given : ℕ) (ps : List Mpcb)
    → AreValid given ps
    → AreValid given (delete_pool memory ps).1
unfolding delete_pool
delete_pool-AreValid memory given [] h = tt
delete_pool-AreValid memory given (p ∷ ps) h = elim (Bool-cases (p.id == memory)) [
  | inl e ↦ elim (Bool-cases (fully_free p)) [ inl e₁ ↦ rw (e, e₁) h.3 | inr e₁ ↦ rw (e, e₁) h ]
  | inr e ↦
      rw e
        (h.0, h.1, Others-delete_pool memory p.id ps h.2, delete_pool-AreValid memory given ps h.3)
]

-- VMMemoryPoolDelete keeps the pools valid and their ids distinct, on every branch.
pub delete-PoolsValid :
    (v : Vm) (memory : ℕ) → PoolsValid v → PoolsValid (vm_memory_pool_delete v memory).2
unfolding vm_memory_pool_delete
delete-PoolsValid v memory ok = delete_pool-AreValid memory v.id_inc v.pools ok

pub query-PoolsValid :
    (v : Vm) (memory bytesleft : ℕ)
    → PoolsValid v
    → PoolsValid (vm_memory_pool_query v memory bytesleft).2
unfolding vm_memory_pool_query
query-PoolsValid v memory bytesleft ok = elim (Bool-cases (bytesleft == null)) [
  | inl e ↦ rw e ok
  | inr e ↦ elim (Option-cases (find_mem_pool memory v.pools)) [
    | inl e₁ ↦ rw (e, vm_memory_pool_query, e₁) ok
    | inr (p, e₁) ↦ rw (e, vm_memory_pool_query, e₁) ok
  ]
]
