-- ===== src/Vm/Pools.antt =====
-- The memory pool calls of VirtualMachine.cpp. An out-parameter is given as the address of the
-- caller's variable, NULL being 0.
pub mod Rounding
pub mod Validity
pub mod Handles
pub mod Cycles
use proj.Base.{ℕ, ◌*◌, ◌/◌, ◌||◌, List, [], ◌∷◌, ◌++◌, Option, none, some, ◌==◌, if◌then◌else◌}
use proj.Base.Words.{null, add32}
use proj.Memory.{Mpcb, new_pool, allocate, deallocate, fully_free, count_free}
use proj.Vm.State.{
  Vm, Reply, Status, success, invalid_parameter, invalid_state, insufficient_resources, suspend,
  resume,
}

-- `findMemPool`.
unfoldable pub find_mem_pool : ℕ → List Mpcb → Option Mpcb
find_mem_pool id [] = none
find_mem_pool id (p ∷ ps) = let rest = find_mem_pool id ps in if p.id == id then some p else rest

-- A method called through the pointer that `findMemPool` returned changes the object in place.
unfoldable pub put_pool : Mpcb → List Mpcb → List Mpcb
put_pool q [] = []
put_pool q (p ∷ ps) = let rest = put_pool q ps in if p.id == q.id then q ∷ ps else p ∷ rest

-- `(size+0x3F)&(~0x3F)` on `unsigned int`.
unfoldable pub round_up : ℕ → ℕ
round_up size = add32 size 0x3f / 64 * 64

-- The part of `VMMemoryPoolAllocate` behind the search.
unfoldable pub allocate_in : Vm → (sz : ℕ) → Mpcb → Reply ℕ
allocate_in v sz p =
    let taken = allocate p sz in
    let v' = record v { pools = put_pool taken.1 v.pools } in
    if taken.0 == null
    then (insufficient_resources, none, resume v')
    else (success, some taken.0, resume v')

unfoldable pub vm_memory_pool_allocate : Vm → (memory size pointer : ℕ) → Reply ℕ
unfolding find_mem_pool put_pool round_up allocate_in
vm_memory_pool_allocate v₀ memory size pointer =
    let v = suspend v₀ in
    if pointer == null || size == 0
    then (invalid_parameter, none, resume v)
    else elim (find_mem_pool memory v.pools) [
      | none ↦ (invalid_parameter, none, resume v)
      | some p ↦ allocate_in v (round_up size) p
    ]

unfoldable pub deallocate_in : Vm → (pointer : ℕ) → Mpcb → Reply ℕ
deallocate_in v pointer p =
    let freed = deallocate p pointer in
    let v' = record v { pools = put_pool freed.1 v.pools } in
    if freed.0 then (success, none, resume v') else (invalid_parameter, none, resume v')

unfoldable pub vm_memory_pool_deallocate : Vm → (memory pointer : ℕ) → Reply ℕ
unfolding find_mem_pool put_pool deallocate_in
vm_memory_pool_deallocate v₀ memory pointer =
    let v = suspend v₀ in
    if pointer == null
    then (invalid_parameter, none, resume v)
    else elim (find_mem_pool memory v.pools) [
      | none ↦ (invalid_parameter, none, resume v)
      | some p ↦ deallocate_in v pointer p
    ]

-- `memory` is the address that the new pool's id is stored at.
unfoldable pub vm_memory_pool_create : Vm → (base size memory : ℕ) → Reply ℕ
vm_memory_pool_create v₀ base size memory =
    let v = suspend v₀ in
    let made = new_pool v.id_inc base size in
    if base == null || memory == null then (invalid_parameter, none, resume v) else (
      success,
      some made.0.id,
      resume (record v { pools = v.pools ++ (made.0 ∷ []); id_inc = made.1 }),
    )

-- The loop of `VMMemoryPoolDelete`: the status, and the pools that are left.
unfoldable pub delete_pool : (memory : ℕ) → List Mpcb → Status × List Mpcb
delete_pool memory [] = (invalid_parameter, [])
delete_pool memory (p ∷ ps) =
    let rest = delete_pool memory ps in
    if p.id == memory
    then if fully_free p then (success, ps) else (invalid_state, p ∷ ps)
    else (rest.0, p ∷ rest.1)

unfoldable pub vm_memory_pool_delete : Vm → (memory : ℕ) → Reply ℕ
unfolding delete_pool
vm_memory_pool_delete v₀ memory =
    let v = suspend v₀ in
    let deleted = delete_pool memory v.pools in
    (deleted.0, none, resume (record v { pools = deleted.1 }))

unfoldable pub vm_memory_pool_query : Vm → (memory bytesleft : ℕ) → Reply ℕ
unfolding find_mem_pool
vm_memory_pool_query v₀ memory bytesleft =
    let v = suspend v₀ in
    if bytesleft == null
    then (invalid_parameter, none, resume v)
    else elim (find_mem_pool memory v.pools) [
      | none ↦ (invalid_parameter, none, resume v)
      | some p ↦ (success, some (count_free p), resume v)
    ]
