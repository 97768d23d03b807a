-- ===== src/Vm/Pools/Cycles.antt =====
-- Sequences of memory pool calls (VirtualMachine.cpp): allocating and giving back, allocating and
-- asking, making a pool and deleting it, and the request that wraps.
use proj.Base.{
  ℕ, ◌+◌, ◌≤◌, ◌<◌, ◌≡◌, ◌≢◌, List, [], ◌∷◌, ◌++◌, none, some, refl, sym, ap, subst, ◌∙◌, inl, inr,
  true, false, ◌||◌, ◌==◌, ==_iff, arith,
}
use mathlib.Core.Option.{some-injective}
use proj.Base.Words.{null, u32_mod, add32}
use proj.Memory.{Mpcb, mem_block, allocate, deallocate, fully_free, count_free, new_pool}
use proj.Memory.Alloc.{deallocate-allocate, count_free-allocate}
use proj.Vm.State.{Vm, success, suspend, resume}
use proj.Vm.Pools.{
  find_mem_pool, put_pool, round_up, deallocate_in, delete_pool, vm_memory_pool_allocate,
  vm_memory_pool_deallocate, vm_memory_pool_create, vm_memory_pool_delete, vm_memory_pool_query,
}
use proj.Vm.Pools.Rounding.{round_up_wraps}
use proj.Vm.Pools.Validity.{PoolsValid, AreValid, find_mem_pool-IsValid}
use proj.Vm.Pools.Handles.{
  with_pools, vm_allocate-cases, find_mem_pool-id, find-put_pool, put_pool-find, put_pool-put_pool,
  found-IsValid, rounded,
}
use proj.Memory.Alloc.{allocate-zero}

allocate-id : (p : Mpcb) (n : ℕ) → (allocate p n).1.id ≡ p.id
unfolding allocate
allocate-id p n = refl

vm_deallocate_found :
    (w : Vm) (memory pointer : ℕ) (q p : Mpcb)
    → pointer ≢ null
    → find_mem_pool memory w.pools ≡ some q
    → deallocate q pointer ≡ (true, p)
    → vm_memory_pool_deallocate w memory pointer
      ≡ (success, none, with_pools w (put_pool p w.pools))
unfolding vm_memory_pool_deallocate deallocate_in
vm_deallocate_found w memory pointer q p np found freed =
    let good : (pointer == null) ≡ false = ground arith in
    rw (good, vm_memory_pool_deallocate, found, deallocate_in, freed)

vm_query_found :
    (w : Vm) (memory out : ℕ) (q : Mpcb)
    → out ≢ null
    → find_mem_pool memory w.pools ≡ some q
    → vm_memory_pool_query w memory out ≡ (success, some (count_free q), with_pools w w.pools)
unfolding vm_memory_pool_query
vm_query_found w memory out q given found =
    let good : (out == null) ≡ false = ground arith in rw (good, vm_memory_pool_query, found)

module _ (v : Vm) (memory size pointer : ℕ) (p : Mpcb) (ok : PoolsValid v) (np : pointer ≢ null)
    (ns : size ≢ 0) (room : size + 63 < u32_mod) (found : find_mem_pool memory v.pools ≡ some p)
    {r : ℕ} {v' : Vm}
    (done : vm_memory_pool_allocate v memory size pointer ≡ (success, some r, v')) where
  -- What a call that succeeded did: it took the rounded size in the pool that was found.
  succeeded :
      ((allocate p (round_up size)).0 ≢ null)
      × ((allocate p (round_up size)).0 ≡ r)
      × (with_pools v (put_pool (allocate p (round_up size)).1 v.pools) ≡ v')
  succeeded = elim (vm_allocate-cases v memory size pointer np ns found) [
    | inl (e, call) ↦ cc
    | inr (e, call) ↦
        let same = sym call ∙ done in
        (e, some-injective _ _ (ap (λ t. t.1) same), ap (λ t. t.2) same)
  ]

  -- In valid pools, after a request with room for the rounding that succeeded, giving back the
  -- address restores every pool.
  pub vm_deallocate-allocate :
      vm_memory_pool_deallocate v' memory r ≡ (success, none, with_pools v' v.pools)
  vm_deallocate-allocate =
      let (some_bytes, at_r, after) = succeeded in
      let q = (allocate p (round_up size)).1 in
      let mine : q.id ≡ memory =
        allocate-id p (round_up size) ∙ find_mem_pool-id memory v.pools found in
      let pools' : put_pool q v.pools ≡ v'.pools = ap (λ w. w.pools) after in
      let found' : find_mem_pool memory v'.pools ≡ some q =
        subst (λ ps. find_mem_pool memory ps ≡ some q) pools'
          (find-put_pool memory q v.pools mine found) in
      let valid = found-IsValid v memory size pointer p ok np ns room found in
      let positive = rounded v memory size pointer p ok np ns room found in
      let freed : deallocate q r ≡ (true, p) =
        subst (λ a. deallocate q a ≡ (true, p)) at_r
          (deallocate-allocate p (round_up size) positive valid some_bytes) in
      let back : put_pool p v'.pools ≡ v.pools =
        ap (put_pool p) (sym pools')
        ∙ (put_pool-put_pool q p v.pools (sym (allocate-id p (round_up size)))
            ∙ put_pool-find memory v.pools found) in
      vm_deallocate_found v' memory r q p (subst (λ a. a ≢ null) at_r some_bytes) found' freed
      ∙ ap (λ ps. (success, none, with_pools v' ps)) back

  -- In valid pools, after a request with room for the rounding that succeeded, the bytes that a
  -- query reports have gone down by the rounded size.
  pub vm_query-allocate :
      (out : ℕ)
      → out ≢ null
      → (left : ℕ) × (vm_memory_pool_query v' memory out
          ≡ (success, some left, with_pools v' v'.pools))
        × (left + round_up size ≡ count_free p)
  vm_query-allocate out no_null =
      let (some_bytes, at_r, after) = succeeded in
      let q = (allocate p (round_up size)).1 in
      let mine : q.id ≡ memory =
        allocate-id p (round_up size) ∙ find_mem_pool-id memory v.pools found in
      let pools' : put_pool q v.pools ≡ v'.pools = ap (λ w. w.pools) after in
      let found' : find_mem_pool memory v'.pools ≡ some q =
        subst (λ ps. find_mem_pool memory ps ≡ some q) pools'
          (find-put_pool memory q v.pools mine found) in
      let valid = found-IsValid v memory size pointer p ok np ns room found in
      let positive = rounded v memory size pointer p ok np ns room found in
      (
        count_free q,
        vm_query_found v' memory out q no_null found',
        count_free-allocate p (round_up size) positive valid some_bytes,
      )

-- A request for one of the 63 largest sizes succeeds in any known pool of valid ones, full or not:
-- it is given the start of the pool and no byte of it.
pub vm_allocate_wraps :
    (v : Vm) (memory size pointer : ℕ) (p : Mpcb)
    → PoolsValid v
    → pointer ≢ null
    → size < u32_mod
    → u32_mod ≤ size + 63
    → find_mem_pool memory v.pools ≡ some p
    → vm_memory_pool_allocate v memory size pointer ≡ (
      success,
      some p.start,
      with_pools v (put_pool (record p { allocated = mem_block p.start 0 ∷ p.allocated }) v.pools),
    )
vm_allocate_wraps v memory size pointer p ok np narrow wraps found =
    let none_left = round_up_wraps size narrow wraps in
    let zero_case : allocate p (round_up size)
        ≡ (p.start, record p { allocated = mem_block p.start 0 ∷ p.allocated }) =
      rw none_left (allocate-zero p) in
    let (valid, _, _) = find_mem_pool-IsValid v.id_inc memory v.pools ok found in
    elim (vm_allocate-cases v memory size pointer np (λ e. omega (arith, e, wraps)) found) [
      | inl (e, call) ↦ absurd (omega (arith, valid.nonnull, e, ap (λ t. t.0) zero_case))
      | inr (e, call) ↦
          call ∙ ap (λ t. (success, some t.0, with_pools v (put_pool t.1 v.pools))) zero_case
    ]

find-snoc :
    (id : ℕ) (ps : List Mpcb) (q : Mpcb)
    → AreValid id ps
    → q.id ≡ id
    → find_mem_pool id (ps ++ (q ∷ [])) ≡ some q
unfolding find_mem_pool
find-snoc id [] q h e = rw ((==_iff q.id id).1 e)
find-snoc id (p ∷ ps) q h e =
    let other : (p.id == id) ≡ false = ground (arith, h.1) in rw other (find-snoc id ps q h.3 e)

delete-snoc :
    (id : ℕ) (ps : List Mpcb) (q : Mpcb)
    → AreValid id ps
    → q.id ≡ id
    → fully_free q ≡ true
    → delete_pool id (ps ++ (q ∷ [])) ≡ (success, ps)
unfolding delete_pool
delete-snoc id [] q h e free = rw ((==_iff q.id id).1 e, free)
delete-snoc id (p ∷ ps) q h e free =
    let other : (p.id == id) ≡ false = ground (arith, h.1) in
    rw (other, delete-snoc id ps q h.3 e free)

-- With valid pools and references other than NULL, a new pool gets the next id: it is found under
-- it, all of its bytes are free, and deleting it leaves the pools that were there.
pub vm_create_lem :
    (v : Vm) (base size memory out : ℕ)
    → base ≢ null
    → memory ≢ null
    → out ≢ null
    → size < u32_mod
    → PoolsValid v
    → (v' : Vm) × (vm_memory_pool_create v base size memory ≡ (success, some v.id_inc, v'))
      × (vm_memory_pool_query v' v.id_inc out ≡ (success, some size, with_pools v' v'.pools))
      × (vm_memory_pool_delete v' v.id_inc ≡ (success, none, with_pools v' v.pools))
unfolding vm_memory_pool_create vm_memory_pool_delete count_free fully_free
vm_create_lem v base size memory out nb nm no_null narrow ok =
    let good : (base == null || memory == null) ≡ false = ground arith in
    let p = (new_pool v.id_inc base size).0 in
    let v' =
      resume (record (suspend v) { pools = v.pools ++ (p ∷ []); id_inc = add32 v.id_inc 1 }) in
    (
      v',
      rw good,
      vm_query_found v' v.id_inc out p no_null (find-snoc v.id_inc v.pools p ok refl)
          ∙ ap (λ n. (success, some n, with_pools v' v'.pools)) (omega (arith, narrow)),
      rw (delete-snoc v.id_inc v.pools p ok refl refl),
    )
