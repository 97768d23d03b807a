-- ===== src/Vm/Exclusion/FileCalls.antt =====
-- The memory pool calls and the file calls of VirtualMachine.cpp keep the lock table exclusive.
use proj.Base.{
  Bool-cases, List, Option, arith, inl, inr, leb, length, min, none, refl, some, subst, sym, ℕ,
  ◌==◌, ◌||◌, ◌≡◌,
}
use proj.Base.Int.{negsuc, pos, ℤ}
use proj.Base.Words.{null}
use proj.Base.Strings.{c_string}
use proj.Kernel.Exclusion.Keeps.{Keeps-IsExclusive, set_thread-Keeps}
use proj.Kernel.Exclusion.Moves.{IsExclusive}
use proj.Kernel.State.{waiting}
use proj.Vm.Calls.{reply}
use proj.Vm.Exclusion.Leads.{Leads, switch_to-Leads}
use proj.Vm.Exclusion.ThreadCalls.{pool_allocate-kernel}
use proj.Vm.Files.{
  file_opened, file_written, file_done, share_round, vm_file_close, vm_file_open, vm_file_read,
  vm_file_seek, vm_file_write, wait_for_machine, with_cd,
}
use proj.Vm.Pools.{
  vm_memory_pool_allocate, vm_memory_pool_create, vm_memory_pool_deallocate, vm_memory_pool_delete,
  vm_memory_pool_query,
}
use proj.Vm.State.{Vm, resume, suspend}

pub pool_deallocate-kernel :
    (v : Vm) (memory pointer : ℕ) → (vm_memory_pool_deallocate v memory pointer).2.kernel ≡ v.kernel
unfolding vm_memory_pool_deallocate
pool_deallocate-kernel v memory pointer = ground arith

pub pool_deallocate-Leads :
    (v : Vm) (memory pointer : ℕ)
    → IsExclusive v.kernel
    → Leads (reply (vm_memory_pool_deallocate v memory pointer))
pool_deallocate-Leads v memory pointer ex =
    subst IsExclusive (sym (pool_deallocate-kernel v memory pointer)) ex

pub pool_create-Leads :
    (v : Vm) (base size memory : ℕ)
    → IsExclusive v.kernel
    → Leads (reply (vm_memory_pool_create v base size memory))
unfolding vm_memory_pool_create
pool_create-Leads v base size memory ex = elim (Bool-cases (base == null || memory == null)) [
  | inl e ↦ rw (e, Leads) ex
  | inr e ↦ rw (e, Leads) ex
]

pool_query-kernel :
    (v : Vm) (memory bytesleft : ℕ) → (vm_memory_pool_query v memory bytesleft).2.kernel ≡ v.kernel
unfolding vm_memory_pool_query
pool_query-kernel v memory bytesleft = ground arith

pub pool_query-Leads :
    (v : Vm) (memory bytesleft : ℕ)
    → IsExclusive v.kernel
    → Leads (reply (vm_memory_pool_query v memory bytesleft))
pool_query-Leads v memory bytesleft ex =
    subst IsExclusive (sym (pool_query-kernel v memory bytesleft)) ex

pub pool_delete-Leads :
    (v : Vm) (memory : ℕ) → IsExclusive v.kernel → Leads (reply (vm_memory_pool_delete v memory))
unfolding vm_memory_pool_delete
pool_delete-Leads v memory ex = ex

with_cd-IsExclusive : (v : Vm) (n : ℤ) → IsExclusive v.kernel → IsExclusive (with_cd v n).kernel
with_cd-IsExclusive v n ex =
    Keeps-IsExclusive
      (set_thread-Keeps v.kernel v.kernel.tr (record (v.kernel.thread v.kernel.tr) { cd = n }) refl)
      ex

pub wait_for_machine-Leads : (v : Vm) → IsExclusive v.kernel → Leads (wait_for_machine v)
unfolding wait_for_machine
wait_for_machine-Leads v ex =
    let k = v.kernel in
    switch_to-Leads v _ (
      Keeps-IsExclusive (set_thread-Keeps k k.tr (record (k.thread k.tr) { state = waiting }) refl)
        ex)

pub file_open-Leads :
    (v : Vm) (filename : Option (List ℕ)) (fd : ℕ)
    → IsExclusive v.kernel
    → Leads (vm_file_open v filename fd).1
unfolding vm_file_open
file_open-Leads v none fd ex = tt
file_open-Leads v (some name) fd ex = elim (Bool-cases (fd == null)) [
  | inl e ↦ rw (e, Leads) (with_cd-IsExclusive (suspend v) (negsuc 17) ex)
  | inr e ↦
      rw (e, Leads)
        (wait_for_machine-Leads (with_cd (suspend v) (negsuc 17))
          (with_cd-IsExclusive (suspend v) (negsuc 17) ex))
]

pub file_close-Leads : (v : Vm) → IsExclusive v.kernel → Leads (vm_file_close v)
unfolding vm_file_close
file_close-Leads v ex =
    wait_for_machine-Leads (with_cd (suspend v) (pos 1))
      (with_cd-IsExclusive (suspend v) (pos 1) ex)

pub file_seek-Leads : (v : Vm) → IsExclusive v.kernel → Leads (vm_file_seek v)
unfolding vm_file_seek
file_seek-Leads v ex =
    wait_for_machine-Leads (with_cd (suspend v) (negsuc 727))
      (with_cd-IsExclusive (suspend v) (negsuc 727) ex)

pub file_opened-Leads : (result : ℤ) (v : Vm) → IsExclusive v.kernel → Leads (file_opened result v)
unfolding file_opened
file_opened-Leads (pos n) v ex = ex
file_opened-Leads (negsuc n) v ex = ex

pub file_done-Leads : (result : ℤ) (v : Vm) → IsExclusive v.kernel → Leads (file_done result v)
unfolding file_done
file_done-Leads (pos n) v ex = ex
file_done-Leads (negsuc n) v ex = ex

pub share_round-Leads :
    (v : Vm) (shareid len : ℕ) → IsExclusive v.kernel → Leads (share_round v shareid len).2
unfolding share_round
share_round-Leads v shareid len ex =
    let v₁ = (vm_memory_pool_allocate (resume v) shareid (min len 512) 1).2 in
    switch_to-Leads (suspend v₁) v₁.kernel
      (subst IsExclusive (sym (pool_allocate-kernel (resume v) shareid (min len 512) 1)) ex)

pub file_write-Leads :
    (v : Vm) (shareid : ℕ) (buffer : Option (List ℕ)) (length_ : Option ℤ)
    → IsExclusive v.kernel
    → Leads (vm_file_write v shareid buffer length_).2
unfolding vm_file_write
file_write-Leads v shareid (some buffer) (some (pos len)) ex =
    elim (Bool-cases (leb (length (c_string buffer)) len)) [
      | inl e ↦
          rw (e, Leads)
            (share_round-Leads (with_cd (suspend v) (negsuc 738)) shareid len
              (with_cd-IsExclusive (suspend v) (negsuc 738) ex))
      | inr e ↦ rw (e, Leads) tt
    ]
file_write-Leads v shareid (some buffer) (some (negsuc n)) ex = tt
file_write-Leads v shareid none length_ ex = tt
file_write-Leads v shareid (some buffer) none ex = tt

pub file_read-Leads :
    (v : Vm) (shareid data_ : ℕ) (length_ : Option ℤ)
    → IsExclusive v.kernel
    → Leads (vm_file_read v shareid data_ length_).2
unfolding vm_file_read
file_read-Leads v shareid data_ (some (pos len)) ex =
    let ex' = with_cd-IsExclusive (suspend v) (negsuc 727) ex in
    elim (Bool-cases (data_ == null)) [
      | inl e ↦ rw (e, Leads) ex'
      | inr e ↦ rw (e, Leads) (share_round-Leads (with_cd (suspend v) (negsuc 727)) shareid len ex')
    ]
file_read-Leads v shareid data_ (some (negsuc n)) ex = tt
file_read-Leads v shareid data_ none ex = tt

pub file_written-Leads :
    (v : Vm) (shareid writeloc : ℕ) (bytes : ℤ)
    → IsExclusive v.kernel
    → Leads (file_written v shareid writeloc bytes)
unfolding file_written
file_written-Leads v shareid writeloc bytes ex =
    let w = (vm_memory_pool_deallocate v shareid writeloc).2 in
    file_done-Leads bytes (with_cd w bytes) (
      with_cd-IsExclusive w bytes
        (subst IsExclusive (sym (pool_deallocate-kernel v shareid writeloc)) ex))
