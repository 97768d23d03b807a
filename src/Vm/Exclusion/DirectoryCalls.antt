-- ===== src/Vm/Exclusion/DirectoryCalls.antt =====
-- The directory calls of VirtualMachine.cpp keep the lock table exclusive: they leave the threads and
-- mutexes alone.
use proj.Base.{List, Option, arith, ℕ}
use proj.Base.Int.{ℤ}
use proj.Fat.Entries.{DirEntry}
use proj.Kernel.Exclusion.Moves.{IsExclusive}
use proj.Vm.Calls.{reply_state}
use proj.Vm.Directories.{
  read_dir, vm_directory_change, vm_directory_close, vm_directory_create, vm_directory_current,
  vm_directory_open, vm_directory_read, vm_directory_rewind, vm_directory_unlink,
}
use proj.Vm.Exclusion.Leads.{Leads}
use proj.Vm.State.{Vm}
use proj.Vm.Threads.{vm_thread_state}

module _ (v : Vm) (ex : IsExclusive v.kernel) where
  pub thread_state-Leads :
      (thread state_ref : ℕ) → Leads (reply_state (vm_thread_state v thread state_ref))
  unfolding vm_thread_state
  thread_state-Leads thread state_ref = ground (arith, ex)

  pub directory_open-Leads :
      (read_at : ℕ → ℕ → List ℕ) (blank : DirEntry) (junk : ℤ) (name : Option (List ℕ)) (ref : ℕ)
      → Leads (reply_state (vm_directory_open read_at blank junk v name ref))
  unfolding vm_directory_open
  directory_open-Leads read_at blank junk name ref = ground (arith, ex)

  pub directory_close-Leads : (d : ℤ) → Leads (reply_state (vm_directory_close v d))
  unfolding vm_directory_close
  directory_close-Leads d = ground (arith, ex)

  pub directory_rewind-Leads : (d : ℤ) → Leads (vm_directory_rewind v d)
  unfolding vm_directory_rewind
  directory_rewind-Leads d = ground (arith, ex)

  pub directory_read-Leads : (d : ℤ) (ref : ℕ) → Leads (reply_state (vm_directory_read v d ref))
  unfolding vm_directory_read read_dir
  directory_read-Leads d ref = ground (arith, ex)

  pub directory_current-Leads : (ref : ℕ) → Leads (reply_state (vm_directory_current v ref))
  unfolding vm_directory_current
  directory_current-Leads ref = ground (arith, ex)

  pub directory_change-Leads : (path : List ℕ) → Leads (vm_directory_change v path)
  unfolding vm_directory_change
  directory_change-Leads path = ground (arith, ex)

  pub directory_create-Leads : (path : List ℕ) → Leads (vm_directory_create v path)
  unfolding vm_directory_create
  directory_create-Leads path = ground (arith, ex)

  pub directory_unlink-Leads : (path : List ℕ) → Leads (vm_directory_unlink v path)
  unfolding vm_directory_unlink
  directory_unlink-Leads path = ground (arith, ex)
