-- ===== src/Vm/Soundness/DirectoryFrames.antt =====
-- What the directory calls of VirtualMachine.cpp, and `VMThreadState`, do to the signal mask.
use proj.Base.{List, Option, arith, ℕ, ◌≢◌}
use proj.Base.Int.{ℤ}
use proj.Base.Words.{null}
use proj.Fat.Entries.{DirEntry}
use proj.Vm.Calls.{reply_state}
use proj.Vm.Directories.{
  read_dir, vm_directory_change, vm_directory_close, vm_directory_create, vm_directory_current,
  vm_directory_open, vm_directory_read, vm_directory_rewind, vm_directory_unlink,
}
use proj.Vm.Soundness.Frames.{AreEnabled, Frames, On}
use proj.Vm.State.{Vm}
use proj.Vm.Threads.{vm_thread_state}

module _ (v : Vm) (en : AreEnabled v.signals) where
  pub thread_state-Frames :
      (thread state_ref : ℕ)
      → state_ref ≢ null
      → On (Frames v) (reply_state (vm_thread_state v thread state_ref))
  unfolding vm_thread_state
  thread_state-Frames thread state_ref given = ground (arith, en, given)

  pub directory_open-Frames :
      (read_at : ℕ → ℕ → List ℕ) (blank : DirEntry) (junk : ℤ) (name : Option (List ℕ)) (ref : ℕ)
      → On (Frames v) (reply_state (vm_directory_open read_at blank junk v name ref))
  unfolding vm_directory_open
  directory_open-Frames read_at blank junk name ref = ground (arith, en)

  pub directory_close-Frames : (d : ℤ) → On (Frames v) (reply_state (vm_directory_close v d))
  unfolding vm_directory_close
  directory_close-Frames d = ground (arith, en)

  pub directory_rewind-Frames : (d : ℤ) → On (Frames v) (vm_directory_rewind v d)
  unfolding vm_directory_rewind
  directory_rewind-Frames d = ground (arith, en)

  pub directory_read-Frames :
      (d : ℤ) (ref : ℕ) → On (Frames v) (reply_state (vm_directory_read v d ref))
  unfolding vm_directory_read read_dir
  directory_read-Frames d ref = ground (arith, en)

  pub directory_current-Frames :
      (ref : ℕ) → On (Frames v) (reply_state (vm_directory_current v ref))
  unfolding vm_directory_current
  directory_current-Frames ref = ground (arith, en)

  pub directory_change-Frames : (path : List ℕ) → On (Frames v) (vm_directory_change v path)
  unfolding vm_directory_change
  directory_change-Frames path = ground (arith, en)

  pub directory_create-Frames : (path : List ℕ) → On (Frames v) (vm_directory_create v path)
  unfolding vm_directory_create
  directory_create-Frames path = ground (arith, en)

  pub directory_unlink-Frames : (path : List ℕ) → On (Frames v) (vm_directory_unlink v path)
  unfolding vm_directory_unlink
  directory_unlink-Frames path = ground (arith, en)
