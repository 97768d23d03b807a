-- ===== src/Vm/Calls.antt =====
-- The calls on threads, mutexes, memory pools, files and directories, the two signal handlers, and what a thread
-- does when it runs again, as one step; and the states that any sequence of steps leads to.
use proj.Fat.Entries.{DirEntry}
use proj.Vm.Directories.{
  vm_directory_change, vm_directory_close, vm_directory_create, vm_directory_current,
  vm_directory_open, vm_directory_read, vm_directory_rewind, vm_directory_unlink,
}
use proj.Vm.Threads.{vm_thread_state}
use proj.Base.{List}
use proj.Vm.Files.{
  file_done, share_round, vm_file_close, vm_file_open, vm_file_read, vm_file_seek, vm_file_write,
  wait_for_machine,
}
use proj.Vm.Pools.{
  vm_memory_pool_allocate, vm_memory_pool_create, vm_memory_pool_deallocate, vm_memory_pool_delete,
  vm_memory_pool_query,
}
use proj.Vm.State.{Reply}
use proj.Base.{ℕ, Option, none, some, ◌≡◌}
use proj.Base.Int.{ℤ}
use proj.Vm.State.{Vm, Outcome, returned, switched, undefined}
use proj.Vm.Mutexes.{
  vm_mutex_create, acquired, vm_mutex_acquire, vm_mutex_delete, vm_mutex_query, vm_mutex_release,
}
use proj.Vm.Threads.{
  vm_thread_sleep, vm_thread_id, vm_thread_activate, create_round, create_thread, vm_thread_create,
  vm_thread_delete, vm_thread_terminate,
}
use proj.Vm.Files
use proj.Vm.Interrupts.{vm_timer_isr, vm_file_callback}

pub data Call : Type 0 where
  mutex_create mutex_delete mutex_release : (x : ℕ) → Call
  mutex_acquire mutex_query : (mutex arg : ℕ) → Call
  mutex_acquired : (mutex : ℕ) → Call
  thread_sleep thread_id thread_activate thread_delete thread_terminate : (x : ℕ) → Call
  thread_state : (thread state_ref : ℕ) → Call
  thread_create : (entry memsize tid : ℕ) → Call
  thread_create_again : (memsize : ℕ) → Call
  thread_create_done : (entry param memsize prio mem : ℕ) → Call
  timer : Call
  file_callback : (thread : ℕ) → ℤ → Call
  pool_allocate pool_create : (x y z : ℕ) → Call
  pool_deallocate pool_query : (x y : ℕ) → Call
  pool_delete : (memory : ℕ) → Call
  file_open : Option (List ℕ) → (filedescriptor : ℕ) → Call
  file_close file_seek file_wait : Call
  file_opened file_ended : ℤ → Call
  file_write : (shareid : ℕ) → Option (List ℕ) → Option ℤ → Call
  file_read : (shareid data_ : ℕ) → Option ℤ → Call
  file_share_again : (shareid length_ : ℕ) → Call
  file_written : (shareid writeloc : ℕ) → ℤ → Call
  directory_open :
      (read_at : ℕ → ℕ → List ℕ) (blank : DirEntry) (junk : ℤ)
      → Option (List ℕ)
      → (dirdescriptor : ℕ) → Call
  directory_close directory_rewind : (dirdescriptor : ℤ) → Call
  directory_read : (dirdescriptor : ℤ) → (dirent : ℕ) → Call
  directory_current : (abspath : ℕ) → Call
  directory_change directory_create directory_unlink : (path : List ℕ) → Call

abbrev pub reply : Reply ℕ → Outcome
reply (s, out, v) = returned s out v

-- What is stored through the out-parameter is not part of the state.
abbrev pub reply_state : {A : Type 0} → Reply A → Outcome
reply_state (s, out, v) = returned s none v

unfoldable pub call : Call → Vm → Outcome
call (mutex_create ref) v = vm_mutex_create v ref
call (mutex_delete mutex) v = vm_mutex_delete v mutex
call (mutex_release mutex) v = vm_mutex_release v mutex
call (mutex_acquire mutex timeout) v = vm_mutex_acquire v mutex timeout
call (mutex_query mutex ref) v = vm_mutex_query v mutex ref
call (mutex_acquired mutex) v = acquired v mutex
call (thread_sleep tick) v = vm_thread_sleep v tick
call (thread_id ref) v = vm_thread_id v ref
call (thread_activate thread) v = vm_thread_activate v thread
call (thread_delete thread) v = vm_thread_delete v thread
call (thread_terminate thread) v = vm_thread_terminate v thread
call (thread_state thread state_ref) v = reply_state (vm_thread_state v thread state_ref)
call (thread_create entry memsize tid) v = (vm_thread_create v entry memsize tid).2
call (thread_create_again memsize) v = (create_round v memsize).2
call (thread_create_done entry param memsize prio mem) v =
    create_thread v entry param memsize prio mem
call timer v = vm_timer_isr v
call (file_callback thread result) v = vm_file_callback v thread result
call (pool_allocate memory size pointer) v = reply (vm_memory_pool_allocate v memory size pointer)
call (pool_create base size memory) v = reply (vm_memory_pool_create v base size memory)
call (pool_deallocate memory pointer) v = reply (vm_memory_pool_deallocate v memory pointer)
call (pool_query memory bytesleft) v = reply (vm_memory_pool_query v memory bytesleft)
call (pool_delete memory) v = reply (vm_memory_pool_delete v memory)
call (file_open filename filedescriptor) v = (vm_file_open v filename filedescriptor).1
call file_close v = vm_file_close v
call file_seek v = vm_file_seek v
call file_wait v = wait_for_machine v
call (file_opened result) v = Files.file_opened result v
call (file_ended result) v = file_done result v
call (file_write shareid buffer length_) v = (vm_file_write v shareid buffer length_).2
call (file_read shareid data_ length_) v = (vm_file_read v shareid data_ length_).2
call (file_share_again shareid length_) v = (share_round v shareid length_).2
call (file_written shareid writeloc bytes) v = Files.file_written v shareid writeloc bytes
call (directory_open read_at blank junk name ref) v =
    reply_state (vm_directory_open read_at blank junk v name ref)
call (directory_close d) v = reply_state (vm_directory_close v d)
call (directory_rewind d) v = vm_directory_rewind v d
call (directory_read d ref) v = reply_state (vm_directory_read v d ref)
call (directory_current ref) v = reply_state (vm_directory_current v ref)
call (directory_change path) v = vm_directory_change v path
call (directory_create path) v = vm_directory_create v path
call (directory_unlink path) v = vm_directory_unlink v path

-- The state after a step; there is none where the behaviour is undefined.
abbrev pub after : Outcome → Option Vm
after (returned s out v) = some v
after (switched v) = some v
after undefined = none

pub data Reach (v : Vm) : Vm → Type 0 where
  here : Reach v v
  next : {u w : Vm} → Reach v u → (c : Call) → after (call c u) ≡ some w → Reach v w
