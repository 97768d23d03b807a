-- ===== src/Vm/Soundness/Reach.antt =====
-- What holds of the virtual machine (VirtualMachine.cpp) in every state that it can reach.
use proj.Vm.Soundness.DirectoryFrames.{
  directory_change-Frames, directory_close-Frames, directory_create-Frames,
  directory_current-Frames, directory_open-Frames, directory_read-Frames, directory_rewind-Frames,
  directory_unlink-Frames, thread_state-Frames,
}
use proj.Vm.Calls.{reply_state, Call, call, after, Reach, here, next}
use proj.Vm.Files.{file_written}
use mathlib.Core.Option.{some-injective}
use proj.Base.{
  Bool-cases, List, Option, ap, inl, inr, leb, length, none, some, subst, ℕ, ◌+◌, ◌<◌, ◌==◌, ◌||◌,
  ◌∙◌, ◌≡◌,
}
use proj.Base.Int.{negsuc, pos, ℤ}
use proj.Base.Strings.{c_string}
use proj.Base.Words.{null, u32_mod}
use proj.Vm.Files.{file_done, vm_file_read, vm_file_write, with_cd}
use proj.Vm.Pools.{
  vm_memory_pool_allocate, vm_memory_pool_create, vm_memory_pool_deallocate, vm_memory_pool_delete,
  vm_memory_pool_query,
}
use proj.Vm.Pools.Validity.{
  PoolsValid, allocate-PoolsValid, create-PoolsValid, deallocate-PoolsValid, delete-PoolsValid,
  query-PoolsValid,
}
use proj.Vm.Soundness.Frames.{
  On, acquired-Frames, create_thread-Frames, file_callback-Frames, file_close-Frames,
  file_done-Frames, file_open-Frames, file_opened-Frames, file_seek-Frames, mutex_acquire-Frames,
  mutex_create-Frames, mutex_delete-Frames, mutex_query-Frames, mutex_release-Frames,
  thread_activate-Frames, thread_delete-Frames, thread_id-Frames, thread_sleep-Frames,
  thread_terminate-Frames, timer_isr-Frames, wait_for_machine-Frames,
}
use proj.Vm.Soundness.Steps.{
  Fits, Frames-IsSettled, IsSettled, create_round-IsSettled, pool_allocate-signals,
  pool_create-signals, pool_deallocate-signals, pool_delete-signals, pool_query-signals,
  share_round-IsSettled,
}
use proj.Vm.State.{
  Outcome, Vm, resume_signals, returned, suspend, suspend_signals, switched, undefined,
}
use proj.Vm.Directories.{
  vm_directory_close, vm_directory_current, vm_directory_open, vm_directory_read,
}
use proj.Vm.Threads.{vm_thread_create, vm_thread_state}

-- A call that only changes the pools, or nothing.
pools-IsSettled :
    (v w : Vm)
    → w.signals ≡ resume_signals (suspend_signals v.signals)
    → IsSettled v
    → PoolsValid w
    → IsSettled w
pools-IsSettled v w e h ok = record {
  enabled = (ap (λ g. g.blocked) e ∙ h.enabled.0, ap (λ g. g.saved) e ∙ h.enabled.0);
  pools = ok;
}

thread_create-IsSettled :
    (v : Vm) (entry memsize tid : ℕ)
    → memsize + 63 < u32_mod
    → IsSettled v
    → On IsSettled (vm_thread_create v entry memsize tid).2
unfolding vm_thread_create
thread_create-IsSettled v entry memsize tid room h =
    elim (Bool-cases (entry == null || tid == null)) [
      | inl e ↦ rw (e, On) (record { enabled = (h.enabled.0, h.enabled.0); pools = h.pools })
      | inr e ↦ rw (e, On) (create_round-IsSettled (suspend v) memsize h.enabled.0 room h.pools)
    ]

file_write-IsSettled :
    (v : Vm) (shareid : ℕ) (buffer : Option (List ℕ)) (length_ : Option ℤ)
    → IsSettled v
    → On IsSettled (vm_file_write v shareid buffer length_).2
unfolding vm_file_write
file_write-IsSettled v shareid (some buffer) (some (pos len)) h =
    elim (Bool-cases (leb (length (c_string buffer)) len)) [
      | inl e ↦
          rw (e, On)
            (share_round-IsSettled (with_cd (suspend v) (negsuc 738)) shareid len h.enabled.0
              h.pools)
      | inr e ↦ rw (e, On) tt
    ]
file_write-IsSettled v shareid (some buffer) (some (negsuc n)) h = tt
file_write-IsSettled v shareid none length_ h = tt
file_write-IsSettled v shareid (some buffer) none h = tt

file_read-IsSettled :
    (v : Vm) (shareid data_ : ℕ) (length_ : Option ℤ)
    → IsSettled v
    → On IsSettled (vm_file_read v shareid data_ length_).2
unfolding vm_file_read
file_read-IsSettled v shareid data_ (some (pos len)) h = elim (Bool-cases (data_ == null)) [
  | inl e ↦ rw (e, On) (record { enabled = (h.enabled.0, h.enabled.0); pools = h.pools })
  | inr e ↦
      rw (e, On)
        (share_round-IsSettled (with_cd (suspend v) (negsuc 727)) shareid len h.enabled.0 h.pools)
]
file_read-IsSettled v shareid data_ (some (negsuc n)) h = tt
file_read-IsSettled v shareid data_ none h = tt

deallocated-IsSettled :
    (v : Vm) (memory pointer : ℕ)
    → IsSettled v
    → IsSettled (vm_memory_pool_deallocate v memory pointer).2
deallocated-IsSettled v memory pointer h =
    pools-IsSettled v (vm_memory_pool_deallocate v memory pointer).2
      (pool_deallocate-signals v memory pointer) h (deallocate-PoolsValid v memory pointer h.pools)

-- The descriptor kept for the running thread is not part of what is settled.
with_cd-IsSettled : (v : Vm) (n : ℤ) → IsSettled v → IsSettled (with_cd v n)
with_cd-IsSettled v n h = record { enabled = h.enabled; pools = h.pools }

file_written-IsSettled :
    (v : Vm) (shareid writeloc : ℕ) (bytes : ℤ)
    → IsSettled v
    → On IsSettled (file_written v shareid writeloc bytes)
unfolding file_written
file_written-IsSettled v shareid writeloc bytes h =
    let w = (vm_memory_pool_deallocate v shareid writeloc).2 in
    let h' = with_cd-IsSettled w bytes (deallocated-IsSettled v shareid writeloc h) in
    Frames-IsSettled (with_cd w bytes) (file_done bytes (with_cd w bytes)) h'.pools
      (file_done-Frames (with_cd w bytes) h'.enabled bytes)

-- Every step keeps the timer's signal unmasked and the pools valid.
call-IsSettled : (c : Call) (v : Vm) → Fits c v → IsSettled v → On IsSettled (call c v)
unfolding call
call-IsSettled (Call.mutex_create ref) v f h =
    Frames-IsSettled v _ h.pools (mutex_create-Frames v h.enabled ref)
call-IsSettled (Call.mutex_delete mutex) v f h =
    Frames-IsSettled v _ h.pools (mutex_delete-Frames v h.enabled mutex)
call-IsSettled (Call.mutex_release mutex) v f h =
    Frames-IsSettled v _ h.pools (mutex_release-Frames v h.enabled mutex)
call-IsSettled (Call.mutex_acquire mutex timeout) v f h =
    Frames-IsSettled v _ h.pools (mutex_acquire-Frames v h.enabled mutex timeout)
call-IsSettled (Call.mutex_query mutex ref) v f h =
    Frames-IsSettled v _ h.pools (mutex_query-Frames v h.enabled mutex ref)
call-IsSettled (Call.mutex_acquired mutex) v f h =
    Frames-IsSettled v _ h.pools (acquired-Frames v h.enabled mutex)
call-IsSettled (Call.thread_sleep tick) v f h =
    Frames-IsSettled v _ h.pools (thread_sleep-Frames v h.enabled tick)
call-IsSettled (Call.thread_id ref) v f h =
    Frames-IsSettled v _ h.pools (thread_id-Frames v h.enabled ref)
call-IsSettled (Call.thread_activate thread) v f h =
    Frames-IsSettled v _ h.pools (thread_activate-Frames v h.enabled thread)
call-IsSettled (Call.thread_delete thread) v f h =
    Frames-IsSettled v _ h.pools (thread_delete-Frames v h.enabled thread)
call-IsSettled (Call.thread_terminate thread) v f h =
    Frames-IsSettled v _ h.pools (thread_terminate-Frames v h.enabled thread)
call-IsSettled (Call.thread_create entry memsize tid) v f h =
    thread_create-IsSettled v entry memsize tid f h
call-IsSettled (Call.thread_create_again memsize) v f h =
    create_round-IsSettled v memsize h.enabled.1 f h.pools
call-IsSettled (Call.thread_create_done entry param memsize prio mem) v f h =
    Frames-IsSettled v _ h.pools (create_thread-Frames v h.enabled entry param memsize prio mem)
call-IsSettled Call.timer v f h = Frames-IsSettled v _ h.pools (timer_isr-Frames v h.enabled)
call-IsSettled (Call.file_callback thread result) v f h =
    Frames-IsSettled v _ h.pools (file_callback-Frames v h.enabled thread result)
call-IsSettled (Call.pool_allocate memory size pointer) v f h =
    pools-IsSettled v (vm_memory_pool_allocate v memory size pointer).2
      (pool_allocate-signals v memory size pointer) h
      (allocate-PoolsValid v memory size pointer f h.pools)
call-IsSettled (Call.pool_create base size memory) v f h =
    pools-IsSettled v (vm_memory_pool_create v base size memory).2
      (pool_create-signals v base size memory) h
      (create-PoolsValid v base size memory f.0 f.1 f.2 h.pools)
call-IsSettled (Call.pool_deallocate memory pointer) v f h =
    deallocated-IsSettled v memory pointer h
call-IsSettled (Call.pool_query memory bytesleft) v f h =
    pools-IsSettled v (vm_memory_pool_query v memory bytesleft).2
      (pool_query-signals v memory bytesleft) h (query-PoolsValid v memory bytesleft h.pools)
call-IsSettled (Call.pool_delete memory) v f h =
    pools-IsSettled v (vm_memory_pool_delete v memory).2 (pool_delete-signals v memory) h
      (delete-PoolsValid v memory h.pools)
call-IsSettled (Call.file_open filename fd) v f h =
    Frames-IsSettled v _ h.pools (file_open-Frames v h.enabled filename fd)
call-IsSettled Call.file_close v f h = Frames-IsSettled v _ h.pools (file_close-Frames v h.enabled)
call-IsSettled Call.file_seek v f h = Frames-IsSettled v _ h.pools (file_seek-Frames v h.enabled)
call-IsSettled Call.file_wait v f h =
    Frames-IsSettled v _ h.pools (wait_for_machine-Frames v h.enabled)
call-IsSettled (Call.file_opened result) v f h =
    Frames-IsSettled v _ h.pools (file_opened-Frames v h.enabled result)
call-IsSettled (Call.file_ended result) v f h =
    Frames-IsSettled v _ h.pools (file_done-Frames v h.enabled result)
call-IsSettled (Call.file_write shareid buffer length_) v f h =
    file_write-IsSettled v shareid buffer length_ h
call-IsSettled (Call.file_read shareid data_ length_) v f h =
    file_read-IsSettled v shareid data_ length_ h
call-IsSettled (Call.file_share_again shareid length_) v f h =
    share_round-IsSettled v shareid length_ h.enabled.1 h.pools
call-IsSettled (Call.file_written shareid writeloc bytes) v f h =
    file_written-IsSettled v shareid writeloc bytes h
call-IsSettled (Call.thread_state thread state_ref) v f h =
    Frames-IsSettled v (reply_state (vm_thread_state v thread state_ref)) h.pools
      (thread_state-Frames v h.enabled thread state_ref f)
call-IsSettled (Call.directory_open read_at blank junk name ref) v f h =
    Frames-IsSettled v (reply_state (vm_directory_open read_at blank junk v name ref)) h.pools
      (directory_open-Frames v h.enabled read_at blank junk name ref)
call-IsSettled (Call.directory_close d) v f h =
    Frames-IsSettled v (reply_state (vm_directory_close v d)) h.pools
      (directory_close-Frames v h.enabled d)
call-IsSettled (Call.directory_rewind d) v f h =
    Frames-IsSettled v _ h.pools (directory_rewind-Frames v h.enabled d)
call-IsSettled (Call.directory_read d ref) v f h =
    Frames-IsSettled v (reply_state (vm_directory_read v d ref)) h.pools
      (directory_read-Frames v h.enabled d ref)
call-IsSettled (Call.directory_current ref) v f h =
    Frames-IsSettled v (reply_state (vm_directory_current v ref)) h.pools
      (directory_current-Frames v h.enabled ref)
call-IsSettled (Call.directory_change path) v f h =
    Frames-IsSettled v _ h.pools (directory_change-Frames v h.enabled path)
call-IsSettled (Call.directory_create path) v f h =
    Frames-IsSettled v _ h.pools (directory_create-Frames v h.enabled path)
call-IsSettled (Call.directory_unlink path) v f h =
    Frames-IsSettled v _ h.pools (directory_unlink-Frames v h.enabled path)

after-IsSettled : (o : Outcome) (w : Vm) → after o ≡ some w → On IsSettled o → IsSettled w
after-IsSettled (returned s out v) w e h = subst IsSettled (some-injective _ _ e) h
after-IsSettled (switched v) w e h = subst IsSettled (some-injective _ _ e) h
after-IsSettled undefined w e h = cc

-- Every step fits in the memory that it asks for.
abbrev pub Bounded : {v w : Vm} → Reach v w → Type 0
Bounded here = Unit {0}
Bounded (next {u} r c e) = Bounded r × Fits c u

pub Reach-IsSettled : (v w : Vm) → IsSettled v → (r : Reach v w) → Bounded r → IsSettled w
Reach-IsSettled v w h here b = h
Reach-IsSettled v w h (next {u} r c e) b =
    after-IsSettled (call c u) w e (call-IsSettled c u b.1 (Reach-IsSettled v u h r b.0))
