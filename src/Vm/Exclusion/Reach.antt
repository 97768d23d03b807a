-- ===== src/Vm/Exclusion/Reach.antt =====
-- Mutual exclusion in every state that the machine can reach.
use proj.Vm.Exclusion.DirectoryCalls.{
  directory_change-Leads, directory_close-Leads, directory_create-Leads, directory_current-Leads,
  directory_open-Leads, directory_read-Leads, directory_rewind-Leads, directory_unlink-Leads,
  thread_state-Leads,
}
use proj.Base.{sym}
use proj.Vm.Exclusion.FileCalls.{
  file_close-Leads, file_done-Leads, file_open-Leads, file_opened-Leads, file_read-Leads,
  file_seek-Leads, file_write-Leads, file_written-Leads, pool_create-Leads, pool_deallocate-Leads,
  pool_delete-Leads, pool_query-Leads, share_round-Leads, wait_for_machine-Leads,
}
use proj.Vm.Exclusion.ThreadCalls.{pool_allocate-kernel}
use proj.Vm.Exclusion.MutexCalls.{
  mutex_create-Leads, mutex_delete-Leads, mutex_release-Leads, mutex_acquire-Leads,
  mutex_query-Leads, acquired-Leads,
}
use proj.Vm.Exclusion.ThreadCalls.{
  thread_sleep-Leads, thread_id-Leads, thread_activate-Leads, thread_delete-Leads,
  thread_terminate-Leads, thread_create-Leads, create_round-Leads, create_thread-Leads,
  timer_isr-Leads, file_callback-Leads,
}
use proj.Base.{ℕ, some, ◌≡◌, subst}
use mathlib.Core.Option.{some-injective}
use proj.Kernel.Exclusion.Lists.{In}
use proj.Kernel.Exclusion.Moves.{held, IsExclusive, IsExclusive-eq}
use proj.Vm.State.{Vm, Outcome, returned, switched, undefined}
use proj.Vm.Calls.{Call, call, after, Reach, here, next}
use proj.Vm.Exclusion.Leads.{Leads}

-- Every step keeps the lock table exclusive.
pub call-Leads : (c : Call) (v : Vm) → IsExclusive v.kernel → Leads (call c v)
unfolding call
call-Leads (Call.mutex_create ref) v ex = mutex_create-Leads v ref ex
call-Leads (Call.mutex_delete mutex) v ex = mutex_delete-Leads v mutex ex
call-Leads (Call.mutex_release mutex) v ex = mutex_release-Leads v mutex ex
call-Leads (Call.mutex_acquire mutex timeout) v ex = mutex_acquire-Leads v mutex timeout ex
call-Leads (Call.mutex_query mutex ref) v ex = mutex_query-Leads v mutex ref ex
call-Leads (Call.mutex_acquired mutex) v ex = acquired-Leads v mutex ex
call-Leads (Call.thread_sleep tick) v ex = thread_sleep-Leads v tick ex
call-Leads (Call.thread_id ref) v ex = thread_id-Leads v ref ex
call-Leads (Call.thread_activate thread) v ex = thread_activate-Leads v thread ex
call-Leads (Call.thread_delete thread) v ex = thread_delete-Leads v thread ex
call-Leads (Call.thread_terminate thread) v ex = thread_terminate-Leads v thread ex
call-Leads (Call.thread_create entry memsize tid) v ex = thread_create-Leads v entry memsize tid ex
call-Leads (Call.thread_create_again memsize) v ex = create_round-Leads v memsize ex
call-Leads (Call.thread_create_done entry param memsize prio mem) v ex =
    create_thread-Leads v entry param memsize prio mem ex
call-Leads Call.timer v ex = timer_isr-Leads v ex
call-Leads (Call.file_callback thread result) v ex = file_callback-Leads v thread result ex
call-Leads (Call.pool_allocate memory size pointer) v ex =
    subst IsExclusive (sym (pool_allocate-kernel v memory size pointer)) ex
call-Leads (Call.pool_create base size memory) v ex = pool_create-Leads v base size memory ex
call-Leads (Call.pool_deallocate memory pointer) v ex = pool_deallocate-Leads v memory pointer ex
call-Leads (Call.pool_query memory bytesleft) v ex = pool_query-Leads v memory bytesleft ex
call-Leads (Call.pool_delete memory) v ex = pool_delete-Leads v memory ex
call-Leads (Call.file_open filename fd) v ex = file_open-Leads v filename fd ex
call-Leads Call.file_close v ex = file_close-Leads v ex
call-Leads Call.file_seek v ex = file_seek-Leads v ex
call-Leads Call.file_wait v ex = wait_for_machine-Leads v ex
call-Leads (Call.file_opened result) v ex = file_opened-Leads result v ex
call-Leads (Call.file_ended result) v ex = file_done-Leads result v ex
call-Leads (Call.file_write shareid buffer length_) v ex =
    file_write-Leads v shareid buffer length_ ex
call-Leads (Call.file_read shareid data_ length_) v ex = file_read-Leads v shareid data_ length_ ex
call-Leads (Call.file_share_again shareid length_) v ex = share_round-Leads v shareid length_ ex
call-Leads (Call.file_written shareid writeloc bytes) v ex =
    file_written-Leads v shareid writeloc bytes ex
call-Leads (Call.thread_state thread state_ref) v ex = thread_state-Leads v ex thread state_ref
call-Leads (Call.directory_open read_at blank junk name ref) v ex =
    directory_open-Leads v ex read_at blank junk name ref
call-Leads (Call.directory_close d) v ex = directory_close-Leads v ex d
call-Leads (Call.directory_rewind d) v ex = directory_rewind-Leads v ex d
call-Leads (Call.directory_read d ref) v ex = directory_read-Leads v ex d ref
call-Leads (Call.directory_current ref) v ex = directory_current-Leads v ex ref
call-Leads (Call.directory_change path) v ex = directory_change-Leads v ex path
call-Leads (Call.directory_create path) v ex = directory_create-Leads v ex path
call-Leads (Call.directory_unlink path) v ex = directory_unlink-Leads v ex path

Leads-after : (o : Outcome) (w : Vm) → after o ≡ some w → Leads o → IsExclusive w.kernel
Leads-after (returned s out v) w e ex = subst (λ u. IsExclusive u.kernel) (some-injective _ _ e) ex
Leads-after (switched v) w e ex = subst (λ u. IsExclusive u.kernel) (some-injective _ _ e) ex
Leads-after undefined w e ex = cc

-- An exclusive lock table, in which each mutex that a thread holds is owned by that thread and
-- held once, stays exclusive through every sequence of calls on threads, mutexes, memory pools,
-- files and directories, timer interrupts, file callbacks and resumptions.
pub Reach-IsExclusive : (v w : Vm) → IsExclusive v.kernel → Reach v w → IsExclusive w.kernel
Reach-IsExclusive v w ex here = ex
Reach-IsExclusive v w ex (next {u} r c e) =
    Leads-after (call c u) w e (call-Leads c u (Reach-IsExclusive v u ex r))

-- Mutual exclusion: from a state whose lock table is exclusive, whatever sequence of calls on
-- threads, mutexes, memory pools, files and directories, timer interrupts, file callbacks and
-- resumptions follows, two threads that both hold a mutex are one thread.
pub Reach-exclusion :
    (v w : Vm) (t u m : ℕ)
    → IsExclusive v.kernel
    → Reach v w
    → In m (held w.kernel t)
    → In m (held w.kernel u)
    → t ≡ u
Reach-exclusion v w t u m ex r = IsExclusive-eq t u m (Reach-IsExclusive v w ex r)
