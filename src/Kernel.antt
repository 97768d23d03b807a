-- ===== src/Kernel.antt =====
-- The threads and mutexes of the virtual machine: Thread.cpp, Mutex.cpp and the scheduler of
-- VirtualMachine.cpp.
pub mod State
pub mod Queues
pub mod Dispatch
pub mod Exclusion
pub mod Mutexes
pub mod Threads
pub mod Scheduler
pub mod Timers
pub mod Handover
