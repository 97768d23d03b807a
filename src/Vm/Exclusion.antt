-- ===== src/Vm/Exclusion.antt =====
-- Mutual exclusion over every sequence of calls, interrupts and resumptions (VirtualMachine.cpp).
pub mod Leads
mod MutexCalls
pub mod ThreadCalls
pub mod Reach
pub mod FileCalls
pub mod DirectoryCalls
