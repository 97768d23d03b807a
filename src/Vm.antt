-- ===== src/Vm.antt =====
-- The calls that a program makes of the virtual machine: VirtualMachine.cpp.
pub mod State
pub mod Pools
pub mod Mutexes
pub mod Threads
pub mod Directories
pub mod Interrupts
pub mod Calls
pub mod Exclusion
pub mod Files
pub mod Start
pub mod Answers
pub mod Soundness
