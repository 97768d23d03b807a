-- ===== src/Kernel/Exclusion.antt =====
-- Who holds which mutex, and what the operations of Mutex.cpp and Thread.cpp do to that.
pub mod Lists
pub mod Moves
pub mod Keeps
pub mod Operations
pub mod Release
