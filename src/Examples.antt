-- ===== src/Examples.antt =====
-- Concrete states of the program, runs of the definitions on them, and the theorems applied there.
mod Memory
mod Pools
mod Kernel
mod Locks
mod Fat
mod Entries
mod Machine
mod Paths
mod Start
mod Shell
mod Demo
