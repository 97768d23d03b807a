-- ===== src/Program.antt =====
-- The programs around the virtual machine: the command line (main.c), and the shell that runs in it
-- (apps/shell.c).
pub mod Options
pub mod Entry
pub mod Shell
pub mod Host
pub mod Session
pub mod Console
pub mod Print
pub mod Script
pub mod Demo
