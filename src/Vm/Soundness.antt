-- ===== src/Vm/Soundness.antt =====
-- Valid pools and unmasked signals over every sequence of calls, interrupts and resumptions
-- (VirtualMachine.cpp).
pub mod Frames
pub mod Steps
pub mod Reach
pub mod DirectoryFrames
