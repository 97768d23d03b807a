-- ===== src/Fat.antt =====
-- The FAT file system: FATData.cpp and Dir.cpp.
pub mod Bytes
pub mod Entries
pub mod Image
pub mod Files
pub mod Report
