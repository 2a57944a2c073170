-- ===== src/Fat32.antt =====
-- The FAT32 file system of pi-src/fat32.c and pi-src/fat32.h.
pub mod Layout
pub mod State
pub mod Table
pub mod Files
pub mod Directory
pub mod Clusters
pub mod Mount
pub mod Dumps
pub mod Sample
mod Examples
