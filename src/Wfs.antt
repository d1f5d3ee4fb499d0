-- ===== src/Wfs.antt =====
-- kernel/fs/wfs.c and include/wfs.h: the filesystem on disk.
pub mod Device
pub mod Cache
pub mod Words
pub mod Layout
pub mod Volume
pub mod Inodes
pub mod Mapping
pub mod Files
pub mod Directories
pub mod Paths
pub mod Mount
pub mod Kept
pub mod Calls
mod Tests
mod RunTests
mod ReadTests
mod WriteTests
