-- ===== src/Fs.antt =====
-- kernel/src/fs and kernel/src/device/devfs.rs.
pub mod Name
pub mod Node
pub mod Tmpfs
pub mod Devfs
pub mod FileSystem
pub mod Mounts
pub mod Open
pub mod VirtualFileSystem
pub mod FileManager
