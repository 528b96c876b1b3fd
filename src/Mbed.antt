-- ===== src/Mbed.antt =====
-- LittleFileSystem2.cpp: the file system class of mbed-os over lfs2.c.
pub mod Callbacks
pub mod Files
pub mod Lifecycle
pub mod FileSystem
pub mod Convert
pub mod Codes
pub mod Refinement
