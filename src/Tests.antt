-- ===== src/Tests.antt =====
-- Tests of littlefs/lfs2.c and littlefs/lfs2_util.h: each theorem applied at concrete inputs.
mod Fetching
mod Commits
mod Directories
mod Ram
mod Caching
mod Numbers
mod Metadata
mod Allocation
mod Files
mod Binding
mod Mounting
