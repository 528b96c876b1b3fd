-- ===== src/Lib.antt =====
-- Verification of littlefs, the fail-safe file system of littlefs/lfs2.c, as mbed-littlefs has it.
--
-- The program is a C library between the file system interface of mbed (LittleFileSystem2.cpp) and
-- the callbacks of a block device (struct lfs2_config in littlefs/lfs2.h). Its parts rest on each
-- other: the utilities (littlefs/lfs2_util.h, littlefs/lfs2_util.c); the caching block device
-- operations, which read and program a block through a read cache and a program cache; the tags and
-- the global state, which the metadata log is made of; the block allocator, which scans a window of
-- the device for blocks that no traversal of the file system reaches; and above these the metadata
-- pairs, the skip-lists of files, the directories and the file system operations.
--
-- Files and the code that they model:
--   Base, Base/*     shared: Boolean tests, lists as arrays, words, error codes (enum lfs2_error)
--   Bits, Bits/*     shared: the binary digits of bit_and, bit_or and bit_xor
--   Util, Util/*     littlefs/lfs2_util.h and littlefs/lfs2_util.c
--   Tag, Tag/*       LFS2_MKTAG, lfs2_tag_* and lfs2_pair_* of littlefs/lfs2.c
--   Gstate, Gstate/* lfs2_gstate_*, lfs2_fs_preporphans, lfs2_fs_prepmove
--   Device           struct lfs2_config, lfs2_cache_t, and what the callbacks are relied on to do
--   Bd, Bd/*         lfs2_cache_drop, lfs2_cache_zero, lfs2_bd_read (Bd.antt), and lfs2_bd_cmp,
--                    lfs2_bd_flush, lfs2_bd_sync, lfs2_bd_prog, lfs2_bd_erase (Bd/Prog.antt)
--   Alloc, Alloc/*   struct lfs2_free, lfs2_alloc_lookahead, lfs2_alloc, lfs2_alloc_ack
--   Store            sequences of calls that may fail, words in memory
--   Ctz, Ctz/*       lfs2_ctz_index, lfs2_ctz_find, lfs2_ctz_extend, lfs2_ctz_traverse
--   Dir, Dir/*       lfs2_mdir_t, lfs2_dir_getslice, lfs2_dir_get, lfs2_dir_getread,
--                    lfs2_dir_traverse_filter, lfs2_dir_getgstate, lfs2_dir_getinfo,
--                    lfs2_dir_find_match (Dir.antt), lfs2_dir_fetchmatch, lfs2_dir_fetch
--                    (Dir/Fetch.antt), lfs2_dir_find (Dir/Find.antt), lfs2_dir_traverse
--                    (Dir/Traverse.antt), struct lfs2_commit, lfs2_dir_commitprog,
--                    lfs2_dir_commitattr, lfs2_dir_commitcrc, lfs2_dir_alloc, lfs2_dir_commit_size
--                    (Dir/Commit.antt), the part of lfs2_dir_commit that appends to the log and the
--                    loop of lfs2_dir_compact that writes a block (Dir/Log.antt), the changes of a
--                    directory by lfs2_dir_commit and the update of what is open (Dir/Handles.antt),
--                    and lfs2_dir_open, close, read, seek, tell and rewind (Dir/Walk.antt)
--   Disk             struct lfs2_ctz, lfs2_superblock_t and their byte order
--   File, File/*     lfs2_file_t, lfs2_file_relocate (File.antt), the blocks and bytes of a read or a
--                    write, lfs2_file_size, lfs2_file_tell (File/Transfer.antt), lfs2_file_write,
--                    lfs2_file_flush, lfs2_file_read, lfs2_file_seek, lfs2_file_truncate,
--                    lfs2_file_rewind (File/Write.antt)
--   Fs, Fs/*         lfs2_fs_traverse, lfs2_fs_size, lfs2_fs_pred, lfs2_fs_parent, lfs2_stat
--   Emubd, Emubd/*   littlefs/emubd/lfs2_emubd.c: lfs2_emubd_read, prog and erase (Emubd.antt),
--                    lfs2_emubd_create, sync and destroy (Emubd/Sync.antt)
--   Mount, Mount/*   lfs2_t, lfs2_init, lfs2_deinit, lfs2_malloc, lfs2_free (Mount.antt), lfs2_mount,
--                    lfs2_unmount (Mount/Scan.antt), lfs2_format (Mount/Format.antt), and what these
--                    two call of the metadata pairs (Mount/Pairs.antt)
--   Mbed, Mbed/*     LittleFileSystem2.cpp: the callbacks (Mbed/Callbacks.antt), lfs2_toerror to
--                    lfs2_totype (Mbed/Convert.antt), the class with its operations on names
--                    (Mbed/FileSystem.antt) and on open files and directories (Mbed/Files.antt)
--   Tests, Tests/*   the theorems applied at concrete inputs, on a device in memory
--
-- A word is a natural number with its wrap-around written out (`u32`, `sub32`). State is passed
-- explicitly. A function of the code that may fail gives an `Outcome`: a result, an error code, the
-- failure of an assertion (LFS2_ASSERT is taken to stop the program), or that the fuel of the model
-- ran out. The callbacks of the device are the record `Driver`, and `IsDevice` states what the
-- documentation of struct lfs2_config says of them; a program that reports success may still have
-- stored other bytes, which is what the validation is for.
--
-- Fuel: the loop of lfs2_bd_read gets 2 * size + 2 rounds, for each byte one to load the read cache
-- and one to copy; the loop of lfs2_bd_prog likewise 2 * size + 2. The outer loop of lfs2_alloc
-- gets ack + 2 rounds, since each window but the first takes one block from `ack`; that of
-- lfs2_ctz_find one more than the index it starts from, that of lfs2_dir_getslice one more than the
-- end of the log, since each round makes these less, and that of lfs2_ctz_traverse likewise. The
-- scan of lfs2_mount gets two rounds more than the rank of the first pair, where a rank is any
-- measure that the tail of a pair fetched from a fine state makes less; which states are fine is a
-- parameter. On a list of pairs that goes in a circle the code does not end. The loop of
-- lfs2_dir_seek gets two rounds more than the directory has pairs after its first, that of
-- lfs2_fs_pred one more than the list has pairs. The scan of a block by lfs2_dir_fetchmatch gets
-- one round more than the block has bytes, since each tag takes at least four; the searches of
-- lfs2_dir_find in a path one more than the path has characters. The loops of lfs2_ctz_extend,
-- lfs2_dir_getread, lfs2_dir_read, lfs2_fs_traverse, lfs2_fs_parent and of the file operations have
-- fuel by the same counts, and no theorem on it. lfs2_dir_traverse, the pairs of a directory in
-- lfs2_dir_find, the pairs that a handle is carried along to and the loop of lfs2_dir_compact take
-- their fuel as an argument; the last of these may go round for ever in the code.
--
-- Bounds: block_size below 2 ^ 30, block_count below 2 ^ 31 for the allocator, so that the sums of
-- the code do not wrap; the program cache of a read begins at a multiple of read_size; for commits
-- prog_size at most 512, so that the size of a CRC entry fits its ten bits.
--
-- Interfaces: lfs2_dir_find, lfs2_dir_fetch and lfs2_dir_fetchmatch are arguments of the operations
-- on open directories, of the update of these after a commit and of the walks over the file system;
-- lfs2_mount and lfs2_format are over the records `Metadata` and `Writer` for what they call of the
-- metadata pairs, where each call may also fail an assertion or not end; Mount/Pairs.antt gives these
-- records by the models of the functions that are called, with lfs2_dir_commit of the superblock as an
-- argument. The class of LittleFileSystem2.cpp is over the record `Core` for the functions of
-- lfs2.h, and its callbacks over the record `BlockDevice` for the class of mbed-os, of which
-- `IsBlockDevice` states the documentation. The heap that lfs2_init uses counts what is
-- allocated; which requests are granted is an input. The emulated block device has the failures of
-- the C library as inputs. The recursive mutex of the class is a count.
--
-- Not modelled: the branches of littlefs/lfs2_util.h that call intrinsics of the compiler, logging,
-- the use of MbedCRC for lfs2_crc, the paths of the files of the emulated block device, and of
-- littlefs/lfs2.c lfs2_dir_drop, lfs2_dir_split, what lfs2_dir_compact does in front of its loop and
-- lfs2_dir_commit around the log (the eviction of inline files, the drop of an empty pair, the
-- relocation), lfs2_mkdir, opening, closing and syncing a file, lfs2_remove, lfs2_rename, the
-- attributes, the repair of orphans and moves, and lfs2_migrate. These call each other in a circle
-- through lfs2_fs_relocate. A variable that the code reads before it sets it (the revisions of
-- lfs2_dir_fetchmatch, the tag of lfs2_dir_commitcrc after a corrupt read) is an argument. In File,
-- where lfs2_file_flush calls lfs2_file_read and lfs2_file_write, and where lfs2_file_write calls
-- itself to fill a hole, the flags of the file rule out the branches that would flush again; the
-- model calls the rest of the function there. The traversal of the blocks in use is a parameter of
-- the allocator, the skip-lists and the files.
pub mod Base
pub mod Bits
pub mod Util
pub mod Tag
pub mod Gstate
pub mod Device
pub mod Bd
pub mod Alloc
pub mod Store
pub mod Ctz
pub mod Dir
pub mod Disk
pub mod File
pub mod Fs
pub mod Emubd
pub mod Mount
pub mod Mbed
mod Tests
