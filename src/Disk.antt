-- ===== src/Disk.antt =====
-- Structures of littlefs/lfs2.c that are kept on disk as words: `struct lfs2_ctz` and
-- `lfs2_superblock_t`.
use mbed_littlefs.Base.{ℕ, ◌^◌, ◌<◌, ◌≡◌}
use mbed_littlefs.Util.{ByteOrder, fromle32, tole32}
use mbed_littlefs.Util.Order.{fromle32-tole32}

-- `struct lfs2_ctz`.
pub record CtzStruct : Type 0 where
  pub head : ℕ
  pub size : ℕ

unfoldable pub ctz_fromle32 : ByteOrder → CtzStruct → CtzStruct
ctz_fromle32 host ctz = record { head = fromle32 host ctz.head; size = fromle32 host ctz.size }

unfoldable pub ctz_tole32 : ByteOrder → CtzStruct → CtzStruct
ctz_tole32 host ctz = record { head = tole32 host ctz.head; size = tole32 host ctz.size }

-- `lfs2_superblock_t`.
pub record Superblock : Type 0 where
  pub version : ℕ
  pub block_size : ℕ
  pub block_count : ℕ
  pub name_max : ℕ
  pub file_max : ℕ
  pub attr_max : ℕ

unfoldable pub superblock_fromle32 : ByteOrder → Superblock → Superblock
superblock_fromle32 host s = record {
  version = fromle32 host s.version;
  block_size = fromle32 host s.block_size;
  block_count = fromle32 host s.block_count;
  name_max = fromle32 host s.name_max;
  file_max = fromle32 host s.file_max;
  attr_max = fromle32 host s.attr_max;
}

unfoldable pub superblock_tole32 : ByteOrder → Superblock → Superblock
superblock_tole32 host s = record {
  version = tole32 host s.version;
  block_size = tole32 host s.block_size;
  block_count = tole32 host s.block_count;
  name_max = tole32 host s.name_max;
  file_max = tole32 host s.file_max;
  attr_max = tole32 host s.attr_max;
}

-- All fields are words.
pub record AreWords (s : Superblock) : Type 0 where
  pub version_word : s.version < 2 ^ 32
  pub block_size_word : s.block_size < 2 ^ 32
  pub block_count_word : s.block_count < 2 ^ 32
  pub name_max_word : s.name_max < 2 ^ 32
  pub file_max_word : s.file_max < 2 ^ 32
  pub attr_max_word : s.attr_max < 2 ^ 32

-- A superblock of words that is written in the order of the disk and read back is the same, on every
-- machine.
pub superblock_fromle32-superblock_tole32 :
    (host : ByteOrder) (s : Superblock)
    → AreWords s
    → superblock_fromle32 host (superblock_tole32 host s) ≡ s
unfolding superblock_fromle32 superblock_tole32
superblock_fromle32-superblock_tole32 host s w = λ i. record {
  version = (fromle32-tole32 host s.version w.version_word).0 i;
  block_size = (fromle32-tole32 host s.block_size w.block_size_word).0 i;
  block_count = (fromle32-tole32 host s.block_count w.block_count_word).0 i;
  name_max = (fromle32-tole32 host s.name_max w.name_max_word).0 i;
  file_max = (fromle32-tole32 host s.file_max w.file_max_word).0 i;
  attr_max = (fromle32-tole32 host s.attr_max w.attr_max_word).0 i;
}

-- The head and the size of a file likewise.
pub ctz_fromle32-ctz_tole32 :
    (host : ByteOrder) (ctz : CtzStruct)
    → ctz.head < 2 ^ 32
    → ctz.size < 2 ^ 32
    → ctz_fromle32 host (ctz_tole32 host ctz) ≡ ctz
unfolding ctz_fromle32 ctz_tole32
ctz_fromle32-ctz_tole32 host ctz h s = λ i. record {
  head = (fromle32-tole32 host ctz.head h).0 i;
  size = (fromle32-tole32 host ctz.size s).0 i;
}
