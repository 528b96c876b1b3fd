-- ===== src/Tests/Files.antt =====
-- Skip-lists and logs of littlefs/lfs2.c on a device in memory.
use mbed_littlefs.Base.{
  ℕ, zero, suc, ◌+◌, ◌-◌, ◌*◌, ◌^◌, ◌≤◌, ◌≡◌, refl, arith, true, false, ◌&&◌, ◌==◌, if◌then◌else◌,
  none,
}
use native.Mathlib.Nat.{pow-le-pow_right}
use mbed_littlefs.Util.{little_endian, ctz, popc, fromle32}
use mbed_littlefs.Gstate.{gstate_zero}
use mbed_littlefs.Tag.{mktag}
use mbed_littlefs.Bd.View.{visible}
use mbed_littlefs.Bd.Read.{IsRcache}
use mbed_littlefs.Ctz.{ctz_index, ctz_find}
use mbed_littlefs.Ctz.Find.{pointer, IsList, SearchEnds, ctz_find_lem}
use mbed_littlefs.Ctz.{ctz_traverse}
use mbed_littlefs.Ctz.Traverse.{IsPaired, TraverseEnds, ctz_traverse_lem}
use mbed_littlefs.Base.{Error, List, Option}
use mbed_littlefs.Dir.{Mdir, dir_getslice}
use mbed_littlefs.Dir.Slice.{SliceEnds, dir_getslice_lem}
use mbed_littlefs.Bd.Prog.{Flash}
use mbed_littlefs.Alloc.{Traversal}
use mbed_littlefs.Base.{ok, [], ◌∷◌}
use mbed_littlefs.Disk.{Superblock}
use mbed_littlefs.File.{File, World}
use mbed_littlefs.File.Transfer.{file_size}
use mbed_littlefs.File.Write.{file_flush}
use mbed_littlefs.File.Write.Inline.{file_flush_inline}
use mbed_littlefs.Tests.Ram.{
  small_config, ram, small_config-IsConfig, ram-IsDevice, numbered, empty_cache,
}

-- A file of 131 bytes in the blocks 2 and 3: the second begins with a pointer to the first.
abbrev linked : ℕ → ℕ → ℕ
linked b o = if b == 3 && o == 0 then 2 else 0

abbrev blocks : ℕ → ℕ
blocks c = c + 2

empty_cache-IsRcache :
    (dev : ℕ → ℕ → ℕ) → IsRcache small_config ram small_config-IsConfig ram-IsDevice dev empty_cache
empty_cache-IsRcache dev = record {
  holds = λ h. absurd (omega arith);
  aligned = λ h. absurd (omega arith);
  in_block = λ h. absurd (omega arith);
}

last_index : (ctz_index small_config 130).0 ≡ 1
unfolding ctz_index popc
last_index = refl

linked-IsList :
    IsList small_config ram small_config-IsConfig ram-IsDevice little_endian none tt linked blocks
      (ctz_index small_config 130).0
unfolding visible fromle32 ctz_index popc
linked-IsList = record {
  from_two = λ c le. omega arith;
  of_device = λ c le. omega arith;
  points = first_pointer;
}
  where
    first_pointer :
        (c k : ℕ)
        → c ≤ 1
        → k ≤ ctz c
        → 2 ^ k ≤ c
        → pointer small_config ram small_config-IsConfig ram-IsDevice little_endian none tt linked
            (blocks c)
            (4 * k)
          ≡ blocks (c - 2 ^ k)
    first_pointer zero k le few low =
        absurd (omega (arith, pow-le-pow_right {n = 2} (omega arith) {i = 0} {j = k} (omega arith)))
    first_pointer (suc zero) zero le few low = refl
    first_pointer (suc zero) (suc k) le few low =
        absurd
          (omega (arith, pow-le-pow_right {n = 2} (omega arith) {i = 1} {j = suc k} (omega arith)))
    first_pointer (suc (suc c)) k le few low = absurd (omega arith)

ctz_find_lem_example :
    let (out, s) =
      ctz_find small_config ram little_endian
        (linked, empty_cache)
        none
        (blocks (ctz_index small_config 130).0)
        131
        5 in
    SearchEnds small_config ram small_config-IsConfig ram-IsDevice little_endian none tt linked
      (blocks (ctz_index small_config 5).0)
      (ctz_index small_config 5).1
      out
      s
unfolding ram-IsDevice ctz_index popc
ctz_find_lem_example =
    ctz_find_lem small_config ram small_config-IsConfig ram-IsDevice little_endian none tt linked
      blocks 131 5 linked empty_cache (omega arith) linked-IsList (omega arith) (omega arith)
      (omega arith) refl (empty_cache-IsRcache linked)

-- A callback that records the blocks, the last one first.
abbrev record_block : List ℕ → ℕ → Option Error × List ℕ
record_block seen b = (none, b ∷ seen)

linked-IsPaired :
    IsPaired small_config ram small_config-IsConfig ram-IsDevice little_endian none tt linked
      record_block blocks 1
unfolding visible fromle32
linked-IsPaired = record {
  of_device = λ c le. omega arith;
  one = one;
  two = λ c le even. absurd (omega arith);
}
  where
    one :
        (c : ℕ)
        → suc c ≤ 1
        → pointer small_config ram small_config-IsConfig ram-IsDevice little_endian none tt linked
            (blocks (suc c))
            0
          ≡ blocks c
    one zero le = refl
    one (suc c) le = absurd (omega arith)

ctz_traverse_lem_example :
    let (out, s) =
      ctz_traverse small_config ram little_endian record_block
        ([], (linked, empty_cache))
        none
        3
        131 in
    TraverseEnds small_config ram small_config-IsConfig ram-IsDevice little_endian none tt linked
      record_block
      (3 ∷ 2 ∷ [])
      []
      out
      s
unfolding ram-IsDevice
ctz_traverse_lem_example =
    ctz_traverse_lem small_config ram small_config-IsConfig ram-IsDevice little_endian none tt
      linked record_block blocks 1 linked-IsPaired (omega arith) 131 [] linked empty_cache
      (omega arith) last_index refl (empty_cache-IsRcache linked)

abbrev pub log : Mdir
log = record {
  pair = (0, 1);
  rev = 1;
  off = 24;
  etag = 0x20100008;
  count = 1;
  erased = true;
  split = false;
  tail = (0xffffffff, 0xffffffff);
}

dir_getslice_lem_example :
    let (out, s) =
      dir_getslice small_config ram little_endian gstate_zero log
        (mktag 0x7ff 0x3ff 0)
        (mktag 0x201 0 8)
        0
        8
        (numbered, empty_cache) in
    SliceEnds small_config ram small_config-IsConfig ram-IsDevice little_endian 8 numbered out s
unfolding ram-IsDevice
dir_getslice_lem_example =
    dir_getslice_lem small_config ram small_config-IsConfig ram-IsDevice little_endian gstate_zero
      log (mktag 0x7ff 0x3ff 0) (mktag 0x201 0 8) 0 8 numbered empty_cache (omega arith)
      (omega arith) (omega arith) (omega arith) (omega arith) (empty_cache-IsRcache numbered)

abbrev superblock_example : Superblock
superblock_example = record {
  version = 0x00020000;
  block_size = 512;
  block_count = 1024;
  name_max = 255;
  file_max = 2147483647;
  attr_max = 1022;
}

-- An inline file of 20 bytes that has been written up to byte 5.
abbrev inline_file : File
inline_file = record {
  id = 1;
  m = log;
  ctz_head = 0xfffffffe;
  ctz_size = 20;
  flags = 0x120003;
  pos = 5;
  block = 0xfffffffe;
  off = 5;
  cache = empty_cache;
}

abbrev idle : Traversal (Flash (ℕ → ℕ → ℕ))
idle = record { traverse = λ s. (none, [], s) }

abbrev world : World (ℕ → ℕ → ℕ)
world = record {
  flash = record { dev = numbered; pcache = empty_cache; rcache = empty_cache };
  free = record { off = 0; size = 0; i = 0; ack = 4; buffer = 0 ∷ [] };
}

file_flush_inline_example :
    let (out, s) =
      file_flush small_config ram little_endian gstate_zero
        (λ f. idle)
        2147483647
        (world, inline_file) in
    (out ≡ ok 0)
    × (s.0 ≡ world)
    × (s.1.pos ≡ 5)
    × (file_size s.1 ≡ 5)
    × (file_size inline_file ≡ 20)
file_flush_inline_example =
    file_flush_inline small_config ram little_endian gstate_zero (λ f. idle) 2147483647 world
      inline_file refl refl refl
