-- ===== src/Tests/Binding.antt =====
-- The theorems on LittleFileSystem2.cpp at concrete inputs.
use mbed_littlefs.Base.{
  ℕ, ◌+◌, ◌/◌, ◌-◌, ◌*◌, ◌%◌, ◌≤◌, ◌<◌, ◌≡◌, ◌≢◌, ◌⊎◌, refl, arith, ◌&&◌, ltb, leb, if◌then◌else◌,
  ◌==◌, false, List, [], ◌∷◌, length, get_or, none, some, ℤ, pos, negsuc,
}
use mbed_littlefs.Device.{view, IsDevice}
use mbed_littlefs.Bd.View.{length-view}
use mbed_littlefs.Mbed.Callbacks.{BlockDevice, address, driver}
use mbed_littlefs.Mbed.Refinement.{
  IsBlockDevice, IsGeometry, block_bytes, address_bounds, driver-IsDevice,
}
use mbed_littlefs.Mbed.Convert.{Platform}
use mbed_littlefs.Mbed.Codes.{IsPlatform}
use mbed_littlefs.Mbed.FileSystem.{Core, State, configure, defaults, reformat}
use mbed_littlefs.Mbed.Files.{file_open, dir_open, file_close, dir_close}
use mbed_littlefs.Mbed.Lifecycle.{
  Reformats, Opens, reformat-Reformats, file_open-Opens, configure_bounds,
}
use mbed_littlefs.Tests.Ram.{small_config}

-- A block device of 512 bytes in memory.
abbrev write : (ℕ → ℕ) → ℕ → List ℕ → ℕ → ℕ
write mem addr bytes a =
    if leb addr a && ltb a (addr + length bytes) then get_or bytes (a - addr) 0 else mem a

abbrev heap : BlockDevice
heap = record {
  Bd = ℕ → ℕ;
  init = λ mem. (pos 0, mem);
  deinit = λ mem. (pos 0, mem);
  sync = λ mem. (pos 0, mem);
  read = λ mem addr n. (pos 0, view mem addr n, mem);
  program = λ mem addr bytes. (pos 0, write mem addr bytes);
  erase = λ mem addr n. (pos 0, mem);
  get_read_size = λ mem. 2;
  get_program_size = λ mem. 2;
  get_erase_size = λ mem. 128;
  size = λ mem. 512;
}

write_outside :
    (mem : ℕ → ℕ) (addr : ℕ) (bytes : List ℕ) (a : ℕ)
    → (a < addr) ⊎ (addr + length bytes ≤ a)
    → write mem addr bytes a ≡ mem a
write_outside mem addr bytes a outside =
    let missed : (leb addr a && ltb a (addr + length bytes)) ≡ false = ground arith in
    rw missed refl

unfoldable heap-IsBlockDevice : IsBlockDevice heap 512
heap-IsBlockDevice = record {
  bytes = λ mem. mem;
  length-read = λ mem addr n. length-view mem addr n;
  read_bytes = λ mem addr n inside success. refl;
  bytes-read = λ mem addr n. refl;
  bytes-program = λ mem addr bytes a inside outside. write_outside mem addr bytes a outside;
}

small_config-IsGeometry : IsGeometry small_config 512
small_config-IsGeometry = record {
  inside_device = omega arith;
  count_word = omega arith;
  size_word = omega arith;
}

driver-IsDevice_example :
    (device : IsDevice small_config (driver heap small_config)) × (device.content ≡ λ d.
    block_bytes small_config (heap-IsBlockDevice.bytes d))
driver-IsDevice_example =
    driver-IsDevice heap small_config 512 small_config-IsGeometry heap-IsBlockDevice

address_bounds_example :
    (address small_config 2 10 ≡ 2 * 128 + 10)
    × (address small_config 2 10 + 6 ≤ 512)
    × ((other o m : ℕ)
        → other < 4
        → other ≢ 2
        → o + m ≤ 128
        → (address small_config other o + m ≤ address small_config 2 10)
          ⊎ (address small_config 2 10 + 6 ≤ address small_config other o))
address_bounds_example =
    address_bounds small_config 512 small_config-IsGeometry 2 10 6 (omega arith) (omega arith)

abbrev newlib : Platform
newlib = record {
  eio = 5;
  enoent = 2;
  eexist = 17;
  enotdir = 20;
  eisdir = 21;
  einval = 22;
  enospc = 28;
  enomem = 12;
  eilseq = 138;
  enodev = 19;
  o_rdonly = 0;
  o_wronly = 1;
  o_rdwr = 2;
  o_creat = 0x200;
  o_excl = 0x800;
  o_trunc = 0x400;
  o_append = 0x8;
  seek_set = 0;
  seek_cur = 1;
  seek_end = 2;
  s_irwxu = 0x1c0;
  s_irwxg = 0x38;
  s_irwxo = 7;
  s_ifdir = 0x4000;
  s_ifreg = 0x8000;
  dt_dir = 4;
  dt_reg = 8;
  dt_unknown = 0;
}

newlib-IsPlatform : IsPlatform newlib
newlib-IsPlatform = record {
  eio = omega arith;
  enoent = omega arith;
  eexist = omega arith;
  enotdir = omega arith;
  eisdir = omega arith;
  einval = omega arith;
  enospc = omega arith;
  enomem = omega arith;
  eilseq = omega arith;
  enodev = omega arith;
}

-- lfs2.c with a memory that counts its calls; the device 7 does not mount.
abbrev counting : ℕ → ℤ × ℕ
counting m = (pos 0, m + 1)

abbrev counter : Core
counter = record {
  Memory = ℕ;
  bd_init = λ bd. counting;
  bd_deinit = λ bd. counting;
  get_read_size = λ bd m. 2;
  get_program_size = λ bd m. 2;
  get_erase_size = λ bd m. 128;
  bd_size = λ bd m. 512;
  mount = λ bd cfg m. (if bd == 7 then negsuc 83 else pos 0, m + 1);
  unmount = counting;
  format = λ bd cfg. counting;
  remove = λ name. counting;
  rename = λ old new. counting;
  mkdir = λ name. counting;
  stat = λ name m. ((pos 0, record { kind = 1; size = 3; name = name }), m + 1);
  fs_size = λ m. (pos 2, m + 1);
  file_open = λ f path flags m. (if flags == 0 then negsuc 21 else pos 0, m + 1);
  file_close = λ f. counting;
  file_read = λ f len m. ((pos 0, []), m + 1);
  file_write = λ f bytes m. (pos (length bytes), m + 1);
  file_sync = λ f. counting;
  file_seek = λ f offset whence. counting;
  file_tell = λ f. counting;
  file_size = λ f. counting;
  file_truncate = λ f size. counting;
  dir_open = λ d path. counting;
  dir_close = λ d. counting;
  dir_read = λ d m. ((pos 0, record { kind = 0; size = 0; name = [] }), m + 1);
  dir_seek = λ d offset. counting;
  dir_tell = λ d. counting;
  dir_rewind = λ d. counting;
}

-- A file system with the device 3 mounted and one object open.
abbrev mounted : State counter newlib
mounted = record {
  memory = 0;
  config = defaults 128 100 16 8;
  bd = some 3;
  locks = 0;
  live = 40 ∷ [];
  fresh = 41;
}

reformat-Reformats_example :
    Reformats counter newlib newlib-IsPlatform (some 3) 0 (reformat counter newlib none mounted)
reformat-Reformats_example = reformat-Reformats counter newlib newlib-IsPlatform none mounted

file_open-Opens_example :
    Opens counter newlib newlib-IsPlatform none mounted
      (file_open counter newlib none [] 0x602 mounted)
    × Opens counter newlib newlib-IsPlatform none mounted (dir_open counter newlib none [] mounted)
    × ((f : ℕ) (rest : List ℕ) (open_state : State counter newlib)
        → open_state.live ≡ f ∷ rest
        → ((file_close counter newlib f open_state).1.live ≡ rest)
          × ((dir_close counter newlib f open_state).1.live ≡ rest))
file_open-Opens_example = file_open-Opens counter newlib newlib-IsPlatform none [] 0x602 mounted

configure_bounds_example :
    let derived = configure (defaults 64 100 16 16) 2 32 128 512 in
    IsGeometry derived 512
    × (128 ≤ derived.block_size)
    × (32 ≤ derived.cache_size)
    × (16 % 8 ≡ 0 → derived.lookahead_size % 8 ≡ 0)
    × (derived.lookahead_size ≤ 16)
    × (derived.lookahead_size ≤ 8 * ((derived.block_count + 63) / 64))
configure_bounds_example =
    configure_bounds (defaults 64 100 16 16) 2 32 128 512 (omega arith) (omega arith) (omega arith)
