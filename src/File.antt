-- ===== src/File.antt =====
-- Open files in littlefs/lfs2.c: `lfs2_file_t` and `lfs2_file_relocate`, over the skip-lists, the
-- caching operations and the allocator.
pub mod Transfer
pub mod Write
use mbed_littlefs.Base.{
  ℕ, zero, suc, ◌+◌, ◌-◌, ◌*◌, ◌/◌, ◌^◌, min, Bool, true, false, not, ◌==◌, if◌then◌else◌, List, [],
  ◌∷◌, ◌++◌, Option, none, some, length, take, drop, Error, corrupt, Outcome, ok, err, abort,
  out_of_fuel, u32, sub32, bit_and, bit_or,
}
use mbed_littlefs.Util.{ByteOrder}
use mbed_littlefs.Tag.{mktag, type_inlinestruct}
use mbed_littlefs.Gstate.{Gstate}
use mbed_littlefs.Device.{Config, Driver, Cache}
use mbed_littlefs.Bd.{overwrite, cache_drop, cache_zero, bd_read}
use mbed_littlefs.Bd.Prog.{Flash, bd_prog, bd_erase}
use mbed_littlefs.Alloc.{Free, Traversal, alloc}
use mbed_littlefs.Store.{bind}
use mbed_littlefs.Dir.{Mdir, dir_getread}

-- `LFS2_F_DIRTY`, `LFS2_F_WRITING`, `LFS2_F_READING`, `LFS2_F_ERRED`, `LFS2_F_INLINE`.
abbrev pub f_dirty : ℕ
f_dirty = 0x010000

abbrev pub f_writing : ℕ
f_writing = 0x020000

abbrev pub f_reading : ℕ
f_reading = 0x040000

abbrev pub f_erred : ℕ
f_erred = 0x080000

abbrev pub f_inline : ℕ
f_inline = 0x100000

-- `flags & flag`.
abbrev pub has : ℕ → ℕ → Bool
has flags flag = not (bit_and flags flag == 0)

-- `flags &= ~flag`.
abbrev pub clear : ℕ → ℕ → ℕ
clear flags flag = bit_and flags (0xffffffff - flag)

-- `lfs2_file_t`, without its place in the list of open files and its configuration.
pub record File : Type 0 where
  pub id : ℕ
  pub m : Mdir
  pub ctz_head : ℕ
  pub ctz_size : ℕ
  pub flags : ℕ
  pub pos : ℕ
  pub block : ℕ
  pub off : ℕ
  pub cache : Cache

-- The device, the two caches of `lfs2_t` and the allocator.
pub record World (D : Type 0) : Type 0 where
  pub flash : Flash D
  pub free : Free

-- How a pass over a new block ends: with what the function returns, or at `relocate`.
pub data Pass : Type 0 where
  finished : ℕ → Pass
  retry : Pass

-- `if (err) { if (err == LFS2_ERR_CORRUPT) goto relocate; return err; }`.
abbrev pub or_retry :
    {S : Type 0} → Outcome (Unit {0}) × S → (S → Outcome Pass × S) → Outcome Pass × S
or_retry (ok _, s) next = next s
or_retry (err corrupt, s) next = (ok retry, s)
or_retry (err e, s) next = (err e, s)
or_retry (abort, s) next = (abort, s)
or_retry (out_of_fuel, s) next = (out_of_fuel, s)

-- What the parts of a file operation share: the global state, and the traversal of the blocks in use,
-- which also sees the open file.
module _ (cfg : Config) (drv : Driver) (host : ByteOrder) (gstate : Gstate)
    (t : File → Traversal (Flash (drv.Dev))) where
  open drv use {Dev}

  -- The byte at `i` of the block of the file, with what the reading function returns.
  unfoldable pub relocate_byte : ℕ → World Dev × File → Outcome (ℕ × List ℕ) × (World Dev × File)
  relocate_byte i (w, f) =
      let s = w.flash in
      if has f.flags f_inline
      then (let (out, read) =
            dir_getread cfg drv host gstate f.m none (f.off - i) (mktag 0xfff 0x1ff 0)
              (mktag type_inlinestruct f.id 0) ((s.dev, s.rcache), f.cache) i 1 in
          (
            out,
            (
              record w { flash = record s { dev = read.0.0; rcache = read.0.1 } },
              record f { cache = read.1 },
            ),
          ))
      else (let (out, dev', rcache') =
            bd_read cfg drv s.dev (some f.cache) s.rcache (f.off - i) f.block i 1 in
          bind (out, (record w { flash = record s { dev = dev'; rcache = rcache' } }, f))
            (λ bytes s'. (ok (0, bytes), s')))

  -- The copy into the new block from `i` on, `n` bytes.
  unfoldable pub relocate_copy : ℕ → ℕ → ℕ → World Dev × File → Outcome Pass × (World Dev × File)
  relocate_copy nblock zero i s = (ok (finished 0), s)
  relocate_copy nblock (suc n) i s = bind (relocate_byte i s) (λ r s1. elim (r.0 == 0) [
    | false ↦ (ok (finished r.0), s1)
    | true ↦
        let (out, flash') = bd_prog cfg drv true s1.0.flash nblock i r.1 in
        or_retry (out, (record (s1.0) { flash = flash' }, s1.1)) (relocate_copy nblock n (i + 1))
  ])

  -- The file takes over the program cache, which has the end of the copy.
  unfoldable pub relocate_end : ℕ → World Dev × File → World Dev × File
  relocate_end nblock (w, f) =
      let pc = w.flash.pcache in
      (
        record w { flash = record (w.flash) { pcache = cache_zero cfg pc } },
        record f {
          cache = record {
            block = pc.block;
            off = pc.off;
            size = pc.size;
            buffer = overwrite f.cache.buffer 0 (take cfg.cache_size pc.buffer);
          };
          block = nblock;
          flags = bit_or (clear f.flags f_inline) f_writing;
        },
      )

  unfoldable pub relocate_block : ℕ → World Dev × File → Outcome Pass × (World Dev × File)
  relocate_block nblock (w, f) =
      let (out, dev') = bd_erase cfg drv w.flash.dev nblock in
      or_retry (out, (record w { flash = record (w.flash) { dev = dev' } }, f))
        (λ s. bind (relocate_copy nblock s.1.off 0 s) (λ pass s1. elim pass [
          | retry ↦ (ok retry, s1)
          | finished r ↦
              if r == 0 then (ok (finished 0), relocate_end nblock s1) else (ok (finished r), s1)
        ]))

  -- The loop of `lfs2_file_relocate`, with fuel. The result is what the function returns.
  unfoldable pub relocate_loop : ℕ → World Dev × File → Outcome ℕ × (World Dev × File)
  relocate_loop zero s = (out_of_fuel, s)
  relocate_loop (suc fuel) (w, f) =
      let (out, flash1, free1) = alloc cfg (t f) w.flash w.free in
      bind (out, (record { flash = flash1; free = free1 }, f))
        (λ nblock s1. bind (relocate_block nblock s1) (λ pass s2. elim pass [
          | finished r ↦ (ok r, s2)
          | retry ↦
              let s = s2.0.flash in
              relocate_loop fuel
                (record (s2.0) { flash = record s { pcache = cache_drop s.pcache } }, s2.1)
        ]))

  -- Each pass takes a block of those that are left.
  unfoldable pub file_relocate : World Dev × File → Outcome ℕ × (World Dev × File)
  file_relocate s = relocate_loop (s.0.free.ack + 1) s
