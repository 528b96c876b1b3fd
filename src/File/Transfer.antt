-- ===== src/File/Transfer.antt =====
-- The blocks and bytes under an open file in littlefs/lfs2.c: the loop of `lfs2_file_read`, where
-- `lfs2_file_write` goes on, `lfs2_file_size` and `lfs2_file_tell`.
use mbed_littlefs.Base.{
  ℕ, zero, suc, ◌+◌, ◌-◌, min, max, true, false, not, ◌&&◌, ◌||◌, ltb, leb, ◌==◌, if◌then◌else◌,
  List, [], ◌++◌, none, Outcome, ok, err, abort, out_of_fuel, u32, sub32, bit_or,
}
use mbed_littlefs.Util.{ByteOrder}
use mbed_littlefs.Tag.{mktag, type_inlinestruct}
use mbed_littlefs.Gstate.{Gstate}
use mbed_littlefs.Device.{Config, Driver, Cache}
use mbed_littlefs.Bd.{cache_zero, bd_read}
use mbed_littlefs.Bd.Prog.{Flash, block_inline}
use mbed_littlefs.Alloc.{Traversal, alloc_ack}
use mbed_littlefs.Store.{bind}
use mbed_littlefs.Ctz.{ctz_find, ctz_extend}
use mbed_littlefs.Dir.{dir_getread}
use mbed_littlefs.File.{File, World, has, f_writing, f_reading, f_erred, f_inline}

-- `lfs2_file_size`.
unfoldable pub file_size : File → ℕ
file_size f = if has f.flags f_writing then max f.pos f.ctz_size else f.ctz_size

-- `lfs2_file_tell`.
unfoldable pub file_tell : File → ℕ
file_tell f = f.pos

module _ (cfg : Config) (drv : Driver) (host : ByteOrder) (gstate : Gstate)
    (t : File → Traversal (Flash (drv.Dev))) (file_max : ℕ) where
  open drv use {Dev}

  abbrev pub State : Type 0
  State = World Dev × File

  -- The block device under the world, with `dev` and `rcache` as they are after a call.
  abbrev pub with_dev : World Dev → Dev → Cache → World Dev
  with_dev w dev rcache = record w { flash = record (w.flash) { dev = dev; rcache = rcache } }

  -- Set LFS2_F_ERRED where a call has failed.
  abbrev pub erred : {A : Type 0} → Outcome A × State → Outcome A × State
  erred (err e, (w, f)) = (err e, (w, record f { flags = bit_or f.flags f_erred }))
  erred (ok a, s) = (ok a, s)
  erred (abort, s) = (abort, s)
  erred (out_of_fuel, s) = (out_of_fuel, s)

  -- `lfs2_ctz_find(lfs2, NULL, &file->cache, ...)`.
  unfoldable pub file_find : ℕ → State → Outcome (ℕ × ℕ) × State
  file_find pos (w, f) =
      let (out, s) = ctz_find cfg drv host (w.flash.dev, f.cache) none f.ctz_head f.ctz_size pos in
      (out, (with_dev w s.0 w.flash.rcache, record f { cache = s.1 }))

  -- The block to read from.
  unfoldable pub read_locate : State → Outcome (Unit {0}) × State
  read_locate (w, f) =
      if not (has f.flags f_reading) || f.off == cfg.block_size
      then (if not (has f.flags f_inline)
          then bind (file_find f.pos (w, f)) (λ at s. (
            ok tt,
            (s.0, record (s.1) { block = at.0; off = at.1; flags = bit_or s.1.flags f_reading }),
          ))
          else (
            ok tt,
            (w, record f { block = block_inline; off = f.pos; flags = bit_or f.flags f_reading }),
          ))
      else (ok tt, (w, f))

  -- Read `diff` bytes of the block, with what the reading function returns.
  unfoldable pub read_block : ℕ → State → Outcome (ℕ × List ℕ) × State
  read_block diff (w, f) =
      if has f.flags f_inline
      then (let (out, s) =
            dir_getread cfg drv host gstate f.m none cfg.block_size (mktag 0xfff 0x1ff 0)
              (mktag type_inlinestruct f.id 0) ((w.flash.dev, w.flash.rcache), f.cache) f.off
              diff in
          (out, (with_dev w s.0.0 s.0.1, record f { cache = s.1 })))
      else (let (out, dev', cache') =
            bd_read cfg drv w.flash.dev none f.cache cfg.block_size f.block f.off diff in
          bind (out, (with_dev w dev' w.flash.rcache, record f { cache = cache' }))
            (λ bytes s. (ok (0, bytes), s)))

  -- The loop of `lfs2_file_read` over `nsize` bytes, with fuel: what it returns early, or 0, and the
  -- bytes.
  unfoldable pub file_read_loop : ℕ → ℕ → State → Outcome (ℕ × List ℕ) × State
  file_read_loop zero nsize s = (out_of_fuel, s)
  file_read_loop (suc fuel) nsize s = elim (nsize == 0) [
    | true ↦ (ok (0, []), s)
    | false ↦ bind (read_locate s) (λ _ s1.
        let diff = min nsize (sub32 cfg.block_size s1.1.off) in
        bind (read_block diff s1) (λ r s2. elim (r.0 == 0) [
          | false ↦ (ok (r.0, []), s2)
          | true ↦
              bind
                (file_read_loop fuel (nsize - diff) (
                  s2.0,
                  record (s2.1) { pos = u32 (s2.1.pos + diff); off = u32 (s2.1.off + diff) },
                ))
                (λ rest s3. (ok (rest.0, r.1 ++ rest.1), s3))
        ]))
  ]

  -- `lfs2_file_read` of a file with no writes to flush: what it returns, and the bytes.
  unfoldable pub file_read_flushed : ℕ → State → Outcome (ℕ × List ℕ) × State
  file_read_flushed size (w, f) =
      if leb f.ctz_size f.pos
      then (ok (0, []), (w, f))
      else (let n = min size (f.ctz_size - f.pos) in
          bind (file_read_loop (n + 1) n (w, f))
            (λ r s. (ok (if r.0 == 0 then n else r.0, r.1), s)))

  -- The block to write to.
  unfoldable pub write_locate : State → Outcome (Unit {0}) × State
  write_locate (w, f) =
      if not (has f.flags f_writing) || f.off == cfg.block_size
      then (if not (has f.flags f_inline)
          then bind (write_from (w, f)) (λ _ s.
            let g = s.1 in
            let (out, s2) =
              ctz_extend cfg drv host (t g) g.block g.pos
                (record (s.0.flash) { pcache = g.cache }, alloc_ack cfg s.0.free) in
            bind
              (erred (
                out,
                (
                  record { flash = record (s2.0) { pcache = s.0.flash.pcache }; free = s2.1 },
                  record g { cache = s2.0.pcache },
                ),
              ))
              (λ at s3. (
                ok tt,
                (
                  s3.0,
                  record (s3.1) { block = at.0; off = at.1; flags = bit_or s3.1.flags f_writing },
                ),
              )))
          else (
            ok tt,
            (w, record f { block = block_inline; off = f.pos; flags = bit_or f.flags f_writing }),
          ))
      else (ok tt, (w, f))
    where
      write_from : State → Outcome (Unit {0}) × State
      write_from (w, f) =
          if not (has f.flags f_writing) && ltb 0 f.pos
          then bind (erred (file_find (f.pos - 1) (w, f))) (λ at s. (
            ok tt,
            (s.0, record (s.1) { block = at.0; off = at.1; cache = cache_zero cfg s.1.cache }),
          ))
          else (ok tt, (w, f))
