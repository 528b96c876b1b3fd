-- ===== src/File/Write.antt =====
-- Writing and flushing an open file, and its position, in littlefs/lfs2.c: `lfs2_file_write`,
-- `lfs2_file_flush`, `lfs2_file_read`, `lfs2_file_seek`, `lfs2_file_truncate`, `lfs2_file_rewind`.
pub mod Inline
use mbed_littlefs.Base.{
  ℕ, zero, suc, ◌+◌, ◌-◌, ◌*◌, ◌/◌, ◌^◌, min, max, Bool, true, false, not, ◌&&◌, ◌||◌, ltb, leb,
  ◌==◌, if◌then◌else◌, List, [], ◌∷◌, ◌++◌, Option, none, some, length, take, drop, get_or, Error,
  badf, fbig, inval, corrupt, Outcome, ok, err, abort, out_of_fuel, u32, sub32, bit_and, bit_or,
}
use mbed_littlefs.Util.{ByteOrder}
use mbed_littlefs.Gstate.{Gstate}
use mbed_littlefs.Device.{Config, Driver, Cache, block_null}
use mbed_littlefs.Bd.{cache_drop}
use mbed_littlefs.Bd.Prog.{Flash, bd_prog, bd_flush}
use mbed_littlefs.Alloc.{Free, Traversal, alloc_ack}
use mbed_littlefs.Store.{bind}
use mbed_littlefs.Dir.{Mdir}
use mbed_littlefs.File.{
  File, World, Pass, finished, retry, or_retry, has, clear, f_dirty, f_writing, f_reading, f_erred,
  f_inline, file_relocate,
}
use mbed_littlefs.File.Transfer.{
  State, erred, file_find, file_read_flushed, file_size, write_locate,
}

-- `LFS2_SEEK_SET`, `LFS2_SEEK_CUR` and `LFS2_SEEK_END`.
pub data Whence : Type 0 where
  seek_set seek_cur seek_end : Whence

module _ (cfg : Config) (drv : Driver) (host : ByteOrder) (gstate : Gstate)
    (t : File → Traversal (Flash (drv.Dev))) (file_max : ℕ) where
  open drv use {Dev}

  abbrev St : Type 0
  St = State cfg drv host gstate t file_max

  -- A call with the file's cache as program cache.
  abbrev over_cache : (Flash Dev → Outcome (Unit {0}) × Flash Dev) → St → Outcome (Unit {0}) × St
  over_cache call (w, f) =
      let (out, s) = call (record (w.flash) { pcache = f.cache }) in
      (
        out,
        (record w { flash = record s { pcache = w.flash.pcache } }, record f { cache = s.pcache }),
      )

  abbrev mark_erred : St → St
  mark_erred (w, f) = (w, record f { flags = bit_or f.flags f_erred })

  -- Program into the block of the file, and relocate it as long as that finds bad blocks, with fuel.
  -- The result is what the function returns early, or 0.
  unfoldable pub write_prog : List ℕ → ℕ → St → Outcome ℕ × St
  write_prog bytes zero s = (out_of_fuel, s)
  write_prog bytes (suc fuel) s =
      bind
        (erred cfg drv host gstate t file_max (
          or_retry (over_cache (λ flash. bd_prog cfg drv true flash s.1.block s.1.off bytes) s)
            (λ s1. (ok (finished 0), s1))))
        (λ pass s1. elim pass [
          | finished r ↦ (ok r, s1)
          | retry ↦
              bind (erred cfg drv host gstate t file_max (file_relocate cfg drv host gstate t s1))
                (λ r s2. elim (r == 0) [
                  | true ↦ write_prog bytes fuel s2
                  | false ↦ (ok r, mark_erred s2)
                ])
        ])

  -- The loop of `lfs2_file_write`, with fuel.
  unfoldable pub write_loop : ℕ → List ℕ → St → Outcome ℕ × St
  write_loop zero bytes s = (out_of_fuel, s)
  write_loop (suc fuel) bytes s = elim (length bytes == 0) [
    | true ↦ (ok 0, s)
    | false ↦ bind (write_locate cfg drv host gstate t file_max s) (λ _ s1.
        let diff = min (length bytes) (sub32 cfg.block_size s1.1.off) in
        bind (write_prog (take diff bytes) (s1.0.free.ack + 1) s1) (λ r s2. elim (r == 0) [
          | false ↦ (ok r, s2)
          | true ↦ write_loop fuel (drop diff bytes) (
            record (s2.0) { free = alloc_ack cfg s2.0.free },
            record (s2.1) { pos = u32 (s2.1.pos + diff); off = u32 (s2.1.off + diff) },
          )
        ]))
  ]

  -- The inline data gets a block of its own where it no longer fits.
  unfoldable pub write_evict : ℕ → St → Outcome ℕ × St
  write_evict n (w, f) =
      if has f.flags f_inline
        && ltb (min 1022 (min cfg.cache_size (cfg.block_size / 8)))
            (max (u32 (f.pos + n)) f.ctz_size)
      then bind
          (erred cfg drv host gstate t file_max (
            file_relocate cfg drv host gstate t
              (record w { free = alloc_ack cfg w.free }, record f { off = f.pos })))
          (λ r s. if r == 0 then (ok 0, s) else (ok r, mark_erred s))
      else (ok 0, (w, f))

  -- From the eviction on.
  unfoldable pub write_body : List ℕ → St → Outcome ℕ × St
  write_body bytes s = bind (write_evict (length bytes) s) (λ r s1. elim (r == 0) [
    | false ↦ (ok r, s1)
    | true ↦ bind (write_loop (length bytes + 1) bytes s1) (λ r2 s2.
        if r2 == 0
        then (ok (length bytes), (s2.0, record (s2.1) { flags = clear s2.1.flags f_erred }))
        else (ok r2, s2))
  ])

  -- `file->flags & LFS2_O_APPEND`: to the end of the file.
  unfoldable pub append_pos : File → File
  append_pos f =
      if has f.flags 0x0800 && ltb f.pos f.ctz_size then record f { pos = f.ctz_size } else f

  -- A write to a file with nothing to drop or to fill.
  unfoldable pub write_plain : List ℕ → St → Outcome ℕ × St
  write_plain bytes (w, f) =
      let g = append_pos f in
      if ltb file_max (u32 (g.pos + length bytes))
      then (err fbig, (w, g))
      else write_body bytes (w, g)

  -- Zeros up to `target`, with fuel. The first one makes the file one that is being written.
  unfoldable pub fill_loop : ℕ → ℕ → St → Outcome (Unit {0}) × St
  fill_loop target zero s = (out_of_fuel, s)
  fill_loop target (suc fuel) s = elim (ltb s.1.pos target) [
    | false ↦ (ok tt, s)
    | true ↦ bind (write_plain (0 ∷ []) s) (λ _ s1. fill_loop target fuel s1)
  ]

  -- A write after reads have been dropped.
  unfoldable pub write_filled : List ℕ → St → Outcome ℕ × St
  write_filled bytes (w, f) =
      let g = append_pos f in
      if ltb file_max (u32 (g.pos + length bytes))
      then (err fbig, (w, g))
      else if not (has g.flags f_writing) && ltb g.ctz_size g.pos
      then bind (fill_loop g.pos (g.pos - g.ctz_size + 1) (w, record g { pos = g.ctz_size }))
          (λ _ s. write_body bytes s)
      else write_body bytes (w, g)

  -- The file as it was before the writes, to read what lies behind them.
  unfoldable pub original : File → Cache → File
  original f cache = record {
    id = 0;
    m = record {
      pair = (0, 0);
      rev = 0;
      off = 0;
      etag = 0;
      count = 0;
      erased = false;
      split = false;
      tail = (0, 0);
    };
    ctz_head = f.ctz_head;
    ctz_size = f.ctz_size;
    flags = 1;
    pos = f.pos;
    block = 0;
    off = 0;
    cache = cache;
  }

  -- The read cache is dropped with the copy of it, if it holds a block.
  unfoldable pub drop_both : World Dev → File → World Dev × File
  drop_both w orig =
      if not (w.flash.rcache.block == block_null)
      then (
        record w { flash = record (w.flash) { rcache = cache_drop w.flash.rcache } },
        record orig { cache = cache_drop orig.cache },
      )
      else (w, orig)

  -- Copy what lies behind the position, a byte at a time, with fuel.
  unfoldable pub copy_rest : ℕ → File → St → Outcome (Unit {0}) × St
  copy_rest zero orig s = (out_of_fuel, s)
  copy_rest (suc fuel) orig (w, f) = elim (ltb f.pos f.ctz_size) [
    | false ↦ (ok tt, (w, f))
    | true ↦
        let (out, s1) = file_read_flushed cfg drv host gstate t file_max 1 (w, orig) in
        bind (out, (s1.0, f))
          (λ r s2.
            bind (write_plain (get_or r.1 0 0 ∷ []) s2)
              (λ _ s3. let (w4, orig4) = drop_both s3.0 s1.1 in copy_rest fuel orig4 (w4, s3.1)))
  ]

  -- Write out the cache, and relocate the block as long as that finds bad blocks, with fuel.
  unfoldable pub flush_retry : ℕ → St → Outcome ℕ × St
  flush_retry zero s = (out_of_fuel, s)
  flush_retry (suc fuel) s =
      bind (or_retry (over_cache (bd_flush cfg drv true) s) (λ s1. (ok (finished 0), s1)))
        (λ pass s1. elim pass [
          | finished r ↦ (ok r, s1)
          | retry ↦
              bind (file_relocate cfg drv host gstate t s1)
                (λ r s2. elim (r == 0) [ true ↦ flush_retry fuel s2 | false ↦ (ok r, s2) ])
        ])

  -- The writes of the file, without their record in it.
  unfoldable pub flush_writes : St → Outcome ℕ × St
  flush_writes (w, f) =
      if not (has f.flags f_inline)
      then bind
          (copy_rest (f.ctz_size - f.pos + 1) (original f w.flash.rcache)
            (record w { flash = record (w.flash) { rcache = cache_drop w.flash.rcache } }, f))
          (λ _ s. flush_retry (s.0.free.ack + 1) s)
      else (ok 0, (w, record f { ctz_size = max f.pos f.ctz_size }))

  -- Forget the reads of the file.
  unfoldable pub drop_reads : File → File
  drop_reads f =
      if has f.flags f_reading
      then record f {
        cache = if not (has f.flags f_inline) then cache_drop f.cache else f.cache;
        flags = clear f.flags f_reading;
      }
      else f

  -- The record of the writes, at the position `pos` that the caller had.
  unfoldable pub flush_update : ℕ → File → File
  flush_update pos f = record f {
    ctz_head = f.block;
    ctz_size = f.pos;
    flags = bit_or (clear f.flags f_writing) f_dirty;
    pos = pos;
  }

  -- `lfs2_file_flush`: what it returns.
  unfoldable pub file_flush : St → Outcome ℕ × St
  file_flush (w, f) =
      let g = drop_reads f in
      if has g.flags f_writing
      then bind (flush_writes (w, g))
          (λ r s. if r == 0 then (ok 0, (s.0, flush_update g.pos s.1)) else (ok r, s))
      else (ok 0, (w, g))

  -- A flush before the rest of an operation, if there is anything to flush.
  abbrev flush_first : {A : Type 0} → Bool → (ℕ → A) → St → (St → Outcome A × St) → Outcome A × St
  flush_first needed early s next = elim needed [
    | false ↦ next s
    | true ↦
        bind (file_flush s) (λ r s1. elim (r == 0) [ true ↦ next s1 | false ↦ (ok (early r), s1) ])
  ]

  unfoldable pub file_read : ℕ → St → Outcome (ℕ × List ℕ) × St
  file_read size s =
      if bit_and s.1.flags 3 == 2
      then (err badf, s)
      else flush_first (has s.1.flags f_writing) (λ r. (r, [])) s
          (file_read_flushed cfg drv host gstate t file_max size)

  unfoldable pub file_write : List ℕ → St → Outcome ℕ × St
  file_write bytes s =
      if bit_and s.1.flags 3 == 1
      then (err badf, s)
      else flush_first (has s.1.flags f_reading) (λ r. r) s (write_filled bytes)

  -- The new position of a seek by `off`, a word.
  unfoldable pub seek_pos : Whence → ℕ → File → ℕ
  seek_pos seek_set off f = off
  seek_pos seek_cur off f = u32 (f.pos + off)
  seek_pos seek_end off f = u32 (f.ctz_size + off)

  unfoldable pub file_seek : ℕ → Whence → St → Outcome ℕ × St
  file_seek off whence s =
      flush_first true (λ r. r) s
        (λ s1.
          let npos = seek_pos whence off s1.1 in
          if ltb file_max npos
          then (err inval, s1)
          else (ok npos, (s1.0, record (s1.1) { pos = npos })))

  unfoldable pub file_rewind : St → Outcome ℕ × St
  file_rewind s = bind (file_seek 0 seek_set s) (λ _ s1. (ok 0, s1))

  -- The zeros of `lfs2_file_truncate` up to `size`, with fuel.
  unfoldable pub truncate_fill : ℕ → ℕ → St → Outcome (Unit {0}) × St
  truncate_fill size zero s = (out_of_fuel, s)
  truncate_fill size (suc fuel) s = elim (ltb s.1.pos size) [
    | false ↦ (ok tt, s)
    | true ↦ bind (file_write (0 ∷ []) s) (λ _ s1. truncate_fill size fuel s1)
  ]

  unfoldable pub file_truncate : ℕ → St → Outcome ℕ × St
  file_truncate size s =
      let oldsize = file_size s.1 in
      let pos = s.1.pos in
      if bit_and s.1.flags 3 == 1
      then (err badf, s)
      else if ltb size oldsize
      then flush_first true (λ r. r) s
          (λ s1. bind (file_find cfg drv host gstate t file_max size s1) (λ at s2. (
            ok 0,
            (
              s2.0,
              record (s2.1) { ctz_head = at.0; ctz_size = size; flags = bit_or s2.1.flags f_dirty },
            ),
          )))
      else if ltb oldsize size
      then bind (if not (pos == oldsize) then file_seek 0 seek_end s else (ok 0, s)) (λ _ s1.
        bind (truncate_fill size (size - s1.1.pos + 1) s1)
          (λ _ s2. bind (file_seek pos seek_set s2) (λ _ s3. (ok 0, s3))))
      else (ok 0, s)
