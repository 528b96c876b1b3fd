-- ===== src/Bd.antt =====
-- The caching block device operations of littlefs/lfs2.c (lines 22 to 237).
pub mod View
pub mod Read
pub mod ReadLoop
pub mod Prog
pub mod Stale
pub mod Length
use mbed_littlefs.Base.{
  ℕ, zero, suc, ◌+◌, ◌-◌, ◌*◌, ◌%◌, ◌^◌, ◌<◌, ◌≤◌, min, Bool, true, false, not, ◌&&◌, ◌||◌, ltb,
  leb, ◌==◌, if◌then◌else◌, List, [], ◌∷◌, ◌++◌, Option, none, some, length, get_or, take, drop,
  replicate, Error, Outcome, ok, err, abort, out_of_fuel, u32, sub32,
}
use mbed_littlefs.Base.{corrupt}
use mbed_littlefs.Util.{aligndown, alignup}
use mbed_littlefs.Device.{Config, Driver, Cache, block_null}

-- `memcpy(&buffer[i], bytes, ...)`.
abbrev pub overwrite : List ℕ → ℕ → List ℕ → List ℕ
overwrite buffer i bytes = take i buffer ++ (bytes ++ drop (i + length bytes) buffer)

unfoldable pub cache_drop : Cache → Cache
cache_drop rcache = record rcache { block = block_null }

unfoldable pub cache_zero : Config → Cache → Cache
cache_zero cfg pcache = record pcache {
  buffer = overwrite pcache.buffer 0 (replicate cfg.prog_size 0xff);
  block = block_null;
}

-- `block == c->block && off < c->off + c->size`.
abbrev pub touches : Cache → ℕ → ℕ → Bool
touches c block off = block == c.block && ltb off (u32 (c.off + c.size))

-- The bytes of a cache from `off` on, at most `n`.
abbrev pub hit : Cache → ℕ → ℕ → List ℕ
hit c off n = take n (drop (off - c.off) c.buffer)

module _ (cfg : Config) (drv : Driver) where
  open drv use {Dev, read, prog, erase, sync}

  -- What one round of the loop in `lfs2_bd_read` does: copy bytes to the caller, load the read
  -- cache, or stop.
  pub data Round : Type 0 where
    copied : List ℕ → ℕ → Dev → Round
    loaded : Dev → Cache → Round
    failed : Error → Dev → Cache → Round
    assertion : Round

  -- The read that bypasses the caches, of `diff` bytes.
  unfoldable pub bypass : Dev → Cache → ℕ → ℕ → ℕ → Round
  bypass dev rcache block off diff =
      let (status, bytes, dev') = read dev block off diff in
      elim status [ none ↦ copied bytes diff dev' | some e ↦ failed e dev' rcache ]

  -- The read cache after its fields are set for a load.
  unfoldable pub load_range : Cache → ℕ → ℕ → ℕ → Cache
  load_range rcache hint block off =
      let start = aligndown off cfg.read_size in
      record rcache {
        block = block;
        off = start;
        size =
            min (alignup (u32 (off + hint)) cfg.read_size)
              (min (sub32 cfg.block_size start) cfg.cache_size);
      }

  -- On an error the fields stay set, over whatever the callback left in the buffer.
  unfoldable pub load : Dev → Cache → ℕ → ℕ → ℕ → Round
  load dev rcache hint block off =
      if ltb block cfg.block_count
      then (let rc = load_range rcache hint block off in
          let (status, bytes, dev') = read dev rc.block rc.off rc.size in
          let rc' = record rc { buffer = overwrite rc.buffer 0 bytes } in
          elim status [ none ↦ loaded dev' rc' | some e ↦ failed e dev' rc' ])
      else assertion

  -- After the program cache: `diff` is what may be taken before that begins.
  unfoldable pub read_round_rcache : Dev → Cache → ℕ → ℕ → ℕ → ℕ → ℕ → Round
  read_round_rcache dev rcache hint block off size diff =
      if touches rcache block off && leb rcache.off off
      then (let n = min diff (rcache.size - (off - rcache.off)) in copied (hit rcache off n) n dev)
      else (let diff' = if touches rcache block off then min diff (rcache.off - off) else diff in
          if leb hint size && (off % cfg.read_size == 0 && leb cfg.read_size size)
          then bypass dev rcache block off (aligndown diff' cfg.read_size)
          else load dev rcache hint block off)

  unfoldable pub read_round : Dev → Option Cache → Cache → ℕ → ℕ → ℕ → ℕ → Round
  read_round dev none rcache hint block off size =
      read_round_rcache dev rcache hint block off size size
  read_round dev (some pcache) rcache hint block off size =
      if touches pcache block off && leb pcache.off off
      then (let n = min size (pcache.size - (off - pcache.off)) in copied (hit pcache off n) n dev)
      else read_round_rcache dev rcache hint block off size
          (if touches pcache block off then min size (pcache.off - off) else size)

  abbrev pub prepend : List ℕ → Outcome (List ℕ) → Outcome (List ℕ)
  prepend xs (ok ys) = ok (xs ++ ys)
  prepend xs (err e) = err e
  prepend xs abort = abort
  prepend xs out_of_fuel = out_of_fuel

  -- The rest of the loop after a round, where `again` is the loop.
  abbrev pub read_next :
      (Dev → Cache → ℕ → ℕ → Outcome (List ℕ) × Dev × Cache)
      → Dev
      → Cache
      → ℕ
      → ℕ
      → Round
      → Outcome (List ℕ) × Dev × Cache
  read_next again dev rcache off size (copied bytes n dev') =
      let (rest, dev'', rcache') = again dev' rcache (off + n) (size - n) in
      (prepend bytes rest, dev'', rcache')
  read_next again dev rcache off size (loaded dev' rcache') = again dev' rcache' off size
  read_next again dev rcache off size (failed e dev' rcache') = (err e, dev', rcache')
  read_next again dev rcache off size assertion = (abort, dev, rcache)

  -- The loop of `lfs2_bd_read`, with fuel. The result is the bytes, the device and the read cache.
  unfoldable pub read_loop :
      Option Cache → ℕ → ℕ → ℕ → Dev → Cache → ℕ → ℕ → Outcome (List ℕ) × Dev × Cache
  read_loop pcache hint block zero dev rcache off size = (out_of_fuel, dev, rcache)
  read_loop pcache hint block (suc fuel) dev rcache off size = elim (size == 0) [
    | true ↦ (ok [], dev, rcache)
    | false ↦
        read_next (read_loop pcache hint block fuel) dev rcache off size
          (read_round dev pcache rcache hint block off size)
  ]

  -- Two rounds serve at least one byte.
  unfoldable pub bd_read :
      Dev → Option Cache → Cache → ℕ → ℕ → ℕ → ℕ → Outcome (List ℕ) × Dev × Cache
  bd_read dev pcache rcache hint block off size =
      if block == block_null
      then (abort, dev, rcache)
      else if ltb cfg.block_size (u32 (off + size))
      then (err corrupt, dev, rcache)
      else read_loop pcache hint block (2 * size + 2) dev rcache off size
