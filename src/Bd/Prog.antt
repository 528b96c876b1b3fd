-- ===== src/Bd/Prog.antt =====
-- The writing half of the cached block device of littlefs/lfs2.c: `lfs2_bd_cmp`, `lfs2_bd_flush`,
-- `lfs2_bd_sync`, `lfs2_bd_prog` and `lfs2_bd_erase`.
pub mod Compare
pub mod Flush
pub mod Write
use mbed_littlefs.Base.{
  ℕ, zero, suc, ◌+◌, ◌-◌, ◌*◌, ◌%◌, ◌^◌, ◌<◌, min, Bool, true, false, not, ◌&&◌, ◌||◌, ltb, leb,
  ◌==◌, if◌then◌else◌, List, [], ◌∷◌, ◌++◌, Option, none, some, length, get_or, take, drop, Error,
  corrupt, Outcome, ok, err, abort, out_of_fuel, u32, sub32,
}
use mbed_littlefs.Util.{aligndown, alignup}
use mbed_littlefs.Device.{Config, Driver, Cache, block_null}
use mbed_littlefs.Bd.{cache_drop, cache_zero, overwrite, bd_read}

-- `LFS2_CMP_EQ`, `LFS2_CMP_LT` and `LFS2_CMP_GT`.
pub data Cmp : Type 0 where
  cmp_eq cmp_lt cmp_gt : Cmp

-- The block number of a cache of directory data, which is never written back.
abbrev pub block_inline : ℕ
block_inline = 0xfffffffe

-- The device with the two caches that an operation is given.
pub record Flash (D : Type 0) : Type 0 where
  pub dev : D
  pub pcache : Cache
  pub rcache : Cache

-- `(dat < data[i]) ? LFS2_CMP_LT : LFS2_CMP_GT`.
abbrev pub cmp_byte : ℕ → ℕ → Cmp
cmp_byte dat b = if ltb dat b then cmp_lt else cmp_gt

module _ (cfg : Config) (drv : Driver) where
  open drv use {Dev, prog, erase, sync}

  -- What follows the read of one byte in `lfs2_bd_cmp`, where `again` is the rest of the loop.
  abbrev pub cmp_next :
      (Dev → Cache → Outcome Cmp × Dev × Cache)
      → ℕ
      → Outcome (List ℕ) × Dev × Cache
      → Outcome Cmp × Dev × Cache
  cmp_next again b (ok bytes, dev, rcache) =
      let dat = get_or bytes 0 0 in
      if dat == b then again dev rcache else (ok (cmp_byte dat b), dev, rcache)
  cmp_next again b (err e, dev, rcache) = (err e, dev, rcache)
  cmp_next again b (abort, dev, rcache) = (abort, dev, rcache)
  cmp_next again b (out_of_fuel, dev, rcache) = (out_of_fuel, dev, rcache)

  -- The loop at index `i`; the list is `data[i..size)`.
  unfoldable pub cmp_from :
      Option Cache → ℕ → ℕ → ℕ → ℕ → List ℕ → Dev → Cache → Outcome Cmp × Dev × Cache
  cmp_from pcache hint block off i [] dev rcache = (ok cmp_eq, dev, rcache)
  cmp_from pcache hint block off i (b ∷ bs) dev rcache =
      cmp_next (cmp_from pcache hint block off (i + 1) bs) b
        (bd_read cfg drv dev pcache rcache (sub32 hint i) block (u32 (off + i)) 1)

  unfoldable pub bd_cmp :
      Dev → Option Cache → Cache → ℕ → ℕ → ℕ → List ℕ → Outcome Cmp × Dev × Cache
  bd_cmp dev pcache rcache hint block off buffer =
      cmp_from pcache hint block off 0 buffer dev rcache

  -- The end of a flush, by the result of the comparison; `s` has the program cache as it was.
  abbrev pub flush_end : Flash Dev → Outcome Cmp → Outcome (Unit {0}) × Flash Dev
  flush_end s (ok cmp_eq) = (ok tt, record s { pcache = cache_zero cfg s.pcache })
  flush_end s (ok cmp_lt) = (err corrupt, s)
  flush_end s (ok cmp_gt) = (err corrupt, s)
  flush_end s (err e) = (err e, s)
  flush_end s abort = (abort, s)
  flush_end s out_of_fuel = (out_of_fuel, s)

  -- After the data is on the device: check it, and empty the program cache.
  unfoldable pub flush_validate : Bool → Flash Dev → ℕ → Outcome (Unit {0}) × Flash Dev
  flush_validate false s diff = flush_end s (ok cmp_eq)
  flush_validate true s diff =
      let pc = s.pcache in
      let (res, dev', rcache') =
        bd_cmp s.dev none (cache_drop s.rcache) diff pc.block pc.off (take diff pc.buffer) in
      flush_end (record s { dev = dev'; rcache = rcache' }) res

  -- What follows the program.
  abbrev pub flush_next : Bool → Flash Dev → ℕ → Option Error → Outcome (Unit {0}) × Flash Dev
  flush_next validate s diff none = flush_validate validate s diff
  flush_next validate s diff (some e) = (err e, s)

  -- Program the cache, rounded up to the program size, and validate it.
  unfoldable pub flush_prog : Bool → Flash Dev → Outcome (Unit {0}) × Flash Dev
  flush_prog validate s =
      let pc = s.pcache in
      let diff = alignup pc.size cfg.prog_size in
      let (status, dev') = prog s.dev pc.block pc.off (take diff pc.buffer) in
      flush_next validate (record s { dev = dev' }) diff status

  unfoldable pub bd_flush : Bool → Flash Dev → Outcome (Unit {0}) × Flash Dev
  bd_flush validate s =
      if not (s.pcache.block == block_null) && not (s.pcache.block == block_inline)
      then (if ltb s.pcache.block cfg.block_count then flush_prog validate s else (abort, s))
      else (ok tt, s)

  -- What follows the flush of a sync.
  abbrev pub sync_next : Outcome (Unit {0}) × Flash Dev → Outcome (Unit {0}) × Flash Dev
  sync_next (ok _, s) =
      let (status, dev') = sync s.dev in
      let s' = record s { dev = dev' } in elim status [ none ↦ (ok tt, s') | some e ↦ (err e, s') ]
  sync_next (err e, s) = (err e, s)
  sync_next (abort, s) = (abort, s)
  sync_next (out_of_fuel, s) = (out_of_fuel, s)

  unfoldable pub bd_sync : Bool → Flash Dev → Outcome (Unit {0}) × Flash Dev
  bd_sync validate s = sync_next (bd_flush validate (record s { rcache = cache_drop s.rcache }))

  -- `memcpy` into the program cache of the `diff` first bytes of `data`, eagerly flushed if that
  -- fills the cache.
  unfoldable pub prog_fill : Bool → Flash Dev → ℕ → ℕ → List ℕ → Outcome (Unit {0}) × Flash Dev
  prog_fill validate s off diff bytes =
      let pc = s.pcache in
      let size' = sub32 (u32 (off + diff)) pc.off in
      let s' = record s {
        pcache = record pc {
          buffer = overwrite pc.buffer (off - pc.off) (take diff bytes);
          size = size';
        };
      } in
      if size' == cfg.cache_size then bd_flush validate s' else (ok tt, s')

  -- What follows one copy into the cache, where `again` is the rest of the loop.
  abbrev pub prog_next :
      (Flash Dev → Outcome (Unit {0}) × Flash Dev)
      → Outcome (Unit {0}) × Flash Dev
      → Outcome (Unit {0}) × Flash Dev
  prog_next again (ok _, s) = again s
  prog_next again (err e, s) = (err e, s)
  prog_next again (abort, s) = (abort, s)
  prog_next again (out_of_fuel, s) = (out_of_fuel, s)

  -- `block == pcache->block && off >= pcache->off && off < pcache->off + cache_size`.
  abbrev pub fits : Cache → ℕ → ℕ → Bool
  fits pc block off =
      block == pc.block && (leb pc.off off && ltb off (u32 (pc.off + cfg.cache_size)))

  -- The loop of `lfs2_bd_prog`, with fuel.
  unfoldable pub prog_loop : Bool → ℕ → ℕ → Flash Dev → ℕ → List ℕ → Outcome (Unit {0}) × Flash Dev
  prog_loop validate block zero s off bytes = (out_of_fuel, s)
  prog_loop validate block (suc fuel) s off [] = (ok tt, s)
  prog_loop validate block (suc fuel) s off (b ∷ bs) = elim (fits s.pcache block off) [
    | true ↦
        let bytes = b ∷ bs in
        let diff = min (length bytes) (cfg.cache_size - (off - s.pcache.off)) in
        prog_next (λ s'. prog_loop validate block fuel s' (off + diff) (drop diff bytes))
          (prog_fill validate s off diff bytes)
    | false ↦ elim (s.pcache.block == block_null) [
      | true ↦
          prog_loop validate block fuel
            (record s {
              pcache = record (s.pcache) {
                block = block;
                off = aligndown off cfg.prog_size;
                size = 0;
              };
            })
            off (b ∷ bs)
      | false ↦ (abort, s)
    ]
  ]

  -- Two rounds store at least one byte.
  unfoldable pub bd_prog : Bool → Flash Dev → ℕ → ℕ → List ℕ → Outcome (Unit {0}) × Flash Dev
  bd_prog validate s block off bytes =
      if block == block_null || ltb cfg.block_size (u32 (off + length bytes))
      then (abort, s)
      else prog_loop validate block (2 * length bytes + 2) s off bytes

  unfoldable pub bd_erase : Dev → ℕ → Outcome (Unit {0}) × Dev
  bd_erase dev block =
      if ltb block cfg.block_count
      then (let (status, dev') = erase dev block in
          elim status [ none ↦ (ok tt, dev') | some e ↦ (err e, dev') ])
      else (abort, dev)
