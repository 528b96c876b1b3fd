-- ===== src/Bd/Stale.antt =====
-- `lfs2_bd_read` after a load of the read cache that failed.
use mbed_littlefs.Base.{
  ℕ, suc, ◌+◌, ◌-◌, ◌*◌, ◌^◌, ◌≤◌, ◌<◌, min, ◌≡◌, refl, arith, ap, ◌∙◌, true, false, ◌&&◌, ◌==◌,
  leb, ltb, List, [], ◌++◌, none, some, Error, ok, err, u32, sub32,
}
use mathlib.Core.List.{append-nil}
use mbed_littlefs.Util.Align.{aligndown-le}
use mbed_littlefs.Device.{Config, Driver, Cache, IsConfig, block_null}
use mbed_littlefs.Bd.{
  overwrite, touches, hit, load_range, load, read_round_rcache, read_round, read_loop, bd_read,
}

module _ (cfg : Config) (drv : Driver) (conf : IsConfig cfg) where
  open drv use {Dev, read}

  -- The read cache after a load that the callback answers with `bytes`.
  abbrev pub loaded_cache : Cache → ℕ → ℕ → ℕ → List ℕ → Cache
  loaded_cache rcache hint block off bytes =
      let rc = load_range cfg drv rcache hint block off in
      record rc { buffer = overwrite rc.buffer 0 bytes }

  -- A read that the read cache covers.
  bd_read_covered :
      (dev : Dev) (c : Cache) (hint block off n : ℕ)
      → block < cfg.block_count
      → 0 < n
      → off + n ≤ cfg.block_size
      → c.block ≡ block
      → c.off ≤ off
      → off + n ≤ c.off + c.size
      → c.off + c.size < 2 ^ 32
      → bd_read cfg drv dev none c hint block off n ≡ (ok (hit c off n ++ []), dev, c)
  unfolding bd_read read_loop read_round read_round_rcache
  bd_read_covered dev c hint block off n hb left within same low high small =
      let named : (block == block_null) ≡ false = ground (arith, conf.count) in
      let fits : ltb cfg.block_size (u32 (off + n)) ≡ false = ground (arith, conf.small) in
      let fuel : 2 * n + 2 ≡ suc (suc (2 * n)) = omega arith in
      let some_left : (n == 0) ≡ false = ground arith in
      let covered : (touches c block off && leb c.off off) ≡ true = ground arith in
      let whole : min n (c.size - (off - c.off)) ≡ n = omega arith in
      let done : n - n ≡ 0 = omega arith in
      rw (named, fits, fuel, read_loop, some_left, covered, whole, done) refl

  -- A read through the read cache, of a range that it does not touch, whose load the callback answers
  -- with an error.
  bd_read_failed :
      (dev : Dev) (rcache : Cache) (hint block off size : ℕ) (e : Error)
      → block < cfg.block_count
      → 0 < size
      → off + size ≤ cfg.block_size
      → touches rcache block off ≡ false
      → size < hint
      → let rc = load_range cfg drv rcache hint block off in
        let answer = read dev rc.block rc.off rc.size in
        answer.0 ≡ some e
        → bd_read cfg drv dev none rcache hint block off size
          ≡ (err e, answer.2, loaded_cache rcache hint block off answer.1)
  unfolding bd_read read_loop read_round read_round_rcache load
  bd_read_failed dev rcache hint block off size e hb left within apart_ hinted failed =
      let named : (block == block_null) ≡ false = ground (arith, conf.count) in
      let fits : ltb cfg.block_size (u32 (off + size)) ≡ false = ground (arith, conf.small) in
      let fuel : 2 * size + 2 ≡ suc (2 * size + 1) = omega arith in
      let some_left : (size == 0) ≡ false = ground arith in
      let ahead : leb hint size ≡ false = ground arith in
      let inside : ltb block cfg.block_count ≡ true = ground arith in
      rw (named, fits, fuel, read_loop, some_left, apart_, ahead, inside, failed) refl

  -- A read of a range that the read cache does not touch, shorter than the hint, without a program
  -- cache, whose load the callback answers with an error, returns that error. It leaves a read cache
  -- from which a later read of as many bytes of the range as the load was for succeeds, without a call
  -- of the device and whatever the device is by then, with the bytes that the failed call left in the
  -- buffer.
  pub bd_read_stale :
      (dev dev2 : Dev) (rcache : Cache) (hint hint2 block off size n : ℕ) (e : Error)
      → block < cfg.block_count
      → 0 < size
      → off + size ≤ cfg.block_size
      → touches rcache block off ≡ false
      → size < hint
      → let rc = load_range cfg drv rcache hint block off in
        let answer = read dev rc.block rc.off rc.size in
        answer.0 ≡ some e
        → 0 < n
        → n ≤ size
        → off + n ≤ rc.off + rc.size
        → let (out, dev', rcache') = bd_read cfg drv dev none rcache hint block off size in
          (out ≡ err e)
          × (bd_read cfg drv dev2 none rcache' hint2 block off n
              ≡ (ok (hit (loaded_cache rcache hint block off answer.1) off n), dev2, rcache'))
  unfolding load_range
  bd_read_stale dev dev2 rcache hint hint2 block off size n e hb left within apart_ hinted failed
        some_ short covered =
      let rc = load_range cfg drv rcache hint block off in
      let c = loaded_cache rcache hint block off (read dev rc.block rc.off rc.size).1 in
      let low = aligndown-le off cfg.read_size in
      let start : rc.off ≤ off = low in
      let size_le : rc.size ≤ sub32 cfg.block_size rc.off = omega arith in
      let small : rc.off + rc.size < 2 ^ 32 = omega (arith, start, size_le, conf.small) in
      let first =
        bd_read_failed dev rcache hint block off size e hb left within apart_ hinted failed in
      let second =
        bd_read_covered dev2 c hint2 block off n hb some_ (omega arith) refl start covered small in
      rw first (refl, second ∙ ap (λ xs. (ok xs, dev2, c)) (append-nil (hit c off n)))
