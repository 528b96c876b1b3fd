-- ===== src/Tests/Caching.antt =====
-- The caching operations of littlefs/lfs2.c on a small device in memory.
use mbed_littlefs.Base.{ℕ, ◌≡◌, refl, arith, true, List, [], ◌∷◌, none, some, err, inl}
use mbed_littlefs.Bd.{bd_read, load_range}
use mbed_littlefs.Bd.View.{visible}
use mbed_littlefs.Bd.Read.{IsRcache}
use mbed_littlefs.Bd.ReadLoop.{Ends, bd_read_lem}
use mbed_littlefs.Bd.Prog.{bd_flush, bd_prog, bd_cmp}
use mbed_littlefs.Bd.Prog.Compare.{CmpEnds, compare_bytes, bd_cmp_lem}
use mbed_littlefs.Bd.Prog.Flush.{IsDirty, Keeps, FlushEnds, bd_flush_stores}
use mbed_littlefs.Bd.Prog.Write.{IsOpen, IsFlash, ProgEnds, bd_prog_stores}
use mbed_littlefs.Bd.Stale.{bd_read_stale}
use mbed_littlefs.Base.{io, ok, replicate}
use mbed_littlefs.Device.{Driver}
use mbed_littlefs.Util.{alignup, aligndown}
use mbed_littlefs.Util.Align.{alignup_least}
use mbed_littlefs.Tests.Ram.{
  small_config, ram, small_config-IsConfig, ram-IsDevice, numbered, empty_cache, open_cache,
  open_flash,
}

empty_cache-IsRcache :
    IsRcache small_config ram small_config-IsConfig ram-IsDevice numbered empty_cache
empty_cache-IsRcache = record {
  holds = λ h. absurd (omega arith);
  aligned = λ h. absurd (omega arith);
  in_block = λ h. absurd (omega arith);
}

-- A read of 6 bytes of block 1, of which the program cache covers two.
bd_read_lem_example :
    let (out, dev', rcache') =
      bd_read small_config ram numbered (some open_cache) empty_cache 6 1 1 6 in
    Ends small_config ram small_config-IsConfig ram-IsDevice
      (11 ∷ 70 ∷ 71 ∷ 14 ∷ 15 ∷ 16 ∷ [])
      out
      dev'
      rcache'
    × (ram-IsDevice.content dev' ≡ numbered)
unfolding visible ram-IsDevice
bd_read_lem_example =
    bd_read_lem small_config ram small_config-IsConfig ram-IsDevice numbered (some open_cache)
      empty_cache 6 1 1 6 (omega arith) (omega arith) (omega arith) (omega arith)
      (refl, omega arith, omega arith) empty_cache-IsRcache

bd_cmp_lem_example :
    let buffer : List ℕ = 11 ∷ 70 ∷ 72 ∷ [] in
    let (out, dev', rcache') =
      bd_cmp small_config ram numbered (some open_cache) empty_cache 3 1 1 buffer in
    CmpEnds small_config ram small_config-IsConfig ram-IsDevice
      (compare_bytes (11 ∷ 70 ∷ 71 ∷ []) buffer)
      out
      dev'
      rcache'
    × (ram-IsDevice.content dev' ≡ numbered)
unfolding visible ram-IsDevice
bd_cmp_lem_example =
    bd_cmp_lem small_config ram small_config-IsConfig ram-IsDevice numbered (some open_cache)
      empty_cache 3 1 1 (11 ∷ 70 ∷ 72 ∷ []) (omega arith) (omega arith) (omega arith) (omega arith)
      (refl, omega arith, omega arith) empty_cache-IsRcache

open_cache-IsDirty : IsDirty small_config ram small_config-IsConfig ram-IsDevice open_cache
open_cache-IsDirty = record {
  in_device = omega arith;
  in_block = omega (arith, alignup_least 2 2 (omega arith) (omega arith));
  in_buffer = omega (arith, alignup_least 2 2 (omega arith) (omega arith));
}

bd_flush_stores_example :
    let (out, s') = bd_flush small_config ram true open_flash in
    FlushEnds small_config ram small_config-IsConfig ram-IsDevice open_cache out s'
    × Keeps small_config ram small_config-IsConfig ram-IsDevice 1 2 (alignup 2 2) numbered s'.dev
unfolding ram-IsDevice
bd_flush_stores_example =
    bd_flush_stores small_config ram small_config-IsConfig ram-IsDevice open_flash
      open_cache-IsDirty

open_flash-IsFlash : IsFlash small_config ram small_config-IsConfig ram-IsDevice 1 open_flash
open_flash-IsFlash = record { buffer = refl; rcache = empty_cache-IsRcache }

open_flash-IsOpen : IsOpen small_config ram small_config-IsConfig ram-IsDevice 1 open_flash 4
open_flash-IsOpen = record { of_block = refl; next = refl; room = omega arith; whole = refl }

-- Three bytes more: the cache is filled, flushed, and the last byte opens it again.
bd_prog_stores_example :
    let bytes : List ℕ = 72 ∷ 73 ∷ 74 ∷ [] in
    let (out, s') = bd_prog small_config ram true open_flash 1 4 bytes in
    ProgEnds small_config ram small_config-IsConfig ram-IsDevice 1 4 bytes open_flash out s'
unfolding ram-IsDevice
bd_prog_stores_example =
    bd_prog_stores small_config ram small_config-IsConfig ram-IsDevice 1 (omega arith) open_flash 4
      (72 ∷ 73 ∷ 74 ∷ []) open_flash-IsFlash (inl open_flash-IsOpen) (omega arith)

-- A device whose reads all fail, and leave sevens in the buffer.
abbrev broken : Driver
broken = record {
  Dev = ℕ → ℕ → ℕ;
  read = λ d block off size. (some io, replicate size 7, d);
  prog = λ d block off bytes. (none, d);
  erase = λ d block. (none, d);
  sync = λ d. (none, d);
}

bd_read_stale_example :
    let (out, dev', rcache') = bd_read small_config broken numbered none empty_cache 6 1 1 4 in
    (out ≡ err io)
    × (bd_read small_config broken numbered none rcache' 6 1 1 3
        ≡ (ok (7 ∷ 7 ∷ 7 ∷ []), numbered, rcache'))
unfolding load_range alignup aligndown
bd_read_stale_example =
    bd_read_stale small_config broken small_config-IsConfig numbered numbered empty_cache 6 6 1 1 4
      3 io (omega arith) (omega arith) (omega arith) refl (omega arith) refl (omega arith)
      (omega arith) (omega arith)
