-- ===== src/Tests/Fetching.antt =====
-- The fetch of a metadata pair at a concrete device.
use mbed_littlefs.Base.{get_or, [], ◌∷◌, ◌==◌, if◌then◌else◌, ℕ, refl, arith, Error, Outcome, ok}
use mbed_littlefs.Util.{little_endian}
use mbed_littlefs.Gstate.{gstate_zero}
use mbed_littlefs.Device.{Cache}
use mbed_littlefs.Bd.Prog.{Cmp, cmp_eq}
use mbed_littlefs.Bd.Read.{IsRcache, ReadFails}
use mbed_littlefs.Dir.Fetch.{dir_fetchmatch}
use mbed_littlefs.Dir.Fetch.Ends.{FetchEnds, dir_fetchmatch_lem}
use mbed_littlefs.Tests.Ram.{small_config, ram, small_config-IsConfig, ram-IsDevice, empty_cache}
use mbed_littlefs.Tests.Files.{log}

ram_whole : (e : Error) → ¬ (ReadFails small_config ram small_config-IsConfig ram-IsDevice e)
unfolding ReadFails
ram_whole e (d, block, off, n, failed) = cc

-- The log of a commit in block 0, with a file of the name `a`, and nothing in block 1.
abbrev committed : ℕ → ℕ → ℕ
committed b o =
    if b == 0
    then get_or
        (1 ∷ 0 ∷ 0 ∷ 0 ∷ 191 ∷ 239 ∷ 255 ∷ 255 ∷ 64 ∷ 0 ∷ 0 ∷ 1 ∷ 97 ∷ 32 ∷ 0 ∷ 0 ∷ 3 ∷ 104 ∷ 105
          ∷ 112 ∷ 31 ∷ 252 ∷ 7 ∷ 160 ∷ 55 ∷ 108 ∷ 196 ∷ [])
        o 0xff
    else 0xff

-- A callback that finds every tag.
abbrev find_all : ℕ → ℕ × ℕ → ℕ × ((ℕ → ℕ → ℕ) × Cache) → Outcome Cmp × (ℕ × ((ℕ → ℕ → ℕ) × Cache))
find_all tag disk s = (ok cmp_eq, s)

committed-IsRcache :
    IsRcache small_config ram small_config-IsConfig ram-IsDevice committed empty_cache
committed-IsRcache = record {
  holds = λ h. absurd (omega arith);
  aligned = λ h. absurd (omega arith);
  in_block = λ h. absurd (omega arith);
}

dir_fetchmatch_lem_example :
    FetchEnds small_config ram small_config-IsConfig ram-IsDevice little_endian ℕ committed
      (λ _. ⊥)
      ⊥
      (0, 1)
      (dir_fetchmatch small_config ram little_endian 0x7ff00000 0x00100000 find_all gstate_zero
        (0, 0)
        7
        log
        (0, 1)
        (0, (committed, empty_cache)))
unfolding ram-IsDevice
dir_fetchmatch_lem_example =
    dir_fetchmatch_lem small_config ram small_config-IsConfig ram-IsDevice little_endian ℕ committed
      (λ _. ⊥) ⊥ ram_whole (0, 1) (omega arith) (omega arith) gstate_zero 0x7ff00000 0x00100000
      find_all (λ tag disk s fine. fine) (0, 0) 7 log (0, (committed, empty_cache))
      (committed-IsRcache, refl)
