-- ===== src/Tests/Numbers.antt =====
-- The helpers of littlefs/lfs2_util.h and littlefs/lfs2_util.c at concrete numbers.
use mbed_littlefs.Base.{◌≡◌, arith, [], ◌∷◌}
use mbed_littlefs.Util.{crc}
use mbed_littlefs.Util.Crc.{reference, crc-reference}

crc-reference_example :
    crc 0xffffffff (0x6c ∷ 0x66 ∷ 0x73 ∷ []) ≡ reference 0xffffffff (0x6c ∷ 0x66 ∷ 0x73 ∷ [])
crc-reference_example =
    crc-reference 0xffffffff (0x6c ∷ 0x66 ∷ 0x73 ∷ [])
      (omega arith, (omega arith, (omega arith, tt)))
