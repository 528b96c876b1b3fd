-- ===== src/Util.antt =====
-- littlefs/lfs2_util.h and littlefs/lfs2_util.c: alignment, powers of two, counting bits, sequence
-- numbers, byte order, CRC-32. Of each helper with a compiler intrinsic the portable branch is modelled.
pub mod Align
pub mod Npw2
pub mod Order
pub mod Crc
use mbed_littlefs.Base.{
  ℕ, zero, suc, ◌+◌, ◌-◌, ◌*◌, ◌/◌, ◌%◌, ◌^◌, bit_and, bit_or, bit_xor, List, [], ◌∷◌, Bool, true,
  false, ltb, if◌then◌else◌, get_or, u32, sub32, ◌<<<◌, ◌>>>◌, ℤ, signed32,
}

-- `a - a % alignment`; the callers' alignment is not 0.
unfoldable pub aligndown : ℕ → ℕ → ℕ
aligndown a alignment = a - a % alignment

unfoldable pub alignup : ℕ → ℕ → ℕ
alignup a alignment = aligndown (u32 (a + alignment + (2 ^ 32 - 1))) alignment

-- One round `s = (a > bound) << k` of `npw2`.
abbrev pub halving : ℕ → ℕ → ℕ → ℕ
halving a bound s = if ltb bound a then s else 0

unfoldable pub npw2 : ℕ → ℕ
npw2 a =
    let a0 = sub32 a 1 in
    let s1 = halving a0 0xffff 16 in
    let a1 = a0 >>> s1 in
    let s2 = halving a1 0xff 8 in
    let a2 = a1 >>> s2 in
    let s3 = halving a2 0xf 4 in
    let a3 = a2 >>> s3 in
    let s4 = halving a3 0x3 2 in
    let a4 = a3 >>> s4 in
    let r = bit_or (bit_or (bit_or (bit_or 0 s1) s2) s3) s4 in bit_or r (a4 >>> 1) + 1

unfoldable pub ctz : ℕ → ℕ
unfolding npw2
ctz a = sub32 (npw2 (u32 (bit_and a (sub32 0 a) + 1))) 1

unfoldable pub popc : ℕ → ℕ
popc a =
    let b = sub32 a (bit_and (a >>> 1) 0x55555555) in
    let c = u32 (bit_and b 0x33333333 + bit_and (b >>> 2) 0x33333333) in
    u32 (bit_and (u32 (c + (c >>> 4))) 0xf0f0f0f * 0x1010101) >>> 24

-- `(int)(unsigned)(a - b)`.
pub scmp : ℕ → ℕ → ℤ
scmp a b = signed32 (sub32 a b)

-- The byte order of the machine that runs the code.
pub data ByteOrder : Type 0 where
  little_endian big_endian : ByteOrder

-- The four bytes in memory of the word `a`, `((uint8_t*)&a)[0]` first.
abbrev pub bytes_of : ByteOrder → ℕ → List ℕ
bytes_of little_endian a = a % 256 ∷ a / 2 ^ 8 % 256 ∷ a / 2 ^ 16 % 256 ∷ a / 2 ^ 24 % 256 ∷ []
bytes_of big_endian a = a / 2 ^ 24 % 256 ∷ a / 2 ^ 16 % 256 ∷ a / 2 ^ 8 % 256 ∷ a % 256 ∷ []

unfoldable pub fromle32 : ByteOrder → ℕ → ℕ
fromle32 host a =
    let byte = λ (i : ℕ). get_or (bytes_of host a) i 0 in
    bit_or (bit_or (bit_or (byte 0 <<< 0) (byte 1 <<< 8)) (byte 2 <<< 16)) (byte 3 <<< 24)

pub tole32 : ByteOrder → ℕ → ℕ
tole32 host a = fromle32 host a

pub frombe32 : ByteOrder → ℕ → ℕ
frombe32 host a =
    let byte = λ (i : ℕ). get_or (bytes_of host a) i 0 in
    bit_or (bit_or (bit_or (byte 0 <<< 24) (byte 1 <<< 16)) (byte 2 <<< 8)) (byte 3 <<< 0)

pub tobe32 : ByteOrder → ℕ → ℕ
tobe32 host a = frombe32 host a

abbrev pub rtable : List ℕ
rtable =
    0x00000000 ∷ 0x1db71064 ∷ 0x3b6e20c8 ∷ 0x26d930ac ∷ 0x76dc4190 ∷ 0x6b6b51f4 ∷ 0x4db26158
    ∷ 0x5005713c ∷ 0xedb88320 ∷ 0xf00f9344 ∷ 0xd6d6a3e8 ∷ 0xcb61b38c ∷ 0x9b64c2b0 ∷ 0x86d3d2d4
    ∷ 0xa00ae278 ∷ 0xbdbdf21c ∷ []

-- `crc = (crc >> 4) ^ rtable[(crc ^ d) & 0xf]`.
pub crc_nibble : ℕ → ℕ → ℕ
crc_nibble c d = bit_xor (c >>> 4) (get_or rtable (bit_and (bit_xor c d) 0xf) 0)

pub crc : ℕ → List ℕ → ℕ
unfolding crc_nibble
crc c [] = c
crc c (byte ∷ bytes) = crc (crc_nibble (crc_nibble c (byte >>> 0)) (byte >>> 4)) bytes
