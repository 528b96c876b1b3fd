-- ===== src/Util/Order.antt =====
-- `lfs2_scmp`, and the conversions of byte order.
use mbed_littlefs.Base.{
  ℕ, ◌+◌, ◌-◌, ◌*◌, ◌/◌, ◌%◌, ◌^◌, ◌<◌, bit_or, ◌≡◌, arith, u32, pos, negsuc, ◌<<<◌, ap, ◌∙◌,
}
use mbed_littlefs.Bits.Field.{or_sum, or_sum_low}
use mbed_littlefs.Util.{
  scmp, ByteOrder, little_endian, big_endian, bytes_of, fromle32, tole32, frombe32, tobe32,
}

-- A sequence number less than 2 ^ 31 steps ahead compares greater by that distance, and the other
-- way round less by it, also where the counter wraps in between.
scmp_ahead :
    (a d : ℕ)
    → a < 2 ^ 32
    → 0 < d
    → d < 2 ^ 31
    → (scmp (u32 (a + d)) a ≡ pos d) × (scmp a (u32 (a + d)) ≡ negsuc (d - 1))
unfolding scmp
scmp_ahead a d ha hd h = ground arith

le_sum :
    (b0 b1 b2 b3 : ℕ)
    → b0 < 256
    → b1 < 256
    → b2 < 256
    → b3 < 256
    → bit_or (bit_or (bit_or (b0 <<< 0) (b1 <<< 8)) (b2 <<< 16)) (b3 <<< 24)
      ≡ b0 + b1 * 2 ^ 8 + b2 * 2 ^ 16 + b3 * 2 ^ 24
le_sum b0 b1 b2 b3 h0 h1 h2 h3 = ground (
  arith,
  or_sum_low 8 b1 (b0 * 1),
  or_sum_low 16 b2 (b1 * 2 ^ 8 + b0),
  or_sum_low 24 b3 (b2 * 2 ^ 16 + b1 * 2 ^ 8 + b0),
)

be_sum :
    (b0 b1 b2 b3 : ℕ)
    → b0 < 256
    → b1 < 256
    → b2 < 256
    → b3 < 256
    → bit_or (bit_or (bit_or (b0 <<< 24) (b1 <<< 16)) (b2 <<< 8)) (b3 <<< 0)
      ≡ b3 + b2 * 2 ^ 8 + b1 * 2 ^ 16 + b0 * 2 ^ 24
be_sum b0 b1 b2 b3 h0 h1 h2 h3 = ground (
  arith,
  or_sum 24 b0 (b1 * 2 ^ 16),
  or_sum 16 (b0 * 2 ^ 8 + b1) (b2 * 2 ^ 8),
  or_sum 8 (b0 * 2 ^ 16 + b1 * 2 ^ 8 + b2) (b3 * 1),
)

-- The word that has the bytes of `a` in the opposite order.
pub swapped : ℕ → ℕ
swapped a =
    a / 2 ^ 24 % 256 + a / 2 ^ 16 % 256 * 2 ^ 8 + a / 2 ^ 8 % 256 * 2 ^ 16 + a % 256 * 2 ^ 24

fromle32_little : (a : ℕ) → a < 2 ^ 32 → fromle32 little_endian a ≡ a
unfolding fromle32
fromle32_little a h = omega (
  arith,
  le_sum (a % 256) (a / 2 ^ 8 % 256) (a / 2 ^ 16 % 256) (a / 2 ^ 24 % 256) (omega arith)
      (omega arith) (omega arith) (omega arith),
)

fromle32_big : (a : ℕ) → fromle32 big_endian a ≡ swapped a
unfolding fromle32 swapped
fromle32_big a = omega (
  arith,
  le_sum (a / 2 ^ 24 % 256) (a / 2 ^ 16 % 256) (a / 2 ^ 8 % 256) (a % 256) (omega arith)
      (omega arith) (omega arith) (omega arith),
)

frombe32_little : (a : ℕ) → frombe32 little_endian a ≡ swapped a
unfolding frombe32 swapped
frombe32_little a = omega (
  arith,
  be_sum (a % 256) (a / 2 ^ 8 % 256) (a / 2 ^ 16 % 256) (a / 2 ^ 24 % 256) (omega arith)
      (omega arith) (omega arith) (omega arith),
)

frombe32_big : (a : ℕ) → a < 2 ^ 32 → frombe32 big_endian a ≡ a
unfolding frombe32
frombe32_big a h = omega (
  arith,
  be_sum (a / 2 ^ 24 % 256) (a / 2 ^ 16 % 256) (a / 2 ^ 8 % 256) (a % 256) (omega arith)
      (omega arith) (omega arith) (omega arith),
)

swapped_twice : (a : ℕ) → a < 2 ^ 32 → swapped (swapped a) ≡ a
unfolding swapped
swapped_twice a h = omega arith

swapped_bytes :
    (a : ℕ)
    → (bytes_of little_endian (swapped a) ≡ bytes_of big_endian a)
      × (bytes_of big_endian (swapped a) ≡ bytes_of little_endian a)
unfolding swapped
swapped_bytes a = ground arith

-- What reaches memory of a converted word is the same on every machine: least significant byte
-- first after `lfs2_tole32`, most significant byte first after `lfs2_tobe32`.
bytes_of-tole32 :
    (host : ByteOrder) (a : ℕ)
    → a < 2 ^ 32
    → (bytes_of host (tole32 host a) ≡ bytes_of little_endian a)
      × (bytes_of host (tobe32 host a) ≡ bytes_of big_endian a)
unfolding tole32 tobe32
bytes_of-tole32 little_endian a h = (
  ap (bytes_of little_endian) (fromle32_little a h),
  ap (bytes_of little_endian) (frombe32_little a) ∙ (swapped_bytes a).0,
)
bytes_of-tole32 big_endian a h = (
  ap (bytes_of big_endian) (fromle32_big a) ∙ (swapped_bytes a).1,
  ap (bytes_of big_endian) (frombe32_big a h),
)

-- Converting to the order of the disk and back gives the word, on every machine.
pub fromle32-tole32 :
    (host : ByteOrder) (a : ℕ)
    → a < 2 ^ 32
    → (fromle32 host (tole32 host a) ≡ a) × (frombe32 host (tobe32 host a) ≡ a)
unfolding tole32 tobe32
fromle32-tole32 little_endian a h = (
  ap (fromle32 little_endian) (fromle32_little a h) ∙ fromle32_little a h,
  ap (frombe32 little_endian) (frombe32_little a) ∙ frombe32_little (swapped a) ∙ swapped_twice a h,
)
fromle32-tole32 big_endian a h = (
  ap (fromle32 big_endian) (fromle32_big a) ∙ fromle32_big (swapped a) ∙ swapped_twice a h,
  ap (frombe32 big_endian) (frombe32_big a h) ∙ frombe32_big a h,
)

pub tole32-lt : (host : ByteOrder) (a : ℕ) → a < 2 ^ 32 → tole32 host a < 2 ^ 32
unfolding tole32 swapped
tole32-lt little_endian a h = omega (arith, fromle32_little a h)
tole32-lt big_endian a h = omega (arith, fromle32_big a)

-- The word whose bytes in memory are those of `a` in the order of the disk.
abbrev pub of_disk : ByteOrder → ℕ → ℕ
of_disk little_endian a = a
of_disk big_endian a = swapped a

pub fromle32-of_disk : (host : ByteOrder) (a : ℕ) → a < 2 ^ 32 → fromle32 host a ≡ of_disk host a
fromle32-of_disk little_endian a h = fromle32_little a h
fromle32-of_disk big_endian a h = fromle32_big a
