-- ===== src/File/Write/Inline.antt =====
-- `lfs2_file_flush` of a file whose data is inline.
use mbed_littlefs.Base.{ℕ, ◌-◌, ◌≡◌, refl, arith, ap, ◌∙◌, true, false, not, ◌==◌, max, ok, bit_or}
use mbed_littlefs.Bits.Digit.{digit, digit-bit_and, digit-bit_or}
use mbed_littlefs.Bits.Field.{and-pow}
use mbed_littlefs.Util.{ByteOrder}
use mbed_littlefs.Gstate.{Gstate}
use mbed_littlefs.Device.{Config, Driver}
use mbed_littlefs.Bd.Prog.{Flash}
use mbed_littlefs.Alloc.{Traversal}
use mbed_littlefs.File.{File, World, has, clear, f_dirty, f_writing, f_reading, f_inline}
use mbed_littlefs.File.Transfer.{file_size}
use mbed_littlefs.File.Write.{drop_reads, flush_writes, flush_update, file_flush}

-- The flag of writes is gone after the update.
written_clear : (flags : ℕ) → has (bit_or (clear flags f_writing) f_dirty) f_writing ≡ false
unfolding digit
written_clear flags =
    let a = bit_or (clear flags f_writing) f_dirty in
    let low : digit (0xffffffff - 0x020000) 17 ≡ 0 = refl in
    let other : digit 0x010000 17 ≡ 0 = refl in
    let at : digit a 17 ≡ 0 = omega (
      arith,
      digit-bit_or (clear flags f_writing) f_dirty 17,
      digit-bit_and flags (0xffffffff - 0x020000) 17,
      low,
      other,
    ) in
    ap not (and-pow a 17) ∙ ap (λ d. not (d == 0)) at

module _ (cfg : Config) (drv : Driver) (host : ByteOrder) (gstate : Gstate)
    (t : File → Traversal (Flash (drv.Dev))) (file_max : ℕ) where
  -- A flush of an inline file that has been written and not read since succeeds without a call of the
  -- device, keeps the position, and makes the position the size of the file: before it the size was
  -- the greater of the two, so data behind the position is cut off.
  pub file_flush_inline :
      (w : World (drv.Dev)) (f : File)
      → has f.flags f_reading ≡ false
      → has f.flags f_writing ≡ true
      → has f.flags f_inline ≡ true
      → let (out, s) = file_flush cfg drv host gstate t file_max (w, f) in
        (out ≡ ok 0)
        × (s.0 ≡ w)
        × (s.1.pos ≡ f.pos)
        × (file_size s.1 ≡ f.pos)
        × (file_size f ≡ max f.pos f.ctz_size)
  unfolding file_flush drop_reads flush_writes flush_update file_size
  file_flush_inline w f unread written kept =
      rw (unread, written, kept) (refl, refl, refl, rw (written_clear f.flags) refl, refl)
