-- ===== src/Util/Crc.antt =====
-- `lfs2_crc` against the bit-by-bit CRC-32.
use mbed_littlefs.Base.{
  ℕ, zero, suc, ◌+◌, ◌*◌, ◌/◌, ◌%◌, ◌^◌, ◌<◌, bit_xor, ◌≡◌, refl, arith, List, [], ◌∷◌, ◌++◌, ◌>>>◌,
  get_or, ap, ap₂, ◌∙◌, true, every, every_at, ◌==◌, ==_iff,
}
use native.Mathlib.Nat.{pow-suc}
use mbed_littlefs.Bits.Digit.{
  xor_step, xor_comm, xor_assoc, xor_self, xor_zero, digit_ext, digit_laws,
}
use mbed_littlefs.Bits.Field.{and_low, xor_sum, xor-div, xor-mod}
use mbed_littlefs.Util.{rtable, crc_nibble, crc}

-- The polynomial 0x04c11db7 with its digits reversed.
abbrev polynomial : ℕ
polynomial = 0xedb88320

-- Shift out one digit, and subtract the polynomial if that digit was set.
pub crc_bit : ℕ → ℕ
crc_bit x = bit_xor (x / 2) (x % 2 * polynomial)

pub crc_bits : ℕ → ℕ → ℕ
crc_bits zero x = x
crc_bits (suc n) x = crc_bits n (crc_bit x)

-- The textbook CRC: each byte is added into the register, then eight digits are shifted out.
pub reference : ℕ → List ℕ → ℕ
reference c [] = c
reference c (byte ∷ bytes) = reference (crc_bits 8 (bit_xor c byte)) bytes

xor_half :
    (a b : ℕ)
    → (bit_xor a b / 2 ≡ bit_xor (a / 2) (b / 2)) × (bit_xor a b % 2 ≡ (a % 2 + b % 2) % 2)
xor_half a b = omega (arith, xor_step a b)

parity : (x y p : ℕ) → x < 2 → y < 2 → (x + y) % 2 * p ≡ bit_xor (x * p) (y * p)
parity zero zero p hx hy = ground (arith, xor_self (0 * p))
parity zero (suc zero) p hx hy = ground (arith, xor_comm 0 (1 * p), xor_zero (1 * p))
parity (suc zero) zero p hx hy = ground (arith, xor_zero (1 * p))
parity (suc zero) (suc zero) p hx hy = ground (arith, xor_self (1 * p))
parity (suc (suc x)) y p hx hy = absurd (omega arith)
parity zero (suc (suc y)) p hx hy = absurd (omega arith)
parity (suc zero) (suc (suc y)) p hx hy = absurd (omega arith)

xor_middle :
    (a b c d : ℕ) → bit_xor (bit_xor a b) (bit_xor c d) ≡ bit_xor (bit_xor a c) (bit_xor b d)
xor_middle a b c d = digit_ext _ _ λ i. omega digit_laws

crc_bit-xor : (a b : ℕ) → crc_bit (bit_xor a b) ≡ bit_xor (crc_bit a) (crc_bit b)
unfolding crc_bit
crc_bit-xor a b =
    rw
      (
        (xor_half a b).0,
        (xor_half a b).1,
        parity (a % 2) (b % 2) polynomial (omega arith) (omega arith),
      )
      (xor_middle _ _ _ _)

crc_bits-xor : (n a b : ℕ) → crc_bits n (bit_xor a b) ≡ bit_xor (crc_bits n a) (crc_bits n b)
unfolding crc_bits
crc_bits-xor zero a b = refl
crc_bits-xor (suc n) a b = rw (crc_bit-xor a b) (crc_bits-xor n (crc_bit a) (crc_bit b))

crc_bit_even : (q : ℕ) → crc_bit (q * 2) ≡ q
unfolding crc_bit
crc_bit_even q =
    let quotient : q * 2 / 2 ≡ q = omega arith in
    let none_left : q * 2 % 2 ≡ 0 = omega arith in rw (quotient, none_left) (xor_zero q)

crc_bits_shift : (n q : ℕ) → crc_bits n (q * 2 ^ n) ≡ q
unfolding crc_bits
crc_bits_shift zero q = omega arith
crc_bits_shift (suc n) q =
    let twice : q * 2 ^ suc n ≡ q * 2 ^ n * 2 =
      omega (arith, ap (λ (t : ℕ). q * t) (pow-suc 2 n)) in
    rw (twice, crc_bit_even (q * 2 ^ n)) (crc_bits_shift n q)

rtable_entries : every (λ r. crc_bits 4 r == get_or rtable r 0) 16 ≡ true
unfolding every crc_bits crc_bit
rtable_entries = refl

crc_bits_small : (r : ℕ) → r < 16 → crc_bits 4 r ≡ get_or rtable r 0
crc_bits_small r h = (==_iff _ _).0 (every_at _ 16 r rtable_entries h)

-- Shifting four digits out is one look into the table.
crc_bits_four : (x : ℕ) → crc_bits 4 x ≡ bit_xor (x / 16) (get_or rtable (x % 16) 0)
crc_bits_four x =
    let parts : x ≡ bit_xor (x / 16 * 16) (x % 16) =
      omega (arith, xor_sum 4 (x / 16) (x % 16) (omega arith)) in
    ap (crc_bits 4) parts
    ∙ crc_bits-xor 4 (x / 16 * 16) (x % 16)
    ∙ ap₂ bit_xor (crc_bits_shift 4 (x / 16)) (crc_bits_small (x % 16) (omega arith))

crc_nibble_lem : (c d : ℕ) → crc_nibble c d ≡ crc_bits 4 (bit_xor c (d % 16))
unfolding crc_nibble
crc_nibble_lem c d =
    rw (and_low 4 (bit_xor c d), crc_bits_four (bit_xor c (d % 16)))
      (ground (arith, xor-div 4 c (d % 16), xor_zero (c / 16), xor-mod 4 c d, xor-mod 4 c (d % 16)))

crc_bits_eight : (x : ℕ) → crc_bits 4 (crc_bits 4 x) ≡ crc_bits 8 x
unfolding crc_bits
crc_bits_eight x = refl

crc_byte :
    (c b : ℕ) → b < 256 → crc_nibble (crc_nibble c (b / 1)) (b / 16) ≡ crc_bits 8 (bit_xor c b)
crc_byte c b h =
    let low = bit_xor c (b / 1 % 16) in
    let byte : bit_xor low (b / 16 * 16) ≡ bit_xor c b =
      xor_assoc c (b / 1 % 16) (b / 16 * 16) ∙ ap (bit_xor c) (join b) in
    let upper : b / 16 % 16 ≡ crc_bits 4 (b / 16 * 16) = omega (arith, crc_bits_shift 4 (b / 16)) in
    rw
      (
        crc_nibble_lem (crc_nibble c (b / 1)) (b / 16),
        crc_nibble_lem c (b / 1),
        upper,
        ← crc_bits-xor 4 low (b / 16 * 16),
        byte,
      )
      (crc_bits_eight (bit_xor c b))
  where
    join : (b : ℕ) → bit_xor (b / 1 % 16) (b / 16 * 16) ≡ b
    join b =
        xor_comm (b / 1 % 16) (b / 16 * 16)
        ∙ omega (arith, xor_sum 4 (b / 16) (b / 1 % 16) (omega arith))

-- Every element is a byte.
abbrev pub AreBytes : List ℕ → Type 0
AreBytes [] = Unit
AreBytes (b ∷ bs) = (b < 256) × AreBytes bs

-- The table-driven `lfs2_crc` computes the textbook CRC-32, for every register and every buffer.
pub crc-reference : (c : ℕ) (bytes : List ℕ) → AreBytes bytes → crc c bytes ≡ reference c bytes
unfolding crc reference
crc-reference c [] h = refl
crc-reference c (b ∷ bs) (hb, hs) =
    rw (crc_byte c b hb) (crc-reference (crc_bits 8 (bit_xor c b)) bs hs)

-- A checksum may be taken in pieces.
pub crc-append : (c : ℕ) (xs ys : List ℕ) → crc c (xs ++ ys) ≡ crc (crc c xs) ys
unfolding crc
crc-append c [] ys = refl
crc-append c (x ∷ xs) ys = crc-append (crc_nibble (crc_nibble c (x >>> 0)) (x >>> 4)) xs ys
