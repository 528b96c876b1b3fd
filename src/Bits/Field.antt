-- ===== src/Bits/Field.antt =====
-- Masks and fields of a word as arithmetic, at every width.
use native.Mathlib.Nat.{pow-suc, div-div-eq-div-mul, one-le-pow}
use mbed_littlefs.Base.{
  refl, ◌==◌, if◌then◌else◌, ℕ, zero, suc, ◌+◌, ◌-◌, ◌*◌, ◌/◌, ◌%◌, ◌^◌, ◌<◌, bit_and, bit_or,
  bit_xor, ◌≡◌, arith, ap, ap₂, ◌∙◌,
}
use mbed_littlefs.Bits.Digit.{
  digit_ext, digit_laws, digit, digit-zero, digit-lt, or_comm, and-xor, and_comm, and_step, or_step,
  xor_step, xor_zero,
}

and_zero : (a : ℕ) → bit_and a 0 ≡ 0
and_zero a = digit_ext _ _ λ i. omega digit_laws

or_zero : (a : ℕ) → bit_or a 0 ≡ a
or_zero a = digit_ext _ _ λ i. omega digit_laws

double_shift : (q k : ℕ) → q * 2 ^ suc k ≡ 2 * (q * 2 ^ k)
double_shift q k = omega (arith, ap (λ (t : ℕ). q * t) (pow-suc 2 k))

pub half_shift : (a k : ℕ) → a / 2 ^ suc k ≡ a / 2 / 2 ^ k
half_shift a k = omega (
  arith,
  div-div-eq-div-mul a 2 (2 ^ k),
  ap (λ (t : ℕ). a / t) (pow-suc 2 k),
  ap (λ (t : ℕ). a / t) (two_times (2 ^ k)),
)
  where
    two_times : (t : ℕ) → t * 2 ≡ 2 * t
    two_times t = omega arith

-- `|` of a shifted number and one that fits below it is their sum.
pub or_sum : (k q r : ℕ) → r < 2 ^ k → bit_or (q * 2 ^ k) r ≡ q * 2 ^ k + r
or_sum zero q r h = ground (arith, or_zero q)
or_sum (suc k) q r h = ground (
  arith,
  or_step (q * 2 ^ suc k) r,
  double_shift q k,
  pow-suc 2 k,
  or_sum k q (r / 2) (omega (arith, pow-suc 2 k)),
)

pub or_sum_low : (k q r : ℕ) → r < 2 ^ k → bit_or r (q * 2 ^ k) ≡ q * 2 ^ k + r
or_sum_low k q r h = rw or_comm (or_sum k q r h)

-- `& (2 ^ k - 1)` is the remainder by `2 ^ k`.
and_low_sum : (k q r : ℕ) → r < 2 ^ k → bit_and (q * 2 ^ k + r) (2 ^ k - 1) ≡ r
and_low_sum zero q r h = ground (arith, and_zero (q * 1 + r))
and_low_sum (suc k) q r h = ground (
  arith,
  and_step (q * 2 ^ suc k + r) (2 ^ suc k - 1),
  double_shift q k,
  pow-suc 2 k,
  one-le-pow k 2,
  and_low_sum k q (r / 2) (omega (arith, pow-suc 2 k)),
)

pub and_low : (k a : ℕ) → bit_and a (2 ^ k - 1) ≡ a % 2 ^ k
and_low k a = ground (arith, one-le-pow k 2, and_low_sum k (a / 2 ^ k) (a % 2 ^ k))

-- A mask with `k` zeros at its end masks what lies above them.
pub and_shift : (k a m : ℕ) → bit_and a (m * 2 ^ k) ≡ bit_and (a / 2 ^ k) m * 2 ^ k
and_shift zero a m = ground arith
and_shift (suc k) a m = ground (
  arith,
  and_step a (m * 2 ^ suc k),
  double_shift m k,
  double_shift (bit_and (a / 2 ^ suc k) m) k,
  half_shift a k,
  and_shift k (a / 2) m,
)

-- A mask of the `j` digits from `k` on.
pub and_field : (k j a : ℕ) → bit_and a ((2 ^ j - 1) * 2 ^ k) ≡ a / 2 ^ k % 2 ^ j * 2 ^ k
and_field k j a = ground (arith, and_shift k a (2 ^ j - 1), and_low j (a / 2 ^ k))

-- `^` of a shifted number and one that fits below it is their sum.
pub xor_sum : (k q r : ℕ) → r < 2 ^ k → bit_xor (q * 2 ^ k) r ≡ q * 2 ^ k + r
xor_sum zero q r h = ground (arith, xor_zero q)
xor_sum (suc k) q r h = ground (
  arith,
  xor_step (q * 2 ^ suc k) r,
  double_shift q k,
  pow-suc 2 k,
  xor_sum k q (r / 2) (omega (arith, pow-suc 2 k)),
)

-- `^` acts apart on the `k` low digits and on the rest.
pub xor-mod : (k a b : ℕ) → bit_xor a b % 2 ^ k ≡ bit_xor (a % 2 ^ k) (b % 2 ^ k)
xor-mod k a b =
    rw (← and_low k (bit_xor a b), ← and_low k a, ← and_low k b)
      (and_comm (bit_xor a b) (2 ^ k - 1)
        ∙ and-xor (2 ^ k - 1) a b
        ∙ ap₂ bit_xor (and_comm (2 ^ k - 1) a) (and_comm (2 ^ k - 1) b))

pub xor-div : (k a b : ℕ) → bit_xor a b / 2 ^ k ≡ bit_xor (a / 2 ^ k) (b / 2 ^ k)
xor-div zero a b = ground arith
xor-div (suc k) a b = ground (
  arith,
  half_shift (bit_xor a b) k,
  half_shift a k,
  half_shift b k,
  xor_step a b,
  xor-div k (a / 2) (b / 2),
)

-- `^` of two numbers of `k` digits has `k` digits.
pub xor-lt : (k a b : ℕ) → a < 2 ^ k → b < 2 ^ k → bit_xor a b < 2 ^ k
xor-lt zero a b p q = ground (arith, xor_zero a)
xor-lt (suc k) a b p q = omega (
  arith,
  pow-suc 2 k,
  xor_step a b,
  xor-lt k (a / 2) (b / 2) (omega (arith, pow-suc 2 k)) (omega (arith, pow-suc 2 k)),
)

pub digit_lem : (a k : ℕ) → digit a k ≡ a / 2 ^ k % 2
unfolding digit
digit_lem a zero = ground arith
digit_lem a (suc k) = rw half_shift (digit_lem (a / 2) k)

-- A power of two has one digit set.
pub digit-pow : (k i : ℕ) → digit (2 ^ k) i ≡ (if k == i then 1 else 0)
unfolding digit
digit-pow zero zero = refl
digit-pow zero (suc i) = ground (arith, digit-zero i)
digit-pow (suc k) zero = ground (arith, pow-suc 2 k)
digit-pow (suc k) (suc i) =
    let half : 2 ^ suc k / 2 ≡ 2 ^ k = omega (arith, pow-suc 2 k) in
    rw half (ground (arith, digit-pow k i))

-- `& (1 << k)` is not 0 exactly where the digit is set.
pub and-pow : (a k : ℕ) → (bit_and a (2 ^ k) == 0) ≡ (digit a k == 0)
and-pow a k = ground (arith, and_field k 1 a, digit_lem a k, one-le-pow k 2, digit-lt a k)
