-- ===== src/Bits/Digit.antt =====
-- A number by its binary digits: `&`, `|` and `^` act digit by digit.
use Prim.Native.Nat.{differ, digits, bitwise, bit_and-bitwise, bit_or-bitwise, bit_xor-bitwise}
use mathlib.Core.WellFounded
use mbed_littlefs.Base.{
  ℕ, zero, suc, ◌+◌, ◌*◌, ◌/◌, ◌%◌, ◌≤◌, ◌<◌, min, max, bit_and, bit_or, bit_xor, ◌≡◌, refl, arith,
  lt_wf,
}

-- `digits` does not depend on its fuel, once that covers the first number.
module _ (z : ℕ → ℕ) (f : ℕ → ℕ → ℕ) where
  digits_enough : (n m a b : ℕ) → a ≤ n → a ≤ m → digits z f n a b ≡ digits z f m a b
  digits_enough zero zero a b p q = refl
  digits_enough (suc n) zero zero b p q = refl
  digits_enough (suc n) zero (suc a) b p q = absurd (omega arith)
  digits_enough zero (suc m) zero b p q = refl
  digits_enough zero (suc m) (suc a) b p q = absurd (omega arith)
  digits_enough (suc n) (suc m) zero b p q = refl
  digits_enough (suc n) (suc m) (suc a) b p q =
      rw (digits_enough n m (suc a / 2) (b / 2) (omega arith) (omega arith))

  bitwise_lowest :
      (a b : ℕ)
      → bitwise z f (suc a) b ≡ bitwise z f (suc a / 2) (b / 2) * 2 + f (suc a % 2) (b % 2)
  bitwise_lowest a b =
      omega (arith, digits_enough a (suc a / 2) (suc a / 2) (b / 2) (omega arith) (omega arith))

pub and_step : (a b : ℕ) → bit_and a b ≡ bit_and (a / 2) (b / 2) * 2 + min (a % 2) (b % 2)
and_step zero b = simp bit_and-bitwise (omega arith)
and_step (suc a) b = simp bit_and-bitwise (bitwise_lowest (λ y. 0) min a b)

pub or_step : (a b : ℕ) → bit_or a b ≡ bit_or (a / 2) (b / 2) * 2 + max (a % 2) (b % 2)
or_step zero b = simp bit_or-bitwise (omega arith)
or_step (suc a) b = simp bit_or-bitwise (bitwise_lowest (λ y. y) max a b)

differ_digits : (x y : ℕ) → x < 2 → y < 2 → differ x y ≡ (x + y) % 2
differ_digits zero y p q = omega arith
differ_digits (suc zero) zero p q = refl
differ_digits (suc zero) (suc zero) p q = refl
differ_digits (suc zero) (suc (suc y)) p q = absurd (omega arith)
differ_digits (suc (suc x)) y p q = absurd (omega arith)

pub xor_step : (a b : ℕ) → bit_xor a b ≡ bit_xor (a / 2) (b / 2) * 2 + (a % 2 + b % 2) % 2
xor_step zero b = simp bit_xor-bitwise (omega arith)
xor_step (suc a) b = omega (
  arith,
  bit_xor-bitwise (suc a) b,
  bit_xor-bitwise (suc a / 2) (b / 2),
  bitwise_lowest (λ y. y) differ a b,
  differ_digits (suc a % 2) (b % 2) (omega arith) (omega arith),
)

-- The digit of weight `2 ^ i`.
unfoldable pub digit : ℕ → ℕ → ℕ
digit a zero = a % 2
digit a (suc i) = digit (a / 2) i

pub digit-lt : (a i : ℕ) → digit a i < 2
unfolding digit
digit-lt a zero = omega arith
digit-lt a (suc i) = digit-lt (a / 2) i

pub digit-zero : (i : ℕ) → digit 0 i ≡ 0
unfolding digit
digit-zero zero = refl
digit-zero (suc i) = digit-zero i

pub digit-bit_and : (a b i : ℕ) → digit (bit_and a b) i ≡ min (digit a i) (digit b i)
unfolding digit
digit-bit_and a b zero = omega (arith, and_step a b)
digit-bit_and a b (suc i) = rw half (digit-bit_and (a / 2) (b / 2) i)
  where
    half : bit_and a b / 2 ≡ bit_and (a / 2) (b / 2)
    half = omega (arith, and_step a b)

pub digit-bit_or : (a b i : ℕ) → digit (bit_or a b) i ≡ max (digit a i) (digit b i)
unfolding digit
digit-bit_or a b zero = omega (arith, or_step a b)
digit-bit_or a b (suc i) = rw half (digit-bit_or (a / 2) (b / 2) i)
  where
    half : bit_or a b / 2 ≡ bit_or (a / 2) (b / 2)
    half = omega (arith, or_step a b)

pub digit-bit_xor : (a b i : ℕ) → digit (bit_xor a b) i ≡ (digit a i + digit b i) % 2
unfolding digit
digit-bit_xor a b zero = omega (arith, xor_step a b)
digit-bit_xor a b (suc i) = rw half (digit-bit_xor (a / 2) (b / 2) i)
  where
    half : bit_xor a b / 2 ≡ bit_xor (a / 2) (b / 2)
    half = omega (arith, xor_step a b)

all_zero : (a : ℕ) → ((i : ℕ) → digit a i ≡ 0) → a ≡ 0
unfolding digit
all_zero a = WellFounded.induction lt_wf {C = λ a. ((i : ℕ) → digit a i ≡ 0) → a ≡ 0} a step
  where
    step :
        (a : ℕ)
        → ((m : ℕ) → m < a → ((i : ℕ) → digit m i ≡ 0) → m ≡ 0)
        → ((i : ℕ) → digit a i ≡ 0)
        → a ≡ 0
    step zero ih h = refl
    step (suc a) ih h = omega (arith, h 0, ih (suc a / 2) (omega arith) (λ i. h (suc i)))

-- Numbers with the same digits are equal.
pub digit_ext : (a b : ℕ) → ((i : ℕ) → digit a i ≡ digit b i) → a ≡ b
unfolding digit
digit_ext a =
    WellFounded.induction lt_wf {C = λ a. (b : ℕ) → ((i : ℕ) → digit a i ≡ digit b i) → a ≡ b} a
      step
  where
    step :
        (a : ℕ)
        → ((m : ℕ) → m < a → (b : ℕ) → ((i : ℕ) → digit m i ≡ digit b i) → m ≡ b)
        → (b : ℕ) → ((i : ℕ) → digit a i ≡ digit b i)
        → a ≡ b
    step zero ih b h = omega (arith, all_zero b (λ i. omega (arith, h i, digit-zero i)))
    step (suc a) ih b h = omega (arith, h 0, ih (suc a / 2) (omega arith) (b / 2) (λ i. h (suc i)))

pub ruleset digit_laws = (arith, digit-lt, digit-zero, digit-bit_and, digit-bit_or, digit-bit_xor)

pub xor_comm : (a b : ℕ) → bit_xor a b ≡ bit_xor b a
xor_comm a b = digit_ext _ _ λ i. omega digit_laws

pub xor_assoc : (a b c : ℕ) → bit_xor (bit_xor a b) c ≡ bit_xor a (bit_xor b c)
xor_assoc a b c = digit_ext _ _ λ i. omega digit_laws

pub xor_self : (a : ℕ) → bit_xor a a ≡ 0
xor_self a = digit_ext _ _ λ i. omega digit_laws

pub xor_zero : (a : ℕ) → bit_xor a 0 ≡ a
xor_zero a = digit_ext _ _ λ i. omega digit_laws

pub xor-xor_cancel : (a b : ℕ) → bit_xor (bit_xor a b) b ≡ a
xor-xor_cancel a b = digit_ext _ _ λ i. omega digit_laws

pub or_comm : (a b : ℕ) → bit_or a b ≡ bit_or b a
or_comm a b = digit_ext _ _ λ i. omega digit_laws

pub and_comm : (a b : ℕ) → bit_and a b ≡ bit_and b a
and_comm a b = digit_ext _ _ λ i. omega digit_laws

pub and-and_same : (a b : ℕ) → bit_and (bit_and a b) b ≡ bit_and a b
and-and_same a b = digit_ext _ _ λ i. omega digit_laws

pub and-xor : (m a b : ℕ) → bit_and m (bit_xor a b) ≡ bit_xor (bit_and m a) (bit_and m b)
and-xor m a b = digit_ext _ _ λ i. omega digit_laws

-- The same number on both sides of `^` cancels.
pub xor_both : (a b x : ℕ) → bit_xor (bit_xor a x) (bit_xor b x) ≡ bit_xor a b
xor_both a b x = digit_ext _ _ λ i. omega digit_laws

pub xor-xor_left : (a b : ℕ) → bit_xor a (bit_xor a b) ≡ b
xor-xor_left a b = digit_ext _ _ λ i. omega digit_laws
