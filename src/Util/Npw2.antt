-- ===== src/Util/Npw2.antt =====
-- `lfs2_npw2`: the exponent of the next power of two.
use native.Mathlib.Nat.{le-div_iff_mul-le, div-lt_iff_lt-mul, one-le-pow, pow-suc, add-zero}
use mbed_littlefs.Base.{
  ℕ, zero, suc, ◌+◌, ◌-◌, ◌*◌, ◌/◌, ◌^◌, ◌≤◌, ◌<◌, bit_or, ◌≡◌, refl, arith, ap, ltb, inl, inr,
  Bool-cases, sub32, ◌>>>◌,
}
use mbed_littlefs.Bits.Field.{or_sum}
use mbed_littlefs.Util.{npw2, halving}

pub pow-add : (a b : ℕ) → 2 ^ (a + b) ≡ 2 ^ a * 2 ^ b
pow-add a zero = omega (arith, ap (λ (t : ℕ). 2 ^ t) (add-zero a))
pow-add a (suc b) = omega (
  arith,
  ap (λ (t : ℕ). 2 ^ t) next,
  pow-suc 2 (a + b),
  pow-suc 2 b,
  ap (λ (t : ℕ). t * 2) (pow-add a b),
  ap (λ (t : ℕ). 2 ^ a * t) (pow-suc 2 b),
)
  where
    next : a + suc b ≡ suc (a + b)
    next = omega arith

-- `x` has `r + 1` binary digits.
abbrev pub IsLog : ℕ → ℕ → Type 0
IsLog x r = (2 ^ r ≤ x) × (x < 2 ^ r * 2)

IsLog-shift : (x k r : ℕ) → IsLog (x / 2 ^ k) r → IsLog x (r + k)
IsLog-shift x k r (low, high) = (
  omega (
    arith,
    pow-add r k,
    (le-div_iff_mul-le {k = 2 ^ k} {x = 2 ^ r} {y = x} (one-le-pow k 2 (omega arith))).0 low,
  ),
  omega (
    arith,
    pow-add r k,
    (div-lt_iff_lt-mul {k = 2 ^ k} {x = x} {y = 2 ^ r * 2} (one-le-pow k 2 (omega arith))).0 high,
  ),
)

IsLog-last : (x : ℕ) → 0 < x → x ≤ 3 → IsLog x (x / 2)
IsLog-last (suc zero) p q = omega arith
IsLog-last (suc (suc zero)) p q = omega arith
IsLog-last (suc (suc (suc zero))) p q = omega arith
IsLog-last (suc (suc (suc (suc x)))) p q = absurd (omega arith)
IsLog-last zero p q = absurd (omega arith)

or_digits :
    (q r s t u : ℕ)
    → r < 2
    → s < 2
    → t < 2
    → u < 2
    → q < 2
    → bit_or (bit_or (bit_or (bit_or (bit_or 0 (q * 16)) (r * 8)) (s * 4)) (t * 2)) u
      ≡ q * 16 + r * 8 + s * 4 + t * 2 + u
or_digits q r s t u hr hs ht hu hq = ground (
  arith,
  or_sum 5 0 (q * 16),
  or_sum 4 q (r * 8),
  or_sum 3 (q * 2 + r) (s * 4),
  or_sum 2 (q * 4 + r * 2 + s) (t * 2),
  or_sum 1 (q * 8 + r * 4 + s * 2 + t) u,
)

-- One round of the search leaves a positive number of at most half the digits.
round16 : (x : ℕ) → 0 < x → x < 2 ^ 32 → let y = x >>> halving x 0xffff 16 in (0 < y) × (y ≤ 0xffff)
round16 x p q = ground arith

round8 : (x : ℕ) → 0 < x → x ≤ 0xffff → let y = x >>> halving x 0xff 8 in (0 < y) × (y ≤ 0xff)
round8 x p q = ground arith

round4 : (x : ℕ) → 0 < x → x ≤ 0xff → let y = x >>> halving x 0xf 4 in (0 < y) × (y ≤ 0xf)
round4 x p q = ground arith

round2 : (x : ℕ) → 0 < x → x ≤ 0xf → let y = x >>> halving x 0x3 2 in (0 < y) × (y ≤ 0x3)
round2 x p q = ground arith

halving_flag : (x b k : ℕ) → (f : ℕ) × (f < 2) × (halving x b k ≡ f * k)
halving_flag x b k = elim (Bool-cases (ltb b x)) [
  | inl e ↦ (1, omega arith, ground arith)
  | inr e ↦ (0, omega arith, ground arith)
]

-- The four rounds and the last digit, on the number `x` = `a - 1`.
search_digits : ℕ → ℕ
search_digits x =
    let s1 = halving x 0xffff 16 in
    let a1 = x >>> s1 in
    let s2 = halving a1 0xff 8 in
    let a2 = a1 >>> s2 in
    let s3 = halving a2 0xf 4 in
    let a3 = a2 >>> s3 in
    let s4 = halving a3 0x3 2 in
    let a4 = a3 >>> s4 in
    let r = bit_or (bit_or (bit_or (bit_or 0 s1) s2) s3) s4 in bit_or r (a4 >>> 1)

search_digits_sum :
    (s1 s2 s3 s4 y : ℕ)
    → (f : ℕ) × (f < 2) × (s1 ≡ f * 16)
    → (f : ℕ) × (f < 2) × (s2 ≡ f * 8)
    → (f : ℕ) × (f < 2) × (s3 ≡ f * 4)
    → (f : ℕ) × (f < 2) × (s4 ≡ f * 2)
    → y < 2
    → bit_or (bit_or (bit_or (bit_or (bit_or 0 s1) s2) s3) s4) y ≡ y + s4 + s3 + s2 + s1
search_digits_sum s1 s2 s3 s4 y (f1, h1, e1) (f2, h2, e2) (f3, h3, e3) (f4, h4, e4) hy =
    rw (e1, e2, e3, e4) (omega (arith, or_digits f1 f2 f3 f4 y h2 h3 h4 hy h1))

search_digits-IsLog : (x : ℕ) → 0 < x → x < 2 ^ 32 → IsLog x (search_digits x)
unfolding search_digits
search_digits-IsLog x p q =
    let s1 = halving x 0xffff 16 in
    let a1 = x >>> s1 in
    let s2 = halving a1 0xff 8 in
    let a2 = a1 >>> s2 in
    let s3 = halving a2 0xf 4 in
    let a3 = a2 >>> s3 in
    let s4 = halving a3 0x3 2 in
    let a4 = a3 >>> s4 in
    let (p1, q1) = round16 x p q in
    let (p2, q2) = round8 a1 p1 q1 in
    let (p3, q3) = round4 a2 p2 q2 in
    let (p4, q4) = round2 a3 p3 q3 in
    let total =
      search_digits_sum s1 s2 s3 s4 (a4 / 2) (halving_flag x 0xffff 16) (halving_flag a1 0xff 8)
        (halving_flag a2 0xf 4) (halving_flag a3 0x3 2) (omega arith) in
    rw total (
      IsLog-shift x s1 _
        (IsLog-shift a1 s2 _ (IsLog-shift a2 s3 _ (IsLog-shift a3 s4 _ (IsLog-last a4 p4 q4)))))

npw2_as_search : (a : ℕ) → npw2 a ≡ search_digits (sub32 a 1) + 1
unfolding npw2 search_digits
npw2_as_search a = refl

-- For a word above 1, `lfs2_npw2` is the exponent of the least power of two that is at least it.
pub npw2_least : (a : ℕ) → 1 < a → a < 2 ^ 32 → (a ≤ 2 ^ npw2 a) × (2 ^ npw2 a < 2 * a)
npw2_least a p q =
    let before : sub32 a 1 ≡ a - 1 = omega arith in
    let (low, high) = search_digits-IsLog (a - 1) (omega arith) (omega arith) in
    rw (npw2_as_search, before)
      (
        omega (arith, pow-add (search_digits (a - 1)) 1),
        omega (arith, pow-add (search_digits (a - 1)) 1),
      )
