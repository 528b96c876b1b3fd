-- ===== src/Alloc/Marks.antt =====
-- The bits of the lookahead buffer.
use mbed_littlefs.Base.{
  ℕ, zero, suc, ◌*◌, ◌/◌, ◌%◌, ◌<◌, ◌≡◌, refl, arith, false, ◌||◌, ◌==◌, List, length, get_or,
  length-set, get_or-set_self, get_or-set_ne, bit_or, ◌<<<◌, replicate,
}
use mbed_littlefs.Bits.Digit.{digit, digit-bit_or, digit-lt, digit-zero}
use mbed_littlefs.Bits.Field.{digit-pow, and-pow}
use mbed_littlefs.Alloc.{marked, mark}

marked_lem :
    (buffer : List ℕ) (k : ℕ) → marked buffer k ≡ (digit (get_or buffer (k / 32) 0) (k % 32) == 1)
unfolding marked
marked_lem buffer k = ground (
  arith,
  and-pow (get_or buffer (k / 32) 0) (k % 32),
  digit-lt (get_or buffer (k / 32) 0) (k % 32),
)

-- Marking a bit of the buffer sets that bit, and leaves the others.
pub marked-mark :
    (buffer : List ℕ) (k j : ℕ)
    → k < 32 * length buffer
    → marked (mark buffer k) j ≡ (k == j || marked buffer j)
unfolding mark
marked-mark buffer k j h =
    let word = bit_or (get_or buffer (k / 32) 0) (1 <<< (k % 32)) in
    rw (marked_lem, marked_lem)
      (ground (
        arith,
        get_or-set_self buffer (k / 32) word 0,
        get_or-set_ne buffer {i = k / 32} {j = j / 32} word 0,
        digit-bit_or (get_or buffer (k / 32) 0) (1 <<< (k % 32)) (j % 32),
        digit-pow (k % 32) (j % 32),
        digit-lt (get_or buffer (j / 32) 0) (j % 32),
      ))

pub length-mark : (buffer : List ℕ) (k : ℕ) → length (mark buffer k) ≡ length buffer
unfolding mark
length-mark buffer k = length-set buffer (k / 32) _

get_or-replicate : (n i : ℕ) → get_or {A = ℕ} (replicate n 0) i 0 ≡ 0
get_or-replicate zero i = refl
get_or-replicate (suc n) zero = refl
get_or-replicate (suc n) (suc i) = get_or-replicate n i

pub marked-replicate : (n k : ℕ) → marked (replicate n 0) k ≡ false
marked-replicate n k =
    rw marked_lem (ground (arith, get_or-replicate n (k / 32), digit-zero (k % 32)))
