-- ===== src/Util/Align.antt =====
-- `lfs2_aligndown` and `lfs2_alignup`.
use native.Mathlib.Nat.{mod-lt, div-add-mod'}
use mbed_littlefs.Base.{ℕ, ◌+◌, ◌-◌, ◌*◌, ◌/◌, ◌^◌, ◌≤◌, ◌<◌, ◌≡◌, arith, ap}
use mbed_littlefs.Util.{aligndown, alignup}

pub aligndown_lem : (a n : ℕ) → aligndown a n ≡ a / n * n
unfolding aligndown
aligndown_lem a n = omega (arith, div-add-mod' a n)

pub aligndown-le : (a n : ℕ) → aligndown a n ≤ a
unfolding aligndown
aligndown-le a n = omega arith

-- `lfs2_aligndown` gives the greatest multiple of the alignment that is at most `a`.
pub aligndown_greatest :
    (a n : ℕ) → 0 < n → (aligndown a n ≡ a / n * n) × (aligndown a n ≤ a) × (a < aligndown a n + n)
unfolding aligndown
aligndown_greatest a n h = (aligndown_lem a n, omega arith, omega (arith, mod-lt a {m = n} h))

alignup_no_wrap : (a n : ℕ) → 0 < n → a + n ≤ 2 ^ 32 → alignup a n ≡ aligndown (a + n - 1) n
unfolding alignup
alignup_no_wrap a n h fits = ap (λ k. aligndown k n) (omega arith)

-- Where `a + alignment - 1` does not wrap, `lfs2_alignup` gives the least multiple of the
-- alignment that is at least `a`.
pub alignup_least :
    (a n : ℕ)
    → 0 < n
    → a + n ≤ 2 ^ 32
    → (alignup a n ≡ (a + n - 1) / n * n) × (a ≤ alignup a n) × (alignup a n < a + n)
alignup_least a n h fits =
    let (multiple, below, above) = aligndown_greatest (a + n - 1) n h in
    rw (alignup_no_wrap a n h fits) (multiple, omega arith, omega arith)
