-- ===== src/Tag/BlockPair.antt =====
-- Comparisons of block pairs.
use mbed_littlefs.Base.{◌≡◌, arith, true, false}
use mbed_littlefs.Tag.{Pair, pair_swap, pair_cmp, pair_sync}

-- `lfs2_pair_cmp` does not depend on the order of the pairs.
pub pair_cmp_comm : (a b : Pair) → pair_cmp a b ≡ pair_cmp b a
unfolding pair_cmp
pair_cmp_comm (a0, a1) (b0, b1) = ground arith

-- `lfs2_pair_sync` does not depend on the order of the blocks in the first pair.
pub pair_sync_swap : (a b : Pair) → pair_sync (pair_swap a) b ≡ pair_sync a b
unfolding pair_sync pair_swap
pair_sync_swap (a0, a1) (b0, b1) = ground arith

-- Nor does `lfs2_pair_cmp`.
pub pair_cmp_swap : (a b : Pair) → pair_cmp (pair_swap a) b ≡ pair_cmp a b
unfolding pair_cmp pair_swap
pair_cmp_swap (a0, a1) (b0, b1) = ground arith

-- For pairs that `lfs2_pair_sync` accepts, `lfs2_pair_cmp` returns 0.
pub pair_sync-pair_cmp : (a b : Pair) → pair_sync a b ≡ true → pair_cmp a b ≡ false
unfolding pair_sync pair_cmp
pair_sync-pair_cmp (a0, a1) (b0, b1) h = ground arith
