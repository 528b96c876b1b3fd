-- ===== src/Alloc.antt =====
-- The block allocator of littlefs/lfs2.c (`struct lfs2_free`, `lfs2_alloc_lookahead`, `lfs2_alloc`,
-- `lfs2_alloc_ack`). The traversal of the blocks in use is an interface here.
pub mod Marks
pub mod Scan
pub mod Window
pub mod Search
pub mod Full
pub mod Failure
pub mod Ack
use mbed_littlefs.Base.{
  ℕ, zero, suc, ◌+◌, ◌-◌, ◌*◌, ◌/◌, ◌%◌, ◌^◌, min, Bool, true, false, not, ltb, ◌==◌, if◌then◌else◌,
  List, [], ◌∷◌, Option, none, some, get_or, set, replicate, Error, Outcome, ok, err, abort,
  out_of_fuel, u32, sub32, ◌<<<◌, bit_and, bit_or, nospc,
}
use mbed_littlefs.Device.{Config}

-- `struct lfs2_free`: a window of `size` blocks from `off` on, the next one to look at, the number of
-- blocks to look at before the device counts as full, and a bit for each block of the window.
pub record Free : Type 0 where
  pub off : ℕ
  pub size : ℕ
  pub i : ℕ
  pub ack : ℕ
  pub buffer : List ℕ

-- `buffer[off / 32] & (1U << (off % 32))`.
unfoldable pub marked : List ℕ → ℕ → Bool
marked buffer off = not (bit_and (get_or buffer (off / 32) 0) (1 <<< (off % 32)) == 0)

-- `buffer[off / 32] |= 1U << (off % 32)`.
unfoldable pub mark : List ℕ → ℕ → List ℕ
mark buffer off = set buffer (off / 32) (bit_or (get_or buffer (off / 32) 0) (1 <<< (off % 32)))

unfoldable pub alloc_lookahead : Config → Free → ℕ → Free
alloc_lookahead cfg free block =
    let off = u32 (sub32 block free.off + cfg.block_count) % cfg.block_count in
    if ltb off free.size then record free { buffer = mark free.buffer off } else free

-- The callback at each block of a traversal.
unfoldable pub lookahead_all : Config → Free → List ℕ → Free
lookahead_all cfg free [] = free
lookahead_all cfg free (b ∷ bs) = lookahead_all cfg (alloc_lookahead cfg free b) bs

-- `free.i += 1; free.ack -= 1`.
abbrev pub step : Free → Free
step free = record free { i = u32 (free.i + 1); ack = sub32 free.ack 1 }

-- The eager loop to the next free block, over the `n` blocks that are left of the window.
unfoldable pub skip : ℕ → Free → Free
skip zero free = free
skip (suc n) free = if marked free.buffer free.i then skip n (step free) else free

-- The search in the window, over the `n` blocks that are left of it. The code goes on until `i` is
-- `size`, and `i` is never greater.
unfoldable pub scan : Config → ℕ → Free → Option ℕ × Free
scan cfg zero free = (none, free)
scan cfg (suc n) free =
    let rest = scan cfg n (step free) in
    if marked free.buffer free.i
    then rest
    else (some (u32 (free.off + free.i) % cfg.block_count), skip n (step free))

-- The next window, with no block marked.
unfoldable pub next_window : Config → Free → Free
next_window cfg free = record free {
  off = u32 (free.off + free.size) % cfg.block_count;
  size = min (8 * cfg.lookahead_size) free.ack;
  i = 0;
  buffer = replicate (cfg.lookahead_size / 4) 0;
}

-- A traversal of the file system: its error code, the blocks that it passed to the callback in
-- order, also before an error, and the state after it.
pub record Traversal (S : Type 0) : Type 0 where
  pub traverse : S → Option Error × List ℕ × S

module _ (cfg : Config) {S : Type 0} (t : Traversal S) where
  -- What follows a search of the window, where `again` is the loop of `lfs2_alloc`.
  abbrev pub alloc_next :
      (S → Free → Outcome ℕ × S × Free) → S → Option ℕ × Free → Outcome ℕ × S × Free
  alloc_next again s (some b, free) = (ok b, s, free)
  alloc_next again s (none, free) =
      let (status, blocks, s') = t.traverse s in
      let free' = lookahead_all cfg (next_window cfg free) blocks in
      if free.ack == 0
      then (err nospc, s, free)
      else elim status [ none ↦ again s' free' | some e ↦ (err e, s', free') ]

  unfoldable pub alloc_loop : ℕ → S → Free → Outcome ℕ × S × Free
  alloc_loop zero s free = (out_of_fuel, s, free)
  alloc_loop (suc fuel) s free = alloc_next (alloc_loop fuel) s (scan cfg (free.size - free.i) free)

  -- Each window but the first takes at least one from `ack`.
  unfoldable pub alloc : S → Free → Outcome ℕ × S × Free
  alloc s free = alloc_loop (free.ack + 2) s free

unfoldable pub alloc_ack : Config → Free → Free
alloc_ack cfg free = record free { ack = cfg.block_count }
