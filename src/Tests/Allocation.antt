-- ===== src/Tests/Allocation.antt =====
-- The block allocator of littlefs/lfs2.c on a device of four blocks.
use mbed_littlefs.Base.{
  ℕ, ◌+◌, ◌%◌, ◌≡◌, refl, arith, Bool, false, ◌||◌, ltb, [], ◌∷◌, none, some, io, nospc, not, err,
  ok,
}
use mbed_littlefs.Alloc.{
  Free, mark, alloc_loop, scan, alloc_lookahead, next_window, marked, lookahead_all, Traversal,
  alloc, alloc_ack,
}
use mbed_littlefs.Alloc.Window.{has, lookahead_all_marks}
use mbed_littlefs.Alloc.Search.{Safe, IsSized, IsTraversal, AllocEnds, alloc_fresh}
use mbed_littlefs.Alloc.Full.{FullEnds, alloc_full}
use mbed_littlefs.Alloc.Failure.{alloc_failed_again}
use mbed_littlefs.Alloc.Ack.{AckEnds, alloc-alloc_ack}
use mbed_littlefs.Tests.Ram.{small_config}

abbrev two_used : Traversal (Unit {0})
two_used = record { traverse = λ s. (none, 0 ∷ 1 ∷ [], s) }

abbrev broken : Traversal (Unit {0})
broken = record { traverse = λ s. (some io, 0 ∷ 1 ∷ [], s) }

-- Blocks 0 and 1 are in use.
abbrev low : ℕ → Bool
low b = ltb b 2

abbrev no_block : ℕ → Bool
no_block b = false

-- The allocator as a mount leaves it.
abbrev mounted : Free
mounted = record { off = 0; size = 0; i = 0; ack = 4; buffer = 0 ∷ [] }

sized : IsSized small_config
sized = record {
  small = omega arith;
  some_blocks = omega arith;
  some_bits = omega arith;
  words = refl;
}

low-IsTraversal : IsTraversal small_config two_used low
low-IsTraversal = record {
  of_device = λ s e. (omega arith, (omega arith, tt));
  complete = λ s b e h. ground arith;
}

mounted-Safe : Safe small_config low no_block mounted
mounted-Safe = record {
  range = record {
    off_in = λ h. omega arith;
    off_word = omega arith;
    i_le = omega arith;
    left = omega arith;
    size_le = omega arith;
    ack_le = omega arith;
  };
  behind = λ e h. refl;
  bits = λ j h free. absurd (omega arith);
}

alloc_fresh_example :
    let (out, s', f') = alloc small_config two_used tt mounted in
    AllocEnds small_config two_used low no_block out f'
alloc_fresh_example =
    alloc_fresh small_config two_used sized low no_block low-IsTraversal tt mounted mounted-Safe

-- All blocks are in use.
abbrev all_used : Traversal (Unit {0})
all_used = record { traverse = λ s. (none, 0 ∷ 1 ∷ 2 ∷ 3 ∷ [], s) }

abbrev every : ℕ → Bool
every b = ltb b 4

every-IsTraversal : IsTraversal small_config all_used every
every-IsTraversal = record {
  of_device = λ s e. (omega arith, (omega arith, (omega arith, (omega arith, tt))));
  complete = λ s b e h. ground arith;
}

mounted_full-Safe : Safe small_config every no_block mounted
mounted_full-Safe = record {
  range = mounted-Safe.range;
  behind = λ e h. refl;
  bits = λ j h free. absurd (omega arith);
}

-- The allocation ends with LFS2_ERR_NOSPC.
out_of_blocks : (alloc small_config all_used tt mounted).0 ≡ err nospc
unfolding alloc alloc_loop scan lookahead_all alloc_lookahead next_window marked mark
out_of_blocks = refl

alloc_full_example :
    FullEnds small_config all_used sized every no_block every-IsTraversal mounted
      (alloc small_config all_used tt mounted).0
alloc_full_example =
    alloc_full small_config all_used sized every no_block every-IsTraversal tt mounted
      mounted_full-Safe (λ j h set. absurd (omega arith))

-- The allocator with the window used up, blocks 2 and 3 given out and no block left to look at.
abbrev used_up : Free
used_up = record { off = 0; size = 4; i = 4; ack = 0; buffer = 3 ∷ [] }

abbrev given : ℕ → Bool
given b = not (ltb b 2)

used_up-Safe : Safe small_config low given used_up
used_up-Safe = record {
  range = record {
    off_in = λ h. omega arith;
    off_word = omega arith;
    i_le = omega arith;
    left = omega arith;
    size_le = omega arith;
    ack_le = omega arith;
  };
  behind = λ e h. absurd (omega arith);
  bits = λ j h free. absurd (omega arith);
}

alloc-alloc_ack_example :
    AckEnds small_config two_used sized low low-IsTraversal
      (alloc small_config two_used tt (alloc_ack small_config used_up)).0
alloc-alloc_ack_example =
    alloc-alloc_ack small_config two_used sized low low-IsTraversal low given tt used_up 2
      used_up-Safe (λ b h. ground (arith, h)) (λ j h set. absurd (omega arith)) (omega arith) refl

-- The allocator after its first window of two blocks, before a traversal that fails behind the
-- superblock's pair.
abbrev next_at_two : Free
next_at_two = record { off = 0; size = 2; i = 2; ack = 2; buffer = 3 ∷ [] }

alloc_failed_again_example :
    let (out, s', f') = alloc small_config broken tt next_at_two in
    (out ≡ err io) × ((alloc small_config broken tt f').0 ≡ ok 2)
alloc_failed_again_example =
    alloc_failed_again small_config broken sized tt tt io next_at_two refl (omega arith)
      (omega arith) refl (omega arith, (omega arith, tt)) refl

abbrev window : Free
window = record { off = 2; size = 4; i = 0; ack = 4; buffer = 0 ∷ [] }

lookahead_all_marks_example :
    marked (lookahead_all small_config window (0 ∷ 1 ∷ [])).buffer 2
    ≡ (has ((2 + 2) % 4) (0 ∷ 1 ∷ []) || marked window.buffer 2)
lookahead_all_marks_example =
    lookahead_all_marks small_config sized.small window (0 ∷ 1 ∷ []) 2 (omega arith) (omega arith)
      (omega arith) (omega arith, (omega arith, tt)) (omega arith)
