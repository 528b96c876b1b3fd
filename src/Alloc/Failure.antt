-- ===== src/Alloc/Failure.antt =====
-- `lfs2_alloc` after a traversal that failed.
use native.Mathlib.Nat.{mod-lt, mod-eq_of_lt}
use mbed_littlefs.Base.{
  ℕ, suc, ◌+◌, ◌-◌, ◌*◌, ◌/◌, ◌%◌, ◌<◌, ◌≡◌, refl, arith, ap, ◌∙◌, false, ◌==◌, none, some, Error,
  ok, err, u32, length, length-replicate, ◌≤◌,
}
use mbed_littlefs.Device.{Config}
use mbed_littlefs.Alloc.{
  Free, marked, step, skip, scan, lookahead_all, next_window, Traversal, alloc_loop, alloc,
}
use mbed_littlefs.Alloc.Marks.{marked-replicate}
use mbed_littlefs.Alloc.Search.{IsSized}
use mbed_littlefs.Alloc.Window.{has, AreBlocks, lookahead_all_marks, lookahead_all_same}

module _ (cfg : Config) {S : Type 0} (t : Traversal S) (sized : IsSized cfg) where
  -- The search of a window that is used up.
  scan_done : (f : Free) → f.i ≡ f.size → scan cfg (f.size - f.i) f ≡ (none, f)
  unfolding scan
  scan_done f done = let none_left : f.size - f.i ≡ 0 = omega arith in rw none_left refl

  -- The search of a window whose next block is not marked.
  scan_first :
      (f : Free) (n : ℕ)
      → marked f.buffer f.i ≡ false
      → scan cfg (suc n) f ≡ (some (u32 (f.off + f.i) % cfg.block_count), skip n (step f))
  unfolding scan
  scan_first f n h = rw h refl

  -- The first block of a window whose first bit is not set is given out.
  next_free :
      (f : Free) (fuel : ℕ) (s : S)
      → f.i ≡ 0
      → 0 < f.size
      → f.off < cfg.block_count
      → marked f.buffer 0 ≡ false
      → (alloc_loop cfg t (suc fuel) s f).0 ≡ ok f.off
  unfolding alloc_loop
  next_free f fuel s start more off_in clear =
      let n = cfg.block_count in
      let size : f.size - f.i ≡ suc (f.size - 1) = omega arith in
      let first = scan_first f (f.size - 1) (ap (marked f.buffer) start ∙ clear) in
      let at : u32 (f.off + f.i) ≡ f.off = omega (arith, sized.small) in
      rw (size, first) (ap ok (ap (λ k. k % n) at ∙ mod-eq_of_lt off_in))

  failed_once :
      (s : S) (e : Error) (f : Free) (fuel : ℕ)
      → f.i ≡ f.size
      → 0 < f.ack
      → (t.traverse s).0 ≡ some e
      → alloc_loop cfg t (suc fuel) s f
        ≡ (err e, (t.traverse s).2, lookahead_all cfg (next_window cfg f) (t.traverse s).1)
  unfolding alloc_loop
  failed_once s e f fuel done more failed =
      let busy : (f.ack == 0) ≡ false = ground arith in rw (scan_done f done, busy, failed) refl

  -- An allocation whose window is used up, with blocks left to look at but no more than the device has,
  -- and whose traversal visits blocks of the device and fails before it reaches the first block of the
  -- next window, returns the error of the traversal. The next allocation gives out that block, whatever
  -- the traversal would do and whether or not the block is in use.
  pub alloc_failed_again :
      (s s2 : S) (e : Error) (f : Free)
      → f.i ≡ f.size
      → 0 < f.ack
      → f.ack ≤ cfg.block_count
      → (t.traverse s).0 ≡ some e
      → AreBlocks cfg.block_count (t.traverse s).1
      → has (u32 (f.off + f.size) % cfg.block_count) (t.traverse s).1 ≡ false
      → let (out, s', f') = alloc cfg t s f in
        (out ≡ err e) × ((alloc cfg t s2 f').0 ≡ ok (u32 (f.off + f.size) % cfg.block_count))
  unfolding alloc next_window
  alloc_failed_again s s2 e f done more ack_le failed of_device unseen =
      let n = cfg.block_count in
      let fuel : f.ack + 2 ≡ suc (f.ack + 1) = omega arith in
      let w = next_window cfg f in
      let bs = (t.traverse s).1 in
      let f' = lookahead_all cfg w bs in
      let same = lookahead_all_same cfg sized.small w bs in
      let once = failed_once s e f (f.ack + 1) done more failed in
      let off_in : w.off < n = mod-lt (u32 (f.off + f.size)) {m = n} sized.some_blocks in
      let bits : w.size ≤ 32 * length w.buffer =
        omega (arith, length-replicate {A = ℕ} (cfg.lookahead_size / 4) 0, sized.words) in
      let at : (w.off + 0) % n ≡ w.off = ap (λ k. k % n) (omega arith) ∙ mod-eq_of_lt off_in in
      let marks =
        lookahead_all_marks cfg sized.small w bs 0 off_in (omega (arith, ack_le)) bits of_device
          (omega (arith, sized.some_bits)) in
      let clear : marked f'.buffer 0 ≡ false =
        ground (arith, marks, at, unseen, marked-replicate (cfg.lookahead_size / 4) 0) in
      let fuel2 : f'.ack + 2 ≡ suc (f'.ack + 1) = omega arith in
      let next =
        next_free f' (f'.ack + 1) s2 (omega (arith, same.same_i))
          (omega (arith, same.same_size, sized.some_bits)) (omega (arith, same.same_off, off_in))
          clear in
      rw (fuel, once) (refl, rw fuel2 (next ∙ ap ok same.same_off))
