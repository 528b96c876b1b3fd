-- ===== src/Alloc/Full.antt =====
-- When `lfs2_alloc` reports that the device is full.
use native.Mathlib.Nat.{mod-lt}
use mbed_littlefs.Base.{
  ℕ, zero, suc, ◌+◌, ◌-◌, ◌*◌, ◌/◌, ◌%◌, ◌≤◌, ◌<◌, ◌≡◌, refl, arith, ap, ◌∙◌, sym, Bool, true, ◌==◌,
  ltb, Bool-cases, inl, inr, u32, length, length-replicate, ◌⊎◌, Option, none, some, Error, Outcome,
  ok, err, abort, out_of_fuel, nospc,
}
use mbed_littlefs.Device.{Config}
use mbed_littlefs.Alloc.{
  Free, marked, scan, lookahead_all, next_window, Traversal, alloc_next, alloc_loop, alloc,
}
use mbed_littlefs.Alloc.Scan.{ScanIs, scan_lem}
use mbed_littlefs.Alloc.Search.{
  ahead, Safe, IsSized, IsTraversal, TraverseFails, ahead-Moved, Safe-Moved, window_lem, rounds,
}
use mbed_littlefs.Alloc.Marks.{marked-replicate}
use mbed_littlefs.Alloc.Window.{has, lookahead_all_marks, lookahead_all_same}

module _ (cfg : Config) {S : Type 0} (t : Traversal S) (sized : IsSized cfg)
    (reach pending : ℕ → Bool) (exact : IsTraversal cfg t reach) where
  -- A block of the rest of the window whose bit is set is in use.
  abbrev pub Marks : Free → Type 0
  Marks f =
      (j : ℕ) → f.i + j < f.size → marked f.buffer (f.i + j) ≡ true → reach (ahead cfg f j) ≡ true

  -- All blocks of the device that have not been looked at since the last acknowledgement are in use.
  abbrev pub IsFull : Free → Type 0
  IsFull f = (e : ℕ) → e < f.ack → reach (ahead cfg f e) ≡ true

  -- How an allocation that gives no block may end: with LFS2_ERR_NOSPC and no block left, or with an
  -- error of a traversal.
  abbrev pub FullEnds : Free → Outcome ℕ → Type 0
  FullEnds f (ok b) = Unit
  FullEnds f (err e) = ((e ≡ nospc) × IsFull f) ⊎ TraverseFails cfg t e
  FullEnds f abort = ⊥
  FullEnds f out_of_fuel = ⊥

  FullEnds-back :
      (f f' : Free) → (IsFull f' → IsFull f) → (out : Outcome ℕ) → FullEnds f' out → FullEnds f out
  FullEnds-back f f' back (ok b) h = tt
  FullEnds-back f f' back (err e) (inl (n, full)) = inl (n, back full)
  FullEnds-back f f' back (err e) (inr h) = inr h
  FullEnds-back f f' back abort h = h
  FullEnds-back f f' back out_of_fuel h = h

  -- The marks of the next window.
  window-Marks :
      (s : S) (f : Free)
      → Safe cfg reach pending f
      → 0 < f.ack
      → (t.traverse s).0 ≡ none
      → Marks (lookahead_all cfg (next_window cfg f) (t.traverse s).1)
  unfolding next_window
  window-Marks s f v more ran j h set =
      let n = cfg.block_count in
      let w = next_window cfg f in
      let bs = (t.traverse s).1 in
      let same = lookahead_all_same cfg sized.small w bs in
      let f' = lookahead_all cfg w bs in
      let bits : w.size ≤ 32 * length w.buffer =
        omega (arith, length-replicate {A = ℕ} (cfg.lookahead_size / 4) 0, sized.words) in
      let off_in : w.off < n = mod-lt (u32 (f.off + f.size)) {m = n} sized.some_blocks in
      let marks =
        lookahead_all_marks cfg sized.small w bs j off_in (omega (arith, v.range.ack_le)) bits
          (exact.of_device s ran) (omega (arith, same.same_i, same.same_size)) in
      let block = (w.off + j) % n in
      let marked_ : marked f'.buffer j ≡ true =
        ap (marked f'.buffer) (omega (arith, same.same_i)) ∙ set in
      let visited : has block bs ≡ true =
        ground (arith, marks, marked_, marked-replicate (cfg.lookahead_size / 4) j) in
      ap reach (ap (λ k. k % n) (omega (arith, same.same_i, same.same_off)))
      ∙ sym (exact.complete s block ran (mod-lt (w.off + j) {m = n} sized.some_blocks))
      ∙ visited

  again_lem :
      (again : S → Free → Outcome ℕ × S × Free) (fuel : ℕ)
      → ((s : S) (f : Free)
          → Safe cfg reach pending f
          → Marks f
          → rounds cfg t sized f < fuel
          → FullEnds f (again s f).0)
      → (s : S) (f : Free) → Safe cfg reach pending f
      → f.i ≡ f.size
      → f.ack < fuel
      → FullEnds f (alloc_next cfg t again s (none, f)).0
  unfolding TraverseFails
  again_lem again fuel ih s f v done enough = elim (Bool-cases (f.ack == 0)) [
    | inl full ↦ rw full (inl (refl, λ e h. absurd (ground arith)))
    | inr more ↦ rw more (status_lem (ground arith) (t.traverse s).0 refl)
  ]
    where
      f' : Free
      f' = lookahead_all cfg (next_window cfg f) (t.traverse s).1

      status_lem :
          0 < f.ack
          → (status : Option Error) → (t.traverse s).0 ≡ status
          → FullEnds f
              (elim status as (λ x. Outcome ℕ × S × Free) [
                | none ↦ again (t.traverse s).2 f'
                | some e ↦ (err e, (t.traverse s).2, f')
              ]).0
      status_lem more none e =
          let (v', same, within, there) =
            window_lem cfg t sized reach pending exact s f v done more e in
          FullEnds-back f f' (λ full k h. ap reach (sym (there k)) ∙ full k (omega (arith, same))) _
            (ih _ f' v' (window-Marks s f v more e) (ground arith))
      status_lem more (some x) e = inr (s, e)

  loop_lem :
      (fuel : ℕ) (s : S) (f : Free)
      → Safe cfg reach pending f
      → Marks f
      → rounds cfg t sized f < fuel
      → FullEnds f (alloc_loop cfg t fuel s f).0
  unfolding alloc_loop
  loop_lem zero s f v w enough = absurd (omega arith)
  loop_lem (suc fuel) s f v w enough =
      scan_next (loop_lem fuel) (scan cfg (f.size - f.i) f)
        (scan_lem cfg sized.small (f.size - f.i) f v.range (omega (arith, v.range.i_le)))
    where
      scan_next :
          ((s : S) (f : Free)
            → Safe cfg reach pending f
            → Marks f
            → rounds cfg t sized f < fuel
            → FullEnds f (alloc_loop cfg t fuel s f).0)
          → (out : Option ℕ × Free) → ScanIs cfg f (f.size - f.i) out
          → FullEnds f (alloc_next cfg t (alloc_loop cfg t fuel) s out).0
      scan_next ih (some b, f') r = tt
      scan_next ih (none, f') (all, m) =
          let le = v.range.i_le in
          let d = f.size - f.i in
          FullEnds-back f f'
            (λ full e h. elim (Bool-cases (ltb e d)) [
              | inl near ↦ w e (ground arith) (all e (ground arith))
              | inr far ↦
                  ap reach (
                    sym
                      (ahead-Moved cfg t sized f f' d (e - d) m ∙ ap (ahead cfg f) (ground arith)))
                  ∙ full (e - d) (ground (arith, m.taken))
            ])
            _
            (again_lem (alloc_loop cfg t fuel) fuel ih s f'
              (Safe-Moved cfg t sized reach pending f f' d v m (omega arith))
              (omega (arith, m.on, m.same_size)) (ground (arith, m.taken)))

  -- When the window's set bits are right, an allocation that gives no block ends with
  -- LFS2_ERR_NOSPC, and then all blocks that have not been looked at since the last acknowledgement
  -- are in use, or with an error that a traversal reported.
  pub alloc_full :
      (s : S) (f : Free) → Safe cfg reach pending f → Marks f → FullEnds f (alloc cfg t s f).0
  unfolding alloc
  alloc_full s f v w = loop_lem (f.ack + 2) s f v w (ground arith)
