-- ===== src/Alloc/Search.antt =====
-- `lfs2_alloc` as a whole: it ends, and the block that it gives is free.
use native.Mathlib.Nat.{mod-lt, mod-add-mod}
use mbed_littlefs.Base.{
  ℕ, zero, suc, ◌+◌, ◌-◌, ◌*◌, ◌/◌, ◌%◌, ◌^◌, ◌≤◌, ◌<◌, ◌≡◌, refl, arith, ap, ◌∙◌, sym, Bool, false,
  ◌||◌, ◌==◌, ltb, length, length-replicate, Bool-cases, inl, inr, ◌⊎◌, if◌then◌else◌, u32, Option,
  none, some, Error, Outcome, ok, err, abort, out_of_fuel, nospc,
}
use mbed_littlefs.Device.{Config}
use mbed_littlefs.Alloc.{
  Free, marked, scan, lookahead_all, next_window, Traversal, alloc_next, alloc_loop, alloc,
}
use mbed_littlefs.Alloc.Marks.{marked-replicate}
use mbed_littlefs.Alloc.Scan.{IsFree, Moved, ScanIs, scan_lem, Moved-IsFree}
use mbed_littlefs.Alloc.Window.{has, AreBlocks, mod_twice, lookahead_all_marks, lookahead_all_same}

module _ (cfg : Config) where
  -- The block `e` places after the next one that the search looks at.
  abbrev pub ahead : Free → ℕ → ℕ
  ahead f e = (f.off + f.i + e) % cfg.block_count

  -- The counters are in range; none of the `ack` blocks that come next is `pending`, given out since
  -- the last acknowledgement; and a block of the rest of the window that is in use is marked.
  pub record Safe (reach pending : ℕ → Bool) (f : Free) : Type 0 where
    pub range : IsFree cfg f
    pub behind : (e : ℕ) → e < f.ack → pending (ahead f e) ≡ false
    pub bits :
        (j : ℕ) → f.i + j < f.size → marked f.buffer (f.i + j) ≡ false → reach (ahead f j) ≡ false

  -- The sizes that the search relies on: the buffer has a bit for each place of a window.
  pub record IsSized : Type 0 where
    pub small : cfg.block_count < 2 ^ 31
    pub some_blocks : 0 < cfg.block_count
    pub some_bits : 0 < cfg.lookahead_size
    pub words : cfg.lookahead_size % 4 ≡ 0

  module _ {S : Type 0} (t : Traversal S) where
    -- A traversal that reports no error has passed exactly the blocks in use to the callback.
    pub record IsTraversal (reach : ℕ → Bool) : Type 0 where
      pub of_device : (s : S) → (t.traverse s).0 ≡ none → AreBlocks cfg.block_count (t.traverse s).1
      pub complete :
          (s : S) (b : ℕ)
          → (t.traverse s).0 ≡ none
          → b < cfg.block_count
          → has b (t.traverse s).1 ≡ reach b

    -- Some traversal has reported the error.
    unfoldable pub TraverseFails : Error → Type 0
    TraverseFails e = (s : S) × ((t.traverse s).0 ≡ some e)

    -- How an allocation may end: with a block of the device that is neither in use nor given out
    -- since the last acknowledgement, after which the same holds with that block given out too; or
    -- with LFS2_ERR_NOSPC or an error of a traversal.
    abbrev pub AllocEnds : (reach pending : ℕ → Bool) → Outcome ℕ → Free → Type 0
    AllocEnds reach pending (ok b) f' =
        (b < cfg.block_count)
        × (reach b ≡ false)
        × (pending b ≡ false)
        × Safe reach (λ c. pending c || b == c) f'
    AllocEnds reach pending (err e) f' = (e ≡ nospc) ⊎ TraverseFails e
    AllocEnds reach pending abort f' = ⊥
    AllocEnds reach pending out_of_fuel f' = ⊥

    module _ (sized : IsSized) where
      turn :
          (y d n z : ℕ)
          → y < n
          → 0 < d
          → d < n
          → z ≡ (if ltb (y + d) n then y + d else y + d - n)
          → y ≡ z
          → ⊥
      turn y d n z hy hp hd twice e = ground arith

      -- Places less than a whole turn apart are different blocks.
      apart :
          (x d : ℕ)
          → 0 < d
          → d < cfg.block_count
          → (x % cfg.block_count ≡ (x + d) % cfg.block_count)
          → ⊥
      apart x d hp hd e =
          let n = cfg.block_count in
          let y = x % n in
          let y_lt : y < n = mod-lt x {m = n} sized.some_blocks in
          turn y d n ((x + d) % n) y_lt hp hd
            (sym (mod-add-mod x n d) ∙ mod_twice cfg sized.small (y + d) n (omega arith)) e

      -- What the next blocks are after `d` of them have been looked at.
      pub ahead-Moved : (f f' : Free) (d e : ℕ) → Moved cfg f f' d → ahead f' e ≡ ahead f (d + e)
      ahead-Moved f f' d e m = ap (λ k. k % cfg.block_count) (omega (arith, m.same_off, m.on))

      pub Safe-Moved :
          (reach pending : ℕ → Bool) (f f' : Free) (d : ℕ)
          → Safe reach pending f
          → Moved cfg f f' d
          → f.i + d ≤ f.size
          → Safe reach pending f'
      Safe-Moved reach pending f f' d v m le = record {
        range = Moved-IsFree cfg sized.small f f' d v.range m le;
        behind =
            λ e h. ap pending (ahead-Moved f f' d e m) ∙ v.behind (d + e) (omega (arith, m.taken));
        bits = λ j h free.
            ap reach (ahead-Moved f f' d j m)
            ∙ v.bits (d + j) (omega (arith, m.on, m.same_size)) (
                ap (marked f.buffer) (omega (arith, m.on))
                ∙ ap (λ b. marked b (f'.i + j)) (sym m.same_buffer)
                ∙ free);
      }

      -- A block that the search finds.
      found_lem :
          (reach pending : ℕ → Bool) (f : Free) (n : ℕ)
          → f.i + n ≡ f.size
          → Safe reach pending f
          → (b : ℕ) (f' : Free) → ScanIs cfg f n (some b, f')
          → AllocEnds reach pending (ok b) f'
      found_lem reach pending f n all v b f' r =
          let range = v.range in
          let before : f.i + r.d ≤ f.size = omega (arith, r.d_le) in
          let v' = Safe-Moved reach pending f f' r.d v r.moved before in
          let in_ack : r.k < f.ack = omega (arith, r.k_lt, range.left) in
          (
            rw r.block (mod-lt (f.off + f.i + r.k) {m = cfg.block_count} sized.some_blocks),
            ap reach r.block ∙ v.bits r.k (omega (arith, r.k_lt)) r.free,
            ap pending r.block ∙ v.behind r.k in_ack,
            record {
              range = v'.range;
              behind = λ e h.
                  let there : ahead f' e ≡ (f.off + f.i + r.k + (r.d + e - r.k)) % cfg.block_count =
                    ahead-Moved f f' r.d e r.moved
                    ∙ ap (λ k. k % cfg.block_count) (omega (arith, r.k_lt)) in
                  let differs =
                    apart (f.off + f.i + r.k) (r.d + e - r.k) (omega (arith, r.k_lt))
                      (omega (arith, r.k_lt, range.ack_le, r.moved.taken)) in
                  let other : (b == ahead f' e) ≡ false = ground (arith, there, r.block, differs) in
                  rw (v'.behind e h, other) refl;
              bits = v'.bits;
            },
          )

      -- The next window, after a traversal without an error.
      pub window_lem :
          (reach pending : ℕ → Bool)
          → IsTraversal reach
          → (s : S) (f : Free) → Safe reach pending f
          → f.i ≡ f.size
          → 0 < f.ack
          → (t.traverse s).0 ≡ none
          → let f' = lookahead_all cfg (next_window cfg f) (t.traverse s).1 in
            Safe reach pending f'
            × (f'.ack ≡ f.ack)
            × (f'.i < f'.size)
            × ((e : ℕ) → ahead f' e ≡ ahead f e)
      unfolding next_window
      window_lem reach pending exact s f v done more ran =
          let n = cfg.block_count in
          let w = next_window cfg f in
          let bs = (t.traverse s).1 in
          let same = lookahead_all_same cfg sized.small w bs in
          let f' = lookahead_all cfg w bs in
          let size_in : w.size ≤ n = omega (arith, v.range.ack_le) in
          let bits : w.size ≤ 32 * length w.buffer =
            omega (arith, length-replicate {A = ℕ} (cfg.lookahead_size / 4) 0, sized.words) in
          let off_in : w.off < n = mod-lt (u32 (f.off + f.size)) {m = n} sized.some_blocks in
          let no_wrap : u32 (f.off + f.size) ≡ f.off + f.i = elim (Bool-cases (f.size == 0)) [
            | inl e ↦ ground (arith, v.range.off_word)
            | inr e ↦ omega (arith, v.range.off_in (ground arith), v.range.size_le, sized.small)
          ] in
          let start : w.off ≡ (f.off + f.i) % n = ap (λ k. k % n) no_wrap in
          let there : (e : ℕ) → ahead f' e ≡ ahead f e = λ e.
            ap (λ k. (k + e) % n) (omega (arith, same.same_off, same.same_i, start))
            ∙ mod-add-mod (f.off + f.i) n e in
          (
            record {
              range = record {
                off_in = λ h. omega (arith, same.same_off);
                off_word = omega (arith, same.same_off);
                i_le = omega (arith, same.same_i);
                left = omega (arith, same.same_i, same.same_size, same.same_ack);
                size_le = omega (arith, same.same_size);
                ack_le = omega (arith, same.same_ack, v.range.ack_le);
              };
              behind = λ e h. ap pending (there e) ∙ v.behind e (omega (arith, same.same_ack));
              bits = λ j h free.
                  let marks =
                    lookahead_all_marks cfg sized.small w bs j off_in size_in bits
                      (exact.of_device s ran) (omega (arith, same.same_i, same.same_size)) in
                  let block = (w.off + j) % n in
                  let unmarked : marked f'.buffer j ≡ false =
                    ap (marked f'.buffer) (omega (arith, same.same_i)) ∙ free in
                  let unseen : has block bs ≡ false =
                    ground (arith, marks, unmarked, marked-replicate (cfg.lookahead_size / 4) j) in
                  ap reach (ap (λ k. k % n) (omega (arith, same.same_i, same.same_off)))
                  ∙ sym (exact.complete s block ran (mod-lt (w.off + j) {m = n} sized.some_blocks))
                  ∙ unseen;
            },
            same.same_ack,
            omega (arith, same.same_i, same.same_size, sized.some_bits),
            there,
          )

      -- The rounds of the loop that are left.
      abbrev pub rounds : Free → ℕ
      rounds f = f.ack + (if ltb f.i f.size then 0 else 1)

      module _ (reach pending : ℕ → Bool) (exact : IsTraversal reach) where
        Result : Outcome ℕ × S × Free → Type 0
        Result out = AllocEnds reach pending out.0 out.2

        -- The search found nothing in the window.
        again_lem :
            (again : S → Free → Outcome ℕ × S × Free) (fuel : ℕ)
            → ((s : S) (f : Free) → Safe reach pending f → rounds f < fuel → Result (again s f))
            → (s : S) (f : Free) → Safe reach pending f
            → f.i ≡ f.size
            → f.ack < fuel
            → Result (alloc_next cfg t again s (none, f))
        unfolding Result TraverseFails
        again_lem again fuel ih s f v done enough = elim (Bool-cases (f.ack == 0)) [
          | inl full ↦ rw full (inl refl)
          | inr more ↦ rw more (status_lem (ground arith) (t.traverse s).0 refl)
        ]
          where
            status_lem :
                0 < f.ack
                → (status : Option Error) → (t.traverse s).0 ≡ status
                → Result (elim status [
                  | none ↦
                      again
                        (t.traverse s).2
                        (lookahead_all cfg (next_window cfg f) (t.traverse s).1)
                  | some e ↦ (
                    err e,
                    (t.traverse s).2,
                    lookahead_all cfg (next_window cfg f) (t.traverse s).1,
                  )
                ])
            status_lem more none e =
                let (v', same, within, there) = window_lem reach pending exact s f v done more e in
                ih _ _ v' (ground arith)
            status_lem more (some x) e = inr (s, e)

        loop_lem :
            (fuel : ℕ) (s : S) (f : Free)
            → Safe reach pending f
            → rounds f < fuel
            → Result (alloc_loop cfg t fuel s f)
        unfolding alloc_loop Result
        loop_lem zero s f v enough = absurd (omega arith)
        loop_lem (suc fuel) s f v enough =
            let range = v.range in
            scan_next (loop_lem fuel) (scan cfg (f.size - f.i) f)
              (scan_lem cfg sized.small (f.size - f.i) f range (omega (arith, range.i_le)))
          where
            scan_next :
                ((s : S) (f : Free)
                  → Safe reach pending f
                  → rounds f < fuel
                  → Result (alloc_loop cfg t fuel s f))
                → (out : Option ℕ × Free) → ScanIs cfg f (f.size - f.i) out
                → Result (alloc_next cfg t (alloc_loop cfg t fuel) s out)
            scan_next ih (some b, f') r =
                found_lem reach pending f (f.size - f.i) (omega (arith, v.range.i_le)) v b f' r
            scan_next ih (none, f') (all, m) =
                let le = v.range.i_le in
                again_lem (alloc_loop cfg t fuel) fuel ih s f'
                  (Safe-Moved reach pending f f' (f.size - f.i) v m (omega arith))
                  (omega (arith, m.on, m.same_size)) (ground (arith, m.taken))

      -- From a safe state, with a traversal that reports exactly the blocks in use whenever it
      -- succeeds, an allocation ends: with a block of the device that is neither in use nor given out
      -- since the last acknowledgement, in a state that is safe with that block given out too, or
      -- with LFS2_ERR_NOSPC or an error of a traversal.
      pub alloc_fresh :
          (reach pending : ℕ → Bool)
          → IsTraversal reach
          → (s : S) (f : Free) → Safe reach pending f
          → let (out, s', f') = alloc cfg t s f in AllocEnds reach pending out f'
      unfolding alloc Result
      alloc_fresh reach pending exact s f v =
          loop_lem reach pending exact (f.ack + 2) s f v (ground arith)
