-- ===== src/Alloc/Window.antt =====
-- What the bits of the window say after a traversal of the blocks in use.
use native.Mathlib.Nat.{mod-eq_of_lt, mod-eq-sub-mod}
use mbed_littlefs.Base.{
  ℕ, ◌+◌, ◌-◌, ◌*◌, ◌%◌, ◌^◌, ◌≤◌, ◌<◌, ◌≡◌, refl, arith, ap, ◌∙◌, sym, Bool, false, ◌||◌, ◌==◌,
  ltb, List, [], ◌∷◌, length, Bool-cases, inl, inr, if◌then◌else◌, u32, sub32,
}
use mbed_littlefs.Device.{Config}
use mbed_littlefs.Alloc.{Free, marked, alloc_lookahead, lookahead_all}
use mbed_littlefs.Alloc.Marks.{marked-mark, length-mark}

-- The block is one of the list.
abbrev pub has : ℕ → List ℕ → Bool
has b [] = false
has b (c ∷ cs) = c == b || has b cs

-- All blocks are of a device of `n` blocks.
abbrev pub AreBlocks : ℕ → List ℕ → Type 0
AreBlocks n [] = Unit
AreBlocks n (b ∷ bs) = (b < n) × AreBlocks n bs

module _ (cfg : Config) (small : cfg.block_count < 2 ^ 31) where
  -- A number below `2 * n`, modulo `n`.
  pub mod_twice : (x n : ℕ) → x < 2 * n → x % n ≡ (if ltb x n then x else x - n)
  mod_twice x n h = elim (Bool-cases (ltb x n)) [
    | inl e ↦ rw e (mod-eq_of_lt (ground arith))
    | inr e ↦ rw e (mod-eq-sub-mod {n = x} {m = n} (ground arith) ∙ mod-eq_of_lt (ground arith))
  ]

  -- The place in the window from `off` on of a block, and the block at a place.
  place :
      (off b p : ℕ)
      → off < cfg.block_count
      → b < cfg.block_count
      → p < cfg.block_count
      → (u32 (sub32 b off + cfg.block_count) % cfg.block_count == p)
        ≡ (b == (off + p) % cfg.block_count)
  place off b p ho hb hp =
      let n = cfg.block_count in
      let x = u32 (sub32 b off + n) in
      let sum : x ≡ b + n - off = omega arith in
      ground (arith, sum, mod_twice x n (omega (arith, sum)), mod_twice (off + p) n (omega arith))

  -- One block of a traversal marks its place, where the window covers that.
  lookahead_lem :
      (f : Free) (b p : ℕ)
      → f.off < cfg.block_count
      → f.size ≤ cfg.block_count
      → f.size ≤ 32 * length f.buffer
      → b < cfg.block_count
      → p < f.size
      → marked (alloc_lookahead cfg f b).buffer p
        ≡ (b == (f.off + p) % cfg.block_count || marked f.buffer p)
  unfolding alloc_lookahead
  lookahead_lem f b p ho hs hl hb hp =
      let n = cfg.block_count in
      let at = u32 (sub32 b f.off + n) % n in
      let same = place f.off b p ho hb (omega arith) in
      elim (Bool-cases (ltb at f.size)) [
        | inl e ↦
            let below : at < f.size = ground arith in
            rw e (marked-mark f.buffer at p (omega arith) ∙ ap (λ t. t || marked f.buffer p) same)
        | inr e ↦
            let apart : (b == (f.off + p) % n) ≡ false = sym same ∙ ground arith in
            rw (e, apart) refl
      ]

  -- A traversal leaves the window but for its bits.
  pub record SameWindow (f f' : Free) : Type 0 where
    pub same_off : f'.off ≡ f.off
    pub same_size : f'.size ≡ f.size
    pub same_i : f'.i ≡ f.i
    pub same_ack : f'.ack ≡ f.ack
    pub same_length : length f'.buffer ≡ length f.buffer

  lookahead_same : (f : Free) (b : ℕ) → SameWindow f (alloc_lookahead cfg f b)
  unfolding alloc_lookahead
  lookahead_same f b =
      elim (Bool-cases (ltb (u32 (sub32 b f.off + cfg.block_count) % cfg.block_count) f.size)) [
        | inl e ↦ rw e (record {
          same_off = refl;
          same_size = refl;
          same_i = refl;
          same_ack = refl;
          same_length = length-mark f.buffer _;
        })
        | inr e ↦ rw e (record {
          same_off = refl;
          same_size = refl;
          same_i = refl;
          same_ack = refl;
          same_length = refl;
        })
      ]

  SameWindow-trans : (f g h : Free) → SameWindow f g → SameWindow g h → SameWindow f h
  SameWindow-trans f g h s t = record {
    same_off = t.same_off ∙ s.same_off;
    same_size = t.same_size ∙ s.same_size;
    same_i = t.same_i ∙ s.same_i;
    same_ack = t.same_ack ∙ s.same_ack;
    same_length = t.same_length ∙ s.same_length;
  }

  pub lookahead_all_same : (f : Free) (bs : List ℕ) → SameWindow f (lookahead_all cfg f bs)
  unfolding lookahead_all
  lookahead_all_same f [] = record {
    same_off = refl;
    same_size = refl;
    same_i = refl;
    same_ack = refl;
    same_length = refl;
  }
  lookahead_all_same f (b ∷ bs) =
      let next = alloc_lookahead cfg f b in
      SameWindow-trans f next (lookahead_all cfg next bs) (lookahead_same f b)
        (lookahead_all_same next bs)

  -- After the callback has seen the blocks `bs` of the device, the bit of each place of the window
  -- is set exactly when the block at that place is among them or the bit was set before.
  pub lookahead_all_marks :
      (f : Free) (bs : List ℕ) (p : ℕ)
      → f.off < cfg.block_count
      → f.size ≤ cfg.block_count
      → f.size ≤ 32 * length f.buffer
      → AreBlocks cfg.block_count bs
      → p < f.size
      → marked (lookahead_all cfg f bs).buffer p
        ≡ (has ((f.off + p) % cfg.block_count) bs || marked f.buffer p)
  unfolding lookahead_all
  lookahead_all_marks f [] p ho hs hl h hp = refl
  lookahead_all_marks f (b ∷ bs) p ho hs hl (hb, h) hp =
      let next = alloc_lookahead cfg f b in
      let s = lookahead_same f b in
      let o = s.same_off in
      let z = s.same_size in
      let l = s.same_length in
      let one = lookahead_lem f b p ho hs hl hb hp in
      let rest =
        lookahead_all_marks next bs p (omega arith) (omega arith) (omega arith) h (omega arith) in
      let at : (next.off + p) % cfg.block_count ≡ (f.off + p) % cfg.block_count =
        ap (λ k. (k + p) % cfg.block_count) o in
      rest
      ∙ rw (at, one)
          (or_swap (has ((f.off + p) % cfg.block_count) bs) (b == (f.off + p) % cfg.block_count)
            (marked f.buffer p))
    where
      or_swap : (x y z : Bool) → (x || (y || z)) ≡ ((y || x) || z)
      or_swap x y z = ground arith
