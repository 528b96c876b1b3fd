-- ===== src/Alloc/Ack.antt =====
-- `lfs2_alloc_ack`, and what may change between two allocations.
use native.Mathlib.Nat.{mod-lt, mod-eq_of_lt, div-add-mod', add-mul-mod_self_right}
use mbed_littlefs.Base.{
  ℕ, ◌+◌, ◌-◌, ◌*◌, ◌/◌, ◌%◌, ◌<◌, ◌≡◌, refl, ap, ◌∙◌, arith, Bool, true, false, ◌||◌, Bool-cases,
  inl, inr, ltb, Outcome, ok, err, abort, out_of_fuel,
}
use mbed_littlefs.Device.{Config}
use mbed_littlefs.Alloc.{Free, Traversal, alloc, alloc_ack}
use mbed_littlefs.Alloc.Search.{
  ahead, Safe, IsSized, IsTraversal, TraverseFails, AllocEnds, alloc_fresh,
}
use mbed_littlefs.Alloc.Full.{Marks, FullEnds, alloc_full}

module _ (cfg : Config) where
  -- An acknowledgement keeps the allocator safe, with no block pending any more, when the blocks
  -- that are in use from then on were in use before or had been given out.
  alloc_ack-Safe :
      (reach pending reach' : ℕ → Bool) (f : Free)
      → Safe cfg reach pending f
      → ((b : ℕ) → reach' b ≡ true → (reach b || pending b) ≡ true)
      → Safe cfg reach' (λ b. false) (alloc_ack cfg f)
  unfolding alloc_ack
  alloc_ack-Safe reach pending reach' f v only = record {
    range = record {
      off_in = v.range.off_in;
      off_word = v.range.off_word;
      i_le = v.range.i_le;
      left = omega (arith, v.range.left, v.range.ack_le);
      size_le = v.range.size_le;
      ack_le = omega arith;
    };
    behind = λ e h. refl;
    bits = λ j h free.
        let unused = v.bits j h free in
        let not_given = v.behind j (omega (arith, v.range.left)) in
        let before = only (ahead cfg f j) in ground (arith, unused, not_given, before);
  }

-- Every block is at some place from `x` on, round the `n` blocks.
around : (x n b : ℕ) → b < n → (e : ℕ) × (e < n) × ((x + e) % n ≡ b)
around x n b less =
    let r = x % n in
    let q = x / n in
    let below : r < n = mod-lt x {m = n} (omega arith) in
    let whole : x ≡ q * n + r = omega (arith, div-add-mod' x n) in
    elim (Bool-cases (ltb b r)) [
      | inl h ↦
          let at : x + (b + n - r) ≡ b + n + q * n = ground (arith, whole, below) in
          let once : (b + n) % n ≡ b =
            ap (λ k. (b + k) % n) one ∙ add-mul-mod_self_right b 1 n ∙ mod-eq_of_lt less in
          (
            b + n - r,
            ground (arith, below),
            ap (λ k. k % n) at ∙ add-mul-mod_self_right (b + n) q n ∙ once,
          )
      | inr h ↦
          let at : x + (b - r) ≡ b + q * n = ground (arith, whole) in
          (
            b - r,
            ground arith,
            ap (λ k. k % n) at ∙ add-mul-mod_self_right b q n ∙ mod-eq_of_lt less,
          )
    ]
  where
    one : n ≡ 1 * n
    one = omega arith

module _ (cfg : Config) {S : Type 0} (t : Traversal S) (sized : IsSized cfg) (reach' : ℕ → Bool)
    (exact : IsTraversal cfg t reach') where
  -- How an allocation after an acknowledgement ends where a block is not in use: with such a block, or
  -- with an error of a traversal.
  abbrev pub AckEnds : Outcome ℕ → Type 0
  AckEnds (ok b) = (b < cfg.block_count) × (reach' b ≡ false)
  AckEnds (err e) = TraverseFails cfg t e
  AckEnds abort = ⊥
  AckEnds out_of_fuel = ⊥

  both_lem :
      (f f' : Free) (unused : ℕ)
      → f.ack ≡ cfg.block_count
      → unused < cfg.block_count
      → reach' unused ≡ false
      → (out : Outcome ℕ) → AllocEnds cfg t reach' (λ b. false) out f'
      → FullEnds cfg t sized reach' (λ b. false) exact f out
      → AckEnds out
  both_lem f f' unused all less idle (ok b) (in_device, fresh, given, safe) h = (in_device, fresh)
  both_lem f f' unused all less idle (err e) ends (inl (n, full)) =
      let (k, near, there) = around (f.off + f.i) cfg.block_count unused less in
      let used = full k (omega (arith, all)) in absurd (ground (arith, used, ap reach' there, idle))
  both_lem f f' unused all less idle (err e) ends (inr fails) = fails
  both_lem f f' unused all less idle abort h g = h
  both_lem f f' unused all less idle out_of_fuel h g = h

  -- From a safe state, when the blocks in use were in use before or had been given out, the set bits
  -- of the rest of the window are of blocks in use, and some block is not in use: an allocation right
  -- after an acknowledgement gives a block that is not in use, or an error that a traversal reported.
  pub alloc-alloc_ack :
      (reach pending : ℕ → Bool) (s : S) (f : Free) (unused : ℕ)
      → Safe cfg reach pending f
      → ((b : ℕ) → reach' b ≡ true → (reach b || pending b) ≡ true)
      → Marks cfg t sized reach' (λ b. false) exact f
      → unused < cfg.block_count
      → reach' unused ≡ false
      → AckEnds (alloc cfg t s (alloc_ack cfg f)).0
  unfolding alloc_ack
  alloc-alloc_ack reach pending s f unused v only marks less idle =
      let acked = alloc_ack cfg f in
      let safe = alloc_ack-Safe cfg reach pending reach' f v only in
      both_lem acked (alloc cfg t s acked).2 unused refl less idle (alloc cfg t s acked).0
        (alloc_fresh cfg t sized reach' (λ b. false) exact s acked safe)
        (alloc_full cfg t sized reach' (λ b. false) exact s acked safe marks)
