-- ===== src/Alloc/Scan.antt =====
-- The search in the lookahead window.
use mbed_littlefs.Base.{
  ℕ, zero, suc, ◌+◌, ◌-◌, ◌%◌, ◌^◌, ◌≤◌, ◌<◌, ◌≡◌, refl, arith, ap, ◌∙◌, sym, true, false,
  Bool-cases, inl, inr, Option, none, some, u32,
}
use mbed_littlefs.Device.{Config}
use mbed_littlefs.Alloc.{Free, marked, step, skip, scan}

module _ (cfg : Config) where
  -- The counters are in range, so that no step wraps.
  pub record IsFree (f : Free) : Type 0 where
    pub off_in : 0 < f.size → f.off < cfg.block_count
    pub off_word : f.off < 2 ^ 32
    pub i_le : f.i ≤ f.size
    pub left : f.size ≤ f.i + f.ack
    pub size_le : f.size ≤ cfg.block_count
    pub ack_le : f.ack ≤ cfg.block_count

  -- `f'` is `f` after `d` more blocks have been looked at.
  pub record Moved (f f' : Free) (d : ℕ) : Type 0 where
    pub same_off : f'.off ≡ f.off
    pub same_size : f'.size ≡ f.size
    pub same_buffer : f'.buffer ≡ f.buffer
    pub on : f'.i ≡ f.i + d
    pub taken : f'.ack + d ≡ f.ack

  -- All blocks of the window from place `from` on, `n` of them, are marked.
  abbrev pub AllMarked : Free → ℕ → ℕ → Type 0
  AllMarked f from n = (j : ℕ) → j < n → marked f.buffer (from + j) ≡ true

  -- What a search over `n` blocks finds: a first block that is not marked, `k` blocks on, after which
  -- the marked blocks behind it are skipped as well; or that all are marked.
  abbrev pub ScanIs : Free → ℕ → Option ℕ × Free → Type 0
  ScanIs f n (some b, f') = record {
    k : ℕ;
    d : ℕ;
    k_lt : k < d;
    d_le : d ≤ n;
    before : AllMarked f f.i k;
    free : marked f.buffer (f.i + k) ≡ false;
    behind : AllMarked f (f.i + k + 1) (d - k - 1);
    block : b ≡ (f.off + f.i + k) % cfg.block_count;
    moved : Moved f f' d;
  }
  ScanIs f n (none, f') = AllMarked f f.i n × Moved f f' n

  module _ (small : cfg.block_count < 2 ^ 31) where
    step-Moved : (f : Free) → IsFree f → f.i < f.size → Moved f (step f) 1
    step-Moved f v h = record {
      same_off = refl;
      same_size = refl;
      same_buffer = refl;
      on = omega (arith, v.size_le);
      taken = omega (arith, v.left, v.ack_le);
    }

    pub Moved-IsFree :
        (f f' : Free) (d : ℕ) → IsFree f → Moved f f' d → f.i + d ≤ f.size → IsFree f'
    Moved-IsFree f f' d v m h = record {
      off_in = λ h. omega (arith, v.off_in (omega (arith, m.same_size)), m.same_off);
      off_word = omega (arith, v.off_word, m.same_off);
      i_le = omega (arith, m.on, m.same_size);
      left = omega (arith, v.left, m.on, m.taken, m.same_size);
      size_le = omega (arith, v.size_le, m.same_size);
      ack_le = omega (arith, v.ack_le, m.taken);
    }

    Moved-zero : (f : Free) → Moved f f 0
    Moved-zero f = record {
      same_off = refl;
      same_size = refl;
      same_buffer = refl;
      on = omega arith;
      taken = omega arith;
    }

    Moved-suc : (f g h : Free) (d : ℕ) → Moved f g 1 → Moved g h d → Moved f h (suc d)
    Moved-suc f g h d m m' = record {
      same_off = m'.same_off ∙ m.same_off;
      same_size = m'.same_size ∙ m.same_size;
      same_buffer = m'.same_buffer ∙ m.same_buffer;
      on = omega (arith, m.on, m'.on);
      taken = omega (arith, m.taken, m'.taken);
    }

    -- One more block in front.
    AllMarked-suc :
        (f g : Free) (from n : ℕ)
        → g.buffer ≡ f.buffer
        → marked f.buffer from ≡ true
        → AllMarked g (from + 1) n
        → AllMarked f from (suc n)
    AllMarked-suc f g from n e h rest zero p = ap (marked f.buffer) (omega arith) ∙ h
    AllMarked-suc f g from n e h rest (suc j) p =
        ap (marked f.buffer) (omega arith)
        ∙ ap (λ b. marked b (from + 1 + j)) (sym e)
        ∙ rest j (omega arith)

    -- What holds from the place after `f.i` on, said of `f`.
    from_step :
        (f : Free)
        → Moved f (step f) 1
        → (n : ℕ) → AllMarked (step f) (step f).i n
        → AllMarked f (f.i + 1) n
    from_step f m n all j p = ap (λ k. marked f.buffer (k + j)) (sym m.on) ∙ all j p

    skip_lem :
        (n : ℕ) (f : Free)
        → IsFree f
        → f.i + n ≡ f.size
        → (d : ℕ) × (d ≤ n) × AllMarked f f.i d × Moved f (skip n f) d
    unfolding skip
    skip_lem zero f v e = (0, omega arith, λ j p. absurd (omega arith), Moved-zero f)
    skip_lem (suc n) f v e = elim (Bool-cases (marked f.buffer f.i)) [
      | inl h ↦
          let m = step-Moved f v (omega arith) in
          let (d, le, all, m') =
            skip_lem n (step f) (Moved-IsFree f (step f) 1 v m (omega arith))
              (omega (arith, m.on)) in
          rw h (
            suc d,
            omega arith,
            AllMarked-suc f (step f) f.i d refl h (from_step f m d all),
            Moved-suc f (step f) (skip n (step f)) d m m',
          )
      | inr h ↦ rw h (0, omega arith, λ j p. absurd (omega arith), Moved-zero f)
    ]

    ScanIs-step :
        (f : Free)
        → Moved f (step f) 1
        → marked f.buffer f.i ≡ true
        → (n : ℕ) (out : Option ℕ × Free) → ScanIs (step f) n out
        → ScanIs f (suc n) out
    ScanIs-step f m h n (none, f') (all, m') = (
      AllMarked-suc f (step f) f.i n refl h (from_step f m n all),
      Moved-suc f (step f) f' n m m',
    )
    ScanIs-step f m h n (some b, f') r =
        let on = m.on in
        record {
          k = suc r.k;
          d = suc r.d;
          k_lt = omega (arith, r.k_lt);
          d_le = omega (arith, r.d_le);
          before = AllMarked-suc f (step f) f.i r.k refl h (from_step f m r.k r.before);
          free = ap (marked f.buffer) (omega arith) ∙ r.free;
          behind = λ j p. ap (marked f.buffer) (omega arith) ∙ r.behind j (omega arith);
          block = r.block ∙ ap (λ t. t % cfg.block_count) (omega arith);
          moved = Moved-suc f (step f) f' r.d m r.moved;
        }

    -- The search meets its description.
    pub scan_lem : (n : ℕ) (f : Free) → IsFree f → f.i + n ≡ f.size → ScanIs f n (scan cfg n f)
    unfolding scan
    scan_lem zero f v e = (λ j p. absurd (omega arith), Moved-zero f)
    scan_lem (suc n) f v e =
        let m = step-Moved f v (omega arith) in
        let v' = Moved-IsFree f (step f) 1 v m (omega arith) in
        elim (Bool-cases (marked f.buffer f.i)) [
          | inl h ↦ rw h (ScanIs-step f m h n _ (scan_lem n (step f) v' (omega (arith, m.on))))
          | inr h ↦
              let (d, le, all, m') = skip_lem n (step f) v' (omega (arith, m.on)) in
              let at : u32 (f.off + f.i) ≡ f.off + f.i + 0 =
                omega (arith, v.off_in (omega arith), v.size_le) in
              rw h (record {
                k = 0;
                d = suc d;
                k_lt = omega arith;
                d_le = omega arith;
                before = λ j p. absurd (omega arith);
                free = ap (marked f.buffer) (omega arith) ∙ h;
                behind =
                    λ j p. ap (marked f.buffer) (omega arith) ∙ from_step f m d all j (omega arith);
                block = ap (λ t. t % cfg.block_count) at;
                moved = Moved-suc f (step f) (skip n (step f)) d m m';
              })
        ]
