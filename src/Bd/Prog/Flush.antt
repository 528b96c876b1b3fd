-- ===== src/Bd/Prog/Flush.antt =====
-- `lfs2_bd_flush` and `lfs2_bd_sync`: what validation gives.
use mbed_littlefs.Base.{
  ℕ, ◌+◌, ◌≤◌, ◌<◌, ◌≡◌, ◌≢◌, refl, arith, ap, ◌∙◌, sym, List, length, Option, none, some, ◌==◌,
  true, not, ◌&&◌, inl, inr, ◌⊎◌, Error, corrupt, Outcome, ok, err, abort, out_of_fuel, take,
  length-take, lt→ltb,
}
use mbed_littlefs.Util.{alignup}
use mbed_littlefs.Device.{Config, Driver, Cache, view, IsConfig, IsDevice, IsProg, block_null}
use mbed_littlefs.Bd.{cache_drop, cache_zero}
use mbed_littlefs.Bd.View.{visible, length-view}
use mbed_littlefs.Bd.Read.{IsRcache, ReadFails}
use mbed_littlefs.Bd.Prog.{
  Cmp, cmp_eq, cmp_lt, cmp_gt, Flash, block_inline, bd_cmp, flush_end, flush_next, flush_validate,
  flush_prog, bd_flush,
}
use mbed_littlefs.Bd.Prog.Compare.{compare_bytes, eq_of_compare, CmpEnds, bd_cmp_lem}

module _ (cfg : Config) (drv : Driver) (conf : IsConfig cfg) (device : IsDevice cfg drv) where
  open drv use {Dev, prog}
  open device use {content}

  -- Some call of a callback has reported the error.
  unfoldable pub ProgFails : Error → Type 0
  ProgFails e =
      (d : Dev) × (block : ℕ) × (off : ℕ) × (bytes : List ℕ) × ((prog d block off bytes).0 ≡ some e)

  -- The program cache of a block of the device, whose data rounded up to the program size fits the
  -- buffer and the block.
  pub record IsDirty (pc : Cache) : Type 0 where
    pub in_device : pc.block < cfg.block_count
    pub in_block : pc.off + alignup pc.size cfg.prog_size ≤ cfg.block_size
    pub in_buffer : alignup pc.size cfg.prog_size ≤ length pc.buffer

  -- Outside the `n` bytes of `block` from `off` on, `dev'` has the contents of `dev`.
  pub record Keeps (block off n : ℕ) (dev dev' : Dev) : Type 0 where
    pub other_block : (b : ℕ) → b ≢ block → content dev' b ≡ content dev b
    pub before : (o : ℕ) → o < off → content dev' block o ≡ content dev block o
    pub after : (o : ℕ) → off + n ≤ o → content dev' block o ≡ content dev block o

  -- How a validated flush of `pc` may end.
  abbrev pub FlushEnds : Cache → Outcome (Unit {0}) → Flash Dev → Type 0
  FlushEnds pc (ok _) s' =
      (view (content s'.dev pc.block) pc.off (alignup pc.size cfg.prog_size)
        ≡ take (alignup pc.size cfg.prog_size) pc.buffer)
      × (s'.pcache.block ≡ block_null)
      × (s'.pcache ≡ cache_zero cfg pc)
      × IsRcache cfg drv conf device s'.dev s'.rcache
  FlushEnds pc (err e) s' = (e ≡ corrupt) ⊎ ReadFails cfg drv conf device e ⊎ ProgFails e
  FlushEnds pc abort s' = ⊥
  FlushEnds pc out_of_fuel s' = ⊥

  cache_drop-IsRcache : (dev : Dev) (c : Cache) → IsRcache cfg drv conf device dev (cache_drop c)
  unfolding cache_drop
  cache_drop-IsRcache dev c = record {
    holds = λ h. absurd (omega (arith, conf.count));
    aligned = λ h. absurd (omega (arith, conf.count));
    in_block = λ h. absurd (omega (arith, conf.count));
  }

  Keeps-same :
      (block off n : ℕ) (dev dev' dev'' : Dev)
      → content dev'' ≡ content dev'
      → Keeps block off n dev dev'
      → Keeps block off n dev dev''
  Keeps-same block off n dev dev' dev'' e k = record {
    other_block = λ b ne. ap (λ (f : ℕ → ℕ → ℕ). f b) e ∙ k.other_block b ne;
    before = λ o h. ap (λ (f : ℕ → ℕ → ℕ). f block o) e ∙ k.before o h;
    after = λ o h. ap (λ (f : ℕ → ℕ → ℕ). f block o) e ∙ k.after o h;
  }

  module _ (s : Flash Dev) (d : IsDirty s.pcache) where
    abbrev diff : ℕ
    diff = alignup s.pcache.size cfg.prog_size

    abbrev bytes : List ℕ
    bytes = take diff s.pcache.buffer

    length-bytes : length bytes ≡ diff
    length-bytes = omega (arith, length-take diff s.pcache.buffer, d.in_buffer)

    -- What the comparison finds, with the read cache dropped.
    compare_lem :
        let (out, dev', rcache') =
          bd_cmp cfg drv s.dev none (cache_drop s.rcache) diff s.pcache.block s.pcache.off bytes in
        CmpEnds cfg drv conf device
          (compare_bytes (view (content s.dev s.pcache.block) s.pcache.off diff) bytes)
          out
          dev'
          rcache'
        × (content dev' ≡ content s.dev)
    unfolding visible
    compare_lem =
        let in_block = d.in_block in
        rw length-bytes at (
          bd_cmp_lem cfg drv conf device s.dev none (cache_drop s.rcache) diff s.pcache.block
            s.pcache.off bytes d.in_device (omega (arith, length-bytes))
            (omega (arith, length-bytes)) (omega (arith, conf.small)) tt
            (cache_drop-IsRcache s.dev s.rcache))

    end_lem :
        (res : Outcome Cmp) (dev' : Dev) (rcache' : Cache)
        → CmpEnds cfg drv conf device
            (compare_bytes (view (content s.dev s.pcache.block) s.pcache.off diff) bytes)
            res
            dev'
            rcache'
        → content dev' ≡ content s.dev
        → let (out, s') = flush_end cfg drv (record s { dev = dev'; rcache = rcache' }) res in
          FlushEnds s.pcache out s' × (content s'.dev ≡ content s.dev)
    unfolding cache_zero
    end_lem (ok cmp_eq) dev' rcache' (e, r) same =
        let stored =
          eq_of_compare (view (content s.dev s.pcache.block) s.pcache.off diff) bytes
            (length-view _ _ diff ∙ sym length-bytes) (sym e) in
        (
          (
            ap (λ (f : ℕ → ℕ → ℕ). view (f s.pcache.block) s.pcache.off diff) same ∙ stored,
            refl,
            refl,
            r,
          ),
          same,
        )
    end_lem (ok cmp_lt) dev' rcache' h same = (inl refl, same)
    end_lem (ok cmp_gt) dev' rcache' h same = (inl refl, same)
    end_lem (err e) dev' rcache' h same = (inr (inl h), same)
    end_lem abort dev' rcache' h same = absurd h
    end_lem out_of_fuel dev' rcache' h same = absurd h

    validate_lem :
        let (out, s') = flush_validate cfg drv true s diff in
        FlushEnds s.pcache out s' × (content s'.dev ≡ content s.dev)
    unfolding flush_validate
    validate_lem = end_lem _ _ _ compare_lem.0 compare_lem.1

  module _ (s : Flash Dev) (d : IsDirty s.pcache) where
    abbrev programmed : Dev
    programmed = (prog s.dev s.pcache.block s.pcache.off (bytes s d)).1

    allowed : IsProg cfg s.pcache.block s.pcache.off (length (bytes s d))
    allowed = record {
      in_device = d.in_device;
      in_block = omega (arith, length-bytes s d, d.in_block);
    }

    prog-Keeps : Keeps s.pcache.block s.pcache.off (diff s d) s.dev programmed
    prog-Keeps = record {
      other_block = λ b ne.
          device.content-prog_block s.dev s.pcache.block s.pcache.off (bytes s d) b allowed ne;
      before = λ o h.
          device.content-prog_outside s.dev s.pcache.block s.pcache.off (bytes s d) o allowed
            (inl h);
      after = λ o h.
          device.content-prog_outside s.dev s.pcache.block s.pcache.off (bytes s d) o allowed
            (inr (omega (arith, length-bytes s d)));
    }

    next_lem :
        (status : Option Error)
        → (prog s.dev s.pcache.block s.pcache.off (bytes s d)).0 ≡ status
        → let (out, s') =
            flush_next cfg drv true (record s { dev = programmed }) (diff s d) status in
          FlushEnds s.pcache out s' × Keeps s.pcache.block s.pcache.off (diff s d) s.dev s'.dev
    unfolding ProgFails
    next_lem none e =
        let (ends, same) = validate_lem (record s { dev = programmed }) d in
        (ends, Keeps-same _ _ _ _ _ _ same prog-Keeps)
    next_lem (some x) e =
        (inr (inr (s.dev, s.pcache.block, s.pcache.off, bytes s d, e)), prog-Keeps)

  -- A validated flush of a program cache with data ends. Where it reports success, the device holds
  -- the data of the cache, though a callback that reports success may have stored other bytes; the
  -- program cache is empty and the read cache holds bytes of the device. Where it reports an error,
  -- that is LFS2_ERR_CORRUPT or one that a callback reported. Nothing outside the programmed range
  -- changes, and no assertion fails.
  pub bd_flush_stores :
      (s : Flash Dev)
      → IsDirty s.pcache
      → let (out, s') = bd_flush cfg drv true s in
        FlushEnds s.pcache out s'
        × Keeps s.pcache.block s.pcache.off (alignup s.pcache.size cfg.prog_size) s.dev s'.dev
  unfolding bd_flush flush_prog
  bd_flush_stores s d =
      let in_device = d.in_device in
      let dirty : (not (s.pcache.block == block_null) && not (s.pcache.block == block_inline))
          ≡ true =
        ground (arith, conf.count) in
      rw (dirty, lt→ltb s.pcache.block cfg.block_count d.in_device)
        (next_lem s d (prog s.dev s.pcache.block s.pcache.off (bytes s d)).0 refl)
