-- ===== src/Bd/ReadLoop.antt =====
-- `lfs2_bd_read` as a whole: it ends, and it returns the bytes under the program cache.
use mathlib.Core.Path.{subst}
use mbed_littlefs.Base.{
  ℕ, zero, suc, ◌+◌, ◌-◌, ◌*◌, ◌^◌, ◌≤◌, ◌<◌, ◌≡◌, refl, arith, ap, ap₂, ◌∙◌, sym, List, ◌++◌,
  Option, ◌==◌, ltb, if◌then◌else◌, true, false, u32, Outcome, ok, err, abort, out_of_fuel, corrupt,
}
use mbed_littlefs.Device.{Config, Driver, Cache, view, IsConfig, IsDevice, block_null}
use mbed_littlefs.Bd.{
  Round, copied, loaded, failed, assertion, prepend, read_next, read_round, read_loop, bd_read,
}
use mbed_littlefs.Bd.View.{Holds, visible, view-append}
use mbed_littlefs.Bd.Read.{IsPcache, IsRcache, ReadFails, covers, RoundIs, round_lem}

module _ (cfg : Config) (drv : Driver) (conf : IsConfig cfg) (device : IsDevice cfg drv) where
  open drv use {Dev, read}
  open device use {content}

  -- How a read may end: with `bytes` and a read cache that holds bytes of the device, or with an
  -- error that the callback has reported.
  abbrev pub Ends : List ℕ → Outcome (List ℕ) → Dev → Cache → Type 0
  Ends bytes (ok out) dev rc = (out ≡ bytes) × IsRcache cfg drv conf device dev rc
  Ends bytes (err e) dev rc = ReadFails cfg drv conf device e
  Ends bytes abort dev rc = ⊥
  Ends bytes out_of_fuel dev rc = ⊥

  pub IsRcache-read :
      (dev dev' : Dev) (c : Cache)
      → content dev' ≡ content dev
      → IsRcache cfg drv conf device dev c
      → IsRcache cfg drv conf device dev' c
  IsRcache-read dev dev' c e r = record {
    holds = λ h. subst (λ (f : ℕ → ℕ → ℕ). Holds c (f c.block)) (sym e) (r.holds h);
    aligned = r.aligned;
    in_block = r.in_block;
  }

  module _ (pcache : Option Cache) (hint block : ℕ) (F : ℕ → ℕ → ℕ)
      (in_device : block < cfg.block_count) (hint_pos : 0 < hint) (hint_small : hint ≤ 2 ^ 30)
      (p : IsPcache cfg drv conf device pcache) where
    V : ℕ → ℕ
    V = visible pcache block (F block)

    -- The rounds that are left: one to load, one to copy, for each byte.
    abbrev rounds : Cache → ℕ → ℕ → ℕ
    rounds rc off size = 2 * size + (if covers cfg drv conf device rc block off then 0 else 1)

    abbrev Result : ℕ → ℕ → Outcome (List ℕ) × Dev × Cache → Type 0
    Result off size out = Ends (view V off size) out.0 out.1 out.2 × (content out.1 ≡ F)

    round_at :
        (dev : Dev) (rc : Cache) (off size : ℕ)
        → content dev ≡ F
        → off + size ≤ cfg.block_size
        → 0 < size
        → IsRcache cfg drv conf device dev rc
        → RoundIs cfg drv conf device block off size V dev rc
            (read_round cfg drv dev pcache rc hint block off size)
    unfolding V
    round_at dev rc off size e in_block left r =
        subst
          (λ (f : ℕ → ℕ → ℕ).
            RoundIs cfg drv conf device block off size (visible pcache block (f block)) dev rc
              (read_round cfg drv dev pcache rc hint block off size))
          e
          (round_lem cfg drv conf device block off size in_device in_block left dev pcache rc hint
            hint_pos hint_small p r)

    prepend_lem :
        (bytes : List ℕ) (off n size : ℕ) (out : Outcome (List ℕ)) (dev : Dev) (rc : Cache)
        → n ≤ size
        → bytes ≡ view V off n
        → Ends (view V (off + n) (size - n)) out dev rc
        → Ends (view V off size) (prepend cfg drv bytes out) dev rc
    prepend_lem bytes off n size (ok rest) dev rc le e (er, r) =
        (ap₂ ◌++◌ e er ∙ view-append V off n (size - n) ∙ ap (view V off) (omega arith), r)
    prepend_lem bytes off n size (err x) dev rc le e h = h
    prepend_lem bytes off n size abort dev rc le e h = h
    prepend_lem bytes off n size out_of_fuel dev rc le e h = h

    module _ (again : Dev → Cache → ℕ → ℕ → Outcome (List ℕ) × Dev × Cache) (fuel : ℕ)
        (ih : (dev : Dev) (rc : Cache) (off size : ℕ)
          → content dev ≡ F
          → off + size ≤ cfg.block_size
          → IsRcache cfg drv conf device dev rc
          → rounds rc off size < fuel
          → Result off size (again dev rc off size)) where
      next_lem :
          (dev : Dev) (rc : Cache) (off size : ℕ)
          → content dev ≡ F
          → off + size ≤ cfg.block_size
          → IsRcache cfg drv conf device dev rc
          → rounds rc off size < suc fuel
          → (round : Round cfg drv) → RoundIs cfg drv conf device block off size V dev rc round
          → Result off size (read_next cfg drv again dev rc off size round)
      next_lem dev rc off size e in_block r enough (copied bytes n dev') (pos, le, eq, kept) =
          let (rest, same) =
            ih dev' rc (off + n) (size - n) (kept ∙ e) (omega arith)
              (IsRcache-read dev dev' rc kept r) (ground arith) in
          (prepend_lem bytes off n size _ _ _ le eq rest, same)
      next_lem dev rc off size e in_block r enough (loaded dev' rc') (before, after, r', kept) =
          let load_left : 2 * size + 1 < suc fuel = rw before at enough in
          ih dev' rc' off size (kept ∙ e) in_block r' (rw after (omega arith))
      next_lem dev rc off size e in_block r enough (failed x dev' rc') (fails, kept) =
          (fails, kept ∙ e)
      next_lem dev rc off size e in_block r enough assertion h = absurd h

    loop_lem :
        (fuel : ℕ) (dev : Dev) (rc : Cache) (off size : ℕ)
        → content dev ≡ F
        → off + size ≤ cfg.block_size
        → IsRcache cfg drv conf device dev rc
        → rounds rc off size < fuel
        → Result off size (read_loop cfg drv pcache hint block fuel dev rc off size)
    unfolding read_loop
    loop_lem zero dev rc off size e in_block r enough = absurd (omega arith)
    loop_lem (suc fuel) dev rc off zero e in_block r enough = ((refl, r), e)
    loop_lem (suc fuel) dev rc off (suc size) e in_block r enough =
        let left : (suc size == 0) ≡ false = ground arith in
        rw (left, read_loop)
          (next_lem (read_loop cfg drv pcache hint block fuel) fuel (loop_lem fuel) dev rc off
            (suc size) e in_block r enough
            (read_round cfg drv dev pcache rc hint block off (suc size))
            (round_at dev rc off (suc size) e in_block (omega arith) r))

  -- A read inside a block of the device, with a hint from 1 to 2 ^ 30, a program cache (if there is
  -- one) that has its bytes in its buffer, lies inside its block and begins at a multiple of the
  -- read size, and a read cache that, if it is for a block of the device, holds bytes of it from a
  -- multiple of the read size on, ends: it returns exactly the bytes of the range, those of the
  -- program cache where that covers them and those of the device elsewhere, or an error that a call
  -- of the callback reports. No assertion fails, the device keeps its contents, and after a success
  -- the read cache holds bytes of the device again.
  pub bd_read_lem :
      (dev : Dev) (pcache : Option Cache) (rcache : Cache) (hint block off size : ℕ)
      → block < cfg.block_count
      → off + size ≤ cfg.block_size
      → 0 < hint
      → hint ≤ 2 ^ 30
      → IsPcache cfg drv conf device pcache
      → IsRcache cfg drv conf device dev rcache
      → let (out, dev', rcache') = bd_read cfg drv dev pcache rcache hint block off size in
        Ends (view (visible pcache block (content dev block)) off size) out dev' rcache'
        × (content dev' ≡ content dev)
  unfolding bd_read V
  bd_read_lem dev pcache rcache hint block off size hb in_block hp hs p r =
      let named : (block == block_null) ≡ false = ground (arith, conf.count) in
      let fits : ltb cfg.block_size (u32 (off + size)) ≡ false = ground (arith, conf.small) in
      rw (named, fits)
        (loop_lem pcache hint block (content dev) hb hp hs p (2 * size + 2) dev rcache off size refl
          in_block r (ground arith))

  -- A read that reaches past the end of the block is refused, and nothing is touched.
  pub bd_read_past_end :
      (dev : Dev) (pcache : Option Cache) (rcache : Cache) (hint block off size : ℕ)
      → block < cfg.block_count
      → cfg.block_size < off + size
      → off + size < 2 ^ 32
      → bd_read cfg drv dev pcache rcache hint block off size ≡ (err corrupt, dev, rcache)
  unfolding bd_read
  bd_read_past_end dev pcache rcache hint block off size hb past small =
      let named : (block == block_null) ≡ false = ground (arith, conf.count) in
      let refused : ltb cfg.block_size (u32 (off + size)) ≡ true = ground arith in
      rw (named, refused)
