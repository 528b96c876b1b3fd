-- ===== src/Bd/Read.antt =====
-- One round of the loop in `lfs2_bd_read`.
use mbed_littlefs.Base.{
  ℕ, ◌+◌, ◌-◌, ◌/◌, ◌%◌, ◌^◌, ◌≤◌, ◌<◌, min, ◌≡◌, refl, arith, ap, ◌∙◌, sym, List, length, Option,
  none, some, ◌&&◌, ◌==◌, leb, if◌then◌else◌, Bool, true, false, Bool-cases, inl, inr, Error, u32,
  sub32, lt→ltb,
}
use mbed_littlefs.Base.Multiple.{le_of_multiple, sub_multiple, multiple_trans, min_multiple}
use native.Mathlib.Nat.{mul-mod_left}
use mbed_littlefs.Util.{aligndown, alignup}
use mbed_littlefs.Util.Align.{aligndown_greatest, alignup_least}
use mbed_littlefs.Device.{Config, Driver, Cache, view, IsConfig, IsDevice}
use mbed_littlefs.Bd.{
  Round, copied, loaded, failed, assertion, touches, hit, read_round, read_round_rcache, bypass,
  load, load_range, overwrite,
}
use mbed_littlefs.Bd.View.{Holds, visible, hit-view, Holds-overwrite, view_ext}

module _ (cfg : Config) (drv : Driver) (conf : IsConfig cfg) (device : IsDevice cfg drv) where
  open drv use {Dev, read}
  open device use {content, read_content, content-read}

  -- The program cache lies in the block and begins at a multiple of the read size.
  abbrev pub IsPcache : Option Cache → Type 0
  IsPcache none = Unit
  IsPcache (some c) =
      (c.off % cfg.read_size ≡ 0) × (c.off + c.size ≤ cfg.block_size) × (c.size ≤ length c.buffer)

  -- A read cache of a block of the device holds bytes of that block.
  pub record IsRcache (dev : Dev) (c : Cache) : Type 0 where
    pub holds : c.block < cfg.block_count → Holds c (content dev c.block)
    pub aligned : c.block < cfg.block_count → c.off % cfg.read_size ≡ 0
    pub in_block : c.block < cfg.block_count → c.off + c.size ≤ cfg.block_size

  -- Some call of the callback has reported the error.
  unfoldable pub ReadFails : Error → Type 0
  ReadFails e = (d : Dev) × (block : ℕ) × (off : ℕ) × (n : ℕ) × ((read d block off n).0 ≡ some e)

  -- The next round will copy from this cache.
  abbrev pub covers : Cache → ℕ → ℕ → Bool
  covers c block off = touches c block off && leb c.off off

  module _ (block off size : ℕ) (V : ℕ → ℕ) where
    -- What a round promises: it copies at least one byte, and the right ones; or it loads a cache
    -- that the next round copies from; or it reports an error of the callback.
    abbrev pub RoundIs : Dev → Cache → Round cfg drv → Type 0
    RoundIs dev rc (copied bytes n dev') =
        (0 < n) × (n ≤ size) × (bytes ≡ view V off n) × (content dev' ≡ content dev)
    RoundIs dev rc (loaded dev' rc') =
        (covers rc block off ≡ false)
        × (covers rc' block off ≡ true)
        × IsRcache dev' rc'
        × (content dev' ≡ content dev)
    RoundIs dev rc (failed e dev' rc') = ReadFails e × (content dev' ≡ content dev)
    RoundIs dev rc assertion = ⊥

    module _ (in_device : block < cfg.block_count) (in_block : off + size ≤ cfg.block_size)
        (some_left : 0 < size) where
      block_read : cfg.block_size % cfg.read_size ≡ 0
      block_read =
          multiple_trans cfg.block_size cfg.cache_size cfg.read_size conf.block_cache
            conf.cache_read

      bypass_lem :
          (dev : Dev) (rc : Cache) (n : ℕ)
          → off % cfg.read_size ≡ 0
          → n % cfg.read_size ≡ 0
          → 0 < n
          → n ≤ size
          → ((o : ℕ) → off ≤ o → o < off + n → V o ≡ content dev block o)
          → RoundIs dev rc (bypass cfg drv dev rc block off n)
      unfolding bypass ReadFails
      bypass_lem dev rc n ho hn pos le same = go (read dev block off n).0 refl
        where
          go :
              (status : Option Error)
              → (read dev block off n).0 ≡ status
              → RoundIs dev rc (elim status [
                | none ↦ copied (read dev block off n).1 n (read dev block off n).2
                | some e ↦ failed e (read dev block off n).2 rc
              ])
          go none e = (
            pos,
            le,
            read_content dev block off n
                  (record {
                    in_device = in_device;
                    in_block = omega arith;
                    off_aligned = ho;
                    size_aligned = hn;
                  })
                  e
                ∙ view_ext (content dev block) V off n (λ o p q. sym (same o p q)),
            content-read dev block off n,
          )
          go (some err) e = ((dev, block, off, n, e), content-read dev block off n)

      read_le_cache : cfg.read_size ≤ cfg.cache_size
      read_le_cache = le_of_multiple cfg.cache_size cfg.read_size conf.cache_read conf.cache_pos

      cache_le_block : cfg.cache_size ≤ cfg.block_size
      cache_le_block = le_of_multiple cfg.block_size cfg.cache_size conf.block_cache (omega arith)

      -- The range of a load is a whole number of read units of the block, around `off`.
      record IsLoad (c : Cache) : Type 0 where
        of_block : c.block ≡ block
        low : c.off ≤ off
        high : off < c.off + c.size
        within : c.off + c.size ≤ cfg.block_size
        off_whole : c.off % cfg.read_size ≡ 0
        size_whole : c.size % cfg.read_size ≡ 0

      load_range-IsLoad :
          (rc : Cache) (hint : ℕ)
          → 0 < hint
          → hint ≤ 2 ^ 30
          → IsLoad (load_range cfg drv rc hint block off)
      unfolding load_range
      load_range-IsLoad rc hint hp hs =
          let r = cfg.read_size in
          let start = aligndown off r in
          let end = u32 (off + hint) in
          let (start_eq, start_le, start_near) = aligndown_greatest off r conf.read_pos in
          let start_whole : start % r ≡ 0 = rw start_eq (mul-mod_left (off / r) r) in
          let fits : end + r ≤ 2 ^ 32 = omega (arith, conf.small, read_le_cache, cache_le_block) in
          let (end_eq, end_le, end_near) = alignup_least end r conf.read_pos fits in
          let end_whole : alignup end r % r ≡ 0 = rw end_eq (mul-mod_left ((end + r - 1) / r) r) in
          let end_pos : 0 < alignup end r = omega (arith, conf.small) in
          let rest = sub32 cfg.block_size start in
          let rest_eq : rest ≡ cfg.block_size - start = omega (arith, conf.small) in
          let rest_whole : rest % r ≡ 0 =
            rw rest_eq (sub_multiple cfg.block_size start r block_read start_whole (omega arith)) in
          let rest_pos : 0 < rest = omega arith in
          let end_unit = le_of_multiple (alignup end r) r end_whole end_pos in
          let rest_unit = le_of_multiple rest r rest_whole rest_pos in
          record {
            of_block = refl;
            low = start_le;
            high = omega (arith, read_le_cache);
            within = omega arith;
            off_whole = start_whole;
            size_whole =
                min_multiple (alignup end r) (min rest cfg.cache_size) r end_whole
                  (min_multiple rest cfg.cache_size r rest_whole conf.cache_read);
          }

      load_covers :
          (c : Cache) (buffer : List ℕ)
          → IsLoad c
          → covers (record c { buffer = buffer }) block off ≡ true
      load_covers c buffer l = ground (arith, conf.small, l.of_block, l.low, l.high, l.within)

      load_lem :
          (dev : Dev) (rc : Cache) (hint : ℕ)
          → 0 < hint
          → hint ≤ 2 ^ 30
          → covers rc block off ≡ false
          → RoundIs dev rc (load cfg drv dev rc hint block off)
      unfolding load ReadFails
      load_lem dev rc hint hp hs miss =
          rw (lt→ltb block cfg.block_count in_device) (go (read dev c.block c.off c.size).0 refl)
        where
          c : Cache
          c = load_range cfg drv rc hint block off

          l : IsLoad c
          l = load_range-IsLoad rc hint hp hs

          dev' : Dev
          dev' = (read dev c.block c.off c.size).2

          filled : List ℕ
          filled = overwrite c.buffer 0 (read dev c.block c.off c.size).1

          bytes :
              (read dev c.block c.off c.size).0 ≡ none
              → (read dev c.block c.off c.size).1 ≡ view (content dev' c.block) c.off c.size
          bytes e =
              read_content dev c.block c.off c.size
                (record {
                  in_device = omega (arith, l.of_block);
                  in_block = l.within;
                  off_aligned = l.off_whole;
                  size_aligned = l.size_whole;
                })
                e
              ∙ ap (λ f. view (f c.block) c.off c.size)
                  (sym (content-read dev c.block c.off c.size))

          go :
              (status : Option Error)
              → (read dev c.block c.off c.size).0 ≡ status
              → RoundIs dev rc (elim status [
                | none ↦ loaded dev' (record c { buffer = filled })
                | some e ↦ failed e dev' (record c { buffer = filled })
              ])
          go none e = (
            miss,
            load_covers c filled l,
            record {
              holds = λ h. Holds-overwrite c (content dev' c.block) _ (bytes e);
              aligned = λ h. l.off_whole;
              in_block = λ h. l.within;
            },
            content-read dev c.block c.off c.size,
          )
          go (some err) e =
              ((dev, c.block, c.off, c.size, e), content-read dev c.block c.off c.size)

      -- A reader may take `diff` bytes of the device: they are not under the program cache, and
      -- from an aligned offset they make up a read unit where `size` does.
      pub record IsOpen (dev : Dev) (diff : ℕ) : Type 0 where
        pos : 0 < diff
        le : diff ≤ size
        same : (o : ℕ) → off ≤ o → o < off + diff → V o ≡ content dev block o
        unit : off % cfg.read_size ≡ 0 → cfg.read_size ≤ size → cfg.read_size ≤ diff

      copy_rcache :
          (dev : Dev) (rc : Cache) (diff : ℕ)
          → IsRcache dev rc
          → IsOpen dev diff
          → covers rc block off ≡ true
          → let n = min diff (rc.size - (off - rc.off)) in
            RoundIs dev rc (copied (hit rc off n) n dev)
      copy_rcache dev rc diff r open_ hits =
          let n = min diff (rc.size - (off - rc.off)) in
          let same_block : block ≡ rc.block = ground arith in
          let valid : rc.block < cfg.block_count = omega arith in
          let within = r.in_block valid in
          let range : (rc.off ≤ off) × (off < rc.off + rc.size) = ground (arith, conf.small) in
          let low = range.0 in
          let high = range.1 in
          let pos = open_.pos in
          let le = open_.le in
          (
            omega arith,
            omega arith,
            hit-view rc (content dev rc.block) off n (r.holds valid) low (omega arith)
                ∙ ap (λ b. view (content dev b) off n) (sym same_block)
                ∙ view_ext (content dev block) V off n
                    (λ o p q. sym (open_.same o p (omega arith))),
            refl,
          )

      -- What is left before the read cache begins makes up a read unit too.
      before_rcache :
          (dev : Dev) (rc : Cache) (diff : ℕ)
          → IsRcache dev rc
          → IsOpen dev diff
          → covers rc block off ≡ false
          → off % cfg.read_size ≡ 0
          → cfg.read_size ≤ size
          → let diff' = if touches rc block off then min diff (rc.off - off) else diff in
            (cfg.read_size ≤ diff') × (diff' ≤ diff)
      before_rcache dev rc diff r open_ miss whole large =
          let unit = open_.unit whole large in
          elim (Bool-cases (touches rc block off)) [
            | inl near ↦
                let valid : rc.block < cfg.block_count = ground arith in
                let behind : off < rc.off = ground arith in
                let gap =
                  le_of_multiple (rc.off - off) cfg.read_size
                    (sub_multiple rc.off off cfg.read_size (r.aligned valid) whole (omega arith))
                    (omega arith) in
                rw near (omega arith, omega arith)
            | inr far ↦ rw far (omega arith, omega arith)
          ]

      rcache_lem :
          (dev : Dev) (rc : Cache) (hint diff : ℕ)
          → 0 < hint
          → hint ≤ 2 ^ 30
          → IsRcache dev rc
          → IsOpen dev diff
          → RoundIs dev rc (read_round_rcache cfg drv dev rc hint block off size diff)
      unfolding read_round_rcache
      rcache_lem dev rc hint diff hp hs r open_ = elim (Bool-cases (covers rc block off)) [
        | inl hits ↦ rw hits (copy_rcache dev rc diff r open_ hits)
        | inr miss ↦ rw miss (elim (Bool-cases direct) [
          | inl e ↦
              let whole : off % cfg.read_size ≡ 0 = ground arith in
              let large : cfg.read_size ≤ size = ground arith in
              let (unit, le) = before_rcache dev rc diff r open_ miss whole large in
              let (n_eq, n_le, n_near) = aligndown_greatest diff' cfg.read_size conf.read_pos in
              let total = open_.le in
              rw e (
                bypass_lem dev rc (aligndown diff' cfg.read_size) whole
                  (rw n_eq (mul-mod_left (diff' / cfg.read_size) cfg.read_size)) (omega arith)
                  (omega arith) (λ o p q. open_.same o p (omega arith)))
          | inr e ↦ rw e (load_lem dev rc hint hp hs miss)
        ])
      ]
        where
          direct : Bool
          direct = leb hint size && (off % cfg.read_size == 0 && leb cfg.read_size size)

          diff' : ℕ
          diff' = if touches rc block off then min diff (rc.off - off) else diff

  -- A round with no program cache, and one with it.
  module _ (block off size : ℕ) (in_device : block < cfg.block_count)
      (in_block : off + size ≤ cfg.block_size) (some_left : 0 < size) where
    copy_pcache :
        (dev : Dev) (pc rc : Cache)
        → IsPcache (some pc)
        → covers pc block off ≡ true
        → let n = min size (pc.size - (off - pc.off)) in
          RoundIs block off size
            (visible (some pc) block (content dev block))
            dev
            rc
            (copied (hit pc off n) n dev)
    unfolding visible
    copy_pcache dev pc rc (aligned, within, filled) hits =
        let V = visible (some pc) block (content dev block) in
        let n = min size (pc.size - (off - pc.off)) in
        let same_block : block ≡ pc.block = ground arith in
        let range : (pc.off ≤ off) × (off < pc.off + pc.size) = ground (arith, conf.small) in
        let low = range.0 in
        let high = range.1 in
        (
          omega arith,
          omega arith,
          hit-view pc V off n (record { filled = filled; bytes = λ o p q. ground arith }) low
              (omega arith),
          refl,
        )

    -- The bytes before the program cache begins are those of the device.
    before_pcache :
        (dev : Dev) (pc : Cache)
        → IsPcache (some pc)
        → covers pc block off ≡ false
        → IsOpen block off size
            (visible (some pc) block (content dev block))
            in_device
            in_block
            some_left
            dev
            (if touches pc block off then min size (pc.off - off) else size)
    unfolding visible
    before_pcache dev pc (aligned, within, filled) miss = elim (Bool-cases (touches pc block off)) [
      | inl near ↦
          let behind : off < pc.off = ground arith in
          let gap = λ (whole : off % cfg.read_size ≡ 0).
            le_of_multiple (pc.off - off) cfg.read_size
              (sub_multiple pc.off off cfg.read_size aligned whole (omega arith)) (omega arith) in
          rw near (record {
            pos = omega arith;
            le = omega arith;
            same = λ o p q. ground arith;
            unit = λ p q. omega (arith, gap p);
          })
      | inr far ↦ rw far (record {
        pos = some_left;
        le = omega arith;
        same = λ o p q. ground (arith, conf.small);
        unit = λ p q. q;
      })
    ]

    pub round_lem :
        (dev : Dev) (pcache : Option Cache) (rc : Cache) (hint : ℕ)
        → 0 < hint
        → hint ≤ 2 ^ 30
        → IsPcache pcache
        → IsRcache dev rc
        → RoundIs block off size
            (visible pcache block (content dev block))
            dev
            rc
            (read_round cfg drv dev pcache rc hint block off size)
    unfolding read_round visible
    round_lem dev none rc hint hp hs ok_ r =
        rcache_lem block off size (content dev block) in_device in_block some_left dev rc hint size
          hp hs r
          (record { pos = some_left; le = omega arith; same = λ o p q. refl; unit = λ p q. q })
    round_lem dev (some pc) rc hint hp hs (aligned, within, filled) r =
        elim (Bool-cases (covers pc block off)) [
          | inl hits ↦ rw hits (copy_pcache dev pc rc (aligned, within, filled) hits)
          | inr miss ↦ rw miss (
              rcache_lem block off size (visible (some pc) block (content dev block)) in_device
                in_block some_left dev rc hint _ hp hs r
                (before_pcache dev pc (aligned, within, filled) miss))
        ]
