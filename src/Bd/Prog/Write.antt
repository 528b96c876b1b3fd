-- ===== src/Bd/Prog/Write.antt =====
-- `lfs2_bd_prog`: what is programmed is what a reader sees.
use native.Mathlib.Nat.{mul-mod_left, div-add-mod'}
use mbed_littlefs.Base.{
  ℕ, zero, suc, ◌+◌, ◌-◌, ◌*◌, ◌/◌, ◌%◌, ◌^◌, ◌≤◌, ◌<◌, min, ◌≡◌, ◌≢◌, refl, arith, ap, ◌∙◌, sym,
  List, [], ◌∷◌, length, get_or, some, ◌==◌, ltb, true, false, ◌||◌, Bool-cases, inl, inr, ◌⊎◌,
  corrupt, u32, sub32, Outcome, ok, err, abort, out_of_fuel, take, drop, length-take, length-drop,
  get_or-take, get_or-drop, length-replicate, replicate,
}
use mbed_littlefs.Base.Multiple.{le_of_multiple, sub_multiple, add_multiple}
use mbed_littlefs.Util.{alignup, aligndown}
use mbed_littlefs.Util.Align.{alignup_least, aligndown_greatest}
use mbed_littlefs.Device.{Config, Driver, view, IsConfig, IsDevice, block_null}
use mbed_littlefs.Bd.{cache_zero, overwrite}
use mbed_littlefs.Bd.View.{
  visible, get_or-overwrite_before, get_or-overwrite_at, length-overwrite, get_or-view,
}
use mbed_littlefs.Bd.Read.{IsRcache, ReadFails}
use mbed_littlefs.Bd.Prog.{Flash, fits, prog_fill, prog_next, prog_loop, bd_prog}
use mbed_littlefs.Bd.Prog.Flush.{IsDirty, Keeps, FlushEnds, ProgFails, bd_flush_stores}

module _ (cfg : Config) (drv : Driver) (conf : IsConfig cfg) (device : IsDevice cfg drv)
    (block : ℕ) where
  open drv use {Dev}
  open device use {content}

  -- What a reader sees of the block.
  abbrev pub seen : Flash Dev → ℕ → ℕ
  seen s = visible (some s.pcache) block (content s.dev block)

  -- The program cache has data of the block, and more is to follow right behind it.
  pub record IsOpen (s : Flash Dev) (off : ℕ) : Type 0 where
    pub of_block : s.pcache.block ≡ block
    pub next : off ≡ s.pcache.off + s.pcache.size
    pub room : s.pcache.size < cfg.cache_size
    pub whole : s.pcache.off % cfg.prog_size ≡ 0

  -- The program cache is empty, and the data begins at a multiple of the program size.
  pub record IsEmpty (s : Flash Dev) (off : ℕ) : Type 0 where
    pub of_null : s.pcache.block ≡ block_null
    pub whole : off % cfg.prog_size ≡ 0

  pub record IsFlash (s : Flash Dev) : Type 0 where
    pub buffer : length s.pcache.buffer ≡ cfg.cache_size
    pub rcache : IsRcache cfg drv conf device s.dev s.rcache

  -- `bytes` have been stored from `off` on, and all before them and all other blocks have stayed.
  pub record Wrote (off : ℕ) (bytes : List ℕ) (s s' : Flash Dev) : Type 0 where
    pub before : (o : ℕ) → o < off → seen s' o ≡ seen s o
    pub stored : (i : ℕ) → i < length bytes → seen s' (off + i) ≡ get_or bytes i 0
    pub other : (b : ℕ) → b ≢ block → content s'.dev b ≡ content s.dev b

  -- How `lfs2_bd_prog` may end: all is stored and the next call can follow, or with
  -- LFS2_ERR_CORRUPT or an error that a callback has reported.
  abbrev pub ProgEnds : ℕ → List ℕ → Flash Dev → Outcome (Unit {0}) → Flash Dev → Type 0
  ProgEnds off bytes s (ok _) s' =
      Wrote off bytes s s'
      × IsFlash s'
      × (IsOpen s' (off + length bytes) ⊎ IsEmpty s' (off + length bytes))
  ProgEnds off bytes s (err e) s' =
      (e ≡ corrupt) ⊎ ReadFails cfg drv conf device e ⊎ ProgFails cfg drv conf device e
  ProgEnds off bytes s abort s' = ⊥
  ProgEnds off bytes s out_of_fuel s' = ⊥

  Wrote-nothing : (off : ℕ) (s : Flash Dev) → Wrote off [] s s
  Wrote-nothing off s = record {
    before = λ o h. refl;
    stored = λ i h. absurd (omega arith);
    other = λ b h. refl;
  }

  Wrote-trans :
      (off d : ℕ) (bytes : List ℕ) (s s1 s2 : Flash Dev)
      → d ≤ length bytes
      → Wrote off (take d bytes) s s1
      → Wrote (off + d) (drop d bytes) s1 s2
      → Wrote off bytes s s2
  Wrote-trans off d bytes s s1 s2 le w w' = record {
    before = λ o h. w'.before o (omega arith) ∙ w.before o h;
    stored = λ i h. elim (Bool-cases (ltb i d)) [
      | inl early ↦
          let below : i < d = ground arith in
          w'.before (off + i) (omega arith)
          ∙ w.stored i (omega (arith, length-take d bytes))
          ∙ get_or-take d bytes i 0 below
      | inr late ↦
          let above : d ≤ i = ground arith in
          ap (seen s2) (omega arith)
          ∙ w'.stored (i - d) (omega (arith, length-drop d bytes))
          ∙ get_or-drop d bytes (i - d) 0
          ∙ ap (λ k. get_or bytes k 0) (omega arith)
    ];
    other = λ b h. w'.other b h ∙ w.other b h;
  }

  prog_le_cache : cfg.prog_size ≤ cfg.cache_size
  prog_le_cache = le_of_multiple cfg.cache_size cfg.prog_size conf.cache_prog conf.cache_pos

  cache_le_block : cfg.cache_size ≤ 2 ^ 30
  cache_le_block = omega (
    arith,
    conf.small,
    le_of_multiple cfg.block_size cfg.cache_size conf.block_cache conf.block_pos,
  )

  alignup_cache : alignup cfg.cache_size cfg.prog_size ≡ cfg.cache_size
  alignup_cache =
      let c = cfg.cache_size in
      let n = cfg.prog_size in
      let small : c + n ≤ 2 ^ 32 = omega (arith, conf.small, cache_le_block, prog_le_cache) in
      let (multiple, above, near) = alignup_least c n conf.prog_pos small in
      let multiple' : alignup c n % n ≡ 0 = rw multiple (mul-mod_left ((c + n - 1) / n) n) in
      let gap =
        le_of_multiple (alignup c n - c) n
          (sub_multiple (alignup c n) c n multiple' conf.cache_prog above) in
      ground arith

  module _ (in_device : block < cfg.block_count) where
    -- The copy into the cache, before a flush.
    abbrev filled : Flash Dev → ℕ → ℕ → List ℕ → Flash Dev
    filled s off diff bytes = record s {
      pcache = record (s.pcache) {
        buffer = overwrite s.pcache.buffer (off - s.pcache.off) (take diff bytes);
        size = sub32 (u32 (off + diff)) s.pcache.off;
      };
    }

    module _ (s : Flash Dev) (off diff : ℕ) (bytes : List ℕ) (f : IsFlash s) (open_ : IsOpen s off)
        (in_block : off + length bytes ≤ cfg.block_size) (le : diff ≤ length bytes)
        (room : s.pcache.size + diff ≤ cfg.cache_size) where
      size_lem : sub32 (u32 (off + diff)) s.pcache.off ≡ s.pcache.size + diff
      size_lem = omega (arith, conf.small, open_.next)

      filled-Wrote : Wrote off (take diff bytes) s (filled s off diff bytes)
      unfolding visible
      filled-Wrote =
          let at = open_.of_block in
          let next = open_.next in
          let long = f.buffer in
          let size = size_lem in
          let len : length (take diff bytes) ≡ diff = omega (arith, length-take diff bytes) in
          record {
            before = λ o h. ground (
              arith,
              get_or-overwrite_before s.pcache.buffer (off - s.pcache.off) (take diff bytes)
                  (o - s.pcache.off),
            );
            stored = λ i h. ground (
              arith,
              get_or-overwrite_at s.pcache.buffer (off - s.pcache.off) (take diff bytes) i,
            );
            other = λ b h. refl;
          }

      filled-IsFlash : IsFlash (filled s off diff bytes)
      filled-IsFlash = record {
        buffer =
            length-overwrite s.pcache.buffer (off - s.pcache.off) (take diff bytes)
              (omega (arith, open_.next, f.buffer, length-take diff bytes))
            ∙ f.buffer;
        rcache = f.rcache;
      }

      -- A cache that is full is written out.
      module _ (full : s.pcache.size + diff ≡ cfg.cache_size) where
        abbrev whole_cache : Flash Dev
        whole_cache = filled s off diff bytes

        rounded : alignup whole_cache.pcache.size cfg.prog_size ≡ cfg.cache_size
        rounded = ap (λ t. alignup t cfg.prog_size) (size_lem ∙ full) ∙ alignup_cache

        filled-IsDirty : IsDirty cfg drv conf device whole_cache.pcache
        filled-IsDirty =
            let size : whole_cache.pcache.size ≡ cfg.cache_size = size_lem ∙ full in
            record {
              in_device = omega (arith, open_.of_block);
              in_block = rw (size, alignup_cache) (omega (arith, open_.next));
              in_buffer = rw (size, alignup_cache) (omega (arith, filled-IsFlash.buffer));
            }

        -- After a flush the device shows what the full cache showed.
        flushed_same :
            (s' : Flash Dev)
            → view (content s'.dev block) s.pcache.off cfg.cache_size
              ≡ take cfg.cache_size whole_cache.pcache.buffer
            → s'.pcache.block ≡ block_null
            → Keeps cfg drv conf device block s.pcache.off cfg.cache_size s.dev s'.dev
            → (o : ℕ) → o < off + diff
            → seen s' o ≡ seen whole_cache o
        unfolding visible
        flushed_same s' stored null k o h =
            let emptied : (block == s'.pcache.block) ≡ false = ground (arith, conf.count) in
            let at = open_.of_block in
            let next = open_.next in
            let size = size_lem in
            rw emptied (elim (Bool-cases (ltb o s.pcache.off)) [
              | inl early ↦ ground (arith, k.before o)
              | inr late ↦
                  let low : s.pcache.off ≤ o = ground arith in
                  let there : content s'.dev block o
                      ≡ get_or whole_cache.pcache.buffer (o - s.pcache.off) 0 =
                    ap (content s'.dev block) (omega arith)
                    ∙ sym (
                        get_or-view (content s'.dev block) s.pcache.off cfg.cache_size
                          (o - s.pcache.off) 0 (omega arith))
                    ∙ ap (λ xs. get_or xs (o - s.pcache.off) 0) stored
                    ∙ get_or-take cfg.cache_size whole_cache.pcache.buffer (o - s.pcache.off) 0
                        (omega arith) in
                  ground (arith, there)
            ])

        flush_ends :
            (out : Outcome (Unit {0})) (s' : Flash Dev)
            → FlushEnds cfg drv conf device whole_cache.pcache out s'
            → Keeps cfg drv conf device whole_cache.pcache.block s.pcache.off
                (alignup whole_cache.pcache.size cfg.prog_size)
                s.dev
                s'.dev
            → ProgEnds off (take diff bytes) s out s'
        unfolding cache_zero
        flush_ends (ok _) s' (stored, null, zeroed, r) k =
            let stored' : view (content s'.dev block) s.pcache.off cfg.cache_size
                ≡ take cfg.cache_size whole_cache.pcache.buffer =
              rw (rounded, open_.of_block) at stored in
            let k' : Keeps cfg drv conf device block s.pcache.off cfg.cache_size s.dev s'.dev =
              rw (rounded, open_.of_block) at k in
            let same = flushed_same s' stored' null k' in
            let w = filled-Wrote in
            let len : length (take diff bytes) ≡ diff = omega (arith, length-take diff bytes) in
            (
              record {
                before = λ o h. same o (omega arith) ∙ w.before o h;
                stored = λ i h. same (off + i) (omega arith) ∙ w.stored i h;
                other = λ b h. k'.other_block b h;
              },
              record {
                buffer =
                    ap (λ c. length c.buffer) zeroed
                    ∙ length-overwrite whole_cache.pcache.buffer 0 (replicate cfg.prog_size 0xff) (
                        omega (
                          arith,
                          filled-IsFlash.buffer,
                          prog_le_cache,
                          length-replicate {A = ℕ} cfg.prog_size 0xff,
                        ))
                    ∙ filled-IsFlash.buffer;
                rcache = r;
              },
              inr (record {
                of_null = null;
                whole =
                    ap (λ t. t % cfg.prog_size) (end len)
                    ∙ add_multiple s.pcache.off cfg.cache_size cfg.prog_size conf.cache_prog
                    ∙ open_.whole;
              }),
            )
          where
            end :
                length (take diff bytes) ≡ diff
                → off + length (take diff bytes) ≡ s.pcache.off + cfg.cache_size
            end len = omega (arith, len, open_.next, full)
        flush_ends (err e) s' h k = h
        flush_ends abort s' h k = absurd h
        flush_ends out_of_fuel s' h k = absurd h

      fill_lem :
          let (out, s') = prog_fill cfg drv true s off diff bytes in
          ProgEnds off (take diff bytes) s out s'
      unfolding prog_fill
      fill_lem = elim (Bool-cases (sub32 (u32 (off + diff)) s.pcache.off == cfg.cache_size)) [
        | inl e ↦
            let full : s.pcache.size + diff ≡ cfg.cache_size = ground (arith, size_lem) in
            let (ends, keeps) =
              bd_flush_stores cfg drv conf device (filled s off diff bytes) (filled-IsDirty full) in
            rw e (flush_ends full _ _ ends keeps)
        | inr e ↦
            let len : length (take diff bytes) ≡ diff = omega (arith, length-take diff bytes) in
            rw e (
              filled-Wrote,
              filled-IsFlash,
              inl (record {
                of_block = open_.of_block;
                next = omega (arith, len, size_lem, open_.next);
                room = ground (arith, size_lem);
                whole = open_.whole;
              }),
            )
      ]

    -- An empty cache takes one round more.
    abbrev extra : {s : Flash Dev} {off : ℕ} → IsOpen s off ⊎ IsEmpty s off → ℕ
    extra (inl o) = 0
    extra (inr e) = 1

    extra-le : {s : Flash Dev} {off : ℕ} (next : IsOpen s off ⊎ IsEmpty s off) → extra next ≤ 1
    extra-le (inl o) = omega arith
    extra-le (inr e) = omega arith

    ProgEnds-trans :
        (off d : ℕ) (bytes : List ℕ) (s s1 : Flash Dev) (out : Outcome (Unit {0})) (s2 : Flash Dev)
        → d ≤ length bytes
        → Wrote off (take d bytes) s s1
        → ProgEnds (off + d) (drop d bytes) s1 out s2
        → ProgEnds off bytes s out s2
    ProgEnds-trans off d bytes s s1 (ok _) s2 le w (w', f, next) =
        let end : off + d + length (drop d bytes) ≡ off + length bytes =
          omega (arith, length-drop d bytes) in
        (Wrote-trans off d bytes s s1 s2 le w w', f, rw end at next)
    ProgEnds-trans off d bytes s s1 (err e) s2 le w h = h
    ProgEnds-trans off d bytes s s1 abort s2 le w h = absurd h
    ProgEnds-trans off d bytes s s1 out_of_fuel s2 le w h = absurd h

    prog_next_lem :
        (again : Flash Dev → Outcome (Unit {0}) × Flash Dev) (off d : ℕ) (bytes : List ℕ)
        (s : Flash Dev)
        → d ≤ length bytes
        → ((s1 : Flash Dev)
            → IsFlash s1
            → IsOpen s1 (off + d) ⊎ IsEmpty s1 (off + d)
            → ProgEnds (off + d) (drop d bytes) s1 (again s1).0 (again s1).1)
        → (out : Outcome (Unit {0})) (s1 : Flash Dev) → ProgEnds off (take d bytes) s out s1
        → let (out', s') = prog_next cfg drv again (out, s1) in ProgEnds off bytes s out' s'
    prog_next_lem again off d bytes s le ih (ok _) s1 (w, f, next) =
        let len : length (take d bytes) ≡ d = omega (arith, length-take d bytes) in
        ProgEnds-trans off d bytes s s1 _ _ le w (ih s1 f (rw len at next))
    prog_next_lem again off d bytes s le ih (err e) s1 h = h
    prog_next_lem again off d bytes s le ih abort s1 h = absurd h
    prog_next_lem again off d bytes s le ih out_of_fuel s1 h = absurd h

    abbrev prepared : Flash Dev → ℕ → Flash Dev
    prepared s off = record s {
      pcache = record (s.pcache) { block = block; off = aligndown off cfg.prog_size; size = 0 };
    }

    prepared-IsOpen : (s : Flash Dev) (off : ℕ) → IsEmpty s off → IsOpen (prepared s off) off
    prepared-IsOpen s off e =
        let (multiple, below, near) = aligndown_greatest off cfg.prog_size conf.prog_pos in
        record {
          of_block = refl;
          next = omega (arith, multiple, div-add-mod' off cfg.prog_size, e.whole);
          room = conf.cache_pos;
          whole = rw multiple (mul-mod_left (off / cfg.prog_size) cfg.prog_size);
        }

    prepared_same : (s : Flash Dev) (off o : ℕ) → IsEmpty s off → seen (prepared s off) o ≡ seen s o
    unfolding visible
    prepared_same s off o e = ground (arith, e.of_null, conf.count)

    ProgEnds-prepared :
        (off : ℕ) (bytes : List ℕ) (s : Flash Dev) (out : Outcome (Unit {0})) (s' : Flash Dev)
        → IsEmpty s off
        → ProgEnds off bytes (prepared s off) out s'
        → ProgEnds off bytes s out s'
    ProgEnds-prepared off bytes s (ok _) s' e (w, f, next) = (
      record {
        before = λ o h. w.before o h ∙ prepared_same s off o e;
        stored = w.stored;
        other = w.other;
      },
      f,
      next,
    )
    ProgEnds-prepared off bytes s (err x) s' e h = h
    ProgEnds-prepared off bytes s abort s' e h = absurd h
    ProgEnds-prepared off bytes s out_of_fuel s' e h = absurd h

    loop_lem :
        (fuel : ℕ) (s : Flash Dev) (off : ℕ) (bytes : List ℕ)
        → IsFlash s
        → (next : IsOpen s off ⊎ IsEmpty s off) → off + length bytes ≤ cfg.block_size
        → 2 * length bytes + extra next < fuel
        → let (out, s') = prog_loop cfg drv true block fuel s off bytes in
          ProgEnds off bytes s out s'
    unfolding prog_loop
    loop_lem zero s off bytes f next in_block enough = absurd (omega arith)
    loop_lem (suc fuel) s off [] f next in_block enough =
        let end : off + 0 ≡ off = omega arith in (Wrote-nothing off s, f, rw end next)
    loop_lem (suc fuel) s off (b ∷ bs) f (inl o) in_block enough =
        let bytes = b ∷ bs in
        let diff = min (length bytes) (cfg.cache_size - (off - s.pcache.off)) in
        let at = o.of_block in
        let next = o.next in
        let room = o.room in
        let fitting : fits cfg drv s.pcache block off ≡ true =
          ground (arith, conf.small, cache_le_block) in
        rw (fitting, prog_loop)
          (prog_next_lem (λ s'. prog_loop cfg drv true block fuel s' (off + diff) (drop diff bytes))
            off diff bytes s (omega arith)
            (λ s1 f1 next1.
              loop_lem fuel s1 (off + diff) (drop diff bytes) f1 next1
                (omega (arith, length-drop diff bytes))
                (omega (arith, length-drop diff bytes, extra-le next1)))
            _ _ (fill_lem s off diff bytes f o in_block (omega arith) (omega arith)))
    loop_lem (suc fuel) s off (b ∷ bs) f (inr e) in_block enough =
        let null = e.of_null in
        let missing : fits cfg drv s.pcache block off ≡ false = ground (arith, conf.count) in
        let free : (s.pcache.block == block_null) ≡ true = ground arith in
        rw (missing, prog_loop, free)
          (ProgEnds-prepared off (b ∷ bs) s _ _ e (
            loop_lem fuel (prepared s off) off (b ∷ bs)
              (record { buffer = f.buffer; rcache = f.rcache }) (inl (prepared-IsOpen s off e))
              in_block (omega arith)))

    -- A validated program of bytes inside a block of the device, which begins at a multiple of the
    -- program size with an empty program cache or right behind the data in the cache, ends. Where it
    -- reports success a reader sees the bytes at their place and everything before them and in all
    -- other blocks as before, and the next bytes can follow. Otherwise the error is
    -- LFS2_ERR_CORRUPT or one that a callback reported. No assertion fails.
    pub bd_prog_stores :
        (s : Flash Dev) (off : ℕ) (bytes : List ℕ)
        → IsFlash s
        → IsOpen s off ⊎ IsEmpty s off
        → off + length bytes ≤ cfg.block_size
        → let (out, s') = bd_prog cfg drv true s block off bytes in ProgEnds off bytes s out s'
    unfolding bd_prog
    bd_prog_stores s off bytes f next in_block =
        let guard : (block == block_null || ltb cfg.block_size (u32 (off + length bytes))) ≡ false =
          ground (arith, conf.count, conf.small) in
        rw guard (
          loop_lem (2 * length bytes + 2) s off bytes f next in_block
            (omega (arith, extra-le next)))
