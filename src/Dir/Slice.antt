-- ===== src/Dir/Slice.antt =====
-- `lfs2_dir_getslice`: the walk over the log ends.
use mathlib.Core.Path.{subst}
use mbed_littlefs.Base.{
  ℕ, zero, suc, ◌+◌, ◌-◌, ◌*◌, ◌^◌, ◌≤◌, ◌<◌, min, ◌≡◌, refl, arith, ap, ◌∙◌, false, leb, ltb, ◌==◌,
  Bool-cases, inl, inr, ◌⊎◌, List, [], ◌++◌, length, length-append, length-replicate, replicate,
  none, noent, corrupt, Outcome, ok, err, abort, out_of_fuel, u32, sub32, bit_and, bit_xor,
}
use mbed_littlefs.Util.{ByteOrder, frombe32}
use mbed_littlefs.Bits.Field.{and_low}
use mbed_littlefs.Tag.{mktag, tag_size, tag_dsize, tag_isdelete, tag_splice}
use mbed_littlefs.Tag.Layout.{tag_dsize_bounds}
use mbed_littlefs.Gstate.{Gstate}
use mbed_littlefs.Device.{Config, Driver, Cache, view, block_null, IsConfig, IsDevice}
use mbed_littlefs.Bd.{bd_read, read_loop}
use mbed_littlefs.Bd.View.{visible, length-view}
use mbed_littlefs.Bd.Read.{IsRcache, ReadFails}
use mbed_littlefs.Bd.ReadLoop.{Ends, bd_read_lem, bd_read_past_end}
use mbed_littlefs.Store.{bind, word_at}
use mbed_littlefs.Dir.{
  Mdir, splices, creates, read_rcache, slice_match, slice_entry, slice_loop, slice_start,
  dir_getslice,
}

module _ (cfg : Config) (drv : Driver) (conf : IsConfig cfg) (device : IsDevice cfg drv)
    (host : ByteOrder) where
  open drv use {Dev}
  open device use {content}

  -- A read of `n` bytes anywhere: all of them, or an error.
  abbrev pub AnyEnds : ℕ → (ℕ → ℕ → ℕ) → Outcome (List ℕ) → Dev × Cache → Type 0
  AnyEnds n F (ok bytes) s =
      (length bytes ≡ n) × IsRcache cfg drv conf device s.0 s.1 × (content s.0 ≡ F)
  AnyEnds n F (err e) s = (e ≡ corrupt) ⊎ ReadFails cfg drv conf device e
  AnyEnds n F abort s = ⊥
  AnyEnds n F out_of_fuel s = ⊥

  nothing_lem :
      (dev : Dev) (rcache : Cache) (block off : ℕ)
      → block < cfg.block_count
      → off ≤ cfg.block_size
      → bd_read cfg drv dev none rcache 0 block off 0 ≡ (ok [], dev, rcache)
  unfolding bd_read read_loop
  nothing_lem dev rcache block off hb le =
      let named : (block == block_null) ≡ false = ground (arith, conf.count) in
      let fits : ltb cfg.block_size (u32 (off + 0)) ≡ false = ground (arith, conf.small) in
      rw (named, fits) refl

  read_any :
      (dev : Dev) (rcache : Cache) (block off n : ℕ)
      → block < cfg.block_count
      → off < 3 * 2 ^ 30
      → n ≤ 2 ^ 30
      → IsRcache cfg drv conf device dev rcache
      → let (out, s) = read_rcache cfg drv host (dev, rcache) n block off n in
        AnyEnds n (content dev) out s
  read_any dev rcache block off n hb low few r = elim (Bool-cases (ltb cfg.block_size (off + n))) [
    | inl past ↦
        rw
          (bd_read_past_end cfg drv conf device dev none rcache n block off n hb (ground arith)
            (omega arith))
          (inl refl)
    | inr within ↦ elim (Bool-cases (n == 0)) [
      | inl empty ↦
          let none_left : n ≡ 0 = ground arith in
          rw (none_left, nothing_lem dev rcache block off hb (ground arith)) (refl, r, refl)
      | inr some_ ↦ ends (bd_read cfg drv dev none rcache n block off n) (
          bd_read_lem cfg drv conf device dev none rcache n block off n hb (ground arith)
            (ground arith) few tt r)
    ]
  ]
    where
      ends :
          (res : Outcome (List ℕ) × Dev × Cache)
          → Ends cfg drv conf device
              (view (visible none block (content dev block)) off n)
              res.0
              res.1
              res.2
            × (content res.1 ≡ content dev)
          → AnyEnds n (content dev) res.0 (res.1, res.2)
      ends (ok bytes, dev', rcache') ((e, r'), kept) =
          (ap length e ∙ length-view (visible none block (content dev block)) off n, r', kept)
      ends (err e, dev', rcache') (h, kept) = inr h
      ends (abort, dev', rcache') (h, kept) = h
      ends (out_of_fuel, dev', rcache') (h, kept) = h

  -- How a lookup may end: with a tag and `gsize` bytes, or with LFS2_ERR_NOENT, LFS2_ERR_CORRUPT or an
  -- error that the callback reported.
  abbrev pub SliceEnds : ℕ → (ℕ → ℕ → ℕ) → Outcome (ℕ × List ℕ) → Dev × Cache → Type 0
  SliceEnds gsize F (ok found) s =
      (length found.1 ≡ gsize) × IsRcache cfg drv conf device s.0 s.1 × (content s.0 ≡ F)
  SliceEnds gsize F (err e) s = (e ≡ noent) ⊎ (e ≡ corrupt) ⊎ ReadFails cfg drv conf device e
  SliceEnds gsize F abort s = ⊥
  SliceEnds gsize F out_of_fuel s = ⊥

  module _ (dir : Mdir) (gmask gtag goff gsize : ℕ) (F : ℕ → ℕ → ℕ)
      (in_device : dir.pair.0 < cfg.block_count) (goff_small : goff < 2 ^ 30)
      (gsize_small : gsize ≤ 2 ^ 30) where
    -- The states in which a round begins.
    abbrev Fine : Dev × Cache → Type 0
    Fine s = IsRcache cfg drv conf device s.0 s.1 × (content s.0 ≡ F)

    abbrev Result : Outcome (ℕ × List ℕ) × (Dev × Cache) → Type 0
    Result out = SliceEnds gsize F out.0 out.1

    data_lem :
        (tag gdiff n : ℕ) (res : Outcome (List ℕ) × (Dev × Cache))
        → n ≤ gsize
        → AnyEnds n F res.0 res.1
        → Result (
            bind {B = ℕ × List ℕ} res
              (λ bytes s'. (ok (u32 (tag + gdiff), bytes ++ replicate (gsize - n) 0), s')))
    data_lem tag gdiff n (ok bytes, s) le (len, r, same) = (
      omega (
        arith,
        len,
        length-append bytes (replicate (gsize - n) 0),
        length-replicate {A = ℕ} (gsize - n) 0,
      ),
      r,
      same,
    )
    data_lem tag gdiff n (err e, s) le (inl h) = inr (inl h)
    data_lem tag gdiff n (err e, s) le (inr h) = inr (inr h)
    data_lem tag gdiff n (abort, s) le h = h
    data_lem tag gdiff n (out_of_fuel, s) le h = h

    module _ (again : ℕ → Dev × Cache → Outcome (ℕ × List ℕ) × (Dev × Cache))
        (ih : (gdiff : ℕ) (s : Dev × Cache) → Fine s → Result (again gdiff s)) (off tag : ℕ)
        (low : off ≤ cfg.block_size) where
      match_lem :
          (gdiff : ℕ) (s : Dev × Cache)
          → Fine s
          → Result (slice_match cfg drv host again dir gmask gtag goff gsize off tag gdiff s)
      unfolding slice_match
      match_lem gdiff s (r, same) =
          elim (Bool-cases (bit_and gmask tag == bit_and gmask (sub32 gtag gdiff))) [
            | inr e ↦ rw (e, slice_match) (ih gdiff s (r, same))
            | inl e ↦ elim (Bool-cases (tag_isdelete tag)) [
              | inl gone ↦ rw (e, slice_match, gone) (inl refl)
              | inr there ↦
                  let diff = min (tag_size tag) gsize in
                  let at = u32 (u32 (off + 4) + goff) in
                  rw (e, slice_match, there)
                    (data_lem tag gdiff diff (read_rcache cfg drv host s diff dir.pair.0 at diff)
                      (omega arith)
                      (subst
                        (λ G.
                          AnyEnds diff G (read_rcache cfg drv host s diff dir.pair.0 at diff).0
                            (read_rcache cfg drv host s diff dir.pair.0 at diff).1)
                        same
                        (read_any s.0 s.1 dir.pair.0 at diff in_device (omega (arith, conf.small))
                          (omega arith) r)))
            ]
          ]

      entry_lem :
          (gdiff : ℕ) (s : Dev × Cache)
          → Fine s
          → Result (slice_entry cfg drv host again dir gmask gtag goff gsize off tag gdiff s)
      unfolding slice_entry
      entry_lem gdiff s fine = elim (Bool-cases (splices gmask gtag gdiff tag)) [
        | inr e ↦ rw (e, slice_entry) (match_lem gdiff s fine)
        | inl e ↦ elim (Bool-cases (creates gtag gdiff tag)) [
          | inl made ↦ rw (e, slice_entry, made) (inl refl)
          | inr older ↦
              rw (e, slice_entry, older)
                (match_lem (u32 (gdiff + mktag 0 (tag_splice tag) 0)) s fine)
        ]
      ]

    loop_lem :
        (fuel off ntag gdiff : ℕ) (s : Dev × Cache)
        → Fine s
        → ntag < 2 ^ 32
        → off ≤ cfg.block_size
        → off < fuel
        → Result (slice_loop cfg drv host dir gmask gtag goff gsize fuel off ntag gdiff s)
    unfolding slice_loop
    loop_lem zero off ntag gdiff s fine word low enough = absurd (omega arith)
    loop_lem (suc fuel) off ntag gdiff s (r, same) word low enough =
        elim (Bool-cases (leb (u32 (4 + tag_dsize ntag)) off)) [
          | inr e ↦ rw (e, slice_loop) (inl refl)
          | inl e ↦
              let bounds = tag_dsize_bounds ntag word in
              let off' = off - tag_dsize ntag in
              let res = read_rcache cfg drv host s 4 dir.pair.0 off' 4 in
              rw (e, slice_loop)
                (next_lem (loop_lem fuel) res (omega arith) (ground arith) (
                  subst (λ G. AnyEnds 4 G res.0 res.1) same
                    (read_any s.0 s.1 dir.pair.0 off' 4 in_device (omega (arith, conf.small))
                      (omega arith) r)))
        ]
      where
        next_lem :
            ((off ntag gdiff : ℕ) (s : Dev × Cache)
              → Fine s
              → ntag < 2 ^ 32
              → off ≤ cfg.block_size
              → off < fuel
              → Result (slice_loop cfg drv host dir gmask gtag goff gsize fuel off ntag gdiff s))
            → (res : Outcome (List ℕ) × (Dev × Cache)) → off - tag_dsize ntag ≤ cfg.block_size
            → off - tag_dsize ntag < fuel
            → AnyEnds 4 F res.0 res.1
            → Result (
                bind res (λ bytes s'.
                  let ntag' =
                    bit_and (bit_xor (frombe32 host (word_at host bytes 0)) ntag) 0x7fffffff in
                  slice_entry cfg drv host
                    (slice_loop cfg drv host dir gmask gtag goff gsize fuel
                      (off - tag_dsize ntag)
                      ntag')
                    dir
                    gmask
                    gtag
                    goff
                    gsize
                    (off - tag_dsize ntag)
                    ntag
                    gdiff
                    s'))
        next_lem ih (ok bytes, s') le less (len, r', same') =
            let ntag' = bit_and (bit_xor (frombe32 host (word_at host bytes 0)) ntag) 0x7fffffff in
            entry_lem
              (slice_loop cfg drv host dir gmask gtag goff gsize fuel (off - tag_dsize ntag) ntag')
              (λ gdiff' s2 fine2.
                ih (off - tag_dsize ntag) ntag' gdiff' s2 fine2
                  (omega (arith, and_low 31 (bit_xor (frombe32 host (word_at host bytes 0)) ntag)))
                  le less)
              (off - tag_dsize ntag) ntag le gdiff s' (r', same')
        next_lem ih (err e, s') le less (inl h) = inr (inl h)
        next_lem ih (err e, s') le less (inr h) = inr (inr h)
        next_lem ih (abort, s') le less h = h
        next_lem ih (out_of_fuel, s') le less h = h

  -- A lookup in the log of a metadata pair whose first block is of the device, whose log ends in that
  -- block and whose last tag is a word, ends: it gives a tag and exactly as many bytes as asked for, or
  -- LFS2_ERR_NOENT, LFS2_ERR_CORRUPT or an error that the callback reported, for every log that the
  -- block holds. No assertion fails, and after a success the device has kept its contents and the read
  -- cache holds bytes of the device.
  pub dir_getslice_lem :
      (gstate : Gstate) (dir : Mdir) (gmask gtag goff gsize : ℕ) (dev : Dev) (rcache : Cache)
      → dir.pair.0 < cfg.block_count
      → dir.off ≤ cfg.block_size
      → dir.etag < 2 ^ 32
      → goff < 2 ^ 30
      → gsize ≤ 2 ^ 30
      → IsRcache cfg drv conf device dev rcache
      → let (out, s) = dir_getslice cfg drv host gstate dir gmask gtag goff gsize (dev, rcache) in
        SliceEnds gsize (content dev) out s
  unfolding dir_getslice
  dir_getslice_lem gstate dir gmask gtag goff gsize dev rcache hb low word hg hs r =
      loop_lem dir gmask gtag goff gsize (content dev) hb hg hs (dir.off + 1) dir.off dir.etag
        (slice_start gstate dir gtag) (dev, rcache) (r, refl) word low (omega arith)
