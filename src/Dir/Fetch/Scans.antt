-- ===== src/Dir/Fetch/Scans.antt =====
-- The scan of a block in `lfs2_dir_fetchmatch` of littlefs/lfs2.c: it ends, and what it leaves.
use mbed_littlefs.Base.{
  ℕ, zero, suc, ◌+◌, ◌-◌, ◌^◌, ◌≤◌, ◌<◌, ◌≡◌, refl, arith, Bool, false, not, ◌||◌, ltb, leb, ◌==◌,
  Bool-cases, inl, inr, List, Error, corrupt, Outcome, ok, err, abort, out_of_fuel, u32, bit_and,
  bit_xor,
}
use mbed_littlefs.Util.{ByteOrder, fromle32, frombe32, crc}
use mbed_littlefs.Tag.{
  Pair, tag_id, tag_type1, tag_dsize, tag_isvalid, tag_chunk, type_crc, type_tail, type_name,
  type_splice,
}
use mbed_littlefs.Tag.Layout.{tag_dsize_bounds}
use mbed_littlefs.Device.{Config, Driver, Cache, IsConfig, IsDevice}
use mbed_littlefs.Bd.Prog.{Cmp, cmp_eq, cmp_lt, cmp_gt}
use mbed_littlefs.Bd.Read.{ReadFails}
use mbed_littlefs.Store.{word_at}
use mbed_littlefs.Dir.Fetch.{
  Scan, broken, count_entry, match_entry, commit_found, read_ahead, scan_crc, sum_entry, tail_next,
  scan_change, scan_match, scan_tag, scan_loop,
}
use mbed_littlefs.Dir.Fetch.Answers.{
  Good, Fine, Scans, or_break_lem, Reads-Answers, read_ahead_lem, Scanned, Reads, Answers, or_false,
  bind_lem,
}

module _ (cfg : Config) (drv : Driver) (conf : IsConfig cfg) (device : IsDevice cfg drv)
    (host : ByteOrder) (T : Type 0) (F : ℕ → ℕ → ℕ) (Fault : Error → Type 0) (Stops : Type 0) where
  open drv use {Dev}
  open device use {content}

  broken_lem :
      (pair : Pair) (erased : Bool) (sc : Scan)
      → (Good cfg drv conf device host T F Fault Stops) pair sc
      → (Good cfg drv conf device host T F Fault Stops) pair (broken erased sc)
  unfolding broken
  broken_lem pair erased sc good = good

  -- The variables in a round of the loop at the offset.
  abbrev pub Mid : Pair → ℕ → Scan → Type 0
  Mid pair off sc =
      (Good cfg drv conf device host T F Fault Stops) pair sc
      × (sc.off ≡ off)
      × (off ≤ cfg.block_size)
      × (sc.ptag < 2 ^ 32)

  broken-Mid :
      (pair : Pair) (off : ℕ) (sc : Scan) → Mid pair off sc → Mid pair off (broken false sc)
  unfolding broken
  broken-Mid pair off sc mid = mid

  count_entry_lem :
      (pair : Pair) (off tag : ℕ) (sc : Scan) → Mid pair off sc → Mid pair off (count_entry tag sc)
  unfolding count_entry
  count_entry_lem pair off tag sc mid = elim (Bool-cases (tag_type1 tag == type_name)) [
    | inl e ↦ rw e mid
    | inr e ↦ elim (Bool-cases (tag_type1 tag == type_splice)) [
      | inl e2 ↦ rw (e, e2) mid
      | inr e2 ↦ rw (e, e2) mid
    ]
  ]

  match_entry_lem :
      (pair : Pair) (off tag : ℕ) (res : Cmp) (sc : Scan)
      → Mid pair off sc
      → Mid pair off (match_entry tag res sc)
  unfolding match_entry
  match_entry_lem pair off tag cmp_eq sc mid = mid
  match_entry_lem pair off tag cmp_lt sc mid = mid
  match_entry_lem pair off tag cmp_gt sc mid =
      elim (Bool-cases (leb (tag_id tag) (tag_id sc.tempbest))) [
        | inl e ↦ rw e mid
        | inr e ↦ rw e mid
      ]

  commit_found_lem :
      (pair : Pair) (off tag : ℕ) (sc : Scan)
      → Mid pair off sc
      → off + tag_dsize tag ≤ cfg.block_size
      → Mid pair off (commit_found tag sc)
  unfolding commit_found
  commit_found_lem pair off tag sc ((same, within, word), at, low, ptag_word) fits =
      ((same, omega (arith, conf.small), λ pos. omega arith), at, low, omega arith)

  module _ (whole : (e : Error) → ¬ (ReadFails cfg drv conf device e)) (pair : Pair)
      (in_device : pair.0 < cfg.block_count) (off : ℕ)
      (again : Scan → T × (Dev × Cache) → Outcome Scan × (T × (Dev × Cache)))
      (ih : (sc : Scan) (s : T × (Dev × Cache))
        → Mid pair off sc
        → (Fine cfg drv conf device host T F Fault Stops) s
        → (Scans cfg drv conf device host T F Fault Stops) pair (again sc s)) where
    first_block :
        (sc : Scan)
        → (Good cfg drv conf device host T F Fault Stops) pair sc
        → sc.dir.pair.0 < cfg.block_count
    first_block sc good = rw good.0 in_device

    scan_crc_lem :
        (tag : ℕ) (sc : Scan) (s : T × (Dev × Cache))
        → Mid pair off sc
        → off + tag_dsize tag ≤ cfg.block_size
        → (Fine cfg drv conf device host T F Fault Stops) s
        → (Scans cfg drv conf device host T F Fault Stops) pair
            (scan_crc cfg drv host again tag sc s)
    unfolding scan_crc
    scan_crc_lem tag sc s mid fits fine =
        (or_break_lem cfg drv conf device host T F Fault Stops)
          ((Good cfg drv conf device host T F Fault Stops) pair) sc _ _
          (broken_lem pair false sc mid.0)
          ((Reads-Answers cfg drv conf device host T F Fault Stops) _ (
            (read_ahead_lem cfg drv conf device host T F Fault Stops) whole sc.dir.pair.0
              (u32 (sc.off + 4)) 4 s (first_block sc mid.0)
              (omega (arith, mid.1, mid.2, conf.small)) (omega arith) (omega arith) fine))
          (λ bytes s' fine'. elim (Bool-cases (sc.sum == fromle32 host (word_at host bytes 0))) [
            | inl e ↦
                rw e (ih (commit_found tag sc) s' (commit_found_lem pair off tag sc mid fits) fine')
            | inr e ↦ rw e (broken_lem pair false sc mid.0, fine')
          ])

    sum_entry_lem :
        (at left : ℕ) (sc : Scan) (s : T × (Dev × Cache))
        → at + left < 2 ^ 31
        → Mid pair off sc
        → (Fine cfg drv conf device host T F Fault Stops) s
        → (Scanned cfg drv conf device host T F Fault Stops)
            (Mid pair off)
            (sum_entry cfg drv host at left sc s)
    unfolding sum_entry
    sum_entry_lem at zero sc s small mid fine = (mid, fine)
    sum_entry_lem at (suc left) sc s small mid fine =
        (or_break_lem cfg drv conf device host T F Fault Stops) (Mid pair off) sc _ _
          (broken-Mid pair off sc mid)
          ((Reads-Answers cfg drv conf device host T F Fault Stops) _ (
            (read_ahead_lem cfg drv conf device host T F Fault Stops) whole sc.dir.pair.0 (u32 at) 1
              s (first_block sc mid.0) (omega arith) (omega arith) (omega arith) fine))
          (λ bytes s' fine'.
            sum_entry_lem (at + 1) left (record sc { sum = crc sc.sum bytes }) s' (omega arith) mid
              fine')

    tail_next_lem :
        (rest : Scan → T × (Dev × Cache) → Outcome Scan × (T × (Dev × Cache)))
        → ((sc : Scan) (s : T × (Dev × Cache))
            → Mid pair off sc
            → (Fine cfg drv conf device host T F Fault Stops) s
            → (Scans cfg drv conf device host T F Fault Stops) pair (rest sc s))
        → (sc : Scan) (r : Outcome (List ℕ) × (T × (Dev × Cache))) → Mid pair off sc
        → (Reads cfg drv conf device host T F Fault Stops) r
        → (Scans cfg drv conf device host T F Fault Stops) pair (tail_next cfg drv host rest sc r)
    unfolding tail_next
    tail_next_lem rest h sc (ok bytes, s) mid fine = h _ s mid fine
    tail_next_lem rest h sc (err corrupt, s) mid (e, fine) = (broken_lem pair false sc mid.0, fine)
    tail_next_lem rest h sc (err e, s) mid (same, fine) = cc
    tail_next_lem rest h sc (abort, s) mid none_ = absurd none_
    tail_next_lem rest h sc (out_of_fuel, s) mid none_ = absurd none_

    scan_change_lem :
        (rest : Scan → T × (Dev × Cache) → Outcome Scan × (T × (Dev × Cache)))
        → ((sc : Scan) (s : T × (Dev × Cache))
            → Mid pair off sc
            → (Fine cfg drv conf device host T F Fault Stops) s
            → (Scans cfg drv conf device host T F Fault Stops) pair (rest sc s))
        → (tag : ℕ) (sc : Scan) (s : T × (Dev × Cache)) → Mid pair off sc
        → (Fine cfg drv conf device host T F Fault Stops) s
        → (Scans cfg drv conf device host T F Fault Stops) pair
            (scan_change cfg drv host rest tag sc s)
    unfolding scan_change
    scan_change_lem rest h tag sc s mid fine = elim (Bool-cases (tag_type1 tag == type_tail)) [
      | inl e ↦ rw e (
          tail_next_lem rest h (record sc { tempsplit = not (bit_and (tag_chunk tag) 1 == 0) })
            (read_ahead cfg drv host sc.dir.pair.0 (u32 (sc.off + 4)) 8 s) mid
            ((read_ahead_lem cfg drv conf device host T F Fault Stops) whole sc.dir.pair.0
              (u32 (sc.off + 4)) 8 s (first_block sc mid.0)
              (omega (arith, mid.1, mid.2, conf.small)) (omega arith) (omega arith) fine))
      | inr e ↦ rw e (h (count_entry tag sc) s (count_entry_lem pair off tag sc mid) fine)
    ]

    module _ (fmask ftag : ℕ)
        (cb : ℕ → ℕ × ℕ → T × (Dev × Cache) → Outcome Cmp × (T × (Dev × Cache)))
        (answers : (tag : ℕ) (disk : ℕ × ℕ) (s : T × (Dev × Cache))
          → (Fine cfg drv conf device host T F Fault Stops) s
          → (Answers cfg drv conf device host T F Fault Stops) (cb tag disk s)) where
      scan_match_lem :
          (tag : ℕ) (sc : Scan) (s : T × (Dev × Cache))
          → Mid pair off sc
          → (Fine cfg drv conf device host T F Fault Stops) s
          → (Scans cfg drv conf device host T F Fault Stops) pair
              (scan_match cfg drv host fmask ftag cb again tag sc s)
      unfolding scan_match
      scan_match_lem tag sc s mid fine =
          elim (Bool-cases (bit_and fmask tag == bit_and fmask ftag)) [
            | inl e ↦ rw e (
                (or_break_lem cfg drv conf device host T F Fault Stops)
                  ((Good cfg drv conf device host T F Fault Stops) pair) sc _ _
                  (broken_lem pair false sc mid.0)
                  (answers tag (sc.dir.pair.0, u32 (sc.off + 4)) s fine)
                  (λ res s' fine'.
                    ih (match_entry tag res sc) s' (match_entry_lem pair off tag res sc mid) fine'))
            | inr e ↦ rw e (ih sc s mid fine)
          ]

      scan_tag_lem :
          (tag : ℕ) (sc : Scan) (s : T × (Dev × Cache))
          → tag < 2 ^ 32
          → sc.off ≡ off
          → off < 2 ^ 31
          → (Good cfg drv conf device host T F Fault Stops) pair sc
          → (Fine cfg drv conf device host T F Fault Stops) s
          → (Scans cfg drv conf device host T F Fault Stops) pair
              (scan_tag cfg drv host fmask ftag cb again tag sc s)
      unfolding scan_tag
      scan_tag_lem tag sc s word at low good fine =
          elim (Bool-cases
            (not (tag_isvalid tag) || ltb cfg.block_size (u32 (sc.off + tag_dsize tag)))) [
              | inl e ↦ rw e (broken_lem pair (tag_type1 sc.ptag == type_crc) sc good, fine)
              | inr e ↦
                  let bounds = tag_dsize_bounds tag word in
                  let fits : off + tag_dsize tag ≤ cfg.block_size =
                    ground (arith, or_false (not (tag_isvalid tag)) _ e, bounds, conf.small) in
                  let sc' = record sc { ptag = tag } in
                  let mid : Mid pair off sc' = (good, at, omega arith, word) in
                  elim (Bool-cases (tag_type1 tag == type_crc)) [
                    | inl e2 ↦ rw (e, e2) (scan_crc_lem tag sc' s mid fits fine)
                    | inr e2 ↦
                        rw (e, e2)
                          ((bind_lem cfg drv conf device host T F Fault Stops) (Mid pair off)
                            ((Good cfg drv conf device host T F Fault Stops) pair)
                            (sum_entry cfg drv host (sc'.off + 4) (tag_dsize tag - 4) sc' s) _
                            (sum_entry_lem (sc'.off + 4) (tag_dsize tag - 4) sc' s
                              (omega (arith, at, bounds)) mid fine)
                            (λ sc2 s2 mid2 fine2.
                              scan_change_lem (scan_match cfg drv host fmask ftag cb again tag)
                                (scan_match_lem tag) tag sc2 s2 mid2 fine2))
                  ]
            ]

  module _ (whole : (e : Error) → ¬ (ReadFails cfg drv conf device e)) (pair : Pair)
      (in_device : pair.0 < cfg.block_count) (fmask ftag : ℕ)
      (cb : ℕ → ℕ × ℕ → T × (Dev × Cache) → Outcome Cmp × (T × (Dev × Cache)))
      (answers : (tag : ℕ) (disk : ℕ × ℕ) (s : T × (Dev × Cache))
        → (Fine cfg drv conf device host T F Fault Stops) s
        → (Answers cfg drv conf device host T F Fault Stops) (cb tag disk s)) where
    pub scan_loop_lem :
        (fuel : ℕ) (sc : Scan) (s : T × (Dev × Cache))
        → (Good cfg drv conf device host T F Fault Stops) pair sc
        → sc.off ≤ cfg.block_size
        → sc.ptag < 2 ^ 32
        → cfg.block_size < fuel + sc.off
        → (Fine cfg drv conf device host T F Fault Stops) s
        → (Scans cfg drv conf device host T F Fault Stops) pair
            (scan_loop cfg drv host fmask ftag cb fuel sc s)
    unfolding scan_loop
    scan_loop_lem zero sc s good low word enough fine = absurd (omega arith)
    scan_loop_lem (suc fuel) sc s good low word enough fine =
        let bounds = tag_dsize_bounds sc.ptag word in
        let off = u32 (sc.off + tag_dsize sc.ptag) in
        let grows : off ≡ sc.off + tag_dsize sc.ptag = omega (arith, bounds, conf.small) in
        (or_break_lem cfg drv conf device host T F Fault Stops)
          ((Good cfg drv conf device host T F Fault Stops) pair) (record sc { off = off })
          (read_ahead cfg drv host sc.dir.pair.0 off 4 s) _
          (broken_lem pair false (record sc { off = off }) good)
          ((Reads-Answers cfg drv conf device host T F Fault Stops) _ (
            (read_ahead_lem cfg drv conf device host T F Fault Stops) whole sc.dir.pair.0 off 4 s
              (rw good.0 in_device) (omega (arith, grows, bounds, conf.small)) (omega arith)
              (omega arith) fine))
          (λ bytes s' fine'.
            scan_tag_lem whole pair in_device off (scan_loop cfg drv host fmask ftag cb fuel)
              (λ sc2 s2 mid fine2.
                scan_loop_lem fuel sc2 s2 mid.0 (omega (arith, mid.1, mid.2)) mid.3
                  (omega (arith, mid.1, grows, bounds)) fine2)
              fmask ftag cb answers (u32 (bit_xor (frombe32 host (word_at host bytes 0)) sc.ptag))
              (record sc { off = off; sum = crc sc.sum bytes }) s' (omega arith) refl
              (omega (arith, grows, bounds, conf.small)) good fine')
