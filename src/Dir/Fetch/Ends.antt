-- ===== src/Dir/Fetch/Ends.antt =====
-- `lfs2_dir_fetchmatch` of littlefs/lfs2.c: the scan ends, and what it leaves can be looked up in.
use mbed_littlefs.Base.{
  ℕ, zero, suc, ◌+◌, ◌^◌, ◌≤◌, ◌<◌, ◌≡◌, refl, arith, ap, Bool, true, false, ◌||◌, ltb, Bool-cases,
  inl, inr, ◌⊎◌, List, none, Error, corrupt, Outcome, ok, err, abort, out_of_fuel, ltb→lt,
  is_positive,
}
use mbed_littlefs.Util.{ByteOrder, scmp}
use mbed_littlefs.Tag.{Pair, pair_swap}
use mbed_littlefs.Gstate.{Gstate}
use mbed_littlefs.Device.{Config, Driver, Cache, IsConfig, IsDevice}
use mbed_littlefs.Bd.{bd_read}
use mbed_littlefs.Bd.Prog.{Cmp}
use mbed_littlefs.Bd.Read.{ReadFails}
use mbed_littlefs.Store.{bind}
use mbed_littlefs.Dir.{Mdir}
use mbed_littlefs.Dir.Fetch.{
  Scan, scan_loop, Fetched, fetched, scan_start, fetch_blocks, fetch_newer, rev_next, read_rev,
  dir_fetchmatch,
}
use mbed_littlefs.Dir.Fetch.Answers.{Reads, Fine, Failure, Answers, Scans, read_lem}
use mbed_littlefs.Dir.Fetch.Scans.{scan_loop_lem}

module _ (cfg : Config) (drv : Driver) (conf : IsConfig cfg) (device : IsDevice cfg drv)
    (host : ByteOrder) (T : Type 0) (F : ℕ → ℕ → ℕ) (Fault : Error → Type 0) (Stops : Type 0) where
  open drv use {Dev}
  open device use {content}

  kept :
      (rev : ℕ) (r : Outcome (List ℕ) × (T × (Dev × Cache)))
      → (Reads cfg drv conf device host T F Fault Stops) r
      → (Reads cfg drv conf device host T F Fault Stops) (rev_next cfg drv host rev r)
  unfolding rev_next
  kept rev (ok bytes, s) fine = fine
  kept rev (err corrupt, s) (e, fine) = fine
  kept rev (err e, s) (same, fine) = cc
  kept rev (abort, s) none_ = none_
  kept rev (out_of_fuel, s) none_ = none_

  -- One of the two orders of the pair.
  abbrev pub Order : Pair → Pair → Type 0
  Order pair q = (q ≡ pair) ⊎ (q ≡ pair_swap pair)

  Order-pair_swap : (pair q : Pair) → Order pair q → Order pair (pair_swap q)
  unfolding pair_swap
  Order-pair_swap pair q (inl e) = inr (ap pair_swap e)
  Order-pair_swap pair q (inr e) = inl (ap pair_swap e)

  -- How a fetch ends: with metadata that can be looked up in, or with LFS2_ERR_CORRUPT or another
  -- error of the callback.
  abbrev pub FetchEnds : Pair → Outcome Fetched × (T × (Dev × Cache)) → Type 0
  FetchEnds pair (ok f, s) =
      Order pair f.dir.pair
      × (0 < f.dir.off)
      × (f.dir.off ≤ cfg.block_size)
      × (f.dir.etag < 2 ^ 32)
      × (f.id ≤ f.dir.count)
      × (Fine cfg drv conf device host T F Fault Stops) s
  FetchEnds pair (err e, s) = (e ≡ corrupt) ⊎ (Failure cfg drv conf device host T F Fault Stops) e
  FetchEnds pair (abort, s) = Stops
  FetchEnds pair (out_of_fuel, s) = ⊥

  Reads-bind :
      {A : Type 0} (pair : Pair) (r : Outcome A × (T × (Dev × Cache)))
      (next : A → T × (Dev × Cache) → Outcome Fetched × (T × (Dev × Cache)))
      → (Reads cfg drv conf device host T F Fault Stops) r
      → ((a : A) (s : T × (Dev × Cache))
          → (Fine cfg drv conf device host T F Fault Stops) s
          → FetchEnds pair (next a s))
      → FetchEnds pair (bind r next)
  Reads-bind pair (ok a, s) next fine h = h a s fine
  Reads-bind pair (err e, s) next (same, fine) h = inl same
  Reads-bind pair (abort, s) next none_ h = absurd none_
  Reads-bind pair (out_of_fuel, s) next none_ h = absurd none_

  chosen :
      (pair : Pair) (b : Bool) (r r' : Outcome Fetched × (T × (Dev × Cache)))
      → (b ≡ true → FetchEnds pair r)
      → (b ≡ false → FetchEnds pair r')
      → FetchEnds pair (elim b [ true ↦ r | false ↦ r' ])
  chosen pair true r r' h h' = h refl
  chosen pair false r r' h h' = h' refl

  module _ (whole : (e : Error) → ¬ (ReadFails cfg drv conf device e)) (pair : Pair)
      (first_in : pair.0 < cfg.block_count) (second_in : pair.1 < cfg.block_count) (gstate : Gstate)
      (fmask ftag : ℕ) (cb : ℕ → ℕ × ℕ → T × (Dev × Cache) → Outcome Cmp × (T × (Dev × Cache)))
      (answers : (tag : ℕ) (disk : ℕ × ℕ) (s : T × (Dev × Cache))
        → (Fine cfg drv conf device host T F Fault Stops) s
        → (Answers cfg drv conf device host T F Fault Stops) (cb tag disk s)) where
    of_device : (q : Pair) → Order pair q → q.0 < cfg.block_count
    unfolding pair_swap
    of_device q (inl e) = rw e first_in
    of_device q (inr e) = rw e second_in

    fetch_next_lem :
        (other : ℕ) (q : Pair)
        (again : Scan → T × (Dev × Cache) → Outcome Fetched × (T × (Dev × Cache)))
        → Order pair q
        → ((sc : Scan) (s : T × (Dev × Cache))
            → Order pair sc.dir.pair
            → sc.dir.off ≡ 0
            → (Fine cfg drv conf device host T F Fault Stops) s
            → FetchEnds pair (again sc s))
        → (r : Outcome Scan × (T × (Dev × Cache)))
        → (Scans cfg drv conf device host T F Fault Stops) q r
        → FetchEnds pair (
            bind r (λ sc' s'.
              let rest =
                again
                  (record sc' {
                    dir = record (sc'.dir) { pair = pair_swap sc'.dir.pair; rev = other };
                  })
                  s' in
              elim (ltb 0 sc'.dir.off) [ true ↦ (ok (fetched gstate sc'), s') | false ↦ rest ]))
    unfolding fetched
    fetch_next_lem other q again order h (ok sc, s) ((same, low, word), fine) =
        chosen pair (ltb 0 sc.dir.off) _ _
          (λ e. (rw same order, ltb→lt _ _ e, low, word (ltb→lt _ _ e), omega arith, fine))
          (λ e. h _ s (rw same (Order-pair_swap pair q order)) (ground arith) fine)
    fetch_next_lem other q again order h (err e, s) failed = inr failed
    fetch_next_lem other q again order h (abort, s) stops = stops
    fetch_next_lem other q again order h (out_of_fuel, s) none_ = absurd none_

    fetch_blocks_lem :
        (left other : ℕ) (sc : Scan) (s : T × (Dev × Cache))
        → Order pair sc.dir.pair
        → sc.dir.off ≡ 0
        → (Fine cfg drv conf device host T F Fault Stops) s
        → FetchEnds pair (fetch_blocks cfg drv host fmask ftag cb gstate other left sc s)
    unfolding fetch_blocks scan_start
    fetch_blocks_lem zero other sc s order nothing fine = inl refl
    fetch_blocks_lem (suc left) other sc s order nothing fine =
        fetch_next_lem other sc.dir.pair (fetch_blocks cfg drv host fmask ftag cb gstate other left)
          order (fetch_blocks_lem left other)
          (scan_loop cfg drv host fmask ftag cb (cfg.block_size + 1) (scan_start host sc) s)
          ((scan_loop_lem cfg drv conf device host T F Fault Stops) whole sc.dir.pair
            (of_device sc.dir.pair order) fmask ftag cb answers (cfg.block_size + 1)
            (scan_start host sc) s (refl, omega (arith, nothing), λ pos. absurd (omega arith))
            (omega arith) (omega arith) (omega arith) fine)

    rev_lem :
        (rev block : ℕ) (s : T × (Dev × Cache))
        → block < cfg.block_count
        → (Fine cfg drv conf device host T F Fault Stops) s
        → (Reads cfg drv conf device host T F Fault Stops) (read_rev cfg drv host rev block s)
    unfolding read_rev
    rev_lem rev block (t, (dev, rcache)) hb fine =
        let r = bd_read cfg drv dev none rcache 4 block 0 4 in
        kept rev (r.0, (t, (r.1, r.2)))
          ((read_lem cfg drv conf device host T F Fault Stops) whole block 0 4 4 t dev rcache hb
            (omega arith) (omega arith) (omega arith) (omega arith) (omega arith) fine)

    -- Where both blocks of a pair are of the device, no read reports an error, and every call of the
    -- callback ends, `lfs2_dir_fetchmatch` ends, whatever the blocks hold. On success the metadata are
    -- of the pair in one of its orders, the log ends behind its start and inside the block, its last
    -- tag is a word, so that a lookup in it ends as well, and the id is at most the count; the device
    -- has kept its contents and the read cache holds bytes of the device. Otherwise the error is
    -- LFS2_ERR_CORRUPT or one of the callback; no assertion fails but in the callback.
    pub dir_fetchmatch_lem :
        (revs : ℕ × ℕ) (seed : ℕ) (dir : Mdir) (s : T × (Dev × Cache))
        → (Fine cfg drv conf device host T F Fault Stops) s
        → FetchEnds pair (dir_fetchmatch cfg drv host fmask ftag cb gstate revs seed dir pair s)
    unfolding dir_fetchmatch fetch_newer pair_swap
    dir_fetchmatch_lem revs seed dir s fine =
        Reads-bind pair (read_rev cfg drv host revs.0 pair.0 s) _
          (rev_lem revs.0 pair.0 s first_in fine)
          (λ rev0 s0 fine0.
            Reads-bind pair (read_rev cfg drv host revs.1 pair.1 s0) _
              (rev_lem revs.1 pair.1 s0 second_in fine0)
              (λ rev1 s1 fine1. elim (Bool-cases (is_positive (scmp rev1.0 rev0.0) || rev1.1)) [
                | inl e ↦ rw e (fetch_blocks_lem 2 _ _ s1 (inr refl) refl fine1)
                | inr e ↦ rw e (fetch_blocks_lem 2 _ _ s1 (inl refl) refl fine1)
              ]))
