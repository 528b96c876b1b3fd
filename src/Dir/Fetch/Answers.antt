-- ===== src/Dir/Fetch/Answers.antt =====
-- How the reads and the calls of the callback in `lfs2_dir_fetchmatch` of littlefs/lfs2.c end.
use mbed_littlefs.Base.{
  ℕ, ◌+◌, ◌*◌, ◌^◌, ◌≤◌, ◌<◌, ◌≡◌, refl, arith, ◌∙◌, Bool, true, false, ◌||◌, ltb, Bool-cases, inl,
  inr, ◌⊎◌, List, none, Error, corrupt, Outcome, ok, err, abort, out_of_fuel,
}
use mbed_littlefs.Util.{ByteOrder}
use mbed_littlefs.Tag.{Pair}
use mbed_littlefs.Device.{Config, Driver, Cache, view, IsConfig, IsDevice}
use mbed_littlefs.Bd.{bd_read}
use mbed_littlefs.Bd.View.{visible}
use mbed_littlefs.Bd.Read.{IsRcache, ReadFails}
use mbed_littlefs.Bd.ReadLoop.{Ends, bd_read_lem, bd_read_past_end}
use mbed_littlefs.Store.{bind}
use mbed_littlefs.Dir.Fetch.{Scan, broken, read_ahead, or_break}

pub or_false : (a b : Bool) → (a || b) ≡ false → b ≡ false
or_false false b e = e
or_false true b e = cc

module _ (cfg : Config) (drv : Driver) (conf : IsConfig cfg) (device : IsDevice cfg drv)
    (host : ByteOrder) (T : Type 0) (F : ℕ → ℕ → ℕ) (Fault : Error → Type 0) (Stops : Type 0) where
  open drv use {Dev}
  open device use {content}

  -- The device holds `F`, and so does the read cache where it holds something.
  abbrev pub Fine : T × (Dev × Cache) → Type 0
  Fine s = IsRcache cfg drv conf device s.1.0 s.1.1 × (content s.1.0 ≡ F)

  -- Another error of the callback than LFS2_ERR_CORRUPT.
  abbrev pub Failure : Error → Type 0
  Failure e = ¬ (e ≡ corrupt) × Fault e

  -- How a read or a call of the callback ends.
  abbrev pub Answers : {A : Type 0} → Outcome A × (T × (Dev × Cache)) → Type 0
  Answers (ok a, s) = Fine s
  Answers (err e, s) = ((e ≡ corrupt) × Fine s) ⊎ Failure e
  Answers (abort, s) = Stops
  Answers (out_of_fuel, s) = ⊥

  -- The metadata found so far, for the pair.
  abbrev pub Good : Pair → Scan → Type 0
  Good pair sc =
      (sc.dir.pair ≡ pair) × (sc.dir.off ≤ cfg.block_size) × (0 < sc.dir.off → sc.dir.etag < 2 ^ 32)

  -- How a read ends.
  abbrev pub Reads : {A : Type 0} → Outcome A × (T × (Dev × Cache)) → Type 0
  Reads (ok a, s) = Fine s
  Reads (err e, s) = (e ≡ corrupt) × Fine s
  Reads (abort, s) = ⊥
  Reads (out_of_fuel, s) = ⊥

  pub Reads-Answers : {A : Type 0} (r : Outcome A × (T × (Dev × Cache))) → Reads r → Answers r
  Reads-Answers (ok a, s) h = h
  Reads-Answers (err e, s) h = inl h
  Reads-Answers (abort, s) h = absurd h
  Reads-Answers (out_of_fuel, s) h = absurd h

  -- How a part of the scan of a block ends.
  abbrev pub Scanned : (Scan → Type 0) → Outcome Scan × (T × (Dev × Cache)) → Type 0
  Scanned P (ok sc, s) = P sc × Fine s
  Scanned P (err e, s) = Failure e
  Scanned P (abort, s) = Stops
  Scanned P (out_of_fuel, s) = ⊥

  -- How the scan of a block ends.
  abbrev pub Scans : Pair → Outcome Scan × (T × (Dev × Cache)) → Type 0
  Scans pair = Scanned (Good pair)

  module _ (whole : (e : Error) → ¬ (ReadFails cfg drv conf device e)) where
    pub read_lem :
        (block off n hint : ℕ) (t : T) (dev : Dev) (rcache : Cache)
        → block < cfg.block_count
        → off < 3 * 2 ^ 30
        → 0 < n
        → n ≤ 2 ^ 30
        → 0 < hint
        → hint ≤ 2 ^ 30
        → Fine (t, (dev, rcache))
        → let r = bd_read cfg drv dev none rcache hint block off n in Reads (r.0, (t, (r.1, r.2)))
    read_lem block off n hint t dev rcache hb low pos few hp hs (r, same) =
        elim (Bool-cases (ltb cfg.block_size (off + n))) [
          | inl past ↦
              rw
                (bd_read_past_end cfg drv conf device dev none rcache hint block off n hb
                  (ground arith) (omega arith))
                (refl, (r, same))
          | inr within ↦ ends (bd_read cfg drv dev none rcache hint block off n) (
              bd_read_lem cfg drv conf device dev none rcache hint block off n hb (ground arith) hp
                hs tt r)
        ]
      where
        ends :
            (res : Outcome (List ℕ) × Dev × Cache)
            → Ends cfg drv conf device
                (view (visible none block (content dev block)) off n)
                res.0
                res.1
                res.2
              × (content res.1 ≡ content dev)
            → Reads (res.0, (t, (res.1, res.2)))
        ends (ok bytes, dev', rcache') ((e, r'), kept) = (r', kept ∙ same)
        ends (err e, dev', rcache') (h, kept) = absurd (whole e h)
        ends (abort, dev', rcache') (h, kept) = absurd h
        ends (out_of_fuel, dev', rcache') (h, kept) = absurd h

    pub read_ahead_lem :
        (block off n : ℕ) (s : T × (Dev × Cache))
        → block < cfg.block_count
        → off < 3 * 2 ^ 30
        → 0 < n
        → n ≤ 2 ^ 30
        → Fine s
        → Reads (read_ahead cfg drv host block off n s)
    unfolding read_ahead
    read_ahead_lem block off n (t, (dev, rcache)) hb low pos few fine =
        read_lem block off n cfg.block_size t dev rcache hb low pos few conf.block_pos
          (omega (arith, conf.small)) fine

  pub or_break_lem :
      {A : Type 0} (P : Scan → Type 0) (sc : Scan) (r : Outcome A × (T × (Dev × Cache)))
      (next : A → T × (Dev × Cache) → Outcome Scan × (T × (Dev × Cache)))
      → P (broken false sc)
      → Answers r
      → ((a : A) (s : T × (Dev × Cache)) → Fine s → Scanned P (next a s))
      → Scanned P (or_break cfg drv host sc r next)
  unfolding or_break
  or_break_lem P sc (ok a, s) next good fine h = h a s fine
  or_break_lem P sc (err corrupt, s) next good (inl (e, fine)) h = (good, fine)
  or_break_lem P sc (err corrupt, s) next good (inr (other, failed)) h = absurd (other refl)
  or_break_lem P sc (err e, s) next good (inl (same, fine)) h = cc
  or_break_lem P sc (err e, s) next good (inr failed) h = failed
  or_break_lem P sc (abort, s) next good stops h = stops
  or_break_lem P sc (out_of_fuel, s) next good none_ h = none_

  pub bind_lem :
      (P Q : Scan → Type 0) (r : Outcome Scan × (T × (Dev × Cache)))
      (next : Scan → T × (Dev × Cache) → Outcome Scan × (T × (Dev × Cache)))
      → Scanned P r
      → ((sc : Scan) (s : T × (Dev × Cache)) → P sc → Fine s → Scanned Q (next sc s))
      → Scanned Q (bind r next)
  bind_lem P Q (ok sc, s) next (p, fine) h = h sc s p fine
  bind_lem P Q (err e, s) next failed h = failed
  bind_lem P Q (abort, s) next stops h = stops
  bind_lem P Q (out_of_fuel, s) next none_ h = none_
