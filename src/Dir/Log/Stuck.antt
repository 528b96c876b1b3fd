-- ===== src/Dir/Log/Stuck.antt =====
-- `lfs2_dir_compact` of littlefs/lfs2.c where the block to write is bad and no other is free.
use mbed_littlefs.Base.{
  ℕ, zero, suc, ◌-◌, ◌≡◌, refl, ap, Bool, true, false, ltb, List, corrupt, nospc, some, ok, err,
  out_of_fuel,
}
use mbed_littlefs.Util.{ByteOrder}
use mbed_littlefs.Tag.{Pair, pair_cmp}
use mbed_littlefs.Gstate.{Globals}
use mbed_littlefs.Device.{Config, Driver}
use mbed_littlefs.Bd.{cache_drop}
use mbed_littlefs.Bd.Prog.{Flash, bd_erase}
use mbed_littlefs.Alloc.{Free, Traversal, alloc, alloc_loop, scan}
use mbed_littlefs.Dir.{Mdir}
use mbed_littlefs.Dir.Handles.{Mattr}
use mbed_littlefs.Dir.Log.{
  Written, commit_getgstate, or_relocate, compact_block, relocate_pair, compact_loop,
}

module _ (cfg : Config) (drv : Driver) (host : ByteOrder) (t : Traversal (Flash (drv.Dev)))
    (dir : Mdir)
    (readable : (g : Globals) (s : Flash (drv.Dev))
      → (commit_getgstate cfg drv host dir (g, s)).0 ≡ ok tt)
    (bad : (d : drv.Dev) → (drv.erase d dir.pair.1).0 ≡ some corrupt)
    (in_device : ltb dir.pair.1 cfg.block_count ≡ true) where
  open drv use {Dev}

  alloc_none :
      (s : Flash Dev) (free : Free)
      → free.size - free.i ≡ 0
      → free.ack ≡ 0
      → alloc cfg t s free ≡ (err nospc, s, free)
  unfolding alloc alloc_loop scan
  alloc_none s free empty full = rw (full, alloc, alloc_loop, empty, scan) refl

  block_lem :
      (tags junk : ℕ) (relocated : Bool) (attrs : List Mattr) (source : Mdir) (begin end : ℕ)
      (g : Globals) (s : Flash Dev)
      → let r =
          compact_block cfg drv host tags junk relocated attrs source begin end
            (record { dir = dir; globals = g }, s) in
        (r.0 ≡ ok false) × (r.1.0.dir ≡ dir)
  unfolding compact_block or_relocate bd_erase
  block_lem tags junk relocated attrs source begin end g s =
      rw
        (
          compact_block,
          readable g s,
          bd_erase,
          in_device,
          bad (commit_getgstate cfg drv host dir (g, s)).1.1.dev,
          or_relocate,
        )
        (refl, refl)

  module _ (oldpair : Pair) (other : pair_cmp oldpair (0, 1) ≡ true) where
    relocate_lem :
        (w : Written) (s : Flash Dev) (free : Free)
        → free.size - free.i ≡ 0
        → free.ack ≡ 0
        → relocate_pair cfg drv host t oldpair false (w, (s, free))
          ≡ (ok tt, (w, (record s { pcache = cache_drop s.pcache }, free)))
    unfolding relocate_pair
    relocate_lem w s free empty full =
        let call = alloc_none (record s { pcache = cache_drop s.pcache }) free empty full in
        rw (other, ap (λ r. r.0) call, ap (λ r. r.1) call, ap (λ r. r.2) call) refl

    -- When the erase of the second block of a pair other than that of the superblock always reports that
    -- the block is corrupt, the global state can be read, and the allocator has no block left, a
    -- compaction that is not for an exhausted pair ends for no number of rounds: the code goes round its
    -- loop for ever, and does not return `LFS2_ERR_NOSPC`.
    pub compact_loop-out_of_fuel :
        (tags junk : ℕ) (attrs : List Mattr) (source : Mdir) (begin end fuel : ℕ) (relocated : Bool)
        (w : Written) (s : Flash Dev) (free : Free)
        → w.dir ≡ dir
        → free.size - free.i ≡ 0
        → free.ack ≡ 0
        → (compact_loop cfg drv host t tags junk oldpair false attrs source begin end fuel relocated
            (w, (s, free))).0
          ≡ out_of_fuel
    unfolding compact_loop
    compact_loop-out_of_fuel tags junk attrs source begin end zero relocated w s free same empty
          full =
        refl
    compact_loop-out_of_fuel tags junk attrs source begin end (suc fuel) relocated w s free same
          empty full =
        rw (ap {B = Written} (λ d. record { dir = d; globals = w.globals }) same) (
          let (written, same') = block_lem tags junk relocated attrs source begin end w.globals s in
          let v =
            (compact_block cfg drv host tags junk relocated attrs source begin end
              (record { dir = dir; globals = w.globals }, s)).1 in
          rw (written, relocate_lem v.0 v.1 free empty full)
            (compact_loop-out_of_fuel tags junk attrs source begin end fuel true v.0
              (record (v.1) { pcache = cache_drop v.1.pcache }) free same' empty full))
