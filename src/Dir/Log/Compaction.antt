-- ===== src/Dir/Log/Compaction.antt =====
-- Where the log ends that `lfs2_dir_compact` of littlefs/lfs2.c writes into a block.
use mbed_littlefs.Base.{
  ℕ, ◌+◌, ◌-◌, ◌%◌, ◌^◌, ◌≤◌, ◌<◌, ◌≡◌, refl, ap, ◌∙◌, arith, Bool, Bool-cases, false, not, ◌&&◌,
  if◌then◌else◌, inl, inr, List, ◌++◌, corrupt, Outcome, ok, err, abort, out_of_fuel, sub32, length,
}
use mbed_littlefs.Util.{ByteOrder, bytes_of, tole32}
use mbed_littlefs.Tag.{Pair, mktag, type_tail, type_movestate, pair_swap, pair_isnull, pair_tole32}
use mbed_littlefs.Gstate.{Gstate, gstate_iszero}
use mbed_littlefs.Device.{Config, Driver, IsConfig, IsDevice}
use mbed_littlefs.Bd.Prog.{Flash, bd_erase}
use mbed_littlefs.Dir.{Mdir}
use mbed_littlefs.Dir.Commit.{Commit, memory, dir_commitprog, dir_commitcrc}
use mbed_littlefs.Dir.Commit.Bounds.{Fits, Grows-le, length-bytes_of, commitprog-Grows, Grows-Fits}
use mbed_littlefs.Dir.Handles.{Mattr}
use mbed_littlefs.Dir.Traverse.{Source}
use mbed_littlefs.Dir.Log.{
  Written, commit_entries, commit_getgstate, commit_gdelta, gdelta_bytes, or_relocate, compact_tail,
  compact_gdelta, compact_range, compacted, compact_log, compact_block,
}
use mbed_littlefs.Dir.Log.Ends.{
  Logged, commitcrc_ok, attr_again, entries-Fits, unit_lem, bind-Logged,
}

module _ (cfg : Config) (drv : Driver) (conf : IsConfig cfg) (device : IsDevice cfg drv)
    (host : ByteOrder) (few : cfg.prog_size ≤ 512) where
  open drv use {Dev}

  or_relocate-Logged :
      (pair : Pair) (dir : Mdir) (out : Outcome (Unit {0})) (v : Written × Flash Dev)
      (next : Written × Flash Dev → Outcome Bool × (Written × Flash Dev))
      → v.0.dir ≡ dir
      → (out ≡ ok tt → Logged cfg drv conf device host few pair dir (next v))
      → Logged cfg drv conf device host few pair dir (or_relocate cfg drv host (out, v) next)
  unfolding or_relocate
  or_relocate-Logged pair dir (ok u) v next same done = done refl
  or_relocate-Logged pair dir (err corrupt) v next same done = same
  or_relocate-Logged pair dir (err e) v next same done = same
  or_relocate-Logged pair dir abort v next same done = same
  or_relocate-Logged pair dir out_of_fuel v next same done = same

  tail-Fits :
      (dir : Mdir) (c c' : Commit) (s : Flash Dev)
      → c.end < 2 ^ 31
      → Fits cfg drv device host c c'
      → Fits cfg drv device host c (compact_tail cfg drv host dir (c', s)).1.0
  unfolding compact_tail
  tail-Fits dir c c' s small fits = elim (Bool-cases (pair_isnull dir.tail)) [
    | inl e ↦ rw e fits
    | inr e ↦
        let tail = pair_tole32 host dir.tail in
        rw e (
          attr_again cfg drv conf device host few c c'
            (mktag (type_tail + (if dir.split then 1 else 0)) 0x3ff 8)
            (memory (bytes_of host tail.0 ++ bytes_of host tail.1)) s small fits)
  ]

  gdelta-Fits :
      (relocated : Bool) (gdelta : Gstate) (c c' : Commit) (s : Flash Dev)
      → c.end < 2 ^ 31
      → Fits cfg drv device host c c'
      → Fits cfg drv device host c (compact_gdelta cfg drv host relocated gdelta (c', s)).1.0
  unfolding compact_gdelta commit_gdelta
  gdelta-Fits relocated gdelta c c' s small fits =
      elim (Bool-cases (not relocated && not (gstate_iszero gdelta))) [
        | inl e ↦ rw e (
            attr_again cfg drv conf device host few c c' (mktag type_movestate 0x3ff 12)
              (memory (gdelta_bytes host gdelta)) s small fits)
        | inr e ↦ rw e fits
      ]

  log-Logged :
      (fuel junk : ℕ) (relocated : Bool) (attrs : List Mattr) (source : Mdir) (begin end : ℕ)
      (w : Written) (s : Flash Dev)
      → 12 ≤ cfg.block_size
      → Logged cfg drv conf device host few
          (pair_swap w.dir.pair)
          w.dir
          (compact_log cfg drv host fuel junk relocated attrs source begin end (w, s))
  unfolding compact_log compacted
  log-Logged fuel junk relocated attrs source begin end w s room =
      let dir = w.dir in
      let last : sub32 cfg.block_size 8 ≡ cfg.block_size - 8 = omega (arith, conf.small) in
      let start : Commit = record {
        block = dir.pair.1;
        off = 0;
        ptag = 0xffffffff;
        sum = 0xffffffff;
        begin = 0;
        end = sub32 cfg.block_size 8;
      } in
      let src : Source = record {
        dir = source;
        off = 0;
        ptag = 0xffffffff;
        attrs = attrs;
        hasseenmove = false;
      } in
      let small : start.end < 2 ^ 31 = omega (arith, last, conf.small) in
      let head = bytes_of host (tole32 host dir.rev) in
      let four : length head ≤ 4 = omega (arith, length-bytes_of host (tole32 host dir.rev)) in
      let r1 = dir_commitprog cfg drv host head (start, s) in
      let f1 : Fits cfg drv device host start r1.1.0 =
        Grows-Fits cfg drv device host (omega (arith, last))
          (Grows-le four (commitprog-Grows cfg drv device host head start s)) in
      let r2 =
        commit_entries cfg drv host fuel w.globals.gpending src
          (compact_range cfg drv host begin end) r1.1 in
      let g2 =
        entries-Fits cfg drv conf device host few fuel w.globals.gpending src
          (compact_range cfg drv host begin end) r1.1.0 r1.1.1 (omega (arith, small, f1.same_end))
          (omega (arith, f1.same_end, f1.off_le)) in
      let f2 : Fits cfg drv device host start r2.1.0 = record {
        same_block = g2.same_block ∙ f1.same_block;
        same_begin = g2.same_begin ∙ f1.same_begin;
        same_end = g2.same_end ∙ f1.same_end;
        off_le = omega (arith, g2.off_le, f1.same_end);
      } in
      let r3 = compact_tail cfg drv host dir r2.1 in
      let f3 = tail-Fits dir start r2.1.0 r2.1.1 small f2 in
      let r4 = compact_gdelta cfg drv host relocated w.globals.gdelta r3.1 in
      let f4 = gdelta-Fits relocated w.globals.gdelta start r3.1.0 r3.1.1 small f3 in
      let r5 = dir_commitcrc cfg drv host junk r4.1 in
      let inside : r4.1.0.off + 8 ≤ cfg.block_size = omega (arith, f4.off_le, last) in
      let pair = pair_swap dir.pair in
      or_relocate-Logged pair dir r1.0 (w, r1.1.1) _ refl
        (λ _.
          or_relocate-Logged pair dir r2.0 (w, r2.1.1) _ refl
            (λ _.
              or_relocate-Logged pair dir r3.0 (w, r3.1.1) _ refl
                (λ _.
                  or_relocate-Logged pair dir r4.0 (w, r4.1.1) _ refl
                    (λ _.
                      or_relocate-Logged pair dir r5.0 (w, r5.1.1) _ refl
                        (λ e.
                          let (fits, even) =
                            unit_lem cfg drv conf device host few r4.1.0.off inside in
                          let ends =
                            commitcrc_ok cfg drv conf device host few junk r4.1.0 r4.1.1
                              (omega (arith, inside, conf.small)) e in
                          (
                            refl,
                            omega (arith, ends, fits),
                            ap (λ k. k % cfg.prog_size) ends ∙ even,
                          ))))))

  -- When an attempt of `lfs2_dir_compact` to write the second block of a pair, on blocks of at least 12
  -- bytes that are a multiple of the program size, which is at most 512, is done, the blocks of the pair
  -- have changed places, and the log ends in the block and at a multiple of the program size. When it is
  -- not done, because the block is bad or for an error or an assertion, the directory is as it was.
  pub compact_block-Logged :
      (fuel junk : ℕ) (relocated : Bool) (attrs : List Mattr) (source : Mdir) (begin end : ℕ)
      (w : Written) (s : Flash Dev)
      → 12 ≤ cfg.block_size
      → Logged cfg drv conf device host few
          (pair_swap w.dir.pair)
          w.dir
          (compact_block cfg drv host fuel junk relocated attrs source begin end (w, s))
  unfolding compact_block
  compact_block-Logged fuel junk relocated attrs source begin end w s room =
      let (found, (g, s1)) = commit_getgstate cfg drv host w.dir (w.globals, s) in
      let w1 : Written = record w { globals = g } in
      bind-Logged cfg drv conf device host few (pair_swap w.dir.pair) w.dir found (w1, s1) _ refl
        (λ _.
          let (erased, dev) = bd_erase cfg drv s1.dev w.dir.pair.1 in
          or_relocate-Logged (pair_swap w.dir.pair) w.dir erased (w1, record s1 { dev = dev })
            (compact_log cfg drv host fuel junk relocated attrs source begin end) refl
            (λ _.
              log-Logged fuel junk relocated attrs source begin end w1 (record s1 { dev = dev })
                room))
