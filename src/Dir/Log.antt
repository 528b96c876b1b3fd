-- ===== src/Dir/Log.antt =====
-- The log that `lfs2_dir_commit` and `lfs2_dir_compact` of littlefs/lfs2.c write: the entries of a
-- commit with the global state and the CRC, and the compaction of a pair into its second block.
pub mod Stuck
pub mod Ends
pub mod Compaction
use mbed_littlefs.Base.{
  ℕ, zero, suc, ◌+◌, ◌-◌, ◌^◌, ◌/◌, min, Bool, true, false, not, ◌&&◌, ◌||◌, ltb, leb, ◌==◌,
  if◌then◌else◌, List, [], ◌∷◌, ◌++◌, Error, corrupt, nospc, Outcome, ok, err, abort, out_of_fuel,
  u16, u32, sub32,
}
use mbed_littlefs.Util.{ByteOrder, bytes_of, tole32, alignup}
use mbed_littlefs.Tag.{
  Pair, mktag, type_name, type_tail, type_movestate, pair_swap, pair_isnull, pair_cmp, pair_tole32,
}
use mbed_littlefs.Gstate.{
  Gstate, Globals, gstate_zero, gstate_iszero, gstate_hasmovehere, gstate_xormove, gstate_tole32,
}
use mbed_littlefs.Device.{Config, Driver, Cache}
use mbed_littlefs.Bd.{cache_drop}
use mbed_littlefs.Bd.Prog.{Flash, bd_erase}
use mbed_littlefs.Alloc.{Free, Traversal, alloc}
use mbed_littlefs.Store.{bind}
use mbed_littlefs.Dir.{Mdir, dir_getgstate}
use mbed_littlefs.Dir.Commit.{
  Commit, Buffer, memory, dir_commit_size, dir_commitprog, dir_commitattr, dir_commitcrc,
}
use mbed_littlefs.Dir.Handles.{Mattr}
use mbed_littlefs.Dir.Traverse.{Source, Range, all_tags, dir_traverse}

-- The move that a commit to the pair has handled is no longer pending.
unfoldable pub move_done : Globals → Pair → Globals
move_done g pair =
    if gstate_hasmovehere g.gpending pair
    then record g { gpending = gstate_xormove g.gpending g.gpending 0x3ff (0, 0) }
    else g

-- The global state of the commits so far takes over what was pending.
unfoldable pub globals_written : Globals → Globals
globals_written g = record g { gstate = g.gpending; gdelta = gstate_zero }

-- The words of the delta in memory.
unfoldable pub gdelta_bytes : ByteOrder → Gstate → List ℕ
gdelta_bytes host gdelta =
    let a = gstate_tole32 host gdelta in
    bytes_of host a.tag ++ (bytes_of host a.pair.0 ++ bytes_of host a.pair.1)

-- A directory, and the globals of `lfs2_t`.
pub record Written : Type 0 where
  pub dir : Mdir
  pub globals : Globals

module _ (cfg : Config) (drv : Driver) (host : ByteOrder) where
  open drv use {Dev}

  -- The result of the callback of a traversal that goes on after it.
  unfoldable pub goes_on : {S : Type 0} → Outcome (Unit {0}) × S → Outcome Bool × S
  goes_on (ok _, s) = (ok false, s)
  goes_on (err e, s) = (err e, s)
  goes_on (abort, s) = (abort, s)
  goes_on (out_of_fuel, s) = (out_of_fuel, s)

  -- `lfs2_dir_commit_commit`: its data are the commit and the program cache.
  unfoldable pub dir_commit_commit :
      ℕ
      → Buffer
      → (Commit × Cache) × (Dev × Cache)
      → Outcome Bool × ((Commit × Cache) × (Dev × Cache))
  dir_commit_commit tag buffer ((c, pcache), (dev, rcache)) =
      let (out, w) =
        dir_commitattr cfg drv host tag buffer
          (c, record { dev = dev; pcache = pcache; rcache = rcache }) in
      goes_on (out, ((w.0, w.1.pcache), (w.1.dev, w.1.rcache)))

  -- `lfs2_dir_traverse` with that callback.
  unfoldable pub commit_entries :
      ℕ → Gstate → Source → Range → Commit × Flash Dev → Outcome (Unit {0}) × (Commit × Flash Dev)
  commit_entries fuel gpending src range (c, s) =
      let (out, ((c', pcache), (dev, rcache))) =
        dir_traverse cfg drv host gpending (Commit × Cache) fuel dir_commit_commit src range
          ((c, s.pcache), (s.dev, s.rcache)) in
      bind (out, (c', record { dev = dev; pcache = pcache; rcache = rcache })) (λ _ w. (ok tt, w))

  -- `lfs2_dir_getgstate` of the directory into the delta.
  unfoldable pub commit_getgstate :
      Mdir → Globals × Flash Dev → Outcome (Unit {0}) × (Globals × Flash Dev)
  commit_getgstate dir (g, s) =
      let (out, (dev, rcache)) =
        dir_getgstate cfg drv host g.gstate dir g.gdelta (s.dev, s.rcache) in
      bind (out, (g, record s { dev = dev; rcache = rcache }))
        (λ gdelta w. (ok tt, (record (w.0) { gdelta = gdelta }, w.1)))

  -- The entry of the delta.
  unfoldable pub commit_gdelta :
      Gstate → Commit × Flash Dev → Outcome (Unit {0}) × (Commit × Flash Dev)
  commit_gdelta gdelta w =
      dir_commitattr cfg drv host (mktag type_movestate 0x3ff 12)
        (memory (gdelta_bytes host gdelta)) w

  -- `if (err) { if (err == LFS2_ERR_NOSPC || err == LFS2_ERR_CORRUPT) goto compact; return err; }`,
  -- before the rest. The result tells whether the end of the block is reached.
  unfoldable pub or_compact :
      {S : Type 0} → Outcome (Unit {0}) × S → (S → Outcome Bool × S) → Outcome Bool × S
  or_compact (ok _, s) next = next s
  or_compact (err nospc, s) next = (ok false, s)
  or_compact (err corrupt, s) next = (ok false, s)
  or_compact (err e, s) next = (err e, s)
  or_compact (abort, s) next = (abort, s)
  or_compact (out_of_fuel, s) next = (out_of_fuel, s)

  -- The delta, if there is one, and what follows.
  unfoldable pub append_gdelta :
      Mdir
      → (Globals → Commit × Flash Dev → Outcome Bool × (Written × Flash Dev))
      → Globals
      → Commit × Flash Dev
      → Outcome Bool × (Written × Flash Dev)
  append_gdelta dir next g (c, s) =
      if gstate_iszero g.gdelta
      then next g (c, s)
      else (let (found, (g', s')) = commit_getgstate dir (g, s) in
          bind (found, (record { dir = dir; globals = g' }, s'))
            (λ _ v.
              let (put, (c', s2)) = commit_gdelta v.0.globals.gdelta (c, v.1) in
              or_compact (put, (v.0, s2)) (λ v'. next v'.0.globals (c', v'.1))))

  -- The CRC, and the directory and the globals after it.
  unfoldable pub append_crc :
      ℕ → Mdir → Globals → Commit × Flash Dev → Outcome Bool × (Written × Flash Dev)
  append_crc junk dir g w =
      let (out, (c, s)) = dir_commitcrc cfg drv host junk w in
      or_compact (out, (record { dir = dir; globals = g }, s))
        (λ v. (
          ok true,
          (
            record {
              dir = record dir { off = c.off; etag = c.ptag };
              globals = globals_written (move_done g dir.pair);
            },
            v.1,
          ),
        ))

  -- The part of `lfs2_dir_commit` that appends to the log of an erased block: the entries, the delta
  -- and the CRC. The result tells whether that is done, or the pair has to be compacted. `junk` is the
  -- variable of `lfs2_dir_commitcrc`.
  unfoldable pub append_commit :
      ℕ → ℕ → List Mattr → Written × Flash Dev → Outcome Bool × (Written × Flash Dev)
  append_commit fuel junk attrs (w, s) =
      let dir = w.dir in
      let start : Commit = record {
        block = dir.pair.0;
        off = dir.off;
        ptag = dir.etag;
        sum = 0xffffffff;
        begin = dir.off;
        end = sub32 cfg.block_size 8;
      } in
      let src : Source = record {
        dir = record dir { tail = pair_tole32 host dir.tail };
        off = dir.off;
        ptag = dir.etag;
        attrs = attrs;
        hasseenmove = false;
      } in
      let (out, (c, s1)) = commit_entries fuel w.globals.gpending src all_tags (start, s) in
      or_compact (out, (w, s1)) (λ v. append_gdelta dir (append_crc junk dir) v.0.globals (c, v.1))

  -- `if (err) { if (err == LFS2_ERR_CORRUPT) goto relocate; return err; }` before the rest. The result
  -- tells whether the block has been written.
  unfoldable pub or_relocate :
      {S : Type 0} → Outcome (Unit {0}) × S → (S → Outcome Bool × S) → Outcome Bool × S
  or_relocate (ok _, s) next = next s
  or_relocate (err corrupt, s) next = (ok false, s)
  or_relocate (err e, s) next = (err e, s)
  or_relocate (abort, s) next = (abort, s)
  or_relocate (out_of_fuel, s) next = (out_of_fuel, s)

  -- The tail, if there is one.
  unfoldable pub compact_tail :
      Mdir → Commit × Flash Dev → Outcome (Unit {0}) × (Commit × Flash Dev)
  compact_tail dir w =
      let tail = pair_tole32 host dir.tail in
      if not (pair_isnull dir.tail)
      then dir_commitattr cfg drv host (mktag (type_tail + (if dir.split then 1 else 0)) 0x3ff 8)
          (memory (bytes_of host tail.0 ++ bytes_of host tail.1)) w
      else (ok tt, w)

  -- The delta, unless the pair is being relocated.
  unfoldable pub compact_gdelta :
      Bool → Gstate → Commit × Flash Dev → Outcome (Unit {0}) × (Commit × Flash Dev)
  compact_gdelta relocated gdelta w =
      if not relocated && not (gstate_iszero gdelta) then commit_gdelta gdelta w else (ok tt, w)

  -- The directory after its block has been written, from the id `begin` up to `end`.
  unfoldable pub compacted : Mdir → ℕ → ℕ → Commit → Globals → Written
  compacted dir begin end c g =
      let pair = pair_swap dir.pair in
      record {
        dir = record dir {
          pair = pair;
          count = u16 (sub32 end begin);
          off = c.off;
          etag = c.ptag;
          erased = true;
        };
        globals = move_done g pair;
      }

  -- The entries of a compaction.
  abbrev pub compact_range : ℕ → ℕ → Range
  compact_range begin end = record {
    tmask = mktag 0x400 0x3ff 0;
    ttag = mktag type_name 0 0;
    begin = begin;
    end = end;
    diff = sub32 0 begin;
  }

  -- The log in the erased block, from its header to its CRC.
  unfoldable pub compact_log :
      ℕ
      → ℕ
      → Bool
      → List Mattr
      → Mdir
      → ℕ
      → ℕ
      → Written × Flash Dev
      → Outcome Bool × (Written × Flash Dev)
  compact_log fuel junk relocated attrs source begin end (w, s) =
      let dir = w.dir in
      let start : Commit = record {
        block = dir.pair.1;
        off = 0;
        ptag = 0xffffffff;
        sum = 0xffffffff;
        begin = 0;
        end = sub32 cfg.block_size 8;
      } in
      let src : Source = record {
        dir = source;
        off = 0;
        ptag = 0xffffffff;
        attrs = attrs;
        hasseenmove = false;
      } in
      let (out1, (c1, s1)) =
        dir_commitprog cfg drv host (bytes_of host (tole32 host dir.rev)) (start, s) in
      or_relocate (out1, (w, s1))
        (λ v1.
          let (out2, (c2, s2)) =
            commit_entries fuel w.globals.gpending src (compact_range begin end) (c1, v1.1) in
          or_relocate (out2, (w, s2))
            (λ v2.
              let (out3, (c3, s3)) = compact_tail dir (c2, v2.1) in
              or_relocate (out3, (w, s3))
                (λ v3.
                  let (out4, (c4, s4)) = compact_gdelta relocated w.globals.gdelta (c3, v3.1) in
                  or_relocate (out4, (w, s4))
                    (λ v4.
                      let (out5, (c5, s5)) = dir_commitcrc cfg drv host junk (c4, v4.1) in
                      or_relocate (out5, (w, s5))
                        (λ v5. (ok true, (compacted dir begin end c5 w.globals, v5.1)))))))

  -- One attempt of `lfs2_dir_compact` to write the second block of the pair.
  unfoldable pub compact_block :
      ℕ
      → ℕ
      → Bool
      → List Mattr
      → Mdir
      → ℕ
      → ℕ
      → Written × Flash Dev
      → Outcome Bool × (Written × Flash Dev)
  compact_block fuel junk relocated attrs source begin end (w, s) =
      let (found, (g, s1)) = commit_getgstate w.dir (w.globals, s) in
      bind (found, (record w { globals = g }, s1))
        (λ _ v.
          let (erased, dev) = bd_erase cfg drv v.1.dev w.dir.pair.1 in
          or_relocate (erased, (v.0, record (v.1) { dev = dev }))
            (compact_log fuel junk relocated attrs source begin end))

  -- `relocate`: another block for the second of the pair, before the loop goes on.
  unfoldable pub relocate_pair :
      Traversal (Flash Dev)
      → Pair
      → Bool
      → Written × (Flash Dev × Free)
      → Outcome (Unit {0}) × (Written × (Flash Dev × Free))
  relocate_pair t oldpair exhausted (w, (s, free)) =
      let s' = record s { pcache = cache_drop s.pcache } in
      if not (pair_cmp oldpair (0, 1))
      then (err nospc, (w, (s', free)))
      else (let (out, s2, free') = alloc cfg t s' free in
          elim out [
            | ok block ↦ (
              ok tt,
              (record w { dir = record (w.dir) { pair = (w.dir.pair.0, block) } }, (s2, free')),
            )
            | err nospc ↦ (ok tt, (w, (s2, free')))
            | err e ↦ if exhausted then (ok tt, (w, (s2, free'))) else (err e, (w, (s2, free')))
            | abort ↦ (abort, (w, (s2, free')))
            | out_of_fuel ↦ (out_of_fuel, (w, (s2, free')))
          ])

  -- The loop of `lfs2_dir_compact` until a block is written, with fuel. It ends with whether the pair has
  -- been relocated.
  unfoldable pub compact_loop :
      Traversal (Flash Dev)
      → ℕ
      → ℕ
      → Pair
      → Bool
      → List Mattr
      → Mdir
      → ℕ
      → ℕ
      → ℕ
      → Bool
      → Written × (Flash Dev × Free)
      → Outcome Bool × (Written × (Flash Dev × Free))
  compact_loop t tags junk oldpair exhausted attrs source begin end zero relocated w =
      (out_of_fuel, w)
  compact_loop t tags junk oldpair exhausted attrs source begin end (suc fuel) relocated
        (w, (s, free)) =
      let (out, (w1, s1)) = compact_block tags junk relocated attrs source begin end (w, s) in
      bind (out, (w1, (s1, free)))
        (λ written v.
          let rest = bind (relocate_pair t oldpair exhausted v) (λ _ v'.
            compact_loop t tags junk oldpair exhausted attrs source begin end fuel true v') in
          elim written [ true ↦ (ok relocated, v) | false ↦ rest ])
