-- ===== src/Dir/Fetch.antt =====
-- `lfs2_dir_fetchmatch` and `lfs2_dir_fetch` of littlefs/lfs2.c: the scan of the commits of a
-- metadata pair, with the CRC of each.
pub mod Answers
pub mod Scans
pub mod Ends
use mbed_littlefs.Base.{
  ℕ, zero, suc, ◌+◌, ◌-◌, ◌*◌, ◌^◌, min, Bool, true, false, not, ◌&&◌, ◌||◌, ltb, leb, ◌==◌,
  if◌then◌else◌, List, [], ◌∷◌, Option, none, some, noent, corrupt, Outcome, ok, err, abort,
  out_of_fuel, u16, u32, sub32, ◌<<<◌, is_positive, bit_and, bit_or, bit_xor,
}
use mbed_littlefs.Util.{ByteOrder, bytes_of, frombe32, fromle32, tole32, scmp, crc}
use mbed_littlefs.Tag.{
  Pair, mktag, tag_id, tag_type1, tag_chunk, tag_dsize, tag_splice, tag_isvalid, type_splice,
  type_delete, type_name, type_tail, type_crc, pair_swap, pair_fromle32,
}
use mbed_littlefs.Gstate.{Gstate, gstate_hasmovehere}
use mbed_littlefs.Device.{Config, Driver, Cache}
use mbed_littlefs.Bd.{bd_read}
use mbed_littlefs.Bd.Prog.{Cmp, cmp_eq, cmp_lt, cmp_gt}
use mbed_littlefs.Store.{bind, word_at}
use mbed_littlefs.Dir.{Mdir}

-- The variables of the scan. `off` to `tempbest` belong to the block that is scanned.
pub record Scan : Type 0 where
  pub off : ℕ
  pub ptag : ℕ
  pub sum : ℕ
  pub tempcount : ℕ
  pub temptail : Pair
  pub tempsplit : Bool
  pub tempbest : ℕ
  pub best : ℕ
  pub seed : ℕ
  pub dir : Mdir

-- `dir->erased = erased`, before the scan of the block ends.
unfoldable pub broken : Bool → Scan → Scan
broken erased sc = record sc { dir = record (sc.dir) { erased = erased } }

-- The tag that the best match gets for a splice at `tag`.
unfoldable pub best_splice : ℕ → ℕ → ℕ
best_splice tag best =
    if tag == bit_or (mktag type_delete 0 0) (bit_and (mktag 0 0x3ff 0) best)
    then bit_or best 0x80000000
    else if not (best == 0xffffffff) && leb (tag_id tag) (tag_id best)
    then u32 (best + mktag 0 (tag_splice tag) 0)
    else best

-- A name or a splice.
unfoldable pub count_entry : ℕ → Scan → Scan
count_entry tag sc =
    if tag_type1 tag == type_name
    then record sc {
      tempcount = if leb sc.tempcount (tag_id tag) then u16 (tag_id tag + 1) else sc.tempcount;
    }
    else if tag_type1 tag == type_splice
    then record sc {
      tempcount = u16 (sc.tempcount + tag_splice tag);
      tempbest = best_splice tag sc.tempbest;
    }
    else sc

-- What the callback's answer to `tag` changes.
unfoldable pub match_entry : ℕ → Cmp → Scan → Scan
match_entry tag cmp_eq sc = record sc { tempbest = tag }
match_entry tag cmp_lt sc = sc
match_entry tag cmp_gt sc =
    if leb (tag_id tag) (tag_id sc.tempbest)
    then record sc { tempbest = bit_or tag 0x80000000 }
    else sc

-- A commit whose CRC is right; `tag` is that of the CRC.
unfoldable pub commit_found : ℕ → Scan → Scan
commit_found tag sc =
    let ptag = u32 (bit_xor tag (bit_and (tag_chunk tag) 1 <<< 31)) in
    record sc {
      ptag = ptag;
      seed = bit_xor sc.seed sc.sum;
      best = sc.tempbest;
      sum = 0xffffffff;
      dir = record (sc.dir) {
        off = u32 (sc.off + tag_dsize tag);
        etag = ptag;
        count = sc.tempcount;
        tail = sc.temptail;
        split = sc.tempsplit;
      };
    }

-- The scan of a block begins.
unfoldable pub scan_start : ByteOrder → Scan → Scan
scan_start host sc = record sc {
  off = 0;
  ptag = 0xffffffff;
  sum = crc 0xffffffff (bytes_of host (tole32 host sc.dir.rev));
  tempcount = 0;
  temptail = (0xffffffff, 0xffffffff);
  tempsplit = false;
  tempbest = sc.best;
}

-- The best match where one of the entries is being moved away.
unfoldable pub best_moved : Gstate → Mdir → ℕ → ℕ
best_moved gstate dir best =
    if gstate_hasmovehere gstate dir.pair
    then if tag_id gstate.tag == tag_id best
      then bit_or best 0x80000000
      else if not (best == 0xffffffff) && ltb (tag_id gstate.tag) (tag_id best)
      then sub32 best (mktag 0 1 0)
      else best
    else best

-- What a successful scan gives: the metadata, the seed, the id of the best match, and its tag or 0.
-- No tag is LFS2_ERR_NOENT.
pub record Fetched : Type 0 where
  pub dir : Mdir
  pub seed : ℕ
  pub id : ℕ
  pub found : Option ℕ

unfoldable pub fetched : Gstate → Scan → Fetched
fetched gstate sc =
    let best = best_moved gstate sc.dir sc.best in
    record {
      dir = sc.dir;
      seed = sc.seed;
      id = min (tag_id best) sc.dir.count;
      found =
          if tag_isvalid best
          then some best
          else if ltb (tag_id best) sc.dir.count
          then none
          else some 0;
    }

-- The variables before the first scan, of which those of a block are not read.
abbrev pub scan_of : ℕ → Mdir → Scan
scan_of seed dir = record {
  off = 0;
  ptag = 0xffffffff;
  sum = 0xffffffff;
  tempcount = 0;
  temptail = (0xffffffff, 0xffffffff);
  tempsplit = false;
  tempbest = 0xffffffff;
  best = 0xffffffff;
  seed = seed;
  dir = dir;
}

-- `T` is the callback's data.
module _ (cfg : Config) (drv : Driver) (host : ByteOrder) {T : Type 0} where
  open drv use {Dev}

  -- `lfs2_bd_read(lfs2, NULL, &lfs2->rcache, lfs2->cfg->block_size, ...)`.
  unfoldable pub read_ahead : ℕ → ℕ → ℕ → T × (Dev × Cache) → Outcome (List ℕ) × (T × (Dev × Cache))
  read_ahead block off size (t, (dev, rcache)) =
      let (out, dev', rcache') = bd_read cfg drv dev none rcache cfg.block_size block off size in
      (out, (t, (dev', rcache')))

  -- `if (err == LFS2_ERR_CORRUPT) { dir->erased = false; break; } return err;` before the rest.
  unfoldable pub or_break :
      {A : Type 0}
      → Scan
      → Outcome A × (T × (Dev × Cache))
      → (A → T × (Dev × Cache) → Outcome Scan × (T × (Dev × Cache)))
      → Outcome Scan × (T × (Dev × Cache))
  or_break sc (ok a, s) next = next a s
  or_break sc (err corrupt, s) next = (ok (broken false sc), s)
  or_break sc (err e, s) next = (err e, s)
  or_break sc (abort, s) next = (abort, s)
  or_break sc (out_of_fuel, s) next = (out_of_fuel, s)

  -- The revision of a block, and whether the block is corrupt; `rev` is the variable before.
  unfoldable pub rev_next :
      ℕ → Outcome (List ℕ) × (T × (Dev × Cache)) → Outcome (ℕ × Bool) × (T × (Dev × Cache))
  rev_next rev (ok bytes, s) = (ok (fromle32 host (word_at host bytes 0), false), s)
  rev_next rev (err corrupt, s) = (ok (fromle32 host rev, true), s)
  rev_next rev (err e, s) = (err e, s)
  rev_next rev (abort, s) = (abort, s)
  rev_next rev (out_of_fuel, s) = (out_of_fuel, s)

  -- `lfs2_bd_read` of a revision has a hint of its own.
  unfoldable pub read_rev : ℕ → ℕ → T × (Dev × Cache) → Outcome (ℕ × Bool) × (T × (Dev × Cache))
  read_rev rev block (t, (dev, rcache)) =
      let (out, dev', rcache') = bd_read cfg drv dev none rcache 4 block 0 4 in
      rev_next rev (out, (t, (dev', rcache')))

  -- The CRC tag; `again` is the loop.
  unfoldable pub scan_crc :
      (Scan → T × (Dev × Cache) → Outcome Scan × (T × (Dev × Cache)))
      → ℕ
      → Scan
      → T × (Dev × Cache)
      → Outcome Scan × (T × (Dev × Cache))
  scan_crc again tag sc s =
      or_break sc (read_ahead sc.dir.pair.0 (u32 (sc.off + 4)) 4 s) (λ bytes s'.
        if sc.sum == fromle32 host (word_at host bytes 0)
        then again (commit_found tag sc) s'
        else (ok (broken false sc), s'))

  -- The bytes of an entry from `off` on, `left` of them, for the CRC. A corrupt byte ends this loop
  -- only.
  unfoldable pub sum_entry : ℕ → ℕ → Scan → T × (Dev × Cache) → Outcome Scan × (T × (Dev × Cache))
  sum_entry off zero sc s = (ok sc, s)
  sum_entry off (suc left) sc s =
      or_break sc (read_ahead sc.dir.pair.0 (u32 off) 1 s)
        (λ bytes s'. sum_entry (off + 1) left (record sc { sum = crc sc.sum bytes }) s')

  -- After the read of a tail. The buffer is taken to be as before where the read fails.
  unfoldable pub tail_next :
      (Scan → T × (Dev × Cache) → Outcome Scan × (T × (Dev × Cache)))
      → Scan
      → Outcome (List ℕ) × (T × (Dev × Cache))
      → Outcome Scan × (T × (Dev × Cache))
  tail_next rest sc (ok bytes, s) =
      rest
        (record sc { temptail = pair_fromle32 host (word_at host bytes 0, word_at host bytes 4) }) s
  tail_next rest sc (err corrupt, s) = (ok (broken false sc), s)
  tail_next rest sc (err e, s) = rest (record sc { temptail = pair_fromle32 host sc.temptail }) s
  tail_next rest sc (abort, s) = (abort, s)
  tail_next rest sc (out_of_fuel, s) = (out_of_fuel, s)

  -- The changes that an entry makes to the directory, before the rest.
  unfoldable pub scan_change :
      (Scan → T × (Dev × Cache) → Outcome Scan × (T × (Dev × Cache)))
      → ℕ
      → Scan
      → T × (Dev × Cache)
      → Outcome Scan × (T × (Dev × Cache))
  scan_change rest tag sc s =
      if tag_type1 tag == type_tail
      then tail_next rest (record sc { tempsplit = not (bit_and (tag_chunk tag) 1 == 0) })
          (read_ahead sc.dir.pair.0 (u32 (sc.off + 4)) 8 s)
      else rest (count_entry tag sc) s

  module _ (fmask ftag : ℕ)
      (cb : ℕ → ℕ × ℕ → T × (Dev × Cache) → Outcome Cmp × (T × (Dev × Cache))) where
    -- The callback where the tag is one of those looked for; `again` is the loop.
    unfoldable pub scan_match :
        (Scan → T × (Dev × Cache) → Outcome Scan × (T × (Dev × Cache)))
        → ℕ
        → Scan
        → T × (Dev × Cache)
        → Outcome Scan × (T × (Dev × Cache))
    scan_match again tag sc s =
        if bit_and fmask tag == bit_and fmask ftag
        then or_break sc (cb tag (sc.dir.pair.0, u32 (sc.off + 4)) s)
            (λ res s'. again (match_entry tag res sc) s')
        else again sc s

    -- The tag that was read at the offset.
    unfoldable pub scan_tag :
        (Scan → T × (Dev × Cache) → Outcome Scan × (T × (Dev × Cache)))
        → ℕ
        → Scan
        → T × (Dev × Cache)
        → Outcome Scan × (T × (Dev × Cache))
    scan_tag again tag sc s =
        if not (tag_isvalid tag) || ltb cfg.block_size (u32 (sc.off + tag_dsize tag))
        then (ok (broken (tag_type1 sc.ptag == type_crc) sc), s)
        else if tag_type1 tag == type_crc
        then scan_crc again tag (record sc { ptag = tag }) s
        else bind (sum_entry (sc.off + 4) (tag_dsize tag - 4) (record sc { ptag = tag }) s)
            (scan_change (scan_match again tag) tag)

    -- The loop over the tags of a block, with fuel. It ends with the variables where the code leaves
    -- the loop.
    unfoldable pub scan_loop : ℕ → Scan → T × (Dev × Cache) → Outcome Scan × (T × (Dev × Cache))
    scan_loop zero sc s = (out_of_fuel, s)
    scan_loop (suc fuel) sc s =
        let sc1 = record sc { off = u32 (sc.off + tag_dsize sc.ptag) } in
        or_break sc1 (read_ahead sc.dir.pair.0 sc1.off 4 s) (λ bytes s'.
          scan_tag (scan_loop fuel) (u32 (bit_xor (frombe32 host (word_at host bytes 0)) sc.ptag))
            (record sc1 { sum = crc sc.sum bytes }) s')

    -- The scans of the blocks of the pair, `left` of them, where `other` is the revision of the second.
    unfoldable pub fetch_blocks :
        Gstate → ℕ → ℕ → Scan → T × (Dev × Cache) → Outcome Fetched × (T × (Dev × Cache))
    fetch_blocks gstate other zero sc s = (err corrupt, s)
    fetch_blocks gstate other (suc left) sc s =
        bind (scan_loop (cfg.block_size + 1) (scan_start host sc) s) (λ sc' s'.
          let rest =
            fetch_blocks gstate other left
              (record sc' { dir = record (sc'.dir) { pair = pair_swap sc'.dir.pair; rev = other } })
              s' in
          elim (ltb 0 sc'.dir.off) [ true ↦ (ok (fetched gstate sc'), s') | false ↦ rest ])

    -- After the revisions; `newer` tells that the second block is to be scanned first.
    unfoldable pub fetch_newer :
        Gstate
        → Pair
        → ℕ × ℕ
        → ℕ
        → Mdir
        → Bool
        → T × (Dev × Cache)
        → Outcome Fetched × (T × (Dev × Cache))
    fetch_newer gstate pair revs seed dir newer s =
        let (first, second) : (ℕ × ℕ) × (ℕ × ℕ) =
          if newer
          then ((pair.1, revs.1), (pair.0, revs.0))
          else ((pair.0, revs.0), (pair.1, revs.1)) in
        fetch_blocks gstate second.1 2
          (scan_of seed (record dir { pair = (first.0, second.0); rev = first.1; off = 0 })) s

    -- `lfs2_dir_fetchmatch`; `revs` is what the variable of that name holds before it is set.
    unfoldable pub dir_fetchmatch :
        Gstate → ℕ × ℕ → ℕ → Mdir → Pair → T × (Dev × Cache) → Outcome Fetched × (T × (Dev × Cache))
    dir_fetchmatch gstate revs seed dir pair s = bind (read_rev revs.0 pair.0 s) (λ rev0 s0.
        bind (read_rev revs.1 pair.1 s0) (λ rev1 s1.
          fetch_newer gstate pair (rev0.0, rev1.0) seed dir
            (is_positive (scmp rev1.0 rev0.0) || rev1.1) s1))

  -- `lfs2_dir_fetch`, which passes no callback.
  unfoldable pub dir_fetch :
      Gstate → ℕ × ℕ → ℕ → Mdir → Pair → T × (Dev × Cache) → Outcome Fetched × (T × (Dev × Cache))
  dir_fetch = dir_fetchmatch 0xffffffff 0 (λ tag disk s. (abort, s))
