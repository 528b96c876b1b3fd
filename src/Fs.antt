-- ===== src/Fs.antt =====
-- Walks over the whole file system of littlefs/lfs2.c: `lfs2_fs_traverse`, `lfs2_fs_size`,
-- `lfs2_fs_pred`, `lfs2_fs_parent`, and `lfs2_stat`. `lfs2_dir_find`, `lfs2_dir_fetch` and
-- `lfs2_dir_fetchmatch` are arguments.
pub mod Pred
pub mod Count
pub mod Over
use mbed_littlefs.Base.{
  ℕ, zero, suc, ◌+◌, ◌-◌, ◌^◌, Bool, true, false, not, ◌&&◌, ◌==◌, if◌then◌else◌, List, [], ◌∷◌,
  Option, none, some, Error, noent, Outcome, ok, err, abort, out_of_fuel, u32,
}
use mbed_littlefs.Util.{ByteOrder}
use mbed_littlefs.Tag.{
  Pair, mktag, tag_id, tag_type3, type_struct, type_ctzstruct, type_dirstruct, pair_isnull,
  pair_cmp, pair_fromle32,
}
use mbed_littlefs.Gstate.{Gstate}
use mbed_littlefs.Device.{Config, Driver, Cache}
use mbed_littlefs.Bd.{bd_read}
use mbed_littlefs.Bd.Prog.{Cmp, cmp_eq, cmp_lt}
use mbed_littlefs.Store.{bind, word_at}
use mbed_littlefs.Ctz.{ctz_traverse}
use mbed_littlefs.Disk.{CtzStruct, ctz_fromle32}
use mbed_littlefs.Dir.{Mdir, Info, dir_get, dir_getinfo}
use mbed_littlefs.Dir.Walk.{Fetch}
use mbed_littlefs.File.{File, f_dirty, f_writing, f_inline, has}

module _ {S : Type 0} (dir_fetch : Fetch S) where
  -- The loop of `lfs2_fs_pred`, with fuel.
  unfoldable pub pred_loop : ℕ → Pair → Mdir × S → Outcome (Unit {0}) × (Mdir × S)
  pred_loop zero pair w = (out_of_fuel, w)
  pred_loop (suc fuel) pair w = elim (pair_isnull w.0.tail) [
    | true ↦ (err noent, w)
    | false ↦ elim (pair_cmp w.0.tail pair) [
      | false ↦ (ok tt, w)
      | true ↦ bind (dir_fetch w.0.tail w) (λ _ w'. pred_loop fuel pair w')
    ]
  ]

  unfoldable pub fs_pred : ℕ → Pair → Mdir × S → Outcome (Unit {0}) × (Mdir × S)
  fs_pred fuel pair (pdir, s) = pred_loop fuel pair (record pdir { tail = (0, 1) }, s)

-- `lfs2_fs_size_count`; `R` is what a fetch changes.
unfoldable pub fs_size_count : {R : Type 0} → ℕ × R → ℕ → Option Error × (ℕ × R)
fs_size_count (size, r) block = (none, (u32 (size + 1), r))

-- An entry of `lfs2->mlist`.
pub data Handle : Type 0 where
  of_file : File → Handle
  of_dir : Handle

module _ (cfg : Config) (drv : Driver) (host : ByteOrder) where
  open drv use {Dev}

  -- `lfs2_fs_parent_match` over the device and the caches; `disk` is the place of the tag's data.
  unfoldable pub fs_parent_match :
      Pair → ℕ → ℕ × ℕ → Cache → Dev × Cache → Outcome Cmp × (Dev × Cache)
  fs_parent_match pair tag disk pcache (dev, rcache) =
      let (out, dev', rcache') =
        bd_read cfg drv dev (some pcache) rcache cfg.block_size disk.0 disk.1 8 in
      bind (out, (dev', rcache'))
        (λ bytes s.
          let child = pair_fromle32 host (word_at host bytes 0, word_at host bytes 4) in
          (ok (if not (pair_cmp child pair) then cmp_eq else cmp_lt), s))

  -- What the callback of `lfs2_dir_fetchmatch` is.
  abbrev pub Match : Type 0
  Match = ℕ → ℕ × ℕ → Cache → Dev × Cache → Outcome Cmp × (Dev × Cache)

  module _ {S : Type 0}
      (dir_fetchmatch : ℕ → ℕ → Match → Pair → Mdir × S → Outcome ℕ × (Mdir × S)) where
    -- What follows `lfs2_dir_fetchmatch`; `again` is the loop.
    unfoldable pub parent_next :
        (Mdir × S → Outcome ℕ × (Mdir × S)) → Outcome ℕ × (Mdir × S) → Outcome ℕ × (Mdir × S)
    parent_next again (ok zero, w) = again w
    parent_next again (err noent, w) = again w
    parent_next again (out, w) = (out, w)

    -- The loop of `lfs2_fs_parent`, with fuel.
    unfoldable pub parent_loop : ℕ → Pair → Mdir × S → Outcome ℕ × (Mdir × S)
    parent_loop zero pair w = (out_of_fuel, w)
    parent_loop (suc fuel) pair w = elim (pair_isnull w.0.tail) [
      | true ↦ (err noent, w)
      | false ↦ parent_next (parent_loop fuel pair) (
          dir_fetchmatch (mktag 0x7ff 0 0x3ff) (mktag type_dirstruct 0 8) (fs_parent_match pair)
            w.0.tail w)
    ]

    unfoldable pub fs_parent : ℕ → Pair → Mdir × S → Outcome ℕ × (Mdir × S)
    fs_parent fuel pair (parent, s) = parent_loop fuel pair (record parent { tail = (0, 1) }, s)

  -- `T` is what the callback and a fetch change besides the device and the read cache.
  module _ {T : Type 0} (gstate : Gstate) where
    unfoldable pub stat :
        (Mdir × (T × (Dev × Cache)) → Outcome ℕ × (Mdir × (T × (Dev × Cache))))
        → ℕ
        → Mdir × (T × (Dev × Cache))
        → Outcome Info × (Mdir × (T × (Dev × Cache)))
    stat dir_find name_max w = bind (dir_find w) (λ tag w'.
        let (out, s) = dir_getinfo cfg drv host gstate name_max w'.0 (tag_id tag) w'.1.1 in
        (out, (w'.0, (w'.1.0, s))))

    module _ (cb : T → ℕ → Option Error × T) (dir_fetch : Fetch (T × (Dev × Cache))) where
      -- One call of the callback.
      unfoldable pub call : ℕ → T × (Dev × Cache) → Outcome (Unit {0}) × (T × (Dev × Cache))
      call block (obj, s) =
          let (status, obj') = cb obj block in
          elim status [ none ↦ (ok tt, (obj', s)) | some e ↦ (err e, (obj', s)) ]

      -- What follows the lookup of the structure of an id.
      unfoldable pub traverse_next :
          T → Outcome (ℕ × List ℕ) × (Dev × Cache) → Outcome (Unit {0}) × (T × (Dev × Cache))
      traverse_next obj (ok (tag, bytes), s) =
          let ctz =
            ctz_fromle32 host
              (record { head = word_at host bytes 0; size = word_at host bytes 4 }) in
          if tag_type3 tag == type_ctzstruct
          then ctz_traverse cfg drv host cb (obj, s) none ctz.head ctz.size
          else (ok tt, (obj, s))
      traverse_next obj (err noent, s) = (ok tt, (obj, s))
      traverse_next obj (err e, s) = (err e, (obj, s))
      traverse_next obj (abort, s) = (abort, (obj, s))
      traverse_next obj (out_of_fuel, s) = (out_of_fuel, (obj, s))

      -- The loop over the ids of a pair; `left` of them are left.
      unfoldable pub traverse_ids :
          Mdir → ℕ → T × (Dev × Cache) → Outcome (Unit {0}) × (T × (Dev × Cache))
      traverse_ids dir zero w = (ok tt, w)
      traverse_ids dir (suc left) w =
          bind
            (traverse_next w.0 (
              dir_get cfg drv host gstate dir (mktag 0x700 0x3ff 0)
                (mktag type_struct (dir.count - suc left) 8) w.1))
            (λ _ w'. traverse_ids dir left w')

      -- The loop over the metadata pairs, with fuel.
      unfoldable pub traverse_pairs :
          ℕ → Mdir × (T × (Dev × Cache)) → Outcome (Unit {0}) × (T × (Dev × Cache))
      traverse_pairs zero w = (out_of_fuel, w.1)
      traverse_pairs (suc fuel) w = elim (pair_isnull w.0.tail) [
        | true ↦ (ok tt, w.1)
        | false ↦ bind (call w.0.tail.0 w.1) (λ _ w1. bind (call w.0.tail.1 w1) (λ _ w2.
            let (out, w3) = dir_fetch w.0.tail (w.0, w2) in
            bind (out, w3.1)
              (λ _ w4.
                bind (traverse_ids w3.0 w3.0.count w4) (λ _ w5. traverse_pairs fuel (w3.0, w5)))))
      ]

      -- The blocks of an open file, of a list and of the one that is written.
      unfoldable pub traverse_file :
          File → T × (Dev × Cache) → Outcome (Unit {0}) × (T × (Dev × Cache))
      traverse_file f w =
          let kept =
            if has f.flags f_dirty && not (has f.flags f_inline)
            then ctz_traverse cfg drv host cb w (some f.cache) f.ctz_head f.ctz_size
            else (ok tt, w) in
          bind kept (λ _ w'.
            if has f.flags f_writing && not (has f.flags f_inline)
            then ctz_traverse cfg drv host cb w' (some f.cache) f.block f.pos
            else (ok tt, w'))

      -- The loop over the open files.
      unfoldable pub traverse_files :
          List Handle → T × (Dev × Cache) → Outcome (Unit {0}) × (T × (Dev × Cache))
      traverse_files [] w = (ok tt, w)
      traverse_files (of_dir ∷ hs) w = traverse_files hs w
      traverse_files (of_file f ∷ hs) w = bind (traverse_file f w) (λ _ w'. traverse_files hs w')

      unfoldable pub fs_traverse :
          ℕ → List Handle → Mdir → T × (Dev × Cache) → Outcome (Unit {0}) × (T × (Dev × Cache))
      fs_traverse fuel mlist dir w =
          bind (traverse_pairs fuel (record dir { tail = (0, 1) }, w))
            (λ _ w'. traverse_files mlist w')

  -- The count is a word; the code returns it as a signed number, which is the same below 2 ^ 31.
  unfoldable pub fs_size :
      {R : Type 0}
      → Gstate
      → Fetch ((ℕ × R) × (Dev × Cache))
      → ℕ
      → List Handle
      → Mdir
      → (ℕ × R) × (Dev × Cache)
      → Outcome ℕ × ((ℕ × R) × (Dev × Cache))
  fs_size gstate dir_fetch fuel mlist dir ((size, r), s) =
      bind (fs_traverse gstate fs_size_count dir_fetch fuel mlist dir ((0, r), s))
        (λ _ w. (ok w.0.0, w))
