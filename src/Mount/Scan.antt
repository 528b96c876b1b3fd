-- ===== src/Mount/Scan.antt =====
-- `lfs2_mount`, `lfs2_unmount` and `lfs2_format` of littlefs/lfs2.c.
use mbed_littlefs.Base.{
  ℕ, zero, suc, ◌+◌, ◌%◌, Bool, true, false, not, ◌&&◌, ltb, ◌==◌, if◌then◌else◌, inval, Outcome,
  ok, err, abort, out_of_fuel, u32, bit_and, ◌>>>◌,
}
use mbed_littlefs.Util.{ByteOrder}
use mbed_littlefs.Tag.{Pair, pair_isnull, tag_isdelete, tag_isvalid}
use mbed_littlefs.Gstate.{Gstate}
use mbed_littlefs.Device.{Config, Cache}
use mbed_littlefs.Alloc.{alloc_ack}
use mbed_littlefs.Store.{bind}
use mbed_littlefs.Dir.{Mdir}
use mbed_littlefs.Disk.{Superblock, superblock_fromle32}
use mbed_littlefs.Mount.{Buffers, Lfs2, Heap, deinit, init}

-- What a mount reads of the metadata pairs on the device `D` through the read cache, and what a
-- format writes there. `fetchmatch` is `lfs2_dir_fetchmatch` for the superblock, from the seed and
-- the pair on, and gives its tag, the fetched pair and the seed; `superblock` is `lfs2_dir_get` of the
-- superblock's structure, as on disk; `getgstate` is `lfs2_dir_getgstate`. Each may also fail an
-- assertion, or not end.
pub record Metadata (D : Type 0) : Type 0 where
  pub fetchmatch : ℕ → Pair → D × Cache → Outcome (ℕ × Mdir × ℕ) × (D × Cache)
  pub superblock : Gstate → Mdir → D × Cache → Outcome Superblock × (D × Cache)
  pub getgstate : Gstate → Mdir → Gstate → D × Cache → Outcome Gstate × (D × Cache)

-- A file system with its heap and its device.
pub record Volume (D : Type 0) : Type 0 where
  pub lfs2 : Lfs2
  pub heap : Heap
  pub dev : D

-- A call on the device and the read cache.
abbrev pub through :
    {D A : Type 0} → (D × Cache → Outcome A × (D × Cache)) → Volume D → Outcome A × Volume D
through call v =
    let (out, (dev', rcache')) = call (v.dev, v.lfs2.rcache) in
    (out, record v { dev = dev'; lfs2 = record (v.lfs2) { rcache = rcache' } })

-- `if (stored) { if (stored > current) return LFS2_ERR_INVAL; current = stored; }`.
unfoldable pub limit : ℕ → ℕ → Outcome ℕ
limit stored current =
    if stored == 0 then ok current else if ltb current stored then err inval else ok stored

-- The disk version is 2.0.
unfoldable pub version_ok : ℕ → Bool
version_ok version =
    bit_and 0xffff (version >>> 16) == 2 && not (ltb 0 (bit_and 0xffff (version >>> 0)))

-- The checks of the superblock; the limits that are passed are those of the superblock from then on.
unfoldable pub check_superblock : Superblock → Lfs2 → Outcome (Unit {0}) × Lfs2
check_superblock s lfs2 =
    if version_ok s.version
    then bind (limit s.name_max lfs2.name_max, lfs2)
        (λ name_max lfs2.
          bind (limit s.file_max lfs2.file_max, record lfs2 { name_max = name_max })
            (λ file_max lfs2.
              bind (limit s.attr_max lfs2.attr_max, record lfs2 { file_max = file_max })
                (λ attr_max lfs2. (ok tt, record lfs2 { attr_max = attr_max }))))
    else (err inval, lfs2)

module _ (cfg : Config) (buffers : Buffers) (host : ByteOrder) {D : Type 0}
    (meta : Metadata D) where
  -- `lfs2_deinit`.
  abbrev pub released : Volume D → Volume D
  released v = record v { heap = deinit buffers v.lfs2 v.heap }

  abbrev pub unmount : Volume D → Outcome (Unit {0}) × Volume D
  unmount v = (ok tt, released v)

  -- `goto cleanup` on an error.
  abbrev pub or_cleanup : {A : Type 0} → Outcome A × Volume D → Outcome A × Volume D
  or_cleanup (ok a, v) = (ok a, v)
  or_cleanup (err e, v) = (err e, released v)
  or_cleanup (abort, v) = (abort, v)
  or_cleanup (out_of_fuel, v) = (out_of_fuel, v)

  -- The checks within a volume.
  abbrev pub check : Superblock → Volume D → Outcome (Unit {0}) × Volume D
  check s v = let (out, lfs2') = check_superblock s v.lfs2 in (out, record v { lfs2 = lfs2' })

  -- The pair has the superblock.
  unfoldable pub read_superblock : Mdir → Volume D → Outcome (Unit {0}) × Volume D
  read_superblock dir v =
      bind
        (through (meta.superblock v.lfs2.gstate dir)
          (record v { lfs2 = record (v.lfs2) { root = dir.pair } }))
        (λ found v'. check (superblock_fromle32 host found) v')

  -- `tag && !lfs2_tag_isdelete(tag)`.
  abbrev pub has_superblock : ℕ → Bool
  has_superblock tag = not (tag == 0) && not (tag_isdelete tag)

  -- The global state of one pair; on an error the code returns without the cleanup.
  unfoldable pub read_gstate : Mdir → Volume D → Outcome (Unit {0}) × Volume D
  read_gstate dir v =
      bind (through (meta.getgstate v.lfs2.gstate dir v.lfs2.gpending) v)
        (λ gpending v'. (ok tt, record v' { lfs2 = record (v'.lfs2) { gpending = gpending } }))

  -- The fetch of a pair, with the seed.
  abbrev pub fetch : Pair → Volume D → Outcome (ℕ × Mdir) × Volume D
  fetch pair v = bind (through (meta.fetchmatch v.lfs2.seed pair) v) (λ found v'.
      (ok (found.0, found.1), record v' { lfs2 = record (v'.lfs2) { seed = found.2 } }))

  -- One round of the scan.
  unfoldable pub scan_pair : Pair → Volume D → Outcome Mdir × Volume D
  scan_pair pair v = bind (or_cleanup (fetch pair v)) (λ found v1.
      bind (if has_superblock found.0 then or_cleanup (read_superblock found.1 v1) else (ok tt, v1))
        (λ _ v2. bind (read_gstate found.1 v2) (λ _ v3. (ok found.1, v3))))

  -- The scan of the metadata pairs from `tail` on, with fuel.
  unfoldable pub scan_pairs : ℕ → Pair → Volume D → Outcome (Unit {0}) × Volume D
  scan_pairs zero tail v = (out_of_fuel, v)
  scan_pairs (suc fuel) tail v = elim (pair_isnull tail) [
    | true ↦ (ok tt, v)
    | false ↦ bind (scan_pair tail v) (λ dir v'. scan_pairs fuel dir.tail v')
  ]

  unfoldable pub mount_state : Lfs2 → Lfs2
  mount_state lfs2 =
      let tag = lfs2.gpending.tag in
      let pending = record (lfs2.gpending) {
        tag = u32 (tag + (if tag_isvalid tag then 0 else 1));
      } in
      record lfs2 {
        gpending = pending;
        gstate = pending;
        free =
            alloc_ack cfg
              (record (lfs2.free) { off = lfs2.seed % cfg.block_size; size = 0; i = 0 });
      }

  unfoldable pub mount_end : Volume D → Outcome (Unit {0}) × Volume D
  mount_end v =
      if pair_isnull v.lfs2.root
      then (err inval, released v)
      else (ok tt, record v { lfs2 = mount_state v.lfs2 })

  abbrev pub init_volume : Volume D → Outcome (Unit {0}) × Volume D
  init_volume v =
      let (out, (lfs2', heap')) = init cfg buffers (v.lfs2, v.heap) in
      (out, record v { lfs2 = lfs2'; heap = heap' })

  unfoldable pub mount : ℕ → Volume D → Outcome (Unit {0}) × Volume D
  mount fuel v =
      bind (init_volume v) (λ _ v1. bind (scan_pairs fuel (0, 1) v1) (λ _ v2. mount_end v2))
