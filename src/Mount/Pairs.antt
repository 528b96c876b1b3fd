-- ===== src/Mount/Pairs.antt =====
-- What `lfs2_mount` and `lfs2_format` of littlefs/lfs2.c call of the metadata pairs, by the functions that
-- they call.
use mbed_littlefs.Base.{ℕ, List, [], ◌∷◌, none, some, noent, Outcome, ok, err, abort, out_of_fuel}
use mbed_littlefs.Util.{ByteOrder}
use mbed_littlefs.Tag.{mktag, type_superblock, type_inlinestruct}
use mbed_littlefs.Gstate.{gstate_zero}
use mbed_littlefs.Device.{Config, Driver}
use mbed_littlefs.Bd.Prog.{Flash}
use mbed_littlefs.Alloc.{Traversal}
use mbed_littlefs.Store.{word_at}
use mbed_littlefs.Dir.{Mdir, dir_get, dir_getgstate, dir_find_match}
use mbed_littlefs.Dir.Commit.{dir_alloc}
use mbed_littlefs.Dir.Fetch.{Fetched, dir_fetchmatch, dir_fetch}
use mbed_littlefs.Disk.{Superblock}
use mbed_littlefs.Mount.Scan.{Metadata}
use mbed_littlefs.Mount.Format.{Medium, Writer}

-- `littlefs`.
abbrev magic : List ℕ
magic = 0x6c ∷ 0x69 ∷ 0x74 ∷ 0x74 ∷ 0x6c ∷ 0x65 ∷ 0x66 ∷ 0x73 ∷ []

-- The tag, the metadata and the seed of a fetch; no tag is LFS2_ERR_NOENT.
abbrev fetch_result : Outcome Fetched → Outcome (ℕ × Mdir × ℕ)
fetch_result (ok r) = elim r.found [ none ↦ err noent | some tag ↦ ok (tag, r.dir, r.seed) ]
fetch_result (err e) = err e
fetch_result abort = abort
fetch_result out_of_fuel = out_of_fuel

-- The metadata of a fetch, where its seed is kept elsewhere.
abbrev dir_result : Outcome Fetched → Outcome Mdir
dir_result (ok r) = ok r.dir
dir_result (err e) = err e
dir_result abort = abort
dir_result out_of_fuel = out_of_fuel

-- The seed after a fetch.
abbrev seed_result : ℕ → Outcome Fetched → ℕ
seed_result seed (ok r) = r.seed
seed_result seed _ = seed

-- The words of a superblock in memory.
abbrev superblock_result : ByteOrder → Outcome (ℕ × List ℕ) → Outcome Superblock
superblock_result host (ok (tag, bytes)) = ok (record {
  version = word_at host bytes 0;
  block_size = word_at host bytes 4;
  block_count = word_at host bytes 8;
  name_max = word_at host bytes 12;
  file_max = word_at host bytes 16;
  attr_max = word_at host bytes 20;
})
superblock_result host (err e) = err e
superblock_result host abort = abort
superblock_result host out_of_fuel = out_of_fuel

-- `dir` and `revs` are what the variables of these names hold before they are set. The global state is
-- zero during a mount.
module _ (cfg : Config) (drv : Driver) (host : ByteOrder) (dir : Mdir) (revs : ℕ × ℕ) where
  open drv use {Dev}

  abbrev pub mount_pairs : Metadata Dev
  mount_pairs = record {
    fetchmatch = λ seed pair s.
        let (out, (_, s')) =
          dir_fetchmatch cfg drv host (mktag 0x7ff 0x3ff 0) (mktag type_superblock 0 8)
            (λ tag disk w.
              let (found, s1) = dir_find_match cfg drv host magic 8 tag disk.0 disk.1 w.1 in
              (found, (w.0, s1)))
            gstate_zero revs seed dir pair (tt {0}, s) in
        (fetch_result out, s');
    superblock = λ own d s.
        let (out, s') =
          dir_get cfg drv host own d (mktag 0x7ff 0x3ff 0) (mktag type_inlinestruct 0 24) s in
        (superblock_result host out, s');
    getgstate = dir_getgstate cfg drv host;
  }

  -- `commit` is `lfs2_dir_commit` of the superblock's entry.
  abbrev pub format_pairs :
      Traversal (Flash Dev)
      → (Mdir → Superblock → Medium Dev → Outcome Mdir × Medium Dev)
      → Writer Dev
  format_pairs t commit = record {
    dir_alloc = λ m.
        let (out, (s, free)) =
          dir_alloc cfg drv host t
            (record { dev = m.dev; pcache = m.pcache; rcache = m.rcache }, m.free) in
        (out, record m { dev = s.dev; pcache = s.pcache; rcache = s.rcache; free = free });
    commit_superblock = commit;
    dir_fetch = λ pair m.
        let (out, (_, (dev, rcache))) =
          dir_fetch cfg drv host gstate_zero revs m.seed dir pair (tt {0}, (m.dev, m.rcache)) in
        (dir_result out, record m { dev = dev; rcache = rcache; seed = seed_result m.seed out });
  }
