-- ===== src/Emubd/Restore.antt =====
-- What `lfs2_emubd_create` finds of the counts and the history that `lfs2_emubd_sync` has written.
use mbed_littlefs.Base.{
  ℕ, ◌+◌, ◌%◌, ◌^◌, ◌<◌, ◌≡◌, refl, arith, ap, ap₂, ◌∙◌, List, [], ◌∷◌, map, replicate, none,
  Outcome, ok,
}
use native.Mathlib.Nat.{mod-eq_of_lt}
use mbed_littlefs.Util.{ByteOrder, fromle32, tole32}
use mbed_littlefs.Util.Order.{fromle32-tole32, tole32-lt, of_disk, fromle32-of_disk}
use mbed_littlefs.Device.{Config}
use mbed_littlefs.Emubd.{
  Stats, Emu, saved, HostDir, EmuDev, Errno, Faults, emubd_tole32, emubd_fromle32,
}
use mbed_littlefs.Emubd.Sync.{
  set_config, set_stats, set_history, sync_file, emubd_sync, load_file, load_files, emubd_create,
  put_config, put_stats, put_history, convert, zero_stats,
}

abbrev pub AreWordsIn : List ℕ → Type 0
AreWordsIn [] = Unit {0}
AreWordsIn (x ∷ xs) = (x < 2 ^ 32) × AreWordsIn xs

-- The counts, the history and the numbers of the configuration are words of 32 bits.
pub record IsSmall (emu : Emu) : Type 0 where
  pub read_count : emu.stats.read_count < 2 ^ 32
  pub prog_count : emu.stats.prog_count < 2 ^ 32
  pub erase_count : emu.stats.erase_count < 2 ^ 32
  pub history : AreWordsIn emu.history
  pub read_size : emu.cfg.read_size < 2 ^ 32
  pub prog_size : emu.cfg.prog_size < 2 ^ 32
  pub block_size : emu.cfg.block_size < 2 ^ 32
  pub block_count : emu.cfg.block_count < 2 ^ 32

restored : (host : ByteOrder) (a : ℕ) → a < 2 ^ 32 → fromle32 host (tole32 host a) ≡ a
restored host a h = (fromle32-tole32 host a h).0

map_restored :
    (host : ByteOrder) (xs : List ℕ)
    → AreWordsIn xs
    → map (fromle32 host) (map (tole32 host) xs) ≡ xs
map_restored host [] h = refl
map_restored host (x ∷ xs) (h, hs) = ap₂ ◌∷◌ (restored host x h) (map_restored host xs hs)

-- A count that is converted in 64 bits and back.
count_restored :
    (host : ByteOrder) (a : ℕ) → a < 2 ^ 32 → fromle32 host (tole32 host (a % 2 ^ 32) % 2 ^ 32) ≡ a
count_restored host a h =
    let small : a % 2 ^ 32 ≡ a = mod-eq_of_lt h in
    let small' : tole32 host a % 2 ^ 32 ≡ tole32 host a = mod-eq_of_lt (tole32-lt host a h) in
    rw (small, small') (restored host a h)

emubd_fromle32-emubd_tole32 :
    (host : ByteOrder) (emu : Emu) → IsSmall emu → emubd_fromle32 host (emubd_tole32 host emu) ≡ emu
unfolding emubd_fromle32 emubd_tole32
emubd_fromle32-emubd_tole32 host emu w = λ i. record {
  cfg = record {
    read_size = restored host emu.cfg.read_size w.read_size i;
    prog_size = restored host emu.cfg.prog_size w.prog_size i;
    block_size = restored host emu.cfg.block_size w.block_size i;
    block_count = restored host emu.cfg.block_count w.block_count i;
  };
  stats = record {
    read_count = count_restored host emu.stats.read_count w.read_count i;
    prog_count = count_restored host emu.stats.prog_count w.prog_count i;
    erase_count = count_restored host emu.stats.erase_count w.erase_count i;
  };
  history = map_restored host emu.history w.history i;
}

truncated :
    (host : ByteOrder) (a : ℕ) → fromle32 host (tole32 host (a % 2 ^ 32) % 2 ^ 32) ≡ a % 2 ^ 32
truncated host a =
    let twice : a % 2 ^ 32 % 2 ^ 32 ≡ a % 2 ^ 32 = omega arith in
    rw twice at (count_restored host (a % 2 ^ 32) (omega arith))

-- The directory after a sync.
abbrev synced : ByteOrder → Emu → HostDir → HostDir
synced host emu dir =
    let le = emubd_tole32 host emu in
    set_history (saved le.history) (set_stats (saved le.stats) (set_config (saved le.cfg) dir))

module _ (cfg : Config) (host : ByteOrder) (n : Errno) (faults : Faults)
    (none_fails : (k : ℕ) → faults.fails k ≡ none) where
  sync_lem :
      (s : EmuDev)
      → IsSmall s.emu
      → emubd_sync cfg host n faults s ≡ (ok tt, record s { dir = synced host s.emu s.dir })
  unfolding emubd_sync sync_file
  sync_lem s w =
      let back = emubd_fromle32-emubd_tole32 host s.emu w in
      rw
        (
          none_fails 0,
          none_fails 1,
          none_fails 2,
          back,
          none_fails 3,
          none_fails 4,
          none_fails 5,
          back,
          none_fails 6,
          none_fails 7,
          none_fails 8,
          back,
        )
        refl

  load_saved :
      {A : Type 0} (k : ℕ) (a : A) (set : A → EmuDev → EmuDev) (absent : EmuDev → EmuDev)
      (next : EmuDev → Outcome (Unit {0}) × EmuDev) (s : EmuDev)
      → load_file cfg host n faults k (saved a) set absent next s
        ≡ next (convert cfg host n faults (set a s))
  load_saved k a set absent next s =
      rw (load_file, none_fails k, none_fails (k + 1), none_fails (k + 2)) refl

  -- The state after a creation that finds both files.
  abbrev created : Stats → List ℕ → EmuDev → EmuDev
  created stats history s = convert cfg host n faults (
      put_history cfg host n faults history (
        convert cfg host n faults
          (put_stats cfg host n faults stats (put_config cfg host n faults s))))

  create_lem :
      (stats : Stats) (history : List ℕ) (emu : Emu) (dir : HostDir)
      → let s : EmuDev = record {
        emu = emu;
        dir = set_history (saved history) (set_stats (saved stats) dir);
      } in
        emubd_create cfg host n faults s ≡ (ok tt, created stats history s)
  unfolding emubd_create load_files
  create_lem stats history emu dir =
      let s : EmuDev = record {
        emu = emu;
        dir = set_history (saved history) (set_stats (saved stats) dir);
      } in
      let set1 = put_stats cfg host n faults in
      let set2 = put_history cfg host n faults in
      let s1 = put_config cfg host n faults s in
      let last : EmuDev → Outcome (Unit {0}) × EmuDev = λ s'. (ok tt, s') in
      rw (emubd_create, none_fails 0, none_fails 1, load_files)
        (load_saved 2 stats set1 (set1 zero_stats)
            (λ s'.
              load_file cfg host n faults 5 s'.dir.history_file set2 (set2 (replicate 4 0)) last s')
            s1
          ∙ load_saved 5 history set2 (set2 (replicate 4 0)) last
              (convert cfg host n faults (set1 stats s1)))

  -- A count that is written, read, and converted once more.
  loaded :
      (a : ℕ)
      → a < 2 ^ 32
      → fromle32 host (fromle32 host (tole32 host (a % 2 ^ 32) % 2 ^ 32) % 2 ^ 32) ≡ of_disk host a
  loaded a h =
      let small : a % 2 ^ 32 ≡ a = mod-eq_of_lt h in
      rw (count_restored host a h, small) (fromle32-of_disk host a h)

  -- Where no call of the host fails and the state consists of 32-bit words, `lfs2_emubd_sync`
  -- succeeds and keeps the state, and `lfs2_emubd_create` on the directory that it leaves succeeds with
  -- the history that was written. The counts it finds have the bytes of the written ones in the order of
  -- the disk: on a little-endian host they are the written counts, on a big-endian host they are
  -- swapped, since they are converted again when the history is loaded.
  pub emubd_create-emubd_sync :
      (s : EmuDev) (fresh : Emu)
      → IsSmall s.emu
      → let (out1, s1) = emubd_sync cfg host n faults s in
        let (out2, s2) = emubd_create cfg host n faults (record { emu = fresh; dir = s1.dir }) in
        (out1 ≡ ok tt)
        × (s1.emu ≡ s.emu)
        × (out2 ≡ ok tt)
        × (s2.emu.history ≡ s.emu.history)
        × (s2.emu.stats.read_count ≡ of_disk host s.emu.stats.read_count)
        × (s2.emu.stats.prog_count ≡ of_disk host s.emu.stats.prog_count)
        × (s2.emu.stats.erase_count ≡ of_disk host s.emu.stats.erase_count)
  unfolding emubd_fromle32 emubd_tole32
  emubd_create-emubd_sync s fresh w =
      let le = emubd_tole32 host s.emu in
      rw (sync_lem s w, create_lem le.stats le.history fresh (set_config (saved le.cfg) s.dir))
        (
          refl,
          refl,
          refl,
          map_restored host s.emu.history w.history,
          loaded s.emu.stats.read_count w.read_count,
          loaded s.emu.stats.prog_count w.prog_count,
          loaded s.emu.stats.erase_count w.erase_count,
        )

-- A count converted to the order of the disk and back, once for each file.
abbrev truncate : ByteOrder → ℕ → ℕ
truncate host a = fromle32 host (tole32 host (a % 2 ^ 32) % 2 ^ 32)

thrice : (host : ByteOrder) (a : ℕ) → truncate host (truncate host (truncate host a)) ≡ a % 2 ^ 32
thrice host a =
    truncated host (truncate host (truncate host a))
    ∙ ap (λ n. n % 2 ^ 32) (truncated host (truncate host a))
    ∙ ap (λ n. n % 2 ^ 32 % 2 ^ 32) (truncated host a)
    ∙ omega arith

-- `lfs2_emubd_sync` converts the counts of 64 bits to 32 bits, also those of the state in memory: where
-- no call of the host fails, a count of 2 ^ 32 or more has lost its upper half after it.
emubd_sync_truncates :
    (cfg : Config) (host : ByteOrder) (n : Errno) (faults : Faults)
    (none_fails : (k : ℕ) → faults.fails k ≡ none) (s : EmuDev)
    → let stats = (emubd_sync cfg host n faults s).1.emu.stats in
      (stats.read_count ≡ s.emu.stats.read_count % 2 ^ 32)
      × (stats.prog_count ≡ s.emu.stats.prog_count % 2 ^ 32)
      × (stats.erase_count ≡ s.emu.stats.erase_count % 2 ^ 32)
unfolding emubd_sync sync_file emubd_fromle32 emubd_tole32
emubd_sync_truncates cfg host n faults none_fails s =
    rw
      (
        emubd_sync,
        sync_file,
        none_fails 0,
        none_fails 1,
        none_fails 2,
        none_fails 3,
        none_fails 4,
        none_fails 5,
        none_fails 6,
        none_fails 7,
        none_fails 8,
      )
      (
        thrice host s.emu.stats.read_count,
        thrice host s.emu.stats.prog_count,
        thrice host s.emu.stats.erase_count,
      )
