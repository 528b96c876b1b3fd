-- ===== src/Emubd/Sync.antt =====
-- `lfs2_emubd_create`, `lfs2_emubd_sync` and `lfs2_emubd_destroy` of littlefs/emubd/lfs2_emubd.c.
use mbed_littlefs.Base.{
  ℕ, ◌+◌, ◌==◌, if◌then◌else◌, List, Option, none, some, replicate, Outcome, ok,
}
use mbed_littlefs.Util.{ByteOrder}
use mbed_littlefs.Device.{Config}
use mbed_littlefs.Store.{bind}
use mbed_littlefs.Emubd.{
  Stats, EmuConfig, Emu, Saved, missing, blank, saved, HostDir, EmuDev, Errno, Faults, failing,
  attempt, emubd_tole32, emubd_fromle32,
}

abbrev pub set_config : Saved EmuConfig → HostDir → HostDir
set_config file dir = record dir { config_file = file }

abbrev pub set_stats : Saved Stats → HostDir → HostDir
set_stats file dir = record dir { stats_file = file }

abbrev pub set_history : Saved (List ℕ) → HostDir → HostDir
set_history file dir = record dir { history_file = file }

abbrev pub zero_stats : Stats
zero_stats = record { read_count = 0; prog_count = 0; erase_count = 0 }

module _ (cfg : Config) (host : ByteOrder) (n : Errno) (faults : Faults) where
  open faults use {fails}

  -- `fwrite` between the conversions of the state; a failing one leaves the file without contents.
  abbrev pub write_saved :
      {A : Type 0}
      → (Saved A → HostDir → HostDir)
      → (Emu → A)
      → Option ℕ
      → EmuDev
      → Outcome (Unit {0}) × EmuDev
  write_saved set field fault s =
      let le = emubd_tole32 host s.emu in
      let s' = record s { emu = emubd_fromle32 host le } in
      elim fault [
        | none ↦ (ok tt, record s' { dir = set (saved (field le)) s'.dir })
        | some e ↦ failing e s'
      ]

  -- One file of `lfs2_emubd_sync`; `k` counts the calls before it.
  unfoldable pub sync_file :
      {A : Type 0}
      → ℕ
      → (Saved A → HostDir → HostDir)
      → (Emu → A)
      → EmuDev
      → Outcome (Unit {0}) × EmuDev
  sync_file k set field s = bind (attempt (fails k) s) (λ _ s1.
      bind (write_saved set field (fails (k + 1)) (record s1 { dir = set blank s1.dir }))
        (λ _ s2. attempt (fails (k + 2)) s2))

  unfoldable pub emubd_sync : EmuDev → Outcome (Unit {0}) × EmuDev
  emubd_sync s = bind (sync_file 0 set_config (λ emu. emu.cfg) s) (λ _ s1.
      bind (sync_file 3 set_stats (λ emu. emu.stats) s1)
        (λ _ s2. sync_file 6 set_history (λ emu. emu.history) s2))

  -- The result of the sync is dropped.
  abbrev pub emubd_destroy : EmuDev → EmuDev
  emubd_destroy s = (emubd_sync s).1

  abbrev pub convert : EmuDev → EmuDev
  convert s = record s { emu = emubd_fromle32 host s.emu }

  -- `return -errno`, which is a success where `errno` is 0.
  abbrev pub return_errno : ℕ → EmuDev → Outcome (Unit {0}) × EmuDev
  return_errno e s = if e == 0 then (ok tt, s) else failing e s

  abbrev pub or_stale : Option ℕ → ℕ
  or_stale none = faults.stale
  or_stale (some e) = e

  -- One file of `lfs2_emubd_create`, where `set` is the read of it into the state, `absent` what is
  -- done where it cannot be opened, and `next` the rest.
  abbrev pub load_file :
      {A : Type 0}
      → ℕ
      → Saved A
      → (A → EmuDev → EmuDev)
      → (EmuDev → EmuDev)
      → (EmuDev → Outcome (Unit {0}) × EmuDev)
      → EmuDev
      → Outcome (Unit {0}) × EmuDev
  load_file k missing set absent next s = next (absent s)
  load_file k blank set absent next s = elim (fails k) [
    | some e ↦ next (absent s)
    | none ↦ return_errno (or_stale (fails (k + 1))) (convert s)
  ]
  load_file k (saved a) set absent next s = elim (fails k) [
    | some e ↦ next (absent s)
    | none ↦ elim (fails (k + 1)) [
      | some e ↦ return_errno e (convert s)
      | none ↦ bind (attempt (fails (k + 2)) (convert (set a s))) (λ _ s'. next s')
    ]
  ]

  abbrev pub put_stats : Stats → EmuDev → EmuDev
  put_stats stats s = record s { emu = record (s.emu) { stats = stats } }

  abbrev pub put_history : List ℕ → EmuDev → EmuDev
  put_history history s = record s { emu = record (s.emu) { history = history } }

  abbrev pub put_config : EmuDev → EmuDev
  put_config s = record s {
    emu = record (s.emu) {
      cfg = record {
        read_size = cfg.read_size;
        prog_size = cfg.prog_size;
        block_size = cfg.block_size;
        block_count = cfg.block_count;
      };
    };
  }

  -- After the directory is there: the counts, then the history.
  unfoldable pub load_files : EmuDev → Outcome (Unit {0}) × EmuDev
  load_files s =
      load_file 2 s.dir.stats_file put_stats (put_stats zero_stats)
        (λ s1.
          load_file 5 s1.dir.history_file put_history (put_history (replicate 4 0))
            (λ s2. (ok tt, s2)) s1)
        s

  -- `malloc` is the call 0 and `mkdir` the call 1.
  unfoldable pub emubd_create : EmuDev → Outcome (Unit {0}) × EmuDev
  emubd_create s =
      let s' = put_config s in
      elim (fails 0) [
        | some e ↦ failing n.enomem s'
        | none ↦ elim (fails 1) [
          | none ↦ load_files s'
          | some e ↦ if e == n.eexist then load_files s' else failing e s'
        ]
      ]
