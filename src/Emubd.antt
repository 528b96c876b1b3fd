-- ===== src/Emubd.antt =====
-- littlefs/emubd/lfs2_emubd.c: the block device that is emulated on files of a host, a file for a block.
pub mod Restore
pub mod Content
pub mod Sync
use mbed_littlefs.Base.{
  ℕ, zero, suc, ◌+◌, ◌-◌, ◌%◌, ◌^◌, Bool, true, false, not, ◌&&◌, ◌||◌, ltb, ◌==◌, if◌then◌else◌,
  List, [], ◌∷◌, ◌++◌, map, Option, none, some, ◌⊎◌, inl, inr, length, take, drop, get_or,
  replicate, Outcome, ok, err, abort,
}
use mbed_littlefs.Util.{ByteOrder, fromle32, tole32}
use mbed_littlefs.Device.{Config, codes, error_in}
use mbed_littlefs.Bd.{overwrite}
use mbed_littlefs.Store.{bind}

-- `stats`, three numbers of 64 bits.
pub record Stats : Type 0 where
  pub read_count : ℕ
  pub prog_count : ℕ
  pub erase_count : ℕ

-- `cfg`.
pub record EmuConfig : Type 0 where
  pub read_size : ℕ
  pub prog_size : ℕ
  pub block_size : ℕ
  pub block_count : ℕ

-- `lfs2_emubd_t`, without the path; the history has four blocks.
pub record Emu : Type 0 where
  pub stats : Stats
  pub history : List ℕ
  pub cfg : EmuConfig

-- A file for a block.
pub record HostFile : Type 0 where
  pub bytes : List ℕ
  pub regular : Bool
  pub writable : Bool

-- A file that `lfs2_emubd_sync` writes: missing, created without its contents, or with them.
pub data Saved (A : Type 0) : Type 0 where
  missing : Saved A
  blank : Saved A
  saved : A → Saved A

-- The directory of the device on the host.
pub record HostDir : Type 0 where
  pub blocks : ℕ → Option HostFile
  pub config_file : Saved EmuConfig
  pub stats_file : Saved Stats
  pub history_file : Saved (List ℕ)

pub record EmuDev : Type 0 where
  pub emu : Emu
  pub dir : HostDir

-- The error numbers that the code compares with.
pub record Errno : Type 0 where
  pub enoent : ℕ
  pub eacces : ℕ
  pub eexist : ℕ
  pub enomem : ℕ

-- Which calls of the C library fail in an operation, counted from 0, with the error number; how many
-- bytes a failing `fwrite` has written; and `errno` before the operation.
pub record Faults : Type 0 where
  pub fails : ℕ → Option ℕ
  pub partial : ℕ
  pub stale : ℕ

-- `return -errno`.
abbrev pub failing : {A : Type 0} → ℕ → EmuDev → Outcome A × EmuDev
failing e s = (err (error_in codes e), s)

-- A call that fails or has no effect.
abbrev pub attempt : Option ℕ → EmuDev → Outcome (Unit {0}) × EmuDev
attempt none s = (ok tt, s)
attempt (some e) s = failing e s

-- `lfs2_tole32` and `lfs2_fromle32` take and give 32 bits.
unfoldable pub emubd_tole32 : ByteOrder → Emu → Emu
emubd_tole32 host emu = record {
  cfg = record {
    read_size = tole32 host emu.cfg.read_size;
    prog_size = tole32 host emu.cfg.prog_size;
    block_size = tole32 host emu.cfg.block_size;
    block_count = tole32 host emu.cfg.block_count;
  };
  stats = record {
    read_count = tole32 host (emu.stats.read_count % 2 ^ 32);
    prog_count = tole32 host (emu.stats.prog_count % 2 ^ 32);
    erase_count = tole32 host (emu.stats.erase_count % 2 ^ 32);
  };
  history = map (tole32 host) emu.history;
}

unfoldable pub emubd_fromle32 : ByteOrder → Emu → Emu
emubd_fromle32 host emu = record {
  cfg = record {
    read_size = fromle32 host emu.cfg.read_size;
    prog_size = fromle32 host emu.cfg.prog_size;
    block_size = fromle32 host emu.cfg.block_size;
    block_count = fromle32 host emu.cfg.block_count;
  };
  stats = record {
    read_count = fromle32 host (emu.stats.read_count % 2 ^ 32);
    prog_count = fromle32 host (emu.stats.prog_count % 2 ^ 32);
    erase_count = fromle32 host (emu.stats.erase_count % 2 ^ 32);
  };
  history = map (fromle32 host) emu.history;
}

-- `fopen` to read: the error number or the file.
abbrev pub open_read : Errno → Option ℕ → Option HostFile → ℕ ⊎ HostFile
open_read n (some e) file = inl e
open_read n none none = inl n.enoent
open_read n none (some file) = inr file

-- `fopen` to read and write.
abbrev pub open_update : Errno → Option ℕ → Option HostFile → ℕ ⊎ HostFile
open_update n (some e) file = inl e
open_update n none none = inl n.enoent
open_update n none (some file) = if file.writable then inr file else inl n.eacces

-- The file of a block is `file` from now on.
abbrev pub put : ℕ → Option HostFile → EmuDev → EmuDev
put block file s = record s {
  dir = record (s.dir) { blocks = λ b. if b == block then file else s.dir.blocks b };
}

-- `fwrite` at `off`: a gap before it reads as zeros.
abbrev pub write_at : List ℕ → ℕ → List ℕ → List ℕ
write_at bytes off data' =
    overwrite (bytes ++ replicate (off + length data' - length bytes) 0) off data'

-- A count of 64 bits.
abbrev pub count : ℕ → ℕ
count n = (n + 1) % 2 ^ 64

module _ (cfg : Config) (n : Errno) (faults : Faults) where
  open faults use {fails}

  abbrev pub count_read : EmuDev → EmuDev
  count_read s = record s {
    emu = record (s.emu) {
      stats = record (s.emu.stats) { read_count = count s.emu.stats.read_count };
    };
  }

  -- From `fseek` on; a read past the end of the file leaves zeros.
  unfoldable pub read_file : HostFile → ℕ → ℕ → EmuDev → Outcome (List ℕ) × EmuDev
  read_file file off size s = bind (attempt (fails 1) s) (λ _ s1.
      bind (attempt (fails 2) s1) (λ _ s2. bind (attempt (fails 3) s2) (λ _ s3.
        (ok (overwrite (replicate size 0) 0 (take size (drop off file.bytes))), count_read s3))))

  unfoldable pub emubd_read : ℕ → ℕ → ℕ → EmuDev → Outcome (List ℕ) × EmuDev
  emubd_read block off size s =
      if off % cfg.read_size == 0 && (size % cfg.read_size == 0 && ltb block cfg.block_count)
      then elim (open_read n (fails 0) (s.dir.blocks block)) [
        | inl e ↦ if e == n.enoent then (ok (replicate size 0), count_read s) else failing e s
        | inr file ↦ read_file file off size s
      ]
      else (abort, s)

  -- `if (block != emu->history.blocks[0])`: the block comes first in the history, and the last leaves.
  abbrev pub push : ℕ → List ℕ → List ℕ
  push block history = if not (block == get_or history 0 0) then block ∷ take 3 history else history

  abbrev pub count_prog : ℕ → EmuDev → EmuDev
  count_prog block s = record s {
    emu = record (s.emu) {
      history = push block s.emu.history;
      stats = record (s.emu.stats) { prog_count = count s.emu.stats.prog_count };
    };
  }

  -- `fwrite` of the data; a failing one has written a part.
  abbrev pub write_data :
      ℕ → HostFile → ℕ → List ℕ → Option ℕ → EmuDev → Outcome (Unit {0}) × EmuDev
  write_data block file off bytes none s =
      (ok tt, put block (some (record file { bytes = write_at file.bytes off bytes })) s)
  write_data block file off bytes (some e) s = failing e (
      put block (some (record file { bytes = write_at file.bytes off (take faults.partial bytes) }))
        s)

  -- `fread` of one byte at `off`, which at the end of the file gives none and leaves `errno` as it was.
  abbrev pub read_back : ℕ → ℕ → Option ℕ → EmuDev → Outcome Bool × EmuDev
  read_back off size none s =
      if ltb off size
      then (ok true, s)
      else if faults.stale == 0
      then (ok false, s)
      else failing faults.stale s
  read_back off size (some e) s = failing e s

  -- From `fseek` on. Where the byte is not read and `errno` is 0, the code returns 0 at once.
  unfoldable pub prog_file : ℕ → HostFile → ℕ → List ℕ → EmuDev → Outcome (Unit {0}) × EmuDev
  prog_file block file off bytes s = bind (attempt (fails 1) s) (λ _ s1.
      bind (write_data block file off bytes (fails 2) s1) (λ _ s2.
        bind (attempt (fails 3) s2) (λ _ s3.
          bind (read_back off (length (write_at file.bytes off bytes)) (fails 4) s3) (λ read s4.
            if read
            then bind (attempt (fails 5) s4) (λ _ s5. (ok tt, count_prog block s5))
            else (ok tt, s4)))))

  unfoldable pub emubd_prog : ℕ → ℕ → List ℕ → EmuDev → Outcome (Unit {0}) × EmuDev
  emubd_prog block off bytes s =
      if off % cfg.prog_size == 0
        && (length bytes % cfg.prog_size == 0 && ltb block cfg.block_count)
      then elim (open_update n (fails 0) (s.dir.blocks block)) [
        | inl e ↦ if e == n.eacces then (ok tt, s) else failing e s
        | inr file ↦ prog_file block file off bytes s
      ]
      else (abort, s)

  -- `stat`: the error number or the file.
  abbrev pub stat_file : Option ℕ → Option HostFile → ℕ ⊎ HostFile
  stat_file fault file = open_read n fault file

  abbrev pub count_erase : EmuDev → EmuDev
  count_erase s = record s {
    emu = record (s.emu) {
      stats = record (s.emu.stats) { erase_count = count s.emu.stats.erase_count };
    };
  }

  -- The file that `fopen(path, "w")` creates.
  abbrev pub fresh_file : HostFile
  fresh_file = record { bytes = []; regular = true; writable = true }

  -- `fopen`, `fclose` and the count.
  unfoldable pub create_file : ℕ → EmuDev → Outcome (Unit {0}) × EmuDev
  create_file block s = bind (attempt (fails 2) s) (λ _ s1.
      bind (attempt (fails 3) (put block (some fresh_file) s1)) (λ _ s2. (ok tt, count_erase s2)))

  unfoldable pub emubd_erase : ℕ → EmuDev → Outcome (Unit {0}) × EmuDev
  emubd_erase block s =
      if ltb block cfg.block_count
      then elim (stat_file (fails 0) (s.dir.blocks block)) [
        | inl e ↦ if e == n.enoent then create_file block s else failing e s
        | inr file ↦
            if file.regular && file.writable
            then bind (attempt (fails 1) s) (λ _ s1. create_file block (put block none s1))
            else (ok tt, count_erase s)
      ]
      else (abort, s)
