-- ===== src/Mbed/FileSystem.antt =====
-- The class LittleFileSystem2 of LittleFileSystem2.cpp: mounting, and the operations on names.
use mbed_littlefs.Base.{
  ℕ, zero, suc, ◌+◌, ◌-◌, ◌*◌, ◌/◌, if◌then◌else◌, min, max, List, [], Option, none, some, Bool,
  true, false, u32, sub32, ℤ, pos, negsuc,
}
use mbed_littlefs.Device.{Config}
use mbed_littlefs.Mbed.Convert.{Platform, negate, toerror, tomode}

-- `struct lfs2_info`; the name is the bytes before the final 0.
pub record FileInfo : Type 0 where
  pub kind : ℕ
  pub size : ℕ
  pub name : List ℕ

-- What the class calls: the functions of lfs2.h on its `lfs2_t` and on the open files and
-- directories, which are named by their addresses, and the block devices of mbed-os, named by their
-- addresses too. `Memory` is all that these read and change.
pub record Core : Type 1 where
  pub Memory : Type 0
  pub bd_init : ℕ → Memory → ℤ × Memory
  pub bd_deinit : ℕ → Memory → ℤ × Memory
  pub get_read_size : ℕ → Memory → ℕ
  pub get_program_size : ℕ → Memory → ℕ
  pub get_erase_size : ℕ → Memory → ℕ
  pub bd_size : ℕ → Memory → ℕ
  pub mount : ℕ → Config → Memory → ℤ × Memory
  pub unmount : Memory → ℤ × Memory
  pub format : ℕ → Config → Memory → ℤ × Memory
  pub remove : List ℕ → Memory → ℤ × Memory
  pub rename : List ℕ → List ℕ → Memory → ℤ × Memory
  pub mkdir : List ℕ → Memory → ℤ × Memory
  pub stat : List ℕ → Memory → (ℤ × FileInfo) × Memory
  pub fs_size : Memory → ℤ × Memory
  pub file_open : ℕ → List ℕ → ℕ → Memory → ℤ × Memory
  pub file_close : ℕ → Memory → ℤ × Memory
  pub file_read : ℕ → ℕ → Memory → (ℤ × List ℕ) × Memory
  pub file_write : ℕ → List ℕ → Memory → ℤ × Memory
  pub file_sync : ℕ → Memory → ℤ × Memory
  pub file_seek : ℕ → ℤ → ℕ → Memory → ℤ × Memory
  pub file_tell : ℕ → Memory → ℤ × Memory
  pub file_size : ℕ → Memory → ℤ × Memory
  pub file_truncate : ℕ → ℤ → Memory → ℤ × Memory
  pub dir_open : ℕ → List ℕ → Memory → ℤ × Memory
  pub dir_close : ℕ → Memory → ℤ × Memory
  pub dir_read : ℕ → Memory → (ℤ × FileInfo) × Memory
  pub dir_seek : ℕ → ℤ → Memory → ℤ × Memory
  pub dir_tell : ℕ → Memory → ℤ × Memory
  pub dir_rewind : ℕ → Memory → ℤ × Memory

-- The fields of the class; `locks` counts how often the recursive `_mutex` is held, and `live` are
-- the addresses of the file and directory objects that `new` has given and `delete` not taken.
pub record Fs (M : Type 0) : Type 0 where
  pub memory : M
  pub config : Config
  pub bd : Option ℕ
  pub locks : ℕ
  pub live : List ℕ
  pub fresh : ℕ

-- The number is 0.
abbrev pub is_zero : ℤ → Bool
is_zero (pos zero) = true
is_zero (pos (suc n)) = false
is_zero (negsuc n) = false

-- The configuration that `mount` and `format` derive from the sizes of a device; `sizes` are its
-- sizes of a read, a program and an erase, and the whole.
unfoldable pub configure : Config → ℕ → ℕ → ℕ → ℕ → Config
configure cfg read program erase size =
    let block_size = max cfg.block_size (u32 erase) in
    let block_count = u32 (size / block_size) in
    record cfg {
      read_size = u32 read;
      prog_size = u32 program;
      block_size = block_size;
      block_count = block_count;
      cache_size = max cfg.cache_size (u32 program);
      lookahead_size = min cfg.lookahead_size (u32 (8 * (u32 (block_count + 63) / 64)));
    }

-- The constructor's configuration before the mount: zero but for four numbers.
abbrev pub defaults : ℕ → ℕ → ℕ → ℕ → Config
defaults block_size block_cycles cache_size lookahead_size = record {
  read_size = 0;
  prog_size = 0;
  block_size = block_size;
  block_count = 0;
  block_cycles = block_cycles;
  cache_size = cache_size;
  lookahead_size = lookahead_size;
  name_max = 0;
  file_max = 0;
  attr_max = 0;
}

-- `struct statvfs`, by the fields that are set; all are 0 first.
pub record Statvfs : Type 0 where
  pub bsize : ℕ
  pub frsize : ℕ
  pub blocks : ℕ
  pub bfree : ℕ
  pub bavail : ℕ
  pub namemax : ℕ

module _ (core : Core) (p : Platform) where
  open core use {Memory}

  abbrev pub State : Type 0
  State = Fs Memory

  abbrev pub lock : State → State
  lock s = record s { locks = s.locks + 1 }

  abbrev pub unlock : State → State
  unlock s = record s { locks = s.locks - 1 }

  -- A call on the memory.
  abbrev pub call : {A : Type 0} → (Memory → A × Memory) → State → A × State
  call f s = let (a, m) = f s.memory in (a, record s { memory = m })

  -- A call between `_mutex.lock()` and `_mutex.unlock()`.
  unfoldable pub locked : {A : Type 0} → (Memory → A × Memory) → State → A × State
  locked f s = let (a, s') = call f (lock s) in (a, unlock s')

  abbrev pub derived : ℕ → Config → Memory → Config
  derived bd cfg m =
      configure cfg (core.get_read_size bd m) (core.get_program_size bd m)
        (core.get_erase_size bd m) (core.bd_size bd m)

  -- After `lfs2_mount`.
  abbrev pub mount_done : ℤ → State → ℤ × State
  mount_done err s =
      if is_zero err then (pos 0, unlock s) else (toerror p err, unlock (record s { bd = none }))

  -- After `init` of the device.
  unfoldable pub mount_next : ℕ → ℤ → State → ℤ × State
  mount_next bd err s =
      if is_zero err
      then (let cfg = derived bd s.config s.memory in
          let (res, s') = call (core.mount bd cfg) (record s { config = cfg }) in mount_done res s')
      else (err, unlock (record s { bd = none }))

  unfoldable pub mount : ℕ → State → ℤ × State
  mount bd s =
      let (err, s') = call (core.bd_init bd) (record (lock s) { bd = some bd }) in
      mount_next bd err s'

  -- `if (err && !res) { res = err; }`.
  abbrev pub first_error : ℤ → ℤ → ℤ
  first_error res err = if is_zero res then err else res

  -- The body of `unmount` on the device that is mounted.
  abbrev pub unmount_bd : Option ℕ → State → ℤ × State
  unmount_bd none s = (pos 0, s)
  unmount_bd (some bd) s =
      let (err, s1) = call core.unmount s in
      let (err2, s2) = call (core.bd_deinit bd) s1 in
      (first_error (if is_zero err then pos 0 else toerror p err) err2, record s2 { bd = none })

  unfoldable pub unmount : State → ℤ × State
  unmount s = let (res, s') = unmount_bd s.bd (lock s) in (res, unlock s')

  -- The constructor, without the name. Where it mounts no device, `_bd` stays what it was, `junk`.
  abbrev pub construct : Option ℕ → Option ℕ → ℕ → ℕ → ℕ → ℕ → Memory → ℕ → State
  construct junk given block_size block_cycles cache_size lookahead_size m fresh =
      let s : State = record {
        memory = m;
        config = defaults block_size block_cycles cache_size lookahead_size;
        bd = junk;
        locks = 0;
        live = [];
        fresh = fresh;
      } in
      elim given [ none ↦ s | some bd ↦ (mount bd s).1 ]

  -- The destructor drops the result.
  abbrev pub destruct : State → State
  destruct s = (unmount s).1

  -- After `lfs2_format`.
  abbrev pub format_end : ℕ → ℤ × Memory → ℤ × Memory
  format_end bd (err, m) =
      if is_zero err
      then (let (err2, m') = core.bd_deinit bd m in (if is_zero err2 then pos 0 else err2, m'))
      else (toerror p err, m)

  -- After `init` of the device.
  abbrev pub format_next : ℕ → Config → ℤ × Memory → ℤ × Memory
  format_next bd cfg (err, m) =
      if is_zero err then format_end bd (core.format bd (derived bd cfg m) m) else (err, m)

  -- The parameters are the block size, the block cycles, the cache size and the lookahead size.
  unfoldable pub format : ℕ → ℕ → ℕ → ℕ → ℕ → Memory → ℤ × Memory
  format bd block_size block_cycles cache_size lookahead_size m =
      format_next bd (defaults block_size block_cycles cache_size lookahead_size)
        (core.bd_init bd m)

  -- After the format of `reformat`.
  abbrev pub reformat_end : ℕ → ℤ × State → ℤ × State
  reformat_end bd (err, s) =
      if is_zero err
      then (let (err2, s') = mount bd s in (if is_zero err2 then pos 0 else err2, unlock s'))
      else (err, unlock s)

  -- After the unmount of `reformat`, on the device to format.
  unfoldable pub reformat_next : Option ℕ → State → ℤ × State
  reformat_next none s = (negate p.enodev, unlock s)
  reformat_next (some bd) s =
      let cfg = s.config in
      reformat_end bd
        (call (format bd cfg.block_size cfg.block_cycles cfg.cache_size cfg.lookahead_size) s)

  -- The unmount of `reformat`, by the mounted device; `given` is the parameter.
  abbrev pub reformat_mounted : Option ℕ → Option ℕ → State → ℤ × State
  reformat_mounted given none s = reformat_next given s
  reformat_mounted given (some bd) s =
      let (err, s') = unmount s in
      if is_zero err
      then reformat_next (elim given [ none ↦ some bd | some other ↦ some other ]) s'
      else (err, unlock s')

  unfoldable pub reformat : Option ℕ → State → ℤ × State
  reformat given s = reformat_mounted given s.bd (lock s)

  -- The result of a locked call, converted.
  abbrev pub converted : (Memory → ℤ × Memory) → State → ℤ × State
  converted f s = let (err, s') = locked f s in (toerror p err, s')

  abbrev pub remove : List ℕ → State → ℤ × State
  remove filename = converted (core.remove filename)

  abbrev pub rename : List ℕ → List ℕ → State → ℤ × State
  rename oldname newname = converted (core.rename oldname newname)

  abbrev pub mkdir : List ℕ → State → ℤ × State
  mkdir name = converted (core.mkdir name)

  -- The result, `st_size` and `st_mode`, which are set from `info` whatever `lfs2_stat` returned.
  abbrev pub stat : List ℕ → State → (ℤ × ℕ × ℕ) × State
  stat name s =
      let ((err, info), s') = locked (core.stat name) s in
      ((toerror p err, info.size, tomode p info.kind), s')

  abbrev pub statvfs_next : Config → ℤ → ℤ × Option Statvfs
  statvfs_next cfg (negsuc n) = (negsuc n, none)
  statvfs_next cfg (pos in_use) = (
    pos 0,
    some (record {
      bsize = cfg.block_size;
      frsize = cfg.block_size;
      blocks = cfg.block_count;
      bfree = sub32 cfg.block_count in_use;
      bavail = sub32 cfg.block_count in_use;
      namemax = 255;
    }),
  )

  abbrev pub statvfs : State → (ℤ × Option Statvfs) × State
  statvfs s = let (in_use, s') = locked core.fs_size s in (statvfs_next s.config in_use, s')
