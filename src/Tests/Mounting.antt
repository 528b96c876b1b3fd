-- ===== src/Tests/Mounting.antt =====
-- The theorems on the life of a file system, and on the emulated block device, at concrete inputs.
use mbed_littlefs.Base.{
  ℕ, ◌+◌, ◌-◌, ◌≡◌, inl, refl, arith, true, false, ◌==◌, if◌then◌else◌, ap, ◌∙◌, sym, List, [], ◌∷◌,
  get_or, none, nomem, Outcome, ok, err, abort, out_of_fuel,
}
use mbed_littlefs.Util.{little_endian, big_endian, npw2}
use mbed_littlefs.Util.Order.{of_disk}
use mbed_littlefs.Tag.{Pair, pair_isnull}
use mbed_littlefs.Gstate.{gstate_zero}
use mbed_littlefs.Device.{Config, Cache}
use mbed_littlefs.Dir.{Mdir}
use mbed_littlefs.Disk.{superblock_fromle32, superblock_tole32}
use mbed_littlefs.Mount.{Buffers, Lfs2, Heap, init, sizes_ok}
use mbed_littlefs.Mount.Requests.{IsHeap}
use mbed_littlefs.Mount.Init.{InitEnds, init-deinit, init_frees_stale}
use mbed_littlefs.Mount.Scan.{Metadata, Volume, mount, check_superblock}
use mbed_littlefs.Mount.Check.{AreLimits}
use mbed_littlefs.Mount.Listed.{IsMetadata}
use mbed_littlefs.Mount.Ends.{MountEnds, mount_lem}
use mbed_littlefs.Mount.Format.{
  Writer, format, FormatEnds, format_lem, new_superblock, check_superblock-new_superblock,
}
use mbed_littlefs.Emubd.{Emu, EmuDev, Errno, Faults, missing, emubd_read, emubd_prog, emubd_erase}
use mbed_littlefs.Emubd.Content.{content, within, emubd_read-emubd_prog}
use mbed_littlefs.Emubd.Sync.{emubd_sync, emubd_create}
use mbed_littlefs.Emubd.Restore.{IsSmall, emubd_create-emubd_sync}
use mbed_littlefs.Tests.Ram.{small_config, empty_cache}

-- A configuration that `lfs2_init` takes.
abbrev mount_config : Config
mount_config = record small_config { lookahead_size = 8 }

abbrev no_buffers : Buffers
no_buffers = record { read_buffer = 0; prog_buffer = 0; lookahead_buffer = 0 }

-- A `lfs2_t` with zeros for addresses.
abbrev blank_lfs2 : Lfs2
blank_lfs2 = record {
  rcache = empty_cache;
  rcache_at = 0;
  pcache = empty_cache;
  pcache_at = 0;
  root = (0, 0);
  mlist = [];
  seed = 0;
  gstate = gstate_zero;
  gpending = gstate_zero;
  gdelta = gstate_zero;
  free = record { off = 0; size = 0; i = 0; ack = 0; buffer = [] };
  free_at = 0;
  name_max = 0;
  file_max = 0;
  attr_max = 0;
}

-- A heap with one block, at address 3, on which the third request is refused.
abbrev small_heap : Heap
small_heap = record { live = λ a. a == 3; fresh = 10; grants = true ∷ true ∷ false ∷ []; wild = 0 }

small_heap-IsHeap : IsHeap small_heap
small_heap-IsHeap = record { positive = omega arith; above = λ a h. ground arith }

init-deinit_example :
    InitEnds mount_config no_buffers small_heap
      (init mount_config no_buffers (blank_lfs2, small_heap))
init-deinit_example =
    init-deinit mount_config no_buffers blank_lfs2 small_heap small_heap-IsHeap refl refl

mount_config-sizes_ok : sizes_ok mount_config ≡ true
unfolding sizes_ok npw2
mount_config-sizes_ok = refl

-- The program cache's address is that of the block of someone else.
init_frees_stale_example :
    let (out, s') =
      init mount_config no_buffers
        (record blank_lfs2 { pcache_at = 3 }, record small_heap { grants = false ∷ [] }) in
    (out ≡ err nomem) × (s'.1.live 3 ≡ false)
init_frees_stale_example =
    init_frees_stale mount_config no_buffers (record blank_lfs2 { pcache_at = 3 })
      (record small_heap { grants = false ∷ [] }) [] mount_config-sizes_ok refl refl (omega arith)
      refl refl refl

abbrev root_dir : Mdir
root_dir = record {
  pair = (0, 1);
  rev = 1;
  off = 24;
  etag = 0x20100008;
  count = 1;
  erased = true;
  split = false;
  tail = (0xffffffff, 0xffffffff);
}

-- Metadata with the superblock in the one pair; the device is its length in blocks.
abbrev one_pair : Metadata ℕ
one_pair = record {
  fetchmatch = λ seed pair s. (ok (0x0ff00008, root_dir, seed + 1), s);
  superblock =
      λ own dir s. (ok (new_superblock mount_config (record blank_lfs2 { name_max = 255 })), s);
  getgstate = λ own dir g s. (ok (record g { tag = g.tag + 1 }), s);
}

-- The pair to mount first is the last.
abbrev one_rank : Pair → ℕ
one_rank pair = 0

pair_null : pair_isnull (0xffffffff, 0xffffffff) ≡ true
unfolding pair_isnull
pair_null = refl

abbrev AllFine : ℕ × Cache → Type 0
AllFine s = Unit

one_pair-IsMetadata : IsMetadata one_pair AllFine one_rank
one_pair-IsMetadata = record {
  shorter = λ seed pair s found listed good e.
      inl (ap (λ tail. pair_isnull tail) (sym (ap tail_of e)) ∙ pair_null);
  fetched = λ seed pair s found listed good e. tt;
  looked_up = λ own dir s found listed good e. tt;
  summed = λ own dir g s g' listed good e. tt;
}
  where
    tail_of : Outcome (ℕ × Mdir × ℕ) → Pair
    tail_of (ok found) = found.1.tail
    tail_of (err e) = root_dir.tail
    tail_of abort = root_dir.tail
    tail_of out_of_fuel = root_dir.tail

abbrev volume : Volume ℕ
volume = record { lfs2 = blank_lfs2; heap = record small_heap { grants = [] }; dev = 4 }

volume-IsHeap : IsHeap (record small_heap { grants = [] })
volume-IsHeap = record { positive = omega arith; above = λ a h. ground arith }

mount_lem_example :
    MountEnds mount_config no_buffers little_endian one_pair AllFine one_rank volume.heap
      one_pair-IsMetadata 2
      (mount mount_config no_buffers little_endian one_pair 2 volume)
mount_lem_example =
    mount_lem mount_config no_buffers little_endian one_pair AllFine one_rank one_pair-IsMetadata 2
      volume (omega arith) volume-IsHeap refl refl tt

-- A medium on which every write succeeds, with the device as a count of them.
abbrev willing : Writer ℕ
willing = record {
  dir_alloc = λ m. (ok root_dir, record m { dev = m.dev + 1 });
  commit_superblock = λ dir s m. (ok dir, record m { dev = m.dev + 1 });
  dir_fetch = λ pair m. (ok root_dir, m);
}

format_lem_example :
    FormatEnds mount_config no_buffers little_endian willing volume.heap
      (format mount_config no_buffers little_endian willing volume)
format_lem_example =
    format_lem mount_config no_buffers little_endian willing volume volume-IsHeap refl refl

abbrev limited : Lfs2
limited = record blank_lfs2 { name_max = 255; file_max = 2147483647; attr_max = 1022 }

limited-AreLimits : AreLimits limited
limited-AreLimits = record {
  name_max = omega arith;
  file_max = omega arith;
  attr_max = omega arith;
}

check_superblock-new_superblock_example :
    check_superblock
      (superblock_fromle32 big_endian
        (superblock_tole32 big_endian (new_superblock mount_config limited)))
      limited
    ≡ (ok tt, limited)
check_superblock-new_superblock_example =
    check_superblock-new_superblock mount_config big_endian limited (omega arith) (omega arith)
      limited-AreLimits

abbrev linux : Errno
linux = record { enoent = 2; eacces = 13; eexist = 17; enomem = 12 }

abbrev no_faults : Faults
no_faults = record { fails = λ k. none; partial = 0; stale = 0 }

abbrev used_emu : Emu
used_emu = record {
  stats = record { read_count = 5; prog_count = 3; erase_count = 0x100000001 };
  history = 2 ∷ 0 ∷ 1 ∷ 0 ∷ [];
  cfg = record { read_size = 2; prog_size = 2; block_size = 128; block_count = 4 };
}

-- The device after its creation in a new directory.
abbrev new_emudev : EmuDev
new_emudev = record {
  emu = record used_emu { stats = record { read_count = 5; prog_count = 3; erase_count = 1 } };
  dir = record {
    blocks = λ b. none;
    config_file = missing;
    stats_file = missing;
    history_file = missing;
  };
}

emubd_read-emubd_prog_example :
    let bytes : List ℕ = 7 ∷ 8 ∷ [] in
    let (out1, s1) = emubd_erase small_config linux no_faults 1 new_emudev in
    let (out2, s2) = emubd_prog small_config linux no_faults 1 4 bytes s1 in
    let (out3, s3) = emubd_read small_config linux no_faults 1 4 2 s2 in
    (out1 ≡ ok tt)
    × (out2 ≡ ok tt)
    × (out3 ≡ ok bytes)
    × ((b o : ℕ)
        → content s3.dir b o ≡ (
            if b == 1
            then if within 4 2 o then get_or bytes (o - 4) 0 else 0
            else content new_emudev.dir b o))
emubd_read-emubd_prog_example =
    emubd_read-emubd_prog small_config linux no_faults (λ k. refl) 1 4 (7 ∷ 8 ∷ []) new_emudev tt
      (omega arith) (record { off_aligned = refl; size_aligned = refl; in_device = omega arith })
      (record { off_aligned = refl; size_aligned = refl; in_device = omega arith })

new_emudev-IsSmall : IsSmall new_emudev.emu
new_emudev-IsSmall = record {
  read_count = omega arith;
  prog_count = omega arith;
  erase_count = omega arith;
  history = (omega arith, (omega arith, (omega arith, (omega arith, tt))));
  read_size = omega arith;
  prog_size = omega arith;
  block_size = omega arith;
  block_count = omega arith;
}

emubd_create-emubd_sync_example :
    let (out1, s1) = emubd_sync small_config big_endian linux no_faults new_emudev in
    let (out2, s2) =
      emubd_create small_config big_endian linux no_faults
        (record { emu = used_emu; dir = s1.dir }) in
    (out1 ≡ ok tt)
    × (s1.emu ≡ new_emudev.emu)
    × (out2 ≡ ok tt)
    × (s2.emu.history ≡ new_emudev.emu.history)
    × (s2.emu.stats.read_count ≡ of_disk big_endian 5)
    × (s2.emu.stats.prog_count ≡ of_disk big_endian 3)
    × (s2.emu.stats.erase_count ≡ of_disk big_endian 1)
emubd_create-emubd_sync_example =
    emubd_create-emubd_sync small_config big_endian linux no_faults (λ k. refl) new_emudev used_emu
      new_emudev-IsSmall
