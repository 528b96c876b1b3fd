-- ===== src/Mount/Format.antt =====
-- `lfs2_format` of littlefs/lfs2.c, and the superblock that it writes.
use mbed_littlefs.Base.{
  ℕ, ◌*◌, ◌/◌, ◌^◌, ◌<◌, ◌≡◌, ◌⊎◌, inl, inr, refl, arith, min, false, ◌&&◌, ◌==◌, ltb, Bool-cases,
  replicate, Outcome, ok, err, abort, out_of_fuel,
}
use mbed_littlefs.Util.{ByteOrder}
use mbed_littlefs.Tag.{Pair}
use mbed_littlefs.Device.{Config, Cache}
use mbed_littlefs.Alloc.{Free, alloc_ack}
use mbed_littlefs.Store.{bind}
use mbed_littlefs.Dir.{Mdir}
use mbed_littlefs.Disk.{
  Superblock, AreWords, superblock_fromle32, superblock_tole32,
  superblock_fromle32-superblock_tole32,
}
use mbed_littlefs.Mount.{
  Buffers, Lfs2, Heap, Memory, deinit, init, sizes_ok, lookahead_ok, limits_ok,
}
use mbed_littlefs.Mount.Requests.{IsHeap, SameBlocks}
use mbed_littlefs.Mount.Init.{InitEnds, init-deinit}
use mbed_littlefs.Mount.Scan.{Volume, limit, version_ok, check_superblock}
use mbed_littlefs.Mount.Check.{AreLimits}

-- The parts of a volume that a write to metadata changes.
pub record Medium (D : Type 0) : Type 0 where
  pub dev : D
  pub rcache : Cache
  pub pcache : Cache
  pub free : Free
  pub seed : ℕ

-- What a format calls: `lfs2_dir_alloc`, `lfs2_dir_commit` of the superblock's entry to the new pair,
-- and `lfs2_dir_fetch`. Each may also fail an assertion, or not end.
pub record Writer (D : Type 0) : Type 0 where
  pub dir_alloc : Medium D → Outcome Mdir × Medium D
  pub commit_superblock : Mdir → Superblock → Medium D → Outcome Mdir × Medium D
  pub dir_fetch : Pair → Medium D → Outcome Mdir × Medium D

-- A call on these parts.
abbrev pub onto :
    {D A : Type 0} → (Medium D → Outcome A × Medium D) → Volume D → Outcome A × Volume D
onto call v =
    let (out, m) = call (record {
      dev = v.dev;
      rcache = v.lfs2.rcache;
      pcache = v.lfs2.pcache;
      free = v.lfs2.free;
      seed = v.lfs2.seed;
    }) in
    (
      out,
      record v {
        dev = m.dev;
        lfs2 = record (v.lfs2) {
          rcache = m.rcache;
          pcache = m.pcache;
          free = m.free;
          seed = m.seed;
        };
      },
    )

-- The superblock of a new file system, of disk version 2.0.
unfoldable pub new_superblock : Config → Lfs2 → Superblock
new_superblock cfg lfs2 = record {
  version = 0x00020000;
  block_size = cfg.block_size;
  block_count = cfg.block_count;
  name_max = lfs2.name_max;
  file_max = lfs2.file_max;
  attr_max = lfs2.attr_max;
}

-- The lookahead of a format: no block is marked.
unfoldable pub format_free : Config → Free → Free
format_free cfg free = alloc_ack cfg (record free {
  buffer = replicate (cfg.lookahead_size / 4) 0;
  off = 0;
  size = min (8 * cfg.lookahead_size) cfg.block_count;
  i = 0;
})

module _ (cfg : Config) (buffers : Buffers) (host : ByteOrder) {D : Type 0}
    (writer : Writer D) where
  -- From the allocation of the root on.
  unfoldable pub write_root : Volume D → Outcome (Unit {0}) × Volume D
  write_root v = bind (onto writer.dir_alloc v) (λ root v1.
      bind
        (onto (writer.commit_superblock root (superblock_tole32 host (new_superblock cfg v1.lfs2)))
          v1)
        (λ _ v2. bind (onto (writer.dir_fetch (0, 1)) v2) (λ _ v3. (ok tt, v3))))

  -- After `lfs2_init`; the cleanup follows on every way out.
  unfoldable pub format_volume : Volume D → Outcome (Unit {0}) × Volume D
  format_volume v =
      let (out, v') =
        write_root (record v { lfs2 = record (v.lfs2) { free = format_free cfg v.lfs2.free } }) in
      (out, record v' { heap = deinit buffers v'.lfs2 v'.heap })

  abbrev pub init_volume : Volume D → Outcome (Unit {0}) × Volume D
  init_volume v =
      let (out, (lfs2', heap')) = init cfg buffers (v.lfs2, v.heap) in
      (out, record v { lfs2 = lfs2'; heap = heap' })

  unfoldable pub format : Volume D → Outcome (Unit {0}) × Volume D
  format v = bind (init_volume v) (λ _ v1. format_volume v1)

  -- The two volumes have the same heap and the same buffers.
  record Same (v v' : Volume D) : Type 0 where
    heap : v'.heap ≡ v.heap
    rcache_at : v'.lfs2.rcache_at ≡ v.lfs2.rcache_at
    pcache_at : v'.lfs2.pcache_at ≡ v.lfs2.pcache_at
    free_at : v'.lfs2.free_at ≡ v.lfs2.free_at

  -- One of the three calls has come to this end.
  abbrev pub Gives : Outcome Mdir → Type 0
  Gives out =
      ((m : Medium D) × ((writer.dir_alloc m).0 ≡ out))
      ⊎ (((dir : Mdir) × (s : Superblock) × (m : Medium D) × ((writer.commit_superblock dir s m).0
              ≡ out))
          ⊎ ((pair : Pair) × (m : Medium D) × ((writer.dir_fetch pair m).0 ≡ out)))

  abbrev Keeps : {A : Type 0} → Volume D → Outcome A × Volume D → Type 0
  Keeps v (ok a, v') = Same v v'
  Keeps v (err e, v') = Same v v'
  Keeps v (abort, v') = Gives abort
  Keeps v (out_of_fuel, v') = Gives out_of_fuel

  result_lem :
      (v0 v : Volume D) (out : Outcome Mdir) (m : Medium D)
      → (out ≡ abort → Gives abort)
      → (out ≡ out_of_fuel → Gives out_of_fuel)
      → Same v0 v
      → Keeps v0 (onto (λ _. (out, m)) v)
  result_lem v0 v (ok a) m stops loops same = record {
    heap = same.heap;
    rcache_at = same.rcache_at;
    pcache_at = same.pcache_at;
    free_at = same.free_at;
  }
  result_lem v0 v (err e) m stops loops same = record {
    heap = same.heap;
    rcache_at = same.rcache_at;
    pcache_at = same.pcache_at;
    free_at = same.free_at;
  }
  result_lem v0 v abort m stops loops same = stops refl
  result_lem v0 v out_of_fuel m stops loops same = loops refl

  -- The parts that a call works on.
  abbrev medium : Volume D → Medium D
  medium v = record {
    dev = v.dev;
    rcache = v.lfs2.rcache;
    pcache = v.lfs2.pcache;
    free = v.lfs2.free;
    seed = v.lfs2.seed;
  }

  onto_lem :
      (v0 v : Volume D) (call : Medium D → Outcome Mdir × Medium D)
      → ((out : Outcome Mdir) → (call (medium v)).0 ≡ out → Gives out)
      → Same v0 v
      → Keeps v0 (onto call v)
  onto_lem v0 v call gives same =
      let (out, m) = call (medium v) in
      result_lem v0 v out m (λ e. gives abort e) (λ e. gives out_of_fuel e) same

  bind_lem :
      {A B : Type 0} (v : Volume D) (out : Outcome A × Volume D)
      (next : A → Volume D → Outcome B × Volume D)
      → Keeps v out
      → ((a : A) (v' : Volume D) → Same v v' → Keeps v (next a v'))
      → Keeps v (bind out next)
  bind_lem v (ok a, v') next same step = step a v' same
  bind_lem v (err e, v') next same step = same
  bind_lem v (abort, v') next h step = h
  bind_lem v (out_of_fuel, v') next h step = h

  write_root-Keeps : (v0 v : Volume D) → Same v0 v → Keeps v0 (write_root v)
  unfolding write_root
  write_root-Keeps v0 v same =
      let done : Volume D → Outcome (Unit {0}) × Volume D = λ v3. (ok tt, v3) in
      let checked : Volume D → Outcome (Unit {0}) × Volume D =
        λ v2. bind (onto (writer.dir_fetch (0, 1)) v2) (λ _ v3. done v3) in
      let commit : Mdir → Volume D → Outcome Mdir × Volume D = λ root v1.
        onto (writer.commit_superblock root (superblock_tole32 host (new_superblock cfg v1.lfs2)))
          v1 in
      bind_lem {A = Mdir} {B = Unit {0}} v0 (onto writer.dir_alloc v)
        (λ root v1. bind (commit root v1) (λ _ v2. checked v2))
        (onto_lem v0 v writer.dir_alloc (λ out e. inl (medium v, e)) same)
        (λ root v1 same1.
          let written = superblock_tole32 host (new_superblock cfg v1.lfs2) in
          bind_lem {A = Mdir} {B = Unit {0}} v0 (commit root v1) (λ _ v2. checked v2)
            (onto_lem v0 v1 (writer.commit_superblock root written)
              (λ out e. inr (inl (root, written, medium v1, e))) same1)
            (λ _ v2 same2.
              bind_lem {A = Mdir} {B = Unit {0}} v0 (onto (writer.dir_fetch (0, 1)) v2)
                (λ _ v3. done v3)
                (onto_lem v0 v2 (writer.dir_fetch (0, 1))
                  (λ out e. inr (inr ((0, 1), medium v2, e))) same2)
                (λ _ v3 same3. same3)))

  -- A format ends with the blocks of `h0`. It stops at an assertion only where the configuration does
  -- not meet one or a call that writes the metadata stops at one, and it does not end only where such a
  -- call does not.
  abbrev pub FormatEnds : Heap → Outcome (Unit {0}) × Volume D → Type 0
  FormatEnds h0 (ok _, v) = SameBlocks h0 v.heap
  FormatEnds h0 (err e, v) = SameBlocks h0 v.heap
  FormatEnds h0 (abort, v) =
      ((sizes_ok cfg && (lookahead_ok cfg && limits_ok cfg)) ≡ false) ⊎ Gives abort
  FormatEnds h0 (out_of_fuel, v) = Gives out_of_fuel

module _ (cfg : Config) (buffers : Buffers) (host : ByteOrder) {D : Type 0}
    (writer : Writer D) where
  abbrev Result : Type 0
  Result = Outcome (Unit {0}) × Volume D

  cleanup_lem :
      (h0 : Heap) (v : Volume D) (out : Result)
      → Keeps cfg buffers host writer v out
      → SameBlocks h0 (deinit buffers v.lfs2 v.heap)
      → FormatEnds cfg buffers host writer h0
          (out.0, record (out.1) { heap = deinit buffers out.1.lfs2 out.1.heap })
  unfolding deinit
  cleanup_lem h0 v (ok a, v') same blocks =
      rw (same.heap, same.rcache_at, same.pcache_at, same.free_at) blocks
  cleanup_lem h0 v (err e, v') same blocks =
      rw (same.heap, same.rcache_at, same.pcache_at, same.free_at) blocks
  cleanup_lem h0 v (abort, v') h blocks = inr h
  cleanup_lem h0 v (out_of_fuel, v') h blocks = h

  init_next :
      (h0 : Heap) (dev : D) (out : Outcome (Unit {0}) × Memory)
      → InitEnds cfg buffers h0 out
      → FormatEnds cfg buffers host writer h0 (
          bind
            (out.0, record { lfs2 = out.1.0; heap = out.1.1; dev = dev })
            (λ _ v1. format_volume cfg buffers host writer v1))
  unfolding format_volume
  init_next h0 dev (ok _, (lfs2, h)) (blocks, name, file, attr, pending) =
      cleanup_lem h0 (record { lfs2 = lfs2; heap = h; dev = dev }) _
        (write_root-Keeps cfg buffers host writer _ _
          (record { heap = refl; rcache_at = refl; pcache_at = refl; free_at = refl }))
        blocks
  init_next h0 dev (err e, (lfs2, h)) (same, blocks) = blocks
  init_next h0 dev (abort, s) h = inl h
  init_next h0 dev (out_of_fuel, s) h = absurd h

  -- `lfs2_format` of a `lfs2_t` whose program cache and lookahead have no buffer, when it returns, leaves
  -- the heap as before, whatever the calls that write the metadata return. An assertion fails only where
  -- the configuration does not meet it or inside one of these calls, and it returns unless one of them
  -- does not.
  pub format_lem :
      (v : Volume D)
      → IsHeap v.heap
      → v.lfs2.pcache_at ≡ 0
      → v.lfs2.free_at ≡ 0
      → FormatEnds cfg buffers host writer v.heap (format cfg buffers host writer v)
  unfolding format
  format_lem v heap e2 e3 =
      init_next v.heap v.dev (init cfg buffers (v.lfs2, v.heap))
        (init-deinit cfg buffers v.lfs2 v.heap heap e2 e3)

limit_self : (n : ℕ) → limit n n ≡ ok n
unfolding limit
limit_self n = elim (Bool-cases (n == 0)) [
  | inl e ↦ rw e refl
  | inr e ↦ let within : ltb n n ≡ false = ground arith in rw (e, within) refl
]

-- A superblock as a format writes it, read back on a machine of any byte order, passes the checks of a
-- mount with the same limits, which then are the ones of the superblock.
pub check_superblock-new_superblock :
    (cfg : Config) (host : ByteOrder) (lfs2 : Lfs2)
    → cfg.block_size < 2 ^ 32
    → cfg.block_count < 2 ^ 32
    → AreLimits lfs2
    → check_superblock
        (superblock_fromle32 host (superblock_tole32 host (new_superblock cfg lfs2)))
        lfs2
      ≡ (ok tt, lfs2)
unfolding check_superblock new_superblock version_ok
check_superblock-new_superblock cfg host lfs2 small_size small_count limits =
    let words : AreWords (new_superblock cfg lfs2) = record {
      version_word = omega arith;
      block_size_word = small_size;
      block_count_word = small_count;
      name_max_word = omega (arith, limits.name_max);
      file_max_word = omega (arith, limits.file_max);
      attr_max_word = omega (arith, limits.attr_max);
    } in
    let read_back = superblock_fromle32-superblock_tole32 host (new_superblock cfg lfs2) words in
    rw (read_back, limit_self lfs2.name_max, limit_self lfs2.file_max, limit_self lfs2.attr_max)
      refl
