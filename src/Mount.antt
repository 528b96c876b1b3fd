-- ===== src/Mount.antt =====
-- `lfs2_t` of littlefs/lfs2.h, with `lfs2_init` and `lfs2_deinit` of littlefs/lfs2.c.
pub mod Requests
pub mod Stages
pub mod Init
pub mod Scan
pub mod Check
pub mod Listed
pub mod Ends
pub mod Format
pub mod Pairs
use mbed_littlefs.Base.{
  ℕ, zero, suc, ◌+◌, ◌-◌, ◌*◌, ◌/◌, ◌%◌, Bool, true, false, not, ◌&&◌, ltb, leb, ◌==◌,
  if◌then◌else◌, List, [], ◌∷◌, nomem, Outcome, ok, err, abort, out_of_fuel, u32, sub32,
}
use mbed_littlefs.Util.{npw2}
use mbed_littlefs.Tag.{Pair}
use mbed_littlefs.Gstate.{Gstate, gstate_zero}
use mbed_littlefs.Device.{Config, Cache}
use mbed_littlefs.Bd.{cache_zero}
use mbed_littlefs.Alloc.{Free}
use mbed_littlefs.Store.{bind}

-- The buffers that the user may give in `struct lfs2_config`, by address, 0 for NULL.
pub record Buffers : Type 0 where
  pub read_buffer : ℕ
  pub prog_buffer : ℕ
  pub lookahead_buffer : ℕ

-- `lfs2_t`; beside a cache or the lookahead stands the address of its buffer.
pub record Lfs2 : Type 0 where
  pub rcache : Cache
  pub rcache_at : ℕ
  pub pcache : Cache
  pub pcache_at : ℕ
  pub root : Pair
  pub mlist : List ℕ
  pub seed : ℕ
  pub gstate : Gstate
  pub gpending : Gstate
  pub gdelta : Gstate
  pub free : Free
  pub free_at : ℕ
  pub name_max : ℕ
  pub file_max : ℕ
  pub attr_max : ℕ

-- The heap of the C library: the addresses that are allocated, the next one, whether the next
-- requests are granted (all are after the list), and how often an address was freed that was not
-- allocated.
pub record Heap : Type 0 where
  pub live : ℕ → Bool
  pub fresh : ℕ
  pub grants : List Bool
  pub wild : ℕ

abbrev pub give : List Bool → Heap → ℕ × Heap
give grants h = (
  h.fresh,
  record h {
    live = λ a. if a == h.fresh then true else h.live a;
    fresh = h.fresh + 1;
    grants = grants;
  },
)

abbrev pub grant : List Bool → Heap → ℕ × Heap
grant [] h = give [] h
grant (true ∷ grants) h = give grants h
grant (false ∷ grants) h = (0, record h { grants = grants })

-- `lfs2_malloc`.
unfoldable pub malloc : Heap → ℕ × Heap
malloc h = grant h.grants h

-- `lfs2_free`.
unfoldable pub release : ℕ → Heap → Heap
release p h =
    if p == 0
    then h
    else if h.live p
    then record h { live = λ a. if a == p then false else h.live a }
    else record h { wild = h.wild + 1 }

-- `if (!given) free(p)`.
abbrev pub release_own : ℕ → ℕ → Heap → Heap
release_own given p h = if given == 0 then release p h else h

-- The buffer that is given, or else a new one.
abbrev pub buffer_for : ℕ → Heap → ℕ × Heap
buffer_for given h = if given == 0 then malloc h else (given, h)

-- The state that `lfs2_init` and `lfs2_deinit` change.
abbrev pub Memory : Type 0
Memory = Lfs2 × Heap

-- `LFS2_ASSERT` before the rest.
abbrev pub asserting : Bool → Memory → Outcome (Unit {0}) × Memory → Outcome (Unit {0}) × Memory
asserting true s rest = rest
asserting false s rest = (abort, s)

-- `if (!limit) { limit = bound; }`.
abbrev pub limit_or : ℕ → ℕ → ℕ
limit_or limit bound = if limit == 0 then bound else limit

module _ (cfg : Config) where
  abbrev pub zeroed : Memory → Memory
  zeroed (lfs2, h) =
      (record lfs2 { rcache = cache_zero cfg lfs2.rcache; pcache = cache_zero cfg lfs2.pcache }, h)

  -- `LFS2_NAME_MAX`, `LFS2_FILE_MAX` and `LFS2_ATTR_MAX` are 255, 2147483647 and 1022.
  unfoldable pub limits_ok : Bool
  limits_ok = leb cfg.name_max 255 && (leb cfg.file_max 2147483647 && leb cfg.attr_max 1022)

  unfoldable pub init_state : Memory → Memory
  init_state (lfs2, h) = (
    record lfs2 {
      name_max = limit_or cfg.name_max 255;
      file_max = limit_or cfg.file_max 2147483647;
      attr_max = limit_or cfg.attr_max 1022;
      root = (0xffffffff, 0xffffffff);
      mlist = [];
      seed = 0;
      gstate = gstate_zero;
      gpending = gstate_zero;
      gdelta = gstate_zero;
    },
    h,
  )

  -- The assertions before the buffers; the sizes by which the code divides are not 0.
  unfoldable pub sizes_ok : Bool
  sizes_ok =
      cfg.cache_size % cfg.read_size == 0
      && (cfg.cache_size % cfg.prog_size == 0
          && (cfg.block_size % cfg.cache_size == 0
              && leb (u32 (4 * npw2 (0xffffffff / sub32 cfg.block_size 8))) cfg.block_size))

  unfoldable pub lookahead_ok : Bool
  lookahead_ok = cfg.lookahead_size % 8 == 0 && ltb 0 cfg.lookahead_size

module _ (buffers : Buffers) where
  unfoldable pub deinit : Lfs2 → Heap → Heap
  deinit lfs2 h = release_own buffers.lookahead_buffer lfs2.free_at (
      release_own buffers.prog_buffer lfs2.pcache_at
        (release_own buffers.read_buffer lfs2.rcache_at h))

  -- `if (!buffer) { err = LFS2_ERR_NOMEM; goto cleanup; }`.
  abbrev pub check_buffer : ℕ → Memory → Outcome (Unit {0}) × Memory
  check_buffer at (lfs2, h) =
      if at == 0 then (err nomem, (lfs2, deinit lfs2 h)) else (ok tt, (lfs2, h))

  unfoldable pub init_rcache : Memory → Outcome (Unit {0}) × Memory
  init_rcache (lfs2, h) =
      let (at, h') = buffer_for buffers.read_buffer h in
      check_buffer at (record lfs2 { rcache_at = at }, h')

  unfoldable pub init_pcache : Memory → Outcome (Unit {0}) × Memory
  init_pcache (lfs2, h) =
      let (at, h') = buffer_for buffers.prog_buffer h in
      check_buffer at (record lfs2 { pcache_at = at }, h')

  unfoldable pub init_free : Memory → Outcome (Unit {0}) × Memory
  init_free (lfs2, h) =
      let (at, h') = buffer_for buffers.lookahead_buffer h in
      check_buffer at (record lfs2 { free_at = at }, h')

module _ (cfg : Config) (buffers : Buffers) where
  -- The assertions on the three limits stand between the assignments of the limits, which the code
  -- does not reach where an assertion fails.
  unfoldable pub init : Memory → Outcome (Unit {0}) × Memory
  init s = asserting (sizes_ok cfg) s (
      bind (init_rcache buffers s) (λ _ s1. bind (init_pcache buffers s1) (λ _ s2.
        asserting (lookahead_ok cfg) (zeroed cfg s2) (
          bind (init_free buffers (zeroed cfg s2))
            (λ _ s3. asserting (limits_ok cfg) s3 (ok tt, init_state cfg s3))))))
