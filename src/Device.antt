-- ===== src/Device.antt =====
-- The configuration of littlefs/lfs2.h (`struct lfs2_config`), the callbacks to the block device,
-- which the user of the library supplies, and the cache of a block (`lfs2_cache_t`).
use mbed_littlefs.Base.{
  io, corrupt, noent, exist, notdir, isdir, notempty, badf, fbig, inval, nospc, nomem, noattr,
  nametoolong, other, ℤ, pos, negsuc, some, ◌==◌, if◌then◌else◌, ℕ, zero, suc, ◌+◌, ◌-◌, ◌%◌, ◌^◌,
  ◌≤◌, ◌<◌, ◌≡◌, List, [], ◌∷◌, Option, none, Error, length, ◌⊎◌,
}

-- The numbers of `struct lfs2_config`.
pub record Config : Type 0 where
  pub read_size : ℕ
  pub prog_size : ℕ
  pub block_size : ℕ
  pub block_count : ℕ
  pub block_cycles : ℕ
  pub cache_size : ℕ
  pub lookahead_size : ℕ
  pub name_max : ℕ
  pub file_max : ℕ
  pub attr_max : ℕ

-- The callbacks. Each returns its error code (`none` is 0) and the device after the call, and `read`
-- returns also what the buffer holds after the call.
pub record Driver : Type 1 where
  pub Dev : Type 0
  pub read : Dev → ℕ → ℕ → ℕ → Option Error × List ℕ × Dev
  pub prog : Dev → ℕ → ℕ → List ℕ → Option Error × Dev
  pub erase : Dev → ℕ → Option Error × Dev
  pub sync : Dev → Option Error × Dev

-- `lfs2_cache_t`.
pub record Cache : Type 0 where
  pub block : ℕ
  pub off : ℕ
  pub size : ℕ
  pub buffer : List ℕ

-- The block number that stands for none.
abbrev pub block_null : ℕ
block_null = 0xffffffff

-- The `n` bytes of `f` from `off` on.
abbrev pub view : (ℕ → ℕ) → ℕ → ℕ → List ℕ
view f off zero = []
view f off (suc n) = f off ∷ view f (off + 1) n

-- The errors of `enum lfs2_error` with their codes, negated.
abbrev pub codes : List (ℕ × Error)
codes =
    (5, io)
    ∷ (84, corrupt)
    ∷ (2, noent)
    ∷ (17, exist)
    ∷ (20, notdir)
    ∷ (21, isdir)
    ∷ (39, notempty)
    ∷ (9, badf)
    ∷ (27, fbig)
    ∷ (22, inval)
    ∷ (28, nospc)
    ∷ (12, nomem)
    ∷ (61, noattr)
    ∷ (36, nametoolong)
    ∷ []

-- The error with the code `- n`.
abbrev pub error_in : List (ℕ × Error) → ℕ → Error
error_in [] n = other (negsuc (n - 1))
error_in ((code, e) ∷ rest) n = if n == code then e else error_in rest n

-- The result of a callback, which lfs2.c tests against 0 and against the codes of the enumeration.
abbrev pub status : ℤ → Option Error
status (pos zero) = none
status (pos (suc n)) = some (other (pos (suc n)))
status (negsuc n) = some (error_in codes (n + 1))

-- What `lfs2_init` asserts of the configuration, and that sums of two sizes fit a word.
pub record IsConfig (cfg : Config) : Type 0 where
  pub read_pos : 0 < cfg.read_size
  pub prog_pos : 0 < cfg.prog_size
  pub cache_pos : 0 < cfg.cache_size
  pub cache_read : cfg.cache_size % cfg.read_size ≡ 0
  pub cache_prog : cfg.cache_size % cfg.prog_size ≡ 0
  pub block_cache : cfg.block_size % cfg.cache_size ≡ 0
  pub block_pos : 0 < cfg.block_size
  pub small : cfg.block_size < 2 ^ 30
  pub count : cfg.block_count < 2 ^ 32 - 2

-- A read that the documentation of `struct lfs2_config` allows.
pub record IsRead (cfg : Config) (block off size : ℕ) : Type 0 where
  pub in_device : block < cfg.block_count
  pub in_block : off + size ≤ cfg.block_size
  pub off_aligned : off % cfg.read_size ≡ 0
  pub size_aligned : size % cfg.read_size ≡ 0

-- A program that the documentation allows.
pub record IsProg (cfg : Config) (block off size : ℕ) : Type 0 where
  pub in_device : block < cfg.block_count
  pub in_block : off + size ≤ cfg.block_size

-- What the documentation says of the callbacks: an allowed read that reports no error gives the
-- bytes of the block, no read changes them, and an allowed program changes nothing outside its
-- range. A program that reports no error may still have stored other bytes.
pub record IsDevice (cfg : Config) (drv : Driver) : Type 0 where
  pub content : drv.Dev → ℕ → ℕ → ℕ
  pub length-read : (d : drv.Dev) (block off size : ℕ) → length (drv.read d block off size).1 ≡ size
  pub read_content :
      (d : drv.Dev) (block off size : ℕ)
      → IsRead cfg block off size
      → (drv.read d block off size).0 ≡ none
      → (drv.read d block off size).1 ≡ view (content d block) off size
  pub content-read :
      (d : drv.Dev) (block off size : ℕ) → content (drv.read d block off size).2 ≡ content d
  pub content-prog_block :
      (d : drv.Dev) (block off : ℕ) (bytes : List ℕ) (other : ℕ)
      → IsProg cfg block off (length bytes)
      → (other ≡ block → ⊥)
      → content (drv.prog d block off bytes).1 other ≡ content d other
  pub content-prog_outside :
      (d : drv.Dev) (block off : ℕ) (bytes : List ℕ) (o : ℕ)
      → IsProg cfg block off (length bytes)
      → (o < off) ⊎ (off + length bytes ≤ o)
      → content (drv.prog d block off bytes).1 block o ≡ content d block o
