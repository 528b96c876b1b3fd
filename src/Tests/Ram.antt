-- ===== src/Tests/Ram.antt =====
-- A block device in memory, on which the caching operations of littlefs/lfs2.c are run.
use mbed_littlefs.Base.{
  ℕ, ◌+◌, ◌-◌, ◌*◌, ◌≡◌, refl, arith, false, ◌&&◌, Bool-cases, inl, inr, ◌==◌, leb, ltb,
  if◌then◌else◌, List, [], ◌∷◌, length, get_or, replicate, none,
}
use mbed_littlefs.Device.{Config, Driver, Cache, view, block_null, IsConfig, IsDevice}
use mbed_littlefs.Bd.View.{length-view}
use mbed_littlefs.Bd.Prog.{Flash}

abbrev pub small_config : Config
small_config = record {
  read_size = 2;
  prog_size = 2;
  block_size = 128;
  block_count = 4;
  block_cycles = 100;
  cache_size = 4;
  lookahead_size = 4;
  name_max = 255;
  file_max = 2147483647;
  attr_max = 1022;
}

-- Program `bytes` from `off` on.
abbrev pub store : (ℕ → ℕ → ℕ) → ℕ → ℕ → List ℕ → ℕ → ℕ → ℕ
store d block off bytes b o =
    if b == block && (leb off o && ltb o (off + length bytes))
    then get_or bytes (o - off) 0
    else d b o

abbrev pub ram : Driver
ram = record {
  Dev = ℕ → ℕ → ℕ;
  read = λ d block off size. (none, view (d block) off size, d);
  prog = λ d block off bytes. (none, store d block off bytes);
  erase = λ d block. (none, λ b o. if b == block then 0xff else d b o);
  sync = λ d. (none, d);
}

pub small_config-IsConfig : IsConfig small_config
small_config-IsConfig = record {
  read_pos = omega arith;
  prog_pos = omega arith;
  cache_pos = omega arith;
  cache_read = refl;
  cache_prog = refl;
  block_cache = refl;
  block_pos = omega arith;
  small = omega arith;
  count = omega arith;
}

store_other :
    (d : ℕ → ℕ → ℕ) (block off : ℕ) (bytes : List ℕ) (other o : ℕ)
    → (other ≡ block → ⊥)
    → store d block off bytes other o ≡ d other o
store_other d block off bytes other o h =
    let differs : (other == block) ≡ false = ground arith in rw differs refl

pub store_block :
    (d : ℕ → ℕ → ℕ) (block off : ℕ) (bytes : List ℕ) (other : ℕ)
    → (other ≡ block → ⊥)
    → store d block off bytes other ≡ d other
store_block d block off bytes other h = λ i o. store_other d block off bytes other o h i

pub store_outside :
    (d : ℕ → ℕ → ℕ) (block off : ℕ) (bytes : List ℕ) (o : ℕ)
    → (leb off o && ltb o (off + length bytes)) ≡ false
    → store d block off bytes block o ≡ d block o
store_outside d block off bytes o h = elim (Bool-cases (block == block)) [
  | inl e ↦ rw (e, h) refl
  | inr e ↦ rw e refl
]

unfoldable pub ram-IsDevice : IsDevice small_config ram
ram-IsDevice = record {
  content = λ d. d;
  length-read = λ d block off size. length-view (d block) off size;
  read_content = λ d block off size h e. refl;
  content-read = λ d block off size. refl;
  content-prog_block = λ d block off bytes other _. store_block d block off bytes other;
  content-prog_outside =
      λ d block off bytes o _ h. store_outside d block off bytes o (ground arith);
}

-- A device on which the byte at offset `o` of block `b` is `10 * b + o`.
abbrev pub numbered : ℕ → ℕ → ℕ
numbered b o = 10 * b + o

abbrev pub empty_cache : Cache
empty_cache = record { block = block_null; off = 0; size = 0; buffer = replicate 4 0 }

-- A program cache with two bytes for block 1.
abbrev pub open_cache : Cache
open_cache = record { block = 1; off = 2; size = 2; buffer = 70 ∷ 71 ∷ 255 ∷ 255 ∷ [] }

abbrev pub open_flash : Flash (ℕ → ℕ → ℕ)
open_flash = record { dev = numbered; pcache = open_cache; rcache = empty_cache }
