-- ===== src/Mbed/Refinement.antt =====
-- The block device of mbed-os behind the callbacks is a device as lfs2.c relies on it.
use native.Mathlib.Nat.{mod-eq_of_lt, mul-le-mul, mul-le-mul_right}
use mbed_littlefs.Base.{
  ℕ, zero, suc, ◌+◌, ◌-◌, ◌*◌, ◌^◌, ◌≤◌, ◌<◌, ◌≡◌, ◌≢◌, ◌⊎◌, inl, inr, refl, ap, ◌∙◌, arith, lt→ltb,
  ltb, if◌then◌else◌, Bool-cases, ltb→lt, List, ◌∷◌, length, none, ℤ, pos, negsuc,
}
use mbed_littlefs.Device.{Config, view, IsRead, IsProg, IsDevice, status}
use mbed_littlefs.Mbed.Callbacks.{BlockDevice, address, driver}

-- What the documentation of `BlockDevice` says: a read inside the device that returns 0 gives the
-- bytes from the address on, no read changes them, and a program inside the device changes no byte
-- outside its range.
pub record IsBlockDevice (bd : BlockDevice) (size : ℕ) : Type 0 where
  pub bytes : bd.Bd → ℕ → ℕ
  pub length-read : (d : bd.Bd) (addr n : ℕ) → length (bd.read d addr n).1 ≡ n
  pub read_bytes :
      (d : bd.Bd) (addr n : ℕ)
      → addr + n ≤ size
      → (bd.read d addr n).0 ≡ pos 0
      → (bd.read d addr n).1 ≡ view (bytes d) addr n
  pub bytes-read : (d : bd.Bd) (addr n : ℕ) → bytes (bd.read d addr n).2 ≡ bytes d
  pub bytes-program :
      (d : bd.Bd) (addr : ℕ) (stored : List ℕ) (a : ℕ)
      → addr + length stored ≤ size
      → (a < addr) ⊎ (addr + length stored ≤ a)
      → bytes (bd.program d addr stored).1 a ≡ bytes d a

-- The blocks lie in the device, and their number and size are 32-bit words.
pub record IsGeometry (cfg : Config) (size : ℕ) : Type 0 where
  pub inside_device : cfg.block_count * cfg.block_size ≤ size
  pub count_word : cfg.block_count < 2 ^ 32
  pub size_word : cfg.block_size < 2 ^ 32

below_blocks : (b n s o : ℕ) → b < n → o ≤ s → b * s + o ≤ n * s
below_blocks b n s o h k = let whole : suc b * s ≤ n * s = mul-le-mul_right s h in omega arith

-- Ranges in different blocks of size `s` are apart.
apart :
    (s block off n other o m : ℕ)
    → other ≢ block
    → off + n ≤ s
    → o + m ≤ s
    → (other * s + o + m ≤ block * s + off) ⊎ (block * s + off + n ≤ other * s + o)
apart s block off n other o m differs k k' = elim (Bool-cases (ltb other block)) [
  | inl e ↦ inl (omega (arith, below_blocks other block s (o + m) (ltb→lt other block e) k'))
  | inr e ↦ inr (omega (arith, below_blocks block other s (off + n) (ground arith) k))
]

-- A byte of another block, or outside the range in its block, is outside the range.
outside_range :
    (s block off n other o : ℕ)
    → off + n ≤ s
    → o < s
    → (other ≢ block) ⊎ ((other ≡ block) × ((o < off) ⊎ (off + n ≤ o)))
    → (other * s + o < block * s + off) ⊎ (block * s + off + n ≤ other * s + o)
outside_range s block off n other o k below (inl differs) =
    elim (apart s block off n other o 1 differs k (omega arith)) [
      | inl h ↦ inl (omega arith)
      | inr h ↦ inr h
    ]
outside_range s block off n other o k below (inr (same, inl h)) = rw same (inl (omega arith))
outside_range s block off n other o k below (inr (same, inr h)) = rw same (inr (omega arith))

module _ (cfg : Config) (size : ℕ) (geometry : IsGeometry cfg size) where
  open geometry use {inside_device, count_word, size_word}

  address_exact :
      (block off : ℕ)
      → block < cfg.block_count
      → off ≤ cfg.block_size
      → address cfg block off ≡ block * cfg.block_size + off
  address_exact block off h k =
      let area : cfg.block_count * cfg.block_size ≤ (2 ^ 32 - 1) * (2 ^ 32 - 1) =
        mul-le-mul {n₂ = 2 ^ 32 - 1} {m₂ = 2 ^ 32 - 1} (omega arith) (omega arith) in
      mod-eq_of_lt (omega (arith, below_blocks block cfg.block_count cfg.block_size off h k))

  -- Where the blocks lie in the device, the 64-bit address of a range inside a block does not wrap,
  -- the range lies inside the device, and it lies apart from the ranges of every other block.
  pub address_bounds :
      (block off n : ℕ)
      → block < cfg.block_count
      → off + n ≤ cfg.block_size
      → (address cfg block off ≡ block * cfg.block_size + off)
        × (address cfg block off + n ≤ size)
        × ((other o m : ℕ)
            → other < cfg.block_count
            → other ≢ block
            → o + m ≤ cfg.block_size
            → (address cfg other o + m ≤ address cfg block off)
              ⊎ (address cfg block off + n ≤ address cfg other o))
  address_bounds block off n h k =
      let here = address_exact block off h (omega arith) in
      let inside : block * cfg.block_size + off + n ≤ size =
        omega
          (arith, below_blocks block cfg.block_count cfg.block_size (off + n) h k, inside_device) in
      (
        here,
        rw here inside,
        λ other o m h' differs k'.
            rw (here, address_exact other o h' (omega arith))
              (apart cfg.block_size block off n other o m differs k k'),
      )

-- The contents of the blocks; beyond the end of a block there is nothing.
abbrev pub block_bytes : Config → (ℕ → ℕ) → ℕ → ℕ → ℕ
block_bytes cfg bytes block off =
    if ltb off cfg.block_size then bytes (block * cfg.block_size + off) else 0

view_block :
    (cfg : Config) (bytes : ℕ → ℕ) (block off n : ℕ)
    → off + n ≤ cfg.block_size
    → view bytes (block * cfg.block_size + off) n ≡ view (block_bytes cfg bytes block) off n
view_block cfg bytes block off zero h = refl
view_block cfg bytes block off (suc n) h = rw (lt→ltb off cfg.block_size (omega arith)) (
    ap (λ k. bytes (block * cfg.block_size + off) ∷ view bytes k n) (omega arith)
    ∙ ap (λ xs. bytes (block * cfg.block_size + off) ∷ xs)
        (view_block cfg bytes block (off + 1) n (omega arith)))

status_success : (n : ℤ) → status n ≡ none → n ≡ pos 0
status_success (pos zero) h = refl
status_success (pos (suc n)) h = ground arith
status_success (negsuc n) h = ground arith

module _ (bd : BlockDevice) (cfg : Config) (size : ℕ) (geometry : IsGeometry cfg size)
    (linear : IsBlockDevice bd size) where
  open linear use {bytes}

  read_content :
      (d : bd.Bd) (block off n : ℕ)
      → IsRead cfg block off n
      → ((driver bd cfg).read d block off n).0 ≡ none
      → ((driver bd cfg).read d block off n).1 ≡ view (block_bytes cfg (bytes d) block) off n
  read_content d block off n allowed success =
      let (exact, inside, _) =
        address_bounds cfg size geometry block off n allowed.in_device allowed.in_block in
      linear.read_bytes d (address cfg block off) n inside (status_success _ success)
      ∙ ap (λ a. view (bytes d) a n) exact
      ∙ view_block cfg (bytes d) block off n allowed.in_block

  prog_byte :
      (d : bd.Bd) (block off : ℕ) (stored : List ℕ) (other o : ℕ)
      → IsProg cfg block off (length stored)
      → (other ≢ block) ⊎ ((other ≡ block) × ((o < off) ⊎ (off + length stored ≤ o)))
      → block_bytes cfg (bytes ((driver bd cfg).prog d block off stored).1) other o
        ≡ block_bytes cfg (bytes d) other o
  prog_byte d block off stored other o allowed outside = elim (Bool-cases (ltb o cfg.block_size)) [
    | inl e ↦
        let (exact, inside, _) =
          address_bounds cfg size geometry block off (length stored) allowed.in_device
            allowed.in_block in
        rw e (
          linear.bytes-program d (address cfg block off) stored (other * cfg.block_size + o) inside
            (rw exact (
              outside_range cfg.block_size block off (length stored) other o allowed.in_block
                (ltb→lt o cfg.block_size e) outside)))
    | inr e ↦ rw e refl
  ]

  -- Over a `BlockDevice` whose blocks lie inside it, the callbacks of LittleFileSystem2.cpp do what
  -- lfs2.c relies on, and the contents of a block are the bytes of the device from its address on.
  pub driver-IsDevice :
      (device : IsDevice cfg (driver bd cfg)) × (device.content ≡ λ d. block_bytes cfg (bytes d))
  driver-IsDevice = (
    record {
      content = λ d. block_bytes cfg (bytes d);
      length-read = λ d block off n. linear.length-read d (address cfg block off) n;
      read_content = read_content;
      content-read =
          λ d block off n. ap (block_bytes cfg) (linear.bytes-read d (address cfg block off) n);
      content-prog_block = λ d block off stored other allowed differs.
          λ i o. prog_byte d block off stored other o allowed (inl differs) i;
      content-prog_outside = λ d block off stored o allowed outside.
          prog_byte d block off stored block o allowed (inr (refl, outside));
    },
    refl,
  )
