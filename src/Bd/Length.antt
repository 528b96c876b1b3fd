-- ===== src/Bd/Length.antt =====
-- How many bytes `lfs2_bd_read` of littlefs/lfs2.c gives.
use mbed_littlefs.Base.{
  ℕ, zero, suc, ◌+◌, ◌-◌, ◌*◌, ◌%◌, ◌≤◌, arith, min, Bool-cases, inl, inr, ◌&&◌, leb, ltb, ◌==◌,
  if◌then◌else◌, List, length, length-append, length-take, drop, Option, none, some, Error, Outcome,
  ok, err, abort, out_of_fuel, u32,
}
use mbed_littlefs.Util.{aligndown}
use mbed_littlefs.Util.Align.{aligndown-le}
use mbed_littlefs.Device.{Config, Driver, Cache, IsDevice, block_null}
use mbed_littlefs.Bd.{
  Round, copied, loaded, failed, assertion, hit, touches, bypass, load_range, load,
  read_round_rcache, read_round, prepend, read_next, read_loop, bd_read,
}

-- At most so many bytes.
abbrev pub IsShort : ℕ → Outcome (List ℕ) → Type 0
IsShort n (ok bytes) = length bytes ≤ n
IsShort n (err e) = Unit
IsShort n abort = Unit
IsShort n out_of_fuel = Unit

length-hit : (c : Cache) (off n : ℕ) → length (hit c off n) ≤ n
length-hit c off n = omega (arith, length-take n (drop (off - c.off) c.buffer))

module _ (cfg : Config) (drv : Driver) (device : IsDevice cfg drv) where
  open drv use {Dev}

  -- No more bytes than `n` are copied, and no more than are asked for.
  abbrev IsFew : ℕ → Round cfg drv → Type 0
  IsFew size (copied bytes n dev) = (length bytes ≤ n) × (n ≤ size)
  IsFew size (loaded dev c) = Unit
  IsFew size (failed e dev c) = Unit
  IsFew size assertion = Unit

  status-IsFew :
      (size : ℕ) (status : Option Error) (good : Round cfg drv) (bad : Error → Round cfg drv)
      → IsFew size good
      → ((e : Error) → IsFew size (bad e))
      → IsFew size (elim status [ none ↦ good | some e ↦ bad e ])
  status-IsFew size none good bad few h = few
  status-IsFew size (some e) good bad few h = h e

  bypass-IsFew :
      (dev : Dev) (rcache : Cache) (block off n size : ℕ)
      → n ≤ size
      → IsFew size (bypass cfg drv dev rcache block off n)
  unfolding bypass
  bypass-IsFew dev rcache block off n size le =
      let (status, bytes, dev') = drv.read dev block off n in
      status-IsFew size status (copied bytes n dev') (λ e. failed e dev' rcache)
        (omega (arith, device.length-read dev block off n), le) (λ e. tt)

  load-IsFew :
      (dev : Dev) (rcache : Cache) (hint block off size : ℕ)
      → IsFew size (load cfg drv dev rcache hint block off)
  unfolding load
  load-IsFew dev rcache hint block off size = elim (Bool-cases (ltb block cfg.block_count)) [
    | inl e ↦ rw e (
        status-IsFew size
          (drv.read dev (load_range cfg drv rcache hint block off).block
            (load_range cfg drv rcache hint block off).off
            (load_range cfg drv rcache hint block off).size).0
          _ _ tt (λ e. tt))
    | inr e ↦ rw e tt
  ]

  rcache-IsFew :
      (dev : Dev) (rcache : Cache) (hint block off size diff : ℕ)
      → diff ≤ size
      → IsFew size (read_round_rcache cfg drv dev rcache hint block off size diff)
  unfolding read_round_rcache
  rcache-IsFew dev rcache hint block off size diff le =
      let diff' = if touches rcache block off then min diff (rcache.off - off) else diff in
      let le' : diff' ≤ size = ground arith in
      elim (Bool-cases (touches rcache block off && leb rcache.off off)) [
        | inl e ↦
            let n = min diff (rcache.size - (off - rcache.off)) in
            rw e (length-hit rcache off n, omega arith)
        | inr e ↦
            rw e
              (elim (Bool-cases
                (leb hint size && (off % cfg.read_size == 0 && leb cfg.read_size size))) [
                  | inl f ↦ rw f (
                      bypass-IsFew dev rcache block off (aligndown diff' cfg.read_size) size
                        (omega (arith, aligndown-le diff' cfg.read_size)))
                  | inr f ↦ rw f (load-IsFew dev rcache hint block off size)
                ])
      ]

  round-IsFew :
      (dev : Dev) (rcache : Cache) (hint block off size : ℕ)
      → IsFew size (read_round cfg drv dev none rcache hint block off size)
  unfolding read_round
  round-IsFew dev rcache hint block off size =
      rcache-IsFew dev rcache hint block off size size (omega arith)

  prepend-IsShort :
      (bytes : List ℕ) (out : Outcome (List ℕ)) (n size : ℕ)
      → length bytes ≤ n
      → n ≤ size
      → IsShort (size - n) out
      → IsShort size (prepend cfg drv bytes out)
  prepend-IsShort bytes (ok rest) n size few le short = omega (arith, length-append bytes rest)
  prepend-IsShort bytes (err e) n size few le short = tt
  prepend-IsShort bytes abort n size few le short = tt
  prepend-IsShort bytes out_of_fuel n size few le short = tt

  next-IsShort :
      (again : Dev → Cache → ℕ → ℕ → Outcome (List ℕ) × Dev × Cache) (dev : Dev) (rcache : Cache)
      (off size : ℕ) (r : Round cfg drv)
      → ((dev' : Dev) (rcache' : Cache) (off' size' : ℕ)
          → IsShort size' (again dev' rcache' off' size').0)
      → IsFew size r
      → IsShort size (read_next cfg drv again dev rcache off size r).0
  next-IsShort again dev rcache off size (copied bytes n dev') ih (few, le) =
      prepend-IsShort bytes (again dev' rcache (off + n) (size - n)).0 n size few le
        (ih dev' rcache (off + n) (size - n))
  next-IsShort again dev rcache off size (loaded dev' rcache') ih few = ih dev' rcache' off size
  next-IsShort again dev rcache off size (failed e dev' rcache') ih few = tt
  next-IsShort again dev rcache off size assertion ih few = tt

  loop-IsShort :
      (hint block fuel : ℕ) (dev : Dev) (rcache : Cache) (off size : ℕ)
      → IsShort size (read_loop cfg drv none hint block fuel dev rcache off size).0
  unfolding read_loop
  loop-IsShort hint block zero dev rcache off size = tt
  loop-IsShort hint block (suc fuel) dev rcache off size = elim (Bool-cases (size == 0)) [
    | inl e ↦ rw (read_loop, e) (omega arith)
    | inr e ↦
        rw (read_loop, e)
          (next-IsShort (read_loop cfg drv none hint block fuel) dev rcache off size
            (read_round cfg drv dev none rcache hint block off size) (loop-IsShort hint block fuel)
            (round-IsFew dev rcache hint block off size))
  ]

  -- A read gives no more bytes than are asked for.
  pub bd_read-IsShort :
      (dev : Dev) (rcache : Cache) (hint block off size : ℕ)
      → IsShort size (bd_read cfg drv dev none rcache hint block off size).0
  unfolding bd_read
  bd_read-IsShort dev rcache hint block off size = elim (Bool-cases (block == block_null)) [
    | inl e ↦ rw e tt
    | inr e ↦ rw e (elim (Bool-cases (ltb cfg.block_size (u32 (off + size)))) [
      | inl f ↦ rw f tt
      | inr f ↦ rw f (loop-IsShort hint block (2 * size + 2) dev rcache off size)
    ])
  ]
