-- ===== src/Bd/Prog/Compare.antt =====
-- `lfs2_bd_cmp` compares the bytes that a reader sees with a buffer.
use mathlib.Core.Path.{subst}
use mbed_littlefs.Base.{
  ℕ, ◌+◌, ◌^◌, ◌≤◌, ◌<◌, ◌≡◌, refl, arith, ◌∙◌, List, [], ◌∷◌, length, Option, ◌==◌, if◌then◌else◌,
  Bool-cases, inl, inr, u32, sub32, Outcome, ok, err, abort, out_of_fuel,
}
use mbed_littlefs.Device.{Config, Driver, Cache, view, IsConfig, IsDevice}
use mbed_littlefs.Bd.{bd_read}
use mbed_littlefs.Bd.View.{visible}
use mbed_littlefs.Bd.Read.{IsPcache, IsRcache, ReadFails}
use mbed_littlefs.Bd.ReadLoop.{Ends, bd_read_lem}
use mbed_littlefs.Bd.Prog.{Cmp, cmp_eq, cmp_byte, cmp_next, cmp_from, bd_cmp}

-- The order of the first bytes in which two lists of one length differ.
pub compare_bytes : List ℕ → List ℕ → Cmp
compare_bytes (x ∷ xs) (y ∷ ys) = if x == y then compare_bytes xs ys else cmp_byte x y
compare_bytes [] ys = cmp_eq
compare_bytes (x ∷ xs) [] = cmp_eq

compare_bytes_self : (xs : List ℕ) → compare_bytes xs xs ≡ cmp_eq
unfolding compare_bytes
compare_bytes_self [] = refl
compare_bytes_self (x ∷ xs) = ground (arith, compare_bytes_self xs)

pub eq_of_compare :
    (xs ys : List ℕ) → length xs ≡ length ys → compare_bytes xs ys ≡ cmp_eq → xs ≡ ys
unfolding compare_bytes
eq_of_compare [] [] e h = refl
eq_of_compare [] (y ∷ ys) e h = absurd (omega arith)
eq_of_compare (x ∷ xs) [] e h = absurd (omega arith)
eq_of_compare (x ∷ xs) (y ∷ ys) e h = ground (arith, eq_of_compare xs ys)

module _ (cfg : Config) (drv : Driver) (conf : IsConfig cfg) (device : IsDevice cfg drv) where
  open drv use {Dev}
  open device use {content}

  -- How a comparison may end.
  abbrev pub CmpEnds : Cmp → Outcome Cmp → Dev → Cache → Type 0
  CmpEnds c (ok res) dev rc = (res ≡ c) × IsRcache cfg drv conf device dev rc
  CmpEnds c (err e) dev rc = ReadFails cfg drv conf device e
  CmpEnds c abort dev rc = ⊥
  CmpEnds c out_of_fuel dev rc = ⊥

  module _ (pcache : Option Cache) (hint block off : ℕ) (F : ℕ → ℕ → ℕ)
      (in_device : block < cfg.block_count) (hint_small : hint ≤ 2 ^ 30)
      (p : IsPcache cfg drv conf device pcache) where
    abbrev V : ℕ → ℕ
    V = visible pcache block (F block)

    abbrev Result : Cmp → Outcome Cmp × Dev × Cache → Type 0
    Result c out = CmpEnds c out.0 out.1 out.2 × (content out.1 ≡ F)

    next_lem :
        (again : Dev → Cache → Outcome Cmp × Dev × Cache) (c : Cmp) (o b : ℕ)
        → ((dev : Dev) (rc : Cache)
            → content dev ≡ F
            → IsRcache cfg drv conf device dev rc
            → Result c (again dev rc))
        → (out : Outcome (List ℕ)) (dev : Dev) (rc : Cache)
        → Ends cfg drv conf device (view V o 1) out dev rc
        → content dev ≡ F
        → Result
            (if V o == b then c else cmp_byte (V o) b)
            (cmp_next cfg drv again b (out, dev, rc))
    next_lem again c o b ih (ok bytes) dev rc (e, r) same = rw e (elim (Bool-cases (V o == b)) [
      | inl hit ↦ rw hit (ih dev rc same r)
      | inr miss ↦ rw miss ((refl, r), same)
    ])
    next_lem again c o b ih (err x) dev rc h same = (h, same)
    next_lem again c o b ih abort dev rc h same = absurd h
    next_lem again c o b ih out_of_fuel dev rc h same = absurd h

    from_lem :
        (i : ℕ) (bs : List ℕ) (dev : Dev) (rc : Cache)
        → content dev ≡ F
        → IsRcache cfg drv conf device dev rc
        → off + i + length bs ≤ cfg.block_size
        → i + length bs ≤ hint
        → Result
            (compare_bytes (view V (off + i) (length bs)) bs)
            (cmp_from cfg drv pcache hint block off i bs dev rc)
    unfolding cmp_from compare_bytes
    from_lem i [] dev rc e r h k = ((refl, r), e)
    from_lem i (b ∷ bs) dev rc e r h k =
        let at : u32 (off + i) ≡ off + i = omega (arith, conf.small) in
        let step : off + i + 1 ≡ off + (i + 1) = omega arith in
        let (ends, same) =
          bd_read_lem cfg drv conf device dev pcache rc (sub32 hint i) block (off + i) 1 in_device
            (omega arith) (omega arith) (omega arith) p r in
        rw (at, step)
          (next_lem (cmp_from cfg drv pcache hint block off (i + 1) bs)
            (compare_bytes (view V (off + (i + 1)) (length bs)) bs) (off + i) b
            (λ dev' rc' e' r'. from_lem (i + 1) bs dev' rc' e' r' (omega arith) (omega arith)) _ _ _
            (subst
              (λ (f : ℕ → ℕ → ℕ).
                Ends cfg drv conf device (view (visible pcache block (f block)) (off + i) 1)
                  (bd_read cfg drv dev pcache rc (sub32 hint i) block (off + i) 1).0
                  (bd_read cfg drv dev pcache rc (sub32 hint i) block (off + i) 1).1
                  (bd_read cfg drv dev pcache rc (sub32 hint i) block (off + i) 1).2)
              e ends)
            (same ∙ e))

  -- A comparison inside a block of the device gives the order of the first bytes that differ
  -- between what a reader sees there and the buffer, or an error that the callback has reported.
  pub bd_cmp_lem :
      (dev : Dev) (pcache : Option Cache) (rcache : Cache) (hint block off : ℕ) (buffer : List ℕ)
      → block < cfg.block_count
      → off + length buffer ≤ cfg.block_size
      → length buffer ≤ hint
      → hint ≤ 2 ^ 30
      → IsPcache cfg drv conf device pcache
      → IsRcache cfg drv conf device dev rcache
      → let (out, dev', rcache') = bd_cmp cfg drv dev pcache rcache hint block off buffer in
        let seen = view (visible pcache block (content dev block)) off (length buffer) in
        CmpEnds (compare_bytes seen buffer) out dev' rcache' × (content dev' ≡ content dev)
  unfolding bd_cmp
  bd_cmp_lem dev pcache rcache hint block off buffer hb in_block enough hs p r =
      let start : off + 0 ≡ off = omega arith in
      rw start at (
        from_lem pcache hint block off (content dev) hb hs p 0 buffer dev rcache refl r
          (omega arith) (omega arith))
