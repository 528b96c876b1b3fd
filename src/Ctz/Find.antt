-- ===== src/Ctz/Find.antt =====
-- `lfs2_ctz_find`: the walk along the pointers of a skip-list.
use native.Mathlib.Nat.{pow-le-pow_right}
use mbed_littlefs.Base.{
  ℕ, zero, suc, ◌+◌, ◌-◌, ◌*◌, ◌^◌, ◌≤◌, ◌<◌, ◌≡◌, refl, arith, ap, ◌∙◌, true, false, ltb, ◌==◌,
  Bool-cases, inl, inr, List, Option, Outcome, ok, err, abort, out_of_fuel, u32, sub32, ◌<<<◌,
}
use mbed_littlefs.Util.{ByteOrder, fromle32, npw2, ctz}
use mbed_littlefs.Util.Npw2.{npw2_least, pow-add}
use mbed_littlefs.Device.{Config, Driver, Cache, view, IsConfig, IsDevice}
use mbed_littlefs.Bd.{bd_read}
use mbed_littlefs.Bd.View.{visible}
use mbed_littlefs.Bd.Read.{IsPcache, IsRcache, ReadFails}
use mbed_littlefs.Bd.ReadLoop.{Ends, bd_read_lem}
use mbed_littlefs.Store.{bind, word_at}
use mbed_littlefs.Ctz.{ctz_index, is_head, read_word, find_skip, find_loop, ctz_find}

-- A power of two at most the distance to the target.
log_bound :
    (k a i : ℕ)
    → 1 < a
    → a < 2 ^ 32
    → a ≤ 2 ^ k
    → 2 ^ k < 2 * a
    → i ≤ sub32 k 1
    → (2 ^ i ≤ a - 1) × (i < 32)
log_bound k a i big small low high le =
    let k_lt : k < 33 = elim (Bool-cases (ltb k 33)) [
      | inl e ↦ ground arith
      | inr e ↦
          absurd
            (omega (arith, pow-le-pow_right {n = 2} (omega arith) {i = 33} {j = k} (ground arith)))
    ] in
    let k_pos : 0 < k = elim (Bool-cases (ltb 0 k)) [
      | inl e ↦ ground arith
      | inr e ↦
          let zero_k : k ≡ 0 = ground arith in
          let one : 2 ^ k ≡ 1 = ap (λ t. 2 ^ t) zero_k in absurd (omega arith)
    ] in
    let before : sub32 k 1 ≡ k - 1 = omega arith in
    let halves : 2 ^ k ≡ 2 ^ (k - 1) * 2 = ap (λ t. 2 ^ t) (omega arith) ∙ pow-add (k - 1) 1 in
    let below = pow-le-pow_right {n = 2} (omega arith) {i = i} {j = k - 1} (omega arith) in
    (omega (arith, halves, below), omega arith)

-- The skip of a round does not pass the target.
pub find_skip_bound :
    (cfg : Config) (drv : Driver) (host : ByteOrder) (current target : ℕ)
    → target < current
    → current < 2 ^ 31
    → let skip = find_skip cfg drv host current target in
      (2 ^ skip ≤ current - target) × (skip < 32) × (skip ≤ ctz current)
find_skip_bound cfg drv host current target h small =
    let a = current - target + 1 in
    let (low, high) = npw2_least a (omega arith) (omega arith) in
    let word : u32 a ≡ a = omega arith in
    let skip = find_skip cfg drv host current target in
    let least : skip ≤ sub32 (npw2 (u32 a)) 1 = omega arith in
    let same : sub32 (npw2 (u32 a)) 1 ≡ sub32 (npw2 a) 1 = ap (λ t. sub32 (npw2 t) 1) word in
    let least' : skip ≤ sub32 (npw2 a) 1 = omega (arith, least, same) in
    let (near, few) = log_bound (npw2 a) a skip (omega arith) (omega arith) low high least' in
    (omega (arith, near), few, omega arith)

module _ (cfg : Config) (drv : Driver) (conf : IsConfig cfg) (device : IsDevice cfg drv)
    (host : ByteOrder) (pcache : Option Cache) (p : IsPcache cfg drv conf device pcache)
    (F : ℕ → ℕ → ℕ) where
  open drv use {Dev}
  open device use {content}

  -- The word that a reader sees at `off` of `block`.
  abbrev pub pointer : ℕ → ℕ → ℕ
  pointer block off = fromle32 host (word_at host (view (visible pcache block (F block)) off 4) 0)

  -- `blocks` are the blocks of a file up to index `last`: they are of the device, and the `k`-th
  -- pointer of block `c`, for each `k` up to the number of zero digits at the end of `c`, is to the
  -- block `2 ^ k` before it.
  pub record IsList (blocks : ℕ → ℕ) (last : ℕ) : Type 0 where
    pub from_two : (c : ℕ) → c ≤ last → 2 ≤ blocks c
    pub of_device : (c : ℕ) → c ≤ last → blocks c < cfg.block_count
    pub points :
        (c k : ℕ)
        → c ≤ last
        → k ≤ ctz c
        → 2 ^ k ≤ c
        → pointer (blocks c) (4 * k) ≡ blocks (c - 2 ^ k)

  -- How the walk may end: at the block of the target index, or with an error that a callback reported.
  abbrev pub FindEnds : ℕ → Outcome ℕ → Dev × Cache → Type 0
  FindEnds block (ok b) s = (b ≡ block) × IsRcache cfg drv conf device s.0 s.1 × (content s.0 ≡ F)
  FindEnds block (err e) s = ReadFails cfg drv conf device e
  FindEnds block abort s = ⊥
  FindEnds block out_of_fuel s = ⊥

  read_word_lem :
      (dev : Dev) (rcache : Cache) (block off : ℕ)
      → content dev ≡ F
      → IsRcache cfg drv conf device dev rcache
      → block < cfg.block_count
      → off + 4 ≤ cfg.block_size
      → let (out, s) = read_word cfg drv host pcache (dev, rcache) block off in
        FindEnds (pointer block off) out s
  read_word_lem dev rcache block off same r hb in_block =
      ends (bd_read cfg drv dev pcache rcache 4 block off 4) (
        bd_read_lem cfg drv conf device dev pcache rcache 4 block off 4 hb in_block (omega arith)
          (omega arith) p r)
    where
      ends :
          (res : Outcome (List ℕ) × Dev × Cache)
          → Ends cfg drv conf device
              (view (visible pcache block (content dev block)) off 4)
              res.0
              res.1
              res.2
            × (content res.1 ≡ content dev)
          → let (out, s) =
              bind {S = Dev × Cache}
                (res.0, (res.1, res.2))
                (λ bytes s. (ok (fromle32 host (word_at host bytes 0)), s)) in
            FindEnds (pointer block off) out s
      ends (ok bytes, dev', rcache') ((e, r'), kept) = (
        ap (λ xs. fromle32 host (word_at host xs 0)) e
            ∙ ap
                (λ (f : ℕ → ℕ → ℕ).
                  fromle32 host (word_at host (view (visible pcache block (f block)) off 4) 0))
                same,
        r',
        kept ∙ same,
      )
      ends (err e, dev', rcache') (h, kept) = h
      ends (abort, dev', rcache') (h, kept) = h
      ends (out_of_fuel, dev', rcache') (h, kept) = h

  module _ (blocks : ℕ → ℕ) (last target : ℕ) (list : IsList blocks last) (small : last < 2 ^ 31)
      (wide : 128 ≤ cfg.block_size) where
    loop_lem :
        (fuel current : ℕ) (dev : Dev) (rcache : Cache)
        → content dev ≡ F
        → IsRcache cfg drv conf device dev rcache
        → target ≤ current
        → current ≤ last
        → current < fuel
        → let (out, s) =
            find_loop cfg drv host pcache target fuel current (blocks current) (dev, rcache) in
          FindEnds (blocks target) out s
    unfolding find_loop
    loop_lem zero current dev rcache same r le in_list enough = absurd (omega arith)
    loop_lem (suc fuel) current dev rcache same r le in_list enough =
        elim (Bool-cases (ltb target current)) [
          | inr e ↦ rw (e, find_loop) (ap blocks (ground arith), r, same)
          | inl e ↦
              let skip = find_skip cfg drv host current target in
              let (near, few, trailing) =
                find_skip_bound cfg drv host current target (ground arith) (omega arith) in
              let word : u32 (4 * skip) ≡ 4 * skip = omega arith in
              rw (e, find_loop, word)
                (next_lem skip (ground arith) enough near trailing in_list
                  (loop_lem fuel (current - 2 ^ skip))
                  (read_word cfg drv host pcache (dev, rcache) (blocks current) (4 * skip))
                  (read_word_lem dev rcache (blocks current) (4 * skip) same r
                    (list.of_device current in_list) (omega (arith, few, wide))))
        ]
      where
        next_lem :
            (skip : ℕ)
            → target < current
            → current < suc fuel
            → 2 ^ skip ≤ current - target
            → skip ≤ ctz current
            → current ≤ last
            → ((dev : Dev) (rcache : Cache)
                → content dev ≡ F
                → IsRcache cfg drv conf device dev rcache
                → target ≤ current - 2 ^ skip
                → current - 2 ^ skip ≤ last
                → current - 2 ^ skip < fuel
                → let (out, s) =
                    find_loop cfg drv host pcache target fuel
                      (current - 2 ^ skip)
                      (blocks (current - 2 ^ skip))
                      (dev, rcache) in
                  FindEnds (blocks target) out s)
            → (res : Outcome ℕ × (Dev × Cache))
            → FindEnds (pointer (blocks current) (4 * skip)) res.0 res.1
            → let (out, s) = bind res (λ head' s'.
              elim (is_head cfg drv host head') as (λ x. Outcome ℕ × (Dev × Cache)) [
                | true ↦
                    find_loop cfg drv host pcache target fuel (sub32 current (1 <<< skip)) head' s'
                | false ↦ (abort, s')
              ]) in
              FindEnds (blocks target) out s
        next_lem skip more enough near trailing in_list ih (ok b, (dev', rcache')) (at, r', same') =
            let back = current - 2 ^ skip in
            let less : sub32 current (1 <<< skip) ≡ back =
              omega (arith, near, more, enough, in_list, small) in
            let eq : b ≡ blocks back =
              at ∙ list.points current skip in_list trailing (omega (arith, near)) in
            let low = list.from_two back (omega arith) in
            let high = list.of_device back (omega arith) in
            let valid : is_head cfg drv host b ≡ true = ground (arith, low, high, eq) in
            let positive =
              pow-le-pow_right {n = 2} (omega arith) {i = 0} {j = skip} (omega arith) in
            rw (bind, valid, less, eq)
              (ih dev' rcache' same' r' (omega (arith, near, more)) (omega arith)
                (omega (arith, positive, enough, near, more)))
        next_lem skip more enough near trailing in_list ih (err e, s) h = h
        next_lem skip more enough near trailing in_list ih (abort, s) h = h
        next_lem skip more enough near trailing in_list ih (out_of_fuel, s) h = h

  -- How a search may end: with the block of the target index and the offset `off` in it, or with an
  -- error that a callback reported.
  abbrev pub SearchEnds : ℕ → ℕ → Outcome (ℕ × ℕ) → Dev × Cache → Type 0
  SearchEnds block off (ok (b, o)) s = (o ≡ off) × FindEnds block (ok b) s
  SearchEnds block off (err e) s = ReadFails cfg drv conf device e
  SearchEnds block off abort s = ⊥
  SearchEnds block off out_of_fuel s = ⊥

  -- In a file that is not empty, whose last byte lies in the block of index `last` below 2 ^ 31 and
  -- whose blocks up to there are linked as a skip-list on a device with blocks of at least 128 bytes,
  -- `lfs2_ctz_find` from the last block ends for each position whose index is at most `last`: it
  -- gives the block of that index and the offset of `lfs2_ctz_index`, or an error that a callback
  -- reported. No assertion fails.
  pub ctz_find_lem :
      (blocks : ℕ → ℕ) (size pos : ℕ) (dev : Dev) (rcache : Cache)
      → let last = (ctz_index cfg (size - 1)).0 in
        let target = (ctz_index cfg pos).0 in
        0 < size
        → IsList blocks last
        → last < 2 ^ 31
        → 128 ≤ cfg.block_size
        → target ≤ last
        → content dev ≡ F
        → IsRcache cfg drv conf device dev rcache
        → let (out, s) = ctz_find cfg drv host (dev, rcache) pcache (blocks last) size pos in
          SearchEnds (blocks target) (ctz_index cfg pos).1 out s
  unfolding ctz_find
  ctz_find_lem blocks size pos dev rcache some_bytes list small wide le same r =
      let last = (ctz_index cfg (size - 1)).0 in
      let target = (ctz_index cfg pos).0 in
      let filled : (size == 0) ≡ false = ground arith in
      rw filled (
        ends (find_loop cfg drv host pcache target (last + 1) last (blocks last) (dev, rcache)) (
          loop_lem blocks last target list small wide (last + 1) last dev rcache same r le
            (omega arith) (omega arith)))
    where
      ends :
          (res : Outcome ℕ × (Dev × Cache))
          → FindEnds (blocks (ctz_index cfg pos).0) res.0 res.1
          → let (out, s) =
              bind {B = ℕ × ℕ} res (λ block s'. (ok (block, (ctz_index cfg pos).1), s')) in
            SearchEnds (blocks (ctz_index cfg pos).0) (ctz_index cfg pos).1 out s
      ends (ok b, s) h = (refl, h)
      ends (err e, s) h = h
      ends (abort, s) h = h
      ends (out_of_fuel, s) h = h
