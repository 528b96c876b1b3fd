-- ===== src/Ctz.antt =====
-- The skip-lists of files in littlefs/lfs2.c: `lfs2_ctz_index`, `lfs2_ctz_find`, `lfs2_ctz_extend`,
-- `lfs2_ctz_traverse`.
pub mod Find
pub mod Traverse
use mbed_littlefs.Base.{
  ℕ, zero, suc, ◌+◌, ◌-◌, ◌*◌, ◌/◌, ◌%◌, ◌^◌, min, Bool, true, false, not, ◌&&◌, ltb, leb, ◌==◌,
  if◌then◌else◌, List, [], ◌∷◌, Option, none, some, Error, corrupt, Outcome, ok, err, abort,
  out_of_fuel, u32, sub32, ◌<<<◌, get_or, bit_and,
}
use mbed_littlefs.Util.{ByteOrder, bytes_of, npw2, ctz, popc, fromle32, tole32}
use mbed_littlefs.Device.{Config, Driver, Cache}
use mbed_littlefs.Bd.{cache_drop, bd_read}
use mbed_littlefs.Bd.Prog.{Flash, bd_prog, bd_erase}
use mbed_littlefs.Alloc.{Free, Traversal, alloc}
use mbed_littlefs.Store.{bind, word_at}

-- The index of the block that holds the byte at `size`, and what is written to `*off`.
unfoldable pub ctz_index : Config → ℕ → ℕ × ℕ
ctz_index cfg size =
    let b = sub32 cfg.block_size 8 in
    if size / b == 0
    then (0, size)
    else (let i = sub32 size (u32 (4 * u32 (popc (size / b - 1) + 2))) / b in
        (i, sub32 (sub32 size (u32 (b * i))) (u32 (4 * popc i))))

module _ (cfg : Config) (drv : Driver) (host : ByteOrder) where
  open drv use {Dev}

  -- `LFS2_ASSERT(head >= 2 && head <= lfs2->cfg->block_count)`.
  abbrev pub is_head : ℕ → Bool
  is_head head = leb 2 head && leb head cfg.block_count

  -- Read the word at `off` of `block` through the caches.
  abbrev pub read_word : Option Cache → Dev × Cache → ℕ → ℕ → Outcome ℕ × (Dev × Cache)
  read_word pcache (dev, rcache) block off =
      let (out, dev', rcache') = bd_read cfg drv dev pcache rcache 4 block off 4 in
      bind (out, (dev', rcache')) (λ bytes s. (ok (fromle32 host (word_at host bytes 0)), s))

  -- How far the loop of `lfs2_ctz_find` skips, as a power of two.
  abbrev pub find_skip : ℕ → ℕ → ℕ
  find_skip current target = min (sub32 (npw2 (u32 (current - target + 1))) 1) (ctz current)

  -- The loop of `lfs2_ctz_find`, with fuel.
  unfoldable pub find_loop : Option Cache → ℕ → ℕ → ℕ → ℕ → Dev × Cache → Outcome ℕ × (Dev × Cache)
  find_loop pcache target zero current head s = (out_of_fuel, s)
  find_loop pcache target (suc fuel) current head s = elim (ltb target current) [
    | false ↦ (ok head, s)
    | true ↦ bind (read_word pcache s head (u32 (4 * find_skip current target))) (λ head' s'.
        elim (is_head head') [
          | true ↦
              find_loop pcache target fuel (sub32 current (1 <<< find_skip current target)) head' s'
          | false ↦ (abort, s')
        ])
  ]

  -- Each round makes `current` less.
  unfoldable pub ctz_find : Dev × Cache → Option Cache → ℕ → ℕ → ℕ → Outcome (ℕ × ℕ) × (Dev × Cache)
  ctz_find s pcache head size pos =
      let current = (ctz_index cfg (size - 1)).0 in
      let (target, off) = ctz_index cfg pos in
      if size == 0
      then (ok (0xffffffff, 0), s)
      else bind (find_loop pcache target (current + 1) current head s)
          (λ block s'. (ok (block, off), s'))

  module _ {T : Type 0} (cb : T → ℕ → Option Error × T) where
    -- One call of the callback, before the rest.
    abbrev pub visit : ℕ → (T × (Dev × Cache)) → Outcome (Unit {0}) × (T × (Dev × Cache))
    visit head (obj, s) =
        let (status, obj') = cb obj head in
        elim status [ none ↦ (ok tt, (obj', s)) | some e ↦ (err e, (obj', s)) ]

    -- Read the pointers at the start of a block, `count` of them.
    abbrev pub read_heads :
        Option Cache → ℕ → ℕ → (T × (Dev × Cache)) → Outcome (ℕ × ℕ) × (T × (Dev × Cache))
    read_heads pcache head count (obj, (dev, rcache)) =
        let (out, dev', rcache') =
          bd_read cfg drv dev pcache rcache (count * 4) head 0 (count * 4) in
        bind (out, (obj, (dev', rcache')))
          (λ bytes s.
            (ok (fromle32 host (word_at host bytes 0), fromle32 host (word_at host bytes 4)), s))

    -- The loop of `lfs2_ctz_traverse`, with fuel.
    unfoldable pub traverse_loop :
        Option Cache → ℕ → ℕ → ℕ → T × (Dev × Cache) → Outcome (Unit {0}) × (T × (Dev × Cache))
    traverse_loop pcache zero index head s = (out_of_fuel, s)
    traverse_loop pcache (suc fuel) index head s = bind (visit head s) (λ _ s1. elim (index == 0) [
      | true ↦ (ok tt, s1)
      | false ↦
          let count = 2 - bit_and index 1 in
          bind (read_heads pcache head count s1) (λ heads s2. elim (count == 2) [
            | true ↦
                bind (visit heads.0 s2) (λ _ s3. traverse_loop pcache fuel (index - 2) heads.1 s3)
            | false ↦ traverse_loop pcache fuel (index - 1) heads.0 s2
          ])
    ])

    unfoldable pub ctz_traverse :
        T × (Dev × Cache) → Option Cache → ℕ → ℕ → Outcome (Unit {0}) × (T × (Dev × Cache))
    ctz_traverse s pcache head size =
        let index = (ctz_index cfg (size - 1)).0 in
        if size == 0 then (ok tt, s) else traverse_loop pcache (index + 1) index head s

  -- How one pass of the loop in `lfs2_ctz_extend` ends: with a block and the offset where its data
  -- goes on, or at `relocate`, with `head` and `size` as they are by then.
  pub data Extended : Type 0 where
    placed : ℕ → ℕ → Extended
    relocate : ℕ → ℕ → Extended

  -- `if (err) { if (err == LFS2_ERR_CORRUPT) goto relocate; return err; }`.
  abbrev pub or_relocate :
      {S : Type 0}
      → ℕ
      → ℕ
      → Outcome (Unit {0}) × S
      → (S → Outcome Extended × S)
      → Outcome Extended × S
  or_relocate head size (ok _, s) next = next s
  or_relocate head size (err corrupt, s) next = (ok (relocate head size), s)
  or_relocate head size (err e, s) next = (err e, s)
  or_relocate head size (abort, s) next = (abort, s)
  or_relocate head size (out_of_fuel, s) next = (out_of_fuel, s)

  -- `lfs2_bd_read(lfs2, NULL, rcache, ...)` in a state with both caches.
  abbrev pub read_device : Flash Dev → ℕ → ℕ → ℕ → ℕ → Outcome (List ℕ) × Flash Dev
  read_device s hint block off size =
      let (out, dev', rcache') = bd_read cfg drv s.dev none s.rcache hint block off size in
      (out, record s { dev = dev'; rcache = rcache' })

  -- Copy the bytes of an incomplete last block from `i` on, `n` of them.
  unfoldable pub copy_loop : ℕ → ℕ → ℕ → ℕ → ℕ → Flash Dev → Outcome Extended × Flash Dev
  copy_loop head nblock size zero i s = (ok (placed nblock size), s)
  copy_loop head nblock size (suc n) i s = bind (read_device s (size - i) head i 1) (λ bytes s1.
      or_relocate head size (bd_prog cfg drv true s1 nblock i bytes)
        (copy_loop head nblock size n (i + 1)))

  -- Write the pointers of a new block from `i` on, `n` of them: each is where the one before points.
  unfoldable pub skips_loop : ℕ → ℕ → ℕ → ℕ → ℕ → Flash Dev → Outcome Extended × Flash Dev
  skips_loop nblock size zero i head s = (ok (placed nblock (4 * i)), s)
  skips_loop nblock size (suc n) i head s =
      or_relocate (fromle32 host (tole32 host head)) size
        (bd_prog cfg drv true s nblock (4 * i) (bytes_of host (tole32 host head)))
        (λ s1. elim (n == 0) [
          | true ↦
              let head' = fromle32 host (tole32 host head) in
              elim (is_head head') [
                | true ↦ skips_loop nblock size n (i + 1) head' s1
                | false ↦ (abort, s1)
              ]
          | false ↦
              bind (read_device s1 4 (fromle32 host (tole32 host head)) (4 * i) 4) (λ bytes s2.
                let head' = fromle32 host (word_at host bytes 0) in
                elim (is_head head') [
                  | true ↦ skips_loop nblock size n (i + 1) head' s2
                  | false ↦ (abort, s2)
                ])
        ])

  -- After the new block is erased. From here on `size` is one more than the offset of the last byte
  -- in its block.
  unfoldable pub extend_erased : ℕ → ℕ → ℕ → Flash Dev → Outcome Extended × Flash Dev
  extend_erased head size nblock s =
      if size == 0
      then (ok (placed nblock 0), s)
      else (let (index, last) = ctz_index cfg (size - 1) in
          let size' = u32 (last + 1) in
          if not (size' == cfg.block_size)
          then copy_loop head nblock size' size' 0 s
          else skips_loop nblock size' (ctz (u32 (index + 1)) + 1) 0 head s)

  unfoldable pub extend_block : ℕ → ℕ → ℕ → Flash Dev → Outcome Extended × Flash Dev
  extend_block head size nblock s =
      let (out, dev') = bd_erase cfg drv s.dev nblock in
      or_relocate head size (out, record s { dev = dev' }) (extend_erased head size nblock)

  -- The loop of `lfs2_ctz_extend`, with fuel. At `relocate` the program cache is dropped.
  unfoldable pub extend_loop :
      Traversal (Flash Dev) → ℕ → ℕ → ℕ → Flash Dev × Free → Outcome (ℕ × ℕ) × (Flash Dev × Free)
  extend_loop t zero head size s = (out_of_fuel, s)
  extend_loop t (suc fuel) head size (s, free) =
      let (out, s1, free1) = alloc cfg t s free in
      bind (out, (s1, free1))
        (λ nblock s2. elim (is_head nblock) [
          | false ↦ (abort, s2)
          | true ↦
              let (res, s3) = extend_block head size nblock s2.0 in
              bind (res, (s3, s2.1))
                (λ e s4. elim e [
                  | placed block off ↦ (ok (block, off), s4)
                  | relocate head' size' ↦
                      extend_loop t fuel head' size'
                        (record (s4.0) { pcache = cache_drop s4.0.pcache }, s4.1)
                ])
        ])

  -- Each pass takes a block of those that are left.
  unfoldable pub ctz_extend :
      Traversal (Flash Dev) → ℕ → ℕ → Flash Dev × Free → Outcome (ℕ × ℕ) × (Flash Dev × Free)
  ctz_extend t head size s = extend_loop t (s.1.ack + 1) head size s
