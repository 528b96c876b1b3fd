-- ===== src/Dir/Commit.antt =====
-- Writing a commit to the log of a metadata pair in littlefs/lfs2.c: `struct lfs2_commit`,
-- `lfs2_dir_commitprog`, `lfs2_dir_commitattr`, `lfs2_dir_commitcrc`, `lfs2_dir_commit_size` and
-- `lfs2_dir_alloc`.
pub mod Bounds
use mbed_littlefs.Base.{
  ℕ, zero, suc, ◌+◌, ◌-◌, ◌^◌, false, ltb, ◌==◌, if◌then◌else◌, List, [], ◌++◌, none, length, take,
  corrupt, nospc, Outcome, ok, err, abort, out_of_fuel, u32, ◌<<<◌, bit_and, bit_xor,
}
use mbed_littlefs.Util.{ByteOrder, bytes_of, frombe32, tobe32, fromle32, tole32, alignup, crc}
use mbed_littlefs.Tag.{mktag, tag_size, tag_dsize, type_crc}
use mbed_littlefs.Device.{Config, Driver}
use mbed_littlefs.Bd.{bd_read}
use mbed_littlefs.Bd.Prog.{Flash, bd_prog, bd_sync}
use mbed_littlefs.Alloc.{Free, Traversal, alloc}
use mbed_littlefs.Store.{bind, word_at}
use mbed_littlefs.Dir.{Mdir}

-- `struct lfs2_commit`.
pub record Commit : Type 0 where
  pub block : ℕ
  pub off : ℕ
  pub ptag : ℕ
  pub sum : ℕ
  pub begin : ℕ
  pub end : ℕ

-- `struct lfs2_attr`.
pub record UserAttr : Type 0 where
  pub type : ℕ
  pub buffer : List ℕ

-- What the pointer `buffer` of an attribute leads to: bytes in memory, a `struct lfs2_diskoff`, the
-- metadata of a move, the attributes of a user, or nothing.
pub data Buffer : Type 0 where
  memory : List ℕ → Buffer
  disk : ℕ → ℕ → Buffer
  moved : Mdir → Buffer
  user : List UserAttr → Buffer
  null : Buffer

-- The first `n` bytes.
unfoldable pub buffer_bytes : ℕ → Buffer → List ℕ
buffer_bytes n (memory bytes) = take n bytes
buffer_bytes n (disk block off) = []
buffer_bytes n (moved dir) = []
buffer_bytes n (user attrs) = []
buffer_bytes n null = []

-- The block and the offset of a `struct lfs2_diskoff`.
unfoldable pub buffer_disk : Buffer → ℕ × ℕ
buffer_disk (memory bytes) = (0xffffffff, 0)
buffer_disk (disk block off) = (block, off)
buffer_disk (moved dir) = (0xffffffff, 0)
buffer_disk (user attrs) = (0xffffffff, 0)
buffer_disk null = (0xffffffff, 0)

-- `lfs2_dir_commit_size`.
unfoldable pub dir_commit_size : ℕ → ℕ → ℕ
dir_commit_size size tag = u32 (size + tag_dsize tag)

module _ (cfg : Config) (drv : Driver) (host : ByteOrder) where
  open drv use {Dev}

  -- `lfs2_bd_read(lfs2, NULL, &lfs2->rcache, ...)`.
  unfoldable pub read_flash : Flash Dev → ℕ → ℕ → ℕ → ℕ → Outcome (List ℕ) × Flash Dev
  read_flash s hint block off size =
      let (out, dev', rcache') = bd_read cfg drv s.dev none s.rcache hint block off size in
      (out, record s { dev = dev'; rcache = rcache' })

  unfoldable pub dir_commitprog :
      List ℕ → Commit × Flash Dev → Outcome (Unit {0}) × (Commit × Flash Dev)
  dir_commitprog bytes (c, s) =
      let (out, s') = bd_prog cfg drv false s c.block c.off bytes in
      bind (out, (c, s'))
        (λ _ w.
          (ok tt, (record c { sum = crc c.sum bytes; off = u32 (c.off + length bytes) }, w.1)))

  -- The copy of the data from disk, byte by byte, from `off` on; `left` of them are left.
  unfoldable pub commit_copy :
      ℕ → ℕ → ℕ → Commit × Flash Dev → Outcome (Unit {0}) × (Commit × Flash Dev)
  commit_copy block off zero w = (ok tt, w)
  commit_copy block off (suc left) (c, s) =
      let (out, s') = read_flash s (suc left) block (u32 off) 1 in
      bind (out, (c, s'))
        (λ bytes w. bind (dir_commitprog bytes w) (λ _ w'. commit_copy block (off + 1) left w'))

  -- The data of the entry.
  unfoldable pub commit_data :
      ℕ → Buffer → Commit × Flash Dev → Outcome (Unit {0}) × (Commit × Flash Dev)
  commit_data tag buffer w =
      let n = tag_dsize tag - 4 in
      if bit_and tag 0x80000000 == 0
      then dir_commitprog (buffer_bytes n buffer) w
      else (let (block, off) = buffer_disk buffer in commit_copy block off n w)

  unfoldable pub dir_commitattr :
      ℕ → Buffer → Commit × Flash Dev → Outcome (Unit {0}) × (Commit × Flash Dev)
  dir_commitattr tag buffer (c, s) =
      if ltb c.end (u32 (c.off + tag_dsize tag))
      then (err nospc, (c, s))
      else bind
          (dir_commitprog (bytes_of host (tobe32 host (bit_xor (bit_and tag 0x7fffffff) c.ptag)))
            (c, s))
          (λ _ w.
            bind (commit_data tag buffer w)
              (λ _ w'. (ok tt, (record (w'.0) { ptag = bit_and tag 0x7fffffff }, w'.1))))

  -- The word at the next program unit, which is `junk` where the read fails.
  unfoldable pub erased_word : ℕ → Outcome (List ℕ) × Flash Dev → Outcome ℕ × Flash Dev
  erased_word junk (ok bytes, s) = (ok (word_at host bytes 0), s)
  erased_word junk (err corrupt, s) = (ok junk, s)
  erased_word junk (err e, s) = (err e, s)
  erased_word junk (abort, s) = (abort, s)
  erased_word junk (out_of_fuel, s) = (out_of_fuel, s)

  -- The CRC of `left` bytes from `off` on, as they are on disk.
  unfoldable pub check_sum : ℕ → ℕ → ℕ → ℕ → Flash Dev → Outcome ℕ × Flash Dev
  check_sum block off zero sum s = (ok sum, s)
  check_sum block off (suc left) sum s =
      bind (read_flash s (suc left) block (u32 off) 1)
        (λ bytes s'. check_sum block (off + 1) left (crc sum bytes) s')

  -- The tag of the CRC, up to the offset `off`.
  unfoldable pub crc_tag : Commit → ℕ → ℕ → ℕ
  crc_tag c reset off = mktag (type_crc + reset) 0x3ff (off - (c.off + 4))

  -- The commit behind its CRC, and the checksum that is written.
  unfoldable pub footer : Commit → ℕ → ℕ → Commit
  footer c reset off =
      let tag = crc_tag c reset off in
      record c {
        sum = crc c.sum (bytes_of host (tobe32 host (bit_xor tag c.ptag)));
        off = u32 (c.off + (4 + tag_size tag));
        ptag = bit_xor tag (reset <<< 31);
      }

  -- The CRC with its tag, and the check of what is on disk. `word` is what the next program unit
  -- holds, at `off`.
  unfoldable pub commit_footer :
      ℕ → ℕ → Commit × Flash Dev → Outcome (Unit {0}) × (Commit × Flash Dev)
  commit_footer off word (c, s) =
      let reset = if ltb (frombe32 host word) (2 ^ 31) then 1 else 0 in
      let tag = crc_tag c reset off in
      let c' = footer c reset off in
      let bytes =
        bytes_of host (tobe32 host (bit_xor tag c.ptag)) ++ bytes_of host (tole32 host c'.sum) in
      let (out, s1) = bd_prog cfg drv false s c.block c.off bytes in
      bind (out, (record c { sum = c'.sum }, s1))
        (λ _ w1.
          let (synced, s2) = bd_sync cfg drv false w1.1 in
          bind (synced, (c', s2))
            (λ _ w2.
              let (checked, s3) =
                check_sum c.block c.begin (c'.off - tag_size tag - c.begin) 0xffffffff w2.1 in
              bind (checked, (c', s3))
                (λ sum w3. if sum == c'.sum then (ok tt, w3) else (err corrupt, w3))))

  -- `junk` is what the variable `tag` holds where the read of the next program unit fails.
  unfoldable pub dir_commitcrc : ℕ → Commit × Flash Dev → Outcome (Unit {0}) × (Commit × Flash Dev)
  dir_commitcrc junk (c, s) =
      let off = alignup (c.off + 8) cfg.prog_size in
      let (out, s') = erased_word junk (read_flash s 4 c.block off 4) in
      bind (out, (c, s')) (λ word w. commit_footer off word w)

  -- `lfs2_dir_alloc`, over the caches and the allocator: a pair of free blocks, of which the second is
  -- allocated first.
  unfoldable pub dir_alloc :
      Traversal (Flash Dev) → Flash Dev × Free → Outcome Mdir × (Flash Dev × Free)
  dir_alloc t (s, free) =
      let (second, s1, free1) = alloc cfg t s free in
      bind (second, (s1, free1))
        (λ b1 w1.
          let (first, s2, free2) = alloc cfg t w1.0 w1.1 in
          bind (first, (s2, free2))
            (λ b0 w2.
              let (out, s3) = read_flash w2.0 4 b0 0 4 in
              bind (out, (s3, w2.1))
                (λ bytes w3. (
                  ok (record {
                    pair = (b0, b1);
                    rev = fromle32 host (word_at host bytes 0);
                    off = 4;
                    etag = 0xffffffff;
                    count = 0;
                    erased = false;
                    split = false;
                    tail = (0xffffffff, 0xffffffff);
                  }),
                  w3,
                ))))
