-- ===== src/Dir/Commit/Bounds.antt =====
-- Where the entries of a commit end in the block, in littlefs/lfs2.c.
use mathlib.Core.Path.{subst}
use mbed_littlefs.Base.{
  ℕ, zero, suc, ◌+◌, ◌-◌, ◌^◌, ◌≤◌, ◌<◌, ◌≡◌, refl, ◌∙◌, arith, Bool-cases, false, inl, inr, ltb,
  ◌==◌, if◌then◌else◌, List, length, length-take, ok, u32, bit_and, bit_xor,
}
use mbed_littlefs.Util.{ByteOrder, little_endian, big_endian, bytes_of, tobe32}
use mbed_littlefs.Tag.{tag_isdelete, tag_dsize}
use mbed_littlefs.Tag.Layout.{tag_size_lem}
use mbed_littlefs.Device.{Config, Driver, IsDevice}
use mbed_littlefs.Bd.Prog.{Flash, bd_prog}
use mbed_littlefs.Bd.Length.{IsShort, bd_read-IsShort}
use mbed_littlefs.Store.{bind-keeps}
use mbed_littlefs.Dir.Commit.{
  Commit, Buffer, memory, disk, moved, user, null, buffer_bytes, buffer_disk, read_flash,
  dir_commitprog, commit_copy, commit_data, dir_commitattr,
}

-- An entry takes the four bytes of its tag and at most 0x3ff more.
dsize_le : (tag : ℕ) → (4 ≤ tag_dsize tag) × (tag_dsize tag ≤ 4 + 0x3ff)
unfolding tag_dsize
dsize_le tag = ground (arith, tag_size_lem (u32 (tag + (if tag_isdelete tag then 1 else 0))))

pub length-bytes_of : (host : ByteOrder) (a : ℕ) → length (bytes_of host a) ≡ 4
length-bytes_of little_endian a = refl
length-bytes_of big_endian a = refl

length-buffer_bytes : (n : ℕ) (buffer : Buffer) → length (buffer_bytes n buffer) ≤ n
unfolding buffer_bytes
length-buffer_bytes n (memory bytes) = omega (arith, length-take n bytes)
length-buffer_bytes n (disk block off) = omega arith
length-buffer_bytes n (moved dir) = omega arith
length-buffer_bytes n (user attrs) = omega arith
length-buffer_bytes n null = omega arith

-- The commit goes on by at most `n` bytes.
pub record Grows (n : ℕ) (c c' : Commit) : Type 0 where
  pub same_block : c'.block ≡ c.block
  pub same_begin : c'.begin ≡ c.begin
  pub same_end : c'.end ≡ c.end
  pub off_le : c'.off ≤ c.off + n

Grows-more : {n m : ℕ} {c c' c'' : Commit} → Grows n c c' → Grows m c' c'' → Grows (n + m) c c''
Grows-more g h = record {
  same_block = h.same_block ∙ g.same_block;
  same_begin = h.same_begin ∙ g.same_begin;
  same_end = h.same_end ∙ g.same_end;
  off_le = omega (arith, g.off_le, h.off_le);
}

stays : (n : ℕ) (c : Commit) → Grows n c c
stays n c = record { same_block = refl; same_begin = refl; same_end = refl; off_le = omega arith }

pub Grows-le : {n m : ℕ} {c c' : Commit} → n ≤ m → Grows n c c' → Grows m c c'
Grows-le le g = record {
  same_block = g.same_block;
  same_begin = g.same_begin;
  same_end = g.same_end;
  off_le = omega (arith, g.off_le);
}

module _ (cfg : Config) (drv : Driver) (device : IsDevice cfg drv) (host : ByteOrder) where
  open drv use {Dev}

  pub commitprog-Grows :
      (bytes : List ℕ) (c : Commit) (s : Flash Dev)
      → Grows (length bytes) c (dir_commitprog cfg drv host bytes (c, s)).1.0
  unfolding dir_commitprog
  commitprog-Grows bytes c s =
      bind-keeps {S = Commit × Flash Dev} (λ w. Grows (length bytes) c w.0)
        (
          (bd_prog cfg drv false s c.block c.off bytes).0,
          (c, (bd_prog cfg drv false s c.block c.off bytes).1),
        )
        _ (stays (length bytes) c)
        (λ a e. record {
          same_block = refl;
          same_begin = refl;
          same_end = refl;
          off_le = omega arith;
        })

  short_read :
      (bytes : List ℕ) (s : Flash Dev) (hint block off size : ℕ)
      → (read_flash cfg drv host s hint block off size).0 ≡ ok bytes
      → length bytes ≤ size
  unfolding read_flash
  short_read bytes s hint block off size e =
      subst (IsShort size) e (bd_read-IsShort cfg drv device s.dev s.rcache hint block off size)

  copy-Grows :
      (block off left : ℕ) (c : Commit) (s : Flash Dev)
      → Grows left c (commit_copy cfg drv host block off left (c, s)).1.0
  unfolding commit_copy
  copy-Grows block off zero c s = stays 0 c
  copy-Grows block off (suc left) c s =
      let r = read_flash cfg drv host s (suc left) block (u32 off) 1 in
      bind-keeps {S = Commit × Flash Dev} (λ w. Grows (suc left) c w.0) (r.0, (c, r.1)) _
        (stays (suc left) c)
        (λ bytes e.
          let p = dir_commitprog cfg drv host bytes (c, r.1) in
          let one =
            Grows-le {m = 1} (short_read bytes s (suc left) block (u32 off) 1 e)
              (commitprog-Grows bytes c r.1) in
          bind-keeps {S = Commit × Flash Dev} (λ w. Grows (suc left) c w.0) p _
            (Grows-le (omega arith) one)
            (λ _ _.
              Grows-le (omega arith)
                (Grows-more one (copy-Grows block (off + 1) left p.1.0 p.1.1))))

  data-Grows :
      (tag : ℕ) (buffer : Buffer) (c : Commit) (s : Flash Dev)
      → Grows (tag_dsize tag - 4) c (commit_data cfg drv host tag buffer (c, s)).1.0
  unfolding commit_data
  data-Grows tag buffer c s = elim (Bool-cases (bit_and tag 0x80000000 == 0)) [
    | inl e ↦ rw e (
        Grows-le (length-buffer_bytes (tag_dsize tag - 4) buffer)
          (commitprog-Grows (buffer_bytes (tag_dsize tag - 4) buffer) c s))
    | inr e ↦
        rw e (copy-Grows (buffer_disk buffer).0 (buffer_disk buffer).1 (tag_dsize tag - 4) c s)
  ]

  -- The commit has the same block and bounds, and does not pass its end.
  pub record Fits (c c' : Commit) : Type 0 where
    pub same_block : c'.block ≡ c.block
    pub same_begin : c'.begin ≡ c.begin
    pub same_end : c'.end ≡ c.end
    pub off_le : c'.off ≤ c.end

  pub Grows-Fits : {n : ℕ} {c c' : Commit} → c.off + n ≤ c.end → Grows n c c' → Fits c c'
  Grows-Fits le g = record {
    same_block = g.same_block;
    same_begin = g.same_begin;
    same_end = g.same_end;
    off_le = omega (arith, g.off_le);
  }

  -- An entry that is written, or that does not fit, or that fails in the middle, leaves the commit
  -- within its bounds.
  pub commitattr-Fits :
      (tag : ℕ) (buffer : Buffer) (c : Commit) (s : Flash Dev)
      → c.end < 2 ^ 31
      → c.off ≤ c.end
      → Fits c (dir_commitattr cfg drv host tag buffer (c, s)).1.0
  unfolding dir_commitattr
  commitattr-Fits tag buffer c s small le =
      let sizes = dsize_le tag in
      elim (Bool-cases (ltb c.end (u32 (c.off + tag_dsize tag)))) [
        | inl e ↦ rw e (Grows-Fits (omega arith) (stays 0 c))
        | inr e ↦
            let fits : c.off + tag_dsize tag ≤ c.end = ground (arith, sizes) in
            let head = bytes_of host (tobe32 host (bit_xor (bit_and tag 0x7fffffff) c.ptag)) in
            let p = dir_commitprog cfg drv host head (c, s) in
            let four : length head ≤ 4 = omega (
              arith,
              length-bytes_of host (tobe32 host (bit_xor (bit_and tag 0x7fffffff) c.ptag)),
            ) in
            let first = Grows-le four (commitprog-Grows head c s) in
            let q = commit_data cfg drv host tag buffer p.1 in
            let both = Grows-more first (data-Grows tag buffer p.1.0 p.1.1) in
            let all : Fits c q.1.0 = Grows-Fits (omega (arith, sizes)) both in
            rw e (
              bind-keeps {S = Commit × Flash Dev} (λ w. Fits c w.0) p _
                (Grows-Fits (omega (arith, sizes)) first)
                (λ _ _.
                  bind-keeps {S = Commit × Flash Dev} (λ w. Fits c w.0) q _ all
                    (λ _ _. record {
                      same_block = all.same_block;
                      same_begin = all.same_begin;
                      same_end = all.same_end;
                      off_le = all.off_le;
                    })))
      ]
