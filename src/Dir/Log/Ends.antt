-- ===== src/Dir/Log/Ends.antt =====
-- Where the log ends after the append of a commit by `lfs2_dir_commit` of littlefs/lfs2.c.
use native.Mathlib.Decide.{dec_le}
use native.Mathlib.Nat.{mul-mod_left}
use mbed_littlefs.Base.Multiple.{le_of_multiple, sub_multiple, multiple_trans}
use mbed_littlefs.Base.{
  ℕ, ◌+◌, ◌-◌, ◌%◌, ◌/◌, ◌^◌, ◌≤◌, ◌<◌, ◌≡◌, refl, ◌∙◌, ap, arith, Bool, Bool-cases, true, false,
  inl, inr, ltb, ◌==◌, if◌then◌else◌, List, ◌++◌, Outcome, ok, err, abort, out_of_fuel, sub32,
  corrupt, nospc, bit_xor,
}
use mbed_littlefs.Util.{ByteOrder, bytes_of, tobe32, tole32, alignup, frombe32}
use mbed_littlefs.Util.Align.{alignup_least}
use mbed_littlefs.Tag.{mktag, tag_size, type_crc, type_movestate, Pair, pair_tole32}
use mbed_littlefs.Tag.Layout.{tag_size_lem, mktag_sum}
use mbed_littlefs.Gstate.{Gstate, Globals, gstate_iszero}
use mbed_littlefs.Device.{Config, Driver, Cache, IsConfig, IsDevice}
use mbed_littlefs.Bd.Prog.{Flash, bd_prog, bd_sync}
use mbed_littlefs.Store.{bind, bind-keeps}
use mbed_littlefs.Dir.{Mdir}
use mbed_littlefs.Dir.Commit.{
  Commit, Buffer, memory, read_flash, dir_commitattr, dir_commitcrc, commit_footer, footer, crc_tag,
  check_sum, erased_word,
}
use mbed_littlefs.Dir.Commit.Bounds.{Fits, commitattr-Fits}
use mbed_littlefs.Dir.Handles.{Mattr}
use mbed_littlefs.Dir.Traverse.{Source, Range, all_tags, dir_traverse}
use mbed_littlefs.Dir.Traverse.Keeps.{dir_traverse-Keeps}
use mbed_littlefs.Dir.Log.{
  Written, goes_on, dir_commit_commit, commit_entries, commit_getgstate, commit_gdelta,
  gdelta_bytes, or_compact, append_gdelta, append_crc, append_commit,
}

-- What holds of the state after a sequence of calls that ends well, if it holds after the second call
-- where that does.
bind-ok :
    {S A B : Type 0} (Q : S → Type 0) (b : B) (r : Outcome A × S) (next : A → S → Outcome B × S)
    → ((a : A) → r.0 ≡ ok a → (next a r.1).0 ≡ ok b → Q (next a r.1).1)
    → (bind r next).0 ≡ ok b
    → Q (bind r next).1
bind-ok Q b (ok a, s) next there e = there a refl e
bind-ok Q b (err x, s) next there e = cc
bind-ok Q b (abort, s) next there e = cc
bind-ok Q b (out_of_fuel, s) next there e = cc

module _ (cfg : Config) (drv : Driver) (conf : IsConfig cfg) (device : IsDevice cfg drv)
    (host : ByteOrder) (few : cfg.prog_size ≤ 512) where
  open drv use {Dev}

  -- The commit behind its CRC ends at the next program unit.
  footer_off :
      (c : Commit) (reset : ℕ)
      → reset ≤ 1
      → c.off < 2 ^ 31
      → (footer cfg drv host c reset (alignup (c.off + 8) cfg.prog_size)).off
        ≡ alignup (c.off + 8) cfg.prog_size
  unfolding footer crc_tag
  footer_off c reset le small =
      let off = alignup (c.off + 8) cfg.prog_size in
      let (multiple, above, below) =
        alignup_least (c.off + 8) cfg.prog_size conf.prog_pos (omega arith) in
      let n = off - (c.off + 4) in
      let sum = mktag_sum (type_crc + reset) 0x3ff n (omega arith) (omega arith) (omega arith) in
      let size : tag_size (mktag (type_crc + reset) 0x3ff n) ≡ n =
        omega (arith, tag_size_lem (mktag (type_crc + reset) 0x3ff n), sum) in
      omega (arith, size)

  commit_footer_ok :
      (word : ℕ) (c : Commit) (s : Flash Dev)
      → c.off < 2 ^ 31
      → let r = commit_footer cfg drv host (alignup (c.off + 8) cfg.prog_size) word (c, s) in
        r.0 ≡ ok tt → r.1.0.off ≡ alignup (c.off + 8) cfg.prog_size
  unfolding commit_footer
  commit_footer_ok word c s small e =
      let off = alignup (c.off + 8) cfg.prog_size in
      let reset = if ltb (frombe32 host word) (2 ^ 31) then 1 else 0 in
      let tag = crc_tag cfg drv host c reset off in
      let c' = footer cfg drv host c reset off in
      let bytes =
        bytes_of host (tobe32 host (bit_xor tag c.ptag)) ++ bytes_of host (tole32 host c'.sum) in
      let p = bd_prog cfg drv false s c.block c.off bytes in
      let at_end : c'.off ≡ off = footer_off c reset (ground arith) small in
      bind-ok {S = Commit × Flash Dev} (λ w. w.0.off ≡ off) tt
        (p.0, (record c { sum = c'.sum }, p.1)) _
        (λ _ _ e1.
          let q = bd_sync cfg drv false p.1 in
          bind-ok {S = Commit × Flash Dev} (λ w. w.0.off ≡ off) tt (q.0, (c', q.1)) _
            (λ _ _ e2.
              let r =
                check_sum cfg drv host c.block c.begin (c'.off - tag_size tag - c.begin) 0xffffffff
                  q.1 in
              bind-ok {S = Commit × Flash Dev} (λ w. w.0.off ≡ off) tt (r.0, (c', r.1)) _
                (λ sum _ e3. elim (Bool-cases (sum == c'.sum)) [
                  | inl f ↦ rw f at_end
                  | inr f ↦ rw f at_end
                ])
                e2)
            e1)
        e

  -- A CRC that is written ends at the next program unit.
  pub commitcrc_ok :
      (junk : ℕ) (c : Commit) (s : Flash Dev)
      → c.off < 2 ^ 31
      → (dir_commitcrc cfg drv host junk (c, s)).0 ≡ ok tt
      → (dir_commitcrc cfg drv host junk (c, s)).1.0.off ≡ alignup (c.off + 8) cfg.prog_size
  unfolding dir_commitcrc
  commitcrc_ok junk c s small e =
      let off = alignup (c.off + 8) cfg.prog_size in
      let r = erased_word cfg drv host junk (read_flash cfg drv host s 4 c.block off 4) in
      bind-ok {S = Commit × Flash Dev} (λ w. w.0.off ≡ off) tt (r.0, (c, r.1)) _
        (λ word _ e1. commit_footer_ok word c r.1 small e1) e

  pub Fits-self : (c : Commit) → c.off ≤ c.end → Fits cfg drv device host c c
  Fits-self c le = record { same_block = refl; same_begin = refl; same_end = refl; off_le = le }

  pub attr_again :
      (c c' : Commit) (tag : ℕ) (buffer : Buffer) (s : Flash Dev)
      → c.end < 2 ^ 31
      → Fits cfg drv device host c c'
      → Fits cfg drv device host c (dir_commitattr cfg drv host tag buffer (c', s)).1.0
  attr_again c c' tag buffer s small fits =
      let last = fits.same_end in
      let again =
        commitattr-Fits cfg drv device host tag buffer c' s (omega (arith, last))
          (omega (arith, last, fits.off_le)) in
      record {
        same_block = again.same_block ∙ fits.same_block;
        same_begin = again.same_begin ∙ fits.same_begin;
        same_end = again.same_end ∙ fits.same_end;
        off_le = omega (arith, again.off_le, last);
      }

  goes_on_state : {S : Type 0} (r : Outcome (Unit {0}) × S) → (goes_on cfg drv host r).1 ≡ r.1
  unfolding goes_on
  goes_on_state (ok u, s) = refl
  goes_on_state (err e, s) = refl
  goes_on_state (abort, s) = refl
  goes_on_state (out_of_fuel, s) = refl

  commit_commit-Fits :
      (c : Commit) (tag : ℕ) (buffer : Buffer) (d : Commit × Cache) (s : Dev × Cache)
      → c.end < 2 ^ 31
      → Fits cfg drv device host c d.0
      → Fits cfg drv device host c (dir_commit_commit cfg drv host tag buffer (d, s)).1.0.0
  unfolding dir_commit_commit
  commit_commit-Fits c tag buffer (c', pcache) (dev, rcache) small fits =
      let (out, w) =
        dir_commitattr cfg drv host tag buffer
          (c', record { dev = dev; pcache = pcache; rcache = rcache }) in
      rw
        (goes_on_state {S = (Commit × Cache) × (Dev × Cache)}
          (out, ((w.0, w.1.pcache), (w.1.dev, w.1.rcache))))
        (attr_again c c' tag buffer (record { dev = dev; pcache = pcache; rcache = rcache }) small
          fits)

  pub entries-Fits :
      (fuel : ℕ) (gpending : Gstate) (src : Source) (range : Range) (c : Commit) (s : Flash Dev)
      → c.end < 2 ^ 31
      → c.off ≤ c.end
      → Fits cfg drv device host c (commit_entries cfg drv host fuel gpending src range (c, s)).1.0
  unfolding commit_entries
  entries-Fits fuel gpending src range c s small le =
      let r =
        dir_traverse cfg drv host gpending (Commit × Cache) fuel (dir_commit_commit cfg drv host)
          src range ((c, s.pcache), (s.dev, s.rcache)) in
      let fits : Fits cfg drv device host c r.1.0.0 =
        dir_traverse-Keeps cfg drv host gpending (λ d. Fits cfg drv device host c d.0)
          (dir_commit_commit cfg drv host)
          (λ tag buffer d s' h. commit_commit-Fits c tag buffer d s' small h) fuel src range
          (c, s.pcache) (s.dev, s.rcache) (Fits-self c le) in
      bind-keeps {S = Commit × Flash Dev} (λ w. Fits cfg drv device host c w.0)
        (r.0, (r.1.0.0, record { dev = r.1.1.0; pcache = r.1.0.1; rcache = r.1.1.1 })) _ fits
        (λ _ _. fits)

  -- How writing to the log of a directory ends: what is done ends at a program unit of the block, in
  -- the pair, and everything else leaves the directory as it was.
  abbrev pub Logged : Pair → Mdir → Outcome Bool × (Written × Flash Dev) → Type 0
  Logged pair dir (ok true, v) =
      (v.0.dir.pair ≡ pair) × (v.0.dir.off ≤ cfg.block_size) × (v.0.dir.off % cfg.prog_size ≡ 0)
  Logged pair dir (ok false, v) = v.0.dir ≡ dir
  Logged pair dir (err e, v) = v.0.dir ≡ dir
  Logged pair dir (abort, v) = v.0.dir ≡ dir
  Logged pair dir (out_of_fuel, v) = v.0.dir ≡ dir

  or_compact-Logged :
      (dir : Mdir) (out : Outcome (Unit {0})) (v : Written × Flash Dev)
      (next : Written × Flash Dev → Outcome Bool × (Written × Flash Dev))
      → v.0.dir ≡ dir
      → (out ≡ ok tt → Logged dir.pair dir (next v))
      → Logged dir.pair dir (or_compact cfg drv host (out, v) next)
  unfolding or_compact
  or_compact-Logged dir (ok u) v next same done = done refl
  or_compact-Logged dir (err nospc) v next same done = same
  or_compact-Logged dir (err corrupt) v next same done = same
  or_compact-Logged dir (err e) v next same done = same
  or_compact-Logged dir abort v next same done = same
  or_compact-Logged dir out_of_fuel v next same done = same

  pub bind-Logged :
      (pair : Pair) (dir : Mdir) {A : Type 0} (out : Outcome A) (v : Written × Flash Dev)
      (next : A → Written × Flash Dev → Outcome Bool × (Written × Flash Dev))
      → v.0.dir ≡ dir
      → ((a : A) → Logged pair dir (next a v))
      → Logged pair dir (bind (out, v) next)
  bind-Logged pair dir (ok a) v next same done = done a
  bind-Logged pair dir (err e) v next same done = same
  bind-Logged pair dir abort v next same done = same
  bind-Logged pair dir out_of_fuel v next same done = same

  -- The program unit in which a commit with its CRC ends is one of the block.
  pub unit_lem :
      (off : ℕ)
      → off + 8 ≤ cfg.block_size
      → (alignup (off + 8) cfg.prog_size ≤ cfg.block_size)
        × (alignup (off + 8) cfg.prog_size % cfg.prog_size ≡ 0)
  unit_lem off le =
      let p = cfg.prog_size in
      let a = alignup (off + 8) p in
      let (multiple, above, below) =
        alignup_least (off + 8) p conf.prog_pos (omega (arith, conf.small)) in
      let even : a % p ≡ 0 =
        omega (arith, ap (λ k. k % p) multiple, mul-mod_left ((off + 8 + p - 1) / p) p) in
      let block = multiple_trans cfg.block_size cfg.cache_size p conf.block_cache conf.cache_prog in
      (
        elim (dec_le a cfg.block_size) [
          | yes h ↦ h
          | no h ↦ absurd (
              omega (
                arith,
                below,
                le,
                le_of_multiple (a - cfg.block_size) p
                    (sub_multiple a cfg.block_size p even block (omega arith)) (omega arith),
              ))
        ],
        even,
      )

  crc-Logged :
      (junk : ℕ) (dir : Mdir) (g : Globals) (c : Commit) (s : Flash Dev)
      → c.off + 8 ≤ cfg.block_size
      → Logged dir.pair dir (append_crc cfg drv host junk dir g (c, s))
  unfolding append_crc
  crc-Logged junk dir g c s le =
      let r = dir_commitcrc cfg drv host junk (c, s) in
      or_compact-Logged dir r.0 (record { dir = dir; globals = g }, r.1.1) _ refl
        (λ e.
          let (fits, even) = unit_lem c.off le in
          let ends = commitcrc_ok junk c s (omega (arith, conf.small)) e in
          (refl, omega (arith, ends, fits), ap (λ k. k % cfg.prog_size) ends ∙ even))

  gdelta-Logged :
      (dir : Mdir) (next : Globals → Commit × Flash Dev → Outcome Bool × (Written × Flash Dev))
      (g : Globals) (c : Commit) (s : Flash Dev)
      → c.end < 2 ^ 31
      → c.off ≤ c.end
      → ((g' : Globals) (c' : Commit) (s' : Flash Dev)
          → Fits cfg drv device host c c'
          → Logged dir.pair dir (next g' (c', s')))
      → Logged dir.pair dir (append_gdelta cfg drv host dir next g (c, s))
  unfolding append_gdelta commit_gdelta
  gdelta-Logged dir next g c s small le rest = elim (Bool-cases (gstate_iszero g.gdelta)) [
    | inl e ↦ rw e (rest g c s (Fits-self c le))
    | inr e ↦
        let f = commit_getgstate cfg drv host dir (g, s) in
        rw e (
          bind-Logged dir.pair dir f.0 (record { dir = dir; globals = f.1.0 }, f.1.1) _ refl
            (λ _.
              let tag = mktag type_movestate 0x3ff 12 in
              let buffer = memory (gdelta_bytes host f.1.0.gdelta) in
              let p = dir_commitattr cfg drv host tag buffer (c, f.1.1) in
              or_compact-Logged dir p.0 (record { dir = dir; globals = f.1.0 }, p.1.1) _ refl
                (λ _.
                  rest f.1.0 p.1.0 p.1.1 (attr_again c c tag buffer f.1.1 small (Fits-self c le)))))
  ]

  -- When the append of a commit by `lfs2_dir_commit`, to a directory with room for a CRC behind its log,
  -- on blocks of a multiple of the program size, which is at most 512, is done, the log is in the same
  -- pair and ends in the block and at a multiple of the program size. When it is not done, for lack of
  -- room, an error or an assertion, the directory is as it was.
  pub append_commit-Logged :
      (fuel junk : ℕ) (attrs : List Mattr) (w : Written) (s : Flash Dev)
      → w.dir.off + 8 ≤ cfg.block_size
      → Logged w.dir.pair w.dir (append_commit cfg drv host fuel junk attrs (w, s))
  unfolding append_commit
  append_commit-Logged fuel junk attrs w s le =
      let dir = w.dir in
      let end : sub32 cfg.block_size 8 ≡ cfg.block_size - 8 = omega (arith, conf.small) in
      let start : Commit = record {
        block = dir.pair.0;
        off = dir.off;
        ptag = dir.etag;
        sum = 0xffffffff;
        begin = dir.off;
        end = sub32 cfg.block_size 8;
      } in
      let src : Source = record {
        dir = record dir { tail = pair_tole32 host dir.tail };
        off = dir.off;
        ptag = dir.etag;
        attrs = attrs;
        hasseenmove = false;
      } in
      let small : start.end < 2 ^ 31 = omega (arith, end, conf.small) in
      let within : start.off ≤ start.end = omega (arith, end) in
      let r = commit_entries cfg drv host fuel w.globals.gpending src all_tags (start, s) in
      let fits = entries-Fits fuel w.globals.gpending src all_tags start s small within in
      let last = fits.same_end in
      or_compact-Logged dir r.0 (w, r.1.1) _ refl
        (λ _.
          gdelta-Logged dir (append_crc cfg drv host junk dir) w.globals r.1.0 r.1.1
            (omega (arith, last, small)) (omega (arith, last, fits.off_le))
            (λ g' c' s' fits'.
              crc-Logged junk dir g' c' s' (omega (arith, fits'.off_le, last, end))))
