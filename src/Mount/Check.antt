-- ===== src/Mount/Check.antt =====
-- What the checks of the superblock in `lfs2_mount` keep.
use mbed_littlefs.Base.{
  ℕ, ◌≤◌, ◌≡◌, inl, inr, refl, arith, ◌==◌, ltb, Bool-cases, inval, Outcome, ok, err, abort,
  out_of_fuel,
}
use mbed_littlefs.Store.{bind, bind-keeps}
use mbed_littlefs.Disk.{Superblock}
use mbed_littlefs.Mount.{Buffers, Lfs2, Heap, deinit}
use mbed_littlefs.Mount.Scan.{limit, version_ok, check_superblock}

-- The limits are at most those that the library is built with.
pub record AreLimits (lfs2 : Lfs2) : Type 0 where
  pub name_max : lfs2.name_max ≤ 255
  pub file_max : lfs2.file_max ≤ 2147483647
  pub attr_max : lfs2.attr_max ≤ 1022

-- A check keeps the addresses of the buffers, and the limits within bounds.
pub record Checked (lfs2 lfs2' : Lfs2) : Type 0 where
  pub rcache_at : lfs2'.rcache_at ≡ lfs2.rcache_at
  pub pcache_at : lfs2'.pcache_at ≡ lfs2.pcache_at
  pub free_at : lfs2'.free_at ≡ lfs2.free_at
  pub limits : AreLimits lfs2 → AreLimits lfs2'

-- A limit that is passed is at most the current one.
abbrev LimitEnds : ℕ → Outcome ℕ → Type 0
LimitEnds current (ok n) = n ≤ current
LimitEnds current (err e) = e ≡ inval
LimitEnds current abort = ⊥
LimitEnds current out_of_fuel = ⊥

limit_lem : (stored current : ℕ) → LimitEnds current (limit stored current)
unfolding limit
limit_lem stored current = elim (Bool-cases (stored == 0)) [
  | inl e ↦ rw e (omega arith)
  | inr e ↦ elim (Bool-cases (ltb current stored)) [
    | inl e' ↦ rw (e, e') refl
    | inr e' ↦ rw (e, e') (ground (arith, e'))
  ]
]

abbrev pub CheckEnds : Lfs2 → Outcome (Unit {0}) × Lfs2 → Type 0
CheckEnds lfs2 (ok _, lfs2') = Checked lfs2 lfs2'
CheckEnds lfs2 (err e, lfs2') = (e ≡ inval) × Checked lfs2 lfs2'
CheckEnds lfs2 (abort, lfs2') = ⊥
CheckEnds lfs2 (out_of_fuel, lfs2') = ⊥

attr_lem :
    (lfs2 lfs2' : Lfs2) (out : Outcome ℕ)
    → Checked lfs2 lfs2'
    → LimitEnds lfs2'.attr_max out
    → CheckEnds lfs2 (bind (out, lfs2') (λ attr_max l. (ok tt, record l { attr_max = attr_max })))
attr_lem lfs2 lfs2' (ok n) c le = record {
  rcache_at = c.rcache_at;
  pcache_at = c.pcache_at;
  free_at = c.free_at;
  limits = λ l.
      let l' = c.limits l in
      record {
        name_max = l'.name_max;
        file_max = l'.file_max;
        attr_max = omega (arith, l'.attr_max);
      };
}
attr_lem lfs2 lfs2' (err e) c same = (same, c)
attr_lem lfs2 lfs2' abort c h = h
attr_lem lfs2 lfs2' out_of_fuel c h = h

file_lem :
    (s : Superblock) (lfs2 lfs2' : Lfs2) (out : Outcome ℕ)
    → Checked lfs2 lfs2'
    → LimitEnds lfs2'.file_max out
    → CheckEnds lfs2 (
        bind
          (out, lfs2')
          (λ file_max l.
            bind
              (limit s.attr_max l.attr_max, record l { file_max = file_max })
              (λ attr_max l. (ok tt, record l { attr_max = attr_max }))))
file_lem s lfs2 lfs2' (ok n) c le =
    let c' : Checked lfs2 (record lfs2' { file_max = n }) = record {
      rcache_at = c.rcache_at;
      pcache_at = c.pcache_at;
      free_at = c.free_at;
      limits = λ l.
          let l' = c.limits l in
          record {
            name_max = l'.name_max;
            file_max = omega (arith, l'.file_max);
            attr_max = l'.attr_max;
          };
    } in
    attr_lem lfs2 (record lfs2' { file_max = n }) (limit s.attr_max lfs2'.attr_max) c'
      (limit_lem s.attr_max lfs2'.attr_max)
file_lem s lfs2 lfs2' (err e) c same = (same, c)
file_lem s lfs2 lfs2' abort c h = h
file_lem s lfs2 lfs2' out_of_fuel c h = h

unchanged : (lfs2 : Lfs2) → Checked lfs2 lfs2
unchanged lfs2 = record { rcache_at = refl; pcache_at = refl; free_at = refl; limits = λ l. l }

name_lem :
    (s : Superblock) (lfs2 : Lfs2) (out : Outcome ℕ)
    → LimitEnds lfs2.name_max out
    → CheckEnds lfs2 (
        bind
          (out, lfs2)
          (λ name_max l.
            bind
              (limit s.file_max l.file_max, record l { name_max = name_max })
              (λ file_max l.
                bind
                  (limit s.attr_max l.attr_max, record l { file_max = file_max })
                  (λ attr_max l. (ok tt, record l { attr_max = attr_max })))))
name_lem s lfs2 (ok n) le =
    let c' : Checked lfs2 (record lfs2 { name_max = n }) = record {
      rcache_at = refl;
      pcache_at = refl;
      free_at = refl;
      limits = λ l. record {
        name_max = omega (arith, l.name_max);
        file_max = l.file_max;
        attr_max = l.attr_max;
      };
    } in
    file_lem s lfs2 (record lfs2 { name_max = n }) (limit s.file_max lfs2.file_max) c'
      (limit_lem s.file_max lfs2.file_max)
name_lem s lfs2 (err e) same = (same, unchanged lfs2)
name_lem s lfs2 abort h = h
name_lem s lfs2 out_of_fuel h = h

pub check_superblock_lem : (s : Superblock) (lfs2 : Lfs2) → CheckEnds lfs2 (check_superblock s lfs2)
unfolding check_superblock
check_superblock_lem s lfs2 = elim (Bool-cases (version_ok s.version)) [
  | inl e ↦ rw e (name_lem s lfs2 _ (limit_lem s.name_max lfs2.name_max))
  | inr e ↦ rw e (refl, unchanged lfs2)
]

-- The read cache and the pending global state are not touched.
pub check_superblock_keeps :
    (s : Superblock) (lfs2 : Lfs2)
    → let lfs2' = (check_superblock s lfs2).1 in
      (lfs2'.rcache ≡ lfs2.rcache) × (lfs2'.gpending ≡ lfs2.gpending)
unfolding check_superblock
check_superblock_keeps s lfs2 = elim (Bool-cases (version_ok s.version)) [
  | inl e ↦ rw e (
      bind-keeps Same (limit s.name_max lfs2.name_max, lfs2) _ (refl, refl)
        (λ a _.
          bind-keeps Same (limit s.file_max lfs2.file_max, record lfs2 { name_max = a }) _
            (refl, refl)
            (λ b _.
              bind-keeps Same
                (limit s.attr_max lfs2.attr_max, record lfs2 { name_max = a; file_max = b }) _
                (refl, refl) (λ c _. (refl, refl)))))
  | inr e ↦ rw e (refl, refl)
]
  where
    Same : Lfs2 → Type 0
    Same l = (l.rcache ≡ lfs2.rcache) × (l.gpending ≡ lfs2.gpending)

-- `lfs2_deinit` looks at the addresses of the buffers alone.
pub deinit_same :
    (buffers : Buffers) (lfs2 lfs2' : Lfs2) (h : Heap)
    → Checked lfs2 lfs2'
    → deinit buffers lfs2' h ≡ deinit buffers lfs2 h
unfolding deinit
deinit_same buffers lfs2 lfs2' h c = rw (c.rcache_at, c.pcache_at, c.free_at) refl
