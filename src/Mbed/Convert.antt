-- ===== src/Mbed/Convert.antt =====
-- The conversion functions of LittleFileSystem2.cpp between the numbers of lfs2.c and of the platform.
use mbed_littlefs.Base.{
  ℕ, zero, suc, ◌==◌, if◌then◌else◌, bit_and, bit_or, List, [], ◌∷◌, Bool, not, ℤ, pos, negsuc,
}

-- The constants of the C library that the conversions use.
pub record Platform : Type 0 where
  pub eio : ℕ
  pub enoent : ℕ
  pub eexist : ℕ
  pub enotdir : ℕ
  pub eisdir : ℕ
  pub einval : ℕ
  pub enospc : ℕ
  pub enomem : ℕ
  pub eilseq : ℕ
  pub enodev : ℕ
  pub o_rdonly : ℕ
  pub o_wronly : ℕ
  pub o_rdwr : ℕ
  pub o_creat : ℕ
  pub o_excl : ℕ
  pub o_trunc : ℕ
  pub o_append : ℕ
  pub seek_set : ℕ
  pub seek_cur : ℕ
  pub seek_end : ℕ
  pub s_irwxu : ℕ
  pub s_irwxg : ℕ
  pub s_irwxo : ℕ
  pub s_ifdir : ℕ
  pub s_ifreg : ℕ
  pub dt_dir : ℕ
  pub dt_reg : ℕ
  pub dt_unknown : ℕ

-- `- n`.
abbrev pub negate : ℕ → ℤ
negate zero = pos 0
negate (suc n) = negsuc n

-- The switch on `- n`: the case label and the number returned are both negated.
abbrev pub translate : List (ℕ × ℕ) → ℕ → ℤ
translate [] n = negate n
translate ((label, errno) ∷ cases) n = if n == label then negate errno else translate cases n

abbrev pub errors : Platform → List (ℕ × ℕ)
errors p =
    (5, p.eio)
    ∷ (2, p.enoent)
    ∷ (17, p.eexist)
    ∷ (20, p.enotdir)
    ∷ (21, p.eisdir)
    ∷ (22, p.einval)
    ∷ (28, p.enospc)
    ∷ (12, p.enomem)
    ∷ (84, p.eilseq)
    ∷ []

-- A number that is not negative is `LFS2_ERR_OK` or falls to the default case.
unfoldable pub toerror : Platform → ℤ → ℤ
toerror p (pos n) = pos n
toerror p (negsuc n) = translate (errors p) (suc n)

-- `LFS2_O_RDONLY` to `LFS2_O_APPEND`.
abbrev pub rdonly : ℕ
rdonly = 1

abbrev pub wronly : ℕ
wronly = 2

abbrev pub rdwr : ℕ
rdwr = 3

abbrev pub creat : ℕ
creat = 0x0100

abbrev pub excl : ℕ
excl = 0x0200

abbrev pub trunc : ℕ
trunc = 0x0400

abbrev pub append : ℕ
append = 0x0800

-- `b ? flag : 0`.
abbrev pub flag_if : Bool → ℕ → ℕ
flag_if b flag = if b then flag else 0

-- The flags from the seven tests.
abbrev pub flags_of : Bool → Bool → Bool → Bool → Bool → Bool → Bool → ℕ
flags_of r w rw c e t a =
    bit_or
      (bit_or
        (bit_or
          (bit_or (bit_or (bit_or (flag_if r rdonly) (flag_if w wronly)) (flag_if rw rdwr))
            (flag_if c creat))
          (flag_if e excl))
        (flag_if t trunc))
      (flag_if a append)

-- `flags & flag`, as a condition.
abbrev pub has : ℕ → ℕ → Bool
has flags flag = not (bit_and flags flag == 0)

unfoldable pub fromflags : Platform → ℕ → ℕ
fromflags p flags =
    flags_of (bit_and flags 3 == p.o_rdonly) (bit_and flags 3 == p.o_wronly)
      (bit_and flags 3 == p.o_rdwr) (has flags p.o_creat) (has flags p.o_excl) (has flags p.o_trunc)
      (has flags p.o_append)

-- `LFS2_SEEK_SET`, `LFS2_SEEK_CUR` and `LFS2_SEEK_END` are 0, 1 and 2.
abbrev pub fromwhence : Platform → ℕ → ℕ
fromwhence p whence =
    if whence == p.seek_set
    then 0
    else if whence == p.seek_cur
    then 1
    else if whence == p.seek_end
    then 2
    else whence

-- `LFS2_TYPE_REG` is 1, `LFS2_TYPE_DIR` is 2.
abbrev pub tomode : Platform → ℕ → ℕ
tomode p kind =
    let mode = bit_or (bit_or p.s_irwxu p.s_irwxg) p.s_irwxo in
    if kind == 2 then bit_or mode p.s_ifdir else if kind == 1 then bit_or mode p.s_ifreg else 0

abbrev pub totype : Platform → ℕ → ℕ
totype p kind = if kind == 2 then p.dt_dir else if kind == 1 then p.dt_reg else p.dt_unknown
