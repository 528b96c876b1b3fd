-- ===== src/Mbed/Codes.antt =====
-- What the conversions of LittleFileSystem2.cpp keep of the numbers that they convert.
use mbed_littlefs.Base.{
  ℕ, zero, suc, ◌+◌, ◌<◌, ◌≡◌, refl, arith, ◌==◌, ==_iff, ◌∙◌, if◌then◌else◌, bit_and, List, [],
  ◌∷◌, Bool, true, false, not, ◌&&◌, Bool-cases, inl, inr, ℤ, pos, negsuc,
}
use mbed_littlefs.Bits.Field.{and_low}
use mbed_littlefs.Mbed.Convert.{
  Platform, negate, translate, errors, toerror, creat, excl, trunc, append, flags_of, has,
  fromflags,
}

-- The error numbers of the platform are positive.
pub record IsPlatform (p : Platform) : Type 0 where
  pub eio : 0 < p.eio
  pub enoent : 0 < p.enoent
  pub eexist : 0 < p.eexist
  pub enotdir : 0 < p.enotdir
  pub eisdir : 0 < p.eisdir
  pub einval : 0 < p.einval
  pub enospc : 0 < p.enospc
  pub enomem : 0 < p.enomem
  pub eilseq : 0 < p.eilseq
  pub enodev : 0 < p.enodev

-- The number is negative.
abbrev pub IsNegative : ℤ → Type 0
IsNegative (pos n) = ⊥
IsNegative (negsuc n) = Unit {0}

abbrev pub IsPositiveTable : List (ℕ × ℕ) → Type 0
IsPositiveTable [] = Unit {0}
IsPositiveTable ((label, errno) ∷ cases) = (0 < errno) × IsPositiveTable cases

pub negate-IsNegative : (n : ℕ) → 0 < n → IsNegative (negate n)
negate-IsNegative zero h = absurd (omega arith)
negate-IsNegative (suc n) h = tt

translate-IsNegative :
    (table : List (ℕ × ℕ)) (n : ℕ) → IsPositiveTable table → IsNegative (translate table (suc n))
translate-IsNegative [] n h = tt
translate-IsNegative ((label, errno) ∷ cases) n (h, hs) = elim (Bool-cases (suc n == label)) [
  | inl e ↦ rw e (negate-IsNegative errno h)
  | inr e ↦ rw e (translate-IsNegative cases n hs)
]

-- The codes that the switch names.
abbrev is_named : ℕ → Bool
is_named n =
    if n == 5
    then true
    else if n == 2
    then true
    else if n == 17
    then true
    else if n == 20
    then true
    else if n == 21
    then true
    else if n == 22
    then true
    else if n == 28
    then true
    else if n == 12
    then true
    else n == 84

untranslated : (p : Platform) (n : ℕ) → is_named n ≡ false → translate (errors p) n ≡ negate n
untranslated p n h = ground arith

-- A number that is not negative comes out unchanged, a negative one comes out negative where the
-- error numbers of the platform are positive, and a code that the switch does not name, as
-- LFS2_ERR_NOTEMPTY, comes out as lfs2.c has it.
pub toerror_sign :
    (p : Platform)
    → IsPlatform p
    → ((n : ℕ) → toerror p (pos n) ≡ pos n)
      × ((n : ℕ) → IsNegative (toerror p (negsuc n)))
      × ((n : ℕ) → is_named (suc n) ≡ false → toerror p (negsuc n) ≡ negsuc n)
unfolding toerror
toerror_sign p h =
    let positive : IsPositiveTable (errors p) = (
      h.eio,
      (
        h.enoent,
        (h.eexist, (h.enotdir, (h.eisdir, (h.einval, (h.enospc, (h.enomem, (h.eilseq, tt))))))),
      ),
    ) in
    (λ n. refl, λ n. translate-IsNegative (errors p) n positive, λ n e. untranslated p (suc n) e)

agree : Bool → Bool → Bool
agree true b = b
agree false b = not b

agree_eq : (x y : Bool) → agree x y ≡ true → x ≡ y
unfolding agree
agree_eq true true h = refl
agree_eq true false h = ground arith
agree_eq false true h = ground arith
agree_eq false false h = refl

and_split : (x y : Bool) → (x && y) ≡ true → (x ≡ true) × (y ≡ true)
and_split true y h = (refl, h)
and_split false y h = absurd (ground arith)

-- Both Booleans pass the test.
abbrev both : (Bool → Bool) → Bool
both test = test true && test false

both_at : (test : Bool → Bool) (b : Bool) → both test ≡ true → test b ≡ true
both_at test true h = ground arith
both_at test false h = ground arith

-- The access mode from its three tests.
abbrev pub access : Bool → Bool → Bool → ℕ
access r w rw = bit_and (flags_of r w rw false false false false) 3

abbrev flag_tests : Bool → Bool → Bool → Bool → Bool → Bool → Bool → Bool
flag_tests r w rw c e t a =
    let flags = flags_of r w rw c e t a in
    agree (has flags creat) c
    && (agree (has flags excl) e
        && (agree (has flags trunc) t
            && (agree (has flags append) a && (bit_and flags 3 == access r w rw))))

every_flag : (r w rw c e t a : Bool) → flag_tests r w rw c e t a ≡ true
unfolding agree
every_flag r w rw c e t a =
    both_at (λ a. flag_tests r w rw c e t a) a
      (both_at (λ t. both (λ a. flag_tests r w rw c e t a)) t
        (both_at (λ e. both (λ t. both (λ a. flag_tests r w rw c e t a))) e
          (both_at (λ c. both (λ e. both (λ t. both (λ a. flag_tests r w rw c e t a)))) c
            (both_at
              (λ rw. both (λ c. both (λ e. both (λ t. both (λ a. flag_tests r w rw c e t a))))) rw
              (both_at
                (λ w.
                  both (λ rw.
                    both (λ c. both (λ e. both (λ t. both (λ a. flag_tests r w rw c e t a))))))
                w
                (both_at
                  (λ r. both (λ w. both (λ rw.
                    both (λ c. both (λ e. both (λ t. both (λ a. flag_tests r w rw c e t a)))))))
                  r refl))))))

flags_of_lem :
    (r w rw c e t a : Bool)
    → let flags = flags_of r w rw c e t a in
      (has flags creat ≡ c)
      × (has flags excl ≡ e)
      × (has flags trunc ≡ t)
      × (has flags append ≡ a)
      × (bit_and flags 3 ≡ access r w rw)
flags_of_lem r w rw c e t a =
    let (h1, rest1) = and_split _ _ (every_flag r w rw c e t a) in
    let (h2, rest2) = and_split _ _ rest1 in
    let (h3, rest3) = and_split _ _ rest2 in
    let (h4, h5) = and_split _ _ rest3 in
    (agree_eq _ _ h1, agree_eq _ _ h2, agree_eq _ _ h3, agree_eq _ _ h4, (==_iff _ _).0 h5)

-- The access modes of the platform are those of POSIX.
pub record IsAccmode (p : Platform) : Type 0 where
  pub is_rdonly : p.o_rdonly ≡ 0
  pub is_wronly : p.o_wronly ≡ 1
  pub is_rdwr : p.o_rdwr ≡ 2

access_lem : (m : ℕ) → m < 4 → access (m == 0) (m == 1) (m == 2) ≡ (if m == 3 then 0 else m + 1)
access_lem zero h = refl
access_lem (suc zero) h = refl
access_lem (suc (suc zero)) h = refl
access_lem (suc (suc (suc zero))) h = refl
access_lem (suc (suc (suc (suc n)))) h = absurd (omega arith)

bit_and-lt : (flags : ℕ) → bit_and flags 3 < 4
bit_and-lt flags = omega (arith, and_low 2 flags)

-- Each open flag of lfs2.c is set exactly where that of the platform is, and the access mode is the
-- platform's plus one, or 0 where both bits of the platform's are set.
fromflags_lem :
    (p : Platform) (flags : ℕ)
    → IsAccmode p
    → let converted = fromflags p flags in
      (has converted creat ≡ has flags p.o_creat)
      × (has converted excl ≡ has flags p.o_excl)
      × (has converted trunc ≡ has flags p.o_trunc)
      × (has converted append ≡ has flags p.o_append)
      × (bit_and converted 3 ≡ (if bit_and flags 3 == 3 then 0 else bit_and flags 3 + 1))
unfolding fromflags
fromflags_lem p flags h =
    let mode = bit_and flags 3 in
    let (h1, h2, h3, h4, h5) =
      flags_of_lem (mode == p.o_rdonly) (mode == p.o_wronly) (mode == p.o_rdwr)
        (has flags p.o_creat) (has flags p.o_excl) (has flags p.o_trunc) (has flags p.o_append) in
    (
      h1,
      h2,
      h3,
      h4,
      h5 ∙ (rw (h.is_rdonly, h.is_wronly, h.is_rdwr) (access_lem mode (bit_and-lt flags))),
    )
