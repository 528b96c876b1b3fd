-- ===== src/Mbed/Lifecycle.antt =====
-- What mounting, unmounting and reformatting leave behind, on every branch.
use native.Mathlib.Nat.{div-mul-le_self, mul-le-mul_right, mod-lt, mod-le}
use mbed_littlefs.Base.Multiple.{min_multiple}
use mbed_littlefs.Base.{
  ℕ, zero, suc, ◌+◌, ◌-◌, ◌*◌, ◌/◌, ◌%◌, ◌^◌, ◌≤◌, ◌<◌, max, min, ◌≡◌, ◌⊎◌, inl, inr, refl, arith,
  ==_refl, List, ◌∷◌, Option, none, some, true, false, Bool-cases, ℤ, pos, negsuc, u32,
}
use mbed_littlefs.Device.{Config}
use mbed_littlefs.Mbed.Refinement.{IsGeometry}
use mbed_littlefs.Mbed.Convert.{Platform, negate, toerror}
use mbed_littlefs.Mbed.Codes.{IsPlatform, IsNegative, toerror_sign}
use mbed_littlefs.Mbed.FileSystem.{
  Core, State, is_zero, configure, locked, mount, mount_done, mount_next, unmount, unmount_bd,
  reformat, reformat_end, reformat_next, reformat_mounted,
}
use mbed_littlefs.Mbed.Files.{file_open, file_close, dir_open, dir_close, open_end}

-- Success with the device mounted, or an error with none.
abbrev pub IsSettled : ℕ → ℤ → Option ℕ → Type 0
IsSettled bd res mounted =
    ((res ≡ pos 0) × (mounted ≡ some bd)) ⊎ ((is_zero res ≡ false) × (mounted ≡ none))

zero_lem : (n : ℤ) → is_zero n ≡ true → n ≡ pos 0
zero_lem (pos zero) h = refl
zero_lem (pos (suc n)) h = absurd (ground arith)
zero_lem (negsuc n) h = absurd (ground arith)

negative_nonzero : (n : ℤ) → IsNegative n → is_zero n ≡ false
negative_nonzero (pos n) h = absurd h
negative_nonzero (negsuc n) h = refl

module _ (core : Core) (p : Platform) (platform : IsPlatform p) where
  toerror_nonzero : (n : ℤ) → is_zero n ≡ false → is_zero (toerror p n) ≡ false
  toerror_nonzero (pos n) h = let same = (toerror_sign p platform).0 n in rw same h
  toerror_nonzero (negsuc n) h = negative_nonzero _ ((toerror_sign p platform).1 n)

  -- The result and the state after a call that was to mount `bd`, with the mutex held `n` times.
  abbrev pub Settles : ℕ → ℕ → ℤ × State core p → Type 0
  Settles bd n (res, s) = IsSettled bd res s.bd × (s.locks ≡ n)

  mount_done-Settles :
      (bd : ℕ) (err : ℤ) (s : State core p)
      → s.bd ≡ some bd
      → Settles bd (s.locks - 1) (mount_done core p err s)
  mount_done-Settles bd err s h = elim (Bool-cases (is_zero err)) [
    | inl e ↦ rw e (inl (refl, h), refl)
    | inr e ↦ rw e (inr (toerror_nonzero err e, refl), refl)
  ]

  mount_next-Settles :
      (bd : ℕ) (err : ℤ) (s : State core p)
      → s.bd ≡ some bd
      → Settles bd (s.locks - 1) (mount_next core p bd err s)
  unfolding mount_next
  mount_next-Settles bd err s h = elim (Bool-cases (is_zero err)) [
    | inl e ↦ rw e (mount_done-Settles bd _ _ h)
    | inr e ↦ rw e (inr (e, refl), refl)
  ]

  -- `mount` returns 0 with the device mounted, or an error with none, and it holds the mutex no more
  -- than before.
  pub mount-Settles : (bd : ℕ) (s : State core p) → Settles bd s.locks (mount core p bd s)
  unfolding mount
  mount-Settles bd s =
      let ends =
        mount_next-Settles bd (core.bd_init bd s.memory).0
          (record s { memory = (core.bd_init bd s.memory).1; bd = some bd; locks = s.locks + 1 })
          refl in
      (ends.0, omega (arith, ends.1))

  unmount_bd_lem :
      (mounted : Option ℕ) (s : State core p)
      → s.bd ≡ mounted
      → let (res, s') = unmount_bd core p mounted s in (s'.bd ≡ none) × (s'.locks ≡ s.locks)
  unmount_bd_lem none s h = (h, refl)
  unmount_bd_lem (some bd) s h = (refl, refl)

  -- `unmount` leaves no device mounted, and the mutex as it was.
  pub unmount_lem :
      (s : State core p) → let (res, s') = unmount core p s in (s'.bd ≡ none) × (s'.locks ≡ s.locks)
  unfolding unmount
  unmount_lem s =
      let ends = unmount_bd_lem s.bd (record s { locks = s.locks + 1 }) refl in
      (ends.0, omega (arith, ends.1))

  -- How `reformat` of the device ends, where there is one.
  abbrev pub Reformats : Option ℕ → ℕ → ℤ × State core p → Type 0
  Reformats none n (res, s) = (res ≡ negate p.enodev) × (s.bd ≡ none) × (s.locks ≡ n)
  Reformats (some bd) n (res, s) = Settles bd n (res, s)

  -- The device to reformat: the one given, or the one mounted.
  abbrev pub target : Option ℕ → Option ℕ → Option ℕ
  target none mounted = mounted
  target (some bd) mounted = some bd

  reformat_end-Settles :
      (bd : ℕ) (err : ℤ) (s : State core p)
      → s.bd ≡ none
      → Settles bd (s.locks - 1) (reformat_end core p bd (err, s))
  reformat_end-Settles bd err s h = elim (Bool-cases (is_zero err)) [
    | inl e ↦
        let (settled, kept) = mount-Settles bd s in
        rw e (elim settled [
          | inl (success, mounted) ↦ rw success (inl (refl, mounted), omega (arith, kept))
          | inr (failure, unmounted) ↦ rw failure (inr (failure, unmounted), omega (arith, kept))
        ])
    | inr e ↦ rw e (inr (e, h), refl)
  ]

  reformat_next-Reformats :
      (device : Option ℕ) (s : State core p)
      → s.bd ≡ none
      → Reformats device (s.locks - 1) (reformat_next core p device s)
  unfolding reformat_next
  reformat_next-Reformats none s h = (refl, h, refl)
  reformat_next-Reformats (some bd) s h = reformat_end-Settles bd _ _ h

  -- With `old` mounted before.
  unmounted_lem :
      (given : Option ℕ) (old : ℕ) (s : State core p)
      → Reformats
          (target given (some old))
          (s.locks - 1)
          (reformat_mounted core p given (some old) s)
  unmounted_lem none old s =
      let (unmounted, kept) = unmount_lem s in
      elim (Bool-cases (is_zero (unmount core p s).0)) [
        | inl e ↦
            rw e (rw kept at (reformat_next-Reformats (some old) (unmount core p s).1 unmounted))
        | inr e ↦ rw e (inr (e, unmounted), omega (arith, kept))
      ]
  unmounted_lem (some bd) old s =
      let (unmounted, kept) = unmount_lem s in
      elim (Bool-cases (is_zero (unmount core p s).0)) [
        | inl e ↦
            rw e (rw kept at (reformat_next-Reformats (some bd) (unmount core p s).1 unmounted))
        | inr e ↦ rw e (inr (e, unmounted), omega (arith, kept))
      ]

  reformat_mounted-Reformats :
      (given mounted : Option ℕ) (s : State core p)
      → s.bd ≡ mounted
      → Reformats (target given mounted) (s.locks - 1) (reformat_mounted core p given mounted s)
  reformat_mounted-Reformats none none s h = reformat_next-Reformats none s h
  reformat_mounted-Reformats (some bd) none s h = reformat_next-Reformats (some bd) s h
  reformat_mounted-Reformats none (some old) s h = unmounted_lem none old s
  reformat_mounted-Reformats (some bd) (some old) s h = unmounted_lem (some bd) old s

  -- `reformat` of the device given, or else of the mounted one, returns 0 with that device mounted,
  -- or an error with none mounted; where there is neither, it returns the error for no device. On
  -- every branch the mutex is left as it was, though `unmount` and `mount` lock it again.
  pub reformat-Reformats :
      (given : Option ℕ) (s : State core p)
      → Reformats (target given s.bd) s.locks (reformat core p given s)
  unfolding reformat
  reformat-Reformats given s =
      let released : s.locks + 1 - 1 ≡ s.locks = omega arith in
      rw released at (reformat_mounted-Reformats given s.bd (record s { locks = s.locks + 1 }) refl)

  -- How the opening of an object ends: where it returns 0 the handle is a new object, the only one
  -- that the call leaves behind; where it does not, the handle is as it was and no object is left.
  abbrev pub Opens : Option ℕ → State core p → (ℤ × Option ℕ) × State core p → Type 0
  Opens handle s ((res, out), s') =
      (((res ≡ pos 0) × (out ≡ some s.fresh) × (s'.live ≡ s.fresh ∷ s.live))
        ⊎ ((is_zero res ≡ false) × (out ≡ handle) × (s'.live ≡ s.live)))
      × (s'.locks ≡ s.locks)

  open_end-Opens :
      (handle : Option ℕ) (err : ℤ) (s s' : State core p)
      → s'.live ≡ s.fresh ∷ s.live
      → s'.locks ≡ s.locks
      → Opens handle s (open_end core p s.fresh handle (err, s'))
  open_end-Opens handle err s s' live kept = elim (Bool-cases (is_zero err)) [
    | inl e ↦ let success = zero_lem err e in rw (e, success) (inl (toerror_zero, refl, live), kept)
    | inr e ↦ rw (e, live, ==_refl s.fresh) (inr (toerror_nonzero err e, refl, refl), kept)
  ]
    where
      toerror_zero : toerror p (pos 0) ≡ pos 0
      toerror_zero = (toerror_sign p platform).0 0

  -- `file_open` and `dir_open` keep the new object exactly where they return 0, and do not touch
  -- `*file` on an error; what they opened, `file_close` and `dir_close` delete, whatever lfs2.c
  -- returns.
  pub file_open-Opens :
      (handle : Option ℕ) (path : List ℕ) (flags : ℕ) (s : State core p)
      → Opens handle s (file_open core p handle path flags s)
        × Opens handle s (dir_open core p handle path s)
        × ((f : ℕ) (rest : List ℕ) (open_state : State core p)
            → open_state.live ≡ f ∷ rest
            → ((file_close core p f open_state).1.live ≡ rest)
              × ((dir_close core p f open_state).1.live ≡ rest))
  unfolding file_open dir_open file_close dir_close locked
  file_open-Opens handle path flags s = (
    open_end-Opens handle _ s _ refl (omega arith),
    open_end-Opens handle _ s _ refl (omega arith),
    λ f rest t live. (rw (live, ==_refl f) refl, rw (live, ==_refl f) refl),
  )

-- The configuration that is derived from a device, whose erase and program size are words like the
-- block size of the class, has its blocks inside the device, blocks and caches no smaller than the
-- erase and the program size of the device, and a lookahead that is not larger than before and at most
-- 8 for each 64 blocks begun; a lookahead that is a multiple of 8 stays one.
pub configure_bounds :
    (cfg : Config) (read program erase size : ℕ)
    → cfg.block_size < 2 ^ 32
    → erase < 2 ^ 32
    → program < 2 ^ 32
    → let derived = configure cfg read program erase size in
      IsGeometry derived size
      × (erase ≤ derived.block_size)
      × (program ≤ derived.cache_size)
      × (cfg.lookahead_size % 8 ≡ 0 → derived.lookahead_size % 8 ≡ 0)
      × (derived.lookahead_size ≤ cfg.lookahead_size)
      × (derived.lookahead_size ≤ 8 * ((derived.block_count + 63) / 64))
unfolding configure
configure_bounds cfg read program erase size small small_erase small_program = (
  record {
    inside_device = inside (max cfg.block_size (u32 erase)) size;
    count_word =
        omega (arith, mod-lt (size / max cfg.block_size (u32 erase)) {m = 2 ^ 32} (omega arith));
    size_word = omega arith;
  },
  omega arith,
  omega arith,
  λ h.
      min_multiple cfg.lookahead_size
        (u32 (8 * (u32 (u32 (size / max cfg.block_size (u32 erase)) + 63) / 64))) 8 h
        (whole (u32 (u32 (size / max cfg.block_size (u32 erase)) + 63) / 64)),
  omega arith,
  fewer_bits (u32 (size / max cfg.block_size (u32 erase))),
)
  where
    fewer_bits :
        (count : ℕ)
        → min cfg.lookahead_size (u32 (8 * (u32 (count + 63) / 64))) ≤ 8 * ((count + 63) / 64)
    fewer_bits count = omega arith

    inside : (block_size size : ℕ) → u32 (size / block_size) * block_size ≤ size
    inside block_size size =
        let fewer : u32 (size / block_size) * block_size ≤ size / block_size * block_size =
          mul-le-mul_right block_size (mod-le (size / block_size) (2 ^ 32)) in
        omega (arith, div-mul-le_self size block_size)

    whole : (n : ℕ) → u32 (8 * n) % 8 ≡ 0
    whole n = omega arith
