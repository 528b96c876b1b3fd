-- ===== src/Fs/Pred.antt =====
-- `lfs2_fs_pred` of littlefs/lfs2.c: the pair before a pair in the list of all pairs.
use mathlib.Core.List.{Memᴰ}
use mathlib.Core.Path.{subst}
use mbed_littlefs.Base.{
  ℕ, zero, suc, ◌+◌, ◌≤◌, ◌≡◌, refl, ap, arith, true, false, Bool-cases, inl, inr, ◌⊎◌, List, [],
  ◌∷◌, length, noent, Outcome, ok, err,
}
use mbed_littlefs.Tag.{Pair, pair_isnull, pair_cmp}
use mbed_littlefs.Dir.{Mdir}
use mbed_littlefs.Dir.Walk.{Fetch}
use mbed_littlefs.Dir.Seek.{Fetches}
use mbed_littlefs.Fs.{pred_loop, fs_pred}

-- The tail of the metadata is the pair: they have a block in common.
abbrev pub Precedes : Pair → Mdir → Type 0
Precedes pair m = (pair_isnull m.tail ≡ false) × (pair_cmp m.tail pair ≡ false)

module _ {S : Type 0} (dir_fetch : Fetch S) (Holds : S → Type 0) where
  -- The tails lead from the first to each of the list, and the last has none.
  unfoldable pub IsThread : Mdir → List Mdir → Type 0
  IsThread m [] = pair_isnull m.tail ≡ true
  IsThread m (d ∷ ds) =
      (pair_isnull m.tail ≡ false) × (Fetches dir_fetch Holds m.tail d) × (IsThread d ds)

  -- The metadata whose tail is the pair, or the error that none of them has it as its tail.
  abbrev pub Searched : Pair → List Mdir → Outcome (Unit {0}) × (Mdir × S) → Type 0
  Searched pair ms r =
      ((r.0 ≡ ok tt) × (Memᴰ r.1.0 ms) × (Precedes pair r.1.0))
      ⊎ ((r.0 ≡ err noent) × ((m : Mdir) → Memᴰ m ms → ¬ (Precedes pair m)))

  Searched-cons :
      (pair : Pair) (m : Mdir) (ms : List Mdir) (r : Outcome (Unit {0}) × (Mdir × S))
      → ¬ (Precedes pair m)
      → Searched pair ms r
      → Searched pair (m ∷ ms) r
  Searched-cons pair m ms r differs (inl (success, there, precedes)) =
      inl (success, Memᴰ.tail there, precedes)
  Searched-cons pair m ms r differs (inr (failure, absent)) = inr (
    failure,
    λ m' there precedes. elim there [
      | Memᴰ.head e ↦ differs (subst (Precedes pair) e precedes)
      | Memᴰ.tail there' ↦ absent m' there' precedes
    ],
  )

  Searched-nil :
      (pair : Pair) (r : Outcome (Unit {0}) × (Mdir × S)) → r.0 ≡ err noent → Searched pair [] r
  Searched-nil pair r failure = inr (failure, λ m there precedes. elim there [ ])

  -- A round of the loop.
  round_lem :
      (fuel : ℕ) (pair : Pair) (m d : Mdir) (s : S)
      → pair_isnull m.tail ≡ false
      → pair_cmp m.tail pair ≡ true
      → (dir_fetch m.tail (m, s)).0 ≡ ok tt
      → (dir_fetch m.tail (m, s)).1.0 ≡ d
      → pred_loop dir_fetch (suc fuel) pair (m, s)
        ≡ pred_loop dir_fetch fuel pair (d, (dir_fetch m.tail (m, s)).1.1)
  unfolding pred_loop
  round_lem fuel pair m d s more differs success found =
      rw (more, pred_loop)
        (rw differs (
          rw success
            (ap (λ m'. pred_loop dir_fetch fuel pair (m', (dir_fetch m.tail (m, s)).1.1)) found)))

  pred_loop-Searched :
      (ds : List Mdir) (fuel : ℕ) (pair : Pair) (m : Mdir) (s : S)
      → Holds s
      → IsThread m ds
      → length ds + 1 ≤ fuel
      → Searched pair (m ∷ ds) (pred_loop dir_fetch fuel pair (m, s))
  unfolding pred_loop IsThread
  pred_loop-Searched [] zero pair m s holds thread enough = absurd (omega arith)
  pred_loop-Searched [] (suc fuel) pair m s holds thread enough =
      Searched-cons pair m [] (pred_loop dir_fetch (suc fuel) pair (m, s)) (λ precedes. cc)
        (Searched-nil pair (pred_loop dir_fetch (suc fuel) pair (m, s))
          (rw (thread, pred_loop) refl))
  pred_loop-Searched (d ∷ ds) zero pair m s holds thread enough = absurd (omega arith)
  pred_loop-Searched (d ∷ ds) (suc fuel) pair m s holds (more, fetches, thread) enough =
      elim (Bool-cases (pair_cmp m.tail pair)) [
        | inr h ↦ rw (more, pred_loop) (rw h (inl (refl, Memᴰ.head refl, (more, h))))
        | inl h ↦
            let (success, found, kept) = fetches (m, s) holds in
            let rest =
              pred_loop-Searched ds fuel pair d (dir_fetch m.tail (m, s)).1.1 kept thread
                (omega arith) in
            rw (round_lem fuel pair m d s more h success found) (
              Searched-cons pair m (d ∷ ds)
                (pred_loop dir_fetch fuel pair (d, (dir_fetch m.tail (m, s)).1.1)) (λ precedes. cc)
                rest)
      ]

  -- Where every fetch of the list of all metadata pairs succeeds, the list ends, and the fuel exceeds
  -- its length, `lfs2_fs_pred` ends: it returns 0 with metadata of the list, or the start that stands
  -- for the list's anchor, whose tail has a block in common with the pair, or `LFS2_ERR_NOENT`, and
  -- then there is none.
  pub fs_pred-Searched :
      (ds : List Mdir) (fuel : ℕ) (pair : Pair) (pdir : Mdir) (s : S)
      → Holds s
      → IsThread (record pdir { tail = (0, 1) }) ds
      → length ds + 1 ≤ fuel
      → Searched pair (record pdir { tail = (0, 1) } ∷ ds) (fs_pred dir_fetch fuel pair (pdir, s))
  unfolding fs_pred
  fs_pred-Searched ds fuel pair pdir s holds thread enough =
      pred_loop-Searched ds fuel pair (record pdir { tail = (0, 1) }) s holds thread enough
